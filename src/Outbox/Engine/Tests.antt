-- ===== src/Outbox/Engine/Tests.antt =====
-- The engine on a concrete run.
use loramapr_receiver.Base.{Option, none, some, [], ◌∷◌, refl, Result, ok, err}
use loramapr_receiver.Outbox.Listed.{listed}
use loramapr_receiver.Outbox.Tests.{sample, empty_store, empty_store-IsValid}
use loramapr_receiver.Outbox.Engine.{
  EngineConfig, Engine, new_engine, engine_defaults, try_stage, step, Event, receives, enqueues_at,
  releases, reports, closes_stage, returns,
}
use loramapr_receiver.Outbox.Engine.Runs.{Reaches, starts, stages, steps, IsSound}
use loramapr_receiver.Outbox.Engine.Staging.{Reaches-IsSound}

abbrev stage_config : EngineConfig
stage_config = record { stage_max_events = 1; stage_max_bytes = 100; prune_interval = 0 }

abbrev ok_or : Result (Engine listed) → Engine listed → Engine listed
ok_or (ok e) d = e
ok_or (err x) d = d

abbrev some_or : Option (Engine listed) → Engine listed → Engine listed
some_or (some e) d = e
some_or none d = d

abbrev e0 : Engine listed
e0 = new_engine listed empty_store stage_config

abbrev e1 : Engine listed
e1 = ok_or (try_stage listed sample e0) e0

abbrev after : Event → Engine listed → Engine listed
after v e = some_or (step listed v e) e

abbrev e2 : Engine listed
e2 = after receives e1

abbrev e3 : Engine listed
e3 = after (enqueues_at 5) e2

abbrev e4 : Engine listed
e4 = after releases e3

abbrev e5 : Engine listed
e5 = after reports e4

abbrev e6 : Engine listed
e6 = after closes_stage e5

abbrev e7 : Engine listed
e7 = after returns e6

run : Reaches listed empty_store stage_config (sample.delivery_id ∷ []) (sample.delivery_id ∷ []) e7
unfolding new_engine engine_defaults try_stage step
run =
    steps returns
      (steps closes_stage
        (steps reports
          (steps releases
            (steps (enqueues_at 5) (steps receives (stages sample starts refl) refl) refl) refl)
          refl)
        refl)
      refl

Reaches-IsSound_example : IsSound listed (sample.delivery_id ∷ []) (sample.delivery_id ∷ []) e7
Reaches-IsSound_example = Reaches-IsSound listed run empty_store-IsValid
