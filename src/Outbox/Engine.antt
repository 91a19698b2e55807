-- ===== src/Outbox/Engine.antt =====
-- engine.go: the writer of the outbox, its stage of accepted deliveries and its results.
pub mod Runs
pub mod Inversion
pub mod Staging
pub mod Draining
pub mod Tests
use loramapr_receiver.Base.{
  ℕ, ◌+◌, ◌-◌, ◌*◌, ◌||◌, Bool, true, false, Option, none, some, List, [], ◌∷◌, ◌++◌, Text, Result,
  ok, err, Error, ◌>>=◌, ◌>>◌, guard, refuse, stage_full, engine_closed, length, leb, ltb, ◌==◌,
  if◌then◌else◌,
}
use loramapr_receiver.Outbox.Types.{Delivery, Time}
use loramapr_receiver.Outbox.Platform.{Platform}
use loramapr_receiver.Outbox.Store.{Store}
use loramapr_receiver.Outbox.Enqueue.{enqueue}
use loramapr_receiver.Outbox.Prune.{prune_quarantine}
use loramapr_receiver.Outbox.Operations.{Operation, perform}

pub record EngineConfig : Type 0 where
  pub stage_max_events : ℕ
  pub stage_max_bytes : ℕ
  pub prune_interval : ℕ

-- The defaults of types.go and store.go that `NewEngine` sets for what is not positive.
abbrev pub or_default : ℕ → ℕ → ℕ
or_default n default = if n == 0 then default else n

unfoldable pub engine_defaults : EngineConfig → EngineConfig
engine_defaults cfg = record {
  stage_max_events = or_default cfg.stage_max_events 256;
  stage_max_bytes = or_default cfg.stage_max_bytes (2 * 1024 * 1024);
  prune_interval = or_default cfg.prune_interval (3600 * 1000000000);
}

pub record StagedDelivery : Type 0 where
  pub delivery : Delivery
  pub size : ℕ

pub record StageResult : Type 0 where
  pub delivery_id : Text
  pub result : Result (Unit {0})

-- Where the goroutine of `run` stands: in its select, before and after `Enqueue` of a received item,
-- before the send of a result, or returned.
pub data Writer : Type 0 where
  selecting : Writer
  enqueuing : StagedDelivery → Writer
  releasing : StagedDelivery → Result (Unit {0}) → Writer
  reporting : StageResult → Writer
  returned : Writer

-- What a goroutine does next: `run` receives, enqueues, releases the bytes, sends the result, takes
-- an operation or a tick, or returns; a client takes a result or closes the engine.
pub data Event : Type 0 where
  receives : Event
  enqueues_at : Time → Event
  releases : Event
  reports : Event
  operates : Operation → Event
  ticks : Time → Event
  returns : Event
  takes : Event
  closes_stage : Event

module _ (p : Platform) where
  open p use {Raw, raw_size, marshal_delivery}

  -- `stage` and `results` are the buffered channels; `closed` tells that `stage` is closed.
  pub record Engine : Type 0 where
    pub store : Store p
    pub accepting : Bool
    pub stage_bytes : ℕ
    pub stage : List StagedDelivery
    pub closed : Bool
    pub results : List StageResult
    pub writer : Writer
    pub cfg : EngineConfig

  unfoldable pub new_engine : Store p → EngineConfig → Engine
  new_engine s cfg = record {
    store = s;
    accepting = true;
    stage_bytes = 0;
    stage = [];
    closed = false;
    results = [];
    writer = selecting;
    cfg = engine_defaults cfg;
  }

  -- `TryStage`, with the engine that it leaves if it does not fail.
  unfoldable pub try_stage : Delivery → Engine → Result Engine
  try_stage d e = do
    encoded ← marshal_delivery d
    guard e.accepting engine_closed
    refuse
        (leb e.cfg.stage_max_events (length e.stage)
          || ltb e.cfg.stage_max_bytes (e.stage_bytes + raw_size encoded))
        stage_full
    ok (record e {
      stage = e.stage ++ (record { delivery = d; size = raw_size encoded } ∷ []);
      stage_bytes = e.stage_bytes + raw_size encoded;
    })

  abbrev pub receive : List StagedDelivery → Engine → Option Engine
  receive [] e = none
  receive (item ∷ rest) e = some (record e { stage = rest; writer = enqueuing item })

  abbrev pub return_if_done : List StagedDelivery → Engine → Option Engine
  return_if_done [] e = if e.closed then some (record e { writer = returned }) else none
  return_if_done (item ∷ rest) e = none

  abbrev pub take_result : List StageResult → Engine → Option Engine
  take_result [] e = none
  take_result (r ∷ rs) e = some (record e { results = rs })

  abbrev pub enqueued : StagedDelivery → Engine → Store p × Result (Unit {0}) → Option Engine
  enqueued item e (s, r) = some (record e { store = s; writer = releasing item r })

  -- The channel of results has as many places as the stage.
  abbrev pub send_result : StageResult → Engine → Option Engine
  send_result r e =
      if ltb (length e.results) e.cfg.stage_max_events
      then some (record e { results = e.results ++ (r ∷ []); writer = selecting })
      else none

  abbrev pub release : Writer → Engine → Option Engine
  release (releasing item r) e = some (record e {
    stage_bytes = e.stage_bytes - item.size;
    writer = reporting (record { delivery_id = item.delivery.delivery_id; result = r });
  })
  release _ e = none

  abbrev pub report : Writer → Engine → Option Engine
  report (reporting r) e = send_result r e
  report _ e = none

  -- A step, if it can be taken: what a goroutine that blocks does not do is `none`.
  unfoldable pub step : Event → Engine → Option Engine
  step receives e = elim e.writer [ selecting ↦ receive e.stage e | _ ↦ none ]
  step (enqueues_at now) e = elim e.writer [
    | enqueuing item ↦ enqueued item e (enqueue p now item.delivery e.store)
    | _ ↦ none
  ]
  step releases e = release e.writer e
  step reports e = report e.writer e
  step (operates o) e = elim e.writer [
    | selecting ↦ some (record e { store = perform p o e.store })
    | _ ↦ none
  ]
  step (ticks now) e = elim e.writer [
    | selecting ↦ some (record e { store = (prune_quarantine p now e.store).0 })
    | _ ↦ none
  ]
  step returns e = elim e.writer [ selecting ↦ return_if_done e.stage e | _ ↦ none ]
  step takes e = take_result e.results e
  step closes_stage e = some (record e { accepting = false; closed = true })
