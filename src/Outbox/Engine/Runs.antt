-- ===== src/Outbox/Engine/Runs.antt =====
-- The runs of the engine and its invariant: the bounds of the stage, and what becomes of each accepted
-- delivery.
use loramapr_receiver.Base.{
  ℕ, ◌+◌, ◌≤◌, true, not, some, List, [], ◌∷◌, ◌++◌, ◌≡◌, refl, ap, Text, ok, arith, length,
}
use loramapr_receiver.Outbox.Types.{Delivery}
use loramapr_receiver.Outbox.Platform.{Platform}
use loramapr_receiver.Outbox.Store.{Store}
use loramapr_receiver.Outbox.Operations.Validity.{StoreIsValid}
use loramapr_receiver.Outbox.Engine.{
  EngineConfig, StagedDelivery, Writer, enqueuing, releasing, reporting, returned, Engine,
  new_engine, try_stage, Event, step, reports,
}

abbrev pub sizes : List StagedDelivery → ℕ
sizes [] = 0
sizes (x ∷ xs) = x.size + sizes xs

abbrev pub ids : List StagedDelivery → List Text
ids [] = []
ids (x ∷ xs) = x.delivery.delivery_id ∷ ids xs

-- The bytes that the writer has taken from the stage and not released.
abbrev pub held_bytes : Writer → ℕ
held_bytes (enqueuing item) = item.size
held_bytes (releasing item r) = item.size
held_bytes _ = 0

-- The delivery that the writer has received and not reported.
abbrev pub held_ids : Writer → List Text
held_ids (enqueuing item) = item.delivery.delivery_id ∷ []
held_ids (releasing item r) = item.delivery.delivery_id ∷ []
held_ids (reporting r) = r.delivery_id ∷ []
held_ids _ = []

pub sizes-append : (xs ys : List StagedDelivery) → sizes (xs ++ ys) ≡ sizes xs + sizes ys
sizes-append [] ys = omega arith
sizes-append (x ∷ xs) ys = omega (arith, sizes-append xs ys)

pub ids-append : (xs ys : List StagedDelivery) → ids (xs ++ ys) ≡ ids xs ++ ids ys
ids-append [] ys = refl
ids-append (x ∷ xs) ys = ap (◌∷◌ x.delivery.delivery_id) (ids-append xs ys)

-- What an event reports.
abbrev pub reported_by : Event → Writer → List Text
reported_by reports (reporting r) = r.delivery_id ∷ []
reported_by _ _ = []

module _ (p : Platform) where
  -- The engines that a run reaches, with the identifiers of the deliveries accepted by `TryStage` and
  -- of the results sent, each in its order.
  pub data Reaches (s : Store p) (cfg : EngineConfig)
      : List Text → List Text → Engine p → Type 0 where
    starts : Reaches s cfg [] [] (new_engine p s cfg)
    stages :
        {accepted reported : List Text} {e e' : Engine p} (d : Delivery)
        → Reaches s cfg accepted reported e
        → try_stage p d e ≡ ok e'
        → Reaches s cfg (accepted ++ (d.delivery_id ∷ [])) reported e'
    steps :
        {accepted reported : List Text} {e e' : Engine p} (v : Event)
        → Reaches s cfg accepted reported e
        → step p v e ≡ some e'
        → Reaches s cfg accepted (reported ++ reported_by v e.writer) e'

  -- The writer has returned only from an empty closed stage.
  abbrev pub HasReturned : Engine p → Type 0
  HasReturned e = e.writer ≡ returned → (e.stage ≡ []) × (e.closed ≡ true)

  pub record IsSound (accepted reported : List Text) (e : Engine p) : Type 0 where
    pub measured : e.stage_bytes ≡ held_bytes e.writer + sizes e.stage
    pub bytes_bounded : e.stage_bytes ≤ e.cfg.stage_max_bytes
    pub events_bounded : length e.stage ≤ e.cfg.stage_max_events
    pub results_bounded : length e.results ≤ e.cfg.stage_max_events
    pub in_order : accepted ≡ reported ++ (held_ids e.writer ++ ids e.stage)
    pub closing : e.accepting ≡ not e.closed
    pub done : HasReturned e
    pub store : StoreIsValid p e.store
