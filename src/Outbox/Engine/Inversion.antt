-- ===== src/Outbox/Engine/Inversion.antt =====
-- What a step of the engine that is taken has found and left.
use loramapr_receiver.Base.{
  ◌+◌, ◌-◌, ◌≤◌, true, some, [], ◌∷◌, ◌++◌, ◌≡◌, refl, Result, ok, arith, length,
}
use loramapr_receiver.Outbox.Types.{Delivery, Time}
use loramapr_receiver.Outbox.Platform.{Platform}
use loramapr_receiver.Outbox.Enqueue.{enqueue}
use loramapr_receiver.Outbox.Operations.{Operation, prunes, perform}
use loramapr_receiver.Outbox.Engine.{
  StagedDelivery, StageResult, Writer, selecting, enqueuing, releasing, reporting, returned, Engine,
  try_stage, step, receives, enqueues_at, operates, ticks, returns, receive, release, report,
}

module _ (p : Platform) where
  pub record Staged (d : Delivery) (e e' : Engine p) : Type 0 where
    pub encoded : p.Raw
    pub marshalled : p.marshal_delivery d ≡ ok encoded
    pub open_stage : e.accepting ≡ true
    pub event_fits : length e.stage + 1 ≤ e.cfg.stage_max_events
    pub bytes_fit : e.stage_bytes + p.raw_size encoded ≤ e.cfg.stage_max_bytes
    pub result : e' ≡ record e {
      stage = e.stage ++ (record { delivery = d; size = p.raw_size encoded } ∷ []);
      stage_bytes = e.stage_bytes + p.raw_size encoded;
    }

  pub try_stage-eq-ok : (d : Delivery) (e e' : Engine p) → try_stage p d e ≡ ok e' → Staged d e e'
  unfolding try_stage
  try_stage-eq-ok d e e' h = ground arith

  pub receives-eq-some :
      (e e' : Engine p)
      → step p receives e ≡ some e'
      → (e.writer ≡ selecting) × (receive p e.stage e ≡ some e')
  unfolding step
  receives-eq-some e e' h = ground arith

  pub enqueues_at-eq-some :
      (now : Time) (e e' : Engine p)
      → step p (enqueues_at now) e ≡ some e'
      → (item : StagedDelivery) × (e.writer ≡ enqueuing item)
        × (e' ≡ record e {
          store = (enqueue p now item.delivery e.store).0;
          writer = releasing item (enqueue p now item.delivery e.store).1;
        })
  unfolding step
  enqueues_at-eq-some now e e' h = ground arith

  pub record Released (w : Writer) (e e' : Engine p) : Type 0 where
    pub item : StagedDelivery
    pub result : Result (Unit {0})
    pub before : w ≡ releasing item result
    pub after : e' ≡ record e {
      stage_bytes = e.stage_bytes - item.size;
      writer = reporting (record { delivery_id = item.delivery.delivery_id; result = result });
    }

  pub release-eq-some : (w : Writer) (e e' : Engine p) → release p w e ≡ some e' → Released w e e'
  release-eq-some (releasing item r) e e' h = record {
    item = item;
    result = r;
    before = refl;
    after = ground arith;
  }
  release-eq-some selecting e e' h = cc h
  release-eq-some (enqueuing item) e e' h = cc h
  release-eq-some (reporting r) e e' h = cc h
  release-eq-some returned e e' h = cc h

  pub record Reported (w : Writer) (e e' : Engine p) : Type 0 where
    pub result : StageResult
    pub before : w ≡ reporting result
    pub room : length e.results + 1 ≤ e.cfg.stage_max_events
    pub after : e' ≡ record e { results = e.results ++ (result ∷ []); writer = selecting }

  pub report-eq-some : (w : Writer) (e e' : Engine p) → report p w e ≡ some e' → Reported w e e'
  report-eq-some (reporting r) e e' h = record {
    result = r;
    before = refl;
    room = ground arith;
    after = ground arith;
  }
  report-eq-some selecting e e' h = cc h
  report-eq-some (enqueuing item) e e' h = cc h
  report-eq-some (releasing item r) e e' h = cc h
  report-eq-some returned e e' h = cc h

  pub operates-eq-some :
      (o : Operation) (e e' : Engine p)
      → step p (operates o) e ≡ some e'
      → (e.writer ≡ selecting) × (e' ≡ record e { store = perform p o e.store })
  unfolding step
  operates-eq-some o e e' h = ground arith

  pub ticks-eq-some :
      (now : Time) (e e' : Engine p)
      → step p (ticks now) e ≡ some e'
      → (e.writer ≡ selecting) × (e' ≡ record e { store = perform p (prunes now) e.store })
  unfolding step perform
  ticks-eq-some now e e' h = ground arith

  pub returns-eq-some :
      (e e' : Engine p)
      → step p returns e ≡ some e'
      → (e.writer ≡ selecting)
        × (e.stage ≡ [])
        × (e.closed ≡ true)
        × (e' ≡ record e { writer = returned })
  unfolding step
  returns-eq-some e e' h = ground arith
