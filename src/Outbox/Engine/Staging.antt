-- ===== src/Outbox/Engine/Staging.antt =====
-- Every run of the engine keeps its invariant, and no accepted delivery is lost.
use loramapr_receiver.Base.{
  true, false, some, List, [], ◌∷◌, ◌++◌, ◌≡◌, refl, sym, ap, ◌∙◌, subst, Text, ok, arith, length,
  length-append, append_assoc, append-nil,
}
use loramapr_receiver.Outbox.Types.{Delivery, Time}
use loramapr_receiver.Outbox.Platform.{Platform}
use loramapr_receiver.Outbox.Store.{Store}
use loramapr_receiver.Outbox.Operations.{Operation, prunes, enqueues, perform}
use loramapr_receiver.Outbox.Operations.Validity.{StoreIsValid, perform-StoreIsValid}
use loramapr_receiver.Outbox.Engine.{
  EngineConfig, StagedDelivery, StageResult, selecting, enqueuing, Engine, new_engine,
  engine_defaults, try_stage, Event, step, receives, enqueues_at, releases, reports, operates,
  ticks, returns, takes, closes_stage, receive, take_result, release, report,
}
use loramapr_receiver.Outbox.Engine.Runs.{
  sizes, ids, held_bytes, held_ids, reported_by, sizes-append, ids-append, Reaches, starts, stages,
  steps, IsSound,
}
use loramapr_receiver.Outbox.Engine.Inversion.{
  try_stage-eq-ok, receives-eq-some, enqueues_at-eq-some, release-eq-some, report-eq-some,
  operates-eq-some, ticks-eq-some, returns-eq-some,
}

module _ (p : Platform) where
  new_engine-IsSound :
      (s : Store p) (cfg : EngineConfig) → StoreIsValid p s → IsSound p [] [] (new_engine p s cfg)
  unfolding new_engine engine_defaults
  new_engine-IsSound s cfg v = record {
    measured = refl;
    bytes_bounded = omega arith;
    events_bounded = omega arith;
    results_bounded = omega arith;
    in_order = refl;
    closing = refl;
    done = λ h. cc h;
    store = v;
  }

  try_stage-IsSound :
      {accepted reported : List Text} (d : Delivery) (e e' : Engine p)
      → IsSound p accepted reported e
      → try_stage p d e ≡ ok e'
      → IsSound p (accepted ++ (d.delivery_id ∷ [])) reported e'
  try_stage-IsSound {accepted = a} {reported = r} d e e' i h =
      let s = try_stage-eq-ok p d e e' h in
      let item : StagedDelivery = record { delivery = d; size = p.raw_size s.encoded } in
      subst (IsSound p (a ++ (d.delivery_id ∷ [])) r) (sym s.result) (record {
        measured = omega (arith, i.measured, sizes-append e.stage (item ∷ []));
        bytes_bounded = s.bytes_fit;
        events_bounded = omega (arith, s.event_fits, length-append e.stage (item ∷ []));
        results_bounded = i.results_bounded;
        in_order =
            ap (◌++ (d.delivery_id ∷ [])) i.in_order
            ∙ append_assoc r (held_ids e.writer ++ ids e.stage) (d.delivery_id ∷ [])
            ∙ ap (r ++◌) (
                append_assoc (held_ids e.writer) (ids e.stage) (d.delivery_id ∷ [])
                ∙ ap (held_ids e.writer ++◌) (sym (ids-append e.stage (item ∷ []))));
        closing = i.closing;
        done = λ k. absurd (ground (arith, i.done k, i.closing, s.open_stage));
        store = i.store;
      })

  -- The steps of the writer, by where it stands, each from what the stage or the results hold.
  module _ {accepted reported : List Text} where
    received :
        (e e' : Engine p) (stage : List StagedDelivery)
        → e.stage ≡ stage
        → e.writer ≡ selecting
        → IsSound p accepted reported e
        → receive p stage e ≡ some e'
        → IsSound p accepted reported e'
    received e e' [] s w i h = cc h
    received e e' (item ∷ rest) s w i h = subst (IsSound p accepted reported) result (record {
      measured = omega (arith, i.measured, ap sizes s, ap held_bytes w);
      bytes_bounded = i.bytes_bounded;
      events_bounded = omega (arith, i.events_bounded, ap (λ xs. length xs) s);
      results_bounded = i.results_bounded;
      in_order = i.in_order ∙ ap (reported ++◌) (rw (s, w) refl);
      closing = i.closing;
      done = λ k. cc k;
      store = i.store;
    })
      where
        result : record e { stage = rest; writer = enqueuing item } ≡ e'
        result = ground (arith, h)

  -- The steps of the writer keep the invariant.
  enqueues_at-IsSound :
      {accepted reported : List Text} (now : Time) (e e' : Engine p)
      → IsSound p accepted reported e
      → step p (enqueues_at now) e ≡ some e'
      → IsSound p accepted reported e'
  unfolding perform
  enqueues_at-IsSound {accepted = a} {reported = r} now e e' i h =
      let (item, w, result) = enqueues_at-eq-some p now e e' h in
      subst (IsSound p a r) (sym result) (record {
        measured = omega (arith, i.measured, ap held_bytes w);
        bytes_bounded = i.bytes_bounded;
        events_bounded = i.events_bounded;
        results_bounded = i.results_bounded;
        in_order = i.in_order ∙ ap (λ x. r ++ (held_ids x ++ ids e.stage)) w;
        closing = i.closing;
        done = λ k. cc k;
        store = perform-StoreIsValid p (enqueues now item.delivery) e.store i.store;
      })

  releases-IsSound :
      {accepted reported : List Text} (e e' : Engine p)
      → IsSound p accepted reported e
      → release p e.writer e ≡ some e'
      → IsSound p accepted reported e'
  releases-IsSound {accepted = a} {reported = r} e e' i h =
      let u = release-eq-some p e.writer e e' h in
      subst (IsSound p a r) (sym u.after) (record {
        measured = omega (arith, i.measured, ap held_bytes u.before);
        bytes_bounded = omega (arith, i.bytes_bounded);
        events_bounded = i.events_bounded;
        results_bounded = i.results_bounded;
        in_order = i.in_order ∙ ap (λ x. r ++ (held_ids x ++ ids e.stage)) u.before;
        closing = i.closing;
        done = λ k. cc k;
        store = i.store;
      })

  reports-IsSound :
      {accepted reported : List Text} (e e' : Engine p)
      → IsSound p accepted reported e
      → report p e.writer e ≡ some e'
      → IsSound p accepted (reported ++ reported_by reports e.writer) e'
  reports-IsSound {accepted = a} {reported = r} e e' i h =
      let u = report-eq-some p e.writer e e' h in
      subst (IsSound p a (r ++ reported_by reports e.writer)) (sym u.after) (record {
        measured = omega (arith, i.measured, ap held_bytes u.before);
        bytes_bounded = i.bytes_bounded;
        events_bounded = i.events_bounded;
        results_bounded = omega (arith, u.room, length-append e.results (u.result ∷ []));
        in_order =
            i.in_order
            ∙ ap (λ x. r ++ (held_ids x ++ ids e.stage)) u.before
            ∙ sym (append_assoc r (u.result.delivery_id ∷ []) (ids e.stage))
            ∙ ap (λ x. (r ++ reported_by reports x) ++ ids e.stage) (sym u.before);
        closing = i.closing;
        done = λ k. cc k;
        store = i.store;
      })

  operated-IsSound :
      {accepted reported : List Text} (o : Operation) (e e' : Engine p)
      → IsSound p accepted reported e
      → e' ≡ record e { store = perform p o e.store }
      → IsSound p accepted reported e'
  operated-IsSound {accepted = a} {reported = r} o e e' i h =
      subst (IsSound p a r) (sym h) (record {
        measured = i.measured;
        bytes_bounded = i.bytes_bounded;
        events_bounded = i.events_bounded;
        results_bounded = i.results_bounded;
        in_order = i.in_order;
        closing = i.closing;
        done = i.done;
        store = perform-StoreIsValid p o e.store i.store;
      })

  returns-IsSound :
      {accepted reported : List Text} (e e' : Engine p)
      → IsSound p accepted reported e
      → step p returns e ≡ some e'
      → IsSound p accepted reported e'
  returns-IsSound {accepted = a} {reported = r} e e' i h =
      let (w, s, c, result) = returns-eq-some p e e' h in
      subst (IsSound p a r) (sym result) (record {
        measured = omega (arith, i.measured, ap held_bytes w);
        bytes_bounded = i.bytes_bounded;
        events_bounded = i.events_bounded;
        results_bounded = i.results_bounded;
        in_order = i.in_order ∙ ap (λ x. r ++ (held_ids x ++ ids e.stage)) w;
        closing = i.closing;
        done = λ k. (s, c);
        store = i.store;
      })

  takes-IsSound :
      {accepted reported : List Text} (e e' : Engine p) (rs : List StageResult)
      → e.results ≡ rs
      → IsSound p accepted reported e
      → take_result p rs e ≡ some e'
      → IsSound p accepted reported e'
  takes-IsSound e e' [] s i h = cc h
  takes-IsSound {accepted = a} {reported = r} e e' (x ∷ rs) s i h =
      subst (IsSound p a r) result (record {
        measured = i.measured;
        bytes_bounded = i.bytes_bounded;
        events_bounded = i.events_bounded;
        results_bounded = omega (arith, i.results_bounded, ap (λ xs. length xs) s);
        in_order = i.in_order;
        closing = i.closing;
        done = i.done;
        store = i.store;
      })
    where
      result : record e { results = rs } ≡ e'
      result = ground (arith, h)

  closes_stage-IsSound :
      {accepted reported : List Text} (e e' : Engine p)
      → IsSound p accepted reported e
      → step p closes_stage e ≡ some e'
      → IsSound p accepted reported e'
  unfolding step
  closes_stage-IsSound {accepted = a} {reported = r} e e' i h =
      subst (IsSound p a r) result (record {
        measured = i.measured;
        bytes_bounded = i.bytes_bounded;
        events_bounded = i.events_bounded;
        results_bounded = i.results_bounded;
        in_order = i.in_order;
        closing = refl;
        done = λ k. ((i.done k).0, refl);
        store = i.store;
      })
    where
      result : record e { accepting = false; closed = true } ≡ e'
      result = ground (arith, h)

  step-IsSound :
      {accepted reported : List Text} (v : Event) (e e' : Engine p)
      → IsSound p accepted reported e
      → step p v e ≡ some e'
      → IsSound p accepted (reported ++ reported_by v e.writer) e'
  unfolding step
  step-IsSound {accepted = a} {reported = r} receives e e' i h =
      let (w, rest) = receives-eq-some p e e' h in
      subst (λ x. IsSound p a x e') (sym (append-nil r)) (received e e' e.stage refl w i rest)
  step-IsSound {accepted = a} {reported = r} (enqueues_at now) e e' i h =
      subst (λ x. IsSound p a x e') (sym (append-nil r)) (enqueues_at-IsSound now e e' i h)
  step-IsSound {accepted = a} {reported = r} releases e e' i h =
      subst (λ x. IsSound p a x e') (sym (append-nil r)) (releases-IsSound e e' i h)
  step-IsSound reports e e' i h = reports-IsSound e e' i h
  step-IsSound {accepted = a} {reported = r} (operates o) e e' i h =
      subst (λ x. IsSound p a x e') (sym (append-nil r))
        (operated-IsSound o e e' i (operates-eq-some p o e e' h).1)
  step-IsSound {accepted = a} {reported = r} (ticks now) e e' i h =
      subst (λ x. IsSound p a x e') (sym (append-nil r))
        (operated-IsSound (prunes now) e e' i (ticks-eq-some p now e e' h).1)
  step-IsSound {accepted = a} {reported = r} returns e e' i h =
      subst (λ x. IsSound p a x e') (sym (append-nil r)) (returns-IsSound e e' i h)
  step-IsSound {accepted = a} {reported = r} takes e e' i h =
      subst (λ x. IsSound p a x e') (sym (append-nil r)) (takes-IsSound e e' e.results refl i h)
  step-IsSound {accepted = a} {reported = r} closes_stage e e' i h =
      subst (λ x. IsSound p a x e') (sym (append-nil r)) (closes_stage-IsSound e e' i h)

  -- In every run that starts on a valid store, `stageBytes` is the size of what is staged or in the
  -- writer's hand and stays within its bound, as do the stage and the results; the accepted deliveries
  -- are those reported, that in the writer's hand and those staged, in this order; the writer returns
  -- only from an empty and closed stage; and the store stays valid.
  pub Reaches-IsSound :
      {s : Store p} {cfg : EngineConfig} {accepted reported : List Text} {e : Engine p}
      → Reaches p s cfg accepted reported e
      → StoreIsValid p s
      → IsSound p accepted reported e
  Reaches-IsSound {s} {cfg} starts v = new_engine-IsSound s cfg v
  Reaches-IsSound (stages {e = e} {e' = e'} d c h) v =
      try_stage-IsSound d e e' (Reaches-IsSound c v) h
  Reaches-IsSound (steps {e = e} {e' = e'} o c h) v = step-IsSound o e e' (Reaches-IsSound c v) h
