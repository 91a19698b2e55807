-- ===== src/Outbox/Operations/Validity.antt =====
-- Whatever the operations and their order, the store keeps the invariant of its database.
use loramapr_receiver.Base.{
  ℕ, Bool, true, false, ◌||◌, is_empty, trim, if◌then◌else◌, Option, none, some, List, [], ◌∷◌, ◌≡◌,
  refl, subst, delivery_required, Result, ok, err, arith,
}
use loramapr_receiver.Outbox.Types.{Delivery, Time}
use loramapr_receiver.Outbox.Platform.{Platform}
use loramapr_receiver.Outbox.Db.{Db}
use loramapr_receiver.Outbox.Store.{Store, update, update_in, close, commit}
use loramapr_receiver.Outbox.Enqueue.{
  enqueue, enqueue_again, enqueue_tx, run_enqueue, retry_pruned, is_full,
}
use loramapr_receiver.Outbox.Prune.{prune_quarantine, prune_tx, note_maintenance}
use loramapr_receiver.Outbox.Operations.{
  Operation, enqueues, marks_inflight, retries, pauses, clears_pause, resolves_collision,
  quarantines, quarantines_receiver, reconciles, deletes, prunes, begins_rotation,
  quarantines_rotation, advances_rotation, closes, plain, perform, perform_all,
}
use loramapr_receiver.Outbox.Validity.{
  IsValid, enqueue_tx-IsValid, mark_inflight-IsValid, retry-IsValid, pause_delivery-IsValid,
  quarantine-IsValid, resolve_delivery_collision-IsValid, delete_delivery-IsValid,
}
use loramapr_receiver.Outbox.Validity.Bulk.{
  prune_tx-IsValid, clear_resolved_pause-IsValid, begin_rotation-IsValid, advance_rotation-IsValid,
  MovedBy-IsValid, quarantine_by_receiver-MovedBy, reconcile_binding-IsValid,
  quarantine_rotation-IsValid,
}

module _ (p : Platform) where
  -- The database of an open store is valid.
  abbrev pub StoreIsValid : Store p → Type 0
  StoreIsValid s = (db : Db p) → s.db ≡ some db → IsValid p db

  module _ {A : Type 0} (s : Store p) (v : StoreIsValid s) where
    commit-StoreIsValid :
        (r : Result (Db p × A))
        → ((o : Db p × A) → r ≡ ok o → IsValid p o.0)
        → StoreIsValid (commit p s r).0
    commit-StoreIsValid (ok o) h = λ db e. subst (IsValid p) (ground arith) (h o refl)
    commit-StoreIsValid (err x) h = v

    update_in-StoreIsValid :
        (fn : Db p → Result (Db p × A)) (o : Option (Db p))
        → s.db ≡ o
        → ((db : Db p) (r : Db p × A) → IsValid p db → fn db ≡ ok r → IsValid p r.0)
        → StoreIsValid (update_in p o s fn).0
    update_in-StoreIsValid fn none e keep = v
    update_in-StoreIsValid fn (some db) e keep =
        commit-StoreIsValid (fn db) (λ r h. keep db r (v db e) h)

    update-StoreIsValid :
        (fn : Db p → Result (Db p × A))
        → ((db : Db p) (r : Db p × A) → IsValid p db → fn db ≡ ok r → IsValid p r.0)
        → StoreIsValid (update p s fn).0
    unfolding update
    update-StoreIsValid fn keep = update_in-StoreIsValid fn s.db refl keep

  if-StoreIsValid :
      {A : Type 0} (b : Bool) (x y : Store p × Result A)
      → StoreIsValid x.0
      → StoreIsValid y.0
      → StoreIsValid (if b then x else y).0
  if-StoreIsValid true x y h k = h
  if-StoreIsValid false x y h k = k

  plain_step :
      (fn : Db p → Result (Db p)) (db : Db p) (r : Db p × Unit {0})
      → plain p fn db ≡ ok r
      → fn db ≡ ok r.0
  plain_step fn db r h = ground arith

  plain-StoreIsValid :
      (s : Store p) (v : StoreIsValid s) (fn : Db p → Result (Db p))
      → ((db db' : Db p) → IsValid p db → fn db ≡ ok db' → IsValid p db')
      → StoreIsValid (update p s (plain p fn)).0
  plain-StoreIsValid s v fn keep =
      update-StoreIsValid s v (plain p fn) (λ db r w h. keep db r.0 w (plain_step fn db r h))

  prune_quarantine-StoreIsValid :
      (now : Time) (s : Store p) → StoreIsValid s → StoreIsValid (prune_quarantine p now s).0
  unfolding prune_quarantine
  prune_quarantine-StoreIsValid now s v =
      noted (update p s (prune_tx p now s.cfg.quarantine_retention)) (
        update-StoreIsValid s v (prune_tx p now s.cfg.quarantine_retention)
          (λ db r w h. prune_tx-IsValid p now s.cfg.quarantine_retention db r w h))
    where
      noted : (o : Store p × Result ℕ) → StoreIsValid o.0 → StoreIsValid (note_maintenance p o).0
      noted (s', ok n) w = w
      noted (s', err e) w = w

  module _ (now : Time) (input : Delivery) where
    run_enqueue-StoreIsValid :
        (s : Store p) → StoreIsValid s → StoreIsValid (run_enqueue p now input s).0
    run_enqueue-StoreIsValid s v =
        plain-StoreIsValid s v (enqueue_tx p s.cfg now input) (enqueue_tx-IsValid p s.cfg now input)

    retry_pruned-StoreIsValid :
        (o : Store p × Result ℕ) → StoreIsValid o.0 → StoreIsValid (retry_pruned p now input o).0
    retry_pruned-StoreIsValid (s, ok n) v = run_enqueue-StoreIsValid s v
    retry_pruned-StoreIsValid (s, err e) v = v

    enqueue_again-StoreIsValid :
        (o : Store p × Result (Unit {0}))
        → StoreIsValid o.0
        → StoreIsValid (enqueue_again p now input o).0
    unfolding enqueue_again
    enqueue_again-StoreIsValid (s, ok u) v = v
    enqueue_again-StoreIsValid (s, err e) v =
        if-StoreIsValid (is_full e) (retry_pruned p now input (prune_quarantine p now s)) (s, err e)
          (retry_pruned-StoreIsValid (prune_quarantine p now s)
            (prune_quarantine-StoreIsValid now s v))
          v

    enqueue-StoreIsValid : (s : Store p) → StoreIsValid s → StoreIsValid (enqueue p now input s).0
    unfolding enqueue
    enqueue-StoreIsValid s v =
        if-StoreIsValid (is_empty (trim input.delivery_id) || is_empty input.envelope)
          (s, err delivery_required) (enqueue_again p now input (run_enqueue p now input s)) v
          (enqueue_again-StoreIsValid (run_enqueue p now input s) (run_enqueue-StoreIsValid s v))

  -- Each operation, successful or not, keeps the store valid.
  pub perform-StoreIsValid :
      (o : Operation) (s : Store p) → StoreIsValid s → StoreIsValid (perform p o s)
  unfolding perform close
  perform-StoreIsValid (enqueues now input) s v = enqueue-StoreIsValid now input s v
  perform-StoreIsValid (marks_inflight id) s v =
      plain-StoreIsValid s v _ (mark_inflight-IsValid p s.cfg id)
  perform-StoreIsValid (retries id next f) s v =
      plain-StoreIsValid s v _ (retry-IsValid p s.cfg id next f)
  perform-StoreIsValid (pauses now id pause f) s v =
      plain-StoreIsValid s v _ (pause_delivery-IsValid p s.cfg now id pause f)
  perform-StoreIsValid (clears_pause b) s v =
      update-StoreIsValid s v _ (clear_resolved_pause-IsValid p b)
  perform-StoreIsValid (resolves_collision now id) s v =
      plain-StoreIsValid s v _ (resolve_delivery_collision-IsValid p s.cfg now id)
  perform-StoreIsValid (quarantines now id reason f) s v =
      plain-StoreIsValid s v _ (quarantine-IsValid p s.cfg now id reason f)
  perform-StoreIsValid (quarantines_receiver now agent reason f) s v =
      update-StoreIsValid s v _ (λ db r w h.
        MovedBy-IsValid p (quarantine_by_receiver-MovedBy p s.cfg now agent reason f db r h) w)
  perform-StoreIsValid (reconciles now b) s v =
      update-StoreIsValid s v _ (reconcile_binding-IsValid p s.cfg now b)
  perform-StoreIsValid (deletes id) s v = plain-StoreIsValid s v _ (delete_delivery-IsValid p id)
  perform-StoreIsValid (prunes now) s v = prune_quarantine-StoreIsValid now s v
  perform-StoreIsValid (begins_rotation now r) s v =
      update-StoreIsValid s v _ (begin_rotation-IsValid p now r)
  perform-StoreIsValid (quarantines_rotation now) s v =
      update-StoreIsValid s v _ (quarantine_rotation-IsValid p s.cfg now)
  perform-StoreIsValid (advances_rotation now expected next) s v =
      update-StoreIsValid s v _ (advance_rotation-IsValid p now expected next)
  perform-StoreIsValid closes s v = λ db e. cc

  -- From a valid store, no sequence of operations leads to an invalid one.
  pub perform_all-StoreIsValid :
      (os : List Operation) (s : Store p) → StoreIsValid s → StoreIsValid (perform_all p os s)
  unfolding perform_all
  perform_all-StoreIsValid [] s v = v
  perform_all-StoreIsValid (o ∷ os) s v =
      perform_all-StoreIsValid os (perform p o s) (perform-StoreIsValid o s v)
