-- ===== src/Dispatch/Acks.antt =====
-- An acknowledged delivery is gone from the store.
use loramapr_receiver.Base.{
  ℕ, Bool, true, false, Option, none, some, ◌≡◌, refl, ap, inl, inr, Text, Result, ok, err, Error,
  arith, Bool-cases, text_eq_refl,
}
use loramapr_receiver.Outbox.Types.{
  Delivery, DispatchPause, Binding, BindingReconcileResult, AttemptFailure, Time,
}
use loramapr_receiver.Outbox.Platform.{Platform}
use loramapr_receiver.Outbox.Db.{Db}
use loramapr_receiver.Outbox.Store.{Store, update, view}
use loramapr_receiver.Outbox.Attempts.{next_due, mark_inflight}
use loramapr_receiver.Outbox.Pause.{clear_resolved_pause, read_pause}
use loramapr_receiver.Outbox.Quarantine.{delete_delivery}
use loramapr_receiver.Outbox.Reconcile.{reconcile_binding}
use loramapr_receiver.Outbox.Operations.{clears_pause, reconciles, marks_inflight, plain, perform}
use loramapr_receiver.Outbox.Operations.Validity.{StoreIsValid, perform-StoreIsValid}
use loramapr_receiver.Outbox.Accounts.{write_counters-eq-ok, get-delete}
use loramapr_receiver.Outbox.Effects.{delete_delivery-eq-ok}
use loramapr_receiver.Outbox.Validity.{IsValid}
use loramapr_receiver.Dispatch.Classify.{Disposition, classify, failure_from_error}
use loramapr_receiver.Dispatch.Delays.{pauses}
use loramapr_receiver.Dispatch.Once.{
  Ack, Answer, Client, DispatchResult, acknowledged, failed, accepted, dispatch_once, after_clear,
  after_pause, after_reconcile, after_due, after_mark, after_send, settle_failure, ending,
}
use loramapr_receiver.Outbox.Transactions.{update-Done}

module _ (p : Platform) where
  open p use {Raw, get}

  -- The open database has the delivery neither in the queue nor in the quarantine.
  pub record IsGone (s : Store p) (id : Text) : Type 0 where
    pub db : Db p
    pub opened : s.db ≡ some db
    pub not_queued : get db.deliveries id ≡ none
    pub not_quarantined : get db.quarantine id ≡ none

  deleted :
      (id : Text) (db db' : Db p)
      → IsValid p db
      → delete_delivery p id db ≡ ok db'
      → (get db'.deliveries id ≡ none) × (get db'.quarantine id ≡ none)
  deleted id db db' v h = elim (delete_delivery-eq-ok p id db db' h) [
    | inl d ↦ ground (
      arith,
      write_counters-eq-ok p _ _ _ d.written,
      get-delete p db.deliveries id id,
      text_eq_refl id,
      v.accounts.disjoint id,
      d.found,
    )
    | inr d ↦ ground (
      arith,
      write_counters-eq-ok p _ _ _ d.written,
      get-delete p db.quarantine id id,
      text_eq_refl id,
      d.not_queued,
    )
  ]

  delete-IsGone :
      (id : Text) (s s' : Store p) (u : Unit {0})
      → StoreIsValid p s
      → update p s (plain p (delete_delivery p id)) ≡ (s', ok u)
      → IsGone s' id
  delete-IsGone id s s' u v h =
      let d = update-Done p (plain p (delete_delivery p id)) s s' u h in
      let (q, n) = deleted id d.before d.after (v d.before d.opened) (ran d.before d.after d.ran) in
      record { db = d.after; opened = d.left; not_queued = q; not_quarantined = n }
    where
      ran :
          (x y : Db p)
          → plain p (delete_delivery p id) x ≡ ok (y, u)
          → delete_delivery p id x ≡ ok y
      ran x y h = ground arith

  module _ {C S : Type 0} (to_lower to_upper : ℕ → ℕ) (post : Client C S) (api_key : Text)
      (b : Binding) (now clock : Time) where
    abbrev Outcome : Type 0
    Outcome = Store p × DispatchResult C S × Option Error

    -- An outcome without error that reports an acknowledgement leaves its delivery gone.
    abbrev pub Acks : Outcome → Type 0
    Acks o = o.1.acknowledged ≡ true → o.2 ≡ none → IsGone o.0 o.1.delivery_id

    silent_ending :
        {A : Type 0} (r r' : DispatchResult C S) (o : Store p × Result A)
        → r'.acknowledged ≡ false
        → Acks (ending p to_lower to_upper post api_key b now clock r r' o)
    silent_ending r r' (s, ok x) h = λ a n. absurd (cc (a, h))
    silent_ending r r' (s, err e) h = λ a n. absurd (cc n)

    settle_failure-Acks :
        (r : Delivery) (d : Disposition) (f : AttemptFailure) (result : DispatchResult C S)
        (s : Store p)
        → result.acknowledged ≡ false
        → Acks (settle_failure p to_lower to_upper post api_key b now clock r d f result s)
    unfolding settle_failure
    settle_failure-Acks r d f result s h = elim (Bool-cases (pauses d.action)) [
      | inl e ↦ rw e (silent_ending result result _ h)
      | inr e ↦ rw e (elim (Bool-cases d.quarantine) [
        | inl q ↦ rw q (silent_ending result (record result { quarantined = 1 }) _ h)
        | inr q ↦ rw q (silent_ending result result _ h)
      ])
    ]

    accepted-Acks :
        (a : Ack C S) (result : DispatchResult C S) (s : Store p) (o : Store p × Result (Unit {0}))
        → StoreIsValid p s
        → update p s (plain p (delete_delivery p result.delivery_id)) ≡ o
        → Acks (ending p to_lower to_upper post api_key b now clock result (accepted a result) o)
    accepted-Acks a result s (s', ok u) v h = λ k n. delete-IsGone result.delivery_id s s' u v h
    accepted-Acks a result s (s', err e) v h = λ k n. absurd (cc n)

    after_send-Acks :
        (r : Delivery) (result : DispatchResult C S) (answer : Answer C S) (s : Store p)
        → StoreIsValid p s
        → result.acknowledged ≡ false
        → result.delivery_id ≡ r.delivery_id
        → Acks (after_send p to_lower to_upper post api_key b now clock r result answer s)
    unfolding after_send
    after_send-Acks r result (acknowledged a) s v h n =
        accepted-Acks a result s (update p s (plain p (delete_delivery p r.delivery_id))) v
          (ap (λ id. update p s (plain p (delete_delivery p id))) n)
    after_send-Acks r result (failed e) s v h n =
        let d = classify to_lower to_upper (some e) in
        settle_failure-Acks r d (failure_from_error e) (record result { disposition = d }) s h

    after_mark-Acks :
        (r : Delivery) (result : DispatchResult C S) (o : Store p × Result (Unit {0}))
        → StoreIsValid p o.0
        → result.acknowledged ≡ false
        → result.delivery_id ≡ r.delivery_id
        → Acks (after_mark p to_lower to_upper post api_key b now clock r result o)
    after_mark-Acks r result (s, err e) v h n = λ k x. absurd (cc x)
    after_mark-Acks r result (s, ok u) v h n = after_send-Acks r result _ s v h n

    after_due-Acks :
        (rec : BindingReconcileResult) (o : Result (Option Delivery)) (s : Store p)
        → StoreIsValid p s
        → Acks (after_due p to_lower to_upper post api_key b now clock rec o s)
    unfolding after_due perform
    after_due-Acks rec (err e) s v = λ k x. absurd (cc x)
    after_due-Acks rec (ok none) s v = λ k x. absurd (cc k)
    after_due-Acks rec (ok (some r)) s v =
        after_mark-Acks r _ (update p s (plain p (mark_inflight p s.cfg r.delivery_id)))
          (perform-StoreIsValid p (marks_inflight r.delivery_id) s v) refl refl

    after_reconcile-Acks :
        (o : Store p × Result BindingReconcileResult)
        → StoreIsValid p o.0
        → Acks (after_reconcile p to_lower to_upper post api_key b now clock o)
    unfolding after_reconcile
    after_reconcile-Acks (s, err e) v = λ k x. absurd (cc x)
    after_reconcile-Acks (s, ok rec) v = after_due-Acks rec (view p s (λ db. next_due p db now)) s v

    after_pause-Acks :
        (o : Result (Option DispatchPause)) (s : Store p)
        → StoreIsValid p s
        → Acks (after_pause p to_lower to_upper post api_key b now clock o s)
    unfolding after_pause perform
    after_pause-Acks (err e) s v = λ k x. absurd (cc x)
    after_pause-Acks (ok (some standing)) s v = λ k x. absurd (cc k)
    after_pause-Acks (ok none) s v =
        after_reconcile-Acks (update p s (reconcile_binding p s.cfg clock b))
          (perform-StoreIsValid p (reconciles clock b) s v)

    after_clear-Acks :
        (o : Store p × Result Bool)
        → StoreIsValid p o.0
        → Acks (after_clear p to_lower to_upper post api_key b now clock o)
    unfolding after_clear
    after_clear-Acks (s, err e) v = λ k x. absurd (cc x)
    after_clear-Acks (s, ok c) v = after_pause-Acks (view p s (read_pause p)) s v

    -- If `DispatchOnce` on a valid store reports an acknowledgement and no error, the delivery that it
    -- reports is neither queued nor in quarantine any more.
    pub dispatch_once-IsGone :
        (s : Store p)
        → StoreIsValid p s
        → (dispatch_once p to_lower to_upper post api_key b now clock s).1.acknowledged ≡ true
        → (dispatch_once p to_lower to_upper post api_key b now clock s).2 ≡ none
        → IsGone
            (dispatch_once p to_lower to_upper post api_key b now clock s).0
            (dispatch_once p to_lower to_upper post api_key b now clock s).1.delivery_id
    unfolding dispatch_once perform
    dispatch_once-IsGone s v =
        after_clear-Acks (update p s (clear_resolved_pause p b))
          (perform-StoreIsValid p (clears_pause b) s v)
