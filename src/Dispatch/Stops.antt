-- ===== src/Dispatch/Stops.antt =====
-- A pause stands: whoever dispatches next under the same binding sends nothing.
use loramapr_receiver.Base.{
  ℕ, Bool, true, false, Option, none, some, ◌≡◌, ◌≢◌, refl, sym, inl, inr, Text, Result, ok, err,
  Error, arith, Bool-cases,
}
use loramapr_receiver.Outbox.Types.{
  Delivery, DispatchPause, DispatchPauseKind, Binding, BindingReconcileResult, AttemptFailure, Time,
}
use loramapr_receiver.Outbox.Platform.{Platform}
use loramapr_receiver.Outbox.Store.{Store, update, view}
use loramapr_receiver.Outbox.Attempts.{next_due}
use loramapr_receiver.Outbox.Pause.{clear_resolved_pause, read_pause, pause_delivery, stamp_pause}
use loramapr_receiver.Outbox.Operations.{plain}
use loramapr_receiver.Outbox.Reconcile.{reconcile_binding}
use loramapr_receiver.Dispatch.Classify.{
  Disposition, ApiError, SendError, classify, failure_from_error,
}
use loramapr_receiver.Dispatch.Delays.{pauses, classify-IsCoherent}
use loramapr_receiver.Dispatch.Once.{
  Answer, Client, DispatchResult, stopped, acknowledged, failed, dispatch_once, after_clear,
  after_pause, after_reconcile, after_due, after_mark, after_send, settle_failure, ending,
  pause_for,
}
use loramapr_receiver.Dispatch.Standing.{
  Standing, dispatch_once-Standing, cleared-Standing, paused-Standing,
}

module _ (p : Platform) (b : Binding) where
  open p use {Raw, unmarshal_pause}

  module _ {C S : Type 0} (to_lower to_upper : ℕ → ℕ) (post : Client C S) (api_key : Text)
      (now clock : Time) where
    abbrev Outcome : Type 0
    Outcome = Store p × DispatchResult C S × Option Error

    -- If the outcome stops the dispatch and is no error, it leaves a pause that stands and that
    -- names its delivery.
    abbrev pub Stops : Outcome → Type 0
    Stops o =
        pauses o.1.disposition.action ≡ true
        → o.2 ≡ none
        → (pause : DispatchPause) × Standing p b o.0 pause × (pause.delivery_id ≡ o.1.delivery_id)

    quiet :
        (s : Store p) (r : DispatchResult C S) (x : Option Error)
        → pauses r.disposition.action ≡ false
        → Stops (s, r, x)
    quiet s r x h = λ a n. absurd (cc (a, h))

    quiet_ending :
        {A : Type 0} (r r' : DispatchResult C S) (o : Store p × Result A)
        → pauses r.disposition.action ≡ false
        → pauses r'.disposition.action ≡ false
        → Stops (ending p to_lower to_upper post api_key b now clock r r' o)
    quiet_ending r r' (s, ok a) h k = quiet s r' none k
    quiet_ending r r' (s, err e) h k = quiet s r (some e) h

    settle_failure-Stops :
        (r : Delivery) (d : Disposition) (f : AttemptFailure) (result : DispatchResult C S)
        (s : Store p)
        → result.disposition ≡ d
        → result.delivery_id ≡ r.delivery_id
        → (pauses d.action ≡ true
            → (d.pause_kind ≢ DispatchPauseKind.empty) × (d.pause_kind ≢ DispatchPauseKind.other))
        → Stops (settle_failure p to_lower to_upper post api_key b now clock r d f result s)
    unfolding settle_failure
    settle_failure-Stops r d f result s h n kind = elim (Bool-cases (pauses d.action)) [
      | inl e ↦ rw e (
          stopping
            (update p s
              (plain p (pause_delivery p s.cfg clock r.delivery_id (pause_for now b r d f) f)))
            refl (kind e))
      | inr e ↦ rw e (elim (Bool-cases d.quarantine) [
        | inl q ↦ rw q (
            quiet_ending result (record result { quarantined = 1 }) _ (ground arith) (ground arith))
        | inr q ↦ rw q (quiet_ending result result _ (ground arith) (ground arith))
      ])
    ]
      where
        stopping :
            (o : Store p × Result (Unit {0}))
            → update p s
                (plain p (pause_delivery p s.cfg clock r.delivery_id (pause_for now b r d f) f))
              ≡ o
            → (d.pause_kind ≢ DispatchPauseKind.empty) × (d.pause_kind ≢ DispatchPauseKind.other)
            → Stops (ending p to_lower to_upper post api_key b now clock result result o)
        stopping (s', ok u) e (k0, k1) = λ a x. (
          stamp_pause clock r.delivery_id (pause_for now b r d f),
          paused-Standing p b clock now s s' r d f u k0 k1 e,
          sym n,
        )
        stopping (s', err x) e k = λ a n. absurd (cc n)

    kinds :
        (e : SendError)
        → pauses (classify to_lower to_upper (some e)).action ≡ true
        → ((classify to_lower to_upper (some e)).pause_kind ≢ DispatchPauseKind.empty)
          × ((classify to_lower to_upper (some e)).pause_kind ≢ DispatchPauseKind.other)
    unfolding classify
    kinds e h = found e.message e.api h
      where
        found :
            (m : Text) (o : Option ApiError)
            → pauses (classify to_lower to_upper (some (record { message = m; api = o }))).action
              ≡ true
            → ((classify to_lower to_upper (some (record { message = m; api = o }))).pause_kind
                ≢ DispatchPauseKind.empty)
              × ((classify to_lower to_upper (some (record { message = m; api = o }))).pause_kind
                  ≢ DispatchPauseKind.other)
        found m none h = absurd (cc h)
        found m (some e) h =
            let c = classify-IsCoherent to_lower to_upper m e in (λ k. cc (c.named.0 k, h), c.known)

    after_send-Stops :
        (r : Delivery) (result : DispatchResult C S) (answer : Answer C S) (s : Store p)
        → pauses result.disposition.action ≡ false
        → result.delivery_id ≡ r.delivery_id
        → Stops (after_send p to_lower to_upper post api_key b now clock r result answer s)
    unfolding after_send
    after_send-Stops r result (acknowledged a) s h n = quiet_ending result _ _ h h
    after_send-Stops r result (failed e) s h n =
        let d = classify to_lower to_upper (some e) in
        settle_failure-Stops r d (failure_from_error e) (record result { disposition = d }) s refl n
          (kinds e)

    after_mark-Stops :
        (r : Delivery) (result : DispatchResult C S) (o : Store p × Result (Unit {0}))
        → pauses result.disposition.action ≡ false
        → result.delivery_id ≡ r.delivery_id
        → Stops (after_mark p to_lower to_upper post api_key b now clock r result o)
    after_mark-Stops r result (s, err e) h n = quiet s result _ h
    after_mark-Stops r result (s, ok u) h n = after_send-Stops r result _ s h n

    after_due-Stops :
        (rec : BindingReconcileResult) (o : Result (Option Delivery)) (s : Store p)
        → Stops (after_due p to_lower to_upper post api_key b now clock rec o s)
    unfolding after_due
    after_due-Stops rec (err e) s = λ a n. absurd (cc a)
    after_due-Stops rec (ok none) s = λ a n. absurd (cc a)
    after_due-Stops rec (ok (some r)) s = after_mark-Stops r _ _ refl refl

    after_reconcile-Stops :
        (o : Store p × Result BindingReconcileResult)
        → Stops (after_reconcile p to_lower to_upper post api_key b now clock o)
    unfolding after_reconcile
    after_reconcile-Stops (s, err e) = λ a n. absurd (cc a)
    after_reconcile-Stops (s, ok rec) = after_due-Stops rec (view p s (λ db. next_due p db now)) s

    after_clear-Stops :
        (s s' : Store p) (c : Bool) (o : Result (Option DispatchPause))
        → update p s (clear_resolved_pause p b) ≡ (s', ok c)
        → view p s' (read_pause p) ≡ o
        → Stops (after_pause p to_lower to_upper post api_key b now clock o s')
    unfolding after_pause
    after_clear-Stops s s' c (err e) h k = λ a n. absurd (cc a)
    after_clear-Stops s s' c (ok (some standing)) h k =
        λ a x. (standing, cleared-Standing p b s s' c standing h k, refl)
    after_clear-Stops s s' c (ok none) h k =
        after_reconcile-Stops (update p s' (reconcile_binding p s'.cfg clock b))

    dispatch_once-Stops :
        (s : Store p) → Stops (dispatch_once p to_lower to_upper post api_key b now clock s)
    unfolding dispatch_once after_clear
    dispatch_once-Stops s = cleared (update p s (clear_resolved_pause p b)) refl
      where
        cleared :
            (o : Store p × Result Bool)
            → update p s (clear_resolved_pause p b) ≡ o
            → Stops (after_clear p to_lower to_upper post api_key b now clock o)
        cleared (s', err e) h = λ a n. absurd (cc a)
        cleared (s', ok c) h = after_clear-Stops s s' c (view p s' (read_pause p)) h refl

    -- If a `DispatchOnce` without error ends in a pause, a demand to pair or a stop, every later
    -- `DispatchOnce` under the same binding, at any time and whatever the cloud would answer, attempts
    -- nothing, reports the same delivery, and leaves the store as it is.
    pub dispatch_once_again :
        (s : Store p) (post' : Client C S) (api_key' : Text) (now' clock' : Time)
        → pauses (dispatch_once p to_lower to_upper post api_key b now clock s).1.disposition.action
          ≡ true
        → (dispatch_once p to_lower to_upper post api_key b now clock s).2 ≡ none
        → (next : DispatchResult C S) × (next.attempted ≡ false)
          × (next.delivery_id
              ≡ (dispatch_once p to_lower to_upper post api_key b now clock s).1.delivery_id)
          × (dispatch_once p to_lower to_upper post' api_key' b now' clock'
                (dispatch_once p to_lower to_upper post api_key b now clock s).0
              ≡ ((dispatch_once p to_lower to_upper post api_key b now clock s).0, next, none))
    dispatch_once_again s post' api_key' now' clock' h n =
        let (pause, standing, same) = dispatch_once-Stops s h n in
        (
          stopped pause,
          refl,
          same,
          dispatch_once-Standing p b to_lower to_upper post' api_key' now' clock' _ pause standing,
        )
