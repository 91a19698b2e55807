-- ===== src/Dispatch/Runs.antt =====
-- A call of `DispatchOnce` is a run of operations of the store.
use loramapr_receiver.Base.{
  ℕ, ◌+◌, ◌≤◌, Bool, true, false, Option, none, some, List, [], ◌∷◌, take, ◌≡◌, refl, ap, ◌∙◌, ◌↔◌,
  Text, Result, ok, err, Error, arith, Bool-cases, inl, inr,
}
use loramapr_receiver.Outbox.Types.{
  Delivery, DispatchPause, Binding, BindingReconcileResult, AttemptFailure, Time,
}
use loramapr_receiver.Outbox.Platform.{Platform}
use loramapr_receiver.Outbox.Store.{Store, update, view}
use loramapr_receiver.Outbox.Attempts.{next_due}
use loramapr_receiver.Outbox.Pause.{clear_resolved_pause, read_pause}
use loramapr_receiver.Outbox.Reconcile.{reconcile_binding}
use loramapr_receiver.Outbox.Operations.{
  Operation, clears_pause, reconciles, marks_inflight, deletes, pauses, quarantines, retries,
  perform, perform_all,
}
use loramapr_receiver.Dispatch.Classify.{Disposition, classify, failure_from_error}
use loramapr_receiver.Dispatch.Delays
use loramapr_receiver.Dispatch.Once.{
  Answer, Client, DispatchResult, acknowledged, failed, accepted, dispatch_once, after_clear,
  after_pause, after_reconcile, after_due, after_mark, after_send, settle_failure, ending,
  pause_for, delay_of,
}

-- The operation that follows a send of the delivery `id`.
pub data Ends (id : Text) : Operation → Type 0 where
  deleted : Ends id (deletes id)
  paused :
      (clock : Time) (pause : DispatchPause) (f : AttemptFailure)
      → Ends id (pauses clock id pause f)
  quarantined :
      (clock : Time) (reason : Text) (f : AttemptFailure) → Ends id (quarantines clock id reason f)
  retried : (next : Time) (f : AttemptFailure) → Ends id (retries id next f)

module _ (p : Platform) {C S : Type 0} (to_lower to_upper : ℕ → ℕ) (post : Client C S)
    (api_key : Text) (b : Binding) (now clock : Time) where
  abbrev Outcome : Type 0
  Outcome = Store p × DispatchResult C S × Option Error

  -- The operations of a call, if all are run.
  abbrev pub script : Text → Operation → List Operation
  script id last = clears_pause b ∷ reconciles clock b ∷ marks_inflight id ∷ last ∷ []

  -- The call ran the first `number` operations of the script, and attempted a delivery exactly if
  -- it came to mark one.
  pub record Run (s : Store p) (o : Outcome) : Type 0 where
    pub id : Text
    pub last : Operation
    pub ends : Ends id last
    pub number : ℕ
    pub at_most : number ≤ 4
    pub ran : o.0 ≡ perform_all p (take number (script id last)) s
    pub attempted : (o.1.attempted ≡ true) ↔ (3 ≤ number)

  -- What the last step does: one operation, and no change of `attempted`.
  record Ended (id : Text) (s : Store p) (o : Outcome) : Type 0 where
    last : Operation
    ends : Ends id last
    ran : o.0 ≡ perform p last s
    attempted : o.1.attempted ≡ true

  ending_store :
      {A : Type 0} (x y : DispatchResult C S) (o : Store p × Result A)
      → (ending p to_lower to_upper post api_key b now clock x y o).0 ≡ o.0
  ending_store x y (s, ok a) = refl
  ending_store x y (s, err e) = refl

  ending_attempted :
      {A : Type 0} (x y : DispatchResult C S) (o : Store p × Result A)
      → x.attempted ≡ true
      → y.attempted ≡ true
      → (ending p to_lower to_upper post api_key b now clock x y o).1.attempted ≡ true
  ending_attempted x y (s, ok a) h k = k
  ending_attempted x y (s, err e) h k = h

  settle_failure-Ended :
      (r : Delivery) (d : Disposition) (f : AttemptFailure) (result : DispatchResult C S)
      (s : Store p)
      → result.attempted ≡ true
      → Ended r.delivery_id s
          (settle_failure p to_lower to_upper post api_key b now clock r d f result s)
  unfolding settle_failure perform
  settle_failure-Ended r d f result s h = elim (Bool-cases (Delays.pauses d.action)) [
    | inl e ↦ rw e (record {
      last = pauses clock r.delivery_id (pause_for now b r d f) f;
      ends = paused clock (pause_for now b r d f) f;
      ran = ending_store result result _;
      attempted = ending_attempted result result _ h h;
    })
    | inr e ↦ elim (Bool-cases d.quarantine) [
      | inl q ↦
          rw (e, q)
            (record {
              last = quarantines clock r.delivery_id d.reason f;
              ends = quarantined clock d.reason f;
              ran = ending_store result (record result { quarantined = 1 }) _;
              attempted = ending_attempted result (record result { quarantined = 1 }) _ h h;
            })
      | inr q ↦
          rw (e, q)
            (record {
              last = retries r.delivery_id (now + delay_of d r) f;
              ends = retried (now + delay_of d r) f;
              ran = ending_store result result _;
              attempted = ending_attempted result result _ h h;
            })
    ]
  ]

  after_send-Ended :
      (r : Delivery) (result : DispatchResult C S) (answer : Answer C S) (s : Store p)
      → result.attempted ≡ true
      → Ended r.delivery_id s
          (after_send p to_lower to_upper post api_key b now clock r result answer s)
  unfolding after_send perform
  after_send-Ended r result (acknowledged a) s h = record {
    last = deletes r.delivery_id;
    ends = deleted;
    ran = ending_store result (accepted a result) _;
    attempted = ending_attempted result (accepted a result) _ h h;
  }
  after_send-Ended r result (failed e) s h =
      let d = classify to_lower to_upper (some e) in
      settle_failure-Ended r d (failure_from_error e) (record result { disposition = d }) s h

  abbrev both : (o : Store p) → Store p
  both s = perform p (reconciles clock b) (perform p (clears_pause b) s)

  after_mark-Run :
      (s : Store p) (r : Delivery) (result : DispatchResult C S) (o : Store p × Result (Unit {0}))
      → o.0 ≡ perform p (marks_inflight r.delivery_id) (both s)
      → result.attempted ≡ true
      → Run s (after_mark p to_lower to_upper post api_key b now clock r result o)
  unfolding perform_all
  after_mark-Run s r result (s', err e) h a = record {
    id = r.delivery_id;
    last = deletes r.delivery_id;
    ends = deleted;
    number = 3;
    at_most = omega arith;
    ran = h;
    attempted = (λ _. omega arith, λ _. a);
  }
  after_mark-Run s r result (s', ok u) h a =
      let e =
        after_send-Ended r result
          (post r.endpoint api_key r.envelope r.delivery_id r.envelope_sha256) s' a in
      record {
        id = r.delivery_id;
        last = e.last;
        ends = e.ends;
        number = 4;
        at_most = omega arith;
        ran = e.ran ∙ ap (perform p e.last) h;
        attempted = (λ _. omega arith, λ _. e.attempted);
      }

  -- A call that ends before it marks a delivery.
  early :
      (s : Store p) (number : ℕ) (s' : Store p) (result : DispatchResult C S) (x : Option Error)
      → number ≤ 2
      → s' ≡ perform_all p (take number (script [] (deletes []))) s
      → result.attempted ≡ false
      → Run s (s', result, x)
  early s number s' result x h ran a = record {
    id = [];
    last = deletes [];
    ends = deleted;
    number = number;
    at_most = omega (arith, h);
    ran = ran;
    attempted = (λ e. cc (e, a), λ k. absurd (omega (arith, h, k)));
  }

  after_due-Run :
      (s s' : Store p) (rec : BindingReconcileResult) (o : Result (Option Delivery))
      → s' ≡ both s
      → Run s (after_due p to_lower to_upper post api_key b now clock rec o s')
  unfolding after_due perform_all perform
  after_due-Run s s' rec (err e) h = early s 2 s' _ _ (omega arith) h refl
  after_due-Run s s' rec (ok none) h = early s 2 s' _ _ (omega arith) h refl
  after_due-Run s s' rec (ok (some r)) h =
      after_mark-Run s r _ _ (ap (perform p (marks_inflight r.delivery_id)) h) refl

  after_reconcile-Run :
      (s : Store p) (o : Store p × Result BindingReconcileResult)
      → o.0 ≡ both s
      → Run s (after_reconcile p to_lower to_upper post api_key b now clock o)
  unfolding after_reconcile perform_all
  after_reconcile-Run s (s', err e) h = early s 2 s' _ _ (omega arith) h refl
  after_reconcile-Run s (s', ok rec) h =
      after_due-Run s s' rec (view p s' (λ db. next_due p db now)) h

  after_pause-Run :
      (s s' : Store p) (o : Result (Option DispatchPause))
      → s' ≡ perform p (clears_pause b) s
      → Run s (after_pause p to_lower to_upper post api_key b now clock o s')
  unfolding after_pause perform_all perform
  after_pause-Run s s' (err e) h = early s 1 s' _ _ (omega arith) h refl
  after_pause-Run s s' (ok (some standing)) h = early s 1 s' _ _ (omega arith) h refl
  after_pause-Run s s' (ok none) h =
      after_reconcile-Run s (update p s' (reconcile_binding p s'.cfg clock b))
        (ap (perform p (reconciles clock b)) h)

  after_clear-Run :
      (s : Store p) (o : Store p × Result Bool)
      → o.0 ≡ perform p (clears_pause b) s
      → Run s (after_clear p to_lower to_upper post api_key b now clock o)
  unfolding after_clear perform_all
  after_clear-Run s (s', err e) h = early s 1 s' _ _ (omega arith) h refl
  after_clear-Run s (s', ok c) h = after_pause-Run s s' (view p s' (read_pause p)) h

  -- `DispatchOnce` runs on the store, in this order, at most a clearing of the pause, a
  -- reconciliation of the binding, the marking of one delivery, and one operation that deletes,
  -- pauses, quarantines or retries that same delivery; its result says that a delivery was attempted
  -- exactly if the marking was run.
  pub dispatch_once-Run :
      (s : Store p) → Run s (dispatch_once p to_lower to_upper post api_key b now clock s)
  unfolding dispatch_once perform
  dispatch_once-Run s = after_clear-Run s (update p s (clear_resolved_pause p b)) refl
