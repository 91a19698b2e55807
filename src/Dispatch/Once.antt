-- ===== src/Dispatch/Once.antt =====
-- dispatch.go: `DispatchOnce`, over the store that the writer of the engine runs its operations on.
-- The HTTP client is a parameter; `C` and `S` are its attestation of the clock and its assertion of a
-- position, that the dispatcher hands on. `clock` is what the store reads as the current time.
use loramapr_receiver.Base.{
  ℕ, ◌+◌, ◌==◌, Bool, true, false, Option, none, some, List, [], Text, Result, ok, err, Error,
  if◌then◌else◌,
}
use loramapr_receiver.Outbox.Types.{
  Delivery, DispatchPause, Binding, BindingReconcileResult, AttemptFailure, Time,
}
use loramapr_receiver.Outbox.Platform.{Platform}
use loramapr_receiver.Outbox.Store.{Store, update, view}
use loramapr_receiver.Outbox.Attempts.{next_due, mark_inflight, retry}
use loramapr_receiver.Outbox.Pause.{clear_resolved_pause, read_pause, pause_delivery, is_collision}
use loramapr_receiver.Outbox.Quarantine.{quarantine, delete_delivery}
use loramapr_receiver.Outbox.Reconcile.{reconcile_binding, nothing_reconciled}
use loramapr_receiver.Outbox.Operations.{plain}
use loramapr_receiver.Dispatch.Classify.{
  stop, pause, Disposition, no_disposition, SendError, classify, failure_from_error, retry_delay,
}
use loramapr_receiver.Dispatch.Delays.{pauses}

pub record Ack (C S : Type 0) : Type 0 where
  pub duplicate : Bool
  pub clock_attestation : Option C
  pub session_eligible_position : Option S

pub data Answer (C S : Type 0) : Type 0 where
  acknowledged : Ack C S → Answer C S
  failed : SendError → Answer C S

pub record DispatchResult (C S : Type 0) : Type 0 where
  pub delivery_id : Text
  pub attempted : Bool
  pub acknowledged : Bool
  pub duplicate : Bool
  pub disposition : Disposition
  pub quarantined : ℕ
  pub reconciled : BindingReconcileResult
  pub clock_attestation : Option C
  pub session_eligible_position : Option S

-- `PostNormalizedEvent`: the endpoint, the key, the envelope, the identifier and the digest.
abbrev pub Client : Type 0 → Type 0 → Type 0
Client C S = Text → Text → List ℕ → Text → Text → Answer C S

module _ {C S : Type 0} where
  abbrev pub no_result : DispatchResult C S
  no_result = record {
    delivery_id = [];
    attempted = false;
    acknowledged = false;
    duplicate = false;
    disposition = no_disposition;
    quarantined = 0;
    reconciled = nothing_reconciled;
    clock_attestation = none;
    session_eligible_position = none;
  }

  -- The result while the dispatch is paused.
  abbrev pub stopped : DispatchPause → DispatchResult C S
  stopped p = record no_result {
    delivery_id = p.delivery_id;
    disposition = record no_disposition {
      action = if is_collision p.kind then stop else pause;
      reason = p.reason;
      pairing_required = if is_collision p.kind then false else true;
      pause_kind = p.kind;
    };
  }

  abbrev pub accepted : Ack C S → DispatchResult C S → DispatchResult C S
  accepted a r = record r {
    acknowledged = true;
    duplicate = a.duplicate;
    clock_attestation = a.clock_attestation;
    session_eligible_position = a.session_eligible_position;
  }

-- The pause that a failed send leaves.
abbrev pub pause_for : Time → Binding → Delivery → Disposition → AttemptFailure → DispatchPause
pause_for now b r d f = record {
  kind = d.pause_kind;
  reason = d.reason;
  delivery_id = r.delivery_id;
  paused_at = now;
  credential_generation = b.credential_generation;
  binding_generation = b.binding_generation;
  status_code = f.status_code;
  error_code = f.error_code;
  request_id = f.request_id;
}

abbrev pub delay_of : Disposition → Delivery → ℕ
delay_of d r = if d.retry_after == 0 then retry_delay r.attempts else d.retry_after

module _ (p : Platform) {C S : Type 0} (to_lower to_upper : ℕ → ℕ) (post : Client C S)
    (api_key : Text) (b : Binding) (now clock : Time) where
  -- The store, the result and the error that the call leaves.
  abbrev pub Outcome : Type 0
  Outcome = Store p × DispatchResult C S × Option Error

  -- `if err != nil { return failed, err }; return done, nil`
  abbrev pub ending :
      {A : Type 0} → DispatchResult C S → DispatchResult C S → Store p × Result A → Outcome
  ending on_error done (s, ok a) = (s, done, none)
  ending on_error done (s, err e) = (s, on_error, some e)

  -- What follows a failed send.
  unfoldable pub settle_failure :
      Delivery → Disposition → AttemptFailure → DispatchResult C S → Store p → Outcome
  settle_failure r d f result s =
      if pauses d.action
      then ending result result (
          update p s
            (plain p (pause_delivery p s.cfg clock r.delivery_id (pause_for now b r d f) f)))
      else if d.quarantine
      then ending result (record result { quarantined = 1 })
          (update p s (plain p (quarantine p s.cfg clock r.delivery_id d.reason f)))
      else ending result result
          (update p s (plain p (retry p s.cfg r.delivery_id (now + delay_of d r) f)))

  unfoldable pub after_send : Delivery → DispatchResult C S → Answer C S → Store p → Outcome
  after_send r result (acknowledged a) s =
      ending result (accepted a result) (update p s (plain p (delete_delivery p r.delivery_id)))
  after_send r result (failed e) s =
      let d = classify to_lower to_upper (some e) in
      settle_failure r d (failure_from_error e) (record result { disposition = d }) s

  -- The delivery is marked before it is sent.
  abbrev pub after_mark : Delivery → DispatchResult C S → Store p × Result (Unit {0}) → Outcome
  after_mark r result (s, err e) = (s, result, some e)
  after_mark r result (s, ok u) =
      after_send r result (post r.endpoint api_key r.envelope r.delivery_id r.envelope_sha256) s

  unfoldable pub after_due : BindingReconcileResult → Result (Option Delivery) → Store p → Outcome
  after_due rec (err e) s = (s, record no_result { reconciled = rec }, some e)
  after_due rec (ok none) s = (s, record no_result { reconciled = rec }, none)
  after_due rec (ok (some r)) s =
      after_mark r
        (record no_result { delivery_id = r.delivery_id; attempted = true; reconciled = rec })
        (update p s (plain p (mark_inflight p s.cfg r.delivery_id)))

  unfoldable pub after_reconcile : Store p × Result BindingReconcileResult → Outcome
  after_reconcile (s, err e) = (s, no_result, some e)
  after_reconcile (s, ok rec) = after_due rec (view p s (λ db. next_due p db now)) s

  unfoldable pub after_pause : Result (Option DispatchPause) → Store p → Outcome
  after_pause (err e) s = (s, no_result, some e)
  after_pause (ok (some standing)) s = (s, stopped standing, none)
  after_pause (ok none) s = after_reconcile (update p s (reconcile_binding p s.cfg clock b))

  unfoldable pub after_clear : Store p × Result Bool → Outcome
  after_clear (s, err e) = (s, no_result, some e)
  after_clear (s, ok cleared) = after_pause (view p s (read_pause p)) s

  unfoldable pub dispatch_once : Store p → Outcome
  dispatch_once s = after_clear (update p s (clear_resolved_pause p b))
