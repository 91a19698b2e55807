-- ===== src/Pairing/Process.antt =====
-- manager.go: `Process`, one step of the pairing.
use loramapr_receiver.Base.{
  ◌+◌, Bool, false, not, Option, none, some, List, [], ◌++◌, Text, codes, trim, is_empty, Result,
  ok, err, ltb, if◌then◌else◌, pairing_failed,
}
use loramapr_receiver.Base.Entries.{insert}
use loramapr_receiver.Outbox.Types.{Time}
use loramapr_receiver.State.Types.{
  Data, PairingPhase, unpaired, code_entered, bootstrap_exchanged, activated, steady_state,
}
use loramapr_receiver.State.Store.{Platform}
use loramapr_receiver.Pairing.Types.{
  Status, set_pairing_phase, set_component, set_last_error, CloudError, is_retryable,
  BootstrapExchange, ActivationRequest, ActivationResult, Answer, refused, answered, PairingClient,
  Host, Moment, World, Manager,
}
use loramapr_receiver.Pairing.Lifecycle.{set_pairing, update_then}
use loramapr_receiver.Pairing.Attempts.{
  retry_delay, can_attempt, sanitize_error, pairing_failure_change, apply_exchange,
  apply_activation, apply_retry, apply_revert,
}

-- A call that only sets the component's state.
abbrev pub told : {R : Type 0} → Text → Text → World R → World R × Result (Unit {0})
told state message w = (record w { status = set_component state message w.status }, ok tt)

abbrev pub fail_pairing : {R : Type 0} → Text → PairingPhase → World R → World R × Result (Unit {0})
fail_pairing reason phase w = (
  record w {
    status =
        set_last_error reason
          (set_component (codes "error") reason (set_pairing_phase phase w.status));
  },
  err pairing_failed,
)

abbrev pub show_attempt : PairingPhase → Text → Text → Status → Status
show_attempt phase state message s =
    set_last_error [] (set_component state message (set_pairing_phase phase s))

abbrev pub show_failure : Text → Text → Text → Status → Status
show_failure state message error s =
    set_last_error error (set_component state message (set_pairing_phase unpaired s))

abbrev pub show_retrying : Text → Status → Status
show_retrying delay s =
    set_last_error (codes "temporary cloud error")
      (set_component (codes "retrying") (codes "temporary failure, retrying in " ++ delay) s)

abbrev pub show_failed : Status → Status
show_failed =
    show_failure (codes "failed") (codes "pairing failed, enter a new pairing code")
      (codes "pairing failed")

abbrev pub show_exchanged : Status → Status
show_exchanged =
    show_attempt bootstrap_exchanged (codes "bootstrap_exchanged") (codes "pairing code redeemed")

abbrev pub show_activated : Status → Status
show_activated = show_attempt activated (codes "activated") (codes "receiver credential activated")

abbrev pub show_steady : Status → Status
show_steady s =
    set_component (codes "steady_state") (codes "pairing completed")
      (set_pairing_phase steady_state s)

abbrev pub expires_before : Option Time → Time → Bool
expires_before none now = false
expires_before (some expires) now = ltb expires now

-- The metadata of the activation: the identity's, and three of the installation.
abbrev pub request_metadata : {R : Type 0} → Manager R → Data → List (Text × Text)
request_metadata m d = insert (codes "hostname") d.installation.hostname (
    insert (codes "localName") d.installation.local_name
      (insert (codes "installationId") d.installation.id m.identity.metadata))

abbrev pub activate_path : Data → Text
activate_path d =
    let endpoint = trim d.cloud.activate_endpoint in
    if is_empty endpoint then codes "/api/receiver/activate" else endpoint

abbrev pub apply_steady : Time → Data → Data
apply_steady now =
    set_pairing
      (λ s. record s { phase = steady_state; updated_at = now; last_change = codes "steady_state" })

abbrev pub activation_request : {R : Type 0} → Manager R → Data → Text → ActivationRequest
activation_request m d token = record {
  activation_token = token;
  label = m.identity.label;
  runtime_version = m.identity.runtime_version;
  platform = m.identity.platform;
  arch = m.identity.arch;
  metadata = request_metadata m d;
}

module _ (p : Platform) (host : Host) {R : Type 0} where
  open host use {to_lower, duration_text}

  unfoldable pub handle_attempt_error :
      Moment → Data → CloudError → PairingPhase → World R → World R × Result (Unit {0})
  handle_attempt_error t snapshot e phase w =
      let retryable = is_retryable e in
      let message = sanitize_error e in
      let change = pairing_failure_change to_lower phase e retryable in
      let count = snapshot.pairing.retry_count + 1 in
      if retryable
      then update_then p t (apply_retry t.failed_at phase count message change)
          (show_retrying (duration_text (retry_delay count))) w
      else update_then p t (apply_revert t.failed_at message change) show_failed w

  unfoldable pub revert_to_unpaired : Moment → Text → World R → World R × Result (Unit {0})
  revert_to_unpaired t reason =
      update_then p t (apply_revert t.failed_at reason (codes "reverted_unpaired"))
        (show_failure (codes "unpaired") reason reason)

  abbrev pub after_exchange :
      Moment → Data → World R → Answer BootstrapExchange → World R × Result (Unit {0})
  after_exchange t snapshot w (refused e) = handle_attempt_error t snapshot e code_entered w
  after_exchange t snapshot w (answered r) =
      update_then p t (apply_exchange t.now r) show_exchanged w

  -- `exchangeBootstrap` with a client, or without.
  abbrev pub exchange_with :
      Option PairingClient → Moment → Data → World R → World R × Result (Unit {0})
  exchange_with none t snapshot w = told (codes "disabled") (codes "cloud client unavailable") w
  exchange_with (some client) t snapshot w =
      let code = trim snapshot.pairing.pairing_code in
      if not (can_attempt snapshot.pairing.next_retry_at t.checked_at)
      then told (codes "retry_wait") (codes "waiting for next pairing retry") w
      else if is_empty code
      then fail_pairing (codes "pairing phase has no pairing code") snapshot.pairing.phase w
      else after_exchange t snapshot
          (told (codes "bootstrap_exchange") (codes "redeeming pairing code") w).0
          (client.exchange_pairing_code code)

  abbrev pub after_activate :
      Moment → Data → World R → Answer ActivationResult → World R × Result (Unit {0})
  after_activate t snapshot w (refused e) = handle_attempt_error t snapshot e bootstrap_exchanged w
  after_activate t snapshot w (answered r) =
      update_then p t (apply_activation t.now r) show_activated w

  -- `activate` with a client, or without.
  abbrev pub activate_with :
      Manager R → Option PairingClient → Moment → Data → World R → World R × Result (Unit {0})
  activate_with m none t snapshot w = told (codes "disabled") (codes "cloud client unavailable") w
  activate_with m (some client) t snapshot w =
      let token = trim snapshot.pairing.activation_token in
      if not (can_attempt snapshot.pairing.next_retry_at t.checked_at)
      then told (codes "retry_wait") (codes "waiting for next activation retry") w
      else if is_empty token
      then fail_pairing (codes "bootstrap exchange missing activation token") snapshot.pairing.phase
          w
      else if expires_before snapshot.pairing.activation_expires t.now
      then revert_to_unpaired t (codes "activation token expired") w
      else after_activate t snapshot
          (told (codes "activate") (codes "activating receiver credential") w).0
          (client.activate_receiver (activate_path snapshot) (activation_request m snapshot token))

  -- `promoteSteadyState` in the phase in which `Process` calls it.
  unfoldable pub promote_steady_state : Moment → Data → World R → World R × Result (Unit {0})
  promote_steady_state t snapshot w =
      if is_empty (trim snapshot.cloud.ingest_api_key)
      then told (codes "activated") (codes "waiting for durable credentials") w
      else update_then p t (apply_steady t.now) show_steady w

  abbrev pub process_phase :
      Manager R → Moment → Data → PairingPhase → World R → World R × Result (Unit {0})
  process_phase m t snapshot unpaired w =
      told (codes "unpaired") (codes "waiting for pairing code") w
  process_phase m t snapshot code_entered w = exchange_with m.client t snapshot w
  process_phase m t snapshot bootstrap_exchanged w = activate_with m m.client t snapshot w
  process_phase m t snapshot activated w = promote_steady_state t snapshot w
  process_phase m t snapshot steady_state w =
      told (codes "steady_state") (codes "pairing completed") w
  process_phase m t snapshot phase w = fail_pairing (codes "unknown pairing phase") phase w

  -- `Process`
  unfoldable pub process : Manager R → Moment → World R → World R × Result (Unit {0})
  unfolding handle_attempt_error revert_to_unpaired promote_steady_state
  process m t w =
      let snapshot = w.store.memory in
      process_phase m t snapshot snapshot.pairing.phase
        (record w { status = set_pairing_phase snapshot.pairing.phase w.status })
