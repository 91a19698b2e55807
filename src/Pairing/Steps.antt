-- ===== src/Pairing/Steps.antt =====
-- manager.go: `Process` changes the state at most once, and by one of five functions.
use loramapr_receiver.Base.{
  ◌+◌, Bool, true, false, not, Option, none, some, ◌≡◌, refl, Text, Result, ok, err, inl, inr,
  subst, sym, if◌then◌else◌, codes, trim, is_empty,
}
use loramapr_receiver.State.Types.{
  Data, PairingPhase, unset, paired, ready, pairing, unknown_phase, unpaired, code_entered,
  bootstrap_exchanged, activated, steady_state,
}
use loramapr_receiver.State.Store.{Platform, Store, update}
use loramapr_receiver.Pairing.Types.{
  Status, CloudError, is_retryable, BootstrapExchange, ActivationResult, Answer, refused, answered,
  PairingClient, Host, Moment, World, Manager, set_pairing_phase,
}
use loramapr_receiver.Pairing.Lifecycle.{show_result, update_then}
use loramapr_receiver.Pairing.Attempts.{
  apply_exchange, apply_activation, apply_retry, apply_revert, can_attempt, sanitize_error,
  retry_delay, pairing_failure_change,
}
use loramapr_receiver.Pairing.Process.{
  told, show_retrying, show_failed, show_exchanged, show_activated, show_steady, show_failure,
  expires_before, activate_path, activation_request, apply_steady, handle_attempt_error,
  revert_to_unpaired, after_exchange, exchange_with, after_activate, activate_with,
  promote_steady_state, process_phase, process,
}
use loramapr_receiver.State.Updates.{Updated, next_data, update-Updated}
use loramapr_receiver.Pairing.Coherence.{IsAttempting}

-- The functions that `Process` passes to `Update`, with what holds then.
pub data Change (t : Moment) (d : Data) : (Data → Data) → Type 0 where
  exchanges :
      d.pairing.phase ≡ code_entered → (r : BootstrapExchange) → Change t d (apply_exchange t.now r)
  activates :
      d.pairing.phase ≡ bootstrap_exchanged
      → (r : ActivationResult) → Change t d (apply_activation t.now r)
  retries :
      (phase : PairingPhase)
      → d.pairing.phase ≡ phase
      → IsAttempting phase
      → (message change : Text)
      → Change t d (apply_retry t.failed_at phase (d.pairing.retry_count + 1) message change)
  reverts :
      IsAttempting d.pairing.phase
      → (message change : Text) → Change t d (apply_revert t.failed_at message change)
  completes : d.pairing.phase ≡ activated → Change t d (apply_steady t.now)

module _ (p : Platform) {R : Type 0} where
  -- The state is as before, or `Update` has run once.
  pub data Ends (t : Moment) (s : Store) (o : World R × Result (Unit {0})) : Type 0 where
    unchanged : o.0.store ≡ s → Ends t s o
    changed :
        (fn : Data → Data)
        → Change t s.memory fn
        → (r : Result (Unit {0}))
        → Updated p (next_data p t.stamped_at fn s.memory) s (o.0.store, r)
        → Ends t s o

  show_result-Updated :
      (next : Data) (show : Status → Status) (w : World R) (o : Store × Result (Unit {0}))
      → Updated p next w.store o
      → Updated p next w.store ((show_result show w o).0.store, o.1)
  show_result-Updated next show w (s, ok u) h = h
  show_result-Updated next show w (s, err e) h = h

  update_then-Ends :
      (t : Moment) (fn : Data → Data) (show : Status → Status) (w : World R)
      → Change t w.store.memory fn
      → Ends t w.store (update_then p t fn show w)
  update_then-Ends t fn show w c =
      let o = update p t.stamped_at t.write fn w.store in
      changed fn c o.1 (
        show_result-Updated (next_data p t.stamped_at fn w.store.memory) show w o
          (update-Updated p t.stamped_at t.write fn w.store))

  if-Ends :
      (t : Moment) (s : Store) (b : Bool) {x y : World R × Result (Unit {0})}
      → Ends t s x
      → Ends t s y
      → Ends t s (if b then x else y)
  if-Ends t s true h k = h
  if-Ends t s false h k = k

  module _ (host : Host) where
    handle_attempt_error-Ends :
        (t : Moment) (e : CloudError) (phase : PairingPhase) (w : World R)
        → w.store.memory.pairing.phase ≡ phase
        → IsAttempting phase
        → Ends t w.store (handle_attempt_error p host t w.store.memory e phase w)
    unfolding handle_attempt_error
    handle_attempt_error-Ends t e phase w h a =
        let message = sanitize_error e in
        let change = pairing_failure_change host.to_lower phase e (is_retryable e) in
        let count = w.store.memory.pairing.retry_count + 1 in
        if-Ends t w.store (is_retryable e)
          (update_then-Ends t (apply_retry t.failed_at phase count message change)
            (show_retrying (host.duration_text (retry_delay count))) w
            (retries phase h a message change))
          (update_then-Ends t (apply_revert t.failed_at message change) show_failed w
            (reverts (subst IsAttempting (sym h) a) message change))

    after_exchange-Ends :
        (t : Moment) (w : World R) (answer : Answer BootstrapExchange)
        → w.store.memory.pairing.phase ≡ code_entered
        → Ends t w.store (after_exchange p host t w.store.memory w answer)
    after_exchange-Ends t w (refused e) h =
        handle_attempt_error-Ends t e code_entered w h (inl refl)
    after_exchange-Ends t w (answered r) h =
        update_then-Ends t (apply_exchange t.now r) show_exchanged w (exchanges h r)

    after_activate-Ends :
        (t : Moment) (w : World R) (answer : Answer ActivationResult)
        → w.store.memory.pairing.phase ≡ bootstrap_exchanged
        → Ends t w.store (after_activate p host t w.store.memory w answer)
    after_activate-Ends t w (refused e) h =
        handle_attempt_error-Ends t e bootstrap_exchanged w h (inr refl)
    after_activate-Ends t w (answered r) h =
        update_then-Ends t (apply_activation t.now r) show_activated w (activates h r)

    exchange_with-Ends :
        (client : Option PairingClient) (t : Moment) (w : World R)
        → w.store.memory.pairing.phase ≡ code_entered
        → Ends t w.store (exchange_with p host client t w.store.memory w)
    exchange_with-Ends none t w h = unchanged refl
    exchange_with-Ends (some client) t w h =
        if-Ends t w.store (not (can_attempt w.store.memory.pairing.next_retry_at t.checked_at))
          (unchanged refl)
          (if-Ends t w.store (is_empty (trim w.store.memory.pairing.pairing_code)) (unchanged refl)
            (after_exchange-Ends t
              (told (codes "bootstrap_exchange") (codes "redeeming pairing code") w).0
              (client.exchange_pairing_code (trim w.store.memory.pairing.pairing_code)) h))

    activate_with-Ends :
        (m : Manager R) (client : Option PairingClient) (t : Moment) (w : World R)
        → w.store.memory.pairing.phase ≡ bootstrap_exchanged
        → Ends t w.store (activate_with p host m client t w.store.memory w)
    unfolding revert_to_unpaired
    activate_with-Ends m none t w h = unchanged refl
    activate_with-Ends m (some client) t w h =
        if-Ends t w.store (not (can_attempt w.store.memory.pairing.next_retry_at t.checked_at))
          (unchanged refl)
          (if-Ends t w.store (is_empty (trim w.store.memory.pairing.activation_token))
            (unchanged refl)
            (if-Ends t w.store (expires_before w.store.memory.pairing.activation_expires t.now)
              (update_then-Ends t
                (apply_revert t.failed_at (codes "activation token expired")
                  (codes "reverted_unpaired"))
                (show_failure (codes "unpaired") (codes "activation token expired")
                  (codes "activation token expired"))
                w (reverts (inr h) (codes "activation token expired") (codes "reverted_unpaired")))
              (after_activate-Ends t
                (told (codes "activate") (codes "activating receiver credential") w).0
                (client.activate_receiver (activate_path w.store.memory) (
                  activation_request m w.store.memory
                    (trim w.store.memory.pairing.activation_token)))
                h)))

    process_phase-Ends :
        (m : Manager R) (t : Moment) (phase : PairingPhase) (w : World R)
        → w.store.memory.pairing.phase ≡ phase
        → Ends t w.store (process_phase p host m t w.store.memory phase w)
    unfolding promote_steady_state
    process_phase-Ends m t unset w h = unchanged refl
    process_phase-Ends m t unpaired w h = unchanged refl
    process_phase-Ends m t code_entered w h = exchange_with-Ends m.client t w h
    process_phase-Ends m t bootstrap_exchanged w h = activate_with-Ends m m.client t w h
    process_phase-Ends m t activated w h =
        if-Ends t w.store (is_empty (trim w.store.memory.cloud.ingest_api_key)) (unchanged refl)
          (update_then-Ends t (apply_steady t.now) show_steady w (completes h))
    process_phase-Ends m t steady_state w h = unchanged refl
    process_phase-Ends m t paired w h = unchanged refl
    process_phase-Ends m t ready w h = unchanged refl
    process_phase-Ends m t pairing w h = unchanged refl
    process_phase-Ends m t (unknown_phase x) w h = unchanged refl

    pub process-Ends :
        (m : Manager R) (t : Moment) (w : World R) → Ends t w.store (process p host m t w)
    unfolding process
    process-Ends m t w =
        process_phase-Ends m t w.store.memory.pairing.phase
          (record w { status = set_pairing_phase w.store.memory.pairing.phase w.status }) refl
