-- ===== src/Pairing/Completion.antt =====
-- manager.go: a pairing that the cloud grants is completed, and how long a failed attempt waits.
use loramapr_receiver.Base.{
  ◌≤◌, true, false, none, some, ◌≡◌, ap, ◌∙◌, Text, trim, codes, is_empty, ok, arith, if◌then◌else◌,
  le→ltb-false,
}
use loramapr_receiver.Outbox.Types.{Time}
use loramapr_receiver.State.Types.{Data, code_entered, bootstrap_exchanged, activated, steady_state}
use loramapr_receiver.State.Store.{
  Platform, written, update, normalize_generations, normalize_binding, normalize_credential,
}
use loramapr_receiver.State.Updates.{next_data}
use loramapr_receiver.Pairing.Types.{
  Status, BootstrapExchange, ActivationRequest, ActivationResult, answered, PairingClient, Host,
  Moment, World, Manager, set_pairing_phase,
}
use loramapr_receiver.Pairing.Lifecycle.{update_then}
use loramapr_receiver.Pairing.Attempts.{can_attempt, apply_exchange, apply_activation}
use loramapr_receiver.Pairing.Process.{
  process, process_phase, exchange_with, activate_with, promote_steady_state, told, activate_path,
  activation_request, show_exchanged, show_activated, show_steady, apply_steady, expires_before,
}
use loramapr_receiver.Pairing.Coherence.{next_data-pairing, next_data-installation}

-- The cloud takes the code and activates the receiver.
pub record Grants (client : PairingClient) (code : Text) (r : BootstrapExchange)
    (a : ActivationResult) : Type 0 where
  pub exchange : client.exchange_pairing_code (trim code) ≡ answered r
  pub activate :
      (path : Text) (request : ActivationRequest)
      → client.activate_receiver path request ≡ answered a
  pub token : is_empty (trim r.activation_token) ≡ false
  pub key : is_empty (trim a.ingest_api_key) ≡ false

-- What a pairing has to show for itself.
pub record IsCompleted (a : ActivationResult) (d : Data) : Type 0 where
  pub phase : d.pairing.phase ≡ steady_state
  pub bound : d.installation.bound ≡ true
  pub key : d.cloud.ingest_api_key ≡ a.ingest_api_key

module _ (p : Platform) where
  next_data-key :
      (now : Time) (fn : Data → Data) (d : Data)
      → (next_data p now fn d).cloud.ingest_api_key ≡ (fn d).cloud.ingest_api_key
  unfolding normalize_generations normalize_binding normalize_credential
  next_data-key now fn d = ground arith

module _ (p : Platform) {R : Type 0} where
  -- `cloneData` of the state in memory succeeds: encoding/json can write it.
  abbrev pub IsEncodable : World R → Type 0
  IsEncodable w = p.clone w.store.memory ≡ ok w.store.memory

  update_then-written :
      (t : Moment) (fn : Data → Data) (show : Status → Status) (w : World R)
      → t.write ≡ written
      → IsEncodable w
      → (update_then p t fn show w).0.store.memory ≡ next_data p t.stamped_at fn w.store.memory
  unfolding update
  update_then-written t fn show w h c = rw (c, h)

  module _ (host : Host) (m : Manager R) (client : PairingClient) where
    exchanged_by :
        (t : Moment) (w : World R) (r : BootstrapExchange)
        → t.write ≡ written
        → IsEncodable w
        → w.store.memory.pairing.next_retry_at ≡ none
        → is_empty (trim w.store.memory.pairing.pairing_code) ≡ false
        → client.exchange_pairing_code (trim w.store.memory.pairing.pairing_code) ≡ answered r
        → (exchange_with p host (some client) t w.store.memory w).0.store.memory
          ≡ next_data p t.stamped_at (apply_exchange t.now r) w.store.memory
    unfolding can_attempt
    exchanged_by t w r ends i n c a = cc (
      n,
      c,
      a,
      update_then-written t (apply_exchange t.now r) show_exchanged
          (told (codes "bootstrap_exchange") (codes "redeeming pairing code") w).0 ends i,
    )

    activated_by :
        (t : Moment) (w : World R) (a : ActivationResult)
        → t.write ≡ written
        → IsEncodable w
        → w.store.memory.pairing.next_retry_at ≡ none
        → is_empty (trim w.store.memory.pairing.activation_token) ≡ false
        → expires_before w.store.memory.pairing.activation_expires t.now ≡ false
        → ((path : Text) (request : ActivationRequest)
            → client.activate_receiver path request ≡ answered a)
        → (activate_with p host m (some client) t w.store.memory w).0.store.memory
          ≡ next_data p t.stamped_at (apply_activation t.now a) w.store.memory
    unfolding can_attempt
    activated_by t w a ends i n c x grants = cc (
      n,
      c,
      x,
      grants (activate_path w.store.memory)
          (activation_request m w.store.memory (trim w.store.memory.pairing.activation_token)),
      update_then-written t (apply_activation t.now a) show_activated
          (told (codes "activate") (codes "activating receiver credential") w).0 ends i,
    )

  abbrev viewed : World R → World R
  viewed w = record w { status = set_pairing_phase w.store.memory.pairing.phase w.status }

  module _ (host : Host) (m : Manager R) (client : PairingClient) (e : m.client ≡ some client) where
    abbrev after : Moment → World R → World R
    after t w = (process p host m t w).0

    exchanged_after :
        (t : Moment) (w : World R) (r : BootstrapExchange)
        → t.write ≡ written
        → IsEncodable w
        → w.store.memory.pairing.phase ≡ code_entered
        → w.store.memory.pairing.next_retry_at ≡ none
        → is_empty (trim w.store.memory.pairing.pairing_code) ≡ false
        → client.exchange_pairing_code (trim w.store.memory.pairing.pairing_code) ≡ answered r
        → (after t w).store.memory
          ≡ next_data p t.stamped_at (apply_exchange t.now r) w.store.memory
    unfolding process
    exchanged_after t w r ends i h n c a =
        cc (h, e, exchanged_by host m client t (viewed w) r ends i n c a)

    activated_after :
        (t : Moment) (w : World R) (a : ActivationResult)
        → t.write ≡ written
        → IsEncodable w
        → w.store.memory.pairing.phase ≡ bootstrap_exchanged
        → w.store.memory.pairing.next_retry_at ≡ none
        → is_empty (trim w.store.memory.pairing.activation_token) ≡ false
        → expires_before w.store.memory.pairing.activation_expires t.now ≡ false
        → ((path : Text) (request : ActivationRequest)
            → client.activate_receiver path request ≡ answered a)
        → (after t w).store.memory
          ≡ next_data p t.stamped_at (apply_activation t.now a) w.store.memory
    unfolding process
    activated_after t w a ends i h n c x grants =
        cc (h, e, activated_by host m client t (viewed w) a ends i n c x grants)

    settled_after :
        (t : Moment) (w : World R)
        → t.write ≡ written
        → IsEncodable w
        → w.store.memory.pairing.phase ≡ activated
        → is_empty (trim w.store.memory.cloud.ingest_api_key) ≡ false
        → (after t w).store.memory ≡ next_data p t.stamped_at (apply_steady t.now) w.store.memory
    unfolding process promote_steady_state
    settled_after t w ends i h k =
        ap (λ x. (process_phase p host m t w.store.memory x (viewed w)).0.store.memory) h
        ∙ ap
            (λ b.
              (if b
                then told (codes "activated") (codes "waiting for durable credentials") (viewed w)
                else update_then p t (apply_steady t.now) show_steady (viewed w)).0.store.memory)
            k
        ∙ update_then-written t (apply_steady t.now) show_steady (viewed w) ends i

    -- With an entered code that is not blank and no retry planned, if the cloud takes the code and
    -- activates the receiver with a token and a secret that are not blank, the token has not expired
    -- when the second call runs, encoding/json can write the state before each call, and the writes end
    -- well, three calls of `Process` complete the
    -- pairing: the phase is the steady state, the installation is bound, and the state has the secret.
    pub process-IsCompleted :
        (t1 t2 t3 : Moment) (w : World R) (r : BootstrapExchange) (a : ActivationResult)
        → t1.write ≡ written
        → t2.write ≡ written
        → t3.write ≡ written
        → IsEncodable w
        → IsEncodable (after t1 w)
        → IsEncodable (after t2 (after t1 w))
        → w.store.memory.pairing.phase ≡ code_entered
        → w.store.memory.pairing.next_retry_at ≡ none
        → is_empty (trim w.store.memory.pairing.pairing_code) ≡ false
        → Grants client w.store.memory.pairing.pairing_code r a
        → t2.now ≤ r.activation_expires
        → IsCompleted a (after t3 (after t2 (after t1 w))).store.memory
    unfolding apply_exchange apply_activation
    process-IsCompleted t1 t2 t3 w r a e1 e2 e3 i1 i2 i3 h n c g x =
        let w1 = after t1 w in
        let w2 = after t2 w1 in
        let m1 = exchanged_after t1 w r e1 i1 h n c g.exchange in
        let p1 =
          ap (λ d. d.pairing) m1
          ∙ next_data-pairing p t1.stamped_at (apply_exchange t1.now r) w.store.memory in
        let m2 =
          activated_after t2 w1 a e2 i2 (ap (λ s. s.phase) p1) (ap (λ s. s.next_retry_at) p1)
            (ap (λ s. is_empty (trim s.activation_token)) p1 ∙ g.token)
            (ap (λ s. expires_before s.activation_expires t2.now) p1
              ∙ le→ltb-false r.activation_expires t2.now x)
            g.activate in
        let p2 =
          ap (λ d. d.pairing) m2
          ∙ next_data-pairing p t2.stamped_at (apply_activation t2.now a) w1.store.memory in
        let k2 =
          ap (λ d. d.cloud.ingest_api_key) m2
          ∙ next_data-key p t2.stamped_at (apply_activation t2.now a) w1.store.memory in
        let b2 =
          ap (λ d. d.installation) m2
          ∙ next_data-installation p t2.stamped_at (apply_activation t2.now a) w1.store.memory in
        let m3 =
          settled_after t3 w2 e3 i3 (ap (λ s. s.phase) p2)
            (ap (λ x. is_empty (trim x)) k2 ∙ g.key) in
        let p3 =
          ap (λ d. d.pairing) m3
          ∙ next_data-pairing p t3.stamped_at (apply_steady t3.now) w2.store.memory in
        let b3 =
          ap (λ d. d.installation) m3
          ∙ next_data-installation p t3.stamped_at (apply_steady t3.now) w2.store.memory in
        let k3 =
          ap (λ d. d.cloud.ingest_api_key) m3
          ∙ next_data-key p t3.stamped_at (apply_steady t3.now) w2.store.memory in
        record {
          phase = ap (λ s. s.phase) p3;
          bound = ap (λ i. i.bound) b3 ∙ ap (λ i. i.bound) b2;
          key = k3 ∙ k2;
        }
