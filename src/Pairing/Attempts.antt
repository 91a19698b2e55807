-- ===== src/Pairing/Attempts.antt =====
-- manager.go: `Process` and the attempts to pair.
use loramapr_receiver.Base.{
  ℕ, ◌+◌, ◌*◌, ◌^◌, Bool, true, false, ◌||◌, not, Option, none, some, [], map, Text, codes, trim,
  is_empty, ltb, ◌==◌, if◌then◌else◌,
}
use loramapr_receiver.Base.Utf8.{byte_length, cut, contains}
use loramapr_receiver.Outbox.Types.{Time}
use loramapr_receiver.State.Types.{
  Data, PairingPhase, unpaired, code_entered, bootstrap_exchanged, activated,
}
use loramapr_receiver.State.Store.{set_cloud}
use loramapr_receiver.Pairing.Types.{CloudError, BootstrapExchange, ActivationResult}
use loramapr_receiver.Pairing.Lifecycle.{set_pairing}

abbrev pub min_int : ℕ → ℕ → ℕ
min_int a b = if ltb a b then a else b

abbrev pub second : ℕ
second = 1000000000

-- `maxRetryDelay`
abbrev pub max_retry_delay : ℕ
max_retry_delay = 120 * second

-- A retry count is not negative.
unfoldable pub retry_delay : ℕ → ℕ
retry_delay retry_count =
    let delay = second * 2 ^ min_int (retry_count + 1) 7 in
    if retry_count == 0 then 0 else if ltb max_retry_delay delay then max_retry_delay else delay

unfoldable pub can_attempt : Option Time → Time → Bool
can_attempt none now = true
can_attempt (some next) now = not (ltb now next)

unfoldable pub sanitize_error : CloudError → Text
sanitize_error e = if ltb 256 (byte_length e.message) then cut 256 e.message else e.message

unfoldable pub is_pairing_code_expired : (ℕ → ℕ) → CloudError → Bool
is_pairing_code_expired to_lower e =
    contains (map to_lower e.message) (codes "expired")
    || elim e.api [ none ↦ false | some api ↦ api.status_code == 410 ]

unfoldable pub pairing_failure_change : (ℕ → ℕ) → PairingPhase → CloudError → Bool → Text
pairing_failure_change to_lower code_entered e retryable =
    if retryable
    then codes "pairing_retry_scheduled"
    else if is_pairing_code_expired to_lower e
    then codes "pairing_code_expired"
    else codes "pairing_code_invalid"
pairing_failure_change to_lower bootstrap_exchanged e retryable =
    if retryable then codes "activation_retry_scheduled" else codes "activation_failed"
pairing_failure_change to_lower _ e retryable =
    if retryable then codes "retry_scheduled" else codes "failed_permanent"

-- `if value := strings.TrimSpace(given); value != "" { field = value }`
abbrev pub trimmed_or : Text → Text → Text
trimmed_or old given = if is_empty (trim given) then old else trim given

-- `if given != "" { field = given }`
abbrev pub given_or : Text → Text → Text
given_or old given = if is_empty given then old else given

unfoldable pub apply_exchange : Time → BootstrapExchange → Data → Data
apply_exchange now r d =
    set_cloud
      (λ c. record c {
        config_version = trimmed_or c.config_version r.config_version;
        receiver_label = trimmed_or c.receiver_label r.receiver_label;
        site_label = trimmed_or c.site_label r.site_label;
        group_label = trimmed_or c.group_label r.group_label;
        activate_endpoint = r.activate_endpoint;
        heartbeat_endpoint = r.heartbeat_endpoint;
        ingest_endpoint = r.ingest_endpoint;
        updated_at = now;
      })
      (set_pairing
        (λ s. record s {
          phase = bootstrap_exchanged;
          install_session_id = r.install_session_id;
          flow_key = r.flow_key;
          activation_token = r.activation_token;
          activation_expires = some r.activation_expires;
          retry_count = 0;
          next_retry_at = none;
          last_attempt_at = some now;
          last_error = [];
          updated_at = now;
          last_change = codes "bootstrap_exchanged";
        })
        d)

unfoldable pub apply_activation : Time → ActivationResult → Data → Data
apply_activation now r d =
    record (set_cloud
      (λ c. record c {
        owner_id = r.owner_id;
        receiver_id = r.receiver_agent_id;
        receiver_label = trimmed_or c.receiver_label r.receiver_label;
        site_label = trimmed_or c.site_label r.site_label;
        group_label = trimmed_or c.group_label r.group_label;
        ingest_api_key_id = r.ingest_api_key_id;
        ingest_api_key = r.ingest_api_key;
        config_version = trimmed_or c.config_version r.config_version;
        ingest_endpoint = given_or c.ingest_endpoint r.ingest_endpoint;
        heartbeat_endpoint = given_or c.heartbeat_endpoint r.heartbeat_endpoint;
        credential_ref = given_or c.credential_ref r.receiver_agent_id;
        updated_at = now;
      })
      (set_pairing
        (λ s. record s {
          phase = activated;
          pairing_code = [];
          activation_token = [];
          activation_expires = none;
          retry_count = 0;
          next_retry_at = none;
          last_attempt_at = some now;
          last_error = [];
          updated_at = now;
          last_change = codes "activated";
        })
        d)) { installation = record d.installation { bound = true } }

unfoldable pub apply_retry : Time → PairingPhase → ℕ → Text → Text → Data → Data
apply_retry now phase count message change = set_pairing (λ s. record s {
  phase = phase;
  retry_count = count;
  next_retry_at = some (now + retry_delay count);
  last_attempt_at = some now;
  last_error = message;
  updated_at = now;
  last_change = change;
})

-- The update of `revertToUnpaired`, and that of `handleAttemptError` on a permanent failure.
unfoldable pub apply_revert : Time → Text → Text → Data → Data
apply_revert now message change = set_pairing (λ s. record s {
  phase = unpaired;
  pairing_code = [];
  activation_token = [];
  activation_expires = none;
  retry_count = 0;
  next_retry_at = none;
  last_attempt_at = some now;
  last_error = message;
  updated_at = now;
  last_change = change;
})
