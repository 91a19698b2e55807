-- ===== src/Outbox/Types.antt =====
-- internal/outbox/types.go: deliveries, the dispatch pause, the rotation journal, bindings, configuration.
-- An instant of time is the number of nanoseconds since January 1 of year 1, UTC, so Go's zero time
-- is 0. A duration is a number of nanoseconds. Strings are code points, the envelope is bytes.
use loramapr_receiver.Base.{ℕ, ◌*◌, List, Text}

abbrev pub Time : Type 0
Time = ℕ

-- An int64 that may be negative, as a difference of two naturals.
pub record Signed : Type 0 where
  pub plus : ℕ
  pub minus : ℕ

pub data State : Type 0 where
  pending inflight quarantined : State

-- Any other kind is a text that no constant of the package names.
pub data DispatchPauseKind : Type 0 where
  empty collision credential binding other : DispatchPauseKind

pub record DispatchPause : Type 0 where
  pub kind : DispatchPauseKind
  pub reason : Text
  pub delivery_id : Text
  pub paused_at : Time
  pub credential_generation : ℕ
  pub binding_generation : ℕ
  pub status_code : ℕ
  pub error_code : Text
  pub request_id : Text

pub data InstallationRotationPhase : Type 0 where
  intent old_binding_quarantined state_rotated completed : InstallationRotationPhase

pub record InstallationRotation : Type 0 where
  pub old_installation_id : Text
  pub new_installation_id : Text
  pub reason : Text
  pub phase : InstallationRotationPhase
  pub started_at : Time
  pub updated_at : Time
  pub quarantined : ℕ

pub record Config : Type 0 where
  pub max_events : ℕ
  pub max_bytes : ℕ
  pub quarantine_retention : ℕ

pub record Delivery : Type 0 where
  pub delivery_id : Text
  pub envelope : List ℕ
  pub envelope_sha256 : Text
  pub idempotency_key : Text
  pub owner_id : Text
  pub receiver_agent_id_snapshot : Text
  pub installation_id : Text
  pub credential_generation : ℕ
  pub binding_generation : ℕ
  pub endpoint : Text
  pub state : State
  pub sequence : ℕ
  pub enqueued_at : Time
  pub next_attempt_at : Time
  pub attempts : ℕ
  pub last_status_code : ℕ
  pub last_error_code : Text
  pub last_error : Text
  pub last_request_id : Text
  pub quarantined_at : Time
  pub quarantine_reason : Text

pub record AttemptFailure : Type 0 where
  pub status_code : ℕ
  pub error_code : Text
  pub message : Text
  pub request_id : Text

pub record Binding : Type 0 where
  pub owner_id : Text
  pub receiver_agent_id : Text
  pub installation_id : Text
  pub credential_generation : ℕ
  pub binding_generation : ℕ

-- store.go
pub record ReconciledBinding : Type 0 where
  pub owner_id : Text
  pub receiver_agent_id : Text
  pub installation_id : Text

pub record BindingReconcileResult : Type 0 where
  pub kept : ℕ
  pub credential_rebind_quarantined : ℕ
  pub installation_reset_quarantined : ℕ

abbrev pub default_max_events : ℕ
default_max_events = 10000

abbrev pub default_max_bytes : ℕ
default_max_bytes = 64 * 1024 * 1024
