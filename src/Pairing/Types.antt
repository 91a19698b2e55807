-- ===== src/Pairing/Types.antt =====
-- internal/pairing/manager.go: the manager, what it calls and what it returns. Of internal/status it
-- takes the fields that the manager sets, without the times of their setting.
use loramapr_receiver.Base.{
  ℕ, Bool, true, false, Option, none, some, List, Text, codes, is_empty, Result, if◌then◌else◌,
}
use loramapr_receiver.Outbox.Types.{Time}
use loramapr_receiver.State.Types.{PairingPhase}
use loramapr_receiver.State.Store.{Store, WriteOutcome}
use loramapr_receiver.Dispatch.Classify.{ApiError}

pub record Status : Type 0 where
  pub installation_id : Text
  pub pairing_phase : PairingPhase
  pub component_state : Text
  pub component_message : Text
  pub last_error : Text

abbrev pub set_installation_id : Text → Status → Status
set_installation_id id s = record s { installation_id = id }

abbrev pub set_pairing_phase : PairingPhase → Status → Status
set_pairing_phase phase s = record s { pairing_phase = phase }

-- `SetComponent("pairing", state, message)`
abbrev pub set_component : Text → Text → Status → Status
set_component state message s = record s { component_state = state; component_message = message }

abbrev pub set_last_error : Text → Status → Status
set_last_error message s = record s { last_error = message }

-- An error of the cloud client: its text, and what `errors.As` and `errors.Is` find in it.
pub record CloudError : Type 0 where
  pub message : Text
  pub api : Option ApiError
  pub deadline_exceeded : Bool
  pub canceled : Bool
  pub network : Bool

-- `cloudclient.IsRetryable` of an error
unfoldable pub is_retryable : CloudError → Bool
is_retryable e = elim e.api [
  | some api ↦ api.retryable
  | none ↦ if e.deadline_exceeded then true else if e.canceled then false else e.network
]

pub record BootstrapExchange : Type 0 where
  pub install_session_id : Text
  pub flow_key : Text
  pub activation_token : Text
  pub activation_expires : Time
  pub config_version : Text
  pub receiver_label : Text
  pub site_label : Text
  pub group_label : Text
  pub activate_endpoint : Text
  pub heartbeat_endpoint : Text
  pub ingest_endpoint : Text

-- The metadata are entries, each value as its text.
pub record ActivationRequest : Type 0 where
  pub activation_token : Text
  pub label : Text
  pub runtime_version : Text
  pub platform : Text
  pub arch : Text
  pub metadata : List (Text × Text)

pub record ActivationResult : Type 0 where
  pub receiver_agent_id : Text
  pub owner_id : Text
  pub receiver_label : Text
  pub site_label : Text
  pub group_label : Text
  pub ingest_api_key_id : Text
  pub ingest_api_key : Text
  pub config_version : Text
  pub ingest_endpoint : Text
  pub heartbeat_endpoint : Text
  pub activated_at : Time

pub data Answer (V : Type 0) : Type 0 where
  refused : CloudError → Answer V
  answered : V → Answer V

-- `cloudclient.PairingClient`
pub record PairingClient : Type 0 where
  pub exchange_pairing_code : Text → Answer BootstrapExchange
  pub activate_receiver : Text → ActivationRequest → Answer ActivationResult

pub record ActivationIdentity : Type 0 where
  pub label : Text
  pub runtime_version : Text
  pub platform : Text
  pub arch : Text
  pub metadata : List (Text × Text)

-- What the libraries give: the names of the build's target, unicode.ToLower and unicode.ToUpper, and
-- `time.Duration.String`.
pub record Host : Type 0 where
  pub goos : Text
  pub goarch : Text
  pub to_lower : ℕ → ℕ
  pub to_upper : ℕ → ℕ
  pub duration_text : ℕ → Text

-- The readings of the clock in one call, and how the write of the state ends.
pub record Moment : Type 0 where
  pub checked_at : Time
  pub now : Time
  pub failed_at : Time
  pub stamped_at : Time
  pub write : WriteOutcome

-- What the manager changes: the state, what belongs to the rotator alone, and the status.
pub record World (R : Type 0) : Type 0 where
  pub store : Store
  pub own : R
  pub status : Status

-- The manager. The rotator changes the state and what is its own.
pub record Manager (R : Type 0) : Type 0 where
  pub client : Option PairingClient
  pub identity : ActivationIdentity
  pub rotator : Option (Text → Store × R → (Store × R) × Result Text)

-- The identity as `NewManager` completes it.
unfoldable pub new_identity : Host → ActivationIdentity → ActivationIdentity
new_identity host i = record i {
  platform = if is_empty i.platform then host.goos else i.platform;
  arch = if is_empty i.arch then host.goarch else i.arch;
  runtime_version = if is_empty i.runtime_version then codes "dev" else i.runtime_version;
}
