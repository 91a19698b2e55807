-- ===== src/State/Types.antt =====
-- internal/state/state.go: the durable state of the receiver. A phase that no constant names is a text.
-- An instant of time is as in the outbox, a float64 its bits, a pointer an option, `int` counters are
-- not negative.
use loramapr_receiver.Base.{ℕ, Bool, false, Option, none, List, [], Text}
use loramapr_receiver.Outbox.Types.{Time}
use loramapr_receiver.Clock.Types.{Sample}

-- `PairingPhase`: the empty text, the constants, the three texts of older schemas, and any other text.
pub data PairingPhase : Type 0 where
  unset unpaired code_entered bootstrap_exchanged activated steady_state : PairingPhase
  paired ready pairing : PairingPhase
  unknown_phase : Text → PairingPhase

pub record InstallationState : Type 0 where
  pub id : Text
  pub bound : Bool
  pub local_name : Text
  pub hostname : Text
  pub created_at : Time
  pub last_started_at : Time

pub record PairingState : Type 0 where
  pub phase : PairingPhase
  pub pairing_code : Text
  pub install_session_id : Text
  pub flow_key : Text
  pub activation_token : Text
  pub activation_expires : Option Time
  pub retry_count : ℕ
  pub next_retry_at : Option Time
  pub last_attempt_at : Option Time
  pub last_error : Text
  pub updated_at : Time
  pub last_change : Text

pub record CloudState : Type 0 where
  pub endpoint_url : Text
  pub config_version : Text
  pub activate_endpoint : Text
  pub heartbeat_endpoint : Text
  pub ingest_endpoint : Text
  pub owner_id : Text
  pub receiver_id : Text
  pub receiver_label : Text
  pub site_label : Text
  pub group_label : Text
  pub ingest_api_key_id : Text
  pub ingest_api_key : Text
  pub credential_ref : Text
  pub credential_fingerprint : Text
  pub credential_generation : ℕ
  pub binding_generation : ℕ
  pub clock_samples : List Sample
  pub updated_at : Time

pub record RuntimeState : Type 0 where
  pub profile : Text
  pub mode : Text
  pub install_type : Text

pub record UpdateState : Type 0 where
  pub status : Text
  pub summary : Text
  pub hint : Text
  pub manifest_version : Text
  pub manifest_channel : Text
  pub recommended_version : Text
  pub last_checked_at : Option Time
  pub last_error : Text
  pub updated_at : Time

pub record HomeAutoSessionState : Type 0 where
  pub module_state : Text
  pub control_state : Text
  pub active_state_source : Text
  pub reconciliation_state : Text
  pub effective_config_source : Text
  pub effective_config_version : Text
  pub cloud_config_present : Bool
  pub last_fetched_config_ver : Text
  pub last_applied_config_ver : Text
  pub last_config_apply_result : Text
  pub last_config_apply_error : Text
  pub desired_config_enabled : Option Bool
  pub desired_config_mode : Text
  pub active_session_id : Text
  pub active_trigger_node : Text
  pub pending_action : Text
  pub pending_trigger_node : Text
  pub pending_device_uid : Text
  pub pending_reason : Text
  pub pending_dedupe_key : Text
  pub pending_since : Option Time
  pub last_decision_reason : Text
  pub last_start_dedupe_key : Text
  pub last_stop_dedupe_key : Text
  pub last_action : Text
  pub last_action_result : Text
  pub last_action_at : Option Time
  pub last_successful_action : Text
  pub last_successful_action_at : Option Time
  pub last_error : Text
  pub blocked_reason : Text
  pub consecutive_failures : ℕ
  pub last_decision_at : Option Time
  pub last_event_at : Option Time
  pub cooldown_until : Option Time
  pub decision_cooldown_until : Option Time
  pub gps_status : Text
  pub gps_reason : Text
  pub gps_node_id : Text
  pub gps_updated_at : Option Time
  pub gps_distance_m : Option ℕ
  pub observed_dropped : ℕ
  pub updated_at : Time

pub record MetadataState : Type 0 where
  pub updated_at : Time

pub record Data : Type 0 where
  pub schema_version : ℕ
  pub installation : InstallationState
  pub pairing : PairingState
  pub cloud : CloudState
  pub runtime : RuntimeState
  pub update : UpdateState
  pub home_auto_session : HomeAutoSessionState
  pub metadata : MetadataState

abbrev pub zero_installation_state : InstallationState
zero_installation_state = record {
  id = [];
  bound = false;
  local_name = [];
  hostname = [];
  created_at = 0;
  last_started_at = 0;
}

abbrev pub zero_pairing_state : PairingState
zero_pairing_state = record {
  phase = unset;
  pairing_code = [];
  install_session_id = [];
  flow_key = [];
  activation_token = [];
  activation_expires = none;
  retry_count = 0;
  next_retry_at = none;
  last_attempt_at = none;
  last_error = [];
  updated_at = 0;
  last_change = [];
}

abbrev pub zero_cloud_state : CloudState
zero_cloud_state = record {
  endpoint_url = [];
  config_version = [];
  activate_endpoint = [];
  heartbeat_endpoint = [];
  ingest_endpoint = [];
  owner_id = [];
  receiver_id = [];
  receiver_label = [];
  site_label = [];
  group_label = [];
  ingest_api_key_id = [];
  ingest_api_key = [];
  credential_ref = [];
  credential_fingerprint = [];
  credential_generation = 0;
  binding_generation = 0;
  clock_samples = [];
  updated_at = 0;
}

abbrev pub zero_runtime_state : RuntimeState
zero_runtime_state = record { profile = []; mode = []; install_type = [] }

abbrev pub zero_update_state : UpdateState
zero_update_state = record {
  status = [];
  summary = [];
  hint = [];
  manifest_version = [];
  manifest_channel = [];
  recommended_version = [];
  last_checked_at = none;
  last_error = [];
  updated_at = 0;
}

abbrev pub zero_home_auto_session_state : HomeAutoSessionState
zero_home_auto_session_state = record {
  module_state = [];
  control_state = [];
  active_state_source = [];
  reconciliation_state = [];
  effective_config_source = [];
  effective_config_version = [];
  cloud_config_present = false;
  last_fetched_config_ver = [];
  last_applied_config_ver = [];
  last_config_apply_result = [];
  last_config_apply_error = [];
  desired_config_enabled = none;
  desired_config_mode = [];
  active_session_id = [];
  active_trigger_node = [];
  pending_action = [];
  pending_trigger_node = [];
  pending_device_uid = [];
  pending_reason = [];
  pending_dedupe_key = [];
  pending_since = none;
  last_decision_reason = [];
  last_start_dedupe_key = [];
  last_stop_dedupe_key = [];
  last_action = [];
  last_action_result = [];
  last_action_at = none;
  last_successful_action = [];
  last_successful_action_at = none;
  last_error = [];
  blocked_reason = [];
  consecutive_failures = 0;
  last_decision_at = none;
  last_event_at = none;
  cooldown_until = none;
  decision_cooldown_until = none;
  gps_status = [];
  gps_reason = [];
  gps_node_id = [];
  gps_updated_at = none;
  gps_distance_m = none;
  observed_dropped = 0;
  updated_at = 0;
}

abbrev pub zero_metadata_state : MetadataState
zero_metadata_state = record { updated_at = 0 }

-- `Data{}`
abbrev pub zero_data : Data
zero_data = record {
  schema_version = 0;
  installation = zero_installation_state;
  pairing = zero_pairing_state;
  cloud = zero_cloud_state;
  runtime = zero_runtime_state;
  update = zero_update_state;
  home_auto_session = zero_home_auto_session_state;
  metadata = zero_metadata_state;
}
