-- ===== src/Pairing/Tests.antt =====
-- The pairing on concrete inputs.
use loramapr_receiver.Base.{
  ℕ, true, false, none, some, List, [], ◌∷◌, ◌≡◌, refl, codes, trim, is_empty, outbox_closed, arith,
}
use loramapr_receiver.State.Types.{Data, zero_data, zero_pairing_state, unpaired, code_entered}
use loramapr_receiver.State.Store.{WriteOutcome, written, not_synced}
use loramapr_receiver.State.Tests.{plain}
use loramapr_receiver.Pairing.Types.{
  Status, BootstrapExchange, ActivationResult, answered, PairingClient, Host, Moment, World,
  Manager,
}
use loramapr_receiver.Pairing.Lifecycle.{credential_revoked}
use loramapr_receiver.Pairing.Process.{process}
use loramapr_receiver.Pairing.Coherence.{StoreIsCoherent}
use loramapr_receiver.Pairing.Calls.{
  Call, submits, changes_lifecycle, resets, processes, perform_all, perform_all-IsCoherent,
}
use loramapr_receiver.Pairing.Diagram.{Moves, process-Moves}
use loramapr_receiver.Pairing.Completion.{Grants, IsCompleted, process-IsCompleted}

abbrev exchange : BootstrapExchange
exchange = record {
  install_session_id = codes "session";
  flow_key = codes "flow";
  activation_token = codes "token";
  activation_expires = 100;
  config_version = [];
  receiver_label = [];
  site_label = [];
  group_label = [];
  activate_endpoint = [];
  heartbeat_endpoint = [];
  ingest_endpoint = [];
}

abbrev activation : ActivationResult
activation = record {
  receiver_agent_id = codes "agent";
  owner_id = codes "owner";
  receiver_label = [];
  site_label = [];
  group_label = [];
  ingest_api_key_id = codes "key";
  ingest_api_key = codes "secret";
  config_version = [];
  ingest_endpoint = [];
  heartbeat_endpoint = [];
  activated_at = 3;
}

-- A cloud that grants everything.
abbrev pub granting : PairingClient
granting = record {
  exchange_pairing_code = λ code. answered exchange;
  activate_receiver = λ path request. answered activation;
}

abbrev pub host : Host
host = record {
  goos = codes "linux";
  goarch = codes "arm64";
  to_lower = λ c. c;
  to_upper = λ c. c;
  duration_text = λ d. [];
}

abbrev pub at_time : ℕ → WriteOutcome → Moment
at_time n w = record { checked_at = n; now = n; failed_at = n; stamped_at = n; write = w }

abbrev manager : Manager (Unit {0})
manager = record {
  client = some granting;
  identity = record {
    label = [];
    runtime_version = codes "1.0.0";
    platform = codes "linux";
    arch = codes "arm64";
    metadata = [];
  };
  rotator = none;
}

abbrev pub blank_status : Status
blank_status = record {
  installation_id = [];
  pairing_phase = unpaired;
  component_state = [];
  component_message = [];
  last_error = [];
}

abbrev entered : Data
entered = record zero_data {
  pairing = record zero_pairing_state { phase = code_entered; pairing_code = codes "ABCD1234" };
}

abbrev world : World (Unit {0})
world = record {
  store = record { memory = entered; file = entered };
  own = tt;
  status = blank_status;
}

world-IsCoherent : StoreIsCoherent world.store
world-IsCoherent = ground arith

abbrev calls : List (Moment × Call)
calls =
    (at_time 1 written, processes (some granting))
    ∷ (at_time 2 (not_synced outbox_closed), processes (some granting))
    ∷ (at_time 3 written, changes_lifecycle credential_revoked [] true)
    ∷ (at_time 4 written, submits (codes "efgh5678"))
    ∷ (at_time 5 written, resets false)
    ∷ []

perform_all-IsCoherent_example : StoreIsCoherent (perform_all plain host manager calls world).store
perform_all-IsCoherent_example =
    perform_all-IsCoherent plain host manager calls world tt world-IsCoherent

process-Moves_example :
    Moves code_entered
      (process plain host manager (at_time 1 written) world).0.store.memory.pairing.phase
process-Moves_example = process-Moves plain host manager (at_time 1 written) world

not_blank : is_empty (trim (codes "ABCD1234")) ≡ false
unfolding trim
not_blank = refl

grants : Grants granting (codes "ABCD1234") exchange activation
unfolding trim
grants = record { exchange = refl; activate = λ path request. refl; token = refl; key = refl }

process-IsCompleted_example :
    IsCompleted activation
      (process plain host manager
        (at_time 3 written)
        (process plain host manager
          (at_time 2 written)
          (process plain host manager (at_time 1 written) world).0).0).0.store.memory
process-IsCompleted_example =
    process-IsCompleted plain host manager granting refl (at_time 1 written) (at_time 2 written)
      (at_time 3 written) world exchange activation refl refl refl refl refl refl refl refl
      not_blank grants (omega arith)
