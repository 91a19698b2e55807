-- ===== src/State/Tests.antt =====
-- The durable state on concrete inputs.
use loramapr_receiver.Base.{
  false, true, some, ◌∷◌, ◌≡◌, refl, Text, codes, trim, compare_text, Result, ok, arith,
}
use loramapr_receiver.Outbox.Types.{Time}
use loramapr_receiver.State.Types.{
  Data, zero_data, unpaired, zero_installation_state, zero_pairing_state, zero_runtime_state,
  zero_update_state, zero_home_auto_session_state,
}
use loramapr_receiver.State.Store.{
  Platform, Store, WriteOutcome, written, update, set_cloud, save, stamped,
}
use loramapr_receiver.State.Updates.{Updated, next_data, update-Generations}
use loramapr_receiver.State.Generations.{Generations}
use loramapr_receiver.State.Migrate.{
  open_decoded, migrate, upgrade_to_9, ensure_defaults, date_generations, default_home,
  default_config, default_module_state, default_control_state, default_active_state_source,
  default_reconciliation_state, default_config_source, default_config_version,
  default_applied_version, default_apply_result, default_desired_enabled, default_desired_mode,
  default_install_type, default_update_status, install_type_from_profile, is_known_update_status,
  default_identity, default_phase, default_schema,
}
use loramapr_receiver.State.Opening.{IsCurrent, open_decoded_again}

-- A digest that puts a digit before what it digests, and a plain copy.
abbrev pub plain : Platform
plain = record {
  sha256_hex = λ secret. 48 ∷ secret;
  clone = λ d. ok d;
  to_lower = λ c. c;
  sha256_hex_nonempty = λ secret h. cc;
  to_lower_letter = λ c h k. refl;
  clone-eq = λ d d' h. ground (arith, h);
}

abbrev fresh : Store
fresh = record { memory = zero_data; file = zero_data }

abbrev bind : Data → Data
bind = set_cloud (λ c. record c {
  owner_id = codes "owner";
  receiver_id = codes "agent";
  ingest_api_key = codes "secret";
})

update-Generations_example :
    Updated plain (next_data plain 5 bind zero_data) fresh (update plain 5 written bind fresh)
    × Generations plain zero_data (next_data plain 5 bind zero_data)
update-Generations_example =
    update-Generations plain 5 written bind fresh (record { owner = tt; receiver = tt })
      (record { owner = ground arith; receiver = ground arith })
      (record { fingerprint = refl; credential = refl; binding = refl })

abbrev stored : Data
stored = record zero_data {
  schema_version = 10;
  installation = record zero_installation_state {
    id = codes "id";
    created_at = 1;
    last_started_at = 1;
  };
  pairing = record zero_pairing_state { phase = unpaired };
  runtime = record zero_runtime_state { install_type = codes "manual" };
  update = record zero_update_state { status = codes "current" };
  home_auto_session = record zero_home_auto_session_state {
    module_state = codes "disabled";
    control_state = codes "disabled";
    active_state_source = codes "none";
    reconciliation_state = codes "clean_idle";
    effective_config_source = codes "local_fallback";
    effective_config_version = codes "v1";
    last_applied_config_ver = codes "v1";
    last_config_apply_result = codes "local_config_applied";
    desired_config_enabled = some false;
    desired_config_mode = codes "off";
  };
}

abbrev opened : Store
opened = record { memory = stamped 7 stored; file = stamped 7 stored }

opens : open_decoded plain 7 (ok (codes "id")) written true stored ≡ ok opened
unfolding open_decoded migrate upgrade_to_9 date_generations default_module_state
    default_control_state default_active_state_source default_reconciliation_state
    default_config_source default_config_version default_applied_version default_apply_result
    default_desired_enabled default_desired_mode default_config default_home default_install_type
    default_update_status install_type_from_profile is_known_update_status default_identity
    default_phase default_schema ensure_defaults save trim compare_text
opens = refl

open_decoded_again_example :
    IsCurrent plain opened.memory
    × ((now' : Time) (new_id' : Result Text) (w' : WriteOutcome)
        → open_decoded plain now' new_id' w' false opened.memory
          ≡ ok (record { memory = opened.memory; file = opened.memory }))
open_decoded_again_example =
    open_decoded_again plain 7 (ok (codes "id")) written true stored opened (omega arith)
      (λ id h e. cc) opens
