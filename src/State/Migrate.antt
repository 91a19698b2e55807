-- ===== src/State/Migrate.antt =====
-- internal/state/state.go: the defaults, the migration from older schemas, and `Open` on a file that
-- decodes.
use loramapr_receiver.Base.{
  ℕ, ◌-◌, Bool, true, false, ◌&&◌, ◌||◌, not, some, List, [], Text, codes, trim, map, is_empty,
  text_eq, Result, ok, err, ◌>>=◌, leb, ltb, ◌==◌, length, drop, newer_schema, suc, if◌then◌else◌,
}
use loramapr_receiver.Outbox.Types.{Time}
use loramapr_receiver.Outbox.Store.{is_some}
use loramapr_receiver.State.Types.{
  Data, PairingPhase, unset, unpaired, code_entered, bootstrap_exchanged, activated, steady_state,
  paired, ready, pairing, HomeAutoSessionState,
}
use loramapr_receiver.State.Store.{
  Platform, Store, WriteOutcome, save, credential_fingerprint, set_cloud,
}

-- `CurrentSchemaVersion`
abbrev pub current_schema_version : ℕ
current_schema_version = 10

unfoldable pub is_valid_phase : PairingPhase → Bool
is_valid_phase unpaired = true
is_valid_phase code_entered = true
is_valid_phase bootstrap_exchanged = true
is_valid_phase activated = true
is_valid_phase steady_state = true
is_valid_phase _ = false

abbrev pub is_blank : Text → Bool
is_blank t = is_empty (trim t)

-- `if test { set; changed = true }`
abbrev pub set_when : (Data → Bool) → (Data → Data) → Data × Bool → Data × Bool
set_when test set (d, changed) = if test d then (set d, true) else (d, changed)

abbrev pub set_home : (HomeAutoSessionState → HomeAutoSessionState) → Data → Data
set_home f d = record d { home_auto_session = f d.home_auto_session }

-- The defaults of the home session module, each where its field is blank.
unfoldable pub default_module_state : Data × Bool → Data × Bool
default_module_state =
    set_when (λ d. is_blank d.home_auto_session.module_state)
      (set_home (λ h. record h { module_state = codes "disabled" }))

unfoldable pub default_control_state : Data × Bool → Data × Bool
default_control_state =
    set_when (λ d. is_blank d.home_auto_session.control_state)
      (set_home (λ h. record h { control_state = codes "disabled" }))

unfoldable pub default_active_state_source : Data × Bool → Data × Bool
default_active_state_source =
    set_when (λ d. is_blank d.home_auto_session.active_state_source)
      (set_home (λ h. record h { active_state_source = codes "none" }))

unfoldable pub default_reconciliation_state : Data × Bool → Data × Bool
default_reconciliation_state =
    set_when (λ d. is_blank d.home_auto_session.reconciliation_state)
      (set_home (λ h. record h { reconciliation_state = codes "clean_idle" }))

unfoldable pub default_config_source : Data × Bool → Data × Bool
default_config_source =
    set_when (λ d. is_blank d.home_auto_session.effective_config_source)
      (set_home (λ h. record h { effective_config_source = codes "local_fallback" }))

unfoldable pub default_config_version : Data × Bool → Data × Bool
default_config_version =
    set_when (λ d. is_blank d.home_auto_session.effective_config_version)
      (set_home (λ h. record h { effective_config_version = codes "local-default" }))

unfoldable pub default_applied_version : Data × Bool → Data × Bool
default_applied_version =
    set_when (λ d. is_blank d.home_auto_session.last_applied_config_ver)
      (set_home (λ h. record h { last_applied_config_ver = h.effective_config_version }))

unfoldable pub default_apply_result : Data × Bool → Data × Bool
default_apply_result =
    set_when (λ d. is_blank d.home_auto_session.last_config_apply_result)
      (set_home (λ h. record h { last_config_apply_result = codes "local_config_applied" }))

unfoldable pub default_desired_enabled : Data × Bool → Data × Bool
default_desired_enabled =
    set_when (λ d. not (is_some d.home_auto_session.desired_config_enabled))
      (set_home (λ h. record h { desired_config_enabled = some false }))

unfoldable pub default_desired_mode : Data × Bool → Data × Bool
default_desired_mode =
    set_when (λ d. is_blank d.home_auto_session.desired_config_mode)
      (set_home (λ h. record h { desired_config_mode = codes "off" }))

-- The six fields that schema 7 added.
unfoldable pub default_config : Data × Bool → Data × Bool
default_config s = default_desired_mode (
    default_desired_enabled (
      default_apply_result
        (default_applied_version (default_config_version (default_config_source s)))))

unfoldable pub default_home : Data × Bool → Data × Bool
unfolding default_config
default_home s = default_config (
    default_reconciliation_state
      (default_active_state_source (default_control_state (default_module_state s))))

-- `if version <= n { ...; version = n + 1; changed = true }`
abbrev pub upgrade : ℕ → (Data → Data) → ℕ × Data × Bool → ℕ × Data × Bool
upgrade n change (version, d, changed) =
    if leb version n then (suc n, change d, true) else (version, d, changed)

abbrev pub is_unset : PairingPhase → Bool
is_unset unset = true
is_unset _ = false

abbrev pub upgraded_phase : PairingPhase → PairingPhase
upgraded_phase paired = steady_state
upgraded_phase ready = steady_state
upgraded_phase pairing = code_entered
upgraded_phase unset = unset
upgraded_phase phase = if is_valid_phase phase then phase else unpaired

abbrev pub upgrade_phase : Data → Data
upgrade_phase d = record d { pairing = record d.pairing { phase = upgraded_phase d.pairing.phase } }

-- Only the last two samples stay.
abbrev pub last_samples {ℓ} : {A : Type ℓ} → List A → List A
last_samples xs = if ltb 2 (length xs) then drop (length xs - 2) xs else xs

abbrev pub keep_last_samples : Data → Data
keep_last_samples = set_cloud (λ c. record c { clock_samples = last_samples c.clock_samples })

abbrev pub is_bound : Data → Bool
is_bound d = not (is_empty d.cloud.owner_id) && not (is_empty d.cloud.receiver_id)

abbrev pub bind_installation : Data → Data
bind_installation d =
    if is_bound d then record d { installation = record d.installation { bound = true } } else d

-- A later file is refused. `SchemaVersion` is set in place, and counts as a change if it differs.
abbrev pub finish_migration : ℕ × Data × Bool → Result (Data × Bool)
finish_migration (version, d, changed) =
    if ltb current_schema_version version
    then err newer_schema
    else if d.schema_version == version
    then ok (d, changed)
    else ok (record d { schema_version = version }, true)

module _ (p : Platform) where
  open p use {to_lower}

  unfoldable pub install_type_from_profile : Text → Text
  install_type_from_profile profile =
      let name = map to_lower (trim profile) in
      if text_eq name (codes "appliance-pi")
      then codes "pi-appliance"
      else if text_eq name (codes "linux-service")
      then codes "linux-package"
      else if text_eq name (codes "windows-user")
      then codes "windows-user"
      else codes "manual"

  unfoldable pub is_known_update_status : Text → Bool
  is_known_update_status status =
      let name = map to_lower (trim status) in
      text_eq name (codes "unknown")
      || text_eq name (codes "disabled")
      || text_eq name (codes "current")
      || text_eq name (codes "outdated")
      || text_eq name (codes "channel_mismatch")
      || text_eq name (codes "unsupported")
      || text_eq name (codes "ahead")

  unfoldable pub default_install_type : Data × Bool → Data × Bool
  unfolding install_type_from_profile
  default_install_type =
      set_when (λ d. is_empty d.runtime.install_type)
        (λ d. record d {
          runtime = record d.runtime { install_type = install_type_from_profile d.runtime.profile };
        })

  unfoldable pub default_update_status : Data × Bool → Data × Bool
  default_update_status =
      set_when (λ d. not (is_known_update_status d.update.status))
        (λ d. record d { update = record d.update { status = codes "unknown" } })

  unfoldable pub date_generations : Data → Data
  date_generations d =
      let c = d.cloud in
      let c1 = if is_empty c.ingest_api_key then c else record c {
        credential_fingerprint = credential_fingerprint p c.ingest_api_key;
        credential_generation = if c.credential_generation == 0 then 1 else c.credential_generation;
      } in
      record d {
        cloud =
            if is_bound d && (c.binding_generation == 0)
            then record c1 { binding_generation = 1 }
            else c1;
      }

  -- The upgrades to schema 9, in the order of the schemas.
  unfoldable pub upgrade_to_9 : ℕ × Data × Bool → ℕ × Data × Bool
  upgrade_to_9 s = upgrade 8 bind_installation (
      upgrade 7 date_generations (
        upgrade 6 (λ d. (default_config (d, true)).0)
          (upgrade 5 (λ d. (default_active_state_source (default_control_state (d, true))).0)
            (upgrade 4 (λ d. (default_reconciliation_state (d, true)).0)
              (upgrade 3 (λ d. (default_module_state (d, true)).0)
                (upgrade 2 (λ d. (default_update_status (default_install_type (d, true))).0)
                  (upgrade 1 upgrade_phase s)))))))

  abbrev pub first_version : Data → ℕ × Data × Bool
  first_version d = if d.schema_version == 0 then (1, d, true) else (d.schema_version, d, false)

  unfoldable pub migrate : Data → Result (Data × Bool)
  unfolding upgrade_to_9
  migrate d = finish_migration (upgrade 9 keep_last_samples (upgrade_to_9 (first_version d)))

  -- `id` is what `newInstallID` gives.
  unfoldable pub default_identity : Time → Text → Data × Bool → Data × Bool
  default_identity now id s =
      set_when (λ d. d.installation.last_started_at == 0)
        (λ d. record d { installation = record d.installation { last_started_at = now } })
        (set_when (λ d. d.installation.created_at == 0)
          (λ d. record d { installation = record d.installation { created_at = now } })
          (set_when (λ d. is_empty d.installation.id)
            (λ d. record d { installation = record d.installation { id = id } }) s))

  unfoldable pub default_phase : Data × Bool → Data × Bool
  default_phase =
      set_when (λ d. is_unset d.pairing.phase)
        (λ d. record d { pairing = record d.pairing { phase = unpaired } })

  unfoldable pub default_schema : Data × Bool → Data × Bool
  default_schema =
      set_when (λ d. d.schema_version == 0)
        (λ d. record d { schema_version = current_schema_version })

  unfoldable pub ensure_defaults : Time → Result Text → Data → Result (Data × Bool)
  unfolding default_identity default_phase default_schema
  ensure_defaults now new_id d = do
    id ← if is_empty d.installation.id then new_id else ok []
    ok (
        default_home (
          default_update_status (
            default_install_type
              (default_phase (default_identity now id (default_schema (d, false)))))))

  -- `Save` as the last step of `Open`, which fails if it fails.
  abbrev pub saved_store : Store × Result (Unit {0}) → Result Store
  saved_store (s, err e) = err e
  saved_store (s, ok u) = ok s

  -- `Open` on a file that decodes to `d`, after a repair or not; the outcome of a write is `w`.
  unfoldable pub open_decoded : Time → Result Text → WriteOutcome → Bool → Data → Result Store
  open_decoded now new_id w recovered d = do
    (migrated_data, migrated) ← migrate d
    (defaulted, changed) ← ensure_defaults now new_id migrated_data
    let s : Store = record { memory = defaulted; file = d }
    if changed || migrated || recovered then saved_store (save p now w s) else ok s
