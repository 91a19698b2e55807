-- ===== src/Pairing/Lifecycle.antt =====
-- manager.go: the submission of a pairing code, the lifecycle changes, and the reset.
use loramapr_receiver.Base.{
  Bool, true, false, ◌&&◌, not, Option, none, some, [], map, Text, codes, trim, is_empty, Result,
  ok, err, ◌>>◌, refuse, ltb, if◌then◌else◌, pairing_code_short, rotation_required,
  lifecycle_change_invalid,
}
use loramapr_receiver.Base.Utf8.{byte_length, cut}
use loramapr_receiver.Outbox.Types.{Time}
use loramapr_receiver.State.Types.{Data, PairingState, unpaired, code_entered}
use loramapr_receiver.State.Store.{Platform, Store, update, set_cloud}
use loramapr_receiver.Pairing.Types.{
  Status, set_installation_id, set_pairing_phase, set_component, set_last_error, Host, Moment,
  World, Manager,
}

-- `LifecycleChange`: the constants, and any other text.
pub data LifecycleChange : Type 0 where
  credential_revoked receiver_disabled receiver_replaced local_reset local_deauthorized :
      LifecycleChange
  other_change : Text → LifecycleChange

unfoldable pub is_lifecycle_change_valid : LifecycleChange → Bool
is_lifecycle_change_valid (other_change t) = false
is_lifecycle_change_valid _ = true

unfoldable pub is_local_lifecycle_change : LifecycleChange → Bool
is_local_lifecycle_change local_reset = true
is_local_lifecycle_change local_deauthorized = true
is_local_lifecycle_change _ = false

abbrev pub change_text : LifecycleChange → Text
change_text credential_revoked = codes "credential_revoked"
change_text receiver_disabled = codes "receiver_disabled"
change_text receiver_replaced = codes "receiver_replaced"
change_text local_reset = codes "local_reset"
change_text local_deauthorized = codes "local_deauthorized"
change_text (other_change t) = t

unfoldable pub lifecycle_default_reason : LifecycleChange → Text
lifecycle_default_reason credential_revoked = codes "receiver credential was revoked by cloud"
lifecycle_default_reason receiver_disabled = codes "receiver is disabled by cloud policy"
lifecycle_default_reason receiver_replaced = codes "receiver was replaced by a newer installation"
lifecycle_default_reason _ = codes "receiver lifecycle changed"

unfoldable pub lifecycle_status : LifecycleChange → Text × Text
lifecycle_status credential_revoked =
    (codes "credential_revoked", codes "receiver credential was revoked; re-pair required")
lifecycle_status receiver_disabled =
    (codes "receiver_disabled", codes "receiver is disabled in cloud; resolve and re-pair")
lifecycle_status receiver_replaced =
    (codes "receiver_replaced", codes "receiver was replaced by another installation")
lifecycle_status local_deauthorized =
    (codes "deauthorized", codes "local credentials cleared; enter a new pairing code")
lifecycle_status local_reset =
    (codes "reset", codes "pairing state reset; enter a new pairing code")
lifecycle_status (other_change t) = (codes "lifecycle_changed", codes "receiver lifecycle changed")

unfoldable pub lifecycle_error : LifecycleChange → Text
lifecycle_error credential_revoked = codes "receiver credential revoked"
lifecycle_error receiver_disabled = codes "receiver disabled by cloud"
lifecycle_error receiver_replaced = codes "receiver replaced by another install"
lifecycle_error _ = codes "receiver lifecycle changed"

-- `change == LifecycleLocalDeauthorized || change == LifecycleReceiverReplaced`
abbrev pub ends_installation : LifecycleChange → Bool
ends_installation local_deauthorized = true
ends_installation receiver_replaced = true
ends_installation _ = false

unfoldable pub sanitize_text : Text → Text
sanitize_text value =
    let trimmed = trim value in if ltb 256 (byte_length trimmed) then cut 256 trimmed else trimmed

abbrev pub set_pairing : (PairingState → PairingState) → Data → Data
set_pairing f d = record d { pairing = f d.pairing }

abbrev pub enter_code : Time → Text → Data → Data
enter_code now code = set_pairing (λ s. record s {
  phase = code_entered;
  pairing_code = code;
  install_session_id = [];
  flow_key = [];
  activation_token = [];
  activation_expires = none;
  retry_count = 0;
  next_retry_at = none;
  last_attempt_at = none;
  last_error = [];
  updated_at = now;
  last_change = codes "pairing_code_entered";
})

abbrev pub clear_pairing : Time → LifecycleChange → Text → Data → Data
clear_pairing now change reason = set_pairing (λ s. record s {
  phase = unpaired;
  pairing_code = [];
  install_session_id = [];
  flow_key = [];
  activation_token = [];
  activation_expires = none;
  retry_count = 0;
  next_retry_at = none;
  last_attempt_at = some now;
  last_error = if is_local_lifecycle_change change then [] else reason;
  updated_at = now;
  last_change = change_text change;
})

abbrev pub clear_cloud : Time → Data → Data
clear_cloud now = set_cloud (λ c. record c {
  owner_id = [];
  receiver_id = [];
  receiver_label = [];
  site_label = [];
  group_label = [];
  ingest_api_key_id = [];
  ingest_api_key = [];
  credential_ref = [];
  clock_samples = [];
  updated_at = now;
})

abbrev pub apply_change : Time → LifecycleChange → Text → Bool → Data → Data
apply_change now change reason clear_durable d =
    let cleared = clear_pairing now change reason d in
    if clear_durable then clear_cloud now cleared else cleared

unfoldable pub normalize_pairing_code : Host → Text → Result Text
normalize_pairing_code host value = do
  let trimmed = map host.to_upper (trim value)
  refuse (ltb (byte_length trimmed) 8) pairing_code_short
  ok trimmed

abbrev pub show_code_entered : Status → Status
show_code_entered s = set_last_error [] (
    set_component (codes "pairing_code_entered") (codes "pairing code accepted")
      (set_pairing_phase code_entered s))

abbrev pub show_change : LifecycleChange → Status → Status
show_change change s =
    let (state, message) = lifecycle_status change in
    set_last_error (if is_local_lifecycle_change change then [] else lifecycle_error change)
      (set_component state message (set_pairing_phase unpaired s))

abbrev pub change_reason : LifecycleChange → Text → Text
change_reason change detail =
    let reason = sanitize_text detail in
    if not (is_local_lifecycle_change change) && is_empty reason
    then lifecycle_default_reason change
    else reason

-- What follows a call of `Update` on the status, if it succeeds.
abbrev pub show_result :
    {R : Type 0}
    → (Status → Status)
    → World R
    → Store × Result (Unit {0})
    → World R × Result (Unit {0})
show_result show w (s, ok u) = (record w { store = s; status = show w.status }, ok tt)
show_result show w (s, err e) = (record w { store = s }, err e)

-- What follows a call of the rotator.
abbrev pub after_rotation :
    {R : Type 0}
    → World R
    → (World R → World R × Result (Unit {0}))
    → (Store × R) × Result Text
    → World R × Result (Unit {0})
after_rotation w rest ((s, own), err e) = (record w { store = s; own = own }, err e)
after_rotation w rest ((s, own), ok id) =
    rest (record w { store = s; own = own; status = set_installation_id id w.status })

abbrev pub Rotate : Type 0 → Type 0
Rotate R = Text → Store × R → (Store × R) × Result Text

abbrev pub rotate_with :
    {R : Type 0}
    → Option (Rotate R)
    → Text
    → World R
    → (World R → World R × Result (Unit {0}))
    → World R × Result (Unit {0})
rotate_with none reason w rest = (w, err rotation_required)
rotate_with (some rotate) reason w rest = after_rotation w rest (rotate reason (w.store, w.own))

-- The rotation of the installation, if it is needed, and then `rest`.
abbrev pub rotate_if :
    {R : Type 0}
    → Bool
    → Option (Rotate R)
    → Text
    → World R
    → (World R → World R × Result (Unit {0}))
    → World R × Result (Unit {0})
rotate_if false rotator reason w rest = rest w
rotate_if true rotator reason w rest = rotate_with rotator reason w rest

module _ (p : Platform) {R : Type 0} where
  abbrev pub update_then :
      Moment → (Data → Data) → (Status → Status) → World R → World R × Result (Unit {0})
  update_then t fn show w = show_result show w (update p t.stamped_at t.write fn w.store)

  -- The submission of a code that is normalized, or refused.
  abbrev pub submit_normalized :
      Manager R → Moment → Result Text → World R → World R × Result (Unit {0})
  submit_normalized m t (err e) w = (w, err e)
  submit_normalized m t (ok code) w =
      rotate_if w.store.memory.installation.bound m.rotator (codes "re_pair") w
        (update_then t (enter_code t.now code) show_code_entered)

  unfoldable pub submit_pairing_code :
      Host → Manager R → Moment → Text → World R → World R × Result (Unit {0})
  unfolding normalize_pairing_code
  submit_pairing_code host m t code w = submit_normalized m t (normalize_pairing_code host code) w

  unfoldable pub apply_lifecycle_change :
      Manager R → Moment → LifecycleChange → Text → Bool → World R → World R × Result (Unit {0})
  apply_lifecycle_change m t change detail clear_durable w =
      if not (is_lifecycle_change_valid change)
      then (w, err lifecycle_change_invalid)
      else rotate_if (w.store.memory.installation.bound && ends_installation change) m.rotator
          (change_text change) w
          (update_then t (apply_change t.now change (change_reason change detail) clear_durable)
            (show_change change))

  unfoldable pub reset_pairing : Manager R → Moment → Bool → World R → World R × Result (Unit {0})
  unfolding apply_lifecycle_change
  reset_pairing m t deauthorize w =
      if deauthorize
      then apply_lifecycle_change m t local_deauthorized
          (codes "local receiver deauthorization requested") true w
      else apply_lifecycle_change m t local_reset [] false w
