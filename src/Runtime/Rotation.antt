-- ===== src/Runtime/Rotation.antt =====
-- internal/runtime/installation_rotation.go: the rotation of the installation's identity, over the
-- state and the outbox. The engine hands the calls on the journal to its store.
use loramapr_receiver.Base.{
  false, ◌||◌, not, Option, none, some, [], Text, trim, is_empty, text_eq, Result, ok, err, ◌>>◌,
  refuse, length, ◌==◌, if◌then◌else◌, installation_missing, rotation_diverged, rotated_state_bound,
  rotation_stopped,
}
use loramapr_receiver.Outbox.Types.{
  Time, InstallationRotation, intent, old_binding_quarantined, state_rotated, completed,
}
use loramapr_receiver.Outbox.Platform.{Platform}
use loramapr_receiver.Outbox.Store.{Store, update, view}
use loramapr_receiver.Outbox.Rotation.{
  read_rotation, begin_rotation, quarantine_rotation, advance_rotation, phase_eq,
}
use loramapr_receiver.State.Types.{Data, unpaired}
use loramapr_receiver.State.Store as StateStore

-- The readings of the clocks, the identifier that `newID` gives, and how the write of the state ends.
pub record RotationMoment : Type 0 where
  pub begun_at : Time
  pub quarantined_at : Time
  pub rotated_at : Time
  pub stamped_at : Time
  pub advanced_at : Time
  pub completed_at : Time
  pub new_id : Result Text
  pub write : StateStore.WriteOutcome

-- The update of the state, from the journal.
unfoldable pub rotate_data : Time → InstallationRotation → Data → Data
rotate_data now j d = record d {
  installation = record d.installation {
    id = j.new_installation_id;
    bound = false;
    created_at = j.started_at;
  };
  pairing = record d.pairing {
    phase = unpaired;
    pairing_code = [];
    install_session_id = [];
    flow_key = [];
    activation_token = [];
    activation_expires = none;
    retry_count = 0;
    next_retry_at = none;
  };
  cloud = record d.cloud {
    owner_id = [];
    receiver_id = [];
    receiver_label = [];
    site_label = [];
    group_label = [];
    ingest_api_key_id = [];
    ingest_api_key = [];
    credential_ref = [];
    clock_samples = [];
    updated_at = now;
  };
}

unfoldable pub validate_rotated_state : Data → Result (Unit {0})
validate_rotated_state d = do
  refuse
      (d.installation.bound
        || not (is_empty (trim d.cloud.owner_id))
        || not (is_empty (trim d.cloud.receiver_id))
        || not (is_empty (trim d.cloud.ingest_api_key)))
      rotated_state_bound
  refuse (not (length d.cloud.clock_samples == 0)) rotated_state_bound

-- The entry that `RotateInstallation` begins; the other fields are set by the store.
abbrev pub new_entry : Text → Text → Text → InstallationRotation
new_entry reason old_id new_id = record {
  old_installation_id = old_id;
  new_installation_id = new_id;
  reason = trim reason;
  phase = intent;
  started_at = 0;
  updated_at = 0;
  quarantined = 0;
}

module _ (p : Platform) (q : StateStore.Platform) where
  -- The state and the outbox.
  abbrev pub Both : Type 0
  Both = StateStore.Store × Store p

  -- What follows a call on the outbox, and on the state.
  abbrev pub after_outbox :
      {A B : Type 0}
      → StateStore.Store
      → (A → Both → Both × Result B)
      → Store p × Result A
      → Both × Result B
  after_outbox s rest (o, err e) = ((s, o), err e)
  after_outbox s rest (o, ok a) = rest a (s, o)

  abbrev pub after_state :
      {B : Type 0}
      → Store p
      → (Both → Both × Result B)
      → StateStore.Store × Result (Unit {0})
      → Both × Result B
  after_state o rest (s, err e) = ((s, o), err e)
  after_state o rest (s, ok u) = rest (s, o)

  unfoldable pub finish : InstallationRotation → Both → Both × Result Text
  finish j b =
      if not (phase_eq j.phase completed)
      then (b, err rotation_stopped)
      else (b, ok j.new_installation_id)

  -- From the second advance on.
  unfoldable pub from_rotated : RotationMoment → InstallationRotation → Both → Both × Result Text
  unfolding finish
  from_rotated t j b =
      if phase_eq j.phase state_rotated
      then after_outbox b.0 finish
          (update p b.1 (advance_rotation p t.completed_at state_rotated completed))
      else finish j b

  -- The first advance.
  unfoldable pub advance_rotated : RotationMoment → Both → Both × Result Text
  unfolding from_rotated
  advance_rotated t b =
      after_outbox b.0 (from_rotated t)
        (update p b.1 (advance_rotation p t.advanced_at old_binding_quarantined state_rotated))

  -- `if err := validateRotatedState(current); err != nil { return err }`
  abbrev pub after_validation :
      Result (Unit {0}) → (Both → Both × Result Text) → Both → Both × Result Text
  after_validation (err e) rest b = (b, err e)
  after_validation (ok u) rest b = rest b

  -- The switch on the identity in the state.
  unfoldable pub rotate_state : RotationMoment → InstallationRotation → Both → Both × Result Text
  unfolding advance_rotated
  rotate_state t j b =
      let current = b.0.memory in
      if text_eq current.installation.id j.old_installation_id
      then after_state b.1 (advance_rotated t)
          (StateStore.update q t.stamped_at t.write (rotate_data t.rotated_at j) b.0)
      else if text_eq current.installation.id j.new_installation_id
      then after_validation (validate_rotated_state current) (advance_rotated t) b
      else (b, err rotation_diverged)

  unfoldable pub from_quarantined :
      RotationMoment → InstallationRotation → Both → Both × Result Text
  unfolding rotate_state from_rotated
  from_quarantined t j b =
      if phase_eq j.phase old_binding_quarantined then rotate_state t j b else from_rotated t j b

  -- `recover`
  unfoldable pub recover_from : RotationMoment → InstallationRotation → Both → Both × Result Text
  unfolding from_quarantined
  recover_from t j b =
      if phase_eq j.phase intent
      then after_outbox b.0 (from_quarantined t)
          (update p b.1 (quarantine_rotation p b.1.cfg t.quarantined_at))
      else from_quarantined t j b

  -- A new rotation from the identity in the state to a new one.
  unfoldable pub begin_new : RotationMoment → Text → Text → Text → Both → Both × Result Text
  unfolding recover_from
  begin_new t reason old_id new_id b =
      after_outbox b.0 (recover_from t)
        (update p b.1 (begin_rotation p t.begun_at (new_entry reason old_id new_id)))

  abbrev pub with_new_id : RotationMoment → Text → Text → Result Text → Both → Both × Result Text
  with_new_id t reason old_id (err e) b = (b, err e)
  with_new_id t reason old_id (ok new_id) b = begin_new t reason old_id new_id b

  -- With the journal that was read.
  abbrev pub with_journal :
      RotationMoment → Text → Result (Option InstallationRotation) → Both → Both × Result Text
  with_journal t reason (err e) b = (b, err e)
  with_journal t reason (ok none) b =
      if is_empty (trim b.0.memory.installation.id)
      then (b, err installation_missing)
      else with_new_id t reason (trim b.0.memory.installation.id) t.new_id b
  with_journal t reason (ok (some j)) b =
      if phase_eq j.phase completed
      then if is_empty (trim b.0.memory.installation.id)
        then (b, err installation_missing)
        else with_new_id t reason (trim b.0.memory.installation.id) t.new_id b
      else recover_from t j b

  -- `RotateInstallation`
  unfoldable pub rotate_installation : RotationMoment → Text → Both → Both × Result Text
  unfolding begin_new recover_from
  rotate_installation t reason b = with_journal t reason (view p b.1 (read_rotation p)) b

  -- `Recover`, which answers the empty text without a journal.
  abbrev pub recover_journal :
      RotationMoment → Result (Option InstallationRotation) → Both → Both × Result Text
  recover_journal t (err e) b = (b, err e)
  recover_journal t (ok none) b = (b, ok [])
  recover_journal t (ok (some j)) b =
      if phase_eq j.phase completed
      then if not (text_eq b.0.memory.installation.id j.new_installation_id)
        then (b, err rotation_diverged)
        else (b, ok j.new_installation_id)
      else recover_from t j b

  unfoldable pub recover : RotationMoment → Both → Both × Result Text
  unfolding recover_from
  recover t b = recover_journal t (view p b.1 (read_rotation p)) b
