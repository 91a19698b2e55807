-- ===== src/Runtime/Coherence.antt =====
-- installation_rotation.go under pairing/manager.go: the rotation keeps the state of the pairing
-- coherent, so it is a rotator as the manager needs it.
use loramapr_receiver.Base.{
  Bool, true, false, not, Option, none, some, Text, trim, is_empty, text_eq, Result, ok, err, arith,
  if◌then◌else◌, installation_missing, rotation_diverged, rotation_stopped,
}
use loramapr_receiver.Outbox.Types.{
  Time, InstallationRotation, intent, old_binding_quarantined, state_rotated, completed,
}
use loramapr_receiver.Outbox.Platform.{Platform}
use loramapr_receiver.Outbox.Store.{Store, update, view}
use loramapr_receiver.Outbox.Rotation.{
  read_rotation, begin_rotation, quarantine_rotation, advance_rotation, phase_eq,
}
use loramapr_receiver.State.Types.{Data}
use loramapr_receiver.State.Store as StateStore
use loramapr_receiver.Pairing.Coherence.{IsCoherent, StoreIsCoherent, update-StoreIsCoherent}
use loramapr_receiver.Runtime.Rotation.{
  RotationMoment, rotate_data, validate_rotated_state, Both, after_outbox, after_state, finish,
  from_rotated, advance_rotated, after_validation, rotate_state, from_quarantined, recover_from,
  new_entry, begin_new, with_new_id, with_journal, rotate_installation,
}

rotate_data-IsCoherent :
    (now : Time) (j : InstallationRotation) (d : Data) → IsCoherent (rotate_data now j d)
unfolding rotate_data
rotate_data-IsCoherent now j d = ground arith

module _ (p : Platform) (q : StateStore.Platform) where
  -- A call leaves the state coherent.
  record Leaves (o : Both p q × Result Text) : Type 0 where
    state : StoreIsCoherent o.0.0

  after_outbox-Leaves :
      {A : Type 0} (s : StateStore.Store) (rest : A → Both p q → Both p q × Result Text)
      (r : Store p × Result A)
      → StoreIsCoherent s
      → ((a : A) (o : Store p) → Leaves (rest a (s, o)))
      → Leaves (after_outbox p q s rest r)
  after_outbox-Leaves s rest (o, err e) c k = record { state = c }
  after_outbox-Leaves s rest (o, ok a) c k = k a o

  after_state-Leaves :
      (o : Store p) (rest : Both p q → Both p q × Result Text)
      (r : StateStore.Store × Result (Unit {0}))
      → StoreIsCoherent r.0
      → ((s : StateStore.Store) → StoreIsCoherent s → Leaves (rest (s, o)))
      → Leaves (after_state p q o rest r)
  after_state-Leaves o rest (s, err e) c k = record { state = c }
  after_state-Leaves o rest (s, ok u) c k = k s c

  stays : (b : Both p q) (r : Result Text) → StoreIsCoherent b.0 → Leaves (b, r)
  stays b r c = record { state = c }

  if-Leaves :
      (b : Bool) (x y : Both p q × Result Text) → Leaves x → Leaves y → Leaves (if b then x else y)
  if-Leaves true x y h k = h
  if-Leaves false x y h k = k

  finish-Leaves :
      (j : InstallationRotation) (b : Both p q) → StoreIsCoherent b.0 → Leaves (finish p q j b)
  unfolding finish
  finish-Leaves j b c =
      if-Leaves (not (phase_eq j.phase completed)) (b, err rotation_stopped)
        (b, ok j.new_installation_id) (stays b (err rotation_stopped) c)
        (stays b (ok j.new_installation_id) c)

  module _ (t : RotationMoment) where
    from_rotated-Leaves :
        (j : InstallationRotation) (b : Both p q)
        → StoreIsCoherent b.0
        → Leaves (from_rotated p q t j b)
    unfolding from_rotated
    from_rotated-Leaves j b c =
        let r = update p b.1 (advance_rotation p t.completed_at state_rotated completed) in
        if-Leaves (phase_eq j.phase state_rotated) (after_outbox p q b.0 (finish p q) r)
          (finish p q j b)
          (after_outbox-Leaves b.0 (finish p q) r c (λ a o. finish-Leaves a (b.0, o) c))
          (finish-Leaves j b c)

    advance_rotated-Leaves : (b : Both p q) → StoreIsCoherent b.0 → Leaves (advance_rotated p q t b)
    unfolding advance_rotated
    advance_rotated-Leaves b c =
        after_outbox-Leaves b.0 (from_rotated p q t)
          (update p b.1 (advance_rotation p t.advanced_at old_binding_quarantined state_rotated)) c
          (λ a o. from_rotated-Leaves a (b.0, o) c)

    after_validation-Leaves :
        (v : Result (Unit {0})) (b : Both p q)
        → StoreIsCoherent b.0
        → Leaves (after_validation p q v (advance_rotated p q t) b)
    after_validation-Leaves (err e) b c = stays b (err e) c
    after_validation-Leaves (ok u) b c = advance_rotated-Leaves b c

    rotate_state-Leaves :
        (j : InstallationRotation) (b : Both p q)
        → StoreIsCoherent b.0
        → Leaves (rotate_state p q t j b)
    unfolding rotate_state
    rotate_state-Leaves j b c =
        let u = StateStore.update q t.stamped_at t.write (rotate_data t.rotated_at j) b.0 in
        let current = b.0.memory.installation.id in
        let validated =
          after_validation p q (validate_rotated_state b.0.memory) (advance_rotated p q t) b in
        if-Leaves (text_eq current j.old_installation_id)
          (after_state p q b.1 (advance_rotated p q t) u)
          (if text_eq current j.new_installation_id then validated else (b, err rotation_diverged))
          (after_state-Leaves b.1 (advance_rotated p q t) u
            (update-StoreIsCoherent q t.stamped_at t.write (rotate_data t.rotated_at j) b.0
              (rotate_data-IsCoherent t.rotated_at j b.0.memory) c)
            (λ s d. advance_rotated-Leaves (s, b.1) d))
          (if-Leaves (text_eq current j.new_installation_id) validated (b, err rotation_diverged)
            (after_validation-Leaves (validate_rotated_state b.0.memory) b c)
            (stays b (err rotation_diverged) c))

    from_quarantined-Leaves :
        (j : InstallationRotation) (b : Both p q)
        → StoreIsCoherent b.0
        → Leaves (from_quarantined p q t j b)
    unfolding from_quarantined
    from_quarantined-Leaves j b c =
        if-Leaves (phase_eq j.phase old_binding_quarantined) (rotate_state p q t j b)
          (from_rotated p q t j b) (rotate_state-Leaves j b c) (from_rotated-Leaves j b c)

    recover_from-Leaves :
        (j : InstallationRotation) (b : Both p q)
        → StoreIsCoherent b.0
        → Leaves (recover_from p q t j b)
    unfolding recover_from
    recover_from-Leaves j b c =
        let r = update p b.1 (quarantine_rotation p b.1.cfg t.quarantined_at) in
        if-Leaves (phase_eq j.phase intent) (after_outbox p q b.0 (from_quarantined p q t) r)
          (from_quarantined p q t j b)
          (after_outbox-Leaves b.0 (from_quarantined p q t) r c
            (λ a o. from_quarantined-Leaves a (b.0, o) c))
          (from_quarantined-Leaves j b c)

    with_new_id-Leaves :
        (reason old_id : Text) (new_id : Result Text) (b : Both p q)
        → StoreIsCoherent b.0
        → Leaves (with_new_id p q t reason old_id new_id b)
    unfolding begin_new
    with_new_id-Leaves reason old_id (err e) b c = stays b (err e) c
    with_new_id-Leaves reason old_id (ok new_id) b c =
        after_outbox-Leaves b.0 (recover_from p q t)
          (update p b.1 (begin_rotation p t.begun_at (new_entry reason old_id new_id))) c
          (λ a o. recover_from-Leaves a (b.0, o) c)

    begin_new-Leaves :
        (reason : Text) (b : Both p q)
        → StoreIsCoherent b.0
        → Leaves (
            if is_empty (trim b.0.memory.installation.id)
            then (b, err installation_missing)
            else with_new_id p q t reason (trim b.0.memory.installation.id) t.new_id b)
    begin_new-Leaves reason b c =
        if-Leaves (is_empty (trim b.0.memory.installation.id)) (b, err installation_missing)
          (with_new_id p q t reason (trim b.0.memory.installation.id) t.new_id b)
          (stays b (err installation_missing) c)
          (with_new_id-Leaves reason (trim b.0.memory.installation.id) t.new_id b c)

    with_journal-Leaves :
        (reason : Text) (stored : Result (Option InstallationRotation)) (b : Both p q)
        → StoreIsCoherent b.0
        → Leaves (with_journal p q t reason stored b)
    with_journal-Leaves reason (err e) b c = stays b (err e) c
    with_journal-Leaves reason (ok none) b c = begin_new-Leaves reason b c
    with_journal-Leaves reason (ok (some j)) b c =
        if-Leaves (phase_eq j.phase completed)
          (if is_empty (trim b.0.memory.installation.id)
            then (b, err installation_missing)
            else with_new_id p q t reason (trim b.0.memory.installation.id) t.new_id b)
          (recover_from p q t j b) (begin_new-Leaves reason b c) (recover_from-Leaves j b c)

    -- From a coherent state, a call of `RotateInstallation`, successful or not, leads to a coherent one,
    -- in memory and in the file.
    pub rotate_installation-IsCoherent :
        (reason : Text) (s : StateStore.Store) (own : Store p)
        → StoreIsCoherent s
        → StoreIsCoherent (rotate_installation p q t reason (s, own)).0.0
    unfolding rotate_installation
    rotate_installation-IsCoherent reason s own c =
        (with_journal-Leaves reason (view p own (read_rotation p)) (s, own) c).state
