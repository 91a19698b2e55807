-- ===== src/Runtime/Rotated.antt =====
-- installation_rotation.go: what a rotation that succeeds has done.
use loramapr_receiver.Base.{
  ◌⊎◌, inl, inr, false, Option, none, some, ◌≡◌, ◌≢◌, refl, subst, ◌∙◌, Text, trim, is_empty,
  Result, ok, err, arith, if◌then◌else◌, installation_missing,
}
use loramapr_receiver.Outbox.Types.{
  InstallationRotation, InstallationRotationPhase, intent, old_binding_quarantined, state_rotated,
  completed,
}
use loramapr_receiver.Outbox.Platform.{Platform}
use loramapr_receiver.Outbox.Db.{Db}
use loramapr_receiver.Outbox.Store.{update, view}
use loramapr_receiver.Outbox.Rotation.{read_rotation, begin_rotation, quarantine_rotation, phase_eq}
use loramapr_receiver.Outbox.Journals.{
  Reads, SameRotation, quarantine_rotation-Advanced, view-Reads, begin_rotation-Reads, Emptied,
  begin_rotation_new, IsIdle, IsIdle-none, IsIdle-some,
}
use loramapr_receiver.Outbox.Validity.{IsValid}
use loramapr_receiver.Outbox.Operations.{perform, begins_rotation}
use loramapr_receiver.Outbox.Operations.Validity.{StoreIsValid, perform-StoreIsValid}
use loramapr_receiver.State.Types.{Data}
use loramapr_receiver.State.Store as StateStore
use loramapr_receiver.Runtime.Rotation.{
  RotationMoment, Both, after_outbox, from_quarantined, recover_from, new_entry, begin_new,
  with_new_id, with_journal, rotate_installation,
}
use loramapr_receiver.Runtime.Completed.{
  IsRotated, Completes, Renamed, after_outbox-eq-ok, if-eq, from_quarantined-IsRotated,
}

early_phase :
    (n : InstallationRotationPhase)
    → phase_eq n completed ≡ false
    → n ≢ state_rotated
    → (n ≡ intent) ⊎ (n ≡ old_binding_quarantined)
early_phase intent h k = inl refl
early_phase old_binding_quarantined h k = inr refl
early_phase state_rotated h k = absurd (k refl)
early_phase completed h k = absurd (ground (arith, h))

module _ (p : Platform) (q : StateStore.Platform) where
  -- What a rotation of a standing journal has done.
  pub record Rotated (j : InstallationRotation) (before : Data) (b : Both p q) (id : Text)
      : Type 0 where
    pub rotated : IsRotated id b.0.memory
    pub db : Db p
    pub completes : Completes p q db id b.1
    pub emptied : j.phase ≡ intent → Emptied p j.old_installation_id completes.reads.db
    pub renamed : Renamed p q j before id

  Emptied-onto :
      (old_id : Text) (db db' : Db p)
      → db'.deliveries ≡ db.deliveries
      → Emptied p old_id db
      → Emptied p old_id db'
  Emptied-onto old_id db db' e empty k d held = empty k d (record {
    raw = held.raw;
    stored = subst (λ x. p.get x k ≡ some held.raw) e held.stored;
    decoded = held.decoded;
  })

  kept_from_old :
      (t : RotationMoment) (j j' : InstallationRotation) (b b' : Both p q) (id : Text)
      → (r : Reads p b.1 j') → SameRotation p j j'
      → Emptied p j.old_installation_id r.db
      → j'.phase ≡ old_binding_quarantined
      → from_quarantined p q t j' b ≡ (b', ok id)
      → Rotated j b.0.memory b' id
  kept_from_old t j j' b b' id r same empty e h =
      let (rotated, c, n) = from_quarantined-IsRotated p q t j' b b' id r e h in
      record {
        rotated = rotated;
        db = r.db;
        completes = c;
        emptied = λ i. Emptied-onto j.old_installation_id r.db c.reads.db c.queue empty;
        renamed = record {
          new_id = n.new_id ∙ same.new_id;
          old_id = λ bound. n.old_id bound ∙ same.old_id;
        };
      }

  recover_from-Rotated :
      (t : RotationMoment) (j : InstallationRotation) (b b' : Both p q) (id : Text)
      → (r : Reads p b.1 j) → IsValid p r.db
      → (j.phase ≡ intent) ⊎ (j.phase ≡ old_binding_quarantined)
      → recover_from p q t j b ≡ (b', ok id)
      → Rotated j b.0.memory b' id
  unfolding recover_from
  recover_from-Rotated t j b b' id r v (inl e) h =
      let r1 = update p b.1 (quarantine_rotation p b.1.cfg t.quarantined_at) in
      let x : after_outbox p q b.0 (from_quarantined p q t) r1 ≡ (b', ok id) =
        ground (arith, e, h) in
      let (j', f, last) = after_outbox-eq-ok p q b.0 (from_quarantined p q t) r1 b' id x in
      let (r', same, phase, empty) =
        quarantine_rotation-Advanced p b.1.cfg t.quarantined_at j j' b.1 r1.0 r v
          (ground (arith, e)) f in
      kept_from_old t j j' (b.0, r1.0) b' id r' same empty phase last
  recover_from-Rotated t j b b' id r v (inr e) h =
      let (rotated, c, n) = from_quarantined-IsRotated p q t j b b' id r e (ground (arith, e, h)) in
      record {
        rotated = rotated;
        db = r.db;
        completes = c;
        emptied = λ i. absurd (ground (arith, e, i));
        renamed = n;
      }

  -- The journal of the rotation: the one that stood, or a new one from the identity in the state.
  pub Began : Both p q → InstallationRotation → Type 0
  Began b j =
      (view p b.1 (read_rotation p) ≡ ok (some j))
      ⊎ ((j.phase ≡ intent)
          × (j.old_installation_id ≡ trim (trim b.0.memory.installation.id))
          × (j.new_installation_id ≢ j.old_installation_id))

  -- If the identities of a standing rotation differ, so do those of the rotation.
  pub Began-differs :
      (b : Both p q) (j : InstallationRotation)
      → ((i : InstallationRotation)
          → view p b.1 (read_rotation p) ≡ ok (some i)
          → i.new_installation_id ≢ i.old_installation_id)
      → Began b j
      → j.new_installation_id ≢ j.old_installation_id
  unfolding Began
  Began-differs b j n (inl v) = n j v
  Began-differs b j n (inr (phase, old, other)) = other

  begin_new-Rotated :
      (t : RotationMoment) (reason old_id new_id : Text) (stored : Option InstallationRotation)
      (b b' : Both p q) (id : Text)
      → StoreIsValid p b.1
      → view p b.1 (read_rotation p) ≡ ok stored
      → IsIdle p stored
      → begin_new p q t reason old_id new_id b ≡ (b', ok id)
      → (j : InstallationRotation) × Rotated j b.0.memory b' id
        × (j.phase ≡ intent)
        × (j.old_installation_id ≡ trim old_id)
        × (j.new_installation_id ≢ j.old_installation_id)
  unfolding begin_new perform
  begin_new-Rotated t reason old_id new_id stored b b' id valid v idle h =
      let entry = new_entry reason old_id new_id in
      let r1 = update p b.1 (begin_rotation p t.begun_at entry) in
      let (j, f, last) = after_outbox-eq-ok p q b.0 (recover_from p q t) r1 b' id h in
      let r = begin_rotation-Reads p t.begun_at entry j b.1 r1.0 f in
      let (phase, old, other) = begin_rotation_new p t.begun_at entry j stored b.1 r1.0 v idle f in
      let valid' : StoreIsValid p r1.0 =
        perform-StoreIsValid p (begins_rotation t.begun_at entry) b.1 valid in
      (
        j,
        recover_from-Rotated t j (b.0, r1.0) b' id r (valid' r.db r.opened) (inl phase) last,
        phase,
        old,
        other,
      )

  with_new_id-Rotated :
      (t : RotationMoment) (reason : Text) (new_id : Result Text)
      (stored : Option InstallationRotation) (b b' : Both p q) (id : Text)
      → StoreIsValid p b.1
      → view p b.1 (read_rotation p) ≡ ok stored
      → IsIdle p stored
      → with_new_id p q t reason (trim b.0.memory.installation.id) new_id b ≡ (b', ok id)
      → (j : InstallationRotation) × Rotated j b.0.memory b' id × Began b j
  unfolding Began
  with_new_id-Rotated t reason (err e) stored b b' id valid v idle h = absurd (ground (arith, h))
  with_new_id-Rotated t reason (ok new_id) stored b b' id valid v idle h =
      let (j, r, phase, old, other) =
        begin_new-Rotated t reason (trim b.0.memory.installation.id) new_id stored b b' id valid v
          idle h in
      (j, r, inr (phase, old, other))

  begin_if-Rotated :
      (t : RotationMoment) (reason : Text) (stored : Option InstallationRotation) (b b' : Both p q)
      (id : Text)
      → StoreIsValid p b.1
      → view p b.1 (read_rotation p) ≡ ok stored
      → IsIdle p stored
      → (if is_empty (trim b.0.memory.installation.id)
          then (b, err installation_missing)
          else with_new_id p q t reason (trim b.0.memory.installation.id) t.new_id b)
        ≡ (b', ok id)
      → (j : InstallationRotation) × Rotated j b.0.memory b' id × Began b j
  begin_if-Rotated t reason stored b b' id valid v idle h =
      elim (if-eq p q (is_empty (trim b.0.memory.installation.id)) (b, err installation_missing)
        (with_new_id p q t reason (trim b.0.memory.installation.id) t.new_id b) (b', ok id) h) [
          | inl (e, x) ↦ absurd (ground (arith, x))
          | inr (e, x) ↦ with_new_id-Rotated t reason t.new_id stored b b' id valid v idle x
        ]

  with_journal-Rotated :
      (t : RotationMoment) (reason : Text) (stored : Result (Option InstallationRotation))
      (b b' : Both p q) (id : Text)
      → StoreIsValid p b.1
      → view p b.1 (read_rotation p) ≡ stored
      → ((j : InstallationRotation) → stored ≡ ok (some j) → j.phase ≢ state_rotated)
      → with_journal p q t reason stored b ≡ (b', ok id)
      → (j : InstallationRotation) × Rotated j b.0.memory b' id × Began b j
  unfolding Began
  with_journal-Rotated t reason (err e) b b' id valid v n h = absurd (ground (arith, h))
  with_journal-Rotated t reason (ok none) b b' id valid v n h =
      begin_if-Rotated t reason none b b' id valid v (IsIdle-none p) h
  with_journal-Rotated t reason (ok (some j)) b b' id valid v n h =
      let new =
        if is_empty (trim b.0.memory.installation.id)
        then (b, err installation_missing)
        else with_new_id p q t reason (trim b.0.memory.installation.id) t.new_id b in
      elim (if-eq p q (phase_eq j.phase completed) new (recover_from p q t j b) (b', ok id) h) [
        | inl (e, x) ↦ begin_if-Rotated t reason (some j) b b' id valid v (IsIdle-some p j e) x
        | inr (e, x) ↦
            let r = view-Reads p b.1 j v in
            (
              j,
              recover_from-Rotated t j b b' id r (valid r.db r.opened)
                  (early_phase j.phase e (n j refl)) x,
              inl v,
            )
      ]

  -- If `RotateInstallation` succeeds on a valid outbox whose journal is not in the phase after the
  -- state was rotated, then the state in memory has the identity that it answers, is not bound, and
  -- has no owner, agent, secret or clock samples; the journal of a rotation to this identity is
  -- completed; and if that rotation began with this call, or stood in the phase of the intent, no
  -- delivery of the old installation is queued, which in the first case is the one in the state. A state
  -- that was bound had the old identity of the rotation; a rotation that began with this call is to
  -- another identity than the old.
  pub rotate_installation-Rotated :
      (t : RotationMoment) (reason : Text) (b b' : Both p q) (id : Text)
      → StoreIsValid p b.1
      → ((j : InstallationRotation)
          → view p b.1 (read_rotation p) ≡ ok (some j)
          → j.phase ≢ state_rotated)
      → rotate_installation p q t reason b ≡ (b', ok id)
      → (j : InstallationRotation) × Rotated j b.0.memory b' id × Began b j
  unfolding rotate_installation
  rotate_installation-Rotated t reason b b' id valid n h =
      with_journal-Rotated t reason (view p b.1 (read_rotation p)) b b' id valid refl n h
