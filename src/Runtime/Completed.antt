-- ===== src/Runtime/Completed.antt =====
-- installation_rotation.go: a rotation from the phase after the quarantine on.
use loramapr_receiver.Base.{
  ◌⊎◌, inl, inr, Bool, true, false, not, ◌≡◌, ◌≢◌, refl, sym, subst, ap, ◌∙◌, Text, trim, text_eq,
  text_eq_sound, Result, ok, err, arith, if◌then◌else◌, rotation_stopped, rotation_diverged,
}
use loramapr_receiver.Outbox.Types.{
  Time, InstallationRotation, old_binding_quarantined, state_rotated, completed,
}
use loramapr_receiver.Outbox.Platform.{Platform}
use loramapr_receiver.Outbox.Db.{Db}
use loramapr_receiver.Outbox.Store.{Store, update}
use loramapr_receiver.Outbox.Rotation.{advance_rotation, phase_eq}
use loramapr_receiver.Outbox.Journals.{Reads, advance_rotation-Advanced, phase_eq_sound}
use loramapr_receiver.State.Types.{Data}
use loramapr_receiver.State.Store as StateStore
use loramapr_receiver.State.Updates.{Updated, saved, failed, unsynced, next_data, update-Updated}
use loramapr_receiver.Runtime.Rotation.{
  RotationMoment, rotate_data, validate_rotated_state, Both, after_outbox, after_state, finish,
  from_rotated, advance_rotated, after_validation, rotate_state, from_quarantined,
}

-- The state has the new identity, and nothing of a binding.
pub record IsRotated (id : Text) (d : Data) : Type 0 where
  pub identity : d.installation.id ≡ id
  pub valid : validate_rotated_state d ≡ ok tt

module _ (p : Platform) (q : StateStore.Platform) where
  -- The journal of the rotation to this identity is completed; the queue is that of `db`.
  pub record Completes (db : Db p) (id : Text) (o : Store p) : Type 0 where
    pub journal : InstallationRotation
    pub reads : Reads p o journal
    pub phase : journal.phase ≡ completed
    pub new_id : journal.new_installation_id ≡ id
    pub queue : reads.db.deliveries ≡ db.deliveries

  pub after_outbox-eq-ok :
      {A : Type 0} (s : StateStore.Store) (rest : A → Both p q → Both p q × Result Text)
      (r : Store p × Result A) (b' : Both p q) (id : Text)
      → after_outbox p q s rest r ≡ (b', ok id)
      → (a : A) × (r ≡ (r.0, ok a)) × (rest a (s, r.0) ≡ (b', ok id))
  after_outbox-eq-ok s rest (o, err e) b' id h = absurd (ground (arith, h))
  after_outbox-eq-ok s rest (o, ok a) b' id h = (a, refl, h)

  after_state-eq-ok :
      (o : Store p) (rest : Both p q → Both p q × Result Text)
      (r : StateStore.Store × Result (Unit {0})) (b' : Both p q) (id : Text)
      → after_state p q o rest r ≡ (b', ok id)
      → (r ≡ (r.0, ok tt)) × (rest (r.0, o) ≡ (b', ok id))
  after_state-eq-ok o rest (s, err e) b' id h = absurd (ground (arith, h))
  after_state-eq-ok o rest (s, ok u) b' id h = (refl, h)

  pub if-eq :
      {A : Type 0} (b : Bool) (x y z : A)
      → (if b then x else y) ≡ z
      → ((b ≡ true) × (x ≡ z)) ⊎ ((b ≡ false) × (y ≡ z))
  if-eq true x y z h = inl (refl, h)
  if-eq false x y z h = inr (refl, h)

  finish-eq-ok :
      (j : InstallationRotation) (b b' : Both p q) (id : Text)
      → finish p q j b ≡ (b', ok id)
      → (j.phase ≡ completed) × (b' ≡ b) × (j.new_installation_id ≡ id)
  unfolding finish
  finish-eq-ok j b b' id h =
      elim (if-eq (not (phase_eq j.phase completed)) (b, err rotation_stopped)
        (b, ok j.new_installation_id) (b', ok id) h) [
          | inl (e, x) ↦ absurd (ground (arith, x))
          | inr (e, x) ↦ (
            phase_eq_sound j.phase completed (ground (arith, e)),
            ground (arith, x),
            ground (arith, x),
          )
        ]

  -- From the second advance on, the state stays, and the journal is completed.
  from_rotated-Completes :
      (t : RotationMoment) (j : InstallationRotation) (b b' : Both p q) (id : Text)
      → (r : Reads p b.1 j) → from_rotated p q t j b ≡ (b', ok id)
      → (b'.0 ≡ b.0) × Completes r.db id b'.1 × (j.new_installation_id ≡ id)
  unfolding from_rotated
  from_rotated-Completes t j b b' id r h =
      let r1 = update p b.1 (advance_rotation p t.completed_at state_rotated completed) in
      elim (if-eq (phase_eq j.phase state_rotated) (after_outbox p q b.0 (finish p q) r1)
        (finish p q j b) (b', ok id) h) [
          | inl (e, x) ↦
              let (j', f, last) = after_outbox-eq-ok b.0 (finish p q) r1 b' id x in
              let (a, g) =
                advance_rotation-Advanced p t.completed_at state_rotated completed j j' b.1 r1.0 r
                  f in
              let (c, same, n) = finish-eq-ok j' (b.0, r1.0) b' id last in
              (
                ap (λ x. x.0) same,
                record {
                  journal = j';
                  reads = record {
                    db = a.reads.db;
                    opened = ap (λ x. x.1.db) same ∙ a.reads.opened;
                    journal = a.reads.journal;
                  };
                  phase = c;
                  new_id = n;
                  queue = a.queue;
                },
                sym a.same.new_id ∙ n,
              )
          | inr (e, x) ↦
              let (c, same, n) = finish-eq-ok j b b' id x in
              (
                ap (λ x. x.0) same,
                record {
                  journal = j;
                  reads = record {
                    db = r.db;
                    opened = ap (λ x. x.1.db) same ∙ r.opened;
                    journal = r.journal;
                  };
                  phase = c;
                  new_id = n;
                  queue = refl;
                },
                n,
              )
        ]

  onto :
      {db db' : Db p} {id : Text} {o : Store p}
      → db.deliveries ≡ db'.deliveries
      → Completes db id o
      → Completes db' id o
  onto e c = record {
    journal = c.journal;
    reads = c.reads;
    phase = c.phase;
    new_id = c.new_id;
    queue = c.queue ∙ e;
  }

  pub Updated-eq-ok :
      (next : Data) (s : StateStore.Store) (r : StateStore.Store × Result (Unit {0}))
      → Updated q next s r
      → r.1 ≡ ok tt
      → r.0.memory ≡ next
  Updated-eq-ok next s r saved h = refl
  Updated-eq-ok next s r (failed e) h = absurd (ground (arith, h))
  Updated-eq-ok next s r (unsynced e) h = absurd (ground (arith, h))

  rotate_data-IsRotated :
      (now at : Time) (j : InstallationRotation) (d : Data)
      → IsRotated j.new_installation_id (next_data q now (rotate_data at j) d)
  unfolding StateStore.normalize_generations StateStore.normalize_binding
      StateStore.normalize_credential rotate_data validate_rotated_state trim
  rotate_data-IsRotated now at j d = record { identity = ground arith; valid = ground arith }

  advance_rotated-Completes :
      (t : RotationMoment) (j : InstallationRotation) (b b' : Both p q) (id : Text)
      → (r : Reads p b.1 j) → advance_rotated p q t b ≡ (b', ok id)
      → (b'.0 ≡ b.0) × Completes r.db id b'.1 × (j.new_installation_id ≡ id)
  unfolding advance_rotated
  advance_rotated-Completes t j b b' id r h =
      let r1 =
        update p b.1 (advance_rotation p t.advanced_at old_binding_quarantined state_rotated) in
      let (j', f, last) = after_outbox-eq-ok b.0 (from_rotated p q t) r1 b' id h in
      let (a, g) =
        advance_rotation-Advanced p t.advanced_at old_binding_quarantined state_rotated j j' b.1
          r1.0 r f in
      let (same, c, n) = from_rotated-Completes t j' (b.0, r1.0) b' id a.reads last in
      (same, onto a.queue c, sym a.same.new_id ∙ n)

  after_validation-eq-ok :
      (v : Result (Unit {0})) (rest : Both p q → Both p q × Result Text) (b b' : Both p q)
      (id : Text)
      → after_validation p q v rest b ≡ (b', ok id)
      → (v ≡ ok tt) × (rest b ≡ (b', ok id))
  after_validation-eq-ok (err e) rest b b' id h = absurd (ground (arith, h))
  after_validation-eq-ok (ok u) rest b b' id h = (refl, h)

  -- The identity that a bound state had is that of the old installation, and the new one is the
  -- journal's.
  pub record Renamed (j : InstallationRotation) (before : Data) (id : Text) : Type 0 where
    pub new_id : id ≡ j.new_installation_id
    pub old_id : before.installation.bound ≡ true → before.installation.id ≡ j.old_installation_id

  valid_not_bound : (d : Data) → validate_rotated_state d ≡ ok tt → d.installation.bound ≢ true
  unfolding validate_rotated_state
  valid_not_bound d v e = absurd (ground (arith, v, e))

  rotate_state-IsRotated :
      (t : RotationMoment) (j : InstallationRotation) (b b' : Both p q) (id : Text)
      → (r : Reads p b.1 j) → rotate_state p q t j b ≡ (b', ok id)
      → IsRotated id b'.0.memory × Completes r.db id b'.1 × Renamed j b.0.memory id
  unfolding rotate_state
  rotate_state-IsRotated t j b b' id r h =
      let fn = rotate_data t.rotated_at j in
      let u = StateStore.update q t.stamped_at t.write fn b.0 in
      let current = b.0.memory.installation.id in
      let validated =
        after_validation p q (validate_rotated_state b.0.memory) (advance_rotated p q t) b in
      let other =
        if text_eq current j.new_installation_id then validated else (b, err rotation_diverged) in
      elim (if-eq (text_eq current j.old_installation_id)
        (after_state p q b.1 (advance_rotated p q t) u) other (b', ok id) h) [
          | inl (e, x) ↦
              let (f, last) = after_state-eq-ok b.1 (advance_rotated p q t) u b' id x in
              let (same, c, n) = advance_rotated-Completes t j (u.0, b.1) b' id r last in
              let m =
                Updated-eq-ok (next_data q t.stamped_at fn b.0.memory) b.0 u
                  (update-Updated q t.stamped_at t.write fn b.0) (ap (λ x. x.1) f) in
              let rotated = rotate_data-IsRotated t.stamped_at t.rotated_at j b.0.memory in
              (
                subst (λ i. IsRotated i b'.0.memory) n
                    (subst (IsRotated j.new_installation_id) (sym (ap (λ s. s.memory) same ∙ m))
                      rotated),
                c,
                record {
                  new_id = sym n;
                  old_id = λ bound. text_eq_sound current j.old_installation_id e;
                },
              )
          | inr (e, x) ↦
              elim (if-eq (text_eq current j.new_installation_id) validated
                (b, err rotation_diverged) (b', ok id) x) [
                  | inl (f, y) ↦
                      let (v, last) =
                        after_validation-eq-ok (validate_rotated_state b.0.memory)
                          (advance_rotated p q t) b b' id y in
                      let (same, c, n) = advance_rotated-Completes t j b b' id r last in
                      let rotated : IsRotated id b.0.memory = record {
                        identity = text_eq_sound current j.new_installation_id f ∙ n;
                        valid = v;
                      } in
                      (
                        subst (λ s. IsRotated id s.memory) (sym same) rotated,
                        c,
                        record {
                          new_id = sym n;
                          old_id = λ bound. absurd (valid_not_bound b.0.memory v bound);
                        },
                      )
                  | inr (f, y) ↦ absurd (ground (arith, y))
                ]
        ]

  -- From the phase that follows the intent, the state is rotated.
  pub from_quarantined-IsRotated :
      (t : RotationMoment) (j : InstallationRotation) (b b' : Both p q) (id : Text)
      → (r : Reads p b.1 j) → j.phase ≡ old_binding_quarantined
      → from_quarantined p q t j b ≡ (b', ok id)
      → IsRotated id b'.0.memory × Completes r.db id b'.1 × Renamed j b.0.memory id
  unfolding from_quarantined
  from_quarantined-IsRotated t j b b' id r e h =
      rotate_state-IsRotated t j b b' id r (ground (arith, e, h))
