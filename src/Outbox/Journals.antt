-- ===== src/Outbox/Journals.antt =====
-- store.go: what the methods on the journal of a rotation read and leave.
use loramapr_receiver.Base.{
  inl, inr, true, false, text_eq_of_eq, Option, none, some, ◌≡◌, ◌≢◌, refl, sym, subst, ap, ◌∙◌,
  Text, ok, ◌>>=◌, >>=-eq-ok, arith, Option-cases, Bool-cases, trim, length, refuse-eq-ok,
  rotation_ids_required,
}
use loramapr_receiver.Outbox.Types.{
  Config, Delivery, Time, InstallationRotation, InstallationRotationPhase, intent,
  old_binding_quarantined, state_rotated, completed,
}
use loramapr_receiver.Outbox.Platform.{Platform}
use loramapr_receiver.Outbox.Db.{Db}
use loramapr_receiver.Outbox.Store.{Store, update, view}
use loramapr_receiver.Outbox.Quarantine.{Scan, move_matching}
use loramapr_receiver.Outbox.Rotation.{
  read_rotation, write_rotation, begin_rotation, quarantine_rotation, advance_rotation,
  advance_from, begin_or_resume, begun, lacks_ids, trim_rotation, phase_eq, quarantine_old,
  finish_rotation, clear_moved_pause, of_installation,
}
use loramapr_receiver.Outbox.Transactions.{update-Done}
use loramapr_receiver.Outbox.Validity.Bulk.{Journal, quarantine_rotation-cases}
use loramapr_receiver.Outbox.Index.{Holding}
use loramapr_receiver.Outbox.Validity.{IsValid}
use loramapr_receiver.Outbox.Separation.{quarantine_rotation-Isolated}

pub phase_eq_refl : (n : InstallationRotationPhase) → phase_eq n n ≡ true
phase_eq_refl intent = refl
phase_eq_refl old_binding_quarantined = refl
phase_eq_refl state_rotated = refl
phase_eq_refl completed = refl

pub phase_eq_sound : (m n : InstallationRotationPhase) → phase_eq m n ≡ true → m ≡ n
phase_eq_sound m n h = ground arith

module _ (p : Platform) where
  open p use {marshal_rotation, unmarshal_rotation}

  -- The open store has this journal.
  pub record Reads (o : Store p) (j : InstallationRotation) : Type 0 where
    pub db : Db p
    pub opened : o.db ≡ some db
    pub journal : Journal p db j

  -- No delivery of the installation is queued.
  abbrev pub Emptied : Text → Db p → Type 0
  Emptied old_id db =
      (k : Text) (r : Delivery) → Holding p db.deliveries k r → r.installation_id ≢ old_id

  -- The journal names the same identities.
  pub record SameRotation (j j' : InstallationRotation) : Type 0 where
    pub old_id : j'.old_installation_id ≡ j.old_installation_id
    pub new_id : j'.new_installation_id ≡ j.new_installation_id

  write_rotation-Journal :
      (r : InstallationRotation) (db db' : Db p) (r' : InstallationRotation)
      → write_rotation p r db ≡ ok (db', r')
      → Journal p db' r' × (r' ≡ r) × (db'.deliveries ≡ db.deliveries)
  write_rotation-Journal r db db' r' h =
      let (raw, e, last) =
        >>=-eq-ok (marshal_rotation r)
          (λ raw. ok (record db { installation_rotation = some raw }, r)) h in
      (ground (arith, last, p.unmarshal-marshal_rotation r raw e), cc last, ground (arith, last))

  Journal-unique :
      (db : Db p) (j j' : InstallationRotation) → Journal p db j → Journal p db j' → j ≡ j'
  Journal-unique db j j' a b = ground (arith, a.stored, b.stored, a.decoded, b.decoded)

  -- A call on the outbox that reads the journal and leaves one of the same rotation.
  pub record Advanced (db : Db p) (j j' : InstallationRotation) (o' : Store p) : Type 0 where
    pub reads : Reads o' j'
    pub same : SameRotation j j'
    pub queue : reads.db.deliveries ≡ db.deliveries

  SameRotation_refl : (j : InstallationRotation) → SameRotation j j
  SameRotation_refl j = record { old_id = refl; new_id = refl }

  advance_from-Journal :
      (now : Time) (e n : InstallationRotationPhase) (j : InstallationRotation) (db db' : Db p)
      (j' : InstallationRotation)
      → Journal p db j
      → advance_from p now e n j db ≡ ok (db', j')
      → Journal p db' j'
        × SameRotation j j'
        × (phase_eq j'.phase n ≡ true)
        × (db'.deliveries ≡ db.deliveries)
  unfolding advance_from
  advance_from-Journal now e n j db db' j' a h = elim (Bool-cases (phase_eq j.phase n)) [
    | inl x ↦ ground (arith, x, a)
    | inr x ↦ elim (Bool-cases (phase_eq j.phase e)) [
      | inl y ↦
          let w =
            write_rotation-Journal (record j { phase = n; updated_at = now }) db db' j'
              (ground (arith, x, y, h)) in
          let (a, f, g) = w in
          (
            a,
            record {
              old_id = ap (λ x. x.old_installation_id) f;
              new_id = ap (λ x. x.new_installation_id) f;
            },
            ap (λ x. phase_eq x.phase n) f ∙ phase_eq_refl n,
            g,
          )
      | inr y ↦ absurd (ground (arith, x, y, h))
    ]
  ]

  advance_rotation-Journal :
      (now : Time) (e n : InstallationRotationPhase) (j : InstallationRotation) (db db' : Db p)
      (j' : InstallationRotation)
      → Journal p db j
      → advance_rotation p now e n db ≡ ok (db', j')
      → Journal p db' j'
        × SameRotation j j'
        × (phase_eq j'.phase n ≡ true)
        × (db'.deliveries ≡ db.deliveries)
  unfolding advance_rotation
  advance_rotation-Journal now e n j db db' j' a h =
      advance_from-Journal now e n j db db' j' a (ground (arith, h, a.stored, a.decoded))

  -- `AdvanceInstallationRotation` that succeeds leaves a journal of the same rotation in the new phase.
  pub advance_rotation-Advanced :
      (now : Time) (e n : InstallationRotationPhase) (j j' : InstallationRotation) (o o' : Store p)
      → (r : Reads o j) → update p o (advance_rotation p now e n) ≡ (o', ok j')
      → Advanced r.db j j' o' × (phase_eq j'.phase n ≡ true)
  advance_rotation-Advanced now e n j j' o o' r h =
      let d = update-Done p (advance_rotation p now e n) o o' j' h in
      let same : r.db ≡ d.before = ground (arith, r.opened, d.opened) in
      let (a, s, f, g) =
        advance_rotation-Journal now e n j d.before d.after j'
          (subst (λ x. Journal p x j) same r.journal) d.ran in
      (
        record {
          reads = record { db = d.after; opened = d.left; journal = a };
          same = s;
          queue = g ∙ ap (λ x. x.deliveries) (sym same);
        },
        f,
      )

  finish_rotation-Journal :
      (now : Time) (j : InstallationRotation) (x : Db p × Scan p) (db' : Db p)
      (j' : InstallationRotation)
      → finish_rotation p now j x ≡ ok (db', j')
      → Journal p db' j' × SameRotation j j' × (j'.phase ≡ old_binding_quarantined)
  unfolding finish_rotation
  finish_rotation-Journal now j (db, scan) db' j' h =
      let moved = record j {
        phase = old_binding_quarantined;
        quarantined = length scan.matches;
        updated_at = now;
      } in
      let (y, e, rest) =
        >>=-eq-ok (clear_moved_pause p scan.matches db) (λ y. write_rotation p moved y) h in
      let (a, f, g) = write_rotation-Journal moved y db' j' rest in
      (
        a,
        record {
          old_id = ap (λ x. x.old_installation_id) f;
          new_id = ap (λ x. x.new_installation_id) f;
        },
        ap (λ x. x.phase) f,
      )

  quarantine_old-Journal :
      (cfg : Config) (now : Time) (j : InstallationRotation) (db db' : Db p)
      (j' : InstallationRotation)
      → quarantine_old p cfg now j db ≡ ok (db', j')
      → Journal p db' j' × SameRotation j j' × (j'.phase ≡ old_binding_quarantined)
  unfolding quarantine_old
  quarantine_old-Journal cfg now j db db' j' h =
      let (x, e, rest) =
        >>=-eq-ok (move_matching p cfg (of_installation now j.old_installation_id) db)
          (finish_rotation p now j) h in
      finish_rotation-Journal now j x db' j' rest

  -- `QuarantineInstallationRotation` that succeeds in the phase of the intent leaves a journal of the
  -- same rotation in the next phase.
  pub quarantine_rotation-Advanced :
      (cfg : Config) (now : Time) (j j' : InstallationRotation) (o o' : Store p)
      → (r : Reads o j) → IsValid p r.db
      → phase_eq j.phase intent ≡ true
      → update p o (quarantine_rotation p cfg now) ≡ (o', ok j')
      → (r' : Reads o' j') × SameRotation j j'
        × (j'.phase ≡ old_binding_quarantined)
        × Emptied j.old_installation_id r'.db
  quarantine_rotation-Advanced cfg now j j' o o' r v h k =
      let d = update-Done p (quarantine_rotation p cfg now) o o' j' k in
      let same : r.db ≡ d.before = ground (arith, r.opened, d.opened) in
      let (j1, journal, cases) = quarantine_rotation-cases p cfg now d.before (d.after, j') d.ran in
      let e : j1 ≡ j =
        Journal-unique d.before j1 j journal (subst (λ x. Journal p x j) same r.journal) in
      let valid : IsValid p d.before = subst (λ x. IsValid p x) same v in
      let (j2, journal2, cases2) =
        quarantine_rotation-Isolated p cfg now d.before (d.after, j') valid d.ran in
      let e2 : j2 ≡ j =
        Journal-unique d.before j2 j journal2 (subst (λ x. Journal p x j) same r.journal) in
      let emptied : Emptied j.old_installation_id d.after = elim cases2 [
        | inl (phase, x) ↦ absurd (ground (arith, e2, phase, h))
        | inr (phase, isolated) ↦
            subst (λ i. Emptied i.old_installation_id d.after) e2 (λ k r h. (isolated.left k r h).1)
      ] in
      elim cases [
        | inl (phase, x) ↦ absurd (ground (arith, e, phase, h))
        | inr (phase, x) ↦
            let (a, s, f) =
              quarantine_old-Journal cfg now j d.before d.after j'
                (subst (λ i. quarantine_old p cfg now i d.before ≡ ok (d.after, j')) e x) in
            (record { db = d.after; opened = d.left; journal = a }, s, f, emptied)
      ]

  begin_or_resume-Journal :
      (now : Time) (r : InstallationRotation) (stored : Option InstallationRotation) (db db' : Db p)
      (j : InstallationRotation)
      → ((i : InstallationRotation) → stored ≡ some i → Journal p db i)
      → begin_or_resume p now r stored db ≡ ok (db', j)
      → Journal p db' j
  unfolding begin_or_resume
  begin_or_resume-Journal now r none db db' j known h =
      (write_rotation-Journal (begun now r) db db' j h).0
  begin_or_resume-Journal now r (some i) db db' j known h =
      elim (Bool-cases (phase_eq i.phase completed)) [
        | inl x ↦ (write_rotation-Journal (begun now r) db db' j (ground (arith, x, h))).0
        | inr x ↦ ground (arith, x, h, known i refl)
      ]

  read_rotation-Journal :
      (db : Db p) (j : InstallationRotation) → read_rotation p db ≡ ok (some j) → Journal p db j
  unfolding read_rotation
  read_rotation-Journal db j h = elim (Option-cases db.installation_rotation) [
    | inl e ↦ absurd (ground (arith, e, h))
    | inr (raw, e) ↦
        let read : (unmarshal_rotation raw >>= λ i. ok (some i)) ≡ ok (some j) =
          ground (arith, e, h) in
        let (i, decoded, last) = >>=-eq-ok (unmarshal_rotation raw) (λ i. ok (some i)) read in
        record { raw = raw; stored = e; decoded = ground (arith, decoded, last) }
  ]

  -- What `InstallationRotation` answers is the journal.
  pub view-Reads :
      (o : Store p) (j : InstallationRotation)
      → view p o (read_rotation p) ≡ ok (some j)
      → Reads o j
  unfolding view
  view-Reads o j h = elim (Option-cases o.db) [
    | inl e ↦ absurd (ground (arith, e, h))
    | inr (db, e) ↦ record {
      db = db;
      opened = e;
      journal = read_rotation-Journal db j (ground (arith, e, h));
    }
  ]

  begin_rotation-Journal :
      (now : Time) (r j : InstallationRotation) (db db' : Db p)
      → begin_rotation p now r db ≡ ok (db', j)
      → Journal p db' j
  unfolding begin_rotation
  begin_rotation-Journal now r j db db' h =
      let (x, rest) =
        refuse-eq-ok (lacks_ids (trim_rotation r)) rotation_ids_required
          (read_rotation p db >>= λ stored. begin_or_resume p now (trim_rotation r) stored db) h in
      let (stored, e, last) =
        >>=-eq-ok (read_rotation p db) (λ stored. begin_or_resume p now (trim_rotation r) stored db)
          rest in
      begin_or_resume-Journal now (trim_rotation r) stored db db' j
        (λ i f. read_rotation-Journal db i (e ∙ ap ok f)) last

  -- `BeginInstallationRotation` answers the journal that it leaves.
  pub begin_rotation-Reads :
      (now : Time) (r j : InstallationRotation) (o o' : Store p)
      → update p o (begin_rotation p now r) ≡ (o', ok j)
      → Reads o' j
  begin_rotation-Reads now r j o o' h =
      let d = update-Done p (begin_rotation p now r) o o' j h in
      record {
        db = d.after;
        opened = d.left;
        journal = begin_rotation-Journal now r j d.before d.after d.ran;
      }

  -- No rotation stands.
  pub IsIdle : Option InstallationRotation → Type 0
  IsIdle stored = (i : InstallationRotation) → stored ≡ some i → phase_eq i.phase completed ≡ true

  pub IsIdle-none : IsIdle none
  unfolding IsIdle
  IsIdle-none i h = absurd (ground (arith, h))

  pub IsIdle-some : (j : InstallationRotation) → phase_eq j.phase completed ≡ true → IsIdle (some j)
  unfolding IsIdle
  IsIdle-some j e i h = ground (arith, e, h)

  begin_or_resume-begun :
      (now : Time) (r j : InstallationRotation) (stored : Option InstallationRotation)
      (db db' : Db p)
      → IsIdle stored
      → begin_or_resume p now r stored db ≡ ok (db', j)
      → j ≡ begun now r
  unfolding begin_or_resume IsIdle
  begin_or_resume-begun now r j none db db' idle h =
      (write_rotation-Journal (begun now r) db db' j h).1
  begin_or_resume-begun now r j (some i) db db' idle h =
      (write_rotation-Journal (begun now r) db db' j (ground (arith, idle i refl, h))).1

  begin_rotation-begun :
      (now : Time) (r j : InstallationRotation) (stored : Option InstallationRotation)
      (db db' : Db p)
      → read_rotation p db ≡ ok stored
      → IsIdle stored
      → begin_rotation p now r db ≡ ok (db', j)
      → (j ≡ begun now (trim_rotation r)) × (lacks_ids (trim_rotation r) ≡ false)
  unfolding begin_rotation
  begin_rotation-begun now r j stored db db' e idle h =
      let (x, rest) =
        refuse-eq-ok (lacks_ids (trim_rotation r)) rotation_ids_required
          (read_rotation p db >>= λ stored. begin_or_resume p now (trim_rotation r) stored db) h in
      (
        begin_or_resume-begun now (trim_rotation r) j stored db db' idle (
            subst (λ x. (x >>= λ i. begin_or_resume p now (trim_rotation r) i db) ≡ ok (db', j)) e
              rest),
        x,
      )

  differing_ids :
      (r : InstallationRotation)
      → lacks_ids r ≡ false
      → r.new_installation_id ≢ r.old_installation_id
  differing_ids r h e = absurd (ground (arith, h, text_eq_of_eq (sym e)))

  -- Where no rotation stands, `BeginInstallationRotation` answers the entry of a new one, to another
  -- identity.
  pub begin_rotation_new :
      (now : Time) (r j : InstallationRotation) (stored : Option InstallationRotation)
      (o o' : Store p)
      → view p o (read_rotation p) ≡ ok stored
      → IsIdle stored
      → update p o (begin_rotation p now r) ≡ (o', ok j)
      → (j.phase ≡ intent)
        × (j.old_installation_id ≡ trim r.old_installation_id)
        × (j.new_installation_id ≢ j.old_installation_id)
  unfolding view
  begin_rotation_new now r j stored o o' v idle h =
      let d = update-Done p (begin_rotation p now r) o o' j h in
      let read : read_rotation p d.before ≡ ok stored = ground (arith, d.opened, v) in
      let (e, given) = begin_rotation-begun now r j stored d.before d.after read idle d.ran in
      (
        ap (λ x. x.phase) e,
        ap (λ x. x.old_installation_id) e,
        subst (λ x. x.new_installation_id ≢ x.old_installation_id) (sym e)
            (differing_ids (begun now (trim_rotation r)) given),
      )
