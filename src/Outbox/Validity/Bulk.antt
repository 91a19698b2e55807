-- ===== src/Outbox/Validity/Bulk.antt =====
-- The operations that touch many deliveries, or none, keep the invariant of the database.
use loramapr_receiver.Base.{
  ◌⊎◌, inl, inr, Bool-cases, Option-cases, ℕ, Bool, true, false, Option, some, List, [], ◌∷◌, ◌≡◌,
  sym, subst, Text, Result, ok, arith, All, trim, >>=-eq-ok, length, ◌>>=◌,
}
use loramapr_receiver.Outbox.Types.{
  Delivery, Config, Time, Signed, AttemptFailure, Binding, BindingReconcileResult,
  InstallationRotation, InstallationRotationPhase, intent,
}
use loramapr_receiver.Outbox.Platform.{Platform}
use loramapr_receiver.Outbox.Db.{Db, signed}
use loramapr_receiver.Outbox.Quarantine.{
  Matched, Scan, move_all, move_matching, quarantine_by_receiver, of_receiver,
}
use loramapr_receiver.Outbox.Prune.{prune_tx}
use loramapr_receiver.Outbox.Pause.{clear_resolved_pause}
use loramapr_receiver.Outbox.Reconcile.{
  already_reconciled, reconcile_binding, rebound, trim_binding, finish_reconcile,
}
use loramapr_receiver.Outbox.Rotation.{
  phase_eq, begin_rotation, quarantine_rotation, from_intent, quarantine_old, advance_rotation,
  of_installation, finish_rotation,
}
use loramapr_receiver.Outbox.Accounts.{write_counters-eq-ok}
use loramapr_receiver.Outbox.Bulk.{Distinct, IsMatch}
use loramapr_receiver.Outbox.Moves.{move_all_step, move_all_nil, IsMatch-moved}
use loramapr_receiver.Outbox.Matching.{
  move_matching-eq-ok, Matching-IsConsistent, matches, distinct,
}
use loramapr_receiver.Outbox.Pruning.{prune_tx-eq-ok, Pruned-IsConsistent}
use loramapr_receiver.Outbox.Index.{Indexed, Indexed-drop}
use loramapr_receiver.Outbox.Validity.{IsValid}

module _ (p : Platform) where
  open p use {Raw, Bucket, delete, unmarshal_rotation}

  abbrev IndexedDb : Db p → Type 0
  IndexedDb db = Indexed p db.deliveries db.due_index

  move_all-Indexed :
      (cfg : Config) (select : Delivery → Option Delivery) (ms : List (Matched p))
      (st : Db p × Signed) {st' : Db p × Signed}
      → IndexedDb st.0
      → Distinct p ms
      → All (IsMatch p select st.0.deliveries) ms
      → move_all p cfg ms st ≡ ok st'
      → IndexedDb st'.0
  move_all-Indexed cfg select [] st i u f h =
      subst (λ (x : Db p × Signed). IndexedDb x.0) (move_all_nil p cfg st h) i
  move_all-Indexed cfg select (m ∷ ms) st i u f h =
      let (mid, first, rest) = move_all_step p cfg m ms st h in
      let i' = Indexed-drop p i (record { raw = m.raw; stored = f.0.0; decoded = f.0.1 }) in
      move_all-Indexed cfg select ms mid
        (subst (λ (x : Db p × Signed). IndexedDb x.0) (sym first.result) i') u.1
        (subst (λ (x : Db p × Signed). All (IsMatch p select x.0.deliveries) ms) (sym first.result)
          (IsMatch-moved p cfg select st.0.deliveries m.key ms u.0 f.1))
        rest

  pub move_matching-IsValid :
      (cfg : Config) (select : Delivery → Option Delivery) (db db' : Db p) (scan : Scan p)
      → IsValid p db
      → move_matching p cfg select db ≡ ok (db', scan)
      → IsValid p db'
  move_matching-IsValid cfg select db db' scan v h =
      let m = move_matching-eq-ok p cfg select db db' scan h in
      record {
        accounts = Matching-IsConsistent p m v.accounts;
        index = subst IndexedDb (sym (write_counters-eq-ok p _ m.after.1 m.after.0 m.written).0) (
            move_all-Indexed cfg select scan.matches (db, signed db.used_bytes) v.index
              (distinct p m v.accounts) (matches p m v.accounts) m.looped);
      }

  pub prune_tx-IsValid :
      (now : Time) (retention : ℕ) (db : Db p) (r : Db p × ℕ)
      → IsValid p db
      → prune_tx p now retention db ≡ ok r
      → IsValid p r.0
  prune_tx-IsValid now retention db r v h =
      let u = prune_tx-eq-ok p now retention db r h in
      record {
        accounts = Pruned-IsConsistent p u v.accounts;
        index =
            subst IndexedDb (sym (write_counters-eq-ok p u.after.count u.after.used _ u.written).0)
              v.index;
      }

  -- The parts of the database that the invariant speaks of.
  pub record SameQueue (db db' : Db p) : Type 0 where
    pub deliveries : db'.deliveries ≡ db.deliveries
    pub due_index : db'.due_index ≡ db.due_index
    pub quarantine : db'.quarantine ≡ db.quarantine
    pub total_count : db'.total_count ≡ db.total_count
    pub used_bytes : db'.used_bytes ≡ db.used_bytes

  pub SameQueue-IsValid : (db db' : Db p) → SameQueue db db' → IsValid p db → IsValid p db'
  SameQueue-IsValid db db' s v = record {
    accounts = rw (s.deliveries, s.quarantine, s.total_count, s.used_bytes) v.accounts;
    index = rw (s.deliveries, s.due_index) v.index;
  }

  clear_resolved_pause-SameQueue :
      (b : Binding) (db : Db p) (r : Db p × Bool)
      → clear_resolved_pause p b db ≡ ok r
      → SameQueue db r.0
  unfolding clear_resolved_pause
  clear_resolved_pause-SameQueue b db r h = ground arith

  begin_rotation-SameQueue :
      (now : Time) (rotation : InstallationRotation) (db : Db p) (r : Db p × InstallationRotation)
      → begin_rotation p now rotation db ≡ ok r
      → SameQueue db r.0
  unfolding begin_rotation
  begin_rotation-SameQueue now rotation db r h = ground arith

  advance_rotation-SameQueue :
      (now : Time) (expected next : InstallationRotationPhase) (db : Db p)
      (r : Db p × InstallationRotation)
      → advance_rotation p now expected next db ≡ ok r
      → SameQueue db r.0
  unfolding advance_rotation
  advance_rotation-SameQueue now expected next db r h = ground arith

  pub clear_resolved_pause-IsValid :
      (b : Binding) (db : Db p) (r : Db p × Bool)
      → IsValid p db
      → clear_resolved_pause p b db ≡ ok r
      → IsValid p r.0
  clear_resolved_pause-IsValid b db r v h =
      SameQueue-IsValid db r.0 (clear_resolved_pause-SameQueue b db r h) v

  pub begin_rotation-IsValid :
      (now : Time) (rotation : InstallationRotation) (db : Db p) (r : Db p × InstallationRotation)
      → IsValid p db
      → begin_rotation p now rotation db ≡ ok r
      → IsValid p r.0
  begin_rotation-IsValid now rotation db r v h =
      SameQueue-IsValid db r.0 (begin_rotation-SameQueue now rotation db r h) v

  pub advance_rotation-IsValid :
      (now : Time) (expected next : InstallationRotationPhase) (db : Db p)
      (r : Db p × InstallationRotation)
      → IsValid p db
      → advance_rotation p now expected next db ≡ ok r
      → IsValid p r.0
  advance_rotation-IsValid now expected next db r v h =
      SameQueue-IsValid db r.0 (advance_rotation-SameQueue now expected next db r h) v

  -- An operation that ends in a bulk move, up to parts that the invariant does not speak of.
  pub record MovedBy (select : Delivery → Option Delivery) (cfg : Config) (db db' : Db p)
      : Type 0 where
    pub scan : Scan p
    pub middle : Db p
    pub moved : move_matching p cfg select db ≡ ok (middle, scan)
    pub same : SameQueue middle db'

  pub MovedBy-IsValid :
      {select : Delivery → Option Delivery} {cfg : Config} {db db' : Db p}
      → MovedBy select cfg db db'
      → IsValid p db
      → IsValid p db'
  MovedBy-IsValid {select} {cfg} {db} {db'} m v =
      SameQueue-IsValid m.middle db' m.same
        (move_matching-IsValid cfg select db m.middle m.scan v m.moved)

  -- A bulk move followed by `finish`.
  moving_then :
      {R : Type 0} (select : Delivery → Option Delivery) (cfg : Config) (db : Db p)
      (finish : Db p × Scan p → Result R) (after : R → Db p) {r : R}
      → ((o : Db p × Scan p) → finish o ≡ ok r → SameQueue o.0 (after r))
      → (move_matching p cfg select db >>= finish) ≡ ok r
      → MovedBy select cfg db (after r)
  moving_then select cfg db finish after same h =
      let (o, moved, rest) = >>=-eq-ok (move_matching p cfg select db) finish h in
      record { scan = o.1; middle = o.0; moved = moved; same = same o rest }

  pub quarantine_by_receiver-MovedBy :
      (cfg : Config) (now : Time) (agent reason : Text) (f : AttemptFailure) (db : Db p)
      (r : Db p × ℕ)
      → quarantine_by_receiver p cfg now agent reason f db ≡ ok r
      → MovedBy (of_receiver now (trim agent) reason f) cfg db r.0
  unfolding quarantine_by_receiver
  quarantine_by_receiver-MovedBy cfg now agent reason f db r h =
      moving_then (of_receiver now (trim agent) reason f) cfg db (λ o. ok (o.0, length o.1.matches))
        (λ (x : Db p × ℕ). x.0) finished (ground arith)
    where
      finished : (o : Db p × Scan p) → ok (o.0, length o.1.matches) ≡ ok r → SameQueue o.0 r.0
      finished o e = ground arith

  finish_reconcile-SameQueue :
      (b : Binding) (o : Db p × Scan p) (r : Db p × BindingReconcileResult)
      → finish_reconcile p b o ≡ ok r
      → SameQueue o.0 r.0
  unfolding finish_reconcile
  finish_reconcile-SameQueue b o r h = ground arith

  finish_rotation-SameQueue :
      (now : Time) (j : InstallationRotation) (o : Db p × Scan p) (r : Db p × InstallationRotation)
      → finish_rotation p now j o ≡ ok r
      → SameQueue o.0 r.0
  unfolding finish_rotation
  finish_rotation-SameQueue now j o r h = ground arith

  reconcile_moved :
      (cfg : Config) (now : Time) (b : Binding) (db : Db p) (r : Db p × BindingReconcileResult)
      → already_reconciled p db (trim_binding b) ≡ false
      → reconcile_binding p cfg now b db ≡ ok r
      → MovedBy (rebound now (trim_binding b)) cfg db r.0
  unfolding reconcile_binding
  reconcile_moved cfg now b db r e h =
      moving_then (rebound now (trim_binding b)) cfg db (finish_reconcile p (trim_binding b))
        (λ (x : Db p × BindingReconcileResult). x.0)
        (λ o. finish_reconcile-SameQueue (trim_binding b) o r) (ground arith)

  reconcile_idle :
      (cfg : Config) (now : Time) (b : Binding) (db : Db p) (r : Db p × BindingReconcileResult)
      → already_reconciled p db (trim_binding b) ≡ true
      → reconcile_binding p cfg now b db ≡ ok r
      → r.0 ≡ db
  unfolding reconcile_binding
  reconcile_idle cfg now b db r e h = ground arith

  -- Either this binding was reconciled already, or the deliveries of others were moved.
  pub reconcile_binding-cases :
      (cfg : Config) (now : Time) (b : Binding) (db : Db p) (r : Db p × BindingReconcileResult)
      → reconcile_binding p cfg now b db ≡ ok r
      → ((already_reconciled p db (trim_binding b) ≡ true) × (r.0 ≡ db))
        ⊎ MovedBy (rebound now (trim_binding b)) cfg db r.0
  reconcile_binding-cases cfg now b db r h =
      elim (Bool-cases (already_reconciled p db (trim_binding b))) [
        | inl e ↦ inl (e, reconcile_idle cfg now b db r e h)
        | inr e ↦ inr (reconcile_moved cfg now b db r e h)
      ]

  pub reconcile_binding-IsValid :
      (cfg : Config) (now : Time) (b : Binding) (db : Db p) (r : Db p × BindingReconcileResult)
      → IsValid p db
      → reconcile_binding p cfg now b db ≡ ok r
      → IsValid p r.0
  reconcile_binding-IsValid cfg now b db r v h = elim (reconcile_binding-cases cfg now b db r h) [
    | inl (e, same) ↦ subst (IsValid p) (sym same) v
    | inr m ↦ MovedBy-IsValid m v
  ]

  -- The journal entry on which a rotation acts.
  pub record Journal (db : Db p) (r : InstallationRotation) : Type 0 where
    pub raw : Raw
    pub stored : db.installation_rotation ≡ some raw
    pub decoded : unmarshal_rotation raw ≡ ok r

  pub quarantine_old-MovedBy :
      (cfg : Config) (now : Time) (j : InstallationRotation) (db : Db p)
      (r : Db p × InstallationRotation)
      → quarantine_old p cfg now j db ≡ ok r
      → MovedBy (of_installation now j.old_installation_id) cfg db r.0
  unfolding quarantine_old
  quarantine_old-MovedBy cfg now j db r h =
      moving_then (of_installation now j.old_installation_id) cfg db (finish_rotation p now j)
        (λ (x : Db p × InstallationRotation). x.0) (λ o. finish_rotation-SameQueue now j o r) h

  Journal-of :
      (cfg : Config) (now : Time) (db : Db p) (r : Db p × InstallationRotation)
      → quarantine_rotation p cfg now db ≡ ok r
      → (j : InstallationRotation) × Journal db j × (from_intent p cfg now j db ≡ ok r)
  unfolding quarantine_rotation
  Journal-of cfg now db r h = elim (Option-cases db.installation_rotation) [
    | inl e ↦ absurd (ground arith)
    | inr (raw, e) ↦
        let acting : (unmarshal_rotation raw >>= λ j. from_intent p cfg now j db) ≡ ok r =
          ground arith in
        let (j, decoded, rest) =
          >>=-eq-ok (unmarshal_rotation raw) (λ j. from_intent p cfg now j db) acting in
        (j, record { raw = raw; stored = e; decoded = decoded }, rest)
  ]

  from_intent-cases :
      (cfg : Config) (now : Time) (j : InstallationRotation) (db : Db p)
      (r : Db p × InstallationRotation)
      → from_intent p cfg now j db ≡ ok r
      → ((phase_eq j.phase intent ≡ false) × (r ≡ (db, j)))
        ⊎ ((phase_eq j.phase intent ≡ true) × (quarantine_old p cfg now j db ≡ ok r))
  unfolding from_intent
  from_intent-cases cfg now j db r h = elim (Bool-cases (phase_eq j.phase intent)) [
    | inl e ↦ inr (e, ground arith)
    | inr e ↦ inl (e, ground arith)
  ]

  -- Past its first phase the journal entry stands and nothing is moved.
  pub quarantine_rotation-cases :
      (cfg : Config) (now : Time) (db : Db p) (r : Db p × InstallationRotation)
      → quarantine_rotation p cfg now db ≡ ok r
      → (j : InstallationRotation) × Journal db j
        × (((phase_eq j.phase intent ≡ false) × (r ≡ (db, j)))
            ⊎ ((phase_eq j.phase intent ≡ true) × (quarantine_old p cfg now j db ≡ ok r)))
  quarantine_rotation-cases cfg now db r h =
      let (j, journal, result) = Journal-of cfg now db r h in
      (j, journal, from_intent-cases cfg now j db r result)

  pub quarantine_rotation-IsValid :
      (cfg : Config) (now : Time) (db : Db p) (r : Db p × InstallationRotation)
      → IsValid p db
      → quarantine_rotation p cfg now db ≡ ok r
      → IsValid p r.0
  quarantine_rotation-IsValid cfg now db r v h =
      let (j, journal, cases) = quarantine_rotation-cases cfg now db r h in
      elim cases [
        | inl (phase, same) ↦
            subst (λ (x : Db p × InstallationRotation). IsValid p x.0) (sym same) v
        | inr (phase, moved) ↦ MovedBy-IsValid (quarantine_old-MovedBy cfg now j db r moved) v
      ]
