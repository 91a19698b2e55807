-- ===== src/Outbox/Separation.antt =====
-- What the operations that move many deliveries into quarantine do to each of them.
use loramapr_receiver.Base.{
  ◌⊎◌, inl, inr, ℕ, true, false, Option, none, some, ◌≡◌, Text, ok, arith, trim, text_eq,
  if◌then◌else◌, codes,
}
use loramapr_receiver.Outbox.Types.{
  Delivery, Config, Time, AttemptFailure, Binding, BindingReconcileResult, InstallationRotation,
  intent,
}
use loramapr_receiver.Outbox.Platform.{Platform}
use loramapr_receiver.Outbox.Db.{Db}
use loramapr_receiver.Outbox.Quarantine.{quarantine_by_receiver}
use loramapr_receiver.Outbox.Reconcile.{already_reconciled, reconcile_binding, trim_binding}
use loramapr_receiver.Outbox.Rotation.{quarantine_rotation, phase_eq}
use loramapr_receiver.Outbox.Matching.{
  move_matching-eq-ok, Matching_left, Matching_kept, Matching-IsMoved,
}
use loramapr_receiver.Outbox.Index.{Holding, decode-marshal}
use loramapr_receiver.Outbox.Validity.{IsValid}
use loramapr_receiver.Outbox.Validity.Bulk.{
  MovedBy, quarantine_by_receiver-MovedBy, reconcile_binding-cases, quarantine_old-MovedBy,
  quarantine_rotation-cases, Journal,
}
use loramapr_receiver.Outbox.Picks.{
  IsQuarantined, IsOwn, Picks, rebound-Picks, of_receiver-Picks, of_installation-Picks,
}

module _ (p : Platform) where
  open p use {Raw, get}

  -- The deliveries that `select` picks left the queue for the quarantine, each as what `select` makes
  -- of it; the queue is what was in it before and is not picked.
  pub record Separated (select : Delivery → Option Delivery) (db db' : Db p) : Type 0 where
    pub left :
        (k : Text) (r : Delivery)
        → Holding p db'.deliveries k r
        → Holding p db.deliveries k r × (select r ≡ none)
    pub kept :
        (k : Text) (r : Delivery)
        → Holding p db.deliveries k r
        → select r ≡ none
        → Holding p db'.deliveries k r
    pub moved :
        (k : Text) (r r' : Delivery)
        → Holding p db.deliveries k r
        → select r ≡ some r'
        → (get db'.deliveries k ≡ none) × Holding p db'.quarantine k r'

  MovedBy-Separated :
      {select : Delivery → Option Delivery} {cfg : Config} {db db' : Db p}
      → MovedBy p select cfg db db'
      → IsValid p db
      → Separated select db db'
  MovedBy-Separated {select} {cfg} {db} {db'} m v =
      let u = move_matching-eq-ok p cfg select db m.middle m.scan m.moved in
      record {
        left = λ k r h.
            let (before, out) =
              Matching_left p u v.accounts k h.raw r (ground (arith, m.same.deliveries, h.stored))
                h.decoded in
            (record { raw = h.raw; stored = before; decoded = h.decoded }, out);
        kept = λ k r h n. record {
          raw = h.raw;
          stored = ground (
            arith,
            m.same.deliveries,
            Matching_kept p u v.accounts k h.raw r h.stored h.decoded n,
          );
          decoded = h.decoded;
        };
        moved = λ k r r' h n.
            let (gone, encoded, marshalled, stored) =
              Matching-IsMoved p u v.accounts k h.raw r r' h.stored h.decoded n in
            (
              ground (arith, m.same.deliveries, gone),
              record {
                raw = encoded;
                stored = ground (arith, m.same.quarantine, stored);
                decoded = decode-marshal p r' encoded marshalled;
              },
            );
      }

  -- The picked deliveries left the queue for the quarantine, in the state, at the time and with the
  -- reason of their quarantine; the queue is what was in it before and is not picked.
  pub record Isolated (now : Time) (IsPicked : Delivery → Type 0) (reason : Delivery → Text)
      (db db' : Db p) : Type 0 where
    pub left :
        (k : Text) (r : Delivery)
        → Holding p db'.deliveries k r
        → Holding p db.deliveries k r × ¬ IsPicked r
    pub kept :
        (k : Text) (r : Delivery)
        → Holding p db.deliveries k r
        → ¬ IsPicked r
        → Holding p db'.deliveries k r
    pub moved :
        (k : Text) (r : Delivery)
        → Holding p db.deliveries k r
        → IsPicked r
        → (get db'.deliveries k ≡ none)
          × (r' : Delivery) × Holding p db'.quarantine k r'
          × IsQuarantined now (reason r) r r'

  isolate :
      {now : Time} {IsPicked : Delivery → Type 0} {reason : Delivery → Text}
      {select : Delivery → Option Delivery} {db db' : Db p}
      → ((r : Delivery) → Picks now (IsPicked r) (reason r) r (select r))
      → Separated select db db'
      → Isolated now IsPicked reason db db'
  isolate picks s = record {
    left =
        λ k r h. let (before, out) = s.left k r h in (before, λ i. cc (((picks r).taken i).1, out));
    kept = λ k r h n. s.kept k r h ((picks r).spared n);
    moved = λ k r h i.
        let (r', e, q) = (picks r).taken i in
        let (gone, held) = s.moved k r r' h e in (gone, r', held, q);
  }

  -- If the database is valid and the binding is not the one that was reconciled last, a successful
  -- `ReconcileBinding` moves to quarantine exactly the deliveries of another installation, owner or
  -- agent: for a reset if the installation differs, and otherwise for a rebinding.
  pub reconcile_binding-Isolated :
      (cfg : Config) (now : Time) (b : Binding) (db : Db p) (r : Db p × BindingReconcileResult)
      → IsValid p db
      → already_reconciled p db (trim_binding b) ≡ false
      → reconcile_binding p cfg now b db ≡ ok r
      → Isolated now
          (λ x. ¬ IsOwn b x)
          (λ x.
            if text_eq x.installation_id (trim b.installation_id)
            then codes "credential_rebind_required"
            else codes "installation_reset")
          db
          r.0
  reconcile_binding-Isolated cfg now b db r v e h =
      elim (reconcile_binding-cases p cfg now b db r h) [
        | inl (done, same) ↦ absurd (cc (done, e))
        | inr m ↦ isolate (rebound-Picks now b) (MovedBy-Separated m v)
      ]

  -- A successful `QuarantineByReceiver` on a valid database moves to quarantine exactly the deliveries
  -- of the agent, for the given reason.
  pub quarantine_by_receiver-Isolated :
      (cfg : Config) (now : Time) (agent reason : Text) (f : AttemptFailure) (db : Db p)
      (r : Db p × ℕ)
      → IsValid p db
      → quarantine_by_receiver p cfg now agent reason f db ≡ ok r
      → Isolated now (λ x. x.receiver_agent_id_snapshot ≡ trim agent) (λ x. trim reason) db r.0
  quarantine_by_receiver-Isolated cfg now agent reason f db r v h =
      isolate (of_receiver-Picks now agent reason f)
        (MovedBy-Separated (quarantine_by_receiver-MovedBy p cfg now agent reason f db r h) v)

  -- A successful `QuarantineInstallationRotation` on a valid database has read the journal entry. In
  -- the phase of the intent it moves to quarantine exactly the deliveries of the old installation; in
  -- a later phase it changes nothing.
  pub quarantine_rotation-Isolated :
      (cfg : Config) (now : Time) (db : Db p) (r : Db p × InstallationRotation)
      → IsValid p db
      → quarantine_rotation p cfg now db ≡ ok r
      → (j : InstallationRotation) × Journal p db j
        × (((phase_eq j.phase intent ≡ false) × (r ≡ (db, j)))
            ⊎ ((phase_eq j.phase intent ≡ true)
                × Isolated now
                    (λ x. x.installation_id ≡ j.old_installation_id)
                    (λ x. codes "installation_rotated")
                    db
                    r.0))
  quarantine_rotation-Isolated cfg now db r v h =
      let (j, journal, cases) = quarantine_rotation-cases p cfg now db r h in
      elim cases [
        | inl (phase, same) ↦ (j, journal, inl (phase, same))
        | inr (phase, result) ↦ (
          j,
          journal,
          inr (
            phase,
            isolate (of_installation-Picks now j.old_installation_id)
                (MovedBy-Separated (quarantine_old-MovedBy p cfg now j db r result) v),
          ),
        )
      ]
