-- ===== src/Outbox/Rotation.antt =====
-- store.go: the journal of an installation rotation.
use loramapr_receiver.Base.{
  Bool, true, false, ◌||◌, List, [], ◌∷◌, Option, none, some, Text, codes, trim, is_empty, text_eq,
  Result, ok, err, ◌>>=◌, ◌>>◌, refuse, rotation_ids_required, rotation_missing,
  rotation_phase_mismatch, length, if◌then◌else◌,
}
use loramapr_receiver.Outbox.Types.{
  Delivery, InstallationRotation, InstallationRotationPhase, intent, old_binding_quarantined,
  state_rotated, completed, Config, Time,
}
use loramapr_receiver.Outbox.Platform.{Platform}
use loramapr_receiver.Outbox.Db.{Db}
use loramapr_receiver.Outbox.Quarantine.{Matched, Scan, into_quarantine, move_matching}

abbrev pub phase_eq : InstallationRotationPhase → InstallationRotationPhase → Bool
phase_eq intent intent = true
phase_eq old_binding_quarantined old_binding_quarantined = true
phase_eq state_rotated state_rotated = true
phase_eq completed completed = true
phase_eq _ _ = false

abbrev pub trim_rotation : InstallationRotation → InstallationRotation
trim_rotation r = record r {
  old_installation_id = trim r.old_installation_id;
  new_installation_id = trim r.new_installation_id;
  reason = trim r.reason;
}

-- The journal entry that a new rotation writes.
abbrev pub begun : Time → InstallationRotation → InstallationRotation
begun now r = record r { phase = intent; started_at = now; updated_at = now; quarantined = 0 }

abbrev pub lacks_ids : InstallationRotation → Bool
lacks_ids r =
    is_empty r.old_installation_id
    || is_empty r.new_installation_id
    || text_eq r.old_installation_id r.new_installation_id

abbrev pub rotated_out : Time → Delivery → Delivery
rotated_out now r = record (into_quarantine now (codes "installation_rotated") r) {
  last_error_code = codes "INSTALLATION_ROTATED";
  last_error = codes "pending normalized delivery belongs to a rotated receiver installation";
}

abbrev pub of_installation : Time → Text → Delivery → Option Delivery
of_installation now old_id r =
    if text_eq r.installation_id old_id then some (rotated_out now r) else none

module _ (p : Platform) where
  open p use {Raw, marshal_rotation, unmarshal_rotation, unmarshal_pause}

  -- `Store.InstallationRotation`
  unfoldable pub read_rotation : Db p → Result (Option InstallationRotation)
  read_rotation db = elim db.installation_rotation [
    | none ↦ ok none
    | some raw ↦ do r ← unmarshal_rotation raw; ok (some r)
  ]

  abbrev pub write_rotation : InstallationRotation → Db p → Result (Db p × InstallationRotation)
  write_rotation r db = do
    encoded ← marshal_rotation r
    ok (record db { installation_rotation = some encoded }, r)

  -- A rotation that is not completed stands, and is returned.
  unfoldable pub begin_or_resume :
      Time
      → InstallationRotation
      → Option InstallationRotation
      → Db p
      → Result (Db p × InstallationRotation)
  begin_or_resume now r none db = write_rotation (begun now r) db
  begin_or_resume now r (some old) db =
      if phase_eq old.phase completed then write_rotation (begun now r) db else ok (db, old)

  unfoldable pub begin_rotation :
      Time → InstallationRotation → Db p → Result (Db p × InstallationRotation)
  unfolding begin_or_resume read_rotation
  begin_rotation now rotation db = do
    let r = trim_rotation rotation
    refuse (lacks_ids r) rotation_ids_required
    stored ← read_rotation db
    begin_or_resume now r stored db

  -- Does a moved delivery carry this identifier?
  unfoldable pub moves_id : Text → List (Matched p) → Bool
  moves_id id [] = false
  moves_id id (m ∷ ms) = text_eq id m.old.delivery_id || moves_id id ms

  unfoldable pub clear_moved_pause : List (Matched p) → Db p → Result (Db p)
  clear_moved_pause ms db = elim db.dispatch_pause [
    | none ↦ ok db
    | some raw ↦ do
      pause ← unmarshal_pause raw
      ok (if moves_id pause.delivery_id ms then record db { dispatch_pause = none } else db)
  ]

  -- What follows the loop: the pause of a moved delivery ends, and the journal advances.
  unfoldable pub finish_rotation :
      Time → InstallationRotation → Db p × Scan p → Result (Db p × InstallationRotation)
  unfolding clear_moved_pause
  finish_rotation now r (db, scan) = do
    db' ← clear_moved_pause scan.matches db
    write_rotation
        (record r {
          phase = old_binding_quarantined;
          quarantined = length scan.matches;
          updated_at = now;
        })
        db'

  unfoldable pub quarantine_old :
      Config → Time → InstallationRotation → Db p → Result (Db p × InstallationRotation)
  quarantine_old cfg now r db =
      move_matching p cfg (of_installation now r.old_installation_id) db >>= finish_rotation now r

  -- `if result.Phase != InstallationRotationIntent { return nil }`, and the rest.
  unfoldable pub from_intent :
      Config → Time → InstallationRotation → Db p → Result (Db p × InstallationRotation)
  from_intent cfg now r db =
      if phase_eq r.phase intent then quarantine_old cfg now r db else ok (db, r)

  unfoldable pub quarantine_rotation : Config → Time → Db p → Result (Db p × InstallationRotation)
  quarantine_rotation cfg now db = elim db.installation_rotation [
    | none ↦ err rotation_missing
    | some raw ↦ do r ← unmarshal_rotation raw; from_intent cfg now r db
  ]

  unfoldable pub advance_from :
      Time
      → InstallationRotationPhase
      → InstallationRotationPhase
      → InstallationRotation
      → Db p
      → Result (Db p × InstallationRotation)
  advance_from now expected next r db =
      if phase_eq r.phase next
      then ok (db, r)
      else if phase_eq r.phase expected
      then write_rotation (record r { phase = next; updated_at = now }) db
      else err rotation_phase_mismatch

  unfoldable pub advance_rotation :
      Time
      → InstallationRotationPhase
      → InstallationRotationPhase
      → Db p
      → Result (Db p × InstallationRotation)
  unfolding advance_from
  advance_rotation now expected next db = elim db.installation_rotation [
    | none ↦ err rotation_missing
    | some raw ↦ do r ← unmarshal_rotation raw; advance_from now expected next r db
  ]
