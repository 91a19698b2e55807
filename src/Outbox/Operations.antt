-- ===== src/Outbox/Operations.antt =====
-- The methods of `Store` that change it, as one type of operations: each runs its transaction by
-- `Store.update`, and a caller sees the store that it leaves.
pub mod Validity
use loramapr_receiver.Base.{ℕ, Bool, List, [], ◌∷◌, Text, Result, ok, ◌>>=◌}
use loramapr_receiver.Outbox.Types.{
  Delivery, DispatchPause, Time, AttemptFailure, Binding, InstallationRotation,
  InstallationRotationPhase,
}
use loramapr_receiver.Outbox.Platform.{Platform}
use loramapr_receiver.Outbox.Db.{Db}
use loramapr_receiver.Outbox.Store.{Store, update, close}
use loramapr_receiver.Outbox.Attempts.{mark_inflight, retry}
use loramapr_receiver.Outbox.Enqueue.{enqueue}
use loramapr_receiver.Outbox.Prune.{prune_quarantine}
use loramapr_receiver.Outbox.Pause.{
  pause_delivery, clear_resolved_pause, resolve_delivery_collision,
}
use loramapr_receiver.Outbox.Quarantine.{quarantine, quarantine_by_receiver, delete_delivery}
use loramapr_receiver.Outbox.Reconcile.{reconcile_binding}
use loramapr_receiver.Outbox.Rotation.{begin_rotation, quarantine_rotation, advance_rotation}

pub data Operation : Type 0 where
  enqueues : Time → Delivery → Operation
  marks_inflight : Text → Operation
  retries : Text → Time → AttemptFailure → Operation
  pauses : Time → Text → DispatchPause → AttemptFailure → Operation
  clears_pause : Binding → Operation
  resolves_collision : Time → Text → Operation
  quarantines : Time → Text → Text → AttemptFailure → Operation
  quarantines_receiver : Time → Text → Text → AttemptFailure → Operation
  reconciles : Time → Binding → Operation
  deletes : Text → Operation
  prunes : Time → Operation
  begins_rotation : Time → InstallationRotation → Operation
  quarantines_rotation : Time → Operation
  advances_rotation : Time → InstallationRotationPhase → InstallationRotationPhase → Operation
  closes : Operation

module _ (p : Platform) where
  -- A transaction with no result of its own.
  abbrev pub plain : (Db p → Result (Db p)) → Db p → Result (Db p × Unit {0})
  plain fn db = fn db >>= λ db'. ok (db', tt)

  unfoldable pub perform : Operation → Store p → Store p
  perform (enqueues now input) s = (enqueue p now input s).0
  perform (marks_inflight id) s = (update p s (plain (mark_inflight p s.cfg id))).0
  perform (retries id next f) s = (update p s (plain (retry p s.cfg id next f))).0
  perform (pauses now id pause f) s = (update p s (plain (pause_delivery p s.cfg now id pause f))).0
  perform (clears_pause b) s = (update p s (clear_resolved_pause p b)).0
  perform (resolves_collision now id) s =
      (update p s (plain (resolve_delivery_collision p s.cfg now id))).0
  perform (quarantines now id reason f) s =
      (update p s (plain (quarantine p s.cfg now id reason f))).0
  perform (quarantines_receiver now agent reason f) s =
      (update p s (quarantine_by_receiver p s.cfg now agent reason f)).0
  perform (reconciles now b) s = (update p s (reconcile_binding p s.cfg now b)).0
  perform (deletes id) s = (update p s (plain (delete_delivery p id))).0
  perform (prunes now) s = (prune_quarantine p now s).0
  perform (begins_rotation now r) s = (update p s (begin_rotation p now r)).0
  perform (quarantines_rotation now) s = (update p s (quarantine_rotation p s.cfg now)).0
  perform (advances_rotation now expected next) s =
      (update p s (advance_rotation p now expected next)).0
  perform closes s = close p s

  unfoldable pub perform_all : List Operation → Store p → Store p
  perform_all [] s = s
  perform_all (o ∷ os) s = perform_all os (perform o s)
