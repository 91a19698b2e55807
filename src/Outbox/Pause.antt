-- ===== src/Outbox/Pause.antt =====
-- store.go: `PauseDelivery`, `DispatchPause`, `ClearResolvedPause` and `ResolveDeliveryCollision`.
use loramapr_receiver.Base.{
  ◌+◌, Bool, true, false, ◌&&◌, ◌||◌, Option, none, some, Text, codes, text_eq, Result, ok, err,
  ◌>>=◌, ◌>>◌, guard, refuse, pause_kind_required, unknown_pause_kind, dispatch_pause_mismatch,
  delivery_not_found, outbox_full, ltb, ◌==◌, if◌then◌else◌,
}
use loramapr_receiver.Outbox.Types.{
  Delivery, DispatchPause, DispatchPauseKind, pending, Binding, Config, Time, AttemptFailure,
}
use loramapr_receiver.Outbox.Platform.{Platform}
use loramapr_receiver.Outbox.Db.{
  Db, signed, plus, minus, exceeds, decode_delivery, write_counters, delivery_due_key, try_put,
}
use loramapr_receiver.Outbox.Attempts.{record_failure}
use loramapr_receiver.Outbox.Quarantine.{into_quarantine, move_one}

abbrev pub is_no_kind : DispatchPauseKind → Bool
is_no_kind DispatchPauseKind.empty = true
is_no_kind _ = false

abbrev pub is_collision : DispatchPauseKind → Bool
is_collision DispatchPauseKind.collision = true
is_collision _ = false

-- The delivery that `PauseDelivery` writes back.
abbrev pub paused : AttemptFailure → Delivery → Delivery
paused f r = record (record_failure f r) { state = pending; attempts = r.attempts + 1 }

abbrev pub stamp_pause : Time → Text → DispatchPause → DispatchPause
stamp_pause now id pause = record pause {
  delivery_id = id;
  paused_at = if pause.paused_at == 0 then now else pause.paused_at;
}

-- The switch of `ClearResolvedPause`.
unfoldable pub resolves : Binding → DispatchPause → Result Bool
resolves b pause = elim pause.kind [
  | DispatchPauseKind.credential ↦ ok (
      ltb pause.credential_generation b.credential_generation
      || ltb pause.binding_generation b.binding_generation)
  | DispatchPauseKind.binding ↦ ok (ltb pause.binding_generation b.binding_generation)
  | DispatchPauseKind.collision ↦ ok false
  | _ ↦ err unknown_pause_kind
]

abbrev pub collision_resolved : Text
collision_resolved = codes "delivery_id_collision_operator_resolved"

module _ (p : Platform) where
  open p use {
    Raw, raw_size, marshal_delivery, marshal_pause, unmarshal_pause, Bucket, get, put, delete,
    entries,
  }

  unfoldable pub pause_delivery :
      Config → Time → Text → DispatchPause → AttemptFailure → Db p → Result (Db p)
  pause_delivery cfg now id pause f db = do
    refuse (is_no_kind pause.kind) pause_kind_required
    elim (get db.deliveries id) [
      | none ↦ err delivery_not_found
      | some raw ↦ do
        old ← decode_delivery p (some raw)
        let r = paused f old
        encoded ← marshal_delivery r
        pause_bytes ← marshal_pause (stamp_pause now id pause)
        let used = plus (minus (signed db.used_bytes) (raw_size raw)) (raw_size encoded)
        refuse (exceeds used cfg.max_bytes) outbox_full
        due ← try_put p (delete db.due_index (delivery_due_key old)) (delivery_due_key r) id
        deliveries ← try_put p db.deliveries id encoded
        write_counters p (signed db.total_count) used (record db {
          deliveries = deliveries;
          due_index = due;
          dispatch_pause = some pause_bytes;
        })
    ]

  -- `Store.DispatchPause`
  unfoldable pub read_pause : Db p → Result (Option DispatchPause)
  read_pause db = elim db.dispatch_pause [
    | none ↦ ok none
    | some raw ↦ do pause ← unmarshal_pause raw; ok (some pause)
  ]

  -- The result tells whether the pause was cleared.
  unfoldable pub clear_resolved_pause : Binding → Db p → Result (Db p × Bool)
  clear_resolved_pause b db = elim db.dispatch_pause [
    | none ↦ ok (db, false)
    | some raw ↦ do
      pause ← unmarshal_pause raw
      cleared ← resolves b pause
      ok (if cleared then record db { dispatch_pause = none } else db, cleared)
  ]

  unfoldable pub resolve_delivery_collision : Config → Time → Text → Db p → Result (Db p)
  resolve_delivery_collision cfg now id db = elim db.dispatch_pause [
    | none ↦ err dispatch_pause_mismatch
    | some raw_pause ↦ do
      pause ← unmarshal_pause raw_pause
      guard (is_collision pause.kind && text_eq pause.delivery_id id) dispatch_pause_mismatch
      elim (get db.deliveries id) [
        | none ↦ err delivery_not_found
        | some raw ↦ do
          old ← decode_delivery p (some raw)
          (db', used) ←
              move_one p cfg
                (record {
                  key = id;
                  raw = raw;
                  old = old;
                  new = into_quarantine now collision_resolved old;
                })
                (db, signed db.used_bytes)
          write_counters p (signed db.total_count) used (record db' { dispatch_pause = none })
      ]
  ]
