-- ===== src/Outbox/Quarantine.antt =====
-- store.go: the step that moves a delivery into quarantine, the loop of the operations that move
-- many, `Quarantine`, `QuarantineByReceiver` and `Delete`.
use loramapr_receiver.Base.{
  ◌+◌, ℕ, List, [], ◌∷◌, Option, none, some, Text, trim, is_empty, text_eq, Result, ok, err, ◌>>=◌,
  ◌>>◌, refuse, delivery_not_found, receiver_required, outbox_full, length, if◌then◌else◌,
}
use loramapr_receiver.Outbox.Types.{Delivery, Signed, quarantined, Config, Time, AttemptFailure}
use loramapr_receiver.Outbox.Platform.{Platform}
use loramapr_receiver.Outbox.Db.{
  Db, signed, plus, minus, exceeds, decode_delivery, write_counters, delivery_due_key, try_put,
}
use loramapr_receiver.Outbox.Attempts.{record_failure}

-- The fields that every move into quarantine sets.
abbrev pub into_quarantine : Time → Text → Delivery → Delivery
into_quarantine now reason r = record r {
  state = quarantined;
  quarantined_at = now;
  quarantine_reason = reason;
}

-- `QuarantineByReceiver` leaves the request identifier alone.
abbrev pub receiver_quarantined : Time → Text → AttemptFailure → Delivery → Delivery
receiver_quarantined now reason f r = record (into_quarantine now (trim reason) r) {
  last_status_code = f.status_code;
  last_error_code = trim f.error_code;
  last_error = trim f.message;
}

abbrev pub of_receiver : Time → Text → Text → AttemptFailure → Delivery → Option Delivery
of_receiver now agent reason f r =
    if text_eq r.receiver_agent_id_snapshot agent
    then some (receiver_quarantined now reason f r)
    else none

module _ (p : Platform) where
  open p use {Raw, raw_size, marshal_delivery, get, delete, entries}

  -- A delivery that a bulk operation moves, with its stored bytes and what it becomes.
  pub record Matched : Type 0 where
    pub key : Text
    pub raw : Raw
    pub old : Delivery
    pub new : Delivery

  -- `old` becomes `new` under `quarantine`; `used` is the running byte counter.
  unfoldable pub move_one : Config → Matched → Db p × Signed → Result (Db p × Signed)
  move_one cfg m (db, used) = do
    encoded ← marshal_delivery m.new
    let used' = plus (minus used (raw_size m.raw)) (raw_size encoded)
    refuse (exceeds used' cfg.max_bytes) outbox_full
    quarantine ← try_put p db.quarantine m.key encoded
    ok (
      record db {
        deliveries = delete db.deliveries m.key;
        due_index = delete db.due_index (delivery_due_key m.old);
        quarantine = quarantine;
      },
      used',
    )

  unfoldable pub move_all : Config → List Matched → Db p × Signed → Result (Db p × Signed)
  move_all cfg [] st = ok st
  move_all cfg (m ∷ ms) st = move_one cfg m st >>= λ st'. move_all cfg ms st'

  -- The outcome of a scan of the queue: the matches, and the number of the other deliveries.
  pub record Scan : Type 0 where
    pub matches : List Matched
    pub kept : ℕ

  abbrev pub match_if : Option Delivery → Text → Raw → Delivery → Scan → Scan
  match_if none key raw r s = record s { kept = s.kept + 1 }
  match_if (some r') key raw r s = record s {
    matches = record { key = key; raw = raw; old = r; new = r' } ∷ s.matches;
  }

  -- `deliveries.ForEach`: the deliveries that `select` picks, with what it makes of them.
  unfoldable pub collect : (Delivery → Option Delivery) → List (Text × Raw) → Result Scan
  collect select [] = ok (record { matches = []; kept = 0 })
  collect select ((key, raw) ∷ rest) = do
    r ← decode_delivery p (some raw)
    s ← collect select rest
    ok (match_if (select r) key raw r s)

  -- The loop over the matches, and the counters that it leaves.
  unfoldable pub settle : Config → List Matched → Db p → Result (Db p)
  settle cfg ms db = do
    (db', used) ← move_all cfg ms (db, signed db.used_bytes)
    write_counters p (signed db.total_count) used db'

  -- The scan and the loop of the bulk operations.
  unfoldable pub move_matching : Config → (Delivery → Option Delivery) → Db p → Result (Db p × Scan)
  move_matching cfg select db = do
    scan ← collect select (entries db.deliveries)
    db' ← settle cfg scan.matches db
    ok (db', scan)

  unfoldable pub quarantine : Config → Time → Text → Text → AttemptFailure → Db p → Result (Db p)
  quarantine cfg now id reason f db = elim (get db.deliveries id) [
    | none ↦ err delivery_not_found
    | some raw ↦ do
      old ← decode_delivery p (some raw)
      (db', used) ←
          move_one cfg
            (record {
              key = id;
              raw = raw;
              old = old;
              new = record_failure f (into_quarantine now (trim reason) old);
            })
            (db, signed db.used_bytes)
      write_counters p (signed db.total_count) used db'
  ]

  unfoldable pub quarantine_by_receiver :
      Config → Time → Text → Text → AttemptFailure → Db p → Result (Db p × ℕ)
  quarantine_by_receiver cfg now agent reason f db = do
    refuse (is_empty (trim agent)) receiver_required
    (db', scan) ← move_matching cfg (of_receiver now (trim agent) reason f) db
    ok (db', length scan.matches)

  -- `Delete` of a delivery that is queued or in quarantine.
  unfoldable pub delete_delivery : Text → Db p → Result (Db p)
  delete_delivery id db = elim (get db.deliveries id) [
    | some raw ↦ do
      r ← decode_delivery p (some raw)
      write_counters p (minus (signed db.total_count) 1)
          (minus (signed db.used_bytes) (raw_size raw))
          (record db {
            deliveries = delete db.deliveries id;
            due_index = delete db.due_index (delivery_due_key r);
          })
    | none ↦ elim (get db.quarantine id) [
      | some raw ↦
          write_counters p (minus (signed db.total_count) 1)
            (minus (signed db.used_bytes) (raw_size raw))
            (record db { quarantine = delete db.quarantine id })
      | none ↦ err delivery_not_found
    ]
  ]
