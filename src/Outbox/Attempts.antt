-- ===== src/Outbox/Attempts.antt =====
-- store.go: `NextDue`, `updateDelivery`, `MarkInflight`, `Retry` and `Get`.
use loramapr_receiver.Base.{
  ◌+◌, Bool, true, false, Option, none, some, List, [], ◌∷◌, Text, trim, Result, ok, err, ◌>>=◌,
  ◌>>◌, refuse, outbox_full, delivery_not_pending, delivery_not_found, ltb, if◌then◌else◌,
}
use loramapr_receiver.Outbox.Types.{Delivery, pending, inflight, Config, Time, AttemptFailure}
use loramapr_receiver.Outbox.Keys.{due_timestamp}
use loramapr_receiver.Outbox.Platform.{Platform}
use loramapr_receiver.Outbox.Db.{
  Db, signed, plus, minus, exceeds, decode_delivery, write_counters, delivery_due_key, try_put,
}

-- The fields that `Retry` and `PauseDelivery` set alike.
abbrev pub record_failure : AttemptFailure → Delivery → Delivery
record_failure f r = record r {
  last_status_code = f.status_code;
  last_error_code = trim f.error_code;
  last_error = trim f.message;
  last_request_id = trim f.request_id;
}

-- The mutation of `MarkInflight`.
unfoldable pub set_inflight : Delivery → Result Delivery
set_inflight r = elim r.state [
  | pending ↦ ok (record r { state = inflight })
  | _ ↦ err delivery_not_pending
]

-- The mutation of `Retry`.
unfoldable pub set_retry : Time → AttemptFailure → Delivery → Result Delivery
set_retry next f r = ok (record (record_failure f r) {
  state = pending;
  attempts = r.attempts + 1;
  next_attempt_at = next;
})

module _ (p : Platform) where
  open p use {
    Raw, raw_size, marshal_delivery, unmarshal_delivery, Bucket, get, put, delete, entries,
  }

  -- The first key of the cursor, its test and the decoding of the delivery that it names.
  unfoldable pub first_due : Db p → Time → List (Text × Text) → Result (Option Delivery)
  first_due db now [] = ok none
  first_due db now ((key, delivery_id) ∷ rest) =
      if ltb now (due_timestamp key)
      then ok none
      else do r ← decode_delivery p (get db.deliveries delivery_id); ok (some r)

  unfoldable pub next_due : Db p → Time → Result (Option Delivery)
  unfolding first_due
  next_due db now = first_due db now (entries db.due_index)

  -- `if makeDue { … Put(dueKey(record), key) }`
  abbrev pub put_due : Bool → Bucket Text → Delivery → Text → Result (Bucket Text)
  put_due make_due due r id = if make_due then try_put p due (delivery_due_key r) id else ok due

  unfoldable pub update_delivery :
      Config → Text → (Delivery → Result Delivery) → Bool → Db p → Result (Db p)
  update_delivery cfg id mutate make_due db = elim (get db.deliveries id) [
    | none ↦ err delivery_not_found
    | some raw ↦ do
      old ← decode_delivery p (some raw)
      r ← mutate old
      encoded ← marshal_delivery r
      let used = plus (minus (signed db.used_bytes) (raw_size raw)) (raw_size encoded)
      refuse (exceeds used cfg.max_bytes) outbox_full
      due ← put_due make_due (delete db.due_index (delivery_due_key old)) r id
      deliveries ← try_put p db.deliveries id encoded
      write_counters p (signed db.total_count) used
          (record db { deliveries = deliveries; due_index = due })
  ]

  unfoldable pub mark_inflight : Config → Text → Db p → Result (Db p)
  mark_inflight cfg id = update_delivery cfg id set_inflight false

  unfoldable pub retry : Config → Text → Time → AttemptFailure → Db p → Result (Db p)
  retry cfg id next f = update_delivery cfg id (set_retry next f) true

  -- `Store.Get`
  unfoldable pub find : Db p → Text → Result Delivery
  find db id = elim (get db.deliveries id) [
    | some raw ↦ decode_delivery p (some raw)
    | none ↦ decode_delivery p (get db.quarantine id)
  ]
