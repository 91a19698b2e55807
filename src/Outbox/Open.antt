-- ===== src/Outbox/Open.antt =====
-- store.go: what `Open` does with an opened database: `initialize`, `rebuildCounters`,
-- `resetInflight`, the first pruning, and the defaults of the configuration.
use loramapr_receiver.Base.{
  ℕ, ◌+◌, ◌*◌, ◌^◌, Bool, true, false, List, [], ◌∷◌, none, some, Text, codes, text_eq, Result, ok,
  err, ◌>>=◌, ◌>>◌, guard, unknown_schema, invalid_durable_state, ◌==◌, if◌then◌else◌,
}
use loramapr_receiver.Base.Entries.{total}
use loramapr_receiver.Outbox.Types.{
  Delivery, State, pending, inflight, Config, Time, default_max_events, default_max_bytes,
}
use loramapr_receiver.Outbox.Platform.{Platform}
use loramapr_receiver.Outbox.Db.{
  Db, signed, decode_delivery, write_counters, delivery_due_key, try_put,
}
use loramapr_receiver.Outbox.Store.{Store}
use loramapr_receiver.Outbox.Prune.{prune_quarantine}

-- 30 days, in nanoseconds.
abbrev pub default_quarantine_retention : ℕ
default_quarantine_retention = 30 * 24 * 3600 * 10 ^ 9

-- `withDefaults`, where a value that is not positive reads 0.
unfoldable pub with_defaults : Config → Config
with_defaults cfg = record {
  max_events = if cfg.max_events == 0 then default_max_events else cfg.max_events;
  max_bytes = if cfg.max_bytes == 0 then default_max_bytes else cfg.max_bytes;
  quarantine_retention =
      if cfg.quarantine_retention == 0
      then default_quarantine_retention
      else cfg.quarantine_retention;
}

-- The state and the due time of a delivery after a restart.
abbrev pub restarted : Time → Delivery → Delivery
restarted now r = elim r.state [
  | inflight ↦ record r { state = pending; next_attempt_at = now }
  | _ ↦ r
]

abbrev pub is_pending : State → Bool
is_pending pending = true
is_pending _ = false

module _ (p : Platform) where
  open p use {Raw, raw_size, marshal_delivery, Bucket, empty, entries}

  -- The number and the size of the entries of both buckets.
  unfoldable pub rebuild_counters : Db p → Result (Db p)
  rebuild_counters db =
      write_counters p
        (signed (total (λ _. 1) (entries db.deliveries) + total (λ _. 1) (entries db.quarantine)))
        (signed (total raw_size (entries db.deliveries) + total raw_size (entries db.quarantine)))
        db

  -- `SchemaVersion` is 1; `Atoi` also reads it with a sign or leading zeros, which are not written.
  unfoldable pub initialize : Db p → Result (Db p)
  unfolding rebuild_counters
  initialize db = elim db.schema_version [
    | none ↦ rebuild_counters (record db { schema_version = some (codes "1") })
    | some v ↦ if text_eq v (codes "1") then rebuild_counters db else err unknown_schema
  ]

  unfoldable pub decode_all : List (Text × Raw) → Result (List (Text × Delivery))
  decode_all [] = ok []
  decode_all ((key, raw) ∷ rest) = do
    r ← decode_delivery p (some raw)
    rs ← decode_all rest
    ok ((key, r) ∷ rs)

  -- One round of the loop of `resetInflight`.
  unfoldable pub reset_one :
      Time → Text → Delivery → Bucket Raw × Bucket Text → Result (Bucket Raw × Bucket Text)
  reset_one now key old (deliveries, due) = do
    let r = restarted now old
    guard (is_pending r.state) invalid_durable_state
    encoded ← marshal_delivery r
    deliveries' ← try_put p deliveries key encoded
    due' ← try_put p due (delivery_due_key r) key
    ok (deliveries', due')

  unfoldable pub reset_loop :
      Time → List (Text × Delivery) → Bucket Raw × Bucket Text → Result (Bucket Raw × Bucket Text)
  reset_loop now [] st = ok st
  reset_loop now ((key, r) ∷ rest) st = reset_one now key r st >>= λ st'. reset_loop now rest st'

  unfoldable pub reset_inflight : Time → Db p → Result (Db p)
  reset_inflight now db = do
    records ← decode_all (entries db.deliveries)
    (deliveries, due) ← reset_loop now records (db.deliveries, empty)
    rebuild_counters (record db { deliveries = deliveries; due_index = due })

  -- `Open`, from the database that bbolt opened.
  unfoldable pub open_db : Time → Db p → Result (Db p)
  open_db now db = initialize db >>= reset_inflight now

  unfoldable pub open_store : Config → Time → Db p → Result (Store p)
  open_store cfg now db = do
    db' ← open_db now db
    ok
        (prune_quarantine p now
          (record { db = some db'; cfg = with_defaults cfg; maintenance_error = none })).0
