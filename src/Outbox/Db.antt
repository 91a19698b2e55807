-- ===== src/Outbox/Db.antt =====
-- store.go: the buckets of the database, the counters kept beside them, and the helpers that every
-- transaction uses. A transaction is a function from the database to a result with the database
-- that it commits; an error commits nothing, as `bolt.DB.Update` rolls back.
use loramapr_receiver.Base.{
  ℕ, ◌+◌, ◌-◌, Bool, ◌||◌, Option, none, some, Text, Result, ok, err, counters_underflow,
  delivery_not_found, put_refused, ltb, ◌==◌, if◌then◌else◌,
}
use loramapr_receiver.Outbox.Types.{Delivery, Signed}
use loramapr_receiver.Outbox.Keys.{due_key}
use loramapr_receiver.Outbox.Platform.{Platform}

abbrev pub signed : ℕ → Signed
signed n = record { plus = n; minus = 0 }

-- `value + n`, `value - n`, `value > bound`
abbrev pub plus : Signed → ℕ → Signed
plus v n = record v { plus = v.plus + n }

abbrev pub minus : Signed → ℕ → Signed
minus v n = record v { minus = v.minus + n }

abbrev pub exceeds : Signed → ℕ → Bool
exceeds v bound = ltb (bound + v.minus) v.plus

abbrev pub is_negative : Signed → Bool
is_negative v = ltb v.plus v.minus

-- The key of a delivery in the due index.
abbrev pub delivery_due_key : Delivery → Text
delivery_due_key r = due_key r.next_attempt_at r.sequence r.delivery_id

module _ (p : Platform) where
  open p use {Raw, raw_size, unmarshal_delivery, Bucket, accepts, put, delete}

  -- The buckets `deliveries` (with its sequence), `due_index`, `quarantine`, `stats` and `meta`.
  pub record Db : Type 0 where
    pub deliveries : Bucket Raw
    pub sequence : ℕ
    pub due_index : Bucket Text
    pub quarantine : Bucket Raw
    pub total_count : ℕ
    pub used_bytes : ℕ
    pub schema_version : Option Text
    pub dispatch_pause : Option Raw
    pub installation_rotation : Option Raw
    pub reconciled_binding : Option Raw

  -- `if err := bucket.Put(key, value); err != nil { return err }`
  abbrev pub try_put : {V : Type 0} → Bucket V → Text → V → Result (Bucket V)
  try_put b k v = if accepts k v then ok (put b k v) else err put_refused

  unfoldable pub decode_delivery : Option Raw → Result Delivery
  decode_delivery none = err delivery_not_found
  decode_delivery (some raw) =
      if raw_size raw == 0 then err delivery_not_found else unmarshal_delivery raw

  unfoldable pub write_counters : Signed → Signed → Db → Result Db
  write_counters count used db =
      if is_negative count || is_negative used
      then err counters_underflow
      else ok (record db {
        total_count = count.plus - count.minus;
        used_bytes = used.plus - used.minus;
      })
