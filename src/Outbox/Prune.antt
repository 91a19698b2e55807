-- ===== src/Outbox/Prune.antt =====
-- store.go: `PruneQuarantine` and `pruneQuarantineTx`.
use loramapr_receiver.Base.{
  ℕ, ◌+◌, Bool, ◌||◌, List, [], ◌∷◌, none, some, Text, Result, ok, err, ◌>>=◌, ltb,
  outbox_prune_failed, ◌==◌, if◌then◌else◌,
}
use loramapr_receiver.Outbox.Types.{Delivery, Signed, Time}
use loramapr_receiver.Outbox.Platform.{Platform}
use loramapr_receiver.Outbox.Db.{Db, signed, minus, decode_delivery, write_counters}
use loramapr_receiver.Outbox.Store.{Store, update}

-- The variables of the pruning loop.
pub record Pruning (V : Type 0) : Type 0 where
  pub bucket : V
  pub count : Signed
  pub used : Signed
  pub removed : ℕ

-- `QuarantinedAt.IsZero() || QuarantinedAt.After(now - retention)`
unfoldable pub is_retained : Time → ℕ → Delivery → Bool
is_retained now retention r = (r.quarantined_at == 0) || ltb now (r.quarantined_at + retention)

module _ (p : Platform) where
  open p use {Raw, raw_size, Bucket, delete, entries}

  abbrev pub prune_one : Text → Raw → Pruning (Bucket Raw) → Pruning (Bucket Raw)
  prune_one key raw st = record {
    bucket = delete st.bucket key;
    count = minus st.count 1;
    used = minus st.used (raw_size raw);
    removed = st.removed + 1;
  }

  -- The loop over the cursor.
  unfoldable pub prune_loop :
      Time → ℕ → List (Text × Raw) → Pruning (Bucket Raw) → Result (Pruning (Bucket Raw))
  prune_loop now retention [] st = ok st
  prune_loop now retention ((key, raw) ∷ rest) st = do
    r ← decode_delivery p (some raw)
    prune_loop now retention rest (if is_retained now retention r then st else prune_one key raw st)

  unfoldable pub prune_tx : Time → ℕ → Db p → Result (Db p × ℕ)
  prune_tx now retention db = do
    st ← prune_loop now retention (entries db.quarantine) (record {
      bucket = db.quarantine;
      count = signed db.total_count;
      used = signed db.used_bytes;
      removed = 0;
    })
    db' ← write_counters p st.count st.used (record db { quarantine = st.bucket })
    ok (db', st.removed)

  -- The record of the outcome in the handle.
  abbrev pub note_maintenance : Store p × Result ℕ → Store p × Result ℕ
  note_maintenance (s, ok n) = (record s { maintenance_error = none }, ok n)
  note_maintenance (s, err e) = (record s { maintenance_error = some outbox_prune_failed }, err e)

  unfoldable pub prune_quarantine : Time → Store p → Store p × Result ℕ
  prune_quarantine now s = note_maintenance (update p s (prune_tx now s.cfg.quarantine_retention))
