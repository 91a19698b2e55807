-- ===== src/Outbox/Statistics.antt =====
-- store.go: `Stats`, less what `Open` records of a recovery.
use loramapr_receiver.Base.{
  ℕ, ◌+◌, Option, some, List, [], ◌∷◌, ◌≡◌, refl, ap, Text, Result, ok, Error, ◌>>=◌, arith, length,
}
use loramapr_receiver.Base.Entries.{total}
use loramapr_receiver.Outbox.Types.{DispatchPause, Signed}
use loramapr_receiver.Outbox.Platform.{Platform}
use loramapr_receiver.Outbox.Db.{Db, signed, minus}
use loramapr_receiver.Outbox.Store.{Store, view}
use loramapr_receiver.Outbox.Pause.{read_pause}
use loramapr_receiver.Outbox.Validity.{IsValid}

pub record Stats : Type 0 where
  pub pending_count : Signed
  pub quarantined_count : ℕ
  pub total_count : ℕ
  pub used_bytes : ℕ
  pub dispatch_pause : Option DispatchPause
  pub maintenance_error : Option Error

module _ (p : Platform) where
  open p use {Raw, raw_size, entries}

  -- The closure that `Stats` runs; `KeyN` is the number of the bucket's keys.
  unfoldable pub count_stats : Option Error → Db p → Result Stats
  count_stats maintenance db = do
    pause ← read_pause p db
    let number = length (entries db.quarantine)
    ok (record {
      pending_count = minus (signed db.total_count) number;
      quarantined_count = number;
      total_count = db.total_count;
      used_bytes = db.used_bytes;
      dispatch_pause = pause;
      maintenance_error = maintenance;
    })

  unfoldable pub stats : Store p → Result Stats
  unfolding count_stats
  stats s = view p s (count_stats s.maintenance_error)

  total-length : (es : List (Text × Raw)) → total (λ raw. 1) es ≡ length es
  unfolding total
  total-length [] = refl
  total-length (e ∷ es) = omega (arith, total-length es)

  counts :
      (s : Store p) (db : Db p) (r : Stats)
      → s.db ≡ some db
      → stats s ≡ ok r
      → (r.pending_count ≡ minus (signed db.total_count) (length (entries db.quarantine)))
        × (r.quarantined_count ≡ length (entries db.quarantine))
        × (r.used_bytes ≡ db.used_bytes)
  unfolding view stats count_stats
  counts s db r e h = (ground arith, ground arith, ground arith)

  -- On an open store with a valid database, the pending count of `Stats` is the number of deliveries
  -- in the queue, and the used bytes are the sizes of the queue and the quarantine together.
  pub stats-IsValid :
      (s : Store p) (db : Db p) (r : Stats)
      → s.db ≡ some db
      → IsValid p db
      → stats s ≡ ok r
      → (r.pending_count.plus ≡ r.pending_count.minus + length (entries db.deliveries))
        × (r.quarantined_count ≡ length (entries db.quarantine))
        × (r.used_bytes
            ≡ total raw_size (entries db.deliveries) + total raw_size (entries db.quarantine))
  stats-IsValid s db r e v h =
      let (pending, quarantined, used) = counts s db r e h in
      (
        omega (
          arith,
          ap (λ (x : Signed). x.plus) pending,
          ap (λ (x : Signed). x.minus) pending,
          v.accounts.counted,
          total-length (entries db.deliveries),
          total-length (entries db.quarantine),
        ),
        quarantined,
        omega (arith, used, v.accounts.measured),
      )
