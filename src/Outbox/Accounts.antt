-- ===== src/Outbox/Accounts.antt =====
-- The counters of the database against the buckets: what each change of the buckets does to them.
use loramapr_receiver.Base.{
  ℕ, ◌+◌, ◌-◌, ◌≤◌, ◌≡◌, sym, subst, ◌∙◌, ◌⊎◌, none, some, Text, text_eq, compare_text-eq, ok,
  arith, if◌then◌else◌,
}
use loramapr_receiver.Base.Entries.{
  total, IsSorted, lookup-insert, lookup-remove, insert-IsSorted, remove-IsSorted, total-insert,
  total-remove, total-replace,
}
use loramapr_receiver.Outbox.Types.{Signed}
use loramapr_receiver.Outbox.Platform.{Platform}
use loramapr_receiver.Outbox.Db.{Db, signed, plus, minus, write_counters}

module _ (p : Platform) where
  open p use {Raw, raw_size, Bucket, get, put, delete, entries}

  pub get-put :
      {V : Type 0} (b : Bucket V) (k j : Text) (v : V)
      → get (put b k v) j ≡ (if text_eq k j then some v else get b j)
  get-put b k j v =
      rw (p.get-entries (put b k v) j, p.entries-put b k v, p.get-entries b j)
        (lookup-insert k j v (entries b))

  pub get-delete :
      {V : Type 0} (b : Bucket V) (k j : Text)
      → get (delete b k) j ≡ (if text_eq k j then none else get b j)
  get-delete b k j =
      rw (p.get-entries (delete b k) j, p.entries-delete b k, p.get-entries b j)
        (lookup-remove k j (entries b))

  -- A measure summed over the deliveries and the quarantine.
  abbrev pub sum_over : (Raw → ℕ) → Bucket Raw → Bucket Raw → ℕ
  sum_over f d q = total f (entries d) + total f (entries q)

  abbrev pub one : Raw → ℕ
  one raw = 1

  pub record Accounts (d q : Bucket Raw) (count used : Signed) : Type 0 where
    pub sorted_deliveries : IsSorted (entries d)
    pub sorted_quarantine : IsSorted (entries q)
    pub disjoint : (k : Text) → (get d k ≡ none) ⊎ (get q k ≡ none)
    pub counted : count.plus ≡ count.minus + sum_over one d q
    pub measured : used.plus ≡ used.minus + sum_over raw_size d q

  module _ {V : Type 0} (b : Bucket V) (k : Text) where
    pub put-IsSorted : (v : V) → IsSorted (entries b) → IsSorted (entries (put b k v))
    put-IsSorted v s = rw (p.entries-put b k v) (insert-IsSorted k v (entries b) s)

    pub delete-IsSorted : IsSorted (entries b) → IsSorted (entries (delete b k))
    delete-IsSorted s = rw (p.entries-delete b k) (remove-IsSorted k (entries b) s)

  module _ (b : Bucket Raw) (k : Text) (v : Raw) where
    total-put :
        (f : Raw → ℕ) → get b k ≡ none → total f (entries (put b k v)) ≡ f v + total f (entries b)
    total-put f h =
        rw (p.entries-put b k v) (total-insert f k v (entries b) (sym (p.get-entries b k) ∙ h))

    total-put_over :
        (f : Raw → ℕ) (w : Raw)
        → IsSorted (entries b)
        → get b k ≡ some w
        → total f (entries (put b k v)) + f w ≡ f v + total f (entries b)
    total-put_over f w s h =
        rw (p.entries-put b k v) (total-replace f k v w (entries b) s (sym (p.get-entries b k) ∙ h))

    total-delete :
        (f : Raw → ℕ)
        → IsSorted (entries b)
        → get b k ≡ some v
        → total f (entries (delete b k)) + f v ≡ total f (entries b)
    total-delete f s h =
        rw (p.entries-delete b k) (total-remove f k v (entries b) s (sym (p.get-entries b k) ∙ h))

  module _ {d q : Bucket Raw} {count used : Signed} (a : Accounts d q count used) (k : Text) where
    pub Accounts-add :
        (v : Raw)
        → get d k ≡ none
        → get q k ≡ none
        → Accounts (put d k v) q (plus count 1) (plus used (raw_size v))
    Accounts-add v hd hq = record {
      sorted_deliveries = put-IsSorted d k v a.sorted_deliveries;
      sorted_quarantine = a.sorted_quarantine;
      disjoint = λ j. rw (get-put d k j v) (ground (arith, a.disjoint j, compare_text-eq k j));
      counted = omega (arith, total-put d k v one hd, a.counted);
      measured = omega (arith, total-put d k v raw_size hd, a.measured);
    }

    pub Accounts-replace :
        (v w : Raw)
        → get d k ≡ some w
        → Accounts (put d k v) q count (plus (minus used (raw_size w)) (raw_size v))
    Accounts-replace v w h = record {
      sorted_deliveries = put-IsSorted d k v a.sorted_deliveries;
      sorted_quarantine = a.sorted_quarantine;
      disjoint = λ j. rw (get-put d k j v) (ground (arith, a.disjoint j, compare_text-eq k j));
      counted = omega (arith, total-put_over d k v one w a.sorted_deliveries h, a.counted);
      measured = omega (arith, total-put_over d k v raw_size w a.sorted_deliveries h, a.measured);
    }

    pub Accounts-move :
        (v w : Raw)
        → get d k ≡ some w
        → Accounts (delete d k) (put q k v) count (plus (minus used (raw_size w)) (raw_size v))
    Accounts-move v w h = record {
      sorted_deliveries = delete-IsSorted d k a.sorted_deliveries;
      sorted_quarantine = put-IsSorted q k v a.sorted_quarantine;
      disjoint = λ j.
          rw (get-put q k j v, get-delete d k j)
            (ground (arith, a.disjoint j, compare_text-eq k j));
      counted = omega (
        arith,
        total-delete d k w one a.sorted_deliveries h,
        total-put q k v one absent,
        a.counted,
      );
      measured = omega (
        arith,
        total-delete d k w raw_size a.sorted_deliveries h,
        total-put q k v raw_size absent,
        a.measured,
      );
    }
      where
        absent : get q k ≡ none
        absent = ground (arith, a.disjoint k)

    pub Accounts-drop :
        (w : Raw)
        → get d k ≡ some w
        → Accounts (delete d k) q (minus count 1) (minus used (raw_size w))
    Accounts-drop w h = record {
      sorted_deliveries = delete-IsSorted d k a.sorted_deliveries;
      sorted_quarantine = a.sorted_quarantine;
      disjoint = λ j. rw (get-delete d k j) (ground (arith, a.disjoint j));
      counted = omega (arith, total-delete d k w one a.sorted_deliveries h, a.counted);
      measured = omega (arith, total-delete d k w raw_size a.sorted_deliveries h, a.measured);
    }

    pub Accounts-prune :
        (w : Raw)
        → get q k ≡ some w
        → Accounts d (delete q k) (minus count 1) (minus used (raw_size w))
    Accounts-prune w h = record {
      sorted_deliveries = a.sorted_deliveries;
      sorted_quarantine = delete-IsSorted q k a.sorted_quarantine;
      disjoint = λ j. rw (get-delete q k j) (ground (arith, a.disjoint j));
      counted = omega (arith, total-delete q k w one a.sorted_quarantine h, a.counted);
      measured = omega (arith, total-delete q k w raw_size a.sorted_quarantine h, a.measured);
    }

  -- The counters of the database are those of its buckets, and no delivery is in both.
  abbrev pub IsConsistent : Db p → Type 0
  IsConsistent db =
      Accounts db.deliveries db.quarantine (signed db.total_count) (signed db.used_bytes)

  abbrev pub counters_written : Signed → Signed → Db p → Db p
  counters_written count used db = record db {
    total_count = count.plus - count.minus;
    used_bytes = used.plus - used.minus;
  }

  -- The counters that a successful write stores.
  pub write_counters-eq-ok :
      (count used : Signed) (db : Db p) {db' : Db p}
      → write_counters p count used db ≡ ok db'
      → (db' ≡ counters_written count used db)
        × (count.minus ≤ count.plus)
        × (used.minus ≤ used.plus)
  unfolding write_counters
  write_counters-eq-ok count used db h = (ground arith, ground arith, ground arith)

  -- Running counters that fit the buckets are never negative.
  pub write_counters_total :
      (count used : Signed) (db : Db p)
      → Accounts db.deliveries db.quarantine count used
      → write_counters p count used db ≡ ok (counters_written count used db)
  unfolding write_counters
  write_counters_total count used db a = ground (arith, a.counted, a.measured)

  pub write_counters-IsConsistent :
      (count used : Signed) (db db' : Db p)
      → Accounts db.deliveries db.quarantine count used
      → write_counters p count used db ≡ ok db'
      → IsConsistent db'
  write_counters-IsConsistent count used db db' a h =
      subst IsConsistent (sym (write_counters-eq-ok count used db h).0) (record {
        sorted_deliveries = a.sorted_deliveries;
        sorted_quarantine = a.sorted_quarantine;
        disjoint = a.disjoint;
        counted = omega (arith, a.counted);
        measured = omega (arith, a.measured);
      })
