-- ===== src/Outbox/Pruning.antt =====
-- The pruning of the quarantine: the counters, and what it removes.
use loramapr_receiver.Base.{
  ℕ, none, some, List, [], ◌∷◌, ◌≡◌, sym, ◌∙◌, subst, ◌>>=◌, Text, compare_text-eq,
  compare_text_refl, Result, ok, arith, All, >>=-eq-ok, Bool-cases, inl, inr, if◌then◌else◌,
}
use loramapr_receiver.Base.Entries.{
  lookup, IsSorted, Above, Above-trans, lookup-Above, lookup_entry,
}
use loramapr_receiver.Outbox.Types.{Delivery, Time}
use loramapr_receiver.Outbox.Platform.{Platform}
use loramapr_receiver.Outbox.Db.{Db, signed, decode_delivery, write_counters}
use loramapr_receiver.Outbox.Prune.{Pruning, is_retained, prune_one, prune_loop, prune_tx}
use loramapr_receiver.Outbox.Accounts.{
  Accounts, IsConsistent, Accounts-prune, get-delete, write_counters-IsConsistent,
  write_counters-eq-ok,
}

module _ (p : Platform) where
  open p use {Raw, raw_size, Bucket, get, delete, entries}

  abbrev Within : Bucket Raw → List (Text × Raw) → Type 0
  Within b = All (λ e. get b e.0 ≡ some e.1)

  Within-delete :
      (b : Bucket Raw) (k : Text) (es : List (Text × Raw))
      → Above k es
      → IsSorted es
      → Within b es
      → Within (delete b k) es
  Within-delete b k [] a s w = tt
  Within-delete b k ((j, raw) ∷ es) a s w = (
    rw (get-delete p b k j) (ground (arith, w.0)),
    Within-delete b k es (Above-trans k j es a s.0) s.1 w.1,
  )

  module _ (now : Time) (retention : ℕ) where
    -- The loop's variables after an entry.
    abbrev after_entry : Text → Raw → Delivery → Pruning (Bucket Raw) → Pruning (Bucket Raw)
    after_entry k raw r st = if is_retained now retention r then st else prune_one p k raw st

    prune_step :
        (k : Text) (raw : Raw) (es : List (Text × Raw)) (st : Pruning (Bucket Raw))
        {st' : Pruning (Bucket Raw)}
        → prune_loop p now retention ((k, raw) ∷ es) st ≡ ok st'
        → (r : Delivery) × (decode_delivery p (some raw) ≡ ok r)
          × (prune_loop p now retention es (after_entry k raw r st) ≡ ok st')
    unfolding prune_loop
    prune_step k raw es st h = ground arith

    prune_loop_nil :
        (st : Pruning (Bucket Raw)) {st' : Pruning (Bucket Raw)}
        → prune_loop p now retention [] st ≡ ok st'
        → st ≡ st'
    unfolding prune_loop
    prune_loop_nil st h = ground arith

    abbrev AccountsOf : Bucket Raw → Pruning (Bucket Raw) → Type 0
    AccountsOf d st = Accounts p d st.bucket st.count st.used

    prune_loop-Accounts :
        (d : Bucket Raw) (es : List (Text × Raw)) (st : Pruning (Bucket Raw))
        {st' : Pruning (Bucket Raw)}
        → AccountsOf d st
        → IsSorted es
        → Within st.bucket es
        → prune_loop p now retention es st ≡ ok st'
        → AccountsOf d st'
    prune_loop-Accounts d [] st a s w h = subst (AccountsOf d) (prune_loop_nil st h) a
    prune_loop-Accounts d ((k, raw) ∷ es) st a s w h =
        let (r, decoded, rest) = prune_step k raw es st h in
        elim (Bool-cases (is_retained now retention r)) [
          | inl e ↦ prune_loop-Accounts d es st a s.1 w.1 (rw e at rest)
          | inr e ↦
              prune_loop-Accounts d es (prune_one p k raw st) (Accounts-prune p a k raw w.0) s.1
                (Within-delete st.bucket k es s.0 s.1 w.1) (rw e at rest)
        ]

    prune_loop_other :
        (k : Text) (es : List (Text × Raw)) (st : Pruning (Bucket Raw)) {st' : Pruning (Bucket Raw)}
        → lookup k es ≡ none
        → prune_loop p now retention es st ≡ ok st'
        → get st'.bucket k ≡ get st.bucket k
    unfolding lookup
    prune_loop_other k [] st n h = ground (arith, prune_loop_nil st h)
    prune_loop_other k ((j, raw) ∷ es) st n h =
        let (r, decoded, rest) = prune_step j raw es st h in
        ground (
          arith,
          prune_loop_other k es (after_entry j raw r st) (ground arith) rest,
          get-delete p st.bucket j k,
          compare_text-eq j k,
          compare_text_refl k,
        )

    prune_loop_at :
        (k : Text) (raw : Raw) (r : Delivery) (es : List (Text × Raw)) (st : Pruning (Bucket Raw))
        {st' : Pruning (Bucket Raw)}
        → IsSorted es
        → lookup k es ≡ some raw
        → decode_delivery p (some raw) ≡ ok r
        → prune_loop p now retention es st ≡ ok st'
        → get st'.bucket k ≡ (if is_retained now retention r then get st.bucket k else none)
    unfolding lookup
    prune_loop_at k raw r [] st s l d h = cc
    prune_loop_at k raw r ((j, raw') ∷ es) st {st'} s l d h =
        let (r', decoded, rest) = prune_step j raw' es st h in
        ground (
          arith,
          prune_loop_other k es (after_entry j raw' r' st) {st' = st'},
          prune_loop_at k raw r es (after_entry j raw' r' st) {st' = st'} s.1,
          lookup-Above j es s.0 s.1,
          get-delete p st.bucket j k,
          compare_text-eq j k,
          compare_text-eq k j,
          compare_text_refl k,
        )

  -- The variables before the loop.
  abbrev pub start_pruning : Db p → Pruning (Bucket Raw)
  start_pruning db = record {
    bucket = db.quarantine;
    count = signed db.total_count;
    used = signed db.used_bytes;
    removed = 0;
  }

  -- What follows the loop.
  abbrev end_pruning : Db p → Pruning (Bucket Raw) → Result (Db p × ℕ)
  end_pruning db st =
      write_counters p st.count st.used (record db { quarantine = st.bucket }) >>= λ db'.
      ok (db', st.removed)

  pub record Pruned (now : Time) (retention : ℕ) (db : Db p) (r : Db p × ℕ) : Type 0 where
    pub after : Pruning (Bucket Raw)
    pub looped : prune_loop p now retention (entries db.quarantine) (start_pruning db) ≡ ok after
    pub written :
        write_counters p after.count after.used (record db { quarantine = after.bucket }) ≡ ok r.0
    pub number : r.1 ≡ after.removed

  end_pruning_step :
      (db : Db p) (st : Pruning (Bucket Raw)) (r : Db p × ℕ)
      → end_pruning db st ≡ ok r
      → (write_counters p st.count st.used (record db { quarantine = st.bucket }) ≡ ok r.0)
        × (r.1 ≡ st.removed)
  end_pruning_step db st r h = (ground arith, ground arith)

  pub prune_tx-eq-ok :
      (now : Time) (retention : ℕ) (db : Db p) (r : Db p × ℕ)
      → prune_tx p now retention db ≡ ok r
      → Pruned now retention db r
  unfolding prune_tx
  prune_tx-eq-ok now retention db r h =
      let (after, looped, rest) =
        >>=-eq-ok (prune_loop p now retention (entries db.quarantine) (start_pruning db))
          (end_pruning db) h in
      let (written, number) = end_pruning_step db after r rest in
      record { after = after; looped = looped; written = written; number = number }

  module _ {now : Time} {retention : ℕ} {db : Db p} {r : Db p × ℕ} (u : Pruned now retention db r)
      (c : IsConsistent p db) where
    within : Within db.quarantine (entries db.quarantine)
    within =
        found (entries db.quarantine) (lookup_entry (entries db.quarantine) c.sorted_quarantine)
      where
        found :
            (es : List (Text × Raw))
            → All (λ e. lookup e.0 (entries db.quarantine) ≡ some e.1) es
            → Within db.quarantine es
        found [] a = tt
        found (e ∷ es) a = (p.get-entries db.quarantine e.0 ∙ a.0, found es a.1)

    pub Pruned-IsConsistent : IsConsistent p r.0
    Pruned-IsConsistent =
        write_counters-IsConsistent p _ _ _ r.0
          (prune_loop-Accounts now retention db.deliveries (entries db.quarantine) _ c
            c.sorted_quarantine within u.looped)
          u.written

    -- A delivery in quarantine stays there exactly if it is retained.
    pub Pruned_at :
        (k : Text) (raw : Raw) (d : Delivery)
        → get db.quarantine k ≡ some raw
        → decode_delivery p (some raw) ≡ ok d
        → get r.0.quarantine k ≡ (if is_retained now retention d then some raw else none)
    Pruned_at k raw d h e = ground (
      arith,
      write_counters-eq-ok p u.after.count u.after.used _ u.written,
      prune_loop_at now retention k raw d (entries db.quarantine) _ {st' = u.after}
          c.sorted_quarantine (sym (p.get-entries db.quarantine k) ∙ h) e u.looped,
    )
