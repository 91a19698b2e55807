-- ===== src/Outbox/Matching.antt =====
-- A bulk move from end to end: the scan, the loop and the counters.
use loramapr_receiver.Base.{
  Option, none, some, List, [], ◌∷◌, ◌≡◌, sym, ◌∙◌, Text, compare_text-eq, ok, arith, All,
  >>=-eq-ok,
}
use loramapr_receiver.Base.Entries.{lookup_entry}
use loramapr_receiver.Outbox.Types.{Delivery, Config, Signed}
use loramapr_receiver.Outbox.Platform.{Platform}
use loramapr_receiver.Outbox.Db.{Db, signed, decode_delivery, write_counters}
use loramapr_receiver.Outbox.Quarantine.{Matched, Scan, collect, move_all, settle, move_matching}
use loramapr_receiver.Outbox.Accounts.{
  IsConsistent, write_counters-IsConsistent, write_counters-eq-ok,
}
use loramapr_receiver.Outbox.Bulk.{
  Lacks, Distinct, IsMatch, Collected, collect-Collected, Collected-Distinct, Collected-IsMatch,
  Collected-left, Collected-kept, Collected_picked,
}
use loramapr_receiver.Outbox.Moves.{
  SameRest, move_all-SameRest, move_all-Accounts, move_all_other, IsMoved, move_all-IsMoved,
}

module _ (p : Platform) where
  open p use {Raw, Bucket, get, entries, marshal_delivery}

  pub record Matching (cfg : Config) (select : Delivery → Option Delivery) (db db' : Db p)
      (scan : Scan p) : Type 0 where
    pub after : Db p × Signed
    pub scanned : collect p select (entries db.deliveries) ≡ ok scan
    pub looped : move_all p cfg scan.matches (db, signed db.used_bytes) ≡ ok after
    pub written : write_counters p (signed db.total_count) after.1 after.0 ≡ ok db'

  settle-eq-ok :
      (cfg : Config) (ms : List (Matched p)) (db db' : Db p)
      → settle p cfg ms db ≡ ok db'
      → (after : Db p × Signed) × (move_all p cfg ms (db, signed db.used_bytes) ≡ ok after)
        × (write_counters p (signed db.total_count) after.1 after.0 ≡ ok db')
  unfolding settle
  settle-eq-ok cfg ms db db' h =
      >>=-eq-ok (move_all p cfg ms (db, signed db.used_bytes))
        (λ (st : Db p × Signed). write_counters p (signed db.total_count) st.1 st.0) h

  move_matching_step :
      (cfg : Config) (select : Delivery → Option Delivery) (db db' : Db p) (scan : Scan p)
      → move_matching p cfg select db ≡ ok (db', scan)
      → (collect p select (entries db.deliveries) ≡ ok scan)
        × (settle p cfg scan.matches db ≡ ok db')
  unfolding move_matching
  move_matching_step cfg select db db' scan h = (ground arith, ground arith)

  pub move_matching-eq-ok :
      (cfg : Config) (select : Delivery → Option Delivery) (db db' : Db p) (scan : Scan p)
      → move_matching p cfg select db ≡ ok (db', scan)
      → Matching cfg select db db' scan
  move_matching-eq-ok cfg select db db' scan h =
      let (scanned, settled) = move_matching_step cfg select db db' scan h in
      let (after, looped, written) = settle-eq-ok cfg scan.matches db db' settled in
      record { after = after; scanned = scanned; looped = looped; written = written }

  module _ {cfg : Config} {select : Delivery → Option Delivery} {db db' : Db p} {scan : Scan p}
      (m : Matching cfg select db db' scan) where
    collected : Collected p select (entries db.deliveries) scan.matches
    collected = collect-Collected p select (entries db.deliveries) m.scanned

    pub Matching-SameRest : SameRest p db db'
    Matching-SameRest = ground (
      arith,
      move_all-SameRest p cfg scan.matches (db, signed db.used_bytes) m.looped,
      write_counters-eq-ok p _ m.after.1 m.after.0 m.written,
    )

    module _ (c : IsConsistent p db) where
      pub matches : All (IsMatch p select db.deliveries) scan.matches
      matches =
          Collected-IsMatch p db.deliveries collected
            (lookup_entry (entries db.deliveries) c.sorted_deliveries)

      pub distinct : Distinct p scan.matches
      distinct = Collected-Distinct p collected c.sorted_deliveries

      pub Matching-IsConsistent : IsConsistent p db'
      Matching-IsConsistent =
          write_counters-IsConsistent p _ _ _ db'
            (move_all-Accounts p cfg select scan.matches (db, signed db.used_bytes) c distinct
              matches m.looped)
            m.written

      all-IsMoved : All (IsMoved p cfg m.after.0) scan.matches
      all-IsMoved = move_all-IsMoved p cfg scan.matches (db, signed db.used_bytes) distinct m.looped

      same_buckets :
          (m.after.0.deliveries ≡ db'.deliveries) × (m.after.0.quarantine ≡ db'.quarantine)
      same_buckets = ground (arith, write_counters-eq-ok p _ m.after.1 m.after.0 m.written)

      Lacks-of_present :
          (k : Text) (raw : Raw) (xs : List (Matched p))
          → get m.after.0.deliveries k ≡ some raw
          → All (IsMoved p cfg m.after.0) xs
          → Lacks p k xs
      Lacks-of_present k raw [] h a = tt
      Lacks-of_present k raw (x ∷ xs) h a =
          (ground (arith, compare_text-eq x.key k, a.0.0), Lacks-of_present k raw xs h a.1)

      -- What is still queued was queued before, and `select` leaves it.
      pub Matching_left :
          (k : Text) (raw : Raw) (r : Delivery)
          → get db'.deliveries k ≡ some raw
          → decode_delivery p (some raw) ≡ ok r
          → (get db.deliveries k ≡ some raw) × (select r ≡ none)
      Matching_left k raw r h d =
          let here : get m.after.0.deliveries k ≡ some raw = rw same_buckets.0 h in
          let l = Lacks-of_present k raw scan.matches here all-IsMoved in
          let before : get db.deliveries k ≡ some raw =
            sym (move_all_other p cfg k scan.matches (db, signed db.used_bytes) l m.looped).0
            ∙ here in
          (
            before,
            Collected-left p k raw r collected (sym (p.get-entries db.deliveries k) ∙ before) l d,
          )

      -- What `select` leaves stays queued as it is.
      pub Matching_kept :
          (k : Text) (raw : Raw) (r : Delivery)
          → get db.deliveries k ≡ some raw
          → decode_delivery p (some raw) ≡ ok r
          → select r ≡ none
          → get db'.deliveries k ≡ some raw
      Matching_kept k raw r h d n =
          let l =
            Collected-kept p k raw r collected c.sorted_deliveries
              (sym (p.get-entries db.deliveries k) ∙ h) d n in
          rw (sym same_buckets.0)
            ((move_all_other p cfg k scan.matches (db, signed db.used_bytes) l m.looped).0 ∙ h)

      -- What `select` picks leaves the queue and is found in quarantine as what it became.
      pub Matching-IsMoved :
          (k : Text) (raw : Raw) (r r' : Delivery)
          → get db.deliveries k ≡ some raw
          → decode_delivery p (some raw) ≡ ok r
          → select r ≡ some r'
          → IsMoved p cfg db' (record { key = k; raw = raw; old = r; new = r' })
      Matching-IsMoved k raw r r' h d n =
          let here =
            Collected_picked p (IsMoved p cfg m.after.0) k raw r r' collected
              (sym (p.get-entries db.deliveries k) ∙ h) d n all-IsMoved in
          ground (arith, here, same_buckets)
