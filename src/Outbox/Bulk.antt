-- ===== src/Outbox/Bulk.antt =====
-- The scan and the loop of the operations that move many deliveries into quarantine.
use loramapr_receiver.Base.{
  false, Option, none, some, List, [], ◌∷◌, ◌≡◌, sym, ◌∙◌, subst, Text, text_eq, compare_text_refl,
  compare_text-eq, compare_text-lt, Option-cases, inl, inr, ok, arith, All,
}
use loramapr_receiver.Base.Entries.{lookup, IsSorted, Above, Above-trans}
use loramapr_receiver.Outbox.Types.{Delivery}
use loramapr_receiver.Outbox.Platform.{Platform}
use loramapr_receiver.Outbox.Db.{decode_delivery}
use loramapr_receiver.Outbox.Quarantine.{Matched, Scan, collect, match_if}

module _ (p : Platform) where
  open p use {Raw, raw_size, Bucket, get, put, delete, entries, marshal_delivery}

  -- No match has this key.
  abbrev pub Lacks : Text → List (Matched p) → Type 0
  Lacks k = All (λ m. text_eq m.key k ≡ false)

  abbrev pub Distinct : List (Matched p) → Type 0
  Distinct [] = Unit
  Distinct (m ∷ ms) = Lacks m.key ms × Distinct ms

  -- A match is a stored delivery that `select` picks.
  abbrev pub IsMatch : (Delivery → Option Delivery) → Bucket Raw → Matched p → Type 0
  IsMatch select d m =
      (get d m.key ≡ some m.raw)
      × (decode_delivery p (some m.raw) ≡ ok m.old)
      × (select m.old ≡ some m.new)

  -- The outcome of the scan: which entries are left and which are picked.
  pub data Collected (select : Delivery → Option Delivery)
      : List (Text × Raw) → List (Matched p) → Type 0 where
    done : Collected select [] []
    keep :
        {es : List (Text × Raw)} {ms : List (Matched p)} (k : Text) (raw : Raw) (r : Delivery)
        → decode_delivery p (some raw) ≡ ok r
        → select r ≡ none
        → Collected select es ms
        → Collected select ((k, raw) ∷ es) ms
    pick :
        {es : List (Text × Raw)} {ms : List (Matched p)} (k : Text) (raw : Raw) (r r' : Delivery)
        → decode_delivery p (some raw) ≡ ok r
        → select r ≡ some r'
        → Collected select es ms
        → Collected select ((k, raw) ∷ es) (record { key = k; raw = raw; old = r; new = r' } ∷ ms)

  module _ (select : Delivery → Option Delivery) where
    collect_step :
        (k : Text) (raw : Raw) (es : List (Text × Raw)) {r : Scan p}
        → collect p select ((k, raw) ∷ es) ≡ ok r
        → (old : Delivery) × (rest : Scan p) × (decode_delivery p (some raw) ≡ ok old)
          × (collect p select es ≡ ok rest)
          × (r ≡ match_if p (select old) k raw old rest)
    unfolding collect
    collect_step k raw es h = ground arith

    empty_scan : {r : Scan p} → collect p select [] ≡ ok r → record { matches = []; kept = 0 } ≡ r
    unfolding collect
    empty_scan h = ground arith

    pub collect-Collected :
        (es : List (Text × Raw)) {r : Scan p}
        → collect p select es ≡ ok r
        → Collected select es r.matches
    unfolding collect
    collect-Collected [] {r} h =
        subst (λ (s : Scan p). Collected select [] s.matches) (empty_scan h) done
    collect-Collected ((k, raw) ∷ es) {r} h =
        let (old, rest, decoded, scanned, result) = collect_step k raw es h in
        let ih = collect-Collected es scanned in
        subst (λ (s : Scan p). Collected select ((k, raw) ∷ es) s.matches) (sym result)
          (elim (Option-cases (select old)) [
            | inl e ↦ rw e (keep k raw old decoded e ih)
            | inr (r', e) ↦ rw e (pick k raw old r' decoded e ih)
          ])

  module _ {select : Delivery → Option Delivery} where
    Collected-Lacks :
        {es : List (Text × Raw)} {ms : List (Matched p)} (k : Text)
        → Collected select es ms
        → Above k es
        → IsSorted es
        → Lacks k ms
    Collected-Lacks k done a s = tt
    Collected-Lacks k (keep {es = es} j raw r x y c) a s =
        Collected-Lacks k c (Above-trans k j es a s.0) s.1
    Collected-Lacks k (pick {es = es} j raw r r' x y c) a s =
        (ground (arith, compare_text-lt k j), Collected-Lacks k c (Above-trans k j es a s.0) s.1)

    pub Collected-Distinct :
        {es : List (Text × Raw)} {ms : List (Matched p)}
        → Collected select es ms
        → IsSorted es
        → Distinct ms
    Collected-Distinct done s = tt
    Collected-Distinct (keep j raw r x y c) s = Collected-Distinct c s.1
    Collected-Distinct (pick j raw r r' x y c) s =
        (Collected-Lacks j c s.0 s.1, Collected-Distinct c s.1)

    pub Collected-IsMatch :
        {es : List (Text × Raw)} {ms : List (Matched p)} (d : Bucket Raw)
        → Collected select es ms
        → All (λ e. lookup e.0 (entries d) ≡ some e.1) es
        → All (IsMatch select d) ms
    Collected-IsMatch d done h = tt
    Collected-IsMatch d (keep j raw r x y c) h = Collected-IsMatch d c h.1
    Collected-IsMatch d (pick j raw r r' x y c) h =
        ((p.get-entries d j ∙ h.0, x, y), Collected-IsMatch d c h.1)

    -- An entry whose key no match has is one that `select` leaves.
    pub Collected-left :
        {es : List (Text × Raw)} {ms : List (Matched p)} (k : Text) (raw : Raw) (r : Delivery)
        → Collected select es ms
        → lookup k es ≡ some raw
        → Lacks k ms
        → decode_delivery p (some raw) ≡ ok r
        → select r ≡ none
    unfolding lookup
    Collected-left k raw r done h l d = cc
    Collected-left k raw r (keep j raw' r' x y c) h l d = ground (arith, Collected-left k raw r c)
    Collected-left k raw r (pick j raw' r' r'' x y c) h l d =
        ground (arith, compare_text-eq k j, compare_text_refl k, Collected-left k raw r c)

    -- An entry that `select` leaves is no match.
    pub Collected-kept :
        {es : List (Text × Raw)} {ms : List (Matched p)} (k : Text) (raw : Raw) (r : Delivery)
        → Collected select es ms
        → IsSorted es
        → lookup k es ≡ some raw
        → decode_delivery p (some raw) ≡ ok r
        → select r ≡ none
        → Lacks k ms
    unfolding lookup
    Collected-kept k raw r done s h d n = tt
    Collected-kept k raw r (keep {es = es} j raw' r' x y c) s h d n =
        ground
          (arith, Collected-kept k raw r c s.1, compare_text-eq k j, Collected-Lacks j c s.0 s.1)
    Collected-kept k raw r (pick {es = es} j raw' r' r'' x y c) s h d n = ground (
      arith,
      Collected-kept k raw r c s.1,
      compare_text-eq k j,
      compare_text-eq j k,
      Collected-Lacks j c s.0 s.1,
    )

    -- What holds of all matches holds of an entry that `select` picks.
    pub Collected_picked :
        (P : Matched p → Type 0) {es : List (Text × Raw)} {ms : List (Matched p)} (k : Text)
        (raw : Raw) (r r' : Delivery)
        → Collected select es ms
        → lookup k es ≡ some raw
        → decode_delivery p (some raw) ≡ ok r
        → select r ≡ some r'
        → All P ms
        → P (record { key = k; raw = raw; old = r; new = r' })
    unfolding lookup
    Collected_picked P k raw r r' done h d n a = cc
    Collected_picked P k raw r r' (keep j raw' x y z c) h d n a =
        ground (arith, compare_text-eq k j, Collected_picked P k raw r r' c)
    Collected_picked P k raw r r' (pick j raw' x x' y z c) h d n a =
        ground (arith, compare_text-eq k j, Collected_picked P k raw r r' c)
