-- ===== src/Base/Entries.antt =====
-- The entries of an ordered map with text keys: lookup, insertion in key order, removal, and the
-- sum of a measure over the values.
use loramapr_receiver.Base.{
  ◌⊎◌, inl, inr, Bool-cases, text_eq_sound, subst, ℕ, ◌+◌, Ordering, ◌≡◌, refl, Option, none, some,
  List, [], ◌∷◌, arith, All, Text, compare_text, compare_text_refl, compare_text-eq,
  compare_text-gt, compare_text_trans, text_eq, if◌then◌else◌,
}

module _ {V : Type 0} where
  unfoldable pub lookup : Text → List (Text × V) → Option V
  lookup k [] = none
  lookup k ((j, v) ∷ m) = if text_eq k j then some v else lookup k m

  unfoldable pub insert : Text → V → List (Text × V) → List (Text × V)
  insert k v [] = (k, v) ∷ []
  insert k v ((j, w) ∷ m) = elim (compare_text k j) [
    | Ordering.lt ↦ (k, v) ∷ (j, w) ∷ m
    | Ordering.eq ↦ (k, v) ∷ m
    | Ordering.gt ↦ (j, w) ∷ insert k v m
  ]

  unfoldable pub remove : Text → List (Text × V) → List (Text × V)
  remove k [] = []
  remove k ((j, v) ∷ m) = if text_eq k j then remove k m else (j, v) ∷ remove k m

  unfoldable pub total : (V → ℕ) → List (Text × V) → ℕ
  total f [] = 0
  total f ((k, v) ∷ m) = f v + total f m

  -- The first key of `m` lies above `k`.
  abbrev pub Above : Text → List (Text × V) → Type 0
  Above k [] = Unit
  Above k ((j, v) ∷ m) = compare_text k j ≡ Ordering.lt

  -- The keys increase strictly.
  abbrev pub IsSorted : List (Text × V) → Type 0
  IsSorted [] = Unit
  IsSorted ((k, v) ∷ m) = Above k m × IsSorted m

module _ {V : Type 0} where
  pub Above-trans :
      (i k : Text) (m : List (Text × V)) → compare_text i k ≡ Ordering.lt → Above k m → Above i m
  Above-trans i k [] h a = tt
  Above-trans i k ((j, v) ∷ m) h a = compare_text_trans i k j h a

  pub lookup-Above : (k : Text) (m : List (Text × V)) → Above k m → IsSorted m → lookup k m ≡ none
  unfolding lookup
  lookup-Above k [] a s = refl
  lookup-Above k ((j, v) ∷ m) a s = ground (arith, lookup-Above k m (Above-trans k j m a s.0) s.1)

  pub lookup-insert :
      (k j : Text) (v : V) (m : List (Text × V))
      → lookup j (insert k v m) ≡ (if text_eq k j then some v else lookup j m)
  unfolding lookup insert
  lookup-insert k j v [] =
      ground (arith, compare_text-eq k j, compare_text-eq j k, compare_text_refl k)
  lookup-insert k j v ((i, w) ∷ m) = ground (
    arith,
    compare_text-eq k j,
    compare_text-eq j k,
    compare_text-eq k i,
    compare_text-eq j i,
    compare_text_refl k,
    lookup-insert k j v m,
  )

  pub lookup-remove :
      (k j : Text) (m : List (Text × V))
      → lookup j (remove k m) ≡ (if text_eq k j then none else lookup j m)
  unfolding lookup remove
  lookup-remove k j [] = ground arith
  lookup-remove k j ((i, w) ∷ m) = ground (
    arith,
    compare_text-eq k j,
    compare_text-eq k i,
    compare_text-eq j i,
    compare_text_refl k,
    compare_text_refl i,
    lookup-remove k j m,
  )

  Above-insert :
      (i k : Text) (v : V) (m : List (Text × V))
      → compare_text i k ≡ Ordering.lt
      → Above i m
      → Above i (insert k v m)
  unfolding insert
  Above-insert i k v [] h a = h
  Above-insert i k v ((j, w) ∷ m) h a = ground arith

  pub insert-IsSorted :
      (k : Text) (v : V) (m : List (Text × V)) → IsSorted m → IsSorted (insert k v m)
  unfolding insert
  insert-IsSorted k v [] s = (tt, tt)
  insert-IsSorted k v ((j, w) ∷ m) s = ground (
    arith,
    compare_text-eq k j,
    compare_text-gt k j,
    Above-insert j k v m,
    insert-IsSorted k v m s.1,
  )

  remove-Above : (k : Text) (m : List (Text × V)) → Above k m → IsSorted m → remove k m ≡ m
  unfolding remove
  remove-Above k [] a s = refl
  remove-Above k ((j, w) ∷ m) a s = ground (arith, remove-Above k m (Above-trans k j m a s.0) s.1)

  Above-remove : (i k : Text) (m : List (Text × V)) → Above i m → IsSorted m → Above i (remove k m)
  unfolding remove
  Above-remove i k [] a s = tt
  Above-remove i k ((j, w) ∷ m) a s =
      ground (arith, Above-remove i k m (Above-trans i j m a s.0) s.1)

  pub remove-IsSorted : (k : Text) (m : List (Text × V)) → IsSorted m → IsSorted (remove k m)
  unfolding remove
  remove-IsSorted k [] s = tt
  remove-IsSorted k ((j, w) ∷ m) s =
      ground (arith, Above-remove j k m s.0 s.1, remove-IsSorted k m s.1)

  pub total-insert :
      (f : V → ℕ) (k : Text) (v : V) (m : List (Text × V))
      → lookup k m ≡ none
      → total f (insert k v m) ≡ f v + total f m
  unfolding lookup insert total
  total-insert f k v [] h = refl
  total-insert f k v ((j, w) ∷ m) h = ground (arith, total-insert f k v m)

  pub total-remove :
      (f : V → ℕ) (k : Text) (v : V) (m : List (Text × V))
      → IsSorted m
      → lookup k m ≡ some v
      → total f (remove k m) + f v ≡ total f m
  unfolding lookup remove total
  total-remove f k v [] s h = cc
  total-remove f k v ((j, w) ∷ m) s h =
      ground (arith, compare_text-eq k j, remove-Above j m s.0 s.1, total-remove f k v m s.1)

  pub total-replace :
      (f : V → ℕ) (k : Text) (v w : V) (m : List (Text × V))
      → IsSorted m
      → lookup k m ≡ some w
      → total f (insert k v m) + f w ≡ f v + total f m
  unfolding lookup insert total
  total-replace f k v w [] s h = cc
  total-replace f k v w ((j, x) ∷ m) s h = ground (
    arith,
    compare_text-eq k j,
    λ (e : compare_text k j ≡ Ordering.lt). lookup-Above k m (Above-trans k j m e s.0) s.1,
    total-replace f k v w m s.1,
  )

  Within-cons :
      (k : Text) (v : V) (m es : List (Text × V))
      → Above k es
      → IsSorted es
      → All (λ e. lookup e.0 m ≡ some e.1) es
      → All (λ e. lookup e.0 ((k, v) ∷ m) ≡ some e.1) es
  unfolding lookup
  Within-cons k v m [] a s h = tt
  Within-cons k v m ((j, w) ∷ es) a s h = (
    ground (arith, compare_text-eq j k, compare_text_refl j, h.0),
    Within-cons k v m es (Above-trans k j es a s.0) s.1 h.1,
  )

  -- Every entry of a sorted list is found under its key.
  pub lookup_entry : (m : List (Text × V)) → IsSorted m → All (λ e. lookup e.0 m ≡ some e.1) m
  unfolding lookup
  lookup_entry [] s = tt
  lookup_entry ((k, v) ∷ m) s =
      (ground (arith, compare_text_refl k), Within-cons k v m m s.0 s.1 (lookup_entry m s.1))

  -- The first key of a sorted list is the least.
  pub first-le :
      (k j : Text) (v w : V) (m : List (Text × V))
      → IsSorted ((k, v) ∷ m)
      → lookup j ((k, v) ∷ m) ≡ some w
      → (k ≡ j) ⊎ (compare_text k j ≡ Ordering.lt)
  unfolding lookup
  first-le k j v w [] s h = inl (ground (arith, compare_text-eq j k))
  first-le k j v w ((i, x) ∷ m) s h = elim (Bool-cases (text_eq j k)) [
    | inl e ↦ inl (ground (arith, text_eq_sound j k e))
    | inr e ↦ elim (first-le i j x w m s.1 (ground arith)) [
      | inl same ↦ inr (subst (λ y. compare_text k y ≡ Ordering.lt) same s.0)
      | inr above ↦ inr (compare_text_trans k i j s.0 above)
    ]
  ]

  pub lookup_first : (k : Text) (v : V) (m : List (Text × V)) → lookup k ((k, v) ∷ m) ≡ some v
  unfolding lookup
  lookup_first k v m = ground (arith, compare_text_refl k)
