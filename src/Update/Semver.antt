-- ===== src/Update/Semver.antt =====
-- semver.go: parsing and comparison of versions. `to_lower` is Go's `unicode.ToLower`, which
-- `strings.ToLower` maps over a string.
use loramapr_receiver.Base.{
  ℕ, zero, suc, ◌^◌, Option, none, some, List, [], ◌∷◌, map, Text, trim, is_empty, text_eq,
  compare_text, compare, Ordering, Result, ok, err, ◌>>=◌, ◌>>◌, refuse, version_empty,
  not_semver_like, empty_part, not_a_number, ltb, ◌==◌, if◌then◌else◌,
}
use loramapr_receiver.Base.Decimal.{digits_from}

-- Go's `int`.
pub data ℤ : Type 0 where
  pos negsuc : ℕ → ℤ

-- `compareInt`, with the order as its result.
unfoldable pub compare_int : ℤ → ℤ → Ordering
compare_int (pos m) (pos n) = compare m n
compare_int (pos m) (negsuc n) = Ordering.gt
compare_int (negsuc m) (pos n) = Ordering.lt
compare_int (negsuc m) (negsuc n) = compare n m

pub record Semver : Type 0 where
  pub major : ℤ
  pub minor : ℤ
  pub patch : ℤ
  pub pre : List Text

abbrev pub digits : Text → Option ℕ
digits [] = none
digits (c ∷ cs) = digits_from 0 (c ∷ cs)

abbrev pub not_above : Option ℕ → Option ℤ
not_above none = none
not_above (some n) = if ltb n (2 ^ 63) then some (pos n) else none

abbrev pub not_below : Option ℕ → Option ℤ
not_below none = none
not_below (some zero) = some (pos 0)
not_below (some (suc n)) = if ltb n (2 ^ 63) then some (negsuc n) else none

-- strconv.Atoi: an optional sign, then decimal digits, within 64 bits.
unfoldable pub atoi : Text → Option ℤ
unfolding digits_from
atoi [] = none
atoi (c ∷ cs) =
    if c == 45
    then not_below (digits cs)
    else if c == 43
    then not_above (digits cs)
    else not_above (digits (c ∷ cs))

-- What is before the first `c`, or everything.
unfoldable pub before_first : ℕ → Text → Text
before_first c [] = []
before_first c (x ∷ xs) = if x == c then [] else x ∷ before_first c xs

-- What is after the first `c`, or nothing.
unfoldable pub after_first : ℕ → Text → Text
after_first c [] = []
after_first c (x ∷ xs) = if x == c then xs else after_first c xs

abbrev pub into_first : ℕ → List Text → List Text
into_first x [] = (x ∷ []) ∷ []
into_first x (part ∷ parts) = (x ∷ part) ∷ parts

-- strings.Split with a separator of one character.
unfoldable pub split_on : ℕ → Text → List Text
split_on c [] = [] ∷ []
split_on c (x ∷ xs) = let rest = split_on c xs in if x == c then [] ∷ rest else into_first x rest

-- strings.TrimPrefix of "v"
abbrev pub trim_v : Text → Text
trim_v [] = []
trim_v (c ∷ cs) = if c == 118 then cs else c ∷ cs

abbrev pub number : Option ℤ → Result ℤ
number none = err not_a_number
number (some n) = ok n

-- The closure `parsePart`.
unfoldable pub parse_part : Text → Result ℤ
unfolding atoi
parse_part value = do refuse (is_empty (trim value)) empty_part; number (atoi (trim value))

-- The numbers of two or three parts; with two the patch number is 0.
unfoldable pub parse_core : List Text → List Text → Result Semver
unfolding parse_part
parse_core pre (a ∷ b ∷ []) = do
  major ← parse_part a
  minor ← parse_part b
  ok (record { major = major; minor = minor; patch = pos 0; pre = pre })
parse_core pre (a ∷ b ∷ c ∷ []) = do
  major ← parse_part a
  minor ← parse_part b
  patch ← parse_part c
  ok (record { major = major; minor = minor; patch = patch; pre = pre })
parse_core pre _ = err not_semver_like

abbrev pub pre_parts : Text → List Text
pre_parts pre = if is_empty pre then [] else split_on 46 pre

module _ (to_lower : ℕ → ℕ) where
  unfoldable pub parse_semver : Text → Result Semver
  unfolding before_first after_first split_on parse_core
  parse_semver raw = do
    refuse (is_empty (trim raw)) version_empty
    let trimmed = trim_v (map to_lower (trim raw))
    refuse (is_empty trimmed) version_empty
    let core = before_first 43 trimmed
    parse_core (pre_parts (after_first 45 core)) (split_on 46 (before_first 45 core))

-- Two prerelease parts with different text.
abbrev pub compare_numbers : Option ℤ → Option ℤ → Text → Text → Ordering
compare_numbers (some m) (some n) a b = compare_int m n
compare_numbers (some m) none a b = Ordering.lt
compare_numbers none (some n) a b = Ordering.gt
compare_numbers none none a b = elim (compare_text a b) [
  | Ordering.lt ↦ Ordering.lt
  | _ ↦ Ordering.gt
]

unfoldable pub compare_part : Text → Text → Ordering
compare_part a b = compare_numbers (atoi a) (atoi b) a b

-- The loop over the prerelease parts: the first that differ decide.
unfoldable pub compare_parts : List Text → List Text → Ordering
compare_parts [] [] = Ordering.eq
compare_parts [] (b ∷ ys) = Ordering.lt
compare_parts (a ∷ xs) [] = Ordering.gt
compare_parts (a ∷ xs) (b ∷ ys) = if text_eq a b then compare_parts xs ys else compare_part a b

-- A release is above its prereleases.
unfoldable pub compare_pre : List Text → List Text → Ordering
compare_pre [] [] = Ordering.eq
compare_pre [] (b ∷ ys) = Ordering.gt
compare_pre (a ∷ xs) [] = Ordering.lt
compare_pre (a ∷ xs) (b ∷ ys) = compare_parts (a ∷ xs) (b ∷ ys)

abbrev pub unless_equal : Ordering → Ordering → Ordering
unless_equal Ordering.eq rest = rest
unless_equal o rest = o

unfoldable pub compare_semver : Semver → Semver → Ordering
compare_semver l r = unless_equal (compare_int l.major r.major) (
    unless_equal (compare_int l.minor r.minor)
      (unless_equal (compare_int l.patch r.patch) (compare_pre l.pre r.pre)))

module _ (to_lower : ℕ → ℕ) where
  unfoldable pub compare_versions : Text → Text → Result Ordering
  compare_versions left right = do
    l ← parse_semver to_lower left
    r ← parse_semver to_lower right
    ok (compare_semver l r)
