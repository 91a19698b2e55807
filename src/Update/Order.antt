-- ===== src/Update/Order.antt =====
-- The comparison of versions is an order: reversed by swapping its arguments, and transitive.
use loramapr_receiver.Base.{
  ℕ, false, Option, none, some, List, [], ◌∷◌, ◌≡◌, refl, Text, text_eq, Ordering, ok, arith,
  >>=-eq-ok, ◌>>=◌, compare_text_refl, compare_text-eq, compare_text-lt, compare_text-gt,
  compare_text_trans,
}
use loramapr_receiver.Update.Semver.{
  ℤ, pos, negsuc, Semver, compare_int, compare_numbers, compare_part, compare_parts, compare_pre,
  compare_semver, atoi, compare_versions, parse_semver, unless_equal,
}

abbrev pub opposite : Ordering → Ordering
opposite Ordering.lt = Ordering.gt
opposite Ordering.eq = Ordering.eq
opposite Ordering.gt = Ordering.lt

compare_int_swap : (m n : ℤ) → compare_int n m ≡ opposite (compare_int m n)
unfolding compare_int
compare_int_swap (pos m) (pos n) = ground arith
compare_int_swap (pos m) (negsuc n) = refl
compare_int_swap (negsuc m) (pos n) = refl
compare_int_swap (negsuc m) (negsuc n) = ground arith

compare_int-eq : (m n : ℤ) → compare_int m n ≡ Ordering.eq → m ≡ n
unfolding compare_int
compare_int-eq (pos m) (pos n) h = ground arith
compare_int-eq (pos m) (negsuc n) h = cc
compare_int-eq (negsuc m) (pos n) h = cc
compare_int-eq (negsuc m) (negsuc n) h = ground arith

compare_int_refl : (m : ℤ) → compare_int m m ≡ Ordering.eq
unfolding compare_int
compare_int_refl (pos m) = ground arith
compare_int_refl (negsuc m) = ground arith

compare_int_trans :
    (l m n : ℤ)
    → compare_int l m ≡ Ordering.lt
    → compare_int m n ≡ Ordering.lt
    → compare_int l n ≡ Ordering.lt
unfolding compare_int
compare_int_trans l m n h k = ground arith

compare_numbers_swap :
    (x y : Option ℤ) (a b : Text)
    → text_eq a b ≡ false
    → compare_numbers y x b a ≡ opposite (compare_numbers x y a b)
compare_numbers_swap (some m) (some n) a b d = compare_int_swap m n
compare_numbers_swap (some m) none a b d = refl
compare_numbers_swap none (some n) a b d = refl
compare_numbers_swap none none a b d =
    ground
      (arith, compare_text-lt a b, compare_text-gt a b, compare_text-lt b a, compare_text-gt b a)

compare_part_swap :
    (a b : Text) → text_eq a b ≡ false → compare_part b a ≡ opposite (compare_part a b)
unfolding compare_part
compare_part_swap a b n = compare_numbers_swap (atoi a) (atoi b) a b n

compare_parts_swap : (xs ys : List Text) → compare_parts ys xs ≡ opposite (compare_parts xs ys)
unfolding compare_parts
compare_parts_swap [] [] = refl
compare_parts_swap [] (y ∷ ys) = refl
compare_parts_swap (x ∷ xs) [] = refl
compare_parts_swap (x ∷ xs) (y ∷ ys) = ground (
  arith,
  compare_parts_swap xs ys,
  compare_part_swap x y,
  compare_text-lt x y,
  compare_text-gt x y,
  compare_text-lt y x,
  compare_text-gt y x,
)

compare_pre_swap : (xs ys : List Text) → compare_pre ys xs ≡ opposite (compare_pre xs ys)
unfolding compare_pre
compare_pre_swap [] [] = refl
compare_pre_swap [] (y ∷ ys) = refl
compare_pre_swap (x ∷ xs) [] = refl
compare_pre_swap (x ∷ xs) (y ∷ ys) = compare_parts_swap (x ∷ xs) (y ∷ ys)

unless_equal_swap :
    (o rest o' rest' : Ordering)
    → o' ≡ opposite o
    → rest' ≡ opposite rest
    → unless_equal o' rest' ≡ opposite (unless_equal o rest)
unless_equal_swap o rest o' rest' h k = ground arith

compare_semver_swap : (l r : Semver) → compare_semver r l ≡ opposite (compare_semver l r)
unfolding compare_semver
compare_semver_swap l r = unless_equal_swap _ _ _ _ (compare_int_swap l.major r.major) (
    unless_equal_swap _ _ _ _ (compare_int_swap l.minor r.minor)
      (unless_equal_swap _ _ _ _ (compare_int_swap l.patch r.patch) (compare_pre_swap l.pre r.pre)))

compare_numbers_trans :
    (x y z : Option ℤ) (a b c : Text)
    → compare_numbers x y a b ≡ Ordering.lt
    → compare_numbers y z b c ≡ Ordering.lt
    → compare_numbers x z a c ≡ Ordering.lt
compare_numbers_trans (some l) (some m) (some n) a b c h k = compare_int_trans l m n h k
compare_numbers_trans (some l) (some m) none a b c h k = refl
compare_numbers_trans (some l) none z a b c h k = ground arith
compare_numbers_trans none (some m) z a b c h k = cc
compare_numbers_trans none none (some n) a b c h k = cc
compare_numbers_trans none none none a b c h k = ground (arith, compare_text_trans a b c)

compare_part_trans :
    (a b c : Text)
    → compare_part a b ≡ Ordering.lt
    → compare_part b c ≡ Ordering.lt
    → compare_part a c ≡ Ordering.lt
unfolding compare_part
compare_part_trans a b c = compare_numbers_trans (atoi a) (atoi b) (atoi c) a b c

compare_parts_trans :
    (xs ys zs : List Text)
    → compare_parts xs ys ≡ Ordering.lt
    → compare_parts ys zs ≡ Ordering.lt
    → compare_parts xs zs ≡ Ordering.lt
unfolding compare_parts
compare_parts_trans [] [] zs h k = cc
compare_parts_trans [] (y ∷ ys) [] h k = cc
compare_parts_trans [] (y ∷ ys) (z ∷ zs) h k = refl
compare_parts_trans (x ∷ xs) [] zs h k = cc
compare_parts_trans (x ∷ xs) (y ∷ ys) [] h k = cc
compare_parts_trans (x ∷ xs) (y ∷ ys) (z ∷ zs) h k = ground (
  arith,
  compare_parts_trans xs ys zs,
  compare_part_trans x y z,
  compare_part_swap x y,
  compare_text-eq x y,
  compare_text-eq y z,
  compare_text-eq x z,
  compare_text_refl x,
  compare_text_refl y,
)

compare_pre_trans :
    (xs ys zs : List Text)
    → compare_pre xs ys ≡ Ordering.lt
    → compare_pre ys zs ≡ Ordering.lt
    → compare_pre xs zs ≡ Ordering.lt
unfolding compare_pre
compare_pre_trans [] [] zs h k = cc
compare_pre_trans [] (y ∷ ys) zs h k = cc
compare_pre_trans (x ∷ xs) [] [] h k = cc
compare_pre_trans (x ∷ xs) [] (z ∷ zs) h k = cc
compare_pre_trans (x ∷ xs) (y ∷ ys) [] h k = refl
compare_pre_trans (x ∷ xs) (y ∷ ys) (z ∷ zs) h k =
    compare_parts_trans (x ∷ xs) (y ∷ ys) (z ∷ zs) h k

compare_semver_trans :
    (a b c : Semver)
    → compare_semver a b ≡ Ordering.lt
    → compare_semver b c ≡ Ordering.lt
    → compare_semver a c ≡ Ordering.lt
unfolding compare_semver
compare_semver_trans a b c h k = ground (
  arith,
  compare_int_trans a.major b.major c.major,
  compare_int_trans a.minor b.minor c.minor,
  compare_int_trans a.patch b.patch c.patch,
  compare_int-eq a.major b.major,
  compare_int-eq b.major c.major,
  compare_int-eq a.minor b.minor,
  compare_int-eq b.minor c.minor,
  compare_int-eq a.patch b.patch,
  compare_int-eq b.patch c.patch,
  compare_int_refl a.major,
  compare_int_refl a.minor,
  compare_int_refl a.patch,
  compare_pre_trans a.pre b.pre c.pre,
)

module _ (to_lower : ℕ → ℕ) where
  compared :
      (a b : Text) {o : Ordering}
      → compare_versions to_lower a b ≡ ok o
      → (l : Semver) × (r : Semver) × (parse_semver to_lower a ≡ ok l)
        × (parse_semver to_lower b ≡ ok r)
        × (compare_semver l r ≡ o)
  unfolding compare_versions
  compared a b h =
      let (l, e, rest) =
        >>=-eq-ok (parse_semver to_lower a)
          (λ l. parse_semver to_lower b >>= λ r. ok (compare_semver l r)) h in
      let (r, f, same) = >>=-eq-ok (parse_semver to_lower b) (λ r. ok (compare_semver l r)) rest in
      (l, r, e, f, ground arith)

  -- When `CompareVersions` of two strings answers, it answers the opposite on the swapped strings.
  pub compare_versions_swap :
      (left right : Text) (o : Ordering)
      → compare_versions to_lower left right ≡ ok o
      → compare_versions to_lower right left ≡ ok (opposite o)
  unfolding compare_versions
  compare_versions_swap left right o h =
      let (l, r, e, f, same) = compared left right h in ground (arith, compare_semver_swap l r)

  -- If `CompareVersions` puts a first string before a second and the second before a third, it puts
  -- the first before the third.
  pub compare_versions_trans :
      (a b c : Text)
      → compare_versions to_lower a b ≡ ok Ordering.lt
      → compare_versions to_lower b c ≡ ok Ordering.lt
      → compare_versions to_lower a c ≡ ok Ordering.lt
  unfolding compare_versions
  compare_versions_trans a b c h k =
      let (x, y, e, f, xy) = compared a b h in
      let (y', z, f', g, yz) = compared b c k in ground (arith, compare_semver_trans x y z)
