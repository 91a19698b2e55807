-- ===== src/Clock/Durations.antt =====
-- clock.go: what the tests on durations say of the times.
use loramapr_receiver.Base.{
  ℕ, ◌+◌, ◌-◌, ◌%◌, ◌^◌, ◌≤◌, ◌<◌, false, ◌≡◌, subst, ◌⊎◌, inl, inr, ltb, leb, arith, Bool-cases,
}
use loramapr_receiver.Outbox.Types.{Time}
use loramapr_receiver.Clock.Types.{Sample}
use loramapr_receiver.Clock.Samples.{
  max_receipt_skew, max_offset_delta, max_sample_age, duration_between, duration_minus, abs,
  is_above,
}

-- How far apart two numbers are.
abbrev pub apart : ℕ → ℕ → ℕ
apart a b = (a - b) + (b - a)

-- The receipt is within 292 years of the issue.
abbrev pub IsNear : Sample → Type 0
IsNear s = apart s.received_at s.issued_at < 2 ^ 63

pub within_skew :
    (a b : Time)
    → apart a b < 2 ^ 63
    → is_above max_receipt_skew (abs (duration_between a b)) ≡ false
    → apart a b ≤ max_receipt_skew
unfolding is_above abs duration_between
within_skew a b n h = ground (arith, n, h)

pub within_age :
    (now at : Time)
    → at ≤ now
    → is_above max_sample_age (duration_between now at) ≡ false
    → now ≤ at + max_sample_age
unfolding is_above duration_between
within_age now at n h = ground (arith, n, h)

-- A difference within the skew is its bits.
skew_bits :
    (a b : Time)
    → apart a b ≤ max_receipt_skew
    → ((b ≤ a) × (duration_between a b ≡ a - b))
      ⊎ ((a < b) × (duration_between a b ≡ 2 ^ 64 - (b - a)))
unfolding duration_between
skew_bits a b h = elim (Bool-cases (leb b a)) [
  | inl e ↦ inl (ground (arith, e), ground (arith, e, h))
  | inr e ↦ inr (ground (arith, e), ground (arith, e, h))
]

-- A duration that is at most 2 seconds, positive or negative, or the smallest.
delta_bits :
    (d : ℕ)
    → is_above max_offset_delta (abs d) ≡ false
    → (d ≤ max_offset_delta) ⊎ ((2 ^ 64 ≤ d + max_offset_delta) ⊎ (d ≡ 2 ^ 63))
unfolding is_above abs
delta_bits d h = elim (Bool-cases (ltb d (2 ^ 63))) [
  | inl f ↦ inl (ground (arith, f, h))
  | inr f ↦ elim (Bool-cases (ltb (2 ^ 63) d)) [
    | inl g ↦ inr (inl (ground (arith, f, g, h)))
    | inr g ↦ inr (inr (ground (arith, f, g)))
  ]
]

within_delta :
    (ar ai br bi x y : ℕ)
    → duration_between ar ai ≡ x
    → duration_between br bi ≡ y
    → is_above max_offset_delta
        (abs (duration_minus (duration_between ar ai) (duration_between br bi)))
      ≡ false
    → ((x + 2 ^ 64 - y) % 2 ^ 64 ≤ max_offset_delta)
      ⊎ ((2 ^ 64 ≤ (x + 2 ^ 64 - y) % 2 ^ 64 + max_offset_delta)
          ⊎ ((x + 2 ^ 64 - y) % 2 ^ 64 ≡ 2 ^ 63))
unfolding duration_minus
within_delta ar ai br bi x y e f h = delta_bits ((x + 2 ^ 64 - y) % 2 ^ 64) (
    subst (λ v. is_above max_offset_delta (abs ((x + 2 ^ 64 - v) % 2 ^ 64)) ≡ false) f
      (subst
        (λ u.
          is_above max_offset_delta (abs ((u + 2 ^ 64 - duration_between br bi) % 2 ^ 64)) ≡ false)
        e h))

pub near_offsets :
    (ar ai br bi : ℕ)
    → apart ar ai ≤ max_receipt_skew
    → apart br bi ≤ max_receipt_skew
    → is_above max_offset_delta
        (abs (duration_minus (duration_between ar ai) (duration_between br bi)))
      ≡ false
    → apart (ar + bi) (br + ai) ≤ max_offset_delta
near_offsets ar ai br bi n m h = elim (skew_bits ar ai n) [
  | inl (a, e) ↦ elim (skew_bits br bi m) [
    | inl (b, f) ↦ elim (within_delta ar ai br bi (ar - ai) (br - bi) e f h) [
      | inl k ↦ omega (arith, a, b, n, m, k)
      | inr (inl k) ↦ omega (arith, a, b, n, m, k)
      | inr (inr k) ↦ omega (arith, a, b, n, m, k)
    ]
    | inr (b, f) ↦ elim (within_delta ar ai br bi (ar - ai) (2 ^ 64 - (bi - br)) e f h) [
      | inl k ↦ omega (arith, a, b, n, m, k)
      | inr (inl k) ↦ omega (arith, a, b, n, m, k)
      | inr (inr k) ↦ omega (arith, a, b, n, m, k)
    ]
  ]
  | inr (a, e) ↦ elim (skew_bits br bi m) [
    | inl (b, f) ↦ elim (within_delta ar ai br bi (2 ^ 64 - (ai - ar)) (br - bi) e f h) [
      | inl k ↦ omega (arith, a, b, n, m, k)
      | inr (inl k) ↦ omega (arith, a, b, n, m, k)
      | inr (inr k) ↦ omega (arith, a, b, n, m, k)
    ]
    | inr (b, f) ↦ elim (within_delta ar ai br bi (2 ^ 64 - (ai - ar)) (2 ^ 64 - (bi - br)) e f h) [
      | inl k ↦ omega (arith, a, b, n, m, k)
      | inr (inl k) ↦ omega (arith, a, b, n, m, k)
      | inr (inr k) ↦ omega (arith, a, b, n, m, k)
    ]
  ]
]
