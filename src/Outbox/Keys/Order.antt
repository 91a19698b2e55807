-- ===== src/Outbox/Keys/Order.antt =====
-- The byte order of the due index is the order of due times, then of sequence numbers.
use native.Mathlib.Nat.{div-add-mod, mod-lt, pow-suc, mul_comm, mod-eq_of_lt}
use loramapr_receiver.Base.{
  ℕ, zero, suc, ◌+◌, ◌-◌, ◌*◌, ◌/◌, ◌%◌, ◌^◌, ◌≤◌, ◌<◌, ◌≡◌, refl, ap, ◌∙◌, subst, ◌++◌, Ordering,
  Text, compare_text, arith, length, take, take-append, length-append,
}
use loramapr_receiver.Outbox.Types.{Time}
use loramapr_receiver.Outbox.Keys.{
  unix_epoch, unix_nano, time_of_unix_nano, big_endian, from_big_endian, due_key, due_timestamp,
}

-- The leading digit and the rest of two numbers in order.
module _ (a b m : ℕ) (positive : 0 < m) where
  div-le : a ≤ b → a / m ≤ b / m
  div-le h = grind (arith, div-add-mod a m, div-add-mod b m, mod-lt)

  div-lt : a < 256 * m → a / m < 256
  div-lt h = grind arith

  mod-lt_of_div-eq : a < b → a / m ≡ b / m → a % m < b % m
  mod-lt_of_div-eq h e = grind arith

pub length-big_endian : (width n : ℕ) → length (big_endian width n) ≡ width
unfolding big_endian
length-big_endian zero n = refl
length-big_endian (suc width) n = ap suc (length-big_endian width (n % 256 ^ width))

pow-pos : (w : ℕ) → 0 < 256 ^ w
pow-pos zero = omega arith
pow-pos (suc w) = omega (arith, pow-suc 256 w, pow-pos w)

pub compare-big_endian_lt :
    (w a b : ℕ) (s t : Text)
    → a < 256 ^ w
    → b < 256 ^ w
    → a < b
    → compare_text (big_endian w a ++ s) (big_endian w b ++ t) ≡ Ordering.lt
unfolding compare_text big_endian
compare-big_endian_lt zero a b s t ha hb h = absurd (omega arith)
compare-big_endian_lt (suc w) a b s t ha hb h =
    let top : 256 ^ suc w ≡ 256 ^ w * 256 = pow-suc 256 w in
    let pos = pow-pos w in
    let qa = div-lt a b (256 ^ w) pos (omega (arith, top)) in
    let qb = div-lt b a (256 ^ w) pos (omega (arith, top)) in
    let ra = mod-lt a pos in
    let rb = mod-lt b pos in
    let order = div-le a b (256 ^ w) pos (omega arith) in
    ground (
      arith,
      mod-lt_of_div-eq a b (256 ^ w) pos h,
      compare-big_endian_lt w (a % 256 ^ w) (b % 256 ^ w) s t ra rb,
    )

pub compare-big_endian_eq :
    (w a : ℕ) (s t : Text)
    → compare_text (big_endian w a ++ s) (big_endian w a ++ t) ≡ compare_text s t
unfolding compare_text big_endian
compare-big_endian_eq zero a s t = refl
compare-big_endian_eq (suc w) a s t = ground (arith, compare-big_endian_eq w (a % 256 ^ w) s t)

-- The times that a key orders: the Unix epoch up to the year 2262.
pub record InRange (at : Time) : Type 0 where
  pub after_epoch : unix_epoch ≤ at
  pub before_2262 : at < unix_epoch + 2 ^ 63

pub unix_nano-InRange : (at : Time) → InRange at → unix_nano at ≡ at - unix_epoch
unfolding unix_nano
unix_nano-InRange at r = omega arith

pub unix_nano-lt : (at : Time) → unix_nano at < 256 ^ 8
unfolding unix_nano
unix_nano-lt at = omega arith

pub compare-due_key_time :
    (a b : Time) (n m : ℕ) (i j : Text)
    → InRange a
    → InRange b
    → a < b
    → compare_text (due_key a n i) (due_key b m j) ≡ Ordering.lt
unfolding due_key
compare-due_key_time a b n m i j ra rb h =
    compare-big_endian_lt 8 (unix_nano a) (unix_nano b) (big_endian 8 n ++ i) (big_endian 8 m ++ j)
      (unix_nano-lt a) (unix_nano-lt b)
      (omega (arith, unix_nano-InRange a ra, unix_nano-InRange b rb))

pub compare-due_key_sequence :
    (a : Time) (n m : ℕ) (i j : Text)
    → n < 2 ^ 64
    → m < 2 ^ 64
    → n < m
    → compare_text (due_key a n i) (due_key a m j) ≡ Ordering.lt
unfolding due_key
compare-due_key_sequence a n m i j hn hm h =
    compare-big_endian_eq 8 (unix_nano a) (big_endian 8 n ++ i) (big_endian 8 m ++ j)
    ∙ compare-big_endian_lt 8 n m i j (omega arith) (omega arith) h

from-big_endian : (w a : ℕ) → a < 256 ^ w → from_big_endian (big_endian w a) ≡ a
unfolding from_big_endian big_endian
from-big_endian zero a h = omega arith
from-big_endian (suc w) a h =
    let top : 256 ^ suc w ≡ 256 ^ w * 256 = pow-suc 256 w in
    let q = div-lt a a (256 ^ w) (pow-pos w) (omega (arith, top)) in
    let ih = from-big_endian w (a % 256 ^ w) (mod-lt a (pow-pos w)) in
    let size = length-big_endian w (a % 256 ^ w) in
    rw (size, ih, mod-eq_of_lt q)
      (omega (arith, div-add-mod a (256 ^ w), mul_comm (256 ^ w) (a / 256 ^ w)))

-- Reading 64 bits as a signed number gives the time back, from 1677 to 2262.
time_of_unix_nano_lem :
    (at : Time)
    → unix_epoch - 2 ^ 63 ≤ at
    → at < unix_epoch + 2 ^ 63
    → time_of_unix_nano (unix_nano at) ≡ at
unfolding time_of_unix_nano unix_nano
time_of_unix_nano_lem at h k = ground arith

pub due_timestamp-due_key :
    (at : Time) (n : ℕ) (id : Text)
    → unix_epoch - 2 ^ 63 ≤ at
    → at < unix_epoch + 2 ^ 63
    → due_timestamp (due_key at n id) ≡ at
unfolding due_timestamp due_key
due_timestamp-due_key at n id h k =
    let x : ℕ = unix_nano at in
    let rest : Text = big_endian 8 n ++ id in
    let first : take 8 (big_endian 8 x ++ rest) ≡ big_endian 8 x =
      subst (λ k. take k (big_endian 8 x ++ rest) ≡ big_endian 8 x) (length-big_endian 8 x)
        (take-append (big_endian 8 x) rest) in
    let long : length (big_endian 8 x ++ rest) ≡ 8 + length rest =
      length-append (big_endian 8 x) rest
      ∙ ap (λ (k : ℕ). k + length rest) (length-big_endian 8 x) in
    ground (arith, first, long, from-big_endian 8 x (unix_nano-lt at), time_of_unix_nano_lem at h k)
