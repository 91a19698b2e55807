-- ===== src/Base/Decimal.antt =====
-- Decimal numerals: strconv.Atoi's digits, and `%d` of fmt on a number that is not negative.
use Prim.Native.Nat.{ℕ, zero, suc, ◌+◌, ◌-◌, ◌*◌, ◌/◌, ◌%◌, ◌≤◌}
use mathlib.Core.Path.{◌≡◌}
use mathlib.Core.Bool.{Bool, ◌&&◌}
use mathlib.Core.Option.{Option, none, some}
use mathlib.Core.List.{[], ◌∷◌}
use native.Mathlib.Omega.{arith}
use loramapr_receiver.Base.Tests.{ltb, leb, if◌then◌else◌}
use loramapr_receiver.Base.Texts.{Text}

abbrev pub is_digit : ℕ → Bool
is_digit c = leb 48 c && leb c 57

-- The value of the digits, after digits of value `n`.
unfoldable pub digits_from : ℕ → Text → Option ℕ
digits_from n [] = some n
digits_from n (c ∷ cs) = if is_digit c then digits_from (n * 10 + (c - 48)) cs else none

-- The digits of `n` before those of `rest`, on fuel.
decimal_before : ℕ → ℕ → Text → Text
decimal_before zero n rest = rest
decimal_before (suc fuel) n rest =
    let more = decimal_before fuel (n / 10) ((48 + n % 10) ∷ rest) in
    if ltb n 10 then (48 + n) ∷ rest else more

unfoldable pub decimal : ℕ → Text
unfolding decimal_before
decimal n = decimal_before (suc n) n []

digits-decimal_before :
    (fuel n : ℕ) (rest : Text)
    → suc n ≤ fuel
    → digits_from 0 (decimal_before fuel n rest) ≡ digits_from n rest
unfolding digits_from decimal_before
digits-decimal_before zero n rest h = absurd (omega (arith, h))
digits-decimal_before (suc fuel) n rest h =
    ground (arith, digits-decimal_before fuel (n / 10) ((48 + n % 10) ∷ rest))

-- The fuel is enough: the numeral of a number has its value.
pub digits-decimal : (n : ℕ) → digits_from 0 (decimal n) ≡ some n
unfolding decimal digits_from
digits-decimal n = digits-decimal_before (suc n) n [] (omega arith)
