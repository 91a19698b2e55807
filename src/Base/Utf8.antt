-- ===== src/Base/Utf8.antt =====
-- Go's strings as bytes: the length of a text in UTF-8, and `s[:n]`. Of a code point that `s[:n]`
-- splits, each byte that is left stands as U+FFFD, which json.Marshal writes for it.
use Prim.Native.Nat.{ℕ, zero, suc, ◌+◌, ◌-◌}
use mathlib.Core.Bool.{Bool, true, false, ◌||◌}
use mathlib.Core.List.{[], ◌∷◌}
use loramapr_receiver.Base.Tests.{ltb, leb, ◌==◌, if◌then◌else◌}
use loramapr_receiver.Base.Texts.{Text}

-- utf8.RuneLen
abbrev pub rune_len : ℕ → ℕ
rune_len c = if ltb c 0x80 then 1 else if ltb c 0x800 then 2 else if ltb c 0x10000 then 3 else 4

-- `len(s)`
abbrev pub byte_length : Text → ℕ
byte_length [] = 0
byte_length (c ∷ cs) = rune_len c + byte_length cs

replacements : ℕ → Text
replacements zero = []
replacements (suc n) = 0xfffd ∷ replacements n

-- `s[:n]`
unfoldable pub cut : ℕ → Text → Text
unfolding replacements
cut n [] = []
cut n (c ∷ cs) =
    let rest = cut (n - rune_len c) cs in if leb (rune_len c) n then c ∷ rest else replacements n

starts_with : Text → Text → Bool
starts_with [] s = true
starts_with (p ∷ ps) [] = false
starts_with (p ∷ ps) (c ∷ s) = if p == c then starts_with ps s else false

-- strings.Contains(s, part)
unfoldable pub contains : Text → Text → Bool
unfolding starts_with
contains [] part = starts_with part []
contains (c ∷ s) part = let rest = contains s part in starts_with part (c ∷ s) || rest
