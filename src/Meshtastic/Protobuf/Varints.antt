-- ===== src/Meshtastic/Protobuf/Varints.antt =====
-- native_serial.go: varints are read back, and every turn of the loop over the fields takes a byte.
use loramapr_receiver.Base.{
  ℕ, zero, suc, ◌+◌, ◌*◌, ◌/◌, ◌%◌, ◌^◌, ◌≤◌, ◌<◌, some, List, [], ◌∷◌, ◌++◌, ◌≡◌, sym, ap, ◌∙◌,
  subst, inl, inr, Bool-cases, Option-cases, ok, arith, ltb, ltb→lt, ltb-false→le, length,
}
use loramapr_receiver.Meshtastic.Protobuf.{
  varint_error, loop_result, varint_loop, decode_proto_varint, encode_loop, encode_proto_varint,
}

divided : (v : ℕ) → v ≡ v % 128 + 128 * (v / 128)
divided v = omega arith

split_scaled : (v scale : ℕ) → v % 128 * scale + v / 128 * (scale * 128) ≡ v * scale
split_scaled v scale =
    let joined : v % 128 * scale + v / 128 * (scale * 128) ≡ (v % 128 + 128 * (v / 128)) * scale =
      grind arith in
    joined ∙ ap (λ x. x * scale) (sym (divided v))

encode_last : (fuel v : ℕ) → v < 128 → encode_loop (suc fuel) v ≡ v ∷ []
unfolding encode_loop
encode_last fuel v h = ground (arith, h)

encode_more :
    (fuel v : ℕ) → 128 ≤ v → encode_loop (suc fuel) v ≡ (v % 128 + 128) ∷ encode_loop fuel (v / 128)
unfolding encode_loop
encode_more fuel v h = ground (arith, h)

loop_last :
    (left scale out index b : ℕ) (rest : List ℕ)
    → b < 128
    → varint_loop (suc left) scale out index (b ∷ rest)
      ≡ some (out + (b % 128 * scale) % 2 ^ 64, suc index)
unfolding varint_loop
loop_last left scale out index b rest h = ground (arith, h)

loop_more :
    (left scale out index b : ℕ) (rest : List ℕ)
    → 128 ≤ b
    → varint_loop (suc left) scale out index (b ∷ rest)
      ≡ varint_loop left (scale * 128) (out + (b % 128 * scale) % 2 ^ 64) (suc index) rest
unfolding varint_loop
loop_more left scale out index b rest h = ground (arith, h)

quotient_bound : (left v : ℕ) → v < 128 ^ suc (suc left) → v / 128 < 128 ^ suc left
quotient_bound left v h = grind arith

scaled_low :
    (out v scale : ℕ) → out + v * scale < 2 ^ 64 → (v % 128 * scale) % 2 ^ 64 ≡ v % 128 * scale
scaled_low out v scale h = let e = split_scaled v scale in omega (arith, e, h)

small_encoded :
    (left scale out index v : ℕ) (rest : List ℕ)
    → v < 128
    → out + v * scale < 2 ^ 64
    → varint_loop (suc left) scale out index (encode_loop (suc left) v ++ rest)
      ≡ some (out + v * scale, index + length (encode_loop (suc left) v))
small_encoded left scale out index v rest h k =
    let low : v % 128 ≡ v = omega (arith, h) in
    let fits : (v % 128 * scale) % 2 ^ 64 ≡ v * scale =
      scaled_low out v scale k ∙ ap (λ x. x * scale) low in
    let e = encode_last left v h in
    ap (λ x. varint_loop (suc left) scale out index (x ++ rest)) e
    ∙ loop_last left scale out index v rest h
    ∙ ap (λ x. some (out + x, suc index)) fits
    ∙ ap (λ n. some (out + v * scale, n)) (omega (arith, ap length e))

loop_encoded :
    (left scale out index v : ℕ) (rest : List ℕ)
    → v < 128 ^ suc left
    → out + v * scale < 2 ^ 64
    → varint_loop (suc left) scale out index (encode_loop (suc left) v ++ rest)
      ≡ some (out + v * scale, index + length (encode_loop (suc left) v))
loop_encoded zero scale out index v rest h k =
    small_encoded zero scale out index v rest (omega (arith, h)) k
loop_encoded (suc left) scale out index v rest h k = elim (Bool-cases (ltb v 128)) [
  | inl e ↦ small_encoded (suc left) scale out index v rest (ltb→lt v 128 e) k
  | inr e ↦
      let big = ltb-false→le v 128 e in
      let c = encode_more (suc left) v big in
      let fits = scaled_low out v scale k in
      let low : (v % 128 + 128) % 128 ≡ v % 128 = omega arith in
      let out' : ℕ = out + v % 128 * scale in
      let whole : out' + v / 128 * (scale * 128) ≡ out + v * scale =
        omega (arith, split_scaled v scale) in
      let again =
        loop_encoded left (scale * 128) out' (suc index) (v / 128) rest (quotient_bound left v h)
          (omega (arith, whole, k)) in
      ap (λ x. varint_loop (suc (suc left)) scale out index (x ++ rest)) c
      ∙ loop_more (suc left) scale out index (v % 128 + 128)
          (encode_loop (suc left) (v / 128) ++ rest) (omega arith)
      ∙ ap
          (λ x.
            varint_loop (suc left) (scale * 128) (out + (x * scale) % 2 ^ 64) (suc index)
              (encode_loop (suc left) (v / 128) ++ rest))
          low
      ∙ ap
          (λ x.
            varint_loop (suc left) (scale * 128) (out + x) (suc index)
              (encode_loop (suc left) (v / 128) ++ rest))
          fits
      ∙ again
      ∙ ap (λ x. some (x, suc index + length (encode_loop (suc left) (v / 128)))) whole
      ∙ ap (λ n. some (out + v * scale, n)) (omega (arith, ap length c))
]

encode_zero : encode_loop 10 0 ≡ 0 ∷ []
encode_zero = encode_last 9 0 (omega arith)

encode_is_loop : (v : ℕ) → encode_proto_varint v ≡ encode_loop 10 v
unfolding encode_proto_varint
encode_is_loop v = ground (arith, encode_zero)

-- A varint below 2^64 is read back, with the number of its bytes, whatever follows it.
pub decode-encode_proto_varint :
    (v : ℕ) (rest : List ℕ)
    → v < 2 ^ 64
    → decode_proto_varint (encode_proto_varint v ++ rest) ≡ ok (v, length (encode_proto_varint v))
unfolding decode_proto_varint
decode-encode_proto_varint v rest h =
    let e = encode_is_loop v in
    let found = loop_encoded 9 1 0 0 v rest (omega (arith, h)) (omega (arith, h)) in
    let value : 0 + v * 1 ≡ v = omega arith in
    let count : 0 + length (encode_loop 10 v) ≡ length (encode_loop 10 v) = omega arith in
    let read : varint_loop 10 1 0 0 (encode_loop 10 v ++ rest)
        ≡ some (v, length (encode_loop 10 v)) =
      found
      ∙ ap (λ x. some (x, 0 + length (encode_loop 10 v))) value
      ∙ ap (λ n. some (v, n)) count in
    subst (λ x. decode_proto_varint (x ++ rest) ≡ ok (v, length x)) (sym e)
      (ap (λ o. loop_result (encode_loop 10 v ++ rest) o) read)

loop_index :
    (left scale out index : ℕ) (payload : List ℕ) (v n : ℕ)
    → varint_loop left scale out index payload ≡ some (v, n)
    → (index < n) × (n ≤ index + length payload)
unfolding varint_loop
loop_index zero scale out index payload v n h = absurd (ground (arith, h))
loop_index (suc left) scale out index [] v n h = absurd (ground (arith, h))
loop_index (suc left) scale out index (b ∷ payload) v n h = ground (
  arith,
  h,
  loop_index left (scale * 128) (out + (b % 128 * scale) % 2 ^ 64) (suc index) payload v n,
)

refused : (payload : List ℕ) {r : ℕ × ℕ} → varint_error payload ≡ ok r → ⊥
refused [] h = cc
refused (b ∷ bs) h = cc

-- A varint that is read takes at least a byte, and no more than there are.
pub decode_proto_varint_consumed :
    (payload : List ℕ) (v n : ℕ)
    → decode_proto_varint payload ≡ ok (v, n)
    → (0 < n) × (n ≤ length payload)
unfolding decode_proto_varint
decode_proto_varint_consumed payload v n h = elim (Option-cases (varint_loop 10 1 0 0 payload)) [
  | inl e ↦
      let failed : varint_error payload ≡ ok (v, n) = ground (arith, e, h) in
      absurd (refused payload failed)
  | inr (r, e) ↦
      let (a, b) = loop_index 10 1 0 0 payload v n (ground (arith, e, h)) in (a, omega (arith, b))
]
