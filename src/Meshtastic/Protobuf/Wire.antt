-- ===== src/Meshtastic/Protobuf/Wire.antt =====
-- native_serial.go: messages in protobuf's wire format are decoded to their fields.
use loramapr_receiver.Base.{
  ℕ, zero, suc, ◌+◌, ◌*◌, ◌/◌, ◌%◌, ◌^◌, ◌<◌, true, false, List, [], ◌∷◌, ◌++◌, map, ◌≡◌, refl, ap,
  ◌∙◌, Result, ok, err, ◌>>=◌, ◌>>◌, refuse, invalid_key, arith, ltb, le→ltb-false, ◌==◌, length,
  length-append, append_assoc, take, drop, take-append, drop-append, if◌then◌else◌, unexpected_eof,
  All,
}
use loramapr_receiver.Meshtastic.Protobuf.{
  ProtoField, keyed, little_endian, varint_value, fixed64_value, fixed32_value, counted_bytes,
  bytes_value, decode_proto_varint, encode_proto_varint, decode_value, decode_field,
  decode_proto_fields,
}
use loramapr_receiver.Meshtastic.Protobuf.Varints.{decode-encode_proto_varint}
use loramapr_receiver.Meshtastic.Protobuf.Fields.{decode_proto_fields_turn, decode_field_shorter}

-- The fields of the four wire types that the decoder supports, in protobuf's encoding: a key, and a
-- varint, four or eight bytes from the lowest, or a length and as many bytes.
pub data WireField : Type 0 where
  varint_wire : (number value : ℕ) → WireField
  fixed32_wire : (number value : ℕ) → WireField
  fixed64_wire : (number value : ℕ) → WireField
  bytes_wire : (number : ℕ) → List ℕ → WireField

-- The lowest bytes of a number, the lowest first.
unfoldable pub low_bytes : ℕ → ℕ → List ℕ
low_bytes zero v = []
low_bytes (suc n) v = v % 256 ∷ low_bytes n (v / 256)

abbrev pub encode_wire : WireField → List ℕ
encode_wire (varint_wire n v) = encode_proto_varint (n * 8) ++ encode_proto_varint v
encode_wire (fixed32_wire n v) = encode_proto_varint (n * 8 + 5) ++ low_bytes 4 v
encode_wire (fixed64_wire n v) = encode_proto_varint (n * 8 + 1) ++ low_bytes 8 v
encode_wire (bytes_wire n bs) =
    encode_proto_varint (n * 8 + 2) ++ (encode_proto_varint (length bs) ++ bs)

abbrev pub encode_message : List WireField → List ℕ
encode_message [] = []
encode_message (w ∷ ws) = encode_wire w ++ encode_message ws

abbrev pub as_field : WireField → ProtoField
as_field (varint_wire n v) = record {
  number = n;
  wire_type = 0;
  varint = v;
  fixed32 = 0;
  fixed64 = 0;
  bytes = [];
}
as_field (fixed32_wire n v) = record {
  number = n;
  wire_type = 5;
  varint = 0;
  fixed32 = v;
  fixed64 = 0;
  bytes = [];
}
as_field (fixed64_wire n v) = record {
  number = n;
  wire_type = 1;
  varint = 0;
  fixed32 = 0;
  fixed64 = v;
  bytes = [];
}
as_field (bytes_wire n bs) = record {
  number = n;
  wire_type = 2;
  varint = 0;
  fixed32 = 0;
  fixed64 = 0;
  bytes = bs;
}

-- A number from 1 that fits in a key, and a value that fits in its bytes, or a length in a varint.
abbrev pub IsWritable : WireField → Type 0
IsWritable (varint_wire n v) = (0 < n) × (n < 2 ^ 61) × (v < 2 ^ 64)
IsWritable (fixed32_wire n v) = (0 < n) × (n < 2 ^ 61) × (v < 2 ^ 32)
IsWritable (fixed64_wire n v) = (0 < n) × (n < 2 ^ 61) × (v < 2 ^ 64)
IsWritable (bytes_wire n bs) = (0 < n) × (n < 2 ^ 61) × (length bs < 2 ^ 64)

-- A varint, and then what `rest` makes of the bytes after it.
after_varint :
    {A : Type 0} (v : ℕ) (more : List ℕ) (rest : ℕ × ℕ → Result A)
    → v < 2 ^ 64
    → (decode_proto_varint (encode_proto_varint v ++ more) >>= rest)
      ≡ rest (v, length (encode_proto_varint v))
after_varint v more rest h = ap (λ r. r >>= rest) (decode-encode_proto_varint v more h)

after_key :
    (key : ℕ) (more : List ℕ)
    → key < 2 ^ 64
    → 0 < key
    → decode_field (encode_proto_varint key ++ more) ≡ decode_value key more
unfolding decode_field
after_key key more h k =
    let input = encode_proto_varint key ++ more in
    let nonzero : (key == 0) ≡ false = ground (arith, k) in
    after_varint key more
      (λ (x : ℕ × ℕ). refuse (x.0 == 0) invalid_key >> decode_value x.0 (drop x.1 input)) h
    ∙ ap
        (λ b.
          refuse b invalid_key >> decode_value key (drop (length (encode_proto_varint key)) input))
        nonzero
    ∙ ap (λ x. decode_value key x) (drop-append (encode_proto_varint key) more)

ok_pair :
    {A B : Type 0} {a a' : A} {b b' : B}
    → a ≡ a'
    → b ≡ b'
    → ◌≡◌ {A = Result (A × B)} (ok (a, b)) (ok (a', b'))
ok_pair e f = cc (e, f)

varint_decoded :
    (n v : ℕ) (rest : List ℕ)
    → v < 2 ^ 64
    → varint_value (n * 8) (encode_proto_varint v ++ rest) ≡ ok (as_field (varint_wire n v), rest)
varint_decoded n v rest h =
    let input = encode_proto_varint v ++ rest in
    let quotient : n * 8 / 8 ≡ n = omega arith in
    let remainder : n * 8 % 8 ≡ 0 = omega arith in
    after_varint v rest
      (λ (x : ℕ × ℕ). ok (record (keyed (n * 8)) { varint = x.0 }, drop x.1 input)) h
    ∙ ok_pair (cc (quotient, remainder)) (drop-append (encode_proto_varint v) rest)

little_endian-low_bytes4 : (v : ℕ) → v < 2 ^ 32 → little_endian (low_bytes 4 v) ≡ v
unfolding little_endian low_bytes
little_endian-low_bytes4 v h = omega (arith, h)

little_endian-low_bytes8 : (v : ℕ) → v < 2 ^ 64 → little_endian (low_bytes 8 v) ≡ v
unfolding little_endian low_bytes
little_endian-low_bytes8 v h = omega (arith, h)

length-low_bytes : (n v : ℕ) → length (low_bytes n v) ≡ n
unfolding low_bytes
length-low_bytes zero v = refl
length-low_bytes (suc n) v = ap suc (length-low_bytes n (v / 256))

fixed32_decoded :
    (n v : ℕ) (rest : List ℕ)
    → v < 2 ^ 32
    → fixed32_value (n * 8 + 5) (low_bytes 4 v ++ rest) ≡ ok (as_field (fixed32_wire n v), rest)
unfolding low_bytes
fixed32_decoded n v rest h =
    let key : ℕ = n * 8 + 5 in
    let bs = low_bytes 4 v in
    let quotient : key / 8 ≡ n = omega arith in
    let remainder : key % 8 ≡ 5 = omega arith in
    let fits : ltb (length (bs ++ rest)) 4 ≡ false =
      le→ltb-false (length (bs ++ rest)) 4
        (omega (arith, length-append bs rest, length-low_bytes 4 v)) in
    ap
      (λ b.
        if b
        then err unexpected_eof
        else ok (
          record (keyed key) { fixed32 = little_endian (take 4 (bs ++ rest)) },
          drop 4 (bs ++ rest),
        ))
      fits
    ∙ ok_pair (cc (quotient, remainder, little_endian-low_bytes4 v h)) refl

fixed64_decoded :
    (n v : ℕ) (rest : List ℕ)
    → v < 2 ^ 64
    → fixed64_value (n * 8 + 1) (low_bytes 8 v ++ rest) ≡ ok (as_field (fixed64_wire n v), rest)
unfolding low_bytes
fixed64_decoded n v rest h =
    let key : ℕ = n * 8 + 1 in
    let bs = low_bytes 8 v in
    let quotient : key / 8 ≡ n = omega arith in
    let remainder : key % 8 ≡ 1 = omega arith in
    let fits : ltb (length (bs ++ rest)) 8 ≡ false =
      le→ltb-false (length (bs ++ rest)) 8
        (omega (arith, length-append bs rest, length-low_bytes 8 v)) in
    ap
      (λ b.
        if b
        then err unexpected_eof
        else ok (
          record (keyed key) { fixed64 = little_endian (take 8 (bs ++ rest)) },
          drop 8 (bs ++ rest),
        ))
      fits
    ∙ ok_pair (cc (quotient, remainder, little_endian-low_bytes8 v h)) refl

bytes_decoded :
    (n : ℕ) (bs rest : List ℕ)
    → length bs < 2 ^ 64
    → bytes_value (n * 8 + 2) (encode_proto_varint (length bs) ++ (bs ++ rest))
      ≡ ok (as_field (bytes_wire n bs), rest)
bytes_decoded n bs rest h =
    let key : ℕ = n * 8 + 2 in
    let input = encode_proto_varint (length bs) ++ (bs ++ rest) in
    let quotient : key / 8 ≡ n = omega arith in
    let remainder : key % 8 ≡ 2 = omega arith in
    let fits : ltb (length (bs ++ rest)) (length bs) ≡ false =
      le→ltb-false (length (bs ++ rest)) (length bs) (omega (arith, length-append bs rest)) in
    after_varint (length bs) (bs ++ rest) (λ (x : ℕ × ℕ). counted_bytes key x.0 (drop x.1 input)) h
    ∙ ap (λ x. counted_bytes key (length bs) x)
        (drop-append (encode_proto_varint (length bs)) (bs ++ rest))
    ∙ ap
        (λ b.
          if b
          then err unexpected_eof
          else ok (
            record (keyed key) { bytes = take (length bs) (bs ++ rest) },
            drop (length bs) (bs ++ rest),
          ))
        fits
    ∙ ok_pair (cc (quotient, remainder, take-append bs rest)) (drop-append bs rest)

wire_decoded :
    (w : WireField) (rest : List ℕ)
    → IsWritable w
    → decode_field (encode_wire w ++ rest) ≡ ok (as_field w, rest)
unfolding decode_value
wire_decoded (varint_wire n v) rest (pos, low, h) =
    let key : ℕ = n * 8 in
    let zero_type : ((key % 8) == 0) ≡ true = ground arith in
    ap decode_field (append_assoc (encode_proto_varint key) (encode_proto_varint v) rest)
    ∙ after_key key (encode_proto_varint v ++ rest) (omega (arith, low)) (omega (arith, pos))
    ∙ ground (arith, zero_type)
    ∙ varint_decoded n v rest h
wire_decoded (fixed32_wire n v) rest (pos, low, h) =
    let key : ℕ = n * 8 + 5 in
    let five : key % 8 ≡ 5 = omega arith in
    ap decode_field (append_assoc (encode_proto_varint key) (low_bytes 4 v) rest)
    ∙ after_key key (low_bytes 4 v ++ rest) (omega (arith, low)) (omega (arith, pos))
    ∙ ground (arith, five)
    ∙ fixed32_decoded n v rest h
wire_decoded (fixed64_wire n v) rest (pos, low, h) =
    let key : ℕ = n * 8 + 1 in
    let one : key % 8 ≡ 1 = omega arith in
    ap decode_field (append_assoc (encode_proto_varint key) (low_bytes 8 v) rest)
    ∙ after_key key (low_bytes 8 v ++ rest) (omega (arith, low)) (omega (arith, pos))
    ∙ ground (arith, one)
    ∙ fixed64_decoded n v rest h
wire_decoded (bytes_wire n bs) rest (pos, low, h) =
    let key : ℕ = n * 8 + 2 in
    let two : key % 8 ≡ 2 = omega arith in
    let more = encode_proto_varint (length bs) in
    ap decode_field (
      append_assoc (encode_proto_varint key) (more ++ bs) rest
      ∙ ap (λ x. encode_proto_varint key ++ x) (append_assoc more bs rest))
    ∙ after_key key (more ++ (bs ++ rest)) (omega (arith, low)) (omega (arith, pos))
    ∙ ground (arith, two)
    ∙ bytes_decoded n bs rest h

turn_of :
    (payload : List ℕ)
    → 0 < length payload
    → decode_proto_fields payload ≡ (
        decode_field payload >>= λ (x : ProtoField × List ℕ).
        decode_proto_fields x.1 >>= λ fs. ok (x.0 ∷ fs))
turn_of [] h = absurd (omega (arith, h))
turn_of (b ∷ bs) h = decode_proto_fields_turn b bs

no_fields : decode_proto_fields [] ≡ ok []
unfolding decode_proto_fields
no_fields = refl

-- A message of fields of the four wire types that the decoder supports (varint, fixed64, bytes and
-- fixed32), with numbers from 1 to 2^61 - 1, varints and lengths below 2^64 and fixed values within
-- their bytes, is decoded to exactly these fields, in their order.
pub decode_proto_fields-encode_message :
    (ws : List WireField)
    → All IsWritable ws
    → decode_proto_fields (encode_message ws) ≡ ok (map as_field ws)
decode_proto_fields-encode_message [] h = no_fields
decode_proto_fields-encode_message (w ∷ ws) h =
    let e = wire_decoded w (encode_message ws) h.0 in
    let s = decode_field_shorter (encode_message (w ∷ ws)) (encode_message ws) (as_field w) e in
    turn_of (encode_message (w ∷ ws)) (omega (arith, s))
    ∙ ap
        (λ (r : Result (ProtoField × List ℕ)).
          r >>= λ (x : ProtoField × List ℕ). decode_proto_fields x.1 >>= λ fs. ok (x.0 ∷ fs))
        e
    ∙ ap (λ (r : Result (List ProtoField)). r >>= λ fs. ok (as_field w ∷ fs))
        (decode_proto_fields-encode_message ws h.1)
