-- ===== src/Meshtastic/Protobuf.antt =====
-- internal/meshtastic/native_serial.go: protobuf's wire format. A byte is a number below 256, a
-- `uint64` one below 2^64.
pub mod Varints
pub mod Fields
pub mod Wire
use loramapr_receiver.Base.{
  ℕ, zero, suc, ◌+◌, ◌-◌, ◌*◌, ◌/◌, ◌%◌, ◌^◌, Bool, true, false, Option, none, some, List, [], ◌∷◌,
  Result, ok, err, ◌>>=◌, ◌>>◌, refuse, ltb, ◌==◌, length, take, drop, if◌then◌else◌,
  unexpected_eof, invalid_varint, invalid_key, unsupported_wire_type,
}

-- The loop of `decodeProtoVarint`: `left` turns are left, `scale` is 1 << (7 * index). The bits of
-- `out` lie below those of the shifted byte, so that `|` adds.
unfoldable pub varint_loop : (left scale out index : ℕ) → List ℕ → Option (ℕ × ℕ)
varint_loop zero scale out index payload = none
varint_loop (suc left) scale out index [] = none
varint_loop (suc left) scale out index (b ∷ payload) =
    let out' = out + (b % 128 * scale) % 2 ^ 64 in
    let rest = varint_loop left (scale * 128) out' (suc index) payload in
    if ltb b 128 then some (out', suc index) else rest

abbrev pub varint_error : List ℕ → Result (ℕ × ℕ)
varint_error [] = err unexpected_eof
varint_error (b ∷ bs) = err invalid_varint

-- What follows the loop, if it has not returned.
abbrev pub loop_result : List ℕ → Option (ℕ × ℕ) → Result (ℕ × ℕ)
loop_result payload (some r) = ok r
loop_result payload none = varint_error payload

-- The value and the number of bytes consumed.
unfoldable pub decode_proto_varint : List ℕ → Result (ℕ × ℕ)
unfolding varint_loop
decode_proto_varint payload = loop_result payload (varint_loop 10 1 0 0 payload)

-- The loop of `encodeProtoVarint`, on fuel: ten bytes hold 64 bits.
unfoldable pub encode_loop : (fuel value : ℕ) → List ℕ
encode_loop zero value = []
encode_loop (suc fuel) value =
    let rest = encode_loop fuel (value / 128) in
    if ltb value 128 then value ∷ [] else (value % 128 + 128) ∷ rest

unfoldable pub encode_proto_varint : ℕ → List ℕ
unfolding encode_loop
encode_proto_varint value = if value == 0 then 0 ∷ [] else encode_loop 10 value

pub record ProtoField : Type 0 where
  pub number : ℕ
  pub wire_type : ℕ
  pub varint : ℕ
  pub fixed32 : ℕ
  pub fixed64 : ℕ
  pub bytes : List ℕ

-- binary.LittleEndian
unfoldable pub little_endian : List ℕ → ℕ
little_endian [] = 0
little_endian (b ∷ bs) = b + 256 * little_endian bs

-- The field of a key, without its value.
abbrev pub keyed : ℕ → ProtoField
keyed key = record {
  number = key / 8;
  wire_type = key % 8;
  varint = 0;
  fixed32 = 0;
  fixed64 = 0;
  bytes = [];
}

-- The cases of the switch on the wire type: the field, and what follows it.
abbrev pub varint_value : ℕ → List ℕ → Result (ProtoField × List ℕ)
varint_value key payload = decode_proto_varint payload >>= λ (v : ℕ × ℕ).
    ok (record (keyed key) { varint = v.0 }, drop v.1 payload)

abbrev pub fixed64_value : ℕ → List ℕ → Result (ProtoField × List ℕ)
fixed64_value key payload =
    if ltb (length payload) 8
    then err unexpected_eof
    else ok (record (keyed key) { fixed64 = little_endian (take 8 payload) }, drop 8 payload)

abbrev pub counted_bytes : ℕ → ℕ → List ℕ → Result (ProtoField × List ℕ)
counted_bytes key n rest =
    if ltb (length rest) n
    then err unexpected_eof
    else ok (record (keyed key) { bytes = take n rest }, drop n rest)

abbrev pub bytes_value : ℕ → List ℕ → Result (ProtoField × List ℕ)
bytes_value key payload =
    decode_proto_varint payload >>= λ (n : ℕ × ℕ). counted_bytes key n.0 (drop n.1 payload)

abbrev pub fixed32_value : ℕ → List ℕ → Result (ProtoField × List ℕ)
fixed32_value key payload =
    if ltb (length payload) 4
    then err unexpected_eof
    else ok (record (keyed key) { fixed32 = little_endian (take 4 payload) }, drop 4 payload)

unfoldable pub decode_value : ℕ → List ℕ → Result (ProtoField × List ℕ)
decode_value key payload =
    let wire_type = key % 8 in
    if wire_type == 0
    then varint_value key payload
    else if wire_type == 1
    then fixed64_value key payload
    else if wire_type == 2
    then bytes_value key payload
    else if wire_type == 5
    then fixed32_value key payload
    else err unsupported_wire_type

-- One turn of the loop.
unfoldable pub decode_field : List ℕ → Result (ProtoField × List ℕ)
unfolding decode_value
decode_field payload = do
  (key, consumed) ← decode_proto_varint payload
  refuse (key == 0) invalid_key
  decode_value key (drop consumed payload)

-- The loop, on fuel.
unfoldable pub fields_on : ℕ → List ℕ → Result (List ProtoField)
fields_on fuel [] = ok []
fields_on zero (b ∷ bs) = err unexpected_eof
fields_on (suc fuel) (b ∷ bs) = do
  (field, rest) ← decode_field (b ∷ bs)
  fields ← fields_on fuel rest
  ok (field ∷ fields)

-- Each turn takes at least a byte, so the length is fuel enough.
unfoldable pub decode_proto_fields : List ℕ → Result (List ProtoField)
unfolding fields_on
decode_proto_fields payload = fields_on (length payload) payload

-- `uint32(v)` of a varint, or the fixed value.
unfoldable pub field_uint32 : ProtoField → Option ℕ
field_uint32 field =
    if field.wire_type == 0
    then some (field.varint % 2 ^ 32)
    else if field.wire_type == 5
    then some field.fixed32
    else none
