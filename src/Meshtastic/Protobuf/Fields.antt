-- ===== src/Meshtastic/Protobuf/Fields.antt =====
-- native_serial.go: the loop over the fields of a message ends, and reads what the wire format writes.
use loramapr_receiver.Base.{
  ℕ, zero, suc, ◌%◌, ◌≤◌, ◌<◌, Bool, true, false, List, [], ◌∷◌, ◌≡◌, refl, ap, Result, ok, err,
  Error, unsupported_wire_type, ◌>>=◌, ◌>>◌, >>=-eq-ok, refuse-eq-ok, refuse, invalid_key, arith,
  ltb, ◌==◌, length, length-drop, take, drop, if◌then◌else◌, unexpected_eof,
}
use loramapr_receiver.Meshtastic.Protobuf.{
  ProtoField, keyed, little_endian, varint_value, fixed64_value, counted_bytes, bytes_value,
  fixed32_value, decode_proto_varint, decode_value, decode_field, fields_on, decode_proto_fields,
}
use loramapr_receiver.Meshtastic.Protobuf.Varints.{decode_proto_varint_consumed}

drop_shorter : {A : Type 0} (n : ℕ) (xs : List A) → length (drop n xs) ≤ length xs
drop_shorter zero xs = omega arith
drop_shorter (suc n) [] = omega arith
drop_shorter (suc n) (x ∷ xs) = omega (arith, drop_shorter n xs)

-- What a case of the switch leaves is no longer than what it was given.
IsShorter : List ℕ → Result (ProtoField × List ℕ) → Type 0
IsShorter payload r =
    (f : ProtoField) (rest : List ℕ) → r ≡ ok (f, rest) → length rest ≤ length payload

if-IsShorter :
    (payload : List ℕ) (b : Bool) (x y : Result (ProtoField × List ℕ))
    → IsShorter payload x
    → IsShorter payload y
    → IsShorter payload (if b then x else y)
if-IsShorter payload true x y h k = h
if-IsShorter payload false x y h k = k

err-IsShorter : (payload : List ℕ) (e : Error) → IsShorter payload (err e)
unfolding IsShorter
err-IsShorter payload e f rest h = absurd (ground (arith, h))

ok-IsShorter :
    (payload : List ℕ) (f : ProtoField) (n : ℕ) → IsShorter payload (ok (f, drop n payload))
unfolding IsShorter
ok-IsShorter payload f n g rest h =
    let e : drop n payload ≡ rest = ground (arith, h) in
    omega (arith, drop_shorter n payload, ap length e)

fixed-IsShorter :
    (payload : List ℕ) (b : Bool) (f : ProtoField) (n : ℕ)
    → IsShorter payload (if b then err unexpected_eof else ok (f, drop n payload))
fixed-IsShorter payload b f n =
    if-IsShorter payload b (err unexpected_eof) (ok (f, drop n payload))
      (err-IsShorter payload unexpected_eof) (ok-IsShorter payload f n)

varint_value-IsShorter : (key : ℕ) (payload : List ℕ) → IsShorter payload (varint_value key payload)
unfolding IsShorter
varint_value-IsShorter key payload f rest h =
    let (v, e, last) =
      >>=-eq-ok (decode_proto_varint payload)
        (λ (v : ℕ × ℕ). ok (record (keyed key) { varint = v.0 }, drop v.1 payload)) h in
    ok-IsShorter payload (record (keyed key) { varint = v.0 }) v.1 f rest last

bytes_value-IsShorter : (key : ℕ) (payload : List ℕ) → IsShorter payload (bytes_value key payload)
unfolding IsShorter
bytes_value-IsShorter key payload f rest h =
    let (v, e, last) =
      >>=-eq-ok (decode_proto_varint payload)
        (λ (n : ℕ × ℕ). counted_bytes key n.0 (drop n.1 payload)) h in
    let inner =
      fixed-IsShorter (drop v.1 payload) (ltb (length (drop v.1 payload)) v.0)
        (record (keyed key) { bytes = take v.0 (drop v.1 payload) }) v.0 f rest last in
    omega (arith, inner, drop_shorter v.1 payload)

decode_value-IsShorter : (key : ℕ) (payload : List ℕ) → IsShorter payload (decode_value key payload)
unfolding decode_value
decode_value-IsShorter key payload =
    let unsupported = err-IsShorter payload unsupported_wire_type in
    let fixed32 =
      if-IsShorter payload ((key % 8) == 5) (fixed32_value key payload) (err unsupported_wire_type)
        (fixed-IsShorter payload (ltb (length payload) 4)
          (record (keyed key) { fixed32 = little_endian (take 4 payload) }) 4)
        unsupported in
    let bytes =
      if-IsShorter payload ((key % 8) == 2) (bytes_value key payload) _
        (bytes_value-IsShorter key payload) fixed32 in
    let fixed64 =
      if-IsShorter payload ((key % 8) == 1) (fixed64_value key payload) _
        (fixed-IsShorter payload (ltb (length payload) 8)
          (record (keyed key) { fixed64 = little_endian (take 8 payload) }) 8)
        bytes in
    if-IsShorter payload ((key % 8) == 0) (varint_value key payload) _
      (varint_value-IsShorter key payload) fixed64

-- A turn that succeeds takes at least a byte.
pub decode_field_shorter :
    (payload rest : List ℕ) (f : ProtoField)
    → decode_field payload ≡ ok (f, rest)
    → length rest < length payload
unfolding decode_field IsShorter
decode_field_shorter payload rest f h =
    let (v, e, last) =
      >>=-eq-ok (decode_proto_varint payload)
        (λ (k : ℕ × ℕ). refuse (k.0 == 0) invalid_key >> decode_value k.0 (drop k.1 payload)) h in
    let (x, value) =
      refuse-eq-ok (v.0 == 0) invalid_key (decode_value v.0 (drop v.1 payload)) last in
    let (a, b) = decode_proto_varint_consumed payload v.0 v.1 e in
    let inner = decode_value-IsShorter v.0 (drop v.1 payload) f rest value in
    omega (arith, inner, a, length-drop v.1 payload b)

bind_same :
    {A B : Type 0} (r : Result A) (f g : A → Result B)
    → ((a : A) → r ≡ ok a → f a ≡ g a)
    → (r >>= f) ≡ (r >>= g)
bind_same (err e) f g h = refl
bind_same (ok a) f g h = h a refl

fields_on_enough :
    (n m : ℕ) (payload : List ℕ)
    → length payload ≤ n
    → length payload ≤ m
    → fields_on n payload ≡ fields_on m payload
unfolding fields_on
fields_on_enough n m [] h k = refl
fields_on_enough zero m (b ∷ bs) h k = absurd (omega (arith, h))
fields_on_enough (suc n) zero (b ∷ bs) h k = absurd (omega (arith, k))
fields_on_enough (suc n) (suc m) (b ∷ bs) h k =
    bind_same (decode_field (b ∷ bs))
      (λ (x : ProtoField × List ℕ). fields_on n x.1 >>= λ fs. ok (x.0 ∷ fs))
      (λ (x : ProtoField × List ℕ). fields_on m x.1 >>= λ fs. ok (x.0 ∷ fs))
      (λ x e.
        let s = decode_field_shorter (b ∷ bs) x.1 x.0 e in
        ap (λ r. r >>= λ fs. ok (x.0 ∷ fs))
          (fields_on_enough n m x.1 (omega (arith, s, h)) (omega (arith, s, k))))

-- The fuel of the loop is enough: on a message that is not empty, `decodeProtoFields` decodes one
-- field, and then what that field leaves, without a bound on the number of fields.
pub decode_proto_fields_turn :
    (b : ℕ) (bs : List ℕ)
    → decode_proto_fields (b ∷ bs) ≡ (
        decode_field (b ∷ bs) >>= λ (x : ProtoField × List ℕ).
        decode_proto_fields x.1 >>= λ fs. ok (x.0 ∷ fs))
unfolding decode_proto_fields fields_on
decode_proto_fields_turn b bs =
    bind_same (decode_field (b ∷ bs))
      (λ (x : ProtoField × List ℕ). fields_on (length bs) x.1 >>= λ fs. ok (x.0 ∷ fs))
      (λ (x : ProtoField × List ℕ). fields_on (length x.1) x.1 >>= λ fs. ok (x.0 ∷ fs))
      (λ x e.
        let s = decode_field_shorter (b ∷ bs) x.1 x.0 e in
        ap (λ r. r >>= λ fs. ok (x.0 ∷ fs))
          (fields_on_enough (length bs) (length x.1) x.1 (omega (arith, s)) (omega arith)))
