-- ===== src/Meshtastic/Decode.antt =====
-- native_serial.go: packets, their payloads, positions and node identifiers. A `uint64`, an `int` read
-- from one and an `int32` are their bits; a position is in units of 1e-7 degrees, as it is sent.
-- `utf8` reads bytes as a text, `snr_text` is strconv.FormatFloat with two decimals on the bits of a
-- float32.
use loramapr_receiver.Base.{
  ℕ, zero, suc, ◌+◌, ◌-◌, ◌*◌, ◌/◌, ◌%◌, ◌^◌, Bool, ◌&&◌, ◌||◌, not, Option, none, some, List, [],
  ◌∷◌, Text, codes, is_empty, Result, ok, err, ◌>>=◌, ltb, leb, ◌==◌, if◌then◌else◌,
}
use loramapr_receiver.Base.Decimal.{decimal}
use loramapr_receiver.Base.Entries.{insert}
use loramapr_receiver.Outbox.Types.{Time}
use loramapr_receiver.Outbox.Store.{is_some}
use loramapr_receiver.Meshtastic.Protobuf.{ProtoField, decode_proto_fields, field_uint32}

-- The hexadecimal digit of a number below 16, in lower case.
abbrev pub hex_digit : ℕ → ℕ
hex_digit n = if ltb n 10 then 48 + n else 87 + n

-- `%0nx` of the last `n` digits, before `rest`.
unfoldable pub hex_before : ℕ → ℕ → Text → Text
hex_before zero value rest = rest
hex_before (suc n) value rest = hex_before n (value / 16) (hex_digit (value % 16) ∷ rest)

-- "!%08x"
unfoldable pub format_node_id : ℕ → Text
unfolding hex_before
format_node_id value = if value == 0 then [] else 33 ∷ hex_before 8 value []

-- The time of year 1970 on the scale of the outbox, and `nativeMaxAcceptedRXSkew`.
abbrev pub unix_seconds : ℕ → Time
unix_seconds n = (62135596800 + n) * 1000000000

abbrev pub max_accepted_rx_skew : ℕ
max_accepted_rx_skew = 900 * 1000000000

-- A time of the device, if it is within the skew of the host's.
unfoldable pub normalized_native_rx_time : Time → ℕ → Time
normalized_native_rx_time now rx_time =
    let candidate = unix_seconds rx_time in
    if rx_time == 0
    then now
    else if ltb (candidate + max_accepted_rx_skew) now || ltb (now + max_accepted_rx_skew) candidate
    then now
    else candidate

pub record NativeDecodedData : Type 0 where
  pub port_num : ℕ
  pub payload : List ℕ
  pub destination_num : ℕ
  pub source_num : ℕ

abbrev pub or_else : ℕ → Option ℕ → ℕ
or_else old none = old
or_else old (some value) = value

-- A turn of the loop of `decodeNativeDecodedData`.
abbrev pub data_field : NativeDecodedData → ProtoField → NativeDecodedData
data_field d f =
    if f.number == 1
    then (if f.wire_type == 0 then record d { port_num = f.varint } else d)
    else if f.number == 2
    then (if f.wire_type == 2 then record d { payload = f.bytes } else d)
    else if f.number == 4
    then record d { destination_num = or_else d.destination_num (field_uint32 f) }
    else if f.number == 5
    then record d { source_num = or_else d.source_num (field_uint32 f) }
    else d

-- A loop over fields without an early return.
unfoldable pub each {ℓ} : {A : Type ℓ} → (A → ProtoField → A) → A → List ProtoField → A
each turn a [] = a
each turn a (f ∷ fs) = each turn (turn a f) fs

unfoldable pub decode_native_decoded_data : List ℕ → Result NativeDecodedData
decode_native_decoded_data payload = decode_proto_fields payload >>= λ fields. ok (
    each data_field (record { port_num = 0; payload = []; destination_num = 0; source_num = 0 })
      fields)

pub record Position : Type 0 where
  pub lat : ℕ
  pub lon : ℕ

-- The bits of an `int32` from -n to n
abbrev pub within_signed : ℕ → ℕ → Bool
within_signed n word = leb word n || leb (2 ^ 32 - n) word

abbrev pub position_field : Option ℕ × Option ℕ → ProtoField → Option ℕ × Option ℕ
position_field (lat, lon) f =
    if f.number == 1
    then (if f.wire_type == 5 then (some f.fixed32, lon) else (lat, lon))
    else if f.number == 2
    then (if f.wire_type == 5 then (lat, some f.fixed32) else (lat, lon))
    else (lat, lon)

-- The bounds of 90 and 180 degrees
abbrev pub bounded_position : Option ℕ × Option ℕ → Option Position
bounded_position (some lat, some lon) =
    if not (within_signed 900000000 lat) || not (within_signed 1800000000 lon)
    then none
    else some (record { lat = lat; lon = lon })
bounded_position (some lat, none) = none
bounded_position (none, lon) = none

abbrev pub position_of : Result (List ProtoField) → Option Position
position_of (err e) = none
position_of (ok fields) = bounded_position (each position_field (none, none) fields)

unfoldable pub decode_native_position_payload : List ℕ → Option Position
decode_native_position_payload payload = position_of (decode_proto_fields payload)

-- The variables of `decodeNativePacket`
pub record PacketFields : Type 0 where
  pub source_num : ℕ
  pub dest_num : ℕ
  pub channel_num : ℕ
  pub packet_id : ℕ
  pub hop_limit : ℕ
  pub rssi_value : ℕ
  pub snr_bits : ℕ
  pub rx_time : ℕ
  pub decoded : Option NativeDecodedData
  pub encrypted_payload : List ℕ

abbrev pub no_packet_fields : PacketFields
no_packet_fields = record {
  source_num = 0;
  dest_num = 0;
  channel_num = 0;
  packet_id = 0;
  hop_limit = 0;
  rssi_value = 0;
  snr_bits = 0;
  rx_time = 0;
  decoded = none;
  encrypted_payload = [];
}

-- The cases of the switch but for the decoded data, which may fail.
abbrev pub plain_field : PacketFields → ProtoField → PacketFields
plain_field p f =
    if f.number == 1
    then record p { source_num = or_else p.source_num (field_uint32 f) }
    else if f.number == 2
    then record p { dest_num = or_else p.dest_num (field_uint32 f) }
    else if (f.number == 3) && (f.wire_type == 0)
    then record p { channel_num = f.varint }
    else if (f.number == 5) && (f.wire_type == 2)
    then record p { encrypted_payload = f.bytes }
    else if f.number == 6
    then record p { packet_id = or_else p.packet_id (field_uint32 f) }
    else if f.number == 7
    then record p { rx_time = or_else p.rx_time (field_uint32 f) }
    else if (f.number == 8) && (f.wire_type == 5)
    then record p { snr_bits = f.fixed32 }
    else if (f.number == 9) && (f.wire_type == 0)
    then record p { hop_limit = f.varint }
    else if (f.number == 12) && (f.wire_type == 0)
    then record p { rssi_value = f.varint % 2 ^ 32 }
    else p

unfoldable pub packet_fields : PacketFields → List ProtoField → Result PacketFields
packet_fields p [] = ok p
packet_fields p (f ∷ fs) =
    let plain = packet_fields (plain_field p f) fs in
    if (f.number == 4) && (f.wire_type == 2)
    then (decode_native_decoded_data f.bytes >>= λ d.
        packet_fields (record p { decoded = some d }) fs)
    else plain

pub record Packet : Type 0 where
  pub source_node_id : Text
  pub destination_node_id : Text
  pub port_num : ℕ
  pub payload : List ℕ
  pub received_at : Time
  pub position : Option Position
  pub meta : List (Text × Text)

abbrev pub Meta : Type 0
Meta = List (Text × Text)

abbrev pub meta_if : Bool → Text → Text → Meta → Meta
meta_if present key value meta = if present then insert key value meta else meta

-- `strconv.FormatInt` of an `int32`
abbrev pub signed_text : ℕ → Text
signed_text word = if ltb word (2 ^ 31) then decimal word else 45 ∷ decimal (2 ^ 32 - word)

-- The identities in the decoded data win.
abbrev pub positive_or : ℕ → ℕ → ℕ
positive_or old n = if ltb 0 n then n else old

abbrev pub source_of : PacketFields → ℕ
source_of p = elim p.decoded [
  | none ↦ p.source_num
  | some d ↦ positive_or p.source_num d.source_num
]

abbrev pub destination_of : PacketFields → ℕ
destination_of p = elim p.decoded [
  | none ↦ p.dest_num
  | some d ↦ positive_or p.dest_num d.destination_num
]

abbrev pub decoded_payload : PacketFields → List ℕ
decoded_payload p = elim p.decoded [ none ↦ [] | some d ↦ d.payload ]

abbrev pub port_of : PacketFields → ℕ
port_of p = elim p.decoded [ none ↦ 0 | some d ↦ d.port_num ]

module _ (snr_text : ℕ → Text) where
  unfoldable pub packet_meta : Time → PacketFields → Meta
  packet_meta received_at p =
      let rejected = ltb 0 p.rx_time && not (unix_seconds p.rx_time == received_at) in
      meta_if (is_empty (decoded_payload p)) (codes "encrypted") (codes "true") (
        meta_if (not (p.rssi_value == 0)) (codes "rssi") (signed_text p.rssi_value) (
          meta_if (not (p.snr_bits == 0)) (codes "snr") (snr_text p.snr_bits) (
            meta_if (ltb 0 p.hop_limit) (codes "hop_limit") (decimal p.hop_limit) (
              meta_if (ltb 0 p.packet_id) (codes "packet_id") (decimal p.packet_id) (
                meta_if rejected (codes "rx_time_rejected_reason") (codes "clock_skew") (
                  meta_if rejected (codes "rx_time_rejected") (codes "true") (
                    meta_if (ltb 0 p.rx_time) (codes "rx_time_unix") (decimal p.rx_time) (
                      meta_if (ltb 0 p.channel_num) (codes "channel") (decimal p.channel_num)
                        []))))))))

  unfoldable pub packet_of : Time → PacketFields → Packet
  unfolding packet_meta
  packet_of now p =
      let received_at = normalized_native_rx_time now p.rx_time in
      let source = format_node_id (source_of p) in
      record {
        source_node_id = if is_empty source then codes "!unknown" else source;
        destination_node_id = format_node_id (destination_of p);
        port_num = port_of p;
        payload = if is_empty (decoded_payload p) then p.encrypted_payload else decoded_payload p;
        received_at = received_at;
        position =
            if is_some p.decoded && (port_of p == 3)
            then decode_native_position_payload (decoded_payload p)
            else none;
        meta = packet_meta received_at p;
      }

  unfoldable pub decode_native_packet : List ℕ → Time → Result Packet
  unfolding packet_of
  decode_native_packet payload now = do
    fields ← decode_proto_fields payload
    p ← packet_fields no_packet_fields fields
    ok (packet_of now p)
