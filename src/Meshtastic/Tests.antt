-- ===== src/Meshtastic/Tests.antt =====
-- native_serial.go at concrete inputs.
use loramapr_receiver.Base.{List, [], true, ◌∷◌, ◌++◌, map, ◌≡◌, ok, arith}
use loramapr_receiver.Meshtastic.Protobuf.{decode_proto_fields}
use loramapr_receiver.Meshtastic.Protobuf.Wire.{
  WireField, varint_wire, fixed32_wire, bytes_wire, encode_message, as_field,
  decode_proto_fields-encode_message,
}
use loramapr_receiver.Meshtastic.Scanner.{
  Scanner, frame, with_bounds, next_frame, build_native_frame,
}
use loramapr_receiver.Meshtastic.Frames.{next_frame-build_native_frame}

abbrev fields : List WireField
fields = varint_wire 3 69420 ∷ fixed32_wire 1 4000000001 ∷ bytes_wire 2 (104 ∷ 105 ∷ []) ∷ []

decode_proto_fields-encode_message_example :
    decode_proto_fields (encode_message fields) ≡ ok (map as_field fields)
decode_proto_fields-encode_message_example = decode_proto_fields-encode_message fields (
  (omega arith, omega arith, omega arith),
  ((omega arith, omega arith, omega arith), ((omega arith, omega arith, omega arith), tt)),
)

abbrev scanner : Scanner
scanner = record { max_payload = 4096; max_discarded = 100; discarded = 0; seen_frames = 0 }

next_frame-build_native_frame_example :
    next_frame true scanner ((1 ∷ 2 ∷ []) ++ (build_native_frame (7 ∷ 8 ∷ []) ++ (9 ∷ []))) ≡ (
      frame (7 ∷ 8 ∷ []) 2,
      record (with_bounds scanner) { discarded = 0; seen_frames = 1 },
      9 ∷ [],
    )
next_frame-build_native_frame_example =
    next_frame-build_native_frame true scanner (1 ∷ 2 ∷ []) (7 ∷ 8 ∷ []) (9 ∷ [])
      (ground arith, (ground arith, tt)) (omega arith) (omega arith) (omega arith) (omega arith)
