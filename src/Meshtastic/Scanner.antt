-- ===== src/Meshtastic/Scanner.antt =====
-- native_serial.go: the frames on the serial line.
use loramapr_receiver.Base.{
  ℕ, ◌+◌, ◌*◌, ◌/◌, ◌%◌, Bool, true, false, ◌&&◌, ◌||◌, List, [], ◌∷◌, ltb, ◌==◌, length, take,
  drop, if◌then◌else◌,
}
use loramapr_receiver.Meshtastic.Protobuf.{encode_proto_varint}

-- `nativeFrameScanner`, and whether what ends its reader is io.EOF.
pub record Scanner : Type 0 where
  pub max_payload : ℕ
  pub max_discarded : ℕ
  pub discarded : ℕ
  pub seen_frames : ℕ

-- What `NextFrame` answers: a payload with the bytes discarded before it, errNoNativeFrames, or the
-- error of the reader, at the end or within a payload.
pub data Scan : Type 0 where
  frame : List ℕ → ℕ → Scan
  no_native_frames : ℕ → Scan
  read_failed : ℕ → Scan

-- The answer, the scanner, and what is left on the line.
abbrev pub Scanned : Type 0
Scanned = Scan × Scanner × List ℕ

abbrev pub default_max_payload : ℕ
default_max_payload = 4096

abbrev pub default_max_discarded : ℕ
default_max_discarded = 256 * 1024

unfoldable pub reset_discarded : Scanner → Scanner
reset_discarded s = record s { discarded = 0 }

abbrev pub skip : ℕ → Scanner → Scanner
skip n s = record s { discarded = s.discarded + n }

-- The answer when the reader ends before a payload. `at_eof` says that it ended with io.EOF.
abbrev pub ended : Bool → ℕ → Scanner → Scanned
ended at_eof discarded s =
    if at_eof && (s.seen_frames == 0) && ltb 0 (s.discarded + discarded)
    then (no_native_frames discarded, s, [])
    else (read_failed discarded, s, [])

-- `if s.discarded > s.maxDiscarded { return }`, after the count, and the rest of the loop.
abbrev pub unless_over : ℕ → Scanner → List ℕ → Scanned → Scanned
unless_over discarded s rest next =
    if ltb s.max_discarded s.discarded then (no_native_frames discarded, s, rest) else next

-- io.ReadFull of a payload.
abbrev pub read_payload : ℕ → ℕ → Scanner → List ℕ → Scanned
read_payload n discarded s rest = if ltb (length rest) n then (read_failed discarded, s, []) else (
  frame (take n rest) discarded,
  record s { discarded = 0; seen_frames = s.seen_frames + 1 },
  drop n rest,
)

-- The loop of `NextFrame`, on the bytes of the line; `have_start` says that the last was 0x94.
unfoldable pub scan_from : Bool → Bool → ℕ → Scanner → List ℕ → Scanned
scan_from at_eof have_start discarded s [] = ended at_eof discarded s
scan_from at_eof false discarded s (b ∷ rest) =
    let start = scan_from at_eof true discarded s rest in
    let next = scan_from at_eof false (discarded + 1) (skip 1 s) rest in
    if b == 0x94 then start else unless_over (discarded + 1) (skip 1 s) rest next
scan_from at_eof true discarded s (b ∷ []) =
    let next = scan_from at_eof (b == 0x94) (discarded + 1) (skip 1 s) [] in
    if b == 0xc3
    then (read_failed discarded, s, [])
    else unless_over (discarded + 1) (skip 1 s) [] next
scan_from at_eof true discarded s (b ∷ msb ∷ []) =
    let next = scan_from at_eof (b == 0x94) (discarded + 1) (skip 1 s) (msb ∷ []) in
    if b == 0xc3
    then (read_failed discarded, s, [])
    else unless_over (discarded + 1) (skip 1 s) (msb ∷ []) next
scan_from at_eof true discarded s (b ∷ msb ∷ lsb ∷ rest) =
    let next = scan_from at_eof (b == 0x94) (discarded + 1) (skip 1 s) (msb ∷ lsb ∷ rest) in
    let after_header = scan_from at_eof false (discarded + 4) (skip 4 s) rest in
    let n = msb * 256 + lsb in
    if b == 0xc3
    then (if (n == 0) || ltb s.max_payload n
        then unless_over (discarded + 4) (skip 4 s) rest after_header
        else read_payload n discarded s rest)
    else unless_over (discarded + 1) (skip 1 s) (msb ∷ lsb ∷ rest) next

-- The defaults of bounds that are not positive.
abbrev pub with_bounds : Scanner → Scanner
with_bounds s = record s {
  max_payload = if s.max_payload == 0 then default_max_payload else s.max_payload;
  max_discarded = if s.max_discarded == 0 then default_max_discarded else s.max_discarded;
}

-- `NextFrame`
unfoldable pub next_frame : Bool → Scanner → List ℕ → Scanned
unfolding scan_from
next_frame at_eof s line = scan_from at_eof false 0 (with_bounds s) line

-- `byte(n >> 8), byte(n & 0xff)`
unfoldable pub build_native_frame : List ℕ → List ℕ
build_native_frame payload =
    0x94 ∷ 0xc3 ∷ (length payload / 256 % 256) ∷ (length payload % 256) ∷ payload

-- `buildToRadioWantConfigPayload`: field 3, a varint.
unfoldable pub build_to_radio_want_config_payload : ℕ → List ℕ
build_to_radio_want_config_payload id = 24 ∷ encode_proto_varint id
