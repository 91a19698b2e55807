-- ===== src/Meshcore/Framing.antt =====
-- framing.go: writing and reading frames. Bytes are numbers below 256. A reader is the bytes that it
-- has still to give before the end of the stream.
use loramapr_receiver.Base.{
  ℕ, zero, suc, ◌+◌, ◌*◌, ◌/◌, ◌%◌, ◌≤◌, List, [], ◌∷◌, ◌++◌, ◌≡◌, Result, ok, err, ◌>>=◌, ◌>>◌,
  guard, refuse, unexpected_marker, invalid_length, oversized_frame, truncated_frame, short_write,
  length, take, drop, ltb, ◌==◌, if◌then◌else◌,
}

abbrev pub max_payload_size : ℕ
max_payload_size = 176

-- '<' and '>'
abbrev pub outbound_marker : ℕ
outbound_marker = 60

abbrev pub inbound_marker : ℕ
inbound_marker = 62

-- The layout of a frame: the marker, the length as two bytes with the lower one first, the payload.
unfoldable pub frame : ℕ → List ℕ → List ℕ
frame marker payload = marker ∷ length payload % 256 ∷ length payload / 256 % 256 ∷ payload

-- io.ReadFull of `n` bytes
unfoldable pub read_full : ℕ → List ℕ → Result (List ℕ × List ℕ)
read_full n stream =
    if ltb (length stream) n then err truncated_frame else ok (take n stream, drop n stream)

-- binary.LittleEndian.Uint16 after the marker; a header has three bytes.
abbrev pub header_length : List ℕ → ℕ
header_length (m ∷ lo ∷ hi ∷ rest) = lo + 256 * hi
header_length _ = 0

abbrev pub header_marker : List ℕ → ℕ
header_marker [] = 0
header_marker (m ∷ rest) = m

-- `ReadFrame`: the payload and the rest of the stream.
unfoldable pub read_frame : List ℕ → Result (List ℕ × List ℕ)
read_frame stream = do
  header ← read_full 3 stream
  guard (header_marker header.0 == inbound_marker) unexpected_marker
  refuse (header_length header.0 == 0) invalid_length
  refuse (ltb max_payload_size (header_length header.0)) oversized_frame
  read_full (header_length header.0) header.1

-- An io.Writer: its state, and `Write`, which tells how many bytes it took. `taken` are the bytes that
-- it has taken so far, of which it takes a prefix of its argument at a time.
pub record Sink : Type 1 where
  pub State : Type 0
  pub write : State → List ℕ → State × Result ℕ
  pub taken : State → List ℕ
  pub write-prefix :
      (s s' : State) (bytes : List ℕ) (n : ℕ)
      → write s bytes ≡ (s', ok n)
      → (n ≤ length bytes) × (taken s' ≡ taken s ++ take n bytes)

module _ (w : Sink) where
  -- What a turn of the loop does with the answer of `Write`.
  abbrev pub after_write :
      (List ℕ → w.State → w.State × Result (Unit {0}))
      → List ℕ
      → w.State × Result ℕ
      → w.State × Result (Unit {0})
  after_write next bytes (s, err e) = (s, err e)
  after_write next bytes (s, ok n) = if n == 0 then (s, err short_write) else next (drop n bytes) s

  -- The loop of `writeAll` on fuel: a turn that goes on has taken a byte.
  unfoldable pub write_turns : ℕ → List ℕ → w.State → w.State × Result (Unit {0})
  write_turns fuel [] s = (s, ok tt)
  write_turns zero (b ∷ bs) s = (s, err short_write)
  write_turns (suc fuel) (b ∷ bs) s = after_write (write_turns fuel) (b ∷ bs) (w.write s (b ∷ bs))

  unfoldable pub write_all : List ℕ → w.State → w.State × Result (Unit {0})
  write_all bytes s = write_turns (length bytes) bytes s

  unfoldable pub write_frame : List ℕ → w.State → w.State × Result (Unit {0})
  write_frame payload s =
      if length payload == 0
      then (s, err invalid_length)
      else if ltb max_payload_size (length payload)
      then (s, err oversized_frame)
      else write_all (frame outbound_marker payload) s
