-- ===== src/Meshtastic/Frames.antt =====
-- native_serial.go: which frames the scanner finds.
use loramapr_receiver.Base.{
  ℕ, suc, ◌+◌, ◌*◌, ◌/◌, ◌%◌, ◌≤◌, ◌<◌, Bool, false, ◌||◌, List, [], ◌∷◌, ◌++◌, ◌≡◌, ◌≢◌, sym, ap,
  ◌∙◌, arith, All, ltb, le→ltb-false, ◌==◌, length, length-append, take-append, drop-append,
  if◌then◌else◌,
}
use loramapr_receiver.Meshtastic.Scanner.{
  Scanner, frame, skip, unless_over, read_payload, scan_from, with_bounds, next_frame,
  build_native_frame,
}

skip_to : (s : Scanner) (n m : ℕ) → s.discarded + n ≡ m → skip n s ≡ record s { discarded = m }
skip_to s n m h = ap (λ x. record s { discarded = x }) h

skip_zero : (s : Scanner) → skip 0 s ≡ s
skip_zero s = skip_to s 0 s.discarded (omega arith)

skip_more : (s : Scanner) (n : ℕ) → skip n (skip 1 s) ≡ skip (suc n) s
skip_more s n = ap (λ x. record s { discarded = x }) (omega arith)

scan_one :
    (at_eof : Bool) (b : ℕ) (rest : List ℕ) (d : ℕ) (s : Scanner)
    → b ≢ 0x94
    → s.discarded + 1 ≤ s.max_discarded
    → scan_from at_eof false d s (b ∷ rest) ≡ scan_from at_eof false (d + 1) (skip 1 s) rest
unfolding scan_from
scan_one at_eof b rest d s h k =
    let other : (b == 0x94) ≡ false = ground (arith, h) in
    let within = le→ltb-false s.max_discarded (s.discarded + 1) k in cc (other, within)

scan_junk :
    (at_eof : Bool) (junk : List ℕ) (d : ℕ) (s : Scanner) (line : List ℕ)
    → All (λ b. b ≢ 0x94) junk
    → s.discarded + length junk ≤ s.max_discarded
    → scan_from at_eof false d s (junk ++ line)
      ≡ scan_from at_eof false (d + length junk) (skip (length junk) s) line
scan_junk at_eof [] d s line h k =
    let same : d ≡ d + 0 = omega arith in
    ap (λ x. scan_from at_eof false x s line) same
    ∙ ap (λ x. scan_from at_eof false (d + 0) x line) (sym (skip_zero s))
scan_junk at_eof (b ∷ junk) d s line h k =
    let count : d + 1 + length junk ≡ d + suc (length junk) = omega arith in
    scan_one at_eof b (junk ++ line) d s h.0 (omega (arith, k))
    ∙ scan_junk at_eof junk (d + 1) (skip 1 s) line h.1 (omega (arith, k))
    ∙ ap (λ x. scan_from at_eof false x (skip (length junk) (skip 1 s)) line) count
    ∙ ap (λ x. scan_from at_eof false (d + suc (length junk)) x line) (skip_more s (length junk))

scan_frame :
    (at_eof : Bool) (d : ℕ) (s : Scanner) (payload rest : List ℕ)
    → 0 < length payload
    → length payload ≤ s.max_payload
    → length payload < 65536
    → scan_from at_eof false d s (build_native_frame payload ++ rest)
      ≡ (frame payload d, record s { discarded = 0; seen_frames = s.seen_frames + 1 }, rest)
unfolding scan_from build_native_frame
scan_frame at_eof d s payload rest pos low small =
    let n : length payload / 256 % 256 * 256 + length payload % 256 ≡ length payload =
      omega (arith, small) in
    let some_bytes : ((length payload == 0) || ltb s.max_payload (length payload)) ≡ false =
      ground (arith, pos, low) in
    let whole : ltb (length (payload ++ rest)) (length payload) ≡ false =
      le→ltb-false (length (payload ++ rest)) (length payload)
        (omega (arith, length-append payload rest)) in
    ap
      (λ m.
        if (m == 0) || ltb s.max_payload m
        then unless_over (d + 4) (skip 4 s) (payload ++ rest)
            (scan_from at_eof false (d + 4) (skip 4 s) (payload ++ rest))
        else read_payload m d s (payload ++ rest))
      n
    ∙ cc (some_bytes, whole, take-append payload rest, drop-append payload rest)

-- A frame with 1 to 65535 bytes and no more than the scanner takes is found after bytes without a start
-- byte, as many as the scanner may still discard; the answer says how many there were, what follows
-- the frame is left on the line, and the count of discarded bytes starts again.
pub next_frame-build_native_frame :
    (at_eof : Bool) (s : Scanner) (junk payload rest : List ℕ)
    → All (λ b. b ≢ 0x94) junk
    → s.discarded + length junk ≤ (with_bounds s).max_discarded
    → 0 < length payload
    → length payload ≤ (with_bounds s).max_payload
    → length payload < 65536
    → next_frame at_eof s (junk ++ (build_native_frame payload ++ rest)) ≡ (
      frame payload (length junk),
      record (with_bounds s) { discarded = 0; seen_frames = s.seen_frames + 1 },
      rest,
    )
unfolding next_frame
next_frame-build_native_frame at_eof s junk payload rest h k pos low small =
    scan_junk at_eof junk 0 (with_bounds s) (build_native_frame payload ++ rest) h k
    ∙ scan_frame at_eof (0 + length junk) (skip (length junk) (with_bounds s)) payload rest pos low
        small
    ∙ ap
        (λ n. (
          frame payload n,
          record (with_bounds s) { discarded = 0; seen_frames = s.seen_frames + 1 },
          rest,
        ))
        (omega arith)
