-- ===== src/Meshcore/Frames.antt =====
-- Reading takes exactly one frame, and inverts the layout.
use loramapr_receiver.Base.{
  ℕ, ◌+◌, ◌*◌, ◌≤◌, ◌<◌, List, [], ◌∷◌, ◌++◌, ◌≡◌, sym, ap, ◌∙◌, ok, arith, length, take, drop,
  take-append, drop-append, append-take-drop, length-take, length-append, All,
}
use loramapr_receiver.Meshcore.Framing.{
  max_payload_size, inbound_marker, frame, read_full, read_frame,
}

-- A frame from the companion whose payload has 1 to 176 bytes is read back, and what follows it on
-- the line is left.
pub read_frame-frame :
    (payload rest : List ℕ)
    → 1 ≤ length payload
    → length payload ≤ max_payload_size
    → read_frame (frame inbound_marker payload ++ rest) ≡ ok (payload, rest)
unfolding read_frame frame read_full
read_frame-frame payload rest low high =
    ground (arith, take-append payload rest, drop-append payload rest, length-append payload rest)

-- What a read of one frame has found.
pub record IsFrame (stream payload rest : List ℕ) : Type 0 where
  pub not_empty : 1 ≤ length payload
  pub not_oversized : length payload ≤ max_payload_size
  pub layout : stream ≡ frame inbound_marker payload ++ rest

header_read :
    (m lo hi : ℕ) (body payload rest : List ℕ)
    → read_frame (m ∷ lo ∷ hi ∷ body) ≡ ok (payload, rest)
    → (m ≡ inbound_marker)
      × (1 ≤ lo + 256 * hi)
      × (lo + 256 * hi ≤ max_payload_size)
      × (lo + 256 * hi ≤ length body)
      × (take (lo + 256 * hi) body ≡ payload)
      × (drop (lo + 256 * hi) body ≡ rest)
unfolding read_frame read_full
header_read m lo hi body payload rest h = ground arith

-- If reading from a stream of bytes gives a payload, the payload has 1 to 176 bytes, and the stream
-- was one frame from the companion with this payload, followed by what is left of the stream.
pub read_frame-IsFrame :
    (stream payload rest : List ℕ)
    → All (λ b. b < 256) stream
    → read_frame stream ≡ ok (payload, rest)
    → IsFrame stream payload rest
unfolding read_frame frame read_full
read_frame-IsFrame [] payload rest bytes h = absurd (ground arith)
read_frame-IsFrame (m ∷ []) payload rest bytes h = absurd (ground arith)
read_frame-IsFrame (m ∷ lo ∷ []) payload rest bytes h = absurd (ground arith)
read_frame-IsFrame (m ∷ lo ∷ hi ∷ body) payload rest bytes h =
    let (marker, low, high, long, front, back) = header_read m lo hi body payload rest h in
    let size : length payload ≡ lo + 256 * hi =
      ap (λ xs. length xs) (sym front) ∙ length-take (lo + 256 * hi) body long in
    let whole : body ≡ payload ++ rest =
      sym (append-take-drop (lo + 256 * hi) body)
      ∙ ap (◌++ drop (lo + 256 * hi) body) front
      ∙ ap (payload ++◌) back in
    record {
      not_empty = omega (arith, size, low);
      not_oversized = omega (arith, size, high);
      layout = ground (arith, marker, whole, size, bytes.1.0, bytes.0);
    }
