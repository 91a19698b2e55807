-- ===== src/Meshcore/Tests.antt =====
-- Frames on concrete inputs.
use loramapr_receiver.Base.{ℕ, ◌≤◌, List, [], ◌∷◌, ◌++◌, ◌≡◌, refl, Result, ok, arith, length, take}
use loramapr_receiver.Meshcore.Framing.{
  max_payload_size, inbound_marker, outbound_marker, frame, read_frame, read_full, Sink,
  write_frame, write_all, write_turns,
}
use loramapr_receiver.Meshcore.Frames.{IsFrame, read_frame-frame, read_frame-IsFrame}
use loramapr_receiver.Meshcore.Writes.{Takes, write_frame-taken, write_frame_total}

read_frame-frame_example :
    read_frame (frame inbound_marker (7 ∷ 8 ∷ []) ++ (62 ∷ [])) ≡ ok (7 ∷ 8 ∷ [], 62 ∷ [])
read_frame-frame_example = read_frame-frame (7 ∷ 8 ∷ []) (62 ∷ []) (omega arith) (omega arith)

reads : read_frame (62 ∷ 1 ∷ 0 ∷ 9 ∷ 62 ∷ []) ≡ ok (9 ∷ [], 62 ∷ [])
unfolding read_frame read_full
reads = refl

read_frame-IsFrame_example : IsFrame (62 ∷ 1 ∷ 0 ∷ 9 ∷ 62 ∷ []) (9 ∷ []) (62 ∷ [])
read_frame-IsFrame_example =
    read_frame-IsFrame (62 ∷ 1 ∷ 0 ∷ 9 ∷ 62 ∷ []) (9 ∷ []) (62 ∷ [])
      (omega arith, (omega arith, (omega arith, (omega arith, (omega arith, tt))))) reads

slow_prefix :
    (s s' bytes : List ℕ) (n : ℕ)
    → ◌≡◌ {A = List ℕ × Result ℕ} (s ++ take 2 bytes, ok (length (take 2 bytes))) (s', ok n)
    → (n ≤ length bytes) × (s' ≡ s ++ take n bytes)
slow_prefix s s' [] n h = ground arith
slow_prefix s s' (x ∷ []) n h = ground arith
slow_prefix s s' (x ∷ y ∷ bytes) n h = ground arith

-- A writer that takes at most two bytes at a time.
abbrev slow : Sink
slow = record {
  State = List ℕ;
  write = λ s bytes. (s ++ take 2 bytes, ok (length (take 2 bytes)));
  taken = λ s. s;
  write-prefix = slow_prefix;
}

abbrev nine : List ℕ
nine = 9 ∷ []

slow-Takes : Takes slow
slow-Takes s b [] = (s ++ (b ∷ []), 1, refl, omega arith)
slow-Takes s b (c ∷ bs) = (s ++ (b ∷ c ∷ []), 2, refl, omega arith)

writes : write_frame slow nine [] ≡ (60 ∷ 1 ∷ 0 ∷ 9 ∷ [], ok tt)
unfolding write_frame write_all write_turns frame
writes = refl

write_frame-taken_example :
    (1 ≤ length nine)
    × (length nine ≤ max_payload_size)
    × (slow.taken (60 ∷ 1 ∷ 0 ∷ 9 ∷ []) ≡ slow.taken [] ++ frame outbound_marker nine)
write_frame-taken_example = write_frame-taken slow nine [] (60 ∷ 1 ∷ 0 ∷ 9 ∷ []) writes

write_frame_total_example : (s' : List ℕ) × (write_frame slow nine [] ≡ (s', ok tt))
write_frame_total_example = write_frame_total slow slow-Takes nine [] (omega arith) (omega arith)
