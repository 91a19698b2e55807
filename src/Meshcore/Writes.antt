-- ===== src/Meshcore/Writes.antt =====
-- Writing sends exactly one frame.
use loramapr_receiver.Base.{
  ℕ, zero, suc, ◌≤◌, false, List, [], ◌∷◌, ◌++◌, ◌≡◌, refl, sym, ap, ◌∙◌, Result, ok, err, arith,
  length, take, drop, append_assoc, append-nil, append-take-drop, length-drop, ◌==◌, Bool-cases,
  inl, inr,
}
use loramapr_receiver.Meshcore.Framing.{
  max_payload_size, outbound_marker, frame, Sink, after_write, write_turns, write_all, write_frame,
}

module _ (w : Sink) where
  -- What the loop has sent when it ends well.
  abbrev Sends : (List ℕ → w.State → w.State × Result (Unit {0})) → Type 0
  Sends next =
      (bytes : List ℕ) (s s' : w.State)
      → next bytes s ≡ (s', ok tt)
      → w.taken s' ≡ w.taken s ++ bytes

  after_write-taken :
      (next : List ℕ → w.State → w.State × Result (Unit {0})) (bytes : List ℕ) (s s' : w.State)
      (o : w.State × Result ℕ)
      → Sends next
      → w.write s bytes ≡ o
      → after_write w next bytes o ≡ (s', ok tt)
      → w.taken s' ≡ w.taken s ++ bytes
  after_write-taken next bytes s s' (t, err x) sends e h =
      absurd (cc (ap (λ (x : w.State × Result (Unit {0})). x.1) h))
  after_write-taken next bytes s s' (t, ok n) sends e h = elim (Bool-cases (n == 0)) [
    | inl z ↦ absurd (cc (ap (λ (x : w.State × Result (Unit {0})). x.1) (rw z at h)))
    | inr z ↦
        let (fits, took) = w.write-prefix s t bytes n e in
        sends (drop n bytes) t s' (rw z at h)
        ∙ ap (◌++ drop n bytes) took
        ∙ append_assoc (w.taken s) (take n bytes) (drop n bytes)
        ∙ ap (w.taken s ++◌) (append-take-drop n bytes)
  ]

  write_turns-taken : (fuel : ℕ) → Sends (write_turns w fuel)
  unfolding write_turns
  write_turns-taken fuel [] s s' h =
      ap w.taken (sym (ap (λ (x : w.State × Result (Unit {0})). x.0) h))
      ∙ sym (append-nil (w.taken s))
  write_turns-taken zero (b ∷ bs) s s' h =
      absurd (cc (ap (λ (x : w.State × Result (Unit {0})). x.1) h))
  write_turns-taken (suc fuel) (b ∷ bs) s s' h =
      after_write-taken (write_turns w fuel) (b ∷ bs) s s' (w.write s (b ∷ bs))
        (write_turns-taken fuel) refl h

  -- The writer that is never stuck: it takes at least a byte of what is not empty.
  abbrev pub Takes : Type 0
  Takes =
      (s : w.State) (b : ℕ) (bs : List ℕ)
      → (t : w.State) × (n : ℕ) × (w.write s (b ∷ bs) ≡ (t, ok n)) × (1 ≤ n)

  write_turns_total :
      Takes
      → (fuel : ℕ) (bytes : List ℕ) (s : w.State) → length bytes ≤ fuel
      → (s' : w.State) × (write_turns w fuel bytes s ≡ (s', ok tt))
  unfolding write_turns
  write_turns_total takes fuel [] s h = (s, refl)
  write_turns_total takes zero (b ∷ bs) s h = absurd (omega (arith, h))
  write_turns_total takes (suc fuel) (b ∷ bs) s h =
      let (t, n, e, low) = takes s b bs in
      let fits = (w.write-prefix s t (b ∷ bs) n e).0 in
      let (s', rest) =
        write_turns_total takes fuel (drop n (b ∷ bs)) t
          (omega (arith, h, low, length-drop n (b ∷ bs) fits)) in
      (s', rw e (rw (positive n low) rest))
    where
      positive : (n : ℕ) → 1 ≤ n → (n == 0) ≡ false
      positive n h = ground arith

  sent :
      (payload : List ℕ) (s s' : w.State)
      → write_frame w payload s ≡ (s', ok tt)
      → (1 ≤ length payload)
        × (length payload ≤ max_payload_size)
        × (write_all w (frame outbound_marker payload) s ≡ (s', ok tt))
  unfolding write_frame
  sent payload s s' h = ground arith

  -- When `WriteFrame` succeeds, the payload has 1 to 176 bytes and the writer has taken exactly one
  -- frame with it, in however many pieces.
  pub write_frame-taken :
      (payload : List ℕ) (s s' : w.State)
      → write_frame w payload s ≡ (s', ok tt)
      → (1 ≤ length payload)
        × (length payload ≤ max_payload_size)
        × (w.taken s' ≡ w.taken s ++ frame outbound_marker payload)
  unfolding write_all
  write_frame-taken payload s s' h =
      let (low, high, all) = sent payload s s' h in
      (
        low,
        high,
        write_turns-taken (length (frame outbound_marker payload)) (frame outbound_marker payload) s
            s' all,
      )

  -- To a writer that always takes at least a byte, `WriteFrame` of 1 to 176 bytes succeeds.
  pub write_frame_total :
      Takes
      → (payload : List ℕ) (s : w.State) → 1 ≤ length payload
      → length payload ≤ max_payload_size
      → (s' : w.State) × (write_frame w payload s ≡ (s', ok tt))
  unfolding write_frame write_all
  write_frame_total takes payload s low high =
      let (s', all) =
        write_turns_total takes (length (frame outbound_marker payload))
          (frame outbound_marker payload) s (omega arith) in
      (s', ground arith)
