-- ===== src/Clock/Envelopes.antt =====
-- clock.go: what an envelope after an `Add` attests.
use loramapr_receiver.Base.{
  suc, ◌+◌, ◌-◌, ◌≤◌, not, Bool, false, some, List, [], ◌∷◌, ◌++◌, ◌≡◌, ◌≢◌, ◌⊎◌, inl, inr, refl,
  sym, ap, ◌∙◌, subst, Text, text_eq, text_eq_sound, text_eq_of_eq, ltb, ltb-false→le, length, drop,
  All, arith, Bool-cases, if◌then◌else◌,
}
use loramapr_receiver.Outbox.Types.{Time}
use loramapr_receiver.Clock.Types.{Sample}
use loramapr_receiver.Clock.Samples.{
  max_receipt_skew, max_offset_delta, max_sample_age, without_nonce, last_two, add, Attestation,
  attestation, is_unfit, is_refused, in_order, envelope,
}
use loramapr_receiver.Clock.Durations.{apart, IsNear, within_skew, within_age, near_offsets}

-- What stays of samples with a property has it, and another nonce.
without_nonce-fresh :
    (P : Sample → Type 0) (nonce : Text) (xs : List Sample)
    → All P xs
    → All (λ x. (x.nonce ≢ nonce) × P x) (without_nonce nonce xs)
without_nonce-fresh P nonce [] h = tt
without_nonce-fresh P nonce (x ∷ xs) h =
    let rest = without_nonce-fresh P nonce xs h.1 in
    let Kept = λ (b : Bool).
      All (λ (y : Sample). (y.nonce ≢ nonce) × P y)
        (if not b then x ∷ without_nonce nonce xs else without_nonce nonce xs) in
    elim (Bool-cases (text_eq x.nonce nonce)) [
      | inl same ↦ subst Kept (sym same) rest
      | inr other ↦
          subst Kept (sym other) (((λ e. ground (arith, other, text_eq_of_eq e)), h.0), rest)
    ]

last_two-drop : (xs : List Sample) → last_two xs ≡ drop (length xs - 2) xs
unfolding last_two
last_two-drop [] = refl
last_two-drop (x ∷ []) = refl
last_two-drop (x ∷ y ∷ []) = refl
last_two-drop (x ∷ y ∷ z ∷ xs) = ground arith

last_of :
    {P : Sample → Type 0} (x : Sample) (xs : List Sample) (s : Sample)
    → All P (x ∷ xs)
    → (o : Sample) × P o
      × (drop (length ((x ∷ xs) ++ (s ∷ [])) - 2) ((x ∷ xs) ++ (s ∷ [])) ≡ o ∷ s ∷ [])
last_of x [] s h = (x, h.0, refl)
last_of x (y ∷ []) s h = (y, h.1.0, refl)
last_of x (y ∷ z ∷ xs) s h =
    let (o, p, e) = last_of y (z ∷ xs) s h.1 in
    let rest = (y ∷ z ∷ xs) ++ (s ∷ []) in
    let longer : suc (length rest) - 2 ≡ suc (length rest - 2) = omega arith in
    (o, p, ap (λ n. drop n (x ∷ rest)) longer ∙ e)

-- What `Add` keeps: the sample alone, or after another with another nonce.
abbrev pub AddsTo : Sample → List Sample → Type 0
AddsTo s kept =
    (kept ≡ s ∷ [])
    ⊎ ((other : Sample) × (other.nonce ≢ s.nonce) × IsNear other × (kept ≡ other ∷ s ∷ []))

fresh-AddsTo :
    (s : Sample) (xs : List Sample)
    → All (λ x. (x.nonce ≢ s.nonce) × IsNear x) xs
    → AddsTo s (last_two (xs ++ (s ∷ [])))
fresh-AddsTo s [] h = inl (last_two-drop (s ∷ []))
fresh-AddsTo s (x ∷ xs) h =
    let (o, p, e) = last_of {P = λ x. (x.nonce ≢ s.nonce) × IsNear x} x xs s h in
    inr (o, p.0, p.1, last_two-drop ((x ∷ xs) ++ (s ∷ [])) ∙ e)

add-AddsTo : (samples : List Sample) (s : Sample) → All IsNear samples → AddsTo s (add samples s)
unfolding add
add-AddsTo samples s h =
    fresh-AddsTo s (without_nonce s.nonce samples) (without_nonce-fresh IsNear s.nonce samples h)

-- A sample that an envelope may hold.
pub record IsFit (now : Time) (receiver_agent_id installation_id : Text) (s : Sample) : Type 0 where
  pub receiver : s.receiver_agent_id ≡ receiver_agent_id
  pub installation : s.installation_id ≡ installation_id
  pub unexpired : now ≤ s.expires_at
  pub prompt : apart s.received_at s.issued_at ≤ max_receipt_skew

unfit-IsFit :
    (now : Time) (r i : Text) (s : Sample) → IsNear s → is_unfit now r i s ≡ false → IsFit now r i s
unfolding is_unfit
unfit-IsFit now r i s n h = record {
  receiver = text_eq_sound s.receiver_agent_id r (ground (arith, h));
  installation = text_eq_sound s.installation_id i (ground (arith, h));
  unexpired = ground (arith, h);
  prompt = within_skew s.received_at s.issued_at n (ground (arith, h));
}

-- Two samples of an envelope, in the order of their receipt.
pub record IsPair (now : Time) (receiver_agent_id installation_id : Text) (a b : Sample)
    : Type 0 where
  pub first : IsFit now receiver_agent_id installation_id a
  pub second : IsFit now receiver_agent_id installation_id b
  pub ordered : a.received_at ≤ b.received_at
  pub observed : b.received_at ≤ now
  pub recent : now ≤ b.received_at + max_sample_age
  pub offsets : apart (a.received_at + b.issued_at) (b.received_at + a.issued_at) ≤ max_offset_delta

in_order-IsPair :
    (now : Time) (r i : Text) (a b : Sample) (e : Attestation)
    → IsNear a
    → IsNear b
    → a.received_at ≤ b.received_at
    → in_order now r i a b ≡ some e
    → IsPair now r i a b × (e ≡ attestation a b)
unfolding is_refused
in_order-IsPair now r i a b e m n le h =
    let fit_a : is_unfit now r i a ≡ false = ground (arith, h) in
    let fit_b : is_unfit now r i b ≡ false = ground (arith, h) in
    let good : is_refused now a b ≡ false = ground (arith, h) in
    let first = unfit-IsFit now r i a m fit_a in
    let second = unfit-IsFit now r i b n fit_b in
    let observed : b.received_at ≤ now = ground (arith, good) in
    (
      record {
        first = first;
        second = second;
        ordered = le;
        observed = observed;
        recent = within_age now b.received_at observed (ground (arith, good));
        offsets =
            near_offsets a.received_at a.issued_at b.received_at b.issued_at first.prompt
              second.prompt (ground (arith, good));
      },
      ground (arith, h, fit_a, fit_b, good),
    )

-- The envelope holds the sample and another, with another nonce, in the order of their receipt.
pub record Attested (now : Time) (receiver_agent_id installation_id : Text) (s : Sample)
    (kept : List Sample) (e : Attestation) : Type 0 where
  pub other : Sample
  pub fresh : other.nonce ≢ s.nonce
  pub pair : kept ≡ other ∷ s ∷ []
  pub attested :
      (IsPair now receiver_agent_id installation_id other s × (e ≡ attestation other s))
      ⊎ (IsPair now receiver_agent_id installation_id s other × (e ≡ attestation s other))

envelope-IsPair :
    (now : Time) (r i : Text) (a b : Sample) (e : Attestation)
    → IsNear a
    → IsNear b
    → envelope (a ∷ b ∷ []) now r i ≡ some e
    → (IsPair now r i a b × (e ≡ attestation a b)) ⊎ (IsPair now r i b a × (e ≡ attestation b a))
unfolding envelope
envelope-IsPair now r i a b e m n h = elim (Bool-cases (ltb b.received_at a.received_at)) [
  | inl swapped ↦
      inr (in_order-IsPair now r i b a e n m (ground (arith, swapped)) (cc (h, swapped)))
  | inr kept ↦ inl (
      in_order-IsPair now r i a b e m n (ltb-false→le b.received_at a.received_at kept)
        (cc (h, kept)))
]

single_has_none :
    (now : Time) (r i : Text) (s : Sample) (e : Attestation) → envelope (s ∷ []) now r i ≢ some e
unfolding envelope
single_has_none now r i s e h = ground (arith, h)

-- If every sample was received within 292 years of its issue, an envelope that is made after an `Add` holds the sample that was added and another with another
-- nonce, the one received first before the other; both are those of the receiver and the installation,
-- neither has expired, each was received within 5 seconds of its issue and none later than the event,
-- the second at most 15 minutes before it, and the two differences between receipt and issue are at
-- most 2 seconds apart.
pub envelope-Attested :
    (samples : List Sample) (s : Sample) (now : Time) (receiver_agent_id installation_id : Text)
    (e : Attestation)
    → All IsNear samples
    → IsNear s
    → envelope (add samples s) now receiver_agent_id installation_id ≡ some e
    → Attested now receiver_agent_id installation_id s (add samples s) e
envelope-Attested samples s now r i e all near h = elim (add-AddsTo samples s all) [
  | inl alone ↦
      absurd (single_has_none now r i s e (ap (λ xs. envelope xs now r i) (sym alone) ∙ h))
  | inr (other, fresh, other_near, two) ↦ record {
    other = other;
    fresh = fresh;
    pair = two;
    attested =
        envelope-IsPair now r i other s e other_near near
          (ap (λ xs. envelope xs now r i) (sym two) ∙ h);
  }
]
