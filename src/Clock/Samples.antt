-- ===== src/Clock/Samples.antt =====
-- internal/clockattestation/clock.go: the samples that are kept, and the envelope of an event. A
-- `time.Duration` is its 64 bits.
use loramapr_receiver.Base.{
  ℕ, ◌+◌, ◌-◌, ◌*◌, ◌%◌, ◌^◌, Bool, ◌&&◌, ◌||◌, leb, not, Option, none, some, List, [], ◌∷◌, ◌++◌,
  Text, trim, text_eq, ltb, length, drop, if◌then◌else◌,
}
use loramapr_receiver.Outbox.Types.{Time}
use loramapr_receiver.Clock.Types.{Candidate, Sample}

abbrev pub max_receipt_skew : ℕ
max_receipt_skew = 5 * 1000000000

abbrev pub max_offset_delta : ℕ
max_offset_delta = 2 * 1000000000

abbrev pub max_sample_age : ℕ
max_sample_age = 900 * 1000000000

-- `a.Sub(b)`, which stops at the largest and the smallest duration.
unfoldable pub duration_between : Time → Time → ℕ
duration_between a b =
    if leb b a
    then if ltb (a - b) (2 ^ 63) then a - b else 2 ^ 63 - 1
    else if ltb (b - a) (2 ^ 63)
    then 2 ^ 64 - (b - a)
    else 2 ^ 63

-- The difference of two durations, which wraps around.
unfoldable pub duration_minus : ℕ → ℕ → ℕ
duration_minus a b = (a + 2 ^ 64 - b) % 2 ^ 64

-- `abs`: the smallest duration is its own negative.
unfoldable pub abs : ℕ → ℕ
abs value = if ltb value (2 ^ 63) then value else 2 ^ 64 - value

-- `value > limit`, for a limit that is not negative: a value from 2^63 is negative.
unfoldable pub is_above : ℕ → ℕ → Bool
is_above limit value = ltb value (2 ^ 63) && ltb limit value

-- `BoundSample`, with nothing for its error.
unfoldable pub bound_sample : Candidate → Text → Text → Option Sample
bound_sample c receiver_agent_id installation_id =
    if not (text_eq c.claims.receiver_agent_id (trim receiver_agent_id))
      || not (text_eq c.claims.installation_id (trim installation_id))
    then none
    else some (record {
      token = c.token;
      received_at = c.received_at;
      issued_at = c.claims.issued_at;
      expires_at = c.claims.expires_at;
      nonce = c.claims.nonce;
      receiver_agent_id = c.claims.receiver_agent_id;
      installation_id = c.claims.installation_id;
    })

-- The loop of `Add`: the samples with another nonce.
abbrev pub without_nonce : Text → List Sample → List Sample
without_nonce nonce [] = []
without_nonce nonce (x ∷ xs) =
    let rest = without_nonce nonce xs in if not (text_eq x.nonce nonce) then x ∷ rest else rest

unfoldable pub last_two : List Sample → List Sample
last_two xs = if ltb 2 (length xs) then drop (length xs - 2) xs else xs

-- `Add`
unfoldable pub add : List Sample → Sample → List Sample
unfolding last_two
add samples sample = last_two (without_nonce sample.nonce samples ++ (sample ∷ []))

-- The samples of an envelope: each one's token and the time of its receipt.
pub record Attestation : Type 0 where
  pub first : Text × Time
  pub second : Text × Time

abbrev pub attestation : Sample → Sample → Attestation
attestation a b = record { first = (a.token, a.received_at); second = (b.token, b.received_at) }

-- A sample that is not the receiver's, or that has expired, or whose receipt is too far from its issue.
unfoldable pub is_unfit : Time → Text → Text → Sample → Bool
unfolding duration_between abs is_above
is_unfit now receiver_agent_id installation_id s =
    not (text_eq s.receiver_agent_id receiver_agent_id)
    || not (text_eq s.installation_id installation_id)
    || ltb s.expires_at now
    || is_above max_receipt_skew (abs (duration_between s.received_at s.issued_at))

-- The conditions on two samples, the first received first.
unfoldable pub is_refused : Time → Sample → Sample → Bool
unfolding duration_between duration_minus abs is_above
is_refused now a b =
    text_eq a.nonce b.nonce
    || ltb now b.received_at
    || is_above max_sample_age (duration_between now b.received_at)
    || is_above max_offset_delta (
        abs (
          duration_minus (duration_between a.received_at a.issued_at)
            (duration_between b.received_at b.issued_at)))

abbrev pub in_order : Time → Text → Text → Sample → Sample → Option Attestation
in_order now receiver_agent_id installation_id a b =
    if is_unfit now receiver_agent_id installation_id a
      || is_unfit now receiver_agent_id installation_id b
      || is_refused now a b
    then none
    else some (attestation a b)

-- `Envelope`
unfoldable pub envelope : List Sample → Time → Text → Text → Option Attestation
unfolding is_unfit is_refused
envelope (a ∷ b ∷ []) now receiver_agent_id installation_id =
    if ltb b.received_at a.received_at
    then in_order now receiver_agent_id installation_id b a
    else in_order now receiver_agent_id installation_id a b
envelope _ now receiver_agent_id installation_id = none
