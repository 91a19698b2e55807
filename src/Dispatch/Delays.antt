-- ===== src/Dispatch/Delays.antt =====
-- The classification of failures is coherent, and the delays of retries are bounded.
use loramapr_receiver.Base.{
  ℕ, zero, suc, ◌+◌, ◌*◌, ◌≤◌, ◌<◌, Bool, true, false, some, ◌≡◌, ◌≢◌, ◌⊎◌, ◌↔◌, Text, map, trim,
  arith,
}
use loramapr_receiver.Outbox.Types.{DispatchPauseKind}
use loramapr_receiver.Dispatch.Classify.{
  Action, retry, quarantine, pause, require_pairing, stop, no_action, Disposition, ApiError,
  classify, decide, retry_delay, second,
}

-- An action that stops the dispatch.
abbrev pub pauses : Action → Bool
pauses pause = true
pauses require_pairing = true
pauses stop = true
pauses _ = false

-- The parts of a disposition fit together, and fit the error.
pub record IsCoherent (e : ApiError) (d : Disposition) : Type 0 where
  pub acts : d.action ≢ no_action
  pub named : (d.pause_kind ≡ DispatchPauseKind.empty) ↔ (pauses d.action ≡ false)
  pub known : d.pause_kind ≢ DispatchPauseKind.other
  pub quarantines : (d.quarantine ≡ true) ↔ (d.action ≡ quarantine)
  pub collides : (d.pause_kind ≡ DispatchPauseKind.collision) ↔ (d.action ≡ stop)
  pub pairs : (d.pairing_required ≡ true) ↔ ((d.action ≡ pause) ⊎ (d.action ≡ require_pairing))
  pub retries : (d.action ≡ retry) ↔ (
      (e.retryable ≡ true) ⊎ (e.status_code ≡ 429) ⊎ (e.status_code < 400) ⊎ (500 ≤ e.status_code))
  pub delay : d.retry_after ≡ e.retry_after

module _ (to_lower to_upper : ℕ → ℕ) where
  decide-IsCoherent : (code : Text) (e : ApiError) → IsCoherent e (decide to_lower to_upper code e)
  unfolding decide
  decide-IsCoherent code e = record {
    acts = ground arith;
    named = ground arith;
    known = ground arith;
    quarantines = ground arith;
    collides = ground arith;
    pairs = ground arith;
    retries = ground arith;
    delay = ground arith;
  }

  -- The disposition of an answer of the cloud is coherent: it has an action, names a kind of pause
  -- exactly if it stops the dispatch, stops for good exactly on a collision, asks for pairing exactly
  -- if it pauses or requires pairing, and retries exactly if the answer is marked as retryable, is
  -- 429 or is outside 400 to 499.
  pub classify-IsCoherent :
      (message : Text) (e : ApiError)
      → IsCoherent e
          (classify to_lower to_upper (some (record { message = message; api = some e })))
  unfolding classify
  classify-IsCoherent message e = decide-IsCoherent (map to_upper (trim e.code)) e

-- The delay before a retry is 2 to 64 seconds, doubles with each of the first five attempts, and
-- stays at 64 seconds from then on; so the bound of two minutes is never reached.
pub retry_delay_bounds :
    (n : ℕ)
    → (2 * second ≤ retry_delay n)
      × (retry_delay n ≤ 64 * second)
      × (n < 5 → retry_delay (n + 1) ≡ 2 * retry_delay n)
      × (5 ≤ n → retry_delay n ≡ 64 * second)
unfolding retry_delay
retry_delay_bounds zero = ground arith
retry_delay_bounds (suc zero) = ground arith
retry_delay_bounds (suc (suc zero)) = ground arith
retry_delay_bounds (suc (suc (suc zero))) = ground arith
retry_delay_bounds (suc (suc (suc (suc zero)))) = ground arith
retry_delay_bounds (suc (suc (suc (suc (suc n))))) = ground arith
