-- ===== src/Dispatch/Classify.antt =====
-- dispatch.go: what a failed send leads to. The status code is a number without sign; a negative
-- `RetryAfter` is read as 0, which the code treats alike. `to_lower` and `to_upper` are Go's
-- `unicode.ToLower` and `unicode.ToUpper`.
use loramapr_receiver.Base.{
  ℕ, ◌*◌, ◌^◌, Bool, true, false, ◌&&◌, ◌||◌, Option, none, some, [], ◌++◌, map, Text, codes, trim,
  is_empty, text_eq, ltb, leb, ◌==◌, if◌then◌else◌,
}
use loramapr_receiver.Base.Decimal.{decimal}
use loramapr_receiver.Outbox.Types.{DispatchPauseKind, AttemptFailure}

-- The empty `Action` is that of a zero `Disposition`.
pub data Action : Type 0 where
  no_action retry quarantine pause require_pairing stop : Action

pub record Disposition : Type 0 where
  pub action : Action
  pub reason : Text
  pub retry_after : ℕ
  pub quarantine : Bool
  pub pairing_required : Bool
  pub pause_kind : DispatchPauseKind

-- The fields of `cloudclient.APIError` that the dispatcher reads.
pub record ApiError : Type 0 where
  pub status_code : ℕ
  pub code : Text
  pub retryable : Bool
  pub retry_after : ℕ
  pub request_id : Text

-- An error: its text, and the `APIError` that `errors.As` finds in it.
pub record SendError : Type 0 where
  pub message : Text
  pub api : Option ApiError

abbrev pub no_disposition : Disposition
no_disposition = record {
  action = no_action;
  reason = [];
  retry_after = 0;
  quarantine = false;
  pairing_required = false;
  pause_kind = DispatchPauseKind.empty;
}

unfoldable pub is_binding_code : Text → Bool
is_binding_code code =
    text_eq code (codes "RECEIVER_BINDING_MISMATCH")
    || text_eq code (codes "RECEIVER_BINDING_REQUIRED")
    || text_eq code (codes "RECEIVER_INSTALLATION_UNAVAILABLE")
    || text_eq code (codes "RECEIVER_REVOKED")
    || text_eq code (codes "RECEIVER_REPLACED")
    || text_eq code (codes "RECEIVER_DISABLED")

module _ (to_lower to_upper : ℕ → ℕ) where
  unfoldable pub normalized_reason : Text → ℕ → Text
  normalized_reason code status =
      if is_empty code then codes "http_" ++ decimal status else map to_lower code

  -- `base`, before the switch.
  abbrev pub undecided : Text → ApiError → Disposition
  undecided code e = record no_disposition {
    reason = normalized_reason code e.status_code;
    retry_after = e.retry_after;
  }

  -- The switch.
  unfoldable pub decide : Text → ApiError → Disposition
  decide code e =
      let base = undecided code e in
      if e.retryable || (e.status_code == 429)
      then record base { action = retry }
      else if e.status_code == 401
      then record base {
        action = require_pairing;
        pairing_required = true;
        pause_kind = DispatchPauseKind.credential;
      }
      else if (e.status_code == 409) && text_eq code (codes "DELIVERY_ID_COLLISION")
      then record base { action = stop; pause_kind = DispatchPauseKind.collision }
      else if (e.status_code == 403) && is_binding_code code
      then record base {
        action = pause;
        pairing_required = true;
        pause_kind = DispatchPauseKind.binding;
      }
      else if e.status_code == 403
      then record base {
        action = pause;
        pairing_required = true;
        pause_kind = DispatchPauseKind.credential;
      }
      else if leb 400 e.status_code && ltb e.status_code 500
      then record base { action = quarantine; quarantine = true }
      else record base { action = retry }

  abbrev pub classify_api : Option ApiError → Disposition
  classify_api none = record no_disposition { action = retry; reason = codes "delivery_error" }
  classify_api (some e) = decide (map to_upper (trim e.code)) e

  -- `Classify` of an error; `none` is Go's nil.
  unfoldable pub classify : Option SendError → Disposition
  unfolding decide
  classify none = no_disposition
  classify (some e) = classify_api e.api

abbrev pub of_api : Option ApiError → AttemptFailure → AttemptFailure
of_api none f = f
of_api (some e) f = record f {
  status_code = e.status_code;
  error_code = e.code;
  request_id = e.request_id;
}

unfoldable pub failure_from_error : SendError → AttemptFailure
failure_from_error e =
    of_api e.api (record { status_code = 0; error_code = []; message = e.message; request_id = [] })

abbrev pub second : ℕ
second = 1000000000

-- The attempts before this one are at least 0.
unfoldable pub retry_delay : ℕ → ℕ
retry_delay attempts =
    let n = if ltb 5 attempts then 5 else attempts in
    let delay = 2 * 2 ^ n * second in if ltb (120 * second) delay then 120 * second else delay
