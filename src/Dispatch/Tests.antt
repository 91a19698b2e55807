-- ===== src/Dispatch/Tests.antt =====
-- The dispatch on concrete inputs.
use loramapr_receiver.Base.{
  ℕ, ◌+◌, ◌*◌, ◌≤◌, ◌<◌, true, false, Option, none, some, [], ◌≡◌, refl, subst, codes, trim,
  compare_text, Error, arith,
}
use loramapr_receiver.Outbox.Types.{Binding}
use loramapr_receiver.Outbox.Store.{Store}
use loramapr_receiver.Outbox.Listed.{listed}
use loramapr_receiver.Outbox.Validity.{IsValid}
use loramapr_receiver.Outbox.Operations.Validity.{StoreIsValid}
use loramapr_receiver.Outbox.Tests.{one_db, one_db-IsValid, small, today}
use loramapr_receiver.Dispatch.Classify.{
  ApiError, classify, retry_delay, second, decide, is_binding_code, normalized_reason,
  failure_from_error,
}
use loramapr_receiver.Dispatch.Delays.{pauses, IsCoherent, classify-IsCoherent, retry_delay_bounds}
use loramapr_receiver.Dispatch.Once.{acknowledged, Client, DispatchResult, failed, dispatch_once}
use loramapr_receiver.Dispatch.Once.{
  after_clear, after_pause, after_reconcile, after_due, after_send, settle_failure,
}
use loramapr_receiver.Outbox.Store.{update, view}
use loramapr_receiver.Outbox.Pause.{clear_resolved_pause, read_pause, pause_delivery}
use loramapr_receiver.Outbox.Reconcile.{
  reconcile_binding, reconcile_trimmed, already_reconciled, rebind_reason, finish_reconcile,
  count_rebind, count_reset,
}
use loramapr_receiver.Outbox.Quarantine.{delete_delivery, move_matching, collect, settle, move_all}
use loramapr_receiver.Outbox.Db.{decode_delivery, write_counters}
use loramapr_receiver.Outbox.Attempts.{
  next_due, first_due, mark_inflight, set_inflight, update_delivery,
}
use loramapr_receiver.Outbox.Keys.{
  big_endian, due_key, due_timestamp, from_big_endian, time_of_unix_nano, unix_nano,
}
use loramapr_receiver.Base.Entries.{lookup, insert, remove}
use loramapr_receiver.Dispatch.Runs.{Run, dispatch_once-Run}
use loramapr_receiver.Dispatch.Acks.{IsGone, dispatch_once-IsGone}
use loramapr_receiver.Dispatch.Stops.{dispatch_once_again}

-- The mappings of letters, without effect on the texts used here.
abbrev same : ℕ → ℕ
same c = c

abbrev unauthorized : ApiError
unauthorized = record {
  status_code = 401;
  code = codes "RECEIVER_UNKNOWN";
  retryable = false;
  retry_after = 0;
  request_id = codes "r1";
}

abbrev refusing : Client Unit Unit
refusing endpoint key envelope id digest =
    failed (record { message = codes "unauthorized"; api = some unauthorized })

abbrev binding : Binding
binding = record {
  owner_id = codes "owner";
  receiver_agent_id = codes "agent";
  installation_id = codes "inst";
  credential_generation = 1;
  binding_generation = 1;
}

abbrev one_store : Store listed
one_store = record { db = some one_db; cfg = small; maintenance_error = none }

one_store-IsValid : StoreIsValid listed one_store
one_store-IsValid db e = subst (IsValid listed) (ground arith) one_db-IsValid

classify-IsCoherent_example :
    IsCoherent unauthorized
      (classify same same (some (record { message = []; api = some unauthorized })))
classify-IsCoherent_example = classify-IsCoherent same same [] unauthorized

retry_delay_bounds_example :
    (2 * second ≤ retry_delay 3)
    × (retry_delay 3 ≤ 64 * second)
    × (3 < 5 → retry_delay (3 + 1) ≡ 2 * retry_delay 3)
    × (5 ≤ 3 → retry_delay 3 ≡ 64 * second)
retry_delay_bounds_example = retry_delay_bounds 3

dispatch_once-Run_example :
    Run listed same same refusing
      (codes "key")
      binding
      today
      today
      one_store
      (dispatch_once listed same same refusing (codes "key") binding today today one_store)
dispatch_once-Run_example =
    dispatch_once-Run listed same same refusing (codes "key") binding today today one_store

abbrev first : Store listed × DispatchResult Unit Unit × Option Error
first = dispatch_once listed same same refusing (codes "key") binding today today one_store

stops : (pauses first.1.disposition.action ≡ true) × (first.2 ≡ none)
unfolding dispatch_once trim compare_text classify decide failure_from_error is_binding_code
    normalized_reason after_clear after_pause after_reconcile after_due after_send settle_failure
    update view clear_resolved_pause read_pause pause_delivery reconcile_binding reconcile_trimmed
    already_reconciled rebind_reason finish_reconcile count_rebind count_reset move_matching collect
    settle move_all decode_delivery write_counters next_due first_due mark_inflight set_inflight
    update_delivery big_endian due_key due_timestamp from_big_endian time_of_unix_nano unix_nano
    lookup insert remove
stops = (refl, refl)

dispatch_once_again_example :
    (next : DispatchResult Unit Unit) × (next.attempted ≡ false)
    × (next.delivery_id ≡ first.1.delivery_id)
    × (dispatch_once listed same same refusing (codes "key") binding (today + 9) (today + 9) first.0
        ≡ (first.0, next, none))
dispatch_once_again_example =
    dispatch_once_again listed binding same same refusing (codes "key") today today one_store
      refusing (codes "key") (today + 9) (today + 9) stops.0 stops.1

abbrev accepting : Client Unit Unit
accepting endpoint key envelope id digest =
    acknowledged
      (record { duplicate = false; clock_attestation = none; session_eligible_position = none })

abbrev delivered : Store listed × DispatchResult Unit Unit × Option Error
delivered = dispatch_once listed same same accepting (codes "key") binding today today one_store

delivers : (delivered.1.acknowledged ≡ true) × (delivered.2 ≡ none)
unfolding dispatch_once trim compare_text classify decide failure_from_error is_binding_code
    normalized_reason after_clear after_pause after_reconcile after_due after_send settle_failure
    update view clear_resolved_pause read_pause pause_delivery reconcile_binding reconcile_trimmed
    already_reconciled rebind_reason finish_reconcile count_rebind count_reset move_matching collect
    settle move_all decode_delivery write_counters next_due first_due mark_inflight set_inflight
    update_delivery big_endian due_key due_timestamp from_big_endian time_of_unix_nano unix_nano
    lookup insert remove delete_delivery
delivers = (refl, refl)

dispatch_once-IsGone_example : IsGone listed delivered.0 delivered.1.delivery_id
dispatch_once-IsGone_example =
    dispatch_once-IsGone listed same same accepting (codes "key") binding today today one_store
      one_store-IsValid delivers.0 delivers.1
