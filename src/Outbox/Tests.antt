-- ===== src/Outbox/Tests.antt =====
-- The outbox on concrete inputs.
use loramapr_receiver.Base.{
  ℕ, ◌+◌, true, false, none, some, List, [], ◌∷◌, ◌≡◌, refl, sym, subst, ◌⊎◌, inl, Text, codes,
  text_eq, trim, Result, ok, err, delivery_not_found, arith, if◌then◌else◌, compare_text, Ordering,
  length,
}
use loramapr_receiver.Base.Entries.{lookup, insert, remove, total}
use loramapr_receiver.Outbox.Types.{
  Delivery, DispatchPause, DispatchPauseKind, Binding, AttemptFailure, Config, pending, intent,
  InstallationRotation, BindingReconcileResult,
}
use loramapr_receiver.Outbox.Keys.{due_key, due_timestamp, big_endian, unix_nano}
use loramapr_receiver.Outbox.Keys.Order.{InRange, compare-due_key_time, due_timestamp-due_key}
use loramapr_receiver.Outbox.Db.{Db, delivery_due_key, write_counters, decode_delivery}
use loramapr_receiver.Outbox.Store.{Store}
use loramapr_receiver.Outbox.Enqueue.{enqueue_tx}
use loramapr_receiver.Outbox.Attempts.{next_due}
use loramapr_receiver.Outbox.Quarantine.{
  receiver_quarantined, quarantine_by_receiver, move_matching, collect, settle, move_all, move_one,
}
use loramapr_receiver.Outbox.Reconcile.{
  reconcile_binding, already_reconciled, trim_binding, reconcile_trimmed, rebind_reason,
  finish_reconcile, count_reset, count_rebind, nothing_reconciled,
}
use loramapr_receiver.Outbox.Rotation.{
  quarantine_rotation, phase_eq, from_intent, quarantine_old, finish_rotation, clear_moved_pause,
}
use loramapr_receiver.Outbox.Prune.{prune_tx, prune_loop, is_retained}
use loramapr_receiver.Outbox.Listed.{Document, document_size, delivery, rotation, listed}
use loramapr_receiver.Outbox.Operations.{
  Operation, enqueues, marks_inflight, retries, prunes, perform_all,
}
use loramapr_receiver.Outbox.Index.{Holding}
use loramapr_receiver.Outbox.Validity.{IsValid, enqueue_tx-IsValid}
use loramapr_receiver.Outbox.Validity.Bulk.{
  Journal, MovedBy-IsValid, quarantine_by_receiver-MovedBy,
}
use loramapr_receiver.Outbox.Operations.Validity.{StoreIsValid, perform_all-StoreIsValid}
use loramapr_receiver.Outbox.Store.{view}
use loramapr_receiver.Outbox.Pause.{read_pause, clear_resolved_pause, resolve_delivery_collision}
use loramapr_receiver.Outbox.Collisions.{IsCollided, quarantine_by_receiver-IsCollided}
use loramapr_receiver.Outbox.Statistics.{Stats, stats, count_stats, stats-IsValid}
use loramapr_receiver.Outbox.NextDue.{AllInRange, NextDue, next_due-NextDue}
use loramapr_receiver.Outbox.Acceptance.{Accepted, enqueue_tx-Accepted, Fate, prune_tx-Fate}
use loramapr_receiver.Outbox.Picks.{IsOwn}
use loramapr_receiver.Outbox.Separation.{
  Isolated, reconcile_binding-Isolated, quarantine_by_receiver-Isolated,
  quarantine_rotation-Isolated,
}

abbrev pub sample : Delivery
sample = record {
  delivery_id = codes "d1";
  envelope = 1 ∷ 2 ∷ [];
  envelope_sha256 = [];
  idempotency_key = codes "d1";
  owner_id = codes "owner";
  receiver_agent_id_snapshot = codes "agent";
  installation_id = codes "inst";
  credential_generation = 0;
  binding_generation = 0;
  endpoint = codes "/api/receiver/events/v1";
  state = pending;
  sequence = 0;
  enqueued_at = 0;
  next_attempt_at = 0;
  attempts = 0;
  last_status_code = 0;
  last_error_code = [];
  last_error = [];
  last_request_id = [];
  quarantined_at = 0;
  quarantine_reason = [];
}

abbrev failure : AttemptFailure
failure = record { status_code = 503; error_code = []; message = []; request_id = [] }

abbrev pub small : Config
small = record { max_events = 2; max_bytes = 1000; quarantine_retention = 100 }

abbrev empty_db : Db listed
empty_db = record {
  deliveries = [];
  sequence = 0;
  due_index = [];
  quarantine = [];
  total_count = 0;
  used_bytes = 0;
  schema_version = some (codes "1");
  dispatch_pause = none;
  installation_rotation = none;
  reconciled_binding = none;
}

abbrev pub empty_store : Store listed
empty_store = record { db = some empty_db; cfg = small; maintenance_error = none }

empty_db-IsValid : IsValid listed empty_db
unfolding total lookup
empty_db-IsValid = record {
  accounts = record {
    sorted_deliveries = tt;
    sorted_quarantine = tt;
    disjoint = λ k. inl refl;
    counted = refl;
    measured = refl;
  };
  index = record {
    ordered = tt;
    decodes = λ k raw h. cc;
    named = λ k r h. cc h.stored;
    durable = λ k r h. cc h.stored;
    is_due = λ k r h s. cc h.stored;
    due_is = λ key id h. cc;
  };
}

pub empty_store-IsValid : StoreIsValid listed empty_store
empty_store-IsValid db e = subst (IsValid listed) (ground arith) empty_db-IsValid

abbrev script : List Operation
script =
    enqueues 5 sample ∷ marks_inflight (codes "d1") ∷ retries (codes "d1") 9 failure ∷ prunes 7 ∷ []

perform_all-StoreIsValid_example : StoreIsValid listed (perform_all listed script empty_store)
perform_all-StoreIsValid_example =
    perform_all-StoreIsValid listed script empty_store empty_store-IsValid

-- A time of the year 2023.
abbrev pub today : ℕ
today = 63835596800000000000

abbrev queued : Delivery
queued = record sample { sequence = 1; enqueued_at = today; next_attempt_at = today }

abbrev pub one_db : Db listed
one_db = record empty_db {
  deliveries = (codes "d1", delivery queued) ∷ [];
  sequence = 1;
  due_index = (delivery_due_key queued, codes "d1") ∷ [];
  total_count = 1;
  used_bytes = 66;
}

one_db-enqueued : enqueue_tx listed small today sample empty_db ≡ ok one_db
unfolding enqueue_tx write_counters lookup insert
one_db-enqueued = refl

pub one_db-IsValid : IsValid listed one_db
one_db-IsValid =
    enqueue_tx-IsValid listed small today sample empty_db one_db empty_db-IsValid one_db-enqueued

only_queued : (k : Text) (r : Delivery) → Holding listed one_db.deliveries k r → r ≡ queued
unfolding lookup decode_delivery
only_queued k r h = ground (arith, h.stored, h.decoded)

one_db-AllInRange : AllInRange listed one_db
one_db-AllInRange r q =
    subst (λ (x : Delivery). InRange x.next_attempt_at) (sym (only_queued r.delivery_id r q.held))
      (record { after_epoch = omega arith; before_2262 = omega arith })

next_due-NextDue_example : NextDue listed one_db today (next_due listed one_db today)
next_due-NextDue_example =
    next_due-NextDue listed one_db today one_db-IsValid.index one_db-AllInRange

enqueue_tx-Accepted_example : Accepted listed small today sample empty_db one_db
enqueue_tx-Accepted_example =
    enqueue_tx-Accepted listed small today sample empty_db one_db one_db-enqueued

abbrev other_binding : Binding
other_binding = record {
  owner_id = codes "owner";
  receiver_agent_id = codes "agent2";
  installation_id = codes "inst";
  credential_generation = 1;
  binding_generation = 1;
}

-- The value of a result.
abbrev value {ℓ} : {A : Type ℓ} → Result A → A → A
value (ok a) d = a
value (err e) d = d

not_reconciled : already_reconciled listed one_db (trim_binding other_binding) ≡ false
unfolding already_reconciled
not_reconciled = refl

abbrev reconciled_db : Db listed × BindingReconcileResult
reconciled_db =
    value (reconcile_binding listed small today other_binding one_db) (one_db, nothing_reconciled)

reconciles_one : reconcile_binding listed small today other_binding one_db ≡ ok reconciled_db
unfolding reconcile_binding reconcile_trimmed already_reconciled trim move_matching collect
    decode_delivery rebind_reason compare_text settle move_all move_one remove insert write_counters
    finish_reconcile count_reset count_rebind due_key big_endian unix_nano
reconciles_one = refl

reconcile_binding-Isolated_example :
    Isolated listed today
      (λ x. ¬ IsOwn other_binding x)
      (λ x.
        if text_eq x.installation_id (trim other_binding.installation_id)
        then codes "credential_rebind_required"
        else codes "installation_reset")
      one_db
      reconciled_db.0
reconcile_binding-Isolated_example =
    reconcile_binding-Isolated listed small today other_binding one_db reconciled_db one_db-IsValid
      not_reconciled reconciles_one

abbrev receiver_db : Db listed × ℕ
receiver_db =
    value (quarantine_by_receiver listed small today (codes "agent") (codes "lost") failure one_db)
      (one_db, 0)

quarantines_one :
    quarantine_by_receiver listed small today (codes "agent") (codes "lost") failure one_db
    ≡ ok receiver_db
unfolding quarantine_by_receiver trim move_matching collect decode_delivery compare_text settle
    move_all move_one remove insert write_counters due_key big_endian unix_nano
quarantines_one = refl

quarantine_by_receiver-Isolated_example :
    Isolated listed today
      (λ x. x.receiver_agent_id_snapshot ≡ trim (codes "agent"))
      (λ x. trim (codes "lost"))
      one_db
      receiver_db.0
quarantine_by_receiver-Isolated_example =
    quarantine_by_receiver-Isolated listed small today (codes "agent") (codes "lost") failure one_db
      receiver_db one_db-IsValid quarantines_one

abbrev new_rotation : InstallationRotation
new_rotation = record {
  old_installation_id = codes "inst";
  new_installation_id = codes "inst2";
  reason = codes "reset";
  phase = intent;
  started_at = today;
  updated_at = today;
  quarantined = 0;
}

abbrev rotating_db : Db listed
rotating_db = record one_db { installation_rotation = some (rotation new_rotation) }

rotating_db-IsValid : IsValid listed rotating_db
rotating_db-IsValid = record { accounts = one_db-IsValid.accounts; index = one_db-IsValid.index }

abbrev rotated_db : Db listed × InstallationRotation
rotated_db = value (quarantine_rotation listed small today rotating_db) (rotating_db, new_rotation)

rotates_one : quarantine_rotation listed small today rotating_db ≡ ok rotated_db
unfolding quarantine_rotation from_intent quarantine_old finish_rotation clear_moved_pause trim
    move_matching collect decode_delivery compare_text settle move_all move_one remove insert
    write_counters due_key big_endian unix_nano
rotates_one = refl

quarantine_rotation-Isolated_example :
    (j : InstallationRotation) × Journal listed rotating_db j
    × (((phase_eq j.phase intent ≡ false) × (rotated_db ≡ (rotating_db, j)))
        ⊎ ((phase_eq j.phase intent ≡ true)
            × Isolated listed today
                (λ x. x.installation_id ≡ j.old_installation_id)
                (λ x. codes "installation_rotated")
                rotating_db
                rotated_db.0))
quarantine_rotation-Isolated_example =
    quarantine_rotation-Isolated listed small today rotating_db rotated_db rotating_db-IsValid
      rotates_one

-- The delivery in quarantine, pruned when the retention has passed.
abbrev lost : Delivery
lost = receiver_quarantined today (codes "lost") failure queued

receiver_db-IsValid : IsValid listed receiver_db.0
receiver_db-IsValid =
    MovedBy-IsValid listed
      (quarantine_by_receiver-MovedBy listed small today (codes "agent") (codes "lost") failure
        one_db receiver_db quarantines_one)
      one_db-IsValid

holds_lost : Holding listed receiver_db.0.quarantine (codes "d1") lost
unfolding quarantine_by_receiver trim move_matching collect decode_delivery compare_text settle
    move_all move_one remove insert lookup write_counters due_key big_endian unix_nano
holds_lost = record { raw = delivery lost; stored = refl; decoded = refl }

abbrev pruned_db : Db listed × ℕ
pruned_db = value (prune_tx listed (today + 101) 100 receiver_db.0) (receiver_db.0, 0)

prunes_one : prune_tx listed (today + 101) 100 receiver_db.0 ≡ ok pruned_db
unfolding prune_tx prune_loop is_retained quarantine_by_receiver trim move_matching collect
    decode_delivery compare_text settle move_all move_one remove insert write_counters due_key
    big_endian unix_nano
prunes_one = refl

prune_tx-Fate_example :
    Fate listed (today + 101) 100 lost holds_lost.raw (lookup (codes "d1") pruned_db.0.quarantine)
    × (pruned_db.0.deliveries ≡ receiver_db.0.deliveries)
    × (pruned_db.0.due_index ≡ receiver_db.0.due_index)
prune_tx-Fate_example =
    prune_tx-Fate listed (today + 101) 100 receiver_db.0 pruned_db (codes "d1") lost
      receiver_db-IsValid prunes_one holds_lost

compare-due_key_time_example :
    compare_text (due_key today 2 (codes "b")) (due_key (today + 1) 1 (codes "a")) ≡ Ordering.lt
compare-due_key_time_example =
    compare-due_key_time today (today + 1) 2 1 (codes "b") (codes "a")
      (record { after_epoch = omega arith; before_2262 = omega arith })
      (record { after_epoch = omega arith; before_2262 = omega arith }) (omega arith)

due_timestamp-due_key_example : due_timestamp (due_key today 7 (codes "a")) ≡ today
due_timestamp-due_key_example =
    due_timestamp-due_key today 7 (codes "a") (omega arith) (omega arith)

abbrev one_stats : Stats
one_stats =
    value (stats listed (record { db = some one_db; cfg = small; maintenance_error = none }))
      (record {
        pending_count = record { plus = 0; minus = 0 };
        quarantined_count = 0;
        total_count = 0;
        used_bytes = 0;
        dispatch_pause = none;
        maintenance_error = none;
      })

counts_one :
    stats listed (record { db = some one_db; cfg = small; maintenance_error = none }) ≡ ok one_stats
unfolding stats view count_stats read_pause
counts_one = refl

stats-IsValid_example :
    (one_stats.pending_count.plus ≡ one_stats.pending_count.minus + length one_db.deliveries)
    × (one_stats.quarantined_count ≡ length one_db.quarantine)
    × (one_stats.used_bytes
        ≡ total document_size one_db.deliveries + total document_size one_db.quarantine)
stats-IsValid_example =
    stats-IsValid listed (record { db = some one_db; cfg = small; maintenance_error = none }) one_db
      one_stats refl one_db-IsValid counts_one

abbrev collision_pause : DispatchPause
collision_pause = record {
  kind = DispatchPauseKind.collision;
  reason = codes "delivery_id_collision";
  delivery_id = codes "d1";
  paused_at = today;
  credential_generation = 1;
  binding_generation = 1;
  status_code = 409;
  error_code = codes "DELIVERY_ID_COLLISION";
  request_id = [];
}

abbrev collided_db : Db listed
collided_db = record one_db { dispatch_pause = some (Document.pause collision_pause) }

collided_db-IsValid : IsValid listed collided_db
collided_db-IsValid = record { accounts = one_db-IsValid.accounts; index = one_db-IsValid.index }

collided_db-IsCollided : IsCollided listed collided_db (codes "d1")
collided_db-IsCollided = record {
  raw = Document.pause collision_pause;
  pause = collision_pause;
  stored = refl;
  decoded = refl;
  kind = refl;
  names = refl;
}

holds_queued : Holding listed collided_db.deliveries (codes "d1") queued
unfolding lookup decode_delivery compare_text
holds_queued = record { raw = delivery queued; stored = refl; decoded = refl }

agent_trimmed : queued.receiver_agent_id_snapshot ≡ trim (codes "agent")
unfolding trim
agent_trimmed = refl

abbrev stuck_db : Db listed × ℕ
stuck_db =
    value
      (quarantine_by_receiver listed small today (codes "agent") (codes "lost") failure collided_db)
      (collided_db, 0)

quarantines_collided :
    quarantine_by_receiver listed small today (codes "agent") (codes "lost") failure collided_db
    ≡ ok stuck_db
unfolding quarantine_by_receiver trim move_matching collect decode_delivery compare_text settle
    move_all move_one remove insert write_counters due_key big_endian unix_nano
quarantines_collided = refl

quarantine_by_receiver-IsCollided_example :
    IsCollided listed stuck_db.0 (codes "d1")
    × ((b : Binding) → clear_resolved_pause listed b stuck_db.0 ≡ ok (stuck_db.0, false))
    × ((at : ℕ)
        → resolve_delivery_collision listed small at (codes "d1") stuck_db.0
          ≡ err delivery_not_found)
quarantine_by_receiver-IsCollided_example =
    quarantine_by_receiver-IsCollided listed small today (codes "agent") (codes "lost") failure
      collided_db stuck_db (codes "d1") queued collided_db-IsValid collided_db-IsCollided
      holds_queued agent_trimmed quarantines_collided
