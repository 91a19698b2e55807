-- ===== src/Runtime/Tests.antt =====
-- The rotation of an installation on concrete inputs.
use loramapr_receiver.Base.{
  true, none, some, [], ◌≡◌, ◌≢◌, refl, codes, trim, compare_text, ok, arith, subst,
}
use loramapr_receiver.Base.Entries.{lookup, insert, remove}
use loramapr_receiver.Outbox.Types.{InstallationRotation, state_rotated}
use loramapr_receiver.Outbox.Keys.{due_key, big_endian, unix_nano}
use loramapr_receiver.Outbox.Db.{decode_delivery, write_counters}
use loramapr_receiver.Outbox.Store.{Store, update, view}
use loramapr_receiver.Outbox.Listed.{listed}
use loramapr_receiver.Outbox.Quarantine.{move_matching, collect, settle, move_all, move_one}
use loramapr_receiver.Outbox.Rotation.{
  read_rotation, begin_rotation, begin_or_resume, quarantine_rotation, advance_rotation,
  advance_from, from_intent, quarantine_old, finish_rotation, clear_moved_pause,
}
use loramapr_receiver.Outbox.Operations.Validity.{StoreIsValid}
use loramapr_receiver.Outbox.Validity.{IsValid}
use loramapr_receiver.Outbox.Tests.{one_db, one_db-IsValid, small, today}
use loramapr_receiver.State.Types.{Data, zero_data, zero_installation_state}
use loramapr_receiver.State.Store as StateStore
use loramapr_receiver.State.Tests.{plain}
use loramapr_receiver.Pairing.Types.{World, Manager}
use loramapr_receiver.Pairing.Lifecycle.{submit_pairing_code, normalize_pairing_code}
use loramapr_receiver.Pairing.Coherence.{StoreIsCoherent}
use loramapr_receiver.Pairing.Tests.{granting, host, at_time, blank_status}
use loramapr_receiver.Runtime.Rotation.{
  RotationMoment, Both, rotate_installation, recover_from, begin_new, from_quarantined,
  rotate_state, advance_rotated, from_rotated, finish, rotate_data, validate_rotated_state,
}
use loramapr_receiver.Runtime.Rotated.{Rotated, Began, rotate_installation-Rotated}
use loramapr_receiver.Runtime.Repairing.{Repaired, submit_pairing_code-Repaired}
use loramapr_receiver.Runtime.Coherence.{rotate_installation-IsCoherent}

abbrev rotation_moment : RotationMoment
rotation_moment = record {
  begun_at = today;
  quarantined_at = today;
  rotated_at = 1;
  stamped_at = 1;
  advanced_at = today;
  completed_at = today;
  new_id = ok (codes "inst2");
  write = StateStore.written;
}

abbrev bound_data : Data
bound_data = record zero_data {
  installation = record zero_installation_state { id = codes "inst"; bound = true };
}

abbrev state : StateStore.Store
state = record { memory = bound_data; file = bound_data }

abbrev outbox : Store listed
outbox = record { db = some one_db; cfg = small; maintenance_error = none }

outbox-IsValid : StoreIsValid listed outbox
outbox-IsValid db e = subst (IsValid listed) (ground (arith, e)) one_db-IsValid

no_journal :
    (j : InstallationRotation)
    → view listed outbox (read_rotation listed) ≡ ok (some j)
    → j.phase ≢ state_rotated
unfolding view read_rotation
no_journal j h = absurd (ground (arith, h))

no_entry :
    (j : InstallationRotation)
    → view listed outbox (read_rotation listed) ≡ ok (some j)
    → j.new_installation_id ≢ j.old_installation_id
unfolding view read_rotation
no_entry j h = absurd (ground (arith, h))

abbrev after : Both listed plain
after = (rotate_installation listed plain rotation_moment (codes "re_pair") (state, outbox)).0

rotates :
    rotate_installation listed plain rotation_moment (codes "re_pair") (state, outbox)
    ≡ (after, ok (codes "inst2"))
unfolding rotate_installation recover_from begin_new from_quarantined rotate_state advance_rotated
    from_rotated finish rotate_data validate_rotated_state StateStore.update update view
    read_rotation begin_rotation begin_or_resume quarantine_rotation advance_rotation advance_from
    from_intent quarantine_old finish_rotation clear_moved_pause trim move_matching collect
    decode_delivery compare_text settle move_all move_one remove insert lookup write_counters
    due_key big_endian unix_nano
rotates = refl

rotate_installation-Rotated_example :
    (j : InstallationRotation) × Rotated listed plain j bound_data after (codes "inst2")
    × Began listed plain (state, outbox) j
rotate_installation-Rotated_example =
    rotate_installation-Rotated listed plain rotation_moment (codes "re_pair") (state, outbox) after
      (codes "inst2") outbox-IsValid no_journal rotates

state-IsCoherent : StoreIsCoherent state
state-IsCoherent = ground arith

rotate_installation-IsCoherent_example : StoreIsCoherent after.0
rotate_installation-IsCoherent_example =
    rotate_installation-IsCoherent listed plain rotation_moment (codes "re_pair") state outbox
      state-IsCoherent

abbrev manager : Manager (Store listed)
manager = record {
  client = some granting;
  identity = record { label = []; runtime_version = []; platform = []; arch = []; metadata = [] };
  rotator = some (rotate_installation listed plain rotation_moment);
}

abbrev world : World (Store listed)
world = record { store = state; own = outbox; status = blank_status }

abbrev repaired : World (Store listed)
repaired =
    (submit_pairing_code plain host manager (at_time 5 StateStore.written) (codes "ABCD1234")
      world).0

submits_code :
    submit_pairing_code plain host manager (at_time 5 StateStore.written) (codes "ABCD1234") world
    ≡ (repaired, ok tt)
unfolding submit_pairing_code normalize_pairing_code rotate_installation recover_from begin_new
    from_quarantined rotate_state advance_rotated from_rotated finish rotate_data
    validate_rotated_state StateStore.update update view read_rotation begin_rotation
    begin_or_resume quarantine_rotation advance_rotation advance_from from_intent quarantine_old
    finish_rotation clear_moved_pause trim move_matching collect decode_delivery compare_text settle
    move_all move_one remove insert lookup write_counters due_key big_endian unix_nano
submits_code = refl

submit_pairing_code-Repaired_example : Repaired listed plain world repaired
submit_pairing_code-Repaired_example =
    submit_pairing_code-Repaired listed plain rotation_moment host manager
      (at_time 5 StateStore.written) (codes "ABCD1234") world repaired refl refl outbox-IsValid
      no_journal no_entry submits_code
