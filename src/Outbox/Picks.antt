-- ===== src/Outbox/Picks.antt =====
-- Which deliveries the selections of the bulk operations pick, and what becomes of them.
use loramapr_receiver.Base.{
  inl, inr, Option, none, some, ◌≡◌, refl, Text, arith, trim, Option-cases, text_eq, if◌then◌else◌,
  codes, text_eq_of_eq, text_eq_sound, Bool-cases,
}
use loramapr_receiver.Outbox.Types.{Delivery, Time, AttemptFailure, Binding, quarantined}
use loramapr_receiver.Outbox.Quarantine.{of_receiver, receiver_quarantined}
use loramapr_receiver.Outbox.Reconcile.{rebound, trim_binding, rebind_reason, binding_changed}
use loramapr_receiver.Outbox.Rotation.{of_installation, rotated_out}

-- `r'` is `r` in quarantine.
pub record IsQuarantined (now : Time) (reason : Text) (r r' : Delivery) : Type 0 where
  pub state : r'.state ≡ quarantined
  pub at : r'.quarantined_at ≡ now
  pub reason_given : r'.quarantine_reason ≡ reason
  pub same_id : r'.delivery_id ≡ r.delivery_id
  pub same_envelope : r'.envelope ≡ r.envelope

-- `choice` is what becomes of `r`, if it is picked.
pub record Picks (now : Time) (IsPicked : Type 0) (reason : Text) (r : Delivery)
    (choice : Option Delivery) : Type 0 where
  pub taken : IsPicked → (r' : Delivery) × (choice ≡ some r') × IsQuarantined now reason r r'
  pub spared : ¬ IsPicked → choice ≡ none

-- A delivery of the binding, its texts trimmed: of its installation, owner and agent.
abbrev pub IsOwn : Binding → Delivery → Type 0
IsOwn b r =
    (r.installation_id ≡ trim b.installation_id)
    × (r.owner_id ≡ trim b.owner_id)
    × (r.receiver_agent_id_snapshot ≡ trim b.receiver_agent_id)

rebound_own :
    (now : Time) (b : Binding) (r : Delivery) → IsOwn b r → rebound now (trim_binding b) r ≡ none
unfolding rebind_reason
rebound_own now b r (i, o, a) = ground (arith, text_eq_of_eq i, text_eq_of_eq o, text_eq_of_eq a)

rebound_foreign :
    (now : Time) (b : Binding) (r : Delivery)
    → ¬ IsOwn b r
    → rebound now (trim_binding b) r
      ≡ some (
          binding_changed now r (
            if text_eq r.installation_id (trim b.installation_id)
            then codes "credential_rebind_required"
            else codes "installation_reset"))
unfolding rebind_reason
rebound_foreign now b r h = elim (Bool-cases (text_eq r.installation_id (trim b.installation_id))) [
  | inr i ↦ ground (arith, i)
  | inl i ↦ elim (Bool-cases (text_eq r.owner_id (trim b.owner_id))) [
    | inr o ↦ ground (arith, i, o)
    | inl o ↦ elim (Bool-cases (text_eq r.receiver_agent_id_snapshot (trim b.receiver_agent_id))) [
      | inr a ↦ ground (arith, i, o, a)
      | inl a ↦ absurd (h (text_eq_sound _ _ i, text_eq_sound _ _ o, text_eq_sound _ _ a))
    ]
  ]
]

pub rebound-Picks :
    (now : Time) (b : Binding) (r : Delivery)
    → Picks now
        (¬ IsOwn b r)
        (if text_eq r.installation_id (trim b.installation_id)
          then codes "credential_rebind_required"
          else codes "installation_reset")
        r
        (rebound now (trim_binding b) r)
rebound-Picks now b r = record {
  taken = λ h. (
    binding_changed now r (
        if text_eq r.installation_id (trim b.installation_id)
        then codes "credential_rebind_required"
        else codes "installation_reset"),
    rebound_foreign now b r h,
    record { state = refl; at = refl; reason_given = refl; same_id = refl; same_envelope = refl },
  );
  spared = λ n. elim (Option-cases (rebound now (trim_binding b) r)) [
    | inl e ↦ e
    | inr (r', e) ↦ absurd (n (λ own. cc (e, rebound_own now b r own)))
  ];
}

pub of_receiver-Picks :
    (now : Time) (agent reason : Text) (f : AttemptFailure) (r : Delivery)
    → Picks now
        (r.receiver_agent_id_snapshot ≡ trim agent)
        (trim reason)
        r
        (of_receiver now (trim agent) reason f r)
of_receiver-Picks now agent reason f r = record {
  taken = λ h. (
    receiver_quarantined now reason f r,
    ground (arith, text_eq_of_eq h),
    record { state = refl; at = refl; reason_given = refl; same_id = refl; same_envelope = refl },
  );
  spared = λ n. elim (Bool-cases (text_eq r.receiver_agent_id_snapshot (trim agent))) [
    | inl e ↦ absurd (n (text_eq_sound _ _ e))
    | inr e ↦ ground (arith, e)
  ];
}

pub of_installation-Picks :
    (now : Time) (old_id : Text) (r : Delivery)
    → Picks now
        (r.installation_id ≡ old_id)
        (codes "installation_rotated")
        r
        (of_installation now old_id r)
of_installation-Picks now old_id r = record {
  taken = λ h. (
    rotated_out now r,
    ground (arith, text_eq_of_eq h),
    record { state = refl; at = refl; reason_given = refl; same_id = refl; same_envelope = refl },
  );
  spared = λ n. elim (Bool-cases (text_eq r.installation_id old_id)) [
    | inl e ↦ absurd (n (text_eq_sound _ _ e))
    | inr e ↦ ground (arith, e)
  ];
}
