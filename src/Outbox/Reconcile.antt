-- ===== src/Outbox/Reconcile.antt =====
-- store.go: `ReconcileBinding` and the record of the last reconciled binding.
use loramapr_receiver.Base.{
  ℕ, ◌+◌, Bool, false, ◌&&◌, ◌||◌, not, List, [], ◌∷◌, Option, none, some, Text, codes, trim,
  is_empty, text_eq, Result, ok, err, ◌>>=◌, ◌>>◌, refuse, binding_required, if◌then◌else◌,
}
use loramapr_receiver.Outbox.Types.{
  Delivery, Binding, ReconciledBinding, BindingReconcileResult, Config, Time,
}
use loramapr_receiver.Outbox.Platform.{Platform}
use loramapr_receiver.Outbox.Db.{Db}
use loramapr_receiver.Outbox.Quarantine.{Matched, Scan, into_quarantine, move_matching}

-- `reconciledBindingFrom`
abbrev pub reconciled_binding_from : Binding → ReconciledBinding
reconciled_binding_from b = record {
  owner_id = trim b.owner_id;
  receiver_agent_id = trim b.receiver_agent_id;
  installation_id = trim b.installation_id;
}

-- Equality of two `reconciledBinding` values.
unfoldable pub same_binding : ReconciledBinding → ReconciledBinding → Bool
same_binding a b =
    text_eq a.owner_id b.owner_id
    && text_eq a.receiver_agent_id b.receiver_agent_id
    && text_eq a.installation_id b.installation_id

abbrev pub trim_binding : Binding → Binding
trim_binding b = record b {
  owner_id = trim b.owner_id;
  receiver_agent_id = trim b.receiver_agent_id;
  installation_id = trim b.installation_id;
}

abbrev pub installation_reset : Text
installation_reset = codes "installation_reset"

abbrev pub credential_rebind_required : Text
credential_rebind_required = codes "credential_rebind_required"

-- The reason to quarantine a delivery under a binding; `none` is a delivery that is kept.
unfoldable pub rebind_reason : Binding → Delivery → Option Text
rebind_reason b r =
    if not (text_eq r.installation_id b.installation_id)
    then some installation_reset
    else if not (text_eq r.owner_id b.owner_id)
        || not (text_eq r.receiver_agent_id_snapshot b.receiver_agent_id)
    then some credential_rebind_required
    else none

abbrev pub binding_changed : Time → Delivery → Text → Delivery
binding_changed now r reason = record (into_quarantine now reason r) {
  last_error_code = codes "OUTBOX_BINDING_CHANGED";
  last_error =
      codes "pending normalized delivery binding no longer matches active receiver credentials";
}

abbrev pub rebound : Time → Binding → Delivery → Option Delivery
rebound now b r = elim (rebind_reason b r) [
  | none ↦ none
  | some reason ↦ some (binding_changed now r reason)
]

abbrev pub nothing_reconciled : BindingReconcileResult
nothing_reconciled = record {
  kept = 0;
  credential_rebind_quarantined = 0;
  installation_reset_quarantined = 0;
}

module _ (p : Platform) where
  open p use {Raw, marshal_binding, unmarshal_binding, entries}

  abbrev pub decodes_to : Result ReconciledBinding → Binding → Bool
  decodes_to (ok stored) b = same_binding stored (reconciled_binding_from b)
  decodes_to (err e) b = false

  -- `bindingAlreadyReconciled`
  unfoldable pub already_reconciled : Db p → Binding → Bool
  already_reconciled db b = elim db.reconciled_binding [
    | none ↦ false
    | some raw ↦ decodes_to (unmarshal_binding raw) b
  ]

  abbrev pub is_reset : Matched p → Bool
  is_reset m = text_eq m.new.quarantine_reason installation_reset

  unfoldable pub count_reset : List (Matched p) → ℕ
  count_reset [] = 0
  count_reset (m ∷ ms) = (if is_reset m then 1 else 0) + count_reset ms

  unfoldable pub count_rebind : List (Matched p) → ℕ
  count_rebind [] = 0
  count_rebind (m ∷ ms) = (if is_reset m then 0 else 1) + count_rebind ms

  -- What follows the loop: the binding is recorded.
  unfoldable pub finish_reconcile : Binding → Db p × Scan p → Result (Db p × BindingReconcileResult)
  finish_reconcile b (db, scan) = do
    encoded ← marshal_binding (reconciled_binding_from b)
    ok (
      record db { reconciled_binding = some encoded },
      record {
        kept = scan.kept;
        credential_rebind_quarantined = count_rebind scan.matches;
        installation_reset_quarantined = count_reset scan.matches;
      },
    )

  unfoldable pub reconcile_trimmed :
      Config → Time → Binding → Db p → Result (Db p × BindingReconcileResult)
  reconcile_trimmed cfg now b db =
      if already_reconciled db b
      then ok (db, nothing_reconciled)
      else move_matching p cfg (rebound now b) db >>= finish_reconcile b

  unfoldable pub reconcile_binding :
      Config → Time → Binding → Db p → Result (Db p × BindingReconcileResult)
  unfolding reconcile_trimmed
  reconcile_binding cfg now b db = do
    let t = trim_binding b
    refuse (is_empty t.owner_id || is_empty t.receiver_agent_id || is_empty t.installation_id)
        binding_required
    reconcile_trimmed cfg now t db
