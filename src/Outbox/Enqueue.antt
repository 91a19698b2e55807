-- ===== src/Outbox/Enqueue.antt =====
-- store.go: `Enqueue` and `invalidateReconciledBinding`.
use loramapr_receiver.Base.{
  ℕ, ◌+◌, Bool, ◌&&◌, ◌||◌, Option, none, some, trim, text_eq, is_empty, Result, ok, err, Error,
  ◌>>=◌, ◌>>◌, refuse, delivery_exists, delivery_required, outbox_full, outbox_prune_failed, ltb,
  ◌==◌, if◌then◌else◌,
}
use loramapr_receiver.Outbox.Types.{Delivery, ReconciledBinding, pending, Config, Time}
use loramapr_receiver.Outbox.Platform.{Platform}
use loramapr_receiver.Outbox.Db.{Db, signed, write_counters, delivery_due_key, try_put}
use loramapr_receiver.Outbox.Store.{Store, update, is_some}
use loramapr_receiver.Outbox.Prune.{prune_quarantine}

-- `if t.IsZero() { t = fallback }`
abbrev pub or_time : Time → Time → Time
or_time t fallback = if t == 0 then fallback else t

-- What `Enqueue` writes into its input.
abbrev pub stamp : Time → ℕ → Delivery → Delivery
stamp now sequence input =
    let enqueued : Time = or_time input.enqueued_at now in
    record input {
      state = pending;
      sequence = sequence;
      enqueued_at = enqueued;
      next_attempt_at = or_time input.next_attempt_at enqueued;
    }

-- The comparison of a reconciled binding with a delivery.
unfoldable pub binding_covers : ReconciledBinding → Delivery → Bool
binding_covers b r =
    text_eq b.owner_id (trim r.owner_id)
    && text_eq b.receiver_agent_id (trim r.receiver_agent_id_snapshot)
    && text_eq b.installation_id (trim r.installation_id)

unfoldable pub is_full : Error → Bool
is_full outbox_full = Bool.true
is_full _ = Bool.false

module _ (p : Platform) where
  open p use {Raw, raw_size, marshal_delivery, unmarshal_binding, get}

  abbrev pub keep_covering : Delivery → Raw → Result ReconciledBinding → Option Raw
  keep_covering r raw (err e) = none
  keep_covering r raw (ok b) = if binding_covers b r then some raw else none

  -- The stored binding after the invalidation.
  abbrev pub still_reconciled : Option Raw → Delivery → Option Raw
  still_reconciled none r = none
  still_reconciled (some raw) r = keep_covering r raw (unmarshal_binding raw)

  unfoldable pub enqueue_tx : Config → Time → Delivery → Db p → Result (Db p)
  enqueue_tx cfg now input db = do
    let id = input.delivery_id
    refuse (is_some (get db.deliveries id) || is_some (get db.quarantine id)) delivery_exists
    let r = stamp now (db.sequence + 1) input
    encoded ← marshal_delivery r
    refuse
        (ltb cfg.max_events (db.total_count + 1)
          || ltb cfg.max_bytes (db.used_bytes + raw_size encoded))
        outbox_full
    deliveries ← try_put p db.deliveries id encoded
    due ← try_put p db.due_index (delivery_due_key r) id
    write_counters p (signed (db.total_count + 1)) (signed (db.used_bytes + raw_size encoded))
        (record db {
          deliveries = deliveries;
          due_index = due;
          sequence = db.sequence + 1;
          reconciled_binding = still_reconciled db.reconciled_binding r;
        })

  -- One run of the transaction in the store.
  abbrev pub run_enqueue : Time → Delivery → Store p → Store p × Result (Unit {0})
  run_enqueue now input s = update p s (λ db. enqueue_tx s.cfg now input db >>= λ d. ok (d, tt))

  abbrev pub retry_pruned : Time → Delivery → Store p × Result ℕ → Store p × Result (Unit {0})
  retry_pruned now input (s, ok n) = run_enqueue now input s
  retry_pruned now input (s, err x) = (s, err outbox_prune_failed)

  -- The second half: on a full outbox, prune the quarantine and try once more.
  unfoldable pub enqueue_again :
      Time → Delivery → Store p × Result (Unit {0}) → Store p × Result (Unit {0})
  enqueue_again now input (s, ok u) = (s, ok u)
  enqueue_again now input (s, err e) =
      if is_full e then retry_pruned now input (prune_quarantine p now s) else (s, err e)

  unfoldable pub enqueue : Time → Delivery → Store p → Store p × Result (Unit {0})
  enqueue now input s =
      if is_empty (trim input.delivery_id) || is_empty input.envelope
      then (s, err delivery_required)
      else enqueue_again now input (run_enqueue now input s)
