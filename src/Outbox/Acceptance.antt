-- ===== src/Outbox/Acceptance.antt =====
-- What a delivery finds when `Enqueue` has accepted it, and what pruning leaves of the quarantine.
use loramapr_receiver.Base.{
  ℕ, ◌+◌, ◌≤◌, ◌<◌, Bool-cases, Option, inl, inr, subst, sym, ltb, ◌==◌, false, none, some, ◌≡◌,
  Text, text_eq, text_eq_refl, ok, err, delivery_exists, arith, if◌then◌else◌,
}
use loramapr_receiver.Outbox.Types.{Delivery, Config, Time}
use loramapr_receiver.Outbox.Platform.{Platform}
use loramapr_receiver.Outbox.Db.{Db, delivery_due_key}
use loramapr_receiver.Outbox.Enqueue.{enqueue_tx, stamp}
use loramapr_receiver.Outbox.Prune.{prune_tx, is_retained}
use loramapr_receiver.Outbox.Pruning.{prune_tx-eq-ok, Pruned_at}
use loramapr_receiver.Outbox.Accounts.{get-put, write_counters-eq-ok}
use loramapr_receiver.Outbox.Effects.{enqueue_tx-eq-ok}
use loramapr_receiver.Outbox.Index.{Holding, decode-marshal}
use loramapr_receiver.Outbox.Validity.{IsValid}

module _ (p : Platform) where
  open p use {Raw, get}

  pub record Accepted (cfg : Config) (now : Time) (input : Delivery) (db db' : Db p) : Type 0 where
    pub held : Holding p db'.deliveries input.delivery_id (stamp now (db.sequence + 1) input)
    pub indexed :
        get db'.due_index (delivery_due_key (stamp now (db.sequence + 1) input))
        ≡ some input.delivery_id
    pub others :
        (k : Text)
        → text_eq input.delivery_id k ≡ false
        → get db'.deliveries k ≡ get db.deliveries k
    pub quarantine : db'.quarantine ≡ db.quarantine
    pub numbered : db'.sequence ≡ db.sequence + 1
    pub events_bounded : db'.total_count ≤ cfg.max_events
    pub bytes_bounded : db'.used_bytes ≤ cfg.max_bytes
    pub once :
        (cfg' : Config) (now' : Time) (input' : Delivery)
        → input'.delivery_id ≡ input.delivery_id
        → enqueue_tx p cfg' now' input' db' ≡ err delivery_exists

  known :
      (cfg : Config) (now : Time) (input : Delivery) (db : Db p) (raw : Raw)
      → get db.deliveries input.delivery_id ≡ some raw
      → enqueue_tx p cfg now input db ≡ err delivery_exists
  unfolding enqueue_tx
  known cfg now input db raw h = ground arith

  -- When the transaction of `Enqueue` succeeds, the delivery is queued as stamped with the next
  -- sequence number and is in the due index, nothing else in the queue or the quarantine has changed,
  -- the bounds on deliveries and bytes hold, and the database that results refuses every `Enqueue`
  -- of its identifier, whatever else the delivery holds.
  pub enqueue_tx-Accepted :
      (cfg : Config) (now : Time) (input : Delivery) (db db' : Db p)
      → enqueue_tx p cfg now input db ≡ ok db'
      → Accepted cfg now input db db'
  enqueue_tx-Accepted cfg now input db db' h =
      let e = enqueue_tx-eq-ok p cfg now input db db' h in
      let stored : get db'.deliveries input.delivery_id ≡ some e.encoded = ground (
        arith,
        e.result,
        get-put p db.deliveries input.delivery_id input.delivery_id e.encoded,
        text_eq_refl input.delivery_id,
      ) in
      record {
        held = record {
          raw = e.encoded;
          stored = stored;
          decoded = decode-marshal p (stamp now (db.sequence + 1) input) e.encoded e.marshalled;
        };
        indexed = ground (
          arith,
          e.result,
          get-put p db.due_index (delivery_due_key (stamp now (db.sequence + 1) input))
              (delivery_due_key (stamp now (db.sequence + 1) input)) input.delivery_id,
          text_eq_refl (delivery_due_key (stamp now (db.sequence + 1) input)),
        );
        others =
            λ k n. ground (arith, e.result, get-put p db.deliveries input.delivery_id k e.encoded);
        quarantine = ground (arith, e.result);
        numbered = ground (arith, e.result);
        events_bounded = ground (arith, e.result, e.event_fits);
        bytes_bounded = ground (arith, e.result, e.bytes_fit);
        once = λ cfg' now' input' same. known cfg' now' input' db' e.encoded (rw same stored);
      }

  -- Why a delivery stays in quarantine, or does not.
  pub data Fate (now : Time) (retention : ℕ) (d : Delivery) (raw : Raw) : Option Raw → Type 0 where
    undated : d.quarantined_at ≡ 0 → Fate now retention d raw (some raw)
    recent : now < d.quarantined_at + retention → Fate now retention d raw (some raw)
    expired :
        0 < d.quarantined_at → d.quarantined_at + retention ≤ now → Fate now retention d raw none

  retained_or_not :
      (now : Time) (retention : ℕ) (d : Delivery) (raw : Raw)
      → Fate now retention d raw (if is_retained now retention d then some raw else none)
  unfolding is_retained
  retained_or_not now retention d raw = elim (Bool-cases (d.quarantined_at == 0)) [
    | inl e ↦ rw e (undated (ground (arith, e)))
    | inr e ↦ elim (Bool-cases (ltb now (d.quarantined_at + retention))) [
      | inl f ↦ rw (e, f) (recent (ground (arith, f)))
      | inr f ↦ rw (e, f) (expired (ground (arith, e)) (ground (arith, f)))
    ]
  ]

  -- After a successful pruning of a valid database, a delivery that was in quarantine is still there,
  -- unchanged, if it has no time of quarantine or the retention has not passed since, and is gone if it
  -- has one and the retention has passed; the queue and the due index are as before.
  pub prune_tx-Fate :
      (now : Time) (retention : ℕ) (db : Db p) (r : Db p × ℕ) (k : Text) (d : Delivery)
      → IsValid p db
      → prune_tx p now retention db ≡ ok r
      → (h : Holding p db.quarantine k d)
      → Fate now retention d h.raw (get r.0.quarantine k)
        × (r.0.deliveries ≡ db.deliveries)
        × (r.0.due_index ≡ db.due_index)
  prune_tx-Fate now retention db r k d v e h =
      let u = prune_tx-eq-ok p now retention db r e in
      let w = write_counters-eq-ok p u.after.count u.after.used _ u.written in
      (
        subst (Fate now retention d h.raw)
            (sym (Pruned_at p u v.accounts k h.raw d h.stored h.decoded))
            (retained_or_not now retention d h.raw),
        ground (arith, w),
        ground (arith, w),
      )
