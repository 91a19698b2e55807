-- ===== src/Outbox/Effects.antt =====
-- What a transaction of the store has done if it succeeded: the values that it read and made, and
-- the database that it left.
use loramapr_receiver.Base.{
  ◌+◌, ◌≤◌, Bool, false, Option, none, some, ◌≡◌, ◌⊎◌, inl, inr, Option-cases, Text, Result, ok,
  arith, trim,
}
use loramapr_receiver.Outbox.Types.{Delivery, Config, Time, AttemptFailure, Signed, DispatchPause}
use loramapr_receiver.Outbox.Platform.{Platform}
use loramapr_receiver.Outbox.Db.{
  Db, signed, plus, minus, exceeds, decode_delivery, write_counters, delivery_due_key,
}
use loramapr_receiver.Outbox.Attempts.{update_delivery, put_due}
use loramapr_receiver.Outbox.Enqueue.{enqueue_tx, stamp, still_reconciled}
use loramapr_receiver.Outbox.Pause.{
  pause_delivery, paused, stamp_pause, resolve_delivery_collision, collision_resolved,
}
use loramapr_receiver.Outbox.Quarantine.{
  Matched, move_one, quarantine, delete_delivery, into_quarantine,
}
use loramapr_receiver.Outbox.Attempts.{record_failure}

module _ (p : Platform) where
  open p use {
    Raw, raw_size, Bucket, get, put, delete, marshal_delivery, marshal_pause, unmarshal_pause,
  }

  -- What a successful `updateDelivery` has done.
  pub record Updated (cfg : Config) (id : Text) (mutate : Delivery → Result Delivery)
      (make_due : Bool) (db db' : Db p) : Type 0 where
    pub raw : Raw
    pub old : Delivery
    pub new : Delivery
    pub encoded : Raw
    pub due : Bucket Text
    pub found : get db.deliveries id ≡ some raw
    pub decoded : decode_delivery p (some raw) ≡ ok old
    pub mutated : mutate old ≡ ok new
    pub marshalled : marshal_delivery new ≡ ok encoded
    pub fits :
        exceeds
          (plus (minus (signed db.used_bytes) (raw_size raw)) (raw_size encoded))
          cfg.max_bytes
        ≡ false
    pub indexed : put_due p make_due (delete db.due_index (delivery_due_key old)) new id ≡ ok due
    pub written :
        write_counters p
          (signed db.total_count)
          (plus (minus (signed db.used_bytes) (raw_size raw)) (raw_size encoded))
          (record db { deliveries = put db.deliveries id encoded; due_index = due })
        ≡ ok db'

  pub update_delivery-eq-ok :
      (cfg : Config) (id : Text) (mutate : Delivery → Result Delivery) (make_due : Bool)
      (db db' : Db p)
      → update_delivery p cfg id mutate make_due db ≡ ok db'
      → Updated cfg id mutate make_due db db'
  unfolding update_delivery
  update_delivery-eq-ok cfg id mutate make_due db db' h = ground arith

  pub record Enqueued (cfg : Config) (now : Time) (input : Delivery) (db db' : Db p) : Type 0 where
    pub encoded : Raw
    pub not_queued : get db.deliveries input.delivery_id ≡ none
    pub not_quarantined : get db.quarantine input.delivery_id ≡ none
    pub marshalled : marshal_delivery (stamp now (db.sequence + 1) input) ≡ ok encoded
    pub event_fits : db.total_count + 1 ≤ cfg.max_events
    pub bytes_fit : db.used_bytes + raw_size encoded ≤ cfg.max_bytes
    pub result : db' ≡ record db {
      deliveries = put db.deliveries input.delivery_id encoded;
      due_index =
          put db.due_index (delivery_due_key (stamp now (db.sequence + 1) input)) input.delivery_id;
      sequence = db.sequence + 1;
      reconciled_binding =
          still_reconciled p db.reconciled_binding (stamp now (db.sequence + 1) input);
      total_count = db.total_count + 1;
      used_bytes = db.used_bytes + raw_size encoded;
    }

  pub enqueue_tx-eq-ok :
      (cfg : Config) (now : Time) (input : Delivery) (db db' : Db p)
      → enqueue_tx p cfg now input db ≡ ok db'
      → Enqueued cfg now input db db'
  unfolding enqueue_tx write_counters
  enqueue_tx-eq-ok cfg now input db db' h = ground arith

  pub record PausedDelivery (cfg : Config) (now : Time) (id : Text) (pause : DispatchPause)
      (f : AttemptFailure) (db db' : Db p) : Type 0 where
    pub raw : Raw
    pub old : Delivery
    pub encoded : Raw
    pub pause_bytes : Raw
    pub found : get db.deliveries id ≡ some raw
    pub decoded : decode_delivery p (some raw) ≡ ok old
    pub marshalled : marshal_delivery (paused f old) ≡ ok encoded
    pub pause_marshalled : marshal_pause (stamp_pause now id pause) ≡ ok pause_bytes
    pub fits :
        exceeds
          (plus (minus (signed db.used_bytes) (raw_size raw)) (raw_size encoded))
          cfg.max_bytes
        ≡ false
    pub written :
        write_counters p
          (signed db.total_count)
          (plus (minus (signed db.used_bytes) (raw_size raw)) (raw_size encoded))
          (record db {
            deliveries = put db.deliveries id encoded;
            due_index =
                put
                  (delete db.due_index (delivery_due_key old))
                  (delivery_due_key (paused f old))
                  id;
            dispatch_pause = some pause_bytes;
          })
        ≡ ok db'

  pub pause_delivery-eq-ok :
      (cfg : Config) (now : Time) (id : Text) (pause : DispatchPause) (f : AttemptFailure)
      (db db' : Db p)
      → pause_delivery p cfg now id pause f db ≡ ok db'
      → PausedDelivery cfg now id pause f db db'
  unfolding pause_delivery
  pause_delivery-eq-ok cfg now id pause f db db' h = ground arith

  abbrev pub moved : Matched p → Raw → Db p → Db p
  moved m encoded db = record db {
    deliveries = delete db.deliveries m.key;
    due_index = delete db.due_index (delivery_due_key m.old);
    quarantine = put db.quarantine m.key encoded;
  }

  pub record Moved (cfg : Config) (m : Matched p) (st st' : Db p × Signed) : Type 0 where
    pub encoded : Raw
    pub marshalled : marshal_delivery m.new ≡ ok encoded
    pub fits : exceeds st'.1 cfg.max_bytes ≡ false
    pub result : st' ≡ (moved m encoded st.0, plus (minus st.1 (raw_size m.raw)) (raw_size encoded))

  pub move_one-eq-ok :
      (cfg : Config) (m : Matched p) (st st' : Db p × Signed)
      → move_one p cfg m st ≡ ok st'
      → Moved cfg m st st'
  unfolding move_one
  move_one-eq-ok cfg m st st' h = ground arith

  -- One delivery moved into quarantine, as `change` makes it; `pause` is the dispatch pause left.
  pub record Quarantined (cfg : Config) (id : Text) (change : Delivery → Delivery)
      (pause : Option Raw) (db db' : Db p) : Type 0 where
    pub raw : Raw
    pub old : Delivery
    pub encoded : Raw
    pub found : get db.deliveries id ≡ some raw
    pub decoded : decode_delivery p (some raw) ≡ ok old
    pub marshalled : marshal_delivery (change old) ≡ ok encoded
    pub fits :
        exceeds
          (plus (minus (signed db.used_bytes) (raw_size raw)) (raw_size encoded))
          cfg.max_bytes
        ≡ false
    pub written :
        write_counters p
          (signed db.total_count)
          (plus (minus (signed db.used_bytes) (raw_size raw)) (raw_size encoded))
          (record db {
            deliveries = delete db.deliveries id;
            due_index = delete db.due_index (delivery_due_key old);
            quarantine = put db.quarantine id encoded;
            dispatch_pause = pause;
          })
        ≡ ok db'

  -- What `Quarantine` makes of a delivery.
  abbrev pub given_up : Time → Text → AttemptFailure → Delivery → Delivery
  given_up now reason f old = record_failure f (into_quarantine now (trim reason) old)

  pub quarantine-eq-ok :
      (cfg : Config) (now : Time) (id reason : Text) (f : AttemptFailure) (db db' : Db p)
      → quarantine p cfg now id reason f db ≡ ok db'
      → Quarantined cfg id (given_up now reason f) db.dispatch_pause db db'
  unfolding quarantine move_one
  quarantine-eq-ok cfg now id reason f db db' h = ground arith

  pub resolve_delivery_collision-eq-ok :
      (cfg : Config) (now : Time) (id : Text) (db db' : Db p)
      → resolve_delivery_collision p cfg now id db ≡ ok db'
      → Quarantined cfg id (into_quarantine now collision_resolved) none db db'
  unfolding resolve_delivery_collision move_one
  resolve_delivery_collision-eq-ok cfg now id db db' h = ground arith

  -- `Delete` found the delivery in the queue or in quarantine.
  pub record DeletedQueued (id : Text) (db db' : Db p) : Type 0 where
    pub raw : Raw
    pub old : Delivery
    pub found : get db.deliveries id ≡ some raw
    pub decoded : decode_delivery p (some raw) ≡ ok old
    pub written :
        write_counters p
          (minus (signed db.total_count) 1)
          (minus (signed db.used_bytes) (raw_size raw))
          (record db {
            deliveries = delete db.deliveries id;
            due_index = delete db.due_index (delivery_due_key old);
          })
        ≡ ok db'

  pub record DeletedQuarantined (id : Text) (db db' : Db p) : Type 0 where
    pub raw : Raw
    pub not_queued : get db.deliveries id ≡ none
    pub found : get db.quarantine id ≡ some raw
    pub written :
        write_counters p
          (minus (signed db.total_count) 1)
          (minus (signed db.used_bytes) (raw_size raw))
          (record db { quarantine = delete db.quarantine id })
        ≡ ok db'

  deleted_queued :
      (id : Text) (db db' : Db p) (raw : Raw)
      → get db.deliveries id ≡ some raw
      → delete_delivery p id db ≡ ok db'
      → DeletedQueued id db db'
  unfolding delete_delivery
  deleted_queued id db db' raw e h = ground arith

  deleted_quarantined :
      (id : Text) (db db' : Db p)
      → get db.deliveries id ≡ none
      → delete_delivery p id db ≡ ok db'
      → DeletedQuarantined id db db'
  unfolding delete_delivery
  deleted_quarantined id db db' e h = ground arith

  pub delete_delivery-eq-ok :
      (id : Text) (db db' : Db p)
      → delete_delivery p id db ≡ ok db'
      → DeletedQueued id db db' ⊎ DeletedQuarantined id db db'
  delete_delivery-eq-ok id db db' h = elim (Option-cases (get db.deliveries id)) [
    | inl e ↦ inr (deleted_quarantined id db db' e h)
    | inr (raw, e) ↦ inl (deleted_queued id db db' raw e h)
  ]
