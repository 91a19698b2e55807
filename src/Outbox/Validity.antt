-- ===== src/Outbox/Validity.antt =====
-- The invariant of the database, and that every operation on one delivery keeps it: the counters are
-- those of the buckets, no delivery is in two buckets, and the index is exact.
pub mod Bulk
use loramapr_receiver.Base.{
  ℕ, ◌+◌, Bool, true, false, Option, none, some, ◌≡◌, refl, sym, ap, ◌∙◌, subst, ◌⊎◌, inl, inr,
  Text, text_eq, text_eq_refl, compare_text-eq, trim, Result, ok, err, arith, if◌then◌else◌,
  Bool-cases, compare_text_refl,
}
use loramapr_receiver.Outbox.Types.{
  Delivery, pending, inflight, quarantined, Config, Time, AttemptFailure, Signed, DispatchPause,
}
use loramapr_receiver.Outbox.Platform.{Platform}
use loramapr_receiver.Outbox.Db.{
  Db, signed, plus, minus, exceeds, decode_delivery, write_counters, delivery_due_key,
}
use loramapr_receiver.Outbox.Attempts.{
  update_delivery, put_due, mark_inflight, retry, set_inflight, set_retry,
}
use loramapr_receiver.Outbox.Enqueue.{enqueue_tx, stamp}
use loramapr_receiver.Outbox.Pause.{
  pause_delivery, paused, resolve_delivery_collision, collision_resolved,
}
use loramapr_receiver.Outbox.Quarantine.{quarantine, delete_delivery, into_quarantine}
use loramapr_receiver.Outbox.Accounts.{
  Accounts, IsConsistent, Accounts-add, Accounts-replace, Accounts-move, Accounts-drop,
  Accounts-prune, write_counters-IsConsistent, write_counters-eq-ok, get-put, get-delete,
  counters_written,
}
use loramapr_receiver.Outbox.Effects.{
  Updated, update_delivery-eq-ok, Enqueued, enqueue_tx-eq-ok, PausedDelivery, pause_delivery-eq-ok,
  Quarantined, quarantine-eq-ok, resolve_delivery_collision-eq-ok, DeletedQueued,
  DeletedQuarantined, delete_delivery-eq-ok, given_up,
}
use loramapr_receiver.Outbox.Index.{Holding, Indexed, Indexed-same, Indexed-drop, decode-marshal}
use loramapr_receiver.Outbox.Index.Add.{Indexed-add, Indexed-hold}

module _ (p : Platform) where
  open p use {Raw, raw_size, Bucket, get, put, delete, marshal_delivery}

  pub record IsValid (db : Db p) : Type 0 where
    pub accounts : IsConsistent p db
    pub index : Indexed p db.deliveries db.due_index

  pub write_counters-IsValid :
      (count used : Signed) (db db' : Db p)
      → Accounts p db.deliveries db.quarantine count used
      → Indexed p db.deliveries db.due_index
      → write_counters p count used db ≡ ok db'
      → IsValid db'
  write_counters-IsValid count used db db' a i h = record {
    accounts = write_counters-IsConsistent p count used db db' a h;
    index =
        subst (λ (x : Db p). Indexed p x.deliveries x.due_index)
          (sym (write_counters-eq-ok p count used db h).0) i;
  }

  -- Writing over a key is removing it and adding it.
  put_over :
      (d : Bucket Raw) (k : Text) (v : Raw) (j : Text)
      → get (put d k v) j ≡ get (put (delete d k) k v) j
  put_over d k v j =
      rw (get-put p d k j v, get-put p (delete d k) k j v, get-delete p d k j) (ground arith)

  deleted_none : {V : Type 0} (d : Bucket V) (k : Text) → get (delete d k) k ≡ none
  deleted_none d k = rw (get-delete p d k k) (rw (text_eq_refl k, if◌then◌else◌))

  -- A stored delivery rewritten: it leaves the index, and enters it again if it is pending.
  module _ {d : Bucket Raw} {due : Bucket Text} (i : Indexed p d due) {k : Text} {old : Delivery}
      (held : Holding p d k old) (encoded : Raw) (r : Delivery)
      (marshalled : marshal_delivery r ≡ ok encoded) (name : r.delivery_id ≡ old.delivery_id) where
    Indexed-rewrite_due :
        r.state ≡ pending
        → Indexed p
            (put d k encoded)
            (put (delete due (delivery_due_key old)) (delivery_due_key r) k)
    Indexed-rewrite_due s = Indexed-same p (put_over d k encoded) (
        Indexed-add p (Indexed-drop p i held) k (deleted_none d k) encoded r
          (decode-marshal p r encoded marshalled) (name ∙ i.named k old held) s)

    Indexed-rewrite_hold :
        r.state ≡ inflight → Indexed p (put d k encoded) (delete due (delivery_due_key old))
    Indexed-rewrite_hold s = Indexed-same p (put_over d k encoded) (
        Indexed-hold p (Indexed-drop p i held) k (deleted_none d k) encoded r
          (decode-marshal p r encoded marshalled) (name ∙ i.named k old held) s)

  pub enqueue_tx-IsValid :
      (cfg : Config) (now : Time) (input : Delivery) (db db' : Db p)
      → IsValid db
      → enqueue_tx p cfg now input db ≡ ok db'
      → IsValid db'
  enqueue_tx-IsValid cfg now input db db' v h =
      let e = enqueue_tx-eq-ok p cfg now input db db' h in
      subst IsValid (sym e.result) (record {
        accounts =
            Accounts-add p v.accounts input.delivery_id e.encoded e.not_queued e.not_quarantined;
        index =
            Indexed-add p v.index input.delivery_id e.not_queued e.encoded
              (stamp now (db.sequence + 1) input) (decode-marshal p _ e.encoded e.marshalled) refl
              refl;
      })

  -- A rewrite by `updateDelivery`, given the index that it leaves.
  update-IsValid :
      {cfg : Config} {id : Text} {mutate : Delivery → Result Delivery} {make_due : Bool}
      {db db' : Db p} (v : IsValid db) (u : Updated p cfg id mutate make_due db db')
      → Indexed p (put db.deliveries id u.encoded) u.due
      → IsValid db'
  update-IsValid {id = k} {db' = after} v u i =
      write_counters-IsValid _ _ _ after (Accounts-replace p v.accounts k u.encoded u.raw u.found) i
        u.written

  module _ {cfg : Config} {id : Text} {db db' : Db p} where
    inflight_rewritten :
        (u : Updated p cfg id set_inflight false db db')
        → (u.new.state ≡ inflight)
          × (u.new.delivery_id ≡ u.old.delivery_id)
          × (delete db.due_index (delivery_due_key u.old) ≡ u.due)
    unfolding set_inflight
    inflight_rewritten u = ground (arith, u.mutated, u.indexed)

    retry_rewritten :
        (next : Time) (f : AttemptFailure) (u : Updated p cfg id (set_retry next f) true db db')
        → (u.new.state ≡ pending)
          × (u.new.delivery_id ≡ u.old.delivery_id)
          × (put (delete db.due_index (delivery_due_key u.old)) (delivery_due_key u.new) id ≡ u.due)
    unfolding set_retry
    retry_rewritten next f u = ground (arith, u.mutated, u.indexed)

  held_by :
      {cfg : Config} {id : Text} {mutate : Delivery → Result Delivery} {make_due : Bool}
      {db db' : Db p} (u : Updated p cfg id mutate make_due db db')
      → Holding p db.deliveries id u.old
  held_by u = record { raw = u.raw; stored = u.found; decoded = u.decoded }

  pub mark_inflight-IsValid :
      (cfg : Config) (id : Text) (db db' : Db p)
      → IsValid db
      → mark_inflight p cfg id db ≡ ok db'
      → IsValid db'
  unfolding mark_inflight
  mark_inflight-IsValid cfg id db db' v h =
      let u = update_delivery-eq-ok p cfg id set_inflight false db db' h in
      let (state, name, due) = inflight_rewritten u in
      update-IsValid v u (
        subst (Indexed p (put db.deliveries id u.encoded)) due
          (Indexed-rewrite_hold v.index (held_by u) u.encoded u.new u.marshalled name state))

  pub retry-IsValid :
      (cfg : Config) (id : Text) (next : Time) (f : AttemptFailure) (db db' : Db p)
      → IsValid db
      → retry p cfg id next f db ≡ ok db'
      → IsValid db'
  unfolding retry
  retry-IsValid cfg id next f db db' v h =
      let u = update_delivery-eq-ok p cfg id (set_retry next f) true db db' h in
      let (state, name, due) = retry_rewritten next f u in
      update-IsValid v u (
        subst (Indexed p (put db.deliveries id u.encoded)) due
          (Indexed-rewrite_due v.index (held_by u) u.encoded u.new u.marshalled name state))

  pub pause_delivery-IsValid :
      (cfg : Config) (now : Time) (id : Text) (pause : DispatchPause) (f : AttemptFailure)
      (db db' : Db p)
      → IsValid db
      → pause_delivery p cfg now id pause f db ≡ ok db'
      → IsValid db'
  pause_delivery-IsValid cfg now id pause f db db' v h =
      let u = pause_delivery-eq-ok p cfg now id pause f db db' h in
      write_counters-IsValid _ _ _ db' (Accounts-replace p v.accounts id u.encoded u.raw u.found)
        (Indexed-rewrite_due v.index (record { raw = u.raw; stored = u.found; decoded = u.decoded })
          u.encoded (paused f u.old) u.marshalled refl refl)
        u.written

  Quarantined-IsValid :
      {cfg : Config} {id : Text} {change : Delivery → Delivery} {pause : Option Raw} {db db' : Db p}
      → IsValid db
      → Quarantined p cfg id change pause db db'
      → IsValid db'
  Quarantined-IsValid {id = k} {db' = after} v q =
      write_counters-IsValid _ _ _ after (Accounts-move p v.accounts k q.encoded q.raw q.found)
        (Indexed-drop p v.index (record { raw = q.raw; stored = q.found; decoded = q.decoded }))
        q.written

  pub quarantine-IsValid :
      (cfg : Config) (now : Time) (id reason : Text) (f : AttemptFailure) (db db' : Db p)
      → IsValid db
      → quarantine p cfg now id reason f db ≡ ok db'
      → IsValid db'
  quarantine-IsValid cfg now id reason f db db' v h =
      Quarantined-IsValid v (quarantine-eq-ok p cfg now id reason f db db' h)

  pub resolve_delivery_collision-IsValid :
      (cfg : Config) (now : Time) (id : Text) (db db' : Db p)
      → IsValid db
      → resolve_delivery_collision p cfg now id db ≡ ok db'
      → IsValid db'
  resolve_delivery_collision-IsValid cfg now id db db' v h =
      Quarantined-IsValid v (resolve_delivery_collision-eq-ok p cfg now id db db' h)

  pub delete_delivery-IsValid :
      (id : Text) (db db' : Db p) → IsValid db → delete_delivery p id db ≡ ok db' → IsValid db'
  delete_delivery-IsValid id db db' v h = elim (delete_delivery-eq-ok p id db db' h) [
    | inl q ↦
        write_counters-IsValid _ _ _ db' (Accounts-drop p v.accounts id q.raw q.found)
          (Indexed-drop p v.index (record { raw = q.raw; stored = q.found; decoded = q.decoded }))
          q.written
    | inr q ↦
        write_counters-IsValid _ _ _ db' (Accounts-prune p v.accounts id q.raw q.found) v.index
          q.written
  ]
