-- ===== src/Outbox/Index.antt =====
-- The due index against the queue: exactly the pending deliveries are in it, each under its key.
pub mod Add
use loramapr_receiver.Base.{
  ℕ, zero, suc, ◌≤◌, ◌<◌, Bool, true, false, Option, none, some, List, [], ◌∷◌, ◌++◌, ◌≡◌, ◌≢◌,
  refl, sym, ap, ◌∙◌, subst, ◌⊎◌, inl, inr, Text, text_eq, compare_text-eq, compare_text_refl,
  Result, ok, arith, length, drop, drop-append, Bool-cases, if◌then◌else◌, text_eq_sound,
  text_eq_of_eq, text_eq_refl,
}
use loramapr_receiver.Base.Entries.{IsSorted}
use loramapr_receiver.Outbox.Types.{Delivery, State, pending, inflight, Time}
use loramapr_receiver.Outbox.Platform.{Platform}
use loramapr_receiver.Outbox.Keys.{due_key, big_endian, unix_nano}
use loramapr_receiver.Outbox.Db.{Db, decode_delivery, delivery_due_key}
use loramapr_receiver.Outbox.Accounts.{delete-IsSorted, get-put, get-delete}

-- The identifier is what follows the 16 bytes of the time and the sequence number.
pub drop-due_key : (at seq : ℕ) (id : Text) → drop 16 (due_key at seq id) ≡ id
unfolding due_key big_endian
drop-due_key at seq id = refl

pub due_key-id :
    (r r' : Delivery) → delivery_due_key r ≡ delivery_due_key r' → r.delivery_id ≡ r'.delivery_id
due_key-id r r' h =
    sym (drop-due_key r.next_attempt_at r.sequence r.delivery_id)
    ∙ ap (drop 16) h
    ∙ drop-due_key r'.next_attempt_at r'.sequence r'.delivery_id

module _ (p : Platform) where
  open p use {Raw, raw_size, Bucket, get, put, delete, entries, marshal_delivery}

  pub decode-marshal :
      (r : Delivery) (raw : Raw) → marshal_delivery r ≡ ok raw → decode_delivery p (some raw) ≡ ok r
  unfolding decode_delivery
  decode-marshal r raw h =
      ground (arith, p.raw_size-marshal r raw h, p.unmarshal-marshal_delivery r raw h)

  -- `d` holds the delivery `r` under `k`.
  pub record Holding (d : Bucket Raw) (k : Text) (r : Delivery) : Type 0 where
    pub raw : Raw
    pub stored : get d k ≡ some raw
    pub decoded : decode_delivery p (some raw) ≡ ok r

  pub Holding-unique :
      {d : Bucket Raw} {k : Text} {r r' : Delivery} → Holding d k r → Holding d k r' → r ≡ r'
  Holding-unique h h' = ground arith

  pub record Indexed (d : Bucket Raw) (due : Bucket Text) : Type 0 where
    pub ordered : IsSorted (entries due)
    pub decodes : (k : Text) (raw : Raw) → get d k ≡ some raw → (r : Delivery) × Holding d k r
    pub named : (k : Text) (r : Delivery) → Holding d k r → r.delivery_id ≡ k
    pub durable :
        (k : Text) (r : Delivery) → Holding d k r → (r.state ≡ pending) ⊎ (r.state ≡ inflight)
    pub is_due :
        (k : Text) (r : Delivery)
        → Holding d k r
        → r.state ≡ pending
        → get due (delivery_due_key r) ≡ some k
    pub due_is :
        (key id : Text)
        → get due key ≡ some id
        → (r : Delivery) × Holding d id r × (key ≡ delivery_due_key r) × (r.state ≡ pending)

  -- Only what the bucket holds matters.
  module _ {d d' : Bucket Raw} (same : (k : Text) → get d' k ≡ get d k) where
    Holding-same : {k : Text} {r : Delivery} → Holding d k r → Holding d' k r
    Holding-same {k} h = record { raw = h.raw; stored = same k ∙ h.stored; decoded = h.decoded }

    Holding-back : {k : Text} {r : Delivery} → Holding d' k r → Holding d k r
    Holding-back {k} h = record {
      raw = h.raw;
      stored = sym (same k) ∙ h.stored;
      decoded = h.decoded;
    }

    pub Indexed-same : {due : Bucket Text} → Indexed d due → Indexed d' due
    Indexed-same i = record {
      ordered = i.ordered;
      decodes =
          λ k raw h. let (r, held) = i.decodes k raw (sym (same k) ∙ h) in (r, Holding-same held);
      named = λ k r h. i.named k r (Holding-back h);
      durable = λ k r h. i.durable k r (Holding-back h);
      is_due = λ k r h. i.is_due k r (Holding-back h);
      due_is = λ key id h.
          let (r, held, at, state) = i.due_is key id h in (r, Holding-same held, at, state);
    }

  module _ (d : Bucket Raw) (k : Text) where
    pub Holding-delete :
        (j : Text) (r : Delivery) → Holding (delete d k) j r → Holding d j r × (text_eq k j ≡ false)
    Holding-delete j r h = ground (arith, get-delete p d k j)

    pub Holding-deleted :
        (j : Text) (r : Delivery) → Holding d j r → text_eq k j ≡ false → Holding (delete d k) j r
    Holding-deleted j r h n = ground (arith, get-delete p d k j)

  -- Two keys of the index that are equal belong to one delivery.
  same_key :
      {d : Bucket Raw} {due : Bucket Text} (i : Indexed d due) {k j : Text} {r r' : Delivery}
      → Holding d k r
      → Holding d j r'
      → delivery_due_key r ≡ delivery_due_key r'
      → k ≡ j
  same_key i {k} {j} {r} {r'} h h' e = sym (i.named k r h) ∙ due_key-id r r' e ∙ i.named j r' h'

  module _ {d : Bucket Raw} {due : Bucket Text} (i : Indexed d due) where
    module _ {k : Text} {old : Delivery} (held : Holding d k old) where
      drop-is_due :
          (j : Text) (r : Delivery)
          → Holding (delete d k) j r
          → r.state ≡ pending
          → get (delete due (delivery_due_key old)) (delivery_due_key r) ≡ some j
      drop-is_due j r h s =
          let (before, other) = Holding-delete d k j r h in
          elim (Bool-cases (text_eq (delivery_due_key old) (delivery_due_key r))) [
            | inl e ↦ absurd (clash other (same_key i held before (text_eq_sound _ _ e)))
            | inr e ↦
                rw (get-delete p due (delivery_due_key old) (delivery_due_key r), e)
                  (i.is_due j r before s)
          ]
        where
          clash : text_eq k j ≡ false → k ≡ j → ⊥
          clash n e = ground (arith, compare_text_refl k)

      drop-due_is :
          (key id : Text)
          → get (delete due (delivery_due_key old)) key ≡ some id
          → (r : Delivery) × Holding (delete d k) id r
            × (key ≡ delivery_due_key r)
            × (r.state ≡ pending)
      drop-due_is key id h =
          let (r, at_id, at_key, state) = i.due_is key id before in
          (r, Holding-deleted d k id r at_id (differs r at_id at_key), at_key, state)
        where
          before : get due key ≡ some id
          before = ground (arith, get-delete p due (delivery_due_key old) key)

          other : text_eq (delivery_due_key old) key ≡ false
          other = ground (arith, get-delete p due (delivery_due_key old) key)

          differs :
              (r : Delivery) → Holding d id r → key ≡ delivery_due_key r → text_eq k id ≡ false
          differs r at_id at_key = elim (Bool-cases (text_eq k id)) [
            | inl e ↦ absurd (clash (text_eq_sound k id e))
            | inr e ↦ e
          ]
            where
              clash : k ≡ id → ⊥
              clash e =
                  let same = Holding-unique held (subst (λ x. Holding d x r) (sym e) at_id) in
                  cc (other, text_eq_of_eq (ap delivery_due_key same ∙ sym at_key))

      pub Indexed-drop : Indexed (delete d k) (delete due (delivery_due_key old))
      Indexed-drop = record {
        ordered = delete-IsSorted p due (delivery_due_key old) i.ordered;
        decodes = λ j raw h.
            let before : get d j ≡ some raw = ground (arith, get-delete p d k j) in
            let (r, at_j) = i.decodes j raw before in
            (r, Holding-deleted d k j r at_j (ground (arith, get-delete p d k j)));
        named = λ j r h. i.named j r (Holding-delete d k j r h).0;
        durable = λ j r h. i.durable j r (Holding-delete d k j r h).0;
        is_due = drop-is_due;
        due_is = drop-due_is;
      }
