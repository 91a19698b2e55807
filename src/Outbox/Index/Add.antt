-- ===== src/Outbox/Index/Add.antt =====
-- A delivery that enters the queue: what the index is afterwards.
use loramapr_receiver.Base.{
  none, some, ◌≡◌, sym, ap, ◌∙◌, subst, ◌⊎◌, inl, inr, Text, text_eq, compare_text-eq,
  text_eq_sound, text_eq_of_eq, text_eq_refl, ok, arith, Bool-cases,
}
use loramapr_receiver.Outbox.Types.{Delivery, pending, inflight}
use loramapr_receiver.Outbox.Platform.{Platform}
use loramapr_receiver.Outbox.Db.{decode_delivery, delivery_due_key}
use loramapr_receiver.Outbox.Accounts.{put-IsSorted, get-put}
use loramapr_receiver.Outbox.Index.{Holding, Indexed, due_key-id}

module _ (p : Platform) where
  open p use {Raw, Bucket, get, put}

  module _ {d : Bucket Raw} {due : Bucket Text} (i : Indexed p d due) where
    module _ (k : Text) (absent : get d k ≡ none) (encoded : Raw) (r : Delivery)
        (decoded : decode_delivery p (some encoded) ≡ ok r) (name : r.delivery_id ≡ k) where
      Holding-put :
          (j : Text) (x : Delivery)
          → Holding p (put d k encoded) j x
          → ((k ≡ j) × (r ≡ x)) ⊎ Holding p d j x
      Holding-put j x h = elim (Bool-cases (text_eq k j)) [
        | inl e ↦ inl (text_eq_sound k j e, ground (arith, get-put p d k j encoded))
        | inr e ↦ inr (ground (arith, get-put p d k j encoded))
      ]

      held_new : Holding p (put d k encoded) k r
      held_new = record {
        raw = encoded;
        stored = rw (get-put p d k k encoded, text_eq_refl k);
        decoded = decoded;
      }

      held_old : (j : Text) (x : Delivery) → Holding p d j x → Holding p (put d k encoded) j x
      held_old j x h = record {
        raw = h.raw;
        stored = ground (arith, get-put p d k j encoded, compare_text-eq k j, h.stored);
        decoded = h.decoded;
      }

      add-decodes :
          (j : Text) (raw : Raw)
          → get (put d k encoded) j ≡ some raw
          → (x : Delivery) × Holding p (put d k encoded) j x
      add-decodes j raw h = elim (Bool-cases (text_eq k j)) [
        | inl e ↦ (r, subst (λ y. Holding p (put d k encoded) y r) (text_eq_sound k j e) held_new)
        | inr e ↦
            let (x, at_j) = i.decodes j raw (ground (arith, get-put p d k j encoded)) in
            (x, held_old j x at_j)
      ]

      add-named : (j : Text) (x : Delivery) → Holding p (put d k encoded) j x → x.delivery_id ≡ j
      add-named j x h = elim (Holding-put j x h) [
        | inl (e, s) ↦ ap (λ (y : Delivery). y.delivery_id) (sym s) ∙ name ∙ e
        | inr before ↦ i.named j x before
      ]

      add-durable :
          (r.state ≡ pending) ⊎ (r.state ≡ inflight)
          → (j : Text) (x : Delivery) → Holding p (put d k encoded) j x
          → (x.state ≡ pending) ⊎ (x.state ≡ inflight)
      add-durable v j x h = elim (Holding-put j x h) [
        | inl (e, s) ↦ ground (arith, s)
        | inr before ↦ i.durable j x before
      ]

      add-is_due :
          (j : Text) (x : Delivery)
          → Holding p (put d k encoded) j x
          → x.state ≡ pending
          → get (put due (delivery_due_key r) k) (delivery_due_key x) ≡ some j
      add-is_due j x h s = elim (Holding-put j x h) [
        | inl (e, same) ↦
            rw (get-put p due (delivery_due_key r) (delivery_due_key x) k)
              (ground (arith, e, text_eq_of_eq (ap delivery_due_key same)))
        | inr before ↦ rw (get-put p due (delivery_due_key r) (delivery_due_key x) k) (
            ground (
              arith,
              i.is_due j x before s,
              compare_text-eq (delivery_due_key r) (delivery_due_key x),
              λ (e : delivery_due_key r ≡ delivery_due_key x).
                  sym name ∙ due_key-id r x e ∙ i.named j x before,
              before.stored,
            ))
      ]

      add-due_is :
          r.state ≡ pending
          → (key id : Text) → get (put due (delivery_due_key r) k) key ≡ some id
          → (x : Delivery) × Holding p (put d k encoded) id x
            × (key ≡ delivery_due_key x)
            × (x.state ≡ pending)
      add-due_is state key id h = elim (Bool-cases (text_eq (delivery_due_key r) key)) [
        | inl e ↦
            let here : k ≡ id = ground (arith, get-put p due (delivery_due_key r) key k) in
            (
              r,
              subst (λ y. Holding p (put d k encoded) y r) here held_new,
              sym (text_eq_sound _ _ e),
              state,
            )
        | inr e ↦
            let (x, at_id, at_key, s) =
              i.due_is key id (ground (arith, get-put p due (delivery_due_key r) key k)) in
            (x, held_old id x at_id, at_key, s)
      ]

      -- A new pending delivery, under its key in the index.
      pub Indexed-add :
          r.state ≡ pending → Indexed p (put d k encoded) (put due (delivery_due_key r) k)
      Indexed-add state = record {
        ordered = put-IsSorted p due (delivery_due_key r) k i.ordered;
        decodes = add-decodes;
        named = add-named;
        durable = add-durable (inl state);
        is_due = add-is_due;
        due_is = add-due_is state;
      }

      -- A new delivery in flight, that the index does not hold.
      pub Indexed-hold : r.state ≡ inflight → Indexed p (put d k encoded) due
      Indexed-hold state = record {
        ordered = i.ordered;
        decodes = add-decodes;
        named = add-named;
        durable = add-durable (inr state);
        is_due = λ j x h s. elim (Holding-put j x h) [
          | inl (e, same) ↦ cc (ap (λ (y : Delivery). y.state) same)
          | inr before ↦ i.is_due j x before s
        ];
        due_is = λ key id h.
            let (x, at_id, at_key, s) = i.due_is key id h in (x, held_old id x at_id, at_key, s);
      }
