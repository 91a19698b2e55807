-- ===== src/Outbox/NextDue.antt =====
-- `NextDue`: it answers with the earliest pending delivery, and only when that is due.
use loramapr_receiver.Base.{
  ◌≤◌, ◌<◌, Option, none, some, List, [], ◌∷◌, ◌≡◌, refl, sym, ap, ◌∙◌, subst, ◌⊎◌, inl, inr, Text,
  Ordering, compare_text, compare_text_refl, compare_text-lt, Result, ok, arith, ltb, Bool-cases,
  if◌then◌else◌, ltb-false→le, ltb→lt,
}
use loramapr_receiver.Base.Entries.{lookup, lookup_first, IsSorted, first-le}
use loramapr_receiver.Outbox.Types.{Delivery, pending, Time}
use loramapr_receiver.Outbox.Platform.{Platform}
use loramapr_receiver.Outbox.Keys.{due_timestamp}
use loramapr_receiver.Outbox.Keys.Order.{InRange, compare-due_key_time, due_timestamp-due_key}
use loramapr_receiver.Outbox.Db.{Db, delivery_due_key}
use loramapr_receiver.Outbox.Attempts.{first_due, next_due}
use loramapr_receiver.Outbox.Index.{Holding, Indexed}

module _ (p : Platform) where
  open p use {Raw, Bucket, get, entries}

  -- A pending delivery of the queue.
  pub record IsPending (db : Db p) (r : Delivery) : Type 0 where
    pub held : Holding p db.deliveries r.delivery_id r
    pub state : r.state ≡ pending

  module _ (db : Db p) (i : Indexed p db.deliveries db.due_index) where
    -- The index entry of a pending delivery.
    indexed :
        (r : Delivery)
        → IsPending db r
        → lookup (delivery_due_key r) (entries db.due_index) ≡ some r.delivery_id
    indexed r q =
        sym (p.get-entries db.due_index (delivery_due_key r))
        ∙ i.is_due r.delivery_id r q.held q.state

    -- The first entry of the index names a pending delivery.
    first-IsPending :
        (key id : Text) (rest : List (Text × Text))
        → entries db.due_index ≡ (key, id) ∷ rest
        → (r : Delivery) × IsPending db r × (key ≡ delivery_due_key r) × (id ≡ r.delivery_id)
    first-IsPending key id rest e =
        let at : get db.due_index key ≡ some id =
          p.get-entries db.due_index key ∙ rw e (lookup_first key id rest) in
        let (r, held, name, state) = i.due_is key id at in
        let same : id ≡ r.delivery_id = sym (i.named id r held) in
        (
          r,
          record { held = subst (λ k. Holding p db.deliveries k r) same held; state = state },
          name,
          same,
        )

    -- What `NextDue` does on a non-empty index.
    first_due_lem :
        (now : Time) (key id : Text) (rest : List (Text × Text)) (r : Delivery)
        → IsPending db r
        → id ≡ r.delivery_id
        → first_due p db now ((key, id) ∷ rest)
          ≡ ok (if ltb now (due_timestamp key) then none else some r)
    unfolding first_due
    first_due_lem now key id rest r q same = ground (arith, q.held.stored, q.held.decoded, same)

    -- The first entry is before that of every pending delivery.
    before_pending :
        (key id : Text) (rest : List (Text × Text)) (r : Delivery)
        → entries db.due_index ≡ (key, id) ∷ rest
        → IsPending db r
        → (key ≡ delivery_due_key r) ⊎ (compare_text key (delivery_due_key r) ≡ Ordering.lt)
    before_pending key id rest r e q =
        first-le key (delivery_due_key r) id r.delivery_id rest (subst IsSorted e i.ordered)
          (subst (λ es. lookup (delivery_due_key r) es ≡ some r.delivery_id) e (indexed r q))

  -- What the index is asked: nothing pending, or a first delivery.
  data First (db : Db p) (now : Time) : Type 0 where
    nothing : ((r : Delivery) → ¬ IsPending db r) → next_due p db now ≡ ok none → First db now
    first :
        (r : Delivery)
        → IsPending db r
        → ((r' : Delivery)
            → IsPending db r'
            → (delivery_due_key r ≡ delivery_due_key r')
              ⊎ (compare_text (delivery_due_key r) (delivery_due_key r') ≡ Ordering.lt))
        → next_due p db now
          ≡ ok (if ltb now (due_timestamp (delivery_due_key r)) then none else some r)
        → First db now

  next_due-First : (db : Db p) (now : Time) → Indexed p db.deliveries db.due_index → First db now
  unfolding next_due lookup
  next_due-First db now i = split (entries db.due_index) refl
    where
      split : (es : List (Text × Text)) → entries db.due_index ≡ es → First db now
      split [] e =
          nothing
            (λ r q. cc (
              subst (λ es. lookup (delivery_due_key r) es ≡ some r.delivery_id) e
                (indexed db i r q)))
            (ap (first_due p db now) e)
      split ((key, id) ∷ rest) e =
          let (r, q, name, same) = first-IsPending db i key id rest e in
          first r q
            (λ r' q'.
              subst
                (λ k.
                  (k ≡ delivery_due_key r') ⊎ (compare_text k (delivery_due_key r') ≡ Ordering.lt))
                name (before_pending db i key id rest r' e q'))
            (ap (first_due p db now) e
              ∙ subst
                  (λ k.
                    first_due p db now ((key, id) ∷ rest)
                    ≡ ok (if ltb now (due_timestamp k) then none else some r))
                  name (first_due_lem db i now key id rest r q same))

  -- The order of two pending deliveries whose times lie in the ordered range.
  earlier :
      (r r' : Delivery)
      → InRange r.next_attempt_at
      → InRange r'.next_attempt_at
      → (delivery_due_key r ≡ delivery_due_key r')
        ⊎ (compare_text (delivery_due_key r) (delivery_due_key r') ≡ Ordering.lt)
      → r.next_attempt_at ≤ r'.next_attempt_at
  earlier r r' a b o = elim (Bool-cases (ltb r'.next_attempt_at r.next_attempt_at)) [
    | inl e ↦ absurd (
        contradiction o (
          compare-due_key_time r'.next_attempt_at r.next_attempt_at r'.sequence r.sequence
            r'.delivery_id r.delivery_id b a (ltb→lt _ _ e)))
    | inr e ↦ ltb-false→le _ _ e
  ]
    where
      contradiction :
          (delivery_due_key r ≡ delivery_due_key r')
            ⊎ (compare_text (delivery_due_key r) (delivery_due_key r') ≡ Ordering.lt)
          → compare_text (delivery_due_key r') (delivery_due_key r) ≡ Ordering.lt
          → ⊥
      contradiction (inl e) h = cc (
        subst (λ k. compare_text (delivery_due_key r') k ≡ Ordering.lt) e h,
        compare_text_refl (delivery_due_key r'),
      )
      contradiction (inr e) h = cc (compare_text-lt (delivery_due_key r) (delivery_due_key r') e)

  -- Every pending delivery has a due time that the index orders (from 1970 to 2262).
  abbrev pub AllInRange : Db p → Type 0
  AllInRange db = (r : Delivery) → IsPending db r → InRange r.next_attempt_at

  -- The answer of `NextDue`: a pending delivery that is due, with none before it, or, when no pending
  -- delivery is due, nothing.
  pub data NextDue (db : Db p) (now : Time) : Result (Option Delivery) → Type 0 where
    due :
        (r : Delivery)
        → IsPending db r
        → r.next_attempt_at ≤ now
        → ((r' : Delivery) → IsPending db r' → r.next_attempt_at ≤ r'.next_attempt_at)
        → NextDue db now (ok (some r))
    waiting : ((r : Delivery) → IsPending db r → now < r.next_attempt_at) → NextDue db now (ok none)

  timestamp :
      (r : Delivery)
      → InRange r.next_attempt_at
      → due_timestamp (delivery_due_key r) ≡ r.next_attempt_at
  timestamp r a =
      due_timestamp-due_key r.next_attempt_at r.sequence r.delivery_id
        (omega (arith, a.after_epoch)) a.before_2262

  -- On a database with an exact index and due times from 1970 to 2262, `NextDue` always answers: with
  -- a pending delivery that is due and that no pending delivery precedes, or with nothing if no
  -- pending delivery is due.
  pub next_due-NextDue :
      (db : Db p) (now : Time)
      → Indexed p db.deliveries db.due_index
      → AllInRange db
      → NextDue db now (next_due p db now)
  next_due-NextDue db now i a = answer (next_due-First db now i)
    where
      answer : First db now → NextDue db now (next_due p db now)
      answer (nothing n e) = subst (NextDue db now) (sym e) (waiting (λ r q. absurd (n r q)))
      answer (first r q before e) = elim (Bool-cases (ltb now r.next_attempt_at)) [
        | inl late ↦ subst (NextDue db now) (sym (e ∙ ground (arith, timestamp r (a r q)))) (
            waiting (λ r' q'.
              omega (arith, ltb→lt _ _ late, earlier r r' (a r q) (a r' q') (before r' q'))))
        | inr now_due ↦ subst (NextDue db now) (sym (e ∙ ground (arith, timestamp r (a r q)))) (
            due r q (ltb-false→le _ _ now_due)
              (λ r' q'. earlier r r' (a r q) (a r' q') (before r' q')))
      ]
