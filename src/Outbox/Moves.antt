-- ===== src/Outbox/Moves.antt =====
-- The loop of the bulk operations: what it keeps and what it does to each delivery.
use loramapr_receiver.Base.{
  false, Option, none, some, List, [], ◌∷◌, ◌≡◌, sym, subst, Text, compare_text-eq,
  compare_text_refl, ok, arith, All, >>=-eq-ok, text_eq_refl,
}
use loramapr_receiver.Outbox.Types.{Delivery, Config, Signed}
use loramapr_receiver.Outbox.Platform.{Platform}
use loramapr_receiver.Outbox.Db.{Db, exceeds}
use loramapr_receiver.Outbox.Quarantine.{Matched, move_one, move_all}
use loramapr_receiver.Outbox.Accounts.{Accounts, Accounts-move, get-delete, get-put}
use loramapr_receiver.Outbox.Effects.{Moved, move_one-eq-ok}
use loramapr_receiver.Outbox.Bulk.{Lacks, Distinct, IsMatch}

module _ (p : Platform) where
  open p use {Raw, raw_size, Bucket, get, put, delete, marshal_delivery}

  -- The rest of the database is left alone.
  pub record SameRest (db db' : Db p) : Type 0 where
    pub sequence : db'.sequence ≡ db.sequence
    pub total_count : db'.total_count ≡ db.total_count
    pub schema_version : db'.schema_version ≡ db.schema_version
    pub dispatch_pause : db'.dispatch_pause ≡ db.dispatch_pause
    pub installation_rotation : db'.installation_rotation ≡ db.installation_rotation
    pub reconciled_binding : db'.reconciled_binding ≡ db.reconciled_binding

  module _ (cfg : Config) where
    pub move_all_step :
        (m : Matched p) (ms : List (Matched p)) (st : Db p × Signed) {st' : Db p × Signed}
        → move_all p cfg (m ∷ ms) st ≡ ok st'
        → (mid : Db p × Signed) × Moved p cfg m st mid × (move_all p cfg ms mid ≡ ok st')
    unfolding move_all
    move_all_step m ms st h =
        let (mid, first, rest) = >>=-eq-ok (move_one p cfg m st) (move_all p cfg ms) h in
        (mid, move_one-eq-ok p cfg m st mid first, rest)

    pub move_all_nil :
        (st : Db p × Signed) {st' : Db p × Signed} → move_all p cfg [] st ≡ ok st' → st ≡ st'
    unfolding move_all
    move_all_nil st h = ground arith

    -- Moving one match leaves the others in place.
    pub IsMatch-moved :
        (select : Delivery → Option Delivery) (d : Bucket Raw) (k : Text) (ms : List (Matched p))
        → Lacks p k ms
        → All (IsMatch p select d) ms
        → All (IsMatch p select (delete d k)) ms
    IsMatch-moved select d k [] l h = tt
    IsMatch-moved select d k (m ∷ ms) l h = (
      (
        rw (get-delete p d k m.key)
            (ground (arith, h.0.0, compare_text-eq k m.key, compare_text_refl k, l.0)),
        h.0.1,
        h.0.2,
      ),
      IsMatch-moved select d k ms l.1 h.1,
    )

    pub move_all-SameRest :
        (ms : List (Matched p)) (st : Db p × Signed) {st' : Db p × Signed}
        → move_all p cfg ms st ≡ ok st'
        → SameRest st.0 st'.0
    unfolding move_all
    move_all-SameRest [] st h = ground arith
    move_all-SameRest (m ∷ ms) st h =
        let (mid, first, rest) = move_all_step m ms st h in
        ground (arith, first.result, move_all-SameRest ms mid rest)

    abbrev AccountsOf : Signed → Db p × Signed → Type 0
    AccountsOf count st = Accounts p st.0.deliveries st.0.quarantine count st.1

    pub move_all-Accounts :
        (select : Delivery → Option Delivery) (ms : List (Matched p)) (st : Db p × Signed)
        {st' : Db p × Signed} {count : Signed}
        → AccountsOf count st
        → Distinct p ms
        → All (IsMatch p select st.0.deliveries) ms
        → move_all p cfg ms st ≡ ok st'
        → AccountsOf count st'
    unfolding move_all
    move_all-Accounts select [] st {count = c} a u f h = subst (AccountsOf c) (move_all_nil st h) a
    move_all-Accounts select (m ∷ ms) st {count = c} a u f h =
        let (mid, first, rest) = move_all_step m ms st h in
        let a' = Accounts-move p a m.key first.encoded m.raw f.0.0 in
        let f' = IsMatch-moved select st.0.deliveries m.key ms u.0 f.1 in
        move_all-Accounts select ms mid (subst (AccountsOf c) (sym first.result) a') u.1
          (subst (λ (x : Db p × Signed). All (IsMatch p select x.0.deliveries) ms)
            (sym first.result) f')
          rest

    -- The loop stops as soon as the bytes pass the bound.
    pub move_all_fits :
        (ms : List (Matched p)) (st : Db p × Signed) {st' : Db p × Signed}
        → exceeds st.1 cfg.max_bytes ≡ false
        → move_all p cfg ms st ≡ ok st'
        → exceeds st'.1 cfg.max_bytes ≡ false
    unfolding move_all
    move_all_fits [] st b h = ground arith
    move_all_fits (m ∷ ms) st b h =
        let (mid, first, rest) = move_all_step m ms st h in move_all_fits ms mid first.fits rest

    -- What is under a key that no match has stays there.
    pub move_all_other :
        (k : Text) (ms : List (Matched p)) (st : Db p × Signed) {st' : Db p × Signed}
        → Lacks p k ms
        → move_all p cfg ms st ≡ ok st'
        → (get st'.0.deliveries k ≡ get st.0.deliveries k)
          × (get st'.0.quarantine k ≡ get st.0.quarantine k)
    unfolding move_all
    move_all_other k [] st l h = ground arith
    move_all_other k (m ∷ ms) st l h =
        let (mid, first, rest) = move_all_step m ms st h in
        let (d, q) = move_all_other k ms mid l.1 rest in
        ground (
          arith,
          first.result,
          get-delete p st.0.deliveries m.key k,
          get-put p st.0.quarantine m.key k first.encoded,
        )

    -- A match leaves the queue and is in quarantine as what it became.
    abbrev pub IsMoved : Db p → Matched p → Type 0
    IsMoved db m =
        (get db.deliveries m.key ≡ none)
        × (encoded : Raw) × (marshal_delivery m.new ≡ ok encoded)
        × (get db.quarantine m.key ≡ some encoded)

    pub move_all-IsMoved :
        (ms : List (Matched p)) (st : Db p × Signed) {st' : Db p × Signed}
        → Distinct p ms
        → move_all p cfg ms st ≡ ok st'
        → All (IsMoved st'.0) ms
    move_all-IsMoved [] st u h = tt
    move_all-IsMoved (m ∷ ms) st u h =
        let (mid, first, rest) = move_all_step m ms st h in
        let (d, q) = move_all_other m.key ms mid u.0 rest in
        (
          (
            ground (
              arith,
              first.result,
              d,
              get-delete p st.0.deliveries m.key m.key,
              text_eq_refl m.key,
            ),
            first.encoded,
            first.marshalled,
            ground (
              arith,
              first.result,
              q,
              get-put p st.0.quarantine m.key m.key first.encoded,
              text_eq_refl m.key,
            ),
          ),
          move_all-IsMoved ms mid u.1 rest,
        )
