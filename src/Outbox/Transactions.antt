-- ===== src/Outbox/Transactions.antt =====
-- store.go: what a transaction run by `update` has done if it succeeded.
use loramapr_receiver.Base.{Option, none, some, ◌≡◌, refl, Result, ok, err, arith}
use loramapr_receiver.Outbox.Platform.{Platform}
use loramapr_receiver.Outbox.Db.{Db}
use loramapr_receiver.Outbox.Store.{Store, update, update_in, commit}

module _ (p : Platform) where
  -- What a transaction that succeeded has read and left.
  pub record Done {A : Type 0} (fn : Db p → Result (Db p × A)) (s s' : Store p) (a : A)
      : Type 0 where
    pub before : Db p
    pub after : Db p
    pub opened : s.db ≡ some before
    pub ran : fn before ≡ ok (after, a)
    pub left : s'.db ≡ some after

  commit-eq-ok :
      {A : Type 0} (s s' : Store p) (a : A) (r : Result (Db p × A))
      → commit p s r ≡ (s', ok a)
      → (after : Db p) × (r ≡ ok (after, a)) × (s'.db ≡ some after)
  commit-eq-ok s s' a (ok (db, a')) h = (db, ground arith, ground arith)
  commit-eq-ok s s' a (err e) h = absurd (ground arith)

  update_in-Done :
      {A : Type 0} (fn : Db p → Result (Db p × A)) (s s' : Store p) (a : A) (o : Option (Db p))
      → s.db ≡ o
      → update_in p o s fn ≡ (s', ok a)
      → Done fn s s' a
  update_in-Done fn s s' a none e h = absurd (ground arith)
  update_in-Done fn s s' a (some db) e h =
      let (after, ran, left) = commit-eq-ok s s' a (fn db) h in
      record { before = db; after = after; opened = e; ran = ran; left = left }

  pub update-Done :
      {A : Type 0} (fn : Db p → Result (Db p × A)) (s s' : Store p) (a : A)
      → update p s fn ≡ (s', ok a)
      → Done fn s s' a
  unfolding update
  update-Done fn s s' a h = update_in-Done fn s s' a s.db refl h
