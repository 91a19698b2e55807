-- ===== src/Outbox/Store.antt =====
-- store.go: the handle on the database and its transactions.
use loramapr_receiver.Base.{
  Bool, true, false, Option, none, some, Result, ok, err, Error, outbox_closed,
}
use loramapr_receiver.Outbox.Types.{Config}
use loramapr_receiver.Outbox.Platform.{Platform}
use loramapr_receiver.Outbox.Db.{Db}

abbrev pub is_some {ℓ} : {A : Type ℓ} → Option A → Bool
is_some none = false
is_some (some a) = true

module _ (p : Platform) where
  -- `db` is `none` after `Close`. `maintenance_error` is the code of the last failed pruning.
  pub record Store : Type 0 where
    pub db : Option (Db p)
    pub cfg : Config
    pub maintenance_error : Option Error

  -- `bolt.DB.Update`: a transaction that fails is rolled back.
  abbrev pub commit : {A : Type 0} → Store → Result (Db p × A) → Store × Result A
  commit s (ok (db, a)) = (record s { db = some db }, ok a)
  commit s (err e) = (s, err e)

  abbrev pub update_in :
      {A : Type 0} → Option (Db p) → Store → (Db p → Result (Db p × A)) → Store × Result A
  update_in none s fn = (s, err outbox_closed)
  update_in (some db) s fn = commit s (fn db)

  -- `Store.update`
  unfoldable pub update : {A : Type 0} → Store → (Db p → Result (Db p × A)) → Store × Result A
  update s fn = update_in s.db s fn

  -- `Store.view`
  unfoldable pub view : {A : Type 0} → Store → (Db p → Result A) → Result A
  view s fn = elim s.db [ none ↦ err outbox_closed | some db ↦ fn db ]

  -- `Store.Close`
  unfoldable pub close : Store → Store
  close s = record s { db = none }
