-- ===== src/Kv.antt =====
-- lib/kv/badger.go: the database of the gateway, over badger's transactions.
pub mod Laws
pub mod Runs
pub mod Memory
use computing_api.Base.{
  Bool, Error, Exec, List, Result, Str, [], bind, crash, err, false, foreign, lift, ok, pure, reads,
  true, ◌>>=◌, ◌>>◌, ◌∷◌,
}

-- What `txn.Get` and the reading of the item's value return; an item may be there and its value
-- not be readable.
pub data Lookup : Type 0 where
  found : Str → Lookup
  not_found : Lookup
  unreadable : Error → Lookup
  failed : Error → Lookup

-- The badger operations that the program calls.
pub record Badger : Type 1 where
  pub Db : Type 0
  pub Txn : Type 0
  pub open_db : Str → Result Db
  pub close_db : Exec Db (Unit {0})
  pub set_key : Str → Str → Exec Txn (Unit {0})
  pub delete_key : Str → Exec Txn (Unit {0})
  pub get_key : Str → Txn → Lookup
  pub update_txn : Exec Txn (Unit {0}) → Exec Db (Unit {0})
  pub view_txn : {A : Type 0} → (Txn → Result A) → Db → Result A

abbrev pub value_of : Lookup → Result Str
value_of (found v) = ok v
value_of not_found = err (foreign "Key not found")
value_of (unreadable e) = err e
value_of (failed e) = err e

abbrev pub is_found : Lookup → Result Bool
is_found (found v) = ok true
is_found not_found = ok false
is_found (unreadable e) = ok true
is_found (failed e) = err e

module _ (b : Badger) where
  unfoldable new_database : Str → Result b.Db
  new_database path = bind (b.open_db path) ok

  unfoldable close : Exec b.Db (Unit {0})
  close = b.close_db

  -- The loop of `MultiPut`; `values[i]` with no such value is a panic.
  unfoldable pub put_all : List Str → List Str → Exec b.Txn (Unit {0})
  put_all [] values = pure tt
  put_all (k ∷ keys) [] = crash "index out of range"
  put_all (k ∷ keys) (v ∷ values) = b.set_key k v >> put_all keys values

  unfoldable pub multi_put : List Str → List Str → Exec b.Db (Unit {0})
  unfolding put_all
  multi_put keys values = b.update_txn (put_all keys values)

  unfoldable pub put : Str → Str → Exec b.Db (Unit {0})
  put key value = b.update_txn (b.set_key key value)

  unfoldable pub delete : Str → Exec b.Db (Unit {0})
  delete key = b.update_txn (b.delete_key key)

  -- The loop of `MultiDelete`.
  unfoldable pub delete_all : List Str → Exec b.Txn (Unit {0})
  delete_all [] = pure tt
  delete_all (k ∷ keys) = b.delete_key k >> delete_all keys

  unfoldable pub multi_delete : List Str → Exec b.Db (Unit {0})
  unfolding delete_all
  multi_delete keys = b.update_txn (delete_all keys)

  unfoldable pub get : Str → b.Db → Result Str
  get key = b.view_txn (λ txn. value_of (b.get_key key txn))

  unfoldable pub has : Str → b.Db → Result Bool
  has key = b.view_txn (λ txn. is_found (b.get_key key txn))

  -- `Update`: read, change by `update_func`, write, in one transaction.
  unfoldable pub update : Str → (Str → Result Str) → Exec b.Db (Unit {0})
  update key update_func = b.update_txn do
    old ← reads (λ txn. value_of (b.get_key key txn))
    value ← lift (update_func old)
    b.set_key key value
