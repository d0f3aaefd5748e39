-- ===== src/Kv/Laws.antt =====
-- What the database operations do to the contents of the database.
use computing_api.Base.{
  >>=-eq-ok, Bool, Error, Exec, List, Option, Result, Str, [], ap, arith, err, false, if◌then◌else◌,
  none, ok, refl, some, str_eq, sym, ◌||◌, ◌↔◌, ◌∙◌, ◌∷◌, ◌≡◌, ◌≢◌,
}
use computing_api.Kv.{
  Badger, Lookup, delete_all, failed, found, get, has, is_found, multi_delete, not_found, put,
  unreadable, value_of,
}

-- What the program relies on of badger: a transaction reads its own writes; `Update` runs its
-- function on a view of the database and commits what was written, or changes nothing.
pub record BadgerLaws (b : Badger) : Type 1 where
  pub contents : b.Db → Str → Option Str
  pub reading : b.Txn → Str → Option Str
  pub set_key_law :
      (k v : Str) (t t' : b.Txn)
      → b.set_key k v t ≡ (ok tt, t')
      → (j : Str) → reading t' j ≡ (if str_eq k j then some v else reading t j)
  pub delete_key_law :
      (k : Str) (t t' : b.Txn)
      → b.delete_key k t ≡ (ok tt, t')
      → (j : Str) → reading t' j ≡ (if str_eq k j then none else reading t j)
  pub found_law : (k v : Str) (t : b.Txn) → b.get_key k t ≡ found v → reading t k ≡ some v
  pub not_found_law : (k : Str) (t : b.Txn) → b.get_key k t ≡ not_found → reading t k ≡ none
  pub unreadable_law :
      (k : Str) (e : Error) (t : b.Txn) → b.get_key k t ≡ unreadable e → reading t k ≢ none
  pub commit_law :
      (f : Exec b.Txn (Unit {0})) (d d' : b.Db)
      → b.update_txn f d ≡ (ok tt, d')
      → (t : b.Txn) × (t' : b.Txn) × ((j : Str) → reading t j ≡ contents d j)
        × (f t ≡ (ok tt, t'))
        × ((j : Str) → contents d' j ≡ reading t' j)
  pub abort_law :
      (f : Exec b.Txn (Unit {0})) (d d' : b.Db) (e : Error)
      → b.update_txn f d ≡ (err e, d')
      → d' ≡ d
  pub view_law :
      {A : Type 0} (f : b.Txn → Result A) (d : b.Db)
      → (t : b.Txn) × ((j : Str) → reading t j ≡ contents d j) × (b.view_txn f d ≡ f t)

abbrev pub mem : Str → List Str → Bool
mem j [] = false
mem j (k ∷ keys) = str_eq k j || mem j keys

module _ (b : Badger) (laws : BadgerLaws b) where
  open laws use {
    contents, reading, set_key_law, delete_key_law, found_law, not_found_law, unreadable_law,
    commit_law, abort_law, view_law,
  }

  -- A `Put` that succeeds changes the value of its key and of no other key.
  pub contents-put :
      (key value : Str) (d d' : b.Db)
      → put b key value d ≡ (ok tt, d')
      → (j : Str) → contents d' j ≡ (if str_eq key j then some value else contents d j)
  unfolding put
  contents-put key value d d' h j =
      let (t, t', before, run, after) = commit_law _ d d' h in
      rw (after j, ← before j) (set_key_law key value t t' run j)

  delete_all-reading :
      (keys : List Str) (t t' : b.Txn)
      → delete_all b keys t ≡ (ok tt, t')
      → (j : Str) → reading t' j ≡ (if mem j keys then none else reading t j)
  unfolding delete_all
  delete_all-reading [] t t' h j = ap (λ s. reading s j) (cc)
  delete_all-reading (k ∷ keys) t t' h j =
      let (_, t1, first, rest) = >>=-eq-ok (b.delete_key k) (λ _. delete_all b keys) t h in
      ground (arith, delete_all-reading keys t1 t' rest j, delete_key_law k t t1 first j)

  -- A `MultiDelete` that succeeds removes exactly the listed keys.
  pub contents-multi_delete :
      (keys : List Str) (d d' : b.Db)
      → multi_delete b keys d ≡ (ok tt, d')
      → (j : Str) → contents d' j ≡ (if mem j keys then none else contents d j)
  unfolding multi_delete
  contents-multi_delete keys d d' h j =
      let (t, t', before, run, after) = commit_law _ d d' h in
      rw (after j, ← before j) (delete_all-reading keys t t' run j)

  value_of_sound :
      (key value : Str) (t : b.Txn)
      → value_of (b.get_key key t) ≡ ok value
      → reading t key ≡ some value
  value_of_sound key value t h = ground (arith, found_law key value t)

  -- What `Get` returns is what the database holds.
  pub get_sound :
      (key value : Str) (d : b.Db) → get b key d ≡ ok value → contents d key ≡ some value
  unfolding get
  get_sound key value d h =
      let (t, before, run) = view_law _ d in
      sym (before key) ∙ value_of_sound key value t (sym run ∙ h)

  is_found_cases :
      (key : Str) (there : Bool) (t : b.Txn) (l : Lookup)
      → b.get_key key t ≡ l
      → is_found l ≡ ok there
      → (there ≡ false) ↔ (reading t key ≡ none)
  is_found_cases key there t (found v) e h = ground (arith, found_law key v t)
  is_found_cases key there t not_found e h = ground (arith, not_found_law key t)
  is_found_cases key there t (unreadable x) e h =
      (λ no_item. cc, λ nothing. absurd (unreadable_law key x t e nothing))
  is_found_cases key there t (failed x) e h = cc

  -- `Has` answers no exactly when the database holds nothing at the key.
  pub has_sound :
      (key : Str) (there : Bool) (d : b.Db)
      → has b key d ≡ ok there
      → (there ≡ false) ↔ (contents d key ≡ none)
  unfolding has
  has_sound key there d h =
      let (t, before, run) = view_law _ d in
      rw (← before key) (is_found_cases key there t (b.get_key key t) refl (sym run ∙ h))
