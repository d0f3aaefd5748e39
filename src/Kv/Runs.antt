-- ===== src/Kv/Runs.antt =====
-- The database as a map from keys to values, over any sequence of its calls.
use computing_api.Base.{
  >>=-eq-ok, Bool, Error, Exec, List, Option, Result, Str, [], ap, err, false, if◌then◌else◌, lift,
  lift->>=-eq-ok, none, ok, ok-injective, reads, reads->>=-eq-ok, refl, some, str_eq, sym, true,
  ◌>>=◌, ◌∙◌, ◌∷◌, ◌≡◌,
}
use computing_api.Kv.{
  Badger, Lookup, delete, failed, found, multi_delete, multi_put, not_found, put, put_all,
  unreadable, update, value_of,
}
use computing_api.Kv.Laws.{BadgerLaws, contents-multi_delete, contents-put, mem}

abbrev pub Map : Type 0
Map = Str → Option Str

abbrev pub set : Str → Option Str → Map → Map
set key o m j = if str_eq key j then o else m j

-- Later values of a key win; a key with no value is no key.
abbrev pub set_all : List Str → List Str → Map → Map
set_all [] values m = m
set_all (k ∷ keys) [] m = m
set_all (k ∷ keys) (v ∷ values) m = set_all keys values (set k (some v) m)

abbrev pub remove_all : List Str → Map → Map
remove_all keys m j = if mem j keys then none else m j

pub data Write : Type 0 where
  puts : (key value : Str) → Write
  multi_puts : (keys values : List Str) → Write
  deletes : (key : Str) → Write
  multi_deletes : (keys : List Str) → Write
  updates : (key : Str) → (Str → Result Str) → Write

abbrev set_if_ok : Str → Result Str → Map → Map
set_if_ok key (ok v) m = set key (some v) m
set_if_ok key _ m = m

abbrev update_of : Str → (Str → Result Str) → Option Str → Map → Map
update_of key f none m = m
update_of key f (some old) m = set_if_ok key (f old) m

-- What a call that succeeds does to a map.
abbrev pub change : Write → Map → Map
change (puts key value) m = set key (some value) m
change (multi_puts keys values) m = set_all keys values m
change (deletes key) m = set key none m
change (multi_deletes keys) m = remove_all keys m
change (updates key f) m = update_of key f (m key) m

module _ (b : Badger) where
  unfoldable pub perform : Write → Exec b.Db (Unit {0})
  perform (puts key value) = put b key value
  perform (multi_puts keys values) = multi_put b keys values
  perform (deletes key) = delete b key
  perform (multi_deletes keys) = multi_delete b keys
  perform (updates key f) = update b key f

  module _ (laws : BadgerLaws b) where
    open laws use {contents, reading, set_key_law, delete_key_law, found_law, commit_law, abort_law}

    put_all-reading :
        (keys values : List Str) (t t' : b.Txn)
        → put_all b keys values t ≡ (ok tt, t')
        → reading t' ≡ set_all keys values (reading t)
    unfolding put_all
    put_all-reading [] values t t' h = ap reading (cc)
    put_all-reading (k ∷ keys) [] t t' h = absurd (cc)
    put_all-reading (k ∷ keys) (v ∷ values) t t' h =
        let (_, t1, first, rest) = >>=-eq-ok (b.set_key k v) (λ _. put_all b keys values) t h in
        put_all-reading keys values t1 t' rest
        ∙ ap (set_all keys values) (λ i j. set_key_law k v t t1 first j i)

    -- What a transaction does to what it reads is done to the database.
    committed :
        (f : Exec b.Txn (Unit {0})) (g : Map → Map) (d d' : b.Db)
        → ((t t' : b.Txn) → f t ≡ (ok tt, t') → reading t' ≡ g (reading t))
        → b.update_txn f d ≡ (ok tt, d')
        → contents d' ≡ g (contents d)
    committed f g d d' does h =
        let (t, t', before, run, after) = commit_law f d d' h in
        (λ i j. after j i) ∙ does t t' run ∙ ap g (λ i j. before j i)

    value_of_found : (l : Lookup) (v : Str) → value_of l ≡ ok v → l ≡ found v
    value_of_found (found w) v h = ap found (ok-injective h)
    value_of_found not_found v h = absurd (cc)
    value_of_found (unreadable e) v h = absurd (cc)
    value_of_found (failed e) v h = absurd (cc)

    update-reading :
        (key : Str) (f : Str → Result Str) (t t' : b.Txn)
        → (reads (λ txn. value_of (b.get_key key txn)) >>= λ old.
              lift (f old) >>= λ value. b.set_key key value)
            t
          ≡ (ok tt, t')
        → reading t' ≡ update_of key f (reading t key) (reading t)
    update-reading key f t t' h =
        let (old, got, h1) = reads->>=-eq-ok (λ txn. value_of (b.get_key key txn)) _ t h in
        let (value, made, h2) = lift->>=-eq-ok (f old) _ t h1 in
        let there = found_law key old t (value_of_found (b.get_key key t) old got) in
        (λ i j. set_key_law key value t t' h2 j i)
        ∙ sym (
            ap (λ o. update_of key f o (reading t)) there
            ∙ ap (λ r. set_if_ok key r (reading t)) made)

    perform-change :
        (c : Write) (d d' : b.Db) → perform c d ≡ (ok tt, d') → contents d' ≡ change c (contents d)
    unfolding perform multi_put delete update
    perform-change (puts key value) d d' h = λ i j. contents-put b laws key value d d' h j i
    perform-change (multi_puts keys values) d d' h =
        committed (put_all b keys values) (set_all keys values) d d' (put_all-reading keys values) h
    perform-change (deletes key) d d' h =
        committed (b.delete_key key) (set key none) d d'
          (λ t t' run. λ i j. delete_key_law key t t' run j i) h
    perform-change (multi_deletes keys) d d' h = λ i j. contents-multi_delete b laws keys d d' h j i
    perform-change (updates key f) d d' h =
        committed _ (λ m. update_of key f (m key) m) d d' (update-reading key f) h

    perform-failed : (c : Write) (d d' : b.Db) (e : Error) → perform c d ≡ (err e, d') → d' ≡ d
    unfolding perform put multi_put delete multi_delete update
    perform-failed (puts key value) d d' e h = abort_law _ d d' e h
    perform-failed (multi_puts keys values) d d' e h = abort_law _ d d' e h
    perform-failed (deletes key) d d' e h = abort_law _ d d' e h
    perform-failed (multi_deletes keys) d d' e h = abort_law _ d d' e h
    perform-failed (updates key f) d d' e h = abort_law _ d d' e h

  -- Calls one after another, each with whether it succeeded; a panic ends them.
  pub data Runs : List (Write × Bool) → b.Db → b.Db → Type 0 where
    unchanged : {d : b.Db} → Runs [] d d
    succeeded :
        {c : Write} {calls : List (Write × Bool)} {d d1 d2 : b.Db}
        → perform c d ≡ (ok tt, d1)
        → Runs calls d1 d2
        → Runs ((c, true) ∷ calls) d d2
    failing :
        {c : Write} {calls : List (Write × Bool)} {d d1 d2 : b.Db} (e : Error)
        → perform c d ≡ (err e, d1)
        → Runs calls d1 d2
        → Runs ((c, false) ∷ calls) d d2

-- What calls do to a map, where those that failed do nothing.
abbrev pub replay : List (Write × Bool) → Map → Map
replay [] m = m
replay ((c, true) ∷ calls) m = replay calls (change c m)
replay ((c, false) ∷ calls) m = replay calls m

-- The database is a map from keys to values, over any sequence of `Put`, `MultiPut`, `Delete`,
-- `MultiDelete` and `Update`, errors included: it holds what the calls that succeeded did to the map
-- that it was, a call for many keys all of its keys, and a call that failed has changed nothing.
pub Runs-replay :
    (b : Badger) (laws : BadgerLaws b) (calls : List (Write × Bool)) (d d' : b.Db)
    → Runs b calls d d'
    → laws.contents d' ≡ replay calls (laws.contents d)
Runs-replay b laws _ d _ unchanged = refl
Runs-replay b laws _ d d' (succeeded {c} {calls} {d1 = d1} done rest) =
    Runs-replay b laws calls d1 d' rest ∙ ap (replay calls) (perform-change b laws c d d1 done)
Runs-replay b laws _ d d' (failing {c} {calls} {d1 = d1} e done rest) =
    Runs-replay b laws calls d1 d' rest
    ∙ ap (λ x. replay calls (laws.contents x)) (perform-failed b laws c d d1 e done)
