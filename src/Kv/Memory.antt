-- ===== src/Kv/Memory.antt =====
-- A database in memory that meets the laws: a function from keys to values.
use computing_api.Base.{
  Error, Option, Result, Str, ap, err, if◌then◌else◌, none, ok, panic, refl, some, str_eq, sym, ◌≡◌,
  ◌≢◌,
}
use computing_api.Kv.{Badger, Lookup, found, not_found, unreadable}
use computing_api.Kv.Laws.{BadgerLaws}

abbrev pub Table : Type 0
Table = Str → Option Str

abbrev pub lookup_of : Option Str → Lookup
lookup_of none = not_found
lookup_of (some v) = found v

abbrev pub finish : {A : Type 0} → Table → Result A × Table → Result A × Table
finish d (ok a, t) = (ok a, t)
finish d (r, t) = (r, d)

abbrev pub memory : Badger
memory = record {
  Db = Table;
  Txn = Table;
  open_db = λ path. ok (λ j. none);
  close_db = λ d. (ok tt, d);
  set_key = λ k v t. (ok tt, λ j. if str_eq k j then some v else t j);
  delete_key = λ k t. (ok tt, λ j. if str_eq k j then none else t j);
  get_key = λ k t. lookup_of (t k);
  update_txn = λ f d. finish d (f d);
  view_txn = λ f d. f d;
}

pub found_of : (o : Option Str) (v : Str) → lookup_of o ≡ found v → o ≡ some v
found_of none v h = cc
found_of (some w) v h = cc

pub not_found_of : (o : Option Str) → lookup_of o ≡ not_found → o ≡ none
not_found_of none h = refl
not_found_of (some w) h = cc

pub readable : (o : Option Str) (e : Error) → lookup_of o ≢ unreadable e
readable none e h = cc
readable (some v) e h = cc

pub finish-ok :
    (d d' : Table) (run : Result (Unit {0}) × Table)
    → finish d run ≡ (ok tt, d')
    → run ≡ (ok tt, d')
finish-ok d d' (ok tt, t) h = h
finish-ok d d' (err e, t) h = cc
finish-ok d d' (panic why, t) h = cc

pub finish-err :
    (d d' : Table) (e : Error) (run : Result (Unit {0}) × Table)
    → finish d run ≡ (err e, d')
    → d' ≡ d
finish-err d d' e (ok tt, t) h = cc
finish-err d d' e (err e', t) h = cc
finish-err d d' e (panic why, t) h = cc

abbrev pub memory_laws : BadgerLaws memory
memory_laws = record {
  contents = λ d. d;
  reading = λ t. t;
  set_key_law = λ k v t t' h j. ap (λ s. s.1 j) (sym h);
  delete_key_law = λ k t t' h j. ap (λ s. s.1 j) (sym h);
  found_law = λ k v t h. found_of (t k) v h;
  not_found_law = λ k t h. not_found_of (t k) h;
  unreadable_law = λ k e t h. absurd (readable (t k) e h);
  commit_law = λ f d d' h. (d, d', λ j. refl, finish-ok d d' (f d) h, λ j. refl);
  abort_law = λ f d d' e h. finish-err d d' e (f d) h;
  view_law = λ f d. (d, λ j. refl, refl);
}
