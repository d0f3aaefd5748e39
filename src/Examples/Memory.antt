-- ===== src/Examples/Memory.antt =====
-- Files in memory, and a sealing of keys that any password opens alike, with what the program relies
-- on of both.
use computing_api.Base.{
  Bool, Exec, List, Option, Result, Str, [], ap, arith, drop-append, err, false, foreign,
  if◌then◌else◌, map, none, ok, ok-injective, refl, some, str_eq, str_eq_refl, sym, true, ◌++◌,
  ◌==◌, ◌↔◌, ◌∙◌, ◌∷◌, ◌≡◌, ◌≢◌,
}
use computing_api.Keystore.Files.{DirLaws, Entry, Files, FilesLaws, IsName, file_entry, no_entry}

-- The newest entry of a name says what the file holds, or that it is gone.
abbrev pub Disk : Type 0
Disk = List (Str × Option Str)

abbrev pub held : Disk → Str → Option Str
held [] p = none
held ((n, v) ∷ d) p = let rest = held d p in if str_eq n p then v else rest

abbrev pub read_held : Option Str → Result Str
read_held none = err (foreign "no such file")
read_held (some v) = ok v

abbrev pub stat_held : Option Str → Result (Unit {0})
stat_held none = err (foreign "no such file")
stat_held (some v) = ok tt

abbrev pub open_temp : Option Str → Str → Exec Disk Str
open_temp none name d = (ok name, (name, some []) ∷ d)
open_temp (some v) name d = (err (foreign "file exists"), d)

abbrev pub is_root : Str → Bool
is_root [] = false
is_root (c ∷ s) = c == b'/'

abbrev pub disk : Files
disk = record {
  State = Disk;
  is_abs = is_root;
  join = λ dir name. dir ++ (b'/' ∷ name);
  dir_of = λ file. [];
  base_of = λ file. file;
  mkdir_all = λ dir d. (ok tt, d);
  stat = λ p d. stat_held (held d p);
  read_file = λ p d. read_held (held d p);
  temp_file = λ dir pattern d. open_temp (held d pattern) pattern d;
  write = λ n v d. (ok tt, (n, some v) ∷ d);
  rename = λ n p d. (ok tt, (p, held d n) ∷ (n, none) ∷ d);
  remove = λ p d. (ok tt, (p, none) ∷ d);
  read_dir = λ dir d. ok (map (λ (e : Str × Option Str). e.0) d);
}

pub stat_held_there : (o : Option Str) → o ≢ none → stat_held o ≡ ok tt
stat_held_there none h = absurd (h refl)
stat_held_there (some v) h = refl

opened_fresh :
    (o : Option Str) (pattern n : Str) (d d' : Disk)
    → held d pattern ≡ o
    → open_temp o pattern d ≡ (ok n, d')
    → (held d n ≡ none)
      × (held d' n ≡ some [])
      × ((j : Str) → str_eq n j ≡ false → held d' j ≡ held d j)
opened_fresh none pattern n d d' e h =
    let same : pattern ≡ n = ok-injective (λ i. (h i).0) in
    (
      ap (held d) (sym same) ∙ e,
      ap (λ x. held x n) (λ i. (sym h i).1)
          ∙ ap (λ b. if b then some [] else held d n) (ap (λ m. str_eq m n) same ∙ str_eq_refl n),
      λ j apart.
          ap (λ x. held x j) (λ i. (sym h i).1)
          ∙ ap (λ b. if b then some [] else held d j) (ap (λ m. str_eq m j) same ∙ apart),
    )
opened_fresh (some v) pattern n d d' e h = absurd (cc)

abbrev pub disk_laws : FilesLaws disk
disk_laws = record {
  content = held;
  stat_law = λ p d. stat_held_there (held d p);
  mkdir_law = λ dir d d' h j. ap (λ x. held x j) (λ i. (sym h i).1);
}

-- What a disk holds at a path; every path is one of an entry here.
abbrev pub entry_of : Option Str → Entry
entry_of none = no_entry
entry_of (some v) = file_entry v

pub entry_of-if :
    (b : Bool) (o o' : Option Str)
    → entry_of (if b then o else o') ≡ (if b then entry_of o else entry_of o')
entry_of-if true o o' = refl
entry_of-if false o o' = refl

pub read_held_iff : (o : Option Str) (v : Str) → (read_held o ≡ ok v) ↔ (entry_of o ≡ file_entry v)
read_held_iff none v = (λ h. absurd (cc), λ h. absurd (cc))
read_held_iff (some w) v = (λ h. cc, λ h. cc)

pub stat_held_iff : (o : Option Str) → (stat_held o ≡ ok tt) ↔ (entry_of o ≢ no_entry)
stat_held_iff none = (λ h. absurd (cc), λ h. absurd (h refl))
stat_held_iff (some v) = (λ h e. cc, λ h. refl)

pub name_of-disk : (n : Str) → IsName n → is_root n ≡ false
name_of-disk [] h = refl
name_of-disk (c ∷ s) h = let apart = h.no_slash.0 in ground arith

pub opened_entry :
    (pattern n : Str) (d d' : Disk)
    → open_temp (held d pattern) pattern d ≡ (ok n, d')
    → (entry_of (held d n) ≡ no_entry)
      × (entry_of (held d' n) ≡ file_entry [])
      × ((j : Str) → str_eq n j ≡ false → entry_of (held d' j) ≡ entry_of (held d j))
opened_entry pattern n d d' h =
    let (fresh, empty, others) = opened_fresh (held d pattern) pattern n d d' refl h in
    (ap entry_of fresh, ap entry_of empty, λ j apart. ap entry_of (others j apart))

abbrev pub disk_dir : (dir : Str) → DirLaws disk dir
disk_dir dir = record {
  IsEntry = λ p. Unit;
  entry = λ d p. entry_of (held d p);
  name_law = λ n h. (name_of-disk n h, tt);
  apart_law = λ a b ha hb same. cc (drop-append dir (b'/' ∷ a), drop-append dir (b'/' ∷ b));
  read_law = λ p v d at. read_held_iff (held d p) v;
  stat_law = λ p d at. stat_held_iff (held d p);
  mkdir_law = λ p d d' at h j at_j. ap (λ x. entry_of (held x j)) (λ i. (sym h i).1);
  temp_law = λ p pattern n d d' at h.
      let (fresh, empty, others) = opened_entry pattern n d d' h in
      (tt, fresh, empty, λ j at_j apart. others j apart);
  write_law = λ n v d d' at empty h j at_j.
      ap (λ x. entry_of (held x j)) (λ i. (sym h i).1)
      ∙ entry_of-if (str_eq n j) (some v) (held d j);
  rename_law = λ n p d d' at at' h j at_j.
      ap (λ x. entry_of (held x j)) (λ i. (sym h i).1)
      ∙ entry_of-if (str_eq p j) (held d n) (if str_eq n j then none else held d j)
      ∙ ap (λ x. if str_eq p j then entry_of (held d n) else x)
          (entry_of-if (str_eq n j) none (held d j));
  remove_law = λ p d d' at h j at_j.
      ap (λ x. entry_of (held x j)) (λ i. (sym h i).1) ∙ entry_of-if (str_eq p j) none (held d j);
}
