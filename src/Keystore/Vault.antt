-- ===== src/Keystore/Vault.antt =====
-- What the store promises to those who call it: a map from names to a password and a key, in which
-- a name that is taken keeps what it has.
use mathlib.Core.Path.{subst}
use computing_api.Base.{
  Bool-cases, Exec, IsBytes, List, Option, Option-cases, Str, [], ap, false, if◌then◌else◌, inl,
  inr, none, ok, refl, some, str_eq, str_eq_iff, str_eq_refl, sym, ◌∙◌, ◌∷◌, ◌≡◌,
}
use computing_api.Keystore.Files.{DirLaws, Files, IsName, no_entry}
use computing_api.Keystore.Store.{Codec, KeyInfo, delete, get, join_path, put}
use computing_api.Keystore.Store.Reading.{get-stat, get_same}
use computing_api.Keystore.Store.Laws.{
  CodecLaws, delete_removes, get-put, join_path-IsEntry, put_over,
}

abbrev pub Vault : Type 0
Vault = Str → Option (Str × KeyInfo)

pub data Call : Type 0 where
  puts : Str → Str → Str → Str → KeyInfo → Call
  deletes : Str → Str → Call

abbrev pub or_else : {A : Type 0} → Option A → A → Option A
or_else none a = some a
or_else (some b) a = some b

-- What a call that succeeds does to the map.
abbrev pub change : Call → Vault → Vault
change (puts salt iv name auth ki) v n = if str_eq name n then or_else (v name) (auth, ki) else v n
change (deletes name auth) v n = if str_eq name n then none else v n

abbrev pub replay : List Call → Vault → Vault
replay [] v = v
replay (c ∷ cs) v = replay cs (change c v)

module _ (fs : Files) (path : Str) (dir : DirLaws fs path) (codec : Codec)
    (codecs : CodecLaws codec) where
  open dir use {IsEntry, entry, name_law, apart_law}

  -- A call as it is made: by the name of an entry, and what is random is bytes.
  abbrev pub IsProper : Call → Type 0
  IsProper (puts salt iv name auth ki) = IsName name × IsBytes salt × IsBytes iv
  IsProper (deletes name auth) = IsName name

  abbrev pub call : Call → Exec fs.State (Unit {0})
  call (puts salt iv name auth ki) = put fs codec path salt iv name auth ki
  call (deletes name auth) = delete fs codec path name auth

  -- A sequence of proper calls that all succeed.
  pub data Runs : List Call → fs.State → fs.State → Type 0 where
    done : {s : fs.State} → Runs [] s s
    step :
        {c : Call} {cs : List Call} {s t u : fs.State}
        → IsProper c
        → call c s ≡ (ok tt, t)
        → Runs cs t u
        → Runs (c ∷ cs) s u

  -- The directory holds what the map says: nothing for a name that it lacks, and the key under the
  -- password for one that it has.
  pub record Holds (v : Vault) (s : fs.State) : Type 0 where
    pub absent : (n : Str) → IsName n → v n ≡ none → entry s (join_path fs path n) ≡ no_entry
    pub present :
        (n auth : Str) (ki : KeyInfo)
        → IsName n
        → v n ≡ some (auth, ki)
        → get fs codec path n auth s ≡ ok ki

  path_apart :
      (a b : Str)
      → IsName a
      → IsName b
      → str_eq a b ≡ false
      → str_eq (join_path fs path a) (join_path fs path b) ≡ false
  unfolding join_path
  path_apart a b ha hb n = elim (Bool-cases (str_eq (join_path fs path a) (join_path fs path b))) [
    | inl same ↦
        let (rel_a, _) = name_law a ha in
        let (rel_b, _) = name_law b hb in
        let joined : fs.join path a ≡ fs.join path b =
          (str_eq_iff (fs.join path a) (fs.join path b)).0 (rw (rel_a, rel_b) at same) in
        absurd (cc (apart_law a b ha hb joined, str_eq_refl a))
    | inr differ ↦ differ
  ]

  -- Where only the file of one name has changed, what the map says of the others still holds.
  Holds-change :
      (v w : Vault) (name : Str) (s s' : fs.State)
      → IsName name
      → ((n : Str) → str_eq name n ≡ false → w n ≡ v n)
      → ((j : Str) → IsEntry j → str_eq (join_path fs path name) j ≡ false → entry s' j ≡ entry s j)
      → (w name ≡ none → entry s' (join_path fs path name) ≡ no_entry)
      → ((auth : Str) (ki : KeyInfo)
          → w name ≡ some (auth, ki)
          → get fs codec path name auth s' ≡ ok ki)
      → Holds v s
      → Holds w s'
  Holds-change v w name s s' rel others files_same gone got h = record {
    absent = λ n hn e. elim (Bool-cases (str_eq name n)) [
      | inl same ↦
          let eq = (str_eq_iff name n).0 same in
          subst (λ m. entry s' (join_path fs path m) ≡ no_entry) eq (gone (ap w eq ∙ e))
      | inr differ ↦
          files_same (join_path fs path n) (join_path-IsEntry fs path dir n hn)
            (path_apart name n rel hn differ)
          ∙ h.absent n hn (sym (others n differ) ∙ e)
    ];
    present = λ n auth ki hn e. elim (Bool-cases (str_eq name n)) [
      | inl same ↦
          let eq = (str_eq_iff name n).0 same in
          subst (λ m. get fs codec path m auth s' ≡ ok ki) eq (got auth ki (ap w eq ∙ e))
      | inr differ ↦
          get_same fs path dir codec n auth ki s s' hn
            (files_same (join_path fs path n) (join_path-IsEntry fs path dir n hn)
              (path_apart name n rel hn differ))
            (h.present n auth ki hn (sym (others n differ) ∙ e))
    ];
  }

  put_others :
      (salt iv name auth n : Str) (ki : KeyInfo) (v : Vault)
      → str_eq name n ≡ false
      → change (puts salt iv name auth ki) v n ≡ v n
  put_others salt iv name auth n ki v e = rw e refl

  put_self :
      (salt iv name auth : Str) (ki : KeyInfo) (v : Vault)
      → change (puts salt iv name auth ki) v name ≡ or_else (v name) (auth, ki)
  put_self salt iv name auth ki v = rw (str_eq_refl name) refl

  some_pair :
      (a b : Str) (k l : KeyInfo) (o : Option (Str × KeyInfo))
      → o ≡ some (a, k)
      → o ≡ some (b, l)
      → (a ≡ b) × (k ≡ l)
  some_pair a b k l o e e' = (cc, cc)

  Holds-put_new :
      (salt iv name auth : Str) (ki : KeyInfo) (v : Vault) (s s' : fs.State)
      → IsProper (puts salt iv name auth ki)
      → v name ≡ none
      → put fs codec path salt iv name auth ki s ≡ (ok tt, s')
      → Holds v s
      → Holds (change (puts salt iv name auth ki) v) s'
  Holds-put_new salt iv name auth ki v s s' (rel, hs, hi) free h held =
      let (opens, others) =
        get-put fs path dir codec codecs salt iv name auth ki s s' rel hs hi
          (held.absent name rel free) h in
      let now_has : change (puts salt iv name auth ki) v name ≡ some (auth, ki) =
        put_self salt iv name auth ki v ∙ ap (λ o. or_else o (auth, ki)) free in
      Holds-change v (change (puts salt iv name auth ki) v) name s s' rel
        (λ n e. put_others salt iv name auth n ki v e) others (λ e. cc)
        (λ a k e.
          let (ea, ek) = some_pair auth a ki k _ now_has e in
          subst (λ k'. get fs codec path name a s' ≡ ok k') ek
            (subst (λ a'. get fs codec path name a' s' ≡ ok ki) ea opens))
        held

  Holds-put_taken :
      (salt iv name auth a : Str) (ki k : KeyInfo) (v : Vault) (s s' : fs.State)
      → IsName name
      → v name ≡ some (a, k)
      → put fs codec path salt iv name auth ki s ≡ (ok tt, s')
      → Holds v s
      → Holds (change (puts salt iv name auth ki) v) s'
  Holds-put_taken salt iv name auth a ki k v s s' rel taken h held =
      let same : s' ≡ s =
        (λ i. (sym h i).1)
        ∙ put_over fs codec path salt iv name auth ki s
            (get-stat fs path dir codec name a k s rel (held.present name a k rel taken)) in
      let still : change (puts salt iv name auth ki) v name ≡ v name =
        put_self salt iv name auth ki v ∙ ap (λ o. or_else o (auth, ki)) taken ∙ sym taken in
      Holds-change v (change (puts salt iv name auth ki) v) name s s' rel
        (λ n e. put_others salt iv name auth n ki v e) (λ j at e. ap (λ t. entry t j) same)
        (λ e. cc)
        (λ b l e.
          subst (λ t. get fs codec path name b t ≡ ok l) (sym same)
            (held.present name b l rel (sym still ∙ e)))
        held

  Holds-delete :
      (name auth : Str) (v : Vault) (s s' : fs.State)
      → IsName name
      → delete fs codec path name auth s ≡ (ok tt, s')
      → Holds v s
      → Holds (change (deletes name auth) v) s'
  Holds-delete name auth v s s' rel h held =
      let (ki, opened, after) = delete_removes fs path dir codec codecs name auth s s' rel h in
      let p = join_path fs path name in
      let lost : change (deletes name auth) v name ≡ none = rw (str_eq_refl name) refl in
      Holds-change v (change (deletes name auth) v) name s s' rel (λ n e. rw e refl)
        (λ j at e. after j at ∙ ap (λ b. if b then no_entry else entry s j) e)
        (λ e.
          after p (join_path-IsEntry fs path dir name rel)
          ∙ ap (λ b. if b then no_entry else entry s p) (str_eq_refl p))
        (λ a k e. cc) held

  Holds-call :
      (c : Call) (v : Vault) (s s' : fs.State)
      → IsProper c
      → call c s ≡ (ok tt, s')
      → Holds v s
      → Holds (change c v) s'
  Holds-call (puts salt iv name auth ki) v s s' proper h held = elim (Option-cases (v name)) [
    | inl free ↦ Holds-put_new salt iv name auth ki v s s' proper free h held
    | inr (taken, e) ↦ Holds-put_taken salt iv name auth taken.0 ki taken.1 v s s' proper.0 e h held
  ]
  Holds-call (deletes name auth) v s s' rel h held = Holds-delete name auth v s s' rel h held

  -- The store implements the map, in a directory of which the laws hold: where the directory holds
  -- what a map says, it holds after any sequence of calls that all succeed, each by the name of an
  -- entry, what the map says after the same calls.
  pub Runs-Holds :
      {cs : List Call} {v : Vault} {s s' : fs.State}
      → Runs cs s s'
      → Holds v s
      → Holds (replay cs v) s'
  Runs-Holds done held = held
  Runs-Holds (step {c} {cs} {s} {t} {u} proper h rest) held =
      Runs-Holds rest (Holds-call c _ s t proper h held)
