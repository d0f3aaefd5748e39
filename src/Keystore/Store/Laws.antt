-- ===== src/Keystore/Store/Laws.antt =====
-- What is put is got, what is there is kept, and what is deleted is gone.
use mathlib.Core.Path.{subst}
use computing_api.Base.{
  >>=-eq-ok, Exec, IsBytes, Result, Str, ap, arith, branch, branch-same, err, false, if◌then◌else◌,
  ignore, lift, lift->>=-eq-ok, ok, panic, pure, raise, reads->>=-eq-ok, refl, str_eq, str_eq_iff,
  str_eq_refl, sym, text, ◌++◌, ◌>>=◌, ◌>>◌, ◌∙◌, ◌∷◌, ◌≡◌, ◌≢◌,
}
use computing_api.Std.Hex.RoundTrip.{hex_decode-hex_encode}
use computing_api.Keystore.Passphrase.Laws.{SealingLaws, decrypt_key-encrypt_key}
use computing_api.Keystore.Files.{DirLaws, Files, IsName, file_entry, no_entry}
use computing_api.Keystore.Store.{
  Codec, KeyInfo, delete, get, import_key, join_path, put, secp256k1, sk_of, write_key_file,
  write_temporary_key_file,
}
use computing_api.Keystore.Passphrase.{
  decrypt_key, encrypt_key, standard_scrypt_n, standard_scrypt_p,
}

-- The JSON of a `KeyInfo` is read back.
pub record CodecLaws (codec : Codec) : Type 0 where
  pub sealing_laws : SealingLaws codec.sealing
  pub info_law :
      (ki : KeyInfo) (j : Str) → codec.marshal_info ki ≡ ok j → codec.unmarshal_info j ≡ ok ki

-- A secret key of bytes that is printed is imported as the same key.
import_key-sk_of :
    (ki : KeyInfo) → ki.type ≡ secp256k1 → IsBytes ki.secret_key → import_key (sk_of ki) ≡ ok ki
unfolding import_key sk_of
import_key-sk_of ki t h = rw (hex_decode-hex_encode ki.secret_key h) (ground arith)

module _ (fs : Files) where
  temporary_ok :
      (run : Result (Unit {0}) × fs.State) (name n : Str) (s' : fs.State)
      → branch run.0 (λ e. ignore (fs.remove name) >> raise e) (λ _. pure name) run.1 ≡ (ok n, s')
      → (run ≡ (ok tt, s')) × (n ≡ name)
  temporary_ok (ok tt, s) name n s' h = ((λ i. (ok tt, (h i).1)), cc)
  temporary_ok (err e, s) name n s' h =
      let (_, s1, _, failed) = >>=-eq-ok (ignore (fs.remove name)) (λ _. raise e) s h in cc
  temporary_ok (panic why, s) name n s' h = cc

  written_if_absent :
      (r : Result (Unit {0})) (write : Exec fs.State (Unit {0})) (s s' : fs.State)
      → r ≢ ok tt
      → branch r (λ _. write) (λ _. pure tt) s ≡ (ok tt, s')
      → write s ≡ (ok tt, s')
  written_if_absent (ok tt) write s s' n h = absurd (n refl)
  written_if_absent (err e) write s s' n h = h
  written_if_absent (panic why) write s s' n h = cc

  kept :
      (r : Result (Unit {0})) (write : Exec fs.State (Unit {0})) (s : fs.State)
      → r ≡ ok tt
      → (branch r (λ _. write) (λ _. pure tt) s).1 ≡ s
  kept (ok tt) write s e = refl
  kept (err x) write s e = absurd (cc)
  kept (panic why) write s e = refl

  module _ (codec : Codec) (path : Str) where
    put_stages :
        (salt iv name auth : Str) (ki : KeyInfo) (s s' : fs.State)
        → put fs codec path salt iv name auth ki s ≡ (ok tt, s')
        → (d : Str) × (j : Str) × (codec.marshal_info ki ≡ ok d)
          × (encrypt_key codec.sealing salt iv
                (record { address = name; secret_value = d })
                auth
                standard_scrypt_n
                standard_scrypt_p
              ≡ ok j)
          × (branch
                (fs.stat (join_path fs path name) s)
                (λ _. write_key_file fs (join_path fs path name) j)
                (λ _. pure tt)
                s
              ≡ (ok tt, s'))
    unfolding put
    put_stages salt iv name auth ki s s' h =
        let (d, coded, h1) = lift->>=-eq-ok (codec.marshal_info ki) _ s h in
        let (j, sealed, h2) =
          lift->>=-eq-ok
            (encrypt_key codec.sealing salt iv (record { address = name; secret_value = d }) auth
              standard_scrypt_n standard_scrypt_p)
            _ s h1 in
        (d, j, coded, sealed, h2)

    get_of :
        (name auth j d : Str) (ki : KeyInfo) (s : fs.State)
        → fs.read_file (join_path fs path name) s ≡ ok j
        → decrypt_key codec.sealing j auth ≡ ok (record { address = name; secret_value = d })
        → codec.unmarshal_info d ≡ ok ki
        → get fs codec path name auth s ≡ ok ki
    unfolding get
    get_of name auth j d ki s read opened decoded =
        rw (read, opened, str_eq_refl name, decoded) refl

    -- A name at whose path something is keeps it: a call changes nothing, whatever the password and
    -- the key of the call are, and whether it succeeds or not.
    pub put_over :
        (salt iv name auth : Str) (ki : KeyInfo) (s : fs.State)
        → fs.stat (join_path fs path name) s ≡ ok tt
        → (put fs codec path salt iv name auth ki s).1 ≡ s
    unfolding put
    put_over salt iv name auth ki s there =
        let p = join_path fs path name in
        let sealed : Str → Result Str = λ d.
          encrypt_key codec.sealing salt iv (record { address = name; secret_value = d }) auth
            standard_scrypt_n standard_scrypt_p in
        let write : Str → Exec fs.State (Unit {0}) =
          λ j s1. branch (fs.stat p s1) (λ _. write_key_file fs p j) (λ _. pure tt) s1 in
        branch-same (codec.marshal_info ki) (λ d. lift (sealed d) >>= write) s
          λ d.
            branch-same (sealed d) write s λ j. kept (fs.stat p s) (write_key_file fs p j) s there

-- The store in a directory of which the laws hold.
module _ (fs : Files) (path : Str) (dir : DirLaws fs path) where
  open dir use {
    IsEntry, entry, name_law, read_law, stat_law, mkdir_law, temp_law, write_law, rename_law,
    remove_law,
  }

  pub join_path-IsEntry : (n : Str) → IsName n → IsEntry (join_path fs path n)
  unfolding join_path
  join_path-IsEntry n h = let (rel, is_entry) = name_law n h in rw rel is_entry

  write_temporary_key_file_lem :
      (p v n : Str) (s s' : fs.State)
      → IsEntry p
      → write_temporary_key_file fs p v s ≡ (ok n, s')
      → IsEntry n
        × (entry s n ≡ no_entry)
        × (entry s' n ≡ file_entry v)
        × ((j : Str) → IsEntry j → str_eq n j ≡ false → entry s' j ≡ entry s j)
  unfolding write_temporary_key_file
  write_temporary_key_file_lem p v n s s' at h =
      let (_, s1, made, h1) = >>=-eq-ok (fs.mkdir_all (fs.dir_of p)) _ s h in
      let (name, s2, opened, h2) =
        >>=-eq-ok (fs.temp_file (fs.dir_of p) (b'.' ∷ fs.base_of p ++ text ".tmp")) _ s1 h1 in
      let (wrote, same) = temporary_ok fs (fs.write name v s2) name n s' h2 in
      let (new_at, fresh, empty, others) = temp_law p _ name s1 s2 at opened in
      let at_n : IsEntry n = subst IsEntry (sym same) new_at in
      (
        at_n,
        ap (entry s) same ∙ sym (mkdir_law p s s1 at made name new_at) ∙ fresh,
        write_law name v s2 s' new_at empty wrote n at_n
            ∙ ap (λ b. if b then file_entry v else entry s2 n)
                (ap (str_eq name) same ∙ str_eq_refl name),
        λ j at_j apart.
            write_law name v s2 s' new_at empty wrote j at_j
            ∙ ap (λ b. if b then file_entry v else entry s2 j)
                (ap (λ m. str_eq m j) (sym same) ∙ apart)
            ∙ others j at_j (ap (λ m. str_eq m j) (sym same) ∙ apart)
            ∙ mkdir_law p s s1 at made j at_j,
      )

  -- A key file that is written holds its content, and no other entry is changed.
  entry-write_key_file :
      (p v : Str) (s s' : fs.State)
      → IsEntry p
      → write_key_file fs p v s ≡ (ok tt, s')
      → (j : Str) → IsEntry j
      → entry s' j ≡ (if str_eq p j then file_entry v else entry s j)
  unfolding write_key_file
  entry-write_key_file p v s s' at h j at_j =
      let (name, s1, temp, ren) = >>=-eq-ok (write_temporary_key_file fs p v) _ s h in
      let (new_at, fresh, holds, others) = write_temporary_key_file_lem p v name s s1 at temp in
      ground (
        arith,
        rename_law name p s1 s' new_at at ren j at_j,
        fresh,
        holds,
        others j at_j,
        str_eq_iff name j,
        ap (entry s) {x = name} {y = j},
      )

  module _ (codec : Codec) (codecs : CodecLaws codec) where
    -- Let a key be put with no error in a directory of which the laws hold, under a name of an entry
    -- at whose path nothing is, with a salt and an initial vector of bytes. The store gives the key
    -- back under the name and the password, and no other entry of the directory is changed.
    pub get-put :
        (salt iv name auth : Str) (ki : KeyInfo) (s s' : fs.State)
        → IsName name
        → IsBytes salt
        → IsBytes iv
        → entry s (join_path fs path name) ≡ no_entry
        → put fs codec path salt iv name auth ki s ≡ (ok tt, s')
        → (get fs codec path name auth s' ≡ ok ki)
          × ((j : Str)
              → IsEntry j
              → str_eq (join_path fs path name) j ≡ false
              → entry s' j ≡ entry s j)
    get-put salt iv name auth ki s s' named hs hi fresh h =
        let p = join_path fs path name in
        let at = join_path-IsEntry name named in
        let (d, j, coded, sealed, h1) = put_stages fs codec path salt iv name auth ki s s' h in
        let absent = λ (e : fs.stat p s ≡ ok tt). (stat_law p s at).0 e fresh in
        let wrote = written_if_absent fs (fs.stat p s) (write_key_file fs p j) s s' absent h1 in
        let after = entry-write_key_file p j s s' at wrote in
        (
          get_of fs codec path name auth j d ki s'
              ((read_law p j s' at).1
                (after p at ∙ ap (λ b. if b then file_entry j else entry s p) (str_eq_refl p)))
              (decrypt_key-encrypt_key codec.sealing codecs.sealing_laws salt iv
                (record { address = name; secret_value = d }) auth standard_scrypt_n
                standard_scrypt_p j named.ascii (omega arith, omega arith)
                (omega arith, omega arith) hs hi sealed)
              (codecs.info_law ki d coded),
          λ i at_i apart. after i at_i ∙ ap (λ b. if b then file_entry j else entry s i) apart,
        )

    -- A deletion that succeeds was given the password of the key, and removes its file and no other
    -- entry.
    pub delete_removes :
        (name auth : Str) (s s' : fs.State)
        → IsName name
        → delete fs codec path name auth s ≡ (ok tt, s')
        → (ki : KeyInfo) × (get fs codec path name auth s ≡ ok ki)
          × ((j : Str)
              → IsEntry j
              → entry s' j ≡ (if str_eq (join_path fs path name) j then no_entry else entry s j))
    unfolding delete
    delete_removes name auth s s' named h =
        let (ki, opened, h1) = reads->>=-eq-ok (get fs codec path name auth) _ s h in
        (ki, opened, remove_law (join_path fs path name) s s' (join_path-IsEntry name named) h1)
