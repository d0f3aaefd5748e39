-- ===== src/Cmd/Wallet/Laws.antt =====
-- What importing a key leaves behind.
use computing_api.Base.{
  >>=-eq-ok, Str, [], ap, guard-eq-ok, ignore, ignore-state, lift, none, ok, ok-injective, pure,
  str_eq, sym, ◌>>◌, ◌∙◌, ◌≡◌, ◌≢◌,
}
use computing_api.Keystore.Files.{Files, FilesLaws}
use computing_api.Keystore.Store.{
  Codec, KeyInfo, address_of, import_key, join_path, new_key_store, put,
}
use computing_api.Keystore.Store.Laws.{CodecLaws, put_over}
use computing_api.Config.{Toml, write_conf}
use computing_api.Cmd.Wallet.{Home, import_cmd, on_files, on_saved, save_wallet, store_key}

module _ (fs : Files) (files : FilesLaws fs) (toml : Toml) (codec : Codec)
    (codecs : CodecLaws codec) (address_of_secret : Str → Str) (repo_path : Str) where
  open files use {content}

  new_key_store_same :
      (path a : Str) (s s' : fs.State)
      → new_key_store fs path s ≡ (ok a, s')
      → (j : Str) → content s' j ≡ content s j
  unfolding new_key_store
  new_key_store_same path a s s' h j =
      let (_, s1, made, end) = >>=-eq-ok (fs.mkdir_all path) (λ _. pure path) s h in
      ap (λ x. content x.1 j) (sym end) ∙ files.mkdir_law path s s1 made j

  -- A key that is stored under an address that has a file, with no error.
  store_key_over :
      (salt iv pw : Str) (ki : KeyInfo) (h h' : Home fs toml)
      → content h.files (join_path fs repo_path (address_of address_of_secret ki)) ≢ none
      → store_key fs toml codec address_of_secret repo_path salt iv pw ki h ≡ (ok tt, h')
      → (h'.conf.wallet ≡ address_of address_of_secret ki) × (h'.files ≡ h.files)
  unfolding store_key save_wallet
  store_key_over salt iv pw ki h h' there done =
      let address = address_of address_of_secret ki in
      let puts = on_files {fs = fs} {toml = toml} (put fs codec repo_path salt iv address pw ki) in
      let (_, h1, tried, saved) =
        >>=-eq-ok (ignore puts) (λ _. save_wallet fs toml codec address_of_secret repo_path address)
          h done in
      let named : Home fs toml = record h1 { conf = record h1.conf { wallet = address } } in
      let saves = on_saved {fs = fs} {toml = toml} (write_conf toml named.conf) in
      let put_in : h1 ≡ (puts h).1 = (λ i. (sym tried i).1) ∙ ignore-state puts h in
      let saved_in : h' ≡ (saves named).1 = (λ i. (sym saved i).1) ∙ ignore-state saves named in
      (
        (λ i. (saved_in i).conf.wallet),
        (λ i. (saved_in i).files)
            ∙ (λ i. (put_in i).files)
            ∙ put_over fs codec repo_path salt iv address pw ki h.files
                (files.stat_law _ h.files there),
      )

  -- After an import that ends with no error the configuration names the address of the key. If the
  -- address had a key file before, then all files are as they were: the key is not stored under the
  -- password of the call, and no error says so.
  pub import_cmd_over :
      (salt iv sk pw : Str) (ki : KeyInfo) (h h' : Home fs toml)
      → import_key sk ≡ ok ki
      → content h.files (join_path fs repo_path (address_of address_of_secret ki)) ≢ none
      → import_cmd fs toml codec address_of_secret repo_path salt iv sk pw h ≡ (ok tt, h')
      → (h'.conf.wallet ≡ address_of address_of_secret ki)
        × ((j : Str) → content h'.files j ≡ content h.files j)
  unfolding import_cmd
  import_cmd_over salt iv sk pw ki h h' imported there done =
      let (_, done1) = guard-eq-ok (str_eq sk []) _ _ h done in
      let (_, done2) = guard-eq-ok (str_eq pw []) _ _ h done1 in
      let opens = on_files {fs = fs} {toml = toml} (new_key_store fs repo_path) in
      let (ki', h1, read, stored) =
        >>=-eq-ok (opens >> lift (import_key sk))
          (store_key fs toml codec address_of_secret repo_path salt iv pw) h done2 in
      let (a, h2, opened, imports) = >>=-eq-ok opens (λ _. lift (import_key sk)) h read in
      let same =
        new_key_store_same repo_path a h.files h2.files (λ i. ((opened i).0, (opened i).1.files)) in
      let key : ki' ≡ ki = ok-injective ((λ i. (sym imports i).0) ∙ imported) in
      let at : h1 ≡ h2 = λ i. (sym imports i).1 in
      let (named, left) =
        store_key_over salt iv pw ki h2 h' (λ e. there (sym (same _) ∙ e))
          (ap
              (λ (p : KeyInfo × Home fs toml).
                store_key fs toml codec address_of_secret repo_path salt iv pw p.0 p.1)
              (λ i. (sym key i, sym at i))
            ∙ stored) in
      (named, λ j. ap (λ t. content t j) left ∙ same j)
