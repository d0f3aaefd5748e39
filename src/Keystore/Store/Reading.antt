-- ===== src/Keystore/Store/Reading.antt =====
-- What reading a key depends on.
use computing_api.Base.{Str, bind-eq-ok, ok, ◌∙◌, ◌≡◌}
use computing_api.Keystore.Files.{DirLaws, Files, IsName}
use computing_api.Keystore.Store.{Codec, KeyInfo, get, join_path}
use computing_api.Keystore.Store.Laws.{join_path-IsEntry}

module _ (fs : Files) (path : Str) (dir : DirLaws fs path) (codec : Codec) where
  open dir use {IsEntry, entry, read_law}

  read_same :
      (p v : Str) (s s' : fs.State)
      → IsEntry p
      → entry s' p ≡ entry s p
      → fs.read_file p s ≡ ok v
      → fs.read_file p s' ≡ ok v
  read_same p v s s' at same read = (read_law p v s' at).1 (same ∙ (read_law p v s at).0 read)

  -- What `get` returns depends on the file of the name only.
  pub get_same :
      (name auth : Str) (ki : KeyInfo) (s s' : fs.State)
      → IsName name
      → entry s' (join_path fs path name) ≡ entry s (join_path fs path name)
      → get fs codec path name auth s ≡ ok ki
      → get fs codec path name auth s' ≡ ok ki
  unfolding get
  get_same name auth ki s s' named same h =
      let (j, read, rest) = bind-eq-ok (fs.read_file (join_path fs path name) s) _ h in
      rw
        (read_same (join_path fs path name) j s s' (join_path-IsEntry fs path dir name named) same
          read)
        rest

  pub get-stat :
      (name auth : Str) (ki : KeyInfo) (s : fs.State)
      → IsName name
      → get fs codec path name auth s ≡ ok ki
      → fs.stat (join_path fs path name) s ≡ ok tt
  unfolding get
  get-stat name auth ki s named h =
      let p = join_path fs path name in
      let at = join_path-IsEntry fs path dir name named in
      let (j, read, rest) = bind-eq-ok (fs.read_file p s) _ h in
      (dir.stat_law p s at).1 (λ gone. cc ((read_law p j s at).0 read))
