-- ===== src/Keystore/Files.antt =====
-- The files that the key store works on: what keystore/keystore.go calls of `os`, `ioutil` and
-- `path/filepath`.
use computing_api.Base.{
  All, Bool, Exec, IsAscii, List, Option, Result, Str, [], false, if◌then◌else◌, none, ok, str_eq,
  ◌↔◌, ◌∷◌, ◌≡◌, ◌≢◌,
}

pub record Files : Type 1 where
  pub State : Type 0
  pub is_abs : Str → Bool
  pub join : Str → Str → Str
  pub dir_of : Str → Str
  pub base_of : Str → Str
  pub mkdir_all : Str → Exec State (Unit {0})
  pub stat : Str → State → Result (Unit {0})
  pub read_file : Str → State → Result Str
  -- `TempFile` in a directory with a pattern; the name of the new file.
  pub temp_file : Str → Str → Exec State Str
  pub write : Str → Str → Exec State (Unit {0})
  pub rename : Str → Str → Exec State (Unit {0})
  pub remove : Str → Exec State (Unit {0})
  pub read_dir : Str → State → Result (List Str)

-- What the program relies on of a file system. `content` is what the readable regular file at a path
-- holds, for a cleaned path with no links in it, and nothing for any other path.
pub record FilesLaws (fs : Files) : Type 0 where
  pub content : fs.State → Str → Option Str
  pub stat_law : (p : Str) (s : fs.State) → content s p ≢ none → fs.stat p s ≡ ok tt
  pub mkdir_law :
      (d : Str) (s s' : fs.State)
      → fs.mkdir_all d s ≡ (ok tt, s')
      → (j : Str) → content s' j ≡ content s j

-- A name of an entry in a directory: ASCII, not empty, no slash, and not `.` or `..`.
pub record IsName (name : Str) : Type 0 where
  pub ascii : IsAscii name
  pub no_slash : All (λ c. c ≢ b'/') name
  pub not_empty : name ≢ []
  pub not_here : name ≢ b'.' ∷ []
  pub not_parent : name ≢ b'.' ∷ b'.' ∷ []

-- What is at a path: nothing that can be looked at, a regular file that can be read, or something
-- else, such as a directory.
pub data Entry : Type 0 where
  no_entry other_entry : Entry
  file_entry : Str → Entry

-- What the program relies on of one directory, another one than the working directory, that has only
-- files and directories, no file under two names and no links, in which nothing else makes changes
-- and letters are told apart by case. `IsEntry` are the paths that `Join` makes of the directory and
-- a name: `Join` cleans its result, but has nothing to clean in a name. A path of an entry can be
-- read where it is a file, and looked at where it is there. The directory of such a path is made with
-- its entries as they are, a temporary file in it is a new entry that is empty, where its writing
-- starts, and the calls change the entries that they name.
pub record DirLaws (fs : Files) (path : Str) : Type 1 where
  pub IsEntry : Str → Type 0
  pub entry : fs.State → Str → Entry
  pub name_law : (n : Str) → IsName n → (fs.is_abs n ≡ false) × IsEntry (fs.join path n)
  pub apart_law : (a b : Str) → IsName a → IsName b → fs.join path a ≡ fs.join path b → a ≡ b
  pub read_law :
      (p v : Str) (s : fs.State)
      → IsEntry p
      → (fs.read_file p s ≡ ok v) ↔ (entry s p ≡ file_entry v)
  pub stat_law :
      (p : Str) (s : fs.State) → IsEntry p → (fs.stat p s ≡ ok tt) ↔ (entry s p ≢ no_entry)
  pub mkdir_law :
      (p : Str) (s s' : fs.State)
      → IsEntry p
      → fs.mkdir_all (fs.dir_of p) s ≡ (ok tt, s')
      → (j : Str) → IsEntry j
      → entry s' j ≡ entry s j
  pub temp_law :
      (p pat n : Str) (s s' : fs.State)
      → IsEntry p
      → fs.temp_file (fs.dir_of p) pat s ≡ (ok n, s')
      → IsEntry n
        × (entry s n ≡ no_entry)
        × (entry s' n ≡ file_entry [])
        × ((j : Str) → IsEntry j → str_eq n j ≡ false → entry s' j ≡ entry s j)
  pub write_law :
      (n v : Str) (s s' : fs.State)
      → IsEntry n
      → entry s n ≡ file_entry []
      → fs.write n v s ≡ (ok tt, s')
      → (j : Str) → IsEntry j
      → entry s' j ≡ (if str_eq n j then file_entry v else entry s j)
  pub rename_law :
      (n p : Str) (s s' : fs.State)
      → IsEntry n
      → IsEntry p
      → fs.rename n p s ≡ (ok tt, s')
      → (j : Str) → IsEntry j
      → entry s' j ≡ (if str_eq p j then entry s n else if str_eq n j then no_entry else entry s j)
  pub remove_law :
      (p : Str) (s s' : fs.State)
      → IsEntry p
      → fs.remove p s ≡ (ok tt, s')
      → (j : Str) → IsEntry j
      → entry s' j ≡ (if str_eq p j then no_entry else entry s j)
