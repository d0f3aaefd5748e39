-- ===== src/Docker/Build/Sent.antt =====
-- What docker is sent where some of the files cannot be read.
use mathlib.Core.List.{append-nil, append_assoc}
use computing_api.Base.{
  Bool, Bool-cases, Error, Exec, List, Option, Result, Str, [], ap, branch, err, false, foreign,
  inl, inr, length, lift, ltb, none, ok, panic, raise, refl, some, sym, take, true, ℕ, ◌++◌, ◌-◌,
  ◌>>=◌, ◌∙◌, ◌∷◌, ◌≡◌, ◌≢◌, ◌⊎◌,
}
use computing_api.Std.Tar.{Block, Writer, bytes, empty_writer, header, write, write_header}
use computing_api.Docker.Build.{
  Entries, Tree, add_dir, add_file, build_image, copy, dir, end, ended_with, entry, file, missing,
  rel_name, rel_path, unreadable, walk, walk_entries,
}
use computing_api.Docker.Images.{Engine, Stream, print_out}

-- The paths that a tar stream has.
abbrev pub names : List Block → List Str
names [] = []
names (header name is_dir size ∷ blocks) = name ∷ names blocks
names (bytes content ∷ blocks) = names blocks

-- The paths of a tree, a directory before what is in it.
unfoldable mutual
  pub paths : Str → Tree → List Str
  paths rel (missing e) = rel_name rel ∷ []
  paths rel (unreadable e) = rel_name rel ∷ []
  paths rel (dir entries) = rel_name rel ∷ entry_paths rel entries
  paths rel (file info opened) = rel_name rel ∷ []

  pub entry_paths : Str → Entries → List Str
  entry_paths rel end = []
  entry_paths rel (entry name t entries) = paths (rel_path rel name) t ++ entry_paths rel entries

names-append : (a b : List Block) → names (a ++ b) ≡ names a ++ names b
names-append [] b = refl
names-append (header name is_dir size ∷ a) b = ap (λ l. name ∷ l) (names-append a b)
names-append (bytes content ∷ a) b = names-append a b

-- A call adds the wanted paths to what is written, all of them or, where it fails, the first ones.
abbrev Adds : List Str → Writer → Result (Unit {0}) × Writer → Type 0
Adds wanted w (r, w') =
    (rest : List Str) × (names w'.blocks ++ rest ≡ names w.blocks ++ wanted)
    × (r ≡ ok tt → rest ≡ [])

longer :
    (a b rest first second : List Str)
    → a ++ rest ≡ b ++ first
    → a ++ (rest ++ second) ≡ b ++ (first ++ second)
longer a b rest first second e =
    sym (append_assoc a rest second) ∙ ap (λ l. l ++ second) e ∙ append_assoc b first second

from_whole :
    (a b rest first second : List Str)
    → a ++ rest ≡ b ++ first
    → rest ≡ []
    → a ++ second ≡ b ++ (first ++ second)
from_whole a b rest first second e none_left =
    ap (λ l. a ++ (l ++ second)) (sym none_left) ∙ longer a b rest first second e

then-Adds :
    (first second : List Str) (w : Writer) (r : Result (Unit {0})) (w1 : Writer)
    (next : Exec Writer (Unit {0}))
    → Adds first w (r, w1)
    → ((v : Writer) → Adds second v (next v))
    → Adds (first ++ second) w (branch r raise (λ _. next) w1)
then-Adds first second w (ok u) w1 next (rest, e, whole) h =
    let (rest', e', whole') = h w1 in
    (rest', e' ∙ from_whole _ _ rest first second e (whole refl), whole')
then-Adds first second w (err x) w1 next (rest, e, whole) h =
    (rest ++ second, longer _ _ rest first second e, λ bad. absurd cc)
then-Adds first second w (panic x) w1 next (rest, e, whole) h =
    (rest ++ second, longer _ _ rest first second e, λ bad. absurd cc)

failed-Adds : (wanted : List Str) (w : Writer) (e : Error) → Adds wanted w (err e, w)
failed-Adds wanted w e = (wanted, refl, λ bad. absurd cc)

-- A header is written whole or not at all.
write_header-Adds :
    (name : Str) (is_dir : Bool) (size : ℕ) (w : Writer)
    → Adds (name ∷ []) w (write_header name is_dir size w)
unfolding write_header
write_header-Adds name is_dir size w = elim (Bool-cases (ltb 0 w.remaining)) [
  | inl e ↦ rw e (failed-Adds (name ∷ []) w (foreign "missed writing"))
  | inr e ↦
      rw e ([], append-nil _ ∙ names-append w.blocks (header name is_dir size ∷ []), λ _. refl)
]

more_bytes :
    (w : Writer) (content : Str) (r : Result (Unit {0})) (remaining : ℕ)
    → Adds [] w (r, record { blocks = w.blocks ++ bytes content ∷ []; remaining = remaining })
more_bytes w content r remaining =
    ([], ap (λ l. l ++ []) (names-append w.blocks (bytes content ∷ []) ∙ append-nil _), λ _. refl)

write-Adds : (content : Str) (w : Writer) → Adds [] w (write content w)
unfolding write
write-Adds content w = elim (Bool-cases (ltb w.remaining (length content))) [
  | inl e ↦ rw e (more_bytes w (take w.remaining content) (err (foreign "write too long")) 0)
  | inr e ↦ rw e (more_bytes w content (ok tt) (w.remaining - length content))
]

ended-Adds : (failed : Option Error) (w : Writer) → Adds [] w (ended_with failed w)
ended-Adds none w = ([], refl, λ _. refl)
ended-Adds (some e) w = failed-Adds [] w e

opened-Adds : (opened : Result Stream) (w : Writer) → Adds [] w (branch opened raise copy w)
unfolding copy
opened-Adds (ok rd) w =
    then-Adds [] [] w (write rd.content w).0 (write rd.content w).1 (ended_with rd.failed)
      (write-Adds rd.content w) (ended-Adds rd.failed)
opened-Adds (err e) w = failed-Adds [] w e
opened-Adds (panic why) w = ([], refl, λ _. refl)

add_file-Adds :
    (rel : Str) (info : Result ℕ) (opened : Result Stream) (w : Writer)
    → Adds (rel_name rel ∷ []) w (add_file rel info opened w)
unfolding add_file
add_file-Adds rel (ok size) opened w =
    then-Adds (rel_name rel ∷ []) [] w (write_header (rel_name rel) false size w).0
      (write_header (rel_name rel) false size w).1 (lift opened >>= copy)
      (write_header-Adds (rel_name rel) false size w) (opened-Adds opened)
add_file-Adds rel (err e) opened w = failed-Adds (rel_name rel ∷ []) w e
add_file-Adds rel (panic why) opened w = (rel_name rel ∷ [], refl, λ bad. absurd cc)

mutual
  unfolding walk walk_entries add_dir paths entry_paths

  walk-Adds : (rel : Str) (t : Tree) (w : Writer) → Adds (paths rel t) w (walk rel t w)
  walk-Adds rel (missing e) w = failed-Adds (rel_name rel ∷ []) w e
  walk-Adds rel (unreadable e) w = failed-Adds (rel_name rel ∷ []) w e
  walk-Adds rel (file info opened) w = add_file-Adds rel info opened w
  walk-Adds rel (dir entries) w =
      then-Adds (rel_name rel ∷ []) (entry_paths rel entries) w
        (write_header (rel_name rel) true 0 w).0 (write_header (rel_name rel) true 0 w).1
        (walk_entries rel entries) (write_header-Adds (rel_name rel) true 0 w)
        (walk_entries-Adds rel entries)

  walk_entries-Adds :
      (rel : Str) (entries : Entries) (w : Writer)
      → Adds (entry_paths rel entries) w (walk_entries rel entries w)
  walk_entries-Adds rel end w = ([], refl, λ _. refl)
  walk_entries-Adds rel (entry name t entries) w =
      then-Adds (paths (rel_path rel name) t) (entry_paths rel entries) w
        (walk (rel_path rel name) t w).0 (walk (rel_path rel name) t w).1 (walk_entries rel entries)
        (walk-Adds (rel_path rel name) t w) (walk_entries-Adds rel entries)

all_or_failed :
    (r : Result (Unit {0})) (rest : List Str) → (r ≡ ok tt → rest ≡ []) → (rest ≡ []) ⊎ (r ≢ ok tt)
all_or_failed (ok u) rest whole = inl (whole refl)
all_or_failed (err e) rest whole = inr (λ bad. absurd cc)
all_or_failed (panic why) rest whole = inr (λ bad. absurd cc)

-- Whatever the files are, `BuildImage` has docker build from a tar stream and returns what that ends
-- with. The paths of the stream are the first ones of the tree, in its order: all of them, or the
-- walk has failed and they end there, with no error for it.
pub build_image_prefix :
    (docker : Engine) (build_path : Tree) (image_name : Str) (s : docker.State)
    → (blocks : List Block) × (rest : List Str) × (build_image docker build_path image_name s
        ≡ (docker.image_build blocks image_name >>= λ rd. lift (print_out docker.error_of rd)) s)
      × (names blocks ++ rest ≡ paths [] build_path)
      × ((rest ≡ []) ⊎ ((walk [] build_path empty_writer).0 ≢ ok tt))
unfolding build_image
build_image_prefix docker build_path image_name s =
    let (rest, e, whole) = walk-Adds [] build_path empty_writer in
    (
      (walk [] build_path empty_writer).1.blocks,
      rest,
      refl,
      e,
      all_or_failed (walk [] build_path empty_writer).0 rest whole,
    )
