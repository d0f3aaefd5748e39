-- ===== src/Docker/Build/Laws.antt =====
-- What docker is sent of the files of a directory.
use mathlib.Core.List.{append-nil, append_assoc}
use computing_api.Base.{
  >>=-goes_on, Bool, List, Result, Str, [], ap, arith, false, length, le→ltb, lift, none, ok, refl,
  sym, true, ℕ, ◌++◌, ◌-◌, ◌>>=◌, ◌∙◌, ◌∷◌, ◌≡◌,
}
use computing_api.Std.Tar.{Block, Writer, bytes, empty_writer, header, write, write_header}
use computing_api.Docker.Images.{Engine, Stream, print_out}
use computing_api.Docker.Build.{
  Entries, Tree, add_dir, add_file, build_image, copy, dir, end, entry, file, missing, rel_name,
  rel_path, unreadable, walk, walk_entries,
}

-- Every file can be opened and read, and is as long as its header says.
mutual
  pub data IsReadable : Tree → Type 0 where
    whole_file :
        (content : Str)
        → IsReadable (file (ok (length content)) (ok (record { content = content; failed = none })))
    whole_dir : {entries : Entries} → AreReadable entries → IsReadable (dir entries)

  pub data AreReadable : Entries → Type 0 where
    whole_end : AreReadable end
    whole_entry :
        {name : Str} {t : Tree} {entries : Entries}
        → IsReadable t
        → AreReadable entries
        → AreReadable (entry name t entries)

abbrev content_of : Result Stream → Str
content_of (ok rd) = rd.content
content_of _ = []

-- The files of a tree by their paths, a directory before what is in it.
unfoldable mutual
  pub listing : Str → Tree → List Block
  listing rel (missing e) = []
  listing rel (unreadable e) = []
  listing rel (dir entries) = header (rel_name rel) true 0 ∷ list_entries rel entries
  listing rel (file info opened) =
      header (rel_name rel) false (length (content_of opened)) ∷ bytes (content_of opened) ∷ []

  pub list_entries : Str → Entries → List Block
  list_entries rel end = []
  list_entries rel (entry name t entries) =
      listing (rel_path rel name) t ++ list_entries rel entries

abbrev pub writes : Writer → List Block → Writer
writes w blocks = record { blocks = w.blocks ++ blocks; remaining = 0 }

writes-append :
    (w : Writer) (first second : List Block)
    → ◌≡◌ {A = Result (Unit {0}) × Writer}
        (ok tt, record { blocks = (w.blocks ++ first) ++ second; remaining = 0 })
        (ok tt, writes w (first ++ second))
writes-append w first second =
    ap (λ l. (ok tt, record { blocks = l; remaining = 0 })) (append_assoc w.blocks first second)

write_header-next :
    (name : Str) (is_dir : Bool) (size : ℕ) (w : Writer)
    → w.remaining ≡ 0
    → write_header name is_dir size w
      ≡ (ok tt, record { blocks = w.blocks ++ header name is_dir size ∷ []; remaining = size })
unfolding write_header
write_header-next name is_dir size w h = rw h refl

write-whole :
    (content : Str) (w : Writer)
    → w.remaining ≡ length content
    → write content w ≡ (ok tt, writes w (bytes content ∷ []))
unfolding write
write-whole content w h =
    let left : length content - length content ≡ 0 = omega arith in
    rw (h, le→ltb (length content) (length content) (omega arith))
      (ap (λ n. (ok tt, record { blocks = w.blocks ++ bytes content ∷ []; remaining = n })) left)

add_file-whole :
    (rel content : Str) (w : Writer)
    → w.remaining ≡ 0
    → add_file rel (ok (length content)) (ok (record { content = content; failed = none })) w
      ≡ (ok tt, writes w (header (rel_name rel) false (length content) ∷ bytes content ∷ []))
unfolding add_file copy
add_file-whole rel content w h =
    >>=-goes_on (write_header (rel_name rel) false (length content)) _ w
      (write_header-next (rel_name rel) false (length content) w h)
    ∙ >>=-goes_on (write content) _ _ (write-whole content _ refl)
    ∙ writes-append w (header (rel_name rel) false (length content) ∷ []) (bytes content ∷ [])

mutual
  unfolding walk walk_entries add_dir listing list_entries

  walk-whole :
      (rel : Str) (t : Tree) (w : Writer)
      → IsReadable t
      → w.remaining ≡ 0
      → walk rel t w ≡ (ok tt, writes w (listing rel t))
  walk-whole rel _ w (whole_file content) h = add_file-whole rel content w h
  walk-whole rel _ w (whole_dir {entries} all) h =
      >>=-goes_on (add_dir rel) _ w (write_header-next (rel_name rel) true 0 w h)
      ∙ walk_entries-whole rel entries _ all refl
      ∙ writes-append w (header (rel_name rel) true 0 ∷ []) (list_entries rel entries)

  walk_entries-whole :
      (rel : Str) (entries : Entries) (w : Writer)
      → AreReadable entries
      → w.remaining ≡ 0
      → walk_entries rel entries w ≡ (ok tt, writes w (list_entries rel entries))
  walk_entries-whole rel _ w whole_end h =
      λ i. (ok tt, record { blocks = sym (append-nil w.blocks) i; remaining = h i })
  walk_entries-whole rel _ w (whole_entry {name} {t} {entries} one all) h =
      >>=-goes_on (walk (rel_path rel name) t) _ w (walk-whole (rel_path rel name) t w one h)
      ∙ walk_entries-whole rel entries _ all refl
      ∙ writes-append w (listing (rel_path rel name) t) (list_entries rel entries)

-- Where every file of the tree can be read and is as long as its header says, `BuildImage` has docker
-- build from the listing of the tree, each file by its path with its contents, and returns what that
-- ends with.
pub build_image_sends :
    (docker : Engine) (build_path : Tree) (image_name : Str) (s : docker.State)
    → IsReadable build_path
    → build_image docker build_path image_name s
      ≡ (docker.image_build (listing [] build_path) image_name >>= λ rd.
            lift (print_out docker.error_of rd))
          s
unfolding build_image
build_image_sends docker build_path image_name s readable =
    ap
      (λ r.
        (docker.image_build r.1.blocks image_name >>= λ rd. lift (print_out docker.error_of rd)) s)
      (walk-whole [] build_path empty_writer readable refl)
