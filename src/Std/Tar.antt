-- ===== src/Std/Tar.antt =====
-- The writer of Go's archive/tar.
use computing_api.Base.{
  Bool, Exec, List, Str, [], foreign, if◌then◌else◌, length, ltb, pure, raise, take, ℕ, ◌++◌, ◌-◌,
  ◌∷◌,
}

-- A part of a tar stream.
pub data Block : Type 0 where
  header : (name : Str) → (is_dir : Bool) → (size : ℕ) → Block
  bytes : Str → Block

-- A `tar.Writer`: what it has written, and what the last header still waits for.
pub record Writer : Type 0 where
  pub blocks : List Block
  pub remaining : ℕ

abbrev pub empty_writer : Writer
empty_writer = record { blocks = []; remaining = 0 }

-- `WriteHeader`, which fails where the file before is not complete.
unfoldable pub write_header : Str → Bool → ℕ → Exec Writer (Unit {0})
write_header name is_dir size w =
    if ltb 0 w.remaining
    then raise (foreign "missed writing") w
    else pure tt (record { blocks = w.blocks ++ header name is_dir size ∷ []; remaining = size })

-- `Write`, which writes no more than the header has announced.
unfoldable pub write : Str → Exec Writer (Unit {0})
write content w =
    if ltb w.remaining (length content)
    then raise (foreign "write too long")
        (record { blocks = w.blocks ++ bytes (take w.remaining content) ∷ []; remaining = 0 })
    else pure tt (record {
      blocks = w.blocks ++ bytes content ∷ [];
      remaining = w.remaining - length content;
    })
