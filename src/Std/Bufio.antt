-- ===== src/Std/Bufio.antt =====
-- `bufio.Scanner` over the lines of a text, and `strings.TrimSpace` of an ASCII text.
use computing_api.Base.{
  Bool, List, Str, [], false, if◌then◌else◌, leb, length, true, ℕ, ◌&&◌, ◌==◌, ◌||◌, ◌∷◌,
}
use computing_api.Std.Fmt.{is_blank}
use computing_api.Std.Strings.{is_empty}
use computing_api.Std.Strings.Split.{split}

-- A line loses a carriage return at its end.
abbrev pub drop_cr : Str → Str
drop_cr [] = []
drop_cr (c ∷ s) = let rest = drop_cr s in if is_empty s && c == 13 then [] else c ∷ rest

-- The lines that `Scan` gives, and whether it ended with `ErrTooLong`: a line of 64 KiB or more ends
-- the scan. Behind the last line break an empty text is no line.
unfoldable pub tokens : List Str → List Str × Bool
tokens [] = ([], false)
tokens (line ∷ lines) =
    let (rest, too_long) = tokens lines in
    if leb 65536 (length line) then ([], true) else elim lines [
      | [] ↦ (if is_empty line then ([], false) else (drop_cr line ∷ [], false))
      | next ∷ more ↦ (drop_cr line ∷ rest, too_long)
    ]

unfoldable pub scan_lines : Str → List Str × Bool
unfolding split tokens
scan_lines s = tokens (split 10 s)

abbrev pub is_white : ℕ → Bool
is_white c = is_blank c || c == 10

unfoldable pub trim_left_white : Str → Str
trim_left_white [] = []
trim_left_white (c ∷ s) = let rest = trim_left_white s in if is_white c then rest else c ∷ s

unfoldable pub trim_right_white : Str → Str
trim_right_white [] = []
trim_right_white (c ∷ s) =
    let rest = trim_right_white s in if is_empty rest && is_white c then [] else c ∷ rest

unfoldable pub trim_space : Str → Str
unfolding trim_left_white trim_right_white
trim_space s = trim_right_white (trim_left_white s)
