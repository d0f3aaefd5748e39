-- ===== src/Docker/Dockerfile.antt =====
-- computing/docker/docker_service.go: the port that a Dockerfile exposes.
pub mod Laws
use computing_api.Base.{
  List, Result, Str, [], err, if◌then◌else◌, new, ok, rescue, str_eq, wrap, ◌∷◌,
}
use computing_api.Std.Strconv.{is_digit}
use computing_api.Std.Strings.{has_prefix}
use computing_api.Std.Fmt.{leading_digits}
use computing_api.Std.Bufio.{scan_lines, trim_space}

abbrev pub expose : Str
expose = b'E' ∷ b'X' ∷ b'P' ∷ b'O' ∷ b'S' ∷ b'E' ∷ []

-- `FindString` of the expression `\d+`: the first run of digits.
unfoldable pub find_digits : Str → Str
unfolding leading_digits
find_digits [] = []
find_digits (c ∷ s) =
    let rest = find_digits s in if is_digit c then leading_digits (c ∷ s) else rest

-- The loop over the lines, which ends at the first that begins with EXPOSE.
unfoldable pub exposed_in : List Str → Str
unfolding find_digits has_prefix trim_space
exposed_in [] = []
exposed_in (line ∷ lines) =
    let rest = exposed_in lines in
    if has_prefix (trim_space line) expose then find_digits line else rest

-- `ExtractExposedPort`, given what `os.Open` gives: the text of the file. An error of the scanner is
-- not looked at.
unfoldable pub extract_exposed_port : Result Str → Result Str
unfolding exposed_in scan_lines
extract_exposed_port file =
    rescue file (λ e. err (wrap "unable to open Dockerfile" e))
      λ content.
        let exposed_port = exposed_in (scan_lines content).0 in
        if str_eq exposed_port []
        then err (new "no exposed port found in Dockerfile")
        else ok exposed_port
