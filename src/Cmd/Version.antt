-- ===== src/Cmd/Version.antt =====
-- common/version/version.go, and the command and the flag of the program that print it.
use computing_api.Base.{Bool, List, Str, [], false, if◌then◌else◌, text, true, ◌++◌, ◌∷◌}

abbrev pub version : Str
version = b'0' ∷ b'.' ∷ b'4' ∷ b'.' ∷ b'1' ∷ b'2' ∷ []

-- `BuildFlag` is set by the linker.
unfoldable pub current_version : Str → Str
current_version build_flag = version ++ b'+' ∷ build_flag

-- `CheckVersion`, given the value of the flag: what is printed, and whether the program ends.
unfoldable pub check_version : Str → Bool → List Str × Bool
unfolding text
check_version build_flag check =
    if check
    then (
      (text "Current version:  " ++ version) ∷ (text "Building info:  " ++ build_flag) ∷ [],
      true,
    )
    else ([], false)

-- `VersionCmd`, which prints a line.
unfoldable pub version_cmd : Str → List Str
unfolding current_version
version_cmd build_flag = current_version build_flag ∷ []

-- The action of the program itself, with no command.
unfoldable pub main_action : Str → Bool → List Str
unfolding current_version
main_action build_flag version_asked = if version_asked then current_version build_flag ∷ [] else []
