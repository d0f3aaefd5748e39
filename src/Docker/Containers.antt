-- ===== src/Docker/Containers.antt =====
-- computing/docker/docker_service.go: containers, by the docker command.
pub mod Laws
use computing_api.Base.{
  Exec, List, Option, Result, Str, [], attempt, drop, if◌then◌else◌, lift, none, not, pure, some,
  text, ◌&&◌, ◌++◌, ◌>>=◌, ◌>>◌, ◌∷◌,
}
use computing_api.Std.Strings.{has_prefix, is_empty}
use computing_api.Std.Strings.Split.{split}
use computing_api.Std.Fmt.{leading_digits}
use computing_api.Std.Bufio.{trim_space}
use computing_api.Docker.Dockerfile.{extract_exposed_port}

-- The docker command with its arguments: what it prints.
pub record Command : Type 1 where
  pub State : Type 0
  pub run : List Str → Exec State Str

abbrev pub host_prefix : Str
host_prefix = b'0' ∷ b'.' ∷ b'0' ∷ b'.' ∷ b'0' ∷ b'.' ∷ b'0' ∷ b':' ∷ []

-- `FindStringSubmatch` of the expression `0\.0\.0\.0:(\d+)`: the digits behind the first address that
-- has some.
unfoldable pub find_host_port : Str → Option Str
unfolding has_prefix leading_digits
find_host_port [] = none
find_host_port (c ∷ s) =
    let rest = find_host_port s in
    if has_prefix (c ∷ s) host_prefix && not (is_empty (leading_digits (drop 7 s)))
    then some (leading_digits (drop 7 s))
    else rest

abbrev pub url_of : Option Str → Str
url_of none = []
url_of (some host_port) =
    b'h' ∷ b't' ∷ b't' ∷ b'p' ∷ b':' ∷ b'/' ∷ b'/' ∷ b'1' ∷ b'2' ∷ b'7' ∷ b'.' ∷ b'0' ∷ b'.' ∷ b'0'
    ∷ b'.' ∷ b'1' ∷ b':' ∷ host_port

module _ (docker : Command) where
  unfoldable pub remove_each : List Str → Exec docker.State (Unit {0})
  unfolding text
  remove_each [] = pure tt
  remove_each (id ∷ ids) = docker.run (text "rm" ∷ text "-f" ∷ id ∷ []) >>= λ _. remove_each ids

  abbrev remove_listed : List Str → Exec docker.State (Unit {0})
  remove_listed [] = pure tt
  remove_listed ([] ∷ ids) = pure tt
  remove_listed ((c ∷ id) ∷ ids) = remove_each ((c ∷ id) ∷ ids)

  unfoldable pub remove_container_if_exists : Str → Exec docker.State (Unit {0})
  unfolding remove_each text trim_space split
  remove_container_if_exists image_name = do
    out ← docker.run (
        text "ps" ∷ text "-a" ∷ text "-q" ∷ text "--filter" ∷ (text "ancestor=" ++ image_name) ∷ [])
    remove_listed (split 10 (trim_space out))

  -- The calls of `RunContainer`, which gives an empty text wherever one of them fails.
  unfoldable pub run_container_calls : Str → Result Str → Exec docker.State Str
  unfolding extract_exposed_port remove_container_if_exists find_host_port text trim_space
  run_container_calls image_name dockerfile = do
    exposed_port ← lift (extract_exposed_port dockerfile)
    remove_container_if_exists image_name
    container ← docker.run (
        text "run"
        ∷ text "-d"
        ∷ text "-p"
        ∷ (exposed_port ++ b':' ∷ exposed_port)
        ∷ image_name
        ∷ [])
    mapping ← docker.run (text "port" ∷ trim_space container ∷ [])
    pure (url_of (find_host_port (trim_space mapping)))

  unfoldable pub run_container : Str → Result Str → Exec docker.State Str
  unfolding run_container_calls
  run_container image_name dockerfile =
      attempt (run_container_calls image_name dockerfile) (λ _. pure []) pure
