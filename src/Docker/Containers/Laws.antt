-- ===== src/Docker/Containers/Laws.antt =====
-- What `RunContainer` returns.
use mathlib.Core.Path.{subst}
use computing_api.Base.{
  >>=-eq-ok, Bool, Bool-cases, Option, Result, Str, [], branch, drop, err, false, inl, inr,
  lift->>=-eq-ok, none, not, ok, ok-injective, panic, pure, refl, some, sym, text, true, ◌&&◌, ◌++◌,
  ◌∷◌, ◌≡◌, ◌≢◌, ◌⊎◌,
}
use computing_api.Std.Strings.{has_prefix, is_empty}
use computing_api.Std.Fmt.{leading_digits}
use computing_api.Std.Bufio.{trim_space}
use computing_api.Docker.Dockerfile.{extract_exposed_port}
use computing_api.Docker.Dockerfile.Laws.{IsDigits, leading_digits-IsDigits}
use computing_api.Docker.Containers.{
  Command, find_host_port, host_prefix, remove_container_if_exists, run_container,
  run_container_calls, url_of,
}

abbrev IsPort : Option Str → Type 0
IsPort none = Unit
IsPort (some port) = (port ≢ []) × IsDigits port

nonempty_lem : (a : Bool) (s : Str) → (a && not (is_empty s)) ≡ true → s ≢ []
nonempty_lem true [] h = absurd (cc)
nonempty_lem false [] h = absurd (cc)
nonempty_lem a (c ∷ s) h = λ e. cc

find_host_port-IsPort : (s : Str) → IsPort (find_host_port s)
unfolding find_host_port
find_host_port-IsPort [] = tt
find_host_port-IsPort (c ∷ s) =
    elim (Bool-cases
      (has_prefix (c ∷ s) host_prefix && not (is_empty (leading_digits (drop 7 s))))) [
        | inl found ↦ rw found (
          nonempty_lem (has_prefix (c ∷ s) host_prefix) _ found,
          leading_digits-IsDigits (drop 7 s),
        )
        | inr skips ↦ rw skips (find_host_port-IsPort s)
      ]

-- Nothing, or the URL of a port on the local host.
abbrev pub IsUrl : Str → Type 0
IsUrl url =
    (url ≡ [])
    ⊎ ((port : Str) × (url ≡ text "http://127.0.0.1:" ++ port) × (port ≢ []) × IsDigits port)

url_of-IsUrl : (port : Option Str) → IsPort port → IsUrl (url_of port)
unfolding text
url_of-IsUrl none h = inl refl
url_of-IsUrl (some port) (n, h) = inr (port, refl, n, h)

module _ (docker : Command) where
  calls-IsUrl :
      (image url : Str) (dockerfile : Result Str) (s s' : docker.State)
      → run_container_calls docker image dockerfile s ≡ (ok url, s')
      → IsUrl url
  unfolding run_container_calls
  calls-IsUrl image url dockerfile s s' h =
      let (port, _, h1) = lift->>=-eq-ok (extract_exposed_port dockerfile) _ s h in
      let (_, s1, _, h2) = >>=-eq-ok (remove_container_if_exists docker image) _ s h1 in
      let (out, s2, _, h3) =
        >>=-eq-ok
          (docker.run (text "run" ∷ text "-d" ∷ text "-p" ∷ (port ++ b':' ∷ port) ∷ image ∷ [])) _
          s1 h2 in
      let (mapping, s3, _, end) =
        >>=-eq-ok (docker.run (text "port" ∷ trim_space out ∷ [])) _ s2 h3 in
      subst IsUrl (ok-injective (λ i. (end i).0)) (
        url_of-IsUrl (find_host_port (trim_space mapping))
          (find_host_port-IsPort (trim_space mapping)))

  answered :
      (r : Result Str) (url : Str) (s s' : docker.State)
      → branch r (λ _. pure []) pure s ≡ (ok url, s')
      → (url ≡ []) ⊎ (◌≡◌ {A = Result Str × docker.State} (r, s) (ok url, s'))
  answered (ok u) url s s' h = inr h
  answered (err e) url s s' h = inl (sym (ok-injective (λ i. (h i).0)))
  answered (panic why) url s s' h = absurd (cc)

  -- `RunContainer` returns nothing, or the URL of a port on the local host: the digits of the port
  -- are there.
  run_container-IsUrl :
      (image url : Str) (dockerfile : Result Str) (s s' : docker.State)
      → run_container docker image dockerfile s ≡ (ok url, s')
      → IsUrl url
  unfolding run_container
  run_container-IsUrl image url dockerfile s s' h =
      let run = run_container_calls docker image dockerfile in
      elim (answered (run s).0 url (run s).1 s' h) [
        | inl nothing ↦ inl nothing
        | inr called ↦ calls-IsUrl image url dockerfile s s' called
      ]
