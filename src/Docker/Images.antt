-- ===== src/Docker/Images.antt =====
-- computing/docker/docker_service.go: images, by docker's API.
pub mod Push
pub mod Clean
use computing_api.Base.{
  Bool, Error, Exec, List, Option, Result, Str, [], attempt, branch, err, false, foreign,
  if◌then◌else◌, ignore, leb, map, new, none, not, ok, panic, pure, reads, rescue, some, str_eq,
  suc, text, true, zero, ℕ, ◌&&◌, ◌+◌, ◌>>=◌, ◌>>◌, ◌∷◌,
}
use computing_api.Base.Int.{eq_ℤ, pos, ℤ}
use computing_api.Std.Tar.{Block}
use computing_api.Std.Bufio.{scan_lines}

-- `containers` is -1 where docker has not counted them.
pub record Image : Type 0 where
  pub id : Str
  pub repo_tags : List Str
  pub containers : ℤ

-- What docker streams back, and the error that reading it ends with, if any.
pub record Stream : Type 0 where
  pub content : Str
  pub failed : Option Error

-- Docker's API as the service calls it.
pub record Engine : Type 1 where
  pub State : Type 0
  pub image_push : Str → Exec State Stream
  -- A build from what has been written of a tar stream, with the name of the image
  pub image_build : List Block → Str → Exec State Stream
  pub image_list : State → Result (List Image)
  pub image_remove : Str → Exec State (Unit {0})
  pub images_prune : Exec State (Unit {0})
  pub containers_prune : Exec State (Unit {0})
  -- Two seconds pass.
  pub sleep : State → State
  -- The text that `json.Unmarshal` of a line leaves in `Error`
  pub error_of : Str → Str

unfoldable pub last_line : List Str → Str
last_line [] = []
last_line (line ∷ lines) = elim lines [ [] ↦ line | next ∷ more ↦ last_line lines ]

-- The scanner's own error: a line that is too long, or what the reading ended with.
unfoldable pub scan_error : Bool → Option Error → Result (Unit {0})
scan_error true failed = err (new "bufio.Scanner: token too long")
scan_error false none = ok tt
scan_error false (some e) = err e

-- What is the text of an error that docker sends is abridged to `foreign`.
unfoldable pub print_out : (Str → Str) → Stream → Result (Unit {0})
unfolding scan_lines last_line scan_error
print_out error_of rd =
    let (lines, too_long) = scan_lines rd.content in
    if not (str_eq (error_of (last_line lines)) [])
    then err (foreign "docker")
    else scan_error too_long rd.failed

-- `strings.EqualFold` with a text of small letters: no letter beyond ASCII folds to one of them.
abbrev pub small : ℕ → ℕ
small c = if leb b'A' c && leb c b'Z' then c + 32 else c

unfoldable pub equal_fold : Str → Str → Bool
equal_fold s t = str_eq (map small s) t

unfoldable pub is_unused : List Str → Bool
unfolding equal_fold text
is_unused [] = true
is_unused (tag ∷ tags) = equal_fold tag (text "<none>:<none>")

-- A map from tags to identifiers: the entry of a key is the newest.
abbrev pub Tags : Type 0
Tags = List (Str × Str)

abbrev pub set_tags : List Str → Str → Tags → Tags
set_tags [] id images = images
set_tags (tag ∷ tags) id images = set_tags tags id ((tag, id) ∷ images)

abbrev pub or_empty : Result (List Image) → Result (List Image)
or_empty (ok l) = ok l
or_empty (err e) = ok []
or_empty (panic why) = panic why

-- `NewDockerService`, given what the making of a client gives.
unfoldable new_docker_service : {A : Type 0} → Result A → Result A
new_docker_service made = rescue made (λ _. panic "NewClientWithOpts") ok

module _ (docker : Engine) where
  -- The loop of `PushImage` with the tries that are left and the error of the last one.
  unfoldable pub push_tries : ℕ → Str → Result (Unit {0}) → Exec docker.State (Unit {0})
  unfolding print_out
  push_tries zero image last s = (last, s)
  push_tries (suc tries) image last s =
      let again : Error → docker.State → Result (Unit {0}) × docker.State =
        λ e s'. push_tries tries image (err e) (docker.sleep s') in
      attempt (docker.image_push image) again
        (λ rd. branch (print_out docker.error_of rd) again (λ _. pure tt)) s

  unfoldable pub push_image : Str → Exec docker.State (Unit {0})
  unfolding push_tries
  push_image image = push_tries 5 image (ok tt)

  unfoldable pub remove_image : Str → Exec docker.State (Unit {0})
  remove_image image_id = docker.image_remove image_id

  unfoldable pub list_loop : List Image → Tags → Exec docker.State Tags
  unfolding remove_image is_unused
  list_loop [] images = pure images
  list_loop (image ∷ l) images =
      if is_unused image.repo_tags
      then (ignore (remove_image image.id) >> list_loop l images)
      else list_loop l (set_tags image.repo_tags image.id images)

  -- An error of the list is logged, and the loop runs over no image.
  unfoldable pub list_images : Exec docker.State Tags
  unfolding list_loop
  list_images =
      reads (λ s. or_empty (docker.image_list s)) >>= λ image_list. list_loop image_list []

  unfoldable pub clean_loop : List Image → Exec docker.State (Unit {0})
  unfolding remove_image
  clean_loop [] = pure tt
  clean_loop (image ∷ images) =
      if eq_ℤ image.containers (pos 0)
      then (ignore (remove_image image.id) >> clean_loop images)
      else clean_loop images

  -- `CleanResource` ends where a call fails, with no error.
  unfoldable pub clean_resource : Exec docker.State (Unit {0})
  unfolding clean_loop
  clean_resource = ignore (
      docker.images_prune >> docker.containers_prune >> reads docker.image_list >>= λ images.
      clean_loop images)
