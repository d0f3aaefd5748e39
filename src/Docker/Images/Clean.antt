-- ===== src/Docker/Images/Clean.antt =====
-- What cleaning leaves.
use computing_api.Base.{All, List, [], ok, refl, ◌∷◌, ◌≡◌}
use computing_api.Base.Int.{negsuc}
use computing_api.Docker.Images.{Engine, Image, clean_loop, clean_resource}

module _ (docker : Engine) where
  -- Images whose containers docker has not counted.
  abbrev pub Uncounted : List Image → Type 0
  Uncounted images = All (λ (image : Image). image.containers ≡ negsuc 0) images

  clean_loop-Uncounted :
      (images : List Image) (s : docker.State)
      → Uncounted images
      → clean_loop docker images s ≡ (ok tt, s)
  unfolding clean_loop
  clean_loop-Uncounted [] s h = refl
  clean_loop-Uncounted (image ∷ images) s (p, h) = rw p (clean_loop-Uncounted images s h)

  -- Where the list of images comes without counts, cleaning does no more than the two prunings: no
  -- image of the list is removed.
  clean_resource-Uncounted :
      (images : List Image) (s s1 s2 : docker.State)
      → docker.images_prune s ≡ (ok tt, s1)
      → docker.containers_prune s1 ≡ (ok tt, s2)
      → docker.image_list s2 ≡ ok images
      → Uncounted images
      → clean_resource docker s ≡ (ok tt, s2)
  unfolding clean_resource
  clean_resource-Uncounted images s s1 s2 first second listed h =
      rw (first, second, listed, clean_loop-Uncounted images s2 h) refl
