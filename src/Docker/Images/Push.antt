-- ===== src/Docker/Images/Push.antt =====
-- Which pushes succeed.
use computing_api.Base.{
  Error, Exec, Result, Str, ap, arith, branch, err, inl, inr, is_err, lift, ok, panic, pure, raise,
  refl, suc, sym, true, zero, ℕ, ◌<◌, ◌>>=◌, ◌↔◌, ◌∙◌, ◌≡◌, ◌⊎◌,
}
use computing_api.Docker.Images.{Engine, Stream, print_out, push_image, push_tries}

module _ (docker : Engine) (image : Str) where
  -- One attempt: the push, and the error in what docker streams back.
  abbrev pub attempt_once : Exec docker.State (Unit {0})
  attempt_once = docker.image_push image >>= λ rd. lift (print_out docker.error_of rd)

  -- The attempt with the number `i` ends well, and each one before it ends with an error, two seconds
  -- before the next.
  abbrev pub SucceedsAt : ℕ → docker.State → Type 0
  SucceedsAt zero s = (attempt_once s).0 ≡ ok tt
  SucceedsAt (suc i) s =
      (is_err (attempt_once s).0 ≡ true) × SucceedsAt i (docker.sleep (attempt_once s).1)

  abbrev after : ℕ → Result (Unit {0}) → docker.State → Result (Unit {0}) × docker.State
  after n (ok u) w = (ok tt, w)
  after n (err e) w = push_tries docker n image (err e) (docker.sleep w)
  after n (panic why) w = (panic why, w)

  printed :
      (n : ℕ) (r : Result (Unit {0})) (w : docker.State)
      → branch r (λ e s'. push_tries docker n image (err e) (docker.sleep s')) (λ _. pure tt) w
        ≡ after n r w
  printed n (ok u) w = refl
  printed n (err e) w = refl
  printed n (panic why) w = refl

  streamed :
      (n : ℕ) (r : Result Stream) (w : docker.State)
      → branch r
          (λ e s'. push_tries docker n image (err e) (docker.sleep s'))
          (λ rd.
            branch
              (print_out docker.error_of rd)
              (λ e s'. push_tries docker n image (err e) (docker.sleep s'))
              (λ _. pure tt))
          w
        ≡ after n
            (branch r raise (λ rd. lift (print_out docker.error_of rd)) w).0
            (branch r raise (λ rd. lift (print_out docker.error_of rd)) w).1
  streamed n (ok rd) w = printed n (print_out docker.error_of rd) w
  streamed n (err e) w = refl
  streamed n (panic why) w = refl

  push_tries-suc :
      (n : ℕ) (last : Result (Unit {0})) (s : docker.State)
      → push_tries docker (suc n) image last s ≡ after n (attempt_once s).0 (attempt_once s).1
  unfolding push_tries
  push_tries-suc n last s = streamed n (docker.image_push image s).0 (docker.image_push image s).1

  -- A push that has ended well after an attempt: the attempt did, or the rest of the tries.
  ended_well :
      (n : ℕ) (r : Result (Unit {0})) (w : docker.State) (Rest : Type 0)
      → ((e : Error) → (push_tries docker n image (err e) (docker.sleep w)).0 ≡ ok tt → Rest)
      → (after n r w).0 ≡ ok tt
      → (r ≡ ok tt) ⊎ ((is_err r ≡ true) × Rest)
  ended_well n (ok u) w Rest rest h = inl refl
  ended_well n (err e) w Rest rest h = inr (refl, rest e h)
  ended_well n (panic why) w Rest rest h = absurd (cc)

  goes_on :
      (n : ℕ) (r : Result (Unit {0})) (w : docker.State)
      → is_err r ≡ true
      → ((e : Error) → (push_tries docker n image (err e) (docker.sleep w)).0 ≡ ok tt)
      → (after n r w).0 ≡ ok tt
  goes_on n (ok u) w h rest = absurd (cc)
  goes_on n (err e) w h rest = rest e
  goes_on n (panic why) w h rest = absurd (cc)

  -- By the tries that are left behind one.
  one_of :
      (n : ℕ) (last : Result (Unit {0})) (s : docker.State)
      → ((e : Error)
          → (push_tries docker n image (err e) (docker.sleep (attempt_once s).1)).0 ≡ ok tt
          → (i : ℕ) × (i < n) × SucceedsAt i (docker.sleep (attempt_once s).1))
      → (push_tries docker (suc n) image last s).0 ≡ ok tt
      → (i : ℕ) × (i < suc n) × SucceedsAt i s
  one_of n last s rest h =
      elim (ended_well n (attempt_once s).0 (attempt_once s).1 _ rest
        (sym (ap (λ (p : Result (Unit {0}) × docker.State). p.0) (push_tries-suc n last s)) ∙ h)) [
          | inl well ↦ (0, omega arith, well)
          | inr (failed, (i, low, well)) ↦ (suc i, omega (arith, low), (failed, well))
        ]

  tries-SucceedsAt :
      (n : ℕ) (e : Error) (s : docker.State)
      → (push_tries docker n image (err e) s).0 ≡ ok tt
      → (i : ℕ) × (i < n) × SucceedsAt i s
  unfolding push_tries
  tries-SucceedsAt zero e s h = absurd (cc)
  tries-SucceedsAt (suc n) e s h =
      one_of n (err e) s (λ e'. tries-SucceedsAt n e' (docker.sleep (attempt_once s).1)) h

  SucceedsAt-tries :
      (i n : ℕ) (last : Result (Unit {0})) (s : docker.State)
      → i < n
      → SucceedsAt i s
      → (push_tries docker n image last s).0 ≡ ok tt
  SucceedsAt-tries i zero last s low well = absurd (omega (arith, low))
  SucceedsAt-tries zero (suc n) last s low well =
      ap (λ (p : Result (Unit {0}) × docker.State). p.0) (push_tries-suc n last s)
      ∙ ap (λ r. (after n r (attempt_once s).1).0) well
  SucceedsAt-tries (suc i) (suc n) last s low (failed, well) =
      ap (λ (p : Result (Unit {0}) × docker.State). p.0) (push_tries-suc n last s)
      ∙ goes_on n (attempt_once s).0 (attempt_once s).1 failed λ e.
        SucceedsAt-tries i n (err e) (docker.sleep (attempt_once s).1) (omega (arith, low)) well

  -- A push succeeds just if one of its first five attempts does, those before it having ended with
  -- an error: the loop ends, an error of an early attempt is not the push's, and a sixth attempt is
  -- not made.
  pub push_image_iff :
      (s : docker.State)
      → ((push_image docker image s).0 ≡ ok tt) ↔ ((i : ℕ) × (i < 5) × SucceedsAt i s)
  unfolding push_image
  push_image_iff s = (
    one_of 4 (ok tt) s (λ e. tries-SucceedsAt 4 e (docker.sleep (attempt_once s).1)),
    λ (i, low, well). SucceedsAt-tries i 5 (ok tt) s low well,
  )
