-- ===== src/Http/Answered.antt =====
-- What a handler has done before its answer: the calls whose errors are answered otherwise succeeded.
use computing_api.Base.{
  Error, Exec, Result, Str, [], ap, attempt, branch, err, if◌then◌else◌, ok, ok-injective, panic,
  reads, refl, str_eq, sym, ℕ, ◌∷◌, ◌≡◌, ◌≢◌,
}
use computing_api.Http.{Body, Reply, reply}

module _ {W : Type 0} where
  pub replied-apart :
      (status : ℕ) (body : Body) (r : Reply) (w w' : W)
      → r.status ≢ status
      → reply status body w ≢ (ok r, w')
  replied-apart status body r w w' apart h =
      apart (ap (λ (x : Reply). x.status) (ok-injective (λ i. (sym h i).0)))

  branch-answered :
      {A : Type 0} (r : Result A) (fail : Error → Exec W Reply) (next : A → Exec W Reply) (w w' : W)
      (answer : Reply)
      → ((e : Error) (v : W) → fail e v ≢ (ok answer, w'))
      → branch r fail next w ≡ (ok answer, w')
      → (a : A) × (r ≡ ok a) × (next a w ≡ (ok answer, w'))
  branch-answered (ok a) fail next w w' answer apart h = (a, refl, h)
  branch-answered (err e) fail next w w' answer apart h = absurd (apart e w h)
  branch-answered (panic why) fail next w w' answer apart h = absurd (cc)

  -- An answer of another status than that of the error branch comes after a result that is there.
  pub served :
      {A : Type 0} (r : Result A) (code : ℕ) (why : Error → Body) (next : A → Exec W Reply)
      (w w' : W) (x : Reply)
      → code ≢ x.status
      → branch r (λ e. reply code (why e)) next w ≡ (ok x, w')
      → (a : A) × (r ≡ ok a) × (next a w ≡ (ok x, w'))
  served r code why next w w' x apart h =
      branch-answered r _ next w w' x
        (λ e v. replied-apart code (why e) x v w' (λ same. apart (sym same))) h

  -- A call after whose error the answer would be another has succeeded.
  pub attempt-answered :
      {A : Type 0} (m : Exec W A) (fail : Error → Exec W Reply) (next : A → Exec W Reply) (w w' : W)
      (answer : Reply)
      → ((e : Error) (v : W) → fail e v ≢ (ok answer, w'))
      → attempt m fail next w ≡ (ok answer, w')
      → (a : A) × (w1 : W) × (m w ≡ (ok a, w1)) × (next a w1 ≡ (ok answer, w'))
  attempt-answered m fail next w w' answer apart h =
      let (a, e, rest) = branch-answered (m w).0 fail next (m w).1 w' answer apart h in
      (a, (m w).1, (λ i. (e i, (m w).1)), rest)

  pub served_after :
      {A : Type 0} (m : Exec W A) (code : ℕ) (why : Error → Body) (next : A → Exec W Reply)
      (w w' : W) (x : Reply)
      → code ≢ x.status
      → attempt m (λ e. reply code (why e)) next w ≡ (ok x, w')
      → (a : A) × (w1 : W) × (m w ≡ (ok a, w1)) × (next a w1 ≡ (ok x, w'))
  served_after m code why next w w' x apart h =
      attempt-answered m _ next w w' x
        (λ e v. replied-apart code (why e) x v w' (λ same. apart (sym same))) h

  pub reads-answered :
      {A : Type 0} (f : W → Result A) (fail : Error → Exec W Reply) (next : A → Exec W Reply)
      (w w' : W) (answer : Reply)
      → ((e : Error) (v : W) → fail e v ≢ (ok answer, w'))
      → attempt (reads f) fail next w ≡ (ok answer, w')
      → (a : A) × (f w ≡ ok a) × (next a w ≡ (ok answer, w'))
  reads-answered f fail next w w' answer apart h =
      branch-answered (f w) fail next w w' answer apart h

  pub not_missing :
      (s : Str) (m go : Exec W Reply) (w w' : W) (answer : Reply)
      → m w ≢ (ok answer, w')
      → (if str_eq s [] then m else go) w ≡ (ok answer, w')
      → go w ≡ (ok answer, w')
  not_missing [] m go w w' answer apart h = absurd (apart h)
  not_missing (c ∷ s) m go w w' answer apart h = h
