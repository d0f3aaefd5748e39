-- ===== src/Base/Outcome.antt =====
-- How a call ends, and code that reads and changes a world.
use Prim.Native.String.{String}
use mathlib.Core.Bool.{Bool, true, false}
use computing_api.Base.Tests.{if◌then◌else◌}
use mathlib.Core.Path.{◌≡◌, refl}

-- An `error`: built by `errors.New` or `fmt.Errorf` (`new`, `wrap` when it holds another error's
-- text), returned by `strconv`, or returned by code that is not the program's own (`foreign`).
pub data Error : Type 0 where
  new : String → Error
  wrap : String → Error → Error
  bad_syntax out_of_range : Error
  foreign : String → Error

-- A call returns a value, returns an error, or panics (or ends the process by `log.Fatal`).
pub data Result {ℓ} (A : Type ℓ) : Type ℓ where
  ok : A → Result A
  err : Error → Result A
  panic : String → Result A

module _ {ℓ κ} {A : Type ℓ} {B : Type κ} where
  -- `a, err := r; if err != nil { fail }` and then the rest, in code that changes nothing
  abbrev pub rescue : Result A → (Error → Result B) → (A → Result B) → Result B
  rescue (ok a) fail next = next a
  rescue (err e) fail next = fail e
  rescue (panic why) fail next = panic why

  abbrev pub bind : Result A → (A → Result B) → Result B
  bind r next = rescue r err next

abbrev pub is_err {ℓ} : {A : Type ℓ} → Result A → Bool
is_err (err e) = true
is_err _ = false

pub ok-injective {ℓ} : {A : Type ℓ} {a b : A} → ok a ≡ ok b → a ≡ b
ok-injective h = cc

-- A chain of calls that succeeds has succeeded at its first part, whether the error of that part
-- goes on or becomes a panic.
pub bind-eq-ok {ℓ κ} :
    {A : Type ℓ} {B : Type κ} (r : Result A) (next : A → Result B) {b : B}
    → bind r next ≡ ok b
    → (a : A) × (r ≡ ok a) × (next a ≡ ok b)
bind-eq-ok (ok a) next h = (a, refl, h)
bind-eq-ok (err e) next h = cc
bind-eq-ok (panic why) next h = cc

pub rescue-eq-ok {ℓ κ} :
    {A : Type ℓ} {B : Type κ} (r : Result A) (why : String) (next : A → Result B) {b : B}
    → rescue r (λ _. panic why) next ≡ ok b
    → (a : A) × (r ≡ ok a) × (next a ≡ ok b)
rescue-eq-ok (ok a) why next h = (a, refl, h)
rescue-eq-ok (err e) why next h = cc
rescue-eq-ok (panic why') why next h = cc

pub wrapped-eq-ok {ℓ κ} :
    {A : Type ℓ} {B : Type κ} (r : Result A) (fail : Error → Error) (next : A → Result B) {b : B}
    → rescue r (λ e. err (fail e)) next ≡ ok b
    → (a : A) × (r ≡ ok a) × (next a ≡ ok b)
wrapped-eq-ok (ok a) fail next h = (a, refl, h)
wrapped-eq-ok (err e) fail next h = cc
wrapped-eq-ok (panic why) fail next h = cc

-- Code that changes the world, which stays changed when it fails.
abbrev pub Exec : Type 0 → Type 0 → Type 0
Exec W A = W → Result A × W

module _ {W A : Type 0} where
  abbrev pub pure : A → Exec W A
  pure a w = (ok a, w)

  abbrev pub raise : Error → Exec W A
  raise e w = (err e, w)

  abbrev pub crash : String → Exec W A
  crash why w = (panic why, w)

  -- A call that only reads the world.
  abbrev pub reads : (W → Result A) → Exec W A
  reads f w = (f w, w)

  abbrev pub lift : Result A → Exec W A
  lift r w = (r, w)

module _ {W A B : Type 0} where
  -- `a, err := m; if err != nil { … }` and then the rest
  abbrev pub branch : Result A → (Error → Exec W B) → (A → Exec W B) → Exec W B
  branch (ok a) fail next w = next a w
  branch (err e) fail next w = fail e w
  branch (panic why) fail next w = (panic why, w)

  abbrev pub attempt : Exec W A → (Error → Exec W B) → (A → Exec W B) → Exec W B
  attempt m fail next w = let (r, w') = m w in branch r fail next w'

  infixl 5 ◌>>=◌ ◌>>◌
  -- `if err != nil { return …, err }`
  abbrev pub ◌>>=◌ : Exec W A → (A → Exec W B) → Exec W B
  m >>= next = attempt m raise next

  abbrev pub ◌>>◌ : Exec W A → Exec W B → Exec W B
  m >> next = m >>= λ _. next

-- A call whose error is thrown away.
abbrev pub ignore : {W A : Type 0} → Exec W A → Exec W (Unit {0})
ignore m = attempt m (λ _. pure tt) (λ _. pure tt)

module _ {W A B : Type 0} where
  branch-eq-ok :
      (r : Result A) (w w' : W) (next : A → Exec W B) {b : B}
      → branch r raise next w ≡ (ok b, w')
      → (a : A) × (r ≡ ok a) × (next a w ≡ (ok b, w'))
  branch-eq-ok (ok a) w w' next h = (a, refl, h)
  branch-eq-ok (err e) w w' next h = cc
  branch-eq-ok (panic why) w w' next h = cc

  -- A call whose error goes on leaves the world as it is where what follows does.
  pub branch-same :
      (r : Result A) (next : A → Exec W B) (w : W)
      → ((a : A) → (next a w).1 ≡ w)
      → (branch r raise next w).1 ≡ w
  branch-same (ok a) next w h = h a
  branch-same (err e) next w h = refl
  branch-same (panic why) next w h = refl

  -- A sequence that succeeds has succeeded at its first call, and goes on from where that ended.
  pub >>=-eq-ok :
      (m : Exec W A) (next : A → Exec W B) (w : W) {w' : W} {b : B}
      → (m >>= next) w ≡ (ok b, w')
      → (a : A) × (w1 : W) × (m w ≡ (ok a, w1)) × (next a w1 ≡ (ok b, w'))
  >>=-eq-ok m next w {w'} h =
      let (r, w1) = m w in
      let (a, e, rest) = branch-eq-ok (m w).0 (m w).1 w' next h in
      (a, (m w).1, (λ i. (e i, (m w).1)), rest)

  -- A sequence goes on from where a first call that succeeds has ended.
  pub >>=-goes_on :
      (m : Exec W A) (next : A → Exec W B) (w : W) {a : A} {w1 : W}
      → m w ≡ (ok a, w1)
      → (m >>= next) w ≡ next a w1
  >>=-goes_on m next w h = λ i. branch (h i).0 raise next (h i).1

  -- So has a sequence that begins with a call that only reads, or changes nothing.
  pub reads->>=-eq-ok :
      (f : W → Result A) (next : A → Exec W B) (w : W) {w' : W} {b : B}
      → (reads f >>= next) w ≡ (ok b, w')
      → (a : A) × (f w ≡ ok a) × (next a w ≡ (ok b, w'))
  reads->>=-eq-ok f next w {w'} h = branch-eq-ok (f w) w w' next h

  pub lift->>=-eq-ok :
      (r : Result A) (next : A → Exec W B) (w : W) {w' : W} {b : B}
      → (lift r >>= next) w ≡ (ok b, w')
      → (a : A) × (r ≡ ok a) × (next a w ≡ (ok b, w'))
  lift->>=-eq-ok r next w {w'} h = branch-eq-ok r w w' next h

wrapped_end :
    {W A : Type 0} (r : Result A) (w : W) (fail : Error → Error) {w' : W} {a : A}
    → branch r (λ e. raise (fail e)) pure w ≡ (ok a, w')
    → (r ≡ ok a) × (w ≡ w')
wrapped_end (ok a) w fail h = ((λ i. (h i).0), (λ i. (h i).1))
wrapped_end (err e) w fail h = cc
wrapped_end (panic why) w fail h = cc

-- A call whose error is wrapped before it goes on.
pub wrapped-attempt-eq-ok :
    {W A : Type 0} (m : Exec W A) (fail : Error → Error) (w : W) {w' : W} {a : A}
    → attempt m (λ e. raise (fail e)) pure w ≡ (ok a, w')
    → m w ≡ (ok a, w')
wrapped-attempt-eq-ok m fail w h =
    let (ended, left) = wrapped_end (m w).0 (m w).1 fail h in λ i. (ended i, left i)

ignored :
    {W A : Type 0} (r : Result A) (w : W)
    → (branch {W = W} r (λ _. pure {A = Unit {0}} tt) (λ _. pure tt) w).1 ≡ w
ignored (ok a) w = refl
ignored (err e) w = refl
ignored (panic why) w = refl

-- A call whose error is thrown away changes the world as it did.
pub ignore-state : {W A : Type 0} (m : Exec W A) (w : W) → (ignore m w).1 ≡ (m w).1
ignore-state m w = ignored (m w).0 (m w).1

-- A guard that raises has not held where the call succeeds.
pub guard-eq-ok :
    {W B : Type 0} (b : Bool) (e : Error) (m : Exec W B) (w : W) {w' : W} {v : B}
    → (if b then raise e else m) w ≡ (ok v, w')
    → (b ≡ false) × (m w ≡ (ok v, w'))
guard-eq-ok true e m w h = cc
guard-eq-ok false e m w h = (refl, h)
