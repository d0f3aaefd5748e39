-- ===== src/Deploy/Ready.antt =====
-- Waiting for a deployment: at most sixty looks, one second apart.
use computing_api.Base.{
  Bool-cases, List, Result, Str, arith, branch, err, false, if◌then◌else◌, inl, inr, ok, panic,
  raise, refl, suc, true, wrap, zero, ℕ, ◌<◌, ◌↔◌, ◌≡◌,
}
use computing_api.Kube.{Condition, Deployment, Kube}
use computing_api.Deploy.{is_available, wait_ready, wait_tries}

module _ (k : Kube) where
  -- The cluster after `n` seconds.
  abbrev pub after : ℕ → k.State → k.State
  after zero s = s
  after (suc n) s = after n (k.sleep s)

  -- At the `n`-th look the deployment is seen and available, and before it was seen and not.
  pub record SeenReady (name : Str) (n : ℕ) (s : k.State) : Type 0 where
    pub conditions : List Condition
    pub seen : k.conditions_of name (after n s) ≡ ok conditions
    pub available : is_available conditions ≡ true
    pub waited :
        (m : ℕ)
        → m < n
        → (cs : List Condition) × (k.conditions_of name (after m s) ≡ ok cs)
          × (is_available cs ≡ false)

  SeenReady-zero :
      {name : Str} {s : k.State} (cs : List Condition)
      → k.conditions_of name s ≡ ok cs
      → is_available cs ≡ true
      → SeenReady name 0 s
  SeenReady-zero cs e yes_now = record {
    conditions = cs;
    seen = e;
    available = yes_now;
    waited = λ m h. elim h [ ];
  }

  SeenReady-suc :
      {name : Str} {n : ℕ} {s : k.State} (cs : List Condition)
      → k.conditions_of name s ≡ ok cs
      → is_available cs ≡ false
      → SeenReady name n (k.sleep s)
      → SeenReady name (suc n) s
  SeenReady-suc {name} {n} {s} cs e not_yet r = record {
    conditions = r.conditions;
    seen = r.seen;
    available = r.available;
    waited = waits;
  }
    where
      waits :
          (m : ℕ)
          → m < suc n
          → (cs' : List Condition) × (k.conditions_of name (after m s) ≡ ok cs')
            × (is_available cs' ≡ false)
      waits zero h = (cs, e, not_yet)
      waits (suc m) h = r.waited m (omega arith)

  SeenReady-pred :
      {name : Str} {n : ℕ} {s : k.State} → SeenReady name (suc n) s → SeenReady name n (k.sleep s)
  SeenReady-pred r = record {
    conditions = r.conditions;
    seen = r.seen;
    available = r.available;
    waited = λ m h. r.waited (suc m) (omega arith);
  }

  -- One look, given what it returns.
  look :
      (tries : ℕ) (name : Str) (s : k.State) (r : Result (List Condition))
      → k.conditions_of name s ≡ r
      → wait_tries k (suc tries) name s
        ≡ branch r
            (λ e. raise (wrap "failed to get latest version of deployment" e))
            (λ conditions s'.
              if is_available conditions
              then (ok true, s')
              else wait_tries k tries name (k.sleep s))
            s
  unfolding wait_tries
  look tries name s r e = rw e

  sound_step :
      (tries : ℕ) (name : Str) (s : k.State) (r : Result (List Condition))
      → k.conditions_of name s ≡ r
      → ((wait_tries k tries name (k.sleep s)).0 ≡ ok true
          → (n : ℕ) × (n < tries) × SeenReady name n (k.sleep s))
      → (wait_tries k (suc tries) name s).0 ≡ ok true
      → (n : ℕ) × (n < suc tries) × SeenReady name n s
  sound_step tries name s (ok cs) e ih h = elim (Bool-cases (is_available cs)) [
    | inl now ↦ (0, omega arith, SeenReady-zero cs e now)
    | inr not_yet ↦
        let (n, below, seen) = ih (rw (look tries name s (ok cs) e, not_yet) at h) in
        (suc n, omega arith, SeenReady-suc cs e not_yet seen)
  ]
  sound_step tries name s (err x) e ih h = cc (look tries name s (err x) e)
  sound_step tries name s (panic why) e ih h = cc (look tries name s (panic why) e)

  wait_tries_sound :
      (tries : ℕ) (name : Str) (s : k.State)
      → (wait_tries k tries name s).0 ≡ ok true
      → (n : ℕ) × (n < tries) × SeenReady name n s
  wait_tries_sound zero name s h = absurd (unfold wait_tries in cc)
  wait_tries_sound (suc tries) name s h =
      sound_step tries name s (k.conditions_of name s) refl
        (wait_tries_sound tries name (k.sleep s)) h

  wait_tries_complete :
      (tries n : ℕ) (name : Str) (s : k.State)
      → n < tries
      → SeenReady name n s
      → (wait_tries k tries name s).0 ≡ ok true
  wait_tries_complete zero n name s h r = elim h [ ]
  wait_tries_complete (suc tries) zero name s h r =
      rw (look tries name s (ok r.conditions) r.seen, r.available)
  wait_tries_complete (suc tries) (suc n) name s h r =
      let (cs, e, not_yet) = r.waited 0 (omega arith) in
      rw (look tries name s (ok cs) e, not_yet)
        (wait_tries_complete tries n name (k.sleep s) (omega arith) (SeenReady-pred r))

  -- `WaitReady` reports a deployment ready exactly when one of sixty looks, a second apart, sees it
  -- available, all looks before having seen it with no error and not available.
  pub wait_ready_iff :
      (d : Deployment) (s : k.State)
      → ((wait_ready k d s).0 ≡ ok true) ↔ ((n : ℕ) × (n < 60) × SeenReady d.name n s)
  wait_ready_iff d s =
      unfold wait_ready in
      (wait_tries_sound 60 d.name s, λ (n, h, r). wait_tries_complete 60 n d.name s h r)
