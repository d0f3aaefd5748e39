-- ===== src/Prover/Stopping/Laws.antt =====
-- What a call of `Stop` may rely on, and whether it returns.
use computing_api.Base.{
  Bool, Result, Str, arith, err, false, if◌then◌else◌, ok, panic, refl, sym, true, ℕ, ◌+◌, ◌<◌, ◌∙◌,
  ◌≡◌,
}
use computing_api.Prover.{
  Ending, GridProver, Round, after_count, after_proof, after_rnd, calculate_wating_time, round,
  skipped,
}
use computing_api.Prover.Stopping.{
  Run, Step, Steps, after, call_stop, calls, cancel, cancels, ended, fresh_run, here, launch,
  launches, leave, leaves, poll_stop, polls, sent_by, wake, wakes, work, works,
}
use computing_api.Base.Int.{ltb_ℤ, pos, ℤ}

waited-doned : (p : GridProver) (now : ℤ) → (calculate_wating_time p now).1.doned ≡ p.doned
unfolding calculate_wating_time
waited-doned p now = refl

after_proof-doned :
    (p : GridProver) (next : ℤ) (rd : Round) (r : Result ℕ)
    → (after_proof p next rd r).0.doned ≡ p.doned
after_proof-doned p next rd (ok nonce) = refl
after_proof-doned p next rd (err e) = refl
after_proof-doned p next rd (panic why) = refl

after_rnd-doned :
    (p : GridProver) (next : ℤ) (rd : Round) (r : Result Str)
    → (after_rnd p next rd r).0.doned ≡ p.doned
after_rnd-doned p next rd (ok rnd) = after_proof-doned p next rd (rd.proof p.node rnd p.diffcult)
after_rnd-doned p next rd (err e) = refl
after_rnd-doned p next rd (panic why) = refl

if-doned :
    (found : Bool) (p : GridProver) (go : GridProver × Ending)
    → go.0.doned ≡ p.doned
    → (if found then go else (p, skipped)).0.doned ≡ p.doned
if-doned true p go h = h
if-doned false p go h = refl

after_count-doned :
    (p : GridProver) (next : ℤ) (rd : Round) (r : Result ℤ)
    → (after_count p next rd r).0.doned ≡ p.doned
after_count-doned p next rd (ok count) =
    if-doned (ltb_ℤ (pos 0) count) p _ (after_rnd-doned p next rd rd.rnd)
after_count-doned p next rd (err e) = refl
after_count-doned p next rd (panic why) = refl

-- The flag is set where the loop has returned and nowhere else, one call of `Stop` at most has not
-- panicked, and it has returned only where the flag was set.
pub record IsRun (s : Run) : Type 0 where
  pub flag : s.prover.doned ≡ true → s.loop ≡ ended
  pub flagged : s.loop ≡ ended → s.prover.doned ≡ true
  pub one_call : s.waiting + s.stopped ≡ (if s.closed then 1 else 0)
  pub returns : 0 < s.stopped → s.prover.doned ≡ true

pub fresh-IsRun : (p : GridProver) → p.doned ≡ false → IsRun (fresh_run p)
unfolding fresh_run
fresh-IsRun p h = record {
  flag = λ e. cc;
  flagged = λ e. cc;
  one_call = refl;
  returns = λ l. absurd (omega arith);
}

-- An `if` has what both of its branches have.
by_cases :
    {A : Type 0} (P : A → Type 0) (b : Bool) {x y : A}
    → (b ≡ true → P x)
    → (b ≡ false → P y)
    → P (if b then x else y)
by_cases P true h k = h refl
by_cases P false h k = k refl

call_stop-IsRun : (s : Run) → IsRun s → IsRun (call_stop s)
unfolding call_stop
call_stop-IsRun s h =
    by_cases IsRun s.closed
      (λ e. record {
        flag = h.flag;
        flagged = h.flagged;
        one_call = h.one_call;
        returns = h.returns;
      })
      λ e. record {
        flag = h.flag;
        flagged = h.flagged;
        one_call = let none_yet : s.waiting + s.stopped ≡ 0 = (rw e at h.one_call) in omega arith;
        returns = h.returns;
      }

poll_stop-IsRun : (s : Run) → 0 < s.waiting → IsRun s → IsRun (poll_stop s)
unfolding poll_stop
poll_stop-IsRun s l h =
    by_cases IsRun s.prover.doned
      (λ e. record {
        flag = h.flag;
        flagged = h.flagged;
        one_call = omega (arith, h.one_call);
        returns = λ _. e;
      })
      λ e. h

pub Step-IsRun : {s t : Run} → Step s t → IsRun s → IsRun t
unfolding launch cancel leave wake work
Step-IsRun (launches e) h = record {
  flag = λ d. let finished = h.flag d in absurd cc;
  flagged = λ d. cc;
  one_call = h.one_call;
  returns = h.returns;
}
Step-IsRun cancels h = record {
  flag = h.flag;
  flagged = h.flagged;
  one_call = h.one_call;
  returns = h.returns;
}
Step-IsRun (leaves now e ready) h = record {
  flag = λ _. refl;
  flagged = λ _. refl;
  one_call = h.one_call;
  returns = λ _. refl;
}
Step-IsRun (wakes {s} now e) h = record {
  flag = λ d. let finished = h.flag (sym (waited-doned s.prover now) ∙ d) in absurd cc;
  flagged = λ d. cc;
  one_call = h.one_call;
  returns = λ l. waited-doned s.prover now ∙ h.returns l;
}
Step-IsRun (works {s} next r e) h =
    let same = after_count-doned s.prover next r r.order_count in
    record {
      flag = λ d. let finished = h.flag (sym same ∙ d) in absurd cc;
      flagged = λ d. cc;
      one_call = h.one_call;
      returns = λ l. same ∙ h.returns l;
    }
Step-IsRun (calls {s}) h = call_stop-IsRun s h
Step-IsRun (polls {s} l) h = poll_stop-IsRun s l h

pub Steps-IsRun : {s t : Run} → Steps s t → IsRun s → IsRun t
Steps-IsRun here h = h
Steps-IsRun (after step rest) h = Steps-IsRun rest (Step-IsRun step h)

-- Nothing that a prover sends, and nothing of its own, changes from one state to another.
abbrev SameProver : Run → Run → Type 0
SameProver s t = (t.loop ≡ s.loop) × (t.sent ≡ s.sent) × (t.prover ≡ s.prover)

-- Once `Start` has returned every step leaves the prover alone.
Step-over : {s t : Run} → Step s t → s.loop ≡ ended → SameProver s t
unfolding launch cancel call_stop poll_stop
Step-over (launches e) h = absurd cc
Step-over cancels h = (refl, refl, refl)
Step-over (leaves now e ready) h = absurd cc
Step-over (wakes now e) h = absurd cc
Step-over (works next r e) h = absurd cc
Step-over (calls {s}) h =
    by_cases (SameProver s) s.closed (λ _. (refl, refl, refl)) (λ _. (refl, refl, refl))
Step-over (polls {s} l) h =
    by_cases (SameProver s) s.prover.doned (λ _. (refl, refl, refl)) (λ _. (refl, refl, refl))

Steps-over : {s t : Run} → Steps s t → s.loop ≡ ended → SameProver s t
Steps-over here h = (refl, refl, refl)
Steps-over (after step rest) h =
    let (e, sent, prover) = Step-over step h in
    let (e', sent', prover') = Steps-over rest (e ∙ h) in (e' ∙ e, sent' ∙ sent, prover' ∙ prover)

-- Let a prover be made and `Start` be called once. Where a call of `Stop` has returned, `Start` has
-- returned, and whatever happens after that, more calls of `Stop` and the end of the context
-- included, no proof is sent any more and the prover stays as it is.
pub stopped_for_good :
    (p : GridProver) (s t : Run)
    → p.doned ≡ false
    → Steps (fresh_run p) s
    → 0 < s.stopped
    → Steps s t
    → (s.loop ≡ ended) × (t.loop ≡ ended) × (t.sent ≡ s.sent) × (t.prover ≡ s.prover)
stopped_for_good p s t fresh before returned_one then_on =
    let known = Steps-IsRun before (fresh-IsRun p fresh) in
    let finished = known.flag (known.returns returned_one) in
    let (e, sent, prover) = Steps-over then_on finished in (finished, e ∙ finished, sent, prover)

-- A turn of the loop that is not stopped, and one that is, are a round each.
turn-round :
    (s : Run) (r : Round)
    → r.stopped ≡ false
    → let t = work (calculate_wating_time s.prover r.now).0.1 r (wake r.now s) in
      (t.prover ≡ (round s.prover r).0) × (t.sent ≡ sent_by (round s.prover r).1 s.sent)
unfolding work wake round
turn-round s r going = (rw going refl, rw going refl)

leave-round :
    (s : Run) (r : Round) → r.stopped ≡ true → (leave r.now s).prover ≡ (round s.prover r).0
unfolding leave round
leave-round s r told = rw told refl
