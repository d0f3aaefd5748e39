-- ===== src/Prover/Stopping.antt =====
-- prover/prover.go: the loop of `Start` in a goroutine of its own, its context, and calls of `Stop`,
-- as steps that come in any order.
pub mod Laws
pub mod Returns
use computing_api.Base.{
  Bool, List, [], false, if◌then◌else◌, suc, true, ℕ, ◌-◌, ◌<◌, ◌||◌, ◌∷◌, ◌≡◌,
}
use computing_api.Prover.{
  Ending, GridProver, Proof, Round, after_count, calculate_wating_time, submits,
}
use computing_api.Base.Int.{ℤ}

-- Where the loop stands: not started yet, before the end of its `select`, at work for the cycle
-- before `next`, or returned.
pub data Loop : Type 0 where
  not_started looping ended : Loop
  busy : (next : ℤ) → Loop

-- A prover with its channel `done`, the context that `Start` was given, the calls of `Stop` that are
-- in their loop, have returned, and have panicked, and the proofs that were submitted.
pub record Run : Type 0 where
  pub prover : GridProver
  pub closed : Bool
  pub cancelled : Bool
  pub loop : Loop
  pub waiting : ℕ
  pub stopped : ℕ
  pub panics : ℕ
  pub sent : List Proof

unfoldable pub fresh_run : GridProver → Run
fresh_run p = record {
  prover = p;
  closed = false;
  cancelled = false;
  loop = not_started;
  waiting = 0;
  stopped = 0;
  panics = 0;
  sent = [];
}

unfoldable pub launch : Run → Run
launch s = record s { loop = looping }

unfoldable pub cancel : Run → Run
cancel s = record s { cancelled = true }

-- A case of `<-ctx.Done()` or `<-p.done`, at the time `now` that `CalculateWatingTime` read.
unfoldable pub leave : ℤ → Run → Run
unfolding calculate_wating_time
leave now s = record s {
  prover = record (calculate_wating_time s.prover now).1 { doned = true };
  loop = ended;
}

-- The case of `<-time.After(wait)`.
unfoldable pub wake : ℤ → Run → Run
unfolding calculate_wating_time
wake now s =
    let (times, p) = calculate_wating_time s.prover now in
    record s { prover = p; loop = busy times.1 }

abbrev pub sent_by : Ending → List Proof → List Proof
sent_by (submits proof success) sent = proof ∷ sent
sent_by _ sent = sent

-- What follows the `select`, up to its next turn.
unfoldable pub work : ℤ → Round → Run → Run
work next r s =
    let (p, ending) = after_count s.prover next r r.order_count in
    record s { prover = p; loop = looping; sent = sent_by ending s.sent }

-- `close(p.done)`, which panics where the channel is closed.
unfoldable pub call_stop : Run → Run
call_stop s =
    if s.closed
    then record s { panics = suc s.panics }
    else record s { closed = true; waiting = suc s.waiting }

-- A turn of the loop of `Stop`.
unfoldable pub poll_stop : Run → Run
poll_stop s =
    if s.prover.doned then record s { waiting = s.waiting - 1; stopped = suc s.stopped } else s

-- `select` takes any of its cases that is ready; `Start` is called once.
pub data Step : Run → Run → Type 0 where
  launches : {s : Run} → s.loop ≡ not_started → Step s (launch s)
  cancels : {s : Run} → Step s (cancel s)
  leaves :
      {s : Run} (now : ℤ) → s.loop ≡ looping → s.closed || s.cancelled ≡ true → Step s (leave now s)
  wakes : {s : Run} (now : ℤ) → s.loop ≡ looping → Step s (wake now s)
  works : {s : Run} (next : ℤ) (r : Round) → s.loop ≡ busy next → Step s (work next r s)
  calls : {s : Run} → Step s (call_stop s)
  polls : {s : Run} → 0 < s.waiting → Step s (poll_stop s)

pub data Steps : Run → Run → Type 0 where
  here : {s : Run} → Steps s s
  after : {s t u : Run} → Step s t → Steps t u → Steps s u
