-- ===== src/Prover/Stopping/Returns.antt =====
-- When a call of `Stop` returns.
use computing_api.Base.{Bool-cases, arith, false, inl, inr, refl, true, ◌+◌, ◌<◌, ◌≡◌, ◌≢◌}
use computing_api.Prover.{GridProver, Round}
use computing_api.Prover.Stopping.{
  Loop, Run, Steps, after, busy, ended, fresh_run, here, leave, leaves, looping, not_started,
  poll_stop, polls, work, works,
}
use computing_api.Prover.Stopping.Laws.{IsRun, Step-IsRun, Steps-IsRun, fresh-IsRun}
use computing_api.Base.Int.{ℤ}

-- Where the loop comes to by itself: it ends the turn that it is in, with what the calls of the turn
-- give, and leaves at its `select`, at the time that it reads there.
unfoldable pub wind_up : ℤ → Round → Loop → Run → Run
unfolding leave work
wind_up now r not_started s = s
wind_up now r looping s = leave now s
wind_up now r (busy next) s = leave now (work next r s)
wind_up now r ended s = s

-- The state `t` is reached in which the call of `Stop` has returned, and the context of `Start` has
-- not been cancelled on the way.
abbrev Returns : Run → Run → Type 0
Returns s t = Steps s t × (t.stopped ≡ 1) × (t.waiting ≡ 0) × (t.cancelled ≡ s.cancelled)

polled-Returns :
    (s : Run) → IsRun s → 0 < s.waiting → s.closed ≡ true → s.loop ≡ ended → Returns s (poll_stop s)
unfolding poll_stop
polled-Returns s h waits closed finished =
    let one : s.waiting + s.stopped ≡ 1 = (rw closed at h.one_call) in
    let flag = h.flagged finished in
    (after (polls waits) here, rw flag (omega arith), rw flag (omega arith), rw flag refl)

left-Returns :
    (now : ℤ) (s : Run)
    → IsRun s
    → 0 < s.waiting
    → s.closed ≡ true
    → s.loop ≡ looping
    → Returns s (poll_stop (leave now s))
unfolding leave
left-Returns now s h waits closed at_select =
    let leaving = leaves now at_select (rw closed refl) in
    let (steps, one, none_left, same) =
      polled-Returns (leave now s) (Step-IsRun leaving h) waits closed refl in
    (after leaving steps, one, none_left, same)

worked-Returns :
    (now next : ℤ) (r : Round) (s : Run)
    → IsRun s
    → 0 < s.waiting
    → s.closed ≡ true
    → s.loop ≡ busy next
    → Returns s (poll_stop (leave now (work next r s)))
unfolding work
worked-Returns now next r s h waits closed at_work =
    let working = works next r at_work in
    let (steps, one, none_left, same) =
      left-Returns now (work next r s) (Step-IsRun working h) waits closed refl in
    (after working steps, one, none_left, same)

started-Returns :
    (now : ℤ) (r : Round) (l : Loop) (s : Run)
    → IsRun s
    → 0 < s.waiting
    → s.closed ≡ true
    → l ≢ not_started
    → s.loop ≡ l
    → Returns s (poll_stop (wind_up now r l s))
unfolding wind_up
started-Returns now r not_started s h waits closed started e = absurd (started refl)
started-Returns now r looping s h waits closed started e = left-Returns now s h waits closed e
started-Returns now r ended s h waits closed started e = polled-Returns s h waits closed e
started-Returns now r (busy next) s h waits closed started e =
    worked-Returns now next r s h waits closed e

waits-closed : (s : Run) → IsRun s → 0 < s.waiting → s.closed ≡ true
waits-closed s h waits = elim (Bool-cases s.closed) [
  | inl e ↦ e
  | inr e ↦ let none_yet : s.waiting + s.stopped ≡ 0 = (rw e at h.one_call) in absurd (omega arith)
]

-- Let a prover be made. In every state that it comes to in which `Start` has been called and a call
-- of `Stop` waits, the call can return with no cancelling of the context. Whatever time the loop
-- reads and whatever the calls of its turn give, there are steps to the state in which the loop has
-- ended the turn that it is in and left at its `select`, and the call has seen the flag: one call
-- has returned there, none waits, and the context is as it was (nothing undoes a cancelling).
pub stop_can_return :
    (p : GridProver) (s : Run) (now : ℤ) (r : Round)
    → p.doned ≡ false
    → Steps (fresh_run p) s
    → s.loop ≢ not_started
    → 0 < s.waiting
    → Steps s (poll_stop (wind_up now r s.loop s))
      × ((poll_stop (wind_up now r s.loop s)).stopped ≡ 1)
      × ((poll_stop (wind_up now r s.loop s)).waiting ≡ 0)
      × ((poll_stop (wind_up now r s.loop s)).cancelled ≡ s.cancelled)
stop_can_return p s now r fresh before started waits =
    let known = Steps-IsRun before (fresh-IsRun p fresh) in
    started-Returns now r s.loop s known waits (waits-closed s known waits) started refl
