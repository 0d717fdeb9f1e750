-- ===== src/Core/Step/Retries.antt =====
-- core/step.go and core/agent.go: retries after a provider capacity failure.
use gangline.Prelude.{
  ◌≡◌, ◌≢◌, ◌<◌, ◌≤◌, ◌+◌, List, [], ◌∷◌, refl, arith, All, false, min, ◌*◌, ◌^◌, eq_iff,
}
use gangline.Core.Types.{
  Agent, Event, EventType, Capacity, hitch_spawned, capacity_detected, capacity_cleared,
  deadline_checked,
}
use gangline.Core.Retry.{first_delay, longest_delay, retry_delay_lem}
use gangline.Core.Step.{
  step, run, dispatch, check_boot, check_interrupt, check_compaction, check_deadlines,
  note_capacity, detect_capacity, finish,
}
use gangline.Core.Step.Rule.{Falls, step_rule, Falls-deadlines, step_own}

-- The recovery that `c` began goes on in `d`: same deadline, and no attempt is forgotten.
pub record GoesOn (c d : Capacity) : Type 0 where
  pub deadline : d.deadline ≡ c.deadline
  pub attempts : c.attempts ≤ d.attempts

capacity-check_deadlines : (a : Agent) (e : Event) → (check_deadlines a e).capacity ≡ a.capacity
unfolding check_deadlines check_boot check_interrupt check_compaction
capacity-check_deadlines a e = ground arith

dispatch-GoesOn :
    (t : EventType) (a : Agent) (e : Event)
    → 0 < a.capacity.deadline
    → t ≢ capacity_cleared
    → Falls (λ b. GoesOn a.capacity b.capacity) (dispatch t a e)
unfolding step
dispatch-GoesOn hitch_spawned a e h n = ground arith
dispatch-GoesOn deadline_checked a e h n =
    Falls-deadlines (λ b. GoesOn a.capacity b.capacity) a e
      (rw capacity-check_deadlines (ground arith))
dispatch-GoesOn capacity_cleared a e h n = absurd (n refl)
dispatch-GoesOn _ a e h n = ground arith

step-GoesOn :
    (a : Agent) (e : Event)
    → 0 < a.capacity.deadline
    → e.type ≢ capacity_cleared
    → GoesOn a.capacity (step a e).0.capacity
step-GoesOn a e h n =
    step_rule (λ b. GoesOn a.capacity b.capacity) a e (ground arith) (λ b k. k)
      (dispatch-GoesOn e.type a e h n)

-- A capacity recovery keeps the deadline that its first detection set, and never counts an attempt
-- away, through any events without `capacity_cleared`.
pub run-GoesOn :
    (a : Agent) (es : List Event)
    → 0 < a.capacity.deadline
    → All (λ e. e.type ≢ capacity_cleared) es
    → GoesOn a.capacity (run a es).capacity
unfolding run
run-GoesOn a [] h n = ground arith
run-GoesOn a (e ∷ es) h (n, ns) =
    let s = step-GoesOn a e h n in
    let r = run-GoesOn (step a e).0 es (omega arith) ns in omega (arith, s, r)

-- A failure with a new fingerprint is retried after 100 ms doubled once for each attempt so far, at
-- most 30 s after the event, and its continuation has not been submitted.
detected-next_at :
    (a : Agent) (e : Event)
    → e.type ≡ capacity_detected
    → e.hitch_id ≡ a.id
    → 0 < e.at
    → a.capacity.fingerprint ≢ e.fingerprint
    → let c = (step a e).0.capacity in
      (c.fingerprint ≡ e.fingerprint)
      × (c.next_at ≡ e.at + min (first_delay * 2 ^ a.capacity.attempts) longest_delay)
      × (c.submitted ≡ false)
detected-next_at a e t own timed new = rw (step_own a e capacity_detected t own timed) (
    unfold dispatch finish note_capacity detect_capacity in
    ground
      (arith, eq_iff a.capacity.fingerprint e.fingerprint, retry_delay_lem a.capacity.attempts))
