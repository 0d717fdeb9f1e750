-- ===== src/Core/Step/Turns.antt =====
-- core/step.go: interrupts, the times of native turns, and deadline checks.
use gangline.Prelude.{
  ◌≡◌, ◌<◌, ◌≤◌, inl, inr, List, [], ◌∷◌, refl, arith, true, false, Bool-cases, Option, none, some,
  sym, ◌∙◌, String, ap,
}
use native.Mathlib.Nat.{le_trans, le_refl}
use gangline.Core.Types.{
  Agent, Event, EventType, Compaction, hitch_spawned, Time, interrupt_requested, deadline_checked,
}
use gangline.Core.Step.{
  step, run, dispatch, check_boot, check_interrupt, check_compaction, check_deadlines, interrupt,
  boot_due, interrupt_due, compaction_due, is_dropping, finish,
}
use gangline.Core.Step.Rule.{Falls, step_rule, Falls-deadlines, step_own}

finished-check_deadlines :
    (a : Agent) (e : Event) → (check_deadlines a e).native.finished_at ≡ a.native.finished_at
unfolding check_deadlines check_boot check_interrupt check_compaction
finished-check_deadlines a e = ground arith

dispatch-finished_le :
    (t : EventType) (a : Agent) (e : Event)
    → Falls (λ b. a.native.finished_at ≤ b.native.finished_at) (dispatch t a e)
unfolding step
dispatch-finished_le hitch_spawned a e = omega arith
dispatch-finished_le deadline_checked a e =
    Falls-deadlines (λ b. a.native.finished_at ≤ b.native.finished_at) a e
      (rw finished-check_deadlines (le_refl _))
dispatch-finished_le _ a e = ground arith

finished-le-step : (a : Agent) (e : Event) → a.native.finished_at ≤ (step a e).0.native.finished_at
finished-le-step a e =
    step_rule (λ b. a.native.finished_at ≤ b.native.finished_at) a e (le_refl _) (λ b h. h)
      (dispatch-finished_le e.type a e)

-- The time at which the native turn was last seen to finish never goes back, whatever the events.
finished-le-run :
    (a : Agent) (es : List Event) → a.native.finished_at ≤ (run a es).native.finished_at
unfolding run
finished-le-run a [] = le_refl _
finished-le-run a (e ∷ es) = le_trans (finished-le-step a e) (finished-le-run (step a e).0 es)

-- Interrupts of the agent `id`, each sent before the deadline of the one before it.
abbrev pub Repeats : String → Time → List Event → Type 0
Repeats id deadline [] = Unit
Repeats id deadline (e ∷ es) =
    (e.type ≡ interrupt_requested)
    × (e.hitch_id ≡ id)
    × (0 < e.at)
    × (e.at < deadline)
    × Repeats id e.deadline es

record Interrupted (a b : Agent) (until : Time) : Type 0 where
  id : b.id ≡ a.id
  first : b.interrupt_at ≡ a.interrupt_at
  deadline : b.interrupt_deadline ≡ until

interrupt_again :
    (a : Agent) (e : Event)
    → 0 < a.interrupt_at
    → e.type ≡ interrupt_requested
    → e.hitch_id ≡ a.id
    → 0 < e.at
    → e.at < a.interrupt_deadline
    → Interrupted a (step a e).0 e.deadline
interrupt_again a e pending t same at early =
    rw (step_own a e interrupt_requested t same at)
      (unfold dispatch finish interrupt in ground arith)

-- Repeating an interrupt before the deadline of the last keeps the time of the first.
interrupt_at-run :
    (a : Agent) (es : List Event)
    → 0 < a.interrupt_at
    → Repeats a.id a.interrupt_deadline es
    → (run a es).interrupt_at ≡ a.interrupt_at
unfolding run
interrupt_at-run a [] pending r = refl
interrupt_at-run a (e ∷ es) pending (t, same, at, early, rest) =
    let i = interrupt_again a e pending t same at early in
    interrupt_at-run (step a e).0 es (omega (arith, i.first)) (rw (i.id, i.deadline) rest) ∙ i.first

-- No deadline of `a` is due at the time of `e`.
record Settled (a : Agent) (e : Event) : Type 0 where
  boot : boot_due a e ≡ false
  interrupt : interrupt_due a e ≡ false
  compaction : compaction_due a.compaction e ≡ false

check_deadlines-Settled : (a : Agent) (e : Event) → Settled (check_deadlines a e) e
unfolding check_deadlines check_boot check_interrupt check_compaction
check_deadlines-Settled a e = record {
  boot = ground arith;
  interrupt = ground arith;
  compaction = ground arith;
}

check_boot_idle : (a : Agent) (e : Event) → boot_due a e ≡ false → check_boot a e ≡ a
unfolding check_boot
check_boot_idle a e h = rw h

check_interrupt_idle : (a : Agent) (e : Event) → interrupt_due a e ≡ false → check_interrupt a e ≡ a
unfolding check_interrupt
check_interrupt_idle a e h = rw h

check_compaction_idle :
    (o : Option Compaction) (a : Agent) (e : Event)
    → compaction_due o e ≡ false
    → check_compaction o a e ≡ a
unfolding check_compaction
check_compaction_idle none a e h = refl
check_compaction_idle (some c) a e h = rw h

check-Settled : (a : Agent) (e : Event) → Settled a e → check_deadlines a e ≡ a
unfolding check_deadlines
check-Settled a e s =
    rw (check_boot_idle a e s.boot, check_interrupt_idle a e s.interrupt)
      (check_compaction_idle a.compaction a e s.compaction)

-- the agent after a deadline check that is not skipped
checked : Agent → Event → Agent
checked a e = record (check_deadlines a e) { changed_at = e.at }

checked_twice : (a : Agent) (e : Event) → checked (checked a e) e ≡ checked a e
unfolding checked
checked_twice a e =
    let s = check_deadlines-Settled a e in
    ap (λ (b : Agent). record b { changed_at = e.at })
      (check-Settled (record (check_deadlines a e) { changed_at = e.at }) e
        (record { boot = s.boot; interrupt = s.interrupt; compaction = s.compaction }))

checked_kept :
    (a : Agent) (e : Event)
    → is_dropping a.status ≡ false
    → ((checked a e).id ≡ a.id) × (is_dropping (checked a e).status ≡ false)
unfolding checked check_deadlines check_boot check_interrupt check_compaction
checked_kept a e h = (ground arith, ground arith)

module _ (a : Agent) (e : Event) (t : e.type ≡ deadline_checked) (timed : 0 < e.at) where
  dropping_step : e.hitch_id ≡ a.id → is_dropping a.status ≡ true → (step a e).0 ≡ a
  unfolding dispatch finish
  dropping_step own h = rw (step_own a e deadline_checked t own timed) (rw h)

  checked-step : e.hitch_id ≡ a.id → is_dropping a.status ≡ false → (step a e).0 ≡ checked a e
  unfolding dispatch finish checked
  checked-step own h = rw (step_own a e deadline_checked t own timed) (rw h)

-- Checking the deadlines of an agent a second time at the same moment changes nothing.
deadline_check_idem :
    (a : Agent) (e : Event)
    → e.type ≡ deadline_checked
    → 0 < e.at
    → e.hitch_id ≡ a.id
    → (step (step a e).0 e).0 ≡ (step a e).0
deadline_check_idem a e t timed own = elim (Bool-cases (is_dropping a.status)) [
  | inl drops ↦ let once = dropping_step a e t timed own drops in rw once once
  | inr stays ↦
      let kept = checked_kept a e stays in
      let twice = checked-step (checked a e) e t timed (own ∙ sym kept.0) kept.1 in
      rw (checked-step a e t timed own stays) (twice ∙ checked_twice a e)
]
