-- ===== src/Core/Step/Input.antt =====
-- core/step.go: one input at a time, and the times of native turns.
use gangline.Prelude.{
  ◌≡◌, ◌⊎◌, inl, inr, refl, arith, Bool-cases, Option, none, some, eq_iff, ◌==◌, ◌∙◌,
}
use gangline.Core.Types.{
  Agent, Event, EventType, InputIntent, Compaction, hitch_spawned, compaction_submitted,
  compaction_failed, compaction_unverified, deadline_checked, input_finished,
}
use gangline.Core.Step.{
  step, dispatch, check_boot, check_interrupt, check_compaction, check_deadlines, input_result,
  finish_input,
}
use gangline.Core.Step.Rule.{Falls, step_rule, Falls-deadlines, Falls-on_compaction}

-- The agent's compaction is the one that `e` names.
abbrev pub Names : Option Compaction → Event → Type 0
Names none e = ⊥
Names (some c) e = c.id ≡ e.id

-- Why the input in progress `i` ends.
pub data Ends (a : Agent) (i : InputIntent) (e : Event) : Type 0 where
  result : e.type ≡ input_finished → i.id ≡ e.id → Ends a i e
  submitted : e.type ≡ compaction_submitted → Names a.compaction e → Ends a i e
  failed : e.type ≡ compaction_failed → Names a.compaction e → Ends a i e
  unverified : e.type ≡ compaction_unverified → Names a.compaction e → Ends a i e

abbrev pub KeepsInput : Agent → InputIntent → Event → Option InputIntent → Type 0
KeepsInput a i e o = (o ≡ some i) ⊎ ((o ≡ none) × Ends a i e)

input-check_deadlines : (a : Agent) (e : Event) → (check_deadlines a e).input ≡ a.input
unfolding check_deadlines check_boot check_interrupt check_compaction
input-check_deadlines a e = ground arith

module _ (i : InputIntent) (a : Agent) (e : Event) (has : a.input ≡ some i) where
  input-finish_input : (finish_input a e).input ≡ none
  unfolding finish_input
  input-finish_input = ground arith

  result-KeepsInput :
      (o : Option InputIntent)
      → o ≡ some i
      → e.type ≡ input_finished
      → Falls (λ b. KeepsInput a i e b.input) (input_result o a e)
  unfolding input_result
  result-KeepsInput none is_i h = cc
  result-KeepsInput (some j) is_i h = elim (Bool-cases (j.id == e.id)) [
    | inl same ↦
        let same_id : i.id ≡ e.id = ground (arith, eq_iff j.id e.id) in
        rw same (inr (input-finish_input, result h same_id))
    | inr differs ↦ rw differs tt
  ]

  dispatch-KeepsInput :
      (t : EventType) → e.type ≡ t → Falls (λ b. KeepsInput a i e b.input) (dispatch t a e)
  unfolding step
  dispatch-KeepsInput hitch_spawned h = ground arith
  dispatch-KeepsInput input_finished h = result-KeepsInput a.input has h
  dispatch-KeepsInput compaction_submitted h =
      Falls-on_compaction (λ b. KeepsInput a i e b.input) a.compaction e.id _ _
        (λ c is_c named. inr (refl, submitted h (rw is_c named))) tt
  dispatch-KeepsInput compaction_failed h =
      Falls-on_compaction (λ b. KeepsInput a i e b.input) a.compaction e.id _ _
        (λ c is_c named. inr (refl, failed h (rw is_c named))) tt
  dispatch-KeepsInput compaction_unverified h =
      Falls-on_compaction (λ b. KeepsInput a i e b.input) a.compaction e.id _ _
        (λ c is_c named. inr (refl, unverified h (rw is_c named))) tt
  dispatch-KeepsInput deadline_checked h =
      Falls-deadlines (λ b. KeepsInput a i e b.input) a e (inl (input-check_deadlines a e ∙ has))
  dispatch-KeepsInput _ h = ground arith

  -- An input in progress is never replaced: an event keeps it, or ends it by the result for its own
  -- identity, or by the submission, failure or unverified outcome of the agent's compaction.
  pub step-KeepsInput : KeepsInput a i e (step a e).0.input
  step-KeepsInput =
      step_rule (λ b. KeepsInput a i e b.input) a e (inl has) (λ b h. h)
        (dispatch-KeepsInput e.type refl)
