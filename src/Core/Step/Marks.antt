-- ===== src/Core/Step/Marks.antt =====
-- core/step.go: what an event does to the identity of the compaction and to the admission of its continuation.
use gangline.Prelude.{
  ℕ, suc, ◌+◌, ◌≤◌, String, ◌≡◌, ◌==◌, Bool, not, ◌&&◌, Option, none, some, List, [], ◌∷◌,
  if◌then◌else◌, arith,
}
use gangline.Core.Types.{
  Agent, Event, EventType, Compaction, compaction_cancelled, deadline_checked,
}
use gangline.Core.Step.{
  step, dispatch, check_boot, check_interrupt, check_compaction, check_deadlines,
}
use gangline.Core.Step.Rule.{Falls, step_rule, Falls-deadlines, Falls-on_compaction}

-- A compaction, as its identity and whether its continuation has been admitted.
abbrev pub mark_of : Option Compaction → Option (String × Bool)
mark_of none = none
mark_of (some c) = some (c.id, c.resume_admitted)

-- How often an identity is in a list.
unfoldable pub times : String → List String → ℕ
times id [] = 0
times id (x ∷ xs) = let rest = times id xs in if x == id then suc rest else rest

-- One admission is left for a compaction of this identity.
abbrev pub room : String → Option (String × Bool) → ℕ
room id none = 0
room id (some (x, admitted)) = if x == id && not admitted then 1 else 0

-- the identities with that of a compaction that is requested
abbrev pub asked : Option Compaction → List String → List String
asked none ids = ids
asked (some c) ids = c.id ∷ ids

pub times-asked :
    (id : String) (o : Option Compaction) (ids : List String)
    → times id (asked o ids) ≡ times id (asked o []) + times id ids
unfolding times
times-asked id none ids = omega arith
times-asked id (some c) ids = ground arith

module _ (id : String) (a : Agent) (e : Event) where
  -- What may be let through after an event could be before it, or is requested by it.
  abbrev pub Bounded : Agent → Type 0
  Bounded b =
      room id (mark_of b.compaction)
      ≤ room id (mark_of a.compaction) + times id (asked e.compaction [])

  check_deadlines-Bounded : Bounded (check_deadlines a e)
  unfolding check_deadlines check_boot check_interrupt check_compaction
  check_deadlines-Bounded = ground arith

  dispatch-Bounded : (t : EventType) → Falls Bounded (dispatch t a e)
  unfolding step times
  dispatch-Bounded compaction_cancelled =
      Falls-on_compaction Bounded a.compaction e.id _ _ (λ d is_d named. ground arith) (omega arith)
  dispatch-Bounded deadline_checked = Falls-deadlines Bounded a e check_deadlines-Bounded
  dispatch-Bounded _ = ground arith

  pub step-Bounded : Bounded (step a e).0
  step-Bounded = step_rule Bounded a e (omega arith) (λ b h. h) (dispatch-Bounded e.type)
