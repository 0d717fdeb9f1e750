-- ===== src/Core/Step/Rule.antt =====
-- core/step.go: how a fact about every case of the `switch` becomes a fact about `Step`.
use gangline.Prelude.{
  ◌≡◌, inl, inr, true, false, not, ◌||◌, refl, ◌==◌, Bool, Bool-cases, String, Option, none, some,
  arith, eq_iff, ◌<◌, false, if◌then◌else◌,
}
use gangline.Core.Types.{Agent, Compaction, Event, EventType, is_zero}
use gangline.Core.Step.{
  Outcome, reject, ignore, change, step, dispatch, finish, is_dropping, check_deadlines,
  on_compaction,
}

-- `P` holds of the agent that a case falls through with.
abbrev pub Falls : (Agent → Type 0) → Outcome → Type 0
Falls P (reject r) = Unit
Falls P ignore = Unit
Falls P (change b) = P b

module _ (P : Agent → Type 0) (a : Agent) (e : Event) where
  finish-Falls :
      (o : Outcome)
      → P a
      → ((b : Agent) → P b → P (record b { changed_at = e.at }))
      → Falls P o
      → P (finish o a e).0
  unfolding finish
  finish-Falls (reject r) h stamp f = h
  finish-Falls ignore h stamp f = h
  finish-Falls (change b) h stamp f = stamp b f

  -- What holds of the agent, survives the time stamp and holds where a case falls through holds
  -- after the step.
  pub step_rule :
      P a
      → ((b : Agent) → P b → P (record b { changed_at = e.at }))
      → Falls P (dispatch e.type a e)
      → P (step a e).0
  unfolding step
  step_rule h stamp f = choose (not (e.hitch_id == a.id) || is_zero e.at)
    where
      choose :
          (foreign : Bool)
          → P
              (if foreign
                then finish (reject "event does not identify this agent and its time") a e
                else finish (dispatch e.type a e) a e).0
      choose true = h
      choose false = finish-Falls (dispatch e.type a e) h stamp f

-- The case `deadline_checked` falls through unless the agent is dropping.
pub Falls-deadlines :
    (P : Agent → Type 0) (a : Agent) (e : Event)
    → P (check_deadlines a e)
    → Falls P (if is_dropping a.status then ignore else change (check_deadlines a e))
Falls-deadlines P a e h = elim (Bool-cases (is_dropping a.status)) [
  | inl drops ↦ rw drops tt
  | inr stays ↦ rw stays h
]

-- A case for one compaction runs only for the compaction that the event names.
pub Falls-on_compaction :
    (P : Agent → Type 0) (o : Option Compaction) (id : String) (found : Compaction → Outcome)
    (missing : Outcome)
    → ((c : Compaction) → o ≡ some c → c.id ≡ id → Falls P (found c))
    → Falls P missing
    → Falls P (on_compaction o id found missing)
unfolding on_compaction
Falls-on_compaction P none id found missing f m = m
Falls-on_compaction P (some c) id found missing f m = elim (Bool-cases (c.id == id)) [
  | inl same ↦ rw same (f c refl ((eq_iff c.id id).0 same))
  | inr differs ↦ rw differs m
]

-- An event of the agent itself, with a time, runs the case of its type.
pub step_own :
    (a : Agent) (e : Event) (t : EventType)
    → e.type ≡ t
    → e.hitch_id ≡ a.id
    → 0 < e.at
    → step a e ≡ finish (dispatch t a e) a e
unfolding step
step_own a e t is_t own timed =
    let same : e.hitch_id == a.id ≡ true = (eq_iff e.hitch_id a.id).1 own in
    let set : is_zero e.at ≡ false = ground arith in rw (same, set, ← is_t)
