-- ===== src/Core/Step/Identity.antt =====
-- core/step.go: what no event changes.
use gangline.Prelude.{
  ◌≡◌, ◌∙◌, String, List, [], ◌∷◌, refl, Option, arith, Bool-cases, inl, inr, if◌then◌else◌,
}
use gangline.Core.Types.{
  Time, ResultRef, PaneRegistration, ProcessIdentity, Compaction, Agent, Event, EventType,
  hitch_spawned, deadline_checked,
}
use gangline.Core.Step.{
  Outcome, ignore, change, is_dropping, step, run, dispatch, check_boot, check_interrupt,
  check_compaction, check_deadlines,
}
use gangline.Core.Step.Rule.{Falls, step_rule}

-- the hitch that an agent is, how it was launched, and its receipts
pub record Hitch : Type 0 where
  pub id : String
  pub name : String
  pub collar : String
  pub hitched_by : String
  pub directory : String
  pub created_at : Time
  pub registration : PaneRegistration
  pub process : ProcessIdentity
  pub last_accepted : String
  pub last_delivered : String
  pub last_failed : String
  pub cleanup : Option ResultRef

abbrev hitch_of : Agent → Hitch
hitch_of a = record {
  id = a.id;
  name = a.name;
  collar = a.collar;
  hitched_by = a.hitched_by;
  directory = a.directory;
  created_at = a.created_at;
  registration = a.registration;
  process = a.process;
  last_accepted = a.last_accepted;
  last_delivered = a.last_delivered;
  last_failed = a.last_failed;
  cleanup = a.cleanup;
}

hitch_of-check_boot : (a : Agent) (e : Event) → hitch_of (check_boot a e) ≡ hitch_of a
unfolding check_boot
hitch_of-check_boot a e = ground arith

hitch_of-check_interrupt : (a : Agent) (e : Event) → hitch_of (check_interrupt a e) ≡ hitch_of a
unfolding check_interrupt
hitch_of-check_interrupt a e = ground arith

hitch_of-check_compaction :
    (c : Option Compaction) (a : Agent) (e : Event) → hitch_of (check_compaction c a e) ≡ hitch_of a
unfolding check_compaction
hitch_of-check_compaction c a e = ground arith

hitch_of-check_deadlines : (a : Agent) (e : Event) → hitch_of (check_deadlines a e) ≡ hitch_of a
unfolding check_deadlines
hitch_of-check_deadlines a e =
    hitch_of-check_compaction a.compaction (check_interrupt (check_boot a e) e) e
    ∙ hitch_of-check_interrupt (check_boot a e) e
    ∙ hitch_of-check_boot a e

KeepsHitch : Agent → Outcome → Type 0
KeepsHitch a = Falls (λ b. hitch_of b ≡ hitch_of a)

dispatch-deadlines :
    (a : Agent) (e : Event)
    → KeepsHitch a (if is_dropping a.status then ignore else change (check_deadlines a e))
unfolding KeepsHitch
dispatch-deadlines a e = elim (Bool-cases (is_dropping a.status)) [
  | inl yes' ↦ rw yes' tt
  | inr no' ↦ rw no' (hitch_of-check_deadlines a e)
]

dispatch-Hitch : (t : EventType) (a : Agent) (e : Event) → KeepsHitch a (dispatch t a e)
unfolding step KeepsHitch
dispatch-Hitch hitch_spawned a e = refl
dispatch-Hitch deadline_checked a e = dispatch-deadlines a e
dispatch-Hitch _ a e = ground arith

step-Hitch : (a : Agent) (e : Event) → hitch_of (step a e).0 ≡ hitch_of a
unfolding KeepsHitch
step-Hitch a e =
    step_rule (λ b. hitch_of b ≡ hitch_of a) a e refl (λ b h. h) (dispatch-Hitch e.type a e)

-- After any events, in any order, the agent is the same hitch: its identity, name, collar,
-- directory, registration, process and mail receipts are those it had before.
run-Hitch : (a : Agent) (es : List Event) → hitch_of (run a es) ≡ hitch_of a
unfolding run
run-Hitch a [] = refl
run-Hitch a (e ∷ es) = run-Hitch (step a e).0 es ∙ step-Hitch a e
