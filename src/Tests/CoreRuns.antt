-- ===== src/Tests/CoreRuns.antt =====
-- core/: the properties of `Step` and `RetryDelay` at concrete inputs.
use gangline.Prelude.{◌≡◌, refl, some, List, [], ◌∷◌, arith}
use gangline.Core.Types.{
  Agent, Event, Status, hitch_spawned, hitch_ready, capacity_detected, compaction_requested,
  input_started, capacity_submitted,
}
use gangline.Core.Retry.{retry_delay, retry_delay_lem}
use gangline.Core.Step.{step, run}
use gangline.Core.Step.Lifecycle.{Moves, Some, step-Moves, active_needs_ready}
use gangline.Core.Step.Requests.{Keeps, step-Keeps}
use gangline.Core.Step.Input.{KeepsInput, step-KeepsInput}
use gangline.Core.Step.Retries.{GoesOn, run-GoesOn}
use gangline.Tests.Samples.{agent, request, event}

retry_delay_lem_example : retry_delay 9 ≡ 30_000_000_000
retry_delay_lem_example = retry_delay_lem 9

abbrev boots : List Event
boots = event hitch_spawned 10 "" ∷ event hitch_ready 20 "" ∷ []

step-Moves_example :
    Moves agent (event hitch_spawned 10 "") (step agent (event hitch_spawned 10 "")).0.status
step-Moves_example = step-Moves agent (event hitch_spawned 10 "")

boots-active : (run agent boots).status ≡ Status.active
unfolding run step
boots-active = refl

active_needs_ready_example : Some (λ e. e.type ≡ hitch_ready) boots
active_needs_ready_example = active_needs_ready agent boots (λ h. cc) boots-active

abbrev compacting : Agent
compacting = record agent { compaction = some request }

abbrev second_request : Event
second_request = record (event compaction_requested 20 "c2") {
  compaction = some (record request { id = "c2" });
}

step-Keeps_example : Keeps request second_request (step compacting second_request).0.compaction
step-Keeps_example = step-Keeps request compacting second_request refl refl

abbrev typing : Agent
typing = record agent { input = some (record { id = "e1"; kind = "envelope"; at = 5 }) }

abbrev second_input : Event
second_input = event input_started 20 "e2"

step-KeepsInput_example :
    KeepsInput typing
      (record { id = "e1"; kind = "envelope"; at = 5 })
      second_input
      (step typing second_input).0.input
step-KeepsInput_example =
    step-KeepsInput (record { id = "e1"; kind = "envelope"; at = 5 }) typing second_input refl

abbrev failing : Agent
failing = record agent {
  capacity = record agent.capacity { deadline = 500; fingerprint = "f0"; attempts = 2 };
}

abbrev retries : List Event
retries = event capacity_detected 30 "" ∷ event capacity_submitted 31 "" ∷ []

run-GoesOn_example : GoesOn failing.capacity (run failing retries).capacity
run-GoesOn_example = run-GoesOn failing retries (omega arith) ((λ h. cc), ((λ h. cc), tt))
