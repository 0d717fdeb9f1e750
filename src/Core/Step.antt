-- ===== src/Core/Step.antt =====
-- core/step.go: `Step`. The `switch` is `dispatch`, with one function for each group of its cases.
-- The copy of `agent.Compaction` that Go makes first is implicit here: values are not shared.
pub mod Rule
pub mod Identity
pub mod Lifecycle
pub mod Requests
pub mod Input
pub mod Turns
pub mod Retries
pub mod Marks
use gangline.Prelude.{
  ◌+◌, String, Bool, true, false, not, ◌&&◌, ◌||◌, Option, none, some, List, [], ◌∷◌, concat, ltb,
  ◌==◌, if◌then◌else◌, is_some,
}
use gangline.Core.Retry.{retry_delay}
use gangline.Core.Types.{
  Time, is_zero, Status, starting, booting, active, dropping, failed, Activity, CompactionStatus,
  Compaction, InputIntent, Capacity, Agent, Event, EventType, Effect, hitch_spawned, hitch_ready,
  hitch_blocked, boot_reopened, hitch_failed, activity_observed, input_started, input_finished,
  compaction_requested, compaction_waiting, compaction_cancelled, compaction_submitted,
  compaction_completed, compaction_failed, compaction_unverified, interrupt_requested,
  interrupt_completed, drop_started, capacity_detected, capacity_submitted, capacity_cleared,
  deadline_checked,
}

-- core.BootDeadlineElapsed
abbrev pub boot_deadline_elapsed : String
boot_deadline_elapsed = "boot deadline elapsed"

-- core.CompactionUnconfirmed
abbrev pub compaction_unconfirmed : String
compaction_unconfirmed = "native compaction completion unconfirmed; queued continuation may run"

-- How a case of the `switch` ends: a return with a rejection, a return of the agent as it was, or
-- a fall through to the assignment of `ChangedAt`.
pub data Outcome : Type 0 where
  reject : String → Outcome
  ignore : Outcome
  change : Agent → Outcome

-- !at.Before(deadline)
abbrev pub reached : Time → Time → Bool
reached at deadline = not (ltb at deadline)

abbrev pub is_starting : Status → Bool
is_starting starting = true
is_starting _ = false

abbrev pub is_booting : Status → Bool
is_booting booting = true
is_booting _ = false

abbrev pub is_active : Status → Bool
is_active active = true
is_active _ = false

abbrev pub is_dropping : Status → Bool
is_dropping dropping = true
is_dropping _ = false

abbrev pub is_failed : Status → Bool
is_failed failed = true
is_failed _ = false

abbrev pub is_interrupting : Activity → Bool
is_interrupting Activity.interrupting = true
is_interrupting _ = false

abbrev pub is_queued : CompactionStatus → Bool
is_queued CompactionStatus.queued = true
is_queued _ = false

abbrev pub is_submitted : CompactionStatus → Bool
is_submitted CompactionStatus.submitted = true
is_submitted _ = false

abbrev pub is_completed : CompactionStatus → Bool
is_completed CompactionStatus.completed = true
is_completed _ = false

reopen : Agent → Event → Outcome
reopen a e =
    if not (is_failed a.status) || not (a.evidence == boot_deadline_elapsed) || is_zero e.deadline
    then reject "only an agent failed by its boot deadline can resume startup"
    else change (record a {
      status = booting;
      activity = Activity.unknown;
      evidence = "";
      boot_deadline = e.deadline;
    })

start_input : Agent → Event → Outcome
start_input a e =
    if is_some a.input
    then reject "input already in progress"
    else change (record a { input = some (record { id = e.id; kind = e.status; at = e.at }) })

finish_input : Agent → Event → Agent
finish_input a e =
    if e.status == "delivered"
    then record a {
      input = none;
      activity = Activity.busy;
      native = record a.native { submitted_at = e.at };
    }
    else if e.status == "accepted"
    then record a { input = none; activity = Activity.busy; evidence = e.reason }
    else if e.status == "unverified"
    then record a {
      input = none;
      activity = Activity.unknown;
      evidence = concat "input submission unverified: " e.reason;
    }
    else record a { input = none }

input_result : Option InputIntent → Agent → Event → Outcome
input_result none a e = reject "input result has no matching intent"
input_result (some i) a e =
    if i.id == e.id then change (finish_input a e) else reject "input result has no matching intent"

-- a compaction that still waits for its completion or its continuation
abbrev pub is_pending : Compaction → Bool
is_pending c =
    is_queued c.status || is_submitted c.status || is_completed c.status && not c.continuation

blocks_request : Option Compaction → Bool
blocks_request none = false
blocks_request (some c) = is_pending c

request_compaction : Option Compaction → Agent → Event → Outcome
request_compaction none a e = reject "compaction is required"
request_compaction (some c) a e = change (record a { compaction = some c })

-- the cases for one compaction, found by its identity
pub on_compaction : Option Compaction → String → (Compaction → Outcome) → Outcome → Outcome
on_compaction none id found missing = missing
on_compaction (some c) id found missing = if c.id == id then found c else missing

interrupt : Agent → Event → Agent
interrupt a e =
    let first =
      if is_zero a.interrupt_at || reached e.at a.interrupt_deadline
      then e.at
      else a.interrupt_at in
    record a {
      interrupt_at = first;
      activity = Activity.interrupting;
      interrupt_deadline = e.deadline;
    }

finish_interrupt : Agent → Event → Agent
finish_interrupt a e = record a {
  activity = Activity.idle;
  interrupt_deadline = 0;
  interrupt_at = 0;
  native =
      if ltb a.native.finished_at e.at then record a.native { finished_at = e.at } else a.native;
}

note_capacity : Capacity → Event → Capacity
note_capacity c e = if c.fingerprint == e.fingerprint then c else record c {
  deadline = if is_zero c.deadline then e.deadline else c.deadline;
  fingerprint = e.fingerprint;
  evidence = e.reason;
  next_at = e.at + retry_delay c.attempts;
  submitted = false;
}

detect_capacity : Agent → Event → Agent
detect_capacity a e =
    let c = note_capacity a.capacity e in
    if reached e.at c.deadline && not (a.last_failed == concat "capacity-" c.fingerprint)
    then record a {
      capacity = c;
      activity = Activity.wedged;
      evidence = "provider capacity recovery deadline elapsed";
    }
    else record a { capacity = c }

-- Capacity{}
abbrev pub no_capacity : Capacity
no_capacity = record {
  fingerprint = "";
  evidence = "";
  deadline = 0;
  next_at = 0;
  attempts = 0;
  submitted = false;
}

abbrev pub boot_due : Agent → Event → Bool
boot_due a e =
    not (is_zero a.boot_deadline)
    && (reached e.at a.boot_deadline && (is_starting a.status || is_booting a.status))

check_boot : Agent → Event → Agent
check_boot a e =
    if boot_due a e then record a { status = failed; evidence = boot_deadline_elapsed } else a

abbrev pub interrupt_due : Agent → Event → Bool
interrupt_due a e =
    is_interrupting a.activity
    && (not (is_zero a.interrupt_deadline) && reached e.at a.interrupt_deadline)

check_interrupt : Agent → Event → Agent
check_interrupt a e =
    if interrupt_due a e
    then record a { activity = Activity.wedged; evidence = "interrupt deadline elapsed" }
    else a

abbrev pub compaction_due : Option Compaction → Event → Bool
compaction_due none e = false
compaction_due (some c) e = is_submitted c.status && reached e.at c.deadline

check_compaction : Option Compaction → Agent → Event → Agent
check_compaction none a e = a
check_compaction (some c) a e =
    if compaction_due (some c) e
    then record a {
      compaction =
          some (record c { status = CompactionStatus.unverified; reason = compaction_unconfirmed });
      activity = Activity.unknown;
      evidence = compaction_unconfirmed;
    }
    else a

pub check_deadlines : Agent → Event → Agent
check_deadlines a e = check_compaction a.compaction (check_interrupt (check_boot a e) e) e

pub dispatch : EventType → Agent → Event → Outcome
dispatch hitch_spawned a e = change (record a { pane = e.pane; status = booting })
dispatch hitch_ready a e =
    change (record a { status = active; activity = Activity.idle; boot_deadline = 0 })
dispatch hitch_blocked a e = change (record a {
  startup_prompt_noticed_at = 0;
  activity = Activity.blocked;
  evidence = e.reason;
  boot_deadline = 0;
})
dispatch boot_reopened a e = reopen a e
dispatch hitch_failed a e =
    change (record a { status = failed; activity = Activity.unknown; evidence = e.reason })
dispatch activity_observed a e =
    change
      (if is_active a.status then record a { activity = e.activity; evidence = e.reason } else a)
dispatch input_started a e = start_input a e
dispatch input_finished a e = input_result a.input a e
dispatch compaction_requested a e =
    if blocks_request a.compaction
    then reject "compaction already pending"
    else request_compaction e.compaction a e
dispatch compaction_waiting a e =
    on_compaction a.compaction e.id
      (λ c.
        if is_queued c.status
        then change (record a { compaction = some (record c { reason = e.reason }) })
        else ignore)
      ignore
dispatch compaction_cancelled a e =
    on_compaction a.compaction e.id
      (λ c. change (if is_queued c.status then record a { compaction = none } else a)) (change a)
dispatch compaction_submitted a e =
    on_compaction a.compaction e.id
      (λ c. change (record a {
        compaction = some (record c { status = CompactionStatus.submitted });
        activity = Activity.compacting;
        input = none;
      }))
      ignore
dispatch compaction_completed a e =
    on_compaction a.compaction e.id
      (λ c. change (record a {
        compaction = some (record c { status = CompactionStatus.completed; reason = "" });
        activity = Activity.idle;
        evidence = "";
      }))
      ignore
dispatch compaction_failed a e =
    on_compaction a.compaction e.id
      (λ c. change (record a {
        compaction = some (record c { status = CompactionStatus.failed; reason = e.reason });
        activity = Activity.unknown;
        evidence = e.reason;
        input = none;
      }))
      ignore
dispatch compaction_unverified a e =
    on_compaction a.compaction e.id
      (λ c. change (record a {
        compaction = some (record c {
          status = CompactionStatus.unverified;
          reason = e.reason;
          recovered = if e.status == "recovery" then true else c.recovered;
        });
        activity = Activity.unknown;
        evidence = e.reason;
        input = none;
      }))
      ignore
dispatch interrupt_requested a e = change (interrupt a e)
dispatch interrupt_completed a e = change (finish_interrupt a e)
dispatch drop_started a e = change (record a { status = dropping })
dispatch capacity_detected a e = change (detect_capacity a e)
dispatch capacity_submitted a e = change (record a {
  capacity = record a.capacity { submitted = true; attempts = a.capacity.attempts + 1 };
})
dispatch capacity_cleared a e = change (record a { capacity = no_capacity })
dispatch deadline_checked a e =
    if is_dropping a.status then ignore else change (check_deadlines a e)
dispatch (EventType.other t) a e = ignore

pub finish : Outcome → Agent → Event → Agent × List Effect
finish (reject r) a e = (a, record { kind = "reject"; reason = r } ∷ [])
finish ignore a e = (a, [])
finish (change b) a e = (record b { changed_at = e.at }, [])

unfoldable pub step : Agent → Event → Agent × List Effect
unfolding finish dispatch reopen start_input finish_input input_result blocks_request
    request_compaction on_compaction interrupt finish_interrupt note_capacity detect_capacity
    check_boot check_interrupt check_compaction check_deadlines
step a e =
    if not (e.hitch_id == a.id) || is_zero e.at
    then finish (reject "event does not identify this agent and its time") a e
    else finish (dispatch e.type a e) a e

-- the events of an agent's log, in order
unfoldable pub run : Agent → List Event → Agent
run a [] = a
run a (e ∷ es) = run (step a e).0 es
