-- ===== src/Compaction/Start.antt =====
-- cmd/gang/messages.go: `startCompaction`, which types the compact command of a queued compaction.
use gangline.Prelude.{
  ℕ, ◌+◌, String, Bool, true, false, not, ◌&&◌, ◌||◌, Option, none, some, ltb, ◌==◌, is_some,
  is_empty, concat, if◌then◌else◌,
}
use gangline.Core.Types.{
  Agent, Activity, Compaction, compaction_submitted, compaction_unverified, compaction_waiting,
  input_started,
}
use gangline.Core.Step.{is_active, is_queued}
use gangline.Compaction.{
  not_run, may_have_run, pasted, entered, refused, not_started, problem, Desk, Result, ok, err, M,
  pure, raise, ◌>>=◌, ◌>>◌, call, holding, assign, save, see, event_of, apply, fail_with,
  map_compaction, observe_compaction, continue_compaction,
}
use gangline.Compaction.Terminal.{
  Composer, holding_text, Terminal, look_at, when_done, queue_resume, abandon_draft, defer_draft,
  abort_input,
}

-- capacityFailure
unfoldable pub capacity_failure : String → Bool
capacity_failure class =
    class == "rate_limit"
    || class == "overloaded"
    || class == "server_error"
    || class == "billing_error"

abbrev pub is_idle : Activity → Bool
is_idle Activity.idle = true
is_idle _ = false

module _ (t : Terminal) where
  abbrev pub queued_or_failed : String → Result Unit × Desk → Result Unit × Desk
  queued_or_failed id (ok done, d) =
      (assign (look_at t.refreshed)
          >> save
          >> call
          >> observe_compaction t.failing t.queued t.seen
          >> continue_compaction t.failing t.queued
          >> call)
        d
  queued_or_failed id (err refused, d) =
      fail_with t.failing id not_run "native compaction refused; resume withheld" d
  queued_or_failed id (err not_started, d) =
      fail_with t.failing id may_have_run
        "compact command left the composer but no compaction showed; resume withheld" d
  queued_or_failed id (err problem, d) =
      fail_with t.failing id may_have_run "resume submission failed; continuation withheld: " d

  -- from the submit key on
  unfoldable pub submit : String → M Unit
  submit id =
      see entered >> call >> apply t.now (event_of compaction_submitted id "" "" 0 none) >> λ d.
      queued_or_failed id (queue_resume t id d)

  abbrev pub command_text : Option String → String
  command_text none = ""
  command_text (some text) = text

  abbrev pub unless_busy : String → String → Option Bool → M Bool
  unless_busy id command none = raise problem
  unless_busy id command (some busy) =
      if busy then defer_draft t id command >> pure false else pure true

  -- the paste is in the composer: whether its submit key is to be sent
  abbrev pub staged_text : String → String → String → M Bool
  staged_text id command text =
      if is_empty text
      then raise problem
      else if not (t.same text command)
      then abandon_draft t id text not_run
          "compaction not submitted: the native composer did not read back as the compact command"
        >> pure false
      else unless_busy id command t.busy

  abbrev pub staged_composer : String → String → Composer → M Bool
  staged_composer id command (holding_text text tail) = staged_text id command text
  staged_composer id command _ = raise problem

  -- the paste of the command, up to its submit key
  unfoldable pub stage : String → M Bool
  stage id =
      when_done t (is_some t.command && t.submits)
      >> see pasted
      >> call
      >> when_done t t.settles
      >> call
      >> staged_composer id (command_text t.command) t.staged

  -- the deferred function, which acts on an error while the input is in progress
  abbrev pub rescued : {A : Type 0} → M A → Result A × Desk → Result A × Desk
  rescued rescue (ok x, d) = (ok x, d)
  rescued rescue (err x, d) = if is_some d.held.input then rescue d else (err x, d)

  unfoldable pub stage_or_abort : String → M Bool
  stage_or_abort id d =
      rescued (abort_input t id (command_text t.command) >> pure false) (stage id d)

  unfoldable pub submit_or_report : String → M Unit
  submit_or_report id d =
      rescued (apply t.now (event_of compaction_unverified id "" "" 0 none) >> raise problem)
        (submit id d)

  abbrev pub begun : ℕ → Agent → Agent
  begun refusals = map_compaction (λ c. record c {
    refusal_before = refusals;
    started_at = t.now;
    deadline = t.now + 30_000_000_000;
  })

  abbrev pub type_command : String → Option ℕ → M Unit
  type_command id none = raise problem
  type_command id (some refusals) =
      let go : Bool → M Unit = λ submits. if submits then submit_or_report id else pure tt in
      assign (begun refusals)
      >> apply t.now (event_of input_started id "compaction" "" 0 none)
      >> (stage_or_abort id >>= go)

  abbrev pub if_free : String → Option Bool → M Unit
  if_free id none = raise problem
  if_free id (some free) = if free then type_command id t.refusals else pure tt

  abbrev pub waits_for : Compaction → String → M Unit
  waits_for c reason =
      if c.reason == reason
      then pure tt
      else apply t.now (event_of compaction_waiting c.id "" reason 0 none)

  -- the wait for a later turn, or the start once the harness is idle
  abbrev pub wait_or_type : Compaction → String → M Unit
  wait_or_type c wait = waits_for c wait >> (if is_empty wait then if_free c.id t.free else pure tt)

  abbrev pub looked : Bool → Option Compaction → Agent → M Unit
  looked idle none a = raise problem
  looked idle (some c) a =
      if is_empty a.native.turn_failure
      then (if is_idle a.activity then wait_or_type c "" else pure tt)
      else if capacity_failure t.class
      then wait_or_type c (
          concat "native turn failed with provider capacity class "
            (concat t.class "; compaction waits until a later turn finishes"))
      else if idle
      then wait_or_type c ""
      else pure tt

  abbrev pub look : Option (Agent × Bool) → M Unit
  look none = raise problem
  look (some (b, idle)) = assign (look_at b) >> save >> holding (λ a. looked idle a.compaction a)

  abbrev pub begin_idle : Compaction → Agent → Option Bool → M Unit
  begin_idle c a none = raise problem
  begin_idle c a (some failed) =
      if failed
      then pure tt
      else if not t.opens
      then raise problem
      else if is_empty a.native.turn_failure && ltb a.native.finished_at a.native.submitted_at
      then waits_for c "waiting for native turn completion"
      else if not t.captured
      then call >> raise problem
      else look t.look

  abbrev pub begin : Option Compaction → Agent → M Unit
  begin none a = pure tt
  begin (some c) a =
      if not (is_queued c.status) || not (is_active a.status)
      then pure tt
      else begin_idle c a t.failed_startup

  -- startCompaction
  unfoldable pub start_compaction : M Unit
  start_compaction = holding λ a. begin a.compaction a
