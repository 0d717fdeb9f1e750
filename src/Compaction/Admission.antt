-- ===== src/Compaction/Admission.antt =====
-- cmd/gang/compaction.go, messages.go and runtime.go: how a compaction is requested, completed and given up, and how
-- the submit hook lets its continuation through. cmd/gang/events.go: the hook.
use gangline.Prelude.{
  ◌+◌, String, Bool, true, false, not, ◌&&◌, ◌||◌, Option, none, some, ◌∷◌, ltb, leb, ◌==◌,
  is_empty, concat, if◌then◌else◌,
}
use gangline.Core.Types.{
  Agent, Compaction, CompactionStatus, InputIntent, Time, compaction_requested,
  compaction_unverified,
}
use gangline.Core.Step.{compaction_unconfirmed, is_submitted}
use gangline.Compaction.{
  may_have_run, ran, problem, ok, M, pure, raise, io, ◌>>=◌, ◌>>◌, call, holding, assign, save,
  event_of, apply, awaits_completion, is_completed, is_failed, completion_seen, Queued, absent,
  unread, ready, Failing, fail_with, continue_compaction, map_compaction,
}

-- a submitted prompt, with what the receipt of the continuation says of it at each reading
pub record Prompt : Type 0 where
  pub headed : Bool  -- resumePromptPattern matches
  pub bears : String → Bool  -- the head bears the token
  pub session : String
  pub found : Bool  -- retainedResume succeeds
  pub matched : Option Bool  -- receiptMatches
  pub found_again : Bool
  pub outside : Option Bool  -- whether text stands outside the envelope, or an error

abbrev pub is_unconfirmed : Compaction → Bool
is_unconfirmed c =
    (not (is_completed c.status) || not (completion_seen c))
    && (not (awaits_completion c.status) || not c.continuation)

abbrev pub mismatched : Option Bool → Bool
mismatched none = true
mismatched (some matched) = not matched

abbrev pub block_of : Agent → Prompt → Compaction → String
block_of a p c =
    if is_empty c.resume_token
    then "stale or unknown compaction continuation"
    else if c.resume_admitted
    then "compaction continuation already admitted"
    else if not p.found
    then "compaction continuation could not be verified"
    else if mismatched p.matched
    then "stale or altered compaction continuation"
    else if is_unconfirmed c
    then "compaction completion is unconfirmed; continuation withheld"
    else if is_empty p.session
        || not (is_empty a.native.session_id) && not (p.session == a.native.session_id)
    then "compaction continuation belongs to another native session"
    else ""

abbrev pub block_pending : Agent → Prompt → Option Compaction → String
block_pending a p none = "stale or unknown compaction continuation"
block_pending a p (some c) = block_of a p c

-- resumePromptBlock
unfoldable pub resume_prompt_block : Agent → Prompt → String
resume_prompt_block a p = if p.headed then block_pending a p a.compaction else ""

-- pendingResumeNote
unfoldable pub pending_resume_note : Option Compaction → Prompt → Bool
pending_resume_note none p = false
pending_resume_note (some c) p =
    not (is_empty c.resume_token || c.resume_admitted || is_failed c.status)
    && p.bears c.resume_token

abbrev pub give_up : Failing → String → Option Compaction → M Unit
give_up f reason none = raise problem
give_up f reason (some c) =
    fail_with f c.id (if is_completed c.status then ran else may_have_run)
      (concat "resume note blocked: " reason)

unfoldable pub blocked : Failing → Prompt → String → M Unit
blocked f p reason =
    holding
      λ a. if pending_resume_note a.compaction p then give_up f reason a.compaction else pure tt

-- the compaction whose continuation is admitted
unfoldable pub with_admission : Compaction → Compaction
with_admission c =
    let unseen : Compaction = record c {
      resume_admitted = true;
      status = CompactionStatus.unverified;
      reason = "native compaction completion unconfirmed; queued continuation admitted";
    } in
    if is_submitted c.status && not (completion_seen c)
    then unseen
    else record c { resume_admitted = true }

-- the hook lets the prompt through once the admission is saved
unfoldable pub let_through : Compaction → M Unit
let_through c =
    assign (λ a. record a { compaction = some (with_admission c) })
    >> io λ d. (ok tt, record d { disk = d.held; admitted = c.id ∷ d.admitted })

abbrev pub noted : Option Bool → M Unit
noted none = raise problem
noted (some outside) = if outside then call else pure tt

abbrev pub pass : Prompt → Option Compaction → M Unit
pass p none = raise problem
pass p (some c) = if p.found_again then noted p.outside >> let_through c else raise problem

-- admitCompactionResume
unfoldable pub admit_compaction_resume : Failing → Prompt → M String
admit_compaction_resume f p = holding λ a.
    let reason = resume_prompt_block a p in
    if is_empty reason then pass p a.compaction >> pure "" else blocked f p reason >> pure reason

-- the submit hook, which asks for an admission only if the prompt is headed as a continuation
unfoldable pub submit_hook : Failing → Prompt → M String
submit_hook f p = if p.headed then admit_compaction_resume f p else pure ""

-- store.CompactionWitness
pub record Witness : Type 0 where
  pub at : Time
  pub session_id : String

abbrev pub completed_by : Time → Compaction → Compaction
completed_by at c =
    if awaits_completion c.status && ltb c.started_at at then record c { completed_at = at } else c

abbrev pub witnesses : Time → Option Compaction → Bool
witnesses at none = false
witnesses at (some c) = awaits_completion c.status && ltb c.started_at at

-- what else the readings, and then the notes, change of the agent: anything but its compaction
abbrev pub take_readings : Agent → Agent → Agent
take_readings b a = record b { compaction = a.compaction }

-- reconcileCompactionWitness, of a witness that could be read; `read` is the agent that acceptContextReadings makes and
-- `told` the one that publishContextNotes leaves
unfoldable pub reconcile_witness : Failing → Queued → Agent → Agent → Witness → M Unit
reconcile_witness f q read told w = holding λ a.
    if is_empty w.session_id
      || not (is_empty a.native.session_id) && not (w.session_id == a.native.session_id)
      || not (ltb a.native.confirmed_compacted_at w.at)
    then pure tt
    else (if witnesses w.at a.compaction
        then assign (map_compaction (completed_by w.at)) >> save
        else pure tt)
      >> assign (take_readings read)
      >> call
      >> assign (take_readings told)
      >> save
      >> continue_compaction f q

-- continuationQueued, with operationTimeout in nanoseconds
unfoldable pub continuation_queued : Time → Compaction → Bool
continuation_queued now c =
    is_completed c.status
    && c.continuation
    && not c.resume_admitted
    && not (leb (c.completed_at + 30_000_000_000) now)

-- the deadline of a submitted compaction, as `checkDeadlines` names it first
abbrev pub overdue : Time → Option Compaction → M Unit
overdue now none = pure tt
overdue now (some c) =
    if is_submitted c.status && leb c.deadline now
    then apply now (event_of compaction_unverified c.id "" compaction_unconfirmed 0 none)
    else pure tt

unfoldable pub check_deadline : Time → M Unit
check_deadline now = holding λ a. overdue now a.compaction

-- the cases of `recoverInput` for the input of a compaction
abbrev pub recovered_input : Time → Option InputIntent → M Unit
recovered_input now none = pure tt
recovered_input now (some i) =
    if i.kind == "compaction"
    then apply now (
        event_of compaction_unverified i.id "" "input owner exited before recording the outcome" 0
          none)
    else if i.kind == "compaction-recovery"
    then apply now (
        event_of compaction_unverified i.id "recovery"
          "recovery owner exited before recording the outcome" 0 none)
    else pure tt

unfoldable pub recover_input : Time → M Unit
recover_input now = holding λ a. recovered_input now a.input

-- what `compact` asks before it replaces the record of a compaction
pub record Asking : Type 0 where
  pub now : Time
  pub envelope : Queued  -- the continuation of the compaction before
  pub running : Option Bool  -- whether the screen shows a compaction
  pub prepared : Bool  -- the sender, the note and the identity are in order
  pub new : Compaction

abbrev pub holds_note : Queued → M Bool
holds_note unread = raise problem
holds_note absent = pure false
holds_note (ready untouched) = pure untouched

abbrev pub still_running : Option Bool → M Bool
still_running none = raise problem
still_running (some running) = pure running

abbrev pub is_unverified : CompactionStatus → Bool
is_unverified CompactionStatus.unverified = true
is_unverified _ = false

abbrev pub outlasts : Asking → Compaction → M Bool
outlasts q c =
    if is_unverified c.status && c.continuation && not c.resume_admitted && not c.recovered
    then still_running q.running
    else pure false

abbrev pub refuse_if : Bool → M Unit
refuse_if refused = if refused then raise problem else pure tt

abbrev pub replaceable : Asking → Option Compaction → M Unit
replaceable q none = pure tt
replaceable q (some c) =
    holds_note q.envelope
    >>= refuse_if
    >> refuse_if (continuation_queued q.now c)
    >> (outlasts q c >>= refuse_if)

-- `compact`, up to the request
unfoldable pub request_compaction : Asking → M Unit
request_compaction q =
    holding (λ a. replaceable q a.compaction)
    >> refuse_if (not q.prepared)
    >> apply q.now (event_of compaction_requested "" "" "" 0 (some q.new))
