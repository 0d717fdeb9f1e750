-- ===== src/Compaction/Terminal.antt =====
-- cmd/gang/compaction.go: what a start of a compaction does about a draft that it must not submit, and how it
-- queues the continuation. What tmux, the collar and the store answer on the way is a record `Terminal`.
use gangline.Prelude.{
  ℕ, String, Bool, true, not, ◌||◌, Option, none, some, List, [], ◌∷◌, ◌==◌, is_empty, concat,
  if◌then◌else◌,
}
use gangline.Core.Types.{Agent, Compaction, Time, compaction_waiting, input_started, input_finished}
use gangline.Compaction.{
  Phase, not_run, may_have_run, cleared, refusal, refused, not_started, problem, Desk, Result, ok,
  err, M, pure, raise, ◌>>=◌, ◌>>◌, call, holding, assign, save, see, event_of, apply, Failing,
  Queued, Refusals, fail_with, map_compaction,
}

-- a composer, or how it could not be read
pub data Composer : Type 0 where
  unread behind_prompt : Composer
  holding_text : String → Bool → Composer  -- the text, and whether the composer's tail is occupied

-- how `awaitCompactionComposer` ends
pub data Awaited : Type 0 where
  composer_ready await_refused await_not_started await_failed : Awaited

pub record Terminal : Type 0 where
  pub failing : Failing
  pub now : Time
  pub failed_startup : Option Bool
  pub opens : Bool  -- loadCollar and run.input
  pub captured : Bool
  pub look : Option (Agent × Bool)  -- observeScreen: the agent that it leaves, and whether the screen is idle
  pub class : String  -- turnFailureClass
  pub free : Option Bool  -- available
  pub refusals : Option ℕ
  pub command : Option String  -- the text that RenderAction gives
  pub submits : Bool  -- SubmitInput
  pub settles : Bool
  pub staged : Composer  -- after the paste, before the submit key
  pub same : String → String → Bool  -- SameComposerText
  pub busy : Option Bool
  pub bracketed : Bool  -- BracketedPaste
  pub aborted : Composer  -- what abortCompactInput reads
  pub shown : Option Bool  -- compactionShown
  pub has_clear : Bool  -- CompactClear
  pub left : List String  -- the composer after each press of the clear keys, as often as they are pressed
  pub has_defer_clear : Bool  -- CompactDeferClear
  pub deferred : Composer  -- what deferCompactDraft reads first
  pub after_defer : Composer
  pub deferred_look : Option (Agent × Bool)
  pub token : String
  pub published : Option Bool
  pub awaited : Awaited
  pub wire : Bool  -- stampEnvelope, envelopeText and SubmitInput
  pub typed : Bool  -- the keys, the pause and the submit key of the continuation
  pub accepted : Option Bool  -- NativeQueueAccepted, if the collar witnesses a queue
  pub settled : Agent  -- what settleReceipt leaves
  pub refreshed : Agent  -- what refreshNative leaves
  pub seen : Option Refusals
  pub queued : Queued

-- what a call changes of the agent, but for its compaction and its input: that `refreshNative` may find a running
-- compaction completed is left out
abbrev pub look_at : Agent → Agent → Agent
look_at b a = record b { id = a.id; compaction = a.compaction; input = a.input }

module _ (t : Terminal) where
  abbrev pub try_keys : M Unit
  try_keys = see cleared >> call

  -- clearComposerDraft, with a number of attempts of which each makes the composer read as the next of `left`
  unfoldable pub press_clear : List String → M Unit
  press_clear [] = raise problem
  press_clear (text ∷ texts) =
      let again : M Unit = press_clear texts in
      let after : M Unit = if is_empty text then pure tt else again in
      try_keys >> call >> call >> after

  -- the reason of a failure grows by what the clear says, which may be an error
  abbrev pub cleared_reason : Result Unit × Desk → String → Result String × Desk
  cleared_reason (ok done, d) reason = (ok (concat reason "; composer cleared"), d)
  cleared_reason (err x, d) reason =
      (ok (concat reason "; the composer still holds the unsubmitted input"), d)

  unfoldable pub clear_draft : String → M String
  clear_draft reason d =
      cleared_reason ((if t.has_clear then press_clear t.left else raise problem) d) reason

  -- abandonCompactDraft
  unfoldable pub abandon_draft : String → String → Phase → String → M Unit
  abandon_draft id draft phase reason =
      if is_empty draft
      then fail_with t.failing id phase reason
      else clear_draft reason >>= λ why. fail_with t.failing id phase why

  abbrev pub if_running : M Unit → String → String → Option Bool → M Unit
  if_running abandoned id reason none = fail_with t.failing id may_have_run reason
  if_running abandoned id reason (some running) =
      if running
      then fail_with t.failing id may_have_run
          (concat reason "; the native harness is running a compaction or task")
      else abandoned

  abbrev pub abort_at : String → String → Phase → String → Composer → M Unit
  abort_at id command phase reason unread =
      fail_with t.failing id phase (concat reason "; composer unread: ")
  abort_at id command phase reason behind_prompt =
      fail_with t.failing id phase
        (concat reason "; the compact input may remain in the composer behind the prompt")
  abort_at id command phase reason (holding_text text tail) =
      let abandoned = abandon_draft id text phase reason in
      if is_empty command || not (t.same text command)
      then if_running abandoned id reason t.shown
      else abandoned

  -- abortCompactInput
  unfoldable pub abort_input : String → String → M Unit
  abort_input id command =
      abort_at id command (if t.bracketed then not_run else may_have_run)
        "compaction not submitted: " t.aborted

  abbrev pub deferred_screen : Option (Agent × Bool) → M Unit
  deferred_screen none = raise problem
  deferred_screen (some (b, idle)) = assign (look_at b) >> save

  abbrev pub withdrawn : String → Composer → M Unit
  withdrawn id (holding_text text tail) =
      if tail || not (is_empty text)
      then fail_with t.failing id not_run
          "staged command withdrawal unconfirmed; inspect the composer"
      else apply t.now (event_of input_finished id "withdrawn" "" 0 none)
        >> apply t.now (
            event_of compaction_waiting id "" "staged command withdrawn; waiting for native idle" 0
              none)
        >> deferred_screen t.deferred_look
  withdrawn id _ =
      fail_with t.failing id not_run "staged command withdrawal unconfirmed; inspect the composer"

  abbrev pub after_keys : String → Result Unit × Desk → Result Unit × Desk
  after_keys id (ok done, d) = withdrawn id t.after_defer d
  after_keys id (err x, d) = fail_with t.failing id not_run "withdraw staged command: " d

  abbrev pub defer_at : String → String → Composer → M Unit
  defer_at id command unread = fail_with t.failing id not_run "composer unread: "
  defer_at id command behind_prompt =
      fail_with t.failing id not_run "native input blocked; staged command left alone"
  defer_at id command (holding_text text tail) =
      if tail || not (text == command)
      then fail_with t.failing id not_run
          "staged command no longer identified in composer; input left alone"
      else λ d. after_keys id (try_keys d)

  -- deferCompactDraft
  unfoldable pub defer_draft : String → String → M Unit
  defer_draft id command =
      if not t.has_defer_clear
      then abandon_draft id command not_run "native task became active before compaction submit"
      else defer_at id command t.deferred

  -- publishCompactionResume
  abbrev pub with_token : Option Compaction → M Unit
  with_token none = raise problem
  with_token (some c) =
      if is_empty c.resume_token
      then call >> assign (map_compaction (λ x. record x { resume_token = t.token })) >> save
      else pure tt

  abbrev pub continuing : Agent → Agent
  continuing = map_compaction (λ c. record c { continuation = true })

  abbrev pub publish_once : Option Bool → M Unit
  publish_once none = raise problem
  publish_once (some already) = if already then pure tt else call >> call

  unfoldable pub publish_resume : M Unit
  publish_resume =
      holding (λ a. with_token a.compaction)
      >> publish_once t.published
      >> assign continuing
      >> save

  abbrev pub await_composer : Awaited → M Unit
  await_composer composer_ready = pure tt
  await_composer await_refused = see refusal >> raise refused
  await_composer await_not_started = raise not_started
  await_composer await_failed = raise problem

  -- finishInput: the receipt is settled, then the input ends
  abbrev pub finish_input : String → String → M Unit
  finish_input id outcome =
      call
      >> assign (look_at t.settled)
      >> save
      >> apply t.now (event_of input_finished id outcome "" 0 none)

  abbrev pub accept_resume : String → Option Bool → M Unit
  accept_resume id none = finish_input id "unverified" >> raise problem
  accept_resume id (some accepted) =
      finish_input id (if accepted then "accepted" else "unverified") >> call

  abbrev pub resume_sent : String → M Unit
  resume_sent id =
      if not t.typed
      then finish_input id "unverified" >> raise problem
      else accept_resume id t.accepted

  abbrev pub when_done : Bool → M Unit
  when_done done = if done then pure tt else raise problem

  -- queueCompactionResume
  unfoldable pub queue_resume : String → M Unit
  queue_resume id =
      let envelope = concat "resume-" id in
      publish_resume
      >> await_composer t.awaited
      >> call
      >> when_done t.wire
      >> apply t.now (event_of input_started envelope "envelope" "" 0 none)
      >> resume_sent envelope
