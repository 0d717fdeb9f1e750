-- ===== src/Compaction.antt =====
-- cmd/gang/compaction.go: the record of a compaction in the state of its agent, and what its failure does.
-- A `Desk` is the agent on disk, the agent in the memory of the holder of its lock, and what a holder has done.
-- A call of the store, of tmux or of the system may fail with no effect, as the list `faults` decides. The texts of
-- errors are left out of the reasons that they become part of.
pub mod Admission
pub mod Terminal
pub mod Start
pub mod Rules
pub mod Drafts
pub mod Begin
pub mod Refused
pub mod Honest
pub mod Runs
pub mod Started
pub mod Once
pub mod Admitted
use gangline.Prelude.{
  ℕ, ◌+◌, String, Bool, true, false, not, ◌&&◌, ◌||◌, Option, none, some, List, [], ◌∷◌, ltb, ◌==◌,
  is_some, is_empty, concat, if◌then◌else◌,
}
use gangline.Core.Types.{
  Agent, Event, EventType, Effect, Compaction, CompactionStatus, Activity, Time, is_zero, Sender,
  Status, compaction_requested, compaction_completed, compaction_failed,
}
use gangline.Core.Step.{step}
use gangline.Core.Step.Marks.{asked}

-- compactionPhase
pub data Phase : Type 0 where
  not_run may_have_run ran : Phase

-- a notice that a compaction has failed
pub record Told : Type 0 where
  pub id : String
  pub phase : Phase

-- what the holder of the lock has typed or read in the terminal
pub data Seen : Type 0 where
  pasted entered cleared refusal : Seen

pub data Problem : Type 0 where
  refused not_started : Problem  -- errCompactionRefused, errCompactionNotStarted
  problem : Problem  -- any other error

pub data Result (A : Type 0) : Type 0 where
  ok : A → Result A
  err : Problem → Result A

pub record Desk : Type 0 where
  pub held : Agent
  pub disk : Agent
  pub requested : List String  -- the compactions that have been requested
  pub admitted : List String  -- the compactions whose continuation the submit hook has let through
  pub told : List Told
  pub seen : List Seen  -- latest first
  pub faults : List Bool

abbrev pub M : Type 0 → Type 0
M A = Desk → Result A × Desk

module _ {A : Type 0} where
  abbrev pub pure : A → M A
  pure x d = (ok x, d)

  abbrev pub raise : Problem → M A
  raise x d = (err x, d)

  abbrev pub faulty : List Bool → M A → M A
  faulty [] act d = act d
  faulty (true ∷ fs) act d = (err problem, record d { faults = fs })
  faulty (false ∷ fs) act d = act (record d { faults = fs })

  -- one call, which the next fault may stop
  unfoldable pub io : M A → M A
  io act d = faulty d.faults act d

module _ {A B : Type 0} where
  infixl 5 ◌>>=◌ ◌>>◌
  abbrev pub continue : Result A × Desk → (A → M B) → Result B × Desk
  continue (ok x, d) f = f x d
  continue (err x, d) f = (err x, d)

  unfoldable pub ◌>>=◌ : M A → (A → M B) → M B
  ◌>>=◌ m f d = continue (m d) f

  abbrev pub ◌>>◌ : M A → M B → M B
  m >> n = m >>= λ _. n

-- a call that changes nothing that is modelled
abbrev pub call : M Unit
call = io (pure tt)

-- the pointer to the agent that the holder of the lock has
unfoldable pub holding : {A : Type 0} → (Agent → M A) → M A
holding f d = f d.held d

-- an assignment to fields of the agent in memory
abbrev pub assign : (Agent → Agent) → M Unit
assign f d = (ok tt, record d { held = f d.held })

abbrev pub with_compaction : (Compaction → Compaction) → Option Compaction → Option Compaction
with_compaction f none = none
with_compaction f (some c) = some (f c)

-- an assignment to fields of the compaction, if there is one
abbrev pub map_compaction : (Compaction → Compaction) → Agent → Agent
map_compaction f a = record a { compaction = with_compaction f a.compaction }

-- l.Save(*a)
abbrev pub save : M Unit
save = io λ d. (ok tt, record d { disk = d.held })

abbrev pub see : Seen → M Unit
see s d = (ok tt, record d { seen = s ∷ d.seen })

abbrev pub rejects : List Effect → Bool
rejects [] = false
rejects (x ∷ xs) = x.kind == "reject" || rejects xs

-- an event that a caller of `apply` writes, with the fields that it sets
abbrev pub event_of : EventType → String → String → String → Time → Option Compaction → Event
event_of t id status reason at c = record {
  source = "";
  type = t;
  at = at;
  hitch_id = "";
  name = "";
  to = "";
  pane = "";
  id = id;
  reason = reason;
  status = status;
  activity = Activity.other "";
  deadline = 0;
  envelope = none;
  compaction = c;
  readings = [];
  native_event = "";
  fingerprint = "";
  basis = none;
  binding = none;
  actor = none;
  command = "";
}

abbrev pub addressed : Time → Agent → Event → Event
addressed now a e = record e {
  at = if is_zero e.at then now else e.at;
  hitch_id = a.id;
  name = a.name;
}

abbrev pub stepped : Option Compaction → Agent × List Effect → M Unit
stepped c (next, effects) =
    if rejects effects
    then raise problem
    else io (λ d. (ok tt, record d { held = next; disk = next; requested = asked c d.requested }))
      >> call

-- `apply`, of an event that neither observes an activity nor fails the agent, and that has a compaction only if it
-- requests it; the last call appends to the log
unfoldable pub apply : Time → Event → M Unit
apply now e = holding λ a. stepped e.compaction (step a (addressed now a e))

abbrev pub awaits_completion : CompactionStatus → Bool
awaits_completion CompactionStatus.submitted = true
awaits_completion CompactionStatus.unverified = true
awaits_completion _ = false

abbrev pub is_completed : CompactionStatus → Bool
is_completed CompactionStatus.completed = true
is_completed _ = false

abbrev pub is_failed : CompactionStatus → Bool
is_failed CompactionStatus.failed = true
is_failed _ = false

-- CompletedAt.After(StartedAt)
abbrev pub completion_seen : Compaction → Bool
completion_seen c = ltb c.started_at c.completed_at

-- the file of the continuation: in no directory, unreadable, or in one of them with its outcome
pub data Retained : Type 0 where
  nowhere unreadable : Retained
  in_new in_results : String → Retained

unfoldable pub forget : String → Agent → Agent
forget id a = record a {
  last_accepted = if a.last_accepted == id then "" else a.last_accepted;
  last_failed = if a.last_failed == id then "" else a.last_failed;
}

-- CleanResult
unfoldable pub clean_result : M Unit
clean_result = holding λ a.
    if is_some a.cleanup
    then call >> call >> assign (λ b. record b { cleanup = none }) >> save
    else pure tt

-- fileResult: the write and the rename
abbrev pub file_result : M Unit
file_result = call >> call

-- Settle, of a cancelled continuation
abbrev pub settle_cancelled : String → M Unit
settle_cancelled id =
    call
    >> clean_result
    >> file_result
    >> assign (λ a. record a { last_failed = id })
    >> save
    >> clean_result

-- its result and its record: `FileFailure`, or `Settle` where no failure is retained
unfoldable pub file_cancelled : String → M Unit
file_cancelled id =
    holding λ a. if is_empty a.last_failed then settle_cancelled id >> call else file_result >> call

-- cancelPendingCompactionResume
unfoldable pub cancel_pending_resume : Retained → String → M Unit
cancel_pending_resume nowhere id = pure tt
cancel_pending_resume unreadable id = raise problem
cancel_pending_resume (in_new outcome) id =
    if outcome == "delivered" then raise problem else file_cancelled id
cancel_pending_resume (in_results outcome) id =
    if outcome == "delivered"
    then raise problem
    else call >> assign (forget id) >> save >> file_cancelled id

-- publishOnce of the notice
unfoldable pub tell : String → Phase → M Unit
tell id phase =
    io (λ d. (ok tt, record d { told = record { id = id; phase = phase } ∷ d.told })) >> call

abbrev pub notify : Option Bool → String → Phase → M Unit
notify none id phase = raise problem
notify (some already) id phase = if already then pure tt else tell id phase

-- failCompaction, where `published` says whether the notice was published before; the calls after the notice are those
-- of `notifyRequester`, whose message to the requester has the same phase
unfoldable pub fail_compaction : Time → Retained → Option Bool → String → Phase → String → M Unit
fail_compaction now retained published id phase reason =
    let event = event_of compaction_failed id "" reason 0 none in
    apply now event
    >> cancel_pending_resume retained (concat "resume-" id)
    >> call
    >> notify published id phase
    >> call

-- the queued continuation of a completed compaction, as `continueCompaction` finds it
pub data Queued : Type 0 where
  absent unread : Queued
  ready : Bool → Queued  -- whether it is the continuation that `completedResume` describes

-- the answers of the store that a failure asks for
pub record Failing : Type 0 where
  pub now : Time
  pub retained : Retained
  pub published : Option Bool

abbrev pub fail_with : Failing → String → Phase → String → M Unit
fail_with f id phase reason = fail_compaction f.now f.retained f.published id phase reason

abbrev pub withhold : Failing → Queued → Compaction → M Unit
withhold f (ready true) c = pure tt
withhold f unread c = raise problem
withhold f absent c =
    if c.continuation
    then pure tt
    else fail_with f c.id ran
        "resume was not entered when compaction started; continuation withheld"
withhold f (ready false) c =
    fail_with f c.id ran "resume was not entered when compaction started; continuation withheld"

abbrev pub after_completion : Failing → Queued → Option Compaction → M Unit
after_completion f q none = pure tt
after_completion f q (some c) = if is_completed c.status then withhold f q c else pure tt

abbrev pub confirm : Failing → Option Compaction → M Unit
confirm f none = pure tt
confirm f (some c) =
    if awaits_completion c.status && completion_seen c
    then apply f.now (event_of compaction_completed c.id "" "" c.completed_at none)
    else pure tt

-- continueCompaction
unfoldable pub continue_compaction : Failing → Queued → M Unit
continue_compaction f q =
    holding (λ a. confirm f a.compaction) >> holding (λ a. after_completion f q a.compaction)

-- the refusals that a screen shows
pub record Refusals : Type 0 where
  pub number : ℕ
  pub last : String

abbrev pub count_refusals : Failing → Compaction → Option Refusals → M Unit
count_refusals f c none = raise problem
count_refusals f c (some r) =
    if ltb c.refusal_before r.number
    then see refusal
      >> fail_with f c.id not_run
          (concat "native compaction refused: " (concat r.last "; resume withheld"))
    else pure tt

abbrev pub observed : Failing → Queued → Option Refusals → Option Compaction → M Unit
observed f q refusals none = pure tt
observed f q refusals (some c) =
    if not (awaits_completion c.status)
    then pure tt
    else if completion_seen c
    then continue_compaction f q
    else count_refusals f c refusals

-- observeCompaction
unfoldable pub observe_compaction : Failing → Queued → Option Refusals → M Unit
observe_compaction f q refusals = holding λ a. observed f q refusals a.compaction
