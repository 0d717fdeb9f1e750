-- ===== src/Delivery/Drain.antt =====
-- cmd/gang/delivery.go: `drainLocked`, which types the queued envelopes of an agent one after another.
-- Each round of the loop asks tmux, the harness and the store. What they answer in a round is a record
-- `Answers`: the envelopes that other commands have queued since, whether each call succeeds, and the agent as
-- the calls before have left it. The clock stands still within a round. An envelope that is settled,
-- withdrawn or retired leaves inbox/new, which is the list `queue` in the order of `ListNew`.
use gangline.Prelude.{
  ℕ, zero, suc, ◌+◌, String, Bool, true, false, not, ◌&&◌, ◌||◌, Option, none, some, List, [], ◌∷◌,
  ◌++◌, ◌==◌, if◌then◌else◌,
}
use gangline.Core.Types.{Agent, Envelope, Time}
use gangline.Delivery.{
  is_resume_envelope, capacity_envelope, clear_pending, clear_id, completed_resume, takes_nothing,
  has_expired, is_due, find_id, reserved, outrank,
}

-- what retireIdleEnvelope gives
pub data Retirement : Type 0 where
  retired_envelope kept_envelope retire_error : Retirement

-- tryClaudeNative: the envelope is written to the harness itself and filed with an outcome
pub data Native : Type 0 where
  not_native native_error : Native
  unfiled : String → Native  -- written, but not filed for an error
  written : String → Bool → Native  -- the outcome, and whether the sender was told if it had to be

-- inputState, and what is done about an outage
pub data Input : Type 0 where
  input_free input_busy input_error : Input

-- capacityInput
pub data CapacityInput : Type 0 where
  capacity_ready capacity_waits capacity_cancelled capacity_unrecorded capacity_error :
      CapacityInput

-- deliver, and the notice to the sender: an error before the envelope is filed leaves it in the queue
pub data Typed : Type 0 where
  typed : String → Bool → Bool → Typed  -- the outcome, whether it was withdrawn, and whether all went well after
  deliver_error : String → Typed

-- the withdrawal of an expired envelope, and its record
pub data Withdrawal : Type 0 where
  withdrawn_recorded withdrawn_unrecorded withdraw_error : Withdrawal

pub record Answers : Type 0 where
  pub agent : Agent
  pub now : Time
  pub arrived : List Envelope
  pub lists : Bool  -- ListNew succeeds
  pub retires : Envelope → Retirement
  pub withdraws : Envelope → Withdrawal
  pub opens : Bool  -- loadCollar and run.input succeed
  pub failed_startup : Option Bool  -- retainedStartup, where `none` is its error
  pub native : Envelope → Native
  pub input : Input
  pub capacity : Envelope → CapacityInput
  pub delivers : Envelope → Typed

-- what has become of an envelope, with its outcome
pub data Fate : Type 0 where
  sent : String → Fate
  expired retired cancelled : Fate

pub record Entry : Type 0 where
  pub envelope : Envelope
  pub fate : Fate

pub record Mail : Type 0 where
  pub queue : List Envelope
  pub done : List Entry  -- latest first
  pub result : String  -- the outcome of the target

-- the loop goes on, or returns with the queue that it could not deliver
pub data Step (A : Type 0) : Type 0 where
  go : A → Mail → Step A
  halt : Mail → Step A

abbrev pub then_do : {A B : Type 0} → Step A → (A → Mail → Step B) → Step B
then_do (go a m) f = f a m
then_do (halt m) f = halt m

-- the file of the envelope leaves inbox/new
unfoldable pub remove_id : String → List Envelope → List Envelope
remove_id id [] = []
remove_id id (e ∷ es) = let rest = remove_id id es in if e.id == id then es else e ∷ rest

unfoldable pub leave : Envelope → Fate → Mail → Mail
leave e fate m = record m {
  queue = remove_id e.id m.queue;
  done = record { envelope = e; fate = fate } ∷ m.done;
}

module _ (y : Answers) where
  abbrev pub retire_one : Retirement → Envelope → Mail → Step Bool
  retire_one retired_envelope e m = go true (leave e retired m)
  retire_one kept_envelope e m = go false m
  retire_one retire_error e m = halt m

  abbrev pub keep : Bool → Envelope → List Envelope → List Envelope
  keep true e kept = kept
  keep false e kept = e ∷ kept

  -- the loop that retires idle notices, which gives the others
  unfoldable pub retire_all : List Envelope → Mail → Step (List Envelope)
  retire_all [] m = go [] m
  retire_all (e ∷ es) m =
      then_do (retire_one (y.retires e) e m)
        λ gone n. then_do (retire_all es n) λ kept k. go (keep gone e kept) k

  abbrev pub expire : Withdrawal → Envelope → Mail → Step Unit
  expire withdrawn_recorded e m = go tt (leave e expired m)
  expire withdrawn_unrecorded e m = halt (leave e expired m)
  expire withdraw_error e m = halt m

  -- the loop over the queue: what has expired is withdrawn, and the first that is due is next
  unfoldable pub first_due : List Envelope → Mail → Step Envelope
  first_due [] m = halt m
  first_due (e ∷ es) m =
      let rest : Mail → Step Envelope = first_due es in
      if has_expired y.now e
      then then_do (expire (y.withdraws e) e m) (λ _ n. rest n)
      else if is_due y.now e
      then go e m
      else rest m

  abbrev pub or_due : Option Envelope → List Envelope → Mail → Step Envelope
  or_due none pending m = first_due pending m
  or_due (some e) pending m = go e m

  abbrev pub only : Option Envelope → Mail → Step Envelope
  only none m = halt m
  only (some e) m = go e m

  unfoldable pub choose : List Envelope → Mail → Step Envelope
  choose pending m =
      if clear_pending y.agent.clear
      then only (find_id (clear_id y.agent.clear) pending) m
      else or_due (reserved y.agent pending) pending m

  abbrev pub outcome_of : String → Envelope → String → Mail → Mail
  outcome_of target e outcome m = if e.id == target then record m { result = outcome } else m

  unfoldable pub type_envelope : String → Envelope → Mail → Step Unit
  type_envelope target e m = elim (y.delivers e) [
    | deliver_error outcome ↦ halt (outcome_of target e outcome m)
    | typed outcome withdrawn ok ↦
        let after = outcome_of target e outcome (leave e (sent outcome) m) in
        if not ok || withdrawn || is_resume_envelope e && outcome == "unverified"
        then halt after
        else go tt after
  ]

  unfoldable pub after_capacity : String → Envelope → Mail → Step Unit
  after_capacity target e m = elim (y.capacity e) [
    | capacity_ready ↦ type_envelope target e m
    | capacity_waits ↦ halt m
    | capacity_cancelled ↦ go tt (leave e cancelled m)
    | capacity_unrecorded ↦ halt (leave e cancelled m)
    | capacity_error ↦ halt m
  ]

  unfoldable pub after_input : String → Envelope → Mail → Step Unit
  after_input target e m = elim y.input [
    | input_free ↦
        if capacity_envelope e then after_capacity target e m else type_envelope target e m
    | input_busy ↦ halt m
    | input_error ↦ halt m
  ]

  unfoldable pub after_native : String → Envelope → Mail → Step Unit
  after_native target e m = elim (y.native e) [
    | not_native ↦ after_input target e m
    | native_error ↦ halt m
    | unfiled outcome ↦ halt (outcome_of target e outcome m)
    | written outcome ok ↦
        let after = outcome_of target e outcome (leave e (sent outcome) m) in
        if ok then go tt after else halt after
  ]

  abbrev pub startup_failed : Option Bool → Bool
  startup_failed none = true
  startup_failed (some failed) = failed

  unfoldable pub attempt : String → Envelope → Mail → Step Unit
  attempt target e m =
      if not y.opens
      then halt m
      else if is_resume_envelope e && not (completed_resume y.agent y.agent.compaction e)
      then halt m
      else if startup_failed y.failed_startup
      then halt m
      else after_native target e m

  -- one round of the loop
  unfoldable pub drain_round : (List Envelope → List Envelope) → String → Mail → Step Unit
  drain_round sort target m =
      let arrived = record m { queue = sort (y.arrived ++ m.queue) } in
      if not y.lists
      then halt arrived
      else then_do (retire_all (sort (y.arrived ++ m.queue)) arrived) λ pending n.
        then_do (choose pending n) λ next k. attempt target (outrank y.now pending next) k

pub data Drained : Type 0 where
  returned : Mail → Drained
  out_of_rounds : Mail → Drained

-- the loop, for at most `fuel` rounds
unfoldable pub drain_loop :
    ℕ → (ℕ → Answers) → (List Envelope → List Envelope) → String → ℕ → Mail → Drained
drain_loop zero answers sort target n m = out_of_rounds m
drain_loop (suc fuel) answers sort target n m =
    let again : Mail → Drained = drain_loop fuel answers sort target (n + 1) in
    elim (drain_round (answers n) sort target m) [ halt k ↦ returned k | go _ k ↦ again k ]

-- drainLocked, from the agent as the calls before the loop have left it
unfoldable pub drain_locked :
    ℕ → Agent → (ℕ → Answers) → (List Envelope → List Envelope) → String → List Envelope → Drained
drain_locked fuel a answers sort target queue =
    let m : Mail = record { queue = queue; done = []; result = "queued" } in
    let rest = drain_loop fuel answers sort target 0 m in
    if takes_nothing a then returned m else rest
