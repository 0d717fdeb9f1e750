-- ===== src/Harness/Queue.antt =====
-- harness/queued.go: the replay of the queue records of a transcript.
-- The records are those that `claudeQueueRecords` decodes, in the order of their times; `text` and
-- `blocks` stand for the JSON of a record, the text it holds and the texts of its text blocks.
use gangline.Prelude.{
  Option, ℕ, ◌+◌, ◌-◌, String, Bool, true, false, not, ◌&&◌, ◌||◌, List, [], ◌∷◌, ltb, ◌==◌,
  if◌then◌else◌,
}
use gangline.Core.Types.{Time, is_zero}

pub record QueueRecord : Type 0 where
  pub type_name : String
  pub subtype : String
  pub operation : String
  pub prompt_id : String
  pub timestamp : Time
  pub prompt_source : String
  pub sidechain : Bool
  pub meta : Bool
  pub compact_summary : Bool
  pub text : String
  pub blocks : List String
  pub turn_index : Option ℕ  -- TurnPosition

pub record Queue : Type 0 where
  pub queued : ℕ
  pub dequeued : Time

-- the first test of `claudeQueue.replay`
abbrev pub is_queue_record : QueueRecord → Bool
is_queue_record r = r.type_name == "queue-operation"

-- the switch of `claudeQueue.replay`, where subtraction stops at 0
unfoldable pub replay : Queue → QueueRecord → Queue
replay q r =
    if r.operation == "enqueue"
    then record q { queued = q.queued + 1 }
    else if r.operation == "remove"
    then record q { queued = q.queued - 1 }
    else if r.operation == "dequeue"
    then record { queued = q.queued - 1; dequeued = r.timestamp }
    else if r.operation == "popAll"
    then record q { queued = 0 }
    else q

unfoldable pub starts_prompt : QueueRecord → Bool
starts_prompt r =
    r.type_name == "user"
    && not (r.prompt_id == "")
    && not r.sidechain
    && not r.meta
    && not r.compact_summary

unfoldable pub has_prompt : List String → String → Bool
has_prompt [] id = false
has_prompt (p ∷ prompts) id = p == id || has_prompt prompts id

pub record Pending : Type 0 where
  pub queue : Queue
  pub ended : Bool
  pub turn_seen : Time
  pub prompts : List String

abbrev pub is_stop : QueueRecord → Bool
is_stop r =
    r.type_name == "system" && (r.subtype == "stop_hook_summary" || r.subtype == "turn_duration")

new_prompt : Pending → QueueRecord → Pending
new_prompt s r =
    if not (has_prompt s.prompts r.prompt_id) && starts_prompt r
    then record s {
      prompts = r.prompt_id ∷ s.prompts;
      queue = if s.ended then record (s.queue) { queued = 0 } else s.queue;
      ended = false;
    }
    else s

see_turn : String → Pending → QueueRecord → Pending
see_turn turn s r = if r.prompt_id == turn then record s { turn_seen = r.timestamp } else s

-- the body of the loop of `QueuedTurnPending`
unfoldable pub pending_step : String → Pending → QueueRecord → Pending
unfolding new_prompt see_turn
pending_step turn s r =
    if r.sidechain
    then s
    else if is_queue_record r
    then record s {
      queue = replay s.queue r;
      ended = if r.operation == "dequeue" then false else s.ended;
    }
    else if is_stop r
    then record s { ended = true }
    else if r.type_name == "user" && not (r.prompt_id == "")
    then see_turn turn (new_prompt s r) r
    else s

abbrev pub no_queue : Queue
no_queue = record { queued = 0; dequeued = 0 }

unfoldable pub pending_from : String → Pending → List QueueRecord → Pending
pending_from turn s [] = s
pending_from turn s (r ∷ records) = pending_from turn (pending_step turn s r) records

-- QueuedTurnPending of the decoded records
unfoldable pub queued_turn_pending : List QueueRecord → String → Bool
queued_turn_pending records turn =
    let s =
      pending_from turn (record { queue = no_queue; ended = false; turn_seen = 0; prompts = [] })
        records in
    ltb 0 s.queue.queued || not (is_zero s.turn_seen) && ltb s.turn_seen s.queue.dequeued
