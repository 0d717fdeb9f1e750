-- ===== src/Harness/TurnClose.antt =====
-- harness/turn_close.go: whether the transcript records that a turn ended.
pub mod Closed
use text.Mathlib.Text.{starts_with}
use gangline.Prelude.{
  ℕ, ◌+◌, ◌-◌, String, Bool, true, false, not, ◌&&◌, ◌||◌, Option, none, some, List, [], ◌∷◌, ltb,
  ◌==◌, if◌then◌else◌,
}
use gangline.Core.Types.{Time}
use gangline.Harness.Queue.{
  QueueRecord, Queue, is_queue_record, replay, starts_prompt, has_prompt, no_queue,
}

pub record TurnClose : Type 0 where
  pub at : Time
  pub interrupted : Bool

pub record Closing : Type 0 where
  pub queue : Queue
  pub seen : Bool
  pub ended : Bool
  pub interrupted : Bool
  pub closed : TurnClose
  pub started : Time
  pub claims : ℕ
  pub prompts : List String

abbrev note : String
note = "[Request interrupted by user"

any_note : List String → Bool
any_note [] = false
any_note (b ∷ blocks) = starts_with b note || any_note blocks

-- claudeQueueRecord.userInterrupt
unfoldable pub user_interrupt : QueueRecord → Bool
unfolding any_note
user_interrupt r = starts_with r.text note || any_note r.blocks

abbrev pub is_end : QueueRecord → Bool
is_end r = r.type_name == "system" && r.subtype == "turn_duration"

-- the inner switch on the source of a new prompt
leave_queue : Closing → QueueRecord → Closing
leave_queue s r =
    if r.prompt_source == "queued" && ltb 0 s.claims
    then record s { claims = s.claims - 1 }
    else if r.prompt_source == "queued"
    then record s { queue = record (s.queue) { queued = s.queue.queued - 1 } }
    else if s.ended && (r.prompt_source == "" || r.prompt_source == "typed")
    then record s { queue = record (s.queue) { queued = 0 }; claims = 0 }
    else s

begin_prompt : String → Closing → QueueRecord → Closing
begin_prompt turn s r =
    record (leave_queue
      (record s {
        seen = s.seen || r.prompt_id == turn;
        prompts = r.prompt_id ∷ s.prompts;
        started = r.timestamp;
      })
      r) { ended = false }

on_user : String → Closing → QueueRecord → Closing
on_user turn s r =
    if r.meta || r.compact_summary
    then s
    else if not (starts_prompt r) || has_prompt s.prompts r.prompt_id
    then record s { interrupted = user_interrupt r }
    else begin_prompt turn (record s { interrupted = user_interrupt r }) r

-- the body of the loop
unfoldable pub closing_step : String → Closing → QueueRecord → Closing
unfolding leave_queue begin_prompt on_user
closing_step turn s r =
    if r.sidechain
    then s
    else if is_queue_record r
    then record s {
      queue = replay s.queue r;
      claims = if r.operation == "dequeue" then s.claims + 1 else s.claims;
    }
    else if is_end r
    then record s {
      ended = true;
      closed = record { at = r.timestamp; interrupted = s.interrupted };
    }
    else if r.type_name == "user"
    then on_user turn s r
    else s

unfoldable pub closing_from : String → Closing → List QueueRecord → Closing
closing_from turn s [] = s
closing_from turn s (r ∷ records) = closing_from turn (closing_step turn s r) records

abbrev pub no_closing : Closing
no_closing = record {
  queue = no_queue;
  seen = false;
  ended = false;
  interrupted = false;
  closed = record { at = 0; interrupted = false };
  started = 0;
  claims = 0;
  prompts = [];
}

-- the tests behind the loop, where `none` is a turn that is open
unfoldable pub close_of : Closing → Option TurnClose
close_of s =
    if not s.seen
    then none
    else if not s.ended || ltb 0 s.queue.queued || ltb s.started s.queue.dequeued
    then none
    else some s.closed

-- TurnClosed of the decoded records
unfoldable pub turn_closed : List QueueRecord → String → Option TurnClose
turn_closed records turn = close_of (closing_from turn no_closing records)
