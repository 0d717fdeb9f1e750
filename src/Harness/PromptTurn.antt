-- ===== src/Harness/PromptTurn.antt =====
-- harness/queued.go: the order of two turns, and the turn that ran a prompt.
pub mod Orders
use text.Mathlib.Text.{starts_with}
use gangline.Prelude.{
  ℕ, String, Bool, true, false, not, ◌&&◌, ◌||◌, Option, none, some, List, [], ◌∷◌, ◌++◌, ltb, eqb,
  ◌==◌, if◌then◌else◌,
}
use gangline.Core.Types.{Time}
use gangline.Harness.Queue.{QueueRecord, has_prompt}

-- first[id]
unfoldable pub first_at : List QueueRecord → String → Option Time
first_at [] id = none
first_at (r ∷ records) id =
    let rest = first_at records id in
    if r.type_name == "user" && not (r.prompt_id == "") && r.prompt_id == id
    then some r.timestamp
    else rest

abbrev pub time_of : Option Time → Time
time_of none = 0
time_of (some t) = t

abbrev pub after : Option Time → Option Time → Bool
after none later = false
after (some t) later = ltb t (time_of later)

-- TurnRanAfter of the decoded records
unfoldable pub turn_ran_after : List QueueRecord → String → String → Bool
turn_ran_after records earlier later = after (first_at records earlier) (first_at records later)

abbrev is_boundary : QueueRecord → Bool
is_boundary r =
    r.type_name == "assistant"
    || r.type_name == "system"
    || r.type_name == "queue-operation" && r.operation == "dequeue"

-- the records up to the next boundary
up_to_boundary : List QueueRecord → List QueueRecord
up_to_boundary [] = []
up_to_boundary (r ∷ records) =
    let rest = up_to_boundary records in if is_boundary r then [] else r ∷ rest

reverse_onto : List QueueRecord → List QueueRecord → List QueueRecord
reverse_onto [] records = records
reverse_onto (r ∷ before) records = reverse_onto before (r ∷ records)

abbrev same_turn : Option ℕ → Option ℕ → Bool
same_turn (some a) (some b) = eqb a b
same_turn _ _ = false

unfoldable pub add_ids : List String → Option ℕ → List QueueRecord → List String
add_ids ids turn [] = ids
add_ids ids turn (r ∷ records) =
    add_ids
      (if r.type_name == "user"
          && r.prompt_source == "queued"
          && same_turn r.turn_index turn
          && not (has_prompt ids r.prompt_id)
        then ids ++ r.prompt_id ∷ []
        else ids)
      turn records

-- dequeuedTogether, where `before` has the records in front of `r`, the last one first
unfoldable pub dequeued_together : List QueueRecord → QueueRecord → List QueueRecord → List String
unfolding up_to_boundary reverse_onto
dequeued_together before r records =
    add_ids (r.prompt_id ∷ []) r.turn_index
      (reverse_onto (up_to_boundary before) (r ∷ up_to_boundary records))

pub record Found : Type 0 where
  pub turns : List String
  pub pending : Bool
  pub left : Bool

abbrev pub is_operation : QueueRecord → String → Bool
is_operation r operation = r.type_name == "queue-operation" && r.operation == operation

-- the loop of `PromptTurn`
unfoldable pub prompt_from : String → List QueueRecord → Bool → Bool → List QueueRecord → Found
prompt_from opening before pending left [] = record { turns = []; pending = pending; left = left }
prompt_from opening before pending left (r ∷ records) =
    let opens = starts_with r.text opening in
    let queued = prompt_from opening (r ∷ before) true false records in
    let pulled = prompt_from opening (r ∷ before) false true records in
    let gone = prompt_from opening (r ∷ before) false left records in
    let same = prompt_from opening (r ∷ before) pending left records in
    if r.type_name == "user" && opens
    then record { turns = dequeued_together before r records; pending = false; left = false }
    else if is_operation r "enqueue" && opens
    then queued
    else if is_operation r "popAll" && opens
    then pulled
    else if is_operation r "remove" && opens || is_operation r "popAll"
    then gone
    else same

-- PromptTurn of the decoded records
unfoldable pub prompt_turn : List QueueRecord → String → Found
prompt_turn records opening = prompt_from opening [] false false records
