-- ===== src/Tests/HarnessRuns.antt =====
-- harness/: the properties of the transcript's turns at concrete inputs.
use gangline.Prelude.{ℕ, String, ◌≡◌, refl, true, false, none, some, List, [], ◌∷◌, ◌++◌, ◌&&◌}
use gangline.Harness.Queue.{
  QueueRecord, replay, starts_prompt, has_prompt, queued_turn_pending, pending_from, pending_step,
}
use gangline.Harness.PromptTurn.{
  turn_ran_after, prompt_turn, prompt_from, dequeued_together, add_ids, first_at,
}
use gangline.Harness.PromptTurn.Orders.{prompt_turn_place}
use gangline.Harness.TurnClose.{turn_closed, close_of, closing_from, closing_step, user_interrupt}
use gangline.Harness.TurnClose.Closed.{Rests, turn_closed-Rests, turn_closed-enqueue}

abbrev entry : String → String → ℕ → QueueRecord
entry type_name subtype at = record {
  type_name = type_name;
  subtype = subtype;
  operation = "";
  prompt_id = "";
  timestamp = at;
  prompt_source = "";
  sidechain = false;
  meta = false;
  compact_summary = false;
  text = "";
  blocks = [];
  turn_index = none;
}

abbrev prompt : QueueRecord
prompt = record (entry "user" "" 3) { prompt_id = "p1" }

abbrev enqueue : QueueRecord
enqueue = record (entry "queue-operation" "" 9) { operation = "enqueue" }

abbrev turn : List QueueRecord
turn = prompt ∷ entry "system" "turn_duration" 7 ∷ []

turn_ends : turn_closed turn "p1" ≡ some (record { at = 7; interrupted = false })
unfolding turn_closed closing_from closing_step close_of user_interrupt starts_prompt has_prompt
turn_ends = refl

turn_waits : queued_turn_pending (turn ++ enqueue ∷ []) "p1" ≡ true
unfolding queued_turn_pending pending_from pending_step replay starts_prompt has_prompt
turn_waits = refl

turn_closed-Rests_example : Rests turn "p1" (turn_closed turn "p1")
turn_closed-Rests_example = turn_closed-Rests turn "p1"

turn_closed-enqueue_example : turn_closed (turn ++ enqueue ∷ []) "p1" ≡ none
turn_closed-enqueue_example = turn_closed-enqueue turn "p1" enqueue refl refl refl

abbrev queued_prompt : QueueRecord
queued_prompt = record (entry "user" "" 12) {
  prompt_id = "p2";
  prompt_source = "queued";
  text = "gang: next";
  turn_index = some 2;
}

abbrev last_prompt : QueueRecord
last_prompt = record queued_prompt { prompt_id = "p3"; timestamp = 15; text = "stop" }

abbrev two_prompts : List QueueRecord
two_prompts = turn ++ enqueue ∷ queued_prompt ∷ last_prompt ∷ []

found_turn : (prompt_turn two_prompts "gang:").turns ≡ "p2" ∷ "p3" ∷ []
unfolding prompt_turn prompt_from dequeued_together add_ids has_prompt
found_turn = refl

in_order : turn_ran_after two_prompts "p1" "p2" ≡ true
unfolding turn_ran_after first_at
in_order = refl

prompt_turn_place_example :
    ((prompt_turn two_prompts "gang:").pending && (prompt_turn two_prompts "gang:").left) ≡ false
prompt_turn_place_example = prompt_turn_place two_prompts "gang:"
