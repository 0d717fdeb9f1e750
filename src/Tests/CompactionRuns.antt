-- ===== src/Tests/CompactionRuns.antt =====
-- cmd/gang/compaction.go, messages.go: their properties at concrete inputs.
use gangline.Prelude.{◌+◌, ◌≤◌, ◌≡◌, refl, true, false, some, List, [], ◌∷◌, ◌==◌, arith}
use gangline.Core.Types.{Agent, Activity, Status}
use gangline.Core.Step.{step}
use gangline.Core.Step.Marks.{mark_of, times, room}
use gangline.Compaction.{
  Desk, Failing, nowhere, ready, holding, ◌>>=◌, io, apply, observe_compaction, continue_compaction,
  clean_result,
}
use gangline.Compaction.Admission.{
  Prompt, submit_hook, admit_compaction_resume, resume_prompt_block, let_through, blocked,
  pending_resume_note, with_admission,
}
use gangline.Compaction.Terminal.{
  Terminal, holding_text, composer_ready, queue_resume, publish_resume,
}
use gangline.Compaction.Start.{start_compaction, stage_or_abort, stage, submit_or_report, submit}
use gangline.Compaction.Honest.{Honest, start_compaction-Honest}
use gangline.Compaction.Runs.{Operation, prompts, starts, operate_all}
use gangline.Compaction.Admitted.{operate_all-Ledger}
use gangline.Tests.Samples.{agent, request}

abbrev compacting : Agent
compacting = record agent {
  status = Status.active;
  activity = Activity.idle;
  compaction = some request;
}

abbrev desk : Desk
desk = record {
  held = compacting;
  disk = compacting;
  requested = "c1" ∷ [];
  admitted = [];
  told = [];
  seen = [];
  faults = [];
}

abbrev failing : Failing
failing = record { now = 20; retained = nowhere; published = some false }

abbrev terminal : Terminal
terminal = record {
  failing = failing;
  now = 20;
  failed_startup = some false;
  opens = true;
  captured = true;
  look = some (compacting, true);
  class = "";
  free = some true;
  refusals = some 0;
  command = some "/compact";
  submits = true;
  settles = true;
  staged = holding_text "/compact" false;
  same = λ x y. x == y;
  busy = some false;
  bracketed = true;
  aborted = holding_text "" false;
  shown = some false;
  has_clear = true;
  left = "" ∷ [];
  has_defer_clear = true;
  deferred = holding_text "/compact" false;
  after_defer = holding_text "" false;
  deferred_look = some (compacting, true);
  token = "token";
  published = some false;
  awaited = composer_ready;
  wire = true;
  typed = true;
  accepted = some true;
  settled = compacting;
  refreshed = compacting;
  seen = some (record { number = 0; last = "" });
  queued = ready true;
}

abbrev prompt : Prompt
prompt = record {
  headed = true;
  bears = λ token. token == "token";
  session = "s1";
  found = true;
  matched = some true;
  found_again = true;
  outside = some false;
}

start_compaction-Honest_example : Honest (start_compaction terminal desk).1
start_compaction-Honest_example = start_compaction-Honest terminal desk refl

-- a start, and two prompts with its continuation
abbrev operations : List Operation
operations = starts terminal ∷ prompts failing prompt ∷ prompts failing prompt ∷ []

one_request :
    room "c1" (mark_of desk.disk.compaction) + times "c1" desk.admitted ≤ times "c1" desk.requested
unfolding times
one_request = omega arith

operate_all-Ledger_example :
    room "c1" (mark_of (operate_all operations desk).disk.compaction)
      + times "c1" (operate_all operations desk).admitted
    ≤ times "c1" (operate_all operations desk).requested
operate_all-Ledger_example = operate_all-Ledger "c1" operations desk one_request

admits_once : (operate_all operations desk).admitted ≡ "c1" ∷ []
unfolding operate_all start_compaction step submit_hook admit_compaction_resume resume_prompt_block
    let_through blocked pending_resume_note with_admission queue_resume publish_resume
    stage_or_abort stage submit_or_report submit holding ◌>>=◌ io apply observe_compaction
    continue_compaction clean_result
admits_once = refl
