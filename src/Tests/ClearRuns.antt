-- ===== src/Tests/ClearRuns.antt =====
-- store/clear.go and store/native_pending.go: their properties at concrete inputs.
use gangline.Prelude.{◌≡◌, inl, inr, refl, none, some, List, [], ◌∷◌, arith, All}
use gangline.Core.Types.{Agent, ClearRequest}
use gangline.Store.Clear.{
  SessionStart, ClearAdmission, ClearFiles, admit_clear, start_matches, admitted_before,
  admit_start, admit_pending, writes, write_admission,
}
use gangline.Store.Clear.Admitted.{Call, start_call, admit_call, calls, calls-Settled}
use gangline.Store.NativePending.{Witness, NativePending}
use gangline.Store.NativePending.Proofs.{
  Kept, Pass, witnessing, retiring, passes, IsProved, passes-Kept, passes-IsProved,
}
use gangline.Tests.Samples.{agent, letter}

abbrev pending_clear : ClearRequest
pending_clear = record {
  envelope = letter;
  previous_session = "s1";
  status = "continuing";
  started_at = 10;
  reason = "";
}

abbrev clearing : Agent
clearing = record agent { clear = some pending_clear }

abbrev start : SessionStart
start = record {
  at = 12;
  session_id = "s2";
  transcript = "t2";
  source = "clear";
  registration = "g1";
  clear_id = "clear-1";
}

abbrev files : ClearFiles
files = record { start = some start; admission = none; permission = none }

admitted_once :
    admit_clear clearing files "clear-1" "s2" "g1"
    ≡ writes (write_admission (record { id = "clear-1"; session_id = "s2" }) ∷ [])
unfolding admit_clear admit_pending admit_start start_matches admitted_before
admitted_once = refl

abbrev admission : ClearAdmission
admission = record { id = "clear-1"; session_id = "s2" }

abbrev admitted : ClearFiles
admitted = record files { admission = some admission }

abbrev retries : List Call
retries = admit_call "clear-1" "s2" "g1" 1 ∷ start_call start 2 ∷ []

calls-Settled_example : (calls clearing admitted retries).admission ≡ some admission
calls-Settled_example = calls-Settled clearing admitted retries (pending_clear, (refl, refl))

abbrev proof : Witness
proof = record {
  id = "w1";
  at = 9;
  prompt = "go on";
  session_id = "s1";
  turn_id = "";
  transcript = "";
}

abbrev proved : NativePending
proved = record {
  capacity_fingerprint = "";
  envelope = letter;
  session_id = "s1";
  prompt = "go on";
  witness = some proof;
}

abbrev hooks : List Pass
hooks = witnessing "s1" (record proof { at = 20 }) 1 ∷ retiring "s2" 1 ∷ []

abbrev entries : List NativePending
entries = record proved { witness = none } ∷ proved ∷ []

passes-Kept_example : Kept proved (passes hooks entries)
passes-Kept_example = passes-Kept hooks entries proved refl (inr (inl refl))

passes-IsProved_example : All IsProved (passes hooks entries)
passes-IsProved_example = passes-IsProved hooks entries (tt, ((refl, (refl, omega arith)), tt))
