-- ===== src/Tests/UsageRuns.antt =====
-- cmd/gang/usage_state.go: its properties at concrete inputs.
use mathlib.Core.Path.{subst}
use gangline.Prelude.{
  String, ◌≡◌, refl, sym, true, false, Option, none, some, [], ◌∷◌, ◌==◌, arith, by_test,
  some_injective, ◌∙◌,
}
use gangline.Core.Types.{Agent, Status}
use gangline.Store.World.{update}
use gangline.Usage.{Snooze, snooze_rearmed, Desk, Go, wake_event}
use gangline.Usage.Judge.{Boundary, observe_snooze_turn}
use gangline.Usage.Fate.{Fate, OrFailed}
use gangline.Usage.Observed.{observe_snooze_turn-Fate}
use gangline.Usage.Rearms.{Modest, AllModest, observe_snooze_turn-AllModest}
use gangline.Usage.Flush.{active_agent, flush_wakes, release, release_all, unsent}
use gangline.Usage.Flush.Loops.{is_in, Covers, Flushed, flush_wakes-Flushed}
use gangline.Tests.Samples.{agent}

abbrev go : Go
go = record {
  lower = λ s. s;
  trim = λ s. s;
  at_cap = λ p. true;
  is_percent = λ p. true;
  above = λ p q. false;
  same = λ p q. true;
}

abbrev wake : Snooze
wake = record {
  id = "snooze-1";
  token = "t1";
  caller_id = "h1";
  caller_name = "ada";
  at = 20;
  note = "go on";
  recipient_id = "h1";
  recipient_name = "ada";
  submission = "";
  input_text = "";
  turn_id = "turn-1";
  submitted_at = 21;
  cap_rejected = false;
  cap_candidate = false;
  cap_failed_at = 0;
  turn_failed = false;
  rearms = 0;
  auto = false;
}

abbrev one_wake : String → Option Snooze
one_wake = update (λ key. none) "h1" (some wake)

abbrev desk : Desk
desk = record {
  state = record { snoozes = λ key. none; recent = one_wake };
  draws = ("snooze-2", "t2") ∷ ("snooze-3", "t3") ∷ [];
  events = [];
}

abbrev boundary : Boundary
boundary = record {
  agent = agent;
  kind = "turn-finished";
  turn_id = "turn-1";
  failure = "";
  uses_transcript = false;
  provider_blocked = false;
  now = 30;
  prompt_turn = λ token. record { turns = "turn-1" ∷ []; pending = false; left = false };
  named_turn = λ token. record { turns = []; pending = false; left = false };
}

observe_snooze_turn-Fate_example :
    OrFailed (Fate go boundary "h1" wake desk) (observe_snooze_turn go boundary ("h1" ∷ []) desk)
observe_snooze_turn-Fate_example =
    observe_snooze_turn-Fate go boundary "h1" wake ("h1" ∷ []) desk refl

wakes-AllModest : AllModest desk
unfolding Modest
wakes-AllModest = record {
  recent = λ key. by_test Modest ("h1" == key) (some wake) none (λ _ manual. omega arith) (λ _. tt);
  snoozes = λ key. tt;
}

observe_snooze_turn-AllModest_example :
    OrFailed AllModest (observe_snooze_turn go boundary ("h1" ∷ []) desk)
observe_snooze_turn-AllModest_example =
    observe_snooze_turn-AllModest go boundary ("h1" ∷ []) desk wakes-AllModest

-- the recipient has gone, so that the wake goes to the lead
abbrev lead : Agent
lead = record agent {
  id = "h2";
  name = "eve";
  status = Status.active;
  role = "lead";
  hitched_by = "";
}

covered : (w : Snooze) → Covers ("h1" ∷ []) (update (λ key. none) "h1" (some w))
unfolding is_in
covered w = record {
  covers = λ key other. let apart : ("h1" == key) ≡ false = ground (arith, other) in rw apart refl;
}

-- the wake, with the identity that it is sent with next
abbrev next_wake : Snooze
next_wake = unsent (lead ∷ []) 30 wake "snooze-2" "t2"

abbrev released : Desk
released = record {
  state = record {
    snoozes = update (λ key. none) "h1" (some next_wake);
    recent = update one_wake "h1" none;
  };
  draws = ("snooze-3", "t3") ∷ [];
  events = wake_event snooze_rearmed next_wake 30 ∷ [];
}

release_all-released : release_all (lead ∷ []) 30 ("h1" ∷ []) desk ≡ some released
unfolding release_all release active_agent
release_all-released = refl

flush_wakes-Flushed_example :
    OrFailed
      (Flushed (lead ∷ []) 30 "h1")
      (flush_wakes (lead ∷ []) 30 ("h1" ∷ []) (λ e. "h1" ∷ []) desk)
flush_wakes-Flushed_example =
    flush_wakes-Flushed (lead ∷ []) 30 ("h1" ∷ []) (λ e. "h1" ∷ []) desk (covered wake)
      (λ e is_released.
        subst (λ x. Covers ("h1" ∷ []) x.state.snoozes)
          (some_injective released e (sym release_all-released ∙ is_released)) (covered next_wake))
      "h1"
