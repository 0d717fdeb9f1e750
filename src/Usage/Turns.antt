-- ===== src/Usage/Turns.antt =====
-- cmd/gang/usage_state.go: the judgement of a turn leaves its wake one of its outcomes.
use mathlib.Core.Path.{subst}
use gangline.Prelude.{
  ◌≤◌, ◌+◌, String, ◌≡◌, sym, ◌∙◌, Bool, true, false, not, ◌&&◌, ◌||◌, Option, some, ltb, ◌==◌,
  is_some, if◌then◌else◌, arith, eq_iff, by_test,
}
use gangline.Core.Types.{Time, is_zero}
use gangline.Usage.{
  Snooze, snooze_failed, Desk, Go, CapFailure, is_generic, is_no_cap, usage_cap_failure,
  observed_capped_reset, five_minutes, put_recent, tell, wake_event,
}
use gangline.Usage.Judge.{
  Boundary, fail_once, finish_turn, reject, drop_candidate, check_candidate, on_failure, judge_turn,
  dropped, by_telemetry, failed_turn, reading_since,
}
use gangline.Usage.Fate.{TurnOf, Capped, by_reading, by_error, by_failure, Judged, OrFailed}
use gangline.Usage.Held.{Holding, held-Judged, Holding-put_recent, Holding-tell, SameWake-outcome}
use gangline.Usage.Outcomes.{fail_once-Holding, finish_turn-Holding, reject-Holding}

module _ (go : Go) (b : Boundary) (key : String) (s : Snooze) (d : Desk) where
  drop_candidate-Holding :
      (t : Snooze) (e : Desk)
      → Holding go b key s t d e
      → Judged go b key s d (drop_candidate go b key t e)
  unfolding drop_candidate
  drop_candidate-Holding t e h =
      let u = dropped go b t in
      let v = record u { turn_failed = true } in
      let ev = wake_event snooze_failed t b.now in
      let one =
        SameWake-outcome go b key s d t t.turn_id t.cap_rejected false t.turn_failed t.cap_failed_at
          h.memory in
      let two =
        SameWake-outcome go b key s d t t.turn_id t.cap_rejected false true t.cap_failed_at
          h.memory in
      by_test (Judged go b key s d) t.turn_failed (put_recent key (some u) e)
        (put_recent key (some v) (tell ev e))
        (λ _.
          held-Judged go b key s d u _
            (Holding-put_recent go b key s d t u e h one h.turn h.rejected))
        (λ _. held-Judged go b key s d v _ (
          Holding-put_recent go b key s d t v _ (Holding-tell go b key s d t ev e h) two h.turn
            h.rejected))

  check_candidate-Holding :
      (t : Snooze) (confirmed : Bool) (observed : Option Time) (e : Desk)
      → (confirmed ≡ true → Capped go b s)
      → (is_some observed ≡ true → Capped go b s)
      → Holding go b key s t d e
      → OrFailed (Judged go b key s d) (check_candidate go b key t confirmed observed e)
  unfolding check_candidate
  check_candidate-Holding t confirmed observed e capped read h =
      let u = dropped go b t in
      let late = is_zero t.cap_failed_at || ltb (t.cap_failed_at + five_minutes) b.now in
      let seen =
        t.cap_candidate
        && is_some observed
        && reading_since go b b.agent.native.limits.at t.cap_failed_at in
      let one =
        SameWake-outcome go b key s d t t.turn_id t.cap_rejected false t.turn_failed t.cap_failed_at
          h.memory in
      let rest = reject go b key t confirmed observed e in
      let again = reject go b key u true observed e in
      by_test (OrFailed (Judged go b key s d)) (t.cap_candidate && late)
        (some (drop_candidate go b key t e)) (if seen then again else rest)
        (λ _. drop_candidate-Holding t e h)
        (λ _.
          by_test (OrFailed (Judged go b key s d)) (seen) again rest
            (λ by.
              reject-Holding go b key s d u true observed e (λ _. read (ground (arith, by)))
                (record {
                  memory = one;
                  turn = h.turn;
                  rejected = h.rejected;
                  stays = h.stays;
                  around = h.around;
                }))
            (λ _. reject-Holding go b key s d t confirmed observed e capped h))

  on_failure-Holding :
      (t : Snooze) (cap : CapFailure) (observed : Option Time) (e : Desk)
      → (is_no_cap cap ≡ false → Capped go b s)
      → (is_some observed ≡ true → Capped go b s)
      → Holding go b key s t d e
      → OrFailed (Judged go b key s d) (on_failure go b key t cap observed e)
  unfolding on_failure
  on_failure-Holding t cap observed e capped read h =
      let u = record t { cap_candidate = true; cap_failed_at = b.now } in
      let same =
        SameWake-outcome go b key s d t t.turn_id t.cap_rejected true t.turn_failed b.now
          h.memory in
      let waiting = some (put_recent key (some u) e) in
      let confirmed = check_candidate go b key t true observed e in
      by_test (OrFailed (Judged go b key s d)) (is_no_cap cap) (some (fail_once go b key t e))
        (if is_generic cap && not (is_some observed) then waiting else confirmed)
        (λ _. fail_once-Holding go b key s d t e h)
        (λ is_cap.
          by_test (OrFailed (Judged go b key s d)) (is_generic cap && not (is_some observed))
            waiting confirmed
            (λ _.
              held-Judged go b key s d u _
                (Holding-put_recent go b key s d t u e h same h.turn h.rejected))
            (λ _. check_candidate-Holding t true observed e (λ _. capped is_cap) read h))

  -- what shows a cap for the wake in memory shows it for the wake
  module _ (t : Snooze) (e : Desk) (h : Holding go b key s t d e) where
    seen :
        is_some (observed_capped_reset go b.agent.native.limits t.submitted_at b.now) ≡ true
        → Capped go b s
    seen is = by_reading (
        subst (λ x. is_some (observed_capped_reset go b.agent.native.limits x b.now) ≡ true)
          h.memory.submitted_at is)

    telemetry :
        by_telemetry go b t ≡ true
        → is_no_cap (usage_cap_failure go b.agent.native.last_error) ≡ false
        → Capped go b s
    telemetry by =
        by_error (sym h.memory.auto ∙ ground (arith, by))
          (subst (TurnOf b s)
            (sym ((eq_iff b.agent.native.turn_id t.turn_id).0 (ground (arith, by)))) h.turn)
          (subst (λ x. x ≤ b.agent.native.last_error_at) h.memory.submitted_at (ground (arith, by)))

  failure :
      (t : Snooze) (adopted : Bool) (e : Desk)
      → Holding go b key s t d e
      → failed_turn go b t adopted ≡ true
      → is_no_cap (usage_cap_failure go b.failure) ≡ false
      → Capped go b s
  failure t adopted e h by =
      by_failure ((eq_iff b.kind "turn-failed").0 (ground (arith, by)))
        (subst (TurnOf b s) (sym ((eq_iff b.turn_id t.turn_id).0 (ground (arith, by)))) h.turn)

  pub judge_turn-Holding :
      (t : Snooze) (adopted : Bool) (e : Desk)
      → Holding go b key s t d e
      → OrFailed (Judged go b key s d) (judge_turn go b key (t, adopted) e)
  unfolding judge_turn
  judge_turn-Holding t adopted e h =
      let observed = observed_capped_reset go b.agent.native.limits t.submitted_at b.now in
      let told =
        on_failure go b key t (usage_cap_failure go b.agent.native.last_error) observed e in
      let failed = on_failure go b key t (usage_cap_failure go b.failure) observed e in
      let going = check_candidate go b key t false observed e in
      let later = if failed_turn go b t adopted then failed else going in
      by_test (OrFailed (Judged go b key s d)) (b.turn_id == t.turn_id && b.kind == "turn-finished")
        (some (finish_turn go b key t e)) (if by_telemetry go b t then told else later)
        (λ ends.
          finish_turn-Holding go b key s d t e
            ((eq_iff b.kind "turn-finished").0 (ground (arith, ends)))
            ((eq_iff b.turn_id t.turn_id).0 (ground (arith, ends))) h)
        (λ _.
          by_test (OrFailed (Judged go b key s d)) (by_telemetry go b t) told later
            (λ by.
              on_failure-Holding t (usage_cap_failure go b.agent.native.last_error) observed e
                (telemetry t e h by) (seen t e h) h)
            (λ _.
              by_test (OrFailed (Judged go b key s d)) (failed_turn go b t adopted) failed going
                (λ by.
                  on_failure-Holding t (usage_cap_failure go b.failure) observed e
                    (failure t adopted e h by) (seen t e h) h)
                (λ _.
                  check_candidate-Holding t false observed e (λ bad. ground arith) (seen t e h) h)))
