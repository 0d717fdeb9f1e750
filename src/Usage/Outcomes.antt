-- ===== src/Usage/Outcomes.antt =====
-- cmd/gang/usage_state.go: what ends a wake that is judged leaves it one of its outcomes.
use mathlib.Core.Path.{subst}
use gangline.Prelude.{
  ◌⊎◌, inl, inr, ◌<◌, ◌+◌, String, ◌≡◌, sym, ap, ◌∙◌, Bool, true, false, not, ◌&&◌, ◌||◌, Option,
  none, some, List, [], ◌∷◌, ltb, is_empty, arith, eq_iff, by_test,
}
use gangline.Core.Types.{Time, is_zero}
use gangline.Usage.{
  Snooze, snooze_completed, snooze_failed, snooze_cleared, Desk, Go, put_recent, put_snooze, tell,
  wake_event, id_of, draw,
}
use gangline.Usage.Judge.{
  Boundary, fail_once, finish_turn, put_next, rearm, reject, error_since, rearmed, rearmed_event,
  rejected_event, next_reset,
}
use gangline.Usage.Fate.{
  TurnOf, Capped, WasRejected, completed, cleared, put_again, Judged, OrFailed,
}
use gangline.Usage.Held.{
  Holding, held-Judged, here, Around-put_recent, Around-put_snooze, Around-tell, Holding-put_recent,
  Holding-tell, Told-wake_event, SameWake-outcome,
}

module _ (go : Go) (b : Boundary) (key : String) (s : Snooze) (d : Desk) where
  pub fail_once-Holding :
      (t : Snooze) (e : Desk)
      → Holding go b key s t d e
      → Judged go b key s d (fail_once go b key t e)
  unfolding fail_once
  fail_once-Holding t e h =
      let u = record t { turn_failed = true } in
      let same =
        SameWake-outcome go b key s d t t.turn_id t.cap_rejected t.cap_candidate true
          t.cap_failed_at h.memory in
      by_test (Judged go b key s d) t.turn_failed e
        (tell (wake_event snooze_failed t b.now) (put_recent key (some u) e))
        (λ _. held-Judged go b key s d t e h)
        (λ _. held-Judged go b key s d u _ (
          Holding-tell go b key s d u (wake_event snooze_failed t b.now) _
            (Holding-put_recent go b key s d t u e h same h.turn h.rejected)))

  -- no error since the wake was sent
  no_error :
      (t : Snooze)
      → error_since go b t ≡ false
      → (t.submitted_at ≡ 0) ⊎ (b.agent.native.last_error_at < t.submitted_at)
  no_error t good =
      by_test (λ x. (t.submitted_at ≡ 0) ⊎ (b.agent.native.last_error_at < t.submitted_at))
        (is_zero t.submitted_at) true false (λ zero. inl (ground (arith, zero)))
        (λ sent. inr (ground (arith, sent, good)))

  pub finish_turn-Holding :
      (t : Snooze) (e : Desk)
      → b.kind ≡ "turn-finished"
      → b.turn_id ≡ t.turn_id
      → Holding go b key s t d e
      → Judged go b key s d (finish_turn go b key t e)
  unfolding finish_turn
  finish_turn-Holding t e finished own h =
      by_test (Judged go b key s d)
        (not b.provider_blocked && not (error_since go b t) && is_empty b.agent.native.turn_failure)
        (tell (wake_event snooze_completed t b.now) (put_recent key none e))
        (fail_once go b key t e)
        (λ good. record {
          fate = completed (record {
            gone = here go b key s d e.state.recent none;
            told = Told-wake_event go b key s d snooze_completed t b.now e.events h.memory;
            next = h.stays.next;
            own = subst (TurnOf b s) (sym own) h.turn;
            no_error =
                subst (λ x. (x ≡ 0) ⊎ (b.agent.native.last_error_at < x)) h.memory.submitted_at
                  (no_error t (ground (arith, good)));
            finished = finished;
            accepted = ground (arith, good);
            no_failure = (eq_iff b.agent.native.turn_failure "").0 (ground (arith, good));
          });
          around =
              Around-tell go b key s d (wake_event snooze_completed t b.now) _
                (Around-put_recent go b key s d none e h.around);
        })
        (λ _. fail_once-Holding t e h)

  -- A wake that is not rejected twice may be put again.
  abbrev MayFollow : Snooze → Type 0
  MayFollow t = t.auto ≡ false → t.rearms ≡ 0

  put_next-Holding :
      (t : Snooze) (reset : Option Time) (e : Desk)
      → MayFollow t
      → WasRejected go b s
      → Holding go b key s t d e
      → OrFailed (Judged go b key s d) (put_next go b key t reset e)
  unfolding put_next
  put_next-Holding t none e may rejected h = held-Judged go b key s d t e h
  put_next-Holding t (some reset) e may rejected h =
      by_test (OrFailed (Judged go b key s d)) (not (is_empty (id_of (e.state.snoozes key))))
        (some (tell (wake_event snooze_cleared t b.now) (put_recent key none e)))
        (draw e.draws λ id token draws. some (
          tell (rearmed_event go b id reset) (
            put_recent key none (
              put_snooze key (some (rearmed go b t id token reset)) (record e { draws = draws })))))
        (λ follows. record {
          fate = cleared (record {
            gone = here go b key s d e.state.recent none;
            told = Told-wake_event go b key s d snooze_cleared t b.now e.events h.memory;
            next = h.stays.next;
            rejected = rejected;
            follows = ap (λ o. is_empty (id_of o)) (sym h.stays.next) ∙ ground (arith, follows);
          });
          around =
              Around-tell go b key s d (wake_event snooze_cleared t b.now) _
                (Around-put_recent go b key s d none e h.around);
        })
        (λ free. again e.draws free)
    where
      again :
          (draws : List (String × String))
          → not (is_empty (id_of (e.state.snoozes key))) ≡ false
          → OrFailed (Judged go b key s d) (
              draw draws λ id token rest. some (
                tell (rearmed_event go b id reset) (
                  put_recent key none (
                    put_snooze key
                      (some (rearmed go b t id token reset))
                      (record e { draws = rest })))))
      again [] free = tt
      again ((id, token) ∷ draws) free = record {
        fate = put_again (record {
          gone = here go b key s d e.state.recent none;
          next = rearmed go b t id token reset;
          saved = here go b key s d e.state.snoozes (some (rearmed go b t id token reset));
          caller_id = h.memory.caller_id;
          caller_name = h.memory.caller_name;
          note = h.memory.note;
          auto = h.memory.auto;
          rearms = ap (λ n. n + 1) h.memory.rearms;
          rejected = rejected;
          first = λ manual. sym h.memory.rearms ∙ may (h.memory.auto ∙ manual);
          free = ap (λ o. is_empty (id_of o)) (sym h.stays.next) ∙ ground (arith, free);
        });
        around = Around-tell go b key s d (rearmed_event go b id reset) _ (
            Around-put_recent go b key s d none _ (
              Around-put_snooze go b key s d (some (rearmed go b t id token reset))
                (record e { draws = draws })
                (record {
                  recent = h.around.recent;
                  snoozes = h.around.snoozes;
                  events = h.around.events;
                })));
      }

  rearm-Holding :
      (t : Snooze) (observed : Option Time) (e : Desk)
      → Holding go b key s t d e
      → OrFailed (Judged go b key s d) (rearm go b key t observed e)
  unfolding rearm
  rearm-Holding t observed e h =
      by_test (OrFailed (Judged go b key s d)) (not t.cap_rejected || ltb 0 t.rearms && not t.auto)
        (some e) (put_next go b key t (next_reset go b t observed) e)
        (λ _. held-Judged go b key s d t e h)
        (λ open_wake.
          put_next-Holding t (next_reset go b t observed) e
            (λ manual. ground (arith, open_wake, manual)) (h.rejected (ground (arith, open_wake)))
            h)

  pub reject-Holding :
      (t : Snooze) (confirmed : Bool) (observed : Option Time) (e : Desk)
      → (confirmed ≡ true → Capped go b s)
      → Holding go b key s t d e
      → OrFailed (Judged go b key s d) (reject go b key t confirmed observed e)
  unfolding reject
  reject-Holding t confirmed observed e capped h =
      let u = record t { cap_rejected = true } in
      let same =
        SameWake-outcome go b key s d t t.turn_id true t.cap_candidate t.turn_failed t.cap_failed_at
          h.memory in
      let written = tell (rejected_event go b t) (put_recent key (some u) e) in
      by_test (OrFailed (Judged go b key s d)) (confirmed && not t.cap_rejected)
        (rearm go b key u observed written) (rearm go b key t observed e)
        (λ now. rearm-Holding u observed written (
          Holding-tell go b key s d u (rejected_event go b t) _ (
            Holding-put_recent go b key s d t u e h same h.turn
              (λ _. inr (capped (ground (arith, now)))))))
        (λ _. rearm-Holding t observed e h)
