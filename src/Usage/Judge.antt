-- ===== src/Usage/Judge.antt =====
-- cmd/gang/usage_state.go: `observeSnoozeTurn`, what the end of a turn makes of the wakes.
use gangline.Prelude.{
  ◌+◌, String, Bool, true, false, not, ◌&&◌, ◌||◌, Option, none, some, List, [], ◌∷◌, ltb, ◌==◌,
  is_some, is_empty, if◌then◌else◌,
}
use gangline.Core.Types.{Agent, Time, is_zero}
use gangline.Usage.{
  Snooze, snooze_completed, snooze_failed, snooze_cap_rejected, snooze_cleared, snooze_rearmed,
  WakeEvent, Desk, Go, five_minutes, CapFailure, is_generic, is_no_cap, usage_cap_failure,
  observed_capped_reset, recent_native_reset, put_recent, and_then, put_snooze, tell, wake_event,
  id_of, draw,
}

-- what harness.PromptTurn finds; where it fails it finds nothing
pub record PromptTurns : Type 0 where
  pub turns : List String
  pub pending : Bool
  pub left : Bool

-- the arguments of `observeSnoozeTurn`, with what it reads from outside
pub record Boundary : Type 0 where
  pub agent : Agent
  pub kind : String  -- of the notice
  pub turn_id : String
  pub failure : String
  pub uses_transcript : Bool  -- there is telemetry, and it uses the transcript
  pub provider_blocked : Bool
  pub now : Time
  pub prompt_turn : String → PromptTurns  -- by the token of a wake
  pub named_turn : String → PromptTurns  -- with the sender in the opening

module _ (go : Go) (b : Boundary) where
  abbrev pub is_end : Bool
  is_end = b.kind == "turn-finished" || b.kind == "turn-failed"

  abbrev pub nothing_found : PromptTurns → Bool
  nothing_found p = elim p.turns [ [] ↦ not p.pending && not p.left | t ∷ turns ↦ false ]

  abbrev pub located : String → PromptTurns
  located token =
      if nothing_found (b.prompt_turn token) then b.named_turn token else b.prompt_turn token

  unfoldable pub is_member : String → List String → Bool
  is_member t [] = false
  is_member t (u ∷ turns) = t == u || is_member t turns

  -- the wake, and whether its turn was read from the transcript
  unfoldable pub adopt : Snooze → List String → Snooze × Bool
  adopt s [] = (s, false)
  adopt s (t ∷ turns) =
      (record s { turn_id = if is_member b.turn_id (t ∷ turns) then b.turn_id else t }, true)

  -- the wake fails, which is told once
  unfoldable pub fail_once : String → Snooze → Desk → Desk
  fail_once key s d =
      if s.turn_failed
      then d
      else tell (wake_event snooze_failed s b.now)
          (put_recent key (some (record s { turn_failed = true })) d)

  abbrev pub error_since : Snooze → Bool
  error_since s =
      not (is_zero s.submitted_at) && not (ltb b.agent.native.last_error_at s.submitted_at)

  unfoldable pub finish_turn : String → Snooze → Desk → Desk
  finish_turn key s d =
      if not b.provider_blocked && not (error_since s) && is_empty b.agent.native.turn_failure
      then tell (wake_event snooze_completed s b.now) (put_recent key none d)
      else fail_once key s d

  abbrev pub rearmed : Snooze → String → String → Time → Snooze
  rearmed s id token reset = record s {
    id = id;
    token = token;
    at = reset;
    recipient_id = "";
    recipient_name = "";
    turn_id = "";
    cap_rejected = false;
    turn_failed = false;
    cap_candidate = false;
    cap_failed_at = 0;
    submitted_at = 0;
    submission = "";
    rearms = s.rearms + 1;
  }

  abbrev pub rearmed_event : String → Time → WakeEvent
  rearmed_event id reset = record {
    stage = snooze_rearmed;
    at = b.now;
    hitch_id = b.agent.id;
    name = b.agent.name;
    id = id;
    deadline = reset;
  }

  unfoldable pub put_next : String → Snooze → Option Time → Desk → Option Desk
  put_next key s none d = some d
  put_next key s (some reset) d =
      if not (is_empty (id_of (d.state.snoozes key)))
      then some (tell (wake_event snooze_cleared s b.now) (put_recent key none d))
      else draw d.draws λ id token draws. some (
          tell (rearmed_event id reset) (
            put_recent key none
              (put_snooze key (some (rearmed s id token reset)) (record d { draws = draws }))))

  abbrev pub next_reset : Snooze → Option Time → Option Time
  next_reset s none = if s.auto then recent_native_reset go b.agent.native.limits b.now else none
  next_reset s (some reset) = some reset

  unfoldable pub rearm : String → Snooze → Option Time → Desk → Option Desk
  rearm key s observed d =
      if not s.cap_rejected || ltb 0 s.rearms && not s.auto
      then some d
      else put_next key s (next_reset s observed) d

  abbrev pub rejected_event : Snooze → WakeEvent
  rejected_event s = record {
    stage = snooze_cap_rejected;
    at = b.now;
    hitch_id = b.agent.id;
    name = b.agent.name;
    id = s.id;
    deadline = 0;
  }

  -- a cap that is confirmed rejects the wake
  unfoldable pub reject : String → Snooze → Bool → Option Time → Desk → Option Desk
  reject key s confirmed observed d =
      if confirmed && not s.cap_rejected
      then rearm key (record s { cap_rejected = true }) observed
          (tell (rejected_event s) (put_recent key (some (record s { cap_rejected = true })) d))
      else rearm key s observed d

  abbrev pub reading_since : Option Time → Time → Bool
  reading_since none t = false
  reading_since (some at) t = not (ltb at t)

  abbrev pub dropped : Snooze → Snooze
  dropped s = record s { cap_candidate = false }

  unfoldable pub drop_candidate : String → Snooze → Desk → Desk
  drop_candidate key s d =
      if s.turn_failed
      then put_recent key (some (dropped s)) d
      else put_recent key (some (record (dropped s) { turn_failed = true }))
          (tell (wake_event snooze_failed s b.now) d)

  -- a candidate waits five minutes for a reading that confirms the cap
  unfoldable pub check_candidate : String → Snooze → Bool → Option Time → Desk → Option Desk
  check_candidate key s confirmed observed d =
      if s.cap_candidate && (is_zero s.cap_failed_at || ltb (s.cap_failed_at + five_minutes) b.now)
      then some (drop_candidate key s d)
      else if s.cap_candidate
          && is_some observed
          && reading_since b.agent.native.limits.at s.cap_failed_at
      then reject key (dropped s) true observed d
      else reject key s confirmed observed d

  abbrev pub by_telemetry : Snooze → Bool
  by_telemetry s =
      s.auto && b.uses_transcript && b.agent.native.turn_id == s.turn_id && error_since s

  abbrev pub failed_turn : Snooze → Bool → Bool
  failed_turn s adopted =
      b.turn_id == s.turn_id
      && b.kind == "turn-failed"
      && (adopted || b.agent.native.failed_turn == s.turn_id)

  unfoldable pub on_failure : String → Snooze → CapFailure → Option Time → Desk → Option Desk
  on_failure key s cap observed d =
      if is_no_cap cap
      then some (fail_once key s d)
      else if is_generic cap && not (is_some observed)
      then some (put_recent key (some (record s { cap_candidate = true; cap_failed_at = b.now })) d)
      else check_candidate key s true observed d

  unfoldable pub judge_turn : String → Snooze × Bool → Desk → Option Desk
  judge_turn key (s, adopted) d =
      let observed = observed_capped_reset go b.agent.native.limits s.submitted_at b.now in
      if b.turn_id == s.turn_id && b.kind == "turn-finished"
      then some (finish_turn key s d)
      else if by_telemetry s
      then on_failure key s (usage_cap_failure go b.agent.native.last_error) observed d
      else if failed_turn s adopted
      then on_failure key s (usage_cap_failure go b.failure) observed d
      else check_candidate key s false observed d

  unfoldable pub judge_end : String → Snooze → PromptTurns → Desk → Option Desk
  judge_end key s p d =
      if p.pending
      then some d
      else if p.left
      then some (fail_once key s d)
      else judge_turn key (adopt s p.turns) d

  -- the body of the loop over `state.Recent`
  unfoldable pub judge : String → Snooze → Desk → Option Desk
  judge key s d =
      if not (s.recipient_id == b.agent.id) || is_empty s.turn_id
      then some d
      else if is_end
      then judge_end key s (located s.token) d
      else judge_turn key (s, false) d

  unfoldable pub judge_key : String → Option Snooze → Desk → Option Desk
  judge_key key none d = some d
  judge_key key (some s) d = judge key s d

  -- `observeSnoozeTurn`: the loop over the keys of `state.Recent`, in the order that the range gives
  unfoldable pub observe_snooze_turn : List String → Desk → Option Desk
  observe_snooze_turn [] d = some d
  observe_snooze_turn (key ∷ keys) d =
      and_then (judge_key key (d.state.recent key) d) (λ e. observe_snooze_turn keys e)
