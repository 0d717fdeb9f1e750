-- ===== src/Usage/Fate.antt =====
-- cmd/gang/usage_state.go: what can become of a wake at the end of a turn.
use gangline.Prelude.{
  refl, ◌+◌, ◌≤◌, ◌<◌, is_some, String, ◌≡◌, ◌⊎◌, true, false, Option, none, some, List, [], ◌∷◌,
  ◌==◌, is_empty,
}
use gangline.Usage.{
  Go, is_no_cap, usage_cap_failure, observed_capped_reset, and_then, Snooze, Stage,
  snooze_completed, snooze_cleared, WakeEvent, Desk, wake_event, id_of,
}
use gangline.Usage.Judge.{Boundary}

-- The same wake, whatever became of its turn.
pub record SameWake (s t : Snooze) : Type 0 where
  pub id : t.id ≡ s.id
  pub token : t.token ≡ s.token
  pub caller_id : t.caller_id ≡ s.caller_id
  pub caller_name : t.caller_name ≡ s.caller_name
  pub at : t.at ≡ s.at
  pub note : t.note ≡ s.note
  pub rearms : t.rearms ≡ s.rearms
  pub auto : t.auto ≡ s.auto
  pub submitted_at : t.submitted_at ≡ s.submitted_at

-- An event of this stage tells of the wake.
unfoldable pub Told : Stage → Snooze → List WakeEvent → Type 0
Told stage s [] = ⊥
Told stage s (e ∷ events) = (e ≡ wake_event stage s e.at) ⊎ Told stage s events

abbrev pub Listed : String → List String → Type 0
Listed turn [] = ⊥
Listed turn (t ∷ turns) = (turn ≡ t) ⊎ Listed turn turns

-- The turn is that of the wake, or one in which its prompt is found.
abbrev pub TurnOf : Boundary → Snooze → String → Type 0
TurnOf b s turn =
    (turn ≡ s.turn_id)
    ⊎ (Listed turn (b.prompt_turn s.token).turns ⊎ Listed turn (b.named_turn s.token).turns)

-- The boundary shows a cap: a reading since the wake was sent, an error since then in the turn of an automatic wake, or
-- the failure of the turn of the wake.
pub data Capped (go : Go) (b : Boundary) (s : Snooze) : Type 0 where
  by_reading :
      is_some (observed_capped_reset go b.agent.native.limits s.submitted_at b.now) ≡ true
      → Capped go b s
  by_error :
      s.auto ≡ true
      → TurnOf b s b.agent.native.turn_id
      → s.submitted_at ≤ b.agent.native.last_error_at
      → is_no_cap (usage_cap_failure go b.agent.native.last_error) ≡ false
      → Capped go b s
  by_failure :
      b.kind ≡ "turn-failed"
      → TurnOf b s b.turn_id
      → is_no_cap (usage_cap_failure go b.failure) ≡ false
      → Capped go b s

-- A cap has rejected the wake, before or at the boundary.
abbrev pub WasRejected : Go → Boundary → Snooze → Type 0
WasRejected go b s = (s.cap_rejected ≡ true) ⊎ Capped go b s

-- Nothing but the entries of the key has changed, and no event is lost.
pub record Around (key : String) (d e : Desk) : Type 0 where
  pub recent : (k : String) → (key == k) ≡ false → e.state.recent k ≡ d.state.recent k
  pub snoozes : (k : String) → (key == k) ≡ false → e.state.snoozes k ≡ d.state.snoozes k
  pub events : (stage : Stage) (s : Snooze) → Told stage s d.events → Told stage s e.events

-- The wake is still there, and nothing follows it.
pub record Stays (go : Go) (b : Boundary) (key : String) (s : Snooze) (d e : Desk) : Type 0 where
  pub held : Snooze
  pub saved : e.state.recent key ≡ some held
  pub same : SameWake s held
  pub turn : TurnOf b s held.turn_id
  pub rejected : held.cap_rejected ≡ true → WasRejected go b s
  pub next : e.state.snoozes key ≡ d.state.snoozes key

-- Its turn has finished without a failure, and without an error since it was sent.
pub record Completed (b : Boundary) (key : String) (s : Snooze) (d e : Desk) : Type 0 where
  pub gone : e.state.recent key ≡ none
  pub told : Told snooze_completed s e.events
  pub next : e.state.snoozes key ≡ d.state.snoozes key
  pub own : TurnOf b s b.turn_id
  pub no_error : (s.submitted_at ≡ 0) ⊎ (b.agent.native.last_error_at < s.submitted_at)
  pub finished : b.kind ≡ "turn-finished"
  pub accepted : b.provider_blocked ≡ false
  pub no_failure : b.agent.native.turn_failure ≡ ""

pub record Cleared (go : Go) (b : Boundary) (key : String) (s : Snooze) (d e : Desk) : Type 0 where
  pub gone : e.state.recent key ≡ none
  pub told : Told snooze_cleared s e.events
  pub next : e.state.snoozes key ≡ d.state.snoozes key
  pub rejected : WasRejected go b s
  pub follows : is_empty (id_of (d.state.snoozes key)) ≡ false

pub record Rearmed (go : Go) (b : Boundary) (key : String) (s : Snooze) (d e : Desk) : Type 0 where
  pub gone : e.state.recent key ≡ none
  pub next : Snooze
  pub saved : e.state.snoozes key ≡ some next
  pub caller_id : next.caller_id ≡ s.caller_id
  pub caller_name : next.caller_name ≡ s.caller_name
  pub note : next.note ≡ s.note
  pub auto : next.auto ≡ s.auto
  pub rearms : next.rearms ≡ s.rearms + 1
  pub rejected : WasRejected go b s
  pub first : s.auto ≡ false → s.rearms ≡ 0
  pub free : is_empty (id_of (d.state.snoozes key)) ≡ true

-- What becomes of a wake: it stays, its turn has completed it, or a cap has rejected it and a later wake of its caller supersedes it or it
-- is put again, once at most unless the wake is automatic.
pub data Fate (go : Go) (b : Boundary) (key : String) (s : Snooze) (d e : Desk) : Type 0 where
  stays : Stays go b key s d e → Fate go b key s d e
  completed : Completed b key s d e → Fate go b key s d e
  cleared : Cleared go b key s d e → Fate go b key s d e
  put_again : Rearmed go b key s d e → Fate go b key s d e

pub record Judged (go : Go) (b : Boundary) (key : String) (s : Snooze) (d e : Desk) : Type 0 where
  pub fate : Fate go b key s d e
  pub around : Around key d e

-- what a change gives, unless an identity could not be drawn
abbrev pub OrFailed : {A : Type 0} → (A → Type 0) → Option A → Type 0
OrFailed P none = Unit
OrFailed P (some e) = P e

pub OrFailed-and_then :
    {A B : Type 0} {P : A → Type 0} (Q : B → Type 0) (o : Option A) (f : A → Option B)
    → OrFailed P o
    → ((a : A) → o ≡ some a → P a → OrFailed Q (f a))
    → OrFailed Q (and_then o f)
OrFailed-and_then Q none f p q = tt
OrFailed-and_then Q (some e) f p q = q e refl p
