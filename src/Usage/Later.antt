-- ===== src/Usage/Later.antt =====
-- cmd/gang/usage_state.go: what has become of a wake holds on through the loop.
use mathlib.Core.Path.{subst}
use gangline.Prelude.{
  ◌⊎◌, ◌≤◌, ◌<◌, is_some, true, ◌+◌, String, ◌≡◌, inl, inr, refl, sym, ap, ◌∙◌, none, List, [], ◌∷◌,
  is_empty,
}
use gangline.Usage.{
  Go, observed_capped_reset, Snooze, Stage, snooze_completed, snooze_cleared, WakeEvent, Desk,
  id_of,
}
use gangline.Usage.Judge.{Boundary}
use gangline.Usage.Fate.{
  TurnOf, Listed, Capped, by_reading, by_error, by_failure, WasRejected, SameWake, Told, Around,
  Stays, stays, completed, cleared, put_again, Fate,
}

pub SameWake-refl : (s : Snooze) → SameWake s s
SameWake-refl s = record {
  id = refl;
  token = refl;
  caller_id = refl;
  caller_name = refl;
  at = refl;
  note = refl;
  rearms = refl;
  auto = refl;
  submitted_at = refl;
}

SameWake-trans : (s t u : Snooze) → SameWake s t → SameWake t u → SameWake s u
SameWake-trans s t u p q = record {
  id = q.id ∙ p.id;
  token = q.token ∙ p.token;
  caller_id = q.caller_id ∙ p.caller_id;
  caller_name = q.caller_name ∙ p.caller_name;
  at = q.at ∙ p.at;
  note = q.note ∙ p.note;
  rearms = q.rearms ∙ p.rearms;
  auto = q.auto ∙ p.auto;
  submitted_at = q.submitted_at ∙ p.submitted_at;
}

pub Around-refl : (key : String) (d : Desk) → Around key d d
Around-refl key d = record {
  recent = λ k other. refl;
  snoozes = λ k other. refl;
  events = λ stage s told. told;
}

-- A key without a wake is left alone.
pub record Gone (key : String) (d e : Desk) : Type 0 where
  pub gone : e.state.recent key ≡ none
  pub next : e.state.snoozes key ≡ d.state.snoozes key
  pub events : (stage : Stage) (s : Snooze) → Told stage s d.events → Told stage s e.events

Told-SameWake :
    (stage : Stage) (s t : Snooze) (events : List WakeEvent)
    → SameWake s t
    → Told stage t events
    → Told stage s events
unfolding Told
Told-SameWake stage s t [] same told = told
Told-SameWake stage s t (e ∷ events) same (inl this) =
    inl (this ∙ rw (same.caller_id, same.caller_name, same.id, same.at) refl)
Told-SameWake stage s t (e ∷ events) same (inr earlier) =
    inr (Told-SameWake stage s t events same earlier)

TurnOf-later :
    (b : Boundary) (s t : Snooze) (turn : String)
    → SameWake s t
    → TurnOf b s t.turn_id
    → TurnOf b t turn
    → TurnOf b s turn
TurnOf-later b s t turn same old (inl this) = subst (TurnOf b s) (sym this) old
TurnOf-later b s t turn same old (inr found) = inr (
    subst (λ k. Listed turn (b.prompt_turn k).turns ⊎ Listed turn (b.named_turn k).turns) same.token
      found)

Capped-later :
    (go : Go) (b : Boundary) (s t : Snooze)
    → SameWake s t
    → TurnOf b s t.turn_id
    → Capped go b t
    → Capped go b s
Capped-later go b s t same old (by_reading seen) = by_reading (
    subst (λ x. is_some (observed_capped_reset go b.agent.native.limits x b.now) ≡ true)
      same.submitted_at seen)
Capped-later go b s t same old (by_error auto turn late cap) =
    by_error (sym same.auto ∙ auto) (TurnOf-later b s t b.agent.native.turn_id same old turn)
      (subst (λ x. x ≤ b.agent.native.last_error_at) same.submitted_at late) cap
Capped-later go b s t same old (by_failure kind turn cap) =
    by_failure kind (TurnOf-later b s t b.turn_id same old turn) cap

WasRejected-later :
    (go : Go) (b : Boundary) (key : String) (s : Snooze) (d e : Desk) (h : Stays go b key s d e)
    → WasRejected go b h.held
    → WasRejected go b s
WasRejected-later go b key s d e h (inl before) = h.rejected before
WasRejected-later go b key s d e h (inr now) = inr (Capped-later go b s h.held h.same h.turn now)

-- An outcome that is final holds on, and a wake that stayed meets its own.
pub Gone-Fate :
    (go : Go) (b : Boundary) (key : String) (s : Snooze) (d e f : Desk)
    → Fate go b key s d e
    → (e.state.recent key ≡ none → Gone key e f)
    → ((h : Stays go b key s d e) → Fate go b key h.held e f)
    → Fate go b key s d f
Gone-Fate go b key s d e f (stays h) g k = moved (k h)
  where
    moved : Fate go b key h.held e f → Fate go b key s d f
    moved (stays m) = stays (record {
      held = m.held;
      saved = m.saved;
      same = SameWake-trans s h.held m.held h.same m.same;
      turn = TurnOf-later b s h.held m.held.turn_id h.same h.turn m.turn;
      rejected = λ r. WasRejected-later go b key s d e h (m.rejected r);
      next = m.next ∙ h.next;
    })
    moved (completed m) = completed (record {
      gone = m.gone;
      told = Told-SameWake snooze_completed s h.held f.events h.same m.told;
      next = m.next ∙ h.next;
      own = TurnOf-later b s h.held b.turn_id h.same h.turn m.own;
      no_error =
          subst (λ x. (x ≡ 0) ⊎ (b.agent.native.last_error_at < x)) h.same.submitted_at m.no_error;
      finished = m.finished;
      accepted = m.accepted;
      no_failure = m.no_failure;
    })
    moved (cleared m) = cleared (record {
      gone = m.gone;
      told = Told-SameWake snooze_cleared s h.held f.events h.same m.told;
      next = m.next ∙ h.next;
      rejected = WasRejected-later go b key s d e h m.rejected;
      follows = ap (λ o. is_empty (id_of o)) (sym h.next) ∙ m.follows;
    })
    moved (put_again m) = put_again (record {
      gone = m.gone;
      next = m.next;
      saved = m.saved;
      caller_id = m.caller_id ∙ h.same.caller_id;
      caller_name = m.caller_name ∙ h.same.caller_name;
      note = m.note ∙ h.same.note;
      auto = m.auto ∙ h.same.auto;
      rearms = m.rearms ∙ ap (λ n. n + 1) h.same.rearms;
      rejected = WasRejected-later go b key s d e h m.rejected;
      first = λ manual. sym h.same.rearms ∙ m.first (h.same.auto ∙ manual);
      free = ap (λ o. is_empty (id_of o)) (sym h.next) ∙ m.free;
    })
Gone-Fate go b key s d e f (completed h) g k =
    let left = g h.gone in
    completed (record {
      gone = left.gone;
      told = left.events snooze_completed s h.told;
      next = left.next ∙ h.next;
      own = h.own;
      no_error = h.no_error;
      finished = h.finished;
      accepted = h.accepted;
      no_failure = h.no_failure;
    })
Gone-Fate go b key s d e f (cleared h) g k =
    let left = g h.gone in
    cleared (record {
      gone = left.gone;
      told = left.events snooze_cleared s h.told;
      next = left.next ∙ h.next;
      rejected = h.rejected;
      follows = h.follows;
    })
Gone-Fate go b key s d e f (put_again h) g k =
    let left = g h.gone in
    put_again (record {
      gone = left.gone;
      next = h.next;
      saved = left.next ∙ h.saved;
      caller_id = h.caller_id;
      caller_name = h.caller_name;
      note = h.note;
      auto = h.auto;
      rearms = h.rearms;
      rejected = h.rejected;
      first = h.first;
      free = h.free;
    })
