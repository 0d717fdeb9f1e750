-- ===== src/Usage/Held.antt =====
-- cmd/gang/usage_state.go: what is written of a wake while it is judged.
use gangline.Prelude.{String, ◌≡◌, inl, inr, refl, Bool, true, Option, some, List, ◌∷◌, eq_refl}
use gangline.Core.Types.{Time}
use gangline.Usage.{Go, Snooze, Stage, WakeEvent, Desk, put_recent, put_snooze, tell, wake_event}
use gangline.Usage.Judge.{Boundary}
use gangline.Usage.Fate.{SameWake, TurnOf, WasRejected, Told, Around, Stays, stays, Judged}

-- The state within the judgement of a wake, which is `t` in memory.
pub record Holding (go : Go) (b : Boundary) (key : String) (s t : Snooze) (d e : Desk)
    : Type 0 where
  pub memory : SameWake s t
  pub turn : TurnOf b s t.turn_id
  pub rejected : t.cap_rejected ≡ true → WasRejected go b s
  pub stays : Stays go b key s d e
  pub around : Around key d e

module _ (go : Go) (b : Boundary) (key : String) (s : Snooze) (d : Desk) where
  pub held-Judged : (t : Snooze) (e : Desk) → Holding go b key s t d e → Judged go b key s d e
  held-Judged t e h = record { fate = stays h.stays; around = h.around }

  pub here : {A : Type 0} (f : String → A) (v : A) → gangline.Store.World.update f key v key ≡ v
  here f v = rw (eq_refl key) refl

  pub Around-put_recent :
      (o : Option Snooze) (e : Desk) → Around key d e → Around key d (put_recent key o e)
  Around-put_recent o e a = record {
    recent = λ k other. rw other (a.recent k other);
    snoozes = a.snoozes;
    events = a.events;
  }

  pub Around-put_snooze :
      (o : Option Snooze) (e : Desk) → Around key d e → Around key d (put_snooze key o e)
  Around-put_snooze o e a = record {
    recent = a.recent;
    snoozes = λ k other. rw other (a.snoozes k other);
    events = a.events;
  }

  pub Around-tell : (ev : WakeEvent) (e : Desk) → Around key d e → Around key d (tell ev e)
  unfolding Told
  Around-tell ev e a = record {
    recent = a.recent;
    snoozes = a.snoozes;
    events = λ stage x told. inr (a.events stage x told);
  }

  -- The wake is written with another outcome of its turn.
  pub Holding-put_recent :
      (t u : Snooze) (e : Desk)
      → Holding go b key s t d e
      → SameWake s u
      → TurnOf b s u.turn_id
      → (u.cap_rejected ≡ true → WasRejected go b s)
      → Holding go b key s u d (put_recent key (some u) e)
  Holding-put_recent t u e h same turn rejected = record {
    memory = same;
    turn = turn;
    rejected = rejected;
    stays = record {
      held = u;
      saved = here e.state.recent (some u);
      same = same;
      turn = turn;
      rejected = rejected;
      next = h.stays.next;
    };
    around = Around-put_recent (some u) e h.around;
  }

  pub Holding-tell :
      (t : Snooze) (ev : WakeEvent) (e : Desk)
      → Holding go b key s t d e
      → Holding go b key s t d (tell ev e)
  Holding-tell t ev e h = record {
    memory = h.memory;
    turn = h.turn;
    rejected = h.rejected;
    stays = record {
      held = h.stays.held;
      saved = h.stays.saved;
      same = h.stays.same;
      turn = h.stays.turn;
      rejected = h.stays.rejected;
      next = h.stays.next;
    };
    around = Around-tell ev e h.around;
  }

  pub Told-wake_event :
      (stage : Stage) (t : Snooze) (now : Time) (events : List WakeEvent)
      → SameWake s t
      → Told stage s (wake_event stage t now ∷ events)
  unfolding Told
  Told-wake_event stage t now events same =
      inl (rw (same.caller_id, same.caller_name, same.id, same.at) refl)

  -- Another outcome of the turn leaves the wake the same.
  pub SameWake-outcome :
      (t : Snooze) (turn_id : String) (rejected candidate failed : Bool) (failed_at : Time)
      → SameWake s t
      → SameWake s (record t {
        turn_id = turn_id;
        cap_rejected = rejected;
        cap_candidate = candidate;
        cap_failed_at = failed_at;
        turn_failed = failed;
      })
  SameWake-outcome t turn_id rejected candidate failed failed_at m = record {
    id = m.id;
    token = m.token;
    caller_id = m.caller_id;
    caller_name = m.caller_name;
    at = m.at;
    note = m.note;
    rearms = m.rearms;
    auto = m.auto;
    submitted_at = m.submitted_at;
  }
