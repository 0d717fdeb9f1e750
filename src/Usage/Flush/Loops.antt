-- ===== src/Usage/Flush/Loops.antt =====
-- cmd/gang/usage_state.go: the two loops of a flush, over all wakes.
use mathlib.Core.Path.{subst}
use gangline.Prelude.{
  String, ◌≡◌, ◌⊎◌, inl, inr, refl, sym, ap, ◌∙◌, Bool, true, false, not, ◌||◌, Option, none, some,
  List, [], ◌∷◌, ◌==◌, is_some, is_empty, if◌then◌else◌, arith, eq_iff, eq_refl, Bool-cases,
  Option-cases, by_test, some_injective,
}
use gangline.Core.Types.{Agent, Time}
use gangline.Usage.{
  Snooze, snooze_cleared, snooze_rearmed, Desk, put_recent, put_snooze, tell, wake_event, id_of,
  draw,
}
use gangline.Usage.Fate.{OrFailed, OrFailed-and_then}
use gangline.Usage.Flush.{
  active_agent, is_open, Flushing, unsent, release, release_all, serve, serve_all, flush_wakes,
}
use gangline.Usage.Flush.Served.{
  Addressed, Due, Awaited, Elsewhere, Served, Elsewhere-refl, serve-Served,
}

-- The key is among the keys.
unfoldable pub is_in : String → List String → Bool
is_in key [] = false
is_in key (k ∷ keys) = k == key || is_in key keys

-- The keys are all those of the map.
pub record Covers (keys : List String) (m : String → Option Snooze) : Type 0 where
  pub covers : (key : String) → is_in key keys ≡ false → m key ≡ none

not_some : (u : Snooze) → none ≡ some u → ⊥
not_some u e = cc

module _ (agents : List Agent) (now : Time) where
  record Released (key : String) (d e : Desk) : Type 0 where
    awaited : Awaited agents now key e
    elsewhere : Elsewhere agents now key d e

  nothing_sent : (key : String) (d : Desk) → d.state.recent key ≡ none → Awaited agents now key d
  nothing_sent key d missing = record {
    awaited = λ s saved. absurd (not_some s (sym missing ∙ saved));
  }

  -- The wake that was sent is taken away, with what else is written at its key.
  Released-put_recent :
      (key : String) (d e : Desk)
      → ((k : String) → e.state.recent k ≡ d.state.recent k)
      → ((k : String) → (key == k) ≡ false → e.state.snoozes k ≡ d.state.snoozes k)
      → Released key d (put_recent key none e)
  Released-put_recent key d e recent snoozes = record {
    awaited = nothing_sent key (put_recent key none e) (rw (eq_refl key) refl);
    elsewhere = record {
      recent = λ k other. rw other (recent k);
      snoozes = snoozes;
      fewer = λ k u saved. elim (Bool-cases (key == k)) [
        | inl same ↦ absurd (not_some u (rw same at saved))
        | inr other ↦ sym (recent k) ∙ rw other at saved
      ];
    };
  }

  release-Released :
      (key : String) (d : Desk)
      → OrFailed (Released key d) (release agents now key (d.state.recent key) d)
  unfolding release
  release-Released key d = elim (Option-cases (d.state.recent key)) [
    | inl missing ↦
        subst (λ o. OrFailed (Released key d) (release agents now key o d)) (sym missing)
          (record {
            awaited = nothing_sent key d missing;
            elsewhere = Elsewhere-refl agents now key d;
          })
    | inr (s, there) ↦
        subst (λ o. OrFailed (Released key d) (release agents now key o d)) (sym there)
          (released s there)
  ]
    where
      again :
          (s : Snooze) (draws : List (String × String))
          → OrFailed (Released key d) (
              draw draws λ id token rest. some (
                put_recent key none (
                  tell (wake_event snooze_rearmed (unsent agents now s id token) now) (
                    put_snooze key
                      (some (unsent agents now s id token))
                      (record d { draws = rest })))))
      again s [] = tt
      again s ((id, token) ∷ rest) =
          Released-put_recent key d _ (λ k. refl) (λ k other. rw other refl)

      released :
          (s : Snooze)
          → d.state.recent key ≡ some s
          → OrFailed (Released key d) (release agents now key (some s) d)
      released s there =
          let follows = not (is_empty (id_of (d.state.snoozes key))) in
          let cleared = some (put_recent key none (tell (wake_event snooze_cleared s now) d)) in
          let renewed = draw d.draws λ id token rest. some (
            put_recent key none (
              tell (wake_event snooze_rearmed (unsent agents now s id token) now) (
                put_snooze key (some (unsent agents now s id token))
                  (record d { draws = rest })))) in
          by_test (OrFailed (Released key d)) (is_some (active_agent agents s.recipient_id))
            (some d) (if follows then cleared else renewed)
            (λ active. record {
              awaited = record {
                awaited = λ t saved.
                    ap (λ x. is_some (active_agent agents x.recipient_id))
                      (some_injective t s (sym saved ∙ there))
                    ∙ active;
              };
              elsewhere = Elsewhere-refl agents now key d;
            })
            (λ _.
              by_test (OrFailed (Released key d)) follows cleared renewed
                (λ _. Released-put_recent key d _ (λ k. refl) (λ k other. refl))
                (λ _. again s d.draws))

  still_awaited :
      (k key : String) (d e : Desk)
      → Elsewhere agents now k d e
      → Awaited agents now key d
      → Awaited agents now key e
  still_awaited k key d e h before = record {
    awaited = λ s saved. before.awaited s (h.fewer key s saved);
  }

  release_all-Awaited :
      (key : String) (keys : List String) (d : Desk)
      → (is_in key keys ≡ true) ⊎ Awaited agents now key d
      → OrFailed (Awaited agents now key) (release_all agents now keys d)
  unfolding release_all is_in
  release_all-Awaited key [] d (inl here) = ground (arith, here)
  release_all-Awaited key [] d (inr before) = before
  release_all-Awaited key (k ∷ keys) d h =
      OrFailed-and_then (Awaited agents now key) (release agents now k (d.state.recent k) d) _
        (release-Released k d)
        λ e _ step. release_all-Awaited key keys e (later e step h (Bool-cases (k == key)))
    where
      later :
          (e : Desk)
          → Released k d e
          → (is_in key (k ∷ keys) ≡ true) ⊎ Awaited agents now key d
          → ((k == key) ≡ true) ⊎ ((k == key) ≡ false)
          → (is_in key keys ≡ true) ⊎ Awaited agents now key e
      later e step h (inl same) =
          inr (subst (λ j. Awaited agents now j e) ((eq_iff k key).0 same) step.awaited)
      later e step (inl found) (inr other) = inl (ground (arith, found, other))
      later e step (inr before) (inr other) = inr (still_awaited k key d e step.elsewhere before)

  still-Due :
      (k key : String) (f g : Flushing)
      → (k == key) ≡ false
      → Elsewhere agents now k f.desk g.desk
      → Due agents now key f
      → Due agents now key g
  still-Due k key f g other h before = record {
    served = λ s saved due.
        subst (λ o. (is_open agents now o ≡ true) ⊎ Addressed agents now s)
          (sym (h.recent key other)) (before.served s (sym (h.snoozes key other) ∙ saved) due);
  }

  -- Every wake is awaited by an active agent, or is due and served.
  pub record Flushed (key : String) (f : Flushing) : Type 0 where
    pub sent : Awaited agents now key f.desk
    pub queued : Due agents now key f

  serve_all-Flushed :
      (key : String) (keys : List String) (f : Flushing)
      → Awaited agents now key f.desk
      → (is_in key keys ≡ true) ⊎ Due agents now key f
      → OrFailed (Flushed key) (serve_all agents now keys f)
  unfolding serve_all is_in
  serve_all-Flushed key [] f sent (inl here) = ground (arith, here)
  serve_all-Flushed key [] f sent (inr before) = record { sent = sent; queued = before }
  serve_all-Flushed key (k ∷ keys) f sent h =
      OrFailed-and_then (Flushed key) (serve agents now k (f.desk.state.snoozes k) f) _
        (serve-Served agents now k f)
        λ g _ step.
          serve_all-Flushed key keys g (still_awaited k key f.desk g.desk step.elsewhere sent)
            (later g step h (Bool-cases (k == key)))
    where
      later :
          (g : Flushing)
          → Served agents now k f.desk g
          → (is_in key (k ∷ keys) ≡ true) ⊎ Due agents now key f
          → ((k == key) ≡ true) ⊎ ((k == key) ≡ false)
          → (is_in key keys ≡ true) ⊎ Due agents now key g
      later g step h (inl same) =
          inr (subst (λ j. Due agents now j g) ((eq_iff k key).0 same) step.due)
      later g step (inl found) (inr other) = inl (ground (arith, found, other))
      later g step (inr before) (inr other) = inr (still-Due k key f g other step.elsewhere before)

  -- After a flush, every wake that was sent is awaited of an active agent, and every wake that is due
  -- waits for the outcome of the one before, or has an active recipient, unless its caller is not active and
  -- the team has not one lead, if the loops meet every key of their maps; or an identity could not be drawn,
  -- and nothing is saved.
  pub flush_wakes-Flushed :
      (recent : List String) (snoozes : Desk → List String) (d : Desk)
      → Covers recent d.state.recent
      → ((e : Desk) → release_all agents now recent d ≡ some e → Covers (snoozes e) e.state.snoozes)
      → (key : String) → OrFailed (Flushed key) (flush_wakes agents now recent snoozes d)
  unfolding flush_wakes
  flush_wakes-Flushed recent snoozes d sent queued key =
      OrFailed-and_then (Flushed key) (release_all agents now recent d) _
        (release_all-Awaited key recent d (either (Bool-cases (is_in key recent))))
        λ e released awaited.
          serve_all-Flushed key (snoozes e) (record { desk = e; wakes = [] }) awaited
            (due e released (Bool-cases (is_in key (snoozes e))))
    where
      either :
          (is_in key recent ≡ true) ⊎ (is_in key recent ≡ false)
          → (is_in key recent ≡ true) ⊎ Awaited agents now key d
      either (inl found) = inl found
      either (inr other) = inr (nothing_sent key d (sent.covers key other))

      due :
          (e : Desk)
          → release_all agents now recent d ≡ some e
          → (is_in key (snoozes e) ≡ true) ⊎ (is_in key (snoozes e) ≡ false)
          → (is_in key (snoozes e) ≡ true) ⊎ Due agents now key (record { desk = e; wakes = [] })
      due e released (inl found) = inl found
      due e released (inr other) = inr (record {
        served =
            λ s saved due. absurd (not_some s (sym ((queued e released).covers key other) ∙ saved));
      })
