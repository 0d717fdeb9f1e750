-- ===== src/Compaction/Refused.antt =====
-- cmd/gang/messages.go, compaction.go: an error that says a harness refused a compaction follows a refusal that it has shown.
use gangline.Prelude.{
  String, ◌≡◌, refl, Bool, true, false, ◌||◌, Option, none, some, List, [], ◌∷◌, if◌then◌else◌,
  by_test,
}
use gangline.Core.Types.{Agent, Event, Compaction, Time}
use gangline.Core.Step.{step}
use gangline.Core.Step.Marks.{asked}
use gangline.Compaction.{
  Seen, refusal, refused, not_started, problem, Desk, Result, ok, err, M, pure, raise, faulty, io,
  continue, ◌>>=◌, ◌>>◌, call, holding, assign, save, addressed, rejects, apply,
}
use gangline.Compaction.Terminal.{
  Awaited, composer_ready, await_refused, await_not_started, await_failed, Terminal, with_token,
  publish_once, publish_resume, await_composer, finish_input, accept_resume, resume_sent, when_done,
  queue_resume,
}

abbrev pub is_refusal : Seen → Bool
is_refusal refusal = true
is_refusal _ = false

-- The terminal has shown a refusal.
abbrev pub was_refused : List Seen → Bool
was_refused [] = false
was_refused (x ∷ xs) = is_refusal x || was_refused xs

abbrev pub Refused : Desk → Type 0
Refused d = was_refused d.seen ≡ true

module _ (t : Terminal) where
  -- An error that says the harness refused the compaction is raised only once the terminal has shown a refusal.
  abbrev pub Sound : {A : Type 0} → Result A × Desk → Type 0
  Sound (ok x, d) = Unit
  Sound (err refused, d) = Refused d
  Sound (err not_started, d) = Unit
  Sound (err problem, d) = Unit

  abbrev pub Owns : {A : Type 0} → M A → Type 0
  Owns m = (d : Desk) → Sound (m d)

  then-Owns : {A B : Type 0} (m : M A) (n : M B) → Owns m → Owns n → Owns (m >> n)
  unfolding ◌>>=◌
  then-Owns {A = A} {B = B} m n h k d = goes (m d) (h d)
    where
      goes : (r : Result A × Desk) → Sound r → Sound (continue r (λ _. n))
      goes (ok x, e) j = k e
      goes (err refused, e) j = j
      goes (err not_started, e) j = j
      goes (err problem, e) j = j

  if-Owns : {A : Type 0} (b : Bool) (m n : M A) → Owns m → Owns n → Owns (if b then m else n)
  if-Owns {A = A} b m n h k = by_test (λ (x : M A). Owns x) b m n (λ _. h) (λ _. k)

  io-Owns : {A : Type 0} (m : M A) → Owns m → Owns (io m)
  unfolding io
  io-Owns m h d = goes d.faults
    where
      goes : (fs : List Bool) → Sound (faulty fs m d)
      goes [] = h d
      goes (true ∷ fs) = tt
      goes (false ∷ fs) = h (record d { faults = fs })

  pure-Owns : Owns (pure tt)
  pure-Owns d = tt

  fail-Owns : Owns (raise {A = Unit} problem)
  fail-Owns d = tt

  assign-Owns : (f : Agent → Agent) → Owns (assign f)
  assign-Owns f d = tt

  call-Owns : Owns call
  call-Owns = io-Owns (pure tt) pure-Owns

  save-Owns : Owns save
  save-Owns = io-Owns (λ d. (ok tt, record d { disk = d.held })) (λ d. tt)

  apply-Owns : (now : Time) (e : Event) → Owns (apply now e)
  unfolding apply holding ◌>>=◌
  apply-Owns now e d =
      let own = addressed now d.held e in
      let r = step d.held own in
      let write : M Unit = io λ k.
        (ok tt, record k { held = r.0; disk = r.0; requested = asked e.compaction k.requested }) in
      by_test (λ (x : M Unit). Sound (x d)) (rejects r.1) (raise problem) (write >> call) (λ _. tt)
        (λ _. then-Owns write call (io-Owns _ (λ k. tt)) call-Owns d)

  with_token-Owns : (o : Option Compaction) → Owns (with_token t o)
  with_token-Owns none = fail-Owns
  with_token-Owns (some c) = search (if-Owns, then-Owns, call-Owns, save-Owns, pure-Owns)

  publish_once-Owns : (published : Option Bool) → Owns (publish_once t published)
  publish_once-Owns none = fail-Owns
  publish_once-Owns (some already) = search (if-Owns, then-Owns, call-Owns, pure-Owns)

  holding_token-Owns : Owns (holding (λ a. with_token t a.compaction))
  unfolding holding
  holding_token-Owns d = with_token-Owns d.held.compaction d

  publish_resume-Owns : Owns (publish_resume t)
  unfolding publish_resume
  publish_resume-Owns =
      search (then-Owns, holding_token-Owns, publish_once-Owns, assign-Owns, save-Owns)

  await_composer-Owns : (w : Awaited) → Owns (await_composer t w)
  unfolding ◌>>=◌
  await_composer-Owns composer_ready d = tt
  await_composer-Owns await_refused d = refl
  await_composer-Owns await_not_started d = tt
  await_composer-Owns await_failed d = tt

  finish_input-Owns : (id outcome : String) → Owns (finish_input t id outcome)
  finish_input-Owns id outcome = search (then-Owns, call-Owns, assign-Owns, save-Owns, apply-Owns)

  accept_resume-Owns : (id : String) (accepted : Option Bool) → Owns (accept_resume t id accepted)
  accept_resume-Owns id none = search (then-Owns, finish_input-Owns, fail-Owns)
  accept_resume-Owns id (some accepted) = search (then-Owns, finish_input-Owns, call-Owns)

  resume_sent-Owns : (id : String) → Owns (resume_sent t id)
  resume_sent-Owns id =
      search (if-Owns, then-Owns, finish_input-Owns, accept_resume-Owns, fail-Owns)

  when_done-Owns : (b : Bool) → Owns (when_done t b)
  when_done-Owns b = search (if-Owns, pure-Owns)

  pub queue_resume-Owns : (id : String) → Owns (queue_resume t id)
  unfolding queue_resume
  queue_resume-Owns id =
      search
        (
          then-Owns, publish_resume-Owns, await_composer-Owns, call-Owns, when_done-Owns,
          apply-Owns, resume_sent-Owns,
        )
        depth 8
