-- ===== src/Compaction/Honest.antt =====
-- cmd/gang/messages.go, compaction.go: what a start of a compaction tells of the compaction is true.
use gangline.Prelude.{
  ℕ, String, ◌≡◌, refl, Bool, true, false, not, ◌&&◌, ◌||◌, Option, none, some, List, [], ◌∷◌,
  is_some, is_empty, if◌then◌else◌, by_test, arith,
}
use gangline.Core.Types.{input_started, compaction_unverified}
use gangline.Compaction.{
  Phase, not_run, may_have_run, Told, Seen, pasted, entered, refusal, refused, not_started, problem,
  Desk, Result, ok, err, M, pure, raise, continue, ◌>>=◌, ◌>>◌, call, assign, save, see, event_of,
  apply, Failing, fail_with, observe_compaction, continue_compaction,
}
use gangline.Compaction.Terminal.{
  Composer, unread, behind_prompt, holding_text, Terminal, look_at, abandon_draft, abort_input,
  defer_draft, when_done, queue_resume,
}
use gangline.Compaction.Start.{
  queued_or_failed, submit, command_text, unless_busy, staged_composer, stage, rescued,
  stage_or_abort, submit_or_report, begun, type_command, start_compaction,
}
use gangline.Compaction.Rules.{
  keeping, Rule, Keeps, then_leaves, see-Keeps, fail_with-Keeps, continue_compaction-Keeps,
  observe_compaction-Keeps,
}
use gangline.Compaction.Drafts.{
  when_done-Keeps, look_at-Keeps, abandon_draft-Keeps, defer_draft-Keeps, abort_input-Keeps,
  queue_resume-Keeps,
}
use gangline.Compaction.Refused.{was_refused, Refused, Sound, queue_resume-Owns}
use gangline.Compaction.Begin.{begun-Keeps, start_compaction-Leaves}

abbrev pub is_not_run : Phase → Bool
is_not_run not_run = true
is_not_run _ = false

abbrev pub is_entered : Seen → Bool
is_entered entered = true
is_entered _ = false

-- Some notice says that the compaction did not run.
abbrev pub denied : List Told → Bool
denied [] = false
denied (x ∷ xs) = is_not_run x.phase || denied xs

-- The submit key has been sent.
abbrev pub submitted : List Seen → Bool
submitted [] = false
submitted (x ∷ xs) = is_entered x || submitted xs

-- A compaction is said not to have run only if its submit key was not sent, or the harness refused it.
abbrev pub Honest : Desk → Type 0
Honest d = (not (denied d.told) || (not (submitted d.seen) || was_refused d.seen)) ≡ true

abbrev Calm : Desk → Type 0
Calm d = (denied d.told || submitted d.seen) ≡ false

abbrev Quiet : Desk → Type 0
Quiet d = submitted d.seen ≡ false

abbrev Mild : Desk → Type 0
Mild d = (not (denied d.told) || was_refused d.seen) ≡ true

abbrev BeforeKey : Seen → Type 0
BeforeKey s = is_entered s ≡ false

abbrev Unsure : Phase → Type 0
Unsure p = is_not_run p ≡ false

abbrev AnySeen : Seen → Type 0
AnySeen s = Unit

abbrev AnyPhase : Phase → Type 0
AnyPhase p = Unit

Calm-Rule : Rule BeforeKey Unsure Calm
Calm-Rule = record {
  faults = λ d fs i. i;
  saves = λ d i. i;
  steps = λ e d i. i;
  edits = λ f d m i. i;
  sees = λ s d h i. ground arith;
  tells = λ id p d h i. ground arith;
}

Quiet-Rule : Rule BeforeKey AnyPhase Quiet
Quiet-Rule = record {
  faults = λ d fs i. i;
  saves = λ d i. i;
  steps = λ e d i. i;
  edits = λ f d m i. i;
  sees = λ s d h i. ground arith;
  tells = λ id p d h i. i;
}

Mild-Rule : Rule AnySeen Unsure Mild
Mild-Rule = record {
  faults = λ d fs i. i;
  saves = λ d i. i;
  steps = λ e d i. i;
  edits = λ f d m i. i;
  sees = λ s d h i. ground arith;
  tells = λ id p d h i. ground arith;
}

Refused-Rule : Rule AnySeen AnyPhase Refused
Refused-Rule = record {
  faults = λ d fs i. i;
  saves = λ d i. i;
  steps = λ e d i. i;
  edits = λ f d m i. i;
  sees = λ s d h i. ground arith;
  tells = λ id p d h i. i;
}

Calm-Honest : (d : Desk) → Calm d → Honest d
Calm-Honest d h = ground arith

Calm-Quiet : (d : Desk) → Calm d → Quiet d
Calm-Quiet d h = ground arith

Calm-Mild : (d : Desk) → Calm d → Mild d
Calm-Mild d h = ground arith

Quiet-Honest : (d : Desk) → Quiet d → Honest d
Quiet-Honest d h = ground arith

Mild-Honest : (d : Desk) → Mild d → Honest d
Mild-Honest d h = ground arith

Refused-Mild : (d : Desk) → Refused d → Mild d
Refused-Mild d h = ground arith

-- What the paste leaves: nothing is told yet if the submit key is to be sent.
abbrev Staged : Result Bool × Desk → Type 0
Staged (ok true, d) = Calm d
Staged (ok false, d) = Quiet d
Staged (err x, d) = Quiet d

module _ (t : Terminal) where
  unsent-Staged : (m : M Unit) → Keeps Quiet m → (d : Desk) → Quiet d → Staged ((m >> pure false) d)
  unfolding ◌>>=◌
  unsent-Staged m h d i = goes (m d) (h d i)
    where
      goes : (r : Result Unit × Desk) → Quiet r.1 → Staged (continue r (λ _. pure false))
      goes (ok x, e) j = j
      goes (err x, e) j = j

  if-Staged :
      (b : Bool) (m n : M Bool) (d : Desk)
      → Staged (m d)
      → Staged (n d)
      → Staged ((if b then m else n) d)
  if-Staged b m n d h k = by_test (λ (x : M Bool). Staged (x d)) b m n (λ _. h) (λ _. k)

  unless_busy-Staged :
      (id command : String) (busy : Option Bool) (d : Desk)
      → Calm d
      → Staged (unless_busy t id command busy d)
  unless_busy-Staged id command none d i = Calm-Quiet d i
  unless_busy-Staged id command (some busy) d i =
      if-Staged busy (defer_draft t id command >> pure false) (pure true) d
        (unsent-Staged (defer_draft t id command)
          (defer_draft-Keeps BeforeKey AnyPhase Quiet Quiet-Rule t (λ p. tt) refl id command) d
          (Calm-Quiet d i))
        i

  staged_composer-Staged :
      (id command : String) (composer : Composer) (d : Desk)
      → Calm d
      → Staged (staged_composer t id command composer d)
  staged_composer-Staged id command unread d i = Calm-Quiet d i
  staged_composer-Staged id command behind_prompt d i = Calm-Quiet d i
  staged_composer-Staged id command (holding_text text tail) d i =
      let reason : String =
        "compaction not submitted: the native composer did not read back as the compact command" in
      let abandoned = abandon_draft t id text not_run reason in
      if-Staged (is_empty text) (raise problem)
        (if not (t.same text command)
          then abandoned >> pure false
          else unless_busy t id command t.busy)
        d (Calm-Quiet d i)
        (if-Staged (not (t.same text command)) (abandoned >> pure false)
          (unless_busy t id command t.busy) d
          (unsent-Staged abandoned
            (abandon_draft-Keeps BeforeKey AnyPhase Quiet Quiet-Rule t (λ p. tt) refl id text
              not_run reason)
            d (Calm-Quiet d i))
          (unless_busy-Staged id command t.busy d i))

  then-Staged :
      (m : M Unit) (n : M Bool)
      → Keeps Calm m
      → ((d : Desk) → Calm d → Staged (n d))
      → (d : Desk) → Calm d
      → Staged ((m >> n) d)
  unfolding ◌>>=◌
  then-Staged m n h k d i = goes (m d) (h d i)
    where
      goes : (r : Result Unit × Desk) → Calm r.1 → Staged (continue r (λ _. n))
      goes (ok x, e) j = k e j
      goes (err x, e) j = Calm-Quiet e j

  stage-Staged : (id : String) (d : Desk) → Calm d → Staged (stage t id d)
  unfolding stage
  stage-Staged id d i =
      let prefix =
        when_done t (is_some t.command && t.submits)
        >> see pasted
        >> call
        >> when_done t t.settles
        >> call in
      then-Staged prefix (staged_composer t id (command_text t t.command) t.staged) (keeps_calm)
        (staged_composer-Staged id (command_text t t.command) t.staged) d i
    where
      keeps_calm : Keeps Calm (
          when_done t (is_some t.command && t.submits)
          >> see pasted
          >> call
          >> when_done t t.settles
          >> call)
      keeps_calm =
          search
            (
              keeping,
              Calm-Rule,
              when_done-Keeps BeforeKey Unsure Calm Calm-Rule t,
              see-Keeps BeforeKey Unsure Calm Calm-Rule pasted refl,
            )
            depth 8

  stage_or_abort-Staged : (id : String) (d : Desk) → Calm d → Staged (stage_or_abort t id d)
  unfolding stage_or_abort
  stage_or_abort-Staged id d i = goes (stage t id d) (stage-Staged id d i)
    where
      rescue : M Bool
      rescue = abort_input t id (command_text t t.command) >> pure false

      goes : (r : Result Bool × Desk) → Staged r → Staged (rescued t rescue r)
      goes (ok x, e) j = j
      goes (err x, e) j =
          by_test Staged (is_some e.held.input) (rescue e) (err x, e)
            (λ _.
              unsent-Staged (abort_input t id (command_text t t.command))
                (abort_input-Keeps BeforeKey AnyPhase Quiet Quiet-Rule t (λ p. tt) refl id
                  (command_text t t.command))
                e j)
            (λ _. j)

  fail_with-Mild :
      (f : Failing) (id reason : String) (d : Desk)
      → Refused d
      → Mild (fail_with f id not_run reason d).1
  fail_with-Mild f id reason d h =
      Refused-Mild (fail_with f id not_run reason d).1
        (fail_with-Keeps AnySeen AnyPhase Refused Refused-Rule f id not_run reason tt d h)

  refused_not_run-Mild :
      (f : Failing) (id reason : String) → Keeps Mild (see refusal >> fail_with f id not_run reason)
  unfolding ◌>>=◌
  refused_not_run-Mild f id reason d i =
      fail_with-Mild f id reason (record d { seen = refusal ∷ d.seen }) refl

  queued_or_failed-Mild :
      (id : String) (r : Result Unit × Desk)
      → Mild r.1
      → Sound t r
      → Mild (queued_or_failed t id r).1
  queued_or_failed-Mild id (ok done, d) i s = keeps_mild d i
    where
      keeps_mild : Keeps Mild (
          assign (look_at t.refreshed)
          >> save
          >> call
          >> observe_compaction t.failing t.queued t.seen
          >> continue_compaction t.failing t.queued
          >> call)
      keeps_mild =
          search
            (
              keeping,
              Mild-Rule,
              look_at-Keeps AnySeen Unsure Mild Mild-Rule t t.refreshed,
              observe_compaction-Keeps AnySeen Unsure Mild Mild-Rule refl t.failing t.queued t.seen
                  (refused_not_run-Mild t.failing),
              continue_compaction-Keeps AnySeen Unsure Mild Mild-Rule refl t.failing t.queued,
            )
            depth 8
  queued_or_failed-Mild id (err refused, d) i s =
      fail_with-Mild t.failing id "native compaction refused; resume withheld" d s
  queued_or_failed-Mild id (err not_started, d) i s =
      fail_with-Keeps AnySeen Unsure Mild Mild-Rule t.failing id may_have_run
        "compact command left the composer but no compaction showed; resume withheld" refl d i
  queued_or_failed-Mild id (err problem, d) i s =
      fail_with-Keeps AnySeen Unsure Mild Mild-Rule t.failing id may_have_run
        "resume submission failed; continuation withheld: " refl d i

  submit-Mild : (id : String) → Keeps Mild (submit t id)
  unfolding submit
  submit-Mild id =
      search (keeping, Mild-Rule, see-Keeps AnySeen Unsure Mild Mild-Rule entered tt, queues) depth
        8
    where
      queues : Keeps Mild (λ d. queued_or_failed t id (queue_resume t id d))
      queues d i =
          queued_or_failed-Mild id (queue_resume t id d)
            (queue_resume-Keeps AnySeen Unsure Mild Mild-Rule t tt id d i)
            (queue_resume-Owns t id d)

  submit_or_report-Mild : (id : String) → Keeps Mild (submit_or_report t id)
  unfolding submit_or_report
  submit_or_report-Mild id d i = goes (submit t id d) (submit-Mild id d i)
    where
      report : M Unit
      report = apply t.now (event_of compaction_unverified id "" "" 0 none) >> raise problem

      goes : (r : Result Unit × Desk) → Mild r.1 → Mild (rescued t report r).1
      goes (ok x, e) j = j
      goes (err x, e) j =
          by_test (λ (r : Result Unit × Desk). Mild r.1) (is_some e.held.input) (report e)
            (err x, e) (λ _. reports e j) (λ _. j)
        where
          reports : Keeps Mild report
          reports = search (keeping, Mild-Rule)

  submits-Honest :
      (id : String) (r : Result Bool × Desk)
      → Staged r
      → Honest (continue r (λ submits. if submits then submit_or_report t id else pure tt)).1
  submits-Honest id (ok true, d) i =
      Mild-Honest (submit_or_report t id d).1 (submit_or_report-Mild id d (Calm-Mild d i))
  submits-Honest id (ok false, d) i = Quiet-Honest d i
  submits-Honest id (err x, d) i = Quiet-Honest d i

  type_command-Honest :
      (id : String) (refusals : Option ℕ) (d : Desk)
      → Calm d
      → Honest (type_command t id refusals d).1
  unfolding ◌>>=◌
  type_command-Honest id none d i = Calm-Honest d i
  type_command-Honest id (some refusals) d i =
      then_leaves BeforeKey Unsure Calm Calm-Rule Honest
        (assign (begun t refusals)
          >> apply t.now (event_of input_started id "compaction" "" 0 none))
        (stage_or_abort t id >>= λ submits. if submits then submit_or_report t id else pure tt)
        Calm-Honest
        (search (
          keeping,
          Calm-Rule,
          begun-Keeps BeforeKey Unsure Calm Honest Calm-Rule t Calm-Honest refusals,
        ))
        (λ e j. submits-Honest id (stage_or_abort t id e) (stage_or_abort-Staged id e j)) d i

  -- Whatever the terminal, the harness and the store answer and whichever calls fail: if a start of a compaction, from
  -- a desk with no notice that a compaction did not run and no submit key, leaves a notice that the compaction did not
  -- run, then the submit key of the compact command has not been sent, or the harness has shown a refusal.
  pub start_compaction-Honest :
      (d : Desk) → (denied d.told || submitted d.seen) ≡ false → Honest (start_compaction t d).1
  start_compaction-Honest =
      start_compaction-Leaves BeforeKey Unsure Calm Honest Calm-Rule t Calm-Honest
        type_command-Honest
