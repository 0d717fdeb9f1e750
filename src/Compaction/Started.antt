-- ===== src/Compaction/Started.antt =====
-- cmd/gang/messages.go: a start of a compaction keeps what all that it sees and tells keeps.
use gangline.Prelude.{ℕ, String, false, Option, none, some, is_some, if◌then◌else◌, by_test}
use gangline.Core.Types.{input_started, compaction_unverified}
use gangline.Compaction.{
  Phase, not_run, may_have_run, ran, Seen, cleared, refusal, refused, not_started, problem, Desk,
  Result, ok, err, M, pure, raise, ◌>>=◌, ◌>>◌, call, assign, save, event_of, apply,
  observe_compaction, continue_compaction,
}
use gangline.Compaction.Terminal.{Terminal, look_at, abort_input, queue_resume}
use gangline.Compaction.Start.{
  queued_or_failed, submit, command_text, stage, rescued, stage_or_abort, submit_or_report, begun,
  type_command, start_compaction,
}
use gangline.Compaction.Rules.{
  keeping, Rule, Keeps, bind-Keeps, then-Keeps, fail_with-Keeps, continue_compaction-Keeps,
  observe_compaction-Keeps,
}
use gangline.Compaction.Drafts.{
  when_done-Keeps, look_at-Keeps, staged_composer-Keeps, rescue-Keeps, queue_resume-Keeps,
}
use gangline.Compaction.Begin.{begun-Keeps, start_compaction-Leaves}

module _ (Sees : Seen → Type 0) (Tells : Phase → Type 0) (I : Desk → Type 0)
    (rule : Rule Sees Tells I) (t : Terminal) (sees : (s : Seen) → Sees s)
    (tells : (p : Phase) → Tells p) where
  rescued-Keeps :
      {A : Type 0} (rescue : M A)
      → Keeps I rescue
      → (r : Result A × Desk) → I r.1
      → I (rescued t rescue r).1
  rescued-Keeps rescue h (ok x, d) i = i
  rescued-Keeps {A = A} rescue h (err x, d) i =
      by_test (λ (r : Result A × Desk). I r.1) (is_some d.held.input) (rescue d) (err x, d)
        (λ _. h d i) (λ _. i)

  stage-Keeps : (id : String) → Keeps I (stage t id)
  unfolding stage
  stage-Keeps id =
      search
        (
          keeping,
          sees,
          when_done-Keeps,
          staged_composer-Keeps Sees Tells I rule t tells (sees cleared),
        )
        depth 8

  stage_or_abort-Keeps : (id : String) → Keeps I (stage_or_abort t id)
  unfolding stage_or_abort
  stage_or_abort-Keeps id d i =
      rescued-Keeps (abort_input t id (command_text t t.command) >> pure false)
        (rescue-Keeps Sees Tells I rule t tells (sees cleared) id (command_text t t.command))
        (stage t id d) (stage-Keeps id d i)

  queued_or_failed-Keeps :
      (id : String) (r : Result Unit × Desk) → I r.1 → I (queued_or_failed t id r).1
  queued_or_failed-Keeps id (ok done, d) i = finishes d i
    where
      finishes : Keeps I (
          assign (look_at t.refreshed)
          >> save
          >> call
          >> observe_compaction t.failing t.queued t.seen
          >> continue_compaction t.failing t.queued
          >> call)
      finishes =
          search
            (
              keeping,
              look_at-Keeps Sees Tells I rule t t.refreshed,
              observe_compaction-Keeps Sees Tells I rule (tells ran) t.failing t.queued t.seen
                  (λ id reason. search (keeping, sees, tells)),
              continue_compaction-Keeps Sees Tells I rule (tells ran) t.failing t.queued,
            )
            depth 8
  queued_or_failed-Keeps id (err refused, d) i =
      fail_with-Keeps Sees Tells I rule t.failing id not_run
        "native compaction refused; resume withheld" (tells not_run) d i
  queued_or_failed-Keeps id (err not_started, d) i =
      fail_with-Keeps Sees Tells I rule t.failing id may_have_run
        "compact command left the composer but no compaction showed; resume withheld"
        (tells may_have_run) d i
  queued_or_failed-Keeps id (err problem, d) i =
      fail_with-Keeps Sees Tells I rule t.failing id may_have_run
        "resume submission failed; continuation withheld: " (tells may_have_run) d i

  submit-Keeps : (id : String) → Keeps I (submit t id)
  unfolding submit
  submit-Keeps id = search (keeping, sees, queues) depth 8
    where
      queues : Keeps I (λ d. queued_or_failed t id (queue_resume t id d))
      queues d i =
          queued_or_failed-Keeps id (queue_resume t id d)
            (queue_resume-Keeps Sees Tells I rule t (sees refusal) id d i)

  submit_or_report-Keeps : (id : String) → Keeps I (submit_or_report t id)
  unfolding submit_or_report
  submit_or_report-Keeps id d i =
      rescued-Keeps (apply t.now (event_of compaction_unverified id "" "" 0 none) >> raise problem)
        (search keeping) (submit t id d) (submit-Keeps id d i)

  type_command-Keeps : (id : String) (refusals : Option ℕ) → Keeps I (type_command t id refusals)
  type_command-Keeps id none = search keeping
  type_command-Keeps id (some refusals) =
      then-Keeps Sees Tells I rule
        (assign (begun t refusals)
          >> apply t.now (event_of input_started id "compaction" "" 0 none))
        (stage_or_abort t id >>= λ submits. if submits then submit_or_report t id else pure tt)
        (search (keeping, begun-Keeps Sees Tells I I rule t (λ d i. i) refusals))
        (bind-Keeps Sees Tells I rule (stage_or_abort t id)
          (λ submits. if submits then submit_or_report t id else pure tt) (stage_or_abort-Keeps id)
          (λ submits. search (keeping, submit_or_report-Keeps)))

  pub start_compaction-Keeps : Keeps I (start_compaction t)
  start_compaction-Keeps =
      start_compaction-Leaves Sees Tells I I rule t (λ d i. i) type_command-Keeps
