-- ===== src/Compaction/Admitted.antt =====
-- cmd/gang: each request of a compaction lets its continuation through once at most, in any order of operations.
use gangline.Prelude.{
  sym, ap, ◌∙◌, ◌+◌, ◌≤◌, String, ◌≡◌, refl, Bool, true, not, ◌&&◌, Option, none, some, List, [],
  ◌∷◌, ltb, is_empty, concat, if◌then◌else◌, by_test,
}
use gangline.Core.Types.{Agent, Compaction, InputIntent, Time, compaction_requested}
use gangline.Core.Step.Marks.{mark_of, times, room}
use gangline.Compaction.{
  see, refusal, not_run, ran, may_have_run, is_completed, problem, Desk, Result, ok, err, M, pure,
  continue, ◌>>=◌, ◌>>◌, holding, assign, map_compaction, event_of, apply, Failing, fail_with,
  Queued, absent, unread, ready, Refusals, awaits_completion, continue_compaction,
  observe_compaction,
}
use gangline.Compaction.Admission.{
  Prompt, block_pending, resume_prompt_block, pending_resume_note, give_up, blocked, pass,
  admit_compaction_resume, submit_hook, Witness, completed_by, take_readings, reconcile_witness,
  overdue, check_deadline, recovered_input, recover_input, Asking, holds_note, still_running,
  outlasts, refuse_if, replaceable, request_compaction,
}
use gangline.Compaction.Rules.{
  keeping, Rule, Keeps, bind-Keeps, then-Keeps, holding-Keeps, assign-Keeps, map_compaction-Keeps,
  apply-Keeps, raise-Keeps, see-Keeps, fail_with-Keeps, continue_compaction-Keeps,
  observe_compaction-Keeps,
}
use gangline.Compaction.Started.{start_compaction-Keeps}
use gangline.Compaction.Runs.{
  Operation, requests, starts, prompts, witnesses as witness_op, observes, continues, checks,
  recovers, operate, operate_all, acquire,
}
use gangline.Compaction.Once.{AnySeen, AnyPhase, Ledger, Ledger-Rule, pass-Ledger}

module _ (id : String) (rule : Rule AnySeen AnyPhase (Ledger id)) where
  abbrev Holds : {A : Type 0} → M A → Type 0
  Holds m = Keeps (Ledger id) m

  give_up-Ledger :
      (f : Failing) (reason : String) (o : Option Compaction) → Holds (give_up f reason o)
  give_up-Ledger f reason none = raise-Keeps AnySeen AnyPhase (Ledger id) rule Unit problem
  give_up-Ledger f reason (some c) =
      fail_with-Keeps AnySeen AnyPhase (Ledger id) rule f c.id
        (if is_completed c.status then ran else may_have_run)
        (concat "resume note blocked: " reason) tt

  blocked-Ledger : (f : Failing) (p : Prompt) (reason : String) → Holds (blocked f p reason)
  unfolding blocked holding
  blocked-Ledger f p reason d i =
      by_test (λ (m : M Unit). Ledger id (m d).1) (pending_resume_note d.held.compaction p)
        (give_up f reason d.held.compaction) (pure tt)
        (λ _. give_up-Ledger f reason d.held.compaction d i) (λ _. i)

  then_pure-Ledger :
      {A B : Type 0} (r : Result A × Desk) (x : B)
      → Ledger id r.1
      → Ledger id (continue r (λ _. pure x)).1
  then_pure-Ledger (ok y, d) x i = i
  then_pure-Ledger (err y, d) x i = i

  headed_lem :
      (a : Agent) (p : Prompt)
      → p.headed ≡ true
      → resume_prompt_block a p ≡ block_pending a p a.compaction
  unfolding resume_prompt_block
  headed_lem a p h = rw h refl

  admit_compaction_resume-Ledger :
      (f : Failing) (p : Prompt) → p.headed ≡ true → Holds (admit_compaction_resume f p)
  unfolding admit_compaction_resume holding ◌>>=◌
  admit_compaction_resume-Ledger f p headed d i =
      let reason = resume_prompt_block d.held p in
      by_test (λ (m : M String). Ledger id (m d).1) (is_empty reason)
        (pass p d.held.compaction >> pure "") (blocked f p reason >> pure reason)
        (λ free. then_pure-Ledger (pass p d.held.compaction d) "" (
          pass-Ledger id p d.held.compaction d refl
            (ap is_empty (sym (headed_lem d.held p headed)) ∙ free) i))
        (λ _. then_pure-Ledger (blocked f p reason d) reason (blocked-Ledger f p reason d i))

  submit_hook-Ledger : (f : Failing) (p : Prompt) → Holds (submit_hook f p)
  unfolding submit_hook
  submit_hook-Ledger f p d i =
      by_test (λ (m : M String). Ledger id (m d).1) p.headed (admit_compaction_resume f p) (pure "")
        (λ headed. admit_compaction_resume-Ledger f p headed d i) (λ _. i)

  completed_by-Ledger : (at : Time) → Holds (assign (map_compaction (completed_by at)))
  completed_by-Ledger at =
      map_compaction-Keeps AnySeen AnyPhase (Ledger id) rule (completed_by at) λ c.
        by_test (λ x. mark_of (some x) ≡ mark_of (some c))
          (awaits_completion c.status && ltb c.started_at at) (record c { completed_at = at }) c
          (λ _. refl) (λ _. refl)

  take_readings-Ledger : (b : Agent) → Holds (assign (take_readings b))
  take_readings-Ledger b =
      assign-Keeps AnySeen AnyPhase (Ledger id) rule (take_readings b) (λ a. refl)

  continue_compaction-Ledger : (f : Failing) (q : Queued) → Holds (continue_compaction f q)
  continue_compaction-Ledger f q =
      continue_compaction-Keeps AnySeen AnyPhase (Ledger id) rule tt f q

  reconcile_witness-Ledger :
      (f : Failing) (q : Queued) (read told : Agent) (w : Witness)
      → Holds (reconcile_witness f q read told w)
  unfolding reconcile_witness
  reconcile_witness-Ledger f q read told w =
      search
        (
          keeping, holding-Keeps, completed_by-Ledger, take_readings-Ledger,
          continue_compaction-Ledger,
        )
        depth 10

  observe_compaction-Ledger :
      (f : Failing) (q : Queued) (r : Option Refusals) → Holds (observe_compaction f q r)
  observe_compaction-Ledger f q r =
      observe_compaction-Keeps AnySeen AnyPhase (Ledger id) rule tt f q r (λ n reason.
        then-Keeps AnySeen AnyPhase (Ledger id) rule (see refusal) (fail_with f n not_run reason)
          (see-Keeps AnySeen AnyPhase (Ledger id) rule refusal tt)
          (fail_with-Keeps AnySeen AnyPhase (Ledger id) rule f n not_run reason tt))

  overdue-Ledger : (now : Time) (o : Option Compaction) → Holds (overdue now o)
  overdue-Ledger now none = search keeping
  overdue-Ledger now (some c) = search keeping

  recovered_input-Ledger : (now : Time) (o : Option InputIntent) → Holds (recovered_input now o)
  recovered_input-Ledger now none = search keeping
  recovered_input-Ledger now (some i) = search keeping

  holds_note-Ledger : (q : Queued) → Holds (holds_note q)
  holds_note-Ledger unread d i = i
  holds_note-Ledger absent d i = i
  holds_note-Ledger (ready untouched) d i = i

  still_running-Ledger : (o : Option Bool) → Holds (still_running o)
  still_running-Ledger none d i = i
  still_running-Ledger (some running) d i = i

  outlasts-Ledger : (q : Asking) (c : Compaction) → Holds (outlasts q c)
  outlasts-Ledger q c = search (keeping, still_running-Ledger)

  refuse_if-Ledger : (b : Bool) → Holds (refuse_if b)
  refuse_if-Ledger b = search keeping

  refuses-Ledger : (m : M Bool) → Holds m → Holds (m >>= refuse_if)
  refuses-Ledger m h = bind-Keeps AnySeen AnyPhase (Ledger id) rule m refuse_if h refuse_if-Ledger

  replaceable-Ledger : (q : Asking) (o : Option Compaction) → Holds (replaceable q o)
  replaceable-Ledger q none = search keeping
  replaceable-Ledger q (some c) =
      search (keeping, refuses-Ledger, refuse_if-Ledger, holds_note-Ledger, outlasts-Ledger)

  request_compaction-Ledger : (q : Asking) → Holds (request_compaction q)
  unfolding request_compaction holding
  request_compaction-Ledger q =
      then-Keeps AnySeen AnyPhase (Ledger id) rule
        (holding (λ a. replaceable q a.compaction) >> refuse_if (not q.prepared))
        (apply q.now (event_of compaction_requested "" "" "" 0 (some q.new)))
        (then-Keeps AnySeen AnyPhase (Ledger id) rule _ _
          (λ d i. replaceable-Ledger q d.held.compaction d i) (refuse_if-Ledger (not q.prepared)))
        (apply-Keeps AnySeen AnyPhase (Ledger id) rule q.now _)

  operate-Ledger : (o : Operation) (d : Desk) → Ledger id d → Ledger id (operate o d)
  unfolding check_deadline recover_input holding
  operate-Ledger (requests q) d i = request_compaction-Ledger q d i
  operate-Ledger (starts t) d i =
      start_compaction-Keeps AnySeen AnyPhase (Ledger id) rule t (λ s. tt) (λ p. tt) d i
  operate-Ledger (prompts f p) d i = submit_hook-Ledger f p d i
  operate-Ledger (witness_op f q read told w) d i = reconcile_witness-Ledger f q read told w d i
  operate-Ledger (observes f q refusals) d i = observe_compaction-Ledger f q refusals d i
  operate-Ledger (continues f q) d i = continue_compaction-Ledger f q d i
  operate-Ledger (checks now) d i = overdue-Ledger now d.held.compaction d i
  operate-Ledger (recovers now) d i = recovered_input-Ledger now d.held.input d i

module _ (id : String) where
  -- Through any operations, in any order and whichever calls fail: the continuations of compactions of one identity that
  -- the submit hook has let through, and the one that it may still let through, are never more than the requests of
  -- compactions of that identity, if they are not at first.
  pub operate_all-Ledger :
      (os : List Operation) (d : Desk)
      → room id (mark_of d.disk.compaction) + times id d.admitted ≤ times id d.requested
      → room id (mark_of (operate_all os d).disk.compaction) + times id (operate_all os d).admitted
        ≤ times id (operate_all os d).requested
  unfolding operate_all
  operate_all-Ledger [] d h = h
  operate_all-Ledger (o ∷ os) d h =
      let before : Ledger id (acquire d) = record { on_disk = h; in_memory = h } in
      operate_all-Ledger os (operate o (acquire d))
        (operate-Ledger id (Ledger-Rule id) o (acquire d) before).on_disk
