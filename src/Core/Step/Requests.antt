-- ===== src/Core/Step/Requests.antt =====
-- core/step.go: what can happen to a compaction request.
use gangline.Prelude.{
  ◌≡◌, ◌⊎◌, inl, inr, refl, arith, true, Bool-cases, if◌then◌else◌, Option, none, some, sym, ap,
  ◌∙◌,
}
use mathlib.Core.Path.{subst}
use gangline.Core.Types.{
  Agent, Event, EventType, Compaction, CompactionStatus, hitch_spawned, compaction_cancelled,
  deadline_checked,
}
use gangline.Core.Step.{
  step, dispatch, is_pending, is_queued, check_boot, check_interrupt, check_compaction,
  check_deadlines,
}
use gangline.Core.Step.Rule.{Falls, step_rule, Falls-deadlines, Falls-on_compaction}

-- The same request: its identity, who asked, what resumes it, and its deadline.
pub record SameRequest (c d : Compaction) : Type 0 where
  pub id : d.id ≡ c.id
  pub resume : d.resume ≡ c.resume
  pub requester : d.requester ≡ c.requester
  pub started_at : d.started_at ≡ c.started_at
  pub deadline : d.deadline ≡ c.deadline
  pub continuation : d.continuation ≡ c.continuation

-- The agent still has the request `c`.
abbrev pub Retains : Compaction → Option Compaction → Type 0
Retains c none = ⊥
Retains c (some d) = SameRequest c d

-- `e` cancels the request `c`, which nothing has submitted yet.
pub record Cancels (c : Compaction) (e : Event) : Type 0 where
  pub type : e.type ≡ compaction_cancelled
  pub id : c.id ≡ e.id
  pub queued : c.status ≡ CompactionStatus.queued

abbrev pub Keeps : Compaction → Event → Option Compaction → Type 0
Keeps c e o = Retains c o ⊎ ((o ≡ none) × Cancels c e)

is_queued_lem : (s : CompactionStatus) → is_queued s ≡ true → s ≡ CompactionStatus.queued
is_queued_lem CompactionStatus.queued h = refl
is_queued_lem _ h = cc

module _ (c : Compaction) (a : Agent) (e : Event) (has : a.compaction ≡ some c) where
  check-Retains : Retains c (check_deadlines a e).compaction
  unfolding check_deadlines check_boot check_interrupt check_compaction
  check-Retains = ground arith

  has-Retains : Retains c a.compaction
  has-Retains = subst (Retains c) (sym has) (record {
    id = refl;
    resume = refl;
    requester = refl;
    started_at = refl;
    deadline = refl;
    continuation = refl;
  })

  cancel-Keeps :
      (d : Compaction)
      → d ≡ c
      → d.id ≡ e.id
      → e.type ≡ compaction_cancelled
      → Keeps c e (if is_queued d.status then record a { compaction = none } else a).compaction
  cancel-Keeps d same named t = elim (Bool-cases (is_queued d.status)) [
    | inl queued ↦
        let ends : Cancels c e = record {
          type = t;
          id = ap (λ (x : Compaction). x.id) (sym same) ∙ named;
          queued = ap (λ (x : Compaction). x.status) (sym same) ∙ is_queued_lem d.status queued;
        } in
        rw queued (inr (refl, ends))
    | inr kept ↦ rw kept (inl has-Retains)
  ]

  dispatch-Keeps :
      (t : EventType)
      → e.type ≡ t
      → is_pending c ≡ true
      → Falls (λ b. Keeps c e b.compaction) (dispatch t a e)
  unfolding step
  dispatch-Keeps hitch_spawned h p = ground arith
  dispatch-Keeps compaction_cancelled h p =
      Falls-on_compaction (λ b. Keeps c e b.compaction) a.compaction e.id _ _
        (λ d is_d named. cancel-Keeps d (cc) named h) (ground arith)
  dispatch-Keeps deadline_checked h p =
      Falls-deadlines (λ b. Keeps c e b.compaction) a e (inl check-Retains)
  dispatch-Keeps _ h p = ground arith

  -- A pending request outlives every event but its own cancellation: a queued, submitted, or
  -- completed and not yet continued request keeps its identity, requester, note and deadline
  -- through any event, a new request included, unless the event cancels it while it is queued.
  pub step-Keeps : is_pending c ≡ true → Keeps c e (step a e).0.compaction
  step-Keeps p =
      step_rule (λ b. Keeps c e b.compaction) a e (inl has-Retains) (λ b h. h)
        (dispatch-Keeps e.type refl p)
