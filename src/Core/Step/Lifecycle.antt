-- ===== src/Core/Step/Lifecycle.antt =====
-- core/step.go: how the status of an agent changes.
use gangline.Prelude.{
  ◌≡◌, ◌≢◌, ◌⊎◌, ◌≤◌, inl, inr, List, [], ◌∷◌, refl, arith, Bool-cases, if◌then◌else◌, eq_iff, ◌∙◌,
  sym,
}
use gangline.Core.Types.{
  Agent, Event, EventType, Status, starting, booting, active, dropping, failed, hitch_spawned,
  hitch_ready, boot_reopened, hitch_failed, drop_started, deadline_checked,
}
use gangline.Core.Step.{
  step, run, reopen, dispatch, boot_deadline_elapsed, check_boot, check_interrupt, check_compaction,
  check_deadlines, ignore, change, is_dropping,
}
use gangline.Core.Step.Rule.{Falls, step_rule}

-- The only reasons for which a status changes: what the event is, and what the agent was.
pub data Cause (a : Agent) (e : Event) : Status → Type 0 where
  spawned : e.type ≡ hitch_spawned → Cause a e booting
  readied : e.type ≡ hitch_ready → Cause a e active
  refused : e.type ≡ hitch_failed → Cause a e failed
  dropped : e.type ≡ drop_started → Cause a e dropping
  reopened :
      e.type ≡ boot_reopened
      → a.status ≡ failed
      → a.evidence ≡ boot_deadline_elapsed
      → e.deadline ≢ 0
      → Cause a e booting
  timed_out :
      e.type ≡ deadline_checked
      → (a.status ≡ starting) ⊎ (a.status ≡ booting)
      → a.boot_deadline ≢ 0
      → a.boot_deadline ≤ e.at
      → Cause a e failed

abbrev pub Moves : Agent → Event → Status → Type 0
Moves a e s = (s ≡ a.status) ⊎ Cause a e s

status-check_compaction :
    (a b : Agent) (e : Event) → (check_compaction a.compaction b e).status ≡ b.status
unfolding check_compaction
status-check_compaction a b e = ground arith

status-check_interrupt : (a : Agent) (e : Event) → (check_interrupt a e).status ≡ a.status
unfolding check_interrupt
status-check_interrupt a e = ground arith

check_boot-Moves :
    (a : Agent) (e : Event) → e.type ≡ deadline_checked → Moves a e (check_boot a e).status
unfolding check_boot
check_boot-Moves a e t = grind (arith, timed_out)

check_deadlines-Moves :
    (a : Agent) (e : Event) → e.type ≡ deadline_checked → Moves a e (check_deadlines a e).status
unfolding check_deadlines
check_deadlines-Moves a e t =
    rw (status-check_compaction a, status-check_interrupt) (check_boot-Moves a e t)

deadline-Moves :
    (a : Agent) (e : Event)
    → e.type ≡ deadline_checked
    → Falls
        (λ b. Moves a e b.status)
        (if is_dropping a.status then ignore else change (check_deadlines a e))
deadline-Moves a e t = elim (Bool-cases (is_dropping a.status)) [
  | inl dropping' ↦ rw dropping' tt
  | inr kept ↦ rw kept (check_deadlines-Moves a e t)
]

reopen-Moves :
    (a : Agent) (e : Event) → e.type ≡ boot_reopened → Falls (λ b. Moves a e b.status) (reopen a e)
unfolding reopen
reopen-Moves a e t = grind (arith, eq_iff a.evidence boot_deadline_elapsed, reopened)

dispatch-Moves :
    (t : EventType) (a : Agent) (e : Event)
    → e.type ≡ t
    → Falls (λ b. Moves a e b.status) (dispatch t a e)
unfolding step
dispatch-Moves hitch_spawned a e h = inr (spawned h)
dispatch-Moves hitch_ready a e h = inr (readied h)
dispatch-Moves hitch_failed a e h = inr (refused h)
dispatch-Moves drop_started a e h = inr (dropped h)
dispatch-Moves boot_reopened a e h = reopen-Moves a e h
dispatch-Moves deadline_checked a e h = deadline-Moves a e h
dispatch-Moves _ a e h = ground arith

-- A status changes only for one of six reasons: `hitch_spawned` makes an agent booting,
-- `hitch_ready` active, `hitch_failed` failed and `drop_started` dropping; `boot_reopened` makes it
-- booting only if its boot deadline had failed it and a new deadline is given; and a deadline check
-- fails it only while it starts or boots, at or after its boot deadline.
pub step-Moves : (a : Agent) (e : Event) → Moves a e (step a e).0.status
step-Moves a e =
    step_rule (λ b. Moves a e b.status) a e (inl refl) (λ b h. h) (dispatch-Moves e.type a e refl)

-- Some event of the list satisfies `P`.
pub data Some (P : Event → Type 0) : List Event → Type 0 where
  here : {e : Event} {es : List Event} → P e → Some P (e ∷ es)
  later : {e : Event} {es : List Event} → Some P es → Some P (e ∷ es)

became_active :
    (a : Agent) (e : Event) {s : Status}
    → Moves a e s
    → s ≡ active
    → (a.status ≡ active) ⊎ (e.type ≡ hitch_ready)
became_active a e (inl same) h = inl (sym same ∙ h)
became_active a e (inr (readied t)) h = inr t
became_active a e (inr (spawned t)) h = cc
became_active a e (inr (refused t)) h = cc
became_active a e (inr (dropped t)) h = cc
became_active a e (inr (reopened t f v d)) h = cc
became_active a e (inr (timed_out t f v d)) h = cc

dec_active : (s : Status) → (s ≡ active) ⊎ (s ≢ active)
dec_active active = inl refl
dec_active s = inr (λ h. cc)

-- An agent that was not active and is active after some events has met `hitch_ready` among them.
pub active_needs_ready :
    (a : Agent) (es : List Event)
    → a.status ≢ active
    → (run a es).status ≡ active
    → Some (λ e. e.type ≡ hitch_ready) es
unfolding run
active_needs_ready a [] h s = absurd (h s)
active_needs_ready a (e ∷ es) h s = elim (dec_active (step a e).0.status) [
  | inr not_yet ↦ later (active_needs_ready (step a e).0 es not_yet s)
  | inl now ↦ here (elim (became_active a e (step-Moves a e) now) [
    | inl before ↦ absurd (h before)
    | inr ready ↦ ready
  ])
]
