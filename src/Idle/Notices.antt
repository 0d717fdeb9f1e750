-- ===== src/Idle/Notices.antt =====
-- cmd/gang/team_idle.go: when a sweep reserves a notice, and what the sweeps after it do.
use gangline.Prelude.{
  ◌+◌, ◌≤◌, ◌<◌, ◌≡◌, ◌⊎◌, inl, inr, refl, ◌∙◌, Bool, true, false, Option, none, some, List, [],
  ◌∷◌, arith, Bool-cases, Option-cases, All,
}
use gangline.Core.Types.{Agent, Time}
use gangline.Store.World.{IdleState}
use gangline.Idle.{
  IdleWindow, continues, advance_idle_episode, arm_idle_activity, idle_notice_settled,
  advance_idle_window,
}
use gangline.Idle.Snapshot.{
  Worker, IdleSweep, Snapshot, current_lead, same_outside, complete_claims, same_agents,
}
use gangline.Idle.Reserve.{
  others, arm_busy, arm_one, worker_ready, workers_ready, ready, observed_state, current_window,
  notice_to, Reserved, same_work, conclude, reserve_for, reserve_idle_notice,
}

arm_one-notice : (s : IdleState) (w : Worker) (now : Time) → (arm_one s w now).notice ≡ s.notice
unfolding arm_idle_activity
arm_one-notice s w now = ground arith

arm_busy-notice :
    (s : IdleState) (workers : List Worker) (now : Time)
    → (arm_busy s workers now).notice ≡ s.notice
unfolding arm_busy
arm_busy-notice s [] now = refl
arm_busy-notice s (w ∷ workers) now =
    arm_busy-notice (arm_one s w now) workers now ∙ arm_one-notice s w now

pub observed_state-notice :
    (v : Snapshot) (lead : Agent) → (observed_state v lead).notice ≡ v.idle.notice
unfolding observed_state advance_idle_episode
observed_state-notice v lead = arm_busy-notice _ v.workers v.now

-- A reservation that puts a notice, and what it needs: `previous` is the cached window.
pub record Noticed (sweep : IdleSweep) (v : Snapshot) (r : Reserved) : Type 0 where
  pub lead : Agent
  pub is_lead : current_lead v.workers ≡ some lead
  pub armed : (observed_state v lead).armed ≡ true
  pub settled : idle_notice_settled v.idle.notice ≡ true
  pub nobody_outside : v.outside ≡ []
  pub workers : All (λ w. worker_ready v.now w ≡ true) (others v.workers lead.id)
  pub previous : IdleWindow
  pub cached : v.window ≡ some previous
  pub unchanged : continues previous (current_window v lead (observed_state v lead)) ≡ true
  pub minimum : 0 < v.minimum
  pub spans : previous.since + v.minimum ≤ v.now
  pub notice : r.idle.notice ≡ some (notice_to v lead)
  pub disarmed : r.idle.armed ≡ false
  pub cleared : r.window ≡ none

-- What `reserveIdleNotice` makes of the notice.
abbrev pub Decided : IdleSweep → Snapshot → Option Reserved → Type 0
Decided sweep v none = Unit
Decided sweep v (some r) = (r.idle.notice ≡ v.idle.notice) ⊎ Noticed sweep v r

pub mature_lem :
    (w : Option IdleWindow) (c : IdleWindow) (is_ready : Bool)
    → (advance_idle_window w c is_ready).1 ≡ true
    → (is_ready ≡ true)
      × ((p : IdleWindow) × (((w ≡ some p) × (continues p c ≡ true))
            × ((0 < c.minimum) × (p.since + c.minimum ≤ c.last))))
unfolding advance_idle_window
mature_lem none c true h = ground arith
mature_lem none c false h = ground arith
mature_lem (some p) c false h = ground arith
mature_lem (some p) c true h =
    let on : continues p c ≡ true = ground arith in
    (refl, (p, ((refl, on), (ground arith, ground arith))))

All-workers_ready :
    (now : Time) (workers : List Worker)
    → workers_ready now workers ≡ true
    → All (λ w. worker_ready now w ≡ true) workers
unfolding workers_ready
All-workers_ready now [] h = tt
All-workers_ready now (w ∷ workers) h = (ground arith, All-workers_ready now workers (ground arith))

pub ready_lem :
    (sweep : IdleSweep) (v : Snapshot) (lead : Agent) (s : IdleState)
    → ready sweep v lead s ≡ true
    → ((s.armed ≡ true) × (idle_notice_settled s.notice ≡ true))
      × ((v.outside ≡ []) × (workers_ready v.now (others v.workers lead.id) ≡ true))
unfolding ready
ready_lem sweep v lead s h = ground arith

reserve_for-Decided :
    (sweep : IdleSweep) (v : Snapshot) (lead : Agent)
    → current_lead v.workers ≡ some lead
    → Decided sweep v (reserve_for sweep v lead)
unfolding reserve_for conclude current_window
reserve_for-Decided sweep v lead is_lead =
    let s = observed_state v lead in
    let watched = advance_idle_window v.window (current_window v lead s) (ready sweep v lead s) in
    elim (Bool-cases (same_work (others v.workers lead.id) v.idle.work sweep.work)) [
      | inr moved ↦ rw moved tt
      | inl still ↦ elim (Bool-cases watched.1) [
        | inr young ↦ rw still (rw young (inl (observed_state-notice v lead)))
        | inl mature ↦
            let (is_ready, (p, ((cached, on), (positive, spans)))) = mature_lem _ _ _ mature in
            let ((armed, settled), (outside, workers)) = ready_lem sweep v lead s is_ready in
            rw still (
              rw mature (
                inr (record {
                  lead = lead;
                  is_lead = is_lead;
                  armed = armed;
                  settled = rw (observed_state-notice v lead) at settled;
                  nobody_outside = outside;
                  workers = All-workers_ready v.now _ workers;
                  previous = p;
                  cached = cached;
                  unchanged = on;
                  minimum = positive;
                  spans = spans;
                  notice = refl;
                  disarmed = refl;
                  cleared = refl;
                })))
      ]
    ]

-- What holds of `none` and of every reservation for the only lead holds of the result.
pub reserve-cases :
    (sweep : IdleSweep) (v : Snapshot) (P : Option Reserved → Type 0)
    → P none
    → ((lead : Agent) → current_lead v.workers ≡ some lead → P (reserve_for sweep v lead))
    → P (reserve_idle_notice sweep v)
unfolding reserve_idle_notice
reserve-cases sweep v P p f = elim (Bool-cases (same_outside v.outside sweep.outside)) [
  | inr a ↦ rw a p
  | inl a ↦ elim (Bool-cases (complete_claims v.claims v.agents v.outside)) [
    | inr b ↦ rw a (rw b p)
    | inl b ↦ elim (Bool-cases (same_agents sweep v.agents sweep.agents v.workers)) [
      | inr c ↦ rw a (rw b (rw c p))
      | inl c ↦ elim (Option-cases (current_lead v.workers)) [
        | inl e ↦ rw a (rw b (rw c (rw e p)))
        | inr (lead, e) ↦ rw a (rw b (rw c (rw e (f lead e))))
      ]
    ]
  ]
]

-- A reservation leaves the notice as it is, or it puts one to the only lead, and then: the state was
-- armed, the notice before was settled, nobody outside is registered, every other worker was ready,
-- the cached window went on and spans the positive minimum, and the state is disarmed after it.
pub reserve_idle_notice-Decided :
    (sweep : IdleSweep) (v : Snapshot) → Decided sweep v (reserve_idle_notice sweep v)
reserve_idle_notice-Decided sweep v =
    reserve-cases sweep v (Decided sweep v) tt (reserve_for-Decided sweep v)
