-- ===== src/Idle/Rounds.antt =====
-- cmd/gang/team_idle.go: sweeps in a row, each of which may stop between its two writes.
use gangline.Prelude.{
  ◌≡◌, inl, inr, refl, ap, ◌∙◌, Bool, true, false, Option, none, some, List, [], ◌∷◌, arith,
  Bool-cases, if◌then◌else◌, All,
}
use gangline.Core.Types.{Agent, Time}
use gangline.Store.World.{IdleMember, IdleState, IdleNotice}
use gangline.Idle.{is_busy, idle_member, advance_idle_episode, advance_idle_window}
use gangline.Idle.Snapshot.{Worker, IdleSweep, Snapshot}
use gangline.Idle.Reserve.{
  others, arm_busy, arm_one, ready, observed_state, current_window, Reserved, same_work, conclude,
  reserve_for, reserve_idle_notice,
}
use gangline.Idle.Notices.{observed_state-notice, mature_lem, ready_lem, reserve-cases}

-- None of the workers is busy.
abbrev pub Calm : List Worker → Type 0
Calm workers = All (λ w. is_busy w.agent.activity ≡ false) workers

arm_busy-Calm :
    (s : IdleState) (workers : List Worker) (now : Time) → Calm workers → arm_busy s workers now ≡ s
unfolding arm_busy
arm_busy-Calm s [] now calm = refl
arm_busy-Calm s (w ∷ workers) now calm =
    let same : arm_one s w now ≡ s = rw calm.0 refl in
    ap (λ x. arm_busy x workers now) same ∙ arm_busy-Calm s workers now calm.1

episode-armed :
    (s : IdleState) (lead : IdleMember) (members : List IdleMember)
    → s.armed ≡ false
    → (advance_idle_episode s lead members).armed ≡ false
unfolding advance_idle_episode
episode-armed s lead members h = ground arith

observed_state-armed :
    (v : Snapshot) (lead : Agent)
    → v.idle.armed ≡ false
    → Calm v.workers
    → (observed_state v lead).armed ≡ false
unfolding observed_state
observed_state-armed v lead h calm =
    rw (arm_busy-Calm (advance_idle_episode v.idle (idle_member lead 0) _) v.workers v.now calm)
      (episode-armed v.idle _ _ h)

-- The files after a reservation, which may stop between the two writes.
abbrev pub files_after : Snapshot → Option Reserved → Bool → Reserved
files_after v none stops = record { idle = v.idle; window = v.window }
files_after v (some r) stops = record {
  idle = r.idle;
  window = if stops then v.window else r.window;
}

-- One sweep: what it reads beside the two files, and whether it stops between the writes.
pub record Round : Type 0 where
  pub sweep : IdleSweep
  pub seen : Snapshot
  pub stops : Bool

abbrev pub reads : Reserved → Snapshot → Snapshot
reads r v = record v { idle = r.idle; window = r.window }

unfoldable pub sweep_rounds : List Round → Reserved → Reserved
sweep_rounds [] r = r
sweep_rounds (o ∷ rounds) r =
    let v = reads r o.seen in
    sweep_rounds rounds (files_after v (reserve_idle_notice o.sweep v) o.stops)

-- The state is disarmed and keeps the notice.
abbrev pub Rests : Option IdleNotice → Reserved → Type 0
Rests notice r = (r.idle.armed ≡ false) × (r.idle.notice ≡ notice)

reserve_for-Rests :
    (sweep : IdleSweep) (v : Snapshot) (stops : Bool) (lead : Agent)
    → v.idle.armed ≡ false
    → Calm v.workers
    → Rests v.idle.notice (files_after v (reserve_for sweep v lead) stops)
unfolding reserve_for conclude
reserve_for-Rests sweep v stops lead h calm =
    let s = observed_state v lead in
    let low : s.armed ≡ false = observed_state-armed v lead h calm in
    let watched = advance_idle_window v.window (current_window v lead s) (ready sweep v lead s) in
    elim (Bool-cases (same_work (others v.workers lead.id) v.idle.work sweep.work)) [
      | inr moved ↦ rw moved (h, refl)
      | inl still ↦ elim (Bool-cases watched.1) [
        | inr young ↦ rw still (rw young (low, observed_state-notice v lead))
        | inl mature ↦
            let is_ready = (mature_lem _ _ _ mature).0 in
            let high : s.armed ≡ true = (ready_lem sweep v lead s is_ready).0.0 in
            rw still (rw mature (ground (arith, low, high)))
      ]
    ]

reserve_idle_notice-Rests :
    (sweep : IdleSweep) (v : Snapshot) (stops : Bool)
    → v.idle.armed ≡ false
    → Calm v.workers
    → Rests v.idle.notice (files_after v (reserve_idle_notice sweep v) stops)
reserve_idle_notice-Rests sweep v stops h calm =
    reserve-cases sweep v (λ o. Rests v.idle.notice (files_after v o stops)) (h, refl)
      (λ lead _. reserve_for-Rests sweep v stops lead h calm)

-- From a disarmed state, sweeps in which no worker is busy keep the notice and the state disarmed,
-- even where sweeps stop between their two writes: a notice that is put is the last one until a
-- worker is seen busy.
pub sweep_rounds-Rests :
    (rounds : List Round) (r : Reserved)
    → r.idle.armed ≡ false
    → All (λ o. Calm o.seen.workers) rounds
    → Rests r.idle.notice (sweep_rounds rounds r)
unfolding sweep_rounds
sweep_rounds-Rests [] r h calm = (h, refl)
sweep_rounds-Rests (o ∷ rounds) r h calm =
    let v = reads r o.seen in
    let (low, same) = reserve_idle_notice-Rests o.sweep v o.stops h calm.0 in
    let (down, kept) = sweep_rounds-Rests rounds _ low calm.1 in (down, kept ∙ same)
