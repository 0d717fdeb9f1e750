-- ===== src/Idle/Reserve.antt =====
-- cmd/gang/team_idle.go: `reserveIdleNotice`, which decides whether a sweep reserves a notice.
use gangline.Prelude.{
  ℕ, String, Bool, true, false, not, ◌&&◌, ◌||◌, Option, none, some, List, [], ◌∷◌, ◌++◌, ltb, leb,
  eqb, ◌==◌, if◌then◌else◌, map,
}
use gangline.Core.Types.{Agent, Time, is_zero, Envelope, sender_gangline}
use gangline.Store.World.{IdleMember, IdleState, IdleNotice}
use gangline.Store.Hooks.{StatusHook}
use gangline.Idle.{
  is_busy, idle_member, advance_idle_episode, arm_idle_activity, idle_observation,
  idle_notice_settled, IdleWindow, IdleWindowMember, advance_idle_window,
}
use gangline.Idle.Snapshot.{
  Outside, Wake, Candidate, Worker, IdleSweep, Snapshot, same_outside, complete_claims, same_agents,
  current_lead,
}

-- the agents beside the lead
unfoldable pub others : List Worker → String → List Worker
others [] lead = []
others (w ∷ workers) lead =
    let rest = others workers lead in if w.agent.id == lead then rest else w ∷ rest

unfoldable pub same_work : List Worker → (String → ℕ) → (String → ℕ) → Bool
same_work [] work swept = true
same_work (w ∷ workers) work swept =
    eqb (work w.agent.id) (swept w.agent.id) && same_work workers work swept

worker_member : (String → ℕ) → Worker → IdleMember
worker_member work w = idle_member w.agent (work w.agent.id)

outside_member : Outside → IdleMember
outside_member o = record {
  id = o.id;
  name = o.name;
  generation = "mailbox";
  session = "";
  work = 0;
}

unfoldable pub window_member : (String → ℕ) → Worker → IdleWindowMember
window_member work w = record {
  member = idle_member w.agent (work w.agent.id);
  hook_sequence = w.agent.native.hook_sequence;
  changed_at = w.agent.changed_at;
  screen_since = w.agent.screen_since;
}

abbrev pub armed_state : IdleState → Option IdleState → IdleState
armed_state s none = s
armed_state s (some t) = t

abbrev pub arm_one : IdleState → Worker → Time → IdleState
arm_one s w now =
    if is_busy w.agent.activity then armed_state s (arm_idle_activity s w.agent now) else s

-- every agent that is busy arms the state
unfoldable pub arm_busy : IdleState → List Worker → Time → IdleState
arm_busy s [] now = s
arm_busy s (w ∷ workers) now = arm_busy (arm_one s w now) workers now

active : List Worker → String → Bool
active [] id = false
active (w ∷ workers) id = w.agent.id == id || active workers id

-- the keys of `Work` that are left
keep_active : List Worker → List String → List String
keep_active workers [] = []
keep_active workers (id ∷ ids) =
    let rest = keep_active workers ids in if active workers id then id ∷ rest else rest

read_hooks : List StatusHook → ℕ → Bool
read_hooks [] sequence = true
read_hooks (h ∷ hooks) sequence = not (ltb sequence h.sequence) && read_hooks hooks sequence

later_envelopes : List Envelope → Time → Bool
later_envelopes [] now = true
later_envelopes (e ∷ inbox) now =
    e.outcome == "" && ltb now e.not_before && later_envelopes inbox now

-- the body of the loop over the workers: nothing stands open for this one
unfoldable pub worker_ready : Time → Worker → Bool
unfolding read_hooks later_envelopes
worker_ready now w =
    idle_observation w.agent now
    && not w.permission_pending
    && read_hooks w.hooks w.agent.native.hook_sequence
    && w.agent.last_accepted == ""
    && (w.agent.last_failed == "" || not (w.failed_outcome == "unverified"))
    && later_envelopes w.inbox now

unfoldable pub workers_ready : Time → List Worker → Bool
workers_ready now [] = true
workers_ready now (w ∷ workers) = worker_ready now w && workers_ready now workers

later_snoozes : List Wake → String → List Worker → Time → Bool
later_snoozes [] lead workers now = true
later_snoozes (k ∷ snoozes) lead workers now =
    (k.caller_id == lead
      || not (active workers k.caller_id)
      || k.submission == "" && not (is_zero k.at) && ltb now k.at)
    && later_snoozes snoozes lead workers now

no_recent : List Wake → String → List Worker → Bool
no_recent [] lead workers = true
no_recent (k ∷ recent) lead workers =
    (k.caller_id == lead || not (active workers k.caller_id)) && no_recent recent lead workers

no_candidates : List Candidate → String → List Worker → Bool
no_candidates [] lead workers = true
no_candidates (c ∷ candidates) lead workers =
    (c.id == lead || not (active workers c.id) || is_zero c.at)
    && no_candidates candidates lead workers

abbrev is_nil {ℓ} : {A : Type ℓ} → List A → Bool
is_nil [] = true
is_nil (_ ∷ _) = false

-- `ready`
unfoldable pub ready : IdleSweep → Snapshot → Agent → IdleState → Bool
unfolding later_snoozes no_recent no_candidates active
ready sweep v lead s =
    not (is_nil s.members)
    && is_nil v.outside
    && s.armed
    && idle_notice_settled s.notice
    && leb sweep.start v.now
    && workers_ready v.now (others v.workers lead.id)
    && later_snoozes v.snoozes lead.id v.workers v.now
    && no_recent v.recent lead.id v.workers
    && no_candidates v.candidates lead.id v.workers

-- the state once the episode and the armed latch are up to date
unfoldable pub observed_state : Snapshot → Agent → IdleState
unfolding worker_member outside_member arm_busy active keep_active
observed_state v lead =
    let members =
      map (worker_member v.idle.work) (others v.workers lead.id) ++ map outside_member v.outside in
    let s = arm_busy (advance_idle_episode v.idle (idle_member lead 0) members) v.workers v.now in
    record s {
      work = λ id. if active v.workers id then s.work id else 0;
      tracked = keep_active v.workers s.tracked;
    }

unfoldable pub current_window : Snapshot → Agent → IdleState → IdleWindow
current_window v lead s = record {
  since = v.now;
  last = v.now;
  minimum = v.minimum;
  lead = idle_member lead 0;
  members = map (window_member s.work) (others v.workers lead.id);
}

abbrev pub notice_to : Snapshot → Agent → IdleNotice
notice_to v lead = record {
  generation = lead.registration.generation;
  session = lead.native.session_id;
  outcome = "";
  envelope = record {
    id = v.id;
    token = v.token;
    recipient = lead.id;
    to = lead.name;
    from = record {
      kind = sender_gangline;
      name = "team-idle";
      hitch_id = "";
      host = "";
      peer_class = "";
    };
    created_at = v.now;
    message = record { text = v.text };
    context_stamp = none;
    crossed = "";
    startup = none;
    paste_only = none;
    purpose = "";
    measured_at = none;
    not_before = 0;
    not_after = 0;
    outcome = "";
    reason = "";
    witnessed = "";
  };
}

-- the two files that the reservation writes, in this order
pub record Reserved : Type 0 where
  pub idle : IdleState
  pub window : Option IdleWindow

unfoldable pub conclude : Snapshot → Agent → IdleState → Option IdleWindow × Bool → Reserved
conclude v lead s (window, false) = record { idle = s; window = window }
conclude v lead s (window, true) = record {
  idle = record s { notice = some (notice_to v lead); armed = false };
  window = none;
}

unfoldable pub reserve_for : IdleSweep → Snapshot → Agent → Option Reserved
unfolding same_work
reserve_for sweep v lead =
    let s = observed_state v lead in
    if not (same_work (others v.workers lead.id) v.idle.work sweep.work)
    then none
    else some (
        conclude v lead s
          (advance_idle_window v.window (current_window v lead s) (ready sweep v lead s)))

abbrev reserve_lead : IdleSweep → Snapshot → Option Agent → Option Reserved
reserve_lead sweep v none = none
reserve_lead sweep v (some lead) = reserve_for sweep v lead

-- reserveIdleNotice, where `none` leaves both files as they are
unfoldable pub reserve_idle_notice : IdleSweep → Snapshot → Option Reserved
reserve_idle_notice sweep v =
    if not (same_outside v.outside sweep.outside)
    then none
    else if not (complete_claims v.claims v.agents v.outside)
    then none
    else if not (same_agents sweep v.agents sweep.agents v.workers)
    then none
    else reserve_lead sweep v (current_lead v.workers)
