-- ===== src/Tests/IdleRuns.antt =====
-- cmd/gang/team_idle.go: the properties of the idle notice at concrete inputs.
use gangline.Prelude.{◌≡◌, refl, Bool, true, false, none, some, Option, List, [], ◌∷◌, ◌==◌}
use gangline.Core.Types.{Agent, Status, Activity, Time}
use gangline.Store.World.{IdleState}
use gangline.Idle.{
  same_idle_identity, advance_idle_window, advance_idle_episode, same_members, idle_notice_settled,
  idle_observation, arm_idle_activity, continues, IdleWindow, idle_member,
}
use gangline.Idle.Delivery.{flush_idle_notice, nothing, publish, held}
use gangline.Idle.Delivery.Flushed.{Flushed, flush_idle_notice-Flushed}
use gangline.Idle.Window.{Sweep, watch, Watched, watch-Watched}
use gangline.Idle.Snapshot.{
  same_outside, complete_claims, same_agents, current_lead, Worker, IdleSweep, Snapshot,
}
use gangline.Idle.Reserve.{
  notice_to, reserve_for, others, conclude, ready, observed_state, workers_ready, worker_ready,
  arm_busy, current_window, same_work, window_member, Reserved, reserve_idle_notice,
}
use gangline.Idle.Notices.{Decided, reserve_idle_notice-Decided}
use gangline.Idle.Rounds.{Round, Rests, sweep_rounds, sweep_rounds-Rests}
use gangline.Tests.Samples.{agent, no_idle}

abbrev leader : Agent
leader = record agent {
  id = "h0";
  name = "lead";
  role = "lead";
  hitched_by = "";
  status = Status.active;
  activity = Activity.idle;
}

-- seen idle at 1000
abbrev member : Agent
member = record agent {
  status = Status.active;
  activity = Activity.idle;
  pane = "%1";
  status_probe_at = 1000;
  hitched_by = "h0";
}

abbrev worker : Agent → Worker
worker a = record {
  agent = a;
  permission_pending = false;
  hooks = [];
  failed_outcome = "";
  inbox = [];
}

abbrev armed : IdleState
armed = record no_idle {
  initialized = true;
  lead = idle_member leader 0;
  members = idle_member member 0 ∷ [];
  armed = true;
}

abbrev reading : Time → IdleWindow
reading t = record {
  since = t;
  last = t;
  minimum = 500;
  lead = idle_member leader 0;
  members =
      record {
        member = idle_member member 0;
        hook_sequence = member.native.hook_sequence;
        changed_at = member.changed_at;
        screen_since = member.screen_since;
      }
      ∷ [];
}

abbrev sweep : IdleSweep
sweep = record {
  start = 1500;
  agents = leader ∷ member ∷ [];
  outside = [];
  work = λ _. 0;
  observed = λ _. true;
}

abbrev snapshot : IdleState → Option IdleWindow → Snapshot
snapshot s w = record {
  agents = leader ∷ member ∷ [];
  workers = worker leader ∷ worker member ∷ [];
  outside = [];
  claims = record { name = "lead"; id = "h0" } ∷ [];
  snoozes = [];
  recent = [];
  candidates = [];
  idle = s;
  window = w;
  now = 1600;
  minimum = 500;
  id = "team-idle-1";
  token = "token";
  text = "All 1 worker idle since 1970-01-01T00:00:00Z: ada.";
}

abbrev reserved : Option Reserved
reserved = reserve_idle_notice sweep (snapshot armed (some (reading 1000)))

abbrev notice_of : Option Reserved → Bool
notice_of none = false
notice_of (some r) = elim r.idle.notice [ none ↦ false | some n ↦ n.envelope.to == "lead" ]

-- the window from 1000 is mature at 1600
notice_put : notice_of reserved ≡ true
unfolding reserve_idle_notice same_outside complete_claims same_agents same_idle_identity
    current_lead reserve_for others conclude advance_idle_window ready observed_state
    advance_idle_episode same_members idle_notice_settled workers_ready worker_ready
    idle_observation arm_busy current_window same_work window_member arm_idle_activity continues
notice_put = refl

-- the window from 1200 is not
notice_waits : notice_of (reserve_idle_notice sweep (snapshot armed (some (reading 1200)))) ≡ false
unfolding reserve_idle_notice same_outside complete_claims same_agents same_idle_identity
    current_lead reserve_for others conclude advance_idle_window ready observed_state
    advance_idle_episode same_members idle_notice_settled workers_ready worker_ready
    idle_observation arm_busy current_window same_work window_member arm_idle_activity continues
notice_waits = refl

abbrev sweeps : List Sweep
sweeps =
    record { observed = reading 1600; ready = true }
    ∷ record { observed = reading 1000; ready = true }
    ∷ []

watch-Watched_example : Watched sweeps (watch sweeps)
watch-Watched_example = watch-Watched sweeps

reserve_idle_notice-Decided_example :
    Decided sweep
      (snapshot armed (some (reading 1000)))
      (reserve_idle_notice sweep (snapshot armed (some (reading 1000))))
reserve_idle_notice-Decided_example =
    reserve_idle_notice-Decided sweep (snapshot armed (some (reading 1000)))

abbrev disarmed : Reserved
disarmed = record { idle = record armed { armed = false }; window = some (reading 1000) }

abbrev rounds : List Round
rounds =
    record { sweep = sweep; seen = snapshot armed none; stops = true }
    ∷ record { sweep = sweep; seen = snapshot armed none; stops = false }
    ∷ []

sweep_rounds-Rests_example : Rests disarmed.idle.notice (sweep_rounds rounds disarmed)
sweep_rounds-Rests_example =
    sweep_rounds-Rests rounds disarmed refl ((refl, (refl, tt)), ((refl, (refl, tt)), tt))

abbrev waiting : IdleState
waiting = record armed { notice = some (notice_to (snapshot armed none) leader) }

-- another process settles the notice before the second read
abbrev settled_state : IdleState
settled_state = record waiting {
  notice = some (record (notice_to (snapshot armed none) leader) { outcome = "delivered" });
}

flush_idle_notice-Flushed_example :
    Flushed waiting
      (held leader)
      settled_state
      (flush_idle_notice waiting (held leader) settled_state)
flush_idle_notice-Flushed_example =
    flush_idle_notice-Flushed waiting (held leader) settled_state (λ _. refl)

notice_sent :
    flush_idle_notice waiting (held leader) waiting
    ≡ publish (notice_to (snapshot armed none) leader).envelope
unfolding flush_idle_notice idle_notice_settled
notice_sent = refl

notice_not_sent_twice : flush_idle_notice waiting (held leader) settled_state ≡ nothing
unfolding flush_idle_notice idle_notice_settled
notice_not_sent_twice = refl
