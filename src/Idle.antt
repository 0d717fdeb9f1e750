-- ===== src/Idle.antt =====
-- cmd/gang/team_idle.go: when the lead is told that its whole team is idle.
-- This module has the decisions on one agent, one episode and one window of observations; the
-- children have the reservation of a notice, its settlement, and the proofs.
-- Time is in nanoseconds. A subtraction of two times stands behind the test that orders them.
pub mod Delivery
pub mod Notices
pub mod Reserve
pub mod Rounds
pub mod Snapshot
pub mod Window
use gangline.Prelude.{
  ℕ, ◌+◌, ◌-◌, String, Bool, true, false, not, ◌&&◌, ◌||◌, Option, none, some, List, [], ◌∷◌, ltb,
  leb, eqb, ◌==◌, if◌then◌else◌, is_some,
}
use gangline.Core.Types.{
  Agent, Time, is_zero, Status, Activity, Compaction, CompactionStatus, ClearRequest, InputIntent,
  InputOutage, Message,
}
use gangline.Store.World.{IdleMember, IdleState, IdleNotice}

-- statusHookFreshness, 30 seconds
abbrev pub status_hook_freshness : ℕ
status_hook_freshness = 30_000_000_000

abbrev held_input_evidence : String
held_input_evidence = "native composer contains unsubmitted input"

-- isLead
abbrev pub is_lead : Agent → Bool
is_lead a = a.role == "lead" && a.hitched_by == ""

abbrev pub is_active : Status → Bool
is_active Status.active = true
is_active _ = false

abbrev pub is_idle : Activity → Bool
is_idle Activity.idle = true
is_idle _ = false

abbrev pub is_busy : Activity → Bool
is_busy Activity.busy = true
is_busy _ = false

-- idleMember
abbrev pub idle_member : Agent → ℕ → IdleMember
idle_member a work = record {
  id = a.id;
  name = a.name;
  generation = a.registration.generation;
  session = a.native.session_id;
  work = work;
}

-- sameIdleIdentity
unfoldable pub same_idle_identity : IdleMember → IdleMember → Bool
same_idle_identity a b =
    a.id == b.id && a.name == b.name && a.generation == b.generation && a.session == b.session

-- the lengths and the loop of `advanceIdleEpisode`
unfoldable pub same_members : List IdleMember → List IdleMember → Bool
same_members [] [] = true
same_members (a ∷ left) (b ∷ right) = same_idle_identity a b && same_members left right
same_members _ _ = false

-- advanceIdleEpisode
unfoldable pub advance_idle_episode : IdleState → IdleMember → List IdleMember → IdleState
advance_idle_episode s lead members =
    let same = s.initialized && same_idle_identity s.lead lead && same_members s.members members in
    record s {
      armed = if same then s.armed else false;
      initialized = true;
      lead = lead;
      members = members;
    }

has_member : List IdleMember → Agent → Bool
has_member [] a = false
has_member (m ∷ members) a = same_idle_identity m (idle_member a 0) || has_member members a

covers : Option IdleNotice → Time → Bool
covers none at = false
covers (some notice) at = leb at notice.envelope.created_at

-- armIdleActivity, where `none` is false
unfoldable pub arm_idle_activity : IdleState → Agent → Time → Option IdleState
unfolding has_member covers
arm_idle_activity s a at =
    if not s.initialized
      || not (is_active a.status)
      || is_zero at
      || a.id == s.lead.id
      || covers s.notice at
    then none
    else if has_member s.members a
    then some (record s { armed = true })
    else none

-- clearPending
abbrev clear_pending : Option ClearRequest → Bool
clear_pending none = false
clear_pending (some c) = not (c.status == "completed")

abbrev is_completed : CompactionStatus → Bool
is_completed CompactionStatus.completed = true
is_completed _ = false

abbrev compaction_pending : Option Compaction → Bool
compaction_pending none = false
compaction_pending (some c) = not (is_completed c.status)

-- idleObservation
unfoldable pub idle_observation : Agent → Time → Bool
idle_observation a now =
    if not (is_active a.status)
      || not (is_idle a.activity)
      || a.pane == ""
      || is_some a.input
      || is_some a.input_outage
      || is_some a.rehitch
      || a.registration.held
      || not (a.native.turn_failure == "")
      || not (a.capacity.fingerprint == "")
      || not (is_zero a.interrupt_deadline)
      || clear_pending a.clear
    then false
    else if compaction_pending a.compaction
    then false
    else if a.evidence == held_input_evidence
    then false
    else (let at =
          if ltb a.native.hook_at a.status_probe_at then a.status_probe_at else a.native.hook_at in
        not (is_zero at) && leb at now && ltb (now - at) status_hook_freshness)

pub record IdleWindowMember : Type 0 where
  pub member : IdleMember
  pub hook_sequence : ℕ
  pub changed_at : Time
  pub screen_since : Time

pub record IdleWindow : Type 0 where
  pub since : Time
  pub last : Time
  pub minimum : ℕ
  pub lead : IdleMember
  pub members : List IdleWindowMember

abbrev equal_member : IdleMember → IdleMember → Bool
equal_member a b = same_idle_identity a b && eqb a.work b.work

-- the loop of `advanceIdleWindow`
same_readings : List IdleWindowMember → List IdleWindowMember → Bool
same_readings [] [] = true
same_readings (a ∷ left) (b ∷ right) =
    equal_member a.member b.member
    && eqb a.hook_sequence b.hook_sequence
    && eqb a.changed_at b.changed_at
    && eqb a.screen_since b.screen_since
    && same_readings left right
same_readings _ _ = false

-- the window goes on from `previous`
unfoldable pub continues : IdleWindow → IdleWindow → Bool
unfolding same_readings
continues previous current =
    not (is_zero previous.since)
    && leb previous.since previous.last
    && leb previous.last current.last
    && ltb (current.last - previous.last) status_hook_freshness
    && eqb previous.minimum current.minimum
    && equal_member previous.lead current.lead
    && same_readings current.members previous.members

-- advanceIdleWindow
unfoldable pub advance_idle_window :
    Option IdleWindow → IdleWindow → Bool → Option IdleWindow × Bool
advance_idle_window none current ready = if ready then (some current, false) else (none, false)
advance_idle_window (some previous) current ready =
    if not ready
    then (none, false)
    else if not (continues previous current)
    then (some current, false)
    else (
      some (record current { since = previous.since }),
      ltb 0 current.minimum && leb current.minimum (current.last - previous.since),
    )

-- idleNoticeSettled
unfoldable pub idle_notice_settled : Option IdleNotice → Bool
idle_notice_settled none = true
idle_notice_settled (some n) =
    n.outcome == "delivered"
    || n.outcome == "failed"
    || n.outcome == "recipient-gone"
    || n.outcome == "recipient-changed"
