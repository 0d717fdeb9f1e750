-- ===== src/Idle/Snapshot.antt =====
-- cmd/gang/team_idle.go: what `reserveIdleNotice` reads, and the tests that end it before it decides.
-- A snapshot is what the function reads while it holds the locks of the team, its agents, the usage
-- state and the idle state. The errors of these reads, and a lock that another process holds, end
-- the function before it writes anything.
use gangline.Prelude.{
  ℕ, String, Bool, true, false, ◌&&◌, ◌||◌, Option, none, some, List, [], ◌∷◌, ◌==◌, if◌then◌else◌,
}
use gangline.Core.Types.{Agent, Time, Envelope}
use gangline.Store.World.{IdleState}
use gangline.Store.Hooks.{StatusHook}
use gangline.Store.Credentials.Senders.{is_sender_id}
use gangline.Idle.{is_lead, is_active, idle_member, same_idle_identity, IdleWindow}

-- store/outside.go
pub record Outside : Type 0 where
  pub id : String
  pub name : String

-- cmd/gang/usage_state.go: the fields of a wake that the reservation reads
pub record Wake : Type 0 where
  pub caller_id : String
  pub submission : String
  pub at : Time

pub record Candidate : Type 0 where
  pub id : String
  pub at : Time

-- a claimed name and the identity that it resolves to
pub record Claim : Type 0 where
  pub name : String
  pub id : String

-- one agent and the files of its directory
pub record Worker : Type 0 where
  pub agent : Agent
  pub permission_pending : Bool  -- ReadPermissionWitness
  pub hooks : List StatusHook  -- ReadStatusHooks
  pub failed_outcome : String  -- the outcome of the envelope `LastFailed` names
  pub inbox : List Envelope  -- ListNew

-- idleSweep, as `startIdleSweep` and the sweep leave it
pub record IdleSweep : Type 0 where
  pub start : Time
  pub agents : List Agent
  pub outside : List Outside
  pub work : String → ℕ
  pub observed : String → Bool

pub record Snapshot : Type 0 where
  pub agents : List Agent  -- ListAgents
  pub workers : List Worker  -- the same agents, read again under their locks
  pub outside : List Outside  -- ListOutside
  pub claims : List Claim
  pub snoozes : List Wake
  pub recent : List Wake
  pub candidates : List Candidate  -- AutoCandidates
  pub idle : IdleState
  pub window : Option IdleWindow
  pub now : Time
  pub minimum : ℕ
  pub id : String  -- randomID
  pub token : String  -- randomEnvelopeToken
  pub text : String  -- idleNoticeText

unfoldable pub same_outside : List Outside → List Outside → Bool
same_outside [] [] = true
same_outside (a ∷ left) (b ∷ right) = a.id == b.id && a.name == b.name && same_outside left right
same_outside _ _ = false

-- `known[name]`, where a later entry replaces an earlier one
known_agents : List Agent → String → String → String
known_agents [] name id = id
known_agents (a ∷ agents) name id = known_agents agents name (if a.name == name then a.id else id)

known_outside : List Outside → String → String → String
known_outside [] name id = id
known_outside (o ∷ outside) name id =
    known_outside outside name (if o.name == name then o.id else id)

unfoldable pub complete_claims : List Claim → List Agent → List Outside → Bool
unfolding known_agents known_outside
complete_claims [] agents outside = true
complete_claims (c ∷ claims) agents outside =
    (is_sender_id c.id || known_outside outside c.name (known_agents agents c.name "") == c.id)
    && complete_claims claims agents outside

-- the loop that takes the locks: each agent is the one that the sweep saw and observed
unfoldable pub same_agents : IdleSweep → List Agent → List Agent → List Worker → Bool
same_agents sweep [] [] [] = true
same_agents sweep (a ∷ agents) (seen ∷ before) (w ∷ workers) =
    same_idle_identity (idle_member a 0) (idle_member seen 0)
    && sweep.observed a.id
    && same_idle_identity (idle_member a 0) (idle_member w.agent 0)
    && same_agents sweep agents before workers
same_agents _ _ _ _ = false

-- currentLead
leads : List Worker → List Agent
leads [] = []
leads (w ∷ workers) =
    let rest = leads workers in
    if is_active w.agent.status && is_lead w.agent then w.agent ∷ rest else rest

abbrev only : List Agent → Option Agent
only (a ∷ []) = some a
only _ = none

unfoldable pub current_lead : List Worker → Option Agent
unfolding leads
current_lead workers = only (leads workers)
