-- ===== src/Core/Types.antt =====
-- core/agent.go and core/event.go: the state of an agent and the events that change it.
-- A `time.Time` is a number of nanoseconds, 0 for the zero time; a pointer is an `Option`.
-- Named string constants are constructors; a string outside them is `other`.
use gangline.Prelude.{ℕ, eqb, not, String, Bool, false, Option, List, ◌==◌, ◌&&◌, ◌||◌}
use gangline.Prelude.{is_empty, if◌then◌else◌}

abbrev pub Time : Type 0
Time = ℕ

-- t.IsZero()
abbrev pub is_zero : Time → Bool
is_zero t = eqb t 0

-- a float64 that is only stored: its IEEE 754 bit pattern
pub record Float64 : Type 0 where
  pub bits : ℕ

pub data Status : Type 0 where
  starting booting active dropping failed : Status
  other : String → Status

pub data Activity : Type 0 where
  unknown idle busy compacting interrupting blocked wedged : Activity
  other : String → Activity

-- `Compaction.Status`
pub data CompactionStatus : Type 0 where
  queued submitted completed failed unverified : CompactionStatus
  other : String → CompactionStatus

pub record Message : Type 0 where
  pub text : String

pub record Sender : Type 0 where
  pub kind : String
  pub name : String
  pub hitch_id : String
  pub host : String
  pub peer_class : String

-- SenderAgent, SenderOutside, SenderRegistered
abbrev pub sender_agent : String
sender_agent = "agent"

abbrev pub sender_outside : String
sender_outside = "outside"

abbrev pub sender_registered : String
sender_registered = "registered"

abbrev pub sender_gangline : String
sender_gangline = "gangline"

abbrev pub sender_peer : String
sender_peer = "peer"

-- Sender.SameIdentity
unfoldable pub same_identity : Sender → Sender → Bool
same_identity s that =
    if not (s.kind == that.kind)
    then false
    else if s.kind == sender_agent || s.kind == sender_outside || s.kind == sender_registered
    then not (is_empty s.hitch_id) && s.hitch_id == that.hitch_id
    else s.name == that.name && s.host == that.host && s.peer_class == that.peer_class

pub record StartupSections : Type 0 where
  pub contract : String
  pub doctrine : String
  pub role : String

pub record StartupPaste : Type 0 where
  pub witness_id : String

pub record ContextStamp : Type 0 where
  pub text : String
  pub crossings : List String

pub record Envelope : Type 0 where
  pub id : String
  pub token : String
  pub from : Sender
  pub to : String
  pub recipient : String
  pub message : Message
  pub context_stamp : Option ContextStamp
  pub crossed : String
  pub startup : Option StartupSections
  pub paste_only : Option StartupPaste
  pub purpose : String
  pub created_at : Time
  pub measured_at : Option Time
  pub not_before : Time
  pub not_after : Time
  pub outcome : String
  pub reason : String
  pub witnessed : String

pub record ClearRequest : Type 0 where
  pub envelope : Envelope
  pub previous_session : String
  pub status : String
  pub started_at : Time
  pub reason : String

pub record ContextBandThresholds : Type 0 where
  pub early : Float64
  pub late : Float64

pub record NativeTitle : Type 0 where
  pub text : String
  pub attempted : Bool

pub record InputOutage : Type 0 where
  pub since : Time
  pub escalated : Bool

pub record LimitWindow : Type 0 where
  pub label : String
  pub used_percent : Float64
  pub reset_at : ℕ
  pub window_minutes : ℕ

pub record TokenUsage : Type 0 where
  pub semantics : String
  pub fields : String
  pub cache_inclusion : String
  pub input : Option ℕ
  pub output : Option ℕ
  pub cached_input : Option ℕ

pub record Reading : Type 0 where
  pub session_id : String
  pub source_offset : ℕ
  pub usage : Option TokenUsage
  pub kind : String
  pub source : String
  pub native_event : String
  pub at : Option Time
  pub status : String
  pub reason : String
  pub turn_id : String
  pub model : String
  pub used : Option ℕ
  pub limit : Option ℕ
  pub percent : Option Float64
  pub limits : List LimitWindow
  pub effort : String

pub record ContextBandNote : Type 0 where
  pub threshold : Float64
  pub band : String
  pub reading : Reading
  pub envelope : Envelope

pub record ContextBandState : Type 0 where
  pub model : String
  pub percent : Float64
  pub compacted_at : Time
  pub sequence : ℕ
  pub discard_queued : Bool
  pub pending : List ContextBandNote

pub record ProcessIdentity : Type 0 where
  pub namespace : String
  pub pid : ℕ
  pub started : String
  pub version : ℕ
  pub unique_id : ℕ
  pub boot_id : String

pub record InputIntent : Type 0 where
  pub id : String
  pub kind : String
  pub at : Time

pub record ResultRef : Type 0 where
  pub id : String
  pub directory : String

pub record Compaction : Type 0 where
  pub id : String
  pub resume : Message
  pub resume_from : Sender
  pub requester : Sender
  pub started_at : Time
  pub deadline : Time
  pub status : CompactionStatus
  pub continuation : Bool
  pub resume_token : String
  pub resume_admitted : Bool
  pub completed_at : Time
  pub refusal_before : ℕ
  pub reason : String
  pub recovered : Bool

pub record Capacity : Type 0 where
  pub fingerprint : String
  pub evidence : String
  pub deadline : Time
  pub next_at : Time
  pub attempts : ℕ
  pub submitted : Bool

pub record NativeState : Type 0 where
  pub hook_sequence : ℕ
  pub hook_at : Time
  pub hook_kind : String
  pub session_id : String
  pub bound_session : String
  pub turn_id : String
  pub transcript : String
  pub turn_failure : String
  pub failed_turn : String
  pub last_error_at : Time
  pub last_error : String
  pub offset : ℕ
  pub submitted_at : Time
  pub finished_at : Time
  pub compacted_at : Time
  pub confirmed_compacted_at : Time
  pub context : Reading
  pub limits : Reading
  pub model : String
  pub effort : String
  pub startup_session_id : String
  pub startup_turn_id : String
  pub startup_failure_noticed : String

pub record PaneRegistration : Type 0 where
  pub generation : String
  pub session : String
  pub token_hash : String
  pub launch_command : String
  pub server : ProcessIdentity
  pub held : Bool

pub record Agent : Type 0 where
  pub id : String
  pub name : String
  pub collar : String
  pub configured_model : String
  pub configured_effort : String
  pub clear : Option ClearRequest
  pub rehitch : Option Message
  pub role : String
  pub hitched_by : String
  pub directory : String
  pub pane : String
  pub status : Status
  pub activity : Activity
  pub created_at : Time
  pub changed_at : Time
  pub boot_deadline : Time
  pub interrupt_deadline : Time
  pub interrupt_at : Time
  pub drop_deadline : Time
  pub evidence : String
  pub status_probe_at : Time
  pub screen_fingerprint : String
  pub screen_since : Time
  pub input_outage : Option InputOutage
  pub input : Option InputIntent
  pub compaction : Option Compaction
  pub capacity : Capacity
  pub native : NativeState
  pub native_title : Option NativeTitle
  pub context_band_thresholds : Option ContextBandThresholds
  pub context_bands : ContextBandState
  pub registration : PaneRegistration
  pub process : ProcessIdentity
  pub teardown : List ProcessIdentity
  pub rename_from : String
  pub rename_to : String
  pub last_accepted : String
  pub last_delivered : String
  pub last_failed : String
  pub cleanup : Option ResultRef
  pub curfew_notice_deadline : Time
  pub startup_prompt_noticed_at : Time

-- the event kinds that `Step` switches on; every other string is `other`
pub data EventType : Type 0 where
  hitch_spawned hitch_ready hitch_blocked boot_reopened hitch_failed : EventType
  activity_observed input_started input_finished : EventType
  compaction_requested compaction_waiting compaction_cancelled compaction_submitted : EventType
  compaction_completed compaction_failed compaction_unverified : EventType
  interrupt_requested interrupt_completed drop_started : EventType
  capacity_detected capacity_submitted capacity_cleared deadline_checked : EventType
  other : String → EventType

pub record CredentialActor : Type 0 where
  pub kind : String
  pub name : String
  pub hitch_id : String

pub record Binding : Type 0 where
  pub session_id : String
  pub previous_session_id : String
  pub collar : String
  pub hitched_by : String

pub record ActivityBasis : Type 0 where
  pub screen : String
  pub rule : String
  pub compaction : String

pub record Event : Type 0 where
  pub source : String
  pub type : EventType
  pub at : Time
  pub hitch_id : String
  pub name : String
  pub to : String
  pub pane : String
  pub id : String
  pub reason : String
  pub status : String
  pub activity : Activity
  pub deadline : Time
  pub envelope : Option Envelope
  pub compaction : Option Compaction
  pub readings : List Reading
  pub native_event : String
  pub fingerprint : String
  pub basis : Option ActivityBasis
  pub binding : Option Binding
  pub actor : Option CredentialActor
  pub command : String

pub record Effect : Type 0 where
  pub kind : String
  pub reason : String
