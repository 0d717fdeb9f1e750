-- ===== src/Delivery.antt =====
-- cmd/gang/delivery.go: which of the queued envelopes of an agent is typed into its composer next.
-- cmd/gang/recover.go, startup_recovery.go, clear.go, capacity.go and rehitch.go have the tests on an
-- envelope and an agent that the choice makes.
pub mod Attempts
pub mod Chosen
pub mod Drain
pub mod Drained
pub mod Ends
pub mod Reasons
pub mod Rounds
pub mod Scan
use text.Mathlib.Text.{starts_with}
use gangline.Prelude.{
  ℕ, ◌+◌, String, Bool, true, false, not, ◌&&◌, ◌||◌, Option, none, some, List, [], ◌∷◌, ltb, leb,
  ◌==◌, is_some, is_empty, concat, if◌then◌else◌,
}
use gangline.Core.Types.{
  Agent, Envelope, Sender, Message, Time, is_zero, Compaction, CompactionStatus, ClearRequest,
  Status, Activity, ClearRequest,
}
use gangline.Idle.{is_active, is_idle}

-- SenderGangline
abbrev pub from_gangline : Envelope → String → Bool
from_gangline e name = e.from.kind == "gangline" && e.from.name == name

-- isContextBandNotice
unfoldable pub is_context_band_notice : Envelope → Bool
is_context_band_notice e = from_gangline e "context-band"

-- isResumeEnvelope
unfoldable pub is_resume_envelope : Envelope → Bool
is_resume_envelope e =
    e.purpose == "resume" || e.from.name == "compact" && starts_with e.id "resume-"

-- isStartupEnvelope
unfoldable pub is_startup_envelope : Envelope → Bool
is_startup_envelope e = e.purpose == "startup" || e.purpose == "assignment" || e.purpose == "clear"

-- capacityEnvelope
unfoldable pub capacity_envelope : Envelope → Bool
capacity_envelope e = from_gangline e "capacity-recovery"

-- withdrawable
unfoldable pub withdrawable : Envelope → Bool
withdrawable e =
    not (e.from.kind == "gangline") && not (is_startup_envelope e) && not (is_resume_envelope e)

-- the clear that is pending
unfoldable pub clear_pending : Option ClearRequest → Bool
clear_pending none = false
clear_pending (some c) = not (c.status == "completed")

abbrev pub is_continuing : Option ClearRequest → Bool
is_continuing none = false
is_continuing (some c) = c.status == "continuing"

abbrev pub clear_id : Option ClearRequest → String
clear_id none = ""
clear_id (some c) = c.envelope.id

abbrev pub is_completed : CompactionStatus → Bool
is_completed CompactionStatus.completed = true
is_completed _ = false

abbrev pub same_sender : Sender → Sender → Bool
same_sender s t =
    s.kind == t.kind
    && s.name == t.name
    && s.hitch_id == t.hitch_id
    && s.host == t.host
    && s.peer_class == t.peer_class

-- the envelope that a compaction has queued, unsubmitted
unfoldable pub untouched : Agent → Compaction → Envelope → Bool
untouched a c e =
    e.id == concat "resume-" c.id
    && e.token == c.resume_token
    && e.recipient == a.id
    && e.to == a.name
    && same_sender e.from c.resume_from
    && e.message.text == c.resume.text
    && e.purpose == "resume"
    && is_empty e.outcome
    && is_empty e.reason
    && not (is_some e.startup)
    && not (is_some e.paste_only)
    && not (is_some e.measured_at)
    && is_zero e.not_before
    && is_zero e.not_after

-- completedResume
unfoldable pub completed_resume : Agent → Option Compaction → Envelope → Bool
completed_resume a none e = false
completed_resume a (some c) e =
    is_completed c.status
    && ltb c.started_at c.completed_at
    && c.continuation
    && not c.resume_admitted
    && not (is_empty c.resume_token)
    && untouched a c e

abbrev is_failed : CompactionStatus → Bool
is_failed CompactionStatus.failed = true
is_failed _ = false

abbrev settled_compaction : Option Compaction → Bool
settled_compaction none = true
settled_compaction (some c) = is_failed c.status || c.resume_admitted

-- rehitchReady
unfoldable pub rehitch_ready : Agent → Bool
rehitch_ready a =
    is_some a.rehitch
    && is_active a.status
    && is_idle a.activity
    && not (is_some a.input)
    && not (is_zero a.native.finished_at)
    && not (ltb a.native.finished_at a.native.submitted_at)
    && settled_compaction a.compaction

-- an agent that takes no input at all: the returns of drainLocked before its loop
unfoldable pub takes_nothing : Agent → Bool
takes_nothing a =
    clear_pending a.clear && not (is_continuing a.clear)
    || not (is_active a.status)
    || rehitch_ready a

abbrev pub has_expired : Time → Envelope → Bool
has_expired now e = not (is_zero e.not_after) && leb e.not_after now

abbrev pub is_due : Time → Envelope → Bool
is_due now e = leb e.not_before now

unfoldable pub find_id : String → List Envelope → Option Envelope
find_id id [] = none
find_id id (e ∷ es) = let rest = find_id id es in if e.id == id then some e else rest

-- the continuation, or the input of a startup, which go before all else
unfoldable pub reserved : Agent → List Envelope → Option Envelope
reserved a [] = none
reserved a (e ∷ es) =
    let rest = reserved a es in
    if completed_resume a a.compaction e || is_startup_envelope e then some e else rest

-- the due message that goes before a capacity continuation
unfoldable pub ordinary : Time → List Envelope → Option Envelope
ordinary now [] = none
ordinary now (e ∷ es) =
    let rest = ordinary now es in
    if not (capacity_envelope e) && is_due now e && not (has_expired now e) then some e else rest

abbrev pub or_else : Option Envelope → Envelope → Envelope
or_else none next = next
or_else (some e) next = e

unfoldable pub outrank : Time → List Envelope → Envelope → Envelope
outrank now pending next =
    if capacity_envelope next then or_else (ordinary now pending) next else next
