-- ===== src/Idle/Delivery.antt =====
-- cmd/gang/team_idle.go: the delivery and the settlement of a notice that is reserved.
-- `flush_idle_notice` reads the notice twice, and takes the lock of its recipient in between, so that another process
-- may settle or replace the notice; the publication and the drain that follow are those of every envelope. An error of a
-- read or of a lock ends the function before it writes anything.
pub mod Flushed
use mathlib.Core.Path.{subst}
use gangline.Prelude.{
  some_injective, sym, ap, ◌∙◌, by_test, ◌≡◌, refl, String, Bool, true, false, not, ◌&&◌, ◌||◌,
  Option, none, some, ◌==◌, if◌then◌else◌, is_some, arith, eq_refl, eq_iff, Bool-cases, inl, inr,
}
use gangline.Core.Types.{Agent, Envelope, sender_gangline}
use gangline.Store.World.{IdleState, IdleNotice}
use gangline.Idle.{is_lead, is_active, idle_notice_settled}

abbrev pub is_idle_letter : Envelope → Bool
is_idle_letter e = e.from.kind == sender_gangline && e.from.name == "team-idle"

settle_matching : IdleState → Option IdleNotice → Envelope → String → Option IdleState
settle_matching s none e outcome = none
settle_matching s (some n) e outcome =
    if not (n.envelope.id == e.id)
      || not (n.envelope.recipient == e.recipient)
      || not (n.envelope.token == e.token)
    then none
    else some (record s { notice = some (record n { outcome = outcome }) })

-- settleIdleNotice, where `none` leaves the state as it is
unfoldable pub settle_idle_notice : IdleState → Envelope → String → Option IdleState
unfolding settle_matching
settle_idle_notice s e outcome =
    if not (is_idle_letter e) then none else settle_matching s s.notice e outcome

pub data Flush : Type 0 where
  nothing : Flush
  settle : Envelope → String → Flush  -- settleIdleNotice with this outcome
  publish : Envelope → Flush

-- what `acquire` of the recipient gives: another process has its lock, or there is no such agent
pub data Recipient : Type 0 where
  locked gone : Recipient
  held : Agent → Recipient

abbrev keeps_lead : Agent → IdleNotice → Bool
keeps_lead a n =
    is_lead a && a.registration.generation == n.generation && a.native.session_id == n.session

-- the notice is read again once the recipient is locked
flush_current : IdleNotice → Agent → Option IdleNotice → Flush
flush_current n a none = nothing
flush_current n a (some current) =
    if not (current.envelope.id == n.envelope.id)
    then nothing
    else if not (is_active a.status) || not (keeps_lead a n)
    then settle n.envelope "recipient-changed"
    else if not (current.outcome == "")
    then nothing
    else publish n.envelope

flush_recipient : IdleNotice → Recipient → Option IdleNotice → Flush
flush_recipient n locked current = nothing
flush_recipient n gone current = settle n.envelope "recipient-gone"
flush_recipient n (held a) current = flush_current n a current

flush_notice : Option IdleNotice → Recipient → Option IdleNotice → Flush
flush_notice none r current = nothing
flush_notice (some n) r current =
    if idle_notice_settled (some n) then nothing else flush_recipient n r current

-- flushIdleNotice, with the states of its two reads
unfoldable pub flush_idle_notice : IdleState → Recipient → IdleState → Flush
unfolding flush_notice flush_recipient flush_current
flush_idle_notice s r t = flush_notice s.notice r t.notice

pub data Retire : Type 0 where
  leaves refuses : Retire
  withdraws : Option IdleState → Retire  -- the envelope is withdrawn, behind this settlement

abbrev matches : Option IdleNotice → Agent → Envelope → Bool
matches none a e = false
matches (some n) a e =
    n.envelope.id == e.id && n.envelope.token == e.token && n.envelope.recipient == a.id

abbrev open_for : Option IdleNotice → Agent → Bool
open_for none a = false
open_for (some n) a = n.outcome == "" && keeps_lead a n

abbrev is_open : Option IdleNotice → Bool
is_open none = false
is_open (some n) = n.outcome == ""

-- retireIdleEnvelope
unfoldable pub retire_idle_envelope : IdleState → Agent → Envelope → Retire
retire_idle_envelope s a e =
    if not (is_idle_letter e)
    then leaves
    else if matches s.notice a e && open_for s.notice a
    then leaves
    else if is_some a.input
    then refuses
    else if matches s.notice a e && is_open s.notice
    then withdraws (settle_idle_notice s e "recipient-changed")
    else withdraws none
