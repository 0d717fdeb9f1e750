-- ===== src/Usage/Acknowledge.antt =====
-- cmd/gang/usage_state.go: `acknowledgeUsageDelivery`, of a wake.
-- Its usage-band notices are left out. `submitted_at` and `turn_id` are those of the witness, or of the agent.
use gangline.Prelude.{
  String, Bool, false, not, ◌&&◌, ◌||◌, Option, none, some, List, [], ◌∷◌, ◌==◌, if◌then◌else◌,
}
use gangline.Core.Types.{Agent, Envelope, Time}
use gangline.Store.NativePending.{Witness}
use gangline.Store.World.{update}
use gangline.Usage.{Snooze, UsageState}

-- what is acknowledged: the delivery's outcome, and its first witness
pub record Delivery : Type 0 where
  pub agent : Agent
  pub envelope : Envelope
  pub outcome : String
  pub witnessed : Option Witness

abbrev pub is_wake : Delivery → Bool
is_wake y = y.envelope.from.kind == "gangline" && y.envelope.from.name == "snooze"

abbrev pub submitted_at : Option Witness → Time
submitted_at none = 0
submitted_at (some w) = w.at

abbrev pub turn_of : Delivery → Option Witness → String
turn_of y none = y.agent.native.turn_id
turn_of y (some w) = w.turn_id

-- the wake, as its turn has taken it
abbrev pub delivered_wake : Delivery → Snooze → Snooze
delivered_wake y s = record s {
  turn_id = turn_of y y.witnessed;
  submitted_at = submitted_at y.witnessed;
  submission = "";
  input_text = "";
}

abbrev pub submitted_wake : Delivery → Snooze → Snooze
submitted_wake y s = record s { submission = y.outcome; input_text = y.envelope.message.text }

abbrev pub is_of : Delivery → Option Snooze → Bool
is_of y none = false
is_of y (some s) = s.id == y.envelope.id && s.recipient_id == y.agent.id

unfoldable pub settle_wake : Delivery → String → Option Snooze → UsageState → UsageState
settle_wake y key none st = st
settle_wake y key (some s) st =
    if y.outcome == "accepted" || y.outcome == "unverified"
    then record st { snoozes = update st.snoozes key (some (submitted_wake y s)) }
    else if not (y.outcome == "delivered")
    then st
    else record st {
      recent = update st.recent key (some (delivered_wake y s));
      snoozes = update st.snoozes key none;
    }

-- the loop over `state.Snoozes`, which ends at the wake of the envelope
unfoldable pub settle_wakes : Delivery → List String → UsageState → UsageState
settle_wakes y [] st = st
settle_wakes y (key ∷ keys) st =
    let rest = settle_wakes y keys st in
    if is_of y (st.snoozes key) then settle_wake y key (st.snoozes key) st else rest

unfoldable pub acknowledge_usage_delivery : Delivery → List String → UsageState → UsageState
acknowledge_usage_delivery y keys st =
    let done = settle_wakes y keys st in if is_wake y then done else st
