-- ===== src/Usage/Flush.antt =====
-- cmd/gang/usage_state.go: `flushUsageWork`, which wakes are put again, and to whom each is sent.
-- The notices of the usage bands are left out, and so is what becomes of the envelopes.
pub mod Loops
pub mod Recipients
pub mod Served
use gangline.Prelude.{
  ℕ, String, Bool, true, false, not, ◌&&◌, ◌||◌, Option, none, some, List, [], ◌∷◌, ◌++◌, ltb, ◌==◌,
  is_some, is_empty, if◌then◌else◌,
}
use gangline.Core.Types.{Agent, Time, is_zero}
use gangline.Idle.{is_active, is_lead}
use gangline.Usage.{
  Snooze, snooze_cleared, snooze_rearmed, Desk, put_recent, put_snooze, tell, wake_event, id_of,
  draw, and_then,
}

-- active[id], where a later agent of the list takes the place of an earlier one
unfoldable pub active_agent : List Agent → String → Option Agent
active_agent [] id = none
active_agent (a ∷ agents) id =
    let rest = active_agent agents id in
    if is_some rest then rest else if is_active a.status && a.id == id then some a else none

unfoldable pub active_leads : List Agent → List Agent
active_leads [] = []
active_leads (a ∷ agents) =
    let rest = active_leads agents in if is_active a.status && is_lead a then a ∷ rest else rest

abbrev pub single : List Agent → Option Agent
single [] = none
single (a ∷ []) = some a
single (a ∷ b ∷ agents) = none

-- currentLead
unfoldable pub current_lead : List Agent → Option Agent
current_lead agents = single (active_leads agents)

-- the wakes that are to be sent, with the state
pub record Flushing : Type 0 where
  pub desk : Desk
  pub wakes : List Snooze

module _ (agents : List Agent) (now : Time) where
  abbrev pub is_gone : String → Bool
  is_gone id = not (is_some (active_agent agents id))

  abbrev pub unsent : Snooze → String → String → Snooze
  unsent s id token = record s {
    id = id;
    token = token;
    recipient_id = "";
    recipient_name = "";
    turn_id = "";
    cap_rejected = false;
    cap_candidate = false;
    turn_failed = false;
    cap_failed_at = 0;
    submission = "";
    submitted_at = 0;
  }

  -- the body of the loop over `state.Recent`
  unfoldable pub release : String → Option Snooze → Desk → Option Desk
  release key none d = some d
  release key (some s) d =
      if is_some (active_agent agents s.recipient_id)
      then some d
      else if not (is_empty (id_of (d.state.snoozes key)))
      then some (put_recent key none (tell (wake_event snooze_cleared s now) d))
      else draw d.draws λ id token draws. some (
          put_recent key none (
            tell (wake_event snooze_rearmed (unsent s id token) now)
              (put_snooze key (some (unsent s id token)) (record d { draws = draws }))))

  unfoldable pub release_all : List String → Desk → Option Desk
  release_all [] d = some d
  release_all (key ∷ keys) d =
      and_then (release key (d.state.recent key) d) (λ e. release_all keys e)

  abbrev pub not_due : Snooze → Bool
  not_due s = is_zero s.at || ltb now s.at

  abbrev pub unaddressed : Snooze → Snooze
  unaddressed s = record s { recipient_id = ""; recipient_name = ""; submission = "" }

  abbrev pub sent_to : Snooze → Option Agent → Snooze
  sent_to s none = s
  sent_to s (some a) = record s { recipient_id = a.id; recipient_name = a.name }

  abbrev pub or_lead : Option Agent → Option Agent
  or_lead none = current_lead agents
  or_lead (some caller) = some caller

  -- the recipient of a wake that has none
  unfoldable pub choose_recipient : Snooze → Snooze
  choose_recipient s =
      if is_empty s.recipient_id then sent_to s (or_lead (active_agent agents s.caller_id)) else s

  unfoldable pub send_wake : String → Snooze → Flushing → Flushing
  send_wake key s f = record {
    desk = put_snooze key (some s) f.desk;
    wakes =
        if not (is_empty s.recipient_id) && is_empty s.submission
        then f.wakes ++ s ∷ []
        else f.wakes;
  }

  abbrev on_desk : Flushing → Desk → Flushing
  on_desk f d = record f { desk = d }

  abbrev renamed : Snooze → String → String → Snooze
  renamed s id token = record s { id = id; token = token }

  unfoldable pub address : String → Snooze → Flushing → Option Flushing
  address key s f =
      if not (is_gone s.recipient_id)
      then some (send_wake key (choose_recipient s) f)
      else if not (is_empty s.recipient_id) && not (is_empty s.submission)
      then (draw f.desk.draws λ id token draws. some (
          send_wake key (choose_recipient (unaddressed (renamed s id token))) (
            on_desk f (
              tell (wake_event snooze_rearmed (renamed s id token) now)
                (record f.desk { draws = draws })))))
      else some (send_wake key (choose_recipient (unaddressed s)) f)

  -- a wake waits for the outcome of the one that was sent before
  abbrev pub is_open : Option Snooze → Bool
  is_open none = false
  is_open (some recent) =
      not (is_empty recent.id) && not recent.cap_rejected && not recent.turn_failed

  unfoldable pub clear_recent : String → Option Snooze → Desk → Desk
  clear_recent key none d = d
  clear_recent key (some recent) d =
      if is_empty recent.id
      then d
      else tell (wake_event snooze_cleared recent now) (put_recent key none d)

  -- the body of the loop over the sorted keys of `state.Snoozes`
  unfoldable pub serve : String → Option Snooze → Flushing → Option Flushing
  serve key none f = some f
  serve key (some s) f =
      if not_due s || is_open (f.desk.state.recent key)
      then some f
      else address key s (on_desk f (clear_recent key (f.desk.state.recent key) f.desk))

  unfoldable pub serve_all : List String → Flushing → Option Flushing
  serve_all [] f = some f
  serve_all (key ∷ keys) f =
      and_then (serve key (f.desk.state.snoozes key) f) (λ g. serve_all keys g)

  -- the change of the usage state in `flushUsageWork`: `recent` and `snoozes` are the keys of the two maps, where
  -- the second is read after the first loop
  unfoldable pub flush_wakes : List String → (Desk → List String) → Desk → Option Flushing
  flush_wakes recent snoozes d =
      and_then (release_all recent d) (λ e. serve_all (snoozes e) (record { desk = e; wakes = [] }))
