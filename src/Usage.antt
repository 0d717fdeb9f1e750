-- ===== src/Usage.antt =====
-- cmd/gang/usage_state.go, cmd/gang/snooze.go, cmd/gang/auto_cap.go: the wakes of a team, and the native
-- reset that a wake waits for.
-- The `Recent` and `Snoozes` maps hold one wake at most for each caller. Reasons and texts for people are left out
-- of the events. `strings.ToLower`, `strings.TrimSpace` and the comparisons of a float64 are parameters.
-- now.Sub(t) > d is t + d < now, which also holds where the source's difference saturates.
pub mod Held
pub mod Judge
pub mod Later
pub mod Acknowledge
pub mod Fate
pub mod Observed
pub mod Outcomes
pub mod Turns
pub mod Rearms
pub mod Taken
pub mod Flush
use text.Mathlib.Text.{starts_with}
use gangline.Prelude.{
  ℕ, ◌+◌, ◌*◌, String, Bool, true, false, not, ◌&&◌, ◌||◌, Option, none, some, List, [], ◌∷◌, ltb,
  leb, eqb, ◌==◌, is_some, is_empty, if◌then◌else◌,
}
use gangline.Core.Types.{Float64, Agent, LimitWindow, Reading, Time, is_zero}
use gangline.Store.World.{update}

-- usageSnooze
pub record Snooze : Type 0 where
  pub id : String
  pub token : String
  pub caller_id : String
  pub caller_name : String
  pub at : Time
  pub note : String
  pub recipient_id : String
  pub recipient_name : String
  pub submission : String
  pub input_text : String
  pub turn_id : String
  pub submitted_at : Time
  pub cap_rejected : Bool
  pub cap_candidate : Bool
  pub cap_failed_at : Time
  pub turn_failed : Bool
  pub rearms : ℕ
  pub auto : Bool

-- usageState, of which the windows, the notices and the automatic caps are left out
pub record UsageState : Type 0 where
  pub snoozes : String → Option Snooze
  pub recent : String → Option Snooze

-- the stages that an event tells of a wake, by the event's type
pub data Stage : Type 0 where
  snooze_completed snooze_failed snooze_cap_rejected snooze_cleared snooze_rearmed : Stage

pub record WakeEvent : Type 0 where
  pub stage : Stage
  pub at : Time
  pub hitch_id : String
  pub name : String
  pub id : String
  pub deadline : Time

-- what one change of the usage state works on: randomID and randomEnvelopeToken give the next pair of `draws`
pub record Desk : Type 0 where
  pub state : UsageState
  pub draws : List (String × String)
  pub events : List WakeEvent

-- Go's text functions and float64 comparisons
pub record Go : Type 0 where
  pub lower : String → String
  pub trim : String → String
  pub at_cap : Float64 → Bool  -- p >= 99
  pub is_percent : Float64 → Bool  -- not p < 0 and not p > 100
  pub above : Float64 → Float64 → Bool
  pub same : Float64 → Float64 → Bool

-- 5 minutes
abbrev pub five_minutes : ℕ
five_minutes = 300_000_000_000

-- time.Unix(seconds, 0)
abbrev pub unix : ℕ → Time
unix seconds = seconds * 1_000_000_000

-- t.Unix() < seconds
abbrev pub unix_before : Time → ℕ → Bool
unix_before t seconds = ltb t (unix seconds)

-- strings.Contains
unfoldable pub contains : String → String → Bool
contains String.[] phrase = is_empty phrase
contains (String.◌∷◌ c s) phrase =
    let rest = contains s phrase in starts_with (String.◌∷◌ c s) phrase || rest

unfoldable pub contains_any : String → List String → Bool
contains_any s [] = false
contains_any s (phrase ∷ phrases) = contains s phrase || contains_any s phrases

abbrev cap_phrases : List String
cap_phrases =
    "usage limit" ∷ "usage_limit" ∷ "five-hour limit" ∷ "5-hour limit" ∷ "weekly limit"
    ∷ "hit your limit" ∷ "reached your limit" ∷ []

abbrev rate_phrases : List String
rate_phrases = "rate limit" ∷ "rate_limit" ∷ "quota" ∷ []

-- what usageCapFailure finds in the reason of a failure
pub data CapFailure : Type 0 where
  explicit generic no_cap : CapFailure

abbrev pub is_generic : CapFailure → Bool
is_generic generic = true
is_generic _ = false

abbrev pub is_no_cap : CapFailure → Bool
is_no_cap no_cap = true
is_no_cap _ = false

-- UsageWindowKind gives "" for a window that is not known
abbrev five_hour_labels : List String
five_hour_labels = "five_hour" ∷ "current session" ∷ "5h limit" ∷ "5-hour" ∷ "5-hour limit" ∷ []

abbrev weekly_labels : List String
weekly_labels = "seven_day" ∷ "current week" ∷ "weekly" ∷ "weekly limit" ∷ "7d limit" ∷ []

is_one_of : String → List String → Bool
is_one_of s [] = false
is_one_of s (t ∷ texts) = s == t || is_one_of s texts

module _ (go : Go) where
  unfoldable pub usage_cap_failure : String → CapFailure
  usage_cap_failure reason =
      if contains_any (go.lower reason) cap_phrases
      then explicit
      else if contains_any (go.lower reason) rate_phrases
      then generic
      else no_cap

  label_kind : String → String
  unfolding is_one_of
  label_kind label =
      if is_one_of label five_hour_labels
      then "five_hour"
      else if is_one_of label weekly_labels
      then "weekly"
      else ""

  unfoldable pub usage_window_kind : String → ℕ → String
  unfolding label_kind
  usage_window_kind label minutes =
      if eqb minutes 300
      then "five_hour"
      else if eqb minutes 10_080
      then "weekly"
      else if eqb minutes 0
      then label_kind (go.lower (go.trim label))
      else ""

  abbrev pub is_known : LimitWindow → Bool
  is_known w = not (is_empty (usage_window_kind w.label w.window_minutes))

  abbrev earlier : Option Time → Time → Bool
  earlier none candidate = true
  earlier (some reset) candidate = ltb candidate reset

  -- the loop of cappedNativeReset
  unfoldable pub capped_from : Option Time → List LimitWindow → Time → Option Time
  capped_from reset [] now = reset
  capped_from reset (w ∷ limits) now =
      capped_from
        (if is_known w
            && go.at_cap w.used_percent
            && unix_before now w.reset_at
            && earlier reset (unix w.reset_at)
          then some (unix w.reset_at)
          else reset)
        limits now

  -- cappedNativeReset, where `none` is "not capped"
  unfoldable pub capped_native_reset : List LimitWindow → Time → Option Time
  capped_native_reset limits now = capped_from none limits now

  -- r.Status == "observed" and r.At is set, not after `now` and at most five minutes before
  abbrev pub is_recent : Reading → Option Time → Time → Bool
  is_recent r none now = false
  is_recent r (some at) now =
      r.status == "observed" && leb at now && not (ltb (at + five_minutes) now)

  abbrev pub is_after : Option Time → Time → Bool
  is_after none t = false
  is_after (some at) t = ltb t at

  unfoldable pub observed_capped_reset : Reading → Time → Time → Option Time
  observed_capped_reset r submitted_at now =
      if is_recent r r.at now && not (is_zero submitted_at) && is_after r.at submitted_at
      then capped_native_reset r.limits now
      else none

  abbrev fuller : Option LimitWindow → LimitWindow → Bool
  fuller none w = true
  fuller (some selected) w =
      go.above w.used_percent selected.used_percent
      || go.same w.used_percent selected.used_percent && ltb selected.reset_at w.reset_at

  -- the loop of snoozeReset
  unfoldable pub fullest_from : Option LimitWindow → List LimitWindow → Time → Option LimitWindow
  fullest_from selected [] now = selected
  fullest_from selected (w ∷ limits) now =
      fullest_from
        (if is_known w
            && unix_before now w.reset_at
            && go.is_percent w.used_percent
            && fuller selected w
          then some w
          else selected)
        limits now

  abbrev reset_of : Option LimitWindow → Option Time
  reset_of none = none
  reset_of (some w) = some (unix w.reset_at)

  -- snoozeReset, where `none` is its error
  unfoldable pub snooze_reset : List LimitWindow → Time → Option Time
  snooze_reset limits now = reset_of (fullest_from none limits now)

  abbrev or_else : Option Time → Option Time → Option Time
  or_else none t = t
  or_else (some reset) t = some reset

  unfoldable pub recent_native_reset : Reading → Time → Option Time
  recent_native_reset r now =
      if is_recent r r.at now
      then or_else (capped_native_reset r.limits now) (snooze_reset r.limits now)
      else none

-- state.Recent[key] and state.Snoozes[key], written or deleted
abbrev pub put_recent : String → Option Snooze → Desk → Desk
put_recent key o d = record d { state = record d.state { recent = update d.state.recent key o } }

abbrev pub put_snooze : String → Option Snooze → Desk → Desk
put_snooze key o d = record d { state = record d.state { snoozes = update d.state.snoozes key o } }

abbrev pub tell : WakeEvent → Desk → Desk
tell e d = record d { events = e ∷ d.events }

-- wakeEvent
abbrev pub wake_event : Stage → Snooze → Time → WakeEvent
wake_event stage s now = record {
  stage = stage;
  at = now;
  hitch_id = s.caller_id;
  name = s.caller_name;
  id = s.id;
  deadline = s.at;
}

-- current.ID of a missing wake is ""
abbrev pub id_of : Option Snooze → String
id_of none = ""
id_of (some s) = s.id

-- randomID and randomEnvelopeToken; where they fail, so does the change, and nothing of it is saved
abbrev pub draw :
    {A : Type 0}
    → List (String × String)
    → (String → String → List (String × String) → Option A)
    → Option A
draw [] f = none
draw ((id, token) ∷ draws) f = f id token draws

-- the change goes on unless it has failed
abbrev pub and_then : {A B : Type 0} → Option A → (A → Option B) → Option B
and_then none f = none
and_then (some a) f = f a
