-- ===== src/Store/Clear.antt =====
-- store/clear.go: the session starts, the admission of a clear and the permission request.
-- The functions run under the short writer lock of the status hooks. A function is refused, or it
-- gives the writes that it makes in their order; a stop leaves the effect of a first part of them.
pub mod Admitted
use gangline.Prelude.{
  ℕ, String, Bool, true, false, not, ◌&&◌, ◌||◌, Option, none, some, List, [], ◌∷◌, ltb, ◌==◌,
  if◌then◌else◌,
}
use gangline.Core.Types.{Agent, ClearRequest, Time, is_zero}
use gangline.Store.Hooks.{StatusHook}

pub record SessionStart : Type 0 where
  pub at : Time
  pub session_id : String
  pub transcript : String
  pub source : String
  pub registration : String
  pub clear_id : String

pub record ClearAdmission : Type 0 where
  pub id : String
  pub session_id : String

pub record PermissionWitness : Type 0 where
  pub at : Time
  pub session_id : String

-- files of the agent's directory, beside agent.json
pub record ClearFiles : Type 0 where
  pub start : Option SessionStart  -- session-start
  pub admission : Option ClearAdmission  -- clear-admission
  pub permission : Option PermissionWitness

pub data Write : Type 0 where
  write_start : SessionStart → Write
  write_admission : ClearAdmission → Write
  write_permission : PermissionWitness → Write
  remove_permission : Write

pub data Clearing : Type 0 where
  refused : Clearing  -- an error, and no write
  writes : List Write → Clearing

abbrev pub apply_write : Write → ClearFiles → ClearFiles
apply_write (write_start n) f = record f { start = some n }
apply_write (write_admission n) f = record f { admission = some n }
apply_write (write_permission n) f = record f { permission = some n }
apply_write remove_permission f = record f { permission = none }

-- ClearID of a session start that may be missing
abbrev pub clear_id_of : Option SessionStart → String
clear_id_of none = ""
clear_id_of (some n) = n.clear_id

-- the guards on a pending clear
start_conflicts : ClearRequest → Agent → Option SessionStart → SessionStart → Bool
start_conflicts pending a old n =
    (pending.status == "queued" || pending.status == "completed")
      && not (n.session_id == a.native.session_id)
      && not (n.source == "compact")
    || n.session_id == pending.previous_session && not (is_zero pending.started_at)
    || elim old [
      | none ↦ false
      | some o ↦
          not (pending.status == "completed")
          && o.clear_id == pending.envelope.id
          && not (o.session_id == n.session_id)
    ]

-- this start proves the clear
proves_clear : ClearRequest → SessionStart → Bool
proves_clear pending n =
    (pending.status == "submitted"
      || pending.status == "continuing"
      || pending.status == "unverified")
    && n.source == "clear"
    && not (n.session_id == pending.previous_session)
    && not (ltb n.at pending.started_at)

unfoldable pub start_writes : Option SessionStart → SessionStart → List Write
start_writes old n =
    if not (n.clear_id == "") && not (clear_id_of old == n.clear_id)
    then remove_permission ∷ write_start n ∷ []
    else write_start n ∷ []

unfoldable pub start_pending :
    Option ClearRequest → Agent → Option SessionStart → SessionStart → Clearing
unfolding start_conflicts proves_clear
start_pending none a old n = writes (start_writes old n)
start_pending (some pending) a old n =
    if start_conflicts pending a old n
    then refused
    else if proves_clear pending n
    then writes (start_writes old (record n { clear_id = pending.envelope.id }))
    else writes (start_writes old n)

-- WriteSessionStart
unfoldable pub write_session_start : Agent → ClearFiles → SessionStart → Clearing
write_session_start a f n =
    if n.registration == "" || not (n.registration == a.registration.generation)
    then refused
    else if n.session_id == "" || n.transcript == ""
    then refused
    else start_pending a.clear a f.start n

-- the guards of `AdmitClear` on the session start
unfoldable pub start_matches : ClearRequest → SessionStart → String → String → String → Bool
start_matches pending n id session registration = not (
    not (n.clear_id == id)
    || not (n.source == "clear")
    || not (n.registration == registration)
    || not (n.session_id == session)
    || session == ""
    || session == pending.previous_session
    || ltb n.at pending.started_at)

unfoldable pub admitted_before : Option ClearAdmission → String → Bool
admitted_before none id = id == ""
admitted_before (some old) id = old.id == id

unfoldable pub admit_start :
    ClearRequest → Option SessionStart → Option ClearAdmission → String → String → String → Clearing
unfolding admitted_before
admit_start pending none old id session registration = refused
admit_start pending (some n) old id session registration =
    if not (start_matches pending n id session registration)
    then refused
    else if admitted_before old id
    then refused
    else writes (write_admission (record { id = id; session_id = session }) ∷ [])

unfoldable pub admit_pending :
    Option ClearRequest → Agent → ClearFiles → String → String → String → Clearing
admit_pending none a f id session registration = refused
admit_pending (some pending) a f id session registration =
    if not (pending.envelope.id == id)
      || not (pending.status == "continuing")
      || not (a.registration.generation == registration)
    then refused
    else admit_start pending f.start f.admission id session registration

-- AdmitClear
unfoldable pub admit_clear : Agent → ClearFiles → String → String → String → Clearing
admit_clear a f id session registration = admit_pending a.clear a f id session registration

-- a display hook that `WriteDisplayHook` leaves out: it is of another session or of the retired one
stale_display : Option ClearRequest → Agent → Option SessionStart → StatusHook → String → Bool
stale_display none a start n observed = false
stale_display (some c) a none n observed =
    not (observed == a.native.session_id) && not (n.session_id == a.native.session_id)
stale_display (some c) a (some start) n observed =
    not (observed == a.native.session_id)
      && not (n.session_id == a.native.session_id)
      && not (start.clear_id == c.envelope.id && n.session_id == start.session_id)
    || start.clear_id == c.envelope.id && n.session_id == c.previous_session

-- WriteDisplayHook
unfoldable pub write_display_hook : Agent → ClearFiles → StatusHook → String → Clearing
unfolding stale_display
write_display_hook a f n observed =
    if stale_display a.clear a f.start n observed
    then writes []
    else if n.kind == "permission-requested"
    then writes (write_permission (record { at = n.at; session_id = n.session_id }) ∷ [])
    else writes (remove_permission ∷ [])
