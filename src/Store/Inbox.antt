-- ===== src/Store/Inbox.antt =====
-- store/inbox.go: the mail of an agent, and the results that it is filed under.
-- An agent's files are found by its identity. jsonTemp writes a temporary file and is one call; its
-- removal afterwards, whose error is ignored, leaves nothing. A rename within an inbox is one call.
pub mod Counts
pub mod Runs
pub mod Steps
use gangline.Prelude.{
  ℕ, String, Bool, true, false, not, ◌&&◌, ◌||◌, Option, none, some, List, [], ◌∷◌, ◌==◌, is_empty,
  is_some, if◌then◌else◌,
}
use gangline.Core.Types.{Agent, Envelope, Time, ResultRef}
use gangline.Store.Names.{check}
use gangline.Store.Save.{save}
use gangline.Store.World.{
  Error, not_exist, invalid, envelope_queued, Result, ok, err, World, Inbox, M, pure, raise, io,
  catch, ◌>>=◌, ◌>>◌, update, continue,
}
use gangline.Store.Ledger.{
  Dir, new_dir, cur_dir, failed_dir, files, check_free, prepare_idle_publication,
  resolve_idle_publication,
}

-- a file of a directory, written or removed
unfoldable pub set_file : Dir → String → Option Envelope → Inbox → Inbox
set_file new_dir id o i = record i { new = update i.new id o }
set_file cur_dir id o i = record i { cur = update i.cur id o }
set_file failed_dir id o i = record i { failed = update i.failed id o }

unfoldable pub set_inbox : String → (Inbox → Inbox) → World → World
set_inbox recipient f w = record w {
  inboxes = update w.inboxes recipient (f (w.inboxes recipient));
}

-- jsonTemp
unfoldable pub json_temp : M (Unit {0})
unfolding io
json_temp = io (pure tt)

-- os.Link of the temporary file
unfoldable pub link_envelope : String → Envelope → M (Unit {0})
unfolding io
link_envelope recipient e = io (λ w.
    if is_some ((w.inboxes recipient).new e.id)
    then raise envelope_queued w
    else pure tt (set_inbox recipient (set_file new_dir e.id (some e)) w))

-- PublishNew
unfoldable pub publish_new : String → Envelope → M (Unit {0})
publish_new recipient e = do
  check e.id
  json_temp
  check_free recipient e.id
  prepare_idle_publication recipient e
  link_envelope recipient e

-- the write by a rename over what is there
unfoldable pub write_envelope : String → Dir → Envelope → M (Unit {0})
unfolding io
write_envelope recipient d e = io (λ w. pure tt (set_inbox recipient (set_file d e.id (some e)) w))

-- Publish
unfoldable pub publish : String → Envelope → M (Unit {0})
publish recipient e = do check e.id; json_temp; write_envelope recipient new_dir e

-- os.Remove
unfoldable pub remove_envelope : String → Dir → String → M (Unit {0})
unfolding io
remove_envelope recipient d id = io (λ w.
    if is_some (files d (w.inboxes recipient) id)
    then pure tt (set_inbox recipient (set_file d id none) w)
    else raise not_exist w)

-- Withdraw
unfoldable pub withdraw : String → String → M (Unit {0})
withdraw recipient id = do resolve_idle_publication; check id; remove_envelope recipient new_dir id

abbrev pub present_ok : Error → M (Unit {0})
present_ok not_exist = pure tt
present_ok x = raise x

-- a directory by its name, which EnvelopePath tests
abbrev pub dir_of : String → Option Dir
dir_of name =
    if name == "new"
    then some new_dir
    else if name == "cur"
    then some cur_dir
    else if name == "failed"
    then some failed_dir
    else none

unfoldable pub remove_cleanup : String → Option Dir → String → M (Unit {0})
remove_cleanup recipient none id w = (err invalid, w)
remove_cleanup recipient (some d) id w = catch (remove_envelope recipient d id w) present_ok

abbrev pub cleaned : Agent → Agent
cleaned a = record a { cleanup = none }

unfoldable pub clean_ref : Option ResultRef → Agent → Time → M Agent
clean_ref none a now = pure a
clean_ref (some ref) a now = do
  resolve_idle_publication
  check ref.id
  remove_cleanup a.id (dir_of ref.directory) ref.id
  save a.id (cleaned a) now
  pure (cleaned a)

-- CleanResult, which returns the agent in memory
unfoldable pub clean_result : Agent → Time → M Agent
clean_result a now = clean_ref a.cleanup a now

abbrev pub with_result : Envelope → String → String → Envelope
with_result e outcome reason = record e {
  outcome = outcome;
  reason = reason;
  witnessed = if outcome == "unverified" then e.witnessed else "";
}

unfoldable pub move_envelope : String → Dir → Option Envelope → String → M (Unit {0})
move_envelope recipient d none id w = (err not_exist, w)
move_envelope recipient d (some e) id w =
    (ok tt, set_inbox recipient (λ i. set_file d id (some e) (set_file new_dir id none i)) w)

-- os.Rename from inbox/new
unfoldable pub rename_envelope : String → Dir → String → M (Unit {0})
unfolding io
rename_envelope recipient d id =
    io (λ w. move_envelope recipient d ((w.inboxes recipient).new id) id w)

-- fileResult
unfoldable pub file_result : String → Envelope → Dir → String → String → M (Unit {0})
file_result recipient e d outcome reason = do
  check e.id
  write_envelope recipient new_dir (with_result e outcome reason)
  rename_envelope recipient d e.id

-- FileFailure
unfoldable pub file_failure : String → Envelope → String → String → M (Unit {0})
file_failure recipient e outcome reason = file_result recipient e failed_dir outcome reason

abbrev pub result_dir : String → Dir
result_dir outcome = if outcome == "delivered" || outcome == "accepted" then cur_dir else failed_dir

abbrev dir_name : String → String
dir_name outcome = if outcome == "delivered" || outcome == "accepted" then "cur" else "failed"

abbrev previous_result : Agent → String → String
previous_result a outcome =
    if outcome == "delivered"
    then a.last_delivered
    else if outcome == "accepted"
    then a.last_accepted
    else a.last_failed

-- the receipt that the agent keeps, and the one it gives up
unfoldable pub receipted : Agent → Envelope → String → Agent
receipted a e outcome =
    let previous = previous_result a outcome in
    let b =
      if not (is_empty previous) && not (previous == e.id)
      then record a { cleanup = some (record { id = previous; directory = dir_name outcome }) }
      else a in
    if outcome == "accepted"
    then record b { last_accepted = e.id }
    else if outcome == "delivered"
    then record b { last_delivered = e.id }
    else record b { last_failed = e.id }

-- Settle, which returns the agent in memory
unfoldable pub settle : Agent → Envelope → String → String → Time → M Agent
settle a e outcome reason now = do
  resolve_idle_publication
  b ← clean_result a now
  file_result a.id e (result_dir outcome) outcome reason
  save a.id (receipted b e outcome) now
  clean_result (receipted b e outcome) now
