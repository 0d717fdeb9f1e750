-- ===== src/Tests/InboxRuns.antt =====
-- store/inbox.go: its properties at concrete inputs.
use gangline.Prelude.{refl, []}
use gangline.Store.World.{World}
use gangline.Store.Segment.{segment}
use gangline.Store.Names.{check}
use gangline.Store.Ledger.{
  check_free, prepare_idle_publication, read_idle, load_idle, settle_pending, prune_ids,
  finish_read, save_idle,
}
use gangline.Store.Inbox.{json_temp, link_envelope, publish_new}
use gangline.Store.Inbox.Counts.{Counts}
use gangline.Store.Inbox.Runs.{
  Op, publishing, settling, perform, published, rest, next, Runs-Counts,
}
use gangline.Tests.Samples.{agent, team, letter}

abbrev sending : Op
sending = publishing "h1" letter

-- the envelope is filed, but the call that saves the agent fails
abbrev delivered : Op
delivered = settling agent letter "delivered" "" 7

abbrev sent : World
sent = (perform sending (team [])).1

abbrev filed : World
filed = (perform delivered (record sent { faults = [] })).1

Runs-Counts_example : Counts "h1" 1 (team []) filed
unfolding perform published publish_new check segment json_temp check_free prepare_idle_publication
    read_idle load_idle settle_pending prune_ids finish_read save_idle link_envelope
Runs-Counts_example =
    Runs-Counts "h1" (team []) filed 1 (next sending [] refl (next delivered [] tt rest))
