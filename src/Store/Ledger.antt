-- ===== src/Store/Ledger.antt =====
-- store/team_idle.go: the ledger of publications, which the work of a team is counted in.
-- `inboxes` holds the files of each agent's inbox by the envelope's identity, which is the file's
-- name without ".json". A missing idle.json reads as the empty state, so `idle` is always there.
-- The lock of the ledger is held throughout each function.
pub mod Keeps
pub mod Reads
use gangline.Prelude.{
  ℕ, ◌+◌, String, Bool, true, false, not, ◌||◌, Option, none, some, List, [], ◌∷◌, eqb, ◌==◌,
  is_some, if◌then◌else◌,
}
use gangline.Core.Types.{Envelope}
use gangline.Store.Names.{check}
use gangline.Store.World.{
  Error, not_exist, invalid, envelope_queued, Result, ok, err, World, Inbox, IdleState,
  IdlePublication, M, pure, raise, io, ◌>>=◌, ◌>>◌, update, continue,
}

-- the directories of an inbox; tmp/drop, which a sealed inbox is moved to, is left out
pub data Dir : Type 0 where
  new_dir cur_dir failed_dir : Dir

abbrev pub files : Dir → Inbox → String → Option Envelope
files new_dir i = i.new
files cur_dir i = i.cur
files failed_dir i = i.failed

-- readJSON of an envelope's file, and the test on its identity
abbrev pub loaded : Option Envelope → String → M Envelope
loaded none id = raise not_exist
loaded (some e) id = if e.id == id then pure e else raise invalid

unfoldable pub read_file : String → Dir → String → M Envelope
read_file recipient d id = io (λ w. loaded (files d (w.inboxes recipient) id) id w)

-- ReadEnvelope
unfoldable pub read_envelope : String → Dir → String → M Envelope
unfolding io
read_envelope recipient d id = do check id; read_file recipient d id

abbrev pub probe : Result Envelope × World → M Bool → Result Bool × World
probe (ok e, w) rest = (ok true, w)
probe (err not_exist, w) rest = rest w
probe (err x, w) rest = (err x, w)

-- the loop of `Read` over the directories
unfoldable pub filed : String → String → List Dir → M Bool
filed recipient id [] w = (ok false, w)
filed recipient id (d ∷ dirs) w =
    probe (read_envelope recipient d id w) (λ v. filed recipient id dirs v)

abbrev pub directories : List Dir
directories = new_dir ∷ cur_dir ∷ failed_dir ∷ []

-- ^uint64(0)
abbrev pub last_revision : ℕ
last_revision = 18_446_744_073_709_551_615

has_key : List String → String → Bool
has_key [] id = false
has_key (k ∷ keys) id = k == id || has_key keys id

drop_key : List String → String → List String
drop_key [] id = []
drop_key (k ∷ keys) id = let rest = drop_key keys id in if k == id then rest else k ∷ rest

-- s.Work[id]++
unfoldable pub bump : IdleState → String → IdleState
unfolding has_key
bump s id = record s {
  work = update s.work id (s.work id + 1);
  tracked = if has_key s.tracked id then s.tracked else id ∷ s.tracked;
}

-- delete(s.Work, id)
unfoldable pub forget : IdleState → String → IdleState
unfolding drop_key
forget s id = record s { work = update s.work id 0; tracked = drop_key s.tracked id }

unfoldable pub count_if : IdleState → String → Bool → M IdleState
count_if s recipient false = pure s
count_if s recipient true =
    if eqb (s.work recipient) last_revision then raise invalid else pure (bump s recipient)

-- LockedIdle.Save
unfoldable pub save_idle : IdleState → M (Unit {0})
unfolding io
save_idle s = io (λ w. (ok tt, record w { idle = s }))

unfoldable pub load_idle : M IdleState
unfolding io
load_idle = io (λ w. (ok w.idle, w))

abbrev pub no_pending : IdleState → IdleState
no_pending s = record s { pending = none }

unfoldable pub settle_pending : IdleState → Option IdlePublication → M IdleState
settle_pending s none = pure s
settle_pending s (some p) = do
  check p.recipient
  published ← filed p.recipient p.id directories
  t ← count_if s p.recipient published
  save_idle (no_pending t)
  pure (no_pending t)

-- os.Stat of an agent's state
unfoldable pub is_registered : String → M Bool
unfolding io
is_registered id = do check id; io (λ w. (ok (is_some (w.states id)), w))

pub record Pruned : Type 0 where
  pub state : IdleState
  pub pruned : Bool

-- the loop that drops the registrations that are gone
unfoldable pub prune_ids : List String → Pruned → M Pruned
prune_ids [] p = pure p
prune_ids (id ∷ ids) p = do
  there ← is_registered id
  prune_ids ids (if there then p else record { state = forget p.state id; pruned = true })

unfoldable pub finish_read : Pruned → M IdleState
finish_read p = if p.pruned then (do save_idle p.state; pure p.state) else pure p.state

-- LockedIdle.Read
unfoldable pub read_idle : M IdleState
read_idle w =
    (do
      s ← load_idle
      t ← settle_pending s s.pending
      p ← prune_ids t.tracked (record { state = t; pruned = false })
      finish_read p)
      w

-- os.Stat of an envelope in inbox/new, where an envelope means that it is queued
unfoldable pub check_free : String → String → M (Unit {0})
unfolding io
check_free recipient id =
    io (λ w. if is_some ((w.inboxes recipient).new id) then raise envelope_queued w else pure tt w)

-- prepareIdlePublication
unfoldable pub prepare_idle_publication : String → Envelope → M (Unit {0})
prepare_idle_publication recipient e = do
  s ← read_idle
  check e.id
  check_free recipient e.id
  save_idle (record s { pending = some (record { recipient = recipient; id = e.id }) })

-- resolveIdlePublication
unfoldable pub resolve_idle_publication : M (Unit {0})
resolve_idle_publication = do read_idle; pure tt
