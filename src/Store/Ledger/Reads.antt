-- ===== src/Store/Ledger/Reads.antt =====
-- store/team_idle.go: reading the ledger keeps what it counts, wherever it stops.
use gangline.Prelude.{
  ℕ, ◌+◌, String, ◌≡◌, inl, inr, refl, ap, Bool, true, false, ◌&&◌, ◌||◌, Option, none, some, List,
  [], ◌∷◌, ◌==◌, is_some, if◌then◌else◌, arith, Bool-cases,
}
use mathlib.Core.Path.{subst}
use gangline.Store.Segment.{segment}
use gangline.Core.Types.{Envelope}
use gangline.Store.Names.{check}
use gangline.Store.World.{
  not_exist, exist, fault, name_taken, envelope_queued, invalid, Result, ok, err, World, faulty,
  Inbox, IdlePublication, M, io, Post,
}
use gangline.Store.Save.Atomic.{Untouched}
use gangline.Store.Ledger.{Dir, files, loaded, read_file, read_envelope, probe, filed, directories}

-- An envelope of the identity lies in the inbox.
abbrev pub present : Inbox → String → Bool
present i id = is_some (i.new id) || is_some (i.cur id) || is_some (i.failed id)

-- what the pending publication adds to the count of `r`, once it is resolved
abbrev pub outstanding : (String → Inbox) → Option IdlePublication → String → ℕ
outstanding inboxes none r = 0
outstanding inboxes (some p) r =
    if (p.recipient == r) && present (inboxes p.recipient) p.id then 1 else 0

-- The publications to `r` that the ledger stands for: those counted, and one that is pending if its
-- envelope was linked.
unfoldable pub counted : World → String → ℕ
counted w r = w.idle.work r + outstanding w.inboxes w.idle.pending r

pub check-Untouched :
    (id : String) (w v : World)
    → Untouched w v
    → Post (λ _ u. Untouched w u) (Untouched w) (check id v)
unfolding check
check-Untouched id w v h = ground arith

-- Reading a file: what it says of the file, where it is there and where it is missing.
abbrev Probed : World → Option Envelope → Result Envelope × World → Type 0
Probed w o (ok e, v) = Untouched w v × (is_some o ≡ true)
Probed w o (err not_exist, v) = Untouched w v × (is_some o ≡ false)
Probed w o (err x, v) = Untouched w v

loaded-Probed :
    (o : Option Envelope) (id : String) (w v : World) → Untouched w v → Probed w o (loaded o id v)
loaded-Probed none id w v h = (h, refl)
loaded-Probed (some e) id w v h = ground arith

pub faulty-Untouched :
    (w v : World) (fs : List Bool) → Untouched w v → Untouched w (record v { faults = fs })
faulty-Untouched w v fs h = record {
  names = h.names;
  states = h.states;
  inboxes = h.inboxes;
  idle = h.idle;
}

read_file-Probed :
    (r : String) (d : Dir) (id : String) (w v : World)
    → Untouched w v
    → Probed w (files d (w.inboxes r) id) (read_file r d id v)
unfolding read_file io
read_file-Probed r d id w v h = go v.faults
  where
    o : Option Envelope
    o = files d (v.inboxes r) id

    same : o ≡ files d (w.inboxes r) id
    same = ap (λ f. files d (f r) id) h.inboxes

    go :
        (fs : List Bool)
        → Probed w
            (files d (w.inboxes r) id)
            (faulty fs (λ u. loaded (files d (u.inboxes r) id) id u) v)
    go [] = subst (λ x. Probed w x (loaded o id v)) same (loaded-Probed o id w v h)
    go (true ∷ fs) = faulty-Untouched w v fs h
    go (false ∷ fs) =
        subst (λ x. Probed w x (loaded o id (record v { faults = fs }))) same
          (loaded-Probed o id w (record v { faults = fs }) (faulty-Untouched w v fs h))

read_envelope-Probed :
    (r : String) (d : Dir) (id : String) (w v : World)
    → Untouched w v
    → Probed w (files d (w.inboxes r) id) (read_envelope r d id v)
unfolding read_envelope check
read_envelope-Probed r d id w v h = elim (Bool-cases (segment id)) [
  | inl valid ↦ rw valid (read_file-Probed r d id w v h)
  | inr other ↦ rw other h
]

pub any_file : List Dir → Inbox → String → Bool
any_file [] i id = false
any_file (d ∷ dirs) i id = is_some (files d i id) || any_file dirs i id

probe-Post :
    (w : World) (o : Option Envelope) (b : Bool) (r : Result Envelope × World) (rest : M Bool)
    → Probed w o r
    → ((v : World) → Untouched w v → Post (λ y u. Untouched w u × (y ≡ b)) (Untouched w) (rest v))
    → Post (λ y u. Untouched w u × (y ≡ (is_some o || b))) (Untouched w) (probe r rest)
probe-Post w o b (ok e, v) rest h k = (h.0, rw h.1 refl)
probe-Post w o b (err not_exist, v) rest h k = rw h.1 (k v h.0)
probe-Post w o b (err exist, v) rest h k = h
probe-Post w o b (err fault, v) rest h k = h
probe-Post w o b (err name_taken, v) rest h k = h
probe-Post w o b (err envelope_queued, v) rest h k = h
probe-Post w o b (err invalid, v) rest h k = h

pub filed-Post :
    (r id : String) (dirs : List Dir) (w v : World)
    → Untouched w v
    → Post
        (λ y u. Untouched w u × (y ≡ any_file dirs (w.inboxes r) id))
        (Untouched w)
        (filed r id dirs v)
unfolding filed any_file
filed-Post r id [] w v h = (h, refl)
filed-Post r id (d ∷ dirs) w v h =
    probe-Post w (files d (w.inboxes r) id) (any_file dirs (w.inboxes r) id) _ _
      (read_envelope-Probed r d id w v h) (λ u k. filed-Post r id dirs w u k)

pub any_file_lem : (i : Inbox) (id : String) → any_file directories i id ≡ present i id
unfolding any_file
any_file_lem i id = ground arith
