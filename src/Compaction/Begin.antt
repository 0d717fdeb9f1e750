-- ===== src/Compaction/Begin.antt =====
-- cmd/gang/messages.go: what `startCompaction` leaves, as what it leaves once the compact command is to be typed.
use gangline.Prelude.{ℕ, ◌+◌, String, refl, Bool, Option, none, some, if◌then◌else◌, by_test}
use gangline.Core.Types.{Agent, Compaction}
use gangline.Compaction.{Phase, Seen, Desk, M, ◌>>◌, holding, assign, save}
use gangline.Compaction.Terminal.{Terminal, look_at}
use gangline.Compaction.Start.{
  begun, type_command, if_free, waits_for, wait_or_type, looked, look, begin_idle, begin,
  start_compaction,
}
use gangline.Compaction.Rules.{
  keeping, Rule, Keeps, then_leaves, then-Keeps, call-Keeps, pure-Keeps, raise-Keeps,
  map_compaction-Keeps,
}
use gangline.Compaction.Drafts.{look_at-Keeps}

module _ (Sees : Seen → Type 0) (Tells : Phase → Type 0) (I L : Desk → Type 0)
    (rule : Rule Sees Tells I) (t : Terminal) (weaken : (d : Desk) → I d → L d) where
  abbrev Leaves : M Unit → Type 0
  Leaves m = (d : Desk) → I d → L (m d).1

  Keeps-Leaves : (m : M Unit) → Keeps I m → Leaves m
  Keeps-Leaves m h d i = weaken (m d).1 (h d i)

  if-Leaves : (b : Bool) (m n : M Unit) → Leaves m → Leaves n → Leaves (if b then m else n)
  if-Leaves b m n h k = by_test (λ x. Leaves x) b m n (λ _. h) (λ _. k)

  then-Leaves : (m n : M Unit) → Keeps I m → Leaves n → Leaves (m >> n)
  then-Leaves m n h k = then_leaves Sees Tells I rule L m n weaken h k

  pub begun-Keeps : (refusals : ℕ) → Keeps I (assign (begun t refusals))
  begun-Keeps refusals =
      map_compaction-Keeps Sees Tells I rule
        (λ c. record c {
          refusal_before = refusals;
          started_at = t.now;
          deadline = t.now + 30_000_000_000;
        })
        (λ c. refl)

  -- The start leaves `L` if all that it does after the event that the compact command is to be typed does.
  module _ (types : (id : String) (refusals : Option ℕ) → Leaves (type_command t id refusals)) where
    if_free-Leaves : (id : String) (free : Option Bool) → Leaves (if_free t id free)
    if_free-Leaves id none = search (keeping)
    if_free-Leaves id (some free) = search (if-Leaves, types, Keeps-Leaves, keeping)

    waits_for-Keeps : (c : Compaction) (reason : String) → Keeps I (waits_for t c reason)
    waits_for-Keeps c reason = search keeping

    wait_or_type-Leaves : (c : Compaction) (wait : String) → Leaves (wait_or_type t c wait)
    wait_or_type-Leaves c wait =
        search (then-Leaves, if-Leaves, if_free-Leaves, waits_for-Keeps, Keeps-Leaves)

    looked-Leaves : (idle : Bool) (o : Option Compaction) (a : Agent) → Leaves (looked t idle o a)
    looked-Leaves idle none a = search (keeping)
    looked-Leaves idle (some c) a = search (if-Leaves, wait_or_type-Leaves, Keeps-Leaves) depth 8

    look-Leaves : (o : Option (Agent × Bool)) → Leaves (look t o)
    unfolding holding
    look-Leaves none = search (keeping)
    look-Leaves (some (b, idle)) =
        then-Leaves (assign (look_at b) >> save) _ (search (keeping, look_at-Keeps))
          (λ d i. looked-Leaves idle d.held.compaction d.held d i)

    begin_idle-Leaves : (c : Compaction) (a : Agent) (o : Option Bool) → Leaves (begin_idle t c a o)
    begin_idle-Leaves c a none = search (keeping)
    begin_idle-Leaves c a (some failed) =
        search
          (
            if-Leaves, look-Leaves, Keeps-Leaves, waits_for-Keeps, then-Keeps, call-Keeps,
            raise-Keeps, pure-Keeps,
          )
          depth 8

    begin-Leaves : (o : Option Compaction) (a : Agent) → Leaves (begin t o a)
    begin-Leaves none a = search (keeping)
    begin-Leaves (some c) a = search (if-Leaves, begin_idle-Leaves, Keeps-Leaves)

    pub start_compaction-Leaves : Leaves (start_compaction t)
    unfolding start_compaction holding
    start_compaction-Leaves d i = begin-Leaves d.held.compaction d.held d i
