-- ===== src/Store/Inbox/Runs.antt =====
-- store/inbox.go: the ledger through any sequence of publications, withdrawals and results.
use gangline.Prelude.{ℕ, ◌+◌, String, Bool, List, ◌==◌, arith}
use gangline.Core.Types.{Agent, Envelope, Time}
use gangline.Store.World.{Result, ok, err, World, Post}
use gangline.Store.Ledger.Reads.{counted}
use gangline.Store.Ledger.Keeps.{one_if}
use gangline.Store.Inbox.{publish_new, withdraw, settle}
use gangline.Store.Inbox.Counts.{IsFresh, Counts, Counts-trans, publish_new-Counts}
use gangline.Store.Inbox.Steps.{Steps, Counts-Quiet, settle-Steps, withdraw-Steps}

-- An operation on the mail of a team, each with the calls that fail in it.
pub data Op : Type 0 where
  publishing : String → Envelope → Op
  withdrawing : String → String → Op
  settling : Agent → Envelope → String → String → Time → Op

abbrev quiet_of : {A : Type 0} → Result A × World → Result (Unit {0}) × World
quiet_of (ok a, w) = (ok tt, w)
quiet_of (err x, w) = (err x, w)

unfoldable pub perform : Op → World → Result (Unit {0}) × World
perform (publishing recipient e) w = publish_new recipient e w
perform (withdrawing recipient id) w = withdraw recipient id w
perform (settling a e outcome reason now) w = quiet_of (settle a e outcome reason now w)

-- the publications to `r` that the operation reports to its caller
unfoldable pub published : Op → String → Result (Unit {0}) × World → ℕ
published (publishing recipient e) r (ok x, w) = one_if (recipient == r)
published _ r _ = 0

-- An identity that is published is of no result.
abbrev pub IsNew : Op → World → Type 0
IsNew (publishing recipient e) w = IsFresh (w.inboxes recipient) e.id
IsNew _ w = Unit

-- The operations that lead from a state to another, and how many publications to `r` succeeded.
pub data Runs (r : String) : World → ℕ → World → Type 0 where
  rest : {w : World} → Runs r w 0 w
  next :
      (o : Op) (faults : List Bool) {w v : World} {n : ℕ}
      → IsNew o w
      → Runs r (perform o (record w { faults = faults })).1 n v
      → Runs r w (published o r (perform o (record w { faults = faults })) + n) v

Counts-refl : (r : String) (w : World) → Counts r 0 w w
Counts-refl r w = record { live = λ live. live; count = λ live. omega arith }

ended :
    {A : Type 0} (r : String) (w : World) (m : Result A × World) → Steps r w m → Counts r 0 w m.1
ended r w (ok x, u) k = Counts-Quiet r w u k
ended r w (err x, u) k = k

ended-quiet_of :
    {A : Type 0} (r : String) (w : World) (m : Result A × World)
    → Steps r w m
    → Counts r 0 w (quiet_of m).1
ended-quiet_of r w (ok x, u) k = Counts-Quiet r w u k
ended-quiet_of r w (err x, u) k = k

perform-Counts :
    (r : String) (o : Op) (w : World)
    → IsNew o w
    → Counts r (published o r (perform o w)) w (perform o w).1
unfolding perform published
perform-Counts r (publishing recipient e) w fresh =
    go (publish_new recipient e w) (publish_new-Counts r recipient e w fresh)
  where
    go :
        (m : Result (Unit {0}) × World)
        → Post (λ _ u. Counts r (one_if (recipient == r)) w u) (Counts r 0 w) m
        → Counts r (published (publishing recipient e) r m) w m.1
    go (ok x, u) k = k
    go (err x, u) k = k
perform-Counts r (withdrawing recipient id) w fresh =
    ended r w (withdraw recipient id w) (withdraw-Steps r w recipient id w (Counts-refl r w))
perform-Counts r (settling a e outcome reason now) w fresh =
    ended-quiet_of r w (settle a e outcome reason now w)
      (settle-Steps r w a e outcome reason now w (Counts-refl r w))

Counts-faults :
    (r : String) (n : ℕ) (w v : World) (gs : List Bool)
    → Counts r n (record w { faults = gs }) v
    → Counts r n w v
unfolding counted
Counts-faults r n w v gs h = record { live = h.live; count = h.count }

still-IsNew : (o : Op) (w : World) (gs : List Bool) → IsNew o w → IsNew o (record w { faults = gs })
still-IsNew (publishing recipient e) w gs h = h
still-IsNew (withdrawing recipient id) w gs h = h
still-IsNew (settling a e outcome reason now) w gs h = h

-- The ledger refines a plain counter: through any publications, withdrawals and results, each of
-- which may stop at any of its calls, it stands for one publication to `r` more for each that was
-- reported to its caller as published, as long as `r` is registered and each published identity is
-- of no result.
pub Runs-Counts : (r : String) (w v : World) (n : ℕ) → Runs r w n v → Counts r n w v
Runs-Counts r w v n rest = Counts-refl r w
Runs-Counts r w v _ (next o gs {n = n} new more) =
    let u = record w { faults = gs } in
    Counts-faults r _ w v gs (
      Counts-trans r (published o r (perform o u)) n u (perform o u).1 v
        (perform-Counts r o u (still-IsNew o w gs new)) (Runs-Counts r (perform o u).1 v n more))
