-- ===== src/Store/Hooks.antt =====
-- store/hooks.go: the native status observations of an agent that await reconciliation.
-- The functions take the records of the file `status-hooks` and give those that replace them; the
-- short writer lock of the file holds throughout. `none` leaves the file as it is. The sequence, a uint64, is a natural
-- number: that it wraps at 2 ^ 64 is left out.
pub mod Pruned
pub mod Retained
use gangline.Prelude.{
  ℕ, ◌+◌, String, Bool, true, false, not, ◌&&◌, ◌||◌, Option, none, some, List, [], ◌∷◌, ◌++◌, ltb,
  eqb, ◌==◌, if◌then◌else◌, length,
}
use gangline.Core.Types.{Time}

pub record StatusHook : Type 0 where
  pub sequence : ℕ
  pub kind : String
  pub native_event : String
  pub at : Time
  pub session_id : String
  pub turn_id : String
  pub transcript : String
  pub failure : String

-- the `switch` on the kind
supported : String → Bool
supported kind =
    kind == "turn-started"
    || kind == "turn-finished"
    || kind == "turn-failed"
    || kind == "activity"
    || kind == "permission-requested"
    || kind == "compaction-started"
    || kind == "compaction-finished"

abbrev pub is_terminal : String → Bool
is_terminal kind = kind == "turn-finished" || kind == "turn-failed" || kind == "compaction-finished"

-- the largest sequence number in use
pub last_sequence : List StatusHook → ℕ → ℕ
last_sequence [] sequence = sequence
last_sequence (old ∷ records) sequence =
    last_sequence records (if ltb sequence old.sequence then old.sequence else sequence)

-- a record of the kind that is later than `n`
superseded : List StatusHook → StatusHook → Bool
superseded [] n = false
superseded (old ∷ records) n = old.kind == n.kind && ltb n.at old.at || superseded records n

-- a record that stays beside `n`: of another kind, or a boundary that is not acknowledged yet
abbrev pub stays : StatusHook → ℕ → StatusHook → Bool
stays n acknowledged old =
    not (old.kind == n.kind) || is_terminal n.kind && ltb acknowledged old.sequence

pub remaining : List StatusHook → StatusHook → ℕ → List StatusHook
remaining [] n acknowledged = []
remaining (old ∷ records) n acknowledged =
    let rest = remaining records n acknowledged in
    if stays n acknowledged old then old ∷ rest else rest

-- sort.Slice by sequence
insert_hook : StatusHook → List StatusHook → List StatusHook
insert_hook n [] = n ∷ []
insert_hook n (x ∷ xs) = if ltb n.sequence x.sequence then n ∷ x ∷ xs else x ∷ insert_hook n xs

sort_hooks : List StatusHook → List StatusHook
sort_hooks [] = []
sort_hooks (x ∷ xs) = insert_hook x (sort_hooks xs)

pub data Written : Type 0 where
  unsupported : Written  -- an error
  unchanged : Written
  written : List StatusHook → Written

-- `n` under the number that follows those of the records
abbrev pub numbered : List StatusHook → StatusHook → StatusHook
numbered records n = record n { sequence = last_sequence records 0 + 1 }

-- the rest of `WriteStatusHook`, where `acknowledged` is Native.HookSequence of the saved agent
replace_hooks : List StatusHook → ℕ → StatusHook → List StatusHook
replace_hooks records acknowledged n =
    sort_hooks (remaining records n acknowledged ++ numbered records n ∷ [])

unfoldable pub write_status_hook : List StatusHook → ℕ → StatusHook → Written
unfolding supported last_sequence superseded remaining insert_hook sort_hooks replace_hooks
write_status_hook records acknowledged n =
    if not (supported n.kind)
    then unsupported
    else if not (is_terminal n.kind) && superseded records n
    then unchanged
    else written (replace_hooks records acknowledged n)

-- latest[kind], the sequence of the last record of the kind
pub latest : List StatusHook → String → ℕ → ℕ
latest [] kind found = found
latest (n ∷ records) kind found = latest records kind (if n.kind == kind then n.sequence else found)

keep_hooks : List StatusHook → List StatusHook → ℕ → List StatusHook
keep_hooks [] all sequence = []
keep_hooks (n ∷ records) all sequence =
    let rest = keep_hooks records all sequence in
    if ltb sequence n.sequence || eqb (latest all n.kind 0) n.sequence then n ∷ rest else rest

-- `PruneStatusHooks`
unfoldable pub prune_status_hooks : List StatusHook → ℕ → Option (List StatusHook)
unfolding latest keep_hooks
prune_status_hooks records sequence =
    let kept = keep_hooks records records sequence in
    if eqb (length kept) (length records) then none else some kept
