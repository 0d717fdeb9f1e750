-- ===== src/Store/Hooks/Retained.antt =====
-- store/hooks.go: what a write and a pruning keep, and the order of the records.
use gangline.Prelude.{
  ℕ, ◌≤◌, ◌<◌, ◌≡◌, ◌≢◌, ◌⊎◌, inl, inr, refl, true, not, ◌&&◌, List, [], ◌∷◌, ◌++◌, ltb, ◌==◌,
  if◌then◌else◌, arith, All, All-append, Bool-cases, eq_iff, lt→ltb,
}
use gangline.Store.Hooks.{
  StatusHook, is_terminal, stays, last_sequence, numbered, superseded, remaining, insert_hook,
  sort_hooks, replace_hooks, Written, written, unchanged, unsupported, write_status_hook, supported,
}

-- The list holds the record.
abbrev pub Holds : StatusHook → List StatusHook → Type 0
Holds h [] = ⊥
Holds h (x ∷ xs) = (h ≡ x) ⊎ Holds h xs

-- The sequence numbers rise strictly along the list.
abbrev pub Rises : List StatusHook → Type 0
Rises [] = Unit
Rises (x ∷ xs) = All (λ y. x.sequence < y.sequence) xs × Rises xs

Holds-append_left : (h : StatusHook) (xs ys : List StatusHook) → Holds h xs → Holds h (xs ++ ys)
Holds-append_left h [] ys m = elim m [ ]
Holds-append_left h (x ∷ xs) ys (inl e) = inl e
Holds-append_left h (x ∷ xs) ys (inr k) = inr (Holds-append_left h xs ys k)

Holds-append_last : (h : StatusHook) (xs : List StatusHook) → Holds h (xs ++ h ∷ [])
Holds-append_last h [] = inl refl
Holds-append_last h (x ∷ xs) = inr (Holds-append_last h xs)

Holds-remaining :
    (h n : StatusHook) (acknowledged : ℕ) (records : List StatusHook)
    → stays n acknowledged h ≡ true
    → Holds h records
    → Holds h (remaining records n acknowledged)
unfolding remaining
Holds-remaining h n k [] s m = elim m [ ]
Holds-remaining h n k (x ∷ xs) s (inl e) =
    let kept : stays n k x ≡ true = rw e at s in rw kept (inl e)
Holds-remaining h n k (x ∷ xs) s (inr m) = elim (Bool-cases (stays n k x)) [
  | inl kept ↦ rw kept (inr (Holds-remaining h n k xs s m))
  | inr gone ↦ rw gone (Holds-remaining h n k xs s m)
]

Holds-insert_hook_self : (h : StatusHook) (xs : List StatusHook) → Holds h (insert_hook h xs)
unfolding insert_hook
Holds-insert_hook_self h [] = inl refl
Holds-insert_hook_self h (x ∷ xs) = elim (Bool-cases (ltb h.sequence x.sequence)) [
  | inl first ↦ rw first (inl refl)
  | inr after ↦ rw after (inr (Holds-insert_hook_self h xs))
]

Holds-insert_hook :
    (h n : StatusHook) (xs : List StatusHook) → Holds h xs → Holds h (insert_hook n xs)
unfolding insert_hook
Holds-insert_hook h n [] m = elim m [ ]
Holds-insert_hook h n (x ∷ xs) m = elim (Bool-cases (ltb n.sequence x.sequence)) [
  | inl first ↦ rw first (inr m)
  | inr after ↦ rw after (elim m [ inl e ↦ inl e | inr k ↦ inr (Holds-insert_hook h n xs k) ])
]

Holds-sort_hooks : (h : StatusHook) (xs : List StatusHook) → Holds h xs → Holds h (sort_hooks xs)
unfolding sort_hooks
Holds-sort_hooks h [] m = elim m [ ]
Holds-sort_hooks h (x ∷ xs) (inl e) = rw e (Holds-insert_hook_self x (sort_hooks xs))
Holds-sort_hooks h (x ∷ xs) (inr m) =
    Holds-insert_hook h x (sort_hooks xs) (Holds-sort_hooks h xs m)

-- A list that replaces the records, if one does, satisfies the predicate.
abbrev pub Replaced : (List StatusHook → Type 0) → Written → Type 0
Replaced P (written rs) = P rs
Replaced P unchanged = Unit
Replaced P unsupported = Unit

-- The list of a write satisfies what the list that `replace_hooks` makes satisfies.
Replaced-write_status_hook :
    (P : List StatusHook → Type 0) (records : List StatusHook) (acknowledged : ℕ) (n : StatusHook)
    → P (replace_hooks records acknowledged n)
    → Replaced P (write_status_hook records acknowledged n)
unfolding write_status_hook
Replaced-write_status_hook P records k n p = elim (Bool-cases (supported n.kind)) [
  | inr unknown ↦ rw unknown tt
  | inl known ↦ rw known (elim (Bool-cases (not (is_terminal n.kind) && superseded records n)) [
    | inl old ↦ rw old tt
    | inr new ↦ rw new p
  ])
]

-- A record stays if its kind is another or if it is a boundary that is not acknowledged.
abbrev pub IsNeeded : StatusHook → StatusHook → ℕ → Type 0
IsNeeded h n acknowledged =
    (h.kind ≢ n.kind) ⊎ ((is_terminal n.kind ≡ true) × acknowledged < h.sequence)

stays-IsNeeded :
    (h n : StatusHook) (acknowledged : ℕ)
    → IsNeeded h n acknowledged
    → stays n acknowledged h ≡ true
stays-IsNeeded h n k (inl other) = elim (Bool-cases (h.kind == n.kind)) [
  | inl same ↦ elim (other ((eq_iff h.kind n.kind).0 same)) [ ]
  | inr differs ↦ rw differs refl
]
stays-IsNeeded h n k (inr (terminal, later)) = elim (Bool-cases (h.kind == n.kind)) [
  | inl same ↦ rw same (rw terminal (lt→ltb _ _ later))
  | inr differs ↦ rw differs refl
]

-- A write that replaces the records keeps each record of another kind, and each record of its own
-- kind, a boundary, that the saved agent has not acknowledged.
pub write_status_hook-Holds :
    (records : List StatusHook) (acknowledged : ℕ) (n h : StatusHook)
    → Holds h records
    → IsNeeded h n acknowledged
    → Replaced (Holds h) (write_status_hook records acknowledged n)
unfolding replace_hooks
write_status_hook-Holds records k n h m needed = Replaced-write_status_hook (Holds h) records k n (
    Holds-sort_hooks h _
      (Holds-append_left h _ _ (Holds-remaining h n k records (stays-IsNeeded h n k needed) m)))

-- Every record has a number up to the bound.
abbrev pub UpTo : ℕ → List StatusHook → Type 0
UpTo b records = All (λ x. x.sequence ≤ b) records

last_sequence-le : (records : List StatusHook) (s : ℕ) → s ≤ last_sequence records s
unfolding last_sequence
last_sequence-le [] s = omega arith
last_sequence-le (x ∷ xs) s =
    let later = if ltb s x.sequence then x.sequence else s in
    let above : s ≤ later = ground arith in omega (arith, above, last_sequence-le xs later)

UpTo-bound : (records : List StatusHook) (s b : ℕ) → last_sequence records s ≤ b → UpTo b records
unfolding last_sequence
UpTo-bound [] s b bound = tt
UpTo-bound (x ∷ xs) s b bound =
    let later = if ltb s x.sequence then x.sequence else s in
    let above : x.sequence ≤ later = ground arith in
    (omega (arith, above, bound, last_sequence-le xs later), UpTo-bound xs later b bound)

UpTo-last_sequence : (records : List StatusHook) → UpTo (last_sequence records 0) records
UpTo-last_sequence records = UpTo-bound records 0 _ (omega arith)

-- `remaining` keeps what holds of every record.
All-remaining :
    (P : StatusHook → Type 0) (n : StatusHook) (acknowledged : ℕ) (records : List StatusHook)
    → All P records
    → All P (remaining records n acknowledged)
unfolding remaining
All-remaining P n k [] all = tt
All-remaining P n k (x ∷ xs) all = elim (Bool-cases (stays n k x)) [
  | inl kept ↦ rw kept (all.0, All-remaining P n k xs all.1)
  | inr gone ↦ rw gone (All-remaining P n k xs all.1)
]

Rises-remaining :
    (n : StatusHook) (acknowledged : ℕ) (records : List StatusHook)
    → Rises records
    → Rises (remaining records n acknowledged)
unfolding remaining
Rises-remaining n k [] rises = tt
Rises-remaining n k (x ∷ xs) rises = elim (Bool-cases (stays n k x)) [
  | inl kept ↦ rw kept (All-remaining _ n k xs rises.0, Rises-remaining n k xs rises.1)
  | inr gone ↦ rw gone (Rises-remaining n k xs rises.1)
]

Rises-append_last :
    (xs : List StatusHook) (n : StatusHook) (b : ℕ)
    → UpTo b xs
    → b < n.sequence
    → Rises xs
    → Rises (xs ++ n ∷ [])
Rises-append_last [] n b up above rises = (tt, tt)
Rises-append_last (x ∷ xs) n b up above rises = (
  All-append _ xs (n ∷ []) rises.0 (omega (arith, up.0, above), tt),
  Rises-append_last xs n b up.1 above rises.1,
)

-- A rising list is sorted already.
insert_hook-first :
    (x : StatusHook) (xs : List StatusHook)
    → All (λ y. x.sequence < y.sequence) xs
    → insert_hook x xs ≡ x ∷ xs
unfolding insert_hook
insert_hook-first x [] all = refl
insert_hook-first x (y ∷ ys) all = rw (lt→ltb _ _ all.0) refl

sort_hooks-Rises : (xs : List StatusHook) → Rises xs → sort_hooks xs ≡ xs
unfolding sort_hooks
sort_hooks-Rises [] rises = refl
sort_hooks-Rises (x ∷ xs) rises = rw (sort_hooks-Rises xs rises.1) (insert_hook-first x xs rises.0)

-- A write that replaces records whose numbers rise puts the new one behind the rest, under a number
-- above all of them, and the numbers rise again.
pub write_status_hook-Rises :
    (records : List StatusHook) (acknowledged : ℕ) (n : StatusHook)
    → Rises records
    → Replaced
        (λ rs. Rises rs × (rs ≡ remaining records n acknowledged ++ numbered records n ∷ []))
        (write_status_hook records acknowledged n)
unfolding replace_hooks
write_status_hook-Rises records k n rises =
    let up = All-remaining _ n k records (UpTo-last_sequence records) in
    let all : Rises (remaining records n k ++ numbered records n ∷ []) =
      Rises-append_last _ (numbered records n) _ up (omega arith)
        (Rises-remaining n k records rises) in
    Replaced-write_status_hook _ records k n (rw (sort_hooks-Rises _ all) (all, refl))
