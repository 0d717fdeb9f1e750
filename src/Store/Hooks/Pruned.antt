-- ===== src/Store/Hooks/Pruned.antt =====
-- store/hooks.go: what a pruning of the status observations keeps.
use gangline.Prelude.{
  ℕ, ◌≤◌, ◌<◌, ◌≡◌, ◌⊎◌, inl, inr, refl, Bool, true, ◌||◌, Option, none, some, List, [], ◌∷◌, ltb,
  eqb, ◌==◌, length, arith, All, Bool-cases, eq_iff, eq_refl, lt→ltb,
}
use gangline.Store.Hooks.{StatusHook, latest, keep_hooks, prune_status_hooks}
use gangline.Store.Hooks.Retained.{Holds, Rises}

-- The records of the file after a pruning.
abbrev pub records_after : List StatusHook → Option (List StatusHook) → List StatusHook
records_after records none = records
records_after records (some kept) = kept

-- No record of the kind of `h` has a number above that of `h`.
abbrev pub IsLatest : StatusHook → List StatusHook → Type 0
IsLatest h records = All (λ x. x.kind ≡ h.kind → x.sequence ≤ h.sequence) records

latest-none :
    (h x : StatusHook) (xs : List StatusHook) (found : ℕ)
    → h ≡ x
    → All (λ y. x.sequence < y.sequence) xs
    → IsLatest h xs
    → latest xs h.kind found ≡ found
unfolding latest
latest-none h x [] found e later is = refl
latest-none h x (y ∷ ys) found e later is = elim (Bool-cases (y.kind == h.kind)) [
  | inl same ↦
      let up : y.sequence ≤ h.sequence = is.0 ((eq_iff y.kind h.kind).0 same) in
      let number : h.sequence ≡ x.sequence = rw e refl in
      let never : ⊥ = omega (arith, up, number, later.0) in elim never [ ]
  | inr differs ↦ rw differs (latest-none h x ys found e later.1 is.1)
]

latest_lem :
    (h : StatusHook) (xs : List StatusHook) (found : ℕ)
    → Holds h xs
    → Rises xs
    → IsLatest h xs
    → latest xs h.kind found ≡ h.sequence
unfolding latest
latest_lem h [] found m rises is = elim m [ ]
latest_lem h (x ∷ xs) found (inl e) rises is =
    let same : (x.kind == h.kind) ≡ true = rw e (eq_refl x.kind) in
    let number : h.sequence ≡ x.sequence = rw e refl in
    rw same (rw number (latest-none h x xs x.sequence e rises.0 is.1))
latest_lem h (x ∷ xs) found (inr m) rises is = latest_lem h xs _ m rises.1 is.1

-- A record passes the test of `PruneStatusHooks`.
abbrev passes : List StatusHook → ℕ → StatusHook → Bool
passes all sequence h = ltb sequence h.sequence || eqb (latest all h.kind 0) h.sequence

Holds-keep_hooks :
    (h : StatusHook) (xs all : List StatusHook) (sequence : ℕ)
    → passes all sequence h ≡ true
    → Holds h xs
    → Holds h (keep_hooks xs all sequence)
unfolding keep_hooks
Holds-keep_hooks h [] all s p m = elim m [ ]
Holds-keep_hooks h (x ∷ xs) all s p (inl e) =
    let kept : passes all s x ≡ true = rw e at p in rw kept (inl e)
Holds-keep_hooks h (x ∷ xs) all s p (inr m) = elim (Bool-cases (passes all s x)) [
  | inl kept ↦ rw kept (inr (Holds-keep_hooks h xs all s p m))
  | inr gone ↦ rw gone (Holds-keep_hooks h xs all s p m)
]

-- A pruning keeps every record above the number it is given, and the latest record of each kind, of
-- records whose numbers rise.
pub prune_status_hooks-Holds :
    (records : List StatusHook) (sequence : ℕ) (h : StatusHook)
    → Rises records
    → Holds h records
    → (sequence < h.sequence) ⊎ IsLatest h records
    → Holds h (records_after records (prune_status_hooks records sequence))
unfolding prune_status_hooks
prune_status_hooks-Holds records s h rises m needed =
    let p : passes records s h ≡ true = elim needed [
      | inl above ↦ rw (lt→ltb _ _ above) refl
      | inr is ↦ rw (latest_lem h records 0 m rises is) (ground arith)
    ] in
    elim (Bool-cases (eqb (length (keep_hooks records records s)) (length records))) [
      | inl all ↦ rw all m
      | inr some_gone ↦ rw some_gone (Holds-keep_hooks h records records s p m)
    ]
