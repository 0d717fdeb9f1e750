-- ===== src/Store/NativePending/Proofs.antt =====
-- store/native_pending.go: the proofs that native writes were received.
use gangline.Prelude.{
  ℕ, zero, suc, ◌≤◌, ◌≡◌, ◌⊎◌, inl, inr, true, false, Option, none, some, List, [], ◌∷◌, arith, All,
  Bool-cases, is_some, String, ◌==◌, ◌||◌, eq_iff,
}
use gangline.Store.NativePending.{
  Witness, NativePending, unmatched, witness_native_pending, retire_entries, retire_native_pending,
}

-- The entry is among the files.
abbrev pub Kept : NativePending → List NativePending → Type 0
Kept n [] = ⊥
Kept n (m ∷ pending) = (n ≡ m) ⊎ Kept n pending

witness_native_pending-Kept :
    (session : String) (w : Witness) (pending : List NativePending) (kept : ℕ) (n : NativePending)
    → is_some n.witness ≡ true
    → Kept n pending
    → Kept n (witness_native_pending session w pending kept)
unfolding witness_native_pending unmatched
witness_native_pending-Kept session w [] kept n h k = elim k [ ]
witness_native_pending-Kept session w (m ∷ pending) zero n h k = k
witness_native_pending-Kept session w (m ∷ pending) (suc kept) n h (inl e) =
    let proved : is_some m.witness ≡ true = rw e at h in rw proved (inl e)
witness_native_pending-Kept session w (m ∷ pending) (suc kept) n h (inr k) =
    elim (Bool-cases (unmatched session w m)) [
      | inl other ↦ rw other (inr (witness_native_pending-Kept session w pending (suc kept) n h k))
      | inr matched ↦ rw matched (inr (witness_native_pending-Kept session w pending kept n h k))
    ]

retire_entries-Kept :
    (session : String) (pending : List NativePending) (kept : ℕ) (n : NativePending)
    → is_some n.witness ≡ true
    → Kept n pending
    → Kept n (retire_entries session pending kept)
unfolding retire_entries
retire_entries-Kept session [] kept n h k = elim k [ ]
retire_entries-Kept session (m ∷ pending) zero n h k = k
retire_entries-Kept session (m ∷ pending) (suc kept) n h (inl e) =
    let proved : is_some m.witness ≡ true = rw e at h in
    elim (Bool-cases (m.session_id == session)) [
      | inl same ↦ rw same (inl e)
      | inr other ↦ rw other (rw proved (inl e))
    ]
retire_entries-Kept session (m ∷ pending) (suc kept) n h (inr k) =
    elim (Bool-cases (m.session_id == session || is_some m.witness)) [
      | inl stays ↦ rw stays (inr (retire_entries-Kept session pending (suc kept) n h k))
      | inr goes ↦ rw goes (retire_entries-Kept session pending kept n h k)
    ]

-- A submit hook, or the retirement of what is not of a session; each stops after some writes.
pub data Pass : Type 0 where
  witnessing : String → Witness → ℕ → Pass
  retiring : String → ℕ → Pass

unfoldable pub passes : List Pass → List NativePending → List NativePending
passes [] pending = pending
passes (witnessing session w kept ∷ ps) pending =
    passes ps (witness_native_pending session w pending kept)
passes (retiring session kept ∷ ps) pending = passes ps (retire_native_pending session pending kept)

-- An entry with a proof outlives any submit hooks and retirements, with the same proof, wherever
-- they stop.
pub passes-Kept :
    (ps : List Pass) (pending : List NativePending) (n : NativePending)
    → is_some n.witness ≡ true
    → Kept n pending
    → Kept n (passes ps pending)
unfolding passes retire_native_pending
passes-Kept [] pending n h k = k
passes-Kept (witnessing session w kept ∷ ps) pending n h k =
    passes-Kept ps _ n h (witness_native_pending-Kept session w pending kept n h k)
passes-Kept (retiring session kept ∷ ps) pending n h k =
    passes-Kept ps (retire_native_pending session pending kept) n h
      (elim (Bool-cases (session == "")) [
        | inl nowhere ↦ rw nowhere k
        | inr some_session ↦ rw some_session (retire_entries-Kept session pending kept n h k)
      ])

-- A recorded proof is of the session and the prompt that were written, and no older than the envelope.
abbrev pub Matches : NativePending → Option Witness → Type 0
Matches n none = Unit
Matches n (some w) =
    (w.session_id ≡ n.session_id) × ((w.prompt ≡ n.prompt) × (n.envelope.created_at ≤ w.at))

abbrev pub IsProved : NativePending → Type 0
IsProved n = Matches n n.witness

matched_lem :
    (session : String) (w : Witness) (n : NativePending)
    → unmatched session w n ≡ false
    → Matches n (some w)
unfolding unmatched
matched_lem session w n h =
    let same : (w.session_id == n.session_id) ≡ true = ground arith in
    let text : (w.prompt == n.prompt) ≡ true = ground arith in
    ((eq_iff w.session_id n.session_id).0 same, ((eq_iff w.prompt n.prompt).0 text, ground arith))

witness_native_pending-IsProved :
    (session : String) (w : Witness) (pending : List NativePending) (kept : ℕ)
    → All IsProved pending
    → All IsProved (witness_native_pending session w pending kept)
unfolding witness_native_pending
witness_native_pending-IsProved session w [] kept all = tt
witness_native_pending-IsProved session w (m ∷ pending) zero all = all
witness_native_pending-IsProved session w (m ∷ pending) (suc kept) all =
    elim (Bool-cases (unmatched session w m)) [
      | inl other ↦
          rw other (all.0, witness_native_pending-IsProved session w pending (suc kept) all.1)
      | inr matched ↦ rw matched (
        matched_lem session w m matched,
        witness_native_pending-IsProved session w pending kept all.1,
      )
    ]

retire_entries-IsProved :
    (session : String) (pending : List NativePending) (kept : ℕ)
    → All IsProved pending
    → All IsProved (retire_entries session pending kept)
unfolding retire_entries
retire_entries-IsProved session [] kept all = tt
retire_entries-IsProved session (m ∷ pending) zero all = all
retire_entries-IsProved session (m ∷ pending) (suc kept) all =
    elim (Bool-cases (m.session_id == session || is_some m.witness)) [
      | inl stays ↦ rw stays (all.0, retire_entries-IsProved session pending (suc kept) all.1)
      | inr goes ↦ rw goes (retire_entries-IsProved session pending kept all.1)
    ]

-- From entries whose proofs match, submit hooks and retirements, wherever they stop, leave only
-- entries whose proofs match: the session, the prompt, and a time not before the envelope's.
pub passes-IsProved :
    (ps : List Pass) (pending : List NativePending)
    → All IsProved pending
    → All IsProved (passes ps pending)
unfolding passes retire_native_pending
passes-IsProved [] pending all = all
passes-IsProved (witnessing session w kept ∷ ps) pending all =
    passes-IsProved ps _ (witness_native_pending-IsProved session w pending kept all)
passes-IsProved (retiring session kept ∷ ps) pending all =
    passes-IsProved ps (retire_native_pending session pending kept)
      (elim (Bool-cases (session == "")) [
        | inl nowhere ↦ rw nowhere all
        | inr some_session ↦ rw some_session (retire_entries-IsProved session pending kept all)
      ])
