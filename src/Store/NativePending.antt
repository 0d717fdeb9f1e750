-- ===== src/Store/NativePending.antt =====
-- store/native_pending.go: the native writes that are not resolved, one file for each envelope.
-- The functions run under the short writer lock of the status hooks and take the entries in the
-- order of `ListNativePending`. A loop that stops after `kept` of its writes leaves the rest.
pub mod Proofs
use gangline.Prelude.{
  ℕ, zero, suc, String, Bool, true, false, not, ◌&&◌, ◌||◌, Option, none, some, List, [], ◌∷◌, ltb,
  ◌==◌, is_some, if◌then◌else◌,
}
use gangline.Core.Types.{Envelope, Time}
use gangline.Store.Segment.{segment}

-- store/inbox.go
pub record Witness : Type 0 where
  pub id : String
  pub at : Time
  pub prompt : String
  pub session_id : String
  pub turn_id : String
  pub transcript : String

pub record NativePending : Type 0 where
  pub capacity_fingerprint : String
  pub envelope : Envelope
  pub session_id : String
  pub prompt : String
  pub witness : Option Witness

-- RemoveNativePending, where `none` is a text that names no file
remove_entry : List NativePending → String → List NativePending
remove_entry [] id = []
remove_entry (n ∷ pending) id =
    let rest = remove_entry pending id in if n.envelope.id == id then rest else n ∷ rest

unfoldable pub remove_native_pending : List NativePending → String → Option (List NativePending)
unfolding remove_entry
remove_native_pending pending id = if not (segment id) then none else some (remove_entry pending id)

-- the place of `n` among the files
put_entry : List NativePending → NativePending → List NativePending
put_entry [] n = n ∷ []
put_entry (m ∷ pending) n =
    let rest = put_entry pending n in
    if m.envelope.id == n.envelope.id then n ∷ pending else m ∷ rest

-- BeginNative
unfoldable pub begin_native : List NativePending → NativePending → Option (List NativePending)
unfolding put_entry
begin_native pending n = if not (segment n.envelope.id) then none else some (put_entry pending n)

-- the test of `witnessNativePending` that leaves an entry out
unfoldable pub unmatched : String → Witness → NativePending → Bool
unmatched session w n =
    is_some n.witness
    || w.session_id == ""
    || not (w.session_id == session)
    || not (w.session_id == n.session_id)
    || not (w.prompt == n.prompt)
    || ltb w.at n.envelope.created_at

-- witnessNativePending, where `session` is the native session of the agent
unfoldable pub witness_native_pending :
    String → Witness → List NativePending → ℕ → List NativePending
witness_native_pending session w [] kept = []
witness_native_pending session w (n ∷ pending) zero = n ∷ pending
witness_native_pending session w (n ∷ pending) (suc kept) =
    let skip = witness_native_pending session w pending (suc kept) in
    let go_on = witness_native_pending session w pending kept in
    if unmatched session w n then n ∷ skip else record n { witness = some w } ∷ go_on

-- the loop of `RetireNativePending`
unfoldable pub retire_entries : String → List NativePending → ℕ → List NativePending
retire_entries session [] kept = []
retire_entries session (n ∷ pending) zero = n ∷ pending
retire_entries session (n ∷ pending) (suc kept) =
    let skip = retire_entries session pending (suc kept) in
    let go_on = retire_entries session pending kept in
    if n.session_id == session || is_some n.witness then n ∷ skip else go_on

-- RetireNativePending
unfoldable pub retire_native_pending : String → List NativePending → ℕ → List NativePending
retire_native_pending session pending kept =
    if session == "" then pending else retire_entries session pending kept
