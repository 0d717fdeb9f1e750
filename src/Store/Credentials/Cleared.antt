-- ===== src/Store/Credentials/Cleared.antt =====
-- store/senders.go: the removal of a sender ends its credential before its name is free.
use mathlib.Core.Path.{subst}
use gangline.Prelude.{
  String, ◌≡◌, ◌⊎◌, inl, inr, sym, ◌∙◌, Bool, none, some, if◌then◌else◌, by_test, arith,
  some_injective,
}
use gangline.Core.Types.{Sender}
use gangline.Store.Segment.{segment}
use gangline.Store.World as Disk
use gangline.Store.World.{
  Error, World, not_exist, exist, fault, name_taken, envelope_queued, invalid, update,
}
use gangline.Store.Names.{resolve_name}
use gangline.Store.Names.Claims.{Resolved, resolve_name-Resolved}
use gangline.Store.Credentials.{
  SenderRegistration, Vault, Answer, ok, denied, err, pure, deny, raise, on_vault, on_team, reading,
  continue, ◌>>=◌, ◌>>◌, handled, handle, touch, require,
}
use gangline.Store.Credentials.Senders.{
  is_sender_id, sender_credential, found_sender, if_registered, read_sender, if_credential,
  or_unauthorized, authenticate_sender, remove_sender,
}
use gangline.Store.Credentials.Ends.{Ends, bind-Ends, call-Ends}
use gangline.Store.Credentials.Vacated.{Gone, Ended, Left, remove_sender-Ended}

-- The action gives no sender.
abbrev pub NoSender : Answer Sender × Vault → Type 0
NoSender (ok s, v) = ⊥
NoSender (denied, v) = Unit
NoSender (err x, v) = Unit

module _ (name id : String) where
  abbrev None : SenderRegistration → Vault → Type 0
  None r v = ⊥

  abbrev Whatever : Vault → Type 0
  Whatever v = Unit

  credential-absent :
      (v : Vault)
      → v.senders id ≡ none
      → Ends (λ _ u. u.senders id ≡ none) Whatever (sender_credential id v)
  credential-absent v h =
      bind-Ends (λ _ u. u.senders id ≡ none) _ Whatever (require (segment id))
        (λ _. if is_sender_id id then pure id else deny) v
        (by_test (λ m. Ends (λ _ u. u.senders id ≡ none) Whatever (m v)) (segment id) (pure tt)
          (raise invalid) (λ _. h) (λ _. tt))
        (λ _ u k.
          by_test (λ m. Ends (λ _ w. w.senders id ≡ none) Whatever (m u)) (is_sender_id id)
            (pure id) deny (λ _. k) (λ _. tt))

  absent-Ended :
      (v : Vault)
      → v.senders id ≡ none
      → Ends None Whatever (
          (sender_credential id
              >> touch
              >> (reading (λ w. found_sender (w.senders id)) >>= if_registered id name))
            v)
  absent-Ended v h =
      bind-Ends (λ _ u. u.senders id ≡ none) None Whatever (sender_credential id >> touch) _ v
        (bind-Ends (λ _ u. u.senders id ≡ none) _ Whatever (sender_credential id) (λ _. touch) v
          (credential-absent v h)
          (λ _ u k.
            call-Ends (λ _ w. w.senders id ≡ none) Whatever (λ w. w) u (λ fs. k) (λ fs. tt)))
        (λ _ u k.
          bind-Ends None None Whatever (reading (λ w. found_sender (w.senders id)))
            (if_registered id name) u
            (subst (λ o. Ends None Whatever (found_sender o u)) (sym k) tt)
            (λ r w none_there. elim none_there [ ]))

  read_sender-Ended : (v : Vault) → Ended name id v → Ends None Whatever (read_sender name v)
  unfolding read_sender on_team
  read_sender-Ended v e =
      bind-Ends (λ got u. (got ≡ id) × (u.senders id ≡ none)) None Whatever
        (on_team (resolve_name name)) _ v
        (resolves (resolve_name name v.team) (resolve_name-Resolved name v.team))
        λ got u found.
          subst
            (λ x. Ends None Whatever (
              (sender_credential x
                  >> touch
                  >> (reading (λ w. found_sender (w.senders x)) >>= if_registered x name))
                u))
            (sym found.0) (absent-Ended u found.1)
    where
      resolves :
          (r : Disk.Result String × World)
          → Resolved name v.team r
          → Ends (λ got u. (got ≡ id) × (u.senders id ≡ none)) Whatever (on_vault v r)
      resolves (Disk.ok got, w) (u, found) = elim e.names [
        | inl free ↦ ground (arith, sym found ∙ free)
        | inr held ↦ (some_injective got id (sym found ∙ held), e.gone.unregistered)
      ]
      resolves (Disk.err x, w) u = tt

  module _ (hash : String → String) where
    authenticate_sender-NoSender :
        (credential : String) (v : Vault)
        → Ended name id v
        → NoSender (authenticate_sender hash name credential v)
    unfolding authenticate_sender ◌>>=◌ handle
    authenticate_sender-NoSender credential v e = goes (read_sender name v) (read_sender-Ended v e)
      where
        goes :
            (r : Answer SenderRegistration × Vault)
            → Ends None Whatever r
            → NoSender (continue (handled r (or_unauthorized hash)) (if_credential hash credential))
        goes (ok r, u) h = elim h [ ]
        goes (denied, u) h = tt
        goes (err x, u) h = tt

    -- What the removal of a sender leaves: no credential for the name if it returns, and else the name with its holder or a
    -- holder that has no credential.
    abbrev pub Cleared : Answer (Unit {0}) × Vault → Type 0
    Cleared (ok x, v) =
        Gone name id v
        × ((credential : String) → NoSender (authenticate_sender hash name credential v))
    Cleared (denied, v) = (v.team.names name ≡ some id) ⊎ Gone name id v
    Cleared (err x, v) = (v.team.names name ≡ some id) ⊎ Gone name id v

    -- The removal of a sender that is registered by a name: wherever it stops, the identity keeps the name or
    -- has neither key nor registration; and once it returns, the identity has neither, and no credential is accepted for
    -- the name.
    pub remove_sender-Cleared :
        (origin : Bool) (v : Vault)
        → v.team.names name ≡ some id
        → Cleared (remove_sender origin name v)
    remove_sender-Cleared origin v h =
        goes (remove_sender origin name v) (remove_sender-Ended name id origin v h)
      where
        goes :
            (r : Answer (Unit {0}) × Vault)
            → Ends (λ _ u. Ended name id u) (Left name id) r
            → Cleared r
        goes (ok x, u) e = (e.gone, λ credential. authenticate_sender-NoSender credential u e)
        goes (denied, u) e = e
        goes (err x, u) e = e
