-- ===== src/Store/Credentials/Vacated.antt =====
-- store/senders.go: wherever the removal of a sender stops, its name is held or its credential is gone.
use mathlib.Core.Path.{subst}
use gangline.Prelude.{
  String, ◌≡◌, ◌⊎◌, inl, inr, refl, sym, ap, ◌∙◌, Bool, Option, none, some, ◌==◌, if◌then◌else◌,
  by_test, arith, eq_refl, some_injective,
}
use gangline.Store.Segment.{segment}
use gangline.Store.World as Disk
use gangline.Store.World.{
  Error, World, not_exist, exist, fault, name_taken, envelope_queued, invalid, update,
}
use gangline.Store.Names.{resolve_name, remove_name}
use gangline.Store.Names.Claims.{Resolved, resolve_name-Resolved, Removed, remove_name-Removed}
use gangline.Store.Credentials.{
  Vault, M, pure, deny, raise, on_vault, on_team, ◌>>◌, handled, handle, call, touch, require,
}
use gangline.Store.Credentials.Senders.{
  is_sender_id, sender_credential, set_key, set_sender, remove_directory, if_claimed, remove_sender,
}
use gangline.Store.Credentials.Ends.{Ends, bind-Ends, call-Ends}

module _ (name id : String) where
  abbrev pub Held : Vault → Type 0
  Held v = v.team.names name ≡ some id

  -- The identity has no credential and no registration.
  pub record Gone (v : Vault) : Type 0 where
    pub keyless : v.keys id ≡ none
    pub unregistered : v.senders id ≡ none

  -- The name leads to no registration.
  pub record Ended (v : Vault) : Type 0 where
    pub gone : Gone v
    pub names : (v.team.names name ≡ none) ⊎ (v.team.names name ≡ some id)

  abbrev pub Left : Vault → Type 0
  Left v = Held v ⊎ Gone v

  require-Held : (b : Bool) (v : Vault) → Held v → Ends (λ _ u. Held u) Left (require b v)
  require-Held b v h =
      by_test (λ m. Ends (λ _ u. Held u) Left (m v)) b (pure tt) (raise invalid) (λ _. h)
        (λ _. inl h)

  claimed-Held :
      (v : Vault)
      → Held v
      → Ends (λ got u. (got ≡ id) × Held u) Left (handle (on_team (resolve_name name)) if_claimed v)
  unfolding handle on_team
  claimed-Held v h = goes (resolve_name name v.team) (resolve_name-Resolved name v.team)
    where
      goes :
          (r : Disk.Result String × World)
          → Resolved name v.team r
          → Ends (λ got u. (got ≡ id) × Held u) Left (handled (on_vault v r) if_claimed)
      goes (Disk.ok got, w) (u, found) =
          (some_injective got id (sym found ∙ h), ap (λ f. f name) u.names ∙ h)
      goes (Disk.err not_exist, w) (u, found) = inl (ap (λ f. f name) u.names ∙ h)
      goes (Disk.err exist, w) u = inl (ap (λ f. f name) u.names ∙ h)
      goes (Disk.err fault, w) u = inl (ap (λ f. f name) u.names ∙ h)
      goes (Disk.err name_taken, w) u = inl (ap (λ f. f name) u.names ∙ h)
      goes (Disk.err envelope_queued, w) u = inl (ap (λ f. f name) u.names ∙ h)
      goes (Disk.err invalid, w) u = inl (ap (λ f. f name) u.names ∙ h)

  sender_credential-Held : (v : Vault) → Held v → Ends (λ _ u. Held u) Left (sender_credential id v)
  sender_credential-Held v h =
      bind-Ends (λ _ u. Held u) (λ _ u. Held u) Left (require (segment id))
        (λ _. if is_sender_id id then pure id else deny) v (require-Held (segment id) v h)
        (λ _ u k.
          by_test (λ m. Ends (λ _ w. Held w) Left (m u)) (is_sender_id id) (pure id) deny (λ _. k)
            (λ _. inl k))

  record Cleaned (v : Vault) : Type 0 where
    held : v.team.names name ≡ some id
    gone : Gone v

  none_there : {A : Type 0} (f : String → Option A) → update f id none id ≡ none
  none_there f =
      by_test (λ x. x ≡ none) (id == id) none (f id) (λ _. refl) (λ e. ground (arith, eq_refl id))

  remove_directory-Cleaned :
      (v : Vault) → Held v → Ends (λ _ u. Cleaned u) Left (remove_directory id v)
  unfolding remove_directory
  remove_directory-Cleaned v h =
      bind-Ends (λ _ u. Held u × (u.keys id ≡ none)) (λ _ u. Cleaned u) Left
        (call (set_key id none)) (λ _. call (set_sender id none)) v
        (call-Ends (λ _ u. Held u × (u.keys id ≡ none)) Left (set_key id none) v
          (λ fs. (h, none_there v.keys)) (λ fs. inl h))
        (λ _ u k.
          call-Ends (λ _ w. Cleaned w) Left (set_sender id none) u
            (λ fs. record {
              held = k.0;
              gone = record { keyless = k.1; unregistered = none_there u.senders };
            })
            (λ fs. inl k.0))

  remove_name-Ended :
      (v : Vault) → Cleaned v → Ends (λ _ u. Ended u) Left (on_team (remove_name name id) v)
  unfolding on_team
  remove_name-Ended v c = goes (remove_name name id v.team) (remove_name-Removed name id v.team)
    where
      gone : (w : World) → Gone (record v { team = w })
      gone w = record { keyless = c.gone.keyless; unregistered = c.gone.unregistered }

      goes :
          (r : Disk.Result Unit × World)
          → Removed name id v.team r
          → Ends (λ _ u. Ended u) Left (on_vault v r)
      goes (Disk.ok x, w) (inl h) = record {
        gone = gone w;
        names = inl (
            ap (λ f. f name) h.1.names
            ∙ by_test (λ x. x ≡ none) (name == name) none (v.team.names name) (λ _. refl)
                (λ e. ground (arith, eq_refl name)));
      }
      goes (Disk.ok x, w) (inr h) = record {
        gone = gone w;
        names = inr (ap (λ f. f name) h.0.names ∙ c.held);
      }
      goes (Disk.err x, w) h = inr (gone w)

  abbrev removal : String → M (Unit {0})
  removal got =
      sender_credential got >> remove_directory got >> on_team (remove_name name got) >> touch

  removal-Ended : (v : Vault) → Held v → Ends (λ _ u. Ended u) Left (removal id v)
  removal-Ended v h =
      bind-Ends (λ _ u. Ended u) _ Left
        (sender_credential id >> remove_directory id >> on_team (remove_name name id)) (λ _. touch)
        v
        (bind-Ends (λ _ u. Cleaned u) _ Left (sender_credential id >> remove_directory id)
          (λ _. on_team (remove_name name id)) v
          (bind-Ends (λ _ u. Held u) _ Left (sender_credential id) (λ _. remove_directory id) v
            (sender_credential-Held v h) (λ _ u k. remove_directory-Cleaned u k))
          (λ _ u k. remove_name-Ended u k))
        (λ _ u k.
          call-Ends (λ _ w. Ended w) Left (λ w. w) u
            (λ fs. record {
              gone = record { keyless = k.gone.keyless; unregistered = k.gone.unregistered };
              names = k.names;
            })
            (λ fs. inr (record { keyless = k.gone.keyless; unregistered = k.gone.unregistered })))

  pub remove_sender-Ended :
      (origin : Bool) (v : Vault)
      → Held v
      → Ends (λ _ u. Ended u) Left (remove_sender origin name v)
  unfolding remove_sender
  remove_sender-Ended origin v h =
      bind-Ends (λ _ u. Held u) _ Left (require origin) _ v (require-Held origin v h)
        λ _ v1 h1.
          bind-Ends (λ got u. (got ≡ id) × Held u) _ Left
            (handle (on_team (resolve_name name)) if_claimed) removal v1 (claimed-Held v1 h1)
            λ got v2 found.
              subst (λ x. Ends (λ _ u. Ended u) Left (removal x v2)) (sym found.0)
                (removal-Ended v2 found.1)
