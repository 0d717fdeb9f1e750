-- ===== src/Store/Credentials/Ends.antt =====
-- store/outside.go and store/senders.go: what an action leaves when it returns and when it does not.
use gangline.Prelude.{Bool, true, false, List, [], ◌∷◌}
use gangline.Store.World as Disk
use gangline.Store.World.{Error, World, exist, invalid, update}
use gangline.Store.Credentials.{
  Vault, Answer, ok, denied, err, M, on_vault, on_team, continue, ◌>>=◌, handled, handle, call,
}
use gangline.Store.Credentials.Outside.{cleaned, or_clean}
use gangline.Store.Credentials.Rules.{After}

-- What an action leaves, by whether it returns.
abbrev pub Ends : {A : Type 0} → (A → Vault → Type 0) → (Vault → Type 0) → Answer A × Vault → Type 0
Ends D E (ok x, v) = D x v
Ends D E (denied, v) = E v
Ends D E (err x, v) = E v

pub bind-Ends :
    {A B : Type 0} (D : A → Vault → Type 0) (F : B → Vault → Type 0) (E : Vault → Type 0) (m : M A)
    (f : A → M B) (v : Vault)
    → Ends D E (m v)
    → ((x : A) (u : Vault) → D x u → Ends F E (f x u))
    → Ends F E ((m >>= f) v)
unfolding ◌>>=◌
bind-Ends {B = B} D F E m f v h k = goes (m v) h
  where
    goes : (r : Answer _ × Vault) → Ends D E r → Ends F E (continue r f)
    goes (ok x, u) j = k x u j
    goes (denied, u) j = j
    goes (err x, u) j = j

pub call-Ends :
    (D : Unit → Vault → Type 0) (E : Vault → Type 0) (change : Vault → Vault) (v : Vault)
    → ((fs : List Bool) → D tt (change (record v { team = record v.team { faults = fs } })))
    → ((fs : List Bool) → E (record v { team = record v.team { faults = fs } }))
    → Ends D E (call change v)
unfolding call on_team ◌>>=◌ Disk.io
call-Ends D E change v h k = goes v.team.faults
  where
    goes :
        (fs : List Bool)
        → Ends D E (
            continue (on_vault v (Disk.faulty fs (Disk.pure tt) v.team)) (λ _ u. (ok tt, change u)))
    goes [] = h v.team.faults
    goes (true ∷ fs) = k fs
    goes (false ∷ fs) = h fs

-- What an action that returns leaves, whatever it leaves otherwise.
abbrev pub WhenOk : {A : Type 0} → (A → Vault → Type 0) → Answer A × Vault → Type 0
WhenOk E r = Ends E (λ _. Unit) r

module _ {A B : Type 0} (E : B → Vault → Type 0) where
  pub bind-WhenOk :
      (D : A → Vault → Type 0) (m : M A) (f : A → M B) (v : Vault)
      → WhenOk D (m v)
      → ((x : A) (u : Vault) → D x u → WhenOk E (f x u))
      → WhenOk E ((m >>= f) v)
  bind-WhenOk D = bind-Ends D E (λ _. Unit)

  -- the same, from what is known of any vault that the first action leaves
  pub from-WhenOk :
      (I : Vault → Type 0) (P : A → Type 0) (m : M A) (f : A → M B) (v : Vault)
      → After I P (m v)
      → ((x : A) (u : Vault) → P x → I u → WhenOk E (f x u))
      → WhenOk E ((m >>= f) v)
  unfolding ◌>>=◌
  from-WhenOk I P m f v h k = goes (m v) h
    where
      goes : (r : Answer A × Vault) → After I P r → WhenOk E (continue r f)
      goes (ok x, u) j = k x u j.0 j.1
      goes (denied, u) j = tt
      goes (err x, u) j = tt

pub call-WhenOk :
    (E : Unit → Vault → Type 0) (change : Vault → Vault) (v : Vault)
    → ((fs : List Bool) → E tt (change (record v { team = record v.team { faults = fs } })))
    → WhenOk E (call change v)
call-WhenOk E change v h = call-Ends E (λ _. Unit) change v h (λ fs. tt)

pub or_clean-WhenOk :
    {A : Type 0} (E : A → Vault → Type 0) (clean : M (Unit {0})) (m : M A) (v : Vault)
    → WhenOk E (m v)
    → WhenOk E (or_clean clean m v)
unfolding handle
or_clean-WhenOk {A = A} E clean m v h = goes (m v) h
  where
    goes : (r : Answer A × Vault) → WhenOk E r → WhenOk E (handled r (cleaned clean))
    goes (ok x, u) j = j
    goes (denied, u) j = tt
    goes (err x, u) j = tt
