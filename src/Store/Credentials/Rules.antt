-- ===== src/Store/Credentials/Rules.antt =====
-- store/outside.go: what the actions on registrations keep, whether they return, are refused or fail.
use gangline.Prelude.{
  String, ◌≡◌, refl, Bool, true, false, Option, none, some, List, [], ◌∷◌, ◌==◌, if◌then◌else◌,
  by_test,
}
use text.Mathlib.Text.{starts_with}
use gangline.Store.Segment.{segment}
use gangline.Store.World as Disk
use gangline.Store.World.{Error, World, not_exist, exist, invalid, fault, name_taken}
use gangline.Store.Save.Atomic.{Untouched}
use gangline.Store.Names.{resolve_name}
use gangline.Store.Names.Claims.{Resolved, resolve_name-Resolved}
use gangline.Store.Credentials.{
  OutsideState, Vault, Answer, ok, denied, err, M, pure, deny, raise, on_vault, on_team, reading,
  continue, ◌>>=◌, ◌>>◌, handled, handle, call, touch, take_draw, outside_random, set_outside,
  set_file, require, found, is_valid, unless_renamed, verified, outside_state, if_outside,
  resolve_outside,
}

-- What holds of a vault through the actions: `Good` of the registrations that it has, `Names` of its names, and `Ok` of
-- what is drawn.
pub record Frame (I : Vault → Type 0) (Good : OutsideState → Type 0)
    (Names : String → String → Type 0) (Ok : String → Type 0) : Type 0 where
  pub quiet : (v : Vault) (w : World) → Untouched v.team w → I v → I (record v { team = w })
  pub draws :
      (x : String) (xs : List String) (v : Vault)
      → v.draws ≡ x ∷ xs
      → I v
      → Ok x × I (record v { draws = xs })
  pub files : (path : String) (token : Option String) (v : Vault) → I v → I (set_file path token v)
  pub records :
      (f : String → String → Option String) (v : Vault) → I v → I (record v { records = f })
  pub names : (name id : String) (v : Vault) → v.team.names name ≡ some id → I v → Names name id
  pub reads :
      (id : String) (s : OutsideState) (v : Vault)
      → v.outside id ≡ some s
      → is_valid id s ≡ true
      → I v
      → Good s
  pub writes : (s : OutsideState) (v : Vault) → Good s → I v → I (set_outside s.id (some s) v)

-- What an action leaves: `P` of its result if it returns one.
abbrev pub After : (Vault → Type 0) → {A : Type 0} → (A → Type 0) → Answer A × Vault → Type 0
After I P (ok x, v) = P x × I v
After I P (denied, v) = I v
After I P (err x, v) = I v

abbrev pub Leaves : (Vault → Type 0) → {A : Type 0} → (A → Type 0) → M A → Type 0
Leaves I P m = (v : Vault) → I v → After I P (m v)

abbrev pub Any : {A : Type 0} → A → Type 0
Any x = Unit

-- What holds after an action in any case.
pub kept :
    (I : Vault → Type 0) {A : Type 0} (P : A → Type 0) (r : Answer A × Vault) → After I P r → I r.1
kept I P (ok x, v) h = h.1
kept I P (denied, v) h = h
kept I P (err x, v) h = h

module _ (I : Vault → Type 0) {A B : Type 0} (P : A → Type 0) (Q : B → Type 0) where
  continue-After :
      (r : Answer A × Vault) (f : A → M B)
      → After I P r
      → ((x : A) → P x → Leaves I Q (f x))
      → After I Q (continue r f)
  continue-After (ok x, v) f h k = k x h.0 v h.1
  continue-After (denied, v) f h k = h
  continue-After (err x, v) f h k = h

  pub bind-Leaves :
      (m : M A) (f : A → M B)
      → Leaves I P m
      → ((x : A) → P x → Leaves I Q (f x))
      → Leaves I Q (m >>= f)
  unfolding ◌>>=◌
  bind-Leaves m f h k v i = continue-After (m v) f (h v i) k

  handled-After :
      (r : Answer A × Vault) (f : Answer A → M B)
      → After I P r
      → ((x : A) → P x → Leaves I Q (f (ok x)))
      → Leaves I Q (f denied)
      → ((x : Error) → Leaves I Q (f (err x)))
      → After I Q (handled r f)
  handled-After (ok x, v) f h k d e = k x h.0 v h.1
  handled-After (denied, v) f h k d e = d v h
  handled-After (err x, v) f h k d e = e x v h

  pub handle-Leaves :
      (m : M A) (f : Answer A → M B)
      → Leaves I P m
      → ((x : A) → P x → Leaves I Q (f (ok x)))
      → Leaves I Q (f denied)
      → ((x : Error) → Leaves I Q (f (err x)))
      → Leaves I Q (handle m f)
  unfolding handle
  handle-Leaves m f h k d e v i = handled-After (m v) f (h v i) k d e

module _ (I : Vault → Type 0) {A : Type 0} (P : A → Type 0) where
  pub if-Leaves :
      (b : Bool) (m n : M A) → Leaves I P m → Leaves I P n → Leaves I P (if b then m else n)
  if-Leaves b m n h k = by_test (λ x. Leaves I P x) b m n (λ _. h) (λ _. k)

  pub pure-Leaves : (x : A) → P x → Leaves I P (pure x)
  pure-Leaves x h v i = (h, i)

  pub deny-Leaves : Leaves I P deny
  deny-Leaves v i = i

  pub raise-Leaves : (x : Error) → Leaves I P (raise x)
  raise-Leaves x v i = i

  pub then-Leaves :
      {B : Type 0} (m : M B) (n : M A) → Leaves I Any m → Leaves I P n → Leaves I P (m >> n)
  then-Leaves m n h k = bind-Leaves I Any P m (λ _. n) h (λ x _. k)

module _ (I : Vault → Type 0) (Good : OutsideState → Type 0) (Names : String → String → Type 0)
    (Ok : String → Type 0) (frame : Frame I Good Names Ok) where
  pub resolve_name-Leaves : (name : String) → Leaves I (Names name) (on_team (resolve_name name))
  unfolding on_team
  resolve_name-Leaves name v i = goes (resolve_name name v.team) (resolve_name-Resolved name v.team)
    where
      goes :
          (r : Disk.Result String × World)
          → Resolved name v.team r
          → After I (Names name) (on_vault v r)
      goes (Disk.ok got, w) h = (frame.names name got v h.1 i, frame.quiet v w h.0 i)
      goes (Disk.err not_exist, w) h = frame.quiet v w h.0 i
      goes (Disk.err x, w) h = frame.quiet v w h i

  spent : (v : Vault) (fs : List Bool) → I v → I (record v { team = record v.team { faults = fs } })
  spent v fs i =
      frame.quiet v (record v.team { faults = fs })
        (record { names = refl; states = refl; inboxes = refl; idle = refl }) i

  pub call-Leaves :
      (change : Vault → Vault) → ((v : Vault) → I v → I (change v)) → Leaves I Any (call change)
  unfolding call on_team ◌>>=◌ Disk.io
  call-Leaves change h v i = goes v.team.faults
    where
      goes :
          (fs : List Bool)
          → After I Any (
              continue
                (on_vault v (Disk.faulty fs (Disk.pure tt) v.team))
                (λ _ u. (ok tt, change u)))
      goes [] = (tt, h v i)
      goes (true ∷ fs) = spent v fs i
      goes (false ∷ fs) = (tt, h (record v { team = record v.team { faults = fs } }) (spent v fs i))

  pub touch-Leaves : Leaves I Any touch
  touch-Leaves = call-Leaves (λ v. v) (λ v i. i)

  pub set_file-Leaves :
      (path : String) (token : Option String) → Leaves I Any (call (set_file path token))
  set_file-Leaves path token = call-Leaves (set_file path token) (λ v i. frame.files path token v i)

  pub write-Leaves : (s : OutsideState) → Good s → Leaves I Any (call (set_outside s.id (some s)))
  write-Leaves s good = call-Leaves (set_outside s.id (some s)) (λ v i. frame.writes s v good i)

  pub outside_random-Leaves : Leaves I Ok outside_random
  unfolding outside_random
  outside_random-Leaves v i = goes v.draws refl
    where
      goes : (xs : List String) → v.draws ≡ xs → After I Ok (take_draw xs v)
      goes [] h = i
      goes (x ∷ xs) h = frame.draws x xs v h i

  pub require-Leaves : (b : Bool) → Leaves I (λ _. b ≡ true) (require b)
  require-Leaves b =
      by_test (λ x. Leaves I (λ _. b ≡ true) x) b (pure tt) (raise invalid) (λ e v i. (e, i))
        (λ _ v i. i)

  pub checked-Leaves :
      {A : Type 0} (P : A → Type 0) (b : Bool) (m : M A)
      → (b ≡ true → Leaves I P m)
      → Leaves I P (require b >> m)
  checked-Leaves P b m h =
      bind-Leaves I (λ _. b ≡ true) P (require b) (λ _. m) (require-Leaves b) (λ _ e. h e)

  verified-Leaves :
      (P : OutsideState → Type 0) (id : String) (s : OutsideState)
      → (is_valid id s ≡ true → P s)
      → Leaves I P (verified id s)
  verified-Leaves P id s good = checked-Leaves P (is_valid id s) _ λ valid.
      bind-Leaves I (Names s.name) P (on_team (resolve_name s.name)) (unless_renamed id s)
        (resolve_name-Leaves s.name)
        (λ current _.
          if-Leaves I P (current == id) (pure s) deny (pure-Leaves I P s (good valid))
            (deny-Leaves I P))

  -- The registration that is read is a valid one of the vault.
  module _ (P : OutsideState → Type 0) (id : String)
      (good : (s : OutsideState) (v : Vault)
        → v.outside id ≡ some s
        → is_valid id s ≡ true
        → I v
        → P s) where
    read_verified-Leaves : Leaves I P (reading (λ v. found (v.outside id)) >>= verified id)
    unfolding ◌>>=◌
    read_verified-Leaves v i = goes (v.outside id) refl
      where
        goes :
            (o : Option OutsideState)
            → v.outside id ≡ o
            → After I P (continue (found o v) (verified id))
        goes none h = i
        goes (some s) h = verified-Leaves P id s (λ valid. good s v h valid i) v i

    pub valid_state-Leaves : Leaves I P (outside_state id)
    unfolding outside_state
    valid_state-Leaves =
        then-Leaves I P (require (segment id) >> touch)
          (reading (λ v. found (v.outside id)) >>= verified id)
          (checked-Leaves Any (segment id) touch (λ _. touch-Leaves)) read_verified-Leaves

  pub outside_state-Leaves : (id : String) → Leaves I Good (outside_state id)
  outside_state-Leaves id = valid_state-Leaves Good id (frame.reads id)

  pub resolved-Leaves :
      (P : OutsideState → Type 0) (name : String)
      → ((id : String) → Names name id → Leaves I P (outside_state id))
      → Leaves I P (resolve_outside name)
  unfolding resolve_outside
  resolved-Leaves P name h =
      bind-Leaves I (Names name) P (on_team (resolve_name name)) if_outside
        (resolve_name-Leaves name)
        (λ id named.
          if-Leaves I P (starts_with id "outside-") (outside_state id) (raise not_exist)
            (h id named) (raise-Leaves I P not_exist))

  pub resolve_outside-Leaves : (name : String) → Leaves I Good (resolve_outside name)
  resolve_outside-Leaves name = resolved-Leaves Good name (λ id _. outside_state-Leaves id)
