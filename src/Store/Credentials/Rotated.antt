-- ===== src/Store/Credentials/Rotated.antt =====
-- store/outside.go: a rotation replaces the credential that it rotates.
use mathlib.Core.Path.{subst}
use gangline.Prelude.{
  String, ◌≡◌, refl, sym, ap, ◌∙◌, Bool, true, false, Option, some, ◌==◌, by_test, All, arith,
  eq_iff, eq_refl, some_injective,
}
use text.Mathlib.Text.{starts_with}
use gangline.Store.Credentials.{
  OutsideState, Vault, Answer, ok, denied, err, reading, ◌>>◌, call, touch, outside_random,
  set_outside, set_file, require, outside_state, resolve_outside,
}
use gangline.Store.Credentials.Outside.{
  or_clean, remove_file, if_absent, write_credential, open_credential, issue_credential,
  write_state, rotate_state, rotate_outside,
}
use gangline.Store.Credentials.Rules.{
  Frame, After, Leaves, Any, outside_random-Leaves, require-Leaves, touch-Leaves, checked-Leaves,
  valid_state-Leaves, resolved-Leaves,
}
use gangline.Store.Credentials.Ends.{WhenOk, bind-WhenOk, from-WhenOk, call-WhenOk, or_clean-WhenOk}

module _ (hash : String → String) (name id generation path : String) where
  -- The name is that of the identity, and the generation is not drawn.
  record Rotating (v : Vault) : Type 0 where
    named : v.team.names name ≡ some id
    fresh : All (λ d. d == generation ≡ false) v.draws

  abbrev AnyState : OutsideState → Type 0
  AnyState s = Unit

  abbrev Named : String → String → Type 0
  Named n got = n ≡ name → got ≡ id

  abbrev Unlike : String → Type 0
  Unlike d = d == generation ≡ false

  Rotating-Frame : Frame Rotating AnyState Named Unlike
  Rotating-Frame = record {
    quiet = λ v w u i. record {
      named = ap (λ (f : String → Option String). f name) u.names ∙ i.named;
      fresh = i.fresh;
    };
    draws = λ x xs v h i.
        let both = subst (λ l. All (λ d. d == generation ≡ false) l) h i.fresh in
        (both.0, record { named = i.named; fresh = both.1 });
    files = λ p token v i. record { named = i.named; fresh = i.fresh };
    records = λ f v i. record { named = i.named; fresh = i.fresh };
    names = λ n got v h i same.
        some_injective got id (sym (subst (λ x. v.team.names x ≡ some got) same h) ∙ i.named);
    reads = λ i s v h valid r. tt;
    writes = λ s v good i. record { named = i.named; fresh = i.fresh };
  }

  -- A new credential of the registration, whose token is in the file.
  record Issued (s : OutsideState) (v : Vault) : Type 0 where
    owner : s.id ≡ id
    newer : s.generation == generation ≡ false
    token : String
    written : v.files path ≡ some token
    hashed : s.credential_hash ≡ hash token

  -- The registration has another generation than the old one, and the hash of the token in the file.
  pub record Renewed (v : Vault) : Type 0 where
    pub state : OutsideState
    pub stored : v.outside id ≡ some state
    pub newer : state.generation == generation ≡ false
    pub token : String
    pub written : v.files path ≡ some token
    pub hashed : state.credential_hash ≡ hash token

  module _ (s : OutsideState) (owner : s.id ≡ id) where
    write_credential-Issued :
        (token g : String) (v : Vault)
        → Unlike g
        → WhenOk Issued (write_credential hash s path token g v)
    write_credential-Issued token g v fresh =
        let put : Unit → Vault → Type 0 = λ _ u. u.files path ≡ some token in
        bind-WhenOk Issued put (call (set_file path (some token)) >> touch >> touch) _ v
          (bind-WhenOk put put (call (set_file path (some token)) >> touch) (λ _. touch) v
            (bind-WhenOk put put (call (set_file path (some token))) (λ _. touch) v
              (call-WhenOk put (set_file path (some token)) v (λ fs.
                by_test (λ x. x ≡ some token) (path == path) (some token) (v.files path) (λ _. refl)
                  (λ e. ground (arith, eq_refl path))))
              (λ _ u h. call-WhenOk put (λ w. w) u (λ fs. h)))
            (λ _ u h. call-WhenOk put (λ w. w) u (λ fs. h)))
          (λ _ u h. record {
            owner = owner;
            newer = fresh;
            token = token;
            written = h;
            hashed = refl;
          })

    issue_credential-Issued :
        (v : Vault) → Rotating v → WhenOk Issued (issue_credential hash s path v)
    unfolding issue_credential
    issue_credential-Issued v i =
        from-WhenOk Issued Rotating (λ _. starts_with path "/" ≡ true)
          (require (starts_with path "/")) _ v
          (require-Leaves Rotating AnyState Named Unlike Rotating-Frame (starts_with path "/") v i)
          λ _ v1 _ i1.
            from-WhenOk Issued Rotating Unlike outside_random _ v1 (draws-Fresh v1 i1)
              λ token v2 _ i2.
                from-WhenOk Issued Rotating Unlike outside_random
                  (λ g. open_credential hash s path token g) v2 (draws-Fresh v2 i2)
                  λ g v3 fresh i3.
                    bind-WhenOk Issued Whatever (reading (λ u. if_absent path (u.files path)))
                      (λ _. or_clean (remove_file path) (write_credential hash s path token g)) v3
                      (whatever (if_absent path (v3.files path) v3))
                      λ _ v4 _.
                        or_clean-WhenOk Issued (remove_file path)
                          (write_credential hash s path token g) v4
                          (write_credential-Issued token g v4 fresh)
      where
        draws-Fresh : (u : Vault) → Rotating u → After Rotating Unlike (outside_random u)
        draws-Fresh = outside_random-Leaves Rotating AnyState Named Unlike Rotating-Frame

        Whatever : Unit {0} → Vault → Type 0
        Whatever x u = Unit

        whatever : (r : Answer (Unit {0}) × Vault) → WhenOk Whatever r
        whatever (ok x, u) = tt
        whatever (denied, u) = tt
        whatever (err x, u) = tt

  abbrev pub Renews : {A : Type 0} → A → Vault → Type 0
  Renews x v = Renewed v

  write_state-Renewed :
      (s : OutsideState) (v : Vault) → Issued s v → WhenOk Renews (write_state hash s v)
  write_state-Renewed s v i = call-WhenOk Renews (set_outside s.id (some s)) v λ fs. record {
    state = s;
    stored =
        by_test (λ x. x ≡ some s) (s.id == id) (some s) (v.outside id) (λ _. refl)
          (λ e. ground (arith, eq_iff s.id id, i.owner));
    newer = i.newer;
    token = i.token;
    written = i.written;
    hashed = i.hashed;
  }

  rotate_state-Renewed :
      (s : OutsideState)
      → s.id ≡ id
      → (v : Vault) → Rotating v
      → WhenOk Renews (rotate_state hash path s v)
  rotate_state-Renewed s owner v i =
      bind-WhenOk Renews Issued (issue_credential hash s path) _ v
        (issue_credential-Issued s owner v i)
        λ next u issued.
          bind-WhenOk Renews Renews (or_clean (remove_file path) (write_state hash next))
            (λ _. touch) u
            (or_clean-WhenOk Renews (remove_file path) (write_state hash next) u
              (write_state-Renewed next u issued))
            λ _ w h.
              call-WhenOk Renews (λ x. x) w
                (λ fs. record {
                  state = h.state;
                  stored = h.stored;
                  newer = h.newer;
                  token = h.token;
                  written = h.written;
                  hashed = h.hashed;
                })

  AnId : OutsideState → Type 0
  AnId s = s.id ≡ id

  reads-AnId : (i : String) → i ≡ id → Leaves Rotating AnId (outside_state i)
  unfolding AnId
  reads-AnId i same =
      valid_state-Leaves Rotating AnyState Named Unlike Rotating-Frame AnId i
        (λ s v h valid r. ground (arith, eq_iff s.id i))

  -- A rotation that returns leaves a registration of the identity that the name has: its generation is not the old one,
  -- and its hash is that of the token in the credential file. The generation that is drawn is not the old one.
  pub rotate_outside-Renewed :
      (origin : Bool) (v : Vault)
      → v.team.names name ≡ some id
      → All (λ d. d == generation ≡ false) v.draws
      → WhenOk Renews (rotate_outside hash origin name path v)
  unfolding rotate_outside AnId
  rotate_outside-Renewed origin v named fresh =
      let i : Rotating v = record { named = named; fresh = fresh } in
      from-WhenOk Renews Rotating Any (require origin >> touch) _ v
        (checked-Leaves Rotating AnyState Named Unlike Rotating-Frame Any origin touch
          (λ _. touch-Leaves Rotating AnyState Named Unlike Rotating-Frame) v i)
        λ _ v1 _ i1.
          from-WhenOk Renews Rotating AnId (resolve_outside name) _ v1
            (resolved-Leaves Rotating AnyState Named Unlike Rotating-Frame AnId name
              (λ got same. reads-AnId got (same refl)) v1 i1)
            λ r v2 owner i2.
              from-WhenOk Renews Rotating AnId (outside_state r.id) (rotate_state hash path) v2
                (reads-AnId r.id owner v2 i2) λ s v3 same i3. rotate_state-Renewed s same v3 i3
