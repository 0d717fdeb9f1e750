-- ===== src/Store/Credentials/Kept.antt =====
-- store/outside.go: what each operation on outside principals keeps.
pub mod Names
pub mod Records
use mathlib.Core.Path.{subst}
use gangline.Prelude.{
  sym, String, ◌≡◌, refl, Bool, true, ◌&&◌, Option, none, some, List, [], ◌∷◌, ◌++◌, ◌==◌, concat,
  by_test,
}
use text.Mathlib.Text.{starts_with}
use gangline.Core.Types.{Envelope}
use gangline.Store.Segment.{segment}
use gangline.Store.Names.{claim_name, remove_name, resolve_name}
use gangline.Store.World as Disk
use gangline.Store.World.{
  Error, World, not_exist, exist, fault, name_taken, envelope_queued, invalid,
}
use gangline.Store.Credentials.{
  OutsideState, Vault, err, M, pure, deny, raise, on_vault, on_team, reading, ◌>>=◌, ◌>>◌, handle,
  call, touch, outside_random, set_outside, set_file, require, outside_state, resolve_outside,
}
use gangline.Store.Credentials.Outside.{
  cleaned, or_clean, remove_file, if_absent, with_credential, write_credential, open_credential,
  issue_credential, write_state, if_free, new_state, publish_state, register_free, register_outside,
  rotate_state, rotate_outside, on_with, and_also, remove_registration, remove_outside, or_denied,
  if_current, known, resolve_principal, if_named, with_outside, retained, acknowledge, is_pending,
  queue_on, queue_outside,
}
use gangline.Store.Credentials.Rules.{
  kept, Frame, After, Leaves, Any, bind-Leaves, handle-Leaves, if-Leaves, pure-Leaves, deny-Leaves,
  raise-Leaves, then-Leaves, resolve_name-Leaves, call-Leaves, touch-Leaves, set_file-Leaves,
  write-Leaves, outside_random-Leaves, checked-Leaves, outside_state-Leaves, resolve_outside-Leaves,
}

module _ (I : Vault → Type 0) (Good : OutsideState → Type 0) (Names : String → String → Type 0)
    (Ok : String → Type 0) (frame : Frame I Good Names Ok) (hash : String → String) where
  pub touches : Leaves I Any touch
  touches = touch-Leaves I Good Names Ok frame

  pub cleans : (path : String) → Leaves I Any (remove_file path)
  cleans path = set_file-Leaves I Good Names Ok frame path none

  pub or_clean-Leaves :
      {A : Type 0} (P : A → Type 0) (clean : M (Unit {0})) (m : M A)
      → Leaves I Any clean
      → Leaves I P m
      → Leaves I P (or_clean clean m)
  or_clean-Leaves P clean m h k =
      handle-Leaves I P P m (cleaned clean) k (λ x p. pure-Leaves I P x p)
        (λ v i. kept I Any (clean v) (h v i)) (λ x v i. kept I Any (clean v) (h v i))

  pub issue_credential-Leaves :
      (P : OutsideState → Type 0) (s : OutsideState) (path : String)
      → ((token generation : String)
          → Ok generation
          → P (with_credential s (hash token) generation))
      → Leaves I P (issue_credential hash s path)
  unfolding issue_credential
  issue_credential-Leaves P s path ready =
      checked-Leaves I Good Names Ok frame P (starts_with path "/") _ λ _.
        bind-Leaves I Ok P outside_random _ (outside_random-Leaves I Good Names Ok frame) λ token _.
          bind-Leaves I Ok P outside_random (λ g. open_credential hash s path token g)
            (outside_random-Leaves I Good Names Ok frame) (λ g fresh. opens token g fresh)
    where
      writes : (token g : String) → Ok g → Leaves I P (write_credential hash s path token g)
      writes token g fresh =
          then-Leaves I P (call (set_file path (some token)) >> touch >> touch)
            (pure (with_credential s (hash token) g))
            (then-Leaves I Any (call (set_file path (some token)) >> touch) touch
              (then-Leaves I Any (call (set_file path (some token))) touch
                (set_file-Leaves I Good Names Ok frame path (some token)) touches)
              touches)
            (pure-Leaves I P (with_credential s (hash token) g) (ready token g fresh))

      absent : (o : Option String) → Leaves I Any (if_absent path o)
      absent none = set_file-Leaves I Good Names Ok frame path (some "")
      absent (some t) = raise-Leaves I {A = Unit} Any exist

      opens : (token g : String) → Ok g → Leaves I P (open_credential hash s path token g)
      opens token g fresh =
          then-Leaves I P (reading (λ v. if_absent path (v.files path)))
            (or_clean (remove_file path) (write_credential hash s path token g))
            (λ v i. absent (v.files path) v i)
            (or_clean-Leaves P (remove_file path) (write_credential hash s path token g)
              (cleans path) (writes token g fresh))

  pub requires-Leaves : (b : Bool) → Leaves I Any (require b)
  requires-Leaves b = if-Leaves I Any b (pure tt) (raise invalid) (λ v i. (tt, i)) (λ v i. i)

  pub rotate_outside-Leaves :
      ((s : OutsideState) (token generation : String)
        → Good s
        → Ok generation
        → Good (with_credential s (hash token) generation))
      → (origin : Bool) (name path : String) → Leaves I Any (rotate_outside hash origin name path)
  unfolding rotate_outside
  rotate_outside-Leaves renews origin name path =
      then-Leaves I Any (require origin >> touch)
        (resolve_outside name >>= λ r. outside_state r.id >>= rotate_state hash path)
        (checked-Leaves I Good Names Ok frame Any origin touch (λ _. touches))
        (bind-Leaves I Good Any (resolve_outside name)
          (λ r. outside_state r.id >>= rotate_state hash path)
          (resolve_outside-Leaves I Good Names Ok frame name)
          (λ r _.
            bind-Leaves I Good Any (outside_state r.id) (rotate_state hash path)
              (outside_state-Leaves I Good Names Ok frame r.id) rotates))
    where
      rotates : (s : OutsideState) → Good s → Leaves I Any (rotate_state hash path s)
      rotates s good =
          bind-Leaves I Good Any (issue_credential hash s path)
            (λ n. or_clean (remove_file path) (write_state hash n) >> touch)
            (issue_credential-Leaves Good s path (λ token g fresh. renews s token g good fresh))
            (λ n fine.
              then-Leaves I Any (or_clean (remove_file path) (write_state hash n)) touch
                (or_clean-Leaves Any (remove_file path) (write_state hash n) (cleans path)
                  (write-Leaves I Good Names Ok frame n fine))
                touches)

  pub queue_outside-Leaves :
      ((s : OutsideState) (e : Envelope)
        → Good s
        → Good (record s { pending = s.pending ++ e ∷ [] }))
      → (name : String) (e : Envelope) → Leaves I Any (queue_outside hash name e)
  unfolding queue_outside
  queue_outside-Leaves adds name e = then-Leaves I Any touch _ touches (
      bind-Leaves I Good Any (resolve_outside name) _
        (resolve_outside-Leaves I Good Names Ok frame name)
        (λ r _.
          checked-Leaves I Good Names Ok frame Any (e.recipient == r.id && e.to == r.name)
            (outside_state r.id >>= queue_on hash e)
            (λ _.
              bind-Leaves I Good Any (outside_state r.id) (queue_on hash e)
                (outside_state-Leaves I Good Names Ok frame r.id) queues)))
    where
      queues : (s : OutsideState) → Good s → Leaves I Any (queue_on hash e s)
      queues s good =
          let longer : OutsideState = record s { pending = s.pending ++ e ∷ [] } in
          if-Leaves I Any (is_pending hash e.id s.pending) (raise envelope_queued)
            (write_state hash longer >> touch) (raise-Leaves I {A = Unit} Any envelope_queued)
            (then-Leaves I Any (write_state hash longer) touch
              (write-Leaves I Good Names Ok frame longer (adds s e good)) touches)

  known-Leaves :
      (P : OutsideState → Type 0) (id : String)
      → Leaves I P (outside_state id)
      → Leaves I P (known hash id)
  known-Leaves P id h =
      handle-Leaves I P P (outside_state id) (or_denied hash) h (λ s good. pure-Leaves I P s good)
        (deny-Leaves I P) errors
    where
      errors : (x : Error) → Leaves I P (or_denied hash (err x))
      errors not_exist = deny-Leaves I P
      errors x = raise-Leaves I P x

  pub resolve_principal-Leaves :
      (P : OutsideState → Type 0) (id generation : String)
      → Leaves I P (outside_state id)
      → Leaves I
          (λ s. P s × (s.generation == generation ≡ true))
          (resolve_principal hash id generation)
  unfolding resolve_principal
  resolve_principal-Leaves P id generation h =
      bind-Leaves I P _ (known hash id) (if_current hash generation) (known-Leaves P id h) λ s good.
        by_test (λ m. Leaves I (λ x. P x × (x.generation == generation ≡ true)) m)
          (s.generation == generation) (pure s) deny (λ same v i. ((good, same), i)) (λ _ v i. i)

  pub with_outside-Leaves :
      (id name generation : String) → Leaves I Good (with_outside hash id name generation)
  unfolding with_outside
  with_outside-Leaves id name generation =
      then-Leaves I Good touch
        (resolve_principal hash id generation >>= if_named hash name >>= λ s. outside_state s.id)
        touches
        (bind-Leaves I Good Good (resolve_principal hash id generation >>= if_named hash name)
          (λ s. outside_state s.id)
          (bind-Leaves I _ Good (resolve_principal hash id generation) (if_named hash name)
            (resolve_principal-Leaves Good id generation
              (outside_state-Leaves I Good Names Ok frame id))
            (λ s good.
              if-Leaves I Good (s.name == name) (pure s) deny (pure-Leaves I Good s good.0)
                (deny-Leaves I Good)))
          (λ s _. outside_state-Leaves I Good Names Ok frame s.id))

  pub acknowledge-Leaves :
      (ids : List String)
      → ((s : OutsideState) → Good s → Good (record s { pending = retained hash ids s.pending }))
      → (id name generation : String) → Leaves I Any (acknowledge hash id name generation ids)
  unfolding acknowledge
  acknowledge-Leaves ids drops id name generation =
      bind-Leaves I Good Any (with_outside hash id name generation) _
        (with_outside-Leaves id name generation)
        λ s good.
          then-Leaves I Any (write_state hash (record s { pending = retained hash ids s.pending }))
            touch
            (write-Leaves I Good Names Ok frame (record s { pending = retained hash ids s.pending })
              (drops s good))
            touches
