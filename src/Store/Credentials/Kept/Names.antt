-- ===== src/Store/Credentials/Kept/Names.antt =====
-- store/outside.go: what the operations that change the names of the team keep.
use mathlib.Core.Path.{subst}
use gangline.Prelude.{sym, String, ◌≡◌, refl, Bool, none, concat}
use gangline.Store.Segment.{segment}
use gangline.Store.Names.{claim_name, remove_name, resolve_name}
use gangline.Store.World as Disk
use gangline.Store.World.{
  update, Error, World, not_exist, exist, fault, name_taken, envelope_queued, invalid,
}
use gangline.Store.Credentials.{
  OutsideState, Vault, err, M, pure, on_vault, on_team, ◌>>=◌, ◌>>◌, handle, call, touch,
  outside_random, set_outside, clear_records, require, resolve_outside,
}
use gangline.Store.Credentials.Outside.{
  or_clean, remove_file, with_credential, issue_credential, write_state, if_free, new_state,
  publish_state, register_free, register_outside, on_with, and_also, remove_registration,
  remove_outside,
}
use gangline.Store.Credentials.Rules.{
  kept, Frame, After, Leaves, Any, bind-Leaves, handle-Leaves, pure-Leaves, deny-Leaves,
  raise-Leaves, then-Leaves, resolve_name-Leaves, call-Leaves, write-Leaves, outside_random-Leaves,
  resolve_outside-Leaves,
}
use gangline.Store.Credentials.Kept.{
  touches, cleans, requires-Leaves, or_clean-Leaves, issue_credential-Leaves,
}

module _ (I : Vault → Type 0) (Good : OutsideState → Type 0) (Names : String → String → Type 0)
    (Ok : String → Type 0) (frame : Frame I Good Names Ok) (hash : String → String) where
  -- The names may change.
  module _ (teams : (v : Vault) (w : World) → I v → I (record v { team = w })) where
    on_team-Leaves : (m : Disk.M (Unit {0})) → Leaves I Any (on_team m)
    unfolding on_team
    on_team-Leaves m v i = goes (m v.team)
      where
        goes : (r : Disk.Result Unit × World) → After I Any (on_vault v r)
        goes (Disk.ok x, w) = (tt, teams v w i)
        goes (Disk.err x, w) = teams v w i

    and_also-Leaves :
        (m n : M (Unit {0})) → Leaves I Any m → Leaves I Any n → Leaves I Any (and_also hash m n)
    and_also-Leaves m n h k =
        handle-Leaves I Any Any m (on_with hash n) h (λ _ _. k) (λ v i. kept I Any (n v) (k v i))
          (λ x v i. kept I Any (n v) (k v i))

    pub register_outside-Leaves :
        ((name token draw generation : String)
          → Ok draw
          → Ok generation
          → Good (with_credential (new_state hash draw name) (hash token) generation))
        → ((draw : String) (v : Vault)
            → Ok draw
            → I v
            → I (set_outside (concat "outside-" draw) none v))
        → (origin : Bool) (name path : String)
        → Leaves I Any (register_outside hash origin name path)
    unfolding register_outside
    register_outside-Leaves starts stops origin name path =
        then-Leaves I Any (require origin >> touch >> require (segment name) >> touch)
          (handle (on_team (resolve_name name)) (if_free hash (register_free hash name path)))
          (then-Leaves I Any (require origin >> touch >> require (segment name)) touch
            (then-Leaves I Any (require origin >> touch) (require (segment name))
              (then-Leaves I Any (require origin) touch
                (requires-Leaves I Good Names Ok frame hash origin)
                (touches I Good Names Ok frame hash))
              (requires-Leaves I Good Names Ok frame hash (segment name)))
            (touches I Good Names Ok frame hash))
          (handle-Leaves I (Names name) Any (on_team (resolve_name name))
            (if_free hash (register_free hash name path))
            (resolve_name-Leaves I Good Names Ok frame name)
            (λ x _. raise-Leaves I {A = OutsideState} Any name_taken)
            (deny-Leaves I {A = OutsideState} Any) errors)
      where
        New : String → OutsideState → Type 0
        New draw s = Good s × (s.id ≡ concat "outside-" draw)

        publishes :
            (draw : String)
            → Ok draw
            → (s : OutsideState) → New draw s
            → Leaves I Any (publish_state hash path s)
        publishes draw fresh s new =
            let claim =
              or_clean (and_also hash (call (set_outside s.id none)) (remove_file path))
                (on_team (claim_name s.name s.id)) in
            let write = or_clean (remove_file path) (write_state hash s) in
            then-Leaves I Any (write >> claim >> touch) (pure s)
              (then-Leaves I Any (write >> claim) touch
                (then-Leaves I Any write claim
                  (or_clean-Leaves I Good Names Ok frame hash Any (remove_file path)
                    (write_state hash s) (cleans I Good Names Ok frame hash path)
                    (write-Leaves I Good Names Ok frame s new.0))
                  (or_clean-Leaves I Good Names Ok frame hash Any
                    (and_also hash (call (set_outside s.id none)) (remove_file path))
                    (on_team (claim_name s.name s.id))
                    (and_also-Leaves (call (set_outside s.id none)) (remove_file path)
                      (call-Leaves I Good Names Ok frame (set_outside s.id none) (λ v i.
                        subst (λ x. I (set_outside x none v)) (sym new.1) (stops draw v fresh i)))
                      (cleans I Good Names Ok frame hash path))
                    (on_team-Leaves (claim_name s.name s.id))))
                (touches I Good Names Ok frame hash))
              (pure-Leaves I Any s tt)

        issues :
            (draw : String)
            → Ok draw
            → Leaves I Any (
                touch
                >> (issue_credential hash (new_state hash draw name) path
                    >>= publish_state hash path))
        issues draw fresh = then-Leaves I Any touch _ (touches I Good Names Ok frame hash) (
            bind-Leaves I (New draw) Any (issue_credential hash (new_state hash draw name) path)
              (publish_state hash path)
              (issue_credential-Leaves I Good Names Ok frame hash (New draw)
                (new_state hash draw name) path
                (λ token g new. (starts name token draw g fresh new, refl)))
              (publishes draw fresh))

        free : Leaves I Any (register_free hash name path)
        free =
            bind-Leaves I Ok Any outside_random
              (λ draw.
                touch
                >> (issue_credential hash (new_state hash draw name) path
                    >>= publish_state hash path))
              (outside_random-Leaves I Good Names Ok frame) issues

        errors : (x : Error) → Leaves I Any (if_free hash (register_free hash name path) (err x))
        errors not_exist = free
        errors exist = raise-Leaves I {A = OutsideState} Any exist
        errors fault = raise-Leaves I {A = OutsideState} Any fault
        errors name_taken = raise-Leaves I {A = OutsideState} Any name_taken
        errors envelope_queued = raise-Leaves I {A = OutsideState} Any envelope_queued
        errors invalid = raise-Leaves I {A = OutsideState} Any invalid

    pub remove_outside-Leaves :
        ((s : OutsideState) (v : Vault) → Good s → I v → I (set_outside s.id none v))
        → (origin : Bool) (name : String) → Leaves I Any (remove_outside hash origin name)
    unfolding remove_outside
    remove_outside-Leaves clears origin name =
        then-Leaves I Any (touch >> require origin)
          (resolve_outside name >>= remove_registration hash)
          (then-Leaves I Any touch (require origin) (touches I Good Names Ok frame hash)
            (requires-Leaves I Good Names Ok frame hash origin))
          (bind-Leaves I Good Any (resolve_outside name) (remove_registration hash)
            (resolve_outside-Leaves I Good Names Ok frame name) removes)
      where
        removes : (s : OutsideState) → Good s → Leaves I Any (remove_registration hash s)
        removes s good =
            then-Leaves I Any (on_team (remove_name s.name s.id)) _
              (on_team-Leaves (remove_name s.name s.id))
              (and_also-Leaves touch
                (and_also hash (call (clear_records s.id)) (call (set_outside s.id none)))
                (touches I Good Names Ok frame hash)
                (and_also-Leaves (call (clear_records s.id)) (call (set_outside s.id none))
                  (call-Leaves I Good Names Ok frame (clear_records s.id)
                    (λ v i. frame.records (update v.records s.id (λ key. none)) v i))
                  (call-Leaves I Good Names Ok frame (set_outside s.id none)
                    (λ v i. clears s v good i))))
