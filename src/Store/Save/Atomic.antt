-- ===== src/Store/Save/Atomic.antt =====
-- store/lock.go: a save changes the state file wholly or not at all, and no other file but the log
-- and the model metadata.
use gangline.Prelude.{String, ◌≡◌, refl, Option, none, some, inl, inr, Bool-cases, ◌∙◌, ap}
use gangline.Core.Types.{Agent, Time}
use gangline.Store.World.{Result, World, pure, update, Post}
use gangline.Store.World.Rules.{Post-io, Post-bind}
use gangline.Store.Save.{
  save, unbound, bind, bind_if, load_bound, set_bound, read_state, save_model_state, found,
  write_metadata, write_state,
}
use gangline.Store.Save.Bindings.{saved_as}

-- `v` differs from `w` in no name, inbox or state, nor in the idle ledger.
pub record Untouched (w v : World) : Type 0 where
  pub names : v.names ≡ w.names
  pub states : v.states ≡ w.states
  pub inboxes : v.inboxes ≡ w.inboxes
  pub idle : v.idle ≡ w.idle

-- `v` differs from `w` in the state under `path` alone, which is that of `a`, bound to some session.
pub record Saved (path : String) (a : Agent) (w v : World) : Type 0 where
  pub session : String
  pub names : v.names ≡ w.names
  pub states : v.states ≡ update w.states path (some (saved_as a session))
  pub inboxes : v.inboxes ≡ w.inboxes
  pub idle : v.idle ≡ w.idle

pub Untouched-refl : (w : World) → Untouched w w
Untouched-refl w = record { names = refl; states = refl; inboxes = refl; idle = refl }

pub Untouched-trans : (u v w : World) → Untouched u v → Untouched v w → Untouched u w
Untouched-trans u v w h k = record {
  names = k.names ∙ h.names;
  states = k.states ∙ h.states;
  inboxes = k.inboxes ∙ h.inboxes;
  idle = k.idle ∙ h.idle;
}

-- an action that touches nothing, started where nothing has been touched yet
abbrev Idles : {A : Type 0} → World → Result A × World → Type 0
Idles w = Post (λ _ v. Untouched w v) (Untouched w)

bind-Untouched :
    (a : Agent) (s : String) (now : Time) (w v : World) → Untouched w v → Idles w (bind a s now v)
unfolding bind
bind-Untouched a s now w v h =
    Post-io (λ _ u. Untouched w u) (Untouched w) _ v
      (λ gs. record { names = h.names; states = h.states; inboxes = h.inboxes; idle = h.idle })
      (λ gs. record { names = h.names; states = h.states; inboxes = h.inboxes; idle = h.idle })

bind_if-Untouched :
    (a : Agent) (s : String) (now : Time) (w v : World)
    → Untouched w v
    → Idles w (bind_if a s now v)
unfolding bind_if
bind_if-Untouched a s now w v h = elim (Bool-cases (unbound a s)) [
  | inl needed ↦ rw needed (
      Post-bind (λ _ u. Untouched w u) (λ _ u. Untouched w u) (Untouched w) (bind a s now)
        (λ _. pure a.native.session_id) v (bind-Untouched a s now w v h) (λ _ u k. k))
  | inr done ↦ rw done h
]

found-Untouched : (o : Option Agent) (w v : World) → Untouched w v → Idles w (found o v)
found-Untouched none w v h = h
found-Untouched (some a) w v h = h

read_state-Untouched : (path : String) (w v : World) → Untouched w v → Idles w (read_state path v)
unfolding read_state
read_state-Untouched path w v h =
    Post-io (λ _ u. Untouched w u) (Untouched w) _ v
      (λ gs. record { names = h.names; states = h.states; inboxes = h.inboxes; idle = h.idle })
      λ gs.
        found-Untouched (v.states path) w (record v { faults = gs })
          (record { names = h.names; states = h.states; inboxes = h.inboxes; idle = h.idle })

load_bound-Untouched :
    (o : Option String) (path : String) (now : Time) (w : World) → Idles w (load_bound o path now w)
unfolding load_bound set_bound
load_bound-Untouched (some s) path now w = Untouched-refl w
load_bound-Untouched none path now w =
    Post-bind (λ _ u. Untouched w u) (λ _ u. Untouched w u) (Untouched w) (read_state path) _ w
      (read_state-Untouched path w w (Untouched-refl w))
      λ saved v h.
        Post-bind (λ _ u. Untouched w u) (λ _ u. Untouched w u) (Untouched w)
          (bind_if saved saved.native.bound_session now) _ v
          (bind_if-Untouched saved saved.native.bound_session now w v h)
          λ s u k. record { names = k.names; states = k.states; inboxes = k.inboxes; idle = k.idle }

save_model_state-Saved :
    (path : String) (a : Agent) (session : String) (w v : World)
    → Untouched w v
    → Post
        (λ _ u. Saved path a w u)
        (Untouched w)
        (save_model_state path
          (record a { native = record a.native { bound_session = session } })
          v)
unfolding save_model_state
save_model_state-Saved path a session w v h =
    Post-bind (λ _ u. Untouched w u) (λ _ u. Saved path a w u) (Untouched w) (write_metadata path b)
      (λ _. write_state path b) v
      (Post-io (λ _ u. Untouched w u) (Untouched w) _ v
        (λ gs. record { names = h.names; states = h.states; inboxes = h.inboxes; idle = h.idle })
        (λ gs. record { names = h.names; states = h.states; inboxes = h.inboxes; idle = h.idle }))
      λ _ u k.
        Post-io (λ _ t. Saved path a w t) (Untouched w) _ u
          (λ gs. record { names = k.names; states = k.states; inboxes = k.inboxes; idle = k.idle })
          λ gs. record {
            session = session;
            names = k.names;
            states = ap (λ s. update s path (some (saved_as a session))) k.states;
            inboxes = k.inboxes;
            idle = k.idle;
          }
  where
    b : Agent
    b = record a { native = record a.native { bound_session = session } }

-- Whatever call fails, a save that fails changes no state, name, inbox or idle ledger; one that
-- succeeds writes the agent's state under its path, and changes nothing else of these.
pub save-Saved :
    (path : String) (a : Agent) (now : Time) (w : World)
    → Post (λ _ v. Saved path a w v) (Untouched w) (save path a now w)
unfolding save
save-Saved path a now w =
    Post-bind (λ _ v. Untouched w v) Q (Untouched w) (load_bound w.bound path now) _ w
      (load_bound-Untouched w.bound path now w)
      λ previous v h.
        Post-bind (λ _ u. Untouched w u) Q (Untouched w) (bind_if a previous now) _ v
          (bind_if-Untouched a previous now w v h)
          λ session u k.
            Post-bind (λ _ t. Saved path a w t) Q (Untouched w)
              (save_model_state path
                (record a { native = record a.native { bound_session = session } }))
              _ u (save_model_state-Saved path a session w u k)
              λ _ t s. record {
                session = s.session;
                names = s.names;
                states = s.states;
                inboxes = s.inboxes;
                idle = s.idle;
              }
  where
    Q : Unit {0} → World → Type 0
    Q _ v = Saved path a w v
