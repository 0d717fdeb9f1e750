-- ===== src/Store/Save/Bindings.antt =====
-- store/lock.go: the log has every native session that a saved state was bound to.
use gangline.Prelude.{
  String, ◌≡◌, ◌⊎◌, inl, inr, refl, ◌≢◌, Bool, false, Option, none, some, List, [], ◌∷◌, ◌==◌,
  arith, Bool-cases, eq_iff, eq_refl,
}
use gangline.Core.Types.{Agent, Binding, Event, Time}
use gangline.Store.World.{World, pure, update, Post}
use gangline.Store.World.Rules.{Post-io, Post-bind}
use gangline.Store.Save.{
  save, encode, unbound, bind, bind_if, load_bound, set_bound, read_state, save_model_state,
  binding_event, found, write_metadata, write_state,
}

abbrev BindsTo : Option Binding → String → Type 0
BindsTo none session = ⊥
BindsTo (some b) session = b.session_id ≡ session

-- The log has a `session_bound` event for the session.
abbrev pub Logged : List Event → String → Type 0
Logged [] session = ⊥
Logged (e ∷ log) session = BindsTo e.binding session ⊎ Logged log session

-- Every session that a state or the holder of the lock takes for bound is empty or in the log.
abbrev InLog : List Event → String → Type 0
InLog log session = (session ≡ "") ⊎ Logged log session

abbrev BoundInLog : List Event → Option String → Type 0
BoundInLog log none = Unit
BoundInLog log (some session) = InLog log session

abbrev pub StateInLog : List Event → Option Agent → Type 0
StateInLog log none = Unit
StateInLog log (some a) = InLog log a.native.bound_session

pub record Audited (w : World) : Type 0 where
  pub memory : BoundInLog w.log w.bound
  pub saved : (path : String) → StateInLog w.log (w.states path)

InLog-cons : (e : Event) (log : List Event) (s : String) → InLog log s → InLog (e ∷ log) s
InLog-cons e log s (inl empty) = inl empty
InLog-cons e log s (inr logged) = inr (inr logged)

BoundInLog-cons :
    (e : Event) (log : List Event) (o : Option String) → BoundInLog log o → BoundInLog (e ∷ log) o
BoundInLog-cons e log none h = tt
BoundInLog-cons e log (some s) h = InLog-cons e log s h

StateInLog-cons :
    (e : Event) (log : List Event) (o : Option Agent) → StateInLog log o → StateInLog (e ∷ log) o
StateInLog-cons e log none h = tt
StateInLog-cons e log (some a) h = InLog-cons e log a.native.bound_session h

Audited-append : (w : World) (e : Event) → Audited w → Audited (record w { log = e ∷ w.log })
Audited-append w e h = record {
  memory = BoundInLog-cons e w.log w.bound h.memory;
  saved = λ path. StateInLog-cons e w.log (w.states path) (h.saved path);
}

-- what `bind_if` and `load_bound` leave: an audited world whose log has the session
abbrev LogsResult : String → World → Type 0
LogsResult session w = Audited w × InLog w.log session

bind-LogsResult :
    (a : Agent) (previous : String) (now : Time) (w : World)
    → Audited w
    → Post (λ _ v. LogsResult a.native.session_id v) Audited (bind a previous now w)
unfolding bind
bind-LogsResult a previous now w h =
    Post-io (λ _ v. LogsResult a.native.session_id v) Audited _ w (λ gs. stop gs)
      λ gs. (
        Audited-append (record w { faults = gs }) (binding_event a previous now) (stop gs),
        inr (inl refl),
      )
  where
    stop : (gs : List Bool) → Audited (record w { faults = gs })
    stop gs = record { memory = h.memory; saved = h.saved }

-- The agent's session, if it reports one with its transcript, is the bound one.
abbrev IsBound : Agent → String → Type 0
IsBound a s = a.native.session_id ≢ "" → a.native.transcript ≢ "" → s ≡ a.native.session_id

abbrev BindsResult : Agent → String → World → Type 0
BindsResult a session w = LogsResult session w × IsBound a session

IsBound-of_test : (a : Agent) (s : String) → unbound a s ≡ false → IsBound a s
unfolding unbound
IsBound-of_test a s h reported written = ground (
  arith,
  eq_iff a.native.session_id "",
  eq_iff a.native.transcript "",
  eq_iff a.native.session_id s,
)

bind_if-BindsResult :
    (a : Agent) (bound : String) (now : Time) (w : World)
    → LogsResult bound w
    → Post (BindsResult a) Audited (bind_if a bound now w)
unfolding bind_if
bind_if-BindsResult a bound now w h = elim (Bool-cases (unbound a bound)) [
  | inl needed ↦ rw needed (
      Post-bind (λ _ v. LogsResult a.native.session_id v) (BindsResult a) Audited (bind a bound now)
        (λ _. pure a.native.session_id) w (bind-LogsResult a bound now w h.0)
        (λ _ v k. (k, λ _ _. refl)))
  | inr done ↦ rw done (h, IsBound-of_test a bound done)
]

set_bound-LogsResult :
    (session : String) (w : World)
    → LogsResult session w
    → Post (λ _ v. LogsResult session v) Audited (set_bound session w)
unfolding set_bound
set_bound-LogsResult session w h = (record { memory = h.1; saved = h.0.saved }, h.1)

read_state-Logs :
    (path : String) (w : World)
    → Audited w
    → Post (λ a v. LogsResult a.native.bound_session v) Audited (read_state path w)
unfolding read_state
read_state-Logs path w h =
    Post-io (λ (a : Agent) v. LogsResult a.native.bound_session v) Audited _ w
      (λ gs. record { memory = h.memory; saved = h.saved })
      λ gs.
        go (w.states path) (h.saved path) (record w { faults = gs })
          (record { memory = h.memory; saved = h.saved })
          (λ s k. (record { memory = h.memory; saved = h.saved }, k))
  where
    go :
        (o : Option Agent)
        → StateInLog w.log o
        → (v : World) → Audited v
        → ((s : String) → InLog w.log s → LogsResult s v)
        → Post (λ (a : Agent) v'. LogsResult a.native.bound_session v') Audited (found o v)
    go none h v hv k = hv
    go (some a) h v hv k = k a.native.bound_session h

load_bound-LogsResult :
    (o : Option String) (path : String) (now : Time) (w : World)
    → Audited w
    → BoundInLog w.log o
    → Post LogsResult Audited (load_bound o path now w)
unfolding load_bound
load_bound-LogsResult (some bound) path now w h k = (h, k)
load_bound-LogsResult none path now w h k =
    Post-bind (λ (a : Agent) v. LogsResult a.native.bound_session v) LogsResult Audited
      (read_state path) _ w (read_state-Logs path w h)
      λ saved v kv.
        Post-bind (BindsResult saved) LogsResult Audited
          (bind_if saved saved.native.bound_session now) _ v
          (bind_if-BindsResult saved saved.native.bound_session now v kv)
          λ bound u ku.
            Post-bind (λ _ t. LogsResult bound t) LogsResult Audited (set_bound bound) _ u
              (set_bound-LogsResult bound u ku.0) (λ _ t kt. kt)

-- the state that `Save` writes for the agent, bound to the session
abbrev pub saved_as : Agent → String → Agent
saved_as a session = encode (record a { native = record a.native { bound_session = session } })

-- The saved state is the agent's, bound to a logged session, which is its own if it reports one.
abbrev pub SavedBound : String → Agent → World → Type 0
SavedBound path a w =
    (session : String) × (w.states path ≡ some (saved_as a session))
    × InLog w.log session
    × IsBound a session

write_state-Audited :
    (path : String) (a : Agent) (session : String) (w : World)
    → LogsResult session w
    → Audited (record w { states = update w.states path (some (saved_as a session)) })
write_state-Audited path a session w h = record {
  memory = h.0.memory;
  saved = λ j. elim (Bool-cases (path == j)) [
    | inl same ↦ rw same (unfold encode in h.1)
    | inr other ↦ rw other (h.0.saved j)
  ];
}

save_model_state-SavedBound :
    (path : String) (a : Agent) (session : String) (w : World)
    → BindsResult a session w
    → Post
        (λ _ v. BindsResult a session v × SavedBound path a v)
        Audited
        (save_model_state path
          (record a { native = record a.native { bound_session = session } })
          w)
unfolding save_model_state
save_model_state-SavedBound path a session w h =
    Post-bind (λ _ v. BindsResult a session v)
      (λ _ v. BindsResult a session v × SavedBound path a v) Audited (write_metadata path b)
      (λ _. write_state path b) w
      (Post-io (λ _ v. BindsResult a session v) Audited _ w (λ gs. kept gs)
        (λ gs. ((record { memory = h.0.0.memory; saved = h.0.0.saved }, h.0.1), h.1)))
      λ _ v k.
        Post-io (λ _ u. BindsResult a session u × SavedBound path a u) Audited _ v
          (λ gs. record { memory = k.0.0.memory; saved = k.0.0.saved })
          λ gs.
            let written = write_state-Audited path a session v k.0 in
            (
              ((record { memory = written.memory; saved = written.saved }, k.0.1), k.1),
              (session, rw eq_refl, k.0.1, k.1),
            )
  where
    b : Agent
    b = record a { native = record a.native { bound_session = session } }

    kept : (gs : List Bool) → Audited (record w { faults = gs })
    kept gs = record { memory = h.0.0.memory; saved = h.0.0.saved }

-- Whatever call fails, and wherever, `Save` leaves every session that a saved state or the holder
-- of the lock takes for bound in the log. If it succeeds, the saved state is the agent's, and its
-- native session, if it is reported with its transcript, is bound and in the log.
pub save-SavedBound :
    (path : String) (a : Agent) (now : Time) (w : World)
    → Audited w
    → Post (λ _ v. Audited v × SavedBound path a v) Audited (save path a now w)
unfolding save
save-SavedBound path a now w h =
    Post-bind LogsResult Q Audited (load_bound w.bound path now) _ w
      (load_bound-LogsResult w.bound path now w h h.memory)
      λ previous v kv.
        Post-bind (BindsResult a) Q Audited (bind_if a previous now) _ v
          (bind_if-BindsResult a previous now v kv)
          λ session u ku.
            Post-bind (λ _ t. BindsResult a session t × SavedBound path a t) Q Audited
              (save_model_state path
                (record a { native = record a.native { bound_session = session } }))
              _ u (save_model_state-SavedBound path a session u ku)
              λ _ t kt. (record { memory = kt.0.0.1; saved = kt.0.0.0.saved }, kt.1)
  where
    Q : Unit {0} → World → Type 0
    Q _ v = Audited v × SavedBound path a v
