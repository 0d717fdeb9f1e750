-- ===== src/Store/Save.antt =====
-- store/lock.go and store/model.go: how a locked agent is saved.
-- `LockedAgent.bound` is the field `bound` of the world; time.Now() is the argument `now`.
pub mod Bindings
pub mod Atomic
use gangline.Prelude.{
  ℕ, String, ◌≡◌, ◌⊎◌, inl, inr, refl, Bool, true, false, not, ◌&&◌, ◌||◌, Option, none, some, List,
  [], ◌∷◌, ◌==◌, is_empty, if◌then◌else◌, arith,
}
use gangline.Core.Types.{Agent, Binding, Event, EventType, Activity, Reading, NativeState, Time}
use gangline.Store.World.{
  Error, not_exist, fault, Result, ok, err, World, ModelMetadata, M, pure, raise, io, ◌>>=◌, ◌>>◌,
  update, continue, Post,
}

-- what JSON keeps of a reading and of an agent: the fields tagged `json:"-"` are lost
abbrev encode_reading : Reading → Reading
encode_reading r = record r { effort = "" }

unfoldable pub encode : Agent → Agent
encode a = record a {
  configured_model = "";
  configured_effort = "";
  native = record a.native {
    context = encode_reading a.native.context;
    limits = encode_reading a.native.limits;
    effort = "";
  };
}

unbound : Agent → String → Bool
unbound a bound =
    not (is_empty a.native.session_id)
    && not (is_empty a.native.transcript)
    && not (a.native.session_id == bound)

abbrev pub binding_event : Agent → String → Time → Event
binding_event a previous now = record {
  source = "";
  type = EventType.other "session_bound";
  at = now;
  hitch_id = a.id;
  name = a.name;
  to = "";
  pane = "";
  id = "";
  reason = "";
  status = "";
  activity = Activity.other "";
  deadline = 0;
  envelope = none;
  compaction = none;
  readings = [];
  native_event = "";
  fingerprint = "";
  basis = none;
  binding = some (record {
    session_id = a.native.session_id;
    previous_session_id = previous;
    collar = a.collar;
    hitched_by = a.hitched_by;
  });
  actor = none;
  command = "";
}

-- appendEvent
append_event : Event → M (Unit {0})
append_event e = io (λ w. (ok tt, record w { log = e ∷ w.log }))

-- readJSON of agent.json, as `Save` reads it
abbrev found : Option Agent → M Agent
found none = raise not_exist
found (some a) = pure a

read_state : String → M Agent
read_state id = io (λ w. found (w.states id) w)

bind : Agent → String → Time → M (Unit {0})
unfolding append_event
bind a previous now = append_event (binding_event a previous now)

abbrev metadata_of : Agent → ModelMetadata
metadata_of a = record {
  version = 1;
  hitch_id = a.id;
  generation = a.registration.generation;
  session = a.registration.session;
  launch_token_hash = a.registration.token_hash;
  configured_model = a.configured_model;
  configured_effort = a.configured_effort;
  state = encode a;
  observed_effort = a.native.effort;
}

write_metadata : String → Agent → M (Unit {0})
write_metadata path a =
    io (λ w. (ok tt, record w { metadata = update w.metadata path (some (metadata_of a)) }))

write_state : String → Agent → M (Unit {0})
write_state path a = io (λ w. (ok tt, record w { states = update w.states path (some (encode a)) }))

-- saveModelState: the side record first, then the state itself
save_model_state : String → Agent → M (Unit {0})
unfolding write_metadata write_state
save_model_state path a = do write_metadata path a; write_state path a

-- if unbound(a, bound) { l.bind(a, bound) }, and the session that is bound then
bind_if : Agent → String → Time → M String
bind_if a bound now =
    if unbound a bound then (do bind a bound now; pure a.native.session_id) else pure bound

set_bound : String → M (Unit {0})
set_bound session w = (ok tt, record w { bound = some session })

-- if l.bound == nil { … }: the session that the saved state was bound to, bound now if it never was
load_bound : Option String → String → Time → M String
load_bound (some bound) path now = pure bound
load_bound none path now = do
  saved ← read_state path
  bound ← bind_if saved saved.native.bound_session now
  set_bound bound
  pure bound

-- `Save`, for the agent whose files are under `path`
unfoldable pub save : String → Agent → Time → M (Unit {0})
unfolding encode unbound append_event read_state bind save_model_state bind_if set_bound load_bound
    io
save path a now w =
    (do
      previous ← load_bound w.bound path now
      session ← bind_if a previous now
      save_model_state path (record a { native = record a.native { bound_session = session } })
      set_bound session)
      w
