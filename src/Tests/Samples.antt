-- ===== src/Tests/Samples.antt =====
-- An agent, its events and a team, as inputs.
use gangline.Prelude.{◌+◌, String, Bool, false, none, some, List, [], ◌==◌, if◌then◌else◌}
use gangline.Core.Types.{
  Float64, Status, Activity, Sender, Compaction, CompactionStatus, ProcessIdentity, Reading,
  NativeState, Agent, Envelope, EventType, Event, Time,
}
use gangline.Store.World.{Inbox, IdleState, IdleMember, World}

abbrev zero_float : Float64
zero_float = record { bits = 0 }

abbrev no_process : ProcessIdentity
no_process = record {
  namespace = "";
  pid = 0;
  started = "";
  version = 0;
  unique_id = 0;
  boot_id = "";
}

abbrev no_reading : Reading
no_reading = record {
  session_id = "";
  source_offset = 0;
  usage = none;
  kind = "";
  source = "";
  native_event = "";
  at = none;
  status = "";
  reason = "";
  turn_id = "";
  model = "";
  used = none;
  limit = none;
  percent = none;
  limits = [];
  effort = "";
}

abbrev native : NativeState
native = record {
  hook_sequence = 0;
  hook_at = 0;
  hook_kind = "";
  session_id = "s1";
  bound_session = "";
  turn_id = "";
  transcript = "t1";
  turn_failure = "";
  failed_turn = "";
  last_error_at = 0;
  last_error = "";
  offset = 0;
  submitted_at = 0;
  finished_at = 0;
  compacted_at = 0;
  confirmed_compacted_at = 0;
  context = no_reading;
  limits = no_reading;
  model = "";
  effort = "";
  startup_session_id = "";
  startup_turn_id = "";
  startup_failure_noticed = "";
}

abbrev nobody : Sender
nobody = record { kind = ""; name = ""; hitch_id = ""; host = ""; peer_class = "" }

abbrev pub agent : Agent
agent = record {
  id = "h1";
  name = "ada";
  collar = "claude";
  configured_model = "";
  configured_effort = "";
  clear = none;
  rehitch = none;
  role = "";
  hitched_by = "";
  directory = "/work";
  pane = "";
  status = Status.starting;
  activity = Activity.unknown;
  created_at = 1;
  changed_at = 1;
  boot_deadline = 50;
  interrupt_deadline = 0;
  interrupt_at = 0;
  drop_deadline = 0;
  evidence = "";
  status_probe_at = 0;
  screen_fingerprint = "";
  screen_since = 0;
  input_outage = none;
  input = none;
  compaction = none;
  capacity = record {
    fingerprint = "";
    evidence = "";
    deadline = 0;
    next_at = 0;
    attempts = 0;
    submitted = false;
  };
  native = native;
  native_title = none;
  context_band_thresholds = none;
  context_bands = record {
    model = "";
    percent = zero_float;
    compacted_at = 0;
    sequence = 0;
    discard_queued = false;
    pending = [];
  };
  registration = record {
    generation = "g1";
    session = "team";
    token_hash = "";
    launch_command = "";
    server = no_process;
    held = false;
  };
  process = no_process;
  teardown = [];
  rename_from = "";
  rename_to = "";
  last_accepted = "";
  last_delivered = "";
  last_failed = "";
  cleanup = none;
  curfew_notice_deadline = 0;
  startup_prompt_noticed_at = 0;
}

abbrev pub request : Compaction
request = record {
  id = "c1";
  resume = record { text = "go on" };
  resume_from = nobody;
  requester = nobody;
  started_at = 10;
  deadline = 90;
  status = CompactionStatus.queued;
  continuation = false;
  resume_token = "";
  resume_admitted = false;
  completed_at = 0;
  refusal_before = 0;
  reason = "";
  recovered = false;
}

-- an event of the agent at a time, for the identity `id`
abbrev pub event : EventType → Time → String → Event
event t at id = record {
  source = "";
  type = t;
  at = at;
  hitch_id = "h1";
  name = "ada";
  to = "";
  pane = "%1";
  id = id;
  reason = "why";
  status = "";
  activity = Activity.idle;
  deadline = at + 60;
  envelope = none;
  compaction = none;
  readings = [];
  native_event = "";
  fingerprint = "f1";
  basis = none;
  binding = none;
  actor = none;
  command = "";
}

abbrev empty_inbox : Inbox
empty_inbox = record { new = λ id. none; cur = λ id. none; failed = λ id. none }

abbrev no_member : IdleMember
no_member = record { id = ""; name = ""; generation = ""; session = ""; work = 0 }

abbrev pub no_idle : IdleState
no_idle = record {
  work = λ id. 0;
  tracked = [];
  pending = none;
  initialized = false;
  lead = no_member;
  members = [];
  armed = false;
  notice = none;
}

abbrev pub letter : Envelope
letter = record {
  id = "clear-1";
  token = "token";
  from = nobody;
  to = "ada";
  recipient = "h1";
  message = record { text = "go on" };
  context_stamp = none;
  crossed = "";
  startup = none;
  paste_only = none;
  purpose = "";
  created_at = 5;
  measured_at = none;
  not_before = 0;
  not_after = 0;
  outcome = "";
  reason = "";
  witnessed = "";
}

-- a team with the agent alone, whose calls fail as `faults` says
abbrev pub team : List Bool → World
team faults = record {
  names = λ name. if name == "ada" then some "h1" else none;
  states = λ id. if id == "h1" then some agent else none;
  metadata = λ id. none;
  inboxes = λ id. empty_inbox;
  idle = no_idle;
  log = [];
  bound = none;
  faults = faults;
}
