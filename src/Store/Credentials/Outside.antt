-- ===== src/Store/Credentials/Outside.antt =====
-- store/outside.go: the mailboxes and the bearer credentials of principals outside the team.
use gangline.Prelude.{
  String, Bool, false, ◌&&◌, ◌||◌, Option, none, some, List, [], ◌∷◌, ◌++◌, ◌==◌, concat,
  if◌then◌else◌,
}
use text.Mathlib.Text.{starts_with}
use gangline.Core.Types.{Envelope}
use gangline.Store.Segment.{segment}
use gangline.Store.Names.{claim_name, remove_name, resolve_name}
use gangline.Store.World.{not_exist, exist, name_taken, envelope_queued}
use gangline.Store.Credentials.{
  OutsideState, Answer, ok, denied, err, M, pure, deny, raise, on_team, reading, ◌>>=◌, ◌>>◌,
  handle, call, touch, outside_random, set_outside, set_file, clear_records, require, outside_state,
  resolve_outside,
}

-- the failure of an action is what follows it on a failure: `errors.Join`, or a deferred function
abbrev pub cleaned : {A : Type 0} → M (Unit {0}) → Answer A → M A
cleaned clean (ok x) = pure x
cleaned clean denied = λ v. (denied, (clean v).1)
cleaned clean (err x) = λ v. (err x, (clean v).1)

abbrev pub or_clean : {A : Type 0} → M (Unit {0}) → M A → M A
or_clean clean m = handle m (cleaned clean)

-- os.Remove of a credential file
abbrev pub remove_file : String → M (Unit {0})
remove_file path = call (set_file path none)

-- os.OpenFile with O_EXCL
abbrev pub if_absent : String → Option String → M (Unit {0})
if_absent path none = call (set_file path (some ""))
if_absent path (some _) = raise exist

abbrev pub with_credential : OutsideState → String → String → OutsideState
with_credential s hash generation = record s { credential_hash = hash; generation = generation }

module _ (hash : String → String) where
  -- the write, the sync and the close
  abbrev pub write_credential : OutsideState → String → String → String → M OutsideState
  write_credential s path token generation =
      call (set_file path (some token))
      >> touch
      >> touch
      >> pure (with_credential s (hash token) generation)

  abbrev pub open_credential : OutsideState → String → String → String → M OutsideState
  open_credential s path token generation =
      reading (λ v. if_absent path (v.files path))
      >> or_clean (remove_file path) (write_credential s path token generation)

  -- issueOutsideCredential
  unfoldable pub issue_credential : OutsideState → String → M OutsideState
  issue_credential s path =
      require (starts_with path "/")
      >> (outside_random >>= λ token.
          outside_random >>= λ generation. open_credential s path token generation)

  -- atomicJSON of a registration, after which an error removes the credential file
  abbrev pub write_state : OutsideState → M (Unit {0})
  write_state s = call (set_outside s.id (some s))

  abbrev pub if_free : {A : Type 0} → M A → Answer String → M A
  if_free m (err not_exist) = m
  if_free m (ok _) = raise name_taken
  if_free m denied = deny
  if_free m (err x) = raise x

  abbrev pub new_state : String → String → OutsideState
  new_state id name = record {
    id = concat "outside-" id;
    name = name;
    credential_hash = "";
    generation = "";
    pending = [];
  }

  -- `errors.Join` of removals: they go on, and an error of any is the result
  abbrev pub on_with : M (Unit {0}) → Answer (Unit {0}) → M (Unit {0})
  on_with m (ok x) = m
  on_with m failed = λ v. (failed, (m v).1)

  abbrev pub and_also : M (Unit {0}) → M (Unit {0}) → M (Unit {0})
  and_also m n = handle m (on_with n)

  abbrev pub publish_state : String → OutsideState → M OutsideState
  publish_state path s =
      or_clean (remove_file path) (write_state s)
      >> or_clean (and_also (call (set_outside s.id none)) (remove_file path))
          (on_team (claim_name s.name s.id))
      >> touch
      >> pure s

  abbrev pub register_free : String → String → M OutsideState
  register_free name path = outside_random >>= λ id.
      touch >> (issue_credential (new_state id name) path >>= publish_state path)

  -- RegisterOutside, where `origin` says whether the origin of the credential is valid; the lock, and `ReadTeam`
  unfoldable pub register_outside : Bool → String → String → M OutsideState
  register_outside origin name path =
      require origin
      >> touch
      >> require (segment name)
      >> touch
      >> handle (on_team (resolve_name name)) (if_free (register_free name path))

  abbrev pub rotate_state : String → OutsideState → M (Unit {0})
  rotate_state path s =
      issue_credential s path >>= λ next. or_clean (remove_file path) (write_state next) >> touch

  -- RotateOutside
  unfoldable pub rotate_outside : Bool → String → String → M (Unit {0})
  rotate_outside origin name path =
      require origin
      >> touch
      >> (resolve_outside name >>= λ r. outside_state r.id >>= rotate_state path)

  abbrev pub remove_registration : OutsideState → M (Unit {0})
  remove_registration r =
      on_team (remove_name r.name r.id)
      >> and_also touch (and_also (call (clear_records r.id)) (call (set_outside r.id none)))

  -- RemoveOutside
  unfoldable pub remove_outside : Bool → String → M (Unit {0})
  remove_outside origin name =
      touch >> require origin >> (resolve_outside name >>= remove_registration)

  abbrev pub or_denied : Answer OutsideState → M OutsideState
  or_denied (ok s) = pure s
  or_denied denied = deny
  or_denied (err not_exist) = deny
  or_denied (err x) = raise x

  abbrev pub if_current : String → OutsideState → M OutsideState
  if_current generation s = if s.generation == generation then pure s else deny

  -- an identity that has no registration, or one that its name does not resolve to, is denied
  abbrev pub known : String → M OutsideState
  known id = handle (outside_state id) or_denied

  -- ResolveOutsidePrincipal, of an identity and a generation
  unfoldable pub resolve_principal : String → String → M OutsideState
  resolve_principal id generation = known id >>= if_current generation

  abbrev pub if_named : String → OutsideState → M OutsideState
  if_named name s = if s.name == name then pure s else deny

  -- WithOutside, up to the callback: the registration is read once more
  unfoldable pub with_outside : String → String → String → M OutsideState
  with_outside id name generation =
      touch >> (resolve_principal id generation >>= if_named name >>= λ s. outside_state s.id)

  -- ReadOutsidePending, of a principal
  unfoldable pub read_pending : String → String → String → M (List Envelope)
  read_pending id name generation = known id >>= λ s.
      if s.name == name && s.generation == generation then pure s.pending else deny

  abbrev pub has_id : String → List String → Bool
  has_id id [] = false
  has_id id (x ∷ xs) = x == id || has_id id xs

  unfoldable pub retained : List String → List Envelope → List Envelope
  retained ids [] = []
  retained ids (e ∷ es) = let rest = retained ids es in if has_id e.id ids then rest else e ∷ rest

  -- OutsideMailbox.Ack within WithOutside; the failures of the log are left out of the mailbox
  unfoldable pub acknowledge : String → String → String → List String → M (Unit {0})
  acknowledge id name generation ids = with_outside id name generation >>= λ s.
      write_state (record s { pending = retained ids s.pending }) >> touch

  abbrev pub is_pending : String → List Envelope → Bool
  is_pending id [] = false
  is_pending id (e ∷ es) = e.id == id || is_pending id es

  abbrev pub queue_on : Envelope → OutsideState → M (Unit {0})
  queue_on e s =
      if is_pending e.id s.pending
      then raise envelope_queued
      else write_state (record s { pending = s.pending ++ e ∷ [] }) >> touch

  -- QueueOutside
  unfoldable pub queue_outside : String → Envelope → M (Unit {0})
  queue_outside name e =
      touch
      >> (resolve_outside name >>= λ r.
          require (e.recipient == r.id && e.to == r.name) >> (outside_state r.id >>= queue_on e))

  abbrev pub skip : {A : Type 0} → M A → (OutsideState → M A) → Answer OutsideState → M A
  skip rest f (ok s) = f s
  skip rest f denied = rest
  skip rest f (err not_exist) = rest
  skip rest f (err x) = raise x

  -- ListOutside, over the names of the files in the directory, before its sort
  unfoldable pub list_outside : List String → M (List OutsideState)
  list_outside [] = pure []
  list_outside (id ∷ ids) =
      let rest = list_outside ids in
      handle (outside_state id) (skip rest (λ s. rest >>= λ ss. pure (s ∷ ss)))

  abbrev pub if_matches : String → M OutsideState → OutsideState → M OutsideState
  if_matches token rest s = if hash token == s.credential_hash then pure s else rest

  -- the loop of AuthenticateOutside
  unfoldable pub first_match : String → List OutsideState → M OutsideState
  first_match token [] = deny
  first_match token (r ∷ rs) =
      let rest = first_match token rs in
      handle (outside_state r.id) (skip rest (if_matches token rest))

  -- AuthenticateOutside
  unfoldable pub authenticate_outside :
      (List OutsideState → List OutsideState) → List String → String → M OutsideState
  authenticate_outside sort ids token =
      touch >> (list_outside ids >>= λ rs. first_match token (sort rs))
