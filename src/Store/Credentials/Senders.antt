-- ===== src/Store/Credentials/Senders.antt =====
-- store/senders.go: the credentials of registered senders.
use text.Mathlib.Text.{starts_with}
use gangline.Prelude.{
  String, Bool, ◌&&◌, Option, none, some, List, [], ◌∷◌, ◌==◌, concat, if◌then◌else◌,
}
use gangline.Core.Types.{Sender}
use gangline.Store.Segment.{segment}
use gangline.Store.Names.{claim_name, remove_name, resolve_name}
use gangline.Store.World.{not_exist, update}
use gangline.Store.Credentials.{
  SenderRegistration, Vault, Answer, ok, denied, err, M, pure, deny, raise, on_team, reading, ◌>>=◌,
  ◌>>◌, handle, call, touch, outside_random, require,
}
use gangline.Store.Credentials.Outside.{or_clean}

-- IsSenderID
abbrev pub is_sender_id : String → Bool
is_sender_id id = starts_with id "sender-"

-- SenderCredential, the path of the key of an identity
abbrev pub sender_credential : String → M String
sender_credential id = require (segment id) >> (if is_sender_id id then pure id else deny)

abbrev pub set_key : String → Option String → Vault → Vault
set_key id token v = record v { keys = update v.keys id token }

abbrev pub set_sender : String → Option SenderRegistration → Vault → Vault
set_sender id r v = record v { senders = update v.senders id r }

abbrev pub found_sender : Option SenderRegistration → M SenderRegistration
found_sender none = raise not_exist
found_sender (some r) = pure r

abbrev pub if_registered : String → String → SenderRegistration → M SenderRegistration
if_registered id name r = if r.id == id && r.name == name then pure r else deny

-- ReadSender
unfoldable pub read_sender : String → M SenderRegistration
read_sender name = on_team (resolve_name name) >>= λ id.
    sender_credential id
    >> touch
    >> (reading (λ v. found_sender (v.senders id)) >>= if_registered id name)

-- ListSenders, over the claimed names
unfoldable pub list_senders : List String → M (List SenderRegistration)
list_senders [] = pure []
list_senders (name ∷ names) =
    let rest = list_senders names in
    on_team (resolve_name name) >>= λ id.
    if is_sender_id id then (read_sender name >>= λ r. rest >>= λ rs. pure (r ∷ rs)) else rest

-- os.RemoveAll of the directory of a sender, which may stop between its files
unfoldable pub remove_directory : String → M (Unit {0})
remove_directory id = call (set_key id none) >> call (set_sender id none)

module _ (hash : String → String) where
  abbrev pub add_named : String → String → String → M String
  add_named id name token =
      let r : SenderRegistration = record { id = id; name = name; credential_hash = hash token } in
      sender_credential id
      >> touch
      >> or_clean (remove_directory id) (
          call (set_key id (some token))
          >> call (set_sender id (some r))
          >> on_team (claim_name name id))
      >> touch
      >> pure id

  -- AddSender
  unfoldable pub add_sender : Bool → String → M String
  add_sender origin name =
      require origin
      >> touch
      >> (outside_random >>= λ token.
          outside_random >>= λ identity. add_named (concat "sender-" identity) name token)

  abbrev pub if_credential : String → SenderRegistration → M Sender
  if_credential credential r =
      if hash credential == r.credential_hash
      then pure (record {
        kind = "registered";
        name = r.name;
        hitch_id = r.id;
        host = "";
        peer_class = "";
      })
      else deny

  abbrev pub or_unauthorized : Answer SenderRegistration → M SenderRegistration
  or_unauthorized (ok r) = pure r
  or_unauthorized failed = deny

  -- AuthenticateSender, of a credential without the space around it
  unfoldable pub authenticate_sender : String → String → M Sender
  authenticate_sender name credential =
      handle (read_sender name) or_unauthorized >>= if_credential credential

abbrev pub if_claimed : Answer String → M String
if_claimed (ok id) = pure id
if_claimed (err not_exist) = deny
if_claimed denied = deny
if_claimed (err x) = raise x

-- RemoveSender
unfoldable pub remove_sender : Bool → String → M (Unit {0})
remove_sender origin name =
    require origin
    >> (handle (on_team (resolve_name name)) if_claimed >>= λ id.
        sender_credential id >> remove_directory id >> on_team (remove_name name id) >> touch)
