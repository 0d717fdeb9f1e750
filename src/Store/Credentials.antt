-- ===== src/Store/Credentials.antt =====
-- store/outside.go and store/senders.go: the files of registrations and credentials, and actions on them.
-- The names of the team are those of Store/World, and so are the faults: each call of the operating system may fail
-- with no effect. What crypto/rand gives next, in hexadecimal, is the list `draws`. The origin of a credential is only
-- logged and shown, so the field `created` and the texts of the log are left out. A credential hash is hexadecimal, a
-- byte for each character.
pub mod Outside
pub mod Records
pub mod Senders
pub mod Rules
pub mod Runs
pub mod Kept
pub mod Revoked
pub mod Rotated
pub mod Mailbox
pub mod Ends
pub mod Vacated
pub mod Cleared
use Prim.Native.String.{len}
use text.Mathlib.Text.{starts_with}
use gangline.Prelude.{
  ℕ, String, Bool, true, false, not, ◌&&◌, ◌||◌, Option, none, some, List, [], ◌∷◌, ◌++◌, ◌==◌, leb,
  is_empty, is_some, concat, if◌then◌else◌,
}
use gangline.Core.Types.{Envelope, Sender}
use gangline.Store.Segment.{segment}
use gangline.Store.Names.{claim_name, remove_name, resolve_name}
use gangline.Store.World as Disk
use gangline.Store.World.{
  Error, World, not_exist, exist, fault, name_taken, envelope_queued, invalid, update,
}

-- outsideState, whose first fields are OutsideRegistration
pub record OutsideState : Type 0 where
  pub id : String
  pub name : String
  pub credential_hash : String
  pub generation : String
  pub pending : List Envelope

-- SenderRegistration
pub record SenderRegistration : Type 0 where
  pub id : String
  pub name : String
  pub credential_hash : String

pub record Vault : Type 0 where
  pub team : World
  pub outside : String → Option OutsideState  -- outside/<id>.json
  pub keys : String → Option String  -- senders/<id>/key
  pub senders : String → Option SenderRegistration  -- senders/<id>/sender.json
  pub files : String → Option String  -- the credential files of outside principals, less the end of the line
  pub records : String → String → Option String  -- outside-data/<id>/<hash of the key>.json
  pub draws : List String

-- how an action ends: `denied` is ErrOutsideUnauthorized or ErrSenderUnauthorized
pub data Answer (A : Type 0) : Type 0 where
  ok : A → Answer A
  denied : Answer A
  err : Error → Answer A

abbrev pub M : Type 0 → Type 0
M A = Vault → Answer A × Vault

module _ {A : Type 0} where
  abbrev pub pure : A → M A
  pure x v = (ok x, v)

  abbrev pub deny : M A
  deny v = (denied, v)

  abbrev pub raise : Error → M A
  raise x v = (err x, v)

  abbrev pub on_vault : Vault → Disk.Result A × World → Answer A × Vault
  on_vault v (Disk.ok x, w) = (ok x, record v { team = w })
  on_vault v (Disk.err x, w) = (err x, record v { team = w })

  -- an action on the names of the team
  unfoldable pub on_team : Disk.M A → M A
  on_team m v = on_vault v (m v.team)

  abbrev pub reading : (Vault → M A) → M A
  reading f v = f v v

module _ {A B : Type 0} where
  infixl 5 ◌>>=◌ ◌>>◌
  abbrev pub continue : Answer A × Vault → (A → M B) → Answer B × Vault
  continue (ok x, v) f = f x v
  continue (denied, v) f = (denied, v)
  continue (err x, v) f = (err x, v)

  unfoldable pub ◌>>=◌ : M A → (A → M B) → M B
  ◌>>=◌ m f v = continue (m v) f

  abbrev pub ◌>>◌ : M A → M B → M B
  m >> n = m >>= λ _. n

  -- what a caller does about the end of an action, an error included
  abbrev pub handled : Answer A × Vault → (Answer A → M B) → Answer B × Vault
  handled (x, v) f = f x v

  unfoldable pub handle : M A → (Answer A → M B) → M B
  handle m f v = handled (m v) f

-- one call, which changes nothing but as `change` says
unfoldable pub call : (Vault → Vault) → M (Unit {0})
call change = on_team (Disk.io (Disk.pure tt)) >> λ v. (ok tt, change v)

abbrev pub touch : M (Unit {0})
touch = call (λ v. v)

abbrev pub take_draw : List String → M String
take_draw [] v = (err fault, v)
take_draw (x ∷ xs) v = (ok x, record v { draws = xs })

-- outsideRandom
unfoldable pub outside_random : M String
outside_random = reading λ v. take_draw v.draws

abbrev pub set_outside : String → Option OutsideState → Vault → Vault
set_outside id s v = record v { outside = update v.outside id s }

abbrev pub set_file : String → Option String → Vault → Vault
set_file path token v = record v { files = update v.files path token }

-- the JSON of a value is a text
abbrev pub set_record : String → String → Option String → Vault → Vault
set_record id key value v = record v {
  records = update v.records id (update (v.records id) key value);
}

abbrev pub clear_records : String → Vault → Vault
clear_records id v = record v { records = update v.records id (λ key. none) }

abbrev pub require : Bool → M (Unit {0})
require b = if b then pure tt else raise invalid

-- what `readJSON` reads of a registration
abbrev pub found : Option OutsideState → M OutsideState
found none = raise not_exist
found (some s) = pure s

abbrev pub is_valid : String → OutsideState → Bool
is_valid id s =
    s.id == id
    && not (is_empty s.name)
    && not (is_empty s.generation)
    && leb (len s.credential_hash) 64
    && leb 64 (len s.credential_hash)

abbrev pub unless_renamed : String → OutsideState → String → M OutsideState
unless_renamed id s current = if current == id then pure s else deny

abbrev pub verified : String → OutsideState → M OutsideState
verified id s = require (is_valid id s) >> (on_team (resolve_name s.name) >>= unless_renamed id s)

-- outsideState, the function
unfoldable pub outside_state : String → M OutsideState
outside_state id =
    require (segment id) >> touch >> (reading (λ v. found (v.outside id)) >>= verified id)

abbrev pub if_outside : String → M OutsideState
if_outside id = if starts_with id "outside-" then outside_state id else raise not_exist

-- ResolveOutside
unfoldable pub resolve_outside : String → M OutsideState
resolve_outside name = on_team (resolve_name name) >>= if_outside
