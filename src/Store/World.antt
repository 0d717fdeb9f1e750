-- ===== src/Store/World.antt =====
-- store/: the durable state of a team, and actions on it that can fail.
-- Each call of the operating system may fail with no effect, as the list `faults` decides; a crash
-- is such a failure after which nothing runs. A directory of files is a function from names.
pub mod Rules
use gangline.Prelude.{
  ℕ, String, ◌≡◌, refl, Bool, true, false, Option, none, some, List, [], ◌∷◌, ◌==◌, if◌then◌else◌,
}
use gangline.Core.Types.{Agent, Envelope, Event}

pub data Error : Type 0 where
  not_exist exist : Error  -- os.ErrNotExist, os.ErrExist
  fault : Error  -- any other error of the operating system
  name_taken envelope_queued : Error  -- ErrNameTaken, ErrEnvelopeQueued
  invalid : Error  -- an error that the store itself formats

pub data Result {ℓ} (A : Type ℓ) : Type ℓ where
  ok : A → Result A
  err : Error → Result A

pub record Inbox : Type 0 where
  pub new : String → Option Envelope
  pub cur : String → Option Envelope
  pub failed : String → Option Envelope

-- store/team_idle.go
pub record IdlePublication : Type 0 where
  pub recipient : String
  pub id : String

pub record IdleMember : Type 0 where
  pub id : String
  pub name : String
  pub generation : String
  pub session : String
  pub work : ℕ

pub record IdleNotice : Type 0 where
  pub envelope : Envelope
  pub generation : String
  pub session : String
  pub outcome : String

-- `work` is 0 where the map has no entry; `tracked` has the keys of the map.
pub record IdleState : Type 0 where
  pub work : String → ℕ
  pub tracked : List String
  pub pending : Option IdlePublication
  pub initialized : Bool
  pub lead : IdleMember
  pub members : List IdleMember
  pub armed : Bool
  pub notice : Option IdleNotice

-- store/model.go: `state` stands for the digest of the state bytes
pub record ModelMetadata : Type 0 where
  pub version : ℕ
  pub hitch_id : String
  pub generation : String
  pub session : String
  pub launch_token_hash : String
  pub configured_model : String
  pub configured_effort : String
  pub state : Agent
  pub observed_effort : String

pub record World : Type 0 where
  pub names : String → Option String  -- TeamPaths.Names, symbolic links
  pub states : String → Option Agent  -- agent.json of each hitch
  pub metadata : String → Option ModelMetadata  -- model-metadata.json of each hitch
  pub inboxes : String → Inbox
  pub idle : IdleState  -- idle.json
  pub log : List Event  -- log.jsonl, latest first
  pub bound : Option String  -- LockedAgent.bound, in the memory of the holder of the lock
  pub faults : List Bool

abbrev pub M : Type 0 → Type 0
M A = World → Result A × World

module _ {A : Type 0} where
  abbrev pub pure : A → M A
  pure a w = (ok a, w)

  abbrev pub raise : Error → M A
  raise x w = (err x, w)

  -- one call of the operating system, which the next fault may stop
  abbrev pub faulty : List Bool → M A → M A
  faulty [] act w = act w
  faulty (true ∷ fs) act w = (err fault, record w { faults = fs })
  faulty (false ∷ fs) act w = act (record w { faults = fs })

  unfoldable pub io : M A → M A
  io act w = faulty w.faults act w

  -- `if errors.Is(err, …)`: the handler sees the error
  abbrev pub catch : Result A × World → (Error → M A) → Result A × World
  catch (ok a, w) h = (ok a, w)
  catch (err x, w) h = h x w

module _ {A B : Type 0} where
  infixl 5 ◌>>=◌ ◌>>◌
  abbrev pub continue : Result A × World → (A → M B) → Result B × World
  continue (ok a, w) f = f a w
  continue (err x, w) f = (err x, w)

  abbrev pub ◌>>=◌ : M A → (A → M B) → M B
  ◌>>=◌ m f w = continue (m w) f

  abbrev pub ◌>>◌ : M A → M B → M B
  m >> n = m >>= λ _. n

-- a file, or an entry of a map, written anew
abbrev pub update {ℓ} : {V : Type ℓ} → (String → V) → String → V → String → V
update f k v j = if k == j then v else f j

-- What an action leaves: `Q` if it returns, `E` if it fails or stops.
abbrev pub Post {ℓ} :
    {A : Type 0} → (A → World → Type ℓ) → (World → Type ℓ) → Result A × World → Type ℓ
Post Q E (ok a, w) = Q a w
Post Q E (err x, w) = E w
