-- ===== src/Store/Names.antt =====
-- store/store.go: the names of a team, each a symbolic link to a hitch identity, and renames.
-- A link is made or removed by one call of the operating system. The names are assumed to be
-- valid path segments where `segment` accepts them.
pub mod Claims
pub mod Rename
use gangline.Prelude.{
  ℕ, String, ◌≡◌, ◌≢◌, ◌⊎◌, inl, inr, refl, Bool, true, false, not, ◌&&◌, ◌||◌, Option, none, some,
  ◌==◌, is_empty, if◌then◌else◌, arith,
}
use gangline.Core.Types.{Agent, Time}
use gangline.Store.Segment.{segment}
use gangline.Store.World.{
  Error, not_exist, exist, fault, name_taken, invalid, Result, ok, err, World, M, pure, raise, io,
  catch, ◌>>=◌, ◌>>◌, update, continue,
}
use gangline.Store.Save.{save}

-- segment, as an action
unfoldable pub check : String → M (Unit {0})
check value = if segment value then pure tt else raise invalid

-- os.Symlink
abbrev link : Option String → String → String → M (Unit {0})
link none name id w = (ok tt, record w { names = update w.names name (some id) })
link (some _) name id w = (err exist, w)

symlink : String → String → M (Unit {0})
symlink name id = io (λ w. link (w.names name) name id w)

abbrev taken : Error → M (Unit {0})
taken exist = raise name_taken
taken x = raise x

unfoldable pub claim_name : String → String → M (Unit {0})
unfolding check symlink io
claim_name name id w = (do check name; check id; λ v. catch (symlink name id v) taken) w

-- os.Readlink
abbrev target : Option String → M String
target none = raise not_exist
target (some id) = pure id

readlink : String → M String
readlink name = io (λ w. target (w.names name) w)

unfoldable pub resolve_name : String → M String
unfolding check readlink io
resolve_name name = do check name; id ← readlink name; check id; pure id

-- os.Remove
remove_link : String → M (Unit {0})
remove_link name = io (λ w. (ok tt, record w { names = update w.names name none }))

-- the end of `RemoveName`, from what `ResolveName` gave
remove_found : String → String → Result String × World → Result (Unit {0}) × World
remove_found name id (ok got, w) = if not (got == id) then pure tt w else remove_link name w
remove_found name id (err not_exist, w) = (ok tt, w)
remove_found name id (err x, w) = (err x, w)

unfoldable pub remove_name : String → String → M (Unit {0})
unfolding remove_link remove_found io
remove_name name id w =
    if is_empty name then (ok tt, w) else remove_found name id (resolve_name name w)

-- The agent with no rename to finish.
abbrev pub settled : Agent → Agent
settled a = record a { rename_from = ""; rename_to = "" }

abbrev pub with_name : Agent → String → Agent
with_name a name = record a { name = name }

-- if the new name is free, claim it: the identity that holds it then
claim_free : String → String → Result String × World → Result String × World
claim_free to id (err not_exist, w) = continue (claim_name to id w) (λ _. pure id)
claim_free to id r = r

give_up : Agent → Time → M Agent
give_up a now = do save a.id (settled a) now; raise name_taken

complete : Agent → Time → M Agent
complete a now = do
  save a.id (with_name a a.rename_to) now
  remove_name a.rename_from a.id
  save a.id (settled (with_name a a.rename_to)) now
  pure (settled (with_name a a.rename_to))

held_by : Agent → Time → Result String × World → Result Agent × World
held_by a now (ok id, w) = if not (id == a.id) then give_up a now w else complete a now w
held_by a now (err name_taken, w) = give_up a now w
held_by a now (err x, w) = (err x, w)

-- `FinishRename`, which returns the agent that it leaves in memory
unfoldable pub finish_rename : Agent → Time → M Agent
unfolding claim_free give_up complete held_by
finish_rename a now w =
    if is_empty a.rename_to
    then (ok a, w)
    else held_by a now (claim_free a.rename_to a.id (resolve_name a.rename_to w))
