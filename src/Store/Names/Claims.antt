-- ===== src/Store/Names/Claims.antt =====
-- store/store.go: a name is claimed at most once, and removed only by its holder.
use gangline.Prelude.{
  String, ◌≡◌, ◌≢◌, ◌⊎◌, inl, inr, Bool, true, false, Option, none, some, ◌==◌, arith, eq_iff,
  Bool-cases, ap, ◌∙◌, List, [], ◌∷◌,
}
use gangline.Store.World.{not_exist, name_taken, Result, ok, err, World, update, faulty, io}
use gangline.Store.Save.Atomic.{Untouched, Untouched-refl}
use gangline.Store.Names.{claim_name, resolve_name, remove_name, remove_link, remove_found}

-- What `ResolveName` finds out about a name, and that it changes nothing.
abbrev pub Resolved : String → World → Result String × World → Type 0
Resolved name w (ok got, v) = Untouched w v × (w.names name ≡ some got)
Resolved name w (err not_exist, v) = Untouched w v × (w.names name ≡ none)
Resolved name w (err _, v) = Untouched w v

pub resolve_name-Resolved : (name : String) (w : World) → Resolved name w (resolve_name name w)
unfolding resolve_name
resolve_name-Resolved name w = ground arith

-- The names of `v` are those of `w` but for one, and nothing else differs.
pub record Renamed (name : String) (to : Option String) (w v : World) : Type 0 where
  pub names : v.names ≡ update w.names name to
  pub states : v.states ≡ w.states
  pub inboxes : v.inboxes ≡ w.inboxes
  pub idle : v.idle ≡ w.idle

-- How `ClaimName` ends: it takes a free name, or finds it taken, or fails with no effect.
abbrev pub Claimed : String → String → World → Result (Unit {0}) × World → Type 0
Claimed name id w (ok _, v) = (w.names name ≡ none) × Renamed name (some id) w v
Claimed name id w (err name_taken, v) = Untouched w v × (w.names name ≢ none)
Claimed name id w (err not_exist, v) = ⊥
Claimed name id w (err _, v) = Untouched w v

-- `ClaimName` succeeds only on a name that is free, and then links it to the identity and changes
-- nothing else; it reports a taken name only if the name is taken; and whenever it fails, by any
-- fault or by a refusal, it changes nothing.
pub claim_name-Claimed : (name id : String) (w : World) → Claimed name id w (claim_name name id w)
unfolding claim_name
claim_name-Claimed name id w = ground arith

-- How `RemoveName` ends: it removes the name of its holder, or leaves every name as it is.
abbrev pub Removed : String → String → World → Result (Unit {0}) × World → Type 0
Removed name id w (ok _, v) =
    ((w.names name ≡ some id) × Renamed name none w v)
    ⊎ (Untouched w v × ((name ≡ "") ⊎ (w.names name ≢ some id)))
Removed name id w (err _, v) = Untouched w v

remove_link-Removed :
    (name id : String) (w v : World)
    → Untouched w v
    → w.names name ≡ some id
    → Removed name id w (remove_link name v)
unfolding remove_link io
remove_link-Removed name id w v h held = go v.faults
  where
    go :
        (fs : List Bool)
        → Removed name id w
            (faulty fs (λ u. (ok tt, record u { names = update u.names name none })) v)
    go [] = inl (
      held,
      record {
        names = ap (λ n. update n name none) h.names;
        states = h.states;
        inboxes = h.inboxes;
        idle = h.idle;
      },
    )
    go (false ∷ fs) = inl (
      held,
      record {
        names = ap (λ n. update n name none) h.names;
        states = h.states;
        inboxes = h.inboxes;
        idle = h.idle;
      },
    )
    go (true ∷ fs) = record {
      names = h.names;
      states = h.states;
      inboxes = h.inboxes;
      idle = h.idle;
    }

remove_found-Removed :
    (name id : String) (w : World) (r : Result String × World)
    → Resolved name w r
    → Removed name id w (remove_found name id r)
unfolding remove_found
remove_found-Removed name id w (ok got, v) h = elim (Bool-cases (got == id)) [
  | inl same ↦
      rw same (remove_link-Removed name id w v h.0 (h.1 ∙ ap some ((eq_iff got id).0 same)))
  | inr other ↦ rw other (inr (h.0, inr (λ e. ground (arith, eq_iff got id))))
]
remove_found-Removed name id w (err not_exist, v) h = inr (h.0, inr (λ e. cc))
remove_found-Removed name id w (err _, v) h = h

-- `RemoveName` removes a name only if it links to the given identity: another holder keeps it, and
-- a call that fails changes nothing.
pub remove_name-Removed : (name id : String) (w : World) → Removed name id w (remove_name name id w)
unfolding remove_name
remove_name-Removed name id w = elim (Bool-cases (name == "")) [
  | inl empty ↦ rw empty (inr (Untouched-refl w, inl ((eq_iff name "").0 empty)))
  | inr set ↦
      rw set (remove_found-Removed name id w (resolve_name name w) (resolve_name-Resolved name w))
]
