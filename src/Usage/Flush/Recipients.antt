-- ===== src/Usage/Flush/Recipients.antt =====
-- cmd/gang/usage_state.go: the agents that a wake can be sent to are active.
use mathlib.Core.Path.{subst}
use gangline.Prelude.{
  String, ◌≡◌, inl, inr, refl, sym, ap, ◌∙◌, true, ◌&&◌, none, some, List, [], ◌∷◌, ◌==◌, is_some,
  arith, eq_iff, eq_refl, Bool-cases, Option-cases, All, by_test, some_injective,
}
use gangline.Core.Types.{Agent}
use gangline.Idle.{is_active, is_lead}
use gangline.Usage.Flush.{active_agent, active_leads, single, current_lead}

pub active_agent-id :
    (agents : List Agent) (id : String) (a : Agent) → active_agent agents id ≡ some a → a.id ≡ id
unfolding active_agent
active_agent-id [] id a found = cc
active_agent-id (x ∷ agents) id a found = elim (Option-cases (active_agent agents id)) [
  | inr (y, later) ↦ active_agent-id agents id a (later ∙ rw later at found)
  | inl missing ↦ elim (Bool-cases (is_active x.status && x.id == id)) [
    | inl this ↦
        ap (λ z. z.id) (sym (some_injective x a (rw (missing, this) at found)))
        ∙ (eq_iff x.id id).0 (ground (arith, this))
    | inr other ↦ absurd (not_none a (rw (missing, other) at found))
  ]
]
  where
    not_none : (a : Agent) → none ≡ some a → ⊥
    not_none a e = cc

active_agent-active :
    (agents : List Agent) (a : Agent)
    → is_active a.status ≡ true
    → is_some (active_agent (a ∷ agents) a.id) ≡ true
unfolding active_agent
active_agent-active agents a active = elim (Bool-cases (is_some (active_agent agents a.id))) [
  | inl later ↦ rw later later
  | inr missing ↦ rw (missing, active, eq_refl a.id) refl
]

active_agent-later :
    (agents : List Agent) (a : Agent) (id : String)
    → is_some (active_agent agents id) ≡ true
    → is_some (active_agent (a ∷ agents) id) ≡ true
unfolding active_agent
active_agent-later agents a id later = rw later later

later-All :
    (agents : List Agent) (a : Agent) (xs : List Agent)
    → All (λ x. is_some (active_agent agents x.id) ≡ true) xs
    → All (λ x. is_some (active_agent (a ∷ agents) x.id) ≡ true) xs
later-All agents a [] h = tt
later-All agents a (x ∷ xs) (h, t) = (active_agent-later agents a x.id h, later-All agents a xs t)

active_leads-active :
    (agents : List Agent)
    → All (λ x. is_some (active_agent agents x.id) ≡ true) (active_leads agents)
unfolding active_leads
active_leads-active [] = tt
active_leads-active (a ∷ agents) =
    let rest = later-All agents a (active_leads agents) (active_leads-active agents) in
    by_test (All (λ x. is_some (active_agent (a ∷ agents) x.id) ≡ true))
      (is_active a.status && is_lead a) (a ∷ active_leads agents) (active_leads agents)
      (λ lead. (active_agent-active agents a (ground (arith, lead)), rest)) (λ _. rest)

single-all :
    (P : Agent → Type 0) (xs : List Agent) (l : Agent) → All P xs → single xs ≡ some l → P l
single-all P [] l h e = cc
single-all P (x ∷ []) l (h, t) e = subst P (some_injective x l e) h
single-all P (x ∷ y ∷ xs) l h e = cc

pub current_lead-active :
    (agents : List Agent) (l : Agent)
    → current_lead agents ≡ some l
    → is_some (active_agent agents l.id) ≡ true
unfolding current_lead
current_lead-active agents l e =
    single-all (λ x. is_some (active_agent agents x.id) ≡ true) (active_leads agents) l
      (active_leads-active agents) e
