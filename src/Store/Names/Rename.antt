-- ===== src/Store/Names/Rename.antt =====
-- store/store.go: `FinishRename`, which can be interrupted anywhere and run again.
use gangline.Prelude.{
  String, ◌≡◌, ◌≢◌, inl, inr, refl, sym, ◌∙◌, ap, false, none, some, ◌==◌, arith, eq_iff,
  Bool-cases,
}
use mathlib.Core.Path.{subst}
use gangline.Core.Types.{Agent, Time}
use gangline.Store.World.{
  not_exist, name_taken, Result, ok, err, World, update, Post, continue, pure, raise,
}
use gangline.Store.World.Rules.{Post-bind}
use gangline.Store.Save.{save, encode}
use gangline.Store.Save.Bindings.{saved_as}
use gangline.Store.Save.Atomic.{Untouched, Saved, save-Saved}
use gangline.Store.Names.{
  claim_name, resolve_name, remove_name, claim_free, give_up, complete, held_by, finish_rename,
  settled, with_name,
}
use gangline.Store.Names.Claims.{
  Resolved, resolve_name-Resolved, Renamed, Claimed, claim_name-Claimed, Removed,
  remove_name-Removed,
}

-- The saved agent of the hitch `id` has the name `name`, and the name links to it.
pub record NamedAs (id name : String) (w : World) : Type 0 where
  pub agent : Agent
  pub saved : w.states id ≡ some agent
  pub spelled : agent.name ≡ name
  pub linked : w.names name ≡ some id

-- The saved agent can be found by its name.
abbrev pub IsNamed : String → World → Type 0
IsNamed id w = (name : String) × NamedAs id name w

module _ (a : Agent) (now : Time) (w : World) where
  -- No name changes but the two of the rename.
  abbrev pub Spares : World → Type 0
  Spares v = (j : String) → j ≢ a.rename_from → j ≢ a.rename_to → v.names j ≡ w.names j

  -- where an interrupted rename leaves the team
  abbrev pub Stopped : World → Type 0
  Stopped v = IsNamed a.id v × Spares v

  -- before the first save: nothing saved has changed
  record Started (v : World) : Type 0 where
    named : NamedAs a.id a.name v
    pub spares : Spares v

  -- after it: the agent has its new name
  record Moved (v : World) : Type 0 where
    named : NamedAs a.id a.rename_to v
    pub spares : Spares v

  update_eq : {V : Type 0} (f : String → V) (k j : String) (x : V) → k ≡ j → update f k x j ≡ x
  update_eq f k j x e = ground (arith, eq_iff k j)

  update_ne : {V : Type 0} (f : String → V) (k j : String) (x : V) → k ≢ j → update f k x j ≡ f j
  update_ne f k j x e = ground (arith, eq_iff k j)

  Started-Untouched : (u v : World) → Untouched u v → Started u → Started v
  Started-Untouched u v h k = record {
    named = record {
      agent = k.named.agent;
      saved = ap (λ s. s a.id) h.states ∙ k.named.saved;
      spelled = k.named.spelled;
      linked = ap (λ n. n a.name) h.names ∙ k.named.linked;
    };
    spares = λ j f t. ap (λ n. n j) h.names ∙ k.spares j f t;
  }

  Moved-Untouched : (u v : World) → Untouched u v → Moved u → Moved v
  Moved-Untouched u v h k = record {
    named = record {
      agent = k.named.agent;
      saved = ap (λ s. s a.id) h.states ∙ k.named.saved;
      spelled = k.named.spelled;
      linked = ap (λ n. n a.rename_to) h.names ∙ k.named.linked;
    };
    spares = λ j f t. ap (λ n. n j) h.names ∙ k.spares j f t;
  }

  -- claiming the new name, if it was free
  Started-claimed : (u v : World) → Renamed a.rename_to (some a.id) u v → Started u → Started v
  Started-claimed u v h k = record {
    named = record {
      agent = k.named.agent;
      saved = ap (λ s. s a.id) h.states ∙ k.named.saved;
      spelled = k.named.spelled;
      linked =
          ap (λ n. n a.name) h.names ∙ ground (arith, eq_iff a.rename_to a.name, k.named.linked);
    };
    spares = λ j f t.
        ap (λ n. n j) h.names
        ∙ update_ne u.names a.rename_to j (some a.id) (λ e. t (sym e))
        ∙ k.spares j f t;
  }

  -- a save of an agent with the name that its link has
  NamedAs-Saved :
      (b : Agent) (u v : World)
      → b.id ≡ a.id
      → u.names b.name ≡ some a.id
      → Saved a.id b u v
      → NamedAs a.id b.name v
  NamedAs-Saved b u v same linked s = record {
    agent = saved_as b s.session;
    saved =
        ap (λ f. f a.id) s.states ∙ update_eq u.states a.id a.id (some (saved_as b s.session)) refl;
    spelled = unfold encode in refl;
    linked = ap (λ n. n b.name) s.names ∙ linked;
  }

  Spares-Saved : (b : Agent) (u v : World) → Saved a.id b u v → Spares u → Spares v
  Spares-Saved b u v s k = λ j f t. ap (λ n. n j) s.names ∙ k j f t

  -- `held_by` gets the identity that the new name links to
  abbrev Found : String → World → Type 0
  Found got v = Started v × (v.names a.rename_to ≡ some got)

  claim_free-Found :
      (r : Result String × World)
      → Started w
      → Resolved a.rename_to w r
      → Post Found Started (claim_free a.rename_to a.id r)
  unfolding claim_free
  claim_free-Found (ok got, v) k h =
      (Started-Untouched w v h.0 k, ap (λ n. n a.rename_to) h.0.names ∙ h.1)
  claim_free-Found (err not_exist, v) k h =
      go (claim_name a.rename_to a.id v) (claim_name-Claimed a.rename_to a.id v)
    where
      before : Started v
      before = Started-Untouched w v h.0 k

      go :
          (r : Result (Unit {0}) × World)
          → Claimed a.rename_to a.id v r
          → Post Found Started (continue r (λ _. pure a.id))
      go (ok _, u) c = (
        Started-claimed v u c.1 before,
        ap (λ n. n a.rename_to) c.1.names
            ∙ update_eq v.names a.rename_to a.rename_to (some a.id) refl,
      )
      go (err name_taken, u) c = Started-Untouched v u c.0 before
      go (err not_exist, u) c = absurd c
      go (err _, u) c = Started-Untouched v u c before
  claim_free-Found (err _, v) k h = Started-Untouched w v h k

  Stopped-Started : (v : World) → Started v → Stopped v
  Stopped-Started v k = ((a.name, k.named), k.spares)

  Stopped-Moved : (v : World) → Moved v → Stopped v
  Stopped-Moved v k = ((a.rename_to, k.named), k.spares)

  give_up-Stopped : (v : World) → Started v → Post (λ _ _. ⊥) Stopped (give_up a now v)
  unfolding give_up
  give_up-Stopped v k =
      Post-bind (λ _ u. Saved a.id (settled a) v u) (λ _ _. ⊥) Stopped (save a.id (settled a) now)
        (λ _. raise name_taken) v
        (outcome (save a.id (settled a) now v) (save-Saved a.id (settled a) now v))
        λ _ u s. (
          (a.name, NamedAs-Saved (settled a) v u refl k.named.linked s),
          Spares-Saved (settled a) v u s k.spares,
        )
    where
      outcome :
          (r : Result (Unit {0}) × World)
          → Post (λ _ u. Saved a.id (settled a) v u) (Untouched v) r
          → Post (λ _ u. Saved a.id (settled a) v u) Stopped r
      outcome (ok _, u) s = s
      outcome (err _, u) h = Stopped-Started u (Started-Untouched v u h k)

  -- The rename is done: the new name is the agent's alone, and the old one no longer is.
  pub record Done (b : Agent) (v : World) : Type 0 where
    pub agent : b ≡ settled (with_name a a.rename_to)
    pub named : NamedAs a.id a.rename_to v
    pub left : v.names a.rename_from ≢ some a.id
    pub spares : Spares v

  -- a save of the agent under its new name, from where that name links to it
  save-Moved :
      (b : Agent) (v : World)
      → b.id ≡ a.id
      → b.name ≡ a.rename_to
      → v.names a.rename_to ≡ some a.id
      → Spares v
      → (E : World → Type 0) → ((u : World) → Untouched v u → E u)
      → Post (λ _ u. Moved u × (u.names ≡ v.names)) E (save a.id b now v)
  save-Moved b v same spelled linked spares E stop =
      outcome (save a.id b now v) (save-Saved a.id b now v)
    where
      named : (u : World) → Saved a.id b v u → NamedAs a.id b.name u
      named u s = NamedAs-Saved b v u same (rw spelled linked) s

      outcome :
          (r : Result (Unit {0}) × World)
          → Post (λ _ u. Saved a.id b v u) (Untouched v) r
          → Post (λ _ u. Moved u × (u.names ≡ v.names)) E r
      outcome (ok _, u) s = (
        record {
          named = subst (λ n. NamedAs a.id n u) spelled (named u s);
          spares = Spares-Saved b v u s spares;
        },
        s.names,
      )
      outcome (err _, u) h = stop u h

  module _ (set : a.rename_from ≢ "") (changes : a.rename_from ≢ a.rename_to) where
    abbrev Left : World → Type 0
    Left v = Moved v × (v.names a.rename_from ≢ some a.id)

    remove-Left :
        (v : World) → Moved v → Post (λ _ u. Left u) Stopped (remove_name a.rename_from a.id v)
    remove-Left v k =
        go (remove_name a.rename_from a.id v) (remove_name-Removed a.rename_from a.id v)
      where
        go :
            (r : Result (Unit {0}) × World)
            → Removed a.rename_from a.id v r
            → Post (λ _ u. Left u) Stopped r
        go (ok _, u) (inl (held, r)) = (
          record {
            named = record {
              agent = k.named.agent;
              saved = ap (λ s. s a.id) r.states ∙ k.named.saved;
              spelled = k.named.spelled;
              linked =
                  ap (λ n. n a.rename_to) r.names
                  ∙ update_ne v.names a.rename_from a.rename_to none changes
                  ∙ k.named.linked;
            };
            spares = λ j f t.
                ap (λ n. n j) r.names
                ∙ update_ne v.names a.rename_from j none (λ e. f (sym e))
                ∙ k.spares j f t;
          },
          λ e. cc (
            e,
            ap (λ n. n a.rename_from) r.names,
            update_eq v.names a.rename_from a.rename_from none refl,
          ),
        )
        go (ok _, u) (inr (h, inl empty)) = absurd (set empty)
        go (ok _, u) (inr (h, inr other)) =
            (Moved-Untouched v u h k, λ e. other (sym (ap (λ n. n a.rename_from) h.names) ∙ e))
        go (err _, u) h = Stopped-Moved u (Moved-Untouched v u h k)

    complete-Done :
        (v : World)
        → Started v
        → v.names a.rename_to ≡ some a.id
        → Post (λ b u. Done b u) Stopped (complete a now v)
    unfolding complete
    complete-Done v k linked =
        Post-bind (λ _ u. Moved u × (u.names ≡ v.names)) Done Stopped
          (save a.id (with_name a a.rename_to) now) _ v
          (save-Moved (with_name a a.rename_to) v refl refl linked k.spares Stopped
            (λ u h. Stopped-Started u (Started-Untouched v u h k)))
          λ _ u m.
            Post-bind (λ _ t. Left t) Done Stopped (remove_name a.rename_from a.id) _ u
              (remove-Left u m.0)
              λ _ t l.
                Post-bind (λ _ x. Moved x × (x.names ≡ t.names)) Done Stopped
                  (save a.id (settled (with_name a a.rename_to)) now)
                  (λ _. pure (settled (with_name a a.rename_to))) t
                  (save-Moved (settled (with_name a a.rename_to)) t refl refl l.0.named.linked
                    l.0.spares Stopped (λ x h. Stopped-Moved x (Moved-Untouched t x h l.0)))
                  λ _ x n. record {
                    agent = refl;
                    named = n.0.named;
                    left = λ e. l.1 (sym (ap (λ f. f a.rename_from) n.1) ∙ e);
                    spares = n.0.spares;
                  }

    held_by-Done :
        (r : Result String × World)
        → Post Found Started r
        → Post (λ b u. Done b u) Stopped (held_by a now r)
    unfolding held_by
    held_by-Done (ok got, v) k = elim (Bool-cases (got == a.id)) [
      | inl own ↦ rw own (complete-Done v k.0 (k.1 ∙ ap some ((eq_iff got a.id).0 own)))
      | inr other ↦ rw other (weaken (give_up a now v) (give_up-Stopped v k.0))
    ]
      where
        weaken :
            (r : Result Agent × World)
            → Post (λ _ _. ⊥) Stopped r
            → Post (λ b u. Done b u) Stopped r
        weaken (ok b, u) h = absurd h
        weaken (err _, u) h = h
    held_by-Done (err name_taken, v) k = weaken (give_up a now v) (give_up-Stopped v k)
      where
        weaken :
            (r : Result Agent × World)
            → Post (λ _ _. ⊥) Stopped r
            → Post (λ b u. Done b u) Stopped r
        weaken (ok b, u) h = absurd h
        weaken (err _, u) h = h
    held_by-Done (err _, v) k = Stopped-Started v k

    -- An agent that can be found by its name can be found by its name wherever `FinishRename` stops,
    -- at any fault, and no third name changes. If it returns, the agent has the new name, which
    -- links to it, the old name no longer does, and no rename is left to finish.
    pub finish_rename-Done :
        a.rename_to ≢ ""
        → NamedAs a.id a.name w
        → Post (λ b v. Done b v) Stopped (finish_rename a now w)
    unfolding finish_rename
    finish_rename-Done target named =
        let asked : a.rename_to == "" ≡ false = ground (arith, eq_iff a.rename_to "") in
        rw asked (
          held_by-Done (claim_free a.rename_to a.id (resolve_name a.rename_to w)) (
            claim_free-Found (resolve_name a.rename_to w)
              (record { named = named; spares = λ j f t. refl })
              (resolve_name-Resolved a.rename_to w)))
