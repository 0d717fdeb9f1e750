-- ===== src/Store/Ledger/Keeps.antt =====
-- store/team_idle.go: reading the ledger keeps what it counts, wherever it stops.
use mathlib.Core.Path.{subst}
use gangline.Prelude.{
  ℕ, ◌+◌, String, ◌≡◌, ◌≢◌, inl, inr, refl, sym, ap, ◌∙◌, Bool, true, false, ◌&&◌, Option, none,
  some, List, [], ◌∷◌, ◌==◌, is_some, if◌then◌else◌, arith, eq_iff, Bool-cases,
}
use gangline.Store.Segment.{segment}
use gangline.Store.Names.{check}
use gangline.Store.World.{ok, World, IdleState, IdlePublication, Post}
use gangline.Store.World.Rules.{Post-io, Post-bind, Post-from}
use gangline.Store.Save.Atomic.{Untouched, Untouched-refl}
use gangline.Store.Ledger.{
  filed, directories, bump, forget, count_if, save_idle, load_idle, no_pending, settle_pending,
  is_registered, Pruned, prune_ids, finish_read, read_idle,
}
use gangline.Store.Ledger.Reads.{
  outstanding, counted, check-Untouched, faulty-Untouched, any_file, any_file_lem, filed-Post,
}

-- `v` has the states and the inboxes of `w`, and stands for as many publications to `r`, if `r` is
-- registered.
pub record Kept (r : String) (w v : World) : Type 0 where
  pub states : v.states ≡ w.states
  pub inboxes : v.inboxes ≡ w.inboxes
  pub count : is_some (w.states r) ≡ true → counted v r ≡ counted w r

counted-idle :
    (v w : World) (r : String) → v.idle ≡ w.idle → v.inboxes ≡ w.inboxes → counted v r ≡ counted w r
unfolding counted
counted-idle v w r e f =
    ap (λ s. s.work r + outstanding v.inboxes s.pending r) e
    ∙ ap (λ i. w.idle.work r + outstanding i w.idle.pending r) f

pub Kept-Untouched : (r : String) (w v : World) → Untouched w v → Kept r w v
Kept-Untouched r w v h = record {
  states = h.states;
  inboxes = h.inboxes;
  count = λ _. counted-idle v w r h.idle h.inboxes;
}

-- The state that is read and written: nothing is pending, and its work is the count of `w`.
pub record Settled (r : String) (w : World) (t : IdleState) (v : World) : Type 0 where
  pub states : v.states ≡ w.states
  pub inboxes : v.inboxes ≡ w.inboxes
  pub idle : v.idle ≡ t
  pub pending : t.pending ≡ none
  pub work : is_some (w.states r) ≡ true → t.work r ≡ counted w r

pub counted-settled : (v : World) (r : String) → v.idle.pending ≡ none → counted v r ≡ v.idle.work r
unfolding counted
counted-settled v r e = rw e (omega arith)

pub Kept-Settled : (r : String) (w v : World) (t : IdleState) → Settled r w t v → Kept r w v
Kept-Settled r w v t h = record {
  states = h.states;
  inboxes = h.inboxes;
  count = λ live.
      counted-settled v r (ap (λ s. s.pending) h.idle ∙ h.pending)
      ∙ ap (λ s. s.work r) h.idle
      ∙ h.work live;
}

abbrev pub one_if : Bool → ℕ
one_if b = if b then 1 else 0

count_if-Post :
    (s : IdleState) (id r : String) (b : Bool) (w v : World)
    → Untouched w v
    → Post
        (λ t u. Untouched w u × (t.work r ≡ s.work r + one_if ((id == r) && b)))
        (Untouched w)
        (count_if s id b v)
unfolding count_if bump
count_if-Post s id r false w v h = ground arith
count_if-Post s id r true w v h = ground (arith, eq_iff id r)

save_idle-Post :
    (r : String) (w v : World) (t : IdleState)
    → Untouched w v
    → t.pending ≡ none
    → (is_some (w.states r) ≡ true → t.work r ≡ counted w r)
    → Post (λ _ u. Settled r w t u) (Kept r w) (save_idle t v)
unfolding save_idle
save_idle-Post r w v t h p k =
    Post-io (λ _ u. Settled r w t u) (Kept r w) _ v
      (λ gs. Kept-Untouched r w _ (faulty-Untouched w v gs h))
      λ gs. record { states = h.states; inboxes = h.inboxes; idle = refl; pending = p; work = k }

-- What the pending publication adds, as the loop over the directories finds it.
found_count :
    (w : World) (p : IdlePublication) (r : String)
    → w.idle.pending ≡ some p
    → counted w r
      ≡ w.idle.work r
        + one_if ((p.recipient == r) && any_file directories (w.inboxes p.recipient) p.id)
unfolding counted
found_count w p r e = rw (e, any_file_lem (w.inboxes p.recipient) p.id) refl

settle_pending-Post :
    (r : String) (w v : World) (o : Option IdlePublication)
    → Untouched w v
    → w.idle.pending ≡ o
    → Post (λ t u. Settled r w t u) (Kept r w) (settle_pending w.idle o v)
unfolding settle_pending
settle_pending-Post r w v none h e = record {
  states = h.states;
  inboxes = h.inboxes;
  idle = h.idle;
  pending = e;
  work = λ _. sym (counted-settled w r e);
}
settle_pending-Post r w v (some p) h e =
    Post-from (λ _ u. Untouched w u) _ (Untouched w) (Kept r w) (Kept-Untouched r w)
      (check p.recipient) _ v (check-Untouched p.recipient w v h)
      λ _ v1 h1.
        Post-from (λ b u. Untouched w u × (b ≡ any_file directories (w.inboxes p.recipient) p.id)) _
          (Untouched w) (Kept r w) (Kept-Untouched r w) (filed p.recipient p.id directories) _ v1
          (filed-Post p.recipient p.id directories w v1 h1)
          λ b v2 h2.
            Post-from
              (λ t u. Untouched w u × (t.work r ≡ w.idle.work r + one_if ((p.recipient == r) && b)))
              _ (Untouched w) (Kept r w) (Kept-Untouched r w) (count_if w.idle p.recipient b) _ v2
              (count_if-Post w.idle p.recipient r b w v2 h2.0)
              λ t v3 h3.
                Post-bind (λ _ u. Settled r w (no_pending t) u) _ (Kept r w)
                  (save_idle (no_pending t)) _ v3
                  (save_idle-Post r w v3 (no_pending t) h3.0 refl (λ _.
                    h3.1
                    ∙ ap (λ y. w.idle.work r + one_if ((p.recipient == r) && y)) h2.1
                    ∙ sym (found_count w p r e)))
                  λ _ v4 h4. h4

forget-work :
    (s : IdleState) (id r : String)
    → id ≢ r
    → ((forget s id).work r ≡ s.work r) × ((forget s id).pending ≡ s.pending)
unfolding forget
forget-work s id r other = ground (arith, eq_iff id r)

pub Settled-faults :
    (r : String) (w v : World) (t : IdleState) (gs : List Bool)
    → Settled r w t v
    → Settled r w t (record v { faults = gs })
Settled-faults r w v t gs h = record {
  states = h.states;
  inboxes = h.inboxes;
  idle = h.idle;
  pending = h.pending;
  work = h.work;
}

is_registered-Post :
    (id : String) (w v : World) (t : IdleState) (r : String)
    → Settled r w t v
    → Post (λ b u. Settled r w t u × (b ≡ is_some (w.states id))) (Kept r w) (is_registered id v)
unfolding is_registered check
is_registered-Post id w v t r h = elim (Bool-cases (segment id)) [
  | inr other ↦ rw other (Kept-Settled r w v t h)
  | inl valid ↦ rw valid (
      Post-io (λ b u. Settled r w t u × (b ≡ is_some (w.states id))) (Kept r w) _ v
        (λ gs. Kept-Settled r w _ t (Settled-faults r w v t gs h))
        (λ gs. (Settled-faults r w v t gs h, ap (λ f. is_some (f id)) h.states)))
]

-- The state in memory while registrations are dropped from it; the file has `t`.
record Pruning (r : String) (w : World) (t : IdleState) (p : Pruned) : Type 0 where
  pending : p.state.pending ≡ none
  work : is_some (w.states r) ≡ true → p.state.work r ≡ counted w r
  same : p.pruned ≡ false → p.state ≡ t

Pruning-forget :
    (r id : String) (w : World) (t : IdleState) (p : Pruned)
    → Pruning r w t p
    → is_some (w.states id) ≡ false
    → Pruning r w t (record { state = forget p.state id; pruned = true })
unfolding forget
Pruning-forget r id w t p h gone = record {
  pending = h.pending;
  work = λ live.
      (forget-work p.state id r (λ e. cc (ap (λ k. is_some (w.states k)) e, gone, live))).0
      ∙ h.work live;
  same = λ m. cc;
}

prune_ids-Post :
    (ids : List String) (r : String) (w v : World) (t : IdleState) (p : Pruned)
    → Settled r w t v
    → Pruning r w t p
    → Post (λ q u. Settled r w t u × Pruning r w t q) (Kept r w) (prune_ids ids p v)
unfolding prune_ids
prune_ids-Post [] r w v t p h k = (h, k)
prune_ids-Post (id ∷ ids) r w v t p h k =
    Post-bind (λ b u. Settled r w t u × (b ≡ is_some (w.states id))) _ (Kept r w) (is_registered id)
      _ v (is_registered-Post id w v t r h)
      λ b u h'. elim (Bool-cases b) [
        | inl there ↦ rw there (prune_ids-Post ids r w u t p h'.0 k)
        | inr gone ↦
            rw gone
              (prune_ids-Post ids r w u t _ h'.0 (Pruning-forget r id w t p k (sym h'.1 ∙ gone)))
      ]

finish_read-Post :
    (r : String) (w v : World) (t : IdleState) (p : Pruned)
    → Settled r w t v
    → Pruning r w t p
    → Post (λ q u. Settled r w q u) (Kept r w) (finish_read p v)
unfolding finish_read save_idle
finish_read-Post r w v t p h k = elim (Bool-cases p.pruned) [
  | inr whole ↦ rw whole (record {
    states = h.states;
    inboxes = h.inboxes;
    idle = h.idle ∙ sym (k.same whole);
    pending = k.pending;
    work = k.work;
  })
  | inl fewer ↦ rw fewer (
      Post-bind (λ _ u. Settled r w p.state u) _ (Kept r w) (save_idle p.state) _ v
        (Post-io (λ _ u. Settled r w p.state u) (Kept r w)
          (λ u. (ok tt, record u { idle = p.state })) v
          (λ gs. Kept-Settled r w _ t (Settled-faults r w v t gs h))
          (λ gs. record {
            states = h.states;
            inboxes = h.inboxes;
            idle = refl;
            pending = k.pending;
            work = k.work;
          }))
        λ _ u g. g)
]

-- Reading the ledger, whatever call fails, keeps the states, the inboxes and the number of
-- publications that it stands for; what it returns is what is saved, and nothing of it is pending.
pub read_idle-Post :
    (r : String) (w : World) → Post (λ t u. Settled r w t u) (Kept r w) (read_idle w)
unfolding read_idle load_idle
read_idle-Post r w =
    Post-from (λ s u. Untouched w u × (s ≡ w.idle)) _ (Untouched w) (Kept r w) (Kept-Untouched r w)
      load_idle _ w
      (Post-io (λ s u. Untouched w u × (s ≡ w.idle)) (Untouched w) _ w
        (λ gs. faulty-Untouched w w gs (Untouched-refl w))
        (λ gs. (faulty-Untouched w w gs (Untouched-refl w), refl)))
      λ s v h.
        Post-bind (λ t u. Settled r w t u) _ (Kept r w) (settle_pending s s.pending) _ v
          (subst (λ x. Post (λ t u. Settled r w t u) (Kept r w) (settle_pending x x.pending v))
            (sym h.1) (settle_pending-Post r w v w.idle.pending h.0 refl))
          λ t v2 h2.
            Post-bind (λ q u. Settled r w t u × Pruning r w t q) _ (Kept r w)
              (prune_ids t.tracked (record { state = t; pruned = false })) _ v2
              (prune_ids-Post t.tracked r w v2 t _ h2
                (record { pending = h2.pending; work = h2.work; same = λ _. refl }))
              λ q v3 h3. finish_read-Post r w v3 t q h3.0 h3.1
