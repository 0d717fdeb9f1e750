-- ===== src/Store/Inbox/Counts.antt =====
-- store/inbox.go and store/team_idle.go: the ledger counts each publication exactly once.
use mathlib.Core.Path.{subst}
use gangline.Prelude.{
  ℕ, ◌+◌, String, ◌≡◌, inl, inr, refl, sym, ap, ◌∙◌, Bool, true, false, ◌&&◌, ◌||◌, some, List,
  ◌==◌, is_some, if◌then◌else◌, arith, eq_refl, Bool-cases,
}
use gangline.Core.Types.{Envelope}
use gangline.Store.Segment.{segment}
use gangline.Store.Names.{check}
use gangline.Store.World.{Result, ok, err, World, Inbox, IdleState, Post}
use gangline.Store.World.Rules.{Post-io, Post-bind, Post-from}
use gangline.Store.Save.Atomic.{Untouched, Untouched-refl}
use gangline.Store.Ledger.{new_dir, save_idle, read_idle, check_free, prepare_idle_publication}
use gangline.Store.Ledger.Reads.{present, counted, check-Untouched, faulty-Untouched}
use gangline.Store.Ledger.Keeps.{
  Kept, Kept-Untouched, Settled, Kept-Settled, Settled-faults, read_idle-Post, one_if,
}
use gangline.Store.Inbox.{json_temp, set_file, set_inbox, link_envelope, publish_new}

-- The identity is of no result that is filed: identities are random.
abbrev pub IsFresh : Inbox → String → Type 0
IsFresh i id = (is_some (i.cur id) || is_some (i.failed id)) ≡ false

-- The state in which the publication is pending, and its envelope not linked.
record Prepared (r recipient id : String) (w v : World) : Type 0 where
  states : v.states ≡ w.states
  inboxes : v.inboxes ≡ w.inboxes
  pending : v.idle.pending ≡ some (record { recipient = recipient; id = id })
  work : is_some (w.states r) ≡ true → v.idle.work r ≡ counted w r
  free : is_some ((w.inboxes recipient).new id) ≡ false

counted-pending :
    (v : World) (r recipient id : String) (b : Bool)
    → v.idle.pending ≡ some (record { recipient = recipient; id = id })
    → present (v.inboxes recipient) id ≡ b
    → counted v r ≡ v.idle.work r + one_if ((recipient == r) && b)
unfolding counted
counted-pending v r recipient id b e h = rw (e, h) refl

not_present :
    (i : Inbox) (id : String) → IsFresh i id → is_some (i.new id) ≡ false → present i id ≡ false
not_present i id fresh free = ground arith

Kept-Prepared :
    (r recipient id : String) (w v : World)
    → IsFresh (w.inboxes recipient) id
    → Prepared r recipient id w v
    → Kept r w v
Kept-Prepared r recipient id w v fresh h = record {
  states = h.states;
  inboxes = h.inboxes;
  count = λ live.
      let absent : present (v.inboxes recipient) id ≡ false =
        ap (λ f. present (f recipient) id) h.inboxes
        ∙ not_present (w.inboxes recipient) id fresh h.free in
      counted-pending v r recipient id false h.pending absent ∙ ground (arith, h.work live);
}

Settled-check :
    (id r : String) (w v : World) (t : IdleState)
    → Settled r w t v
    → Post (λ _ u. Settled r w t u) (Kept r w) (check id v)
unfolding check
Settled-check id r w v t h = elim (Bool-cases (segment id)) [
  | inl valid ↦ rw valid h
  | inr other ↦ rw other (Kept-Settled r w v t h)
]

pub if_raised :
    {A : Type 0} (Q : A → World → Type 0) (E : World → Type 0) (b : Bool) (x y : Result A × World)
    → (b ≡ true → Post Q E x)
    → (b ≡ false → Post Q E y)
    → Post Q E (if b then x else y)
if_raised Q E true x y p q = p refl
if_raised Q E false x y p q = q refl

prepare-Prepared :
    (r recipient : String) (e : Envelope) (w : World)
    → Post
        (λ _ v. Prepared r recipient e.id w v)
        (Kept r w)
        (prepare_idle_publication recipient e w)
unfolding prepare_idle_publication check_free save_idle
prepare-Prepared r recipient e w =
    Post-bind (λ t u. Settled r w t u) _ (Kept r w) read_idle _ w (read_idle-Post r w)
      λ t v h.
        Post-bind (λ _ u. Settled r w t u) _ (Kept r w) (check e.id) _ v
          (Settled-check e.id r w v t h)
          λ _ v2 h2.
            Post-bind (λ _ u. Settled r w t u × (is_some ((w.inboxes recipient).new e.id) ≡ false))
              _ (Kept r w) (check_free recipient e.id) _ v2
              (Post-io (λ _ u. Settled r w t u × (is_some ((w.inboxes recipient).new e.id) ≡ false))
                (Kept r w) _ v2 (λ gs. Kept-Settled r w _ t (Settled-faults r w v2 t gs h2))
                (λ gs.
                  if_raised
                    (λ _ u. Settled r w t u × (is_some ((w.inboxes recipient).new e.id) ≡ false))
                    (Kept r w) (is_some ((v2.inboxes recipient).new e.id)) _ _
                    (λ queued. Kept-Settled r w _ t (Settled-faults r w v2 t gs h2))
                    (λ free. (
                      Settled-faults r w v2 t gs h2,
                      sym (ap (λ f. is_some ((f recipient).new e.id)) h2.inboxes) ∙ free,
                    ))))
              λ _ v3 h3.
                Post-io (λ _ u. Prepared r recipient e.id w u) (Kept r w) _ v3
                  (λ gs. Kept-Settled r w _ t (Settled-faults r w v3 t gs h3.0))
                  (λ gs. record {
                    states = h3.0.states;
                    inboxes = h3.0.inboxes;
                    pending = refl;
                    work = h3.0.work;
                    free = h3.1;
                  })

-- `v` stands for `n` more publications to `r` than `w`, if `r` is registered, and it stays so.
pub record Counts (r : String) (n : ℕ) (w v : World) : Type 0 where
  pub live : is_some (w.states r) ≡ true → is_some (v.states r) ≡ true
  pub count : is_some (w.states r) ≡ true → counted v r ≡ n + counted w r

pub still_live :
    (r : String) (w v : World)
    → v.states ≡ w.states
    → is_some (w.states r) ≡ true
    → is_some (v.states r) ≡ true
still_live r w v e live = ap (λ f. is_some (f r)) e ∙ live

pub Counts-Kept : (r : String) (w v : World) → Kept r w v → Counts r 0 w v
Counts-Kept r w v h = record {
  live = still_live r w v h.states;
  count = λ live. omega (arith, h.count live);
}

pub Counts-trans :
    (r : String) (m n : ℕ) (u v w : World) → Counts r m u v → Counts r n v w → Counts r (m + n) u w
Counts-trans r m n u v w h k = record {
  live = λ live. k.live (h.live live);
  count = λ live. omega (arith, h.count live, k.count (h.live live));
}

linked-count :
    (r recipient : String) (e : Envelope) (w v : World) (gs : List Bool)
    → Prepared r recipient e.id w v
    → Counts r
        (one_if (recipient == r))
        w
        (set_inbox recipient (set_file new_dir e.id (some e)) (record v { faults = gs }))
unfolding set_inbox set_file
linked-count r recipient e w v gs h = record {
  live = still_live r w v h.states;
  count = λ live.
      counted-pending _ r recipient e.id true h.pending
        (ground (arith, eq_refl recipient, eq_refl e.id))
      ∙ ground (arith, h.work live);
}

link-Counts :
    (r recipient : String) (e : Envelope) (w v : World)
    → IsFresh (w.inboxes recipient) e.id
    → Prepared r recipient e.id w v
    → Post
        (λ _ u. Counts r (one_if (recipient == r)) w u)
        (Counts r 0 w)
        (link_envelope recipient e v)
unfolding link_envelope
link-Counts r recipient e w v fresh h =
    Post-io (λ _ u. Counts r (one_if (recipient == r)) w u) (Counts r 0 w) _ v (λ gs. kept gs)
      (λ gs.
        if_raised (λ _ u. Counts r (one_if (recipient == r)) w u) (Counts r 0 w)
          (is_some ((v.inboxes recipient).new e.id)) _ _ (λ queued. kept gs)
          (λ free. linked-count r recipient e w v gs h))
  where
    kept : (gs : List Bool) → Counts r 0 w (record v { faults = gs })
    kept gs = Counts-Kept r w _ (
        Kept-Prepared r recipient e.id w _ fresh (record {
          states = h.states;
          inboxes = h.inboxes;
          pending = h.pending;
          work = h.work;
          free = h.free;
        }))

Counts-from : (r : String) (n : ℕ) (w v u : World) → Untouched w v → Counts r n v u → Counts r n w u
Counts-from r n w v u h k = record {
  live = λ live. k.live (still_live r w v h.states live);
  count = λ live.
      k.count (ap (λ f. is_some (f r)) h.states ∙ live)
      ∙ ap (λ m. n + m) ((Kept-Untouched r w v h).count live);
}

json_temp-Untouched :
    (w v : World) → Untouched w v → Post (λ _ u. Untouched w u) (Untouched w) (json_temp v)
unfolding json_temp
json_temp-Untouched w v h =
    Post-io (λ _ u. Untouched w u) (Untouched w) _ v (λ gs. faulty-Untouched w v gs h)
      (λ gs. faulty-Untouched w v gs h)

check_free-Untouched :
    (r id : String) (w v : World)
    → Untouched w v
    → Post (λ _ u. Untouched w u) (Untouched w) (check_free r id v)
unfolding check_free
check_free-Untouched r id w v h =
    Post-io (λ _ u. Untouched w u) (Untouched w) _ v (λ gs. faulty-Untouched w v gs h)
      (λ gs.
        if_raised (λ _ u. Untouched w u) (Untouched w) (is_some ((v.inboxes r).new id)) _ _
          (λ queued. faulty-Untouched w v gs h) (λ free. faulty-Untouched w v gs h))

module _ (r recipient : String) (e : Envelope) (w : World)
    (fresh : IsFresh (w.inboxes recipient) e.id) where
  abbrev Published : (Unit {0}) → World → Type 0
  Published _ v = Counts r (one_if (recipient == r)) w v

  abbrev stopped : (v : World) → Untouched w v → Counts r 0 w v
  stopped v h = Counts-Kept r w v (Kept-Untouched r w v h)

  relate :
      (n : ℕ) (v : World)
      → Untouched w v
      → (m : Result (Unit {0}) × World) → Post (λ _ u. Counts r n v u) (Counts r 0 v) m
      → Post (λ _ u. Counts r n w u) (Counts r 0 w) m
  relate n v h (ok a, u) k = Counts-from r n w v u h k
  relate n v h (err x, u) k = Counts-from r 0 w v u h k

  -- A publication that succeeds counts once for its recipient, and one that stops at any call, or
  -- finds its identity queued, counts for nobody.
  pub publish_new-Counts : Post Published (Counts r 0 w) (publish_new recipient e w)
  unfolding publish_new
  publish_new-Counts =
      Post-from (λ _ u. Untouched w u) Published (Untouched w) (Counts r 0 w) stopped (check e.id) _
        w (check-Untouched e.id w w (Untouched-refl w))
        λ _ v1 h1.
          Post-from (λ _ u. Untouched w u) Published (Untouched w) (Counts r 0 w) stopped json_temp
            _ v1 (json_temp-Untouched w v1 h1)
            λ _ v2 h2.
              Post-from (λ _ u. Untouched w u) Published (Untouched w) (Counts r 0 w) stopped
                (check_free recipient e.id) _ v2 (check_free-Untouched recipient e.id w v2 h2)
                λ _ v3 h3. relate (one_if (recipient == r)) v3 h3 _ (
                  Post-from (λ _ u. Prepared r recipient e.id v3 u)
                    (λ _ u. Counts r (one_if (recipient == r)) v3 u) (Kept r v3) (Counts r 0 v3)
                    (λ u. Counts-Kept r v3 u) (prepare_idle_publication recipient e) _ v3
                    (prepare-Prepared r recipient e v3)
                    (λ _ v4 h4.
                      link-Counts r recipient e v3 v4
                        (subst (λ f. IsFresh (f recipient) e.id) (sym h3.inboxes) fresh) h4))
