-- ===== src/Store/Credentials/Mailbox.antt =====
-- store/outside.go: a message to an outside principal stays in its mailbox until it is acknowledged.
use mathlib.Core.Path.{subst}
use gangline.Prelude.{
  String, ◌≡◌, refl, sym, ap, ◌∙◌, Bool, true, false, ◌||◌, Option, none, some, List, [], ◌∷◌, ◌++◌,
  ◌==◌, concat, by_test, All, arith, eq_iff,
}
use gangline.Core.Types.{Envelope}
use gangline.Store.World.{update}
use gangline.Store.Credentials.{OutsideState, Vault}
use gangline.Store.Credentials.Outside.{
  register_outside, rotate_outside, queue_outside, acknowledge, is_pending, has_id, retained,
}
use gangline.Store.Credentials.Runs.{
  Operation, registers, rotates, removes, queues, acknowledges, puts, deletes, operate, operate_all,
}
use gangline.Store.Credentials.Rules.{Frame, Any, kept}
use gangline.Store.Credentials.Records.{put_record, delete_record}
use gangline.Store.Credentials.Kept.Records.{put_record-Leaves, delete_record-Leaves}
use gangline.Store.Credentials.Kept.{
  rotate_outside-Leaves, queue_outside-Leaves, acknowledge-Leaves,
}
use gangline.Store.Credentials.Kept.Names.{register_outside-Leaves}

module _ (hash : String → String) where
  -- The mailbox of a registration has the message.
  abbrev pub holds : String → Option OutsideState → Bool
  holds m none = false
  holds m (some s) = is_pending hash m s.pending

  -- The operation removes no registration, and acknowledges other messages.
  abbrev pub Spares : String → Operation → Type 0
  Spares m (registers origin name path) = Unit
  Spares m (rotates origin name path) = Unit
  Spares m (removes origin name) = ⊥
  Spares m (queues name e) = Unit
  Spares m (acknowledges id name generation ids) = has_id hash m ids ≡ false
  Spares m (puts id name generation key value) = Unit
  Spares m (deletes id name generation key) = Unit

  append-is_pending :
      (m : String) (es fs : List Envelope)
      → is_pending hash m es ≡ true
      → is_pending hash m (es ++ fs) ≡ true
  append-is_pending m [] fs h = ground arith
  append-is_pending m (e ∷ es) fs h = let rest = append-is_pending m es fs in ground (arith, rest)

  either : (b c d : Bool) → (c ≡ true → d ≡ true) → b || c ≡ true → b || d ≡ true
  either true c d f h = refl
  either false c d f h = f h

  retained-is_pending :
      (m : String) (ids : List String) (es : List Envelope)
      → has_id hash m ids ≡ false
      → is_pending hash m es ≡ true
      → is_pending hash m (retained hash ids es) ≡ true
  unfolding retained
  retained-is_pending m ids [] h p = p
  retained-is_pending m ids (e ∷ es) h p =
      by_test (λ x. is_pending hash m x ≡ true) (has_id hash e.id ids) (retained hash ids es)
        (e ∷ retained hash ids es)
        (λ listed.
          retained-is_pending m ids es h
            (later (λ same. ground (arith, ap (λ x. has_id hash x ids) same))))
        (λ _.
          either (e.id == m) (is_pending hash m es) (is_pending hash m (retained hash ids es))
            (λ k. retained-is_pending m ids es h k) p)
    where
      later : ¬ (e.id ≡ m) → is_pending hash m es ≡ true
      later other = ground (arith, eq_iff e.id m)

  module _ (id m : String) where
    record Waits (v : Vault) : Type 0 where
      waiting : holds m (v.outside id) ≡ true
      fresh : All (λ d. concat "outside-" d == id ≡ false) v.draws

    abbrev HasIt : OutsideState → Type 0
    HasIt s = s.id ≡ id → is_pending hash m s.pending ≡ true

    abbrev NoName : String → String → Type 0
    NoName name got = Unit

    abbrev Elsewhere : String → Type 0
    Elsewhere d = concat "outside-" d == id ≡ false

    updated-holds :
        (i : String) (o : Option OutsideState) (f : String → Option OutsideState)
        → (i ≡ id → holds m o ≡ true)
        → holds m (f id) ≡ true
        → holds m (update f i o id) ≡ true
    updated-holds i o f h k =
        by_test (λ x. holds m x ≡ true) (i == id) o (f id) (λ same. h ((eq_iff i id).0 same))
          (λ _. k)

    Waits-Frame : Frame Waits HasIt NoName Elsewhere
    Waits-Frame = record {
      quiet = λ v w u i. record { waiting = i.waiting; fresh = i.fresh };
      draws = λ x xs v h i.
          let both = subst (λ l. All (λ d. concat "outside-" d == id ≡ false) l) h i.fresh in
          (both.0, record { waiting = i.waiting; fresh = both.1 });
      files = λ path token v i. record { waiting = i.waiting; fresh = i.fresh };
      records = λ f v i. record { waiting = i.waiting; fresh = i.fresh };
      names = λ name got v h i. tt;
      reads = λ i s v h valid r same.
          let owner : s.id ≡ i = ground (arith, eq_iff s.id i) in
          ap (holds m) (sym h)
          ∙ subst (λ x. holds m (v.outside x) ≡ true) (sym same ∙ owner) r.waiting;
      writes = λ s v has i. record {
        waiting = updated-holds s.id (some s) v.outside has i.waiting;
        fresh = i.fresh;
      };
    }

    apart : {P : Type 0} (d : String) → Elsewhere d → concat "outside-" d ≡ id → P
    apart d e same = ground (arith, eq_iff (concat "outside-" d) id)

    operate-Waits : (o : Operation) → Spares m o → (v : Vault) → Waits v → Waits (operate hash o v)
    operate-Waits (registers origin name path) spares v i =
        kept Waits Any (register_outside hash origin name path v) (
          register_outside-Leaves Waits HasIt NoName Elsewhere Waits-Frame hash
            (λ u w j. record { waiting = j.waiting; fresh = j.fresh })
            (λ n token d g other _ same. apart d other same)
            (λ d u other j. record {
              waiting =
                  updated-holds (concat "outside-" d) none u.outside (λ same. apart d other same)
                    j.waiting;
              fresh = j.fresh;
            })
            origin name path v i)
    operate-Waits (rotates origin name path) spares v i =
        kept Waits Any (rotate_outside hash origin name path v) (
          rotate_outside-Leaves Waits HasIt NoName Elsewhere Waits-Frame hash
            (λ s token g has _. has) origin name path v i)
    operate-Waits (removes origin name) spares v i = elim spares [ ]
    operate-Waits (queues name e) spares v i = kept Waits Any (queue_outside hash name e v) (
        queue_outside-Leaves Waits HasIt NoName Elsewhere Waits-Frame hash
          (λ s x has same. append-is_pending m s.pending (x ∷ []) (has same)) name e v i)
    operate-Waits (acknowledges i' name g ids) spares v i =
        kept Waits Any (acknowledge hash i' name g ids v) (
          acknowledge-Leaves Waits HasIt NoName Elsewhere Waits-Frame hash ids
            (λ s has same. retained-is_pending m ids s.pending spares (has same)) i' name g v i)
    operate-Waits (puts i' name g key value) spares v i =
        kept Waits Any (put_record hash i' name g key value v)
          (put_record-Leaves Waits HasIt NoName Elsewhere Waits-Frame hash i' name g key value v i)
    operate-Waits (deletes i' name g key) spares v i =
        kept Waits Any (delete_record hash i' name g key v)
          (delete_record-Leaves Waits HasIt NoName Elsewhere Waits-Frame hash i' name g key v i)

    operate_all-Waits :
        (os : List Operation)
        → All (Spares m) os
        → (v : Vault) → Waits v
        → Waits (operate_all hash os v)
    unfolding operate_all
    operate_all-Waits [] spares v i = i
    operate_all-Waits (o ∷ os) spares v i =
        operate_all-Waits os spares.1 (operate hash o v) (operate-Waits o spares.0 v i)

    -- Through any registrations, rotations, sends, changes of records and acknowledgements, whichever of their calls fail, a
    -- message stays in the mailbox of an outside principal until its identity is acknowledged. Nothing that is drawn makes the identity of the
    -- principal again.
    pub operate_all-holds :
        (os : List Operation) (v : Vault)
        → All (Spares m) os
        → All (λ d. concat "outside-" d == id ≡ false) v.draws
        → holds m (v.outside id) ≡ true
        → holds m ((operate_all hash os v).outside id) ≡ true
    operate_all-holds os v spares fresh h =
        let after = operate_all-Waits os spares v (record { waiting = h; fresh = fresh }) in
        after.waiting
