-- ===== src/Store/Credentials/Revoked.antt =====
-- store/outside.go: an outside principal that is revoked stays revoked.
use mathlib.Core.Path.{subst}
use gangline.Prelude.{
  String, ◌≡◌, refl, sym, ap, ◌∙◌, Bool, true, false, Option, none, some, List, [], ◌∷◌, ◌==◌,
  concat, by_test, All, arith, eq_iff,
}
use gangline.Store.World.{World, update}
use gangline.Store.Credentials.{OutsideState, Vault, Answer, ok, denied, err, is_valid}
use gangline.Store.Credentials.Outside.{
  resolve_principal, register_outside, rotate_outside, remove_outside, queue_outside, acknowledge,
}
use gangline.Store.Credentials.Runs.{
  Operation, registers, rotates, removes, queues, acknowledges, puts, deletes, operate, operate_all,
}
use gangline.Store.Credentials.Rules.{Frame, After, Any, kept, valid_state-Leaves}
use gangline.Store.Credentials.Records.{put_record, delete_record}
use gangline.Store.Credentials.Kept.Records.{put_record-Leaves, delete_record-Leaves}
use gangline.Store.Credentials.Kept.{
  rotate_outside-Leaves, queue_outside-Leaves, acknowledge-Leaves, resolve_principal-Leaves,
}
use gangline.Store.Credentials.Kept.Names.{register_outside-Leaves, remove_outside-Leaves}

-- The registration is of this generation of its credential.
abbrev pub grants : String → Option OutsideState → Bool
grants generation none = false
grants generation (some s) = s.generation == generation

-- The action gives no registration.
abbrev pub IsRefused : Answer OutsideState × Vault → Type 0
IsRefused (ok s, v) = ⊥
IsRefused (denied, v) = Unit
IsRefused (err x, v) = Unit

module _ (id generation : String) where
  -- The principal has no registration of this generation, and none is drawn.
  pub record Revoked (v : Vault) : Type 0 where
    pub gone : grants generation (v.outside id) ≡ false
    pub fresh : All (λ d. d == generation ≡ false) v.draws

  abbrev Other : OutsideState → Type 0
  Other s = s.id ≡ id → s.generation == generation ≡ false

  abbrev NoName : String → String → Type 0
  NoName name got = Unit

  abbrev Unlike : String → Type 0
  Unlike d = d == generation ≡ false

  valid_id : (i : String) (s : OutsideState) → is_valid i s ≡ true → s.id ≡ i
  valid_id i s h = ground (arith, eq_iff s.id i)

  updated-gone :
      (i : String) (o : Option OutsideState) (f : String → Option OutsideState)
      → (i ≡ id → grants generation o ≡ false)
      → grants generation (f id) ≡ false
      → grants generation (update f i o id) ≡ false
  updated-gone i o f h k =
      by_test (λ x. grants generation x ≡ false) (i == id) o (f id)
        (λ same. h ((eq_iff i id).0 same)) (λ _. k)

  Revoked-Frame : Frame Revoked Other NoName Unlike
  Revoked-Frame = record {
    quiet = λ v w u i. record { gone = i.gone; fresh = i.fresh };
    draws = λ x xs v h i.
        let both = subst (λ l. All (λ d. d == generation ≡ false) l) h i.fresh in
        (both.0, record { gone = i.gone; fresh = both.1 });
    files = λ path token v i. record { gone = i.gone; fresh = i.fresh };
    records = λ f v i. record { gone = i.gone; fresh = i.fresh };
    names = λ name got v h i. tt;
    reads = λ i s v h valid r same.
        ap (grants generation) (sym h)
        ∙ subst (λ x. grants generation (v.outside x) ≡ false) (sym same ∙ valid_id i s valid)
            r.gone;
    writes = λ s v other i. record {
      gone = updated-gone s.id (some s) v.outside other i.gone;
      fresh = i.fresh;
    };
  }

  module _ (hash : String → String) where
    operate-Revoked : (o : Operation) (v : Vault) → Revoked v → Revoked (operate hash o v)
    operate-Revoked (registers origin name path) v i =
        kept Revoked Any (register_outside hash origin name path v) (
          register_outside-Leaves Revoked Other NoName Unlike Revoked-Frame hash teams
            (λ n token d g _ unlike _. unlike)
            (λ d u _ j. record {
              gone = updated-gone (concat "outside-" d) none u.outside (λ _. refl) j.gone;
              fresh = j.fresh;
            })
            origin name path v i)
      where
        teams : (u : Vault) (w : World) → Revoked u → Revoked (record u { team = w })
        teams u w j = record { gone = j.gone; fresh = j.fresh }
    operate-Revoked (rotates origin name path) v i =
        kept Revoked Any (rotate_outside hash origin name path v) (
          rotate_outside-Leaves Revoked Other NoName Unlike Revoked-Frame hash
            (λ s token g _ unlike _. unlike) origin name path v i)
    operate-Revoked (removes origin name) v i =
        kept Revoked Any (remove_outside hash origin name v) (
          remove_outside-Leaves Revoked Other NoName Unlike Revoked-Frame hash
            (λ u w j. record { gone = j.gone; fresh = j.fresh })
            (λ s u _ j. record {
              gone = updated-gone s.id none u.outside (λ _. refl) j.gone;
              fresh = j.fresh;
            })
            origin name v i)
    operate-Revoked (queues name e) v i = kept Revoked Any (queue_outside hash name e v) (
        queue_outside-Leaves Revoked Other NoName Unlike Revoked-Frame hash (λ s x other. other)
          name e v i)
    operate-Revoked (acknowledges i' name g ids) v i =
        kept Revoked Any (acknowledge hash i' name g ids v) (
          acknowledge-Leaves Revoked Other NoName Unlike Revoked-Frame hash ids (λ s other. other)
            i' name g v i)
    operate-Revoked (puts i' name g key value) v i =
        kept Revoked Any (put_record hash i' name g key value v)
          (put_record-Leaves Revoked Other NoName Unlike Revoked-Frame hash i' name g key value v i)
    operate-Revoked (deletes i' name g key) v i =
        kept Revoked Any (delete_record hash i' name g key v)
          (delete_record-Leaves Revoked Other NoName Unlike Revoked-Frame hash i' name g key v i)

    operate_all-Revoked :
        (os : List Operation) (v : Vault) → Revoked v → Revoked (operate_all hash os v)
    unfolding operate_all
    operate_all-Revoked [] v i = i
    operate_all-Revoked (o ∷ os) v i =
        operate_all-Revoked os (operate hash o v) (operate-Revoked o v i)

    refuses :
        (r : Answer OutsideState × Vault)
        → After Revoked
            (λ s. (s.generation == generation ≡ false) × (s.generation == generation ≡ true))
            r
        → IsRefused r
    refuses (ok s, v) h = ground arith
    refuses (denied, v) h = tt
    refuses (err x, v) h = tt

    -- Through any registrations, rotations, removals, sends, acknowledgements and changes of records, whichever of their
    -- calls fail: the principal of an identity and a generation is refused, if at first the identity has no registration of the
    -- generation, and if the generation is not among what is drawn later.
    pub resolve_principal-IsRefused :
        (os : List Operation) (v : Vault)
        → grants generation (v.outside id) ≡ false
        → All (λ d. d == generation ≡ false) v.draws
        → IsRefused (resolve_principal hash id generation (operate_all hash os v))
    resolve_principal-IsRefused os v gone fresh =
        refuses (resolve_principal hash id generation (operate_all hash os v)) (
          resolve_principal-Leaves Revoked Other NoName Unlike Revoked-Frame hash
            (λ s. s.generation == generation ≡ false) id generation
            (valid_state-Leaves Revoked Other NoName Unlike Revoked-Frame
              (λ s. s.generation == generation ≡ false) id
              (λ s u h valid i. Revoked-Frame.reads id s u h valid i (valid_id id s valid)))
            (operate_all hash os v)
            (operate_all-Revoked os v (record { gone = gone; fresh = fresh })))
