-- ===== src/Usage/Taken.antt =====
-- cmd/gang/usage_state.go: the wake that a delivery acknowledges.
use mathlib.Core.Path.{subst}
use gangline.Prelude.{
  String, ◌≡◌, refl, sym, ap, ◌∙◌, Bool, true, false, ◌||◌, none, some, List, [], ◌∷◌, ◌==◌, arith,
  eq_iff, eq_refl, Bool-cases, by_test, inl, inr, ◌⊎◌,
}
use gangline.Usage.{Snooze, UsageState}
use gangline.Usage.Acknowledge.{
  Delivery, is_wake, delivered_wake, is_of, settle_wake, settle_wakes, acknowledge_usage_delivery,
}

-- The loop meets the key.
unfoldable meets : String → List String → Bool
meets key [] = false
meets key (k ∷ keys) = k == key || meets key keys

-- The one wake of the envelope is taken by its turn, and nothing else has changed.
record Taken (y : Delivery) (key : String) (s : Snooze) (st after : UsageState) : Type 0 where
  sent : after.recent key ≡ some (delivered_wake y s)
  left : after.snoozes key ≡ none
  other_recent : (k : String) → (key == k) ≡ false → after.recent k ≡ st.recent k
  other_snoozes : (k : String) → (key == k) ≡ false → after.snoozes k ≡ st.snoozes k

module _ (y : Delivery) (key : String) (s : Snooze) (st : UsageState) where
  settle_wake-Taken : y.outcome ≡ "delivered" → Taken y key s st (settle_wake y key (some s) st)
  unfolding settle_wake
  settle_wake-Taken delivered = rw delivered (record {
    sent = rw (eq_refl key) refl;
    left = rw (eq_refl key) refl;
    other_recent = λ k other. rw other refl;
    other_snoozes = λ k other. rw other refl;
  })

  settle_wakes-Taken :
      (keys : List String)
      → y.outcome ≡ "delivered"
      → st.snoozes key ≡ some s
      → is_of y (some s) ≡ true
      → ((k : String) → is_of y (st.snoozes k) ≡ true → k ≡ key)
      → meets key keys ≡ true
      → Taken y key s st (settle_wakes y keys st)
  unfolding settle_wakes meets
  settle_wakes-Taken [] delivered there this single met = ground (arith, met)
  settle_wakes-Taken (k ∷ keys) delivered there this single met =
      by_test (Taken y key s st) (is_of y (st.snoozes k)) (settle_wake y k (st.snoozes k) st)
        (settle_wakes y keys st)
        (λ found.
          subst (λ j. Taken y key s st (settle_wake y j (st.snoozes j) st)) (sym (single k found))
            (subst (λ o. Taken y key s st (settle_wake y key o st)) (sym there)
              (settle_wake-Taken delivered)))
        (λ missed.
          settle_wakes-Taken keys delivered there this single
            (later missed (Bool-cases (k == key))))
    where
      clash : {x : Bool} → x ≡ false → x ≡ true → ⊥
      clash e f = ground (arith, e, f)

      later :
          is_of y (st.snoozes k) ≡ false
          → ((k == key) ≡ true) ⊎ ((k == key) ≡ false)
          → meets key keys ≡ true
      later missed (inr other) = ground (arith, met, other)
      later missed (inl same) = absurd (
          clash missed (
            ap (λ j. is_of y (st.snoozes j)) ((eq_iff k key).0 same)
            ∙ ap (λ o. is_of y o) there
            ∙ this))

  -- A wake that is acknowledged as delivered leaves `Snoozes` for `Recent`, under the same key and with the turn
  -- that took it, and nothing else changes, if it is the only wake of its envelope and recipient, and the
  -- loop meets its key.
  acknowledge_usage_delivery-Taken :
      (keys : List String)
      → is_wake y ≡ true
      → y.outcome ≡ "delivered"
      → st.snoozes key ≡ some s
      → is_of y (some s) ≡ true
      → ((k : String) → is_of y (st.snoozes k) ≡ true → k ≡ key)
      → meets key keys ≡ true
      → Taken y key s st (acknowledge_usage_delivery y keys st)
  unfolding acknowledge_usage_delivery
  acknowledge_usage_delivery-Taken keys wake delivered there this single met =
      rw wake (settle_wakes-Taken keys delivered there this single met)
