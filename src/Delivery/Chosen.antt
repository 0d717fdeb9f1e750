-- ===== src/Delivery/Chosen.antt =====
-- cmd/gang/delivery.go: an envelope that is typed is there, is due, and may be typed.
use mathlib.Core.Path.{subst}
use gangline.Prelude.{
  ℕ, ◌+◌, ◌≤◌, String, ◌≡◌, inl, inr, refl, Bool, true, false, not, ◌&&◌, ◌||◌, some, List, [], ◌∷◌,
  ◌++◌, ◌==◌, arith, eq_iff, eq_refl, Bool-cases, by_test, some_injective,
}
use gangline.Core.Types.{Agent, Envelope, Time}
use gangline.Delivery.{
  is_startup_envelope, capacity_envelope, completed_resume, has_expired, is_due, find_id, reserved,
  ordinary,
}
use gangline.Delivery.Drain.{remove_id}

abbrev pub one_if : Bool → ℕ
one_if true = 1
one_if false = 0

-- How many envelopes have an identity that passes the test.
unfoldable pub count : (String → Bool) → List Envelope → ℕ
count p [] = 0
count p (e ∷ es) = one_if (p e.id) + count p es

abbrev pub among : String → List Envelope → ℕ
among id es = count (λ i. i == id) es

pub count-append :
    (p : String → Bool) (xs ys : List Envelope) → count p (xs ++ ys) ≡ count p xs + count p ys
unfolding count
count-append p [] ys = omega arith
count-append p (x ∷ xs) ys = omega (arith, count-append p xs ys)

-- One envelope leaves the queue, and no other.
pub count-remove_id :
    (p : String → Bool) (id : String) (es : List Envelope)
    → 1 ≤ among id es
    → count p (remove_id id es) + one_if (p id) ≡ count p es
unfolding count remove_id
count-remove_id p id [] h = omega (arith, h)
count-remove_id p id (e ∷ es) h =
    by_test (λ l. count p l + one_if (p id) ≡ one_if (p e.id) + count p es) (e.id == id) es
      (e ∷ remove_id id es) (λ same. rw ((eq_iff e.id id).0 same) (omega arith))
      (λ other. omega (arith, count-remove_id p id es (omega (arith, rw other at h))))

module _ (now : Time) where
  -- those that have not expired
  unfoldable pub live : String → List Envelope → ℕ
  live id [] = 0
  live id (e ∷ es) = one_if (e.id == id && not (has_expired now e)) + live id es

  unfoldable pub dead : String → List Envelope → ℕ
  dead id [] = 0
  dead id (e ∷ es) = one_if (e.id == id && has_expired now e) + dead id es

  pub live-dead : (id : String) (es : List Envelope) → live id es + dead id es ≡ among id es
  unfolding live dead count
  live-dead id [] = refl
  live-dead id (e ∷ es) = ground (arith, live-dead id es)

  pub find_id-among :
      (id : String) (es : List Envelope) (e : Envelope)
      → find_id id es ≡ some e
      → (e.id ≡ id) × (1 ≤ among e.id es)
  unfolding find_id count
  find_id-among id [] e found = cc
  find_id-among id (x ∷ es) e found = elim (Bool-cases (x.id == id)) [
    | inl same ↦
        let this : x ≡ e = some_injective x e (rw same at found) in
        subst (λ z. (z.id ≡ id) × (1 ≤ one_if (x.id == z.id) + count (λ i. i == z.id) es)) this
          ((eq_iff x.id id).0 same, rw (eq_refl x.id) (omega arith))
    | inr other ↦
        let (at_id, there) = find_id-among id es e (rw other at found) in
        (at_id, omega (arith, there))
  ]

  pub reserved-among :
      (a : Agent) (es : List Envelope) (e : Envelope)
      → reserved a es ≡ some e
      → ((completed_resume a a.compaction e || is_startup_envelope e) ≡ true) × (1 ≤ among e.id es)
  unfolding reserved count
  reserved-among a [] e found = cc
  reserved-among a (x ∷ es) e found =
      elim (Bool-cases (completed_resume a a.compaction x || is_startup_envelope x)) [
        | inl this ↦
            subst
              (λ z.
                ((completed_resume a a.compaction z || is_startup_envelope z) ≡ true)
                × (1 ≤ one_if (x.id == z.id) + count (λ i. i == z.id) es))
              (some_injective x e (rw this at found)) (this, rw (eq_refl x.id) (omega arith))
        | inr other ↦
            let (test, there) = reserved-among a es e (rw other at found) in
            (test, omega (arith, there))
      ]

  pub ordinary-live :
      (es : List Envelope) (e : Envelope)
      → ordinary now es ≡ some e
      → ((not (capacity_envelope e) && is_due now e && not (has_expired now e)) ≡ true)
        × (1 ≤ live e.id es)
  unfolding ordinary live
  ordinary-live [] e found = cc
  ordinary-live (x ∷ es) e found =
      elim (Bool-cases (not (capacity_envelope x) && is_due now x && not (has_expired now x))) [
        | inl this ↦
            subst
              (λ z.
                ((not (capacity_envelope z) && is_due now z && not (has_expired now z)) ≡ true)
                × (1 ≤ one_if (x.id == z.id && not (has_expired now x)) + live z.id es))
              (some_injective x e (rw this at found))
              (this, rw (eq_refl x.id) (ground (arith, this)))
        | inr other ↦
            let (test, there) = ordinary-live es e (rw other at found) in
            (test, omega (arith, there))
      ]
