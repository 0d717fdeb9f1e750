-- ===== src/Delivery/Scan.antt =====
-- cmd/gang/delivery.go: the envelope that a round chooses is in the queue, for a reason.
use gangline.Prelude.{
  ℕ, ◌+◌, ◌≤◌, String, ◌≡◌, refl, true, false, not, ◌&&◌, Option, none, some, List, [], ◌∷◌, ◌==◌,
  if◌then◌else◌, arith, eq_refl, by_test,
}
use gangline.Core.Types.{Envelope}
use gangline.Delivery.{clear_pending, clear_id, has_expired, is_due, find_id, reserved}
use gangline.Delivery.Drain.{
  Retirement, retired_envelope, kept_envelope, retire_error, Withdrawal, withdrawn_recorded,
  withdrawn_unrecorded, withdraw_error, Answers, Fate, expired, retired, Mail, Step, go, then_do,
  leave, retire_one, keep, retire_all, expire, first_due, or_due, only, choose,
}
use gangline.Delivery.Chosen.{
  one_if, count, among, count-remove_id, live, dead, live-dead, find_id-among, reserved-among,
}
use gangline.Delivery.Rounds.{
  After, After-then_do, Reason, of_clear, goes_first, by_time, Permitted, Rule,
}

module _ (y : Answers) (I : Mail → Type 0) (rule : Rule y I) where
  -- Beside the invariant, the envelopes are all in the queue, with others.
  pub record Within (extra : String → ℕ) (es : List Envelope) (m : Mail) : Type 0 where
    pub holds : I m
    pub within : (id : String) → extra id + among id es ≤ among id m.queue

  leave-Within :
      (e : Envelope) (fate : Fate) (es : List Envelope) (extra : String → ℕ) (m : Mail)
      → Permitted y fate e
      → Within extra (e ∷ es) m
      → Within extra es (leave e fate m)
  unfolding leave count
  leave-Within e fate es extra m why h =
      let this : one_if (e.id == e.id) ≡ 1 = rw (eq_refl e.id) refl in
      let there : 1 ≤ among e.id m.queue = omega (arith, h.within e.id, this) in
      record {
        holds = rule.leaves e fate m there why h.holds;
        within =
            λ id. omega (arith, count-remove_id (λ i. i == id) e.id m.queue there, h.within id);
      }

  retire_one-Within :
      (e : Envelope) (es : List Envelope) (extra : String → ℕ) (m : Mail)
      → Within extra (e ∷ es) m
      → ((more : String → ℕ) (n : Mail)
          → Within more es n
          → After (λ kept k. Within more kept k) I (retire_all y es n))
      → (r : Retirement) → y.retires e ≡ r
      → After
          (λ kept n. Within extra kept n)
          I
          (then_do
            (retire_one y r e m)
            λ g n. then_do (retire_all y es n) λ kept k. go (keep y g e kept) k)
  unfolding count Permitted
  retire_one-Within e es extra m h ih retired_envelope r =
      After-then_do (λ kept n. Within extra kept n) _ I (retire_all y es (leave e retired m)) _
        (ih extra (leave e retired m) (leave-Within e retired es extra m r h)) (λ kept n w. w)
  retire_one-Within e es extra m h ih kept_envelope r =
      let more : String → ℕ = λ id. extra id + one_if (e.id == id) in
      After-then_do (λ kept n. Within more kept n) (λ kept n. Within extra kept n) I
        (retire_all y es m) _
        (ih more m (record { holds = h.holds; within = λ id. omega (arith, h.within id) }))
        (λ kept n w. record { holds = w.holds; within = λ id. omega (arith, w.within id) })
  retire_one-Within e es extra m h ih retire_error r = h.holds

  pub retire_all-Within :
      (es : List Envelope) (extra : String → ℕ) (m : Mail)
      → Within extra es m
      → After (λ kept n. Within extra kept n) I (retire_all y es m)
  unfolding retire_all
  retire_all-Within [] extra m h = h
  retire_all-Within (e ∷ es) extra m h =
      retire_one-Within e es extra m h (λ more n w. retire_all-Within es more n w) (y.retires e)
        refl

  -- The next envelope is in the queue for a reason, and so are all those that have not expired.
  pub record Next (all : List Envelope) (e : Envelope) (m : Mail) : Type 0 where
    pub holds : I m
    pub there : 1 ≤ among e.id m.queue
    pub reason : Reason y e
    pub alive : (id : String) → live y.now id all ≤ among id m.queue

  -- Of the envelopes that are looked at, those that have expired are still in the queue, with all that have not.
  record Scanned (all es : List Envelope) (m : Mail) : Type 0 where
    holds : I m
    within : (id : String) → live y.now id all + dead y.now id es ≤ among id m.queue
    part : (id : String) → live y.now id es ≤ live y.now id all

  expire-Scanned :
      (e : Envelope) (all es : List Envelope) (m : Mail) (w : Withdrawal) (f : Mail → Step Envelope)
      → has_expired y.now e ≡ true
      → Scanned all (e ∷ es) m
      → ((n : Mail) → Scanned all es n → After (λ x k. Next all x k) I (f n))
      → After (λ x k. Next all x k) I (then_do (expire y w e m) (λ _ n. f n))
  unfolding live dead Permitted leave
  expire-Scanned e all es m w f old h ih = withdraw w
    where
      this : one_if (e.id == e.id && has_expired y.now e) ≡ 1
      this = rw (eq_refl e.id, old) refl

      there : 1 ≤ among e.id m.queue
      there = omega (arith, h.within e.id, this)

      left : I (leave e expired m)
      left = rule.leaves e expired m there old h.holds

      withdraw :
          (w : Withdrawal) → After (λ x k. Next all x k) I (then_do (expire y w e m) (λ _ n. f n))
      withdraw withdrawn_recorded = ih (leave e expired m) (record {
        holds = left;
        within = λ id.
            ground (arith, count-remove_id (λ i. i == id) e.id m.queue there, h.within id, old);
        part = λ id. ground (arith, h.part id, old);
      })
      withdraw withdrawn_unrecorded = left
      withdraw withdraw_error = h.holds

  pass-Scanned :
      (e : Envelope) (all es : List Envelope) (m : Mail)
      → Scanned all (e ∷ es) m
      → has_expired y.now e ≡ false
      → Scanned all es m
  unfolding live dead
  pass-Scanned e all es m h alive = record {
    holds = h.holds;
    within = λ id. omega (arith, h.within id);
    part = λ id. omega (arith, h.part id);
  }

  due-Next :
      (e : Envelope) (all es : List Envelope) (m : Mail)
      → clear_pending y.agent.clear ≡ false
      → Scanned all (e ∷ es) m
      → has_expired y.now e ≡ false
      → is_due y.now e ≡ true
      → Next all e m
  unfolding live dead
  due-Next e all es m clear h alive due =
      let this : one_if (e.id == e.id && not (has_expired y.now e)) ≡ 1 =
        rw (eq_refl e.id, alive) refl in
      record {
        holds = h.holds;
        there = omega (arith, this, h.within e.id, h.part e.id);
        reason = by_time clear alive due;
        alive = λ id. omega (arith, h.within id);
      }

  first_due-Next :
      (all es : List Envelope) (m : Mail)
      → clear_pending y.agent.clear ≡ false
      → Scanned all es m
      → After (λ x k. Next all x k) I (first_due y es m)
  unfolding first_due
  first_due-Next all [] m clear h = h.holds
  first_due-Next all (e ∷ es) m clear h =
      let looked = if is_due y.now e then go e m else first_due y es m in
      by_test (After (λ x k. Next all x k) I) (has_expired y.now e)
        (then_do (expire y (y.withdraws e) e m) (λ _ n. first_due y es n)) looked
        (λ old.
          expire-Scanned e all es m (y.withdraws e) (λ n. first_due y es n) old h
            λ n s. first_due-Next all es n clear s)
        (λ alive.
          by_test (After (λ x k. Next all x k) I) (is_due y.now e) (go e m) (first_due y es m)
            (λ due. due-Next e all es m clear h alive due)
            (λ _. first_due-Next all es m clear (pass-Scanned e all es m h alive)))

  -- The envelopes are those of the queue.
  abbrev pub Covered : List Envelope → Mail → Type 0
  Covered pending m = Within (λ id. 0) pending m

  at_once :
      (pending : List Envelope) (m : Mail) (e : Envelope)
      → Covered pending m
      → 1 ≤ among e.id pending
      → Reason y e
      → Next pending e m
  at_once pending m e h there why = record {
    holds = h.holds;
    there = omega (arith, there, h.within e.id);
    reason = why;
    alive = λ id. omega (arith, live-dead y.now id pending, h.within id);
  }

  only-Next :
      (pending : List Envelope) (m : Mail) (o : Option Envelope)
      → clear_pending y.agent.clear ≡ true
      → Covered pending m
      → find_id (clear_id y.agent.clear) pending ≡ o
      → After (λ x k. Next pending x k) I (only y o m)
  only-Next pending m none clear h found = h.holds
  only-Next pending m (some e) clear h found =
      let (at_id, there) = find_id-among y.now (clear_id y.agent.clear) pending e found in
      at_once pending m e h there (of_clear clear at_id)

  or_due-Next :
      (pending : List Envelope) (m : Mail) (o : Option Envelope)
      → clear_pending y.agent.clear ≡ false
      → Covered pending m
      → reserved y.agent pending ≡ o
      → After (λ x k. Next pending x k) I (or_due y o pending m)
  or_due-Next pending m none clear h found = first_due-Next pending pending m clear (record {
    holds = h.holds;
    within = λ id. omega (arith, live-dead y.now id pending, h.within id);
    part = λ id. omega arith;
  })
  or_due-Next pending m (some e) clear h found =
      let (test, there) = reserved-among y.now y.agent pending e found in
      at_once pending m e h there (goes_first clear test)

  pub choose-Next :
      (pending : List Envelope) (m : Mail)
      → Covered pending m
      → After (λ x k. Next pending x k) I (choose y pending m)
  unfolding choose
  choose-Next pending m h =
      by_test (After (λ x k. Next pending x k) I) (clear_pending y.agent.clear)
        (only y (find_id (clear_id y.agent.clear) pending) m)
        (or_due y (reserved y.agent pending) pending m)
        (λ clear. only-Next pending m _ clear h refl)
        (λ clear. or_due-Next pending m _ clear h refl)
