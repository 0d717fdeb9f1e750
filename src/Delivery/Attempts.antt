-- ===== src/Delivery/Attempts.antt =====
-- cmd/gang/delivery.go: what is done with the chosen envelope keeps the invariant of a round.
use gangline.Prelude.{
  ◌≤◌, String, ◌≡◌, refl, ap, Bool, true, false, not, ◌&&◌, ◌||◌, Option, none, some, List, ◌++◌,
  ◌==◌, if◌then◌else◌, arith, by_test,
}
use gangline.Core.Types.{Envelope}
use gangline.Delivery.{
  is_resume_envelope, capacity_envelope, completed_resume, ordinary, outrank, or_else,
}
use gangline.Delivery.Drain.{
  Native, not_native, native_error, unfiled, written, Input, input_free, input_busy, input_error,
  CapacityInput, capacity_ready, capacity_waits, capacity_cancelled, capacity_unrecorded,
  capacity_error, Typed, typed, deliver_error, Answers, sent, cancelled, Mail, Step, go, halt,
  then_do, leave, retire_all, choose, outcome_of, type_envelope, after_capacity, after_input,
  after_native, startup_failed, attempt,
}
use gangline.Delivery.Chosen.{among, ordinary-live}
use gangline.Delivery.Rounds.{After, After-then_do, Reason, outranks, Sendable, Permitted, Rule}
use gangline.Delivery.Scan.{Covered, Next, choose-Next, retire_all-Within}
use gangline.Delivery.Drain.{drain_round}

module _ (y : Answers) (I : Mail → Type 0) (rule : Rule y I) where
  -- An envelope of the queue that may be next.
  record Ready (e : Envelope) (m : Mail) : Type 0 where
    holds : I m
    there : 1 ≤ among e.id m.queue
    reason : Reason y e

  outrank-Ready :
      (pending : List Envelope) (n : Envelope) (m : Mail)
      → Next y I rule pending n m
      → Ready (outrank y.now pending n) m
  unfolding outrank
  outrank-Ready pending n m h =
      by_test (λ e. Ready e m) (capacity_envelope n) (or_else (ordinary y.now pending) n) n
        (λ capacity. before capacity (ordinary y.now pending) refl) (λ _. stays_next)
    where
      stays_next : Ready n m
      stays_next = record { holds = h.holds; there = h.there; reason = h.reason }

      before :
          capacity_envelope n ≡ true
          → (o : Option Envelope) → ordinary y.now pending ≡ o
          → Ready (or_else o n) m
      before capacity none found = stays_next
      before capacity (some e) found =
          let (test, alive) = ordinary-live y.now pending e found in
          record {
            holds = h.holds;
            there = omega (arith, alive, h.alive e.id);
            reason = outranks n h.reason capacity test;
          }

  abbrev Holds : Step Unit → Type 0
  Holds s = After (λ _ k. I k) I s

  outcome_of-holds :
      (target : String) (e : Envelope) (outcome : String) (m : Mail)
      → I m
      → I (outcome_of y target e outcome m)
  outcome_of-holds target e outcome m h =
      by_test I (e.id == target) (record m { result = outcome }) m (λ _. rule.reports m outcome h)
        (λ _. h)

  type_envelope-Holds :
      (target : String) (e : Envelope) (m : Mail)
      → Ready e m
      → Sendable y e
      → Holds (type_envelope y target e m)
  unfolding type_envelope Permitted
  type_envelope-Holds target e m h why = types (y.delivers e)
    where
      types :
          (t : Typed)
          → Holds (elim t [
            | deliver_error outcome ↦ halt (outcome_of y target e outcome m)
            | typed outcome withdrawn ok ↦
                let after = outcome_of y target e outcome (leave e (sent outcome) m) in
                if not ok || withdrawn || is_resume_envelope e && outcome == "unverified"
                then halt after
                else go tt after
          ])
      types (deliver_error outcome) = outcome_of-holds target e outcome m h.holds
      types (typed outcome withdrawn ok) =
          let after = outcome_of y target e outcome (leave e (sent outcome) m) in
          let kept : I after =
            outcome_of-holds target e outcome (leave e (sent outcome) m)
              (rule.leaves e (sent outcome) m h.there why h.holds) in
          by_test Holds (not ok || withdrawn || is_resume_envelope e && outcome == "unverified")
            (halt after) (go tt after) (λ _. kept) (λ _. kept)

  after_capacity-Holds :
      (target : String) (e : Envelope) (m : Mail)
      → Ready e m
      → Sendable y e
      → capacity_envelope e ≡ true
      → Holds (after_capacity y target e m)
  unfolding after_capacity Permitted
  after_capacity-Holds target e m h why capacity = goes (y.capacity e)
    where
      goes :
          (c : CapacityInput)
          → Holds (elim c [
            | capacity_ready ↦ type_envelope y target e m
            | capacity_waits ↦ halt m
            | capacity_cancelled ↦ go tt (leave e cancelled m)
            | capacity_unrecorded ↦ halt (leave e cancelled m)
            | capacity_error ↦ halt m
          ])
      goes capacity_ready = type_envelope-Holds target e m h why
      goes capacity_waits = h.holds
      goes capacity_cancelled = rule.leaves e cancelled m h.there (capacity, why) h.holds
      goes capacity_unrecorded = rule.leaves e cancelled m h.there (capacity, why) h.holds
      goes capacity_error = h.holds

  after_input-Holds :
      (target : String) (e : Envelope) (m : Mail)
      → Ready e m
      → Sendable y e
      → Holds (after_input y target e m)
  unfolding after_input
  after_input-Holds target e m h why = goes y.input
    where
      goes :
          (i : Input)
          → Holds (elim i [
            | input_free ↦
                if capacity_envelope e
                then after_capacity y target e m
                else type_envelope y target e m
            | input_busy ↦ halt m
            | input_error ↦ halt m
          ])
      goes input_free =
          by_test Holds (capacity_envelope e) (after_capacity y target e m)
            (type_envelope y target e m)
            (λ capacity. after_capacity-Holds target e m h why capacity)
            (λ _. type_envelope-Holds target e m h why)
      goes input_busy = h.holds
      goes input_error = h.holds

  after_native-Holds :
      (target : String) (e : Envelope) (m : Mail)
      → Ready e m
      → Sendable y e
      → Holds (after_native y target e m)
  unfolding after_native Permitted
  after_native-Holds target e m h why = goes (y.native e)
    where
      goes :
          (n : Native)
          → Holds (elim n [
            | not_native ↦ after_input y target e m
            | native_error ↦ halt m
            | unfiled outcome ↦ halt (outcome_of y target e outcome m)
            | written outcome ok ↦
                let after = outcome_of y target e outcome (leave e (sent outcome) m) in
                if ok then go tt after else halt after
          ])
      goes not_native = after_input-Holds target e m h why
      goes native_error = h.holds
      goes (unfiled outcome) = outcome_of-holds target e outcome m h.holds
      goes (written outcome ok) =
          let after = outcome_of y target e outcome (leave e (sent outcome) m) in
          let kept : I after =
            outcome_of-holds target e outcome (leave e (sent outcome) m)
              (rule.leaves e (sent outcome) m h.there why h.holds) in
          by_test Holds ok (go tt after) (halt after) (λ _. kept) (λ _. kept)

  attempt-Holds :
      (target : String) (e : Envelope) (m : Mail) → Ready e m → Holds (attempt y target e m)
  unfolding attempt
  attempt-Holds target e m h =
      let resume = is_resume_envelope e && not (completed_resume y.agent y.agent.compaction e) in
      let native = after_native y target e m in
      let started = if startup_failed y y.failed_startup then halt m else native in
      by_test Holds (not y.opens) (halt m) (if resume then halt m else started) (λ _. h.holds)
        (λ _.
          by_test Holds resume (halt m) started (λ _. h.holds)
            (λ resumes.
              by_test Holds (startup_failed y y.failed_startup) (halt m) native (λ _. h.holds)
                (λ fine. after_native-Holds target e m h (record {
                  reason = h.reason;
                  resumes = λ is_resume. ground (arith, resumes, is_resume);
                  started = known y.failed_startup fine;
                }))))
    where
      known : (o : Option Bool) → startup_failed y o ≡ false → o ≡ some false
      known none fine = cc
      known (some failed) fine = ap (λ b. some b) fine

  -- A round keeps the invariant, if it holds with what has arrived.
  pub drain_round-Holds :
      (sort : List Envelope → List Envelope) (target : String) (m : Mail)
      → I (record m { queue = sort (y.arrived ++ m.queue) })
      → Holds (drain_round y sort target m)
  unfolding drain_round
  drain_round-Holds sort target m h =
      let pending = sort (y.arrived ++ m.queue) in
      let arrived = record m { queue = pending } in
      by_test Holds (not y.lists) (halt arrived)
        (then_do (retire_all y pending arrived) λ kept n.
          then_do (choose y kept n) λ next k. attempt y target (outrank y.now kept next) k)
        (λ _. h)
        (λ _.
          After-then_do (λ kept n. Covered y I rule kept n) (λ _ k. I k) I
            (retire_all y pending arrived) _
            (retire_all-Within y I rule pending (λ id. 0) arrived
              (record { holds = h; within = λ id. omega arith }))
            (λ kept n covered.
              After-then_do (λ x k. Next y I rule kept x k) (λ _ k. I k) I (choose y kept n) _
                (choose-Next y I rule kept n covered)
                (λ next k ready.
                  attempt-Holds target (outrank y.now kept next) k
                    (outrank-Ready kept next k ready))))
