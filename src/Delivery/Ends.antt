-- ===== src/Delivery/Ends.antt =====
-- cmd/gang/delivery.go: a drain ends, since each round that goes on files an envelope.
use gangline.Prelude.{
  ℕ, zero, suc, ◌+◌, ◌≤◌, ◌<◌, String, ◌≡◌, refl, Bool, true, not, ◌&&◌, ◌||◌, List, [], ◌++◌, ◌==◌,
  if◌then◌else◌, arith, by_test,
}
use gangline.Core.Types.{Agent, Envelope}
use gangline.Delivery.{
  is_resume_envelope, capacity_envelope, completed_resume, takes_nothing, outrank,
}
use gangline.Delivery.Drain.{
  Native, not_native, native_error, unfiled, written, Input, input_free, input_busy, input_error,
  CapacityInput, capacity_ready, capacity_waits, capacity_cancelled, capacity_unrecorded,
  capacity_error, Typed, typed, deliver_error, Answers, sent, cancelled, Mail, Step, go, halt,
  then_do, leave, retire_all, choose, outcome_of, type_envelope, after_capacity, after_input,
  after_native, startup_failed, attempt, drain_round, Drained, returned, out_of_rounds, drain_loop,
  drain_locked,
}
use gangline.Delivery.Chosen.{count}
use gangline.Delivery.Rounds.{After, Rule}
use gangline.Delivery.Scan.{Covered, Next, choose-Next, retire_all-Within}
use gangline.Delivery.Attempts.{drain_round-Holds}
use gangline.Delivery.Drained.{filed, IsSort, arrivals, total, total-Rule, arrived-total}

abbrev pub any : String → Bool
any id = true

-- What a step that goes on leaves, whatever one that returns leaves.
then_do-After :
    {A B : Type 0} (P : A → Mail → Type 0) (R : B → Mail → Type 0) (Q : Mail → Type 0) (s : Step A)
    (f : A → Mail → Step B)
    → After P Q s
    → ((a : A) (m : Mail) → P a m → After R (λ k. Unit) (f a m))
    → After R (λ k. Unit) (then_do s f)
then_do-After P R Q (go a m) f p k = k a m p
then_do-After P R Q (halt m) f p k = tt

module _ (y : Answers) where
  -- Something more is filed, if the loop goes on.
  abbrev Files : ℕ → Step Unit → Type 0
  Files n s = After (λ _ k. suc n ≤ filed any k.done) (λ k. Unit) s

  filed-outcome_of :
      (target : String) (e : Envelope) (outcome : String) (m : Mail)
      → filed any (outcome_of y target e outcome m).done ≡ filed any m.done
  filed-outcome_of target e outcome m =
      by_test (λ k. filed any k.done ≡ filed any m.done) (e.id == target)
        (record m { result = outcome }) m (λ _. refl) (λ _. refl)

  type_envelope-Files :
      (n : ℕ) (target : String) (e : Envelope) (m : Mail)
      → n ≤ filed any m.done
      → Files n (type_envelope y target e m)
  unfolding type_envelope leave filed
  type_envelope-Files n target e m h = goes (y.delivers e)
    where
      goes :
          (t : Typed)
          → Files n (elim t [
            | deliver_error outcome ↦ halt (outcome_of y target e outcome m)
            | typed outcome withdrawn ok ↦
                let after = outcome_of y target e outcome (leave e (sent outcome) m) in
                if not ok || withdrawn || is_resume_envelope e && outcome == "unverified"
                then halt after
                else go tt after
          ])
      goes (deliver_error outcome) = tt
      goes (typed outcome withdrawn ok) =
          let after = outcome_of y target e outcome (leave e (sent outcome) m) in
          by_test (Files n) (not ok || withdrawn || is_resume_envelope e && outcome == "unverified")
            (halt after) (go tt after) (λ _. tt)
            (λ _. omega (arith, filed-outcome_of target e outcome (leave e (sent outcome) m), h))

  after_input-Files :
      (n : ℕ) (target : String) (e : Envelope) (m : Mail)
      → n ≤ filed any m.done
      → Files n (after_input y target e m)
  unfolding after_input after_capacity leave filed
  after_input-Files n target e m h = goes y.input
    where
      takes :
          (c : CapacityInput)
          → Files n (elim c [
            | capacity_ready ↦ type_envelope y target e m
            | capacity_waits ↦ halt m
            | capacity_cancelled ↦ go tt (leave e cancelled m)
            | capacity_unrecorded ↦ halt (leave e cancelled m)
            | capacity_error ↦ halt m
          ])
      takes capacity_ready = type_envelope-Files n target e m h
      takes capacity_waits = tt
      takes capacity_cancelled = omega (arith, h)
      takes capacity_unrecorded = tt
      takes capacity_error = tt

      goes :
          (i : Input)
          → Files n (elim i [
            | input_free ↦
                if capacity_envelope e
                then after_capacity y target e m
                else type_envelope y target e m
            | input_busy ↦ halt m
            | input_error ↦ halt m
          ])
      goes input_free =
          by_test (Files n) (capacity_envelope e) (after_capacity y target e m)
            (type_envelope y target e m) (λ _. takes (y.capacity e))
            (λ _. type_envelope-Files n target e m h)
      goes input_busy = tt
      goes input_error = tt

  after_native-Files :
      (n : ℕ) (target : String) (e : Envelope) (m : Mail)
      → n ≤ filed any m.done
      → Files n (after_native y target e m)
  unfolding after_native leave filed
  after_native-Files n target e m h = goes (y.native e)
    where
      goes :
          (w : Native)
          → Files n (elim w [
            | not_native ↦ after_input y target e m
            | native_error ↦ halt m
            | unfiled outcome ↦ halt (outcome_of y target e outcome m)
            | written outcome ok ↦
                let after = outcome_of y target e outcome (leave e (sent outcome) m) in
                if ok then go tt after else halt after
          ])
      goes not_native = after_input-Files n target e m h
      goes native_error = tt
      goes (unfiled outcome) = tt
      goes (written outcome ok) =
          let after = outcome_of y target e outcome (leave e (sent outcome) m) in
          by_test (Files n) ok (go tt after) (halt after)
            (λ _. omega (arith, filed-outcome_of target e outcome (leave e (sent outcome) m), h))
            (λ _. tt)

  attempt-Files :
      (n : ℕ) (target : String) (e : Envelope) (m : Mail)
      → n ≤ filed any m.done
      → Files n (attempt y target e m)
  unfolding attempt
  attempt-Files n target e m h =
      let resume = is_resume_envelope e && not (completed_resume y.agent y.agent.compaction e) in
      let native = after_native y target e m in
      let started = if startup_failed y y.failed_startup then halt m else native in
      by_test (Files n) (not y.opens) (halt m) (if resume then halt m else started) (λ _. tt)
        (λ _.
          by_test (Files n) resume (halt m) started (λ _. tt)
            (λ _.
              by_test (Files n) (startup_failed y y.failed_startup) (halt m) native (λ _. tt)
                (λ _. after_native-Files n target e m h)))

  filed-Rule : (n : ℕ) → Rule y (λ m. n ≤ filed any m.done)
  unfolding leave filed
  filed-Rule n = record { leaves = λ e fate m there why h. omega (arith, h); reports = λ m r h. h }

  drain_round-Files :
      (sort : List Envelope → List Envelope) (target : String) (m : Mail)
      → Files (filed any m.done) (drain_round y sort target m)
  unfolding drain_round
  drain_round-Files sort target m =
      let n = filed any m.done in
      let I : Mail → Type 0 = λ k. n ≤ filed any k.done in
      let pending = sort (y.arrived ++ m.queue) in
      let arrived = record m { queue = pending } in
      let Grown : Unit → Mail → Type 0 = λ _ k. suc n ≤ filed any k.done in
      by_test (Files n) (not y.lists) (halt arrived)
        (then_do (retire_all y pending arrived) λ kept k.
          then_do (choose y kept k) λ next l. attempt y target (outrank y.now kept next) l)
        (λ _. tt)
        (λ _.
          then_do-After (λ kept k. Covered y I (filed-Rule n) kept k) Grown I
            (retire_all y pending arrived) _
            (retire_all-Within y I (filed-Rule n) pending (λ id. 0) arrived
              (record { holds = omega arith; within = λ id. omega arith }))
            (λ kept k covered.
              then_do-After (λ x l. Next y I (filed-Rule n) kept x l) Grown I (choose y kept k) _
                (choose-Next y I (filed-Rule n) kept k covered)
                (λ next l ready. attempt-Files n target (outrank y.now kept next) l ready.holds)))

abbrev pub IsReturned : Drained → Type 0
IsReturned (returned m) = Unit
IsReturned (out_of_rounds m) = ⊥

module _ (sort : List Envelope → List Envelope) (sorts : IsSort sort) (target : String) where
  drain_loop-IsReturned :
      (fuel : ℕ) (answers : ℕ → Answers) (n : ℕ) (m : Mail)
      → count any m.queue + arrivals any answers n fuel < fuel
      → IsReturned (drain_loop fuel answers sort target n m)
  unfolding drain_loop arrivals
  drain_loop-IsReturned zero answers n m h = omega (arith, h)
  drain_loop-IsReturned (suc fuel) answers n m h =
      next (drain_round (answers n) sort target m) (drain_round-Files (answers n) sort target m)
        (drain_round-Holds (answers n)
          (λ k. total any k ≡ count any (answers n).arrived + total any m)
          (total-Rule (answers n) any (count any (answers n).arrived + total any m)) sort target m
          (arrived-total sort sorts target (answers n) any m))
        (λ k less. drain_loop-IsReturned fuel answers (n + 1) k less)
    where
      next :
          (s : Step Unit)
          → Files (answers n) (filed any m.done) s
          → After
              (λ _ k. total any k ≡ count any (answers n).arrived + total any m)
              (λ k. total any k ≡ count any (answers n).arrived + total any m)
              s
          → ((k : Mail)
              → count any k.queue + arrivals any answers (n + 1) fuel < fuel
              → IsReturned (drain_loop fuel answers sort target (n + 1) k))
          → IsReturned (elim s [
            | halt k ↦ returned k
            | go _ k ↦ drain_loop fuel answers sort target (n + 1) k
          ])
      next (halt k) files kept rest = tt
      next (go _ k) files kept rest = rest k (omega (arith, files, kept, h))

  -- A drain returns, after at most as many rounds as envelopes are queued before it and during it, and one more.
  pub drain_locked-IsReturned :
      (fuel : ℕ) (a : Agent) (answers : ℕ → Answers) (queue : List Envelope)
      → count any queue + arrivals any answers 0 fuel < fuel
      → IsReturned (drain_locked fuel a answers sort target queue)
  unfolding drain_locked
  drain_locked-IsReturned fuel a answers queue h =
      let m : Mail = record { queue = queue; done = []; result = "queued" } in
      by_test IsReturned (takes_nothing a) (returned m) (drain_loop fuel answers sort target 0 m)
        (λ _. tt) (λ _. drain_loop-IsReturned fuel answers 0 m h)
