-- ===== src/Delivery/Reasons.antt =====
-- cmd/gang/delivery.go: every envelope that a drain types or files has a reason.
use gangline.Prelude.{ℕ, zero, suc, ◌+◌, String, List, [], by_test, All}
use gangline.Core.Types.{Agent, Envelope}
use gangline.Delivery.{takes_nothing}
use gangline.Delivery.Drain.{
  Answers, Entry, Mail, Step, go, halt, leave, drain_round, returned, drain_loop, drain_locked,
}
use gangline.Delivery.Rounds.{After, Permitted, Rule}
use gangline.Delivery.Attempts.{drain_round-Holds}
use gangline.Delivery.Drained.{mail_of}

-- In some round of the drain, the envelope might meet its fate.
pub record Justified (answers : ℕ → Answers) (x : Entry) : Type 0 where
  pub round : ℕ
  pub permitted : Permitted (answers round) x.fate x.envelope

Justified-Rule :
    (answers : ℕ → Answers) (n : ℕ) → Rule (answers n) (λ m. All (λ x. Justified answers x) m.done)
unfolding leave
Justified-Rule answers n = record {
  leaves = λ e fate m there why h. (record { round = n; permitted = why }, h);
  reports = λ m r h. h;
}

module _ (sort : List Envelope → List Envelope) (target : String) where
  drain_loop-Justified :
      (fuel : ℕ) (answers : ℕ → Answers) (n : ℕ) (m : Mail)
      → All (λ x. Justified answers x) m.done
      → All (λ x. Justified answers x) (mail_of (drain_loop fuel answers sort target n m)).done
  unfolding drain_loop
  drain_loop-Justified zero answers n m h = h
  drain_loop-Justified (suc fuel) answers n m h =
      next (drain_round (answers n) sort target m)
        (drain_round-Holds (answers n) (λ k. All (λ x. Justified answers x) k.done)
          (Justified-Rule answers n) sort target m h)
        (λ k kept. drain_loop-Justified fuel answers (n + 1) k kept)
    where
      next :
          (s : Step Unit)
          → After
              (λ _ k. All (λ x. Justified answers x) k.done)
              (λ k. All (λ x. Justified answers x) k.done)
              s
          → ((k : Mail)
              → All (λ x. Justified answers x) k.done
              → All
                  (λ x. Justified answers x)
                  (mail_of (drain_loop fuel answers sort target (n + 1) k)).done)
          → All
              (λ x. Justified answers x)
              (mail_of (elim s [
                | halt k ↦ returned k
                | go _ k ↦ drain_loop fuel answers sort target (n + 1) k
              ])).done
      next (halt k) kept rest = kept
      next (go _ k) kept rest = rest k kept

  -- Whatever a drain meets: what it types was due and had not expired, or goes first as the continuation of a
  -- completed compaction or the input of a startup, or is a due message that goes before a capacity continuation.
  -- While a clear is pending it is the envelope of the clear, or goes before it if that is a capacity continuation. It
  -- is a resume note only if its compaction is over, and nothing behind a failed startup. What the drain withdraws
  -- had expired or was a capacity continuation, and what it retires was to be retired.
  pub drain_locked-Justified :
      (fuel : ℕ) (a : Agent) (answers : ℕ → Answers) (queue : List Envelope)
      → All
          (λ x. Justified answers x)
          (mail_of (drain_locked fuel a answers sort target queue)).done
  unfolding drain_locked
  drain_locked-Justified fuel a answers queue =
      let m : Mail = record { queue = queue; done = []; result = "queued" } in
      by_test (λ d. All (λ x. Justified answers x) (mail_of d).done) (takes_nothing a) (returned m)
        (drain_loop fuel answers sort target 0 m) (λ _. tt)
        (λ _. drain_loop-Justified fuel answers 0 m tt)
