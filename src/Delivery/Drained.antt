-- ===== src/Delivery/Drained.antt =====
-- cmd/gang/delivery.go: a drain loses no envelope of the queue and files none twice.
use gangline.Prelude.{
  ℕ, zero, suc, ◌+◌, ◌≤◌, String, ◌≡◌, Bool, List, [], ◌∷◌, ◌++◌, arith, by_test,
}
use gangline.Core.Types.{Agent, Envelope}
use gangline.Delivery.{takes_nothing}
use gangline.Delivery.Drain.{
  Answers, Entry, Mail, Step, go, halt, leave, drain_round, Drained, returned, out_of_rounds,
  drain_loop, drain_locked,
}
use gangline.Delivery.Chosen.{one_if, count, count-append, count-remove_id}
use gangline.Delivery.Rounds.{After, Rule}
use gangline.Delivery.Attempts.{drain_round-Holds}

-- How many of the envelopes that have left the queue have an identity that passes the test.
unfoldable pub filed : (String → Bool) → List Entry → ℕ
filed p [] = 0
filed p (x ∷ xs) = one_if (p x.envelope.id) + filed p xs

-- What the listing of a directory is sorted by keeps every file.
pub record IsSort (sort : List Envelope → List Envelope) : Type 0 where
  pub keeps : (p : String → Bool) (es : List Envelope) → count p (sort es) ≡ count p es

-- the envelopes that other commands have queued in some rounds
unfoldable pub arrivals : (String → Bool) → (ℕ → Answers) → ℕ → ℕ → ℕ
arrivals p answers n zero = 0
arrivals p answers n (suc rounds) = count p (answers n).arrived + arrivals p answers (n + 1) rounds

abbrev pub mail_of : Drained → Mail
mail_of (returned m) = m
mail_of (out_of_rounds m) = m

abbrev pub total : (String → Bool) → Mail → ℕ
total p m = count p m.queue + filed p m.done

pub total-Rule : (y : Answers) (p : String → Bool) (n : ℕ) → Rule y (λ m. total p m ≡ n)
unfolding leave filed
total-Rule y p n = record {
  leaves = λ e fate m there why h. omega (arith, count-remove_id p e.id m.queue there, h);
  reports = λ m r h. h;
}

module _ (sort : List Envelope → List Envelope) (sorts : IsSort sort) (target : String) where
  pub arrived-total :
      (y : Answers) (p : String → Bool) (m : Mail)
      → total p (record m { queue = sort (y.arrived ++ m.queue) }) ≡ count p y.arrived + total p m
  arrived-total y p m =
      omega (arith, sorts.keeps p (y.arrived ++ m.queue), count-append p y.arrived m.queue)

  -- No envelope is lost and none is filed twice.
  pub record Accounted (fuel : ℕ) (p : String → Bool) (answers : ℕ → Answers) (n : ℕ) (m k : Mail)
      : Type 0 where
    pub rounds : ℕ
    pub few : rounds ≤ fuel
    pub account : total p k ≡ arrivals p answers n rounds + total p m

  pub drain_loop-Accounted :
      (fuel : ℕ) (answers : ℕ → Answers) (p : String → Bool) (n : ℕ) (m : Mail)
      → Accounted fuel p answers n m (mail_of (drain_loop fuel answers sort target n m))
  unfolding drain_loop arrivals
  drain_loop-Accounted zero answers p n m = record {
    rounds = zero;
    few = omega arith;
    account = omega arith;
  }
  drain_loop-Accounted (suc fuel) answers p n m =
      next (drain_round (answers n) sort target m)
        (drain_round-Holds (answers n) (λ k. total p k ≡ count p (answers n).arrived + total p m)
          (total-Rule (answers n) p (count p (answers n).arrived + total p m)) sort target m
          (arrived-total (answers n) p m))
        (λ k. drain_loop-Accounted fuel answers p (n + 1) k)
    where
      next :
          (s : Step Unit)
          → After
              (λ _ k. total p k ≡ count p (answers n).arrived + total p m)
              (λ k. total p k ≡ count p (answers n).arrived + total p m)
              s
          → ((k : Mail)
              → Accounted fuel p answers
                  (n + 1)
                  k
                  (mail_of (drain_loop fuel answers sort target (n + 1) k)))
          → Accounted (suc fuel) p answers n m (
              mail_of (elim s [
                | halt k ↦ returned k
                | go _ k ↦ drain_loop fuel answers sort target (n + 1) k
              ]))
      next (halt k) h rest = record {
        rounds = suc zero;
        few = omega arith;
        account = omega (arith, h);
      }
      next (go _ k) h rest = record {
        rounds = suc (rest k).rounds;
        few = omega (arith, (rest k).few);
        account = omega (arith, h, (rest k).account);
      }

  -- Whatever tmux, the harness and the store answer, and wherever a drain returns: each identity is afterwards
  -- queued, or filed by this drain, as often in all as it was queued before and has been queued since, if what
  -- sorts the queue keeps the envelopes.
  pub drain_locked-Accounted :
      (fuel : ℕ) (a : Agent) (answers : ℕ → Answers) (queue : List Envelope) (p : String → Bool)
      → Accounted fuel p answers 0
          (record { queue = queue; done = []; result = "queued" })
          (mail_of (drain_locked fuel a answers sort target queue))
  unfolding drain_locked arrivals
  drain_locked-Accounted fuel a answers queue p =
      let m : Mail = record { queue = queue; done = []; result = "queued" } in
      by_test (λ x. Accounted fuel p answers 0 m (mail_of x)) (takes_nothing a) (returned m)
        (drain_loop fuel answers sort target 0 m)
        (λ _. record { rounds = zero; few = omega arith; account = omega arith })
        (λ _. drain_loop-Accounted fuel answers p 0 m)
