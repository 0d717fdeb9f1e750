-- ===== src/Delivery/Rounds.antt =====
-- cmd/gang/delivery.go: what holds through every round of `drainLocked`, wherever it returns.
use gangline.Prelude.{◌≤◌, String, ◌≡◌, true, false, not, ◌&&◌, ◌||◌, some}
use gangline.Core.Types.{Envelope}
use gangline.Delivery.{
  is_resume_envelope, is_startup_envelope, capacity_envelope, clear_pending, clear_id,
  completed_resume, has_expired, is_due,
}
use gangline.Delivery.Drain.{
  retired_envelope, Answers, Fate, sent, expired, retired, cancelled, Mail, Step, go, halt, then_do,
  leave,
}
use gangline.Delivery.Chosen.{among}

-- What a step leaves: `P` if the loop goes on, `Q` if it returns.
abbrev pub After : {A : Type 0} → (A → Mail → Type 0) → (Mail → Type 0) → Step A → Type 0
After P Q (go a m) = P a m
After P Q (halt m) = Q m

pub After-then_do :
    {A B : Type 0} (P : A → Mail → Type 0) (R : B → Mail → Type 0) (Q : Mail → Type 0) (s : Step A)
    (f : A → Mail → Step B)
    → After P Q s
    → ((a : A) (m : Mail) → P a m → After R Q (f a m))
    → After R Q (then_do s f)
After-then_do P R Q (go a m) f p k = k a m p
After-then_do P R Q (halt m) f p k = p

-- Why an envelope may be next in a round.
pub data Reason (y : Answers) : Envelope → Type 0 where
  of_clear :
      {e : Envelope}
      → clear_pending y.agent.clear ≡ true
      → e.id ≡ clear_id y.agent.clear
      → Reason y e
  goes_first :
      {e : Envelope}
      → clear_pending y.agent.clear ≡ false
      → (completed_resume y.agent y.agent.compaction e || is_startup_envelope e) ≡ true
      → Reason y e
  by_time :
      {e : Envelope}
      → clear_pending y.agent.clear ≡ false
      → has_expired y.now e ≡ false
      → is_due y.now e ≡ true
      → Reason y e
  outranks :
      {e : Envelope} (n : Envelope)
      → Reason y n
      → capacity_envelope n ≡ true
      → (not (capacity_envelope e) && is_due y.now e && not (has_expired y.now e)) ≡ true
      → Reason y e

-- An envelope that is typed: a resume note only when its compaction is over, and nothing behind a failed startup.
pub record Sendable (y : Answers) (e : Envelope) : Type 0 where
  pub reason : Reason y e
  pub resumes : is_resume_envelope e ≡ true → completed_resume y.agent y.agent.compaction e ≡ true
  pub started : y.failed_startup ≡ some false

-- What an envelope that leaves the queue must be.
unfoldable pub Permitted : Answers → Fate → Envelope → Type 0
Permitted y (sent outcome) e = Sendable y e
Permitted y expired e = has_expired y.now e ≡ true
Permitted y retired e = y.retires e ≡ retired_envelope
Permitted y cancelled e = (capacity_envelope e ≡ true) × Sendable y e

-- What is kept when an envelope of the queue leaves it with reason.
pub record Rule (y : Answers) (I : Mail → Type 0) : Type 0 where
  pub leaves :
      (e : Envelope) (fate : Fate) (m : Mail)
      → 1 ≤ among e.id m.queue
      → Permitted y fate e
      → I m
      → I (leave e fate m)
  pub reports : (m : Mail) (r : String) → I m → I (record m { result = r })
