-- ===== src/Harness/TurnClose/Closed.antt =====
-- harness/turn_close.go: what a closed turn rests on, and what leaves it open.
use gangline.Prelude.{
  ◌≡◌, ◌⊎◌, inl, inr, refl, sym, ◌∙◌, ap, String, true, false, Option, none, some, List, [], ◌∷◌,
  ◌++◌, arith, Bool-cases, ◌==◌, eq_iff, ltb, not, ◌||◌,
}
use gangline.Core.Types.{Time}
use gangline.Harness.Queue.{QueueRecord, is_queue_record, replay, starts_prompt}
use gangline.Harness.TurnClose.{
  TurnClose, Closing, is_end, closing_step, closing_from, no_closing, close_of, turn_closed,
}

closing_from-append :
    (turn : String) (s : Closing) (xs ys : List QueueRecord)
    → closing_from turn s (xs ++ ys) ≡ closing_from turn (closing_from turn s xs) ys
unfolding closing_from
closing_from-append turn s [] ys = refl
closing_from-append turn s (x ∷ xs) ys = closing_from-append turn (closing_step turn s x) xs ys

step-sidechain :
    (turn : String) (s : Closing) (r : QueueRecord) → r.sidechain ≡ true → closing_step turn s r ≡ s
unfolding closing_step
step-sidechain turn s r side = rw side refl

-- The records of a subagent do not count, wherever they stand.
turn_closed-sidechain :
    (xs ys : List QueueRecord) (r : QueueRecord) (turn : String)
    → r.sidechain ≡ true
    → turn_closed (xs ++ r ∷ ys) turn ≡ turn_closed (xs ++ ys) turn
unfolding turn_closed closing_from
turn_closed-sidechain xs ys r turn side =
    let s = closing_from turn no_closing xs in
    ap close_of (
      closing_from-append turn no_closing xs (r ∷ ys)
      ∙ ap (λ x. closing_from turn x ys) (step-sidechain turn s r side)
      ∙ sym (closing_from-append turn no_closing xs ys))

-- The record is a prompt of the turn.
abbrev pub Ran : String → List QueueRecord → Type 0
Ran turn [] = ⊥
Ran turn (r ∷ records) = ((starts_prompt r ≡ true) × (r.prompt_id ≡ turn)) ⊎ Ran turn records

-- A turn of the conversation is recorded to end at the time.
abbrev pub EndsAt : Time → List QueueRecord → Type 0
EndsAt at [] = ⊥
EndsAt at (r ∷ records) =
    ((r.sidechain ≡ false) × ((is_end r ≡ true) × (at ≡ r.timestamp))) ⊎ EndsAt at records

step-seen :
    (turn : String) (s : Closing) (r : QueueRecord)
    → (closing_step turn s r).seen ≡ true
    → (s.seen ≡ true) ⊎ ((starts_prompt r ≡ true) × ((r.prompt_id == turn) ≡ true))
unfolding closing_step
step-seen turn s r h = ground arith

step-ended :
    (turn : String) (s : Closing) (r : QueueRecord)
    → (closing_step turn s r).ended ≡ true
    → ((s.ended ≡ true) × ((closing_step turn s r).closed.at ≡ s.closed.at))
      ⊎ ((r.sidechain ≡ false)
          × ((is_end r ≡ true) × ((closing_step turn s r).closed.at ≡ r.timestamp)))
unfolding closing_step
step-ended turn s r h = ground arith

from-seen :
    (turn : String) (s : Closing) (records : List QueueRecord)
    → (closing_from turn s records).seen ≡ true
    → (s.seen ≡ true) ⊎ Ran turn records
unfolding closing_from
from-seen turn s [] h = inl h
from-seen turn s (r ∷ records) h = elim (from-seen turn (closing_step turn s r) records h) [
  | inr later ↦ inr (inr later)
  | inl before ↦ elim (step-seen turn s r before) [
    | inl old ↦ inl old
    | inr (prompt, named) ↦ inr (inl (prompt, (eq_iff r.prompt_id turn).0 named))
  ]
]

from-ended :
    (turn : String) (s : Closing) (records : List QueueRecord)
    → (closing_from turn s records).ended ≡ true
    → ((s.ended ≡ true) × ((closing_from turn s records).closed.at ≡ s.closed.at))
      ⊎ EndsAt (closing_from turn s records).closed.at records
unfolding closing_from
from-ended turn s [] h = inl (h, refl)
from-ended turn s (r ∷ records) h = elim (from-ended turn (closing_step turn s r) records h) [
  | inr later ↦ inr (inr later)
  | inl (before, same) ↦ elim (step-ended turn s r before) [
    | inl (old, kept) ↦ inl (old, same ∙ kept)
    | inr (main, (end, at)) ↦ inr (inl (main, (end, same ∙ at)))
  ]
]

-- What a result that closes the turn rests on.
abbrev pub Rests : List QueueRecord → String → Option TurnClose → Type 0
Rests records turn none = Unit
Rests records turn (some c) = Ran turn records × EndsAt c.at records

close_of-Rests :
    (records : List QueueRecord) (turn : String) (s : Closing)
    → (s.seen ≡ true → Ran turn records)
    → (s.ended ≡ true → EndsAt s.closed.at records)
    → Rests records turn (close_of s)
unfolding close_of
close_of-Rests records turn s ran ends = elim (Bool-cases s.seen) [
  | inr unseen ↦ rw unseen tt
  | inl seen ↦
      elim (Bool-cases (not s.ended || ltb 0 s.queue.queued || ltb s.started s.queue.dequeued)) [
        | inl waits ↦ rw seen (rw waits tt)
        | inr shut ↦
            let ended : s.ended ≡ true = ground arith in rw seen (rw shut (ran seen, ends ended))
      ]
]

-- A turn is closed only if one of its prompts is recorded, and at the time of a recorded end.
pub turn_closed-Rests :
    (records : List QueueRecord) (turn : String) → Rests records turn (turn_closed records turn)
unfolding turn_closed
turn_closed-Rests records turn =
    close_of-Rests records turn (closing_from turn no_closing records)
      (λ h. elim (from-seen turn no_closing records h) [ inr ran ↦ ran | inl never ↦ ground arith ])
      (λ h. elim (from-ended turn no_closing records h) [
        | inr ends ↦ ends
        | inl (never, _) ↦ ground arith
      ])

step-enqueue :
    (turn : String) (s : Closing) (r : QueueRecord)
    → r.sidechain ≡ false
    → is_queue_record r ≡ true
    → (r.operation == "enqueue") ≡ true
    → close_of (closing_step turn s r) ≡ none
unfolding close_of closing_step replay
step-enqueue turn s r main queue enqueue = rw main (rw queue (rw enqueue (ground arith)))

-- A prompt that is queued behind the last record leaves every turn open.
pub turn_closed-enqueue :
    (records : List QueueRecord) (turn : String) (r : QueueRecord)
    → r.sidechain ≡ false
    → is_queue_record r ≡ true
    → (r.operation == "enqueue") ≡ true
    → turn_closed (records ++ r ∷ []) turn ≡ none
unfolding turn_closed closing_from
turn_closed-enqueue records turn r main queue enqueue =
    ap close_of (closing_from-append turn no_closing records (r ∷ []))
    ∙ step-enqueue turn (closing_from turn no_closing records) r main queue enqueue
