-- ===== src/Harness/PromptTurn/Orders.antt =====
-- harness/queued.go: a prompt is in one place.
use text.Mathlib.Text.{starts_with}
use gangline.Prelude.{
  ◌==◌, ◌||◌, String, ◌≡◌, refl, Bool, true, false, ◌&&◌, List, [], ◌∷◌, if◌then◌else◌,
}
use gangline.Harness.Queue.{QueueRecord}
use gangline.Harness.PromptTurn.{dequeued_together, is_operation, Found, prompt_from, prompt_turn}

-- The prompt is not both in the queue and in the composer.
record InOnePlace (f : Found) : Type 0 where
  one : (f.pending && f.left) ≡ false

either_found :
    (b : Bool) (x y : Found) → InOnePlace x → InOnePlace y → InOnePlace (if b then x else y)
either_found true x y p q = p
either_found false x y p q = q

prompt_from-InOnePlace :
    (opening : String) (before : List QueueRecord) (pending left : Bool)
    (records : List QueueRecord)
    → (pending && left) ≡ false
    → InOnePlace (prompt_from opening before pending left records)
unfolding prompt_from
prompt_from-InOnePlace opening before pending left [] h = record { one = h }
prompt_from-InOnePlace opening before pending left (r ∷ records) h =
    let later = λ (p l : Bool) (k : (p && l) ≡ false).
      prompt_from-InOnePlace opening (r ∷ before) p l records k in
    either_found (r.type_name == "user" && starts_with r.text opening)
      (record { turns = dequeued_together before r records; pending = false; left = false }) _
      (record { one = refl })
      (either_found (is_operation r "enqueue" && starts_with r.text opening) _ _
        (later true false refl)
        (either_found (is_operation r "popAll" && starts_with r.text opening) _ _
          (later false true refl)
          (either_found
            (is_operation r "remove" && starts_with r.text opening || is_operation r "popAll") _ _
            (later false left refl) (later pending left h))))

-- A prompt is found in one place: it waits in the queue, or it was pulled back, never both.
pub prompt_turn_place :
    (records : List QueueRecord) (opening : String)
    → ((prompt_turn records opening).pending && (prompt_turn records opening).left) ≡ false
unfolding prompt_turn
prompt_turn_place records opening = (prompt_from-InOnePlace opening [] false false records refl).one
