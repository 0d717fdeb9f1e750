-- ===== src/Store/Clear/Admitted.antt =====
-- store/clear.go: a clear is admitted once, for the session that the native process has proved.
use gangline.Prelude.{
  some_injective, ℕ, String, ◌≡◌, inl, inr, refl, sym, ap, ◌∙◌, Bool, not, ◌||◌, true, false,
  Option, none, some, List, [], ◌∷◌, arith, Bool-cases, ◌==◌, if◌then◌else◌, eq_iff, suc, zero,
}
use mathlib.Core.Path.{subst}
use gangline.Core.Types.{Agent, ClearRequest}
use gangline.Store.Hooks.{StatusHook}
use gangline.Store.Clear.{
  SessionStart, ClearAdmission, ClearFiles, Write, write_start, write_admission, write_permission,
  remove_permission, Clearing, refused, writes, apply_write, PermissionWitness, admitted_before,
  write_session_start, admit_clear, write_display_hook, start_matches, start_writes, start_pending,
  admit_start, admit_pending,
}

-- a call of one of the three functions; `kept` writes happen before it stops
pub data Call : Type 0 where
  start_call : SessionStart → ℕ → Call
  admit_call : String → String → String → ℕ → Call
  display_call : StatusHook → String → ℕ → Call

abbrev pub apply_writes : List Write → ℕ → ClearFiles → ClearFiles
apply_writes [] kept f = f
apply_writes (w ∷ ws) zero f = f
apply_writes (w ∷ ws) (suc kept) f = apply_writes ws kept (apply_write w f)

abbrev pub apply_clearing : Clearing → ℕ → ClearFiles → ClearFiles
apply_clearing refused kept f = f
apply_clearing (writes ws) kept f = apply_writes ws kept f

unfoldable pub call : Agent → ClearFiles → Call → ClearFiles
call a f (start_call n kept) = apply_clearing (write_session_start a f n) kept f
call a f (admit_call id session registration kept) =
    apply_clearing (admit_clear a f id session registration) kept f
call a f (display_call n observed kept) = apply_clearing (write_display_hook a f n observed) kept f

unfoldable pub calls : Agent → ClearFiles → List Call → ClearFiles
calls a f [] = f
calls a f (c ∷ cs) = calls a (call a f c) cs

-- The admission of the clear `id` for the session `session` stands in the file.
abbrev pub Admitted : ClearFiles → String → String → Type 0
Admitted f id session = f.admission ≡ some (record { id = id; session_id = session })

-- What both branches satisfy, the test satisfies.
either_way : {A : Type 0} (P : A → Type 0) (b : Bool) (x y : A) → P x → P y → P (if b then x else y)
either_way P true x y p q = p
either_way P false x y p q = q

-- None of the writes is of the admission.
data Leaves : List Write → Type 0 where
  done : Leaves []
  starts : {n : SessionStart} {ws : List Write} → Leaves ws → Leaves (write_start n ∷ ws)
  permits : {n : PermissionWitness} {ws : List Write} → Leaves ws → Leaves (write_permission n ∷ ws)
  removes : {ws : List Write} → Leaves ws → Leaves (remove_permission ∷ ws)

data LeavesAdmission : Clearing → Type 0 where
  none_made : LeavesAdmission refused
  made : {ws : List Write} → Leaves ws → LeavesAdmission (writes ws)

apply_writes-Leaves :
    (ws : List Write) (kept : ℕ) (f : ClearFiles)
    → Leaves ws
    → (apply_writes ws kept f).admission ≡ f.admission
apply_writes-Leaves _ kept f done = refl
apply_writes-Leaves _ zero f (starts l) = refl
apply_writes-Leaves _ zero f (permits l) = refl
apply_writes-Leaves _ zero f (removes l) = refl
apply_writes-Leaves (w ∷ ws) (suc kept) f (starts l) = apply_writes-Leaves ws kept _ l
apply_writes-Leaves (w ∷ ws) (suc kept) f (permits l) = apply_writes-Leaves ws kept _ l
apply_writes-Leaves (w ∷ ws) (suc kept) f (removes l) = apply_writes-Leaves ws kept _ l

apply_clearing-LeavesAdmission :
    (c : Clearing) (kept : ℕ) (f : ClearFiles)
    → LeavesAdmission c
    → (apply_clearing c kept f).admission ≡ f.admission
apply_clearing-LeavesAdmission _ kept f none_made = refl
apply_clearing-LeavesAdmission (writes ws) kept f (made l) = apply_writes-Leaves ws kept f l

start_writes-Leaves : (old : Option SessionStart) (n : SessionStart) → Leaves (start_writes old n)
unfolding start_writes
start_writes-Leaves old n = either_way Leaves _ _ _ (removes (starts done)) (starts done)

start_pending-LeavesAdmission :
    (pending : Option ClearRequest) (a : Agent) (old : Option SessionStart) (n : SessionStart)
    → LeavesAdmission (start_pending pending a old n)
unfolding start_pending
start_pending-LeavesAdmission none a old n = made (start_writes-Leaves old n)
start_pending-LeavesAdmission (some p) a old n = either_way LeavesAdmission _ _ _ none_made (
    either_way LeavesAdmission _ _ _ (made (start_writes-Leaves old _))
      (made (start_writes-Leaves old n)))

write_session_start-LeavesAdmission :
    (a : Agent) (f : ClearFiles) (n : SessionStart) → LeavesAdmission (write_session_start a f n)
unfolding write_session_start
write_session_start-LeavesAdmission a f n =
    either_way LeavesAdmission _ _ _ none_made (
      either_way LeavesAdmission _ _ _ none_made
        (start_pending-LeavesAdmission a.clear a f.start n))

write_display_hook-LeavesAdmission :
    (a : Agent) (f : ClearFiles) (n : StatusHook) (observed : String)
    → LeavesAdmission (write_display_hook a f n observed)
unfolding write_display_hook
write_display_hook-LeavesAdmission a f n observed =
    either_way LeavesAdmission _ _ _ (made done)
      (either_way LeavesAdmission _ _ _ (made (permits done)) (made (removes done)))

-- An admission of the pending clear: the file names its identity.
abbrev pub IsAdmitted : Agent → Option ClearAdmission → Type 0
IsAdmitted a none = ⊥
IsAdmitted a (some n) = (c : ClearRequest) × ((a.clear ≡ some c) × (n.id ≡ c.envelope.id))

-- The admission that a later call leaves: once the pending clear is admitted, the same one.
abbrev pub Settled : Agent → ClearFiles → ClearFiles → Type 0
Settled a f g = IsAdmitted a f.admission → g.admission ≡ f.admission

-- What an accepted admission rests on: the session start that proves the clear, and no earlier
-- admission of it.
abbrev AdmitsClear : Agent → ClearFiles → String → String → String → Clearing → Type 0
AdmitsClear a f id session registration refused = Unit
AdmitsClear a f id session registration (writes ws) =
    ((c : ClearRequest) × (n : SessionStart) × (((a.clear ≡ some c) × (c.envelope.id ≡ id))
        × ((f.start ≡ some n) × (start_matches c n id session registration ≡ true))))
    × ((admitted_before f.admission id ≡ false)
        × (ws ≡ write_admission (record { id = id; session_id = session }) ∷ []))

admit_start-AdmitsClear :
    (a : Agent) (f : ClearFiles) (c : ClearRequest) (start : Option SessionStart)
    (id session registration : String)
    → a.clear ≡ some c
    → c.envelope.id ≡ id
    → f.start ≡ start
    → AdmitsClear a f id session registration
        (admit_start c start f.admission id session registration)
unfolding admit_start
admit_start-AdmitsClear a f c none id session registration e same s = tt
admit_start-AdmitsClear a f c (some n) id session registration e same s =
    elim (Bool-cases (start_matches c n id session registration)) [
      | inr other ↦ rw other tt
      | inl matches ↦ elim (Bool-cases (admitted_before f.admission id)) [
        | inl before ↦ rw matches (rw before tt)
        | inr first ↦ rw matches (rw first ((c, n, ((e, same), (s, matches))), (first, refl)))
      ]
    ]

admit_pending-AdmitsClear :
    (a : Agent) (f : ClearFiles) (pending : Option ClearRequest) (id session registration : String)
    → a.clear ≡ pending
    → AdmitsClear a f id session registration (admit_pending pending a f id session registration)
unfolding admit_pending
admit_pending-AdmitsClear a f none id session registration e = tt
admit_pending-AdmitsClear a f (some c) id session registration e =
    elim (Bool-cases (c.envelope.id == id)) [
      | inr other ↦ rw other tt
      | inl same ↦
          either_way (AdmitsClear a f id session registration)
            (not (c.envelope.id == id)
              || not (c.status == "continuing")
              || not (a.registration.generation == registration))
            refused _ tt
            (admit_start-AdmitsClear a f c f.start id session registration e
              ((eq_iff c.envelope.id id).0 same) refl)
    ]

-- An admission that is accepted is of the pending clear, for the session that a session start of
-- this registration has proved, and the file named another clear before.
admit_clear-AdmitsClear :
    (a : Agent) (f : ClearFiles) (id session registration : String)
    → AdmitsClear a f id session registration (admit_clear a f id session registration)
unfolding admit_clear
admit_clear-AdmitsClear a f id session registration =
    admit_pending-AdmitsClear a f a.clear id session registration refl

never_again :
    (a : Agent) (c : ClearRequest) (id : String) (admission : Option ClearAdmission)
    → a.clear ≡ some c
    → c.envelope.id ≡ id
    → admitted_before admission id ≡ false
    → IsAdmitted a admission
    → ⊥
unfolding admitted_before
never_again a c id none e same first is = is
never_again a c id (some m) e same first (d, (e', named)) =
    let one : d ≡ c = some_injective d c (sym e' ∙ e) in
    let seen : (m.id == id) ≡ true =
      (eq_iff m.id id).1 (named ∙ ap (λ x. x.envelope.id) one ∙ same) in
    ground arith

admitted-Settled :
    (a : Agent) (f : ClearFiles) (id session registration : String) (c : Clearing) (kept : ℕ)
    → AdmitsClear a f id session registration c
    → Settled a f (apply_clearing c kept f)
admitted-Settled a f id session registration refused kept admits is = refl
admitted-Settled a f id session registration (writes ws) kept ((c, n, ((e, same), _)), (first, _))
      is =
    elim (never_again a c id f.admission e same first is) [ ]

call-Settled : (a : Agent) (f : ClearFiles) (c : Call) → Settled a f (call a f c)
unfolding call
call-Settled a f (start_call n kept) is =
    apply_clearing-LeavesAdmission _ kept f (write_session_start-LeavesAdmission a f n)
call-Settled a f (admit_call id session registration kept) is =
    admitted-Settled a f id session registration _ kept
      (admit_clear-AdmitsClear a f id session registration) is
call-Settled a f (display_call n observed kept) is =
    apply_clearing-LeavesAdmission _ kept f (write_display_hook-LeavesAdmission a f n observed)

-- Once the pending clear is admitted, calls in any order, stopped at any of their writes, leave the
-- admission as it is: the continuation is admitted once, for one session.
pub calls-Settled : (a : Agent) (f : ClearFiles) (cs : List Call) → Settled a f (calls a f cs)
unfolding calls
calls-Settled a f [] is = refl
calls-Settled a f (c ∷ cs) is =
    let same = call-Settled a f c is in
    calls-Settled a (call a f c) cs (subst (IsAdmitted a) (sym same) is) ∙ same
