-- ===== src/Compaction/Once.antt =====
-- cmd/gang: each request of a compaction lets its continuation through once at most.
use mathlib.Core.Path.{subst}
use gangline.Prelude.{
  ℕ, ◌+◌, ◌≤◌, String, ◌≡◌, refl, sym, ap, ◌∙◌, Bool, true, false, not, ◌&&◌, ◌||◌, Option, none,
  some, List, [], ◌∷◌, ◌==◌, is_empty, if◌then◌else◌, by_test, arith,
}
use gangline.Core.Types.{Agent, Compaction, CompactionStatus}
use gangline.Core.Step.{is_submitted}
use gangline.Core.Step.Marks.{mark_of, times, room, times-asked, step-Bounded}
use gangline.Compaction.{
  Phase, Seen, problem, Desk, ok, M, pure, raise, faulty, io, continue, ◌>>=◌, ◌>>◌, call,
  completion_seen,
}
use gangline.Compaction.Admission.{
  Prompt, mismatched, block_of, block_pending, is_unconfirmed, with_admission, let_through, noted,
  pass,
}
use gangline.Compaction.Rules.{Rule}

-- The continuations of this identity that have been let through, and those that still may be, were requested.
pub record Ledger (id : String) (d : Desk) : Type 0 where
  pub on_disk : room id (mark_of d.disk.compaction) + times id d.admitted ≤ times id d.requested
  pub in_memory : room id (mark_of d.held.compaction) + times id d.admitted ≤ times id d.requested

abbrev pub AnySeen : Seen → Type 0
AnySeen s = Unit

abbrev pub AnyPhase : Phase → Type 0
AnyPhase p = Unit

module _ (id : String) where
  pub Ledger-Rule : Rule AnySeen AnyPhase (Ledger id)
  Ledger-Rule = record {
    faults = λ d fs i. record { on_disk = i.on_disk; in_memory = i.in_memory };
    saves = λ d i. record { on_disk = i.in_memory; in_memory = i.in_memory };
    steps = λ e d i.
        let less = step-Bounded id d.held e in
        let more = times-asked id e.compaction d.requested in
        record {
          on_disk = omega (arith, less, more, i.in_memory);
          in_memory = omega (arith, less, more, i.in_memory);
        };
    edits = λ f d same i. record {
      on_disk = i.on_disk;
      in_memory =
          subst (λ m. room id m + times id d.admitted ≤ times id d.requested) (sym same)
            i.in_memory;
    };
    sees = λ s d h i. record { on_disk = i.on_disk; in_memory = i.in_memory };
    tells = λ n p d h i. record { on_disk = i.on_disk; in_memory = i.in_memory };
  }

  -- A prompt that is not blocked finds a compaction whose continuation has not been admitted.
  unblocked_lem :
      (a : Agent) (p : Prompt) (c : Compaction)
      → is_empty (block_of a p c) ≡ true
      → c.resume_admitted ≡ false
  unblocked_lem a p c =
      let Fresh : String → Type 0 = λ s. is_empty s ≡ true → c.resume_admitted ≡ false in
      let rest : String =
        if not p.found
        then "compaction continuation could not be verified"
        else if mismatched p.matched
        then "stale or altered compaction continuation"
        else if is_unconfirmed c
        then "compaction completion is unconfirmed; continuation withheld"
        else if is_empty p.session
            || not (is_empty a.native.session_id) && not (p.session == a.native.session_id)
        then "compaction continuation belongs to another native session"
        else "" in
      by_test Fresh (is_empty c.resume_token) "stale or unknown compaction continuation"
        (if c.resume_admitted then "compaction continuation already admitted" else rest) (λ _ h. cc)
        (λ _.
          by_test Fresh c.resume_admitted "compaction continuation already admitted" rest
            (λ _ h. cc) (λ fresh h. fresh))

  with_admission_lem : (c : Compaction) → mark_of (some (with_admission c)) ≡ some (c.id, true)
  unfolding with_admission
  with_admission_lem c =
      let unseen : Compaction = record c {
        resume_admitted = true;
        status = CompactionStatus.unverified;
        reason = "native compaction completion unconfirmed; queued continuation admitted";
      } in
      by_test (λ x. mark_of (some x) ≡ some (c.id, true))
        (is_submitted c.status && not (completion_seen c)) unseen
        (record c { resume_admitted = true }) (λ _. refl) (λ _. refl)

  taken_lem :
      (x : String) (admitted : Bool) (ids : List String) (n : ℕ)
      → admitted ≡ false
      → room id (some (x, admitted)) + times id ids ≤ n
      → times id (x ∷ ids) ≤ n
  unfolding times
  taken_lem x admitted ids n fresh h = ground arith

  no_room_lem : (x : String) → room id (some (x, true)) ≡ 0
  no_room_lem x = ground arith

  let_through-Ledger :
      (c : Compaction) (d : Desk)
      → d.held.compaction ≡ some c
      → c.resume_admitted ≡ false
      → Ledger id d
      → Ledger id (let_through c d).1
  unfolding let_through io ◌>>=◌
  let_through-Ledger c d is_c fresh i = goes d.faults
    where
      edited : Desk
      edited = record d { held = record d.held { compaction = some (with_admission c) } }

      write : M Unit
      write = λ e. (ok tt, record e { disk = e.held; admitted = c.id ∷ e.admitted })

      spent : room id (mark_of (some (with_admission c))) ≡ 0
      spent = ap (room id) (with_admission_lem c) ∙ no_room_lem c.id

      taken : times id (c.id ∷ d.admitted) ≤ times id d.requested
      taken = taken_lem c.id c.resume_admitted d.admitted (times id d.requested) fresh (
          subst (λ o. room id (mark_of o) + times id d.admitted ≤ times id d.requested) is_c
            i.in_memory)

      goes : (fs : List Bool) → Ledger id (faulty fs write edited).1
      goes [] = record {
        on_disk = omega (arith, spent, taken);
        in_memory = omega (arith, spent, taken);
      }
      goes (true ∷ fs) = record {
        on_disk = i.on_disk;
        in_memory = omega (arith, spent, i.in_memory);
      }
      goes (false ∷ fs) = record {
        on_disk = omega (arith, spent, taken);
        in_memory = omega (arith, spent, taken);
      }

  noted-Ledger :
      (c : Compaction) (outside : Option Bool) (d : Desk)
      → d.held.compaction ≡ some c
      → c.resume_admitted ≡ false
      → Ledger id d
      → Ledger id ((noted outside >> let_through c) d).1
  unfolding io ◌>>=◌
  noted-Ledger c none d is_c fresh i = i
  noted-Ledger c (some outside) d is_c fresh i =
      by_test (λ (m : M Unit). Ledger id ((m >> let_through c) d).1) outside call (pure tt)
        (λ _. goes d.faults) (λ _. let_through-Ledger c d is_c fresh i)
    where
      goes : (fs : List Bool) → Ledger id (continue (faulty fs (pure tt) d) (λ _. let_through c)).1
      goes [] = let_through-Ledger c d is_c fresh i
      goes (true ∷ fs) = Ledger-Rule.faults d fs i
      goes (false ∷ fs) =
          let_through-Ledger c (record d { faults = fs }) is_c fresh (Ledger-Rule.faults d fs i)

  pub pass-Ledger :
      (p : Prompt) (o : Option Compaction) (d : Desk)
      → d.held.compaction ≡ o
      → is_empty (block_pending d.held p o) ≡ true
      → Ledger id d
      → Ledger id (pass p o d).1
  pass-Ledger p none d is_c free i = i
  pass-Ledger p (some c) d is_c free i =
      by_test (λ (m : M Unit). Ledger id (m d).1) p.found_again (noted p.outside >> let_through c)
        (raise problem) (λ _. noted-Ledger c p.outside d is_c (unblocked_lem d.held p c free) i)
        (λ _. i)
