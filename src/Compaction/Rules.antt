-- ===== src/Compaction/Rules.antt =====
-- cmd/gang/compaction.go: what every call of a compaction keeps, whether it returns or fails.
use gangline.Prelude.{
  String, ◌≡◌, refl, Bool, true, false, not, Option, none, some, List, [], ◌∷◌, ltb, is_some,
  is_empty, concat, if◌then◌else◌, by_test,
}
use gangline.Core.Types.{Agent, Event, Compaction, Time}
use gangline.Core.Step.{step}
use gangline.Core.Step.Marks.{mark_of, asked}
use gangline.Compaction.{
  Phase, ran, not_run, Seen, Problem, problem, Desk, Result, ok, err, M, pure, raise, faulty, io,
  continue, ◌>>=◌, ◌>>◌, call, holding, assign, with_compaction, map_compaction, save, see,
  addressed, rejects, apply, Retained, nowhere, unreadable, in_new, in_results, forget,
  clean_result, file_result, file_cancelled, settle_cancelled, cancel_pending_resume, tell, notify,
  fail_compaction, Queued, absent, unread, ready, Failing, fail_with, withhold, after_completion,
  confirm, continue_compaction, Refusals, refusal, count_refusals, observed, observe_compaction,
  completion_seen, awaits_completion,
}

-- What is kept by all calls: assignments that leave the mark of the compaction, steps, saves and faults, and what
-- may be seen and told.
pub record Rule (Sees : Seen → Type 0) (Tells : Phase → Type 0) (I : Desk → Type 0) : Type 0 where
  pub faults : (d : Desk) (fs : List Bool) → I d → I (record d { faults = fs })
  pub saves : (d : Desk) → I d → I (record d { disk = d.held })
  pub steps :
      (e : Event) (d : Desk)
      → I d
      → I (record d {
        held = (step d.held e).0;
        disk = (step d.held e).0;
        requested = asked e.compaction d.requested;
      })
  pub edits :
      (f : Agent → Agent) (d : Desk)
      → mark_of (f d.held).compaction ≡ mark_of d.held.compaction
      → I d
      → I (record d { held = f d.held })
  pub sees : (s : Seen) (d : Desk) → Sees s → I d → I (record d { seen = s ∷ d.seen })
  pub tells :
      (id : String) (p : Phase) (d : Desk)
      → Tells p
      → I d
      → I (record d { told = record { id = id; phase = p } ∷ d.told })

-- `m` keeps `I`, whether it returns or fails.
abbrev pub Keeps : (Desk → Type 0) → {A : Type 0} → M A → Type 0
Keeps I m = (d : Desk) → I d → I (m d).1

module _ (Sees : Seen → Type 0) (Tells : Phase → Type 0) (I : Desk → Type 0)
    (rule : Rule Sees Tells I) where
  continue-Keeps :
      {A B : Type 0} (r : Result A × Desk) (f : A → M B)
      → I r.1
      → ((x : A) → Keeps I (f x))
      → I (continue r f).1
  continue-Keeps (ok x, d) f h k = k x d h
  continue-Keeps (err x, d) f h k = h

  pub bind-Keeps :
      {A B : Type 0} (m : M A) (f : A → M B)
      → Keeps I m
      → ((x : A) → Keeps I (f x))
      → Keeps I (m >>= f)
  unfolding ◌>>=◌
  bind-Keeps m f h k d i = continue-Keeps (m d) f (h d i) k

  pub then-Keeps : {A B : Type 0} (m : M A) (n : M B) → Keeps I m → Keeps I n → Keeps I (m >> n)
  then-Keeps m n h k = bind-Keeps m (λ _. n) h (λ _. k)

  pub if-Keeps :
      {A : Type 0} (b : Bool) (m n : M A) → Keeps I m → Keeps I n → Keeps I (if b then m else n)
  if-Keeps b m n h k = by_test (λ x. Keeps I x) b m n (λ _. h) (λ _. k)

  -- A sequence whose first part keeps `I` leaves `J` if the rest does, wherever it fails.
  pub then_leaves :
      {A B : Type 0} (L : Desk → Type 0) (m : M A) (n : M B)
      → ((d : Desk) → I d → L d)
      → Keeps I m
      → ((d : Desk) → I d → L (n d).1)
      → (d : Desk) → I d
      → L ((m >> n) d).1
  unfolding ◌>>=◌
  then_leaves {A = A} {B = B} L m n weaken h k d i = goes (m d) (h d i)
    where
      goes : (r : Result A × Desk) → I r.1 → L (continue r (λ _. n)).1
      goes (ok x, e) j = k e j
      goes (err x, e) j = weaken e j

  pub holding-Keeps :
      {A : Type 0} (f : Agent → M A) → ((a : Agent) → Keeps I (f a)) → Keeps I (holding f)
  unfolding holding
  holding-Keeps f h d i = h d.held d i

  -- A call that is stopped changes nothing.
  pub io-keeps_at :
      {A : Type 0} (m : M A) (d : Desk)
      → I d
      → ((fs : List Bool) → I (m (record d { faults = fs })).1)
      → I (io m d).1
  unfolding io
  io-keeps_at m d i h = goes d.faults
    where
      goes : (fs : List Bool) → I (faulty fs m d).1
      goes [] = h d.faults
      goes (true ∷ fs) = rule.faults d fs i
      goes (false ∷ fs) = h fs

  io-Keeps : {A : Type 0} (m : M A) → Keeps I m → Keeps I (io m)
  io-Keeps m h d i = io-keeps_at m d i (λ fs. h (record d { faults = fs }) (rule.faults d fs i))

  pub call-Keeps : Keeps I call
  call-Keeps = io-Keeps (pure tt) (λ d i. i)

  pub save-Keeps : Keeps I save
  save-Keeps = io-Keeps (λ d. (ok tt, record d { disk = d.held })) (λ d i. rule.saves d i)

  pub assign-Keeps :
      (f : Agent → Agent)
      → ((a : Agent) → mark_of (f a).compaction ≡ mark_of a.compaction)
      → Keeps I (assign f)
  assign-Keeps f h d i = rule.edits f d (h d.held) i

  pub map_compaction-Keeps :
      (f : Compaction → Compaction)
      → ((c : Compaction) → mark_of (some (f c)) ≡ mark_of (some c))
      → Keeps I (assign (map_compaction f))
  map_compaction-Keeps f h = assign-Keeps (map_compaction f) λ a. goes a.compaction
    where
      goes : (o : Option Compaction) → mark_of (with_compaction f o) ≡ mark_of o
      goes none = refl
      goes (some c) = h c

  pub apply-Keeps : (now : Time) (e : Event) → Keeps I (apply now e)
  unfolding apply holding ◌>>=◌
  apply-Keeps now e d i =
      let own = addressed now d.held e in
      let r = step d.held own in
      let write : M Unit = io λ k.
        (ok tt, record k { held = r.0; disk = r.0; requested = asked e.compaction k.requested }) in
      by_test (λ (x : M Unit). I (x d).1) (rejects r.1) (raise problem) (write >> call) (λ _. i)
        (λ _.
          continue-Keeps (write d) (λ _. call)
            (io-keeps_at _ d i
              (λ fs. rule.steps own (record d { faults = fs }) (rule.faults d fs i)))
            (λ _. call-Keeps))

  pub clean_result-Keeps : Keeps I clean_result
  unfolding clean_result
  clean_result-Keeps = holding-Keeps _ λ a.
      if-Keeps (is_some a.cleanup) _ (pure tt)
        (then-Keeps _ save
          (then-Keeps _ _ (then-Keeps call call call-Keeps call-Keeps)
            (assign-Keeps (λ b. record b { cleanup = none }) (λ b. refl)))
          save-Keeps)
        (λ d i. i)

  pub pure-Keeps : {A : Type 0} (x : A) → Keeps I (pure x)
  pure-Keeps x d i = i

  pub raise-Keeps : (A : Type 0) (x : Problem) → Keeps I (raise {A = A} x)
  raise-Keeps A x d i = i

  pub see-Keeps : (s : Seen) → Sees s → Keeps I (see s)
  see-Keeps s h d i = rule.sees s d h i

  settle_cancelled-Keeps : (id : String) → Keeps I (settle_cancelled id)
  settle_cancelled-Keeps id =
      search
        (
          then-Keeps,
          call-Keeps,
          save-Keeps,
          clean_result-Keeps,
          assign-Keeps (λ b. record b { last_failed = id }) (λ b. refl),
        )
        depth 8

  file_cancelled-Keeps : (id : String) → Keeps I (file_cancelled id)
  unfolding file_cancelled
  file_cancelled-Keeps id = holding-Keeps _ λ a.
      if-Keeps (is_empty a.last_failed) (settle_cancelled id >> call) (file_result >> call)
        (search (then-Keeps, settle_cancelled-Keeps, call-Keeps)) (search (then-Keeps, call-Keeps))

  forget-Keeps : (id : String) → Keeps I (assign (forget id))
  unfolding forget
  forget-Keeps id = assign-Keeps (forget id) (λ a. refl)

  cancel_pending_resume-Keeps : (r : Retained) (id : String) → Keeps I (cancel_pending_resume r id)
  unfolding cancel_pending_resume
  cancel_pending_resume-Keeps nowhere id = pure-Keeps tt
  cancel_pending_resume-Keeps unreadable id = raise-Keeps Unit problem
  cancel_pending_resume-Keeps (in_new outcome) id =
      search (if-Keeps, raise-Keeps, file_cancelled-Keeps)
  cancel_pending_resume-Keeps (in_results outcome) id = search (
    if-Keeps, raise-Keeps, file_cancelled-Keeps, then-Keeps, call-Keeps, save-Keeps, forget-Keeps,
  )

  tell-Keeps : (id : String) (p : Phase) → Tells p → Keeps I (tell id p)
  unfolding tell
  tell-Keeps id p h =
      then-Keeps _ call
        (λ d i.
          io-keeps_at _ d i
            (λ fs. rule.tells id p (record d { faults = fs }) h (rule.faults d fs i)))
        call-Keeps

  notify-Keeps :
      (published : Option Bool) (id : String) (p : Phase)
      → Tells p
      → Keeps I (notify published id p)
  notify-Keeps none id p h = raise-Keeps Unit problem
  notify-Keeps (some already) id p h =
      if-Keeps already (pure tt) (tell id p) (pure-Keeps tt) (tell-Keeps id p h)

  pub fail_with-Keeps :
      (f : Failing) (id : String) (p : Phase) (reason : String)
      → Tells p
      → Keeps I (fail_with f id p reason)
  unfolding fail_compaction
  fail_with-Keeps f id p reason h = search (
    then-Keeps,
    apply-Keeps,
    cancel_pending_resume-Keeps,
    call-Keeps,
    notify-Keeps f.published id p h,
  )

  module _ (tells_ran : Tells ran) where
    withhold-Keeps : (f : Failing) (q : Queued) (c : Compaction) → Keeps I (withhold f q c)
    withhold-Keeps f (ready true) c = pure-Keeps tt
    withhold-Keeps f unread c = raise-Keeps Unit problem
    withhold-Keeps f absent c =
        if-Keeps _ _ _ (pure-Keeps tt) (fail_with-Keeps f c.id ran _ tells_ran)
    withhold-Keeps f (ready false) c = fail_with-Keeps f c.id ran _ tells_ran

    after_completion-Keeps :
        (f : Failing) (q : Queued) (o : Option Compaction) → Keeps I (after_completion f q o)
    after_completion-Keeps f q none = pure-Keeps tt
    after_completion-Keeps f q (some c) = if-Keeps _ _ _ (withhold-Keeps f q c) (pure-Keeps tt)

    confirm-Keeps : (f : Failing) (o : Option Compaction) → Keeps I (confirm f o)
    confirm-Keeps f none = pure-Keeps tt
    confirm-Keeps f (some c) = if-Keeps _ _ _ (apply-Keeps f.now _) (pure-Keeps tt)

    pub continue_compaction-Keeps : (f : Failing) (q : Queued) → Keeps I (continue_compaction f q)
    unfolding continue_compaction
    continue_compaction-Keeps f q =
        then-Keeps _ _ (holding-Keeps _ λ a. confirm-Keeps f a.compaction)
          (holding-Keeps _ λ a. after_completion-Keeps f q a.compaction)

    -- A refusal that is read may be told of, in the way that `refusing` says.
    pub observe_compaction-Keeps :
        (f : Failing) (q : Queued) (r : Option Refusals)
        → ((id : String) (reason : String) → Keeps I (see refusal >> fail_with f id not_run reason))
        → Keeps I (observe_compaction f q r)
    unfolding observe_compaction
    observe_compaction-Keeps f q r refusing = holding-Keeps _ λ a. goes a.compaction
      where
        counts : (c : Compaction) (s : Option Refusals) → Keeps I (count_refusals f c s)
        counts c none = raise-Keeps Unit problem
        counts c (some s) =
            let reason = concat "native compaction refused: " (concat s.last "; resume withheld") in
            if-Keeps (ltb c.refusal_before s.number)
              (see refusal >> fail_with f c.id not_run reason) (pure tt) (refusing c.id reason)
              (pure-Keeps tt)

        goes : (o : Option Compaction) → Keeps I (observed f q r o)
        goes none = pure-Keeps tt
        goes (some c) =
            if-Keeps (not (awaits_completion c.status)) (pure tt)
              (if completion_seen c then continue_compaction f q else count_refusals f c r)
              (pure-Keeps tt)
              (if-Keeps (completion_seen c) (continue_compaction f q) (count_refusals f c r)
                (continue_compaction-Keeps f q) (counts c r))

-- the rules for calls in sequence, by cases and alone
pub ruleset keeping = (
  then-Keeps, if-Keeps, call-Keeps, save-Keeps, apply-Keeps, pure-Keeps, raise-Keeps, see-Keeps,
  fail_with-Keeps,
)
