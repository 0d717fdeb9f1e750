-- ===== src/Compaction/Drafts.antt =====
-- cmd/gang/messages.go and compaction.go: what each part of `startCompaction` keeps.
use gangline.Prelude.{
  String, refl, Bool, true, false, not, ◌||◌, Option, none, some, List, [], ◌∷◌, ◌==◌, is_empty,
  if◌then◌else◌,
}
use gangline.Core.Types.{Agent, Compaction}
use gangline.Compaction.{
  Phase, may_have_run, not_run, Seen, cleared, refusal, problem, Desk, Result, ok, err, M, pure,
  raise, ◌>>◌, assign, fail_with,
}
use gangline.Compaction.Terminal.{
  Composer, unread, behind_prompt, holding_text, Awaited, composer_ready, await_refused,
  await_not_started, await_failed, Terminal, look_at, try_keys, press_clear, cleared_reason,
  clear_draft, abandon_draft, if_running, abort_at, abort_input, deferred_screen, withdrawn,
  after_keys, defer_at, defer_draft, with_token, continuing, publish_once, publish_resume,
  await_composer, finish_input, accept_resume, resume_sent, when_done, queue_resume,
}
use gangline.Compaction.Start.{unless_busy, staged_text, staged_composer}
use gangline.Compaction.Rules.{
  keeping, Rule, Keeps, bind-Keeps, if-Keeps, holding-Keeps, assign-Keeps, map_compaction-Keeps,
  raise-Keeps, fail_with-Keeps,
}

module _ (Sees : Seen → Type 0) (Tells : Phase → Type 0) (I : Desk → Type 0)
    (rule : Rule Sees Tells I) (t : Terminal) where
  pub when_done-Keeps : (b : Bool) → Keeps I (when_done t b)
  when_done-Keeps b = search keeping

  pub look_at-Keeps : (b : Agent) → Keeps I (assign (look_at b))
  look_at-Keeps b = assign-Keeps Sees Tells I rule (look_at b) (λ a. refl)

  finish_input-Keeps : (id outcome : String) → Keeps I (finish_input t id outcome)
  finish_input-Keeps id outcome = search (keeping, look_at-Keeps)

  -- what is done about a draft that is not submitted
  module _ (tells : (p : Phase) → Tells p) (sees_keys : Sees cleared) where
    press_clear-Keeps : (texts : List String) → Keeps I (press_clear t texts)
    unfolding press_clear
    press_clear-Keeps [] = raise-Keeps Sees Tells I rule Unit problem
    press_clear-Keeps (text ∷ texts) = search (keeping, press_clear-Keeps texts) depth 8

    cleared_reason-Keeps :
        (r : Result Unit × Desk) (reason : String) → I r.1 → I (cleared_reason t r reason).1
    cleared_reason-Keeps (ok done, d) reason i = i
    cleared_reason-Keeps (err x, d) reason i = i

    clear_draft-Keeps : (reason : String) → Keeps I (clear_draft t reason)
    unfolding clear_draft
    clear_draft-Keeps reason d i = cleared_reason-Keeps _ reason (presses d i)
      where
        presses : Keeps I (if t.has_clear then press_clear t t.left else raise problem)
        presses = search (keeping, press_clear-Keeps)

    pub abandon_draft-Keeps :
        (id draft : String) (phase : Phase) (reason : String)
        → Keeps I (abandon_draft t id draft phase reason)
    unfolding abandon_draft
    abandon_draft-Keeps id draft phase reason =
        if-Keeps Sees Tells I rule (is_empty draft) (fail_with t.failing id phase reason) _
          (fail_with-Keeps Sees Tells I rule t.failing id phase reason (tells phase))
          (bind-Keeps Sees Tells I rule (clear_draft t reason)
            (λ why. fail_with t.failing id phase why) (clear_draft-Keeps reason)
            (λ why. fail_with-Keeps Sees Tells I rule t.failing id phase why (tells phase)))

    if_running-Keeps :
        (m : M Unit) (id reason : String) (shown : Option Bool)
        → Keeps I m
        → Keeps I (if_running t m id reason shown)
    if_running-Keeps m id reason none h = search (keeping, tells)
    if_running-Keeps m id reason (some running) h = search (keeping, tells)

    abort_at-Keeps :
        (id command : String) (phase : Phase) (reason : String) (composer : Composer)
        → Keeps I (abort_at t id command phase reason composer)
    abort_at-Keeps id command phase reason unread = search (keeping, tells)
    abort_at-Keeps id command phase reason behind_prompt = search (keeping, tells)
    abort_at-Keeps id command phase reason (holding_text text tail) =
        search (if-Keeps, if_running-Keeps, abandon_draft-Keeps)

    pub abort_input-Keeps : (id command : String) → Keeps I (abort_input t id command)
    unfolding abort_input
    abort_input-Keeps id command =
        abort_at-Keeps id command (if t.bracketed then not_run else may_have_run)
          "compaction not submitted: " t.aborted

    deferred_screen-Keeps : (look : Option (Agent × Bool)) → Keeps I (deferred_screen t look)
    deferred_screen-Keeps none = search keeping
    deferred_screen-Keeps (some (b, idle)) = search (keeping, look_at-Keeps)

    withdrawn-Keeps : (id : String) (composer : Composer) → Keeps I (withdrawn t id composer)
    withdrawn-Keeps id unread = search (keeping, tells)
    withdrawn-Keeps id behind_prompt = search (keeping, tells)
    withdrawn-Keeps id (holding_text text tail) = search (keeping, tells, deferred_screen-Keeps)

    after_keys-Keeps : (id : String) (r : Result Unit × Desk) → I r.1 → I (after_keys t id r).1
    after_keys-Keeps id (ok done, d) i = withdrawn-Keeps id t.after_defer d i
    after_keys-Keeps id (err x, d) i =
        fail_with-Keeps Sees Tells I rule t.failing id not_run _ (tells not_run) d i

    try_keys-Keeps : Keeps I (try_keys t)
    try_keys-Keeps = search keeping

    defer_at-Keeps :
        (id command : String) (composer : Composer) → Keeps I (defer_at t id command composer)
    defer_at-Keeps id command unread = search (keeping, tells)
    defer_at-Keeps id command behind_prompt = search (keeping, tells)
    defer_at-Keeps id command (holding_text text tail) =
        if-Keeps Sees Tells I rule (tail || not (text == command))
          (fail_with t.failing id not_run
            "staged command no longer identified in composer; input left alone")
          (λ d. after_keys t id (try_keys t d)) (search (keeping, tells))
          (λ d i. after_keys-Keeps id (try_keys t d) (try_keys-Keeps d i))

    pub defer_draft-Keeps : (id command : String) → Keeps I (defer_draft t id command)
    unfolding defer_draft
    defer_draft-Keeps id command = search (if-Keeps, abandon_draft-Keeps, defer_at-Keeps)

    unless_busy-Keeps :
        (id command : String) (busy : Option Bool) → Keeps I (unless_busy t id command busy)
    unless_busy-Keeps id command none = search keeping
    unless_busy-Keeps id command (some busy) = search (keeping, defer_draft-Keeps)

    staged_text-Keeps : (id command text : String) → Keeps I (staged_text t id command text)
    staged_text-Keeps id command text = search (keeping, abandon_draft-Keeps, unless_busy-Keeps)

    pub staged_composer-Keeps :
        (id command : String) (composer : Composer)
        → Keeps I (staged_composer t id command composer)
    staged_composer-Keeps id command unread = search keeping
    staged_composer-Keeps id command behind_prompt = search keeping
    staged_composer-Keeps id command (holding_text text tail) = staged_text-Keeps id command text

    pub rescue-Keeps : (id command : String) → Keeps I (abort_input t id command >> pure false)
    rescue-Keeps id command = search (keeping, abort_input-Keeps)

  -- the continuation that is queued
  module _ (sees_refusal : Sees refusal) where
    with_token-Keeps : (o : Option Compaction) → Keeps I (with_token t o)
    with_token-Keeps none = search keeping
    with_token-Keeps (some c) = search (
      keeping,
      map_compaction-Keeps Sees Tells I rule (λ x. record x { resume_token = t.token }) (λ x. refl),
    )

    publish_once-Keeps : (published : Option Bool) → Keeps I (publish_once t published)
    publish_once-Keeps none = search keeping
    publish_once-Keeps (some already) = search keeping

    continuing-Keeps : Keeps I (assign (continuing t))
    continuing-Keeps =
        map_compaction-Keeps Sees Tells I rule (λ c. record c { continuation = true }) (λ c. refl)

    publish_resume-Keeps : Keeps I (publish_resume t)
    unfolding publish_resume
    publish_resume-Keeps =
        search (keeping, holding-Keeps, with_token-Keeps, publish_once-Keeps, continuing-Keeps)

    await_composer-Keeps : (w : Awaited) → Keeps I (await_composer t w)
    await_composer-Keeps composer_ready = search keeping
    await_composer-Keeps await_refused = search keeping
    await_composer-Keeps await_not_started = search keeping
    await_composer-Keeps await_failed = search keeping

    accept_resume-Keeps :
        (id : String) (accepted : Option Bool) → Keeps I (accept_resume t id accepted)
    accept_resume-Keeps id none = search (keeping, finish_input-Keeps)
    accept_resume-Keeps id (some accepted) = search (keeping, finish_input-Keeps)

    resume_sent-Keeps : (id : String) → Keeps I (resume_sent t id)
    resume_sent-Keeps id = search (keeping, finish_input-Keeps, accept_resume-Keeps)

    pub queue_resume-Keeps : (id : String) → Keeps I (queue_resume t id)
    unfolding queue_resume
    queue_resume-Keeps id =
        search
          (keeping, publish_resume-Keeps, await_composer-Keeps, when_done-Keeps, resume_sent-Keeps)
          depth 8
