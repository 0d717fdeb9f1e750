-- ===== src/Usage/Flush/Served.antt =====
-- cmd/gang/usage_state.go: what a flush leaves of the wakes.
use mathlib.Core.Path.{subst}
use gangline.Prelude.{
  String, ◌≡◌, ◌⊎◌, inl, inr, refl, sym, ap, ◌∙◌, true, false, not, ◌&&◌, ◌||◌, Option, none, some,
  List, [], ◌∷◌, ◌==◌, is_some, is_empty, if◌then◌else◌, arith, eq_refl, Bool-cases, Option-cases,
  by_test, some_injective,
}
use gangline.Core.Types.{Agent, Time}
use gangline.Usage.{
  Snooze, snooze_cleared, snooze_rearmed, Desk, put_recent, tell, wake_event, draw,
}
use gangline.Usage.Fate.{OrFailed}
use gangline.Usage.Flush.{
  active_agent, current_lead, Flushing, is_gone, not_due, unaddressed, sent_to, or_lead,
  choose_recipient, send_wake, address, is_open, clear_recent, serve, on_desk, renamed,
}
use gangline.Usage.Flush.Recipients.{active_agent-id, current_lead-active}

module _ (agents : List Agent) (now : Time) where
  abbrev pub IsActive : String → Type 0
  IsActive id = is_some (active_agent agents id) ≡ true

  -- A wake has a recipient that is active, unless its caller is not and there is no single lead.
  abbrev pub Addressed : Snooze → Type 0
  Addressed s =
      IsActive s.recipient_id
      ⊎ (active_agent agents s.caller_id ≡ none) × (current_lead agents ≡ none)

  -- A wake that is due is addressed, or waits for the outcome of the one before.
  pub record Due (key : String) (f : Flushing) : Type 0 where
    pub served :
        (s : Snooze)
        → f.desk.state.snoozes key ≡ some s
        → not_due agents now s ≡ false
        → (is_open agents now (f.desk.state.recent key) ≡ true) ⊎ Addressed s

  -- No wake that was sent waits for a turn of an agent that is gone.
  pub record Awaited (key : String) (d : Desk) : Type 0 where
    pub awaited : (s : Snooze) → d.state.recent key ≡ some s → IsActive s.recipient_id

  -- Nothing but the entries of the key has changed, and no wake took the place of one that was sent.
  pub record Elsewhere (key : String) (d e : Desk) : Type 0 where
    pub recent : (k : String) → (key == k) ≡ false → e.state.recent k ≡ d.state.recent k
    pub snoozes : (k : String) → (key == k) ≡ false → e.state.snoozes k ≡ d.state.snoozes k
    pub fewer : (k : String) (t : Snooze) → e.state.recent k ≡ some t → d.state.recent k ≡ some t

  pub record Served (key : String) (d : Desk) (f : Flushing) : Type 0 where
    pub due : Due key f
    pub elsewhere : Elsewhere key d f.desk

  choose_recipient-Addressed :
      (s : Snooze)
      → IsActive s.recipient_id ⊎ (s.recipient_id ≡ "")
      → Addressed (choose_recipient agents now s)
  unfolding choose_recipient
  choose_recipient-Addressed s h =
      by_test Addressed (is_empty s.recipient_id)
        (sent_to agents now s (or_lead agents now (active_agent agents s.caller_id))) s
        (λ _. to_caller (active_agent agents s.caller_id) refl)
        (λ named. elim h [ inl active ↦ inl active | inr empty ↦ absurd (named_empty empty named) ])
    where
      named_empty : {t : String} → t ≡ "" → is_empty t ≡ false → ⊥
      named_empty e named = ground (arith, ap (λ x. is_empty x) e)

      to_lead :
          (o : Option Agent)
          → current_lead agents ≡ o
          → active_agent agents s.caller_id ≡ none
          → Addressed (sent_to agents now s o)
      to_lead none e missing = inr (missing, e)
      to_lead (some l) e missing = inl (current_lead-active agents l e)

      to_caller :
          (o : Option Agent)
          → active_agent agents s.caller_id ≡ o
          → Addressed (sent_to agents now s (or_lead agents now o))
      to_caller none e = to_lead (current_lead agents) refl e
      to_caller (some a) e = inl (
          ap (λ i. is_some (active_agent agents i)) (active_agent-id agents s.caller_id a e)
          ∙ ap (λ o. is_some o) e)

  Due-send_wake :
      (key : String) (s : Snooze) (f : Flushing)
      → Addressed s
      → Due key (send_wake agents now key s f)
  unfolding send_wake
  Due-send_wake key s f addressed = record {
    served = λ t saved due.
        inr (subst Addressed (some_injective s t (rw (eq_refl key) at saved)) addressed);
  }

  send_wake-Served :
      (key : String) (s : Snooze) (d : Desk) (f : Flushing)
      → Elsewhere key d f.desk
      → Addressed s
      → Served key d (send_wake agents now key s f)
  unfolding send_wake
  send_wake-Served key s d f h addressed = record {
    due = Due-send_wake key s f addressed;
    elsewhere = record {
      recent = h.recent;
      snoozes = λ k other. rw other (h.snoozes k other);
      fewer = h.fewer;
    };
  }

  address-Served :
      (key : String) (s : Snooze) (d : Desk) (f : Flushing)
      → Elsewhere key d f.desk
      → OrFailed (Served key d) (address agents now key s f)
  unfolding address
  address-Served key s d f h =
      let again = draw f.desk.draws λ id token draws. some (
        send_wake agents now key
          (choose_recipient agents now (unaddressed agents now (renamed agents now s id token)))
          (on_desk agents now f (
            tell (wake_event snooze_rearmed (renamed agents now s id token) now)
              (record f.desk { draws = draws })))) in
      let sent =
        some
          (send_wake agents now key (choose_recipient agents now (unaddressed agents now s)) f) in
      by_test (OrFailed (Served key d)) (not (is_gone agents now s.recipient_id))
        (some (send_wake agents now key (choose_recipient agents now s) f))
        (if not (is_empty s.recipient_id) && not (is_empty s.submission) then again else sent)
        (λ active.
          send_wake-Served key _ d f h
            (choose_recipient-Addressed s (inl (ground (arith, active)))))
        (λ _.
          by_test (OrFailed (Served key d))
            (not (is_empty s.recipient_id) && not (is_empty s.submission)) again sent
            (λ _. renewed f.desk.draws)
            (λ _.
              send_wake-Served key _ d f h
                (choose_recipient-Addressed (unaddressed agents now s) (inr refl))))
    where
      renewed :
          (draws : List (String × String))
          → OrFailed (Served key d) (
              draw draws λ id token rest. some (
                send_wake agents now key
                  (choose_recipient agents now
                    (unaddressed agents now (renamed agents now s id token)))
                  (on_desk agents now f (
                    tell
                      (wake_event snooze_rearmed (renamed agents now s id token) now)
                      (record f.desk { draws = rest })))))
      renewed [] = tt
      renewed ((id, token) ∷ rest) =
          send_wake-Served key _ d _
            (record { recent = h.recent; snoozes = h.snoozes; fewer = h.fewer })
            (choose_recipient-Addressed (unaddressed agents now (renamed agents now s id token))
              (inr refl))

  pub Elsewhere-refl : (key : String) (d : Desk) → Elsewhere key d d
  Elsewhere-refl key d = record {
    recent = λ k other. refl;
    snoozes = λ k other. refl;
    fewer = λ k t saved. saved;
  }

  clear_recent-Elsewhere :
      (key : String) (o : Option Snooze) (d : Desk)
      → Elsewhere key d (clear_recent agents now key o d)
  unfolding clear_recent
  clear_recent-Elsewhere key none d = Elsewhere-refl key d
  clear_recent-Elsewhere key (some t) d =
      by_test (Elsewhere key d) (is_empty t.id) d
        (tell (wake_event snooze_cleared t now) (put_recent key none d)) (λ _. Elsewhere-refl key d)
        (λ _. record {
          recent = λ k other. rw other refl;
          snoozes = λ k other. refl;
          fewer = λ k u saved. elim (Bool-cases (key == k)) [
            | inl same ↦ absurd (missing u (rw same at saved))
            | inr other ↦ rw other at saved
          ];
        })
    where
      missing : (u : Snooze) → none ≡ some u → ⊥
      missing u e = cc

  pub serve-Served :
      (key : String) (f : Flushing)
      → OrFailed (Served key f.desk) (serve agents now key (f.desk.state.snoozes key) f)
  unfolding serve
  serve-Served key f = elim (Option-cases (f.desk.state.snoozes key)) [
    | inl missing ↦
        subst (λ o. OrFailed (Served key f.desk) (serve agents now key o f)) (sym missing)
          (record {
            due = record { served = λ s saved due. absurd (nothing s (sym missing ∙ saved)) };
            elsewhere = Elsewhere-refl key f.desk;
          })
    | inr (s, there) ↦
        subst (λ o. OrFailed (Served key f.desk) (serve agents now key o f)) (sym there)
          (served s there)
  ]
    where
      nothing : (u : Snooze) → none ≡ some u → ⊥
      nothing u e = cc

      served :
          (s : Snooze)
          → f.desk.state.snoozes key ≡ some s
          → OrFailed (Served key f.desk) (serve agents now key (some s) f)
      served s there =
          let cleared =
            on_desk agents now f (clear_recent agents now key (f.desk.state.recent key) f.desk) in
          by_test (OrFailed (Served key f.desk))
            (not_due agents now s || is_open agents now (f.desk.state.recent key)) (some f)
            (address agents now key s cleared)
            (λ waits. record {
              due = record {
                served = λ t saved due. inl (
                    ground (
                      arith,
                      waits,
                      ap (λ x. not_due agents now x) (some_injective s t (sym there ∙ saved)),
                      due,
                    ));
              };
              elsewhere = Elsewhere-refl key f.desk;
            })
            (λ _.
              address-Served key s f.desk cleared
                (clear_recent-Elsewhere key (f.desk.state.recent key) f.desk))
