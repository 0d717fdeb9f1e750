-- ===== src/Idle/Delivery/Flushed.antt =====
-- cmd/gang/team_idle.go: what a flush does of a notice that may change between its two reads.
use mathlib.Core.Path.{subst}
use gangline.Prelude.{
  some_injective, sym, ap, ◌∙◌, by_test, ◌≡◌, refl, String, Bool, true, false, not, ◌&&◌, ◌||◌,
  Option, none, some, ◌==◌, if◌then◌else◌, arith, eq_refl, eq_iff, Bool-cases, inl, inr,
}
use gangline.Core.Types.{Agent, Envelope}
use gangline.Store.World.{IdleState, IdleNotice}
use gangline.Idle.{is_active, idle_notice_settled}
use gangline.Idle.Delivery.{
  Flush, nothing, settle, publish, Recipient, locked, gone, held, keeps_lead, flush_current,
  flush_recipient, flush_notice, flush_idle_notice, leaves, matches, open_for, is_open,
  is_idle_letter, settle_matching, settle_idle_notice, retire_idle_envelope,
}

-- The agent is the lead, in the registration and the session, that the notice was reserved for.
abbrev pub is_for : Option IdleNotice → Agent → Bool
is_for none a = false
is_for (some n) a = keeps_lead a n

-- Notices of one identity differ in their outcomes alone.
abbrev pub SameNotice : Option IdleNotice → Option IdleNotice → Type 0
SameNotice (some n) (some m) = m.envelope.id ≡ n.envelope.id → m ≡ record n { outcome = m.outcome }
SameNotice none o = Unit
SameNotice (some n) none = Unit

-- The settlement of the letter succeeds, and no later flush of what it leaves does anything.
abbrev pub Ended : IdleState → Envelope → String → Type 0
Ended u e outcome =
    is_idle_letter e ≡ true
    → (v : IdleState) × ((settle_idle_notice u e outcome ≡ some v)
        × ((r : Recipient) (w : IdleState) → flush_idle_notice v r w ≡ nothing))

-- What a flush does, of a notice that is read in `s` and again in `t`.
abbrev pub Flushed : IdleState → Recipient → IdleState → Flush → Type 0
Flushed s locked t nothing = Unit
Flushed s gone t nothing = idle_notice_settled s.notice ≡ true
Flushed s (held a) t nothing = t.notice ≡ s.notice → is_open s.notice ≡ false
Flushed s locked t (settle e outcome) = ⊥
Flushed s gone t (settle e outcome) = Ended s e outcome
Flushed s (held a) t (settle e outcome) =
    ((is_active a.status && is_for t.notice a) ≡ false) × Ended t e outcome
Flushed s locked t (publish e) = ⊥
Flushed s gone t (publish e) = ⊥
Flushed s (held a) t (publish e) =
    ((is_active a.status && open_for t.notice a) ≡ true)
    × (e.recipient ≡ a.id → retire_idle_envelope t a e ≡ leaves)

retire-leaves :
    (s : IdleState) (n : IdleNotice) (a : Agent)
    → s.notice ≡ some n
    → open_for (some n) a ≡ true
    → n.envelope.recipient ≡ a.id
    → retire_idle_envelope s a n.envelope ≡ leaves
unfolding retire_idle_envelope
retire-leaves s n a e waits mine =
    let id = eq_refl n.envelope.id in
    let token = eq_refl n.envelope.token in
    let recipient : (n.envelope.recipient == a.id) ≡ true =
      (eq_iff n.envelope.recipient a.id).1 mine in
    let both : (matches (some n) a n.envelope && open_for (some n) a) ≡ true = ground arith in
    elim (Bool-cases (is_idle_letter n.envelope)) [
      | inr another ↦ rw another refl
      | inl letter ↦ rw letter (rw e (rw both refl))
    ]

settle-Ended :
    (u : IdleState) (n : IdleNotice) (outcome : String)
    → u.notice ≡ some n
    → idle_notice_settled (some (record n { outcome = outcome })) ≡ true
    → Ended u n.envelope outcome
unfolding settle_idle_notice settle_matching flush_idle_notice flush_notice
settle-Ended u n outcome e done letter =
    let id = eq_refl n.envelope.id in
    let recipient = eq_refl n.envelope.recipient in
    let token = eq_refl n.envelope.token in
    (
      record u { notice = some (record n { outcome = outcome }) },
      (rw letter (rw e (rw (id, recipient, token) refl)), λ r w. rw done refl),
    )

flush_current-Flushed :
    (s t : IdleState) (n : IdleNotice) (a : Agent) (current : Option IdleNotice)
    → s.notice ≡ some n
    → t.notice ≡ current
    → SameNotice (some n) current
    → Flushed s (held a) t (flush_current n a current)
unfolding flush_current idle_notice_settled
flush_current-Flushed s t n a none e f same = λ k. cc
flush_current-Flushed s t n a (some m) e f same =
    by_test (Flushed s (held a) t) (not (m.envelope.id == n.envelope.id)) nothing kept
      (λ other k.
        let one = some_injective m n (sym f ∙ k ∙ e) in
        ground (arith, other, eq_iff m.envelope.id n.envelope.id, ap (λ x. x.envelope.id) one))
      (λ mine. goes (same ((eq_iff m.envelope.id n.envelope.id).0 (ground (arith, mine)))))
  where
    waits : Flush
    waits = if not (m.outcome == "") then nothing else publish n.envelope

    kept : Flush
    kept =
        if not (is_active a.status) || not (keeps_lead a n)
        then settle n.envelope "recipient-changed"
        else waits

    goes : m ≡ record n { outcome = m.outcome } → Flushed s (held a) t kept
    goes one =
        let letter : m.envelope ≡ n.envelope = ap (λ x. x.envelope) one in
        let lead : keeps_lead a m ≡ keeps_lead a n = ap (λ x. keeps_lead a x) one in
        by_test (Flushed s (held a) t) (not (is_active a.status) || not (keeps_lead a n))
          (settle n.envelope "recipient-changed") waits
          (λ changed. (
            rw f (rw lead (ground (arith, changed))),
            subst (λ x. Ended t x "recipient-changed") letter
                (settle-Ended t m "recipient-changed" f refl),
          ))
          (λ mine.
            by_test (Flushed s (held a) t) (not (m.outcome == "")) nothing (publish n.envelope)
              (λ closed k. rw (sym k) (rw f (ground (arith, closed))))
              (λ opened. (
                rw f (rw lead (ground (arith, opened, mine))),
                subst (λ x. x.recipient ≡ a.id → retire_idle_envelope t a x ≡ leaves) letter
                    (retire-leaves t m a f (rw lead (ground (arith, opened, mine)))),
              )))

settled-closed : (n : IdleNotice) → idle_notice_settled (some n) ≡ true → (n.outcome == "") ≡ false
unfolding idle_notice_settled
settled-closed n h = elim (Bool-cases (n.outcome == "")) [
  | inr closed ↦ closed
  | inl empty ↦
      let bad : false ≡ true =
        subst (λ x. idle_notice_settled (some (record n { outcome = x })) ≡ true)
          ((eq_iff n.outcome "").0 empty) h in
      empty ∙ sym bad
]

settled-Flushed :
    (s : IdleState) (n : IdleNotice) (r : Recipient) (t : IdleState)
    → s.notice ≡ some n
    → idle_notice_settled (some n) ≡ true
    → Flushed s r t nothing
settled-Flushed s n locked t e h = tt
settled-Flushed s n gone t e h = ap idle_notice_settled e ∙ h
settled-Flushed s n (held a) t e h = λ k. rw e (settled-closed n h)

missing-Flushed :
    (s : IdleState) (r : Recipient) (t : IdleState) → s.notice ≡ none → Flushed s r t nothing
unfolding idle_notice_settled
missing-Flushed s locked t e = tt
missing-Flushed s gone t e = ap idle_notice_settled e
missing-Flushed s (held a) t e = λ k. rw e refl

flush_recipient-Flushed :
    (s : IdleState) (n : IdleNotice) (r : Recipient) (t : IdleState)
    → s.notice ≡ some n
    → SameNotice (some n) t.notice
    → Flushed s r t (flush_recipient n r t.notice)
unfolding flush_recipient idle_notice_settled
flush_recipient-Flushed s n locked t e same = tt
flush_recipient-Flushed s n gone t e same = settle-Ended s n "recipient-gone" e refl
flush_recipient-Flushed s n (held a) t e same = flush_current-Flushed s t n a t.notice e refl same

-- A notice is read, and again when its recipient is locked, between which it may be settled or replaced. It is published
-- only if it is open still, to an active agent that is the lead it was reserved for, and its envelope then survives the
-- retirement under the second state, if it is addressed to that agent. It is settled where there is no such agent, or
-- the agent is not active or not that lead, after which no flush does anything. A notice that has not changed is left
-- alone only if it is closed or another process has the lock. Notices of one identity differ in their outcomes alone.
pub flush_idle_notice-Flushed :
    (s : IdleState) (r : Recipient) (t : IdleState)
    → SameNotice s.notice t.notice
    → Flushed s r t (flush_idle_notice s r t)
unfolding flush_idle_notice flush_notice
flush_idle_notice-Flushed s r t same = goes s.notice refl same
  where
    goes :
        (o : Option IdleNotice)
        → s.notice ≡ o
        → SameNotice o t.notice
        → Flushed s r t (flush_notice o r t.notice)
    goes none e same = missing-Flushed s r t e
    goes (some n) e same =
        by_test (Flushed s r t) (idle_notice_settled (some n)) nothing
          (flush_recipient n r t.notice) (λ h. settled-Flushed s n r t e h)
          (λ _. flush_recipient-Flushed s n r t e same)
