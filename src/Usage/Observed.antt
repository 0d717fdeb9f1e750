-- ===== src/Usage/Observed.antt =====
-- cmd/gang/usage_state.go: what `observeSnoozeTurn` makes of every wake.
use mathlib.Core.Path.{subst}
use gangline.Prelude.{
  String, ◌≡◌, inl, inr, refl, sym, ap, ◌∙◌, true, false, not, ◌||◌, Option, none, some, List, [],
  ◌∷◌, ◌==◌, is_empty, if◌then◌else◌, eq_iff, Bool-cases, Option-cases, by_test, arith,
}
use gangline.Usage.{and_then, Snooze, Desk, Go}
use gangline.Usage.Judge.{
  Boundary, PromptTurns, is_end, adopt, fail_once, judge_turn, judge_end, judge, judge_key,
  observe_snooze_turn, located, is_member, nothing_found,
}
use gangline.Usage.Fate.{TurnOf, Listed, Around, stays, Fate, Judged, OrFailed, OrFailed-and_then}
use gangline.Usage.Held.{Holding, SameWake-outcome, held-Judged}
use gangline.Usage.Outcomes.{fail_once-Holding}
use gangline.Usage.Turns.{judge_turn-Holding}
use gangline.Usage.Later.{Gone, SameWake-refl, Around-refl, Gone-Fate}

module _ (go : Go) (b : Boundary) where
  module _ (key : String) (s : Snooze) (d : Desk) (there : d.state.recent key ≡ some s) where
    at_start : Holding go b key s s d d
    at_start = record {
      memory = SameWake-refl s;
      turn = inl refl;
      rejected = λ r. inl r;
      stays = record {
        held = s;
        saved = there;
        same = SameWake-refl s;
        turn = inl refl;
        rejected = λ r. inl r;
        next = refl;
      };
      around = Around-refl key d;
    }

    listed :
        (turn : String) (turns : List String) → is_member go b turn turns ≡ true → Listed turn turns
    unfolding is_member
    listed turn [] h = ground arith
    listed turn (t ∷ turns) h = elim (Bool-cases (turn == t)) [
      | inl this ↦ inl ((eq_iff turn t).0 this)
      | inr other ↦ inr (listed turn turns (ground (arith, other, h)))
    ]

    adopted_turn :
        (t : String) (turns : List String) → Listed (adopt go b s (t ∷ turns)).0.turn_id (t ∷ turns)
    unfolding adopt
    adopted_turn t turns =
        by_test (λ x. Listed x (t ∷ turns)) (is_member go b b.turn_id (t ∷ turns)) b.turn_id t
          (λ h. listed b.turn_id (t ∷ turns) h) (λ _. inl refl)

    located_turn : (turn : String) → Listed turn (located go b s.token).turns → TurnOf b s turn
    located_turn turn =
        by_test (λ p. Listed turn p.turns → TurnOf b s turn)
          (nothing_found go b (b.prompt_turn s.token)) (b.named_turn s.token)
          (b.prompt_turn s.token) (λ _ found. inr (inr found)) (λ _ found. inr (inl found))

    adopted :
        (turns : List String)
        → ((turn : String) → Listed turn turns → TurnOf b s turn)
        → Holding go b key s (adopt go b s turns).0 d d
    unfolding adopt
    adopted [] found = at_start
    adopted (t ∷ turns) found = record {
      memory =
          SameWake-outcome go b key s d s (adopt go b s (t ∷ turns)).0.turn_id s.cap_rejected
            s.cap_candidate s.turn_failed s.cap_failed_at (SameWake-refl s);
      turn = found (adopt go b s (t ∷ turns)).0.turn_id (adopted_turn t turns);
      rejected = λ r. inl r;
      stays = at_start.stays;
      around = at_start.around;
    }

    judge_end-Judged :
        (p : PromptTurns)
        → ((turn : String) → Listed turn p.turns → TurnOf b s turn)
        → OrFailed (Judged go b key s d) (judge_end go b key s p d)
    unfolding judge_end
    judge_end-Judged p found =
        let turn = judge_turn go b key (adopt go b s p.turns) d in
        by_test (OrFailed (Judged go b key s d)) p.pending (some d)
          (if p.left then some (fail_once go b key s d) else turn)
          (λ _. held-Judged go b key s d s d at_start)
          (λ _.
            by_test (OrFailed (Judged go b key s d)) p.left (some (fail_once go b key s d)) turn
              (λ _. fail_once-Holding go b key s d s d at_start)
              (λ _.
                judge_turn-Holding go b key s d (adopt go b s p.turns).0 (adopt go b s p.turns).1 d
                  (adopted p.turns found)))

    judge-Judged : OrFailed (Judged go b key s d) (judge go b key s d)
    unfolding judge
    judge-Judged =
        let ended = judge_end go b key s (located go b s.token) d in
        let turn = judge_turn go b key (s, false) d in
        by_test (OrFailed (Judged go b key s d))
          (not (s.recipient_id == b.agent.id) || is_empty s.turn_id) (some d)
          (if is_end go b then ended else turn) (λ _. held-Judged go b key s d s d at_start)
          (λ _.
            by_test (OrFailed (Judged go b key s d)) (is_end go b) ended turn
              (λ _. judge_end-Judged (located go b s.token) located_turn)
              (λ _. judge_turn-Holding go b key s d s false d at_start))

  -- The step of the loop, at another key.
  judge_key-Around :
      (k : String) (d : Desk) → OrFailed (Around k d) (judge_key go b k (d.state.recent k) d)
  unfolding judge_key
  judge_key-Around k d = elim (Option-cases (d.state.recent k)) [
    | inl missing ↦
        subst (λ o. OrFailed (Around k d) (judge_key go b k o d)) (sym missing) (Around-refl k d)
    | inr (s, there) ↦
        subst (λ o. OrFailed (Around k d) (judge_key go b k o d)) (sym there)
          (weaken s (judge go b k s d) (judge-Judged k s d there))
  ]
    where
      weaken :
          (s : Snooze) (o : Option Desk) → OrFailed (Judged go b k s d) o → OrFailed (Around k d) o
      weaken s none p = tt
      weaken s (some e) p = p.around

  judge_key-Judged :
      (k : String) (s : Snooze) (d : Desk)
      → d.state.recent k ≡ some s
      → OrFailed (Judged go b k s d) (judge_key go b k (d.state.recent k) d)
  unfolding judge_key
  judge_key-Judged k s d there =
      subst (λ o. OrFailed (Judged go b k s d) (judge_key go b k o d)) (sym there)
        (judge-Judged k s d there)

  judge_key-gone :
      (k : String) (d : Desk)
      → d.state.recent k ≡ none
      → judge_key go b k (d.state.recent k) d ≡ some d
  unfolding judge_key
  judge_key-gone k d missing = ap (λ o. judge_key go b k o d) missing

  same_entry :
      (k key : String) (d : Desk) → (k == key) ≡ true → d.state.recent k ≡ d.state.recent key
  same_entry k key d same = ap (λ j. d.state.recent j) ((eq_iff k key).0 same)

  pub observe-Gone :
      (key : String) (keys : List String) (d : Desk)
      → d.state.recent key ≡ none
      → OrFailed (Gone key d) (observe_snooze_turn go b keys d)
  unfolding observe_snooze_turn
  observe-Gone key [] d missing = record {
    gone = missing;
    next = refl;
    events = λ stage s told. told;
  }
  observe-Gone key (k ∷ keys) d missing = elim (Bool-cases (k == key)) [
    | inl same ↦
        subst (λ o. OrFailed (Gone key d) (and_then o (λ e. observe_snooze_turn go b keys e)))
          (sym (judge_key-gone k d (same_entry k key d same ∙ missing)))
          (observe-Gone key keys d missing)
    | inr other ↦
        OrFailed-and_then (Gone key d) (judge_key go b k (d.state.recent k) d) _
          (judge_key-Around k d)
          λ e _ around.
            later e around (observe_snooze_turn go b keys e)
              (observe-Gone key keys e (around.recent key other ∙ missing)) other
  ]
    where
      later :
          (e : Desk)
          → Around k d e
          → (o : Option Desk) → OrFailed (Gone key e) o
          → (k == key) ≡ false
          → OrFailed (Gone key d) o
      later e around none left other = tt
      later e around (some f) left other = record {
        gone = left.gone;
        next = left.next ∙ around.snoozes key other;
        events = λ stage s told. left.events stage s (around.events stage s told);
      }

  next-Fate :
      (key : String) (s : Snooze) (d e : Desk) (o : Option Desk)
      → Fate go b key s d e
      → (e.state.recent key ≡ none → OrFailed (Gone key e) o)
      → ((t : Snooze) → e.state.recent key ≡ some t → OrFailed (Fate go b key t e) o)
      → OrFailed (Fate go b key s d) o
  next-Fate key s d e none fate gone there = tt
  next-Fate key s d e (some f) fate gone there =
      Gone-Fate go b key s d e f fate gone (λ h. there h.held h.saved)

  step-Fate :
      (k key : String) (s : Snooze) (d : Desk)
      → d.state.recent key ≡ some s
      → OrFailed (Fate go b key s d) (judge_key go b k (d.state.recent k) d)
  step-Fate k key s d there = elim (Bool-cases (k == key)) [
    | inl same ↦
        let e : k ≡ key = (eq_iff k key).0 same in
        subst (λ j. OrFailed (Fate go b key s d) (judge_key go b j (d.state.recent j) d)) (sym e)
          (fate_of _ (judge_key-Judged key s d there))
    | inr other ↦ stayed _ (judge_key-Around k d) other
  ]
    where
      fate_of :
          (o : Option Desk) → OrFailed (Judged go b key s d) o → OrFailed (Fate go b key s d) o
      fate_of none p = tt
      fate_of (some e) p = p.fate

      stayed :
          (o : Option Desk)
          → OrFailed (Around k d) o
          → (k == key) ≡ false
          → OrFailed (Fate go b key s d) o
      stayed none p other = tt
      stayed (some e) p other = stays (record {
        held = s;
        saved = p.recent key other ∙ there;
        same = SameWake-refl s;
        turn = inl refl;
        rejected = λ r. inl r;
        next = p.snoozes key other;
      })

  -- Whatever wakes the end of a turn judges, in whatever order, a wake that was sent is afterwards one of these. It is
  -- still there; or it was completed by the finish of its turn, or of one that its prompt is found in, with no failure of
  -- the turn and no error since the wake was sent; or a cap has rejected it, before or by what this end shows, and a wake
  -- that its caller has put supersedes it, or it is put again, which a wake that is not automatic is once at most. Or an
  -- identity could not be drawn, and nothing is saved.
  pub observe_snooze_turn-Fate :
      (key : String) (s : Snooze) (keys : List String) (d : Desk)
      → d.state.recent key ≡ some s
      → OrFailed (Fate go b key s d) (observe_snooze_turn go b keys d)
  unfolding observe_snooze_turn
  observe_snooze_turn-Fate key s [] d there = stays (record {
    held = s;
    saved = there;
    same = SameWake-refl s;
    turn = inl refl;
    rejected = λ r. inl r;
    next = refl;
  })
  observe_snooze_turn-Fate key s (k ∷ keys) d there =
      OrFailed-and_then (Fate go b key s d) (judge_key go b k (d.state.recent k) d) _
        (step-Fate k key s d there)
        λ e _ fate.
          next-Fate key s d e (observe_snooze_turn go b keys e) fate (observe-Gone key keys e)
            (λ t saved. observe_snooze_turn-Fate key t keys e saved)
