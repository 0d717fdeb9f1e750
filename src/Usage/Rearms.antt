-- ===== src/Usage/Rearms.antt =====
-- cmd/gang/usage_state.go: how often a wake is put again for a cap.
use gangline.Prelude.{
  ◌≤◌, String, ◌≡◌, sym, ◌∙◌, false, Option, none, some, List, arith, Option-cases, inl, inr,
}
use mathlib.Core.Path.{subst}
use gangline.Usage.{Snooze, Desk, Go}
use gangline.Usage.Judge.{Boundary, observe_snooze_turn}
use gangline.Usage.Fate.{Fate, stays, completed, cleared, put_again, OrFailed}
use gangline.Usage.Later.{Gone}
use gangline.Usage.Observed.{observe-Gone, observe_snooze_turn-Fate}

-- A wake that is not automatic was put again for a cap once at most.
unfoldable pub Modest : Option Snooze → Type 0
Modest none = Unit
Modest (some s) = s.auto ≡ false → s.rearms ≤ 1

pub record AllModest (d : Desk) : Type 0 where
  pub recent : (key : String) → Modest (d.state.recent key)
  pub snoozes : (key : String) → Modest (d.state.snoozes key)

record ModestAt (key : String) (e : Desk) : Type 0 where
  recent : Modest (e.state.recent key)
  snoozes : Modest (e.state.snoozes key)

module _ (go : Go) (b : Boundary) (key : String) (d e : Desk) where
  same_snooze :
      e.state.snoozes key ≡ d.state.snoozes key
      → Modest (d.state.snoozes key)
      → Modest (e.state.snoozes key)
  same_snooze e m = subst Modest (sym e) m

  no_wake : e.state.recent key ≡ none → Modest (e.state.recent key)
  unfolding Modest
  no_wake gone = subst Modest (sym gone) tt

  Fate-ModestAt :
      (s : Snooze)
      → Modest (some s)
      → Modest (d.state.snoozes key)
      → Fate go b key s d e
      → ModestAt key e
  unfolding Modest
  Fate-ModestAt s m n (stays h) = record {
    recent =
        subst Modest (sym h.saved)
          (λ manual. ground (arith, h.same.rearms, m (sym h.same.auto ∙ manual)));
    snoozes = same_snooze h.next n;
  }
  Fate-ModestAt s m n (completed h) = record {
    recent = no_wake h.gone;
    snoozes = same_snooze h.next n;
  }
  Fate-ModestAt s m n (cleared h) = record {
    recent = no_wake h.gone;
    snoozes = same_snooze h.next n;
  }
  Fate-ModestAt s m n (put_again h) = record {
    recent = no_wake h.gone;
    snoozes =
        subst Modest (sym h.saved)
          (λ manual. ground (arith, h.rearms, h.first (sym h.auto ∙ manual)));
  }

module _ (go : Go) (b : Boundary) where
  observe-ModestAt :
      (key : String) (keys : List String) (d : Desk)
      → AllModest d
      → OrFailed (ModestAt key) (observe_snooze_turn go b keys d)
  observe-ModestAt key keys d all = elim (Option-cases (d.state.recent key)) [
    | inl missing ↦
        from_gone (observe_snooze_turn go b keys d) (observe-Gone go b key keys d missing)
    | inr (s, there) ↦
        from_fate s there (observe_snooze_turn go b keys d)
          (observe_snooze_turn-Fate go b key s keys d there)
  ]
    where
      from_gone : (o : Option Desk) → OrFailed (Gone key d) o → OrFailed (ModestAt key) o
      from_gone none g = tt
      from_gone (some e) g = record {
        recent = no_wake go b key d e g.gone;
        snoozes = same_snooze go b key d e g.next (all.snoozes key);
      }

      from_fate :
          (s : Snooze)
          → d.state.recent key ≡ some s
          → (o : Option Desk) → OrFailed (Fate go b key s d) o
          → OrFailed (ModestAt key) o
      from_fate s there none f = tt
      from_fate s there (some e) f =
          Fate-ModestAt go b key d e s (subst Modest there (all.recent key)) (all.snoozes key) f

  -- If no wake but an automatic one was put again for a cap more than once, this holds after any end of a turn,
  -- whatever wakes it judges.
  pub observe_snooze_turn-AllModest :
      (keys : List String) (d : Desk)
      → AllModest d
      → OrFailed AllModest (observe_snooze_turn go b keys d)
  observe_snooze_turn-AllModest keys d all =
      gather (observe_snooze_turn go b keys d) (λ key. observe-ModestAt key keys d all)
    where
      gather :
          (o : Option Desk) → ((key : String) → OrFailed (ModestAt key) o) → OrFailed AllModest o
      gather none m = tt
      gather (some e) m = record {
        recent = λ key. (m key).recent;
        snoozes = λ key. (m key).snoozes;
      }
