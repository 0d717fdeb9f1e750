-- ===== src/Idle/Window.antt =====
-- cmd/gang/team_idle.go: what `advanceIdleWindow` measures over the sweeps that call it.
use gangline.Prelude.{
  ◌+◌, ◌-◌, ◌≤◌, ◌<◌, ◌≡◌, inl, inr, refl, Bool, true, false, ◌&&◌, Option, none, some, List, [],
  ◌∷◌, ltb, leb, arith, Bool-cases,
}
use gangline.Core.Types.{Time}
use gangline.Idle.{status_hook_freshness, IdleWindow, continues, advance_idle_window}

-- One sweep: what it observes, and whether the whole team is ready.
pub record Sweep : Type 0 where
  pub observed : IdleWindow
  pub ready : Bool

-- The cached window after the sweeps, the latest first, and whether the latest one was mature.
-- Each sweep observes with `Since` at its own time, as `reserveIdleNotice` does.
unfoldable pub watch : List Sweep → Option IdleWindow × Bool
watch [] = (none, false)
watch (s ∷ sweeps) = advance_idle_window (watch sweeps).0 s.observed s.ready

-- The latest sweeps, back to the time `since`, were all ready, and each went on from the one before:
-- the same lead, members, work, hooks and screens, less than `status_hook_freshness` later.
pub data Quiet : List Sweep → Time → IdleWindow → Type 0 where
  opened :
      {s : Sweep} {sweeps : List Sweep}
      → s.ready ≡ true
      → Quiet (s ∷ sweeps) s.observed.since s.observed
  kept :
      {s : Sweep} {sweeps : List Sweep} {since : Time} {w : IdleWindow}
      → s.ready ≡ true
      → Quiet sweeps since w
      → continues (record w { since = since }) s.observed ≡ true
      → (w.last ≤ s.observed.last) × (s.observed.last < w.last + status_hook_freshness)
      → Quiet (s ∷ sweeps) since s.observed

-- The window that is cached describes a quiet run of sweeps; a mature one is long enough.
abbrev pub Watched : List Sweep → Option IdleWindow × Bool → Type 0
Watched sweeps (none, mature) = mature ≡ false
Watched sweeps (some v, mature) =
    ((w : IdleWindow) × (Quiet sweeps v.since w × (v ≡ record w { since = v.since })))
    × (mature ≡ true → (0 < v.minimum) × (v.since + v.minimum ≤ v.last))

no_gap :
    (w o : IdleWindow)
    → continues w o ≡ true
    → (w.last ≤ o.last) × (o.last < w.last + status_hook_freshness)
unfolding continues
no_gap w o h = ground (arith, h)

long_enough :
    (v : IdleWindow)
    → (ltb 0 v.minimum && leb v.minimum (v.last - v.since)) ≡ true
    → (0 < v.minimum) × (v.since + v.minimum ≤ v.last)
long_enough v h = ground arith

advance_idle_window-Watched :
    (o : IdleWindow) (ready : Bool) (sweeps : List Sweep) (p : Option IdleWindow × Bool)
    → Watched sweeps p
    → Watched (record { observed = o; ready = ready } ∷ sweeps) (advance_idle_window p.0 o ready)
unfolding advance_idle_window
advance_idle_window-Watched o false sweeps (none, mature) h = refl
advance_idle_window-Watched o false sweeps (some v, mature) h = refl
advance_idle_window-Watched o true sweeps (none, mature) h =
    ((o, (opened refl, refl)), λ m. ground arith)
advance_idle_window-Watched o true sweeps (some v, mature) ((w, (run, e)), long) =
    elim (Bool-cases (continues v o)) [
      | inr other ↦ rw other ((o, (opened refl, refl)), λ m. ground arith)
      | inl on ↦
          let goes_on : continues (record w { since = v.since }) o ≡ true = rw e at on in
          rw on (
            (o, (kept refl run goes_on (no_gap (record w { since = v.since }) o goes_on), refl)),
            long_enough (record o { since = v.since }),
          )
    ]

-- Whatever the sweeps observe, a cached window describes a run of the latest sweeps in which the
-- team was ready each time and nothing of it changed, each less than `status_hook_freshness` after the one before, and
-- the window is mature only if that run spans the positive minimum.
pub watch-Watched : (sweeps : List Sweep) → Watched sweeps (watch sweeps)
unfolding watch
watch-Watched [] = refl
watch-Watched (s ∷ sweeps) =
    advance_idle_window-Watched s.observed s.ready sweeps (watch sweeps) (watch-Watched sweeps)
