-- ===== src/Store/World/Rules.antt =====
-- store/: rules for what an action leaves, whether it returns, fails or stops.
use gangline.Prelude.{Bool, true, false, List, [], ◌∷◌}
use gangline.Store.World.{Result, ok, err, World, M, faulty, io, continue, Post}

module _ {A : Type 0} (Q : A → World → Type 0) (E : World → Type 0) where
  Post-faulty :
      (fs : List Bool) (act : M A) (w : World)
      → ((gs : List Bool) → E (record w { faults = gs }))
      → ((gs : List Bool) → Post Q E (act (record w { faults = gs })))
      → Post Q E (faulty fs act w)
  Post-faulty [] act w stop go = go w.faults
  Post-faulty (true ∷ fs) act w stop go = stop fs
  Post-faulty (false ∷ fs) act w stop go = go fs

  -- A call of the operating system stops where it stands, or runs.
  pub Post-io :
      (act : M A) (w : World)
      → ((gs : List Bool) → E (record w { faults = gs }))
      → ((gs : List Bool) → Post Q E (act (record w { faults = gs })))
      → Post Q E (io act w)
  unfolding io
  Post-io act w stop go = Post-faulty w.faults act w stop go

module _ {A B : Type 0} (R : A → World → Type 0) (Q : B → World → Type 0) (E : World → Type 0) where
  Post-continue :
      (r : Result A × World) (f : A → M B)
      → Post R E r
      → ((a : A) (w : World) → R a w → Post Q E (f a w))
      → Post Q E (continue r f)
  Post-continue (ok a, w) f h k = k a w h
  Post-continue (err x, w) f h k = h

  -- A sequence ends where its first action fails, or as the rest does from what the first leaves.
  pub Post-bind :
      (m : M A) (f : A → M B) (w : World)
      → Post R E (m w)
      → ((a : A) (v : World) → R a v → Post Q E (f a v))
      → Post Q E (continue (m w) f)
  Post-bind m f w h k = Post-continue (m w) f h k

-- The same, where the first action stops at a stronger condition.
module _ {A B : Type 0} (R : A → World → Type 0) (Q : B → World → Type 0)
    (D E : World → Type 0) where
  pub Post-from :
      (weaken : (v : World) → D v → E v) (m : M A) (f : A → M B) (w : World)
      → Post R D (m w)
      → ((a : A) (v : World) → R a v → Post Q E (f a v))
      → Post Q E (continue (m w) f)
  Post-from weaken m f w h k = go (m w) h
    where
      go : (r : Result A × World) → Post R D r → Post Q E (continue r f)
      go (ok a, v) h = k a v h
      go (err x, v) h = weaken v h
