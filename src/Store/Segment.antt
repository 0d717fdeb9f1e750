-- ===== src/Store/Segment.antt =====
-- store/store.go: `segment`, which checks a name before it becomes part of a path.
-- A text is walked as its code points. `base` is Go's `filepath.Base` on Unix.
use Prim.Native.Char.{code}
use mathlib.Core.Path.{subst}
use mathlib.Core.List.{reverse, reverse_aux, reverse-reverse}
use gangline.Prelude.{
  ℕ, String, ◌≡◌, ◌≢◌, ◌↔◌, ◌⊎◌, ◌∙◌, inl, inr, Bool, true, false, not, ◌&&◌, ◌||◌, List, [], ◌∷◌,
  refl, sym, ap, arith, eqb, if◌then◌else◌, All, Bool-cases,
}

abbrev pub codes : String → List ℕ
codes String.[] = []
codes (String.◌∷◌ c s) = code c ∷ codes s

abbrev pub is_slash : ℕ → Bool
is_slash c = eqb c b'/'

strip_slashes : List ℕ → List ℕ
strip_slashes [] = []
strip_slashes (c ∷ cs) = if is_slash c then strip_slashes cs else c ∷ cs

until_slash : List ℕ → List ℕ
until_slash [] = []
until_slash (c ∷ cs) = if is_slash c then [] else c ∷ until_slash cs

abbrev or_slash : List ℕ → List ℕ
or_slash [] = b'/' ∷ []
or_slash cs = cs

-- filepath.Base: the last element of a path, without trailing slashes
base : List ℕ → List ℕ
base [] = b'.' ∷ []
base p = or_slash (reverse (until_slash (strip_slashes (reverse p))))

same : List ℕ → List ℕ → Bool
same [] [] = true
same (a ∷ as') (b ∷ bs) = eqb a b && same as' bs
same _ _ = false

-- strings.ContainsAny(value, "\\\x00")
has_reserved : List ℕ → Bool
has_reserved [] = false
has_reserved (c ∷ cs) = eqb c 92 || eqb c 0 || has_reserved cs

is_segment : List ℕ → Bool
is_segment [] = false
is_segment cs = not (
    same cs (b'.' ∷ []) || same cs (b'.' ∷ b'.' ∷ []) || not (same (base cs) cs) || has_reserved cs)

-- true where `segment` returns no error
unfoldable pub segment : String → Bool
unfolding is_segment base strip_slashes until_slash same has_reserved
segment value = is_segment (codes value)

abbrev pub IsPlain : List ℕ → Type 0
IsPlain = All (λ c. (c ≢ b'/') × (c ≢ 92) × (c ≢ 0))

same→≡ : (as' bs : List ℕ) → same as' bs ≡ true → as' ≡ bs
unfolding same
same→≡ [] [] h = refl
same→≡ [] (b ∷ bs) h = cc
same→≡ (a ∷ as') [] h = cc
same→≡ (a ∷ as') (b ∷ bs) h = ground (arith, same→≡ as' bs)

same_refl : (as' : List ℕ) → same as' as' ≡ true
unfolding same
same_refl [] = refl
same_refl (a ∷ as') = ground (arith, same_refl as')

abbrev NoSlash : List ℕ → Type 0
NoSlash = All (λ c. c ≢ b'/')

NoSlash-until_slash : (cs : List ℕ) → NoSlash (until_slash cs)
unfolding until_slash
NoSlash-until_slash [] = tt
NoSlash-until_slash (c ∷ cs) = ground (arith, NoSlash-until_slash cs)

until_slash_all : (cs : List ℕ) → NoSlash cs → until_slash cs ≡ cs
unfolding until_slash
until_slash_all [] h = refl
until_slash_all (c ∷ cs) h = ground (arith, until_slash_all cs)

strip_slashes_none : (cs : List ℕ) → NoSlash cs → strip_slashes cs ≡ cs
unfolding strip_slashes
strip_slashes_none [] h = refl
strip_slashes_none (c ∷ cs) h = ground arith

All-reverse_aux : (cs acc : List ℕ) → NoSlash cs → NoSlash acc → NoSlash (reverse_aux cs acc)
All-reverse_aux [] acc h k = k
All-reverse_aux (c ∷ cs) acc h k = All-reverse_aux cs (c ∷ acc) h.1 (h.0, k)

or_slash_cases : (cs : List ℕ) → (or_slash cs ≡ cs) ⊎ (or_slash cs ≡ b'/' ∷ [])
or_slash_cases [] = inr refl
or_slash_cases (c ∷ cs) = inl refl

base_plain : (c : ℕ) (cs : List ℕ) → NoSlash (c ∷ cs) → base (c ∷ cs) ≡ c ∷ cs
unfolding base
base_plain c cs h =
    let plain : NoSlash (reverse (c ∷ cs)) = All-reverse_aux (c ∷ cs) [] h tt in
    simp (
      strip_slashes_none (reverse (c ∷ cs)) plain,
      until_slash_all (reverse (c ∷ cs)) plain,
      reverse-reverse (c ∷ cs),
    )

base_fixed :
    (c : ℕ) (cs : List ℕ) → base (c ∷ cs) ≡ c ∷ cs → NoSlash (c ∷ cs) ⊎ (c ∷ cs ≡ b'/' ∷ [])
unfolding base
base_fixed c cs h =
    let last : List ℕ = until_slash (strip_slashes (reverse (c ∷ cs))) in
    elim (or_slash_cases (reverse last)) [
      | inl kept ↦ inl (
          subst NoSlash (sym kept ∙ h)
            (All-reverse_aux last [] (NoSlash-until_slash (strip_slashes (reverse (c ∷ cs)))) tt))
      | inr slash ↦ inr (sym h ∙ slash)
    ]

has_reserved_iff : (cs : List ℕ) → (has_reserved cs ≡ false) ↔ All (λ c. (c ≢ 92) × (c ≢ 0)) cs
unfolding has_reserved
has_reserved_iff [] = (λ h. tt, λ h. refl)
has_reserved_iff (c ∷ cs) = ground (arith, has_reserved_iff cs)

All-both : (cs : List ℕ) → NoSlash cs → All (λ c. (c ≢ 92) × (c ≢ 0)) cs → IsPlain cs
All-both [] h k = tt
All-both (c ∷ cs) h k = ((h.0, k.0.0, k.0.1), All-both cs h.1 k.1)

-- What `segment` accepts: a text that is not empty, `.` or `..` and holds no slash, backslash or
-- NUL; or the single text `/`.
abbrev pub Accepted : List ℕ → Type 0
Accepted cs =
    ((cs ≢ []) × (cs ≢ b'.' ∷ []) × (cs ≢ b'.' ∷ b'.' ∷ []) × IsPlain cs) ⊎ (cs ≡ b'/' ∷ [])

passes :
    (a b c d : Bool)
    → not (a || b || not c || d) ≡ true
    → (a ≡ false) × (b ≡ false) × (c ≡ true) × (d ≡ false)
passes a b c d h = ground arith

differs : (as' bs : List ℕ) → same as' bs ≡ false → as' ≢ bs
differs as' bs h e = cc (h, same_refl bs, ap (λ x. same x bs) e)

accepts : (c : ℕ) (cs : List ℕ) → is_segment (c ∷ cs) ≡ true → Accepted (c ∷ cs)
unfolding is_segment
accepts c cs h =
    let (dot, dots, kept, clean) = passes _ _ _ _ h in
    elim (base_fixed c cs (same→≡ _ _ kept)) [
      | inl plain ↦ inl (
        λ e. cc,
        differs _ _ dot,
        differs _ _ dots,
        All-both (c ∷ cs) plain ((has_reserved_iff (c ∷ cs)).0 clean),
      )
      | inr slash ↦ inr slash
    ]

NoSlash-of_plain : (cs : List ℕ) → IsPlain cs → NoSlash cs × All (λ c. (c ≢ 92) × (c ≢ 0)) cs
NoSlash-of_plain [] h = (tt, tt)
NoSlash-of_plain (c ∷ cs) h =
    let (a, b) = NoSlash-of_plain cs h.1 in ((h.0.0, a), ((h.0.1, h.0.2), b))

same-false : (as' bs : List ℕ) → as' ≢ bs → same as' bs ≡ false
same-false as' bs h = elim (Bool-cases (same as' bs)) [
  | inl e ↦ absurd (h (same→≡ as' bs e))
  | inr e ↦ e
]

accepted : (c : ℕ) (cs : List ℕ) → Accepted (c ∷ cs) → is_segment (c ∷ cs) ≡ true
unfolding is_segment
accepted c cs (inl (_, dot, dots, plain)) =
    let (n, r) = NoSlash-of_plain (c ∷ cs) plain in
    rw (
      same-false _ _ dot,
      same-false _ _ dots,
      base_plain c cs n,
      same_refl (c ∷ cs),
      (has_reserved_iff (c ∷ cs)).1 r,
    )
accepted c cs (inr slash) =
    rw slash (unfold base same has_reserved strip_slashes until_slash in refl)

is_segment_iff : (cs : List ℕ) → (is_segment cs ≡ true) ↔ Accepted cs
is_segment_iff [] =
    (λ h. unfold is_segment in cc, λ h. elim h [ inl (n, _, _, _) ↦ absurd (n refl) | inr e ↦ cc ])
is_segment_iff (c ∷ cs) = (accepts c cs, accepted c cs)

-- `segment` accepts exactly the texts that are not empty, `.` or `..` and hold no slash, backslash
-- or NUL, and besides them the single text `/`, which `filepath.Base` leaves as it is.
pub segment_iff : (value : String) → (segment value ≡ true) ↔ Accepted (codes value)
unfolding segment
segment_iff value = is_segment_iff (codes value)
