-- ===== src/Flags/Rescan.antt =====
-- cmd/gang/flags.go: what `takeTeam` leaves is read again as the words that it kept.
use mathlib.Core.Path.{subst}
use Prim.Native.Char.{Char, code}
use gangline.Prelude.{
  some_injective, by_test, String, ◌≡◌, inl, inr, refl, ap, ◌∙◌, Bool, true, false, not, ◌&&◌, ◌||◌,
  Option, none, some, List, [], ◌∷◌, ◌++◌, eqb, ◌==◌, is_empty, if◌then◌else◌, arith, eq_iff,
  Bool-cases, Option-cases,
}
use gangline.Flags.{
  Flag, OptionWord, one_dash, two_dashes, trim_dashes, before_equals, has_equals, operand,
  terminator_word, Class, ends, plain, whole, needs, takes_value, option_name, assigned, may_attach,
  attached_word, classify_long, classify_option, classify, Scan, ready, ended, waiting, with_value,
  scan_from, scan_options, tokens_of, other_words, one_char, tail, option_word, is_single,
}

-- What a `flag.FlagSet` promises of its Lookup.
pub record IsFlagSet (lookup : String → Option Flag) : Type 0 where
  pub named : (name : String) (f : Flag) → lookup name ≡ some f → f.name ≡ name
  pub no_equals : (name : String) (f : Flag) → lookup name ≡ some f → has_equals name ≡ false

-- The arguments that are no options stay.
pub record KeepsArguments (drop : OptionWord → Bool) : Type 0 where
  pub operand_kept : (a : String) → drop (operand a) ≡ false
  pub terminator_kept : (a : String) → drop (terminator_word a) ≡ false

not_same : (s t : String) → (s ≡ t → ⊥) → (s == t) ≡ false
not_same s t h = elim (Bool-cases (s == t)) [
  | inl same ↦ elim (h ((eq_iff s t).0 same)) [ ]
  | inr other ↦ other
]

not_attached : (w : OptionWord) → none ≡ some w → ⊥
not_attached w e = cc

module _ (lookup : String → Option Flag) (flags : IsFlagSet lookup) where
  -- The word is read again where its tokens stand.
  abbrev Rescans : OptionWord → Type 0
  Rescans w =
      (rest : List String)
      → scan_from lookup ready (w.tokens ++ rest) ≡ w ∷ scan_from lookup ready rest

  short_lem :
      (d : Char) (f : Flag)
      → lookup (String.◌∷◌ d String.[]) ≡ some f
      → f.boolean ≡ false
      → eqb (code d) b'-' ≡ false
      → classify lookup (String.◌∷◌ "-" (String.◌∷◌ d String.[]))
        ≡ needs (record {
          tokens = String.◌∷◌ "-" (String.◌∷◌ d String.[]) ∷ [];
          option = f.name;
          terminator = false;
        })
  unfolding classify one_dash two_dashes trim_dashes before_equals has_equals may_attach
      classify_long
  short_lem d f found value dash =
      let s = String.◌∷◌ d String.[] in
      let a = String.◌∷◌ "-" s in
      let sign : eqb (code d) b'=' ≡ false = ground (arith, flags.no_equals s f found) in
      let named : f.name ≡ s = flags.named s f found in
      let n1 : (a == "--") ≡ false = not_same a "--" (λ e. ground (arith, dash, ap two_dashes e)) in
      let n2 : (a == "-") ≡ false = not_same a "-" (λ e. ground (arith, ap is_single e)) in
      rw (n1, n2, dash, sign, found, value, named) refl

  scan-needs :
      (a : String) (w : OptionWord) (rest : List String)
      → classify lookup a ≡ needs w
      → scan_from lookup ready (a ∷ rest) ≡ scan_from lookup (waiting w) rest
  unfolding scan_from
  scan-needs a w rest e = rw (e, scan_from) refl

  scan-whole :
      (a : String) (w : OptionWord) (rest : List String)
      → classify lookup a ≡ whole w
      → scan_from lookup ready (a ∷ rest) ≡ w ∷ scan_from lookup ready rest
  unfolding scan_from
  scan-whole a w rest e = rw (e, scan_from) refl

  scan-plain :
      (a : String) (rest : List String)
      → classify lookup a ≡ plain
      → scan_from lookup ready (a ∷ rest) ≡ operand a ∷ scan_from lookup ready rest
  unfolding scan_from
  scan-plain a rest e = rw (e, scan_from) refl

  scan-ends :
      (a : String) (rest : List String)
      → classify lookup a ≡ ends
      → scan_from lookup ready (a ∷ rest) ≡ terminator_word a ∷ scan_from lookup ended rest
  unfolding scan_from
  scan-ends a rest e = rw (e, scan_from) refl

  -- An option with its value attached is read as one whose value follows.
  attached-Rescans :
      (c : Char) (s : String) (w : OptionWord)
      → eqb (code c) b'-' ≡ true
      → one_dash s ≡ false
      → is_empty (tail s) ≡ false
      → attached_word lookup (lookup (one_char s)) (String.◌∷◌ c s) ≡ some w
      → Rescans w
  unfolding one_dash attached_word scan_from
  attached-Rescans c String.[] w dash single long e rest = ground arith
  attached-Rescans c (String.◌∷◌ d s) w dash single long e rest =
      elim (Option-cases (lookup (String.◌∷◌ d String.[]))) [
        | inl missing ↦ absurd (not_attached w (rw missing at e))
        | inr (f, found) ↦ elim (Bool-cases f.boolean) [
          | inl boolean ↦ absurd (not_attached w (rw (found, boolean) at e))
          | inr valued ↦
              subst
                (λ x. scan_from lookup ready (x.tokens ++ rest) ≡ x ∷ scan_from lookup ready rest)
                (some_injective _ w (rw (found, valued) at e))
                (scan-needs _ _ (s ∷ rest) (short_lem d f found valued single))
        ]
      ]

  -- What the class of an argument says of its word.
  data IsRead (a : String) : Class → Type 0 where
    ends_read : IsRead a ends
    plain_read : IsRead a plain
    alone : {w : OptionWord} → w.tokens ≡ a ∷ [] → IsRead a (whole w)
    known : {w : OptionWord} → Rescans w → IsRead a (whole w)
    first : {w : OptionWord} → w.tokens ≡ a ∷ [] → IsRead a (needs w)

  classify_long-IsRead : (a : String) → IsRead a (classify_long lookup a)
  unfolding classify_long
  classify_long-IsRead a =
      by_test (IsRead a)
        (takes_value lookup (lookup (option_name lookup a)) && not (assigned lookup a))
        (needs (option_word lookup a)) (whole (option_word lookup a))
        (λ _. first {w = option_word lookup a} refl) (λ _. alone {w = option_word lookup a} refl)

  classify_option-IsRead :
      (a : String) (o : Option OptionWord)
      → ((w : OptionWord) → o ≡ some w → Rescans w)
      → IsRead a (classify_option lookup o a)
  unfolding classify_option
  classify_option-IsRead a none h = classify_long-IsRead a
  classify_option-IsRead a (some w) h = known (h w refl)

  may_attach-IsRead :
      (a : String)
      → one_dash a ≡ true
      → may_attach lookup a ≡ true
      → IsRead a (classify_option lookup (attached_word lookup (lookup (one_char (tail a))) a) a)
  unfolding may_attach one_dash two_dashes
  may_attach-IsRead String.[] dash may = ground arith
  may_attach-IsRead (String.◌∷◌ c s) dash may =
      classify_option-IsRead _ _ λ w e. attached-Rescans c s w dash (ground arith) (ground arith) e

  classify-IsRead : (a : String) → IsRead a (classify lookup a)
  unfolding classify
  classify-IsRead a =
      let attached =
        classify_option lookup (attached_word lookup (lookup (one_char (tail a))) a) a in
      let long = classify_long lookup a in
      let dashed = if may_attach lookup a then attached else long in
      by_test (IsRead a) (a == "--") ends (if not (one_dash a) || a == "-" then plain else dashed)
        (λ _. ends_read)
        (λ _.
          by_test (IsRead a) (not (one_dash a) || a == "-") plain dashed (λ _. plain_read)
            (λ dash.
              by_test (IsRead a) (may_attach lookup a) attached long
                (λ may. may_attach-IsRead a (ground arith) may) (λ _. classify_long-IsRead a)))

  module _ (drop : OptionWord → Bool) (keeps : KeepsArguments drop) where
    -- The tokens of what is kept of the words are read as what is kept.
    abbrev Again : Scan → List OptionWord → Type 0
    Again state words =
        scan_from lookup state (tokens_of (other_words drop words)) ≡ other_words drop words

    Again-cons :
        (w : OptionWord) (words : List OptionWord)
        → Rescans w
        → Again ready words
        → Again ready (w ∷ words)
    unfolding other_words tokens_of
    Again-cons w words again rest = elim (Bool-cases (drop w)) [
      | inl dropped ↦ rw dropped rest
      | inr kept ↦ rw kept (again (tokens_of (other_words drop words)) ∙ ap (λ x. w ∷ x) rest)
    ]

    ended-Again : (arguments : List String) → Again ended (scan_from lookup ended arguments)
    unfolding scan_from other_words tokens_of
    ended-Again [] = refl
    ended-Again (a ∷ arguments) = rw (keeps.operand_kept a, ended-Again arguments) refl

    ended_cons :
        (a : String) (words : List OptionWord)
        → classify lookup a ≡ ends
        → Again ended words
        → Again ready (terminator_word a ∷ words)
    unfolding other_words tokens_of
    ended_cons a words e again =
        rw (keeps.terminator_kept a) (
          scan-ends a (tokens_of (other_words drop words)) e
          ∙ ap (λ x. terminator_word a ∷ x) again)

    -- The word that waits for its value was read from the argument.
    record Waits (w : OptionWord) (a : String) : Type 0 where
      one_token : w.tokens ≡ a ∷ []
      needed : classify lookup a ≡ needs w

    alone-Rescans :
        (a : String) (w : OptionWord) → w.tokens ≡ a ∷ [] → classify lookup a ≡ whole w → Rescans w
    alone-Rescans a w token e rest =
        ap (λ t. scan_from lookup ready (t ++ rest)) token ∙ scan-whole a w rest e

    with_value-Rescans :
        (w : OptionWord) (a value : String) → Waits w a → Rescans (with_value w value)
    unfolding scan_from
    with_value-Rescans w a value waits rest =
        ap (λ t. scan_from lookup ready ((t ++ value ∷ []) ++ rest)) waits.one_token
        ∙ scan-needs a w (value ∷ rest) waits.needed

    record BothAgain (arguments : List String) : Type 0 where
      ready_again : Again ready (scan_from lookup ready arguments)
      waiting_again :
          (w : OptionWord) (a : String)
          → Waits w a
          → Again ready (scan_from lookup (waiting w) arguments)

    last-Again : (w : OptionWord) (a : String) → Waits w a → Again ready (w ∷ [])
    unfolding other_words tokens_of scan_from
    last-Again w a waits = elim (Bool-cases (drop w)) [
      | inl dropped ↦ rw dropped refl
      | inr kept ↦ rw kept (
          ap (λ t. scan_from lookup ready (t ++ [])) waits.one_token
          ∙ scan-needs a w [] waits.needed)
    ]

    class-Again :
        (a : String) (arguments : List String) (k : Class)
        → IsRead a k
        → classify lookup a ≡ k
        → BothAgain arguments
        → Again ready (scan_from lookup ready (a ∷ arguments))
    class-Again a arguments ends ends_read e both =
        rw (scan-ends a arguments e) (ended_cons a _ e (ended-Again arguments))
    class-Again a arguments plain plain_read e both =
        rw (scan-plain a arguments e)
          (Again-cons (operand a) _ (λ rest. scan-plain a rest e) both.ready_again)
    class-Again a arguments (whole w) (alone token) e both =
        rw (scan-whole a w arguments e)
          (Again-cons w _ (alone-Rescans a w token e) both.ready_again)
    class-Again a arguments (whole w) (known again) e both =
        rw (scan-whole a w arguments e) (Again-cons w _ again both.ready_again)
    class-Again a arguments (needs w) (first token) e both =
        rw (scan-needs a w arguments e)
          (both.waiting_again w a (record { one_token = token; needed = e }))

    both_again : (arguments : List String) → BothAgain arguments
    unfolding scan_from other_words tokens_of
    both_again [] = record { ready_again = refl; waiting_again = last-Again }
    both_again (a ∷ arguments) = record {
      ready_again = class-Again a arguments _ (classify-IsRead a) refl (both_again arguments);
      waiting_again = λ w b waits.
          Again-cons (with_value w a) _ (with_value-Rescans w b a waits)
            (both_again arguments).ready_again;
    }

    -- What a scan of the options keeps of an argument list, without the options that a test drops, is read
    -- again as the same words, when the test drops no operand and no terminator.
    pub scan_options-tokens_of :
        (arguments : List String)
        → scan_options lookup (tokens_of (other_words drop (scan_options lookup arguments)))
          ≡ other_words drop (scan_options lookup arguments)
    unfolding scan_options
    scan_options-tokens_of arguments = (both_again arguments).ready_again
