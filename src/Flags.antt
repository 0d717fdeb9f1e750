-- ===== src/Flags.antt =====
-- cmd/gang/flags.go: how the arguments of a command are read.
-- Strings are read by code points where the source reads bytes: an argument is UTF-8 and an option's
-- name is ASCII. A `flag.FlagSet` is the parameter `lookup` of its Lookup: it gives an option by its
-- name, and flag.Var refuses a name that begins with "-" or holds "=".
pub mod Rescan
use Prim.Native.Char.{code}
use text.Mathlib.Text.{starts_with}
use gangline.Prelude.{
  ℕ, String, Bool, true, false, not, ◌&&◌, ◌||◌, Option, none, some, List, [], ◌∷◌, ◌++◌, leb, eqb,
  ◌==◌, is_some, is_empty, if◌then◌else◌,
}

-- flag.Flag, of which isBoolFlag is asked
pub record Flag : Type 0 where
  pub name : String
  pub boolean : Bool

pub record OptionWord : Type 0 where
  pub tokens : List String
  pub option : String
  pub terminator : Bool

abbrev pub is_char : ℕ → ℕ → Bool
is_char c d = eqb c d

-- strings.HasPrefix(s, "-") and HasPrefix(s, "--")
unfoldable pub one_dash : String → Bool
one_dash String.[] = false
one_dash (String.◌∷◌ c s) = eqb (code c) b'-'

unfoldable pub two_dashes : String → Bool
unfolding one_dash
two_dashes String.[] = false
two_dashes (String.◌∷◌ c s) = eqb (code c) b'-' && one_dash s

-- strings.TrimLeft(s, "-")
unfoldable pub trim_dashes : String → String
trim_dashes String.[] = ""
trim_dashes (String.◌∷◌ c s) =
    let rest = trim_dashes s in if eqb (code c) b'-' then rest else String.◌∷◌ c s

-- strings.Cut(s, "=")
unfoldable pub before_equals : String → String
before_equals String.[] = ""
before_equals (String.◌∷◌ c s) =
    let rest = before_equals s in if eqb (code c) b'=' then "" else String.◌∷◌ c rest

unfoldable pub has_equals : String → Bool
has_equals String.[] = false
has_equals (String.◌∷◌ c s) = eqb (code c) b'=' || has_equals s

unfoldable pub after_equals : String → String
after_equals String.[] = ""
after_equals (String.◌∷◌ c s) = let rest = after_equals s in if eqb (code c) b'=' then s else rest

-- flagNamePattern, ^[a-z][a-z-]*$
abbrev is_lower : ℕ → Bool
is_lower c = leb b'a' c && leb c b'z'

lower_or_dash : String → Bool
lower_or_dash String.[] = true
lower_or_dash (String.◌∷◌ c s) = (is_lower (code c) || eqb (code c) b'-') && lower_or_dash s

unfoldable pub is_flag_name : String → Bool
unfolding lower_or_dash
is_flag_name String.[] = false
is_flag_name (String.◌∷◌ c s) = is_lower (code c) && lower_or_dash s

abbrev pub is_single : String → Bool
is_single String.[] = false
is_single (String.◌∷◌ c String.[]) = true
is_single (String.◌∷◌ c (String.◌∷◌ d s)) = false

abbrev pub one_char : String → String
one_char String.[] = ""
one_char (String.◌∷◌ c s) = String.◌∷◌ c String.[]

-- argument[1:], argument[1:2] and argument[2:] of one that begins with a dash
abbrev pub tail : String → String
tail String.[] = ""
tail (String.◌∷◌ c s) = s

abbrev pub operand : String → OptionWord
operand a = record { tokens = a ∷ []; option = ""; terminator = false }

abbrev pub terminator_word : String → OptionWord
terminator_word a = record { tokens = a ∷ []; option = ""; terminator = true }

-- what one argument is, before `--`
pub data Class : Type 0 where
  ends plain : Class
  whole : OptionWord → Class  -- an option that is complete
  needs : OptionWord → Class  -- an option whose value is the next argument, if there is one

-- where the loop of `scanOptions` stands; a word that waits takes the next argument as its value
pub data Scan : Type 0 where
  ready ended : Scan
  waiting : OptionWord → Scan

abbrev pub with_value : OptionWord → String → OptionWord
with_value w value = record w { tokens = w.tokens ++ value ∷ [] }

module _ (lookup : String → Option Flag) where
  abbrev pub takes_value : Option Flag → Bool
  takes_value none = false
  takes_value (some f) = not f.boolean

  abbrev pub option_name : String → String
  option_name a = before_equals (trim_dashes a)

  abbrev pub assigned : String → Bool
  assigned a = has_equals (trim_dashes a)

  -- an argument that may be a one-letter option with its value attached
  unfoldable pub may_attach : String → Bool
  may_attach a =
      not (is_some (lookup (option_name a)))
      && not (two_dashes a)
      && not (is_empty (tail (tail a)))
      && (not (assigned a) || is_single (option_name a) || not (is_flag_name (option_name a)))

  unfoldable pub attached_word : Option Flag → String → Option OptionWord
  attached_word none a = none
  attached_word (some f) a =
      if f.boolean
      then none
      else some (record {
        tokens = String.◌∷◌ "-" (one_char (tail a)) ∷ tail (tail a) ∷ [];
        option = f.name;
        terminator = false;
      })

  abbrev option_word : String → OptionWord
  option_word a = record { tokens = a ∷ []; option = option_name a; terminator = false }

  unfoldable pub classify_long : String → Class
  classify_long a =
      if takes_value (lookup (option_name a)) && not (assigned a)
      then needs (option_word a)
      else whole (option_word a)

  unfoldable pub classify_option : Option OptionWord → String → Class
  classify_option none a = classify_long a
  classify_option (some w) a = whole w

  unfoldable pub classify : String → Class
  classify a =
      if a == "--"
      then ends
      else if not (one_dash a) || a == "-"
      then plain
      else if may_attach a
      then classify_option (attached_word (lookup (one_char (tail a))) a) a
      else classify_long a

  -- scanOptions
  unfoldable pub scan_from : Scan → List String → List OptionWord
  scan_from ready [] = []
  scan_from ended [] = []
  scan_from (waiting w) [] = w ∷ []
  scan_from ended (a ∷ arguments) = operand a ∷ scan_from ended arguments
  scan_from (waiting w) (a ∷ arguments) = with_value w a ∷ scan_from ready arguments
  scan_from ready (a ∷ arguments) = elim (classify a) [
    | ends ↦ terminator_word a ∷ scan_from ended arguments
    | plain ↦ operand a ∷ scan_from ready arguments
    | whole w ↦ w ∷ scan_from ready arguments
    | needs w ↦ scan_from (waiting w) arguments
  ]

  unfoldable pub scan_options : List String → List OptionWord
  scan_options arguments = scan_from ready arguments

-- the tokens of the words, in their order
unfoldable pub tokens_of : List OptionWord → List String
tokens_of [] = []
tokens_of (w ∷ words) = w.tokens ++ tokens_of words

-- the test of `takeTeam`: the selector, but not a malformed one
unfoldable pub is_team : OptionWord → Bool
is_team w = w.option == "team" && not (starts_with (first w.tokens) "---")
  where
    first : List String → String
    first [] = ""
    first (t ∷ tokens) = t

unfoldable pub other_words : (OptionWord → Bool) → List OptionWord → List OptionWord
other_words drop [] = []
other_words drop (w ∷ words) =
    let rest = other_words drop words in if drop w then rest else w ∷ rest

pub record Team : Type 0 where
  pub team : String
  pub rest : List String

-- the value that a selector gives, if it gives one
unfoldable pub team_value : OptionWord → Option String
team_value w = elim w.tokens [
  | [] ↦ none
  | t ∷ more ↦
      if has_equals t
      then some (after_equals t)
      else elim more [ [] ↦ none | v ∷ others ↦ elim others [ [] ↦ some v | x ∷ xs ↦ none ] ]
]

-- the loop of `takeTeam`: the last selector, where `none` is one without a value
unfoldable pub last_team : Option String → List OptionWord → Option (Option String)
last_team team [] = some team
last_team team (w ∷ words) =
    let skip = last_team team words in
    let missing = none in
    if not (is_team w)
    then skip
    else elim (team_value w) [ none ↦ missing | some v ↦ last_team (some v) words ]

-- unicode.IsSpace
is_space : ℕ → Bool
is_space c =
    eqb c 32
    || leb 9 c && leb c 13
    || eqb c 133
    || eqb c 160
    || eqb c 5_760
    || leb 8_192 c && leb c 8_202
    || eqb c 8_232
    || eqb c 8_233
    || eqb c 8_239
    || eqb c 8_287
    || eqb c 12_288

-- strings.TrimSpace(s) == ""
is_blank : String → Bool
is_blank String.[] = true
is_blank (String.◌∷◌ c s) = is_space (code c) && is_blank s

unfoldable pub team_of : Option (Option String) → List String → Option Team
unfolding is_space is_blank
team_of none rest = none
team_of (some none) rest = some (record { team = ""; rest = rest })
team_of (some (some team)) rest =
    if is_blank team then none else some (record { team = team; rest = rest })

-- takeTeam of a team command, where `none` is a usage error
unfoldable pub take_team : (String → Option Flag) → List String → Option Team
take_team lookup arguments =
    let words = scan_options lookup arguments in
    team_of (last_team none words) (tokens_of (other_words is_team words))
