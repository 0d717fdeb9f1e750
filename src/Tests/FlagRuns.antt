-- ===== src/Tests/FlagRuns.antt =====
-- cmd/gang/flags.go: its properties at concrete inputs.
use mathlib.Core.Path.{subst}
use gangline.Prelude.{
  String, ◌≡◌, refl, sym, true, false, Option, none, some, List, [], ◌∷◌, ◌==◌, eq_iff,
  if◌then◌else◌, some_injective, by_test,
}
use gangline.Flags.{Flag, has_equals, is_team, other_words, scan_options, tokens_of}
use gangline.Flags.Rescan.{IsFlagSet, KeepsArguments, scan_options-tokens_of}

abbrev collar_flag : Flag
collar_flag = record { name = "c"; boolean = false }

abbrev stdin_flag : Flag
stdin_flag = record { name = "stdin"; boolean = true }

abbrev team_flag : Flag
team_flag = record { name = "team"; boolean = false }

abbrev lookup : String → Option Flag
lookup name =
    if name == "c"
    then some collar_flag
    else if name == "stdin"
    then some stdin_flag
    else if name == "team"
    then some team_flag
    else none

record IsFound (name : String) (o : Option Flag) : Type 0 where
  found : (f : Flag) → o ≡ some f → (f.name ≡ name) × (has_equals name ≡ false)

IsFound-flag :
    (f : Flag) (name : String) → has_equals f.name ≡ false → f.name ≡ name → IsFound name (some f)
IsFound-flag f name plain same = record {
  found = λ g e.
      subst (λ h. (h.name ≡ name) × (has_equals name ≡ false)) (some_injective f g e)
        (same, subst (λ n. has_equals n ≡ false) same plain);
}

lookup-IsFound : (name : String) → IsFound name (lookup name)
unfolding has_equals
lookup-IsFound name =
    by_test (IsFound name) (name == "c") (some collar_flag)
      (if name == "stdin" then some stdin_flag else if name == "team" then some team_flag else none)
      (λ e. IsFound-flag collar_flag name refl (sym ((eq_iff name "c").0 e)))
      (λ _.
        by_test (IsFound name) (name == "stdin") (some stdin_flag)
          (if name == "team" then some team_flag else none)
          (λ e. IsFound-flag stdin_flag name refl (sym ((eq_iff name "stdin").0 e)))
          (λ _.
            by_test (IsFound name) (name == "team") (some team_flag) none
              (λ e. IsFound-flag team_flag name refl (sym ((eq_iff name "team").0 e)))
              (λ _. record { found = λ f e. cc })))

lookup-IsFlagSet : IsFlagSet lookup
lookup-IsFlagSet = record {
  named = λ name f e. ((lookup-IsFound name).found f e).0;
  no_equals = λ name f e. ((lookup-IsFound name).found f e).1;
}

team-KeepsArguments : KeepsArguments is_team
unfolding is_team
team-KeepsArguments = record { operand_kept = λ a. refl; terminator_kept = λ a. refl }

abbrev words : List String
words = "ada" ∷ "--team" ∷ "north" ∷ "-cclaude" ∷ "--" ∷ "--team" ∷ []

scan_options-tokens_of_example :
    scan_options lookup (tokens_of (other_words is_team (scan_options lookup words)))
    ≡ other_words is_team (scan_options lookup words)
scan_options-tokens_of_example =
    scan_options-tokens_of lookup lookup-IsFlagSet is_team team-KeepsArguments words
