-- ===== src/Tests/StoreRuns.antt =====
-- store/: the properties of the store at concrete inputs.
use gangline.Prelude.{
  String, ◌≡◌, ◌↔◌, inl, inr, refl, true, false, List, [], ◌∷◌, arith, Bool, eq_iff, ◌==◌,
  Bool-cases,
}
use gangline.Core.Types.{Agent}
use gangline.Store.World.{Post}
use gangline.Store.Segment.{segment, segment_iff, Accepted, codes}
use gangline.Store.Save.{save}
use gangline.Store.Save.Bindings.{Audited, StateInLog, SavedBound, save-SavedBound}
use gangline.Store.Save.Atomic.{Saved, Untouched, save-Saved}
use gangline.Store.Names.{finish_rename}
use gangline.Store.Names.Rename.{Done, Stopped, finish_rename-Done}
use gangline.Tests.Samples.{agent, team}

segment_iff_example : (segment "ada" ≡ true) ↔ Accepted (codes "ada")
segment_iff_example = segment_iff "ada"

slash_accepted : segment "/" ≡ true
unfolding segment
slash_accepted = refl

saved_empty : (path : String) → StateInLog [] ((team (false ∷ [])).states path)
saved_empty path = elim (Bool-cases (path == "h1")) [
  | inl same ↦ rw same (inl refl)
  | inr other ↦ rw other tt
]

team-Audited : Audited (team (false ∷ []))
team-Audited = record { memory = tt; saved = saved_empty }

save-SavedBound_example :
    Post
      (λ _ v. Audited v × SavedBound "h1" agent v)
      Audited
      (save "h1" agent 9 (team (false ∷ [])))
save-SavedBound_example = save-SavedBound "h1" agent 9 (team (false ∷ [])) team-Audited

save-Saved_example :
    Post (λ _ v. Saved "h1" agent (team []) v) (Untouched (team [])) (save "h1" agent 9 (team []))
save-Saved_example = save-Saved "h1" agent 9 (team [])

abbrev renaming : Agent
renaming = record agent { rename_from = "ada"; rename_to = "eve" }

abbrev stopped : List Bool
stopped = false ∷ false ∷ true ∷ []

finish_rename-Done_example :
    Post
      (λ b v. Done renaming 9 (team stopped) b v)
      (Stopped renaming 9 (team stopped))
      (finish_rename renaming 9 (team stopped))
finish_rename-Done_example =
    finish_rename-Done renaming 9 (team stopped) (λ h. ground (arith, eq_iff "ada" ""))
      (λ h. ground (arith, eq_iff "ada" "eve")) (λ h. ground (arith, eq_iff "eve" ""))
      (record { agent = agent; saved = refl; spelled = refl; linked = refl })
