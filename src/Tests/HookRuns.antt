-- ===== src/Tests/HookRuns.antt =====
-- store/hooks.go: the properties of the status observations at concrete inputs.
use gangline.Prelude.{ℕ, ◌+◌, String, ◌≡◌, inl, inr, refl, List, [], ◌∷◌, arith, ◌++◌}
use gangline.Store.Hooks.{
  StatusHook, written, write_status_hook, prune_status_hooks, remaining, numbered,
}
use gangline.Store.Hooks.Retained.{
  Holds, Rises, Replaced, write_status_hook-Holds, write_status_hook-Rises,
}
use gangline.Store.Hooks.Pruned.{records_after, prune_status_hooks-Holds}

abbrev hook : ℕ → String → StatusHook
hook n kind = record {
  sequence = n;
  kind = kind;
  native_event = "Stop";
  at = 100 + n;
  session_id = "s1";
  turn_id = "t1";
  transcript = "";
  failure = "";
}

abbrev records : List StatusHook
records = hook 3 "turn-finished" ∷ hook 5 "activity" ∷ hook 6 "activity" ∷ []

written_activity :
    write_status_hook records 2 (hook 9 "activity")
    ≡ written (hook 3 "turn-finished" ∷ record (hook 9 "activity") { sequence = 7 } ∷ [])
unfolding write_status_hook
written_activity = refl

write_status_hook-Holds_example :
    Replaced (Holds (hook 3 "turn-finished")) (write_status_hook records 2 (hook 9 "turn-finished"))
write_status_hook-Holds_example =
    write_status_hook-Holds records 2 (hook 9 "turn-finished") (hook 3 "turn-finished") (inl refl)
      (inr (refl, omega arith))

write_status_hook-Rises_example :
    Replaced
      (λ rs.
        Rises rs
        × (rs
            ≡ remaining records (hook 9 "activity") 2 ++ numbered records (hook 9 "activity") ∷ []))
      (write_status_hook records 2 (hook 9 "activity"))
write_status_hook-Rises_example =
    write_status_hook-Rises records 2 (hook 9 "activity")
      ((omega arith, (omega arith, tt)), ((omega arith, tt), (tt, tt)))

prune_status_hooks-Holds_example :
    Holds (hook 6 "activity") (records_after records (prune_status_hooks records 5))
prune_status_hooks-Holds_example =
    prune_status_hooks-Holds records 5 (hook 6 "activity")
      ((omega arith, (omega arith, tt)), ((omega arith, tt), (tt, tt))) (inr (inr (inl refl)))
      (inl (omega arith))
