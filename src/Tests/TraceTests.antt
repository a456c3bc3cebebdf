-- ===== src/Tests/TraceTests.antt =====
-- Tests of autoschematic-server/src/tracestore.rs.
use autoschematic.Prelude.{
  ℕ, ◌≡◌, refl, true, List, [], ◌∷◌, String, nat_equality, string_equality, pair_equality,
}
use autoschematic.TraceStore.{ok, get_run, start_run, new_run, swap_remove}
use autoschematic.TraceStore.History.{
  Event, append, finish, play, messages, finishes, get_run-play-start_run,
}

abbrev events : List Event
events =
    append ("org", "repo") (4, 9) "planning"
    ∷ append ("org", "repo") (4, 8) "another run"
    ∷ finish ("org", "other") (4, 9)
    ∷ append ("org", "repo") (4, 9) "done"
    ∷ finish ("org", "repo") (4, 9)
    ∷ []

get_run-play-start_run_example :
    get_run
      ("org", "repo")
      (4, 9)
      (play events (start_run 100 1 2 9 "org" "repo" 4 "jake" "url" "plan" "plan x" []).1)
    ≡ ok (record (new_run 100 1 "jake" "url" "plan" "plan x") {
      logs = messages ("org", "repo") (4, 9) events;
      finished = finishes ("org", "repo") (4, 9) events;
    })
get_run-play-start_run_example =
    get_run-play-start_run 100 1 2 9 "org" "repo" 4 "jake" "url" "plan" "plan x" [] events

both_messages :
    (messages ("org", "repo") (4, 9) events ≡ "planning" ∷ "done" ∷ [])
    × (finishes ("org", "repo") (4, 9) events ≡ true)
unfolding messages finishes
both_messages = (refl, refl)

-- The last entry takes the place of the one that is removed.
swaps :
    swap_remove {K = ℕ} {V = String} 1 ((1, "a") ∷ (2, "b") ∷ (3, "c") ∷ [])
    ≡ (3, "c") ∷ (2, "b") ∷ []
unfolding swap_remove
swaps = refl
