-- ===== src/Lab/Examples.antt =====
-- The theorems about the runner and the shrinker of tools/chaos_lab at concrete scenarios.
use helix_grid.Prelude.{
  ℕ, ◌≡◌, ◌≢◌, ◌↔◌, ◌⊎◌, refl, List, [], ◌∷◌, ◌++◌, none, some, Bool, true, false, ◌&&◌, any, ◌==◌,
  length, is_some, arith,
}
use helix_grid.Prelude.Int.{pos}
use helix_grid.Prelude.Exec.{ok, err}
use helix_grid.Chaos.State.{Model}
use helix_grid.Chaos.Snapshot.{snapshot}
use helix_grid.Chaos.Session
use helix_grid.Lab.Runner.{
  ReplayFailure, ReplayReport, report_ok, bootstrap, replay, replay_with, new_model, failed_setup,
}
use helix_grid.Prelude.Json.{object, end}
use helix_grid.Lab.Runner.First.{Passes, StopsAt, replay-ok, replay-StopsAt}
use helix_grid.Lab.Runner.Refines.{set_up_calls, acted, replay-Refines}
use helix_grid.Lab.Shrinker.Ddmin.{ddmin}
use helix_grid.Lab.Shrinker.Ddmin.Minimal.{Minimized, ddmin-Minimized}
use helix_grid.Lab.Shrinker.Search.{ShrinkResult, any_failure, not_failing, shrink}
use helix_grid.Lab.Shrinker.Finds.{Found, shrink-Found}
use helix_grid.Lab.Shrinker.Reduces.{Reduces, shrink-Reduces}
use helix_grid.Lab.Samples.{lab, host, expiry, quiet, or_else, returned, some-or_else, ok-or_else}

abbrev needs_three_and_seven : List ℕ → Bool
needs_three_and_seven xs = any (λ x. x == 3) xs && any (λ x. x == 7) xs

abbrev one_to_eight : List ℕ
one_to_eight = 1 ∷ 2 ∷ 3 ∷ 4 ∷ 5 ∷ 6 ∷ 7 ∷ 8 ∷ []

ddmin-finds : (ddmin needs_three_and_seven one_to_eight).1 ≡ 3 ∷ 7 ∷ []
unfolding lab
ddmin-finds = refl

ddmin-Minimized_example :
    Minimized needs_three_and_seven one_to_eight (ddmin needs_three_and_seven one_to_eight).1
ddmin-Minimized_example = ddmin-Minimized needs_three_and_seven one_to_eight

replay-ok_example : (report_ok (replay host false quiet) ≡ true) ↔ (
    (m : Model) × (n : Model) × (bootstrap host quiet ≡ ok m) × Passes host false m quiet.actions n)
replay-ok_example = replay-ok host false quiet

-- The model that the scenario `expiry` starts from
abbrev expiry_model : Model
expiry_model = or_else new_model (returned (bootstrap host expiry))

expiry_starts : is_some (returned (bootstrap host expiry)) ≡ true
unfolding lab
expiry_starts = refl

expiry_ready : bootstrap host expiry ≡ ok expiry_model
expiry_ready = ok-or_else new_model (bootstrap host expiry) expiry_starts

abbrev expiry_failure : ReplayFailure
expiry_failure = or_else (failed_setup "" "" "" (object end)) (replay host false expiry).failure

expiry_stops : is_some (replay host false expiry).failure ≡ true
unfolding lab
expiry_stops = refl

expiry_fails : (replay host false expiry).failure ≡ some expiry_failure
expiry_fails = some-or_else (failed_setup "" "" "" (object end)) _ expiry_stops

expiry_found : (expiry_failure.index ≡ pos 4) × (expiry_failure.invariant_code ≡ "ATTEMPT_BUDGET")
unfolding lab
expiry_found = (refl, refl)

replay-StopsAt_example :
    StopsAt host false 0 expiry.actions expiry_model expiry_failure
      (length (replay host false expiry).records)
replay-StopsAt_example =
    replay-StopsAt host false expiry expiry_model expiry_failure expiry_ready expiry_fails

replay-Refines_example :
    let report = replay_with host false true expiry none in
    report.final_snapshot
    ≡ snapshot (Session.replay host.blake2s (set_up_calls expiry ++ acted report.records) new_model)
replay-Refines_example = replay-Refines host false true expiry none expiry_model expiry_ready

any_failure_gives : (r : ReplayReport) → any_failure r ≢ none
any_failure_gives r = λ e. absurd (ground (arith, e))

shrink-Found_example :
    (any_failure (replay host false expiry) ≡ some true)
      × Found host false any_failure expiry (shrink host false any_failure (pos 30) expiry)
    ⊎ (any_failure (replay host false expiry) ≡ some false)
      × (shrink host false any_failure (pos 30) expiry ≡ err not_failing)
shrink-Found_example = shrink-Found host false any_failure any_failure_gives (pos 30) expiry

abbrev no_result : ShrinkResult
no_result = record {
  original = quiet;
  minimized = quiet;
  report = replay host false quiet;
  passes = [];
}

abbrev expiry_result : ShrinkResult
expiry_result = or_else no_result (returned (shrink host false any_failure (pos 30) expiry))

expiry_returned : is_some (returned (shrink host false any_failure (pos 30) expiry)) ≡ true
unfolding lab
expiry_returned = refl

expiry_shrunk : shrink host false any_failure (pos 30) expiry ≡ ok expiry_result
expiry_shrunk = ok-or_else no_result _ expiry_returned

shrink-Reduces_example : Reduces expiry expiry_result.minimized
shrink-Reduces_example =
    shrink-Reduces host false any_failure (pos 30) expiry expiry_result expiry_shrunk
