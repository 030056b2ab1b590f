-- ===== src/Lab/Generator/Examples.antt =====
-- The theorems about tools/chaos_lab/generator.py at a concrete source of numbers.
use helix_grid.Prelude.{◌≡◌, refl, [], ◌∷◌, true, false, is_some, arith}
use helix_grid.Prelude.Int.{pos}
use helix_grid.Prelude.Exec.{ok}
use helix_grid.Prelude.Exec.Yields.{Yields}
use helix_grid.Chaos.State.{Model}
use helix_grid.Chaos.Samples.{task}
use helix_grid.Lab.Types.{GeneratedWorkflow}
use helix_grid.Lab.Runner.{bootstrap, new_model}
use helix_grid.Lab.Samples.{host, or_else, returned, ok-or_else}
use helix_grid.Lab.Generator.Tasks.{workflow}
use helix_grid.Lab.Generator.Workers.{workers}
use helix_grid.Lab.Generator.Sound.{IsAccepted, workflow-IsAccepted}
use helix_grid.Lab.Generator.Placement.{IsPlaced, workers-IsPlaced}
use helix_grid.Lab.Generator.Replays.{Replays, generated-Replays}
use helix_grid.Lab.Generator.Samples.{
  generator, dice, dice-IsRandom, small, small_scenario, small_outcome,
}

workflow-IsAccepted_example : Yields (IsAccepted small) (workflow dice small (pos 1) "")
workflow-IsAccepted_example =
    workflow-IsAccepted dice-IsRandom small (omega arith) (omega arith) (omega arith) (pos 1) ""

abbrev demo : GeneratedWorkflow
demo = record {
  name = "demo";
  tasks =
      record (task "a" []) { labels = ("os", "linux") ∷ ("tier", "cpu") ∷ [] }
      ∷ record (task "b" ("a" ∷ [])) { labels = ("os", "windows") ∷ [] }
      ∷ [];
  metadata = [];
}

workers-IsPlaced_example : Yields (IsPlaced small demo) (workers dice small demo)
workers-IsPlaced_example =
    workers-IsPlaced dice-IsRandom small (omega arith) (omega arith) demo
      ((refl, (refl, tt)), ((refl, tt), tt))

abbrev small_model : Model
small_model = or_else new_model (returned (bootstrap host small_scenario))

small_starts : is_some (returned (bootstrap host small_scenario)) ≡ true
unfolding generator
small_starts = refl

small_ready : bootstrap host small_scenario ≡ ok small_model
small_ready = ok-or_else new_model (bootstrap host small_scenario) small_starts

generated-Replays_example : Replays host false 6 small_scenario small_model
generated-Replays_example =
    generated-Replays dice small host false (pos 1) (pos 6) small_scenario small_model small_outcome
      small_ready
