-- ===== src/Lab/Generator/Samples.antt =====
-- A source of numbers for tools/chaos_lab/generator.py, with the bounds that are asked of one, and
-- tests that generate with it.
use helix_grid.Prelude.{
  ℕ, zero, suc, ◌+◌, ◌-◌, ◌*◌, ◌%◌, ◌≡◌, refl, String, mem_text, true, List, [], ◌∷◌, arith, map,
  is_some,
}
use helix_grid.Prelude.Int.{pos, max_ℕ}
use helix_grid.Prelude.Exec.{Result, ok, err}
use helix_grid.Chaos.Types.{ActionKind, Error}
use helix_grid.Chaos.Snapshot.{
  worker_ids, active_lease_tokens, closed_lease_tokens, workflow_ids, all_terminal,
}
use helix_grid.Chaos.Dag.Members.{IsDistinct}
use helix_grid.Lab.Types.{GeneratedScenario, GeneratedWorkflow}
use helix_grid.Lab.Samples.{lab, host, action_kinds, quiet, or_else, returned, ok-or_else}
use helix_grid.Lab.Generator.Draws.{
  Random, IsRandom, GeneratorConfig, default_config, one, config_check, chance, between, choice,
  sampled,
}
use helix_grid.Lab.Generator.Tasks.{
  task_id, task_ids_from, tied, dependency_count, labels_from, task_labels, retry_policy, timeout,
  generate_task, generate_tasks, workflow,
}
use helix_grid.Lab.Generator.Workers.{
  require_labels, required_labels, place_tasks, choose_label, choose_labels, random_workers,
  workers,
}
use helix_grid.Lab.Generator.Scenario.{
  GeneratorError, pick_from, completion_action, log_text, worker_choices, all_worker_choices,
  held_choices, all_lease_choices, stale_choices, cancel_choices, weighted, next_action, trace,
  make_scenario, generated,
}

-- The first texts of a list
unfoldable pub front : List String → ℕ → List String
front xs zero = []
front [] (suc k) = []
front (x ∷ xs) (suc k) = x ∷ front xs k

front-member :
    (xs : List String) (k : ℕ) (x : String) → mem_text x (front xs k) ≡ true → mem_text x xs ≡ true
unfolding front
front-member xs zero x h = absurd (ground (arith, h))
front-member [] (suc k) x h = h
front-member (y ∷ ys) (suc k) x h = ground (arith, h, front-member ys k x)

front-IsDistinct : (xs : List String) (k : ℕ) → IsDistinct xs → IsDistinct (front xs k)
unfolding front
front-IsDistinct xs zero h = tt
front-IsDistinct [] (suc k) h = tt
front-IsDistinct (x ∷ xs) (suc k) h =
    (ground (arith, h.0, front-member xs k x), front-IsDistinct xs k h.1)

unfoldable pub generator : Unit {0}
unfolding lab front worker_ids active_lease_tokens closed_lease_tokens workflow_ids all_terminal
    config_check chance between choice sampled task_id task_ids_from tied dependency_count
    labels_from task_labels retry_policy timeout generate_task generate_tasks workflow
    require_labels required_labels place_tasks choose_label choose_labels random_workers workers
    pick_from completion_action log_text worker_choices all_worker_choices held_choices
    all_lease_choices stale_choices cancel_choices weighted next_action trace make_scenario
    generated
generator = tt

abbrev mixed : ℕ → ℕ
mixed g = (g * 48_271) % 2_147_483_647

-- A congruential generator
abbrev pub dice : Random
dice = record {
  Rng = ℕ;
  seeded = λ seed. 1 + max_ℕ 0 seed;
  random = λ g. ((g * 4_194_304) % one, mixed g);
  randint = λ lo hi g. (lo + g % (1 + (hi - lo)), mixed g);
  index = λ n g. (g % n, mixed g);
  sample = λ xs k g. (front xs k, mixed g);
}

pub dice-IsRandom : IsRandom dice
dice-IsRandom = record {
  randint_bounds = λ lo hi g h. (omega arith, grind arith);
  index_bound = λ n g h. grind arith;
  sample_member = λ xs k g x h. front-member xs k x h;
  sample_distinct = λ xs k g h. front-IsDistinct xs k h;
}

abbrev kinds : Result GeneratorError GeneratedScenario → List ActionKind
kinds (err e) = []
kinds (ok s) = action_kinds s.actions

abbrev pub small : GeneratorConfig
small = record default_config { min_tasks = 2; max_tasks = 3; max_workers = 2 }

small-passes : config_check small ≡ ok tt
unfolding generator
small-passes = refl

small-runs :
    kinds (generated dice small host (pos 1) (pos 6))
    ≡ ActionKind.lease ∷ ActionKind.lease ∷ ActionKind.lease ∷ ActionKind.complete_success
      ∷ ActionKind.lease ∷ ActionKind.lease ∷ []
unfolding generator
small-runs = refl

abbrev tasks_of : Result Error GeneratedWorkflow → List (List String)
tasks_of (err e) = []
tasks_of (ok w) = map (λ t. t.id ∷ t.depends_on) w.tasks

small-tasks :
    tasks_of (workflow dice small (pos 1) "" 2).0
    ≡ ("task-00" ∷ []) ∷ ("task-01" ∷ "task-00" ∷ []) ∷ []
unfolding generator
small-tasks = refl

abbrev pub small_scenario : GeneratedScenario
small_scenario = or_else quiet (returned (generated dice small host (pos 1) (pos 6)))

small_returned : is_some (returned (generated dice small host (pos 1) (pos 6))) ≡ true
unfolding generator
small_returned = refl

pub small_outcome : generated dice small host (pos 1) (pos 6) ≡ ok small_scenario
small_outcome = ok-or_else quiet (generated dice small host (pos 1) (pos 6)) small_returned
