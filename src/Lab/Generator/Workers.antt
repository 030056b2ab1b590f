-- ===== src/Lab/Generator/Workers.antt =====
-- `workers` of tools/chaos_lab/generator.py: workers with some of the labels that the tasks ask for,
-- and one more for each task that none of them fits.
use helix_grid.Prelude.{
  ℕ, zero, suc, String, ◌&◌, text_le, mem_text, Bool, List, [], ◌∷◌, ◌++◌, Option, none, some,
  if◌then◌else◌, length, any,
}
use helix_grid.Prelude.Int.{pos}
use helix_grid.Prelude.Dict.{Dict, lookup, insert}
use helix_grid.Prelude.Sorting.{sort}
use helix_grid.Prelude.Exec.{pure, ◌>>=◌}
use helix_grid.Chaos.Types.{Task}
use helix_grid.Chaos.Tasks.{labels_match}
use helix_grid.Lab.Types.{GeneratedWorkflow, WorkerSpec}
use helix_grid.Lab.Generator.Draws.{Random, GeneratorConfig, Draw, chance, between, choice}
use helix_grid.Lab.Generator.Tasks.{two_digits}

-- `required.setdefault(key, set()).add(value)`, a set being a list with no text twice
abbrev add_value : String → Option (List String) → List String
add_value value none = value ∷ []
add_value value (some vs) = if mem_text value vs then vs else value ∷ vs

unfoldable pub require_labels : Dict String → Dict (List String) → Dict (List String)
require_labels [] required = required
require_labels ((key, value) ∷ labels) required =
    require_labels labels (insert key (add_value value (lookup key required)) required)

unfoldable pub required_labels : List Task → Dict (List String) → Dict (List String)
required_labels [] required = required
required_labels (t ∷ ts) required = required_labels ts (require_labels t.labels required)

abbrev key_le : String × List String → String × List String → Bool
key_le (j, vs) (k, ws) = text_le j k

abbrev pub worker_spec : String → ℕ → Dict String → WorkerSpec
worker_spec id capacity labels = record { worker_id = id; capacity = pos capacity; labels = labels }

-- Some worker has all labels of the task.
abbrev pub is_placeable : List WorkerSpec → Task → Bool
is_placeable specs t = any (λ w. labels_match w.labels t.labels) specs

-- The loop that adds the missing workers
unfoldable pub place_tasks : List WorkerSpec → List Task → List WorkerSpec
place_tasks specs [] = specs
place_tasks specs (t ∷ ts) =
    place_tasks
      (if is_placeable specs t
        then specs
        else specs ++ worker_spec ("worker-placement-" & two_digits (length specs)) 1 t.labels ∷ [])
      ts

module _ (r : Random) (config : GeneratorConfig) where
  open config use {max_workers, max_capacity}

  -- `labels[key] = rng.choice(sorted(values))`, with `rng.random() < 0.72`
  unfoldable pub choose_label : String → List String → Draw r (Dict String)
  choose_label key [] = pure []
  choose_label key (value ∷ values) = do
    given ← chance r 6_485_183_463_413_514
    if given then (do chosen ← choice r value values; pure ((key, chosen) ∷ [])) else pure []

  unfoldable pub choose_labels : Dict (List String) → Draw r (Dict String)
  choose_labels [] = pure []
  choose_labels ((key, values) ∷ required) = do
    labels ← choose_label key (sort text_le values)
    rest ← choose_labels required
    pure (labels ++ rest)

  unfoldable pub random_workers : Dict (List String) → ℕ → ℕ → Draw r (List WorkerSpec)
  random_workers required index zero = pure []
  random_workers required index (suc count) = do
    labels ← choose_labels required
    capacity ← between r 1 max_capacity
    rest ← random_workers required (suc index) count
    pure (worker_spec ("worker-" & two_digits index) capacity labels ∷ rest)

  unfoldable pub workers : GeneratedWorkflow → Draw r (List WorkerSpec)
  workers w = do
    count ← between r 1 max_workers
    specs ← random_workers (sort key_le (required_labels w.tasks [])) 0 count
    pure (place_tasks specs w.tasks)
