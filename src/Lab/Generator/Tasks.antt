-- ===== src/Lab/Generator/Tasks.antt =====
-- `workflow` of tools/chaos_lab/generator.py: tasks whose dependencies stand before them.
use helix_grid.Prelude.{
  ℕ, zero, suc, ◌*◌, min, max, String, ◌&◌, decimal, text_eq, text_le, or_text, ltb, Bool, true,
  false, not, List, [], ◌∷◌, ◌++◌, if◌then◌else◌, length, any,
}
use helix_grid.Prelude.Int.{ℤ, pos, decimal_ℤ}
use helix_grid.Prelude.Dict.{Dict}
use helix_grid.Prelude.Sorting.{sort}
use helix_grid.Prelude.Exec.{pure, ◌>>=◌}
use helix_grid.Chaos.Types.{Task, RetryPolicy, default_retry}
use helix_grid.Chaos.Admin.{post_init}
use helix_grid.Lab.Types.{GeneratedWorkflow, new_task}
use helix_grid.Lab.Generator.Draws.{Random, GeneratorConfig, Draw, chance, between, choice, sampled}

-- `f"{n:02d}"`
abbrev pub two_digits : ℕ → String
two_digits n = if ltb n 10 then "0" & decimal n else decimal n

unfoldable pub task_id : ℕ → String
task_id n = "task-" & two_digits n

-- `[f"task-{index:02d}" for index in range(first, first + count)]`
unfoldable pub task_ids_from : ℕ → ℕ → List String
task_ids_from first zero = []
task_ids_from first (suc count) = task_id first ∷ task_ids_from (suc first) count

-- `ScenarioGenerator.LABELS`, the first and the others
abbrev pub first_label : String × String
first_label = ("os", "linux")

abbrev pub other_labels : List (String × String)
other_labels =
    ("os", "windows")
    ∷ ("arch", "x86_64")
    ∷ ("arch", "arm64")
    ∷ ("tier", "cpu")
    ∷ ("tier", "fast")
    ∷ []

abbrev pub is_nil {ℓ} : {A : Type ℓ} → List A → Bool
is_nil [] = true
is_nil (x ∷ xs) = false

abbrev pub drafted : String → List String → Dict String → RetryPolicy → ℕ → Task
drafted id depends_on labels retry timeout = new_task id depends_on labels retry (pos timeout)

abbrev pub depend_on : List String → Task → Task
depend_on ids t = record t { depends_on = ids }

-- `tasks[-1].depends_on = ids`
abbrev pub tie_last : List String → List Task → List Task
tie_last ids [] = []
tie_last ids (t ∷ []) = depend_on ids t ∷ []
tie_last ids (t ∷ u ∷ ts) = t ∷ tie_last ids (u ∷ ts)

abbrev pub has_dependencies : Task → Bool
has_dependencies t = not (is_nil t.depends_on)

-- One dependency at least, if there are two tasks
unfoldable pub tied : List Task → List Task
tied [] = []
tied (t ∷ []) = t ∷ []
tied (t ∷ u ∷ ts) =
    if any has_dependencies (t ∷ u ∷ ts) then t ∷ u ∷ ts else tie_last (t.id ∷ []) (t ∷ u ∷ ts)

abbrev pub second_label : String → String → String × String → Dict String
second_label key value (other_key, other_value) =
    if text_eq other_key key
    then (key, value) ∷ []
    else (key, value) ∷ (other_key, other_value) ∷ []

abbrev pub named : String → ℤ → List Task → GeneratedWorkflow
named name seed tasks = record {
  name = or_text name ("chaos-" & decimal_ℤ seed);
  tasks = tasks;
  metadata = ("generator", "helixgrid-chaos") ∷ ("seed", decimal_ℤ seed) ∷ [];
}

module _ (r : Random) (config : GeneratorConfig) where
  open config use {
    min_tasks, max_tasks, max_dependencies, label_probability, retry_probability,
    timeout_probability,
  }

  -- `rng.random() < 0.78`
  unfoldable pub dependency_count : List String → Draw r ℕ
  dependency_count [] = pure 0
  dependency_count (id ∷ ids) = do
    favoured ← chance r 7_025_615_418_697_974
    if favoured then between r 1 (min max_dependencies (length (id ∷ ids))) else pure 0

  -- `rng.random() < 0.25`
  unfoldable pub labels_from : String × String → Draw r (Dict String)
  labels_from (key, value) = do
    twice ← chance r 2_251_799_813_685_248
    if twice
        then (do other ← choice r first_label other_labels; pure (second_label key value other))
        else pure ((key, value) ∷ [])

  unfoldable pub task_labels : Draw r (Dict String)
  task_labels = do
    labelled ← chance r label_probability
    if not labelled
        then pure []
        else do label ← choice r first_label other_labels; labels_from label

  unfoldable pub retry_policy : Draw r RetryPolicy
  retry_policy = do
    retried ← chance r retry_probability
    if not retried then pure default_retry else do
      attempts ← between r 2 5
      base ← choice r 50 (100 ∷ 250 ∷ 500 ∷ 1_000 ∷ [])
      limit ← choice r 500 (1_000 ∷ 2_000 ∷ 5_000 ∷ 10_000 ∷ [])
      pure (record {
        max_attempts = pos attempts;
        base_delay_ms = pos base;
        max_delay_ms = pos (max base limit);
      })

  unfoldable pub timeout : Draw r ℕ
  timeout = do
    timed ← chance r timeout_probability
    if not timed then pure 0 else do seconds ← between r 1 120; pure (seconds * 1_000)

  -- The body of the loop over the ids, those in `known` done
  unfoldable pub generate_task : List String → String → Draw r Task
  generate_task known id = do
    count ← dependency_count known
    chosen ← sampled r known count
    labels ← task_labels
    retry ← retry_policy
    timeout_ms ← timeout
    λ g. (post_init (drafted id (sort text_le chosen) labels retry timeout_ms), g)

  unfoldable pub generate_tasks : List String → List String → Draw r (List Task)
  generate_tasks known [] = pure []
  generate_tasks known (id ∷ ids) = do
    task ← generate_task known id
    rest ← generate_tasks (known ++ id ∷ []) ids
    pure (task ∷ rest)

  -- An empty name stands for a name that is not given.
  unfoldable pub workflow : ℤ → String → Draw r GeneratedWorkflow
  workflow seed name = do
    count ← between r min_tasks max_tasks
    tasks ← generate_tasks [] (task_ids_from 0 count)
    pure (named name seed (tied tasks))
