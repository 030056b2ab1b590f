-- ===== src/Lab/Generator/Sound.antt =====
-- What `workflow` and `workers` of tools/chaos_lab/generator.py give, whatever the random numbers.
use helix_grid.Prelude.{
  ℕ, zero, suc, ◌≤◌, ◌≡◌, ◌≢◌, refl, ap, ◌∙◌, String, mem_text, is_empty, true, false, not, List,
  inl, inr, Bool-cases, any, ◌+◌, [], ◌∷◌, ◌++◌, length, All, arith,
}
use helix_grid.Prelude.Int.{ℤ}
use helix_grid.Prelude.Exec.{ok}
use helix_grid.Prelude.Exec.Yields.{Yields, Yields-pure, Yields-bind}
use helix_grid.Chaos.Types.{Task}
use helix_grid.Chaos.Dag.{kahn_order, validate_dag}
use helix_grid.Lab.Types.{GeneratedWorkflow, edge_count, sum_dependencies}
use helix_grid.Lab.Generator.Draws.{Random, IsRandom, GeneratorConfig}
use helix_grid.Lab.Generator.Tasks.{
  task_ids_from, tied, named, is_nil, has_dependencies, tie_last, workflow,
}
use helix_grid.Lab.Generator.Ids.{task_ids_from-IsDistinct, is_empty-task_id}
use helix_grid.Lab.Generator.Valid.{IsDict, between-Yields}
use helix_grid.Lab.Generator.Built.{Built, generate_tasks-Yields, tied-Built}
use helix_grid.Lab.Generator.Accepted.{Built-ok}

length-task_ids_from : (first count : ℕ) → length (task_ids_from first count) ≡ count
unfolding task_ids_from
length-task_ids_from first zero = refl
length-task_ids_from first (suc count) = ap suc (length-task_ids_from (suc first) count)

task_ids_from-All : (first count : ℕ) → All (λ id. is_empty id ≡ false) (task_ids_from first count)
unfolding task_ids_from
task_ids_from-All first zero = tt
task_ids_from-All first (suc count) = (is_empty-task_id first, task_ids_from-All (suc first) count)

fresh-All : (ids : List String) → All (λ id. mem_text id [] ≡ false) ids
fresh-All [] = tt
fresh-All (id ∷ ids) = (refl, fresh-All ids)

Built-length :
    (known ids : List String) (ts : List Task) → Built known ids ts → length ts ≡ length ids
Built-length known [] [] built = refl
Built-length known [] (t ∷ ts) built = absurd built
Built-length known (id ∷ ids) [] built = absurd built
Built-length known (id ∷ ids) (t ∷ ts) built =
    ap suc (Built-length (known ++ id ∷ []) ids ts built.1)

Built-All :
    (known ids : List String) (ts : List Task) → Built known ids ts → All (λ t. IsDict t.labels) ts
Built-All known [] [] built = tt
Built-All known [] (t ∷ ts) built = absurd built
Built-All known (id ∷ ids) [] built = absurd built
Built-All known (id ∷ ids) (t ∷ ts) built =
    (built.0.labelled, Built-All (known ++ id ∷ []) ids ts built.1)

any-edges : (ts : List Task) → any has_dependencies ts ≡ true → 1 ≤ sum_dependencies ts
any-edges [] h = absurd (ground (arith, h))
any-edges (t ∷ ts) h = elim (Bool-cases (has_dependencies t)) [
  | inl some_edge ↦ not_nil_length t.depends_on some_edge
  | inr no_edge ↦ omega (arith, any-edges ts (ground (arith, h, no_edge)))
]
  where
    not_nil_length :
        (ids : List String) → not (is_nil ids) ≡ true → 1 ≤ length ids + sum_dependencies ts
    not_nil_length [] e = absurd (ground (arith, e))
    not_nil_length (id ∷ ids) e = omega arith

tie_last-edges :
    (id : String) (t : Task) (ts : List Task) → 1 ≤ sum_dependencies (tie_last (id ∷ []) (t ∷ ts))
tie_last-edges id t [] = omega arith
tie_last-edges id t (u ∷ ts) = omega (arith, tie_last-edges id u ts)

tied-edges : (ts : List Task) → 2 ≤ length ts → 1 ≤ sum_dependencies (tied ts)
unfolding tied
tied-edges [] h = absurd (omega (arith, h))
tied-edges (t ∷ []) h = absurd (omega (arith, h))
tied-edges (t ∷ u ∷ ts) h = elim (Bool-cases (any has_dependencies (t ∷ u ∷ ts))) [
  | inl e ↦ rw e (any-edges (t ∷ u ∷ ts) e)
  | inr e ↦ rw e (tie_last-edges t.id t (u ∷ ts))
]

not_nil : (ts : List Task) → 1 ≤ length ts → ts ≢ []
not_nil [] h = absurd (omega arith)
not_nil (t ∷ ts) h = λ e. absurd (ground (arith, e))

-- A workflow of as many tasks as the settings allow, which `validate_dag` accepts, with a dependency
-- if there are two tasks
pub record IsAccepted (config : GeneratorConfig) (w : GeneratedWorkflow) : Type 0 where
  pub enough : config.min_tasks ≤ length w.tasks
  pub no_more : length w.tasks ≤ config.max_tasks
  pub accepted : validate_dag w.tasks ≡ ok (kahn_order w.tasks)
  pub linked : 2 ≤ length w.tasks → 1 ≤ edge_count w
  pub labelled : All (λ t. IsDict t.labels) w.tasks

Built-IsAccepted :
    (config : GeneratorConfig) (seed : ℤ) (name : String) (count : ℕ) (ts : List Task)
    → 1 ≤ config.min_tasks
    → (config.min_tasks ≤ count) × (count ≤ config.max_tasks)
    → Built [] (task_ids_from 0 count) ts
    → IsAccepted config (named name seed (tied ts))
unfolding edge_count
Built-IsAccepted config seed name count ts positive range built =
    let made = tied-Built (task_ids_from 0 count) ts built in
    let size : length (tied ts) ≡ count =
      Built-length [] (task_ids_from 0 count) (tied ts) made ∙ length-task_ids_from 0 count in
    let drawn_size : length ts ≡ count =
      Built-length [] (task_ids_from 0 count) ts built ∙ length-task_ids_from 0 count in
    record {
      enough = omega (arith, size);
      no_more = omega (arith, size);
      accepted =
          Built-ok (task_ids_from 0 count) (tied ts) made (task_ids_from-IsDistinct 0 count)
            (not_nil (tied ts) (omega (arith, size)));
      linked = λ two. tied-edges ts (omega (arith, two, size, drawn_size));
      labelled = Built-All [] (task_ids_from 0 count) (tied ts) made;
    }

module _ {r : Random} (law : IsRandom r) (config : GeneratorConfig)
    (positive : 1 ≤ config.min_tasks) (range : config.min_tasks ≤ config.max_tasks)
    (some_dependency : 1 ≤ config.max_dependencies) where
  -- Whatever the random numbers, `workflow` returns a workflow, of as many tasks as the settings
  -- allow, that `validate_dag` accepts and that has a dependency if there are two tasks, if the
  -- settings are in order and allow a dependency.
  pub workflow-IsAccepted :
      (seed : ℤ) (name : String) → Yields (IsAccepted config) (workflow r config seed name)
  unfolding workflow
  workflow-IsAccepted seed name =
      Yields-bind _ _ _ _ (between-Yields law config.min_tasks config.max_tasks range)
        (λ count bounds.
          Yields-bind _ _ _ _
            (generate_tasks-Yields law config some_dependency [] (task_ids_from 0 count)
              (task_ids_from-All 0 count) (fresh-All (task_ids_from 0 count)) tt
              (task_ids_from-IsDistinct 0 count))
            (λ ts built.
              Yields-pure _ _ (Built-IsAccepted config seed name count ts positive bounds built)))
