-- ===== src/Chaos/Dag/Examples.antt =====
-- The theorems on `validate_dag` of tools/chaos_lab/model.py at a diamond of four tasks.
use helix_grid.Prelude.{◌≡◌, refl, arith, [], ◌∷◌}
use helix_grid.Prelude.Exec.{ok}
use helix_grid.Chaos.Dag.{
  validate_dag, kahn_order, duplicate_error, dependencies_error, dependency_error, task_ids,
}
use helix_grid.Chaos.Dag.Topological.{IsTopological, validate_dag-IsTopological}
use helix_grid.Chaos.Dag.Complete.{validate_dag-ok}
use helix_grid.Chaos.Samples.{diamond, validate_dag-diamond}

validate_dag-IsTopological_example : IsTopological diamond ("a" ∷ "b" ∷ "c" ∷ "d" ∷ [])
validate_dag-IsTopological_example =
    validate_dag-IsTopological diamond ("a" ∷ "b" ∷ "c" ∷ "d" ∷ []) validate_dag-diamond

validate_dag-ok_example : validate_dag diamond ≡ ok (kahn_order diamond)
unfolding duplicate_error dependencies_error dependency_error task_ids
validate_dag-ok_example =
    validate_dag-ok diamond ("a" ∷ "b" ∷ "c" ∷ "d" ∷ []) (ground arith) refl refl
      (validate_dag-IsTopological diamond ("a" ∷ "b" ∷ "c" ∷ "d" ∷ []) validate_dag-diamond)
