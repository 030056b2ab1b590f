-- ===== src/Chaos/Dag.antt =====
-- `Model.validate_dag` of tools/chaos_lab/model.py: the checks on the tasks, and Kahn's loop with
-- a sorted list of ready tasks.
pub mod Members
pub mod Release
pub mod Order
pub mod Sound
pub mod Topological
pub mod Exact
pub mod Complete
mod Examples
use helix_grid.Prelude.{
  ℕ, zero, suc, ◌-◌, String, ◌&◌, text_eq, text_le, mem_text, ◌==◌, Bool, false, List, [], ◌∷◌,
  ◌++◌, Option, none, some, if◌then◌else◌, length,
}
use helix_grid.Prelude.Dict.{Dict, lookup, update}
use helix_grid.Prelude.Sorting.{sort}
use helix_grid.Prelude.Exec.{Result, ok, err}
use helix_grid.Chaos.Types.{Error, model_error, Task}

abbrev pub then_check : Option Error → Option Error → Option Error
then_check none next = next
then_check (some e) next = some e

-- The first error of the loop that fills `by_id`
unfoldable pub duplicate_error : List String → List Task → Option Error
duplicate_error known [] = none
duplicate_error known (t ∷ ts) =
    let rest = duplicate_error (t.id ∷ known) ts in
    if mem_text t.id known then some (model_error ("duplicate task id: " & t.id)) else rest

-- The first error of the loop over `task.depends_on`
unfoldable pub dependency_error : String → List String → List String → List String → Option Error
dependency_error id ids seen [] = none
dependency_error id ids seen (d ∷ ds) =
    let rest = dependency_error id ids (d ∷ seen) ds in
    if text_eq d id
    then some (model_error ("task " & id & " depends on itself"))
    else if mem_text d seen
    then some (model_error ("task " & id & " repeats dependency " & d))
    else if mem_text d ids
    then rest
    else some (model_error ("task " & id & " references unknown dependency " & d))

unfoldable pub dependencies_error : List String → List Task → Option Error
dependencies_error ids [] = none
dependencies_error ids (t ∷ ts) =
    let rest = dependencies_error ids ts in
    then_check (dependency_error t.id ids [] t.depends_on) rest

unfoldable pub task_ids : List Task → List String
task_ids [] = []
task_ids (t ∷ ts) = t.id ∷ task_ids ts

-- `indegree`: each task's number of dependencies
unfoldable pub indegrees : List Task → Dict ℕ
indegrees [] = []
indegrees (t ∷ ts) = (t.id, length t.depends_on) ∷ indegrees ts

-- `children[dependency]`: the tasks that name it, each once. The code lists a task once for each time
-- that it names it, which is the same, since a task that repeats a dependency has been refused.
unfoldable pub children : String → List Task → List String
children parent [] = []
children parent (t ∷ ts) =
    if mem_text parent t.depends_on then t.id ∷ children parent ts else children parent ts

unfoldable pub ready_ids : Dict ℕ → List String
ready_ids [] = []
ready_ids ((id, degree) ∷ d) = if degree == 0 then id ∷ ready_ids d else ready_ids d

-- `indegree[child] -= 1`, and whether it has come to 0
unfoldable pub release : String → Dict ℕ → Dict ℕ
release child = update child (λ n. n - 1)

abbrev pub has_come_to_zero : Option ℕ → Bool
has_come_to_zero none = false
has_come_to_zero (some n) = n == 0

-- The `for` loop over `sorted(children[current])`
unfoldable pub release_all : List String → Dict ℕ → List String → Dict ℕ × List String
release_all [] degrees ready = (degrees, ready)
release_all (child ∷ cs) degrees ready =
    let left = release child degrees in
    release_all cs left
      (if has_come_to_zero (lookup child left) then sort text_le (ready ++ child ∷ []) else ready)

-- The `while ready` loop. Each round moves one task to the order, so as many rounds as there are
-- tasks suffice.
unfoldable pub kahn : ℕ → List Task → Dict ℕ → List String → List String
kahn zero tasks degrees ready = []
kahn (suc fuel) tasks degrees [] = []
kahn (suc fuel) tasks degrees (current ∷ ready) =
    let (left, ready') = release_all (sort text_le (children current tasks)) degrees ready in
    current ∷ kahn fuel tasks left ready'

unfoldable pub kahn_order : List Task → List String
kahn_order tasks =
    let degrees = indegrees tasks in
    kahn (length tasks) tasks degrees (sort text_le (ready_ids degrees))

unfoldable pub checked_order : List Task → Result Error (List String)
checked_order tasks =
    let order = kahn_order tasks in
    if length order == length tasks
    then ok order
    else err (model_error "workflow graph contains a dependency cycle")

abbrev pub or_error : {A : Type 0} → Option Error → Result Error A → Result Error A
or_error none r = r
or_error (some e) r = err e

unfoldable pub validate_dag : List Task → Result Error (List String)
validate_dag [] = err (model_error "workflow must contain at least one task")
validate_dag (t ∷ ts) =
    let tasks = t ∷ ts in
    or_error (then_check (duplicate_error [] tasks) (dependencies_error (task_ids tasks) tasks))
      (checked_order tasks)
