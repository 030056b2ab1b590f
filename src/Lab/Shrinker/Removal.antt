-- ===== src/Lab/Shrinker/Removal.antt =====
-- `_remove_workers`, `_remove_tasks` and `_without_task` of tools/chaos_lab/shrinker.py.
pub mod Parts
use helix_grid.Prelude.{
  ℕ, zero, suc, String, ◌&◌, text_eq, mem_text, leb, Bool, true, false, List, [], ◌∷◌, ◌++◌, Option,
  none, some, if◌then◌else◌, length, any,
}
use helix_grid.Prelude.Exec.{Result, ok, err}
use helix_grid.Chaos.Types.{Action, Task, Error}
use helix_grid.Chaos.Dag.{validate_dag}
use helix_grid.Lab.Types.{WorkerSpec}
use helix_grid.Lab.Shrinker.Ddmin.{ShrinkPass, noted}

abbrev pub reference_worker : List Action → String → Bool
reference_worker actions worker_id = any (λ a. text_eq a.worker_id worker_id) actions

abbrev pub reference_task : List Action → String → Bool
reference_task actions task_id = any (λ a. text_eq a.task_id task_id) actions

abbrev removal : String → String → ℕ → ℕ → Bool → ShrinkPass
removal what id before after accepted = record {
  name = what & "[" & id & "]";
  before = before;
  after = after;
  accepted = accepted;
}

abbrev pub is_nil {ℓ} : {A : Type ℓ} → List A → Bool
is_nil [] = true
is_nil (x ∷ xs) = false

-- The `while` loop of `_remove_workers`: the specs are `before` with those left, and the index is
-- the length of `before`.
unfoldable pub remove_from :
    (List WorkerSpec → Bool)
    → List Action
    → List WorkerSpec
    → List WorkerSpec
    → List ShrinkPass × List WorkerSpec
remove_from test actions before [] = ([], before)
remove_from test actions before (w ∷ rest) =
    let candidate = before ++ rest in
    let accepted = test candidate in
    let pass =
      removal "remove-worker" w.worker_id (length (before ++ w ∷ rest)) (length candidate)
        accepted in
    let onward = remove_from test actions (if accepted then before else before ++ w ∷ []) rest in
    let passed_over = remove_from test actions (before ++ w ∷ []) rest in
    if reference_worker actions w.worker_id
    then passed_over
    else if is_nil candidate
    then passed_over
    else noted pass onward

unfoldable pub remove_workers :
    (List WorkerSpec → Bool) → List Action → List WorkerSpec → List ShrinkPass × List WorkerSpec
remove_workers test actions specs = remove_from test actions [] specs

-- `task.depends_on` of the first task with the id
abbrev pub dependencies_of : String → List Task → List String
dependencies_of target [] = []
dependencies_of target (t ∷ ts) =
    if text_eq t.id target then t.depends_on else dependencies_of target ts

-- `tuple(dict.fromkeys(names))`, without the names already seen
unfoldable pub distinct : List String → List String → List String
distinct seen [] = []
distinct seen (s ∷ ss) = if mem_text s seen then distinct seen ss else s ∷ distinct (s ∷ seen) ss

unfoldable pub expanded : String → List String → List String → List String
expanded target inherited [] = []
expanded target inherited (d ∷ ds) =
    (if text_eq d target then inherited else d ∷ []) ++ expanded target inherited ds

abbrev pub rewired : String → List String → Task → Task
rewired target inherited t =
    if mem_text target t.depends_on
    then record t { depends_on = distinct [] (expanded target inherited t.depends_on) }
    else t

unfoldable pub remaining : String → List String → List Task → List Task
remaining target inherited [] = []
remaining target inherited (t ∷ ts) =
    if text_eq t.id target
    then remaining target inherited ts
    else rewired target inherited t ∷ remaining target inherited ts

unfoldable pub without_task : List Task → String → List Task
without_task tasks target = remaining target (dependencies_of target tasks) tasks

abbrev pub get_elem? {ℓ} : {A : Type ℓ} → List A → ℕ → Option A
get_elem? [] i = none
get_elem? (x ∷ xs) zero = some x
get_elem? (x ∷ xs) (suc i) = get_elem? xs i

abbrev pub is_valid : Result Error (List String) → Bool
is_valid (ok order) = true
is_valid (err e) = false

-- The body of the `while` loop of `_remove_tasks` at one task: the passes it notes, and the tasks
-- that it leaves
unfoldable pub try_without :
    (List Task → Bool) → List Action → List Task → Option Task → List ShrinkPass × List Task
try_without test actions tasks none = ([], tasks)
try_without test actions tasks (some t) =
    let candidate = without_task tasks t.id in
    let accepted = test candidate in
    let pass = removal "remove-task" t.id (length tasks) (length candidate) accepted in
    if reference_task actions t.id
    then ([], tasks)
    else if is_valid (validate_dag candidate)
    then (pass ∷ [], if accepted then candidate else tasks)
    else ([], tasks)

-- The `while` loop of `_remove_tasks`, with the index under the first argument. Where the code moves
-- the index down to the last task, the loop passes over the positions behind it.
unfoldable pub drop_tasks :
    (List Task → Bool) → List Action → ℕ → List Task → List ShrinkPass × List Task
drop_tasks test actions zero tasks = ([], tasks)
drop_tasks test actions (suc index) tasks =
    let (passes, left) = try_without test actions tasks (get_elem? tasks index) in
    let onward = drop_tasks test actions index left in
    if leb (length tasks) 1 then ([], tasks) else (passes ++ onward.0, onward.1)

unfoldable pub remove_tasks :
    (List Task → Bool) → List Action → List Task → List ShrinkPass × List Task
remove_tasks test actions tasks = drop_tasks test actions (length tasks) tasks
