-- ===== src/Chaos/Tasks.antt =====
-- `transition_task`, `labels_match` and `recompute` of tools/chaos_lab/model.py. An error's text
-- prints a state by its value.
use helix_grid.Prelude.{
  ℕ, String, ◌&◌, text_eq, leb, Bool, true, false, not, ◌&&◌, List, [], ◌∷◌, ◌++◌, Option, none,
  some, if◌then◌else◌, any, all,
}
use helix_grid.Prelude.Dict.{Dict, lookup}
use helix_grid.Prelude.Exec.{for_each, pure, raise, gets, ◌>>=◌, ◌>>◌}
use helix_grid.Chaos.Types.{
  TaskState, WorkflowState, model_error, Task, Workflow, same_state, same_workflow_state,
  workflow_terminal, state_name, allowed, one_of,
}
use helix_grid.Chaos.State.{Act, emit, require_workflow, require_task, set_workflow, set_task}

abbrev pub enter : TaskState → Task → Task
enter next x = record x { state = next; history = x.history ++ next ∷ [] }

unfoldable pub transition_task : String → String → TaskState → Act Unit
transition_task workflow_id task_id next = do
  task ← require_task workflow_id task_id
  if same_state next task.state
      then pure tt
      else if not (one_of next (allowed task.state))
      then raise (
          model_error (
            "invalid transition "
            & state_name task.state
            & " -> "
            & state_name next
            & " for "
            & workflow_id
            & "/"
            & task_id))
      else set_task workflow_id task_id (enter next)

abbrev pub label_fits : Dict String → String × String → Bool
label_fits worker_labels (key, value) = elim (lookup key worker_labels) [
  | none ↦ false
  | some v ↦ text_eq v value
]

unfoldable pub labels_match : Dict String → Dict String → Bool
labels_match worker_labels task_labels = all (label_fits worker_labels) task_labels

-- `[workflow.tasks[dep].state for dep in depends_on]`
unfoldable pub dependency_states : String → List String → Act (List TaskState)
dependency_states workflow_id [] = pure []
dependency_states workflow_id (dep ∷ deps) = do
  task ← require_task workflow_id dep
  states ← dependency_states workflow_id deps
  pure (task.state ∷ states)

abbrev pub is_impossible : List TaskState → Bool
is_impossible = any (λ s. one_of s (TaskState.failed ∷ TaskState.cancelled ∷ []))

abbrev pub is_ready : List TaskState → Bool
is_ready = all (λ s. same_state s TaskState.succeeded)

-- `next_retry_ms is None or next_retry_ms <= now_ms`
abbrev pub retry_due : Option ℕ → ℕ → Bool
retry_due none now = true
retry_due (some at) now = leb at now

unfoldable pub make_ready : String → String → Act Unit
make_ready workflow_id task_id = do
  transition_task workflow_id task_id TaskState.ready
  emit "task.ready" workflow_id task_id "" []

unfoldable pub recompute_pending : String → String → Task → Act Unit
recompute_pending workflow_id task_id task = do
  states ← dependency_states workflow_id task.depends_on
  now ← gets (λ m. m.now_ms)
  if is_impossible states
      then (do
        set_task workflow_id task_id (λ x. record x { finished_ms = some now })
        transition_task workflow_id task_id TaskState.cancelled)
      else if is_ready states
      then make_ready workflow_id task_id
      else pure tt

unfoldable pub recompute_waiting : String → String → Task → Act Unit
recompute_waiting workflow_id task_id task = do
  now ← gets (λ m. m.now_ms)
  if retry_due task.next_retry_ms now
      then (do
        set_task workflow_id task_id (λ x. record x { next_retry_ms = none; finished_ms = none })
        make_ready workflow_id task_id)
      else pure tt

-- The body of the `for` loop of `recompute`
unfoldable pub recompute_task : String → String → Act Unit
recompute_task workflow_id task_id = do
  task ← require_task workflow_id task_id
  if same_state task.state TaskState.pending
      then recompute_pending workflow_id task_id task
      else if same_state task.state TaskState.retry_wait
      then recompute_waiting workflow_id task_id task
      else pure tt

abbrev pub is_active : TaskState → Bool
is_active s =
    one_of s (TaskState.ready ∷ TaskState.leased ∷ TaskState.running ∷ TaskState.retry_wait ∷ [])

abbrev pub task_states : Dict Task → List TaskState
task_states [] = []
task_states ((key, task) ∷ tasks) = task.state ∷ task_states tasks

-- The workflow with the state that its tasks' states give it
unfoldable pub settled : ℕ → Workflow → Workflow
settled now w =
    let states = task_states w.tasks in
    if all (λ s. same_state s TaskState.succeeded) states
    then record w { state = WorkflowState.succeeded; finished_ms = some now }
    else if any (λ s. same_state s TaskState.failed) states && not (any is_active states)
    then record w { state = WorkflowState.failed; finished_ms = some now }
    else if same_workflow_state w.state WorkflowState.pending
    then record w { state = WorkflowState.running }
    else w

abbrev pub announce : String → WorkflowState → Act Unit
announce workflow_id WorkflowState.running = emit "workflow.started" workflow_id "" "" []
announce workflow_id WorkflowState.succeeded = emit "workflow.succeeded" workflow_id "" "" []
announce workflow_id WorkflowState.failed = emit "workflow.failed" workflow_id "" "" []
announce workflow_id _ = pure tt

unfoldable pub settle : String → WorkflowState → Act Unit
settle workflow_id before = do
  now ← gets (λ m. m.now_ms)
  set_workflow workflow_id (settled now)
  workflow ← require_workflow workflow_id
  if same_workflow_state workflow.state before then pure tt else announce workflow_id workflow.state

unfoldable pub recompute : String → Act Unit
recompute workflow_id = do
  workflow ← require_workflow workflow_id
  if workflow_terminal workflow.state then pure tt else do
    for_each (recompute_task workflow_id) workflow.order
    settle workflow_id workflow.state
