-- ===== src/Chaos/Admin.antt =====
-- Workflows, workers and the clock of tools/chaos_lab/model.py: `Task.__post_init__`,
-- `add_workflow`, `register_worker`, `heartbeat`, `drop_worker`, `cancel_workflow`, `advance`.
use helix_grid.Prelude.{
  ℕ, ◌+◌, String, is_empty, ltb, Bool, true, false, not, ◌||◌, List, [], ◌∷◌, Option, none, some,
  ◌==◌, if◌then◌else◌,
}
use helix_grid.Prelude.Int.{ℤ, pos, negsuc, is_negative}
use helix_grid.Prelude.Dict.{Dict, lookup, contains, insert}
use helix_grid.Prelude.Exec.{Result, ok, err, for_each, pure, raise, gets, modify, ◌>>=◌, ◌>>◌}
use helix_grid.Chaos.Types.{
  TaskState, WorkflowState, Error, model_error, value_error, Task, Workflow, Worker,
  workflow_terminal, terminal,
}
use helix_grid.Chaos.Policy.{normalized}
use helix_grid.Chaos.State.{
  Model, Act, emit, reject, next_id, require_worker, require_workflow, require_task, set_workflow,
  set_task, set_worker,
}
use helix_grid.Chaos.Tasks.{transition_task, recompute}
use helix_grid.Chaos.Leases.{close_lease, sweep}
use helix_grid.Chaos.Dag.{validate_dag}

-- `Task.__post_init__`
unfoldable pub post_init : Task → Result Error Task
post_init t =
    let checked = record t { retry = normalized t.retry } in
    if is_empty t.id
    then err (value_error "task id may not be empty")
    else if is_negative t.timeout_ms
    then err (value_error "task timeout may not be negative")
    else ok checked

-- A task as `add_workflow` stores it
abbrev pub fresh_task : Task → Task
fresh_task t = record t {
  state = TaskState.pending;
  attempt = 0;
  lease_token = "";
  lease_owner = "";
  lease_until_ms = none;
  next_retry_ms = none;
  started_ms = none;
  finished_ms = none;
  exit_code = none;
  error = "";
  output_bytes = 0;
  history = [];
}

-- `{task.id: task.clone() for task in tasks}`, each task reset
unfoldable pub task_map : List Task → Dict Task → Dict Task
task_map [] d = d
task_map (t ∷ ts) d = task_map ts (insert t.id (fresh_task t) d)

abbrev new_workflow : String → String → List Task → List String → Dict String → Model → Workflow
new_workflow workflow_id name tasks order metadata m = record {
  id = workflow_id;
  name = name;
  tasks = task_map tasks [];
  order = order;
  created_ms = m.now_ms;
  state = WorkflowState.pending;
  finished_ms = none;
  metadata = metadata;
}

-- An empty text stands for an argument that is `None` or empty: the code tests both by `or`.
abbrev pub name_or_next : (String → String) → String → String → Act String
name_or_next digest given prefix = if is_empty given then next_id digest prefix else pure given

abbrev pub lift : {A : Type 0} → Result Error A → Act A
lift r m = (r, m)

-- `self.workflows[workflow.id] = workflow`
unfoldable pub store_workflow : String → String → List Task → List String → Dict String → Act Unit
store_workflow workflow_id name tasks order metadata = modify (λ m. record m {
  workflows = insert workflow_id (new_workflow workflow_id name tasks order metadata m) m.workflows;
})

unfoldable pub add_workflow :
    (String → String) → String → List Task → String → Dict String → Act Workflow
add_workflow digest name tasks given metadata = do
  workflow_id ← name_or_next digest given "wf"
  known ← gets (λ m. contains workflow_id m.workflows)
  if known then raise (model_error "workflow already exists") else do
    order ← lift (validate_dag tasks)
    store_workflow workflow_id name tasks order metadata
    emit "workflow.created" workflow_id "" "" (("name", name) ∷ [])
    recompute workflow_id
    require_workflow workflow_id

abbrev new_worker : String → String → ℕ → Dict String → ℕ → Worker
new_worker worker_id name capacity labels now = record {
  id = worker_id;
  name = name;
  capacity = capacity;
  labels = labels;
  registered_ms = now;
  heartbeat_ms = now;
  active_tokens = [];
  dropped = false;
}

unfoldable pub store_worker : String → String → ℕ → Dict String → Act Unit
store_worker worker_id name capacity labels = modify (λ m. record m {
  workers = insert worker_id (new_worker worker_id name capacity labels m.now_ms) m.workers;
})

-- `worker_id in self.workers and not self.workers[worker_id].dropped`
abbrev pub is_registered : Option Worker → Bool
is_registered none = false
is_registered (some w) = not w.dropped

unfoldable pub register_named : String → ℕ → Dict String → String → Act Worker
register_named name capacity labels worker_id = do
  known ← gets (λ m. lookup worker_id m.workers)
  if is_registered known then raise (model_error "worker already exists") else do
    store_worker worker_id name capacity labels
    emit "worker.registered" "" "" worker_id (("name", name) ∷ [])
    require_worker worker_id

unfoldable pub register_worker : (String → String) → String → ℤ → Dict String → String → Act Worker
register_worker digest name (negsuc n) labels given =
    raise (model_error "worker capacity must be 1..256")
register_worker digest name (pos capacity) labels given =
    if capacity == 0 || ltb 256 capacity
    then raise (model_error "worker capacity must be 1..256")
    else do
      worker_id ← name_or_next digest given "worker"
      register_named name capacity labels worker_id

unfoldable pub heartbeat : String → Act Worker
heartbeat worker_id = do
  worker ← require_worker worker_id
  if worker.dropped then reject "worker_dropped" "worker has been dropped" else do
    now ← gets (λ m. m.now_ms)
    set_worker worker_id (λ w. record w { heartbeat_ms = now })
    emit "worker.heartbeat" "" "" worker.id []
    require_worker worker_id

unfoldable pub drop_worker : String → Act Unit
drop_worker worker_id = do
  require_worker worker_id
  set_worker worker_id (λ w. record w { dropped = true })

-- `lease = self.leases.get(token)`, and the lease is closed if there is one.
unfoldable pub close_if_active : String → Act Unit
close_if_active token m = elim (lookup token m.leases) [
  | none ↦ pure tt m
  | some lease ↦ close_lease lease m
]

abbrev pub stopped : ℕ → Task → Task
stopped now x = record x {
  next_retry_ms = none;
  lease_token = "";
  lease_owner = "";
  lease_until_ms = none;
  finished_ms = some now;
}

-- The body of the `for` loop of `cancel_workflow`
unfoldable pub cancel_task : String → String → Act Unit
cancel_task workflow_id task_id = do
  task ← require_task workflow_id task_id
  if terminal task.state then pure tt else do
    if is_empty task.lease_token then pure tt else close_if_active task.lease_token
    now ← gets (λ m. m.now_ms)
    set_task workflow_id task_id (stopped now)
    transition_task workflow_id task_id TaskState.cancelled

unfoldable pub cancel_workflow : String → Act Workflow
cancel_workflow workflow_id = do
  workflow ← require_workflow workflow_id
  if workflow_terminal workflow.state then pure workflow else do
    now ← gets (λ m. m.now_ms)
    set_workflow workflow_id
        (λ w. record w { state = WorkflowState.cancelled; finished_ms = some now })
    for_each (cancel_task workflow_id) workflow.order
    emit "workflow.cancelled" workflow_id "" "" []
    require_workflow workflow_id

unfoldable pub tick : ℕ → Act Unit
tick n = modify (λ m. record m { now_ms = m.now_ms + n })

unfoldable pub advance : ℤ → Bool → Act Unit
advance (negsuc n) sweeps = raise (model_error "time cannot move backwards")
advance (pos n) sweeps = tick n >> (if sweeps then sweep else pure tt)
