-- ===== src/Chaos/State.antt =====
-- `class Model` of tools/chaos_lab/model.py: its fields, `__init__`, `next_id`, `emit`, `reject`
-- and the `require_*` look-ups. An object of the store is named by the key it stands under, and
-- an assignment to its field updates the entry under that key.
use helix_grid.Prelude.{ℕ, suc, String, ◌&◌, decimal, List, [], ◌∷◌, ◌++◌, Option, none, some}
use helix_grid.Prelude.Int.{ℤ, pos}
use helix_grid.Prelude.Dict.{Dict, lookup, insert, update}
use helix_grid.Prelude.Exec.{Exec, Result, ok, err, raise, some_or, modify}
use helix_grid.Chaos.Types.{
  Error, model_error, value_error, key_error, Task, Workflow, Worker, Lease, Event,
}

pub record Model : Type 0 where
  pub now_ms : ℕ
  pub lease_duration_ms : ℕ
  pub worker_ttl_ms : ℕ
  pub output_limit_bytes : ℕ
  pub log_chunk_limit_bytes : ℕ
  pub workflows : Dict Workflow
  pub workers : Dict Worker
  pub leases : Dict Lease
  pub closed_leases : Dict Lease
  pub events : List Event
  pub rejections : Dict ℕ
  pub sequence : ℕ
  pub id_counter : ℕ

abbrev pub Act : Type 0 → Type 0
Act A = Exec Model Error A

abbrev pub blank : ℕ → ℕ → ℕ → ℕ → Model
blank lease_duration worker_ttl output_limit log_chunk_limit = record {
  now_ms = 0;
  lease_duration_ms = lease_duration;
  worker_ttl_ms = worker_ttl;
  output_limit_bytes = output_limit;
  log_chunk_limit_bytes = log_chunk_limit;
  workflows = [];
  workers = [];
  leases = [];
  closed_leases = [];
  events = [];
  rejections = [];
  sequence = 0;
  id_counter = 0;
}

-- `Model.__init__`
unfoldable pub init : ℤ → ℤ → ℕ → ℕ → Result Error Model
init (pos (suc d)) (pos (suc t)) output chunk = ok (blank (suc d) (suc t) output chunk)
init (pos (suc d)) ttl output chunk = err (value_error "worker_ttl_ms must be positive")
init lease ttl output chunk = err (value_error "lease_duration_ms must be positive")

-- `hashlib.blake2s(…, digest_size=6).hexdigest()` is a parameter.
unfoldable pub next_id : (String → String) → String → Act String
next_id digest prefix m =
    let count = suc m.id_counter in
    (
      ok (prefix & "_" & digest (prefix & ":" & decimal count & ":" & decimal m.now_ms)),
      record m { id_counter = count },
    )

abbrev pub stamped : String → String → String → String → Dict String → Model → Event
stamped kind workflow_id task_id worker_id payload m = record {
  sequence = suc m.sequence;
  kind = kind;
  at_ms = m.now_ms;
  workflow_id = workflow_id;
  task_id = task_id;
  worker_id = worker_id;
  payload = payload;
}

unfoldable pub emit : String → String → String → String → Dict String → Act Unit
emit kind workflow_id task_id worker_id payload m = (
  ok tt,
  record m {
    sequence = suc m.sequence;
    events = m.events ++ stamped kind workflow_id task_id worker_id payload m ∷ [];
  },
)

abbrev pub count_up : String → Dict ℕ → Dict ℕ
count_up code counter = elim (lookup code counter) [
  | none ↦ insert code 1 counter
  | some n ↦ insert code (suc n) counter
]

unfoldable pub reject : {A : Type 0} → String → String → Act A
reject code message m = (
  err (model_error (code & ": " & message)),
  record m { rejections = count_up code m.rejections },
)

unfoldable pub require_worker : String → Act Worker
require_worker worker_id m =
    some_or (lookup worker_id m.workers) (raise (model_error ("unknown worker: " & worker_id))) m

unfoldable pub require_workflow : String → Act Workflow
require_workflow workflow_id m =
    some_or (lookup workflow_id m.workflows)
      (raise (model_error ("unknown workflow: " & workflow_id))) m

-- `workflow.tasks[task_id]` on the workflow under `workflow_id`, for a workflow that is there
abbrev pub in_workflow : String → Option Workflow → Option Task
in_workflow task_id none = none
in_workflow task_id (some w) = lookup task_id w.tasks

abbrev pub find_task : String → String → Model → Option Task
find_task workflow_id task_id m = in_workflow task_id (lookup workflow_id m.workflows)

unfoldable pub require_task : String → String → Act Task
require_task workflow_id task_id m =
    some_or (find_task workflow_id task_id m) (raise (key_error task_id)) m

-- Assignments to the fields of a workflow, a task, a worker and a lease
unfoldable pub set_workflow : String → (Workflow → Workflow) → Act Unit
set_workflow workflow_id f = modify (λ m. record m { workflows = update workflow_id f m.workflows })

unfoldable pub set_task : String → String → (Task → Task) → Act Unit
set_task workflow_id task_id f = modify (λ m. record m {
  workflows = update workflow_id (λ w. record w { tasks = update task_id f w.tasks }) m.workflows;
})

unfoldable pub set_worker : String → (Worker → Worker) → Act Unit
set_worker worker_id f = modify (λ m. record m { workers = update worker_id f m.workers })

unfoldable pub set_lease : String → (Lease → Lease) → Act Unit
set_lease token f = modify (λ m. record m { leases = update token f m.leases })
