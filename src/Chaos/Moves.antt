-- ===== src/Chaos/Moves.antt =====
-- The small steps by which the operations of tools/chaos_lab/model.py change the store, and the
-- interface of a preorder that allows them all: an invariant or a relation between two stores is
-- proved for each small step once, and every operation then respects it.
pub mod Lookups
pub mod Reads
pub mod Recompute
pub mod Leases
pub mod Handlers
pub mod Admin
pub mod Grants
pub mod Dispatch
use helix_grid.Prelude.{
  ℕ, suc, ◌+◌, ◌≤◌, ◌<◌, String, ◌≡◌, refl, Bool, true, false, List, Option, none, some, length,
  All,
}
use helix_grid.Prelude.Int.{ℤ}
use helix_grid.Prelude.Dict.{Dict, lookup, contains}
use helix_grid.Prelude.Exec.{Result, ok}
use helix_grid.Prelude.Exec.Respects.{Preorder}
use helix_grid.Chaos.Types.{
  TaskState, WorkflowState, Task, Workflow, Worker, Lease, allowed, one_of, workflow_terminal,
}
use helix_grid.Chaos.State.{
  Model, emit, find_task, set_workflow, set_task, set_worker, set_lease, count_up,
}
use helix_grid.Chaos.Tasks.{enter}
use helix_grid.Chaos.Leases.{retire, drop_token}
use helix_grid.Chaos.Dag.{validate_dag}
use helix_grid.Chaos.Admin.{store_workflow, store_worker, is_registered, tick}
use helix_grid.Chaos.Dispatch.{store_lease, add_token}

-- A time stamp is left alone, taken away, or set to the clock.
pub data Stamp (now : ℕ) (old new : Option ℕ) : Type 0 where
  kept : new ≡ old → Stamp now old new
  taken : new ≡ none → Stamp now old new
  set_now : new ≡ some now → Stamp now old new

-- The task of that id has succeeded.
abbrev pub Finished : String → Model → String → Type 0
Finished w m id = (x : Task) × (find_task w id m ≡ some x) × (x.state ≡ TaskState.succeeded)

-- Only a task whose dependencies have succeeded goes from PENDING to READY.
abbrev pub Cleared : String → Model → Task → TaskState → Type 0
Cleared w m x next =
    next ≡ TaskState.ready → x.state ≡ TaskState.pending → All (Finished w m) x.depends_on

-- The task is one of the workflow `w`.
pub data TaskMove (w : String) (m : Model) (x y : Task) : Type 0 where
  entered :
      (next : TaskState)
      → one_of next (allowed x.state) ≡ true
      → (next ≡ TaskState.leased → 1 ≤ x.attempt)
      → Cleared w m x next
      → y ≡ enter next x
      → TaskMove w m x y
  attempted : y ≡ record x { attempt = suc x.attempt } → TaskMove w m x y
  logged :
      (size : ℕ)
      → x.output_bytes + size ≤ m.output_limit_bytes
      → y ≡ record x { output_bytes = x.output_bytes + size }
      → TaskMove w m x y
  noted :
      (token owner : String) (until retry started finished : Option ℕ) (code : Option ℤ)
      (error : String)
      → Stamp m.now_ms x.started_ms started
      → Stamp m.now_ms x.finished_ms finished
      → y ≡ record x {
        lease_token = token;
        lease_owner = owner;
        lease_until_ms = until;
        next_retry_ms = retry;
        started_ms = started;
        finished_ms = finished;
        exit_code = code;
        error = error;
      }
      → TaskMove w m x y

-- Only a workflow that is not over gets a new state.
pub data WorkflowMove (m : Model) (x y : Workflow) : Type 0 where
  resettled :
      (state : WorkflowState) (finished : Option ℕ)
      → workflow_terminal x.state ≡ false
      → Stamp m.now_ms x.finished_ms finished
      → y ≡ record x { state = state; finished_ms = finished }
      → WorkflowMove m x y

pub data WorkerMove (m : Model) (x y : Worker) : Type 0 where
  beat : y ≡ record x { heartbeat_ms = m.now_ms } → WorkerMove m x y
  gone : y ≡ record x { dropped = true } → WorkerMove m x y
  freed : (token : String) → y ≡ drop_token token x → WorkerMove m x y
  loaded :
      (token : String)
      → length x.active_tokens < x.capacity
      → y ≡ add_token token x
      → WorkerMove m x y

pub data LeaseMove (m : Model) (x y : Lease) : Type 0 where
  begun : y ≡ record x { started = true } → LeaseMove m x y
  renewed : y ≡ record x { expires_ms = m.now_ms + m.lease_duration_ms } → LeaseMove m x y

pub record TaskSteps (R : Model → Model → Type 0) : Type 0 where
  pub pre : Preorder R
  pub emitted :
      (kind workflow_id task_id worker_id : String) (payload : Dict String) (m : Model)
      → R m (emit kind workflow_id task_id worker_id payload m).1
  pub task_moved :
      (workflow_id task_id : String) (f : Task → Task) (m : Model)
      → ((x : Task) → find_task workflow_id task_id m ≡ some x → TaskMove workflow_id m x (f x))
      → R m (set_task workflow_id task_id f m).1

-- What `recompute` does
pub record FlowSteps (R : Model → Model → Type 0) : Type 0 where
  pub tasks : TaskSteps R
  pub open tasks use *
  pub workflow_moved :
      (workflow_id : String) (f : Workflow → Workflow) (m : Model)
      → ((x : Workflow) → lookup workflow_id m.workflows ≡ some x → WorkflowMove m x (f x))
      → R m (set_workflow workflow_id f m).1

-- What all operations do, but for the lease that `lease_next` stores
pub record Steps (R : Model → Model → Type 0) : Type 0 where
  pub flow : FlowSteps R
  pub open flow use *
  pub rejected :
      (code : String) (m : Model) → R m (record m { rejections = count_up code m.rejections })
  pub numbered : (m : Model) → R m (record m { id_counter = suc m.id_counter })
  pub ticked : (n : ℕ) (m : Model) → R m (tick n m).1
  pub worker_moved :
      (worker_id : String) (f : Worker → Worker) (m : Model)
      → ((x : Worker) → lookup worker_id m.workers ≡ some x → WorkerMove m x (f x))
      → R m (set_worker worker_id f m).1
  pub worker_stored :
      (worker_id name : String) (capacity : ℕ) (labels : Dict String) (m : Model)
      → is_registered (lookup worker_id m.workers) ≡ false
      → R m (store_worker worker_id name capacity labels m).1
  pub workflow_stored :
      (workflow_id name : String) (tasks : List Task) (order : List String) (metadata : Dict String)
      (m : Model)
      → contains workflow_id m.workflows ≡ false
      → validate_dag tasks ≡ ok order
      → R m (store_workflow workflow_id name tasks order metadata m).1
  pub lease_moved :
      (token : String) (f : Lease → Lease) (m : Model)
      → ((x : Lease) → lookup token m.leases ≡ some x → LeaseMove m x (f x))
      → R m (set_lease token f m).1
  pub retired : (lease : Lease) (m : Model) → lease.closed ≡ false → R m (retire lease m)

-- What all operations do
pub record AllSteps (R : Model → Model → Type 0) : Type 0 where
  pub steps : Steps R
  pub lease_stored :
      (lease : Lease) (m : Model)
      → lease.closed ≡ false
      → lease.acquired_ms ≡ m.now_ms
      → lease.expires_ms ≡ m.now_ms + m.lease_duration_ms
      → R m (store_lease lease m).1
