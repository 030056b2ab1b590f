-- ===== src/Chaos/Types.antt =====
-- The enumerations and data classes of tools/chaos_lab/model.py. A `clone()` is the value itself:
-- a record here is never changed in place. Clock readings and counters are natural numbers.
use helix_grid.Prelude.{ℕ, String, Bool, true, false, List, [], ◌∷◌, Option, ◌==◌, ◌||◌}
use helix_grid.Prelude.Int.{ℤ, pos}
use helix_grid.Prelude.Dict.{Dict}

pub data WorkflowState : Type 0 where
  pending running succeeded failed cancelled : WorkflowState

pub data TaskState : Type 0 where
  pending ready leased running retry_wait succeeded failed cancelled : TaskState

abbrev workflow_state_code : WorkflowState → ℕ
workflow_state_code WorkflowState.pending = 0
workflow_state_code WorkflowState.running = 1
workflow_state_code WorkflowState.succeeded = 2
workflow_state_code WorkflowState.failed = 3
workflow_state_code WorkflowState.cancelled = 4

abbrev task_state_code : TaskState → ℕ
task_state_code TaskState.pending = 0
task_state_code TaskState.ready = 1
task_state_code TaskState.leased = 2
task_state_code TaskState.running = 3
task_state_code TaskState.retry_wait = 4
task_state_code TaskState.succeeded = 5
task_state_code TaskState.failed = 6
task_state_code TaskState.cancelled = 7

-- `==` on the members of an enumeration
abbrev pub same_workflow_state : WorkflowState → WorkflowState → Bool
same_workflow_state s t = workflow_state_code s == workflow_state_code t

abbrev pub same_state : TaskState → TaskState → Bool
same_state s t = task_state_code s == task_state_code t

-- `WorkflowState.terminal` and `TaskState.terminal`
abbrev pub workflow_terminal : WorkflowState → Bool
workflow_terminal WorkflowState.succeeded = true
workflow_terminal WorkflowState.failed = true
workflow_terminal WorkflowState.cancelled = true
workflow_terminal _ = false

abbrev pub terminal : TaskState → Bool
terminal TaskState.succeeded = true
terminal TaskState.failed = true
terminal TaskState.cancelled = true
terminal _ = false

abbrev pub state_name : TaskState → String
state_name TaskState.pending = "PENDING"
state_name TaskState.ready = "READY"
state_name TaskState.leased = "LEASED"
state_name TaskState.running = "RUNNING"
state_name TaskState.retry_wait = "RETRY_WAIT"
state_name TaskState.succeeded = "SUCCEEDED"
state_name TaskState.failed = "FAILED"
state_name TaskState.cancelled = "CANCELLED"

pub data ActionKind : Type 0 where
  register_worker heartbeat lease start renew log complete_success complete_failure : ActionKind
  advance_time sweep cancel_workflow drop_worker stale_complete stale_renew : ActionKind
  duplicate_complete : ActionKind

-- `ModelError`, with the text that it carries, and Python's own `ValueError` and `KeyError`
pub data Error : Type 0 where
  model_error value_error key_error : String → Error

pub record RetryPolicy : Type 0 where
  pub max_attempts : ℤ
  pub base_delay_ms : ℤ
  pub max_delay_ms : ℤ

abbrev pub default_retry : RetryPolicy
default_retry = record { max_attempts = pos 1; base_delay_ms = pos 250; max_delay_ms = pos 30_000 }

pub record Task : Type 0 where
  pub id : String
  pub depends_on : List String
  pub labels : Dict String
  pub retry : RetryPolicy
  pub timeout_ms : ℤ
  pub state : TaskState
  pub attempt : ℕ
  pub lease_token : String
  pub lease_owner : String
  pub lease_until_ms : Option ℕ
  pub next_retry_ms : Option ℕ
  pub started_ms : Option ℕ
  pub finished_ms : Option ℕ
  pub exit_code : Option ℤ
  pub error : String
  pub output_bytes : ℕ
  pub history : List TaskState

pub record Workflow : Type 0 where
  pub id : String
  pub name : String
  pub tasks : Dict Task
  pub order : List String
  pub created_ms : ℕ
  pub state : WorkflowState
  pub finished_ms : Option ℕ
  pub metadata : Dict String

-- The set of active tokens is a list with no token twice.
pub record Worker : Type 0 where
  pub id : String
  pub name : String
  pub capacity : ℕ
  pub labels : Dict String
  pub registered_ms : ℕ
  pub heartbeat_ms : ℕ
  pub active_tokens : List String
  pub dropped : Bool

pub record Lease : Type 0 where
  pub token : String
  pub workflow_id : String
  pub task_id : String
  pub worker_id : String
  pub attempt : ℕ
  pub acquired_ms : ℕ
  pub expires_ms : ℕ
  pub started : Bool
  pub closed : Bool

pub record Event : Type 0 where
  pub sequence : ℕ
  pub kind : String
  pub at_ms : ℕ
  pub workflow_id : String
  pub task_id : String
  pub worker_id : String
  pub payload : Dict String

pub record Action : Type 0 where
  pub kind : ActionKind
  pub workflow_id : String
  pub task_id : String
  pub worker_id : String
  pub token : String
  pub amount : ℤ
  pub text : String

-- `_ALLOWED_TASK_TRANSITIONS`
abbrev pub allowed : TaskState → List TaskState
allowed TaskState.pending = TaskState.ready ∷ TaskState.cancelled ∷ []
allowed TaskState.ready = TaskState.leased ∷ TaskState.cancelled ∷ []
allowed TaskState.leased = TaskState.running ∷ TaskState.ready ∷ TaskState.cancelled ∷ []
allowed TaskState.running =
    TaskState.retry_wait ∷ TaskState.succeeded ∷ TaskState.failed ∷ TaskState.ready
    ∷ TaskState.cancelled ∷ []
allowed TaskState.retry_wait = TaskState.ready ∷ TaskState.cancelled ∷ []
allowed TaskState.succeeded = []
allowed TaskState.failed = []
allowed TaskState.cancelled = []

-- `state in {…}` on a set of task states
abbrev pub one_of : TaskState → List TaskState → Bool
one_of s [] = false
one_of s (t ∷ ts) = same_state s t || one_of s ts
