-- ===== src/Lab/Types.antt =====
-- The scenarios of tools/chaos_lab/generator.py, with the equality of the data classes that they
-- hold. A worker is named with its capacity and its labels.
use helix_grid.Prelude.{
  ◌+◌, max, length, keep, ℕ, String, text_eq, ◌==◌, Bool, true, false, ◌&&◌, List, [], ◌∷◌, Option,
  none, some,
}
use helix_grid.Prelude.Int.{ℤ, pos, negsuc}
use helix_grid.Prelude.Dict.{Dict}
use helix_grid.Chaos.Types.{Action, ActionKind, RetryPolicy, Task, TaskState, same_state}

pub record GeneratedWorkflow : Type 0 where
  pub name : String
  pub tasks : List Task
  pub metadata : Dict String

-- `GeneratedWorkflow.edge_count` and `width_hint`
abbrev pub sum_dependencies : List Task → ℕ
sum_dependencies [] = 0
sum_dependencies (t ∷ ts) = length t.depends_on + sum_dependencies ts

abbrev has_no_dependency : Task → Bool
has_no_dependency t = length t.depends_on == 0

unfoldable pub edge_count : GeneratedWorkflow → ℕ
edge_count w = sum_dependencies w.tasks

unfoldable pub width_hint : GeneratedWorkflow → ℕ
width_hint w = max 1 (length (keep has_no_dependency w.tasks))

pub record WorkerSpec : Type 0 where
  pub worker_id : String
  pub capacity : ℤ
  pub labels : Dict String

pub record GeneratedScenario : Type 0 where
  pub seed : ℤ
  pub workflow : GeneratedWorkflow
  pub worker_specs : List WorkerSpec
  pub actions : List Action
  pub notes : List String

-- A task as the constructor makes it from the five arguments, before `__post_init__`
abbrev pub new_task : String → List String → Dict String → RetryPolicy → ℤ → Task
new_task id depends_on labels retry timeout = record {
  id = id;
  depends_on = depends_on;
  labels = labels;
  retry = retry;
  timeout_ms = timeout;
  state = TaskState.pending;
  attempt = 0;
  lease_token = "";
  lease_owner = "";
  lease_until_ms = none;
  next_retry_ms = none;
  started_ms = none;
  finished_ms = none;
  exit_code = none;
  error = "";
  output_bytes = 0;
  history = [];
}

abbrev pub action_code : ActionKind → ℕ
action_code ActionKind.register_worker = 0
action_code ActionKind.heartbeat = 1
action_code ActionKind.lease = 2
action_code ActionKind.start = 3
action_code ActionKind.renew = 4
action_code ActionKind.log = 5
action_code ActionKind.complete_success = 6
action_code ActionKind.complete_failure = 7
action_code ActionKind.advance_time = 8
action_code ActionKind.sweep = 9
action_code ActionKind.cancel_workflow = 10
action_code ActionKind.drop_worker = 11
action_code ActionKind.stale_complete = 12
action_code ActionKind.stale_renew = 13
action_code ActionKind.duplicate_complete = 14

abbrev pub same_kind : ActionKind → ActionKind → Bool
same_kind a b = action_code a == action_code b

-- `==` on sequences, from `==` on their items
abbrev pub same_list {ℓ} : {A : Type ℓ} → (A → A → Bool) → List A → List A → Bool
same_list same [] [] = true
same_list same [] (y ∷ ys) = false
same_list same (x ∷ xs) [] = false
same_list same (x ∷ xs) (y ∷ ys) = same x y && same_list same xs ys

abbrev pub same_option {ℓ} : {A : Type ℓ} → (A → A → Bool) → Option A → Option A → Bool
same_option same none none = true
same_option same none (some y) = false
same_option same (some x) none = false
same_option same (some x) (some y) = same x y

abbrev pub same_number : ℕ → ℕ → Bool
same_number a b = a == b

abbrev pub same_integer : ℤ → ℤ → Bool
same_integer (pos a) (pos b) = a == b
same_integer (pos a) (negsuc b) = false
same_integer (negsuc a) (pos b) = false
same_integer (negsuc a) (negsuc b) = a == b

-- `==` on dictionaries that list their keys in the same order: those that the shrinker compares are
-- copies of one another.
abbrev same_entry : String × String → String × String → Bool
same_entry (j, v) (k, w) = text_eq j k && text_eq v w

abbrev pub same_labels : Dict String → Dict String → Bool
same_labels = same_list same_entry

abbrev pub same_action : Action → Action → Bool
same_action a b =
    same_kind a.kind b.kind
    && text_eq a.workflow_id b.workflow_id
    && text_eq a.task_id b.task_id
    && text_eq a.worker_id b.worker_id
    && text_eq a.token b.token
    && same_integer a.amount b.amount
    && text_eq a.text b.text

abbrev pub same_spec : WorkerSpec → WorkerSpec → Bool
same_spec v w =
    text_eq v.worker_id w.worker_id
    && same_integer v.capacity w.capacity
    && same_labels v.labels w.labels

abbrev pub same_policy : RetryPolicy → RetryPolicy → Bool
same_policy p q =
    same_integer p.max_attempts q.max_attempts
    && same_integer p.base_delay_ms q.base_delay_ms
    && same_integer p.max_delay_ms q.max_delay_ms

abbrev pub same_task : Task → Task → Bool
same_task t u =
    text_eq t.id u.id
    && same_list text_eq t.depends_on u.depends_on
    && same_labels t.labels u.labels
    && same_policy t.retry u.retry
    && same_integer t.timeout_ms u.timeout_ms
    && same_state t.state u.state
    && t.attempt == u.attempt
    && text_eq t.lease_token u.lease_token
    && text_eq t.lease_owner u.lease_owner
    && same_option same_number t.lease_until_ms u.lease_until_ms
    && same_option same_number t.next_retry_ms u.next_retry_ms
    && same_option same_number t.started_ms u.started_ms
    && same_option same_number t.finished_ms u.finished_ms
    && same_option same_integer t.exit_code u.exit_code
    && text_eq t.error u.error
    && t.output_bytes == u.output_bytes
    && same_list same_state t.history u.history
