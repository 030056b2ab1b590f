-- ===== src/Chaos/Snapshot.antt =====
-- `snapshot`, `digest`, `event_jsonl` and the other reports of tools/chaos_lab/model.py. They only
-- read the model. The hash `sha256(…).hexdigest()` is a parameter.
use helix_grid.Prelude.{
  ℕ, String, ◌&◌, text_le, text_lt, text_eq, Bool, not, ◌&&◌, ◌||◌, List, [], ◌∷◌, ◌++◌, ◌==◌,
  Option, none, some, if◌then◌else◌, length, all,
}
use helix_grid.Prelude.Int.{pos}
use helix_grid.Prelude.Dict.{Dict, lookup, keys, values}
use helix_grid.Prelude.Codes.{Codes}
use helix_grid.Prelude.Sorting.{sort}
use helix_grid.Prelude.Json.{
  Json, null, boolean, number, text, array, object, end, entry, items, entries, dumps, compact,
  spaced,
}
use helix_grid.Chaos.Types.{
  TaskState, WorkflowState, Task, Workflow, Worker, Lease, Event, Action, ActionKind, state_name,
  same_state, workflow_terminal,
}
use helix_grid.Chaos.State.{Model, count_up}

abbrev pub workflow_state_name : WorkflowState → String
workflow_state_name WorkflowState.pending = "PENDING"
workflow_state_name WorkflowState.running = "RUNNING"
workflow_state_name WorkflowState.succeeded = "SUCCEEDED"
workflow_state_name WorkflowState.failed = "FAILED"
workflow_state_name WorkflowState.cancelled = "CANCELLED"

abbrev pub natural : ℕ → Json
natural n = number (pos n)

abbrev optional : Option ℕ → Json
optional none = null
optional (some n) = natural n

abbrev task_json : Task → Json
task_json t = object (
    entry "state" (text (state_name t.state)) (
      entry "attempt" (natural t.attempt) (
        entry "lease_token" (text t.lease_token) (
          entry "lease_owner" (text t.lease_owner) (
            entry "lease_until_ms" (optional t.lease_until_ms) (
              entry "next_retry_ms" (optional t.next_retry_ms)
                (entry "output_bytes" (natural t.output_bytes) end)))))))

abbrev workflow_json : Workflow → Json
workflow_json w = object (
    entry "state" (text (workflow_state_name w.state))
      (entry "tasks" (object (entries task_json w.tasks)) end))

abbrev worker_json : Worker → Json
worker_json w = object (
    entry "capacity" (natural w.capacity) (
      entry "heartbeat_ms" (natural w.heartbeat_ms) (
        entry "active_tokens" (array (items text (sort text_le w.active_tokens)))
          (entry "dropped" (boolean w.dropped) end))))

abbrev lease_json : Lease → Json
lease_json l = object (
    entry "workflow_id" (text l.workflow_id) (
      entry "task_id" (text l.task_id) (
        entry "worker_id" (text l.worker_id) (
          entry "attempt" (natural l.attempt) (
            entry "expires_ms" (natural l.expires_ms) (entry "started" (boolean l.started) end))))))

unfoldable pub snapshot : Model → Json
snapshot m = object (
    entry "now_ms" (natural m.now_ms) (
      entry "workflow_count" (natural (length m.workflows)) (
        entry "worker_count" (natural (length m.workers)) (
          entry "lease_count" (natural (length m.leases)) (
            entry "closed_lease_count" (natural (length m.closed_leases)) (
              entry "event_count" (natural (length m.events)) (
                entry "rejections" (object (entries natural m.rejections)) (
                  entry "workflows" (object (entries workflow_json m.workflows)) (
                    entry "workers" (object (entries worker_json m.workers))
                      (entry "leases" (object (entries lease_json m.leases)) end))))))))))

unfoldable pub digest_of : (Codes → String) → Model → String
unfolding snapshot dumps
digest_of sha256 m = sha256 (dumps compact (snapshot m))

-- `Event.as_dict`
abbrev pub event_json : Event → Json
event_json e = object (
    entry "id" (natural e.sequence) (
      entry "type" (text e.kind) (
        entry "at_ms" (natural e.at_ms) (
          entry "workflow_id" (text e.workflow_id) (
            entry "task_id" (text e.task_id) (
              entry "worker_id" (text e.worker_id)
                (entry "data" (object (entries text e.payload)) end)))))))

event_lines : List Event → Codes
event_lines [] = []
event_lines (e ∷ es) = dumps spaced (event_json e) ++ b'\n' ∷ event_lines es

unfoldable pub event_jsonl : Model → Codes
unfolding event_lines dumps
event_jsonl m = event_lines m.events

abbrev pub kind_name : ActionKind → String
kind_name ActionKind.register_worker = "register_worker"
kind_name ActionKind.heartbeat = "heartbeat"
kind_name ActionKind.lease = "lease"
kind_name ActionKind.start = "start"
kind_name ActionKind.renew = "renew"
kind_name ActionKind.log = "log"
kind_name ActionKind.complete_success = "complete_success"
kind_name ActionKind.complete_failure = "complete_failure"
kind_name ActionKind.advance_time = "advance_time"
kind_name ActionKind.sweep = "sweep"
kind_name ActionKind.cancel_workflow = "cancel_workflow"
kind_name ActionKind.drop_worker = "drop_worker"
kind_name ActionKind.stale_complete = "stale_complete"
kind_name ActionKind.stale_renew = "stale_renew"
kind_name ActionKind.duplicate_complete = "duplicate_complete"

-- `Action.as_dict`
abbrev pub action_json : Action → Json
action_json a = object (
    entry "kind" (text (kind_name a.kind)) (
      entry "workflow_id" (text a.workflow_id) (
        entry "task_id" (text a.task_id) (
          entry "worker_id" (text a.worker_id) (
            entry "token" (text a.token)
              (entry "amount" (number a.amount) (entry "text" (text a.text) end)))))))

-- `Model.terminal`
unfoldable pub all_terminal : Model → Bool
all_terminal m =
    not (length m.workflows == 0) && all (λ w. workflow_terminal w.state) (values m.workflows)

abbrev ready_in : Dict Task → List String → List String
ready_in tasks [] = []
ready_in tasks (id ∷ order) = elim (lookup id tasks) [
  | none ↦ ready_in tasks order
  | some t ↦
      if same_state t.state TaskState.ready then id ∷ ready_in tasks order else ready_in tasks order
]

abbrev under : String → List String → List (String × String)
under w [] = []
under w (t ∷ ts) = (w, t) ∷ under w ts

abbrev pair_le : String × String → String × String → Bool
pair_le (w, t) (v, s) = text_lt w v || (text_eq w v && text_le t s)

runnable_in : List Workflow → List (String × String)
runnable_in [] = []
runnable_in (w ∷ ws) = under w.id (ready_in w.tasks w.order) ++ runnable_in ws

-- A stored workflow has a task for each id of its order, so no look-up of the code raises.
unfoldable pub runnable_tasks : Model → List (String × String)
unfolding runnable_in
runnable_tasks m = sort pair_le (runnable_in (values m.workflows))

unfoldable pub active_lease_tokens : Model → List String
active_lease_tokens m = sort text_le (keys m.leases)

unfoldable pub closed_lease_tokens : Model → List String
closed_lease_tokens m = sort text_le (keys m.closed_leases)

abbrev worker_names : Bool → List Worker → List String
worker_names include_dropped [] = []
worker_names include_dropped (w ∷ ws) =
    if include_dropped || not w.dropped
    then w.id ∷ worker_names include_dropped ws
    else worker_names include_dropped ws

unfoldable pub worker_ids : Bool → Model → List String
worker_ids include_dropped m = sort text_le (worker_names include_dropped (values m.workers))

unfoldable pub workflow_ids : Model → List String
workflow_ids m = sort text_le (keys m.workflows)

count_tasks : List Task → Dict ℕ → Dict ℕ
count_tasks [] counts = counts
count_tasks (t ∷ ts) counts = count_tasks ts (count_up ("task." & state_name t.state) counts)

count_workflows : List Workflow → Dict ℕ → Dict ℕ
unfolding count_tasks
count_workflows [] counts = counts
count_workflows (w ∷ ws) counts =
    count_workflows ws
      (count_tasks (values w.tasks) (count_up ("workflow." & workflow_state_name w.state) counts))

abbrev pub count_le : String × ℕ → String × ℕ → Bool
count_le (j, a) (k, b) = text_le j k

unfoldable pub state_counts : Model → Dict ℕ
unfolding count_workflows
state_counts m = sort count_le (count_workflows (values m.workflows) [])
