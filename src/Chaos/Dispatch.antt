-- ===== src/Chaos/Dispatch.antt =====
-- `lease_next` and `apply` of tools/chaos_lab/model.py.
use helix_grid.Prelude.{
  ℕ, suc, ◌+◌, ◌-◌, String, or_text, mem_text, text_eq, text_lt, decimal, ltb, leb, ◌==◌, Bool,
  true, false, not, ◌&&◌, ◌||◌, List, [], ◌∷◌, ◌++◌, Option, none, some, if◌then◌else◌, length,
}
use helix_grid.Prelude.Int.{ℤ, pos, max_ℕ}
use helix_grid.Prelude.Dict.{Dict, insert, keys}
use helix_grid.Prelude.Sorting.{sort}
use helix_grid.Prelude.Exec.{pure, gets, modify, ◌>>=◌, ◌>>◌}
use helix_grid.Chaos.Types.{
  TaskState, WorkflowState, ActionKind, Action, Task, Workflow, Worker, Lease, same_state,
  same_workflow_state,
}
use helix_grid.Chaos.State.{
  Act, emit, reject, next_id, require_worker, require_workflow, require_task, set_task, set_worker,
}
use helix_grid.Chaos.Tasks.{transition_task, recompute, labels_match}
use helix_grid.Chaos.Leases.{sweep}
use helix_grid.Chaos.Handlers.{
  start, renew, append_log, complete_success, complete_failure, stale_complete, stale_renew,
  duplicate_complete,
}
use helix_grid.Chaos.Admin.{register_worker, heartbeat, drop_worker, cancel_workflow, advance}

-- `(created_ms, workflow.id, f"{index:08d}:{task_id}")`: the text with its zero-padded index orders
-- by the index, up to a hundred million tasks.
pub record Candidate : Type 0 where
  pub created_ms : ℕ
  pub workflow_id : String
  pub index : ℕ
  pub task_id : String

abbrev pub candidate_le : Candidate → Candidate → Bool
candidate_le a b =
    ltb a.created_ms b.created_ms
    || (a.created_ms == b.created_ms
        && (text_lt a.workflow_id b.workflow_id
            || (text_eq a.workflow_id b.workflow_id && leb a.index b.index)))

-- The inner `for` loop, from position `index` of the order on
unfoldable pub scan_tasks : Dict String → Workflow → ℕ → List String → Act (List Candidate)
scan_tasks labels workflow index [] = pure []
scan_tasks labels workflow index (task_id ∷ order) = do
  task ← require_task workflow.id task_id
  rest ← scan_tasks labels workflow (suc index) order
  if same_state task.state TaskState.ready && labels_match labels task.labels
      then pure (
          record {
            created_ms = workflow.created_ms;
            workflow_id = workflow.id;
            index = index;
            task_id = task_id;
          }
          ∷ rest)
      else pure rest

abbrev pub is_open : WorkflowState → Bool
is_open s =
    same_workflow_state s WorkflowState.pending || same_workflow_state s WorkflowState.running

unfoldable pub scan_workflow : Dict String → String → Act (List Candidate)
scan_workflow labels workflow_id = do
  workflow ← require_workflow workflow_id
  if not (is_open workflow.state)
      then pure []
      else do recompute workflow.id; scan_tasks labels workflow 0 workflow.order

-- The outer `for` loop over the workflows
unfoldable pub scan_workflows : Dict String → List String → Act (List Candidate)
scan_workflows labels [] = pure []
scan_workflows labels (workflow_id ∷ ids) = do
  found ← scan_workflow labels workflow_id
  rest ← scan_workflows labels ids
  pure (found ++ rest)

-- `active_tokens.add(token)`
abbrev pub add_token : String → Worker → Worker
add_token token w = record w {
  active_tokens =
      if mem_text token w.active_tokens then w.active_tokens else token ∷ w.active_tokens;
}

abbrev pub assigned : String → String → ℕ → Task → Task
assigned token owner until x = record x {
  lease_token = token;
  lease_owner = owner;
  lease_until_ms = some until;
  next_retry_ms = none;
}

abbrev pub new_lease : String → Candidate → Worker → ℕ → ℕ → ℕ → Lease
new_lease token c worker attempt now until = record {
  token = token;
  workflow_id = c.workflow_id;
  task_id = c.task_id;
  worker_id = worker.id;
  attempt = attempt;
  acquired_ms = now;
  expires_ms = until;
  started = false;
  closed = false;
}

-- `self.leases[token] = lease`
unfoldable pub store_lease : Lease → Act Unit
store_lease lease = modify (λ m. record m { leases = insert lease.token lease m.leases })

-- The lease for a task that has become LEASED
unfoldable pub issue : String → Worker → Candidate → String → Act Lease
issue worker_id worker c token = do
  now ← gets (λ m. m.now_ms)
  until ← gets (λ m. m.now_ms + m.lease_duration_ms)
  set_task c.workflow_id c.task_id (assigned token worker.id until)
  task ← require_task c.workflow_id c.task_id
  let lease = new_lease token c worker task.attempt now until
  store_lease lease
  set_worker worker_id (add_token token)
  emit "task.leased" c.workflow_id c.task_id worker.id
      (("attempt", decimal task.attempt) ∷ ("token", token) ∷ [])
  pure lease

-- What `lease_next` does with the candidate that comes first
unfoldable pub grant : (String → String) → String → Worker → Candidate → Act Lease
grant digest worker_id worker c = do
  token ← next_id digest "lease"
  set_task c.workflow_id c.task_id (λ x. record x { attempt = suc x.attempt })
  transition_task c.workflow_id c.task_id TaskState.leased
  issue worker_id worker c token

abbrev pub grant_first : (String → String) → String → Worker → List Candidate → Act (Option Lease)
grant_first digest worker_id worker [] = pure none
grant_first digest worker_id worker (c ∷ cs) = do
  lease ← grant digest worker_id worker c
  pure (some lease)

unfoldable pub lease_next : (String → String) → String → Act (Option Lease)
lease_next digest worker_id = do
  sweep
  worker ← require_worker worker_id
  now ← gets (λ m. m.now_ms)
  ttl ← gets (λ m. m.worker_ttl_ms)
  if worker.dropped
      then reject "worker_dropped" "worker has been dropped"
      else if ltb ttl (now - worker.heartbeat_ms)
      then reject "worker_expired" "worker heartbeat expired"
      else if leb worker.capacity (length worker.active_tokens)
      then pure none
      else do
        ids ← gets (λ m. keys m.workflows)
        candidates ← scan_workflows worker.labels ids
        grant_first digest worker_id worker (sort candidate_le candidates)

-- `action.amount or 1`, under `max(1, …)`
abbrev pub at_least_one : ℤ → ℕ
at_least_one amount = max_ℕ 1 amount

abbrev pub ignore : {A : Type 0} → Act A → Act Unit
ignore m = m >>= λ _. pure tt

-- `apply`; what the operation returns is not used by its callers in a scenario
unfoldable pub apply_kind : (String → String) → ActionKind → Action → Act Unit
apply_kind digest kind a = elim kind [
  | ActionKind.register_worker ↦ ignore (
      register_worker digest (or_text a.text (or_text a.worker_id "worker"))
        (pos (at_least_one a.amount)) [] a.worker_id)
  | ActionKind.heartbeat ↦ ignore (heartbeat a.worker_id)
  | ActionKind.lease ↦ ignore (lease_next digest a.worker_id)
  | ActionKind.start ↦ ignore (start a.token)
  | ActionKind.renew ↦ ignore (renew a.token)
  | ActionKind.log ↦ append_log a.token (or_text a.text "log\n") "stdout"
  | ActionKind.complete_success ↦ ignore (complete_success a.token)
  | ActionKind.complete_failure ↦
      ignore (complete_failure a.token (pos (at_least_one a.amount)) (or_text a.text "failure"))
  | ActionKind.advance_time ↦ advance (pos (max_ℕ 0 a.amount)) true
  | ActionKind.sweep ↦ sweep
  | ActionKind.cancel_workflow ↦ ignore (cancel_workflow a.workflow_id)
  | ActionKind.drop_worker ↦ drop_worker a.worker_id
  | ActionKind.stale_complete ↦ stale_complete a.token
  | ActionKind.stale_renew ↦ stale_renew a.token
  | ActionKind.duplicate_complete ↦ duplicate_complete a.token
]

unfoldable pub apply : (String → String) → Action → Act Unit
unfolding apply_kind
apply digest a = apply_kind digest a.kind a
