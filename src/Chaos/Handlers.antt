-- ===== src/Chaos/Handlers.antt =====
-- The operations on a lease of tools/chaos_lab/model.py: `start`, `renew`, `append_log`,
-- `complete_success`, `complete_failure`, `complete`, `stale_complete`, `stale_renew` and
-- `duplicate_complete`.
pub mod Late
use helix_grid.Prelude.{
  ◌+◌, String, ◌&◌, len, text_eq, is_empty, decimal, ltb, Bool, true, not, ◌&&◌, ◌||◌, [], ◌∷◌,
  some, if◌then◌else◌,
}
use helix_grid.Prelude.Int.{ℤ, pos, is_zero, decimal_ℤ, max_ℕ}
use helix_grid.Prelude.Dict.{contains}
use helix_grid.Prelude.Exec.{pure, gets, ◌>>=◌, ◌>>◌}
use helix_grid.Chaos.Types.{TaskState, Task, Workflow, Lease, same_state, state_name}
use helix_grid.Chaos.Policy.{normalized, delay_for_attempt}
use helix_grid.Chaos.State.{Act, emit, reject, require_workflow, set_task, set_lease}
use helix_grid.Chaos.Tasks.{transition_task, recompute}
use helix_grid.Chaos.Leases.{resolve_lease, close_lease, ensure_live_lease, require_active_lease}

-- The lease under `token`, checked to be live, with the task that it is about
unfoldable pub live_lease : String → Act (Lease × Task)
live_lease token = do
  lease ← require_active_lease token
  ensure_live_lease lease
  (workflow, task, worker) ← resolve_lease lease
  pure (lease, task)

-- The move from LEASED to RUNNING that `start` and `complete` share
unfoldable pub begin_run : Lease → Act Unit
begin_run lease = do
  transition_task lease.workflow_id lease.task_id TaskState.running
  now ← gets (λ m. m.now_ms)
  set_task lease.workflow_id lease.task_id (λ x. record x { started_ms = some now })
  set_lease lease.token (λ l. record l { started = true })

unfoldable pub start : String → Act Lease
start token = do
  (lease, task) ← live_lease token
  if not (text_eq task.lease_token token)
      then reject "stale_lease" "task no longer owns lease"
      else if same_state task.state TaskState.leased
      then (do
        begin_run lease
        emit "task.started" lease.workflow_id lease.task_id lease.worker_id []
        pure (record lease { started = true }))
      else if not (same_state task.state TaskState.running)
      then reject "invalid_start_state" ("cannot start task in " & state_name task.state)
      else pure lease

unfoldable pub renew : String → Act Lease
renew token = do
  (lease, task) ← live_lease token
  if not (text_eq task.lease_token token)
      then reject "stale_lease" "task no longer owns lease"
      else do
        until ← gets (λ m. m.now_ms + m.lease_duration_ms)
        set_lease token (λ l. record l { expires_ms = until })
        set_task lease.workflow_id lease.task_id (λ x. record x { lease_until_ms = some until })
        pure (record lease { expires_ms = until })

unfoldable pub append_log : String → String → String → Act Unit
append_log token text stream = do
  (lease, task) ← live_lease token
  let size = len text
  limit ← gets (λ m. m.output_limit_bytes)
  chunk ← gets (λ m. m.log_chunk_limit_bytes)
  if not (text_eq stream "stdout" || text_eq stream "stderr")
      then reject "invalid_stream" "stream must be stdout or stderr"
      else if ltb chunk size
      then reject "log_chunk_too_large" "log chunk exceeds limit"
      else if ltb limit (task.output_bytes + size)
      then reject "task_output_limit" "task output exceeds limit"
      else do
        set_task lease.workflow_id lease.task_id
            (λ x. record x { output_bytes = x.output_bytes + size })
        emit "task.log" lease.workflow_id lease.task_id lease.worker_id
            (("stream", stream) ∷ ("text", text) ∷ [])

abbrev pub is_success : ℤ → String → Bool
is_success exit_code error = is_zero exit_code && is_empty error

unfoldable pub finish_retry : Lease → Task → Act Unit
finish_retry lease task = do
  transition_task lease.workflow_id lease.task_id TaskState.retry_wait
  now ← gets (λ m. m.now_ms)
  let due = now + delay_for_attempt task.retry task.attempt
  set_task lease.workflow_id lease.task_id (λ x. record x { next_retry_ms = some due })
  emit "task.retry" lease.workflow_id lease.task_id lease.worker_id
      (("next_retry_ms", decimal due) ∷ [])

unfoldable pub finish_failed : Lease → ℤ → String → Act Unit
finish_failed lease exit_code error = do
  transition_task lease.workflow_id lease.task_id TaskState.failed
  emit "task.failed" lease.workflow_id lease.task_id lease.worker_id
      (("exit_code", decimal_ℤ exit_code) ∷ ("error", error) ∷ [])

unfoldable pub finish_succeeded : Lease → Act Unit
finish_succeeded lease = do
  transition_task lease.workflow_id lease.task_id TaskState.succeeded
  emit "task.succeeded" lease.workflow_id lease.task_id lease.worker_id []

-- The outcome of a finished attempt, by its exit code, its error and the attempts left
unfoldable pub conclude : Lease → Task → ℤ → String → Act Unit
conclude lease task exit_code error =
    if is_success exit_code error
    then finish_succeeded lease
    else if ltb task.attempt (max_ℕ 0 (normalized task.retry).max_attempts)
    then finish_retry lease task
    else finish_failed lease exit_code error

-- `complete` on a running task
unfoldable pub complete_running : Lease → Task → ℤ → String → Act Workflow
complete_running lease task exit_code error = do
  now ← gets (λ m. m.now_ms)
  set_task lease.workflow_id lease.task_id
      (λ x. record x { finished_ms = some now; exit_code = some exit_code; error = error })
  close_lease lease
  conclude lease task exit_code error
  recompute lease.workflow_id
  require_workflow lease.workflow_id

unfoldable pub complete : String → ℤ → String → Act Workflow
complete token exit_code error = do
  (lease, task) ← live_lease token
  if not (text_eq task.lease_token token)
      then reject "stale_lease" "task no longer owns lease"
      else if same_state task.state TaskState.leased
      then (do
        begin_run lease
        complete_running (record lease { started = true }) task exit_code error)
      else if not (same_state task.state TaskState.running)
      then reject "invalid_complete_state" ("cannot complete task in " & state_name task.state)
      else complete_running lease task exit_code error

unfoldable pub complete_success : String → Act Workflow
complete_success token = complete token (pos 0) ""

unfoldable pub complete_failure : String → ℤ → String → Act Workflow
complete_failure token exit_code error =
    complete token (if is_success exit_code error then pos 1 else exit_code) error

-- `stale_complete`, `stale_renew` and `duplicate_complete` differ in two texts.
unfoldable pub refuse_closed : String → String → String → String → Act Unit
refuse_closed active_code code message token = do
  active ← gets (λ m. contains token m.leases)
  closed ← gets (λ m. contains token m.closed_leases)
  if active
      then reject active_code "lease is still active"
      else if not closed
      then reject "unknown_lease" "lease token does not exist"
      else reject code message

unfoldable pub stale_complete : String → Act Unit
stale_complete = refuse_closed "not_stale" "stale_lease" "completion for closed lease rejected"

unfoldable pub stale_renew : String → Act Unit
stale_renew = refuse_closed "not_stale" "stale_lease" "renewal for closed lease rejected"

unfoldable pub duplicate_complete : String → Act Unit
duplicate_complete =
    refuse_closed "not_completed" "duplicate_completion" "completion already applied"
