-- ===== src/Chaos/Leases.antt =====
-- The leases of tools/chaos_lab/model.py: `resolve_lease`, `close_lease`, `expire_lease`,
-- `ensure_live_lease`, `require_active_lease` and `sweep`.
use helix_grid.Prelude.{
  String, text_eq, text_le, ltb, leb, ◌==◌, Bool, true, not, ◌&&◌, ◌||◌, List, [], ◌∷◌, none, some,
  if◌then◌else◌, keep,
}
use helix_grid.Prelude.Dict.{lookup, contains, insert, erase, keys, values}
use helix_grid.Prelude.Sorting.{sort}
use helix_grid.Prelude.Exec.{for_each, pure, raise, gets, modify, some_or, ◌>>=◌, ◌>>◌}
use helix_grid.Chaos.Types.{
  TaskState, model_error, Task, Workflow, Worker, Lease, workflow_terminal, one_of,
}
use helix_grid.Chaos.State.{
  Model, Act, emit, reject, find_task, require_workflow, require_worker, set_task, set_worker,
}
use helix_grid.Chaos.Tasks.{transition_task, recompute}

unfoldable pub resolve_lease : Lease → Act (Workflow × Task × Worker)
resolve_lease lease = do
  workflow ← require_workflow lease.workflow_id
  task ← λ m.
      some_or (find_task lease.workflow_id lease.task_id m)
        (raise (model_error "lease references missing task")) m
  worker ← require_worker lease.worker_id
  pure (workflow, task, worker)

-- `active_tokens.discard(token)`
abbrev pub discard : String → List String → List String
discard token = keep (λ t. not (text_eq t token))

abbrev pub cleared : Task → Task
cleared x = record x { lease_token = ""; lease_owner = ""; lease_until_ms = none }

abbrev pub drop_token : String → Worker → Worker
drop_token token w = record w { active_tokens = discard token w.active_tokens }

-- The lease leaves the active table and enters the closed one.
unfoldable pub retire : Lease → Model → Model
retire lease m = record m {
  leases = erase lease.token m.leases;
  closed_leases = insert lease.token (record lease { closed = true }) m.closed_leases;
}

unfoldable pub close_lease : Lease → Act Unit
close_lease lease = if lease.closed then pure tt else do
  (workflow, task, worker) ← resolve_lease lease
  set_worker lease.worker_id (drop_token lease.token)
  if text_eq task.lease_token lease.token
      then set_task lease.workflow_id lease.task_id cleared
      else pure tt
  modify (retire lease)

abbrev pub forget_run : Task → Task
forget_run x = record x { started_ms = none; finished_ms = none; exit_code = none; error = "" }

abbrev pub is_held : TaskState → Bool
is_held s = one_of s (TaskState.leased ∷ TaskState.running ∷ [])

-- `expire_lease` on a lease that is in the table
unfoldable pub expire_known : Lease → Act Unit
expire_known lease = do
  (workflow, task, worker) ← resolve_lease lease
  close_lease lease
  if is_held task.state && not (workflow_terminal workflow.state)
      then (do
        set_task lease.workflow_id lease.task_id forget_run
        transition_task lease.workflow_id lease.task_id TaskState.ready
        emit "lease.expired" lease.workflow_id lease.task_id worker.id
            (("token", lease.token) ∷ []))
      else pure tt

unfoldable pub expire_lease : String → Act Unit
expire_lease token m = elim (lookup token m.leases) [
  | none ↦ pure tt m
  | some lease ↦
      (if ltb m.now_ms lease.expires_ms
          then raise (model_error "cannot expire live lease")
          else expire_known lease)
        m
]

unfoldable pub ensure_live_lease : Lease → Act Unit
ensure_live_lease lease = do
  now ← gets (λ m. m.now_ms)
  if leb lease.expires_ms now
      then (do expire_lease lease.token; reject "lease_expired" "lease has expired")
      else pure tt

unfoldable pub missing_lease : String → Act Lease
missing_lease token = do
  known ← gets (λ m. contains token m.closed_leases)
  if known
      then reject "stale_lease" "lease is already closed"
      else reject "unknown_lease" "unknown lease token"

unfoldable pub require_active_lease : String → Act Lease
require_active_lease token m = some_or (lookup token m.leases) (missing_lease token) m

-- `key=lambda lease: (lease.expires_ms, lease.token)`
abbrev pub expires_first : Lease → Lease → Bool
expires_first a b =
    ltb a.expires_ms b.expires_ms || (a.expires_ms == b.expires_ms && text_le a.token b.token)

unfoldable pub expired : Model → List Lease
expired m = sort expires_first (keep (λ l. leb l.expires_ms m.now_ms) (values m.leases))

unfoldable pub sweep : Act Unit
sweep = do
  due ← gets expired
  for_each (λ l. expire_lease l.token) due
  names ← gets (λ m. sort text_le (keys m.workflows))
  for_each recompute names
