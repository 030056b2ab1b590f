-- ===== src/Chaos/Checks.antt =====
-- `check_invariants` of tools/chaos_lab/model.py, check by check. A check answers with the code of
-- the first violation it meets; the violation's message and snapshot are left out.
pub mod Reports
use helix_grid.Prelude.{
  ℕ, suc, String, text_eq, mem_text, is_empty, ltb, leb, ◌==◌, Bool, true, false, not, ◌&&◌, ◌||◌,
  List, [], ◌∷◌, Option, none, some, if◌then◌else◌, length, any, all, is_some,
}
use helix_grid.Prelude.Int.{max_ℕ}
use helix_grid.Prelude.Dict.{Dict, lookup, values}
use helix_grid.Chaos.Types.{
  TaskState, WorkflowState, Task, Workflow, Worker, Lease, Event, same_state, same_workflow_state,
  workflow_terminal, terminal, one_of,
}
use helix_grid.Chaos.State.{Model}
use helix_grid.Chaos.Tasks.{task_states}
use helix_grid.Chaos.Leases.{is_held}

-- A check passes by `none`, and else gives the code of its violation.
abbrev pub Violation : Type 0
Violation = Option String

abbrev pub and_then : Violation → Violation → Violation
and_then none next = next
and_then (some code) next = some code

abbrev pub unless : Bool → String → Violation
unless true code = none
unless false code = some code

-- The first violation among the values of a dictionary
unfoldable pub check_all {ℓ} : {V : Type ℓ} → (V → Violation) → Dict V → Violation
check_all check [] = none
check_all check ((k, v) ∷ d) = and_then (check v) (check_all check d)

-- A check of each task of each workflow
unfoldable pub check_tasks : (Workflow → Task → Violation) → Model → Violation
check_tasks check m = check_all (λ w. check_all (check w) w.tasks) m.workflows

abbrev pub in_order : Option ℕ → ℕ → Bool
in_order none at = true
in_order (some before) at = leb before at

unfoldable pub check_events : ℕ → Option ℕ → List Event → Violation
check_events index before [] = none
check_events index before (e ∷ events) =
    let rest = check_events (suc index) (some e.at_ms) events in
    and_then (unless (e.sequence == index) "EVENT_SEQUENCE")
      (and_then (unless (in_order before e.at_ms) "EVENT_TIME") rest)

unfoldable pub check_event_sequence : Model → Violation
check_event_sequence m = check_events 1 none m.events

abbrev pub check_token : Dict Lease → Worker → String → Violation
check_token leases w token = elim (lookup token leases) [
  | none ↦ some "WORKER_GHOST_LEASE"
  | some lease ↦ unless (text_eq lease.worker_id w.id) "WORKER_LEASE_OWNER"
]

unfoldable pub check_tokens : Dict Lease → Worker → List String → Violation
check_tokens leases w [] = none
check_tokens leases w (token ∷ tokens) =
    and_then (check_token leases w token) (check_tokens leases w tokens)

unfoldable pub check_worker : Dict Lease → Worker → Violation
check_worker leases w =
    and_then (unless (leb (length w.active_tokens) w.capacity) "WORKER_CAPACITY")
      (check_tokens leases w w.active_tokens)

unfoldable pub check_worker_capacity : Model → Violation
check_worker_capacity m = check_all (check_worker m.leases) m.workers

abbrev pub tracked : String → Option Worker → Bool
tracked token none = false
tracked token (some w) = mem_text token w.active_tokens

abbrev pub mem_key : String × String → List (String × String) → Bool
mem_key key [] = false
mem_key (w, t) ((v, s) ∷ keys) = (text_eq w v && text_eq t s) || mem_key (w, t) keys

unfoldable pub check_lease : Dict Worker → List (String × String) → String → Lease → Violation
check_lease workers seen token l = and_then (unless (text_eq token l.token) "LEASE_KEY") (
    and_then (unless (not (mem_key (l.workflow_id, l.task_id) seen)) "OVERLAPPING_LEASE") (
      and_then (unless (not l.closed) "ACTIVE_CLOSED_LEASE") (
        and_then (unless (ltb l.acquired_ms l.expires_ms) "LEASE_DURATION")
          (unless (tracked token (lookup l.worker_id workers)) "LEASE_WORKER_INDEX"))))

unfoldable pub check_leases : Dict Worker → List (String × String) → Dict Lease → Violation
check_leases workers seen [] = none
check_leases workers seen ((token, l) ∷ leases) =
    and_then (check_lease workers seen token l)
      (check_leases workers ((l.workflow_id, l.task_id) ∷ seen) leases)

unfoldable pub check_lease_bijection : Model → Violation
check_lease_bijection m = check_leases m.workers [] m.leases

abbrev pub same_time : Option ℕ → ℕ → Bool
same_time none t = false
same_time (some s) t = s == t

abbrev pub check_target : Workflow → Task → Option Lease → Violation
check_target w t none = some "ACTIVE_TASK_UNKNOWN_LEASE"
check_target w t (some l) =
    and_then (unless (text_eq l.workflow_id w.id && text_eq l.task_id t.id) "TASK_LEASE_TARGET") (
      and_then (unless (text_eq t.lease_owner l.worker_id) "TASK_LEASE_OWNER")
        (unless (same_time t.lease_until_ms l.expires_ms) "TASK_LEASE_EXPIRY"))

unfoldable pub check_lease_fields : Dict Lease → Workflow → Task → Violation
check_lease_fields leases w t =
    if is_held t.state
    then and_then (unless (not (is_empty t.lease_token)) "ACTIVE_TASK_NO_LEASE")
        (check_target w t (lookup t.lease_token leases))
    else unless
        (is_empty t.lease_token && (is_empty t.lease_owner && not (is_some t.lease_until_ms)))
        "INACTIVE_TASK_HAS_LEASE"

unfoldable pub check_task_lease_fields : Model → Violation
check_task_lease_fields m = check_tasks (check_lease_fields m.leases) m

abbrev pub has_succeeded : Option Task → Bool
has_succeeded none = false
has_succeeded (some t) = same_state t.state TaskState.succeeded

-- A task past PENDING that is not over by failure or cancellation
abbrev pub needs_dependencies : TaskState → Bool
needs_dependencies s = one_of s (
    TaskState.ready ∷ TaskState.leased ∷ TaskState.running ∷ TaskState.succeeded
    ∷ TaskState.retry_wait ∷ [])

-- A dependency that the workflow lacks raises a `KeyError` in the code; here it is a violation.
unfoldable pub check_dependencies : Workflow → Task → Violation
check_dependencies w t =
    if needs_dependencies t.state
    then unless (all (λ d. has_succeeded (lookup d w.tasks)) t.depends_on) "DEPENDENCY_SAFETY"
    else none

unfoldable pub check_dependency_safety : Model → Violation
check_dependency_safety m = check_tasks check_dependencies m

unfoldable pub check_workflow_end : Dict Lease → Workflow → Violation
check_workflow_end leases w =
    let states = task_states w.tasks in
    and_then
      (unless
        (not (same_workflow_state w.state WorkflowState.succeeded)
          || all (λ s. same_state s TaskState.succeeded) states)
        "WORKFLOW_FALSE_SUCCESS")
      (and_then
        (if same_workflow_state w.state WorkflowState.cancelled
          then and_then (unless (all terminal states) "WORKFLOW_CANCEL_ACTIVE") (
              unless (not (any (λ l. text_eq l.workflow_id w.id) (values leases)))
                "WORKFLOW_CANCEL_LEASE")
          else none)
        (if workflow_terminal w.state
          then unless (is_some w.finished_ms) "WORKFLOW_TERMINAL_TIME"
          else unless (not (is_some w.finished_ms)) "WORKFLOW_ACTIVE_FINISHED"))

unfoldable pub check_terminal_workflows : Model → Violation
check_terminal_workflows m = check_all (check_workflow_end m.leases) m.workflows

-- A number of attempts is never negative here.
unfoldable pub check_attempt : Workflow → Task → Violation
check_attempt w t =
    and_then (unless (leb t.attempt (max_ℕ 0 t.retry.max_attempts)) "ATTEMPT_BUDGET") (
      and_then
        (unless (not (same_state t.state TaskState.pending) || t.attempt == 0) "PENDING_ATTEMPT")
        (unless (not (is_held t.state) || leb 1 t.attempt) "ACTIVE_ATTEMPT"))

unfoldable pub check_attempts : Model → Violation
check_attempts m = check_tasks check_attempt m

unfoldable pub check_retry_time : Workflow → Task → Violation
check_retry_time w t =
    if same_state t.state TaskState.retry_wait
    then unless (is_some t.next_retry_ms) "RETRY_TIME"
    else unless (not (is_some t.next_retry_ms)) "STALE_RETRY_TIME"

unfoldable pub check_retry_times : Model → Violation
check_retry_times m = check_tasks check_retry_time m

-- `first is None or first <= last`, with `last` a number or `None`
abbrev pub time_le : Option ℕ → Option ℕ → Bool
time_le (some a) (some b) = leb a b
time_le _ _ = true

unfoldable pub check_task_times : ℕ → Task → Violation
check_task_times now t = and_then (unless (time_le t.started_ms (some now)) "TASK_FUTURE_START") (
    and_then (unless (time_le t.finished_ms (some now)) "TASK_FUTURE_FINISH")
      (unless (time_le t.started_ms t.finished_ms) "TASK_TIME_ORDER"))

unfoldable pub check_workflow_times : ℕ → Workflow → Violation
check_workflow_times now w = and_then (unless (leb w.created_ms now) "WORKFLOW_FUTURE_CREATED") (
    and_then (unless (time_le (some w.created_ms) w.finished_ms) "WORKFLOW_TIME_ORDER")
      (check_all (check_task_times now) w.tasks))

unfoldable pub check_timestamps : Model → Violation
check_timestamps m = check_all (check_workflow_times m.now_ms) m.workflows

-- A number of bytes is never negative here.
unfoldable pub check_output : ℕ → Workflow → Task → Violation
check_output limit w t = unless (leb t.output_bytes limit) "OUTPUT_LIMIT"

unfoldable pub check_output_limits : Model → Violation
check_output_limits m = check_tasks (check_output m.output_limit_bytes) m

unfoldable pub check_invariants : Model → Violation
check_invariants m = and_then (check_event_sequence m) (
    and_then (check_worker_capacity m) (
      and_then (check_lease_bijection m) (
        and_then (check_task_lease_fields m) (
          and_then (check_dependency_safety m) (
            and_then (check_terminal_workflows m) (
              and_then (check_attempts m) (
                and_then (check_retry_times m)
                  (and_then (check_timestamps m) (check_output_limits m)))))))))
