-- ===== src/Chaos/Samples.antt =====
-- A small workflow and a scenario for the model of tools/chaos_lab/model.py, run on a digest that
-- keeps its text.
use helix_grid.Prelude.{
  ◌&◌, ◌++◌, sym, ap, ◌∙◌, All, true, arith, map, ℕ, String, ◌≡◌, refl, List, [], ◌∷◌, Option, none,
  some, decimal, length,
}
use helix_grid.Prelude.Int.{pos}
use helix_grid.Prelude.Codes.{Codes, codes, is_digit, number}
use helix_grid.Prelude.Codes.Numbers.{codes-append, decimal-All, number-decimal}
use helix_grid.Chaos.Invariants.Leases.{IsFiled, replay-IsFiled}
use helix_grid.Chaos.Invariants.Leases.Granting.{issued}
use helix_grid.Chaos.Invariants.Leases.Gone.{IsUsedUp}
use helix_grid.Prelude.Dict.{values}
use helix_grid.Prelude.Exec.{ok, ◌>>=◌, for_each}
use helix_grid.Chaos.Types.{TaskState, ActionKind, Action, Task, Workflow, default_retry}
use helix_grid.Chaos.State.{
  Model, init, blank, emit, reject, next_id, require_worker, require_workflow, require_task,
  set_workflow, set_task, set_worker, set_lease, find_task,
}
use helix_grid.Chaos.Policy.{delay_for_attempt}
use helix_grid.Chaos.Tasks.{
  transition_task, labels_match, dependency_states, make_ready, recompute_pending,
  recompute_waiting, recompute_task, settled, settle, recompute,
}
use helix_grid.Chaos.Leases.{
  resolve_lease, retire, close_lease, expire_known, expire_lease, ensure_live_lease, missing_lease,
  require_active_lease, expired, sweep,
}
use helix_grid.Chaos.Handlers.{
  live_lease, begin_run, start, renew, append_log, finish_retry, finish_failed, finish_succeeded,
  conclude, complete_running, complete, complete_success, complete_failure, refuse_closed,
  stale_complete, stale_renew, duplicate_complete,
}
use helix_grid.Chaos.Dag.{
  duplicate_error, dependency_error, dependencies_error, task_ids, indegrees, children, ready_ids,
  release, release_all, kahn, kahn_order, checked_order, validate_dag,
}
use helix_grid.Chaos.Admin.{
  post_init, task_map, store_workflow, add_workflow, store_worker, register_named, register_worker,
  heartbeat, drop_worker, close_if_active, cancel_task, cancel_workflow, tick, advance,
}
use helix_grid.Chaos.Checks.{
  check_all, check_tasks, check_events, check_event_sequence, check_tokens, check_worker,
  check_worker_capacity, check_lease, check_leases, check_lease_bijection, check_lease_fields,
  check_task_lease_fields, check_dependencies, check_dependency_safety, check_workflow_end,
  check_terminal_workflows, check_attempt, check_attempts, check_retry_time, check_retry_times,
  check_task_times, check_workflow_times, check_timestamps, check_output, check_output_limits,
  check_invariants,
}
use helix_grid.Chaos.Session.{Call, load, act, call, replay}
use helix_grid.Chaos.Dispatch.{
  scan_tasks, scan_workflow, scan_workflows, store_lease, issue, grant, lease_next, apply_kind,
  apply,
}

-- Every definition that a run of the model opens
unfoldable pub program : Unit {0}
unfolding ◌>>=◌ for_each decimal init next_id emit reject require_worker require_workflow
    require_task set_workflow set_task set_worker set_lease delay_for_attempt transition_task
    labels_match dependency_states make_ready recompute_pending recompute_waiting recompute_task
    settled settle recompute resolve_lease retire close_lease expire_known expire_lease
    ensure_live_lease missing_lease require_active_lease expired sweep live_lease begin_run start
    renew append_log finish_retry finish_failed finish_succeeded conclude complete_running complete
    complete_success complete_failure refuse_closed stale_complete stale_renew duplicate_complete
    duplicate_error dependency_error dependencies_error task_ids indegrees children ready_ids
    release release_all kahn kahn_order checked_order validate_dag post_init task_map store_workflow
    add_workflow store_worker register_named register_worker heartbeat drop_worker close_if_active
    cancel_task cancel_workflow tick advance scan_tasks scan_workflow scan_workflows store_lease
    issue grant lease_next apply_kind apply replay call check_all check_tasks check_events
    check_event_sequence check_tokens check_worker check_worker_capacity check_lease check_leases
    check_lease_bijection check_lease_fields check_task_lease_fields check_dependencies
    check_dependency_safety check_workflow_end check_terminal_workflows check_attempt check_attempts
    check_retry_time check_retry_times check_task_times check_workflow_times check_timestamps
    check_output check_output_limits check_invariants
program = tt

abbrev pub digest : String → String
digest s = s

abbrev pub task : String → List String → Task
task id deps = record {
  id = id;
  depends_on = deps;
  labels = [];
  retry = default_retry;
  timeout_ms = pos 0;
  state = TaskState.pending;
  attempt = 0;
  lease_token = "";
  lease_owner = "";
  lease_until_ms = none;
  next_retry_ms = none;
  started_ms = none;
  finished_ms = none;
  exit_code = none;
  error = "";
  output_bytes = 0;
  history = [];
}

abbrev pub diamond : List Task
diamond = task "d" ("b" ∷ "c" ∷ []) ∷ task "b" ("a" ∷ []) ∷ task "c" ("a" ∷ []) ∷ task "a" [] ∷ []

pub validate_dag-diamond : validate_dag diamond ≡ ok ("a" ∷ "b" ∷ "c" ∷ "d" ∷ [])
unfolding program
validate_dag-diamond = refl

abbrev pub start_model : Model
start_model = blank 20_000 45_000 100 64

abbrev pub action : ActionKind → String → String → ℕ → String → Action
action kind worker token amount text = record {
  kind = kind;
  workflow_id = "w";
  task_id = "";
  worker_id = worker;
  token = token;
  amount = pos amount;
  text = text;
}

abbrev pub first_steps : List Call
first_steps =
    load "demo" diamond "w" []
    ∷ act (action ActionKind.register_worker "p" "" 1 "")
    ∷ act (action ActionKind.lease "p" "" 0 "")
    ∷ act (action ActionKind.start "" "lease_lease:1:0" 0 "")
    ∷ act (action ActionKind.log "" "lease_lease:1:0" 0 "hi")
    ∷ act (action ActionKind.complete_success "" "lease_lease:1:0" 0 "")
    ∷ act (action ActionKind.lease "p" "" 0 "")
    ∷ []

abbrev pub state_of : String → Model → Option TaskState
state_of id m = elim (find_task "w" id m) [ none ↦ none | some t ↦ some t.state ]

runs :
    let m = replay digest first_steps start_model in
    (state_of "a" m ≡ some TaskState.succeeded)
    × (state_of "b" m ≡ some TaskState.leased)
    × (state_of "c" m ≡ some TaskState.ready)
    × (state_of "d" m ≡ some TaskState.pending)
    × (length m.events ≡ 11)
    × (check_invariants m ≡ none)
unfolding program
runs = (refl, refl, refl, refl, refl, refl)

-- The first task at work, and what may come after its completion.
abbrev pub to_work : List Call
to_work =
    load "demo" diamond "w" []
    ∷ act (action ActionKind.register_worker "p" "" 1 "")
    ∷ act (action ActionKind.lease "p" "" 0 "")
    ∷ act (action ActionKind.start "" "lease_lease:1:0" 0 "")
    ∷ []

abbrev pub afterwards : List Call
afterwards =
    act (action ActionKind.duplicate_complete "" "lease_lease:1:0" 0 "")
    ∷ act (action ActionKind.lease "p" "" 0 "")
    ∷ act (action ActionKind.advance_time "" "" 30_000 "")
    ∷ []

abbrev pub at_work : Model
at_work = replay digest to_work start_model

pub at_work-IsFiled : IsFiled at_work
at_work-IsFiled = replay-IsFiled digest to_work start_model (λ token l h. absurd (cc))

pub completes : (w : Workflow) × ((complete "lease_lease:1:0" (pos 0) "" at_work).0 ≡ ok w)
unfolding program
completes = (_, refl)

completes-counter : (complete "lease_lease:1:0" (pos 0) "" at_work).1.id_counter ≡ 1
unfolding program
completes-counter = refl

lease_codes :
    (count now : ℕ)
    → codes (issued digest "lease" count now)
      ≡ codes "lease_lease:" ++ (codes (decimal count) ++ b':' ∷ codes (decimal now))
lease_codes count now =
    rw
      (
        codes-append "lease" ("_" & "lease" & ":" & decimal count & ":" & decimal now),
        codes-append "_" ("lease" & ":" & decimal count & ":" & decimal now),
        codes-append "lease" (":" & decimal count & ":" & decimal now),
        codes-append ":" (decimal count & ":" & decimal now),
        codes-append (decimal count) (":" & decimal now),
        codes-append ":" (decimal now),
      )
      refl

id_codes :
    (count now : ℕ)
    → issued digest "lease" count now ≡ "lease_lease:1:0"
    → codes (decimal count) ++ b':' ∷ codes (decimal now) ≡ b'1' ∷ b':' ∷ b'0' ∷ []
id_codes count now e =
    let same : codes "lease_lease:" ++ (codes (decimal count) ++ b':' ∷ codes (decimal now))
        ≡ codes "lease_lease:1:0" =
      sym (lease_codes count now) ∙ ap codes e in
    cc same

not_one :
    (s t : Codes)
    → All (λ c. is_digit c ≡ true) s
    → s ++ b':' ∷ t ≡ b'1' ∷ b':' ∷ b'0' ∷ []
    → number s ≡ 1
not_one [] t h e = absurd (ground (arith, e))
not_one (c ∷ []) t h e = ground (arith, e)
not_one (c ∷ d ∷ s) t h e = absurd (ground (arith, e, h))

-- No later lease has the first one's token.
pub used_up :
    let m = (complete "lease_lease:1:0" (pos 0) "" at_work).1 in
    IsUsedUp digest m (replay digest afterwards m) "lease_lease:1:0"
used_up count now more within past e =
    let one = not_one (codes (decimal count)) _ (decimal-All count) (id_codes count now e) in
    omega (arith, completes-counter, more, sym (number-decimal count) ∙ one)

-- A lease that expires leaves its task ready whatever its attempts: the next lease exceeds the
-- budget of one attempt, and the model's own check says so.
abbrev over_budget : List Call
over_budget =
    load "demo" diamond "w" []
    ∷ act (action ActionKind.register_worker "p" "" 1 "")
    ∷ act (action ActionKind.lease "p" "" 0 "")
    ∷ act (action ActionKind.advance_time "" "" 20_000 "")
    ∷ act (action ActionKind.lease "p" "" 0 "")
    ∷ []

over_budget-found : check_invariants (replay digest over_budget start_model) ≡ some "ATTEMPT_BUDGET"
unfolding program
over_budget-found = refl

-- A worker that is dropped and registers again has forgotten the lease that it still holds.
abbrev forgotten : List Call
forgotten =
    load "demo" diamond "w" []
    ∷ act (action ActionKind.register_worker "p" "" 1 "")
    ∷ act (action ActionKind.lease "p" "" 0 "")
    ∷ act (action ActionKind.drop_worker "p" "" 0 "")
    ∷ act (action ActionKind.register_worker "p" "" 1 "")
    ∷ []

forgotten-found : check_invariants (replay digest forgotten start_model) ≡ some "LEASE_WORKER_INDEX"
unfolding program
forgotten-found = refl

-- That worker, of capacity 1, then owns two active leases.
abbrev overfull : List Call
overfull =
    load "demo" (task "a" [] ∷ task "b" [] ∷ []) "w" []
    ∷ act (action ActionKind.register_worker "p" "" 1 "")
    ∷ act (action ActionKind.lease "p" "" 0 "")
    ∷ act (action ActionKind.drop_worker "p" "" 0 "")
    ∷ act (action ActionKind.register_worker "p" "" 1 "")
    ∷ act (action ActionKind.lease "p" "" 0 "")
    ∷ []

overfull-found :
    map (λ l. l.worker_id) (values (replay digest overfull start_model).leases) ≡ "p" ∷ "p" ∷ []
unfolding program
overfull-found = refl
