-- ===== src/Chaos/Examples.antt =====
-- Witnesses: the theorems on the model of tools/chaos_lab/model.py at concrete inputs.
use helix_grid.Prelude.{◌≤◌, ◌*◌, ◌^◌, min, ◌≡◌, ◌≢◌, some, none, arith}
use helix_grid.Chaos.Types.{default_retry}
use helix_grid.Chaos.Policy.{delay_for_attempt}
use helix_grid.Chaos.Policy.Closed.{delay_for_attempt-eq, delay_for_attempt_bounds}
use helix_grid.Chaos.Checks.{
  check_dependency_safety, check_event_sequence, check_worker_capacity, check_lease_bijection,
}
use helix_grid.Chaos.Session.{replay}
use helix_grid.Chaos.Invariants.{Holds}
use helix_grid.Chaos.Invariants.Tasks.{IsSound, replay-IsSound}
use helix_grid.Chaos.Invariants.Events.{IsLogged, replay-IsLogged}
use helix_grid.Chaos.Invariants.Workers.{IsStaffed, replay-IsStaffed}
use helix_grid.Chaos.Invariants.Progress.{Later}
use helix_grid.Chaos.Invariants.Progress.Calls.{replay-Later}
use helix_grid.Prelude.Int.{pos}
use helix_grid.Chaos.State.{Model}
use helix_grid.Chaos.Handlers.{
  start, renew, append_log, complete, stale_complete, stale_renew, duplicate_complete,
}
use helix_grid.Chaos.Handlers.Late.{refused}
use helix_grid.Chaos.Invariants.Leases.Once.{complete_once}
use helix_grid.Chaos.Invariants.Safety.{IsSafe, replay-IsSafe}
use helix_grid.Chaos.Samples.{
  digest, start_model, first_steps, afterwards, at_work, at_work-IsFiled, completes, used_up,
}

delay_for_attempt-eq_example : delay_for_attempt default_retry 4 ≡ min 30_000 (250 * 2 ^ 3)
delay_for_attempt-eq_example = delay_for_attempt-eq default_retry 4

delay_for_attempt_bounds_example :
    (250 ≤ delay_for_attempt default_retry 2)
    × (delay_for_attempt default_retry 9 ≤ 30_000)
    × (delay_for_attempt default_retry 2 ≤ delay_for_attempt default_retry 9)
delay_for_attempt_bounds_example = delay_for_attempt_bounds default_retry 2 9 (omega arith)

replay-IsSound_example : Holds IsSound (replay digest first_steps start_model)
replay-IsSound_example = replay-IsSound digest first_steps start_model tt

replay-IsSafe_example :
    let n = replay digest first_steps start_model in IsSafe n × (check_dependency_safety n ≡ none)
replay-IsSafe_example = replay-IsSafe digest first_steps start_model tt

replay-IsLogged_example :
    let n = replay digest first_steps start_model in IsLogged n × (check_event_sequence n ≡ none)
replay-IsLogged_example = replay-IsLogged digest first_steps start_model (omega arith)

replay-IsStaffed_example :
    let n = replay digest first_steps start_model in
    IsStaffed n
    × (check_worker_capacity n ≢ some "WORKER_CAPACITY")
    × (check_lease_bijection n ≢ some "ACTIVE_CLOSED_LEASE")
    × (check_lease_bijection n ≢ some "LEASE_DURATION")
replay-IsStaffed_example =
    replay-IsStaffed digest first_steps start_model
      (record { duration_positive = omega arith; capacities = tt; active = tt; ended = tt })

replay-Later_example : Later start_model (replay digest first_steps start_model)
replay-Later_example = replay-Later digest first_steps start_model

abbrev finished : Model
finished = replay digest afterwards (complete "lease_lease:1:0" (pos 0) "" at_work).1

complete_once_example :
    (start "lease_lease:1:0" finished ≡ refused "stale_lease" "lease is already closed" finished)
    × (renew "lease_lease:1:0" finished ≡ refused "stale_lease" "lease is already closed" finished)
    × (append_log "lease_lease:1:0" "late" "stdout" finished
        ≡ refused "stale_lease" "lease is already closed" finished)
    × (complete "lease_lease:1:0" (pos 1) "late" finished
        ≡ refused "stale_lease" "lease is already closed" finished)
    × (stale_complete "lease_lease:1:0" finished
        ≡ refused "stale_lease" "completion for closed lease rejected" finished)
    × (stale_renew "lease_lease:1:0" finished
        ≡ refused "stale_lease" "renewal for closed lease rejected" finished)
    × (duplicate_complete "lease_lease:1:0" finished
        ≡ refused "duplicate_completion" "completion already applied" finished)
complete_once_example =
    complete_once digest afterwards "lease_lease:1:0" (pos 0) (pos 1) "" "late" "late" "stdout"
      at_work at_work-IsFiled completes.1 used_up
