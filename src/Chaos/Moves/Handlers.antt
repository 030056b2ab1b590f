-- ===== src/Chaos/Moves/Handlers.antt =====
-- The operations on a lease in tools/chaos_lab/model.py change the store by small steps.
use helix_grid.Prelude.{
  ◌+◌, ◌<◌, String, len, text_eq, ltb, ◌≡◌, refl, not, ◌||◌, some, not-ltb→le, arith,
}
use helix_grid.Prelude.Int.{ℤ, pos, max_ℕ}
use helix_grid.Chaos.Policy.{normalized}
use helix_grid.Prelude.Dict.{lookup}
use helix_grid.Prelude.Exec.{ok, ◌>>=◌}
use helix_grid.Prelude.Exec.Respects.{
  Respects, bind_at, bind_gets, if_at, Respects-pure, Respects-gets, Respects-bind, Respects-if,
}
use helix_grid.Chaos.Types.{TaskState, Task, Lease, same_state}
use helix_grid.Chaos.State.{Model, reject, find_task, require_worker, require_workflow}
use helix_grid.Chaos.Leases.{resolve_lease, ensure_live_lease, missing_lease, require_active_lease}
use helix_grid.Chaos.Handlers.{
  live_lease, begin_run, start, renew, append_log, is_success, finish_retry, finish_failed,
  finish_succeeded, conclude, complete_running, complete, complete_success, complete_failure,
  refuse_closed,
}
use helix_grid.Chaos.Moves.{kept, set_now, noted, logged, begun, renewed, Steps}
use helix_grid.Chaos.Moves.Lookups.{found_same}
use helix_grid.Chaos.Moves.Recompute.{
  emit-Respects, require_workflow-Respects, set_task-Respects, transition_task-Respects,
  recompute-Respects,
}
use helix_grid.Chaos.Moves.Leases.{
  reject-Respects, resolve_lease-Respects, close_lease-Respects, ensure_live_lease-Respects,
  require_active_lease-Respects,
}

-- When `live_lease` returns, the store is as it was, the token is active, its lease has time left,
-- and the task is the one in the store.
pub record IsLive (token : String) (m : Model) (lease : Lease) (task : Task) (n : Model)
    : Type 0 where
  pub unchanged : n ≡ m
  pub active : lookup token m.leases ≡ some lease
  pub fresh : m.now_ms < lease.expires_ms
  pub held : find_task lease.workflow_id lease.task_id m ≡ some task

pub live_lease-IsLive :
    (token : String) (m : Model) {lease : Lease} {task : Task}
    → (live_lease token m).0 ≡ ok (lease, task)
    → IsLive token m lease task (live_lease token m).1
unfolding live_lease require_active_lease missing_lease ensure_live_lease resolve_lease
    require_workflow require_worker reject ◌>>=◌
live_lease-IsLive token m h = ground arith

module _ {R : Model → Model → Type 0} (steps : Steps R) where
  open steps use {pre, task_moved, lease_moved}

  live_lease-Respects : (token : String) → Respects R (live_lease token)
  unfolding live_lease
  live_lease-Respects token =
      Respects-bind pre _ _ (require_active_lease-Respects steps token) λ lease.
        Respects-bind pre _ _ (ensure_live_lease-Respects steps lease) (λ _.
          Respects-bind pre _ _ (resolve_lease-Respects steps lease) (λ _. Respects-pure pre _))

  begin_run-Respects : (lease : Lease) → Respects R (begin_run lease)
  unfolding begin_run
  begin_run-Respects lease =
      Respects-bind pre _ _
        (transition_task-Respects steps.flow.tasks _ _ TaskState.running (λ bad. cc) (λ bad. cc))
        λ _. record {
          at = λ m.
              bind_gets pre (λ m. m.now_ms) _ m
                (bind_at pre _ _ m
                  (task_moved _ _ _ m
                    (λ x _. noted _ _ _ _ _ _ _ _ (set_now refl) (kept refl) refl))
                  (λ _ _. lease_moved _ _ _ (λ x _. begun refl)));
        }

  pub start-Respects : (token : String) → Respects R (start token)
  unfolding start
  start-Respects token = Respects-bind pre _ _ (live_lease-Respects token) λ (lease, task).
      Respects-if (not (text_eq task.lease_token token)) _ _ (reject-Respects steps _ _) (
        Respects-if (same_state task.state TaskState.leased) _ _
          (Respects-bind pre _ _ (begin_run-Respects lease) (λ _.
            Respects-bind pre _ _ (emit-Respects steps.flow.tasks _ _ _ _ _)
              (λ _. Respects-pure pre _)))
          (Respects-if (not (same_state task.state TaskState.running)) _ _
            (reject-Respects steps _ _) (Respects-pure pre _)))

  pub renew-Respects : (token : String) → Respects R (renew token)
  unfolding renew
  renew-Respects token = Respects-bind pre _ _ (live_lease-Respects token) λ (lease, task).
      Respects-if (not (text_eq task.lease_token token)) _ _ (reject-Respects steps _ _) record {
        at = λ m.
            bind_gets pre (λ m. m.now_ms + m.lease_duration_ms) _ m
              (bind_at pre _ _ m (lease_moved _ _ m (λ x _. renewed refl)) (λ _ _.
                (Respects-bind pre _ _
                    (set_task-Respects steps.flow.tasks _ _ _
                      (λ m x. noted _ _ _ _ _ _ _ _ (kept refl) (kept refl) refl))
                    (λ _. Respects-pure pre _)).at
                  _));
      }

  finish_retry-Respects : (lease : Lease) (task : Task) → Respects R (finish_retry lease task)
  unfolding finish_retry
  finish_retry-Respects lease task =
      Respects-bind pre _ _
        (transition_task-Respects steps.flow.tasks _ _ TaskState.retry_wait (λ bad. cc) (λ bad. cc))
        λ _. Respects-bind pre _ _ (Respects-gets pre _) (λ now.
          Respects-bind pre _ _
            (set_task-Respects steps.flow.tasks _ _ _
              (λ m x. noted _ _ _ _ _ _ _ _ (kept refl) (kept refl) refl))
            (λ _. emit-Respects steps.flow.tasks _ _ _ _ _))

  pub conclude-Respects :
      (lease : Lease) (task : Task) (code : ℤ) (error : String)
      → Respects R (conclude lease task code error)
  unfolding conclude finish_succeeded finish_failed
  conclude-Respects lease task code error =
      Respects-if (is_success code error) _ _
        (Respects-bind pre _ _
          (transition_task-Respects steps.flow.tasks _ _ TaskState.succeeded (λ bad. cc)
            (λ bad. cc))
          (λ _. emit-Respects steps.flow.tasks _ _ _ _ _))
        (Respects-if (ltb task.attempt (max_ℕ 0 (normalized task.retry).max_attempts)) _ _
          (finish_retry-Respects lease task)
          (Respects-bind pre _ _
            (transition_task-Respects steps.flow.tasks _ _ TaskState.failed (λ bad. cc) (λ bad. cc))
            (λ _. emit-Respects steps.flow.tasks _ _ _ _ _)))

  complete_running-Respects :
      (lease : Lease) (task : Task) (code : ℤ) (error : String)
      → Respects R (complete_running lease task code error)
  unfolding complete_running
  complete_running-Respects lease task code error = record {
    at = λ m.
        bind_gets pre (λ m. m.now_ms) _ m
          (bind_at pre _ _ m
            (task_moved _ _ _ m (λ x _. noted _ _ _ _ _ _ _ _ (kept refl) (set_now refl) refl))
            (λ _ _.
              (Respects-bind pre _ _ (close_lease-Respects steps lease) (λ _.
                  Respects-bind pre _ _ (conclude-Respects lease task code error) (λ _.
                    Respects-bind pre _ _ (recompute-Respects steps.flow _)
                      (λ _. require_workflow-Respects steps.flow.tasks _)))).at
                _));
  }

  pub complete-Respects :
      (token : String) (code : ℤ) (error : String) → Respects R (complete token code error)
  unfolding complete
  complete-Respects token code error =
      Respects-bind pre _ _ (live_lease-Respects token) λ (lease, task).
        Respects-if (not (text_eq task.lease_token token)) _ _ (reject-Respects steps _ _) (
          Respects-if (same_state task.state TaskState.leased) _ _
            (Respects-bind pre _ _ (begin_run-Respects lease)
              (λ _. complete_running-Respects _ task code error))
            (Respects-if (not (same_state task.state TaskState.running)) _ _
              (reject-Respects steps _ _) (complete_running-Respects lease task code error)))

  pub append_log-Respects : (token text stream : String) → Respects R (append_log token text stream)
  unfolding append_log
  append_log-Respects token text stream = record {
    at = λ m.
        bind_at pre (live_lease token) _ m ((live_lease-Respects token).at m)
          (λ (lease, task) found.
            let live = live_lease-IsLive token m found in
            bind_gets pre (λ n. n.output_limit_bytes) _ _
              (bind_gets pre (λ n. n.log_chunk_limit_bytes) _ _
                (if_at pre (not (text_eq stream "stdout" || text_eq stream "stderr")) _ _ _
                  (λ _. (reject-Respects steps _ _).at _)
                  (λ _.
                    if_at pre (ltb (live_lease token m).1.log_chunk_limit_bytes (len text)) _ _ _
                      (λ _. (reject-Respects steps _ _).at _)
                      (λ _.
                        if_at pre
                          (ltb (live_lease token m).1.output_limit_bytes
                            (task.output_bytes + len text))
                          _ _ _ (λ _. (reject-Respects steps _ _).at _)
                          (λ room.
                            bind_at pre _ _ _
                              (task_moved lease.workflow_id lease.task_id _ _ (λ x there.
                                let same = found_same (rw live.unchanged at there) live.held in
                                logged (len text) (rw same (not-ltb→le _ _ room)) refl))
                              (λ _ _. (emit-Respects steps.flow.tasks _ _ _ _ _).at _)))))));
  }

  pub refuse_closed-Respects :
      (active code message token : String) → Respects R (refuse_closed active code message token)
  unfolding refuse_closed
  refuse_closed-Respects active code message token =
      Respects-bind pre _ _ (Respects-gets pre _) λ known.
        Respects-bind pre _ _ (Respects-gets pre _) (λ closed.
          Respects-if known _ _ (reject-Respects steps _ _)
            (Respects-if (not closed) _ _ (reject-Respects steps _ _) (reject-Respects steps _ _)))

  pub complete_success-Respects : (token : String) → Respects R (complete_success token)
  unfolding complete_success
  complete_success-Respects token = complete-Respects token (pos 0) ""

  pub complete_failure-Respects :
      (token : String) (code : ℤ) (error : String) → Respects R (complete_failure token code error)
  unfolding complete_failure
  complete_failure-Respects token code error = complete-Respects token _ error
