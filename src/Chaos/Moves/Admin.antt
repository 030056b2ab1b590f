-- ===== src/Chaos/Moves/Admin.antt =====
-- The operations on workflows, workers and the clock in tools/chaos_lab/model.py change the store
-- by small steps.
use helix_grid.Prelude.{
  ℕ, String, is_empty, ltb, ◌==◌, ◌≡◌, refl, Bool, false, ◌||◌, List, [], ◌∷◌, Option-cases, inl,
  inr,
}
use helix_grid.Prelude.Int.{ℤ, pos, negsuc}
use helix_grid.Prelude.Dict.{Dict, lookup, contains}
use helix_grid.Prelude.Exec.{Result, ok, err, ◌>>=◌, ◌>>◌}
use helix_grid.Prelude.Exec.Respects.{
  Respects, bind_at, bind_read, bind_gets, if_at, Respects-pure, Respects-raise, Respects-bind,
  Respects-if, Respects-for_each,
}
use helix_grid.Chaos.Types.{TaskState, Task, Error, workflow_terminal, terminal}
use helix_grid.Chaos.State.{Model, emit, next_id, require_workflow}
use helix_grid.Chaos.Tasks.{recompute}
use helix_grid.Chaos.Dag.{validate_dag}
use helix_grid.Chaos.Admin.{
  name_or_next, lift, store_workflow, add_workflow, is_registered, register_named, register_worker,
  heartbeat, drop_worker, close_if_active, cancel_task, cancel_workflow, advance,
}
use helix_grid.Chaos.Moves.{kept, set_now, noted, resettled, beat, gone, Steps}
use helix_grid.Chaos.Moves.Lookups.{found_same}
use helix_grid.Chaos.Moves.Recompute.{
  emit-Respects, require_task-Respects, require_workflow-Respects, transition_task-Respects,
  recompute-Respects,
}
use helix_grid.Chaos.Moves.Reads.{require_workflow-reads, require_workflow-ok}
use helix_grid.Chaos.Moves.Leases.{
  reject-Respects, require_worker-Respects, close_lease-Respects, sweep-Respects,
}

module _ {R : Model → Model → Type 0} (steps : Steps R) where
  open steps use {
    pre, task_moved, workflow_moved, numbered, ticked, worker_moved, worker_stored, workflow_stored,
  }

  pub next_id-Respects :
      (digest : String → String) (prefix : String) → Respects R (next_id digest prefix)
  unfolding next_id
  next_id-Respects digest prefix = record { at = numbered }

  name_or_next-Respects :
      (digest : String → String) (given prefix : String)
      → Respects R (name_or_next digest given prefix)
  name_or_next-Respects digest given prefix =
      Respects-if (is_empty given) _ _ (next_id-Respects digest prefix) (Respects-pure pre _)

  pub add_workflow-Respects :
      (digest : String → String) (name : String) (tasks : List Task) (given : String)
      (metadata : Dict String)
      → Respects R (add_workflow digest name tasks given metadata)
  unfolding add_workflow
  add_workflow-Respects digest name tasks given metadata =
      Respects-bind pre _ _ (name_or_next-Respects digest given "wf") λ id. record {
        at = λ m.
            bind_gets pre (λ n. contains id n.workflows) _ m
              (if_at pre (contains id m.workflows) _ _ m (λ _. (Respects-raise pre _).at m)
                (λ new. checked id m new (validate_dag tasks) refl));
      }
    where
      checked :
          (id : String) (m : Model)
          → contains id m.workflows ≡ false
          → (r : Result Error (List String)) → validate_dag tasks ≡ r
          → R m
              ((lift r >>= λ order.
                  store_workflow id name tasks order metadata
                  >> (emit "workflow.created" id "" "" (("name", name) ∷ [])
                      >> (recompute id >> require_workflow id)))
                m).1
      checked id m new (err e) valid = unfold ◌>>=◌ in pre.same m
      checked id m new (ok order) valid = bind_at pre (lift (ok order)) _ m (pre.same m) (λ o e.
          let o' : o ≡ order = cc in
          bind_at pre _ _ m (rw o' (workflow_stored id name tasks order metadata m new valid))
            (λ _ _.
              (Respects-bind pre _ _ (emit-Respects steps.flow.tasks _ _ _ _ _) (λ _.
                  Respects-bind pre _ _ (recompute-Respects steps.flow _)
                    (λ _. require_workflow-Respects steps.flow.tasks _))).at
                _))

  register_named-Respects :
      (name : String) (capacity : ℕ) (labels : Dict String) (id : String)
      → Respects R (register_named name capacity labels id)
  unfolding register_named
  register_named-Respects name capacity labels id = record {
    at = λ m.
        bind_gets pre (λ n. lookup id n.workers) _ m
          (if_at pre (is_registered (lookup id m.workers)) _ _ m (λ _. (Respects-raise pre _).at m)
            (λ new. bind_at pre _ _ m (worker_stored id name capacity labels m new) (λ _ _.
              (Respects-bind pre _ _ (emit-Respects steps.flow.tasks _ _ _ _ _)
                  (λ _. require_worker-Respects steps _)).at
                _)));
  }

  pub register_worker-Respects :
      (digest : String → String) (name : String) (capacity : ℤ) (labels : Dict String)
      (given : String)
      → Respects R (register_worker digest name capacity labels given)
  unfolding register_worker
  register_worker-Respects digest name (negsuc n) labels given = Respects-raise pre _
  register_worker-Respects digest name (pos n) labels given =
      Respects-if (n == 0 || ltb 256 n) _ _ (Respects-raise pre _) (
        Respects-bind pre _ _ (name_or_next-Respects digest given "worker")
          (λ id. register_named-Respects name n labels id))

  pub heartbeat-Respects : (id : String) → Respects R (heartbeat id)
  unfolding heartbeat
  heartbeat-Respects id = Respects-bind pre _ _ (require_worker-Respects steps id) λ w.
      Respects-if w.dropped _ _ (reject-Respects steps _ _) record {
        at = λ m.
            bind_gets pre (λ n. n.now_ms) _ m
              (bind_at pre _ _ m (worker_moved id _ m (λ x _. beat refl)) (λ _ _.
                (Respects-bind pre _ _ (emit-Respects steps.flow.tasks _ _ _ _ _)
                    (λ _. require_worker-Respects steps _)).at
                  _));
      }

  pub drop_worker-Respects : (id : String) → Respects R (drop_worker id)
  unfolding drop_worker
  drop_worker-Respects id =
      Respects-bind pre _ _ (require_worker-Respects steps id)
        λ w. record { at = λ m. worker_moved id _ m (λ x _. gone refl) }

  close_if_active-Respects : (token : String) → Respects R (close_if_active token)
  unfolding close_if_active
  close_if_active-Respects token = record {
    at = λ m. elim (Option-cases (lookup token m.leases)) [
      | inl e ↦ rw (e, close_if_active) ((Respects-pure pre tt).at m)
      | inr (lease, e) ↦ rw (e, close_if_active) ((close_lease-Respects steps lease).at m)
    ];
  }

  cancel_task-Respects : (w t : String) → Respects R (cancel_task w t)
  unfolding cancel_task
  cancel_task-Respects w t = Respects-bind pre _ _ (require_task-Respects steps.flow.tasks w t) λ x.
      Respects-if (terminal x.state) _ _ (Respects-pure pre tt) (
        Respects-bind pre _ _
          (Respects-if (is_empty x.lease_token) _ _ (Respects-pure pre tt)
            (close_if_active-Respects _))
          (λ _. record {
            at = λ m.
                bind_gets pre (λ n. n.now_ms) _ m
                  (bind_at pre _ _ m
                    (task_moved w t _ m
                      (λ y _. noted _ _ _ _ _ _ _ _ (kept refl) (set_now refl) refl))
                    (λ _ _.
                      (transition_task-Respects steps.flow.tasks w t TaskState.cancelled (λ bad. cc)
                          (λ bad. cc)).at
                        _));
          }))

  pub cancel_workflow-Respects : (w : String) → Respects R (cancel_workflow w)
  unfolding cancel_workflow
  cancel_workflow-Respects w = record {
    at = λ m. bind_read pre (require_workflow w) _ m (require_workflow-reads w m) (λ v found.
        if_at pre (workflow_terminal v.state) _ _ m (λ _. (Respects-pure pre _).at m)
          (λ going.
            bind_gets pre (λ n. n.now_ms) _ m
              (bind_at pre _ _ m
                (workflow_moved w _ m (λ x there.
                  resettled _ _ (rw (found_same there (require_workflow-ok w m found)) going)
                    (set_now refl) refl))
                (λ _ _.
                  (Respects-bind pre _ _ (Respects-for_each pre _ _ (cancel_task-Respects w)) (λ _.
                      Respects-bind pre _ _ (emit-Respects steps.flow.tasks _ _ _ _ _)
                        (λ _. require_workflow-Respects steps.flow.tasks _))).at
                    _))));
  }

  pub advance-Respects : (ms : ℤ) (sweeps : Bool) → Respects R (advance ms sweeps)
  unfolding advance
  advance-Respects (negsuc n) sweeps = Respects-raise pre _
  advance-Respects (pos n) sweeps =
      Respects-bind pre _ _ (record { at = ticked n })
        (λ _. Respects-if sweeps _ _ (sweep-Respects steps) (Respects-pure pre tt))
