-- ===== src/Chaos/Moves/Recompute.antt =====
-- `transition_task` and `recompute` of tools/chaos_lab/model.py change the store by small steps.
use helix_grid.Prelude.{
  All, subst, sym, ◌≤◌, String, ◌≡◌, ◌≢◌, refl, Bool, true, false, not, some, Bool-cases, inl, inr,
  all, any, ◌&&◌, arith, ◌∙◌, ap,
}
use helix_grid.Prelude.Dict.{Dict, lookup, lookup-update, update}
use helix_grid.Prelude.Exec.{ok, ◌>>=◌, for_each}
use helix_grid.Prelude.Exec.Respects.{
  Respects, bind_at, bind_read, if_at, bind_gets, Respects-pure, Respects-raise, Respects-bind,
  Respects-if, Respects-for_each,
}
use helix_grid.Chaos.Types.{
  TaskState, WorkflowState, Task, Workflow, allowed, one_of, same_state, same_workflow_state,
  workflow_terminal,
}
use helix_grid.Chaos.State.{Model, emit, find_task, require_task, require_workflow, set_task}
use helix_grid.Chaos.Tasks.{
  enter, transition_task, dependency_states, make_ready, recompute_pending, recompute_waiting,
  retry_due, announce, task_states, is_active, recompute_task, is_impossible, is_ready, settled,
  settle, recompute,
}
use helix_grid.Chaos.Moves.Reads.{
  require_task-reads, require_task-ok, require_workflow-reads, require_workflow-ok,
  dependency_states-reads, dependency_states-Finished,
}
use helix_grid.Chaos.Moves.Lookups.{find_task-set_task_inv, found_same}
use helix_grid.Chaos.Moves.{
  kept, taken, set_now, TaskMove, Cleared, Finished, entered, noted, WorkflowMove, resettled,
  TaskSteps, FlowSteps,
}

not-eq-false : {b : Bool} → not b ≡ false → b ≡ true
not-eq-false h = ground arith

module _ {R : Model → Model → Type 0} (steps : TaskSteps R) where
  open steps use {pre, emitted, task_moved}

  pub emit-Respects :
      (kind w t p : String) (payload : Dict String) → Respects R (emit kind w t p payload)
  emit-Respects kind w t p payload = record { at = emitted kind w t p payload }

  pub require_task-Respects : (w t : String) → Respects R (require_task w t)
  require_task-Respects w t = record { at = λ m. rw (require_task-reads w t m) (pre.same m) }

  pub require_workflow-Respects : (w : String) → Respects R (require_workflow w)
  require_workflow-Respects w = record { at = λ m. rw (require_workflow-reads w m) (pre.same m) }

  -- A transition is a step if a task that becomes LEASED has been attempted, and the dependencies
  -- of a task that goes from PENDING to READY have succeeded.
  pub transition_task-at :
      (w t : String) (next : TaskState) (m : Model)
      → ((x : Task) → find_task w t m ≡ some x → next ≡ TaskState.leased → 1 ≤ x.attempt)
      → ((x : Task) → find_task w t m ≡ some x → Cleared w m x next)
      → R m (transition_task w t next m).1
  unfolding transition_task
  transition_task-at w t next m guard cleared =
      bind_read pre (require_task w t) _ m (require_task-reads w t m) (λ x found.
        let e = require_task-ok w t m found in
        if_at pre (same_state next x.state) _ _ m (λ _. (Respects-pure pre tt).at m)
          (λ _.
            if_at pre (not (one_of next (allowed x.state))) _ _ m (λ _. (Respects-raise pre _).at m)
              (λ fits. task_moved w t (enter next) m (λ y e'.
                let same = found_same e e' in
                entered next (rw same at (not-eq-false fits)) (guard y e') (cleared y e') refl))))

  pub transition_task-Respects :
      (w t : String) (next : TaskState)
      → next ≢ TaskState.leased
      → next ≢ TaskState.ready
      → Respects R (transition_task w t next)
  transition_task-Respects w t next other unready = record {
    at = λ m.
        transition_task-at w t next m (λ x e bad. absurd (other bad))
          (λ x e bad. absurd (unready bad));
  }

  -- An assignment to the fields that record a run, whatever the state of the task.
  pub set_task-Respects :
      (w t : String) (f : Task → Task)
      → ((m : Model) (x : Task) → TaskMove w m x (f x))
      → Respects R (set_task w t f)
  set_task-Respects w t f move = record { at = λ m. task_moved w t f m (λ x _. move m x) }

  make_ready-at :
      (w t : String) (m : Model)
      → ((x : Task) → find_task w t m ≡ some x → Cleared w m x TaskState.ready)
      → R m (make_ready w t m).1
  unfolding make_ready
  make_ready-at w t m cleared =
      bind_at pre _ _ m (transition_task-at w t TaskState.ready m (λ x e bad. cc) cleared)
        (λ _ _. (emit-Respects _ _ _ _ _).at _)

  recompute_pending-at :
      (w t : String) (task : Task) (m : Model)
      → find_task w t m ≡ some task
      → R m (recompute_pending w t task m).1
  unfolding recompute_pending
  recompute_pending-at w t task m found =
      bind_read pre (dependency_states w task.depends_on) _ m (dependency_states-reads w _ m)
        (λ states read.
          bind_gets pre (λ m. m.now_ms) _ m
            (if_at pre (is_impossible states) _ _ m
              (λ _.
                bind_at pre _ _ m
                  (task_moved w t _ m
                    (λ x _. noted _ _ _ _ _ _ _ _ (kept refl) (set_now refl) refl))
                  (λ _ _.
                    (transition_task-Respects w t TaskState.cancelled (λ bad. cc) (λ bad. cc)).at
                      _))
              (λ _.
                if_at pre (is_ready states) _ _ m
                  (λ all_done. make_ready-at w t m (λ x there to_ready pending.
                    subst (λ u. All (Finished w m) u.depends_on) (found_same found there)
                      (dependency_states-Finished w task.depends_on m states read all_done)))
                  (λ _. (Respects-pure pre tt).at m))))

  recompute_waiting-at :
      (w t : String) (task : Task) (m : Model)
      → find_task w t m ≡ some task
      → same_state task.state TaskState.retry_wait ≡ true
      → R m (recompute_waiting w t task m).1
  unfolding recompute_waiting
  recompute_waiting-at w t task m found waiting =
      bind_gets pre (λ m. m.now_ms) _ m
        (if_at pre (retry_due task.next_retry_ms m.now_ms) _ _ m
          (λ _.
            bind_at pre _ _ m
              (task_moved w t _ m (λ x _. noted _ _ _ _ _ _ _ _ (kept refl) (taken refl) refl))
              (λ _ _. make_ready-at w t _ (λ y there to_ready pending.
                let (x, before, e) = find_task-set_task_inv w t _ m there in
                let still : task.state ≡ TaskState.pending =
                  ap (λ (u : Task). u.state) (found_same found before)
                  ∙ sym (ap (λ (u : Task). u.state) e)
                  ∙ pending in
                absurd (cc (rw still at waiting)))))
          (λ _. (Respects-pure pre tt).at m))

  pub recompute_task-Respects : (w t : String) → Respects R (recompute_task w t)
  unfolding recompute_task
  recompute_task-Respects w t = record {
    at = λ m. bind_read pre (require_task w t) _ m (require_task-reads w t m) (λ x found.
        if_at pre (same_state x.state TaskState.pending) _ _ m
          (λ _. recompute_pending-at w t x m (require_task-ok w t m found))
          (λ _.
            if_at pre (same_state x.state TaskState.retry_wait) _ _ m
              (λ waiting. recompute_waiting-at w t x m (require_task-ok w t m found) waiting)
              (λ _. (Respects-pure pre tt).at m)));
  }

-- The workflows that are there stay, in their states.
abbrev SameFlow : Model → Model → Type 0
SameFlow m n =
    (w : String) (x : Workflow)
    → lookup w m.workflows ≡ some x
    → (y : Workflow) × (lookup w n.workflows ≡ some y) × (y.state ≡ x.state)

SameFlow-steps : TaskSteps SameFlow
unfolding emit set_task ◌>>=◌
SameFlow-steps = record {
  pre = record {
    same = λ m w x h. (x, h, refl);
    compose = λ m n o p q w x h.
        let (y, hy, ey) = p w x h in let (z, hz, ez) = q w y hy in (z, hz, ez ∙ ey);
  };
  emitted = λ kind w t p payload m v x h. (x, h, refl);
  task_moved = λ w t f m move v x h.
      elim (lookup-update w v (λ (u : Workflow). record u { tasks = update t f u.tasks })
        m.workflows h) [
          | inl e ↦ (x, e, refl)
          | inr (_, e) ↦ (record x { tasks = update t f x.tasks }, e, refl)
        ];
}

settled-move :
    (m : Model) (x : Workflow)
    → workflow_terminal x.state ≡ false
    → WorkflowMove m x (settled m.now_ms x)
unfolding settled
settled-move m x going =
    elim (Bool-cases (all (λ s. same_state s TaskState.succeeded) (task_states x.tasks))) [
      | inl e ↦ rw e (resettled _ _ going (set_now refl) refl)
      | inr e ↦
          rw e
            (elim (Bool-cases (
              any (λ s. same_state s TaskState.failed) (task_states x.tasks)
              && not (any is_active (task_states x.tasks)))) [
                | inl f ↦ rw f (resettled _ _ going (set_now refl) refl)
                | inr f ↦
                    rw f (elim (Bool-cases (same_workflow_state x.state WorkflowState.pending)) [
                      | inl g ↦ rw g (resettled _ _ going (kept refl) refl)
                      | inr g ↦ rw g (resettled _ _ going (kept refl) refl)
                    ])
              ])
    ]

module _ {R : Model → Model → Type 0} (steps : FlowSteps R) where
  open steps use {pre, workflow_moved}

  announce-Respects : (w : String) (s : WorkflowState) → Respects R (announce w s)
  announce-Respects w WorkflowState.pending = Respects-pure pre tt
  announce-Respects w WorkflowState.cancelled = Respects-pure pre tt
  announce-Respects w _ = emit-Respects steps.tasks _ _ _ _ _

  settle-at :
      (w : String) (before : WorkflowState) (m : Model)
      → ((x : Workflow) → lookup w m.workflows ≡ some x → workflow_terminal x.state ≡ false)
      → R m (settle w before m).1
  unfolding settle
  settle-at w before m going =
      bind_gets pre (λ m. m.now_ms) _ m
        (bind_at pre _ _ m
          (workflow_moved w (settled m.now_ms) m (λ x found. settled-move m x (going x found)))
          (λ _ _.
            (Respects-bind pre _ _ (require_workflow-Respects steps.tasks w) (λ v.
                Respects-if (same_workflow_state v.state before) _ _ (Respects-pure pre tt)
                  (announce-Respects w v.state))).at
              _))

  pub recompute-Respects : (w : String) → Respects R (recompute w)
  unfolding recompute
  recompute-Respects w = record {
    at = λ m. bind_read pre (require_workflow w) _ m (require_workflow-reads w m) (λ v found.
        if_at pre (workflow_terminal v.state) _ _ m (λ _. (Respects-pure pre tt).at m)
          (λ going.
            bind_at pre (for_each (recompute_task w) v.order) _ m
              ((Respects-for_each pre _ _ (recompute_task-Respects steps.tasks w)).at m)
              (λ _ _. settle-at w v.state _ (still v m found going))));
  }
    where
      still :
          (v : Workflow) (m : Model)
          → (require_workflow w m).0 ≡ ok v
          → workflow_terminal v.state ≡ false
          → (x : Workflow) → lookup w (for_each (recompute_task w) v.order m).1.workflows ≡ some x
          → workflow_terminal x.state ≡ false
      still v m found going x later =
          let loop =
            Respects-for_each SameFlow-steps.pre (recompute_task w) v.order
              (recompute_task-Respects SameFlow-steps w) in
          let (y, there, same) = loop.at m w v (require_workflow-ok w m found) in
          let e = found_same later there in rw (ap (λ (u : Workflow). u.state) e ∙ same) going
