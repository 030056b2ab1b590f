-- ===== src/Chaos/Moves/Grants.antt =====
-- A lease that `lease_next` of tools/chaos_lab/model.py grants changes the store by small steps.
use helix_grid.Prelude.{suc, ◌+◌, ◌≤◌, ◌<◌, String, ◌≡◌, refl, sym, ◌∙◌, some, length, arith}
use helix_grid.Prelude.Dict.{lookup}
use helix_grid.Prelude.Exec.{◌>>=◌}
use helix_grid.Prelude.Exec.Respects.{bind_at, bind_read, bind_gets, Respects-pure, Respects-bind}
use helix_grid.Chaos.Types.{TaskState, Task, Worker, Lease}
use helix_grid.Chaos.State.{Model, emit, next_id, find_task, require_task, set_task, set_workflow}
use helix_grid.Chaos.Dispatch.{Candidate, assigned, new_lease, store_lease, issue, grant}
use helix_grid.Chaos.Moves.{kept, noted, attempted, loaded, FlowSteps, Steps, AllSteps}
use helix_grid.Chaos.Moves.Lookups.{find_task-set_task_inv}
use helix_grid.Chaos.Moves.Recompute.{emit-Respects, transition_task-at}
use helix_grid.Chaos.Moves.Reads.{require_task-reads}
use helix_grid.Chaos.Moves.Admin.{next_id-Respects}

abbrev pub SameWorkers : Model → Model → Type 0
SameWorkers m n = n.workers ≡ m.workers

pub SameWorkers-steps : FlowSteps SameWorkers
unfolding emit set_task set_workflow ◌>>=◌
SameWorkers-steps = record {
  tasks = record {
    pre = record { same = λ m. refl; compose = λ m n o p q. q ∙ p };
    emitted = λ kind w t p payload m. refl;
    task_moved = λ w t f m move. refl;
  };
  workflow_moved = λ w f m move. refl;
}

next_id-workers :
    (digest : String → String) (prefix : String) (m : Model)
    → SameWorkers m (next_id digest prefix m).1
unfolding next_id
next_id-workers digest prefix m = refl

set_task-workers : (w t : String) (f : Task → Task) (m : Model) → SameWorkers m (set_task w t f m).1
unfolding set_task ◌>>=◌
set_task-workers w t f m = refl

set_task-now : (w t : String) (f : Task → Task) (m : Model) → (set_task w t f m).1.now_ms ≡ m.now_ms
unfolding set_task ◌>>=◌
set_task-now w t f m = refl

set_task-until :
    (w t : String) (f : Task → Task) (m : Model)
    → (set_task w t f m).1.now_ms + (set_task w t f m).1.lease_duration_ms
      ≡ m.now_ms + m.lease_duration_ms
unfolding set_task ◌>>=◌
set_task-until w t f m = refl

-- A task that has just been attempted once more has at least one attempt.
attempt_pos :
    (w t : String) (m : Model) (x : Task)
    → find_task w t (set_task w t (λ x. record x { attempt = suc x.attempt }) m).1 ≡ some x
    → 1 ≤ x.attempt
attempt_pos w t m x e =
    let (y, found, changed) =
      find_task-set_task_inv w t (λ (x : Task). record x { attempt = suc x.attempt }) m e in
    rw changed (omega arith)

store_lease-workers : (lease : Lease) (m : Model) → SameWorkers m (store_lease lease m).1
unfolding store_lease ◌>>=◌
store_lease-workers lease m = refl

-- The worker that gets the lease has room for it.
abbrev pub HasRoom : String → Model → Type 0
HasRoom id m = (x : Worker) → lookup id m.workers ≡ some x → length x.active_tokens < x.capacity

-- What all operations do, where a grant counts as one step
pub record Grants (digest : String → String) (R : Model → Model → Type 0) : Type 0 where
  pub steps : Steps R
  pub granted :
      (id : String) (w : Worker) (c : Candidate) (m : Model)
      → HasRoom id m
      → R m (grant digest id w c m).1

module _ {R : Model → Model → Type 0} (all : AllSteps R) where
  open all use {steps, lease_stored}
  open steps use {pre, task_moved, worker_moved}

  issue-at :
      (id : String) (w : Worker) (c : Candidate) (token : String) (m : Model)
      → HasRoom id m
      → R m (issue id w c token m).1
  unfolding issue
  issue-at id w c token m room =
      let until = m.now_ms + m.lease_duration_ms in
      let n = (set_task c.workflow_id c.task_id (assigned token w.id until) m).1 in
      bind_gets pre (λ n. n.now_ms) _ m
        (bind_gets pre (λ n. n.now_ms + n.lease_duration_ms) _ m
          (bind_at pre _ _ m
            (task_moved _ _ _ m (λ x _. noted _ _ _ _ _ _ _ _ (kept refl) (kept refl) refl))
            (λ _ _.
              bind_read pre (require_task c.workflow_id c.task_id) _ n (require_task-reads _ _ n)
                (λ x _.
                  let lease = new_lease token c w x.attempt m.now_ms until in
                  bind_at pre (store_lease lease) _ n
                    (lease_stored lease n refl (sym (set_task-now _ _ _ m))
                      (sym (set_task-until _ _ _ m)))
                    (λ _ _.
                      bind_at pre _ _ _
                        (worker_moved id _ _ (λ y there.
                          loaded token
                            (room y (
                              rw (store_lease-workers lease n ∙ set_task-workers _ _ _ m) at there))
                            refl))
                        (λ _ _.
                          (Respects-bind pre _ _ (emit-Respects steps.flow.tasks _ _ _ _ _)
                              (λ _. Respects-pure pre _)).at
                            _))))))

  grant-at :
      (digest : String → String) (id : String) (w : Worker) (c : Candidate) (m : Model)
      → HasRoom id m
      → R m (grant digest id w c m).1
  unfolding grant
  grant-at digest id w c m room =
      let m1 = (next_id digest "lease" m).1 in
      let f = λ (x : Task). record x { attempt = suc x.attempt } in
      let m2 = (set_task c.workflow_id c.task_id f m1).1 in
      let guard =
        λ (x : Task) (e : find_task c.workflow_id c.task_id m2 ≡ some x)
            (leased : TaskState.leased ≡ TaskState.leased).
          attempt_pos c.workflow_id c.task_id m1 x e in
      let unready =
        λ (x : Task) (e : find_task c.workflow_id c.task_id m2 ≡ some x)
            (bad : TaskState.leased ≡ TaskState.ready) (pending : x.state ≡ TaskState.pending).
          absurd (cc bad) in
      bind_at pre _ _ m ((next_id-Respects steps digest "lease").at m) (λ token _.
        bind_at pre _ _ m1 (task_moved _ _ f m1 (λ x _. attempted refl)) (λ _ _.
          bind_at pre _ _ m2
            (transition_task-at steps.flow.tasks _ _ TaskState.leased m2 guard unready)
            (λ _ _. issue-at id w c token _ (λ y there. room y (
              rw
                (transition_task-at SameWorkers-steps.tasks _ _ TaskState.leased m2 guard unready
                  ∙ set_task-workers _ _ f m1
                  ∙ next_id-workers digest "lease" m)
                at there)))))

  pub AllSteps-Grants : (digest : String → String) → Grants digest R
  AllSteps-Grants digest = record { steps = steps; granted = grant-at digest }
