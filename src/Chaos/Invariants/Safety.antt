-- ===== src/Chaos/Invariants/Safety.antt =====
-- Dependency safety of the model of tools/chaos_lab/model.py: no task goes ahead of a dependency.
use helix_grid.Prelude.{
  String, ◌≡◌, refl, ◌∙◌, Bool, true, List, [], ◌∷◌, Option, none, some, all, All, arith, ◌⊎◌, inl,
  inr, Bool-cases,
}
use helix_grid.Prelude.Dict.{
  Dict, lookup, update, Every, insert-Every, update-Every, Every-map, lookup-update,
}
use helix_grid.Prelude.Exec.{◌>>=◌}
use helix_grid.Chaos.Types.{TaskState, Task, Workflow, allowed, one_of}
use helix_grid.Chaos.State.{Model, find_task, emit, set_task, set_workflow, set_worker, set_lease}
use helix_grid.Chaos.Leases.{retire}
use helix_grid.Chaos.Admin.{fresh_task, task_map, store_workflow, store_worker, tick}
use helix_grid.Chaos.Dispatch.{store_lease}
use helix_grid.Chaos.Checks.{
  Violation, check_all, check_tasks, has_succeeded, needs_dependencies, check_dependencies,
  check_dependency_safety,
}
use helix_grid.Chaos.Moves.{
  Finished, TaskMove, entered, attempted, logged, noted, WorkflowMove, resettled, AllSteps,
}
use helix_grid.Chaos.Session.{Call, replay, replay-at}
use helix_grid.Chaos.Invariants.{Keeps}
use helix_grid.Chaos.Invariants.Progress.{TaskLater-move}

-- A task that has started has only dependencies that have succeeded.
abbrev pub IsReady : Dict Task → Task → Type 0
IsReady tasks x =
    needs_dependencies x.state ≡ true
    → all (λ d. has_succeeded (lookup d tasks)) x.depends_on ≡ true

abbrev pub IsSafe : Model → Type 0
IsSafe m = Every (λ w. Every (IsReady w.tasks) w.tasks) m.workflows

all-imp {ℓ} :
    {A : Type ℓ} (p q : A → Bool) (xs : List A)
    → ((x : A) → p x ≡ true → q x ≡ true)
    → all p xs ≡ true
    → all q xs ≡ true
all-imp p q [] f h = refl
all-imp p q (x ∷ xs) f h = ground (arith, f x, h, all-imp p q xs f)

All-all {ℓ κ} :
    {A : Type ℓ} (P : A → Type κ) (q : A → Bool) (xs : List A)
    → ((x : A) → P x → q x ≡ true)
    → All P xs
    → all q xs ≡ true
All-all P q [] f h = refl
All-all P q (x ∷ xs) f h = ground (arith, f x h.0, All-all P q xs f h.1)

-- Only a PENDING task starts, and it becomes READY.
starts_from :
    (s next : TaskState)
    → one_of next (allowed s) ≡ true
    → needs_dependencies next ≡ true
    → (needs_dependencies s ≡ true) ⊎ (next ≡ TaskState.ready) × (s ≡ TaskState.pending)
starts_from TaskState.pending next = ground arith
starts_from TaskState.ready next = ground arith
starts_from TaskState.leased next = ground arith
starts_from TaskState.running next = ground arith
starts_from TaskState.retry_wait next = ground arith
starts_from TaskState.succeeded next = ground arith
starts_from TaskState.failed next = ground arith
starts_from TaskState.cancelled next = ground arith

IsReady-moved :
    (w : String) (m : Model) (tasks : Dict Task) (x y : Task)
    → ((d : String) → Finished w m d → has_succeeded (lookup d tasks) ≡ true)
    → TaskMove w m x y
    → IsReady tasks x
    → IsReady tasks y
IsReady-moved w m tasks x y done (entered next fits leased cleared e) h = rw e (λ started.
    elim (starts_from x.state next fits started) [
      | inl before ↦ h before
      | inr (to_ready, pending) ↦
          All-all (Finished w m) (λ d. has_succeeded (lookup d tasks)) x.depends_on done
            (cleared to_ready pending)
    ])
IsReady-moved w m tasks x y done (attempted e) h = rw e h
IsReady-moved w m tasks x y done (logged size room e) h = rw e h
IsReady-moved w m tasks x y done (noted token owner until retry started finished code error s f e)
      h =
    rw e h

has_succeeded-found :
    (o : Option Task)
    → has_succeeded o ≡ true
    → (x : Task) × (o ≡ some x) × (x.state ≡ TaskState.succeeded)
has_succeeded-found none h = absurd (ground arith)
has_succeeded-found (some x) h = (x, refl, ground arith)

module _ (w t : String) (f : Task → Task) (m : Model)
    (move : (x : Task) → find_task w t m ≡ some x → TaskMove w m x (f x)) (v : Workflow)
    (found : lookup w m.workflows ≡ some v) where
  -- A dependency that has succeeded stays so.
  still_done :
      (d : String)
      → has_succeeded (lookup d v.tasks) ≡ true
      → has_succeeded (lookup d (update t f v.tasks)) ≡ true
  still_done d h =
      let (x, there, done) = has_succeeded-found (lookup d v.tasks) h in
      elim (lookup-update t d f v.tasks there) [
        | inl same ↦ rw same (rw done refl)
        | inr (e, changed) ↦
            let kept =
              (TaskLater-move w m x (f x) (move x (rw (found, e) there))).over (rw done refl) in
            rw changed (rw (kept ∙ done) refl)
      ]

  Finished-here : (d : String) → Finished w m d → has_succeeded (lookup d v.tasks) ≡ true
  Finished-here d (y, there, done) =
      let inside : lookup d v.tasks ≡ some y = rw found at there in rw inside (rw done refl)

  moved-Every :
      Every (IsReady v.tasks) v.tasks → Every (IsReady (update t f v.tasks)) (update t f v.tasks)
  moved-Every h =
      update-Every (IsReady (update t f v.tasks)) t f v.tasks
        (λ x there ready.
          IsReady-moved w m (update t f v.tasks) x (f x)
            (λ d finished. still_done d (Finished-here d finished)) (move x (rw found there)) ready)
        (Every-map v.tasks (λ x ready started. all-imp _ _ x.depends_on still_done (ready started))
          h)

set_task-IsSafe :
    (w t : String) (f : Task → Task) (m : Model)
    → ((x : Task) → find_task w t m ≡ some x → TaskMove w m x (f x))
    → Keeps IsSafe m (set_task w t f m).1
unfolding set_task ◌>>=◌
set_task-IsSafe w t f m move h =
    update-Every _ w _ m.workflows (λ v found ready. moved-Every w t f m move v found ready) h

set_workflow-IsSafe :
    (w : String) (f : Workflow → Workflow) (m : Model)
    → ((x : Workflow) → lookup w m.workflows ≡ some x → WorkflowMove m x (f x))
    → Keeps IsSafe m (set_workflow w f m).1
unfolding set_workflow ◌>>=◌
set_workflow-IsSafe w f m move h =
    update-Every _ w f m.workflows (λ v found. same_tasks v (f v) (move v found)) h
  where
    same_tasks :
        (x y : Workflow)
        → WorkflowMove m x y
        → Every (IsReady x.tasks) x.tasks
        → Every (IsReady y.tasks) y.tasks
    same_tasks x y (resettled s g going stamp e) h = rw e h

-- A new task waits.
task_map-waits :
    (tasks : Dict Task) (ts : List Task) (d : Dict Task)
    → Every (IsReady tasks) d
    → Every (IsReady tasks) (task_map ts d)
unfolding task_map
task_map-waits tasks [] d h = h
task_map-waits tasks (t ∷ ts) d h = task_map-waits tasks ts _ (
    insert-Every (IsReady tasks) t.id (fresh_task t) d (λ started. absurd (ground (arith, started)))
      h)

IsSafe-steps : AllSteps (Keeps IsSafe)
unfolding emit set_worker set_lease store_worker store_workflow store_lease retire tick ◌>>=◌
IsSafe-steps = record {
  steps = record {
    flow = record {
      tasks = record {
        pre = record { same = λ m h. h; compose = λ m n o p q h. q (p h) };
        emitted = λ kind w t p payload m h. h;
        task_moved = set_task-IsSafe;
      };
      workflow_moved = set_workflow-IsSafe;
    };
    rejected = λ code m h. h;
    numbered = λ m h. h;
    ticked = λ n m h. h;
    worker_moved = λ id f m move h. h;
    worker_stored = λ id name capacity labels m new h. h;
    workflow_stored = λ id name tasks order metadata m new valid h.
        insert-Every _ id _ m.workflows (task_map-waits _ tasks [] tt) h;
    lease_moved = λ token f m move h. h;
    retired = λ lease m active h. h;
  };
  lease_stored = λ lease m active acquired expires h. h;
}

Every-check {ℓ κ} :
    {V : Type ℓ} (P : V → Type κ) (check : V → Violation) (d : Dict V)
    → ((v : V) → P v → check v ≡ none)
    → Every P d
    → check_all check d ≡ none
unfolding check_all
Every-check P check [] f h = refl
Every-check P check ((k, v) ∷ d) f h = rw (f v h.0) (Every-check P check d f h.1)

IsReady-check : (w : Workflow) (x : Task) → IsReady w.tasks x → check_dependencies w x ≡ none
unfolding check_dependencies
IsReady-check w x h = elim (Bool-cases (needs_dependencies x.state)) [
  | inl e ↦ rw (e, h e) refl
  | inr e ↦ rw e refl
]

IsSafe-check : (m : Model) → IsSafe m → check_dependency_safety m ≡ none
unfolding check_dependency_safety check_tasks
IsSafe-check m h =
    Every-check _ _ m.workflows (λ w ready. Every-check _ _ w.tasks (IsReady-check w) ready) h

-- Whatever calls are made, refused ones included, every dependency of a task that is READY, LEASED,
-- RUNNING, SUCCEEDED or RETRY_WAIT has succeeded, if this held before; and the model's own check of
-- it passes.
pub replay-IsSafe :
    (digest : String → String) (calls : List Call) (m : Model)
    → IsSafe m
    → let n = replay digest calls m in IsSafe n × (check_dependency_safety n ≡ none)
replay-IsSafe digest calls m h =
    let safe = replay-at IsSafe-steps digest calls m h in
    (safe, IsSafe-check (replay digest calls m) safe)
