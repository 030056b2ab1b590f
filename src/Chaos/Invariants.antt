-- ===== src/Chaos/Invariants.antt =====
-- Invariants of the model of tools/chaos_lab/model.py over every sequence of calls. Here: a fact
-- about one task that the small steps keep holds of all tasks.
pub mod Events
pub mod Tasks
pub mod Workers
pub mod Progress
pub mod Safety
pub mod Leases
use helix_grid.Prelude.{
  ℕ, ◌+◌, ◌≤◌, String, ◌≡◌, refl, ◌∙◌, List, [], ◌∷◌, Option, none, some, arith,
}
use helix_grid.Prelude.Dict.{
  Dict, lookup, insert, update, Every, insert-Every, update-Every, Every-map,
}
use helix_grid.Prelude.Exec.{◌>>=◌}
use helix_grid.Chaos.Types.{Task, Workflow}
use helix_grid.Chaos.State.{Model, find_task, emit, set_task, set_workflow, set_worker, set_lease}
use helix_grid.Chaos.Leases.{retire}
use helix_grid.Chaos.Admin.{fresh_task, task_map, store_workflow, store_worker, tick}
use helix_grid.Chaos.Dispatch.{store_lease}
use helix_grid.Chaos.Moves.{TaskMove, WorkflowMove, resettled, AllSteps}

-- `P limit now x`: a fact about a task, the output limit and the clock
pub record TaskFact (P : ℕ → ℕ → Task → Type 0) : Type 0 where
  pub fresh : (limit now : ℕ) (t : Task) → P limit now (fresh_task t)
  pub moved :
      (w : String) (m : Model) (x y : Task)
      → TaskMove w m x y
      → P m.output_limit_bytes m.now_ms x
      → P m.output_limit_bytes m.now_ms y
  pub later : (limit now n : ℕ) (x : Task) → P limit now x → P limit (now + n) x

abbrev pub AllTasks : (Task → Type 0) → Dict Workflow → Type 0
AllTasks P = Every (λ w. Every P w.tasks)

-- Every task of every workflow satisfies `P`.
abbrev pub Holds : (ℕ → ℕ → Task → Type 0) → Model → Type 0
Holds P m = AllTasks (P m.output_limit_bytes m.now_ms) m.workflows

abbrev pub Keeps : (Model → Type 0) → Model → Model → Type 0
Keeps P m n = P m → P n

module _ {P : ℕ → ℕ → Task → Type 0} (fact : TaskFact P) where
  open fact use {fresh, moved, later}

  task_map-Every :
      (limit now : ℕ) (ts : List Task) (d : Dict Task)
      → Every (P limit now) d
      → Every (P limit now) (task_map ts d)
  unfolding task_map
  task_map-Every limit now [] d h = h
  task_map-Every limit now (t ∷ ts) d h =
      task_map-Every limit now ts _ (insert-Every _ t.id _ d (fresh limit now t) h)

  set_task-Holds :
      (w t : String) (f : Task → Task) (m : Model)
      → ((x : Task) → find_task w t m ≡ some x → TaskMove w m x (f x))
      → Keeps (Holds P) m (set_task w t f m).1
  unfolding set_task ◌>>=◌
  set_task-Holds w t f m move h =
      update-Every _ w _ m.workflows
        (λ v found.
          update-Every _ t f v.tasks (λ x inside. moved w m x (f x) (move x (rw found inside))))
        h

  set_workflow-Holds :
      (w : String) (f : Workflow → Workflow) (m : Model)
      → ((x : Workflow) → lookup w m.workflows ≡ some x → WorkflowMove m x (f x))
      → Keeps (Holds P) m (set_workflow w f m).1
  unfolding set_workflow ◌>>=◌
  set_workflow-Holds w f m move h =
      update-Every _ w f m.workflows (λ v found. same_tasks v (f v) (move v found)) h
    where
      same_tasks :
          (x y : Workflow)
          → WorkflowMove m x y
          → Every (P m.output_limit_bytes m.now_ms) x.tasks
          → Every (P m.output_limit_bytes m.now_ms) y.tasks
      same_tasks x y (resettled s f going stamp e) h = rw e h

  tick-Holds : (n : ℕ) (m : Model) → Keeps (Holds P) m (tick n m).1
  unfolding tick ◌>>=◌
  tick-Holds n m h =
      Every-map m.workflows (λ w. Every-map w.tasks (later m.output_limit_bytes m.now_ms n)) h

  pub TaskFact-steps : AllSteps (Keeps (Holds P))
  unfolding emit set_worker set_lease store_worker store_workflow store_lease retire ◌>>=◌
  TaskFact-steps = record {
    steps = record {
      flow = record {
        tasks = record {
          pre = record { same = λ m h. h; compose = λ m n o p q h. q (p h) };
          emitted = λ kind w t p payload m h. h;
          task_moved = set_task-Holds;
        };
        workflow_moved = set_workflow-Holds;
      };
      rejected = λ code m h. h;
      numbered = λ m h. h;
      ticked = tick-Holds;
      worker_moved = λ id f m move h. h;
      worker_stored = λ id name capacity labels m new h. h;
      workflow_stored = λ id name tasks order metadata m new valid h.
          insert-Every _ id _ m.workflows (task_map-Every _ _ tasks [] tt) h;
      lease_moved = λ token f m move h. h;
      retired = λ lease m active h. h;
    };
    lease_stored = λ lease m active acquired expires h. h;
  }
