-- ===== src/Chaos/Moves/Reads.antt =====
-- The reading parts of `recompute` of tools/chaos_lab/model.py leave the store alone.
use helix_grid.Prelude.{All, String, ◌≡◌, refl, true, List, [], ◌∷◌, some, arith, ◌∙◌}
use helix_grid.Prelude.Dict.{lookup}
use helix_grid.Prelude.Exec.{ok, pure, ◌>>=◌}
use helix_grid.Prelude.Exec.Returns.{>>=-ok, pure-ok}
use helix_grid.Prelude.Exec.Respects.{Preorder, bind_read}
use helix_grid.Chaos.Types.{TaskState, Task, Workflow}
use helix_grid.Chaos.State.{Model, find_task, require_task, require_workflow}
use helix_grid.Chaos.Tasks.{dependency_states, is_ready}
use helix_grid.Chaos.Moves.{Finished}

pub require_task-reads : (w t : String) (m : Model) → (require_task w t m).1 ≡ m
unfolding require_task ◌>>=◌
require_task-reads w t m = ground arith

pub require_task-ok :
    (w t : String) (m : Model) {x : Task} → (require_task w t m).0 ≡ ok x → find_task w t m ≡ some x
unfolding require_task ◌>>=◌
require_task-ok w t m h = ground arith

pub require_workflow-reads : (w : String) (m : Model) → (require_workflow w m).1 ≡ m
unfolding require_workflow ◌>>=◌
require_workflow-reads w m = ground arith

pub require_workflow-ok :
    (w : String) (m : Model) {x : Workflow}
    → (require_workflow w m).0 ≡ ok x
    → lookup w m.workflows ≡ some x
unfolding require_workflow ◌>>=◌
require_workflow-ok w m h = ground arith

unchanged : Preorder (λ (m n : Model). n ≡ m)
unchanged = record { same = λ m. refl; compose = λ m n o p q. q ∙ p }

pub dependency_states-reads :
    (w : String) (deps : List String) (m : Model) → (dependency_states w deps m).1 ≡ m
unfolding dependency_states pure
dependency_states-reads w [] m = refl
dependency_states-reads w (d ∷ ds) m =
    bind_read unchanged (require_task w d) _ m (require_task-reads w d m) (λ x _.
      bind_read unchanged (dependency_states w ds) _ m (dependency_states-reads w ds m)
        (λ states _. refl))

-- States that are all SUCCEEDED are those of dependencies that have succeeded.
pub dependency_states-Finished :
    (w : String) (deps : List String) (m : Model) (states : List TaskState)
    → (dependency_states w deps m).0 ≡ ok states
    → is_ready states ≡ true
    → All (Finished w m) deps
unfolding dependency_states
dependency_states-Finished w [] m states h done = tt
dependency_states-Finished w (d ∷ ds) m states h done =
    let first = >>=-ok (require_task w d) _ m h in
    let x = first.0 in
    let others = >>=-ok (dependency_states w ds) _ _ first.2 in
    let all_done : is_ready (x.state ∷ others.0) ≡ true =
      rw (pure-ok (x.state ∷ others.0) states _ others.2) at done in
    let read : (dependency_states w ds m).0 ≡ ok others.0 =
      rw (require_task-reads w d m) at others.1 in
    (
      (x, require_task-ok w d m first.1, ground (arith, all_done)),
      dependency_states-Finished w ds m others.0 read (ground (arith, all_done)),
    )
