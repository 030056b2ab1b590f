-- ===== src/Chaos/Moves/Lookups.antt =====
-- Where an assignment to a task of tools/chaos_lab/model.py leaves the look-ups.
use helix_grid.Prelude.{String, ◌≡◌, refl, Option, none, some, Option-cases, inl, inr, ◌⊎◌}
use helix_grid.Prelude.Dict.{lookup, lookup-update_self, lookup-update-none, lookup-update, update}
use helix_grid.Prelude.Exec.{◌>>=◌}
use helix_grid.Chaos.Types.{Task, Workflow}
use helix_grid.Chaos.State.{Model, find_task, in_workflow, set_task}

in_workflow-eq-some :
    (t : String) (o : Option Workflow) {x : Task}
    → in_workflow t o ≡ some x
    → (v : Workflow) × (o ≡ some v) × (lookup t v.tasks ≡ some x)
in_workflow-eq-some t none h = cc
in_workflow-eq-some t (some v) h = (v, refl, h)

-- The task that an assignment changes is found with its change.
pub find_task-set_task :
    (w t : String) (f : Task → Task) (m : Model) {x : Task}
    → find_task w t m ≡ some x
    → find_task w t (set_task w t f m).1 ≡ some (f x)
unfolding set_task ◌>>=◌
find_task-set_task w t f m h =
    let (v, found, inside) = in_workflow-eq-some t (lookup w m.workflows) h in
    rw (lookup-update_self w _ m.workflows found) (lookup-update_self t f v.tasks inside)

pub find_task-set_task-none :
    (w t : String) (f : Task → Task) (m : Model)
    → find_task w t m ≡ none
    → find_task w t (set_task w t f m).1 ≡ none
unfolding set_task ◌>>=◌
find_task-set_task-none w t f m h = elim (Option-cases (lookup w m.workflows)) [
  | inl e ↦ rw (lookup-update-none w w _ m.workflows e) refl
  | inr (v, e) ↦
      rw (lookup-update_self w _ m.workflows e) (lookup-update-none t t f v.tasks (rw e at h))
]

pub found_same : {A : Type 0} {o : Option A} {x y : A} → o ≡ some x → o ≡ some y → x ≡ y
found_same p q = cc

-- A task that is found after an assignment is the change of the one found before.
pub find_task-set_task_inv :
    (w t : String) (f : Task → Task) (m : Model) {y : Task}
    → find_task w t (set_task w t f m).1 ≡ some y
    → (x : Task) × (find_task w t m ≡ some x) × (y ≡ f x)
find_task-set_task_inv w t f m h = elim (Option-cases (find_task w t m)) [
  | inl e ↦ absurd (cc (find_task-set_task-none w t f m e))
  | inr (x, e) ↦ (x, e, found_same h (find_task-set_task w t f m e))
]

-- A task that is found elsewhere or here is the task as it was, or its change.
pub find_task-set_task_later :
    (w t : String) (f : Task → Task) (m : Model) (v u : String) {x : Task}
    → find_task v u m ≡ some x
    → (find_task v u (set_task w t f m).1 ≡ some x)
      ⊎ (w ≡ v) × (t ≡ u) × (find_task v u (set_task w t f m).1 ≡ some (f x))
unfolding set_task ◌>>=◌
find_task-set_task_later w t f m v u h =
    let (flow, found, inside) = in_workflow-eq-some u (lookup v m.workflows) h in
    elim (lookup-update w v (λ (k : Workflow). record k { tasks = update t f k.tasks }) m.workflows
      found) [
        | inl same ↦ inl (rw same inside)
        | inr (e, changed) ↦ elim (lookup-update t u f flow.tasks inside) [
          | inl same ↦ inl (rw changed same)
          | inr (e', there) ↦ inr (e, e', rw changed there)
        ]
      ]

find_task-set_task-none_there :
    (w t : String) (f : Task → Task) (m : Model) (v u : String)
    → find_task v u m ≡ none
    → find_task v u (set_task w t f m).1 ≡ none
unfolding set_task ◌>>=◌
find_task-set_task-none_there w t f m v u h = elim (Option-cases (lookup v m.workflows)) [
  | inl e ↦ rw (lookup-update-none w v _ m.workflows e) refl
  | inr (flow, e) ↦
      elim (lookup-update w v (λ (k : Workflow). record k { tasks = update t f k.tasks })
        m.workflows e) [
          | inl same ↦ rw same (rw e at h)
          | inr (here, changed) ↦ rw changed (lookup-update-none t u f flow.tasks (rw e at h))
        ]
]

-- A task that is found after an assignment was there before, and is as it was or its change.
pub find_task-set_task_earlier :
    (w t : String) (f : Task → Task) (m : Model) (v u : String) {y : Task}
    → find_task v u (set_task w t f m).1 ≡ some y
    → (x : Task) × (find_task v u m ≡ some x) × ((y ≡ x) ⊎ (w ≡ v) × (t ≡ u) × (y ≡ f x))
find_task-set_task_earlier w t f m v u {y} h = elim (Option-cases (find_task v u m)) [
  | inl e ↦ absurd (cc (find_task-set_task-none_there w t f m v u e))
  | inr (x, e) ↦ (
    x,
    e,
    elim (find_task-set_task_later w t f m v u e) [
      | inl same ↦ inl (found_same h same)
      | inr (here, it, there) ↦ inr (here, it, found_same h there)
    ],
  )
]
