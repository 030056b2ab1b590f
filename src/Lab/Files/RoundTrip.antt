-- ===== src/Lab/Files/RoundTrip.antt =====
-- What `scenario_from_dict` of tools/chaos_lab/runner.py makes of what `scenario_to_dict` gives.
use helix_grid.Prelude.{◌≡◌, refl, ap, String, List, [], ◌∷◌, map, All, All-map, some}
use helix_grid.Prelude.Dict.{Dict}
use helix_grid.Prelude.Json.{Json, text, items, entries}
use helix_grid.Prelude.Exec.{ok, ◌>>=◌}
use helix_grid.Chaos.Types.{Action, ActionKind, Task}
use helix_grid.Chaos.Admin.{post_init}
use helix_grid.Chaos.Snapshot.{action_json, kind_name}
use helix_grid.Lab.Types.{GeneratedScenario, GeneratedWorkflow, WorkerSpec, new_task}
use helix_grid.Lab.Files.{
  Conversions, Read, list_of, each, all_kinds, kind_among, texts, labels_of, action_from_dict,
  retry_from_dict, task_from_dict, worker_from_dict, workflow_from_dict, scenario_from_dict,
  task_to_dict, worker_to_dict, workflow_to_dict, scenario_to_dict, loaded,
}

list_of-items : {A : Type 0} (f : A → Json) (xs : List A) → list_of (items f xs) ≡ map f xs
list_of-items f [] = refl
list_of-items f (x ∷ xs) = ap (λ ys. f x ∷ ys) (list_of-items f xs)

-- What is written item by item is read item by item.
each-map :
    {A : Type 0} (read : Json → Read A) (write : A → Json) (xs : List A)
    → All (λ x. read (write x) tt ≡ (ok x, tt)) xs
    → each read (list_of (items write xs)) tt ≡ (ok xs, tt)
unfolding each ◌>>=◌
each-map read write [] h = refl
each-map read write (x ∷ xs) h = rw (h.0, each-map read write xs h.1) refl

every : {A : Type 0} {P : A → Type 0} (xs : List A) → ((x : A) → P x) → All P xs
every [] h = tt
every (x ∷ xs) h = (h x, every xs h)

kind_among-name : (k : ActionKind) → kind_among all_kinds (kind_name k) ≡ some k
kind_among-name ActionKind.register_worker = refl
kind_among-name ActionKind.heartbeat = refl
kind_among-name ActionKind.lease = refl
kind_among-name ActionKind.start = refl
kind_among-name ActionKind.renew = refl
kind_among-name ActionKind.log = refl
kind_among-name ActionKind.complete_success = refl
kind_among-name ActionKind.complete_failure = refl
kind_among-name ActionKind.advance_time = refl
kind_among-name ActionKind.sweep = refl
kind_among-name ActionKind.cancel_workflow = refl
kind_among-name ActionKind.drop_worker = refl
kind_among-name ActionKind.stale_complete = refl
kind_among-name ActionKind.stale_renew = refl
kind_among-name ActionKind.duplicate_complete = refl

-- The task is what the constructor makes of five of its fields.
abbrev pub IsNew : Task → Type 0
IsNew t = post_init (new_task t.id t.depends_on t.labels t.retry t.timeout_ms) ≡ ok t

module _ (conv : Conversions) where
  texts-items : (xs : List String) → texts conv (list_of (items text xs)) ≡ xs
  texts-items [] = refl
  texts-items (x ∷ xs) = ap (λ ys. x ∷ ys) (texts-items xs)

  labels_of-entries : (d : Dict String) → labels_of conv (entries text d) ≡ d
  labels_of-entries [] = refl
  labels_of-entries ((k, v) ∷ d) = ap (λ e. (k, v) ∷ e) (labels_of-entries d)

  action_from_dict-action_json :
      (a : Action) → action_from_dict conv (action_json a) tt ≡ (ok a, tt)
  unfolding action_from_dict ◌>>=◌
  action_from_dict-action_json a = rw (kind_among-name a.kind) refl

  worker_from_dict-worker_to_dict :
      (w : WorkerSpec) → worker_from_dict conv (worker_to_dict w) tt ≡ (ok w, tt)
  unfolding worker_from_dict ◌>>=◌
  worker_from_dict-worker_to_dict w = rw (labels_of-entries w.labels) refl

  task_from_dict-task_to_dict :
      (t : Task) → IsNew t → task_from_dict conv (task_to_dict t) tt ≡ (ok t, tt)
  unfolding task_from_dict retry_from_dict ◌>>=◌
  task_from_dict-task_to_dict t h =
      rw (texts-items t.depends_on, labels_of-entries t.labels, h) refl

  workflow_from_dict-workflow_to_dict :
      (w : GeneratedWorkflow)
      → All IsNew w.tasks
      → workflow_from_dict conv (workflow_to_dict w) tt ≡ (ok w, tt)
  unfolding workflow_from_dict ◌>>=◌
  workflow_from_dict-workflow_to_dict w h =
      rw
        (
          each-map (task_from_dict conv) task_to_dict w.tasks
              (All-map w.tasks (λ t new. task_from_dict-task_to_dict t new) h),
          labels_of-entries w.metadata,
        )
        refl

  -- A scenario whose tasks are new, written as a JSON object and read again, is itself.
  pub loaded-scenario_to_dict :
      (s : GeneratedScenario)
      → All IsNew s.workflow.tasks
      → loaded conv (scenario_to_dict s) tt ≡ (ok s, tt)
  unfolding loaded scenario_from_dict scenario_to_dict ◌>>=◌
  loaded-scenario_to_dict s h =
      rw
        (
          workflow_from_dict-workflow_to_dict s.workflow h,
          each-map (worker_from_dict conv) worker_to_dict s.worker_specs
              (every s.worker_specs worker_from_dict-worker_to_dict),
          each-map (action_from_dict conv) action_json s.actions
              (every s.actions action_from_dict-action_json),
          texts-items s.notes,
        )
        refl
