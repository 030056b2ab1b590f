-- ===== src/Chaos/Invariants/Progress/Calls.antt =====
-- Every small step, and so every call, of the model of tools/chaos_lab/model.py leads to a later
-- store.
use helix_grid.Prelude.{
  ℕ, String, text_eq, text_eq_iff, ◌≡◌, refl, sym, false, List, [], some, arith, inl, inr,
  Bool-cases,
}
use mathlib.Core.List.{append-nil}
use helix_grid.Prelude.Dict.{Dict, lookup, insert, update, contains, lookup-insert, lookup-update}
use helix_grid.Prelude.Exec.{◌>>=◌}
use helix_grid.Chaos.Types.{Task, Workflow, Lease}
use helix_grid.Chaos.State.{Model, emit, find_task, set_task, set_workflow, set_worker, set_lease}
use helix_grid.Chaos.Leases.{retire}
use helix_grid.Chaos.Admin.{store_workflow, store_worker, tick}
use helix_grid.Chaos.Dispatch.{store_lease}
use helix_grid.Chaos.Moves.{TaskMove, WorkflowMove, resettled, AllSteps}
use helix_grid.Chaos.Session.{Call, replay, replay-at}
use helix_grid.Chaos.Invariants.Progress.{
  TaskLater-refl, TaskLater-move, WorkflowLater, WorkflowLater-refl, Later, Later-Alike,
  Later-trans,
}

module _ (w t : String) (f : Task → Task) (m : Model)
    (move : (x : Task) → find_task w t m ≡ some x → TaskMove w m x (f x)) where
  changed_flow :
      (x : Workflow)
      → lookup w m.workflows ≡ some x
      → WorkflowLater x (record x { tasks = update t f x.tasks })
  changed_flow x found = record {
    stopped = λ h. refl;
    tasks_later = λ s u h. elim (lookup-update t s f x.tasks h) [
      | inl same ↦ (u, same, TaskLater-refl u)
      | inr (e, changed) ↦ (f u, changed, TaskLater-move w m u (f u) (move u (rw (found, e) h)))
    ];
  }

  task_flows :
      (v : String) (x : Workflow)
      → lookup v m.workflows ≡ some x
      → (y : Workflow) × (lookup v (set_task w t f m).1.workflows ≡ some y) × WorkflowLater x y
  unfolding set_task ◌>>=◌
  task_flows v x h = elim (lookup-update w v _ m.workflows h) [
    | inl same ↦ (x, same, WorkflowLater-refl x)
    | inr (e, changed) ↦ (_, changed, changed_flow x (rw e h))
  ]

  task_moved-Later : Later m (set_task w t f m).1
  unfolding set_task ◌>>=◌
  task_moved-Later = record {
    clock = omega arith;
    log = ([], sym (append-nil m.events));
    flows = task_flows;
    closed = λ token h. h;
  }

moved_flow : (m : Model) (x y : Workflow) → WorkflowMove m x y → WorkflowLater x y
moved_flow m x y (resettled s finished going stamp e) =
    rw e (record { stopped = λ h. absurd (cc); tasks_later = λ t u h. (u, h, TaskLater-refl u) })

workflow_moved-Later :
    (w : String) (f : Workflow → Workflow) (m : Model)
    → ((x : Workflow) → lookup w m.workflows ≡ some x → WorkflowMove m x (f x))
    → Later m (set_workflow w f m).1
unfolding set_workflow ◌>>=◌
workflow_moved-Later w f m move = record {
  clock = omega arith;
  log = ([], sym (append-nil m.events));
  flows = λ v x h. elim (lookup-update w v f m.workflows h) [
    | inl same ↦ (x, same, WorkflowLater-refl x)
    | inr (e, changed) ↦ (f x, changed, moved_flow m x (f x) (move x (rw e h)))
  ];
  closed = λ token h. h;
}

-- A new key hides no old entry.
lookup-insert_new {ℓ} :
    {V : Type ℓ} (k j : String) (v : V) {x : V} (d : Dict V)
    → contains k d ≡ false
    → lookup j d ≡ some x
    → lookup j (insert k v d) ≡ some x
lookup-insert_new k j v d new h = elim (Bool-cases (text_eq k j)) [
  | inl e ↦ let same : k ≡ j = (text_eq_iff k j).0 e in absurd (cc (rw (same, h) at new))
  | inr e ↦ rw (lookup-insert k j v d) (rw e h)
]

workflow_stored-Later :
    (w name : String) (tasks : List Task) (order : List String) (metadata : Dict String) (m : Model)
    → contains w m.workflows ≡ false
    → Later m (store_workflow w name tasks order metadata m).1
unfolding store_workflow ◌>>=◌
workflow_stored-Later w name tasks order metadata m new = record {
  clock = omega arith;
  log = ([], sym (append-nil m.events));
  flows = λ v x h. (x, lookup-insert_new w v _ m.workflows new h, WorkflowLater-refl x);
  closed = λ token h. h;
}

retired-Later : (lease : Lease) (m : Model) → Later m (retire lease m)
unfolding retire
retired-Later lease m = record {
  clock = omega arith;
  log = ([], sym (append-nil m.events));
  flows = λ v x h. (x, h, WorkflowLater-refl x);
  closed = λ token h. rw (lookup-insert lease.token token _ m.closed_leases) (ground arith);
}

emitted-Later :
    (kind w t p : String) (payload : Dict String) (m : Model)
    → Later m (emit kind w t p payload m).1
unfolding emit
emitted-Later kind w t p payload m = record {
  clock = omega arith;
  log = (_, refl);
  flows = λ v x h. (x, h, WorkflowLater-refl x);
  closed = λ token h. h;
}

ticked-Later : (n : ℕ) (m : Model) → Later m (tick n m).1
unfolding tick ◌>>=◌
ticked-Later n m = record {
  clock = omega arith;
  log = ([], sym (append-nil m.events));
  flows = λ v x h. (x, h, WorkflowLater-refl x);
  closed = λ token h. h;
}

Later-steps : AllSteps Later
unfolding set_worker set_lease store_worker store_lease ◌>>=◌
Later-steps = record {
  steps = record {
    flow = record {
      tasks = record {
        pre = record {
          same = λ m. Later-Alike m m (refl, refl, refl, refl);
          compose = Later-trans;
        };
        emitted = emitted-Later;
        task_moved = task_moved-Later;
      };
      workflow_moved = workflow_moved-Later;
    };
    rejected = λ code m. Later-Alike _ _ (refl, refl, refl, refl);
    numbered = λ m. Later-Alike _ _ (refl, refl, refl, refl);
    ticked = ticked-Later;
    worker_moved = λ id f m move. Later-Alike _ _ (refl, refl, refl, refl);
    worker_stored = λ id name capacity labels m new. Later-Alike _ _ (refl, refl, refl, refl);
    workflow_stored = λ w name tasks order metadata m new valid.
        workflow_stored-Later w name tasks order metadata m new;
    lease_moved = λ token f m move. Later-Alike _ _ (refl, refl, refl, refl);
    retired = λ lease m active. retired-Later lease m;
  };
  lease_stored = λ lease m active acquired expires. Later-Alike _ _ (refl, refl, refl, refl);
}

-- Whatever calls are made, the clock does not go back, the event log only grows, no workflow or
-- task is lost, a task's history and its counts of attempts and output only grow, a workflow or task
-- in a terminal state stays in it, and a closed lease token stays in the closed table.
pub replay-Later :
    (digest : String → String) (calls : List Call) (m : Model) → Later m (replay digest calls m)
replay-Later digest calls m = replay-at Later-steps digest calls m
