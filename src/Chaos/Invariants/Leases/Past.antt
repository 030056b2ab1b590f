-- ===== src/Chaos/Invariants/Leases/Past.antt =====
-- The id counter and the clock of the model of tools/chaos_lab/model.py, once they have gone past a
-- bound.
use helix_grid.Prelude.{ℕ, suc, ◌<◌, String, arith, inl, inr, ◌⊎◌}
use helix_grid.Prelude.Exec.{◌>>=◌}
use helix_grid.Prelude.Exec.Respects.{Respects}
use helix_grid.Chaos.Types.{Task, Worker, Lease}
use helix_grid.Chaos.State.{Model, emit, set_task, set_workflow, set_worker, set_lease}
use helix_grid.Chaos.Leases.{retire}
use helix_grid.Chaos.Admin.{store_workflow, store_worker, tick}
use helix_grid.Chaos.Dispatch.{Candidate, store_lease, grant}
use helix_grid.Chaos.Moves.{Steps}
use helix_grid.Chaos.Invariants.{Keeps}
use helix_grid.Chaos.Invariants.Leases.Granting.{grant-Keeps}

-- The ids or the clock have gone past a bound.
module _ (last end : ℕ) where
  abbrev pub IsPast : Model → Type 0
  IsPast m = (last < m.id_counter) ⊎ (end < m.now_ms)

  pub IsPast-steps : Steps (Keeps IsPast)
  unfolding emit set_task set_workflow set_worker set_lease store_worker store_workflow retire tick
      ◌>>=◌
  IsPast-steps = record {
    flow = record {
      tasks = record {
        pre = record { same = λ m h. h; compose = λ m n o p q h. q (p h) };
        emitted = λ kind w t p payload m h. h;
        task_moved = λ w t f m move h. h;
      };
      workflow_moved = λ w f m move h. h;
    };
    rejected = λ code m h. h;
    numbered = λ m h. ground (arith, h);
    ticked = λ n m h. ground (arith, h);
    worker_moved = λ id f m move h. h;
    worker_stored = λ id name capacity labels m new h. h;
    workflow_stored = λ id name tasks order metadata m new valid h. h;
    lease_moved = λ k f m move h. h;
    retired = λ lease m active h. h;
  }

  set_task-IsPast : (w t : String) (f : Task → Task) → Respects (Keeps IsPast) (set_task w t f)
  unfolding set_task ◌>>=◌
  set_task-IsPast w t f = record { at = λ m h. h }

  set_worker-IsPast :
      (id : String) (f : Worker → Worker) → Respects (Keeps IsPast) (set_worker id f)
  unfolding set_worker ◌>>=◌
  set_worker-IsPast id f = record { at = λ m h. h }

  store_lease-IsPast : (lease : Lease) → Respects (Keeps IsPast) (store_lease lease)
  unfolding store_lease ◌>>=◌
  store_lease-IsPast lease = record { at = λ m h. h }

  pub grant-IsPast :
      (digest : String → String) (id : String) (w : Worker) (c : Candidate) (m : Model)
      → IsPast (record m { id_counter = suc m.id_counter })
      → IsPast (grant digest id w c m).1
  grant-IsPast digest id w c m h =
      grant-Keeps IsPast IsPast-steps.flow.tasks set_task-IsPast set_worker-IsPast digest id w c m
        (λ lease e. store_lease-IsPast lease) h

-- What two properties keep, their sum keeps.
module _ {P Q : Model → Type 0} (p : Steps (Keeps P)) (q : Steps (Keeps Q)) where
  abbrev pub Either : Model → Type 0
  Either m = P m ⊎ Q m

  either : {m n : Model} → Keeps P m n → Keeps Q m n → Keeps Either m n
  either f g (inl h) = inl (f h)
  either f g (inr h) = inr (g h)

  pub Either-steps : Steps (Keeps Either)
  Either-steps = record {
    flow = record {
      tasks = record {
        pre = record { same = λ m h. h; compose = λ m n o p q h. q (p h) };
        emitted = λ kind w t i payload m.
            either (p.flow.tasks.emitted kind w t i payload m)
              (q.flow.tasks.emitted kind w t i payload m);
        task_moved = λ w t f m move.
            either (p.flow.tasks.task_moved w t f m move) (q.flow.tasks.task_moved w t f m move);
      };
      workflow_moved = λ w f m move.
          either (p.flow.workflow_moved w f m move) (q.flow.workflow_moved w f m move);
    };
    rejected = λ code m. either (p.rejected code m) (q.rejected code m);
    numbered = λ m. either (p.numbered m) (q.numbered m);
    ticked = λ n m. either (p.ticked n m) (q.ticked n m);
    worker_moved = λ id f m move. either (p.worker_moved id f m move) (q.worker_moved id f m move);
    worker_stored = λ id name capacity labels m new.
        either (p.worker_stored id name capacity labels m new)
          (q.worker_stored id name capacity labels m new);
    workflow_stored = λ id name tasks order metadata m new valid.
        either (p.workflow_stored id name tasks order metadata m new valid)
          (q.workflow_stored id name tasks order metadata m new valid);
    lease_moved = λ k f m move. either (p.lease_moved k f m move) (q.lease_moved k f m move);
    retired = λ lease m active. either (p.retired lease m active) (q.retired lease m active);
  }
