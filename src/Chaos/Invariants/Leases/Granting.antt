-- ===== src/Chaos/Invariants/Leases/Granting.antt =====
-- What a grant of `lease_next` in tools/chaos_lab/model.py keeps, where the token that it makes is
-- written out.
use helix_grid.Prelude.{ℕ, suc, String, ◌&◌, decimal, ◌≡◌, not, refl}
use helix_grid.Prelude.Exec.{◌>>=◌}
use helix_grid.Prelude.Exec.Respects.{
  Respects, Respects-pure, Respects-raise, Respects-gets, Respects-bind, Respects-if,
}
use helix_grid.Chaos.Types.{TaskState, Task, Worker, Lease, same_state, allowed, one_of}
use helix_grid.Chaos.State.{Model, next_id, set_task, set_worker}
use helix_grid.Chaos.Tasks.{transition_task}
use helix_grid.Chaos.Dispatch.{Candidate, new_lease, store_lease, issue, grant}
use helix_grid.Chaos.Moves.{TaskSteps}
use helix_grid.Chaos.Moves.Recompute.{emit-Respects, require_task-Respects}
use helix_grid.Chaos.Invariants.{Keeps}

-- The id that `next_id` makes when the counter has come to `count`
abbrev pub issued : (String → String) → String → ℕ → ℕ → String
issued digest prefix count now =
    prefix & "_" & digest (prefix & ":" & decimal count & ":" & decimal now)

-- A grant after its `next_id` changes nothing but tasks, workers, the log and the lease it stores.
module _ (P : Model → Type 0) (tasks : TaskSteps (Keeps P))
    (set_task-Keeps : (w t : String) (f : Task → Task) → Respects (Keeps P) (set_task w t f))
    (set_worker-Keeps : (id : String) (f : Worker → Worker)
      → Respects (Keeps P) (set_worker id f)) where
  open tasks use {pre}

  transition_task-Keeps :
      (w t : String) (next : TaskState) → Respects (Keeps P) (transition_task w t next)
  unfolding transition_task
  transition_task-Keeps w t next = Respects-bind pre _ _ (require_task-Respects tasks w t) λ x.
      Respects-if (same_state next x.state) _ _ (Respects-pure pre tt) (
        Respects-if (not (one_of next (allowed x.state))) _ _ (Respects-raise pre _)
          (set_task-Keeps w t _))

  issue-Keeps :
      (id : String) (w : Worker) (c : Candidate) (token : String)
      → ((lease : Lease) → lease.token ≡ token → Respects (Keeps P) (store_lease lease))
      → Respects (Keeps P) (issue id w c token)
  unfolding issue
  issue-Keeps id w c token store = Respects-bind pre _ _ (Respects-gets pre _) λ now.
      Respects-bind pre _ _ (Respects-gets pre _) λ until.
        Respects-bind pre _ _ (set_task-Keeps _ _ _) λ _.
          Respects-bind pre _ _ (require_task-Respects tasks _ _) λ x.
            Respects-bind pre _ _ (store (new_lease token c w x.attempt now until) refl) λ _.
              Respects-bind pre _ _ (set_worker-Keeps _ _) (λ _.
                Respects-bind pre _ _ (emit-Respects tasks _ _ _ _ _) (λ _. Respects-pure pre _))

  pub grant-Keeps :
      (digest : String → String) (id : String) (w : Worker) (c : Candidate) (m : Model)
      → ((lease : Lease)
          → lease.token ≡ issued digest "lease" (suc m.id_counter) m.now_ms
          → Respects (Keeps P) (store_lease lease))
      → P (record m { id_counter = suc m.id_counter })
      → P (grant digest id w c m).1
  unfolding grant next_id ◌>>=◌
  grant-Keeps digest id w c m store h =
      (Respects-bind pre _ _ (set_task-Keeps _ _ _) (λ _.
          Respects-bind pre _ _ (transition_task-Keeps _ _ _) (λ _. issue-Keeps id w c _ store))).at
        (record m { id_counter = suc m.id_counter }) h
