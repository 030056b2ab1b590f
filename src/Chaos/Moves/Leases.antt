-- ===== src/Chaos/Moves/Leases.antt =====
-- Closing, expiring and sweeping leases in tools/chaos_lab/model.py change the store by small
-- steps.
use helix_grid.Prelude.{
  arith, not, ◌&&◌, true, sym, ap, ◌∙◌, text_eq, some, String, ltb, ◌≡◌, refl, false, Option-cases,
  inl, inr,
}
use helix_grid.Prelude.Dict.{lookup}
use helix_grid.Prelude.Exec.{ok, modify, ◌>>=◌}
use helix_grid.Prelude.Exec.Respects.{
  Preorder, bind_at, bind_read, Respects, if_at, Respects-pure, Respects-raise, Respects-gets,
  Respects-bind, Respects-if, Respects-some_or, Respects-for_each,
}
use helix_grid.Chaos.Types.{TaskState, Task, Workflow, Worker, Lease, Error, workflow_terminal}
use helix_grid.Chaos.State.{
  Model, reject, require_worker, require_workflow, find_task, set_task, set_worker,
}
use helix_grid.Chaos.Leases.{
  cleared, drop_token, forget_run, is_held, resolve_lease, retire, close_lease, expire_known,
  expire_lease, ensure_live_lease, missing_lease, require_active_lease, sweep,
}
use helix_grid.Chaos.Moves.{kept, taken, noted, freed, Steps}
use helix_grid.Chaos.Moves.Lookups.{found_same, find_task-set_task_inv, find_task-set_task_earlier}
use helix_grid.Chaos.Moves.Recompute.{
  emit-Respects, require_workflow-Respects, transition_task-at, recompute-Respects,
}

resolve_lease-reads : (lease : Lease) (m : Model) → (resolve_lease lease m).1 ≡ m
unfolding resolve_lease require_workflow require_worker ◌>>=◌
resolve_lease-reads lease m = ground arith

-- What `close_lease` does
record Closes (R : Model → Model → Type 0) : Type 0 where
  pre : Preorder R
  worker_freed : (id token : String) (m : Model) → R m (set_worker id (drop_token token) m).1
  task_cleared : (w t : String) (m : Model) → R m (set_task w t cleared m).1
  lease_retired : (lease : Lease) (m : Model) → lease.closed ≡ false → R m (retire lease m)

close_lease-Closes :
    {R : Model → Model → Type 0} → Closes R → (lease : Lease) → Respects R (close_lease lease)
unfolding close_lease modify
close_lease-Closes closes lease =
    let pre = closes.pre in
    record {
      at = λ m.
          if_at pre lease.closed _ _ m (λ _. (Respects-pure pre tt).at m)
            (λ active.
              bind_read pre (resolve_lease lease) _ m (resolve_lease-reads lease m) (λ (v, x, w) _.
                bind_at pre _ _ m (closes.worker_freed _ _ m) (λ _ _.
                  bind_at pre _ _ _
                    (if_at pre (text_eq x.lease_token lease.token) _ _ _
                      (λ _. closes.task_cleared _ _ _) (λ _. (Respects-pure pre tt).at _))
                    (λ _ _. closes.lease_retired lease _ active))));
    }

-- A task that is there after `close_lease` was there before, in the same state.
abbrev SameStates : Model → Model → Type 0
SameStates m n =
    (w t : String) (y : Task)
    → find_task w t n ≡ some y
    → (x : Task) × (find_task w t m ≡ some x) × (y.state ≡ x.state)

SameStates-Closes : Closes SameStates
unfolding set_worker retire ◌>>=◌
SameStates-Closes = record {
  pre = record {
    same = λ m w t y h. (y, h, refl);
    compose = λ m n o p q w t z h.
        let (y, hy, ey) = q w t z h in let (x, hx, ex) = p w t y hy in (x, hx, ey ∙ ex);
  };
  worker_freed = λ id token m w t y h. (y, h, refl);
  task_cleared = λ w t m v u y h.
      let (x, there, e) = find_task-set_task_earlier w t cleared m v u h in
      (
        x,
        there,
        elim e [
          | inl e ↦ ap (λ (k : Task). k.state) e
          | inr (a, b, e) ↦ ap (λ (k : Task). k.state) e
        ],
      );
  lease_retired = λ lease m active w t y h. (y, h, refl);
}

resolve_lease-ok :
    (lease : Lease) (m : Model) {v : Workflow} {x : Task} {w : Worker}
    → (resolve_lease lease m).0 ≡ ok (v, x, w)
    → find_task lease.workflow_id lease.task_id m ≡ some x
unfolding resolve_lease require_workflow require_worker ◌>>=◌
resolve_lease-ok lease m h = ground arith

-- A task that a worker held before its lease was closed is not PENDING after it.
unheld :
    (lease : Lease) (m : Model) (v : Workflow) (x : Task) (w : Worker)
    → (resolve_lease lease m).0 ≡ ok (v, x, w)
    → (y : Task)
    → find_task lease.workflow_id lease.task_id
        (set_task lease.workflow_id lease.task_id forget_run (close_lease lease m).1).1
      ≡ some y
    → y.state ≡ TaskState.pending
    → (is_held x.state && not (workflow_terminal v.state)) ≡ true
    → ⊥
unheld lease m v x w found y there pending held =
    let (c, closed, e) =
      find_task-set_task_inv lease.workflow_id lease.task_id forget_run (close_lease lease m).1
        there in
    let (b, before, same) =
      (close_lease-Closes SameStates-Closes lease).at m lease.workflow_id lease.task_id c closed in
    let still : x.state ≡ TaskState.pending =
      ap (λ (k : Task). k.state) (found_same (resolve_lease-ok lease m found) before)
      ∙ sym same
      ∙ sym (ap (λ (k : Task). k.state) e)
      ∙ pending in
    ground (arith, rw still at held)

module _ {R : Model → Model → Type 0} (steps : Steps R) where
  open steps use {pre, rejected, task_moved, worker_moved, retired}

  pub reject-Respects :
      {A : Type 0} (code message : String) → Respects R (reject {A = A} code message)
  unfolding reject
  reject-Respects code message = record { at = rejected code }

  pub require_worker-Respects : (id : String) → Respects R (require_worker id)
  unfolding require_worker
  require_worker-Respects id = record {
    at = λ m. (Respects-some_or pre (lookup id m.workers) _ (Respects-raise pre _)).at m;
  }

  pub resolve_lease-Respects : (lease : Lease) → Respects R (resolve_lease lease)
  unfolding resolve_lease
  resolve_lease-Respects lease =
      Respects-bind pre _ _ (require_workflow-Respects steps.flow.tasks _) λ _.
        Respects-bind pre _ _
          (record { at = λ m. (Respects-some_or pre _ _ (Respects-raise pre _)).at m })
          (λ _. Respects-bind pre _ _ (require_worker-Respects _) (λ _. Respects-pure pre _))

  retire-Respects :
      (lease : Lease) → lease.closed ≡ false → Respects {E = Error} R (modify (retire lease))
  unfolding modify
  retire-Respects lease active = record { at = λ m. retired lease m active }

  pub close_lease-Respects : (lease : Lease) → Respects R (close_lease lease)
  close_lease-Respects lease =
      close_lease-Closes
        (record {
          pre = pre;
          worker_freed = λ id token m. worker_moved id _ m (λ x _. freed token refl);
          task_cleared = λ w t m.
              task_moved w t _ m (λ x _. noted _ _ _ _ _ _ _ _ (kept refl) (kept refl) refl);
          lease_retired = retired;
        })
        lease

  pub expire_known-Respects : (lease : Lease) → Respects R (expire_known lease)
  unfolding expire_known
  expire_known-Respects lease = record {
    at = λ m.
        bind_read pre (resolve_lease lease) _ m (resolve_lease-reads lease m) (λ (v, x, w) found.
          bind_at pre (close_lease lease) _ m ((close_lease-Respects lease).at m) (λ _ _.
            if_at pre (is_held x.state && not (workflow_terminal v.state)) _ _ _
              (λ held.
                bind_at pre _ _ _
                  (task_moved _ _ forget_run _
                    (λ y _. noted _ _ _ _ _ _ _ _ (taken refl) (taken refl) refl))
                  (λ _ _.
                    bind_at pre _ _ _
                      (transition_task-at steps.flow.tasks _ _ TaskState.ready _ (λ y e bad. cc)
                        (λ y there to_ready pending.
                          absurd (unheld lease m v x w found y there pending held)))
                      (λ _ _. (emit-Respects steps.flow.tasks _ _ _ _ _).at _)))
              (λ _. (Respects-pure pre tt).at _)));
  }

  pub expire_lease-Respects : (token : String) → Respects R (expire_lease token)
  unfolding expire_lease
  expire_lease-Respects token = record {
    at = λ m. elim (Option-cases (lookup token m.leases)) [
      | inl e ↦ rw (e, expire_lease) ((Respects-pure pre tt).at m)
      | inr (lease, e) ↦
          rw (e, expire_lease)
            ((Respects-if (ltb m.now_ms lease.expires_ms) _ _ (Respects-raise pre _)
                (expire_known-Respects lease)).at
              m)
    ];
  }

  pub ensure_live_lease-Respects : (lease : Lease) → Respects R (ensure_live_lease lease)
  unfolding ensure_live_lease
  ensure_live_lease-Respects lease = Respects-bind pre _ _ (Respects-gets pre _) λ now.
      Respects-if _ _ _ (Respects-bind pre _ _ (expire_lease-Respects _) (λ _. reject-Respects _ _))
        (Respects-pure pre tt)

  pub require_active_lease-Respects : (token : String) → Respects R (require_active_lease token)
  unfolding require_active_lease missing_lease
  require_active_lease-Respects token = record {
    at = λ m.
        (Respects-some_or pre (lookup token m.leases) _ (
            Respects-bind pre _ _ (Respects-gets pre _)
              (λ known. Respects-if _ _ _ (reject-Respects _ _) (reject-Respects _ _)))).at
          m;
  }

  pub sweep-Respects : Respects R sweep
  unfolding sweep
  sweep-Respects = Respects-bind pre _ _ (Respects-gets pre _) λ due.
      Respects-bind pre _ _ (Respects-for_each pre _ due (λ l. expire_lease-Respects l.token)) (λ _.
        Respects-bind pre _ _ (Respects-gets pre _)
          (λ names. Respects-for_each pre _ names (recompute-Respects steps.flow)))
