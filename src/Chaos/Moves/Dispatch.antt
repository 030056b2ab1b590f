-- ===== src/Chaos/Moves/Dispatch.antt =====
-- `lease_next`, `apply` and a scenario of actions in tools/chaos_lab/model.py change the store by
-- small steps.
use helix_grid.Prelude.{
  ℕ, suc, ◌-◌, String, ltb, leb, not-leb→lt, ◌≡◌, false, not, ◌&&◌, List, [], ◌∷◌, none, some,
  length, arith,
}
use helix_grid.Prelude.Dict.{Dict, lookup, keys}
use helix_grid.Prelude.Sorting.{sort}
use helix_grid.Prelude.Exec.{ok, gets, ◌>>=◌}
use helix_grid.Prelude.Exec.Respects.{
  Preorder, Respects, bind_at, bind_read, bind_gets, if_at, Respects-pure, Respects-bind,
  Respects-if,
}
use helix_grid.Chaos.Types.{TaskState, ActionKind, Action, Workflow, Worker, same_state}
use helix_grid.Chaos.State.{Model, Act, require_worker}
use helix_grid.Chaos.Tasks.{labels_match}
use helix_grid.Chaos.Dispatch.{
  Candidate, candidate_le, scan_tasks, scan_workflow, scan_workflows, is_open, grant_first,
  lease_next, apply_kind, apply, ignore,
}
use helix_grid.Chaos.Moves.{FlowSteps}
use helix_grid.Chaos.Moves.Grants.{SameWorkers-steps, HasRoom, Grants}
use helix_grid.Chaos.Moves.Lookups.{found_same}
use helix_grid.Chaos.Moves.Recompute.{
  require_task-Respects, require_workflow-Respects, recompute-Respects,
}
use helix_grid.Chaos.Moves.Leases.{reject-Respects, sweep-Respects}
use helix_grid.Chaos.Moves.Handlers.{
  start-Respects, renew-Respects, append_log-Respects, complete_success-Respects,
  complete_failure-Respects, refuse_closed-Respects,
}
use helix_grid.Chaos.Handlers.{stale_complete, stale_renew, duplicate_complete}
use helix_grid.Chaos.Moves.Admin.{
  register_worker-Respects, heartbeat-Respects, drop_worker-Respects, cancel_workflow-Respects,
  advance-Respects,
}

require_worker-reads : (id : String) (m : Model) → (require_worker id m).1 ≡ m
unfolding require_worker ◌>>=◌
require_worker-reads id m = ground arith

require_worker-ok :
    (id : String) (m : Model) {w : Worker}
    → (require_worker id m).0 ≡ ok w
    → lookup id m.workers ≡ some w
unfolding require_worker ◌>>=◌
require_worker-ok id m h = ground arith

module _ {R : Model → Model → Type 0} (steps : FlowSteps R) where
  open steps use {pre}

  scan_tasks-Respects :
      (labels : Dict String) (v : Workflow) (index : ℕ) (order : List String)
      → Respects R (scan_tasks labels v index order)
  unfolding scan_tasks
  scan_tasks-Respects labels v index [] = Respects-pure pre []
  scan_tasks-Respects labels v index (t ∷ order) =
      Respects-bind pre _ _ (require_task-Respects steps.tasks v.id t) λ x.
        Respects-bind pre _ _ (scan_tasks-Respects labels v (suc index) order) (λ rest.
          Respects-if (same_state x.state TaskState.ready && labels_match labels x.labels) _ _
            (Respects-pure pre _) (Respects-pure pre _))

  scan_workflow-Respects : (labels : Dict String) (w : String) → Respects R (scan_workflow labels w)
  unfolding scan_workflow
  scan_workflow-Respects labels w =
      Respects-bind pre _ _ (require_workflow-Respects steps.tasks w) λ v.
        Respects-if (not (is_open v.state)) _ _ (Respects-pure pre []) (
          Respects-bind pre _ _ (recompute-Respects steps v.id)
            (λ _. scan_tasks-Respects labels v 0 v.order))

  scan_workflows-Respects :
      (labels : Dict String) (ids : List String) → Respects R (scan_workflows labels ids)
  unfolding scan_workflows
  scan_workflows-Respects labels [] = Respects-pure pre []
  scan_workflows-Respects labels (w ∷ ids) =
      Respects-bind pre _ _ (scan_workflow-Respects labels w)
        λ _. Respects-bind pre _ _ (scan_workflows-Respects labels ids) (λ _. Respects-pure pre _)

module _ {R : Model → Model → Type 0} (pre : Preorder R) where
  pub ignore-Respects : {A : Type 0} (m : Act A) → Respects R m → Respects R (ignore m)
  ignore-Respects m h = Respects-bind pre _ _ h (λ _. Respects-pure pre tt)

module _ {digest : String → String} {R : Model → Model → Type 0} (grants : Grants digest R) where
  open grants use {steps, granted}
  open steps use {pre}

  grant_first-at :
      (id : String) (w : Worker) (cs : List Candidate) (m : Model)
      → HasRoom id m
      → R m (grant_first digest id w cs m).1
  grant_first-at id w [] m room = (Respects-pure pre none).at m
  grant_first-at id w (c ∷ cs) m room =
      bind_at pre _ _ m (granted id w c m room) (λ _ _. (Respects-pure pre _).at _)

  pub lease_next-Respects : (id : String) → Respects R (lease_next digest id)
  unfolding lease_next
  lease_next-Respects id = Respects-bind pre _ _ (sweep-Respects steps) λ _. record {
    at = λ m. bind_read pre (require_worker id) _ m (require_worker-reads id m) (λ w found.
        bind_gets pre (λ n. n.now_ms) _ m
          (bind_gets pre (λ n. n.worker_ttl_ms) _ m
            (if_at pre w.dropped _ _ m (λ _. (reject-Respects steps _ _).at m)
              (λ _.
                if_at pre (ltb m.worker_ttl_ms (m.now_ms - w.heartbeat_ms)) _ _ m
                  (λ _. (reject-Respects steps _ _).at m)
                  (λ _.
                    if_at pre (leb w.capacity (length w.active_tokens)) _ _ m
                      (λ _. (Respects-pure pre _).at m)
                      (λ room. choose w m (require_worker-ok id m found) room))))));
  }
    where
      choose :
          (w : Worker) (m : Model)
          → lookup id m.workers ≡ some w
          → leb w.capacity (length w.active_tokens) ≡ false
          → R m
              ((gets (λ n. keys n.workflows) >>= λ ids. scan_workflows w.labels ids >>= λ cs.
                  grant_first digest id w (sort candidate_le cs))
                m).1
      choose w m found room =
          let scan = scan_workflows-Respects SameWorkers-steps w.labels (keys m.workflows) in
          bind_gets pre (λ n. keys n.workflows) _ m
            (bind_at pre _ _ m ((scan_workflows-Respects steps.flow w.labels _).at m) (λ cs _.
              grant_first-at id w (sort candidate_le cs) _ (λ y there.
                let same = found_same (rw (scan.at m) at there) found in
                rw same (not-leb→lt _ _ room))))

  -- Every action, refused or not, changes the store by small steps only.
  pub apply-Respects : (a : Action) → Respects R (apply digest a)
  unfolding apply stale_complete stale_renew duplicate_complete
  apply-Respects a = go a.kind
    where
      go : (k : ActionKind) → Respects R (apply_kind digest k a)
      go ActionKind.register_worker =
          ignore-Respects pre _ (register_worker-Respects steps _ _ _ _ _)
      go ActionKind.heartbeat = ignore-Respects pre _ (heartbeat-Respects steps _)
      go ActionKind.lease = ignore-Respects pre _ (lease_next-Respects _)
      go ActionKind.start = ignore-Respects pre _ (start-Respects steps _)
      go ActionKind.renew = ignore-Respects pre _ (renew-Respects steps _)
      go ActionKind.log = append_log-Respects steps _ _ _
      go ActionKind.complete_success = ignore-Respects pre _ (complete_success-Respects steps _)
      go ActionKind.complete_failure = ignore-Respects pre _ (complete_failure-Respects steps _ _ _)
      go ActionKind.advance_time = advance-Respects steps _ _
      go ActionKind.sweep = sweep-Respects steps
      go ActionKind.cancel_workflow = ignore-Respects pre _ (cancel_workflow-Respects steps _)
      go ActionKind.drop_worker = drop_worker-Respects steps _
      go ActionKind.stale_complete = refuse_closed-Respects steps _ _ _ _
      go ActionKind.stale_renew = refuse_closed-Respects steps _ _ _ _
      go ActionKind.duplicate_complete = refuse_closed-Respects steps _ _ _ _
