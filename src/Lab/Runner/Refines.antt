-- ===== src/Lab/Runner/Refines.antt =====
-- The runner of tools/chaos_lab/runner.py makes calls on the model, one after the other, and does
-- nothing else to it: what holds of every sequence of calls holds of its replays.
use helix_grid.Prelude.{
  ℕ, suc, String, ◌&◌, ◌≡◌, refl, sym, subst, ap, ◌∙◌, Bool, true, false, List, [], ◌∷◌, ◌++◌,
  Option, none, some, if◌then◌else◌, is_some, ◌&&◌, arith,
}
use helix_grid.Prelude.Int.{decimal_ℤ}
use helix_grid.Prelude.Exec.Returns.{>>=-ok}
use helix_grid.Prelude.Exec.{Result, ok, err, for_each, pure}
use helix_grid.Chaos.Types.{Action, Error}
use helix_grid.Chaos.State.{Model}
use helix_grid.Chaos.Dispatch.{apply, ignore}
use helix_grid.Chaos.Checks.{check_invariants}
use helix_grid.Chaos.Snapshot.{snapshot}
use helix_grid.Chaos.Session
use helix_grid.Chaos.Session.{Call, load, enlist, act, call}
use helix_grid.Lab.Types.{GeneratedScenario, WorkerSpec}
use helix_grid.Lab.Runner
use helix_grid.Lab.Runner.{
  Host, ReplayFailure, ReplayReport, StepRecord, Run, booted, checked, after_check, after_apply,
  stopped, set_up, run_steps, bootstrap, replay_with, replay, new_model,
}

-- The actions of the records, as calls
abbrev pub acted : List StepRecord → List Call
acted [] = []
acted (r ∷ rs) = act r.action ∷ acted rs

abbrev pub enlisted : List WorkerSpec → List Call
enlisted [] = []
enlisted (w ∷ ws) = enlist w.worker_id w.capacity w.labels w.worker_id ∷ enlisted ws

-- The calls of the set-up
abbrev pub set_up_calls : GeneratedScenario → List Call
set_up_calls s =
    load s.workflow.name s.workflow.tasks ("workflow-" & decimal_ℤ s.seed) s.workflow.metadata
    ∷ enlisted s.worker_specs

module _ (digest : String → String) where
  replay-append :
      (xs ys : List Call) (m : Model)
      → Session.replay digest (xs ++ ys) m ≡ Session.replay digest ys (Session.replay digest xs m)
  unfolding Session.replay
  replay-append [] ys m = refl
  replay-append (c ∷ xs) ys m = replay-append xs ys (call digest c m).1

  either-model :
      (b : Bool) (x y : Run) (n : Model)
      → x.model ≡ Session.replay digest (acted x.records) n
      → y.model ≡ Session.replay digest (acted y.records) n
      → let run = if b then x else y in run.model ≡ Session.replay digest (acted run.records) n
  either-model true x y n hx hy = hx
  either-model false x y n hx hy = hy

module _ (host : Host) where
  -- The model at the end of the loop, whether it ran on or stopped
  run_steps-model :
      (strict stop : Bool) (index : ℕ) (actions : List Action) (before : Option ReplayFailure)
      (m : Model)
      → let run = run_steps host strict stop index actions before m in
        run.model ≡ Session.replay host.blake2s (acted run.records) m
  unfolding run_steps Session.replay call
  run_steps-model strict stop index [] before m = refl
  run_steps-model strict stop index (a ∷ actions) before m =
      let (result, n) = apply host.blake2s a m in
      let f = after_check index a n (after_apply host strict index a result n before) in
      either-model host.blake2s (is_some f && stop) (stopped n f)
        (run_steps host strict stop (suc index) actions f n) n refl
        (run_steps-model strict stop (suc index) actions f n)

  enlisted-model :
      (ws : List WorkerSpec) (m : Model)
      → (for_each (Runner.enlist host) ws m).0 ≡ ok tt
      → (for_each (Runner.enlist host) ws m).1 ≡ Session.replay host.blake2s (enlisted ws) m
  unfolding for_each Session.replay call pure
  enlisted-model [] m h = refl
  enlisted-model (w ∷ ws) m h =
      let parts = >>=-ok (Runner.enlist host w) (λ _. for_each (Runner.enlist host) ws) m h in
      parts.3 ∙ enlisted-model ws _ parts.2

  set_up-model :
      (s : GeneratedScenario) (m : Model)
      → (set_up host s m).0 ≡ ok tt
      → (set_up host s m).1 ≡ Session.replay host.blake2s (set_up_calls s) m
  unfolding set_up Session.replay call
  set_up-model s m h =
      let parts = >>=-ok (ignore _) (λ _. for_each (Runner.enlist host) s.worker_specs) m h in
      parts.3 ∙ enlisted-model s.worker_specs _ parts.2

  checked-ok : (m n : Model) (c : Option String) → checked m c ≡ ok n → (n ≡ m) × (c ≡ none)
  checked-ok m n none h = ground arith
  checked-ok m n (some code) h = absurd (ground arith)

  pub booted-ok :
      (r : Result Error Unit) (m n : Model)
      → booted host (r, m) ≡ ok n
      → (r ≡ ok tt) × (n ≡ m) × (check_invariants n ≡ none)
  booted-ok (err e) m n h = absurd (ground arith)
  booted-ok (ok tt) m n h =
      let parts = checked-ok m n (check_invariants m) h in
      (refl, parts.0, subst (λ k. check_invariants k ≡ none) (sym parts.0) parts.1)

  -- A set-up that succeeds leaves the model that its calls make, and the invariants hold there.
  pub bootstrap-model :
      (s : GeneratedScenario) (m : Model)
      → bootstrap host s ≡ ok m
      → (m ≡ Session.replay host.blake2s (set_up_calls s) new_model) × (check_invariants m ≡ none)
  unfolding bootstrap
  bootstrap-model s m h =
      let parts = booted-ok (set_up host s new_model).0 (set_up host s new_model).1 m h in
      (parts.1 ∙ set_up-model s new_model parts.0, parts.2)

  from-Refines :
      (strict stop : Bool) (s : GeneratedScenario) (xs : List Action) (m : Model)
      → bootstrap host s ≡ ok m
      → let run = run_steps host strict stop 0 xs none m in
        run.model ≡ Session.replay host.blake2s (set_up_calls s ++ acted run.records) new_model
  from-Refines strict stop s xs m ready =
      run_steps-model strict stop 0 xs none m
      ∙ ap (Session.replay host.blake2s (acted (run_steps host strict stop 0 xs none m).records))
          (bootstrap-model s m ready).0
      ∙ sym (replay-append host.blake2s (set_up_calls s) _ new_model)

-- The final snapshot of a replay is that of the model after the calls of the set-up and then the
-- actions of the records, one call each, if the set-up succeeds.
pub replay-Refines :
    (host : Host) (strict stop : Bool) (s : GeneratedScenario) (actions : Option (List Action))
    (m : Model)
    → bootstrap host s ≡ ok m
    → let report = replay_with host strict stop s actions in
      report.final_snapshot
      ≡ snapshot (Session.replay host.blake2s (set_up_calls s ++ acted report.records) new_model)
unfolding replay_with
replay-Refines host strict stop s none m ready =
    rw ready (ap snapshot (from-Refines host strict stop s s.actions m ready))
replay-Refines host strict stop s (some actions) m ready =
    rw ready (ap snapshot (from-Refines host strict stop s actions m ready))
