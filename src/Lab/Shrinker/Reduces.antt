-- ===== src/Lab/Shrinker/Reduces.antt =====
-- What `shrink` of tools/chaos_lab/shrinker.py may change of a scenario, through all its rounds.
use helix_grid.Prelude.{
  ℕ, zero, suc, ◌≤◌, ◌≡◌, refl, sym, subst, ◌∙◌, String, mem_text, Bool, true, false, List, [],
  Option, none, some, inl, inr, length, arith, Bool-cases,
}
use helix_grid.Prelude.Int.{ℤ, max_ℕ}
use helix_grid.Prelude.Exec.{ok}
use mathlib.Core.List.{Sublistᴰ}
use mathlib.Core.List.Sublistᴰ
use helix_grid.Chaos.Types.{Action, Task}
use helix_grid.Chaos.Dag.{task_ids, validate_dag}
use helix_grid.Lab.Types.{GeneratedScenario, WorkerSpec}
use helix_grid.Lab.Runner.{Host}
use helix_grid.Lab.Shrinker.Ddmin.{ShrinkPass, ddmin}
use helix_grid.Lab.Shrinker.Ddmin.Chunks.{Sublistᴰ-length}
use helix_grid.Lab.Shrinker.Ddmin.Minimal.{ddmin-Minimized}
use helix_grid.Lab.Shrinker.Actions.{simplify}
use helix_grid.Lab.Shrinker.Names.{
  Sublistᴰ-any, SameNames-worker, SameNames-task, SameNames-length, simplify-SameNames,
}
use helix_grid.Lab.Shrinker.Removal.{
  reference_worker, reference_task, is_valid, remove_workers, remove_tasks,
}
use helix_grid.Lab.Shrinker.Removal.Parts.{
  spec_names, remove_workers-WorkersLeft, remove_tasks-TasksLeft,
}
use helix_grid.Lab.Shrinker.Search.{
  Progress, adopt, with_actions, with_workers, with_tasks, shrink_actions, simplify_actions,
  shrink_workers, shrink_tasks, started, shrink_round, shrink_rounds, ShrinkResult,
  FailurePredicate, fails, finished, searched, shrink,
}

-- A name that actions of `t` mention is mentioned in `s`, and what it names in `s` is still there.
abbrev Retained :
    (List Action → String → Bool)
    → (GeneratedScenario → List String)
    → GeneratedScenario
    → GeneratedScenario
    → Type 0
Retained refers named s t =
    (id : String)
    → refers t.actions id ≡ true
    → (refers s.actions id ≡ true) × (mem_text id (named s) ≡ true → mem_text id (named t) ≡ true)

abbrev workers_of : GeneratedScenario → List String
workers_of s = spec_names s.worker_specs

abbrev tasks_of : GeneratedScenario → List String
tasks_of s = task_ids s.workflow.tasks

-- The scenario `t` has no more of anything than `s`, and all that its own actions name.
pub record Reduces (s t : GeneratedScenario) : Type 0 where
  pub same_seed : t.seed ≡ s.seed
  pub same_name : t.workflow.name ≡ s.workflow.name
  pub fewer : length t.actions ≤ length s.actions
  pub workers : Sublistᴰ t.worker_specs s.worker_specs
  pub tasks : Sublistᴰ (task_ids t.workflow.tasks) (task_ids s.workflow.tasks)
  pub valid :
      is_valid (validate_dag s.workflow.tasks) ≡ true
      → is_valid (validate_dag t.workflow.tasks) ≡ true
  pub workers_kept : Retained reference_worker workers_of s t
  pub tasks_kept : Retained reference_task tasks_of s t

Reduces-refl : (s : GeneratedScenario) → Reduces s s
Reduces-refl s = record {
  same_seed = refl;
  same_name = refl;
  fewer = omega arith;
  workers = Sublistᴰ.refl _;
  tasks = Sublistᴰ.refl _;
  valid = λ h. h;
  workers_kept = λ id h. (h, λ k. k);
  tasks_kept = λ id h. (h, λ k. k);
}

Reduces-trans : {s t u : GeneratedScenario} → Reduces s t → Reduces t u → Reduces s u
Reduces-trans p q = record {
  same_seed = q.same_seed ∙ p.same_seed;
  same_name = q.same_name ∙ p.same_name;
  fewer = omega (arith, p.fewer, q.fewer);
  workers = Sublistᴰ.trans q.workers p.workers;
  tasks = Sublistᴰ.trans q.tasks p.tasks;
  valid = λ h. q.valid (p.valid h);
  workers_kept = λ id h.
      let last = q.workers_kept id h in
      let first = p.workers_kept id last.0 in (first.0, λ k. last.1 (first.1 k));
  tasks_kept = λ id h.
      let last = q.tasks_kept id h in
      let first = p.tasks_kept id last.0 in (first.0, λ k. last.1 (first.1 k));
}

fewer-Reduces :
    (s : GeneratedScenario) (xs : List Action)
    → Sublistᴰ xs s.actions
    → Reduces s (with_actions s xs)
fewer-Reduces s xs part = record {
  same_seed = refl;
  same_name = refl;
  fewer = Sublistᴰ-length part;
  workers = Sublistᴰ.refl _;
  tasks = Sublistᴰ.refl _;
  valid = λ h. h;
  workers_kept = λ id h. (Sublistᴰ-any _ part h, λ k. k);
  tasks_kept = λ id h. (Sublistᴰ-any _ part h, λ k. k);
}

simpler-Reduces :
    (test : List Action → Bool) (s : GeneratedScenario)
    → Reduces s (with_actions s (simplify test s.actions).1)
simpler-Reduces test s =
    let xs = (simplify test s.actions).1 in
    let same = simplify-SameNames test s.actions in
    record {
      same_seed = refl;
      same_name = refl;
      fewer = omega (arith, SameNames-length xs s.actions same);
      workers = Sublistᴰ.refl _;
      tasks = Sublistᴰ.refl _;
      valid = λ h. h;
      workers_kept = λ id h. (sym (SameNames-worker xs s.actions id same) ∙ h, λ k. k);
      tasks_kept = λ id h. (sym (SameNames-task xs s.actions id same) ∙ h, λ k. k);
    }

workers-Reduces :
    (test : List WorkerSpec → Bool) (s : GeneratedScenario)
    → Reduces s (with_workers s (remove_workers test s.actions s.worker_specs).1)
workers-Reduces test s =
    let left = remove_workers-WorkersLeft s.actions test s.worker_specs in
    record {
      same_seed = refl;
      same_name = refl;
      fewer = omega arith;
      workers = left.part;
      tasks = Sublistᴰ.refl _;
      valid = λ h. h;
      workers_kept = λ id h. (h, left.named id h);
      tasks_kept = λ id h. (h, λ k. k);
    }

tasks-Reduces :
    (test : List Task → Bool) (s : GeneratedScenario)
    → Reduces s (with_tasks s (remove_tasks test s.actions s.workflow.tasks).1)
tasks-Reduces test s =
    let left = remove_tasks-TasksLeft s.actions test s.workflow.tasks in
    record {
      same_seed = refl;
      same_name = refl;
      fewer = omega arith;
      workers = Sublistᴰ.refl _;
      tasks = left.part;
      valid = left.valid;
      workers_kept = λ id h. (h, λ k. k);
      tasks_kept = λ id h. (h, left.named id h);
    }

module _ (test : GeneratedScenario → Bool) where
  adopt-Reduces :
      (better : Bool) (candidate : GeneratedScenario) (trace : List ShrinkPass) (p : Progress)
      → Reduces p.current candidate
      → Reduces p.current (adopt better candidate trace p).current
  adopt-Reduces true candidate trace p h = h
  adopt-Reduces false candidate trace p h = Reduces-refl p.current

  shrink_actions-Reduces : (p : Progress) → Reduces p.current (shrink_actions test p).current
  unfolding shrink_actions
  shrink_actions-Reduces p =
      let of = λ (xs : List Action). test (with_actions p.current xs) in
      adopt-Reduces _ _ (ddmin of p.current.actions).0 p
        (fewer-Reduces p.current _ (ddmin-Minimized of p.current.actions).part.sublist)

  simplify_actions-Reduces : (p : Progress) → Reduces p.current (simplify_actions test p).current
  unfolding simplify_actions
  simplify_actions-Reduces p =
      let of = λ (xs : List Action). test (with_actions p.current xs) in
      adopt-Reduces _ _ (simplify of p.current.actions).0 p (simpler-Reduces of p.current)

  shrink_workers-Reduces : (p : Progress) → Reduces p.current (shrink_workers test p).current
  unfolding shrink_workers
  shrink_workers-Reduces p =
      let of = λ (ws : List WorkerSpec). test (with_workers p.current ws) in
      adopt-Reduces _ _ (remove_workers of p.current.actions p.current.worker_specs).0 p
        (workers-Reduces of p.current)

  shrink_tasks-Reduces : (p : Progress) → Reduces p.current (shrink_tasks test p).current
  unfolding shrink_tasks
  shrink_tasks-Reduces p =
      let of = λ (ts : List Task). test (with_tasks p.current ts) in
      adopt-Reduces _ _ (remove_tasks of p.current.actions p.current.workflow.tasks).0 p
        (tasks-Reduces of p.current)

  shrink_round-Reduces :
      (s : GeneratedScenario) (passes : List ShrinkPass)
      → Reduces s (shrink_round test s passes).current
  unfolding shrink_round
  shrink_round-Reduces s passes =
      let first = shrink_actions test (started test s passes) in
      let second = simplify_actions test first in
      Reduces-trans (shrink_actions-Reduces (started test s passes)) (
        Reduces-trans (simplify_actions-Reduces first) (
          Reduces-trans (shrink_workers-Reduces second)
            (shrink_tasks-Reduces (shrink_workers test second))))

  shrink_rounds-Reduces :
      (rounds : ℕ) (s : GeneratedScenario) (passes : List ShrinkPass)
      → Reduces s (shrink_rounds test rounds s passes).0
  unfolding shrink_rounds
  shrink_rounds-Reduces zero s passes = Reduces-refl s
  shrink_rounds-Reduces (suc rounds) s passes =
      let p = shrink_round test s passes in
      elim (Bool-cases p.changed) [
        | inl on ↦ rw on (
            Reduces-trans (shrink_round-Reduces s passes)
              (shrink_rounds-Reduces rounds p.current p.passes))
        | inr done ↦ rw done (shrink_round-Reduces s passes)
      ]

module _ (host : Host) (strict : Bool) (predicate : FailurePredicate) where
  finished-Reduces :
      (s : GeneratedScenario) (found : GeneratedScenario × List ShrinkPass) (o : Option Bool)
      (r : ShrinkResult)
      → Reduces s found.0
      → finished host strict predicate s found o ≡ ok r
      → Reduces s r.minimized
  finished-Reduces s (current, passes) none r h e = absurd (ground arith)
  finished-Reduces s (current, passes) (some false) r h e = absurd (ground arith)
  finished-Reduces s (current, passes) (some true) r h e =
      let same : current ≡ r.minimized = ground arith in subst (Reduces s) same h

  searched-Reduces :
      (rounds : ℕ) (s : GeneratedScenario) (o : Option Bool) (r : ShrinkResult)
      → searched host strict predicate rounds s o ≡ ok r
      → Reduces s r.minimized
  searched-Reduces rounds s none r e = absurd (ground arith)
  searched-Reduces rounds s (some false) r e = absurd (ground arith)
  searched-Reduces rounds s (some true) r e =
      let test = fails host strict predicate in
      finished-Reduces s (shrink_rounds test rounds s []) _ r
        (shrink_rounds-Reduces test rounds s []) e

-- The minimized scenario keeps the seed and the workflow's name, has at most as many actions, a
-- part of the workers, and tasks whose ids are a part of the ids, in their order. It keeps every
-- worker and task of the scenario that its actions name, these name none that the scenario's
-- actions do not, and its tasks still pass `validate_dag` if the scenario's do.
pub shrink-Reduces :
    (host : Host) (strict : Bool) (predicate : FailurePredicate) (max_rounds : ℤ)
    (s : GeneratedScenario) (r : ShrinkResult)
    → shrink host strict predicate max_rounds s ≡ ok r
    → Reduces s r.minimized
unfolding shrink
shrink-Reduces host strict predicate max_rounds s r e =
    searched-Reduces host strict predicate (max_ℕ 1 max_rounds) s _ r e
