-- ===== src/Lab/Shrinker/Removal/Parts.antt =====
-- What the removal of workers and tasks in tools/chaos_lab/shrinker.py leaves: a part of them in
-- their order, with every worker and task that an action names.
use helix_grid.Prelude.{
  ℕ, zero, suc, ◌≡◌, refl, sym, subst, String, text_eq, text_eq_iff, mem_text, leb, Bool, true,
  false, List, [], ◌∷◌, ◌++◌, Option, none, some, inl, inr, length, arith, Bool-cases,
}
use mathlib.Core.List.{Sublistᴰ, append_assoc, append-nil}
use mathlib.Core.List.Sublistᴰ
use helix_grid.Chaos.Types.{Action, Task}
use helix_grid.Chaos.Dag.{task_ids, validate_dag}
use helix_grid.Lab.Types.{WorkerSpec}
use helix_grid.Lab.Shrinker.Removal.{
  reference_worker, reference_task, is_nil, remove_from, remove_workers, remaining, rewired,
  dependencies_of, without_task, is_valid, get_elem?, try_without, drop_tasks, remove_tasks,
}

abbrev pub spec_names : List WorkerSpec → List String
spec_names [] = []
spec_names (w ∷ ws) = w.worker_id ∷ spec_names ws

-- Every name of `xs` that `refers` asks for is one of `ys`.
abbrev pub KeepsNamed : (String → Bool) → List String → List String → Type 0
KeepsNamed refers xs ys =
    (id : String) → refers id ≡ true → mem_text id xs ≡ true → mem_text id ys ≡ true

module _ (actions : List Action) where
  pub record WorkersLeft (xs ys : List WorkerSpec) : Type 0 where
    pub part : Sublistᴰ ys xs
    pub named : KeepsNamed (reference_worker actions) (spec_names xs) (spec_names ys)

  WorkersLeft-refl : (xs : List WorkerSpec) → WorkersLeft xs xs
  WorkersLeft-refl xs = record { part = Sublistᴰ.refl xs; named = λ id h k. k }

  WorkersLeft-trans :
      {xs ys zs : List WorkerSpec} → WorkersLeft xs ys → WorkersLeft ys zs → WorkersLeft xs zs
  WorkersLeft-trans p q = record {
    part = Sublistᴰ.trans q.part p.part;
    named = λ id h k. q.named id h (p.named id h k);
  }

  -- A worker that no action names is left out.
  leave_out :
      (before : List WorkerSpec) (w : WorkerSpec) (rest : List WorkerSpec)
      → reference_worker actions w.worker_id ≡ false
      → WorkersLeft (before ++ w ∷ rest) (before ++ rest)
  leave_out [] w rest free = record {
    part = Sublistᴰ.cons (Sublistᴰ.refl rest);
    named = λ id h k. ground (arith, text_eq_iff id w.worker_id, free, h, k);
  }
  leave_out (v ∷ before) w rest free =
      let inner = leave_out before w rest free in
      record {
        part = Sublistᴰ.cons-cons refl inner.part;
        named = λ id h k. ground (arith, inner.named id h);
      }

  remove_from-WorkersLeft :
      (test : List WorkerSpec → Bool) (before rest : List WorkerSpec)
      → WorkersLeft (before ++ rest) (remove_from test actions before rest).1
  unfolding remove_from
  remove_from-WorkersLeft test before [] =
      subst (λ xs. WorkersLeft xs before) (sym (append-nil before)) (WorkersLeft-refl before)
  remove_from-WorkersLeft test before (w ∷ rest) =
      let onward =
        subst (λ xs. WorkersLeft xs (remove_from test actions (before ++ w ∷ []) rest).1)
          (append_assoc before (w ∷ []) rest)
          (remove_from-WorkersLeft test (before ++ w ∷ []) rest) in
      elim (Bool-cases (reference_worker actions w.worker_id)) [
        | inl named ↦ rw named onward
        | inr free ↦ elim (Bool-cases (is_nil (before ++ rest))) [
          | inl last ↦ rw (free, last) onward
          | inr others ↦ elim (Bool-cases (test (before ++ rest))) [
            | inl good ↦
                rw (free, others, good)
                  (WorkersLeft-trans (leave_out before w rest free)
                    (remove_from-WorkersLeft test before rest))
            | inr bad ↦ rw (free, others, bad) onward
          ]
        ]
      ]

  pub remove_workers-WorkersLeft :
      (test : List WorkerSpec → Bool) (ws : List WorkerSpec)
      → WorkersLeft ws (remove_workers test actions ws).1
  unfolding remove_workers
  remove_workers-WorkersLeft test ws = remove_from-WorkersLeft test [] ws

  pub record TasksLeft (xs ys : List Task) : Type 0 where
    pub part : Sublistᴰ (task_ids ys) (task_ids xs)
    pub named : KeepsNamed (reference_task actions) (task_ids xs) (task_ids ys)
    pub valid : is_valid (validate_dag xs) ≡ true → is_valid (validate_dag ys) ≡ true

  TasksLeft-refl : (xs : List Task) → TasksLeft xs xs
  TasksLeft-refl xs = record { part = Sublistᴰ.refl _; named = λ id h k. k; valid = λ h. h }

  TasksLeft-trans : {xs ys zs : List Task} → TasksLeft xs ys → TasksLeft ys zs → TasksLeft xs zs
  TasksLeft-trans p q = record {
    part = Sublistᴰ.trans q.part p.part;
    named = λ id h k. q.named id h (p.named id h k);
    valid = λ h. q.valid (p.valid h);
  }

  rewired-id :
      (target : String) (inherited : List String) (t : Task)
      → (rewired target inherited t).id ≡ t.id
  rewired-id target inherited t = ground arith

  remaining-part :
      (target : String) (inherited : List String) (ts : List Task)
      → Sublistᴰ (task_ids (remaining target inherited ts)) (task_ids ts)
  unfolding remaining task_ids
  remaining-part target inherited [] = Sublistᴰ.slnil
  remaining-part target inherited (t ∷ ts) = elim (Bool-cases (text_eq t.id target)) [
    | inl here ↦ rw here (Sublistᴰ.cons (remaining-part target inherited ts))
    | inr other ↦
        rw other
          (Sublistᴰ.cons-cons (rewired-id target inherited t) (remaining-part target inherited ts))
  ]

  remaining-named :
      (target : String) (inherited : List String) (ts : List Task)
      → reference_task actions target ≡ false
      → KeepsNamed (reference_task actions) (task_ids ts) (task_ids (remaining target inherited ts))
  unfolding remaining task_ids
  remaining-named target inherited [] free id h k = k
  remaining-named target inherited (t ∷ ts) free id h k = elim (Bool-cases (text_eq t.id target)) [
    | inl here ↦
        let later = remaining-named target inherited ts free id h in
        rw here (
          ground (
            arith,
            text_eq_iff id t.id,
            text_eq_iff t.id target,
            text_eq_iff id target,
            free,
            h,
            k,
            later,
          ))
    | inr other ↦
        let later = remaining-named target inherited ts free id h in
        rw other (ground (arith, rewired-id target inherited t, k, later))
  ]

  without_task-TasksLeft :
      (tasks : List Task) (target : String)
      → reference_task actions target ≡ false
      → is_valid (validate_dag (without_task tasks target)) ≡ true
      → TasksLeft tasks (without_task tasks target)
  unfolding without_task
  without_task-TasksLeft tasks target free good = record {
    part = remaining-part target (dependencies_of target tasks) tasks;
    named = remaining-named target (dependencies_of target tasks) tasks free;
    valid = λ h. good;
  }

  try_without-TasksLeft :
      (test : List Task → Bool) (tasks : List Task) (o : Option Task)
      → TasksLeft tasks (try_without test actions tasks o).1
  unfolding try_without
  try_without-TasksLeft test tasks none = TasksLeft-refl tasks
  try_without-TasksLeft test tasks (some t) = elim (Bool-cases (reference_task actions t.id)) [
    | inl named ↦ rw named (TasksLeft-refl tasks)
    | inr free ↦ elim (Bool-cases (is_valid (validate_dag (without_task tasks t.id)))) [
      | inr bad ↦ rw (free, bad) (TasksLeft-refl tasks)
      | inl good ↦ elim (Bool-cases (test (without_task tasks t.id))) [
        | inl taken ↦ rw (free, good, taken) (without_task-TasksLeft tasks t.id free good)
        | inr refused ↦ rw (free, good, refused) (TasksLeft-refl tasks)
      ]
    ]
  ]

  drop_tasks-TasksLeft :
      (test : List Task → Bool) (index : ℕ) (tasks : List Task)
      → TasksLeft tasks (drop_tasks test actions index tasks).1
  unfolding drop_tasks
  drop_tasks-TasksLeft test zero tasks = TasksLeft-refl tasks
  drop_tasks-TasksLeft test (suc index) tasks = elim (Bool-cases (leb (length tasks) 1)) [
    | inl single ↦ rw single (TasksLeft-refl tasks)
    | inr more ↦
        let left = (try_without test actions tasks (get_elem? tasks index)).1 in
        rw more (
          TasksLeft-trans (try_without-TasksLeft test tasks (get_elem? tasks index))
            (drop_tasks-TasksLeft test index left))
  ]

  pub remove_tasks-TasksLeft :
      (test : List Task → Bool) (tasks : List Task)
      → TasksLeft tasks (remove_tasks test actions tasks).1
  unfolding remove_tasks
  remove_tasks-TasksLeft test tasks = drop_tasks-TasksLeft test (length tasks) tasks
