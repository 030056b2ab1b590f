-- ===== src/Lab/Shrinker/Keeps.antt =====
-- Each pass of tools/chaos_lab/shrinker.py keeps the failure: what it gives is accepted by the test
-- if what it was given is.
use helix_grid.Prelude.{
  ℕ, zero, suc, ◌≡◌, sym, subst, Bool, true, false, List, [], ◌∷◌, ◌++◌, Option, none, some, inl,
  inr, leb, length, arith, Bool-cases,
}
use mathlib.Core.List.{append_assoc, append-nil}
use helix_grid.Chaos.Types.{Action, Task}
use helix_grid.Lab.Types.{GeneratedScenario, WorkerSpec, same_action}
use helix_grid.Lab.Shrinker.Ddmin.{ShrinkPass, ddmin}
use helix_grid.Lab.Shrinker.Ddmin.Minimal.{ddmin-Minimized}
use helix_grid.Lab.Shrinker.Actions.{try_variants, simplify_from, simplify, action_variants}
use helix_grid.Lab.Shrinker.Removal.{
  reference_worker, is_nil, remove_from, remove_workers, get_elem?, try_without, drop_tasks,
  remove_tasks,
}
use helix_grid.Lab.Shrinker.Search.{
  Progress, adopt, with_actions, with_workers, with_tasks, shrink_actions, simplify_actions,
  shrink_workers, shrink_tasks, started, shrink_round, shrink_rounds,
}

module _ {A : Type 0} (test : List A → Bool) (before : List A) where
  -- To pass over an item moves it from one part of the list to the other.
  over :
      (a : A) (rest : List A)
      → test (before ++ a ∷ rest) ≡ true
      → test ((before ++ a ∷ []) ++ rest) ≡ true
  over a rest h = subst (λ xs. test xs ≡ true) (sym (append_assoc before (a ∷ []) rest)) h

  whole : test (before ++ []) ≡ true → test before ≡ true
  whole h = subst (λ xs. test xs ≡ true) (append-nil before) h

module _ (test : List Action → Bool) where
  try_variants-keeps :
      (before rest : List Action) (a : Action) (variants : List Action)
      → test (before ++ a ∷ rest) ≡ true
      → test (before ++ (try_variants test before rest a variants).1 ∷ rest) ≡ true
  unfolding try_variants
  try_variants-keeps before rest a [] h = h
  try_variants-keeps before rest a (b ∷ variants) h = elim (Bool-cases (same_action b a)) [
    | inl same ↦ rw same (try_variants-keeps before rest a variants h)
    | inr other ↦ elim (Bool-cases (test (before ++ b ∷ rest))) [
      | inl good ↦ rw (other, good) (try_variants-keeps before rest b variants good)
      | inr bad ↦ rw (other, bad) (try_variants-keeps before rest a variants h)
    ]
  ]

  simplify_from-keeps :
      (before rest : List Action)
      → test (before ++ rest) ≡ true
      → test (simplify_from test before rest).1 ≡ true
  unfolding simplify_from
  simplify_from-keeps before [] h = whole test before h
  simplify_from-keeps before (a ∷ rest) h =
      let b = (try_variants test before rest a (action_variants a)).1 in
      simplify_from-keeps (before ++ b ∷ []) rest
        (over test before b rest (try_variants-keeps before rest a (action_variants a) h))

  pub simplify-keeps : (xs : List Action) → test xs ≡ true → test (simplify test xs).1 ≡ true
  unfolding simplify
  simplify-keeps xs h = simplify_from-keeps [] xs h

module _ (test : List WorkerSpec → Bool) (actions : List Action) where
  remove_from-keeps :
      (before rest : List WorkerSpec)
      → test (before ++ rest) ≡ true
      → test (remove_from test actions before rest).1 ≡ true
  unfolding remove_from
  remove_from-keeps before [] h = whole test before h
  remove_from-keeps before (w ∷ rest) h =
      let onward = remove_from-keeps (before ++ w ∷ []) rest (over test before w rest h) in
      elim (Bool-cases (reference_worker actions w.worker_id)) [
        | inl named ↦ rw named onward
        | inr free ↦ elim (Bool-cases (is_nil (before ++ rest))) [
          | inl last ↦ rw (free, last) onward
          | inr others ↦ elim (Bool-cases (test (before ++ rest))) [
            | inl good ↦ rw (free, others, good) (remove_from-keeps before rest good)
            | inr bad ↦ rw (free, others, bad) onward
          ]
        ]
      ]

  pub remove_workers-keeps :
      (ws : List WorkerSpec) → test ws ≡ true → test (remove_workers test actions ws).1 ≡ true
  unfolding remove_workers
  remove_workers-keeps ws h = remove_from-keeps [] ws h

module _ (test : List Task → Bool) (actions : List Action) where
  try_without-keeps :
      (tasks : List Task) (o : Option Task)
      → test tasks ≡ true
      → test (try_without test actions tasks o).1 ≡ true
  unfolding try_without
  try_without-keeps tasks none h = h
  try_without-keeps tasks (some t) h = ground arith

  drop_tasks-keeps :
      (index : ℕ) (tasks : List Task)
      → test tasks ≡ true
      → test (drop_tasks test actions index tasks).1 ≡ true
  unfolding drop_tasks
  drop_tasks-keeps zero tasks h = h
  drop_tasks-keeps (suc index) tasks h = elim (Bool-cases (leb (length tasks) 1)) [
    | inl single ↦ rw single h
    | inr more ↦ rw more (
        drop_tasks-keeps index (try_without test actions tasks (get_elem? tasks index)).1
          (try_without-keeps tasks (get_elem? tasks index) h))
  ]

  pub remove_tasks-keeps :
      (tasks : List Task) → test tasks ≡ true → test (remove_tasks test actions tasks).1 ≡ true
  unfolding remove_tasks
  remove_tasks-keeps tasks h = drop_tasks-keeps (length tasks) tasks h

module _ (test : GeneratedScenario → Bool) where
  abbrev Fails : Progress → Type 0
  Fails p = test p.current ≡ true

  adopt-Fails :
      (better : Bool) (candidate : GeneratedScenario) (trace : List ShrinkPass) (p : Progress)
      → test candidate ≡ true
      → Fails p
      → Fails (adopt better candidate trace p)
  adopt-Fails true candidate trace p h k = h
  adopt-Fails false candidate trace p h k = k

  shrink_actions-Fails : (p : Progress) → Fails p → Fails (shrink_actions test p)
  unfolding shrink_actions
  shrink_actions-Fails p h =
      let of = λ (xs : List Action). test (with_actions p.current xs) in
      adopt-Fails _ _ (ddmin of p.current.actions).0 p
        ((ddmin-Minimized of p.current.actions).part.accepts h) h

  simplify_actions-Fails : (p : Progress) → Fails p → Fails (simplify_actions test p)
  unfolding simplify_actions
  simplify_actions-Fails p h =
      let of = λ (xs : List Action). test (with_actions p.current xs) in
      adopt-Fails _ _ (simplify of p.current.actions).0 p (simplify-keeps of p.current.actions h) h

  shrink_workers-Fails : (p : Progress) → Fails p → Fails (shrink_workers test p)
  unfolding shrink_workers
  shrink_workers-Fails p h =
      let of = λ (ws : List WorkerSpec). test (with_workers p.current ws) in
      adopt-Fails _ _ (remove_workers of p.current.actions p.current.worker_specs).0 p
        (remove_workers-keeps of p.current.actions p.current.worker_specs h) h

  shrink_tasks-Fails : (p : Progress) → Fails p → Fails (shrink_tasks test p)
  unfolding shrink_tasks
  shrink_tasks-Fails p h =
      let of = λ (ts : List Task). test (with_tasks p.current ts) in
      adopt-Fails _ _ (remove_tasks of p.current.actions p.current.workflow.tasks).0 p
        (remove_tasks-keeps of p.current.actions p.current.workflow.tasks h) h

  shrink_round-Fails :
      (s : GeneratedScenario) (passes : List ShrinkPass)
      → test s ≡ true
      → Fails (shrink_round test s passes)
  unfolding shrink_round
  shrink_round-Fails s passes h = shrink_tasks-Fails _ (
      shrink_workers-Fails _
        (simplify_actions-Fails _ (shrink_actions-Fails (started test s passes) h)))

  pub shrink_rounds-Fails :
      (rounds : ℕ) (s : GeneratedScenario) (passes : List ShrinkPass)
      → test s ≡ true
      → test (shrink_rounds test rounds s passes).0 ≡ true
  unfolding shrink_rounds
  shrink_rounds-Fails zero s passes h = h
  shrink_rounds-Fails (suc rounds) s passes h =
      let p = shrink_round test s passes in
      elim (Bool-cases p.changed) [
        | inl on ↦
            rw on (shrink_rounds-Fails rounds p.current p.passes (shrink_round-Fails s passes h))
        | inr done ↦ rw done (shrink_round-Fails s passes h)
      ]
