-- ===== src/Lab/Generator/Placement.antt =====
-- The workers of tools/chaos_lab/generator.py fit every task.
use helix_grid.Prelude.{
  ℕ, zero, suc, ◌≤◌, ◌≡◌, refl, String, ◌&◌, text_eq_iff, text_le, mem_text, Bool, true, false,
  ◌||◌, List, [], ◌∷◌, ◌++◌, inl, inr, if◌then◌else◌, length, any, all, All, All-append, arith,
  Bool-cases,
}
use helix_grid.Prelude.Int.{pos}
use helix_grid.Prelude.Dict.{Dict, keys}
use helix_grid.Prelude.Sorting.{sort}
use helix_grid.Prelude.Exec.Yields.{Yields, Yields-pure, Yields-if, Yields-bind, Yields-after}
use helix_grid.Chaos.Types.{Task}
use helix_grid.Chaos.Tasks.{labels_match, label_fits}
use helix_grid.Lab.Types.{GeneratedWorkflow, WorkerSpec}
use helix_grid.Lab.Generator.Draws.{Random, IsRandom, GeneratorConfig}
use helix_grid.Lab.Generator.Tasks.{two_digits}
use helix_grid.Lab.Generator.Workers.{
  worker_spec, is_placeable, place_tasks, choose_label, choose_labels, random_workers, workers,
}
use helix_grid.Lab.Generator.Valid.{IsAny, IsDict, between-Yields, chance-Yields, choice-Yields}

-- A dictionary whose keys differ fits itself.
fits_behind :
    (key value : String) (d e : Dict String)
    → mem_text key (keys e) ≡ false
    → all (label_fits d) e ≡ true
    → all (label_fits ((key, value) ∷ d)) e ≡ true
fits_behind key value d [] new h = refl
fits_behind key value d ((k, v) ∷ e) new h =
    ground (arith, text_eq_iff key k, new, h, fits_behind key value d e)

pub labels_match_self : (d : Dict String) → IsDict d → labels_match d d ≡ true
unfolding labels_match
labels_match_self [] h = refl
labels_match_self ((k, v) ∷ d) h =
    ground
      (arith, text_eq_iff k k, text_eq_iff v v, fits_behind k v d d h.0 (labels_match_self d h.1))

any-append {ℓ} :
    {A : Type ℓ} (p : A → Bool) (xs ys : List A) → any p (xs ++ ys) ≡ (any p xs || any p ys)
any-append p [] ys = refl
any-append p (x ∷ xs) ys = ground (arith, any-append p xs ys)

any_left {ℓ} :
    {A : Type ℓ} (p : A → Bool) (xs ys : List A) → any p xs ≡ true → any p (xs ++ ys) ≡ true
any_left p xs ys h = ground (arith, any-append p xs ys, h)

any_last {ℓ} :
    {A : Type ℓ} (p : A → Bool) (xs : List A) (x : A) → p x ≡ true → any p (xs ++ x ∷ []) ≡ true
any_last p xs x h = ground (arith, any-append p xs (x ∷ []), h)

abbrev extra_worker : List WorkerSpec → Task → WorkerSpec
extra_worker specs t = worker_spec ("worker-placement-" & two_digits (length specs)) 1 t.labels

abbrev with_placed : List WorkerSpec → Task → List WorkerSpec
with_placed specs t = if is_placeable specs t then specs else specs ++ extra_worker specs t ∷ []

-- What holds with and without the worker holds of the list that the loop goes on with.
with_placed-either :
    (P : List WorkerSpec → Type 0) (specs : List WorkerSpec) (t : Task)
    → (is_placeable specs t ≡ true → P specs)
    → P (specs ++ extra_worker specs t ∷ [])
    → P (with_placed specs t)
with_placed-either P specs t kept more = elim (Bool-cases (is_placeable specs t)) [
  | inl fits ↦ rw fits (kept fits)
  | inr no_fit ↦ rw no_fit more
]

-- To add a worker keeps the tasks that fit.
with_placed-keeps :
    (specs : List WorkerSpec) (t u : Task)
    → is_placeable specs u ≡ true
    → is_placeable (with_placed specs t) u ≡ true
with_placed-keeps specs t u h =
    with_placed-either (λ ws. is_placeable ws u ≡ true) specs t (λ fits. h)
      (any_left (λ w. labels_match w.labels u.labels) specs (extra_worker specs t ∷ []) h)

with_placed_fits :
    (specs : List WorkerSpec) (t : Task)
    → IsDict t.labels
    → is_placeable (with_placed specs t) t ≡ true
with_placed_fits specs t h =
    with_placed-either (λ ws. is_placeable ws t ≡ true) specs t (λ fits. fits)
      (any_last (λ w. labels_match w.labels t.labels) specs (extra_worker specs t)
        (labels_match_self t.labels h))

place_tasks-keeps :
    (specs : List WorkerSpec) (ts : List Task) (u : Task)
    → is_placeable specs u ≡ true
    → is_placeable (place_tasks specs ts) u ≡ true
unfolding place_tasks
place_tasks-keeps specs [] u h = h
place_tasks-keeps specs (t ∷ ts) u h =
    place_tasks-keeps (with_placed specs t) ts u (with_placed-keeps specs t u h)

place_tasks-All :
    (specs : List WorkerSpec) (ts : List Task)
    → All (λ t. IsDict t.labels) ts
    → All (λ t. is_placeable (place_tasks specs ts) t ≡ true) ts
unfolding place_tasks
place_tasks-All specs [] h = tt
place_tasks-All specs (t ∷ ts) h = (
  place_tasks-keeps (with_placed specs t) ts t (with_placed_fits specs t h.0),
  place_tasks-All (with_placed specs t) ts h.1,
)

abbrev IsSized : ℕ → WorkerSpec → Type 0
IsSized limit w = (n : ℕ) × (w.capacity ≡ pos n) × (1 ≤ n) × (n ≤ limit)

with_placed-IsSized :
    (limit : ℕ) (specs : List WorkerSpec) (t : Task)
    → 1 ≤ limit
    → All (IsSized limit) specs
    → All (IsSized limit) (with_placed specs t)
with_placed-IsSized limit specs t positive h =
    with_placed-either (All (IsSized limit)) specs t (λ fits. h)
      (All-append (IsSized limit) specs (extra_worker specs t ∷ []) h
        ((1, refl, omega arith, positive), tt))

place_tasks-IsSized :
    (limit : ℕ) (specs : List WorkerSpec) (ts : List Task)
    → 1 ≤ limit
    → All (IsSized limit) specs
    → All (IsSized limit) (place_tasks specs ts)
unfolding place_tasks
place_tasks-IsSized limit specs [] positive h = h
place_tasks-IsSized limit specs (t ∷ ts) positive h =
    place_tasks-IsSized limit (with_placed specs t) ts positive
      (with_placed-IsSized limit specs t positive h)

choose_label-Yields :
    (r : Random) (config : GeneratorConfig) (key : String) (values : List String)
    → Yields IsAny (choose_label r config key values)
unfolding choose_label
choose_label-Yields r config key [] = Yields-pure _ _ tt
choose_label-Yields r config key (value ∷ values) = Yields-after _ _ _ (chance-Yields r _) (λ given.
    Yields-if _ given _ _
      (λ e. Yields-after _ _ _ (choice-Yields r value values) (λ chosen. Yields-pure _ _ tt))
      (λ e. Yields-pure _ _ tt))

choose_labels-Yields :
    (r : Random) (config : GeneratorConfig) (required : Dict (List String))
    → Yields IsAny (choose_labels r config required)
unfolding choose_labels
choose_labels-Yields r config [] = Yields-pure _ _ tt
choose_labels-Yields r config ((key, values) ∷ required) =
    Yields-after _ _ _ (choose_label-Yields r config key (sort text_le values)) (λ labels.
      Yields-after _ _ _ (choose_labels-Yields r config required) (λ rest. Yields-pure _ _ tt))

-- Each task has a worker with all of its labels, and each worker has a capacity in range.
pub record IsPlaced (config : GeneratorConfig) (w : GeneratedWorkflow) (specs : List WorkerSpec)
    : Type 0 where
  pub placed : All (λ t. is_placeable specs t ≡ true) w.tasks
  pub sized : All (IsSized config.max_capacity) specs

module _ {r : Random} (law : IsRandom r) (config : GeneratorConfig)
    (some_worker : 1 ≤ config.max_workers) (some_capacity : 1 ≤ config.max_capacity) where
  random_workers-Yields :
      (required : Dict (List String)) (index count : ℕ)
      → Yields (All (IsSized config.max_capacity)) (random_workers r config required index count)
  unfolding random_workers
  random_workers-Yields required index zero = Yields-pure _ _ tt
  random_workers-Yields required index (suc count) =
      Yields-after _ _ _ (choose_labels-Yields r config required) (λ labels.
        Yields-bind _ _ _ _ (between-Yields law 1 config.max_capacity some_capacity)
          (λ capacity bounds.
            Yields-bind _ _ _ _ (random_workers-Yields required (suc index) count)
              (λ rest sized. Yields-pure _ _ ((capacity, refl, bounds.0, bounds.1), sized))))

  -- Whatever the random numbers, `workers` returns workers of a capacity from 1 to the largest that
  -- the settings allow, such that each task of the workflow has a worker with all of its labels, if
  -- the labels of a task have distinct keys and the settings are in order.
  pub workers-IsPlaced :
      (w : GeneratedWorkflow)
      → All (λ t. IsDict t.labels) w.tasks
      → Yields (IsPlaced config w) (workers r config w)
  unfolding workers
  workers-IsPlaced w labelled =
      Yields-bind _ _ _ _ (between-Yields law 1 config.max_workers some_worker) (λ count bounds.
        Yields-bind _ _ _ _ (random_workers-Yields _ 0 count) (λ specs sized.
          Yields-pure _ _ (record {
            placed = place_tasks-All specs w.tasks labelled;
            sized = place_tasks-IsSized config.max_capacity specs w.tasks some_capacity sized;
          })))
