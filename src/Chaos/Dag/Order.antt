-- ===== src/Chaos/Dag/Order.antt =====
-- `validate_dag` of tools/chaos_lab/model.py: the order that it returns is topological.
use helix_grid.Prelude.{
  ℕ, zero, suc, ◌+◌, ◌≤◌, ◌≡◌, sym, ◌∙◌, String, text_eq_iff, text_le, mem_text, true, false, List,
  [], ◌∷◌, some, arith, inl, inr, Bool-cases, All,
}
use helix_grid.Prelude.Dict.{Dict, lookup}
use helix_grid.Prelude.Sorting.{sort}
use helix_grid.Chaos.Types.{Task}
use helix_grid.Chaos.Dag.{task_ids, children, release_all, kahn}
use helix_grid.Chaos.Dag.Members.{
  IsDistinct, sort-IsDistinct, mem_text-sort, mem_text-children, children-IsDistinct, children-All,
}
use helix_grid.Chaos.Dag.Release.{missing, pending, IsZero, IsCounted, release_all-IsCounted}

-- Every id of the order is that of a task, stands there once, and comes after the dependencies
-- of its task.
abbrev pub IsInOrder : List Task → List String → List String → Type 0
IsInOrder tasks done [] = Unit
IsInOrder tasks done (id ∷ ids) =
    (mem_text id done ≡ false)
    × (mem_text id (task_ids tasks) ≡ true)
    × All (λ t. t.id ≡ id → All (λ d. mem_text d done ≡ true) t.depends_on) tasks
    × IsInOrder tasks (id ∷ done) ids

missing-le : (c : String) (done ds : List String) → missing (c ∷ done) ds ≤ missing done ds
missing-le c done [] = omega arith
missing-le c done (d ∷ ds) = ground (arith, missing-le c done ds)

missing-lt :
    (c : String) (done ds : List String)
    → mem_text c done ≡ false
    → mem_text c ds ≡ true
    → missing (c ∷ done) ds + 1 ≤ missing done ds
missing-lt c done [] new h = absurd (ground (arith, h))
missing-lt c done (d ∷ ds) new h = ground (
  arith,
  new,
  h,
  missing-le c done ds,
  missing-lt c done ds new,
  text_eq_iff c d,
  text_eq_iff d c,
)

missing-none : (done ds : List String) → missing done ds ≤ 0 → All (λ d. mem_text d done ≡ true) ds
missing-none done [] h = tt
missing-none done (d ∷ ds) h = elim (Bool-cases (mem_text d done)) [
  | inl there ↦ (there, missing-none done ds (ground (arith, h, there)))
  | inr other ↦ absurd (ground (arith, h, other))
]

bounded-after :
    (current : String) (cs done : List String) (degrees : Dict ℕ) (ts : List Task)
    → mem_text current done ≡ false
    → All (λ t. mem_text t.id cs ≡ true → mem_text current t.depends_on ≡ true) ts
    → All (λ t. (n : ℕ) → lookup t.id degrees ≡ some n → missing done t.depends_on + 0 ≤ n) ts
    → All
        (λ t.
          (n : ℕ)
          → lookup t.id degrees ≡ some n
          → missing (current ∷ done) t.depends_on + pending t.id cs ≤ n)
        ts
bounded-after current cs done degrees [] new h k = tt
bounded-after current cs done degrees (t ∷ ts) new h k = (
  (λ n found. elim (Bool-cases (mem_text t.id cs)) [
    | inl waits ↦
        rw waits (omega (arith, k.0 n found, missing-lt current done t.depends_on new (h.0 waits)))
    | inr other ↦ rw other (omega (arith, k.0 n found, missing-le current done t.depends_on))
  ]),
  bounded-after current cs done degrees ts new h.1 k.1,
)

new-after :
    (current : String) (done ready : List String)
    → mem_text current ready ≡ false
    → All (λ id. mem_text id done ≡ false) ready
    → All (λ id. mem_text id (current ∷ done) ≡ false) ready
new-after current done [] once h = tt
new-after current done (id ∷ ready) once h = (
  ground (arith, once, h.0, text_eq_iff current id, text_eq_iff id current),
  new-after current done ready (ground (arith, once)) h.1,
)

children-sorted :
    (p : String) (ts all : List Task)
    → All (λ t. mem_text t.id (children p all) ≡ true → mem_text p t.depends_on ≡ true) ts
    → All
        (λ t. mem_text t.id (sort text_le (children p all)) ≡ true → mem_text p t.depends_on ≡ true)
        ts
children-sorted p [] all h = tt
children-sorted p (t ∷ ts) all h = (
  (λ there. h.0 (sym (mem_text-sort t.id (children p all)) ∙ there)),
  children-sorted p ts all h.1,
)

-- One task is moved to the order; the counters of its children are still to be lowered.
take-IsCounted :
    {tasks : List Task} {done ready : List String} {degrees : Dict ℕ} (current : String)
    → IsDistinct (task_ids tasks)
    → IsCounted tasks done [] degrees (current ∷ ready)
    → IsCounted tasks (current ∷ done) (sort text_le (children current tasks)) degrees ready
take-IsCounted {tasks} {done} {ready} {degrees} current distinct k = record {
  bounded =
      bounded-after current (sort text_le (children current tasks)) done degrees tasks k.ready_new.0
        (children-sorted current tasks tasks (children-All current tasks distinct)) k.bounded;
  ready_zero = k.ready_zero.1;
  done_zero = (k.ready_zero.0, k.done_zero);
  ready_new = new-after current done ready k.distinct.0 k.ready_new.1;
  ready_known = k.ready_known.1;
  distinct = k.distinct.1;
}

children-known :
    (p : String) (ts : List Task) (cs : List String)
    → ((x : String) → mem_text x cs ≡ true → mem_text x (task_ids ts) ≡ true)
    → All (λ c. mem_text c (task_ids ts) ≡ true) cs
children-known p ts [] h = tt
children-known p ts (c ∷ cs) h = (
  h c (ground (arith, text_eq_iff c c)),
  children-known p ts cs (λ x there. h x (ground (arith, there))),
)

dependencies-done :
    (id : String) (done : List String) (degrees : Dict ℕ) (ts : List Task)
    → IsZero degrees id
    → All (λ t. (n : ℕ) → lookup t.id degrees ≡ some n → missing done t.depends_on + 0 ≤ n) ts
    → All (λ t. t.id ≡ id → All (λ d. mem_text d done ≡ true) t.depends_on) ts
dependencies-done id done degrees [] at_zero h = tt
dependencies-done id done degrees (t ∷ ts) at_zero h = (
  (λ same. missing-none done t.depends_on (omega (arith, h.0 0 (rw same at_zero)))),
  dependencies-done id done degrees ts at_zero h.1,
)

pub kahn-IsInOrder :
    (fuel : ℕ) (tasks : List Task) (done : List String) (degrees : Dict ℕ) (ready : List String)
    → IsDistinct (task_ids tasks)
    → IsCounted tasks done [] degrees ready
    → IsInOrder tasks done (kahn fuel tasks degrees ready)
unfolding kahn
kahn-IsInOrder zero tasks done degrees ready distinct k = tt
kahn-IsInOrder (suc fuel) tasks done degrees [] distinct k = tt
kahn-IsInOrder (suc fuel) tasks done degrees (current ∷ ready) distinct k =
    let cs = sort text_le (children current tasks) in
    (
      k.ready_new.0,
      k.ready_known.0,
      dependencies-done current done degrees tasks k.ready_zero.0 k.bounded,
      kahn-IsInOrder fuel tasks (current ∷ done) (release_all cs degrees ready).0
          (release_all cs degrees ready).1 distinct
          (release_all-IsCounted cs degrees ready (take-IsCounted current distinct k)
            (sort-IsDistinct (children current tasks) (children-IsDistinct current tasks distinct))
            (children-known current tasks cs (λ x there.
              mem_text-children x current tasks
                (sym (mem_text-sort x (children current tasks)) ∙ there)))),
    )
