-- ===== src/Chaos/Dag/Sound.antt =====
-- `validate_dag` of tools/chaos_lab/model.py: what holds of the tasks and the order when it
-- returns.
use helix_grid.Prelude.{
  ℕ, ◌+◌, ◌≤◌, ◌≡◌, refl, String, text_eq_iff, text_le, mem_text, true, false, List, [], ◌∷◌, some,
  arith, inl, inr, Bool-cases, ◌==◌, All, length,
}
use helix_grid.Prelude.Dict.{lookup}
use helix_grid.Prelude.Sorting.{sort, sort-All}
use helix_grid.Chaos.Types.{Task}
use helix_grid.Chaos.Dag.{task_ids, indegrees, ready_ids, kahn_order}
use helix_grid.Chaos.Dag.Members.{IsDistinct, sort-IsDistinct, known_ids}
use helix_grid.Chaos.Dag.Release.{missing, IsZero, IsCounted}
use helix_grid.Chaos.Dag.Order.{IsInOrder, kahn-IsInOrder}

pub missing-nil : (ds : List String) → missing [] ds ≡ length ds
missing-nil [] = refl
missing-nil (d ∷ ds) = omega (arith, missing-nil ds)

-- The counters begin as the numbers of dependencies.
lookup-indegrees :
    (id : String) (n : ℕ) (ts : List Task)
    → lookup id (indegrees ts) ≡ some n
    → mem_text id (task_ids ts) ≡ true
unfolding indegrees task_ids
lookup-indegrees id n [] h = absurd (ground (arith, h))
lookup-indegrees id n (t ∷ ts) h =
    ground (arith, h, lookup-indegrees id n ts, text_eq_iff t.id id, text_eq_iff id t.id)

-- A task in front does not hide the counters of the others.
bounded-later :
    (t : Task) (us ts : List Task)
    → mem_text t.id (task_ids ts) ≡ false
    → All (λ u. mem_text u.id (task_ids ts) ≡ true) us
    → All (λ u. (n : ℕ) → lookup u.id (indegrees ts) ≡ some n → missing [] u.depends_on + 0 ≤ n) us
    → All
        (λ u. (n : ℕ) → lookup u.id (indegrees (t ∷ ts)) ≡ some n → missing [] u.depends_on + 0 ≤ n)
        us
unfolding indegrees task_ids
bounded-later t [] ts new known h = tt
bounded-later t (u ∷ us) ts new known h = (
  (λ n found. h.0 n (ground (arith, found, new, known.0, text_eq_iff t.id u.id))),
  bounded-later t us ts new known.1 h.1,
)

indegrees-bounded :
    (ts : List Task)
    → IsDistinct (task_ids ts)
    → All (λ t. (n : ℕ) → lookup t.id (indegrees ts) ≡ some n → missing [] t.depends_on + 0 ≤ n) ts
unfolding indegrees task_ids
indegrees-bounded [] h = tt
indegrees-bounded (t ∷ ts) h = (
  (λ n found. ground (arith, found, missing-nil t.depends_on, text_eq_iff t.id t.id)),
  bounded-later t ts ts h.0 (known_ids ts) (indegrees-bounded ts h.1),
)

ready_ids-mem :
    (x : String) (ts : List Task)
    → mem_text x (ready_ids (indegrees ts)) ≡ true
    → mem_text x (task_ids ts) ≡ true
unfolding ready_ids indegrees task_ids
ready_ids-mem x [] h = h
ready_ids-mem x (t ∷ ts) h = ground (arith, h, ready_ids-mem x ts)

ready_ids-IsDistinct :
    (ts : List Task) → IsDistinct (task_ids ts) → IsDistinct (ready_ids (indegrees ts))
unfolding ready_ids indegrees task_ids
ready_ids-IsDistinct [] h = tt
ready_ids-IsDistinct (t ∷ ts) h = elim (Bool-cases (length t.depends_on == 0)) [
  | inl root ↦ rw root (ground (arith, h.0, ready_ids-mem t.id ts), ready_ids-IsDistinct ts h.1)
  | inr other ↦ rw other (ready_ids-IsDistinct ts h.1)
]

ready_ids-IsZero :
    (ts us : List Task)
    → ((x : String) (n : ℕ) → lookup x (indegrees us) ≡ some n → lookup x (indegrees ts) ≡ some n)
    → IsDistinct (task_ids us)
    → All (IsZero (indegrees ts)) (ready_ids (indegrees us))
unfolding ready_ids indegrees task_ids
ready_ids-IsZero ts [] h distinct = tt
ready_ids-IsZero ts (u ∷ us) h distinct = elim (Bool-cases (length u.depends_on == 0)) [
  | inl root ↦ rw root (
    h u.id 0 (ground (arith, root, text_eq_iff u.id u.id)),
    ready_ids-IsZero ts us
        (λ x n found. h x n (
          ground (
            arith,
            found,
            distinct.0,
            lookup-indegrees x n us,
            text_eq_iff u.id x,
            text_eq_iff x u.id,
          )))
        distinct.1,
  )
  | inr other ↦ rw other (
      ready_ids-IsZero ts us
        (λ x n found. h x n (
          ground (
            arith,
            found,
            distinct.0,
            lookup-indegrees x n us,
            text_eq_iff u.id x,
            text_eq_iff x u.id,
          )))
        distinct.1)
]

known_from :
    (ts : List Task) (xs : List String)
    → ((x : String) → mem_text x xs ≡ true → mem_text x (task_ids ts) ≡ true)
    → All (λ x. mem_text x (task_ids ts) ≡ true) xs
known_from ts [] h = tt
known_from ts (x ∷ xs) h = (
  h x (ground (arith, text_eq_iff x x)),
  known_from ts xs (λ y there. h y (ground (arith, there))),
)

nothing_done : (xs : List String) → All (λ x. mem_text x [] ≡ false) xs
nothing_done [] = tt
nothing_done (x ∷ xs) = (refl, nothing_done xs)

start-IsCounted :
    (ts : List Task)
    → IsDistinct (task_ids ts)
    → IsCounted ts [] [] (indegrees ts) (sort text_le (ready_ids (indegrees ts)))
start-IsCounted ts distinct = record {
  bounded = indegrees-bounded ts distinct;
  ready_zero = sort-All text_le _ _ (ready_ids-IsZero ts ts (λ x n found. found) distinct);
  done_zero = tt;
  ready_new = nothing_done _;
  ready_known =
      sort-All text_le _ _
        (known_from ts (ready_ids (indegrees ts)) (λ x there. ready_ids-mem x ts there));
  distinct = sort-IsDistinct (ready_ids (indegrees ts)) (ready_ids-IsDistinct ts distinct);
}

pub kahn_order-IsInOrder :
    (ts : List Task) → IsDistinct (task_ids ts) → IsInOrder ts [] (kahn_order ts)
unfolding kahn_order
kahn_order-IsInOrder ts distinct =
    kahn-IsInOrder (length ts) ts [] (indegrees ts) (sort text_le (ready_ids (indegrees ts)))
      distinct (start-IsCounted ts distinct)
