-- ===== src/Chaos/Dag/Exact.antt =====
-- Kahn's algorithm in `validate_dag` of tools/chaos_lab/model.py from the other side: the counters
-- count no more than the dependencies that are not done, and nothing that has come to 0 is lost.
use helix_grid.Prelude.{
  ℕ, ◌+◌, ◌-◌, ◌≤◌, ◌≡◌, refl, ap, subst, ◌∙◌, String, text_eq, text_eq_iff, text_le, mem_text,
  true, false, ◌||◌, List, [], ◌∷◌, ◌++◌, some, arith, inl, inr, Bool-cases, All, All-map,
}
use helix_grid.Prelude.Dict.{Dict, lookup, lookup-update_self, lookup-update_ne}
use helix_grid.Prelude.Sorting.{sort}
use helix_grid.Chaos.Types.{Task}
use helix_grid.Chaos.Dag.{children, release, release_all}
use helix_grid.Chaos.Dag.Members.{IsDistinct, mem_text-sort, mem_text-append, All-both}
use helix_grid.Chaos.Dag.Release.{missing, pending, next_ready, task_of}
use helix_grid.Chaos.Dag.Order.{IsInOrder}

-- A task's counter is there and counts no more than it should; at 0, the task is ready or done.
abbrev pub IsExact : List String → List String → Dict ℕ → List String → Task → Type 0
IsExact done cs degrees ready t =
    (n : ℕ) × (lookup t.id degrees ≡ some n)
    × (n ≤ missing done t.depends_on + pending t.id cs)
    × (n ≡ 0 → (mem_text t.id ready || mem_text t.id done) ≡ true)

mem_text-next_ready :
    (x c : String) (left : Dict ℕ) (ready : List String)
    → mem_text x ready ≡ true
    → mem_text x (next_ready c left ready) ≡ true
mem_text-next_ready x c left ready h =
    ground (arith, h, mem_text-sort x (ready ++ c ∷ []), mem_text-append x c ready)

next_ready-zero :
    (c : String) (left : Dict ℕ) (ready : List String)
    → lookup c left ≡ some 0
    → mem_text c (next_ready c left ready) ≡ true
next_ready-zero c left ready h =
    ground (arith, h, mem_text-sort c (ready ++ c ∷ []), mem_text-append c c ready, text_eq_iff c c)

release-IsExact :
    (done cs ready : List String) (degrees : Dict ℕ) (c : String) (t : Task)
    → mem_text c cs ≡ false
    → IsExact done (c ∷ cs) degrees ready t
    → IsExact done cs (release c degrees) (next_ready c (release c degrees) ready) t
unfolding release
release-IsExact done cs ready degrees c t once (n, found, le, caught) =
    elim (Bool-cases (text_eq c t.id)) [
      | inl same ↦
          let at_c = (text_eq_iff c t.id).0 same in
          let lowered : lookup c (release c degrees) ≡ some (n - 1) =
            lookup-update_self c (λ k. k - 1) degrees (rw at_c found) in
          (
            n - 1,
            subst (λ x. lookup x (release c degrees) ≡ some (n - 1)) at_c lowered,
            ground (arith, le, once, at_c, text_eq_iff t.id c),
            λ at_zero.
                (let listed =
                    next_ready-zero c (release c degrees) ready (lowered ∙ ap some at_zero) in
                  let listed_t =
                    subst (λ x. mem_text x (next_ready c (release c degrees) ready) ≡ true) at_c
                      listed in
                  ground (arith, listed_t)),
          )
      | inr other ↦ (
        n,
        lookup-update_ne c t.id (λ k. k - 1) degrees other ∙ found,
        ground (arith, le, other, text_eq_iff t.id c, text_eq_iff c t.id),
        λ at_zero.
            ground (arith, caught at_zero, mem_text-next_ready t.id c (release c degrees) ready),
      )
    ]

missing-drop :
    (c : String) (done ds : List String)
    → IsDistinct ds
    → missing done ds ≤ missing (c ∷ done) ds + pending c ds
missing-drop c done [] h = omega arith
missing-drop c done (d ∷ ds) h =
    ground (arith, h.0, missing-drop c done ds h.1, text_eq_iff c d, text_eq_iff d c)

-- A task that names `p` is a child of `p`.
named_children :
    (p : String) (ts : List Task)
    → All (λ t. mem_text p t.depends_on ≡ true → mem_text t.id (children p ts) ≡ true) ts
unfolding children
named_children p [] = tt
named_children p (t ∷ ts) = (
  (λ named. ground (arith, named, text_eq_iff t.id t.id)),
  All-map ts (λ u h named. ground (arith, h named)) (named_children p ts),
)

take-IsExact :
    (done ready : List String) (degrees : Dict ℕ) (tasks : List Task) (current : String) (t : Task)
    → IsDistinct t.depends_on
    → (mem_text current t.depends_on ≡ true → mem_text t.id (children current tasks) ≡ true)
    → IsExact done [] degrees (current ∷ ready) t
    → IsExact (current ∷ done) (sort text_le (children current tasks)) degrees ready t
take-IsExact done ready degrees tasks current t distinct child (n, found, le, caught) = (
  n,
  found,
  ground (
    arith,
    le,
    missing-drop current done t.depends_on distinct,
    child,
    mem_text-sort t.id (children current tasks),
  ),
  λ at_zero. ground (arith, caught at_zero),
)

pub release_all-IsExact :
    (done cs ready : List String) (degrees : Dict ℕ) (ts : List Task)
    → IsDistinct cs
    → All (IsExact done cs degrees ready) ts
    → All (IsExact done [] (release_all cs degrees ready).0 (release_all cs degrees ready).1) ts
unfolding release_all
release_all-IsExact done [] ready degrees ts distinct h = h
release_all-IsExact done (c ∷ cs) ready degrees ts distinct h =
    release_all-IsExact done cs (next_ready c (release c degrees) ready) (release c degrees) ts
      distinct.1
      (All-map ts (λ t exact. release-IsExact done cs ready degrees c t distinct.0 exact) h)

pub taken-IsExact :
    (done ready : List String) (degrees : Dict ℕ) (tasks : List Task) (current : String)
    → All (λ t. IsDistinct t.depends_on) tasks
    → All (IsExact done [] degrees (current ∷ ready)) tasks
    → All (IsExact (current ∷ done) (sort text_le (children current tasks)) degrees ready) tasks
taken-IsExact done ready degrees tasks current distinct h =
    All-both
      {P = λ t.
        IsDistinct t.depends_on
        × (mem_text current t.depends_on ≡ true → mem_text t.id (children current tasks) ≡ true)}
      tasks (λ t both exact. take-IsExact done ready degrees tasks current t both.0 both.1 exact)
      (All-both tasks (λ t d child. (d, child)) distinct (named_children current tasks)) h

missing_nothing :
    (seen done ds : List String)
    → ((x : String) → mem_text x seen ≡ true → mem_text x done ≡ true)
    → All (λ d. mem_text d seen ≡ true) ds
    → missing done ds ≡ 0
missing_nothing seen done [] within h = refl
missing_nothing seen done (d ∷ ds) within h =
    rw (within d h.0) (missing_nothing seen done ds within h.1)

-- With nothing ready, what a topological order lists is done.
pub ids_done :
    (tasks : List Task) (done : List String) (degrees : Dict ℕ) (seen ids : List String)
    → All (IsExact done [] degrees []) tasks
    → ((x : String) → mem_text x seen ≡ true → mem_text x done ≡ true)
    → IsInOrder tasks seen ids
    → All (λ x. mem_text x done ≡ true) ids
ids_done tasks done degrees seen [] exact within h = tt
ids_done tasks done degrees seen (id ∷ ids) exact within h =
    let (t, same, ((n, found, le, caught), earlier)) =
      task_of
        (λ t.
          IsExact done [] degrees [] t
          × (t.id ≡ id → All (λ d. mem_text d seen ≡ true) t.depends_on))
        id tasks (All-both tasks (λ t e d. (e, d)) exact h.2) h.1 in
    let none_missing = missing_nothing seen done t.depends_on within (earlier same) in
    let id_done : mem_text id done ≡ true =
      subst (λ x. mem_text x done ≡ true) same (caught (omega (arith, le, none_missing))) in
    (
      id_done,
      ids_done tasks done degrees (id ∷ seen) ids exact
          (λ x there. ground (arith, there, id_done, within x, text_eq_iff x id)) h.3,
    )
