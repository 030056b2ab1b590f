-- ===== src/Chaos/Dag/Complete.antt =====
-- `validate_dag` of tools/chaos_lab/model.py accepts every workflow that has a topological order.
use helix_grid.Prelude.{
  ℕ, zero, suc, ◌+◌, ◌≤◌, ◌≡◌, ◌≢◌, refl, sym, ap, ◌∙◌, String, text_eq_iff, text_le, mem_text,
  true, false, List, [], ◌∷◌, Option, none, some, arith, inl, inr, Bool-cases, All, All-map, length,
}
use helix_grid.Prelude.Dict.{Dict, lookup}
use helix_grid.Prelude.Exec.{ok}
use helix_grid.Prelude.Sorting.{sort}
use helix_grid.Chaos.Types.{Error, Task}
use helix_grid.Chaos.Dag.{
  task_ids, children, indegrees, ready_ids, release_all, kahn, kahn_order, dependency_error,
  dependencies_error, duplicate_error, then_check, checked_order, validate_dag,
}
use helix_grid.Chaos.Dag.Members.{
  IsDistinct, sort-IsDistinct, mem_text-sort, mem_text-All, All-mem_text, children-IsDistinct,
  IsDistinct-task_ids, known_ids,
}
use helix_grid.Chaos.Dag.Sound.{missing-nil, kahn_order-IsInOrder}
use helix_grid.Chaos.Dag.Topological.{
  length-Inside, length-task_ids, IsTopological, IsInOrder-IsDistinct, IsInOrder-Inside, Inside,
}
use helix_grid.Chaos.Dag.Exact.{IsExact, release_all-IsExact, taken-IsExact, ids_done}

dependency_error-IsDistinct :
    (id : String) (ids seen ds : List String)
    → dependency_error id ids seen ds ≡ none
    → All (λ d. mem_text d seen ≡ false) ds × IsDistinct ds
unfolding dependency_error
dependency_error-IsDistinct id ids seen [] h = (tt, tt)
dependency_error-IsDistinct id ids seen (d ∷ ds) h = elim (Bool-cases (mem_text d seen)) [
  | inl twice ↦ absurd (ground (arith, twice, h))
  | inr new ↦
      let (apart, distinct) =
        dependency_error-IsDistinct id ids (d ∷ seen) ds (ground (arith, new, h)) in
      (
        (new, All-map ds (λ x fresh. ground (arith, fresh)) apart),
        (
          mem_text-All d ds (
              All-map ds (λ x fresh. ground (arith, fresh, text_eq_iff d x, text_eq_iff x d))
                apart),
          distinct,
        ),
      )
]

then_check-none : (a b : Option Error) → then_check a b ≡ none → (a ≡ none) × (b ≡ none)
then_check-none none b h = (refl, h)
then_check-none (some e) b h = absurd (ground (arith, h))

dependencies_error-All :
    (ids : List String) (ts : List Task)
    → dependencies_error ids ts ≡ none
    → All (λ t. IsDistinct t.depends_on) ts
unfolding dependencies_error
dependencies_error-All ids [] h = tt
dependencies_error-All ids (t ∷ ts) h =
    let (here, later) =
      then_check-none (dependency_error t.id ids [] t.depends_on) (dependencies_error ids ts) h in
    (
      (dependency_error-IsDistinct t.id ids [] t.depends_on here).1,
      dependencies_error-All ids ts later,
    )

indegrees-length-later :
    (t : Task) (us ts : List Task)
    → mem_text t.id (task_ids ts) ≡ false
    → All (λ u. mem_text u.id (task_ids ts) ≡ true) us
    → All (λ u. lookup u.id (indegrees ts) ≡ some (length u.depends_on)) us
    → All (λ u. lookup u.id (indegrees (t ∷ ts)) ≡ some (length u.depends_on)) us
unfolding indegrees task_ids
indegrees-length-later t [] ts new known h = tt
indegrees-length-later t (u ∷ us) ts new known h = (
  ground (arith, h.0, new, known.0, text_eq_iff t.id u.id),
  indegrees-length-later t us ts new known.1 h.1,
)

indegrees-length :
    (ts : List Task)
    → IsDistinct (task_ids ts)
    → All (λ t. lookup t.id (indegrees ts) ≡ some (length t.depends_on)) ts
unfolding indegrees task_ids
indegrees-length [] h = tt
indegrees-length (t ∷ ts) h = (
  ground (arith, text_eq_iff t.id t.id),
  indegrees-length-later t ts ts h.0 (known_ids ts) (indegrees-length ts h.1),
)

mem_text-ready_ids :
    (x : String) (d : Dict ℕ) → lookup x d ≡ some 0 → mem_text x (ready_ids d) ≡ true
unfolding ready_ids
mem_text-ready_ids x [] h = absurd (ground (arith, h))
mem_text-ready_ids x ((j, n) ∷ d) h =
    ground (arith, h, mem_text-ready_ids x d, text_eq_iff j x, text_eq_iff x j)

start-IsExact :
    (ts : List Task)
    → IsDistinct (task_ids ts)
    → All (IsExact [] [] (indegrees ts) (sort text_le (ready_ids (indegrees ts)))) ts
start-IsExact ts distinct =
    All-map ts
      (λ t found. (
        length t.depends_on,
        found,
        omega (arith, missing-nil t.depends_on),
        λ at_zero. ground (
          arith,
          mem_text-sort t.id (ready_ids (indegrees ts)),
          mem_text-ready_ids t.id (indegrees ts) (found ∙ ap some at_zero),
        ),
      ))
      (indegrees-length ts distinct)

Inside-ids :
    (done : List String) (xs ids : List String)
    → All (λ x. mem_text x done ≡ true) ids
    → ((x : String) → mem_text x xs ≡ true → mem_text x ids ≡ true)
    → Inside xs done
Inside-ids done [] ids h covers = tt
Inside-ids done (x ∷ xs) ids h covers = (
  All-mem_text (λ y. mem_text y done ≡ true) x ids h (covers x (ground (arith, text_eq_iff x x))),
  Inside-ids done xs ids h (λ y there. covers y (ground (arith, there))),
)

-- The loop, from as much fuel as there are tasks left, orders them all.
length-kahn :
    (fuel : ℕ) (tasks : List Task) (done : List String) (degrees : Dict ℕ) (ready o : List String)
    → IsDistinct (task_ids tasks)
    → All (λ t. IsDistinct t.depends_on) tasks
    → IsTopological tasks o
    → All (IsExact done [] degrees ready) tasks
    → length (task_ids tasks) ≤ fuel + length done
    → length (task_ids tasks) ≤ length (kahn fuel tasks degrees ready) + length done
unfolding kahn
length-kahn zero tasks done degrees ready o distinct apart order exact room = room
length-kahn (suc fuel) tasks done degrees [] o distinct apart order exact room =
    let inside =
      Inside-ids done (task_ids tasks) o
        (ids_done tasks done degrees [] o exact (λ x there. absurd (ground (arith, there))) order.0)
        (λ x there. sym (order.1 x) ∙ there) in
    omega (arith, length-Inside (task_ids tasks) done distinct inside)
length-kahn (suc fuel) tasks done degrees (current ∷ ready) o distinct apart order exact room =
    let cs = sort text_le (children current tasks) in
    omega (
      arith,
      length-kahn fuel tasks (current ∷ done) (release_all cs degrees ready).0
          (release_all cs degrees ready).1 o distinct apart order
          (release_all-IsExact (current ∷ done) cs ready degrees tasks
            (sort-IsDistinct (children current tasks) (children-IsDistinct current tasks distinct))
            (taken-IsExact done ready degrees tasks current apart exact))
          (omega (arith, room)),
    )

length-kahn_order :
    (ts : List Task) (o : List String)
    → IsDistinct (task_ids ts)
    → All (λ t. IsDistinct t.depends_on) ts
    → IsTopological ts o
    → length (kahn_order ts) ≡ length ts
unfolding kahn_order
length-kahn_order ts o distinct apart order =
    let all =
      length-kahn (length ts) ts [] (indegrees ts) (sort text_le (ready_ids (indegrees ts))) o
        distinct apart order (start-IsExact ts distinct) (omega (arith, length-task_ids ts)) in
    let ordered = kahn_order-IsInOrder ts distinct in
    let no_more =
      length-Inside (kahn_order ts) (task_ids ts)
        (IsInOrder-IsDistinct ts [] (kahn_order ts) ordered)
        (IsInOrder-Inside ts [] (kahn_order ts) ordered) in
    omega (arith, all, no_more, length-task_ids ts)

-- Tasks, at least one, are accepted, with the order of Kahn's loop, if the checks find no two
-- tasks of one id and no dependency that is repeated, unknown or the task itself, and some
-- topological order of the tasks exists.
pub validate_dag-ok :
    (ts : List Task) (o : List String)
    → ts ≢ []
    → duplicate_error [] ts ≡ none
    → dependencies_error (task_ids ts) ts ≡ none
    → IsTopological ts o
    → validate_dag ts ≡ ok (kahn_order ts)
unfolding validate_dag checked_order
validate_dag-ok [] o some_task ids deps order = absurd (some_task refl)
validate_dag-ok (t ∷ ts) o some_task ids deps order =
    let distinct = (IsDistinct-task_ids [] (t ∷ ts) ids).1 in
    let full =
      length-kahn_order (t ∷ ts) o distinct
        (dependencies_error-All (task_ids (t ∷ ts)) (t ∷ ts) deps) order in
    rw (ids, deps) (ground (arith, full))
