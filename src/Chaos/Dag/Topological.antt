-- ===== src/Chaos/Dag/Topological.antt =====
-- What `validate_dag` of tools/chaos_lab/model.py returns: a topological order of all tasks.
use helix_grid.Prelude.{
  ◌+◌, ◌≤◌, ◌≡◌, refl, sym, String, text_eq, text_eq_iff, mem_text, true, false, List, [], ◌∷◌,
  Option, none, some, if◌then◌else◌, arith, inl, inr, Bool-cases, ◌==◌, All, All-map, length,
}
use helix_grid.Prelude.Exec.{Result, ok}
use helix_grid.Chaos.Types.{Error, Task}
use helix_grid.Chaos.Dag.{
  task_ids, kahn_order, then_check, or_error, duplicate_error, dependencies_error, checked_order,
  validate_dag,
}
use helix_grid.Chaos.Dag.Members.{IsDistinct, mem_text-All, All-mem_text, IsDistinct-task_ids}
use helix_grid.Chaos.Dag.Order.{IsInOrder}
use helix_grid.Chaos.Dag.Sound.{kahn_order-IsInOrder}

drop_text : String → List String → List String
drop_text x [] = []
drop_text x (y ∷ ys) = if text_eq x y then drop_text x ys else y ∷ drop_text x ys

mem_text-drop_text :
    (x y : String) (ys : List String)
    → text_eq x y ≡ false
    → mem_text y (drop_text x ys) ≡ mem_text y ys
unfolding drop_text
mem_text-drop_text x y [] h = refl
mem_text-drop_text x y (z ∷ ys) h =
    ground (arith, h, mem_text-drop_text x y ys, text_eq_iff x z, text_eq_iff y z, text_eq_iff x y)

length-drop_text : (x : String) (ys : List String) → length (drop_text x ys) ≤ length ys
unfolding drop_text
length-drop_text x [] = omega arith
length-drop_text x (y ∷ ys) = ground (arith, length-drop_text x ys)

length-drop_text-lt :
    (x : String) (ys : List String) → mem_text x ys ≡ true → length (drop_text x ys) + 1 ≤ length ys
unfolding drop_text
length-drop_text-lt x [] h = absurd (ground (arith, h))
length-drop_text-lt x (y ∷ ys) h =
    ground (arith, h, length-drop_text x ys, length-drop_text-lt x ys)

abbrev pub Inside : List String → List String → Type 0
Inside xs ys = All (λ x. mem_text x ys ≡ true) xs

Inside-drop_text :
    (x : String) (xs ys : List String)
    → mem_text x xs ≡ false
    → Inside xs ys
    → Inside xs (drop_text x ys)
Inside-drop_text x [] ys new h = tt
Inside-drop_text x (z ∷ xs) ys new h = (
  ground (arith, new, h.0, mem_text-drop_text x z ys),
  Inside-drop_text x xs ys (ground (arith, new)) h.1,
)

-- A list without repeats inside another is no longer.
pub length-Inside : (xs ys : List String) → IsDistinct xs → Inside xs ys → length xs ≤ length ys
length-Inside [] ys distinct h = omega arith
length-Inside (x ∷ xs) ys distinct h = omega (
  arith,
  length-drop_text-lt x ys h.0,
  length-Inside xs (drop_text x ys) distinct.1 (Inside-drop_text x xs ys distinct.0 h.1),
)

-- If it is as long, it has everything.
mem_text-full :
    (xs ys : List String) (y : String)
    → IsDistinct xs
    → Inside xs ys
    → length ys ≤ length xs
    → mem_text y ys ≡ true
    → mem_text y xs ≡ true
mem_text-full xs ys y distinct h long there = elim (Bool-cases (mem_text y xs)) [
  | inl found ↦ found
  | inr lost ↦ absurd (
      omega (
        arith,
        long,
        length-drop_text-lt y ys there,
        length-Inside xs (drop_text y ys) distinct (Inside-drop_text y xs ys lost h),
      ))
]

new_ids :
    (tasks : List Task) (done ids : List String)
    → IsInOrder tasks done ids
    → All (λ x. mem_text x done ≡ false) ids
new_ids tasks done [] h = tt
new_ids tasks done (id ∷ ids) h =
    (h.0, All-map ids (λ x new. ground (arith, new)) (new_ids tasks (id ∷ done) ids h.3))

pub IsInOrder-IsDistinct :
    (tasks : List Task) (done ids : List String) → IsInOrder tasks done ids → IsDistinct ids
IsInOrder-IsDistinct tasks done [] h = tt
IsInOrder-IsDistinct tasks done (id ∷ ids) h = (
  mem_text-All id ids (
      All-map ids (λ x new. ground (arith, new, text_eq_iff id x, text_eq_iff x id))
        (new_ids tasks (id ∷ done) ids h.3)),
  IsInOrder-IsDistinct tasks (id ∷ done) ids h.3,
)

pub IsInOrder-Inside :
    (tasks : List Task) (done ids : List String)
    → IsInOrder tasks done ids
    → Inside ids (task_ids tasks)
IsInOrder-Inside tasks done [] h = tt
IsInOrder-Inside tasks done (id ∷ ids) h = (h.1, IsInOrder-Inside tasks (id ∷ done) ids h.3)

pub length-task_ids : (ts : List Task) → length (task_ids ts) ≡ length ts
unfolding task_ids
length-task_ids [] = refl
length-task_ids (t ∷ ts) = omega (arith, length-task_ids ts)

-- All ids of the tasks, in an order in which dependencies come first
abbrev pub IsTopological : List Task → List String → Type 0
IsTopological tasks order =
    IsInOrder tasks [] order × ((id : String) → mem_text id (task_ids tasks) ≡ mem_text id order)

checked_order-ok :
    (ts : List Task) (order : List String)
    → checked_order ts ≡ ok order
    → (order ≡ kahn_order ts) × (length (kahn_order ts) ≡ length ts)
unfolding checked_order
checked_order-ok ts order h = elim (Bool-cases (length (kahn_order ts) == length ts)) [
  | inl full ↦ (ground (arith, h, full), ground (arith, full))
  | inr short ↦ absurd (ground (arith, h, short))
]

checks_passed :
    (a b : Option Error) (r : Result Error (List String)) (order : List String)
    → or_error (then_check a b) r ≡ ok order
    → (a ≡ none) × (b ≡ none) × (r ≡ ok order)
checks_passed none none r order h = (refl, refl, h)
checks_passed none (some e) r order h = absurd (ground (arith, h))
checks_passed (some e) b r order h = absurd (ground (arith, h))

kahn_order-IsTopological :
    (ts : List Task)
    → IsDistinct (task_ids ts)
    → length (kahn_order ts) ≡ length ts
    → IsTopological ts (kahn_order ts)
kahn_order-IsTopological ts distinct full =
    let ordered = kahn_order-IsInOrder ts distinct in
    let inside = IsInOrder-Inside ts [] (kahn_order ts) ordered in
    (
      ordered,
      λ id. elim (Bool-cases (mem_text id (task_ids ts))) [
        | inl known ↦ rw known (
            sym (
              mem_text-full (kahn_order ts) (task_ids ts) id
                (IsInOrder-IsDistinct ts [] (kahn_order ts) ordered) inside
                (omega (arith, full, length-task_ids ts)) known))
        | inr other ↦ ground (
          arith,
          other,
          All-mem_text (λ x. mem_text x (task_ids ts) ≡ true) id (kahn_order ts) inside,
        )
      ],
    )

-- The order that `validate_dag` returns lists every task's id once and nothing else, and each
-- after the dependencies of its task.
pub validate_dag-IsTopological :
    (ts : List Task) (order : List String) → validate_dag ts ≡ ok order → IsTopological ts order
unfolding validate_dag
validate_dag-IsTopological [] order h = absurd (ground (arith, h))
validate_dag-IsTopological (t ∷ ts) order h =
    let (no_duplicate, _, checked) =
      checks_passed (duplicate_error [] (t ∷ ts)) (dependencies_error (task_ids (t ∷ ts)) (t ∷ ts))
        (checked_order (t ∷ ts)) order h in
    let (same, full) = checked_order-ok (t ∷ ts) order checked in
    let (_, distinct) = IsDistinct-task_ids [] (t ∷ ts) no_duplicate in
    rw same (kahn_order-IsTopological (t ∷ ts) distinct full)
