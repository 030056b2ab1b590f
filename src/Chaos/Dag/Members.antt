-- ===== src/Chaos/Dag/Members.antt =====
-- Lists of ids without repeats, sorted or not, and the ids of the tasks that `validate_dag` of
-- tools/chaos_lab/model.py works on.
use helix_grid.Prelude.{
  ◌≡◌, refl, sym, subst, String, text_eq, text_eq_iff, text_le, mem_text, true, false, ◌||◌, List,
  [], ◌∷◌, ◌++◌, none, arith, inl, inr, Bool-cases, All, All-map,
}
use helix_grid.Prelude.Sorting.{place, sort}
use helix_grid.Chaos.Types.{Task}
use helix_grid.Chaos.Dag.{task_ids, children, duplicate_error}

-- No id stands twice.
abbrev pub IsDistinct : List String → Type 0
IsDistinct [] = Unit
IsDistinct (x ∷ xs) = (mem_text x xs ≡ false) × IsDistinct xs

pub mem_text-place :
    (x y : String) (ys : List String)
    → mem_text x (place text_le y ys) ≡ (text_eq x y || mem_text x ys)
mem_text-place x y [] = ground arith
mem_text-place x y (z ∷ ys) = ground (arith, mem_text-place x y ys)

pub mem_text-sort : (x : String) (ys : List String) → mem_text x (sort text_le ys) ≡ mem_text x ys
mem_text-sort x [] = refl
mem_text-sort x (y ∷ ys) = rw (mem_text-place x y (sort text_le ys), mem_text-sort x ys) refl

place-IsDistinct :
    (y : String) (ys : List String)
    → mem_text y ys ≡ false
    → IsDistinct ys
    → IsDistinct (place text_le y ys)
place-IsDistinct y [] new h = (refl, tt)
place-IsDistinct y (z ∷ ys) new h = elim (Bool-cases (text_le y z)) [
  | inl below ↦ rw below (new, h)
  | inr above ↦ rw above (
    ground (arith, mem_text-place z y ys, text_eq_iff y z, text_eq_iff z y, h.0, new),
    place-IsDistinct y ys (ground (arith, new)) h.1,
  )
]

pub sort-IsDistinct : (ys : List String) → IsDistinct ys → IsDistinct (sort text_le ys)
sort-IsDistinct [] h = tt
sort-IsDistinct (y ∷ ys) h =
    place-IsDistinct y (sort text_le ys) (rw (mem_text-sort y ys) h.0) (sort-IsDistinct ys h.1)

pub mem_text-append :
    (x y : String) (ys : List String) → mem_text x (ys ++ y ∷ []) ≡ (mem_text x ys || text_eq x y)
mem_text-append x y [] = ground arith
mem_text-append x y (z ∷ ys) = ground (arith, mem_text-append x y ys)

pub IsDistinct-append :
    (ys : List String) (y : String)
    → IsDistinct ys
    → mem_text y ys ≡ false
    → IsDistinct (ys ++ y ∷ [])
IsDistinct-append [] y h new = (refl, tt)
IsDistinct-append (z ∷ ys) y h new = (
  ground (arith, mem_text-append z y ys, text_eq_iff y z, text_eq_iff z y, h.0, new),
  IsDistinct-append ys y h.1 (ground (arith, new)),
)

-- The ids of a list avoid a text.
pub mem_text-All :
    (x : String) (ys : List String) → All (λ y. text_eq x y ≡ false) ys → mem_text x ys ≡ false
mem_text-All x [] h = refl
mem_text-All x (y ∷ ys) h = ground (arith, h.0, mem_text-All x ys h.1)

pub All-mem_text :
    (P : String → Type 0) (x : String) (ys : List String) → All P ys → mem_text x ys ≡ true → P x
All-mem_text P x [] h there = absurd (ground (arith, there))
All-mem_text P x (y ∷ ys) h there = elim (Bool-cases (text_eq x y)) [
  | inl same ↦ subst P (sym ((text_eq_iff x y).0 same)) h.0
  | inr other ↦ All-mem_text P x ys h.1 (ground (arith, other, there))
]

pub IsDistinct-task_ids :
    (known : List String) (ts : List Task)
    → duplicate_error known ts ≡ none
    → All (λ id. mem_text id known ≡ false) (task_ids ts) × IsDistinct (task_ids ts)
unfolding duplicate_error task_ids
IsDistinct-task_ids known [] h = (tt, tt)
IsDistinct-task_ids known (t ∷ ts) h = elim (Bool-cases (mem_text t.id known)) [
  | inl twice ↦ absurd (ground (arith, twice, h))
  | inr new ↦
      let (apart, distinct) = IsDistinct-task_ids (t.id ∷ known) ts (ground (arith, new, h)) in
      (
        (new, All-map (task_ids ts) (λ id fresh. ground (arith, fresh)) apart),
        (
          mem_text-All t.id (task_ids ts) (
              All-map (task_ids ts)
                (λ id fresh. ground (arith, fresh, text_eq_iff t.id id, text_eq_iff id t.id))
                apart),
          distinct,
        ),
      )
]

pub known_ids : (ts : List Task) → All (λ t. mem_text t.id (task_ids ts) ≡ true) ts
unfolding task_ids
known_ids [] = tt
known_ids (t ∷ ts) =
    (ground (arith, text_eq_iff t.id t.id), All-map ts (λ u h. ground (arith, h)) (known_ids ts))

pub mem_text-children :
    (x p : String) (ts : List Task)
    → mem_text x (children p ts) ≡ true
    → mem_text x (task_ids ts) ≡ true
unfolding children task_ids
mem_text-children x p [] h = h
mem_text-children x p (t ∷ ts) h = ground (arith, h, mem_text-children x p ts)

pub children-IsDistinct :
    (p : String) (ts : List Task) → IsDistinct (task_ids ts) → IsDistinct (children p ts)
unfolding children task_ids
children-IsDistinct p [] h = tt
children-IsDistinct p (t ∷ ts) h = elim (Bool-cases (mem_text p t.depends_on)) [
  | inl named ↦
      rw named (ground (arith, h.0, mem_text-children t.id p ts), children-IsDistinct p ts h.1)
  | inr other ↦ rw other (children-IsDistinct p ts h.1)
]

pub All-both :
    {P Q R : Task → Type 0} (ts : List Task)
    → ((t : Task) → P t → Q t → R t)
    → All P ts
    → All Q ts
    → All R ts
All-both [] f h k = tt
All-both (t ∷ ts) f h k = (f t h.0 k.0, All-both ts f h.1 k.1)

-- A child of `p` names `p`.
pub children-All :
    (p : String) (ts : List Task)
    → IsDistinct (task_ids ts)
    → All (λ t. mem_text t.id (children p ts) ≡ true → mem_text p t.depends_on ≡ true) ts
unfolding children task_ids
children-All p [] h = tt
children-All p (t ∷ ts) h = (
  (λ there. ground (arith, there, h.0, mem_text-children t.id p ts)),
  All-both ts
      (λ u known names there. ground (arith, there, h.0, known, names, text_eq_iff u.id t.id))
      (known_ids ts) (children-All p ts h.1),
)
