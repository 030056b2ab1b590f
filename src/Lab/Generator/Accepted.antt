-- ===== src/Lab/Generator/Accepted.antt =====
-- The workflows of tools/chaos_lab/generator.py pass `validate_dag`.
use helix_grid.Prelude.{
  ◌≡◌, ◌≢◌, refl, sym, subst, ap, ◌∙◌, String, text_eq, text_eq_iff, mem_text, true, false, List,
  [], ◌∷◌, ◌++◌, none, inl, inr, All, All-map, All-append, arith, Bool-cases,
}
use helix_grid.Prelude.Exec.{ok}
use mathlib.Core.List.{append_assoc}
use helix_grid.Chaos.Types.{Task}
use helix_grid.Chaos.Dag.{
  task_ids, duplicate_error, dependency_error, dependencies_error, kahn_order, validate_dag,
}
use helix_grid.Chaos.Dag.Members.{IsDistinct, mem_text-append, known_ids}
use helix_grid.Chaos.Dag.Order.{IsInOrder}
use helix_grid.Chaos.Dag.Complete.{validate_dag-ok}
use helix_grid.Lab.Generator.Built.{Built}

Built-ids : (known ids : List String) (ts : List Task) → Built known ids ts → task_ids ts ≡ ids
unfolding task_ids
Built-ids known [] [] built = refl
Built-ids known [] (t ∷ ts) built = absurd built
Built-ids known (id ∷ ids) [] built = absurd built
Built-ids known (id ∷ ids) (t ∷ ts) built =
    ap (λ x. x ∷ task_ids ts) built.0.same_id
    ∙ ap (λ xs. id ∷ xs) (Built-ids (known ++ id ∷ []) ids ts built.1)

-- What every member of a list satisfies
members-All :
    (P : String → Type 0) (xs : List String)
    → ((x : String) → mem_text x xs ≡ true → P x)
    → All P xs
members-All P [] h = tt
members-All P (x ∷ xs) h = (
  h x (ground (arith, text_eq_iff x x)),
  members-All P xs (λ y there. h y (ground (arith, there))),
)

apart : (x : String) (ys : List String) → mem_text x ys ≡ false → All (λ y. text_eq y x ≡ false) ys
apart x [] h = tt
apart x (y ∷ ys) h =
    (ground (arith, h, text_eq_iff x y, text_eq_iff y x), apart x ys (ground (arith, h)))

both-All :
    {P Q R : String → Type 0} (xs : List String)
    → ((x : String) → P x → Q x → R x)
    → All P xs
    → All Q xs
    → All R xs
both-All [] f h k = tt
both-All (x ∷ xs) f h k = (f x h.0 k.0, both-All xs f h.1 k.1)

duplicate_error-none :
    (known : List String) (ts : List Task)
    → IsDistinct (task_ids ts)
    → All (λ id. mem_text id known ≡ false) (task_ids ts)
    → duplicate_error known ts ≡ none
unfolding duplicate_error task_ids
duplicate_error-none known [] distinct new = refl
duplicate_error-none known (t ∷ ts) distinct new = rw new.0 (
    duplicate_error-none (t.id ∷ known) ts distinct.1 (
      both-All (task_ids ts) (λ x other fresh. ground (arith, other, fresh))
        (apart t.id (task_ids ts) distinct.0) new.1))

dependency_error-none :
    (id : String) (ids seen ds : List String)
    → IsDistinct ds
    → All (λ d. mem_text d seen ≡ false) ds
    → mem_text id ds ≡ false
    → All (λ d. mem_text d ids ≡ true) ds
    → dependency_error id ids seen ds ≡ none
unfolding dependency_error
dependency_error-none id ids seen [] distinct new foreign inside = refl
dependency_error-none id ids seen (d ∷ ds) distinct new foreign inside =
    let later =
      dependency_error-none id ids (d ∷ seen) ds distinct.1
        (both-All ds (λ x other fresh. ground (arith, other, fresh)) (apart d ds distinct.0) new.1)
        (ground (arith, foreign)) inside.1 in
    let other : text_eq d id ≡ false =
      ground (arith, foreign, text_eq_iff d id, text_eq_iff id d) in
    rw (other, new.0, inside.0) later

dependencies_error-none :
    (all known ids : List String) (ts : List Task)
    → Built known ids ts
    → ((x : String) → mem_text x known ≡ true → mem_text x all ≡ true)
    → All (λ id. mem_text id all ≡ true) ids
    → All (λ id. mem_text id known ≡ false) ids
    → IsDistinct ids
    → dependencies_error all ts ≡ none
unfolding dependencies_error
dependencies_error-none all known [] [] built old inside new distinct = refl
dependencies_error-none all known [] (t ∷ ts) built old inside new distinct = absurd built
dependencies_error-none all known (id ∷ ids) [] built old inside new distinct = absurd built
dependencies_error-none all known (id ∷ ids) (t ∷ ts) built old inside new distinct =
    let made = built.0 in
    let foreign : mem_text t.id t.depends_on ≡ false =
      elim (Bool-cases (mem_text t.id t.depends_on)) [
        | inl there ↦ absurd (ground (arith, made.earlier t.id there, made.same_id, new.0))
        | inr away ↦ away
      ] in
    let here =
      dependency_error-none t.id all [] t.depends_on made.distinct
        (members-All _ t.depends_on (λ x there. refl)) foreign
        (members-All _ t.depends_on (λ x there. old x (made.earlier x there))) in
    rw here (
      dependencies_error-none all (known ++ id ∷ []) ids ts built.1
        (λ x there.
          ground (arith, there, mem_text-append x id known, text_eq_iff x id, old x, inside.0))
        inside.1
        (both-All ids (λ x other fresh. ground (arith, other, fresh, mem_text-append x id known))
          (apart id ids distinct.0) new.1)
        distinct.1)

Built-IsInOrder :
    (before ts : List Task) (done known ids : List String)
    → Built known ids ts
    → ((x : String) → mem_text x done ≡ mem_text x known)
    → All (λ t. mem_text t.id known ≡ true) before
    → All (λ id. mem_text id (task_ids (before ++ ts)) ≡ true) ids
    → All (λ id. mem_text id known ≡ false) ids
    → IsDistinct ids
    → IsInOrder (before ++ ts) done ids
Built-IsInOrder before [] done known [] built same old inside new distinct = tt
Built-IsInOrder before (t ∷ ts) done known [] built same old inside new distinct = tt
Built-IsInOrder before [] done known (id ∷ ids) built same old inside new distinct = absurd built
Built-IsInOrder before (t ∷ ts) done known (id ∷ ids) built same old inside new distinct =
    let made = built.0 in
    let all = (before ++ t ∷ []) ++ ts in
    let split : all ≡ before ++ t ∷ ts = append_assoc before (t ∷ []) ts in
    let later_ids : All (λ u. mem_text u.id ids ≡ true) ts =
      subst (λ xs. All (λ u. mem_text u.id xs ≡ true) ts)
        (Built-ids (known ++ id ∷ []) ids ts built.1) (known_ids ts) in
    let rest =
      Built-IsInOrder (before ++ t ∷ []) ts (id ∷ done) (known ++ id ∷ []) ids built.1
        (λ x. ground (arith, same x, mem_text-append x id known))
        (All-append (λ u. mem_text u.id (known ++ id ∷ []) ≡ true) before (t ∷ [])
          (All-map before (λ u there. ground (arith, there, mem_text-append u.id id known)) old)
          (ground (arith, made.same_id, mem_text-append t.id id known, text_eq_iff t.id id), tt))
        (subst (λ us. All (λ x. mem_text x (task_ids us) ≡ true) ids) (sym split) inside.1)
        (both-All ids (λ x other fresh. ground (arith, other, fresh, mem_text-append x id known))
          (apart id ids distinct.0) new.1)
        distinct.1 in
    (
      same id ∙ new.0,
      inside.0,
      All-append (λ u. u.id ≡ id → All (λ d. mem_text d done ≡ true) u.depends_on) before (t ∷ ts)
          (All-map before (λ u there e. absurd (ground (arith, there, e, new.0))) old)
          (
            (λ e. members-All _ t.depends_on (λ x there. same x ∙ made.earlier x there)),
            All-map ts (λ u there e. absurd (ground (arith, there, e, distinct.0))) later_ids,
          ),
      subst (λ us. IsInOrder us (id ∷ done) ids) split rest,
    )

-- What the generator builds is accepted.
pub Built-ok :
    (ids : List String) (ts : List Task)
    → Built [] ids ts
    → IsDistinct ids
    → ts ≢ []
    → validate_dag ts ≡ ok (kahn_order ts)
Built-ok ids ts built distinct some_task =
    let e = Built-ids [] ids ts built in
    let inside : All (λ id. mem_text id (task_ids ts) ≡ true) ids =
      subst (λ xs. All (λ id. mem_text id xs ≡ true) ids) (sym e)
        (members-All _ ids (λ x there. there)) in
    let none_old : All (λ id. mem_text id [] ≡ false) ids = members-All _ ids (λ x there. refl) in
    validate_dag-ok ts ids some_task
      (duplicate_error-none [] ts (subst IsDistinct (sym e) distinct)
        (members-All _ (task_ids ts) (λ x there. refl)))
      (dependencies_error-none (task_ids ts) [] ids ts built
        (λ x there. absurd (ground (arith, there))) inside none_old distinct)
      (
        Built-IsInOrder [] ts [] [] ids built (λ x. refl) tt inside none_old distinct,
        λ id. ap (mem_text id) e,
      )
