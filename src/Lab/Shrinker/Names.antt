-- ===== src/Lab/Shrinker/Names.antt =====
-- The names that the actions of a scenario mention, and the passes of tools/chaos_lab/shrinker.py
-- over the actions: leaving out actions mentions nothing new, simplifying them changes no name.
use helix_grid.Prelude.{
  ℕ, suc, ◌≡◌, refl, sym, ap, ◌∙◌, String, text_eq, Bool, true, false, ◌||◌, List, [], ◌∷◌, ◌++◌,
  map, inl, inr, length, any, All, All-append, arith, Bool-cases,
}
use mathlib.Core.List.{Sublistᴰ, append_assoc, append-nil}
use helix_grid.Chaos.Types.{Action}
use helix_grid.Lab.Types.{same_action}
use helix_grid.Lab.Shrinker.Actions.{
  above, only_if, smaller_steps, amount_variants, text_variants, time_variants, log_variants,
  failure_variants, action_variants, try_variants, simplify_from, simplify,
}
use helix_grid.Lab.Shrinker.Removal.{reference_worker, reference_task}

abbrev pub names : Action → String × String
names a = (a.worker_id, a.task_id)

pub Sublistᴰ-any {ℓ} :
    {A : Type ℓ} (p : A → Bool) {xs ys : List A}
    → Sublistᴰ xs ys
    → any p xs ≡ true
    → any p ys ≡ true
Sublistᴰ-any p Sublistᴰ.slnil h = h
Sublistᴰ-any p (Sublistᴰ.cons {a} part) h = ground (arith, Sublistᴰ-any p part h)
Sublistᴰ-any p (Sublistᴰ.cons-cons {a} {b} e part) h = ground (arith, Sublistᴰ-any p part)

any-map {ℓ κ} :
    {A : Type ℓ} {B : Type κ} (f : A → B) (p : B → Bool) (xs : List A)
    → any p (map f xs) ≡ any (λ x. p (f x)) xs
any-map f p [] = refl
any-map f p (x ∷ xs) = ap (λ b. p (f x) || b) (any-map f p xs)

-- The actions of both lists have the same names, in the same places.
abbrev pub SameNames : List Action → List Action → Type 0
SameNames xs ys = map names xs ≡ map names ys

pub SameNames-worker :
    (xs ys : List Action) (id : String)
    → SameNames xs ys
    → reference_worker xs id ≡ reference_worker ys id
SameNames-worker xs ys id h =
    sym (any-map names (λ n. text_eq n.0 id) xs)
    ∙ ap (any (λ (n : String × String). text_eq n.0 id)) h
    ∙ any-map names (λ n. text_eq n.0 id) ys

pub SameNames-task :
    (xs ys : List Action) (id : String)
    → SameNames xs ys
    → reference_task xs id ≡ reference_task ys id
SameNames-task xs ys id h =
    sym (any-map names (λ n. text_eq n.1 id) xs)
    ∙ ap (any (λ (n : String × String). text_eq n.1 id)) h
    ∙ any-map names (λ n. text_eq n.1 id) ys

length-map {ℓ κ} :
    {A : Type ℓ} {B : Type κ} (f : A → B) (xs : List A) → length (map f xs) ≡ length xs
length-map f [] = refl
length-map f (x ∷ xs) = ap suc (length-map f xs)

pub SameNames-length : (xs ys : List Action) → SameNames xs ys → length xs ≡ length ys
SameNames-length xs ys h = sym (length-map names xs) ∙ ap length h ∙ length-map names ys

-- A variant of the action `a` has its names.
abbrev Variant : Action → Action → Type 0
Variant a b = names b ≡ names a

only_if-All :
    (a : Action) (b : Bool) (xs : List Action) → All (Variant a) xs → All (Variant a) (only_if b xs)
only_if-All a true xs h = h
only_if-All a false xs h = tt

smaller_steps-All : (a : Action) (ns : List ℕ) → All (Variant a) (smaller_steps a ns)
unfolding smaller_steps
smaller_steps-All a [] = tt
smaller_steps-All a (n ∷ ns) =
    All-append (Variant a) _ _ (only_if-All a (above n a.amount) _ (refl, tt))
      (smaller_steps-All a ns)

text_variants-All : (a : Action) → All (Variant a) (text_variants a)
text_variants-All a =
    only_if-All a _ (_ ∷ only_if _ (_ ∷ [])) (refl, only_if-All a _ (_ ∷ []) (refl, tt))

action_variants-All : (a : Action) → All (Variant a) (action_variants a)
unfolding action_variants
action_variants-All a =
    All-append (Variant a) (amount_variants a) _ (only_if-All a _ (_ ∷ []) (refl, tt)) (
      All-append (Variant a) (text_variants a) _ (text_variants-All a) (
        All-append (Variant a) (time_variants a) _ (only_if-All a _ _ (smaller_steps-All a _)) (
          All-append (Variant a) (log_variants a) (failure_variants a)
            (only_if-All a _ (_ ∷ []) (refl, tt)) (only_if-All a _ (_ ∷ []) (refl, tt)))))

middle-SameNames :
    (before rest : List Action) (a b : Action)
    → Variant a b
    → SameNames (before ++ b ∷ rest) (before ++ a ∷ rest)
middle-SameNames [] rest a b h = ap (λ n. n ∷ map names rest) h
middle-SameNames (c ∷ before) rest a b h =
    ap (λ ns. names c ∷ ns) (middle-SameNames before rest a b h)

module _ (test : List Action → Bool) where
  try_variants-names :
      (before rest : List Action) (a b : Action) (variants : List Action)
      → All (Variant b) variants
      → Variant b a
      → Variant b (try_variants test before rest a variants).1
  unfolding try_variants
  try_variants-names before rest a b [] h e = e
  try_variants-names before rest a b (c ∷ variants) h e = elim (Bool-cases (same_action c a)) [
    | inl same ↦ rw same (try_variants-names before rest a b variants h.1 e)
    | inr other ↦ elim (Bool-cases (test (before ++ c ∷ rest))) [
      | inl good ↦ rw (other, good) (try_variants-names before rest c b variants h.1 h.0)
      | inr bad ↦ rw (other, bad) (try_variants-names before rest a b variants h.1 e)
    ]
  ]

  simplify_from-SameNames :
      (before rest : List Action) → SameNames (simplify_from test before rest).1 (before ++ rest)
  unfolding simplify_from
  simplify_from-SameNames before [] = ap (map names) (sym (append-nil before))
  simplify_from-SameNames before (a ∷ rest) =
      let b = (try_variants test before rest a (action_variants a)).1 in
      simplify_from-SameNames (before ++ b ∷ []) rest
      ∙ ap (map names) (append_assoc before (b ∷ []) rest)
      ∙ middle-SameNames before rest a b
          (try_variants-names before rest a a (action_variants a) (action_variants-All a) refl)

  pub simplify-SameNames : (xs : List Action) → SameNames (simplify test xs).1 xs
  unfolding simplify
  simplify-SameNames xs = simplify_from-SameNames [] xs
