-- ===== src/Lab/Generator/Valid.antt =====
-- Every workflow of tools/chaos_lab/generator.py is made: here, its tasks one by one.
use helix_grid.Prelude.{
  ℕ, ◌≤◌, ◌≡◌, refl, min, String, mem_text, text_eq_iff, le→leb, true, not, List, [], ◌∷◌, length,
  arith,
}
use helix_grid.Prelude.Dict.{Dict, keys}
use helix_grid.Prelude.Exec.Yields.{
  Yields, Yields-pure, Yields-weaken, Yields-if, Yields-bind, Yields-after,
}
use helix_grid.Chaos.Dag.Members.{IsDistinct}
use helix_grid.Lab.Generator.Draws.{
  Random, IsRandom, GeneratorConfig, chance, between, choice, sampled,
}
use helix_grid.Lab.Generator.Tasks.{
  first_label, other_labels, second_label, dependency_count, labels_from, task_labels, retry_policy,
  timeout,
}

abbrev pub IsAny : {A : Type 0} → A → Type 0
IsAny a = Unit

-- No key stands twice.
abbrev pub IsDict : Dict String → Type 0
IsDict d = IsDistinct (keys d)

module _ (r : Random) where
  pub chance-Yields : (p : ℕ) → Yields IsAny (chance r p)
  unfolding chance
  chance-Yields p = record { at = λ g. (_, refl, tt) }

  pub choice-Yields : {A : Type 0} (x : A) (xs : List A) → Yields IsAny (choice r x xs)
  unfolding choice
  choice-Yields x xs = record { at = λ g. (_, refl, tt) }

module _ {r : Random} (law : IsRandom r) where
  pub between-Yields : (lo hi : ℕ) → lo ≤ hi → Yields (λ n. (lo ≤ n) × (n ≤ hi)) (between r lo hi)
  unfolding between
  between-Yields lo hi h = record {
    at = λ g. rw (le→leb lo hi h) (_, refl, law.randint_bounds lo hi g h);
  }

  pub sampled-Yields :
      (xs : List String) (k : ℕ)
      → k ≤ length xs
      → IsDistinct xs
      → Yields
          (λ ys. IsDistinct ys × ((x : String) → mem_text x ys ≡ true → mem_text x xs ≡ true))
          (sampled r xs k)
  unfolding sampled
  sampled-Yields xs k h distinct = record {
    at = λ g.
        rw (le→leb k (length xs) h)
          (_, refl, (law.sample_distinct xs k g distinct, law.sample_member xs k g));
  }

module _ {r : Random} (law : IsRandom r) (config : GeneratorConfig)
    (some_dependency : 1 ≤ config.max_dependencies) where
  pub dependency_count-Yields :
      (known : List String) → Yields (λ n. n ≤ length known) (dependency_count r config known)
  unfolding dependency_count
  dependency_count-Yields [] = Yields-pure _ 0 (omega arith)
  dependency_count-Yields (id ∷ ids) = Yields-after _ _ _ (chance-Yields r _) (λ favoured.
      Yields-if _ favoured _ _
        (λ e.
          Yields-weaken _ _ _
            (between-Yields law 1 (min config.max_dependencies (length (id ∷ ids))) (grind arith))
            (λ n bounds. grind arith))
        (λ e. Yields-pure _ 0 (omega arith)))

second_label-IsDict :
    (key value : String) (other : String × String) → IsDict (second_label key value other)
second_label-IsDict key value (other_key, other_value) =
    ground (arith, text_eq_iff key other_key, text_eq_iff other_key key)

module _ (r : Random) (config : GeneratorConfig) where
  labels_from-Yields : (label : String × String) → Yields IsDict (labels_from r config label)
  unfolding labels_from
  labels_from-Yields (key, value) = Yields-after _ _ _ (chance-Yields r _) (λ twice.
      Yields-if _ twice _ _
        (λ e.
          Yields-after _ _ _ (choice-Yields r first_label other_labels)
            (λ other. Yields-pure _ _ (second_label-IsDict key value other)))
        (λ e. Yields-pure _ _ (refl, tt)))

  pub task_labels-Yields : Yields IsDict (task_labels r config)
  unfolding task_labels
  task_labels-Yields = Yields-after _ _ _ (chance-Yields r _) (λ labelled.
      Yields-if _ (not labelled) _ _ (λ e. Yields-pure _ [] tt)
        (λ e.
          Yields-after _ _ _ (choice-Yields r first_label other_labels)
            (λ label. labels_from-Yields label)))

module _ {r : Random} (law : IsRandom r) (config : GeneratorConfig) where
  pub retry_policy-Yields : Yields IsAny (retry_policy r config)
  unfolding retry_policy
  retry_policy-Yields = Yields-after _ _ _ (chance-Yields r _) (λ retried.
      Yields-if _ (not retried) _ _ (λ e. Yields-pure _ _ tt)
        (λ e. Yields-bind _ _ _ _ (between-Yields law 2 5 (omega arith)) (λ attempts bounds.
          Yields-after _ _ _ (choice-Yields r 50 _)
            (λ base. Yields-after _ _ _ (choice-Yields r 500 _) (λ limit. Yields-pure _ _ tt)))))

  pub timeout-Yields : Yields IsAny (timeout r config)
  unfolding timeout
  timeout-Yields = Yields-after _ _ _ (chance-Yields r _) (λ timed.
      Yields-if _ (not timed) _ _ (λ e. Yields-pure _ _ tt)
        (λ e.
          Yields-bind _ _ _ _ (between-Yields law 1 120 (omega arith))
            (λ seconds bounds. Yields-pure _ _ tt)))
