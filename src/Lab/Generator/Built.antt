-- ===== src/Lab/Generator/Built.antt =====
-- The tasks that `workflow` of tools/chaos_lab/generator.py makes: each depends on tasks before it.
use helix_grid.Prelude.{
  ℕ, ◌≤◌, ◌≡◌, refl, sym, ◌∙◌, String, text_eq_iff, text_le, mem_text, is_empty, true, false, List,
  [], ◌∷◌, ◌++◌, inl, inr, any, All, arith, Bool-cases,
}
use helix_grid.Prelude.Dict.{Dict}
use helix_grid.Prelude.Sorting.{sort}
use helix_grid.Prelude.Exec.{ok}
use helix_grid.Prelude.Exec.Yields.{Yields, Yields-pure, Yields-bind, Yields-after}
use helix_grid.Chaos.Types.{Task, RetryPolicy}
use helix_grid.Chaos.Policy.{normalized}
use helix_grid.Chaos.Admin.{post_init}
use helix_grid.Chaos.Dag.Members.{
  IsDistinct, sort-IsDistinct, mem_text-sort, mem_text-append, IsDistinct-append,
}
use helix_grid.Lab.Generator.Draws.{Random, IsRandom, GeneratorConfig}
use helix_grid.Lab.Generator.Tasks.{
  drafted, generate_task, generate_tasks, tie_last, has_dependencies, tied,
}
use helix_grid.Lab.Generator.Valid.{
  IsDict, dependency_count-Yields, sampled-Yields, task_labels-Yields, retry_policy-Yields,
  timeout-Yields,
}

-- A task of that id, with different dependencies among the known ids
pub record IsMade (known : List String) (id : String) (t : Task) : Type 0 where
  pub same_id : t.id ≡ id
  pub distinct : IsDistinct t.depends_on
  pub earlier : (x : String) → mem_text x t.depends_on ≡ true → mem_text x known ≡ true
  pub labelled : IsDict t.labels

abbrev pub Built : List String → List String → List Task → Type 0
Built known [] [] = Unit
Built known [] (t ∷ ts) = ⊥
Built known (id ∷ ids) [] = ⊥
Built known (id ∷ ids) (t ∷ ts) = IsMade known id t × Built (known ++ id ∷ []) ids ts

abbrev normal : Task → Task
normal t = record t { retry = normalized t.retry }

post_init-drafted :
    (id : String) (deps : List String) (labels : Dict String) (retry : RetryPolicy) (n : ℕ)
    → is_empty id ≡ false
    → post_init (drafted id deps labels retry n) ≡ ok (normal (drafted id deps labels retry n))
unfolding post_init
post_init-drafted id deps labels retry n h = rw h

later_new :
    (known : List String) (id : String) (ids : List String)
    → mem_text id ids ≡ false
    → All (λ x. mem_text x known ≡ false) ids
    → All (λ x. mem_text x (known ++ id ∷ []) ≡ false) ids
later_new known id [] alone new = tt
later_new known id (x ∷ ids) alone new = (
  ground (arith, mem_text-append x id known, text_eq_iff x id, text_eq_iff id x, alone, new.0),
  later_new known id ids (ground (arith, alone)) new.1,
)

module _ {r : Random} (law : IsRandom r) (config : GeneratorConfig)
    (some_dependency : 1 ≤ config.max_dependencies) where
  generate_task-Yields :
      (known : List String) (id : String)
      → is_empty id ≡ false
      → IsDistinct known
      → Yields (IsMade known id) (generate_task r config known id)
  unfolding generate_task
  generate_task-Yields known id given distinct =
      Yields-bind _ _ _ _ (dependency_count-Yields law config some_dependency known) (λ count room.
        Yields-bind _ _ _ _ (sampled-Yields law known count room distinct) (λ chosen fits.
          Yields-bind _ _ _ _ (task_labels-Yields r config) (λ labels is_dict.
            Yields-after _ _ _ (retry_policy-Yields law config) (λ retry.
              Yields-after _ _ _ (timeout-Yields law config) (λ n. record {
                at = λ g. (
                  normal (drafted id (sort text_le chosen) labels retry n),
                  post_init-drafted id (sort text_le chosen) labels retry n given,
                  record {
                    same_id = refl;
                    distinct = sort-IsDistinct chosen fits.0;
                    earlier = λ x there. fits.1 x (sym (mem_text-sort x chosen) ∙ there);
                    labelled = is_dict;
                  },
                );
              })))))

  pub generate_tasks-Yields :
      (known ids : List String)
      → All (λ id. is_empty id ≡ false) ids
      → All (λ id. mem_text id known ≡ false) ids
      → IsDistinct known
      → IsDistinct ids
      → Yields (Built known ids) (generate_tasks r config known ids)
  unfolding generate_tasks
  generate_tasks-Yields known [] given new old distinct = Yields-pure _ [] tt
  generate_tasks-Yields known (id ∷ ids) given new old distinct =
      Yields-bind _ _ _ _ (generate_task-Yields known id given.0 old) (λ t made.
        Yields-bind _ _ _ _
          (generate_tasks-Yields (known ++ id ∷ []) ids given.1
            (later_new known id ids distinct.0 new.1) (IsDistinct-append known id old new.0)
            distinct.1)
          (λ ts built. Yields-pure _ (t ∷ ts) (made, built)))

tie_last-Built :
    (first : String) (known ids : List String) (ts : List Task)
    → mem_text first known ≡ true
    → Built known ids ts
    → Built known ids (tie_last (first ∷ []) ts)
tie_last-Built first known [] [] there built = tt
tie_last-Built first known [] (t ∷ ts) there built = absurd built
tie_last-Built first known (id ∷ ids) [] there built = absurd built
tie_last-Built first known (id ∷ ids) (t ∷ []) there built = (
  record {
    same_id = built.0.same_id;
    distinct = (refl, tt);
    earlier = λ x named. ground (arith, named, text_eq_iff x first, there);
    labelled = built.0.labelled;
  },
  built.1,
)
tie_last-Built first known (id ∷ ids) (t ∷ u ∷ ts) there built = (
  built.0,
  tie_last-Built first (known ++ id ∷ []) ids (u ∷ ts)
      (ground (arith, mem_text-append first id known, there)) built.1,
)

tie_first-Built :
    (ids : List String) (t u : Task) (ts : List Task)
    → Built [] ids (t ∷ u ∷ ts)
    → Built [] ids (tie_last (t.id ∷ []) (t ∷ u ∷ ts))
tie_first-Built [] t u ts built = absurd built
tie_first-Built (id ∷ ids) t u ts built = (
  built.0,
  tie_last-Built t.id (id ∷ []) ids (u ∷ ts) (ground (arith, built.0.same_id, text_eq_iff t.id id))
      built.1,
)

pub tied-Built : (ids : List String) (ts : List Task) → Built [] ids ts → Built [] ids (tied ts)
unfolding tied
tied-Built ids [] built = built
tied-Built ids (t ∷ []) built = built
tied-Built ids (t ∷ u ∷ ts) built = elim (Bool-cases (any has_dependencies (t ∷ u ∷ ts))) [
  | inl some_edge ↦ rw some_edge built
  | inr no_edge ↦ rw no_edge (tie_first-Built ids t u ts built)
]
