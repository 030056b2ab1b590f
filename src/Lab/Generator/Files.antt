-- ===== src/Lab/Generator/Files.antt =====
-- Scenarios of tools/chaos_lab/generator.py, saved and loaded by tools/chaos_lab/runner.py.
use helix_grid.Prelude.{
  text_le, ◌≤◌, min, false, ℕ, ◌≡◌, refl, sym, subst, ap, String, is_empty, List, [], ◌∷◌, ◌++◌,
  inl, inr, Bool-cases, All, All-map, any, arith,
}
use helix_grid.Prelude.Int.{ℤ, pos, negsuc, is_negative, max_ℕ}
use helix_grid.Prelude.Sorting.{sort}
use helix_grid.Prelude.Exec.{ok}
use helix_grid.Prelude.Exec.Returns.{ok-same, Returns, Returns-pure, Returns-bind, Returns-after}
use helix_grid.Chaos.Types.{Task, RetryPolicy}
use helix_grid.Chaos.Policy.{normalized}
use helix_grid.Chaos.Admin.{post_init}
use helix_grid.Lab.Types.{GeneratedScenario, new_task}
use helix_grid.Lab.Runner.{Host}
use helix_grid.Lab.Files.{Conversions, loaded, scenario_to_dict}
use helix_grid.Lab.Files.RoundTrip.{IsNew, loaded-scenario_to_dict}
use helix_grid.Lab.Generator.Draws.{Random, GeneratorConfig}
use helix_grid.Lab.Generator.Tasks.{
  depend_on, task_ids_from, tie_last, tied, has_dependencies, generate_task, generate_tasks,
  workflow,
}
use helix_grid.Lab.Generator.Scenario.{generated}
use helix_grid.Lab.Generator.Replays.{make_scenario-Made}

max_ℕ-reaches : (lo : ℕ) (z : ℤ) → lo ≤ max_ℕ lo z
max_ℕ-reaches lo (pos n) = ground arith
max_ℕ-reaches lo (negsuc n) = omega arith

max_ℕ-fixed : (lo n : ℕ) → lo ≤ n → max_ℕ lo (pos n) ≡ n
max_ℕ-fixed lo n h = ground (arith, h)

min_twice : (n : ℕ) → min 100 (min 100 n) ≡ min 100 n
min_twice n = omega arith

normalized-normalized : (p : RetryPolicy) → normalized (normalized p) ≡ normalized p
unfolding normalized
normalized-normalized p =
    rw
      (
        max_ℕ-fixed 1 (min 100 (max_ℕ 1 p.max_attempts))
            (grind (arith, max_ℕ-reaches 1 p.max_attempts)),
        max_ℕ-fixed 1 (max_ℕ 1 p.base_delay_ms) (max_ℕ-reaches 1 p.base_delay_ms),
        max_ℕ-fixed (max_ℕ 1 p.base_delay_ms) _
            (max_ℕ-reaches (max_ℕ 1 p.base_delay_ms) p.max_delay_ms),
        min_twice (max_ℕ 1 p.max_attempts),
      )
      refl

IsNew-normal :
    (t : Task)
    → is_empty t.id ≡ false
    → is_negative t.timeout_ms ≡ false
    → IsNew (new_task t.id t.depends_on t.labels (normalized t.retry) t.timeout_ms)
unfolding post_init
IsNew-normal t e n = rw (e, n, normalized-normalized t.retry) refl

-- What the constructor gives
abbrev IsPlain : Task → Type 0
IsPlain t = IsNew t × (is_empty t.id ≡ false) × (is_negative t.timeout_ms ≡ false)

post_init-IsPlain :
    (t u : Task)
    → post_init (new_task t.id t.depends_on t.labels t.retry t.timeout_ms) ≡ ok u
    → IsPlain u
unfolding post_init
post_init-IsPlain t u h = elim (Bool-cases (is_empty t.id)) [
  | inl e ↦ absurd (ground (arith, rw e at h))
  | inr e ↦ elim (Bool-cases (is_negative t.timeout_ms)) [
    | inl n ↦ absurd (ground (arith, rw (e, n) at h))
    | inr n ↦ subst IsPlain (ok-same _ u (rw (e, n) at h)) (IsNew-normal t e n, e, n)
  ]
]

-- The dependencies of a task may change.
depend_on-IsPlain : (ids : List String) (t : Task) → IsPlain t → IsPlain (depend_on ids t)
unfolding post_init
depend_on-IsPlain ids t (new, e, n) =
    (rw (e, n) (ap (λ v. ok (depend_on ids v)) (ok-same _ t (rw (e, n) at new))), e, n)

tie_last-IsPlain :
    (ids : List String) (ts : List Task) → All IsPlain ts → All IsPlain (tie_last ids ts)
tie_last-IsPlain ids [] h = tt
tie_last-IsPlain ids (t ∷ []) h = (depend_on-IsPlain ids t h.0, tt)
tie_last-IsPlain ids (t ∷ u ∷ ts) h = (h.0, tie_last-IsPlain ids (u ∷ ts) h.1)

tied-IsPlain : (ts : List Task) → All IsPlain ts → All IsPlain (tied ts)
unfolding tied
tied-IsPlain [] h = tt
tied-IsPlain (t ∷ []) h = h
tied-IsPlain (t ∷ u ∷ ts) h = elim (Bool-cases (any has_dependencies (t ∷ u ∷ ts))) [
  | inl e ↦ rw e h
  | inr e ↦ rw e (tie_last-IsPlain (t.id ∷ []) (t ∷ u ∷ ts) h)
]

module _ (r : Random) (config : GeneratorConfig) where
  generate_task-Returns :
      (known : List String) (id : String) → Returns IsPlain (generate_task r config known id)
  unfolding generate_task
  generate_task-Returns known id = Returns-after _ _ _ (λ count. Returns-after _ _ _ (λ chosen.
      Returns-after _ _ _ (λ labels. Returns-after _ _ _ (λ retry. Returns-after _ _ _ (λ timeout.
        record {
          holds = λ g t e.
              post_init-IsPlain (new_task id (sort text_le chosen) labels retry (pos timeout)) t e;
        })))))

  generate_tasks-Returns :
      (known ids : List String) → Returns (All IsPlain) (generate_tasks r config known ids)
  unfolding generate_tasks
  generate_tasks-Returns known [] = Returns-pure _ [] tt
  generate_tasks-Returns known (id ∷ ids) =
      Returns-bind _ _ _ _ (generate_task-Returns known id) (λ t plain.
        Returns-bind _ _ _ _ (generate_tasks-Returns (known ++ id ∷ []) ids)
          (λ ts all_plain. Returns-pure _ _ (plain, all_plain)))

  workflow-Returns :
      (seed : ℤ) (name : String) → Returns (λ w. All IsPlain w.tasks) (workflow r config seed name)
  unfolding workflow
  workflow-Returns seed name = Returns-after _ _ _ (λ count.
      Returns-bind _ _ _ _ (generate_tasks-Returns [] (task_ids_from 0 count))
        (λ ts plain. Returns-pure _ _ (tied-IsPlain ts plain)))

-- A generated scenario, written as a JSON object and read again, is itself.
pub generated-loaded :
    (r : Random) (config : GeneratorConfig) (host : Host) (conv : Conversions) (seed steps : ℤ)
    (s : GeneratedScenario)
    → generated r config host seed steps ≡ ok s
    → loaded conv (scenario_to_dict s) tt ≡ (ok s, tt)
unfolding generated
generated-loaded r config host conv seed steps s h =
    let m = make_scenario-Made r config host seed steps (r.seeded seed) s h in
    loaded-scenario_to_dict conv s (
      subst (λ u. All IsNew u.workflow.tasks) (sym m.made)
        (All-map m.w.tasks (λ t plain. plain.0)
          ((workflow-Returns r config seed "").holds m.first m.w m.drawn)))
