-- ===== src/Lab/Shrinker/Finds.antt =====
-- `shrink` of tools/chaos_lab/shrinker.py loses no failure, for a predicate that does not raise.
use helix_grid.Prelude.{
  ◌≡◌, ◌≢◌, ◌⊎◌, inl, inr, refl, sym, ap, ◌∙◌, Bool, true, false, List, [], Option, none, some,
  arith,
}
use helix_grid.Prelude.Int.{ℤ, max_ℕ}
use helix_grid.Prelude.Exec.{Result, ok, err}
use helix_grid.Lab.Types.{GeneratedScenario}
use helix_grid.Lab.Runner.{Host, ReplayReport, replay}
use helix_grid.Lab.Shrinker.Ddmin.{ShrinkPass}
use helix_grid.Lab.Shrinker.Search.{
  ShrinkResult, ShrinkError, not_failing, FailurePredicate, fails, fails_by, finished,
  shrink_rounds, shrink,
}
use helix_grid.Lab.Shrinker.Keeps.{shrink_rounds-Fails}

fails_by-some : (o : Option Bool) → o ≢ none → fails_by o ≡ true → o ≡ some true
fails_by-some none given h = absurd (given refl)
fails_by-some (some b) given h = ground arith

module _ (host : Host) (strict : Bool) (predicate : FailurePredicate) where
  -- A result for the scenario `s` whose report, the replay of the minimized scenario, fails
  pub record Found (s : GeneratedScenario) (outcome : Result ShrinkError ShrinkResult)
      : Type 0 where
    pub result : ShrinkResult
    pub returned : outcome ≡ ok result
    pub original : result.original ≡ s
    pub replayed : result.report ≡ replay host strict result.minimized
    pub fails_still : predicate result.report ≡ some true

  finished-Found :
      (s : GeneratedScenario) (found : GeneratedScenario × List ShrinkPass) (o : Option Bool)
      → predicate (replay host strict found.0) ≡ o
      → o ≡ some true
      → Found s (finished host strict predicate s found o)
  finished-Found s (current, passes) none same h = absurd (ground arith)
  finished-Found s (current, passes) (some false) same h = absurd (ground arith)
  finished-Found s (current, passes) (some true) same h = record {
    result = record {
      original = s;
      minimized = current;
      report = replay host strict current;
      passes = passes;
    };
    returned = refl;
    original = refl;
    replayed = refl;
    fails_still = same;
  }

  fails_eq :
      (s : GeneratedScenario)
      → fails host strict predicate s ≡ fails_by (predicate (replay host strict s))
  unfolding fails
  fails_eq s = refl

module _ (host : Host) (strict : Bool) (predicate : FailurePredicate)
    (total : (r : ReplayReport) → predicate r ≢ none) where
  failing-Found :
      (max_rounds : ℤ) (s : GeneratedScenario)
      → predicate (replay host strict s) ≡ some true
      → Found host strict predicate s (shrink host strict predicate max_rounds s)
  unfolding shrink
  failing-Found max_rounds s h =
      let test = fails host strict predicate in
      let found = shrink_rounds test (max_ℕ 1 max_rounds) s [] in
      let still =
        shrink_rounds-Fails test (max_ℕ 1 max_rounds) s []
          (fails_eq host strict predicate s ∙ ap fails_by h) in
      rw h (
        finished-Found host strict predicate s found (predicate (replay host strict found.0)) refl
          (fails_by-some _ (total _) (sym (fails_eq host strict predicate found.0) ∙ still)))

  passing-refused :
      (max_rounds : ℤ) (s : GeneratedScenario)
      → predicate (replay host strict s) ≡ some false
      → shrink host strict predicate max_rounds s ≡ err not_failing
  unfolding shrink
  passing-refused max_rounds s h = rw h

  -- With a predicate that never raises, `shrink` either finds a scenario whose report, that of its
  -- replay, still satisfies the predicate, or refuses a scenario that does not satisfy it to begin
  -- with. It never loses the failure.
  pub shrink-Found :
      (max_rounds : ℤ) (s : GeneratedScenario)
      → (predicate (replay host strict s) ≡ some true)
          × Found host strict predicate s (shrink host strict predicate max_rounds s)
        ⊎ (predicate (replay host strict s) ≡ some false)
          × (shrink host strict predicate max_rounds s ≡ err not_failing)
  shrink-Found max_rounds s = by (predicate (replay host strict s)) refl
    where
      by :
          (o : Option Bool)
          → predicate (replay host strict s) ≡ o
          → (predicate (replay host strict s) ≡ some true)
              × Found host strict predicate s (shrink host strict predicate max_rounds s)
            ⊎ (predicate (replay host strict s) ≡ some false)
              × (shrink host strict predicate max_rounds s ≡ err not_failing)
      by none e = absurd (total _ e)
      by (some true) e = inl (e, failing-Found max_rounds s e)
      by (some false) e = inr (e, passing-refused max_rounds s e)
