-- ===== src/Lab/Campaign/Runs.antt =====
-- What a campaign of tools/chaos_lab/runner.py reports.
use helix_grid.Prelude.{
  ℕ, zero, suc, ◌≤◌, ◌<◌, ◌≡◌, refl, sym, subst, Bool, true, false, not, ◌&&◌, List, [], ◌∷◌,
  length, keep, arith, Bool-cases, inl, inr,
}
use helix_grid.Prelude.Int.{ℤ, pos, negsuc}
use helix_grid.Prelude.Exec.{Result, ok, err}
use helix_grid.Prelude.Exec.Returns.{ok-same}
use helix_grid.Lab.Types.{GeneratedScenario}
use helix_grid.Lab.Runner.{Host, ReplayReport, report_ok, replay}
use helix_grid.Lab.Generator.Draws.{Random, GeneratorConfig}
use helix_grid.Lab.Generator.Tasks.{is_nil}
use helix_grid.Lab.Generator.Scenario.{GeneratorError, generated}
use helix_grid.Lab.Campaign.{
  CampaignReport, failures, campaign_ok, next_seed, added, scenario_then, run_seeds, report_on,
  run_campaign,
}

-- All reports but the last are without a failure.
abbrev pub Leading : List ReplayReport → Type 0
Leading [] = Unit
Leading (p ∷ []) = Unit
Leading (p ∷ q ∷ ps) = (report_ok p ≡ true) × Leading (q ∷ ps)

abbrev pub failing : List ReplayReport → List ReplayReport
failing ps = keep (λ p. not (report_ok p)) ps

Leading-cons :
    (p : ReplayReport) (ps : List ReplayReport) → report_ok p ≡ true → Leading ps → Leading (p ∷ ps)
Leading-cons p [] h later = tt
Leading-cons p (q ∷ ps) h later = (h, later)

module _ (r : Random) (config : GeneratorConfig) (host : Host) (steps : ℤ)
    (strict stop : Bool) where
  -- One report for each seed, that of the replay of the scenario that the seed gives
  abbrev pub ReportsOf : ℤ → List ReplayReport → Type 0
  ReportsOf seed [] = Unit
  ReportsOf seed (p ∷ ps) =
      (s : GeneratedScenario) × (generated r config host seed steps ≡ ok s)
      × (p ≡ replay host strict s)
      × ReportsOf (next_seed seed) ps

  pub record IsRun (count : ℕ) (seed : ℤ) (ps : List ReplayReport) : Type 0 where
    pub replayed : ReportsOf seed ps
    pub at_most : length ps ≤ count
    pub leading : stop ≡ true → Leading ps
    pub cut : length ps < count → (stop ≡ true) × (is_nil (failing ps) ≡ false)

  then_ok :
      {A : Type 0} (g : Result GeneratorError GeneratedScenario)
      (f : GeneratedScenario → Result GeneratorError A) (a : A)
      → scenario_then r config host steps g f ≡ ok a
      → (s : GeneratedScenario) × (g ≡ ok s) × (f s ≡ ok a)
  then_ok (ok s) f a h = (s, refl, h)
  then_ok (err e) f a h = absurd (ground (arith, h))

  added-ok :
      (p : ReplayReport) (rest : Result GeneratorError (List ReplayReport)) (ps : List ReplayReport)
      → added p rest ≡ ok ps
      → (qs : List ReplayReport) × (rest ≡ ok qs) × (p ∷ qs ≡ ps)
  added-ok p (ok qs) ps h = (qs, refl, ground (arith, h))
  added-ok p (err e) ps h = absurd (ground (arith, h))

  stopped-IsRun :
      (count : ℕ) (seed : ℤ) (p : ReplayReport)
      → (not (report_ok p) && stop) ≡ true
      → ReportsOf seed (p ∷ [])
      → IsRun (suc count) seed (p ∷ [])
  stopped-IsRun count seed p e replayed = record {
    replayed = replayed;
    at_most = omega arith;
    leading = λ stops. tt;
    cut = λ lt. ground (arith, e);
  }

  longer-IsRun :
      (count : ℕ) (seed : ℤ) (p : ReplayReport) (qs : List ReplayReport) (s : GeneratedScenario)
      → (not (report_ok p) && stop) ≡ false
      → generated r config host seed steps ≡ ok s
      → p ≡ replay host strict s
      → IsRun count (next_seed seed) qs
      → IsRun (suc count) seed (p ∷ qs)
  longer-IsRun count seed p qs s e made same h = record {
    replayed = (s, made, same, h.replayed);
    at_most = omega (arith, h.at_most);
    leading = λ stops. Leading-cons p qs (ground (arith, e, stops)) (h.leading stops);
    cut = λ lt. let (stops, failed) = h.cut (omega (arith, lt)) in (stops, ground (arith, failed));
  }

  run_seeds-IsRun :
      (count : ℕ) (seed : ℤ) (ps : List ReplayReport)
      → run_seeds r config host steps strict stop count seed ≡ ok ps
      → IsRun count seed ps
  unfolding run_seeds
  run_seeds-IsRun zero seed [] h = record {
    replayed = tt;
    at_most = omega arith;
    leading = λ stops. tt;
    cut = λ lt. absurd (omega (arith, lt));
  }
  run_seeds-IsRun zero seed (p ∷ ps) h = absurd (ground (arith, h))
  run_seeds-IsRun (suc count) seed ps h =
      let (s, made, went) = then_ok (generated r config host seed steps) _ ps h in
      let p = replay host strict s in
      elim (Bool-cases (not (report_ok p) && stop)) [
        | inl e ↦
            subst (IsRun (suc count) seed) (ok-same (p ∷ []) ps (rw e at went))
              (stopped-IsRun count seed p e (s, made, refl, tt))
        | inr e ↦
            let (qs, later, same) =
              added-ok p (run_seeds r config host steps strict stop count (next_seed seed)) ps
                (rw e at went) in
            subst (IsRun (suc count) seed) same (
              longer-IsRun count seed p qs s e made refl
                (run_seeds-IsRun count (next_seed seed) qs later))
      ]

  -- The report of a campaign of some seeds, the first of them and the seeds after it in their order
  pub record IsCampaign (seed count : ℤ) (c : CampaignReport) : Type 0 where
    pub asked : ℕ
    pub positive : count ≡ pos (suc asked)
    pub first : c.first_seed ≡ seed
    pub counted : c.count ≡ length c.reports
    pub run : IsRun (suc asked) seed c.reports
    pub complete : campaign_ok c ≡ true → c.count ≡ suc asked
    pub whole : stop ≡ false → c.count ≡ suc asked

  report_on-IsCampaign :
      (seed : ℤ) (asked : ℕ) (rest : Result GeneratorError (List ReplayReport)) (c : CampaignReport)
      → rest ≡ run_seeds r config host steps strict stop (suc asked) seed
      → report_on r config host steps strict stop seed rest ≡ ok c
      → IsCampaign seed (pos (suc asked)) c
  unfolding campaign_ok failures
  report_on-IsCampaign seed asked (err e) c same h = absurd (ground (arith, h))
  report_on-IsCampaign seed asked (ok ps) c same h =
      let run = run_seeds-IsRun (suc asked) seed ps (sym same) in
      subst (IsCampaign seed (pos (suc asked))) (ok-same _ c h) (record {
        asked = asked;
        positive = refl;
        first = refl;
        counted = refl;
        run = run;
        complete = λ passed. ground (arith, run.at_most, run.cut, passed);
        whole = λ goes_on. ground (arith, run.at_most, run.cut, goes_on);
      })

  -- A campaign that returns was asked for a positive number of scenarios. It reports on the first
  -- seed and those after it, in order and at most as many as asked, with the replay of the scenario
  -- of each; on all of them if there is no failure or it does not stop; and if it stops at a
  -- failure, only the last report has one.
  pub run_campaign-IsCampaign :
      (seed count : ℤ) (c : CampaignReport)
      → run_campaign r config host steps strict stop seed count ≡ ok c
      → IsCampaign seed count c
  unfolding run_campaign
  run_campaign-IsCampaign seed (pos zero) c h = absurd (ground (arith, h))
  run_campaign-IsCampaign seed (pos (suc asked)) c h =
      report_on-IsCampaign seed asked (run_seeds r config host steps strict stop (suc asked) seed) c
        refl h
  run_campaign-IsCampaign seed (negsuc n) c h = absurd (ground (arith, h))
