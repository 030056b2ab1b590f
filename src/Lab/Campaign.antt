-- ===== src/Lab/Campaign.antt =====
-- `run_campaign` of tools/chaos_lab/runner.py and `generate_many` of tools/chaos_lab/generator.py:
-- scenarios of many seeds. The time that a campaign takes is left out of its report.
pub mod Runs
pub mod Examples
use helix_grid.Prelude.{
  ℕ, zero, suc, ◌+◌, ◌≤◌, ◌≡◌, refl, sym, subst, ap, ◌∙◌, Bool, true, false, not, ◌&&◌, List, [],
  ◌∷◌, if◌then◌else◌, length, keep, arith, Bool-cases, inl, inr,
}
use helix_grid.Prelude.Int.{ℤ, pos, negsuc}
use helix_grid.Prelude.Exec.{Result, ok, err}
use helix_grid.Prelude.Json.{Json, boolean, number, array, object, end, entry, items}
use helix_grid.Chaos.Types.{value_error}
use helix_grid.Chaos.Snapshot.{natural}
use helix_grid.Lab.Types.{GeneratedScenario}
use helix_grid.Lab.Runner.{Host, ReplayReport, report_ok, accepted, rejected, replay}
use helix_grid.Lab.Reports.{report_json}
use helix_grid.Lab.Generator.Draws.{Random, GeneratorConfig}
use helix_grid.Lab.Generator.Tasks.{is_nil}
use helix_grid.Lab.Generator.Scenario.{GeneratorError, raised, generated}

pub record CampaignReport : Type 0 where
  pub first_seed : ℤ
  pub count : ℕ
  pub reports : List ReplayReport

-- `CampaignReport.failures` and `ok`
unfoldable pub failures : CampaignReport → List ReplayReport
failures c = keep (λ r. not (report_ok r)) c.reports

unfoldable pub campaign_ok : CampaignReport → Bool
campaign_ok c = is_nil (failures c)

abbrev total : (ReplayReport → ℕ) → List ReplayReport → ℕ
total f [] = 0
total f (r ∷ rs) = f r + total f rs

-- `CampaignReport.as_dict`
unfoldable pub campaign_json : CampaignReport → Json
campaign_json c = object (
    entry "first_seed" (number c.first_seed) (
      entry "count" (natural c.count) (
        entry "ok" (boolean (campaign_ok c)) (
          entry "failures" (array (items (report_json false) (failures c))) (
            entry "total_steps" (natural (total (λ r. length r.records) c.reports)) (
              entry "accepted" (natural (total accepted c.reports))
                (entry "rejected" (natural (total rejected c.reports)) end)))))))

-- `seed + 1`
abbrev pub next_seed : ℤ → ℤ
next_seed (pos n) = pos (suc n)
next_seed (negsuc zero) = pos 0
next_seed (negsuc (suc n)) = negsuc n

abbrev pub added : {A E : Type 0} → A → Result E (List A) → Result E (List A)
added a (ok rest) = ok (a ∷ rest)
added a (err e) = err e

module _ (r : Random) (config : GeneratorConfig) (host : Host) (steps : ℤ) where
  abbrev scenario_then :
      {A : Type 0}
      → Result GeneratorError GeneratedScenario
      → (GeneratedScenario → Result GeneratorError A)
      → Result GeneratorError A
  scenario_then (ok s) f = f s
  scenario_then (err e) f = err e

  unfoldable pub generate_many : List ℤ → Result GeneratorError (List GeneratedScenario)
  generate_many [] = ok []
  generate_many (seed ∷ seeds) =
      let rest = generate_many seeds in
      scenario_then (generated r config host seed steps) (λ s. added s rest)

  module _ (strict stop : Bool) where
    abbrev pub went_on :
        ReplayReport
        → Result GeneratorError (List ReplayReport)
        → Result GeneratorError (List ReplayReport)
    went_on report rest =
        if not (report_ok report) && stop then ok (report ∷ []) else added report rest

    -- The `for` loop over the offsets
    unfoldable pub run_seeds : ℕ → ℤ → Result GeneratorError (List ReplayReport)
    run_seeds zero seed = ok []
    run_seeds (suc count) seed =
        let rest = run_seeds count (next_seed seed) in
        scenario_then (generated r config host seed steps)
          (λ s. went_on (replay host strict s) rest)

    abbrev report_on :
        ℤ → Result GeneratorError (List ReplayReport) → Result GeneratorError CampaignReport
    report_on seed (ok reports) =
        ok (record { first_seed = seed; count = length reports; reports = reports })
    report_on seed (err e) = err e

    unfoldable pub run_campaign : ℤ → ℤ → Result GeneratorError CampaignReport
    run_campaign seed (pos (suc count)) = report_on seed (run_seeds (suc count) seed)
    run_campaign seed count = err (raised (value_error "count must be positive"))
