-- ===== src/Lab/Campaign/Examples.antt =====
-- Tests of campaigns and of scenarios as JSON (tools/chaos_lab/runner.py), and the theorems at
-- concrete inputs.
use helix_grid.Prelude.{◌≡◌, refl, [], ◌∷◌, true, false, none, is_some, map, All}
use helix_grid.Prelude.Int.{pos, negsuc}
use helix_grid.Prelude.Exec.{Result, ok, err}
use helix_grid.Prelude.Json.{object, end, entry, number, text}
use helix_grid.Chaos.Types.{value_error, key_error}
use helix_grid.Chaos.Policy.{normalized}
use helix_grid.Chaos.Admin.{post_init}
use helix_grid.Lab.Samples.{host, quiet, or_else, returned, ok-or_else}
use helix_grid.Lab.Files.{
  Conversions, raised, action_from_dict, scenario_from_dict, loaded, scenario_to_dict,
}
use helix_grid.Lab.Files.RoundTrip.{IsNew, loaded-scenario_to_dict}
use helix_grid.Lab.Generator.Files.{generated-loaded}
use helix_grid.Lab.Generator.Scenario.{GeneratorError}
use helix_grid.Lab.Generator.Samples.{generator, dice, small, small_scenario, small_outcome}
use helix_grid.Lab.Campaign.{CampaignReport, failures, campaign_ok, run_seeds, run_campaign}
use helix_grid.Lab.Campaign.Runs.{IsCampaign, run_campaign-IsCampaign}

abbrev conversions : Conversions
conversions = record { repr = λ x. ""; integer = λ s. none }

-- A missing key, a root of another type, and a kind that there is not
rejections :
    ((loaded conversions (object end) tt).0 ≡ err (raised (key_error "workflow")))
    × ((loaded conversions (number (pos 1)) tt).0
        ≡ err (raised (value_error "scenario root must be a JSON object")))
    × ((action_from_dict conversions (object (entry "kind" (text "jump") end)) tt).0
        ≡ err (raised (value_error " is not a valid ActionKind")))
unfolding generator loaded scenario_from_dict action_from_dict
rejections = (refl, refl, refl)

quiet_tasks : All IsNew quiet.workflow.tasks
unfolding post_init normalized
quiet_tasks = (refl, (refl, (refl, (refl, tt))))

loaded-scenario_to_dict_example : loaded conversions (scenario_to_dict quiet) tt ≡ (ok quiet, tt)
loaded-scenario_to_dict_example = loaded-scenario_to_dict conversions quiet quiet_tasks

generated-loaded_example :
    loaded conversions (scenario_to_dict small_scenario) tt ≡ (ok small_scenario, tt)
generated-loaded_example =
    generated-loaded dice small host conversions (pos 1) (pos 6) small_scenario small_outcome

abbrev two_seeds : Result GeneratorError CampaignReport
two_seeds = run_campaign dice small host (pos 2) false true (negsuc 0) (pos 2)

abbrev no_report : CampaignReport
no_report = record { first_seed = pos 0; count = 0; reports = [] }

abbrev two_reports : CampaignReport
two_reports = or_else no_report (returned two_seeds)

two_seeds_ok :
    (is_some (returned two_seeds) ≡ true)
    × (campaign_ok two_reports ≡ true)
    × (map (λ p. p.seed) two_reports.reports ≡ negsuc 0 ∷ pos 0 ∷ [])
unfolding generator run_campaign run_seeds campaign_ok failures
two_seeds_ok = (refl, refl, refl)

none_asked :
    run_campaign dice small host (pos 2) false true (pos 1) (pos 0)
    ≡ err (GeneratorError.raised (value_error "count must be positive"))
unfolding run_campaign
none_asked = refl

run_campaign-IsCampaign_example :
    IsCampaign dice small host (pos 2) false true (negsuc 0) (pos 2) two_reports
run_campaign-IsCampaign_example =
    run_campaign-IsCampaign dice small host (pos 2) false true (negsuc 0) (pos 2) two_reports
      (ok-or_else no_report two_seeds two_seeds_ok.0)
