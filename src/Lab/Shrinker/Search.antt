-- ===== src/Lab/Shrinker/Search.antt =====
-- `ScenarioShrinker.shrink`, `same_failure_signature` and `format_shrink_summary` of
-- tools/chaos_lab/shrinker.py. A failure predicate answers `none` where it raises.
use helix_grid.Prelude.{
  ℕ, zero, suc, ◌-◌, String, ◌&◌, decimal, text_eq, is_empty, or_text, ltb, leb, ◌==◌, Bool, true,
  false, not, ◌&&◌, ◌||◌, List, [], ◌∷◌, ◌++◌, Option, none, some, if◌then◌else◌, length, reverse,
}
use helix_grid.Prelude.Int.{ℤ, max_ℕ, decimal_ℤ}
use helix_grid.Prelude.Codes.{Codes, codes, same_codes, leading, after}
use helix_grid.Prelude.Exec.{Result, ok, err}
use helix_grid.Chaos.Types.{Action, Task}
use helix_grid.Lab.Types.{
  GeneratedScenario, GeneratedWorkflow, WorkerSpec, same_action, same_spec, same_task, same_list,
}
use helix_grid.Lab.Runner.{Host, ReplayFailure, ReplayReport, report_ok, replay}
use helix_grid.Lab.Shrinker.Ddmin.{ShrinkPass, ddmin}
use helix_grid.Lab.Shrinker.Actions.{simplify}
use helix_grid.Lab.Shrinker.Removal.{remove_workers, remove_tasks}

pub record ShrinkResult : Type 0 where
  pub original : GeneratedScenario
  pub minimized : GeneratedScenario
  pub report : ReplayReport
  pub passes : List ShrinkPass

-- The `ValueError` and the `RuntimeError` of `shrink`, and what the predicate raises
pub data ShrinkError : Type 0 where
  not_failing lost_failure predicate_raised : ShrinkError

abbrev pub FailurePredicate : Type 0
FailurePredicate = ReplayReport → Option Bool

-- The predicate that is used if none is given
abbrev pub any_failure : FailurePredicate
any_failure report = some (not (report_ok report))

-- `ShrinkResult.removed_actions`; the minimized scenario never has more.
unfoldable pub removed_actions : ShrinkResult → ℕ
removed_actions r = length r.original.actions - length r.minimized.actions

abbrev pub with_actions : GeneratedScenario → List Action → GeneratedScenario
with_actions s xs = record s { actions = xs }

abbrev pub with_workers : GeneratedScenario → List WorkerSpec → GeneratedScenario
with_workers s ws = record s { worker_specs = ws }

abbrev with_workflow_tasks : GeneratedWorkflow → List Task → GeneratedWorkflow
with_workflow_tasks w ts = record w { tasks = ts }

abbrev pub with_tasks : GeneratedScenario → List Task → GeneratedScenario
with_tasks s ts = record s { workflow = with_workflow_tasks s.workflow ts }

-- `_fails`: an exception of the predicate counts as a failure.
abbrev pub fails_by : Option Bool → Bool
fails_by none = true
fails_by (some b) = b

-- A scenario with the passes that led to it, and whether the round has changed it
pub record Progress : Type 0 where
  pub current : GeneratedScenario
  pub passes : List ShrinkPass
  pub changed : Bool

abbrev pub adopt : Bool → GeneratedScenario → List ShrinkPass → Progress → Progress
adopt better candidate trace p = record {
  current = if better then candidate else p.current;
  passes = p.passes ++ trace;
  changed = p.changed || better;
}

module _ (test : GeneratedScenario → Bool) where
  unfoldable pub shrink_actions : Progress → Progress
  shrink_actions p =
      let (trace, xs) = ddmin (λ xs. test (with_actions p.current xs)) p.current.actions in
      adopt (ltb (length xs) (length p.current.actions)) (with_actions p.current xs) trace p

  unfoldable pub simplify_actions : Progress → Progress
  simplify_actions p =
      let (trace, xs) = simplify (λ xs. test (with_actions p.current xs)) p.current.actions in
      adopt (not (same_list same_action xs p.current.actions)) (with_actions p.current xs) trace p

  unfoldable pub shrink_workers : Progress → Progress
  shrink_workers p =
      let (trace, ws) =
        remove_workers (λ ws. test (with_workers p.current ws)) p.current.actions
          p.current.worker_specs in
      adopt (not (same_list same_spec ws p.current.worker_specs)) (with_workers p.current ws) trace
        p

  unfoldable pub shrink_tasks : Progress → Progress
  shrink_tasks p =
      let (trace, ts) =
        remove_tasks (λ ts. test (with_tasks p.current ts)) p.current.actions
          p.current.workflow.tasks in
      adopt (not (same_list same_task ts p.current.workflow.tasks)) (with_tasks p.current ts) trace
        p

  abbrev pub started : GeneratedScenario → List ShrinkPass → Progress
  started s passes = record { current = s; passes = passes; changed = false }

  -- The body of the loop over the rounds
  unfoldable pub shrink_round : GeneratedScenario → List ShrinkPass → Progress
  shrink_round s passes =
      shrink_tasks (shrink_workers (simplify_actions (shrink_actions (started s passes))))

  unfoldable pub shrink_rounds :
      ℕ → GeneratedScenario → List ShrinkPass → GeneratedScenario × List ShrinkPass
  shrink_rounds zero s passes = (s, passes)
  shrink_rounds (suc rounds) s passes =
      let p = shrink_round s passes in
      let onward = shrink_rounds rounds p.current p.passes in
      if p.changed then onward else (p.current, p.passes)

module _ (host : Host) (strict : Bool) (predicate : FailurePredicate) where
  unfoldable pub fails : GeneratedScenario → Bool
  fails s = fails_by (predicate (replay host strict s))

  abbrev pub finished :
      GeneratedScenario
      → GeneratedScenario × List ShrinkPass
      → Option Bool
      → Result ShrinkError ShrinkResult
  finished s (current, passes) none = err predicate_raised
  finished s (current, passes) (some false) = err lost_failure
  finished s (current, passes) (some true) = ok (record {
    original = s;
    minimized = current;
    report = replay host strict current;
    passes = passes;
  })

  abbrev pub searched : ℕ → GeneratedScenario → Option Bool → Result ShrinkError ShrinkResult
  searched rounds s none = err predicate_raised
  searched rounds s (some false) = err not_failing
  searched rounds s (some true) =
      let found = shrink_rounds fails rounds s [] in
      finished s found (predicate (replay host strict found.0))

  unfoldable pub shrink : ℤ → GeneratedScenario → Result ShrinkError ShrinkResult
  shrink max_rounds s = searched (max_ℕ 1 max_rounds) s (predicate (replay host strict s))

-- White space of `str.strip`
abbrev is_white : ℕ → Bool
is_white c =
    leb 9 c && leb c 13
    || leb 28 c && leb c 32
    || c == 133
    || c == 160
    || c == 5760
    || leb 8192 c && leb c 8202
    || c == 8232
    || c == 8233
    || c == 8239
    || c == 8287
    || c == 12288

-- `value.split(":", 1)[0].strip()`
unfoldable pub prefix : String → Codes
prefix s =
    let front = leading (λ c. not (c == b':')) (codes s) in
    reverse (after is_white (reverse (after is_white front)))

abbrev pub matches : ReplayFailure → Option ReplayFailure → Bool
matches expected none = false
matches expected (some failure) =
    if not (is_empty expected.invariant_code)
    then text_eq failure.invariant_code expected.invariant_code
    else text_eq failure.error_type expected.error_type
      && same_codes (prefix failure.error) (prefix expected.error)

unfoldable pub same_failure_signature : ReplayFailure → FailurePredicate
unfolding prefix
same_failure_signature expected report = some (matches expected report.failure)

abbrev count_accepted_passes : List ShrinkPass → ℕ
count_accepted_passes [] = 0
count_accepted_passes (p ∷ ps) =
    if p.accepted then suc (count_accepted_passes ps) else count_accepted_passes ps

abbrev change : String → ℕ → ℕ → String
change what n m = what & ": " & decimal n & " -> " & decimal m

abbrev failure_line : Option ReplayFailure → String
failure_line none = ""
failure_line (some f) =
    "\nfailure: step="
    & decimal_ℤ f.index
    & " type="
    & f.error_type
    & " code="
    & or_text f.invariant_code "-"
    & " error="
    & f.error

unfoldable pub format_shrink_summary : ShrinkResult → String
format_shrink_summary r =
    let accepted = count_accepted_passes r.passes in
    "HelixGrid chaos shrink result\n"
    & change "actions" (length r.original.actions) (length r.minimized.actions)
    & "\n"
    & change "workers" (length r.original.worker_specs) (length r.minimized.worker_specs)
    & "\n"
    & change "tasks" (length r.original.workflow.tasks) (length r.minimized.workflow.tasks)
    & "\n"
    & "passes: "
    & decimal (length r.passes)
    & " ("
    & decimal accepted
    & " accepted, "
    & decimal (length r.passes - accepted)
    & " rejected)"
    & failure_line r.report.failure
