-- ===== src/Lab/Samples.antt =====
-- A scenario for the runner and the shrinker of tools/chaos_lab, and tests that run them. The hash
-- of the ids keeps its text, that of the snapshots forgets it.
use helix_grid.Prelude.{
  ◌≡◌, refl, is_some, arith, String, List, [], ◌∷◌, Option, none, some, true, false, decimal,
}
use helix_grid.Prelude.Int.{pos, decimal_ℤ}
use helix_grid.Prelude.Exec.{Result, ok, err}
use helix_grid.Chaos.Types.{Action, ActionKind, Task}
use helix_grid.Chaos.Samples.{program, diamond, action}
use helix_grid.Chaos.Snapshot.{snapshot, digest_of, event_jsonl}
use helix_grid.Lab.Types.{GeneratedScenario, WorkerSpec}
use helix_grid.Lab.Runner.{
  Host, report_ok, accepted, rejected, count_types, rejection_types, set_up, bootstrap, run_steps,
  replay_with, replay, determinism_check,
}
use helix_grid.Lab.Shrinker.Ddmin.{try_chunks, ddmin_loop, ddmin}
use helix_grid.Lab.Shrinker.Actions.{
  smaller_steps, action_variants, action_complexity, try_variants, simplify_from, simplify,
}
use helix_grid.Lab.Shrinker.Removal.{
  remove_from, remove_workers, distinct, expanded, remaining, without_task, try_without, drop_tasks,
  remove_tasks,
}
use helix_grid.Lab.Shrinker.Search.{
  ShrinkResult, ShrinkError, not_failing, any_failure, shrink_actions, simplify_actions,
  shrink_workers, shrink_tasks, shrink_round, shrink_rounds, fails, shrink, prefix,
  same_failure_signature, format_shrink_summary, removed_actions,
}

-- Every definition that a run of the runner and of the shrinker opens
unfoldable pub lab : Unit {0}
unfolding program snapshot digest_of event_jsonl decimal decimal_ℤ accepted rejected count_types
    rejection_types set_up bootstrap run_steps replay_with replay determinism_check try_chunks
    ddmin_loop ddmin smaller_steps action_variants action_complexity try_variants simplify_from
    simplify remove_from remove_workers distinct expanded remaining without_task try_without
    drop_tasks remove_tasks shrink_actions simplify_actions shrink_workers shrink_tasks shrink_round
    shrink_rounds fails shrink prefix same_failure_signature format_shrink_summary removed_actions
lab = tt

abbrev pub or_else {ℓ} : {A : Type ℓ} → A → Option A → A
or_else a none = a
or_else a (some b) = b

abbrev pub returned : {E A : Type 0} → Result E A → Option A
returned (ok a) = some a
returned (err e) = none

pub some-or_else {ℓ} :
    {A : Type ℓ} (a : A) (o : Option A) → is_some o ≡ true → o ≡ some (or_else a o)
some-or_else a none h = absurd (ground arith)
some-or_else a (some b) h = refl

pub ok-or_else :
    {E A : Type 0} (a : A) (r : Result E A)
    → is_some (returned r) ≡ true
    → r ≡ ok (or_else a (returned r))
ok-or_else a (ok b) h = refl
ok-or_else a (err e) h = absurd (ground arith)

abbrev pub host : Host
host = record { blake2s = λ s. s; sha256 = λ s. ""; repr = λ s. s }

abbrev pub spec : String → WorkerSpec
spec id = record { worker_id = id; capacity = pos 1; labels = [] }

abbrev pub scenario : List Action → GeneratedScenario
scenario actions = record {
  seed = pos 7;
  workflow = record { name = "demo"; tasks = diamond; metadata = [] };
  worker_specs = spec "p" ∷ spec "q" ∷ [];
  actions = actions;
  notes = [];
}

-- The lease of one worker expires, and the task is leased again beyond its budget of attempts.
abbrev pub expiry : GeneratedScenario
expiry = scenario (
    action ActionKind.heartbeat "p" "" 0 ""
    ∷ action ActionKind.lease "p" "" 0 ""
    ∷ action ActionKind.sweep "" "" 0 ""
    ∷ action ActionKind.advance_time "" "" 25_000 ""
    ∷ action ActionKind.lease "p" "" 0 ""
    ∷ action ActionKind.sweep "" "" 0 ""
    ∷ [])

abbrev pub quiet : GeneratedScenario
quiet = scenario (
    action ActionKind.lease "p" "" 0 ""
    ∷ action ActionKind.start "" "none" 0 ""
    ∷ action ActionKind.lease "q" "" 0 ""
    ∷ [])

quiet-runs :
    (report_ok (replay host false quiet) ≡ true)
    × (accepted (replay host false quiet) ≡ 2)
    × (rejection_types (replay host false quiet) ≡ ("ModelError", 1) ∷ [])
    × (report_ok (replay host true quiet) ≡ false)
unfolding lab
quiet-runs = (refl, refl, refl, refl)

abbrev pub action_kinds : List Action → List ActionKind
action_kinds [] = []
action_kinds (a ∷ actions) = a.kind ∷ action_kinds actions

abbrev task_names : List Task → List String
task_names [] = []
task_names (t ∷ ts) = t.id ∷ task_names ts

abbrev spec_ids : List WorkerSpec → List String
spec_ids [] = []
spec_ids (w ∷ ws) = w.worker_id ∷ spec_ids ws

abbrev minimized_of : Result ShrinkError ShrinkResult → Option GeneratedScenario
minimized_of (err e) = none
minimized_of (ok r) = some r.minimized

abbrev view : Option GeneratedScenario → List ActionKind × List String × List String
view none = ([], [], [])
view (some s) = (action_kinds s.actions, spec_ids s.worker_specs, task_names s.workflow.tasks)

-- Three actions, one worker and one task are left of the scenario that fails.
expiry-shrinks :
    view (minimized_of (shrink host false any_failure (pos 30) expiry))
    ≡ (ActionKind.lease ∷ ActionKind.advance_time ∷ ActionKind.lease ∷ [], "p" ∷ [], "d" ∷ [])
unfolding lab
expiry-shrinks = refl

quiet-refused : shrink host false any_failure (pos 30) quiet ≡ err not_failing
unfolding lab
quiet-refused = refl
