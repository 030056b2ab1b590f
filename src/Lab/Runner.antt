-- ===== src/Lab/Runner.antt =====
-- `ScenarioRunner` and its reports in tools/chaos_lab/runner.py. What the standard library computes
-- is a parameter: the two hashes, and `repr` of a text, which the text of a `KeyError` shows. The
-- time that a replay takes is left out, and the text of a violation is its code alone.
pub mod First
pub mod Refines
use helix_grid.Prelude.{
  ℕ, suc, ◌-◌, String, ◌&◌, text_eq, Bool, true, false, not, ◌&&◌, List, [], ◌∷◌, Option, none,
  some, if◌then◌else◌, length, is_some,
}
use helix_grid.Prelude.Int.{ℤ, pos, negsuc, decimal_ℤ}
use helix_grid.Prelude.Dict.{Dict}
use helix_grid.Prelude.Codes.{Codes, same_codes}
use helix_grid.Prelude.Sorting.{sort}
use helix_grid.Prelude.Json.{Json, object, end}
use helix_grid.Prelude.Exec.{Result, ok, err, for_each, ◌>>◌}
use helix_grid.Chaos.Types.{Action, Error, model_error, value_error, key_error}
use helix_grid.Chaos.State.{Model, Act, blank, count_up}
use helix_grid.Chaos.Admin.{add_workflow, register_worker}
use helix_grid.Chaos.Dispatch.{apply, ignore}
use helix_grid.Chaos.Checks.{check_invariants}
use helix_grid.Chaos.Snapshot.{snapshot, digest_of, event_jsonl, count_le}
use helix_grid.Lab.Types.{GeneratedScenario, WorkerSpec, same_action, same_list, same_number}

pub record Host : Type 0 where
  pub blake2s : String → String
  pub sha256 : Codes → String
  pub repr : String → String

pub record StepRecord : Type 0 where
  pub index : ℕ
  pub action : Action
  pub accepted : Bool
  pub error_type : String
  pub error : String
  pub digest : String
  pub event_count : ℕ
  pub active_leases : ℕ

pub record ReplayFailure : Type 0 where
  pub index : ℤ
  pub action : Option Action
  pub error_type : String
  pub error : String
  pub invariant_code : String
  pub snapshot : Json

pub record ReplayReport : Type 0 where
  pub seed : ℤ
  pub records : List StepRecord
  pub final_digest : String
  pub final_snapshot : Json
  pub event_jsonl : Codes
  pub failure : Option ReplayFailure

-- `ReplayReport.ok`, `accepted` and `rejected`
abbrev pub report_ok : ReplayReport → Bool
report_ok r = not (is_some r.failure)

abbrev pub count_accepted : List StepRecord → ℕ
count_accepted [] = 0
count_accepted (r ∷ rs) = if r.accepted then suc (count_accepted rs) else count_accepted rs

unfoldable pub accepted : ReplayReport → ℕ
accepted r = count_accepted r.records

unfoldable pub rejected : ReplayReport → ℕ
unfolding accepted
rejected r = length r.records - accepted r

unfoldable pub count_types : List StepRecord → Dict ℕ → Dict ℕ
count_types [] counts = counts
count_types (r ∷ rs) counts =
    count_types rs (if r.accepted then counts else count_up r.error_type counts)

unfoldable pub rejection_types : ReplayReport → Dict ℕ
unfolding count_types
rejection_types r = sort count_le (count_types r.records [])

-- `type(exc).__name__` and `str(exc)`
abbrev pub error_type : Error → String
error_type (model_error s) = "ModelError"
error_type (value_error s) = "ValueError"
error_type (key_error s) = "KeyError"

-- `Model()`, with the defaults of its arguments
abbrev pub new_model : Model
new_model = blank 20_000 45_000 33_554_432 65_536

abbrev pub failed_setup : String → String → String → Json → ReplayFailure
failed_setup kind text code state = record {
  index = negsuc 0;
  action = none;
  error_type = kind;
  error = text;
  invariant_code = code;
  snapshot = state;
}

abbrev pub failed_step : ℕ → Action → String → String → String → Model → ReplayFailure
failed_step index action kind text code m = record {
  index = pos index;
  action = some action;
  error_type = kind;
  error = text;
  invariant_code = code;
  snapshot = snapshot m;
}

abbrev pub checked : Model → Option String → Result ReplayFailure Model
checked m none = ok m
checked m (some code) = err (failed_setup "InvariantViolation" code code (snapshot m))

abbrev pub found_violation : ℕ → Action → Model → Option String → Option ReplayFailure
found_violation index action m none = none
found_violation index action m (some code) =
    some (failed_step index action "InvariantViolation" code code m)

-- `if failure is None`, the invariants are checked.
abbrev pub after_check : ℕ → Action → Model → Option ReplayFailure → Option ReplayFailure
after_check index action m none = found_violation index action m (check_invariants m)
after_check index action m (some failure) = some failure

abbrev pub is_ok : {A : Type 0} → Result Error A → Bool
is_ok (ok a) = true
is_ok (err e) = false

abbrev pub kind_of : {A : Type 0} → Result Error A → String
kind_of (ok a) = ""
kind_of (err e) = error_type e

-- The end of the loop: the model, the records and the failure
pub record Run : Type 0 where
  pub model : Model
  pub records : List StepRecord
  pub failure : Option ReplayFailure

abbrev pub stopped : Model → Option ReplayFailure → Run
stopped m failure = record { model = m; records = []; failure = failure }

abbrev pub recorded : StepRecord → Run → Run
recorded r run = record run { records = r ∷ run.records }

abbrev pub report_of : (Codes → String) → ℤ → Run → ReplayReport
report_of sha256 seed run = record {
  seed = seed;
  records = run.records;
  final_digest = digest_of sha256 run.model;
  final_snapshot = snapshot run.model;
  event_jsonl = event_jsonl run.model;
  failure = run.failure;
}

abbrev pub setup_report : ℤ → ReplayFailure → ReplayReport
setup_report seed failure = record {
  seed = seed;
  records = [];
  final_digest = "";
  final_snapshot = object end;
  event_jsonl = [];
  failure = some failure;
}

module _ (host : Host) where
  open host use {blake2s, sha256, repr}

  abbrev pub error_text : Error → String
  error_text (model_error s) = s
  error_text (value_error s) = s
  error_text (key_error s) = repr s

  abbrev pub text_of : {A : Type 0} → Result Error A → String
  text_of (ok a) = ""
  text_of (err e) = error_text e

  abbrev pub enlist : WorkerSpec → Act Unit
  enlist w = ignore (register_worker blake2s w.worker_id w.capacity w.labels w.worker_id)

  -- `bootstrap` up to its check
  unfoldable pub set_up : GeneratedScenario → Act Unit
  set_up s = do
    ignore (
        add_workflow blake2s s.workflow.name s.workflow.tasks ("workflow-" & decimal_ℤ s.seed)
          s.workflow.metadata)
    for_each enlist s.worker_specs

  abbrev pub booted : Result Error Unit × Model → Result ReplayFailure Model
  booted (ok done, m) = checked m (check_invariants m)
  booted (err e, m) = err (failed_setup (error_type e) (error_text e) "" (object end))

  -- `bootstrap`, with what `replay` makes of an exception that it raises
  unfoldable pub bootstrap : GeneratedScenario → Result ReplayFailure Model
  bootstrap s = booted (set_up s new_model)

  -- The failure after `model.apply(action)`
  abbrev pub after_apply :
      Bool → ℕ → Action → Result Error Unit → Model → Option ReplayFailure → Option ReplayFailure
  after_apply strict index action (ok done) m before = before
  after_apply strict index action (err (model_error s)) m before =
      if strict then some (failed_step index action "ModelError" s "" m) else before
  after_apply strict index action (err e) m before =
      some (failed_step index action (error_type e) (error_text e) "" m)

  abbrev pub step_record : ℕ → Action → Result Error Unit → Model → StepRecord
  step_record index action result m = record {
    index = index;
    action = action;
    accepted = is_ok result;
    error_type = kind_of result;
    error = text_of result;
    digest = digest_of sha256 m;
    event_count = length m.events;
    active_leases = length m.leases;
  }

  -- The `for` loop of `replay`, from step `index` on
  unfoldable pub run_steps : Bool → Bool → ℕ → List Action → Option ReplayFailure → Model → Run
  run_steps strict stop index [] failure m = stopped m failure
  run_steps strict stop index (a ∷ actions) failure m =
      let (result, n) = apply blake2s a m in
      let failure' = after_check index a n (after_apply strict index a result n failure) in
      let rest = run_steps strict stop (suc index) actions failure' n in
      recorded (step_record index a result n)
        (if is_some failure' && stop then stopped n failure' else rest)

  abbrev pub replay_from :
      Bool → Bool → GeneratedScenario → List Action → Result ReplayFailure Model → ReplayReport
  replay_from strict stop s actions (ok m) =
      report_of sha256 s.seed (run_steps strict stop 0 actions none m)
  replay_from strict stop s actions (err failure) = setup_report s.seed failure

  -- `replay` with all of its arguments
  unfoldable pub replay_with : Bool → Bool → GeneratedScenario → Option (List Action) → ReplayReport
  replay_with strict stop s none = replay_from strict stop s s.actions (bootstrap s)
  replay_with strict stop s (some actions) = replay_from strict stop s actions (bootstrap s)

  unfoldable pub replay : Bool → GeneratedScenario → ReplayReport
  replay strict s = replay_with strict true s none

  abbrev same_record : StepRecord → StepRecord → Bool
  same_record r s =
      same_number r.index s.index
      && same_action r.action s.action
      && (if r.accepted then s.accepted else not s.accepted)
      && text_eq r.error_type s.error_type
      && text_eq r.error s.error
      && text_eq r.digest s.digest
      && same_number r.event_count s.event_count
      && same_number r.active_leases s.active_leases

  unfoldable pub determinism_check : Bool → GeneratedScenario → Bool × ReplayReport × ReplayReport
  determinism_check strict s =
      let first = replay strict s in
      let second = replay strict s in
      let same =
        text_eq first.final_digest second.final_digest
        && same_codes first.event_jsonl second.event_jsonl
        && same_list same_record first.records second.records in
      (same, first, second)
