-- ===== src/Lab/Generator/Scenario.antt =====
-- `scenario` and `next_action` of tools/chaos_lab/generator.py. A weight is a number of tenths, and
-- the choice by weight is made without the rounding of floating-point sums.
use helix_grid.Prelude.{
  ℕ, zero, suc, ◌+◌, ◌*◌, String, ◌&◌, leb, Bool, true, false, not, ◌&&◌, List, [], ◌∷◌, ◌++◌,
  Option, none, some, if◌then◌else◌,
}
use helix_grid.Prelude.Int.{ℤ, pos, max_ℕ}
use helix_grid.Prelude.Dict.{lookup}
use helix_grid.Prelude.Exec.{Exec, Result, ok, err, pure, raise, ◌>>=◌, ◌>>◌}
use helix_grid.Chaos.Types.{
  Action, ActionKind, TaskState, Error, Task, Lease, Workflow, same_state, workflow_terminal,
}
use helix_grid.Chaos.State.{Model, find_task}
use helix_grid.Chaos.Dispatch.{apply}
use helix_grid.Chaos.Checks.{check_invariants}
use helix_grid.Chaos.Snapshot.{
  all_terminal, active_lease_tokens, closed_lease_tokens, worker_ids, workflow_ids, kind_name,
}
use helix_grid.Lab.Types.{GeneratedWorkflow, GeneratedScenario, WorkerSpec}
use helix_grid.Lab.Runner.{Host, new_model, set_up, error_text, error_type}
use helix_grid.Lab.Generator.Draws.{Random, GeneratorConfig, Draw, one, chance, between, choice}
use helix_grid.Lab.Generator.Tasks.{is_nil, workflow}
use helix_grid.Lab.Generator.Workers.{workers}

abbrev pub plain_action : ActionKind → Action
plain_action kind = record {
  kind = kind;
  workflow_id = "";
  task_id = "";
  worker_id = "";
  token = "";
  amount = pos 0;
  text = "";
}

abbrev on_worker : ActionKind → String → Action
on_worker kind id = record (plain_action kind) { worker_id = id }

abbrev on_token : ActionKind → String → Action
on_token kind token = record (plain_action kind) { token = token }

abbrev pub Choices : Type 0
Choices = List (ℕ × Action)

abbrev only_if : Bool → ℕ × Action → Choices
only_if true c = c ∷ []
only_if false c = []

-- The first choice at which the sum of the weights so far reaches the pick, else the last; the pick
-- is `ticks / one` of the total.
unfoldable pub pick_from : ℕ → ℕ → ℕ → ℕ × Action → Choices → Action
pick_from ticks total cursor (weight, action) [] = action
pick_from ticks total cursor (weight, action) (c ∷ choices) =
    if leb (ticks * total) ((cursor + weight) * one)
    then action
    else pick_from ticks total (cursor + weight) c choices

abbrev total_weight : Choices → ℕ
total_weight [] = 0
total_weight ((weight, action) ∷ choices) = weight + total_weight choices

module _ (r : Random) (config : GeneratorConfig) where
  open config use {
    failure_probability, stale_operation_probability, cancel_probability, worker_drop_probability,
    log_probability, heartbeat_probability, renew_probability, max_time_step_ms,
  }

  unfoldable pub completion_action : String → Draw r Action
  completion_action token = do
    failing ← chance r failure_probability
    if not failing then pure (on_token ActionKind.complete_success token) else do
      code ← choice r 1 (2 ∷ 3 ∷ 125 ∷ 137 ∷ [])
      message ← choice r "simulated process failure" (
          "simulated dependency outage" ∷ "simulated worker exception" ∷ "simulated non-zero exit"
          ∷ [])
      pure (record (on_token ActionKind.complete_failure token) {
        amount = pos code;
        text = message;
      })

  unfoldable pub log_text : String → String → Draw r String
  log_text workflow_id task_id = do
    message ← choice r "starting phase" (
        "checkpoint reached" ∷ "processing batch" ∷ "artifact written"
        ∷ "dependency response received" ∷ "validation passed" ∷ [])
    pure ("[" & workflow_id & "/" & task_id & "] " & message & "\n")

  -- The choices for one worker that is not dropped
  unfoldable pub worker_choices : String → Draw r Choices
  worker_choices id = do
    beats ← chance r heartbeat_probability
    drops ← chance r worker_drop_probability
    pure (
        (50, on_worker ActionKind.lease id) ∷ only_if beats (15, on_worker ActionKind.heartbeat id)
        ++ only_if drops (5, on_worker ActionKind.drop_worker id))

  unfoldable pub all_worker_choices : List String → Draw r Choices
  all_worker_choices [] = pure []
  all_worker_choices (id ∷ ids) = do
    here ← worker_choices id
    later ← all_worker_choices ids
    pure (here ++ later)

  -- The choices for one active lease, from the state of its task
  unfoldable pub held_choices : String → Lease → Draw r Choices
  held_choices token lease = do
    completion ← completion_action token
    renews ← chance r renew_probability
    logs ← chance r log_probability
    if logs
        then (do
          text ← log_text lease.workflow_id lease.task_id
          pure (
              (45, completion) ∷ only_if renews (13, on_token ActionKind.renew token)
              ++ (10, record (on_token ActionKind.log token) { text = text }) ∷ []))
        else pure ((45, completion) ∷ only_if renews (13, on_token ActionKind.renew token))

  abbrev state_choices : String → Lease → Option Task → Draw r Choices
  state_choices token lease none = pure []
  state_choices token lease (some t) =
      if same_state t.state TaskState.leased
      then (do held ← held_choices token lease; pure ((50, on_token ActionKind.start token) ∷ held))
      else if same_state t.state TaskState.running
      then held_choices token lease
      else pure []

  abbrev lease_choices : Model → String → Option Lease → Draw r Choices
  lease_choices m token none = pure []
  lease_choices m token (some lease) =
      state_choices token lease (find_task lease.workflow_id lease.task_id m)

  -- The leases of the model and their tasks are there, so no look-up of the code raises.
  unfoldable pub all_lease_choices : Model → List String → Draw r Choices
  all_lease_choices m [] = pure []
  all_lease_choices m (token ∷ tokens) = do
    here ← lease_choices m token (lookup token m.leases)
    later ← all_lease_choices m tokens
    pure (here ++ later)

  unfoldable pub stale_choices : List String → Draw r Choices
  stale_choices [] = pure []
  stale_choices (token ∷ tokens) = do
    stale ← chance r stale_operation_probability
    if not stale then pure [] else do
      chosen ← choice r token tokens
      kind ←
          choice r ActionKind.stale_complete
            (ActionKind.stale_renew ∷ ActionKind.duplicate_complete ∷ [])
      pure ((9, on_token kind chosen) ∷ [])

  abbrev is_open : Option Workflow → Bool
  is_open none = false
  is_open (some w) = not (workflow_terminal w.state)

  unfoldable pub cancel_choices : Model → List String → Draw r Choices
  cancel_choices m [] = pure []
  cancel_choices m (id ∷ ids) = do
    cancels ← chance r cancel_probability
    if not cancels then pure [] else do
      chosen ← choice r id ids
      pure (
          only_if (is_open (lookup chosen m.workflows))
            (4, record (plain_action ActionKind.cancel_workflow) { workflow_id = chosen }))

  -- `total` and `pick`, and the loop over the choices
  unfoldable pub weighted : ℕ × Action → Choices → Draw r Action
  weighted c choices g =
      let (ticks, g') = r.random g in
      (ok (pick_from ticks (total_weight (c ∷ choices)) 0 c choices), g')

  abbrev choose_among : Choices → ℕ × Action → ℕ × Action → Draw r Action
  choose_among [] waiting sweeping = weighted waiting (sweeping ∷ [])
  choose_among (c ∷ choices) waiting sweeping = weighted c (choices ++ waiting ∷ sweeping ∷ [])

  -- To advance the time and to sweep is always a choice, so there is an action.
  unfoldable pub next_action : Model → Draw r Action
  next_action m = do
    of_workers ← all_worker_choices (worker_ids false m)
    of_leases ← all_lease_choices m (active_lease_tokens m)
    of_closed ← stale_choices (closed_lease_tokens m)
    of_workflows ← cancel_choices m (workflow_ids m)
    amount ← between r 1 max_time_step_ms
    choose_among (of_workers ++ of_leases ++ of_closed ++ of_workflows)
        (18, record (plain_action ActionKind.advance_time) { amount = pos amount })
        (3, plain_action ActionKind.sweep)

-- What makes `scenario` raise: an error of the set-up or of a choice, or an invariant that fails
pub data GeneratorError : Type 0 where
  raised : Error → GeneratorError
  violated : String → GeneratorError

abbrev pub outer : {A G : Type 0} → Result Error A × G → Result GeneratorError A × G
outer (ok a, g) = (ok a, g)
outer (err e, g) = (err (raised e), g)

-- The actions and the notes of a trace, in order
pub record Trace : Type 0 where
  pub actions : List Action
  pub notes : List String

abbrev pub no_trace : Trace
no_trace = record { actions = []; notes = [] }

abbrev pub extended : Action → List String → Trace → Trace
extended a notes t = record { actions = a ∷ t.actions; notes = notes ++ t.notes }

-- `model.terminal() and not model.active_lease_tokens()`
abbrev pub is_over : Model → Bool
is_over m = all_terminal m && is_nil (active_lease_tokens m)

abbrev pub note : Host → Action → Result Error Unit → List String
note host a (ok done) = []
note host a (err e) = (kind_name a.kind & ": " & error_type e & ": " & error_text host e) ∷ []

module _ (r : Random) (config : GeneratorConfig) (host : Host) where
  abbrev pub Make : Type 0 → Type 0
  Make A = Exec r.Rng GeneratorError A

  abbrev pub choosing : {A : Type 0} → Draw r A → Make A
  choosing d g = outer (d g)

  abbrev pub verified : Option String → Make Unit
  verified none = pure tt
  verified (some code) = raise (violated code)

  -- The `for` loop of `scenario`
  unfoldable pub trace : ℕ → Model → Make Trace
  trace zero m = pure no_trace
  trace (suc steps) m = do
    a ← choosing (next_action r config m)
    let result = (apply host.blake2s a m).0
    let after = (apply host.blake2s a m).1
    verified (check_invariants after)
    rest ← if is_over after then pure no_trace else trace steps after
    pure (extended a (note host a result) rest)

  abbrev pub ready : Result Error Unit × Model → Make Model
  ready (ok done, m) = pure m
  ready (err e, m) = raise (raised e)

  abbrev pub assembled : ℤ → GeneratedWorkflow → List WorkerSpec → Trace → GeneratedScenario
  assembled seed w specs t = record {
    seed = seed;
    workflow = w;
    worker_specs = specs;
    actions = t.actions;
    notes = t.notes;
  }

  abbrev pub unplayed : ℤ → GeneratedWorkflow → List WorkerSpec → GeneratedScenario
  unplayed seed w specs = assembled seed w specs no_trace

  unfoldable pub make_scenario : ℤ → ℤ → Make GeneratedScenario
  make_scenario seed steps = do
    w ← choosing (workflow r config seed "")
    specs ← choosing (workers r config w)
    m ← ready (set_up host (unplayed seed w specs) new_model)
    t ← trace (max_ℕ 1 steps) m
    pure (assembled seed w specs t)

  -- `ScenarioGenerator(seed, config=config).scenario(steps=steps)`
  unfoldable pub generated : ℤ → ℤ → Result GeneratorError GeneratedScenario
  generated seed steps = (make_scenario seed steps (r.seeded seed)).0
