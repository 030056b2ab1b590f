-- ===== src/Lab/Files.antt =====
-- Scenarios as JSON: `scenario_to_dict`, `scenario_from_dict` and `action_from_dict` of
-- tools/chaos_lab/runner.py. A dictionary of texts keeps its order, and its keys differ.
pub mod RoundTrip
use helix_grid.Prelude.{
  ℕ, String, ◌&◌, text_eq, Bool, true, false, List, [], ◌∷◌, Option, none, some, if◌then◌else◌, map,
}
use helix_grid.Prelude.Int.{ℤ, pos, decimal_ℤ}
use helix_grid.Prelude.Dict.{Dict}
use helix_grid.Prelude.Json.{
  Json, null, boolean, number, text, array, object, Items, nil, item, Entries, end, entry, items,
  entries,
}
use helix_grid.Prelude.Exec.{Result, ok, err, Exec, pure, raise, some_or, ◌>>=◌}
use helix_grid.Chaos.Types.{
  Action, ActionKind, Task, TaskState, RetryPolicy, Error, value_error, key_error,
}
use helix_grid.Chaos.Admin.{post_init}
use helix_grid.Chaos.Snapshot.{action_json, kind_name}
use helix_grid.Lab.Types.{GeneratedScenario, GeneratedWorkflow, WorkerSpec, new_task}

-- What Python makes of values of another type: the `repr` of a text, a list or a dictionary, and the
-- integer that a text spells
pub record Conversions : Type 0 where
  pub repr : Json → String
  pub integer : String → Option ℤ

-- `mistyped` is a TypeError or an AttributeError.
pub data ReadError : Type 0 where
  mistyped : ReadError
  raised : Error → ReadError

abbrev pub Read : Type 0 → Type 0
Read A = Exec (Unit {0}) ReadError A

abbrev pub find : String → Entries → Option Json
find k end = none
find k (entry j x d) = if text_eq j k then some x else find k d

-- `value[key]` and `value.get(key, default)`
abbrev pub item_of : String → Json → Read Json
item_of k (object d) = some_or (find k d) (raise (raised (key_error k)))
item_of k other = raise mistyped

abbrev pub get_or : Json → String → Json → Read Json
get_or default k (object d) = some_or (find k d) (pure default)
get_or default k other = raise mistyped

abbrev pub list_of : Items → List Json
list_of nil = []
list_of (item x xs) = x ∷ list_of xs

abbrev keys_of : Entries → List Json
keys_of end = []
keys_of (entry k x d) = text k ∷ keys_of d

abbrev characters : String → List Json
characters String.[] = []
characters (String.◌∷◌ c s) = text (String.◌∷◌ c String.[]) ∷ characters s

-- `for x in value`
abbrev pub iterated : Json → Read (List Json)
iterated (array xs) = pure (list_of xs)
iterated (object d) = pure (keys_of d)
iterated (text s) = pure (characters s)
iterated other = raise mistyped

module _ {A : Type 0} (read : Json → Read A) where
  unfoldable pub each : List Json → Read (List A)
  each [] = pure []
  each (x ∷ xs) = do a ← read x; rest ← each xs; pure (a ∷ rest)

abbrev no_items : Json
no_items = array nil

abbrev no_entries : Json
no_entries = object end

abbrev pub all_kinds : List ActionKind
all_kinds =
    ActionKind.register_worker ∷ ActionKind.heartbeat ∷ ActionKind.lease ∷ ActionKind.start
    ∷ ActionKind.renew ∷ ActionKind.log ∷ ActionKind.complete_success ∷ ActionKind.complete_failure
    ∷ ActionKind.advance_time ∷ ActionKind.sweep ∷ ActionKind.cancel_workflow
    ∷ ActionKind.drop_worker ∷ ActionKind.stale_complete ∷ ActionKind.stale_renew
    ∷ ActionKind.duplicate_complete ∷ []

abbrev pub kind_among : List ActionKind → String → Option ActionKind
kind_among [] s = none
kind_among (k ∷ ks) s = if text_eq (kind_name k) s then some k else kind_among ks s

module _ (conv : Conversions) where
  -- `ActionKind(s)`
  abbrev pub kind_named : String → Read ActionKind
  kind_named s =
      some_or (kind_among all_kinds s)
        (raise (raised (value_error (conv.repr (text s) & " is not a valid ActionKind"))))

  -- `str(x)` and `int(x)`
  abbrev pub str : Json → String
  str null = "None"
  str (boolean true) = "True"
  str (boolean false) = "False"
  str (number n) = decimal_ℤ n
  str (text s) = s
  str other = conv.repr other

  abbrev pub int : Json → Read ℤ
  int (number n) = pure n
  int (boolean true) = pure (pos 1)
  int (boolean false) = pure (pos 0)
  int (text s) = some_or (conv.integer s) (
      raise
        (raised (value_error ("invalid literal for int() with base 10: " & conv.repr (text s)))))
  int other = raise mistyped

  abbrev pub texts : List Json → List String
  texts xs = map str xs

  abbrev pub labels_of : Entries → Dict String
  labels_of end = []
  labels_of (entry k x d) = (k, str x) ∷ labels_of d

  -- `{str(k): str(v) for k, v in value.items()}`
  abbrev pub string_dict : Json → Read (Dict String)
  string_dict (object d) = pure (labels_of d)
  string_dict other = raise mistyped

  unfoldable pub action_from_dict : Json → Read Action
  action_from_dict value = do
    kind ← item_of "kind" value
    k ← kind_named (str kind)
    workflow_id ← get_or (text "") "workflow_id" value
    task_id ← get_or (text "") "task_id" value
    worker_id ← get_or (text "") "worker_id" value
    token ← get_or (text "") "token" value
    amount ← get_or (number (pos 0)) "amount" value
    n ← int amount
    message ← get_or (text "") "text" value
    pure (record {
      kind = k;
      workflow_id = str workflow_id;
      task_id = str task_id;
      worker_id = str worker_id;
      token = str token;
      amount = n;
      text = str message;
    })

  unfoldable pub retry_from_dict : Json → Read RetryPolicy
  retry_from_dict value = do
    attempts ← get_or (number (pos 1)) "max_attempts" value
    max_attempts ← int attempts
    base ← get_or (number (pos 250)) "base_delay_ms" value
    base_delay ← int base
    limit ← get_or (number (pos 30_000)) "max_delay_ms" value
    max_delay ← int limit
    pure (record {
      max_attempts = max_attempts;
      base_delay_ms = base_delay;
      max_delay_ms = max_delay;
    })

  abbrev pub built : Result Error Task → Read Task
  built (ok t) = pure t
  built (err e) = raise (raised e)

  unfoldable pub task_from_dict : Json → Read Task
  task_from_dict value = do
    retry_value ← get_or no_entries "retry" value
    id ← item_of "id" value
    depends_on ← get_or no_items "depends_on" value
    dependencies ← iterated depends_on
    labels ← get_or no_entries "labels" value
    label_dict ← string_dict labels
    retry ← retry_from_dict retry_value
    timeout ← get_or (number (pos 0)) "timeout_ms" value
    timeout_ms ← int timeout
    built (post_init (new_task (str id) (texts dependencies) label_dict retry timeout_ms))

  unfoldable pub worker_from_dict : Json → Read WorkerSpec
  worker_from_dict value = do
    id ← item_of "id" value
    capacity ← get_or (number (pos 1)) "capacity" value
    n ← int capacity
    labels ← get_or no_entries "labels" value
    label_dict ← string_dict labels
    pure (record { worker_id = str id; capacity = n; labels = label_dict })

  unfoldable pub workflow_from_dict : Json → Read GeneratedWorkflow
  workflow_from_dict value = do
    task_values ← item_of "tasks" value
    listed ← iterated task_values
    tasks ← each task_from_dict listed
    name ← item_of "name" value
    metadata ← get_or no_entries "metadata" value
    metadata_dict ← string_dict metadata
    pure (record { name = str name; tasks = tasks; metadata = metadata_dict })

  unfoldable pub scenario_from_dict : Json → Read GeneratedScenario
  scenario_from_dict value = do
    workflow_value ← item_of "workflow" value
    workflow ← workflow_from_dict workflow_value
    worker_values ← get_or no_items "workers" value
    listed_workers ← iterated worker_values
    workers ← each worker_from_dict listed_workers
    action_values ← get_or no_items "actions" value
    listed_actions ← iterated action_values
    actions ← each action_from_dict listed_actions
    seed ← get_or (number (pos 0)) "seed" value
    n ← int seed
    note_values ← get_or no_items "notes" value
    notes ← iterated note_values
    pure (record {
      seed = n;
      workflow = workflow;
      worker_specs = workers;
      actions = actions;
      notes = texts notes;
    })

  -- What `load_scenario` makes of the value that it reads
  unfoldable pub loaded : Json → Read GeneratedScenario
  loaded (object d) = scenario_from_dict (object d)
  loaded other = raise (raised (value_error "scenario root must be a JSON object"))

abbrev pub policy_json : RetryPolicy → Json
policy_json p = object (
    entry "max_attempts" (number p.max_attempts) (
      entry "base_delay_ms" (number p.base_delay_ms)
        (entry "max_delay_ms" (number p.max_delay_ms) end)))

abbrev pub task_to_dict : Task → Json
task_to_dict t = object (
    entry "id" (text t.id) (
      entry "depends_on" (array (items text t.depends_on)) (
        entry "labels" (object (entries text t.labels))
          (entry "retry" (policy_json t.retry) (entry "timeout_ms" (number t.timeout_ms) end)))))

abbrev pub worker_to_dict : WorkerSpec → Json
worker_to_dict w = object (
    entry "id" (text w.worker_id)
      (entry "capacity" (number w.capacity) (entry "labels" (object (entries text w.labels)) end)))

abbrev pub workflow_to_dict : GeneratedWorkflow → Json
workflow_to_dict w = object (
    entry "name" (text w.name) (
      entry "metadata" (object (entries text w.metadata))
        (entry "tasks" (array (items task_to_dict w.tasks)) end)))

unfoldable pub scenario_to_dict : GeneratedScenario → Json
scenario_to_dict s = object (
    entry "seed" (number s.seed) (
      entry "workflow" (workflow_to_dict s.workflow) (
        entry "workers" (array (items worker_to_dict s.worker_specs)) (
          entry "actions" (array (items action_json s.actions))
            (entry "notes" (array (items text s.notes)) end)))))
