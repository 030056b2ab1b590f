-- ===== src/Dsl/Validate.antt =====
-- `validate` and `compile_node` of sdk/python/src/helixgrid/dsl.py.
use helix_grid.Prelude.{
  ℕ, String, text_eq, leb, ltb, ◌==◌, Bool, true, false, not, ◌&&◌, ◌||◌, List, [], ◌∷◌, ◌++◌, none,
  some, length, any, all, keep, if◌then◌else◌,
}
use helix_grid.Prelude.Codes.{Codes, Table, mem_codes, find}
use helix_grid.Prelude.Exec.{Result, ok, err}
use helix_grid.Dsl.Types.{DslError, TaskNode, WorkflowNode, Diagnostic}
use helix_grid.Dsl.Parser.{node_ids, parse}
use helix_grid.Dsl.Graph.{index_tasks, reverse_edges}
use helix_grid.Dsl.Graph.Cycles.{find_cycle, topological_order}
use helix_grid.Dsl.Graph.Paths.{root_ids, sink_ids}

-- `str.isspace` on one character
abbrev pub is_white : ℕ → Bool
is_white c =
    (leb 9 c && leb c 13)
    || (leb 28 c && leb c 32)
    || c == 133
    || c == 160
    || c == 5760
    || (leb 8192 c && leb c 8202)
    || c == 8232
    || c == 8233
    || c == 8239
    || c == 8287
    || c == 12288

abbrev error_of : String → String → List Codes → ℕ → Diagnostic
error_of code message quoted line = record {
  severity = "error";
  code = code;
  message = message;
  quoted = quoted;
  line = line;
}

abbrev warning_of : String → String → List Codes → ℕ → Diagnostic
warning_of code message quoted line = record {
  severity = "warning";
  code = code;
  message = message;
  quoted = quoted;
  line = line;
}

-- The diagnostic if the condition holds
abbrev report : Bool → Diagnostic → List Diagnostic
report test d = if test then d ∷ [] else []

-- `len(set(xs))` against `len(xs)`
unfoldable pub has_repeats : List Codes → Bool
has_repeats [] = false
has_repeats (x ∷ xs) = mem_codes x xs || has_repeats xs

abbrev is_empty_list : {A : Type 0} → List A → Bool
is_empty_list [] = true
is_empty_list (x ∷ xs) = false

-- The loop over `task.depends_on`. `by_id` holds ids of the workflow only.
unfoldable pub unknown_dependencies : List Codes → TaskNode → List Codes → List Diagnostic
unknown_dependencies ids task [] = []
unknown_dependencies ids task (d ∷ ds) =
    report (not (mem_codes d ids))
      (error_of "E104" "task {} references unknown dependency {}" (task.id ∷ d ∷ []) task.line)
    ++ unknown_dependencies ids task ds

-- One round of the loop over the tasks, with the ids met before
unfoldable pub task_diagnostics : List Codes → List Codes → TaskNode → List Diagnostic
unfolding has_repeats unknown_dependencies
task_diagnostics ids seen task =
    report (mem_codes task.id seen)
      (error_of "E100" "duplicate task id {}" (task.id ∷ []) task.line)
    ++ report (is_empty_list task.command)
        (error_of "E101" "task {} has no command" (task.id ∷ []) task.line)
    ++ report (mem_codes task.id task.depends_on)
        (error_of "E102" "task {} depends on itself" (task.id ∷ []) task.line)
    ++ report (has_repeats task.depends_on)
        (error_of "E103" "task {} contains duplicate dependencies" (task.id ∷ []) task.line)
    ++ unknown_dependencies ids task task.depends_on
    ++ report (ltb 86400 task.timeout_seconds)
        (error_of "E105" "task {} timeout exceeds 24 hours" (task.id ∷ []) task.line)
    ++ report (ltb 256 (length task.command))
        (warning_of "W100" "task {} has an unusually long argv" (task.id ∷ []) task.line)
    ++ report (ltb 10 task.retry.max_attempts) (
        warning_of "W101" "task {} retries {} times; this may hide persistent failures"
          (task.id ∷ []) task.line)

unfoldable pub tasks_diagnostics : List Codes → List Codes → List TaskNode → List Diagnostic
unfolding task_diagnostics
tasks_diagnostics ids seen [] = []
tasks_diagnostics ids seen (t ∷ ts) =
    task_diagnostics ids seen t ++ tasks_diagnostics ids (t.id ∷ seen) ts

-- `by_id` of `validate` keeps the first task of an id.
unfoldable pub line_of : ℕ → Codes → List TaskNode → ℕ
line_of default id [] = default
line_of default id (t ∷ ts) = if mem_codes id (t.id ∷ []) then t.line else line_of default id ts

unfoldable pub cycle_diagnostics : WorkflowNode → List Diagnostic
unfolding find_cycle line_of
cycle_diagnostics node = elim (find_cycle node.tasks) [
  | [] ↦ []
  | id ∷ ids ↦
      error_of "E200" "dependency cycle: {}" (id ∷ ids) (line_of node.line id node.tasks) ∷ []
]

unfoldable pub validate : WorkflowNode → List Diagnostic
unfolding tasks_diagnostics cycle_diagnostics root_ids sink_ids reverse_edges
validate node =
    report (all is_white node.name) (error_of "E001" "workflow name may not be empty" [] node.line)
    ++ report (is_empty_list node.tasks) (error_of "E002" "workflow has no tasks" [] node.line)
    ++ tasks_diagnostics (node_ids node.tasks) [] node.tasks
    ++ cycle_diagnostics node
    ++ report (ltb 32 (length (root_ids node.tasks)))
        (warning_of "W200" "workflow has {} independent root tasks" [] node.line)
    ++ report (ltb 16 (length (sink_ids (reverse_edges node.tasks) node.tasks)))
        (warning_of "W201" "workflow has {} terminal branches and no common fan-in" [] node.line)

abbrev pub is_error : Diagnostic → Bool
is_error d = text_eq d.severity "error"

-- `WorkflowDefinition(name, tasks, metadata)`. A task of it has the fields of the parsed one,
-- less the line.
pub record WorkflowDefinition : Type 0 where
  pub name : Codes
  pub tasks : List TaskNode
  pub metadata : Table Codes

-- `by_id[task_id]` for the ids of the order
unfoldable pub pick_tasks : Table TaskNode → List Codes → List TaskNode
pick_tasks by_id [] = []
pick_tasks by_id (id ∷ ids) = elim (find id by_id) [
  | none ↦ pick_tasks by_id ids
  | some t ↦ t ∷ pick_tasks by_id ids
]

-- The `DSLError` of `compile_node` joins the messages of the errors that are kept here.
pub data CompileError : Type 0 where
  invalid : List Diagnostic → CompileError
  refused : DslError → CompileError

unfoldable pub compile_node : WorkflowNode → Result CompileError WorkflowDefinition
unfolding validate topological_order index_tasks pick_tasks
compile_node node =
    if any is_error (validate node)
    then err (CompileError.invalid (keep is_error (validate node)))
    else elim (topological_order node.tasks) [
      | err e ↦ err (CompileError.refused e)
      | ok order ↦ ok (record {
        name = node.name;
        tasks = pick_tasks (index_tasks [] node.tasks) order;
        metadata = node.metadata;
      })
    ]

unfoldable pub compile_source : Codes → Result CompileError WorkflowDefinition
unfolding parse compile_node
compile_source source = elim (parse source) [
  | err e ↦ err (CompileError.refused e)
  | ok node ↦ compile_node node
]
