-- ===== src/Dsl/Graph/Paths.antt =====
-- `critical_path` and `statistics` of sdk/python/src/helixgrid/dsl.py.
use helix_grid.Prelude.{
  ℕ, zero, suc, ◌+◌, ◌==◌, ltb, max, Bool, true, false, not, ◌&&◌, ◌||◌, List, [], ◌∷◌, ◌++◌,
  Option, none, some, length, if◌then◌else◌,
}
use helix_grid.Prelude.Codes.{Codes, Table, codes_le, same_codes, find, find_or, put}
use helix_grid.Prelude.Int.{ℤ, pos, max_ℕ}
use helix_grid.Prelude.Sorting.{sort}
use helix_grid.Prelude.Exec.{Result, ok, err}
use helix_grid.Dsl.Types.{DslError, TaskNode, WorkflowNode}
use helix_grid.Dsl.Graph.{index_tasks, reverse_edges, estimate_parallelism}
use helix_grid.Dsl.Graph.Cycles.{topological_order}

-- `best_parent` and `best_score`
pub record Best : Type 0 where
  pub parent : Option Codes
  pub score : ℕ

abbrev codes_lt : Codes → Codes → Bool
codes_lt s t = codes_le s t && not (same_codes s t)

abbrev comes_before : Codes → Option Codes → Bool
comes_before d none = true
comes_before d (some p) = codes_lt d p

-- The loop over the sorted dependencies
unfoldable pub best_of : Table ℕ → List Codes → Best → Best
best_of scores [] best = best
best_of scores (d ∷ ds) best =
    let candidate = find_or 0 d scores in
    best_of scores ds (
      if ltb best.score candidate || (candidate == best.score && comes_before d best.parent)
      then record { parent = some d; score = candidate }
      else best)

-- `score` and `parent`, in the order of the tasks
pub record Scores : Type 0 where
  pub score : Table ℕ
  pub parent : Table (Option Codes)

abbrev needs_of : Codes → Table TaskNode → List Codes
needs_of id by_id = elim (find id by_id) [ none ↦ [] | some task ↦ task.depends_on ]

unfoldable pub score_tasks : Table TaskNode → Table ℤ → List Codes → Scores → Scores
unfolding best_of
score_tasks by_id weights [] s = s
score_tasks by_id weights (id ∷ ids) s =
    let best =
      best_of s.score (sort codes_le (needs_of id by_id)) (record { parent = none; score = 0 }) in
    score_tasks by_id weights ids (record {
      score = put id (best.score + max_ℕ 0 (find_or (pos 1) id weights)) s.score;
      parent = put id best.parent s.parent;
    })

-- `min(score, key=lambda task_id: (-score[task_id], task_id))`, against a first choice
unfoldable pub heaviest : Codes × ℕ → Table ℕ → Codes × ℕ
heaviest best [] = best
heaviest best ((k, n) ∷ d) =
    heaviest (if ltb best.1 n || (n == best.1 && codes_lt k best.0) then (k, n) else best) d

-- The walk over `parent` from the end. `none` is a KeyError. The path has at most as many tasks
-- as there are.
unfoldable pub walk : ℕ → Table (Option Codes) → Codes → Option (List Codes)
walk zero parent id = none
walk (suc fuel) parent id = elim (find id parent) [
  | none ↦ none
  | some none ↦ some (id ∷ [])
  | some (some p) ↦ elim (walk fuel parent p) [ none ↦ none | some path ↦ some (path ++ id ∷ []) ]
]

unfoldable pub path_to : Table (Option Codes) → Codes × ℕ → Result DslError (List Codes × ℕ)
unfolding walk
path_to parent end = elim (walk (length parent) parent end.0) [
  | none ↦ err (record { message = "KeyError"; quoted = []; line = 0; column = 0 })
  | some path ↦ ok (path, end.1)
]

abbrev longest : Scores → Result DslError (List Codes × ℕ)
unfolding heaviest path_to
longest s = elim s.score [ [] ↦ ok ([], 0) | e ∷ d ↦ path_to s.parent (heaviest e d) ]

unfoldable pub critical_path : List TaskNode → Table ℤ → Result DslError (List Codes × ℕ)
unfolding topological_order index_tasks score_tasks heaviest path_to
critical_path tasks weights = elim (topological_order tasks) [
  | err e ↦ err e
  | ok order ↦
      longest
        (score_tasks (index_tasks [] tasks) weights order (record { score = []; parent = [] }))
]

pub record Statistics : Type 0 where
  pub name : Codes
  pub tasks : ℕ
  pub edges : ℕ
  pub roots : List Codes
  pub sinks : List Codes
  pub max_indegree : ℕ
  pub max_outdegree : ℕ
  pub topological_order : List Codes
  pub critical_path : List Codes
  pub critical_path_tasks : ℕ
  pub parallelism_upper_bound : ℕ

abbrev has_none : List Codes → Bool
has_none [] = true
has_none (x ∷ xs) = false

-- `[task.id for task in node.tasks if not task.depends_on]`
unfoldable pub root_ids : List TaskNode → List Codes
root_ids [] = []
root_ids (t ∷ ts) = if has_none t.depends_on then t.id ∷ root_ids ts else root_ids ts

-- `[task.id for task in node.tasks if not children.get(task.id)]`
unfoldable pub sink_ids : Table (List Codes) → List TaskNode → List Codes
sink_ids children [] = []
sink_ids children (t ∷ ts) =
    if has_none (find_or [] t.id children)
    then t.id ∷ sink_ids children ts
    else sink_ids children ts

unfoldable pub edge_count : List TaskNode → ℕ
edge_count [] = 0
edge_count (t ∷ ts) = length t.depends_on + edge_count ts

unfoldable pub max_indegree : List TaskNode → ℕ
max_indegree [] = 0
max_indegree (t ∷ ts) = max (length t.depends_on) (max_indegree ts)

unfoldable pub max_outdegree : Table (List Codes) → List TaskNode → ℕ
max_outdegree children [] = 0
max_outdegree children (t ∷ ts) =
    max (length (find_or [] t.id children)) (max_outdegree children ts)

unfoldable pub statistics : WorkflowNode → Result DslError Statistics
unfolding topological_order critical_path reverse_edges root_ids sink_ids edge_count max_indegree
    max_outdegree estimate_parallelism
statistics node = elim (topological_order node.tasks) [
  | err e ↦ err e
  | ok order ↦ elim (critical_path node.tasks []) [
    | err e ↦ err e
    | ok path ↦ ok (record {
      name = node.name;
      tasks = length node.tasks;
      edges = edge_count node.tasks;
      roots = sort codes_le (root_ids node.tasks);
      sinks = sort codes_le (sink_ids (reverse_edges node.tasks) node.tasks);
      max_indegree = max_indegree node.tasks;
      max_outdegree = max_outdegree (reverse_edges node.tasks) node.tasks;
      topological_order = order;
      critical_path = path.0;
      critical_path_tasks = path.1;
      parallelism_upper_bound = estimate_parallelism node;
    })
  ]
]
