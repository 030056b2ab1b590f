-- ===== src/Dsl/Graph.antt =====
-- `reverse_edges`, `topological_order` and `estimate_parallelism` of
-- sdk/python/src/helixgrid/dsl.py. A counter of `indegree` that would fall below 0, as two tasks
-- of one id can make it, stays at 0 here: the code asks only whether it has come to 0, which it
-- does from 1.
pub mod Cycles
pub mod Paths
use helix_grid.Prelude.{
  ℕ, zero, suc, ◌+◌, ◌-◌, ◌==◌, max, Bool, List, [], ◌∷◌, ◌++◌, Option, none, some, length, keep,
  if◌then◌else◌,
}
use helix_grid.Prelude.Codes.{Codes, Table, codes_le, find_or, has_key, put, adjust, table_keys}
use helix_grid.Prelude.Sorting.{sort}
use helix_grid.Dsl.Types.{TaskNode, WorkflowNode}

-- `{task.id: task for task in node.tasks}`: a later task takes the place of an earlier one.
unfoldable pub index_tasks : Table TaskNode → List TaskNode → Table TaskNode
index_tasks d [] = d
index_tasks d (t ∷ ts) = index_tasks (put t.id t d) ts

-- `children[dependency].append(task.id)` on a `defaultdict`
unfoldable pub add_child : Codes → Table (List Codes) → Codes → Table (List Codes)
add_child child children dependency =
    if has_key dependency children
    then adjust dependency (λ cs. cs ++ child ∷ []) children
    else put dependency (child ∷ []) children

unfoldable pub add_edges : Codes → List Codes → Table (List Codes) → Table (List Codes)
unfolding add_child
add_edges child [] children = children
add_edges child (d ∷ ds) children = add_edges child ds (add_child child children d)

-- `children.setdefault(task.id, [])`
abbrev pub with_default : Codes → Table (List Codes) → Table (List Codes)
with_default k d = if has_key k d then d else put k [] d

unfoldable pub collect_edges : List TaskNode → Table (List Codes) → Table (List Codes)
unfolding add_edges
collect_edges [] children = children
collect_edges (t ∷ ts) children =
    collect_edges ts (add_edges t.id t.depends_on (with_default t.id children))

abbrev pub sort_values : Table (List Codes) → Table (List Codes)
sort_values [] = []
sort_values ((k, v) ∷ d) = (k, sort codes_le v) ∷ sort_values d

unfoldable pub reverse_edges : List TaskNode → Table (List Codes)
unfolding collect_edges
reverse_edges tasks = sort_values (collect_edges tasks [])

abbrev pub is_known : Table TaskNode → Codes → Bool
is_known by_id d = has_key d by_id

abbrev pub zeros : Table TaskNode → Table ℕ
zeros [] = []
zeros ((k, t) ∷ d) = (k, 0) ∷ zeros d

-- `indegree`: the known dependencies of the tasks with an id
unfoldable pub count_known : Table TaskNode → List TaskNode → Table ℕ → Table ℕ
count_known by_id [] degrees = degrees
count_known by_id (t ∷ ts) degrees =
    count_known by_id ts
      (adjust t.id (λ n. n + length (keep (is_known by_id) t.depends_on)) degrees)

abbrev pub without_degree : Table ℕ → List Codes
without_degree [] = []
without_degree ((k, n) ∷ d) = if n == 0 then k ∷ without_degree d else without_degree d

-- `indegree[child] -= 1` for the children, and those that come to 0
unfoldable pub lower : List Codes → Table ℕ → List Codes → Table ℕ × List Codes
lower [] degrees ready = (degrees, ready)
lower (c ∷ cs) degrees ready =
    let lowered = adjust c (λ n. n - 1) degrees in
    lower cs lowered (if find_or 0 c degrees == 1 then ready ++ c ∷ [] else ready)

-- The `while ready` loop. The list is sorted after each child in the code; it is read only after
-- the last. Every task is ready at most once, so as many rounds suffice as there are ids.
unfoldable pub order_from : ℕ → Table (List Codes) → Table ℕ → List Codes → List Codes
unfolding lower
order_from zero children degrees ready = []
order_from (suc fuel) children degrees [] = []
order_from (suc fuel) children degrees (current ∷ ready) =
    let (left, next) = lower (find_or [] current children) degrees ready in
    current ∷ order_from fuel children left (sort codes_le next)

-- What `topological_order` returns or counts before it raises
unfoldable pub kahn_order : List TaskNode → List Codes
unfolding index_tasks reverse_edges count_known order_from
kahn_order tasks =
    let by_id = index_tasks [] tasks in
    let degrees = count_known by_id tasks (zeros by_id) in
    order_from (length by_id) (reverse_edges tasks) degrees (sort codes_le (without_degree degrees))

-- One wave: the children of all its tasks, in order
unfoldable pub lower_wave :
    Table (List Codes) → List Codes → Table ℕ → List Codes → Table ℕ × List Codes
unfolding lower
lower_wave children [] degrees ready = (degrees, ready)
lower_wave children (current ∷ wave) degrees ready =
    let (left, next) = lower (find_or [] current children) degrees ready in
    lower_wave children wave left next

unfoldable pub widest : ℕ → Table (List Codes) → Table ℕ → List Codes → ℕ → ℕ
unfolding lower_wave
widest zero children degrees ready maximum = maximum
widest (suc fuel) children degrees [] maximum = maximum
widest (suc fuel) children degrees (r ∷ rs) maximum =
    let (left, next) = lower_wave children (r ∷ rs) degrees [] in
    widest fuel children left (sort codes_le next) (max maximum (length next))

-- `{task.id: len([…]) for task in node.tasks}`: here a later task replaces the count.
unfoldable pub own_degrees : Table TaskNode → Table TaskNode → Table ℕ
own_degrees by_id [] = []
own_degrees by_id ((k, t) ∷ d) =
    (k, length (keep (is_known by_id) t.depends_on)) ∷ own_degrees by_id d

unfoldable pub estimate_parallelism : WorkflowNode → ℕ
unfolding index_tasks reverse_edges own_degrees widest
estimate_parallelism node =
    let by_id = index_tasks [] node.tasks in
    let degrees = own_degrees by_id by_id in
    let ready = sort codes_le (without_degree degrees) in
    widest (length by_id) (reverse_edges node.tasks) degrees ready (length ready)
