-- ===== src/Dsl/Graph/Cycles.antt =====
-- `find_cycle` and `topological_order` of sdk/python/src/helixgrid/dsl.py.
use helix_grid.Prelude.{
  ℕ, zero, suc, ◌==◌, List, [], ◌∷◌, ◌++◌, Option, none, some, length, if◌then◌else◌,
}
use helix_grid.Prelude.Codes.{
  Codes, codes, Table, codes_le, find, find_or, has_key, put, remove, table_keys,
}
use helix_grid.Prelude.Sorting.{sort}
use helix_grid.Prelude.Exec.{Result, ok, err}
use helix_grid.Dsl.Types.{DslError, TaskNode}
use helix_grid.Dsl.Graph.{index_tasks, kahn_order}

-- The variables that `visit` shares
pub record Search : Type 0 where
  pub state : Table ℕ
  pub stack : List Codes
  pub positions : Table ℕ

abbrev Found : Type 0
Found = Option (List Codes) × Search

abbrev drop_first : ℕ → List Codes → List Codes
drop_first zero xs = xs
drop_first (suc n) [] = []
drop_first (suc n) (x ∷ xs) = drop_first n xs

abbrev without_last : List Codes → List Codes
without_last [] = []
without_last (x ∷ []) = []
without_last (x ∷ y ∷ xs) = x ∷ without_last (y ∷ xs)

-- The `for dependency in task.depends_on` loop
abbrev visit_each : (Codes → Search → Found) → Table TaskNode → List Codes → Search → Found
visit_each visit by_id [] s = (none, s)
visit_each visit by_id (d ∷ ds) s =
    let rest = visit_each visit by_id ds in
    if has_key d by_id
    then (let found = visit d s in
        elim found.0 [ some cycle ↦ (some cycle, found.1) | none ↦ rest found.1 ])
    else rest s

abbrev dependencies_of : Codes → Table TaskNode → List Codes
dependencies_of id by_id = elim (find id by_id) [ none ↦ [] | some task ↦ task.depends_on ]

abbrev enter : Codes → Search → Search
enter id s = record {
  state = put id 1 s.state;
  stack = s.stack ++ id ∷ [];
  positions = put id (length s.stack) s.positions;
}

abbrev leave : Codes → Search → Search
leave id s = record {
  state = put id 2 s.state;
  stack = without_last s.stack;
  positions = remove id s.positions;
}

-- `visit`. Each nested call has marked one more id, so the depth is at most the number of ids,
-- and one.
unfoldable pub visit : ℕ → Table TaskNode → Codes → Search → Found
visit zero by_id id s = (none, s)
visit (suc fuel) by_id id s =
    let mark = find_or 0 id s.state in
    let found = visit_each (visit fuel by_id) by_id (dependencies_of id by_id) (enter id s) in
    if mark == 2
    then (none, s)
    else if mark == 1
    then (some (drop_first (find_or 0 id s.positions) s.stack ++ id ∷ []), s)
    else elim found.0 [ some cycle ↦ (some cycle, found.1) | none ↦ (none, leave id found.1) ]

abbrev first_cycle : ℕ → Table TaskNode → List Codes → Search → List Codes
unfolding visit
first_cycle fuel by_id [] s = []
first_cycle fuel by_id (id ∷ ids) s =
    let found = visit fuel by_id id s in
    let rest = first_cycle fuel by_id ids in
    elim found.0 [ some cycle ↦ cycle | none ↦ rest found.1 ]

unfoldable pub find_cycle : List TaskNode → List Codes
unfolding visit index_tasks
find_cycle tasks =
    let by_id = index_tasks [] tasks in
    first_cycle (suc (length by_id)) by_id (sort codes_le (table_keys by_id))
      (record { state = []; stack = []; positions = [] })

-- `cycle or ["unknown"]`
abbrev or_unknown : List Codes → List Codes
or_unknown [] = codes "unknown" ∷ []
or_unknown (id ∷ ids) = id ∷ ids

unfoldable pub topological_order : List TaskNode → Result DslError (List Codes)
unfolding kahn_order find_cycle
topological_order tasks =
    let order = kahn_order tasks in
    if length order == length tasks
    then ok order
    else err (record {
      message = "dependency cycle: {}";
      quoted = or_unknown (find_cycle tasks);
      line = 0;
      column = 0;
    })
