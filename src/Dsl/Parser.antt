-- ===== src/Dsl/Parser.antt =====
-- `Parser.parse`, `Parser._parse_meta` and `Parser._parse_task` of
-- sdk/python/src/helixgrid/dsl.py, and `parse`.
pub mod Tasks
pub mod Nodes
pub mod Fuel
use helix_grid.Prelude.{
  ℕ, zero, suc, String, text_eq, mem_text, Bool, not, ◌&&◌, List, [], ◌∷◌, ◌++◌, if◌then◌else◌,
  length, ◌==◌,
}
use helix_grid.Prelude.Codes.{Codes, codes, mem_codes, has_key, put}
use helix_grid.Prelude.Exec.{Result, ok, err, pure, raise, gets, ◌>>=◌, ◌>>◌}
use helix_grid.Dsl.Types.{DslError, Token, TaskNode, empty_task, WorkflowNode}
use helix_grid.Dsl.Lexer.{tokens}
use helix_grid.Dsl.Cursor.{Cursor, Parse, kind, fail, expect, skip_newlines, line_end, scalar, left}
use helix_grid.Dsl.Fields.{field, is_repeatable, note_field}

-- The loop of `_parse_task`. A round takes at least the field's name.
unfoldable pub task_fields : ℕ → List String → TaskNode → Parse TaskNode
unfolding field line_end skip_newlines
task_fields zero seen task = fail "out of fuel" []
task_fields (suc fuel) seen task = do
  key ← kind
  if text_eq key "}"
      then pure task
      else if text_eq key "EOF"
      then fail "unterminated task {}" (task.id ∷ [])
      else if mem_text key seen && not (is_repeatable key)
      then fail "task field {} appears more than once" (codes key ∷ [])
      else (do
        next ← field key task
        line_end
        skip_newlines
        task_fields fuel (note_field key seen) next)

abbrev pub with_command : TaskNode → Parse TaskNode
with_command task =
    if length task.command == 0
    then raise (record {
      message = "task {} is missing a run command";
      quoted = task.id ∷ [];
      line = task.line;
      column = 0;
    })
    else pure task

unfoldable pub parse_task : Parse TaskNode
unfolding task_fields scalar expect skip_newlines
parse_task = do
  token ← expect "task"
  id ← scalar "task id"
  skip_newlines
  brace ← expect "{"
  skip_newlines
  fuel ← left
  task ← task_fields fuel [] (empty_task id token.line)
  close ← expect "}"
  with_command task

unfoldable pub parse_meta : WorkflowNode → Parse WorkflowNode
unfolding line_end scalar expect
parse_meta workflow = do
  token ← expect "meta"
  key ← scalar "metadata key"
  equals ← expect "="
  value ← scalar "metadata value"
  if has_key key workflow.metadata
      then raise (record {
        message = "duplicate metadata key {}";
        quoted = key ∷ [];
        line = token.line;
        column = token.column;
      })
      else (do line_end; pure (record workflow { metadata = put key value workflow.metadata }))

abbrev pub node_ids : List TaskNode → List Codes
node_ids [] = []
node_ids (t ∷ ts) = t.id ∷ node_ids ts

-- A task after those of the workflow. `task_ids` holds their ids.
unfoldable pub add_task : WorkflowNode → TaskNode → Parse WorkflowNode
add_task workflow task =
    if mem_codes task.id (node_ids workflow.tasks)
    then raise (record {
      message = "duplicate task id {}";
      quoted = task.id ∷ [];
      line = task.line;
      column = 0;
    })
    else pure (record workflow { tasks = workflow.tasks ++ task ∷ [] })

unfoldable pub entry : String → WorkflowNode → Parse WorkflowNode
unfolding parse_meta parse_task add_task
entry key workflow =
    if text_eq key "meta"
    then parse_meta workflow
    else if text_eq key "task"
    then (do task ← parse_task; add_task workflow task)
    else fail "expected 'meta', 'task', or '}'" []

-- The loop of `parse`. A round takes at least the entry's first token.
unfoldable pub entries : ℕ → WorkflowNode → Parse WorkflowNode
unfolding entry skip_newlines
entries zero workflow = fail "out of fuel" []
entries (suc fuel) workflow = do
  key ← kind
  if text_eq key "}"
      then pure workflow
      else if text_eq key "EOF"
      then fail "unterminated workflow block" []
      else (do next ← entry key workflow; skip_newlines; entries fuel next)

-- `Parser.parse`
unfoldable pub parse_tokens : Parse WorkflowNode
unfolding entries expect scalar skip_newlines
parse_tokens = do
  skip_newlines
  start ← expect "workflow"
  name ← scalar "workflow name"
  skip_newlines
  brace ← expect "{"
  skip_newlines
  fuel ← left
  workflow ← entries fuel (record { name = name; line = start.line; metadata = []; tasks = [] })
  close ← expect "}"
  skip_newlines
  end ← expect "EOF"
  pure workflow

-- `Parser(tokens).parse()`. The lexer yields at least the token EOF.
abbrev pub parse_all : Result DslError (List Token) → Result DslError WorkflowNode
parse_all (err e) = err e
parse_all (ok []) = err (record { message = "no tokens"; quoted = []; line = 0; column = 0 })
parse_all (ok (t ∷ ts)) = (parse_tokens (record { current = t; rest = ts })).0

unfoldable pub parse : Codes → Result DslError WorkflowNode
unfolding tokens parse_tokens
parse source = parse_all (tokens source)
