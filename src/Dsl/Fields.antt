-- ===== src/Dsl/Fields.antt =====
-- `Parser._retry_policy`, `Parser._command` and the fields of a task in `Parser._parse_task`, of
-- sdk/python/src/helixgrid/dsl.py.
pub mod Progress
use helix_grid.Prelude.{
  ℕ, zero, suc, String, text_eq, mem_text, Bool, not, ◌||◌, List, [], ◌∷◌, Option, none, some, ltb,
  if◌then◌else◌,
}
use helix_grid.Prelude.Codes.{Codes, codes, Table, has_key, put, number}
use helix_grid.Prelude.Exec.{Result, ok, err, pure, raise, ◌>>=◌, ◌>>◌}
use helix_grid.Dsl.Types.{DslError, Retry, default_retry, TaskNode}
use helix_grid.Dsl.Durations.{duration_to_milliseconds, duration_to_seconds}
use helix_grid.Dsl.Shell.{split}
use helix_grid.Dsl.Cursor.{Parse, advance, kind, fail, expect, scalar, list_of_scalars, left}

-- A result as the code hands it on: a `DSLError` is raised again.
abbrev pub from_result : {A : Type 0} → Result DslError A → Parse A
from_result (ok a) = pure a
from_result (err e) = raise e

unfoldable pub milliseconds : Parse ℕ
unfolding expect duration_to_milliseconds
milliseconds = do
  t ← expect "DURATION"
  from_result (duration_to_milliseconds t.value t.line t.column)

unfoldable pub whole_seconds : Parse ℕ
unfolding expect duration_to_seconds
whole_seconds = do t ← expect "DURATION"; from_result (duration_to_seconds t.value t.line t.column)

-- The value of the option `key`, put into the policy so far
unfoldable pub retry_option : String → Retry → Parse Retry
unfolding expect milliseconds
retry_option key retry =
    if text_eq key "attempts"
    then (do t ← expect "INTEGER"; pure (record retry { max_attempts = number t.value }))
    else (do
      ms ← milliseconds
      pure (
          if text_eq key "base"
          then record retry { base_delay_ms = ms }
          else record retry { max_delay_ms = ms }))

abbrev pub skip_comma : Parse Unit
skip_comma = do k ← kind; if text_eq k "," then advance else pure tt

abbrev pub ends_retry : String → Bool
ends_retry k = mem_text k ("NEWLINE" ∷ "}" ∷ "EOF" ∷ [])

abbrev pub is_retry_option : String → Bool
is_retry_option k = mem_text k ("attempts" ∷ "base" ∷ "max" ∷ [])

-- The loop of `_retry_policy`, with the options already met. Every round takes a token.
unfoldable pub retry_options : ℕ → List String → Retry → Parse Retry
unfolding expect retry_option
retry_options zero consumed retry = fail "out of fuel" []
retry_options (suc fuel) consumed retry = do
  key ← kind
  if ends_retry key
      then pure retry
      else if not (is_retry_option key)
      then fail "retry expects attempts/base/max options" []
      else if mem_text key consumed
      then fail "retry option {} appears twice" (codes key ∷ [])
      else (do
        advance
        equals ← expect "="
        next ← retry_option key retry
        skip_comma
        retry_options fuel (key ∷ consumed) next)

unfoldable pub check_retry : Retry → Parse Retry
check_retry retry =
    if ltb retry.max_attempts 1 || ltb 100 retry.max_attempts
    then fail "retry attempts must be between 1 and 100" []
    else if ltb retry.base_delay_ms 1
    then fail "retry base delay must be positive" []
    else if ltb retry.max_delay_ms retry.base_delay_ms
    then fail "retry max delay cannot be smaller than base delay" []
    else pure retry

unfoldable pub retry_policy : Parse Retry
unfolding retry_options check_retry
retry_policy = do fuel ← left; retry ← retry_options fuel [] default_retry; check_retry retry

abbrev pub shell_command : Option (List Codes) → Parse (List Codes)
shell_command none = fail "invalid shell-style command: {}" []
shell_command (some []) = fail "run command may not be empty" []
shell_command (some (w ∷ ws)) = pure (w ∷ ws)

unfoldable pub parse_command : Parse (List Codes)
unfolding list_of_scalars scalar split
parse_command = do
  k ← kind
  if text_eq k "["
      then list_of_scalars "command argument"
      else (do value ← scalar "command"; shell_command (split value))

-- `name = value`, added to a table that has no such name yet
unfoldable pub named_value : String → String → String → Table Codes → Parse (Table Codes)
unfolding scalar expect
named_value name_of value_of duplicate table = do
  name ← scalar name_of
  equals ← expect "="
  value ← scalar value_of
  if has_key name table then fail duplicate (name ∷ []) else pure (put name value table)

-- The `if` chain over the field's name, up to the end of its line
unfoldable pub field : String → TaskNode → Parse TaskNode
unfolding parse_command list_of_scalars named_value whole_seconds retry_policy
field key task =
    if text_eq key "run"
    then (do advance; command ← parse_command; pure (record task { command = command }))
    else if text_eq key "needs"
    then (do
      advance
      names ← list_of_scalars "dependency"
      pure (record task { depends_on = names }))
    else if text_eq key "env"
    then (do
      advance
      env ←
          named_value "environment variable name" "environment variable value"
            "duplicate environment variable {}" task.env
      pure (record task { env = env }))
    else if text_eq key "labels"
    then (do
      advance
      labels ← named_value "label name" "label value" "duplicate label {}" task.labels
      pure (record task { labels = labels }))
    else if text_eq key "timeout"
    then (do advance; seconds ← whole_seconds; pure (record task { timeout_seconds = seconds }))
    else if text_eq key "retry"
    then (do advance; retry ← retry_policy; pure (record task { retry = retry }))
    else fail "unknown task field" []

-- `env` and `labels` may stand more than once.
abbrev pub is_repeatable : String → Bool
is_repeatable key = mem_text key ("env" ∷ "labels" ∷ [])

abbrev pub note_field : String → List String → List String
note_field key seen = if is_repeatable key then seen else key ∷ seen
