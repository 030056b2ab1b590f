-- ===== src/Dsl/Format.antt =====
-- `format_source` and `quote_if_needed` of sdk/python/src/helixgrid/dsl.py, with Python's
-- `json.dumps` on a text (`ensure_ascii=False`).
use helix_grid.Prelude.{
  ℕ, ◌+◌, ◌-◌, ◌*◌, ◌/◌, ◌%◌, ltb, ◌==◌, Bool, true, false, not, ◌&&◌, List, [], ◌∷◌, ◌++◌, text_eq,
  all, if◌then◌else◌,
}
use helix_grid.Prelude.Codes.{Codes, codes, Table, codes_le, joined, same_codes, table_keys}
use helix_grid.Prelude.Sorting.{sort}
use helix_grid.Dsl.Types.{TaskNode, WorkflowNode, Retry, default_retry, same_retry}
use helix_grid.Dsl.Lexer.{starts_word, in_word, word_kind}
use helix_grid.Dsl.Durations.{digits, format_duration}

abbrev pub hex_code : ℕ → ℕ
hex_code n = if ltb n 10 then b'0' + n else b'a' + (n - 10)

-- One character in a JSON text
abbrev pub escaped : ℕ → Codes
escaped c =
    if c == b'"'
    then b'\\' ∷ b'"' ∷ []
    else if c == b'\\'
    then b'\\' ∷ b'\\' ∷ []
    else if c == b'\n'
    then b'\\' ∷ b'n' ∷ []
    else if c == b'\r'
    then b'\\' ∷ b'r' ∷ []
    else if c == b'\t'
    then b'\\' ∷ b't' ∷ []
    else if c == 8
    then b'\\' ∷ b'b' ∷ []
    else if c == 12
    then b'\\' ∷ b'f' ∷ []
    else if ltb c 32
    then b'\\' ∷ b'u' ∷ b'0' ∷ b'0' ∷ hex_code (c / 16) ∷ hex_code (c % 16) ∷ []
    else c ∷ []

abbrev pub escaped_text : Codes → Codes
escaped_text [] = []
escaped_text (c ∷ s) = escaped c ++ escaped_text s

-- `json.dumps(s, ensure_ascii=False)`
unfoldable pub json_text : Codes → Codes
json_text s = b'"' ∷ escaped_text s ++ b'"' ∷ []

-- The full match of `_IDENT_RE`
abbrev pub is_identifier : Codes → Bool
is_identifier [] = false
is_identifier (c ∷ s) = starts_word c && all in_word s

unfoldable pub quote_if_needed : Codes → Codes
unfolding json_text
quote_if_needed value =
    if is_identifier value && text_eq (word_kind value) "IDENT" then value else json_text value

abbrev table_value : Codes → Table Codes → Codes
table_value k [] = []
table_value k ((j, v) ∷ d) = if same_codes j k then v else table_value k d

-- `{word} {key} = {value}` for the sorted keys
unfoldable pub table_lines : Codes → Table Codes → List Codes → List Codes
unfolding quote_if_needed json_text
table_lines word table [] = []
table_lines word table (k ∷ ks) =
    (word ++ quote_if_needed k ++ codes " = " ++ json_text (table_value k table))
    ∷ table_lines word table ks

abbrev sorted_keys : Table Codes → List Codes
sorted_keys d = sort codes_le (table_keys d)

abbrev map_text : (Codes → Codes) → List Codes → List Codes
map_text f [] = []
map_text f (x ∷ xs) = f x ∷ map_text f xs

abbrev bracketed : Codes → List Codes → Codes
bracketed word values = word ++ joined (codes ", ") values ++ codes "]"

abbrev has_items : {A : Type 0} → List A → Bool
has_items [] = false
has_items (x ∷ xs) = true

-- The lines that a condition asks for
abbrev lines_if : Bool → List Codes → List Codes
lines_if test ls = if test then ls else []

unfoldable pub retry_line : Retry → Codes
unfolding digits format_duration
retry_line retry =
    codes "    retry attempts="
    ++ digits retry.max_attempts
    ++ codes ", base="
    ++ format_duration retry.base_delay_ms
    ++ codes ", max="
    ++ format_duration retry.max_delay_ms

unfoldable pub task_lines : TaskNode → List Codes
unfolding quote_if_needed json_text table_lines format_duration retry_line
task_lines task =
    (codes "  task " ++ quote_if_needed task.id ++ codes " {")
      ∷ bracketed (codes "    run [") (map_text json_text task.command)
      ∷ lines_if (has_items task.depends_on)
          (bracketed (codes "    needs [") (map_text quote_if_needed task.depends_on) ∷ [])
    ++ table_lines (codes "    env ") task.env (sorted_keys task.env)
    ++ table_lines (codes "    labels ") task.labels (sorted_keys task.labels)
    ++ lines_if (not (task.timeout_seconds == 0))
        ((codes "    timeout " ++ format_duration (task.timeout_seconds * 1000)) ∷ [])
    ++ lines_if (not (same_retry task.retry default_retry)) (retry_line task.retry ∷ [])
    ++ codes "  }" ∷ []

-- An empty line stands between two tasks.
unfoldable pub tasks_lines : List TaskNode → List Codes
unfolding task_lines
tasks_lines [] = []
tasks_lines (t ∷ ts) = task_lines t ++ lines_if (has_items ts) ([] ∷ []) ++ tasks_lines ts

unfoldable pub format_source : WorkflowNode → Codes
unfolding quote_if_needed table_lines tasks_lines
format_source node =
    let lines =
      (codes "workflow " ++ quote_if_needed node.name ++ codes " {")
        ∷ table_lines (codes "  meta ") node.metadata (sorted_keys node.metadata)
      ++ lines_if (has_items node.metadata && has_items node.tasks) ([] ∷ [])
      ++ tasks_lines node.tasks
      ++ codes "}" ∷ [] in
    joined (codes "\n") lines ++ codes "\n"
