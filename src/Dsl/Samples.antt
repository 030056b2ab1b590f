-- ===== src/Dsl/Samples.antt =====
-- Test data: a small workflow in the language, its tokens and what is computed from it.
use helix_grid.Prelude.{List, [], ◌∷◌, ◌≡◌, refl}
use helix_grid.Prelude.Codes.{codes, Codes}
use helix_grid.Prelude.Exec.{Result, ok, err, ◌>>=◌}
use helix_grid.Dsl.Types.{DslError, Token, WorkflowNode}
use helix_grid.Dsl.Lexer.{tokens}
use helix_grid.Dsl.Parser.{parse}
use helix_grid.Dsl.Format.{format_source}

abbrev pub source : Codes
source =
    codes
      "workflow w { # two tasks\n  task b { needs [a] run [z, \"q\\u0041\"] }\n  task a {\n    run 'x \"y z\"'\n    retry attempts=2, base=1s max=5s\n    timeout 5m\n  }\n}\n"

abbrev token_list : Result DslError (List Token) → List Token
token_list (ok ts) = ts
token_list (err e) = []

unfoldable pub source_tokens : List Token
unfolding tokens
source_tokens = token_list (tokens source)

abbrev or_empty : Result DslError WorkflowNode → WorkflowNode
or_empty (ok node) = node
or_empty (err e) = record { name = []; line = 0; metadata = []; tasks = [] }

unfoldable pub source_node : WorkflowNode
unfolding parse ◌>>=◌
source_node = or_empty (parse source)

-- A source that the parser refuses
abbrev pub no_command : Codes
no_command = codes "workflow w { task a { timeout 5m } }"

-- The printed workflow is read back.
unfoldable pub printed_node : WorkflowNode
unfolding parse format_source source_node ◌>>=◌
printed_node = or_empty (parse (format_source source_node))

unfoldable pub no_command_tokens : List Token
unfolding tokens
no_command_tokens = token_list (tokens no_command)

abbrev pub no_command_error : DslError
no_command_error = record {
  message = "task {} is missing a run command";
  quoted = codes "a" ∷ [];
  line = 1;
  column = 0;
}

pub parse-no_command : parse no_command ≡ err no_command_error
unfolding parse ◌>>=◌
parse-no_command = refl
