-- ===== src/Dsl/Examples.antt =====
-- The theorems on the workflow language at concrete sources, and tests of its functions.
use helix_grid.Prelude.{◌≢◌, true, String, ◌≡◌, refl, [], ◌∷◌, ◌++◌, some, arith, All}
use helix_grid.Prelude.Codes.{codes, Codes}
use helix_grid.Prelude.Exec.{ok, err}
use helix_grid.Dsl.Literals.{string, Position, token_at, move_over}
use helix_grid.Dsl.Lexer.{tokens}
use helix_grid.Dsl.Lexer.Ends.{EndsInEof, tokens-EndsInEof}
use helix_grid.Dsl.Lexer.Names.{scan_front, scan_front-quote_if_needed}
use helix_grid.Dsl.Cursor.{is_scalar}
use helix_grid.Dsl.Lexer.Strings.{IsReadable, string-json_text}
use helix_grid.Dsl.Durations.{duration_to_milliseconds, format_duration}
use helix_grid.Dsl.Durations.RoundTrip.{duration_to_milliseconds-format_duration}
use helix_grid.Dsl.Parser.{parse, node_ids}
use helix_grid.Dsl.Parser.Nodes.{IsWellFormed, parse-IsWellFormed}
use helix_grid.Dsl.Format.{quote_if_needed, escaped_text, json_text}
use helix_grid.Dsl.Validate.{validate}
use helix_grid.Dsl.Parser.Fuel.{parse-ends}
use helix_grid.Dsl.Samples.{
  no_command, no_command_tokens, no_command_error, parse-no_command, source, source_tokens,
  source_node, printed_node,
}

tokens-EndsInEof_example : EndsInEof source_tokens
unfolding tokens source_tokens
tokens-EndsInEof_example = tokens-EndsInEof source source_tokens refl

duration_to_milliseconds-format_duration_example :
    duration_to_milliseconds (format_duration 90000) 3 7 ≡ ok 90000
duration_to_milliseconds-format_duration_example =
    duration_to_milliseconds-format_duration 90000 3 7 (omega arith)

parse-IsWellFormed_example : IsWellFormed source_node
unfolding parse source_node
parse-IsWellFormed_example = parse-IsWellFormed source source_node refl

-- A quotation mark, a control character and a line end
abbrev mixed : Codes
mixed = b'a' ∷ b'"' ∷ 27 ∷ b'\n' ∷ []

mixed-IsReadable : All IsReadable mixed
mixed-IsReadable = ground arith

abbrev start : Position
start = record { line = 1; column = 1 }

string-json_text_example :
    string b'"' (escaped_text mixed ++ b'"' ∷ codes " rest") start
    ≡ ok (record {
      token = some (token_at "STRING" mixed start);
      rest = codes " rest";
      position = move_over (json_text mixed) start;
    })
string-json_text_example = string-json_text mixed (codes " rest") start mixed-IsReadable

source_ids : node_ids source_node.tasks ≡ codes "b" ∷ codes "a" ∷ []
unfolding source_node
source_ids = refl

no_errors : validate source_node ≡ []
unfolding validate source_node
no_errors = refl

printed_ids : node_ids printed_node.tasks ≡ codes "b" ∷ codes "a" ∷ []
unfolding printed_node
printed_ids = refl

scan_front-quote_if_needed_example :
    (kind : String) × (is_scalar kind ≡ true)
    × (scan_front (quote_if_needed mixed ++ b' ' ∷ codes "{") start
        ≡ ok (record {
          token = some (token_at kind mixed start);
          rest = b' ' ∷ codes "{";
          position = move_over (quote_if_needed mixed) start;
        }))
scan_front-quote_if_needed_example =
    scan_front-quote_if_needed mixed (codes "{") b' ' start mixed-IsReadable refl

parse-ends_example : ◌≢◌ {A = String} "task {} is missing a run command" "out of fuel"
unfolding tokens no_command_tokens
parse-ends_example = parse-ends no_command no_command_tokens no_command_error refl parse-no_command

-- A backspace is printed by an escape that the lexer does not know.
backspace_refused :
    string b'"' (escaped_text (8 ∷ []) ++ b'"' ∷ []) start
    ≡ err (record {
      message = "unknown escape sequence \\{}";
      quoted = (b'b' ∷ []) ∷ [];
      line = 1;
      column = 3;
    })
unfolding string
backspace_refused = refl
