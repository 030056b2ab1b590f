-- ===== src/Dsl/Lexer.antt =====
-- The class `Lexer` of sdk/python/src/helixgrid/dsl.py. The index is the text still to read, and
-- `tokens` comes as the whole list, as `parse` takes it.
pub mod Strings
pub mod Ends
pub mod Names
use helix_grid.Prelude.{
  ℕ, zero, suc, ◌+◌, ◌-◌, ◌*◌, String, Bool, true, false, not, ◌&&◌, ◌||◌, List, [], ◌∷◌, ◌++◌,
  Option, none, some, leb, ◌==◌, if◌then◌else◌, any, all, length,
}
use helix_grid.Prelude.Codes.{Codes, codes, same_codes, leading, after, is_digit}
use helix_grid.Prelude.Exec.{Result, ok, err}
use helix_grid.Dsl.Types.{DslError, Token}
use helix_grid.Dsl.Literals.{
  Position, Scan, StringStep, add_hex, added, after_step, closed, decoded, error_at, escape_code,
  escape_step, failed, hex_digit, hex_value, mapped, move, move_over, string, string_body,
  string_step, token_at, unicode_step,
}

abbrev pub keywords : List String
keywords =
    "workflow" ∷ "meta" ∷ "task" ∷ "run" ∷ "needs" ∷ "env" ∷ "labels" ∷ "timeout" ∷ "retry"
    ∷ "attempts" ∷ "base" ∷ "max" ∷ []

abbrev pub kind_among : List String → Codes → String
kind_among [] value = "IDENT"
kind_among (w ∷ ws) value = if same_codes value (codes w) then w else kind_among ws value

-- `value if value in _KEYWORDS else "IDENT"`
abbrev pub word_kind : Codes → String
word_kind value = kind_among keywords value

abbrev pub is_letter : ℕ → Bool
is_letter c = (leb b'A' c && leb c b'Z') || (leb b'a' c && leb c b'z')

abbrev pub starts_word : ℕ → Bool
starts_word c = is_letter c || c == b'_'

abbrev pub in_word : ℕ → Bool
in_word c = starts_word c || is_digit c || c == b'.' || c == b':' || c == b'-'

abbrev pub is_blank : ℕ → Bool
is_blank c = c == b' ' || c == b'\t' || c == b'\r'

-- The kind of a token that is one character, as its text
abbrev pub punctuation : ℕ → Option String
punctuation c =
    if c == b'{'
    then some "{"
    else if c == b'}'
    then some "}"
    else if c == b'['
    then some "["
    else if c == b']'
    then some "]"
    else if c == b'='
    then some "="
    else if c == b','
    then some ","
    else none

abbrev pub is_quote : ℕ → Bool
is_quote c = c == b'"' || c == b'\''

abbrev pub is_line_end : ℕ → Bool
is_line_end c = c == b'\n'

-- The unit at the front of a text, `ms` before `m`
abbrev pub unit_at : Codes → Option Codes
unit_at [] = none
unit_at (c ∷ []) = if c == b's' || c == b'm' || c == b'h' then some (c ∷ []) else none
unit_at (c ∷ d ∷ s) =
    if c == b'm' && d == b's'
    then some (c ∷ d ∷ [])
    else if c == b's' || c == b'm' || c == b'h'
    then some (c ∷ [])
    else none

abbrev pub drop_codes : Codes → Codes → Codes
drop_codes [] s = s
drop_codes (c ∷ cs) [] = []
drop_codes (c ∷ cs) (d ∷ s) = drop_codes cs s

-- A token of kind `kind` over the first characters `value` of the text
unfoldable pub take_token : String → Codes → Codes → Position → Scan
unfolding move_over
take_token kind value s p = record {
  token = some (token_at kind value p);
  rest = drop_codes value s;
  position = move_over value p;
}

-- A duration, if a unit follows the digits, and else an integer
unfoldable pub number_token : Codes → Option Codes → Codes → Position → Scan
unfolding take_token
number_token digits (some u) text p = take_token "DURATION" (digits ++ u) text p
number_token digits none text p = take_token "INTEGER" digits text p

unfoldable pub word_token : Codes → Codes → Position → Scan
unfolding take_token
word_token value text p = take_token (word_kind value) value text p

-- A number, a word or an error
unfoldable pub scan_word : ℕ → Codes → Position → Result DslError Scan
unfolding number_token word_token
scan_word c s p =
    let text = c ∷ s in
    if is_digit c
    then ok (number_token (leading is_digit text) (unit_at (after is_digit text)) text p)
    else if starts_word c
    then ok (word_token (leading in_word text) text p)
    else err (error_at "unexpected character {}" ((c ∷ []) ∷ []) p)

abbrev pub is_in_comment : ℕ → Bool
is_in_comment c = not (is_line_end c)

unfoldable pub scan_other : Option String → ℕ → Codes → Position → Result DslError Scan
unfolding string scan_word take_token
scan_other (some kind) c s p = ok (take_token kind (c ∷ []) (c ∷ s) p)
scan_other none c s p = if is_quote c then string c s p else scan_word c s p

-- One round of the loop of `tokens`, at the character `c`
unfoldable pub scan : ℕ → Codes → Position → Result DslError Scan
unfolding move move_over scan_other take_token
scan c s p =
    if is_blank c
    then ok (record { token = none; rest = s; position = move c p })
    else if c == b'\n'
    then ok (take_token "NEWLINE" (c ∷ []) (c ∷ s) p)
    else if c == b'#'
    then ok (record {
      token = none;
      rest = after is_in_comment s;
      position = move_over (leading is_in_comment s) (move c p);
    })
    else scan_other (punctuation c) c s p

abbrev pub add_token : Option Token → List Token → List Token
add_token none ts = ts
add_token (some t) ts = t ∷ ts

abbrev pub then_tokens : Option Token → Result DslError (List Token) → Result DslError (List Token)
then_tokens token (err e) = err e
then_tokens token (ok ts) = ok (add_token token ts)

abbrev pub after_scan :
    (Codes → Position → Result DslError (List Token))
    → Result DslError Scan
    → Result DslError (List Token)
after_scan again (err e) = err e
after_scan again (ok x) = then_tokens x.token (again x.rest x.position)

-- The loop of `tokens`. A round takes at least one character.
unfoldable pub lex : ℕ → Codes → Position → Result DslError (List Token)
unfolding scan
lex fuel [] p = ok (token_at "EOF" [] p ∷ [])
lex zero (c ∷ s) p = ok []
lex (suc fuel) (c ∷ s) p = after_scan (λ rest q. lex fuel rest q) (scan c s p)

unfoldable pub tokens : Codes → Result DslError (List Token)
unfolding lex
tokens source = lex (length source) source (record { line = 1; column = 1 })
