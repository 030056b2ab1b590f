-- ===== src/Dsl/Literals.antt =====
-- `Lexer._advance` and `Lexer._string` of sdk/python/src/helixgrid/dsl.py: positions and string
-- literals. The index is the text still to read.
use helix_grid.Prelude.{
  ℕ, zero, suc, ◌+◌, ◌-◌, ◌*◌, String, ◌&&◌, ◌||◌, List, [], ◌∷◌, ◌++◌, Option, none, some, leb,
  ◌==◌, if◌then◌else◌, length,
}
use helix_grid.Prelude.Codes.{Codes, is_digit}
use helix_grid.Prelude.Exec.{Result, ok, err}
use helix_grid.Dsl.Types.{DslError, Token}

pub record Position : Type 0 where
  pub line : ℕ
  pub column : ℕ

-- `_advance`, less the index
unfoldable pub move : ℕ → Position → Position
move c p =
    if c == b'\n'
    then record { line = suc p.line; column = 1 }
    else record { line = p.line; column = suc p.column }

-- `for ch in value: self._advance(ch)`
unfoldable pub move_over : Codes → Position → Position
move_over [] p = p
move_over (c ∷ s) p = move_over s (move c p)

abbrev pub token_at : String → Codes → Position → Token
token_at kind value p = record { kind = kind; value = value; line = p.line; column = p.column }

abbrev pub error_at : String → List Codes → Position → DslError
error_at message quoted p = record {
  message = message;
  quoted = quoted;
  line = p.line;
  column = p.column;
}

-- What one round of `tokens` leaves: the token, if any, and where the lexer stands.
pub record Scan : Type 0 where
  pub token : Option Token
  pub rest : Codes
  pub position : Position

abbrev pub hex_digit : ℕ → Option ℕ
hex_digit c =
    if is_digit c
    then some (c - b'0')
    else if leb b'a' c && leb c b'f'
    then some (c - b'a' + 10)
    else if leb b'A' c && leb c b'F'
    then some (c - b'A' + 10)
    else none

abbrev pub add_hex : Option ℕ → Option ℕ → Option ℕ
add_hex none d = none
add_hex (some n) none = none
add_hex (some n) (some d) = some (n * 16 + d)

-- `int(digits, 16)` on the four characters after `\u`, if they are digits
abbrev pub hex_value : ℕ → ℕ → ℕ → ℕ → Option ℕ
hex_value a b c d =
    add_hex (add_hex (add_hex (add_hex (some 0) (hex_digit a)) (hex_digit b)) (hex_digit c))
      (hex_digit d)

-- The table `mapping` of `_string`
abbrev pub escape_code : ℕ → Option ℕ
escape_code c =
    if c == b'n'
    then some b'\n'
    else if c == b'r'
    then some b'\r'
    else if c == b't'
    then some b'\t'
    else if c == b'\\' || c == b'"' || c == b'\''
    then some c
    else none

-- What one round of the loop of `_string` does: it meets the closing quote, it adds a character
-- or it raises.
pub data StringStep : Type 0 where
  closed : Codes → Position → StringStep
  added : ℕ → Codes → Position → StringStep
  failed : DslError → StringStep

abbrev pub decoded : Option ℕ → Codes → Position → Position → StringStep
decoded none s p q = failed (error_at "invalid unicode escape" [] p)
decoded (some n) s p q = added n s q

unfoldable pub unicode_step : Codes → Position → StringStep
unfolding move_over
unicode_step (a ∷ b ∷ c ∷ d ∷ s) p =
    decoded (hex_value a b c d) s p (move_over (a ∷ b ∷ c ∷ d ∷ []) p)
unicode_step s p = failed (error_at "invalid unicode escape" [] p)

unfoldable pub mapped : Option ℕ → ℕ → Codes → Position → StringStep
unfolding move
mapped none c s p = failed (error_at "unknown escape sequence \\{}" ((c ∷ []) ∷ []) p)
mapped (some d) c s p = added d s (move c p)

-- The part of the round after a backslash
unfoldable pub escape_step : DslError → Codes → Position → StringStep
unfolding move unicode_step mapped
escape_step unterminated [] p = failed unterminated
escape_step unterminated (c ∷ s) p =
    if c == b'u' then unicode_step s (move c p) else mapped (escape_code c) c s p

unfoldable pub string_step : DslError → ℕ → Codes → Position → StringStep
unfolding move escape_step
string_step unterminated quote [] p = failed unterminated
string_step unterminated quote (c ∷ s) p =
    if c == quote
    then closed s (move c p)
    else if c == b'\n'
    then failed unterminated
    else if c == b'\\'
    then escape_step unterminated s (move c p)
    else added c s (move c p)

abbrev pub after_step :
    Position
    → Codes
    → (ℕ → Codes → Position → Result DslError Scan)
    → StringStep
    → Result DslError Scan
after_step start out again (failed e) = err e
after_step start out again (closed rest q) =
    ok (record { token = some (token_at "STRING" out start); rest = rest; position = q })
after_step start out again (added c rest q) = again c rest q

-- The loop of `_string`, with the characters so far. A round takes at least one character, so
-- the fuel is never used up before the text is.
unfoldable pub string_body : ℕ → Position → ℕ → Codes → Codes → Position → Result DslError Scan
string_body zero start quote out s p = err (error_at "unterminated string literal" [] start)
string_body (suc fuel) start quote out s p =
    after_step start out (λ c rest q. string_body fuel start quote (out ++ c ∷ []) rest q)
      (string_step (error_at "unterminated string literal" [] start) quote s p)

-- `_string`, at the opening quote
unfoldable pub string : ℕ → Codes → Position → Result DslError Scan
unfolding move string_body string_step
string quote s p = string_body (suc (length s)) p quote [] s (move quote p)
