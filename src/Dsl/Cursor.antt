-- ===== src/Dsl/Cursor.antt =====
-- The methods of `Parser` in sdk/python/src/helixgrid/dsl.py that read tokens: `current`,
-- `_advance`, `_error`, `_expect`, `_skip_newlines`, `_line_end`, `_scalar` and
-- `_list_of_scalars`. The index is the current token with those after it.
pub mod Progress
use helix_grid.Prelude.{
  ℕ, zero, suc, String, text_eq, mem_text, Bool, ◌||◌, List, [], ◌∷◌, ◌++◌, if◌then◌else◌, length,
}
use helix_grid.Prelude.Codes.{Codes, codes}
use helix_grid.Prelude.Exec.{Exec, pure, raise, gets, modify, ◌>>=◌, ◌>>◌}
use helix_grid.Dsl.Types.{DslError, Token}
use helix_grid.Dsl.Lexer.{keywords}

pub record Cursor : Type 0 where
  pub current : Token
  pub rest : List Token

abbrev pub Parse : Type 0 → Type 0
Parse = Exec Cursor DslError

-- `_advance` stays at the last token.
abbrev pub step_on : Cursor → Cursor
step_on c = elim c.rest [ [] ↦ c | t ∷ ts ↦ record { current = t; rest = ts } ]

abbrev pub advance : Parse Unit
advance = modify step_on

abbrev pub kind : Parse String
kind = gets (λ c. c.current.kind)

-- `_error`, at the current token
abbrev pub fail : {A : Type 0} → String → List Codes → Parse A
fail message quoted = do
  t ← gets (λ c. c.current)
  raise (record { message = message; quoted = quoted; line = t.line; column = t.column })

unfoldable pub expect : String → Parse Token
expect wanted = do
  t ← gets (λ c. c.current)
  if text_eq t.kind wanted
      then (do advance; pure t)
      else fail "expected {}, got {}" (codes wanted ∷ codes t.kind ∷ [])

abbrev pub skip_from : Token → List Token → Cursor
skip_from t [] = record { current = t; rest = [] }
skip_from t (u ∷ us) =
    if text_eq t.kind "NEWLINE" then skip_from u us else record { current = t; rest = u ∷ us }

unfoldable pub skip_newlines : Parse Unit
skip_newlines = modify (λ c. skip_from c.current c.rest)

abbrev pub ends_line : String → Bool
ends_line k =
    mem_text k ("}" ∷ "EOF" ∷ "run" ∷ "needs" ∷ "env" ∷ "labels" ∷ "timeout" ∷ "retry" ∷ [])

unfoldable pub line_end : Parse Unit
unfolding skip_newlines
line_end = do
  k ← kind
  if text_eq k "NEWLINE"
      then skip_newlines
      else if ends_line k
      then pure tt
      else fail "expected end of line" []

abbrev pub is_scalar : String → Bool
is_scalar k = mem_text k ("STRING" ∷ "IDENT" ∷ "INTEGER" ∷ "DURATION" ∷ []) || mem_text k keywords

unfoldable pub scalar : String → Parse Codes
scalar description = do
  t ← gets (λ c. c.current)
  if is_scalar t.kind
      then (do advance; pure t.value)
      else fail "expected {}" (codes description ∷ [])

-- The `while True` loop of `_list_of_scalars`. A round takes at least one token before it repeats
-- itself, so as many rounds suffice as there are tokens.
unfoldable pub scalars : ℕ → String → List Codes → Parse (List Codes)
unfolding scalar expect
scalars zero description values = fail "out of fuel" []
scalars (suc fuel) description values = do
  value ← scalar description
  k ← kind
  if text_eq k "]"
      then (do advance; pure (values ++ value ∷ []))
      else (do comma ← expect ","; scalars fuel description (values ++ value ∷ []))

-- How many tokens are left, the current one included
abbrev pub left : Parse ℕ
left = gets (λ c. suc (length c.rest))

unfoldable pub list_of_scalars : String → Parse (List Codes)
unfolding scalars expect
list_of_scalars description = do
  bracket ← expect "["
  k ← kind
  if text_eq k "]" then (do advance; pure []) else (do fuel ← left; scalars fuel description [])
