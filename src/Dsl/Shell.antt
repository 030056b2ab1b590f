-- ===== src/Dsl/Shell.antt =====
-- Python's `shlex.split` (POSIX rules), as `Parser._command` of
-- sdk/python/src/helixgrid/dsl.py calls it: the tokenizer of shlex with `whitespace_split` and no
-- comment characters.
use helix_grid.Prelude.{
  ℕ, Bool, true, false, ◌&&◌, ◌||◌, not, List, [], ◌∷◌, ◌++◌, Option, none, some, ◌==◌,
  if◌then◌else◌,
}
use helix_grid.Prelude.Codes.{Codes}

-- shlex's `state`: between words, in a word, in quotes, or after a backslash that stands in the
-- given state
pub data Mode : Type 0 where
  between inside : Mode
  quotes : ℕ → Mode
  escaped_word : Mode
  escaped_quotes : ℕ → Mode

abbrev pub is_space : ℕ → Bool
is_space c = c == b' ' || c == b'\t' || c == b'\r' || c == b'\n'

abbrev pub is_shell_quote : ℕ → Bool
is_shell_quote c = c == b'"' || c == b'\''

abbrev pub is_nil : Codes → Bool
is_nil [] = true
is_nil (c ∷ s) = false

-- A finished word is kept unless it is empty and was never quoted.
abbrev pub push_word : Codes → Bool → List Codes → List Codes
push_word word quoted words = if is_nil word && not quoted then words else words ++ word ∷ []

-- `none` is the ValueError, for a quotation or an escape that the text ends in.
unfoldable pub split_from : Mode → Codes → Bool → List Codes → Codes → Option (List Codes)
split_from Mode.between word quoted words [] = some (push_word word quoted words)
split_from Mode.inside word quoted words [] = some (push_word word quoted words)
split_from (Mode.quotes q) word quoted words [] = none
split_from Mode.escaped_word word quoted words [] = none
split_from (Mode.escaped_quotes q) word quoted words [] = none
split_from Mode.between word quoted words (c ∷ s) =
    if is_space c
    then split_from Mode.between [] false words s
    else if c == b'\\'
    then split_from Mode.escaped_word [] false words s
    else if is_shell_quote c
    then split_from (Mode.quotes c) [] false words s
    else split_from Mode.inside (c ∷ []) false words s
split_from Mode.inside word quoted words (c ∷ s) =
    if is_space c
    then split_from Mode.between [] false (push_word word quoted words) s
    else if is_shell_quote c
    then split_from (Mode.quotes c) word quoted words s
    else if c == b'\\'
    then split_from Mode.escaped_word word quoted words s
    else split_from Mode.inside (word ++ c ∷ []) quoted words s
split_from (Mode.quotes q) word quoted words (c ∷ s) =
    if c == q
    then split_from Mode.inside word true words s
    else if c == b'\\' && q == b'"'
    then split_from (Mode.escaped_quotes q) word true words s
    else split_from (Mode.quotes q) (word ++ c ∷ []) true words s
split_from Mode.escaped_word word quoted words (c ∷ s) =
    split_from Mode.inside (word ++ c ∷ []) quoted words s
split_from (Mode.escaped_quotes q) word quoted words (c ∷ s) =
    if c == b'\\' || c == q
    then split_from (Mode.quotes q) (word ++ c ∷ []) quoted words s
    else split_from (Mode.quotes q) (word ++ b'\\' ∷ c ∷ []) quoted words s

unfoldable pub split : Codes → Option (List Codes)
unfolding split_from
split s = split_from Mode.between [] false [] s
