-- ===== src/Prelude/Texts.antt =====
-- Texts: equality and order of Python strings, joining, and decimal printing. Models no code by
-- itself: `decimal` is Python's `str` on a natural number.
use Prim.Native.Nat.{ℕ, zero, suc, ◌+◌, ◌/◌, ◌%◌}
use Prim.Native.String.{String, compare, slice, ◌++◌ as append}
use mathlib.Core.Path.{◌≡◌, refl}
use mathlib.Core.Logic.{◌↔◌}
use mathlib.Core.Bool.{Bool, true, false, ◌||◌}
use mathlib.Core.List.{List, [], ◌∷◌}
use text.Mathlib.Text
use text.Mathlib.TextEquality
use helix_grid.Prelude.Tests.{ltb, if◌then◌else◌}

abbrev pub text_eq : String → String → Bool
text_eq s t = Text.is_eq (compare s t)

pub text_eq_iff : (s t : String) → ((text_eq s t) ≡ true) ↔ (s ≡ t)
text_eq_iff s t = TextEquality.eq_iff s t

-- Code points in order, which is the order of the UTF-8 bytes too.
abbrev pub text_le : String → String → Bool
text_le s t = Text.is_le (compare s t)

abbrev pub text_lt : String → String → Bool
text_lt s t = Text.is_lt (compare s t)

infixr 66 ◌&◌
abbrev pub ◌&◌ : String → String → String
s & t = append s t

-- The truth value of a text is that it is not empty.
abbrev pub is_empty : String → Bool
is_empty String.[] = true
is_empty (String.◌∷◌ c s) = false

abbrev pub or_text : String → String → String
or_text s t = if is_empty s then t else s

abbrev pub mem_text : String → List String → Bool
mem_text s [] = false
mem_text s (t ∷ ts) = (text_eq s t) || mem_text s ts

unfoldable pub digit : ℕ → String
digit n = slice "0123456789" n (n + 1)

unfoldable pub decimal_within : ℕ → ℕ → String
decimal_within zero n = ""
decimal_within (suc fuel) n =
    let front = decimal_within fuel (n / 10) in if ltb n 10 then digit n else front & digit (n % 10)

-- A number has fewer digits than its successor, so the fuel suffices.
unfoldable pub decimal : ℕ → String
unfolding digit decimal_within
decimal n = decimal_within (suc n) n

decimal_runs : decimal 20451 ≡ "20451"
unfolding decimal
decimal_runs = refl
