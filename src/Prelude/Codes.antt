-- ===== src/Prelude/Codes.antt =====
-- Texts that the workflow language takes apart: the code points of a Python string, lone
-- surrogates included, which a native text cannot hold. Models no code by itself.
pub mod Numbers
use Prim.Native.Nat.{ℕ, ◌-◌, ◌+◌, ◌*◌}
use Prim.Native.Char.{code}
use Prim.Native.String.{String}
use mathlib.Core.Path.{◌≡◌, refl}
use mathlib.Core.Bool.{Bool, true, false, ◌&&◌, ◌||◌}
use mathlib.Core.Option.{Option, none, some}
use mathlib.Core.List.{List, [], ◌∷◌, ◌++◌}
use native.Mathlib.Omega.{arith}
use helix_grid.Prelude.Tests.{ltb, leb, ◌==◌, if◌then◌else◌}
use helix_grid.Prelude.Lists.{any}
use mathlib.Core.Logic.{◌↔◌}

abbrev pub Codes : Type 0
Codes = List ℕ

abbrev pub codes : String → Codes
codes String.[] = []
codes (String.◌∷◌ c s) = code c ∷ codes s

-- `==` on texts
abbrev pub same_codes : Codes → Codes → Bool
same_codes [] [] = true
same_codes [] (d ∷ t) = false
same_codes (c ∷ s) [] = false
same_codes (c ∷ s) (d ∷ t) = c == d && same_codes s t

-- `<=` on texts
abbrev pub codes_le : Codes → Codes → Bool
codes_le [] t = true
codes_le (c ∷ s) [] = false
codes_le (c ∷ s) (d ∷ t) = ltb c d || (c == d && codes_le s t)

abbrev pub mem_codes : Codes → List Codes → Bool
mem_codes s ts = any (same_codes s) ts

-- The longest prefix of characters that pass a test, and what follows it
abbrev pub leading : (ℕ → Bool) → Codes → Codes
leading p [] = []
leading p (c ∷ s) = if p c then c ∷ leading p s else []

abbrev pub after : (ℕ → Bool) → Codes → Codes
after p [] = []
after p (c ∷ s) = if p c then after p s else c ∷ s

abbrev pub is_digit : ℕ → Bool
is_digit c = leb b'0' c && leb c b'9'

-- `int(s)` on a text of digits
abbrev pub number_from : ℕ → Codes → ℕ
number_from n [] = n
number_from n (c ∷ s) = number_from (n * 10 + (c - b'0')) s

abbrev pub number : Codes → ℕ
number s = number_from 0 s

-- `sep.join(parts)`
abbrev pub joined : Codes → List Codes → Codes
joined sep [] = []
joined sep (s ∷ []) = s
joined sep (s ∷ t ∷ ts) = s ++ sep ++ joined sep (t ∷ ts)

-- `"".join(parts)`
abbrev pub concat_codes : List Codes → Codes
concat_codes [] = []
concat_codes (s ∷ ss) = s ++ concat_codes ss

-- Python's `dict` with texts as keys
abbrev pub Table {ℓ} : Type ℓ → Type ℓ
Table V = List (Codes × V)

module _ {ℓ} {V : Type ℓ} where
  -- `d.get(k)`
  abbrev pub find : Codes → Table V → Option V
  find k [] = none
  find k ((j, v) ∷ d) = if same_codes j k then some v else find k d

  -- `d.get(k, v)`
  abbrev pub find_or : V → Codes → Table V → V
  find_or w k [] = w
  find_or w k ((j, v) ∷ d) = if same_codes j k then v else find_or w k d

  -- `k in d`
  abbrev pub has_key : Codes → Table V → Bool
  has_key k [] = false
  has_key k ((j, v) ∷ d) = same_codes j k || has_key k d

  -- `d[k] = v`
  abbrev pub put : Codes → V → Table V → Table V
  put k v [] = (k, v) ∷ []
  put k v ((j, w) ∷ d) = if same_codes j k then (j, v) ∷ d else (j, w) ∷ put k v d

  -- `d[k] = f(d[k])`, for a key that is there
  abbrev pub adjust : Codes → (V → V) → Table V → Table V
  adjust k f [] = []
  adjust k f ((j, w) ∷ d) = if same_codes j k then (j, f w) ∷ d else (j, w) ∷ adjust k f d

  -- `d.pop(k, None)`
  abbrev pub remove : Codes → Table V → Table V
  remove k [] = []
  remove k ((j, w) ∷ d) = if same_codes j k then remove k d else (j, w) ∷ remove k d

  abbrev pub table_keys : Table V → List Codes
  table_keys [] = []
  table_keys ((j, w) ∷ d) = j ∷ table_keys d

pub same_codes_refl : (s : Codes) → same_codes s s ≡ true
same_codes_refl [] = refl
same_codes_refl (c ∷ s) = ground (arith, same_codes_refl s)

pub same_codes_iff : (s t : Codes) → ((same_codes s t) ≡ true) ↔ (s ≡ t)
same_codes_iff [] [] = ground arith
same_codes_iff [] (d ∷ t) = ground arith
same_codes_iff (c ∷ s) [] = ground arith
same_codes_iff (c ∷ s) (d ∷ t) = ground (arith, same_codes_iff s t)
