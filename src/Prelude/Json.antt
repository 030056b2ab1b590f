-- ===== src/Prelude/Json.antt =====
-- The values of Python's `json` and the text that `json.dumps(…, sort_keys=True)` makes of them,
-- with ASCII characters only. The keys of an object are texts, numbers are integers.
use Prim.Native.Nat.{ℕ, ◌+◌, ◌-◌, ◌/◌, ◌%◌}
use Prim.Native.String.{String}
use mathlib.Core.Path.{◌≡◌, refl}
use mathlib.Core.Bool.{Bool, true, false}
use mathlib.Core.List.{List, [], ◌∷◌, ◌++◌}
use helix_grid.Prelude.Tests.{ltb, ◌==◌, if◌then◌else◌}
use helix_grid.Prelude.Texts.{text_le}
use helix_grid.Prelude.Int.{ℤ, pos, decimal_ℤ}
use helix_grid.Prelude.Dict.{Dict}
use helix_grid.Prelude.Codes.{Codes, codes, joined}
use helix_grid.Prelude.Sorting.{sort}

mutual
  pub data Json : Type 0 where
    null : Json
    boolean : Bool → Json
    number : ℤ → Json
    text : String → Json
    array : Items → Json
    object : Entries → Json

  pub data Items : Type 0 where
    nil : Items
    item : Json → Items → Items

  pub data Entries : Type 0 where
    end : Entries
    entry : String → Json → Entries → Entries

-- The JSON value of a list, a dictionary and an `Optional`
abbrev pub items {ℓ} : {A : Type ℓ} → (A → Json) → List A → Items
items f [] = nil
items f (x ∷ xs) = item (f x) (items f xs)

abbrev pub entries {ℓ} : {V : Type ℓ} → (V → Json) → Dict V → Entries
entries f [] = end
entries f ((k, v) ∷ d) = entry k (f v) (entries f d)

abbrev hex : ℕ → ℕ
hex n = if ltb n 10 then b'0' + n else b'a' + (n - 10)

abbrev four_digits : ℕ → Codes
four_digits c =
    b'\\' ∷ b'u' ∷ hex (c / 4096 % 16) ∷ hex (c / 256 % 16) ∷ hex (c / 16 % 16) ∷ hex (c % 16) ∷ []

-- One character, beyond U+FFFF as a surrogate pair
abbrev escaped : ℕ → Codes
escaped c =
    if c == b'"'
    then b'\\' ∷ b'"' ∷ []
    else if c == b'\\'
    then b'\\' ∷ b'\\' ∷ []
    else if c == b'\n'
    then b'\\' ∷ b'n' ∷ []
    else if c == b'\r'
    then b'\\' ∷ b'r' ∷ []
    else if c == b'\t'
    then b'\\' ∷ b't' ∷ []
    else if c == 8
    then b'\\' ∷ b'b' ∷ []
    else if c == 12
    then b'\\' ∷ b'f' ∷ []
    else if ltb c 32
    then four_digits c
    else if ltb c 127
    then c ∷ []
    else if ltb c 65536
    then four_digits c
    else four_digits (55296 + (c - 65536) / 1024) ++ four_digits (56320 + (c - 65536) % 1024)

escaped_text : Codes → Codes
escaped_text [] = []
escaped_text (c ∷ s) = escaped c ++ escaped_text s

quoted : String → Codes
unfolding escaped_text
quoted s = b'"' ∷ escaped_text (codes s) ++ b'"' ∷ []

abbrev key_le : String × Codes → String × Codes → Bool
key_le (j, s) (k, t) = text_le j k

-- The separators between items and after a key
pub record Style : Type 0 where
  pub comma : Codes
  pub colon : Codes

-- `separators=(",", ":")`, and the separators that `json.dumps` has by itself
abbrev pub compact : Style
compact = record { comma = codes ","; colon = codes ":" }

abbrev pub spaced : Style
spaced = record { comma = codes ", "; colon = codes ": " }

-- The printed entries, by key
abbrev print_pairs : Style → Dict Codes → List Codes
print_pairs style [] = []
print_pairs style ((k, s) ∷ d) = (quoted k ++ style.colon ++ s) ∷ print_pairs style d

abbrev boolean_text : Bool → Codes
boolean_text true = codes "true"
boolean_text false = codes "false"

unfoldable mutual
  unfolding quoted escaped_text decimal_ℤ

  pub dumps : Style → Json → Codes
  dumps style null = codes "null"
  dumps style (boolean b) = boolean_text b
  dumps style (number n) = codes (decimal_ℤ n)
  dumps style (text s) = quoted s
  dumps style (array xs) = b'[' ∷ joined style.comma (dump_items style xs) ++ b']' ∷ []
  dumps style (object d) =
      b'{' ∷ joined style.comma (print_pairs style (sort key_le (dump_entries style d)))
      ++ b'}' ∷ []

  pub dump_items : Style → Items → List Codes
  dump_items style nil = []
  dump_items style (item x xs) = dumps style x ∷ dump_items style xs

  pub dump_entries : Style → Entries → Dict Codes
  dump_entries style end = []
  dump_entries style (entry k x d) = (k, dumps style x) ∷ dump_entries style d

dumps_runs :
    dumps spaced (
      object
        (entry "b" (array (item null (item (number (pos 12)) nil))) (entry "a" (text "x\ny") end)))
    ≡ codes "{\"a\": \"x\\ny\", \"b\": [null, 12]}"
unfolding dumps dump_items dump_entries quoted decimal_ℤ
dumps_runs = refl
