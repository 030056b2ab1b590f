-- ===== src/Dsl/Lexer/Strings.antt =====
-- Reading back a JSON text as a string literal of sdk/python/src/helixgrid/dsl.py.
use helix_grid.Prelude.{
  ℕ, zero, suc, ◌+◌, ◌*◌, ◌/◌, ◌%◌, ◌≤◌, ◌<◌, ◌≡◌, ◌≢◌, refl, ◌∙◌, ap, true, false, [], ◌∷◌, ◌++◌,
  some, ltb, ◌==◌, arith, inl, inr, Bool-cases, All, length, length-append,
}
use helix_grid.Prelude.Codes.{Codes}
use helix_grid.Prelude.Exec.{Result, ok}
use helix_grid.Dsl.Types.{DslError}
use helix_grid.Dsl.Literals.{
  Position, Scan, token_at, error_at, move, move_over, hex_digit, hex_value, added, unicode_step,
  string_step, string_body, string,
}
use helix_grid.Dsl.Format.{hex_code, escaped, escaped_text, json_text}

hex_digit-hex_code : (n : ℕ) → n < 16 → hex_digit (hex_code n) ≡ some n
hex_digit-hex_code n h = ground arith

-- Backspace and form feed are the two characters that JSON escapes by a letter of its own.
abbrev pub IsReadable : ℕ → Type 0
IsReadable c = (c ≢ 8) × (c ≢ 12)

is_ne : (c d : ℕ) → c ≢ d → c == d ≡ false
is_ne c d h = ground arith

is_eq : (c d : ℕ) → c == d ≡ true → c ≡ d
is_eq c d h = ground arith

hex_value-some :
    (x y : ℕ) {a b : ℕ}
    → hex_digit x ≡ some a
    → hex_digit y ≡ some b
    → hex_value b'0' b'0' x y ≡ some (a * 16 + b)
hex_value-some x y g h = rw (hex_value, g, h) (ap some (omega arith))

unicode_step-some :
    (x y : ℕ) (t : Codes) (p : Position) {n : ℕ}
    → hex_value b'0' b'0' x y ≡ some n
    → unicode_step (b'0' ∷ b'0' ∷ x ∷ y ∷ t) p ≡ added n t (move_over (b'0' ∷ b'0' ∷ x ∷ y ∷ []) p)
unfolding unicode_step
unicode_step-some x y t p h = rw (unicode_step, h) refl

-- A control character without a letter of its own
string_step-unicode :
    (e : DslError) (c : ℕ) (t : Codes) (p : Position)
    → c < 32
    → string_step e b'"' (b'\\' ∷ b'u' ∷ b'0' ∷ b'0' ∷ hex_code (c / 16) ∷ hex_code (c % 16) ∷ t) p
      ≡ added c t
          (move_over (b'\\' ∷ b'u' ∷ b'0' ∷ b'0' ∷ hex_code (c / 16) ∷ hex_code (c % 16) ∷ []) p)
unfolding move_over string_step
string_step-unicode e c t p h =
    unicode_step-some (hex_code (c / 16)) (hex_code (c % 16)) t (move b'u' (move b'\\' p)) (
      hex_value-some (hex_code (c / 16)) (hex_code (c % 16))
        (hex_digit-hex_code (c / 16) (omega (arith, h)))
        (hex_digit-hex_code (c % 16) (omega (arith, h)))
      ∙ ap some (omega arith))

string_step-plain :
    (e : DslError) (c : ℕ) (t : Codes) (p : Position)
    → c == b'"' ≡ false
    → c == b'\\' ≡ false
    → c == b'\n' ≡ false
    → string_step e b'"' (c ∷ t) p ≡ added c t (move_over (c ∷ []) p)
unfolding move_over string_step
string_step-plain e c t p a b d = rw (a, b, d) refl

string_step-escaped :
    (e : DslError) (c : ℕ) (t : Codes) (p : Position)
    → IsReadable c
    → string_step e b'"' (escaped c ++ t) p ≡ added c t (move_over (escaped c) p)
unfolding move_over string_step
string_step-escaped e c t p h = elim (Bool-cases (c == b'"')) [
  | inl x ↦ rw (is_eq c b'"' x) refl
  | inr a ↦ elim (Bool-cases (c == b'\\')) [
    | inl x ↦ rw (is_eq c b'\\' x) refl
    | inr b ↦ elim (Bool-cases (c == b'\n')) [
      | inl x ↦ rw (is_eq c b'\n' x) refl
      | inr d ↦ elim (Bool-cases (c == b'\r')) [
        | inl x ↦ rw (is_eq c b'\r' x) refl
        | inr f ↦ elim (Bool-cases (c == b'\t')) [
          | inl x ↦ rw (is_eq c b'\t' x) refl
          | inr g ↦
              rw (a, b, d, f, g, is_ne c 8 h.0, is_ne c 12 h.1)
                (elim (Bool-cases (ltb c 32)) [
                  | inl x ↦ rw x (string_step-unicode e c t p (ground arith))
                  | inr x ↦ rw x (string_step-plain e c t p a b d)
                ])
        ]
      ]
    ]
  ]
]

append_nil : (xs : Codes) → xs ++ [] ≡ xs
append_nil [] = refl
append_nil (x ∷ xs) = ap (λ t. x ∷ t) (append_nil xs)

pub append_assoc : (xs ys zs : Codes) → (xs ++ ys) ++ zs ≡ xs ++ (ys ++ zs)
append_assoc [] ys zs = refl
append_assoc (x ∷ xs) ys zs = ap (λ t. x ∷ t) (append_assoc xs ys zs)

move_over-append : (s t : Codes) (p : Position) → move_over (s ++ t) p ≡ move_over t (move_over s p)
unfolding move_over
move_over-append [] t p = refl
move_over-append (c ∷ s) t p = move_over-append s t (move c p)

abbrev literal : Codes → Codes → Position → Position → Result DslError Scan
literal value rest start end =
    ok (record { token = some (token_at "STRING" value start); rest = rest; position = end })

-- One round adds one character.
string_body-added :
    (fuel : ℕ) (start : Position) (quote : ℕ) (out s : Codes) (p : Position) {c : ℕ} {t : Codes}
    {q : Position}
    → string_step (error_at "unterminated string literal" [] start) quote s p ≡ added c t q
    → string_body (suc fuel) start quote out s p ≡ string_body fuel start quote (out ++ c ∷ []) t q
unfolding string_body
string_body-added fuel start quote out s p h = rw (string_body, h) refl

string_body-closed :
    (fuel : ℕ) (start : Position) (out rest : Codes) (p : Position)
    → string_body (suc fuel) start b'"' out (b'"' ∷ rest) p
      ≡ literal (out ++ []) rest start (move b'"' p)
unfolding string_body string_step
string_body-closed fuel start out rest p = rw (append_nil out) refl

length-escaped : (c : ℕ) → 1 ≤ length (escaped c)
length-escaped c = ground arith

string_body-escaped_text :
    (fuel : ℕ) (start : Position) (out s rest : Codes) (p : Position)
    → All IsReadable s
    → length s < fuel
    → string_body fuel start b'"' out (escaped_text s ++ b'"' ∷ rest) p
      ≡ literal (out ++ s) rest start (move b'"' (move_over (escaped_text s) p))
unfolding move_over
string_body-escaped_text zero start out s rest p h f = absurd (omega (arith, f))
string_body-escaped_text (suc fuel) start out [] rest p h f =
    string_body-closed fuel start out rest p
string_body-escaped_text (suc fuel) start out (c ∷ s) rest p h f =
    let tail = escaped_text s ++ b'"' ∷ rest in
    ap (λ t. string_body (suc fuel) start b'"' out t p)
      (append_assoc (escaped c) (escaped_text s) (b'"' ∷ rest))
    ∙ string_body-added fuel start b'"' out (escaped c ++ tail) p
        (string_step-escaped (error_at "unterminated string literal" [] start) c tail p h.0)
    ∙ string_body-escaped_text fuel start (out ++ c ∷ []) s rest (move_over (escaped c) p) h.1
        (omega (arith, f))
    ∙ rw (append_assoc out (c ∷ []) s, move_over-append (escaped c) (escaped_text s) p) refl

length-escaped_text : (s : Codes) → length s ≤ length (escaped_text s)
length-escaped_text [] = omega arith
length-escaped_text (c ∷ s) =
    omega
      (arith, length-append (escaped c) (escaped_text s), length-escaped c, length-escaped_text s)

-- A text without a backspace or a form feed, printed as JSON, is lexed back as one string token
-- with that text, up to the closing quote.
pub string-json_text :
    (s rest : Codes) (p : Position)
    → All IsReadable s
    → string b'"' (escaped_text s ++ b'"' ∷ rest) p ≡ literal s rest p (move_over (json_text s) p)
unfolding string json_text move_over
string-json_text s rest p h =
    string_body-escaped_text (suc (length (escaped_text s ++ b'"' ∷ rest))) p [] s rest
      (move b'"' p) h
      (omega (arith, length-append (escaped_text s) (b'"' ∷ rest), length-escaped_text s))
    ∙ rw (move_over-append (escaped_text s) (b'"' ∷ []) (move b'"' p)) refl
