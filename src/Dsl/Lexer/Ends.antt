-- ===== src/Dsl/Lexer/Ends.antt =====
-- The loops of `Lexer` in sdk/python/src/helixgrid/dsl.py come to their ends.
use helix_grid.Prelude.{
  ℕ, zero, suc, ◌≤◌, ◌<◌, ◌≡◌, refl, String, Bool, true, false, List, [], ◌∷◌, ◌++◌, Option, none,
  some, ◌==◌, if◌then◌else◌, arith, length, subst,
}
use helix_grid.Prelude.Codes.{Codes, leading, after, is_digit}
use helix_grid.Prelude.Exec.{Result, ok, err}
use helix_grid.Dsl.Types.{DslError, Token}
use helix_grid.Dsl.Literals.{
  Position, Scan, StringStep, closed, added, failed, unicode_step, decoded, hex_value, mapped,
  escape_step, escape_code, string_step, after_step, string_body, string,
}
use helix_grid.Dsl.Lexer.{
  take_token, drop_codes, number_token, scan_word, scan_other, punctuation, scan, starts_word,
  in_word, is_blank, is_quote, is_in_comment, add_token, then_tokens, after_scan, lex, tokens,
}

-- At most `n` characters are left.
abbrev Within : ℕ → Result DslError Scan → Type 0
Within n (ok x) = length x.rest ≤ n
Within n (err e) = Unit

-- A round of `_string` that does not raise leaves fewer than `n` characters.
abbrev Shortens : ℕ → StringStep → Type 0
Shortens n (closed s q) = length s < n
Shortens n (added c s q) = length s < n
Shortens n (failed e) = Unit

either {ℓ} : {A : Type ℓ} (P : A → Type 0) (b : Bool) (x y : A) → P x → P y → P (if b then x else y)
either P true x y hx hy = hx
either P false x y hx hy = hy

Shortens-mono : (r : StringStep) {m n : ℕ} → m ≤ n → Shortens m r → Shortens n r
Shortens-mono (closed s q) le h = omega (arith, le, h)
Shortens-mono (added c s q) le h = omega (arith, le, h)
Shortens-mono (failed e) le h = tt

decoded-Shortens :
    (n : ℕ) (o : Option ℕ) (s : Codes) (p q : Position)
    → length s < n
    → Shortens n (decoded o s p q)
decoded-Shortens n none s p q h = tt
decoded-Shortens n (some m) s p q h = h

unicode_step-Shortens :
    (n : ℕ) (s : Codes) (p : Position) → length s < n → Shortens n (unicode_step s p)
unfolding unicode_step
unicode_step-Shortens n [] p h = tt
unicode_step-Shortens n (a ∷ []) p h = tt
unicode_step-Shortens n (a ∷ b ∷ []) p h = tt
unicode_step-Shortens n (a ∷ b ∷ c ∷ []) p h = tt
unicode_step-Shortens n (a ∷ b ∷ c ∷ d ∷ s) p h =
    decoded-Shortens n (hex_value a b c d) s p _ (omega (arith, h))

mapped-Shortens :
    (n : ℕ) (o : Option ℕ) (c : ℕ) (s : Codes) (p : Position)
    → length s < n
    → Shortens n (mapped o c s p)
unfolding mapped
mapped-Shortens n none c s p h = tt
mapped-Shortens n (some d) c s p h = h

escape_step-Shortens :
    (n : ℕ) (e : DslError) (s : Codes) (p : Position)
    → length s < n
    → Shortens n (escape_step e s p)
unfolding escape_step
escape_step-Shortens n e [] p h = tt
escape_step-Shortens n e (c ∷ s) p h =
    either (Shortens n) (c == b'u') _ _ (unicode_step-Shortens n s _ (omega (arith, h)))
      (mapped-Shortens n (escape_code c) c s p (omega (arith, h)))

string_step-Shortens :
    (e : DslError) (quote : ℕ) (s : Codes) (p : Position)
    → Shortens (length s) (string_step e quote s p)
unfolding string_step
string_step-Shortens e quote [] p = tt
string_step-Shortens e quote (c ∷ s) p =
    let below : length s < suc (length s) = omega arith in
    either (Shortens (suc (length s))) (c == quote) _ _ below (
      either (Shortens (suc (length s))) (c == b'\n') _ _ tt (
        either (Shortens (suc (length s))) (c == b'\\') _ _
          (escape_step-Shortens (suc (length s)) e s _ below) below))

after_step-Within :
    (n : ℕ) (start : Position) (out : Codes) (again : ℕ → Codes → Position → Result DslError Scan)
    (r : StringStep)
    → Shortens n r
    → ((c : ℕ) (s : Codes) (q : Position) → length s < n → Within n (again c s q))
    → Within n (after_step start out again r)
after_step-Within n start out again (failed e) h k = tt
after_step-Within n start out again (closed s q) h k = omega (arith, h)
after_step-Within n start out again (added c s q) h k = k c s q h

string_body-Within :
    (fuel : ℕ) (start : Position) (quote n : ℕ) (out s : Codes) (p : Position)
    → length s ≤ n
    → Within n (string_body fuel start quote out s p)
unfolding string_body
string_body-Within zero start quote n out s p h = tt
string_body-Within (suc fuel) start quote n out s p h =
    after_step-Within n start out _ (string_step _ quote s p)
      (Shortens-mono (string_step _ quote s p) h (string_step-Shortens _ quote s p))
      (λ c t q below.
        string_body-Within fuel start quote n (out ++ c ∷ []) t q (omega (arith, below)))

length-after-le : (p : ℕ → Bool) (s : Codes) → length (after p s) ≤ length s
length-after-le p [] = omega arith
length-after-le p (c ∷ s) = ground (arith, length-after-le p s)

length-drop_codes-le : (v s : Codes) → length (drop_codes v s) ≤ length s
length-drop_codes-le [] s = omega arith
length-drop_codes-le (c ∷ v) [] = omega arith
length-drop_codes-le (c ∷ v) (d ∷ s) = omega (arith, length-drop_codes-le v s)

number_token-Within :
    (c : ℕ) (v : Codes) (u : Option Codes) (s : Codes) (p : Position)
    → length (number_token (c ∷ v) u (c ∷ s) p).rest ≤ length s
unfolding number_token
number_token-Within c v (some u) s p = length-drop_codes-le (v ++ u) s
number_token-Within c v none s p = length-drop_codes-le v s

either_known {ℓ} :
    {A : Type ℓ} (P : A → Type 0) (b : Bool) (x y : A)
    → (b ≡ true → P x)
    → (b ≡ false → P y)
    → P (if b then x else y)
either_known P true x y hx hy = hx refl
either_known P false x y hx hy = hy refl

starts_word-in_word : (c : ℕ) → starts_word c ≡ true → in_word c ≡ true
starts_word-in_word c h = ground (arith, h)

scan_word-Within : (c : ℕ) (s : Codes) (p : Position) → Within (length s) (scan_word c s p)
unfolding scan_word
scan_word-Within c s p =
    either_known (Within (length s)) (is_digit c) _ _
      (λ digit. rw digit (number_token-Within c (leading is_digit s) _ s p))
      (λ _.
        either_known (Within (length s)) (starts_word c) _ _
          (λ letter. rw (starts_word-in_word c letter) (length-drop_codes-le (leading in_word s) s))
          (λ _. tt))

scan_other-Within :
    (o : Option String) (c : ℕ) (s : Codes) (p : Position) → Within (length s) (scan_other o c s p)
unfolding scan_other take_token string
scan_other-Within (some kind) c s p = omega arith
scan_other-Within none c s p =
    either (Within (length s)) (is_quote c) _ _
      (string_body-Within (suc (length s)) p c (length s) [] s _ (omega arith))
      (scan_word-Within c s p)

-- A round of `tokens` that does not raise takes at least one character.
scan-Within : (c : ℕ) (s : Codes) (p : Position) → Within (length s) (scan c s p)
unfolding scan take_token
scan-Within c s p = either (Within (length s)) (is_blank c) _ _ (omega arith) (
    either (Within (length s)) (c == b'\n') _ _ (omega arith) (
      either (Within (length s)) (c == b'#') _ _ (length-after-le is_in_comment s)
        (scan_other-Within (punctuation c) c s p)))

-- The last token is EOF.
abbrev pub EndsInEof : List Token → Type 0
EndsInEof [] = ⊥
EndsInEof (t ∷ []) = t.kind ≡ "EOF"
EndsInEof (t ∷ u ∷ ts) = EndsInEof (u ∷ ts)

abbrev Ends : Result DslError (List Token) → Type 0
Ends (ok ts) = EndsInEof ts
Ends (err e) = Unit

add_token-EndsInEof :
    (o : Option Token) (ts : List Token) → EndsInEof ts → EndsInEof (add_token o ts)
add_token-EndsInEof none ts h = h
add_token-EndsInEof (some t) [] h = absurd h
add_token-EndsInEof (some t) (u ∷ ts) h = h

then_tokens-Ends :
    (o : Option Token) (r : Result DslError (List Token)) → Ends r → Ends (then_tokens o r)
then_tokens-Ends o (ok ts) h = add_token-EndsInEof o ts h
then_tokens-Ends o (err e) h = tt

after_scan-Ends :
    (n : ℕ) (again : Codes → Position → Result DslError (List Token)) (r : Result DslError Scan)
    → Within n r
    → ((s : Codes) (p : Position) → length s ≤ n → Ends (again s p))
    → Ends (after_scan again r)
after_scan-Ends n again (ok x) h k = then_tokens-Ends x.token _ (k x.rest x.position h)
after_scan-Ends n again (err e) h k = tt

-- With as much fuel as there are characters, the loop is never cut short.
lex-Ends : (fuel : ℕ) (s : Codes) (p : Position) → length s ≤ fuel → Ends (lex fuel s p)
unfolding lex
lex-Ends zero [] p h = refl
lex-Ends (suc fuel) [] p h = refl
lex-Ends zero (c ∷ s) p h = absurd (omega (arith, h))
lex-Ends (suc fuel) (c ∷ s) p h =
    after_scan-Ends (length s) _ (scan c s p) (scan-Within c s p)
      (λ t q below. lex-Ends fuel t q (omega (arith, h, below)))

Ends-ok : (r : Result DslError (List Token)) {ts : List Token} → Ends r → r ≡ ok ts → EndsInEof ts
Ends-ok (ok us) h eq = subst Ends eq h
Ends-ok (err e) h eq = absurd (ground (arith, eq))

-- The tokens of a source, if no error is raised, end in the token EOF: the loop reads the source
-- to its end.
pub tokens-EndsInEof : (source : Codes) (ts : List Token) → tokens source ≡ ok ts → EndsInEof ts
unfolding tokens
tokens-EndsInEof source ts h =
    Ends-ok (tokens source) (lex-Ends (length source) source _ (omega arith)) h
