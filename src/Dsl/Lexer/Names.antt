-- ===== src/Dsl/Lexer/Names.antt =====
-- Reading back a name that `quote_if_needed` of sdk/python/src/helixgrid/dsl.py prints.
use helix_grid.Prelude.{
  ℕ, ◌≡◌, refl, ◌∙◌, ap, sym, subst, String, text_eq, text_eq_iff, Bool, true, false, ◌&&◌, [], ◌∷◌,
  ◌++◌, some, arith, all, inl, inr, Bool-cases, All,
}
use helix_grid.Prelude.Codes.{Codes, leading}
use helix_grid.Prelude.Exec.{Result, ok, err}
use helix_grid.Dsl.Types.{DslError}
use helix_grid.Dsl.Literals.{Position, Scan, token_at, error_at, move_over, string}
use helix_grid.Dsl.Lexer.{
  take_token, word_token, drop_codes, scan_word, scan_other, scan, starts_word, in_word, word_kind,
}
use helix_grid.Dsl.Lexer.Strings.{IsReadable, append_assoc, string-json_text}
use helix_grid.Dsl.Cursor.{is_scalar}
use helix_grid.Dsl.Format.{escaped_text, json_text, is_identifier, quote_if_needed}

-- One round of `tokens` at the front of a text
abbrev pub scan_front : Codes → Position → Result DslError Scan
scan_front [] p = err (error_at "no text" [] p)
scan_front (c ∷ s) p = scan c s p

leading-in_word :
    (s rest : Codes) (d : ℕ)
    → all in_word s ≡ true
    → in_word d ≡ false
    → leading in_word (s ++ d ∷ rest) ≡ s
leading-in_word [] rest d h stop = rw stop refl
leading-in_word (c ∷ s) rest d h stop = elim (Bool-cases (in_word c)) [
  | inl inside ↦
      rw inside (ap (λ t. c ∷ t) (leading-in_word s rest d (ground (arith, h, inside)) stop))
  | inr outside ↦ absurd (ground (arith, h, outside))
]

drop_codes-append : (s rest : Codes) → drop_codes s (s ++ rest) ≡ rest
drop_codes-append [] rest = refl
drop_codes-append (c ∷ s) rest = drop_codes-append s rest

-- A letter or an underscore begins a word and nothing else.
scan-word : (c : ℕ) (s : Codes) (p : Position) → starts_word c ≡ true → scan c s p ≡ scan_word c s p
unfolding scan scan_other
scan-word c s p h = ground (arith, h)

scan_word-letter :
    (c : ℕ) (s : Codes) (p : Position)
    → starts_word c ≡ true
    → scan_word c s p ≡ ok (word_token (leading in_word (c ∷ s)) (c ∷ s) p)
unfolding scan_word
scan_word-letter c s p h = ground (arith, h)

scan_word-identifier :
    (c : ℕ) (s rest : Codes) (d : ℕ) (p : Position)
    → starts_word c ≡ true
    → all in_word s ≡ true
    → in_word d ≡ false
    → scan_word c (s ++ d ∷ rest) p
      ≡ ok (record {
        token = some (token_at (word_kind (c ∷ s)) (c ∷ s) p);
        rest = d ∷ rest;
        position = move_over (c ∷ s) p;
      })
unfolding word_token take_token
scan_word-identifier c s rest d p letter inside stop =
    scan_word-letter c (s ++ d ∷ rest) p letter
    ∙ ap (λ v. ok (word_token v (c ∷ s ++ d ∷ rest) p))
        (leading-in_word (c ∷ s) rest d (ground (arith, letter, inside)) stop)
    ∙ rw (drop_codes-append s (d ∷ rest)) refl

scan-quote :
    (s rest : Codes) (p : Position)
    → All IsReadable s
    → scan_front (json_text s ++ rest) p
      ≡ ok (record {
        token = some (token_at "STRING" s p);
        rest = rest;
        position = move_over (json_text s) p;
      })
unfolding scan scan_other json_text string
scan-quote s rest p h =
    ap (λ t. string b'"' t p) (append_assoc (escaped_text s) (b'"' ∷ []) rest)
    ∙ string-json_text s rest p h

and_right : (a b : Bool) → (a && b) ≡ true → b ≡ true
and_right true b h = h
and_right false b h = absurd (ground (arith, h))

scalar_word : (b : Bool) (k : String) → (b && text_eq k "IDENT") ≡ true → is_scalar k ≡ true
scalar_word b k h =
    subst (λ j. is_scalar j ≡ true)
      (sym ((text_eq_iff k "IDENT").0 (and_right b (text_eq k "IDENT") h))) refl

bare_name :
    (s rest : Codes) (d : ℕ) (p : Position)
    → (is_identifier s && text_eq (word_kind s) "IDENT") ≡ true
    → in_word d ≡ false
    → (kind : String) × (is_scalar kind ≡ true)
      × (scan_front (s ++ d ∷ rest) p
          ≡ ok (record {
            token = some (token_at kind s p);
            rest = d ∷ rest;
            position = move_over s p;
          }))
bare_name [] rest d p h stop = absurd (ground (arith, h))
bare_name (c ∷ s) rest d p h stop =
    let letter : starts_word c ≡ true = ground (arith, h) in
    let inside : all in_word s ≡ true = ground (arith, h) in
    (
      word_kind (c ∷ s),
      scalar_word (is_identifier (c ∷ s)) (word_kind (c ∷ s)) h,
      scan-word c (s ++ d ∷ rest) p letter ∙ scan_word-identifier c s rest d p letter inside stop,
    )

-- A name that is printed, quoted or bare, is read back by one round as one token with its text,
-- of a kind that the parser takes for a scalar, if what follows is no part of a word and the name
-- has no backspace or form feed.
pub scan_front-quote_if_needed :
    (s rest : Codes) (d : ℕ) (p : Position)
    → All IsReadable s
    → in_word d ≡ false
    → (kind : String) × (is_scalar kind ≡ true)
      × (scan_front (quote_if_needed s ++ d ∷ rest) p
          ≡ ok (record {
            token = some (token_at kind s p);
            rest = d ∷ rest;
            position = move_over (quote_if_needed s) p;
          }))
unfolding quote_if_needed
scan_front-quote_if_needed s rest d p h stop =
    elim (Bool-cases (is_identifier s && text_eq (word_kind s) "IDENT")) [
      | inl bare ↦ rw bare (bare_name s rest d p bare stop)
      | inr quoted ↦ rw quoted ("STRING", refl, scan-quote s (d ∷ rest) p h)
    ]
