-- ===== src/Dsl/Cursor/Progress.antt =====
-- What the methods of `Parser` in sdk/python/src/helixgrid/dsl.py take from the tokens: how many at
-- least, and never the last one, EOF.
use helix_grid.Prelude.{
  ℕ, zero, suc, ◌+◌, ◌≤◌, ◌<◌, ◌≡◌, refl, String, text_eq, text_eq_iff, Bool, true, false, List, [],
  ◌∷◌, if◌then◌else◌, arith, length, Bool-cases, inl, inr, subst,
}
use helix_grid.Prelude.Codes.{Codes, codes}
use helix_grid.Prelude.Exec.{Result, ok, err, pure, raise, gets, ◌>>=◌, continue}
use helix_grid.Dsl.Types.{DslError, Token}
use helix_grid.Dsl.Lexer.Ends.{EndsInEof}
use helix_grid.Dsl.Cursor.{
  Cursor, Parse, step_on, advance, fail, expect, skip_from, skip_newlines, ends_line, line_end,
  is_scalar, scalar, scalars, list_of_scalars,
}

abbrev pub IsGood : Cursor → Type 0
IsGood s = EndsInEof (s.current ∷ s.rest)

-- At least `k` of `n` tokens were taken, and the rest ends in EOF; or the error is not that of a
-- loop whose fuel is used up.
abbrev pub Outcome : {A : Type 0} → ℕ → ℕ → Result DslError A × Cursor → Type 0
Outcome k n (ok a, t) = IsGood t × (length t.rest + k ≤ n)
Outcome k n (err e, t) = text_eq e.message "out of fuel" ≡ false

pub record Takes {A : Type 0} (k : ℕ) (m : Parse A) : Type 0 where
  pub holds : (s : Cursor) → IsGood s → Outcome k (length s.rest) (m s)

module _ {A : Type 0} (k n : ℕ) where
  pub pure_at : (a : A) (s : Cursor) → IsGood s → length s.rest + k ≤ n → Outcome k n (pure a s)
  unfolding ◌>>=◌
  pure_at a s good room = (good, room)

  pub if_at :
      (b : Bool) (x y : Parse A) (s : Cursor)
      → (b ≡ true → Outcome k n (x s))
      → (b ≡ false → Outcome k n (y s))
      → Outcome k n ((if b then x else y) s)
  if_at true x y s hx hy = hx refl
  if_at false x y s hx hy = hy refl

module _ (A : Type 0) (k n : ℕ) where
  pub fail_at :
      (message : String) (quoted : List Codes) (s : Cursor)
      → text_eq message "out of fuel" ≡ false
      → Outcome k n (fail {A = A} message quoted s)
  unfolding ◌>>=◌
  fail_at message quoted s h = h

  pub raise_at :
      (e : DslError) (s : Cursor)
      → text_eq e.message "out of fuel" ≡ false
      → Outcome k n (raise {A = A} e s)
  unfolding ◌>>=◌
  raise_at e s h = h

module _ {A B : Type 0} (k n : ℕ) where
  pub gets_at :
      (g : Cursor → A) (f : A → Parse B) (s : Cursor)
      → Outcome k n (f (g s) s)
      → Outcome k n ((gets g >>= f) s)
  unfolding ◌>>=◌
  gets_at g f s h = h

  continue-Outcome :
      (i l : ℕ) (r : Result DslError A) (t : Cursor) (f : A → Parse B)
      → Outcome i l (r, t)
      → ((a : A) (u : Cursor) → IsGood u → length u.rest + i ≤ l → Outcome k n (f a u))
      → Outcome k n (continue r f t)
  continue-Outcome i l (ok a) t f h next = next a t h.0 h.1
  continue-Outcome i l (err e) t f h next = h

  pub bind_at :
      (i : ℕ) (m : Parse A) (f : A → Parse B) (s : Cursor)
      → Takes i m
      → IsGood s
      → ((a : A) (t : Cursor) → IsGood t → length t.rest + i ≤ length s.rest → Outcome k n (f a t))
      → Outcome k n ((m >>= f) s)
  unfolding ◌>>=◌
  bind_at i m f s takes good next =
      continue-Outcome i (length s.rest) (m s).0 (m s).1 f (takes.holds s good) next

-- As `bind_at`, for a first action that is known at one state only
pub then_at :
    {A B : Type 0} (k n i l : ℕ) (m : Parse A) (f : A → Parse B) (s : Cursor)
    → Outcome i l (m s)
    → ((a : A) (t : Cursor) → IsGood t → length t.rest + i ≤ l → Outcome k n (f a t))
    → Outcome k n ((m >>= f) s)
unfolding ◌>>=◌
then_at k n i l m f s h next = continue-Outcome k n i l (m s).0 (m s).1 f h next

-- What was taken after some tokens, counted from before them
pub weaken :
    {A : Type 0} (i k m n : ℕ) (o : Result DslError A × Cursor)
    → m + k ≤ n + i
    → Outcome i m o
    → Outcome k n o
weaken i k m n (ok a, t) room h = (h.0, omega (arith, room, h.1))
weaken i k m n (err e, t) room h = h

-- A step from a token that is not EOF takes it.
step_on-IsGood :
    (t : Token) (ts : List Token)
    → text_eq t.kind "EOF" ≡ false
    → EndsInEof (t ∷ ts)
    → Outcome 1 (length ts) (ok tt, step_on (record { current = t; rest = ts }))
step_on-IsGood t [] other good = absurd (ground (arith, other, good, text_eq_iff t.kind "EOF"))
step_on-IsGood t (u ∷ ts) other good = (good, omega arith)

pub advance_at :
    {B : Type 0} (k n : ℕ) (f : Unit → Parse B) (s : Cursor)
    → text_eq s.current.kind "EOF" ≡ false
    → IsGood s
    → ((t : Cursor) → IsGood t → length t.rest + 1 ≤ length s.rest → Outcome k n (f tt t))
    → Outcome k n ((advance >>= f) s)
unfolding ◌>>=◌
advance_at k n f s other good next =
    let taken = step_on-IsGood s.current s.rest other good in next (step_on s) taken.0 taken.1

-- `_expect` takes the token, if that is not EOF.
pub expect-Takes : (w : String) → text_eq w "EOF" ≡ false → Takes 1 (expect w)
unfolding expect
expect-Takes w other = record {
  holds = λ s good.
      gets_at 1 (length s.rest) (λ c. c.current) _ s
        (if_at 1 (length s.rest) (text_eq s.current.kind w) _ _ s
          (λ same.
            advance_at 1 (length s.rest) _ s
              (ground (arith, same, other, text_eq_iff s.current.kind w)) good
              (λ t good_t room. pure_at 1 (length s.rest) s.current t good_t room))
          (λ _. fail_at Token 1 (length s.rest) _ _ s refl));
}

expect-IsGood :
    (w : String) (s : Cursor) → IsGood s → Outcome 0 (length s.rest) (ok s.current, step_on s)
expect-IsGood w s good =
    elim s.rest
        as (λ ts.
          EndsInEof (s.current ∷ ts)
          → Outcome 0 (length ts)
              (ok s.current, step_on (record { current = s.current; rest = ts }))) [
                | [] ↦ λ g. (g, omega arith)
                | u ∷ us ↦ λ g. (g, omega arith)
              ]
      good

skip_from-IsGood :
    (t : Token) (ts : List Token)
    → EndsInEof (t ∷ ts)
    → Outcome 0 (length ts) (ok tt, skip_from t ts)
skip_from-IsGood t [] good = (good, omega arith)
skip_from-IsGood t (u ∷ us) good = elim (Bool-cases (text_eq t.kind "NEWLINE")) [
  | inl line ↦ rw line (let h = skip_from-IsGood u us good in (h.0, omega (arith, h.1)))
  | inr other ↦ rw other (good, omega arith)
]

pub skip_newlines-Takes : Takes 0 skip_newlines
unfolding skip_newlines ◌>>=◌
skip_newlines-Takes = record { holds = λ s good. skip_from-IsGood s.current s.rest good }

pub line_end-Takes : Takes 0 line_end
unfolding line_end
line_end-Takes = record {
  holds = λ s good.
      gets_at 0 (length s.rest) (λ c. c.current.kind) _ s
        (if_at 0 (length s.rest) (text_eq s.current.kind "NEWLINE") _ _ s
          (λ _. skip_newlines-Takes.holds s good)
          (λ _.
            if_at 0 (length s.rest) (ends_line s.current.kind) _ _ s
              (λ _. pure_at 0 (length s.rest) tt s good (omega arith))
              (λ _. fail_at Unit 0 (length s.rest) _ _ s refl)));
}

scalar_eof : is_scalar "EOF" ≡ true → ⊥
scalar_eof h = ground (arith, h)

is_scalar-eof : (k : String) → is_scalar k ≡ true → text_eq k "EOF" ≡ false
is_scalar-eof k h = elim (Bool-cases (text_eq k "EOF")) [
  | inl eof ↦ absurd (scalar_eof (subst (λ j. is_scalar j ≡ true) ((text_eq_iff k "EOF").0 eof) h))
  | inr other ↦ other
]

pub scalar-Takes : (description : String) → Takes 1 (scalar description)
unfolding scalar
scalar-Takes description = record {
  holds = λ s good.
      gets_at 1 (length s.rest) (λ c. c.current) _ s
        (if_at 1 (length s.rest) (is_scalar s.current.kind) _ _ s
          (λ is.
            advance_at 1 (length s.rest) _ s (is_scalar-eof s.current.kind is) good
              (λ t good_t room. pure_at 1 (length s.rest) s.current.value t good_t room))
          (λ _. fail_at Codes 1 (length s.rest) _ _ s refl));
}

pub known : (k w : String) → text_eq k w ≡ true → text_eq w "EOF" ≡ false → text_eq k "EOF" ≡ false
known k w same other = ground (arith, same, other, text_eq_iff k w)

pub scalars-Outcome :
    (fuel : ℕ) (description : String) (values : List Codes) (n : ℕ) (s : Cursor)
    → IsGood s
    → length s.rest < fuel
    → length s.rest ≤ n
    → Outcome 1 n (scalars fuel description values s)
unfolding scalars
scalars-Outcome zero description values n s good room le = absurd (omega (arith, room))
scalars-Outcome (suc fuel) description values n s good room le =
    bind_at 1 n 1 (scalar description) _ s (scalar-Takes description) good (λ value t good_t taken.
      gets_at 1 n (λ c. c.current.kind) _ t
        (if_at 1 n (text_eq t.current.kind "]") _ _ t
          (λ close.
            advance_at 1 n _ t (known t.current.kind "]" close refl) good_t
              (λ u good_u more. pure_at 1 n _ u good_u (omega (arith, taken, more, le))))
          (λ _.
            bind_at 1 n 1 (expect ",") _ t (expect-Takes "," refl) good_t (λ comma u good_u more.
              scalars-Outcome fuel description _ n u good_u (omega (arith, taken, more, room))
                (omega (arith, taken, more, le))))))

pub list_of_scalars-Takes : (description : String) → Takes 1 (list_of_scalars description)
unfolding list_of_scalars
list_of_scalars-Takes description = record {
  holds = λ s good.
      bind_at 1 (length s.rest) 1 (expect "[") _ s (expect-Takes "[" refl) good
        (λ bracket t good_t taken.
          gets_at 1 (length s.rest) (λ c. c.current.kind) _ t
            (if_at 1 (length s.rest) (text_eq t.current.kind "]") _ _ t
              (λ close.
                advance_at 1 (length s.rest) _ t (known t.current.kind "]" close refl) good_t
                  (λ u good_u more.
                    pure_at 1 (length s.rest) _ u good_u (omega (arith, taken, more))))
              (λ _.
                gets_at 1 (length s.rest) (λ c. suc (length c.rest)) _ t
                  (scalars-Outcome (suc (length t.rest)) description [] (length s.rest) t good_t
                    (omega arith) (omega (arith, taken))))));
}

-- A bare `_advance` from a token that is not EOF
pub step_at :
    (s : Cursor)
    → text_eq s.current.kind "EOF" ≡ false
    → IsGood s
    → Outcome 1 (length s.rest) (advance s)
unfolding ◌>>=◌
step_at s other good = step_on-IsGood s.current s.rest other good

-- `_expect` of any kind keeps the last token.
pub expect_last-Takes : (w : String) → Takes 0 (expect w)
unfolding expect ◌>>=◌
expect_last-Takes w = record {
  holds = λ s good.
      if_at 0 (length s.rest) (text_eq s.current.kind w) _ _ s (λ _. expect-IsGood w s good)
        (λ _.
          fail_at Token 0 (length s.rest) "expected {}, got {}"
            (codes w ∷ codes s.current.kind ∷ []) s refl);
}
