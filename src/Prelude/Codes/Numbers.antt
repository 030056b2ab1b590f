-- ===== src/Prelude/Codes/Numbers.antt =====
-- Reading back a printed number: the code points of `str(n)` are those digits that give `n`. Models
-- no code by itself.
use Prim.Native.Nat.{ℕ, zero, suc, ◌+◌, ◌-◌, ◌*◌, ◌/◌, ◌%◌, ◌<◌}
use Prim.Native.String.{String}
use mathlib.Core.Path.{◌≡◌, refl, ap, ◌∙◌}
use mathlib.Core.Logic.{inl, inr}
use mathlib.Core.Bool.{true}
use mathlib.Core.List.{[], ◌∷◌, ◌++◌}
use text.Mathlib.TextLemmas
use native.Mathlib.Omega.{arith}
use helix_grid.Prelude.Tests.{ltb, Bool-cases}
use helix_grid.Prelude.Texts.{◌&◌, digit, decimal_within, decimal}
use helix_grid.Prelude.Lists.{All, All-append}
use helix_grid.Prelude.Codes.{Codes, codes, number_from, number, is_digit}
use Prim.Native.Char.{code}

pub number_from-append :
    (n : ℕ) (s : Codes) (c : ℕ) → number_from n (s ++ c ∷ []) ≡ number_from n s * 10 + (c - b'0')
number_from-append n [] c = refl
number_from-append n (d ∷ s) c = number_from-append (n * 10 + (d - b'0')) s c

pub codes-append : (s t : String) → codes (s & t) ≡ codes s ++ codes t
codes-append String.[] t = ap codes (TextLemmas.nil-append t)
codes-append (String.◌∷◌ c s) t =
    ap codes (TextLemmas.cons-append c s t) ∙ ap (λ r. code c ∷ r) (codes-append s t)

codes-digit : (n : ℕ) → n < 10 → codes (digit n) ≡ (b'0' + n) ∷ []
unfolding digit
codes-digit zero h = refl
codes-digit (suc zero) h = refl
codes-digit (suc (suc zero)) h = refl
codes-digit (suc (suc (suc zero))) h = refl
codes-digit (suc (suc (suc (suc zero)))) h = refl
codes-digit (suc (suc (suc (suc (suc zero))))) h = refl
codes-digit (suc (suc (suc (suc (suc (suc zero)))))) h = refl
codes-digit (suc (suc (suc (suc (suc (suc (suc zero))))))) h = refl
codes-digit (suc (suc (suc (suc (suc (suc (suc (suc zero)))))))) h = refl
codes-digit (suc (suc (suc (suc (suc (suc (suc (suc (suc zero))))))))) h = refl
codes-digit (suc (suc (suc (suc (suc (suc (suc (suc (suc (suc n)))))))))) h = absurd (omega arith)

number-decimal_within : (fuel n : ℕ) → n < fuel → number (codes (decimal_within fuel n)) ≡ n
unfolding decimal_within
number-decimal_within zero n h = absurd (omega arith)
number-decimal_within (suc fuel) n h = elim (Bool-cases (ltb n 10)) [
  | inl small ↦ rw (small, codes-digit n (ground arith)) (ground arith)
  | inr large ↦
      rw
        (
          large,
          codes-append (decimal_within fuel (n / 10)) (digit (n % 10)),
          codes-digit (n % 10) (omega arith),
          number_from-append 0 (codes (decimal_within fuel (n / 10))) (b'0' + n % 10),
          number-decimal_within fuel (n / 10) (ground arith),
        )
        (ground arith)
]

pub number-decimal : (n : ℕ) → number (codes (decimal n)) ≡ n
unfolding decimal
number-decimal n = number-decimal_within (suc n) n (omega arith)

decimal_within-All : (fuel n : ℕ) → All (λ c. is_digit c ≡ true) (codes (decimal_within fuel n))
unfolding decimal_within
decimal_within-All zero n = tt
decimal_within-All (suc fuel) n = elim (Bool-cases (ltb n 10)) [
  | inl small ↦ rw (small, codes-digit n (ground arith)) (ground arith, tt)
  | inr large ↦
      rw
        (
          large,
          codes-append (decimal_within fuel (n / 10)) (digit (n % 10)),
          codes-digit (n % 10) (omega arith),
        )
        (All-append _ (codes (decimal_within fuel (n / 10))) _ (decimal_within-All fuel (n / 10))
          (ground arith, tt))
]

-- A printed number is digits only.
pub decimal-All : (n : ℕ) → All (λ c. is_digit c ≡ true) (codes (decimal n))
unfolding decimal
decimal-All n = decimal_within-All (suc n) n
