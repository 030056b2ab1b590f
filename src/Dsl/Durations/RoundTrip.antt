-- ===== src/Dsl/Durations/RoundTrip.antt =====
-- Reading back what `format_duration` prints, in sdk/python/src/helixgrid/dsl.py.
use helix_grid.Prelude.{
  ℕ, zero, suc, ◌+◌, ◌*◌, ◌/◌, ◌%◌, ◌≤◌, ◌<◌, ◌≡◌, refl, true, false, [], ◌∷◌, ◌++◌, some, ltb,
  ◌==◌, arith, inl, inr, Bool-cases, All, All-append, ◌∙◌, ap,
}
use helix_grid.Prelude.Codes.{Codes, leading, after, is_digit, number, number_from}
use helix_grid.Prelude.Codes.Numbers.{number_from-append}
use helix_grid.Prelude.Exec.{ok}
use helix_grid.Dsl.Durations.{
  multiplier, scaled, duration_to_milliseconds, digits_within, digits, format_duration,
}

abbrev Digit : ℕ → Type 0
Digit c = is_digit c ≡ true

leading-append : (s t : Codes) → All Digit s → leading is_digit (s ++ t) ≡ s ++ leading is_digit t
leading-append [] t h = refl
leading-append (c ∷ s) t h = rw (h.0, leading-append s t h.1) refl

after-append : (s t : Codes) → All Digit s → after is_digit (s ++ t) ≡ after is_digit t
after-append [] t h = refl
after-append (c ∷ s) t h = rw (h.0, after-append s t h.1) refl

number-digits_within : (fuel n : ℕ) → n < fuel → number_from 0 (digits_within fuel n) ≡ n
unfolding digits_within
number-digits_within zero n h = absurd (omega arith)
number-digits_within (suc fuel) n h = elim (Bool-cases (ltb n 10)) [
  | inl small ↦ rw small (ground arith)
  | inr large ↦
      rw
        (
          large,
          number_from-append 0 (digits_within fuel (n / 10)) (b'0' + n % 10),
          number-digits_within fuel (n / 10) (ground arith),
        )
        (ground arith)
]

digits_within-All : (fuel n : ℕ) → All Digit (digits_within fuel n)
unfolding digits_within
digits_within-All zero n = tt
digits_within-All (suc fuel) n = elim (Bool-cases (ltb n 10)) [
  | inl small ↦ rw small (ground arith, tt)
  | inr large ↦ rw large (
      All-append Digit (digits_within fuel (n / 10)) _ (digits_within-All fuel (n / 10))
        (ground arith, tt))
]

append-nil : (s : Codes) → s ++ [] ≡ s
append-nil [] = refl
append-nil (c ∷ s) = rw (append-nil s) refl

append-cons : (s : Codes) (c : ℕ) → (d : ℕ) × (ds : Codes) × (s ++ c ∷ [] ≡ d ∷ ds)
append-cons [] c = (_, _, refl)
append-cons (d ∷ s) c = (_, _, refl)

digits-cons : (n : ℕ) → (d : ℕ) × (ds : Codes) × (digits n ≡ d ∷ ds)
unfolding digits digits_within
digits-cons n = elim (Bool-cases (ltb n 10)) [
  | inl small ↦ rw small (_, _, refl)
  | inr large ↦ rw large (append-cons (digits_within n (n / 10)) _)
]

digits-number : (n : ℕ) → number (digits n) ≡ n
unfolding digits
digits-number n = number-digits_within (suc n) n (omega arith)

digits-All : (n : ℕ) → All Digit (digits n)
unfolding digits
digits-All n = digits_within-All (suc n) n

scaled-some :
    (s : Codes) (m line column : ℕ) {d : ℕ} {ds : Codes}
    → s ≡ d ∷ ds
    → number s * m ≤ 86400000
    → scaled s (some m) line column ≡ ok (number s * m)
unfolding scaled
scaled-some [] m line column shape bound = absurd (ground arith)
scaled-some (d ∷ ds) m line column shape bound = ground arith

-- Digits, a unit and how the unit is read: the duration is the product.
read_digits :
    (n u : ℕ) (us : Codes) (m line column : ℕ)
    → is_digit u ≡ false
    → multiplier (u ∷ us) ≡ some m
    → n * m ≤ 86400000
    → duration_to_milliseconds (digits n ++ u ∷ us) line column ≡ ok (n * m)
unfolding duration_to_milliseconds
read_digits n u us m line column not_digit unit bound =
    let (d, ds, shape) = digits-cons n in
    let back = digits-number n in
    rw
      (
        leading-append (digits n) (u ∷ us) (digits-All n),
        after-append (digits n) (u ∷ us) (digits-All n),
        not_digit,
        append-nil (digits n),
        unit,
      )
      (scaled-some (digits n) m line column shape (rw back bound) ∙ ap ok (rw back refl))

read_exact :
    (n u : ℕ) (us : Codes) (m ms line column : ℕ)
    → is_digit u ≡ false
    → multiplier (u ∷ us) ≡ some m
    → n * m ≡ ms
    → ms ≤ 86400000
    → duration_to_milliseconds (digits n ++ u ∷ us) line column ≡ ok ms
read_exact n u us m ms line column not_digit unit exact bound =
    read_digits n u us m line column not_digit unit (omega (arith, exact, bound)) ∙ ap ok exact

-- A duration of at most 24 hours, printed and read again, is itself.
pub duration_to_milliseconds-format_duration :
    (ms line column : ℕ)
    → ms ≤ 86400000
    → duration_to_milliseconds (format_duration ms) line column ≡ ok ms
unfolding format_duration multiplier
duration_to_milliseconds-format_duration ms line column bound =
    elim (Bool-cases (ms % 3600000 == 0)) [
      | inl hours ↦
          rw hours (
            read_exact (ms / 3600000) b'h' [] 3600000 ms line column refl refl (ground arith) bound)
      | inr a ↦ elim (Bool-cases (ms % 60000 == 0)) [
        | inl minutes ↦
            rw (a, minutes)
              (read_exact (ms / 60000) b'm' [] 60000 ms line column refl refl (ground arith) bound)
        | inr b ↦ elim (Bool-cases (ms % 1000 == 0)) [
          | inl seconds ↦
              rw (a, b, seconds)
                (read_exact (ms / 1000) b's' [] 1000 ms line column refl refl (ground arith) bound)
          | inr c ↦
              rw (a, b, c)
                (read_exact ms b'm' (b's' ∷ []) 1 ms line column refl refl (ground arith) bound)
        ]
      ]
    ]
