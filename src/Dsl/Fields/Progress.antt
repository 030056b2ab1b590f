-- ===== src/Dsl/Fields/Progress.antt =====
-- The fields of a task in `Parser` of sdk/python/src/helixgrid/dsl.py take tokens, and their loops
-- come to an end.
use helix_grid.Prelude.{
  ℕ, zero, suc, ◌*◌, ◌≤◌, ◌<◌, ◌≡◌, refl, String, text_eq, Bool, true, false, not, ◌||◌, List, [],
  ◌∷◌, Option, none, some, ltb, ◌==◌, ◌%◌, if◌then◌else◌, arith, length, mem_text,
}
use helix_grid.Prelude.Codes.{Codes, Table, leading, after, is_digit, has_key, number}
use helix_grid.Prelude.Exec.{Result, ok, err}
use helix_grid.Dsl.Types.{DslError, Retry, default_retry}
use helix_grid.Dsl.Durations.{
  scaled, multiplier, to_seconds, duration_to_milliseconds, duration_to_seconds,
}
use helix_grid.Dsl.Shell.{split}
use helix_grid.Dsl.Cursor.{Cursor, expect, scalar}
use helix_grid.Dsl.Cursor.Progress.{
  IsGood, Outcome, Takes, pure_at, fail_at, raise_at, if_at, gets_at, bind_at, advance_at,
  expect-Takes, scalar-Takes, list_of_scalars-Takes, known, weaken, step_at, then_at,
}
use helix_grid.Dsl.Fields.{
  from_result, milliseconds, whole_seconds, retry_option, skip_comma, ends_retry, is_retry_option,
  retry_options, check_retry, retry_policy, shell_command, parse_command, named_value,
}

-- The error of a result is not that of a loop without fuel.
abbrev IsPlain : {A : Type 0} → Result DslError A → Type 0
IsPlain (ok a) = Unit
IsPlain (err e) = text_eq e.message "out of fuel" ≡ false

if-IsPlain :
    (b : Bool) (x y : Result DslError ℕ) → IsPlain x → IsPlain y → IsPlain (if b then x else y)
if-IsPlain true x y hx hy = hx
if-IsPlain false x y hx hy = hy

scaled-IsPlain : (s : Codes) (u : Option ℕ) (line column : ℕ) → IsPlain (scaled s u line column)
unfolding scaled
scaled-IsPlain [] u line column = refl
scaled-IsPlain (d ∷ ds) none line column = refl
scaled-IsPlain (d ∷ ds) (some m) line column =
    if-IsPlain (ltb 86400000 (number (d ∷ ds) * m)) _ _ refl tt

to_seconds-IsPlain :
    (r : Result DslError ℕ) (line column : ℕ) → IsPlain r → IsPlain (to_seconds r line column)
to_seconds-IsPlain (ok n) line column h = if-IsPlain (n % 1000 == 0) _ _ tt refl
to_seconds-IsPlain (err e) line column h = h

from_result-Takes : {A : Type 0} (r : Result DslError A) → IsPlain r → Takes 0 (from_result r)
from_result-Takes {A} (ok a) h = record {
  holds = λ s good. pure_at 0 (length s.rest) a s good (omega arith);
}
from_result-Takes {A} (err e) h = record { holds = λ s good. raise_at A 0 (length s.rest) e s h }

milliseconds-Takes : Takes 1 milliseconds
unfolding milliseconds duration_to_milliseconds
milliseconds-Takes = record {
  holds = λ s good.
      bind_at 1 (length s.rest) 1 (expect "DURATION") _ s (expect-Takes "DURATION" refl) good
        (λ d t good_t taken. weaken 0 1 (length t.rest) (length s.rest) _ (omega (arith, taken)) (
          (from_result-Takes (duration_to_milliseconds d.value d.line d.column) (
              scaled-IsPlain (leading is_digit d.value) (multiplier (after is_digit d.value)) d.line
                d.column)).holds
            t good_t));
}

pub whole_seconds-Takes : Takes 1 whole_seconds
unfolding whole_seconds duration_to_seconds duration_to_milliseconds
whole_seconds-Takes = record {
  holds = λ s good.
      bind_at 1 (length s.rest) 1 (expect "DURATION") _ s (expect-Takes "DURATION" refl) good
        (λ d t good_t taken. weaken 0 1 (length t.rest) (length s.rest) _ (omega (arith, taken)) (
          (from_result-Takes (duration_to_seconds d.value d.line d.column) (
              to_seconds-IsPlain (duration_to_milliseconds d.value d.line d.column) d.line d.column
                (scaled-IsPlain (leading is_digit d.value) (multiplier (after is_digit d.value))
                  d.line d.column))).holds
            t good_t));
}

retry_option-Takes : (key : String) (r : Retry) → Takes 1 (retry_option key r)
unfolding retry_option
retry_option-Takes key r = record {
  holds = λ s good.
      if_at 1 (length s.rest) (text_eq key "attempts") _ _ s
        (λ _.
          bind_at 1 (length s.rest) 1 (expect "INTEGER") _ s (expect-Takes "INTEGER" refl) good
            (λ i t good_t taken. pure_at 1 (length s.rest) _ t good_t taken))
        (λ _.
          bind_at 1 (length s.rest) 1 milliseconds _ s milliseconds-Takes good
            (λ ms t good_t taken. pure_at 1 (length s.rest) _ t good_t taken));
}

skip_comma-Takes : Takes 0 skip_comma
skip_comma-Takes = record {
  holds = λ s good.
      gets_at 0 (length s.rest) (λ c. c.current.kind) _ s
        (if_at 0 (length s.rest) (text_eq s.current.kind ",") _ _ s
          (λ comma.
            weaken 1 0 (length s.rest) (length s.rest) _ (omega arith)
              (step_at s (known s.current.kind "," comma refl) good))
          (λ _. pure_at 0 (length s.rest) tt s good (omega arith)));
}

not_eof : (k : String) → ends_retry k ≡ false → text_eq k "EOF" ≡ false
not_eof k h = ground (arith, h)

retry_options-Outcome :
    (fuel : ℕ) (consumed : List String) (r : Retry) (n : ℕ) (s : Cursor)
    → IsGood s
    → length s.rest < fuel
    → length s.rest ≤ n
    → Outcome 0 n (retry_options fuel consumed r s)
unfolding retry_options
retry_options-Outcome zero consumed r n s good room le = absurd (omega (arith, room))
retry_options-Outcome (suc fuel) consumed r n s good room le =
    let key = s.current.kind in
    gets_at 0 n (λ c. c.current.kind) _ s
      (if_at 0 n (ends_retry key) _ _ s (λ _. pure_at 0 n r s good (omega (arith, le)))
        (λ more.
          if_at 0 n (not (is_retry_option key)) _ _ s (λ _. fail_at Retry 0 n _ _ s refl)
            (λ option.
              if_at 0 n (mem_text key consumed) _ _ s (λ _. fail_at Retry 0 n _ _ s refl)
                (λ _. advance_at 0 n _ s (not_eof key more) good (λ t good_t taken.
                  bind_at 0 n 1 (expect "=") _ t (expect-Takes "=" refl) good_t
                    (λ equals u good_u a.
                      bind_at 0 n 1 (retry_option key r) _ u (retry_option-Takes key r) good_u
                        (λ next v good_v b.
                          bind_at 0 n 0 skip_comma _ v skip_comma-Takes good_v (λ _ w good_w c.
                            retry_options-Outcome fuel _ next n w good_w
                              (omega (arith, taken, a, b, c, room))
                              (omega (arith, taken, a, b, c, le))))))))))

check_retry-Takes : (r : Retry) → Takes 0 (check_retry r)
unfolding check_retry
check_retry-Takes r = record {
  holds = λ s good.
      if_at 0 (length s.rest) (ltb r.max_attempts 1 || ltb 100 r.max_attempts) _ _ s
        (λ _. fail_at Retry 0 (length s.rest) _ _ s refl)
        (λ _.
          if_at 0 (length s.rest) (ltb r.base_delay_ms 1) _ _ s
            (λ _. fail_at Retry 0 (length s.rest) _ _ s refl)
            (λ _.
              if_at 0 (length s.rest) (ltb r.max_delay_ms r.base_delay_ms) _ _ s
                (λ _. fail_at Retry 0 (length s.rest) _ _ s refl)
                (λ _. pure_at 0 (length s.rest) r s good (omega arith))));
}

retry_all-Takes :
    (fuel : ℕ) (s : Cursor)
    → IsGood s
    → length s.rest < fuel
    → Outcome 0 (length s.rest) (retry_options fuel [] default_retry s)
retry_all-Takes fuel s good room =
    retry_options-Outcome fuel [] default_retry (length s.rest) s good room (omega arith)

pub retry_policy-Takes : Takes 0 retry_policy
unfolding retry_policy
retry_policy-Takes = record {
  holds = λ s good.
      gets_at 0 (length s.rest) (λ c. suc (length c.rest)) _ s
        (then_at 0 (length s.rest) 0 (length s.rest)
          (retry_options (suc (length s.rest)) [] default_retry) _ s
          (retry_all-Takes (suc (length s.rest)) s good (omega arith))
          (λ r t good_t taken.
            weaken 0 0 (length t.rest) (length s.rest) _ (omega (arith, taken))
              ((check_retry-Takes r).holds t good_t)));
}

shell_command-Takes : (o : Option (List Codes)) → Takes 0 (shell_command o)
shell_command-Takes none = record {
  holds = λ s good. fail_at (List Codes) 0 (length s.rest) _ _ s refl;
}
shell_command-Takes (some []) = record {
  holds = λ s good. fail_at (List Codes) 0 (length s.rest) _ _ s refl;
}
shell_command-Takes (some (w ∷ ws)) = record {
  holds = λ s good. pure_at 0 (length s.rest) (w ∷ ws) s good (omega arith);
}

pub parse_command-Takes : Takes 1 parse_command
unfolding parse_command
parse_command-Takes = record {
  holds = λ s good.
      gets_at 1 (length s.rest) (λ c. c.current.kind) _ s
        (if_at 1 (length s.rest) (text_eq s.current.kind "[") _ _ s
          (λ _. (list_of_scalars-Takes "command argument").holds s good)
          (λ _.
            bind_at 1 (length s.rest) 1 (scalar "command") _ s (scalar-Takes "command") good
              (λ value t good_t taken.
                weaken 0 1 (length t.rest) (length s.rest) _ (omega (arith, taken))
                  ((shell_command-Takes (split value)).holds t good_t))));
}

pub named_value-Takes :
    (a b c : String) (d : Table Codes)
    → text_eq c "out of fuel" ≡ false
    → Takes 1 (named_value a b c d)
unfolding named_value
named_value-Takes a b c d plain = record {
  holds = λ s good.
      bind_at 1 (length s.rest) 1 (scalar a) _ s (scalar-Takes a) good (λ name t good_t x.
        bind_at 1 (length s.rest) 1 (expect "=") _ t (expect-Takes "=" refl) good_t
          (λ equals u good_u y.
            bind_at 1 (length s.rest) 1 (scalar b) _ u (scalar-Takes b) good_u (λ value v good_v z.
              if_at 1 (length s.rest) (has_key name d) _ _ v
                (λ _. fail_at (Table Codes) 1 (length s.rest) _ _ v plain)
                (λ _. pure_at 1 (length s.rest) _ v good_v (omega (arith, x, y, z))))));
}
