-- ===== src/Dsl/Parser/Tasks.antt =====
-- What the fields of a parsed task satisfy: `Parser._parse_task` and `Parser._retry_policy` of
-- sdk/python/src/helixgrid/dsl.py.
use helix_grid.Prelude.{
  ℕ, zero, suc, ◌≤◌, ◌≡◌, refl, String, text_eq, not, ◌&&◌, ◌||◌, List, [], ◌∷◌, Option, none, some,
  ltb, ◌==◌, arith, mem_text, length,
}
use helix_grid.Prelude.Codes.{Codes, leading, after, is_digit}
use helix_grid.Prelude.Exec.{Result, ok, err, pure, ◌>>=◌, ◌>>◌}
use helix_grid.Prelude.Exec.Returns.{
  Returns, Returns-pure, Returns-raise, Returns-if, Returns-bind, Returns-after,
}
use helix_grid.Dsl.Types.{DslError, Retry, TaskNode, empty_task}
use helix_grid.Dsl.Durations.{
  scaled, multiplier, to_seconds, duration_to_milliseconds, duration_to_seconds,
}
use helix_grid.Dsl.Cursor.{Parse, fail, advance}
use helix_grid.Dsl.Parser.{task_fields, with_command, parse_task}
use helix_grid.Dsl.Fields.{
  from_result, whole_seconds, check_retry, retry_policy, field, is_repeatable,
}

-- What the server asks of a retry policy
abbrev pub IsBounded : Retry → Type 0
IsBounded r =
    (1 ≤ r.max_attempts)
    × (r.max_attempts ≤ 100)
    × (1 ≤ r.base_delay_ms)
    × (r.base_delay_ms ≤ r.max_delay_ms)

abbrev pub IsValid : TaskNode → Type 0
IsValid t = IsBounded t.retry × (t.timeout_seconds ≤ 86400)

pub Returns-fail :
    {A : Type 0} (P : A → Type 0) (message : String) (quoted : List Codes)
    → Returns P (fail {A = A} message quoted)
Returns-fail P message quoted = Returns-after P _ _ (λ t. Returns-raise P _)

pub Returns-from_result :
    {A : Type 0} (P : A → Type 0) (r : Result DslError A)
    → ((a : A) → r ≡ ok a → P a)
    → Returns P (from_result r)
Returns-from_result P (ok a) h = Returns-pure P a (h a refl)
Returns-from_result P (err e) h = Returns-raise P e

check_retry-IsBounded : (r : Retry) → Returns IsBounded (check_retry r)
unfolding check_retry
check_retry-IsBounded r =
    Returns-if IsBounded (ltb r.max_attempts 1 || ltb 100 r.max_attempts) _ _
      (λ _. Returns-fail IsBounded _ _)
      (λ a.
        Returns-if IsBounded (ltb r.base_delay_ms 1) _ _ (λ _. Returns-fail IsBounded _ _)
          (λ b.
            Returns-if IsBounded (ltb r.max_delay_ms r.base_delay_ms) _ _
              (λ _. Returns-fail IsBounded _ _)
              (λ c. Returns-pure IsBounded r (ground (arith, a, b, c)))))

retry_policy-IsBounded : Returns IsBounded retry_policy
unfolding retry_policy
retry_policy-IsBounded =
    Returns-after IsBounded _ _ (λ fuel. Returns-after IsBounded _ _ (λ r. check_retry-IsBounded r))

scaled-le :
    (s : Codes) (unit : Option ℕ) (line column n : ℕ)
    → scaled s unit line column ≡ ok n
    → n ≤ 86400000
unfolding scaled
scaled-le [] unit line column n h = absurd (ground (arith, h))
scaled-le (d ∷ ds) none line column n h = absurd (ground (arith, h))
scaled-le (d ∷ ds) (some m) line column n h = ground (arith, h)

-- `86400000 / 1000`
to_seconds-le :
    (r : Result DslError ℕ) (line column n : ℕ)
    → ((k : ℕ) → r ≡ ok k → k ≤ 86400000)
    → to_seconds r line column ≡ ok n
    → n ≤ 86400
to_seconds-le (ok k) line column n h eq = ground (arith, h k refl, eq)
to_seconds-le (err e) line column n h eq = absurd (ground (arith, eq))

duration_to_seconds-le :
    (s : Codes) (line column n : ℕ) → duration_to_seconds s line column ≡ ok n → n ≤ 86400
unfolding duration_to_seconds duration_to_milliseconds
duration_to_seconds-le s line column n eq =
    to_seconds-le (duration_to_milliseconds s line column) line column n
      (λ k. scaled-le (leading is_digit s) (multiplier (after is_digit s)) line column k) eq

whole_seconds-le : Returns (λ n. n ≤ 86400) whole_seconds
unfolding whole_seconds
whole_seconds-le = Returns-after _ _ _ (λ t.
    Returns-from_result _ (duration_to_seconds t.value t.line t.column)
      (λ n eq. duration_to_seconds-le t.value t.line t.column n eq))

-- A part of the input is read into one field.
keeps :
    {A : Type 0} (put_in : A → TaskNode)
    → ((a : A) → IsValid (put_in a))
    → (m : Parse A) → Returns IsValid (advance >> (m >>= λ a. pure (put_in a)))
keeps put_in h m =
    Returns-after IsValid _ _
      (λ _. Returns-after IsValid _ _ (λ a. Returns-pure IsValid (put_in a) (h a)))

field-IsValid : (key : String) (t : TaskNode) → IsValid t → Returns IsValid (field key t)
unfolding field
field-IsValid key t h =
    Returns-if IsValid (text_eq key "run") _ _
      (λ _. keeps (λ c. record t { command = c }) (λ c. h) _)
      (λ _.
        Returns-if IsValid (text_eq key "needs") _ _
          (λ _. keeps (λ n. record t { depends_on = n }) (λ c. h) _)
          (λ _.
            Returns-if IsValid (text_eq key "env") _ _
              (λ _. keeps (λ e. record t { env = e }) (λ c. h) _)
              (λ _.
                Returns-if IsValid (text_eq key "labels") _ _
                  (λ _. keeps (λ e. record t { labels = e }) (λ c. h) _)
                  (λ _.
                    Returns-if IsValid (text_eq key "timeout") _ _
                      (λ _. Returns-after IsValid _ _ (λ _.
                        Returns-bind IsValid (λ n. n ≤ 86400) _ _ whole_seconds-le
                          (λ n le. Returns-pure IsValid _ (h.0, le))))
                      (λ _.
                        Returns-if IsValid (text_eq key "retry") _ _
                          (λ _. Returns-after IsValid _ _ (λ _.
                            Returns-bind IsValid IsBounded _ _ retry_policy-IsBounded
                              (λ r bounded. Returns-pure IsValid _ (bounded, h.1))))
                          (λ _. Returns-fail IsValid _ _))))))

-- The fields come to a valid task, from a valid one.
task_fields-IsValid :
    (fuel : ℕ) (seen : List String) (t : TaskNode)
    → IsValid t
    → Returns IsValid (task_fields fuel seen t)
unfolding task_fields
task_fields-IsValid zero seen t h = Returns-fail IsValid _ _
task_fields-IsValid (suc fuel) seen t h = Returns-after IsValid _ _ (λ key.
    Returns-if IsValid (text_eq key "}") _ _ (λ _. Returns-pure IsValid t h)
      (λ _.
        Returns-if IsValid (text_eq key "EOF") _ _ (λ _. Returns-fail IsValid _ _)
          (λ _.
            Returns-if IsValid (mem_text key seen && not (is_repeatable key)) _ _
              (λ _. Returns-fail IsValid _ _)
              (λ _. Returns-bind IsValid IsValid _ _ (field-IsValid key t h) (λ next valid.
                Returns-after IsValid _ _
                  (λ _. Returns-after IsValid _ _ (λ _. task_fields-IsValid fuel _ next valid)))))))

abbrev pub IsComplete : TaskNode → Type 0
IsComplete t = IsValid t × (1 ≤ length t.command)

with_command-IsComplete : (t : TaskNode) → IsValid t → Returns IsComplete (with_command t)
with_command-IsComplete t h =
    Returns-if IsComplete (length t.command == 0) _ _ (λ _. Returns-raise IsComplete _)
      (λ some_command. Returns-pure IsComplete t (h, ground (arith, some_command)))

pub parse_task-IsComplete : Returns IsComplete parse_task
unfolding parse_task
parse_task-IsComplete = Returns-after IsComplete _ _ (λ token. Returns-after IsComplete _ _ (λ id.
    Returns-after IsComplete _ _ (λ _. Returns-after IsComplete _ _ (λ _.
      Returns-after IsComplete _ _ (λ _. Returns-after IsComplete _ _ (λ fuel.
        Returns-bind IsComplete IsValid _ _
          (task_fields-IsValid fuel [] (empty_task id token.line) (ground arith))
          (λ t valid. Returns-after IsComplete _ _ (λ _. with_command-IsComplete t valid))))))))
