-- ===== src/Dsl/Parser/Fuel.antt =====
-- The loops of `Parser` in sdk/python/src/helixgrid/dsl.py come to an end: the fuel that the model
-- gives them is enough.
use helix_grid.Prelude.{
  ℕ, zero, suc, ◌≤◌, ◌<◌, ◌≡◌, ◌≢◌, refl, ap, sym, ◌∙◌, String, text_eq, text_eq_iff, false, not,
  ◌&&◌, List, [], ◌∷◌, ◌==◌, arith, length, mem_text,
}
use helix_grid.Prelude.Codes.{Codes, has_key, mem_codes}
use helix_grid.Prelude.Exec.{Result, ok, err, pure, ◌>>=◌, ◌>>◌}
use helix_grid.Dsl.Types.{DslError, Token, TaskNode, WorkflowNode, empty_task}
use helix_grid.Dsl.Lexer.{tokens}
use helix_grid.Dsl.Lexer.Ends.{EndsInEof, tokens-EndsInEof}
use helix_grid.Dsl.Cursor.{
  Cursor, Parse, expect, scalar, skip_newlines, line_end, list_of_scalars, advance,
}
use helix_grid.Dsl.Cursor.Progress.{
  IsGood, Outcome, Takes, pure_at, fail_at, raise_at, if_at, gets_at, bind_at, advance_at,
  expect-Takes, scalar-Takes, list_of_scalars-Takes, skip_newlines-Takes, line_end-Takes,
  expect_last-Takes, weaken, then_at,
}
use helix_grid.Dsl.Fields.{
  field, named_value, parse_command, whole_seconds, retry_policy, is_repeatable,
}
use helix_grid.Dsl.Fields.Progress.{
  parse_command-Takes, named_value-Takes, whole_seconds-Takes, retry_policy-Takes,
}
use helix_grid.Dsl.Parser.{
  task_fields, with_command, parse_task, parse_meta, node_ids, add_task, entry, entries,
  parse_tokens, parse_all, parse,
}

-- `_advance`, a part of the input, and the field that it fills
filled :
    {A : Type 0} (i : ℕ) (m : Parse A) (put_in : A → TaskNode) (s : Cursor)
    → Takes i m
    → text_eq s.current.kind "EOF" ≡ false
    → IsGood s
    → Outcome 1 (length s.rest) ((advance >> (m >>= λ a. pure (put_in a))) s)
filled i m put_in s takes other good = advance_at 1 (length s.rest) _ s other good (λ t good_t x.
    bind_at 1 (length s.rest) i m _ t takes good_t
      (λ a u good_u y. pure_at 1 (length s.rest) (put_in a) u good_u (omega (arith, x, y))))

field-Outcome :
    (key : String) (task : TaskNode) (s : Cursor)
    → text_eq s.current.kind "EOF" ≡ false
    → IsGood s
    → Outcome 1 (length s.rest) (field key task s)
unfolding field
field-Outcome key task s other good =
    let n = length s.rest in
    if_at 1 n (text_eq key "run") _ _ s
      (λ _. filled 1 parse_command _ s parse_command-Takes other good)
      (λ _.
        if_at 1 n (text_eq key "needs") _ _ s
          (λ _.
            filled 1 (list_of_scalars "dependency") _ s (list_of_scalars-Takes "dependency") other
              good)
          (λ _.
            if_at 1 n (text_eq key "env") _ _ s
              (λ _.
                filled 1
                  (named_value "environment variable name" "environment variable value"
                    "duplicate environment variable {}" task.env)
                  (λ t. record task { env = t }) s
                  (named_value-Takes "environment variable name" "environment variable value"
                    "duplicate environment variable {}" task.env refl)
                  other good)
              (λ _.
                if_at 1 n (text_eq key "labels") _ _ s
                  (λ _.
                    filled 1
                      (named_value "label name" "label value" "duplicate label {}" task.labels)
                      (λ t. record task { labels = t }) s
                      (named_value-Takes "label name" "label value" "duplicate label {}" task.labels
                        refl)
                      other good)
                  (λ _.
                    if_at 1 n (text_eq key "timeout") _ _ s
                      (λ _. filled 1 whole_seconds _ s whole_seconds-Takes other good)
                      (λ _.
                        if_at 1 n (text_eq key "retry") _ _ s
                          (λ _. filled 0 retry_policy _ s retry_policy-Takes other good)
                          (λ _. fail_at TaskNode 1 n _ _ s refl))))))

task_fields-Outcome :
    (fuel : ℕ) (seen : List String) (task : TaskNode) (n : ℕ) (s : Cursor)
    → IsGood s
    → length s.rest < fuel
    → length s.rest ≤ n
    → Outcome 0 n (task_fields fuel seen task s)
unfolding task_fields
task_fields-Outcome zero seen task n s good room le = absurd (omega (arith, room))
task_fields-Outcome (suc fuel) seen task n s good room le =
    let key = s.current.kind in
    gets_at 0 n (λ c. c.current.kind) _ s
      (if_at 0 n (text_eq key "}") _ _ s (λ _. pure_at 0 n task s good (omega (arith, le)))
        (λ _.
          if_at 0 n (text_eq key "EOF") _ _ s (λ _. fail_at TaskNode 0 n _ _ s refl)
            (λ other.
              if_at 0 n (mem_text key seen && not (is_repeatable key)) _ _ s
                (λ _. fail_at TaskNode 0 n _ _ s refl)
                (λ _.
                  then_at 0 n 1 (length s.rest) (field key task) _ s
                    (field-Outcome key task s other good)
                    (λ next t good_t a.
                      bind_at 0 n 0 line_end _ t line_end-Takes good_t (λ _ u good_u b.
                        bind_at 0 n 0 skip_newlines _ u skip_newlines-Takes good_u (λ _ v good_v c.
                          task_fields-Outcome fuel _ next n v good_v (omega (arith, a, b, c, room))
                            (omega (arith, a, b, c, le)))))))))

with_command-Takes : (task : TaskNode) → Takes 0 (with_command task)
with_command-Takes task = record {
  holds = λ s good.
      if_at 0 (length s.rest) (length task.command == 0) _ _ s
        (λ _. raise_at TaskNode 0 (length s.rest) _ s refl)
        (λ _. pure_at 0 (length s.rest) task s good (omega arith));
}

parse_task-Takes : Takes 1 parse_task
unfolding parse_task
parse_task-Takes = record {
  holds = λ s good.
      let n = length s.rest in
      bind_at 1 n 1 (expect "task") _ s (expect-Takes "task" refl) good (λ token t good_t a.
        bind_at 1 n 1 (scalar "task id") _ t (scalar-Takes "task id") good_t (λ id u good_u b.
          bind_at 1 n 0 skip_newlines _ u skip_newlines-Takes good_u (λ _ v good_v c.
            bind_at 1 n 1 (expect "{") _ v (expect-Takes "{" refl) good_v (λ _ w good_w d.
              bind_at 1 n 0 skip_newlines _ w skip_newlines-Takes good_w (λ _ x good_x e.
                gets_at 1 n (λ y. suc (length y.rest)) _ x
                  (then_at 1 n 0 (length x.rest)
                    (task_fields (suc (length x.rest)) [] (empty_task id token.line)) _ x
                    (task_fields-Outcome (suc (length x.rest)) [] (empty_task id token.line)
                      (length x.rest) x good_x (omega arith) (omega arith))
                    (λ task y good_y f.
                      bind_at 1 n 1 (expect "}") _ y (expect-Takes "}" refl) good_y (λ _ z good_z g.
                        weaken 0 1 (length z.rest) n _ (omega (arith, a, b, c, d, e, f, g))
                          ((with_command-Takes task).holds z good_z)))))))));
}

parse_meta-Takes : (w : WorkflowNode) → Takes 1 (parse_meta w)
unfolding parse_meta
parse_meta-Takes w = record {
  holds = λ s good.
      let n = length s.rest in
      bind_at 1 n 1 (expect "meta") _ s (expect-Takes "meta" refl) good (λ token t good_t a.
        bind_at 1 n 1 (scalar "metadata key") _ t (scalar-Takes "metadata key") good_t
          (λ key u good_u b.
            bind_at 1 n 1 (expect "=") _ u (expect-Takes "=" refl) good_u (λ _ v good_v c.
              bind_at 1 n 1 (scalar "metadata value") _ v (scalar-Takes "metadata value") good_v
                (λ value x good_x d.
                  if_at 1 n (has_key key w.metadata) _ _ x (λ _. raise_at WorkflowNode 1 n _ x refl)
                    (λ _.
                      bind_at 1 n 0 line_end _ x line_end-Takes good_x (λ _ y good_y e.
                        pure_at 1 n _ y good_y (omega (arith, a, b, c, d, e))))))));
}

add_task-Takes : (w : WorkflowNode) (task : TaskNode) → Takes 0 (add_task w task)
unfolding add_task
add_task-Takes w task = record {
  holds = λ s good.
      if_at 0 (length s.rest) (mem_codes task.id (node_ids w.tasks)) _ _ s
        (λ _. raise_at WorkflowNode 0 (length s.rest) _ s refl)
        (λ _. pure_at 0 (length s.rest) _ s good (omega arith));
}

entry-Takes : (key : String) (w : WorkflowNode) → Takes 1 (entry key w)
unfolding entry
entry-Takes key w = record {
  holds = λ s good.
      let n = length s.rest in
      if_at 1 n (text_eq key "meta") _ _ s (λ _. (parse_meta-Takes w).holds s good)
        (λ _.
          if_at 1 n (text_eq key "task") _ _ s
            (λ _. bind_at 1 n 1 parse_task _ s parse_task-Takes good (λ task t good_t a.
              weaken 0 1 (length t.rest) n _ (omega (arith, a))
                ((add_task-Takes w task).holds t good_t)))
            (λ _. fail_at WorkflowNode 1 n _ _ s refl));
}

entries-Outcome :
    (fuel : ℕ) (w : WorkflowNode) (n : ℕ) (s : Cursor)
    → IsGood s
    → length s.rest < fuel
    → length s.rest ≤ n
    → Outcome 0 n (entries fuel w s)
unfolding entries
entries-Outcome zero w n s good room le = absurd (omega (arith, room))
entries-Outcome (suc fuel) w n s good room le =
    let key = s.current.kind in
    gets_at 0 n (λ c. c.current.kind) _ s
      (if_at 0 n (text_eq key "}") _ _ s (λ _. pure_at 0 n w s good (omega (arith, le)))
        (λ _.
          if_at 0 n (text_eq key "EOF") _ _ s (λ _. fail_at WorkflowNode 0 n _ _ s refl)
            (λ _. bind_at 0 n 1 (entry key w) _ s (entry-Takes key w) good (λ next t good_t a.
              bind_at 0 n 0 skip_newlines _ t skip_newlines-Takes good_t (λ _ u good_u b.
                entries-Outcome fuel next n u good_u (omega (arith, a, b, room))
                  (omega (arith, a, b, le)))))))

parse_tokens-Takes : Takes 0 parse_tokens
unfolding parse_tokens
parse_tokens-Takes = record {
  holds = λ s good.
      let n = length s.rest in
      bind_at 0 n 0 skip_newlines _ s skip_newlines-Takes good (λ _ t good_t a.
        bind_at 0 n 1 (expect "workflow") _ t (expect-Takes "workflow" refl) good_t
          (λ start u good_u b.
            bind_at 0 n 1 (scalar "workflow name") _ u (scalar-Takes "workflow name") good_u
              (λ name v good_v c.
                bind_at 0 n 0 skip_newlines _ v skip_newlines-Takes good_v (λ _ w good_w d.
                  bind_at 0 n 1 (expect "{") _ w (expect-Takes "{" refl) good_w (λ _ x good_x e.
                    bind_at 0 n 0 skip_newlines _ x skip_newlines-Takes good_x (λ _ y good_y f.
                      gets_at 0 n (λ z. suc (length z.rest)) _ y
                        (then_at 0 n 0 (length y.rest) (entries (suc (length y.rest)) _) _ y
                          (entries-Outcome (suc (length y.rest)) _ (length y.rest) y good_y
                            (omega arith) (omega arith))
                          (λ workflow z good_z g.
                            bind_at 0 n 1 (expect "}") _ z (expect-Takes "}" refl) good_z
                              (λ _ o good_o h.
                                bind_at 0 n 0 skip_newlines _ o skip_newlines-Takes good_o
                                  (λ _ p good_p i.
                                    bind_at 0 n 0 (expect "EOF") _ p (expect_last-Takes "EOF")
                                      good_p
                                      (λ _ q good_q j.
                                        pure_at 0 n workflow q good_q
                                          (omega (arith, a, b, c, d, e, f, g, h, i, j)))))))))))));
}

message_of :
    (d e : DslError) {A : Type 0}
    → text_eq d.message "out of fuel" ≡ false
    → ◌≡◌ {A = Result DslError A} (err d) (err e)
    → e.message ≢ "out of fuel"
message_of d e plain same stuck =
    ground (arith, plain, same, stuck, text_eq_iff d.message "out of fuel")

error_of :
    {A : Type 0} (k n : ℕ) (o : Result DslError A) (t : Cursor) (e : DslError)
    → Outcome k n (o, t)
    → o ≡ err e
    → e.message ≢ "out of fuel"
error_of k n (ok a) t e h eq = absurd (ground (arith, eq))
error_of k n (err d) t e h eq = message_of d e h eq

parse_all-ends :
    (ts : List Token) (e : DslError)
    → EndsInEof ts
    → parse_all (ok ts) ≡ err e
    → e.message ≢ "out of fuel"
parse_all-ends [] e good eq = absurd good
parse_all-ends (t ∷ ts) e good eq =
    error_of 0 (length ts) (parse_tokens (record { current = t; rest = ts })).0
      (parse_tokens (record { current = t; rest = ts })).1 e
      (parse_tokens-Takes.holds (record { current = t; rest = ts }) good) eq

-- If the lexer reads the source, the parser comes to a workflow or to an error of its own: no loop
-- of it runs out of fuel.
pub parse-ends :
    (source : Codes) (ts : List Token) (e : DslError)
    → tokens source ≡ ok ts
    → parse source ≡ err e
    → e.message ≢ "out of fuel"
unfolding parse
parse-ends source ts e read eq =
    parse_all-ends ts e (tokens-EndsInEof source ts read) (ap parse_all (sym read) ∙ eq)
