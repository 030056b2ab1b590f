-- ===== src/Dsl/Parser/Nodes.antt =====
-- What a parsed workflow satisfies: `Parser.parse` of sdk/python/src/helixgrid/dsl.py.
use helix_grid.Prelude.{
  ℕ, zero, suc, ◌≡◌, refl, String, text_eq, false, ◌||◌, List, [], ◌∷◌, ◌++◌, arith, All,
  All-append,
}
use helix_grid.Prelude.Codes.{Codes, same_codes, same_codes_iff, mem_codes, has_key}
use helix_grid.Prelude.Exec.{Result, ok, err}
use helix_grid.Prelude.Exec.Returns.{
  Returns, Returns-pure, Returns-raise, Returns-if, Returns-bind, Returns-after,
}
use helix_grid.Dsl.Types.{DslError, Token, TaskNode, WorkflowNode}
use helix_grid.Dsl.Lexer.{tokens}
use helix_grid.Dsl.Parser.{
  node_ids, parse_meta, add_task, entry, entries, parse_tokens, parse_all, parse,
}
use helix_grid.Dsl.Parser.Tasks.{IsComplete, Returns-fail, parse_task-IsComplete}

-- No text stands twice.
abbrev pub IsDistinct : List Codes → Type 0
IsDistinct [] = Unit
IsDistinct (x ∷ xs) = ((mem_codes x xs) ≡ false) × IsDistinct xs

abbrev pub IsWellFormed : WorkflowNode → Type 0
IsWellFormed w = All IsComplete w.tasks × IsDistinct (node_ids w.tasks)

mem_codes-append :
    (x y : Codes) (xs : List Codes)
    → mem_codes x (xs ++ y ∷ []) ≡ (mem_codes x xs || same_codes x y)
mem_codes-append x y [] = ground arith
mem_codes-append x y (z ∷ xs) = ground (arith, mem_codes-append x y xs)

IsDistinct-append :
    (xs : List Codes) (y : Codes)
    → IsDistinct xs
    → mem_codes y xs ≡ false
    → IsDistinct (xs ++ y ∷ [])
IsDistinct-append [] y h new = (refl, tt)
IsDistinct-append (x ∷ xs) y h new = (
  ground (arith, mem_codes-append x y xs, same_codes_iff x y, same_codes_iff y x),
  IsDistinct-append xs y h.1 (ground (arith, new)),
)

node_ids-append :
    (ts : List TaskNode) (t : TaskNode) → node_ids (ts ++ t ∷ []) ≡ node_ids ts ++ t.id ∷ []
node_ids-append [] t = refl
node_ids-append (u ∷ ts) t = rw (node_ids-append ts t) refl

add_task-IsWellFormed :
    (w : WorkflowNode) (t : TaskNode)
    → IsWellFormed w
    → IsComplete t
    → Returns IsWellFormed (add_task w t)
unfolding add_task
add_task-IsWellFormed w t h complete =
    Returns-if IsWellFormed (mem_codes t.id (node_ids w.tasks)) _ _
      (λ _. Returns-raise IsWellFormed _)
      (λ new. Returns-pure IsWellFormed _ (
        All-append IsComplete w.tasks (t ∷ []) h.0 (complete, tt),
        rw (node_ids-append w.tasks t) (IsDistinct-append (node_ids w.tasks) t.id h.1 new),
      ))

parse_meta-IsWellFormed : (w : WorkflowNode) → IsWellFormed w → Returns IsWellFormed (parse_meta w)
unfolding parse_meta
parse_meta-IsWellFormed w h = Returns-after IsWellFormed _ _ (λ token.
    Returns-after IsWellFormed _ _ (λ key. Returns-after IsWellFormed _ _ (λ _.
      Returns-after IsWellFormed _ _ (λ value.
        Returns-if IsWellFormed (has_key key w.metadata) _ _ (λ _. Returns-raise IsWellFormed _)
          (λ _. Returns-after IsWellFormed _ _ (λ _. Returns-pure IsWellFormed _ h))))))

entry-IsWellFormed :
    (key : String) (w : WorkflowNode) → IsWellFormed w → Returns IsWellFormed (entry key w)
unfolding entry
entry-IsWellFormed key w h =
    Returns-if IsWellFormed (text_eq key "meta") _ _ (λ _. parse_meta-IsWellFormed w h)
      (λ _.
        Returns-if IsWellFormed (text_eq key "task") _ _
          (λ _.
            Returns-bind IsWellFormed IsComplete _ _ parse_task-IsComplete
              (λ t complete. add_task-IsWellFormed w t h complete))
          (λ _. Returns-fail IsWellFormed _ _))

entries-IsWellFormed :
    (fuel : ℕ) (w : WorkflowNode) → IsWellFormed w → Returns IsWellFormed (entries fuel w)
unfolding entries
entries-IsWellFormed zero w h = Returns-fail IsWellFormed _ _
entries-IsWellFormed (suc fuel) w h = Returns-after IsWellFormed _ _ (λ key.
    Returns-if IsWellFormed (text_eq key "}") _ _ (λ _. Returns-pure IsWellFormed w h)
      (λ _.
        Returns-if IsWellFormed (text_eq key "EOF") _ _ (λ _. Returns-fail IsWellFormed _ _)
          (λ _.
            Returns-bind IsWellFormed IsWellFormed _ _ (entry-IsWellFormed key w h) (λ next good.
              Returns-after IsWellFormed _ _ (λ _. entries-IsWellFormed fuel next good)))))

parse_tokens-IsWellFormed : Returns IsWellFormed parse_tokens
unfolding parse_tokens
parse_tokens-IsWellFormed = Returns-after IsWellFormed _ _ (λ _.
    Returns-after IsWellFormed _ _ (λ start. Returns-after IsWellFormed _ _ (λ name.
      Returns-after IsWellFormed _ _ (λ _. Returns-after IsWellFormed _ _ (λ _.
        Returns-after IsWellFormed _ _ (λ _. Returns-after IsWellFormed _ _ (λ fuel.
          Returns-bind IsWellFormed IsWellFormed _ _ (entries-IsWellFormed fuel _ (tt, tt))
            (λ w good. Returns-after IsWellFormed _ _ (λ _.
              Returns-after IsWellFormed _ _ (λ _.
                Returns-after IsWellFormed _ _ (λ _. Returns-pure IsWellFormed w good)))))))))))

parse_all-IsWellFormed :
    (r : Result DslError (List Token)) (w : WorkflowNode) → parse_all r ≡ ok w → IsWellFormed w
parse_all-IsWellFormed (err e) w h = absurd (ground (arith, h))
parse_all-IsWellFormed (ok []) w h = absurd (ground (arith, h))
parse_all-IsWellFormed (ok (t ∷ ts)) w h = parse_tokens-IsWellFormed.holds _ w h

-- A workflow that `parse` returns has tasks with different ids, each with a command, a retry
-- policy of 1 to 100 attempts whose base delay is positive and no more than its maximal delay,
-- and a timeout of at most 24 hours.
pub parse-IsWellFormed : (source : Codes) (w : WorkflowNode) → parse source ≡ ok w → IsWellFormed w
unfolding parse
parse-IsWellFormed source w h = parse_all-IsWellFormed (tokens source) w h
