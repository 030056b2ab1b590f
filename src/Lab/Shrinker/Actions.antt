-- ===== src/Lab/Shrinker/Actions.antt =====
-- `_simplify_actions`, `_action_variants` and `_action_complexity` of tools/chaos_lab/shrinker.py.
-- A generator's values are a list: `_action_variants` reads nothing that its caller changes.
use helix_grid.Prelude.{
  ℕ, suc, ◌+◌, min, String, ◌&◌, decimal, is_empty, ltb, ◌==◌, Bool, true, false, not, ◌&&◌, ◌||◌,
  List, [], ◌∷◌, ◌++◌, if◌then◌else◌, length,
}
use helix_grid.Prelude.Int.{ℤ, pos, negsuc}
use helix_grid.Prelude.Codes.{codes}
use helix_grid.Chaos.Types.{Action, ActionKind}
use helix_grid.Lab.Types.{same_action, same_kind}
use helix_grid.Lab.Shrinker.Ddmin.{ShrinkPass, noted, noted_all}

-- `len(text)` and `text[:1]`
abbrev pub text_length : String → ℕ
text_length s = length (codes s)

abbrev first_character : String → String
first_character String.[] = String.[]
first_character (String.◌∷◌ c s) = String.◌∷◌ c String.[]

abbrev pub above : ℕ → ℤ → Bool
above n (pos k) = ltb n k
above n (negsuc k) = false

abbrev is_zero_or_one : ℤ → Bool
is_zero_or_one (pos n) = n == 0 || n == 1
is_zero_or_one (negsuc n) = false

abbrev with_amount : Action → ℕ → Action
with_amount a n = record a { amount = pos n }

abbrev with_text : Action → String → Action
with_text a s = record a { text = s }

-- A value is yielded only under its condition.
abbrev pub only_if : Bool → List Action → List Action
only_if true actions = actions
only_if false actions = []

unfoldable pub smaller_steps : Action → List ℕ → List Action
smaller_steps a [] = []
smaller_steps a (n ∷ ns) = only_if (above n a.amount) (with_amount a n ∷ []) ++ smaller_steps a ns

-- The values of each `if` of `_action_variants`
abbrev pub amount_variants : Action → List Action
amount_variants a = only_if (not (is_zero_or_one a.amount)) (with_amount a 1 ∷ [])

abbrev pub text_variants : Action → List Action
text_variants a = only_if (not (is_empty a.text)) (
    with_text a ""
    ∷ only_if (ltb 1 (text_length a.text)) (with_text a (first_character a.text) ∷ []))

abbrev pub time_variants : Action → List Action
time_variants a =
    only_if (same_kind a.kind ActionKind.advance_time && above 1 a.amount)
      (smaller_steps a (1 ∷ 10 ∷ 100 ∷ 1_000 ∷ []))

abbrev pub log_variants : Action → List Action
log_variants a =
    only_if (same_kind a.kind ActionKind.log && ltb 2 (text_length a.text)) (with_text a "x\n" ∷ [])

abbrev pub failure_variants : Action → List Action
failure_variants a =
    only_if (same_kind a.kind ActionKind.complete_failure)
      (record a { amount = pos 1; text = "x" } ∷ [])

unfoldable pub action_variants : Action → List Action
action_variants a =
    amount_variants a
    ++ (text_variants a ++ (time_variants a ++ (log_variants a ++ failure_variants a)))

-- `abs`
abbrev magnitude : ℤ → ℕ
magnitude (pos n) = n
magnitude (negsuc n) = suc n

unfoldable pub action_complexity : Action → ℕ
action_complexity a =
    1
    + text_length a.workflow_id
    + text_length a.task_id
    + text_length a.worker_id
    + text_length a.token
    + min (magnitude a.amount) 1_000_000
    + text_length a.text

abbrev simplify_pass : ℕ → Action → Action → Bool → ShrinkPass
simplify_pass index original simplified accepted = record {
  name = "simplify-action[" & decimal index & "]";
  before = action_complexity original;
  after = action_complexity simplified;
  accepted = accepted;
}

module _ (test : List Action → Bool) where
  -- The loop over the variants of the action between `before` and `rest`
  unfoldable pub try_variants :
      List Action → List Action → Action → List Action → List ShrinkPass × Action
  try_variants before rest original [] = ([], original)
  try_variants before rest original (simplified ∷ variants) =
      let accepted = test (before ++ simplified ∷ rest) in
      let pass = simplify_pass (length before) original simplified accepted in
      if same_action simplified original
      then try_variants before rest original variants
      else noted pass
          (try_variants before rest (if accepted then simplified else original) variants)

  -- The loop over the actions, those in `before` done
  unfoldable pub simplify_from : List Action → List Action → List ShrinkPass × List Action
  simplify_from before [] = ([], before)
  simplify_from before (a ∷ rest) =
      let (passes, b) = try_variants before rest a (action_variants a) in
      noted_all passes (simplify_from (before ++ b ∷ []) rest)

  unfoldable pub simplify : List Action → List ShrinkPass × List Action
  simplify actions = simplify_from [] actions
