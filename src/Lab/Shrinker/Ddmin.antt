-- ===== src/Lab/Shrinker/Ddmin.antt =====
-- `_ddmin_actions` of tools/chaos_lab/shrinker.py: delta debugging over a list, for a test that says
-- whether a shorter list still fails.
pub mod Chunks
pub mod Minimal
use helix_grid.Prelude.{
  ℕ, zero, suc, ◌+◌, ◌-◌, ◌*◌, ◌/◌, max, min, String, ◌&◌, decimal, ltb, leb, Bool, List, [], ◌∷◌,
  ◌++◌, Option, none, some, if◌then◌else◌, length,
}

pub record ShrinkPass : Type 0 where
  pub name : String
  pub before : ℕ
  pub after : ℕ
  pub accepted : Bool

module _ {A : Type 0} where
  -- `xs[:n]` and `xs[n:]`
  abbrev pub take : ℕ → List A → List A
  take n [] = []
  take zero (x ∷ xs) = []
  take (suc n) (x ∷ xs) = x ∷ take n xs

  abbrev pub drop : ℕ → List A → List A
  drop n [] = []
  drop zero (x ∷ xs) = x ∷ xs
  drop (suc n) (x ∷ xs) = drop n xs

  -- `xs[:start] + xs[start + size:]`
  abbrev pub without : ℕ → ℕ → List A → List A
  without start size xs = take start xs ++ drop (start + size) xs

abbrev chunk_pass : ℕ → ℕ → ℕ → ℕ → Bool → ShrinkPass
chunk_pass start size before after accepted = record {
  name = "remove-actions[" & decimal start & ":" & decimal (start + size) & "]";
  before = before;
  after = after;
  accepted = accepted;
}

abbrev pub noted : {B : Type 0} → ShrinkPass → List ShrinkPass × B → List ShrinkPass × B
noted pass (passes, b) = (pass ∷ passes, b)

abbrev pub noted_all : {B : Type 0} → List ShrinkPass → List ShrinkPass × B → List ShrinkPass × B
noted_all before (passes, b) = (before ++ passes, b)

-- `max(1, (n + granularity - 1) // granularity)`
abbrev pub chunk_size : ℕ → ℕ → ℕ
chunk_size n granularity = max 1 ((n + granularity - 1) / granularity)

module _ {A : Type 0} (test : List A → Bool) where
  -- The `for` loop over the starts of the chunks, from `start` on; `fuel` bounds the starts left.
  -- It gives the first list without a chunk that the test accepts.
  unfoldable pub try_chunks : ℕ → ℕ → ℕ → List A → List ShrinkPass × Option (List A)
  try_chunks zero start size xs = ([], none)
  try_chunks (suc fuel) start size xs =
      let candidate = without start size xs in
      let accepted = test candidate in
      let pass = chunk_pass start size (length xs) (length candidate) accepted in
      let rest = try_chunks fuel (start + size) size xs in
      if ltb start (length xs)
      then noted pass (if accepted then ([], some candidate) else rest)
      else ([], none)

  -- The granularity and the list of the next round of the `while` loop; `none` is its end.
  abbrev pub next_round : ℕ → List A → Option (List A) → Option (ℕ × List A)
  next_round granularity xs (some ys) = some (max 2 (granularity - 1), ys)
  next_round granularity xs none =
      if leb (length xs) granularity then none else some (min (length xs) (granularity * 2), xs)

  abbrev pub chunk_round : ℕ → List A → List ShrinkPass × Option (ℕ × List A)
  chunk_round granularity xs =
      let (passes, found) = try_chunks (length xs) 0 (chunk_size (length xs) granularity) xs in
      (passes, next_round granularity xs found)

  -- The `while` loop, on fuel
  unfoldable pub ddmin_loop : ℕ → ℕ → List A → List ShrinkPass × List A
  ddmin_loop zero granularity xs = ([], xs)
  ddmin_loop (suc fuel) granularity xs =
      let (passes, next) = chunk_round granularity xs in
      let onward : List ShrinkPass × List A = elim next [
        | none ↦ (passes, xs)
        | some (finer, ys) ↦ noted_all passes (ddmin_loop fuel finer ys)
      ] in
      if leb 2 (length xs) then onward else ([], xs)

  -- Each round shortens the list or refines the chunks, so this fuel is enough.
  unfoldable pub ddmin : List A → List ShrinkPass × List A
  unfolding ddmin_loop try_chunks
  ddmin xs = let n = length xs in ddmin_loop (suc (n * n + n)) 2 xs
