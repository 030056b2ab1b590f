-- ===== src/Lab/Generator/Ids.antt =====
-- The ids that tools/chaos_lab/generator.py gives to tasks are different from one another.
use helix_grid.Prelude.{
  ℕ, zero, suc, ◌<◌, ◌≡◌, refl, sym, ap, ◌∙◌, String, decimal, text_eq, text_eq_iff, ltb, true,
  false, [], ◌∷◌, inl, inr, is_empty, All, arith, Bool-cases,
}
use helix_grid.Prelude.Codes.{Codes, codes, number}
use helix_grid.Prelude.Codes.Numbers.{codes-append, number-decimal}
use helix_grid.Chaos.Dag.Members.{IsDistinct, mem_text-All}
use helix_grid.Lab.Generator.Tasks.{two_digits, task_id, task_ids_from}

number-two_digits : (n : ℕ) → number (codes (two_digits n)) ≡ n
number-two_digits n = elim (Bool-cases (ltb n 10)) [
  | inl small ↦ rw (small, codes-append "0" (decimal n)) (number-decimal n)
  | inr large ↦ rw large (number-decimal n)
]

abbrev behind : Codes → Codes
behind [] = []
behind (c ∷ s) = s

abbrev behind_five : Codes → Codes
behind_five s = behind (behind (behind (behind (behind s))))

number-task_id : (n : ℕ) → number (behind_five (codes (task_id n))) ≡ n
unfolding task_id
number-task_id n =
    ap (λ s. number (behind_five s)) (codes-append "task-" (two_digits n)) ∙ number-two_digits n

task_id_eq : (m n : ℕ) → task_id m ≡ task_id n → m ≡ n
task_id_eq m n h =
    sym (number-task_id m) ∙ ap (λ s. number (behind_five (codes s))) h ∙ number-task_id n

task_id_ne : (m n : ℕ) → m < n → text_eq (task_id m) (task_id n) ≡ false
task_id_ne m n h = elim (Bool-cases (text_eq (task_id m) (task_id n))) [
  | inl same ↦ absurd (omega (arith, task_id_eq m n ((text_eq_iff (task_id m) (task_id n)).0 same)))
  | inr other ↦ other
]

later_ne :
    (m first count : ℕ)
    → m < first
    → All (λ id. text_eq (task_id m) id ≡ false) (task_ids_from first count)
unfolding task_ids_from
later_ne m first zero h = tt
later_ne m first (suc count) h = (task_id_ne m first h, later_ne m (suc first) count (omega arith))

pub task_ids_from-IsDistinct : (first count : ℕ) → IsDistinct (task_ids_from first count)
unfolding task_ids_from
task_ids_from-IsDistinct first zero = tt
task_ids_from-IsDistinct first (suc count) = (
  mem_text-All (task_id first) (task_ids_from (suc first) count)
      (later_ne first (suc first) count (omega arith)),
  task_ids_from-IsDistinct (suc first) count,
)

is_empty-codes : (s : String) → is_empty s ≡ true → codes s ≡ []
is_empty-codes String.[] h = refl
is_empty-codes (String.◌∷◌ c s) h = absurd (ground arith)

-- No id is empty.
pub is_empty-task_id : (n : ℕ) → is_empty (task_id n) ≡ false
unfolding task_id
is_empty-task_id n = elim (Bool-cases (is_empty (task_id n))) [
  | inl empty ↦
      absurd (ground (arith, is_empty-codes (task_id n) empty, codes-append "task-" (two_digits n)))
  | inr given ↦ given
]
