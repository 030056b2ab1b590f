-- ===== src/Lab/Shrinker/Ddmin/Chunks.antt =====
-- The chunks of tools/chaos_lab/shrinker.py: a list without a chunk is a shorter part of the list,
-- and the loop over the chunks gives one that the test accepts, or has tried them all.
use helix_grid.Prelude.{
  ℕ, zero, suc, ◌+◌, ◌≤◌, ◌<◌, ◌≡◌, refl, ap, sym, subst, ltb, ltb→lt, not-ltb→le, Bool, true,
  false, List, [], ◌∷◌, ◌++◌, none, some, inl, inr, length, arith, Bool-cases,
}
use native.Mathlib.Decide.{ℕ_discrete}
use mathlib.Core.List.{Sublistᴰ}
use mathlib.Core.List.Sublistᴰ
use helix_grid.Lab.Shrinker.Ddmin.{take, drop, without, chunk_size, try_chunks}

module _ {A : Type 0} where
  without-suc :
      (start size : ℕ) (x : A) (xs : List A)
      → without (suc start) size (x ∷ xs) ≡ x ∷ without start size xs
  without-suc start size x xs =
      let e : suc start + size ≡ suc (start + size) = omega arith in
      ap (λ n. (x ∷ take start xs) ++ drop n (x ∷ xs)) e

  without-zero : (size : ℕ) (xs : List A) → without zero size xs ≡ drop size xs
  without-zero size [] = refl
  without-zero size (x ∷ xs) = let e : 0 + size ≡ size = omega arith in ap (λ n. drop n (x ∷ xs)) e

  drop-Sublistᴰ : (n : ℕ) (xs : List A) → Sublistᴰ (drop n xs) xs
  drop-Sublistᴰ n [] = Sublistᴰ.slnil
  drop-Sublistᴰ zero (x ∷ xs) = Sublistᴰ.refl _
  drop-Sublistᴰ (suc n) (x ∷ xs) = Sublistᴰ.cons (drop-Sublistᴰ n xs)

  pub without-Sublistᴰ : (start size : ℕ) (xs : List A) → Sublistᴰ (without start size xs) xs
  without-Sublistᴰ start size [] = Sublistᴰ.slnil
  without-Sublistᴰ zero size (x ∷ xs) =
      rw (without-zero size (x ∷ xs)) (drop-Sublistᴰ size (x ∷ xs))
  without-Sublistᴰ (suc start) size (x ∷ xs) =
      rw (without-suc start size x xs) (Sublistᴰ.cons-cons refl (without-Sublistᴰ start size xs))

  pub Sublistᴰ-length : {xs ys : List A} → Sublistᴰ xs ys → length xs ≤ length ys
  Sublistᴰ-length Sublistᴰ.slnil = omega arith
  Sublistᴰ-length (Sublistᴰ.cons p) = omega (arith, Sublistᴰ-length p)
  Sublistᴰ-length (Sublistᴰ.cons-cons e p) = omega (arith, Sublistᴰ-length p)

  length-drop : (n : ℕ) (xs : List A) → 1 ≤ n → 1 ≤ length xs → length (drop n xs) < length xs
  length-drop n [] h k = absurd (omega arith)
  length-drop zero (x ∷ xs) h k = absurd (omega arith)
  length-drop (suc n) (x ∷ xs) h k = omega (arith, Sublistᴰ-length (drop-Sublistᴰ n xs))

  pub length-without :
      (start size : ℕ) (xs : List A)
      → start < length xs
      → 1 ≤ size
      → length (without start size xs) < length xs
  length-without start size [] h k = absurd (omega arith)
  length-without zero size (x ∷ xs) h k =
      rw (without-zero size (x ∷ xs)) (length-drop size (x ∷ xs) k (omega arith))
  length-without (suc start) size (x ∷ xs) h k =
      subst (λ ys. length ys < suc (length xs)) (sym (without-suc start size x xs))
        (omega (arith, length-without start size xs (omega arith) k))

pub chunk_size-le : (n g : ℕ) → n ≤ g → 1 ≤ n → chunk_size n g ≡ 1
chunk_size-le n g h k = grind arith

pub chunk_size-pos : (n g : ℕ) → 1 ≤ chunk_size n g
chunk_size-pos n g = grind arith

module _ {A : Type 0} (test : List A → Bool) where
  -- `ys` is `xs` without a chunk that starts inside, and the test accepts it.
  pub record Cut (size : ℕ) (xs ys : List A) : Type 0 where
    pub start : ℕ
    pub inside : start < length xs
    pub equal : ys ≡ without start size xs
    pub accepts : test ys ≡ true

  pub try_chunks-Cut :
      (fuel start size : ℕ) (xs ys : List A)
      → (try_chunks test fuel start size xs).1 ≡ some ys
      → Cut size xs ys
  unfolding try_chunks
  try_chunks-Cut zero start size xs ys h = absurd (ground arith)
  try_chunks-Cut (suc fuel) start size xs ys h = elim (Bool-cases (ltb start (length xs))) [
    | inr out ↦ absurd (ground arith)
    | inl inside ↦ elim (Bool-cases (test (without start size xs))) [
      | inl good ↦
          let found : some (without start size xs) ≡ some ys = rw good at (rw inside at h) in
          let e : ys ≡ without start size xs = cc in
          record { start = start; inside = ltb→lt _ _ inside; equal = e; accepts = rw e good }
      | inr bad ↦ try_chunks-Cut fuel (start + size) size xs ys (rw bad at (rw inside at h))
    ]
  ]

  -- With chunks of one item, the loop that finds nothing has tried to leave out each item.
  pub try_chunks-none :
      (fuel start : ℕ) (xs : List A)
      → length xs ≤ start + fuel
      → (try_chunks test fuel start 1 xs).1 ≡ none
      → (i : ℕ) → start ≤ i
      → i < length xs
      → test (without i 1 xs) ≡ false
  unfolding try_chunks
  try_chunks-none zero start xs room h i above below = absurd (omega arith)
  try_chunks-none (suc fuel) start xs room h i above below =
      elim (Bool-cases (ltb start (length xs))) [
        | inr out ↦ absurd (omega (arith, not-ltb→le start (length xs) out))
        | inl inside ↦ elim (Bool-cases (test (without start 1 xs))) [
          | inl good ↦ absurd (ground (arith, rw good at (rw inside at h)))
          | inr bad ↦ elim (ℕ_discrete start i) [
            | yes here ↦ rw (← here) bad
            | no further ↦
                try_chunks-none fuel (start + 1) xs (omega arith) (rw bad at (rw inside at h)) i
                  (omega arith) below
          ]
        ]
      ]
