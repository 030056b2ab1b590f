-- ===== src/Lab/Shrinker/Ddmin/Minimal.antt =====
-- What the loop of `_ddmin_actions` of tools/chaos_lab/shrinker.py comes to: a part of the list that
-- the test accepts and that, if more than one item is left, no longer passes without any one of them.
use helix_grid.Prelude.{
  ℕ, zero, suc, ◌+◌, ◌-◌, ◌*◌, ◌≤◌, ◌<◌, ◌≡◌, ◌⊎◌, refl, sym, subst, max, min, leb, leb→le,
  not-leb→lt, Bool, true, false, List, Option, none, some, inl, inr, length, arith, Bool-cases,
  Option-cases,
}
use mathlib.Core.List.{Sublistᴰ}
use mathlib.Core.List.Sublistᴰ
use helix_grid.Lab.Shrinker.Ddmin.{
  without, chunk_size, try_chunks, next_round, chunk_round, ddmin_loop, ddmin,
}
use helix_grid.Lab.Shrinker.Ddmin.Chunks.{
  Cut, without-Sublistᴰ, length-without, chunk_size-le, chunk_size-pos, try_chunks-Cut,
  try_chunks-none,
}

module _ {A : Type 0} (test : List A → Bool) where
  -- No item can be left out.
  abbrev pub IsMinimal : List A → Type 0
  IsMinimal xs = (i : ℕ) → i < length xs → test (without i 1 xs) ≡ false

  -- A part of `xs` that the test accepts if it accepts `xs`
  pub record Part (xs ys : List A) : Type 0 where
    pub sublist : Sublistᴰ ys xs
    pub accepts : test xs ≡ true → test ys ≡ true

  Part-refl : (xs : List A) → Part xs xs
  Part-refl xs = record { sublist = Sublistᴰ.refl xs; accepts = λ h. h }

  Part-trans : {xs ys zs : List A} → Part xs ys → Part ys zs → Part xs zs
  Part-trans p q = record {
    sublist = Sublistᴰ.trans q.sublist p.sublist;
    accepts = λ h. q.accepts (p.accepts h);
  }

  Cut-Part : {size : ℕ} {xs ys : List A} → Cut test size xs ys → Part xs ys
  Cut-Part {size} {xs} c = record {
    sublist = subst (λ ys. Sublistᴰ ys xs) (sym c.equal) (without-Sublistᴰ c.start size xs);
    accepts = λ h. c.accepts;
  }

  abbrev measure : ℕ → List A → ℕ
  measure granularity xs = length xs * length xs + (length xs - granularity)

  -- What a round that goes on leaves for the next
  record Onward (granularity : ℕ) (xs : List A) (finer : ℕ) (ys : List A) : Type 0 where
    part : Part xs ys
    coarse : 2 ≤ finer
    lower : measure finer ys < measure granularity xs

  Cut-Onward :
      (granularity : ℕ) {size : ℕ} (xs ys : List A)
      → 1 ≤ size
      → Cut test size xs ys
      → Onward granularity xs (max 2 (granularity - 1)) ys
  Cut-Onward granularity {size} xs ys pos c =
      let less : length ys < length xs = rw c.equal (length-without c.start size xs c.inside pos) in
      record { part = Cut-Part c; coarse = ground arith; lower = grind arith }

  refined-Onward :
      (granularity : ℕ) (xs : List A)
      → 2 ≤ granularity
      → 2 ≤ length xs
      → granularity < length xs
      → Onward granularity xs (min (length xs) (granularity * 2)) xs
  refined-Onward granularity xs coarse long more = record {
    part = Part-refl xs;
    coarse = grind arith;
    lower = grind arith;
  }

  next_round-Onward :
      (granularity : ℕ) (xs : List A) (found : Option (List A)) (finer : ℕ) (ys : List A)
      → 2 ≤ granularity
      → 2 ≤ length xs
      → ((zs : List A) → found ≡ some zs → Cut test (chunk_size (length xs) granularity) xs zs)
      → next_round test granularity xs found ≡ some (finer, ys)
      → Onward granularity xs finer ys
  next_round-Onward granularity xs (some zs) finer ys coarse long cut h =
      let same_size : max 2 (granularity - 1) ≡ finer = cc h in
      let same_list : zs ≡ ys = cc h in
      subst (λ k. Onward granularity xs k ys) same_size
        (subst (Onward granularity xs (max 2 (granularity - 1))) same_list
          (Cut-Onward granularity xs zs (chunk_size-pos (length xs) granularity) (cut zs refl)))
  next_round-Onward granularity xs none finer ys coarse long cut h =
      elim (Bool-cases (leb (length xs) granularity)) [
        | inl over ↦ absurd (ground (arith, rw over at h))
        | inr more ↦
            let p : some (min (length xs) (granularity * 2), xs) ≡ some (finer, ys) =
              rw more at h in
            let same_size : min (length xs) (granularity * 2) ≡ finer = cc p in
            let same_list : xs ≡ ys = cc p in
            subst (λ k. Onward granularity xs k ys) same_size
              (subst (Onward granularity xs (min (length xs) (granularity * 2))) same_list
                (refined-Onward granularity xs coarse long (not-leb→lt _ _ more)))
      ]

  next_round-none :
      (granularity : ℕ) (xs : List A) (found : Option (List A))
      → next_round test granularity xs found ≡ none
      → (found ≡ none) × (length xs ≤ granularity)
  next_round-none granularity xs (some zs) h = absurd (ground arith)
  next_round-none granularity xs none h = (refl, ground arith)

  -- The result of the loop for a list: a part of it that is minimal, or of one item at most.
  pub record Minimized (xs ys : List A) : Type 0 where
    pub part : Part xs ys
    pub minimal : (length ys < 2) ⊎ IsMinimal ys

  end-IsMinimal :
      (granularity : ℕ) (xs : List A)
      → 2 ≤ length xs
      → (chunk_round test granularity xs).1 ≡ none
      → IsMinimal xs
  end-IsMinimal granularity xs long h =
      let found = (try_chunks test (length xs) 0 (chunk_size (length xs) granularity) xs).1 in
      let over : (found ≡ none) × (length xs ≤ granularity) =
        next_round-none granularity xs found h in
      let one : chunk_size (length xs) granularity ≡ 1 =
        chunk_size-le (length xs) granularity over.1 (omega arith) in
      λ i below.
        try_chunks-none test (length xs) 0 xs (omega arith)
          (subst (λ size. (try_chunks test (length xs) 0 size xs).1 ≡ none) one over.0) i
          (omega arith) below

  ddmin_loop-Minimized :
      (fuel granularity : ℕ) (xs : List A)
      → measure granularity xs < fuel
      → 2 ≤ granularity
      → Minimized xs (ddmin_loop test fuel granularity xs).1
  unfolding ddmin_loop
  ddmin_loop-Minimized zero granularity xs room coarse = absurd (omega arith)
  ddmin_loop-Minimized (suc fuel) granularity xs room coarse =
      elim (Bool-cases (leb 2 (length xs))) [
        | inr short ↦
            rw short
              (record { part = Part-refl xs; minimal = inl (not-leb→lt 2 (length xs) short) })
        | inl long ↦ elim (Option-cases (chunk_round test granularity xs).1) [
          | inl over ↦
              rw (long, over)
                (record {
                  part = Part-refl xs;
                  minimal = inr (end-IsMinimal granularity xs (leb→le 2 (length xs) long) over);
                })
          | inr ((finer, ys), e) ↦
              let onward =
                next_round-Onward granularity xs _ finer ys coarse (leb→le 2 (length xs) long)
                  (try_chunks-Cut test (length xs) 0 _ xs) e in
              let rest =
                ddmin_loop-Minimized fuel finer ys (omega (arith, onward.lower)) onward.coarse in
              rw (long, e)
                (record { part = Part-trans onward.part rest.part; minimal = rest.minimal })
        ]
      ]

-- Delta debugging gives a part of the list in its order, one that the test accepts if it accepts
-- the list, and it stops only at a list of one item at most or where the test refuses each list
-- with one item less.
pub ddmin-Minimized :
    {A : Type 0} (test : List A → Bool) (xs : List A) → Minimized test xs (ddmin test xs).1
unfolding ddmin
ddmin-Minimized test xs =
    ddmin_loop-Minimized test (suc (length xs * length xs + length xs)) 2 xs (omega arith)
      (omega arith)
