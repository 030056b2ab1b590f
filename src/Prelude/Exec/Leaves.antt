-- ===== src/Prelude/Exec/Leaves.antt =====
-- What a computation that returns leaves behind: the state after it has a property. Models no code by
-- itself.
use mathlib.Core.Path.{◌≡◌, refl}
use mathlib.Core.Bool.{Bool, true, false}
use helix_grid.Prelude.Tests.{if◌then◌else◌}
use helix_grid.Prelude.Exec.{ok, Exec, ◌>>=◌}
use helix_grid.Prelude.Exec.Respects.{Respects, bind-eq-ok}

pub record Leaves {S E A : Type 0} (P : S → Type 0) (m : Exec S E A) : Type 0 where
  pub after : (s : S) (a : A) → (m s).0 ≡ ok a → P (m s).1

module _ {S E A : Type 0} {P : S → Type 0} where
  pub Leaves-if :
      (b : Bool) (m n : Exec S E A)
      → ((b ≡ true) → Leaves P m)
      → ((b ≡ false) → Leaves P n)
      → Leaves P (if b then m else n)
  Leaves-if true m n hm hn = hm refl
  Leaves-if false m n hm hn = hn refl

module _ {S E A B : Type 0} {P : S → Type 0} where
  -- The rest of the block leaves it.
  pub Leaves-rest :
      (m : Exec S E A) (f : A → Exec S E B) → ((a : A) → Leaves P (f a)) → Leaves P (m >>= f)
  Leaves-rest m f h = record {
    after = λ s b e.
        let (a, first, rest, same) = bind-eq-ok m f s e in rw same ((h a).after (m s).1 b rest);
  }

  -- The first action leaves it, and the rest of the block keeps it.
  pub Leaves-kept :
      (m : Exec S E A) (f : A → Exec S E B)
      → Leaves P m
      → ((a : A) → Respects (λ s t. P s → P t) (f a))
      → Leaves P (m >>= f)
  Leaves-kept m f h k = record {
    after = λ s b e.
        let (a, first, rest, same) = bind-eq-ok m f s e in
        rw same ((k a).at (m s).1 (h.after s a first));
  }
