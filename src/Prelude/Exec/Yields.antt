-- ===== src/Prelude/Exec/Yields.antt =====
-- What a computation gives from every state: it returns, and what it returns has a property. Models
-- no code by itself.
use mathlib.Core.Path.{◌≡◌, refl}
use mathlib.Core.Bool.{Bool, true, false}
use helix_grid.Prelude.Tests.{if◌then◌else◌}
use helix_grid.Prelude.Exec.{Result, ok, Exec, pure, ◌>>=◌, continue}

pub record Yields {S E A : Type 0} (P : A → Type 0) (m : Exec S E A) : Type 0 where
  pub at : (s : S) → (a : A) × ((m s).0 ≡ ok a) × P a

module _ {S E A : Type 0} (P : A → Type 0) where
  pub Yields-pure : (a : A) → P a → Yields {S = S} {E = E} P (pure a)
  unfolding pure
  Yields-pure a h = record { at = λ s. (a, refl, h) }

  pub Yields-weaken :
      (Q : A → Type 0) (m : Exec S E A) → Yields Q m → ((a : A) → Q a → P a) → Yields P m
  Yields-weaken Q m h f = record { at = λ s. let (a, e, q) = h.at s in (a, e, f a q) }

  pub Yields-if :
      (b : Bool) (m n : Exec S E A)
      → (b ≡ true → Yields P m)
      → (b ≡ false → Yields P n)
      → Yields P (if b then m else n)
  Yields-if true m n hm hn = hm refl
  Yields-if false m n hm hn = hn refl

module _ {S E A B : Type 0} (P : B → Type 0) where
  continue-Yields :
      (r : Result E A) (s : S) (f : A → Exec S E B) (a : A)
      → r ≡ ok a
      → Yields P (f a)
      → (b : B) × ((continue r f s).0 ≡ ok b) × P b
  continue-Yields r s f a e h = rw e (h.at s)

  -- The rest of a block may use what the first part yields.
  pub Yields-bind :
      (Q : A → Type 0) (m : Exec S E A) (f : A → Exec S E B)
      → Yields Q m
      → ((a : A) → Q a → Yields P (f a))
      → Yields P (m >>= f)
  unfolding ◌>>=◌
  Yields-bind Q m f hm hf = record {
    at = λ s. let (a, e, q) = hm.at s in continue-Yields (m s).0 (m s).1 f a e (hf a q);
  }

  -- The rest is the same whatever the first part yields.
  pub Yields-after :
      (m : Exec S E A) (f : A → Exec S E B)
      → Yields (λ a. Unit {0}) m
      → ((a : A) → Yields P (f a))
      → Yields P (m >>= f)
  Yields-after m f hm hf = Yields-bind (λ a. Unit {0}) m f hm (λ a q. hf a)
