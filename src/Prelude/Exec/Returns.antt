-- ===== src/Prelude/Exec/Returns.antt =====
-- What a computation may return: every value that it returns, from any state, has a property.
-- Models no code by itself.
use mathlib.Core.Path.{◌≡◌, refl, subst}
use mathlib.Core.Bool.{Bool, true, false}
use native.Mathlib.Omega.{arith}
use helix_grid.Prelude.Tests.{if◌then◌else◌}
use helix_grid.Prelude.Exec.{Result, ok, err, Exec, pure, raise, ◌>>=◌, continue}

pub record Returns {S E A : Type 0} (P : A → Type 0) (m : Exec S E A) : Type 0 where
  pub holds : (s : S) (a : A) → (m s).0 ≡ ok a → P a

module _ {S E A : Type 0} (P : A → Type 0) where
  pub Returns-pure : (a : A) → P a → Returns {S = S} {E = E} P (pure a)
  unfolding ◌>>=◌
  Returns-pure a h = record { holds = λ s b eq. subst P (ground (arith, eq)) h }

  pub Returns-raise : (e : E) → Returns {S = S} P (raise e)
  unfolding ◌>>=◌
  Returns-raise e = record { holds = λ s b eq. absurd (ground (arith, eq)) }

  pub Returns-if :
      (b : Bool) (m n : Exec S E A)
      → ((b ≡ true) → Returns P m)
      → ((b ≡ false) → Returns P n)
      → Returns P (if b then m else n)
  Returns-if true m n hm hn = hm refl
  Returns-if false m n hm hn = hn refl

module _ {S E A B : Type 0} (P : B → Type 0) where
  continue-returns :
      (r : Result E A) (f : A → Exec S E B) (s : S) (b : B) (Q : A → Type 0)
      → ((a : A) → r ≡ ok a → Q a)
      → ((a : A) → Q a → Returns P (f a))
      → (continue r f s).0 ≡ ok b
      → P b
  continue-returns (ok a) f s b Q hq hf eq = (hf a (hq a refl)).holds s b eq
  continue-returns (err e) f s b Q hq hf eq = absurd (ground (arith, eq))

  -- What the first part returns may be used for the rest.
  pub Returns-bind :
      (Q : A → Type 0) (m : Exec S E A) (f : A → Exec S E B)
      → Returns Q m
      → ((a : A) → Q a → Returns P (f a))
      → Returns P (m >>= f)
  unfolding ◌>>=◌
  Returns-bind Q m f hm hf = record {
    holds = λ s b eq. continue-returns (m s).0 f (m s).1 b Q (hm.holds s) hf eq;
  }

  pub Returns-after :
      (m : Exec S E A) (f : A → Exec S E B) → ((a : A) → Returns P (f a)) → Returns P (m >>= f)
  Returns-after m f hf =
      Returns-bind (λ a. Unit {0}) m f (record { holds = λ s a eq. tt }) (λ a q. hf a)

module _ {S E A B : Type 0} where
  -- A block that returns has returned from its first action.
  pub >>=-ok :
      (m : Exec S E A) (f : A → Exec S E B) (s : S) {b : B}
      → ((m >>= f) s).0 ≡ ok b
      → (a : A) × ((m s).0 ≡ ok a) × ((f a (m s).1).0 ≡ ok b) × (((m >>= f) s).1 ≡ (f a (m s).1).1)
  unfolding ◌>>=◌
  >>=-ok m f s h = go (m s).0 (m s).1 f h
    where
      go :
          (r : Result E A) (t : S) (f : A → Exec S E B) {b : B}
          → (continue r f t).0 ≡ ok b
          → (a : A) × (r ≡ ok a) × ((f a t).0 ≡ ok b) × ((continue r f t).1 ≡ (f a t).1)
      go (ok a) t f h = (a, refl, h, refl)
      go (err e) t f h = absurd (ground arith)

pub pure-ok : {S E A : Type 0} (a b : A) (s : S) → (pure {S = S} {E = E} a s).0 ≡ ok b → b ≡ a
unfolding pure
pure-ok a b s h = ground (arith, h)

pub ok-same : {E A : Type 0} (a b : A) → ◌≡◌ {A = Result E A} (ok a) (ok b) → a ≡ b
ok-same a b h = ground (arith, h)
