-- ===== src/Prelude/Exec/Respects.antt =====
-- What an action may do to the state, as a preorder between the states before and after it, with a
-- rule for each way to build an action. Models no code by itself.
use mathlib.Core.Path.{◌≡◌, refl}
use mathlib.Core.Bool.{Bool, true, false}
use mathlib.Core.Option.{Option, none, some}
use mathlib.Core.List.{List, [], ◌∷◌}
use helix_grid.Prelude.Tests.{if◌then◌else◌}
use helix_grid.Prelude.Exec.{
  Result, ok, err, Exec, pure, raise, gets, some_or, continue, ◌>>=◌, for_each,
}

pub record Preorder {S : Type 0} (R : S → S → Type 0) : Type 0 where
  pub same : (s : S) → R s s
  pub compose : (s t u : S) → R s t → R t u → R s u

pub record Respects {S E A : Type 0} (R : S → S → Type 0) (m : Exec S E A) : Type 0 where
  pub at : (s : S) → R s (m s).1

module _ {S E A : Type 0} {R : S → S → Type 0} where
  pub Respects-pure : Preorder R → (a : A) → Respects R (pure {S = S} {E = E} a)
  unfolding pure
  Respects-pure pre a = record { at = λ s. pre.same s }

  pub Respects-raise : Preorder R → (e : E) → Respects R (raise {S = S} {E = E} {A = A} e)
  unfolding raise
  Respects-raise pre e = record { at = λ s. pre.same s }

  pub Respects-gets : Preorder R → (f : S → A) → Respects R (gets {S = S} {E = E} f)
  unfolding gets
  Respects-gets pre f = record { at = λ s. pre.same s }

  pub Respects-some_or :
      Preorder R → (o : Option A) (m : Exec S E A) → Respects R m → Respects R (some_or o m)
  unfolding some_or
  Respects-some_or pre none m h = h
  Respects-some_or pre (some a) m h = record { at = λ s. pre.same s }

  pub Respects-if :
      (b : Bool) (m n : Exec S E A) → Respects R m → Respects R n → Respects R (if b then m else n)
  Respects-if true m n hm hn = hm
  Respects-if false m n hm hn = hn

  -- The branch may use the test.
  pub if_at :
      Preorder R
      → (b : Bool) (m n : Exec S E A) (s : S) → (b ≡ true → R s (m s).1)
      → (b ≡ false → R s (n s).1)
      → R s ((if b then m else n) s).1
  if_at pre true m n s hm hn = hm refl
  if_at pre false m n s hm hn = hn refl

module _ {S E A B : Type 0} {R : S → S → Type 0} where
  -- The rest of the block may use what the first action returned, and where it left the state.
  pub bind_at :
      Preorder R
      → (m : Exec S E A) (f : A → Exec S E B) (s : S) → R s (m s).1
      → ((a : A) → (m s).0 ≡ ok a → R (m s).1 (f a (m s).1).1)
      → R s ((m >>= f) s).1
  unfolding ◌>>=◌
  bind_at pre m f s h k = pre.compose _ _ _ h (go (m s).0 (m s).1 k)
    where
      go : (r : Result E A) (t : S) → ((a : A) → r ≡ ok a → R t (f a t).1) → R t (continue r f t).1
      go (ok a) t k = k a refl
      go (err e) t k = pre.same t

  pub bind_gets :
      Preorder R
      → (g : S → A) (f : A → Exec S E B) (s : S) → R s (f (g s) s).1
      → R s ((gets g >>= f) s).1
  unfolding ◌>>=◌
  bind_gets pre g f s h = h

  -- After a read the rest starts at the same state.
  pub bind_read :
      Preorder R
      → (m : Exec S E A) (f : A → Exec S E B) (s : S) → (m s).1 ≡ s
      → ((a : A) → (m s).0 ≡ ok a → R s (f a s).1)
      → R s ((m >>= f) s).1
  unfolding ◌>>=◌
  bind_read pre m f s h k = go (m s).0 (m s).1 h k
    where
      go :
          (r : Result E A) (t : S)
          → t ≡ s
          → ((a : A) → r ≡ ok a → R s (f a s).1)
          → R s (continue r f t).1
      go (ok a) t e k = rw e (k a refl)
      go (err x) t e k = rw e (pre.same s)

  pub Respects-bind :
      Preorder R
      → (m : Exec S E A) (f : A → Exec S E B) → Respects R m
      → ((a : A) → Respects R (f a))
      → Respects R (m >>= f)
  Respects-bind pre m f hm hf = record {
    at = λ s. bind_at pre m f s (hm.at s) (λ a _. (hf a).at _);
  }

module _ {S E A B : Type 0} where
  -- A block that returns has run its first action to its end.
  pub bind-eq-ok :
      (m : Exec S E A) (f : A → Exec S E B) (s : S) {b : B}
      → ((m >>= f) s).0 ≡ ok b
      → (a : A) × ((m s).0 ≡ ok a) × ((f a (m s).1).0 ≡ ok b) × (((m >>= f) s).1 ≡ (f a (m s).1).1)
  unfolding ◌>>=◌
  bind-eq-ok m f s {b} h = go (m s).0 (m s).1 h
    where
      go :
          (r : Result E A) (t : S)
          → (continue r f t).0 ≡ ok b
          → (a : A) × (r ≡ ok a) × ((f a t).0 ≡ ok b) × ((continue r f t).1 ≡ (f a t).1)
      go (ok a) t h = (a, refl, h, refl)
      go (err e) t h = absurd (cc)

module _ {S E A : Type 0} {R : S → S → Type 0} where
  pub Respects-for_each :
      Preorder R
      → (body : A → Exec S E (Unit {0})) (xs : List A) → ((x : A) → Respects R (body x))
      → Respects R (for_each body xs)
  unfolding for_each
  Respects-for_each pre body [] h = Respects-pure pre tt
  Respects-for_each pre body (x ∷ xs) h =
      Respects-bind pre _ _ (h x) (λ _. Respects-for_each pre body xs h)

pub ruleset respects_rules = (
  Respects-pure, Respects-raise, Respects-gets, Respects-some_or, Respects-if, Respects-bind,
  Respects-for_each,
)
