-- ===== src/Prelude/Dict.antt =====
-- Python's `dict` with text keys, as an association list in insertion order.
use mathlib.Core.Path.{◌≡◌, refl, subst}
use mathlib.Core.Bool.{Bool, false}
use mathlib.Core.Option.{Option, none, some}
use mathlib.Core.List.{List, [], ◌∷◌}
use native.Mathlib.Omega.{arith}
use Prim.Native.String.{String}
use helix_grid.Prelude.Tests.{if◌then◌else◌, is_some, Bool-cases}
use helix_grid.Prelude.Texts.{text_eq, text_eq_iff}
use mathlib.Core.Logic.{◌⊎◌, inl, inr}

abbrev pub Dict {ℓ} : Type ℓ → Type ℓ
Dict V = List (String × V)

module _ {ℓ} {V : Type ℓ} where
  -- `d.get(k)`
  abbrev pub lookup : String → Dict V → Option V
  lookup k [] = none
  lookup k ((j, v) ∷ d) = if text_eq j k then some v else lookup k d

  -- `k in d`
  abbrev pub contains : String → Dict V → Bool
  contains k d = is_some (lookup k d)

  -- `d[k] = v` keeps the place of a key that is there.
  abbrev pub insert : String → V → Dict V → Dict V
  insert k v [] = (k, v) ∷ []
  insert k v ((j, w) ∷ d) = if text_eq j k then (j, v) ∷ d else (j, w) ∷ insert k v d

  -- The object under the key `k` is changed in place.
  abbrev pub update : String → (V → V) → Dict V → Dict V
  update k f [] = []
  update k f ((j, w) ∷ d) = if text_eq j k then (j, f w) ∷ d else (j, w) ∷ update k f d

  -- `d.pop(k, None)`
  abbrev pub erase : String → Dict V → Dict V
  erase k [] = []
  erase k ((j, w) ∷ d) = if text_eq j k then erase k d else (j, w) ∷ erase k d

  abbrev pub keys : Dict V → List String
  keys [] = []
  keys ((j, w) ∷ d) = j ∷ keys d

  abbrev pub values : Dict V → List V
  values [] = []
  values ((j, w) ∷ d) = w ∷ values d

  -- Every value satisfies `P`.
  abbrev pub Every {κ} : (V → Type κ) → Dict V → Type κ
  Every P [] = Unit
  Every P ((j, w) ∷ d) = P w × Every P d

module _ {ℓ} {V : Type ℓ} where
  pub lookup-insert :
      (k j : String) (v : V) (d : Dict V)
      → lookup j (insert k v d) ≡ (if text_eq k j then some v else lookup j d)
  lookup-insert k j v [] = refl
  lookup-insert k j v ((i, w) ∷ d) =
      ground (arith, text_eq_iff k j, text_eq_iff i k, text_eq_iff i j, lookup-insert k j v d)

  pub lookup-erase :
      (k j : String) (d : Dict V)
      → lookup j (erase k d) ≡ (if text_eq k j then none else lookup j d)
  lookup-erase k j [] = ground arith
  lookup-erase k j ((i, w) ∷ d) =
      ground (arith, text_eq_iff k j, text_eq_iff i k, text_eq_iff i j, lookup-erase k j d)

  pub lookup-update_self :
      (k : String) (f : V → V) {v : V} (d : Dict V)
      → lookup k d ≡ some v
      → lookup k (update k f d) ≡ some (f v)
  lookup-update_self k f [] h = ground arith
  lookup-update_self k f {v} ((i, w) ∷ d) h =
      ground (arith, text_eq_iff i k, lookup-update_self k f {v = v} d)

  pub lookup-update_ne :
      (k j : String) (f : V → V) (d : Dict V)
      → (text_eq k j) ≡ false
      → lookup j (update k f d) ≡ lookup j d
  lookup-update_ne k j f [] h = refl
  lookup-update_ne k j f ((i, w) ∷ d) h =
      ground (arith, text_eq_iff k j, text_eq_iff i k, text_eq_iff i j, lookup-update_ne k j f d h)

  pub lookup-update-none :
      (k j : String) (f : V → V) (d : Dict V) → lookup j d ≡ none → lookup j (update k f d) ≡ none
  lookup-update-none k j f [] h = refl
  lookup-update-none k j f ((i, w) ∷ d) h =
      ground (arith, text_eq_iff i j, text_eq_iff i k, lookup-update-none k j f d)

  -- A look-up after a change in place finds what it found before, or its change.
  pub lookup-update :
      (k j : String) (f : V → V) {v : V} (d : Dict V)
      → lookup j d ≡ some v
      → (lookup j (update k f d) ≡ some v) ⊎ (k ≡ j) × (lookup j (update k f d) ≡ some (f v))
  lookup-update k j f [] h = absurd (ground arith)
  lookup-update k j f {v} ((i, w) ∷ d) h =
      ground
        (arith, text_eq_iff i j, text_eq_iff i k, text_eq_iff k j, lookup-update k j f {v = v} d)

module _ {ℓ κ} {V : Type ℓ} (P : V → Type κ) where
  pub lookup-Every : (k : String) {v : V} (d : Dict V) → lookup k d ≡ some v → Every P d → P v
  lookup-Every k [] h e = absurd (ground arith)
  lookup-Every k {v} ((i, w) ∷ d) h e = elim (Bool-cases (text_eq i k)) [
    | inl same ↦ subst P (ground arith) e.0
    | inr other ↦ lookup-Every k d (rw other at h) e.1
  ]

  pub insert-Every : (k : String) (v : V) (d : Dict V) → P v → Every P d → Every P (insert k v d)
  insert-Every k v [] h e = (h, tt)
  insert-Every k v ((i, w) ∷ d) h e = elim (Bool-cases (text_eq i k)) [
    | inl same ↦ rw same (h, e.1)
    | inr other ↦ rw other (e.0, insert-Every k v d h e.1)
  ]

  pub erase-Every : (k : String) (d : Dict V) → Every P d → Every P (erase k d)
  erase-Every k [] e = tt
  erase-Every k ((i, w) ∷ d) e = elim (Bool-cases (text_eq i k)) [
    | inl same ↦ rw same (erase-Every k d e.1)
    | inr other ↦ rw other (e.0, erase-Every k d e.1)
  ]

  pub update-Every :
      (k : String) (f : V → V) (d : Dict V)
      → ((v : V) → lookup k d ≡ some v → P v → P (f v))
      → Every P d
      → Every P (update k f d)
  update-Every k f [] h e = tt
  update-Every k f ((i, w) ∷ d) h e = elim (Bool-cases (text_eq i k)) [
    | inl same ↦ rw same (h w (rw same) e.0, e.1)
    | inr other ↦ rw other (e.0, update-Every k f d (λ v found. h v (rw other found)) e.1)
  ]

module _ {ℓ κ μ} {V : Type ℓ} {P : V → Type κ} {Q : V → Type μ} where
  pub Every-map : (d : Dict V) → ((v : V) → P v → Q v) → Every P d → Every Q d
  Every-map [] f e = tt
  Every-map ((i, w) ∷ d) f e = (f w e.0, Every-map d f e.1)
