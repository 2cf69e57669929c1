-- ===== src/Prelude/Assoc.antt =====
-- Keys with a Boolean equality, and the maps that the source keeps under such keys, as association
-- lists: `operator[]` with assignment overwrites, `emplace` does not.
use mathlib.Core.Path.{◌≡◌, refl}
use mathlib.Core.Logic.{◌↔◌, ◌≢◌}
use mathlib.Core.Bool.{Bool, true, false, ◌&&◌}
use mathlib.Core.Option.{Option, none, some}
use mathlib.Core.List.{List, [], ◌∷◌}
use native.Mathlib.Omega.{arith}
use ecommerce_platform.Prelude.Tests.{if◌then◌else◌}

pub record Eq {ℓ} (A : Type ℓ) : Type ℓ where
  pub beq : A → A → Bool
  pub beq_iff : (a b : A) → (beq a b ≡ true) ↔ (a ≡ b)

infix 50 ◌===◌
abbrev pub ◌===◌ {ℓ} : {A : Type ℓ} ⦃e : Eq A⦄ → A → A → Bool
◌===◌ ⦃e⦄ = e.beq

module _ {ℓ} {A : Type ℓ} ⦃e : Eq A⦄ where
  beq_refl : (a : A) → (a === a) ≡ true
  beq_refl a = (e.beq_iff a a).1 refl

  beq_ne : (a b : A) → a ≢ b → (a === b) ≡ false
  beq_ne a b h = ground (arith, e.beq_iff a b)

module _ {ℓ κ} {K : Type ℓ} {V : Type κ} ⦃e : Eq K⦄ where
  unfoldable pub lookup : K → List (K × V) → Option V
  lookup k [] = none
  lookup k ((j, v) ∷ m) = if j === k then some v else lookup k m

  -- `m[k] = v`
  unfoldable pub assign : K → V → List (K × V) → List (K × V)
  assign k v [] = (k, v) ∷ []
  assign k v ((j, w) ∷ m) = if j === k then (j, v) ∷ m else (j, w) ∷ assign k v m

  -- `m.emplace(k, v)`: a key that is there keeps its value
  unfoldable pub emplace : K → V → List (K × V) → List (K × V)
  emplace k v [] = (k, v) ∷ []
  emplace k v ((j, w) ∷ m) = if j === k then (j, w) ∷ m else (j, w) ∷ emplace k v m

  pub lookup-assign :
      (k j : K) (v : V) (m : List (K × V))
      → lookup j (assign k v m) ≡ (if k === j then some v else lookup j m)
  unfolding lookup assign
  lookup-assign k j v [] = refl
  lookup-assign k j v ((i, w) ∷ m) =
      ground (arith, e.beq_iff k j, e.beq_iff i k, e.beq_iff i j, lookup-assign k j v m)

  pub lookup-emplace :
      (k j : K) (v : V) (m : List (K × V))
      → lookup k m ≡ none
      → lookup j (emplace k v m) ≡ (if k === j then some v else lookup j m)
  unfolding lookup emplace
  lookup-emplace k j v [] h = refl
  lookup-emplace k j v ((i, w) ∷ m) h =
      ground (arith, e.beq_iff k j, e.beq_iff i k, e.beq_iff i j, lookup-emplace k j v m)

  pub emplace_present :
      (k : K) (v w : V) (m : List (K × V)) → lookup k m ≡ some w → emplace k v m ≡ m
  unfolding lookup emplace
  emplace_present k v w [] h = ground arith
  emplace_present k v w ((i, u) ∷ m) h = ground (arith, emplace_present k v w m)

module _ {ℓ} {A : Type ℓ} ⦃e : Eq A⦄ where
  unfoldable pub list_eq : List A → List A → Bool
  list_eq [] [] = true
  list_eq (a ∷ s) (b ∷ t) = a === b && list_eq s t
  list_eq _ _ = false

  pub list_eq_iff : (s t : List A) → (list_eq s t ≡ true) ↔ (s ≡ t)
  unfolding list_eq
  list_eq_iff [] [] = ground arith
  list_eq_iff [] (b ∷ t) = ground arith
  list_eq_iff (a ∷ s) [] = ground arith
  list_eq_iff (a ∷ s) (b ∷ t) = ground (arith, e.beq_iff a b, list_eq_iff s t)
