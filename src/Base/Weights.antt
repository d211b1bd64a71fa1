-- ===== src/Base/Weights.antt =====
-- Sums over the entries of a map, and how a write or a removal changes them.
use Prim.Native.Nat.{ℕ, ◌+◌, ◌≤◌}
use mathlib.Core.Path.{◌≡◌}
use mathlib.Core.Option.{Option, none, some}
use mathlib.Core.List.{[], ◌∷◌}
use native.Mathlib.Omega.{arith}
use model_validation_operato.Base.Equality.{Eq}
use model_validation_operato.Base.Map.{Map, get, put, delete, NodupKeys, delete-of-absent}

abbrev pub weight_of {κ} : {V : Type κ} → (V → ℕ) → Option V → ℕ
weight_of w none = 0
weight_of w (some v) = w v

module _ {ℓ κ} {K : Type ℓ} {V : Type κ} ⦃e : Eq K⦄ (w : V → ℕ) where
  abbrev pub weight : Map K V → ℕ
  weight [] = 0
  weight ((_, v) ∷ m) = w v + weight m

  pub weight-put :
      (k : K) (v : V) (m : Map K V) → weight (put k v m) + weight_of w (get k m) ≡ weight m + w v
  unfolding get put
  weight-put k v [] = omega arith
  weight-put k v ((j, u) ∷ m) = ground (arith, weight-put k v m)

  pub weight-delete :
      (k : K) (m : Map K V) → NodupKeys m → weight (delete k m) + weight_of w (get k m) ≡ weight m
  unfolding get delete
  weight-delete k [] u = omega arith
  weight-delete k ((j, v) ∷ m) (fresh, u) =
      ground (arith, weight-delete k m u, delete-of-absent k m)

  pub weight_of-get : (k : K) (m : Map K V) → weight_of w (get k m) ≤ weight m
  unfolding get
  weight_of-get k [] = omega arith
  weight_of-get k ((j, v) ∷ m) = ground (arith, weight_of-get k m)
