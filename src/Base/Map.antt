-- ===== src/Base/Map.antt =====
-- Go's built-in maps, as lists of entries. The order of the entries stands for the order in which
-- `range` visits them, which Go leaves open: a theorem about every map covers every order.
use Prim.Native.Nat.{◌+◌}
use mathlib.Core.Path.{◌≡◌, refl}
use mathlib.Core.Logic.{◌≢◌, ◌⊎◌}
use mathlib.Core.Bool.{Bool, true, false}
use mathlib.Core.Option.{Option, none, some}
use mathlib.Core.List
use mathlib.Core.List.{List, [], ◌∷◌}
use native.Mathlib.Omega.{arith}
use model_validation_operato.Base.Equality.{Eq, ◌==◌, if◌then◌else◌}
use model_validation_operato.Base.Lists.{length}

abbrev pub Map {ℓ κ} : Type ℓ → Type κ → Type (ℓ ⊔ κ)
Map K V = List (K × V)

unfoldable pub keys {ℓ κ} : {K : Type ℓ} {V : Type κ} → Map K V → List K
keys = List.map (λ (k, _). k)

unfoldable pub values {ℓ κ} : {K : Type ℓ} {V : Type κ} → Map K V → List V
values = List.map (λ (_, v). v)

module _ {ℓ κ} {K : Type ℓ} {V : Type κ} ⦃e : Eq K⦄ where
  -- `v, ok := m[k]`
  unfoldable pub get : K → Map K V → Option V
  get k [] = none
  get k ((j, v) ∷ m) = if k == j then some v else get k m

  -- `m[k] = v`: an entry of the key is overwritten where it stands.
  unfoldable pub put : K → V → Map K V → Map K V
  put k v [] = (k, v) ∷ []
  put k v ((j, w) ∷ m) = if k == j then (k, v) ∷ m else (j, w) ∷ put k v m

  -- `delete(m, k)`
  unfoldable pub delete : K → Map K V → Map K V
  delete k [] = []
  delete k ((j, w) ∷ m) = let rest = delete k m in if k == j then rest else (j, w) ∷ rest

  -- `_, ok := m[k]`
  unfoldable pub has : K → Map K V → Bool
  has k m = elim (get k m) [ none ↦ false | some _ ↦ true ]

  -- No key has two entries.
  abbrev pub NodupKeys : Map K V → Type κ
  NodupKeys [] = Unit
  NodupKeys ((k, _) ∷ m) = (get k m ≡ none) × NodupKeys m

  pub get-nil : (k : K) → get k [] ≡ none
  unfolding get
  get-nil k = refl

  pub get-cons :
      (j k : K) (v : V) (m : Map K V) → get j ((k, v) ∷ m) ≡ (if j == k then some v else get j m)
  unfolding get
  get-cons j k v m = refl

  pub get-put :
      (j k : K) (v : V) (m : Map K V) → get j (put k v m) ≡ (if j == k then some v else get j m)
  unfolding get put
  get-put j k v [] = refl
  get-put j k v (_ ∷ m) = ground (arith, get-put j k v m)

  pub get-delete : (j k : K) (m : Map K V) → get j (delete k m) ≡ (if j == k then none else get j m)
  unfolding get delete
  get-delete j k [] = ground arith
  get-delete j k (_ ∷ m) = ground (arith, get-delete j k m)

  pub put-NodupKeys : (k : K) (v : V) (m : Map K V) → NodupKeys m → NodupKeys (put k v m)
  unfolding put
  put-NodupKeys k v [] _ = (get-nil k, tt)
  put-NodupKeys k v ((j, w) ∷ m) (fresh, u) = ground (arith, put-NodupKeys k v m u, get-put j k v m)

  pub delete-NodupKeys : (k : K) (m : Map K V) → NodupKeys m → NodupKeys (delete k m)
  unfolding delete
  delete-NodupKeys k [] _ = tt
  delete-NodupKeys k ((j, w) ∷ m) (fresh, u) =
      ground (arith, delete-NodupKeys k m u, get-delete j k m)

  pub delete-of-absent : (k : K) (m : Map K V) → get k m ≡ none → delete k m ≡ m
  unfolding get delete
  delete-of-absent k [] h = refl
  delete-of-absent k ((j, w) ∷ m) h = ground (arith, delete-of-absent k m)

  pub length-put_new :
      (k : K) (v : V) (m : Map K V) → get k m ≡ none → length (put k v m) ≡ length m + 1
  unfolding get put
  length-put_new k v [] h = omega arith
  length-put_new k v ((j, w) ∷ m) h = ground (arith, length-put_new k v m)

  pub length-put_old :
      (k : K) (v : V) (m : Map K V) → get k m ≢ none → length (put k v m) ≡ length m
  unfolding get put
  length-put_old k v [] h = absurd (h refl)
  length-put_old k v ((j, w) ∷ m) h = ground (arith, length-put_old k v m)

  pub length-delete :
      (k : K) (m : Map K V) → NodupKeys m → get k m ≢ none → length (delete k m) + 1 ≡ length m
  unfolding get delete
  length-delete k [] u h = absurd (h refl)
  length-delete k ((j, w) ∷ m) (fresh, u) h =
      ground (arith, length-delete k m u, delete-of-absent k m)

  -- What is found after a write is the written value, or was there before.
  pub get-put_cases :
      (j k : K) (v w : V) (m : Map K V)
      → get j (put k v m) ≡ some w
      → ((j ≡ k) × (v ≡ w)) ⊎ (get j m ≡ some w)
  get-put_cases j k v w m h = ground (arith, get-put j k v m)

  pub get_of_delete :
      (j k : K) (w : V) (m : Map K V) → get j (delete k m) ≡ some w → get j m ≡ some w
  get_of_delete j k w m h = ground (arith, get-delete j k m)

  pub get-put_same : (k : K) (v : V) (m : Map K V) → get k (put k v m) ≡ some v
  get-put_same k v m = ground (arith, get-put k k v m)

  pub get-put_other :
      (j k : K) (v : V) (m : Map K V) → (j == k) ≡ false → get j (put k v m) ≡ get j m
  get-put_other j k v m h = ground (arith, get-put j k v m)

  pub put-put_same : (k : K) (v : V) (m : Map K V) → put k v (put k v m) ≡ put k v m
  unfolding put
  put-put_same k v [] = ground arith
  put-put_same k v ((j, w) ∷ m) = ground (arith, put-put_same k v m)
