-- ===== src/Tracker/State/Counts.antt =====
-- internal/tracker/status_tracker.go: the counter of resources in each namespace, against the
-- resources that are tracked.
use model_validation_operato.Base.{
  ◌≡◌, ◌≢◌, refl, ℕ, ◌+◌, ◌-◌, ◌<◌, String, none, some, [], ◌∷◌, arith, NamespacedName, key_eq,
  string_eq, ◌==◌, if◌then◌else◌, Option-cases, inl, inr,
}
use model_validation_operato.Base.Map
use model_validation_operato.Base.Map.{Map}
use model_validation_operato.Tracker.State.{count_at, decrement}

-- How many of the keys lie in the namespace?
unfoldable pub count_in {ℓ} : {V : Type ℓ} → String → Map NamespacedName V → ℕ
count_in ns [] = 0
count_in ns ((key, _) ∷ mvs) =
    let rest = count_in ns mvs in if key.namespace == ns then rest + 1 else rest

abbrev here : String → NamespacedName → ℕ
here ns key = if key.namespace == ns then 1 else 0

module _ {ℓ} {V : Type ℓ} (ns : String) (key : NamespacedName) where
  pub count_in-put_new :
      (v : V) (mvs : Map NamespacedName V)
      → Map.get key mvs ≡ none
      → count_in ns (Map.put key v mvs) ≡ count_in ns mvs + here ns key
  unfolding count_in Map.put Map.get
  count_in-put_new v [] h = ground arith
  count_in-put_new v ((j, w) ∷ mvs) h = ground (arith, count_in-put_new v mvs)

  pub count_in-put_old :
      (v : V) (mvs : Map NamespacedName V)
      → Map.get key mvs ≢ none
      → count_in ns (Map.put key v mvs) ≡ count_in ns mvs
  unfolding count_in Map.put Map.get
  count_in-put_old v [] h = absurd (h refl)
  count_in-put_old v ((j, w) ∷ mvs) h = ground (arith, count_in-put_old v mvs)

  pub count_in-delete :
      (mvs : Map NamespacedName V)
      → Map.NodupKeys mvs
      → Map.get key mvs ≢ none
      → count_in ns (Map.delete key mvs) + here ns key ≡ count_in ns mvs
  unfolding count_in Map.delete Map.get
  count_in-delete [] u h = absurd (h refl)
  count_in-delete ((j, w) ∷ mvs) (fresh, u) h =
      ground (arith, count_in-delete mvs u, Map.delete-of-absent key mvs)

count_in-pos {ℓ} :
    {V : Type ℓ} (key : NamespacedName) (mvs : Map NamespacedName V)
    → Map.get key mvs ≢ none
    → 0 < count_in key.namespace mvs
unfolding count_in Map.get
count_in-pos key [] h = absurd (h refl)
count_in-pos key ((j, w) ∷ mvs) h = ground (arith, count_in-pos key mvs)

-- Every counter is right, and none is kept at 0.
pub record CountsMatch {ℓ} {V : Type ℓ} (mvs : Map NamespacedName V) (counts : Map String ℕ)
    : Type ℓ where
  pub counted : (ns : String) → count_at ns counts ≡ count_in ns mvs
  pub positive : (ns : String) (n : ℕ) → Map.get ns counts ≡ some n → 0 < n

module _ {ℓ} {V : Type ℓ} (key : NamespacedName) (mvs : Map NamespacedName V)
    (counts : Map String ℕ) (c : CountsMatch mvs counts) where
  pub put_new-CountsMatch :
      (v : V)
      → Map.get key mvs ≡ none
      → CountsMatch
          (Map.put key v mvs)
          (Map.put key.namespace (count_at key.namespace counts + 1) counts)
  put_new-CountsMatch v h = record {
    counted = λ ns. ground (
      arith,
      c.counted ns,
      count_in-put_new ns key v mvs h,
      Map.get-put ns key.namespace (count_at key.namespace counts + 1) counts,
    );
    positive = λ ns n. ground (
      arith,
      c.positive ns n,
      Map.get-put ns key.namespace (count_at key.namespace counts + 1) counts,
    );
  }

  pub put_old-CountsMatch :
      (v : V) → Map.get key mvs ≢ none → CountsMatch (Map.put key v mvs) counts
  put_old-CountsMatch v h = record {
    counted = λ ns. ground (arith, c.counted ns, count_in-put_old ns key v mvs h);
    positive = c.positive;
  }

  pub delete-CountsMatch :
      Map.NodupKeys mvs
      → Map.get key mvs ≢ none
      → CountsMatch (Map.delete key mvs) (decrement key.namespace counts)
  unfolding decrement
  delete-CountsMatch u h = record {
    counted = λ ns. ground (
      arith,
      c.counted ns,
      count_in-delete ns key mvs u h,
      Map.get-put ns key.namespace (count_at key.namespace counts - 1) counts,
      Map.get-delete ns key.namespace counts,
    );
    positive = λ ns n. ground (
      arith,
      c.positive ns n,
      Map.get-put ns key.namespace (count_at key.namespace counts - 1) counts,
      Map.get-delete ns key.namespace counts,
    );
  }

  -- What is tracked is counted.
  pub count_at-pos : Map.get key mvs ≢ none → 0 < count_at key.namespace counts
  count_at-pos h = elim (Option-cases (Map.get key mvs)) [
    | inl e ↦ absurd (h e)
    | inr (v, e) ↦ ground (arith, c.counted key.namespace, count_in-pos key mvs h)
  ]
