-- ===== src/Base/Order.antt =====
-- Go's order of texts is a strict total order.
use Prim.Native.Nat.{Ordering, compare as compare_ℕ}
use Prim.Native.Char.{Char, code}
use Prim.Native.String.{String, [], ◌∷◌, then, compare}
use Prim.Native.String.compare
use mathlib.Core.Path.{◌≡◌, refl, ap, ap₂, ◌∙◌}
use mathlib.Core.Logic.{◌≢◌, ◌⊎◌, inl, inr}
use mathlib.Core.Bool.{Bool, true, false}
use native.Mathlib.Omega.{arith}
use text.Mathlib.Text
use text.Mathlib.TextEquality.{codes_equal}
use model_validation_operato.Base.Equality.{less_text}

-- less_text, character by character.
less_then : Ordering → Bool → Bool
less_then Ordering.lt b = true
less_then Ordering.eq b = b
less_then Ordering.gt b = false

is_lt-then : (o r : Ordering) → Text.is_lt (then o r) ≡ less_then o (Text.is_lt r)
unfolding less_then
is_lt-then Ordering.lt r = refl
is_lt-then Ordering.eq r = refl
is_lt-then Ordering.gt r = refl

less_text-nil : (s : String) → less_text s [] ≡ false
unfolding less_text
less_text-nil [] = ap Text.is_lt compare.nil-nil
less_text-nil (c ∷ s) = ap Text.is_lt (compare.cons-nil c s)

less_text-nil_cons : (d : Char) (t : String) → less_text [] (d ∷ t) ≡ true
unfolding less_text
less_text-nil_cons d t = ap Text.is_lt (compare.nil-cons d t)

less_text-cons :
    (c d : Char) (s t : String)
    → less_text (c ∷ s) (d ∷ t) ≡ less_then (compare_ℕ (code c) (code d)) (less_text s t)
unfolding less_text
less_text-cons c d s t =
    ap Text.is_lt (compare.cons-cons c d s t)
    ∙ is_lt-then (compare_ℕ (code c) (code d)) (compare s t)

pub less_text_trans :
    (s t u : String) → less_text s t ≡ true → less_text t u ≡ true → less_text s u ≡ true
unfolding less_then
less_text_trans s [] u h k = ground (arith, less_text-nil s)
less_text_trans s (d ∷ t) [] h k = ground (arith, less_text-nil (d ∷ t))
less_text_trans [] (d ∷ t) (e ∷ u) h k = less_text-nil_cons e u
less_text_trans (c ∷ s) (d ∷ t) (e ∷ u) h k = ground (
  arith,
  less_text_trans s t u,
  less_text-cons c d s t,
  less_text-cons d e t u,
  less_text-cons c e s u,
)

pub less_text_asym : (s t : String) → less_text s t ≡ true → less_text t s ≡ false
unfolding less_then
less_text_asym s [] h = ground (arith, less_text-nil s)
less_text_asym [] (d ∷ t) h = less_text-nil (d ∷ t)
less_text_asym (c ∷ s) (d ∷ t) h =
    ground (arith, less_text_asym s t, less_text-cons c d s t, less_text-cons d c t s)

eq-cases : (o : Ordering) → (o ≡ Ordering.eq) ⊎ (o ≢ Ordering.eq)
eq-cases Ordering.lt = inr (λ h. cc)
eq-cases Ordering.eq = inl refl
eq-cases Ordering.gt = inr (λ h. cc)

pub less_text_total : (s t : String) → s ≢ t → less_text s t ≡ false → less_text t s ≡ true
unfolding less_then
less_text_total [] [] n h = absurd (n refl)
less_text_total (c ∷ s) [] n h = less_text-nil_cons c s
less_text_total [] (d ∷ t) n h = ground (arith, less_text-nil_cons d t)
less_text_total (c ∷ s) (d ∷ t) n h = elim (eq-cases (compare_ℕ (code c) (code d))) [
  | inl e ↦ ground (
    arith,
    e,
    less_text_total s t (λ p. n (ap₂ (λ x y. x ∷ y) (codes_equal c d e) p)),
    less_text-cons c d s t,
    less_text-cons d c t s,
  )
  | inr e ↦ ground (arith, less_text-cons c d s t, less_text-cons d c t s)
]
