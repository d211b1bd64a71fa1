-- ===== src/Base/Lists.antt =====
-- Lists measured by native numbers, membership tests and predicates over all members.
use Prim.Native.Nat.{ℕ, suc, ◌+◌}
use mathlib.Core.Path.{◌≡◌, refl, ap}
use mathlib.Core.Logic.{◌⊎◌, inl, inr}
use mathlib.Core.Bool.{Bool, false, ◌||◌}
use mathlib.Core.List.{List, [], ◌∷◌, ◌++◌, map}
use native.Mathlib.Omega.{arith}

module _ {ℓ} {A : Type ℓ} where
  abbrev pub length : List A → ℕ
  length [] = 0
  length (x ∷ xs) = suc (length xs)

  pub length-append : (xs ys : List A) → length (xs ++ ys) ≡ length xs + length ys
  length-append [] ys = omega arith
  length-append (x ∷ xs) ys = omega (arith, length-append xs ys)

  -- Does a member pass the test?
  abbrev pub any : (A → Bool) → List A → Bool
  any p [] = false
  any p (x ∷ xs) = p x || any p xs

  abbrev pub All {κ} : (A → Type κ) → List A → Type κ
  All P [] = Unit
  All P (x ∷ xs) = P x × All P xs

  pub All-append {κ} : (P : A → Type κ) (xs ys : List A) → All P xs → All P ys → All P (xs ++ ys)
  All-append P [] ys h k = k
  All-append P (x ∷ xs) ys (h, t) k = (h, All-append P xs ys t k)

  -- Every element is related to all that come later.
  abbrev pub Ordered {κ} : (A → A → Type κ) → List A → Type κ
  Ordered R [] = Unit
  Ordered R (x ∷ xs) = All (R x) xs × Ordered R xs

  -- x is one of the elements.
  pub data Among (x : A) : List A → Type ℓ where
    here : (xs : List A) → Among x (x ∷ xs)
    there : (y : A) (xs : List A) → Among x xs → Among x (y ∷ xs)

  pub All-of_Among {κ} : (P : A → Type κ) (xs : List A) → ((x : A) → Among x xs → P x) → All P xs
  All-of_Among P [] f = tt
  All-of_Among P (x ∷ xs) f = (f x (here xs), All-of_Among P xs (λ y m. f y (there x xs m)))

  pub All-Among {κ} : (P : A → Type κ) {x : A} {xs : List A} → Among x xs → All P xs → P x
  All-Among P (here xs) (p, h) = p
  All-Among P (there y xs m) (p, h) = All-Among P m h

  pub Among-left : {x : A} (xs ys : List A) → Among x xs → Among x (xs ++ ys)
  Among-left _ ys (here xs) = here (xs ++ ys)
  Among-left _ ys (there y xs m) = there y (xs ++ ys) (Among-left xs ys m)

  pub Among-right : {x : A} (xs ys : List A) → Among x ys → Among x (xs ++ ys)
  Among-right [] ys m = m
  Among-right (x ∷ xs) ys m = there x (xs ++ ys) (Among-right xs ys m)

  pub Among-or : {x : A} (xs ys : List A) → Among x (xs ++ ys) → Among x xs ⊎ Among x ys
  Among-or [] ys m = inr m
  Among-or (x ∷ xs) ys (here _) = inl (here xs)
  Among-or (x ∷ xs) ys (there _ _ m) = elim (Among-or xs ys m) [
    | inl n ↦ inl (there x xs n)
    | inr n ↦ inr n
  ]

pub length-map {ℓ κ} :
    {A : Type ℓ} {B : Type κ} (f : A → B) (xs : List A) → length (map f xs) ≡ length xs
length-map f [] = refl
length-map f (x ∷ xs) = ap suc (length-map f xs)
