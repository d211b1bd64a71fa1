-- ===== src/Base/Sort.antt =====
-- Go's `sort.Slice`, as an insertion sort. Go leaves the order of equal elements open; this sort
-- keeps it.
pub mod AnyOrder
use Prim.Native.Nat.{suc}
use mathlib.Core.Path.{◌≡◌, refl, ap, ◌∙◌}
use mathlib.Core.Logic.{inl, inr}
use mathlib.Core.Bool.{Bool, true, false, ◌||◌}
use mathlib.Core.List.{List, [], ◌∷◌, Perm}
use mathlib.Core.List.Perm
use native.Mathlib.Omega.{arith}
use model_validation_operato.Base.Equality.{if◌then◌else◌, Bool-cases}
use model_validation_operato.Base.Lists.{All, Ordered, any, length}

module _ {ℓ} {A : Type ℓ} (less : A → A → Bool) where
  unfoldable pub insert : A → List A → List A
  insert x [] = x ∷ []
  insert x (y ∷ ys) = if less y x then y ∷ insert x ys else x ∷ (y ∷ ys)

  unfoldable pub sort_slice : List A → List A
  unfolding insert
  sort_slice [] = []
  sort_slice (x ∷ xs) = insert x (sort_slice xs)

  insert-perm : (x : A) (ys : List A) → Perm (insert x ys) (x ∷ ys)
  unfolding insert
  insert-perm x [] = Perm.refl (x ∷ [])
  insert-perm x (y ∷ ys) = elim (Bool-cases (less y x)) [
    | inl e ↦ rw e (Perm.trans (Perm.cons y (insert-perm x ys)) (Perm.swap x y ys))
    | inr e ↦ rw e (Perm.refl (x ∷ (y ∷ ys)))
  ]

  -- Sorting loses and invents nothing.
  pub sort_slice-perm : (xs : List A) → Perm (sort_slice xs) xs
  unfolding sort_slice
  sort_slice-perm [] = Perm.refl []
  sort_slice-perm (x ∷ xs) =
      Perm.trans (insert-perm x (sort_slice xs)) (Perm.cons x (sort_slice-perm xs))

  insert-All {κ} : (P : A → Type κ) (x : A) (ys : List A) → P x → All P ys → All P (insert x ys)
  unfolding insert
  insert-All P x [] h t = (h, tt)
  insert-All P x (y ∷ ys) h (k, t) = elim (Bool-cases (less y x)) [
    | inl e ↦ rw e (k, insert-All P x ys h t)
    | inr e ↦ rw e (h, (k, t))
  ]

  pub sort_slice-All {κ} : (P : A → Type κ) (xs : List A) → All P xs → All P (sort_slice xs)
  unfolding sort_slice
  sort_slice-All P [] t = tt
  sort_slice-All P (x ∷ xs) (h, t) = insert-All P x (sort_slice xs) h (sort_slice-All P xs t)

  All-of_insert_cons {κ} :
      (P : A → Type κ) (x y : A) (ys : List A) (b : Bool)
      → (All P (insert x ys) → P x × All P ys)
      → All P (if b then y ∷ insert x ys else x ∷ (y ∷ ys))
      → P x × All P (y ∷ ys)
  All-of_insert_cons P x y ys true rest (k, t) = let (h, u) = rest t in (h, (k, u))
  All-of_insert_cons P x y ys false rest t = t

  All-of_insert {κ} : (P : A → Type κ) (x : A) (ys : List A) → All P (insert x ys) → P x × All P ys
  unfolding insert
  All-of_insert P x [] t = t
  All-of_insert P x (y ∷ ys) t = All-of_insert_cons P x y ys (less y x) (All-of_insert P x ys) t

  pub All-of_sort_slice {κ} : (P : A → Type κ) (xs : List A) → All P (sort_slice xs) → All P xs
  unfolding sort_slice
  All-of_sort_slice P [] t = tt
  All-of_sort_slice P (x ∷ xs) t =
      let (h, k) = All-of_insert P x (sort_slice xs) t in (h, All-of_sort_slice P xs k)

  any-insert : (p : A → Bool) (x : A) (ys : List A) → any p (insert x ys) ≡ p x || any p ys
  unfolding insert
  any-insert p x [] = refl
  any-insert p x (y ∷ ys) = ground (arith, any-insert p x ys)

  pub any-sort_slice : (p : A → Bool) (xs : List A) → any p (sort_slice xs) ≡ any p xs
  unfolding sort_slice
  any-sort_slice p [] = refl
  any-sort_slice p (x ∷ xs) =
      any-insert p x (sort_slice xs) ∙ ap (λ b. p x || b) (any-sort_slice p xs)

  length-insert : (x : A) (ys : List A) → length (insert x ys) ≡ suc (length ys)
  unfolding insert
  length-insert x [] = refl
  length-insert x (y ∷ ys) = ground (arith, length-insert x ys)

  pub length-sort_slice : (xs : List A) → length (sort_slice xs) ≡ length xs
  unfolding sort_slice
  length-sort_slice [] = refl
  length-sort_slice (x ∷ xs) = length-insert x (sort_slice xs) ∙ ap suc (length-sort_slice xs)

  -- Sorting puts the elements in every transitive order that the comparison decides.
  module _ {κ} (R : A → A → Type κ) (trans : (x y z : A) → R x y → R y z → R x z)
      (of_less : (x y : A) → less x y ≡ true → R x y)
      (of_not_less : (x y : A) → less y x ≡ false → R x y) where
    All-trans : (x y : A) (zs : List A) → R x y → All (R y) zs → All (R x) zs
    All-trans x y [] r t = tt
    All-trans x y (z ∷ zs) r (k, t) = (trans x y z r k, All-trans x y zs r t)

    insert-Ordered : (x : A) (ys : List A) → Ordered R ys → Ordered R (insert x ys)
    unfolding insert
    insert-Ordered x [] o = (tt, tt)
    insert-Ordered x (y ∷ ys) (a, o) = elim (Bool-cases (less y x)) [
      | inl e ↦ rw e (insert-All (R y) x ys (of_less y x e) a, insert-Ordered x ys o)
      | inr e ↦ let r = of_not_less x y e in rw e ((r, All-trans x y ys r a), (a, o))
    ]

    pub sort_slice-Ordered : (xs : List A) → Ordered R (sort_slice xs)
    unfolding sort_slice
    sort_slice-Ordered [] = tt
    sort_slice-Ordered (x ∷ xs) = insert-Ordered x (sort_slice xs) (sort_slice-Ordered xs)
