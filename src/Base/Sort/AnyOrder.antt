-- ===== src/Base/Sort/AnyOrder.antt =====
-- Go's `sort.Slice` on elements of which no two are equal for the comparison: the result does not
-- depend on the order in which the elements came.
use mathlib.Core.Path.{◌≡◌, refl, ap₂, subst, ◌∙◌}
use mathlib.Core.Logic.{◌⊎◌, inl, inr, ∥∥₁_elim}
use mathlib.Core.Bool.{Bool, true, false}
use mathlib.Core.List.{List, [], ◌∷◌, Perm, is_set, Permᴰ}
use native.Mathlib.Omega.{arith}
use model_validation_operato.Base.Lists.{All, Ordered}
use model_validation_operato.Base.Sort.{sort_slice, insert}

module _ {ℓ} {A : Type ℓ} (less : A → A → Bool) where
  -- The comparison decides between the two.
  abbrev pub Differ : A → A → Type 0
  Differ x y = (less x y ≡ true) ⊎ (less y x ≡ true)

  -- Any two elements at different places differ.
  abbrev pub AllDiffer : List A → Type 0
  AllDiffer = Ordered Differ

  Differ-symm : (x y : A) → Differ x y → Differ y x
  Differ-symm x y (inl h) = inr h
  Differ-symm x y (inr h) = inl h

  All-Permᴰ {κ} : (P : A → Type κ) {xs ys : List A} → Permᴰ xs ys → All P xs → All P ys
  All-Permᴰ P Permᴰ.nil t = t
  All-Permᴰ P (Permᴰ.cons e d) (h, t) = (subst P e h, All-Permᴰ P d t)
  All-Permᴰ P (Permᴰ.swap e f) (h, (k, t)) = (subst P f k, (subst P e h, t))
  All-Permᴰ P (Permᴰ.trans d f) t = All-Permᴰ P f (All-Permᴰ P d t)

  AllDiffer-Permᴰ : {xs ys : List A} → Permᴰ xs ys → AllDiffer xs → AllDiffer ys
  AllDiffer-Permᴰ Permᴰ.nil o = o
  AllDiffer-Permᴰ (Permᴰ.cons {l₂ = ys} e d) (h, o) =
      (subst (λ x. All (Differ x) ys) e (All-Permᴰ (Differ _) d h), AllDiffer-Permᴰ d o)
  AllDiffer-Permᴰ (Permᴰ.swap {a} {b} {a'} {b'} {l} e f) ((h, s), (t, o)) = (
    (
      subst (λ x. Differ x b') f (subst (Differ b) e (Differ-symm a b h)),
      subst (λ x. All (Differ x) l) f t,
    ),
    (subst (λ x. All (Differ x) l) e s, o),
  )
  AllDiffer-Permᴰ (Permᴰ.trans d f) o = AllDiffer-Permᴰ f (AllDiffer-Permᴰ d o)

  module _ (trans : (x y z : A) → less x y ≡ true → less y z ≡ true → less x z ≡ true)
      (asym : (x y : A) → less x y ≡ true → less y x ≡ false) where
    insert-swap :
        (x y : A) (zs : List A)
        → Differ x y
        → insert less x (insert less y zs) ≡ insert less y (insert less x zs)
    unfolding insert
    insert-swap x y [] h = ground (arith, asym x y, asym y x)
    insert-swap x y (z ∷ zs) h =
        ground (arith, insert-swap x y zs h, asym x y, asym y x, trans z x y, trans z y x)

    sort_slice-Permᴰ :
        {xs ys : List A} → Permᴰ xs ys → AllDiffer xs → sort_slice less xs ≡ sort_slice less ys
    unfolding sort_slice
    sort_slice-Permᴰ Permᴰ.nil o = refl
    sort_slice-Permᴰ (Permᴰ.cons e d) (h, o) = ap₂ (insert less) e (sort_slice-Permᴰ d o)
    sort_slice-Permᴰ (Permᴰ.swap {a} {b} {l = l} e f) ((h, s), (t, o)) =
        insert-swap a b (sort_slice less l) h
        ∙ ap₂ (λ x y. insert less x (insert less y (sort_slice less l))) f e
    sort_slice-Permᴰ (Permᴰ.trans d f) o =
        sort_slice-Permᴰ d o ∙ sort_slice-Permᴰ f (AllDiffer-Permᴰ d o)

    -- Two lists of the same elements are sorted to the same list, if the comparison decides between
    -- any two elements.
    pub sort_slice_any_order :
        IsSet A
        → {xs ys : List A} → Perm xs ys
        → AllDiffer xs
        → sort_slice less xs ≡ sort_slice less ys
    sort_slice_any_order set p o = ∥∥₁_elim p (is_set set _ _) (λ d. sort_slice-Permᴰ d o)
