-- ===== src/Tracker/State/Names.antt =====
-- internal/tracker/model_validation_info.go: the names of the pods of a resource, read off the
-- states of their UIDs.
use model_validation_operato.Base.{
  ◌≡◌, ◌≢◌, ◌∙◌, refl, String, Bool, true, false, ◌||◌, none, some, List, [], ◌∷◌, ◌++◌, map, any,
  arith, inl, inr, Bool-cases, Option-cases, NamespacedName, key_eq, string_eq, ◌==◌,
}
use model_validation_operato.Base.Map
use model_validation_operato.Base.Map.{Map}
use model_validation_operato.Tracker.Info.{PodInfo, ModelValidationInfo, get_all_pods}
use model_validation_operato.Tracker.Info.View.{View, IsWellFormed, view}
use model_validation_operato.Tracker.State.{pod_key}

any-map :
    {A B : Type 0} (q : B → Bool) (f : A → B) (xs : List A)
    → any q (map f xs) ≡ any (λ x. q (f x)) xs
any-map q f [] = refl
any-map q f (x ∷ xs) = ground (arith, any-map q f xs)

any-append :
    {A : Type 0} (q : A → Bool) (xs ys : List A) → any q (xs ++ ys) ≡ (any q xs || any q ys)
any-append q [] ys = refl
any-append q (x ∷ xs) ys = ground (arith, any-append q xs ys)

any_of_mem :
    (q : String → Bool) (u : String) (xs : List String)
    → any (λ v. u == v) xs ≡ true
    → q u ≡ true
    → any q xs ≡ true
any_of_mem q u [] m h = ground arith
any_of_mem q u (x ∷ xs) m h = ground (arith, any_of_mem q u xs)

any_witness : (q : String → Bool) (xs : List String) → any q xs ≡ true → (u : String) × (q u ≡ true)
any_witness q [] m = absurd (ground arith)
any_witness q (x ∷ xs) m = elim (Bool-cases (q x)) [
  | inl e ↦ (x, e)
  | inr e ↦ any_witness q xs (ground arith)
]

same_truth : (a b : Bool) → (a ≡ true → b ≡ true) → (b ≡ true → a ≡ true) → a ≡ b
same_truth a b f g = ground (arith, f, g)

any-values :
    (q : PodInfo → Bool) (u : String) (p : PodInfo) (m : Map String PodInfo)
    → Map.get u m ≡ some p
    → q p ≡ true
    → any q (Map.values m) ≡ true
unfolding Map.get Map.values
any-values q u p [] e h = ground arith
any-values q u p ((k, r) ∷ m) e h = ground (arith, any-values q u p m)

-- A pod of a map, with its key.
abbrev Entry : (PodInfo → Bool) → Map String PodInfo → Type 0
Entry q m = (u : String) × (p : PodInfo) × (Map.get u m ≡ some p) × (q p ≡ true)

entry-values :
    (q : PodInfo → Bool) (m : Map String PodInfo)
    → Map.NodupKeys m
    → any q (Map.values m) ≡ true
    → Entry q m
unfolding Map.get Map.values
entry-values q [] n h = absurd (ground arith)
entry-values q ((k, r) ∷ m) (fresh, n) h = elim (Bool-cases (q r)) [
  | inl e ↦ (k, r, ground arith, e)
  | inr e ↦
      let (u, p, g, t) = entry-values q m n (ground arith) in (u, p, ground (arith, g, fresh), t)
]

-- Has the pod of this record the name?
abbrev pub has_name : NamespacedName → View → Bool
has_name n none = false
has_name n (some (_, p)) = n == pod_key p

module _ (n : NamespacedName) (info : ModelValidationInfo) (w : IsWellFormed info) where
  abbrev named : PodInfo → Bool
  named p = n == pod_key p

  abbrev in_maps : Bool
  in_maps =
      any named (Map.values info.injected_pods)
      || (any named (Map.values info.uninjected_pods) || any named (Map.values info.orphaned_pods))

  -- From the maps to the states.
  abbrev Named : Type 0
  Named = (u : String) × (has_name n (view u info) ≡ true)

  named_injected : Entry named info.injected_pods → Named
  unfolding view
  named_injected (u, p, e, h) = (u, rw e h)

  named_orphaned : Entry named info.orphaned_pods → Named
  unfolding view
  named_orphaned (u, p, e, h) = elim (Option-cases (Map.get u info.injected_pods)) [
    | inl i ↦ (u, rw (i, e) h)
    | inr (r, i) ↦ absurd (ground (arith, w.of_injected u r i))
  ]

  named_uninjected : Entry named info.uninjected_pods → Named
  unfolding view
  named_uninjected (u, p, e, h) = elim (Option-cases (Map.get u info.injected_pods)) [
    | inr (r, i) ↦ absurd (ground (arith, w.of_injected u r i))
    | inl i ↦ elim (Option-cases (Map.get u info.orphaned_pods)) [
      | inr (r, o) ↦ absurd (ground (arith, w.of_orphaned u r o))
      | inl o ↦ (u, rw (i, o, e) h)
    ]
  ]

  named_in_maps : in_maps ≡ true → Named
  named_in_maps h = elim (Bool-cases (any named (Map.values info.injected_pods))) [
    | inl i ↦ named_injected (entry-values named info.injected_pods w.injected_nodup i)
    | inr i ↦ elim (Bool-cases (any named (Map.values info.uninjected_pods))) [
      | inl j ↦ named_uninjected (entry-values named info.uninjected_pods w.uninjected_nodup j)
      | inr j ↦
          named_orphaned
            (entry-values named info.orphaned_pods w.orphaned_nodup (ground (arith, i, j, h)))
    ]
  ]

  -- And back.
  in_maps_named : (u : String) → has_name n (view u info) ≡ true → in_maps ≡ true
  unfolding view
  in_maps_named u h = elim (Option-cases (Map.get u info.injected_pods)) [
    | inr (p, i) ↦ ground (arith, i, any-values named u p info.injected_pods i)
    | inl i ↦ elim (Option-cases (Map.get u info.orphaned_pods)) [
      | inr (p, o) ↦ ground (arith, i, o, any-values named u p info.orphaned_pods o)
      | inl o ↦ elim (Option-cases (Map.get u info.uninjected_pods)) [
        | inr (p, j) ↦ ground (arith, i, o, j, any-values named u p info.uninjected_pods j)
        | inl j ↦ absurd (ground (arith, i, o, j))
      ]
    ]
  ]

  -- A name is among those of the pods of a resource exactly if, for one of the UIDs that were ever
  -- filed, the pod with this UID under the resource has it.
  pub names-get_all_pods :
      (filed : List String)
      → ((u : String) → view u info ≢ none → any (λ v. u == v) filed ≡ true)
      → any (λ m. n == m) (map pod_key (get_all_pods info))
        ≡ any (λ u. has_name n (view u info)) filed
  unfolding get_all_pods
  names-get_all_pods filed h =
      let i = Map.values info.injected_pods in
      let j = Map.values info.uninjected_pods in
      let o = Map.values info.orphaned_pods in
      any-map (λ m. n == m) pod_key (i ++ (j ++ o))
      ∙ any-append named i (j ++ o)
      ∙ ground (arith, any-append named j o)
      ∙ same_truth in_maps (any (λ u. has_name n (view u info)) filed)
          (λ t.
            let (u, e) = named_in_maps t in
            any_of_mem (λ v. has_name n (view v info)) u filed (h u (λ z. ground (arith, z, e))) e)
          (λ t.
            let (u, e) = any_witness (λ v. has_name n (view v info)) filed t in in_maps_named u e)
