-- ===== src/Webhook/Telemetry/Winner.antt =====
-- internal/webhooks/telemetry.go: the configuration that wins, and when there is none.
use model_validation_operato.Base.{
  ◌≡◌, subst, ap, refl, Bool, true, false, arith, ◌≤◌, sym, Option, none, some, List, [], ◌∷◌, All,
  Among, nat_eq, All-of_Among, inl, inr, if◌then◌else◌, string_eq, Bool-cases, Ordered,
}
use model_validation_operato.Base.Sort.{
  sort_slice, sort_slice-All, sort_slice-Ordered, All-of_sort_slice,
}
use model_validation_operato.Api.{TelemetryConfig, ModelValidation}
use model_validation_operato.Kube.{Namespace}
use model_validation_operato.Webhook.Telemetry.{
  Matcher, Candidate, candidate, applies, collect_candidates, more_specific, first_tc,
  find_matching_telemetry_config,
}

-- At most as specific as the other one.
abbrev NotAbove : Candidate → Candidate → Type 0
NotAbove x y = y.specificity ≤ x.specificity

module _ (matches : Matcher) (namespace : Namespace) (mv : ModelValidation) where
  abbrev less : Candidate → Candidate → Bool
  less = more_specific namespace.name

  less-NotAbove : (x y : Candidate) → less x y ≡ true → NotAbove x y
  unfolding more_specific
  less-NotAbove x y h = ground arith

  not_less-NotAbove : (x y : Candidate) → less y x ≡ false → NotAbove x y
  unfolding more_specific
  not_less-NotAbove x y h = ground arith

  candidates-Ordered : (cs : List Candidate) → Ordered NotAbove (sort_slice less cs)
  candidates-Ordered cs =
      sort_slice-Ordered less NotAbove (λ x y z r s. ground arith) less-NotAbove not_less-NotAbove
        cs

  -- A candidate of one of the configurations that applies.
  abbrev IsFrom : List TelemetryConfig → Candidate → Type 0
  IsFrom items c =
      Among c.tc items × ((applies matches namespace mv c.tc ≡ true) × (c ≡ candidate c.tc))

  collect_candidates-All {κ} :
      (P : TelemetryConfig → Type κ) (items : List TelemetryConfig)
      → All P items
      → All
          (λ c. P c.tc × ((applies matches namespace mv c.tc ≡ true) × (c ≡ candidate c.tc)))
          (collect_candidates matches namespace mv items)
  unfolding collect_candidates
  collect_candidates-All P [] t = tt
  collect_candidates-All P (tc ∷ tcs) (h, t) = elim (Bool-cases (applies matches namespace mv tc)) [
    | inl e ↦ rw e ((h, (e, refl)), collect_candidates-All P tcs t)
    | inr e ↦ rw e (collect_candidates-All P tcs t)
  ]

  All-if {κ} :
      (Q : Candidate → Type κ) (b : Bool) (c : Candidate) (cs : List Candidate)
      → All Q (if b then c ∷ cs else cs)
      → (b ≡ true → Q c) × All Q cs
  All-if Q true c cs (h, t) = ((λ _. h), t)
  All-if Q false c cs t = ((λ e. absurd (ground arith)), t)

  All-of_collect_candidates {κ} :
      (Q : Candidate → Type κ) (items : List TelemetryConfig)
      → All Q (collect_candidates matches namespace mv items)
      → All (λ tc. applies matches namespace mv tc ≡ true → Q (candidate tc)) items
  unfolding collect_candidates
  All-of_collect_candidates Q [] t = tt
  All-of_collect_candidates Q (tc ∷ tcs) t =
      let (h, u) =
        All-if Q (applies matches namespace mv tc) (candidate tc)
          (collect_candidates matches namespace mv tcs) t in
      (h, All-of_collect_candidates Q tcs u)

  -- Applies, and no applicable one is more specific; or nothing applies.
  abbrev pub IsBest : List TelemetryConfig → Option TelemetryConfig → Type 0
  IsBest items none = All (λ tc. applies matches namespace mv tc ≡ true → ⊥) items
  IsBest items (some w) =
      (Among w items × (applies matches namespace mv w ≡ true))
      × All
          (λ tc.
            applies matches namespace mv tc ≡ true
            → (candidate tc).specificity ≤ (candidate w).specificity)
          items

  first-IsBest :
      (items : List TelemetryConfig) (cs : List Candidate)
      → sort_slice less (collect_candidates matches namespace mv items) ≡ cs
      → IsBest items (first_tc cs)
  first-IsBest items [] e =
      All-of_collect_candidates (λ _. ⊥) items
        (All-of_sort_slice less (λ _. ⊥) (collect_candidates matches namespace mv items) (rw e tt))
  first-IsBest items (c ∷ cs) e =
      let found = collect_candidates matches namespace mv items in
      let from =
        collect_candidates-All (λ tc. Among tc items) items
          (All-of_Among (λ tc. Among tc items) items (λ _ m. m)) in
      let ((m, (a, q)), _) =
        subst (All (IsFrom items)) e (sort_slice-All less (IsFrom items) found from) in
      let (below, _) = subst (Ordered NotAbove) e (candidates-Ordered found) in
      let sorted =
        subst (λ k. All (λ d. d.specificity ≤ k) (c ∷ cs)) (ap (λ d. d.specificity) q)
          (omega arith, below) in
      let Q = λ (d : Candidate). d.specificity ≤ (candidate c.tc).specificity in
      (
        (m, a),
        All-of_collect_candidates Q items
            (All-of_sort_slice less Q found (subst (All Q) (sym e) sorted)),
      )

  -- The configuration that is found is one of the listed ones, is enabled and selects both the
  -- namespace and the resource, and no other such configuration is more specific; none is found
  -- only if no listed configuration is enabled and selects both.
  pub find_matching_telemetry_config-IsBest :
      (items : List TelemetryConfig)
      → IsBest items (find_matching_telemetry_config matches (some items) namespace mv)
  unfolding find_matching_telemetry_config
  find_matching_telemetry_config-IsBest items =
      first-IsBest items (sort_slice less (collect_candidates matches namespace mv items)) refl
