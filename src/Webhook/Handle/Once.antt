-- ===== src/Webhook/Handle/Once.antt =====
-- internal/webhooks/pod_webhook.go: when the handler extends a pod, and that it does so once.
use model_validation_operato.Base.{
  ◌≡◌, ◌≢◌, ◌∙◌, refl, ℕ, String, true, false, arith, sym, subst, Option, none, some, inl, inr,
  ◌==◌, string_eq, Bool-cases, Option-cases,
}
use model_validation_operato.Base.Map
use model_validation_operato.Constants.{model_validation_label}
use model_validation_operato.Api.{ModelValidation}
use model_validation_operato.Kube.{Pod, Namespace, Fetch, found, not_found, failed}
use model_validation_operato.Webhook.Handle.{
  Environment, Request, Response, allowed, errored, patched, is_ignored, validation_exists, handle,
  handle_pod, handle_labelled, handle_with, with_resource, with_namespace,
}
use model_validation_operato.Webhook.Handle.Results.{extended, validation_exists-extended}

module _ (env : Environment) where
  -- What the handler looked up before it came to `handle_with`.
  abbrev pub IsReached : Pod → Namespace → ModelValidation → Type 0
  IsReached pod ns mv =
      (is_ignored ns ≡ false)
      × (name : String) × (name ≢ "")
      × (Map.get model_validation_label pod.labels ≡ some name)
      × (env.get_model_validation (record { namespace = pod.namespace; name = name }) ≡ found mv)

differ : (name : String) → (name == "") ≡ false → name ≢ ""
differ name e q = absurd (ground arith)

module _ (env : Environment) (P : Response → Type 0) (of_allowed : (m : String) → P (allowed m))
    (of_errored : (n : ℕ) → P (errored n)) where
  with_resource_ind :
      (pod : Pod) (ns : Namespace) (f : Fetch ModelValidation)
      → ((mv : ModelValidation) → f ≡ found mv → P (handle_with env pod ns mv))
      → P (with_resource env pod ns f)
  with_resource_ind pod ns (found mv) h = h mv refl
  with_resource_ind pod ns not_found h = of_errored 400
  with_resource_ind pod ns (failed _) h = of_errored 400

  module _ (pod : Pod) (ns : Namespace)
      (step : (mv : ModelValidation)
        → IsReached env pod ns mv
        → P (handle_with env pod ns mv)) where
    handle_labelled_ind :
        (name : String)
        → is_ignored ns ≡ false
        → Map.get model_validation_label pod.labels ≡ some name
        → P (handle_labelled env pod ns name)
    unfolding handle_labelled
    handle_labelled_ind name h k = elim (Bool-cases (name == "")) [
      | inl e ↦ rw e (of_allowed "no ModelValidation label found, no action needed")
      | inr e ↦ rw e (
          with_resource_ind pod ns
            (env.get_model_validation (record { namespace = pod.namespace; name = name }))
            (λ mv f. step mv (h, name, differ name e, k, f)))
    ]

    handle_pod_ind : P (handle_pod env pod ns)
    unfolding handle_pod
    handle_pod_ind = elim (Bool-cases (is_ignored ns)) [
      | inl e ↦ rw e (of_allowed "namespace ignored")
      | inr e ↦ rw e (elim (Option-cases (Map.get model_validation_label pod.labels)) [
        | inl k ↦ rw k (of_allowed "no ModelValidation label found, no action needed")
        | inr (name, k) ↦ rw k (handle_labelled_ind name e k)
      ])
    ]

  with_namespace_ind :
      (pod : Pod) (f : Fetch Namespace)
      → ((ns : Namespace)
          → f ≡ found ns
          → (mv : ModelValidation) → IsReached env pod ns mv
          → P (handle_with env pod ns mv))
      → P (with_namespace env pod f)
  with_namespace_ind pod (found ns) step = handle_pod_ind pod ns (step ns refl)
  with_namespace_ind pod not_found step = of_errored 500
  with_namespace_ind pod (failed _) step = of_errored 500

  handle_ind :
      (req : Request)
      → ((pod : Pod) (ns : Namespace) (mv : ModelValidation)
          → req.object ≡ some pod
          → env.get_namespace req.namespace ≡ found ns
          → IsReached env pod ns mv
          → P (handle_with env pod ns mv))
      → P (handle env req)
  unfolding handle
  handle_ind req step = elim (Option-cases req.object) [
    | inl e ↦ rw (e, handle) (of_errored 400)
    | inr (pod, e) ↦
        rw (e, handle)
          (with_namespace_ind pod (env.get_namespace req.namespace)
            (λ ns f mv r. step pod ns mv e f r))
  ]

module _ (env : Environment) where
  -- A patch comes from a resource that was found, for a pod without a container that validates.
  abbrev pub IsExplained : Request → Response → Type 0
  IsExplained req (allowed _) = Unit
  IsExplained req (errored _) = Unit
  IsExplained req (patched pp) =
      (pod : Pod) × (ns : Namespace) × (mv : ModelValidation) × (req.object ≡ some pod)
      × (env.get_namespace req.namespace ≡ found ns)
      × IsReached env pod ns mv
      × (validation_exists pod ≡ false)
      × (pp ≡ extended env pod ns mv)

  explain :
      (req : Request) (pod : Pod) (ns : Namespace) (mv : ModelValidation)
      → req.object ≡ some pod
      → env.get_namespace req.namespace ≡ found ns
      → IsReached env pod ns mv
      → IsExplained req (handle_with env pod ns mv)
  unfolding handle_with
  explain req pod ns mv e f r = elim (Bool-cases (validation_exists pod)) [
    | inl k ↦ rw k tt
    | inr k ↦ rw k (elim (Bool-cases (env.marshal_fails (extended env pod ns mv))) [
      | inl l ↦ rw l tt
      | inr l ↦ rw l (pod, ns, mv, e, f, r, k, refl)
    ])
  ]

  pub handle-IsExplained : (req : Request) → IsExplained req (handle env req)
  handle-IsExplained req = handle_ind env (IsExplained req) (λ _. tt) (λ _. tt) req (explain req)

  abbrev IsNoPatch : Response → Type 0
  IsNoPatch (patched _) = ⊥
  IsNoPatch (allowed _) = Unit
  IsNoPatch (errored _) = Unit

  existing-handle_with :
      (pod : Pod) (ns : Namespace) (mv : ModelValidation)
      → validation_exists pod ≡ true
      → IsNoPatch (handle_with env pod ns mv)
  unfolding handle_with
  existing-handle_with pod ns mv h = rw h tt

  abbrev Exists : Option Pod → Type 0
  Exists none = Unit
  Exists (some pod) = validation_exists pod ≡ true

  existing-IsNoPatch :
      (req : Request) (pp : Pod)
      → validation_exists pp ≡ true
      → req.object ≡ some pp
      → IsNoPatch (handle env req)
  existing-IsNoPatch req pp h e =
      handle_ind env IsNoPatch (λ _. tt) (λ _. tt) req
        (λ pod ns mv f _ _. existing-handle_with pod ns mv (subst Exists (sym e ∙ f) h))

-- The API server may call the handler again on a pod that the handler patched, in any environment:
-- it never patches that pod a second time.
pub handle_once :
    (env again : Environment) (req : Request) (pp : Pod)
    → handle env req ≡ patched pp
    → (namespace : String) (q : Pod)
    → handle again (record { namespace = namespace; object = some pp }) ≢ patched q
handle_once env again req pp h namespace q e =
    let (pod, ns, mv, _, _, _, _, p) = subst (IsExplained env req) h (handle-IsExplained env req) in
    let exists : validation_exists pp ≡ true = rw p (validation_exists-extended env pod ns mv) in
    subst (IsNoPatch again) e
      (existing-IsNoPatch again (record { namespace = namespace; object = some pp }) pp exists refl)
