-- ===== src/Webhook/Handle/Results.antt =====
-- internal/webhooks/pod_webhook.go: what the admission handler guarantees on all its paths.
use model_validation_operato.Base.{
  ◌≡◌, ◌≢◌, refl, String, Bool, true, false, ◌||◌, arith, List, [], ◌∷◌, ◌++◌, any, some, inl, inr,
  ◌==◌, string_eq, Bool-cases,
}
use model_validation_operato.Base.Map
use model_validation_operato.Constants.{
  model_validation_label, model_validation_init_container_name,
}
use model_validation_operato.Api.{ModelValidation}
use model_validation_operato.Kube.{Pod, Namespace, Container, Fetch, found, not_found, failed}
use model_validation_operato.Webhook.Container.{build_validation_container}
use model_validation_operato.Webhook.Handle.Inject.{inject, agent_mounts, merged_args}
use model_validation_operato.Webhook.Telemetry.{find_matching_telemetry_config}
use model_validation_operato.Webhook.Handle.{
  Environment, Request, Response, allowed, errored, patched, is_ignored, has_name,
  validation_exists, handle, handle_pod, handle_labelled, handle_with, with_resource,
}
use model_validation_operato.Webhook.Container.{
  continuous_enabled, interval, build_validation_container,
}
use model_validation_operato.Webhook.Handle.Inject.{merged_model, inject}
use model_validation_operato.Webhook.Args.{agent_args}
use model_validation_operato.Constants.{model_validation_agent_image}
use model_validation_operato.Base.{◌&&◌, if◌then◌else◌, ◌<>◌}

any_append :
    (p : Container → Bool) (cs ds : List Container) → any p (cs ++ ds) ≡ (any p cs || any p ds)
any_append p [] ds = refl
any_append p (c ∷ cs) ds = ground (arith, any_append p cs ds)

any_last :
    (p : Container → Bool) (cs : List Container) (c : Container)
    → p c ≡ true
    → any p (cs ++ (c ∷ [])) ≡ true
any_last p cs c h = ground (arith, any_append p cs (c ∷ []))

module _ (env : Environment) where
  abbrev pub extended : Pod → Namespace → ModelValidation → Pod
  extended =
      inject env.digest env.matches env.finalizers env.now env.list_telemetry_configs
        env.native_sidecar_support

  abbrev validator : Pod → Namespace → ModelValidation → Container
  validator pod ns mv =
      build_validation_container mv (merged_args pod mv) (agent_mounts pod mv)
        (find_matching_telemetry_config env.matches env.list_telemetry_configs ns mv)
        env.native_sidecar_support

  added :
      (pod : Pod) (ns : Namespace) (mv : ModelValidation)
      → any (has_name model_validation_init_container_name) (extended pod ns mv).init_containers
        ≡ true
  unfolding inject build_validation_container string_eq
  added pod ns mv =
      any_last (has_name model_validation_init_container_name) pod.init_containers
        (validator pod ns mv) refl

  pub validation_exists-extended :
      (pod : Pod) (ns : Namespace) (mv : ModelValidation)
      → validation_exists (extended pod ns mv) ≡ true
  unfolding validation_exists
  validation_exists-extended pod ns mv = rw (added pod ns mv) refl

  -- The container runs the agent on the resource: under the name of the validation container, from
  -- the agent's image, by the agent's command, with the arguments of the resource's configuration
  -- and of its model under the pod's annotations, behind the interval for a native sidecar.
  pub record IsValidator (pod : Pod) (mv : ModelValidation) (c : Container) : Type 0 where
    pub name : c.name ≡ "model-validation"
    pub image : c.image ≡ model_validation_agent_image
    pub command : c.command ≡ "/usr/local/bin/validation-agent" ∷ []
    pub args : c.args ≡ (
        if continuous_enabled mv && env.native_sidecar_support
        then ("--interval=" <> interval mv) ∷ agent_args mv.spec.config (merged_model pod mv)
        else agent_args mv.spec.config (merged_model pod mv))

  -- The pod as it came, with such a container behind its init containers.
  abbrev pub IsExtended : Pod → ModelValidation → Pod → Type 0
  IsExtended pod mv pp =
      (c : Container) × (pp.init_containers ≡ pod.init_containers ++ (c ∷ []))
      × IsValidator pod mv c

  -- Let in as it is only with a container under the name of a validation container, and with a
  -- patch only with the one that validates the resource that was found.
  abbrev pub IsGuarded : Pod → String → Response → Type 0
  IsGuarded pod name (allowed _) = validation_exists pod ≡ true
  IsGuarded pod name (errored _) = Unit
  IsGuarded pod name (patched pp) =
      (mv : ModelValidation) × (env.get_model_validation
          (record { namespace = pod.namespace; name = name })
        ≡ found mv)
      × IsExtended pod mv pp

  extended-IsExtended :
      (pod : Pod) (ns : Namespace) (mv : ModelValidation) → IsExtended pod mv (extended pod ns mv)
  unfolding inject build_validation_container
  extended-IsExtended pod ns mv =
      (validator pod ns mv, refl, record { name = refl; image = refl; command = refl; args = refl })

  handle_with-IsGuarded :
      (pod : Pod) (ns : Namespace) (name : String) (mv : ModelValidation)
      → env.get_model_validation (record { namespace = pod.namespace; name = name }) ≡ found mv
      → IsGuarded pod name (handle_with env pod ns mv)
  unfolding handle_with
  handle_with-IsGuarded pod ns name mv h = elim (Bool-cases (validation_exists pod)) [
    | inl e ↦ rw e e
    | inr e ↦ rw e (elim (Bool-cases (env.marshal_fails (extended pod ns mv))) [
      | inl f ↦ rw f tt
      | inr f ↦ rw f (mv, h, extended-IsExtended pod ns mv)
    ])
  ]

  with_resource-IsGuarded :
      (pod : Pod) (ns : Namespace) (name : String) (mv : Fetch ModelValidation)
      → env.get_model_validation (record { namespace = pod.namespace; name = name }) ≡ mv
      → IsGuarded pod name (with_resource env pod ns mv)
  with_resource-IsGuarded pod ns name (found mv) h = handle_with-IsGuarded pod ns name mv h
  with_resource-IsGuarded pod ns name not_found h = tt
  with_resource-IsGuarded pod ns name (failed _) h = tt

  handle_labelled-IsGuarded :
      (pod : Pod) (ns : Namespace) (name : String)
      → name ≢ ""
      → IsGuarded pod name (handle_labelled env pod ns name)
  unfolding handle_labelled
  handle_labelled-IsGuarded pod ns name h = elim (Bool-cases (name == "")) [
    | inl e ↦ absurd (h (ground (arith, e)))
    | inr e ↦ rw e (
        with_resource-IsGuarded pod ns name
          (env.get_model_validation (record { namespace = pod.namespace; name = name })) refl)
  ]

  -- When the namespace is not ignored and the pod names a resource, the handler refuses the pod, or
  -- lets it in as it is because it has a container under the name of one of the validation
  -- containers already (of which only the name is looked at), or patches it. The patched pod has one
  -- more init container, which runs the agent with the arguments of the resource that was found
  -- under the name and of its model under the pod's annotations.
  pub handle_guards :
      (req : Request) (pod : Pod) (ns : Namespace) (name : String)
      → req.object ≡ some pod
      → env.get_namespace req.namespace ≡ found ns
      → is_ignored ns ≡ false
      → Map.get model_validation_label pod.labels ≡ some name
      → name ≢ ""
      → IsGuarded pod name (handle env req)
  unfolding handle handle_pod
  handle_guards req pod ns name h i j k l =
      rw (h, handle, i, j, handle_pod, k) (handle_labelled-IsGuarded pod ns name l)
