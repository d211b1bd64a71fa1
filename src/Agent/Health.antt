-- ===== src/Agent/Health.antt =====
-- cmd/validation-agent/main.go: the health server, and the probes of the containers that run it.
use model_validation_operato.Base.{
  ◌≡◌, ℕ, String, Bool, true, false, Option, none, some, List, ◌==◌, string_eq, nat_eq,
  if◌then◌else◌, arith,
}
use model_validation_operato.Api.{ModelValidation, TelemetryConfig}
use model_validation_operato.Kube.{Container, VolumeMount}
use model_validation_operato.Webhook.Container.{
  build_validation_container, build_legacy_sidecar_container, continuous_enabled,
}
use model_validation_operato.Agent.{ready_status}

-- The default of the flag --health-port, which the webhook's arguments leave as it is.
abbrev pub health_port : ℕ
health_port = 8080

abbrev ready_body : Bool → String
ready_body true = "ready"
ready_body false = "not ready"

-- The status and the body of a path that has a handler.
unfoldable pub serve : Bool → String → Option (ℕ × String)
serve ready path =
    if path == "/healthz"
    then some (200, "ok")
    else if path == "/ready"
    then some (ready_status ready, ready_body ready)
    else none

-- The container has a readiness probe at the port of a server with `ready`, which is answered as
-- `reported` says, and a liveness probe there that is always answered with 200.
abbrev pub IsProbed : Bool → Bool → Container → Type 0
IsProbed ready reported c = elim c.readiness_probe [
  | none ↦ ⊥
  | some r ↦ elim c.liveness_probe [
    | none ↦ ⊥
    | some l ↦
        (r.port ≡ health_port)
        × (serve ready r.path ≡ some (if reported then (200, "ready") else (503, "not ready")))
        × (l.port ≡ health_port)
        × (serve ready l.path ≡ some (200, "ok"))
  ]
]

module _ (mv : ModelValidation) (vm : List VolumeMount) (tc : Option TelemetryConfig)
    (args : List String) where
  legacy-IsProbed :
      (ready : Bool) → IsProbed ready ready (build_legacy_sidecar_container mv args vm)
  unfolding build_legacy_sidecar_container serve string_eq
  legacy-IsProbed ready = ground arith

  native-IsProbed :
      (ready : Bool)
      → continuous_enabled mv ≡ true
      → IsProbed ready ready (build_validation_container mv args vm tc true)
  unfolding build_validation_container serve string_eq
  native-IsProbed ready h = ground arith
