-- ===== src/Webhook/Mounts/Laws.antt =====
-- internal/webhooks/pod_webhook.go: the mounts that the agent gets, exactly.
use model_validation_operato.Base.{◌≡◌, String, Bool, false, List, [], ◌∷◌, any, ◌==◌, string_eq}
use model_validation_operato.Base.Map
use model_validation_operato.Base.Map.{Map}
use model_validation_operato.Kube.{VolumeMount}

abbrev pub at_path : String → List VolumeMount → Bool
at_path x = any (λ m. x == m.mount_path)

module _ (needed : List String) where
  -- No two of the mounts have the same path.
  abbrev pub DistinctPaths : List VolumeMount → Type 0
  DistinctPaths [] = Unit
  DistinctPaths (m ∷ ms) = (at_path m.mount_path ms ≡ false) × DistinctPaths ms
