-- ===== src/Webhook/Mounts.antt =====
-- internal/webhooks/pod_webhook.go: which volume mounts of the pod the agent gets.
pub mod Laws
use model_validation_operato.Base.{
  String, ◌<>◌, Bool, true, false, not, ◌&&◌, ◌||◌, Option, none, some, List, [], ◌∷◌, ◌++◌, any,
  ◌==◌, string_eq, if◌then◌else◌,
}
use model_validation_operato.Base.Map
use model_validation_operato.Base.Map.{Map}
use model_validation_operato.Base.Text.{has_prefix, ends_with_slash}
use model_validation_operato.Kube.{VolumeMount, Container}
use model_validation_operato.Api.{
  Model, ValidationConfig, PkiConfig, PublicKeyConfig, ClientTrustConfig,
}

-- A path that may be empty.
abbrev if_set : String → List String
if_set path = if path == "" then [] else path ∷ []

ca_path : Option PkiConfig → List String
ca_path none = []
ca_path (some c) = if_set c.certificate_authority

key_path : Option PublicKeyConfig → List String
key_path none = []
key_path (some c) = if_set c.key_path

trust_path : Option ClientTrustConfig → List String
trust_path none = []
trust_path (some c) = if_set c.trust_config_path

unfoldable pub collect_needed_paths : Model → ValidationConfig → List String
unfolding ca_path key_path trust_path
collect_needed_paths model cfg =
    model.path
    ∷ (if_set model.signature_path
        ++ (ca_path cfg.pki_config
            ++ (key_path cfg.public_key_config ++ trust_path cfg.client_trust_config)))

-- Does a needed path lie at or under the mount's path?
unfoldable pub covers : String → String → Bool
covers mount_path path =
    has_prefix path (if ends_with_slash mount_path then mount_path else mount_path <> "/")
    || path == mount_path

abbrev pub mounts_of : List Container → List VolumeMount
mounts_of [] = []
mounts_of (c ∷ cs) = c.volume_mounts ++ mounts_of cs

-- The loop over the mounts, with the paths that were seen before.
unfoldable pub filter_mounts : List String → List VolumeMount → Map String Bool → List VolumeMount
filter_mounts needed [] seen = []
filter_mounts needed (m ∷ ms) seen =
    let taken =
      not (Map.has m.mount_path seen || m.mount_path == "/") && any (covers m.mount_path) needed in
    let rest = filter_mounts needed ms (if taken then Map.put m.mount_path true seen else seen) in
    if taken then record m { read_only = true } ∷ rest else rest

unfoldable pub filter_volume_mounts : List Container → List String → List VolumeMount
unfolding filter_mounts
filter_volume_mounts containers needed = filter_mounts needed (mounts_of containers) []
