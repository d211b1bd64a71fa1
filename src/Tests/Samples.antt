-- ===== src/Tests/Samples.antt =====
-- The objects that the examples share.
use model_validation_operato.Base.{
  ◌≡◌, ◌≢◌, String, Bool, true, false, none, some, List, [], ◌∷◌, any, arith, ◌==◌, string_eq,
  if◌then◌else◌, NamespacedName,
}
use model_validation_operato.Constants.{
  model_validation_label, model_validation_finalizer, config_hash_annotation_key,
}
use model_validation_operato.Api.{Model, ValidationConfig, ModelValidation, ModelValidationStatus}
use model_validation_operato.Kube.{Pod, Container, Namespace, Finalizers, IsLawful}

abbrev remove_text : String → List String → List String
remove_text f [] = []
remove_text f (g ∷ gs) = let rest = remove_text f gs in if f == g then rest else g ∷ rest

abbrev has_text : String → List String → Bool
has_text f = any (λ g. f == g)

-- Finalizers as a list without repetition.
abbrev pub listed : Finalizers
listed = record {
  contains = has_text;
  add = λ f fs. if has_text f fs then fs else f ∷ fs;
  remove = remove_text;
}

has-remove :
    (g f : String) (fs : List String)
    → has_text g (remove_text f fs) ≡ (if g == f then false else has_text g fs)
has-remove g f [] = ground arith
has-remove g f (h ∷ fs) = ground (arith, has-remove g f fs)

pub listed-IsLawful : IsLawful listed
listed-IsLawful = record {
  contains-add = λ f fs. ground arith;
  contains-add_ne = λ f g fs differ. ground arith;
  contains-remove = λ f fs. ground (arith, has-remove f f fs);
  contains-remove_ne = λ f g fs differ. ground (arith, has-remove g f fs);
}

abbrev pub same_text : String → String
same_text t = t

abbrev pub no_status : ModelValidationStatus
no_status = record {
  conditions = [];
  injected_pod_count = 0;
  uninjected_pod_count = 0;
  orphaned_pod_count = 0;
  auth_method = "";
  injected_pods = [];
  uninjected_pods = [];
  orphaned_pods = [];
  last_updated = 0;
}

abbrev pub model : Model
model = record {
  path = "/data/model";
  signature_path = "/data/model.sig";
  ignore_paths = "/data/tmp" ∷ [];
  ignore_git_paths = some true;
  ignore_unsigned_files = none;
  allow_symlinks = some true;
}

abbrev pub config : ValidationConfig
config = record {
  sigstore_config = none;
  pki_config = none;
  public_key_config = some (record { key_path = "/keys/pub.pem" });
  client_trust_config = none;
}

abbrev pub mv : ModelValidation
mv = record {
  name = "demo";
  namespace = "default";
  labels = [];
  generation = 1;
  deletion_timestamp = none;
  spec = record {
    model = model;
    config = config;
    image_pull_policy = "";
    continuous_validation = none;
    resources = none;
  };
  status = no_status;
}

abbrev pub key : NamespacedName
key = record { namespace = "default"; name = "demo" }

abbrev pub app : Container
app = record {
  name = "app";
  image = "app:1";
  image_pull_policy = "";
  command = [];
  args = [];
  env = [];
  volume_mounts = record { name = "data"; mount_path = "/data"; read_only = false } ∷ [];
  resources = record { requests = []; limits = [] };
  restart_policy = none;
  readiness_probe = none;
  liveness_probe = none;
  security_context = none;
}

abbrev pub pod : Pod
pod = record {
  name = "app-1";
  namespace = "default";
  uid = "u1";
  labels = (model_validation_label, "demo") ∷ [];
  annotations = [];
  finalizers = [];
  creation_timestamp = 7;
  deletion_timestamp = none;
  volumes = [];
  init_containers = [];
  containers = app ∷ [];
}

-- The pod with the finalizer, and with a hash that is not the resource's.
abbrev pub drifted : Pod
drifted = record pod {
  finalizers = model_validation_finalizer ∷ [];
  annotations = (config_hash_annotation_key, "old") ∷ [];
}

abbrev pub ns : Namespace
ns = record { name = "default"; labels = ("team", "ml") ∷ [] }

-- Two texts that the test tells apart are different.
pub differ : (s t : String) → (s == t) ≡ false → s ≢ t
differ s t h e = absurd (ground arith)
