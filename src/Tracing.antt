-- ===== src/Tracing.antt =====
-- pkg/tracing: the options of the tracing of a program, and its set-up.
pub mod Setup
use model_validation_operato.Base.{
  String, Bool, true, false, Option, none, some, List, [], ◌∷◌, ◌++◌, ◌==◌, string_eq,
  if◌then◌else◌,
}

-- `Sampler` is the SDK's type of samplers.
pub record Options (Sampler : Type 0) : Type 0 where
  pub service_name : String
  pub service_version : String
  pub endpoint : String
  pub insecure : Bool
  pub use_stdout : Bool
  pub sampler : Option Sampler

-- The options of otlptracegrpc.
pub data GrpcOption : Type 0 where
  with_grpc_endpoint : String → GrpcOption
  with_grpc_insecure : GrpcOption

pub data Exporter : Type 0 where
  stdout_exporter : Exporter
  grpc_exporter : List GrpcOption → Exporter

-- The attributes of a resource.
pub data Attribute : Type 0 where
  service_name_attribute service_version_attribute : String → Attribute

pub data SetupError : Type 0 where
  building_resource creating_exporter : String → SetupError

module _ {Sampler : Type 0} where
  abbrev pub default_options : Options Sampler
  default_options = record {
    service_name = "unknown-service";
    service_version = "";
    endpoint = "";
    insecure = true;
    use_stdout = false;
    sampler = none;
  }

  abbrev pub with_service_name : String → Options Sampler → Options Sampler
  with_service_name name o = record o { service_name = name }

  abbrev pub with_service_version : String → Options Sampler → Options Sampler
  with_service_version version o = record o { service_version = version }

  abbrev pub with_endpoint : String → Options Sampler → Options Sampler
  with_endpoint endpoint o = record o { endpoint = endpoint }

  abbrev pub with_insecure : Bool → Options Sampler → Options Sampler
  with_insecure insecure o = record o { insecure = insecure }

  abbrev pub with_stdout_exporter : Options Sampler → Options Sampler
  with_stdout_exporter o = record o { use_stdout = true }

  abbrev pub with_sampler : Sampler → Options Sampler → Options Sampler
  with_sampler s o = record o { sampler = some s }

  -- The loop over the options.
  unfoldable pub apply_options :
      List (Options Sampler → Options Sampler) → Options Sampler → Options Sampler
  apply_options [] cfg = cfg
  apply_options (o ∷ opts) cfg = apply_options opts (o cfg)

  unfoldable pub resource_attributes : Options Sampler → List Attribute
  resource_attributes cfg =
      (service_name_attribute cfg.service_name ∷ [])
      ++ (if cfg.service_version == ""
          then []
          else service_version_attribute cfg.service_version ∷ [])

  unfoldable pub exporter : Options Sampler → Exporter
  exporter cfg =
      if cfg.use_stdout
      then stdout_exporter
      else grpc_exporter (
          (if cfg.endpoint == "" then [] else with_grpc_endpoint cfg.endpoint ∷ [])
          ++ (if cfg.insecure then with_grpc_insecure ∷ [] else []))

-- The tracer provider that is made global.
pub record Provider (Sampler : Type 0) : Type 0 where
  pub exporter : Exporter
  pub attributes : List Attribute
  pub sampler : Option Sampler

-- The errors that the SDK gives for a resource and for an exporter.
pub record Sdk : Type 0 where
  pub resource_error : List Attribute → Option String
  pub exporter_error : Exporter → Option String

pub data SetUp (Sampler : Type 0) : Type 0 where
  failed : SetupError → SetUp Sampler
  provided : Provider Sampler → SetUp Sampler

module _ {Sampler : Type 0} where
  unfoldable pub setup_tracing : Sdk → List (Options Sampler → Options Sampler) → SetUp Sampler
  unfolding apply_options resource_attributes exporter
  setup_tracing sdk opts =
      let cfg = apply_options opts default_options in
      elim (sdk.resource_error (resource_attributes cfg)) [
        | some e ↦ failed (building_resource e)
        | none ↦ elim (sdk.exporter_error (exporter cfg)) [
          | some e ↦ failed (creating_exporter e)
          | none ↦ provided (record {
            exporter = exporter cfg;
            attributes = resource_attributes cfg;
            sampler = cfg.sampler;
          })
        ]
      ]
