-- ===== src/Validation/Verify.antt =====
-- internal/validation/validate.go: the choice of a verifier and the reading of its answer. The three
-- verifiers are those of the model-signing library: what they answer is a parameter.
use model_validation_operato.Base.{
  String, Bool, true, false, Option, none, some, List, [], ◌∷◌, ◌==◌, string_eq, if◌then◌else◌,
}
use model_validation_operato.Validation.Parse.{Config}

-- The fields that the three kinds of options share.
pub record CommonOptions : Type 0 where
  pub model_path : String
  pub signature_path : String
  pub ignore_paths : List String
  pub ignore_git_paths : Bool
  pub ignore_unsigned_files : Bool
  pub allow_symlinks : Bool

pub record SigstoreOptions : Type 0 where
  pub common : CommonOptions
  pub identity : String
  pub identity_provider : String
  pub trust_config_path : String

pub record KeyOptions : Type 0 where
  pub common : CommonOptions
  pub public_key_path : String

pub record CertificateOptions : Type 0 where
  pub common : CommonOptions
  pub certificate_chain : List String

-- What comes of making a verifier and running it.
pub data Answer : Type 0 where
  create_failed : String → Answer
  verify_failed : String → Answer
  answered : Bool → String → Answer

pub record Verifiers : Type 0 where
  pub sigstore : SigstoreOptions → Answer
  pub key : KeyOptions → Answer
  pub certificate : CertificateOptions → Answer

pub data ValidateError : Type 0 where
  failed_to_create failed_to_verify not_verified unknown_method : String → ValidateError

-- `ptr.Deref(b, false)`
abbrev pub or_false : Option Bool → Bool
or_false none = false
or_false (some b) = b

abbrev pub common_options : Config → CommonOptions
common_options cfg = record {
  model_path = cfg.model_path;
  signature_path = cfg.signature_path;
  ignore_paths = cfg.ignore_paths;
  ignore_git_paths = or_false cfg.ignore_git_paths;
  ignore_unsigned_files = or_false cfg.ignore_unsigned_files;
  allow_symlinks = or_false cfg.allow_symlinks;
}

-- The error, or none.
abbrev pub judge : Answer → Option ValidateError
judge (create_failed e) = some (failed_to_create e)
judge (verify_failed e) = some (failed_to_verify e)
judge (answered true message) = none
judge (answered false message) = some (not_verified message)

module _ (V : Verifiers) where
  unfoldable pub validate_sigstore : Config → Option ValidateError
  validate_sigstore cfg = judge (
      V.sigstore (record {
        common = common_options cfg;
        identity = cfg.identity;
        identity_provider = cfg.identity_provider;
        trust_config_path = cfg.trust_config_path;
      }))

  unfoldable pub validate_key : Config → Option ValidateError
  validate_key cfg =
      judge (V.key (record { common = common_options cfg; public_key_path = cfg.public_key_path }))

  unfoldable pub validate_certificate : Config → Option ValidateError
  validate_certificate cfg = judge (
      V.certificate (record {
        common = common_options cfg;
        certificate_chain =
            if cfg.certificate_chain_path == "" then [] else cfg.certificate_chain_path ∷ [];
      }))

  unfoldable pub validate : Config → Option ValidateError
  unfolding validate_sigstore validate_key validate_certificate
  validate cfg =
      if cfg.method == "sigstore"
      then validate_sigstore cfg
      else if cfg.method == "key"
      then validate_key cfg
      else if cfg.method == "certificate"
      then validate_certificate cfg
      else some (unknown_method cfg.method)
