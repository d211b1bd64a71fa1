-- ===== src/Webhook/Args/RoundTrip.antt =====
-- internal/webhooks/pod_webhook.go against internal/validation/parse.go: the agent reads back what
-- the webhook wrote.
use model_validation_operato.Base.{
  ◌≡◌, ◌≢◌, refl, ◌∙◌, String, ◌<>◌, Option, none, some, List, [], ◌∷◌, ◌++◌, arith, string_eq,
  nat_eq, ap,
}
use model_validation_operato.Base.Text.{strip_prefix}
use model_validation_operato.Api.{
  Model, ValidationConfig, SigstoreConfig, PublicKeyConfig, PkiConfig,
}
use model_validation_operato.Validation.Parse.{
  Config, Result, ok, err, kind, ArgKind, ValueFlag, parse_loop, parse_args, set_value,
  empty_config, too_few_arguments, check_path, public_key, certificate_chain,
}
use model_validation_operato.Validation.Parse.Flags.{kind_signature}
use model_validation_operato.Webhook.Args.{
  method_args, option_args, validation_config_to_args, agent_args,
}
use model_validation_operato.Webhook.Args.Options.{with_options, NoOptions, parse_loop-option_args}

-- What the agent should know of the method, whose flags come first.
abbrev pub method_config :
    Option SigstoreConfig → Option PublicKeyConfig → Option PkiConfig → Model → Option Config
method_config (some c) _ _ model = some (record (empty_config "sigstore") {
  signature_path = model.signature_path;
  identity = c.certificate_identity;
  identity_provider = c.certificate_oidc_issuer;
})
method_config none (some c) _ model = some (record (empty_config "key") {
  signature_path = model.signature_path;
  public_key_path = c.key_path;
})
method_config none none (some c) model = some (record (empty_config "certificate") {
  signature_path = model.signature_path;
  certificate_chain_path = c.certificate_authority;
})
method_config none none none model = none

abbrev pub meant : ValidationConfig → Model → Option Config → Result Config
meant cfg model none = err too_few_arguments
meant cfg model (some c) = ok (with_options cfg model c)

-- What the agent should make of the whole line.
abbrev pub agent_config : ValidationConfig → Model → Result Config
agent_config cfg model =
    meant cfg model (method_config cfg.sigstore_config cfg.public_key_config cfg.pki_config model)

parse_loop-signature :
    (path : String) (rest : List String) (c : Config)
    → parse_loop (("--signature=" <> path) ∷ rest) none c
      ≡ parse_loop rest none (record c { signature_path = path })
unfolding parse_loop
parse_loop-signature path rest c = rw (kind_signature path, parse_loop)

module _ (cfg : ValidationConfig) (model : Model) (no_dash : strip_prefix "-" model.path ≡ none)
    (not_empty : model.path ≢ "") where
  abbrev line : Option (List String) → List String
  line none = "verify" ∷ ([] ++ (model.path ∷ []))
  line (some args) = "verify" ∷ ((args ++ option_args cfg model) ++ (model.path ∷ []))

  abbrev options : List String
  options = option_args cfg model ++ (model.path ∷ [])

  sigstore_line :
      (s : SigstoreConfig) (c : Config)
      → parse_loop
          (("--signature=" <> model.signature_path)
            ∷ "--identity"
            ∷ s.certificate_identity
            ∷ "--identity_provider"
            ∷ s.certificate_oidc_issuer
            ∷ options)
          none
          c
        ≡ parse_loop options none (record c {
          signature_path = model.signature_path;
          identity = s.certificate_identity;
          identity_provider = s.certificate_oidc_issuer;
        })
  unfolding parse_loop kind string_eq set_value strip_prefix nat_eq
  sigstore_line s c =
      parse_loop-signature model.signature_path
        ("--identity" ∷ s.certificate_identity ∷ "--identity_provider" ∷ s.certificate_oidc_issuer
          ∷ options)
        c

  value_line :
      (f : String) (v : ValueFlag) (x : String) (c : Config)
      → kind f ≡ ArgKind.value_flag v
      → parse_loop (("--signature=" <> model.signature_path) ∷ f ∷ x ∷ options) none c
        ≡ parse_loop options none
            (set_value v x (record c { signature_path = model.signature_path }))
  unfolding parse_loop
  value_line f v x c e =
      parse_loop-signature model.signature_path (f ∷ x ∷ options) c ∙ rw (e, parse_loop)

  read :
      (args : List String) (c d : Config)
      → parse_loop args none c ≡ parse_loop options none d
      → NoOptions d
      → check_path (parse_loop args none c) ≡ ok (with_options cfg model d)
  read args c d e n = rw (e, parse_loop-option_args cfg model d n no_dash) (ground arith)

  parse_args-line :
      (s : Option SigstoreConfig) (k : Option PublicKeyConfig) (p : Option PkiConfig)
      → parse_args (line (method_args s k p model)) ≡ meant cfg model (method_config s k p model)
  unfolding parse_args method_args string_eq set_value kind strip_prefix nat_eq
  parse_args-line (some s) k p =
      read _ _ _ (sigstore_line s _)
        (record { trust = refl; paths = refl; git = refl; unsigned = refl; symlinks = refl })
  parse_args-line none (some k) p =
      read _ _ _ (value_line "--public_key" public_key k.key_path (empty_config "key") refl)
        (record { trust = refl; paths = refl; git = refl; unsigned = refl; symlinks = refl })
  parse_args-line none none (some p) =
      read _ _ _
        (value_line "--certificate_chain" certificate_chain p.certificate_authority
          (empty_config "certificate") refl)
        (record { trust = refl; paths = refl; git = refl; unsigned = refl; symlinks = refl })
  parse_args-line none none none = refl

  agent_args-line :
      (o : Option (List String))
      → ◌≡◌ {A = List String}
          ("verify"
            ∷ ((elim o [ some args ↦ args ++ option_args cfg model | none ↦ [] ])
                ++ (model.path ∷ [])))
          (line o)
  agent_args-line none = refl
  agent_args-line (some args) = refl

  -- The agent reads from the line that the webhook makes of a configuration and a model just what
  -- these two say, for every method and whatever the texts in them look like, if the model's path
  -- is not empty and does not begin with a dash; with no method it reports too few arguments.
  pub parse_args-agent_args : parse_args (agent_args cfg model) ≡ agent_config cfg model
  unfolding agent_args validation_config_to_args
  parse_args-agent_args =
      ap parse_args (
        agent_args-line
          (method_args cfg.sigstore_config cfg.public_key_config cfg.pki_config model))
      ∙ parse_args-line cfg.sigstore_config cfg.public_key_config cfg.pki_config
