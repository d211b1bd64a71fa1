-- ===== src/Tracing/Setup.antt =====
-- pkg/tracing: what a set-up of tracing gives.
use model_validation_operato.Base.{◌≡◌, ◌∙◌, sym, ap, List, arith}
use model_validation_operato.Tracing.{
  Options, default_options, apply_options, exporter, Exporter, Sdk, Provider, SetUp, failed,
  provided, setup_tracing,
}

module _ {Sampler : Type 0} (sdk : Sdk) (opts : List (Options Sampler → Options Sampler)) where
  -- The options that all of `opts` lead to.
  abbrev pub cfg : Options Sampler
  cfg = apply_options opts default_options

  exporter_of : SetUp Sampler → Exporter
  exporter_of (failed e) = exporter cfg
  exporter_of (provided p) = p.exporter

  exporter-setup_tracing : exporter_of (setup_tracing sdk opts) ≡ exporter cfg
  unfolding setup_tracing exporter_of
  exporter-setup_tracing = ground arith

  pub provided_exporter :
      (p : Provider Sampler) → setup_tracing sdk opts ≡ provided p → p.exporter ≡ exporter cfg
  unfolding exporter_of
  provided_exporter p h = sym (ap exporter_of h) ∙ exporter-setup_tracing
