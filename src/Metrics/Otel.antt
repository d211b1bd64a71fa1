-- ===== src/Metrics/Otel.antt =====
-- internal/metrics/otel.go: the OpenTelemetry instruments, and what is recorded with them.
use model_validation_operato.Base.{
  ◌≡◌, String, Bool, true, false, Option, none, some, List, [], ◌∷◌, arith,
}

-- Which of the four package variables hold an instrument.
pub record Instruments : Type 0 where
  pub webhook_mutations : Bool
  pub webhook_duration : Bool
  pub reconcile_count : Bool
  pub reconcile_duration : Bool

unfoldable pub no_instruments : Instruments
no_instruments = record {
  webhook_mutations = false;
  webhook_duration = false;
  reconcile_count = false;
  reconcile_duration = false;
}

-- What the SDK answers: an error of the exporter, and for the name of an instrument whether there is
-- one, and the error.
pub record Meter : Type 0 where
  pub exporter_error : Option String
  pub instrument : String → Bool × Option String

-- Documented: without an error there is an instrument.
pub record IsMeter (M : Meter) : Type 0 where
  pub made : (name : String) → (M.instrument name).1 ≡ none → (M.instrument name).0 ≡ true

-- The error, if there is one, and the variables then.
abbrev pub Outcome : Type 0
Outcome = Option String × Instruments

abbrev or_else : Option String → Instruments → Outcome → Outcome
or_else (some e) now rest = (some e, now)
or_else none now rest = rest

unfoldable pub setup_otel_metrics : Meter → Instruments → Outcome
setup_otel_metrics M i =
    let mutations = M.instrument "webhook.mutations" in
    let duration = M.instrument "webhook.mutation.duration" in
    let reconciles = M.instrument "reconcile.count" in
    let reconciling = M.instrument "reconcile.duration" in
    let i1 = record i { webhook_mutations = mutations.0 } in
    let i2 = record i1 { webhook_duration = duration.0 } in
    let i3 = record i2 { reconcile_count = reconciles.0 } in
    let i4 = record i3 { reconcile_duration = reconciling.0 } in
    or_else M.exporter_error i (
      or_else mutations.1 i1
        (or_else duration.1 i2 (or_else reconciles.1 i3 (or_else reconciling.1 i4 (none, i4)))))

-- A call of an instrument, with its two attributes.
pub data Measurement : Type 0 where
  add_mutation record_mutation_duration add_reconcile record_reconcile_duration :
      String → String → Measurement

-- What is recorded; none is the panic of a call on a nil instrument.
unfoldable pub record_webhook_mutation : String → String → Instruments → Option (List Measurement)
record_webhook_mutation namespace result i = elim i.webhook_mutations [
  | false ↦ some []
  | true ↦ elim i.webhook_duration [
    | false ↦ none
    | true ↦ some (add_mutation namespace result ∷ record_mutation_duration namespace result ∷ [])
  ]
]

unfoldable pub record_reconcile : String → String → Instruments → Option (List Measurement)
record_reconcile controller result i = elim i.reconcile_count [
  | false ↦ some []
  | true ↦ elim i.reconcile_duration [
    | false ↦ none
    | true ↦
        some (add_reconcile controller result ∷ record_reconcile_duration controller result ∷ [])
  ]
]

-- Behind a set-up without an error both recorders record with both of their instruments; without a
-- set-up they record nothing. Neither panics.
setup_otel_metrics_lem :
    (M : Meter) (i : Instruments) (name result : String)
    → IsMeter M
    → (setup_otel_metrics M i).0 ≡ none
    → (record_webhook_mutation name result (setup_otel_metrics M i).1
        ≡ some (add_mutation name result ∷ record_mutation_duration name result ∷ []))
      × (record_reconcile name result (setup_otel_metrics M i).1
          ≡ some (add_reconcile name result ∷ record_reconcile_duration name result ∷ []))
      × (record_webhook_mutation name result no_instruments ≡ some [])
      × (record_reconcile name result no_instruments ≡ some [])
unfolding setup_otel_metrics record_webhook_mutation record_reconcile no_instruments
setup_otel_metrics_lem M i name result made h = ground (
  arith,
  made.made "webhook.mutations",
  made.made "webhook.mutation.duration",
  made.made "reconcile.count",
  made.made "reconcile.duration",
)
