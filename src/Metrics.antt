-- ===== src/Metrics.antt =====
-- internal/metrics/metrics.go: what the operator records, as the sequence of the recorded events.
pub mod Otel
pub mod Vectors
use model_validation_operato.Base.{ℕ, String, List, [], ◌∷◌, ltb, if◌then◌else◌, Eq}

-- The values of the label `pod_state`. `untracked` is the empty text of `getPodState`.
pub data PodState : Type 0 where
  untracked injected uninjected orphaned : PodState

PodState-discrete : Discrete PodState
PodState-discrete = hlevel

instance unfoldable pub state_eq : Eq PodState
unfolding PodState-discrete
state_eq = record { dec = PodState-discrete }

-- The label `result` of a status update.
pub data UpdateResult : Type 0 where
  success failure : UpdateResult

pub data DriftType : Type 0 where
  config_hash auth_method : DriftType

-- One constructor for each vector of metrics.go, with its labels and the recorded value. The
-- durations of the histogram are left out.
pub data Event : Type 0 where
  pod_count : String → String → PodState → ℕ → Event
  pod_state_transitions : String → String → PodState → PodState → ℕ → Event
  status_update : String → String → UpdateResult → Event
  configuration_drift : String → String → DriftType → Event
  model_validation_crs : String → ℕ → Event
  queue_size : ℕ → Event
  retry_attempt : String → String → Event

unfoldable pub record_pod_state_transition : String → String → PodState → PodState → List Event
record_pod_state_transition namespace mv from to = pod_state_transitions namespace mv from to 1 ∷ []

unfoldable pub record_multiple_pod_state_transitions :
    String → String → PodState → PodState → ℕ → List Event
record_multiple_pod_state_transitions namespace mv from to count =
    if ltb 0 count then pod_state_transitions namespace mv from to count ∷ [] else []
