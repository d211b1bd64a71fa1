-- ===== src/Metrics/Vectors.antt =====
-- internal/metrics/metrics.go: the vectors of Prometheus, with their labels, and the call that each
-- recording makes. A call with another number of labels than its vector has panics.
use model_validation_operato.Base.{
  ◌≡◌, refl, ℕ, String, List, [], ◌∷◌, length, All, Among, here, there,
}
use model_validation_operato.Metrics.{
  PodState, untracked, injected, uninjected, orphaned, UpdateResult, success, failure, DriftType,
  Event,
}
use model_validation_operato.Metrics

pub data Vector : Type 0 where
  model_validation_pod_counts pod_state_transitions_total status_updates_total : Vector
  configuration_drift_events_total model_validation_crs_total status_update_duration : Vector
  queue_size_gauge retry_attempts_total : Vector

unfoldable pub labels_of : Vector → List String
labels_of model_validation_pod_counts = "namespace" ∷ "model_validation" ∷ "pod_state" ∷ []
labels_of pod_state_transitions_total =
    "namespace" ∷ "model_validation" ∷ "from_state" ∷ "to_state" ∷ []
labels_of status_updates_total = "namespace" ∷ "model_validation" ∷ "result" ∷ []
labels_of configuration_drift_events_total = "namespace" ∷ "model_validation" ∷ "drift_type" ∷ []
labels_of model_validation_crs_total = "namespace" ∷ []
labels_of status_update_duration = "namespace" ∷ "model_validation" ∷ "result" ∷ []
labels_of queue_size_gauge = []
labels_of retry_attempts_total = "namespace" ∷ "model_validation" ∷ []

-- The vectors that init registers.
unfoldable pub registered : List Vector
registered =
    model_validation_pod_counts ∷ pod_state_transitions_total ∷ status_updates_total
    ∷ configuration_drift_events_total ∷ model_validation_crs_total ∷ status_update_duration
    ∷ queue_size_gauge ∷ retry_attempts_total ∷ []

-- Set, Inc or Add, and Observe. The observed durations are left out.
pub data Change : Type 0 where
  set_to added : ℕ → Change
  observed : Change

-- `WithLabelValues` with the call on its result.
pub record Sample : Type 0 where
  pub vector : Vector
  pub values : List String
  pub change : Change

abbrev pub state_text : PodState → String
state_text untracked = ""
state_text injected = "injected"
state_text uninjected = "uninjected"
state_text orphaned = "orphaned"

abbrev pub result_text : UpdateResult → String
result_text success = "success"
result_text failure = "failure"

abbrev pub drift_text : DriftType → String
drift_text Metrics.config_hash = "config_hash"
drift_text Metrics.auth_method = "auth_method"

abbrev sample : Vector → List String → Change → Sample
sample v values c = record { vector = v; values = values; change = c }

unfoldable pub record_pod_count : String → String → PodState → ℕ → Sample
record_pod_count ns mv s n =
    sample model_validation_pod_counts (ns ∷ mv ∷ state_text s ∷ []) (set_to n)

unfoldable pub record_transitions : String → String → PodState → PodState → ℕ → Sample
record_transitions ns mv from to n =
    sample pod_state_transitions_total (ns ∷ mv ∷ state_text from ∷ state_text to ∷ []) (added n)

unfoldable pub record_status_update : String → String → UpdateResult → Sample
record_status_update ns mv r = sample status_updates_total (ns ∷ mv ∷ result_text r ∷ []) (added 1)

unfoldable pub record_status_update_duration : String → String → UpdateResult → Sample
record_status_update_duration ns mv r =
    sample status_update_duration (ns ∷ mv ∷ result_text r ∷ []) observed

unfoldable pub record_configuration_drift : String → String → DriftType → Sample
record_configuration_drift ns mv d =
    sample configuration_drift_events_total (ns ∷ mv ∷ drift_text d ∷ []) (added 1)

unfoldable pub record_model_validation_cr : String → ℕ → Sample
record_model_validation_cr ns n = sample model_validation_crs_total (ns ∷ []) (set_to n)

unfoldable pub set_queue_size : ℕ → Sample
set_queue_size n = sample queue_size_gauge [] (set_to n)

unfoldable pub record_retry_attempt : String → String → Sample
record_retry_attempt ns mv = sample retry_attempts_total (ns ∷ mv ∷ []) (added 1)

-- The calls that an event of the model stands for. A status update is recorded with its duration.
unfoldable pub samples : Event → List Sample
unfolding record_pod_count record_transitions record_status_update record_status_update_duration
    record_configuration_drift record_model_validation_cr set_queue_size record_retry_attempt
samples (Metrics.pod_count ns mv s n) = record_pod_count ns mv s n ∷ []
samples (Metrics.pod_state_transitions ns mv from to n) = record_transitions ns mv from to n ∷ []
samples (Metrics.status_update ns mv r) =
    record_status_update ns mv r ∷ record_status_update_duration ns mv r ∷ []
samples (Metrics.configuration_drift ns mv d) = record_configuration_drift ns mv d ∷ []
samples (Metrics.model_validation_crs ns n) = record_model_validation_cr ns n ∷ []
samples (Metrics.queue_size n) = set_queue_size n ∷ []
samples (Metrics.retry_attempt ns mv) = record_retry_attempt ns mv ∷ []

-- The vector has been registered, and has a label for each value.
abbrev pub IsAccepted : Sample → Type 0
IsAccepted s = Among s.vector registered × (length s.values ≡ length (labels_of s.vector))

vector-registered : (v : Vector) → Among v registered
unfolding registered
vector-registered model_validation_pod_counts = here _
vector-registered pod_state_transitions_total = there _ _ (here _)
vector-registered status_updates_total = there _ _ (there _ _ (here _))
vector-registered configuration_drift_events_total = there _ _ (there _ _ (there _ _ (here _)))
vector-registered model_validation_crs_total =
    there _ _ (there _ _ (there _ _ (there _ _ (here _))))
vector-registered status_update_duration =
    there _ _ (there _ _ (there _ _ (there _ _ (there _ _ (here _)))))
vector-registered queue_size_gauge =
    there _ _ (there _ _ (there _ _ (there _ _ (there _ _ (there _ _ (here _))))))
vector-registered retry_attempts_total =
    there _ _ (there _ _ (there _ _ (there _ _ (there _ _ (there _ _ (there _ _ (here _)))))))

-- No recording panics: whatever the tracker and the queue record goes to a registered vector, with
-- as many values as the vector has labels.
pub samples-IsAccepted : (e : Event) → All IsAccepted (samples e)
unfolding samples labels_of
samples-IsAccepted (Metrics.pod_count ns mv s n) = ((vector-registered _, refl), tt)
samples-IsAccepted (Metrics.pod_state_transitions ns mv from to n) =
    ((vector-registered _, refl), tt)
samples-IsAccepted (Metrics.status_update ns mv r) =
    ((vector-registered _, refl), ((vector-registered _, refl), tt))
samples-IsAccepted (Metrics.configuration_drift ns mv d) = ((vector-registered _, refl), tt)
samples-IsAccepted (Metrics.model_validation_crs ns n) = ((vector-registered _, refl), tt)
samples-IsAccepted (Metrics.queue_size n) = ((vector-registered _, refl), tt)
samples-IsAccepted (Metrics.retry_attempt ns mv) = ((vector-registered _, refl), tt)
