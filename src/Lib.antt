-- ===== src/Lib.antt =====
-- The model validation operator: a Kubernetes operator that puts a container which validates the
-- signature of a model into the pods that ask for it, and reports on these pods.
--
-- How the parts interact. The admission webhook reads the label of a new pod, looks up the
-- ModelValidation that it names, and extends the pod by an agent container whose arguments come
-- from that resource and from the pod's annotations; it marks the pod by a finalizer and by
-- annotations. The agent parses its arguments and runs the verifier that they name, once or
-- periodically. The controllers see the events of pods and resources and hand them to the status
-- tracker, which files every pod as injected, uninjected or orphaned and writes the counts to the
-- status of the resource. Between the tracker and these writes stands a queue that collects the
-- changes of a resource for a while. The entry point makes all of this from the flags, and
-- installs a network policy and, where it is asked for, a Prometheus ServiceMonitor for the
-- operator itself.
--
-- Where each part is modelled:
--   Base         equality, conditionals, maps as association lists, sort.Slice, texts
--   Constants    internal/constants
--   Kube         the objects and answers of the API server; controllerutil's finalizers
--   Api          api/v1alpha1: the resources; Method: GetAuthMethod; Hash: GetConfigHash
--   Metrics      internal/metrics/metrics.go: the recorded events; Vectors: its vectors with their
--                labels, and the calls that the events stand for; Otel is otel.go
--   Tracker      internal/tracker: Info is model_validation_info.go, Mapping is pod_mapping.go,
--                State and Status are status_tracker.go (State: its fields, and the operations by
--                which events change them; Status: doUpdateStatus and processNextUpdate);
--                Queue is debounced_queue.go; Service is the tracker with its queue and worker.
--                State/Seeding and State/Races are about seedExistingPods, Status/Stored and
--                Status/Written about the status that a resource has after an update
--   Validation   internal/validation: Parse is parse.go, Verify and Log are validate.go
--   Webhook      internal/webhooks: Args, Annotations, Mounts, Container and Handle are the parts
--                of pod_webhook.go, Telemetry is telemetry.go, Version is version.go
--   Tracing      pkg/tracing
--   Agent        cmd/validation-agent/main.go: Health is its health server, Traces its tracing
--   Controller   internal/controller: Pods, Resources and Telemetry are the three reconcilers,
--                Network is networkpolicy.go
--   ServiceMonitor  internal/servicemonitor
--   Operator     cmd/main.go; Environment: internal/utils
--   Tests        the properties at concrete inputs
--
-- How the code is rendered. A struct is a record and a method a function of the same name in snake
-- case that takes the state and gives the new one. A Go map is an association list; the order of
-- its iteration is the order of the list, Tracker/Status/AnyOrder compares two orders of one map,
-- and Tracker/Status/Unordered takes all of them together as a quotient. What the tracker
-- promises is Tracker/State/Spec for the resources and Tracker/State/Belief for the events, which
-- it reads alone; the operations are measured against the one in Tracker/State/Refines, and the
-- runs against the other in Tracker/State/Believed. A pointer is an Option, an error
-- an Option or a sum. Each operation of the tracker holds its lock from its first read to its last
-- write, so that it is one step; Tracker/State/Reach runs the steps in any order, and
-- Tracker/Service/Reach runs them with those of the queue, of the worker and of Stop. A status
-- update reads the resource from the API server before it takes the lock, and the answer is an
-- argument of its step. In Tracker/Queue the timers of the queue and the goroutines of their
-- callbacks are part of the state, and each statement of a callback is a step, since other
-- goroutines run between them. Stop is in two parts, before and behind its wait for the worker.
-- The start of the operator is a plan of actions, run up to
-- the first that fails. What the tracker asks of its queue and records as metrics is kept as a
-- sequence. Counts that the code converts to int32 are reduced modulo 2 ^ 32. Loops are structural
-- recursion, on the list of arguments in ParseArgs and on the list of events in the agent, so that
-- these have no fuel.
--
-- Parameters stand for code of other modules: `digest` for SHA-256 in hexadecimal, `Finalizers`
-- for controllerutil with its documented laws, `Verifiers` for the model-signing library, `Logr`
-- for a logger of logr, `Matcher` for the label selectors of Kubernetes, and in `Environment` the
-- API server, the clock and json.Marshal. What the discovery client says is an argument of the
-- version check, with the two library calls of strconv written out.
--
-- The work queue of client-go is a record of what it answers, controllerutil.CreateOrUpdate a
-- function with its documented laws, and so is the network plugin that enforces a policy. Which
-- actions of the start fail is a parameter of its run.
--
-- Not modelled: the life of the agent's HTTP server, the values of the duration histogram, what
-- the code writes to its log, the durations and rates of the queue's configuration, generated code
-- (the deep copies of the resources), and the code that only tests use.
pub mod Base
pub mod Constants
pub mod Kube
pub mod Api
pub mod Metrics
pub mod Tracker
pub mod Validation
pub mod Webhook
pub mod Tracing
pub mod Agent
pub mod Controller
pub mod ServiceMonitor
pub mod Operator
pub mod Tests
