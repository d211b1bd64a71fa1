-- ===== src/Tracker/State/Spec.antt =====
-- internal/tracker/status_tracker.go, what the tracker promises: for each tracked resource its
-- configuration, and for each UID the state and the record of the pod with this UID. Maps, lists
-- and their orders are forgotten; a state is a function of the keys.
use model_validation_operato.Base.{
  ℕ, String, Bool, Option, none, some, NamespacedName, key_eq, string_eq, nat_eq, ◌==◌,
  if◌then◌else◌,
}
use model_validation_operato.Metrics.{PodState, untracked, injected, uninjected, orphaned}
use model_validation_operato.Tracker.Info.{PodInfo, is_drifted}
use model_validation_operato.Tracker.Info.View.{View, view_state}
use model_validation_operato.Tracker.Info.Drift.{reclassify}

pub record Entry : Type 0 where
  pub config_hash : String
  pub auth_method : String
  pub generation : ℕ
  pub pods : String → View

abbrev pub Known : Type 0
Known = NamespacedName → Option Entry

-- Nothing is tracked.
abbrev pub nothing : Known
nothing _ = none

-- A resource of this configuration; a pod under a resource, with or without the finalizer; the
-- removal of a resource, and of a pod; and an event that says nothing.
pub data Notice : Type 0 where
  tracks : NamespacedName → String → String → ℕ → Notice
  files : NamespacedName → Bool → PodInfo → Notice
  untracks : NamespacedName → Notice
  forgets : String → Notice
  idle : Notice

abbrev pub on_some {ℓ} : {A : Type ℓ} → (A → A) → Option A → Option A
on_some f none = none
on_some f (some a) = some (f a)

-- The state of a pod under an entry, by its finalizer and its annotations.
abbrev pub state_of : Bool → PodInfo → Entry → PodState
state_of finalized p e =
    if finalized
    then (if is_drifted e.config_hash e.auth_method p then orphaned else injected)
    else uninjected

abbrev pub file : Bool → PodInfo → Entry → Entry
file finalized p e = record e {
  pods = λ u. if u == p.uid then some (state_of finalized p e, p) else e.pods u;
}

abbrev pub forget : String → Entry → Entry
forget uid e = record e { pods = λ u. if u == uid then none else e.pods u }

-- The injected pods are checked against another configuration.
abbrev pub renew : String → String → ℕ → Entry → Entry
renew h a g e = record {
  config_hash = h;
  auth_method = a;
  generation = g;
  pods = λ u. reclassify h a (e.pods u);
}

-- A new resource has no pods, and a generation that was seen changes nothing.
abbrev pub track : String → String → ℕ → Option Entry → Entry
track h a g none = record { config_hash = h; auth_method = a; generation = g; pods = λ _. none }
track h a g (some e) = if g == e.generation then e else renew h a g e

abbrev pub at_key : NamespacedName → Option Entry → Known → Known
at_key key o known j = if j == key then o else known j

abbrev pub learn : Notice → Known → Known
learn (tracks key h a g) known = at_key key (some (track h a g (known key))) known
learn (files key finalized p) known = at_key key (on_some (file finalized p) (known key)) known
learn (untracks key) known = at_key key none known
learn (forgets uid) known = λ j. on_some (forget uid) (known j)
learn idle known = known

-- The state of a UID under a resource.
abbrev pub state_in : NamespacedName → String → Known → PodState
state_in key u known = elim (known key) [ none ↦ untracked | some e ↦ view_state (e.pods u) ]
