-- ===== src/Tracker/State/Belief.antt =====
-- internal/tracker/status_tracker.go, what the tracker promises for a run: what is to be known after
-- each event, from the events alone. Beside the resources it has the UID that was last filed under a
-- name, by which a pod is meant that is reported gone by its name.
use model_validation_operato.Base.{
  ◌≡◌, ◌≢◌, refl, sym, subst, inl, inr, Bool-cases, String, Bool, true, false, ◌&&◌, Option, none,
  some, List, [], ◌∷◌, any, arith, NamespacedName, key_eq, string_eq, nat_eq, ◌==◌, if◌then◌else◌,
  ℕ,
}
use model_validation_operato.Constants.{model_validation_label}
use model_validation_operato.Kube.{Pod, Finalizers}
use model_validation_operato.Tracker.Info.{PodInfo}
use model_validation_operato.Tracker.Info.View.{View}
use model_validation_operato.Tracker.Info.Drift.{reclassify}
use model_validation_operato.Tracker.State.{pod_info_of, pod_key, text_at}
use model_validation_operato.Tracker.State.Names.{has_name}
use model_validation_operato.Tracker.State.Views.{named_by}
use model_validation_operato.Tracker.State.Spec.{
  at_key, Entry, Known, nothing, tracks, files, untracks, forgets, learn, on_some, file, forget,
  track,
}
use model_validation_operato.Tracker.State.Refines.{finalized, tracks_mv}
use model_validation_operato.Tracker.State.Runs.{
  TrackerEvent, mv_added, mv_removed, pod_seen, pod_seeded, pod_deleted, pod_gone,
}

-- The resources and their pods, the UID of a name, and the UIDs that were ever filed.
pub record Belief : Type 0 where
  pub known : Known
  pub uid_of : NamespacedName → Option String
  pub filed : List String

abbrev pub no_belief : Belief
no_belief = record { known = nothing; uid_of = λ _. none; filed = [] }

abbrev pub is_known : NamespacedName → Known → Bool
is_known key known = elim (known key) [ none ↦ false | some _ ↦ true ]

-- The pod of a UID under a resource.
abbrev pub pods_of : Option Entry → String → View
pods_of none u = none
pods_of (some e) u = e.pods u

abbrev pub held : NamespacedName → String → Known → View
held key u known = pods_of (known key) u

-- Has a pod under the resource the name?
abbrev pub is_named_under : NamespacedName → NamespacedName → Belief → Bool
is_named_under key n b = any (λ u. has_name n (held key u b.known)) b.filed

module _ (digest : String → String) (F : Finalizers) where
  -- A pod under a resource, for which its name stands from then on, if the resource is known.
  abbrev pub filed_under : NamespacedName → Pod → Belief → Belief
  filed_under key pod b = record {
    known = learn (files key (finalized F pod) (pod_info_of pod)) b.known;
    uid_of = λ n.
        if is_known key b.known && n == pod_key (pod_info_of pod) then some pod.uid else b.uid_of n;
    filed = pod.uid ∷ b.filed;
  }

  -- The pod of a name is gone, and with it the meaning of the name.
  abbrev pub gone_by : NamespacedName → Option String → Belief → Belief
  gone_by name none b = b
  gone_by name (some uid) b = record b {
    known = learn (forgets uid) b.known;
    uid_of = λ n. if n == name then none else b.uid_of n;
  }

  -- What an event says. A pod counts under the resource that its label names, in its own namespace,
  -- or under the resource for which it was listed; a pod without a label says nothing; and with a
  -- resource go the names of its pods.
  abbrev pub tell : TrackerEvent → Belief → Belief
  tell (mv_added mv) b = record b { known = learn (tracks_mv digest mv) b.known }
  tell (mv_removed key) b = record b {
    known = learn (untracks key) b.known;
    uid_of = λ n. if is_named_under key n b then none else b.uid_of n;
  }
  tell (pod_seen pod) b =
      if text_at model_validation_label pod.labels == ""
      then b
      else filed_under (named_by pod) pod b
  tell (pod_seeded pod key) b =
      if text_at model_validation_label pod.labels == "" then b else filed_under key pod b
  tell (pod_deleted uid) b = record b { known = learn (forgets uid) b.known }
  tell (pod_gone name) b = gone_by name (b.uid_of name) b

  abbrev pub tell_all : List TrackerEvent → Belief → Belief
  tell_all [] b = b
  tell_all (e ∷ es) b = tell_all es (tell e b)

-- Every pod that is held has a UID that was filed.
abbrev pub IsFiledIn : Belief → Type 0
IsFiledIn b =
    (key : NamespacedName) (u : String)
    → held key u b.known ≢ none
    → any (λ v. u == v) b.filed ≡ true

reclassify-none : (h a : String) (v : View) → v ≡ none → reclassify h a v ≡ none
reclassify-none h a v e = ground (arith, e)

track_held :
    (h a : String) (g : ℕ) (o : Option Entry) (u : String)
    → pods_of (some (track h a g o)) u ≢ none
    → pods_of o u ≢ none
track_held h a g none u n z = n z
track_held h a g (some e) u n z = ground (arith, n, z, reclassify-none h a (e.pods u) z)

-- An entry that is changed at a key only.
held-at_key :
    (j key : NamespacedName) (o : Option Entry) (known : Known) (u : String)
    → (pods_of o u ≢ none → pods_of (known key) u ≢ none)
    → pods_of (at_key key o known j) u ≢ none
    → held j u known ≢ none
held-at_key j key o known u keep n = elim (Bool-cases (j == key)) [
  | inl e ↦
      let same : j ≡ key = ground (arith, e) in
      subst (λ k. held k u known ≢ none) (sym same)
        (keep (subst (λ b. pods_of (if b then o else known j) u ≢ none) e n))
  | inr e ↦ subst (λ b. pods_of (if b then o else known j) u ≢ none) e n
]

pub held-tracks :
    (j key : NamespacedName) (h a : String) (g : ℕ) (known : Known) (u : String)
    → held j u (learn (tracks key h a g) known) ≢ none
    → held j u known ≢ none
held-tracks j key h a g known u n =
    held-at_key j key (some (track h a g (known key))) known u (track_held h a g (known key) u) n

pub held-untracks :
    (j key : NamespacedName) (known : Known) (u : String)
    → held j u (learn (untracks key) known) ≢ none
    → held j u known ≢ none
held-untracks j key known u n = held-at_key j key none known u (λ z. absurd (z refl)) n

forget_held :
    (uid : String) (o : Option Entry) (u : String)
    → pods_of (on_some (forget uid) o) u ≢ none
    → pods_of o u ≢ none
forget_held uid none u n z = n z
forget_held uid (some e) u n z = ground (arith, n, z)

pub held-forgets :
    (j : NamespacedName) (uid : String) (known : Known) (u : String)
    → held j u (learn (forgets uid) known) ≢ none
    → held j u known ≢ none
held-forgets j uid known u n z = forget_held uid (known j) u n z

file_held :
    (s : Bool) (p : PodInfo) (o : Option Entry) (u : String)
    → pods_of (on_some (file s p) o) u ≢ none
    → (u == p.uid) ≡ false
    → pods_of o u ≢ none
file_held s p none u n d z = n z
file_held s p (some e) u n d z = ground (arith, n, z, d)

pub held-files :
    (j key : NamespacedName) (s : Bool) (p : PodInfo) (known : Known) (u : String)
    → held j u (learn (files key s p) known) ≢ none
    → (u == p.uid) ≡ false
    → held j u known ≢ none
held-files j key s p known u n d =
    held-at_key j key (on_some (file s p) (known key)) known u
      (λ z. file_held s p (known key) u z d) n
