-- ===== src/Tracker/State/Believed.antt =====
-- internal/tracker/status_tracker.go against what the events alone say, for a run of events.
use model_validation_operato.Base.{
  ◌≡◌, ◌≢◌, ◌∙◌, refl, ap, subst, String, true, false, ◌&&◌, Option, none, some, List, [], ◌∷◌, any,
  arith, inl, inr, Bool-cases, Option-cases, NamespacedName, key_eq, string_eq, nat_eq, ◌==◌,
  if◌then◌else◌,
}
use model_validation_operato.Base.Map
use model_validation_operato.Constants.{model_validation_label}
use model_validation_operato.Kube.{Pod, Finalizers}
use model_validation_operato.Api.{ModelValidation}
use model_validation_operato.Tracker.Info.{ModelValidationInfo, get_all_pods}
use model_validation_operato.Tracker.Info.View.{IsWellFormed}
use model_validation_operato.Tracker.Mapping.{
  PodMapping, get_uid_by_name, new_pod_mapping, remove_pods_by_name,
}
use model_validation_operato.Tracker.Mapping.Laws.{
  get_uid_by_name-add_pod, get_uid_by_name-remove_pods_by_name,
}
use model_validation_operato.Tracker.State.{
  StatusTracker, new_status_tracker, add_model_validation, remove_model_validation, process_for,
  process_pod_event, process_seed_pod_event, remove_pod_event, remove_pod_by_name,
  process_pod_event_common, pod_info_of, pod_key, text_at,
}
use model_validation_operato.Tracker.State.Consistent.{IsConsistent, IsConsistent-new}
use model_validation_operato.Tracker.State.Reach.{Step-IsConsistent}
use model_validation_operato.Tracker.State.Views.{named_by}
use model_validation_operato.Tracker.State.Names.{has_name, names-get_all_pods}
use model_validation_operato.Tracker.State.Spec.{learn, forgets, files}
use model_validation_operato.Tracker.State.Refines.{
  entry_at, known_of, finalized, known-remove_pod_event, known-process_for,
}
use model_validation_operato.Tracker.State.Runs.{
  TrackerEvent, mv_added, mv_removed, pod_seen, pod_seeded, pod_deleted, pod_gone, track_event,
  track_events, known-track_event, step_of, notice,
}
use model_validation_operato.Tracker.State.Belief.{
  Belief, no_belief, is_known, pods_of, held, is_named_under, filed_under, gone_by, tell, tell_all,
  IsFiledIn, held-tracks, held-untracks, held-forgets, held-files,
}
use model_validation_operato.Base.{map}

-- The tracker knows what is to be known, has the UIDs of the names, and holds filed pods only.
pub record Agrees (st : StatusTracker) (b : Belief) : Type 0 where
  pub known : known_of st ≡ b.known
  pub uid_of : (n : NamespacedName) → get_uid_by_name n st.pod_mapping ≡ b.uid_of n
  pub filed : IsFiledIn b

Agrees-new : Agrees new_status_tracker no_belief
unfolding new_status_tracker Map.get get_uid_by_name new_pod_mapping
Agrees-new = record { known = refl; uid_of = λ n. refl; filed = λ j u n. absurd (n refl) }

any_unnamed : (n : NamespacedName) (us : List String) → any (λ u. has_name n none) us ≡ false
any_unnamed n [] = refl
any_unnamed n (u ∷ us) = any_unnamed n us

abbrev mapping_without : Option ModelValidationInfo → PodMapping → PodMapping
mapping_without none pm = pm
mapping_without (some info) pm = remove_pods_by_name (map pod_key (get_all_pods info)) pm

uids-mapping_without :
    (n : NamespacedName) (filed : List String) (o : Option ModelValidationInfo) (pm : PodMapping)
    → ((info : ModelValidationInfo) → o ≡ some info → IsWellFormed info)
    → ((u : String) → pods_of (entry_at o) u ≢ none → any (λ v. u == v) filed ≡ true)
    → get_uid_by_name n (mapping_without o pm) ≡ (
        if any (λ u. has_name n (pods_of (entry_at o) u)) filed then none else get_uid_by_name n pm)
uids-mapping_without n filed none pm w f = rw (any_unnamed n filed) refl
uids-mapping_without n filed (some info) pm w f =
    get_uid_by_name-remove_pods_by_name n (map pod_key (get_all_pods info)) pm
    ∙ ap (λ b. if b then none else get_uid_by_name n pm)
        (names-get_all_pods n info (w info refl) filed f)

mapping-remove_model_validation :
    (key : NamespacedName) (st : StatusTracker)
    → (remove_model_validation key st).pod_mapping
      ≡ mapping_without (Map.get key st.model_validations) st.pod_mapping
unfolding remove_model_validation
mapping-remove_model_validation key st = ground arith

-- With a resource go the names of its pods.
uids-remove_model_validation :
    (n key : NamespacedName) (filed : List String) (st : StatusTracker)
    → IsConsistent st
    → ((u : String) → held key u (known_of st) ≢ none → any (λ v. u == v) filed ≡ true)
    → get_uid_by_name n (remove_model_validation key st).pod_mapping ≡ (
        if any (λ u. has_name n (held key u (known_of st))) filed
        then none
        else get_uid_by_name n st.pod_mapping)
uids-remove_model_validation n key filed st c f =
    ap (get_uid_by_name n) (mapping-remove_model_validation key st)
    ∙ uids-mapping_without n filed (Map.get key st.model_validations) st.pod_mapping (c.infos key) f

module _ (digest : String → String) (F : Finalizers) where
  uids-process_for :
      (n : NamespacedName) (pod : Pod) (key : NamespacedName) (st : StatusTracker)
      → get_uid_by_name n (process_for F pod key st).pod_mapping ≡ (
          if is_known key (known_of st) && n == pod_key (pod_info_of pod)
          then some pod.uid
          else get_uid_by_name n st.pod_mapping)
  unfolding process_for process_pod_event_common
  uids-process_for n pod key st = elim (Option-cases (Map.get key st.model_validations)) [
    | inl e ↦ ground (arith, e)
    | inr (info, e) ↦
        ground
          (arith, e, get_uid_by_name-add_pod n (pod_key (pod_info_of pod)) pod.uid st.pod_mapping)
  ]

  uids-add_model_validation :
      (mv : ModelValidation) (st : StatusTracker)
      → (add_model_validation digest mv st).pod_mapping ≡ st.pod_mapping
  unfolding add_model_validation
  uids-add_model_validation mv st = ground arith

  filed_under-IsFiledIn :
      (key : NamespacedName) (pod : Pod) (b : Belief)
      → IsFiledIn b
      → IsFiledIn (filed_under digest F key pod b)
  filed_under-IsFiledIn key pod b f j u n = elim (Bool-cases (u == pod.uid)) [
    | inl e ↦ ground (arith, e)
    | inr e ↦
        ground
          (arith, e, f j u (held-files j key (finalized F pod) (pod_info_of pod) b.known u n e))
  ]

  module _ (st : StatusTracker) (b : Belief) (c : IsConsistent st) (a : Agrees st b) where
    -- What is known after an event, when the event's notice is one of the specification.
    known-Agrees :
        (e : TrackerEvent)
        → known_of (track_event digest F e st) ≡ learn (notice digest F e st) b.known
    known-Agrees e = known-track_event digest F e st c ∙ ap (learn (notice digest F e st)) a.known

    filed-Agrees :
        (pod : Pod) (key : NamespacedName)
        → known_of (process_for F pod key st) ≡ (filed_under digest F key pod b).known
        → Agrees (process_for F pod key st) (filed_under digest F key pod b)
    filed-Agrees pod key h = record {
      known = h;
      uid_of = λ n.
          uids-process_for n pod key st
          ∙ ap
              (λ k.
                if is_known key k && n == pod_key (pod_info_of pod)
                then some pod.uid
                else get_uid_by_name n st.pod_mapping)
              a.known
          ∙ ap
              (λ o.
                if is_known key b.known && n == pod_key (pod_info_of pod) then some pod.uid else o)
              (a.uid_of n);
      filed = filed_under-IsFiledIn key pod b a.filed;
    }

    gone-Agrees :
        (name : NamespacedName) (o : Option String)
        → get_uid_by_name name st.pod_mapping ≡ o
        → Agrees (remove_pod_by_name name st) (gone_by digest F name o b)
    unfolding remove_pod_by_name remove_pod_event
    gone-Agrees name none e = rw (e, remove_pod_by_name) a
    gone-Agrees name (some uid) e =
        rw (e, remove_pod_by_name)
          (record {
            known = known-remove_pod_event uid st c ∙ ap (learn (forgets uid)) a.known;
            uid_of = λ n.
                get_uid_by_name-remove_pods_by_name n (name ∷ []) st.pod_mapping
                ∙ ground (arith, a.uid_of n);
            filed = λ j u n. a.filed j u (held-forgets j uid b.known u n);
          })

    tell-Agrees : (e : TrackerEvent) → Agrees (track_event digest F e st) (tell digest F e b)
    unfolding process_pod_event process_seed_pod_event remove_pod_event
    tell-Agrees (mv_added mv) = record {
      known = known-Agrees (mv_added mv);
      uid_of = λ n. ap (get_uid_by_name n) (uids-add_model_validation mv st) ∙ a.uid_of n;
      filed = λ j u n. a.filed j u (held-tracks j _ _ _ _ b.known u n);
    }
    tell-Agrees (mv_removed key) = record {
      known = known-Agrees (mv_removed key);
      uid_of = λ n.
          uids-remove_model_validation n key b.filed st c
            (λ u h. a.filed key u (subst (λ k. held key u k ≢ none) a.known h))
          ∙ ap
              (λ k.
                if any (λ u. has_name n (held key u k)) b.filed
                then none
                else get_uid_by_name n st.pod_mapping)
              a.known
          ∙ ap (λ o. if is_named_under key n b then none else o) (a.uid_of n);
      filed = λ j u n. a.filed j u (held-untracks j key b.known u n);
    }
    tell-Agrees (pod_seen pod) =
        elim (Bool-cases (text_at model_validation_label pod.labels == "")) [
          | inl e ↦ rw e a
          | inr e ↦ rw e (
              filed-Agrees pod (named_by pod) (
                known-process_for F pod (named_by pod) st c
                ∙ ap (learn (files (named_by pod) (finalized F pod) (pod_info_of pod))) a.known))
        ]
    tell-Agrees (pod_seeded pod key) =
        elim (Bool-cases (text_at model_validation_label pod.labels == "")) [
          | inl e ↦ rw e a
          | inr e ↦ rw e (
              filed-Agrees pod key (
                known-process_for F pod key st c
                ∙ ap (learn (files key (finalized F pod) (pod_info_of pod))) a.known))
        ]
    tell-Agrees (pod_deleted uid) = record {
      known = known-Agrees (pod_deleted uid);
      uid_of = a.uid_of;
      filed = λ j u n. a.filed j u (held-forgets j uid b.known u n);
    }
    tell-Agrees (pod_gone name) = gone-Agrees name (b.uid_of name) (a.uid_of name)

  tell_all-Agrees :
      (es : List TrackerEvent) (st : StatusTracker) (b : Belief)
      → IsConsistent st
      → Agrees st b
      → Agrees (track_events digest F es st) (tell_all digest F es b)
  tell_all-Agrees [] st b c a = a
  tell_all-Agrees (e ∷ es) st b c a =
      tell_all-Agrees es (track_event digest F e st) (tell digest F e b)
        (Step-IsConsistent digest F (step_of digest F e st) c) (tell-Agrees st b c a e)

  -- Every run of the tracker is a run of its specification, which reads the events alone: after any
  -- sequence of events, in any order, the tracked resources, their configurations and generations,
  -- the state and the record of each UID under each of them, and the UID that each name of a pod
  -- stands for, are what the specification makes of the events.
  pub known_as_specified :
      (es : List TrackerEvent)
      → (known_of (track_events digest F es new_status_tracker)
          ≡ (tell_all digest F es no_belief).known)
        × ((n : NamespacedName)
            → get_uid_by_name n (track_events digest F es new_status_tracker).pod_mapping
              ≡ (tell_all digest F es no_belief).uid_of n)
  known_as_specified es =
      let a = tell_all-Agrees es new_status_tracker no_belief IsConsistent-new Agrees-new in
      (a.known, a.uid_of)
