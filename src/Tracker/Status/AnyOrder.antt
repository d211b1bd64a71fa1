-- ===== src/Tracker/Status/AnyOrder.antt =====
-- internal/tracker/status_tracker.go: Go leaves open in which order `range` visits the maps of the
-- tracked pods, and doUpdateStatus sorts what it collects by the names of the pods.
use mathlib.Core.List.{Perm}
use mathlib.Core.List.Perm
use mathlib.Core.HLevel.{hedberg}
use model_validation_operato.Base.{
  ◌≡◌, ◌≢◌, refl, sym, ℕ, String, false, Option, none, some, List, [], ◌∷◌, arith, NamespacedName,
  key_eq, string_eq, nat_eq, All, Ordered, Bool-cases, less_text, less_text_trans, less_text_asym,
  less_text_total, inl, inr,
}
use model_validation_operato.Base.Map
use model_validation_operato.Base.Map.{Map}
use model_validation_operato.Base.Sort.AnyOrder.{AllDiffer, Differ, sort_slice_any_order}
use model_validation_operato.Api.{ModelValidation, ModelValidationStatus, PodTrackingInfo}
use model_validation_operato.Kube.{found}
use model_validation_operato.Api.Hash.{get_config_hash}
use model_validation_operato.Api.Method.{get_auth_method}
use model_validation_operato.Tracker.Status.{
  update_tracked, status_equal, compare_pod_slices, new_status, do_update_status, by_name,
  tracking_info, sorted_pods, collect_pod_tracking_info,
}
use model_validation_operato.Base.Sort.{sort_slice}
use model_validation_operato.Tracker.State.{StatusTracker}
use model_validation_operato.Tracker.Status.Writes.{
  sent-update_tracked, do_update_status-found, update_tracked_equal, status_equal_self,
}
use model_validation_operato.Tracker.Info.{PodInfo, ModelValidationInfo}

-- No two pods have the same name.
abbrev pub HaveDistinctNames : List PodTrackingInfo → Type 0
HaveDistinctNames = Ordered (λ x y. x.name ≢ y.name)

Differ-names : (x y : PodTrackingInfo) → x.name ≢ y.name → Differ by_name x y
Differ-names x y n = elim (Bool-cases (less_text x.name y.name)) [
  | inl e ↦ inl e
  | inr e ↦ inr (less_text_total x.name y.name n e)
]

All-Differ :
    (x : PodTrackingInfo) (ys : List PodTrackingInfo)
    → All (λ (y : PodTrackingInfo). x.name ≢ y.name) ys
    → All (Differ by_name x) ys
All-Differ x [] t = tt
All-Differ x (y ∷ ys) (n, t) = (Differ-names x y n, All-Differ x ys t)

AllDiffer-names : (xs : List PodTrackingInfo) → HaveDistinctNames xs → AllDiffer by_name xs
AllDiffer-names [] o = tt
AllDiffer-names (x ∷ xs) (h, o) = (All-Differ x xs h, AllDiffer-names xs o)

PodTrackingInfo-discrete : Discrete PodTrackingInfo
PodTrackingInfo-discrete = hlevel (string_eq.dec, nat_eq.dec)

PodTrackingInfo-set : IsSet PodTrackingInfo
PodTrackingInfo-set = hedberg PodTrackingInfo-discrete

sorted_pods_any_order :
    (m m' : Map String PodInfo)
    → Perm m m'
    → HaveDistinctNames (collect_pod_tracking_info m)
    → sorted_pods m ≡ sorted_pods m'
unfolding collect_pod_tracking_info Map.values
sorted_pods_any_order m m' p o =
    sort_slice_any_order by_name (λ x y z. less_text_trans x.name y.name z.name)
      (λ x y. less_text_asym x.name y.name) PodTrackingInfo-set
      (Perm.map tracking_info (Perm.map (λ (_, v). v) p)) (AllDiffer-names _ o)

-- The same resource, with its maps visited in another order.
pub record Reordered (m m' : ModelValidationInfo) : Type 0 where
  pub config_hash : m.config_hash ≡ m'.config_hash
  pub auth_method : m.auth_method ≡ m'.auth_method
  pub injected_pods : Perm m.injected_pods m'.injected_pods
  pub uninjected_pods : Perm m.uninjected_pods m'.uninjected_pods
  pub orphaned_pods : Perm m.orphaned_pods m'.orphaned_pods

-- In each state, no two pods have the same name.
pub record IsNamedApart (m : ModelValidationInfo) : Type 0 where
  pub injected_pods : HaveDistinctNames (collect_pod_tracking_info m.injected_pods)
  pub uninjected_pods : HaveDistinctNames (collect_pod_tracking_info m.uninjected_pods)
  pub orphaned_pods : HaveDistinctNames (collect_pod_tracking_info m.orphaned_pods)

-- The new status does not depend on the order in which the maps are visited.
pub new_status_any_order :
    (mv : ModelValidation) (m m' : ModelValidationInfo) (now : ℕ)
    → Reordered m m'
    → IsNamedApart m
    → new_status mv m now ≡ new_status mv m' now
unfolding new_status
new_status_any_order mv m m' now r d =
    rw
      (
        r.auth_method,
        sorted_pods_any_order m.injected_pods m'.injected_pods r.injected_pods d.injected_pods,
        sorted_pods_any_order m.uninjected_pods m'.uninjected_pods r.uninjected_pods
            d.uninjected_pods,
        sorted_pods_any_order m.orphaned_pods m'.orphaned_pods r.orphaned_pods d.orphaned_pods,
      )
      refl

-- An update that reached the API server settles, whatever order the maps are visited in: when the
-- resource has the status that was sent, a later update at a state that tracks the same pods for it
-- returns no error and sends nothing, if no two pods of one state have the same name.
pub do_update_status_settles_any_order :
    (digest : String → String) (write write' : ModelValidationStatus → Option String) (now now' : ℕ)
    (key : NamespacedName) (mv : ModelValidation) (st st' : StatusTracker)
    (m m' : ModelValidationInfo) (s : ModelValidationStatus)
    → Map.get key st.model_validations ≡ some m
    → Map.get key st'.model_validations ≡ some m'
    → Reordered m m'
    → IsNamedApart m
    → (do_update_status digest write now key (found mv) st).error ≡ none
    → (do_update_status digest write now key (found mv) st).sent ≡ some s
    → let o = do_update_status digest write' now' key (found (record mv { status = s })) st' in
      (o.error ≡ none) × (o.sent ≡ none)
unfolding get_config_hash
do_update_status_settles_any_order digest write write' now now' key mv st st' m m' s t t' r d e h =
    let first = do_update_status-found digest write now key mv m st t in
    let mv' = record mv { status = s } in
    let (same, hash, method, _) =
      sent-update_tracked digest write now key mv m st s (rw (← first) h) in
    rw (do_update_status-found digest write' now' key mv' m' st' t') (
      update_tracked_equal digest write' now' key mv' m' st' (rw (← r.config_hash) hash)
        (rw (← r.auth_method) method)
        (rw
          (same, ← new_status_any_order (record mv { status = new_status mv m now }) m m' now' r d)
          (status_equal_self mv (record mv { status = new_status mv m now }) m now now')))

less_text_self : (s : String) → less_text s s ≡ false
less_text_self s = ground (arith, less_text_asym s s)

abbrev pub two_pods : PodInfo → PodInfo → Map String PodInfo
two_pods p q = (p.uid, p) ∷ (q.uid, q) ∷ []

-- Two pods of one name stay in the order in which the map is visited.
sorted_pods-two_pods :
    (p q : PodInfo)
    → p.name ≡ q.name
    → sorted_pods (two_pods p q) ≡ tracking_info p ∷ tracking_info q ∷ []
unfolding collect_pod_tracking_info Map.values sort_slice
sorted_pods-two_pods p q e = ground (arith, less_text_self p.name)

update_tracked_differs :
    (digest : String → String) (write : ModelValidationStatus → Option String) (now : ℕ)
    (key : NamespacedName) (mv : ModelValidation) (m : ModelValidationInfo) (st : StatusTracker)
    → m.config_hash ≡ get_config_hash digest mv
    → m.auth_method ≡ get_auth_method mv
    → status_equal mv.status (new_status mv m now) ≡ false
    → (update_tracked digest write now key mv m st).sent ≡ some (new_status mv m now)
unfolding update_tracked
update_tracked_differs digest write now key mv m st h a e = ground arith

swapped_differ :
    (a b : ModelValidationStatus) (x y : PodTrackingInfo)
    → x.uid ≢ y.uid
    → a.injected_pods ≡ x ∷ y ∷ []
    → b.injected_pods ≡ y ∷ x ∷ []
    → status_equal a b ≡ false
unfolding status_equal compare_pod_slices
swapped_differ a b x y n e f = ground arith

-- The resource with two injected pods, in the order in which the map is visited.
abbrev pub injecting : PodInfo → PodInfo → ModelValidationInfo → ModelValidationInfo
injecting p q m = record m { injected_pods = two_pods p q }

-- When two pods of one name but of different UIDs are the injected pods that a resource is tracked
-- with, an update does not settle: when the resource has the status that one order of the map gives,
-- an update that visits the map in the other order sends a status again, although the same pods are
-- tracked under the same, current configuration.
pub same_name_unsettles :
    (digest : String → String) (write : ModelValidationStatus → Option String) (now now' : ℕ)
    (key : NamespacedName) (mv : ModelValidation) (st : StatusTracker) (m : ModelValidationInfo)
    (p q : PodInfo)
    → p.name ≡ q.name
    → p.uid ≢ q.uid
    → m.config_hash ≡ get_config_hash digest mv
    → m.auth_method ≡ get_auth_method mv
    → Map.get key st.model_validations ≡ some (injecting q p m)
    → let mv' = record mv { status = new_status mv (injecting p q m) now } in
      Reordered (injecting p q m) (injecting q p m)
      × ((do_update_status digest write now' key (found mv') st).sent
          ≡ some (new_status mv' (injecting q p m) now'))
unfolding get_config_hash new_status
same_name_unsettles digest write now now' key mv st m p q e n h a t = (
  record {
    config_hash = refl;
    auth_method = refl;
    injected_pods = Perm.swap (q.uid, q) (p.uid, p) [];
    uninjected_pods = Perm.refl m.uninjected_pods;
    orphaned_pods = Perm.refl m.orphaned_pods;
  },
  let mv' = record mv { status = new_status mv (injecting p q m) now } in
      rw (do_update_status-found digest write now' key mv' (injecting q p m) st t) (
        update_tracked_differs digest write now' key mv' (injecting q p m) st h a (
          swapped_differ (new_status mv (injecting p q m) now)
            (new_status mv' (injecting q p m) now') (tracking_info p) (tracking_info q) n
            (sorted_pods-two_pods p q e) (sorted_pods-two_pods q p (sym e)))),
)
