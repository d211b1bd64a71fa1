-- ===== src/Tracker/Status/Listing.antt =====
-- internal/tracker/status_tracker.go: which pods a status lists, and in which of its lists.
use mathlib.Core.List.{Perm}
use mathlib.Core.List.Perm
use model_validation_operato.Base.{
  ◌≡◌, ◌∙◌, refl, ap, String, Bool, true, some, List, [], ◌∷◌, map, arith, key_eq, string_eq,
  nat_eq, ◌==◌, any, length, if◌then◌else◌,
}
use model_validation_operato.Base.Map
use model_validation_operato.Base.Map.{Map}
use model_validation_operato.Base.Sort.{any-sort_slice}
use model_validation_operato.Api.{ModelValidationStatus, PodTrackingInfo}
use model_validation_operato.Metrics.{PodState, untracked, injected, uninjected, orphaned}
use model_validation_operato.Tracker.Info.{PodInfo}
use model_validation_operato.Tracker.Status.{
  status_equal, compare_pod_slices, sorted_pods, collect_pod_tracking_info, by_name, tracking_info,
}
use model_validation_operato.Base.{subst, false}
use model_validation_operato.Base.Sort.{sort_slice-perm}

-- Is a pod with this UID listed?
abbrev pub lists : String → List PodTrackingInfo → Bool
lists u = any (λ x. u == x.uid)

-- The first of the injected, the orphaned and the uninjected list that has a pod with this UID.
abbrev pub listed_state : String → ModelValidationStatus → PodState
listed_state u s =
    if lists u s.injected_pods
    then injected
    else if lists u s.orphaned_pods
    then orphaned
    else if lists u s.uninjected_pods
    then uninjected
    else untracked

-- Is a pod with this UID listed as injected, as orphaned, as uninjected?
abbrev pub lists_of : String → ModelValidationStatus → Bool × Bool × Bool
lists_of u s = (lists u s.injected_pods, lists u s.orphaned_pods, lists u s.uninjected_pods)

-- In the list of this state, and in no other one.
abbrev pub only_in : PodState → Bool × Bool × Bool
only_in injected = (true, false, false)
only_in orphaned = (false, true, false)
only_in uninjected = (false, false, true)
only_in untracked = (false, false, false)

pub listed_state-lists_of :
    (u : String) (s : ModelValidationStatus) (p : PodState)
    → lists_of u s ≡ only_in p
    → listed_state u s ≡ p
listed_state-lists_of u s injected h = rw (ap (λ t. t.0) h) refl
listed_state-lists_of u s orphaned h = rw (ap (λ t. t.0) h, ap (λ t. t.1) h) refl
listed_state-lists_of u s uninjected h = rw (ap (λ t. t.0) h, ap (λ t. t.1) h, ap (λ t. t.2) h) refl
listed_state-lists_of u s untracked h = rw (ap (λ t. t.0) h, ap (λ t. t.1) h, ap (λ t. t.2) h) refl

pub lists-compare_pod_slices :
    (u : String) (xs ys : List PodTrackingInfo)
    → compare_pod_slices xs ys ≡ true
    → lists u xs ≡ lists u ys
unfolding compare_pod_slices
lists-compare_pod_slices u [] [] h = refl
lists-compare_pod_slices u [] (y ∷ ys) h = ground arith
lists-compare_pod_slices u (x ∷ xs) [] h = ground arith
lists-compare_pod_slices u (x ∷ xs) (y ∷ ys) h = ground (arith, lists-compare_pod_slices u xs ys)

pub length-compare_pod_slices :
    (xs ys : List PodTrackingInfo) → compare_pod_slices xs ys ≡ true → length xs ≡ length ys
unfolding compare_pod_slices
length-compare_pod_slices [] [] h = refl
length-compare_pod_slices [] (y ∷ ys) h = ground arith
length-compare_pod_slices (x ∷ xs) [] h = ground arith
length-compare_pod_slices (x ∷ xs) (y ∷ ys) h = ground (arith, length-compare_pod_slices xs ys)

-- Statuses that the code finds equal list every pod in the same lists.
pub lists_of-status_equal :
    (u : String) (a b : ModelValidationStatus)
    → status_equal a b ≡ true
    → lists_of u a ≡ lists_of u b
unfolding status_equal
lists_of-status_equal u a b h = ground (
  arith,
  lists-compare_pod_slices u a.injected_pods b.injected_pods,
  lists-compare_pod_slices u a.uninjected_pods b.uninjected_pods,
  lists-compare_pod_slices u a.orphaned_pods b.orphaned_pods,
)

-- The name and the UID of an entry.
abbrev pub identity : PodTrackingInfo → String × String
identity x = (x.name, x.uid)

-- The entries of a list are the pods of a map, by name and UID, each once.
abbrev pub IsListing : Map String PodInfo → List PodTrackingInfo → Type 0
IsListing pods entries = Perm (map identity entries) (map (λ p. (p.name, p.uid)) (Map.values pods))

identity-compare_pod_slices :
    (xs ys : List PodTrackingInfo)
    → compare_pod_slices xs ys ≡ true
    → map identity xs ≡ map identity ys
unfolding compare_pod_slices
identity-compare_pod_slices [] [] h = refl
identity-compare_pod_slices [] (y ∷ ys) h = ground arith
identity-compare_pod_slices (x ∷ xs) [] h = ground arith
identity-compare_pod_slices (x ∷ xs) (y ∷ ys) h = ground (arith, identity-compare_pod_slices xs ys)

map-identity :
    (ps : List PodInfo) → map identity (map tracking_info ps) ≡ map (λ p. (p.name, p.uid)) ps
map-identity [] = refl
map-identity (p ∷ ps) = ap (λ l. (p.name, p.uid) ∷ l) (map-identity ps)

pub sorted_pods-IsListing : (pods : Map String PodInfo) → IsListing pods (sorted_pods pods)
unfolding collect_pod_tracking_info
sorted_pods-IsListing pods =
    subst (Perm (map identity (sorted_pods pods))) (map-identity (Map.values pods))
      (Perm.map identity (sort_slice-perm by_name (collect_pod_tracking_info pods)))

pub IsListing-compare_pod_slices :
    (pods : Map String PodInfo) (xs ys : List PodTrackingInfo)
    → compare_pod_slices xs ys ≡ true
    → IsListing pods ys
    → IsListing pods xs
IsListing-compare_pod_slices pods xs ys h l = rw (identity-compare_pod_slices xs ys h) l

-- Collecting the pods of a map that is keyed by UID.
pub lists-collect :
    (u : String) (m : Map String PodInfo)
    → Map.NodupKeys m
    → ((k : String) (p : PodInfo) → Map.get k m ≡ some p → p.uid ≡ k)
    → lists u (collect_pod_tracking_info m) ≡ Map.has u m
unfolding collect_pod_tracking_info Map.values Map.has Map.get
lists-collect u [] n h = refl
lists-collect u ((k, p) ∷ m) (fresh, n) h =
    let own : p.uid ≡ k = h k p (ground arith) in
    let rest = lists-collect u m n (λ j q e. h j q (ground (arith, fresh, e))) in
    ground (arith, own, rest)

pub lists-sorted_pods :
    (u : String) (m : Map String PodInfo)
    → Map.NodupKeys m
    → ((k : String) (p : PodInfo) → Map.get k m ≡ some p → p.uid ≡ k)
    → lists u (sorted_pods m) ≡ Map.has u m
lists-sorted_pods u m n h =
    any-sort_slice by_name (λ x. u == x.uid) (collect_pod_tracking_info m) ∙ lists-collect u m n h
