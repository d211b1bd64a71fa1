-- ===== src/Tracker/Info/Orphans.antt =====
-- internal/tracker/model_validation_info.go: the loop of `UpdateConfig` that moves the drifted pods.
use model_validation_operato.Base.{
  ◌≡◌, refl, ℕ, String, Option, none, some, List, [], ◌∷◌, arith, ◌==◌, string_eq, if◌then◌else◌,
}
use model_validation_operato.Base.Map
use model_validation_operato.Base.Map.{Map}
use model_validation_operato.Tracker.Info.{
  PodInfo, ModelValidationInfo, is_drifted, drifted_pods, move_to_orphaned,
}

-- The pod of a list with the given UID.
abbrev pub find : String → List PodInfo → Option PodInfo
find u [] = none
find u (p ∷ ps) = if u == p.uid then some p else find u ps

abbrev pub DistinctUids : List PodInfo → Type 0
DistinctUids [] = Unit
DistinctUids (p ∷ ps) = (find p.uid ps ≡ none) × DistinctUids ps

abbrev pub or_found : Option PodInfo → Option PodInfo → Option PodInfo
or_found (some p) _ = some p
or_found none o = o

abbrev pub unless_found : Option PodInfo → Option PodInfo → Option PodInfo
unless_found (some _) _ = none
unless_found none o = o

abbrev pub if_drifted : String → String → Option PodInfo → Option PodInfo
if_drifted h a none = none
if_drifted h a (some p) = if is_drifted h a p then some p else none

abbrev pub KeyedByUid : Map String PodInfo → Type 0
KeyedByUid [] = Unit
KeyedByUid ((u, p) ∷ pods) = (p.uid ≡ u) × KeyedByUid pods

-- Every entry of a map without double keys is found.
pub KeyedByUid-of_get :
    (pods : Map String PodInfo)
    → Map.NodupKeys pods
    → ((u : String) (p : PodInfo) → Map.get u pods ≡ some p → p.uid ≡ u)
    → KeyedByUid pods
unfolding Map.get
KeyedByUid-of_get [] n h = tt
KeyedByUid-of_get ((u, p) ∷ pods) (fresh, n) h =
    (h u p (ground arith), KeyedByUid-of_get pods n λ v q e. h v q (ground arith))

pub find-drifted_pods :
    (h a u : String) (pods : Map String PodInfo)
    → Map.NodupKeys pods
    → KeyedByUid pods
    → find u (drifted_pods h a pods) ≡ if_drifted h a (Map.get u pods)
unfolding drifted_pods Map.get
find-drifted_pods h a u [] n k = refl
find-drifted_pods h a u ((v, p) ∷ pods) (fresh, n) (e, k) =
    ground (arith, find-drifted_pods h a u pods n k)

pub drifted_pods-DistinctUids :
    (h a : String) (pods : Map String PodInfo)
    → Map.NodupKeys pods
    → KeyedByUid pods
    → DistinctUids (drifted_pods h a pods)
unfolding drifted_pods
drifted_pods-DistinctUids h a [] n k = tt
drifted_pods-DistinctUids h a ((v, p) ∷ pods) (fresh, n) (e, k) =
    ground (arith, drifted_pods-DistinctUids h a pods n k, find-drifted_pods h a p.uid pods n k)

module _ (u : String) where
  pub injected-move_to_orphaned :
      (ps : List PodInfo) (m : ModelValidationInfo)
      → Map.get u (move_to_orphaned ps m).injected_pods
        ≡ unless_found (find u ps) (Map.get u m.injected_pods)
  unfolding move_to_orphaned
  injected-move_to_orphaned [] m = refl
  injected-move_to_orphaned (p ∷ ps) m =
      rw (injected-move_to_orphaned ps) (ground (arith, Map.get-delete u p.uid m.injected_pods))

  pub orphaned-move_to_orphaned :
      (ps : List PodInfo) (m : ModelValidationInfo)
      → DistinctUids ps
      → Map.get u (move_to_orphaned ps m).orphaned_pods
        ≡ or_found (find u ps) (Map.get u m.orphaned_pods)
  unfolding move_to_orphaned
  orphaned-move_to_orphaned [] m d = refl
  orphaned-move_to_orphaned (p ∷ ps) m (fresh, d) =
      rw (orphaned-move_to_orphaned ps _ d) (ground (arith, Map.get-put u p.uid p m.orphaned_pods))

pub uninjected-move_to_orphaned :
    (ps : List PodInfo) (m : ModelValidationInfo)
    → (move_to_orphaned ps m).uninjected_pods ≡ m.uninjected_pods
unfolding move_to_orphaned
uninjected-move_to_orphaned [] m = refl
uninjected-move_to_orphaned (p ∷ ps) m = uninjected-move_to_orphaned ps _

-- What a walk over the pods leaves alone or keeps without double keys.
module _ (P : ModelValidationInfo → Type 0) where
  move_to_orphaned_keeps :
      ((p : PodInfo) (m : ModelValidationInfo)
        → P m
        → P (record m {
          injected_pods = Map.delete p.uid m.injected_pods;
          orphaned_pods = Map.put p.uid p m.orphaned_pods;
        }))
      → (ps : List PodInfo) (m : ModelValidationInfo) → P m
      → P (move_to_orphaned ps m)
  unfolding move_to_orphaned
  move_to_orphaned_keeps step [] m h = h
  move_to_orphaned_keeps step (p ∷ ps) m h = move_to_orphaned_keeps step ps _ (step p m h)

abbrev pub NodupPods : ModelValidationInfo → Type 0
NodupPods m = Map.NodupKeys m.injected_pods × Map.NodupKeys m.orphaned_pods

pub move_to_orphaned-NodupPods :
    (ps : List PodInfo) (m : ModelValidationInfo) → NodupPods m → NodupPods (move_to_orphaned ps m)
move_to_orphaned-NodupPods = move_to_orphaned_keeps NodupPods λ p m (i, o).
    (Map.delete-NodupKeys p.uid m.injected_pods i, Map.put-NodupKeys p.uid p m.orphaned_pods o)

abbrev pub HasConfig : String → String → ℕ → String → ModelValidationInfo → Type 0
HasConfig h a g n m =
    (m.config_hash ≡ h) × (m.auth_method ≡ a) × (m.observed_generation ≡ g) × (m.name ≡ n)

pub move_to_orphaned-HasConfig :
    (h a : String) (g : ℕ) (n : String) (ps : List PodInfo) (m : ModelValidationInfo)
    → HasConfig h a g n m
    → HasConfig h a g n (move_to_orphaned ps m)
move_to_orphaned-HasConfig h a g n = move_to_orphaned_keeps (HasConfig h a g n) λ p m c. c
