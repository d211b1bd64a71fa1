-- ===== src/Tracker/State/Removal.antt =====
-- internal/tracker/status_tracker.go: the loop that takes a pod out of every tracked resource.
use model_validation_operato.Base.{
  ◌≡◌, refl, String, false, Option, none, some, [], ◌∷◌, any, Bool, NamespacedName, key_eq,
  string_eq, ◌==◌, arith,
}
use model_validation_operato.Base.Map
use model_validation_operato.Base.Map.{Map}
use model_validation_operato.Tracker.Info.{ModelValidationInfo, remove_pod}
use model_validation_operato.Tracker.State.{remove_pod_everywhere}
use model_validation_operato.Tracker.State.Counts.{count_in}

abbrev pub without_pod : String → Option ModelValidationInfo → Option ModelValidationInfo
without_pod uid none = none
without_pod uid (some info) = some (remove_pod uid info).0

pub get-remove_pod_everywhere :
    (key : NamespacedName) (uid : String) (mvs : Map NamespacedName ModelValidationInfo)
    → Map.get key (remove_pod_everywhere uid mvs).0 ≡ without_pod uid (Map.get key mvs)
unfolding remove_pod_everywhere Map.get
get-remove_pod_everywhere key uid [] = refl
get-remove_pod_everywhere key uid ((j, info) ∷ mvs) =
    ground (arith, get-remove_pod_everywhere key uid mvs)

pub remove_pod_everywhere-NodupKeys :
    (uid : String) (mvs : Map NamespacedName ModelValidationInfo)
    → Map.NodupKeys mvs
    → Map.NodupKeys (remove_pod_everywhere uid mvs).0
unfolding remove_pod_everywhere
remove_pod_everywhere-NodupKeys uid [] u = tt
remove_pod_everywhere-NodupKeys uid ((j, info) ∷ mvs) (fresh, u) =
    ground (arith, remove_pod_everywhere-NodupKeys uid mvs u, get-remove_pod_everywhere j uid mvs)

pub count_in-remove_pod_everywhere :
    (ns uid : String) (mvs : Map NamespacedName ModelValidationInfo)
    → count_in ns (remove_pod_everywhere uid mvs).0 ≡ count_in ns mvs
unfolding remove_pod_everywhere count_in
count_in-remove_pod_everywhere ns uid [] = refl
count_in-remove_pod_everywhere ns uid ((j, info) ∷ mvs) =
    ground (arith, count_in-remove_pod_everywhere ns uid mvs)

abbrev held_pod : String → Option ModelValidationInfo → Bool
held_pod uid none = false
held_pod uid (some info) = (remove_pod uid info).1

-- The keys that the loop reports are those of the resources that held the pod.
pub updated-remove_pod_everywhere :
    (key : NamespacedName) (uid : String) (mvs : Map NamespacedName ModelValidationInfo)
    → Map.NodupKeys mvs
    → any (λ j. key == j) (remove_pod_everywhere uid mvs).1 ≡ held_pod uid (Map.get key mvs)
unfolding remove_pod_everywhere Map.get
updated-remove_pod_everywhere key uid [] u = refl
updated-remove_pod_everywhere key uid ((j, info) ∷ mvs) (fresh, u) =
    ground (arith, updated-remove_pod_everywhere key uid mvs u)
