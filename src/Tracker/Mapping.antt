-- ===== src/Tracker/Mapping.antt =====
-- internal/tracker/pod_mapping.go: the names of pods by UID and their UIDs by name.
pub mod Laws
use model_validation_operato.Base.{
  String, Bool, true, false, Option, none, some, List, [], ◌∷◌, NamespacedName, key_eq, string_eq,
}
use model_validation_operato.Base.Map
use model_validation_operato.Base.Map.{Map}

pub record PodMapping : Type 0 where
  pub name_to_uid : Map NamespacedName String
  pub uid_to_name : Map String NamespacedName

unfoldable pub new_pod_mapping : PodMapping
new_pod_mapping = record { name_to_uid = []; uid_to_name = [] }

unfoldable pub remove_mapping : NamespacedName → String → PodMapping → PodMapping
remove_mapping name uid pm = record {
  name_to_uid = Map.delete name pm.name_to_uid;
  uid_to_name = Map.delete uid pm.uid_to_name;
}

unfoldable pub add_pod : NamespacedName → String → PodMapping → PodMapping
unfolding remove_mapping
add_pod name uid pm =
    let removed = remove_mapping name uid pm in
    record {
      name_to_uid = Map.put name uid removed.name_to_uid;
      uid_to_name = Map.put uid name removed.uid_to_name;
    }

unfoldable pub get_uid_by_name : NamespacedName → PodMapping → Option String
get_uid_by_name name pm = Map.get name pm.name_to_uid

unfoldable pub get_name_by_uid : String → PodMapping → Option NamespacedName
get_name_by_uid uid pm = Map.get uid pm.uid_to_name

-- One round of the loop of `RemovePodsByName`.
unfoldable pub remove_pod_by_name : NamespacedName → PodMapping → PodMapping
unfolding remove_mapping
remove_pod_by_name name pm = elim (Map.get name pm.name_to_uid) [
  | none ↦ pm
  | some uid ↦ remove_mapping name uid pm
]

unfoldable pub remove_pods_by_name : List NamespacedName → PodMapping → PodMapping
unfolding remove_pod_by_name
remove_pods_by_name [] pm = pm
remove_pods_by_name (name ∷ names) pm = remove_pods_by_name names (remove_pod_by_name name pm)

unfoldable pub remove_pod_by_uid : String → PodMapping → PodMapping × Bool
unfolding remove_mapping
remove_pod_by_uid uid pm = elim (Map.get uid pm.uid_to_name) [
  | none ↦ (pm, false)
  | some name ↦ (remove_mapping name uid pm, true)
]

unfoldable pub get_all_pod_names : PodMapping → List NamespacedName
get_all_pod_names pm = Map.keys pm.name_to_uid

unfoldable pub clear : PodMapping → PodMapping
clear pm = record { name_to_uid = []; uid_to_name = [] }
