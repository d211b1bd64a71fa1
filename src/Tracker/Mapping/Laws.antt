-- ===== src/Tracker/Mapping/Laws.antt =====
-- internal/tracker/pod_mapping.go: when the two maps are inverse to one another, and when they
-- cannot be.
use model_validation_operato.Base.{
  ◌≡◌, ◌≢◌, String, none, some, List, [], ◌∷◌, arith, NamespacedName, key_eq, string_eq, ◌==◌,
  if◌then◌else◌, inl, inr, Option-cases, ◌⊎◌, refl, any,
}
use model_validation_operato.Base.Map
use model_validation_operato.Tracker.Mapping.{
  PodMapping, add_pod, get_uid_by_name, get_name_by_uid, remove_pod_by_name, remove_pods_by_name,
  remove_pod_by_uid, remove_mapping,
}

-- The maps are inverse to one another.
pub record IsInverse (pm : PodMapping) : Type 0 where
  pub name_of_uid :
      (n : NamespacedName) (u : String)
      → get_uid_by_name n pm ≡ some u
      → get_name_by_uid u pm ≡ some n
  pub uid_of_name :
      (u : String) (n : NamespacedName)
      → get_name_by_uid u pm ≡ some n
      → get_uid_by_name n pm ≡ some u

-- The pair adds no second name to a UID and no second UID to a name.
abbrev pub IsFresh : NamespacedName → String → PodMapping → Type 0
IsFresh n u pm =
    ((get_uid_by_name n pm ≡ none) ⊎ (get_uid_by_name n pm ≡ some u))
    × ((get_name_by_uid u pm ≡ none) ⊎ (get_name_by_uid u pm ≡ some n))

pub get_uid_by_name-add_pod :
    (j n : NamespacedName) (u : String) (pm : PodMapping)
    → get_uid_by_name j (add_pod n u pm) ≡ (if j == n then some u else get_uid_by_name j pm)
unfolding get_uid_by_name add_pod
get_uid_by_name-add_pod j n u pm =
    ground
      (arith, Map.get-put j n u (Map.delete n pm.name_to_uid), Map.get-delete j n pm.name_to_uid)

pub get_name_by_uid-add_pod :
    (v : String) (n : NamespacedName) (u : String) (pm : PodMapping)
    → get_name_by_uid v (add_pod n u pm) ≡ (if v == u then some n else get_name_by_uid v pm)
unfolding get_name_by_uid add_pod
get_name_by_uid-add_pod v n u pm =
    ground
      (arith, Map.get-put v u n (Map.delete u pm.uid_to_name), Map.get-delete v u pm.uid_to_name)

pub add_pod-IsInverse :
    (n : NamespacedName) (u : String) (pm : PodMapping)
    → IsInverse pm
    → IsFresh n u pm
    → IsInverse (add_pod n u pm)
add_pod-IsInverse n u pm i (fn, fu) = record {
  name_of_uid = λ j v. ground (
    arith,
    get_uid_by_name-add_pod j n u pm,
    get_name_by_uid-add_pod v n u pm,
    i.name_of_uid j v,
  );
  uid_of_name = λ v j. ground (
    arith,
    get_uid_by_name-add_pod j n u pm,
    get_name_by_uid-add_pod v n u pm,
    i.uid_of_name v j,
  );
}

get_uid_by_name-remove_mapping :
    (j n : NamespacedName) (u : String) (pm : PodMapping)
    → get_uid_by_name j (remove_mapping n u pm) ≡ (if j == n then none else get_uid_by_name j pm)
unfolding get_uid_by_name remove_mapping
get_uid_by_name-remove_mapping j n u pm = Map.get-delete j n pm.name_to_uid

get_name_by_uid-remove_mapping :
    (v : String) (n : NamespacedName) (u : String) (pm : PodMapping)
    → get_name_by_uid v (remove_mapping n u pm) ≡ (if v == u then none else get_name_by_uid v pm)
unfolding get_name_by_uid remove_mapping
get_name_by_uid-remove_mapping v n u pm = Map.get-delete v u pm.uid_to_name

remove_mapping-IsInverse :
    (n : NamespacedName) (u : String) (pm : PodMapping)
    → IsInverse pm
    → get_uid_by_name n pm ≡ some u
    → IsInverse (remove_mapping n u pm)
remove_mapping-IsInverse n u pm i h = record {
  name_of_uid = λ j v. ground (
    arith,
    get_uid_by_name-remove_mapping j n u pm,
    get_name_by_uid-remove_mapping v n u pm,
    i.name_of_uid j v,
    i.name_of_uid n u,
  );
  uid_of_name = λ v j. ground (
    arith,
    get_uid_by_name-remove_mapping j n u pm,
    get_name_by_uid-remove_mapping v n u pm,
    i.uid_of_name v j,
    i.name_of_uid n u,
  );
}

remove_pod_by_name_cases :
    (n : NamespacedName) (pm : PodMapping)
    → ((get_uid_by_name n pm ≡ none) × (remove_pod_by_name n pm ≡ pm))
      ⊎ ((u : String) × (get_uid_by_name n pm ≡ some u)
          × (remove_pod_by_name n pm ≡ remove_mapping n u pm))
unfolding remove_pod_by_name get_uid_by_name
remove_pod_by_name_cases n pm = elim (Option-cases (Map.get n pm.name_to_uid)) [
  | inl e ↦ inl (e, ground arith)
  | inr (u, e) ↦ inr (u, e, ground arith)
]

remove_pod_by_name-IsInverse :
    (n : NamespacedName) (pm : PodMapping) → IsInverse pm → IsInverse (remove_pod_by_name n pm)
remove_pod_by_name-IsInverse n pm i = elim (remove_pod_by_name_cases n pm) [
  | inl (_, e) ↦ rw e i
  | inr (u, h, e) ↦ rw e (remove_mapping-IsInverse n u pm i h)
]

-- Removing names takes the UIDs of just these names away.
pub get_uid_by_name-remove_pods_by_name :
    (j : NamespacedName) (ns : List NamespacedName) (pm : PodMapping)
    → get_uid_by_name j (remove_pods_by_name ns pm)
      ≡ (if any (λ n. j == n) ns then none else get_uid_by_name j pm)
unfolding remove_pods_by_name
get_uid_by_name-remove_pods_by_name j [] pm = refl
get_uid_by_name-remove_pods_by_name j (n ∷ ns) pm = elim (remove_pod_by_name_cases n pm) [
  | inl (h, e) ↦
      rw (get_uid_by_name-remove_pods_by_name j ns (remove_pod_by_name n pm), e) (ground arith)
  | inr (u, h, e) ↦
      rw (get_uid_by_name-remove_pods_by_name j ns (remove_pod_by_name n pm), e)
        (ground (arith, get_uid_by_name-remove_mapping j n u pm))
]

pub remove_pods_by_name-IsInverse :
    (ns : List NamespacedName) (pm : PodMapping)
    → IsInverse pm
    → IsInverse (remove_pods_by_name ns pm)
unfolding remove_pods_by_name
remove_pods_by_name-IsInverse [] pm i = i
remove_pods_by_name-IsInverse (n ∷ ns) pm i =
    remove_pods_by_name-IsInverse ns (remove_pod_by_name n pm) (remove_pod_by_name-IsInverse n pm i)

remove_pod_by_uid_lem :
    (u : String) (n : NamespacedName) (pm : PodMapping)
    → get_name_by_uid u pm ≡ some n
    → (remove_pod_by_uid u pm).0 ≡ remove_mapping n u pm
unfolding remove_pod_by_uid get_name_by_uid
remove_pod_by_uid_lem u n pm h = ground arith

-- After a pod with a new UID is added under a name that another UID has, as when a pod is
-- recreated, the two lookups disagree: the name has the new UID and the old UID still has the name.
-- Removing the old UID then takes the name from the new one.
pub add_pod_recreated :
    (n : NamespacedName) (u v : String) (pm : PodMapping)
    → get_name_by_uid u pm ≡ some n
    → u ≢ v
    → (get_uid_by_name n (add_pod n v pm) ≡ some v)
      × (get_name_by_uid u (add_pod n v pm) ≡ some n)
      × (get_uid_by_name n (remove_pod_by_uid u (add_pod n v pm)).0 ≡ none)
      × (get_name_by_uid v (remove_pod_by_uid u (add_pod n v pm)).0 ≡ some n)
add_pod_recreated n u v pm h ne =
    let e = remove_pod_by_uid_lem u n (add_pod n v pm) in
    let k = get_name_by_uid-add_pod u n v pm in
    (
      ground (arith, get_uid_by_name-add_pod n n v pm),
      ground (arith, k),
      ground (arith, e, k, get_uid_by_name-remove_mapping n n u (add_pod n v pm)),
      ground (
        arith,
        e,
        k,
        get_name_by_uid-remove_mapping v n u (add_pod n v pm),
        get_name_by_uid-add_pod v n v pm,
      ),
    )
