-- ===== src/Tracker/State/Consistent.antt =====
-- internal/tracker/status_tracker.go: when the state of the tracker is consistent.
use model_validation_operato.Base.{
  ◌≡◌, refl, String, some, NamespacedName, key_eq, nat_eq, inl, inr, ℕ, subst, string_eq,
}
use model_validation_operato.Base.Map
use model_validation_operato.Base.Map.{Map}
use model_validation_operato.Tracker.Info.{ModelValidationInfo, new_model_validation_info}
use model_validation_operato.Tracker.Info.View.{IsWellFormed}
use model_validation_operato.Tracker.State.{StatusTracker, new_status_tracker, enqueue}
use model_validation_operato.Tracker.State.Counts.{count_in, CountsMatch}

-- Every resource is tracked once, its pods are well-formed, and the counters of the namespaces are
-- right.
pub record IsConsistent (st : StatusTracker) : Type 0 where
  pub nodup : Map.NodupKeys st.model_validations
  pub infos :
      (key : NamespacedName) (info : ModelValidationInfo)
      → Map.get key st.model_validations ≡ some info
      → IsWellFormed info
  pub counts : CountsMatch st.model_validations st.mv_namespaces

pub IsConsistent-new : IsConsistent new_status_tracker
unfolding new_status_tracker count_in Map.get
IsConsistent-new = record {
  nodup = tt;
  infos = λ key info h. cc;
  counts = record { counted = λ ns. refl; positive = λ ns n h. cc };
}

pub enqueue-IsConsistent :
    (key : NamespacedName) (st : StatusTracker) → IsConsistent st → IsConsistent (enqueue key st)
enqueue-IsConsistent key st c = record { nodup = c.nodup; infos = c.infos; counts = c.counts }

pub new-IsWellFormed : (n h a : String) (g : ℕ) → IsWellFormed (new_model_validation_info n h a g)
unfolding new_model_validation_info Map.get
new-IsWellFormed n h a g = record {
  injected_nodup = tt;
  orphaned_nodup = tt;
  uninjected_nodup = tt;
  of_injected = λ u p e. cc;
  of_orphaned = λ u p e. cc;
  of_uninjected = λ u p e. cc;
}

-- A well-formed resource put into the map keeps the resources well-formed.
pub put-infos :
    (key : NamespacedName) (info : ModelValidationInfo)
    (mvs : Map NamespacedName ModelValidationInfo)
    → ((j : NamespacedName) (i : ModelValidationInfo) → Map.get j mvs ≡ some i → IsWellFormed i)
    → IsWellFormed info
    → (j : NamespacedName) (i : ModelValidationInfo) → Map.get j (Map.put key info mvs) ≡ some i
    → IsWellFormed i
put-infos key info mvs h w j i e = elim (Map.get-put_cases j key info i mvs e) [
  | inl (_, q) ↦ subst IsWellFormed q w
  | inr q ↦ h j i q
]
