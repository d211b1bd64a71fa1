-- ===== src/Tracker/Info/Drift.antt =====
-- internal/tracker/model_validation_info.go: `UpdateConfig`, when the resource gets a new
-- configuration.
use model_validation_operato.Base.{
  false, ◌≢◌, ◌≡◌, refl, ℕ, String, none, some, List, [], arith, inl, inr, Option-cases, ◌⊎◌, sym,
  string_eq, if◌then◌else◌,
}
use model_validation_operato.Base.Map
use model_validation_operato.Base.Map.{Map}
use model_validation_operato.Metrics.{untracked, injected, uninjected, orphaned}
use model_validation_operato.Tracker.Info.{
  PodInfo, ModelValidationInfo, is_drifted, drifted_pods, move_to_orphaned, update_config,
}
use model_validation_operato.Tracker.Info.View.{View, view, IsWellFormed}
use model_validation_operato.Tracker.Info.Orphans.{
  find, DistinctUids, or_found, unless_found, if_drifted, KeyedByUid, KeyedByUid-of_get,
  find-drifted_pods, drifted_pods-DistinctUids, injected-move_to_orphaned,
  orphaned-move_to_orphaned, uninjected-move_to_orphaned, move_to_orphaned-NodupPods, HasConfig,
  move_to_orphaned-HasConfig,
}

-- How a pod's state follows the configuration: only an injected pod can lose its state.
abbrev pub reclassify : String → String → View → View
reclassify h a none = none
reclassify h a (some (untracked, p)) = some (untracked, p)
reclassify h a (some (injected, p)) =
    if is_drifted h a p then some (orphaned, p) else some (injected, p)
reclassify h a (some (uninjected, p)) = some (uninjected, p)
reclassify h a (some (orphaned, p)) = some (orphaned, p)

module _ (h a : String) (g : ℕ) (m : ModelValidationInfo) (w : IsWellFormed m) where
  abbrev drifted : List PodInfo
  drifted = drifted_pods h a m.injected_pods

  abbrev configured : ModelValidationInfo
  configured = record m { config_hash = h; auth_method = a; observed_generation = g }

  keyed : KeyedByUid m.injected_pods
  keyed = KeyedByUid-of_get m.injected_pods w.injected_nodup λ u p e. (w.of_injected u p e).0

  found : (u : String) → find u drifted ≡ if_drifted h a (Map.get u m.injected_pods)
  found u = find-drifted_pods h a u m.injected_pods w.injected_nodup keyed

  distinct : DistinctUids drifted
  distinct = drifted_pods-DistinctUids h a m.injected_pods w.injected_nodup keyed

  injected_after :
      (u : String)
      → Map.get u (move_to_orphaned drifted configured).injected_pods
        ≡ unless_found (if_drifted h a (Map.get u m.injected_pods)) (Map.get u m.injected_pods)
  injected_after u = rw (injected-move_to_orphaned u drifted configured) (rw (found u))

  orphaned_after :
      (u : String)
      → Map.get u (move_to_orphaned drifted configured).orphaned_pods
        ≡ or_found (if_drifted h a (Map.get u m.injected_pods)) (Map.get u m.orphaned_pods)
  orphaned_after u = rw (orphaned-move_to_orphaned u drifted configured distinct) (rw (found u))

  view-move_to_orphaned :
      (u : String) → view u (move_to_orphaned drifted configured) ≡ reclassify h a (view u m)
  unfolding view
  view-move_to_orphaned u =
      rw (injected_after u, orphaned_after u, uninjected-move_to_orphaned drifted configured)
        (ground arith)

  move_to_orphaned-IsWellFormed : IsWellFormed (move_to_orphaned drifted configured)
  move_to_orphaned-IsWellFormed =
      let n = move_to_orphaned-NodupPods drifted configured (w.injected_nodup, w.orphaned_nodup) in
      let c = move_to_orphaned-HasConfig h a g m.name drifted configured (refl, refl, refl, refl) in
      let e = uninjected-move_to_orphaned drifted configured in
      record {
        injected_nodup = n.0;
        orphaned_nodup = n.1;
        uninjected_nodup = rw e w.uninjected_nodup;
        of_injected =
            λ u p. ground (arith, c, e, injected_after u, orphaned_after u, w.of_injected u p);
        of_orphaned =
            λ u p. ground (arith, e, orphaned_after u, w.of_injected u p, w.of_orphaned u p);
        of_uninjected = rw e w.of_uninjected;
      }

  -- Under the invariant a configuration that is the same leaves every pod where it is.
  reclassify-same :
      m.config_hash ≡ h → m.auth_method ≡ a → (u : String) → reclassify h a (view u m) ≡ view u m
  unfolding view
  reclassify-same eh ea u = elim (Option-cases (Map.get u m.injected_pods)) [
    | inl e ↦ ground arith
    | inr (p, e) ↦ ground (arith, w.of_injected u p e)
  ]

  update_config_cases :
      ((m.config_hash ≡ h)
        × (m.auth_method ≡ a)
        × (update_config h a g m ≡ (record m { observed_generation = g }, [])))
      ⊎ (update_config h a g m ≡ (move_to_orphaned drifted configured, drifted))
  unfolding update_config
  update_config_cases = ground arith

  -- After `UpdateConfig` an injected pod whose annotations differ from the new configuration is
  -- orphaned and every other pod has the state and the record that it had; the resource has the
  -- new configuration and generation; the returned pods are the injected ones that drifted.
  pub update_config_lem :
      (u : String)
      → (view u (update_config h a g m).0 ≡ reclassify h a (view u m))
        × HasConfig h a g m.name (update_config h a g m).0
        × (find u (update_config h a g m).1 ≡ if_drifted h a (Map.get u m.injected_pods))
  unfolding view
  update_config_lem u = elim update_config_cases [
    | inl (eh, ea, e) ↦ rw e (
      sym (reclassify-same eh ea u),
      (eh, ea, refl, refl),
      elim (Option-cases (Map.get u m.injected_pods)) [
        | inl f ↦ rw f
        | inr (p, f) ↦ ground (arith, w.of_injected u p f)
      ],
    )
    | inr e ↦ rw e (
      view-move_to_orphaned u,
      move_to_orphaned-HasConfig h a g m.name drifted configured (refl, refl, refl, refl),
      found u,
    )
  ]

  pub update_config-IsWellFormed : IsWellFormed (update_config h a g m).0
  update_config-IsWellFormed = elim update_config_cases [
    | inl (eh, ea, e) ↦ rw e (record {
      injected_nodup = w.injected_nodup;
      orphaned_nodup = w.orphaned_nodup;
      uninjected_nodup = w.uninjected_nodup;
      of_injected = w.of_injected;
      of_orphaned = w.of_orphaned;
      of_uninjected = w.of_uninjected;
    })
    | inr e ↦ rw e move_to_orphaned-IsWellFormed
  ]

-- A pod that drift has made orphaned stays orphaned when the resource goes back to the
-- configuration under which the pod was injected, though its annotations match again: for every
-- injected pod with a configuration hash and every other hash in between.
pub update_config_back :
    (u h : String) (g g' : ℕ) (p : PodInfo) (m : ModelValidationInfo)
    → IsWellFormed m
    → Map.get u m.injected_pods ≡ some p
    → p.config_hash ≢ ""
    → h ≢ m.config_hash
    → (view u (update_config m.config_hash m.auth_method g' (update_config h m.auth_method g m).0).0
        ≡ some (orphaned, p))
      × (is_drifted m.config_hash m.auth_method p ≡ false)
unfolding view is_drifted
update_config_back u h g g' p m w e ne hne =
    let (s, _, _) = update_config_lem h m.auth_method g m w u in
    let m' = (update_config h m.auth_method g m).0 in
    let (s', _, _) =
      update_config_lem m.config_hash m.auth_method g' m'
        (update_config-IsWellFormed h m.auth_method g m w) u in
    (ground (arith, s, s', w.of_injected u p e), (w.of_injected u p e).3)
