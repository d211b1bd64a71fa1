-- ===== src/Webhook/Annotations/Laws.antt =====
-- internal/webhooks/pod_webhook.go: what a pod's annotations can and cannot change.
use model_validation_operato.Base.{
  ◌≡◌, ◌≢◌, refl, String, Option, none, some, List, [], ◌∷◌, arith, All, ◌⊎◌, inl, inr, ◌==◌,
  string_eq, Bool-cases,
}
use model_validation_operato.Base.Map
use model_validation_operato.Base.Text.{split}
use model_validation_operato.Api.{Model}
use model_validation_operato.Constants.{
  ignore_paths_annotation_key, ignore_git_paths_annotation_key,
  ignore_unsigned_files_annotation_key, allow_symlinks_annotation_key,
}
use model_validation_operato.Webhook.Annotations.{
  Annotations, merge_model_with_annotations, valid_paths, merged_ignore_paths, replace_paths,
  parse_bool_annotation,
}

valid_paths_nonempty : (paths : List String) → All (λ p. p ≢ "") (valid_paths paths)
unfolding valid_paths
valid_paths_nonempty [] = tt
valid_paths_nonempty (p ∷ ps) = ground (arith, valid_paths_nonempty ps)

module _ (paths : List String) where
  -- The setting of the resource, or paths of which none is empty.
  abbrev pub IsMerged : List String → Type 0
  IsMerged ps = (ps ≡ paths) ⊎ All (λ p. p ≢ "") ps

  replace_paths_cases :
      (ps : List String) → All (λ p. p ≢ "") ps → IsMerged (replace_paths paths ps)
  replace_paths_cases [] h = inl refl
  replace_paths_cases (p ∷ ps) h = inr h

  merged_ignore_paths_cases : (text : Option String) → IsMerged (merged_ignore_paths paths text)
  unfolding merged_ignore_paths
  merged_ignore_paths_cases none = inl refl
  merged_ignore_paths_cases (some text) = elim (Bool-cases (text == "")) [
    | inl e ↦ rw e (inl refl)
    | inr e ↦ rw e (
        replace_paths_cases (valid_paths (split b',' text))
          (valid_paths_nonempty (split b',' text)))
  ]

-- Annotations never change the model's path or its signature path, and the merged paths to ignore
-- are those of the resource or a list in which no path is empty.
pub merge_model_with_annotations_keeps :
    (model : Model) (annotations : Annotations)
    → ((merge_model_with_annotations model annotations).path ≡ model.path)
      × (((merge_model_with_annotations model annotations).signature_path ≡ model.signature_path)
          × IsMerged model.ignore_paths
              (merge_model_with_annotations model annotations).ignore_paths)
unfolding merge_model_with_annotations
merge_model_with_annotations_keeps model annotations = (
  refl,
  (
    refl,
    merged_ignore_paths_cases model.ignore_paths (Map.get ignore_paths_annotation_key annotations),
  ),
)

parse_bool_annotation_absent :
    (annotations : Annotations) (key : String)
    → Map.get key annotations ≡ none
    → parse_bool_annotation annotations key ≡ none
unfolding parse_bool_annotation
parse_bool_annotation_absent annotations key h = rw (h, parse_bool_annotation) refl

-- Without any of the four annotations the merge changes nothing.
pub merge_model_with_annotations_idle :
    (model : Model) (annotations : Annotations)
    → Map.get ignore_paths_annotation_key annotations ≡ none
    → Map.get ignore_git_paths_annotation_key annotations ≡ none
    → Map.get ignore_unsigned_files_annotation_key annotations ≡ none
    → Map.get allow_symlinks_annotation_key annotations ≡ none
    → merge_model_with_annotations model annotations ≡ model
unfolding merge_model_with_annotations merged_ignore_paths
merge_model_with_annotations_idle model annotations h i j k =
    rw
      (
        h,
        parse_bool_annotation_absent annotations ignore_git_paths_annotation_key i,
        parse_bool_annotation_absent annotations ignore_unsigned_files_annotation_key j,
        parse_bool_annotation_absent annotations allow_symlinks_annotation_key k,
      )
      refl
