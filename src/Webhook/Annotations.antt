-- ===== src/Webhook/Annotations.antt =====
-- internal/webhooks/pod_webhook.go: the settings of a resource that a pod's annotations override.
pub mod Laws
use model_validation_operato.Base.{
  String, Bool, Option, none, some, List, [], ◌∷◌, map, ◌==◌, string_eq, if◌then◌else◌,
}
use model_validation_operato.Base.Map
use model_validation_operato.Base.Map.{Map}
use model_validation_operato.Base.Text.{split, trim_space, parse_bool}
use model_validation_operato.Constants.{
  ignore_paths_annotation_key, ignore_git_paths_annotation_key,
  ignore_unsigned_files_annotation_key, allow_symlinks_annotation_key,
}
use model_validation_operato.Api.{Model}

abbrev pub Annotations : Type 0
Annotations = Map String String

-- The value, if the annotation is there and can be parsed.
unfoldable pub parse_bool_annotation : Annotations → String → Option Bool
parse_bool_annotation annotations key = elim (Map.get key annotations) [
  | none ↦ none
  | some raw ↦ parse_bool (trim_space raw)
]

-- The loop that trims the paths and drops the empty ones.
unfoldable pub valid_paths : List String → List String
valid_paths [] = []
valid_paths (path ∷ paths) =
    let rest = valid_paths paths in
    let trimmed = trim_space path in if trimmed == "" then rest else trimmed ∷ rest

-- No paths keep the setting of the resource.
abbrev pub replace_paths : List String → List String → List String
replace_paths paths [] = paths
replace_paths paths (p ∷ ps) = p ∷ ps

-- An annotation that is missing or empty keeps it too.
unfoldable pub merged_ignore_paths : List String → Option String → List String
merged_ignore_paths paths none = paths
merged_ignore_paths paths (some text) =
    if text == "" then paths else replace_paths paths (valid_paths (split b',' text))

abbrev pub override : Option Bool → Option Bool → Option Bool
override setting none = setting
override setting (some b) = some b

unfoldable pub merge_model_with_annotations : Model → Annotations → Model
unfolding parse_bool_annotation merged_ignore_paths
merge_model_with_annotations model annotations = record model {
  ignore_paths =
      merged_ignore_paths model.ignore_paths (Map.get ignore_paths_annotation_key annotations);
  ignore_git_paths =
      override model.ignore_git_paths
        (parse_bool_annotation annotations ignore_git_paths_annotation_key);
  ignore_unsigned_files =
      override model.ignore_unsigned_files
        (parse_bool_annotation annotations ignore_unsigned_files_annotation_key);
  allow_symlinks =
      override model.allow_symlinks
        (parse_bool_annotation annotations allow_symlinks_annotation_key);
}
