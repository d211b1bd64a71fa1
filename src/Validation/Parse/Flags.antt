-- ===== src/Validation/Parse/Flags.antt =====
-- internal/validation/parse.go: which arguments are flags.
use model_validation_operato.Base.{
  ◌≡◌, ◌≢◌, refl, String, none, some, arith, ◌<>◌, string_eq, ap, nat_eq,
}
use model_validation_operato.Base.Text.{strip_prefix, strip_prefix-append}
use model_validation_operato.Validation.Parse.{kind, signature, positional, kind_of_flag}

not_signature :
    (arg : String) → strip_prefix "-" arg ≡ none → strip_prefix "--signature=" arg ≡ none
unfolding strip_prefix
not_signature String.[] h = refl
not_signature (String.◌∷◌ c s) h = ground arith

ne_flag :
    (arg flag rest : String)
    → strip_prefix "-" flag ≡ some rest
    → strip_prefix "-" arg ≡ none
    → arg ≢ flag
ne_flag arg flag rest f h e = cc (ap (strip_prefix "-") e)

not_flag : (arg : String) → strip_prefix "-" arg ≡ none → kind_of_flag arg ≡ positional
unfolding kind_of_flag strip_prefix nat_eq
not_flag arg h = ground (
  arith,
  ne_flag arg "--identity" "-identity" refl h,
  ne_flag arg "--identity_provider" "-identity_provider" refl h,
  ne_flag arg "--public_key" "-public_key" refl h,
  ne_flag arg "--certificate_chain" "-certificate_chain" refl h,
  ne_flag arg "--trust_config" "-trust_config" refl h,
  ne_flag arg "--ignore-paths" "-ignore-paths" refl h,
  ne_flag arg "--ignore-git-paths" "-ignore-git-paths" refl h,
  ne_flag arg "--no-ignore-git-paths" "-no-ignore-git-paths" refl h,
  ne_flag arg "--ignore_unsigned_files" "-ignore_unsigned_files" refl h,
  ne_flag arg "--no-ignore_unsigned_files" "-no-ignore_unsigned_files" refl h,
  ne_flag arg "--allow_symlinks" "-allow_symlinks" refl h,
)

-- An argument that does not begin with a dash is no flag.
pub kind_positional : (arg : String) → strip_prefix "-" arg ≡ none → kind arg ≡ positional
unfolding kind
kind_positional arg h = rw (not_signature arg h, kind) (not_flag arg h)

pub kind_signature : (path : String) → kind ("--signature=" <> path) ≡ signature path
unfolding kind
kind_signature path = rw (strip_prefix-append "--signature=" path, kind)
