-- ===== src/Operator/Environment.antt =====
-- internal/utils/utils.go: flags that an environment variable can set.
use model_validation_operato.Base.{
  ◌≡◌, ◌≢◌, refl, String, Bool, true, ◌||◌, Option, none, some, ◌==◌, string_eq, if◌then◌else◌,
  arith, inl, inr, Bool-cases,
}

-- What the flag package gives: the value of the command line, or the default that was registered.
abbrev pub flag_value : {A : Type 0} → Option A → A → A
flag_value (some given) default = given
flag_value none default = default

-- `given` is the flag on the command line, `env_value` the environment variable.
unfoldable pub string_flag_or_env : Option String → String → String → String
string_flag_or_env given env_value default =
    flag_value given (if env_value == "" then default else env_value)

abbrev is_true : String → Bool
is_true env_value = (env_value == "true") || ((env_value == "1") || (env_value == "yes"))

unfoldable pub bool_flag_or_env : Option Bool → String → Bool → Bool
bool_flag_or_env given env_value default =
    flag_value given (if is_true env_value then true else default)

-- The flag of the command line has precedence over the environment, and a variable that is set over
-- the default.
pub data IsPrecedence (given : Option String) (env_value default : String) : String → Type 0 where
  by_flag : (v : String) → given ≡ some v → IsPrecedence given env_value default v
  by_env : given ≡ none → env_value ≢ "" → IsPrecedence given env_value default env_value
  by_default : given ≡ none → env_value ≡ "" → IsPrecedence given env_value default default

pub string_flag_or_env-IsPrecedence :
    (given : Option String) (env_value default : String)
    → IsPrecedence given env_value default (string_flag_or_env given env_value default)
unfolding string_flag_or_env
string_flag_or_env-IsPrecedence (some v) env_value default = by_flag v refl
string_flag_or_env-IsPrecedence none env_value default = elim (Bool-cases (env_value == "")) [
  | inl e ↦ rw e (by_default refl (ground arith))
  | inr e ↦ rw e (by_env refl (λ h. ground arith))
]
