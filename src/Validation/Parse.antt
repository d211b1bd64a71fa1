-- ===== src/Validation/Parse.antt =====
-- internal/validation/parse.go: the arguments of the validation agent.
pub mod Flags
use model_validation_operato.Base.{
  String, Bool, true, false, Option, none, some, List, [], ◌∷◌, ◌++◌, ◌==◌, ◌||◌, string_eq,
  if◌then◌else◌,
}
use model_validation_operato.Base.Text.{strip_prefix}

pub record Config : Type 0 where
  pub method : String
  pub model_path : String
  pub signature_path : String
  pub identity : String
  pub identity_provider : String
  pub public_key_path : String
  pub certificate_chain_path : String
  pub trust_config_path : String
  pub ignore_paths : List String
  pub ignore_git_paths : Option Bool
  pub ignore_unsigned_files : Option Bool
  pub allow_symlinks : Option Bool

-- The flags that take the next argument for their value.
pub data ValueFlag : Type 0 where
  identity identity_provider public_key certificate_chain trust_config ignore_paths : ValueFlag

-- The flags that stand alone.
pub data Switch : Type 0 where
  ignore_git_paths no_ignore_git_paths ignore_unsigned_files no_ignore_unsigned_files : Switch
  allow_symlinks : Switch

-- The cases of the switch on an argument.
pub data ArgKind : Type 0 where
  signature : String → ArgKind
  value_flag : ValueFlag → ArgKind
  switch : Switch → ArgKind
  positional : ArgKind

kind_of_flag : String → ArgKind
kind_of_flag arg =
    if arg == "--identity"
    then value_flag identity
    else if arg == "--identity_provider"
    then value_flag identity_provider
    else if arg == "--public_key"
    then value_flag public_key
    else if arg == "--certificate_chain"
    then value_flag certificate_chain
    else if arg == "--trust_config"
    then value_flag trust_config
    else if arg == "--ignore-paths"
    then value_flag ignore_paths
    else if arg == "--ignore-git-paths"
    then switch ignore_git_paths
    else if arg == "--no-ignore-git-paths"
    then switch no_ignore_git_paths
    else if arg == "--ignore_unsigned_files"
    then switch ignore_unsigned_files
    else if arg == "--no-ignore_unsigned_files"
    then switch no_ignore_unsigned_files
    else if arg == "--allow_symlinks"
    then switch allow_symlinks
    else positional

unfoldable pub kind : String → ArgKind
unfolding kind_of_flag
kind arg = elim (strip_prefix "--signature=" arg) [
  | some path ↦ signature path
  | none ↦ kind_of_flag arg
]

unfoldable pub set_value : ValueFlag → String → Config → Config
set_value identity v cfg = record cfg { identity = v }
set_value identity_provider v cfg = record cfg { identity_provider = v }
set_value public_key v cfg = record cfg { public_key_path = v }
set_value certificate_chain v cfg = record cfg { certificate_chain_path = v }
set_value trust_config v cfg = record cfg { trust_config_path = v }
set_value ignore_paths v cfg = record cfg { ignore_paths = cfg.ignore_paths ++ (v ∷ []) }

unfoldable pub set_switch : Switch → Config → Config
set_switch ignore_git_paths cfg = record cfg { ignore_git_paths = some true }
set_switch no_ignore_git_paths cfg = record cfg { ignore_git_paths = some false }
set_switch ignore_unsigned_files cfg = record cfg { ignore_unsigned_files = some true }
set_switch no_ignore_unsigned_files cfg = record cfg { ignore_unsigned_files = some false }
set_switch allow_symlinks cfg = record cfg { allow_symlinks = some true }

-- The errors, without the positions that their messages name.
pub data ParseError : Type 0 where
  too_few_arguments : ParseError
  not_verify : String → ParseError
  unknown_method : String → ParseError
  requires_value : ValueFlag → ParseError
  unexpected_argument : String → ParseError
  missing_model_path : ParseError

pub data Result {ℓ} (A : Type ℓ) : Type ℓ where
  ok : A → Result A
  err : ParseError → Result A

-- The loop over the arguments behind the method. While a flag waits for its value, the value is
-- the next argument, whatever it looks like.
unfoldable pub parse_loop : List String → Option ValueFlag → Config → Result Config
parse_loop [] (some f) cfg = err (requires_value f)
parse_loop (v ∷ rest) (some f) cfg = parse_loop rest none (set_value f v cfg)
parse_loop [] none cfg = ok cfg
parse_loop (arg ∷ rest) none cfg = elim (kind arg) [
  | signature path ↦ parse_loop rest none (record cfg { signature_path = path })
  | value_flag f ↦ parse_loop rest (some f) cfg
  | switch s ↦ parse_loop rest none (set_switch s cfg)
  | positional ↦ elim rest [
    | [] ↦ ok (record cfg { model_path = arg })
    | _ ∷ _ ↦ err (unexpected_argument arg)
  ]
]

abbrev pub empty_config : String → Config
empty_config method = record {
  method = method;
  model_path = "";
  signature_path = "";
  identity = "";
  identity_provider = "";
  public_key_path = "";
  certificate_chain_path = "";
  trust_config_path = "";
  ignore_paths = [];
  ignore_git_paths = none;
  ignore_unsigned_files = none;
  allow_symlinks = none;
}

abbrev pub is_method : String → Bool
is_method m = m == "sigstore" || (m == "key" || m == "certificate")

abbrev pub check_path : Result Config → Result Config
check_path (err e) = err e
check_path (ok cfg) = if cfg.model_path == "" then err missing_model_path else ok cfg

unfoldable pub parse_args : List String → Result Config
parse_args (verb ∷ method ∷ arg ∷ rest) =
    if verb == "verify"
    then (if is_method method
        then check_path (parse_loop (arg ∷ rest) none (empty_config method))
        else err (unknown_method method))
    else err (not_verify verb)
parse_args _ = err too_few_arguments
