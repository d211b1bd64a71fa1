-- ===== src/Webhook/Args/Options.antt =====
-- internal/webhooks/pod_webhook.go against internal/validation/parse.go: the options that follow the
-- method, and the path of the model.
use mathlib.Core.List.{append-nil, append_assoc}
use model_validation_operato.Base.{
  ◌≡◌, refl, ◌∙◌, String, Bool, true, false, Option, none, some, List, [], ◌∷◌, ◌++◌, string_eq,
  nat_eq,
}
use model_validation_operato.Base.Text.{strip_prefix}
use model_validation_operato.Api.{Model, ValidationConfig, ClientTrustConfig}
use model_validation_operato.Validation.Parse.{Config, ok, kind, parse_loop, set_value, set_switch}
use model_validation_operato.Validation.Parse.Flags.{kind_positional}
use model_validation_operato.Webhook.Args.{
  trust_args, ignore_path_args, either_flag, symlink_args, option_args,
}

abbrev pub trust_path : Option ClientTrustConfig → String
trust_path none = ""
trust_path (some c) = c.trust_config_path

-- The agent cannot be told to refuse symbolic links: this is its default.
abbrev pub only_true : Option Bool → Option Bool
only_true none = none
only_true (some true) = some true
only_true (some false) = none

-- The options that follow, and the path.
abbrev pub with_options : ValidationConfig → Model → Config → Config
with_options cfg model c = record c {
  model_path = model.path;
  trust_config_path = trust_path cfg.client_trust_config;
  ignore_paths = model.ignore_paths;
  ignore_git_paths = model.ignore_git_paths;
  ignore_unsigned_files = model.ignore_unsigned_files;
  allow_symlinks = only_true model.allow_symlinks;
}

parse_loop-trust_args :
    (o : Option ClientTrustConfig) (rest : List String) (c : Config)
    → c.trust_config_path ≡ ""
    → parse_loop (trust_args o ++ rest) none c
      ≡ parse_loop rest none (record c { trust_config_path = trust_path o })
unfolding parse_loop trust_args kind string_eq set_value strip_prefix nat_eq
parse_loop-trust_args none rest c h = rw h
parse_loop-trust_args (some t) rest c h = refl

parse_loop-ignore_path_args :
    (paths rest : List String) (c : Config)
    → parse_loop (ignore_path_args paths ++ rest) none c
      ≡ parse_loop rest none (record c { ignore_paths = c.ignore_paths ++ paths })
unfolding parse_loop ignore_path_args kind string_eq set_value strip_prefix nat_eq
parse_loop-ignore_path_args [] rest c = rw append-nil
parse_loop-ignore_path_args (p ∷ paths) rest c =
    parse_loop-ignore_path_args paths rest _ ∙ rw append_assoc

parse_loop-git_flag :
    (o : Option Bool) (rest : List String) (c : Config)
    → c.ignore_git_paths ≡ none
    → parse_loop (either_flag "--ignore-git-paths" "--no-ignore-git-paths" o ++ rest) none c
      ≡ parse_loop rest none (record c { ignore_git_paths = o })
unfolding parse_loop kind string_eq set_switch strip_prefix nat_eq
parse_loop-git_flag none rest c h = rw h
parse_loop-git_flag (some true) rest c h = refl
parse_loop-git_flag (some false) rest c h = refl

parse_loop-unsigned_flag :
    (o : Option Bool) (rest : List String) (c : Config)
    → c.ignore_unsigned_files ≡ none
    → parse_loop
        (either_flag "--ignore_unsigned_files" "--no-ignore_unsigned_files" o ++ rest)
        none
        c
      ≡ parse_loop rest none (record c { ignore_unsigned_files = o })
unfolding parse_loop kind string_eq set_switch strip_prefix nat_eq
parse_loop-unsigned_flag none rest c h = rw h
parse_loop-unsigned_flag (some true) rest c h = refl
parse_loop-unsigned_flag (some false) rest c h = refl

parse_loop-symlink_args :
    (o : Option Bool) (rest : List String) (c : Config)
    → c.allow_symlinks ≡ none
    → parse_loop (symlink_args o ++ rest) none c
      ≡ parse_loop rest none (record c { allow_symlinks = only_true o })
unfolding parse_loop kind string_eq set_switch symlink_args strip_prefix nat_eq
parse_loop-symlink_args none rest c h = rw h
parse_loop-symlink_args (some true) rest c h = refl
parse_loop-symlink_args (some false) rest c h = rw h

parse_loop-path :
    (path : String) (c : Config)
    → strip_prefix "-" path ≡ none
    → parse_loop (path ∷ []) none c ≡ ok (record c { model_path = path })
unfolding parse_loop
parse_loop-path path c h = rw (kind_positional path h, parse_loop)

-- No option has been read yet.
pub record NoOptions (c : Config) : Type 0 where
  pub trust : c.trust_config_path ≡ ""
  pub paths : c.ignore_paths ≡ []
  pub git : c.ignore_git_paths ≡ none
  pub unsigned : c.ignore_unsigned_files ≡ none
  pub symlinks : c.allow_symlinks ≡ none

pub parse_loop-option_args :
    (cfg : ValidationConfig) (model : Model) (c : Config)
    → NoOptions c
    → strip_prefix "-" model.path ≡ none
    → parse_loop (option_args cfg model ++ (model.path ∷ [])) none c ≡ ok (with_options cfg model c)
unfolding option_args
parse_loop-option_args cfg model c n h = simp append_assoc (
    parse_loop-trust_args cfg.client_trust_config _ c n.trust
    ∙ parse_loop-ignore_path_args model.ignore_paths _ _
    ∙ parse_loop-git_flag model.ignore_git_paths _ _ n.git
    ∙ parse_loop-unsigned_flag model.ignore_unsigned_files _ _ n.unsigned
    ∙ parse_loop-symlink_args model.allow_symlinks _ _ n.symlinks
    ∙ parse_loop-path model.path _ h
    ∙ rw n.paths)
