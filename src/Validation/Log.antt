-- ===== src/Validation/Log.antt =====
-- internal/validation/validate.go, logrAdapter: the log of the operator behind the interface of the
-- log of model-transparency-go. A logger of logr and fmt.Sprintf are parameters.
use model_validation_operato.Base.{
  ◌≡◌, refl, String, ◌<>◌, Bool, false, none, some, List, [], ◌∷◌, arith, string_eq, ◌==◌,
  if◌then◌else◌,
}
use model_validation_operato.Base.Map
use model_validation_operato.Base.Map.{Map}

-- What an adapter needs of its logger: the line that Info and Error make of a message, the logger of
-- a higher verbosity, whether a logger writes at all, and a logger with more values.
pub record Logr (Logger Value Line : Type 0) : Type 0 where
  pub info : Logger → String → Line
  pub error : Logger → String → Line
  pub verbose : Logger → Logger
  pub is_enabled : Logger → Bool
  pub with_values : Logger → List (String × Value) → Logger

pub data LogLevel : Type 0 where
  level_debug level_info : LogLevel

module _ {Logger Value Line : Type 0} (L : Logr Logger Value Line)
    (sprintf : String → List Value → String) where
  pub record LogrAdapter : Type 0 where
    pub logger : Logger
    pub fields : Map String Value

  unfoldable pub log_debug : String → List Value → LogrAdapter → Line
  log_debug format args a = L.info (L.verbose a.logger) (sprintf format args)

  unfoldable pub log_debugln : String → LogrAdapter → Line
  log_debugln msg a = L.info (L.verbose a.logger) msg

  unfoldable pub log_info : String → List Value → LogrAdapter → Line
  log_info format args a = L.info a.logger (sprintf format args)

  unfoldable pub log_infoln : String → LogrAdapter → Line
  log_infoln msg a = L.info a.logger msg

  unfoldable pub log_warn : String → List Value → LogrAdapter → Line
  log_warn format args a = L.info a.logger (sprintf ("[WARN] " <> format) args)

  unfoldable pub log_warnln : String → LogrAdapter → Line
  log_warnln msg a = L.info a.logger ("[WARN] " <> msg)

  unfoldable pub log_error : String → List Value → LogrAdapter → Line
  log_error format args a = L.error a.logger (sprintf format args)

  unfoldable pub log_errorln : String → LogrAdapter → Line
  log_errorln msg a = L.error a.logger msg

  unfoldable pub get_level : LogrAdapter → LogLevel
  get_level a = if L.is_enabled (L.verbose a.logger) then level_debug else level_info

  unfoldable pub is_silent : LogrAdapter → Bool
  is_silent a = false

  -- The loops that copy the fields, which are written over those that are there.
  unfoldable pub put_all : Map String Value → Map String Value → Map String Value
  put_all [] m = m
  put_all ((k, v) ∷ fields) m = put_all fields (Map.put k v m)

  unfoldable pub with_field : String → Value → LogrAdapter → LogrAdapter
  unfolding put_all
  with_field k v a = record {
    logger = L.with_values a.logger ((k, v) ∷ []);
    fields = Map.put k v (put_all a.fields []);
  }

  unfoldable pub with_fields : Map String Value → LogrAdapter → LogrAdapter
  unfolding put_all
  with_fields fields a = record {
    logger = L.with_values a.logger fields;
    fields = put_all fields (put_all a.fields []);
  }

  get-put_all :
      (j : String) (fields m : Map String Value)
      → Map.NodupKeys fields
      → Map.get j (put_all fields m)
        ≡ (elim (Map.get j fields) [ some v ↦ some v | none ↦ Map.get j m ])
  unfolding put_all Map.get
  get-put_all j [] m n = refl
  get-put_all j ((k, v) ∷ fields) m (fresh, n) =
      ground (arith, get-put_all j fields (Map.put k v m) n, Map.get-put j k v m)

  put_all_onto_none :
      (j : String) (fields : Map String Value)
      → Map.NodupKeys fields
      → Map.get j (put_all fields []) ≡ Map.get j fields
  unfolding Map.get
  put_all_onto_none j fields n = ground (arith, get-put_all j fields [] n)

  -- The fields of a new adapter are the given ones, and those of the old adapter that they leave.
  pub get-with_fields :
      (j : String) (fields : Map String Value) (a : LogrAdapter)
      → Map.NodupKeys fields
      → Map.NodupKeys a.fields
      → Map.get j (with_fields fields a).fields
        ≡ (elim (Map.get j fields) [ some v ↦ some v | none ↦ Map.get j a.fields ])
  unfolding with_fields
  get-with_fields j fields a n m =
      ground (arith, get-put_all j fields (put_all a.fields []) n, put_all_onto_none j a.fields m)

  pub get-with_field :
      (j k : String) (v : Value) (a : LogrAdapter)
      → Map.NodupKeys a.fields
      → Map.get j (with_field k v a).fields ≡ (if j == k then some v else Map.get j a.fields)
  unfolding with_field
  get-with_field j k v a m =
      ground (arith, Map.get-put j k v (put_all a.fields []), put_all_onto_none j a.fields m)
