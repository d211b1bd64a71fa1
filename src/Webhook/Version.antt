-- ===== src/Webhook/Version.antt =====
-- internal/webhooks/version.go: does the cluster support native sidecars? The texts are what the
-- discovery client gives.
pub mod Suffix
use Prim.Native.Char.{Char, code}
use Prim.Native.Nat.{zero, suc}
use mathlib.Core.Option.{map as map_option}
use model_validation_operato.Base.{
  ℤ, pos, negsuc, ℕ, ◌*◌, ◌+◌, ◌-◌, ◌^◌, String, Bool, true, false, ◌&&◌, ◌||◌, Option, none, some,
  ◌==◌, nat_eq, ltb, leb, if◌then◌else◌,
}

-- `c >= '0' && c <= '9'`
abbrev pub is_digit : Char → Bool
is_digit c = leb b'0' (code c) && leb (code c) b'9'

-- The value of the digits behind some digits; none if there is another character.
unfoldable pub digits_value : ℕ → String → Option ℕ
digits_value value String.[] = some value
digits_value value (String.◌∷◌ c s) =
    let rest = digits_value (value * 10 + (code c - b'0')) s in if is_digit c then rest else none

-- The digits of a text that has some, up to a bound.
abbrev digits_below : ℕ → String → Option ℕ
digits_below bound String.[] = none
digits_below bound (String.◌∷◌ c s) = elim (digits_value 0 (String.◌∷◌ c s)) [
  | none ↦ none
  | some n ↦ if ltb n bound then some n else none
]

abbrev negate : ℕ → ℤ
negate zero = pos 0
negate (suc n) = negsuc n

-- strconv.Atoi, for an int of 64 bits.
unfoldable pub atoi : String → Option ℤ
unfolding digits_value
atoi String.[] = none
atoi (String.◌∷◌ c s) =
    if code c == b'-'
    then map_option negate (digits_below (2 ^ 63 + 1) s)
    else if code c == b'+'
    then map_option pos (digits_below (2 ^ 63) s)
    else map_option pos (digits_below (2 ^ 63) (String.◌∷◌ c s))

-- The loop that cuts the minor version at its first character that is no digit.
unfoldable pub leading_digits : String → String
leading_digits String.[] = String.[]
leading_digits (String.◌∷◌ c s) =
    let rest = leading_digits s in if is_digit c then String.◌∷◌ c rest else String.[]

-- The check of the two numbers: 1.28 and above.
abbrev pub supports : ℤ → ℤ → Bool
supports (pos major) (pos minor) = ltb 1 major || (major == 1 && leb 28 minor)
supports (pos major) (negsuc minor) = ltb 1 major
supports (negsuc major) minor = false

-- The two conversions and the check, on a minor version that is cut.
unfoldable pub check_version : String → String → Option Bool
unfolding atoi
check_version major minor = elim (atoi major) [
  | none ↦ none
  | some m ↦ elim (atoi minor) [ none ↦ none | some n ↦ some (supports m n) ]
]

-- `none` is the error, for a version that cannot be had or parsed.
unfoldable pub native_sidecar_support : Option (String × String) → Option Bool
unfolding check_version leading_digits
native_sidecar_support none = none
native_sidecar_support (some (major, minor)) = check_version major (leading_digits minor)
