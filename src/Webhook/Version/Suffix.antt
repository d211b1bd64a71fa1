-- ===== src/Webhook/Version/Suffix.antt =====
-- internal/webhooks/version.go: what follows the digits of the minor version does not matter.
use model_validation_operato.Base.{◌≡◌, refl, ap, String, ◌<>◌, Bool, true, not, ◌&&◌, some, arith}
use model_validation_operato.Webhook.Version.{
  is_digit, check_version, leading_digits, native_sidecar_support,
}
use text.Mathlib.TextLemmas.{cons-append, nil-append}

-- Are all characters digits?
unfoldable pub all_digits : String → Bool
all_digits String.[] = true
all_digits (String.◌∷◌ c s) = is_digit c && all_digits s

-- Is there no digit in front?
unfoldable pub starts_plain : String → Bool
starts_plain String.[] = true
starts_plain (String.◌∷◌ c s) = not (is_digit c)

leading_digits-plain : (s : String) → starts_plain s ≡ true → leading_digits s ≡ String.[]
unfolding leading_digits starts_plain
leading_digits-plain String.[] h = refl
leading_digits-plain (String.◌∷◌ c s) h = ground arith

leading_digits-append :
    (s t : String)
    → all_digits s ≡ true
    → starts_plain t ≡ true
    → leading_digits (s <> t) ≡ leading_digits s
unfolding leading_digits all_digits
leading_digits-append String.[] t h k = rw nil-append (leading_digits-plain t k)
leading_digits-append (String.◌∷◌ c s) t h k =
    rw cons-append (ground (arith, leading_digits-append s t))

-- A suffix of the minor version that begins with no digit, such as "+", does not change the
-- answer, the error included.
pub native_sidecar_support-suffix :
    (major minor suffix : String)
    → all_digits minor ≡ true
    → starts_plain suffix ≡ true
    → native_sidecar_support (some (major, minor <> suffix))
      ≡ native_sidecar_support (some (major, minor))
unfolding native_sidecar_support
native_sidecar_support-suffix major minor suffix h k =
    ap (check_version major) (leading_digits-append minor suffix h k)
