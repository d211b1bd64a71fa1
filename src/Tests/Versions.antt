-- ===== src/Tests/Versions.antt =====
-- internal/webhooks/version.go at concrete versions.
use model_validation_operato.Base.{◌≡◌, refl, true, false, none, some, nat_eq}
use model_validation_operato.Webhook.Version.{
  native_sidecar_support, atoi, leading_digits, check_version, digits_value,
}
use model_validation_operato.Webhook.Version.Suffix.{}

recent : native_sidecar_support (some ("1", "28")) ≡ some true
unfolding native_sidecar_support check_version atoi leading_digits digits_value nat_eq
recent = refl

older : native_sidecar_support (some ("1", "27+")) ≡ some false
unfolding native_sidecar_support check_version atoi leading_digits digits_value nat_eq
older = refl

unreadable : native_sidecar_support (some ("1", "+28")) ≡ none
unfolding native_sidecar_support check_version atoi leading_digits digits_value nat_eq
unreadable = refl
