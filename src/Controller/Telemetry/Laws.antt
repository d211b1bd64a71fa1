-- ===== src/Controller/Telemetry/Laws.antt =====
-- internal/controller/telemetryconfig_controller.go: what the counts are, and which conditions the
-- status has.
use model_validation_operato.Base.{
  ◌≡◌, ◌≢◌, ◌∙◌, refl, ap, sym, inl, inr, Bool-cases, Option-cases, ℕ, ◌+◌, String, Bool, true,
  Option, none, some, arith, List, [], ◌∷◌, length, if◌then◌else◌, ◌==◌, string_eq,
}
use model_validation_operato.Base.Map.{Map}
use model_validation_operato.Api.{Condition, LabelSelector}
use model_validation_operato.Tracker.Status.{int32}
use model_validation_operato.Webhook.Telemetry.{Matcher, selects}
use model_validation_operato.Controller.Telemetry.{count_loop, count_matched, set_condition}

-- The number of the objects that a predicate accepts.
abbrev pub number : (Map String String → Bool) → List (Map String String) → ℕ
number accepts [] = 0
number accepts (labels ∷ rest) =
    if accepts labels then 1 + number accepts rest else number accepts rest

int32_step : (n : ℕ) → int32 (int32 n + 1) ≡ int32 (n + 1)
int32_step n = omega arith

count_loop-number :
    (accepts : Map String String → Bool) (items : List (Map String String)) (n : ℕ)
    → count_loop accepts items (int32 n) ≡ int32 (n + number accepts items)
unfolding count_loop
count_loop-number accepts [] n = omega arith
count_loop-number accepts (l ∷ ls) n = elim (Bool-cases (accepts l)) [
  | inl e ↦ rw (e, int32_step n) (count_loop-number accepts ls (n + 1) ∙ ap int32 (omega arith))
  | inr e ↦ rw e (count_loop-number accepts ls n)
]

number_all : (items : List (Map String String)) → number (λ _. true) items ≡ length items
number_all [] = refl
number_all (l ∷ ls) = omega (arith, number_all ls)

number_ext :
    (f g : Map String String → Bool)
    → ((l : Map String String) → f l ≡ g l)
    → (items : List (Map String String)) → number f items ≡ number g items
number_ext f g h [] = refl
number_ext f g h (l ∷ ls) = ground (arith, h l, number_ext f g h ls)

abbrev IsValid : Matcher → Option LabelSelector → Type 0
IsValid matches none = Unit
IsValid matches (some sel) = matches sel ≢ none

-- The counts in the status of a TelemetryConfig are, up to 2 ^ 32, the numbers of the objects that
-- the webhook's test of the same selector accepts, when the selector is valid.
pub count_matched-selects :
    (matches : Matcher) (selector : Option LabelSelector) (items : List (Map String String))
    → IsValid matches selector
    → count_matched matches selector (some items)
      ≡ some (int32 (number (selects matches selector) items))
unfolding count_matched
count_matched-selects matches none items v = ap (λ n. some (int32 n)) (sym (number_all items))
count_matched-selects matches (some sel) items v = elim (Option-cases (matches sel)) [
  | inl e ↦ absurd (v e)
  | inr (accepts, e) ↦
      rw (e, count_matched)
        (ap some (
          count_loop-number accepts items 0
          ∙ ap int32 (
              omega (
                arith,
                number_ext accepts (selects matches (some sel)) (λ l. rw (e, selects) refl) items,
              ))))
]

-- The condition of a type.
unfoldable pub condition : String → List Condition → Option Condition
condition kind [] = none
condition kind (c ∷ cs) = if kind == c.kind then some c else condition kind cs

-- After a condition is set it is the one of its type, and every other type keeps its own.
pub condition-set_condition :
    (kind : String) (cs : List Condition) (c : Condition)
    → condition kind (set_condition cs c) ≡ (if kind == c.kind then some c else condition kind cs)
unfolding condition set_condition
condition-set_condition kind [] c = refl
condition-set_condition kind (d ∷ ds) c = ground (arith, condition-set_condition kind ds c)
