-- ===== src/Params/Tests.antt =====
-- A validator of two parameters, with numbers for names and for doubles.
use rosnavigation2copy.Prelude.{ℕ, ◌≡◌, ◌↔◌, refl, Bool, true, false, some, List, [], ◌∷◌, ◌==◌}
use rosnavigation2copy.Platform.{whole}
use rosnavigation2copy.Params.{
  Parameter, Validator, double_value, other_value, parameter_double, same_type, validate_param,
  new_validator, add_param_bounds, add_static_params, is_member, check_if_static,
  check_bound_of_type, validate_param_bounds, check_bounds, check_type, check_param, check_params,
  param_validation_callback,
}
use rosnavigation2copy.Params.Accepted.{AllAllowed, param_validation_callback_iff}

-- Parameter 1 is a double from 2 to 5, and parameter 7 is static.
abbrev validator : Validator ℕ ℕ
validator =
    add_static_params ◌==◌ whole (7 ∷ [])
      (add_param_bounds ◌==◌ whole 1 parameter_double (2, 5) (new_validator ◌==◌ whole false))

abbrev change : ℕ → Parameter ℕ ℕ
change x = record { name = 1; contents = double_value x }

accepted : param_validation_callback ◌==◌ whole validator (change 5 ∷ []) ≡ true
unfolding same_type validate_param new_validator add_param_bounds add_static_params is_member
    check_if_static check_bound_of_type validate_param_bounds check_bounds check_type check_param
    check_params param_validation_callback
accepted = refl

out_of_bounds : param_validation_callback ◌==◌ whole validator (change 4 ∷ change 6 ∷ []) ≡ false
unfolding same_type validate_param new_validator add_param_bounds add_static_params is_member
    check_if_static check_bound_of_type validate_param_bounds check_bounds check_type check_param
    check_params param_validation_callback
out_of_bounds = refl

static :
    param_validation_callback ◌==◌ whole validator
      (record { name = 7; contents = other_value 1 } ∷ [])
    ≡ false
unfolding same_type validate_param new_validator add_param_bounds add_static_params is_member
    check_if_static check_bound_of_type validate_param_bounds check_bounds check_type check_param
    check_params param_validation_callback
static = refl

param_validation_callback_iff_example :
    (param_validation_callback ◌==◌ whole validator (change 4 ∷ change 6 ∷ []) ≡ true) ↔ (
      AllAllowed ◌==◌ whole validator (change 4 ∷ change 6 ∷ [])
      × ((f : List (Parameter ℕ ℕ) → Bool)
          → validator.validation_callback ≡ some f
          → f (change 4 ∷ change 6 ∷ []) ≡ true))
param_validation_callback_iff_example =
    param_validation_callback_iff ◌==◌ whole validator (change 4 ∷ change 6 ∷ [])
