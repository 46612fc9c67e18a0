-- ===== src/Params.antt =====
-- nav2_dynamic_params/src/dynamic_params_validator.cpp and its header: which changes of parameters a
-- node accepts. A std::map is a function to its entries; names are of any type with a test of
-- equality. What is kept of a value is what the validator reads: numbers, and the type of the others.
pub mod Accepted
mod Tests
use rosnavigation2copy.Prelude.{
  ℕ, Bool, true, false, ◌&&◌, ◌||◌, Option, none, some, List, [], ◌∷◌, ◌++◌, ◌==◌, if◌then◌else◌,
}
use rosnavigation2copy.Prelude.Int.{ℤ}
use rosnavigation2copy.Platform.{Floats}

-- rclcpp::ParameterType; the types besides these two are told apart by a number.
pub data ParameterType : Type 0 where
  parameter_double parameter_integer : ParameterType
  other_type : ℕ → ParameterType

pub data ParameterValue (D : Type 0) : Type 0 where
  double_value : D → ParameterValue D
  integer_value : ℤ → ParameterValue D
  other_value : ℕ → ParameterValue D

pub record Parameter (N D : Type 0) : Type 0 where
  pub name : N
  pub contents : ParameterValue D

pub record Validator (N D : Type 0) : Type 0 where
  pub reject_new_params : Bool
  pub param_map : N → Option ParameterType
  pub param_bound_map : N → Option (D × D)
  pub static_params : List N
  pub validation_callback : Option (List (Parameter N D) → Bool)

unfoldable pub same_type : ParameterType → ParameterType → Bool
same_type parameter_double parameter_double = true
same_type parameter_integer parameter_integer = true
same_type (other_type m) (other_type n) = m == n
same_type s t = false

abbrev pub get_type : {D : Type 0} → ParameterValue D → ParameterType
get_type (double_value x) = parameter_double
get_type (integer_value i) = parameter_integer
get_type (other_value n) = other_type n

module _ {N D : Type 0} where
  -- `type` is the entry of the map for the name.
  unfoldable pub validate_param : ParameterType → Parameter N D → Bool
  validate_param type p = same_type type (get_type p.contents)

module _ {N D : Type 0} (same : N → N → Bool) (fl : Floats D) where
  open fl use {le}

  unfoldable pub new_validator : Bool → Validator N D
  new_validator reject_new_params = record {
    reject_new_params = reject_new_params;
    param_map = λ n. none;
    param_bound_map = λ n. none;
    static_params = [];
    validation_callback = none;
  }

  -- map[name] = value
  abbrev put : {A : Type 0} → N → A → (N → Option A) → N → Option A
  put name a map n = if same n name then some a else map n

  unfoldable pub add_param : N → ParameterType → Validator N D → Validator N D
  add_param name type v = record v { param_map = put name type v.param_map }

  unfoldable pub add_param_bounds : N → ParameterType → D × D → Validator N D → Validator N D
  add_param_bounds name type bounds v = record v {
    param_map = put name type v.param_map;
    param_bound_map = put name bounds v.param_bound_map;
  }

  -- `infinity` and `minus_infinity` are the limits of double.
  unfoldable pub add_param_one_bound :
      D → D → N → ParameterType → D × D → Bool → Validator N D → Validator N D
  add_param_one_bound infinity minus_infinity name type bounds ignore_bound v =
      add_param_bounds name type
        (if ignore_bound then (bounds.0, infinity) else (minus_infinity, bounds.1)) v

  -- std::map::insert keeps the entries that are there.
  unfoldable pub insert_type :
      N → ParameterType → (N → Option ParameterType) → N → Option ParameterType
  insert_type name type map n = elim (map n) [
    | some t ↦ some t
    | none ↦ if same n name then some type else none
  ]

  unfoldable pub add_params : List (N × ParameterType) → Validator N D → Validator N D
  add_params [] v = v
  add_params ((name, type) ∷ types) v =
      add_params types (record v { param_map = insert_type name type v.param_map })

  unfoldable pub add_static_params : List N → Validator N D → Validator N D
  add_static_params names v = record v { static_params = v.static_params ++ names }

  unfoldable pub set_validation_callback :
      (List (Parameter N D) → Bool) → Validator N D → Validator N D
  set_validation_callback callback v = record v { validation_callback = some callback }

  unfoldable pub is_member : N → List N → Bool
  is_member name [] = false
  is_member name (n ∷ names) = same name n || is_member name names

  unfoldable pub check_if_static : Validator N D → Parameter N D → Bool
  check_if_static v p = is_member p.name v.static_params

  unfoldable pub check_bound_of_type : D × D → D → Bool
  check_bound_of_type bounds x = le bounds.0 x && le x bounds.1

  -- `bounds` is the entry of the map for the name.
  unfoldable pub validate_param_bounds : D × D → Parameter N D → Bool
  validate_param_bounds bounds p = elim p.contents [
    | double_value x ↦ check_bound_of_type bounds x
    | integer_value i ↦ check_bound_of_type bounds (fl.of_int i)
    | other_value n ↦ false
  ]

  unfoldable pub check_bounds : Validator N D → Parameter N D → Bool
  check_bounds v p = elim (v.param_bound_map p.name) [
    | none ↦ true
    | some bounds ↦ validate_param_bounds bounds p
  ]

  unfoldable pub check_type : Validator N D → Parameter N D → Bool
  check_type v p = elim (v.param_map p.name) [
    | some type ↦ validate_param type p
    | none ↦ if v.reject_new_params then false else true
  ]

  -- A round of the loop of param_validation_callback.
  unfoldable pub check_param : Validator N D → Parameter N D → Bool
  check_param v p =
      if check_if_static v p then false else if check_type v p then check_bounds v p else false

  unfoldable pub check_params : Validator N D → List (Parameter N D) → Bool
  check_params v [] = true
  check_params v (p ∷ parameters) =
      let rest = check_params v parameters in if check_param v p then rest else false

  -- result.successful
  unfoldable pub param_validation_callback : Validator N D → List (Parameter N D) → Bool
  param_validation_callback v parameters =
      let custom = elim v.validation_callback as (λ o. Bool) [
        | none ↦ true
        | some callback ↦ callback parameters
      ] in
      if check_params v parameters then custom else false
