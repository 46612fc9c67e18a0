-- ===== src/Params/Accepted.antt =====
-- Which changes param_validation_callback accepts.
use rosnavigation2copy.Prelude.{
  Bool, true, false, ◌≡◌, ◌↔◌, refl, sym, ap, ◌∙◌, none, some, List, [], ◌∷◌, arith, Bool-cases,
  Option-cases, inl, inr, if◌then◌else◌,
}
use mathlib.Core.List.{Memᴰ}
use mathlib.Core.List.Memᴰ.{head, tail, not-nil}
use mathlib.Core.Bool.{true≢false}
use mathlib.Core.Path.{subst}
use rosnavigation2copy.Platform.{Floats}
use rosnavigation2copy.Params.{
  ParameterType, ParameterValue, double_value, integer_value, other_value, Parameter, Validator,
  same_type, get_type, validate_param, is_member, check_if_static, check_bound_of_type,
  validate_param_bounds, check_bounds, check_type, check_param, check_params,
  param_validation_callback,
}

if_both : (a b : Bool) → (if a then b else false) ≡ true → (a ≡ true) × (b ≡ true)
if_both true b h = (refl, h)
if_both false b h = absurd (true≢false (sym h))

both_if : (a b : Bool) → a ≡ true → b ≡ true → (if a then b else false) ≡ true
both_if a b h k = rw h k

module _ {N D : Type 0} (same : N → N → Bool) (fl : Floats D) where
  -- A number between the bounds, ends included.
  abbrev pub InBounds : D × D → ParameterValue D → Type 0
  InBounds (low, high) (double_value x) = (fl.le low x ≡ true) × (fl.le x high ≡ true)
  InBounds (low, high) (integer_value i) =
      (fl.le low (fl.of_int i) ≡ true) × (fl.le (fl.of_int i) high ≡ true)
  InBounds (low, high) (other_value n) = ⊥

  -- Not static; of the type that is registered, or of any if none is and new names are accepted; and
  -- in the bounds that are registered, if some are.
  pub record IsAllowed (v : Validator N D) (p : Parameter N D) : Type 0 where
    pub not_static : (n : N) → Memᴰ n v.static_params → same p.name n ≡ false
    pub typed :
        (t : ParameterType) → v.param_map p.name ≡ some t → same_type t (get_type p.contents) ≡ true
    pub known : v.param_map p.name ≡ none → v.reject_new_params ≡ false
    pub bounded : (b : D × D) → v.param_bound_map p.name ≡ some b → InBounds b p.contents

  not_member :
      (name : N) (names : List N)
      → is_member same fl name names ≡ false
      → (n : N) → Memᴰ n names
      → same name n ≡ false
  unfolding is_member
  not_member name [] h n m = absurd (not-nil m)
  not_member name (k ∷ names) h n (head e) =
      let first : same name k ≡ false = ground arith in ap (same name) e ∙ first
  not_member name (k ∷ names) h n (tail m) = not_member name names (ground arith) n m

  member_not :
      (name : N) (names : List N)
      → ((n : N) → Memᴰ n names → same name n ≡ false)
      → is_member same fl name names ≡ false
  unfolding is_member
  member_not name [] f = refl
  member_not name (k ∷ names) f = rw (f k (head refl)) (member_not name names (λ n m. f n (tail m)))

  bounds_in :
      (b : D × D) (name : N) (c : ParameterValue D)
      → validate_param_bounds same fl b (record { name = name; contents = c }) ≡ true
      → InBounds b c
  unfolding validate_param_bounds check_bound_of_type
  bounds_in (low, high) name (double_value x) h = (ground arith, ground arith)
  bounds_in (low, high) name (integer_value i) h = (ground arith, ground arith)
  bounds_in (low, high) name (other_value n) h = absurd (true≢false (sym h))

  in_bounds :
      (b : D × D) (name : N) (c : ParameterValue D)
      → InBounds b c
      → validate_param_bounds same fl b (record { name = name; contents = c }) ≡ true
  unfolding validate_param_bounds check_bound_of_type
  in_bounds (low, high) name (double_value x) (l, h) = rw (l, h) refl
  in_bounds (low, high) name (integer_value i) (l, h) = rw (l, h) refl
  in_bounds (low, high) name (other_value n) h = absurd h

  check_bounds-bounded :
      (v : Validator N D) (p : Parameter N D)
      → check_bounds same fl v p ≡ true
      → (b : D × D) → v.param_bound_map p.name ≡ some b
      → InBounds b p.contents
  unfolding check_bounds
  check_bounds-bounded v p h b e = bounds_in b p.name p.contents (rw (check_bounds, e) at h)

  bounded-check_bounds :
      (v : Validator N D) (p : Parameter N D)
      → ((b : D × D) → v.param_bound_map p.name ≡ some b → InBounds b p.contents)
      → check_bounds same fl v p ≡ true
  unfolding check_bounds
  bounded-check_bounds v p f = elim (Option-cases (v.param_bound_map p.name)) [
    | inl e ↦ rw (check_bounds, e) refl
    | inr (b, e) ↦ rw (check_bounds, e) (in_bounds b p.name p.contents (f b e))
  ]

  check_param-IsAllowed :
      (v : Validator N D) (p : Parameter N D) → check_param same fl v p ≡ true → IsAllowed v p
  unfolding check_param check_if_static check_type validate_param
  check_param-IsAllowed v p h = elim (Bool-cases (is_member same fl p.name v.static_params)) [
    | inl static ↦ absurd (true≢false (sym (rw static at h)))
    | inr free ↦
        let (type, bounds) =
          if_both (check_type same fl v p) (check_bounds same fl v p) (rw free at h) in
        record {
          not_static = not_member p.name v.static_params free;
          typed = λ t e. rw (check_type, e) at type;
          known = λ e. elim (Bool-cases v.reject_new_params) [
            | inl reject ↦ absurd (true≢false (sym (rw (check_type, e, reject) at type)))
            | inr accept ↦ accept
          ];
          bounded = check_bounds-bounded v p bounds;
        }
  ]

  IsAllowed-check_type :
      (v : Validator N D) (p : Parameter N D) → IsAllowed v p → check_type same fl v p ≡ true
  unfolding check_type validate_param
  IsAllowed-check_type v p a = elim (Option-cases (v.param_map p.name)) [
    | inl e ↦ rw (check_type, e, a.known e) refl
    | inr (t, e) ↦ rw (check_type, e) (a.typed t e)
  ]

  IsAllowed-check_param :
      (v : Validator N D) (p : Parameter N D) → IsAllowed v p → check_param same fl v p ≡ true
  unfolding check_param check_if_static
  IsAllowed-check_param v p a =
      rw (member_not p.name v.static_params a.not_static, IsAllowed-check_type v p a)
        (bounded-check_bounds v p a.bounded)

  abbrev pub AllAllowed : Validator N D → List (Parameter N D) → Type 0
  AllAllowed v parameters = (p : Parameter N D) → Memᴰ p parameters → IsAllowed v p

  check_params-AllAllowed :
      (v : Validator N D) (parameters : List (Parameter N D))
      → check_params same fl v parameters ≡ true
      → AllAllowed v parameters
  unfolding check_params
  check_params-AllAllowed v [] h p m = absurd (not-nil m)
  check_params-AllAllowed v (q ∷ parameters) h p (head e) =
      subst (IsAllowed v) (sym e) (check_param-IsAllowed v q (if_both _ _ h).0)
  check_params-AllAllowed v (q ∷ parameters) h p (tail m) =
      check_params-AllAllowed v parameters (if_both _ _ h).1 p m

  AllAllowed-check_params :
      (v : Validator N D) (parameters : List (Parameter N D))
      → AllAllowed v parameters
      → check_params same fl v parameters ≡ true
  unfolding check_params
  AllAllowed-check_params v [] f = refl
  AllAllowed-check_params v (q ∷ parameters) f =
      both_if _ _ (IsAllowed-check_param v q (f q (head refl)))
        (AllAllowed-check_params v parameters (λ p m. f p (tail m)))

  -- A change of parameters is accepted exactly if each of them is allowed and the callback, if there
  -- is one, accepts them.
  pub param_validation_callback_iff :
      (v : Validator N D) (parameters : List (Parameter N D))
      → (param_validation_callback same fl v parameters ≡ true) ↔ (
          AllAllowed v parameters
          × ((f : List (Parameter N D) → Bool)
              → v.validation_callback ≡ some f
              → f parameters ≡ true))
  unfolding param_validation_callback
  param_validation_callback_iff v parameters = (
    λ h.
        let (all, custom) = if_both (check_params same fl v parameters) _ h in
        (check_params-AllAllowed v parameters all, λ f e. rw e at custom),
    λ (all, f). elim (Option-cases v.validation_callback) [
      | inl e ↦ rw (param_validation_callback, AllAllowed-check_params v parameters all, e) refl
      | inr (g, e) ↦
          rw (param_validation_callback, AllAllowed-check_params v parameters all, e) (f g e)
    ],
  )
