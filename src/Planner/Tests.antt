-- ===== src/Planner/Tests.antt =====
-- Runs of the scoring with integers in place of doubles, and numbers for names and trajectories.
use rosnavigation2copy.Prelude.{
  ℕ, ◌≡◌, refl, Bool, true, false, Option, none, some, List, [], ◌∷◌, ◌==◌, arith, inl, inr, ltb,
  if◌then◌else◌,
}
use rosnavigation2copy.Prelude.Int.{ℤ, pos, ◌-ℤ◌, ◌+ℤ◌, ◌*ℤ◌, +ℤ_parts}
use mathlib.Core.Path.{subst}
use rosnavigation2copy.Platform.{integers}
use rosnavigation2copy.Planner.{
  Verdict, legal, illegal, TrajectoryCritic, minus_one, core_scoring_algorithm, start_search,
  evaluate_all, evaluate, accept, reject, score_trajectory, score_critics, add_score, skip_score,
}
use rosnavigation2copy.Planner.Scores.{Ordered, AllPositive}
use rosnavigation2copy.Planner.Records.{IsRecord, core_scoring_algorithm-IsRecord}
use rosnavigation2copy.Planner.Choice.{Picks, core_scoring_algorithm-Picks}

minus_one_lt : integers.lt (minus_one integers) (pos 0) ≡ true
unfolding ◌-ℤ◌
minus_one_lt = refl

integers-Ordered : Ordered integers (λ x. x)
integers-Ordered = record {
  asym = λ a b h. ground arith;
  trans = λ a b c h k. ground arith;
  below_zero = minus_one_lt;
  grows = λ x y n h. ground (arith, +ℤ_parts x y);
  narrow_zero = refl;
  narrow_again = λ x. refl;
}

-- It likes small trajectories.
abbrev small : TrajectoryCritic ℕ ℕ ℤ
small = record { name = 1; scale = pos 2; score = λ t. legal (pos t) }

-- It refuses trajectories below 3.
abbrev far_enough : TrajectoryCritic ℕ ℕ ℤ
far_enough = record {
  name = 2;
  scale = pos 1;
  score = λ t. if ltb t 3 then illegal 2 0 else legal (pos 1);
}

abbrev critics : List (TrajectoryCritic ℕ ℕ ℤ)
critics = small ∷ far_enough ∷ []

abbrev Positive : ℤ → Verdict ℕ ℤ → Type 0
Positive scale (legal raw) = integers.lt (integers.mul raw scale) (pos 0) ≡ false
Positive scale (illegal critic reason) = Unit {0}

small-Positive : (t : ℕ) → Positive (pos 2) (legal (pos t))
unfolding ◌*ℤ◌
small-Positive t = ground arith

far_enough-Positive : (near : Bool) → Positive (pos 1) (if near then illegal 2 0 else legal (pos 1))
unfolding ◌*ℤ◌
far_enough-Positive true = tt
far_enough-Positive false = refl

critics-AllPositive : AllPositive integers (λ x. x) critics
critics-AllPositive = (
  λ t raw e. subst (Positive (pos 2)) e (small-Positive t),
  (λ t raw e. subst (Positive (pos 1)) e (far_enough-Positive (ltb t 3)), tt),
)

core_scoring_algorithm-Picks_example :
    Picks ◌==◌ integers
      (λ x. x)
      critics
      (λ (w : ℕ). w)
      (7 ∷ 2 ∷ 4 ∷ 9 ∷ [])
      (core_scoring_algorithm ◌==◌ integers (λ x. x) critics (λ w. w) 0 (7 ∷ 2 ∷ 4 ∷ 9 ∷ []) none).0
core_scoring_algorithm-Picks_example =
    core_scoring_algorithm-Picks ◌==◌ integers (λ x. x) critics (λ w. w) integers-Ordered
      critics-AllPositive 0 (7 ∷ 2 ∷ 4 ∷ 9 ∷ []) none

abbrev chosen : List ℕ → Option (ℕ × ℤ)
chosen twists =
    elim (core_scoring_algorithm ◌==◌ integers (λ x. x) critics (λ (w : ℕ). w) 0 twists none).0 [
      | inl tracker ↦ none
      | inr best ↦ some (best.traj, best.total)
    ]

chosen_smallest : chosen (7 ∷ 2 ∷ 4 ∷ 9 ∷ []) ≡ some (4, pos 9)
unfolding core_scoring_algorithm start_search evaluate_all evaluate accept reject score_trajectory
    score_critics add_score skip_score ◌+ℤ◌ ◌*ℤ◌ ◌-ℤ◌
chosen_smallest = refl

-- Every trajectory is refused.
all_refused : chosen (2 ∷ 0 ∷ []) ≡ none
unfolding core_scoring_algorithm start_search evaluate_all evaluate accept reject score_trajectory
    score_critics add_score skip_score ◌+ℤ◌ ◌*ℤ◌ ◌-ℤ◌
all_refused = refl

core_scoring_algorithm-IsRecord_example :
    IsRecord ◌==◌ integers
      (λ x. x)
      critics
      (λ (w : ℕ). w)
      (7 ∷ 2 ∷ 4 ∷ [])
      (core_scoring_algorithm ◌==◌ integers
        (λ x. x)
        critics
        (λ w. w)
        0
        (7 ∷ 2 ∷ 4 ∷ [])
        (some (record { twists = []; best_index = 0; worst_index = 0 })))
core_scoring_algorithm-IsRecord_example =
    core_scoring_algorithm-IsRecord ◌==◌ integers (λ x. x) critics (λ w. w) 0 (7 ∷ 2 ∷ 4 ∷ []) 0 0
      (omega arith) minus_one_lt
