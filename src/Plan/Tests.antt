-- ===== src/Plan/Tests.antt =====
-- A plan along the x axis, with integers in place of doubles.
use rosnavigation2copy.Prelude.{
  ◌≡◌, refl, true, false, Option, some, ◌⊎◌, inr, List, [], ◌∷◌, length, map, take,
}
use rosnavigation2copy.Prelude.Int.{ℤ, pos, ◌-ℤ◌, ◌+ℤ◌, ◌*ℤ◌}
use rosnavigation2copy.Platform.{integers}
use rosnavigation2copy.Plan.{
  Pose2D, PlanError, get_square_distance, dist_threshold, select_poses, prune_plans, prune_if,
  check_poses, transform_from, transform_global_plan,
}
use rosnavigation2copy.Plan.Front.{is_far, transform_global_plan-front}

abbrev at_x : ℤ → Pose2D ℤ
at_x v = record { x = v; y = pos 0; theta = pos 0 }

abbrev shifted : Pose2D ℤ → Pose2D ℤ
shifted p = record p { theta = pos 1 }

abbrev poses : List (Pose2D ℤ)
poses = at_x (pos 3) ∷ at_x (pos 5) ∷ at_x (pos 7) ∷ at_x (pos 30) ∷ at_x (pos 31) ∷ []

abbrev run :
    Option (Pose2D ℤ) → List (Pose2D ℤ) → Option ((PlanError ⊎ List (Pose2D ℤ)) × List (Pose2D ℤ))
run robot plan = transform_global_plan integers shifted (20, 10) (pos 1) true (pos 2) robot plan

-- A far pose ends the plan, and the first pose is behind the robot.
pruned :
    run (some (at_x (pos 6))) poses
    ≡ some (
      inr (map shifted (at_x (pos 5) ∷ at_x (pos 7) ∷ at_x (pos 30) ∷ [])),
      at_x (pos 5) ∷ at_x (pos 7) ∷ at_x (pos 30) ∷ at_x (pos 31) ∷ [],
    )
unfolding get_square_distance dist_threshold select_poses prune_plans prune_if check_poses
    transform_from transform_global_plan ◌-ℤ◌ ◌+ℤ◌ ◌*ℤ◌
pruned = refl

-- A plan that does not begin near the robot loses other poses than the ones erased.
misaligned :
    run (some (at_x (pos 30))) poses
    ≡ some (inr (map shifted (at_x (pos 30) ∷ at_x (pos 31) ∷ [])), poses)
unfolding get_square_distance dist_threshold select_poses prune_plans prune_if check_poses
    transform_from transform_global_plan ◌-ℤ◌ ◌+ℤ◌ ◌*ℤ◌
misaligned = refl

near_start :
    (let threshold = dist_threshold integers 20 10 (pos 1) in
      is_far integers shifted (at_x (pos 6)) (threshold *ℤ threshold) (at_x (pos 3)) ≡ false)
unfolding get_square_distance dist_threshold ◌-ℤ◌ ◌+ℤ◌ ◌*ℤ◌
near_start = refl

abbrev later : List (Pose2D ℤ)
later = at_x (pos 5) ∷ at_x (pos 7) ∷ at_x (pos 30) ∷ at_x (pos 31) ∷ []

transform_global_plan-front_example :
    (plan : List (Pose2D ℤ)) × (rest : List (Pose2D ℤ)) × (run
        (some (at_x (pos 6)))
        (at_x (pos 3) ∷ later)
      ≡ some (check_poses integers plan, rest))
    × (plan ≡ map shifted (take (length plan) rest))
transform_global_plan-front_example =
    transform_global_plan-front integers shifted (at_x (pos 6)) (20, 10) (pos 1) (pos 2)
      (at_x (pos 3)) later near_start
