-- ===== src/Plan.antt =====
-- transformGlobalPlan of nav2_dwb_controller/dwb_core/src/dwb_core.cpp: the part of the global plan near
-- the robot is taken into the frame of the cost map, and what lies behind the robot is dropped from
-- both plans. The transforms are parameters: `robot_pose` is the robot in the frame of the plan, if
-- it can be transformed, and `move` takes a pose of the plan to the frame of the cost map. `none` is
-- a failed assertion or an erasure from an empty vector.
pub mod Front
mod Tests
use rosnavigation2copy.Prelude.{
  ℕ, suc, ◌+◌, ◌*◌, Bool, true, false, Option, none, some, ◌⊎◌, inl, inr, List, [], ◌∷◌, ◌++◌,
  length, leb, max, ◌==◌, if◌then◌else◌,
}
use rosnavigation2copy.Prelude.Loops.{◌>>=◌}
use rosnavigation2copy.Platform.{Floats}

pub record Pose2D (D : Type 0) : Type 0 where
  pub x : D
  pub y : D
  pub theta : D

-- The PlannerExceptions and the PlannerTFException.
pub data PlanError : Type 0 where
  zero_length no_transform no_poses : PlanError

module _ {D : Type 0} (fl : Floats D) where
  open fl use {add, sub, mul, div, lt, of_nat}

  unfoldable pub get_square_distance : Pose2D D → Pose2D D → D
  get_square_distance a b =
      let x_diff = sub a.x b.x in
      let y_diff = sub a.y b.y in add (mul x_diff x_diff) (mul y_diff y_diff)

  -- Half the longer side of the cost map.
  unfoldable pub dist_threshold : ℕ → ℕ → D → D
  dist_threshold size_x size_y resolution =
      div (mul (of_nat (max size_x size_y)) resolution) (of_nat 2)

  -- The loop over the poses of the global plan.
  unfoldable pub select_poses :
      Pose2D D → D → (Pose2D D → Pose2D D) → List (Pose2D D) → List (Pose2D D) → List (Pose2D D)
  select_poses robot sq_dist_threshold move [] plan = plan
  select_poses robot sq_dist_threshold move (p ∷ poses) plan =
      let rest = select_poses robot sq_dist_threshold move poses plan in
      let more = select_poses robot sq_dist_threshold move poses (plan ++ (move p ∷ [])) in
      if lt sq_dist_threshold (get_square_distance robot p)
      then (if length plan == 0 then rest else plan ++ (move p ∷ []))
      else more

  -- Poses are erased from the front of both plans, up to one near the robot.
  unfoldable pub prune_plans :
      Pose2D D → D → List (Pose2D D) → List (Pose2D D) → Option (List (Pose2D D) × List (Pose2D D))
  prune_plans robot sq_prune_dist [] global_plan = some ([], global_plan)
  prune_plans robot sq_prune_dist (w ∷ plan) [] =
      if lt (get_square_distance robot w) sq_prune_dist then some (w ∷ plan, []) else none
  prune_plans robot sq_prune_dist (w ∷ plan) (g ∷ global_plan) =
      let rest = prune_plans robot sq_prune_dist plan global_plan in
      if lt (get_square_distance robot w) sq_prune_dist
      then some (w ∷ plan, g ∷ global_plan)
      else rest

  -- It asserts first that the global plan is at least as long.
  unfoldable pub prune_if :
      Bool
      → Pose2D D
      → D
      → List (Pose2D D)
      → List (Pose2D D)
      → Option (List (Pose2D D) × List (Pose2D D))
  prune_if false robot sq_prune_dist plan global_plan = some (plan, global_plan)
  prune_if true robot sq_prune_dist plan global_plan =
      if leb (length plan) (length global_plan)
      then prune_plans robot sq_prune_dist plan global_plan
      else none

  -- The plan, or what is thrown, and the global plan that is left.
  unfoldable pub check_poses : List (Pose2D D) → PlanError ⊎ List (Pose2D D)
  check_poses [] = inl no_poses
  check_poses (p ∷ plan) = inr (p ∷ plan)

  unfoldable pub transform_from :
      (Pose2D D → Pose2D D)
      → D
      → Bool
      → D
      → Option (Pose2D D)
      → List (Pose2D D)
      → Option ((PlanError ⊎ List (Pose2D D)) × List (Pose2D D))
  transform_from move threshold prune_plan prune_distance none global_plan =
      some (inl no_transform, global_plan)
  transform_from move threshold prune_plan prune_distance (some robot) global_plan = do
    let plan = select_poses robot (mul threshold threshold) move global_plan []
    (plan', global_plan') ←
        prune_if prune_plan robot (mul prune_distance prune_distance) plan global_plan
    some (check_poses plan', global_plan')

  unfoldable pub transform_global_plan :
      (Pose2D D → Pose2D D)
      → ℕ × ℕ
      → D
      → Bool
      → D
      → Option (Pose2D D)
      → List (Pose2D D)
      → Option ((PlanError ⊎ List (Pose2D D)) × List (Pose2D D))
  transform_global_plan move (size_x, size_y) resolution prune_plan prune_distance robot_pose [] =
      some (inl zero_length, [])
  transform_global_plan move (size_x, size_y) resolution prune_plan prune_distance robot_pose
        (p ∷ poses) =
      transform_from move (dist_threshold size_x size_y resolution) prune_plan prune_distance
        robot_pose (p ∷ poses)
