-- ===== src/MapGrid/Values.antt =====
-- The result of a trajectory in terms of the map and the values alone.
use rosnavigation2copy.Prelude.{
  ℕ, ◌+◌, ◌*◌, ◌≡◌, ◌⊎◌, Bool, true, false, none, some, List, [], ◌∷◌, ◌++◌, get_elem?,
  if◌then◌else◌,
}
use rosnavigation2copy.Platform.{Floats}
use rosnavigation2copy.Costmap.{world_to_map}
use rosnavigation2copy.Planner.{Verdict}
use rosnavigation2copy.Planner.Verdict.{legal, illegal}
use rosnavigation2copy.MapGrid.Reason.{hits_obstacle, hits_unreachable_area, goes_off_grid}
use rosnavigation2copy.MapGrid.ScoreAggregationType.{last, sum, product}
use rosnavigation2copy.MapGrid.{is_equal, MapGridCritic, Reason, ScoreAggregationType}

-- The last pose alone.
abbrev pub last_only : {A : Type 0} → List A → List A
last_only [] = []
last_only (p ∷ []) = p ∷ []
last_only (p ∷ q ∷ poses) = last_only (q ∷ poses)

-- The poses that a critic looks at: all of them, but the last alone where only its value counts.
abbrev pub looked_at : {A : Type 0} → ScoreAggregationType → Bool → List A → List A
looked_at last false poses = last_only poses
looked_at last true poses = poses
looked_at sum stop poses = poses
looked_at product stop poses = poses

module _ {D : Type 0} (fl : Floats D) where
  abbrev pub last_value : D → List D → D
  last_value d [] = d
  last_value d (g ∷ gs) = last_value g gs

  abbrev pub sum_of : D → List D → D
  sum_of d [] = d
  sum_of d (g ∷ gs) = sum_of (fl.add d g) gs

  -- The product of the values up to the first that makes it 0 or less, that one included.
  abbrev pub product_of : D → List D → D
  product_of d [] = d
  product_of d (g ∷ gs) = if fl.lt (fl.of_nat 0) d then product_of (fl.mul d g) gs else d

  abbrev pub combined : ScoreAggregationType → List D → D
  combined last gs = last_value (fl.of_nat 0) gs
  combined sum gs = sum_of (fl.of_nat 0) gs
  combined product gs = product_of (fl.of_nat 1) gs

module _ {N D : Type 0} (fl : Floats D) (text : Reason → N) (critic : MapGridCritic N D) where
  -- The pose is in a cell of the map, and the value of the cell is `g`.
  pub record IsAt (pose : D × D) (g : D) : Type 0 where
    pub x : ℕ
    pub y : ℕ
    pub cell : world_to_map fl critic.costmap pose.0 pose.1 ≡ some (x, y)
    pub value : get_elem? critic.cell_values (y * critic.costmap.size_x + x) ≡ some g

  -- Where the critic stops on a failure, the value is neither of those that mark one.
  abbrev pub IsHarmless : D → Type 0
  IsHarmless g =
      critic.stop_on_failure ≡ true
      → (is_equal fl g critic.obstacle_score ≡ false)
        × (is_equal fl g critic.unreachable_score ≡ false)

  pub data AreAt : List (D × D) → List D → Type 0 where
    no_pose : AreAt [] []
    next_pose :
        {pose : D × D} {g : D} {poses : List (D × D)} {gs : List D}
        → IsAt pose g
        → IsHarmless g
        → AreAt poses gs
        → AreAt (pose ∷ poses) (g ∷ gs)

  pub data FailsFor (pose : D × D) : Reason → Type 0 where
    outside : world_to_map fl critic.costmap pose.0 pose.1 ≡ none → FailsFor pose goes_off_grid
    obstacle :
        (g : D)
        → IsAt pose g
        → critic.stop_on_failure ≡ true
        → is_equal fl g critic.obstacle_score ≡ true
        → FailsFor pose hits_obstacle
    unreachable :
        (g : D)
        → IsAt pose g
        → critic.stop_on_failure ≡ true
        → is_equal fl g critic.obstacle_score ≡ false
        → is_equal fl g critic.unreachable_score ≡ true
        → FailsFor pose hits_unreachable_area

  -- The result for the poses: their values combined, or the failure of the first that fails.
  abbrev pub IsScore : List (D × D) → Verdict N D → Type 0
  IsScore poses r =
      ((gs : List D) × AreAt poses gs × (r ≡ legal (combined fl critic.aggregation_type gs)))
      ⊎ ((before : List (D × D)) × (pose : D × D) × (after : List (D × D)) × (gs : List D)
          × (reason : Reason) × (poses ≡ before ++ (pose ∷ after))
          × AreAt before gs
          × FailsFor pose reason
          × (r ≡ illegal critic.name (text reason)))
