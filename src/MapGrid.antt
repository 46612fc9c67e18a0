-- ===== src/MapGrid.antt =====
-- nav2_dwb_controller/dwb_critics/src/map_grid.cpp and its header: the critic that scores the poses
-- of a trajectory by the values of the cells they are in. `none` is an access out of bounds. A pose
-- is its place; `text` gives the strings of the reasons, and the queue that fills in the values is
-- the module Wave.
pub mod Scoring
pub mod Values
pub mod Totals
pub mod Result
mod Tests
use rosnavigation2copy.Prelude.{
  drop, ℕ, ◌+◌, ◌-◌, ◌*◌, Bool, true, false, ◌&&◌, ◌||◌, not, Option, none, some, List, [], ◌∷◌,
  length, take, replicate, ◌==◌, u32, if◌then◌else◌,
}
use rosnavigation2copy.Prelude.Loops.{for_range, ◌>>=◌}
use rosnavigation2copy.Platform.{Floats}
use rosnavigation2copy.Grid.{read, write}
use rosnavigation2copy.Costmap.{Costmap, get_cost, get_index, world_to_map}
use rosnavigation2copy.Layer.{lethal_obstacle, inscribed_inflated_obstacle, no_information}
use rosnavigation2copy.Planner.{Verdict}
use rosnavigation2copy.Planner.Verdict.{legal, illegal}
use rosnavigation2copy.Wave.{CellData, absolute_difference}

pub data ScoreAggregationType : Type 0 where
  last : ScoreAggregationType
  sum : ScoreAggregationType
  product : ScoreAggregationType

-- The reasons of an IllegalTrajectoryException.
pub data Reason : Type 0 where
  hits_obstacle : Reason
  hits_unreachable_area : Reason
  goes_off_grid : Reason

pub record MapGridCritic (N D : Type 0) : Type 0 where
  pub name : N
  pub costmap : Costmap D
  pub cell_values : List D
  pub obstacle_score : D
  pub unreachable_score : D
  pub stop_on_failure : Bool
  pub aggregation_type : ScoreAggregationType

module _ {N D : Type 0} where
  unfoldable pub set_as_obstacle : ℕ → MapGridCritic N D → Option (MapGridCritic N D)
  set_as_obstacle index critic = do
    values ← write critic.cell_values index critic.obstacle_score
    some (record critic { cell_values = values })

  -- validCellToQueue of the queue of a critic: the test, and the critic with the cell marked.
  unfoldable pub valid_cell_to_queue :
      CellData D → MapGridCritic N D → Option (Bool × MapGridCritic N D)
  valid_cell_to_queue cell critic = do
    cost ← get_cost critic.costmap cell.x cell.y
    if cost == lethal_obstacle || cost == inscribed_inflated_obstacle || cost == no_information
        then (set_as_obstacle cell.index critic >>= λ marked. some (false, marked))
        else some (true, critic)

  unfoldable pub get_score : MapGridCritic N D → ℕ → ℕ → Option D
  get_score critic x y = read critic.cell_values (get_index critic.costmap x y)

module _ {N D : Type 0} (fl : Floats D) where
  open fl use {add, mul, lt, le, of_nat, half}

  -- The values after resize and fill.
  unfoldable pub reset : MapGridCritic N D → MapGridCritic N D
  reset critic =
      let n = u32 (critic.costmap.size_x * critic.costmap.size_y) in
      let unreachable = add (of_nat n) (of_nat 1) in
      record critic {
        cell_values = replicate n unreachable;
        obstacle_score = of_nat n;
        unreachable_score = unreachable;
      }

  -- A round of propogateManhattanDistances, for the cell that the queue gives.
  unfoldable pub set_distance : CellData D → MapGridCritic N D → Option (MapGridCritic N D)
  set_distance cell critic = do
    values ← write critic.cell_values cell.index (
        of_nat
          (u32 (absolute_difference cell.src_x cell.x + absolute_difference cell.src_y cell.y)))
    some (record critic { cell_values = values })

  unfoldable pub get_scale : MapGridCritic N D → D → D
  get_scale critic scale = mul (mul critic.costmap.resolution half) scale

-- An exception goes on to the caller.
unfoldable pub caught :
    {N D : Type 0} → Verdict N D → (D → Option (Verdict N D)) → Option (Verdict N D)
caught (illegal critic_name reason) rest = some (illegal critic_name reason)
caught (legal score) rest = rest score

-- `==` and `!=` of two doubles.
unfoldable pub is_equal : {D : Type 0} → Floats D → D → D → Bool
is_equal fl a b = fl.le a b && fl.le b a

module _ {N D : Type 0} (fl : Floats D) (text : Reason → N) where
  open fl use {add, mul, lt, of_nat}

  unfoldable pub score_pose : MapGridCritic N D → D × D → Option (Verdict N D)
  score_pose critic (x, y) = elim (world_to_map fl critic.costmap x y) [
    | none ↦ some (illegal critic.name (text goes_off_grid))
    | some (cell_x, cell_y) ↦ get_score critic cell_x cell_y >>= λ score. some (legal score)
  ]

  -- The test of a value, with stop_on_failure_.
  unfoldable pub check_value : MapGridCritic N D → D → Verdict N D
  check_value critic grid_dist =
      if critic.stop_on_failure && is_equal fl grid_dist critic.obstacle_score
      then illegal critic.name (text hits_obstacle)
      else if critic.stop_on_failure && is_equal fl grid_dist critic.unreachable_score
      then illegal critic.name (text hits_unreachable_area)
      else legal grid_dist

  unfoldable pub aggregate : ScoreAggregationType → D → D → D
  aggregate last score grid_dist = grid_dist
  aggregate sum score grid_dist = add score grid_dist
  aggregate product score grid_dist = if lt (of_nat 0) score then mul score grid_dist else score

  unfoldable pub start_score : ScoreAggregationType → D
  start_score last = of_nat 0
  start_score sum = of_nat 0
  start_score product = of_nat 1

  -- The poses from start_index on; of no poses there are none.
  unfoldable pub scored_poses : MapGridCritic N D → List (D × D) → List (D × D)
  scored_poses critic poses = elim critic.aggregation_type [
    | last ↦ if critic.stop_on_failure then poses else drop (length poses - 1) poses
    | sum ↦ poses
    | product ↦ poses
  ]

  unfoldable pub score_poses : MapGridCritic N D → List (D × D) → D → Option (Verdict N D)
  score_poses critic [] score = some (legal score)
  score_poses critic (pose ∷ poses) score = do
    scored ← score_pose critic pose
    caught scored (λ grid_dist.
        caught (check_value critic grid_dist)
          (λ value. score_poses critic poses (aggregate critic.aggregation_type score value)))

  unfoldable pub score_trajectory : MapGridCritic N D → List (D × D) → Option (Verdict N D)
  score_trajectory critic poses =
      score_poses critic (scored_poses critic poses) (start_score critic.aggregation_type)
