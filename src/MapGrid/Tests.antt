-- ===== src/MapGrid/Tests.antt =====
-- Runs of the critic: a map of 2 by 2 cells, of which one is an obstacle.
use rosnavigation2copy.Prelude.{ℕ, ◌≡◌, refl, true, some, List, [], ◌∷◌, arith}
use rosnavigation2copy.Platform.{whole}
use rosnavigation2copy.Costmap.{Costmap}
use rosnavigation2copy.Planner.{Verdict}
use rosnavigation2copy.MapGrid.{MapGridCritic, Reason, score_trajectory}
use rosnavigation2copy.MapGrid.Reason.{hits_obstacle, hits_unreachable_area, goes_off_grid}
use rosnavigation2copy.MapGrid.ScoreAggregationType.{sum}
use rosnavigation2copy.MapGrid.Values.{IsScore}
use rosnavigation2copy.MapGrid.Result.{score_trajectory-Scores}

abbrev number : Reason → ℕ
number hits_obstacle = 1
number hits_unreachable_area = 2
number goes_off_grid = 3

abbrev grid : Costmap ℕ
grid = record {
  size_x = 2;
  size_y = 2;
  resolution = 1;
  origin_x = 0;
  origin_y = 0;
  costmap = 0 ∷ 0 ∷ 254 ∷ 0 ∷ [];
  default_value = 0;
}

abbrev critic : MapGridCritic ℕ ℕ
critic = record {
  name = 7;
  costmap = grid;
  cell_values = 0 ∷ 1 ∷ 4 ∷ 2 ∷ [];
  obstacle_score = 4;
  unreachable_score = 5;
  stop_on_failure = true;
  aggregation_type = sum;
}

abbrev poses : List (ℕ × ℕ)
poses = (0, 0) ∷ (1, 0) ∷ (1, 1) ∷ []

score_trajectory-Scores_example :
    (r : Verdict ℕ ℕ) × (score_trajectory whole number critic poses ≡ some r)
    × IsScore whole number critic poses r
score_trajectory-Scores_example =
    score_trajectory-Scores whole number critic (record { cells = refl; fits = omega arith }) refl
      poses
