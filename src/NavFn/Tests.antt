-- ===== src/NavFn/Tests.antt =====
-- Runs of the navigation function with integers in place of floats.
use rosnavigation2copy.Prelude.{
  ℕ, ◌≡◌, refl, Bool, true, Option, some, List, [], ◌∷◌, replicate, arith,
}
use rosnavigation2copy.Prelude.Loops.{◌>>=◌}
use rosnavigation2copy.Prelude.Int.{ℤ, pos, ◌-ℤ◌, ◌+ℤ◌, ◌*ℤ◌}
use rosnavigation2copy.Platform.{integers}
use rosnavigation2copy.NavFn.{
  Constants, NavFn, minus, push, reset_pending, outline, count_obstacles, outline_map, potential,
  push_if, spread, push_neighbors, update_cell, update_cells,
}
use rosnavigation2copy.NavFn.Propagation.{
  swap_buffers, cycle, start_cell, propagate, prop_nav_fn_dijkstra, distance_to_start,
  prop_nav_fn_astar,
}
use rosnavigation2copy.NavFn.Calculation.{
  push_from, init_cost, setup_nav_fn, calc_dijkstra, calc_astar,
}
use rosnavigation2copy.NavFn.Within.{IsGiven}
use rosnavigation2copy.NavFn.Searches.{Searches, calc_dijkstra-Searches, calc_astar-Searches}

abbrev numbers : Constants ℤ
numbers = record {
  pot_high = pos 10000;
  cost_factor = pos 1;
  inv_sqrt2 = pos 1;
  quad2 = pos 0;
  quad1 = pos 1;
  quad0 = pos 1;
}

-- A map of 4 by 5 cells of cost 50, with the goal at (1, 1) and the start at (2, 3).
abbrev small_map : NavFn ℤ
small_map = record {
  nx = 4;
  ny = 5;
  costarr = replicate 20 50;
  potarr = [];
  pending = [];
  cur_p = [];
  next_p = [];
  over_p = [];
  cur_t = pos 0;
  pri_inc = pos 100;
  goal = (1, 1);
  start = (2, 3);
  nobs = 0;
  last_path_cost = pos 0;
}

small_map-IsGiven : IsGiven small_map
small_map-IsGiven = record {
  columns = omega arith;
  costs = refl;
  goal_column = omega arith;
  goal_row = omega arith;
  start_column = omega arith;
  start_row = omega arith;
}

calc_dijkstra-Searches_example : Searches small_map (calc_dijkstra integers numbers true small_map)
calc_dijkstra-Searches_example =
    calc_dijkstra-Searches integers numbers true small_map small_map-IsGiven

calc_astar-Searches_example : Searches small_map (calc_astar integers numbers small_map)
calc_astar-Searches_example = calc_astar-Searches integers numbers small_map small_map-IsGiven

abbrev summary : Option (NavFn ℤ × Bool) → Option (List ℤ × ℕ × Bool)
summary o = o >>= λ (r : NavFn ℤ × Bool). some (r.0.potarr, r.0.nobs, r.1)

-- Both methods reach the start, over six free cells.
abbrev reached : Option (List ℤ × ℕ × Bool)
reached =
    let far = pos 10000 in
    some (
      far
          ∷ far
          ∷ far
          ∷ far
          ∷ far
          ∷ pos 0
          ∷ pos 50
          ∷ far
          ∷ far
          ∷ pos 50
          ∷ pos 100
          ∷ far
          ∷ far
          ∷ pos 100
          ∷ pos 150
          ∷ far
          ∷ far
          ∷ far
          ∷ far
          ∷ far
          ∷ [],
      14,
      true,
    )

dijkstra_run : summary (calc_dijkstra integers numbers true small_map) ≡ reached
unfolding minus push reset_pending outline count_obstacles outline_map potential push_if spread
    push_neighbors update_cell update_cells swap_buffers cycle start_cell propagate
    prop_nav_fn_dijkstra push_from init_cost setup_nav_fn calc_dijkstra ◌-ℤ◌ ◌+ℤ◌ ◌*ℤ◌
dijkstra_run = refl

astar_run : summary (calc_astar integers numbers small_map) ≡ reached
unfolding minus push reset_pending outline count_obstacles outline_map potential push_if spread
    push_neighbors update_cell update_cells swap_buffers cycle start_cell propagate
    distance_to_start prop_nav_fn_astar push_from init_cost setup_nav_fn calc_astar ◌-ℤ◌ ◌+ℤ◌ ◌*ℤ◌
astar_run = refl
