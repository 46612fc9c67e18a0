-- ===== src/NavFn/Calculation.antt =====
-- nav2_navfn_planner/src/navfn.cpp: the set-up of the arrays, and calcNavFnDijkstra and calcNavFnAstar
-- up to the path.
use rosnavigation2copy.Prelude.{
  ℕ, ◌+◌, ◌*◌, ◌/◌, Bool, true, false, max, Option, none, some, List, [], get_elem?, set, replicate,
  if◌then◌else◌,
}
use rosnavigation2copy.Prelude.Loops.{◌>>=◌}
use rosnavigation2copy.Platform.{Floats}
use rosnavigation2copy.NavFn.{
  Constants, NavFn, cost_obs, cost_neutral, minus, push, outline_map, count_obstacles,
}
use rosnavigation2copy.NavFn.Propagation.{prop_nav_fn_dijkstra, prop_nav_fn_astar}

module _ {F : Type 0} (fl : Floats F) (k : Constants F) where
  open fl use {add, sub, mul, div, lt, le, of_nat}

  -- initCost.
  unfoldable pub push_from : Option ℕ → NavFn F → Option (NavFn F)
  push_from none nav = some nav
  push_from (some n) nav = do
    (buf, pending) ← push (nav.nx * nav.ny) nav.costarr n (nav.cur_p, nav.pending)
    some (record nav { cur_p = buf; pending = pending })

  unfoldable pub init_cost : ℕ → F → NavFn F → Option (NavFn F)
  init_cost n v nav = do
    _ ← get_elem? nav.potarr n
    nav1 ← push_from (some (n + 1)) (record nav { potarr = set nav.potarr n v })
    nav2 ← push_from (minus n 1) nav1
    nav3 ← push_from (minus n nav.nx) nav2
    push_from (some (n + nav.nx)) nav3

  unfoldable pub setup_nav_fn : Bool → NavFn F → Option (NavFn F)
  setup_nav_fn keepit nav = do
    let ns = nav.nx * nav.ny
    costarr ← outline_map nav.nx nav.ny (if keepit then nav.costarr else replicate ns cost_neutral)
    nav' ← init_cost (nav.goal.0 + nav.goal.1 * nav.nx) (of_nat 0) (record nav {
      costarr = costarr;
      potarr = replicate ns k.pot_high;
      pending = replicate ns false;
      cur_p = [];
      next_p = [];
      over_p = [];
      cur_t = of_nat cost_obs;
    })
    some (record nav' { nobs = count_obstacles nav'.costarr })

  -- setNavArr; `potarr` is what new[] returns.
  unfoldable pub set_nav_arr : (ℕ → List F) → ℕ → ℕ → NavFn F → NavFn F
  set_nav_arr new_array xs ys nav = record nav {
    nx = xs;
    ny = ys;
    costarr = replicate (xs * ys) 0;
    potarr = new_array (xs * ys);
    pending = replicate (xs * ys) false;
  }

  unfoldable pub set_goal : ℕ × ℕ → NavFn F → NavFn F
  set_goal g nav = record nav { goal = g }

  unfoldable pub set_start : ℕ × ℕ → NavFn F → NavFn F
  set_start g nav = record nav { start = g }

  -- calcNavFnDijkstra and calcNavFnAstar, up to the path.
  unfoldable pub calc_dijkstra : Bool → NavFn F → Option (NavFn F × Bool)
  calc_dijkstra at_start nav = do
    nav' ← setup_nav_fn true nav
    prop_nav_fn_dijkstra fl k (max (nav.nx * nav.ny / 20) (nav.nx + nav.ny)) at_start nav'

  unfoldable pub calc_astar : NavFn F → Option (NavFn F × Bool)
  calc_astar nav = do
    nav' ← setup_nav_fn true nav
    prop_nav_fn_astar fl k (max (nav.nx * nav.ny / 20) (nav.nx + nav.ny)) nav'
