-- ===== src/NavFn/Searches.antt =====
-- calcNavFnDijkstra and calcNavFnAstar, up to the path: no access is out of bounds.
use rosnavigation2copy.Prelude.{
  ℕ, ◌+◌, ◌*◌, ◌/◌, ◌%◌, ◌<◌, ◌≡◌, refl, ◌∙◌, Bool, true, max, Option, some, get_elem?-of_lt, arith,
}
use rosnavigation2copy.Platform.{Floats}
use rosnavigation2copy.Grid.Index.{index-lt}
use rosnavigation2copy.NavFn.{Constants, NavFn}
use rosnavigation2copy.NavFn.Propagation.{
  start_cell, prop_nav_fn_dijkstra, prop_nav_fn_astar, distance_to_start,
}
use rosnavigation2copy.NavFn.Calculation.{calc_dijkstra, calc_astar}
use rosnavigation2copy.NavFn.Safety.Cells.{IsReady}
use rosnavigation2copy.NavFn.Safety.Waves.{propagate-Runs}
use rosnavigation2copy.NavFn.Within.{IsGiven, setup_nav_fn-Sets}

module _ {F : Type 0} where
  -- A search returns, every array has its size, and every buffer holds cells off the first and the
  -- last row, at most PRIORITYBUFSIZE of them.
  pub record Searches (nav : NavFn F) (o : Option (NavFn F × Bool)) : Type 0 where
    pub result : NavFn F
    pub found : Bool
    pub returns : o ≡ some (result, found)
    pub ready : IsReady result
    pub columns : result.nx ≡ nav.nx
    pub rows : result.ny ≡ nav.ny

module _ {F : Type 0} (fl : Floats F) (k : Constants F) where
  starts_inside :
      (nav nav' : NavFn F)
      → IsGiven nav
      → nav'.nx ≡ nav.nx
      → nav'.ny ≡ nav.ny
      → nav'.start ≡ nav.start
      → start_cell fl k nav' < nav'.nx * nav'.ny
  unfolding start_cell
  starts_inside nav nav' g c w s =
      rw (c, w, s)
        (omega (arith, index-lt nav.nx nav.ny nav.start.0 nav.start.1 g.start_column g.start_row))

  -- For a map of at least one cell, and a goal and a start in it, a search by Dijkstra's method returns
  -- whatever the costs are: no access is out of the bounds of an array, the arrays keep their sizes,
  -- and no buffer gets more cells than it has memory for, or a cell of the first or the last row.
  pub calc_dijkstra-Searches :
      (at_start : Bool) (nav : NavFn F)
      → IsGiven nav
      → Searches nav (calc_dijkstra fl k at_start nav)
  unfolding calc_dijkstra prop_nav_fn_dijkstra
  calc_dijkstra-Searches at_start nav g =
      let s = setup_nav_fn-Sets fl k true nav g in
      let p =
        propagate-Runs fl k (λ n pot. pot) at_start (max (nav.nx * nav.ny / 20) (nav.nx + nav.ny))
          s.result s.ready (starts_inside nav s.result g s.columns s.rows s.start) in
      rw (s.returns, p.returns)
        (record {
          result = p.result;
          found = p.ended;
          returns = refl;
          ready = p.ready;
          columns = p.columns ∙ s.columns;
          rows = p.rows ∙ s.rows;
        })

  set_time-IsReady : (nav : NavFn F) (t : F) → IsReady nav → IsReady (record nav { cur_t = t })
  set_time-IsReady nav t r = record {
    columns = r.columns;
    costs = r.costs;
    pots = r.pots;
    flags = r.flags;
    outlined = r.outlined;
    cur = r.cur;
    next = r.next;
    over = r.over;
  }

  set_cost-IsReady :
      (nav : NavFn F) (p : F) → IsReady nav → IsReady (record nav { last_path_cost = p })
  set_cost-IsReady nav p r = record {
    columns = r.columns;
    costs = r.costs;
    pots = r.pots;
    flags = r.flags;
    outlined = r.outlined;
    cur = r.cur;
    next = r.next;
    over = r.over;
  }

  prop_nav_fn_astar-Searches :
      (cycles : ℕ) (nav : NavFn F)
      → IsReady nav
      → start_cell fl k nav < nav.nx * nav.ny
      → Searches nav (prop_nav_fn_astar fl k cycles nav)
  unfolding prop_nav_fn_astar start_cell
  prop_nav_fn_astar-Searches cycles nav r h =
      let p =
        propagate-Runs fl k
          (λ (n : ℕ) (pot : F). fl.add pot (distance_to_start fl k nav (n % nav.nx) (n / nav.nx)))
          true cycles
          (record nav {
            cur_t = fl.add (distance_to_start fl k nav nav.goal.0 nav.goal.1) nav.cur_t;
          })
          (set_time-IsReady nav _ r) h in
      let inside : p.result.start.1 * p.result.nx + p.result.start.0 < p.result.nx * p.result.ny =
        rw (p.columns, p.rows, p.start) h in
      let (c, e) =
        get_elem?-of_lt p.result.potarr (start_cell fl k p.result) (rw p.ready.pots inside) in
      rw (p.returns, e)
        (record {
          result = record p.result { last_path_cost = c };
          found = _;
          returns = refl;
          ready = set_cost-IsReady p.result c p.ready;
          columns = p.columns;
          rows = p.rows;
        })

  -- For a map of at least one cell, and a goal and a start in it, a search by A* returns whatever the
  -- costs are: no access is out of the bounds of an array, the arrays keep their sizes, and no buffer
  -- gets more cells than it has memory for, or a cell of the first or the last row.
  pub calc_astar-Searches : (nav : NavFn F) → IsGiven nav → Searches nav (calc_astar fl k nav)
  unfolding calc_astar
  calc_astar-Searches nav g =
      let s = setup_nav_fn-Sets fl k true nav g in
      let p =
        prop_nav_fn_astar-Searches (max (nav.nx * nav.ny / 20) (nav.nx + nav.ny)) s.result s.ready
          (starts_inside nav s.result g s.columns s.rows s.start) in
      rw (s.returns, p.returns)
        (record {
          result = p.result;
          found = p.found;
          returns = refl;
          ready = p.ready;
          columns = p.columns ∙ s.columns;
          rows = p.rows ∙ s.rows;
        })
