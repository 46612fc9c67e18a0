-- ===== src/NavFn/Within.antt =====
-- initCost and setupNavFn: for a goal in the map, the arrays and the buffers become ready for a wave.
use rosnavigation2copy.Prelude.{
  ℕ, ◌+◌, ◌*◌, ◌≤◌, ◌<◌, ◌≡◌, refl, Bool, true, false, Option, none, some, List, [], length,
  length-replicate, get_elem?-of_lt, replicate, arith, if◌then◌else◌,
}
use rosnavigation2copy.Platform.{Floats}
use rosnavigation2copy.Grid.Index.{index-lt}
use rosnavigation2copy.NavFn.{Constants, NavFn, cost_neutral, cost_obs, minus, count_obstacles}
use rosnavigation2copy.NavFn.Calculation.{push_from, init_cost, setup_nav_fn}
use rosnavigation2copy.NavFn.Safety.{IsOutlined, push-Pushes}
use rosnavigation2copy.NavFn.Safety.Cells.{
  IsReady, Keeps, Keeps-refl, set_pot-IsReady, Keeps-set_pot,
}
use rosnavigation2copy.NavFn.Safety.Waves.{Keeps-bind}
use rosnavigation2copy.NavFn.Setup.{outline_map-IsFramed}

module _ {F : Type 0} where
  -- The sizes that calcNavFn relies on: a map of at least one cell, with the goal and the start in it.
  pub record IsGiven (nav : NavFn F) : Type 0 where
    pub columns : 1 ≤ nav.nx
    pub costs : length nav.costarr ≡ nav.nx * nav.ny
    pub goal_column : nav.goal.0 < nav.nx
    pub goal_row : nav.goal.1 < nav.ny
    pub start_column : nav.start.0 < nav.nx
    pub start_row : nav.start.1 < nav.ny

  -- The state that setupNavFn makes is ready, for a map of the same size and the same start.
  pub record Sets (nav : NavFn F) (o : Option (NavFn F)) : Type 0 where
    pub result : NavFn F
    pub returns : o ≡ some result
    pub ready : IsReady result
    pub columns : result.nx ≡ nav.nx
    pub rows : result.ny ≡ nav.ny
    pub start : result.start ≡ nav.start

module _ {F : Type 0} (fl : Floats F) (k : Constants F) where
  push_from-Keeps : (o : Option ℕ) (nav : NavFn F) → IsReady nav → Keeps nav (push_from fl k o nav)
  unfolding push_from
  push_from-Keeps none nav r = Keeps-refl nav r
  push_from-Keeps (some n) nav r =
      let p =
        push-Pushes nav.nx (nav.nx * nav.ny) nav.costarr r.costs r.outlined n nav.cur_p nav.pending
          r.cur r.flags in
      rw p.returns (record {
        result = record nav { cur_p = p.buf; pending = p.pending };
        returns = refl;
        ready = record {
          columns = r.columns;
          costs = r.costs;
          pots = r.pots;
          flags = p.flags;
          outlined = r.outlined;
          cur = p.good;
          next = r.next;
          over = r.over;
        };
        costarr = refl;
        columns = refl;
        rows = refl;
        start = refl;
      })

  init_cost-Keeps :
      (n : ℕ) (v : F) (nav : NavFn F)
      → IsReady nav
      → n < nav.nx * nav.ny
      → Keeps nav (init_cost fl k n v nav)
  unfolding init_cost
  init_cost-Keeps n v nav r h =
      let (p, e) = get_elem?-of_lt nav.potarr n (rw r.pots h) in
      rw e (
        Keeps-set_pot fl k nav n v _ (
          Keeps-bind fl k _ _ _ (push_from-Keeps (some (n + 1)) _ (set_pot-IsReady fl k nav n v r))
            λ nav1 r1 _ _.
              Keeps-bind fl k _ _ _ (push_from-Keeps (minus n 1) nav1 r1) λ nav2 r2 _ _.
                Keeps-bind fl k _ _ _ (push_from-Keeps (minus n nav.nx) nav2 r2)
                  λ nav3 r3 _ _. push_from-Keeps (some (n + nav.nx)) nav3 r3))

  -- The costs that the outline is drawn on.
  length-kept :
      (keepit : Bool) (costarr : List ℕ) (ns : ℕ)
      → length costarr ≡ ns
      → length (if keepit then costarr else replicate ns cost_neutral) ≡ ns
  length-kept true costarr ns h = h
  length-kept false costarr ns h = length-replicate ns cost_neutral

  -- The state that the wave starts from.
  abbrev fresh : NavFn F → List ℕ → NavFn F
  fresh nav costarr = record nav {
    costarr = costarr;
    potarr = replicate (nav.nx * nav.ny) k.pot_high;
    pending = replicate (nav.nx * nav.ny) false;
    cur_p = [];
    next_p = [];
    over_p = [];
    cur_t = fl.of_nat cost_obs;
  }

  fresh-IsReady :
      (nav : NavFn F) (costarr : List ℕ)
      → 1 ≤ nav.nx
      → length costarr ≡ nav.nx * nav.ny
      → IsOutlined nav.nx (nav.nx * nav.ny) costarr
      → IsReady (fresh nav costarr)
  fresh-IsReady nav costarr h l o = record {
    columns = h;
    costs = l;
    pots = length-replicate (nav.nx * nav.ny) k.pot_high;
    flags = length-replicate (nav.nx * nav.ny) false;
    outlined = o;
    cur = record { inner = tt; fits = omega arith };
    next = record { inner = tt; fits = omega arith };
    over = record { inner = tt; fits = omega arith };
  }

  count-IsReady : (nav : NavFn F) (n : ℕ) → IsReady nav → IsReady (record nav { nobs = n })
  count-IsReady nav n r = record {
    columns = r.columns;
    costs = r.costs;
    pots = r.pots;
    flags = r.flags;
    outlined = r.outlined;
    cur = r.cur;
    next = r.next;
    over = r.over;
  }

  pub setup_nav_fn-Sets :
      (keepit : Bool) (nav : NavFn F) → IsGiven nav → Sets nav (setup_nav_fn fl k keepit nav)
  unfolding setup_nav_fn
  setup_nav_fn-Sets keepit nav g =
      let one_row : 1 ≤ nav.ny = omega (arith, g.goal_row) in
      let ns = nav.nx * nav.ny in
      let goal : nav.goal.0 + nav.goal.1 * nav.nx < ns =
        omega (arith, index-lt nav.nx nav.ny nav.goal.0 nav.goal.1 g.goal_column g.goal_row) in
      let frame =
        outline_map-IsFramed nav.nx nav.ny _ g.columns one_row
          (length-kept keepit nav.costarr (nav.nx * nav.ny) g.costs) in
      let p =
        init_cost-Keeps _ (fl.of_nat 0) _
          (fresh-IsReady nav frame.result g.columns frame.sized frame.outlined) goal in
      rw (frame.returns, p.returns)
        (record {
          result = _;
          returns = refl;
          ready = count-IsReady p.result (count_obstacles p.result.costarr) p.ready;
          columns = p.columns;
          rows = p.rows;
          start = p.start;
        })
