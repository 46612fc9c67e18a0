-- ===== src/NavFn/Propagation.antt =====
-- propNavFnDijkstra and propNavFnAstar of nav2_navfn_planner/src/navfn.cpp: the cycles of the wave.
use rosnavigation2copy.Prelude.{
  ℕ, zero, suc, ◌+◌, ◌*◌, ◌/◌, ◌%◌, Bool, true, false, ◌&&◌, Option, some, [], ◌∷◌, length,
  get_elem?, ◌==◌, if◌then◌else◌,
}
use rosnavigation2copy.Prelude.Loops.{◌>>=◌}
use rosnavigation2copy.Prelude.Int.{sub_ℕ}
use rosnavigation2copy.Platform.{Floats}
use rosnavigation2copy.NavFn.{Constants, NavFn, cost_neutral, reset_pending, update_cells}

module _ {F : Type 0} (fl : Floats F) (k : Constants F) where
  open fl use {add, sub, mul, div, lt, le, of_nat}

  -- The buffers are swapped, and the overflow is taken up if no cell is next.
  unfoldable pub swap_buffers : NavFn F → NavFn F
  swap_buffers nav = elim nav.next_p [
    | [] ↦ record nav {
      cur_p = nav.over_p;
      next_p = [];
      over_p = [];
      cur_t = add nav.cur_t nav.pri_inc;
    }
    | n ∷ cells ↦ record nav { cur_p = n ∷ cells; next_p = [] }
  ]

  -- One cycle of a propagation.
  unfoldable pub cycle : (ℕ → F → F) → NavFn F → Option (NavFn F)
  cycle rank nav = do
    pending ← reset_pending nav.cur_p nav.pending
    nav' ← update_cells fl k rank nav.cur_p (record nav { pending = pending })
    some (swap_buffers nav')

  abbrev pub is_idle : NavFn F → Bool
  is_idle nav = length nav.cur_p == 0 && length nav.next_p == 0

  unfoldable pub start_cell : NavFn F → ℕ
  start_cell nav = nav.start.1 * nav.nx + nav.start.0

  -- The cycles of a propagation, and whether it ended before they were used up.
  unfoldable pub propagate : (ℕ → F → F) → Bool → ℕ → NavFn F → Option (NavFn F × Bool)
  propagate rank at_start zero nav = some (nav, false)
  propagate rank at_start (suc cycles) nav =
      let next = cycle rank nav >>= λ (nav' : NavFn F).
      (get_elem? nav'.potarr (start_cell nav') >>= λ (p : F). elim (at_start && lt p k.pot_high) [
        | true ↦ some (nav', true)
        | false ↦ propagate rank at_start cycles nav'
      ]) in
      if is_idle nav then some (nav, true) else next

  unfoldable pub prop_nav_fn_dijkstra : ℕ → Bool → NavFn F → Option (NavFn F × Bool)
  prop_nav_fn_dijkstra cycles at_start nav = propagate (λ n pot. pot) at_start cycles nav

  unfoldable pub distance_to_start : NavFn F → ℕ → ℕ → F
  distance_to_start nav x y =
      mul (fl.hypot (sub_ℕ x nav.start.0) (sub_ℕ y nav.start.1)) (of_nat cost_neutral)

  -- A* stops when the start has a potential, and returns whether it has one.
  unfoldable pub prop_nav_fn_astar : ℕ → NavFn F → Option (NavFn F × Bool)
  prop_nav_fn_astar cycles nav = do
    let dist = distance_to_start nav nav.goal.0 nav.goal.1
    let rank = λ (n : ℕ) (pot : F). add pot (distance_to_start nav (n % nav.nx) (n / nav.nx))
    (nav', _) ← propagate rank true cycles (record nav { cur_t = add dist nav.cur_t })
    p ← get_elem? nav'.potarr (start_cell nav')
    some (record nav' { last_path_cost = p }, lt p k.pot_high)
