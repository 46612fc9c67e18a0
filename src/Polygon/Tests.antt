-- ===== src/Polygon/Tests.antt =====
-- A triangle in a map of 4 by 4 cells.
use rosnavigation2copy.Prelude.{
  ℕ, ◌+◌, ◌/◌, ◌≤◌, ◌<◌, ◌≡◌, refl, true, false, ◌&&◌, some, List, [], ◌∷◌, replicate, arith, ltb,
  leb,
}
use rosnavigation2copy.Prelude.Int.{to_signed, pos_part, neg_part, ◌-ℤ◌, ◌*ℤ◌}
use rosnavigation2copy.Platform.{whole, ExactCounts}
use rosnavigation2copy.Costmap.{Costmap, world_to_map, get_index, index_to_cells}
use rosnavigation2copy.Grid.{write}
use rosnavigation2copy.Raytrace.{raytrace_line, bresenham_2d, bresenham, add_offset, sign, scale_of}
use rosnavigation2copy.Polygon.{
  MapLocation, edges, to_map, set_convex_polygon_cost, convex_fill_cells, polygon_outline_cells,
  sort_by_x, sort_step, rev_append, fill_columns, rest_of_column, first_span, widen_span,
  column_cells, edge, gather, set_cells,
}
use rosnavigation2copy.Polygon.Costs.{IsFilled, set_convex_polygon_cost-Outcome}

abbrev blank : Costmap ℕ
blank = record {
  size_x = 4;
  size_y = 4;
  resolution = 1;
  origin_x = 0;
  origin_y = 0;
  costmap = replicate 16 0;
  default_value = 0;
}

abbrev corner : ℕ → ℕ → MapLocation
corner x y = record { x = x; y = y }

at_least_one : (a n : ℕ) → 0 < n → n ≤ a → ltb (a / n) 1 ≡ false
at_least_one a n pos_n le = grind arith

not_zero : (n : ℕ) → (leb n 0 && leb 0 n) ≡ false → 0 < n
not_zero n e = ground arith

whole-ExactCounts : ExactCounts whole
whole-ExactCounts = record {
  one_mul = λ d. omega arith;
  to_u32-of_nat = λ n lt. refl;
  ratio = λ dx dy small e.
      at_least_one 4294967295 (pos_part dx + neg_part dx + (pos_part dy + neg_part dy))
        (not_zero _ e) (omega arith);
}

set_convex_polygon_cost-Outcome_example :
    IsFilled blank 9
      (edges whole blank (corner 0 0) (corner 0 0) (corner 3 0 ∷ corner 0 3 ∷ []))
      (set_convex_polygon_cost whole blank ((0, 0) ∷ (3, 0) ∷ (0, 3) ∷ []) 9)
unfolding to_map world_to_map
set_convex_polygon_cost-Outcome_example =
    set_convex_polygon_cost-Outcome whole whole-ExactCounts blank
      (record { cells = refl; fits = omega arith }) (omega arith, omega arith)
      ((0, 0) ∷ (3, 0) ∷ (0, 3) ∷ []) 9

-- The triangle, row by row.
abbrev triangle : List ℕ
triangle = 9 ∷ 9 ∷ 9 ∷ 9 ∷ 9 ∷ 9 ∷ 9 ∷ 0 ∷ 9 ∷ 9 ∷ 0 ∷ 0 ∷ 9 ∷ 0 ∷ 0 ∷ 0 ∷ []

fill_triangle :
    set_convex_polygon_cost whole blank ((0, 0) ∷ (3, 0) ∷ (0, 3) ∷ []) 9
    ≡ some (record blank { costmap = triangle }, true)
unfolding set_convex_polygon_cost to_map world_to_map convex_fill_cells polygon_outline_cells edges
    edge gather index_to_cells sort_by_x sort_step rev_append fill_columns rest_of_column first_span
    widen_span column_cells set_cells raytrace_line bresenham_2d bresenham add_offset sign scale_of
    to_signed ◌-ℤ◌ ◌*ℤ◌ write get_index
fill_triangle = refl
