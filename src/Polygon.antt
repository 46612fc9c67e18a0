-- ===== src/Polygon.antt =====
-- setConvexPolygonCost, polygonOutlineCells and convexFillCells of
-- nav2_costmap_2d/src/costmap_2d.cpp, and the class PolygonOutlineCells of its header. A vector has
-- less than 2 ^ 32 cells, so that its indices do not wrap around.
pub mod Cells
pub mod Sorting
pub mod Columns
pub mod Filling
pub mod Loop
pub mod Edges
pub mod Outline
pub mod Hull
pub mod Costs
mod Tests
use rosnavigation2copy.Prelude.{
  ℕ, zero, suc, ◌+◌, ◌-◌, ◌*◌, Bool, true, false, Option, none, some, List, [], ◌∷◌, ◌++◌, map,
  length, get_elem?, ltb, leb, ◌==◌, if◌then◌else◌,
}
use rosnavigation2copy.Prelude.Loops.{◌>>=◌}
use rosnavigation2copy.Platform.{Floats}
use rosnavigation2copy.Grid.{read, write}
use rosnavigation2copy.Costmap.{Costmap, get_index, index_to_cells, world_to_map}
use rosnavigation2copy.Raytrace.{raytrace_line}

pub record MapLocation : Type 0 where
  pub x : ℕ
  pub y : ℕ

-- The sort is a walk over the vector: the cells before i, the nearest first, and those from i on.
unfoldable pub rev_append : List MapLocation → List MapLocation → List MapLocation
rev_append [] after = after
rev_append (p ∷ before) after = rev_append before (p ∷ after)

-- One round, where `a` and `b` are at i and i + 1.
unfoldable pub sort_step :
    List MapLocation
    → MapLocation
    → MapLocation
    → List MapLocation
    → List MapLocation × List MapLocation
sort_step [] a b after = if ltb b.x a.x then ([], b ∷ a ∷ after) else (a ∷ [], b ∷ after)
sort_step (p ∷ before) a b after =
    if ltb b.x a.x then (before, p ∷ b ∷ a ∷ after) else (a ∷ p ∷ before, b ∷ after)

-- `none` if the fuel runs out.
unfoldable pub sort_by_x : ℕ → List MapLocation → List MapLocation → Option (List MapLocation)
sort_by_x zero before after = none
sort_by_x (suc fuel) before [] = some (rev_append before [])
sort_by_x (suc fuel) before (a ∷ []) = some (rev_append before (a ∷ []))
sort_by_x (suc fuel) before (a ∷ b ∷ after) =
    let s = sort_step before a b after in sort_by_x fuel s.0 s.1

-- min_pt and max_pt
pub record Span : Type 0 where
  pub min_pt : MapLocation
  pub max_pt : MapLocation

unfoldable pub first_span : MapLocation → MapLocation → Span
first_span a b =
    if ltb a.y b.y then record { min_pt = a; max_pt = b } else record { min_pt = b; max_pt = a }

unfoldable pub widen_span : Span → MapLocation → Span
widen_span s p =
    if ltb p.y s.min_pt.y
    then record s { min_pt = p }
    else if ltb s.max_pt.y p.y
    then record s { max_pt = p }
    else s

-- The cells of the column from i on: where they end, and their span.
unfoldable pub rest_of_column : ℕ → ℕ → ℕ → Span → List MapLocation → Option (ℕ × Span)
rest_of_column zero x i s cells = none
rest_of_column (suc fuel) x i s cells = elim (get_elem? cells i) [
  | none ↦ some (i, s)
  | some p ↦ elim (p.x == x) [
    | true ↦ rest_of_column fuel x (i + 1) (widen_span s p) cells
    | false ↦ some (i, s)
  ]
]

-- The cells (x, y), (x, y + 1) and so on that a column gets.
unfoldable pub column_cells : ℕ → ℕ → ℕ → List MapLocation
column_cells zero x y = []
column_cells (suc n) x y = record { x = x; y = y } ∷ column_cells n x (y + 1)

-- The loop over the columns, of which the first argument are left. The vector grows while it runs.
unfoldable pub fill_columns : ℕ → ℕ → ℕ → List MapLocation → Option (List MapLocation)
fill_columns zero x i cells = some cells
fill_columns (suc columns) x i cells = elim (leb (length cells - 1) i) [
  | true ↦ some cells
  | false ↦ read cells i >>= λ a. read cells (i + 1) >>= λ b.
      rest_of_column (suc (length cells)) x (i + 2) (first_span a b) cells >>= λ s.
      fill_columns columns (x + 1) s.0
        (cells ++ column_cells (s.1.max_pt.y - s.1.min_pt.y) x s.1.min_pt.y)
]

module _ {D : Type 0} where
  -- The operator of PolygonOutlineCells: the cell of an offset.
  unfoldable pub gather : Costmap D → ℕ → MapLocation
  gather c offset = let p = index_to_cells c offset in record { x = p.0; y = p.1 }

  -- costmap_[getIndex(cell)] = cost_value for each cell
  unfoldable pub set_cells : Costmap D → ℕ → List MapLocation → Option (Costmap D)
  set_cells c cost_value [] = some c
  set_cells c cost_value (p ∷ cells) = write c.costmap (get_index c p.x p.y) cost_value >>= λ m.
      set_cells (record c { costmap = m }) cost_value cells

module _ {D : Type 0} (fl : Floats D) where
  -- The cells of the line between two corners, with the default for max_length.
  unfoldable pub edge : Costmap D → MapLocation → MapLocation → List MapLocation
  edge c p q = map (gather c) (raytrace_line fl c.size_x p.x p.y q.x q.y 4294967295)

  -- From `p` over the corners that are left, and back to the first one.
  unfoldable pub edges : Costmap D → MapLocation → MapLocation → List MapLocation → List MapLocation
  edges c first p [] = edge c p first
  edges c first p (q ∷ polygon) = edge c p q ++ edges c first q polygon

  -- Without a corner the bound of the loop wraps around, and the loop reads out of the vector.
  unfoldable pub polygon_outline_cells :
      Costmap D → List MapLocation → List MapLocation → Option (List MapLocation)
  polygon_outline_cells c [] cells = none
  polygon_outline_cells c (p ∷ polygon) cells = some (cells ++ edges c p p polygon)

  unfoldable pub convex_fill_cells :
      Costmap D → List MapLocation → List MapLocation → Option (List MapLocation)
  convex_fill_cells c polygon polygon_cells =
      if ltb (length polygon) 3
      then some polygon_cells
      else polygon_outline_cells c polygon polygon_cells >>= λ outline.
          let n = length outline in
          sort_by_x (suc (2 * (n * n) + n)) [] outline >>= λ cells. read cells 0 >>= λ first.
          read cells (length cells - 1) >>= λ last.
          fill_columns (last.x + 1 - first.x) first.x 0 cells

  -- The corners in cells of the map; `none` if one is off the map.
  unfoldable pub to_map : Costmap D → List (D × D) → Option (List MapLocation)
  to_map c [] = some []
  to_map c ((wx, wy) ∷ polygon) = world_to_map fl c wx wy >>= λ loc.
      to_map c polygon >>= λ map_polygon. some (record { x = loc.0; y = loc.1 } ∷ map_polygon)

  -- The Boolean is what the method returns.
  unfoldable pub set_convex_polygon_cost : Costmap D → List (D × D) → ℕ → Option (Costmap D × Bool)
  set_convex_polygon_cost c polygon cost_value = elim (to_map c polygon) [
    | none ↦ some (c, false)
    | some map_polygon ↦ convex_fill_cells c map_polygon [] >>= λ polygon_cells.
        set_cells c cost_value polygon_cells >>= λ c'. some (c', true)
  ]
