-- ===== src/Layer.antt =====
-- nav2_costmap_2d/src/costmap_layer.cpp and cost_values.hpp: a layer with costs of its own, and the
-- four ways in which it writes them into the master grid. The `int` bounds of an update are natural
-- numbers, since updateMap clips them to the grid before it calls the layers.
pub mod Cells
pub mod Updates
mod Tests
pub mod Compose
use rosnavigation2copy.Prelude.{
  ℕ, ◌+◌, ◌-◌, Bool, true, false, ◌||◌, not, Option, none, some, List, ltb, leb, ◌==◌,
}
use rosnavigation2copy.Prelude.{if◌then◌else◌, u8}
use rosnavigation2copy.Prelude.Loops.{◌>>=◌}
use rosnavigation2copy.Platform.{Floats, Memory}
use rosnavigation2copy.Grid.{read, write, for_window}
use rosnavigation2copy.Costmap.{Costmap, resize_map}

abbrev pub no_information : ℕ
no_information = 255

abbrev pub lethal_obstacle : ℕ
lethal_obstacle = 254

abbrev pub inscribed_inflated_obstacle : ℕ
inscribed_inflated_obstacle = 253

abbrev pub free_space : ℕ
free_space = 0

-- A rectangle in the world: min_x, min_y, max_x, max_y.
pub record Bounds (D : Type 0) : Type 0 where
  pub min_x : D
  pub min_y : D
  pub max_x : D
  pub max_y : D

pub record Layer (D : Type 0) : Type 0 where
  pub costs : Costmap D  -- the base class Costmap2D
  pub enabled : Bool
  pub has_extra_bounds : Bool
  pub extra : Bounds D

-- One round of each inner loop, at index `it`.
unfoldable pub max_cell : List ℕ → ℕ → List ℕ → Option (List ℕ)
max_cell costmap it master = do
  cost ← read costmap it
  if cost == no_information then some master else do
    old_cost ← read master it
    if old_cost == no_information || ltb old_cost cost then write master it cost else some master

unfoldable pub true_overwrite_cell : List ℕ → ℕ → List ℕ → Option (List ℕ)
true_overwrite_cell costmap it master = do cost ← read costmap it; write master it cost

unfoldable pub overwrite_cell : List ℕ → ℕ → List ℕ → Option (List ℕ)
overwrite_cell costmap it master = do
  cost ← read costmap it
  if not (cost == no_information) then write master it cost else some master

unfoldable pub addition_cell : List ℕ → ℕ → List ℕ → Option (List ℕ)
addition_cell costmap it master = do
  cost ← read costmap it
  if cost == no_information then some master else do
    old_cost ← read master it
    if old_cost == no_information
        then write master it cost
        else let sum = old_cost + cost in
          if leb inscribed_inflated_obstacle sum
          then write master it (inscribed_inflated_obstacle - 1)
          else write master it (u8 sum)

module _ {D : Type 0} where
  -- The guard and the loop nest of an update.
  update_cells :
      (List ℕ → ℕ → List ℕ → Option (List ℕ))
      → Layer D
      → Costmap D
      → ℕ
      → ℕ
      → ℕ
      → ℕ
      → Option (Costmap D)
  update_cells cell l master_grid min_i min_j max_i max_j =
      if not l.enabled
      then some master_grid
      else for_window (cell l.costs.costmap) master_grid.size_x min_i min_j max_i max_j
          master_grid.costmap
        >>= λ m. some (record master_grid { costmap = m })

  unfoldable pub update_with_max : Layer D → Costmap D → ℕ → ℕ → ℕ → ℕ → Option (Costmap D)
  unfolding update_cells
  update_with_max = update_cells max_cell

  unfoldable pub update_with_true_overwrite :
      Layer D → Costmap D → ℕ → ℕ → ℕ → ℕ → Option (Costmap D)
  unfolding update_cells
  update_with_true_overwrite = update_cells true_overwrite_cell

  unfoldable pub update_with_overwrite : Layer D → Costmap D → ℕ → ℕ → ℕ → ℕ → Option (Costmap D)
  unfolding update_cells
  update_with_overwrite = update_cells overwrite_cell

  unfoldable pub update_with_addition : Layer D → Costmap D → ℕ → ℕ → ℕ → ℕ → Option (Costmap D)
  unfolding update_cells
  update_with_addition = update_cells addition_cell

  unfoldable pub match_size : Memory → Layer D → Costmap D → Option (Layer D)
  match_size mem l master = do
    c ←
        resize_map mem l.costs master.size_x master.size_y master.resolution master.origin_x
          master.origin_y
    some (record l { costs = c })

module _ {D : Type 0} (fl : Floats D) where
  open fl use {lt}

  -- std::min and std::max
  unfoldable pub fmin : D → D → D
  fmin a b = if lt b a then b else a

  unfoldable pub fmax : D → D → D
  fmax a b = if lt a b then b else a

  unfoldable pub touch : D → D → Bounds D → Bounds D
  touch x y b = record {
    min_x = fmin x b.min_x;
    min_y = fmin y b.min_y;
    max_x = fmax x b.max_x;
    max_y = fmax y b.max_y;
  }

  unfoldable pub add_extra_bounds : Layer D → D → D → D → D → Layer D
  add_extra_bounds l mx0 my0 mx1 my1 = record l {
    extra = record {
      min_x = fmin mx0 l.extra.min_x;
      min_y = fmin my0 l.extra.min_y;
      max_x = fmax mx1 l.extra.max_x;
      max_y = fmax my1 l.extra.max_y;
    };
    has_extra_bounds = true;
  }

  -- `far` and `minus_far` are 1e6 and -1e6. The pair is the layer and the caller's bounds.
  unfoldable pub use_extra_bounds : D → D → Layer D → Bounds D → Layer D × Bounds D
  use_extra_bounds far minus_far l b = if not l.has_extra_bounds then (l, b) else (
    record l {
      extra = record { min_x = far; min_y = far; max_x = minus_far; max_y = minus_far };
      has_extra_bounds = false;
    },
    record {
      min_x = fmin l.extra.min_x b.min_x;
      min_y = fmin l.extra.min_y b.min_y;
      max_x = fmax l.extra.max_x b.max_x;
      max_y = fmax l.extra.max_y b.max_y;
    },
  )
