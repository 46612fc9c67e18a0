-- ===== src/Layer/Updates.antt =====
-- The four updates of the master grid, cell by cell, and what updateWithMax makes of two layers.
use rosnavigation2copy.Prelude.{ℕ, ◌*◌, ◌≤◌, ◌≡◌, refl, Option, some}
use rosnavigation2copy.Prelude.{List, true, false, arith}
use rosnavigation2copy.Prelude.{length, get_or}
use rosnavigation2copy.Grid.{at}
use rosnavigation2copy.Grid.Window.{Writes, for_window-MapsWindow}
use rosnavigation2copy.Costmap.{Costmap, IsValid}
use rosnavigation2copy.Costmap.Reset.{Repaints, MapsWindow-Repaints}
use rosnavigation2copy.Layer.{Layer, update_cells}
use rosnavigation2copy.Layer.{
  update_with_max, update_with_true_overwrite, update_with_overwrite, update_with_addition,
}
use rosnavigation2copy.Layer.{max_cell, true_overwrite_cell, overwrite_cell, addition_cell}
use rosnavigation2copy.Layer.Cells.{
  greater, overwritten, added, max_cell-Writes, true_overwrite_cell-Writes, overwrite_cell-Writes,
  addition_cell-Writes,
}

-- The layer is enabled and has the size of the master grid, and the window lies in the grid.
pub record Updates {D : Type 0} (l : Layer D) (master : Costmap D) (min_i min_j max_i max_j : ℕ)
    : Type 0 where
  pub enabled : l.enabled ≡ true
  pub size : length l.costs.costmap ≡ master.size_y * master.size_x
  pub valid : IsValid master
  pub ordered : (min_i ≤ max_i) × (min_j ≤ max_j)
  pub inside : (max_i ≤ master.size_x) × (max_j ≤ master.size_y)

-- The layer's cost of a cell of the master grid.
abbrev pub layer_cost : {D : Type 0} → Layer D → Costmap D → ℕ → ℕ → ℕ
layer_cost l master x y = at master.size_x l.costs.costmap x y

module _ {D : Type 0} (l : Layer D) (master : Costmap D) (min_i min_j max_i max_j : ℕ)
    (u : Updates l master min_i min_j max_i max_j) where
  update_cells-Repaints :
      (cell : List ℕ → ℕ → List ℕ → Option (List ℕ)) (f : ℕ → ℕ → ℕ)
      → Writes
          (λ q old. f old (get_or l.costs.costmap q 0))
          (cell l.costs.costmap)
          (master.size_y * master.size_x)
      → Repaints
          (λ x y old. f old (layer_cost l master x y))
          min_i
          min_j
          max_i
          max_j
          master
          (update_cells cell l master min_i min_j max_i max_j)
  unfolding update_cells at
  update_cells-Repaints cell f writes = rw u.enabled (
      MapsWindow-Repaints master _ u.valid (
        for_window-MapsWindow (λ q old. f old (get_or l.costs.costmap q 0)) (cell l.costs.costmap)
          master.size_x master.size_y (omega (arith, u.valid.fits)) writes min_i min_j max_i max_j
          master.costmap u.valid.cells u.ordered.0 u.ordered.1 u.inside.0 u.inside.1))

  -- An enabled layer of the master's size, and a window in the grid: `update_with_max` gives each
  -- cell of the window the greater of its cost and the layer's, where "no information" is the least
  -- of costs, and changes nothing else.
  pub update_with_max-Repaints :
      Repaints
        (λ x y old. greater old (layer_cost l master x y))
        min_i
        min_j
        max_i
        max_j
        master
        (update_with_max l master min_i min_j max_i max_j)
  unfolding update_with_max
  update_with_max-Repaints =
      update_cells-Repaints max_cell greater (max_cell-Writes l.costs.costmap _ u.size)

  -- The same for `update_with_true_overwrite`: the cells of the window get the layer's costs.
  pub update_with_true_overwrite-Repaints :
      Repaints
        (λ x y old. layer_cost l master x y)
        min_i
        min_j
        max_i
        max_j
        master
        (update_with_true_overwrite l master min_i min_j max_i max_j)
  unfolding update_with_true_overwrite
  update_with_true_overwrite-Repaints =
      update_cells-Repaints true_overwrite_cell (λ old cost. cost)
        (true_overwrite_cell-Writes l.costs.costmap _ u.size)

  -- The same for `update_with_overwrite`: the cells of the window that the layer knows get its
  -- costs.
  update_with_overwrite-Repaints :
      Repaints
        (λ x y old. overwritten old (layer_cost l master x y))
        min_i
        min_j
        max_i
        max_j
        master
        (update_with_overwrite l master min_i min_j max_i max_j)
  unfolding update_with_overwrite
  update_with_overwrite-Repaints =
      update_cells-Repaints overwrite_cell overwritten
        (overwrite_cell-Writes l.costs.costmap _ u.size)

  -- An enabled layer of the master's size, and a window in the grid: `update_with_addition` gives a
  -- cell of the window that both know the sum of the two costs, or 252 if that is less, and one that
  -- only one of them knows that cost, and changes nothing else.
  pub update_with_addition-Repaints :
      Repaints
        (λ x y old. added old (layer_cost l master x y))
        min_i
        min_j
        max_i
        max_j
        master
        (update_with_addition l master min_i min_j max_i max_j)
  unfolding update_with_addition
  update_with_addition-Repaints =
      update_cells-Repaints addition_cell added (addition_cell-Writes l.costs.costmap _ u.size)

-- A layer that is not enabled changes nothing, by any of the four.
update_disabled :
    {D : Type 0} (l : Layer D) (master : Costmap D) (min_i min_j max_i max_j : ℕ)
    → l.enabled ≡ false
    → (update_with_max l master min_i min_j max_i max_j ≡ some master)
      × (update_with_true_overwrite l master min_i min_j max_i max_j ≡ some master)
      × (update_with_overwrite l master min_i min_j max_i max_j ≡ some master)
      × (update_with_addition l master min_i min_j max_i max_j ≡ some master)
unfolding update_with_max update_with_true_overwrite update_with_overwrite update_with_addition
update_disabled l master min_i min_j max_i max_j off = rw off (refl, refl, refl, refl)
