-- ===== src/Layer/Tests.antt =====
-- A layer over a small master grid, and the theorems at it.
use rosnavigation2copy.Prelude.{ℕ, ◌≡◌, refl, some, true, false, List, [], ◌∷◌, arith}
use rosnavigation2copy.Prelude.Loops.{for_range}
use rosnavigation2copy.Grid.{write, for_row, for_window}
use rosnavigation2copy.Costmap.{Costmap}
use rosnavigation2copy.Costmap.Reset.{Repaints}
use rosnavigation2copy.Layer.{Layer, update_with_max, update_with_addition}
use rosnavigation2copy.Layer.{max_cell, addition_cell}
use rosnavigation2copy.Layer.Cells.{greater, added}
use rosnavigation2copy.Layer.Updates.{
  Updates, layer_cost, update_with_max-Repaints, update_with_addition-Repaints,
}

abbrev blank : List ℕ → Costmap ℕ
blank cells = record {
  size_x = 3;
  size_y = 1;
  resolution = 1;
  origin_x = 0;
  origin_y = 0;
  costmap = cells;
  default_value = 255;
}

abbrev master : Costmap ℕ
master = blank (255 ∷ 100 ∷ 254 ∷ [])

abbrev layer : List ℕ → Layer ℕ
layer cells = record {
  costs = blank cells;
  enabled = true;
  has_extra_bounds = false;
  extra = record { min_x = 9; min_y = 9; max_x = 0; max_y = 0 };
}

abbrev first : Layer ℕ
first = layer (7 ∷ 255 ∷ 0 ∷ [])

abbrev second : Layer ℕ
second = layer (3 ∷ 153 ∷ 255 ∷ [])

first-Updates : Updates first master 0 0 3 1
first-Updates = record {
  enabled = refl;
  size = refl;
  valid = record { cells = refl; fits = omega arith };
  ordered = omega arith;
  inside = omega arith;
}

second-Updates : Updates second master 0 0 3 1
second-Updates = record {
  enabled = refl;
  size = refl;
  valid = first-Updates.valid;
  ordered = omega arith;
  inside = omega arith;
}

max_runs : update_with_max first master 0 0 3 1 ≡ some (blank (7 ∷ 100 ∷ 254 ∷ []))
unfolding update_with_max max_cell for_window for_row for_range write
max_runs = refl

-- A sum of exactly 253 is capped, and so is that of a lethal cell.
sums_capped : update_with_addition second master 0 0 3 1 ≡ some (blank (3 ∷ 252 ∷ 254 ∷ []))
unfolding update_with_addition addition_cell for_window for_row for_range write
sums_capped = refl

update_with_max-Repaints_example :
    Repaints
      (λ x y old. greater old (layer_cost first master x y))
      0
      0
      3
      1
      master
      (update_with_max first master 0 0 3 1)
update_with_max-Repaints_example = update_with_max-Repaints first master 0 0 3 1 first-Updates

update_with_addition-Repaints_example :
    Repaints
      (λ x y old. added old (layer_cost second master x y))
      0
      0
      3
      1
      master
      (update_with_addition second master 0 0 3 1)
update_with_addition-Repaints_example =
    update_with_addition-Repaints second master 0 0 3 1 second-Updates
