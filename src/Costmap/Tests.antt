-- ===== src/Costmap/Tests.antt =====
-- Runs of the cost map on a small grid, and the theorems at it.
use rosnavigation2copy.Prelude.{false, ℕ, ◌-◌, ◌≡◌, refl, some, true, [], ◌∷◌, arith}
use rosnavigation2copy.Prelude.Int.{to_signed, pos, negsuc}
use rosnavigation2copy.Prelude.Loops.{for_range}
use rosnavigation2copy.Platform.{whole, zeroed}
use rosnavigation2copy.Grid.{write}
use rosnavigation2copy.Costmap.{
  Costmap, IsValid, memset, memcpy, reset_rows, copy_rows, copy_map_region, reset_map, reset_maps,
  init_maps,
}
use rosnavigation2copy.Costmap.{
  assign, delete_maps, move_cells, update_origin, window_lower, window_extent, window_start,
  world_to_map, copy_costmap_window,
}
use rosnavigation2copy.Costmap.Copy.{IsWindow, assign-eq}
use rosnavigation2copy.Costmap.Origin.{Moves, update_origin-Moves}
use rosnavigation2copy.Costmap.World.{copy_costmap_window-IsWindow}

-- 4 5 6
-- 1 2 3
abbrev small : Costmap ℕ
small = record {
  size_x = 3;
  size_y = 2;
  resolution = 1;
  origin_x = 10;
  origin_y = 20;
  costmap = 1 ∷ 2 ∷ 3 ∷ 4 ∷ 5 ∷ 6 ∷ [];
  default_value = 255;
}

abbrev other : Costmap ℕ
other = record small { size_x = 1; size_y = 1; costmap = 9 ∷ []; default_value = 0 }

small-IsValid : IsValid small
small-IsValid = record { cells = refl; fits = omega arith }

reset_corner :
    reset_map small 1 0 3 1 ≡ some (record small { costmap = 1 ∷ 255 ∷ 255 ∷ 4 ∷ 5 ∷ 6 ∷ [] })
unfolding reset_map reset_rows memset for_range write
reset_corner = refl

moved :
    move_cells zeroed small (pos 1) (negsuc 0) 11 19
    ≡ some (record small {
      origin_x = 11;
      origin_y = 19;
      costmap = 255 ∷ 255 ∷ 255 ∷ 2 ∷ 3 ∷ 255 ∷ [];
    })
unfolding move_cells copy_map_region copy_rows memcpy reset_maps memset for_range write to_signed
    window_lower window_extent window_start
moved = refl

assigned : assign zeroed other small ≡ some (record small { default_value = 0 })
unfolding assign init_maps delete_maps memcpy for_range write
assigned = refl

assign-eq_example : assign zeroed other small ≡ some (record small { default_value = 0 })
assign-eq_example = assign-eq zeroed other small small-IsValid

update_origin-Moves_example :
    Moves (pos 1) (pos 1) small 11 21 (update_origin whole zeroed small 11 21)
update_origin-Moves_example =
    update_origin-Moves whole zeroed small 11 21 small-IsValid (omega arith) (omega arith)

copy_costmap_window-IsWindow_example :
    (c' : Costmap ℕ) × (copy_costmap_window whole false zeroed other small 11 20 1 1
      ≡ some (c', true))
    × (c'.size_x ≡ 2 - 1)
    × (c'.size_y ≡ 1 - 0)
    × IsWindow small 1 0 c'
unfolding world_to_map
copy_costmap_window-IsWindow_example =
    copy_costmap_window-IsWindow whole zeroed other small 11 20 1 1 1 0 2 1 small-IsValid refl refl
      (omega arith) (omega arith)
