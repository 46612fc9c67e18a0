-- ===== src/Layered/Tests.antt =====
-- Runs of the layered cost map: one layer over a map of 2 by 2 cells.
use rosnavigation2copy.Prelude.{ℕ, ◌≡◌, refl, true, false, some, List, [], ◌∷◌, arith}
use rosnavigation2copy.Platform.{whole, zeroed}
use rosnavigation2copy.Grid.{at}
use rosnavigation2copy.Costmap.{Costmap, world_to_map_enforce_bounds}
use rosnavigation2copy.Layer.{Bounds, Layer, update_with_max, match_size}
use rosnavigation2copy.Layer.Cells.{greater}
use rosnavigation2copy.Layered.{Plugin, LayeredCostmap, new, update_map, widen, resize_map}
use rosnavigation2copy.Layered.Updates.{touches, Composes, update_map-Composes}
use rosnavigation2copy.Layered.Painting.{max-Paints}
use rosnavigation2copy.Layered.Painting.AllPaint.{none_left, one_more}
use rosnavigation2copy.Costmap.Reset.{IsBlank}
use rosnavigation2copy.Layered.Sizes.{Matches, AllMatch, match_size-Matches, resize_map-AllMatch}

abbrev square : List ℕ → Costmap ℕ
square cells = record {
  size_x = 2;
  size_y = 2;
  resolution = 1;
  origin_x = 0;
  origin_y = 0;
  costmap = cells;
  default_value = 0;
}

abbrev layer : Layer ℕ
layer = record {
  costs = square (254 ∷ 3 ∷ 255 ∷ 7 ∷ []);
  enabled = true;
  has_extra_bounds = false;
  extra = record { min_x = 0; min_y = 0; max_x = 0; max_y = 0 };
}

abbrev master : LayeredCostmap ℕ
master = record (new whole false false) { costmap = square (9 ∷ 9 ∷ 9 ∷ 9 ∷ []) }

abbrev start : Bounds ℕ
start = record { min_x = 1000; min_y = 1000; max_x = 0; max_y = 0 }

-- The layer changed the lower row.
abbrev lower_row : ℕ → ℕ → ℕ → Bounds ℕ → Bounds ℕ
lower_row robot_x robot_y robot_yaw b = record { min_x = 0; min_y = 0; max_x = 2; max_y = 0 }

abbrev lower_plugin : Plugin ℕ
lower_plugin = record {
  update_bounds = lower_row;
  update_costs = update_with_max layer;
  is_current = true;
}

update_map-Composes_example :
    let b = widen (lower_plugin ∷ []) 0 0 0 start in
    let first = world_to_map_enforce_bounds whole master.costmap b.min_x b.min_y in
    let last = world_to_map_enforce_bounds whole master.costmap b.max_x b.max_y in
    Composes
      ((λ x y old. greater old (at 2 layer.costs.costmap x y)) ∷ [])
      (touches first last)
      master.costmap
      (update_map whole zeroed 1000 0 (lower_plugin ∷ []) 0 0 0 master)
unfolding new
update_map-Composes_example =
    update_map-Composes whole zeroed 1000 0 lower_plugin [] _ 0 0 0 master refl
      (one_more (max-Paints lower_row true layer 2 2 refl refl) none_left)
      (record { cells = refl; fits = omega arith }) (omega arith) (omega arith)

resize_map-AllMatch_example :
    (l' : LayeredCostmap ℕ) × (ls' : List (Layer ℕ)) × (resize_map zeroed
        (λ m l. match_size zeroed l m.costmap)
        3
        2
        1
        4
        5
        true
        (master, layer ∷ [])
      ≡ some (l', ls'))
    × ((l'.costmap.size_x ≡ 3) × (l'.costmap.size_y ≡ 2))
    × ((l'.costmap.resolution ≡ 1) × (l'.costmap.origin_x ≡ 4) × (l'.costmap.origin_y ≡ 5))
    × (l'.size_locked ≡ true)
    × IsBlank l'.costmap
    × AllMatch (λ before after. Matches l'.costmap after) (layer ∷ []) ls'
resize_map-AllMatch_example =
    resize_map-AllMatch zeroed (λ m l. match_size zeroed l m.costmap)
      (λ l' before after. Matches l'.costmap after) 3 2 1 4 5 true master (layer ∷ [])
      (λ l' blank p.
        let (p', e, this, _) = match_size-Matches zeroed l'.costmap blank.valid.fits p in
        (p', e, this))
      (omega arith)
