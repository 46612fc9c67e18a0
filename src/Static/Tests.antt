-- ===== src/Static/Tests.antt =====
-- Runs of the static layer: a map of 2 by 2 cells, of which the server knows three.
use rosnavigation2copy.Prelude.{
  ℕ, ◌+◌, ◌-◌, ◌*◌, ◌≡◌, refl, true, false, some, List, [], ◌∷◌, arith, get_or,
}
use rosnavigation2copy.Prelude.Int.{pos, negsuc}
use rosnavigation2copy.Platform.{whole, zeroed}
use rosnavigation2copy.Costmap.{Costmap}
use rosnavigation2copy.Costmap.Reset.{Repaints}
use rosnavigation2copy.Layered.{LayeredCostmap, new}
use rosnavigation2copy.Layer.{Bounds}
use rosnavigation2copy.Static.{update_bounds}
use rosnavigation2copy.Static.Covers.{Ordered, Covers, update_bounds-incoming_map}
use rosnavigation2copy.Static.{
  Options, StaticLayer, OccupancyGrid, OccupancyGridUpdate, incoming_map, incoming_update,
  interpret_value, to_u8,
}
use rosnavigation2copy.Static.Sizes.{Sized}
use rosnavigation2copy.Static.Incoming.{Shows, incoming_map-Shows, incoming_update-Repaints}

abbrev square : List ℕ → Costmap ℕ
square cells = record {
  size_x = 2;
  size_y = 2;
  resolution = 1;
  origin_x = 0;
  origin_y = 0;
  costmap = cells;
  default_value = 0;
}

abbrev options : Options
options = record {
  first_map_only = false;
  subscribe_to_updates = false;
  track_unknown_space = true;
  use_maximum = false;
  trinary_costmap = true;
  lethal_threshold = 100;
  unknown_cost_value = 255;
}

abbrev layer : StaticLayer ℕ
layer = record {
  layer = record {
    costs = square (0 ∷ 0 ∷ 0 ∷ 0 ∷ []);
    enabled = true;
    has_extra_bounds = false;
    extra = record { min_x = 0; min_y = 0; max_x = 0; max_y = 0 };
  };
  options = options;
  map_received = false;
  has_updated_data = false;
  x = 0;
  y = 0;
  width = 0;
  height = 0;
}

abbrev master : LayeredCostmap ℕ
master = record (new whole false false) { costmap = square (9 ∷ 9 ∷ 9 ∷ 9 ∷ []) }

abbrev served : OccupancyGrid ℕ
served = record {
  width = 2;
  height = 2;
  resolution = 1;
  origin_x = 0;
  origin_y = 0;
  values = pos 100 ∷ negsuc 0 ∷ pos 0 ∷ pos 40 ∷ [];
}

abbrev corner : OccupancyGridUpdate
corner = record { x = 1; y = 0; width = 1; height = 2; values = pos 100 ∷ pos 0 ∷ [] }

whole-Ordered : Ordered whole
whole-Ordered = record { asym = λ a b h. ground arith; trans = λ a b c h k. ground arith }

incoming_map-Shows_example :
    (l' : LayeredCostmap ℕ) × (s' : StaticLayer ℕ) × (incoming_map whole zeroed served
        (master, layer)
      ≡ some (l', s'))
    × Shows whole served layer s'
    × Sized served master l'
incoming_map-Shows_example =
    incoming_map-Shows whole zeroed served master layer (omega arith) refl
      (record { cells = refl; fits = omega arith })

incoming_update-Repaints_example :
    (s' : StaticLayer ℕ) × (incoming_update whole corner layer ≡ some s')
    × (s'.x ≡ 1)
    × (s'.y ≡ 0)
    × (s'.width ≡ 1)
    × (s'.height ≡ 2)
    × (s'.has_updated_data ≡ true)
    × Repaints
        (λ x y old.
          interpret_value whole options
            (to_u8 (get_or corner.values ((y - 0) * 1 + (x - 1)) (pos 0))))
        1
        0
        (1 + 1)
        (0 + 2)
        layer.layer.costs
        (some s'.layer.costs)
incoming_update-Repaints_example =
    incoming_update-Repaints whole corner layer (record { cells = refl; fits = omega arith })
      (record { inside_x = omega arith; inside_y = omega arith; enough = refl })

update_bounds-incoming_map_example :
    (l' : LayeredCostmap ℕ) × (s' : StaticLayer ℕ) × (incoming_map whole zeroed served
        (master, layer)
      ≡ some (l', s'))
    × ((b : Bounds ℕ)
        → Covers whole whole-Ordered 1000 0 2 2 s' b (update_bounds whole 1000 0 false s' b))
update_bounds-incoming_map_example =
    update_bounds-incoming_map whole whole-Ordered zeroed 1000 0 served master layer (omega arith)
      (omega arith) refl (record { cells = refl; fits = omega arith })
