-- ===== src/Static.antt =====
-- nav2_costmap_2d/plugins/static_layer.cpp: the layer that shows the map of the map server, its
-- callbacks and its updates. The layer's node, its subscriptions and its lock are left out; the
-- transform between two frames is a parameter.
pub mod Filled
pub mod Sizes
pub mod Incoming
pub mod Updates
pub mod Covers
mod Tests
use rosnavigation2copy.Prelude.{
  ℕ, ◌+◌, ◌-◌, ◌*◌, ◌%◌, min, max, Bool, true, false, ◌&&◌, ◌||◌, not, Option, none, some, List, [],
  ◌∷◌, ltb, leb, ◌==◌, u8, u32, if◌then◌else◌,
}
use rosnavigation2copy.Prelude.Int.{ℤ, pos, negsuc}
use rosnavigation2copy.Prelude.Loops.{for_range, ◌>>=◌}
use rosnavigation2copy.Platform.{Floats, Memory}
use rosnavigation2copy.Grid.{read, write}
use rosnavigation2copy.Costmap
use rosnavigation2copy.Costmap.{Costmap, get_cost, set_cost, map_to_world, world_to_map}
use rosnavigation2copy.Layer.{
  Layer, Bounds, fmin, fmax, use_extra_bounds, update_with_true_overwrite, update_with_max,
  no_information, lethal_obstacle, free_space,
}
use rosnavigation2copy.Layered
use rosnavigation2copy.Layered.{LayeredCostmap}

-- The parameters that onInitialize reads.
pub record Options : Type 0 where
  pub first_map_only : Bool
  pub subscribe_to_updates : Bool
  pub track_unknown_space : Bool
  pub use_maximum : Bool
  pub trinary_costmap : Bool
  pub lethal_threshold : ℕ
  pub unknown_cost_value : ℕ

pub record StaticLayer (D : Type 0) : Type 0 where
  pub layer : Layer D  -- the base class CostmapLayer
  pub options : Options
  pub map_received : Bool
  pub has_updated_data : Bool
  pub x : ℕ
  pub y : ℕ
  pub width : ℕ
  pub height : ℕ

-- nav_msgs::msg::OccupancyGrid and map_msgs::msg::OccupancyGridUpdate; data holds signed bytes.
pub record OccupancyGrid (D : Type 0) : Type 0 where
  pub width : ℕ
  pub height : ℕ
  pub resolution : D
  pub origin_x : D
  pub origin_y : D
  pub values : List ℤ  -- `data`

pub record OccupancyGridUpdate : Type 0 where
  pub x : ℕ
  pub y : ℕ
  pub width : ℕ
  pub height : ℕ
  pub values : List ℤ  -- `data`

-- An integer as an `unsigned char`.
unfoldable pub to_u8 : ℤ → ℕ
to_u8 (pos n) = u8 n
to_u8 (negsuc n) = 255 - u8 n

-- lethal_threshold_ and unknown_cost_value_ of the values read.
unfoldable pub clamp_threshold : ℤ → ℕ
clamp_threshold (pos n) = min n 100
clamp_threshold (negsuc n) = 0

unfoldable pub read_options : Bool → Bool → Bool → Bool → ℤ → ℤ → Bool → Options
read_options first_map_only subscribe_to_updates track_unknown_space use_maximum
      temp_lethal_threshold temp_unknown_cost_value trinary_costmap =
    record {
      first_map_only = first_map_only;
      subscribe_to_updates = subscribe_to_updates;
      track_unknown_space = track_unknown_space;
      use_maximum = use_maximum;
      trinary_costmap = trinary_costmap;
      lethal_threshold = clamp_threshold temp_lethal_threshold;
      unknown_cost_value = to_u8 temp_unknown_cost_value;
    }

-- The loop nest of incomingMap; the state is `index` and the costs.
unfoldable pub fill_row : (ℕ → ℕ) → List ℤ → ℕ → ℕ × List ℕ → Option (ℕ × List ℕ)
fill_row interpret values size_x s =
    for_range size_x 0
      (λ j (index, m). do
        value ← read values index
        m' ← write m index (interpret (to_u8 value))
        some (u32 (index + 1), m'))
      s

unfoldable pub fill : (ℕ → ℕ) → List ℤ → ℕ → ℕ → List ℕ → Option (List ℕ)
fill interpret values size_x size_y m =
    for_range size_y 0 (λ i. fill_row interpret values size_x) (0, m) >>= λ s. some s.1

-- The loop nest of incomingUpdate; the state is `di` and the costs.
unfoldable pub overlay_row :
    (ℕ → ℕ) → OccupancyGridUpdate → ℕ → ℕ → ℕ × List ℕ → Option (ℕ × List ℕ)
overlay_row interpret update size_x y s =
    for_range update.width 0
      (λ x (di, m). do
        let index_base = u32 ((update.y + y) * size_x)
        value ← read update.values di
        m' ← write m (u32 (index_base + x + update.x)) (interpret (to_u8 value))
        some (u32 (di + 1), m'))
      s

unfoldable pub overlay : (ℕ → ℕ) → OccupancyGridUpdate → ℕ → List ℕ → Option (List ℕ)
overlay interpret update size_x m =
    for_range update.height 0 (overlay_row interpret update size_x) (0, m) >>= λ s. some s.1

module _ {D : Type 0} where
  -- The data of a whole new map, as incomingMap and reconfigureCB set it.
  unfoldable pub show_all : StaticLayer D → StaticLayer D
  show_all s = record s {
    has_updated_data = true;
    x = 0;
    y = 0;
    width = s.layer.costs.size_x;
    height = s.layer.costs.size_y;
  }

  unfoldable pub reconfigure : Bool → StaticLayer D → StaticLayer D
  reconfigure enabled s =
      if (if enabled then not s.layer.enabled else s.layer.enabled)
      then show_all (record s { layer = record s.layer { enabled = enabled } })
      else s

  -- resizeMap, which StaticLayer inherits.
  unfoldable pub resize : Memory → ℕ → ℕ → D → D → D → StaticLayer D → Option (StaticLayer D)
  resize mem size_x size_y resolution origin_x origin_y s = do
    c ← Costmap.resize_map mem s.layer.costs size_x size_y resolution origin_x origin_y
    some (record s { layer = record s.layer { costs = c } })

  unfoldable pub match_size : Memory → LayeredCostmap D → StaticLayer D → Option (StaticLayer D)
  match_size mem l s =
      let master = l.costmap in
      if not l.rolling_window
      then resize mem master.size_x master.size_y master.resolution master.origin_x master.origin_y
          s
      else some s

  -- setCost of what worldToMap found, in the rolling window.
  unfoldable pub set_from : Bool → StaticLayer D → ℕ → ℕ → ℕ × ℕ → Costmap D → Option (Costmap D)
  set_from use_maximum s i j (mx, my) master = do
    cost ← get_cost s.layer.costs mx my
    old ← get_cost master i j
    if use_maximum then set_cost master i j (max cost old) else set_cost master i j cost

module _ {D : Type 0} (fl : Floats D) where
  open fl use {le, of_nat, mul, div, to_u32}

  -- `value` is an unsigned char.
  unfoldable pub interpret_value : Options → ℕ → ℕ
  interpret_value o value =
      if o.track_unknown_space && value == o.unknown_cost_value
      then no_information
      else if not o.track_unknown_space && value == o.unknown_cost_value
      then free_space
      else if leb o.lethal_threshold value
      then lethal_obstacle
      else if o.trinary_costmap
      then free_space
      else u8
          (to_u32 (mul (div (of_nat value) (of_nat o.lethal_threshold)) (of_nat lethal_obstacle)))

  -- `!=` of two doubles.
  unfoldable pub differ : D → D → Bool
  differ a b = not (le a b && le b a)

  unfoldable pub has_other_size : Costmap D → OccupancyGrid D → Bool
  has_other_size c new_map =
      not (c.size_x == new_map.width)
      || not (c.size_y == new_map.height)
      || differ c.resolution new_map.resolution
      || differ c.origin_x new_map.origin_x
      || differ c.origin_y new_map.origin_y

  -- resizeMap of the layered cost map, whose layers are this one; others do not matter here.
  unfoldable pub resize_layered :
      Memory
      → OccupancyGrid D
      → LayeredCostmap D × StaticLayer D
      → Option (LayeredCostmap D × StaticLayer D)
  resize_layered mem new_map (l, s) =
      elim (Layered.resize_map mem (match_size mem) new_map.width new_map.height new_map.resolution
        new_map.origin_x new_map.origin_y true (l, s ∷ [])) [
          | some (l', s' ∷ []) ↦ some (l', s')
          | _ ↦ none
        ]

  -- incomingMap up to the loops.
  unfoldable pub fit_size :
      Memory
      → OccupancyGrid D
      → LayeredCostmap D × StaticLayer D
      → Option (LayeredCostmap D × StaticLayer D)
  fit_size mem new_map (l, s) =
      if not l.rolling_window && (has_other_size l.costmap new_map || not l.size_locked)
      then resize_layered mem new_map (l, s)
      else if has_other_size s.layer.costs new_map
      then (resize mem new_map.width new_map.height new_map.resolution new_map.origin_x
            new_map.origin_y s
          >>= λ s'. some (l, s'))
      else some (l, s)

  unfoldable pub incoming_map :
      Memory
      → OccupancyGrid D
      → LayeredCostmap D × StaticLayer D
      → Option (LayeredCostmap D × StaticLayer D)
  incoming_map mem new_map state = do
    (l, s) ← fit_size mem new_map state
    m ←
        fill (interpret_value s.options) new_map.values new_map.width new_map.height
          s.layer.costs.costmap
    let s' = record s {
      layer = record s.layer { costs = record s.layer.costs { costmap = m } };
      map_received = true;
    }
    some (l, show_all s')

  unfoldable pub incoming_update : OccupancyGridUpdate → StaticLayer D → Option (StaticLayer D)
  incoming_update update s = do
    m ← overlay (interpret_value s.options) update s.layer.costs.size_x s.layer.costs.costmap
    some (record s {
      layer = record s.layer { costs = record s.layer.costs { costmap = m } };
      x = update.x;
      y = update.y;
      width = update.width;
      height = update.height;
      has_updated_data = true;
    })

  -- The rest of updateBounds. `far` and `minus_far` are 1e6 and -1e6.
  unfoldable pub cover : D → D → StaticLayer D → Bounds D → StaticLayer D × Bounds D
  cover far minus_far s b =
      let (layer, b1) = use_extra_bounds fl far minus_far s.layer b in
      let (wx0, wy0) = map_to_world fl s.layer.costs s.x s.y in
      let (wx1, wy1) = map_to_world fl s.layer.costs (u32 (s.x + s.width)) (u32 (s.y + s.height)) in
      (
        record s { layer = layer; has_updated_data = false },
        record {
          min_x = fmin fl wx0 b1.min_x;
          min_y = fmin fl wy0 b1.min_y;
          max_x = fmax fl wx1 b1.max_x;
          max_y = fmax fl wy1 b1.max_y;
        },
      )

  unfoldable pub update_bounds : D → D → Bool → StaticLayer D → Bounds D → StaticLayer D × Bounds D
  update_bounds far minus_far rolling s b =
      if not rolling && (not s.map_received || not (s.has_updated_data || s.layer.has_extra_bounds))
      then (s, b)
      else cover far minus_far s b

  -- A cell of the rolling window.
  unfoldable pub roll_cell :
      (D → D → D × D) → StaticLayer D → ℕ → ℕ → Costmap D → Option (Costmap D)
  roll_cell transform s i j master =
      let (wx, wy) = map_to_world fl master i j in
      let (px, py) = transform wx wy in
      elim (world_to_map fl s.layer.costs px py) [
        | none ↦ some master
        | some cell ↦ set_from s.options.use_maximum s i j cell master
      ]

  -- `transform` is none when the lookup throws.
  unfoldable pub update_costs :
      Option (D → D → D × D) → Bool → StaticLayer D → Costmap D → ℕ → ℕ → ℕ → ℕ → Option (Costmap D)
  update_costs transform rolling s master min_i min_j max_i max_j =
      if not s.map_received || not s.layer.enabled
      then some master
      else if not rolling
      then (if not s.options.use_maximum
          then update_with_true_overwrite s.layer master min_i min_j max_i max_j
          else update_with_max s.layer master min_i min_j max_i max_j)
      else elim transform [
        | none ↦ some master
        | some t ↦
            for_range (max_i - min_i) min_i
              (λ i. for_range (max_j - min_j) min_j (λ j. roll_cell t s i j)) master
      ]
