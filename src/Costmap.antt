-- ===== src/Costmap.antt =====
-- nav2_costmap_2d/src/costmap_2d.cpp and its header: the class Costmap2D, a grid of cost bytes.
-- The empty list stands for a NULL `costmap_`; both fault on any access. A method that may fault
-- returns an Option, and `none` is an access out of bounds (or, for `reset_rows`, a loop that does
-- not end).
pub mod Bytes
pub mod Reset
pub mod Copy
pub mod Origin
pub mod World
mod Tests
use rosnavigation2copy.Prelude.{
  ℕ, zero, suc, ◌+◌, ◌-◌, ◌*◌, ◌/◌, ◌<◌, ◌≡◌, min, Bool, true, false, ◌&&◌,
}
use rosnavigation2copy.Prelude.{
  ◌||◌, Option, none, some, List, [], length, u32, sub_u32, u32_mod, ltb,
}
use rosnavigation2copy.Prelude.{if◌then◌else◌}
use rosnavigation2copy.Prelude.Int.{ℤ, to_signed, pos, negsuc, ◌+ℤ◌, ◌-ℤ◌, ltb_ℤ}
use rosnavigation2copy.Prelude.Loops.{for_range, ◌>>=◌}
use rosnavigation2copy.Grid.{read, write}
use rosnavigation2copy.Platform.{Floats, Memory}

pub record Costmap (D : Type 0) : Type 0 where
  pub size_x : ℕ
  pub size_y : ℕ
  pub resolution : D
  pub origin_x : D
  pub origin_y : D
  pub costmap : List ℕ
  pub default_value : ℕ

-- One byte for each cell, and no index that the loops compute passes 2 ^ 32.
pub record IsValid {D : Type 0} (c : Costmap D) : Type 0 where
  pub cells : length c.costmap ≡ c.size_y * c.size_x
  pub fits : c.size_y * c.size_x + c.size_x < u32_mod

-- memset(m + start, value, len)
unfoldable pub memset : List ℕ → ℕ → ℕ → ℕ → Option (List ℕ)
memset m start value len = for_range len 0 (λ i a. write a (start + i) value) m

-- memcpy(dest + d, source + s, len), of two arrays that do not overlap
unfoldable pub memcpy : List ℕ → ℕ → List ℕ → ℕ → ℕ → Option (List ℕ)
memcpy dest d source s len =
    for_range len 0 (λ i a. read source (s + i) >>= λ v. write a (d + i) v) dest

-- for (y = y; y < bound; y += size_x) memset(costmap_ + y, value, len)
unfoldable pub reset_rows : ℕ → ℕ → ℕ → ℕ → ℕ → ℕ → List ℕ → Option (List ℕ)
reset_rows zero size_x len value bound y m = none
reset_rows (suc fuel) size_x len value bound y m =
    let rest = memset m y value len >>= reset_rows fuel size_x len value bound (u32 (y + size_x)) in
    if ltb y bound then rest else some m

-- The pointers step by whole rows; the rounds left are `region_size_y`.
unfoldable pub copy_rows : ℕ → List ℕ → ℕ → ℕ → ℕ → ℕ → ℕ → List ℕ → Option (List ℕ)
copy_rows zero source s sm_size_x d dm_size_x len dest = some dest
copy_rows (suc n) source s sm_size_x d dm_size_x len dest =
    memcpy dest d source s len
    >>= copy_rows n source (s + sm_size_x) sm_size_x (d + dm_size_x) dm_size_x len

unfoldable pub copy_map_region : List ℕ → ℕ → ℕ → ℕ → List ℕ → ℕ → ℕ → ℕ → ℕ → ℕ → Option (List ℕ)
copy_map_region source_map sm_lower_left_x sm_lower_left_y sm_size_x dest_map dm_lower_left_x
      dm_lower_left_y dm_size_x region_size_x region_size_y =
    copy_rows region_size_y source_map (u32 (sm_lower_left_y * sm_size_x + sm_lower_left_x))
      sm_size_x (u32 (dm_lower_left_y * dm_size_x + dm_lower_left_x)) dm_size_x region_size_x
      dest_map

abbrev pub max_ℤ : ℤ → ℤ → ℤ
max_ℤ a b = if ltb_ℤ a b then b else a

abbrev pub min_ℤ : ℤ → ℤ → ℤ
min_ℤ a b = if ltb_ℤ b a then b else a

-- An `int` passed as an `unsigned int`.
abbrev pub to_unsigned : ℤ → ℕ
to_unsigned (pos n) = u32 n
to_unsigned (negsuc n) = sub_u32 0 (u32 (suc n))

-- One axis of the overlap in updateOrigin, for an offset of `o` cells and a map of `size` cells:
-- lower_left, upper_right, their difference and where the copy starts in the moved map.
abbrev lower_left : ℤ → ℤ → ℤ
lower_left o size = min_ℤ (max_ℤ o (pos 0)) size

abbrev upper_right : ℤ → ℤ → ℤ
upper_right o size = min_ℤ (max_ℤ (o +ℤ size) (pos 0)) size

unfoldable pub window_lower : ℤ → ℤ → ℕ
window_lower o size = to_unsigned (lower_left o size)

unfoldable pub window_extent : ℤ → ℤ → ℕ
unfolding ◌+ℤ◌ ◌-ℤ◌
window_extent o size = to_unsigned (upper_right o size -ℤ lower_left o size)

unfoldable pub window_start : ℤ → ℤ → ℕ
unfolding ◌-ℤ◌
window_start o size = to_unsigned (lower_left o size -ℤ o)

module _ {D : Type 0} where
  unfoldable pub get_index : Costmap D → ℕ → ℕ → ℕ
  get_index c mx my = u32 (my * c.size_x + mx)

  unfoldable pub index_to_cells : Costmap D → ℕ → ℕ × ℕ
  index_to_cells c index = let my = index / c.size_x in (sub_u32 index (u32 (my * c.size_x)), my)

  unfoldable pub get_cost : Costmap D → ℕ → ℕ → Option ℕ
  get_cost c mx my = read c.costmap (get_index c mx my)

  unfoldable pub set_cost : Costmap D → ℕ → ℕ → ℕ → Option (Costmap D)
  set_cost c mx my cost = do
    m ← write c.costmap (get_index c mx my) cost
    some (record c { costmap = m })

  unfoldable pub delete_maps : Costmap D → Costmap D
  delete_maps c = record c { costmap = [] }

  unfoldable pub reset_maps : Costmap D → Option (Costmap D)
  reset_maps c = do
    m ← memset c.costmap 0 c.default_value (u32 (c.size_x * c.size_y))
    some (record c { costmap = m })

  unfoldable pub reset_map : Costmap D → ℕ → ℕ → ℕ → ℕ → Option (Costmap D)
  reset_map c x0 y0 xn yn = do
    let bound = u32 (yn * c.size_x + x0)
    m ←
        reset_rows (suc bound) c.size_x (sub_u32 xn x0) c.default_value bound
          (u32 (y0 * c.size_x + x0)) c.costmap
    some (record c { costmap = m })

  unfoldable pub init_maps : Memory → ℕ → ℕ → Costmap D → Costmap D
  init_maps mem size_x size_y c = record c { costmap = mem.new_array (u32 (size_x * size_y)) }

  -- The constructor.
  unfoldable pub new : Memory → ℕ → ℕ → D → D → D → ℕ → Option (Costmap D)
  new mem cells_size_x cells_size_y resolution origin_x origin_y default_value =
      let c : Costmap D = record {
        size_x = cells_size_x;
        size_y = cells_size_y;
        resolution = resolution;
        origin_x = origin_x;
        origin_y = origin_y;
        costmap = [];
        default_value = default_value;
      } in
      reset_maps (init_maps mem cells_size_x cells_size_y c)

  unfoldable pub resize_map : Memory → Costmap D → ℕ → ℕ → D → D → D → Option (Costmap D)
  resize_map mem c size_x size_y resolution origin_x origin_y =
      let c' = record c {
        size_x = size_x;
        size_y = size_y;
        resolution = resolution;
        origin_x = origin_x;
        origin_y = origin_y;
      } in
      reset_maps (init_maps mem size_x size_y c')

  -- `operator=` of two distinct objects; that of an object and itself changes nothing.
  unfoldable pub assign : Memory → Costmap D → Costmap D → Option (Costmap D)
  assign mem c map = do
    let c' = record (delete_maps c) {
      size_x = map.size_x;
      size_y = map.size_y;
      resolution = map.resolution;
      origin_x = map.origin_x;
      origin_y = map.origin_y;
    }
    let fresh = init_maps mem map.size_x map.size_y c'
    m ← memcpy fresh.costmap 0 map.costmap 0 (u32 (map.size_x * map.size_y))
    some (record fresh { costmap = m })

  -- copyCostmapWindow from the point where the corners of the window are known.
  unfoldable pub copy_window :
      Memory → Costmap D → Costmap D → D → D → ℕ × ℕ → ℕ × ℕ → Option (Costmap D × Bool)
  copy_window mem c map win_origin_x win_origin_y lower_left upper_right = do
    let size_x = sub_u32 upper_right.0 lower_left.0
    let size_y = sub_u32 upper_right.1 lower_left.1
    let c' = record (delete_maps c) {
      size_x = size_x;
      size_y = size_y;
      resolution = map.resolution;
      origin_x = win_origin_x;
      origin_y = win_origin_y;
    }
    let fresh = init_maps mem size_x size_y c'
    m ←
        copy_map_region map.costmap lower_left.0 lower_left.1 map.size_x fresh.costmap 0 0 size_x
          size_x size_y
    some (record fresh { costmap = m }, true)

  -- updateOrigin from the point where the offset of the new origin is known, in cells.
  unfoldable pub move_cells : Memory → Costmap D → ℤ → ℤ → D → D → Option (Costmap D)
  move_cells mem c cell_ox cell_oy new_grid_ox new_grid_oy = do
    let size_x = to_signed c.size_x
    let size_y = to_signed c.size_y
    let lower_left_x = window_lower cell_ox size_x
    let lower_left_y = window_lower cell_oy size_y
    let cell_size_x = window_extent cell_ox size_x
    let cell_size_y = window_extent cell_oy size_y
    local_map ←
        copy_map_region c.costmap lower_left_x lower_left_y c.size_x
          (mem.new_array (u32 (cell_size_x * cell_size_y))) 0 0 cell_size_x cell_size_x cell_size_y
    reset ← reset_maps c
    let start_x = window_start cell_ox size_x
    let start_y = window_start cell_oy size_y
    m ←
        copy_map_region local_map 0 0 cell_size_x reset.costmap start_x start_y c.size_x cell_size_x
          cell_size_y
    some (record reset { origin_x = new_grid_ox; origin_y = new_grid_oy; costmap = m })

module _ {D : Type 0} (fl : Floats D) where
  open fl use {add, sub, mul, div, lt, of_nat, of_int, half, to_int}

  unfoldable pub map_to_world : Costmap D → ℕ → ℕ → D × D
  map_to_world c mx my = (
    add c.origin_x (mul (add (of_nat mx) half) c.resolution),
    add c.origin_y (mul (add (of_nat my) half) c.resolution),
  )

  -- `none` is the result `false`.
  unfoldable pub world_to_map : Costmap D → D → D → Option (ℕ × ℕ)
  world_to_map c wx wy =
      let mx = to_unsigned (to_int (div (sub wx c.origin_x) c.resolution)) in
      let my = to_unsigned (to_int (div (sub wy c.origin_y) c.resolution)) in
      if lt wx c.origin_x || lt wy c.origin_y
      then none
      else if ltb mx c.size_x && ltb my c.size_y
      then some (mx, my)
      else none

  -- One axis of worldToMapEnforceBounds.
  unfoldable pub enforce_axis : D → D → ℕ → D → ℤ
  enforce_axis origin resolution size w =
      if lt w origin
      then pos 0
      else if lt (add (mul resolution (of_nat size)) origin) w
      then pos size -ℤ pos 1
      else to_int (div (sub w origin) resolution)

  unfoldable pub world_to_map_enforce_bounds : Costmap D → D → D → ℤ × ℤ
  world_to_map_enforce_bounds c wx wy = (
    enforce_axis c.origin_x c.resolution c.size_x wx,
    enforce_axis c.origin_y c.resolution c.size_y wy,
  )

  -- The Boolean is what the method returns, and `itself` is this == &map. A window that does not fit
  -- leaves the map deleted.
  unfoldable pub copy_costmap_window :
      Bool → Memory → Costmap D → Costmap D → D → D → D → D → Option (Costmap D × Bool)
  copy_costmap_window itself mem c map win_origin_x win_origin_y win_size_x win_size_y =
      if itself then some (c, false) else elim (world_to_map map win_origin_x win_origin_y) [
        | none ↦ some (delete_maps c, false)
        | some lower_left ↦
            elim (world_to_map map (add win_origin_x win_size_x) (add win_origin_y win_size_y)) [
              | none ↦ some (delete_maps c, false)
              | some upper_right ↦
                  copy_window mem c map win_origin_x win_origin_y lower_left upper_right
            ]
      ]

  unfoldable pub update_origin : Memory → Costmap D → D → D → Option (Costmap D)
  update_origin mem c new_origin_x new_origin_y =
      let cell_ox = to_int (div (sub new_origin_x c.origin_x) c.resolution) in
      let cell_oy = to_int (div (sub new_origin_y c.origin_y) c.resolution) in
      move_cells mem c cell_ox cell_oy (add c.origin_x (mul (of_int cell_ox) c.resolution))
        (add c.origin_y (mul (of_int cell_oy) c.resolution))
