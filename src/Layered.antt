-- ===== src/Layered.antt =====
-- nav2_costmap_2d/src/layered_costmap.cpp: the master map and the order in which its layers update
-- it. A layer is what its virtual methods do in one call of updateMap.
pub mod Painting
pub mod Updates
pub mod Sizes
mod Tests
use rosnavigation2copy.Prelude.{
  ℕ, Bool, true, false, ◌||◌, ◌&&◌, Option, some, List, [], ◌∷◌, if◌then◌else◌, sub_u32,
}
use rosnavigation2copy.Prelude.Int.{ℤ, to_signed, pos, pos_part, ltb_ℤ, ◌+ℤ◌}
use rosnavigation2copy.Prelude.Loops.{◌>>=◌}
use rosnavigation2copy.Costmap
use rosnavigation2copy.Platform.{Floats, Memory}
use rosnavigation2copy.Costmap.{
  Costmap, reset_map, update_origin, world_to_map_enforce_bounds, max_ℤ, min_ℤ,
}
use rosnavigation2copy.Layer.{Bounds}

pub record Plugin (D : Type 0) : Type 0 where
  pub update_bounds : D → D → D → Bounds D → Bounds D
  pub update_costs : Costmap D → ℕ → ℕ → ℕ → ℕ → Option (Costmap D)
  pub is_current : Bool

pub record LayeredCostmap (D : Type 0) : Type 0 where
  pub costmap : Costmap D
  pub rolling_window : Bool
  pub bounds : Bounds D
  pub bx0 : ℤ
  pub bxn : ℤ
  pub by0 : ℤ
  pub byn : ℤ
  pub initialized : Bool
  pub size_locked : Bool

-- The constructor; costmap_() is the map of no cells.
unfoldable pub new : {D : Type 0} → Floats D → Bool → Bool → LayeredCostmap D
new fl rolling_window track_unknown =
    let zero = fl.of_nat 0 in
    record {
      costmap = record {
        size_x = 0;
        size_y = 0;
        resolution = zero;
        origin_x = zero;
        origin_y = zero;
        costmap = [];
        default_value = if track_unknown then 255 else 0;
      };
      rolling_window = rolling_window;
      bounds = record { min_x = zero; min_y = zero; max_x = zero; max_y = zero };
      bx0 = pos 0;
      bxn = pos 0;
      by0 = pos 0;
      byn = pos 0;
      initialized = false;
      size_locked = false;
    }

-- The loops over plugins_ of resizeMap: `match` is matchSize of one of them.
unfoldable pub match_sizes : {P : Type 0} → (P → Option P) → List P → Option (List P)
match_sizes match [] = some []
match_sizes match (p ∷ plugins) = do
  p' ← match p
  rest ← match_sizes match plugins
  some (p' ∷ rest)

unfoldable pub resize_map :
    {D P : Type 0}
    → Memory
    → (LayeredCostmap D → P → Option P)
    → ℕ
    → ℕ
    → D
    → D
    → D
    → Bool
    → LayeredCostmap D × List P
    → Option (LayeredCostmap D × List P)
resize_map mem match size_x size_y resolution origin_x origin_y size_locked (l, plugins) = do
  c ← Costmap.resize_map mem l.costmap size_x size_y resolution origin_x origin_y
  let l' = record l { size_locked = size_locked; costmap = c }
  resized ← match_sizes (match l') plugins
  some (l', resized)

-- The window of cells of one axis: its first cell, and the one past its last.
unfoldable pub clip_lower : ℤ → ℤ
clip_lower x0 = max_ℤ (pos 0) x0

unfoldable pub clip_upper : ℕ → ℤ → ℤ
clip_upper size xn = min_ℤ (to_signed size) (xn +ℤ pos 1)

module _ {D : Type 0} where
  unfoldable pub paint : List (Plugin D) → Costmap D → ℕ → ℕ → ℕ → ℕ → Option (Costmap D)
  paint [] master x0 y0 xn yn = some master
  paint (p ∷ plugins) master x0 y0 xn yn =
      p.update_costs master x0 y0 xn yn >>= λ m. paint plugins m x0 y0 xn yn

  unfoldable pub widen : List (Plugin D) → D → D → D → Bounds D → Bounds D
  widen [] robot_x robot_y robot_yaw b = b
  widen (p ∷ plugins) robot_x robot_y robot_yaw b =
      widen plugins robot_x robot_y robot_yaw (p.update_bounds robot_x robot_y robot_yaw b)

  unfoldable pub is_current : List (Plugin D) → Bool
  is_current [] = true
  is_current (p ∷ plugins) = p.is_current && is_current plugins

  -- updateMap, from the window of cells on.
  unfoldable pub update_window :
      List (Plugin D) → ℤ → ℤ → ℤ → ℤ → LayeredCostmap D → Option (LayeredCostmap D)
  update_window plugins x0 y0 xn yn l = if ltb_ℤ xn x0 || ltb_ℤ yn y0 then some l else do
    blank ← reset_map l.costmap (pos_part x0) (pos_part y0) (pos_part xn) (pos_part yn)
    m ← paint plugins blank (pos_part x0) (pos_part y0) (pos_part xn) (pos_part yn)
    some (record l { costmap = m; bx0 = x0; bxn = xn; by0 = y0; byn = yn; initialized = true })

module _ {D : Type 0} (fl : Floats D) where
  -- getSizeInMetersX and getSizeInMetersY, on one axis.
  unfoldable pub size_in_meters : Costmap D → ℕ → D
  size_in_meters c size = fl.mul (fl.add (fl.of_nat (sub_u32 size 1)) fl.half) c.resolution

  unfoldable pub roll : Memory → D → D → LayeredCostmap D → Option (LayeredCostmap D)
  roll mem robot_x robot_y l =
      let c = l.costmap in
      let x = fl.sub robot_x (fl.div (size_in_meters c c.size_x) (fl.of_nat 2)) in
      let y = fl.sub robot_y (fl.div (size_in_meters c c.size_y) (fl.of_nat 2)) in
      if l.rolling_window
      then (update_origin fl mem c x y >>= λ c'. some (record l { costmap = c' }))
      else some l

  -- `far` is 1e30, and `near` -1e30.
  unfoldable pub update_map :
      Memory → D → D → List (Plugin D) → D → D → D → LayeredCostmap D → Option (LayeredCostmap D)
  update_map mem far near [] robot_x robot_y robot_yaw l = roll mem robot_x robot_y l
  update_map mem far near (p ∷ ps) robot_x robot_y robot_yaw l = do
    l1 ← roll mem robot_x robot_y l
    let b =
        widen (p ∷ ps) robot_x robot_y robot_yaw
          (record { min_x = far; min_y = far; max_x = near; max_y = near })
    let (x0, y0) = world_to_map_enforce_bounds fl l1.costmap b.min_x b.min_y
    let (xn, yn) = world_to_map_enforce_bounds fl l1.costmap b.max_x b.max_y
    update_window (p ∷ ps) (clip_lower x0) (clip_lower y0) (clip_upper l1.costmap.size_x xn)
        (clip_upper l1.costmap.size_y yn) (record l1 { bounds = b })
