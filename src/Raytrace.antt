-- ===== src/Raytrace.antt =====
-- raytraceLine and bresenham2D of nav2_costmap_2d/include/nav2_costmap_2d/costmap_2d.hpp: the cells
-- that the line from one cell to another goes through. The result is the list of the offsets at
-- which the action is called, in their order.
pub mod Cells
pub mod Steps
pub mod Lines
mod Tests
use rosnavigation2copy.Prelude.{
  ℕ, zero, suc, ◌+◌, ◌-◌, ◌*◌, ◌/◌, min, Bool, true, false, ◌&&◌, List, [], ◌∷◌, leb, u32, sub_u32,
  if◌then◌else◌,
}
use rosnavigation2copy.Prelude.Int.{
  ℤ, to_signed, abs, pos, negsuc, pos_part, neg_part, ltb_ℤ, ◌-ℤ◌, ◌*ℤ◌,
}
use rosnavigation2copy.Platform.{Floats}
use rosnavigation2copy.Costmap.{to_unsigned}

unfoldable pub sign : ℤ → ℤ
sign x = if ltb_ℤ (pos 0) x then pos 1 else negsuc 0

-- offset += step, of an unsigned int and an int
unfoldable pub add_offset : ℕ → ℤ → ℕ
add_offset offset step = u32 (offset + to_unsigned step)

-- The loop of bresenham2D, for the rounds that are left.
unfoldable pub bresenham : ℕ → ℕ → ℕ → ℕ → ℤ → ℤ → ℕ → List ℕ
bresenham zero abs_da abs_db error_b offset_a offset_b offset = offset ∷ []
bresenham (suc rounds) abs_da abs_db error_b offset_a offset_b offset =
    let next = add_offset offset offset_a in
    let error = error_b + abs_db in
    let turned = leb abs_da error in
    let rest =
      bresenham rounds abs_da abs_db (if turned then error - abs_da else error) offset_a offset_b
        (if turned then add_offset next offset_b else next) in
    offset ∷ rest

unfoldable pub bresenham_2d : ℕ → ℕ → ℕ → ℤ → ℤ → ℕ → ℕ → List ℕ
bresenham_2d abs_da abs_db error_b offset_a offset_b offset max_length =
    bresenham (min max_length abs_da) abs_da abs_db error_b offset_a offset_b offset

module _ {D : Type 0} (fl : Floats D) where
  open fl use {mul, div, lt, le, of_nat, hypot, to_u32}

  -- The scale for a line of at most max_length.
  unfoldable pub scale_of : ℤ → ℤ → ℕ → D
  scale_of dx dy max_length =
      let dist = hypot dx dy in
      let ratio = div (of_nat max_length) dist in
      if le dist (of_nat 0) && le (of_nat 0) dist
      then of_nat 1
      else if lt ratio (of_nat 1)
      then ratio
      else of_nat 1

  unfoldable pub raytrace_line : ℕ → ℕ → ℕ → ℕ → ℕ → ℕ → List ℕ
  raytrace_line size_x x0 y0 x1 y1 max_length =
      let dx = to_signed (sub_u32 x1 x0) in
      let dy = to_signed (sub_u32 y1 y0) in
      let offset_dx = sign dx in
      let offset_dy = sign dy *ℤ pos size_x in
      let offset = u32 (y0 * size_x + x0) in
      let scale = scale_of dx dy max_length in
      if leb (abs dy) (abs dx)
      then bresenham_2d (abs dx) (abs dy) (abs dx / 2) offset_dx offset_dy offset
          (to_u32 (mul scale (of_nat (abs dx))))
      else bresenham_2d (abs dy) (abs dx) (abs dy / 2) offset_dy offset_dx offset
          (to_u32 (mul scale (of_nat (abs dy))))
