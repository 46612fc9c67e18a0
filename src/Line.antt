-- ===== src/Line.antt =====
-- nav2_dwb_controller/dwb_critics/include/dwb_critics/line_iterator.hpp: the cells of a line by
-- Bresenham's method. An int is an integer here: coordinates of a grid do not overflow. The
-- denominator and the numerators, which are never below 0, are numbers.
pub mod Steps
pub mod Arithmetic
pub mod Connected
pub mod Ends
pub mod Near
mod Tests
use rosnavigation2copy.Prelude.{ℕ, suc, ◌+◌, ◌-◌, ◌/◌, Bool, leb, if◌then◌else◌}
use rosnavigation2copy.Prelude.Int.{ℤ, abs, pos, negsuc, pos_part, neg_part, ltb_ℤ, ◌+ℤ◌, ◌-ℤ◌}

pub record LineIterator : Type 0 where
  pub x0 : ℤ
  pub y0 : ℤ
  pub x1 : ℤ
  pub y1 : ℤ
  pub x : ℤ
  pub y : ℤ
  pub deltax : ℕ
  pub deltay : ℕ
  pub curpixel : ℕ
  pub xinc1 : ℤ
  pub xinc2 : ℤ
  pub yinc1 : ℤ
  pub yinc2 : ℤ
  pub den : ℕ
  pub num : ℕ
  pub numadd : ℕ
  pub numpixels : ℕ

-- The direction from `a` to `b`.
unfoldable pub direction : ℤ → ℤ → ℤ
direction a b = if ltb_ℤ b a then negsuc 0 else pos 1

-- The constructor.
unfoldable pub line : ℤ → ℤ → ℤ → ℤ → LineIterator
line x0 y0 x1 y1 =
    let deltax = abs (x1 -ℤ x0) in
    let deltay = abs (y1 -ℤ y0) in
    let wide = leb deltay deltax in
    record {
      x0 = x0;
      y0 = y0;
      x1 = x1;
      y1 = y1;
      x = x0;
      y = y0;
      deltax = deltax;
      deltay = deltay;
      curpixel = 0;
      xinc1 = if wide then pos 0 else direction x0 x1;
      xinc2 = if wide then direction x0 x1 else pos 0;
      yinc1 = if wide then direction y0 y1 else pos 0;
      yinc2 = if wide then pos 0 else direction y0 y1;
      den = if wide then deltax else deltay;
      num = if wide then deltax / 2 else deltay / 2;
      numadd = if wide then deltay else deltax;
      numpixels = if wide then deltax else deltay;
    }

unfoldable pub is_valid : LineIterator → Bool
is_valid it = leb it.curpixel it.numpixels

abbrev pub is_over : LineIterator → Bool
is_over it = leb it.den (it.num + it.numadd)

unfoldable pub advance : LineIterator → LineIterator
advance it = record it {
  num = if is_over it then it.num + it.numadd - it.den else it.num + it.numadd;
  x = (if is_over it then it.x +ℤ it.xinc1 else it.x) +ℤ it.xinc2;
  y = (if is_over it then it.y +ℤ it.yinc1 else it.y) +ℤ it.yinc2;
  curpixel = suc it.curpixel;
}
