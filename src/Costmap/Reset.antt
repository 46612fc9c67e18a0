-- ===== src/Costmap/Reset.antt =====
-- resetMaps, resetMap, resizeMap and the constructor: which cells get the default value.
use rosnavigation2copy.Prelude.{
  ℕ, zero, suc, ◌+◌, ◌-◌, ◌*◌, ◌≤◌, ◌<◌, ◌≡◌, ◌∙◌, refl, ap, Option, some,
}
use rosnavigation2copy.Prelude.{List, if◌then◌else◌, arith, u32, sub_u32, u32_mod, u32-eq_of_lt}
use rosnavigation2copy.Prelude.{length}
use rosnavigation2copy.Prelude.Loops.{◌>>=◌}
use rosnavigation2copy.Platform.{Memory}
use rosnavigation2copy.Grid.{at}
use rosnavigation2copy.Grid.Index.{row-le, index-lt}
use rosnavigation2copy.Grid.Window.{
  MapsRow, MapsWindow, MapsWindow-of_eq, rows-MapsWindow, in_window,
}
use rosnavigation2copy.Costmap.{
  Costmap, IsValid, memset, reset_rows, reset_map, reset_maps, init_maps, resize_map,
}
use rosnavigation2copy.Costmap.Bytes.{memset-Maps, reset_rows-eq-for_range}

-- Pieces of the rows before `yn`.
sub_rows : (w y0 yn : ℕ) → y0 ≤ yn → (yn - y0) * w + y0 * w ≡ yn * w
sub_rows w y0 yn h = grind arith

memset-MapsRow :
    (w h value lo hi j : ℕ) (a : List ℕ)
    → lo ≤ hi
    → hi ≤ w
    → j < h
    → length a ≡ h * w
    → MapsRow (λ x y v. value) w lo hi j a (memset a (j * w + lo) value (hi - lo))
memset-MapsRow w h value lo hi j a le fit lt size =
    let r = memset-Maps a (j * w + lo) value (hi - lo) (omega (arith, row-le w j h lt)) in
    record {
      f = λ q v. value;
      agrees = λ x v _ _. refl;
      maps = record {
        out = r.out;
        returns = r.returns;
        size = r.size;
        cells = λ q. r.cells q ∙ ground arith;
      };
    }

-- The loop of resetMap writes `value` in the cells of its window and changes no other.
reset_rows_nonempty :
    (w h value x0 y0 xn yn : ℕ) (m : List ℕ)
    → 0 < w
    → length m ≡ h * w
    → h * w + w < u32_mod
    → x0 ≤ xn
    → xn ≤ w
    → y0 ≤ yn
    → yn ≤ h
    → MapsWindow
        (λ x y v. value)
        w
        h
        x0
        y0
        xn
        yn
        m
        (reset_rows
          (suc (u32 (yn * w + x0)))
          w
          (sub_u32 xn x0)
          value
          (u32 (yn * w + x0))
          (u32 (y0 * w + x0))
          m)
reset_rows_nonempty w h value x0 y0 xn yn m pos_w size fits le_x fit_x le_y fit_y =
    let low : y0 * w ≤ yn * w = grind arith in
    let high : yn * w ≤ h * w = grind arith in
    let rounds : yn - y0 ≤ (yn - y0) * w = grind arith in
    let parts : (yn - y0) * w + y0 * w ≡ yn * w = sub_rows w y0 yn le_y in
    let at_bound : u32 (yn * w + x0) ≡ yn * w + x0 = u32-eq_of_lt _ (omega arith) in
    let at_start : u32 (y0 * w + x0) ≡ y0 * w + x0 = u32-eq_of_lt _ (omega arith) in
    let len : sub_u32 xn x0 ≡ xn - x0 = omega arith in
    MapsWindow-of_eq
      (rw (at_bound, at_start, len)
        (reset_rows-eq-for_range (suc (yn * w + x0)) w (xn - x0) value x0 (yn - y0) y0 (y0 * w + x0)
          (yn * w + x0) m pos_w (omega arith) refl (omega arith) (omega arith)))
      (rows-MapsWindow (λ x y v. value) _ w h x0 y0 xn yn m fit_x fit_y
        (λ j a _ lt size_a. memset-MapsRow w h value x0 xn j a le_x fit_x (omega arith) size_a) size
        le_y)

pub reset_rows-MapsWindow :
    (w h value x0 y0 xn yn : ℕ) (m : List ℕ)
    → length m ≡ h * w
    → h * w + w < u32_mod
    → x0 ≤ xn
    → xn ≤ w
    → y0 ≤ yn
    → yn ≤ h
    → MapsWindow
        (λ x y v. value)
        w
        h
        x0
        y0
        xn
        yn
        m
        (reset_rows
          (suc (u32 (yn * w + x0)))
          w
          (sub_u32 xn x0)
          value
          (u32 (yn * w + x0))
          (u32 (y0 * w + x0))
          m)
reset_rows-MapsWindow zero h value x0 y0 xn yn m size fits le_x fit_x le_y fit_y = record {
  out = m;
  returns = unfold reset_rows in ground arith;
  size = refl;
  cells = λ x y hx hy. absurd (omega arith);
}
reset_rows-MapsWindow (suc w') h value x0 y0 xn yn m size fits le_x fit_x le_y fit_y =
    reset_rows_nonempty (suc w') h value x0 y0 xn yn m (omega arith) size fits le_x fit_x le_y fit_y

-- `r` is a normal return of `c` with other costs: in each cell of the window `g` of its column,
-- row and old cost, in the other cells of the grid the old cost.
pub record Repaints {D : Type 0} (g : ℕ → ℕ → ℕ → ℕ) (lo_x lo_y hi_x hi_y : ℕ) (c : Costmap D)
    (r : Option (Costmap D)) : Type 0 where
  pub m : List ℕ
  pub returns : r ≡ some (record c { costmap = m })
  pub valid : IsValid (record c { costmap = m })
  pub cells :
      (x y : ℕ)
      → x < c.size_x
      → y < c.size_y
      → at c.size_x m x y ≡ (
          if in_window lo_x lo_y hi_x hi_y x y
          then g x y (at c.size_x c.costmap x y)
          else at c.size_x c.costmap x y)

pub MapsWindow-Repaints :
    {D : Type 0} {g : ℕ → ℕ → ℕ → ℕ} {lo_x lo_y hi_x hi_y : ℕ} (c : Costmap D) (r : Option (List ℕ))
    → IsValid c
    → MapsWindow g c.size_x c.size_y lo_x lo_y hi_x hi_y c.costmap r
    → Repaints g lo_x lo_y hi_x hi_y c (r >>= λ m. some (record c { costmap = m }))
MapsWindow-Repaints c r v t = record {
  m = t.out;
  returns = rw t.returns;
  valid = record { cells = t.size ∙ v.cells; fits = v.fits };
  cells = t.cells;
}

-- On a valid map and a window inside it, `reset_map` returns, gives the default value to the cells
-- of the window, and changes nothing else.
pub reset_map-Repaints :
    {D : Type 0} (c : Costmap D) (x0 y0 xn yn : ℕ)
    → IsValid c
    → x0 ≤ xn
    → xn ≤ c.size_x
    → y0 ≤ yn
    → yn ≤ c.size_y
    → Repaints (λ x y v. c.default_value) x0 y0 xn yn c (reset_map c x0 y0 xn yn)
unfolding reset_map
reset_map-Repaints c x0 y0 xn yn v le_x fit_x le_y fit_y = MapsWindow-Repaints c _ v (
    reset_rows-MapsWindow c.size_x c.size_y c.default_value x0 y0 xn yn c.costmap v.cells v.fits
      le_x fit_x le_y fit_y)

-- `c` is a valid map of that size in which every cell has the default value.
pub record IsBlank {D : Type 0} (c : Costmap D) : Type 0 where
  pub valid : IsValid c
  pub cells : (x y : ℕ) → x < c.size_x → y < c.size_y → at c.size_x c.costmap x y ≡ c.default_value

pub reset_maps-IsBlank :
    {D : Type 0} (c : Costmap D)
    → IsValid c
    → (m : List ℕ) × (reset_maps c ≡ some (record c { costmap = m }))
      × IsBlank (record c { costmap = m })
unfolding reset_maps at
reset_maps-IsBlank {D} c v =
    let with_map : List ℕ → Option (Costmap D) = λ m. some (record c { costmap = m }) in
    let area : u32 (c.size_x * c.size_y) ≡ c.size_y * c.size_x = omega (arith, v.fits) in
    let r =
      memset-Maps c.costmap 0 c.default_value (c.size_y * c.size_x) (omega (arith, v.cells)) in
    (
      r.out,
      ap (λ n. memset c.costmap 0 c.default_value n >>= with_map) area
          ∙ ap (λ o. o >>= with_map) r.returns,
      record {
        valid = record { cells = r.size ∙ v.cells; fits = v.fits };
        cells = λ x y hx hy.
            ground (arith, r.cells (y * c.size_x + x), index-lt c.size_x c.size_y x y hx hy);
      },
    )

-- If the new size fits, `resize_map` returns a blank map of that size, resolution and origin, with
-- the old default value, whatever the allocator left in the memory.
pub resize_map-IsBlank :
    {D : Type 0} (mem : Memory) (c : Costmap D) (size_x size_y : ℕ)
    (resolution origin_x origin_y : D)
    → size_y * size_x + size_x < u32_mod
    → let sized = record c {
      size_x = size_x;
      size_y = size_y;
      resolution = resolution;
      origin_x = origin_x;
      origin_y = origin_y;
    } in
      (m : List ℕ) × (resize_map mem c size_x size_y resolution origin_x origin_y
        ≡ some (record sized { costmap = m }))
      × IsBlank (record sized { costmap = m })
unfolding resize_map init_maps
resize_map-IsBlank mem c size_x size_y resolution origin_x origin_y fits =
    reset_maps-IsBlank _ (record { cells = mem.length-new_array _ ∙ omega arith; fits = fits })
