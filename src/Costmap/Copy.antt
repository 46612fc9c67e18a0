-- ===== src/Costmap/Copy.antt =====
-- copyMapRegion copies a rectangle; copyCostmapWindow and operator= rest on such copies.
use rosnavigation2copy.Prelude.{
  ℕ, ◌+◌, ◌-◌, ◌*◌, ◌≤◌, ◌<◌, ◌≡◌, ◌∙◌, refl, ap, sym, Option, some, inl, inr, ◌⊎◌,
}
use rosnavigation2copy.Prelude.{
  List, ◌&&◌, ltb, leb, if◌then◌else◌, arith, u32, sub_u32, u32_mod, u32-eq_of_lt,
}
use rosnavigation2copy.Prelude.{length, get_or, true}
use rosnavigation2copy.Prelude.Loops.{for_range, ◌>>=◌}
use rosnavigation2copy.Platform.{Memory}
use rosnavigation2copy.Grid.{at}
use rosnavigation2copy.Grid.Index.{row-le, eq_of_get_or}
use rosnavigation2copy.Grid.Window.{MapsRow, MapsWindow, MapsWindow-of_eq, rows-MapsWindow}
use rosnavigation2copy.Costmap.{
  Costmap, IsValid, memcpy, copy_rows, copy_map_region, copy_window, assign, init_maps, delete_maps,
}
use rosnavigation2copy.Costmap.Bytes.{memcpy-Maps, copy_rows-eq-for_range, copy_rows-empty}

no_rows : (k w : ℕ) → (k - k) * w ≡ 0
no_rows k w = let e : k - k ≡ 0 = omega arith in rw e (omega arith)

-- The rectangle of `rx` by `ry` cells at (`lx`, `ly`) lies in a grid of `w` by `h` cells, whose
-- indices do not wrap.
pub record Holds (w h lx ly rx ry : ℕ) (m : List ℕ) : Type 0 where
  pub cells : length m ≡ h * w
  pub fits : h * w + w < u32_mod
  pub columns : lx + rx ≤ w
  pub rows : ly + ry ≤ h

module _ {sw sh sx sy dw dh dx dy rx ry : ℕ} {source dest : List ℕ}
    (from : Holds sw sh sx sy rx ry source) (to : Holds dw dh dx dy rx ry dest) where
  memcpy-MapsRow :
      (j : ℕ) (a : List ℕ)
      → dy ≤ j
      → j < dy + ry
      → length a ≡ dh * dw
      → MapsRow
          (λ x y v. at sw source (x + sx - dx) (y + sy - dy))
          dw
          dx
          (dx + rx)
          j
          a
          (memcpy a (j * dw + dx) source ((j - dy) * sw + (sy * sw + sx)) rx)
  unfolding at
  memcpy-MapsRow j a after lt size =
      let row_in : (j - dy + sy) * sw + sw ≤ sh * sw =
        row-le sw (j - dy + sy) sh (omega (arith, from.rows)) in
      let same_row : (j + sy - dy) * sw ≡ (j - dy + sy) * sw =
        ap (λ (k : ℕ). k * sw) (omega arith) in
      let r =
        memcpy-Maps a (j * dw + dx) source ((j - dy) * sw + (sy * sw + sx)) rx
          (omega (arith, to.columns, to.rows, row-le dw j dh (omega (arith, to.rows))))
          (omega (arith, from.columns, from.cells)) in
      record {
        f = λ q v. get_or source (q + ((j - dy) * sw + (sy * sw + sx)) - (j * dw + dx)) 0;
        agrees = λ x v lo hi. ap (λ i. get_or source i 0) (omega (arith, same_row));
        maps = record {
          out = r.out;
          returns = r.returns;
          size = r.size;
          cells = λ q. r.cells q ∙ ground arith;
        };
      }

  -- The rectangle holds what it held in the source, and the rest of the destination is unchanged.
  pub copy_map_region-MapsWindow :
      MapsWindow
        (λ x y v. at sw source (x + sx - dx) (y + sy - dy))
        dw
        dh
        dx
        dy
        (dx + rx)
        (dy + ry)
        dest
        (copy_map_region source sx sy sw dest dx dy dw rx ry)
  unfolding copy_map_region
  copy_map_region-MapsWindow =
      let low : sy * sw ≤ sh * sw = grind (arith, from.rows) in
      let low' : dy * dw ≤ dh * dw = grind (arith, to.rows) in
      let at_s : u32 (sy * sw + sx) ≡ sy * sw + sx =
        u32-eq_of_lt _ (omega (arith, from.fits, from.columns)) in
      let at_d : u32 (dy * dw + dx) ≡ dy * dw + dx =
        u32-eq_of_lt _ (omega (arith, to.fits, to.columns)) in
      let zero_rows : (dy - dy) * sw ≡ 0 = no_rows dy sw in
      let rounds : dy + ry - dy ≡ ry = omega arith in
      MapsWindow-of_eq
        (copy_rows-eq-for_range ry dy dy (sy * sw + sx) dx sw dw rx (u32 (sy * sw + sx))
            (u32 (dy * dw + dx)) source dest (omega arith) (omega (arith, zero_rows)) at_d
          ∙ ap
              (λ n.
                for_range n dy
                  (λ i a. memcpy a (i * dw + dx) source ((i - dy) * sw + (sy * sw + sx)) rx) dest)
              (sym rounds))
        (rows-MapsWindow _ _ dw dh dx dy (dx + rx) (dy + ry) dest to.columns to.rows memcpy-MapsRow
          to.cells (omega arith))

-- A rectangle with no cell: nothing is copied, wherever its corners are.
pub copy_map_region-empty :
    (source : List ℕ) (sx sy sw : ℕ) (dest : List ℕ) (dx dy dw rx ry : ℕ)
    → (rx ≡ 0) ⊎ (ry ≡ 0)
    → copy_map_region source sx sy sw dest dx dy dw rx ry ≡ some dest
unfolding copy_map_region
copy_map_region-empty source sx sy sw dest dx dy dw rx ry (inl e) =
    copy_rows-empty ry _ sw _ dw rx source dest e
copy_map_region-empty source sx sy sw dest dx dy dw rx ry (inr e) = rw e (unfold copy_rows in refl)

-- Assigning a valid map to another object copies everything but the default value, which stays that
-- of the object assigned to.
pub assign-eq :
    {D : Type 0} (mem : Memory) (c map : Costmap D)
    → IsValid map
    → assign mem c map ≡ some (record map { default_value = c.default_value })
unfolding assign init_maps delete_maps
assign-eq {D} mem c map v =
    let n = u32 (map.size_x * map.size_y) in
    let area : n ≡ length map.costmap = omega (arith, v.fits, v.cells) in
    let fresh = mem.new_array n in
    let size : length fresh ≡ n = mem.length-new_array n in
    let r = memcpy-Maps fresh 0 map.costmap 0 n (omega arith) (omega arith) in
    let same : r.out ≡ map.costmap =
      eq_of_get_or r.out map.costmap 0 (r.size ∙ size ∙ area)
        (λ i lt. copied i n r.out (λ q. get_or fresh q 0) r.cells (omega (arith, r.size))) in
    let with_map : List ℕ → Option (Costmap D) =
      λ m. some (record map { costmap = m; default_value = c.default_value }) in
    ap (λ o. o >>= with_map) r.returns ∙ ap with_map same
  where
    copied :
        (i n : ℕ) (out : List ℕ) (f : ℕ → ℕ)
        → ((q : ℕ)
            → get_or out q 0
              ≡ (if leb 0 q && ltb q (0 + n) then get_or map.costmap (q + 0 - 0) 0 else f q))
        → i < n
        → get_or out i 0 ≡ get_or map.costmap i 0
    copied i n out f cells lt =
        let e : i + 0 - 0 ≡ i = omega arith in
        ground (arith, cells i, ap (λ j. get_or map.costmap j 0) e)

le-mul : (h w : ℕ) → 0 < w → h ≤ h * w
le-mul h w p = grind arith

pub area_mono : (a b w h : ℕ) → a ≤ w → b ≤ h → b * a ≤ h * w
area_mono a b w h p q = grind arith

-- `c` shows the window of `map` with its lower left cell at (`lx`, `ly`).
pub record IsWindow {D : Type 0} (map : Costmap D) (lx ly : ℕ) (c : Costmap D) : Type 0 where
  pub valid : IsValid c
  pub resolution : c.resolution ≡ map.resolution
  pub cells :
      (x y : ℕ)
      → x < c.size_x
      → y < c.size_y
      → at c.size_x c.costmap x y ≡ at map.size_x map.costmap (x + lx) (y + ly)

pub copy_window-IsWindow :
    {D : Type 0} (mem : Memory) (c map : Costmap D) (wx wy : D) (lx ly ux uy : ℕ)
    → IsValid map
    → lx ≤ ux
    → ly ≤ uy
    → ux < map.size_x
    → uy < map.size_y
    → (c' : Costmap D) × (copy_window mem c map wx wy (lx, ly) (ux, uy) ≡ some (c', true))
      × (c'.size_x ≡ ux - lx)
      × (c'.size_y ≡ uy - ly)
      × IsWindow map lx ly c'
unfolding copy_window init_maps delete_maps
copy_window-IsWindow {D} mem c map wx wy lx ly ux uy v le_x le_y lt_x lt_y =
    let tall : map.size_y ≤ map.size_y * map.size_x = le-mul map.size_y map.size_x (omega arith) in
    let nx = sub_u32 ux lx in
    let ny = sub_u32 uy ly in
    let width : nx ≡ ux - lx = omega (arith, v.fits) in
    let height : ny ≡ uy - ly = omega (arith, v.fits) in
    let area : ny * nx ≤ map.size_y * map.size_x =
      area_mono nx ny map.size_x map.size_y (omega arith) (omega arith) in
    let n = u32 (nx * ny) in
    let at_n : n ≡ ny * nx = omega (arith, v.fits) in
    let from : Holds map.size_x map.size_y lx ly nx ny map.costmap = record {
      cells = v.cells;
      fits = v.fits;
      columns = omega arith;
      rows = omega arith;
    } in
    let to : Holds nx ny 0 0 nx ny (mem.new_array n) = record {
      cells = mem.length-new_array n ∙ at_n;
      fits = omega (arith, v.fits);
      columns = omega arith;
      rows = omega arith;
    } in
    let r = copy_map_region-MapsWindow from to in
    (
      record {
        size_x = nx;
        size_y = ny;
        resolution = map.resolution;
        origin_x = wx;
        origin_y = wy;
        costmap = r.out;
        default_value = c.default_value;
      },
      rw r.returns,
      width,
      height,
      record {
        valid = record { cells = r.size ∙ mem.length-new_array n ∙ at_n; fits = to.fits };
        resolution = refl;
        cells = λ x y hx hy. ground (arith, r.cells x y hx hy);
      },
    )
