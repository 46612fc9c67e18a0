-- ===== src/Costmap/Origin.antt =====
-- updateOrigin moves the map over the grid: a cell that stays on it keeps its cost.
use rosnavigation2copy.Prelude.{
  ℕ, suc, ◌+◌, ◌-◌, ◌*◌, ◌≤◌, ◌<◌, ◌≡◌, ◌∙◌, ap, Option, some, inl, inr, ◌⊎◌,
}
use rosnavigation2copy.Prelude.{List, ◌&&◌, ltb, leb, if◌then◌else◌, arith, u32, u32_mod}
use rosnavigation2copy.Prelude.{length, Bool, true, false}
use native.Mathlib.Decide.{dec_lt}
use rosnavigation2copy.Prelude.Int.{ℤ, int_mod, to_signed-eq, pos, negsuc, pos_part, neg_part}
use rosnavigation2copy.Platform.{Memory, Floats}
use rosnavigation2copy.Grid.{at}
use rosnavigation2copy.Costmap.{
  Costmap, IsValid, move_cells, update_origin, window_lower, window_extent, window_start,
}
use rosnavigation2copy.Grid.Window.{in_window}
use rosnavigation2copy.Costmap.Reset.{reset_maps-IsBlank}
use rosnavigation2copy.Costmap.Copy.{area_mono, copy_map_region-MapsWindow, copy_map_region-empty}

-- Column (or row) `x` of the moved map was column `shifted o x` before the move by `o` cells; it was
-- on the map of `s` columns if `stays o s x`.
abbrev pub shifted : ℤ → ℕ → ℕ
shifted o x = x + pos_part o - neg_part o

abbrev pub stays : ℤ → ℕ → ℕ → Bool
stays o s x = leb (neg_part o) (x + pos_part o) && ltb (shifted o x) s

-- Either no column stays, or the columns that stay are `extent` many from `start` on.
record Stays (o : ℤ) (s : ℕ) : Type 0 where
  fit : window_start o (pos s) + window_extent o (pos s) ≤ s
  columns :
      (x : ℕ)
      → x < s
      → (stays o s x ≡ (
          leb (window_start o (pos s)) x
          && ltb x (window_start o (pos s) + window_extent o (pos s))))
        × (stays o s x ≡ true → x + window_lower o (pos s) - window_start o (pos s) ≡ shifted o x)

record Leaves (o : ℤ) (s : ℕ) : Type 0 where
  none_left : window_extent o (pos s) ≡ 0
  columns : (x : ℕ) → x < s → stays o s x ≡ false

lower-le : (o : ℤ) (s : ℕ) → s < u32_mod → window_lower o (pos s) + window_extent o (pos s) ≤ s
unfolding window_lower window_extent
lower-le o s h = ground arith

module _ (k s : ℕ) (h : s < u32_mod) where
  axis_right :
      k < s
      → (window_lower (pos k) (pos s) ≡ k)
        × (window_extent (pos k) (pos s) + k ≡ s)
        × (window_start (pos k) (pos s) ≡ 0)
  unfolding window_lower window_extent window_start
  axis_right lt = ground arith

  axis_right_out : s ≤ k → window_extent (pos k) (pos s) ≡ 0
  unfolding window_extent
  axis_right_out le = ground arith

  axis_left :
      suc k < s
      → (window_lower (negsuc k) (pos s) ≡ 0)
        × (window_extent (negsuc k) (pos s) + suc k ≡ s)
        × (window_start (negsuc k) (pos s) ≡ suc k)
  unfolding window_lower window_extent window_start
  axis_left lt = ground arith

  axis_left_out : s ≤ suc k → window_extent (negsuc k) (pos s) ≡ 0
  unfolding window_extent
  axis_left_out le = ground arith

axis : (o : ℤ) (s : ℕ) → s < u32_mod → Stays o s ⊎ Leaves o s
axis (pos k) s h = elim (dec_lt k s) [
  | yes lt ↦
      let e = axis_right k s h lt in
      inl (record { fit = omega arith; columns = λ x lx. (ground arith, ground arith) })
  | no far ↦
      inr
        (record { none_left = axis_right_out k s h (omega arith); columns = λ x lx. ground arith })
]
axis (negsuc k) s h = elim (dec_lt (suc k) s) [
  | yes lt ↦
      let e = axis_left k s h lt in
      inl (record { fit = omega arith; columns = λ x lx. (ground arith, ground arith) })
  | no far ↦
      inr (record { none_left = axis_left_out k s h (omega arith); columns = λ x lx. ground arith })
]

-- `r` is a normal return of a map of the same size, in which each cell holds what the cell (`ox`,
-- `oy`) further held in `c`, if that is a cell of `c`, and the default value if not.
pub record Moves {D : Type 0} (ox oy : ℤ) (c : Costmap D) (new_x new_y : D) (r : Option (Costmap D))
    : Type 0 where
  pub m : List ℕ
  pub returns : r ≡ some (record c { origin_x = new_x; origin_y = new_y; costmap = m })
  pub size : length m ≡ c.size_y * c.size_x
  pub cells :
      (x y : ℕ)
      → x < c.size_x
      → y < c.size_y
      → at c.size_x m x y ≡ (
          if stays ox c.size_x x && stays oy c.size_y y
          then at c.size_x c.costmap (shifted ox x) (shifted oy y)
          else c.default_value)

-- The copy out of the map and the copy back into it compose.
copied_cell :
    (f : ℕ → ℕ → ℕ) (x y ex ey lx ly other : ℕ)
    → x < ex
    → y < ey
    → (if in_window 0 0 (0 + ex) (0 + ey) x y then f (x + lx - 0) (y + ly - 0) else other)
      ≡ f (x + lx) (y + ly)
copied_cell f x y ex ey lx ly other hx hy = ground arith

moved_cell :
    (f g : ℕ → ℕ → ℕ) (new old x y sx ex lx sy ey ly : ℕ) {tx ty : ℕ} {bx by : Bool}
    → (bx ≡ (leb sx x && ltb x (sx + ex))) × (bx ≡ true → x + lx - sx ≡ tx)
    → (by ≡ (leb sy y && ltb y (sy + ey))) × (by ≡ true → y + ly - sy ≡ ty)
    → ((x' y' : ℕ) → x' < ex → y' < ey → g x' y' ≡ f (x' + lx) (y' + ly))
    → new ≡ (if in_window sx sy (sx + ex) (sy + ey) x y then g (x + 0 - sx) (y + 0 - sy) else old)
    → new ≡ (if bx && by then f tx ty else old)
moved_cell f g new old x y sx ex lx sy ey ly cx cy local e =
    ground (arith, local (x + 0 - sx) (y + 0 - sy))

module _ {D : Type 0} (mem : Memory) (c : Costmap D) (ox oy : ℤ) (new_x new_y : D) (v : IsValid c)
    (small_x : c.size_x < int_mod) (small_y : c.size_y < int_mod) where
  open c use {size_x as w, size_y as h}

  move_none :
      (window_extent ox (pos w) ≡ 0) ⊎ (window_extent oy (pos h) ≡ 0)
      → ((x y : ℕ) → x < w → y < h → (stays ox w x && stays oy h y) ≡ false)
      → Moves ox oy c new_x new_y (move_cells mem c ox oy new_x new_y)
  unfolding move_cells
  move_none empty gone =
      let (m, e, blank) = reset_maps-IsBlank c v in
      record {
        m = m;
        returns = rw (
          to_signed-eq w small_x,
          to_signed-eq h small_y,
          copy_map_region-empty _ _ _ _ _ _ _ _ _ _ empty,
          e,
          copy_map_region-empty _ _ _ _ _ _ _ _ _ _ empty,
        );
        size = blank.valid.cells;
        cells = λ x y hx hy. rw (gone x y hx hy) (blank.cells x y hx hy);
      }

  move_some :
      Stays ox w → Stays oy h → Moves ox oy c new_x new_y (move_cells mem c ox oy new_x new_y)
  unfolding move_cells
  move_some sx sy =
      let ex = window_extent ox (pos w) in
      let ey = window_extent oy (pos h) in
      let low_x = lower-le ox w (omega arith) in
      let low_y = lower-le oy h (omega arith) in
      let area : ey * ex ≤ h * w = area_mono ex ey w h (omega arith) (omega arith) in
      let n = u32 (ex * ey) in
      let at_n : n ≡ ey * ex = omega (arith, v.fits) in
      let (m, e, blank) = reset_maps-IsBlank c v in
      let out =
        copy_map_region-MapsWindow {sx = window_lower ox (pos w)} {sy = window_lower oy (pos h)}
          {dx = 0} {dy = 0}
          (record { cells = v.cells; fits = v.fits; columns = low_x; rows = low_y })
          (record {
            cells = mem.length-new_array n ∙ at_n;
            fits = omega (arith, v.fits);
            columns = omega arith;
            rows = omega arith;
          }) in
      let back =
        copy_map_region-MapsWindow {sx = 0} {sy = 0} {dx = window_start ox (pos w)}
          {dy = window_start oy (pos h)}
          (record {
            cells = out.size ∙ mem.length-new_array n ∙ at_n;
            fits = omega (arith, v.fits);
            columns = omega arith;
            rows = omega arith;
          })
          (record { cells = blank.valid.cells; fits = v.fits; columns = sx.fit; rows = sy.fit }) in
      record {
        m = back.out;
        returns = rw (to_signed-eq w small_x, to_signed-eq h small_y, out.returns, e, back.returns);
        size = back.size ∙ blank.valid.cells;
        cells = λ x y hx hy.
            moved_cell (at w c.costmap) (at ex out.out) (at w back.out x y) (at w m x y) x y
              (window_start ox (pos w)) ex (window_lower ox (pos w)) (window_start oy (pos h)) ey
              (window_lower oy (pos h)) (sx.columns x hx) (sy.columns y hy)
              (λ x' y' hx' hy'.
                out.cells x' y' hx' hy' ∙ copied_cell (at w c.costmap) x' y' ex ey _ _ _ hx' hy')
              (back.cells x y hx hy)
            ∙ ap
                (λ (d : ℕ).
                  if stays ox w x && stays oy h y
                  then at w c.costmap (shifted ox x) (shifted oy y)
                  else d)
                (blank.cells x y hx hy);
      }

  -- On a valid map whose sides are below 2 ^ 31, for any offset, the map moves by the offset.
  pub move_cells-Moves : Moves ox oy c new_x new_y (move_cells mem c ox oy new_x new_y)
  move_cells-Moves = elim (axis ox w (omega arith)) [
    | inr gone ↦ move_none (inl gone.none_left) (λ x y hx hy. rw (gone.columns x hx))
    | inl sx ↦ elim (axis oy h (omega arith)) [
      | inr gone ↦ move_none (inr gone.none_left) (λ x y hx hy. ground (arith, gone.columns y hy))
      | inl sy ↦ move_some sx sy
    ]
  ]

-- For a valid map whose sides are below 2 ^ 31, `update_origin` returns. The offset is that of the
-- new origin in whole cells; each cell that has a cost from before the move shows it, and the others
-- have the default value; the origin moves by the offset times the resolution.
pub update_origin-Moves :
    {D : Type 0} (fl : Floats D) (mem : Memory) (c : Costmap D) (new_x new_y : D)
    → IsValid c
    → c.size_x < int_mod
    → c.size_y < int_mod
    → let ox = fl.to_int (fl.div (fl.sub new_x c.origin_x) c.resolution) in
      let oy = fl.to_int (fl.div (fl.sub new_y c.origin_y) c.resolution) in
      Moves ox oy c
        (fl.add c.origin_x (fl.mul (fl.of_int ox) c.resolution))
        (fl.add c.origin_y (fl.mul (fl.of_int oy) c.resolution))
        (update_origin fl mem c new_x new_y)
unfolding update_origin
update_origin-Moves fl mem c new_x new_y v small_x small_y =
    move_cells-Moves mem c _ _ _ _ v small_x small_y
