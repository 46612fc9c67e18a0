-- ===== src/Layered/Updates.antt =====
-- updateMap with layers that paint: the master map is the layers' functions of the default value,
-- in their order.
use rosnavigation2copy.Prelude.{
  if_of_false, ℕ, ◌≤◌, ◌<◌, ◌≡◌, ◌∙◌, refl, ap, Option, none, some, List, ◌∷◌, Bool, true, false,
  if◌then◌else◌, arith, ◌||◌, ◌&&◌, not, leb, ltb,
}
use rosnavigation2copy.Prelude.Loops.{◌>>=◌}
use rosnavigation2copy.Prelude.Int.{int_mod, to_signed-eq, ◌+ℤ◌, ℤ, pos, pos_part, ltb_ℤ, ◌≤ℤ◌}
use rosnavigation2copy.Grid.{at}
use rosnavigation2copy.Grid.Window.{in_window}
use rosnavigation2copy.Costmap.{
  max_ℤ, min_ℤ, Costmap, IsValid, reset_map, world_to_map_enforce_bounds,
}
use rosnavigation2copy.Platform.{Floats, Memory}
use rosnavigation2copy.Costmap.Reset.{reset_map-Repaints}
use rosnavigation2copy.Layered.{
  Plugin, LayeredCostmap, paint, widen, update_map, roll, update_window, clip_lower, clip_upper,
}
use rosnavigation2copy.Layered.Painting.{AllPaint, composed, Repaints-then, paint-Repaints}

>>=-then :
    {A B : Type 0} (o : Option A) (k : A → Option A) (f : A → Option B) {a : A}
    → (o >>= k) ≡ some a
    → (o >>= λ b. k b >>= f) ≡ f a
>>=-then none k f e = cc
>>=-then (some b) k f e = rw e

lower : (a : ℤ) → pos 0 ≤ℤ clip_lower a
unfolding clip_lower
lower a = ground arith

upper : (size : ℕ) (b : ℤ) → size < int_mod → clip_upper size b ≤ℤ pos size
unfolding clip_upper
upper size b h = rw (to_signed-eq size h) (ground arith)

-- From the cell `a` to the cell `b`, both included.
abbrev pub between : ℤ → ℤ → ℕ → Bool
between a b x = not (ltb_ℤ (pos x) a) && not (ltb_ℤ b (pos x))

-- A cell of the rectangle of cells that has these two corners.
abbrev pub touches : ℤ × ℤ → ℤ × ℤ → ℕ → ℕ → Bool
touches first last x y = between first.0 last.0 x && between first.1 last.1 y

signed_clip :
    (size x : ℕ) (a b : ℤ)
    → x < size
    → (leb (pos_part (max_ℤ (pos 0) a)) x && ltb x (pos_part (min_ℤ (pos size) (b +ℤ pos 1))))
      ≡ between a b x
unfolding ◌+ℤ◌
signed_clip size x a b h = ground arith

clipped :
    (size x : ℕ) (a b : ℤ)
    → size < int_mod
    → x < size
    → (leb (pos_part (clip_lower a)) x && ltb x (pos_part (clip_upper size b))) ≡ between a b x
unfolding clip_lower clip_upper
clipped size x a b narrow h = rw (to_signed-eq size narrow) (signed_clip size x a b h)

both_axes : (p q r s u v : Bool) → (p && q) ≡ u → (r && s) ≡ v → (p && q && r && s) ≡ (u && v)
both_axes p q r s u v e f = ground arith

-- `r` is a normal return, whose map is `c` with other costs: each cell that is inside has the
-- composed functions of the default value, and the others are as before.
pub record Composes {D : Type 0} (fs : List (ℕ → ℕ → ℕ → ℕ)) (inside : ℕ → ℕ → Bool) (c : Costmap D)
    (r : Option (LayeredCostmap D)) : Type 0 where
  pub l' : LayeredCostmap D
  pub returns : r ≡ some l'
  pub m : List ℕ
  pub master : l'.costmap ≡ record c { costmap = m }
  pub valid : IsValid (record c { costmap = m })
  pub cells :
      (x y : ℕ)
      → x < c.size_x
      → y < c.size_y
      → at c.size_x m x y
        ≡ (if inside x y then composed fs x y c.default_value else at c.size_x c.costmap x y)

module _ {D : Type 0} (plugins : List (Plugin D)) (fs : List (ℕ → ℕ → ℕ → ℕ)) (l : LayeredCostmap D)
    (all : AllPaint l.costmap.size_x l.costmap.size_y plugins fs) (v : IsValid l.costmap) where
  window-Composes :
      (x0 y0 xn yn : ℤ)
      → (skip : Bool) → (ltb_ℤ xn x0 || ltb_ℤ yn y0) ≡ skip
      → pos 0 ≤ℤ x0
      → xn ≤ℤ pos l.costmap.size_x
      → pos 0 ≤ℤ y0
      → yn ≤ℤ pos l.costmap.size_y
      → Composes fs
          (in_window (pos_part x0) (pos_part y0) (pos_part xn) (pos_part yn))
          l.costmap
          (update_window plugins x0 y0 xn yn l)
  unfolding update_window
  window-Composes x0 y0 xn yn true e lx hx ly hy = record {
    l' = l;
    returns = rw e;
    m = l.costmap.costmap;
    master = refl;
    valid = v;
    cells = λ x y ltx lty. ground arith;
  }
  window-Composes x0 y0 xn yn false e lx hx ly hy =
      let le_x : pos_part x0 ≤ pos_part xn = ground arith in
      let le_y : pos_part y0 ≤ pos_part yn = ground arith in
      let fit_x : pos_part xn ≤ l.costmap.size_x = ground arith in
      let fit_y : pos_part yn ≤ l.costmap.size_y = ground arith in
      let t =
        Repaints-then l.costmap
          (reset_map l.costmap (pos_part x0) (pos_part y0) (pos_part xn) (pos_part yn))
          (λ m. paint plugins m (pos_part x0) (pos_part y0) (pos_part xn) (pos_part yn))
          (reset_map-Repaints l.costmap _ _ _ _ v le_x fit_x le_y fit_y)
          (λ m v'.
            paint-Repaints l.costmap.size_x l.costmap.size_y _ _ _ _ le_x fit_x le_y fit_y plugins
              fs (record l.costmap { costmap = m }) all v' refl refl) in
      record {
        l' = record l {
          costmap = record l.costmap { costmap = t.m };
          bx0 = x0;
          bxn = xn;
          by0 = y0;
          byn = yn;
          initialized = true;
        };
        returns =
            ap
              (λ (b : Bool).
                if b
                then some l
                else (reset_map l.costmap (pos_part x0) (pos_part y0) (pos_part xn) (pos_part yn)
                    >>= λ blank.
                        paint plugins blank (pos_part x0) (pos_part y0) (pos_part xn) (pos_part yn)
                        >>= λ m. some (record l {
                          costmap = m;
                          bx0 = x0;
                          bxn = xn;
                          by0 = y0;
                          byn = yn;
                          initialized = true;
                        })))
              e
            ∙ >>=-then (reset_map l.costmap (pos_part x0) (pos_part y0) (pos_part xn) (pos_part yn))
                (λ m. paint plugins m (pos_part x0) (pos_part y0) (pos_part xn) (pos_part yn)) _
                t.returns;
        m = t.m;
        master = refl;
        valid = t.valid;
        cells = t.cells;
      }

  -- Corners that leave the window empty change no cost.
  update_window-Composes :
      (first last : ℤ × ℤ)
      → l.costmap.size_x < int_mod
      → l.costmap.size_y < int_mod
      → Composes fs (touches first last) l.costmap (
          update_window plugins
            (clip_lower first.0)
            (clip_lower first.1)
            (clip_upper l.costmap.size_x last.0)
            (clip_upper l.costmap.size_y last.1)
            l)
  update_window-Composes first last hx hy =
      let t =
        window-Composes _ _ _ _ _ refl (lower first.0) (upper l.costmap.size_x last.0 hx)
          (lower first.1) (upper l.costmap.size_y last.1 hy) in
      record {
        l' = t.l';
        returns = t.returns;
        m = t.m;
        master = t.master;
        valid = t.valid;
        cells = λ x y lx ly.
            t.cells x y lx ly
            ∙ ap
                (λ (b : Bool).
                  if b
                  then composed fs x y l.costmap.default_value
                  else at l.costmap.size_x l.costmap.costmap x y)
                (both_axes (leb (pos_part (clip_lower first.0)) x)
                  (ltb x (pos_part (clip_upper l.costmap.size_x last.0)))
                  (leb (pos_part (clip_lower first.1)) y)
                  (ltb y (pos_part (clip_upper l.costmap.size_y last.1))) _ _
                  (clipped l.costmap.size_x x first.0 last.0 hx lx)
                  (clipped l.costmap.size_y y first.1 last.1 hy ly));
      }

roll_fixed :
    {D : Type 0} (fl : Floats D) (mem : Memory) (robot_x robot_y : D) (l : LayeredCostmap D)
    → l.rolling_window ≡ false
    → roll fl mem robot_x robot_y l ≡ some l
unfolding roll
roll_fixed fl mem robot_x robot_y l fixed = if_of_false _ (some l) fixed

Composes-bind :
    {D : Type 0} {fs : List (ℕ → ℕ → ℕ → ℕ)} {inside : ℕ → ℕ → Bool} {c : Costmap D}
    (o : Option (LayeredCostmap D)) (k : LayeredCostmap D → Option (LayeredCostmap D))
    (l : LayeredCostmap D)
    → o ≡ some l
    → Composes fs inside c (k l)
    → Composes fs inside c (o >>= k)
Composes-bind o k l e t = record {
  l' = t.l';
  returns = ap (λ r. r >>= k) e ∙ t.returns;
  m = t.m;
  master = t.master;
  valid = t.valid;
  cells = t.cells;
}

-- At least one layer, where every layer paints on valid maps of the master's size, and a valid master
-- map with sides below 2 ^ 31 that does not roll: `update_map` returns. With the cells of the corners
-- of the bounds that the layers widen in their order, held inside the map, every cell from the column
-- and the row of the first up to those of the last, both included, has the layers' functions applied
-- in their order to the default value, and every other cell keeps its cost.
pub update_map-Composes :
    {D : Type 0} (fl : Floats D) (mem : Memory) (far near : D) (p : Plugin D) (ps : List (Plugin D))
    (fs : List (ℕ → ℕ → ℕ → ℕ)) (robot_x robot_y robot_yaw : D) (l : LayeredCostmap D)
    → l.rolling_window ≡ false
    → AllPaint l.costmap.size_x l.costmap.size_y (p ∷ ps) fs
    → IsValid l.costmap
    → l.costmap.size_x < int_mod
    → l.costmap.size_y < int_mod
    → let b =
        widen
          (p ∷ ps)
          robot_x
          robot_y
          robot_yaw
          (record { min_x = far; min_y = far; max_x = near; max_y = near }) in
      let first = world_to_map_enforce_bounds fl l.costmap b.min_x b.min_y in
      let last = world_to_map_enforce_bounds fl l.costmap b.max_x b.max_y in
      Composes fs
        (touches first last)
        l.costmap
        (update_map fl mem far near (p ∷ ps) robot_x robot_y robot_yaw l)
unfolding update_map
update_map-Composes fl mem far near p ps fs robot_x robot_y robot_yaw l fixed all v narrow_x
      narrow_y =
    Composes-bind _ _ l (roll_fixed fl mem robot_x robot_y l fixed) (
      update_window-Composes (p ∷ ps) fs
        (record l {
          bounds =
              widen (p ∷ ps) robot_x robot_y robot_yaw
                (record { min_x = far; min_y = far; max_x = near; max_y = near });
        })
        all v _ _ narrow_x narrow_y)
