-- ===== src/Inflation/Updates.antt =====
-- updateCosts of the inflation layer, from the obstacles in the window on.
use rosnavigation2copy.Prelude.{
  ℕ, suc, ◌+◌, ◌-◌, ◌*◌, ◌≤◌, ◌<◌, ◌≡◌, ◌≢◌, refl, ap, sym, zero, some_inj, get_elem?, ◌∙◌, ◌⊎◌,
  min, Bool, true, false, not, ◌||◌, ◌==◌, Bool-cases, ==_iff, inl, inr, Option, some, List, [],
  ◌∷◌, map, length, length-map, replicate, length-replicate, arith, if◌then◌else◌, u32,
}
use mathlib.Core.Bool.{true≢false}
use mathlib.Core.Option.{none-ne-some}
use rosnavigation2copy.Prelude.Int.{int_mod, to_signed-eq}
use rosnavigation2copy.Platform.{Floats}
use rosnavigation2copy.Grid.{at}
use rosnavigation2copy.Costmap.{Costmap, IsValid}
use rosnavigation2copy.Wave.Measure.{unseen}
use rosnavigation2copy.Inflation.{
  CellData, InflationLayer, find_obstacles, inflate, inflate_window, update_costs,
}
use rosnavigation2copy.Inflation.Rounds.{inflate-ends}
use rosnavigation2copy.Inflation.Front.{HasCaches, Inflated}
use rosnavigation2copy.Inflation.Obstacles.{IsObstacle, find_obstacles-Found}

unseen-all : (seen : List Bool) → unseen (map (λ _. false) seen) ≡ length seen
unseen-all [] = refl
unseen-all (x ∷ seen) = ap suc (unseen-all seen)

not_skipped :
    {A : Type 0} (enabled : Bool) (r : ℕ) (skip go : A)
    → enabled ≡ true
    → 0 < r
    → (if not enabled || (r == 0) then skip else go) ≡ go
not_skipped enabled r skip go e h = ground arith

none_done : (seen : List Bool) (n : ℕ) → get_elem? (map (λ _. false) seen) n ≢ some true
none_done [] n e = none-ne-some true e
none_done (x ∷ seen) zero e = true≢false (sym (some_inj e))
none_done (x ∷ seen) (suc n) e = none_done seen n e

-- seen_ has the size of the map after the test.
right_size :
    (seen : List Bool) (n : ℕ) → length (if length seen == n then seen else replicate n false) ≡ n
right_size seen n = elim (Bool-cases (length seen == n)) [
  | inl t ↦ rw t ((==_iff (length seen) n).0 t)
  | inr f ↦ rw f (length-replicate n false)
]

-- `r` is a normal return of `c` with other costs: each cell keeps its cost, or has what a lethal
-- cell of the window, at most a radius of columns and rows away, makes of it, as each lethal cell of
-- the window has.
pub record Inflates {D : Type 0} (l : InflationLayer D) (c : Costmap D) (lo_x lo_y hi_x hi_y : ℕ)
    (r : Option (Costmap D)) : Type 0 where
  pub m : List ℕ
  pub returns : r ≡ some (record c { costmap = m })
  pub valid : IsValid (record c { costmap = m })
  pub cells :
      (x y : ℕ)
      → x < c.size_x
      → y < c.size_y
      → (at c.size_x m x y ≡ at c.size_x c.costmap x y)
        ⊎ Inflated l
            (IsObstacle c.size_x lo_x lo_y hi_x hi_y c.costmap)
            x
            y
            (at c.size_x c.costmap x y)
            (at c.size_x m x y)
  pub obstacles :
      (x y : ℕ)
      → IsObstacle c.size_x lo_x lo_y hi_x hi_y c.costmap x y
      → Inflated l
          (IsObstacle c.size_x lo_x lo_y hi_x hi_y c.costmap)
          x
          y
          (at c.size_x c.costmap x y)
          (at c.size_x m x y)

module _ {D : Type 0} (fl : Floats D) (l : InflationLayer D) (caches : HasCaches fl l)
    (c : Costmap D) (v : IsValid c) where
  -- `inflate_window` from the size, the obstacles and the end of the wave.
  inflate_window-eq :
      (lo_x lo_y hi_x hi_y area : ℕ) (cells : List CellData) (m : List ℕ)
      → u32 (c.size_x * c.size_y) ≡ area
      → find_obstacles c lo_x lo_y hi_x hi_y ≡ some cells
      → inflate fl l (suc (14 * area)) c.size_x c.size_y (record {
        key = fl.of_nat 0;
        cells = cells;
        later = [];
        seen = map (λ _. false) (if length l.seen == area then l.seen else replicate area false);
        master = c.costmap;
      })
        ≡ some m
      → inflate_window fl l c lo_x lo_y hi_x hi_y ≡ some (record c { costmap = m })
  unfolding inflate_window
  inflate_window-eq lo_x lo_y hi_x hi_y area cells m e_area e_cells e = rw (e_area, e_cells, e) refl

  inflate_window-Inflates :
      (lo_x lo_y hi_x hi_y : ℕ)
      → lo_x ≤ hi_x
      → lo_y ≤ hi_y
      → hi_x ≤ c.size_x
      → hi_y ≤ c.size_y
      → c.size_y * c.size_x ≤ int_mod
      → Inflates l c lo_x lo_y hi_x hi_y (inflate_window fl l c lo_x lo_y hi_x hi_y)
  inflate_window-Inflates lo_x lo_y hi_x hi_y le_x le_y fit_x fit_y few_cells =
      let area : u32 (c.size_x * c.size_y) ≡ c.size_y * c.size_x = omega (arith, v.fits) in
      let (cells, e, f) =
        find_obstacles-Found c v lo_x lo_y hi_x hi_y l.cell_inflation_radius fit_x fit_y few_cells
          le_x le_y in
      let old =
        if length l.seen == (c.size_y * c.size_x)
        then l.seen
        else replicate (c.size_y * c.size_x) false in
      let start = map (λ (_ : Bool). false) old in
      let size : length start ≡ c.size_y * c.size_x =
        length-map old (λ _. false) ∙ right_size l.seen (c.size_y * c.size_x) in
      let left : unseen start ≡ c.size_y * c.size_x =
        unseen-all _ ∙ right_size l.seen (c.size_y * c.size_x) in
      let (m, e2, full, all, waiting) =
        inflate-ends fl l (IsObstacle c.size_x lo_x lo_y hi_x hi_y c.costmap) c.size_x c.size_y
          c.costmap caches (omega (arith, v.fits)) (suc (14 * (c.size_y * c.size_x))) (fl.of_nat 0)
          cells [] start c.costmap
          (record {
            sized = size;
            full = v.cells;
            cells = f.reach;
            later = tt;
            done = λ x y hx hy e. absurd (none_done old (y * c.size_x + x) e);
            fresh = λ x y hx hy _. refl;
          })
          (omega (arith, left, f.few)) in
      record {
        m = m;
        returns = inflate_window-eq lo_x lo_y hi_x hi_y _ cells m area e e2;
        valid = record { cells = full; fits = v.fits };
        cells = all;
        obstacles = λ x y o.
            waiting x y (let p = o.right in omega arith) (let p = o.high in omega arith)
              (inr (f.all x y o (inl o.high)));
      }

  -- A layer with its tables, enabled, with a radius, and a window in a valid master map whose sides
  -- and indices are below 2 ^ 31:
  -- `update_costs` returns without a fault, and a cost that it changes is what a lethal cell makes of
  -- it that lies in the window enlarged by the radius, at most a radius of columns and rows away; and
  -- every lethal cell of that window has a cost that such a cell makes of its own.
  pub update_costs-Inflates :
      (lo_x lo_y hi_x hi_y : ℕ)
      → l.enabled ≡ true
      → 0 < l.cell_inflation_radius
      → lo_x ≤ hi_x
      → lo_y ≤ hi_y
      → hi_x ≤ c.size_x
      → hi_y ≤ c.size_y
      → c.size_y * c.size_x ≤ int_mod
      → c.size_x < int_mod
      → c.size_y < int_mod
      → Inflates l c
          (lo_x - l.cell_inflation_radius)
          (lo_y - l.cell_inflation_radius)
          (min c.size_x (hi_x + l.cell_inflation_radius))
          (min c.size_y (hi_y + l.cell_inflation_radius))
          (update_costs fl l c lo_x lo_y hi_x hi_y)
  unfolding update_costs
  update_costs-Inflates lo_x lo_y hi_x hi_y enabled radius le_x le_y fit_x fit_y area narrow_x
        narrow_y =
      let w =
        inflate_window-Inflates (lo_x - l.cell_inflation_radius) (lo_y - l.cell_inflation_radius)
          (min c.size_x (hi_x + l.cell_inflation_radius))
          (min c.size_y (hi_y + l.cell_inflation_radius)) (omega arith) (omega arith) (omega arith)
          (omega arith) area in
      record {
        m = w.m;
        returns =
            rw (to_signed-eq c.size_x narrow_x, to_signed-eq c.size_y narrow_y)
              (not_skipped l.enabled l.cell_inflation_radius _ _ enabled radius ∙ w.returns);
        valid = w.valid;
        cells = w.cells;
        obstacles = w.obstacles;
      }
