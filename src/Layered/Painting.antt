-- ===== src/Layered/Painting.antt =====
-- Layers that paint: updateCosts replaces the costs of a window by a function of theirs.
use rosnavigation2copy.Prelude.{
  ℕ, ◌≤◌, ◌≡◌, ◌∙◌, refl, ap, Option, List, [], ◌∷◌, Bool, true, false, if◌then◌else◌, arith,
}
use rosnavigation2copy.Prelude.Loops.{◌>>=◌}
use rosnavigation2copy.Grid.{at}
use rosnavigation2copy.Grid.Window.{in_window}
use rosnavigation2copy.Costmap.{Costmap, IsValid}
use rosnavigation2copy.Costmap.Reset.{Repaints}
use mathlib.Core.Path.{subst}
use rosnavigation2copy.Layer.{Bounds, Layer, update_with_max}
use rosnavigation2copy.Layer.Cells.{greater}
use rosnavigation2copy.Layer.Updates.{update_with_max-Repaints}
use rosnavigation2copy.Prelude.{length, ◌*◌}
use rosnavigation2copy.Layered.{Plugin, paint}

-- On every valid map of `w` by `h` cells and every window inside it, the layer replaces each cost
-- of the window by `f` of its column, its row and the cost.
pub record Paints {D : Type 0} (w h : ℕ) (p : Plugin D) (f : ℕ → ℕ → ℕ → ℕ) : Type 0 where
  pub paints :
      (c : Costmap D) (x0 y0 xn yn : ℕ)
      → IsValid c
      → c.size_x ≡ w
      → c.size_y ≡ h
      → x0 ≤ xn
      → xn ≤ w
      → y0 ≤ yn
      → yn ≤ h
      → Repaints f x0 y0 xn yn c (p.update_costs c x0 y0 xn yn)

pub data AllPaint {D : Type 0} (w h : ℕ) : List (Plugin D) → List (ℕ → ℕ → ℕ → ℕ) → Type 0 where
  none_left : AllPaint w h [] []
  one_more :
      {p : Plugin D} {f : ℕ → ℕ → ℕ → ℕ} {plugins : List (Plugin D)} {fs : List (ℕ → ℕ → ℕ → ℕ)}
      → Paints w h p f
      → AllPaint w h plugins fs
      → AllPaint w h (p ∷ plugins) (f ∷ fs)

-- The first layer's function first.
abbrev pub composed : List (ℕ → ℕ → ℕ → ℕ) → ℕ → ℕ → ℕ → ℕ
composed [] x y v = v
composed (f ∷ fs) x y v = composed fs x y (f x y v)

twice :
    (inside : Bool) (f g : ℕ → ℕ) (v0 v1 v2 : ℕ)
    → v2 ≡ (if inside then g v1 else v1)
    → v1 ≡ (if inside then f v0 else v0)
    → v2 ≡ (if inside then g (f v0) else v0)
twice true f g v0 v1 v2 e e' = e ∙ ap g e'
twice false f g v0 v1 v2 e e' = e ∙ e'

same_cell : (inside : Bool) (v : ℕ) → v ≡ (if inside then v else v)
same_cell true v = refl
same_cell false v = refl

pub Repaints-then :
    {D : Type 0} {f g : ℕ → ℕ → ℕ → ℕ} {x0 y0 xn yn : ℕ} (c : Costmap D) (r : Option (Costmap D))
    (k : Costmap D → Option (Costmap D))
    → Repaints f x0 y0 xn yn c r
    → ((m : List ℕ)
        → IsValid (record c { costmap = m })
        → Repaints g x0 y0 xn yn (record c { costmap = m }) (k (record c { costmap = m })))
    → Repaints (λ x y v. g x y (f x y v)) x0 y0 xn yn c (r >>= k)
Repaints-then {D} {f} {g} {x0} {y0} {xn} {yn} c r k a next =
    let b = next a.m a.valid in
    record {
      m = b.m;
      returns = ap (λ o. o >>= k) a.returns ∙ b.returns;
      valid = b.valid;
      cells = λ x y hx hy.
          twice (in_window x0 y0 xn yn x y) (f x y) (g x y) (at c.size_x c.costmap x y)
            (at c.size_x a.m x y) (at c.size_x b.m x y) (b.cells x y hx hy) (a.cells x y hx hy);
    }

module _ {D : Type 0} (w h x0 y0 xn yn : ℕ) (le_x : x0 ≤ xn) (fit_x : xn ≤ w) (le_y : y0 ≤ yn)
    (fit_y : yn ≤ h) where
  pub paint-Repaints :
      (plugins : List (Plugin D)) (fs : List (ℕ → ℕ → ℕ → ℕ)) (c : Costmap D)
      → AllPaint w h plugins fs
      → IsValid c
      → c.size_x ≡ w
      → c.size_y ≡ h
      → Repaints (composed fs) x0 y0 xn yn c (paint plugins c x0 y0 xn yn)
  unfolding paint
  paint-Repaints [] [] c none_left v ew eh = record {
    m = c.costmap;
    returns = refl;
    valid = v;
    cells = λ x y hx hy. same_cell (in_window x0 y0 xn yn x y) (at c.size_x c.costmap x y);
  }
  paint-Repaints [] (f ∷ fs) c all v ew eh = elim all [ ]
  paint-Repaints (p ∷ plugins) [] c all v ew eh = elim all [ ]
  paint-Repaints (p ∷ plugins) (f ∷ fs) c (one_more here rest) v ew eh =
      Repaints-then c _ _ (here.paints c x0 y0 xn yn v ew eh le_x fit_x le_y fit_y)
        (λ m v'. paint-Repaints plugins fs (record c { costmap = m }) rest v' ew eh)

pub in_width :
    {D : Type 0} (g : ℕ → ℕ → ℕ → ℕ → ℕ) {w x0 y0 xn yn : ℕ} {r : Option (Costmap D)}
    (c : Costmap D)
    → c.size_x ≡ w
    → Repaints (g c.size_x) x0 y0 xn yn c r
    → Repaints (g w) x0 y0 xn yn c r
in_width g {x0 = x0} {y0 = y0} {xn = xn} {yn = yn} {r = r} c e t =
    subst (λ n. Repaints (g n) x0 y0 xn yn c r) e t

-- An enabled layer of the master's size whose updateCosts is updateWithMax paints.
pub max-Paints :
    {D : Type 0} (bounds : D → D → D → Bounds D → Bounds D) (current : Bool) (l : Layer D) (w h : ℕ)
    → l.enabled ≡ true
    → length l.costs.costmap ≡ h * w
    → Paints w h
        (record { update_bounds = bounds; update_costs = update_with_max l; is_current = current })
        (λ x y old. greater old (at w l.costs.costmap x y))
max-Paints bounds current l w h enabled size = record {
  paints = λ c x0 y0 xn yn v ew eh le_x fit_x le_y fit_y.
      in_width (λ n x y old. greater old (at n l.costs.costmap x y)) c ew
        (update_with_max-Repaints l c x0 y0 xn yn (record {
          enabled = enabled;
          size = size ∙ rw (ew, eh) refl;
          valid = v;
          ordered = (le_x, le_y);
          inside = (omega arith, omega arith);
        }));
}
