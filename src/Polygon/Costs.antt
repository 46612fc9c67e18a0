-- ===== src/Polygon/Costs.antt =====
-- The whole of setConvexPolygonCost: the columns of the outline are filled, and nothing else changes.
use rosnavigation2copy.Prelude.{
  ◌≤◌, none, false, ℕ, ◌+◌, ◌*◌, ◌<◌, ◌≡◌, ◌⊎◌, refl, ap, ◌∙◌, inl, inr, true, Option, some, List,
  [], ◌∷◌, length, length-set, set, arith, Bool, some_inj,
}
use mathlib.Core.Path.{subst}
use rosnavigation2copy.Prelude.Loops.{>>=-eq-some}
use rosnavigation2copy.Prelude.Int.{int_mod}
use rosnavigation2copy.Platform.{Floats, ExactCounts}
use rosnavigation2copy.Grid.{at, write}
use rosnavigation2copy.Grid.Index.{written, index-lt, write-eq-some}
use rosnavigation2copy.Costmap.{Costmap, IsValid, get_index, world_to_map}
use rosnavigation2copy.Costmap.World.{get_index-eq, world_to_map-lt}
use rosnavigation2copy.Polygon.{
  MapLocation, edges, set_cells, convex_fill_cells, to_map, set_convex_polygon_cost,
}
use rosnavigation2copy.Polygon.Cells.{Has}
use rosnavigation2copy.Polygon.Columns.{IsBetween}
use rosnavigation2copy.Polygon.Hull.{convex_fill_cells-IsHull}
use rosnavigation2copy.Polygon.Outline.{AllIn, edges-Enclosed}

-- `o` is `c` where the cells of the list have the cost, and no other has changed.
record Sets {D : Type 0} (c : Costmap D) (cost_value : ℕ) (cells : List MapLocation)
    (o : Option (Costmap D)) : Type 0 where
  m : List ℕ
  returns : o ≡ some (record c { costmap = m })
  valid : IsValid (record c { costmap = m })
  place :
      (x y : ℕ)
      → x < c.size_x
      → y < c.size_y
      → (Has (record { x = x; y = y }) cells × (at c.size_x m x y ≡ cost_value))
        ⊎ (¬ Has (record { x = x; y = y }) cells × (at c.size_x m x y ≡ at c.size_x c.costmap x y))

set_cells-Sets :
    {D : Type 0} (c : Costmap D) (cost_value : ℕ) (cells : List MapLocation)
    → IsValid c
    → AllIn c cells
    → Sets c cost_value cells (set_cells c cost_value cells)
unfolding set_cells
set_cells-Sets c cost_value [] v inside = record {
  m = c.costmap;
  returns = refl;
  valid = v;
  place = λ x y hx hy. inr (λ has. has, refl);
}
set_cells-Sets c cost_value (p ∷ cells) v inside =
    let (hx, hy) = inside.0 in
    let put = set c.costmap (p.y * c.size_x + p.x) cost_value in
    let fit : p.y * c.size_x + p.x < length c.costmap =
      omega (arith, v.cells, index-lt c.size_x c.size_y p.x p.y hx hy) in
    let here : write c.costmap (get_index c p.x p.y) cost_value ≡ some put =
      ap (λ n. write c.costmap n cost_value) (get_index-eq c p.x p.y v hx hy)
      ∙ write-eq-some c.costmap (p.y * c.size_x + p.x) cost_value fit in
    let g =
      set_cells-Sets (record c { costmap = put }) cost_value cells
        (record { cells = length-set c.costmap _ cost_value ∙ v.cells; fits = v.fits }) inside.1 in
    record {
      m = g.m;
      returns = rw (set_cells, here) g.returns;
      valid = g.valid;
      place = λ x y lx ly. elim (g.place x y lx ly) [
        | inl (has, e) ↦ inl (inr has, e)
        | inr (none_there, e) ↦
            elim (written c.size_x c.size_y c.costmap p.x p.y cost_value x y v.cells hx hy lx ly) [
              | inl (ex, ey, now) ↦ inl (inl (rw (ex, ey) refl), e ∙ now)
              | inr (other, old) ↦ inr (
                λ has. elim has [
                  | inl same ↦ other (ap MapLocation.x same) (ap MapLocation.y same)
                  | inr later ↦ none_there later
                ],
                e ∙ old,
              )
            ]
      ];
    }

to_map-AllIn :
    {D : Type 0} (fl : Floats D) (c : Costmap D) (points : List (D × D))
    (corners : List MapLocation)
    → to_map fl c points ≡ some corners
    → AllIn c corners
unfolding to_map
to_map-AllIn fl c [] corners e = subst (AllIn c) (some_inj e) tt
to_map-AllIn fl c ((wx, wy) ∷ points) corners e =
    let (loc, e1, k1) = >>=-eq-some (world_to_map fl c wx wy) _ e in
    let (rest, e2, k2) = >>=-eq-some (to_map fl c points) _ k1 in
    subst (AllIn c) (some_inj k2)
      (world_to_map-lt fl c wx wy loc.0 loc.1 e1, to_map-AllIn fl c points rest e2)

-- `r` is the result true, with `c` where the places between cells of the outline have the cost, and
-- no other has changed.
pub record IsFilled {D : Type 0} (c : Costmap D) (cost_value : ℕ) (outline : List MapLocation)
    (r : Option (Costmap D × Bool)) : Type 0 where
  pub m : List ℕ
  pub returns : r ≡ some (record c { costmap = m }, true)
  pub valid : IsValid (record c { costmap = m })
  pub place :
      (x y : ℕ)
      → x < c.size_x
      → y < c.size_y
      → (IsBetween outline x y × (at c.size_x m x y ≡ cost_value))
        ⊎ (¬ IsBetween outline x y × (at c.size_x m x y ≡ at c.size_x c.costmap x y))

hull_in :
    {D : Type 0} (c : Costmap D) (cells : List MapLocation)
    → ((d : MapLocation) → Has d cells → (d.x < c.size_x) × (d.y < c.size_y))
    → AllIn c cells
hull_in c [] inside = tt
hull_in c (d ∷ cells) inside = (inside d (inl refl), hull_in c cells (λ e has. inside e (inr has)))

-- Three corners or more, all on the map.
set_convex_polygon_cost-IsFilled :
    {D : Type 0} (fl : Floats D) (exact : ExactCounts fl) (c : Costmap D) (v : IsValid c)
    (narrow : (c.size_x ≤ int_mod) × (c.size_y ≤ int_mod)) (points : List (D × D)) (cost_value : ℕ)
    (p q r : MapLocation) (polygon : List MapLocation)
    → to_map fl c points ≡ some (p ∷ q ∷ r ∷ polygon)
    → IsFilled c cost_value
        (edges fl c p p (q ∷ r ∷ polygon))
        (set_convex_polygon_cost fl c points cost_value)
unfolding set_convex_polygon_cost
set_convex_polygon_cost-IsFilled fl exact c v narrow points cost_value p q r polygon e =
    let corners = p ∷ q ∷ r ∷ polygon in
    let outline = edges fl c p p (q ∷ r ∷ polygon) in
    let inside = to_map-AllIn fl c points corners e in
    let h = convex_fill_cells-IsHull fl exact c v narrow p q r polygon inside in
    let outlined : (d : MapLocation) → Has d outline → (d.x < c.size_x) × (d.y < c.size_y) =
      λ d has.
        let f =
          edges-Enclosed fl exact c v narrow corners p p (q ∷ r ∷ polygon) inside.0 inside.0
            inside.1 (inl refl) (inl refl) (λ i has_i. inr has_i) d has in
        (f.column, f.row) in
    let filled : (d : MapLocation) → Has d h.cells → (d.x < c.size_x) × (d.y < c.size_y) = λ d has.
      let b = h.only d has in
      let (in_x, _) = outlined b.low b.has_low in
      let (_, in_y) = outlined b.high b.has_high in
      let same = b.low_x in let low = b.high_y in (omega arith, omega arith) in
    let s = set_cells-Sets c cost_value h.cells v (hull_in c h.cells filled) in
    record {
      m = s.m;
      returns = rw (set_convex_polygon_cost, e, h.returns, s.returns) refl;
      valid = s.valid;
      place = λ x y hx hy. elim (s.place x y hx hy) [
        | inl (has, now) ↦ inl (h.only (record { x = x; y = y }) has, now)
        | inr (none_there, old) ↦ inr (λ b. none_there (h.all x y b), old)
      ];
    }

-- What the method does for corners that are the cells of `corners`, or off the map if that is none.
abbrev pub Outcome :
    {D : Type 0}
    → Floats D
    → Costmap D
    → ℕ
    → Option (List MapLocation)
    → Option (Costmap D × Bool)
    → Type 0
Outcome fl c cost_value none r = r ≡ some (c, false)
Outcome fl c cost_value (some []) r = r ≡ some (c, true)
Outcome fl c cost_value (some (p ∷ [])) r = r ≡ some (c, true)
Outcome fl c cost_value (some (p ∷ q ∷ [])) r = r ≡ some (c, true)
Outcome fl c cost_value (some (p ∷ q ∷ t ∷ polygon)) r =
    IsFilled c cost_value (edges fl c p p (q ∷ t ∷ polygon)) r

module _ {D : Type 0} (fl : Floats D) (exact : ExactCounts fl) (c : Costmap D) (v : IsValid c)
    (narrow : (c.size_x ≤ int_mod) × (c.size_y ≤ int_mod)) (points : List (D × D))
    (cost_value : ℕ) where
  outcome :
      (o : Option (List MapLocation))
      → to_map fl c points ≡ o
      → Outcome fl c cost_value o (set_convex_polygon_cost fl c points cost_value)
  unfolding set_convex_polygon_cost convex_fill_cells set_cells
  outcome none e = rw (set_convex_polygon_cost, e) refl
  outcome (some []) e = rw (set_convex_polygon_cost, e) refl
  outcome (some (p ∷ [])) e = rw (set_convex_polygon_cost, e) refl
  outcome (some (p ∷ q ∷ [])) e = rw (set_convex_polygon_cost, e) refl
  outcome (some (p ∷ q ∷ t ∷ polygon)) e =
      set_convex_polygon_cost-IsFilled fl exact c v narrow points cost_value p q t polygon e

  -- Doubles that count exactly, and a valid map with sides of at most 2 ^ 31 cells: `set_convex_polygon_cost` ends without a fault. With
  -- a corner off the map it returns false and changes nothing; with fewer than three corners it
  -- returns true and changes nothing; otherwise it returns true, every cell that lies in its column
  -- between two cells of the outline gets the cost, and every other cell keeps its own.
  pub set_convex_polygon_cost-Outcome :
      Outcome fl c cost_value (to_map fl c points) (set_convex_polygon_cost fl c points cost_value)
  set_convex_polygon_cost-Outcome = outcome (to_map fl c points) refl
