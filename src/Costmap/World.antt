-- ===== src/Costmap/World.antt =====
-- Cells, indices and world coordinates of a Costmap2D, and the window of copyCostmapWindow.
use rosnavigation2copy.Prelude.{
  ℕ, ◌+◌, ◌-◌, ◌*◌, ◌≤◌, ◌<◌, ◌≡◌, ◌∙◌, refl, ap, some, none, inl, inr, ◌⊎◌, [],
}
use rosnavigation2copy.Prelude.{List, ◌&&◌, ◌==◌, if◌then◌else◌, arith, u32-eq_of_lt}
use rosnavigation2copy.Prelude.{length, get_or, set, length-set, Option-cases, true, false}
use rosnavigation2copy.Platform.{Memory, Floats}
use rosnavigation2copy.Grid.{at}
use rosnavigation2copy.Grid.Index.{
  index-lt, index-div, row-le, read-eq-some, write-eq-some, get_or-set,
}
use rosnavigation2copy.Costmap.{
  Costmap, IsValid, get_index, index_to_cells, get_cost, set_cost, delete_maps,
}
use rosnavigation2copy.Costmap.{world_to_map, copy_costmap_window}
use rosnavigation2copy.Costmap.Copy.{IsWindow, copy_window-IsWindow}

module _ {D : Type 0} (c : Costmap D) (x y : ℕ) (v : IsValid c) (hx : x < c.size_x)
    (hy : y < c.size_y) where
  pub get_index-eq : get_index c x y ≡ y * c.size_x + x
  unfolding get_index
  get_index-eq = u32-eq_of_lt _ (omega (arith, v.fits, index-lt c.size_x c.size_y x y hx hy))

  -- The cells of a valid map and their indices: `index_to_cells` inverts `get_index`.
  pub index_to_cells-get_index : index_to_cells c (get_index c x y) ≡ (x, y)
  unfolding index_to_cells
  index_to_cells-get_index =
      rw (get_index-eq, index-div c.size_x x y hx)
        (ground (arith, v.fits, index-lt c.size_x c.size_y x y hx hy))

  -- Inside a valid map a read never faults.
  pub get_cost-eq : get_cost c x y ≡ some (at c.size_x c.costmap x y)
  unfolding get_cost at
  get_cost-eq =
      rw get_index-eq
        (read-eq-some c.costmap _ 0 (omega (arith, v.cells, index-lt c.size_x c.size_y x y hx hy)))

index_inj : (w x y x' y' : ℕ) → x < w → x' < w → (y * w + x == y' * w + x') ≡ (x == x' && y == y')
index_inj w x y x' y' hx hx' = ground (arith, row-le w y y', row-le w y' y)

pub at-set :
    (w : ℕ) (m : List ℕ) (x y x' y' v : ℕ)
    → y * w + x < length m
    → x < w
    → x' < w
    → at w (set m (y * w + x) v) x' y' ≡ (if x == x' && y == y' then v else at w m x' y')
unfolding at
at-set w m x y x' y' v here hx hx' =
    get_or-set m (y * w + x) (y' * w + x') v 0 here
    ∙ ap (λ b. if b then v else get_or m (y' * w + x') 0) (index_inj w x y x' y' hx hx')

-- Inside a valid map a write never faults; a later read of that cell gives the cost written, and a
-- read of any other cell what it gave before.
get_cost-set_cost :
    {D : Type 0} (c : Costmap D) (x y cost : ℕ)
    → IsValid c
    → x < c.size_x
    → y < c.size_y
    → (c' : Costmap D) × (set_cost c x y cost ≡ some c')
      × IsValid c'
      × ((x' y' : ℕ)
          → x' < c.size_x
          → y' < c.size_y
          → get_cost c' x' y' ≡ (if x == x' && y == y' then some cost else get_cost c x' y'))
unfolding set_cost
get_cost-set_cost c x y cost v hx hy =
    let i = y * c.size_x + x in
    let m = set c.costmap i cost in
    let c' = record c { costmap = m } in
    let here : i < length c.costmap =
      omega (arith, v.cells, index-lt c.size_x c.size_y x y hx hy) in
    let v' : IsValid c' = record { cells = length-set c.costmap i cost ∙ v.cells; fits = v.fits } in
    (
      c',
      rw (get_index-eq c x y v hx hy, write-eq-some c.costmap i cost here),
      v',
      λ x' y' hx' hy'. ground (
        arith,
        get_cost-eq c' x' y' v' hx' hy',
        get_cost-eq c x' y' v hx' hy',
        at-set c.size_x c.costmap x y x' y' cost here hx hx',
      ),
    )

module _ {D : Type 0} (fl : Floats D) where
  -- Where worldToMap returns true, the cell is on the map.
  pub world_to_map-lt :
      (c : Costmap D) (wx wy : D) (x y : ℕ)
      → world_to_map fl c wx wy ≡ some (x, y)
      → (x < c.size_x) × (y < c.size_y)
  unfolding world_to_map
  world_to_map-lt c wx wy x y h = ground arith

  -- The window of a valid map whose two corners worldToMap accepts, the second at or beyond the
  -- first: the copy into another map returns true and shows the window.
  pub copy_costmap_window-IsWindow :
      (mem : Memory) (c map : Costmap D) (wx wy wide tall : D) (lx ly ux uy : ℕ)
      → IsValid map
      → world_to_map fl map wx wy ≡ some (lx, ly)
      → world_to_map fl map (fl.add wx wide) (fl.add wy tall) ≡ some (ux, uy)
      → lx ≤ ux
      → ly ≤ uy
      → (c' : Costmap D) × (copy_costmap_window fl false mem c map wx wy wide tall
          ≡ some (c', true))
        × (c'.size_x ≡ ux - lx)
        × (c'.size_y ≡ uy - ly)
        × IsWindow map lx ly c'
  unfolding copy_costmap_window
  copy_costmap_window-IsWindow mem c map wx wy wide tall lx ly ux uy v low high le_x le_y =
      let (hx, hy) = world_to_map-lt map _ _ ux uy high in
      let (c', e, sx, sy, r) = copy_window-IsWindow mem c map wx wy lx ly ux uy v le_x le_y hx hy in
      (c', rw (copy_costmap_window, low, high) e, sx, sy, r)

  -- A window of another map with a corner that worldToMap refuses: the copy returns false, and the old costs are
  -- gone while the old size stays, so that a read of any cell then faults.
  pub copy_costmap_window_refused :
      (mem : Memory) (c map : Costmap D) (wx wy wide tall : D)
      → (world_to_map fl map wx wy ≡ none)
        ⊎ (world_to_map fl map (fl.add wx wide) (fl.add wy tall) ≡ none)
      → (copy_costmap_window fl false mem c map wx wy wide tall
          ≡ some (record c { costmap = [] }, false))
        × ((x y : ℕ) → get_cost (record c { costmap = [] }) x y ≡ none)
  unfolding copy_costmap_window delete_maps get_cost
  copy_costmap_window_refused mem c map wx wy wide tall refused = (deleted refused, λ x y. refl)
    where
      deleted :
          (world_to_map fl map wx wy ≡ none)
            ⊎ (world_to_map fl map (fl.add wx wide) (fl.add wy tall) ≡ none)
          → copy_costmap_window fl false mem c map wx wy wide tall
            ≡ some (record c { costmap = [] }, false)
      deleted (inl low) = rw (low, copy_costmap_window)
      deleted (inr high) = elim (Option-cases (world_to_map fl map wx wy)) [
        | inl low ↦ rw (low, copy_costmap_window)
        | inr (_, low) ↦ rw (low, high, copy_costmap_window)
      ]
