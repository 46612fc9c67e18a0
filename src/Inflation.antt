-- ===== src/Inflation.antt =====
-- nav2_costmap_2d/plugins/inflation_layer.cpp and its header: the wave of costs around the lethal
-- cells of the master map, and the caches and bounds that it needs. `ceil` and `exp` are those of
-- <cmath>. Parameters come in as arguments, and the lock is left out.
pub mod Reach
pub mod Front
pub mod Neighbors
pub mod Visits
pub mod Rounds
pub mod Obstacles
pub mod Caches
pub mod Updates
mod Tests
use rosnavigation2copy.Prelude.{
  ℕ, zero, suc, ◌+◌, ◌-◌, ◌*◌, min, max, Bool, true, false, ◌&&◌, ◌||◌, not, Option, none, some,
  List, [], ◌∷◌, ◌++◌, map, length, set, replicate, ltb, leb, ◌==◌, u8, u32, sub_u32, if◌then◌else◌,
}
use rosnavigation2copy.Prelude.Int.{ℤ, pos, negsuc, pos_part, to_signed}
use rosnavigation2copy.Prelude.Loops.{for_range, ◌>>=◌}
use rosnavigation2copy.Platform.{Floats}
use rosnavigation2copy.Grid.{read, write}
use rosnavigation2copy.Costmap.{Costmap, get_index, to_unsigned}
use rosnavigation2copy.Layer.{
  Bounds, fmin, fmax, no_information, lethal_obstacle, inscribed_inflated_obstacle, free_space,
}
use rosnavigation2copy.Wave.{tabulate, absolute_difference}

pub record CellData : Type 0 where
  pub index : ℕ
  pub x : ℕ
  pub y : ℕ
  pub src_x : ℕ
  pub src_y : ℕ

pub record InflationLayer (D : Type 0) : Type 0 where
  pub enabled : Bool
  pub inflation_radius : D
  pub inscribed_radius : D
  pub weight : D
  pub inflate_unknown : Bool
  pub cell_inflation_radius : ℕ
  pub cached_cell_inflation_radius : ℕ
  pub cached_costs : List (List ℕ)
  pub cached_distances : List (List D)
  pub resolution : D
  pub seen : List Bool
  pub last : Bounds D
  pub need_reinflation : Bool

-- inflation_cells_ and the place of the loops in it, seen_ and the master map: `key` is the distance
-- of the bin, `cells` its cells from `i` on, and `later` the bins after it. The loops do not come
-- back to a bin before the iterator.
pub record Wavefront (D : Type 0) : Type 0 where
  pub key : D
  pub cells : List CellData
  pub later : List (D × List CellData)
  pub seen : List Bool
  pub master : List ℕ

unfoldable pub lookup : {A : Type 0} → List (List A) → ℕ → ℕ → ℕ → ℕ → Option A
lookup table mx my src_x src_y = do
  row ← read table (absolute_difference mx src_x)
  read row (absolute_difference my src_y)

-- The cost of a cell where the wave arrives.
unfoldable pub inflate_cell : Bool → ℕ → ℕ → ℕ
inflate_cell inflate_unknown cost old_cost =
    if (old_cost == no_information)
      && (if inflate_unknown then ltb free_space cost else leb inscribed_inflated_obstacle cost)
    then cost
    else max old_cost cost

-- An array at an int, which is out of bounds below 0.
abbrev pub read_at_int : List ℕ → ℤ → Option ℕ
read_at_int m (pos n) = read m n
read_at_int m (negsuc n) = none

-- obs_bin, a row of the window at a time.
unfoldable pub find_obstacles : {D : Type 0} → Costmap D → ℕ → ℕ → ℕ → ℕ → Option (List CellData)
find_obstacles master_grid min_i min_j max_i max_j =
    for_range (max_j - min_j) min_j
      (λ j. for_range (max_i - min_i) min_i (λ i obs_bin. do
        let index = to_signed (get_index master_grid i j)
        cost ← read_at_int master_grid.costmap index
        if cost == lethal_obstacle
            then some (
                obs_bin
                ++ (record { index = to_unsigned index; x = i; y = j; src_x = i; src_y = j } ∷ []))
            else some obs_bin))
      []

module _ {D : Type 0} (fl : Floats D) where
  open fl use {add, sub, mul, div, lt, le, of_nat, of_int, hypot, to_u32}

  -- inflation_cells_[distance].push_back(cell)
  unfoldable pub push : D → CellData → List (D × List CellData) → List (D × List CellData)
  push distance cell [] = (distance, cell ∷ []) ∷ []
  push distance cell ((key, cells) ∷ bins) =
      if lt distance key
      then (distance, cell ∷ []) ∷ (key, cells) ∷ bins
      else if lt key distance
      then (key, cells) ∷ push distance cell bins
      else (key, cells ++ (cell ∷ [])) ∷ bins

  -- The same, from the place of the loops.
  unfoldable pub push_ahead : D → CellData → Wavefront D → Wavefront D
  push_ahead distance cell s =
      if lt distance s.key
      then s
      else if lt s.key distance
      then record s { later = push distance cell s.later }
      else record s { cells = s.cells ++ (cell ∷ []) }

  module _ (l : InflationLayer D) where
    unfoldable pub enqueue : ℕ → ℕ → ℕ → ℕ → ℕ → Wavefront D → Option (Wavefront D)
    enqueue index mx my src_x src_y s = do
      seen ← read s.seen index
      if seen then some s else do
        distance ← lookup l.cached_distances mx my src_x src_y
        if lt (of_nat l.cell_inflation_radius) distance
            then some s
            else some (
                push_ahead distance
                  (record { index = index; x = mx; y = my; src_x = src_x; src_y = src_y }) s)

    unfoldable pub enqueue_neighbors : ℕ → ℕ → CellData → Wavefront D → Option (Wavefront D)
    enqueue_neighbors size_x size_y c s = do
      s1 ← if ltb 0 c.x then enqueue (sub_u32 c.index 1) (c.x - 1) c.y c.src_x c.src_y s else some s
      s2 ←
          if ltb 0 c.y
          then enqueue (sub_u32 c.index size_x) c.x (c.y - 1) c.src_x c.src_y s1
          else some s1
      s3 ←
          if ltb c.x (sub_u32 size_x 1)
          then enqueue (u32 (c.index + 1)) (c.x + 1) c.y c.src_x c.src_y s2
          else some s2
      if ltb c.y (sub_u32 size_y 1)
          then enqueue (u32 (c.index + size_x)) c.x (c.y + 1) c.src_x c.src_y s3
          else some s3

    -- The body of the inner loop.
    unfoldable pub process : ℕ → ℕ → CellData → Wavefront D → Option (Wavefront D)
    process size_x size_y c s = do
      seen ← read s.seen c.index
      if seen then some s else do
        cost ← lookup l.cached_costs c.x c.y c.src_x c.src_y
        old_cost ← read s.master c.index
        master ← write s.master c.index (inflate_cell l.inflate_unknown cost old_cost)
        enqueue_neighbors size_x size_y c
            (record s { seen = set s.seen c.index true; master = master })

    -- The loops over the bins and their cells, on fuel. The result is the master map.
    unfoldable pub inflate : ℕ → ℕ → ℕ → Wavefront D → Option (List ℕ)
    inflate zero size_x size_y s = none
    inflate (suc fuel) size_x size_y s = elim s.cells [
      | [] ↦ elim s.later [
        | [] ↦ some s.master
        | (key, cells) ∷ bins ↦
            inflate fuel size_x size_y (record s { key = key; cells = cells; later = bins })
      ]
      | c ∷ cells ↦
          process size_x size_y c (record s { cells = cells }) >>= inflate fuel size_x size_y
    ]

    -- updateCosts of an enabled layer, in the window enlarged by the radius.
    unfoldable pub inflate_window : Costmap D → ℕ → ℕ → ℕ → ℕ → Option (Costmap D)
    inflate_window master_grid min_i min_j max_i max_j = do
      let area = u32 (master_grid.size_x * master_grid.size_y)
      let seen = if length l.seen == area then l.seen else replicate area false
      obs_bin ← find_obstacles master_grid min_i min_j max_i max_j
      m ← inflate (suc (14 * area)) master_grid.size_x master_grid.size_y (record {
        key = of_nat 0;
        cells = obs_bin;
        later = [];
        seen = map (λ _. false) seen;
        master = master_grid.costmap;
      })
      some (record master_grid { costmap = m })

    unfoldable pub update_costs : Costmap D → ℕ → ℕ → ℕ → ℕ → Option (Costmap D)
    update_costs master_grid min_i min_j max_i max_j =
        let r = l.cell_inflation_radius in
        if not l.enabled || (r == 0)
        then some master_grid
        else inflate_window master_grid (min_i - r) (min_j - r)
            (min (pos_part (to_signed master_grid.size_x)) (max_i + r))
            (min (pos_part (to_signed master_grid.size_y)) (max_j + r))

  -- `far` is the greatest float, `minus_far` the least.
  unfoldable pub update_bounds : D → D → InflationLayer D → Bounds D → InflationLayer D × Bounds D
  update_bounds far minus_far l b =
      let kept = record l { last = b; need_reinflation = false } in
      if l.need_reinflation
      then (kept, record { min_x = minus_far; min_y = minus_far; max_x = far; max_y = far })
      else (
        kept,
        record {
          min_x = sub (fmin fl l.last.min_x b.min_x) l.inflation_radius;
          min_y = sub (fmin fl l.last.min_y b.min_y) l.inflation_radius;
          max_x = add (fmax fl l.last.max_x b.max_x) l.inflation_radius;
          max_y = add (fmax fl l.last.max_y b.max_y) l.inflation_radius;
        },
      )

  module _ (ceil exp : D → D) where
    -- cellDistance of the master map.
    unfoldable pub cell_distance : Costmap D → D → ℕ
    cell_distance master world_dist =
        to_u32 (fmax fl (of_nat 0) (ceil (div world_dist master.resolution)))

    unfoldable pub compute_cost : InflationLayer D → D → ℕ
    compute_cost l distance =
        let euclidean_distance = mul distance l.resolution in
        let factor =
          exp
            (mul (mul (of_int (negsuc 0)) l.weight) (sub euclidean_distance l.inscribed_radius)) in
        if le distance (of_nat 0) && le (of_nat 0) distance
        then lethal_obstacle
        else if le euclidean_distance l.inscribed_radius
        then inscribed_inflated_obstacle
        else u8 (to_u32 (mul (of_nat (inscribed_inflated_obstacle - 1)) factor))

    -- The new arrays of distances, if the radius has changed.
    unfoldable pub cache_distances : InflationLayer D → InflationLayer D
    cache_distances l =
        let r = l.cell_inflation_radius in
        if r == l.cached_cell_inflation_radius then l else record l {
          cached_distances =
              tabulate 0 (r + 2) (λ i. tabulate 0 (r + 2) (λ j. hypot (pos i) (pos j)));
          cached_cell_inflation_radius = r;
        }

    unfoldable pub compute_caches : InflationLayer D → InflationLayer D
    compute_caches l =
        if l.cell_inflation_radius == 0
        then l
        else (let l' = cache_distances l in
            record l' { cached_costs = map (map (compute_cost l')) l'.cached_distances })

    unfoldable pub match_size : Costmap D → InflationLayer D → InflationLayer D
    match_size costmap l =
        let l' = compute_caches (record l {
          resolution = costmap.resolution;
          cell_inflation_radius = cell_distance costmap l.inflation_radius;
        }) in
        record l' { seen = replicate (u32 (costmap.size_x * costmap.size_y)) false }

    unfoldable pub on_footprint_changed : Costmap D → D → InflationLayer D → InflationLayer D
    on_footprint_changed costmap inscribed_radius l =
        let l' = compute_caches (record l {
          inscribed_radius = inscribed_radius;
          cell_inflation_radius = cell_distance costmap l.inflation_radius;
        }) in
        record l' { need_reinflation = true }

    unfoldable pub set_inflation_parameters :
        Costmap D → D → D → InflationLayer D → InflationLayer D
    set_inflation_parameters costmap inflation_radius cost_scaling_factor l =
        if not (le l.weight cost_scaling_factor && le cost_scaling_factor l.weight)
          || not (le l.inflation_radius inflation_radius && le inflation_radius l.inflation_radius)
        then compute_caches (record l {
          inflation_radius = inflation_radius;
          cell_inflation_radius = cell_distance costmap inflation_radius;
          weight = cost_scaling_factor;
          need_reinflation = true;
        })
        else l

    unfoldable pub reconfigure :
        Costmap D → D → D → Bool → Bool → InflationLayer D → InflationLayer D
    reconfigure costmap inflation_radius cost_scaling_factor inflate_unknown enabled l =
        let l' = set_inflation_parameters costmap inflation_radius cost_scaling_factor l in
        if (if enabled then not l'.enabled else l'.enabled)
          || (if inflate_unknown then not l'.inflate_unknown else l'.inflate_unknown)
        then record l' {
          enabled = enabled;
          inflate_unknown = inflate_unknown;
          need_reinflation = true;
        }
        else l'
