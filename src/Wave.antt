-- ===== src/Wave.antt =====
-- nav2_dwb_controller/costmap_queue/src/costmap_queue.cpp, limited_costmap_queue.cpp and their
-- header: the wave that visits the cells of a map from a set of sources, over the queue of bins. The
-- sizes are those of the map that the queue refers to; `valid` is the virtual validCellToQueue, and
-- `none` an access out of bounds or an exception.
pub mod Measure
pub mod Steps
pub mod Neighbors
pub mod Ends
pub mod Reset
mod Tests
use rosnavigation2copy.Prelude.{
  ℕ, zero, suc, ◌+◌, ◌*◌, ◌-◌, max, Bool, true, false, Option, none, some, List, [], ◌∷◌,
  if◌then◌else◌, get_elem?, set, replicate, u32, sub_u32, ltb, ◌==◌,
}
use rosnavigation2copy.Prelude.Loops.{◌>>=◌}
use rosnavigation2copy.Prelude.Int.{ℤ, pos, negsuc, pos_part, neg_part, ltb_ℤ, eqb_ℤ, ◌+ℤ◌}
use rosnavigation2copy.Platform.{Floats}
use rosnavigation2copy.Queue.{
  Priority, Queue, value, out_of_range, undefined, enqueue, front, pop, is_empty,
}
use rosnavigation2copy.Queue

pub record CellData (D : Type 0) : Type 0 where
  pub distance : D
  pub index : ℕ
  pub x : ℕ
  pub y : ℕ
  pub src_x : ℕ
  pub src_y : ℕ

unfoldable pub absolute_difference : ℕ → ℕ → ℕ
absolute_difference x y = if ltb y x then x - y else y - x

pub record CostmapQueue (D : Type 0) : Type 0 where
  pub queue : Queue D (CellData D)
  pub size_x : ℕ
  pub size_y : ℕ
  pub seen : List Bool
  pub max_distance : ℤ
  pub manhattan : Bool
  pub cached_distances : List (List D)
  pub cached_max_distance : ℤ

-- f k, f (k + 1), ..., in all `n` values.
abbrev pub tabulate : {A : Type 0} → ℕ → ℕ → (ℕ → A) → List A
tabulate k zero f = []
tabulate k (suc n) f = f k ∷ tabulate (suc k) n f

module _ {D : Type 0} (fl : Floats D) (pr : Priority D) where
  unfoldable pub fill_cache : CostmapQueue D → CostmapQueue D
  fill_cache q =
      let n = pos_part (q.max_distance +ℤ pos 2) in
      let distance =
        λ (i j : ℕ). if q.manhattan then fl.of_nat (i + j) else fl.hypot (pos i) (pos j) in
      record q {
        cached_distances = tabulate 0 n (λ i. tabulate 0 n (distance i));
        cached_max_distance = q.max_distance;
      }

  -- A negative size of the cache is a length_error.
  unfoldable pub compute_cache : CostmapQueue D → Option (CostmapQueue D)
  compute_cache q =
      let d =
        if eqb_ℤ q.max_distance (negsuc 0) then pos (max q.size_x q.size_y) else q.max_distance in
      let q' : CostmapQueue D = record q { max_distance = d } in
      if eqb_ℤ d q.cached_max_distance
      then some q'
      else if ltb_ℤ (d +ℤ pos 2) (pos 0)
      then none
      else some (fill_cache q')

  unfoldable pub reset : CostmapQueue D → Option (CostmapQueue D)
  reset q = do
    q' ← compute_cache (record q { seen = replicate (u32 (q.size_x * q.size_y)) false })
    some (record q' { queue = Queue.reset pr q'.queue })

  unfoldable pub distance_lookup : CostmapQueue D → ℕ → ℕ → ℕ → ℕ → Option D
  distance_lookup q cur_x cur_y src_x src_y = do
    row ← get_elem? q.cached_distances (absolute_difference cur_x src_x)
    get_elem? row (absolute_difference cur_y src_y)

  module _ (valid : CellData D → Bool) where
    unfoldable pub enqueue_cell : ℕ → ℕ → ℕ → ℕ → ℕ → CostmapQueue D → Option (CostmapQueue D)
    enqueue_cell index cur_x cur_y src_x src_y q = do
      seen ← get_elem? q.seen index
      if seen then some q else do
        distance ← distance_lookup q cur_x cur_y src_x src_y
        let cell : CellData D = record {
          distance = distance;
          index = index;
          x = cur_x;
          y = cur_y;
          src_x = src_x;
          src_y = src_y;
        }
        if valid cell
            then some (record q {
              seen = set q.seen index true;
              queue = enqueue pr distance cell q.queue;
            })
            else some q

    -- The public enqueueCell, for a source.
    unfoldable pub enqueue_source : ℕ → ℕ → CostmapQueue D → Option (CostmapQueue D)
    enqueue_source x y q = enqueue_cell (u32 (y * q.size_x + x)) x y x y q

    -- The neighbours of a cell, to the left, above, to the right and below.
    unfoldable pub enqueue_neighbors : CellData D → CostmapQueue D → Option (CostmapQueue D)
    enqueue_neighbors c q = do
      q1 ←
          if ltb 0 c.x
          then enqueue_cell (sub_u32 c.index 1) (c.x - 1) c.y c.src_x c.src_y q
          else some q
      q2 ←
          if ltb 0 c.y
          then enqueue_cell (sub_u32 c.index q.size_x) c.x (c.y - 1) c.src_x c.src_y q1
          else some q1
      q3 ←
          if ltb c.x (sub_u32 q.size_x 1)
          then enqueue_cell (u32 (c.index + 1)) (c.x + 1) c.y c.src_x c.src_y q2
          else some q2
      if ltb c.y (sub_u32 q.size_y 1)
          then enqueue_cell (u32 (c.index + q.size_x)) c.x (c.y + 1) c.src_x c.src_y q3
          else some q3

    unfoldable pub get_next_cell : CostmapQueue D → Option (CellData D × CostmapQueue D)
    get_next_cell q = elim (front pr q.queue) [
      | value current_cell ↦ do
        q' ← enqueue_neighbors current_cell (record q { queue = pop pr q.queue })
        some (current_cell, q')
      | out_of_range ↦ none
      | undefined ↦ none
    ]

    -- while (!queue.isEmpty()) queue.getNextCell(), on fuel: the cells that the wave visits.
    unfoldable pub visit_cells : ℕ → CostmapQueue D → Option (List (CellData D))
    visit_cells zero q = none
    visit_cells (suc fuel) q =
        let next = get_next_cell q >>= λ (r : CellData D × CostmapQueue D).
        (visit_cells fuel r.1 >>= λ (cells : List (CellData D)). some (r.0 ∷ cells)) in
        if is_empty pr q.queue then some [] else next

  -- validCellToQueue of LimitedCostmapQueue.
  unfoldable pub within_limit : ℤ → CellData D → Bool
  within_limit max_distance cell = fl.le cell.distance (fl.of_int max_distance)
