-- ===== src/NavFn.antt =====
-- nav2_navfn_planner/src/navfn.cpp: the arrays of the navigation function and the wave that fills in
-- its potentials, by Dijkstra's method and by A*. `none` is an access out of bounds. A buffer of
-- cells is a list in the order in which it is filled, and the three pointers to buffers are lists.
-- Sizes and cells are ints that are not negative: those below 0 are told apart by `minus`. `float`
-- is a type with the operations of Floats, and so are the double constants in its formulas.
pub mod Propagation
pub mod Calculation
pub mod Safety
pub mod Setup
pub mod Within
pub mod Searches
mod Tests
use rosnavigation2copy.Prelude.{
  ℕ, zero, suc, ◌+◌, ◌-◌, ◌*◌, ◌/◌, ◌%◌, Bool, true, false, not, ◌&&◌, ◌||◌, max, Option, none,
  some, List, [], ◌∷◌, ◌++◌, map, length, get_elem?, set, replicate, ltb, leb, ◌==◌, if◌then◌else◌,
  u8,
}
use rosnavigation2copy.Prelude.Loops.{◌>>=◌}
use rosnavigation2copy.Prelude.Int.{pos, pos_part, ◌-ℤ◌, sub_ℕ}
use rosnavigation2copy.Platform.{Floats}

abbrev pub cost_unknown_ros : ℕ
cost_unknown_ros = 255

abbrev pub cost_obs : ℕ
cost_obs = 254

abbrev pub cost_obs_ros : ℕ
cost_obs_ros = 253

abbrev pub cost_neutral : ℕ
cost_neutral = 50

abbrev pub priority_buf_size : ℕ
priority_buf_size = 10000

-- The literals of the code: 1.0e10, 0.8, 0.707106781, 0.2301, 0.5307 and 0.7040.
pub record Constants (F : Type 0) : Type 0 where
  pub pot_high : F
  pub cost_factor : F
  pub inv_sqrt2 : F
  pub quad2 : F
  pub quad1 : F
  pub quad0 : F

pub record NavFn (F : Type 0) : Type 0 where
  pub nx : ℕ
  pub ny : ℕ
  pub costarr : List ℕ
  pub potarr : List F
  pub pending : List Bool
  pub cur_p : List ℕ
  pub next_p : List ℕ
  pub over_p : List ℕ
  pub cur_t : F
  pub pri_inc : F
  pub goal : ℕ × ℕ
  pub start : ℕ × ℕ
  pub nobs : ℕ
  pub last_path_cost : F

-- The index n - k, if it is not below 0.
unfoldable pub minus : ℕ → ℕ → Option ℕ
minus n k = if leb k n then some (n - k) else none

-- push_cur, push_next and push_over, on the buffer that they fill, with the pending flags.
unfoldable pub push : ℕ → List ℕ → ℕ → List ℕ × List Bool → Option (List ℕ × List Bool)
push ns costarr n (buf, pending) = if not (ltb n ns) then some (buf, pending) else do
  waits ← get_elem? pending n
  cost ← get_elem? costarr n
  if not waits && ltb cost cost_obs && ltb (length buf) priority_buf_size
      then some (buf ++ (n ∷ []), set pending n true)
      else some (buf, pending)

-- The pending flags of a buffer's cells are reset.
unfoldable pub reset_pending : List ℕ → List Bool → Option (List Bool)
reset_pending [] pending = some pending
reset_pending (n ∷ buf) pending = do
  _ ← get_elem? pending n
  reset_pending buf (set pending n false)

-- `count` cells from `i` on, `step` apart, are made obstacles.
unfoldable pub outline : ℕ → ℕ → ℕ → List ℕ → Option (List ℕ)
outline zero i step costarr = some costarr
outline (suc count) i step costarr = do
  _ ← get_elem? costarr i
  outline count (i + step) step (set costarr i cost_obs)

-- The four sides of the cost array.
unfoldable pub outline_map : ℕ → ℕ → List ℕ → Option (List ℕ)
outline_map nx ny costarr = do
  top ← outline nx 0 1 costarr
  bottom ← outline nx ((ny - 1) * nx) 1 top
  left ← outline ny 0 nx bottom
  outline ny (nx - 1) nx left

unfoldable pub count_obstacles : List ℕ → ℕ
count_obstacles [] = 0
count_obstacles (c ∷ cs) = (if leb cost_obs c then 1 else 0) + count_obstacles cs

module _ {F : Type 0} (fl : Floats F) (k : Constants F) where
  open fl use {add, sub, mul, div, lt, le, of_nat}

  -- Where v < COST_OBS_ROS, in setCostmap.
  unfoldable pub scaled : ℕ → ℕ
  scaled v =
      let w = pos_part (fl.to_int (add (of_nat cost_neutral) (mul k.cost_factor (of_nat v)))) in
      if leb cost_obs w then cost_obs - 1 else w

  -- One cell of setCostmap for a ROS map.
  unfoldable pub cost_of : Bool → ℕ → ℕ
  cost_of allow_unknown v =
      if ltb v cost_obs_ros
      then scaled v
      else if v == cost_unknown_ros && allow_unknown
      then cost_obs - 1
      else cost_obs

  unfoldable pub set_costmap : Bool → List ℕ → NavFn F → NavFn F
  set_costmap allow_unknown cmap nav = record nav { costarr = map (cost_of allow_unknown) cmap }

  -- The lower of two, as the code picks it.
  abbrev lower : F → F → F
  lower a b = if lt a b then a else b

  -- The potential of a cell of cost `hf`, from the least of its neighbours in x and in y.
  unfoldable pub potential : F → F → F → F
  potential hf tc ta =
      let diff = sub tc ta in
      let dc = if lt diff (of_nat 0) then sub (of_nat 0) diff else diff in
      let base = if lt diff (of_nat 0) then tc else ta in
      let d = div dc hf in
      let v = add (add (mul (mul (sub (of_nat 0) k.quad2) d) d) (mul k.quad1 d)) k.quad0 in
      if le hf dc then add base hf else add base (mul hf v)

  unfoldable pub push_if : Bool → ℕ → List ℕ → ℕ → List ℕ × List Bool → Option (List ℕ × List Bool)
  push_if test ns costarr n b = if test then push ns costarr n b else some b

  -- The four neighbours that a new potential `pot` lowers go to a buffer.
  unfoldable pub spread :
      F
      → ℕ
      → ℕ × ℕ × ℕ × ℕ
      → F × F × F × F
      → NavFn F
      → List ℕ × List Bool
      → Option (List ℕ × List Bool)
  spread pot ns (li, ri, ui, di) (l, r, u, d) nav b = do
    lc ← get_elem? nav.costarr li
    rc ← get_elem? nav.costarr ri
    uc ← get_elem? nav.costarr ui
    dc ← get_elem? nav.costarr di
    let above = λ (p : F) (c : ℕ). lt (add pot (mul k.inv_sqrt2 (of_nat c))) p
    b1 ← push_if (above l lc) ns nav.costarr li b
    b2 ← push_if (above r rc) ns nav.costarr ri b1
    b3 ← push_if (above u uc) ns nav.costarr ui b2
    push_if (above d dc) ns nav.costarr di b3

  -- The neighbours go to the next buffer or to the overflow buffer, by priority.
  unfoldable pub push_neighbors : F → ℕ × ℕ × ℕ × ℕ → F × F × F × F → NavFn F → Option (NavFn F)
  push_neighbors key at pots nav =
      let low =
        spread key (nav.nx * nav.ny) at pots nav (nav.next_p, nav.pending)
        >>= λ (b : List ℕ × List Bool). some (record nav { next_p = b.0; pending = b.1 }) in
      let high =
        spread key (nav.nx * nav.ny) at pots nav (nav.over_p, nav.pending)
        >>= λ (b : List ℕ × List Bool). some (record nav { over_p = b.0; pending = b.1 }) in
      if lt key nav.cur_t then low else high

  -- updateCell and updateCellAstar: `rank` makes a priority of a new potential.
  unfoldable pub update_cell : (ℕ → F → F) → ℕ → NavFn F → Option (NavFn F)
  update_cell rank n nav = do
    li ← minus n 1
    ui ← minus n nav.nx
    let ri = n + 1
    let di = n + nav.nx
    l ← get_elem? nav.potarr li
    r ← get_elem? nav.potarr ri
    u ← get_elem? nav.potarr ui
    d ← get_elem? nav.potarr di
    cost ← get_elem? nav.costarr n
    old ← get_elem? nav.potarr n
    let pot = potential (of_nat cost) (lower l r) (lower u d)
    if ltb cost cost_obs && lt pot old
        then push_neighbors (rank n pot) (li, ri, ui, di) (l, r, u, d)
            (record nav { potarr = set nav.potarr n pot })
        else some nav

  unfoldable pub update_cells : (ℕ → F → F) → List ℕ → NavFn F → Option (NavFn F)
  update_cells rank [] nav = some nav
  update_cells rank (n ∷ cells) nav =
      update_cell rank n nav >>= λ (nav' : NavFn F). update_cells rank cells nav'
