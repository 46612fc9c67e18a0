-- ===== src/Layer/Compose.antt =====
-- Two layers in a row: updateWithMax does not depend on their order.
use rosnavigation2copy.Prelude.{ℕ, ◌<◌, ◌≡◌, ◌∙◌, sym, ap, some}
use rosnavigation2copy.Prelude.{List, Bool, true, false, if◌then◌else◌, arith}
use rosnavigation2copy.Prelude.Loops.{◌>>=◌}
use rosnavigation2copy.Grid.{at}
use rosnavigation2copy.Grid.Index.{eq_of_at}
use rosnavigation2copy.Grid.Window.{in_window}
use rosnavigation2copy.Costmap.{Costmap, IsValid}
use rosnavigation2copy.Layer.{Layer, update_with_max}
use rosnavigation2copy.Layer.Cells.{greater}
use rosnavigation2copy.Layer.Updates.{Updates, layer_cost, update_with_max-Repaints}

greater_swap : (v a b : ℕ) → greater (greater v a) b ≡ greater (greater v b) a
greater_swap v a b = ground arith

twice_cell :
    (inside : Bool) (a b v0 v1 v2 : ℕ)
    → v2 ≡ (if inside then greater v1 b else v1)
    → v1 ≡ (if inside then greater v0 a else v0)
    → v2 ≡ (if inside then greater (greater v0 a) b else v0)
twice_cell true a b v0 v1 v2 e e' = e ∙ ap (λ (v : ℕ). greater v b) e'
twice_cell false a b v0 v1 v2 e e' = e ∙ e'

module _ {D : Type 0} (min_i min_j max_i max_j : ℕ) where
  after :
      (l : Layer D) (master : Costmap D) (m : List ℕ)
      → Updates l master min_i min_j max_i max_j
      → IsValid (record master { costmap = m })
      → Updates l (record master { costmap = m }) min_i min_j max_i max_j
  after l master m u v = record {
    enabled = u.enabled;
    size = u.size;
    valid = v;
    ordered = u.ordered;
    inside = u.inside;
  }

  -- The map after `a` and then `b`, with its cells.
  both :
      (a b : Layer D) (master : Costmap D)
      → Updates a master min_i min_j max_i max_j
      → Updates b master min_i min_j max_i max_j
      → (m : List ℕ) × ((update_with_max a master min_i min_j max_i max_j >>= λ m'.
            update_with_max b m' min_i min_j max_i max_j)
          ≡ some (record master { costmap = m }))
        × IsValid (record master { costmap = m })
        × ((x y : ℕ)
            → x < master.size_x
            → y < master.size_y
            → at master.size_x m x y ≡ (
                if in_window min_i min_j max_i max_j x y
                then greater
                    (greater (at master.size_x master.costmap x y) (layer_cost a master x y))
                    (layer_cost b master x y)
                else at master.size_x master.costmap x y))
  both a b master ua ub =
      let ra = update_with_max-Repaints a master min_i min_j max_i max_j ua in
      let rb =
        update_with_max-Repaints b (record master { costmap = ra.m }) min_i min_j max_i max_j
          (after b master ra.m ub ra.valid) in
      (
        rb.m,
        ap (λ o. o >>= λ m'. update_with_max b m' min_i min_j max_i max_j) ra.returns ∙ rb.returns,
        rb.valid,
        λ x y hx hy.
            twice_cell (in_window min_i min_j max_i max_j x y) (layer_cost a master x y)
              (layer_cost b master x y) (at master.size_x master.costmap x y)
              (at master.size_x ra.m x y) (at master.size_x rb.m x y) (rb.cells x y hx hy)
              (ra.cells x y hx hy),
      )

  -- Two enabled layers of the master's size: updating with either one first gives the same map.
  update_with_max_comm :
      (a b : Layer D) (master : Costmap D)
      → Updates a master min_i min_j max_i max_j
      → Updates b master min_i min_j max_i max_j
      → (update_with_max a master min_i min_j max_i max_j >>= λ m.
          update_with_max b m min_i min_j max_i max_j)
        ≡ (update_with_max b master min_i min_j max_i max_j >>= λ m.
            update_with_max a m min_i min_j max_i max_j)
  update_with_max_comm a b master ua ub =
      let (m, e, v, cells) = both a b master ua ub in
      let (m', e', v', cells') = both b a master ub ua in
      let same : m ≡ m' = eq_of_at master.size_x master.size_y m m' v.cells v'.cells (λ x y hx hy.
        cells x y hx hy
        ∙ ap
            (λ (c : ℕ).
              if in_window min_i min_j max_i max_j x y
              then c
              else at master.size_x master.costmap x y)
            (greater_swap (at master.size_x master.costmap x y) (layer_cost a master x y)
              (layer_cost b master x y))
        ∙ sym (cells' x y hx hy)) in
      e ∙ ap (λ m. some (record master { costmap = m })) same ∙ sym e'
