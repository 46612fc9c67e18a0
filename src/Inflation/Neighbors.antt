-- ===== src/Inflation/Neighbors.antt =====
-- The neighbours that a round queues.
use rosnavigation2copy.Prelude.{
  ℕ, ◌+◌, ◌-◌, ◌*◌, ◌≤◌, ◌<◌, ap, ◌∙◌, some, List, arith, if◌then◌else◌, ltb, u32, sub_u32, u32_mod,
}
use rosnavigation2copy.Platform.{Floats}
use rosnavigation2copy.Grid.Index.{index-lt}
use rosnavigation2copy.Wave.{absolute_difference}
use rosnavigation2copy.Wave.Neighbors.{
  left_index, up_index, right_index, down_index, before_last, width_lt, height_lt,
}
use rosnavigation2copy.Inflation.{CellData, Wavefront, InflationLayer, enqueue, enqueue_neighbors}
use rosnavigation2copy.Inflation.Reach.{Reaches}
use rosnavigation2copy.Inflation.Front.{
  HasCaches, IsFront, GoesOn, GoesOn-bind, GoesOn-if, enqueue-GoesOn,
}

step_left : (x s r : ℕ) → absolute_difference x s ≤ r → absolute_difference (x - 1) s ≤ r + 1
unfolding absolute_difference
step_left x s r h = ground arith

step_right : (x s r : ℕ) → absolute_difference x s ≤ r → absolute_difference (x + 1) s ≤ r + 1
unfolding absolute_difference
step_right x s r h = ground arith

stay : (x s r : ℕ) → absolute_difference x s ≤ r → absolute_difference x s ≤ r + 1
stay x s r h = omega arith

module _ {D : Type 0} (fl : Floats D) (l : InflationLayer D) (P : ℕ → ℕ → Type 0) (w h : ℕ)
    (orig : List ℕ) (caches : HasCaches fl l) where
  module _ (small : h * w < u32_mod) (c : CellData)
      (this : Reaches P w h l.cell_inflation_radius c) where
    near_index : (x y : ℕ) → x < w → y < h → y * w + x < u32_mod
    near_index x y hx hy = omega (arith, index-lt w h x y hx hy)

    left_cell :
        (s : Wavefront D)
        → IsFront fl l P w h orig s
        → GoesOn fl l P w h orig s 3 (
            if ltb 0 c.x
            then enqueue fl l (sub_u32 c.index 1) (c.x - 1) c.y c.src_x c.src_y s
            else some s)
    left_cell s f = GoesOn-if fl l P w h orig caches (ltb 0 c.x) s _ f λ t.
        let some_left : 0 < c.x = ground arith in
        enqueue-GoesOn fl l P w h orig caches (sub_u32 c.index 1) (c.x - 1) c.y c.src_x c.src_y s f
          (omega (arith, this.column)) this.row
          (ap (λ (n : ℕ). sub_u32 n 1) this.place
            ∙ left_index (c.y * w) c.x some_left (near_index c.x c.y this.column this.row))
          this.source (step_left c.x c.src_x _ this.near_x) (stay c.y c.src_y _ this.near_y)

    up_cell :
        (s : Wavefront D)
        → IsFront fl l P w h orig s
        → GoesOn fl l P w h orig s 3 (
            if ltb 0 c.y
            then enqueue fl l (sub_u32 c.index w) c.x (c.y - 1) c.src_x c.src_y s
            else some s)
    up_cell s f = GoesOn-if fl l P w h orig caches (ltb 0 c.y) s _ f λ t.
        let some_up : 0 < c.y = ground arith in
        enqueue-GoesOn fl l P w h orig caches (sub_u32 c.index w) c.x (c.y - 1) c.src_x c.src_y s f
          this.column (omega (arith, this.row))
          (ap (λ (n : ℕ). sub_u32 n w) this.place
            ∙ up_index w c.x c.y some_up (near_index c.x c.y this.column this.row))
          this.source (stay c.x c.src_x _ this.near_x) (step_left c.y c.src_y _ this.near_y)

    right_cell :
        (s : Wavefront D)
        → IsFront fl l P w h orig s
        → GoesOn fl l P w h orig s 3 (
            if ltb c.x (sub_u32 w 1)
            then enqueue fl l (u32 (c.index + 1)) (c.x + 1) c.y c.src_x c.src_y s
            else some s)
    right_cell s f = GoesOn-if fl l P w h orig caches (ltb c.x (sub_u32 w 1)) s _ f λ t.
        let hx = before_last c.x w this.column (width_lt w h c.y this.row small) t in
        enqueue-GoesOn fl l P w h orig caches (u32 (c.index + 1)) (c.x + 1) c.y c.src_x c.src_y s f
          hx this.row
          (ap (λ (n : ℕ). u32 (n + 1)) this.place
            ∙ right_index (c.y * w) c.x (near_index (c.x + 1) c.y hx this.row))
          this.source (step_right c.x c.src_x _ this.near_x) (stay c.y c.src_y _ this.near_y)

    down_cell :
        (s : Wavefront D)
        → IsFront fl l P w h orig s
        → GoesOn fl l P w h orig s 3 (
            if ltb c.y (sub_u32 h 1)
            then enqueue fl l (u32 (c.index + w)) c.x (c.y + 1) c.src_x c.src_y s
            else some s)
    down_cell s f = GoesOn-if fl l P w h orig caches (ltb c.y (sub_u32 h 1)) s _ f λ t.
        let hy = before_last c.y h this.row (height_lt w h c.x this.column small) t in
        enqueue-GoesOn fl l P w h orig caches (u32 (c.index + w)) c.x (c.y + 1) c.src_x c.src_y s f
          this.column hy
          (ap (λ (n : ℕ). u32 (n + w)) this.place
            ∙ down_index w c.x c.y (near_index c.x (c.y + 1) this.column hy))
          this.source (stay c.x c.src_x _ this.near_x) (step_right c.y c.src_y _ this.near_y)

    pub enqueue_neighbors-GoesOn :
        (s : Wavefront D)
        → IsFront fl l P w h orig s
        → GoesOn fl l P w h orig s 12 (enqueue_neighbors fl l w h c s)
    unfolding enqueue_neighbors
    enqueue_neighbors-GoesOn s f = GoesOn-bind fl l P w h orig s 3 9 _ _ (left_cell s f) (λ s1 f1.
        GoesOn-bind fl l P w h orig s1 3 6 _ _ (up_cell s1 f1)
          (λ s2 f2. GoesOn-bind fl l P w h orig s2 3 3 _ _ (right_cell s2 f2) down_cell))
