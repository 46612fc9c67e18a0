-- ===== src/Wave/Neighbors.antt =====
-- The neighbours of a cell of the map are enqueued at their own indices.
use rosnavigation2copy.Prelude.{
  ℕ, zero, suc, ◌+◌, ◌-◌, ◌*◌, ◌<◌, ◌≡◌, refl, sym, ap, ◌∙◌, Bool, true, false, Option, some, arith,
  u32, sub_u32, u32_mod, if◌then◌else◌, ltb,
}
use rosnavigation2copy.Prelude.Loops.{◌>>=◌}
use rosnavigation2copy.Platform.{Floats}
use rosnavigation2copy.Grid.Index.{index-lt}
use rosnavigation2copy.Queue.{Priority}
use rosnavigation2copy.Wave.{CellData, CostmapQueue, enqueue_cell, enqueue_neighbors}
use rosnavigation2copy.Wave.Steps.{IsCell, IsWave, GoesOn, GoesOn-refl, enqueue_cell-GoesOn}

pub left_index : (n x : ℕ) → 0 < x → n + x < u32_mod → sub_u32 (n + x) 1 ≡ n + (x - 1)
left_index n x h k = omega arith

pub up_index : (w x y : ℕ) → 0 < y → y * w + x < u32_mod → sub_u32 (y * w + x) w ≡ (y - 1) * w + x
up_index w x zero h k = elim h [ ]
up_index w x (suc y) h k =
    let one : suc y - 1 ≡ y = omega arith in
    let row : suc y * w ≡ y * w + w = omega arith in rw one (omega arith)

pub right_index : (n x : ℕ) → n + (x + 1) < u32_mod → u32 (n + x + 1) ≡ n + (x + 1)
right_index n x k = omega arith

pub down_index : (w x y : ℕ) → (y + 1) * w + x < u32_mod → u32 (y * w + x + w) ≡ (y + 1) * w + x
down_index w x y k = let row : (y + 1) * w ≡ y * w + w = omega arith in omega arith

pub before_last : (x w : ℕ) → x < w → w < u32_mod → ltb x (sub_u32 w 1) ≡ true → x + 1 < w
before_last x w h k t = let l : sub_u32 w 1 ≡ w - 1 = omega arith in ground arith

pub width_lt : (w h y : ℕ) → y < h → h * w < u32_mod → w < u32_mod
width_lt w zero y h k = elim h [ ]
width_lt w (suc n) y h k = let e : suc n * w ≡ n * w + w = omega arith in omega arith

pub height_lt : (w h x : ℕ) → x < w → h * w < u32_mod → h < u32_mod
height_lt zero h x l k = elim l [ ]
height_lt (suc n) h x l k = let e : h * suc n ≡ h * n + h = omega arith in omega arith

module _ {D : Type 0} (fl : Floats D) (pr : Priority D) (valid : CellData D → Bool) where
  GoesOn-bind :
      (q : CostmapQueue D) (o : Option (CostmapQueue D))
      (g : CostmapQueue D → Option (CostmapQueue D))
      → GoesOn fl pr valid q o
      → ((q' : CostmapQueue D)
          → IsWave fl pr valid q'
          → q'.size_x ≡ q.size_x
          → q'.size_y ≡ q.size_y
          → GoesOn fl pr valid q' (g q'))
      → GoesOn fl pr valid q (o >>= g)
  GoesOn-bind q o g a f =
      let b = f a.result a.wave a.columns a.rows in
      record {
        result = b.result;
        returns = rw a.returns b.returns;
        wave = b.wave;
        same = b.same ∙ a.same;
        columns = b.columns ∙ a.columns;
        rows = b.rows ∙ a.rows;
      }

  -- A neighbour is tried if a test holds.
  GoesOn-if :
      (test : Bool) (q : CostmapQueue D) (o : Option (CostmapQueue D))
      → IsWave fl pr valid q
      → (test ≡ true → GoesOn fl pr valid q o)
      → GoesOn fl pr valid q (if test then o else some q)
  GoesOn-if true q o w f = f refl
  GoesOn-if false q o w f = GoesOn-refl fl pr valid q w

  module _ (c : CellData D) (q : CostmapQueue D) (w : IsWave fl pr valid q)
      (i : IsCell q.size_x q.size_y c) where
    near : (x y : ℕ) → x < q.size_x → y < q.size_y → y * q.size_x + x < u32_mod
    near x y hx hy = omega (arith, index-lt q.size_x q.size_y x y hx hy, w.small)

    -- enqueueCell at a neighbour in the map.
    neighbor :
        (index x y : ℕ)
        → x < q.size_x
        → y < q.size_y
        → index ≡ y * q.size_x + x
        → GoesOn fl pr valid q (enqueue_cell fl pr valid index x y c.src_x c.src_y q)
    neighbor index x y hx hy e =
        enqueue_cell-GoesOn fl pr valid index x y c.src_x c.src_y q w hx hy e i.src_column i.src_row

    left_cell : GoesOn fl pr valid q (
        if ltb 0 c.x
        then enqueue_cell fl pr valid (sub_u32 c.index 1) (c.x - 1) c.y c.src_x c.src_y q
        else some q)
    left_cell = GoesOn-if (ltb 0 c.x) q _ w λ t.
        let some_left : 0 < c.x = ground arith in
        let hx : c.x - 1 < q.size_x = omega (arith, i.column) in
        let e =
          ap (λ (n : ℕ). sub_u32 n 1) i.place
          ∙ left_index (c.y * q.size_x) c.x some_left (near c.x c.y i.column i.row) in
        neighbor (sub_u32 c.index 1) (c.x - 1) c.y hx i.row e

    up_cell :
        (n : ℕ)
        → q.size_x ≡ n
        → GoesOn fl pr valid q (
            if ltb 0 c.y
            then enqueue_cell fl pr valid (sub_u32 c.index n) c.x (c.y - 1) c.src_x c.src_y q
            else some q)
    up_cell n same = GoesOn-if (ltb 0 c.y) q _ w λ t.
        let some_up : 0 < c.y = ground arith in
        let hy : c.y - 1 < q.size_y = omega (arith, i.row) in
        let e =
          ap (λ (m : ℕ). sub_u32 m q.size_x) i.place
          ∙ up_index q.size_x c.x c.y some_up (near c.x c.y i.column i.row) in
        neighbor (sub_u32 c.index n) c.x (c.y - 1) i.column hy (ap (sub_u32 c.index) (sym same) ∙ e)

    right_cell :
        (n : ℕ)
        → q.size_x ≡ n
        → GoesOn fl pr valid q (
            if ltb c.x (sub_u32 n 1)
            then enqueue_cell fl pr valid (u32 (c.index + 1)) (c.x + 1) c.y c.src_x c.src_y q
            else some q)
    right_cell n same = GoesOn-if (ltb c.x (sub_u32 n 1)) q _ w λ t.
        let width : q.size_x < u32_mod = width_lt q.size_x q.size_y c.y i.row w.small in
        let hx = before_last c.x q.size_x i.column width (rw (sym same) at t) in
        let e =
          ap (λ (m : ℕ). u32 (m + 1)) i.place
          ∙ right_index (c.y * q.size_x) c.x (near (c.x + 1) c.y hx i.row) in
        neighbor (u32 (c.index + 1)) (c.x + 1) c.y hx i.row e

    down_cell :
        (n m : ℕ)
        → q.size_x ≡ n
        → q.size_y ≡ m
        → GoesOn fl pr valid q (
            if ltb c.y (sub_u32 m 1)
            then enqueue_cell fl pr valid (u32 (c.index + n)) c.x (c.y + 1) c.src_x c.src_y q
            else some q)
    down_cell n m same same_rows = GoesOn-if (ltb c.y (sub_u32 m 1)) q _ w λ t.
        let height : q.size_y < u32_mod = height_lt q.size_x q.size_y c.x i.column w.small in
        let hy = before_last c.y q.size_y i.row height (rw (sym same_rows) at t) in
        let e =
          ap (λ (k : ℕ). u32 (k + q.size_x)) i.place
          ∙ down_index q.size_x c.x c.y (near c.x (c.y + 1) i.column hy) in
        neighbor (u32 (c.index + n)) c.x (c.y + 1) i.column hy
          (ap (λ (k : ℕ). u32 (c.index + k)) (sym same) ∙ e)

  pub neighbors-GoesOn :
      (c : CellData D) (q : CostmapQueue D)
      → IsWave fl pr valid q
      → IsCell q.size_x q.size_y c
      → GoesOn fl pr valid q (enqueue_neighbors fl pr valid c q)
  unfolding enqueue_neighbors
  neighbors-GoesOn c q w i = GoesOn-bind q _ _ (left_cell c q w i) λ q1 w1 x1 y1.
      GoesOn-bind q1 _ _ (up_cell c q1 w1 (rw (x1, y1) i) q.size_x x1) λ q2 w2 x2 y2.
        GoesOn-bind q2 _ _ (right_cell c q2 w2 (rw (x2, y2, x1, y1) i) q.size_x (x2 ∙ x1))
          λ q3 w3 x3 y3.
            down_cell c q3 w3 (rw (x3, y3, x2, y2, x1, y1) i) q.size_x q.size_y (x3 ∙ x2 ∙ x1)
              (y3 ∙ y2 ∙ y1)
