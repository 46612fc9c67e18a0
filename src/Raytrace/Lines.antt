-- ===== src/Raytrace/Lines.antt =====
-- The whole line: where it starts, how it goes on and that it stays in the map.
use rosnavigation2copy.Prelude.{
  ℕ, ◌+◌, ◌*◌, ◌/◌, ◌≤◌, ◌<◌, ◌≡◌, ◌⊎◌, min, false, Bool-cases, inl, inr, List, arith, leb, leb→le,
  u32, u32_mod, u32-eq_of_lt,
}
use rosnavigation2copy.Prelude.Int.{int_mod, pos, ◌-ℤ◌, ◌*ℤ◌}
use rosnavigation2copy.Platform.{Floats}
use rosnavigation2copy.Grid.Index.{index-lt}
use rosnavigation2copy.Raytrace.{sign, bresenham_2d, scale_of, raytrace_line}
use rosnavigation2copy.Raytrace.Cells.{Walks, bresenham_2d-Walks}
use rosnavigation2copy.Raytrace.Steps.{
  difference-eq, along, distance, abs-eq, along_lt, step_x, step_y, Walks-InMap, InMap,
}

-- The cells of a line on which x is dominant, and of one on which y is.
abbrev pub by_columns : ℕ → ℕ → ℕ → ℕ → ℕ → ℕ → ℕ → ℕ
by_columns w x0 y0 x1 y1 i k = along y0 y1 k * w + along x0 x1 i

abbrev pub by_rows : ℕ → ℕ → ℕ → ℕ → ℕ → ℕ → ℕ → ℕ
by_rows w x0 y0 x1 y1 i k = along y0 y1 i * w + along x0 x1 k

-- The list walks from the first cell along the longer axis, for at most `m` steps along the x or the
-- y axis, to the second one if it is not stopped before, and stays in the map.
pub record Traces (w h x0 y0 x1 y1 : ℕ) (m : ℕ → ℕ) (offsets : List ℕ) : Type 0 where
  pub inside : InMap w h offsets
  pub walks :
      ((distance y0 y1 ≤ distance x0 x1)
        × Walks
            (distance x0 x1)
            (distance y0 y1)
            (by_columns w x0 y0 x1 y1)
            (min (m (distance x0 x1)) (distance x0 x1))
            0
            0
            offsets)
      ⊎ ((distance x0 x1 < distance y0 y1)
          × Walks
              (distance y0 y1)
              (distance x0 x1)
              (by_rows w x0 y0 x1 y1)
              (min (m (distance y0 y1)) (distance y0 y1))
              0
              0
              offsets)

below : (a b : ℕ) → leb b a ≡ false → a < b
below a b e = ground arith

wide_lt : (w h y : ℕ) → y < h → (x : ℕ) → x < w → h * w < u32_mod → x < u32_mod
wide_lt w h y hy x hx small = omega (arith, index-lt w h x y hx hy)

tall_lt : (w h x : ℕ) → x < w → (y : ℕ) → y < h → h * w < u32_mod → y < u32_mod
tall_lt w h x hx y hy small = grind arith

along_start : (p q : ℕ) → along p q 0 ≡ p
along_start p q = ground arith

module _ (w h x0 y0 x1 y1 : ℕ) (small : h * w < u32_mod) (hx0 : x0 < w) (hy0 : y0 < h)
    (hx1 : x1 < w) (hy1 : y1 < h) where
  start_eq : u32 (y0 * w + x0) ≡ along y0 y1 0 * w + along x0 x1 0
  start_eq =
      rw (along_start x0 x1, along_start y0 y1)
        (u32-eq_of_lt _ (omega (arith, index-lt w h x0 y0 hx0 hy0)))

  in_map :
      (i k : ℕ)
      → i ≤ distance x0 x1
      → k ≤ distance y0 y1
      → along y0 y1 k * w + along x0 x1 i < h * w
  in_map i k hi hk =
      index-lt w h _ _ (along_lt w h small x0 x1 w i hx0 hx1 hi)
        (along_lt w h small y0 y1 h k hy0 hy1 hk)

  columns-Traces :
      (m : ℕ → ℕ)
      → distance y0 y1 ≤ distance x0 x1
      → Traces w h x0 y0 x1 y1 m (
          bresenham_2d
            (distance x0 x1)
            (distance y0 y1)
            (distance x0 x1 / 2)
            (sign (pos x1 -ℤ pos x0))
            (sign (pos y1 -ℤ pos y0) *ℤ pos w)
            (by_columns w x0 y0 x1 y1 0 0)
            (m (distance x0 x1)))
  columns-Traces m flat =
      let walk =
        bresenham_2d-Walks (distance x0 x1) (distance y0 y1) _ _ (by_columns w x0 y0 x1 y1)
          (λ i k hi hk.
            step_x w h small (along y0 y1 k) x0 x1 i (along_lt w h small y0 y1 h k hy0 hy1 hk) hx0
              hx1 hi)
          (λ i k hi hk.
            step_y w h small (along x0 x1 i) y0 y1 k (along_lt w h small x0 x1 w i hx0 hx1 hi) hy0
              hy1 hk)
          (m (distance x0 x1)) flat in
      record {
        inside =
            Walks-InMap w h small _ _ (by_columns w x0 y0 x1 y1) in_map _ 0 0 _ (omega arith) walk;
        walks = inl (flat, walk);
      }

  rows-Traces :
      (m : ℕ → ℕ)
      → distance x0 x1 < distance y0 y1
      → Traces w h x0 y0 x1 y1 m (
          bresenham_2d
            (distance y0 y1)
            (distance x0 x1)
            (distance y0 y1 / 2)
            (sign (pos y1 -ℤ pos y0) *ℤ pos w)
            (sign (pos x1 -ℤ pos x0))
            (by_rows w x0 y0 x1 y1 0 0)
            (m (distance y0 y1)))
  rows-Traces m steep =
      let walk =
        bresenham_2d-Walks (distance y0 y1) (distance x0 x1) _ _ (by_rows w x0 y0 x1 y1)
          (λ i k hi hk.
            step_y w h small (along x0 x1 k) y0 y1 i (along_lt w h small x0 x1 w k hx0 hx1 hk) hy0
              hy1 hi)
          (λ i k hi hk.
            step_x w h small (along y0 y1 i) x0 x1 k (along_lt w h small y0 y1 h i hy0 hy1 hi) hx0
              hx1 hk)
          (m (distance y0 y1)) (omega arith) in
      record {
        inside =
            Walks-InMap w h small _ _ (by_rows w x0 y0 x1 y1) (λ i k hi hk. in_map k i hk hi) _ 0 0
              _ (omega arith) walk;
        walks = inr (steep, walk);
      }

  -- Two cells of a map of less than 2 ^ 32 cells, less than 2 ^ 31 columns and rows apart: `raytrace_line` calls the action at the first one
  -- and then at cells of the map only, each one step along the longer axis from the one before it and
  -- at most one along the other; without a stop by max_length the last is the second cell.
  pub raytrace_line-Traces :
      {D : Type 0} (fl : Floats D) (max_length : ℕ)
      → distance x0 x1 < int_mod
      → distance y0 y1 < int_mod
      → Traces w h x0 y0 x1 y1
          (λ n.
            fl.to_u32
              (fl.mul (scale_of fl (pos x1 -ℤ pos x0) (pos y1 -ℤ pos y0) max_length) (fl.of_nat n)))
          (raytrace_line fl w x0 y0 x1 y1 max_length)
  unfolding raytrace_line
  raytrace_line-Traces {D} fl max_length near_x near_y =
      let m = λ (n : ℕ).
        fl.to_u32
          (fl.mul (scale_of fl (pos x1 -ℤ pos x0) (pos y1 -ℤ pos y0) max_length) (fl.of_nat n)) in
      let dx =
        difference-eq x0 x1 (wide_lt w h y0 hy0 x0 hx0 small) (wide_lt w h y0 hy0 x1 hx1 small)
          near_x in
      let dy =
        difference-eq y0 y1 (tall_lt w h x0 hx0 y0 hy0 small) (tall_lt w h x0 hx0 y1 hy1 small)
          near_y in
      elim (Bool-cases (leb (distance y0 y1) (distance x0 x1))) [
        | inl t ↦
            rw (dx, dy, abs-eq x0 x1, abs-eq y0 y1, start_eq, t) (columns-Traces m (leb→le _ _ t))
        | inr f ↦
            rw (dx, dy, abs-eq x0 x1, abs-eq y0 y1, start_eq, f)
              (rows-Traces m (below (distance x0 x1) (distance y0 y1) f))
      ]
