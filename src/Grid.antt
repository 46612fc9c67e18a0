-- ===== src/Grid.antt =====
-- Flat arrays: reads and writes that fault out of bounds, rows of cells, and the loop nest over a
-- window of cells that the costmap code shares. A fault (`none`) is what C++ leaves undefined.
pub mod Index
pub mod Window
use rosnavigation2copy.Prelude.{ℕ, ◌+◌, ◌-◌, ◌*◌, u32, Option, none, some, List, ltb}
use rosnavigation2copy.Prelude.{length, get_elem?, get_or, set, if◌then◌else◌}
use rosnavigation2copy.Prelude.Loops.{for_range, ◌>>=◌}

abbrev pub read {ℓ} : {A : Type ℓ} → List A → ℕ → Option A
read m i = get_elem? m i

unfoldable pub write {ℓ} : {A : Type ℓ} → List A → ℕ → A → Option (List A)
write m i v = if ltb i (length m) then some (set m i v) else none

-- The cell in column `x` of row `y` of a grid that is `w` cells wide.
unfoldable pub at : ℕ → List ℕ → ℕ → ℕ → ℕ
at w m x y = get_or m (y * w + x) 0

-- for (i = lo; i < hi; i++) { cell(it); it++; }
unfoldable pub for_row : (ℕ → List ℕ → Option (List ℕ)) → ℕ → ℕ → ℕ → List ℕ → Option (ℕ × List ℕ)
for_row cell lo hi it m =
    for_range (hi - lo) lo (λ i s. cell s.0 s.1 >>= λ m'. some (u32 (s.0 + 1), m')) (it, m)

-- for (j = lo_y; j < hi_y; j++) { it = j * span + lo_x; for (i = lo_x; i < hi_x; i++) ... }
unfoldable pub for_window :
    (ℕ → List ℕ → Option (List ℕ)) → ℕ → ℕ → ℕ → ℕ → ℕ → List ℕ → Option (List ℕ)
for_window cell span lo_x lo_y hi_x hi_y m =
    for_range (hi_y - lo_y) lo_y
      (λ j m. for_row cell lo_x hi_x (u32 (j * span + lo_x)) m >>= λ s. some s.1) m
