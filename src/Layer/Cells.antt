-- ===== src/Layer/Cells.antt =====
-- What one round of each update computes from the layer's cost and the master's.
use rosnavigation2copy.Prelude.{ℕ, ◌+◌, ◌-◌, ◌≡◌, min}
use rosnavigation2copy.Prelude.{List, ltb, ◌==◌, if◌then◌else◌, arith, u8}
use rosnavigation2copy.Prelude.{length, get_or}
use rosnavigation2copy.Grid.Index.{read-eq-some, write-eq-some, set-get_or}
use rosnavigation2copy.Grid.Window.{Writes}
use rosnavigation2copy.Layer.{max_cell, true_overwrite_cell, overwrite_cell, addition_cell}
use rosnavigation2copy.Layer.{no_information, inscribed_inflated_obstacle}

-- The order of costs in which "no information" is least.
abbrev pub known : ℕ → ℕ
known cost = if cost == no_information then 0 else cost + 1

-- The greater of two costs in that order.
abbrev pub greater : ℕ → ℕ → ℕ
greater a b = if ltb (known a) (known b) then b else a

abbrev pub overwritten : ℕ → ℕ → ℕ
overwritten old cost = if cost == no_information then old else cost

-- The sum, capped below the inscribed cost; an unknown operand counts for nothing.
abbrev pub added : ℕ → ℕ → ℕ
added old cost =
    if cost == no_information
    then old
    else if old == no_information
    then cost
    else min (old + cost) (inscribed_inflated_obstacle - 1)

module _ (costs : List ℕ) (n : ℕ) (size : length costs ≡ n) where
  pub max_cell-Writes : Writes (λ q old. greater old (get_or costs q 0)) (max_cell costs) n
  unfolding max_cell
  max_cell-Writes it m lt size_m =
      let c = get_or costs it 0 in
      rw (read-eq-some costs it 0 (omega arith), read-eq-some m it 0 (omega arith))
        (ground (arith, write-eq-some m it c, set-get_or m it 0))

  pub true_overwrite_cell-Writes : Writes (λ q old. get_or costs q 0) (true_overwrite_cell costs) n
  unfolding true_overwrite_cell
  true_overwrite_cell-Writes it m lt size_m =
      rw (read-eq-some costs it 0 (omega arith)) (write-eq-some m it _ (omega arith))

  pub overwrite_cell-Writes :
      Writes (λ q old. overwritten old (get_or costs q 0)) (overwrite_cell costs) n
  unfolding overwrite_cell
  overwrite_cell-Writes it m lt size_m =
      let c = get_or costs it 0 in
      rw (read-eq-some costs it 0 (omega arith))
        (ground (arith, write-eq-some m it c, set-get_or m it 0))

  pub addition_cell-Writes : Writes (λ q old. added old (get_or costs q 0)) (addition_cell costs) n
  unfolding addition_cell
  addition_cell-Writes it m lt size_m =
      let c = get_or costs it 0 in
      let old = get_or m it 0 in
      rw (read-eq-some costs it 0 (omega arith), read-eq-some m it 0 (omega arith))
        (ground (
          arith,
          write-eq-some m it c,
          write-eq-some m it 252,
          write-eq-some m it (u8 (old + c)),
          set-get_or m it 0,
        ))
