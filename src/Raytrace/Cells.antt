-- ===== src/Raytrace/Cells.antt =====
-- The line stays between its ends.
use rosnavigation2copy.Prelude.{
  ℕ, zero, suc, ◌+◌, ◌-◌, ◌*◌, ◌/◌, ◌≤◌, ◌<◌, ◌≡◌, ◌∙◌, ap, min, false, Bool-cases, inl, inr, List,
  [], ◌∷◌, arith, leb,
}
use rosnavigation2copy.Prelude.{leb→le}
use mathlib.Core.Path.{subst}
use native.Mathlib.Decide.{dec_lt}
use rosnavigation2copy.Prelude.Int.{ℤ}
use rosnavigation2copy.Raytrace.{add_offset, bresenham, bresenham_2d}

pub next_row : (n w : ℕ) → (n + 1) * w ≡ n * w + w
next_row n w = grind arith

pub rows_le : (i n w : ℕ) → i ≤ n → i * w ≤ n * w
rows_le i n w h = grind arith

swap : (a b : ℕ) → a * b ≡ b * a
swap a b = grind arith

turn_lt :
    (da db i k error : ℕ) → i < da → da ≤ error + db → error + k * da ≡ da / 2 + i * db → k < db
turn_lt da db i k error lt over exact = elim (dec_lt k db) [
  | yes h ↦ h
  | no h ↦ absurd (
      omega (
        arith,
        next_row i db,
        rows_le (i + 1) da db (omega arith),
        rows_le db k da (omega arith),
        swap da db,
      ))
]

-- At the end of the first axis the line is at the end of the other.
arrives : (da db k error : ℕ) → error < da → k ≤ db → error + k * da ≡ da / 2 + da * db → k ≡ db
arrives da db k error small low exact = elim (dec_lt k db) [
  | yes h ↦ absurd (omega (arith, next_row k da, rows_le (k + 1) db da (omega arith), swap da db))
  | no h ↦ omega arith
]

below : (a b : ℕ) → leb a b ≡ false → b < a
below a b e = ground arith

the_end : (i end : ℕ) → i + 0 ≡ end → i ≡ end
the_end i end e = omega arith

-- `cell i k` is the offset after `i` steps along the one axis and `k` along the other.
module _ (da db : ℕ) (cell : ℕ → ℕ → ℕ) where
  -- The cells of the list, from `i` steps and `k` on to `end` steps: each takes a step along the
  -- first axis and at most one along the other, and all are in the box of `da` by `db` cells.
  pub data Walks (end : ℕ) : ℕ → ℕ → List ℕ → Type 0 where
    arrive : (k : ℕ) → k ≤ db → (end ≡ da → k ≡ db) → Walks end end k (cell end k ∷ [])
    straight :
        (i k : ℕ) (offsets : List ℕ)
        → k ≤ db
        → i < end
        → Walks end (i + 1) k offsets
        → Walks end i k (cell i k ∷ offsets)
    turn :
        (i k : ℕ) (offsets : List ℕ)
        → k < db
        → i < end
        → Walks end (i + 1) (k + 1) offsets
        → Walks end i k (cell i k ∷ offsets)

module _ (da db : ℕ) (offset_a offset_b : ℤ) (cell : ℕ → ℕ → ℕ)
    (step_a : (i k : ℕ) → i < da → k ≤ db → add_offset (cell i k) offset_a ≡ cell (i + 1) k)
    (step_b : (i k : ℕ) → i ≤ da → k < db → add_offset (cell i k) offset_b ≡ cell i (k + 1)) where
  -- The error is that of the exact line at `i`.
  pub bresenham-Walks :
      (rounds i k error end : ℕ)
      → i + rounds ≡ end
      → end ≤ da
      → db ≤ da
      → error < da
      → k ≤ db
      → error + k * da ≡ da / 2 + i * db
      → Walks da db cell end i k (bresenham rounds da db error offset_a offset_b (cell i k))
  unfolding bresenham
  bresenham-Walks zero i k error end e fit slope small low exact =
      subst (λ n. Walks da db cell n i k (cell i k ∷ [])) (the_end i end e)
        (arrive k low
          (λ at_end. arrives da db k error small low (exact ∙ ap (λ n. da / 2 + n * db) at_end)))
  bresenham-Walks (suc rounds) i k error end e fit slope small low exact =
      elim (Bool-cases (leb da (error + db))) [
        | inl t ↦ rw t (
            let lt = turn_lt da db i k error (omega arith) (leb→le da (error + db) t) exact in
            let over = leb→le da (error + db) t in
            let there : add_offset (add_offset (cell i k) offset_a) offset_b
                ≡ cell (i + 1) (k + 1) =
              ap (λ n. add_offset n offset_b) (step_a i k (omega arith) low)
              ∙ step_b (i + 1) k (omega arith) lt in
            rw there (
              turn i k _ lt (omega arith) (
                bresenham-Walks rounds (i + 1) (k + 1) (error + db - da) end (omega arith) fit slope
                  (omega arith) (omega arith) (omega (arith, next_row k da, next_row i db)))))
        | inr f ↦ rw f (
            rw (step_a i k (omega arith) low) (
              straight i k _ low (omega arith) (
                bresenham-Walks rounds (i + 1) k (error + db) end (omega arith) fit slope
                  (below da (error + db) f) low (omega (arith, next_row i db)))))
      ]

  -- The whole loop, from the cell where the line starts.
  pub bresenham_2d-Walks :
      (max_length : ℕ)
      → db ≤ da
      → Walks da db cell
          (min max_length da)
          0
          0
          (bresenham_2d da db (da / 2) offset_a offset_b (cell 0 0) max_length)
  unfolding bresenham_2d
  bresenham_2d-Walks max_length slope = elim (dec_lt 0 da) [
    | yes some ↦
        bresenham-Walks (min max_length da) 0 0 (da / 2) (min max_length da) (omega arith)
          (omega arith) slope (omega arith) (omega arith) (omega arith)
    | no none ↦
        let stop : min max_length da ≡ 0 = omega arith in
        let short : Walks da db cell 0 0 0 (cell 0 0 ∷ []) =
          arrive 0 (omega arith) (λ _. omega arith) in
        rw stop (unfold bresenham in short)
  ]
