-- ===== src/Raytrace/Steps.antt =====
-- One step along an axis of the grid, and the line from cell to cell.
use rosnavigation2copy.Prelude.{
  ℕ, ◌+◌, ◌-◌, ◌*◌, ◌≤◌, ◌<◌, ◌≡◌, ◌∙◌, refl, ap, Bool, true, false, List, [], ◌∷◌, arith, ltb,
  u32_mod, sub_u32, if◌then◌else◌,
}
use rosnavigation2copy.Prelude.Int.{abs, int_mod, to_signed, pos, negsuc, ◌-ℤ◌, ◌*ℤ◌}
use rosnavigation2copy.Grid.Index.{index-lt, row-le}
use rosnavigation2copy.Raytrace.{sign, add_offset}
use rosnavigation2copy.Raytrace.Cells.{Walks, next_row, rows_le}
use rosnavigation2copy.Raytrace.Cells.Walks.{arrive, straight, turn}

-- `i` steps from `p` towards `q`.
abbrev pub along : ℕ → ℕ → ℕ → ℕ
along p q i = if ltb p q then p + i else p - i

-- How far the two are apart.
abbrev pub distance : ℕ → ℕ → ℕ
distance p q = if ltb p q then q - p else p - q

-- The int that holds the difference of two unsigned ints.
pub difference-eq :
    (p q : ℕ)
    → p < u32_mod
    → q < u32_mod
    → distance p q < int_mod
    → to_signed (sub_u32 q p) ≡ pos q -ℤ pos p
unfolding to_signed ◌-ℤ◌
difference-eq p q hp hq h = ground arith

pub abs-eq : (p q : ℕ) → abs (pos q -ℤ pos p) ≡ distance p q
unfolding ◌-ℤ◌
abs-eq p q = ground arith

pub sign-eq : (p q : ℕ) → sign (pos q -ℤ pos p) ≡ (if ltb p q then pos 1 else negsuc 0)
unfolding ◌-ℤ◌ sign
sign-eq p q = ground arith

step_up : (n : ℕ) → n + 1 < u32_mod → add_offset n (pos 1) ≡ n + 1
unfolding add_offset
step_up n h = omega arith

step_down : (n : ℕ) → 0 < n → n < u32_mod → add_offset n (negsuc 0) ≡ n - 1
unfolding add_offset
step_down n lt h = omega arith

row_up : (n w : ℕ) → n + w < u32_mod → add_offset n (pos 1 *ℤ pos w) ≡ n + w
unfolding add_offset ◌*ℤ◌
row_up n w h = ground arith

row_down : (n w : ℕ) → w ≤ n → n < u32_mod → add_offset n (negsuc 0 *ℤ pos w) ≡ n - w
unfolding add_offset ◌*ℤ◌
row_down n w le h = ground arith

column :
    (b : Bool) (n p i : ℕ)
    → (b ≡ true → n + (p + i) + 1 < u32_mod)
    → (b ≡ false → i < p)
    → n + p < u32_mod
    → add_offset (n + (if b then p + i else p - i)) (if b then pos 1 else negsuc 0)
      ≡ n + (if b then p + (i + 1) else p - (i + 1))
column true n p i room left start = step_up (n + (p + i)) (room refl) ∙ omega arith
column false n p i room left start =
    let lt = left refl in step_down (n + (p - i)) (omega arith) (omega arith) ∙ omega arith

one_less : (w p i : ℕ) → i < p → (p - i) * w ≡ (p - (i + 1)) * w + w
one_less w p i lt =
    let e : p - i ≡ p - (i + 1) + 1 = omega arith in ap (λ n. n * w) e ∙ next_row (p - (i + 1)) w

row :
    (b : Bool) (w x p i : ℕ)
    → (b ≡ true → (p + i + 1) * w + x < u32_mod)
    → (b ≡ false → i < p)
    → p * w + x < u32_mod
    → add_offset ((if b then p + i else p - i) * w + x) ((if b then pos 1 else negsuc 0) *ℤ pos w)
      ≡ (if b then p + (i + 1) else p - (i + 1)) * w + x
row true w x p i room left start =
    let lt = room refl in
    let e : (p + (i + 1)) * w ≡ (p + i) * w + w =
      ap (λ n. n * w) (omega arith) ∙ next_row (p + i) w in
    row_up ((p + i) * w + x) w (omega (arith, next_row (p + i) w)) ∙ omega (arith, e)
row false w x p i room left start =
    let lt = left refl in
    row_down ((p - i) * w + x) w (omega (arith, one_less w p i lt))
      (omega (arith, rows_le (p - i) p w (omega arith)))
    ∙ omega (arith, one_less w p i lt)

-- Every offset of the list is that of a cell of the map.
abbrev pub InMap : ℕ → ℕ → List ℕ → Type 0
InMap w h [] = Unit {0}
InMap w h (n ∷ ns) = (n < h * w) × InMap w h ns

-- A line in a map of `w` by `h` cells.
module _ (w h : ℕ) (small : h * w < u32_mod) where
  pub along_lt : (p q n i : ℕ) → p < n → q < n → i ≤ distance p q → along p q i < n
  along_lt p q n i hp hq le = ground arith

  room_up : (p q i : ℕ) → i < distance p q → ltb p q ≡ true → p + i + 1 ≤ q
  room_up p q i lt t = ground arith

  room_down : (p q i : ℕ) → i < distance p q → ltb p q ≡ false → i < p
  room_down p q i lt f = ground arith

  pub step_x :
      (y p q i : ℕ)
      → y < h
      → p < w
      → q < w
      → i < distance p q
      → add_offset (y * w + along p q i) (sign (pos q -ℤ pos p)) ≡ y * w + along p q (i + 1)
  step_x y p q i hy hp hq lt = rw (sign-eq p q) (
      column (ltb p q) (y * w) p i
        (λ t. let le = room_up p q i lt t in omega (arith, row-le w y h hy)) (room_down p q i lt)
        (omega (arith, row-le w y h hy)))

  pub step_y :
      (x p q i : ℕ)
      → x < w
      → p < h
      → q < h
      → i < distance p q
      → add_offset (along p q i * w + x) (sign (pos q -ℤ pos p) *ℤ pos w)
        ≡ along p q (i + 1) * w + x
  step_y x p q i hx hp hq lt = rw (sign-eq p q) (
      row (ltb p q) w x p i
        (λ t.
          let le = room_up p q i lt t in omega (arith, index-lt w h x (p + i + 1) hx (omega arith)))
        (room_down p q i lt) (omega (arith, index-lt w h x p hx hp)))

  pub Walks-InMap :
      (da db : ℕ) (cell : ℕ → ℕ → ℕ)
      → ((i k : ℕ) → i ≤ da → k ≤ db → cell i k < h * w)
      → (end i k : ℕ) (offsets : List ℕ) → end ≤ da
      → Walks da db cell end i k offsets
      → InMap w h offsets
  Walks-InMap da db cell inside end i k offsets fit (arrive k' le at_end) =
      (inside end k' fit le, tt)
  Walks-InMap da db cell inside end i k offsets fit (straight i' k' rest le lt walks) =
      (inside i' k' (omega arith) le, Walks-InMap da db cell inside end (i' + 1) k' rest fit walks)
  Walks-InMap da db cell inside end i k offsets fit (turn i' k' rest klt lt walks) = (
    inside i' k' (omega arith) (omega arith),
    Walks-InMap da db cell inside end (i' + 1) (k' + 1) rest fit walks,
  )
