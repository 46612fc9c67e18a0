-- ===== src/Inflation/Obstacles.antt =====
-- The lethal cells in a window of the map, from which updateCosts starts the wave.
use rosnavigation2copy.Prelude.{
  ℕ, ◌+◌, ◌-◌, ◌*◌, ◌≤◌, ◌<◌, ◌≡◌, ◌≢◌, refl, ap, sym, ◌∙◌, ◌⊎◌, ◌==◌, Bool-cases, ==_iff, inl, inr,
  some, List, [], ◌∷◌, ◌++◌, length, length-append, arith, if◌then◌else◌, get_or, u32,
}
use mathlib.Core.Path.{subst}
use rosnavigation2copy.Prelude.Int.{int_mod, to_signed, to_signed-eq}
use rosnavigation2copy.Prelude.Loops.{for_range, for_range_inv, ◌>>=◌}
use rosnavigation2copy.Grid.{at}
use rosnavigation2copy.Grid.Index.{neq_of_false, index-lt, read-eq-some}
use rosnavigation2copy.Costmap.{Costmap, IsValid, get_index, to_unsigned}
use rosnavigation2copy.Wave.{absolute_difference}
use rosnavigation2copy.Inflation.{CellData, find_obstacles, read_at_int}
use rosnavigation2copy.Inflation.Reach.{Has, Has-append, Has-last, AllReach, AllReach-append}

-- A lethal cell in the window.
pub record IsObstacle (w lo_x lo_y hi_x hi_y : ℕ) (costs : List ℕ) (x y : ℕ) : Type 0 where
  pub left : lo_x ≤ x
  pub right : x < hi_x
  pub low : lo_y ≤ y
  pub high : y < hi_y
  pub lethal : at w costs x y ≡ 254

-- The loops have passed the cell when they are at column `i` of row `j`.
abbrev pub Passed : (j i x y : ℕ) → Type 0
Passed j i x y = (y < j) ⊎ ((y ≡ j) × (x < i))

step_cases : (j i x y : ℕ) → Passed j (i + 1) x y → Passed j i x y ⊎ ((x ≡ i) × (y ≡ j))
step_cases j i x y (inl above) = inl (inl above)
step_cases j i x y (inr (e, left)) = elim (Bool-cases (x == i)) [
  | inl t ↦ inr ((==_iff x i).0 t, e)
  | inr f ↦ inl (inr (e, ground (arith, neq_of_false x i f)))
]

same_index : (w : ℕ) {x y i j : ℕ} → x ≡ i → y ≡ j → y * w + x ≡ j * w + i
same_index w ex ey = rw (ex, ey) refl

no_difference : (x r : ℕ) → absolute_difference x x ≤ r
unfolding absolute_difference
no_difference x r = ground arith

next_row : (n w : ℕ) → (n + 1) * w ≡ n * w + w
next_row n w = grind arith

area-le : (a b h w : ℕ) → a ≤ h → b ≤ w → a * b ≤ h * w
area-le a b h w p q = grind arith

module _ {D : Type 0} (c : Costmap D) (v : IsValid c) (lo_x lo_y hi_x hi_y r : ℕ)
    (fit_x : hi_x ≤ c.size_x) (fit_y : hi_y ≤ c.size_y)
    (few_cells : c.size_y * c.size_x ≤ int_mod) where
  abbrev pub Obstacle : (x y : ℕ) → Type 0
  Obstacle x y = IsObstacle c.size_x lo_x lo_y hi_x hi_y c.costmap x y

  above : {j x y : ℕ} → Obstacle x y → Passed (j + 1) lo_x x y → y ≢ j → y < j
  above o (inl before) ne = omega arith
  above o (inr (e, left)) ne = absurd (let p = o.left in omega arith)

  none_before : {x y : ℕ} → Obstacle x y → Passed lo_y lo_x x y → ⊥
  none_before o (inl before) = let p = o.low in omega arith
  none_before o (inr (e, left)) = let p = o.left in omega arith

  -- Cells found, at most `n`, when the loops are at column `i` of row `j`.
  pub record Found (n j i : ℕ) (cells : List CellData) : Type 0 where
    pub reach :
        AllReach (IsObstacle c.size_x lo_x lo_y hi_x hi_y c.costmap) c.size_x c.size_y r cells
    pub few : length cells ≤ n
    pub all : (x y : ℕ) → Obstacle x y → Passed j i x y → Has (y * c.size_x + x) cells

  add_obstacle :
      (i j n : ℕ) (cells : List CellData)
      → lo_x ≤ i
      → i < hi_x
      → lo_y ≤ j
      → j < hi_y
      → Found n j i cells
      → (cells' : List CellData) × ((read_at_int c.costmap (to_signed (get_index c i j)) >>= λ cost.
            if cost == 254
            then some (
                cells
                ++ (record {
                  index = to_unsigned (to_signed (get_index c i j));
                  x = i;
                  y = j;
                  src_x = i;
                  src_y = j;
                }
                    ∷ []))
            else some cells)
          ≡ some cells')
        × Found (n + 1) j (i + 1) cells'
  unfolding get_index at
  add_obstacle i j n cells li hi lj hj f =
      let here : j * c.size_x + i < c.size_y * c.size_x =
        index-lt c.size_x c.size_y i j (omega arith) (omega arith) in
      let index : u32 (j * c.size_x + i) ≡ j * c.size_x + i = omega (arith, v.fits) in
      let got = read-eq-some c.costmap (j * c.size_x + i) 0 (omega (arith, v.cells)) in
      let cell : CellData = record {
        index = j * c.size_x + i;
        x = i;
        y = j;
        src_x = i;
        src_y = j;
      } in
      elim (Bool-cases (get_or c.costmap (j * c.size_x + i) 0 == 254)) [
        | inl t ↦ (
          cells ++ (cell ∷ []),
          rw (index, to_signed-eq (j * c.size_x + i) (omega arith), index, got, t) refl,
          record {
            reach = AllReach-append _ _ _ _ cells cell f.reach (record {
              column = omega arith;
              row = omega arith;
              place = refl;
              source = record {
                left = li;
                right = hi;
                low = lj;
                high = hj;
                lethal = (==_iff _ 254).0 t;
              };
              near_x = no_difference i r;
              near_y = no_difference j r;
            });
            few = omega (arith, f.few, length-append cells (cell ∷ []));
            all = λ x y o passed. elim (step_cases j i x y passed) [
              | inl before ↦ Has-append _ cells cell (f.all x y o before)
              | inr (ex, ey) ↦
                  subst (λ n. Has n (cells ++ (cell ∷ []))) (sym (same_index c.size_x ex ey))
                    (Has-last cells cell)
            ];
          },
        )
        | inr other ↦ (
          cells,
          rw (index, to_signed-eq (j * c.size_x + i) (omega arith), index, got, other) refl,
          record {
            reach = f.reach;
            few = omega (arith, f.few);
            all = λ x y o passed. elim (step_cases j i x y passed) [
              | inl before ↦ f.all x y o before
              | inr (ex, ey) ↦ absurd (
                  neq_of_false _ _ other
                    (ap (λ n. get_or c.costmap n 0) (sym (same_index c.size_x ex ey)) ∙ o.lethal))
            ];
          },
        )
      ]

  widen :
      (j i : ℕ) {n k : ℕ} {cells : List CellData} → n ≤ k → Found n j i cells → Found k j i cells
  widen j i le f = record { reach = f.reach; few = omega (arith, f.few); all = f.all }

  next_line :
      (j : ℕ) {n k : ℕ} {cells : List CellData}
      → n ≤ k
      → Found n j hi_x cells
      → Found k (j + 1) lo_x cells
  next_line j le f = record {
    reach = f.reach;
    few = omega (arith, f.few);
    all = λ x y o passed. f.all x y o (before o passed);
  }
    where
      before : {x y : ℕ} → Obstacle x y → Passed (j + 1) lo_x x y → Passed j hi_x x y
      before {x} {y} o passed = elim (Bool-cases (y == j)) [
        | inl t ↦ inr ((==_iff y j).0 t, o.right)
        | inr f ↦ inl (above o passed (neq_of_false y j f))
      ]

  find_row :
      (j : ℕ) (cells : List CellData)
      → lo_x ≤ hi_x
      → lo_y ≤ j
      → j < hi_y
      → Found ((j - lo_y) * (hi_x - lo_x)) j lo_x cells
      → (cells' : List CellData) × (for_range
            (hi_x - lo_x)
            lo_x
            (λ i obs_bin. read_at_int c.costmap (to_signed (get_index c i j)) >>= λ cost.
              if cost == 254
              then some (
                  obs_bin
                  ++ (record {
                    index = to_unsigned (to_signed (get_index c i j));
                    x = i;
                    y = j;
                    src_x = i;
                    src_y = j;
                  }
                      ∷ []))
              else some obs_bin)
            cells
          ≡ some cells')
        × Found ((j + 1 - lo_y) * (hi_x - lo_x)) (j + 1) lo_x cells'
  find_row j cells le_x lj hj f =
      let (cells', e', f') =
        for_range_inv
          (λ i cells. (lo_x ≤ i) × Found ((j - lo_y) * (hi_x - lo_x) + (i - lo_x)) j i cells) _ hi_x
          (λ i cells hi f.
            let (cells', e, f') = add_obstacle i j _ cells f.0 hi lj hj f.1 in
            (cells', e, (omega (arith, f.0), widen j (i + 1) (omega (arith, f.0)) f')))
          (hi_x - lo_x) lo_x cells (omega arith) (omega arith, widen j lo_x (omega arith) f) in
      let step : (j + 1 - lo_y) * (hi_x - lo_x) ≡ (j - lo_y) * (hi_x - lo_x) + (hi_x - lo_x) =
        ap (λ n. n * (hi_x - lo_x)) (omega arith) ∙ next_row (j - lo_y) (hi_x - lo_x) in
      (cells', e', next_line j (omega (arith, step)) f'.1)

  pub find_obstacles-Found :
      lo_x ≤ hi_x
      → lo_y ≤ hi_y
      → (cells : List CellData) × (find_obstacles c lo_x lo_y hi_x hi_y ≡ some cells)
        × Found (c.size_y * c.size_x) hi_y lo_x cells
  unfolding find_obstacles
  find_obstacles-Found le_x le_y =
      let (cells, e, f) =
        for_range_inv (λ j cells. (lo_y ≤ j) × Found ((j - lo_y) * (hi_x - lo_x)) j lo_x cells) _
          hi_y
          (λ j cells hj f.
            let (cells', e', f') = find_row j cells le_x f.0 hj f.1 in
            (cells', e', (omega (arith, f.0), f')))
          (hi_y - lo_y) lo_y [] (omega arith)
          (
            omega arith,
            record {
              reach = tt;
              few = omega arith;
              all = λ x y o passed. absurd (none_before o passed);
            },
          ) in
      (
        cells,
        e,
        widen hi_y lo_x
            (area-le (hi_y - lo_y) (hi_x - lo_x) c.size_y c.size_x (omega arith) (omega arith)) f.1,
      )
