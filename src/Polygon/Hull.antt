-- ===== src/Polygon/Hull.antt =====
-- convexFillCells: the outline, ordered and filled column by column.
use rosnavigation2copy.Prelude.{
  ltb, ℕ, suc, ◌+◌, ◌-◌, ◌*◌, ◌≤◌, ◌≡◌, refl, ap, sym, ◌∙◌, inl, inr, false, Option, some, List, [],
  ◌∷◌, ◌++◌, length, get_elem?, arith,
}
use mathlib.Core.List.{append-nil}
use mathlib.Core.Path.{subst}
use rosnavigation2copy.Prelude.Int.{int_mod}
use rosnavigation2copy.Platform.{Floats, ExactCounts}
use rosnavigation2copy.Costmap.{Costmap, IsValid}
use rosnavigation2copy.Polygon.{
  sort_by_x, polygon_outline_cells, MapLocation, edges, fill_columns, convex_fill_cells,
}
use rosnavigation2copy.Polygon.Cells.{
  Alike, Has, Has-append, cells_in, IsAbove, above_le, at_column,
}
use rosnavigation2copy.Polygon.Sorting.{sort_all}
use rosnavigation2copy.Polygon.Columns.{IsBetween}
use rosnavigation2copy.Polygon.Filling.{Filled}
use rosnavigation2copy.Polygon.Loop.{fill_columns-Fills}
use rosnavigation2copy.Polygon.Outline.{AllIn, crossed_between, edges-Enclosed}

-- The last of the ordered cells is in the last column.
last_cell :
    (lo : ℕ) (a : MapLocation) (cells : List MapLocation)
    → IsAbove lo (a ∷ cells)
    → (z : MapLocation) × (get_elem? (a ∷ cells) (length cells) ≡ some z)
      × Has z (a ∷ cells)
      × ((c : MapLocation) → Has c (a ∷ cells) → c.x ≤ z.x)
last_cell lo a [] above =
    (a, refl, inl refl, λ c has. elim has [ inl e ↦ rw e (omega arith) | inr over ↦ elim over [ ] ])
last_cell lo a (b ∷ cells) above =
    let (z, e, has, most) = last_cell a.x b cells above.1 in
    (
      z,
      e,
      inr has,
      λ c has_c. elim has_c [
        | inl same ↦ let p = above.1.0 in let q = most b (inl refl) in rw same (omega arith)
        | inr later ↦ most c later
      ],
    )

-- The cells of `o` are the places between cells of the outline.
pub record IsHull (outline : List MapLocation) (o : Option (List MapLocation)) : Type 0 where
  pub cells : List MapLocation
  pub returns : o ≡ some cells
  pub all : (x y : ℕ) → IsBetween outline x y → Has (record { x = x; y = y }) cells
  pub only : (d : MapLocation) → Has d cells → IsBetween outline d.x d.y

move_between :
    (l r : List MapLocation)
    → ((c : MapLocation) → Has c l → Has c r)
    → (x y : ℕ) → IsBetween l x y
    → IsBetween r x y
move_between l r there x y b = record {
  low = b.low;
  high = b.high;
  has_low = there b.low b.has_low;
  has_high = there b.high b.has_high;
  low_x = b.low_x;
  high_x = b.high_x;
  low_y = b.low_y;
  high_y = b.high_y;
}

itself : (l : List MapLocation) (d : MapLocation) → Has d l → IsBetween l d.x d.y
itself l d has = record {
  low = d;
  high = d;
  has_low = has;
  has_high = has;
  low_x = refl;
  high_x = refl;
  low_y = omega arith;
  high_y = omega arith;
}

-- All columns of ordered cells that have two in each.
fill_all :
    (a z : MapLocation) (cells : List MapLocation)
    → IsAbove 0 (a ∷ cells)
    → Has z (a ∷ cells)
    → ((c : MapLocation) → Has c (a ∷ cells) → c.x ≤ z.x)
    → ((x : ℕ) → a.x ≤ x → x ≤ z.x → 2 ≤ cells_in x (a ∷ cells))
    → IsHull (a ∷ cells) (fill_columns (z.x + 1 - a.x) a.x 0 (a ∷ cells))
fill_all a z cells above has_z most two =
    let start : Filled (a ∷ cells) a.x [] = record {
      inside = λ c has. elim has [ ];
      all = λ x y b lt. absurd (
          let le = above_le a.x (a ∷ cells) b.low (omega arith, above.1) b.has_low in
          let e = b.low_x in omega arith);
    } in
    let g =
      fill_columns-Fills (a ∷ cells) (z.x + 1 - a.x) a.x [] (a ∷ cells) [] refl
        (omega arith, above.1) (λ c has. elim has [ ]) (λ x low high. two x low (omega arith))
        start in
    record {
      cells = (a ∷ cells) ++ g.pushed;
      returns = ap (fill_columns (z.x + 1 - a.x) a.x 0) (sym (append-nil (a ∷ cells))) ∙ g.returns;
      all = λ x y b. g.filled.all x y b (
          let le = most b.low b.has_low in
          let e = b.low_x in let first = most a (inl refl) in omega arith);
      only = λ d has. elim (Has-append d (a ∷ cells) g.pushed has) [
        | inl old ↦ itself (a ∷ cells) d old
        | inr new ↦ (g.filled.inside d new).0
      ];
    }

module _ {D : Type 0} (fl : Floats D) (exact : ExactCounts fl) (c : Costmap D) (v : IsValid c)
    (narrow : (c.size_x ≤ int_mod) × (c.size_y ≤ int_mod)) (p q r : MapLocation)
    (polygon : List MapLocation) (inside : AllIn c (p ∷ q ∷ r ∷ polygon)) where
  outline : List MapLocation
  outline = edges fl c p p (q ∷ r ∷ polygon)

  -- The method, step by step.
  steps :
      (first : MapLocation) (rest : List MapLocation) (a : MapLocation) (cells : List MapLocation)
      (z : MapLocation)
      → outline ≡ first ∷ rest
      → (let n = length (first ∷ rest) in
          sort_by_x (suc (2 * (n * n) + n)) [] (first ∷ rest) ≡ some (a ∷ cells))
      → get_elem? (a ∷ cells) (length cells) ≡ some z
      → convex_fill_cells fl c (p ∷ q ∷ r ∷ polygon) []
        ≡ fill_columns (z.x + 1 - a.x) a.x 0 (a ∷ cells)
  unfolding convex_fill_cells polygon_outline_cells outline
  steps first rest a cells z e sorted last =
      let three : ltb (length (p ∷ q ∷ r ∷ polygon)) 3 ≡ false = ground arith in
      let end : length (a ∷ cells) - 1 ≡ length cells = omega arith in
      rw (three, e, sorted, end, last) refl

  ordered-IsHull :
      (first : MapLocation) (rest l : List MapLocation)
      → outline ≡ first ∷ rest
      → (let n = length (first ∷ rest) in
          sort_by_x (suc (2 * (n * n) + n)) [] (first ∷ rest) ≡ some l)
      → IsAbove 0 l
      → Alike outline l
      → IsHull outline (convex_fill_cells fl c (p ∷ q ∷ r ∷ polygon) [])
  unfolding outline
  ordered-IsHull first rest [] e sorted above alike =
      absurd (alike.there first (subst (Has first) (sym e) (inl refl)))
  ordered-IsHull first rest (a ∷ cells) e sorted above alike =
      let (z, last, has_z, most) = last_cell 0 a cells above in
      let close = λ (d : MapLocation) (has : Has d (a ∷ cells)).
        edges-Enclosed fl exact c v narrow (p ∷ q ∷ r ∷ polygon) p p (q ∷ r ∷ polygon) inside.0
          inside.0 inside.1 (inl refl) (inl refl) (λ i has_i. inr has_i) d (alike.back d has) in
      let left = close a (inl refl) in
      let right = close z has_z in
      let g = fill_all a z cells above has_z most (λ x low high.
        subst (λ n. 2 ≤ n) (alike.sums (at_column x))
          (crossed_between fl exact c v narrow p q left.left right.right (r ∷ polygon) x inside
            left.has_left right.has_right (let le = left.left_x in omega arith)
            (let le = right.right_x in omega arith))) in
      record {
        cells = g.cells;
        returns = steps first rest a cells z e sorted last ∙ g.returns;
        all = λ x y b. g.all x y (move_between outline (a ∷ cells) alike.there x y b);
        only = λ d has. move_between (a ∷ cells) outline alike.back d.x d.y (g.only d has);
      }

  -- Three corners or more.
  pub convex_fill_cells-IsHull :
      IsHull (edges fl c p p (q ∷ r ∷ polygon)) (convex_fill_cells fl c (p ∷ q ∷ r ∷ polygon) [])
  unfolding outline
  convex_fill_cells-IsHull = go (edges fl c p p (q ∷ r ∷ polygon)) refl
    where
      go :
          (l : List MapLocation)
          → edges fl c p p (q ∷ r ∷ polygon) ≡ l
          → IsHull
              (edges fl c p p (q ∷ r ∷ polygon))
              (convex_fill_cells fl c (p ∷ q ∷ r ∷ polygon) [])
      go [] e = absurd (
          let two =
            crossed_between fl exact c v narrow p q p p (r ∷ polygon) p.x inside (inl refl)
              (inl refl) (omega arith) (omega arith) in
          let none_there = ap (cells_in p.x) e in omega arith)
      go (first ∷ rest) e =
          let s = sort_all first rest in
          ordered-IsHull first rest s.result e s.returns s.ordered
            (subst (λ m. Alike m s.result) (sym e) s.alike)
