-- ===== src/Polygon/Loop.antt =====
-- The loop over all columns, one after the other.
use rosnavigation2copy.Prelude.{
  ℕ, zero, suc, ◌+◌, ◌-◌, ◌≤◌, ◌<◌, ◌≡◌, refl, ap, sym, ◌∙◌, inl, inr, Option, some, List, [], ◌∷◌,
  ◌++◌, length, length-append, get_elem?, arith, leb, false,
}
use mathlib.Core.List.{append_assoc}
use mathlib.Core.Path.{subst}
use rosnavigation2copy.Polygon.{
  MapLocation, Span, first_span, rest_of_column, column_cells, fill_columns,
}
use rosnavigation2copy.Polygon.Cells.{Has, has_right, cells_in, IsAbove}
use rosnavigation2copy.Polygon.Columns.{read_at, next_cell, length-next, Column, pass, column}
use rosnavigation2copy.Polygon.Filling.{Filled, fill-Filled, first-Spans, two_cells}

room :
    (l pre pushed : List MapLocation) (a b : MapLocation) (r : List MapLocation)
    → l ≡ pre ++ (a ∷ b ∷ r)
    → leb (length (l ++ pushed) - 1) (length pre) ≡ false
room l pre pushed a b r e =
    let n = length-append l pushed in
    let m : length l ≡ length pre + length (a ∷ b ∷ r) =
      ap length e ∙ length-append pre (a ∷ b ∷ r) in
    ground arith

rest_le :
    (l pre pushed : List MapLocation) (a b : MapLocation) (r : List MapLocation)
    → l ≡ pre ++ (a ∷ b ∷ r)
    → length r < suc (length (l ++ pushed))
rest_le l pre pushed a b r e =
    let n = length-append l pushed in
    let m : length l ≡ length pre + length (a ∷ b ∷ r) =
      ap length e ∙ length-append pre (a ∷ b ∷ r) in
    omega arith

fill_columns-next :
    (columns x i : ℕ) (cells : List MapLocation) (a b : MapLocation) (i' : ℕ) (s : Span)
    → leb (length cells - 1) i ≡ false
    → get_elem? cells i ≡ some a
    → get_elem? cells (i + 1) ≡ some b
    → rest_of_column (suc (length cells)) x (i + 2) (first_span a b) cells ≡ some (i', s)
    → fill_columns (suc columns) x i cells
      ≡ fill_columns columns
          (x + 1)
          i'
          (cells ++ column_cells (s.max_pt.y - s.min_pt.y) x s.min_pt.y)
unfolding fill_columns
fill_columns-next columns x i cells a b i' s more got_a got_b rest =
    rw (fill_columns, more, got_a, got_b, rest) refl

-- What the loop makes of columns that have two cells each.
pub record Fills (l : List MapLocation) (x : ℕ) (o : Option (List MapLocation)) : Type 0 where
  pub pushed : List MapLocation
  pub returns : o ≡ some (l ++ pushed)
  pub filled : Filled l x pushed

pub fill_columns-Fills :
    (l : List MapLocation) (columns x : ℕ) (pre r pushed : List MapLocation)
    → l ≡ pre ++ r
    → IsAbove x r
    → ((c : MapLocation) → Has c pre → c.x < x)
    → ((x' : ℕ) → x ≤ x' → x' < x + columns → 2 ≤ cells_in x' l)
    → Filled l x pushed
    → Fills l (x + columns) (fill_columns columns x (length pre) (l ++ pushed))
unfolding fill_columns
fill_columns-Fills l zero x pre r pushed e above before two f = record {
  pushed = pushed;
  returns = refl;
  filled = subst (λ n. Filled l n pushed) (omega arith) f;
}
fill_columns-Fills l (suc columns) x pre r pushed e above before two f =
    let (a, b, r', er, xa, xb, above') =
      two_cells l x pre r e before above (two x (omega arith) (omega arith)) in
    let e1 : l ≡ pre ++ (a ∷ b ∷ r') = e ∙ ap (λ m. pre ++ m) er in
    let e2 : l ≡ (pre ++ (a ∷ [])) ++ (b ∷ r') = e1 ∙ next_cell pre a (b ∷ r') in
    let e3 : l ≡ ((pre ++ (a ∷ [])) ++ (b ∷ [])) ++ r' = e2 ∙ next_cell (pre ++ (a ∷ [])) b r' in
    let one = length-next pre a in
    let both : length ((pre ++ (a ∷ [])) ++ (b ∷ [])) ≡ length pre + 2 =
      length-next (pre ++ (a ∷ [])) b ∙ omega (arith, length-next pre a) in
    let has_a : Has a l = subst (Has a) (sym e1) (has_right a pre _ (inl refl)) in
    let has_b : Has b l = subst (Has b) (sym e1) (has_right b pre _ (inr (inl refl))) in
    let got_a : get_elem? (l ++ pushed) (length pre) ≡ some a =
      ap (λ m. get_elem? (m ++ pushed) (length pre)) e1 ∙ read_at pre a (b ∷ r') pushed in
    let got_b : get_elem? (l ++ pushed) (length pre + 1) ≡ some b =
      ap (λ n. get_elem? (l ++ pushed) n) (sym one)
      ∙ ap (λ m. get_elem? (m ++ pushed) (length (pre ++ (a ∷ [])))) e2
      ∙ read_at (pre ++ (a ∷ [])) b r' pushed in
    let s = first-Spans l x pre a b before has_a has_b xa xb in
    let early : (c : MapLocation) → Has c pre → c.x < x + 1 =
      λ c has. let lt = before c has in omega arith in
    let g : Column l x (
        rest_of_column (suc (length (l ++ pushed))) x (length pre + 2) (first_span a b)
          (l ++ pushed)) =
      rw (sym both) (
        column l x pushed (λ c has. (f.inside c has).1) (suc (length (l ++ pushed)))
          ((pre ++ (a ∷ [])) ++ (b ∷ [])) r' (first_span a b) e3 (rest_le l pre pushed a b r' e1)
          above' s.1 s.0 (pass x (pre ++ (a ∷ [])) b xb (pass x pre a xa early))) in
    let new = column_cells (g.span.max_pt.y - g.span.min_pt.y) x g.span.min_pt.y in
    let n =
      fill_columns-Fills l columns (x + 1) g.pre g.rest (pushed ++ new) g.split g.above g.passed
        (λ x' le lt. two x' (omega arith) (omega arith))
        (fill-Filled l x pushed g.pre g.rest g.span f g.split g.above g.low_high g.spans) in
    record {
      pushed = n.pushed;
      returns =
          fill_columns-next columns x (length pre) (l ++ pushed) a b (length g.pre) g.span
            (room l pre pushed a b r' e1) got_a got_b g.returns
          ∙ ap (fill_columns columns (x + 1) (length g.pre)) (append_assoc l pushed new)
          ∙ n.returns;
      filled = subst (λ i. Filled l i n.pushed) (omega arith) n.filled;
    }
