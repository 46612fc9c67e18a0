-- ===== src/Polygon/Filling.antt =====
-- What a column gets, and what all columns so far have got.
use rosnavigation2copy.Prelude.{
  ℕ, zero, suc, ◌+◌, ◌-◌, ◌≤◌, ◌<◌, ◌≡◌, ◌⊎◌, refl, ap, sym, ◌∙◌, Bool-cases, inl, inr, List, [],
  ◌∷◌, ◌++◌, arith, ltb,
}
use mathlib.Core.List.{append_assoc}
use mathlib.Core.Path.{subst}
use native.Mathlib.Decide.{dec_lt}
use rosnavigation2copy.Polygon.{MapLocation, Span, first_span, column_cells}
use rosnavigation2copy.Polygon.Cells.{
  Has, has_left, has_right, Has-append, tally-append, at_column, cells_in, IsAbove, above_le,
  none_before,
}
use rosnavigation2copy.Polygon.Columns.{IsBetween, first_in, Spans, has_next}

-- What the columns before `x` have been given, for the ordered cells `l` of the outline.
pub record Filled (l : List MapLocation) (x : ℕ) (pushed : List MapLocation) : Type 0 where
  pub inside : (c : MapLocation) → Has c pushed → IsBetween l c.x c.y × (c.x < x)
  pub all : (x' y : ℕ) → IsBetween l x' y → x' < x → Has (record { x = x'; y = y }) (l ++ pushed)

column_cells-place :
    (n x y : ℕ) (c : MapLocation)
    → Has c (column_cells n x y)
    → (c.x ≡ x) × (y ≤ c.y) × (c.y < y + n)
unfolding column_cells
column_cells-place zero x y c has = elim has [ ]
column_cells-place (suc n) x y c (inl e) = rw e (refl, omega arith, omega arith)
column_cells-place (suc n) x y c (inr has) =
    let (e, low, high) = column_cells-place n x (y + 1) c has in (e, omega arith, omega arith)

column_cells-Has :
    (n x y y' : ℕ) → y ≤ y' → y' < y + n → Has (record { x = x; y = y' }) (column_cells n x y)
unfolding column_cells
column_cells-Has zero x y y' low high = absurd (omega arith)
column_cells-Has (suc n) x y y' low high = elim (dec_lt y y') [
  | yes lt ↦ inr (column_cells-Has n x (y + 1) y' (omega arith) (omega arith))
  | no ge ↦ let e : y' ≡ y = omega arith in inl (ap (λ i. record { x = x; y = i }) e)
]

pub first-Spans :
    (l : List MapLocation) (x : ℕ) (pre : List MapLocation) (a b : MapLocation)
    → ((c : MapLocation) → Has c pre → c.x < x)
    → Has a l
    → Has b l
    → a.x ≡ x
    → b.x ≡ x
    → Spans l x ((pre ++ (a ∷ [])) ++ (b ∷ [])) (first_span a b)
      × ((first_span a b).min_pt.y ≤ (first_span a b).max_pt.y)
unfolding first_span
first-Spans l x pre a b before has_a has_b ea eb =
    let known = λ (c : MapLocation) (has : Has c ((pre ++ (a ∷ [])) ++ (b ∷ []))) (e : c.x ≡ x).
      two_cases c e has in
    elim (Bool-cases (ltb a.y b.y)) [
      | inl t ↦ rw t (
        record {
          low = has_a;
          high = has_b;
          low_x = ea;
          high_x = eb;
          covers = λ c has e. elim (known c has e) [
            | inl same ↦ rw same (omega arith, ground arith)
            | inr same ↦ rw same (ground arith, omega arith)
          ];
        },
        ground arith,
      )
      | inr f ↦ rw f (
        record {
          low = has_b;
          high = has_a;
          low_x = eb;
          high_x = ea;
          covers = λ c has e. elim (known c has e) [
            | inl same ↦ rw same (ground arith, omega arith)
            | inr same ↦ rw same (omega arith, ground arith)
          ];
        },
        ground arith,
      )
    ]
  where
    two_cases :
        (c : MapLocation) → c.x ≡ x → Has c ((pre ++ (a ∷ [])) ++ (b ∷ [])) → (c ≡ a) ⊎ (c ≡ b)
    two_cases c e has = elim (has_next c (pre ++ (a ∷ [])) b has) [
      | inr same ↦ inr same
      | inl has' ↦ elim (has_next c pre a has') [
        | inr same ↦ inl same
        | inl old ↦ absurd (let lt = before c old in omega arith)
      ]
    ]

module _ (l : List MapLocation) (x : ℕ) (pre r : List MapLocation) (e : l ≡ pre ++ r)
    (before : (c : MapLocation) → Has c pre → c.x < x) where
  -- The two cells at i, of a column that has two.
  pub two_cells :
      IsAbove x r
      → 2 ≤ cells_in x l
      → (a : MapLocation) × (b : MapLocation) × (r' : List MapLocation) × (r ≡ a ∷ b ∷ r')
        × (a.x ≡ x)
        × (b.x ≡ x)
        × IsAbove x r'
  two_cells above two =
      let here : cells_in x l ≡ cells_in x pre + cells_in x r =
        ap (cells_in x) e ∙ tally-append (at_column x) pre r in
      let gone = none_before x pre before in
      let (a, r1, e1, xa, above1, n1) = first_in x r above (omega arith) in
      let (b, r2, e2, xb, above2, n2) = first_in x r1 above1 (omega arith) in
      (a, b, r2, e1 ∙ ap (◌∷◌ a) e2, xa, xb, above2)

-- A column that is done gets the cells of its span.
pub fill-Filled :
    (l : List MapLocation) (x : ℕ) (pushed pre rest : List MapLocation) (s : Span)
    → Filled l x pushed
    → l ≡ pre ++ rest
    → IsAbove (x + 1) rest
    → s.min_pt.y ≤ s.max_pt.y
    → Spans l x pre s
    → Filled l (x + 1) (pushed ++ column_cells (s.max_pt.y - s.min_pt.y) x s.min_pt.y)
fill-Filled l x pushed pre rest s f e above le v =
    let new = column_cells (s.max_pt.y - s.min_pt.y) x s.min_pt.y in
    record {
      inside = λ c has. elim (Has-append c pushed new has) [
        | inl old ↦ let p = f.inside c old in (p.0, (let lt = p.1 in omega arith))
        | inr here ↦
            let (ex, low, high) = column_cells-place _ x s.min_pt.y c here in
            (
              record {
                low = s.min_pt;
                high = s.max_pt;
                has_low = v.low;
                has_high = v.high;
                low_x = v.low_x ∙ sym ex;
                high_x = v.high_x ∙ sym ex;
                low_y = low;
                high_y = omega arith;
              },
              omega arith,
            )
      ];
      all = λ x' y b lt. elim (dec_lt x' x) [
        | yes earlier ↦
            subst (Has _) (append_assoc l pushed new)
              (has_left _ (l ++ pushed) new (f.all x' y b earlier))
        | no now ↦ in_column x' y b (omega arith)
      ];
    }
  where
    on_left : (c : MapLocation) → Has c l → c.x ≡ x → (s.min_pt.y ≤ c.y) × (c.y ≤ s.max_pt.y)
    on_left c has ex = elim (Has-append c pre rest (subst (Has c) e has)) [
      | inl left ↦ v.covers c left ex
      | inr right ↦ absurd (let lt = above_le (x + 1) rest c above right in omega arith)
    ]

    in_column :
        (x' y : ℕ)
        → IsBetween l x' y
        → x' ≡ x
        → Has
            (record { x = x'; y = y })
            (l ++ (pushed ++ column_cells (s.max_pt.y - s.min_pt.y) x s.min_pt.y))
    in_column x' y b ex =
        let low = (on_left b.low b.has_low (b.low_x ∙ ex)).0 in
        let high = (on_left b.high b.has_high (b.high_x ∙ ex)).1 in
        let low_y = b.low_y in
        let high_y = b.high_y in
        elim (dec_lt y s.max_pt.y) [
          | yes lt ↦ rw ex (
              has_right _ l _ (
                has_right _ pushed _
                  (column_cells-Has _ x s.min_pt.y y (omega arith) (omega arith))))
          | no top ↦
              let ey : y ≡ s.max_pt.y = omega arith in
              has_left _ l _ (rw (ex, ey) (rw (sym v.high_x) v.high))
        ]
