-- ===== src/Polygon/Columns.antt =====
-- The loop over the columns gives each column the cells between its lowest and its highest one.
use rosnavigation2copy.Prelude.{
  ℕ, zero, suc, ◌+◌, ◌≤◌, ◌<◌, ◌≡◌, ◌⊎◌, refl, ap, sym, ◌∙◌, Bool-cases, inl, inr, Option, none,
  some, List, [], ◌∷◌, ◌++◌, length, length-append, get_elem?, arith, ltb, ◌==◌, ==_iff, false,
}
use mathlib.Core.Path.{subst}
use rosnavigation2copy.Polygon.{MapLocation, Span, widen_span, rest_of_column}
use rosnavigation2copy.Polygon.Cells.{Has, has_right, cells_in, IsAbove, none_above}

-- The place (x, y) is between two of the cells, in their column.
pub record IsBetween (cells : List MapLocation) (x y : ℕ) : Type 0 where
  pub low : MapLocation
  pub high : MapLocation
  pub has_low : Has low cells
  pub has_high : Has high cells
  pub low_x : low.x ≡ x
  pub high_x : high.x ≡ x
  pub low_y : low.y ≤ y
  pub high_y : y ≤ high.y

-- The first cell of a list with a cell in the column `x`, and none before it.
pub first_in :
    (x : ℕ) (r : List MapLocation)
    → IsAbove x r
    → 1 ≤ cells_in x r
    → (a : MapLocation) × (r' : List MapLocation) × (r ≡ a ∷ r')
      × (a.x ≡ x)
      × IsAbove x r'
      × (cells_in x r ≡ cells_in x r' + 1)
first_in x [] above some_in = absurd (omega arith)
first_in x (a ∷ r') above some_in = elim (Bool-cases (a.x == x)) [
  | inl t ↦
      let e = (==_iff a.x x).0 t in
      (a, r', refl, e, subst (λ n. IsAbove n r') e above.1, rw t (omega arith))
  | inr f ↦
      let lt : x < a.x = let p = above.0 in ground (arith, f) in
      absurd (let n = none_above x a.x (a ∷ r') lt (omega arith, above.1) in omega arith)
]

pub read_at :
    (pre : List MapLocation) (a : MapLocation) (r pushed : List MapLocation)
    → get_elem? ((pre ++ (a ∷ r)) ++ pushed) (length pre) ≡ some a
read_at [] a r pushed = refl
read_at (p ∷ pre) a r pushed = read_at pre a r pushed

read_past :
    (pre pushed : List MapLocation)
    → get_elem? ((pre ++ []) ++ pushed) (length pre) ≡ get_elem? pushed 0
read_past [] pushed = refl
read_past (p ∷ pre) pushed = read_past pre pushed

pub next_cell :
    (pre : List MapLocation) (a : MapLocation) (r : List MapLocation)
    → pre ++ (a ∷ r) ≡ (pre ++ (a ∷ [])) ++ r
next_cell [] a r = refl
next_cell (p ∷ pre) a r = ap (◌∷◌ p) (next_cell pre a r)

pub length-next :
    (pre : List MapLocation) (a : MapLocation) → length (pre ++ (a ∷ [])) ≡ length pre + 1
length-next pre a = length-append pre (a ∷ [])

pub has_next :
    (c : MapLocation) (pre : List MapLocation) (a : MapLocation)
    → Has c (pre ++ (a ∷ []))
    → Has c pre ⊎ (c ≡ a)
has_next c [] a (inl e) = inr e
has_next c [] a (inr has) = elim has [ ]
has_next c (p ∷ pre) a (inl e) = inl (inl e)
has_next c (p ∷ pre) a (inr has) = elim (has_next c pre a has) [
  | inl before ↦ inl (inr before)
  | inr e ↦ inr e
]

-- The span is that of the cells of the column `x` in `pre`, and its ends are cells of `l`.
pub record Spans (l : List MapLocation) (x : ℕ) (pre : List MapLocation) (s : Span) : Type 0 where
  pub low : Has s.min_pt l
  pub high : Has s.max_pt l
  pub low_x : s.min_pt.x ≡ x
  pub high_x : s.max_pt.x ≡ x
  pub covers : (c : MapLocation) → Has c pre → c.x ≡ x → (s.min_pt.y ≤ c.y) × (c.y ≤ s.max_pt.y)

widen-Spans :
    (l : List MapLocation) (x : ℕ) (pre : List MapLocation) (s : Span) (a : MapLocation)
    → s.min_pt.y ≤ s.max_pt.y
    → Spans l x pre s
    → Has a l
    → a.x ≡ x
    → Spans l x (pre ++ (a ∷ [])) (widen_span s a)
      × ((widen_span s a).min_pt.y ≤ (widen_span s a).max_pt.y)
unfolding widen_span
widen-Spans l x pre s a le v has e = elim (Bool-cases (ltb a.y s.min_pt.y)) [
  | inl t ↦ rw t (
    record {
      low = has;
      high = v.high;
      low_x = e;
      high_x = v.high_x;
      covers = λ c has_c ec. elim (has_next c pre a has_c) [
        | inl before ↦ let p = v.covers c before ec in (ground arith, p.1)
        | inr same ↦ rw same (omega arith, ground arith)
      ];
    },
    ground arith,
  )
  | inr f ↦ elim (Bool-cases (ltb s.max_pt.y a.y)) [
    | inl t ↦
        rw (f, t)
          (
            record {
              low = v.low;
              high = has;
              low_x = v.low_x;
              high_x = e;
              covers = λ c has_c ec. elim (has_next c pre a has_c) [
                | inl before ↦ let p = v.covers c before ec in (p.0, ground arith)
                | inr same ↦ rw same (ground arith, omega arith)
              ];
            },
            ground arith,
          )
    | inr f' ↦
        rw (f, f')
          (
            record {
              low = v.low;
              high = v.high;
              low_x = v.low_x;
              high_x = v.high_x;
              covers = λ c has_c ec. elim (has_next c pre a has_c) [
                | inl before ↦ v.covers c before ec
                | inr same ↦ rw same (ground arith, ground arith)
              ];
            },
            le,
          )
  ]
]

-- After the cells of the column `x` the vector has `pre`, and `rest` from i on.
pub record Column (l : List MapLocation) (x : ℕ) (o : Option (ℕ × Span)) : Type 0 where
  pub pre : List MapLocation
  pub rest : List MapLocation
  pub span : Span
  pub split : l ≡ pre ++ rest
  pub returns : o ≡ some (length pre, span)
  pub above : IsAbove (x + 1) rest
  pub low_high : span.min_pt.y ≤ span.max_pt.y
  pub spans : Spans l x pre span
  pub passed : (c : MapLocation) → Has c pre → c.x < x + 1

pub pass :
    (x : ℕ) (pre : List MapLocation) (a : MapLocation)
    → a.x ≡ x
    → ((c : MapLocation) → Has c pre → c.x < x + 1)
    → (c : MapLocation) → Has c (pre ++ (a ∷ []))
    → c.x < x + 1
pass x pre a e passed c has = elim (has_next c pre a has) [
  | inl before ↦ passed c before
  | inr same ↦ rw same (omega arith)
]

-- Nothing that is pushed so far is in the column.
abbrev pub Earlier : ℕ → List MapLocation → Type 0
Earlier x pushed = (c : MapLocation) → Has c pushed → c.x < x

head_cases :
    (x : ℕ) (pushed : List MapLocation)
    → Earlier x pushed
    → (get_elem? pushed 0 ≡ none)
      ⊎ ((p : MapLocation) × (get_elem? pushed 0 ≡ some p) × ((p.x == x) ≡ false))
head_cases x [] earlier = inl refl
head_cases x (p ∷ pushed) earlier = inr (p, refl, let lt = earlier p (inl refl) in ground arith)

module _ (l : List MapLocation) (x : ℕ) (pushed : List MapLocation)
    (earlier : Earlier x pushed) where
  stops :
      (fuel i : ℕ) (s : Span) (cells : List MapLocation)
      → get_elem? cells i ≡ get_elem? pushed 0
      → rest_of_column (suc fuel) x i s cells ≡ some (i, s)
  unfolding rest_of_column
  stops fuel i s cells e = elim (head_cases x pushed earlier) [
    | inl over ↦ rw (rest_of_column, e, over) refl
    | inr (p, there, f) ↦ rw (rest_of_column, e, there, f) refl
  ]

  pub column :
      (fuel : ℕ) (pre r : List MapLocation) (s : Span)
      → l ≡ pre ++ r
      → length r < fuel
      → IsAbove x r
      → s.min_pt.y ≤ s.max_pt.y
      → Spans l x pre s
      → ((c : MapLocation) → Has c pre → c.x < x + 1)
      → Column l x (rest_of_column fuel x (length pre) s (l ++ pushed))
  unfolding rest_of_column
  column zero pre r s e lt above le v passed = absurd (omega arith)
  column (suc fuel) pre [] s e lt above le v passed = record {
    pre = pre;
    rest = [];
    span = s;
    split = e;
    returns =
        stops fuel (length pre) s (l ++ pushed)
          (ap (λ m. get_elem? (m ++ pushed) (length pre)) e ∙ read_past pre pushed);
    above = tt;
    low_high = le;
    spans = v;
    passed = passed;
  }
  column (suc fuel) pre (a ∷ r) s e lt above le v passed =
      let got : get_elem? (l ++ pushed) (length pre) ≡ some a =
        ap (λ m. get_elem? (m ++ pushed) (length pre)) e ∙ read_at pre a r pushed in
      elim (Bool-cases (a.x == x)) [
        | inl t ↦
            let ex = (==_iff a.x x).0 t in
            let has : Has a l = subst (Has a) (sym e) (has_right a pre (a ∷ r) (inl refl)) in
            let w = widen-Spans l x pre s a le v has ex in
            let g =
              column fuel (pre ++ (a ∷ [])) r (widen_span s a) (e ∙ next_cell pre a r) (omega arith)
                (subst (λ n. IsAbove n r) ex above.1) w.1 w.0 (pass x pre a ex passed) in
            record {
              pre = g.pre;
              rest = g.rest;
              span = g.span;
              split = g.split;
              returns = rw (rest_of_column, got, t, sym (length-next pre a)) g.returns;
              above = g.above;
              low_high = g.low_high;
              spans = g.spans;
              passed = g.passed;
            }
        | inr f ↦ record {
          pre = pre;
          rest = a ∷ r;
          span = s;
          split = e;
          returns = rw (rest_of_column, got, f) refl;
          above = (let p = above.0 in ground (arith, f), above.1);
          low_high = le;
          spans = v;
          passed = passed;
        }
      ]
