-- ===== src/Polygon/Cells.antt =====
-- Cells in a list, sums over their columns, and lists that are ordered by columns.
use rosnavigation2copy.Prelude.{
  ℕ, ◌+◌, ◌≤◌, ◌<◌, ◌≡◌, ◌⊎◌, inl, inr, refl, ap, ◌∙◌, List, [], ◌∷◌, ◌++◌, arith, ltb, ◌==◌,
  if◌then◌else◌,
}
use rosnavigation2copy.Polygon.{MapLocation}

abbrev pub Has : MapLocation → List MapLocation → Type 0
Has c [] = ⊥
Has c (d ∷ cells) = (c ≡ d) ⊎ Has c cells

pub has_left : (c : MapLocation) (l r : List MapLocation) → Has c l → Has c (l ++ r)
has_left c [] r has = elim has [ ]
has_left c (d ∷ l) r (inl e) = inl e
has_left c (d ∷ l) r (inr has) = inr (has_left c l r has)

pub has_right : (c : MapLocation) (l r : List MapLocation) → Has c r → Has c (l ++ r)
has_right c [] r has = has
has_right c (d ∷ l) r has = inr (has_right c l r has)

pub Has-append : (c : MapLocation) (l r : List MapLocation) → Has c (l ++ r) → Has c l ⊎ Has c r
Has-append c [] r has = inr has
Has-append c (d ∷ l) r (inl e) = inl (inl e)
Has-append c (d ∷ l) r (inr has) = elim (Has-append c l r has) [
  | inl left ↦ inl (inr left)
  | inr right ↦ inr right
]

-- The sum of `f` over the columns of the cells.
abbrev pub tally : (ℕ → ℕ) → List MapLocation → ℕ
tally f [] = 0
tally f (c ∷ cells) = f c.x + tally f cells

pub tally-append : (f : ℕ → ℕ) (l r : List MapLocation) → tally f (l ++ r) ≡ tally f l + tally f r
tally-append f [] r = omega arith
tally-append f (c ∷ l) r = omega (arith, tally-append f l r)

-- One for the column.
abbrev pub at_column : ℕ → ℕ → ℕ
at_column x n = if n == x then 1 else 0

-- One for the columns before it.
abbrev pub before_column : ℕ → ℕ → ℕ
before_column x n = if ltb n x then 1 else 0

abbrev pub cells_in : ℕ → List MapLocation → ℕ
cells_in x = tally (at_column x)

-- Ordered by columns, from `lo` on.
abbrev pub IsAbove : ℕ → List MapLocation → Type 0
IsAbove lo [] = Unit {0}
IsAbove lo (c ∷ cells) = (lo ≤ c.x) × IsAbove c.x cells

pub IsAbove-weaken :
    (n m : ℕ) (cells : List MapLocation) → n ≤ m → IsAbove m cells → IsAbove n cells
IsAbove-weaken n m [] le above = tt
IsAbove-weaken n m (c ∷ cells) le above = (let p = above.0 in omega arith, above.1)

pub above_le :
    (lo : ℕ) (cells : List MapLocation) (c : MapLocation)
    → IsAbove lo cells
    → Has c cells
    → lo ≤ c.x
above_le lo [] c above has = elim has [ ]
above_le lo (d ∷ cells) c above (inl e) = rw e above.0
above_le lo (d ∷ cells) c above (inr has) =
    let p = above.0 in omega (arith, above_le d.x cells c above.1 has)

pub none_above :
    (x lo : ℕ) (cells : List MapLocation) → x < lo → IsAbove lo cells → cells_in x cells ≡ 0
none_above x lo [] lt above = refl
none_above x lo (c ∷ cells) lt above =
    let p = above.0 in ground (arith, none_above x c.x cells (omega arith) above.1)

pub none_before :
    (x : ℕ) (cells : List MapLocation)
    → ((c : MapLocation) → Has c cells → c.x < x)
    → cells_in x cells ≡ 0
none_before x [] before = refl
none_before x (c ∷ cells) before =
    let p = before c (inl refl) in ground (arith, none_before x cells (λ d has. before d (inr has)))

-- The same cells, in another order.
pub record Alike (l r : List MapLocation) : Type 0 where
  pub there : (c : MapLocation) → Has c l → Has c r
  pub back : (c : MapLocation) → Has c r → Has c l
  pub sums : (f : ℕ → ℕ) → tally f l ≡ tally f r

pub Alike-refl : (l : List MapLocation) → Alike l l
Alike-refl l = record { there = λ c has. has; back = λ c has. has; sums = λ f. refl }

pub Alike-trans : (l m r : List MapLocation) → Alike l m → Alike m r → Alike l r
Alike-trans l m r a b = record {
  there = λ c has. b.there c (a.there c has);
  back = λ c has. a.back c (b.back c has);
  sums = λ f. a.sums f ∙ b.sums f;
}

pub Alike-cons : (c : MapLocation) (l r : List MapLocation) → Alike l r → Alike (c ∷ l) (c ∷ r)
Alike-cons c l r a = record {
  there = λ d has. elim has [ inl e ↦ inl e | inr has' ↦ inr (a.there d has') ];
  back = λ d has. elim has [ inl e ↦ inl e | inr has' ↦ inr (a.back d has') ];
  sums = λ f. ap (λ n. f c.x + n) (a.sums f);
}

swapped : (c a b : MapLocation) (r : List MapLocation) → Has c (a ∷ b ∷ r) → Has c (b ∷ a ∷ r)
swapped c a b r (inl e) = inr (inl e)
swapped c a b r (inr (inl e)) = inl e
swapped c a b r (inr (inr has)) = inr (inr has)

pub Alike-swap : (a b : MapLocation) (r : List MapLocation) → Alike (a ∷ b ∷ r) (b ∷ a ∷ r)
Alike-swap a b r = record {
  there = λ c. swapped c a b r;
  back = λ c. swapped c b a r;
  sums = λ f. omega arith;
}
