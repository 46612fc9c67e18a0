-- ===== src/Polygon/Sorting.antt =====
-- The sort ends, and puts the cells in the order of their columns.
use rosnavigation2copy.Prelude.{
  ℕ, zero, suc, ◌+◌, ◌*◌, ◌≤◌, ◌<◌, ◌≡◌, refl, Bool-cases, inl, inr, Option, some, List, [], ◌∷◌,
  length, arith, ltb, ltb→lt, false,
}
use rosnavigation2copy.Polygon.{MapLocation, rev_append, sort_step, sort_by_x}
use rosnavigation2copy.Polygon.Cells.{
  tally, before_column, IsAbove, IsAbove-weaken, Alike, Alike-refl, Alike-trans, Alike-cons,
  Alike-swap,
}

-- The pairs of cells in the wrong order.
abbrev inversions : List MapLocation → ℕ
inversions [] = 0
inversions (c ∷ cells) = tally (before_column c.x) cells + inversions cells

tally-le : (n : ℕ) (cells : List MapLocation) → tally (before_column n) cells ≤ length cells
tally-le n [] = omega arith
tally-le n (c ∷ cells) = ground (arith, tally-le n cells)

square : (n : ℕ) → suc n * suc n ≡ n * n + n + n + 1
square n = grind arith

inversions-le : (cells : List MapLocation) → inversions cells ≤ length cells * length cells
inversions-le [] = omega arith
inversions-le (c ∷ cells) =
    omega (arith, tally-le c.x cells, inversions-le cells, square (length cells))

not_ltb : (a b : ℕ) → ltb a b ≡ false → b ≤ a
not_ltb a b e = ground arith

-- Before i the cells are in order, the last ones first.
abbrev Descends : ℕ → List MapLocation → Type 0
Descends hi [] = Unit {0}
Descends hi (p ∷ before) = (p.x ≤ hi) × Descends p.x before

rev_append-Alike :
    (before l r : List MapLocation) → Alike l r → Alike (rev_append before l) (rev_append before r)
unfolding rev_append
rev_append-Alike [] l r a = a
rev_append-Alike (p ∷ before) l r a = rev_append-Alike before (p ∷ l) (p ∷ r) (Alike-cons p l r a)

rev_append-inversions :
    (before l r : List MapLocation)
    → Alike l r
    → inversions l ≡ inversions r + 1
    → inversions (rev_append before l) ≡ inversions (rev_append before r) + 1
unfolding rev_append
rev_append-inversions [] l r a e = e
rev_append-inversions (p ∷ before) l r a e =
    rev_append-inversions before (p ∷ l) (p ∷ r) (Alike-cons p l r a)
      (omega (arith, a.sums (before_column p.x)))

swap_down :
    (a b : MapLocation) (r : List MapLocation)
    → b.x < a.x
    → inversions (a ∷ b ∷ r) ≡ inversions (b ∷ a ∷ r) + 1
swap_down a b r lt = ground arith

rev_append-IsAbove :
    (before after : List MapLocation) (hi : ℕ)
    → Descends hi before
    → IsAbove hi after
    → IsAbove 0 (rev_append before after)
unfolding rev_append
rev_append-IsAbove [] after hi d above = IsAbove-weaken 0 hi after (omega arith) above
rev_append-IsAbove (p ∷ before) after hi d above =
    rev_append-IsAbove before (p ∷ after) p.x d.1
      (omega arith, IsAbove-weaken p.x hi after d.0 above)

-- `o` is a list of the same cells as `cells`, in the order of their columns.
pub record Sorts (cells : List MapLocation) (o : Option (List MapLocation)) : Type 0 where
  pub result : List MapLocation
  pub returns : o ≡ some result
  pub ordered : IsAbove 0 result
  pub alike : Alike cells result

along_Alike :
    {l r : List MapLocation} {o : Option (List MapLocation)} → Alike l r → Sorts r o → Sorts l o
along_Alike {l} {r} a s = record {
  result = s.result;
  returns = s.returns;
  ordered = s.ordered;
  alike = Alike-trans l r s.result a s.alike;
}

-- With more fuel than two rounds for each pair in the wrong order and one for each cell from i on.
sort_by_x-Sorts :
    (fuel : ℕ) (before : List MapLocation) (a : MapLocation) (after : List MapLocation)
    → 2 * inversions (rev_append before (a ∷ after)) + length after < fuel
    → Descends a.x before
    → Sorts (rev_append before (a ∷ after)) (sort_by_x fuel before (a ∷ after))
unfolding sort_by_x sort_step rev_append
sort_by_x-Sorts zero before a after lt d = absurd (omega arith)
sort_by_x-Sorts (suc fuel) before a [] lt d = record {
  result = rev_append before (a ∷ []);
  returns = refl;
  ordered = rev_append-IsAbove before (a ∷ []) a.x d (omega arith, tt);
  alike = Alike-refl _;
}
sort_by_x-Sorts (suc fuel) [] a (b ∷ after) lt d = elim (Bool-cases (ltb b.x a.x)) [
  | inl t ↦ rw t (
      along_Alike (Alike-swap a b after) (
        sort_by_x-Sorts fuel [] b (a ∷ after) (omega (arith, swap_down a b after (ltb→lt _ _ t)))
          tt))
  | inr f ↦ rw f (sort_by_x-Sorts fuel (a ∷ []) b after (omega arith) (not_ltb _ _ f, tt))
]
sort_by_x-Sorts (suc fuel) (p ∷ before) a (b ∷ after) lt d = elim (Bool-cases (ltb b.x a.x)) [
  | inl t ↦
      let swap = Alike-cons p _ _ (Alike-swap a b after) in
      let down =
        rev_append-inversions before (p ∷ a ∷ b ∷ after) (p ∷ b ∷ a ∷ after) swap
          (omega (arith, swap_down a b after (ltb→lt _ _ t))) in
      rw t (
        along_Alike (rev_append-Alike before _ _ swap)
          (sort_by_x-Sorts fuel before p (b ∷ a ∷ after) (omega arith) d.1))
  | inr f ↦ rw f (sort_by_x-Sorts fuel (a ∷ p ∷ before) b after (omega arith) (not_ltb _ _ f, d))
]

-- The fuel of `convex_fill_cells` is enough.
pub sort_all :
    (a : MapLocation) (cells : List MapLocation)
    → let n = length (a ∷ cells) in
      Sorts (a ∷ cells) (sort_by_x (suc (2 * (n * n) + n)) [] (a ∷ cells))
unfolding rev_append
sort_all a cells = sort_by_x-Sorts _ [] a cells (omega (arith, inversions-le (a ∷ cells))) tt
