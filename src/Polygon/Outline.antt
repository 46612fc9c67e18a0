-- ===== src/Polygon/Outline.antt =====
-- The closed outline has two cells in each column that it spans.
use rosnavigation2copy.Prelude.{
  ℕ, ◌≤◌, ◌<◌, ◌⊎◌, refl, ap, sym, min, max, inl, inr, List, [], ◌∷◌, arith,
}
use native.Mathlib.Decide.{dec_lt, dec_le}
use rosnavigation2copy.Prelude.Int.{int_mod}
use rosnavigation2copy.Platform.{Floats, ExactCounts}
use rosnavigation2copy.Costmap.{Costmap, IsValid}
use rosnavigation2copy.Polygon.{MapLocation, edge, edges}
use rosnavigation2copy.Polygon.Cells.{Has, Has-append, cells_in, tally-append, at_column}
use rosnavigation2copy.Polygon.Edges.{edge-IsEdge}

-- All corners are cells of the map.
abbrev pub AllIn : {D : Type 0} → Costmap D → List MapLocation → Type 0
AllIn c [] = Unit {0}
AllIn c (p ∷ polygon) = ((p.x < c.size_x) × (p.y < c.size_y)) × AllIn c polygon

abbrev Spanned : ℕ → ℕ → ℕ → Type 0
Spanned x a b = (min a b ≤ x) × (x ≤ max a b)

-- A column between two places is between the first one and a third, or that and the second.
on_the_way : (x a b m : ℕ) → Spanned x a b → Spanned x a m ⊎ Spanned x m b
on_the_way x a b m s = let p = s.0 in let q = s.1 in omega arith

module _ {D : Type 0} (fl : Floats D) (exact : ExactCounts fl) (c : Costmap D) (v : IsValid c)
    (narrow : (c.size_x ≤ int_mod) × (c.size_y ≤ int_mod)) where
  abbrev In : MapLocation → Type 0
  In p = (p.x < c.size_x) × (p.y < c.size_y)

  crossed :
      (p q : MapLocation) (x : ℕ) → In p → In q → Spanned x p.x q.x → 1 ≤ cells_in x (edge fl c p q)
  crossed p q x hp hq s =
      (edge-IsEdge fl exact c v narrow p q hp.0 hp.1 hq.0 hq.1).columns x s.0 s.1

  -- The way back to the first corner crosses each column on it.
  crossed_once :
      (first p : MapLocation) (polygon : List MapLocation) (x : ℕ)
      → In first
      → In p
      → AllIn c polygon
      → Spanned x p.x first.x
      → 1 ≤ cells_in x (edges fl c first p polygon)
  unfolding edges
  crossed_once first p [] x hf hp all s = crossed p first x hp hf s
  crossed_once first p (q ∷ polygon) x hf hp all s =
      let sum = tally-append (at_column x) (edge fl c p q) (edges fl c first q polygon) in
      elim (on_the_way x p.x first.x q.x s) [
        | inl here ↦ let le = crossed p q x hp all.0 here in omega arith
        | inr later ↦ let le = crossed_once first q polygon x hf all.0 all.1 later in omega arith
      ]

  crossed_after :
      (first p z : MapLocation) (polygon : List MapLocation) (x : ℕ)
      → In first
      → In p
      → AllIn c polygon
      → Has z (p ∷ polygon)
      → Spanned x z.x first.x
      → 1 ≤ cells_in x (edges fl c first p polygon)
  unfolding edges
  crossed_after first p z polygon x hf hp all (inl e) s =
      crossed_once first p polygon x hf hp all (rw (sym e) s)
  crossed_after first p z [] x hf hp all (inr has) s = elim has [ ]
  crossed_after first p z (q ∷ polygon) x hf hp all (inr has) s =
      let sum = tally-append (at_column x) (edge fl c p q) (edges fl c first q polygon) in
      let le = crossed_after first q z polygon x hf all.0 all.1 has s in omega arith

  crossed_twice :
      (first p z : MapLocation) (polygon : List MapLocation) (x : ℕ)
      → In first
      → In p
      → AllIn c polygon
      → Has z polygon
      → Spanned x p.x z.x
      → Spanned x z.x first.x
      → 2 ≤ cells_in x (edges fl c first p polygon)
  unfolding edges
  crossed_twice first p z [] x hf hp all has s t = elim has [ ]
  crossed_twice first p z (q ∷ polygon) x hf hp all (inl e) s t =
      let sum = tally-append (at_column x) (edge fl c p q) (edges fl c first q polygon) in
      let le = crossed p q x hp all.0 (rw (sym e) s) in
      let more = crossed_once first q polygon x hf all.0 all.1 (rw (sym e) t) in omega arith
  crossed_twice first p z (q ∷ polygon) x hf hp all (inr has) s t =
      let sum = tally-append (at_column x) (edge fl c p q) (edges fl c first q polygon) in
      elim (on_the_way x p.x z.x q.x s) [
        | inl here ↦
            let le = crossed p q x hp all.0 here in
            let more = crossed_after first q z polygon x hf all.0 all.1 (inr has) t in omega arith
        | inr later ↦
            let le = crossed_twice first q z polygon x hf all.0 all.1 has later t in omega arith
      ]

  -- A column between two corners of a polygon of two corners or more.
  pub crossed_between :
      (p q u w : MapLocation) (polygon : List MapLocation) (x : ℕ)
      → AllIn c (p ∷ q ∷ polygon)
      → Has u (p ∷ q ∷ polygon)
      → Has w (p ∷ q ∷ polygon)
      → u.x ≤ x
      → x ≤ w.x
      → 2 ≤ cells_in x (edges fl c p p (q ∷ polygon))
  crossed_between p q u w polygon x all has_u has_w low high = elim (dec_lt x p.x) [
    | yes left ↦ twice u has_u (omega arith, omega arith) (omega arith, omega arith)
    | no right ↦ twice w has_w (omega arith, omega arith) (omega arith, omega arith)
  ]
    where
      twice :
          (z : MapLocation)
          → Has z (p ∷ q ∷ polygon)
          → Spanned x p.x z.x
          → Spanned x z.x p.x
          → 2 ≤ cells_in x (edges fl c p p (q ∷ polygon))
      twice z (inl e) s t =
          let same = ap MapLocation.x e in
          let s0 = s.0 in
          let s1 = s.1 in
          crossed_twice p p q (q ∷ polygon) x all.0 all.0 all.1 (inl refl)
            (omega arith, omega arith) (omega arith, omega arith)
      twice z (inr has) s t = crossed_twice p p z (q ∷ polygon) x all.0 all.0 all.1 has s t

  -- Each cell of the outline has columns of corners on both sides, and is in a row of the map.
  pub record Enclosed (corners : List MapLocation) (d : MapLocation) : Type 0 where
    pub left : MapLocation
    pub right : MapLocation
    pub has_left : Has left corners
    pub has_right : Has right corners
    pub left_x : left.x ≤ d.x
    pub right_x : d.x ≤ right.x
    pub row : d.y < c.size_y
    pub column : d.x < c.size_x

  edge-Enclosed :
      (corners : List MapLocation) (p q : MapLocation)
      → In p
      → In q
      → Has p corners
      → Has q corners
      → (d : MapLocation) → Has d (edge fl c p q)
      → Enclosed corners d
  edge-Enclosed corners p q hp hq has_p has_q d has =
      let (low, high, row) = (edge-IsEdge fl exact c v narrow p q hp.0 hp.1 hq.0 hq.1).box d has in
      let width = hp.0 in
      let width' = hq.0 in
      elim (dec_le p.x q.x) [
        | yes le ↦ record {
          left = p;
          right = q;
          has_left = has_p;
          has_right = has_q;
          left_x = omega arith;
          right_x = omega arith;
          row = row;
          column = omega arith;
        }
        | no gt ↦ record {
          left = q;
          right = p;
          has_left = has_q;
          has_right = has_p;
          left_x = omega arith;
          right_x = omega arith;
          row = row;
          column = omega arith;
        }
      ]

  pub edges-Enclosed :
      (corners : List MapLocation) (first p : MapLocation) (polygon : List MapLocation)
      → In first
      → In p
      → AllIn c polygon
      → Has first corners
      → Has p corners
      → ((d : MapLocation) → Has d polygon → Has d corners)
      → (d : MapLocation) → Has d (edges fl c first p polygon)
      → Enclosed corners d
  unfolding edges
  edges-Enclosed corners first p [] hf hp all has_f has_p more d has =
      edge-Enclosed corners p first hp hf has_p has_f d has
  edges-Enclosed corners first p (q ∷ polygon) hf hp all has_f has_p more d has =
      elim (Has-append d (edge fl c p q) (edges fl c first q polygon) has) [
        | inl here ↦ edge-Enclosed corners p q hp all.0 has_p (more q (inl refl)) d here
        | inr later ↦
            edges-Enclosed corners first q polygon hf all.0 all.1 has_f (more q (inl refl))
              (λ e h. more e (inr h)) d later
      ]
