-- ===== src/Line/Ends.antt =====
-- A line goes from its first point to its last.
use rosnavigation2copy.Prelude.{
  ℕ, ◌/◌, ◌<◌, ◌≤◌, max, ◌≡◌, ap, refl, ◌∙◌, leb, ltb, arith, Bool-cases, inl, inr, true, false,
}
use rosnavigation2copy.Prelude.Int.{abs, ℤ, pos, ◌-ℤ◌}
use rosnavigation2copy.Line.{LineIterator, line, is_valid, direction}
use rosnavigation2copy.Line.Steps.{
  advances, turns, advances-num, advances-x, advances-y, advances-Kept, advances-curpixel,
}
use rosnavigation2copy.Line.Arithmetic.{turns-eq, major-end, minor-end}

pub record Laid (it : LineIterator) : Type 0 where
  pub num : it.num ≡ it.den / 2
  pub numadd : it.numadd ≤ it.den
  pub pixels : it.numpixels ≡ it.den
  pub curpixel : it.curpixel ≡ 0

pub line-Laid : (x0 y0 x1 y1 : ℤ) → Laid (line x0 y0 x1 y1)
unfolding line
line-Laid x0 y0 x1 y1 = record {
  num = ground arith;
  numadd = ground arith;
  pixels = refl;
  curpixel = refl;
}

turns-end : (it : LineIterator) → Laid it → turns it.numpixels it ≡ it.numadd
turns-end it l = ap (λ n. turns n it) l.pixels ∙ elim (Bool-cases (ltb 0 it.den)) [
  | inl e ↦
      let positive : 0 < it.den = ground arith in
      let (lt, sum) = advances-num it.den it (omega (arith, l.num)) l.numadd in
      turns-eq (turns it.den it) it.numadd it.den (advances it.den it).num it.num sum lt
        (omega (arith, l.num))
  | inr e ↦
      let none_left : it.den ≡ 0 = ground arith in
      ap (λ n. turns n it) none_left ∙ (unfold turns in omega (arith, l.numadd))
]

-- A line that is at least as wide as high, and one that is higher.
pub record Wide (a b c d : ℤ) (it : LineIterator) : Type 0 where
  pub start : (it.x ≡ a) × (it.y ≡ b)
  pub xincs : (it.xinc1 ≡ pos 0) × (it.xinc2 ≡ direction a c)
  pub yincs : (it.yinc1 ≡ direction b d) × (it.yinc2 ≡ pos 0)
  pub sides : (it.numpixels ≡ abs (c -ℤ a)) × (it.numadd ≡ abs (d -ℤ b))

pub record Tall (a b c d : ℤ) (it : LineIterator) : Type 0 where
  pub start : (it.x ≡ a) × (it.y ≡ b)
  pub xincs : (it.xinc1 ≡ direction a c) × (it.xinc2 ≡ pos 0)
  pub yincs : (it.yinc1 ≡ pos 0) × (it.yinc2 ≡ direction b d)
  pub sides : (it.numpixels ≡ abs (d -ℤ b)) × (it.numadd ≡ abs (c -ℤ a))

pub line-Wide :
    (a b c d : ℤ) → leb (abs (d -ℤ b)) (abs (c -ℤ a)) ≡ true → Wide a b c d (line a b c d)
unfolding line
line-Wide a b c d w = record {
  start = (refl, refl);
  xincs = rw w (refl, refl);
  yincs = rw w (refl, refl);
  sides = rw w (refl, refl);
}

pub line-Tall :
    (a b c d : ℤ) → leb (abs (d -ℤ b)) (abs (c -ℤ a)) ≡ false → Tall a b c d (line a b c d)
unfolding line
line-Tall a b c d w = record {
  start = (refl, refl);
  xincs = rw w (refl, refl);
  yincs = rw w (refl, refl);
  sides = rw w (refl, refl);
}

record At (c d : ℤ) (it : LineIterator) : Type 0 where
  x : it.x ≡ c
  y : it.y ≡ d

last_cell_by_x :
    (a b c d : ℤ) (it : LineIterator)
    → Wide a b c d it
    → Laid it
    → At c d (advances it.numpixels it)
last_cell_by_x a b c d it w l =
    let n = it.numpixels in
    let k = turns n it in
    record {
      x =
          advances-x n it
          ∙ major-end it.x it.xinc2 it.xinc1 a c n k w.start.0 w.xincs.1 w.xincs.0 w.sides.0;
      y =
          advances-y n it
          ∙ minor-end it.y it.yinc2 it.yinc1 b d n k w.start.1 w.yincs.1 w.yincs.0
              (turns-end it l ∙ w.sides.1);
    }

last_cell_by_y :
    (a b c d : ℤ) (it : LineIterator)
    → Tall a b c d it
    → Laid it
    → At c d (advances it.numpixels it)
last_cell_by_y a b c d it w l =
    let n = it.numpixels in
    let k = turns n it in
    record {
      x =
          advances-x n it
          ∙ minor-end it.x it.xinc2 it.xinc1 a c n k w.start.0 w.xincs.1 w.xincs.0
              (turns-end it l ∙ w.sides.1);
      y =
          advances-y n it
          ∙ major-end it.y it.yinc2 it.yinc1 b d n k w.start.1 w.yincs.1 w.yincs.0 w.sides.0;
    }

valid-until : (it : LineIterator) (n : ℕ) → Laid it → is_valid (advances n it) ≡ leb n it.numpixels
unfolding is_valid
valid-until it n l =
    let c = advances-curpixel n it in
    let k = (advances-Kept n it).numpixels in
    rw k (ap (λ c. leb c it.numpixels) (omega (arith, c, l.curpixel)))

-- A line is valid for one more cell than its longer side has steps, and its last cell is the second
-- end point, whatever the two end points are.
pub line-ends :
    (x0 y0 x1 y1 : ℤ)
    → let it = line x0 y0 x1 y1 in
      ((n : ℕ) → is_valid (advances n it) ≡ leb n (max (abs (x1 -ℤ x0)) (abs (y1 -ℤ y0))))
      × ((advances it.numpixels it).x ≡ x1)
      × ((advances it.numpixels it).y ≡ y1)
line-ends x0 y0 x1 y1 =
    let it = line x0 y0 x1 y1 in
    let l = line-Laid x0 y0 x1 y1 in
    elim (Bool-cases (leb (abs (y1 -ℤ y0)) (abs (x1 -ℤ x0)))) [
      | inl e ↦
          let w = line-Wide x0 y0 x1 y1 e in
          let at = last_cell_by_x x0 y0 x1 y1 it w l in
          let longer : it.numpixels ≡ max (abs (x1 -ℤ x0)) (abs (y1 -ℤ y0)) =
            w.sides.0 ∙ ground arith in
          ((λ n. valid-until it n l ∙ ap (leb n) longer), at.x, at.y)
      | inr e ↦
          let w = line-Tall x0 y0 x1 y1 e in
          let at = last_cell_by_y x0 y0 x1 y1 it w l in
          let longer : it.numpixels ≡ max (abs (x1 -ℤ x0)) (abs (y1 -ℤ y0)) =
            w.sides.0 ∙ ground arith in
          ((λ n. valid-until it n l ∙ ap (leb n) longer), at.x, at.y)
    ]
