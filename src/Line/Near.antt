-- ===== src/Line/Near.antt =====
-- A line keeps to the straight line between its end points.
use rosnavigation2copy.Prelude.{
  ℕ, ◌+◌, ◌*◌, ◌≤◌, ◌<◌, max, ◌≡◌, refl, sym, ◌∙◌, leb, arith, Bool-cases, inl, inr, true, false,
}
use rosnavigation2copy.Prelude.Int.{abs, ℤ, pos, ◌+ℤ◌, ◌-ℤ◌, ltb_ℤ, int_laws}
use rosnavigation2copy.Line.{LineIterator, line, direction}
use rosnavigation2copy.Line.Steps.{advances, turns, times, advances-num, advances-x, advances-y}
use rosnavigation2copy.Line.Arithmetic.{times-zero, times-one, times-minus}
use rosnavigation2copy.Line.Ends.{Laid, line-Laid, line-Wide, line-Tall}

abs-times : (n : ℕ) (a c : ℤ) → abs (times n (direction a c)) ≡ n
unfolding direction
abs-times n a c =
    let (p, q) = times-minus n in
    elim (Bool-cases (ltb_ℤ c a)) [
      | inl e ↦ rw e (omega (arith, p, q))
      | inr e ↦ rw (e, times-one n) (omega arith)
    ]

back_major : (a u : ℤ) → a +ℤ (u +ℤ pos 0) -ℤ a ≡ u
back_major a u = omega int_laws

back_minor : (a u : ℤ) → a +ℤ (pos 0 +ℤ u) -ℤ a ≡ u
back_minor a u = omega int_laws

major-far :
    (x p q a c : ℤ) (n k : ℕ)
    → x ≡ a
    → p ≡ direction a c
    → q ≡ pos 0
    → abs (x +ℤ (times n p +ℤ times k q) -ℤ a) ≡ n
major-far x p q a c n k x' p' q' =
    rw (x', p', q', times-zero k, back_major a (times n (direction a c))) (abs-times n a c)

minor-far :
    (x p q a c : ℤ) (n k : ℕ)
    → x ≡ a
    → p ≡ pos 0
    → q ≡ direction a c
    → abs (x +ℤ (times n p +ℤ times k q) -ℤ a) ≡ k
minor-far x p q a c n k x' p' q' =
    rw (x', p', q', times-zero n, back_minor a (times k (direction a c))) (abs-times k a c)

-- Twice the products differ by `d` at most.
abbrev pub Within : ℕ → ℕ → ℕ → Type 0
Within d a b = (2 * a ≤ 2 * b + d) × (2 * b ≤ 2 * a + d)

turns-Within :
    (it : LineIterator) (n : ℕ)
    → Laid it
    → 0 < it.den
    → Within it.den (n * it.numadd) (turns n it * it.den)
turns-Within it n l h =
    let (lt, sum) = advances-num n it (omega (arith, l.num)) l.numadd in
    (omega (arith, l.num), omega (arith, l.num))

Within-of_eq : (d d' a a' b b' : ℕ) → d ≡ d' → a ≡ a' → b ≡ b' → Within d a b → Within d' a' b'
Within-of_eq d d' a a' b b' p q r (h, k) = (omega arith, omega arith)

product : {a a' b b' : ℕ} → a' ≡ a → b ≡ b' → a * b ≡ a' * b'
product p q = rw (p, q) refl

-- `x` is on the side of `a` where `c` is.
abbrev pub Toward : ℤ → ℤ → ℤ → Type 0
Toward a c x = (ltb_ℤ a c ≡ true → ltb_ℤ x a ≡ false) × (ltb_ℤ c a ≡ true → ltb_ℤ a x ≡ false)

far_side : (a c : ℤ) (n : ℕ) → Toward a c (a +ℤ times n (direction a c))
unfolding direction ◌+ℤ◌
far_side a c n =
    let (p, q) = times-minus n in
    elim (Bool-cases (ltb_ℤ c a)) [
      | inl e ↦ rw e (λ h. ground arith, λ h. ground arith)
      | inr e ↦ rw (e, times-one n) (λ h. ground arith, λ h. ground arith)
    ]

first_none : (a u : ℤ) → a +ℤ (u +ℤ pos 0) ≡ a +ℤ u
first_none a u = omega int_laws

second_none : (a u : ℤ) → a +ℤ (pos 0 +ℤ u) ≡ a +ℤ u
second_none a u = omega int_laws

major-Toward :
    (x p q a c : ℤ) (n k : ℕ)
    → x ≡ a
    → p ≡ direction a c
    → q ≡ pos 0
    → Toward a c (x +ℤ (times n p +ℤ times k q))
major-Toward x p q a c n k x' p' q' =
    rw (x', p', q', times-zero k, first_none a (times n (direction a c))) (far_side a c n)

minor-Toward :
    (x p q a c : ℤ) (n k : ℕ)
    → x ≡ a
    → p ≡ pos 0
    → q ≡ direction a c
    → Toward a c (x +ℤ (times n p +ℤ times k q))
minor-Toward x p q a c n k x' p' q' =
    rw (x', p', q', times-zero n, second_none a (times k (direction a c))) (far_side a c k)

-- After any number of steps a line of more than one point is within half a cell of the straight line
-- between its end points, measured along its shorter side, and is not on the other side of its start
-- than its end, in columns or in rows.
pub line-near :
    (x0 y0 x1 y1 : ℤ) (n : ℕ)
    → 0 < max (abs (x1 -ℤ x0)) (abs (y1 -ℤ y0))
    → let it = advances n (line x0 y0 x1 y1) in
      Within
        (max (abs (x1 -ℤ x0)) (abs (y1 -ℤ y0)))
        (abs (it.x -ℤ x0) * abs (y1 -ℤ y0))
        (abs (it.y -ℤ y0) * abs (x1 -ℤ x0))
      × Toward x0 x1 it.x
      × Toward y0 y1 it.y
line-near x0 y0 x1 y1 n h =
    let dx = abs (x1 -ℤ x0) in
    let dy = abs (y1 -ℤ y0) in
    let it = line x0 y0 x1 y1 in
    let l = line-Laid x0 y0 x1 y1 in
    let k = turns n it in
    elim (Bool-cases (leb dy dx)) [
      | inl e ↦
          let w = line-Wide x0 y0 x1 y1 e in
          let den : it.den ≡ dx = sym l.pixels ∙ w.sides.0 in
          let longer : dx ≡ max dx dy = ground arith in
          let ex : abs ((advances n it).x -ℤ x0) ≡ n =
            rw (advances-x n it)
              (major-far it.x it.xinc2 it.xinc1 x0 x1 n k w.start.0 w.xincs.1 w.xincs.0) in
          let ey : abs ((advances n it).y -ℤ y0) ≡ k =
            rw (advances-y n it)
              (minor-far it.y it.yinc2 it.yinc1 y0 y1 n k w.start.1 w.yincs.1 w.yincs.0) in
          (
            Within-of_eq _ _ _ _ _ _ (den ∙ longer) (product ex w.sides.1) (product ey den)
                (turns-Within it n l (omega arith)),
            rw (advances-x n it)
                (major-Toward it.x it.xinc2 it.xinc1 x0 x1 n k w.start.0 w.xincs.1 w.xincs.0),
            rw (advances-y n it)
                (minor-Toward it.y it.yinc2 it.yinc1 y0 y1 n k w.start.1 w.yincs.1 w.yincs.0),
          )
      | inr e ↦
          let w = line-Tall x0 y0 x1 y1 e in
          let den : it.den ≡ dy = sym l.pixels ∙ w.sides.0 in
          let longer : dy ≡ max dx dy = ground arith in
          let ey : abs ((advances n it).y -ℤ y0) ≡ n =
            rw (advances-y n it)
              (major-far it.y it.yinc2 it.yinc1 y0 y1 n k w.start.1 w.yincs.1 w.yincs.0) in
          let ex : abs ((advances n it).x -ℤ x0) ≡ k =
            rw (advances-x n it)
              (minor-far it.x it.xinc2 it.xinc1 x0 x1 n k w.start.0 w.xincs.1 w.xincs.0) in
          let near =
            Within-of_eq _ _ _ _ _ _ (den ∙ longer) (product ey w.sides.1) (product ex den)
              (turns-Within it n l (omega arith)) in
          (
            (near.1, near.0),
            rw (advances-x n it)
                (minor-Toward it.x it.xinc2 it.xinc1 x0 x1 n k w.start.0 w.xincs.1 w.xincs.0),
            rw (advances-y n it)
                (major-Toward it.y it.yinc2 it.yinc1 y0 y1 n k w.start.1 w.yincs.1 w.yincs.0),
          )
    ]
