-- ===== src/Line/Connected.antt =====
-- The cells of a line touch each other.
use rosnavigation2copy.Prelude.{
  ℕ, ◌≤◌, max, ◌≡◌, ◌∙◌, Bool, leb, if◌then◌else◌, arith, Bool-cases, inl, inr, true, false,
}
use rosnavigation2copy.Prelude.Int.{abs, ℤ, pos, ◌+ℤ◌, ◌-ℤ◌, int_laws}
use rosnavigation2copy.Line.{line, advance, is_over, direction}
use rosnavigation2copy.Line.Steps.{advances, advances-Kept}
use rosnavigation2copy.Line.Ends.{line-Wide, line-Tall}

abs-direction : (a b : ℤ) → abs (direction a b) ≡ 1
unfolding direction
abs-direction a b = ground arith

move_back : (x a b : ℤ) → x +ℤ a +ℤ b -ℤ x ≡ a +ℤ b
move_back x a b = omega int_laws

move_back_once : (x b : ℤ) → x +ℤ b -ℤ x ≡ b
move_back_once x b = omega int_laws

drop_zero : (a : ℤ) → pos 0 +ℤ a ≡ a
drop_zero a = omega int_laws

zero_drop : (a : ℤ) → a +ℤ pos 0 ≡ a
zero_drop a = omega int_laws

-- The step along the major axis, and the one along the minor axis.
major-step :
    (over : Bool) (x p q a c : ℤ)
    → q ≡ pos 0
    → p ≡ direction a c
    → abs ((if over then x +ℤ q else x) +ℤ p -ℤ x) ≡ 1
major-step true x p q a c q' p' = rw (move_back x q p, q', drop_zero p, p') (abs-direction a c)
major-step false x p q a c q' p' = rw (move_back_once x p, p') (abs-direction a c)

minor-step :
    (over : Bool) (x p q a c : ℤ)
    → q ≡ direction a c
    → p ≡ pos 0
    → abs ((if over then x +ℤ q else x) +ℤ p -ℤ x) ≤ 1
minor-step true x p q a c q' p' =
    rw (move_back x q p, p', zero_drop q, q', abs-direction a c) (omega arith)
minor-step false x p q a c q' p' = rw (move_back_once x p, p') (omega arith)

-- Each step of a line moves by one cell along one axis or along both.
pub line-connected :
    (x0 y0 x1 y1 : ℤ) (n : ℕ)
    → let it = advances n (line x0 y0 x1 y1) in
      max (abs ((advance it).x -ℤ it.x)) (abs ((advance it).y -ℤ it.y)) ≡ 1
unfolding advance
line-connected x0 y0 x1 y1 n =
    let start = line x0 y0 x1 y1 in
    let it = advances n start in
    let k = advances-Kept n start in
    let over = is_over it in
    elim (Bool-cases (leb (abs (y1 -ℤ y0)) (abs (x1 -ℤ x0)))) [
      | inl e ↦
          let w = line-Wide x0 y0 x1 y1 e in
          let dx =
            major-step over it.x it.xinc2 it.xinc1 x0 x1 (k.xinc1 ∙ w.xincs.0)
              (k.xinc2 ∙ w.xincs.1) in
          let dy =
            minor-step over it.y it.yinc2 it.yinc1 y0 y1 (k.yinc1 ∙ w.yincs.0)
              (k.yinc2 ∙ w.yincs.1) in
          omega (arith, dx, dy)
      | inr e ↦
          let w = line-Tall x0 y0 x1 y1 e in
          let dx =
            minor-step over it.x it.xinc2 it.xinc1 x0 x1 (k.xinc1 ∙ w.xincs.0)
              (k.xinc2 ∙ w.xincs.1) in
          let dy =
            major-step over it.y it.yinc2 it.yinc1 y0 y1 (k.yinc1 ∙ w.yincs.0)
              (k.yinc2 ∙ w.yincs.1) in
          omega (arith, dx, dy)
    ]
