-- ===== src/Line/Tests.antt =====
-- The line from (0, 0) to (3, -1), and the theorems at it.
use rosnavigation2copy.Prelude.{max, ℕ, ◌≡◌, refl, arith, ◌*◌, leb}
use rosnavigation2copy.Prelude.Int.{abs, ℤ, pos, negsuc, ◌+ℤ◌, ◌-ℤ◌}
use rosnavigation2copy.Line.{line, direction, advance, is_valid}
use rosnavigation2copy.Line.Steps.{advances}
use rosnavigation2copy.Line.Connected.{line-connected}
use rosnavigation2copy.Line.Ends.{line-ends}
use rosnavigation2copy.Line.Near.{Within, Toward, line-near}

abbrev place : ℕ → ℤ × ℤ
place n = let it = advances n (line (pos 0) (pos 0) (pos 3) (negsuc 0)) in (it.x, it.y)

second : place 1 ≡ (pos 1, pos 0)
unfolding line direction advance advances ◌+ℤ◌ ◌-ℤ◌
second = refl

third : place 2 ≡ (pos 2, negsuc 0)
unfolding line direction advance advances ◌+ℤ◌ ◌-ℤ◌
third = refl

line-ends_example :
    let it = line (pos 0) (pos 0) (pos 3) (negsuc 0) in
    ((n : ℕ) → is_valid (advances n it) ≡ leb n 3)
    × ((advances it.numpixels it).x ≡ pos 3)
    × ((advances it.numpixels it).y ≡ negsuc 0)
unfolding ◌-ℤ◌
line-ends_example = line-ends (pos 0) (pos 0) (pos 3) (negsuc 0)

line-near_example :
    let it = advances 2 (line (pos 0) (pos 0) (pos 3) (negsuc 0)) in
    Within 3 (abs (it.x -ℤ pos 0) * 1) (abs (it.y -ℤ pos 0) * 3)
    × Toward (pos 0) (pos 3) it.x
    × Toward (pos 0) (negsuc 0) it.y
unfolding ◌-ℤ◌
line-near_example = line-near (pos 0) (pos 0) (pos 3) (negsuc 0) 2 (omega arith)

line-connected_example :
    let it = advances 1 (line (pos 0) (pos 0) (pos 3) (negsuc 0)) in
    max (abs ((advance it).x -ℤ it.x)) (abs ((advance it).y -ℤ it.y)) ≡ 1
line-connected_example = line-connected (pos 0) (pos 0) (pos 3) (negsuc 0) 1
