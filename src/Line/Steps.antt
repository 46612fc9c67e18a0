-- ===== src/Line/Steps.antt =====
-- The line after a number of steps, in terms of its start.
use rosnavigation2copy.Prelude.{
  ℕ, zero, suc, ◌+◌, ◌-◌, ◌*◌, ◌<◌, ◌≤◌, ◌≡◌, refl, leb, true, false, if◌then◌else◌, arith,
  Bool-cases, inl, inr,
}
use rosnavigation2copy.Prelude.Int.{ℤ, pos, ◌+ℤ◌, int_laws}
use rosnavigation2copy.Line.{LineIterator, advance, is_over}

unfoldable pub advances : ℕ → LineIterator → LineIterator
advances zero it = it
advances (suc n) it = advance (advances n it)

-- How many of the first steps go along the minor axis too.
unfoldable pub turns : ℕ → LineIterator → ℕ
turns zero it = 0
turns (suc n) it = if is_over (advances n it) then suc (turns n it) else turns n it

-- The n-fold sum.
abbrev pub times : ℕ → ℤ → ℤ
times zero a = pos 0
times (suc n) a = times n a +ℤ a

pub record Kept (it it' : LineIterator) : Type 0 where
  pub den : it'.den ≡ it.den
  pub numadd : it'.numadd ≡ it.numadd
  pub numpixels : it'.numpixels ≡ it.numpixels
  pub xinc1 : it'.xinc1 ≡ it.xinc1
  pub xinc2 : it'.xinc2 ≡ it.xinc2
  pub yinc1 : it'.yinc1 ≡ it.yinc1
  pub yinc2 : it'.yinc2 ≡ it.yinc2

pub advances-Kept : (n : ℕ) (it : LineIterator) → Kept it (advances n it)
unfolding advances advance
advances-Kept zero it = record {
  den = refl;
  numadd = refl;
  numpixels = refl;
  xinc1 = refl;
  xinc2 = refl;
  yinc1 = refl;
  yinc2 = refl;
}
advances-Kept (suc n) it =
    let k = advances-Kept n it in
    record {
      den = k.den;
      numadd = k.numadd;
      numpixels = k.numpixels;
      xinc1 = k.xinc1;
      xinc2 = k.xinc2;
      yinc1 = k.yinc1;
      yinc2 = k.yinc2;
    }

pub advances-curpixel : (n : ℕ) (it : LineIterator) → (advances n it).curpixel ≡ n + it.curpixel
unfolding advances advance
advances-curpixel zero it = omega arith
advances-curpixel (suc n) it = omega (arith, advances-curpixel n it)

num-over :
    (t n d s a m : ℕ)
    → a < d
    → m ≤ d
    → leb d (a + m) ≡ true
    → t * d + a ≡ s + n * m
    → (a + m - d < d) × (suc t * d + (a + m - d) ≡ s + suc n * m)
num-over t n d s a m h k e sum = let le : d ≤ a + m = ground arith in (omega arith, omega arith)

num-under :
    (t n d s a m : ℕ)
    → leb d (a + m) ≡ false
    → t * d + a ≡ s + n * m
    → (a + m < d) × (t * d + (a + m) ≡ s + suc n * m)
num-under t n d s a m e sum = let lt : a + m < d = ground arith in (lt, omega arith)

move-over : (x p q a b : ℤ) → x +ℤ (p +ℤ q) +ℤ a +ℤ b ≡ x +ℤ (p +ℤ b +ℤ (q +ℤ a))
move-over x p q a b = omega int_laws

move-under : (x p q b : ℤ) → x +ℤ (p +ℤ q) +ℤ b ≡ x +ℤ (p +ℤ b +ℤ q)
move-under x p q b = omega int_laws

-- The error term: what the numerator holds beyond the turns that it has paid for.
pub advances-num :
    (n : ℕ) (it : LineIterator)
    → it.num < it.den
    → it.numadd ≤ it.den
    → ((advances n it).num < it.den)
      × (turns n it * it.den + (advances n it).num ≡ it.num + n * it.numadd)
unfolding advances advance turns
advances-num zero it h k = (h, omega arith)
advances-num (suc n) it h k =
    let (lt, sum) = advances-num n it h k in
    let kept = advances-Kept n it in
    let a = (advances n it).num in
    elim (Bool-cases (is_over (advances n it))) [
      | inl e ↦
          rw (e, kept.den, kept.numadd)
            (num-over (turns n it) n it.den it.num a it.numadd lt k
              (rw (kept.den, kept.numadd) at e) sum)
      | inr e ↦
          rw (e, kept.numadd)
            (num-under (turns n it) n it.den it.num a it.numadd (rw (kept.den, kept.numadd) at e)
              sum)
    ]

pub advances-x :
    (n : ℕ) (it : LineIterator)
    → (advances n it).x ≡ it.x +ℤ (times n it.xinc2 +ℤ times (turns n it) it.xinc1)
unfolding advances advance turns
advances-x zero it = omega int_laws
advances-x (suc n) it =
    let ih = advances-x n it in
    let kept = advances-Kept n it in
    let p = times n it.xinc2 in
    let q = times (turns n it) it.xinc1 in
    elim (Bool-cases (is_over (advances n it))) [
      | inl e ↦ rw (e, kept.xinc1, kept.xinc2, ih) (move-over it.x p q it.xinc1 it.xinc2)
      | inr e ↦ rw (e, kept.xinc2, ih) (move-under it.x p q it.xinc2)
    ]

pub advances-y :
    (n : ℕ) (it : LineIterator)
    → (advances n it).y ≡ it.y +ℤ (times n it.yinc2 +ℤ times (turns n it) it.yinc1)
unfolding advances advance turns
advances-y zero it = omega int_laws
advances-y (suc n) it =
    let ih = advances-y n it in
    let kept = advances-Kept n it in
    let p = times n it.yinc2 in
    let q = times (turns n it) it.yinc1 in
    elim (Bool-cases (is_over (advances n it))) [
      | inl e ↦ rw (e, kept.yinc1, kept.yinc2, ih) (move-over it.y p q it.yinc1 it.yinc2)
      | inr e ↦ rw (e, kept.yinc2, ih) (move-under it.y p q it.yinc2)
    ]
