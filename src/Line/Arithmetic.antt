-- ===== src/Line/Arithmetic.antt =====
-- Sums along an axis, and how the numerator pays for the turns.
use rosnavigation2copy.Prelude.{
  ℕ, zero, suc, ◌+◌, ◌-◌, ◌*◌, ◌<◌, ◌≤◌, ◌≡◌, refl, ltb, arith, Bool-cases, inl, inr,
}
use mathlib.Core.Path.{subst}
use rosnavigation2copy.Prelude.Int.{
  abs, ℤ, pos, negsuc, ◌+ℤ◌, ◌-ℤ◌, ltb_ℤ, -ℤ_parts, eq_of_parts, int_laws, pos_part, neg_part,
}
use rosnavigation2copy.Line.{direction}
use rosnavigation2copy.Line.Steps.{times}

pub times-zero : (n : ℕ) → times n (pos 0) ≡ pos 0
times-zero zero = refl
times-zero (suc n) = rw (times-zero n) (omega int_laws)

pub times-one : (n : ℕ) → times n (pos 1) ≡ pos n
times-one zero = refl
times-one (suc n) = rw (times-one n) (omega int_laws)

pub times-minus :
    (n : ℕ) → (pos_part (times n (negsuc 0)) ≡ 0) × (neg_part (times n (negsuc 0)) ≡ n)
unfolding ◌+ℤ◌
times-minus zero = (refl, refl)
times-minus (suc n) = let (p, q) = times-minus n in ground arith

pos-abs : (z : ℤ) (u v : ℕ) → pos_part z + u ≡ neg_part z + v → u ≤ v → pos (abs z) ≡ z
pos-abs (pos n) u v e h = ground arith
pos-abs (negsuc n) u v e h = absurd (omega arith)

neg-abs :
    (z : ℤ) (u v : ℕ)
    → pos_part z + u ≡ neg_part z + v
    → v ≤ u
    → (pos_part z ≡ 0) × (neg_part z ≡ abs z)
neg-abs (pos n) u v e h = (omega arith, omega arith)
neg-abs (negsuc n) u v e h = (refl, omega arith)

pub times-direction : (a b : ℤ) → times (abs (b -ℤ a)) (direction a b) ≡ b -ℤ a
unfolding direction
times-direction a b =
    let n = abs (b -ℤ a) in
    let d = -ℤ_parts b a in
    let u = neg_part b + pos_part a in
    let v = pos_part b + neg_part a in
    elim (Bool-cases (ltb_ℤ b a)) [
      | inl e ↦
          let le : v ≤ u = ground arith in
          let (p, q) = neg-abs (b -ℤ a) u v (omega arith) le in
          let (p', q') = times-minus n in
          rw e (eq_of_parts (times n (negsuc 0)) (b -ℤ a) (omega arith))
      | inr e ↦
          let le : u ≤ v = ground arith in
          rw (e, times-one n) (pos-abs (b -ℤ a) u v (omega arith) le)
    ]

turns-less : (t m d a b : ℕ) → t * d + a ≡ b + d * m → a < d → ¬ t < m
turns-less t m d a b e h less =
    let same : m ≡ suc (t + (m - t - 1)) = omega arith in
    let j = m - t - 1 in
    let e' : t * d + a ≡ b + d * suc (t + j) = subst (λ k. t * d + a ≡ b + d * k) same e in
    omega arith

turns-more : (t m d a b : ℕ) → t * d + a ≡ b + d * m → b < d → ¬ m < t
turns-more t m d a b e h more =
    let same : t ≡ suc (m + (t - m - 1)) = omega arith in
    let j = t - m - 1 in
    let e' : suc (m + j) * d + a ≡ b + d * m = subst (λ k. k * d + a ≡ b + d * m) same e in
    omega arith

-- After as many turns as the minor side is long the denominator has been paid for.
pub turns-eq : (t m d a b : ℕ) → t * d + a ≡ b + d * m → a < d → b < d → t ≡ m
turns-eq t m d a b e h k = elim (Bool-cases (ltb t m)) [
  | inl less ↦ absurd (turns-less t m d a b e h (ground arith))
  | inr ge ↦ elim (Bool-cases (ltb m t)) [
    | inl more ↦ absurd (turns-more t m d a b e k (ground arith))
    | inr le ↦ ground arith
  ]
]

cancel : (a b : ℤ) → a +ℤ (pos 0 +ℤ (b -ℤ a)) ≡ b
cancel a b = omega int_laws

cancel_left : (a b : ℤ) → a +ℤ (b -ℤ a +ℤ pos 0) ≡ b
cancel_left a b = omega int_laws

-- A coordinate moved along the major axis, and one moved along the minor axis.
pub major-end :
    (x p q a c : ℤ) (n k : ℕ)
    → x ≡ a
    → p ≡ direction a c
    → q ≡ pos 0
    → n ≡ abs (c -ℤ a)
    → x +ℤ (times n p +ℤ times k q) ≡ c
major-end x p q a c n k x' p' q' n' =
    rw (x', p', q', n', times-direction a c, times-zero k) (cancel_left a c)

pub minor-end :
    (x p q a c : ℤ) (n k : ℕ)
    → x ≡ a
    → p ≡ pos 0
    → q ≡ direction a c
    → k ≡ abs (c -ℤ a)
    → x +ℤ (times n p +ℤ times k q) ≡ c
minor-end x p q a c n k x' p' q' k' =
    rw (x', p', q', k', times-direction a c, times-zero n) (cancel a c)
