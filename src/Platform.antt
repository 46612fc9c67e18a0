-- ===== src/Platform.antt =====
-- What the C++ code takes from its platform: `double` with the operations of <cmath> and the
-- conversions, and the memory that `new[]` returns. These are parameters of the models.
use rosnavigation2copy.Prelude.{
  ℕ, ◌<◌, ◌≡◌, Bool, false, ◌&&◌, not, List, length, replicate, u32_mod,
}
use rosnavigation2copy.Prelude.{length-replicate}
use rosnavigation2copy.Prelude.Int.{ℤ, abs, pos, pos_part, neg_part, ltb_ℤ, ◌+ℤ◌, ◌-ℤ◌, ◌*ℤ◌}
use rosnavigation2copy.Prelude.{◌+◌, ◌-◌, ◌*◌, ◌/◌, ltb, leb}

-- The operations on `double` that the code calls. No law is assumed here.
pub record Floats (D : Type 0) : Type 0 where
  pub add : D → D → D
  pub sub : D → D → D
  pub mul : D → D → D
  pub div : D → D → D
  pub lt : D → D → Bool
  pub le : D → D → Bool
  pub fabs : D → D
  pub floor : D → D
  pub of_nat : ℕ → D
  pub of_int : ℤ → D
  pub half : D  -- the literal 0.5
  pub hypot : ℤ → ℤ → D
  pub to_int : D → ℤ  -- static_cast<int>, which drops the fraction
  pub to_u32 : D → ℕ  -- (unsigned int)

-- Facts of IEEE 754 that the theorems on whole lines use: 1.0 is neutral, a 32-bit count is a double
-- exactly, so that casting it back returns it, and the greatest one is not below a hypotenuse that is
-- not 0.0, of sides that together have less than 2 ^ 32 cells.
pub record ExactCounts {D : Type 0} (fl : Floats D) : Type 0 where
  pub one_mul : (d : D) → fl.mul (fl.of_nat 1) d ≡ d
  pub to_u32-of_nat : (n : ℕ) → n < u32_mod → fl.to_u32 (fl.of_nat n) ≡ n
  pub ratio :
      (dx dy : ℤ)
      → abs dx + abs dy < u32_mod
      → (fl.le (fl.hypot dx dy) (fl.of_nat 0) && fl.le (fl.of_nat 0) (fl.hypot dx dy)) ≡ false
      → fl.lt (fl.div (fl.of_nat 4294967295) (fl.hypot dx dy)) (fl.of_nat 1) ≡ false

-- `new unsigned char[n]`: `n` cells, of which C++ does not say what they hold.
pub record Memory : Type 0 where
  pub new_array : ℕ → List ℕ
  pub length-new_array : (n : ℕ) → length (new_array n) ≡ n

-- An allocator, to run the model.
abbrev pub zeroed : Memory
zeroed = record { new_array = λ n. replicate n 0; length-new_array = λ n. length-replicate n 0 }

-- Whole numbers in place of doubles, to run the models.
abbrev pub whole : Floats ℕ
whole = record {
  add = λ a b. a + b;
  sub = λ a b. a - b;
  mul = λ a b. a * b;
  div = λ a b. a / b;
  lt = ltb;
  le = leb;
  fabs = λ a. a;
  floor = λ a. a;
  of_nat = λ n. n;
  of_int = pos_part;
  half = 0;
  hypot = λ a b. pos_part a + neg_part a + (pos_part b + neg_part b);
  to_int = pos;
  to_u32 = λ n. n;
}

-- Integers in place of doubles.
abbrev pub integers : Floats ℤ
integers = record {
  add = ◌+ℤ◌;
  sub = ◌-ℤ◌;
  mul = ◌*ℤ◌;
  div = λ a b. pos (pos_part a / pos_part b);
  lt = ltb_ℤ;
  le = λ a b. not (ltb_ℤ b a);
  fabs = λ a. pos (pos_part a + neg_part a);
  floor = λ a. a;
  of_nat = pos;
  of_int = λ a. a;
  half = pos 0;
  hypot = λ a b. pos (pos_part a + neg_part a + (pos_part b + neg_part b));
  to_int = λ a. a;
  to_u32 = pos_part;
}
