-- ===== src/Grid/Index.antt =====
-- Laws of reads and writes, and of the index of a cell.
use rosnavigation2copy.Prelude.{
  ℕ, zero, suc, ◌+◌, ◌*◌, ◌/◌, ◌%◌, ◌≤◌, ◌<◌, ◌≡◌, ◌≢◌, ◌⊎◌, inl, inr, Bool-cases, ==_iff, false,
  refl, ap, arith,
}
use rosnavigation2copy.Prelude.{List, [], ◌∷◌, some, ◌==◌, if◌then◌else◌, length, set, get_or}
use rosnavigation2copy.Prelude.{lt→ltb}
use rosnavigation2copy.Grid.{read, write, at}
use native.Mathlib.Nat.{mod-lt, div-add-mod}
use native.Mathlib.Decide.{dec_lt}
use rosnavigation2copy.Prelude.{sym, ◌∙◌}

pub read-eq-some {ℓ} :
    {A : Type ℓ} (m : List A) (i : ℕ) (d : A) → i < length m → read m i ≡ some (get_or m i d)
read-eq-some [] i d h = elim h [ ]
read-eq-some (x ∷ m) zero d h = refl
read-eq-some (x ∷ m) (suc i) d h = read-eq-some m i d (omega arith)

pub write-eq-some : (m : List ℕ) (i v : ℕ) → i < length m → write m i v ≡ some (set m i v)
unfolding write
write-eq-some m i v h = rw (lt→ltb i (length m) h)

pub get_or-set :
    (m : List ℕ) (i j v d : ℕ)
    → i < length m
    → get_or (set m i v) j d ≡ (if i == j then v else get_or m j d)
get_or-set [] i j v d h = elim h [ ]
get_or-set (x ∷ m) zero zero v d h = refl
get_or-set (x ∷ m) zero (suc j) v d h = ground arith
get_or-set (x ∷ m) (suc i) zero v d h = ground arith
get_or-set (x ∷ m) (suc i) (suc j) v d h = ground (arith, get_or-set m i j v d)

pub set-get_or : (m : List ℕ) (i d : ℕ) → i < length m → set m i (get_or m i d) ≡ m
set-get_or [] i d h = elim h [ ]
set-get_or (x ∷ m) zero d h = refl
set-get_or (x ∷ m) (suc i) d h = ap (◌∷◌ x) (set-get_or m i d (omega arith))

-- Two lists of one length that agree at every index are one list.
pub eq_of_get_or :
    (m n : List ℕ) (d : ℕ)
    → length m ≡ length n
    → ((i : ℕ) → i < length m → get_or m i d ≡ get_or n i d)
    → m ≡ n
eq_of_get_or [] [] d e h = refl
eq_of_get_or [] (y ∷ n) d e h = absurd (omega arith)
eq_of_get_or (x ∷ m) [] d e h = absurd (omega arith)
eq_of_get_or (x ∷ m) (y ∷ n) d e h =
    let heads : x ≡ y = h 0 (omega arith) in
    let tails : m ≡ n = eq_of_get_or m n d (omega arith) (λ i hi. h (suc i) (omega arith)) in cc

pub index-lt : (w h x y : ℕ) → x < w → y < h → y * w + x < h * w
index-lt w h x y hx hy = grind arith

pub row-le : (w y z : ℕ) → y < z → y * w + w ≤ z * w
row-le w y z h = grind arith

pub index-div : (w x y : ℕ) → x < w → (y * w + x) / w ≡ y
index-div w x y h = grind arith

pub index-mod : (w x y : ℕ) → x < w → (y * w + x) % w ≡ x
index-mod w x y h = grind arith

pos_of_lt : (h w i : ℕ) → i < h * w → 0 < w
pos_of_lt h zero i lt = absurd (omega arith)
pos_of_lt h (suc w) i lt = omega arith

row_of_lt : (h w r c : ℕ) → r * w + c < h * w → r < h
row_of_lt h w r c lt = elim (dec_lt r h) [
  | yes p ↦ p
  | no p ↦ let le : h * w ≤ r * w = grind arith in absurd (omega arith)
]

-- Two grids of one size that agree in every cell are one list.
pub eq_of_at :
    (w h : ℕ) (m n : List ℕ)
    → length m ≡ h * w
    → length n ≡ h * w
    → ((x y : ℕ) → x < w → y < h → at w m x y ≡ at w n x y)
    → m ≡ n
unfolding at
eq_of_at w h m n size_m size_n cells = eq_of_get_or m n 0 (size_m ∙ sym size_n) (λ i lt.
    let pos_w : 0 < w = pos_of_lt h w i (omega arith) in
    let col : i % w < w = mod-lt i pos_w in
    let whole : (i / w) * w + i % w ≡ i = omega (arith, div-add-mod i w) in
    let row : i / w < h = row_of_lt h w (i / w) (i % w) (omega arith) in
    rw whole at (cells (i % w) (i / w) col row))

pub neq_of_false : (a b : ℕ) → (a == b) ≡ false → a ≢ b
neq_of_false a b e = ground arith

pub same_cell : (w i j x y : ℕ) → i < w → x < w → j * w + i ≡ y * w + x → (i ≡ x) × (j ≡ y)
same_cell w i j x y hi hx e =
    (ground (arith, row-le w j y, row-le w y j), ground (arith, row-le w j y, row-le w y j))

-- A write of `v` in the cell (x, y).
pub written :
    (w h : ℕ) (a : List ℕ) (x y v i j : ℕ)
    → length a ≡ h * w
    → x < w
    → y < h
    → i < w
    → j < h
    → ((i ≡ x) × (j ≡ y) × (at w (set a (y * w + x) v) i j ≡ v))
      ⊎ ((i ≡ x → j ≢ y) × (at w (set a (y * w + x) v) i j ≡ at w a i j))
unfolding at
written w h a x y v i j size hx hy hi hj =
    let here = index-lt w h x y hx hy in
    let e = get_or-set a (y * w + x) (j * w + i) v 0 (omega arith) in
    elim (Bool-cases ((y * w + x) == (j * w + i))) [
      | inl t ↦
          let (ei, ej) = same_cell w i j x y hi hx (sym ((==_iff (y * w + x) (j * w + i)).0 t)) in
          inl (ei, ej, e ∙ rw t refl)
      | inr f ↦ inr (λ ei ej. neq_of_false _ _ f (rw (ei, ej) refl), e ∙ rw f refl)
    ]
