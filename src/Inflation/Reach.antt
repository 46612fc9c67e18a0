-- ===== src/Inflation/Reach.antt =====
-- What the wave queues: cells of the map within the radius of a source; and what a push weighs.
use rosnavigation2copy.Prelude.{
  ℕ, ◌+◌, ◌*◌, ◌≤◌, ◌<◌, ◌≡◌, refl, Bool-cases, inl, inr, List, [], ◌∷◌, ◌++◌, length, arith,
  length-append, ◌⊎◌, some, true, get_elem?,
}
use rosnavigation2copy.Platform.{Floats}
use rosnavigation2copy.Wave.{absolute_difference}
use rosnavigation2copy.Wave.Measure.{unseen}
use rosnavigation2copy.Inflation.{CellData, Wavefront, push, push_ahead}

-- A cell of a map of `w` by `h` cells, its index, and a source at most `r` columns and rows away.
pub record Reaches (P : ℕ → ℕ → Type 0) (w h r : ℕ) (c : CellData) : Type 0 where
  pub column : c.x < w
  pub row : c.y < h
  pub place : c.index ≡ c.y * w + c.x
  pub source : P c.src_x c.src_y
  pub near_x : absolute_difference c.x c.src_x ≤ r
  pub near_y : absolute_difference c.y c.src_y ≤ r

module _ (P : ℕ → ℕ → Type 0) (w h r : ℕ) where
  abbrev pub AllReach : List CellData → Type 0
  AllReach [] = Unit {0}
  AllReach (c ∷ cs) = Reaches P w h r c × AllReach cs

  pub AllReach-append :
      (cs : List CellData) (c : CellData)
      → AllReach cs
      → Reaches P w h r c
      → AllReach (cs ++ (c ∷ []))
  AllReach-append [] c all this = (this, all)
  AllReach-append (d ∷ cs) c all this = (all.0, AllReach-append cs c all.1 this)

module _ {D : Type 0} where
  abbrev pub AllBins : (ℕ → ℕ → Type 0) → ℕ → ℕ → ℕ → List (D × List CellData) → Type 0
  AllBins P w h r [] = Unit {0}
  AllBins P w h r ((k, cs) ∷ bins) = AllReach P w h r cs × AllBins P w h r bins

  -- A round for each bin, and two for each cell.
  abbrev pub bins_weight : List (D × List CellData) → ℕ
  bins_weight [] = 0
  bins_weight ((k, cs) ∷ bins) = 1 + 2 * length cs + bins_weight bins

  abbrev pub weight : Wavefront D → ℕ
  weight s = 12 * unseen s.seen + 2 * length s.cells + bins_weight s.later

-- A cell of that index is in the list.
abbrev pub Has : ℕ → List CellData → Type 0
Has n [] = ⊥
Has n (c ∷ cs) = (c.index ≡ n) ⊎ Has n cs

pub Has-append : (n : ℕ) (cs : List CellData) (c : CellData) → Has n cs → Has n (cs ++ (c ∷ []))
Has-append n [] c has = elim has [ ]
Has-append n (d ∷ cs) c (inl e) = inl e
Has-append n (d ∷ cs) c (inr has) = inr (Has-append n cs c has)

pub Has-last : (cs : List CellData) (c : CellData) → Has c.index (cs ++ (c ∷ []))
Has-last [] c = inl refl
Has-last (d ∷ cs) c = inr (Has-last cs c)

-- The cell of that index is done, or waits in the bin of the loops.
abbrev pub Waits : {D : Type 0} → Wavefront D → ℕ → Type 0
Waits s n = (get_elem? s.seen n ≡ some true) ⊎ Has n s.cells

Waits-longer :
    {D : Type 0} (s : Wavefront D) (c : CellData) (n : ℕ)
    → Waits s n
    → Waits (record s { cells = s.cells ++ (c ∷ []) }) n
Waits-longer s c n (inl done) = inl done
Waits-longer s c n (inr has) = inr (Has-append n s.cells c has)

module _ {D : Type 0} (fl : Floats D) where
  push-weight :
      (d : D) (c : CellData) (bins : List (D × List CellData))
      → bins_weight (push fl d c bins) ≤ bins_weight bins + 3
  unfolding push
  push-weight d c [] = omega arith
  push-weight d c ((k, cs) ∷ bins) = elim (Bool-cases (fl.lt d k)) [
    | inl t ↦ rw t (omega arith)
    | inr f ↦ elim (Bool-cases (fl.lt k d)) [
      | inl t ↦ rw (f, t) (omega (arith, push-weight d c bins))
      | inr f' ↦ rw (f, f') (omega (arith, length-append cs (c ∷ [])))
    ]
  ]

  push-AllBins :
      (P : ℕ → ℕ → Type 0) (w h r : ℕ) (d : D) (c : CellData) (bins : List (D × List CellData))
      → AllBins P w h r bins
      → Reaches P w h r c
      → AllBins P w h r (push fl d c bins)
  unfolding push
  push-AllBins P w h r d c [] all this = ((this, tt), tt)
  push-AllBins P w h r d c ((k, cs) ∷ bins) all this = elim (Bool-cases (fl.lt d k)) [
    | inl t ↦ rw t ((this, tt), all)
    | inr f ↦ elim (Bool-cases (fl.lt k d)) [
      | inl t ↦ rw (f, t) (all.0, push-AllBins P w h r d c bins all.1 this)
      | inr f' ↦ rw (f, f') (AllReach-append P w h r cs c all.0 this, all.1)
    ]
  ]

  -- What a push changes: the cells ahead only, all within reach, and at most one bin and one cell.
  pub record Pushed (P : ℕ → ℕ → Type 0) (w h r : ℕ) (s s' : Wavefront D) : Type 0 where
    pub cells : AllReach P w h r s'.cells
    pub later : AllBins P w h r s'.later
    pub seen : s'.seen ≡ s.seen
    pub master : s'.master ≡ s.master
    pub heavier : weight s' ≤ weight s + 3
    pub keeps : (n : ℕ) → Waits s n → Waits s' n

  pub push_ahead-Pushed :
      (P : ℕ → ℕ → Type 0) (w h r : ℕ) (d : D) (c : CellData) (s : Wavefront D)
      → AllReach P w h r s.cells
      → AllBins P w h r s.later
      → Reaches P w h r c
      → Pushed P w h r s (push_ahead fl d c s)
  unfolding push_ahead
  push_ahead-Pushed P w h r d c s cells later this = elim (Bool-cases (fl.lt d s.key)) [
    | inl t ↦ rw t (record {
      cells = cells;
      later = later;
      seen = refl;
      master = refl;
      heavier = omega arith;
      keeps = λ n waits. waits;
    })
    | inr f ↦ elim (Bool-cases (fl.lt s.key d)) [
      | inl t ↦
          rw (f, t)
            (record {
              cells = cells;
              later = push-AllBins P w h r d c s.later later this;
              seen = refl;
              master = refl;
              heavier = omega (arith, push-weight d c s.later);
              keeps = λ n waits. waits;
            })
      | inr f' ↦
          rw (f, f')
            (record {
              cells = AllReach-append P w h r s.cells c cells this;
              later = later;
              seen = refl;
              master = refl;
              heavier = omega (arith, length-append s.cells (c ∷ []));
              keeps = Waits-longer s c;
            })
    ]
  ]
