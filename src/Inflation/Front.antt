-- ===== src/Inflation/Front.antt =====
-- The wave never leaves its arrays, ends, and changes a cost only by the cost of a source in reach.
use rosnavigation2copy.Prelude.{
  ℕ, ◌+◌, ◌*◌, ◌≤◌, ◌<◌, ◌≡◌, refl, ap, ◌∙◌, Bool, true, false, Bool-cases, inl, inr, Option, some,
  List, length, arith, if◌then◌else◌, get_elem?, get_elem?-of_lt,
}
use rosnavigation2copy.Prelude.Loops.{◌>>=◌}
use rosnavigation2copy.Platform.{Floats}
use rosnavigation2copy.Grid.{at}
use rosnavigation2copy.Grid.Index.{index-lt}
use rosnavigation2copy.Wave.{absolute_difference}
use rosnavigation2copy.Inflation.{
  CellData, Wavefront, InflationLayer, lookup, inflate_cell, push_ahead, enqueue,
}
use rosnavigation2copy.Inflation.Reach.{
  Waits, Reaches, AllReach, AllBins, weight, push_ahead-Pushed,
}

-- The tables of a layer: a distance for each offset up to one more than the radius, where one within
-- the radius comes from an offset that is, and a cost for each offset up to the radius.
pub record HasCaches {D : Type 0} (fl : Floats D) (l : InflationLayer D) : Type 0 where
  pub distances :
      (x y sx sy : ℕ)
      → absolute_difference x sx ≤ l.cell_inflation_radius + 1
      → absolute_difference y sy ≤ l.cell_inflation_radius + 1
      → (d : D) × (lookup l.cached_distances x y sx sy ≡ some d)
        × (fl.lt (fl.of_nat l.cell_inflation_radius) d ≡ false
            → (absolute_difference x sx ≤ l.cell_inflation_radius)
              × (absolute_difference y sy ≤ l.cell_inflation_radius))
  pub costs :
      (x y sx sy : ℕ)
      → absolute_difference x sx ≤ l.cell_inflation_radius
      → absolute_difference y sy ≤ l.cell_inflation_radius
      → (cost : ℕ) × (lookup l.cached_costs x y sx sy ≡ some cost)

-- The cost `v` of a cell is what a source in reach makes of the old one, by the table of costs.
pub record Inflated {D : Type 0} (l : InflationLayer D) (P : ℕ → ℕ → Type 0) (x y old v : ℕ)
    : Type 0 where
  pub src_x : ℕ
  pub src_y : ℕ
  pub cost : ℕ
  pub source : P src_x src_y
  pub near_x : absolute_difference x src_x ≤ l.cell_inflation_radius
  pub near_y : absolute_difference y src_y ≤ l.cell_inflation_radius
  pub found : lookup l.cached_costs x y src_x src_y ≡ some cost
  pub value : v ≡ inflate_cell l.inflate_unknown cost old

module _ {D : Type 0} (fl : Floats D) (l : InflationLayer D) (P : ℕ → ℕ → Type 0) (w h : ℕ)
    (orig : List ℕ) where
  -- The invariant of the wave over a map whose costs were `orig`.
  pub record IsFront (s : Wavefront D) : Type 0 where
    pub sized : length s.seen ≡ h * w
    pub full : length s.master ≡ h * w
    pub cells : AllReach P w h l.cell_inflation_radius s.cells
    pub later : AllBins P w h l.cell_inflation_radius s.later
    pub done :
        (x y : ℕ)
        → x < w
        → y < h
        → get_elem? s.seen (y * w + x) ≡ some true
        → Inflated l P x y (at w orig x y) (at w s.master x y)
    pub fresh :
        (x y : ℕ)
        → x < w
        → y < h
        → get_elem? s.seen (y * w + x) ≡ some false
        → at w s.master x y ≡ at w orig x y

  -- `o` returns, and what it returns weighs at most `more` more; a cell that is done or waits still
  -- is or does.
  pub record GoesOn (s : Wavefront D) (more : ℕ) (o : Option (Wavefront D)) : Type 0 where
    pub result : Wavefront D
    pub returns : o ≡ some result
    pub front : IsFront result
    pub heavier : weight result ≤ weight s + more
    pub keeps : (n : ℕ) → Waits s n → Waits result n

  pub GoesOn-refl : (s : Wavefront D) → (more : ℕ) → IsFront s → GoesOn s more (some s)
  GoesOn-refl s more f = record {
    result = s;
    returns = refl;
    front = f;
    heavier = omega arith;
    keeps = λ n waits. waits;
  }

  pub GoesOn-bind :
      (s : Wavefront D) (a b : ℕ) (o : Option (Wavefront D))
      (k : Wavefront D → Option (Wavefront D))
      → GoesOn s a o
      → ((s' : Wavefront D) → IsFront s' → GoesOn s' b (k s'))
      → GoesOn s (a + b) (o >>= k)
  GoesOn-bind s a b o k g next =
      let n = next g.result g.front in
      record {
        result = n.result;
        returns = ap (λ r. r >>= k) g.returns ∙ n.returns;
        front = n.front;
        heavier = let p = g.heavier in let q = n.heavier in omega arith;
        keeps = λ i waits. n.keeps i (g.keeps i waits);
      }

  pushed-IsFront :
      (d : D) (c : CellData) (s : Wavefront D)
      → IsFront s
      → Reaches P w h l.cell_inflation_radius c
      → GoesOn s 3 (some (push_ahead fl d c s))
  pushed-IsFront d c s f this =
      let p = push_ahead-Pushed fl P w h l.cell_inflation_radius d c s f.cells f.later this in
      record {
        result = push_ahead fl d c s;
        returns = refl;
        front = record {
          sized = ap length p.seen ∙ f.sized;
          full = ap length p.master ∙ f.full;
          cells = p.cells;
          later = p.later;
          done = rw (p.master, p.seen) f.done;
          fresh = rw (p.master, p.seen) f.fresh;
        };
        heavier = p.heavier;
        keeps = p.keeps;
      }

  module _ (caches : HasCaches fl l) where
    pub enqueue-GoesOn :
        (index x y sx sy : ℕ) (s : Wavefront D)
        → IsFront s
        → x < w
        → y < h
        → index ≡ y * w + x
        → P sx sy
        → absolute_difference x sx ≤ l.cell_inflation_radius + 1
        → absolute_difference y sy ≤ l.cell_inflation_radius + 1
        → GoesOn s 3 (enqueue fl l index x y sx sy s)
    unfolding enqueue
    enqueue-GoesOn index x y sx sy s f hx hy e source near_x near_y =
        let inside : index < length s.seen = omega (arith, index-lt w h x y hx hy, f.sized) in
        let (b, seen) = get_elem?-of_lt s.seen index inside in
        let (d, found, close) = caches.distances x y sx sy near_x near_y in
        elim (Bool-cases b) [
          | inl old ↦ rw (enqueue, seen, old) (GoesOn-refl s 3 f)
          | inr new ↦ elim (Bool-cases (fl.lt (fl.of_nat l.cell_inflation_radius) d)) [
            | inl far ↦ rw (enqueue, seen, new, found, far) (GoesOn-refl s 3 f)
            | inr near ↦
                rw (enqueue, seen, new, found, near)
                  (pushed-IsFront d (record { index = index; x = x; y = y; src_x = sx; src_y = sy })
                    s f
                    (record {
                      column = hx;
                      row = hy;
                      place = e;
                      source = source;
                      near_x = (close near).0;
                      near_y = (close near).1;
                    }))
          ]
        ]

    pub GoesOn-if :
        (b : Bool) (s : Wavefront D) (go : Option (Wavefront D))
        → IsFront s
        → (b ≡ true → GoesOn s 3 go)
        → GoesOn s 3 (if b then go else some s)
    GoesOn-if true s go f next = next refl
    GoesOn-if false s go f next = GoesOn-refl s 3 f
