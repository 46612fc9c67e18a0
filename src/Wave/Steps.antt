-- ===== src/Wave/Steps.antt =====
-- Within a map, enqueueCell never leaves its arrays, and what it queues are cells of the map.
use rosnavigation2copy.Prelude.{
  ℕ, ◌+◌, ◌*◌, ◌<◌, ◌≡◌, refl, ap, ◌∙◌, Bool, true, false, Option, some, List, [], ◌∷◌, arith,
  get_elem?, get_elem?-of_lt, set, length, length-set, u32_mod, Bool-cases, inl, inr, if◌then◌else◌,
}
use rosnavigation2copy.Prelude.Loops.{◌>>=◌}
use rosnavigation2copy.Platform.{Floats}
use rosnavigation2copy.Grid.Index.{index-lt}
use rosnavigation2copy.Queue.{Priority, enqueue}
use rosnavigation2copy.Queue.Entries.{insert}
use rosnavigation2copy.Queue.Refine.{IsValid, view, enqueue-insert}
use rosnavigation2copy.Wave.{
  CellData, CostmapQueue, enqueue_cell, distance_lookup, absolute_difference,
}
use rosnavigation2copy.Wave.Measure.{left, queued}

module _ {D : Type 0} where
  -- A cell of a map of `w` by `h` cells, with its index and its source.
  pub record IsCell (w h : ℕ) (c : CellData D) : Type 0 where
    pub column : c.x < w
    pub row : c.y < h
    pub place : c.index ≡ c.y * w + c.x
    pub src_column : c.src_x < w
    pub src_row : c.src_y < h

  abbrev pub AllCells : ℕ → ℕ → List (D × CellData D) → Type 0
  AllCells w h [] = Unit {0}
  AllCells w h ((k, c) ∷ es) = IsCell w h c × AllCells w h es

  AllCells-insert :
      (pr : Priority D) (w h : ℕ) (k : D) (c : CellData D) (es : List (D × CellData D))
      → IsCell w h c
      → AllCells w h es
      → AllCells w h (insert pr k c es)
  unfolding insert
  AllCells-insert pr w h k c [] i a = (i, a)
  AllCells-insert pr w h k c ((k', c') ∷ es) i a = elim (Bool-cases (pr.lt k' k)) [
    | inl after ↦ rw after (a.0, AllCells-insert pr w h k c es i a.1)
    | inr before ↦ rw before (i, a)
  ]

  -- The cache holds the distance of any two cells of the map.
  abbrev pub HasCache : ℕ → ℕ → List (List D) → Type 0
  HasCache w h cache =
      (i j : ℕ)
      → i < w
      → j < h
      → (d : D) × ((get_elem? cache i >>= λ (row : List D). get_elem? row j) ≡ some d)

-- A run of the wave over a map of less than 2 ^ 32 cells.
pub record IsWave {D : Type 0} (fl : Floats D) (pr : Priority D) (valid : CellData D → Bool)
    (q : CostmapQueue D) : Type 0 where
  pub queue : IsValid pr q.queue
  pub sized : length q.seen ≡ q.size_y * q.size_x
  pub small : q.size_y * q.size_x < u32_mod
  pub room : left fl pr valid q + 1 < u32_mod
  pub cells : AllCells q.size_x q.size_y (view pr q.queue)
  pub cache : HasCache q.size_x q.size_y q.cached_distances

module _ {D : Type 0} (fl : Floats D) (pr : Priority D) (valid : CellData D → Bool) where
  -- The wave goes on: the same map, and as many cells are left.
  pub record GoesOn (q : CostmapQueue D) (o : Option (CostmapQueue D)) : Type 0 where
    pub result : CostmapQueue D
    pub returns : o ≡ some result
    pub wave : IsWave fl pr valid result
    pub same : left fl pr valid result ≡ left fl pr valid q
    pub columns : result.size_x ≡ q.size_x
    pub rows : result.size_y ≡ q.size_y

  pub GoesOn-refl : (q : CostmapQueue D) → IsWave fl pr valid q → GoesOn q (some q)
  GoesOn-refl q w = record {
    result = q;
    returns = refl;
    wave = w;
    same = refl;
    columns = refl;
    rows = refl;
  }

  difference_lt : (a b n : ℕ) → a < n → b < n → absolute_difference a b < n
  unfolding absolute_difference
  difference_lt a b n h k = ground arith

  lookup_total :
      (q : CostmapQueue D) (x y sx sy : ℕ)
      → IsWave fl pr valid q
      → x < q.size_x
      → y < q.size_y
      → sx < q.size_x
      → sy < q.size_y
      → (d : D) × (distance_lookup fl pr q x y sx sy ≡ some d)
  unfolding distance_lookup
  lookup_total q x y sx sy w hx hy hsx hsy =
      w.cache (absolute_difference x sx) (absolute_difference y sy) (difference_lt x sx _ hx hsx)
        (difference_lt y sy _ hy hsy)

  queued-IsWave :
      (c : CellData D) (d : D) (q : CostmapQueue D)
      → IsWave fl pr valid q
      → IsCell q.size_x q.size_y c
      → get_elem? q.seen c.index ≡ some false
      → GoesOn q
          (some (record q { seen = set q.seen c.index true; queue = enqueue pr d c q.queue }))
  queued-IsWave c d q w i h =
      let k = queued fl pr valid c c.index d q w.queue w.room h in
      let (v, e) = enqueue-insert pr d c q.queue w.queue (let r = w.room in omega arith) in
      record {
        result = _;
        returns = refl;
        wave = record {
          queue = k.queue;
          sized = length-set q.seen c.index true ∙ w.sized;
          small = w.small;
          room = let r = w.room in omega (arith, k.same);
          cells = rw e (AllCells-insert pr q.size_x q.size_y d c (view pr q.queue) i w.cells);
          cache = w.cache;
        };
        same = k.same;
        columns = refl;
        rows = refl;
      }

  -- A cell that is not seen, with its distance.
  unseen-GoesOn :
      (test : Bool) (c : CellData D) (d : D) (q : CostmapQueue D)
      → IsWave fl pr valid q
      → IsCell q.size_x q.size_y c
      → get_elem? q.seen c.index ≡ some false
      → GoesOn q (
          if test
          then some (record q { seen = set q.seen c.index true; queue = enqueue pr d c q.queue })
          else some q)
  unseen-GoesOn true c d q w i h = queued-IsWave c d q w i h
  unseen-GoesOn false c d q w i h = GoesOn-refl q w

  pub enqueue_cell-GoesOn :
      (index x y sx sy : ℕ) (q : CostmapQueue D)
      → IsWave fl pr valid q
      → x < q.size_x
      → y < q.size_y
      → index ≡ y * q.size_x + x
      → sx < q.size_x
      → sy < q.size_y
      → GoesOn q (enqueue_cell fl pr valid index x y sx sy q)
  unfolding enqueue_cell
  enqueue_cell-GoesOn index x y sx sy q w hx hy e hsx hsy =
      let inside : index < length q.seen =
        omega (arith, index-lt q.size_x q.size_y x y hx hy, w.sized) in
      let (s, seen) = get_elem?-of_lt q.seen index inside in
      let (d, found) = lookup_total q x y sx sy w hx hy hsx hsy in
      elim (Bool-cases s) [
        | inl old ↦ rw (seen, old) (GoesOn-refl q w)
        | inr new ↦
            rw (seen, new, found)
              (unseen-GoesOn _
                (record { distance = d; index = index; x = x; y = y; src_x = sx; src_y = sy }) d q w
                (record { column = hx; row = hy; place = e; src_column = hsx; src_row = hsy })
                (seen ∙ ap some new))
      ]
