-- ===== src/Wave/Reset.antt =====
-- A reset of the queue readies it for a wave over the whole map.
use rosnavigation2copy.Prelude.{
  ℕ, zero, suc, ◌+◌, ◌*◌, ◌≤◌, ◌<◌, ◌≡◌, refl, ap, ◌∙◌, max, Bool, true, false, Option, some, arith,
  get_elem?, length, length-replicate, replicate, u32, u32_mod,
}
use rosnavigation2copy.Prelude.Int.{pos, negsuc, pos_part, eqb_ℤ, ltb_ℤ, ◌+ℤ◌, +ℤ_parts}
use rosnavigation2copy.Platform.{Floats}
use rosnavigation2copy.Queue.{Priority}
use rosnavigation2copy.Queue.Refine.{IsValid, reset-empty}
use rosnavigation2copy.Wave.{CellData, CostmapQueue, tabulate, fill_cache, compute_cache, reset}
use rosnavigation2copy.Wave.Measure.{unseen}
use rosnavigation2copy.Wave.Steps.{HasCache, IsWave}

pub get_elem?-tabulate :
    {A : Type 0} (k n i : ℕ) (f : ℕ → A) → i < n → get_elem? (tabulate k n f) i ≡ some (f (k + i))
get_elem?-tabulate k zero i f h = elim h [ ]
get_elem?-tabulate k (suc n) zero f h = ap (λ (m : ℕ). some (f m)) (omega arith)
get_elem?-tabulate k (suc n) (suc i) f h =
    get_elem?-tabulate (suc k) n i f (omega arith) ∙ ap (λ (m : ℕ). some (f m)) (omega arith)

pub unseen-replicate : (n : ℕ) → unseen (replicate n false) ≡ n
unseen-replicate zero = refl
unseen-replicate (suc n) = ap suc (unseen-replicate n)

-- A square table with a side longer than the map's holds every distance.
HasCache-table :
    {D : Type 0} (w h n : ℕ) (f : ℕ → ℕ → D)
    → w ≤ n
    → h ≤ n
    → HasCache w h (tabulate 0 n (λ i. tabulate 0 n (f i)))
HasCache-table w h n f hw hh i j hi hj =
    let row = get_elem?-tabulate 0 n i (λ i. tabulate 0 n (f i)) (omega arith) in
    let cell = get_elem?-tabulate 0 n j (f (0 + i)) (omega arith) in
    (f (0 + i) (0 + j), rw row cell)

module _ {D : Type 0} (fl : Floats D) (pr : Priority D) (valid : CellData D → Bool) where
  record Readies (q : CostmapQueue D) (o : Option (CostmapQueue D)) : Type 0 where
    pub result : CostmapQueue D
    pub returns : o ≡ some result
    pub wave : IsWave fl pr valid result
    pub columns : result.size_x ≡ q.size_x
    pub rows : result.size_y ≡ q.size_y

  sum_positive : (m : ℕ) → ltb_ℤ (pos m +ℤ pos 2) (pos 0) ≡ false
  sum_positive m = ground (arith, +ℤ_parts (pos m) (pos 2))

  sum_part : (m : ℕ) → m ≤ pos_part (pos m +ℤ pos 2)
  sum_part m = omega (arith, +ℤ_parts (pos m) (pos 2))

  compute_cache-eq :
      (q : CostmapQueue D)
      → q.max_distance ≡ negsuc 0
      → eqb_ℤ (pos (max q.size_x q.size_y)) q.cached_max_distance ≡ false
      → compute_cache fl pr q
        ≡ some (fill_cache fl pr (record q { max_distance = pos (max q.size_x q.size_y) }))
  unfolding compute_cache
  compute_cache-eq q unlimited fresh =
      let start : eqb_ℤ q.max_distance (negsuc 0) ≡ true = rw unlimited refl in
      rw (compute_cache, start, fresh, sum_positive (max q.size_x q.size_y)) refl

  fill_cache-HasCache :
      (q : CostmapQueue D)
      → q.max_distance ≡ pos (max q.size_x q.size_y)
      → HasCache q.size_x q.size_y (fill_cache fl pr q).cached_distances
  unfolding fill_cache
  fill_cache-HasCache q e =
      let n = sum_part (max q.size_x q.size_y) in
      rw e (HasCache-table q.size_x q.size_y _ _ (omega (arith, n)) (omega (arith, n)))

  -- With no limit on the distance, and a cache that is not of this map yet: `reset` returns, and the
  -- queue is ready for a wave over the map.
  reset-Readies :
      (q : CostmapQueue D)
      → IsValid pr q.queue
      → q.size_x * q.size_y + 1 < u32_mod
      → q.max_distance ≡ negsuc 0
      → eqb_ℤ (pos (max q.size_x q.size_y)) q.cached_max_distance ≡ false
      → Readies q (reset fl pr q)
  unfolding reset fill_cache
  reset-Readies q v small unlimited fresh =
      let (v', e) = reset-empty pr q.queue v in
      let cells = u32 (q.size_x * q.size_y) in
      let q0 : CostmapQueue D = record q { seen = replicate cells false } in
      let q1 : CostmapQueue D = record q0 { max_distance = pos (max q.size_x q.size_y) } in
      let made = compute_cache-eq q0 unlimited fresh in
      let count : cells ≡ q.size_x * q.size_y = omega arith in
      let none_queued = ap length e in
      rw made (record {
        result = _;
        returns = refl;
        wave = record {
          queue = v';
          sized = length-replicate cells false ∙ omega (arith, count);
          small = omega arith;
          room = omega (arith, unseen-replicate cells, count, none_queued);
          cells = rw e tt;
          cache = fill_cache-HasCache q1 refl;
        };
        columns = refl;
        rows = refl;
      })
