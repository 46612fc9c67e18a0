-- ===== src/Wave/Tests.antt =====
-- A wave over a map of two cells by one, with whole numbers as distances.
use rosnavigation2copy.Prelude.{
  ℕ, zero, suc, ◌+◌, ◌<◌, ◌≡◌, refl, sym, ap, ◌∙◌, true, false, some, some_inj, List, [], ◌∷◌,
  arith, length, get_elem?,
}
use mathlib.Core.Path.{subst}
use rosnavigation2copy.Prelude.Loops.{◌>>=◌}
use rosnavigation2copy.Prelude.Int.{pos, negsuc}
use rosnavigation2copy.Platform.{whole}
use rosnavigation2copy.Queue
use rosnavigation2copy.Queue.{enqueue}
use rosnavigation2copy.Queue.Refine.{new-IsValid}
use rosnavigation2copy.Queue.Tests.{by_number}
use rosnavigation2copy.Wave.{
  CellData, CostmapQueue, enqueue_cell, visit_cells, distance_lookup, absolute_difference,
}
use rosnavigation2copy.Wave.Measure.{left}
use rosnavigation2copy.Wave.Steps.{IsWave, enqueue_cell-GoesOn}
use rosnavigation2copy.Wave.Ends.{Ends, visit_cells-Ends}

abbrev start : CostmapQueue ℕ
start = record {
  queue = Queue.new by_number true;
  size_x = 2;
  size_y = 1;
  seen = false ∷ false ∷ [];
  max_distance = pos 0;
  manhattan = true;
  cached_distances = (0 ∷ 1 ∷ []) ∷ (1 ∷ 2 ∷ []) ∷ [];
  cached_max_distance = pos 0;
}

abbrev source : CellData ℕ
source = record { distance = 1; index = 1; x = 1; y = 0; src_x = 0; src_y = 0 }

abbrev sent : CostmapQueue ℕ
sent = record start {
  seen = false ∷ true ∷ [];
  queue = enqueue by_number 1 source (Queue.new by_number true);
}

is_sent : enqueue_cell whole by_number (λ c. true) 1 1 0 0 0 start ≡ some sent
unfolding enqueue_cell distance_lookup absolute_difference
is_sent = refl

start_cached :
    (i j : ℕ)
    → i < 2
    → j < 1
    → (d : ℕ) × ((get_elem? start.cached_distances i >>= λ (row : List ℕ). get_elem? row j)
        ≡ some d)
start_cached zero zero h k = (0, refl)
start_cached (suc zero) zero h k = (1, refl)
start_cached (suc (suc i)) zero h k = absurd (omega arith)
start_cached i (suc j) h k = absurd (omega arith)

start-IsWave : IsWave whole by_number (λ c. true) start
start-IsWave =
    let (v, e) = new-IsValid by_number true in
    let none_queued = ap length e in
    record {
      queue = v;
      sized = refl;
      small = omega arith;
      room = omega (arith, none_queued);
      cells = rw e tt;
      cache = start_cached;
    }

sent-IsWave : IsWave whole by_number (λ c. true) sent
sent-IsWave =
    let g =
      enqueue_cell-GoesOn whole by_number (λ c. true) 1 1 0 0 0 start start-IsWave (omega arith)
        (omega arith) refl (omega arith) (omega arith) in
    subst (λ q. IsWave whole by_number (λ c. true) q) (some_inj (sym g.returns ∙ is_sent)) g.wave

visit_cells-Ends_example :
    Ends whole by_number
      (λ c. true)
      sent
      (visit_cells whole by_number (λ c. true) (left whole by_number (λ c. true) sent + 1) sent)
visit_cells-Ends_example = visit_cells-Ends whole by_number (λ c. true) sent sent-IsWave

-- The queue before its first reset.
abbrev unused : CostmapQueue ℕ
unused = record start {
  seen = [];
  max_distance = negsuc 0;
  cached_distances = [];
  cached_max_distance = negsuc 0;
}
