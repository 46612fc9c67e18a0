-- ===== src/Inflation/Tests.antt =====
-- Runs of the inflation layer: one lethal cell in the middle of 3 by 3 cells, and a radius of a cell.
use rosnavigation2copy.Prelude.{ℕ, ◌+◌, ◌-◌, refl, min, true, false, [], ◌∷◌, arith}
use rosnavigation2copy.Platform.{whole}
use rosnavigation2copy.Costmap.{Costmap, IsValid}
use rosnavigation2copy.Inflation.{InflationLayer, compute_caches, cache_distances, update_costs}
use rosnavigation2copy.Inflation.Front.{HasCaches}
use rosnavigation2copy.Inflation.Caches.{compute_caches-HasCaches}
use rosnavigation2copy.Inflation.Updates.{Inflates, update_costs-Inflates}

abbrev same : ℕ → ℕ
same n = n

abbrev bare : InflationLayer ℕ
bare = record {
  enabled = true;
  inflation_radius = 1;
  inscribed_radius = 1;
  weight = 1;
  inflate_unknown = false;
  cell_inflation_radius = 1;
  cached_cell_inflation_radius = 0;
  cached_costs = [];
  cached_distances = [];
  resolution = 1;
  seen = [];
  last = record { min_x = 0; min_y = 0; max_x = 0; max_y = 0 };
  need_reinflation = false;
}

abbrev master : Costmap ℕ
master = record {
  size_x = 3;
  size_y = 3;
  resolution = 1;
  origin_x = 0;
  origin_y = 0;
  costmap = 0 ∷ 0 ∷ 0 ∷ 9 ∷ 254 ∷ 255 ∷ 0 ∷ 0 ∷ 0 ∷ [];
  default_value = 0;
}

master-IsValid : IsValid master
master-IsValid = record { cells = refl; fits = omega arith }

compute_caches-HasCaches_example : HasCaches whole (compute_caches whole same same bare)
compute_caches-HasCaches_example =
    compute_caches-HasCaches whole same same bare refl refl (λ i j e. (ground arith, ground arith))

update_costs-Inflates_example :
    Inflates
      (compute_caches whole same same bare)
      master
      (0 - 1)
      (0 - 1)
      (min 3 (3 + 1))
      (min 3 (3 + 1))
      (update_costs whole (compute_caches whole same same bare) master 0 0 3 3)
unfolding compute_caches cache_distances
update_costs-Inflates_example =
    update_costs-Inflates whole (compute_caches whole same same bare)
      (compute_caches-HasCaches whole same same bare refl refl
        (λ i j e. (ground arith, ground arith)))
      master master-IsValid 0 0 3 3 refl (omega arith) (omega arith) (omega arith) (omega arith)
      (omega arith) (omega arith) (omega arith) (omega arith)
