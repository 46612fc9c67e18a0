-- ===== src/Inflation/Caches.antt =====
-- computeCaches: the tables that a wave reads.
use mathlib.Core.Path.{subst}
use rosnavigation2copy.Prelude.{
  sym, if_of_false, ℕ, zero, suc, ◌+◌, ◌≤◌, ◌<◌, ◌≡◌, refl, ap, ◌∙◌, false, some, List, [], ◌∷◌,
  map, ◌==◌, arith, get_elem?,
}
use rosnavigation2copy.Prelude.Int.{pos}
use rosnavigation2copy.Prelude.Loops.{>>=-eq-some}
use mathlib.Core.Option
use rosnavigation2copy.Platform.{Floats}
use rosnavigation2copy.Wave.{absolute_difference, tabulate}
use rosnavigation2copy.Wave.Reset.{get_elem?-tabulate}
use rosnavigation2copy.Inflation.{
  InflationLayer, lookup, compute_caches, cache_distances, compute_cost,
}
use rosnavigation2copy.Inflation.Front.{HasCaches}

get_elem?-map :
    {A B : Type 0} (f : A → B) (xs : List A) (i : ℕ) {a : A}
    → get_elem? xs i ≡ some a
    → get_elem? (map f xs) i ≡ some (f a)
get_elem?-map f [] i e = cc
get_elem?-map f (x ∷ xs) zero e = ap (Option.map f) e
get_elem?-map f (x ∷ xs) (suc i) e = get_elem?-map f xs i e

plain : {A : Type 0} (f : ℕ → ℕ → A) (i j : ℕ) → f (0 + i) (0 + j) ≡ f i j
plain f i j =
    let ei : 0 + i ≡ i = omega arith in let ej : 0 + j ≡ j = omega arith in rw (ei, ej) refl

-- A square table of `f`.
abbrev table : {A : Type 0} → ℕ → (ℕ → ℕ → A) → List (List A)
table n f = tabulate 0 n (λ i. tabulate 0 n (f i))

lookup-table :
    {A : Type 0} (n : ℕ) (f : ℕ → ℕ → A) (x y sx sy : ℕ)
    → absolute_difference x sx < n
    → absolute_difference y sy < n
    → lookup (table n f) x y sx sy ≡ some (f (absolute_difference x sx) (absolute_difference y sy))
unfolding lookup
lookup-table n f x y sx sy hx hy =
    let row = get_elem?-tabulate 0 n (absolute_difference x sx) (λ i. tabulate 0 n (f i)) hx in
    let cell =
      get_elem?-tabulate 0 n (absolute_difference y sy) (f (0 + absolute_difference x sx)) hy in
    rw row cell ∙ ap some (plain f _ _)

module _ {A B : Type 0} (g : A → B) where
  lookup-map :
      (t : List (List A)) (x y sx sy : ℕ) {a : A}
      → lookup t x y sx sy ≡ some a
      → lookup (map (map g) t) x y sx sy ≡ some (g a)
  unfolding lookup
  lookup-map t x y sx sy e =
      let (row, e_row, e_cell) =
        >>=-eq-some (get_elem? t (absolute_difference x sx))
          (λ row. get_elem? row (absolute_difference y sy)) e in
      rw (get_elem?-map (map g) t (absolute_difference x sx) e_row)
        (get_elem?-map g row (absolute_difference y sy) e_cell)

-- The layer with the tables of its radius.
abbrev with_tables :
    {D : Type 0} → Floats D → (D → D) → (D → D) → InflationLayer D → InflationLayer D
with_tables fl ceil exp l =
    let n = l.cell_inflation_radius + 2 in
    let t = table n (λ i j. fl.hypot (pos i) (pos j)) in
    let l' = record l {
      cached_distances = t;
      cached_cell_inflation_radius = l.cell_inflation_radius;
    } in
    record l' { cached_costs = map (map (compute_cost fl ceil exp l')) t }

compute_caches-eq :
    {D : Type 0} (fl : Floats D) (ceil exp : D → D) (l : InflationLayer D)
    → (l.cell_inflation_radius == 0) ≡ false
    → (l.cell_inflation_radius == l.cached_cell_inflation_radius) ≡ false
    → compute_caches fl ceil exp l ≡ with_tables fl ceil exp l
unfolding compute_caches cache_distances
compute_caches-eq {D} fl ceil exp l some_radius fresh =
    if_of_false _ _ some_radius
    ∙ ap
        (λ (l' : InflationLayer D). record l' {
          cached_costs = map (map (compute_cost fl ceil exp l')) l'.cached_distances;
        })
        (if_of_false _ _ fresh)

-- A radius that is not cached yet, and a `hypot` of which a value within the radius comes from an
-- offset within it: after `compute_caches` the layer has the tables that a wave reads.
pub compute_caches-HasCaches :
    {D : Type 0} (fl : Floats D) (ceil exp : D → D) (l : InflationLayer D)
    → (l.cell_inflation_radius == 0) ≡ false
    → (l.cell_inflation_radius == l.cached_cell_inflation_radius) ≡ false
    → ((i j : ℕ)
        → fl.lt (fl.of_nat l.cell_inflation_radius) (fl.hypot (pos i) (pos j)) ≡ false
        → (i ≤ l.cell_inflation_radius) × (j ≤ l.cell_inflation_radius))
    → HasCaches fl (compute_caches fl ceil exp l)
compute_caches-HasCaches fl ceil exp l some_radius fresh within =
    let n = l.cell_inflation_radius + 2 in
    let hypot = λ (i j : ℕ). fl.hypot (pos i) (pos j) in
    subst (HasCaches fl) (sym (compute_caches-eq fl ceil exp l some_radius fresh)) (record {
      distances = λ x y sx sy hx hy.
          (_, lookup-table n hypot x y sx sy (omega arith) (omega arith), within _ _);
      costs = λ x y sx sy hx hy. (
        _,
        lookup-map _ (table n hypot) x y sx sy
            (lookup-table n hypot x y sx sy (omega arith) (omega arith)),
      );
    })
