-- ===== src/NavFn/Setup.antt =====
-- setupNavFn readies the arrays and the buffers for a wave, for any cell of the map as the goal.
use rosnavigation2copy.Prelude.{
  ℕ, zero, suc, ◌+◌, ◌-◌, ◌*◌, ◌≤◌, ◌<◌, ◌≡◌, ◌≢◌, some_inj, refl, sym, ◌∙◌, true, Option, some,
  List, [], ◌∷◌, length, length-set, get_elem?, get_elem?-of_lt, get_elem?-set_self, set, ltb, leb,
  arith, Bool-cases, inl, inr,
}
use rosnavigation2copy.Grid.Index.{index-lt}
use rosnavigation2copy.NavFn.{cost_obs, outline, outline_map}
use rosnavigation2copy.NavFn.Safety.{IsOutlined}

-- Obstacles stay obstacles.
abbrev KeepsObstacles : List ℕ → List ℕ → Type 0
KeepsObstacles old new = (n : ℕ) → get_elem? old n ≡ some cost_obs → get_elem? new n ≡ some cost_obs

set-KeepsObstacles : (cs : List ℕ) (i : ℕ) → KeepsObstacles cs (set cs i cost_obs)
set-KeepsObstacles [] i n e = e
set-KeepsObstacles (c ∷ cs) zero zero e = refl
set-KeepsObstacles (c ∷ cs) zero (suc n) e = e
set-KeepsObstacles (c ∷ cs) (suc i) zero e = e
set-KeepsObstacles (c ∷ cs) (suc i) (suc n) e = set-KeepsObstacles cs i n e

-- A side of the map becomes obstacles.
record Outlines (count i step : ℕ) (costarr : List ℕ) (o : Option (List ℕ)) : Type 0 where
  result : List ℕ
  returns : o ≡ some result
  sized : length result ≡ length costarr
  kept : KeepsObstacles costarr result
  marked : (j : ℕ) → j < count → get_elem? result (i + j * step) ≡ some cost_obs

mark_first :
    (count i step : ℕ) (costarr : List ℕ) (o : Option (List ℕ))
    → i < length costarr
    → (r : Outlines count (i + step) step (set costarr i cost_obs) o) → (j : ℕ) → j < suc count
    → get_elem? r.result (i + j * step) ≡ some cost_obs
mark_first count i step costarr o h r zero l =
    let e : i + 0 * step ≡ i = omega arith in
    rw e (r.kept i (get_elem?-set_self costarr i cost_obs h))
mark_first count i step costarr o h r (suc j) l =
    let e : i + suc j * step ≡ i + step + j * step = omega arith in rw e (r.marked j (omega arith))

outline-Outlines :
    (count i step : ℕ) (costarr : List ℕ)
    → ((j : ℕ) → j < count → i + j * step < length costarr)
    → Outlines count i step costarr (outline count i step costarr)
unfolding outline
outline-Outlines zero i step costarr h = record {
  result = costarr;
  returns = refl;
  sized = refl;
  kept = λ n e. e;
  marked = λ j l. elim l [ ];
}
outline-Outlines (suc count) i step costarr h =
    let first : i < length costarr = omega (arith, h 0 (omega arith)) in
    let (c, e) = get_elem?-of_lt costarr i first in
    let rest =
      outline-Outlines count (i + step) step (set costarr i cost_obs)
        λ j l. omega (arith, h (suc j) (omega arith), length-set costarr i cost_obs) in
    rw e (record {
      result = rest.result;
      returns = rest.returns;
      sized = rest.sized ∙ length-set costarr i cost_obs;
      kept = λ n h'. rest.kept n (set-KeepsObstacles costarr i n h');
      marked = mark_first count i step costarr _ first rest;
    })

-- A cost array after the sides are drawn.
pub record IsFramed (nx ny : ℕ) (o : Option (List ℕ)) : Type 0 where
  pub result : List ℕ
  pub returns : o ≡ some result
  pub sized : length result ≡ nx * ny
  pub outlined : IsOutlined nx (nx * ny) result

obstacle_ne :
    (cs : List ℕ) (n c : ℕ)
    → get_elem? cs n ≡ some c
    → ltb c cost_obs ≡ true
    → get_elem? cs n ≢ some cost_obs
obstacle_ne cs n c e f h = let same : c ≡ cost_obs = some_inj (sym e ∙ h) in ground arith

lt_of_get : (xs : List ℕ) (n a : ℕ) → get_elem? xs n ≡ some a → n < length xs
lt_of_get [] n a e = ground arith
lt_of_get (x ∷ xs) zero a e = omega arith
lt_of_get (x ∷ xs) (suc n) a e = omega (arith, lt_of_get xs n a e)

IsOutlined-of_rows :
    (nx ny : ℕ) (cs : List ℕ)
    → length cs ≡ nx * suc ny
    → ((j : ℕ) → j < nx → get_elem? cs (0 + j * 1) ≡ some cost_obs)
    → ((j : ℕ) → j < nx → get_elem? cs (ny * nx + j * 1) ≡ some cost_obs)
    → IsOutlined nx (nx * suc ny) cs
IsOutlined-of_rows nx ny cs sized top bottom n c e f =
    let inside : n < nx * suc ny = omega (arith, lt_of_get cs n c e, sized) in
    let above : nx ≤ n = elim (Bool-cases (leb nx n)) [
      | inl h ↦ ground arith
      | inr h ↦
          let l : n < nx = ground arith in
          let i : 0 + n * 1 ≡ n = omega arith in
          absurd (obstacle_ne cs n c e f (rw (sym i) (top n l)))
    ] in
    let below : n + nx < nx * suc ny = elim (Bool-cases (leb (suc (n + nx)) (nx * suc ny))) [
      | inl h ↦ ground arith
      | inr h ↦
          let l : nx * suc ny ≤ n + nx = ground arith in
          let i : ny * nx + (n - ny * nx) * 1 ≡ n = omega arith in
          absurd (obstacle_ne cs n c e f (rw (sym i) (bottom (n - ny * nx) (omega arith))))
    ] in
    (above, below)

frames_rows :
    (nx ny : ℕ) (cs : List ℕ)
    → 1 ≤ nx
    → length cs ≡ nx * suc ny
    → IsFramed nx (suc ny) (outline_map nx (suc ny) cs)
unfolding outline_map
frames_rows nx ny cs hx sized =
    let inside : (x y : ℕ) → x < nx → y < suc ny → y * nx + x < nx * suc ny =
      λ x y lx ly. omega (arith, index-lt nx (suc ny) x y lx ly) in
    let top = outline-Outlines nx 0 1 cs λ j l. omega (arith, sized, inside j 0 l (omega arith)) in
    let bottom =
      outline-Outlines nx (ny * nx) 1 top.result
        λ j l. omega (arith, top.sized, sized, inside j ny l (omega arith)) in
    let left =
      outline-Outlines (suc ny) 0 nx bottom.result
        λ j l. omega (arith, bottom.sized, top.sized, sized, inside 0 j (omega arith) l) in
    let right = outline-Outlines (suc ny) (nx - 1) nx left.result λ j l.
      omega
        (arith, left.sized, bottom.sized, top.sized, sized, inside (nx - 1) j (omega arith) l) in
    let size : length right.result ≡ nx * suc ny =
      right.sized ∙ left.sized ∙ bottom.sized ∙ top.sized ∙ sized in
    let last : suc ny - 1 ≡ ny = omega arith in
    rw (last, top.returns, bottom.returns, left.returns)
      (record {
        result = right.result;
        returns = right.returns;
        sized = size;
        outlined =
            IsOutlined-of_rows nx ny right.result size
              (λ j l. right.kept _ (left.kept _ (bottom.kept _ (top.marked j l))))
              (λ j l. right.kept _ (left.kept _ (bottom.marked j l)));
      })

pub outline_map-IsFramed :
    (nx ny : ℕ) (cs : List ℕ)
    → 1 ≤ nx
    → 1 ≤ ny
    → length cs ≡ nx * ny
    → IsFramed nx ny (outline_map nx ny cs)
outline_map-IsFramed nx zero cs hx hy sized = elim hy [ ]
outline_map-IsFramed nx (suc ny) cs hx hy sized = frames_rows nx ny cs hx sized
