-- ===== src/Inflation/Rounds.antt =====
-- A round of the wave, and the whole wave.
use mathlib.Core.Path.{subst}
use rosnavigation2copy.Prelude.{
  Option, ℕ, zero, suc, ◌+◌, ◌*◌, ◌<◌, ◌≡◌, refl, ap, ◌∙◌, ◌⊎◌, Bool, true, Bool-cases, inl, inr,
  some, List, [], ◌∷◌, length, set, arith, get_elem?, get_elem?-of_lt, u32_mod, get_or,
}
use rosnavigation2copy.Prelude.{get_elem?-set_self}
use rosnavigation2copy.Platform.{Floats}
use rosnavigation2copy.Grid.{at}
use rosnavigation2copy.Grid.Index.{index-lt, read-eq-some, write-eq-some}
use rosnavigation2copy.Wave.Measure.{unseen-set}
use rosnavigation2copy.Inflation.{
  CellData, Wavefront, InflationLayer, inflate_cell, process, inflate,
}
use rosnavigation2copy.Inflation.Reach.{Waits, Has, Reaches, weight}
use rosnavigation2copy.Inflation.Front.{HasCaches, Inflated, IsFront, GoesOn}
use rosnavigation2copy.Inflation.Neighbors.{enqueue_neighbors-GoesOn}
use rosnavigation2copy.Inflation.Visits.{visited-IsFront, seen_longer}

settled : {seen : Option Bool} → (seen ≡ some true) ⊎ ⊥ → seen ≡ some true
settled (inl done) = done
settled (inr none_waits) = elim none_waits [ ]

module _ {D : Type 0} (fl : Floats D) (l : InflationLayer D) (P : ℕ → ℕ → Type 0) (w h : ℕ)
    (orig : List ℕ) (caches : HasCaches fl l) where
  module _ (small : h * w < u32_mod) (c : CellData)
      (this : Reaches P w h l.cell_inflation_radius c) where
    -- The round, after which the cell itself is done.
    process-GoesOn :
        (s : Wavefront D)
        → IsFront fl l P w h orig s
        → (g : GoesOn fl l P w h orig s 0 (process fl l w h c s)) × Waits g.result c.index
    unfolding process
    process-GoesOn s f =
        let here : c.index < h * w =
          omega (arith, this.place, index-lt w h c.x c.y this.column this.row) in
        let (b, seen) = get_elem?-of_lt s.seen c.index (omega (arith, f.sized)) in
        let (cost, found) = caches.costs c.x c.y c.src_x c.src_y this.near_x this.near_y in
        elim (Bool-cases b) [
          | inl old ↦
              rw (process, seen, old)
                (
                  record {
                    result = s;
                    returns = refl;
                    front = f;
                    heavier = omega arith;
                    keeps = λ n waits. waits;
                  },
                  inl (seen ∙ ap some old),
                )
          | inr new ↦
              let unseen_here = seen ∙ ap some new in
              let g =
                enqueue_neighbors-GoesOn fl l P w h orig caches small c this _ (
                  visited-IsFront fl l P w h orig caches small c this cost s f unseen_here found) in
              rw
                (
                  process,
                  seen,
                  new,
                  found,
                  read-eq-some s.master c.index 0 (omega (arith, f.full)),
                  write-eq-some s.master c.index
                      (inflate_cell l.inflate_unknown cost (get_or s.master c.index 0))
                      (omega (arith, f.full)),
                )
                (
                  record {
                    result = g.result;
                    returns = g.returns;
                    front = g.front;
                    heavier =
                        let p = g.heavier in omega (arith, unseen-set s.seen c.index unseen_here);
                    keeps = λ n waits. g.keeps n (
                        seen_longer fl l P w h orig caches small c this s
                          (set s.master c.index
                            (inflate_cell l.inflate_unknown cost (get_or s.master c.index 0)))
                          n (omega (arith, f.sized)) waits);
                  },
                  g.keeps c.index
                      (inl (get_elem?-set_self s.seen c.index true (omega (arith, f.sized)))),
                )
        ]

    -- What waits before the round waits or is done after it.
    process-keeps :
        (s : Wavefront D) (f : IsFront fl l P w h orig s) (n : ℕ)
        → (get_elem? s.seen n ≡ some true) ⊎ ((c.index ≡ n) ⊎ Has n s.cells)
        → Waits (process-GoesOn s f).0.result n
    process-keeps s f n (inl done) = (process-GoesOn s f).0.keeps n (inl done)
    process-keeps s f n (inr (inl e)) =
        subst (Waits (process-GoesOn s f).0.result) e (process-GoesOn s f).1
    process-keeps s f n (inr (inr has)) = (process-GoesOn s f).0.keeps n (inr has)

  explained :
      (s : Wavefront D)
      → IsFront fl l P w h orig s
      → (x y : ℕ) → x < w
      → y < h
      → (at w s.master x y ≡ at w orig x y) ⊎ Inflated l P x y (at w orig x y) (at w s.master x y)
  explained s f x y hx hy =
      let (b, seen) =
        get_elem?-of_lt s.seen (y * w + x) (omega (arith, index-lt w h x y hx hy, f.sized)) in
      elim (Bool-cases b) [
        | inl old ↦ inr (f.done x y hx hy (seen ∙ ap some old))
        | inr new ↦ inl (f.fresh x y hx hy (seen ∙ ap some new))
      ]

  -- With more fuel than the wave weighs, it ends.
  pub inflate-ends :
      h * w < u32_mod
      → (fuel : ℕ) (k : D) (cells : List CellData) (later : List (D × List CellData))
        (seen : List Bool) (master : List ℕ)
      → let s : Wavefront D = record {
        key = k;
        cells = cells;
        later = later;
        seen = seen;
        master = master;
      } in
        IsFront fl l P w h orig s
        → weight s < fuel
        → (m : List ℕ) × (inflate fl l fuel w h s ≡ some m)
          × (length m ≡ h * w)
          × ((x y : ℕ)
              → x < w
              → y < h
              → (at w m x y ≡ at w orig x y) ⊎ Inflated l P x y (at w orig x y) (at w m x y))
          × ((x y : ℕ)
              → x < w
              → y < h
              → Waits s (y * w + x)
              → Inflated l P x y (at w orig x y) (at w m x y))
  unfolding inflate
  inflate-ends small zero k cells later seen m f lt = absurd (omega arith)
  inflate-ends small (suc fuel) k [] [] seen m f lt =
      (m, refl, f.full, explained _ f, λ x y hx hy waits. f.done x y hx hy (settled waits))
  inflate-ends small (suc fuel) k [] ((k', cs) ∷ bins) seen m f lt =
      let (m', e, size, all, waiting) =
        inflate-ends small fuel k' cs bins seen m
          (record {
            sized = f.sized;
            full = f.full;
            cells = f.later.0;
            later = f.later.1;
            done = f.done;
            fresh = f.fresh;
          })
          (omega arith) in
      (m', e, size, all, λ x y hx hy waits. waiting x y hx hy (inl (settled waits)))
  inflate-ends small (suc fuel) k (c ∷ cs) later seen m f lt =
      let s : Wavefront D = record {
        key = k;
        cells = cs;
        later = later;
        seen = seen;
        master = m;
      } in
      let front : IsFront fl l P w h orig s = record {
        sized = f.sized;
        full = f.full;
        cells = f.cells.1;
        later = f.later;
        done = f.done;
        fresh = f.fresh;
      } in
      let g = (process-GoesOn small c f.cells.0 s front).0 in
      let n = g.result in
      let (m', e, size, all, waiting) =
        inflate-ends small fuel n.key n.cells n.later n.seen n.master g.front
          (let p = g.heavier in omega arith) in
      (
        m',
        rw g.returns e,
        size,
        all,
        λ x y hx hy waits.
            waiting x y hx hy (process-keeps small c f.cells.0 s front (y * w + x) waits),
      )
