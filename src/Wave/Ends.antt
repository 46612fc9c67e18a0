-- ===== src/Wave/Ends.antt =====
-- The wave visits cells of the map one by one, and ends.
use rosnavigation2copy.Prelude.{
  ℕ, zero, suc, ◌+◌, ◌≤◌, ◌<◌, ◌≡◌, refl, sym, ap, ◌∙◌, Bool, true, false, Option, some, List, [],
  ◌∷◌, arith, length, Bool-cases, inl, inr,
}
use rosnavigation2copy.Platform.{Floats}
use rosnavigation2copy.Queue.{Priority, value, front, pop, is_empty}
use rosnavigation2copy.Queue.Entries.{tail}
use rosnavigation2copy.Queue.Refine.{view, front-head, pop-tail, is_empty_iff}
use rosnavigation2copy.Wave.{CellData, CostmapQueue, get_next_cell, visit_cells}
use rosnavigation2copy.Wave.Measure.{left}
use rosnavigation2copy.Wave.Steps.{IsCell, IsWave}
use rosnavigation2copy.Wave.Neighbors.{neighbors-GoesOn}

module _ {D : Type 0} (fl : Floats D) (pr : Priority D) (valid : CellData D → Bool) where
  -- What getNextCell comes to: a cell of the map, and one cell less to visit.
  pub record NextCell (q : CostmapQueue D) (o : Option (CellData D × CostmapQueue D)) : Type 0 where
    pub cell : CellData D
    pub result : CostmapQueue D
    pub returns : o ≡ some (cell, result)
    pub in_map : IsCell q.size_x q.size_y cell
    pub wave : IsWave fl pr valid result
    pub fewer : left fl pr valid result + 1 ≡ left fl pr valid q
    pub columns : result.size_x ≡ q.size_x
    pub rows : result.size_y ≡ q.size_y

  -- The queue after pop().
  popped-IsWave :
      (q : CostmapQueue D) (k : D) (c : CellData D) (es : List (D × CellData D))
      → IsWave fl pr valid q
      → view pr q.queue ≡ (k, c) ∷ es
      → IsWave fl pr valid (record q { queue = pop pr q.queue })
        × (left fl pr valid (record q { queue = pop pr q.queue }) + 1 ≡ left fl pr valid q)
  popped-IsWave q k c es w e =
      let (v, t) = pop-tail pr q.queue w.queue in
      let view' : view pr (pop pr q.queue) ≡ es =
        t ∙ ap (λ (l : List (D × CellData D)). tail l) e in
      let all = ap length e in
      let rest = ap length view' in
      let size : length (view pr q.queue) ≡ length (view pr (pop pr q.queue)) + 1 =
        omega (arith, all, rest) in
      (
        record {
          queue = v;
          sized = w.sized;
          small = w.small;
          room = let r = w.room in omega (arith, size);
          cells = rw view' (rw e at w.cells).1;
          cache = w.cache;
        },
        omega (arith, size),
      )

  next-of_view :
      (q : CostmapQueue D) (k : D) (c : CellData D) (es : List (D × CellData D))
      → IsWave fl pr valid q
      → view pr q.queue ≡ (k, c) ∷ es
      → NextCell q (get_next_cell fl pr valid q)
  unfolding get_next_cell
  next-of_view q k c es w e =
      let (w', fewer) = popped-IsWave q k c es w e in
      let i : IsCell q.size_x q.size_y c = (rw e at w.cells).0 in
      let n = neighbors-GoesOn fl pr valid c (record q { queue = pop pr q.queue }) w' i in
      let at_front : front pr q.queue ≡ value c = front-head pr q.queue w.queue ∙ rw e refl in
      rw (get_next_cell, at_front, n.returns)
        (record {
          cell = c;
          result = n.result;
          returns = refl;
          in_map = i;
          wave = n.wave;
          fewer = omega (arith, n.same, fewer);
          columns = n.columns;
          rows = n.rows;
        })

  -- The cells that are visited are cells of the map.
  abbrev pub AllVisited : ℕ → ℕ → List (CellData D) → Type 0
  AllVisited w h [] = Unit {0}
  AllVisited w h (c ∷ cells) = IsCell w h c × AllVisited w h cells

  -- A wave that is run to its end visits cells of the map, not more than were left.
  pub record Ends (q : CostmapQueue D) (o : Option (List (CellData D))) : Type 0 where
    pub cells : List (CellData D)
    pub returns : o ≡ some cells
    pub in_map : AllVisited q.size_x q.size_y cells
    pub count : length cells ≤ left fl pr valid q

  visit-empty :
      (fuel : ℕ) (q : CostmapQueue D)
      → IsWave fl pr valid q
      → view pr q.queue ≡ []
      → Ends q (visit_cells fl pr valid (suc fuel) q)
  unfolding visit_cells
  visit-empty fuel q w e =
      let done : is_empty pr q.queue ≡ true = (is_empty_iff pr q.queue w.queue).1 e in
      rw (visit_cells, done)
        (record { cells = []; returns = refl; in_map = tt; count = omega arith })

  visit-next :
      (fuel : ℕ) (q : CostmapQueue D) (n : NextCell q (get_next_cell fl pr valid q))
      → is_empty pr q.queue ≡ false
      → Ends n.result (visit_cells fl pr valid fuel n.result)
      → Ends q (visit_cells fl pr valid (suc fuel) q)
  unfolding visit_cells
  visit-next fuel q n more rest =
      rw (visit_cells, more, n.returns, rest.returns)
        (record {
          cells = n.cell ∷ rest.cells;
          returns = refl;
          in_map = (n.in_map, rw (n.columns, n.rows) at rest.in_map);
          count = omega (arith, rest.count, n.fewer);
        })

  visit-of_view :
      (fuel : ℕ) (q : CostmapQueue D) (es : List (D × CellData D))
      → IsWave fl pr valid q
      → view pr q.queue ≡ es
      → left fl pr valid q < fuel
      → Ends q (visit_cells fl pr valid fuel q)
  visit-of_view zero q es w e h = absurd (omega arith)
  visit-of_view (suc fuel) q [] w e h = visit-empty fuel q w e
  visit-of_view (suc fuel) q ((k, c) ∷ es) w e h =
      let n = next-of_view q k c es w e in
      let more : is_empty pr q.queue ≡ false = elim (Bool-cases (is_empty pr q.queue)) [
        | inl t ↦
            let size = ap length (sym e ∙ (is_empty_iff pr q.queue w.queue).0 t) in
            absurd (omega arith)
        | inr f ↦ f
      ] in
      visit-next fuel q n more
        (visit-of_view fuel n.result (view pr n.result.queue) n.wave refl (omega (arith, n.fewer)))

  -- On a map of less than 2 ^ 32 cells, with a queue of its cells and a cache of the distances between
  -- them: calls of getNextCell while the queue is not empty come to an end, without an access out of
  -- bounds or an exception, after as many calls at most as there were cells not seen or queued, and
  -- return cells of the map with their indices.
  pub visit_cells-Ends :
      (q : CostmapQueue D)
      → IsWave fl pr valid q
      → Ends q (visit_cells fl pr valid (left fl pr valid q + 1) q)
  visit_cells-Ends q w = visit-of_view _ q (view pr q.queue) w refl (omega arith)
