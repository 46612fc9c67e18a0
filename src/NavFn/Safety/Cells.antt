-- ===== src/NavFn/Safety/Cells.antt =====
-- An update of a cell stays within the arrays and keeps the buffers good.
use rosnavigation2copy.Prelude.{
  ℕ, ◌+◌, ◌-◌, ◌*◌, ◌≤◌, ◌<◌, ◌≡◌, refl, ◌∙◌, Bool, true, false, Option, some, List, length,
  length-set, get_elem?-of_lt, set, arith, Bool-cases, inl, inr, if◌then◌else◌,
}
use rosnavigation2copy.Platform.{Floats}
use rosnavigation2copy.NavFn.{Constants, NavFn, spread, push_neighbors, update_cell}
use rosnavigation2copy.NavFn.Safety.{
  Inner, IsBuffer, minus-eq, IsOutlined, Pushes, >>=-Pushes, push_if-Pushes,
}

module _ {F : Type 0} where
  -- The arrays have their sizes, obstacles bound the map above and below, and the buffers are good.
  pub record IsReady (nav : NavFn F) : Type 0 where
    pub columns : 1 ≤ nav.nx
    pub costs : length nav.costarr ≡ nav.nx * nav.ny
    pub pots : length nav.potarr ≡ nav.nx * nav.ny
    pub flags : length nav.pending ≡ nav.nx * nav.ny
    pub outlined : IsOutlined nav.nx (nav.nx * nav.ny) nav.costarr
    pub cur : IsBuffer nav.nx (nav.nx * nav.ny) nav.cur_p
    pub next : IsBuffer nav.nx (nav.nx * nav.ny) nav.next_p
    pub over : IsBuffer nav.nx (nav.nx * nav.ny) nav.over_p

  -- The state returns ready, of the same map and start.
  pub record Keeps (nav : NavFn F) (o : Option (NavFn F)) : Type 0 where
    pub result : NavFn F
    pub returns : o ≡ some result
    pub ready : IsReady result
    pub costarr : result.costarr ≡ nav.costarr
    pub columns : result.nx ≡ nav.nx
    pub rows : result.ny ≡ nav.ny
    pub start : result.start ≡ nav.start

  pub Keeps-refl : (nav : NavFn F) → IsReady nav → Keeps nav (some nav)
  Keeps-refl nav r = record {
    result = nav;
    returns = refl;
    ready = r;
    costarr = refl;
    columns = refl;
    rows = refl;
    start = refl;
  }

module _ {F : Type 0} (fl : Floats F) (k : Constants F) where
  spread-Pushes :
      (nav : NavFn F) (key : F) (li ri ui di : ℕ) (l r u d : F) (buf : List ℕ) (pending : List Bool)
      → IsReady nav
      → li < nav.nx * nav.ny
      → ri < nav.nx * nav.ny
      → ui < nav.nx * nav.ny
      → di < nav.nx * nav.ny
      → IsBuffer nav.nx (nav.nx * nav.ny) buf
      → length pending ≡ nav.nx * nav.ny
      → Pushes nav.nx
          (nav.nx * nav.ny)
          (spread fl k key (nav.nx * nav.ny) (li, ri, ui, di) (l, r, u, d) nav (buf, pending))
  unfolding spread
  spread-Pushes nav key li ri ui di l r u d buf pending ready hl hr hu hd g f =
      let (lc, el) = get_elem?-of_lt nav.costarr li (rw ready.costs hl) in
      let (rc, er) = get_elem?-of_lt nav.costarr ri (rw ready.costs hr) in
      let (uc, eu) = get_elem?-of_lt nav.costarr ui (rw ready.costs hu) in
      let (dc, ed) = get_elem?-of_lt nav.costarr di (rw ready.costs hd) in
      let push =
        push_if-Pushes nav.nx (nav.nx * nav.ny) nav.costarr ready.costs ready.outlined fl k in
      rw (el, er, eu, ed)
        (>>=-Pushes _ _ _ _ (push _ li buf pending g f) λ b1 p1 g1 f1.
          >>=-Pushes _ _ _ _ (push _ ri b1 p1 g1 f1) λ b2 p2 g2 f2.
            >>=-Pushes _ _ _ _ (push _ ui b2 p2 g2 f2) λ b3 p3 g3 f3. push _ di b3 p3 g3 f3)

  push_neighbors-Keeps :
      (nav : NavFn F) (key : F) (li ri ui di : ℕ) (l r u d : F)
      → IsReady nav
      → li < nav.nx * nav.ny
      → ri < nav.nx * nav.ny
      → ui < nav.nx * nav.ny
      → di < nav.nx * nav.ny
      → Keeps nav (push_neighbors fl k key (li, ri, ui, di) (l, r, u, d) nav)
  unfolding push_neighbors
  push_neighbors-Keeps nav key li ri ui di l r u d ready hl hr hu hd =
      let push = λ (buf : List ℕ).
        spread-Pushes nav key li ri ui di l r u d buf nav.pending ready hl hr hu hd in
      elim (Bool-cases (fl.lt key nav.cur_t)) [
        | inl low ↦
            let p = push nav.next_p ready.next ready.flags in
            rw (low, p.returns)
              (record {
                result = record nav { next_p = p.buf; pending = p.pending };
                returns = refl;
                ready = record {
                  columns = ready.columns;
                  costs = ready.costs;
                  pots = ready.pots;
                  flags = p.flags;
                  outlined = ready.outlined;
                  cur = ready.cur;
                  next = p.good;
                  over = ready.over;
                };
                costarr = refl;
                columns = refl;
                rows = refl;
                start = refl;
              })
        | inr high ↦
            let p = push nav.over_p ready.over ready.flags in
            rw (high, p.returns)
              (record {
                result = record nav { over_p = p.buf; pending = p.pending };
                returns = refl;
                ready = record {
                  columns = ready.columns;
                  costs = ready.costs;
                  pots = ready.pots;
                  flags = p.flags;
                  outlined = ready.outlined;
                  cur = ready.cur;
                  next = ready.next;
                  over = p.good;
                };
                costarr = refl;
                columns = refl;
                rows = refl;
                start = refl;
              })
      ]

  pub set_pot-IsReady :
      (nav : NavFn F) (n : ℕ) (pot : F)
      → IsReady nav
      → IsReady (record nav { potarr = set nav.potarr n pot })
  set_pot-IsReady nav n pot r = record {
    columns = r.columns;
    costs = r.costs;
    pots = length-set nav.potarr n pot ∙ r.pots;
    flags = r.flags;
    outlined = r.outlined;
    cur = r.cur;
    next = r.next;
    over = r.over;
  }

  pub Keeps-set_pot :
      (nav : NavFn F) (n : ℕ) (pot : F) (o : Option (NavFn F))
      → Keeps (record nav { potarr = set nav.potarr n pot }) o
      → Keeps nav o
  Keeps-set_pot nav n pot o p = record {
    result = p.result;
    returns = p.returns;
    ready = p.ready;
    costarr = p.costarr;
    columns = p.columns;
    rows = p.rows;
    start = p.start;
  }

  update-Keeps :
      (test : Bool) (nav : NavFn F) (n li ri ui di : ℕ) (l r u d pot key : F)
      → IsReady nav
      → li < nav.nx * nav.ny
      → ri < nav.nx * nav.ny
      → ui < nav.nx * nav.ny
      → di < nav.nx * nav.ny
      → Keeps nav (
          if test
          then push_neighbors fl k key
              (li, ri, ui, di)
              (l, r, u, d)
              (record nav { potarr = set nav.potarr n pot })
          else some nav)
  update-Keeps false nav n li ri ui di l r u d pot key ready hl hr hu hd = Keeps-refl nav ready
  update-Keeps true nav n li ri ui di l r u d pot key ready hl hr hu hd =
      Keeps-set_pot nav n pot _ (
        push_neighbors-Keeps _ key li ri ui di l r u d (set_pot-IsReady nav n pot ready) hl hr hu
          hd)

  pub update_cell-Keeps :
      (rank : ℕ → F → F) (n : ℕ) (nav : NavFn F)
      → IsReady nav
      → Inner nav.nx (nav.nx * nav.ny) n
      → Keeps nav (update_cell fl k rank n nav)
  unfolding update_cell
  update_cell-Keeps rank n nav ready (above, below) =
      let one = ready.columns in
      let hl : n - 1 < nav.nx * nav.ny = omega arith in
      let hr : n + 1 < nav.nx * nav.ny = omega arith in
      let hu : n - nav.nx < nav.nx * nav.ny = omega arith in
      let hn : n < nav.nx * nav.ny = omega arith in
      let (l, el) = get_elem?-of_lt nav.potarr (n - 1) (rw ready.pots hl) in
      let (r, er) = get_elem?-of_lt nav.potarr (n + 1) (rw ready.pots hr) in
      let (u, eu) = get_elem?-of_lt nav.potarr (n - nav.nx) (rw ready.pots hu) in
      let (d, ed) = get_elem?-of_lt nav.potarr (n + nav.nx) (rw ready.pots below) in
      let (c, ec) = get_elem?-of_lt nav.costarr n (rw ready.costs hn) in
      let (old, eo) = get_elem?-of_lt nav.potarr n (rw ready.pots hn) in
      rw (minus-eq n 1 (omega arith), minus-eq n nav.nx above, el, er, eu, ed, ec, eo)
        (update-Keeps _ nav n (n - 1) (n + 1) (n - nav.nx) (n + nav.nx) l r u d _ _ ready hl hr hu
          below)
