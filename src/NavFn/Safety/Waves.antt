-- ===== src/NavFn/Safety/Waves.antt =====
-- Whole waves: every access of a propagation is within the arrays.
use rosnavigation2copy.Prelude.{
  ℕ, zero, suc, ◌*◌, ◌<◌, ◌≡◌, refl, sym, ◌∙◌, Bool, true, false, Option, some, List, [], ◌∷◌,
  length, get_elem?-of_lt, arith, Bool-cases, inl, inr,
}
use rosnavigation2copy.Prelude.Loops.{◌>>=◌}
use rosnavigation2copy.Platform.{Floats}
use rosnavigation2copy.NavFn.{Constants, NavFn, update_cells}
use rosnavigation2copy.NavFn.Propagation.{swap_buffers, cycle, is_idle, start_cell, propagate}
use rosnavigation2copy.NavFn.Safety.{AllInner, reset_pending_total}
use rosnavigation2copy.NavFn.Safety.Cells.{IsReady, Keeps, Keeps-refl, update_cell-Keeps}

module _ {F : Type 0} (fl : Floats F) (k : Constants F) where
  pub Keeps-bind :
      (nav : NavFn F) (o : Option (NavFn F)) (g : NavFn F → Option (NavFn F))
      → Keeps nav o
      → ((nav' : NavFn F)
          → IsReady nav'
          → nav'.nx ≡ nav.nx
          → nav'.ny ≡ nav.ny
          → Keeps nav' (g nav'))
      → Keeps nav (o >>= g)
  Keeps-bind nav o g p q =
      let r = q p.result p.ready p.columns p.rows in
      record {
        result = r.result;
        returns = rw p.returns r.returns;
        ready = r.ready;
        costarr = r.costarr ∙ p.costarr;
        columns = r.columns ∙ p.columns;
        rows = r.rows ∙ p.rows;
        start = r.start ∙ p.start;
      }

  update_cells-Keeps :
      (rank : ℕ → F → F) (cells : List ℕ) (nav : NavFn F)
      → IsReady nav
      → AllInner nav.nx (nav.nx * nav.ny) cells
      → Keeps nav (update_cells fl k rank cells nav)
  unfolding update_cells
  update_cells-Keeps rank [] nav ready a = Keeps-refl nav ready
  update_cells-Keeps rank (n ∷ cells) nav ready a =
      Keeps-bind nav _ _ (update_cell-Keeps fl k rank n nav ready a.0)
        λ nav' r c w. update_cells-Keeps rank cells nav' r (rw (c, w) a.1)

  swap_buffers-Keeps :
      (nav : NavFn F) (buf : List ℕ)
      → nav.next_p ≡ buf
      → IsReady nav
      → Keeps nav (some (swap_buffers fl k nav))
  unfolding swap_buffers
  swap_buffers-Keeps nav [] e r = rw e (record {
    result = _;
    returns = refl;
    ready = record {
      columns = r.columns;
      costs = r.costs;
      pots = r.pots;
      flags = r.flags;
      outlined = r.outlined;
      cur = r.over;
      next = record { inner = tt; fits = omega arith };
      over = record { inner = tt; fits = omega arith };
    };
    costarr = refl;
    columns = refl;
    rows = refl;
    start = refl;
  })
  swap_buffers-Keeps nav (n ∷ cells) e r = rw e (record {
    result = _;
    returns = refl;
    ready = record {
      columns = r.columns;
      costs = r.costs;
      pots = r.pots;
      flags = r.flags;
      outlined = r.outlined;
      cur = rw (sym e) r.next;
      next = record { inner = tt; fits = omega arith };
      over = r.over;
    };
    costarr = refl;
    columns = refl;
    rows = refl;
    start = refl;
  })

  Keeps-set_pending :
      (nav : NavFn F) (p : List Bool) (o : Option (NavFn F))
      → Keeps (record nav { pending = p }) o
      → Keeps nav o
  Keeps-set_pending nav p o r = record {
    result = r.result;
    returns = r.returns;
    ready = r.ready;
    costarr = r.costarr;
    columns = r.columns;
    rows = r.rows;
    start = r.start;
  }

  set_pending-IsReady :
      (nav : NavFn F) (p : List Bool)
      → length p ≡ nav.nx * nav.ny
      → IsReady nav
      → IsReady (record nav { pending = p })
  set_pending-IsReady nav p l r = record {
    columns = r.columns;
    costs = r.costs;
    pots = r.pots;
    flags = l;
    outlined = r.outlined;
    cur = r.cur;
    next = r.next;
    over = r.over;
  }

  cycle-Keeps : (rank : ℕ → F → F) (nav : NavFn F) → IsReady nav → Keeps nav (cycle fl k rank nav)
  unfolding cycle
  cycle-Keeps rank nav r =
      let (p, e, l) =
        reset_pending_total nav.nx (nav.nx * nav.ny) nav.costarr r.costs r.outlined nav.cur_p
          nav.pending r.cur.inner r.flags in
      rw e (
        Keeps-set_pending nav p _ (
          Keeps-bind _ _ _
            (update_cells-Keeps rank nav.cur_p _ (set_pending-IsReady nav p l r) r.cur.inner)
            λ nav' r' _ _. swap_buffers-Keeps nav' nav'.next_p refl r'))

  -- A run of the wave returns, with the same map and the arrays still ready.
  pub record Runs (nav : NavFn F) (o : Option (NavFn F × Bool)) : Type 0 where
    pub result : NavFn F
    pub ended : Bool
    pub returns : o ≡ some (result, ended)
    pub ready : IsReady result
    pub costarr : result.costarr ≡ nav.costarr
    pub columns : result.nx ≡ nav.nx
    pub rows : result.ny ≡ nav.ny
    pub start : result.start ≡ nav.start

  Runs-refl : (nav : NavFn F) (b : Bool) → IsReady nav → Runs nav (some (nav, b))
  Runs-refl nav b r = record {
    result = nav;
    ended = b;
    returns = refl;
    ready = r;
    costarr = refl;
    columns = refl;
    rows = refl;
    start = refl;
  }

  pub Runs-bind :
      (nav : NavFn F) (o : Option (NavFn F)) (g : NavFn F → Option (NavFn F × Bool))
      → Keeps nav o
      → ((nav' : NavFn F)
          → IsReady nav'
          → nav'.nx ≡ nav.nx
          → nav'.ny ≡ nav.ny
          → nav'.start ≡ nav.start
          → Runs nav' (g nav'))
      → Runs nav (o >>= g)
  Runs-bind nav o g p q =
      let r = q p.result p.ready p.columns p.rows p.start in
      record {
        result = r.result;
        ended = r.ended;
        returns = rw p.returns r.returns;
        ready = r.ready;
        costarr = r.costarr ∙ p.costarr;
        columns = r.columns ∙ p.columns;
        rows = r.rows ∙ p.rows;
        start = r.start ∙ p.start;
      }

  Runs-stop :
      (nav : NavFn F) (found : Bool) (o : Option (NavFn F × Bool))
      → IsReady nav
      → Runs nav o
      → Runs nav
          (elim found as (λ x. Option (NavFn F × Bool)) [ true ↦ some (nav, true) | false ↦ o ])
  Runs-stop nav true o r p = Runs-refl nav true r
  Runs-stop nav false o r p = p

  pub propagate-Runs :
      (rank : ℕ → F → F) (at_start : Bool) (cycles : ℕ) (nav : NavFn F)
      → IsReady nav
      → start_cell fl k nav < nav.nx * nav.ny
      → Runs nav (propagate fl k rank at_start cycles nav)
  unfolding propagate start_cell
  propagate-Runs rank at_start zero nav r h = Runs-refl nav false r
  propagate-Runs rank at_start (suc cycles) nav r h = elim (Bool-cases (is_idle fl k nav)) [
    | inl idle ↦ rw idle (Runs-refl nav true r)
    | inr busy ↦ rw busy (
        Runs-bind nav _ _ (cycle-Keeps rank nav r) λ nav' r' c w s.
          let h' : start_cell fl k nav' < nav'.nx * nav'.ny = rw (c, w, s) h in
          let (p, e) = get_elem?-of_lt nav'.potarr (start_cell fl k nav') (rw r'.pots h') in
          rw e (Runs-stop nav' _ _ r' (propagate-Runs rank at_start cycles nav' r' h')))
  ]
