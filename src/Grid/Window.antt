-- ===== src/Grid/Window.antt =====
-- What a loop over a row or a window of cells does to a grid, cell by cell.
use rosnavigation2copy.Prelude.{ℕ, ◌+◌, ◌-◌, ◌*◌, ◌≤◌, ◌<◌, ◌≡◌, ◌∙◌, refl, sym, ap, Option, some}
use rosnavigation2copy.Prelude.{
  List, Bool, ◌&&◌, ltb, leb, if◌then◌else◌, arith, u32, u32_mod, u32-eq_of_lt,
}
use rosnavigation2copy.Prelude.{length, set, get_or, length-set}
use rosnavigation2copy.Prelude.Loops.{for_range, for_range_inv, ◌>>=◌}
use rosnavigation2copy.Grid.{at, for_row, for_window}
use rosnavigation2copy.Grid.Index.{get_or-set, row-le}

abbrev pub in_window : ℕ → ℕ → ℕ → ℕ → ℕ → ℕ → Bool
in_window lo_x lo_y hi_x hi_y x y = leb lo_x x && ltb x hi_x && leb lo_y y && ltb y hi_y

-- `r` is a normal return with the same number of cells, where each index `q` from `lo` up to `hi`
-- holds `f q` of its old value and the others are unchanged.
pub record Maps (f : ℕ → ℕ → ℕ) (lo hi : ℕ) (m : List ℕ) (r : Option (List ℕ)) : Type 0 where
  pub out : List ℕ
  pub returns : r ≡ some out
  pub size : length out ≡ length m
  pub cells :
      (q : ℕ) → get_or out q 0 ≡ (if leb lo q && ltb q hi then f q (get_or m q 0) else get_or m q 0)

module _ (f : ℕ → ℕ → ℕ) (cell : ℕ → List ℕ → Option (List ℕ)) (n : ℕ) where
  -- One round of the loop writes `f` of the old value into the current cell.
  abbrev pub Writes : Type 0
  Writes =
      (it : ℕ) (m : List ℕ)
      → it < n
      → length m ≡ n
      → cell it m ≡ some (set m it (f it (get_or m it 0)))

  record Row (lo start : ℕ) (m : List ℕ) (i : ℕ) (s : ℕ × List ℕ) : Type 0 where
    from : lo ≤ i
    place : s.0 + lo ≡ start + i
    size : length s.1 ≡ n
    cells :
        (q : ℕ)
        → get_or s.1 q 0
          ≡ (if leb start q && ltb (q + lo) (start + i) then f q (get_or m q 0) else get_or m q 0)

  module _ (fits : n < u32_mod) (writes : Writes) where
    Row-step :
        (lo hi start : ℕ) (m : List ℕ)
        → start + hi ≤ n + lo
        → (i : ℕ) (s : ℕ × List ℕ) → i < hi
        → Row lo start m i s
        → (s' : ℕ × List ℕ) × ((cell s.0 s.1 >>= λ m'. some (u32 (s.0 + 1), m')) ≡ some s')
          × Row lo start m (i + 1) s'
    Row-step lo hi start m room i (it, a) hi_i r =
        let here : it < n = omega arith in
        let v = f it (get_or a it 0) in
        (
          (u32 (it + 1), set a it v),
          rw (writes it a here r.size),
          record {
            from = omega (arith, r.from);
            place = omega arith;
            size = length-set a it v ∙ r.size;
            cells = λ q. ground (arith, r.cells q, r.cells it, get_or-set a it q v 0);
          },
        )

    pub for_row-Maps :
        (lo hi start : ℕ) (m : List ℕ)
        → length m ≡ n
        → lo ≤ hi
        → start + hi ≤ n + lo
        → Maps f start (start + hi - lo) m (for_row cell lo hi start m >>= λ s. some s.1)
    unfolding for_row
    for_row-Maps lo hi start m size le room =
        let (s, e, r) =
          for_range_inv (Row lo start m) _ hi (Row-step lo hi start m room) (hi - lo) lo (start, m)
            (omega arith)
            (record {
              from = omega arith;
              place = omega arith;
              size = size;
              cells = λ q. ground arith;
            }) in
        record {
          out = s.1;
          returns = rw e;
          size = omega (arith, r.size);
          cells = λ q. ground (arith, r.cells q);
        }

-- `r` is a normal return with the same number of cells, where each cell of the window holds `g` of
-- its column, its row and its old value, and the other cells of the `w` by `h` grid are unchanged.
pub record MapsWindow (g : ℕ → ℕ → ℕ → ℕ) (w h lo_x lo_y hi_x hi_y : ℕ) (m : List ℕ)
    (r : Option (List ℕ)) : Type 0 where
  pub out : List ℕ
  pub returns : r ≡ some out
  pub size : length out ≡ length m
  pub cells :
      (x y : ℕ)
      → x < w
      → y < h
      → at w out x y
        ≡ (if in_window lo_x lo_y hi_x hi_y x y then g x y (at w m x y) else at w m x y)

pub MapsWindow-of_eq :
    {g : ℕ → ℕ → ℕ → ℕ} {w h lo_x lo_y hi_x hi_y : ℕ} {m : List ℕ} {r r' : Option (List ℕ)}
    → r ≡ r'
    → MapsWindow g w h lo_x lo_y hi_x hi_y m r'
    → MapsWindow g w h lo_x lo_y hi_x hi_y m r
MapsWindow-of_eq e t = record {
  out = t.out;
  returns = e ∙ t.returns;
  size = t.size;
  cells = t.cells;
}

-- The body for row `j` computes `g` on the piece of that row in the window.
pub record MapsRow (g : ℕ → ℕ → ℕ → ℕ) (w lo_x hi_x j : ℕ) (m : List ℕ) (r : Option (List ℕ))
    : Type 0 where
  pub f : ℕ → ℕ → ℕ
  pub agrees : (x v : ℕ) → lo_x ≤ x → x < hi_x → f (j * w + x) v ≡ g x j v
  pub maps : Maps f (j * w + lo_x) (j * w + hi_x) m r

module _ (g : ℕ → ℕ → ℕ → ℕ) (row : ℕ → List ℕ → Option (List ℕ)) (w h lo_x lo_y hi_x hi_y : ℕ)
    (m : List ℕ) where
  -- The rows from `lo_y` up to `j` are done.
  record Rows (j : ℕ) (a : List ℕ) : Type 0 where
    from : lo_y ≤ j
    size : length a ≡ h * w
    cells :
        (x y : ℕ)
        → x < w
        → y < h
        → at w a x y ≡ (if in_window lo_x lo_y hi_x j x y then g x y (at w m x y) else at w m x y)

  module _ (fit_x : hi_x ≤ w) (fit_y : hi_y ≤ h)
      (maps_row : (j : ℕ) (a : List ℕ)
        → lo_y ≤ j
        → j < hi_y
        → length a ≡ h * w
        → MapsRow g w lo_x hi_x j a (row j a)) where
    Rows-step :
        (j : ℕ) (a : List ℕ)
        → j < hi_y
        → Rows j a
        → (a' : List ℕ) × (row j a ≡ some a') × Rows (j + 1) a'
    unfolding at
    Rows-step j a lt r =
        let this = maps_row j a r.from lt r.size in
        (
          this.maps.out,
          this.maps.returns,
          record {
            from = omega (arith, r.from);
            size = this.maps.size ∙ r.size;
            cells = λ x y hx hy. ground (
              arith,
              this.maps.cells (y * w + x),
              this.agrees x (get_or a (y * w + x) 0),
              r.cells x y hx hy,
              row-le w y j,
              row-le w j y,
            );
          },
        )

    pub rows-MapsWindow :
        length m ≡ h * w
        → lo_y ≤ hi_y
        → MapsWindow g w h lo_x lo_y hi_x hi_y m (for_range (hi_y - lo_y) lo_y row m)
    rows-MapsWindow size le_y =
        let (a, e, r) =
          for_range_inv Rows row hi_y Rows-step (hi_y - lo_y) lo_y m (omega arith)
            (record { from = omega arith; size = size; cells = λ x y hx hy. ground arith }) in
        record { out = a; returns = e; size = r.size ∙ sym size; cells = r.cells }

module _ (f : ℕ → ℕ → ℕ) (cell : ℕ → List ℕ → Option (List ℕ)) (w h : ℕ) where
  -- The loop nest over a window, where a round writes `f` of the index and the old value.
  pub for_window-MapsWindow :
      h * w < u32_mod
      → Writes f cell (h * w)
      → (lo_x lo_y hi_x hi_y : ℕ) (m : List ℕ) → length m ≡ h * w
      → lo_x ≤ hi_x
      → lo_y ≤ hi_y
      → hi_x ≤ w
      → hi_y ≤ h
      → MapsWindow
          (λ x y v. f (y * w + x) v)
          w
          h
          lo_x
          lo_y
          hi_x
          hi_y
          m
          (for_window cell w lo_x lo_y hi_x hi_y m)
  unfolding for_window
  for_window-MapsWindow fits writes lo_x lo_y hi_x hi_y m size le_x le_y fit_x fit_y =
      rows-MapsWindow _ _ w h lo_x lo_y hi_x hi_y m fit_x fit_y
        (λ j a _ lt size_a.
          let room : j * w + w ≤ h * w = row-le w j h (omega arith) in
          let start : u32 (j * w + lo_x) ≡ j * w + lo_x = u32-eq_of_lt _ (omega arith) in
          let row =
            for_row-Maps f cell (h * w) fits writes lo_x hi_x (j * w + lo_x) a size_a le_x
              (omega arith) in
          record {
            f = f;
            agrees = λ x v _ _. refl;
            maps = record {
              out = row.out;
              returns =
                  ap (λ it. for_row cell lo_x hi_x it a >>= λ s. some s.1) start ∙ row.returns;
              size = row.size;
              cells = λ q. row.cells q ∙ ground arith;
            };
          })
        size le_y
