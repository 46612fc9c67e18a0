-- ===== src/Static/Filled.antt =====
-- The loop nests of incomingMap and incomingUpdate, cell by cell.
use rosnavigation2copy.Prelude.{
  ℕ, ◌+◌, ◌-◌, ◌*◌, ◌≤◌, ◌<◌, ◌≡◌, ◌≢◌, inl, inr, Bool, ◌||◌, ◌∙◌, refl, sym, ap, some, List, true,
  ltb, leb, ◌==◌, ◌&&◌, if◌then◌else◌, arith, u32, u32_mod, length, set, get_or, length-set,
}
use rosnavigation2copy.Prelude.Int.{ℤ, pos}
use rosnavigation2copy.Prelude.Loops.{for_range_inv}
use rosnavigation2copy.Grid.{at}
use rosnavigation2copy.Grid.Index.{
  read-eq-some, written, write-eq-some, get_or-set, row-le, index-lt,
}
use rosnavigation2copy.Grid.Window.{MapsWindow}
use rosnavigation2copy.Static.{fill, fill_row, to_u8, OccupancyGridUpdate, overlay, overlay_row}

module _ (interpret : ℕ → ℕ) (values : List ℤ) (m : List ℕ) where
  -- The cost that the loops give to the value at an index.
  abbrev pub shown : ℕ → ℕ
  shown q = interpret (to_u8 (get_or values q (pos 0)))

  record Filled (k : ℕ) (s : ℕ × List ℕ) : Type 0 where
    index : s.0 ≡ k
    size : length s.1 ≡ length m
    cells : (q : ℕ) → get_or s.1 q 0 ≡ (if ltb q k then shown q else get_or m q 0)

  module _ (n : ℕ) (fits : n < u32_mod) (enough : length values ≡ n) (size_m : length m ≡ n) where
    fill_row-Filled :
        (start size_x : ℕ) (s : ℕ × List ℕ)
        → start + size_x ≤ n
        → Filled start s
        → (s' : ℕ × List ℕ) × (fill_row interpret values size_x s ≡ some s')
          × Filled (start + size_x) s'
    unfolding fill_row
    fill_row-Filled start size_x s room f =
        for_range_inv (λ j. Filled (start + j)) _ size_x
          (λ j (index, a) lt r.
            let here : index < n = omega (arith, r.index) in
            let v = shown index in
            (
              (u32 (index + 1), set a index v),
              rw
                  (
                    read-eq-some values index (pos 0) (omega arith),
                    write-eq-some a index v (omega (arith, r.size)),
                  )
                  refl,
              record {
                index = omega (arith, r.index);
                size = length-set a index v ∙ r.size;
                cells = λ q.
                    ground
                      (arith, r.index, r.cells q, get_or-set a index q v 0 (omega (arith, r.size)));
              },
            ))
          size_x 0 s (omega arith)
          (record {
            index = omega (arith, f.index);
            size = f.size;
            cells = λ q. ground (arith, f.cells q);
          })

  -- Enough values and cells: `fill` gives every cell what its value shows.
  pub fill-shown :
      (size_x size_y : ℕ)
      → size_y * size_x < u32_mod
      → length values ≡ size_y * size_x
      → length m ≡ size_y * size_x
      → (a : List ℕ) × (fill interpret values size_x size_y m ≡ some a)
        × (length a ≡ length m)
        × ((x y : ℕ) → x < size_x → y < size_y → at size_x a x y ≡ shown (y * size_x + x))
  unfolding fill at
  fill-shown size_x size_y fits enough size_m =
      let (s, e, f) =
        for_range_inv (λ i. Filled (i * size_x)) (λ i. fill_row interpret values size_x) size_y
          (λ i s lt r.
            let room : i * size_x + size_x ≤ size_y * size_x = row-le size_x i size_y lt in
            let (s', e', f') = fill_row-Filled _ fits enough size_m (i * size_x) size_x s room r in
            (
              s',
              e',
              record {
                index = grind (arith, f'.index);
                size = f'.size;
                cells = λ q. f'.cells q ∙ grind arith;
              },
            ))
          size_y 0 (0, m) (omega arith)
          (record { index = grind arith; size = refl; cells = λ q. grind arith }) in
      (
        s.1,
        rw e refl,
        f.size,
        λ x y hx hy. ground (arith, f.cells (y * size_x + x), index-lt size_x size_y x y hx hy),
      )

next_row : (y w : ℕ) → (y + 1) * w ≡ y * w + w
next_row y w = grind arith

same_index : (ux uy w x y i j : ℕ) → i ≡ ux + x → j ≡ uy + y → y * w + x ≡ (j - uy) * w + (i - ux)
same_index ux uy w x y i j ei ej =
    let ej' : j - uy ≡ y = omega arith in let ei' : i - ux ≡ x = omega arith in rw (ej', ei') refl

area-le : (a b h w : ℕ) → a ≤ h → b ≤ w → a * b ≤ h * w
area-le a b h w p q = grind arith

-- The window of an update lies in a grid of `w` by `h` cells, and there is a value for each cell.
pub record Fits (w h : ℕ) (update : OccupancyGridUpdate) : Type 0 where
  pub inside_x : update.x + update.width ≤ w
  pub inside_y : update.y + update.height ≤ h
  pub enough : length update.values ≡ update.height * update.width

module _ (interpret : ℕ → ℕ) (w h : ℕ) (update : OccupancyGridUpdate) (m : List ℕ) where
  -- The cell of the update for a cell of the grid.
  abbrev pub updated : ℕ → ℕ → ℕ
  updated x y = shown interpret update.values m ((y - update.y) * update.width + (x - update.x))

  -- `y` rows and the first `x` cells of the next one are done.
  is_done : ℕ → ℕ → ℕ → ℕ → Bool
  is_done y x i j =
      leb update.x i
      && ltb i (update.x + update.width)
      && leb update.y j
      && (ltb j (update.y + y) || ((j == update.y + y) && ltb i (update.x + x)))

  record Overlaid (y x : ℕ) (s : ℕ × List ℕ) : Type 0 where
    di : s.0 ≡ y * update.width + x
    size : length s.1 ≡ h * w
    cells :
        (i j : ℕ)
        → i < w
        → j < h
        → at w s.1 i j ≡ (if is_done y x i j then updated i j else at w m i j)

  done_here : (y x : ℕ) → x < update.width → is_done y (x + 1) (update.x + x) (update.y + y) ≡ true
  unfolding is_done
  done_here y x lt = ground arith

  done_other :
      (y x i j : ℕ)
      → (i ≡ update.x + x → j ≢ update.y + y)
      → is_done y (x + 1) i j ≡ is_done y x i j
  unfolding is_done
  done_other y x i j ne = ground arith

  done_row : (y i j : ℕ) → is_done (y + 1) 0 i j ≡ is_done y update.width i j
  unfolding is_done
  done_row y i j = ground arith

  this_one :
      (y x i j v : ℕ)
      → i ≡ update.x + x
      → j ≡ update.y + y
      → x < update.width
      → v ≡ updated i j
      → v ≡ (if is_done y (x + 1) i j then updated i j else at w m i j)
  this_one y x i j v ei ej lt e =
      let d : is_done y (x + 1) i j ≡ true = rw (ei, ej) (done_here y x lt) in e ∙ rw d refl

  module _ (fits : h * w + w < u32_mod) (size_m : length m ≡ h * w) (f : Fits w h update) where
    overlay_cell-Overlaid :
        (y x : ℕ) (di : ℕ) (a : List ℕ)
        → y < update.height
        → x < update.width
        → Overlaid y x (di, a)
        → Overlaid y (x + 1) (
          u32 (di + 1),
          set a ((update.y + y) * w + (update.x + x)) (shown interpret update.values m di),
        )
    overlay_cell-Overlaid y x di a hy hx r =
        let area : y * update.width + update.width ≤ update.height * update.width =
          row-le _ y _ hy in
        let small : update.height * update.width ≤ h * w =
          area-le _ _ h w (omega (arith, f.inside_y)) (omega (arith, f.inside_x)) in
        record {
          di = omega (arith, r.di, area, small);
          size = length-set a _ _ ∙ r.size;
          cells = λ i j hi hj.
              elim (written w h a (update.x + x) (update.y + y) (shown interpret update.values m di)
                i j r.size (omega (arith, f.inside_x)) (omega (arith, f.inside_y)) hi hj) [
                  | inl (ei, ej, e) ↦
                      e
                      ∙ this_one y x i j _ ei ej hx (
                          ap (shown interpret update.values m)
                            (r.di ∙ same_index update.x update.y update.width x y i j ei ej))
                  | inr (ne, e) ↦
                      e
                      ∙ r.cells i j hi hj
                      ∙ ap (λ (b : Bool). if b then updated i j else at w m i j)
                          (sym (done_other y x i j ne))
                ];
        }

    overlay_row-Overlaid :
        (y : ℕ) (s : ℕ × List ℕ)
        → y < update.height
        → Overlaid y 0 s
        → (s' : ℕ × List ℕ) × (overlay_row interpret update w y s ≡ some s') × Overlaid (y + 1) 0 s'
    unfolding overlay_row
    overlay_row-Overlaid y s hy r0 =
        let (s', e, r) =
          for_range_inv (Overlaid y) _ update.width
            (λ x (di, a) hx r.
              let area : y * update.width + update.width ≤ update.height * update.width =
                row-le _ y _ hy in
              let here =
                index-lt w h (update.x + x) (update.y + y) (omega (arith, f.inside_x))
                  (omega (arith, f.inside_y)) in
              let index : u32 (u32 ((update.y + y) * w) + x + update.x)
                  ≡ (update.y + y) * w + (update.x + x) =
                omega arith in
              (
                _,
                rw
                    (
                      read-eq-some update.values di (pos 0) (omega (arith, r.di, f.enough)),
                      index,
                      write-eq-some a ((update.y + y) * w + (update.x + x))
                          (shown interpret update.values m di) (omega (arith, r.size)),
                    )
                    refl,
                overlay_cell-Overlaid y x di a hy hx r,
              ))
            update.width 0 s (omega arith) r0 in
        (
          s',
          e,
          record {
            di = omega (arith, r.di, next_row y update.width);
            size = r.size;
            cells = λ i j hi hj.
                r.cells i j hi hj
                ∙ ap (λ (b : Bool). if b then updated i j else at w m i j) (sym (done_row y i j));
          },
        )

    -- `overlay` of an update that fits gives its cells what its values show, and changes no other.
    pub overlay-MapsWindow :
        MapsWindow
          (λ x y v. updated x y)
          w
          h
          update.x
          update.y
          (update.x + update.width)
          (update.y + update.height)
          m
          (overlay interpret update w m)
    unfolding overlay is_done
    overlay-MapsWindow =
        let (s, e, r) =
          for_range_inv (λ y. Overlaid y 0) (overlay_row interpret update w) update.height
            (λ y s hy r. overlay_row-Overlaid y s hy r) update.height 0 (0, m) (omega arith)
            (record { di = omega arith; size = size_m; cells = λ i j hi hj. ground arith }) in
        record {
          out = s.1;
          returns = rw e refl;
          size = r.size ∙ sym size_m;
          cells = λ i j hi hj. r.cells i j hi hj ∙ ground arith;
        }
