-- ===== src/Costmap/Bytes.antt =====
-- memset and memcpy as maps of indices, and loops over rows brought to counted loops.
use rosnavigation2copy.Prelude.{
  ℕ, zero, suc, ◌+◌, ◌-◌, ◌*◌, ◌≤◌, ◌<◌, ◌≡◌, ◌∙◌, refl, ap, Option, some,
}
use rosnavigation2copy.Prelude.{
  List, ◌&&◌, ltb, leb, if◌then◌else◌, arith, u32, u32_mod, u32-eq_of_lt,
}
use rosnavigation2copy.Prelude.{length, set, get_or, length-set, lt→ltb}
use rosnavigation2copy.Prelude.Loops.{for_range, for_range_inv, ◌>>=◌, >>=_ext}
use mathlib.Core.Path.{ap₂}
use rosnavigation2copy.Grid.Index.{read-eq-some, write-eq-some, get_or-set}
use rosnavigation2copy.Grid.Window.{Maps}
use rosnavigation2copy.Costmap.{memset, memcpy, reset_rows, copy_rows}

-- The bytes from `start` up to `start + i` are written.
record Written (f : ℕ → ℕ) (start : ℕ) (m : List ℕ) (i : ℕ) (a : List ℕ) : Type 0 where
  size : length a ≡ length m
  cells : (q : ℕ) → get_or a q 0 ≡ (if leb start q && ltb q (start + i) then f q else get_or m q 0)

Written-step :
    (f : ℕ → ℕ) (start : ℕ) (m : List ℕ) (i : ℕ) (a : List ℕ)
    → start + i < length m
    → Written f start m i a
    → Written f start m (i + 1) (set a (start + i) (f (start + i)))
Written-step f start m i a room w = record {
  size = length-set a (start + i) (f (start + i)) ∙ w.size;
  cells = λ q. ground (arith, w.cells q, get_or-set a (start + i) q (f (start + i)) 0);
}

Written-start : (f : ℕ → ℕ) (start : ℕ) (m : List ℕ) → Written f start m 0 m
Written-start f start m = record { size = refl; cells = λ q. ground arith }

pub memset-Maps :
    (m : List ℕ) (start value len : ℕ)
    → start + len ≤ length m
    → Maps (λ q v. value) start (start + len) m (memset m start value len)
unfolding memset
memset-Maps m start value len room =
    let (a, e, w) =
      for_range_inv (Written (λ q. value) start m) _ len
        (λ i a lt w. (
          set a (start + i) value,
          write-eq-some a (start + i) value (omega (arith, w.size)),
          Written-step (λ q. value) start m i a (omega arith) w,
        ))
        len 0 m (omega arith) (Written-start (λ q. value) start m) in
    record { out = a; returns = e; size = w.size; cells = w.cells }

pub memcpy-Maps :
    (dest : List ℕ) (d : ℕ) (source : List ℕ) (s len : ℕ)
    → d + len ≤ length dest
    → s + len ≤ length source
    → Maps (λ q v. get_or source (q + s - d) 0) d (d + len) dest (memcpy dest d source s len)
unfolding memcpy
memcpy-Maps dest d source s len room room' =
    let f : ℕ → ℕ = λ q. get_or source (q + s - d) 0 in
    let (a, e, w) =
      for_range_inv (Written f d dest) _ len
        (λ i a lt w.
          let from : d + i + s - d ≡ s + i = omega arith in
          (
            set a (d + i) (f (d + i)),
            rw (read-eq-some source (s + i) 0 (omega arith), ← from)
                (write-eq-some a (d + i) (f (d + i)) (omega (arith, w.size))),
            Written-step f d dest i a (omega arith) w,
          ))
        len 0 dest (omega arith) (Written-start f d dest) in
    record { out = a; returns = e; size = w.size; cells = w.cells }

-- Where no index wraps, the loop of resetMap is a counted one.
pub reset_rows-eq-for_range :
    (fuel w len value x0 n j y bound : ℕ) (m : List ℕ)
    → 0 < w
    → n < fuel
    → y ≡ j * w + x0
    → bound ≡ y + n * w
    → bound < u32_mod
    → reset_rows fuel w len value bound y m
      ≡ for_range n j (λ i a. memset a (i * w + x0) value len) m
unfolding reset_rows for_range
reset_rows-eq-for_range zero w len value x0 n j y bound m pos_w enough at_y at_bound fits =
    absurd (omega arith)
reset_rows-eq-for_range (suc fuel) w len value x0 zero j y bound m pos_w enough at_y at_bound fits =
    ground arith
reset_rows-eq-for_range (suc fuel) w len value x0 (suc n) j y bound m pos_w enough at_y at_bound
      fits =
    let step : u32 (y + w) ≡ y + w = u32-eq_of_lt _ (grind arith) in
    let body : ℕ → List ℕ → Option (List ℕ) = λ i a. memset a (i * w + x0) value len in
    rw (lt→ltb y bound (grind arith)) (
      >>=_ext (memset m y value len) _ (for_range n (j + 1) body) (λ a.
        reset_rows-eq-for_range fuel w len value x0 n (j + 1) (u32 (y + w)) bound a pos_w
          (omega arith) (omega arith) (omega arith) fits)
      ∙ ap (λ y. memset m y value len >>= for_range n (j + 1) body) at_y)

next_row : (k k' sw s0 s : ℕ) → k' ≡ k + 1 → s ≡ k * sw + s0 → s + sw ≡ k' * sw + s0
next_row k k' sw s0 s e e' = rw (e, e') (omega arith)

-- The two pointers of copyMapRegion stand at the same round.
pub copy_rows-eq-for_range :
    (n j j0 s0 dx sw dw len s d : ℕ) (source dest : List ℕ)
    → j0 ≤ j
    → s ≡ (j - j0) * sw + s0
    → d ≡ j * dw + dx
    → copy_rows n source s sw d dw len dest
      ≡ for_range n j (λ i a. memcpy a (i * dw + dx) source ((i - j0) * sw + s0) len) dest
unfolding copy_rows for_range
copy_rows-eq-for_range zero j j0 s0 dx sw dw len s d source dest after at_s at_d = refl
copy_rows-eq-for_range (suc n) j j0 s0 dx sw dw len s d source dest after at_s at_d =
    let body : ℕ → List ℕ → Option (List ℕ) =
      λ i a. memcpy a (i * dw + dx) source ((i - j0) * sw + s0) len in
    let next : s + sw ≡ (j + 1 - j0) * sw + s0 =
      next_row (j - j0) (j + 1 - j0) sw s0 s (omega arith) at_s in
    >>=_ext (memcpy dest d source s len) _ (for_range n (j + 1) body) (λ a.
      copy_rows-eq-for_range n (j + 1) j0 s0 dx sw dw len (s + sw) (d + dw) source a (omega arith)
        next (omega arith))
    ∙ ap₂ (λ d s. memcpy dest d source s len >>= for_range n (j + 1) body) at_d at_s

-- A copy of no byte, or of no row, changes nothing.
pub copy_rows-empty :
    (n s sw d dw len : ℕ) (source dest : List ℕ)
    → len ≡ 0
    → copy_rows n source s sw d dw len dest ≡ some dest
unfolding copy_rows memcpy for_range
copy_rows-empty zero s sw d dw len source dest e = refl
copy_rows-empty (suc n) s sw d dw len source dest e =
    rw e (copy_rows-empty n (s + sw) sw (d + dw) dw 0 source dest refl)
