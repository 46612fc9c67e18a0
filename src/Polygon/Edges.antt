-- ===== src/Polygon/Edges.antt =====
-- The edge between two corners has a cell in each column between them, and none in another.
use rosnavigation2copy.Prelude.{
  ℕ, zero, suc, ◌+◌, ◌*◌, ◌≤◌, ◌<◌, ◌≡◌, refl, ap, sym, ◌∙◌, min, max, Bool-cases, inl, inr, List,
  [], ◌∷◌, map, arith, ◌&&◌, u32_mod,
}
use mathlib.Core.Path.{subst}
use native.Mathlib.Decide.{dec_lt}
use rosnavigation2copy.Prelude.Int.{int_mod, ℤ, abs, pos, ◌-ℤ◌}
use rosnavigation2copy.Platform.{Floats, ExactCounts}
use rosnavigation2copy.Costmap.{Costmap, IsValid, index_to_cells}
use rosnavigation2copy.Costmap.World.{get_index-eq, index_to_cells-get_index}
use rosnavigation2copy.Raytrace.{scale_of}
use rosnavigation2copy.Raytrace.Cells.{Walks}
use rosnavigation2copy.Raytrace.Cells.Walks.{arrive, straight, turn}
use rosnavigation2copy.Raytrace.Steps.{along, distance, abs-eq, along_lt}
use rosnavigation2copy.Raytrace.Lines.{raytrace_line-Traces}
use rosnavigation2copy.Polygon.{MapLocation, gather, edge}
use rosnavigation2copy.Polygon.Cells.{Has, cells_in}

hit : (x : ℕ) (c : MapLocation) (cells : List MapLocation) → c.x ≡ x → 1 ≤ cells_in x (c ∷ cells)
hit x c cells e = ground arith

later_hit :
    (x : ℕ) (c : MapLocation) (cells : List MapLocation)
    → 1 ≤ cells_in x cells
    → 1 ≤ cells_in x (c ∷ cells)
later_hit x c cells le = omega arith

module _ (f : ℕ → MapLocation) (x da db : ℕ) (cell : ℕ → ℕ → ℕ) where
  -- A walk takes `t` steps along the first axis at some time.
  along_first :
      (t end i k : ℕ) (offsets : List ℕ)
      → ((k : ℕ) → k ≤ db → (f (cell t k)).x ≡ x)
      → i ≤ t
      → t ≤ end
      → Walks da db cell end i k offsets
      → 1 ≤ cells_in x (map f offsets)
  along_first t end i k offsets there low high (arrive k' le at_end) =
      let e : end ≡ t = omega arith in
      hit x (f (cell end k)) [] (ap (λ n. (f (cell n k)).x) e ∙ there k le)
  along_first t end i k offsets there low high (straight i' k' rest le lt walks) =
      elim (dec_lt i t) [
        | yes before ↦
            later_hit x (f (cell i k)) (map f rest)
              (along_first t end (i + 1) k rest there (omega arith) high walks)
        | no here ↦
            let e : i ≡ t = omega arith in
            hit x (f (cell i k)) (map f rest) (ap (λ n. (f (cell n k)).x) e ∙ there k le)
      ]
  along_first t end i k offsets there low high (turn i' k' rest klt lt walks) = elim (dec_lt i t) [
    | yes before ↦
        later_hit x (f (cell i k)) (map f rest)
          (along_first t end (i + 1) (k + 1) rest there (omega arith) high walks)
    | no here ↦
        let e : i ≡ t = omega arith in
        hit x (f (cell i k)) (map f rest) (ap (λ n. (f (cell n k)).x) e ∙ there k (omega arith))
  ]

  -- A walk that is not stopped takes `t` steps along the other axis at some time.
  along_second :
      (t end i k : ℕ) (offsets : List ℕ)
      → ((i : ℕ) → i ≤ da → (f (cell i t)).x ≡ x)
      → end ≡ da
      → k ≤ t
      → t ≤ db
      → Walks da db cell end i k offsets
      → 1 ≤ cells_in x (map f offsets)
  along_second t end i k offsets there stop low high (arrive k' le at_end) =
      let e : k ≡ t = let top = at_end stop in omega arith in
      hit x (f (cell end k)) [] (ap (λ n. (f (cell end n)).x) e ∙ there end (omega arith))
  along_second t end i k offsets there stop low high (straight i' k' rest le lt walks) =
      later_hit x (f (cell i k)) (map f rest)
        (along_second t end (i + 1) k rest there stop low high walks)
  along_second t end i k offsets there stop low high (turn i' k' rest klt lt walks) =
      elim (dec_lt k t) [
        | yes before ↦
            later_hit x (f (cell i k)) (map f rest)
              (along_second t end (i + 1) (k + 1) rest there stop (omega arith) high walks)
        | no here ↦
            let e : k ≡ t = omega arith in
            hit x (f (cell i k)) (map f rest) (ap (λ n. (f (cell i n)).x) e ∙ there i (omega arith))
      ]

-- All cells of a walk are cells of its box.
in_box :
    (f : ℕ → MapLocation) (Q : MapLocation → Type 0) (da db : ℕ) (cell : ℕ → ℕ → ℕ)
    → ((i k : ℕ) → i ≤ da → k ≤ db → Q (f (cell i k)))
    → (end i k : ℕ) (offsets : List ℕ) → end ≤ da
    → Walks da db cell end i k offsets
    → (c : MapLocation) → Has c (map f offsets)
    → Q c
in_box f Q da db cell box end i k offsets fit (arrive k' le at_end) c (inl e) =
    subst Q (sym e) (box end k fit le)
in_box f Q da db cell box end i k offsets fit (arrive k' le at_end) c (inr has) = elim has [ ]
in_box f Q da db cell box end i k offsets fit (straight i' k' rest le lt walks) c (inl e) =
    subst Q (sym e) (box i k (omega arith) le)
in_box f Q da db cell box end i k offsets fit (straight i' k' rest le lt walks) c (inr has) =
    in_box f Q da db cell box end (i + 1) k rest fit walks c has
in_box f Q da db cell box end i k offsets fit (turn i' k' rest klt lt walks) c (inl e) =
    subst Q (sym e) (box i k (omega arith) (omega arith))
in_box f Q da db cell box end i k offsets fit (turn i' k' rest klt lt walks) c (inr has) =
    in_box f Q da db cell box end (i + 1) (k + 1) rest fit walks c has

reached : (p q x : ℕ) → min p q ≤ x → x ≤ max p q → along p q (distance p x) ≡ x
reached p q x low high = ground arith

within : (p q x : ℕ) → min p q ≤ x → x ≤ max p q → distance p x ≤ distance p q
within p q x low high = ground arith

bounded : (p q i : ℕ) → i ≤ distance p q → (min p q ≤ along p q i) × (along p q i ≤ max p q)
bounded p q i le = (ground arith, ground arith)

sum_le : (w h : ℕ) → 0 < w → 0 < h → w + h ≤ h * w + 1
sum_le zero h hw hh = absurd (omega arith)
sum_le (suc w) zero hw hh = absurd (omega arith)
sum_le (suc w) (suc h) hw hh =
    let e : suc h * suc w ≡ h * w + h + w + 1 = grind arith in omega arith

min_self : (n : ℕ) → min n n ≡ n
min_self n = omega arith

near : (p q n : ℕ) → p < n → q < n → n ≤ int_mod → distance p q < int_mod
near p q n hp hq h = ground arith

-- What the cells of an edge from `p` to `q` are, in a map of `h` rows.
pub record IsEdge (h : ℕ) (p q : MapLocation) (cells : List MapLocation) : Type 0 where
  pub columns : (x : ℕ) → min p.x q.x ≤ x → x ≤ max p.x q.x → 1 ≤ cells_in x cells
  pub box : (c : MapLocation) → Has c cells → (min p.x q.x ≤ c.x) × (c.x ≤ max p.x q.x) × (c.y < h)

module _ {D : Type 0} (fl : Floats D) (exact : ExactCounts fl) where
  scale_one : (dx dy : ℤ) → abs dx + abs dy < u32_mod → scale_of fl dx dy 4294967295 ≡ fl.of_nat 1
  unfolding scale_of
  scale_one dx dy small =
      elim (Bool-cases
        (fl.le (fl.hypot dx dy) (fl.of_nat 0) && fl.le (fl.of_nat 0) (fl.hypot dx dy))) [
          | inl t ↦ rw t refl
          | inr f ↦ rw (f, exact.ratio dx dy small f) refl
        ]

  module _ (c : Costmap D) (v : IsValid c) (narrow : (c.size_x ≤ int_mod) × (c.size_y ≤ int_mod))
      (p q : MapLocation) (px : p.x < c.size_x) (py : p.y < c.size_y) (qx : q.x < c.size_x)
      (qy : q.y < c.size_y) where
    gather-eq :
        (x y : ℕ)
        → x < c.size_x
        → y < c.size_y
        → gather c (y * c.size_x + x) ≡ record { x = x; y = y }
    unfolding gather
    gather-eq x y hx hy =
        ap (λ (r : ℕ × ℕ). record { x = r.0; y = r.1 })
          (ap (index_to_cells c) (sym (get_index-eq c x y v hx hy))
            ∙ index_to_cells-get_index c x y v hx hy)

    counts :
        (n : ℕ)
        → n < u32_mod
        → abs (pos q.x -ℤ pos p.x) + abs (pos q.y -ℤ pos p.y) < u32_mod
        → fl.to_u32 (
            fl.mul (scale_of fl (pos q.x -ℤ pos p.x) (pos q.y -ℤ pos p.y) 4294967295) (fl.of_nat n))
          ≡ n
    counts n small short =
        rw (scale_one (pos q.x -ℤ pos p.x) (pos q.y -ℤ pos p.y) short, exact.one_mul (fl.of_nat n))
          (exact.to_u32-of_nat n small)

    sides : c.size_x + c.size_y ≤ c.size_y * c.size_x + 1
    sides = sum_le c.size_x c.size_y (omega arith) (omega arith)

    apart : distance p.x q.x + distance p.y q.y < u32_mod
    apart = let s = sides in let f = v.fits in ground arith

    in_map :
        (i k : ℕ)
        → i ≤ distance p.x q.x
        → k ≤ distance p.y q.y
        → gather c (along p.y q.y k * c.size_x + along p.x q.x i)
          ≡ record { x = along p.x q.x i; y = along p.y q.y k }
    in_map i k hi hk =
        let small : c.size_y * c.size_x < u32_mod = omega (arith, v.fits) in
        gather-eq _ _ (along_lt c.size_x c.size_y small p.x q.x c.size_x i px qx hi)
          (along_lt c.size_x c.size_y small p.y q.y c.size_y k py qy hk)

    In : MapLocation → Type 0
    In d = (min p.x q.x ≤ d.x) × (d.x ≤ max p.x q.x) × (d.y < c.size_y)

    gather-In :
        (i k : ℕ)
        → i ≤ distance p.x q.x
        → k ≤ distance p.y q.y
        → In (gather c (along p.y q.y k * c.size_x + along p.x q.x i))
    unfolding In
    gather-In i k hi hk =
        let b = bounded p.x q.x i hi in
        let small : c.size_y * c.size_x < u32_mod = omega (arith, v.fits) in
        rw (in_map i k hi hk)
          (b.0, b.1, along_lt c.size_x c.size_y small p.y q.y c.size_y k py qy hk)

    -- A line of the default length goes all the way.
    pub edge-IsEdge : IsEdge c.size_y p q (edge fl c p q)
    unfolding edge In
    edge-IsEdge =
        let small : c.size_y * c.size_x < u32_mod = omega (arith, v.fits) in
        let short : abs (pos q.x -ℤ pos p.x) + abs (pos q.y -ℤ pos p.y) < u32_mod =
          rw (abs-eq p.x q.x, abs-eq p.y q.y) apart in
        let t =
          raytrace_line-Traces c.size_x c.size_y p.x p.y q.x q.y small px py qx qy fl 4294967295
            (near p.x q.x c.size_x px qx narrow.0) (near p.y q.y c.size_y py qy narrow.1) in
        elim t.walks [
          | inl (flat, walks) ↦
              let whole = counts (distance p.x q.x) (omega (arith, apart)) short in
              let stop = ap (λ n. min n (distance p.x q.x)) whole ∙ min_self (distance p.x q.x) in
              record {
                columns = λ x low high.
                    along_first (gather c) x _ _ _ (distance p.x x) _ 0 0 _
                      (λ k hk.
                        ap MapLocation.x (in_map (distance p.x x) k (within p.x q.x x low high) hk)
                        ∙ reached p.x q.x x low high)
                      (omega arith) (omega (arith, stop, within p.x q.x x low high)) walks;
                box = in_box (gather c) In _ _ _ gather-In _ 0 0 _ (omega arith) walks;
              }
          | inr (steep, walks) ↦
              let whole = counts (distance p.y q.y) (omega (arith, apart)) short in
              let stop = ap (λ n. min n (distance p.y q.y)) whole ∙ min_self (distance p.y q.y) in
              record {
                columns = λ x low high.
                    along_second (gather c) x _ _ _ (distance p.x x) _ 0 0 _
                      (λ i hi.
                        ap MapLocation.x (in_map (distance p.x x) i (within p.x q.x x low high) hi)
                        ∙ reached p.x q.x x low high)
                      stop (omega arith) (within p.x q.x x low high) walks;
                box =
                    in_box (gather c) In _ _ _ (λ i k hi hk. gather-In k i hk hi) _ 0 0 _
                      (omega arith) walks;
              }
        ]
