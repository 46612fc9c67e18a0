-- ===== src/Static/Covers.antt =====
-- updateBounds after incomingMap: the bounds reach over the new map once, and then stay.
use rosnavigation2copy.Prelude.{
  if_of_true, if_of_false, ℕ, ◌+◌, ◌*◌, ◌<◌, ◌≡◌, ◌∙◌, refl, ap, sym, Bool, true, false, Bool-cases,
  inl, inr, some, not, ◌||◌, ◌&&◌, arith, length, u32, u32_mod, u32-eq_of_lt, if◌then◌else◌,
}
use mathlib.Core.Bool.{true≢false}
use mathlib.Core.Path.{subst}
use rosnavigation2copy.Platform.{Floats, Memory}
use rosnavigation2copy.Costmap.{IsValid, map_to_world}
use rosnavigation2copy.Layer.{Bounds, Layer, fmin, fmax, use_extra_bounds}
use rosnavigation2copy.Layered.{LayeredCostmap}
use rosnavigation2copy.Static.{StaticLayer, OccupancyGrid, incoming_map, update_bounds, cover}
use rosnavigation2copy.Static.Incoming.{incoming_map-Shows}

-- What `<` does on doubles that are not NaN.
pub record Ordered {D : Type 0} (fl : Floats D) : Type 0 where
  pub asym : (a b : D) → fl.lt a b ≡ true → fl.lt b a ≡ false
  pub trans : (a b c : D) → fl.lt b a ≡ false → fl.lt c b ≡ false → fl.lt c a ≡ false

-- The bounds `r` reach to the point (x, y) from above and from below.
pub record FromBelow {D : Type 0} (fl : Floats D) (x y : D) (r : Bounds D) : Type 0 where
  pub min_x : fl.lt x r.min_x ≡ false
  pub min_y : fl.lt y r.min_y ≡ false

pub record FromAbove {D : Type 0} (fl : Floats D) (x y : D) (r : Bounds D) : Type 0 where
  pub max_x : fl.lt r.max_x x ≡ false
  pub max_y : fl.lt r.max_y y ≡ false

-- The bounds `r` contain the bounds `b`.
abbrev pub Contains : {D : Type 0} → Floats D → Bounds D → Bounds D → Type 0
Contains fl b r = FromBelow fl b.min_x b.min_y r × FromAbove fl b.max_x b.max_y r

idle :
    {A : Type 0} (received extra : Bool) (x y : A)
    → received ≡ true
    → extra ≡ false
    → (if not false && (not received || not (false || extra)) then x else y) ≡ x
idle received extra x y e e' = rw (e, e') refl

module _ {D : Type 0} (fl : Floats D) (o : Ordered fl) where
  irrefl : (a : D) → fl.lt a a ≡ false
  irrefl a = elim (Bool-cases (fl.lt a a)) [ inl t ↦ o.asym a a t | inr f ↦ f ]

  fmin-least : (a b : D) → (fl.lt a (fmin fl a b) ≡ false) × (fl.lt b (fmin fl a b) ≡ false)
  unfolding fmin
  fmin-least a b = elim (Bool-cases (fl.lt b a)) [
    | inl t ↦ rw (fmin, t) (o.asym b a t, irrefl b)
    | inr f ↦ rw (fmin, f) (irrefl a, f)
  ]

  fmax-greatest : (a b : D) → (fl.lt (fmax fl a b) a ≡ false) × (fl.lt (fmax fl a b) b ≡ false)
  unfolding fmax
  fmax-greatest a b = elim (Bool-cases (fl.lt a b)) [
    | inl t ↦ rw (fmax, t) (o.asym a b t, irrefl b)
    | inr f ↦ rw (fmax, f) (irrefl a, f)
  ]

  Contains-refl : (b : Bounds D) → Contains fl b b
  Contains-refl b = (
    record { min_x = irrefl b.min_x; min_y = irrefl b.min_y },
    record { max_x = irrefl b.max_x; max_y = irrefl b.max_y },
  )

  Contains-trans : (a b c : Bounds D) → Contains fl a b → Contains fl b c → Contains fl a c
  Contains-trans a b c (low, high) (low', high') = (
    record {
      min_x = o.trans _ _ _ low'.min_x low.min_x;
      min_y = o.trans _ _ _ low'.min_y low.min_y;
    },
    record {
      max_x = o.trans _ _ _ high.max_x high'.max_x;
      max_y = o.trans _ _ _ high.max_y high'.max_y;
    },
  )

  abbrev joined : D → D → D → D → Bounds D → Bounds D
  joined x0 y0 x1 y1 b = record {
    min_x = fmin fl x0 b.min_x;
    min_y = fmin fl y0 b.min_y;
    max_x = fmax fl x1 b.max_x;
    max_y = fmax fl y1 b.max_y;
  }

  joined-Contains :
      (x0 y0 x1 y1 : D) (b : Bounds D)
      → FromBelow fl x0 y0 (joined x0 y0 x1 y1 b)
        × FromAbove fl x1 y1 (joined x0 y0 x1 y1 b)
        × Contains fl b (joined x0 y0 x1 y1 b)
  joined-Contains x0 y0 x1 y1 b =
      let (ax, bx) = fmin-least x0 b.min_x in
      let (ay, by) = fmin-least y0 b.min_y in
      let (cx, dx) = fmax-greatest x1 b.max_x in
      let (cy, dy) = fmax-greatest y1 b.max_y in
      (
        record { min_x = ax; min_y = ay },
        record { max_x = cx; max_y = cy },
        (record { min_x = bx; min_y = by }, record { max_x = dx; max_y = dy }),
      )

  module _ (far minus_far : D) where
    -- What the extra bounds of a layer do to the caller's.
    record Used (l : Layer D) (b : Bounds D) (r : Layer D × Bounds D) : Type 0 where
      wider : Contains fl b r.1
      extra : l.has_extra_bounds ≡ true → Contains fl l.extra r.1
      spent : r.0.has_extra_bounds ≡ false
      costs : r.0.costs ≡ l.costs

    use_extra_bounds-Used :
        (l : Layer D) (b : Bounds D) → Used l b (use_extra_bounds fl far minus_far l b)
    unfolding use_extra_bounds
    use_extra_bounds-Used l b = elim (Bool-cases l.has_extra_bounds) [
      | inl t ↦
          let (low, high, wider) =
            joined-Contains l.extra.min_x l.extra.min_y l.extra.max_x l.extra.max_y b in
          subst (Used l b) (sym (if_of_false _ _ (ap not t)))
            (record { wider = wider; extra = λ _. (low, high); spent = refl; costs = refl })
      | inr f ↦ subst (Used l b) (sym (if_of_true _ _ (ap not f))) (record {
        wider = Contains-refl b;
        extra = λ h. absurd (true≢false (sym h ∙ f));
        spent = f;
        costs = refl;
      })
    ]

    -- The layer and the bounds `r` that `update_bounds` gives for the bounds `b` and a layer with a
    -- new map of `w` by `h` cells: the bounds contain `b`, the layer's extra bounds, and the places
    -- of the cells (0, 0) and (w, h); the layer's map stays, and from then on the layer changes no
    -- bounds and is not changed.
    pub record Covers (w h : ℕ) (s : StaticLayer D) (b : Bounds D) (r : StaticLayer D × Bounds D)
        : Type 0 where
      pub wider : Contains fl b r.1
      pub extra : s.layer.has_extra_bounds ≡ true → Contains fl s.layer.extra r.1
      pub first : let (x, y) = map_to_world fl s.layer.costs 0 0 in FromBelow fl x y r.1
      pub last : let (x, y) = map_to_world fl s.layer.costs w h in FromAbove fl x y r.1
      pub costs : r.0.layer.costs ≡ s.layer.costs
      pub settled : (b' : Bounds D) → update_bounds fl far minus_far false r.0 b' ≡ (r.0, b')

    cover-Covers :
        (w h : ℕ) (s : StaticLayer D) (b : Bounds D)
        → s.map_received ≡ true
        → (s.x ≡ 0) × (s.y ≡ 0) × (u32 (s.x + s.width) ≡ w) × (u32 (s.y + s.height) ≡ h)
        → Covers w h s b (cover fl far minus_far s b)
    unfolding cover update_bounds
    cover-Covers w h s b received (ex, ey, ew, eh) =
        let used = use_extra_bounds-Used s.layer b in
        let b1 = (use_extra_bounds fl far minus_far s.layer b).1 in
        let at = map_to_world fl s.layer.costs in
        let (x1, y1) = at (u32 (s.x + s.width)) (u32 (s.y + s.height)) in
        let (x0, y0) = at s.x s.y in
        let (low, high, wider) = joined-Contains x0 y0 x1 y1 b1 in
        let r = joined x0 y0 x1 y1 b1 in
        record {
          wider = Contains-trans b b1 r used.wider wider;
          extra = λ h. Contains-trans s.layer.extra b1 r (used.extra h) wider;
          first =
              subst (λ (p : D × D). FromBelow fl p.0 p.1 r)
                (ap (λ x. at x s.y) ex ∙ ap (λ y. at 0 y) ey) low;
          last =
              subst (λ (p : D × D). FromAbove fl p.0 p.1 r)
                (ap (λ x. at x (u32 (s.y + s.height))) ew ∙ ap (λ y. at w y) eh) high;
          costs = used.costs;
          settled = λ b'. idle s.map_received _ _ _ received used.spent;
        }

    update_bounds-cover :
        (s : StaticLayer D) (b : Bounds D)
        → s.map_received ≡ true
        → s.has_updated_data ≡ true
        → update_bounds fl far minus_far false s b ≡ cover fl far minus_far s b
    unfolding update_bounds
    update_bounds-cover s b e e' = rw (update_bounds, e, e') refl

-- Doubles that are not NaN, a map of less than 2 ^ 32 rows that fits, with a value for each of its
-- cells, and a layer with a valid map: after `incoming_map`, which returns, `update_bounds` for a cost
-- map that does not roll gives bounds that contain the caller's, the layer's extra bounds if it has
-- any, and the places of the cell (0, 0) and of the cell one beyond the last, in columns and in rows,
-- of the new map; it leaves the layer's map as it is, and from then on it changes neither the bounds
-- of a caller nor the layer.
pub update_bounds-incoming_map :
    {D : Type 0} (fl : Floats D) (o : Ordered fl) (mem : Memory) (far minus_far : D)
    (new_map : OccupancyGrid D) (l : LayeredCostmap D) (s : StaticLayer D)
    → new_map.height * new_map.width + new_map.width < u32_mod
    → new_map.height < u32_mod
    → length new_map.values ≡ new_map.height * new_map.width
    → IsValid s.layer.costs
    → (l' : LayeredCostmap D) × (s' : StaticLayer D) × (incoming_map fl mem new_map (l, s)
        ≡ some (l', s'))
      × ((b : Bounds D)
          → Covers fl o far minus_far new_map.width new_map.height s' b
              (update_bounds fl far minus_far false s' b))
update_bounds-incoming_map fl o mem far minus_far new_map l s fits low enough v =
    let (l', s', e, shows, sized) = incoming_map-Shows fl mem new_map l s fits enough v in
    let (ex, ey, ew, eh) = shows.window in
    let wide : s'.x + s'.width ≡ new_map.width = omega (arith, ex, ew) in
    let high : s'.y + s'.height ≡ new_map.height = omega (arith, ey, eh) in
    (
      l',
      s',
      e,
      λ b.
          subst (Covers fl o far minus_far new_map.width new_map.height s' b)
            (sym (update_bounds-cover fl o far minus_far s' b shows.received shows.updated))
            (cover-Covers fl o far minus_far new_map.width new_map.height s' b shows.received (
              ex,
              ey,
              ap u32 wide ∙ u32-eq_of_lt _ (omega (arith, fits)),
              ap u32 high ∙ u32-eq_of_lt _ low,
            )),
    )
