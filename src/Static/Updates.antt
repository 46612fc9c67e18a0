-- ===== src/Static/Updates.antt =====
-- updateCosts over a map that does not roll: the master map shows what the map server sent.
use rosnavigation2copy.Prelude.{
  if_of_true, if_of_false, ℕ, ◌+◌, ◌*◌, ◌<◌, ◌≡◌, ◌∙◌, refl, ap, Bool, true, false, not, ◌||◌,
  Option, none, some, [], ◌∷◌, arith, length, get_or, u32_mod, if◌then◌else◌,
}
use rosnavigation2copy.Prelude.Int.{pos, int_mod}
use rosnavigation2copy.Platform.{Floats, Memory}
use rosnavigation2copy.Grid.{at}
use rosnavigation2copy.Costmap.{Costmap, IsValid, world_to_map_enforce_bounds}
use rosnavigation2copy.Costmap.Reset.{Repaints}
use rosnavigation2copy.Layer.{Bounds}
use rosnavigation2copy.Layer.Cells.{greater}
use rosnavigation2copy.Layer.Updates.{
  Updates, update_with_max-Repaints, update_with_true_overwrite-Repaints,
}
use rosnavigation2copy.Layered.{Plugin, LayeredCostmap, update_map, widen}
use rosnavigation2copy.Layered.Updates.{touches, update_map-Composes}
use rosnavigation2copy.Layered.Painting.{Paints, in_width}
use rosnavigation2copy.Layered.Painting.AllPaint.{none_left, one_more}
use rosnavigation2copy.Static.{
  Options, StaticLayer, OccupancyGrid, to_u8, interpret_value, incoming_map, update_bounds,
  update_costs,
}
use rosnavigation2copy.Static.Incoming.{incoming_map-Shows}

-- The layer as updateMap sees it, in a cost map that does not roll.
abbrev pub plugin : {D : Type 0} → Floats D → D → D → StaticLayer D → Plugin D
plugin fl far minus_far s = record {
  update_bounds = λ robot_x robot_y robot_yaw b. (update_bounds fl far minus_far false s b).1;
  update_costs = update_costs fl none false s;
  is_current = true;
}

-- What the layer makes of an old cost of the master map.
abbrev pub painted : {D : Type 0} → ℕ → StaticLayer D → ℕ → ℕ → ℕ → ℕ
painted w s x y old =
    let cost = at w s.layer.costs.costmap x y in
    if s.options.use_maximum then greater old cost else cost

Repaints-of_eq :
    {D : Type 0} {g : ℕ → ℕ → ℕ → ℕ} {x0 y0 xn yn : ℕ} {c : Costmap D} {r r' : Option (Costmap D)}
    → r ≡ r'
    → Repaints g x0 y0 xn yn c r'
    → Repaints g x0 y0 xn yn c r
Repaints-of_eq e t = record { m = t.m; returns = e ∙ t.returns; valid = t.valid; cells = t.cells }

-- The two ways of updateCosts, told apart by `use_maximum`.
either :
    {D : Type 0} {f g : ℕ → ℕ → ℕ → ℕ} {x0 y0 xn yn : ℕ} {c : Costmap D} {r r' : Option (Costmap D)}
    (use_maximum : Bool)
    → Repaints f x0 y0 xn yn c r
    → Repaints g x0 y0 xn yn c r'
    → Repaints
        (λ x y old. if use_maximum then f x y old else g x y old)
        x0
        y0
        xn
        yn
        c
        (if not use_maximum then r' else r)
either true a b = a
either false a b = b

unguarded :
    {A : Type 0} (received enabled : Bool) (skip go : A)
    → received ≡ true
    → enabled ≡ true
    → (if not received || not enabled then skip else go) ≡ go
unguarded received enabled skip go e e' = rw (e, e') refl

module _ {D : Type 0} (fl : Floats D) (far minus_far : D) (s : StaticLayer D) where
  -- A layer that has got its map, is enabled and has the size of the master map paints.
  plugin-Paints :
      s.map_received ≡ true
      → s.layer.enabled ≡ true
      → (w h : ℕ) → length s.layer.costs.costmap ≡ h * w
      → Paints w h (plugin fl far minus_far s) (painted w s)
  unfolding update_costs
  plugin-Paints received enabled w h size = record {
    paints = λ c x0 y0 xn yn v ew eh le_x fit_x le_y fit_y.
        let u : Updates s.layer c x0 y0 xn yn = record {
          enabled = enabled;
          size = size ∙ rw (ew, eh) refl;
          valid = v;
          ordered = (le_x, le_y);
          inside = (omega arith, omega arith);
        } in
        Repaints-of_eq (unguarded s.map_received s.layer.enabled _ _ received enabled) (
          in_width (λ n. painted n s) c ew
            (either s.options.use_maximum (update_with_max-Repaints s.layer c x0 y0 xn yn u)
              (update_with_true_overwrite-Repaints s.layer c x0 y0 xn yn u)));
  }

-- The cells that updateMap repaints for the bounds `b`.
abbrev pub repainted : {D : Type 0} → Floats D → Costmap D → Bounds D → ℕ → ℕ → Bool
repainted fl c b =
    let first = world_to_map_enforce_bounds fl c b.min_x b.min_y in
    let last = world_to_map_enforce_bounds fl c b.max_x b.max_y in touches first last

-- A static layer, enabled and not asked for the maximum, alone in a cost map that does not roll, and
-- a map that fits, of less than 2 ^ 31 cells on each side: after `incoming_map` and `update_map`,
-- which both return, each cell of the master map between the corners of the bounds that
-- `update_bounds` gives has what `interpret_value` makes of the value that was sent.
pub update_map-incoming_map :
    {D : Type 0} (fl : Floats D) (mem : Memory) (far minus_far start_min start_max : D)
    (new_map : OccupancyGrid D) (l : LayeredCostmap D) (s : StaticLayer D)
    (robot_x robot_y robot_yaw : D)
    → l.rolling_window ≡ false
    → s.layer.enabled ≡ true
    → s.options.use_maximum ≡ false
    → new_map.height * new_map.width + new_map.width < u32_mod
    → length new_map.values ≡ new_map.height * new_map.width
    → IsValid s.layer.costs
    → IsValid l.costmap
    → new_map.width < int_mod
    → new_map.height < int_mod
    → (l' : LayeredCostmap D) × (s' : StaticLayer D) × (l'' : LayeredCostmap D) × (incoming_map fl
          mem new_map
          (l, s)
        ≡ some (l', s'))
      × (update_map fl mem start_min start_max
            (plugin fl far minus_far s' ∷ [])
            robot_x
            robot_y
            robot_yaw
            l'
          ≡ some l'')
      × ((x y : ℕ)
          → x < new_map.width
          → y < new_map.height
          → repainted fl l'.costmap
              (widen (plugin fl far minus_far s' ∷ []) robot_x robot_y robot_yaw (record {
                min_x = start_min;
                min_y = start_min;
                max_x = start_max;
                max_y = start_max;
              }))
              x
              y
            ≡ true
          → at l''.costmap.size_x l''.costmap.costmap x y
            ≡ interpret_value fl s.options
                (to_u8 (get_or new_map.values (y * new_map.width + x) (pos 0))))
update_map-incoming_map {D} fl mem far minus_far start_min start_max new_map l s robot_x robot_y
      robot_yaw fixed enabled overwrite fits enough v vl narrow_x narrow_y =
    let (l', s', e, shows, sized) = incoming_map-Shows fl mem new_map l s fits enough v in
    let (ew, eh) = sized.size fixed in
    let size : length s'.layer.costs.costmap ≡ l'.costmap.size_y * l'.costmap.size_x =
      shows.valid.cells ∙ rw (shows.width, shows.height, ew, eh) refl in
    let t =
      update_map-Composes fl mem start_min start_max (plugin fl far minus_far s') []
        (painted l'.costmap.size_x s' ∷ []) robot_x robot_y robot_yaw l' (sized.rolling ∙ fixed)
        (one_more
          (plugin-Paints fl far minus_far s' shows.received (shows.kept.1 ∙ enabled)
            l'.costmap.size_x l'.costmap.size_y size)
          none_left)
        (sized.valid vl) (omega (arith, ew, eh, narrow_x)) (omega (arith, ew, eh, narrow_y)) in
    (
      l',
      s',
      t.l',
      e,
      t.returns,
      λ x y hx hy inside.
          ap (λ (c : Costmap D). at c.size_x c.costmap x y) t.master
          ∙ t.cells x y (omega arith) (omega arith)
          ∙ if_of_true _ _ inside
          ∙ if_of_false _ _ (ap (λ (o : Options). o.use_maximum) shows.kept.0 ∙ overwrite)
          ∙ ap (λ w. at w s'.layer.costs.costmap x y) ew
          ∙ shows.cells x y hx hy,
    )
