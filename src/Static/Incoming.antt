-- ===== src/Static/Incoming.antt =====
-- incomingMap and incomingUpdate: what the layer shows of a map.
use rosnavigation2copy.Prelude.{
  ℕ, ◌+◌, ◌-◌, ◌*◌, ◌<◌, ◌≡◌, ◌∙◌, refl, ap, true, some, arith, length, get_or, u32_mod,
}
use rosnavigation2copy.Prelude.Int.{pos}
use rosnavigation2copy.Prelude.Loops.{◌>>=◌}
use rosnavigation2copy.Platform.{Floats, Memory}
use rosnavigation2copy.Grid.{at}
use rosnavigation2copy.Costmap.{IsValid}
use rosnavigation2copy.Costmap.Reset.{Repaints}
use rosnavigation2copy.Layered.{LayeredCostmap}
use rosnavigation2copy.Static.{
  StaticLayer, OccupancyGrid, OccupancyGridUpdate, to_u8, interpret_value, incoming_map,
  incoming_update, show_all, fill,
}
use rosnavigation2copy.Static.Filled.{fill-shown, overlay-MapsWindow, Fits}
use rosnavigation2copy.Static.Sizes.{Sized, fit_size-Fitted}

-- The layer shows the map: a cost for each cell, what `interpret_value` makes of its value, and the
-- whole map is to be updated.
pub record Shows {D : Type 0} (fl : Floats D) (new_map : OccupancyGrid D) (s s' : StaticLayer D)
    : Type 0 where
  pub width : s'.layer.costs.size_x ≡ new_map.width
  pub height : s'.layer.costs.size_y ≡ new_map.height
  pub valid : IsValid s'.layer.costs
  pub cells :
      (x y : ℕ)
      → x < new_map.width
      → y < new_map.height
      → at new_map.width s'.layer.costs.costmap x y
        ≡ interpret_value fl s.options
            (to_u8 (get_or new_map.values (y * new_map.width + x) (pos 0)))
  pub received : s'.map_received ≡ true
  pub window : (s'.x ≡ 0) × (s'.y ≡ 0) × (s'.width ≡ new_map.width) × (s'.height ≡ new_map.height)
  pub updated : s'.has_updated_data ≡ true
  pub kept : (s'.options ≡ s.options) × (s'.layer.enabled ≡ s.layer.enabled)

-- A map that fits, with a value for each of its cells, and a layer with a valid map: `incoming_map`
-- returns, whatever has to be resized, and the layer then shows the map, with its options and its
-- `enabled` as before; a cost map that does not roll has the size of the map.
pub incoming_map-Shows :
    {D : Type 0} (fl : Floats D) (mem : Memory) (new_map : OccupancyGrid D) (l : LayeredCostmap D)
    (s : StaticLayer D)
    → new_map.height * new_map.width + new_map.width < u32_mod
    → length new_map.values ≡ new_map.height * new_map.width
    → IsValid s.layer.costs
    → (l' : LayeredCostmap D) × (s' : StaticLayer D) × (incoming_map fl mem new_map (l, s)
        ≡ some (l', s'))
      × Shows fl new_map s s'
      × Sized new_map l l'
unfolding incoming_map show_all
incoming_map-Shows {D} fl mem new_map l s fits enough v =
    let (l', s', e, f, sizes) = fit_size-Fitted fl mem new_map fits l s v in
    let area : length s'.layer.costs.costmap ≡ new_map.height * new_map.width =
      f.valid.cells ∙ rw (f.width, f.height) refl in
    let (m, e2, size, cells) =
      fill-shown (interpret_value fl s.options) new_map.values s'.layer.costs.costmap new_map.width
        new_map.height (omega (arith, fits)) enough area in
    (
      l',
      show_all (record s' {
        layer = record s'.layer { costs = record s'.layer.costs { costmap = m } };
        map_received = true;
      }),
      ap
            (λ o. o >>= λ (st : LayeredCostmap D × StaticLayer D).
              fill (interpret_value fl st.1.options) new_map.values new_map.width new_map.height
                st.1.layer.costs.costmap
              >>= λ m. some (
                st.0,
                show_all (record st.1 {
                  layer = record st.1.layer { costs = record st.1.layer.costs { costmap = m } };
                  map_received = true;
                }),
              ))
            e
          ∙ rw (f.options.0, e2) refl,
      record {
        width = f.width;
        height = f.height;
        valid = record { cells = size ∙ f.valid.cells; fits = f.valid.fits };
        cells = cells;
        received = refl;
        window = (refl, refl, f.width, f.height);
        updated = refl;
        kept = f.options;
      },
      sizes,
    )

-- A layer with a valid map, and an update whose window lies in it and has a value for each cell:
-- `incoming_update` returns, gives the cells of the window what `interpret_value` makes of their
-- values and changes no other cost, and the window is what is to be updated.
pub incoming_update-Repaints :
    {D : Type 0} (fl : Floats D) (update : OccupancyGridUpdate) (s : StaticLayer D)
    → IsValid s.layer.costs
    → Fits s.layer.costs.size_x s.layer.costs.size_y update
    → (s' : StaticLayer D) × (incoming_update fl update s ≡ some s')
      × (s'.x ≡ update.x)
      × (s'.y ≡ update.y)
      × (s'.width ≡ update.width)
      × (s'.height ≡ update.height)
      × (s'.has_updated_data ≡ true)
      × Repaints
          (λ x y old.
            interpret_value fl s.options (
              to_u8
                (get_or update.values ((y - update.y) * update.width + (x - update.x)) (pos 0))))
          update.x
          update.y
          (update.x + update.width)
          (update.y + update.height)
          s.layer.costs
          (some s'.layer.costs)
unfolding incoming_update
incoming_update-Repaints fl update s v fits =
    let o =
      overlay-MapsWindow (interpret_value fl s.options) s.layer.costs.size_x s.layer.costs.size_y
        update s.layer.costs.costmap v.fits v.cells fits in
    (
      record s {
        layer = record s.layer { costs = record s.layer.costs { costmap = o.out } };
        x = update.x;
        y = update.y;
        width = update.width;
        height = update.height;
        has_updated_data = true;
      },
      rw o.returns refl,
      refl,
      refl,
      refl,
      refl,
      refl,
      record {
        m = o.out;
        returns = refl;
        valid = record { cells = o.size ∙ v.cells; fits = v.fits };
        cells = o.cells;
      },
    )
