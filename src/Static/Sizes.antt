-- ===== src/Static/Sizes.antt =====
-- incomingMap up to its loops: which sizes change, and that they then fit.
use rosnavigation2copy.Prelude.{
  ℕ, ◌+◌, ◌*◌, ◌<◌, ◌≡◌, refl, true, false, not, ◌&&◌, ◌||◌, Bool-cases, inl, inr, some, List, [],
  ◌∷◌, arith, u32_mod,
}
use rosnavigation2copy.Platform.{Floats, Memory}
use rosnavigation2copy.Costmap.{Costmap, IsValid}
use rosnavigation2copy.Costmap.Reset.{resize_map-IsBlank}
use rosnavigation2copy.Costmap
use rosnavigation2copy.Layered
use rosnavigation2copy.Layered.{LayeredCostmap, match_sizes}
use rosnavigation2copy.Static.{
  StaticLayer, OccupancyGrid, has_other_size, resize, match_size, fit_size, resize_layered,
}

-- A cost map that does not roll has the size of the new map; a valid one stays valid.
pub record Sized {D : Type 0} (new_map : OccupancyGrid D) (l l' : LayeredCostmap D) : Type 0 where
  pub size :
      l.rolling_window ≡ false
      → (l'.costmap.size_x ≡ new_map.width) × (l'.costmap.size_y ≡ new_map.height)
  pub rolling : l'.rolling_window ≡ l.rolling_window
  pub valid : IsValid l.costmap → IsValid l'.costmap

module _ {D : Type 0} (fl : Floats D) (mem : Memory) (new_map : OccupancyGrid D) where
  -- The layer before the loops: a map of the new size, and its options kept.
  pub record Fitted (s s' : StaticLayer D) : Type 0 where
    pub width : s'.layer.costs.size_x ≡ new_map.width
    pub height : s'.layer.costs.size_y ≡ new_map.height
    pub valid : IsValid s'.layer.costs
    pub options : (s'.options ≡ s.options) × (s'.layer.enabled ≡ s.layer.enabled)

  same_size :
      (c : Costmap D)
      → has_other_size fl c new_map ≡ false
      → (c.size_x ≡ new_map.width) × (c.size_y ≡ new_map.height)
  unfolding has_other_size
  same_size c e = (ground arith, ground arith)

  module _ (fits : new_map.height * new_map.width + new_map.width < u32_mod) where
    resize-Fitted :
        (s : StaticLayer D)
        → (s' : StaticLayer D) × (resize mem new_map.width new_map.height new_map.resolution
              new_map.origin_x new_map.origin_y s
            ≡ some s')
          × Fitted s s'
    unfolding resize
    resize-Fitted s =
        let (m, e, blank) =
          resize_map-IsBlank mem s.layer.costs new_map.width new_map.height new_map.resolution
            new_map.origin_x new_map.origin_y fits in
        (
          record s {
            layer = record s.layer {
              costs = record s.layer.costs {
                size_x = new_map.width;
                size_y = new_map.height;
                resolution = new_map.resolution;
                origin_x = new_map.origin_x;
                origin_y = new_map.origin_y;
                costmap = m;
              };
            };
          },
          rw e refl,
          record { width = refl; height = refl; valid = blank.valid; options = (refl, refl) },
        )

    module _ (l : LayeredCostmap D) (s : StaticLayer D) where
      match_size_fixed :
          (l' : LayeredCostmap D) (s' : StaticLayer D)
          → l'.rolling_window ≡ false
          → resize mem l'.costmap.size_x l'.costmap.size_y l'.costmap.resolution l'.costmap.origin_x
              l'.costmap.origin_y s
            ≡ some s'
          → match_sizes (match_size mem l') (s ∷ []) ≡ some (s' ∷ [])
      unfolding match_sizes match_size
      match_size_fixed l' s' fixed e = rw (fixed, e) refl

      resize_map_one :
          (m : List ℕ) (s' : StaticLayer D)
          → let l' = record l {
            size_locked = true;
            costmap = record l.costmap {
              size_x = new_map.width;
              size_y = new_map.height;
              resolution = new_map.resolution;
              origin_x = new_map.origin_x;
              origin_y = new_map.origin_y;
              costmap = m;
            };
          } in
            Costmap.resize_map mem l.costmap new_map.width new_map.height new_map.resolution
                new_map.origin_x new_map.origin_y
              ≡ some l'.costmap
            → match_sizes (match_size mem l') (s ∷ []) ≡ some (s' ∷ [])
            → resize_layered fl mem new_map (l, s) ≡ some (l', s')
      unfolding resize_layered
      resize_map_one m s' e e' =
          let both : Layered.resize_map mem (match_size mem) new_map.width new_map.height
                new_map.resolution new_map.origin_x new_map.origin_y true (l, s ∷ [])
              ≡ some (
                record l {
                  size_locked = true;
                  costmap = record l.costmap {
                    size_x = new_map.width;
                    size_y = new_map.height;
                    resolution = new_map.resolution;
                    origin_x = new_map.origin_x;
                    origin_y = new_map.origin_y;
                    costmap = m;
                  };
                },
                s' ∷ [],
              ) =
            unfold Layered.resize_map in rw (e, e') refl in
          rw (resize_layered, both) refl

      resize_layered-Fitted :
          l.rolling_window ≡ false
          → (l' : LayeredCostmap D) × (s' : StaticLayer D) × (resize_layered fl mem new_map (l, s)
              ≡ some (l', s'))
            × Fitted s s'
            × Sized new_map l l'
      resize_layered-Fitted fixed =
          let (m, e, blank) =
            resize_map-IsBlank mem l.costmap new_map.width new_map.height new_map.resolution
              new_map.origin_x new_map.origin_y fits in
          let (s', e', f) = resize-Fitted s in
          (
            _,
            s',
            resize_map_one m s' e (match_size_fixed _ s' fixed e'),
            f,
            record { size = λ _. (refl, refl); rolling = refl; valid = λ _. blank.valid },
          )

      pub fit_size-Fitted :
          IsValid s.layer.costs
          → (l' : LayeredCostmap D) × (s' : StaticLayer D) × (fit_size fl mem new_map (l, s)
              ≡ some (l', s'))
            × Fitted s s'
            × Sized new_map l l'
      unfolding fit_size
      fit_size-Fitted v =
          elim (Bool-cases
            (not l.rolling_window && (has_other_size fl l.costmap new_map || not l.size_locked))) [
              | inl t ↦
                  let (l', s', e, f, sized) = resize_layered-Fitted (ground arith) in
                  (l', s', rw t e, f, sized)
              | inr no_resize ↦ elim (Bool-cases (has_other_size fl s.layer.costs new_map)) [
                | inl t ↦
                    let (s', e', f) = resize-Fitted s in
                    (
                      l,
                      s',
                      rw (no_resize, t, e') refl,
                      f,
                      record {
                        size = λ fixed. same_size l.costmap (ground arith);
                        rolling = refl;
                        valid = λ v. v;
                      },
                    )
                | inr same ↦ (
                  l,
                  s,
                  rw (no_resize, same) refl,
                  record {
                    width = (same_size s.layer.costs same).0;
                    height = (same_size s.layer.costs same).1;
                    valid = v;
                    options = (refl, refl);
                  },
                  record {
                    size = λ fixed. same_size l.costmap (ground arith);
                    rolling = refl;
                    valid = λ v. v;
                  },
                )
              ]
            ]
