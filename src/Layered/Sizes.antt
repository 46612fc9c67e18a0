-- ===== src/Layered/Sizes.antt =====
-- resizeMap: every layer's matchSize is called once, on the resized master map.
use rosnavigation2copy.Prelude.{
  ℕ, ◌+◌, ◌*◌, ◌<◌, ◌≡◌, refl, Bool, Option, some, List, [], ◌∷◌, u32_mod, length,
}
use rosnavigation2copy.Platform.{Memory}
use rosnavigation2copy.Costmap.{Costmap}
use rosnavigation2copy.Costmap.Reset.{IsBlank, resize_map-IsBlank}
use rosnavigation2copy.Layer.{Layer, match_size}
use rosnavigation2copy.Layered.{LayeredCostmap, match_sizes, resize_map}

-- A layer has the size of the master map, and a valid one of its own.
pub record Matches {D : Type 0} (c : Costmap D) (l : Layer D) : Type 0 where
  pub size : length l.costs.costmap ≡ c.size_y * c.size_x
  pub width : l.costs.size_x ≡ c.size_x
  pub height : l.costs.size_y ≡ c.size_y
  pub blank : IsBlank l.costs

-- Every layer of the one list became the layer of the other in its place, as `Good` says.
pub data AllMatch {P : Type 0} (Good : P → P → Type 0) : List P → List P → Type 0 where
  none_left : AllMatch Good [] []
  one_more :
      {p p' : P} {ps ps' : List P}
      → Good p p'
      → AllMatch Good ps ps'
      → AllMatch Good (p ∷ ps) (p' ∷ ps')

module _ {D : Type 0} (mem : Memory) (c : Costmap D)
    (fits : c.size_y * c.size_x + c.size_x < u32_mod) where
  -- matchSize of CostmapLayer.
  pub match_size-Matches :
      (l : Layer D)
      → (l' : Layer D) × (match_size mem l c ≡ some l') × Matches c l' × (l'.enabled ≡ l.enabled)
  unfolding match_size
  match_size-Matches l =
      let (m, e, blank) =
        resize_map-IsBlank mem l.costs c.size_x c.size_y c.resolution c.origin_x c.origin_y fits in
      (
        record l {
          costs = record l.costs {
            size_x = c.size_x;
            size_y = c.size_y;
            resolution = c.resolution;
            origin_x = c.origin_x;
            origin_y = c.origin_y;
            costmap = m;
          };
        },
        rw e refl,
        record { size = blank.valid.cells; width = refl; height = refl; blank = blank },
        refl,
      )

match_sizes-AllMatch :
    {P : Type 0} (Good : P → P → Type 0) (match : P → Option P)
    → ((p : P) → (p' : P) × (match p ≡ some p') × Good p p')
    → (ps : List P) → (ps' : List P) × (match_sizes match ps ≡ some ps') × AllMatch Good ps ps'
unfolding match_sizes
match_sizes-AllMatch Good match good [] = ([], refl, none_left)
match_sizes-AllMatch Good match good (p ∷ ps) =
    let (p', e, this) = good p in
    let (ps', e', rest) = match_sizes-AllMatch Good match good ps in
    (p' ∷ ps', rw (e, e') refl, one_more this rest)

-- Layers of any kind, where matchSize of each one returns on every blank master map and then does
-- what `Good` says: `resize_map` to a size that fits returns. The master map is then blank, of that
-- size, resolution and origin, the size is locked as asked, and each layer, in its place, is what
-- matchSize makes of it on that new master map.
pub resize_map-AllMatch :
    {D P : Type 0} (mem : Memory) (match : LayeredCostmap D → P → Option P)
    (Good : LayeredCostmap D → P → P → Type 0) (size_x size_y : ℕ)
    (resolution origin_x origin_y : D) (size_locked : Bool) (l : LayeredCostmap D) (ps : List P)
    → ((l' : LayeredCostmap D)
        → IsBlank l'.costmap
        → (p : P) → (p' : P) × (match l' p ≡ some p') × Good l' p p')
    → size_y * size_x + size_x < u32_mod
    → (l' : LayeredCostmap D) × (ps' : List P) × (resize_map mem match size_x size_y resolution
          origin_x origin_y size_locked
          (l, ps)
        ≡ some (l', ps'))
      × ((l'.costmap.size_x ≡ size_x) × (l'.costmap.size_y ≡ size_y))
      × ((l'.costmap.resolution ≡ resolution)
          × (l'.costmap.origin_x ≡ origin_x)
          × (l'.costmap.origin_y ≡ origin_y))
      × (l'.size_locked ≡ size_locked)
      × IsBlank l'.costmap
      × AllMatch (Good l') ps ps'
unfolding resize_map
resize_map-AllMatch {D} mem match Good size_x size_y resolution origin_x origin_y size_locked l ps
      good fits =
    let (m, e, blank) =
      resize_map-IsBlank mem l.costmap size_x size_y resolution origin_x origin_y fits in
    let l' : LayeredCostmap D = record l {
      size_locked = size_locked;
      costmap = record l.costmap {
        size_x = size_x;
        size_y = size_y;
        resolution = resolution;
        origin_x = origin_x;
        origin_y = origin_y;
        costmap = m;
      };
    } in
    let (ps', e', all) = match_sizes-AllMatch (Good l') (match l') (good l' blank) ps in
    (l', ps', rw (e, e') refl, (refl, refl), (refl, refl, refl), refl, blank, all)
