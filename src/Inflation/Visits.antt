-- ===== src/Inflation/Visits.antt =====
-- A cell that the wave visits.
use rosnavigation2copy.Prelude.{
  ==_iff, ◌==◌, ℕ, ◌+◌, ◌*◌, ◌<◌, ◌≡◌, ◌≢◌, ap, sym, ◌∙◌, true, false, Bool-cases, inl, inr, some,
  List, length, length-set, set, arith, get_elem?, u32_mod, get_or,
}
use rosnavigation2copy.Prelude.{some_inj, get_elem?-set_self, get_elem?-set_ne}
use mathlib.Core.Bool.{true≢false}
use rosnavigation2copy.Platform.{Floats}
use rosnavigation2copy.Grid.{at}
use rosnavigation2copy.Grid.Index.{same_cell, neq_of_false, written, index-lt, get_or-set}
use rosnavigation2copy.Inflation.{CellData, Wavefront, InflationLayer, lookup, inflate_cell}
use rosnavigation2copy.Inflation.Reach.{Waits, Reaches}
use rosnavigation2copy.Inflation.Front.{HasCaches, Inflated, IsFront}

set_here : (m : List ℕ) (i v : ℕ) → i < length m → get_or (set m i v) i 0 ≡ v
set_here m i v h = ground (arith, get_or-set m i i v 0 h)

set_there : (m : List ℕ) (i v j : ℕ) → i < length m → i ≢ j → get_or (set m i v) j 0 ≡ get_or m j 0
set_there m i v j h ne = ground (arith, get_or-set m i j v 0 h)

index_ne :
    (n cx cy w : ℕ)
    → n ≡ cy * w + cx
    → (x y : ℕ) → x < w
    → cx < w
    → (x ≡ cx → y ≢ cy)
    → n ≢ y * w + x
index_ne n cx cy w place x y hx hcx ne e =
    let (ex, ey) = same_cell w x y cx cy hx hcx (sym e ∙ place) in ne ex ey

module _ {D : Type 0} (fl : Floats D) (l : InflationLayer D) (P : ℕ → ℕ → Type 0) (w h : ℕ)
    (orig : List ℕ) (caches : HasCaches fl l) where
  module _ (small : h * w < u32_mod) (c : CellData)
      (this : Reaches P w h l.cell_inflation_radius c) where
    visited-Inflated :
        (cost : ℕ) (s : Wavefront D)
        → IsFront fl l P w h orig s
        → get_elem? s.seen c.index ≡ some false
        → lookup l.cached_costs c.x c.y c.src_x c.src_y ≡ some cost
        → Inflated l P c.x c.y (at w orig c.x c.y) (
            at w
              (set s.master c.index
                (inflate_cell l.inflate_unknown cost (get_or s.master c.index 0)))
              c.x
              c.y)
    unfolding at
    visited-Inflated cost s f unseen found =
        let v = inflate_cell l.inflate_unknown cost (get_or s.master c.index 0) in
        let here : c.index < length s.master =
          omega (arith, this.place, index-lt w h c.x c.y this.column this.row, f.full) in
        let was : get_or s.master c.index 0 ≡ at w orig c.x c.y =
          ap (λ (n : ℕ). get_or s.master n 0) this.place
          ∙ f.fresh c.x c.y this.column this.row
              (ap (λ (n : ℕ). get_elem? s.seen n) (sym this.place) ∙ unseen) in
        record {
          src_x = c.src_x;
          src_y = c.src_y;
          cost = cost;
          source = this.source;
          near_x = this.near_x;
          near_y = this.near_y;
          found = found;
          value =
              sym (ap (λ (n : ℕ). get_or (set s.master c.index v) n 0) this.place)
              ∙ set_here s.master c.index v here
              ∙ ap (inflate_cell l.inflate_unknown cost) was;
        }

    seen_other :
        (s : Wavefront D) (n : ℕ)
        → c.index < length s.seen
        → get_elem? (set s.seen c.index true) n ≡ some false
        → c.index ≢ n
    seen_other s n here e same = true≢false (
        some_inj (
          sym (get_elem?-set_self s.seen c.index true here)
          ∙ ap (get_elem? (set s.seen c.index true)) same
          ∙ e))

    -- A cell that is not seen yet, before its neighbours.
    pub visited-IsFront :
        (cost : ℕ) (s : Wavefront D)
        → IsFront fl l P w h orig s
        → get_elem? s.seen c.index ≡ some false
        → lookup l.cached_costs c.x c.y c.src_x c.src_y ≡ some cost
        → IsFront fl l P w h orig (record s {
          seen = set s.seen c.index true;
          master =
              set s.master c.index
                (inflate_cell l.inflate_unknown cost (get_or s.master c.index 0));
        })
    unfolding at
    visited-IsFront cost s f unseen found =
        let v = inflate_cell l.inflate_unknown cost (get_or s.master c.index 0) in
        let here : c.index < h * w =
          omega (arith, this.place, index-lt w h c.x c.y this.column this.row) in
        let put = ap (λ (n : ℕ). set s.master n v) this.place in
        record {
          sized = length-set s.seen c.index true ∙ f.sized;
          full = length-set s.master c.index v ∙ f.full;
          cells = f.cells;
          later = f.later;
          done = λ x y hx hy e.
              elim (written w h s.master c.x c.y v x y f.full this.column this.row hx hy) [
                | inl (ex, ey, _) ↦ rw (ex, ey) (visited-Inflated cost s f unseen found)
                | inr (ne, there) ↦
                    let other = index_ne c.index c.x c.y w this.place x y hx this.column ne in
                    rw (ap (λ m. at w m x y) put ∙ there)
                      (f.done x y hx hy (sym (get_elem?-set_ne s.seen true other) ∙ e))
              ];
          fresh = λ x y hx hy e.
              let other = seen_other s (y * w + x) (omega (arith, f.sized)) e in
              set_there s.master c.index v _ (omega (arith, f.full)) other
              ∙ f.fresh x y hx hy (sym (get_elem?-set_ne s.seen true other) ∙ e);
        }

    pub seen_longer :
        (s : Wavefront D) (master : List ℕ) (n : ℕ)
        → c.index < length s.seen
        → Waits s n
        → Waits (record s { seen = set s.seen c.index true; master = master }) n
    seen_longer s master n here (inl done) = elim (Bool-cases (c.index == n)) [
      | inl t ↦ inl (
          ap (get_elem? (set s.seen c.index true)) (sym ((==_iff c.index n).0 t))
          ∙ get_elem?-set_self s.seen c.index true here)
      | inr f ↦ inl (get_elem?-set_ne s.seen true (neq_of_false _ _ f) ∙ done)
    ]
    seen_longer s master n here (inr has) = inr has
