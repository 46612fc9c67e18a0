-- ===== src/Wave/Measure.antt =====
-- What is left of a wave: the cells not seen and the cells in the queue.
use rosnavigation2copy.Prelude.{
  ℕ, zero, suc, ◌+◌, ◌<◌, ◌≡◌, ◌≢◌, refl, ap, Bool, true, false, none, some, List, [], ◌∷◌, arith,
  get_elem?, set, length, u32_mod, some_inj, Option-cases, Bool-cases, inl, inr,
}
use mathlib.Core.Path.{subst}
use rosnavigation2copy.Platform.{Floats}
use rosnavigation2copy.Queue.{Priority, enqueue}
use rosnavigation2copy.Queue.Refine.{IsValid, view, enqueue-insert, length-insert}
use rosnavigation2copy.Wave.{CellData, CostmapQueue, enqueue_cell, distance_lookup}

abbrev pub unseen : List Bool → ℕ
unseen [] = 0
unseen (true ∷ seen) = unseen seen
unseen (false ∷ seen) = suc (unseen seen)

pub unseen-set :
    (seen : List Bool) (i : ℕ)
    → get_elem? seen i ≡ some false
    → suc (unseen (set seen i true)) ≡ unseen seen
unseen-set [] i h = ground arith
unseen-set (true ∷ seen) zero h = ground arith
unseen-set (false ∷ seen) zero h = refl
unseen-set (true ∷ seen) (suc i) h = unseen-set seen i h
unseen-set (false ∷ seen) (suc i) h = ap suc (unseen-set seen i h)

none-no : {A : Type 0} (a : A) → none ≢ some a
none-no a h = ground arith

module _ {D : Type 0} (fl : Floats D) (pr : Priority D) (valid : CellData D → Bool) where
  abbrev pub left : CostmapQueue D → ℕ
  left q = unseen q.seen + length (view pr q.queue)

  -- The queue is valid and what is left is the same.
  pub record Keeps (q q' : CostmapQueue D) : Type 0 where
    pub queue : IsValid pr q'.queue
    pub same : left q' ≡ left q

  pub queued :
      (cell : CellData D) (i : ℕ) (d : D) (q : CostmapQueue D)
      → IsValid pr q.queue
      → left q + 1 < u32_mod
      → get_elem? q.seen i ≡ some false
      → Keeps q (record q { seen = set q.seen i true; queue = enqueue pr d cell q.queue })
  queued cell i d q v room h =
      let (v', e) = enqueue-insert pr d cell q.queue v (omega arith) in
      let n = length-insert pr d cell (view pr q.queue) in
      record { queue = v'; same = rw e (omega (arith, n, unseen-set q.seen i h)) }

  -- Whether a cell is seen, refused or queued, the queue stays valid, and the cells not seen and the
  -- cells queued stay as many in all: a cell is queued only by being seen.
  enqueue_cell-Keeps :
      (index cur_x cur_y src_x src_y : ℕ) (q q' : CostmapQueue D)
      → IsValid pr q.queue
      → left q + 1 < u32_mod
      → enqueue_cell fl pr valid index cur_x cur_y src_x src_y q ≡ some q'
      → Keeps q q'
  unfolding enqueue_cell
  enqueue_cell-Keeps index cur_x cur_y src_x src_y q q' v room h =
      elim (Option-cases (get_elem? q.seen index)) [
        | inl e ↦ absurd (none-no q' (rw e at h))
        | inr (true, e) ↦ subst (Keeps q) (some_inj (rw e at h)) (record { queue = v; same = refl })
        | inr (false, e) ↦ elim (Option-cases (distance_lookup fl pr q cur_x cur_y src_x src_y)) [
          | inl f ↦ absurd (none-no q' (rw (e, f) at h))
          | inr (d, f) ↦
              let cell : CellData D = record {
                distance = d;
                index = index;
                x = cur_x;
                y = cur_y;
                src_x = src_x;
                src_y = src_y;
              } in
              elim (Bool-cases (valid cell)) [
                | inl g ↦
                    subst (Keeps q) (some_inj (rw (e, f, g) at h)) (queued cell index d q v room e)
                | inr g ↦
                    subst (Keeps q) (some_inj (rw (e, f, g) at h))
                      (record { queue = v; same = refl })
              ]
        ]
      ]
