-- ===== src/Queue.antt =====
-- nav2_dwb_controller/costmap_queue/include/costmap_queue/map_based_queue.hpp: a priority queue of
-- bins. The std::map is a list of bins in the order of their priorities, and an iterator into it the
-- priority of its bin, or `none` for `end()`: bins are never erased singly, so iterators stay valid.
-- The vector of a bin is a list with the vector's back first.
pub mod Entries
pub mod Search
pub mod Refine
pub mod Tests
use rosnavigation2copy.Prelude.{
  ℕ, ◌+◌, ◌-◌, ◌<◌, ◌≡◌, Bool, true, false, ◌||◌, ◌&&◌, not, Option, none, some, List, [], ◌∷◌,
}
use rosnavigation2copy.Prelude.{if◌then◌else◌, u32, sub_u32, ltb, ◌==◌}

-- The comparisons of priorities. The laws are those of `double` without NaN, zero being one value.
pub record Priority (P : Type 0) : Type 0 where
  pub lt : P → P → Bool
  pub eqb : P → P → Bool
  pub irrefl : (a : P) → lt a a ≡ false
  pub trans : (a b c : P) → lt a b ≡ true → lt b c ≡ true → lt a c ≡ true
  pub total : (a b : P) → lt a b ≡ false → lt b a ≡ false → a ≡ b
  pub eqb_eq : (a b : P) → eqb a b ≡ true → a ≡ b

-- What a call of front() comes to: `undefined` is back() of an empty vector.
pub data Front (T : Type 0) : Type 0 where
  value : T → Front T
  out_of_range : Front T
  undefined : Front T

abbrev pub Bins : Type 0 → Type 0 → Type 0
Bins P T = List (P × List T)

pub record Queue (P T : Type 0) : Type 0 where
  pub reset_bins : Bool
  pub item_bins : Bins P T
  pub item_count : ℕ
  pub iter : Option P
  pub last_insert_iter : Option P

abbrev pub drop_back : {T : Type 0} → List T → List T
drop_back [] = []
drop_back (x ∷ xs) = xs

module _ {P T : Type 0} (pr : Priority P) where
  open pr use {lt, eqb}

  -- item_bins_.find(p)->second
  unfoldable pub find : P → Bins P T → Option (List T)
  find p [] = none
  find p ((k, xs) ∷ bins) = if lt k p then find p bins else if lt p k then none else some xs

  -- item_bins_.insert({p, {}}), which leaves a bin that is there alone.
  unfoldable pub insert_bin : P → Bins P T → Bins P T
  insert_bin p [] = (p, []) ∷ []
  insert_bin p ((k, xs) ∷ bins) =
      let rest = insert_bin p bins in
      if lt k p then (k, xs) ∷ rest else if lt p k then (p, []) ∷ (k, xs) ∷ bins else (k, xs) ∷ bins

  -- The bin at iterator `p` gets a new vector.
  unfoldable pub change_bin : (List T → List T) → P → Bins P T → Bins P T
  change_bin f p [] = []
  change_bin f p ((k, xs) ∷ bins) =
      let rest = change_bin f p bins in
      if lt k p then (k, xs) ∷ rest else if lt p k then (k, xs) ∷ bins else (k, f xs) ∷ bins

  -- std::find_if from the first bin, for a bin that is not empty.
  unfoldable pub first_full : Bins P T → Option P
  first_full [] = none
  first_full ((k, []) ∷ bins) = first_full bins
  first_full ((k, x ∷ xs) ∷ bins) = some k

  -- std::find_if from iterator `p`.
  unfoldable pub find_full_from : P → Bins P T → Option P
  find_full_from p [] = none
  find_full_from p ((k, xs) ∷ bins) =
      let rest = find_full_from p bins in if lt k p then rest else first_full ((k, xs) ∷ bins)

  unfoldable pub reset : Queue P T → Queue P T
  reset q =
      let q' =
        if q.reset_bins || ltb 0 q.item_count
        then record q { item_bins = []; item_count = 0 }
        else q in
      record q' { iter = none; last_insert_iter = none }

  -- The constructor.
  unfoldable pub new : Bool → Queue P T
  new reset_bins = reset (record {
    reset_bins = reset_bins;
    item_bins = [];
    item_count = 0;
    iter = none;
    last_insert_iter = none;
  })

  -- The bins after the search for the bin of `p`, which makes one if there is none. The search is
  -- skipped if the last insertion was at `p`.
  unfoldable pub locate : P → Queue P T → Bins P T
  locate p q =
      let bins : Bins P T = elim (find p q.item_bins) [
        | none ↦ insert_bin p q.item_bins
        | some _ ↦ q.item_bins
      ] in
      elim q.last_insert_iter [ none ↦ bins | some k ↦ if not (eqb k p) then bins else q.item_bins ]

  unfoldable pub enqueue : P → T → Queue P T → Queue P T
  enqueue p item q = record q {
    item_bins = change_bin (◌∷◌ item) p (locate p q);
    item_count = u32 (q.item_count + 1);
    last_insert_iter = some p;
    iter = elim q.iter [ none ↦ some p | some k ↦ if lt p k then some p else some k ];
  }

  unfoldable pub is_empty : Queue P T → Bool
  is_empty q = q.item_count == 0

  abbrev back : Option (List T) → Front T
  back none = undefined
  back (some []) = undefined
  back (some (x ∷ xs)) = value x

  unfoldable pub front : Queue P T → Front T
  front q = elim q.iter [ none ↦ out_of_range | some k ↦ back (find k q.item_bins) ]

  -- The first statement of pop() at iterator `k`, whose bin holds the vector given.
  unfoldable pub pop_back : Queue P T → P → Option (List T) → Queue P T
  pop_back q k none = q
  pop_back q k (some []) = q
  pop_back q k (some (x ∷ xs)) = record q {
    item_bins = change_bin drop_back k q.item_bins;
    item_count = sub_u32 q.item_count 1;
  }

  unfoldable pub pop_at : Queue P T → Option P → Queue P T
  pop_at q none = q
  pop_at q (some k) =
      let q' = pop_back q k (find k q.item_bins) in
      record q' { iter = find_full_from k q'.item_bins }

  unfoldable pub pop : Queue P T → Queue P T
  pop q = pop_at q q.iter
