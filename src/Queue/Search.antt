-- ===== src/Queue/Search.antt =====
-- The searches for a bin: the bin at the iterator after a pop, and the bin of the last insertion.
use rosnavigation2copy.Prelude.{◌≡◌, refl, true, false, none, some, List, [], ◌∷◌}
use rosnavigation2copy.Prelude.{if◌then◌else◌, Bool-cases, inl, inr}
use mathlib.Core.Path.{subst}
use rosnavigation2copy.Prelude.{some_inj}
use rosnavigation2copy.Queue.{
  Priority, Bins, find, insert_bin, change_bin, drop_back, find_full_from,
}
use rosnavigation2copy.Queue.Entries.{
  tagged, entries, head_key, first_full-eq, After, IsSorted, asym, keys, insert,
}

module _ {P T : Type 0} (pr : Priority P) where
  open pr use {lt, irrefl, total}

  After-head_key :
      (j k : P) (bins : Bins P T)
      → After pr j bins
      → head_key (entries bins) ≡ some k
      → lt j k ≡ true
  unfolding entries tagged head_key
  After-head_key j k [] a h = cc
  After-head_key j k ((i, []) ∷ bins) a h = After-head_key j k bins a.1 h
  After-head_key j k ((i, x ∷ xs) ∷ bins) a h = subst (λ i. lt j i ≡ true) (some_inj h) a.0

  -- The front bin, what taking its back leaves, and where the search from there ends.
  pub record PopsAt (k : P) (bins : Bins P T) : Type 0 where
    pub x : T
    pub xs : List T
    pub found : find pr k bins ≡ some (x ∷ xs)
    pub taken : entries bins ≡ (k, x) ∷ entries (change_bin pr drop_back k bins)
    pub next :
        find_full_from pr k (change_bin pr drop_back k bins)
        ≡ head_key (entries (change_bin pr drop_back k bins))

  pub pops :
      (k : P) (bins : Bins P T)
      → IsSorted pr bins
      → head_key (entries bins) ≡ some k
      → PopsAt k bins
  unfolding find change_bin find_full_from entries tagged head_key
  pops k [] s h = absurd (cc)
  pops k ((j, []) ∷ bins) s h =
      let before = After-head_key j k bins s.0 h in
      let r = pops k bins s.1 h in
      record {
        x = r.x;
        xs = r.xs;
        found = rw before r.found;
        taken = rw before r.taken;
        next = rw (before, before) r.next;
      }
  pops k ((j, x ∷ xs) ∷ bins) s h =
      subst (λ k. PopsAt k ((j, x ∷ xs) ∷ bins)) (some_inj h)
        (record {
          x = x;
          xs = xs;
          found = rw (irrefl j);
          taken = rw (irrefl j);
          next = rw (irrefl j, irrefl j) (first_full-eq pr ((j, xs) ∷ bins));
        })

  -- The bin of the last insertion stays where the iterator to it leads.
  abbrev pub HasBin : P → Bins P T → Type 0
  HasBin p bins = (xs : List T) × (find pr p bins ≡ some xs)

  pub HasBin-change_bin :
      (f : List T → List T) (p k : P) (bins : Bins P T)
      → HasBin p bins
      → HasBin p (change_bin pr f k bins)
  unfolding find change_bin
  HasBin-change_bin f p k [] (xs, h) = absurd (cc)
  HasBin-change_bin f p k ((j, ys) ∷ bins) (xs, h) = elim (keys pr p j) [
    | inl before ↦
        let rest = HasBin-change_bin f p k bins (xs, rw before at h) in
        elim (Bool-cases (lt j k)) [
          | inl a ↦ rw (a, before) rest
          | inr a ↦ elim (Bool-cases (lt k j)) [
            | inl b ↦ rw (a, b, before) (xs, rw before at h)
            | inr b ↦ rw (a, b, before) (xs, rw before at h)
          ]
        ]
    | inr (inl (a, b)) ↦ absurd (empty (rw (a, b) at h))
    | inr (inr same) ↦
        here (subst (λ j. (lt j p ≡ false) × (lt p j ≡ false)) same (irrefl p, irrefl p))
  ]
    where
      empty : {xs : List T} → none ≡ some xs → ⊥
      empty e = cc

      here : (lt j p ≡ false) × (lt p j ≡ false) → HasBin p (change_bin pr f k ((j, ys) ∷ bins))
      here (a, b) = elim (Bool-cases (lt j k)) [
        | inl c ↦ rw (c, a, b) (ys, refl)
        | inr c ↦ elim (Bool-cases (lt k j)) [
          | inl d ↦ rw (c, d, a, b) (ys, refl)
          | inr d ↦ rw (c, d, a, b) (f ys, refl)
        ]
      ]

  pub HasBin-insert_bin : (p : P) (bins : Bins P T) → HasBin p (insert_bin pr p bins)
  unfolding find insert_bin
  HasBin-insert_bin p [] = rw (irrefl p) ([], refl)
  HasBin-insert_bin p ((j, ys) ∷ bins) =
      let rest = HasBin-insert_bin p bins in
      elim (Bool-cases (lt j p)) [
        | inl a ↦ rw (a, a) rest
        | inr a ↦ elim (Bool-cases (lt p j)) [
          | inl b ↦ rw (a, b, irrefl p) ([], refl)
          | inr b ↦ rw (a, b, a, b) (ys, refl)
        ]
      ]

  -- The priority at the front after an insertion.
  pub head_key-insert :
      (p : P) (x : T) (es : List (P × T))
      → head_key (insert pr p x es)
        ≡ elim (head_key es) [ none ↦ some p | some k ↦ if lt p k then some p else some k ]
  unfolding head_key insert
  head_key-insert p x [] = refl
  head_key-insert p x ((k, y) ∷ es) = elim (keys pr p k) [
    | inl before ↦ rw (before, asym pr k p before)
    | inr (inl (a, b)) ↦ rw (a, b)
    | inr (inr same) ↦
        subst (λ k. head_key (insert pr p x ((k, y) ∷ es)) ≡ (if lt p k then some p else some k))
          same (rw (irrefl p))
  ]
