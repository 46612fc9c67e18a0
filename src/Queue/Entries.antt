-- ===== src/Queue/Entries.antt =====
-- The entries of the bins in the order in which they leave the queue, and what the operations on
-- bins do to them.
use mathlib.Core.Path.{subst}
use rosnavigation2copy.Prelude.{
  ◌≡◌, ◌∙◌, sym, ap, refl, Bool, true, false, Option, none, some, List, [], ◌∷◌,
}
use rosnavigation2copy.Prelude.{if◌then◌else◌, Bool-cases, inl, inr, ◌⊎◌}
use rosnavigation2copy.Queue.{Priority, Bins, find, insert_bin, change_bin, first_full}

module _ {P T : Type 0} where
  unfoldable pub tagged : P → List T → List (P × T) → List (P × T)
  tagged k [] rest = rest
  tagged k (x ∷ xs) rest = (k, x) ∷ tagged k xs rest

  unfoldable pub entries : Bins P T → List (P × T)
  entries [] = []
  entries ((k, xs) ∷ bins) = tagged k xs (entries bins)

  unfoldable pub head_key : List (P × T) → Option P
  head_key [] = none
  head_key ((k, x) ∷ es) = some k

  abbrev pub tail : List (P × T) → List (P × T)
  tail [] = []
  tail (e ∷ es) = es

  -- The iterator to the first full bin shows the priority of the first entry.
  pub first_full-eq :
      (pr : Priority P) (bins : Bins P T) → first_full pr bins ≡ head_key (entries bins)
  unfolding first_full entries tagged head_key
  first_full-eq pr [] = refl
  first_full-eq pr ((k, []) ∷ bins) = first_full-eq pr bins
  first_full-eq pr ((k, x ∷ xs) ∷ bins) = refl

module _ {P : Type 0} (pr : Priority P) where
  open pr use {lt, irrefl, trans, total}

  pub asym : (a b : P) → lt a b ≡ true → lt b a ≡ false
  asym a b h = elim (Bool-cases (lt b a)) [
    | inl h' ↦ absurd (clash (trans a b a h h') (irrefl a))
    | inr no_lt ↦ no_lt
  ]
    where
      clash : {b : Bool} → b ≡ true → b ≡ false → ⊥
      clash p q = cc

  -- How two priorities compare.
  pub keys : (p k : P) → (lt k p ≡ true) ⊎ ((lt k p ≡ false) × (lt p k ≡ true) ⊎ (p ≡ k))
  keys p k = elim (Bool-cases (lt k p)) [
    | inl before ↦ inl before
    | inr not_before ↦ inr (elim (Bool-cases (lt p k)) [
      | inl after ↦ inl (not_before, after)
      | inr not_after ↦ inr (total p k not_after not_before)
    ])
  ]

module _ {P T : Type 0} (pr : Priority P) where
  open pr use {lt, irrefl, trans, total}

  -- Insertion before the first entry whose priority is not less.
  unfoldable pub insert : P → T → List (P × T) → List (P × T)
  insert p x [] = (p, x) ∷ []
  insert p x ((k, y) ∷ es) =
      let rest = insert p x es in if lt k p then (k, y) ∷ rest else (p, x) ∷ (k, y) ∷ es

  -- Every bin comes after `p`.
  abbrev pub After : P → Bins P T → Type 0
  After p [] = Unit
  After p ((k, xs) ∷ bins) = (lt p k ≡ true) × After p bins

  abbrev pub IsSorted : Bins P T → Type 0
  IsSorted [] = Unit
  IsSorted ((k, xs) ∷ bins) = After k bins × IsSorted bins

  After-trans : (p q : P) (bins : Bins P T) → lt p q ≡ true → After q bins → After p bins
  After-trans p q [] h a = tt
  After-trans p q ((k, xs) ∷ bins) h a = (trans p q k h a.0, After-trans p q bins h a.1)

  insert-tagged_before :
      (p k : P) (x : T) (xs : List T) (rest : List (P × T))
      → lt k p ≡ true
      → insert p x (tagged k xs rest) ≡ tagged k xs (insert p x rest)
  unfolding insert tagged
  insert-tagged_before p k x [] rest h = refl
  insert-tagged_before p k x (y ∷ xs) rest h = rw (h, insert-tagged_before p k x xs rest h)

  -- In front of entries that all come after `p` or are at `p`.
  insert-entries-After :
      (p : P) (x : T) (bins : Bins P T)
      → After p bins
      → insert p x (entries bins) ≡ (p, x) ∷ entries bins
  unfolding insert entries tagged
  insert-entries-After p x [] a = refl
  insert-entries-After p x ((k, []) ∷ bins) a = insert-entries-After p x bins a.1
  insert-entries-After p x ((k, y ∷ xs) ∷ bins) a = rw (asym pr p k a.0)

  insert-tagged_same :
      (p : P) (x : T) (xs : List T) (bins : Bins P T)
      → After p bins
      → insert p x (tagged p xs (entries bins)) ≡ (p, x) ∷ tagged p xs (entries bins)
  unfolding insert tagged
  insert-tagged_same p x [] bins a = insert-entries-After p x bins a
  insert-tagged_same p x (y ∷ xs) bins a = rw (irrefl p)

  change_bin-here :
      (f : List T → List T) (p : P) (xs : List T) (bins : Bins P T)
      → change_bin pr f p ((p, xs) ∷ bins) ≡ (p, f xs) ∷ bins
  unfolding change_bin
  change_bin-here f p xs bins = rw (irrefl p)

  change_bin-past :
      (f : List T → List T) (p k : P) (xs : List T) (bins : Bins P T)
      → lt k p ≡ true
      → change_bin pr f p ((k, xs) ∷ bins) ≡ (k, xs) ∷ change_bin pr f p bins
  unfolding change_bin
  change_bin-past f p k xs bins h = rw h

  -- Pushing an item on the bin of its priority inserts it into the entries.
  pub entries-push :
      (p : P) (x : T) (bins : Bins P T)
      → IsSorted bins
      → entries (change_bin pr (◌∷◌ x) p (insert_bin pr p bins)) ≡ insert p x (entries bins)
  unfolding insert_bin entries tagged insert
  entries-push p x [] s = ap entries (change_bin-here (◌∷◌ x) p [] [])
  entries-push p x ((k, xs) ∷ bins) s = elim (keys pr p k) [
    | inl before ↦ rw before (
        ap entries (change_bin-past (◌∷◌ x) p k xs (insert_bin pr p bins) before)
        ∙ ap (tagged k xs) (entries-push p x bins s.1)
        ∙ sym (insert-tagged_before p k x xs (entries bins) before))
    | inr (inl (not_before, after)) ↦
        rw (not_before, after)
          (ap entries (change_bin-here (◌∷◌ x) p [] ((k, xs) ∷ bins))
            ∙ sym
                (insert-entries-After p x ((k, xs) ∷ bins) (after, After-trans p k bins after s.0)))
    | inr (inr same) ↦
        subst
          (λ k.
            After k bins
            → entries (change_bin pr (◌∷◌ x) p (insert_bin pr p ((k, xs) ∷ bins)))
              ≡ insert p x (entries ((k, xs) ∷ bins)))
          same
          (λ a. rw (irrefl p) (
            ap entries (change_bin-here (◌∷◌ x) p xs bins)
            ∙ sym (insert-tagged_same p x xs bins a)))
          s.0
  ]

  -- The bins stay in order.
  pub After-change_bin :
      (f : List T → List T) (k p : P) (bins : Bins P T)
      → After k bins
      → After k (change_bin pr f p bins)
  unfolding change_bin
  After-change_bin f k p [] a = tt
  After-change_bin f k p ((j, xs) ∷ bins) a =
      let rest = After-change_bin f k p bins a.1 in
      elim (Bool-cases (lt j p)) [
        | inl before ↦ rw before (a.0, rest)
        | inr not_before ↦ elim (Bool-cases (lt p j)) [
          | inl after ↦ rw (not_before, after) a
          | inr not_after ↦ rw (not_before, not_after) a
        ]
      ]

  pub IsSorted-change_bin :
      (f : List T → List T) (p : P) (bins : Bins P T)
      → IsSorted bins
      → IsSorted (change_bin pr f p bins)
  unfolding change_bin
  IsSorted-change_bin f p [] s = tt
  IsSorted-change_bin f p ((j, xs) ∷ bins) s =
      let rest = IsSorted-change_bin f p bins s.1 in
      let after_j = After-change_bin f j p bins s.0 in
      elim (Bool-cases (lt j p)) [
        | inl before ↦ rw before (after_j, rest)
        | inr not_before ↦ elim (Bool-cases (lt p j)) [
          | inl after ↦ rw (not_before, after) s
          | inr not_after ↦ rw (not_before, not_after) s
        ]
      ]

  After-insert_bin :
      (k p : P) (bins : Bins P T) → lt k p ≡ true → After k bins → After k (insert_bin pr p bins)
  unfolding insert_bin
  After-insert_bin k p [] h a = (h, tt)
  After-insert_bin k p ((j, xs) ∷ bins) h a =
      let rest = After-insert_bin k p bins h a.1 in
      elim (Bool-cases (lt j p)) [
        | inl before ↦ rw before (a.0, rest)
        | inr not_before ↦ elim (Bool-cases (lt p j)) [
          | inl after ↦ rw (not_before, after) (h, a)
          | inr not_after ↦ rw (not_before, not_after) a
        ]
      ]

  pub IsSorted-insert_bin :
      (p : P) (bins : Bins P T) → IsSorted bins → IsSorted (insert_bin pr p bins)
  unfolding insert_bin
  IsSorted-insert_bin p [] s = (tt, tt)
  IsSorted-insert_bin p ((j, xs) ∷ bins) s =
      let rest = IsSorted-insert_bin p bins s.1 in
      elim (Bool-cases (lt j p)) [
        | inl before ↦ rw before (After-insert_bin j p bins before s.0, rest)
        | inr not_before ↦ elim (Bool-cases (lt p j)) [
          | inl after ↦ rw (not_before, after) ((after, After-trans p j bins after s.0), s)
          | inr not_after ↦ rw (not_before, not_after) s
        ]
      ]

  -- A bin that is found is not made anew.
  pub insert_bin_found :
      (p : P) (bins : Bins P T) {xs : List T}
      → find pr p bins ≡ some xs
      → insert_bin pr p bins ≡ bins
  unfolding find insert_bin
  insert_bin_found p [] h = cc
  insert_bin_found p ((j, ys) ∷ bins) h = elim (Bool-cases (lt j p)) [
    | inl before ↦ rw before (ap (◌∷◌ (j, ys)) (insert_bin_found p bins (rw before at h)))
    | inr not_before ↦ elim (Bool-cases (lt p j)) [
      | inl after ↦ absurd (empty (rw (not_before, after) at h))
      | inr not_after ↦ rw (not_before, not_after)
    ]
  ]
    where
      empty : {xs : List T} → none ≡ some xs → ⊥
      empty e = cc
