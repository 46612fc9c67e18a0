-- ===== src/Queue/Refine.antt =====
-- The queue of bins implements a list of entries in order of priority, in which an insertion goes
-- before the entries of equal priority.
use rosnavigation2copy.Prelude.{
  ℕ, suc, ◌+◌, ◌<◌, ◌≡◌, ◌∙◌, sym, ap, refl, Bool, true, ◌||◌, none, some, List, [], ◌∷◌, ◌↔◌,
}
use rosnavigation2copy.Prelude.{
  arith, Bool-cases, Option-cases, inl, inr, length, sub_u32, u32_mod, some_inj, ltb, ◌==◌,
}
use mathlib.Core.Path.{subst}
use rosnavigation2copy.Queue.{
  Priority, Bins, Queue, value, out_of_range, find, insert_bin, change_bin, drop_back,
  find_full_from,
}
use rosnavigation2copy.Queue.{locate, enqueue, front, pop, pop_back, pop_at, reset, new, is_empty}
use rosnavigation2copy.Queue.Entries.{
  entries, head_key, tail, IsSorted, insert, entries-push, IsSorted-change_bin, IsSorted-insert_bin,
  insert_bin_found,
}
use rosnavigation2copy.Queue.Search.{
  pops, HasBin, HasBin-change_bin, HasBin-insert_bin, head_key-insert,
}

module _ {P T : Type 0} (pr : Priority P) where
  open pr use {lt}

  abbrev pub view : Queue P T → List (P × T)
  view q = entries q.item_bins

  -- The bins are in order, the count is that of the entries, the iterator is at the front entry, and
  -- the bin of the last insertion is there.
  pub record IsValid (q : Queue P T) : Type 0 where
    pub sorted : IsSorted pr q.item_bins
    pub count : q.item_count ≡ length (entries q.item_bins)
    pub fits : length (entries q.item_bins) < u32_mod
    pub iter : q.iter ≡ head_key (entries q.item_bins)
    pub last : (p : P) → q.last_insert_iter ≡ some p → HasBin pr p q.item_bins

  pub length-insert :
      (p : P) (x : T) (es : List (P × T)) → length (insert pr p x es) ≡ suc (length es)
  unfolding insert
  length-insert p x [] = refl
  length-insert p x ((k, y) ∷ es) = elim (Bool-cases (lt k p)) [
    | inl a ↦ rw a (ap suc (length-insert p x es))
    | inr a ↦ rw a
  ]

  -- Whether or not the search is skipped, the located bins are those with the bin of `p` made.
  locate-eq : (p : P) (q : Queue P T) → IsValid q → locate pr p q ≡ insert_bin pr p q.item_bins
  unfolding locate
  locate-eq p q v = elim (Option-cases q.last_insert_iter) [
    | inl unset ↦ rw unset searched
    | inr (k, at_k) ↦ elim (Bool-cases (pr.eqb k p)) [
      | inl same ↦
          let (xs, h) = subst (λ k. HasBin pr k q.item_bins) (pr.eqb_eq k p same) (v.last k at_k) in
          rw (at_k, same) (sym (insert_bin_found pr p q.item_bins h))
      | inr other ↦ rw (at_k, other) searched
    ]
  ]
    where
      searched :
          (let bins : Bins P T = elim (find pr p q.item_bins) [
            | none ↦ insert_bin pr p q.item_bins
            | some _ ↦ q.item_bins
          ] in
            bins)
          ≡ insert_bin pr p q.item_bins
      searched = elim (Option-cases (find pr p q.item_bins)) [
        | inl e ↦ rw e
        | inr (xs, e) ↦ rw e (sym (insert_bin_found pr p q.item_bins e))
      ]

  -- On a valid queue with room for one more item, `enqueue` keeps it valid and inserts the item
  -- before the entries of priority not less than its own.
  pub enqueue-insert :
      (p : P) (x : T) (q : Queue P T)
      → IsValid q
      → length (view q) + 1 < u32_mod
      → IsValid (enqueue pr p x q) × (view (enqueue pr p x q) ≡ insert pr p x (view q))
  unfolding enqueue
  enqueue-insert p x q v room =
      let located = locate-eq p q v in
      let bins = change_bin pr (◌∷◌ x) p (insert_bin pr p q.item_bins) in
      let pushed : entries bins ≡ insert pr p x (view q) =
        entries-push pr p x q.item_bins v.sorted in
      let size : length (entries bins) ≡ suc (length (view q)) =
        ap length pushed ∙ length-insert p x (view q) in
      rw located (
        record {
          sorted =
              IsSorted-change_bin pr (◌∷◌ x) p _ (IsSorted-insert_bin pr p q.item_bins v.sorted);
          count = omega (arith, v.count);
          fits = omega arith;
          iter = rw v.iter (sym (ap head_key pushed ∙ head_key-insert pr p x (view q)));
          last = λ k e.
              subst (λ k. HasBin pr k bins) (some_inj e)
                (HasBin-change_bin pr (◌∷◌ x) p p _ (HasBin-insert_bin pr p q.item_bins));
        },
        pushed,
      )

  iter-of_view :
      (q : Queue P T) {es : List (P × T)} → IsValid q → view q ≡ es → q.iter ≡ head_key es
  iter-of_view q v e = v.iter ∙ ap head_key e

  front-of_view :
      (q : Queue P T) (es : List (P × T))
      → IsValid q
      → view q ≡ es
      → front pr q ≡ elim es [ [] ↦ out_of_range | (k, x) ∷ es ↦ value x ]
  unfolding front head_key
  front-of_view q [] v e = rw (iter-of_view q v e)
  front-of_view q ((k, x) ∷ es) v e =
      let r = pops pr k q.item_bins v.sorted (ap head_key e) in
      let same : r.x ≡ x = head_item (sym r.taken ∙ e) in
      rw (iter-of_view q v e, r.found) (ap value same)
    where
      head_item : {x y : T} {xs ys : List (P × T)} → (k, x) ∷ xs ≡ (k, y) ∷ ys → x ≡ y
      head_item e = cc

  -- On a valid queue `front` gives the item of the first entry, and throws exactly if there is none.
  pub front-head :
      (q : Queue P T)
      → IsValid q
      → front pr q ≡ elim (view q) [ [] ↦ out_of_range | (k, x) ∷ es ↦ value x ]
  front-head q v = front-of_view q (view q) v refl

  pop_at_end : (q : Queue P T) → q.iter ≡ none → pop pr q ≡ q
  unfolding pop pop_at
  pop_at_end q h = ap (pop_at pr q) h

  pop-of_view :
      (q : Queue P T) (es : List (P × T))
      → IsValid q
      → view q ≡ es
      → IsValid (pop pr q) × (view (pop pr q) ≡ tail es)
  unfolding pop pop_at pop_back head_key
  pop-of_view q [] v e =
      subst (λ q'. IsValid q' × (view q' ≡ [])) (sym (pop_at_end q (iter-of_view q v e))) (v, e)
  pop-of_view q ((k, x) ∷ es) v e =
      let r = pops pr k q.item_bins v.sorted (ap head_key e) in
      let bins = change_bin pr drop_back k q.item_bins in
      let size : length (view q) ≡ suc (length (entries bins)) = ap length r.taken in
      let q' : Queue P T = record q {
        item_bins = bins;
        item_count = sub_u32 q.item_count 1;
        iter = find_full_from pr k bins;
      } in
      let popped : pop pr q ≡ q' =
        ap (pop_at pr q) (iter-of_view q v e)
        ∙ ap
            (λ o.
              let q1 = pop_back pr q k o in record q1 { iter = find_full_from pr k q1.item_bins })
            r.found in
      subst (λ q'. IsValid q' × (view q' ≡ es)) (sym popped)
        (
          record {
            sorted = IsSorted-change_bin pr drop_back k q.item_bins v.sorted;
            count = omega (arith, v.count, v.fits);
            fits = omega (arith, v.fits);
            iter = r.next;
            last = λ p at_p. HasBin-change_bin pr drop_back p k q.item_bins (v.last p at_p);
          },
          ap tail (sym r.taken ∙ e),
        )

  -- On a valid queue `pop` keeps it valid and removes the first entry, if there is one.
  pub pop-tail :
      (q : Queue P T) → IsValid q → IsValid (pop pr q) × (view (pop pr q) ≡ tail (view q))
  pop-tail q v = pop-of_view q (view q) v refl

  no_entries : (n : ℕ) (es : List (P × T)) → n ≡ length es → ((n == 0) ≡ true) ↔ (es ≡ [])
  no_entries n [] e = (λ _. refl, λ _. ground arith)
  no_entries n (x ∷ es) e = (λ h. absurd (ground arith), λ h. absurd (cc))

  -- A valid queue says that it is empty exactly if it has no entry.
  pub is_empty_iff : (q : Queue P T) → IsValid q → (is_empty pr q ≡ true) ↔ (view q ≡ [])
  unfolding is_empty
  is_empty_iff q v = no_entries q.item_count (view q) v.count

  -- `reset` of a valid queue is valid and empty, also where it keeps the bins.
  pub reset-empty : (q : Queue P T) → IsValid q → IsValid (reset pr q) × (view (reset pr q) ≡ [])
  unfolding reset
  reset-empty q v = elim (Bool-cases (q.reset_bins || ltb 0 q.item_count)) [
    | inl clears ↦ rw clears (cleared, unfold entries in refl)
    | inr keeps ↦
        let none_left : view q ≡ [] = (no_entries q.item_count (view q) v.count).0 (ground arith) in
        rw keeps (
          record {
            sorted = v.sorted;
            count = v.count;
            fits = v.fits;
            iter = unfold head_key in sym (ap head_key none_left);
            last = λ p e. absurd (unset e);
          },
          none_left,
        )
  ]
    where
      unset : {p : P} → none ≡ some p → ⊥
      unset e = cc

      cleared : IsValid (record {
        reset_bins = q.reset_bins;
        item_bins = [];
        item_count = 0;
        iter = none;
        last_insert_iter = none;
      })
      cleared =
          unfold entries head_key in
          (record {
            sorted = tt;
            count = refl;
            fits = omega arith;
            iter = refl;
            last = λ p e. absurd (unset e);
          })

  -- A new queue is valid and empty.
  pub new-IsValid :
      (reset_bins : Bool) → IsValid (new pr reset_bins) × (view (new pr reset_bins) ≡ [])
  unfolding new entries head_key
  new-IsValid reset_bins = reset-empty _ (record {
    sorted = tt;
    count = refl;
    fits = omega arith;
    iter = refl;
    last = λ p e. absurd (cc);
  })
