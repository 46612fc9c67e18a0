-- ===== src/KdTree/Insert.antt =====
-- An insertion adds its value to its own key, and leaves the other keys alone.
use rosnavigation2copy.Prelude.{
  ℕ, ◌≡◌, refl, sym, ◌∙◌, ap, true, some, arith, Bool-cases, inl, inr, some_inj, if◌then◌else◌,
}
use rosnavigation2copy.Prelude.Loops.{>>=-eq-some}
use rosnavigation2copy.Prelude.Int.{ℤ}
use rosnavigation2copy.Platform.{Floats}
use rosnavigation2copy.KdTree.{Key, Tree, leaf, branch, Counts, equal, is_below, insert_node}
use rosnavigation2copy.KdTree.Lookup.{
  equal-eq, weight, weight-leaf, weight-branch, split-weight, merge,
}

module _ {D : Type 0} (fl : Floats D) where
  insert_leaf-weight :
      (q key : Key) (value : D) (k : Key) (v : D) (n depth : ℕ) (cluster : ℤ) (c c' : Counts)
      (t : Tree D)
      → insert_node fl n key value (leaf k v depth cluster) c ≡ some (t, c')
      → weight q t ≡ (
          if equal q key
          then some (merge fl.add value (weight key (leaf k v depth cluster)))
          else weight q (leaf k v depth cluster))
  unfolding insert_node
  insert_leaf-weight q key value k v n depth cluster c c' t h =
      let here = weight-leaf key k v depth cluster in
      let there = weight-leaf q k v depth cluster in
      elim (Bool-cases (equal key k)) [
        | inl e ↦
            let t' : leaf k (fl.add v value) depth cluster ≡ t =
              ap (λ (p : Tree D × Counts). p.0) (some_inj (rw e at h)) in
            let same : equal q key ≡ equal q k = ap (equal q) (equal-eq key k e) in
            rw (sym t', here, there, e, same)
              (weight-leaf q k (fl.add v value) depth cluster ∙ ground arith)
        | inr e ↦
            let new = split-weight q key value k v n depth c c' t e (rw e at h) in
            rw (here, there, e, new) refl
      ]

  -- An insertion adds the value to its key, and leaves all others.
  pub insert_node-weight :
      (q key : Key) (value : D) (n : ℕ) (t t' : Tree D) (c c' : Counts)
      → insert_node fl n key value t c ≡ some (t', c')
      → weight q t' ≡ (if equal q key then some (merge fl.add value (weight key t)) else weight q t)
  unfolding insert_node
  insert_node-weight q key value n (leaf k v depth cluster) t' c c' h =
      insert_leaf-weight q key value k v n depth cluster c c' t' h
  insert_node-weight q key value n (branch d sum depth l r) t' c c' h =
      let ih_l = insert_node-weight q key value n l in
      let ih_r = insert_node-weight q key value n r in
      let side = λ (e : equal q key ≡ true). ap (λ k. is_below k d sum) (equal-eq q key e) in
      let at_key = weight-branch key d sum depth l r in
      let at_q = weight-branch q d sum depth l r in
      elim (Bool-cases (is_below key d sum)) [
        | inl low ↦
            let ((l', c''), e, f) = >>=-eq-some _ _ (rw low at h) in
            let t'_is = ap (λ (p : Tree D × Counts). p.0) (some_inj f) in
            let new = weight-branch q d sum depth l' r in
            let ih = ih_l l' c c'' e in
            rw (sym t'_is, at_key, at_q, new, low, ih) (ground (arith, side))
        | inr high ↦
            let ((r', c''), e, f) = >>=-eq-some _ _ (rw high at h) in
            let t'_is = ap (λ (p : Tree D × Counts). p.0) (some_inj f) in
            let new = weight-branch q d sum depth l r' in
            let ih = ih_r r' c c'' e in
            rw (sym t'_is, at_key, at_q, new, high, ih) (ground (arith, side))
      ]
