-- ===== src/KdTree/Lookup.antt =====
-- An insertion changes what the tree holds for its own key, and for no other.
use rosnavigation2copy.Prelude.{
  ℕ, suc, ◌+◌, ◌<◌, ◌≡◌, ◌≢◌, refl, sym, ◌∙◌, ap, true, false, not, Option, none, some, arith,
  Bool-cases, Option-cases, inl, inr, ◌⊎◌, if◌then◌else◌,
}
use rosnavigation2copy.Prelude.Loops.{◌>>=◌}
use rosnavigation2copy.Prelude.Int.{
  ℤ, pos, pos_part, neg_part, ltb_ℤ, eqb_ℤ, ◌+ℤ◌, ◌-ℤ◌, +ℤ_parts, -ℤ_parts, eq_of_parts,
}
use rosnavigation2copy.KdTree.{
  Key, Dim, dim0, dim1, dim2, at, Tree, leaf, branch, Counts, equal, spread, widest, is_below,
  new_leaf, grow, split, find_node, value_of,
}

eqb_ℤ-eq : (a b : ℤ) → eqb_ℤ a b ≡ true → a ≡ b
eqb_ℤ-eq a b h = eq_of_parts a b (ground arith)

eqb_ℤ_refl : (a : ℤ) → eqb_ℤ a a ≡ true
eqb_ℤ_refl a = ground arith

abbrev key : ℤ → ℤ → ℤ → Key
key a b c = record { k0 = a; k1 = b; k2 = c }

pub equal-eq : (a b : Key) → equal a b ≡ true → a ≡ b
unfolding equal
equal-eq a b h =
    let e0 = eqb_ℤ-eq a.k0 b.k0 (ground arith) in
    let e1 = eqb_ℤ-eq a.k1 b.k1 (ground arith) in
    let e2 = eqb_ℤ-eq a.k2 b.k2 (ground arith) in
    ap (λ x. key x a.k1 a.k2) e0 ∙ ap (λ x. key b.k0 x a.k2) e1 ∙ ap (λ x. key b.k0 b.k1 x) e2

pub equal_refl : (a : Key) → equal a a ≡ true
unfolding equal
equal_refl a = rw (eqb_ℤ_refl a.k0, eqb_ℤ_refl a.k1, eqb_ℤ_refl a.k2) refl

widest-spread : (a b : Key) (d : Dim) → widest a b ≡ some d → 0 < spread d a b
unfolding widest
widest-spread a b dim0 h = ground arith
widest-spread a b dim1 h = ground arith
widest-spread a b dim2 h = ground arith

parts_disjoint : (z : ℤ) → (pos_part z ≡ 0) ⊎ (neg_part z ≡ 0)
parts_disjoint z = ground arith

ltb_double :
    (x y : ℤ)
    → 0 < pos_part (x -ℤ y) + neg_part (x -ℤ y)
    → ltb_ℤ (y +ℤ y) (x +ℤ y) ≡ not (ltb_ℤ (x +ℤ x) (x +ℤ y))
ltb_double x y h =
    let p = +ℤ_parts y y in
    let q = +ℤ_parts x y in
    let r = +ℤ_parts x x in
    let d = -ℤ_parts x y in ground (arith, p, q, r, d, parts_disjoint (x -ℤ y))

-- The two keys of a split go to different sides.
pub split_sides :
    (a b : Key) (d : Dim)
    → widest a b ≡ some d
    → is_below b d (at d a +ℤ at d b) ≡ not (is_below a d (at d a +ℤ at d b))
unfolding is_below
split_sides a b d h =
    let far = widest-spread a b d h in ltb_double (at d a) (at d b) (unfold spread in far)

pub equal-both : (q a b : Key) → equal q a ≡ true → equal q b ≡ true → equal a b ≡ true
equal-both q a b e f = rw (sym (equal-eq q a e), sym (equal-eq q b f)) (equal_refl q)

none-ne-some {ℓ} : {A : Type ℓ} {a : A} → none ≢ some a
none-ne-some h = ground arith

module _ {D : Type 0} where
  -- What the tree holds for a key.
  abbrev pub weight : Key → Tree D → Option D
  weight q t = find_node q t >>= value_of

  pub weight-leaf :
      (q k : Key) (v : D) (depth : ℕ) (cluster : ℤ)
      → weight q (leaf k v depth cluster) ≡ (if equal q k then some v else none)
  unfolding find_node
  weight-leaf q k v depth cluster = ground arith

  pub weight-branch :
      (q : Key) (d : Dim) (sum : ℤ) (depth : ℕ) (l r : Tree D)
      → weight q (branch d sum depth l r) ≡ (if is_below q d sum then weight q l else weight q r)
  unfolding find_node
  weight-branch q d sum depth l r = elim (Bool-cases (is_below q d sum)) [
    | inl e ↦ rw e refl
    | inr e ↦ rw e refl
  ]

  new_leaf-eq :
      (n depth : ℕ) (k : Key) (v : D) (c c' : Counts) (t : Tree D)
      → new_leaf n depth k v c ≡ some (t, c')
      → t ≡ leaf k v depth (pos 0)
  unfolding new_leaf
  new_leaf-eq n depth k v c c' t h = ground arith

  -- A key's side of a branch of two leaves.
  weight-pair :
      (q a b : Key) (x y : D) (d : Dim) (sum : ℤ) (n m p : ℕ) (i j : ℤ)
      → is_below a d sum ≡ true
      → is_below b d sum ≡ false
      → weight q (branch d sum n (leaf a x m i) (leaf b y p j))
        ≡ (if equal q a then some x else if equal q b then some y else none)
  weight-pair q a b x y d sum n m p i j below above =
      let at_a = weight-leaf q a x m i in
      let at_b = weight-leaf q b y p j in
      let whole = weight-branch q d sum n (leaf a x m i) (leaf b y p j) in
      elim (Bool-cases (equal q a)) [
        | inl e ↦
            let same : is_below q d sum ≡ true = rw (equal-eq q a e) below in
            whole ∙ (rw (same, e) (rw e at at_a))
        | inr e ↦ elim (Bool-cases (equal q b)) [
          | inl f ↦
              let same : is_below q d sum ≡ false = rw (equal-eq q b f) above in
              whole ∙ (rw (same, e, f) (rw f at at_b))
          | inr f ↦ whole ∙ elim (Bool-cases (is_below q d sum)) [
            | inl g ↦ rw (g, e, f) (rw e at at_a)
            | inr g ↦ rw (g, e, f) (rw f at at_b)
          ]
        ]
      ]

  grow-eq :
      (n : ℕ) (d : Dim) (sum : ℤ) (depth : ℕ) (a : Key) (x : D) (b : Key) (y : D) (c c' : Counts)
      (t : Tree D)
      → grow n d sum depth a x b y c ≡ some (t, c')
      → t ≡ branch d sum depth (leaf a x (suc depth) (pos 0)) (leaf b y (suc depth) (pos 0))
  unfolding grow new_leaf
  grow-eq n d sum depth a x b y c c' t h = ground arith

  -- The new key counts, then that of the leaf that was there.
  pub split-weight :
      (q key : Key) (value : D) (k : Key) (v : D) (n depth : ℕ) (c c' : Counts) (t : Tree D)
      → equal key k ≡ false
      → split n key value k v depth c ≡ some (t, c')
      → weight q t ≡ (if equal q key then some value else if equal q k then some v else none)
  unfolding split
  split-weight q key value k v n depth c c' t other h = elim (Option-cases (widest key k)) [
    | inl e ↦ absurd (none-ne-some (rw e at h))
    | inr (d, e) ↦
        let sum = at d key +ℤ at d k in
        let sides = split_sides key k d e in
        elim (Bool-cases (is_below key d sum)) [
          | inl low ↦
              let t' = grow-eq n d sum depth key value k v c c' t (rw (e, low) at h) in
              rw t' (weight-pair q key k value v d sum depth _ _ _ _ low (rw low at sides))
          | inr high ↦
              let t' = grow-eq n d sum depth k v key value c c' t (rw (e, high) at h) in
              let swapped = equal-both q key k in
              rw t' (
                weight-pair q k key v value d sum depth _ _ _ _ (rw high at sides) high
                ∙ ground (arith, swapped))
        ]
  ]

  -- What an insertion leaves of a key's old value.
  abbrev pub merge : (D → D → D) → D → Option D → D
  merge add value none = value
  merge add value (some v) = add v value
