-- ===== src/KdTree/Room.antt =====
-- A tree with room for two more nodes takes one more value, and counts its nodes and leaves.
use rosnavigation2copy.Prelude.{
  ℕ, suc, ◌+◌, ◌-◌, ◌*◌, ◌≤◌, ◌≡◌, refl, true, false, Option, none, some, arith, Bool-cases,
  Option-cases, inl, inr,
}
use rosnavigation2copy.Prelude.Int.{ℤ, pos, pos_part, neg_part, eqb_ℤ, ◌+ℤ◌, ◌-ℤ◌, -ℤ_parts}
use rosnavigation2copy.Platform.{Floats}
use rosnavigation2copy.KdTree.{
  Key, Dim, Tree, leaf, branch, Counts, equal, spread, widest, is_below, new_leaf, grow, split,
  insert_node, at, dim0, dim1, dim2,
}

widest-none :
    (a b : Key)
    → widest a b ≡ none
    → (spread dim0 a b ≡ 0) × (spread dim1 a b ≡ 0) × (spread dim2 a b ≡ 0)
unfolding widest
widest-none a b h = ground arith

eqb_ℤ-of_spread : (x y : ℤ) → pos_part (x -ℤ y) + neg_part (x -ℤ y) ≡ 0 → eqb_ℤ x y ≡ true
eqb_ℤ-of_spread x y h = let d = -ℤ_parts x y in ground arith

equal-of_widest : (a b : Key) → widest a b ≡ none → equal a b ≡ true
unfolding spread equal
equal-of_widest a b h =
    let (p0, p1, p2) = widest-none a b h in
    rw (eqb_ℤ-of_spread a.k0 b.k0 p0, eqb_ℤ-of_spread a.k1 b.k1 p1, eqb_ℤ-of_spread a.k2 b.k2 p2)
      refl

module _ {D : Type 0} where
  abbrev pub leaves : Tree D → ℕ
  leaves (leaf k v depth cluster) = 1
  leaves (branch d sum depth l r) = leaves l + leaves r

  -- The insertion returns, with at most one more leaf, and both counts follow the leaves.
  pub record Grows (t : Tree D) (c : Counts) (r : Option (Tree D × Counts)) : Type 0 where
    pub tree : Tree D
    pub counts : Counts
    pub returns : r ≡ some (tree, counts)
    pub leaf_count : counts.leaf_count + leaves t ≡ c.leaf_count + leaves tree
    pub node_count : counts.node_count + 2 * leaves t ≡ c.node_count + 2 * leaves tree
    pub few : leaves tree ≤ leaves t + 1

  module _ (max_count : ℕ) (key : Key) (value : D) where
    grow-Grows :
        (d : Dim) (sum : ℤ) (depth : ℕ) (a : Key) (x : D) (b : Key) (y : D) (t : Tree D)
        (c : Counts)
        → c.node_count + 2 ≤ max_count
        → leaves t ≡ 1
        → Grows t c (grow max_count d sum depth a x b y c)
    unfolding grow new_leaf
    grow-Grows d sum depth a x b y t c room one = record {
      tree = branch d sum depth (leaf a x (suc depth) (pos 0)) (leaf b y (suc depth) (pos 0));
      counts = record {
        node_count = suc (suc c.node_count);
        leaf_count = suc (suc c.leaf_count) - 1;
      };
      returns = ground arith;
      leaf_count = omega arith;
      node_count = omega arith;
      few = omega arith;
    }

    split-Grows :
        (k : Key) (v : D) (depth : ℕ) (cluster : ℤ) (c : Counts)
        → c.node_count + 2 ≤ max_count
        → equal key k ≡ false
        → Grows (leaf k v depth cluster) c (split max_count key value k v depth c)
    unfolding split
    split-Grows k v depth cluster c room other = elim (Option-cases (widest key k)) [
      | inl e ↦ let same = equal-of_widest key k e in absurd (ground arith)
      | inr (d, e) ↦ elim (Bool-cases (is_below key d (at d key +ℤ at d k))) [
        | inl low ↦ rw (e, low) (grow-Grows _ _ _ _ _ _ _ (leaf k v depth cluster) c room refl)
        | inr high ↦ rw (e, high) (grow-Grows _ _ _ _ _ _ _ (leaf k v depth cluster) c room refl)
      ]
    ]

module _ {D : Type 0} (fl : Floats D) (max_count : ℕ) (key : Key) (value : D) where
  pub insert_node-Grows :
      (t : Tree D) (c : Counts)
      → c.node_count + 2 ≤ max_count
      → Grows t c (insert_node fl max_count key value t c)
  unfolding insert_node
  insert_node-Grows (leaf k v depth cluster) c room = elim (Bool-cases (equal key k)) [
    | inl e ↦ record {
      tree = leaf k (fl.add v value) depth cluster;
      counts = c;
      returns = rw e refl;
      leaf_count = refl;
      node_count = refl;
      few = omega arith;
    }
    | inr e ↦ rw e (split-Grows max_count key value k v depth cluster c room e)
  ]
  insert_node-Grows (branch d sum depth l r) c room =
      let gl = insert_node-Grows l c room in
      let gr = insert_node-Grows r c room in
      elim (Bool-cases (is_below key d sum)) [
        | inl low ↦ record {
          tree = branch d sum depth gl.tree r;
          counts = gl.counts;
          returns = rw (low, gl.returns) refl;
          leaf_count = omega (arith, gl.leaf_count);
          node_count = omega (arith, gl.node_count);
          few = omega (arith, gl.few);
        }
        | inr high ↦ record {
          tree = branch d sum depth l gr.tree;
          counts = gr.counts;
          returns = rw (high, gr.returns) refl;
          leaf_count = omega (arith, gr.leaf_count);
          node_count = omega (arith, gr.node_count);
          few = omega (arith, gr.few);
        }
      ]
