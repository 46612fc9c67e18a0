-- ===== src/KdTree.antt =====
-- nav2_util/src/pf/pf_kdtree.c: the tree of the particle filter, which sums the weights of the
-- samples by the cell of their pose. The nodes form a tree without sharing, so a pointer is the node
-- that it points to, and the array of nodes is the count of those taken from it. `none` is a failed
-- assertion or a null pointer that is read. A pivot value is half a sum of two keys: the sum is kept.
pub mod Lookup
pub mod Insert
pub mod Room
pub mod Samples
mod Tests
use rosnavigation2copy.Prelude.{
  ℕ, zero, suc, ◌+◌, ◌*◌, Bool, true, false, not, ◌&&◌, Option, none, some, List, [], ◌∷◌, ltb,
  ◌==◌, ◌-◌, if◌then◌else◌,
}
use rosnavigation2copy.Prelude.Loops.{◌>>=◌}
use rosnavigation2copy.Prelude.Int.{ℤ, pos, negsuc, pos_part, neg_part, ltb_ℤ, eqb_ℤ, ◌+ℤ◌, ◌-ℤ◌}
use rosnavigation2copy.Platform.{Floats}

-- int key[3], and an index into it.
pub record Key : Type 0 where
  pub k0 : ℤ
  pub k1 : ℤ
  pub k2 : ℤ

pub data Dim : Type 0 where
  dim0 dim1 dim2 : Dim

abbrev pub at : Dim → Key → ℤ
at dim0 k = k.k0
at dim1 k = k.k1
at dim2 k = k.k2

-- A leaf has its key, value, depth and cluster, and a branch its pivot, its depth and children.
pub data Tree (D : Type 0) : Type 0 where
  leaf : Key → D → ℕ → ℤ → Tree D
  branch : Dim → ℤ → ℕ → Tree D → Tree D → Tree D

pub record Counts : Type 0 where
  pub node_count : ℕ
  pub leaf_count : ℕ

pub record KdTree (D : Type 0) : Type 0 where
  pub size0 : D
  pub size1 : D
  pub size2 : D
  pub root : Option (Tree D)
  pub counts : Counts
  pub node_max_count : ℕ

unfoldable pub equal : Key → Key → Bool
equal a b = eqb_ℤ a.k0 b.k0 && eqb_ℤ a.k1 b.k1 && eqb_ℤ a.k2 b.k2

-- How far two keys are apart in one dimension.
unfoldable pub spread : Dim → Key → Key → ℕ
spread d a b = let z = at d a -ℤ at d b in pos_part z + neg_part z

-- The first dimension of the greatest spread, if any spread is above 0.
unfoldable pub widest : Key → Key → Option Dim
widest a b =
    let s0 = spread dim0 a b in
    let s1 = spread dim1 a b in
    let s2 = spread dim2 a b in
    if ltb s0 s1
    then (if ltb s1 s2 then some dim2 else some dim1)
    else if ltb s0 s2
    then some dim2
    else if ltb 0 s0
    then some dim0
    else none

-- key[pivot_dim] < pivot_value
unfoldable pub is_below : Key → Dim → ℤ → Bool
is_below key d sum = ltb_ℤ (at d key +ℤ at d key) sum

abbrev pub fewer_leaves : Counts → Counts
fewer_leaves c = record c { leaf_count = c.leaf_count - 1 }

module _ {D : Type 0} where
  -- insert_node at a null pointer.
  unfoldable pub new_leaf : ℕ → ℕ → Key → D → Counts → Option (Tree D × Counts)
  new_leaf max_count depth key value c =
      if ltb c.node_count max_count
      then some (
        leaf key value depth (pos 0),
        record { node_count = suc c.node_count; leaf_count = suc c.leaf_count },
      )
      else none

  -- A branch with two new leaves, in place of one.
  unfoldable pub grow : ℕ → Dim → ℤ → ℕ → Key → D → Key → D → Counts → Option (Tree D × Counts)
  grow max_count d sum depth kl vl kr vr c = do
    (l, c1) ← new_leaf max_count (suc depth) kl vl c
    (r, c2) ← new_leaf max_count (suc depth) kr vr c1
    some (branch d sum depth l r, fewer_leaves c2)

  -- The leaf of `k`, which is not `key`, becomes a branch.
  unfoldable pub split : ℕ → Key → D → Key → D → ℕ → Counts → Option (Tree D × Counts)
  split max_count key value k v depth c = do
    d ← widest key k
    let sum = at d key +ℤ at d k
    if is_below key d sum
        then grow max_count d sum depth key value k v c
        else grow max_count d sum depth k v key value c

  unfoldable pub find_node : Key → Tree D → Option (Tree D)
  find_node key (leaf k v depth cluster) =
      if equal key k then some (leaf k v depth cluster) else none
  find_node key (branch d sum depth l r) =
      let below = find_node key l in
      let above = find_node key r in if is_below key d sum then below else above

  abbrev pub value_of : Tree D → Option D
  value_of (leaf k v depth cluster) = some v
  value_of (branch d sum depth l r) = none

module _ {D : Type 0} (fl : Floats D) where
  -- insert_node at a node.
  unfoldable pub insert_node : ℕ → Key → D → Tree D → Counts → Option (Tree D × Counts)
  insert_node max_count key value (leaf k v depth cluster) c =
      if equal key k
      then some (leaf k (fl.add v value) depth cluster, c)
      else split max_count key value k v depth c
  insert_node max_count key value (branch d sum depth l r) c =
      let below = insert_node max_count key value l c in
      let above = insert_node max_count key value r c in
      if is_below key d sum
      then (below >>= λ (t : Tree D × Counts). some (branch d sum depth t.0 r, t.1))
      else (above >>= λ (t : Tree D × Counts). some (branch d sum depth l t.0, t.1))

  -- insert_node at the root of the tree.
  unfoldable pub insert_root : ℕ → Key → D → Option (Tree D) → Counts → Option (Tree D × Counts)
  insert_root max_count key value none c = new_leaf max_count 0 key value c
  insert_root max_count key value (some t) c = insert_node max_count key value t c

  -- `m_pi` is M_PI.
  unfoldable pub alloc : D → ℕ → KdTree D
  alloc m_pi max_size = record {
    size0 = fl.half;
    size1 = fl.half;
    size2 = fl.div (fl.mul (fl.of_nat 10) m_pi) (fl.of_nat 180);
    root = none;
    counts = record { node_count = 0; leaf_count = 0 };
    node_max_count = max_size;
  }

  unfoldable pub clear : KdTree D → KdTree D
  clear t = record t { root = none; counts = record { node_count = 0; leaf_count = 0 } }

  -- The cell of a pose.
  unfoldable pub key_of : KdTree D → D → D → D → Key
  key_of t x y theta = record {
    k0 = fl.to_int (fl.floor (fl.div x t.size0));
    k1 = fl.to_int (fl.floor (fl.div y t.size1));
    k2 = fl.to_int (fl.floor (fl.div theta t.size2));
  }

  -- pf_kdtree_insert from the key on, and whole.
  unfoldable pub insert_key : Key → D → KdTree D → Option (KdTree D)
  insert_key key value t = do
    (root, counts) ← insert_root t.node_max_count key value t.root t.counts
    some (record t { root = some root; counts = counts })

  unfoldable pub insert : D → D → D → D → KdTree D → Option (KdTree D)
  insert x y theta value t = insert_key (key_of t x y theta) value t

  -- The value at a node that was found, or 0.0.
  unfoldable pub prob_of : Option (Tree D) → D
  prob_of none = fl.of_nat 0
  prob_of (some (leaf k v depth cluster)) = v
  prob_of (some (branch d sum depth l r)) = fl.of_nat 0

  unfoldable pub get_prob_key : Key → KdTree D → Option D
  get_prob_key key t = do root ← t.root; some (prob_of (find_node key root))

  unfoldable pub get_prob : D → D → D → KdTree D → Option D
  get_prob x y theta t = get_prob_key (key_of t x y theta) t

  unfoldable pub cluster_of : Option (Tree D) → ℤ
  cluster_of none = negsuc 0
  cluster_of (some (leaf k v depth cluster)) = cluster
  cluster_of (some (branch d sum depth l r)) = pos 0

  unfoldable pub get_cluster : D → D → D → KdTree D → Option ℤ
  get_cluster x y theta t = do
    root ← t.root
    some (cluster_of (find_node (key_of t x y theta) root))
