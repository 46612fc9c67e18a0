-- ===== src/KdTree/Samples.antt =====
-- A tree that is filled with samples sums their values by key.
use rosnavigation2copy.Prelude.{
  ℕ, suc, ◌+◌, ◌*◌, ◌≤◌, ◌≡◌, ◌≢◌, refl, sym, ◌∙◌, ap, true, Option, none, some, arith, Bool-cases,
  Option-cases, inl, inr, some_inj, if◌then◌else◌, List, [], ◌∷◌, length, ltb,
}
use rosnavigation2copy.Prelude.Loops.{◌>>=◌}
use rosnavigation2copy.Prelude.Int.{pos}
use rosnavigation2copy.Platform.{Floats}
use rosnavigation2copy.KdTree.{
  Key, Tree, leaf, branch, Counts, KdTree, equal, find_node, value_of, new_leaf, insert_root,
  insert_key, alloc, get_prob_key, prob_of,
}
use rosnavigation2copy.KdTree.Lookup.{equal-eq, weight, weight-leaf, merge}
use rosnavigation2copy.KdTree.Insert.{insert_node-weight}
use rosnavigation2copy.KdTree.Room.{leaves, insert_node-Grows}

none-ne-some {ℓ} : {A : Type ℓ} {a : A} → none ≢ some a
none-ne-some h = ground arith

module _ {D : Type 0} (fl : Floats D) where
  -- All samples, one after the other.
  unfoldable pub insert_all : List (Key × D) → KdTree D → Option (KdTree D)
  insert_all [] t = some t
  insert_all ((key, value) ∷ samples) t =
      insert_key fl key value t >>= λ (t' : KdTree D). insert_all samples t'

  -- What a list of samples adds up to for a key, on top of an old value.
  abbrev pub total : Key → List (Key × D) → Option D → Option D
  total q [] old = old
  total q ((key, value) ∷ samples) old =
      total q samples (if equal q key then some (merge fl.add value old) else old)

  abbrev pub held : Key → Option (Tree D) → Option D
  held q none = none
  held q (some t) = weight q t

  -- The tree has counted its leaves and nodes.
  pub record Counted (t : KdTree D) : Type 0 where
    pub empty : t.root ≡ none → t.counts.node_count ≡ 0
    pub full : (r : Tree D) → t.root ≡ some r → t.counts.node_count + 1 ≡ 2 * leaves r

  pub record Adds (key : Key) (value : D) (t : KdTree D) (r : Option (KdTree D)) : Type 0 where
    pub tree : KdTree D
    pub root : Tree D
    pub returns : r ≡ some tree
    pub has_root : tree.root ≡ some root
    pub counted : Counted tree
    pub more : tree.counts.node_count ≤ t.counts.node_count + 2
    pub room : tree.node_max_count ≡ t.node_max_count
    pub holds :
        (q : Key)
        → weight q root
          ≡ (if equal q key then some (merge fl.add value (held key t.root)) else held q t.root)

  Counted-of_root :
      (t : KdTree D) (r : Tree D)
      → t.counts.node_count + 1 ≡ 2 * leaves r
      → Counted (record t { root = some r })
  Counted-of_root t r e = record {
    empty = λ h. absurd (none-ne-some (sym h));
    full = λ r' h. e ∙ ap (λ r. 2 * leaves r) (some_inj h);
  }

  -- An insertion into a tree by its parts, so that the root is a variable.
  insert_root-Adds :
      (key : Key) (value : D) (t : KdTree D) (root : Option (Tree D))
      → Counted (record t { root = root })
      → t.counts.node_count + 2 ≤ t.node_max_count
      → Adds key value
          (record t { root = root })
          (insert_key fl key value (record t { root = root }))
  unfolding insert_key insert_root new_leaf
  insert_root-Adds key value t none v h =
      let start : t.counts.node_count ≡ 0 = v.empty refl in
      let below : ltb t.counts.node_count t.node_max_count ≡ true = ground arith in
      let counts : Counts = record {
        node_count = suc t.counts.node_count;
        leaf_count = suc t.counts.leaf_count;
      } in
      let r = leaf key value 0 (pos 0) in
      record {
        tree = record t { root = some r; counts = counts };
        root = r;
        returns = rw below refl;
        has_root = refl;
        counted = Counted-of_root (record t { counts = counts }) r (omega (arith, start));
        more = omega arith;
        room = refl;
        holds = λ q. weight-leaf q key value 0 (pos 0);
      }
  insert_root-Adds key value t (some r) v h =
      let g = insert_node-Grows fl t.node_max_count key value r t.counts h in
      record {
        tree = record t { root = some g.tree; counts = g.counts };
        root = g.tree;
        returns = rw g.returns refl;
        has_root = refl;
        counted =
            Counted-of_root (record t { counts = g.counts }) g.tree
              (omega (arith, v.full r refl, g.node_count));
        more = omega (arith, v.full r refl, g.few, g.node_count);
        room = refl;
        holds = λ q.
            insert_node-weight fl q key value t.node_max_count r g.tree t.counts g.counts g.returns;
      }

  own_key :
      (q key : Key) (value : D) (root : Option (Tree D))
      → (if equal q key then some (merge fl.add value (held key root)) else held q root)
        ≡ (if equal q key then some (merge fl.add value (held q root)) else held q root)
  own_key q key value root = elim (Bool-cases (equal q key)) [
    | inl e ↦ rw e (ap (λ k. some (merge fl.add value (held k root))) (sym (equal-eq q key e)))
    | inr e ↦ rw e refl
  ]

  record Fills (samples : List (Key × D)) (t : KdTree D) : Type 0 where
    tree : KdTree D
    returns : insert_all samples t ≡ some tree
    holds : (q : Key) → held q tree.root ≡ total q samples (held q t.root)
    rooted : tree.root ≡ none → (samples ≡ []) × (t.root ≡ none)

  insert_all-Fills :
      (samples : List (Key × D)) (t : KdTree D)
      → Counted t
      → t.counts.node_count + 2 * length samples ≤ t.node_max_count
      → Fills samples t
  unfolding insert_all
  insert_all-Fills [] t v h = record {
    tree = t;
    returns = refl;
    holds = λ q. refl;
    rooted = λ e. (refl, e);
  }
  insert_all-Fills ((key, value) ∷ samples) t v h =
      let a = insert_root-Adds key value t t.root v (omega arith) in
      let f = insert_all-Fills samples a.tree a.counted (omega (arith, a.more, a.room)) in
      record {
        tree = f.tree;
        returns = rw a.returns f.returns;
        holds = λ q.
            f.holds q
            ∙ ap (total q samples)
                (ap (held q) a.has_root ∙ a.holds q ∙ own_key q key value t.root);
        rooted = λ e. absurd (none-ne-some (sym (f.rooted e).1 ∙ a.has_root));
      }

  abbrev pub or_zero : Option D → D
  or_zero none = fl.of_nat 0
  or_zero (some v) = v

  prob_of-or_zero : (t : Option (Tree D)) → prob_of fl t ≡ or_zero (t >>= value_of)
  unfolding prob_of
  prob_of-or_zero none = refl
  prob_of-or_zero (some (leaf k v depth cluster)) = refl
  prob_of-or_zero (some (branch d sum depth l r)) = refl

  alloc-Counted : (m_pi : D) (n : ℕ) → Counted (alloc fl m_pi n)
  unfolding alloc
  alloc-Counted m_pi n = record { empty = λ h. refl; full = λ r h. absurd (none-ne-some h) }

  -- A tree allocated for `n` samples, as the particle filter does, takes any one to `n` samples; no
  -- assertion fails, and the weight of each key is then the sum of the values of its samples in
  -- their order, or 0 if it has none.
  pub get_prob_key-insert_all :
      (m_pi : D) (n : ℕ) (key : Key) (value : D) (samples : List (Key × D))
      → length samples + 1 ≤ n
      → (t : KdTree D) × (insert_all ((key, value) ∷ samples) (alloc fl m_pi (3 * n)) ≡ some t)
        × ((q : Key) → get_prob_key fl q t ≡ some (or_zero (total q ((key, value) ∷ samples) none)))
  unfolding get_prob_key
  get_prob_key-insert_all m_pi n key value samples h =
      let t = alloc fl m_pi (3 * n) in
      let all : List (Key × D) = (key, value) ∷ samples in
      let f = insert_all-Fills all t (alloc-Counted m_pi (3 * n)) (unfold alloc in omega arith) in
      let old : t.root ≡ none = unfold alloc in refl in
      let new = λ (q : Key). f.holds q ∙ ap (λ r. total q all (held q r)) old in
      elim (Option-cases f.tree.root) [
        | inl e ↦ cc (f.rooted e).0
        | inr (r, e) ↦ (
          f.tree,
          f.returns,
          λ q. rw e (
              ap some (prob_of-or_zero (find_node q r) ∙ ap or_zero (sym (ap (held q) e) ∙ new q))),
        )
      ]
