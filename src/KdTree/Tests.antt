-- ===== src/KdTree/Tests.antt =====
-- Samples with keys and whole weights, over integers in place of doubles.
use rosnavigation2copy.Prelude.{◌≡◌, refl, none, some, List, [], ◌∷◌, arith}
use rosnavigation2copy.Prelude.Int.{ℤ, pos, negsuc, ◌+ℤ◌, ◌-ℤ◌}
use rosnavigation2copy.Prelude.Loops.{◌>>=◌}
use rosnavigation2copy.Platform.{integers}
use rosnavigation2copy.KdTree.{
  Key, KdTree, alloc, equal, spread, widest, is_below, new_leaf, grow, split, find_node,
  insert_node, insert_root, insert_key, get_prob_key, prob_of, clear,
}
use rosnavigation2copy.KdTree.Samples.{insert_all, total, or_zero, get_prob_key-insert_all}

abbrev cell : ℤ → ℤ → ℤ → Key
cell a b c = record { k0 = a; k1 = b; k2 = c }

abbrev here : Key
here = cell (pos 0) (pos 0) (pos 0)

abbrev there : Key
there = cell (pos 2) (negsuc 4) (pos 1)

abbrev later : List (Key × ℤ)
later = (there, pos 5) ∷ (cell (pos 2) (pos 0) (pos 0), pos 1) ∷ (here, pos 7) ∷ []

weighed :
    (insert_all integers ((here, pos 3) ∷ later) (alloc integers (pos 3) 12) >>= λ (t : KdTree ℤ).
    get_prob_key integers here t)
    ≡ some (pos 10)
unfolding insert_all alloc equal spread widest is_below new_leaf grow split find_node insert_node
    insert_root insert_key get_prob_key prob_of ◌+ℤ◌ ◌-ℤ◌
weighed = refl

-- A tree without samples has no root, and the code reads through the null pointer.
unrooted : get_prob_key integers here (clear integers (alloc integers (pos 3) 12)) ≡ none
unfolding get_prob_key clear
unrooted = refl

get_prob_key-insert_all_example :
    (t : KdTree ℤ) × (insert_all integers ((here, pos 3) ∷ later) (alloc integers (pos 3) 12)
      ≡ some t)
    × ((q : Key)
        → get_prob_key integers q t
          ≡ some (or_zero integers (total integers q ((here, pos 3) ∷ later) none)))
get_prob_key-insert_all_example =
    get_prob_key-insert_all integers (pos 3) 4 here (pos 3) later (omega arith)
