-- ===== src/SearchTree/Deleting.antt =====
-- tree.h: `Delete`. The node that is found is overwritten in place, so the nodes above it stay what they
-- are; only a leaf is unlinked from its parent, and a leaf that is the root is deleted under the
-- caller's pointer.
use xteam.Prelude.{Option, none, some, if◌then◌else◌, ◌>>=◌}
use xteam.Arrays.Order.{Order, le}
use xteam.SearchTree.Types.{Tree, null, node, equal}

-- What `Delete` leaves: `false` and the tree as it was, `true` and a tree, or `true` and a pointer to
-- memory that is deleted.
pub data Deletion (T : Type 0) : Type 0 where
  absent : Deletion T
  deleted : Tree T → Deletion T
  dangling : Deletion T

module _ {T : Type 0} where
  -- The loop to the leftmost node under a right child: its value, and the subtree once
  -- `rMin->right_` takes its place.
  unfoldable pub take_least : T → Tree T → Tree T → T × Tree T
  take_least x null r = (x, r)
  take_least x (node y ll lr) r = let (m, l') = take_least y ll lr in (m, node x l' r)

  -- What the pointer to the node found leads to afterwards: a child is copied up, or the least value on
  -- the right is.
  unfoldable pub delete_found : T → Tree T → Tree T → Tree T
  unfolding take_least
  delete_found x null null = null
  delete_found x (node y ll lr) null = node y ll lr
  delete_found x null (node y rl rr) = node y rl rr
  delete_found x (node z ll lr) (node y rl rr) =
      let (m, r') = take_least y rl rr in node m (node z ll lr) r'

  -- The root is a leaf and found, or something of the tree is left.
  abbrev pub outcome : Option (Tree T) → Deletion T
  outcome none = absent
  outcome (some null) = dangling
  outcome (some (node x l r)) = deleted (node x l r)

module _ {T : Type 0} ⦃o : Order T⦄ where
  -- The tree after the node is found on the way that `Search` takes.
  unfoldable pub delete_below : Tree T → T → Option (Tree T)
  unfolding delete_found
  delete_below null value = none
  delete_below (node x l r) value =
      let left = delete_below l value >>= λ l'. some (node x l' r) in
      let right = delete_below r value >>= λ r'. some (node x l r') in
      if equal x value then some (delete_found x l r) else if le value x then left else right

  -- `Delete`
  unfoldable pub delete : Tree T → T → Deletion T
  unfolding delete_below
  delete t value = outcome (delete_below t value)
