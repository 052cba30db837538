-- ===== src/SearchTree/Types.antt =====
-- tree.h: the nodes, `Insert`, `Search`, `BSTMaxTreeNode`, `Depth` and the recursive walks. A tree stands
-- for the node a pointer points to, `null` for the null pointer. A walk that prints is the list of what
-- it prints.
use xteam.Prelude.{
  ℕ, suc, ◌+◌, Bool, true, false, not, ◌&&◌, Option, none, some, List, [], ◌∷◌, ◌++◌, ltb,
  if◌then◌else◌,
}
use xteam.Arrays.Order.{Order, le}

-- `obj_`, `left_`, `right_`
pub data Tree (T : Type 0) : Type 0 where
  null : Tree T
  node : T → Tree T → Tree T → Tree T

module _ {T : Type 0} where
  -- How many nodes there are.
  abbrev pub size : Tree T → ℕ
  size null = 0
  size (node x l r) = suc (size l + size r)

  -- `FirstTraver`
  unfoldable pub first_traver : Tree T → List T
  first_traver null = []
  first_traver (node x l r) = x ∷ (first_traver l ++ first_traver r)

  -- `MidTraver`
  unfoldable pub mid_traver : Tree T → List T
  mid_traver null = []
  mid_traver (node x l r) = mid_traver l ++ x ∷ mid_traver r

  -- `LastTraver`
  unfoldable pub last_traver : Tree T → List T
  last_traver null = []
  last_traver (node x l r) = last_traver l ++ (last_traver r ++ (x ∷ []))

  abbrev pub is_leaf : Tree T → Tree T → Bool
  is_leaf null null = true
  is_leaf null (node x l r) = false
  is_leaf (node x l r) t = false

  -- `Depth`
  unfoldable pub depth : Tree T → ℕ
  depth null = 0
  depth (node x l r) =
      if is_leaf l r then 0 else if ltb (depth r) (depth l) then depth l + 1 else depth r + 1

  -- `BSTMaxTreeNode`: the node and the last one before it, which is `parent` where there is none.
  unfoldable pub bst_max_tree_node : Tree T → Tree T → Option (Tree T × Tree T)
  bst_max_tree_node null parent = none
  bst_max_tree_node (node x l null) parent = some (node x l null, parent)
  bst_max_tree_node (node x l (node y a b)) parent =
      bst_max_tree_node (node y a b) (node x l (node y a b))

module _ {T : Type 0} ⦃o : Order T⦄ where
  -- `==`: neither is less.
  abbrev pub equal : T → T → Bool
  equal a b = not (o.lt a b) && not (o.lt b a)

  -- `Insert`, without the nodes that the calls above the last one allocate and leave.
  unfoldable pub insert : Tree T → T → Tree T
  insert null value = node value null null
  insert (node x l r) value =
      if le value x then node x (insert l value) r else node x l (insert r value)

  -- `Search`: the node, and what `*parent` is then.
  unfoldable pub search : Tree T → T → Tree T → Tree T × Tree T
  search null value parent = (null, parent)
  search (node x l r) value parent =
      let left = search l value (node x l r) in
      let right = search r value (node x l r) in
      if equal x value then (node x l r, parent) else if le value x then left else right
