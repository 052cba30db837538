-- ===== src/Avl/Types.antt =====
-- avl_tree.h: the nodes, the rotations, `Insert` and `Search`. A tree stands for the node a pointer
-- points to, without its `parent_`, which nothing here reads. `none` is a failed assertion or a null
-- pointer that is followed.
use xteam.Prelude.{
  ℕ, ◌+◌, ◌-◌, Bool, not, ◌&&◌, Option, none, some, List, [], ◌∷◌, ◌++◌, ltb, if◌then◌else◌, ◌>>=◌,
}
use xteam.Arrays.Order.{Order}

-- `obj_`, `height_`, `left_`, `right_`
pub data Tree (T : Type 0) : Type 0 where
  null : Tree T
  node : T → ℕ → Tree T → Tree T → Tree T

-- `std::max`
unfoldable pub max : ℕ → ℕ → ℕ
max a b = if ltb a b then b else a

module _ {T : Type 0} where
  -- `GetHeight`
  abbrev pub get_height : Tree T → ℕ
  get_height null = 0
  get_height (node x h l r) = h

  -- `GetTreeBalance`, of a node with these children.
  unfoldable pub get_tree_balance : Tree T → Tree T → ℕ
  get_tree_balance l r =
      if ltb (get_height l) (get_height r)
      then get_height r - get_height l
      else get_height l - get_height r

  -- `IsBalance`
  unfoldable pub is_balance : Tree T → Tree T → Bool
  unfolding get_tree_balance
  is_balance l r = ltb (get_tree_balance l r) 2

  -- A node whose height is set from its children's.
  abbrev pub with_height : T → Tree T → Tree T → Tree T
  with_height x l r = node x (max (get_height l) (get_height r) + 1) l r

  -- The same, for a node that there is.
  unfoldable pub set_height : Tree T → Tree T
  set_height null = null
  set_height (node x h l r) = with_height x l r

  -- `RotateLL`
  unfoldable pub rotate_ll : Tree T → Option (Tree T)
  rotate_ll null = none
  rotate_ll (node x h null r) = none
  rotate_ll (node x h (node y g ll lr) r) = some (with_height y ll (with_height x lr r))

  -- `RotateRR`
  unfoldable pub rotate_rr : Tree T → Option (Tree T)
  rotate_rr null = none
  rotate_rr (node x h l null) = none
  rotate_rr (node x h l (node y g rl rr)) = some (with_height y (with_height x l rl) rr)

  -- `RotateLR`
  unfoldable pub rotate_lr : Tree T → Option (Tree T)
  unfolding rotate_rr rotate_ll
  rotate_lr null = none
  rotate_lr (node x h l r) = rotate_rr l >>= λ l'. rotate_ll (node x h l' r)

  -- `RotateRL`
  unfoldable pub rotate_rl : Tree T → Option (Tree T)
  unfolding rotate_rr rotate_ll
  rotate_rl null = none
  rotate_rl (node x h l r) = rotate_ll r >>= λ r'. rotate_rr (node x h l r')

  -- `MidTraverSave`, of the values.
  unfoldable pub mid_traver : Tree T → List T
  mid_traver null = []
  mid_traver (node x h l r) = mid_traver l ++ x ∷ mid_traver r

module _ {T : Type 0} ⦃o : Order T⦄ where
  -- What `Insert` does with the node once the value is in its left subtree,
  unfoldable pub rebalance_left : T → T → ℕ → Tree T → Tree T → Option (Tree T)
  unfolding is_balance rotate_ll rotate_lr
  rebalance_left e x h null r = some (node x h null r)
  rebalance_left e x h (node y g ll lr) r =
      let t = node x h (node y g ll lr) r in
      if is_balance (node y g ll lr) r
      then some t
      else if o.lt e y
      then rotate_ll t
      else if o.lt y e
      then rotate_lr t
      else some t

  -- and in its right subtree.
  unfoldable pub rebalance_right : T → T → ℕ → Tree T → Tree T → Option (Tree T)
  unfolding is_balance rotate_rr rotate_rl
  rebalance_right e x h l null = some (node x h l null)
  rebalance_right e x h l (node y g rl rr) =
      let t = node x h l (node y g rl rr) in
      if is_balance l (node y g rl rr)
      then some t
      else if o.lt e y
      then rotate_rl t
      else if o.lt y e
      then rotate_rr t
      else some t

  -- `Insert`
  unfoldable pub insert : T → Tree T → Option (Tree T)
  unfolding rebalance_left rebalance_right set_height
  insert e null = some (node e 1 null null)
  insert e (node x h l r) =
      let left = insert e l >>= λ l'. rebalance_left e x h l' r in
      let right = insert e r >>= λ r'. rebalance_right e x h l r' in
      (if o.lt e x then left else if o.lt x e then right else some (node x h l r)) >>= λ t.
      some (set_height t)

  -- `Search`, of which the value in the node found is the result; two values are equal where neither is
  -- less.
  unfoldable pub search : Tree T → T → Option T
  search null e = none
  search (node x h l r) e =
      let left = search l e in
      let right = search r e in
      if not (o.lt e x) && not (o.lt x e) then some x else if not (o.lt x e) then left else right
