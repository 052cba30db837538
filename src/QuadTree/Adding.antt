-- ===== src/QuadTree/Adding.antt =====
-- sbd_tree.cpp: `QTree::AddNode`. It runs on fuel, one for each level; a result says whether the node was
-- added, and what the tree is then. `none` is fuel that is used up, or a root that is no inner node.
use xteam.Prelude.{
  ℕ, zero, suc, ◌+◌, Bool, true, false, ◌&&◌, Option, none, some, List, ◌∷◌, leb, ◌==◌,
  if◌then◌else◌, ◌>>=◌,
}
use xteam.QuadTree.Types.{
  Point, Bound, Item, Node, null, inter, entry, child, quarter, center, can_divide,
}

-- `==` of points.
unfoldable pub same_point : Point → Point → Bool
same_point p q = p.x == q.x && p.y == q.y

-- The inner node after a child is set, counted up where a node was added.
abbrev pub with_child :
    Bound → ℕ → Bool → Bool → Node → Node → Node → Node → Bool × Node → Bool × Node
with_child b n true true t0 t1 t2 t3 (ok, t) = (ok, inter b (if ok then n + 1 else n) t t1 t2 t3)
with_child b n true false t0 t1 t2 t3 (ok, t) = (ok, inter b (if ok then n + 1 else n) t0 t t2 t3)
with_child b n false true t0 t1 t2 t3 (ok, t) = (ok, inter b (if ok then n + 1 else n) t0 t1 t t3)
with_child b n false false t0 t1 t2 t3 (ok, t) = (ok, inter b (if ok then n + 1 else n) t0 t1 t2 t)

-- What becomes of a child, given how a node is added to an inner one; `be_list` is `be_list`.
unfoldable pub place :
    (Node → Item → List Item → Option (Bool × Node))
    → Bool
    → Bound
    → Node
    → Item
    → List Item
    → Option (Bool × Node)
unfolding same_point
place add be_list b null new next = some (true, entry new next)
place add be_list b (inter b' n t0 t1 t2 t3) new next = add (inter b' n t0 t1 t2 t3) new next
place add be_list b (entry old chain) new next =
    let chained = some (true, entry old (new ∷ chain)) in
    let refused = some (false, entry old chain) in
    let split = add (inter b 0 null null null null) old chain >>= λ r.
    let (ok, t) = r in if ok then add t new next else refused in
    if same_point new.position old.position
    then (if be_list then chained else refused)
    else if can_divide b
    then split
    else if be_list
    then chained
    else refused

-- `QTree::AddNode`, of a node that has the chain `next` behind it.
unfoldable pub add_node : ℕ → Bool → Node → Item → List Item → Option (Bool × Node)
unfolding place
add_node zero be_list t new next = none
add_node (suc fuel) be_list null new next = none
add_node (suc fuel) be_list (entry old chain) new next = none
add_node (suc fuel) be_list (inter b n t0 t1 t2 t3) new next =
    let at_left = leb new.position.x (center b).x in
    let at_top = leb new.position.y (center b).y in
    let t = child at_left at_top t0 t1 t2 t3 in
    let added = place (add_node fuel be_list) be_list (quarter b at_left at_top) t new next >>= λ r.
    some (with_child b n at_left at_top t0 t1 t2 t3 r) in
    if can_divide b then added else some (false, inter b n t0 t1 t2 t3)
