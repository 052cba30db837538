-- ===== src/KdTree/Types.antt =====
-- The structures of kdtree.c, allocation, and the functions on whole trees.
use xteam.Prelude.{
  ℕ, ◌+◌, ◌-◌, Bool, true, false, Option, none, some, List, [], ◌∷◌, ◌++◌, if◌then◌else◌, ◌==◌,
}

-- The 0 and -1 that the C functions return.
pub data Status : Type 0 where
  ok failed : Status

-- The outcomes of the calls of `malloc` to come; there is no memory left after the last.
abbrev pub Memory : Type 0
Memory = List Bool

unfoldable pub malloc : Memory → Bool × Memory
malloc [] = (false, [])
malloc (b ∷ m) = (b, m)

-- `struct kdnode`, and `null` for a null pointer to one.
pub data Node (R D : Type 0) : Type 0 where
  null : Node R D
  node : (pos : List R) (idx : ℕ) (item : D) (left right : Node R D) → Node R D

-- `struct kdhyperrect`
pub record Rect (R : Type 0) : Type 0 where
  pub dim : ℕ
  pub low : List R
  pub high : List R

-- `struct kdtree`; `destr` tells whether a destructor is set.
pub record Tree (R D : Type 0) : Type 0 where
  pub dim : ℕ
  pub root : Node R D
  pub rect : Option (Rect R)
  pub destr : Bool

-- What a result says of its node.
pub record Entry (R D : Type 0) : Type 0 where
  pub pos : List R
  pub item : D

-- `struct res_node`, less its link.
pub record ResNode (R D : Type 0) : Type 0 where
  pub entry : Entry R D
  pub dist_sq : R

-- The list `free_nodes` by its length, with the outcomes of `malloc`.
pub record Pool : Type 0 where
  pub free_nodes : ℕ
  pub memory : Memory

-- `struct kdres`: the nodes behind the list head, those from the iterator on, and the size.
pub record ResSet (R D : Type 0) : Type 0 where
  pub rlist : List (ResNode R D)
  pub riter : List (ResNode R D)
  pub size : ℕ

unfoldable pub alloc_resnode : Pool → Bool × Pool
unfolding malloc
alloc_resnode p =
    if p.free_nodes == 0
    then (let (got, m) = malloc p.memory in (got, record p { memory = m }))
    else (true, record p { free_nodes = p.free_nodes - 1 })

unfoldable pub free_resnode : Pool → Pool
free_resnode p = record p { free_nodes = p.free_nodes + 1 }

module _ {R D : Type 0} where
  -- `kd_create`
  unfoldable pub create : ℕ → Memory → Option (Tree R D) × Memory
  unfolding malloc
  create k mem =
      let (got, m) = malloc mem in
      (if got then some (record { dim = k; root = null; rect = none; destr = false }) else none, m)

  -- `clear_rec`: the items that the destructor is called on, in order.
  unfoldable pub clear_rec : Node R D → Bool → List D
  clear_rec null destr = []
  clear_rec (node p i x l r) destr =
      clear_rec l destr ++ (clear_rec r destr ++ (if destr then x ∷ [] else []))

  -- `kd_clear`
  unfoldable pub clear : Tree R D → Tree R D × List D
  unfolding clear_rec
  clear t = (record t { root = null; rect = none }, clear_rec t.root t.destr)

  -- `kd_free`: what the destructor is called on; nothing of the tree is left.
  unfoldable pub free : Tree R D → List D
  unfolding clear
  free t = (clear t).1
