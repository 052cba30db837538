-- ===== src/QuadTree/Well.antt =====
-- sbd_tree.cpp: what a well-formed tree is.
use xteam.Prelude.{◌≤◌, ◌≡◌, ◌⊎◌, Bool, true, false, List, [], ◌∷◌, ◌++◌, length, All}
use xteam.QuadTree.Types.{Bound, Item, Node, null, inter, entry, quarter, contain}

-- The points of a tree with their values, a chain behind its first node.
abbrev pub items : Node → List Item
items null = []
items (entry item chain) = item ∷ chain
items (inter b n t0 t1 t2 t3) = items t0 ++ (items t1 ++ (items t2 ++ items t3))

-- Each inner node has the bound of its place and its count of points, and each entry a position inside
-- the bound of its place, and no chain.
abbrev pub IsQuad : Bound → Node → Type 0
IsQuad b null = Unit
IsQuad b (entry item chain) = (contain b item.position ≡ true) × (chain ≡ [])
IsQuad b (inter b' n t0 t1 t2 t3) =
    (b' ≡ b)
    × (n ≡ length (items t0 ++ (items t1 ++ (items t2 ++ items t3))))
    × IsQuad (quarter b true true) t0
    × IsQuad (quarter b true false) t1
    × IsQuad (quarter b false true) t2
    × IsQuad (quarter b false false) t3

-- The same for a tree that may hold chains, where `be_list` is true: each inner node counts all the points
-- below it, those in chains too, and a chain stands at the place of its first node.
abbrev pub IsChained : Bool → Bound → Node → Type 0
IsChained be_list b null = Unit
IsChained be_list b (entry item chain) =
    (contain b item.position ≡ true)
    × (be_list ≡ true ⊎ (chain ≡ []))
    × All (λ other. other.position ≡ item.position) chain
IsChained be_list b (inter b' n t0 t1 t2 t3) =
    (b' ≡ b)
    × (n ≡ length (items t0 ++ (items t1 ++ (items t2 ++ items t3))))
    × IsChained be_list (quarter b true true) t0
    × IsChained be_list (quarter b true false) t1
    × IsChained be_list (quarter b false true) t2
    × IsChained be_list (quarter b false false) t3

-- The left is not beyond the right, nor the top beyond the bottom.
pub record IsBound (b : Bound) : Type 0 where
  pub wide : b.left ≤ b.right
  pub high : b.top ≤ b.bottom
