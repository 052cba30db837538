-- ===== src/QuadTree/Types.antt =====
-- sbd_tree.h and sbd_tree.cpp: points, bounds and nodes. A coordinate, an int, is a natural number, and a
-- bound has its left and top not beyond its right and bottom, so that no difference is negative.
use xteam.Prelude.{
  ℕ, ◌+◌, ◌-◌, ◌/◌, Bool, true, false, not, ◌||◌, List, ltb, leb, ◌==◌, if◌then◌else◌,
}

pub record Point : Type 0 where
  pub x : ℕ
  pub y : ℕ

pub record Bound : Type 0 where
  pub left : ℕ
  pub top : ℕ
  pub right : ℕ
  pub bottom : ℕ

-- `Bound::Center`
unfoldable pub center : Bound → Point
center b = record { x = b.left + (b.right - b.left) / 2; y = b.top + (b.bottom - b.top) / 2 }

-- `Bound::IsEmpty`
unfoldable pub is_empty : Bound → Bool
is_empty b = leb b.right b.left || leb b.bottom b.top

-- `Bound::CanDivide`
unfoldable pub can_divide : Bound → Bool
can_divide b = not ((b.right - b.left) / 2 == 0) || not ((b.bottom - b.top) / 2 == 0)

-- `Bound::Intersect`
unfoldable pub intersect : Bound → Bound → Bool
intersect b c =
    not (ltb b.right c.left || ltb b.bottom c.top || ltb c.right b.left || ltb c.bottom b.top)

-- `Bound::Contain`, of a point
unfoldable pub contain : Bound → Point → Bool
contain b p = not (ltb p.x b.left || ltb b.right p.x || ltb p.y b.top || ltb b.bottom p.y)

-- and of a bound.
unfoldable pub contain_bound : Bound → Bound → Bool
contain_bound b c =
    not (ltb c.left b.left || ltb c.top b.top || ltb b.right c.right || ltb b.bottom c.bottom)

-- `position` and `data` of a node of type `DATA`.
pub record Item : Type 0 where
  pub position : Point
  pub value : ℕ

-- A node of type `INTER`, with its bound, its count and its four children; one of type `DATA`, with the
-- chain behind `next`; or a null pointer.
pub data Node : Type 0 where
  null : Node
  inter : Bound → ℕ → Node → Node → Node → Node → Node
  entry : Item → List Item → Node

-- The child on the left or not, at the top or not.
abbrev pub child : Bool → Bool → Node → Node → Node → Node → Node
child true true a b c d = a
child true false a b c d = b
child false true a b c d = c
child false false a b c d = d

-- `child_bound`
abbrev pub quarter : Bound → Bool → Bool → Bound
quarter b at_left at_top = record {
  left = if at_left then b.left else (center b).x;
  top = if at_top then b.top else (center b).y;
  right = if at_left then (center b).x else b.right;
  bottom = if at_top then (center b).y else b.bottom;
}
