-- ===== src/MedianTree/Types.antt =====
-- base-kdtree.c: `struct kd_node_t`, and the distance of two points.
use xteam.Prelude.{ℕ, zero, suc, Option, List}
use xteam.Scalar.{Scalar}
use xteam.KdTree.Rect.{coord}

-- `struct kd_node_t`, with a null pointer for no node.
pub data Node (R : Type 0) : Type 0 where
  null : Node R
  node : (point : List R) (left right : Node R) → Node R

-- What `nearest` writes through its pointers, and the global `visited`.
pub record Best (R : Type 0) : Type 0 where
  pub best : Option (List R)
  pub best_dist2 : R
  pub visited : ℕ

-- `dist2`: the sum of the squares, from the last coordinate to the first.
module _ {R : Type 0} ⦃s : Scalar R⦄ where
  unfoldable pub dist2_from : ℕ → List R → List R → R → R
  dist2_from zero a b d2 = d2
  dist2_from (suc dim) a b d2 =
      let t = s.sub (coord a dim) (coord b dim) in dist2_from dim a b (s.add d2 (s.mul t t))

  unfoldable pub dist2 : List R → List R → ℕ → R
  unfolding dist2_from
  dist2 a b dim = dist2_from dim a b s.origin
