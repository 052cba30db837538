-- ===== src/MedianTree/Beyond.antt =====
-- base-kdtree.c: the nodes on the other side are no nearer than the plane between the sides.
use xteam.Prelude.{ℕ, ◌<◌, ◌≡◌, true, false, List, arith}
use xteam.Scalar.{Scalar, le}
use xteam.KdTree.Rect.{coord}
use xteam.MedianTree.Types.{Node, dist2}
use xteam.MedianTree.Order.{
  AllNodes, AllNodes-imp, mul_self-le-dist2_from, beyond_right, beyond_left,
}

module _ {R : Type 0} ⦃s : Scalar R⦄ (nd : List R) (dim : ℕ) where
  pub beyond_left_all :
      (i : ℕ) (p : List R) (t : Node R)
      → i < dim
      → s.lt s.origin (s.sub (coord p i) (coord nd i)) ≡ false
      → AllNodes (λ q. le (coord q i) (coord p i) ≡ true) t
      → let dx = s.sub (coord p i) (coord nd i) in
        AllNodes (λ q. le (s.mul dx dx) (dist2 q nd dim) ≡ true) t
  unfolding dist2
  beyond_left_all i p t lt side =
      let dx = s.sub (coord p i) (coord nd i) in
      AllNodes-imp
        (λ q h. ground (
          arith,
          s.lt_irrefl s.origin,
          beyond_left (coord nd i) (coord p i) (coord q i),
          mul_self-le-dist2_from dim i q nd s.origin,
          s.le_trans (s.mul dx dx)
              (s.mul (s.sub (coord q i) (coord nd i)) (s.sub (coord q i) (coord nd i)))
              (dist2 q nd dim),
        ))
        t

  pub beyond_right_all :
      (i : ℕ) (p : List R) (t : Node R)
      → i < dim
      → s.lt s.origin (s.sub (coord p i) (coord nd i)) ≡ true
      → AllNodes (λ q. le (coord p i) (coord q i) ≡ true) t
      → let dx = s.sub (coord p i) (coord nd i) in
        AllNodes (λ q. le (s.mul dx dx) (dist2 q nd dim) ≡ true) t
  unfolding dist2
  beyond_right_all i p t lt side =
      let dx = s.sub (coord p i) (coord nd i) in
      AllNodes-imp
        (λ q h. ground (
          arith,
          s.lt_irrefl s.origin,
          beyond_right (coord nd i) (coord p i) (coord q i),
          mul_self-le-dist2_from dim i q nd s.origin,
          s.le_trans (s.mul dx dx)
              (s.mul (s.sub (coord q i) (coord nd i)) (s.sub (coord q i) (coord nd i)))
              (dist2 q nd dim),
        ))
        t
