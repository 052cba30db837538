-- ===== src/MedianTree/Nearest.antt =====
-- base-kdtree.c: `nearest`.
use mathlib.Core.Bool.{cond}
use xteam.Prelude.{ℕ, ◌+◌, Bool, true, ◌&&◌, none, some, List, leb, if◌then◌else◌}
use xteam.Scalar.{Scalar, le}
use xteam.KdTree.Rect.{coord}
use xteam.MedianTree.Types.{Node, null, node, Best, dist2}

-- The next dimension: `if (++i >= dim) i = 0`.
unfoldable pub next_dim : ℕ → ℕ → ℕ
next_dim i dim = if leb dim (i + 1) then 0 else i + 1

module _ {R : Type 0} ⦃s : Scalar R⦄ where
  -- `!x`
  unfoldable pub is_zero : R → Bool
  is_zero x = le x s.origin && le s.origin x

  -- The node is counted, and taken where it is nearer than the best, or the first.
  unfoldable pub take_nearer : List R → R → Best R → Best R
  take_nearer point d2 b =
      let nearer : Bool = elim b.best [ none ↦ true | some q ↦ s.lt d2 b.best_dist2 ] in
      if nearer
      then record { best = some point; best_dist2 = d2; visited = b.visited + 1 }
      else record b { visited = b.visited + 1 }

  -- The side that the point lies on, then the other, if it may hold a nearer node.
  unfoldable pub both_sides : (Best R → Best R) → (Best R → Best R) → R → Best R → Best R
  both_sides near far dx2 b =
      let b1 = near b in let b2 = far b1 in if le b1.best_dist2 dx2 then b1 else b2

  unfoldable pub nearest : Node R → List R → ℕ → ℕ → Best R → Best R
  unfolding dist2 take_nearer both_sides is_zero next_dim
  nearest null nd i dim b = b
  nearest (node point left right) nd i dim b =
      let dx = s.sub (coord point i) (coord nd i) in
      let b1 = take_nearer point (dist2 point nd dim) b in
      let go_left : Best R → Best R = nearest left nd (next_dim i dim) dim in
      let go_right : Best R → Best R = nearest right nd (next_dim i dim) dim in
      let t = s.lt s.origin dx in
      if is_zero b1.best_dist2
      then b1
      else both_sides (cond t go_left go_right) (cond t go_right go_left) (s.mul dx dx) b1
