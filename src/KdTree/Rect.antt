-- ===== src/KdTree/Rect.antt =====
-- kdtree.c: coordinates, and the bounding box.
use xteam.Prelude.{ℕ, zero, suc, ◌+◌, Option, none, some, List, get_or, set, take, if◌then◌else◌}
use xteam.Scalar.{Scalar}
use xteam.KdTree.Types.{Memory, malloc, Rect}

module _ {R : Type 0} ⦃s : Scalar R⦄ where
  -- `p[i]`
  abbrev pub coord : List R → ℕ → R
  coord p i = get_or p i s.origin

  -- `hyperrect_create`: three calls of `malloc`, given up at the first that fails.
  unfoldable pub hyperrect_create : ℕ → List R → List R → Memory → Option (Rect R) × Memory
  unfolding malloc
  hyperrect_create dim low high mem =
      let (a, m1) = malloc mem in
      let (b, m2) = malloc m1 in
      let (c, m3) = malloc m2 in
      if a
      then if b
        then if c
          then (some (record { dim = dim; low = take dim low; high = take dim high }), m3)
          else (none, m3)
        else (none, m2)
      else (none, m1)

  -- The body of the loop of `hyperrect_extend`.
  unfoldable pub extend_at : List R → ℕ → Rect R → Rect R
  extend_at pos i r =
      let low' = if s.lt (coord pos i) (coord r.low i) then set r.low i (coord pos i) else r.low in
      let high' =
        if s.lt (coord r.high i) (coord pos i) then set r.high i (coord pos i) else r.high in
      record r { low = low'; high = high' }

  -- Its rounds from `i` on, `n` of them.
  unfoldable pub extend_from : ℕ → ℕ → List R → Rect R → Rect R
  unfolding extend_at
  extend_from zero i pos r = r
  extend_from (suc n) i pos r = extend_from n (i + 1) pos (extend_at pos i r)

  unfoldable pub hyperrect_extend : Rect R → List R → Rect R
  unfolding extend_from
  hyperrect_extend r pos = extend_from r.dim 0 pos r
