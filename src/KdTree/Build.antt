-- ===== src/KdTree/Build.antt =====
-- kdtree.c: insertion.
use xteam.Prelude.{ℕ, ◌+◌, ◌%◌, true, false, Option, none, some, List, [], ◌∷◌, take, if◌then◌else◌}
use xteam.Scalar.{Scalar}
use xteam.KdTree.Types.{Memory, malloc, Rect, Status, ok, failed, Node, null, node, Tree}
use xteam.KdTree.Rect.{coord, hyperrect_create, hyperrect_extend}

module _ {R : Type 0} ⦃s : Scalar R⦄ where
  -- The second half of `kd_insert`: a box that cannot be allocated stays null.
  unfoldable pub update_rect : ℕ → Option (Rect R) → List R → Memory → Option (Rect R) × Memory
  unfolding hyperrect_create hyperrect_extend
  update_rect dim none pos mem = hyperrect_create dim pos pos mem
  update_rect dim (some r) pos mem = (some (hyperrect_extend r pos), mem)

module _ {R D : Type 0} ⦃s : Scalar R⦄ where
  -- `insert_rec`: the status, the tree now behind `*nptr`, and the memory left.
  unfoldable pub insert_rec : Node R D → List R → D → ℕ → ℕ → Memory → Status × Node R D × Memory
  unfolding malloc
  insert_rec null pos item idx dim mem =
      let (got, m) = malloc mem in
      let (got_pos, m') = malloc m in
      if got
      then if got_pos then (ok, node (take dim pos) idx item null null, m') else (failed, null, m')
      else (failed, null, m)
  insert_rec (node p i x l r) pos item idx dim mem =
      let new_dir = (i + 1) % dim in
      elim (s.lt (coord pos i) (coord p i)) [
        | true ↦ let (st, l', m) = insert_rec l pos item new_dir dim mem in (st, node p i x l' r, m)
        | false ↦
            let (st, r', m) = insert_rec r pos item new_dir dim mem in (st, node p i x l r', m)
      ]

  -- `kd_insert`
  unfoldable pub insert : Tree R D → List R → D → Memory → Status × Tree R D × Memory
  unfolding insert_rec update_rect
  insert t pos item mem =
      let (st, root', m) = insert_rec t.root pos item 0 t.dim mem in
      let (rect', m') = update_rect t.dim t.rect pos m in
      elim st [
        | failed ↦ (failed, record t { root = root' }, m)
        | ok ↦ (ok, record t { root = root'; rect = rect' }, m')
      ]

  -- `kd_insert3`
  unfoldable pub insert3 : Tree R D → R → R → R → D → Memory → Status × Tree R D × Memory
  unfolding insert
  insert3 t x y z item mem = insert t (x ∷ y ∷ z ∷ []) item mem
