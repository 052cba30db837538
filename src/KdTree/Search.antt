-- ===== src/KdTree/Search.antt =====
-- kdtree.c: the range search.
use mathlib.Core.Bool.{cond}
use xteam.Prelude.{
  ℕ, zero, suc, ◌+◌, Bool, true, false, Option, none, some, List, [], if◌then◌else◌,
}
use xteam.Scalar.{Scalar, le}
use xteam.KdTree.Types.{
  ok, failed, Node, null, node, Tree, malloc, Entry, ResNode, Pool, ResSet, alloc_resnode,
}
use xteam.KdTree.Rect.{coord}
use xteam.KdTree.Results.{rlist_insert, res_free, res_rewind}

-- A search extends the result list; `none` is the -1 of a failed allocation.
abbrev pub Search : Type 0 → Type 0 → Type 0
Search R D = List (ResNode R D) → Pool → Option ℕ × List (ResNode R D) × Pool

module _ {R : Type 0} ⦃s : Scalar R⦄ where
  -- The loop that sums the squares, `n` rounds from coordinate `i` on.
  unfoldable pub dist_from : ℕ → ℕ → List R → List R → R → R
  dist_from zero i p q acc = acc
  dist_from (suc n) i p q acc =
      let t = s.sub (coord p i) (coord q i) in dist_from n (i + 1) p q (s.add acc (s.mul t t))

module _ {R D : Type 0} where
  -- The end of `find_nearest`: the near side, then the far side if the plane is within range.
  unfoldable pub descend : Search R D → Search R D → Bool → ℕ → Search R D
  descend near far wide added l p =
      let (ret, l', p') = near l p in
      elim ret [
        | none ↦ (none, l', p')
        | some n ↦
            let (ret', l'', p'') = far l' p' in
            elim wide [
              | false ↦ (some (added + n), l', p')
              | true ↦ elim ret' [
                | none ↦ (none, l'', p'')
                | some m ↦ (some (added + n + m), l'', p'')
              ]
            ]
      ]

module _ {R D : Type 0} ⦃s : Scalar R⦄ where
  -- One node of `find_nearest`: report it if it is within range, then go on below it.
  unfoldable pub visit : Entry R D → R → R → Bool → R → Search R D → Search R D → Search R D
  unfolding rlist_insert descend
  visit e dist_sq range ordered dx near far l p =
      let wide = s.lt (s.abs dx) range in
      let (st, l', p') = rlist_insert l e (if ordered then dist_sq else s.minus_one) p in
      elim (le dist_sq (s.mul range range)) [
        | false ↦ descend near far wide 0 l p
        | true ↦ elim st [ failed ↦ (none, l', p') | ok ↦ descend near far wide 1 l' p' ]
      ]

  unfoldable pub find_nearest : Node R D → List R → R → Bool → ℕ → Search R D
  unfolding dist_from visit
  find_nearest null pos range ordered dim l p = (some 0, l, p)
  find_nearest (node q i x left right) pos range ordered dim l p =
      let dx = s.sub (coord pos i) (coord q i) in
      let go_left = find_nearest left pos range ordered dim in
      let go_right = find_nearest right pos range ordered dim in
      visit (record { pos = q; item = x }) (dist_from dim 0 q pos s.origin) range ordered dx
        (cond (le dx s.origin) go_left go_right) (cond (le dx s.origin) go_right go_left) l p

  -- `kd_nearest_range`: the set and the list head are allocated first; a failed search frees its
  -- list.
  unfoldable pub nearest_range : Tree R D → List R → R → Pool → Option (ResSet R D) × Pool
  unfolding malloc alloc_resnode find_nearest res_free res_rewind
  nearest_range t pos range p =
      let (got, m) = malloc p.memory in
      let (head, p1) = alloc_resnode (record p { memory = m }) in
      let (ret, l, p2) = find_nearest t.root pos range false t.dim [] p1 in
      elim got [
        | false ↦ (none, record p { memory = m })
        | true ↦ elim head [
          | false ↦ (none, p1)
          | true ↦ elim ret [
            | none ↦ (none, res_free l p2)
            | some n ↦ (some (res_rewind (record { rlist = l; riter = []; size = n })), p2)
          ]
        ]
      ]
