-- ===== src/MedianTree/Build.antt =====
-- base-kdtree.c: `swap`, `find_median`, `make_tree`. An array of nodes is the list of their points; a
-- pointer into it is an index. The loops that need not end at once run on fuel.
use xteam.Prelude.{
  ℕ, zero, suc, ◌+◌, ◌-◌, ◌/◌, ◌%◌, Bool, true, false, ◌&&◌, Option, none, some, List, [], ltb, leb,
  ◌==◌, if◌then◌else◌, get_or, set,
}
use xteam.Scalar.{Scalar, le}
use xteam.KdTree.Rect.{coord}
use xteam.MedianTree.Types.{Node, null, node}

module _ {R : Type 0} where
  abbrev pub at : List (List R) → ℕ → List R
  at arr i = get_or arr i []

  -- `swap`
  unfoldable pub swap : ℕ → ℕ → List (List R) → List (List R)
  swap i j arr = set (set arr i (at arr j)) j (at arr i)

module _ {R : Type 0} ⦃s : Scalar R⦄ where
  -- The pass of `find_median` that moves what is below the pivot to the front, `n` rounds from `p` on.
  unfoldable pub scan : ℕ → R → ℕ → ℕ → ℕ → List (List R) → ℕ × List (List R)
  unfolding swap
  scan idx pivot zero p store arr = (store, arr)
  scan idx pivot (suc n) p store arr = elim (s.lt (coord (at arr p) idx) pivot) [
    | true ↦ scan idx pivot n (p + 1) (store + 1) (if p == store then arr else swap p store arr)
    | false ↦ scan idx pivot n (p + 1) store arr
  ]

  -- `a == b`
  abbrev same_value : R → R → Bool
  same_value a b = le a b && le b a

  -- The loop of `find_median`.
  unfoldable pub median_loop : ℕ → ℕ → ℕ → ℕ → ℕ → List (List R) → Option (ℕ × List (List R))
  unfolding scan swap
  median_loop zero start end_ md idx arr = none
  median_loop (suc n) start end_ md idx arr =
      let pivot = coord (at arr md) idx in
      let (store, arr1) = scan idx pivot (end_ - start) start start (swap md (end_ - 1) arr) in
      let arr2 = swap store (end_ - 1) arr1 in
      let lower = median_loop n start store md idx arr2 in
      let upper = median_loop n store end_ md idx arr2 in
      if same_value (coord (at arr2 store) idx) (coord (at arr2 md) idx)
      then some (md, arr2)
      else if ltb md store
      then lower
      else upper

  -- `find_median`; the index is `none` for NULL.
  unfoldable pub find_median : ℕ → ℕ → ℕ → ℕ → List (List R) → Option (Option ℕ × List (List R))
  unfolding median_loop
  find_median fuel start end_ idx arr =
      if leb end_ start
      then some (none, arr)
      else if end_ == start + 1
      then some (some start, arr)
      else elim (median_loop fuel start end_ (start + (end_ - start) / 2) idx arr) [
        | none ↦ none
        | some (md, arr') ↦ some (some md, arr')
      ]

  -- `make_tree`, of `len` nodes from index `t` on.
  unfoldable pub make_tree : ℕ → ℕ → ℕ → ℕ → ℕ → List (List R) → Option (Node R × List (List R))
  unfolding find_median
  make_tree zero t len i dim arr = if len == 0 then some (null, arr) else none
  make_tree (suc fuel) t len i dim arr =
      let i' = (i + 1) % dim in
      let left : ℕ → List (List R) → Option (Node R × List (List R)) =
        λ n a. make_tree fuel t (n - t) i' dim a in
      let right : ℕ → List (List R) → Option (Node R × List (List R)) =
        λ n a. make_tree fuel (n + 1) (t + len - (n + 1)) i' dim a in
      if len == 0 then some (null, arr) else elim (find_median (suc len) t (t + len) i arr) [
        | none ↦ none
        | some (none, arr1) ↦ some (null, arr1)
        | some (some n, arr1) ↦ elim (left n arr1) [
          | none ↦ none
          | some (l, arr2) ↦ elim (right n arr2) [
            | none ↦ none
            | some (r, arr3) ↦ some (node (at arr3 n) l r, arr3)
          ]
        ]
      ]
