-- ===== src/Sorting/Merging.antt =====
-- sort.h: `DoSortMerge` and `SortMerge`, on the array and the second array beside it. A length of an
-- array is taken to be below 2^30, so that `start + end` does not leave the range of an int.
use xteam.Prelude.{ℕ, zero, suc, ◌+◌, ◌-◌, ◌/◌, ◌&&◌, List, leb, if◌then◌else◌, length, set}
use xteam.Arrays.Order.{Order, at}

module _ {T : Type 0} ⦃o : Order T⦄ where
  -- The loops that copy one run: `n` elements of `src` from `l` on, to `i` on in `dst`.
  unfoldable pub copy_run : ℕ → ℕ → ℕ → List T → List T → List T
  copy_run zero l i src dst = dst
  copy_run (suc n) l i src dst = copy_run n (l + 1) (i + 1) src (set dst i (at src l))

  -- The loops that merge the run from `left1` to `right1` and the one from `left2` to `right2`, to
  -- `index` on, in at most `n` rounds of the first.
  unfoldable pub merge_runs : ℕ → ℕ → ℕ → ℕ → ℕ → ℕ → List T → List T → List T
  unfolding copy_run
  merge_runs zero left1 right1 left2 right2 index arr assist = assist
  merge_runs (suc n) left1 right1 left2 right2 index arr assist =
      let first =
        merge_runs n (left1 + 1) right1 left2 right2 (index + 1) arr
          (set assist index (at arr left1)) in
      let second =
        merge_runs n left1 right1 (left2 + 1) right2 (index + 1) arr
          (set assist index (at arr left2)) in
      let n1 = right1 + 1 - left1 in
      let n2 = right2 + 1 - left2 in
      if leb left1 right1 && leb left2 right2
      then if o.lt (at arr left1) (at arr left2) then first else second
      else copy_run n2 left2 (index + n1) arr (copy_run n1 left1 index arr assist)

  -- `DoSortMerge`, with `n` the deepest the calls may nest.
  unfoldable pub do_sort_merge : ℕ → ℕ → ℕ → List T × List T → List T × List T
  unfolding merge_runs copy_run
  do_sort_merge zero start end (arr, assist) = (arr, assist)
  do_sort_merge (suc n) start end (arr, assist) =
      let mid = (start + end) / 2 in
      let (arr', assist') =
        do_sort_merge n (mid + 1) end (do_sort_merge n start mid (arr, assist)) in
      let merged = merge_runs (end + 1 - start + 1) start mid (mid + 1) end start arr' assist' in
      if leb end start
      then (arr, assist)
      else (copy_run (end + 1 - start) start start merged arr', merged)

  -- `SortMerge`, with what the new second array holds.
  unfoldable pub sort_merge : List T → List T → List T
  unfolding do_sort_merge
  sort_merge assist arr = (do_sort_merge (length arr) 0 (length arr - 1) (arr, assist)).0
