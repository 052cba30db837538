-- ===== src/Sorting/Quick.antt =====
-- sort.h: `Partition`, `DoSortQuick` and `SortQuick`. The loops of `Partition` and the nested calls run
-- on fuel; `none` is a run that did not come to its end.
use xteam.Prelude.{
  ℕ, zero, suc, ◌+◌, ◌-◌, not, ◌&&◌, Option, none, some, List, ltb, leb, ◌==◌, if◌then◌else◌,
  length, ◌>>=◌,
}
use xteam.Arrays.Order.{Order, at}
use xteam.Arrays.Swap.{swap}

module _ {T : Type 0} ⦃o : Order T⦄ where
  -- The loop that moves `end` down, at most `n` times, past what is greater than the pivot.
  unfoldable pub move_down : ℕ → T → ℕ → ℕ → List T → ℕ
  move_down zero pivot start end arr = end
  move_down (suc n) pivot start end arr =
      let rest = move_down n pivot start (end - 1) arr in
      if not (start == end) && o.lt pivot (at arr end) then rest else end

  -- The loop that moves `start` up, past what is less.
  unfoldable pub move_up : ℕ → T → ℕ → ℕ → List T → ℕ
  move_up zero pivot start end arr = start
  move_up (suc n) pivot start end arr =
      let rest = move_up n pivot (start + 1) end arr in
      if not (start == end) && o.lt (at arr start) pivot then rest else start

  -- The loop of `Partition`.
  unfoldable pub partition_loop : ℕ → T → ℕ → ℕ → List T → Option (ℕ × List T)
  unfolding move_down move_up swap
  partition_loop zero pivot start end arr = none
  partition_loop (suc n) pivot start end arr =
      let end' = move_down (end - start) pivot start end arr in
      let start' = move_up (end' - start) pivot start end' arr in
      let rest = partition_loop n pivot start' end' (swap start' end' arr) in
      if start == end
      then some (start, arr)
      else if leb end' start'
      then some (start', arr)
      else rest

  -- `Partition`
  unfoldable pub partition : ℕ → ℕ → ℕ → List T → Option (ℕ × List T)
  unfolding partition_loop
  partition n start end arr = partition_loop n (at arr start) start end arr

  -- `DoSortQuick`, with fuel `m` for each `Partition` and `n` the deepest the calls may nest. Where
  -- `index` is 0 the source's `index - 1` is -1: both are at most `start`, which is 0.
  unfoldable pub do_sort_quick : ℕ → ℕ → ℕ → ℕ → List T → Option (List T)
  unfolding partition
  do_sort_quick m zero start end arr = none
  do_sort_quick m (suc n) start end arr =
      let sorted = do
        (index, arr1) ← partition m start end arr
        arr2 ← do_sort_quick m n start (index - 1) arr1
        do_sort_quick m n (index + 1) end arr2
      in if ltb start end then sorted else some arr

  -- `SortQuick`
  unfoldable pub sort_quick : ℕ → List T → Option (List T)
  unfolding do_sort_quick
  sort_quick n arr = do_sort_quick n n 0 (length arr - 1) arr
