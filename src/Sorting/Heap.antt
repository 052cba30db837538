-- ===== src/Sorting/Heap.antt =====
-- sort.h: `DownFilter` and `SortHeap`, on a heap with its greatest element in front.
use xteam.Prelude.{ℕ, zero, suc, ◌+◌, ◌*◌, ◌/◌, List, ltb, if◌then◌else◌, length}
use xteam.Arrays.Order.{Order, at}
use xteam.Arrays.Swap.{swap}

module _ {T : Type 0} ⦃o : Order T⦄ where
  -- The loop of `DownFilter`, at most `n` rounds; `left` and `right` are `2 * parent + 1` and `+ 2`.
  unfoldable pub down_from : ℕ → ℕ → ℕ → List T → List T
  unfolding swap
  down_from zero len parent arr = arr
  down_from (suc n) len parent arr =
      let left = 2 * parent + 1 in
      let right = 2 * parent + 2 in
      let max = if o.lt (at arr right) (at arr left) then left else right in
      let rest = down_from n len max (swap max parent arr) in
      if ltb left len
      then (if ltb right len
          then (if o.lt (at arr parent) (at arr max) then rest else arr)
          else if o.lt (at arr parent) (at arr left)
          then swap left parent arr
          else arr)
      else arr

  -- `DownFilter`
  unfoldable pub down_filter : ℕ → ℕ → List T → List T
  unfolding down_from
  down_filter len index arr = down_from (len + 1) len index arr

  -- The loop that builds the heap, over the indices below `n`, the greatest first.
  unfoldable pub build_heap : ℕ → ℕ → List T → List T
  unfolding down_filter
  build_heap zero len arr = arr
  build_heap (suc i) len arr = build_heap i len (down_filter len i arr)

  -- The loop that moves the greatest to the end of what is left of the heap.
  unfoldable pub extract_all : ℕ → List T → List T
  unfolding down_filter swap
  extract_all zero arr = arr
  extract_all (suc index) arr = extract_all index (down_filter index 0 (swap index 0 arr))

  -- `SortHeap`
  unfoldable pub sort_heap : List T → List T
  unfolding build_heap extract_all
  sort_heap arr = extract_all (length arr) (build_heap (length arr / 2) (length arr) arr)
