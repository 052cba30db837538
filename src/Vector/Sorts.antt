-- ===== src/Vector/Sorts.antt =====
-- vector.h: the protected sorting methods, which change `_elem` between the ranks `lo` and `hi`,
-- without `hi`.
use xteam.Prelude.{ℕ, zero, suc, ◌+◌, ◌-◌, List, ltb, leb, if◌then◌else◌}
use xteam.Arrays.Order.{Order, at}
use xteam.Arrays.Swap.{swap}

module _ {T : Type 0} ⦃o : Order T⦄ where
  -- The loop of `bubble`, `n` rounds from `idx` on.
  unfoldable pub bubble_from : ℕ → ℕ → ℕ → List T → ℕ × List T
  unfolding swap
  bubble_from zero last_swap idx elem = (last_swap, elem)
  bubble_from (suc n) last_swap idx elem =
      let swaps = o.lt (at elem idx) (at elem (idx - 1)) in
      bubble_from n (if swaps then idx else last_swap) (idx + 1)
        (if swaps then swap (idx - 1) idx elem else elem)

  -- `bubble`
  unfoldable pub bubble : ℕ → ℕ → List T → ℕ × List T
  unfolding bubble_from
  bubble lo hi elem = bubble_from (hi - (lo + 1)) lo (lo + 1) elem

  -- `bubbleSort`, at most `n` rounds.
  unfoldable pub bubble_sort : ℕ → ℕ → ℕ → List T → List T
  unfolding bubble
  bubble_sort zero lo hi elem = elem
  bubble_sort (suc n) lo hi elem =
      let (hi', elem') = bubble lo hi elem in
      let rest = bubble_sort n lo hi' elem' in if ltb lo hi' then rest else elem'

  -- `max`: the loop goes down from `idx` to `lo`, in `n` rounds.
  unfoldable pub max_from : ℕ → ℕ → ℕ → List T → ℕ
  max_from zero max_idx idx elem = max_idx
  max_from (suc n) max_idx idx elem =
      max_from n (if o.lt (at elem max_idx) (at elem idx) then idx else max_idx) (idx - 1) elem

  unfoldable pub max : ℕ → ℕ → List T → ℕ
  unfolding max_from
  max lo hi elem = max_from (hi - 1 - lo) (hi - 1) (hi - 2) elem

  -- The inner loop of `insertionSort`: the element at `lo + n` goes down while it is less.
  unfoldable pub insert_down : ℕ → ℕ → List T → List T
  unfolding swap
  insert_down zero lo elem = elem
  insert_down (suc n) lo elem =
      let rest = insert_down n lo (swap (lo + n) (lo + suc n) elem) in
      if o.lt (at elem (lo + suc n)) (at elem (lo + n)) then rest else elem

  -- `insertionSort`, `n` rounds of the outer loop from `u_idx` on.
  unfoldable pub insertion_from : ℕ → ℕ → ℕ → List T → List T
  unfolding insert_down
  insertion_from zero lo u_idx elem = elem
  insertion_from (suc n) lo u_idx elem =
      insertion_from n lo (u_idx + 1) (insert_down (u_idx - lo) lo elem)

  unfoldable pub insertion_sort : ℕ → ℕ → List T → List T
  unfolding insertion_from
  insertion_sort lo hi elem = insertion_from (hi - (lo + 1)) lo (lo + 1) elem

  -- The loop of `partitionLGU`, `n` rounds from `k` on.
  unfoldable pub lgu_from : ℕ → ℕ → ℕ → T → List T → ℕ × List T
  unfolding swap
  lgu_from zero m k pivot elem = (m, elem)
  lgu_from (suc n) m k pivot elem =
      let less = o.lt (at elem k) pivot in
      lgu_from n (if less then m + 1 else m) (k + 1) pivot
        (if less then swap (m + 1) k elem else elem)

  -- `partitionLGU`
  unfoldable pub partition_lgu : ℕ → ℕ → List T → ℕ × List T
  unfolding lgu_from swap
  partition_lgu lo hi elem =
      let (m, elem') = lgu_from (hi - (lo + 1)) lo (lo + 1) (at elem lo) elem in
      (m, swap m lo elem')

  -- `quickSort`, with `n` the deepest the calls may nest.
  unfoldable pub quick_sort : ℕ → ℕ → ℕ → List T → List T
  unfolding partition_lgu
  quick_sort zero lo hi elem = elem
  quick_sort (suc n) lo hi elem =
      let (pivot, elem') = partition_lgu lo hi elem in
      let rest = quick_sort n (pivot + 1) hi (quick_sort n lo pivot elem') in
      if leb (hi - lo) 1 then elem else rest

  -- `sort`, on the range: `rand() % 1` is 0, and the only case is quick sort.
  unfoldable pub sort : ℕ → ℕ → List T → List T
  unfolding quick_sort
  sort lo hi elem = quick_sort (suc (hi - lo)) lo hi elem
