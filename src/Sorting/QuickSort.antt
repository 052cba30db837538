-- ===== src/Sorting/QuickSort.antt =====
-- sort.h: `SortQuick`, where it returns and where it does not.
use xteam.Prelude.{
  ℕ, zero, suc, ◌+◌, ◌-◌, ◌≤◌, ◌<◌, ◌≡◌, refl, sym, ◌⊎◌, inl, inr, true, false, none, some, List,
  arith, ltb, Bool-cases, length,
}
use xteam.Arrays.Order.{Order, at, IsSorted, IsSortedOn, SameItems, le_refl, le_of_lt}
use xteam.Arrays.Swap.{swap, length-swap, at-swap}
use xteam.Sorting.Quick.{move_down, move_up, partition_loop, partition, do_sort_quick, sort_quick}
use xteam.Sorting.Distinct.{IsDistinct}
use xteam.Arrays.Split.{IsSplit, left-IsSplit, right-IsSplit, split-IsSortedOn}
use xteam.Arrays.Moved.{IsMovedWithin, IsMovedWithin-refl, IsMovedWithin-trans, IsMovedWithin-widen}
use xteam.Sorting.Partition.{IsParted, partition_lem}

module _ {T : Type 0} ⦃o : Order T⦄ where
  parted-IsSplit :
      (lo hi index : ℕ) (pivot : T) (arr arr' : List T)
      → IsParted lo hi pivot arr (index, arr')
      → IsSplit lo hi index pivot arr'
  parted-IsSplit lo hi index pivot arr arr' (i1, i2, below, here, above, distinct, moved) = (
    λ k a b. ground (arith, below k, le_of_lt (at arr' k) pivot, le_refl pivot),
    λ k a b. ground (arith, above k, le_of_lt pivot (at arr' k), le_refl pivot),
  )

  do_sort_quick_lem :
      (m n start end : ℕ) (arr : List T)
      → (end < length arr) ⊎ (end ≤ start)
      → IsDistinct arr
      → length arr < m
      → end - start < n
      → (arr' : List T) × (do_sort_quick m n start end arr ≡ some arr')
        × IsDistinct arr'
        × IsSortedOn start (end + 1) arr'
        × IsMovedWithin start end arr arr'
  unfolding do_sort_quick
  do_sort_quick_lem m zero start end arr h distinct fuel depth = absurd (omega arith)
  do_sort_quick_lem m (suc n) start end arr h distinct fuel depth =
      elim (Bool-cases (ltb start end)) [
        | inr e ↦ rw e (
          arr,
          refl,
          distinct,
          λ a b x y z. (let same : a ≡ b = ground arith in rw same (le_refl (at arr b))),
          IsMovedWithin-refl start end arr,
        )
        | inl e ↦
            let pivot = at arr start in
            let inside : end < length arr = ground arith in
            let ((index, arr1), run1, parted) =
              partition_lem m start end arr (ground arith) inside distinct (omega arith) in
            let (i1, i2, below, here, above, distinct1, moved1) = parted in
            let (arr2, run2, distinct2, sorted2, moved2) =
              do_sort_quick_lem m n start (index - 1) arr1 (inl (omega (arith, moved1.0))) distinct1
                (omega (arith, moved1.0)) (ground arith) in
            let (arr3, run3, distinct3, sorted3, moved3) =
              do_sort_quick_lem m n (index + 1) end arr2 (inl (omega (arith, moved1.0, moved2.0)))
                distinct2 (omega (arith, moved1.0, moved2.0)) (ground arith) in
            rw e (
              rw run1 (
                rw run2 (
                  arr3,
                  run3,
                  distinct3,
                  split-IsSortedOn start end index pivot arr2 arr3
                      (λ a b x y z. sorted2 a b x y (omega arith)) moved3 sorted3
                      (right-IsSplit start end index pivot arr2 arr3
                        (left-IsSplit start end index pivot arr1 arr2 i1
                          (parted-IsSplit start end index pivot arr arr1 parted) moved2)
                        moved3),
                  IsMovedWithin-trans start end arr arr2 arr3
                      (IsMovedWithin-trans start end arr arr1 arr2 moved1 (
                        IsMovedWithin-widen start start (index - 1) end arr1 arr2 (omega arith)
                          (omega arith) moved2))
                      (IsMovedWithin-widen (index + 1) start end end arr2 arr3 (omega arith)
                        (omega arith) moved3),
                )))
      ]

  -- Where no two elements are equal, quick sort returns, on fuel of two more than there are elements:
  -- what it returns ascends and holds the same elements, as often.
  pub sort_quick_lem :
      (n : ℕ) (arr : List T)
      → IsDistinct arr
      → length arr + 1 < n
      → (arr' : List T) × (sort_quick n arr ≡ some arr') × IsSorted arr' × SameItems arr' arr
  unfolding sort_quick
  sort_quick_lem n arr distinct fuel =
      let (arr', run, distinct', sorted, (len, same, items, kept)) =
        do_sort_quick_lem n n 0 (length arr - 1) arr (ground arith) distinct (omega arith)
          (omega arith) in
      (arr', run, λ i j a b c. sorted i j a b (omega arith), items)

  move_down_stay :
      (n : ℕ) (pivot : T) (start end : ℕ) (arr : List T)
      → o.lt pivot (at arr end) ≡ false
      → move_down n pivot start end arr ≡ end
  unfolding move_down
  move_down_stay zero pivot start end arr h = refl
  move_down_stay (suc n) pivot start end arr h = rw h (ground arith)

  move_up_stay :
      (n : ℕ) (pivot : T) (start end : ℕ) (arr : List T)
      → o.lt (at arr start) pivot ≡ false
      → move_up n pivot start end arr ≡ start
  unfolding move_up
  move_up_stay zero pivot start end arr h = refl
  move_up_stay (suc n) pivot start end arr h = rw h (ground arith)

  -- The loop between two elements that are equal to the pivot exchanges them for ever.
  partition_loop_endless :
      (n start end : ℕ) (pivot : T) (arr : List T)
      → start < end
      → end < length arr
      → at arr start ≡ pivot
      → at arr end ≡ pivot
      → partition_loop n pivot start end arr ≡ none
  unfolding partition_loop
  partition_loop_endless zero start end pivot arr h k left right = refl
  partition_loop_endless (suc n) start end pivot arr h k left right =
      let down = move_down_stay (end - start) pivot start end arr (rw right (o.lt_irrefl pivot)) in
      let up = move_up_stay (end - start) pivot start end arr (rw left (o.lt_irrefl pivot)) in
      let read = λ (i : ℕ). at-swap start end i arr (omega arith) k in
      let rest =
        partition_loop_endless n start end pivot (swap start end arr) h
          (rw (length-swap start end arr) k) (ground (arith, read start))
          (ground (arith, read end)) in
      rw down (rw up (rw rest (ground arith)))

  -- Where the first element and the last, which are not the same one, are equal, quick sort does not
  -- return, however long it runs.
  pub sort_quick_endless :
      (n : ℕ) (arr : List T)
      → 1 < length arr
      → at arr 0 ≡ at arr (length arr - 1)
      → sort_quick n arr ≡ none
  unfolding sort_quick do_sort_quick partition
  sort_quick_endless zero arr h same = refl
  sort_quick_endless (suc n) arr h same =
      let go : ltb 0 (length arr - 1) ≡ true = ground arith in
      rw go (
        rw
          (partition_loop_endless (suc n) 0 (length arr - 1) (at arr 0) arr (omega arith)
            (omega arith) refl (sym same))
          refl)
