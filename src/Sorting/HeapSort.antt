-- ===== src/Sorting/HeapSort.antt =====
-- sort.h: `SortHeap`.
use xteam.Prelude.{
  ℕ, zero, suc, ◌+◌, ◌-◌, ◌/◌, ◌≤◌, ◌<◌, ◌≡◌, refl, ◌∙◌, inl, inr, true, List, arith, ◌==◌,
  Bool-cases, length,
}
use xteam.Arrays.Order.{Order, at, le, IsSorted, IsSortedOn, IsBelow, SameItems, le_refl, le_chain}
use xteam.Arrays.Swap.{swap, length-swap, at-swap, swap-SameItems}
use xteam.Sorting.Heap.{down_from, down_filter, build_heap, extract_all, sort_heap}
use xteam.Arrays.Moved.{IsMovedWithin}
use xteam.Sorting.HeapOrder.{IsChild, IsHeapFrom, IsHeapExcept, down_from_lem}

module _ {T : Type 0} ⦃o : Order T⦄ where
  down_filter_lem :
      (lo len index : ℕ) (arr : List T)
      → IsHeapExcept lo len index arr
      → lo ≤ index
      → len ≤ length arr
      → IsHeapFrom lo len (down_filter len index arr)
        × IsMovedWithin lo (len - 1) arr (down_filter len index arr)
  unfolding down_filter
  down_filter_lem lo len index arr inv h k =
      down_from_lem (len + 1) lo len index arr inv h k (omega arith)

  build_heap_lem :
      (n len : ℕ) (arr : List T)
      → IsHeapFrom n len arr
      → len ≤ length arr
      → let arr' = build_heap n len arr in
        IsHeapFrom 0 len arr' × (length arr' ≡ length arr) × SameItems arr' arr
  unfolding build_heap
  build_heap_lem zero len arr heap h = (heap, refl, λ P. refl)
  build_heap_lem (suc i) len arr heap h =
      let (heap', (len', same, items, kept)) =
        down_filter_lem i len i arr
          (λ p c a ne b ch. heap p c (ground arith) b ch, λ p c a ch b ch'. absurd (ground arith))
          (omega arith) h in
      let (all, len'', items') = build_heap_lem i len (down_filter len i arr) heap' (omega arith) in
      (all, len'' ∙ len', λ P. items' P ∙ items P)

  -- Nothing in a heap is greater than its first element.
  heap_root :
      (n c len : ℕ) (arr : List T)
      → IsHeapFrom 0 len arr
      → c ≤ n
      → c < len
      → le (at arr c) (at arr 0) ≡ true
  heap_root zero c len arr heap h k =
      let first : c ≡ 0 = omega arith in rw first (le_refl (at arr 0))
  heap_root (suc n) c len arr heap h k = elim (Bool-cases (c == 0)) [
    | inl e ↦ (let first : c ≡ 0 = ground arith in rw first (le_refl (at arr 0)))
    | inr e ↦
        let p = (c - 1) / 2 in
        let positive : 0 < c = ground arith in
        let child : IsChild c p = ground arith in
        le_chain (at arr c) (at arr p) (at arr 0) (heap p c (omega arith) k child)
          (heap_root n p len arr heap (omega arith) (omega arith))
  ]

  -- Behind the heap nothing moves.
  down_filter_behind :
      (index k : ℕ) (arr : List T)
      → IsMovedWithin 0 (index - 1) arr (down_filter index 0 arr)
      → index ≤ k
      → at (down_filter index 0 arr) k ≡ at arr k
  unfolding down_filter down_from
  down_filter_behind zero k arr moved h = refl
  down_filter_behind (suc i) k arr moved h = moved.1 k (inr (omega arith))

  extract_all_lem :
      (m : ℕ) (arr : List T)
      → m ≤ length arr
      → IsHeapFrom 0 m arr
      → IsSortedOn m (length arr) arr
      → IsBelow 0 m m (length arr) arr
      → let arr' = extract_all m arr in
        (length arr' ≡ length arr) × IsSorted arr' × SameItems arr' arr
  unfolding extract_all
  extract_all_lem zero arr h heap sorted below = (refl, sorted, λ P. refl)
  extract_all_lem (suc index) arr h heap sorted below =
      let arr' = swap index 0 arr in
      let arr'' = down_filter index 0 arr' in
      let read = λ (k : ℕ). at-swap index 0 k arr (omega arith) (omega arith) in
      let root =
        λ (k : ℕ) (lt : k < suc index). heap_root k k (suc index) arr heap (omega arith) lt in
      let len' = length-swap index 0 arr in
      let (heap', moved) =
        down_filter_lem 0 index 0 arr'
          (
            λ p c a ne b ch. ground (arith, read p, read c, heap p c),
            λ p c a ch b ch'. absurd (ground arith),
          )
          (omega arith) (omega arith) in
      let behind = λ (k : ℕ) (le : index ≤ k). down_filter_behind index k arr' moved le in
      let (len'', sorted'', items'') =
        extract_all_lem index arr'' (omega (arith, moved.0)) heap'
          (λ a b x y z. rw (behind a x) (
            rw (behind b (omega arith))
              (ground (arith, read a, read b, sorted a b, below 0 b, le_refl (at arr 0)))))
          (λ a b x y z t. rw (behind b z) (
            moved.3 (λ v. le v (at arr' b))
              (λ k u v.
                ground (arith, read k, read b, root k, root index, below k b, below index b))
              a x (omega arith))) in
      (
        len'' ∙ moved.0 ∙ len',
        sorted'',
        λ P. items'' P ∙ moved.2 P ∙ swap-SameItems index 0 arr (omega arith) (omega arith) P,
      )

  -- The array that heap sort leaves ascends and holds the same elements, as often.
  pub sort_heap_lem : (arr : List T) → IsSorted (sort_heap arr) × SameItems (sort_heap arr) arr
  unfolding sort_heap
  sort_heap_lem arr =
      let n = length arr in
      let heap = build_heap (n / 2) n arr in
      let (built, len, items) =
        build_heap_lem (n / 2) n arr (λ p c a b ch. absurd (ground arith)) (omega arith) in
      let (len', sorted, items') =
        extract_all_lem n heap (omega arith) built (λ a b x y z. absurd (omega arith))
          (λ a b x y z t. absurd (omega arith)) in
      (sorted, λ P. items' P ∙ items P)
