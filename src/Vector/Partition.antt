-- ===== src/Vector/Partition.antt =====
-- vector.h: `partitionLGU`, `quickSort` and `sort`.
use xteam.Prelude.{
  ℕ, zero, suc, ◌+◌, ◌-◌, ◌≤◌, ◌<◌, ◌≡◌, refl, ◌⊎◌, inl, inr, true, List, arith, leb, ◌==◌,
  Bool-cases, length,
}
use xteam.Arrays.Order.{Order, at, le, IsSortedOn, SameItems, le_refl, le_of_lt}
use xteam.Arrays.Swap.{swap, length-swap, at-swap}
use xteam.Arrays.Moved.{
  IsMovedWithin, IsMovedWithin-refl, IsMovedWithin-trans, IsMovedWithin-widen, swap-IsMovedWithin,
}
use xteam.Arrays.Split.{IsSplit, left-IsSplit, right-IsSplit, split-IsSortedOn}
use xteam.Vector.Sorts.{lgu_from, partition_lgu, quick_sort, sort}

module _ {T : Type 0} ⦃o : Order T⦄ where
  -- Behind the pivot at `lo`, what is less stands up to `m`, and what is not below `k`.
  abbrev IsLowerGreater : ℕ → ℕ → ℕ → T → List T → Type 0
  IsLowerGreater lo m k pivot elem =
      (at elem lo ≡ pivot)
      × ((i : ℕ) → lo < i → i ≤ m → o.lt (at elem i) pivot ≡ true)
      × ((i : ℕ) → m < i → i < k → le pivot (at elem i) ≡ true)

  lgu_from_lem :
      (n lo m k : ℕ) (pivot : T) (elem : List T)
      → IsLowerGreater lo m k pivot elem
      → lo ≤ m
      → m < k
      → k + n ≤ length elem
      → let (m', elem') = lgu_from n m k pivot elem in
        IsLowerGreater lo m' (k + n) pivot elem'
        × (lo ≤ m')
        × (m' < k + n)
        × IsMovedWithin lo (k + n - 1) elem elem'
  unfolding lgu_from
  lgu_from_lem zero lo m k pivot elem (here, lower, greater) h1 h2 h3 = (
    (here, lower, λ i a b. greater i a (omega arith)),
    h1,
    omega arith,
    IsMovedWithin-refl lo (k + 0 - 1) elem,
  )
  lgu_from_lem (suc n) lo m k pivot elem (here, lower, greater) h1 h2 h3 =
      elim (Bool-cases (o.lt (at elem k) pivot)) [
        | inl e ↦
            let elem1 = swap (m + 1) k elem in
            let read = λ (i : ℕ). at-swap (m + 1) k i elem (omega arith) (omega arith) in
            let ((here', lower', greater'), l1, l2, moved) =
              lgu_from_lem n lo (m + 1) (k + 1) pivot elem1
                (
                  ground (arith, read lo),
                  λ i a b. ground (arith, read i, lower i),
                  λ i a b. ground (arith, read i, greater i, greater (m + 1)),
                )
                (omega arith) (omega arith) (omega (arith, length-swap (m + 1) k elem)) in
            let elem2 = (lgu_from n (m + 1) (k + 1) pivot elem1).1 in
            rw (e, lgu_from)
              (
                (here', lower', λ i a b. greater' i a (omega arith)),
                l1,
                omega (arith, l2),
                IsMovedWithin-trans lo (k + suc n - 1) elem elem1 elem2
                    (swap-IsMovedWithin lo (k + suc n - 1) (m + 1) k elem (omega arith)
                      (omega arith) (omega arith) (omega arith) (omega arith))
                    (IsMovedWithin-widen lo lo (k + 1 + n - 1) (k + suc n - 1) elem1 elem2
                      (omega arith) (omega arith) moved),
              )
        | inr e ↦
            let ((here', lower', greater'), l1, l2, moved) =
              lgu_from_lem n lo m (k + 1) pivot elem
                (
                  here,
                  lower,
                  λ i a b. elim (Bool-cases (i == k)) [
                    | inl f ↦ (let same : i ≡ k = ground arith in rw same (ground arith))
                    | inr f ↦ greater i a (ground arith)
                  ],
                )
                h1 (omega arith) (omega arith) in
            let elem2 = (lgu_from n m (k + 1) pivot elem).1 in
            rw (e, lgu_from)
              (
                (here', lower', λ i a b. greater' i a (omega arith)),
                l1,
                omega (arith, l2),
                IsMovedWithin-widen lo lo (k + 1 + n - 1) (k + suc n - 1) elem elem2 (omega arith)
                    (omega arith) moved,
              )
      ]

  partition_lgu_lem :
      (lo hi : ℕ) (elem : List T)
      → lo < hi
      → hi ≤ length elem
      → let (m, elem') = partition_lgu lo hi elem in
        (lo ≤ m)
        × (m < hi)
        × IsSplit lo (hi - 1) m (at elem lo) elem'
        × IsMovedWithin lo (hi - 1) elem elem'
  unfolding partition_lgu
  partition_lgu_lem lo hi elem h k =
      let pivot = at elem lo in
      let n = hi - (lo + 1) in
      let m = (lgu_from n lo (lo + 1) pivot elem).0 in
      let elem1 = (lgu_from n lo (lo + 1) pivot elem).1 in
      let ((here, lower, greater), l1, l2, moved) =
        lgu_from_lem n lo lo (lo + 1) pivot elem
          (refl, λ i a b. absurd (omega arith), λ i a b. absurd (omega arith)) (omega arith)
          (omega arith) (omega arith) in
      let inside : hi - 1 < length elem1 = omega (arith, moved.0) in
      let read = λ (i : ℕ). at-swap m lo i elem1 (omega arith) (omega arith) in
      (
        l1,
        omega (arith, l2),
        (
          λ i a b. ground (
            arith,
            read i,
            lower i,
            lower m,
            le_refl pivot,
            le_of_lt (at elem1 i) pivot,
            le_of_lt (at elem1 m) pivot,
          ),
          λ i a b. ground (arith, read i, greater i, le_refl pivot),
        ),
        IsMovedWithin-trans lo (hi - 1) elem elem1 (swap m lo elem1)
            (IsMovedWithin-widen lo lo (lo + 1 + n - 1) (hi - 1) elem elem1 (omega arith)
              (omega arith) moved)
            (swap-IsMovedWithin lo (hi - 1) m lo elem1 l1 (omega arith) (omega arith) (omega arith)
              (omega arith)),
      )

  quick_sort_lem :
      (n lo hi : ℕ) (elem : List T)
      → hi ≤ length elem
      → hi - lo < n
      → let elem' = quick_sort n lo hi elem in
        IsSortedOn lo hi elem' × IsMovedWithin lo (hi - 1) elem elem'
  unfolding quick_sort
  quick_sort_lem zero lo hi elem h fuel = absurd (omega arith)
  quick_sort_lem (suc n) lo hi elem h fuel = elim (Bool-cases (leb (hi - lo) 1)) [
    | inl e ↦ rw e (
      λ a b x y z. (let same : a ≡ b = ground arith in rw same (le_refl (at elem b))),
      IsMovedWithin-refl lo (hi - 1) elem,
    )
    | inr e ↦
        let pivot = at elem lo in
        let m = (partition_lgu lo hi elem).0 in
        let elem1 = (partition_lgu lo hi elem).1 in
        let (l1, l2, split, moved1) = partition_lgu_lem lo hi elem (ground arith) h in
        let elem2 = quick_sort n lo m elem1 in
        let (sorted2, moved2) =
          quick_sort_lem n lo m elem1 (omega (arith, moved1.0)) (ground arith) in
        let elem3 = quick_sort n (m + 1) hi elem2 in
        let (sorted3, moved3) =
          quick_sort_lem n (m + 1) hi elem2 (omega (arith, moved1.0, moved2.0)) (ground arith) in
        let split3 =
          right-IsSplit lo (hi - 1) m pivot elem2 elem3
            (left-IsSplit lo (hi - 1) m pivot elem1 elem2 l1 split moved2) moved3 in
        let sorted : IsSortedOn lo (hi - 1 + 1) elem3 =
          split-IsSortedOn lo (hi - 1) m pivot elem2 elem3 sorted2 moved3
            (λ a b x y z. sorted3 a b x y (omega arith)) split3 in
        rw e (
          λ a b x y z. sorted a b x y (omega arith),
          IsMovedWithin-trans lo (hi - 1) elem elem2 elem3
              (IsMovedWithin-trans lo (hi - 1) elem elem1 elem2 moved1 (
                IsMovedWithin-widen lo lo (m - 1) (hi - 1) elem1 elem2 (omega arith) (omega arith)
                  moved2))
              (IsMovedWithin-widen (m + 1) lo (hi - 1) (hi - 1) elem2 elem3 (omega arith)
                (omega arith) moved3),
        )
  ]

  -- `sort` leaves the ranks from `lo` on, below `hi`, ascending, changes nothing outside of them, and
  -- keeps the elements, as often, where `hi` is not beyond the array.
  pub sort_lem :
      (lo hi : ℕ) (elem : List T)
      → hi ≤ length elem
      → let elem' = sort lo hi elem in
        IsSortedOn lo hi elem'
        × SameItems elem' elem
        × ((k : ℕ) → (k < lo) ⊎ (hi ≤ k) → at elem' k ≡ at elem k)
  unfolding sort quick_sort
  sort_lem lo hi elem h =
      let (sorted, (len, same, items, kept)) =
        quick_sort_lem (suc (hi - lo)) lo hi elem h (omega arith) in
      (
        sorted,
        items,
        λ k out. elim (Bool-cases (leb (hi - lo) 1)) [
          | inl e ↦ rw e refl
          | inr e ↦ same k (ground arith)
        ],
      )
