-- ===== src/Arrays/Split.antt =====
-- Ranges of an array around a pivot.
use xteam.Prelude.{ℕ, ◌+◌, ◌-◌, ◌≤◌, ◌≡◌, inl, inr, true, List, arith, ltb, ◌==◌, Bool-cases}
use xteam.Arrays.Order.{Order, at, le, IsSortedOn, le_chain}
use xteam.Arrays.Moved.{IsMovedWithin, IsMovedWithin-widen}

module _ {T : Type 0} ⦃o : Order T⦄ where
  -- Nothing up to `index` is greater than the pivot, and nothing from it on is less.
  abbrev pub IsSplit : ℕ → ℕ → ℕ → T → List T → Type 0
  IsSplit lo hi index pivot arr =
      ((k : ℕ) → lo ≤ k → k ≤ index → le (at arr k) pivot ≡ true)
      × ((k : ℕ) → index ≤ k → k ≤ hi → le pivot (at arr k) ≡ true)

  -- The sort of the left part keeps that, also where `index` is 0, and that of the right part does.
  pub left-IsSplit :
      (lo hi index : ℕ) (pivot : T) (arr arr' : List T)
      → lo ≤ index
      → IsSplit lo hi index pivot arr
      → IsMovedWithin lo (index - 1) arr arr'
      → IsSplit lo hi index pivot arr'
  left-IsSplit lo hi index pivot arr arr' h (low, high) moved =
      let (len, same, items, kept) =
        IsMovedWithin-widen lo lo (index - 1) index arr arr' (omega arith) (omega arith) moved in
      (
        kept (λ x. le x pivot) low,
        λ k a b. elim (Bool-cases (ltb (index - 1) k)) [
          | inl e ↦ rw (moved.1 k (inr (ground arith))) (high k a b)
          | inr e ↦
              moved.3 (λ x. le pivot x) (λ i x y. high i (ground arith) (ground arith)) k
                (ground arith) (ground arith)
        ],
      )

  pub right-IsSplit :
      (lo hi index : ℕ) (pivot : T) (arr arr' : List T)
      → IsSplit lo hi index pivot arr
      → IsMovedWithin (index + 1) hi arr arr'
      → IsSplit lo hi index pivot arr'
  right-IsSplit lo hi index pivot arr arr' (low, high) (len, same, items, kept) = (
    λ k a b. rw (same k (inl (omega arith))) (low k a b),
    λ k a b. elim (Bool-cases (k == index)) [
      | inl e ↦ rw (same k (inl (ground arith))) (high k a b)
      | inr e ↦ kept (λ x. le pivot x) (λ i x y. high i (omega arith) y) k (ground arith) b
    ],
  )

  -- A split run whose parts ascend ascends.
  pub split-IsSortedOn :
      (lo hi index : ℕ) (pivot : T) (arr arr' : List T)
      → IsSortedOn lo index arr
      → IsMovedWithin (index + 1) hi arr arr'
      → IsSortedOn (index + 1) (hi + 1) arr'
      → IsSplit lo hi index pivot arr'
      → IsSortedOn lo (hi + 1) arr'
  split-IsSortedOn lo hi index pivot arr arr' s1 (len, same, items, kept) s2 (low, high) =
      λ a b x y z. elim (Bool-cases (ltb b index)) [
        | inl e ↦
            rw (same a (inl (ground arith)))
              (rw (same b (inl (ground arith))) (s1 a b x y (ground arith)))
        | inr e ↦ elim (Bool-cases (ltb index a)) [
          | inl f ↦ s2 a b (ground arith) y z
          | inr f ↦
              le_chain (at arr' a) pivot (at arr' b) (low a x (ground arith))
                (high b (ground arith) (omega arith))
        ]
      ]
