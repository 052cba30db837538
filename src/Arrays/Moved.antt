-- ===== src/Arrays/Moved.antt =====
-- Changes that move elements of one range of an array only.
use xteam.Prelude.{
  ℕ, ◌≤◌, ◌<◌, ◌≡◌, refl, ◌∙◌, ◌⊎◌, inl, inr, Bool, true, ◌&&◌, List, arith, leb, Bool-cases,
  length,
}
use xteam.Arrays.Order.{Order, at, SameItems}
use xteam.Arrays.Swap.{swap, length-swap, at-swap, swap-SameItems}

module _ {T : Type 0} ⦃o : Order T⦄ where
  -- Only the elements from `lo` to `hi` moved, and each of them is one of those.
  abbrev pub IsMovedWithin : ℕ → ℕ → List T → List T → Type 0
  IsMovedWithin lo hi arr arr' =
      (length arr' ≡ length arr)
      × ((k : ℕ) → (k < lo) ⊎ (hi < k) → at arr' k ≡ at arr k)
      × SameItems arr' arr
      × ((P : T → Bool)
          → ((k : ℕ) → lo ≤ k → k ≤ hi → P (at arr k) ≡ true)
          → (k : ℕ) → lo ≤ k
          → k ≤ hi
          → P (at arr' k) ≡ true)

  pub IsMovedWithin-refl : (lo hi : ℕ) (arr : List T) → IsMovedWithin lo hi arr arr
  IsMovedWithin-refl lo hi arr = (refl, λ k a. refl, λ P. refl, λ P all. all)

  pub IsMovedWithin-trans :
      (lo hi : ℕ) (a b c : List T)
      → IsMovedWithin lo hi a b
      → IsMovedWithin lo hi b c
      → IsMovedWithin lo hi a c
  IsMovedWithin-trans lo hi a b c (l1, s1, i1, p1) (l2, s2, i2, p2) =
      (l2 ∙ l1, λ k out. s2 k out ∙ s1 k out, λ P. i2 P ∙ i1 P, λ P all. p2 P (p1 P all))

  pub IsMovedWithin-widen :
      (lo lo' hi hi' : ℕ) (a b : List T)
      → lo' ≤ lo
      → hi ≤ hi'
      → IsMovedWithin lo hi a b
      → IsMovedWithin lo' hi' a b
  IsMovedWithin-widen lo lo' hi hi' a b h1 h2 (len, same, items, kept) = (
    len,
    λ k out. same k (ground arith),
    items,
    λ P all k x y. elim (Bool-cases (leb lo k && leb k hi)) [
      | inl e ↦
          kept P (λ k' x' y'. all k' (omega arith) (omega arith)) k (ground arith) (ground arith)
      | inr e ↦ rw (same k (ground arith)) (all k x y)
    ],
  )

  pub swap-IsMovedWithin :
      (lo hi i j : ℕ) (arr : List T)
      → lo ≤ i
      → i ≤ hi
      → lo ≤ j
      → j ≤ hi
      → hi < length arr
      → IsMovedWithin lo hi arr (swap i j arr)
  swap-IsMovedWithin lo hi i j arr a b c d h =
      let read = λ (k : ℕ). at-swap i j k arr (omega arith) (omega arith) in
      (
        length-swap i j arr,
        λ k out. ground (arith, read k),
        swap-SameItems i j arr (omega arith) (omega arith),
        λ P all k x y. ground (arith, read k, all i, all j, all k),
      )
