-- ===== src/Sorting/HeapOrder.antt =====
-- sort.h: `DownFilter` puts a heap with one element out of place in order.
use xteam.Prelude.{
  ℕ, zero, suc, ◌+◌, ◌-◌, ◌*◌, ◌≤◌, ◌<◌, ◌≡◌, refl, ◌≢◌, ◌⊎◌, inl, inr, true, List, arith, ltb,
  ◌==◌, if◌then◌else◌, Bool-cases, length,
}
use xteam.Arrays.Order.{Order, at, le, le_refl, le_of_lt, le_chain}
use xteam.Arrays.Swap.{swap, length-swap, at-swap}
use xteam.Sorting.Heap.{down_from}
use xteam.Arrays.Moved.{IsMovedWithin, IsMovedWithin-refl, IsMovedWithin-trans, swap-IsMovedWithin}

-- `c` is a child of `p`.
abbrev pub IsChild : ℕ → ℕ → Type 0
IsChild c p = (c ≡ 2 * p + 1) ⊎ (c ≡ 2 * p + 2)

module _ {T : Type 0} ⦃o : Order T⦄ where
  -- From `lo` on no child that stands below `len` is greater than its parent.
  abbrev pub IsHeapFrom : ℕ → ℕ → List T → Type 0
  IsHeapFrom lo len arr =
      (p c : ℕ) → lo ≤ p → c < len → IsChild c p → le (at arr c) (at arr p) ≡ true

  -- The same for all parents but `hole`, whose children are not greater than its parent.
  abbrev pub IsHeapExcept : ℕ → ℕ → ℕ → List T → Type 0
  IsHeapExcept lo len hole arr =
      ((p c : ℕ) → lo ≤ p → p ≢ hole → c < len → IsChild c p → le (at arr c) (at arr p) ≡ true)
      × ((p c : ℕ)
          → lo ≤ p
          → IsChild hole p
          → c < len
          → IsChild c hole
          → le (at arr c) (at arr p) ≡ true)

  -- The exchange of a parent with its greatest child moves the hole there.
  swap-IsHeapExcept :
      (lo len hole max : ℕ) (arr : List T)
      → IsHeapExcept lo len hole arr
      → lo ≤ hole
      → IsChild max hole
      → max < len
      → len ≤ length arr
      → o.lt (at arr hole) (at arr max) ≡ true
      → ((c : ℕ) → c < len → IsChild c hole → le (at arr c) (at arr max) ≡ true)
      → IsHeapExcept lo len max (swap max hole arr)
  swap-IsHeapExcept lo len hole max arr (order, above) h1 child h2 h3 less greatest =
      let read = λ (k : ℕ). at-swap max hole k arr (omega arith) (omega arith) in
      let less' = le_of_lt (at arr hole) (at arr max) less in
      (
        λ p c a ne b ch. elim (Bool-cases (p == hole)) [
          | inl e ↦ ground (arith, read p, read c, greatest c, less')
          | inr e ↦ elim (Bool-cases (c == hole)) [
            | inl f ↦ ground (arith, read p, read c, above p max)
            | inr f ↦ ground (arith, read p, read c, order p c)
          ]
        ],
        λ p c a ch b ch'.
            let same : p ≡ hole = ground arith in ground (arith, read p, read c, order max c),
      )

  -- Where the hole's children are not greater than it, it is none.
  filled-IsHeapFrom :
      (lo len hole : ℕ) (arr : List T)
      → IsHeapExcept lo len hole arr
      → ((c : ℕ) → c < len → IsChild c hole → le (at arr c) (at arr hole) ≡ true)
      → IsHeapFrom lo len arr
  filled-IsHeapFrom lo len hole arr (order, above) fits = λ p c a b ch.
      elim (Bool-cases (p == hole)) [
        | inl e ↦ (let same : p ≡ hole = ground arith in rw same (fits c b (ground arith)))
        | inr e ↦ order p c a (ground arith) b ch
      ]

  pub down_from_lem :
      (n lo len hole : ℕ) (arr : List T)
      → IsHeapExcept lo len hole arr
      → lo ≤ hole
      → len ≤ length arr
      → len - hole < n
      → let arr' = down_from n len hole arr in
        IsHeapFrom lo len arr' × IsMovedWithin lo (len - 1) arr arr'
  unfolding down_from
  down_from_lem zero lo len hole arr inv h1 h2 fuel = absurd (omega arith)
  down_from_lem (suc n) lo len hole arr inv h1 h2 fuel =
      let left = 2 * hole + 1 in
      let right = 2 * hole + 2 in
      let max = if o.lt (at arr right) (at arr left) then left else right in
      let still = IsMovedWithin-refl lo (len - 1) arr in
      elim (Bool-cases (ltb left len)) [
        | inr e ↦
            rw e (filled-IsHeapFrom lo len hole arr inv (λ c b ch. absurd (ground arith)), still)
        | inl e ↦ elim (Bool-cases (ltb right len)) [
          | inl f ↦
              let child : IsChild max hole = ground arith in
              let inside : max < len = ground arith in
              let greatest : (c : ℕ)
                  → c < len
                  → IsChild c hole
                  → le (at arr c) (at arr max) ≡ true =
                λ c b ch.
                  ground (arith, le_refl (at arr max), le_of_lt (at arr right) (at arr left)) in
              elim (Bool-cases (o.lt (at arr hole) (at arr max))) [
                | inl g ↦
                    let arr' = swap max hole arr in
                    let (heap, moved) =
                      down_from_lem n lo len max arr'
                        (swap-IsHeapExcept lo len hole max arr inv h1 child inside h2 g greatest)
                        (ground arith) (omega (arith, length-swap max hole arr)) (ground arith) in
                    rw e (
                      rw f (
                        rw g (
                          heap,
                          IsMovedWithin-trans lo (len - 1) arr arr' (down_from n len max arr')
                              (swap-IsMovedWithin lo (len - 1) max hole arr (ground arith)
                                (omega arith) h1 (ground arith) (omega arith))
                              moved,
                        )))
                | inr g ↦ rw e (
                    rw f (
                      rw g (
                        filled-IsHeapFrom lo len hole arr inv (λ c b ch.
                            le_chain (at arr c) (at arr max) (at arr hole) (greatest c b ch)
                              (ground arith)),
                        still,
                      )))
              ]
          | inr f ↦ elim (Bool-cases (o.lt (at arr hole) (at arr left))) [
            | inl g ↦
                let inside : left < len = ground arith in
                rw e (
                  rw f (
                    rw g (
                      filled-IsHeapFrom lo len left (swap left hole arr)
                          (swap-IsHeapExcept lo len hole left arr inv h1 (inl refl) inside h2 g
                            (λ c b ch. ground (arith, le_refl (at arr left))))
                          (λ c b ch. absurd (ground arith)),
                      swap-IsMovedWithin lo (len - 1) left hole arr (omega arith) (omega arith) h1
                          (omega arith) (omega arith),
                    )))
            | inr g ↦ rw e (
                rw f (rw g (filled-IsHeapFrom lo len hole arr inv (λ c b ch. ground arith), still)))
          ]
        ]
      ]
