-- ===== src/Sorting/Partition.antt =====
-- sort.h: `Partition` returns where no two elements are equal, with the pivot in its place.
use xteam.Prelude.{
  ℕ, zero, suc, ◌+◌, ◌-◌, ◌≤◌, ◌<◌, ◌≡◌, refl, sym, ◌⊎◌, inl, inr, true, false, some, List, arith,
  leb, ◌==◌, if◌then◌else◌, Bool-cases, length,
}
use xteam.Arrays.Order.{Order, at}
use xteam.Arrays.Swap.{swap, length-swap, at-swap}
use xteam.Sorting.Quick.{move_down, move_up, partition_loop, partition}
use xteam.Sorting.Distinct.{IsDistinct, swap-IsDistinct}
use xteam.Arrays.Moved.{IsMovedWithin, IsMovedWithin-refl, IsMovedWithin-trans, swap-IsMovedWithin}
use xteam.Sorting.Parted.{IsParting, moves-IsParting}

module _ {T : Type 0} ⦃o : Order T⦄ where
  swap-IsParting :
      (lo s p e hi : ℕ) (pivot : T) (arr : List T)
      → IsParting lo s p e hi pivot arr
      → s < e
      → o.lt (at arr s) pivot ≡ false
      → o.lt pivot (at arr e) ≡ false
      → let arr' = swap s e arr in
        ((p' : ℕ) × IsParting lo s p' e hi pivot arr')
        × ((o.lt (at arr' s) pivot ≡ true) ⊎ (o.lt pivot (at arr' e) ≡ true))
  swap-IsParting lo s p e hi pivot arr (h1, h2, h3, h4, h5, here, below, above, distinct) h hs he =
      let read = λ (k : ℕ). at-swap s e k arr (omega arith) (omega arith) in
      let p' = if p == s then e else if p == e then s else p in
      (
        (
          p',
          (
            h1,
            ground arith,
            ground arith,
            h4,
            omega (arith, length-swap s e arr),
            ground (arith, read p'),
            λ k a b. ground (arith, read k, below k),
            λ k a b. ground (arith, read k, above k),
            swap-IsDistinct s e arr (omega arith) (omega arith) distinct,
          ),
        ),
        ground (arith, read s, read e, distinct s p, distinct e p),
      )

  -- What `Partition` leaves: the pivot at `index`, between what is less and what is greater.
  abbrev pub IsParted : ℕ → ℕ → T → List T → ℕ × List T → Type 0
  IsParted lo hi pivot arr (index, arr') =
      (lo ≤ index)
      × (index ≤ hi)
      × ((k : ℕ) → lo ≤ k → k < index → o.lt (at arr' k) pivot ≡ true)
      × (at arr' index ≡ pivot)
      × ((k : ℕ) → index < k → k ≤ hi → o.lt pivot (at arr' k) ≡ true)
      × IsDistinct arr'
      × IsMovedWithin lo hi arr arr'

  partition_loop_lem :
      (n lo start p end hi : ℕ) (pivot : T) (arr : List T)
      → IsParting lo start p end hi pivot arr
      → (end - start + 1 < n)
        ⊎ ((end - start < n)
            × ((o.lt (at arr start) pivot ≡ true) ⊎ (o.lt pivot (at arr end) ≡ true)))
      → (r : ℕ × List T) × (partition_loop n pivot start end arr ≡ some r)
        × IsParted lo hi pivot arr r
  unfolding partition_loop
  partition_loop_lem zero lo start p end hi pivot arr inv fuel = absurd (ground arith)
  partition_loop_lem (suc n) lo start p end hi pivot arr inv fuel =
      let e = move_down (end - start) pivot start end arr in
      let s = move_up (e - start) pivot start e arr in
      let (h1, h2, h3, h4, h5, here, below, above, distinct) = inv in
      elim (Bool-cases (start == end)) [
        | inl q ↦
            let same : p ≡ start = ground arith in
            rw q (
              (start, arr),
              refl,
              (
                h1,
                omega arith,
                below,
                rw (sym same) here,
                λ k a b. above k (ground arith) b,
                distinct,
                IsMovedWithin-refl lo hi arr,
              ),
            )
        | inr q ↦
            let (inv', h6, h7, stop) = moves-IsParting lo start p end hi pivot arr inv in
            let (g1, g2, g3, g4, g5, here', below', above', distinct') = inv' in
            elim (Bool-cases (leb e s)) [
              | inl t ↦
                  let same : p ≡ s = ground arith in
                  rw q (
                    rw t (
                      (s, arr),
                      refl,
                      (
                        g1,
                        omega arith,
                        below',
                        rw (sym same) here',
                        λ k a b. above' k (ground arith) b,
                        distinct',
                        IsMovedWithin-refl lo hi arr,
                      ),
                    ))
              | inr t ↦
                  let left : o.lt (at arr s) pivot ≡ false = ground arith in
                  let right : o.lt pivot (at arr e) ≡ false = ground arith in
                  let fuel' : e - s < n = ground arith in
                  let ((p', inv''), progress) =
                    swap-IsParting lo s p e hi pivot arr inv' (ground arith) left right in
                  let ((index, arr'), runs, (k1, k2, k3, k4, k5, k6, moved)) =
                    partition_loop_lem n lo s p' e hi pivot (swap s e arr) inv''
                      (inr (fuel', progress)) in
                  rw q (
                    rw t (
                      (index, arr'),
                      runs,
                      (
                        k1,
                        k2,
                        k3,
                        k4,
                        k5,
                        k6,
                        IsMovedWithin-trans lo hi arr (swap s e arr) arr'
                            (swap-IsMovedWithin lo hi s e arr g1 (omega arith) (omega arith) g4 h5)
                            moved,
                      ),
                    ))
            ]
      ]

  -- On elements of which no two are equal, with as many rounds as there are elements and one more, it
  -- returns.
  pub partition_lem :
      (n start end : ℕ) (arr : List T)
      → start ≤ end
      → end < length arr
      → IsDistinct arr
      → end - start + 1 < n
      → (r : ℕ × List T) × (partition n start end arr ≡ some r)
        × IsParted start end (at arr start) arr r
  unfolding partition
  partition_lem n start end arr h k distinct fuel =
      partition_loop_lem n start start start end end (at arr start) arr
        (
          omega arith,
          omega arith,
          h,
          omega arith,
          k,
          refl,
          λ i a b. absurd (omega arith),
          λ i a b. absurd (omega arith),
          distinct,
        )
        (inl fuel)
