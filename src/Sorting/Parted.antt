-- ===== src/Sorting/Parted.antt =====
-- sort.h: what `Partition` comes to where no two elements are equal.
use xteam.Prelude.{ℕ, ◌-◌, ◌≤◌, ◌<◌, ◌≡◌, ◌⊎◌, true, false, List, arith, length}
use xteam.Arrays.Order.{Order, at}
use xteam.Sorting.Quick.{move_down, move_up}
use xteam.Sorting.Distinct.{IsDistinct, move_down_lem, move_up_lem}

module _ {T : Type 0} ⦃o : Order T⦄ where
  -- The pivot stands at `p`, between `start` and `end`; what is less stands below, what is greater above.
  abbrev pub IsParting : ℕ → ℕ → ℕ → ℕ → ℕ → T → List T → Type 0
  IsParting lo start p end hi pivot arr =
      (lo ≤ start)
      × (start ≤ p)
      × (p ≤ end)
      × (end ≤ hi)
      × (hi < length arr)
      × (at arr p ≡ pivot)
      × ((k : ℕ) → lo ≤ k → k < start → o.lt (at arr k) pivot ≡ true)
      × ((k : ℕ) → end < k → k ≤ hi → o.lt pivot (at arr k) ≡ true)
      × IsDistinct arr

  pub moves-IsParting :
      (lo start p end hi : ℕ) (pivot : T) (arr : List T)
      → IsParting lo start p end hi pivot arr
      → let e = move_down (end - start) pivot start end arr in
        let s = move_up (e - start) pivot start e arr in
        IsParting lo s p e hi pivot arr
        × (start ≤ s)
        × (e ≤ end)
        × ((s ≡ e) ⊎ ((o.lt (at arr s) pivot ≡ false) × (o.lt pivot (at arr e) ≡ false)))
  moves-IsParting lo start p end hi pivot arr (h1, h2, h3, h4, h5, here, below, above, distinct) =
      let e = move_down (end - start) pivot start end arr in
      let s = move_up (e - start) pivot start e arr in
      let (d1, d2, d3, d4) = move_down_lem (end - start) pivot start end arr (omega arith) in
      let (u1, u2, u3, u4) = move_up_lem (e - start) pivot start e arr (omega arith) in
      let irrefl = o.lt_irrefl pivot in
      (
        (
          omega arith,
          ground (arith, u3 p),
          ground (arith, d3 p),
          omega arith,
          h5,
          here,
          λ k a b. ground (arith, below k, u3 k),
          λ k a b. ground (arith, above k, d3 k),
          distinct,
        ),
        u1,
        d2,
        ground arith,
      )
