-- ===== src/Sorting/Distinct.antt =====
-- sort.h: `Partition` of elements of which no two are equal.
use xteam.Prelude.{
  ℕ, zero, suc, ◌+◌, ◌-◌, ◌≤◌, ◌<◌, ◌≡◌, ◌≢◌, ◌⊎◌, inl, inr, true, false, not, ◌||◌, List, arith,
  ◌==◌, ==_iff, Bool-cases, length,
}
use xteam.Arrays.Order.{Order, at}
use xteam.Arrays.Swap.{swap, length-swap, at-swap}
use xteam.Sorting.Quick.{move_down, move_up}

module _ {T : Type 0} ⦃o : Order T⦄ where
  -- Of any two elements one is less.
  abbrev pub IsDistinct : List T → Type 0
  IsDistinct arr =
      (i j : ℕ)
      → i < length arr
      → j < length arr
      → i ≢ j
      → (o.lt (at arr i) (at arr j) || o.lt (at arr j) (at arr i)) ≡ true

  pub swap-IsDistinct :
      (i j : ℕ) (arr : List T)
      → i < length arr
      → j < length arr
      → IsDistinct arr
      → IsDistinct (swap i j arr)
  swap-IsDistinct i j arr hi hj distinct a b ha hb ne = ground (
    arith,
    length-swap i j arr,
    at-swap i j a arr hi hj,
    at-swap i j b arr hi hj,
    distinct a b,
    distinct i b,
    distinct j b,
    distinct a i,
    distinct a j,
    distinct i j,
    distinct j i,
  )

  -- `end` stops at `start` or at an element that is not greater, and passes greater ones only.
  pub move_down_lem :
      (n : ℕ) (pivot : T) (start end : ℕ) (arr : List T)
      → end ≡ start + n
      → let e = move_down n pivot start end arr in
        (start ≤ e)
        × (e ≤ end)
        × ((k : ℕ) → e < k → k ≤ end → o.lt pivot (at arr k) ≡ true)
        × ((e ≡ start) ⊎ (o.lt pivot (at arr e) ≡ false))
  unfolding move_down
  move_down_lem zero pivot start end arr h =
      (omega arith, omega arith, λ k a b. absurd (omega arith), inl (omega arith))
  move_down_lem (suc n) pivot start end arr h =
      let (one, two, passed, stop) = move_down_lem n pivot start (end - 1) arr (omega arith) in
      let ne : not (start == end) ≡ true = ground arith in
      elim (Bool-cases (o.lt pivot (at arr end))) [
        | inl e ↦ rw ne (
            rw e (
              one,
              omega arith,
              λ k a b. elim (Bool-cases (k == end)) [
                | inl q ↦ rw ((==_iff k end).0 q) e
                | inr q ↦ passed k a (ground arith)
              ],
              stop,
            ))
        | inr e ↦ rw ne (rw e (omega arith, omega arith, λ k a b. absurd (omega arith), inr e))
      ]

  pub move_up_lem :
      (n : ℕ) (pivot : T) (start end : ℕ) (arr : List T)
      → end ≡ start + n
      → let s = move_up n pivot start end arr in
        (start ≤ s)
        × (s ≤ end)
        × ((k : ℕ) → start ≤ k → k < s → o.lt (at arr k) pivot ≡ true)
        × ((s ≡ end) ⊎ (o.lt (at arr s) pivot ≡ false))
  unfolding move_up
  move_up_lem zero pivot start end arr h =
      (omega arith, omega arith, λ k a b. absurd (omega arith), inl (omega arith))
  move_up_lem (suc n) pivot start end arr h =
      let (one, two, passed, stop) = move_up_lem n pivot (start + 1) end arr (omega arith) in
      let ne : not (start == end) ≡ true = ground arith in
      elim (Bool-cases (o.lt (at arr start) pivot)) [
        | inl e ↦ rw ne (
            rw e (
              omega arith,
              two,
              λ k a b. elim (Bool-cases (k == start)) [
                | inl q ↦ rw ((==_iff k start).0 q) e
                | inr q ↦ passed k (ground arith) b
              ],
              stop,
            ))
        | inr e ↦ rw ne (rw e (omega arith, omega arith, λ k a b. absurd (omega arith), inr e))
      ]
