-- ===== src/Sorting/Select.antt =====
-- sort.h: `SortSelect`, which puts the least of what is left at the front, round by round.
use xteam.Prelude.{
  ℕ, zero, suc, ◌+◌, ◌-◌, ◌≤◌, ◌<◌, ◌≡◌, refl, ◌∙◌, inl, inr, true, List, [], ◌∷◌, arith, ltb, ◌==◌,
  if◌then◌else◌, ltb→lt, ==_iff, Bool-cases, length,
}
use xteam.Arrays.Order.{
  Order, at, le, IsSorted, IsSortedOn, IsBelow, SameItems, le_refl, le_of_lt, le_chain,
}
use xteam.Arrays.Swap.{swap, length-swap, at-swap, swap-SameItems}

module _ {T : Type 0} ⦃o : Order T⦄ where
  -- The inner loop: where the least element stands, `n` rounds from `j` on.
  unfoldable pub min_index : ℕ → ℕ → ℕ → List T → ℕ
  min_index zero j m arr = m
  min_index (suc n) j m arr = min_index n (j + 1) (if o.lt (at arr j) (at arr m) then j else m) arr

  -- The outer loop, `n` rounds from `i` on.
  unfoldable pub select_from : ℕ → ℕ → List T → List T
  unfolding min_index swap
  select_from zero i arr = arr
  select_from (suc n) i arr =
      select_from n (i + 1) (swap (min_index (length arr - (i + 1)) (i + 1) i arr) i arr)

  -- `SortSelect`
  unfoldable pub sort_select : List T → List T
  unfolding select_from
  sort_select arr = select_from (length arr - 1) 0 arr

  min_index_lem :
      (n j m lo : ℕ) (arr : List T)
      → lo ≤ m
      → m < j
      → ((k : ℕ) → lo ≤ k → k < j → le (at arr m) (at arr k) ≡ true)
      → let r = min_index n j m arr in
        (lo ≤ r) × (r < j + n) × ((k : ℕ) → lo ≤ k → k < j + n → le (at arr r) (at arr k) ≡ true)
  unfolding min_index
  min_index_lem zero j m lo arr h1 h2 least = (h1, omega arith, λ k a b. least k a (omega arith))
  min_index_lem (suc n) j m lo arr h1 h2 least = elim (Bool-cases (o.lt (at arr j) (at arr m))) [
    | inl e ↦
        let next = min_index_lem n (j + 1) j lo arr (omega arith) (omega arith) (λ k a b.
          elim (Bool-cases (k == j)) [
            | inl q ↦ rw ((==_iff k j).0 q) (le_refl (at arr j))
            | inr q ↦
                le_chain (at arr j) (at arr m) (at arr k) (le_of_lt (at arr j) (at arr m) e)
                  (least k a (ground arith))
          ]) in
        rw e (next.0, omega (arith, next.1), λ k a b. next.2 k a (omega arith))
    | inr e ↦
        let next = min_index_lem n (j + 1) m lo arr (omega arith) (omega arith) (λ k a b.
          elim (Bool-cases (k == j)) [
            | inl q ↦ rw ((==_iff k j).0 q) (ground arith)
            | inr q ↦ least k a (ground arith)
          ]) in
        rw e (next.0, omega (arith, next.1), λ k a b. next.2 k a (omega arith))
  ]

  -- The front is sorted, and what is left is not below it.
  abbrev IsFront : ℕ → List T → Type 0
  IsFront i arr = IsSortedOn 0 i arr × IsBelow 0 i i (length arr) arr

  IsFront-swap :
      (i m : ℕ) (arr : List T)
      → IsFront i arr
      → i ≤ m
      → m < length arr
      → ((k : ℕ) → i ≤ k → k < length arr → le (at arr m) (at arr k) ≡ true)
      → IsFront (i + 1) (swap m i arr)
  IsFront-swap i m arr (sorted, below) im ml least = (
    λ a b x y z.
        ground
          (arith, at-swap m i a arr, at-swap m i b arr, sorted a b, below a m, le_refl (at arr m)),
    λ a b x y z t. ground (
      arith,
      at-swap m i a arr,
      at-swap m i b arr,
      length-swap m i arr,
      below a i,
      below a b,
      least i,
      least b,
    ),
  )

  select_from_lem :
      (n i : ℕ) (arr : List T)
      → IsFront i arr
      → i + n + 1 ≡ length arr
      → IsSorted (select_from n i arr) × SameItems (select_from n i arr) arr
  unfolding select_from
  select_from_lem zero i arr (sorted, below) e = (
    λ a b x y z. elim (Bool-cases (ltb b i)) [
      | inl h ↦ sorted a b x y (ltb→lt b i h)
      | inr h ↦ elim (Bool-cases (a == b)) [
        | inl q ↦ rw ((==_iff a b).0 q) (le_refl (at arr b))
        | inr q ↦ below a b x (ground arith) (ground arith) z
      ]
    ],
    λ P. refl,
  )
  select_from_lem (suc n) i arr front e =
      let m = min_index (length arr - (i + 1)) (i + 1) i arr in
      let (im, mh, least) =
        min_index_lem (length arr - (i + 1)) (i + 1) i i arr (omega arith) (omega arith)
          (λ k a b. let same : k ≡ i = omega arith in rw same (le_refl (at arr i))) in
      let ml : m < length arr = omega arith in
      let arr' = swap m i arr in
      let next = IsFront-swap i m arr front im ml (λ k a b. least k a (omega arith)) in
      let (sorted, items) =
        select_from_lem n (i + 1) arr' next (omega (arith, length-swap m i arr)) in
      (sorted, λ P. items P ∙ swap-SameItems m i arr ml (omega arith) P)

  -- The array that selection sort leaves ascends, and holds the same elements, as often.
  pub sort_select_lem :
      (arr : List T) → IsSorted (sort_select arr) × SameItems (sort_select arr) arr
  unfolding sort_select select_from
  sort_select_lem [] = (λ i j x y z. absurd (omega arith), λ P. refl)
  sort_select_lem (x ∷ arr) =
      select_from_lem (length (x ∷ arr) - 1) 0 (x ∷ arr)
        (λ i j a b c. absurd (omega arith), λ i j a b c d. absurd (omega arith)) (omega arith)
