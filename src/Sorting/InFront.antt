-- ===== src/Sorting/InFront.antt =====
-- sort.h: `SortInsert`, which compares with the cell in front of the array.
use xteam.Prelude.{
  ℕ, zero, suc, ◌+◌, ◌-◌, ◌≤◌, ◌<◌, ◌≡◌, refl, sym, inl, inr, true, false, List, ◌∷◌, arith, ltb,
  ◌==◌, ==_iff, Bool-cases, length,
}
use mathlib.Core.Path.{subst}
use xteam.Arrays.Order.{Order, at, le, IsSorted, IsSortedOn, SameItems, le_refl}
use xteam.Arrays.Swap.{length-swap, at-swap}
use xteam.Sorting.Gap.{sift, pass, sort_insert}
use xteam.Sorting.Insertion.{
  moved, moved-SameItems, sift-SameItems, pass-SameItems, pass-IsSortedOn,
}

module _ {T : Type 0} ⦃o : Order T⦄ where
  -- No exchange touches the cell in front where nothing is less than it.
  IsKept : T → List T → Type 0
  IsKept before mem = (at mem 0 ≡ before) × ((k : ℕ) → k < length mem → le before (at mem k) ≡ true)

  moved-IsKept :
      (before : T) (j : ℕ) (mem : List T)
      → suc j < length mem
      → IsKept before mem
      → IsKept before (moved 1 (suc j) mem)
  unfolding IsKept moved
  moved-IsKept before j mem h (first, least) =
      let (len, items) = moved-SameItems 1 (suc j) mem h in
      let back : suc j - 1 ≡ j = omega arith in
      elim (Bool-cases (o.lt (at mem (suc j)) (at mem (suc j - 1)))) [
        | inl e ↦ rw e (
          ground (arith, at-swap (suc j - 1) (suc j) 0 mem, least (suc j)),
          λ k lt. ground (
            arith,
            at-swap (suc j - 1) (suc j) k mem,
            length-swap (suc j - 1) (suc j) mem,
            least k,
            least (suc j),
            least (suc j - 1),
          ),
        )
        | inr e ↦ rw e (first, least)
      ]

  sift-IsKept :
      (before : T) (j i : ℕ) (mem : List T)
      → j < length mem
      → IsKept before mem
      → IsKept before (sift j 1 j mem)
  unfolding sift moved
  sift-IsKept before zero i mem h k = k
  sift-IsKept before (suc j) i mem h k =
      let back : suc j - 1 ≡ j = omega arith in
      let mem' = moved 1 (suc j) mem in
      let (len, items) = moved-SameItems 1 (suc j) mem h in
      let done = sift-IsKept before j i mem' (omega arith) (moved-IsKept before j mem h k) in
      let go : ltb (suc j) 1 ≡ false = ground arith in
      rw go (subst (λ n. IsKept before (sift j 1 n mem')) (sym back) done)

  pass-IsKept :
      (before : T) (n i : ℕ) (mem : List T)
      → i + n ≤ length mem
      → IsKept before mem
      → IsKept before (pass n 1 i mem)
  unfolding pass
  pass-IsKept before zero i mem h k = k
  pass-IsKept before (suc n) i mem h k =
      let (len, items) = sift-SameItems i 1 i mem (omega arith) in
      let go : ltb i (length mem) ≡ true = ground arith in
      rw go (
        pass-IsKept before n (i + 1) (sift i 1 i mem) (omega arith)
          (sift-IsKept before i i mem (omega arith) k))

  -- Where the cell in front of an array that is not empty holds nothing greater than an element, that
  -- cell and the array together ascend afterwards, the cell is as it was, and the elements are the
  -- same, as often.
  pub sort_insert_lem :
      (before : T) (arr : List T)
      → 0 < length arr
      → ((k : ℕ) → k < length arr → le before (at arr k) ≡ true)
      → let mem = sort_insert before arr in
        IsSorted mem × (at mem 0 ≡ before) × SameItems mem (before ∷ arr)
  unfolding sort_insert IsKept
  sort_insert_lem before arr h least =
      let mem = before ∷ arr in
      let n = length arr - 1 in
      let kept : IsKept before mem = (refl, λ k lt. above k lt) in
      let front : IsSortedOn 0 2 mem = λ a b x y z. elim (Bool-cases (a == b)) [
        | inl q ↦ rw ((==_iff a b).0 q) (le_refl (at mem b))
        | inr q ↦ let first : a ≡ 0 = ground arith in rw first (kept.1 b (omega arith))
      ] in
      let (len, items) = pass-SameItems n 1 2 mem in
      let sorted = pass-IsSortedOn n 2 mem (omega arith) front in
      (
        λ a b x y z. sorted a b x y (omega arith),
        (pass-IsKept before n 2 mem (omega arith) kept).0,
        items,
      )
    where
      above : (k : ℕ) → k < length (before ∷ arr) → le before (at (before ∷ arr) k) ≡ true
      above zero lt = le_refl before
      above (suc k) lt = least k (omega arith)
