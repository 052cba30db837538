-- ===== src/Sorting/MergeSort.antt =====
-- sort.h: `SortMerge`.
use xteam.Prelude.{
  ℕ, zero, suc, ◌+◌, ◌-◌, ◌/◌, ◌≤◌, ◌<◌, ◌≡◌, refl, ◌∙◌, ◌⊎◌, inl, inr, Bool, List, [], ◌∷◌, arith,
  leb, Bool-cases, length,
}
use xteam.Arrays.Order.{Order, at, IsSorted, IsSortedOn, SameItems, le_refl}
use xteam.Arrays.Tally.{tally, tally_shift, tally_agree, SameItems-tally}
use xteam.Sorting.Merging.{copy_run, merge_runs, do_sort_merge, sort_merge}
use xteam.Sorting.Runs.{length-copy_run, at-copy_run, tally-copy_run}
use xteam.Sorting.Merged.{merge_runs_lem}
use mathlib.Core.Path.{subst}

module _ {T : Type 0} ⦃o : Order T⦄ where
  -- The elements from `start` to `end` ascend, and are the ones `arr` has there; the others are as in
  -- `arr`.
  abbrev IsSortedRun : ℕ → ℕ → List T → List T × List T → Type 0
  IsSortedRun start end arr (arr', assist') =
      (length arr' ≡ length arr)
      × (length assist' ≡ length arr)
      × IsSortedOn start (end + 1) arr'
      × ((k : ℕ) → (k < start) ⊎ (end < k) → at arr' k ≡ at arr k)
      × ((P : T → Bool) → tally P arr' (end + 1) ≡ tally P arr (end + 1))

  -- Arrays that agree behind `end` and hold as many up to it hold as many further on.
  tally_beyond :
      (P : T → Bool) (xs ys : List T) (e n : ℕ)
      → tally P xs e ≡ tally P ys e
      → ((k : ℕ) → e ≤ k → at xs k ≡ at ys k)
      → tally P xs (e + n) ≡ tally P ys (e + n)
  tally_beyond P xs ys e n h same =
      omega (arith, tally_shift P xs ys e e n (λ k lt. same (e + k) (omega arith)))

  do_sort_merge_lem :
      (n start end : ℕ) (arr assist : List T)
      → end < length arr
      → length assist ≡ length arr
      → end - start < n
      → IsSortedRun start end arr (do_sort_merge n start end (arr, assist))
  unfolding do_sort_merge
  do_sort_merge_lem zero start end arr assist h len fuel = absurd (omega arith)
  do_sort_merge_lem (suc n) start end arr assist h len fuel = elim (Bool-cases (leb end start)) [
    | inl e ↦ rw e (
      refl,
      len,
      λ a b x y z. (let same : a ≡ b = ground arith in rw same (le_refl (at arr b))),
      λ k out. refl,
      λ P. refl,
    )
    | inr e ↦
        let mid = (start + end) / 2 in
        let less : start < end = ground arith in
        let one = do_sort_merge n start mid (arr, assist) in
        let (len1, len1', sorted1, same1, items1) =
          do_sort_merge_lem n start mid arr assist (omega arith) len (omega arith) in
        let two = do_sort_merge n (mid + 1) end one in
        let (len2, len2', sorted2, same2, items2) =
          do_sort_merge_lem n (mid + 1) end one.0 one.1 (omega arith) (omega arith) (omega arith) in
        let merged = merge_runs (end + 1 - start + 1) start mid (mid + 1) end start two.0 two.1 in
        let (len3, sorted3, kept3, items3) =
          merge_runs_lem (end + 1 - start + 1) start start mid (mid + 1) end start (end + 1) two.0
            two.1
            (
              λ a b x y z.
                  rw (same2 a (inl (omega arith)))
                    (rw (same2 b (inl (omega arith))) (sorted1 a b x y z)),
              sorted2,
              λ a b x y z. absurd (omega arith),
              λ a b x y z t. absurd (omega arith),
              λ a b x y z t. absurd (omega arith),
            )
            (omega arith) (omega arith) (omega arith) (omega arith) (omega arith) (omega arith) in
        let back =
          λ (k : ℕ). at-copy_run (end + 1 - start) start start k merged two.0 (omega arith) in
        let back_len = length-copy_run (end + 1 - start) start start merged two.0 in
        let to : start + (end + 1 - start) ≡ end + 1 = omega arith in
        let beyond : mid + 1 + (end - mid) ≡ end + 1 = omega arith in
        rw e (
          back_len ∙ len2 ∙ len1,
          omega arith,
          λ a b x y z. ground (arith, back a, back b, sorted3 a b),
          λ k out. ground (arith, back k, same1 k, same2 k),
          λ P. omega (
            arith,
            subst
                (λ m.
                  tally P (copy_run (end + 1 - start) start start merged two.0) m
                    + tally P merged start
                  ≡ tally P two.0 start + tally P merged m)
                to (tally-copy_run P (end + 1 - start) start start merged two.0 (omega arith)),
            tally_agree P merged two.1 start kept3,
            items3 P,
            items2 P,
            subst (λ m. tally P one.0 m ≡ tally P arr m) beyond
                (tally_beyond P one.0 arr (mid + 1) (end - mid) (items1 P)
                  (λ k le. same1 k (inr (omega arith)))),
          ),
        )
  ]

  -- The array that merge sort leaves ascends and holds the same elements, as often, whatever the new
  -- second array, which has its length, holds.
  pub sort_merge_lem :
      (assist arr : List T)
      → length assist ≡ length arr
      → IsSorted (sort_merge assist arr) × SameItems (sort_merge assist arr) arr
  unfolding sort_merge do_sort_merge
  sort_merge_lem assist [] len = (λ i j x y z. absurd (omega arith), λ P. refl)
  sort_merge_lem assist (x ∷ arr) len =
      let end = length (x ∷ arr) - 1 in
      let (len', len'', sorted, same, items) =
        do_sort_merge_lem (length (x ∷ arr)) 0 end (x ∷ arr) assist (omega arith) len
          (omega arith) in
      let all : end + 1 ≡ length (x ∷ arr) = omega arith in
      (
        λ i j a b c. sorted i j a b (omega arith),
        SameItems-tally (sort_merge assist (x ∷ arr)) (x ∷ arr) len' (λ P. rw len' (
            subst (λ m. tally P (sort_merge assist (x ∷ arr)) m ≡ tally P (x ∷ arr) m) all
              (items P))),
      )
