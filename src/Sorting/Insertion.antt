-- ===== src/Sorting/Insertion.antt =====
-- sort.h: what passes of exchanges over a gap do; over the gap 1 they sort.
use xteam.Prelude.{
  ℕ, zero, suc, ◌+◌, ◌-◌, ◌/◌, ◌≤◌, ◌<◌, ◌≡◌, refl, sym, ap, ◌∙◌, ◌≢◌, inl, inr, true, false, List,
  arith, ltb, leb, ◌==◌, if◌then◌else◌, ==_iff, Bool-cases, length,
}
use mathlib.Core.Path.{subst}
use xteam.Arrays.Order.{Order, at, le, IsSorted, IsSortedOn, SameItems, le_refl, le_of_lt, le_chain}
use xteam.Arrays.Swap.{swap, length-swap, at-swap, swap-SameItems}
use xteam.Sorting.Gap.{sift, pass, shell_from, sort_shell}

module _ {T : Type 0} ⦃o : Order T⦄ where
  -- One exchange, where the upper element is less.
  unfoldable pub moved : ℕ → ℕ → List T → List T
  moved gap j arr = if o.lt (at arr j) (at arr (j - gap)) then swap (j - gap) j arr else arr

  pub moved-SameItems :
      (gap j : ℕ) (arr : List T)
      → j < length arr
      → (length (moved gap j arr) ≡ length arr) × SameItems (moved gap j arr) arr
  unfolding moved
  moved-SameItems gap j arr h = elim (Bool-cases (o.lt (at arr j) (at arr (j - gap)))) [
    | inl e ↦ rw e (length-swap (j - gap) j arr, swap-SameItems (j - gap) j arr (omega arith) h)
    | inr e ↦ rw e (refl, λ P. refl)
  ]

  pub sift-SameItems :
      (n gap j : ℕ) (arr : List T)
      → j < length arr
      → (length (sift n gap j arr) ≡ length arr) × SameItems (sift n gap j arr) arr
  unfolding sift moved
  sift-SameItems zero gap j arr h = (refl, λ P. refl)
  sift-SameItems (suc n) gap j arr h = elim (Bool-cases (ltb j gap)) [
    | inl e ↦ rw e (refl, λ P. refl)
    | inr e ↦
        let (len, items) = moved-SameItems gap j arr h in
        let (len', items') = sift-SameItems n gap (j - gap) (moved gap j arr) (omega arith) in
        rw e (len' ∙ len, λ P. items' P ∙ items P)
  ]

  pub pass-SameItems :
      (n gap i : ℕ) (arr : List T)
      → (length (pass n gap i arr) ≡ length arr) × SameItems (pass n gap i arr) arr
  unfolding pass
  pass-SameItems zero gap i arr = (refl, λ P. refl)
  pass-SameItems (suc n) gap i arr = elim (Bool-cases (ltb i (length arr))) [
    | inl e ↦
        let (len, items) = sift-SameItems i gap i arr (ground arith) in
        let (len', items') = pass-SameItems n gap (i + gap) (sift i gap i arr) in
        rw e (len' ∙ len, λ P. items' P ∙ items P)
    | inr e ↦ rw e (refl, λ P. refl)
  ]

  -- Up to `i` the elements ascend, but for those below `j`, which may be greater than it.
  abbrev IsNearly : ℕ → ℕ → List T → Type 0
  IsNearly i j arr = (a b : ℕ) → a < b → b ≤ i → b ≢ j → le (at arr a) (at arr b) ≡ true

  IsNearly-moved :
      (i j : ℕ) (arr : List T)
      → suc j ≤ i
      → i < length arr
      → IsNearly i (suc j) arr
      → IsNearly i (suc j - 1) (moved 1 (suc j) arr)
  unfolding moved
  IsNearly-moved i j arr ji h near a b lt bi ne =
      elim (Bool-cases (o.lt (at arr (suc j)) (at arr (suc j - 1)))) [
        | inl e ↦ rw e (
            ground (
              arith,
              at-swap (suc j - 1) (suc j) a arr,
              at-swap (suc j - 1) (suc j) b arr,
              near a b,
              near a (suc j - 1),
              near (suc j - 1) b,
              near (suc j) b,
              le_of_lt (at arr (suc j)) (at arr (suc j - 1)),
            ))
        | inr e ↦ rw e (
            ground (
              arith,
              near a b,
              near a (suc j - 1),
              le_chain (at arr a) (at arr (suc j - 1)) (at arr (suc j)),
            ))
      ]

  sift-IsSortedOn :
      (j i : ℕ) (arr : List T)
      → j ≤ i
      → i < length arr
      → IsNearly i j arr
      → IsSortedOn 0 (i + 1) (sift j 1 j arr)
  unfolding sift moved
  sift-IsSortedOn zero i arr ji h near = λ a b x y z. elim (Bool-cases (a == b)) [
    | inl q ↦ rw ((==_iff a b).0 q) (le_refl (at arr b))
    | inr q ↦ near a b (ground arith) (omega arith) (ground arith)
  ]
  sift-IsSortedOn (suc j) i arr ji h near =
      let back : suc j - 1 ≡ j = omega arith in
      let arr' = moved 1 (suc j) arr in
      let (len, items) = moved-SameItems 1 (suc j) arr (omega arith) in
      let next : IsNearly i j arr' =
        λ a b lt bi ne. IsNearly-moved i j arr ji h near a b lt bi (λ e. ne (e ∙ back)) in
      let done = sift-IsSortedOn j i arr' (omega arith) (omega arith) next in
      let go : ltb (suc j) 1 ≡ false = ground arith in
      rw go (subst (λ k. IsSortedOn 0 (i + 1) (sift j 1 k arr')) (sym back) done)

  pub pass-IsSortedOn :
      (n i : ℕ) (arr : List T)
      → i + n ≡ length arr
      → IsSortedOn 0 i arr
      → IsSortedOn 0 (i + n) (pass n 1 i arr)
  unfolding pass
  pass-IsSortedOn zero i arr e sorted = λ a b x y z. sorted a b x y (omega arith)
  pass-IsSortedOn (suc n) i arr e sorted =
      let near : IsNearly i i arr =
        λ a b lt bi ne. sorted a b (omega arith) (omega arith) (ground arith) in
      let once = sift-IsSortedOn i i arr (omega arith) (omega arith) near in
      let (len, items) = sift-SameItems i 1 i arr (omega arith) in
      let all = pass-IsSortedOn n (i + 1) (sift i 1 i arr) (omega arith) once in
      let go : ltb i (length arr) ≡ true = ground arith in
      rw go (λ a b x y z. all a b x y (omega arith))

  pass-IsSorted : (arr : List T) → 1 ≤ length arr → IsSorted (pass (length arr - 1) 1 1 arr)
  pass-IsSorted arr h =
      let n = length arr - 1 in
      let single : IsSortedOn 0 1 arr =
        λ a b x y z. let same : a ≡ b = omega arith in rw same (le_refl (at arr b)) in
      let sorted = pass-IsSortedOn n 1 arr (omega arith) single in
      let (len, items) = pass-SameItems n 1 1 arr in λ a b x y z. sorted a b x y (omega arith)

  shell_from-stop : (n : ℕ) (arr : List T) → shell_from n 0 arr ≡ arr
  unfolding shell_from
  shell_from-stop zero arr = refl
  shell_from-stop (suc n) arr = refl

  shell_from_lem :
      (n gap : ℕ) (arr : List T)
      → gap ≤ n
      → gap ≤ length arr
      → (0 < gap → IsSorted (shell_from n gap arr))
        × (length (shell_from n gap arr) ≡ length arr)
        × SameItems (shell_from n gap arr) arr
  unfolding shell_from
  shell_from_lem zero gap arr le len = (λ p. absurd (omega arith), refl, λ P. refl)
  shell_from_lem (suc n) gap arr le len = elim (Bool-cases (gap == 0)) [
    | inl e ↦ rw e (λ p. absurd (ground arith), refl, λ P. refl)
    | inr e ↦
        let arr' = pass (length arr - gap) gap gap arr in
        let (len', items) = pass-SameItems (length arr - gap) gap gap arr in
        let half : gap / 2 < gap = ground arith in
        let (sorted, len'', items') = shell_from_lem n (gap / 2) arr' (omega arith) (omega arith) in
        rw e (
          λ p. elim (Bool-cases (gap / 2 == 0)) [
            | inl q ↦
                let one : 1 ≡ gap = ground arith in
                let stop =
                  ap (λ g. shell_from n g arr') ((==_iff (gap / 2) 0).0 q)
                  ∙ shell_from-stop n arr' in
                subst IsSorted (sym stop) (
                  subst (λ g. IsSorted (pass (length arr - g) g g arr)) one
                    (pass-IsSorted arr (omega arith)))
            | inr q ↦ sorted (ground arith)
          ],
          len'' ∙ len',
          λ P. items' P ∙ items P,
        )
  ]

  -- The array that Shell's sort leaves ascends, and holds the same elements, as often.
  pub sort_shell_lem : (arr : List T) → IsSorted (sort_shell arr) × SameItems (sort_shell arr) arr
  unfolding sort_shell
  sort_shell_lem arr =
      let (sorted, len, items) =
        shell_from_lem (length arr) (length arr / 2) arr (omega arith) (omega arith) in
      (
        elim (Bool-cases (leb 2 (length arr))) [
          | inl h ↦ sorted (ground arith)
          | inr h ↦ λ a b x y z.
              let same : a ≡ b = ground arith in
              rw same (le_refl (at (shell_from (length arr) (length arr / 2) arr) b))
        ],
        items,
      )
