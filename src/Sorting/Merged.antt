-- ===== src/Sorting/Merged.antt =====
-- sort.h: the merge of two runs in `DoSortMerge`.
use xteam.Prelude.{
  ℕ, zero, suc, ◌+◌, ◌-◌, ◌≤◌, ◌<◌, ◌≡◌, refl, ◌∙◌, ◌⊎◌, inl, inr, Bool, ◌&&◌, List, arith, leb,
  if◌then◌else◌, Bool-cases, length, set, length-set, get_or-set,
}
use xteam.Arrays.Order.{Order, at, IsSortedOn, le_of_lt, le_chain}
use xteam.Arrays.Tally.{tally, tally_agree}
use xteam.Sorting.Merging.{copy_run, merge_runs}
use xteam.Sorting.Runs.{
  length-copy_run, IsMerging, first-IsMerging, second-IsMerging, at-drained, drained-IsSortedOn,
  drained-tally,
}

module _ {T : Type 0} ⦃o : Order T⦄ where
  tally-set :
      (P : T → Bool) (arr : List T) (i : ℕ) (v : T)
      → i < length arr
      → tally P (set arr i v) (i + 1) ≡ tally P arr i + (if P v then 1 else 0)
  unfolding tally
  tally-set P arr i v h =
      let next : i + 1 ≡ suc i = omega arith in
      let read = λ (k : ℕ). get_or-set arr i k v o.blank in
      rw next
        (ground (arith, tally_agree P (set arr i v) arr i (λ k lt. ground (arith, read k)), read i))

  tally-next :
      (P : T → Bool) (arr : List T) (i : ℕ)
      → tally P arr (i + 1) ≡ tally P arr i + (if P (at arr i) then 1 else 0)
  unfolding tally
  tally-next P arr i = let next : i + 1 ≡ suc i = omega arith in rw next refl

  -- What the merge leaves: an array of the same length whose merged part ascends and holds what it held
  -- and what was left of the runs, and which is as it was below `lo`.
  abbrev pub IsMergedTo : ℕ → ℕ → ℕ → ℕ → ℕ → ℕ → ℕ → List T → List T → List T → Type 0
  IsMergedTo lo l1 e1 l2 e2 index last arr assist r =
      (length r ≡ length assist)
      × IsSortedOn lo last r
      × ((k : ℕ) → k < lo → at r k ≡ at assist k)
      × ((P : T → Bool)
          → tally P r last + (tally P arr l1 + tally P arr l2)
            ≡ tally P assist index + (tally P arr e1 + tally P arr e2))

  first-IsMergedTo :
      (lo l1 e1 l2 e2 index last : ℕ) (arr assist r : List T)
      → index < length assist
      → lo ≤ index
      → IsMergedTo lo (l1 + 1) e1 l2 e2 (index + 1) last arr (set assist index (at arr l1)) r
      → IsMergedTo lo l1 e1 l2 e2 index last arr assist r
  first-IsMergedTo lo l1 e1 l2 e2 index last arr assist r room front (same, sorted, kept, items) = (
    same ∙ length-set assist index (at arr l1),
    sorted,
    λ k lt. kept k lt ∙ ground (arith, get_or-set assist index k (at arr l1) o.blank),
    λ P. omega (arith, items P, tally-set P assist index (at arr l1) room, tally-next P arr l1),
  )

  second-IsMergedTo :
      (lo l1 e1 l2 e2 index last : ℕ) (arr assist r : List T)
      → index < length assist
      → lo ≤ index
      → IsMergedTo lo l1 e1 (l2 + 1) e2 (index + 1) last arr (set assist index (at arr l2)) r
      → IsMergedTo lo l1 e1 l2 e2 index last arr assist r
  second-IsMergedTo lo l1 e1 l2 e2 index last arr assist r room front (same, sorted, kept, items) =
      (
        same ∙ length-set assist index (at arr l2),
        sorted,
        λ k lt. kept k lt ∙ ground (arith, get_or-set assist index k (at arr l2) o.blank),
        λ P. omega (arith, items P, tally-set P assist index (at arr l2) room, tally-next P arr l2),
      )

  pub merge_runs_lem :
      (n lo l1 r1 l2 r2 index last : ℕ) (arr assist : List T)
      → IsMerging lo l1 (r1 + 1) l2 (r2 + 1) index arr assist
      → l1 ≤ r1 + 1
      → l2 ≤ r2 + 1
      → (r1 + 1 - l1) + (r2 + 1 - l2) < n
      → index + (r1 + 1 - l1) + (r2 + 1 - l2) ≡ last
      → last ≤ length assist
      → lo ≤ index
      → IsMergedTo lo l1
          (r1 + 1)
          l2
          (r2 + 1)
          index
          last
          arr
          assist
          (merge_runs n l1 r1 l2 r2 index arr assist)
  unfolding merge_runs
  merge_runs_lem zero lo l1 r1 l2 r2 index last arr assist inv h1 h2 fuel q room front =
      absurd (omega arith)
  merge_runs_lem (suc n) lo l1 r1 l2 r2 index last arr assist inv h1 h2 fuel q room front =
      elim (Bool-cases (leb l1 r1 && leb l2 r2)) [
        | inl go ↦
            let a1 : l1 < r1 + 1 = ground arith in
            let a2 : l2 < r2 + 1 = ground arith in
            let here : index < length assist = omega arith in
            let (s1, s2, out, b1, b2) = inv in
            elim (Bool-cases (o.lt (at arr l1) (at arr l2))) [
              | inl e ↦
                  let v = at arr l1 in
                  let least = λ (b : ℕ) (x : l2 ≤ b) (y : b < r2 + 1).
                    le_chain v (at arr l2) (at arr b) (le_of_lt v (at arr l2) e)
                      (s2 l2 b (omega arith) x y) in
                  let merged =
                    merge_runs_lem n lo (l1 + 1) r1 l2 r2 (index + 1) last arr (set assist index v)
                      (first-IsMerging lo l1 (r1 + 1) l2 (r2 + 1) index arr assist inv a1 here
                        least)
                      (omega arith) h2 (omega arith) (omega arith)
                      (omega (arith, length-set assist index v)) (omega arith) in
                  rw go (
                    rw e (
                      first-IsMergedTo lo l1 (r1 + 1) l2 (r2 + 1) index last arr assist
                        (merge_runs n (l1 + 1) r1 l2 r2 (index + 1) arr (set assist index v)) here
                        front merged))
              | inr e ↦
                  let v = at arr l2 in
                  let least = λ (b : ℕ) (x : l1 ≤ b) (y : b < r1 + 1).
                    le_chain v (at arr l1) (at arr b) (ground arith) (s1 l1 b (omega arith) x y) in
                  let merged =
                    merge_runs_lem n lo l1 r1 (l2 + 1) r2 (index + 1) last arr (set assist index v)
                      (second-IsMerging lo l1 (r1 + 1) l2 (r2 + 1) index arr assist inv a2 here
                        least)
                      h1 (omega arith) (omega arith) (omega arith)
                      (omega (arith, length-set assist index v)) (omega arith) in
                  rw go (
                    rw e (
                      second-IsMergedTo lo l1 (r1 + 1) l2 (r2 + 1) index last arr assist
                        (merge_runs n l1 r1 (l2 + 1) r2 (index + 1) arr (set assist index v)) here
                        front merged))
            ]
        | inr stop ↦
            let n1 = r1 + 1 - l1 in
            let n2 = r2 + 1 - l2 in
            let one_left : (n1 ≡ 0) ⊎ (n2 ≡ 0) = ground arith in
            let first = copy_run n1 l1 index arr assist in
            rw stop (
              length-copy_run n2 l2 (index + n1) arr first ∙ length-copy_run n1 l1 index arr assist,
              drained-IsSortedOn lo l1 n1 (r1 + 1) l2 n2 (r2 + 1) index last arr assist inv
                  (omega arith) (omega arith) q room one_left,
              λ k lt. ground (arith, at-drained n1 l1 n2 l2 index k arr assist (omega arith)),
              λ P.
                  drained-tally P n1 l1 (r1 + 1) n2 l2 (r2 + 1) index last arr assist (omega arith)
                    (omega arith) q room,
            )
      ]
