-- ===== src/Sorting/Runs.antt =====
-- sort.h: the runs that `DoSortMerge` copies, and what is merged of two so far.
use xteam.Prelude.{
  ℕ, zero, suc, ◌+◌, ◌-◌, ◌≤◌, ◌<◌, ◌≡◌, refl, sym, ◌∙◌, ◌⊎◌, Bool, true, ◌&&◌, List, arith, ltb,
  leb, if◌then◌else◌, length, set, length-set, get_or-set,
}
use xteam.Arrays.Order.{Order, at, le, IsSortedOn}
use xteam.Arrays.Tally.{tally, tally_shift, tally_agree}
use xteam.Sorting.Merging.{copy_run}

module _ {T : Type 0} ⦃o : Order T⦄ where
  pub length-copy_run :
      (n l i : ℕ) (src dst : List T) → length (copy_run n l i src dst) ≡ length dst
  unfolding copy_run
  length-copy_run zero l i src dst = refl
  length-copy_run (suc n) l i src dst =
      length-copy_run n (l + 1) (i + 1) src (set dst i (at src l)) ∙ length-set dst i (at src l)

  -- A read after a run was copied.
  pub at-copy_run :
      (n l i k : ℕ) (src dst : List T)
      → i + n ≤ length dst
      → at (copy_run n l i src dst) k
        ≡ (if leb i k && ltb k (i + n) then at src (l + (k - i)) else at dst k)
  unfolding copy_run
  at-copy_run zero l i k src dst h = ground arith
  at-copy_run (suc n) l i k src dst h =
      let dst' = set dst i (at src l) in
      let rest =
        at-copy_run n (l + 1) (i + 1) k src dst' (omega (arith, length-set dst i (at src l))) in
      ground (arith, rest, get_or-set dst i k (at src l) o.blank)

  pub tally-copy_run :
      (P : T → Bool) (n l i : ℕ) (src dst : List T)
      → i + n ≤ length dst
      → tally P (copy_run n l i src dst) (i + n) + tally P src l
        ≡ tally P dst i + tally P src (l + n)
  tally-copy_run P n l i src dst h =
      let dst' = copy_run n l i src dst in
      let before =
        tally_agree P dst' dst i (λ k lt. ground (arith, at-copy_run n l i k src dst h)) in
      let run =
        tally_shift P dst' src i l n
          (λ k lt. ground (arith, at-copy_run n l i (i + k) src dst h)) in
      omega arith

  -- What was merged so far, up to `index`: it ascends from `lo` on, and is not above what is left of
  -- the runs from `l1` up to `e1` and from `l2` up to `e2`, which ascend themselves.
  abbrev pub IsMerging : ℕ → ℕ → ℕ → ℕ → ℕ → ℕ → List T → List T → Type 0
  IsMerging lo l1 e1 l2 e2 index arr assist =
      IsSortedOn l1 e1 arr
      × IsSortedOn l2 e2 arr
      × IsSortedOn lo index assist
      × ((a b : ℕ) → lo ≤ a → a < index → l1 ≤ b → b < e1 → le (at assist a) (at arr b) ≡ true)
      × ((a b : ℕ) → lo ≤ a → a < index → l2 ≤ b → b < e2 → le (at assist a) (at arr b) ≡ true)

  pub first-IsMerging :
      (lo l1 e1 l2 e2 index : ℕ) (arr assist : List T)
      → IsMerging lo l1 e1 l2 e2 index arr assist
      → l1 < e1
      → index < length assist
      → ((b : ℕ) → l2 ≤ b → b < e2 → le (at arr l1) (at arr b) ≡ true)
      → IsMerging lo (l1 + 1) e1 l2 e2 (index + 1) arr (set assist index (at arr l1))
  first-IsMerging lo l1 e1 l2 e2 index arr assist (s1, s2, out, b1, b2) h room least =
      let read = λ (k : ℕ). get_or-set assist index k (at arr l1) o.blank in
      (
        λ a b x y z. s1 a b (omega arith) y z,
        s2,
        λ a b x y z. ground (arith, read a, read b, out a b, b1 a l1, o.lt_irrefl (at arr l1)),
        λ a b x y z t. ground (arith, read a, b1 a b, s1 l1 b),
        λ a b x y z t. ground (arith, read a, b2 a b, least b),
      )

  pub second-IsMerging :
      (lo l1 e1 l2 e2 index : ℕ) (arr assist : List T)
      → IsMerging lo l1 e1 l2 e2 index arr assist
      → l2 < e2
      → index < length assist
      → ((b : ℕ) → l1 ≤ b → b < e1 → le (at arr l2) (at arr b) ≡ true)
      → IsMerging lo l1 e1 (l2 + 1) e2 (index + 1) arr (set assist index (at arr l2))
  second-IsMerging lo l1 e1 l2 e2 index arr assist (s1, s2, out, b1, b2) h room least =
      let (t2, t1, out', c2, c1) =
        first-IsMerging lo l2 e2 l1 e1 index arr assist (s2, s1, out, b2, b1) h room least in
      (t1, t2, out', c1, c2)

  -- What is left of the one run is copied behind what was merged, and the other is empty.
  abbrev pub drained : ℕ → ℕ → ℕ → ℕ → ℕ → List T → List T → List T
  drained n1 l1 n2 l2 index arr assist =
      copy_run n2 l2 (index + n1) arr (copy_run n1 l1 index arr assist)

  pub at-drained :
      (n1 l1 n2 l2 index k : ℕ) (arr assist : List T)
      → index + n1 + n2 ≤ length assist
      → at (drained n1 l1 n2 l2 index arr assist) k ≡ (
          if ltb k index
          then at assist k
          else if ltb k (index + n1)
          then at arr (l1 + (k - index))
          else if ltb k (index + n1 + n2)
          then at arr (l2 + (k - (index + n1)))
          else at assist k)
  at-drained n1 l1 n2 l2 index k arr assist h =
      let first = copy_run n1 l1 index arr assist in
      let len = length-copy_run n1 l1 index arr assist in
      ground (
        arith,
        at-copy_run n2 l2 (index + n1) k arr first (omega arith),
        at-copy_run n1 l1 index k arr assist (omega arith),
      )

  pub drained-IsSortedOn :
      (lo l1 n1 e1 l2 n2 e2 index last : ℕ) (arr assist : List T)
      → IsMerging lo l1 e1 l2 e2 index arr assist
      → l1 + n1 ≡ e1
      → l2 + n2 ≡ e2
      → index + n1 + n2 ≡ last
      → last ≤ length assist
      → (n1 ≡ 0) ⊎ (n2 ≡ 0)
      → IsSortedOn lo last (drained n1 l1 n2 l2 index arr assist)
  drained-IsSortedOn lo l1 n1 e1 l2 n2 e2 index last arr assist (s1, s2, out, b1, b2) q1 q2 q h
        none_left =
      λ a b x y z.
        let read = λ (k : ℕ). at-drained n1 l1 n2 l2 index k arr assist (omega arith) in
        let i1 = λ (k : ℕ). l1 + (k - index) in
        let i2 = λ (k : ℕ). l2 + (k - (index + n1)) in
        ground (
          arith,
          read a,
          read b,
          out a b,
          b1 a (i1 b),
          b2 a (i2 b),
          s1 (i1 a) (i1 b),
          s2 (i2 a) (i2 b),
          none_left,
        )

  pub drained-tally :
      (P : T → Bool) (n1 l1 e1 n2 l2 e2 index last : ℕ) (arr assist : List T)
      → l1 + n1 ≡ e1
      → l2 + n2 ≡ e2
      → index + n1 + n2 ≡ last
      → last ≤ length assist
      → tally P (drained n1 l1 n2 l2 index arr assist) last + (tally P arr l1 + tally P arr l2)
        ≡ tally P assist index + (tally P arr e1 + tally P arr e2)
  drained-tally P n1 l1 e1 n2 l2 e2 index last arr assist q1 q2 q h =
      let first = copy_run n1 l1 index arr assist in
      let len = length-copy_run n1 l1 index arr assist in
      let one = tally-copy_run P n1 l1 index arr assist (omega arith) in
      let two = tally-copy_run P n2 l2 (index + n1) arr first (omega arith) in
      rw (sym q1) (rw (sym q2) (rw (sym q) (omega arith)))
