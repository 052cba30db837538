-- ===== src/LinkedList/Counted.antt =====
-- list.h: where the walks with two pointers end in a list.
use xteam.Prelude.{
  ℕ, zero, suc, ◌+◌, ◌-◌, ◌/◌, ◌≤◌, ◌<◌, ◌≡◌, refl, sym, ap, ◌∙◌, ◌⊎◌, inl, inr, true, false, some,
  arith, ltb, ◌==◌, if◌then◌else◌, Bool-cases, ◌>>=◌,
}
use xteam.LinkedList.Types.{LinkedList, first, unlink}
use xteam.LinkedList.Runners.{
  step_fast, middle_from, middle_node, advance, follow, last_n, remove_slow, remove_last_n,
}
use xteam.LinkedList.Linked.{IsList, close_at, unlink-IsList}

module _ {T : Type 0} (s : LinkedList T) (n : ℕ) (pos : ℕ → ℕ) (h : IsList s n pos) where
  -- Whether a node of the list is the trailer, or the header, is told by its place.
  pub at_trailer : (i : ℕ) → i ≤ suc n → (pos i == s.trailer) ≡ (i == suc n)
  at_trailer i le = ground (arith, h.trailer_at, h.apart i (suc n))

  pub at_header : (i : ℕ) → i ≤ suc n → (pos i == s.header) ≡ (i == 0)
  at_header i le = ground (arith, h.header_at, h.apart i 0)

  pub at_first : first s ≡ pos 1
  at_first = ap s.succ (sym h.header_at) ∙ h.succ_at 0 (omega arith)

  advance_lem :
      (m i : ℕ)
      → i ≤ suc n
      → advance s m (pos i) ≡ pos (if ltb (i + m) (suc n) then i + m else suc n)
  unfolding advance
  advance_lem zero i le = ap pos (ground arith)
  advance_lem (suc m) i le = elim (Bool-cases (i == suc n)) [
    | inl e ↦ rw (at_trailer i le) (rw e (ap pos (ground arith)))
    | inr e ↦ rw (at_trailer i le) (
        rw e (
          rw (h.succ_at i (ground arith))
            (advance_lem m (suc i) (ground arith) ∙ ap pos (ground arith))))
  ]

  follow_lem :
      (fuel a b d : ℕ)
      → a + d ≡ b
      → b ≤ suc n
      → suc n - b < fuel
      → follow fuel s (pos a) (pos b) ≡ some (pos (suc n - d))
  unfolding follow
  follow_lem zero a b d e le less = absurd (omega arith)
  follow_lem (suc fuel) a b d e le less = elim (Bool-cases (b == suc n)) [
    | inl q ↦ rw (at_trailer b le) (rw q (ap (λ i. some (pos i)) (ground arith)))
    | inr q ↦ rw (at_trailer b le) (
        rw q (
          rw (h.succ_at b (ground arith)) (
            rw (h.succ_at a (ground arith))
              (follow_lem fuel (suc a) (suc b) d (omega arith) (ground arith) (ground arith)))))
  ]

  -- `LastN` returns the node that is k-th from the end, where the trailer is the one before the first, and
  -- the header where there is none; two rounds more than there are nodes are enough.
  pub last_n_lem : (fuel k : ℕ) → suc n < fuel → last_n fuel s k ≡ some (pos (suc n - k))
  unfolding last_n
  last_n_lem fuel k less =
      let b = if ltb (0 + k) (suc n) then 0 + k else suc n in
      ap (λ p. follow fuel s p (advance s k p)) (sym h.header_at)
      ∙ ap (follow fuel s (pos 0)) (advance_lem k 0 (omega arith))
      ∙ follow_lem fuel 0 b b (omega arith) (ground arith) (ground arith)
      ∙ ap (λ i. some (pos i)) (ground arith)

  pub step_fast_lem :
      (i : ℕ) → i ≤ n → step_fast s (pos i) ≡ pos (if i == n then suc n else suc (suc i))
  step_fast_lem i le = elim (Bool-cases (i == n)) [
    | inl e ↦ rw (h.succ_at i le) (rw (at_trailer (suc i) (omega arith)) (rw e (ground arith)))
    | inr e ↦ rw (h.succ_at i le) (
        rw (at_trailer (suc i) (omega arith))
          (rw e (rw (h.succ_at (suc i) (ground arith)) (ground arith))))
  ]

  middle_from_lem :
      (fuel a b : ℕ)
      → b ≤ suc n
      → (b < suc n → b ≡ a + a + 1)
      → (b ≡ suc n → (a + a ≡ n) ⊎ (a + a ≡ suc n))
      → a < b
      → suc n - b < fuel
      → middle_from fuel s (pos a) (pos b) ≡ some (pos (suc n / 2))
  unfolding middle_from
  middle_from_lem zero a b le odd end before less = absurd (omega arith)
  middle_from_lem (suc fuel) a b le odd end before less = elim (Bool-cases (b == suc n)) [
    | inl e ↦ rw (at_trailer b le) (rw e (ap (λ i. some (pos i)) (ground (arith, end))))
    | inr e ↦ rw (at_trailer b le) (
        rw e (
          rw (h.succ_at a (ground arith)) (
            rw (step_fast_lem b (ground arith)) (
              middle_from_lem fuel (suc a) (if b == n then suc n else suc (suc b)) (ground arith)
                (ground (arith, odd)) (ground (arith, odd)) (ground arith) (ground arith)))))
  ]

  -- `MiddleNode` of a list that is not empty returns the middle node, or the first of the two; as many
  -- rounds as there are nodes are enough.
  pub middle_node_lem : (fuel : ℕ) → 0 < n → n ≤ fuel → middle_node fuel s ≡ some (pos (suc n / 2))
  unfolding middle_node
  middle_node_lem fuel some_node less =
      let e : s.succ (first s) ≡ pos 2 = ap s.succ at_first ∙ h.succ_at 1 some_node in
      elim (Bool-cases (n == 1)) [
        | inl q ↦ rw e (
            rw (at_trailer 2 (ground arith)) (
              rw at_first (
                let t : (2 == suc n) ≡ true = ground arith in
                rw t (ap (λ i. some (pos i)) (ground arith)))))
        | inr q ↦ rw e (
            rw (at_trailer 2 (ground arith)) (
              rw at_first (
                let t : (2 == suc n) ≡ false = ground arith in
                rw t (
                  rw (h.succ_at 2 (ground arith)) (
                    middle_from_lem fuel 1 3 (ground arith) (ground arith) (ground arith)
                      (omega arith) (ground arith))))))
      ]

module _ {T : Type 0} (s : LinkedList T) (n : ℕ) (pos : ℕ → ℕ) (h : IsList s (suc n) pos) where
  remove_slow_node :
      (j : ℕ) → 0 < j → j ≤ suc n → remove_slow s (pos j) ≡ some (true, unlink s (pos j))
  unfolding remove_slow
  remove_slow_node j low high =
      let b : (pos (suc j) == 0) ≡ false = ground (arith, h.some_node (suc j)) in
      let c : (j == 0) ≡ false = ground arith in
      rw (at_header s (suc n) pos h j (omega arith)) (rw c (rw (h.succ_at j high) (rw b refl)))

  remove_slow_header : remove_slow s (pos 0) ≡ some (false, s)
  unfolding remove_slow
  remove_slow_header = let t : (pos 0 == s.header) ≡ true = ground (arith, h.header_at) in rw t refl

  -- `RemoveLastN` of a list of n + 1 nodes, for a k from 1 to n + 1, with three rounds more than n: it is
  -- true and takes the k-th node from the end out; the others stay in their order, with their values.
  pub remove_last_n_lem :
      (fuel k : ℕ)
      → suc (suc n) < fuel
      → 0 < k
      → k ≤ suc n
      → (s' : LinkedList T) × (remove_last_n fuel s k ≡ some (true, s'))
        × IsList s' n (close_at (suc (suc n) - k) pos)
        × (s'.val ≡ s.val)
  unfolding remove_last_n last_n unlink
  remove_last_n_lem fuel k less low high =
      let found =
        ap (λ o. o >>= λ slow. remove_slow s slow) (last_n_lem s (suc n) pos h fuel k less) in
      let j = suc (suc n) - k in
      (
        unlink s (pos j),
        found ∙ remove_slow_node j (omega arith) (omega arith),
        unlink-IsList s n pos j h (omega arith) (omega arith),
        refl,
      )

  -- For a greater k it is false and changes nothing.
  remove_last_n_beyond :
      (fuel k : ℕ) → suc (suc n) < fuel → suc n < k → remove_last_n fuel s k ≡ some (false, s)
  unfolding remove_last_n last_n
  remove_last_n_beyond fuel k less high =
      let found =
        ap (λ o. o >>= λ slow. remove_slow s slow) (last_n_lem s (suc n) pos h fuel k less) in
      let e : suc (suc n) - k ≡ 0 = omega arith in
      found ∙ ap (λ i. remove_slow s (pos i)) e ∙ remove_slow_header
