-- ===== src/LinkedList/Tied.antt =====
-- list.h: `IsLoop` on a list that `MakeLoop` has tied.
use xteam.Prelude.{
  ℕ, zero, suc, ◌+◌, ◌-◌, ◌≤◌, ◌<◌, ◌≡◌, refl, sym, ap, ◌∙◌, ◌≢◌, ◌⊎◌, inl, inr, true, false, some,
  arith, leb, ◌==◌, if◌then◌else◌, Bool-cases,
}
use xteam.LinkedList.Types.{LinkedList, write, first, last, walk}
use xteam.LinkedList.Runners.{step_fast, loop_from, is_loop, make_loop}
use xteam.LinkedList.Linked.{IsList}
use xteam.LinkedList.Counted.{at_first}

module _ {T : Type 0} (s : LinkedList T) (n from : ℕ) (pos : ℕ → ℕ) where
  -- The same nodes, with the last one linked back to an earlier one.
  record IsTied : Type 0 where
    low : 0 < from
    high : from ≤ n
    header_at : pos 0 ≡ s.header
    succ_at : (i : ℕ) → i < n → s.succ (pos i) ≡ pos (suc i)
    tied_at : s.succ (pos n) ≡ pos from
    trailer_at : (i : ℕ) → i ≤ n → pos i ≢ s.trailer

  module _ (h : IsTied) where
    next : ℕ → ℕ
    next i = if i == n then from else suc i

    next_at : (i : ℕ) → i ≤ n → s.succ (pos i) ≡ pos (next i)
    unfolding next
    next_at i le = elim (Bool-cases (i == n)) [
      | inl e ↦ let q : i ≡ n = ground arith in rw e (rw q h.tied_at)
      | inr e ↦ rw e (h.succ_at i (ground arith))
    ]

    next_le : (i : ℕ) → i ≤ n → next i ≤ n
    unfolding next
    next_le i le = ground (arith, h.high)

    not_trailer : (i : ℕ) → i ≤ n → (pos i == s.trailer) ≡ false
    not_trailer i le = ground (arith, h.trailer_at i)

    step_fast_tied : (i : ℕ) → i ≤ n → step_fast s (pos i) ≡ pos (next (next i))
    step_fast_tied i le =
        rw (next_at i le)
          (rw (not_trailer (next i) (next_le i le)) (next_at (next i) (next_le i le)))

    -- One round, where the runners are apart.
    loop_from-step :
        (fuel a b : ℕ)
        → a ≤ n
        → b ≤ n
        → (pos a == pos b) ≡ false
        → loop_from (suc fuel) s (pos a) (pos b)
          ≡ loop_from fuel s (pos (next a)) (pos (next (next b)))
    unfolding loop_from
    loop_from-step fuel a b la lb t =
        rw (not_trailer b lb) (rw t (rw (next_at a la) (rw (step_fast_tied b lb) refl)))

    loop_from-met :
        (fuel a b : ℕ)
        → b ≤ n
        → (pos a == pos b) ≡ true
        → loop_from (suc fuel) s (pos a) (pos b) ≡ some true
    unfolding loop_from
    loop_from-met fuel a b lb t = rw (not_trailer b lb) (rw t refl)

    gap_of :
        (a b d : ℕ)
        → from ≤ a
        → b ≤ n
        → (b + d ≡ a) ⊎ (b + d + from ≡ a + suc n)
        → (pos a == pos b) ≡ false
        → 0 < d
    gap_of a b d ha lb gap t = elim (Bool-cases (d == 0)) [
      | inl e ↦ let q : b ≡ a = ground arith in absurd (ground (arith, ap pos q))
      | inr e ↦ ground arith
    ]

    -- Inside the loop the fast runner, which is d nodes behind the slow one, gains one in each round.
    loop_from-inside :
        (fuel a b d : ℕ)
        → from ≤ a
        → a ≤ n
        → from ≤ b
        → b ≤ n
        → d + from ≤ n
        → (b + d ≡ a) ⊎ (b + d + from ≡ a + suc n)
        → d < fuel
        → loop_from fuel s (pos a) (pos b) ≡ some true
    loop_from-inside zero a b d ha la hb lb hd gap less = absurd (omega (arith, less))
    loop_from-inside (suc fuel) a b d ha la hb lb hd gap less = elim (Bool-cases (pos a == pos b)) [
      | inl t ↦ loop_from-met fuel a b lb t
      | inr t ↦
          let some_gap : 0 < d = gap_of a b d ha lb gap t in
          loop_from-step fuel a b la lb t
          ∙ loop_from-inside fuel (next a) (next (next b)) (d - 1) (unfold next in ground arith)
              (next_le a la) (unfold next in ground (arith, h.high))
              (next_le (next b) (next_le b lb)) (omega arith) (unfold next in ground arith)
              (omega arith)
    ]

    -- The fuel is enough for a round of the loop.
    loop_from-near :
        (fuel a b : ℕ)
        → from ≤ a
        → a ≤ n
        → from ≤ b
        → b ≤ n
        → suc n ≤ fuel + from
        → loop_from fuel s (pos a) (pos b) ≡ some true
    loop_from-near fuel a b ha la hb lb less =
        loop_from-inside fuel a b (if leb b a then a - b else a + (suc n - from) - b) ha la hb lb
          (ground arith) (ground arith) (ground arith)

    -- Outside of it, the fast one is ahead.
    loop_from-outside :
        (fuel a b : ℕ)
        → a < from
        → a < b
        → b ≤ n
        → suc n < fuel + a
        → loop_from fuel s (pos a) (pos b) ≡ some true
    loop_from-outside zero a b ha ahead lb less = absurd (omega (arith, h.high))
    loop_from-outside (suc fuel) a b ha ahead lb less = elim (Bool-cases (pos a == pos b)) [
      | inl t ↦ loop_from-met fuel a b lb t
      | inr t ↦
          loop_from-step fuel a b (ground (arith, h.high)) lb t
          ∙ elim (Bool-cases (suc a == from)) [
            | inl e ↦
                loop_from-near fuel (next a) (next (next b)) (unfold next in ground (arith, h.high))
                  (next_le a (ground (arith, h.high))) (unfold next in ground (arith, h.high))
                  (next_le (next b) (next_le b lb)) (unfold next in ground (arith, h.high))
            | inr e ↦
                loop_from-outside fuel (next a) (next (next b))
                  (unfold next in ground (arith, h.high)) (unfold next in ground (arith, h.high))
                  (next_le (next b) (next_le b lb)) (unfold next in ground (arith, h.high))
          ]
    ]

    -- `IsLoop` on the tied list
    is_loop-tied : (fuel : ℕ) → n < fuel → is_loop fuel s ≡ some true
    unfolding is_loop
    is_loop-tied fuel less =
        let one : 1 ≤ n = omega (arith, h.low, h.high) in
        let e : first s ≡ pos 1 = ap s.succ (sym h.header_at) ∙ h.succ_at 0 one in
        rw e (
          rw (not_trailer 1 one) (
            rw (next_at 1 one) (
              rw (not_trailer (next 1) (next_le 1 one)) (
                rw (next_at (next 1) (next_le 1 one)) (elim (Bool-cases (pos (next 1) == pos 1)) [
                  | inl t ↦ rw t refl
                  | inr t ↦ rw t (elim (Bool-cases (from == 1)) [
                    | inl q ↦
                        loop_from-near fuel 1 (next (next 1)) (ground arith) one
                          (unfold next in ground (arith, h.high)) (next_le (next 1) (next_le 1 one))
                          (ground arith)
                    | inr q ↦
                        loop_from-outside fuel 1 (next (next 1)) (ground (arith, h.low))
                          (unfold next in ground (arith, h.high)) (next_le (next 1) (next_le 1 one))
                          (omega arith)
                  ])
                ])))))

module _ {T : Type 0} (s : LinkedList T) (n : ℕ) (pos : ℕ → ℕ) (h : IsList s n pos) where
  pub walk_lem : (k i : ℕ) → i + k ≤ suc n → walk s k (pos i) ≡ pos (i + k)
  unfolding walk
  walk_lem zero i le = ap pos (omega arith)
  walk_lem (suc k) i le =
      rw (h.succ_at i (omega arith)) (walk_lem k (suc i) (omega arith) ∙ ap pos (omega arith))

  make_loop-IsTied :
      (from : ℕ)
      → 0 < from
      → from ≤ n
      → IsTied (record s { succ = write s.succ (last s) (walk s (from - 1) (first s)) }) n from pos
  make_loop-IsTied from low high =
      let e : last s ≡ pos n = ap s.pred (sym h.trailer_at) ∙ h.pred_at n (omega arith) in
      let q : walk s (from - 1) (first s) ≡ pos from =
        ap (walk s (from - 1)) (at_first s n pos h)
        ∙ walk_lem (from - 1) 1 (omega arith)
        ∙ ap pos (omega arith) in
      record {
        low = low;
        high = high;
        header_at = h.header_at;
        succ_at = λ i less. ground (arith, e, q, h.succ_at i, h.apart i n);
        tied_at = ground (arith, e, q);
        trailer_at = λ i le. ground (arith, h.trailer_at, h.apart i (suc n));
      }

  -- `MakeLoop` to a node of the list makes `IsLoop` true; as many rounds as there are nodes, and one more,
  -- are enough for it to end.
  pub make_loop-is_loop :
      (from fuel : ℕ)
      → 0 < from
      → from ≤ n
      → n < fuel
      → (s' : LinkedList T) × (make_loop s from ≡ some s') × (is_loop fuel s' ≡ some true)
  unfolding make_loop
  make_loop-is_loop from fuel low high less =
      let s' = record s { succ = write s.succ (last s) (walk s (from - 1) (first s)) } in
      let e : leb from s.size ≡ true = ground (arith, h.size_is) in
      (s', rw e refl, is_loop-tied s' n from pos (make_loop-IsTied from low high) fuel less)
