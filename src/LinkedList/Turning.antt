-- ===== src/LinkedList/Turning.antt =====
-- list.h: `Reverse` turns the links forwards, and not all of those backwards.
use xteam.Prelude.{
  ℕ, zero, suc, ◌+◌, ◌≤◌, ◌<◌, ◌≡◌, refl, ap, ◌∙◌, inl, inr, some, arith, ◌==◌, Bool-cases,
}
use xteam.LinkedList.Types.{LinkedList, write, first, last}
use xteam.LinkedList.Runners.{turn_from, turn_round}
use xteam.LinkedList.Linked.{IsList}
use xteam.LinkedList.Counted.{at_first}

-- The links where the first k nodes are turned.
record IsTurning {T : Type 0} (s : LinkedList T) (n : ℕ) (pos : ℕ → ℕ) (k : ℕ) : Type 0 where
  low : 0 < k
  high : k ≤ n
  header_at : pos 0 ≡ s.header
  trailer_at : pos (suc n) ≡ s.trailer
  apart : (i j : ℕ) → i ≤ suc n → j ≤ suc n → pos i ≡ pos j → i ≡ j
  end_at : s.succ (pos 1) ≡ pos (suc n)
  turned_at : (i : ℕ) → 0 < i → i < k → s.succ (pos (suc i)) ≡ pos i
  ahead_at : (i : ℕ) → k < i → i ≤ n → s.succ (pos i) ≡ pos (suc i)
  pred_at : (i : ℕ) → 0 < i → i < k → s.pred (pos (suc i)) ≡ pos (suc (suc i))
  pred_first : s.pred (pos 1) ≡ pos 0
  pred_trailer : s.pred (pos (suc n)) ≡ pos n

module _ {T : Type 0} where
  -- What `Reverse` makes of a list: forwards, the header leads to the n-th node, each node to the one
  -- before it, and the first to the trailer; backwards, the trailer leads to the n-th node still, and the
  -- first to the header.
  abbrev pub IsTurned : LinkedList T → ℕ → (ℕ → ℕ) → LinkedList T → Type 0
  IsTurned s n pos s' =
      (s'.succ s.header ≡ pos n)
      × ((i : ℕ) → 0 < i → i < n → s'.succ (pos (suc i)) ≡ pos i)
      × (s'.succ (pos 1) ≡ s.trailer)
      × ((i : ℕ) → 0 < i → i < n → s'.pred (pos (suc i)) ≡ pos (suc (suc i)))
      × (s'.pred (pos 1) ≡ s.header)
      × (s'.val ≡ s.val)

  module _ (s : LinkedList T) (n : ℕ) (pos : ℕ → ℕ) (k : ℕ) (h : IsTurning s n pos k)
      (more : k < n) where
    turned : LinkedList T
    turned = record s {
      succ = write s.succ (pos (suc k)) (pos k);
      pred = write s.pred (pos (suc k)) (s.succ (pos (suc k)));
    }

    turned-IsTurning : IsTurning turned n pos (suc k)
    unfolding turned
    turned-IsTurning = record {
      low = omega arith;
      high = omega arith;
      header_at = h.header_at;
      trailer_at = h.trailer_at;
      apart = h.apart;
      end_at = ground (arith, h.end_at, h.apart 1 (suc k), h.low);
      turned_at = λ i a b. ground (arith, h.turned_at i, h.apart (suc i) (suc k));
      ahead_at = λ i a b. ground (arith, h.ahead_at i, h.apart i (suc k));
      pred_at = λ i a b. ground (arith, h.pred_at i, h.apart (suc i) (suc k), h.ahead_at (suc k));
      pred_first = ground (arith, h.pred_first, h.apart 1 (suc k), h.low);
      pred_trailer = ground (arith, h.pred_trailer, h.apart (suc n) (suc k));
    }

  turn_from_lem :
      (fuel : ℕ) (s : LinkedList T) (n : ℕ) (pos : ℕ → ℕ) (k : ℕ)
      → IsTurning s n pos k
      → n < fuel + k
      → (s' : LinkedList T) × (turn_from fuel s (pos k) (pos (suc k)) ≡ some s')
        × IsTurned s n pos s'
        × (last s' ≡ first s')
  unfolding turn_from turned
  turn_from_lem zero s n pos k h less = absurd (omega (arith, h.high, less))
  turn_from_lem (suc fuel) s n pos k h less =
      let t : (pos (suc k) == s.trailer) ≡ (k == n) =
        ground (arith, h.trailer_at, h.apart (suc k) (suc n), h.high) in
      rw t (elim (Bool-cases (k == n)) [
        | inl e ↦ rw e (
          record s { succ = write s.succ s.header (pos k) },
          refl,
          (
            ground (arith, h.high),
            λ i a b. ground (arith, h.turned_at i, h.header_at, h.apart (suc i) 0),
            ground (arith, h.end_at, h.trailer_at, h.header_at, h.apart 1 0),
            λ i a b. ground (arith, h.pred_at i),
            ground (arith, h.pred_first, h.header_at),
            refl,
          ),
          ground (arith, h.pred_trailer, h.trailer_at, h.header_at),
        )
        | inr e ↦
            let more : k < n = ground (arith, h.high) in
            let s1 = turned s n pos k h more in
            let h1 = turned-IsTurning s n pos k h more in
            let (s', run, done, same) = turn_from_lem fuel s1 n pos (suc k) h1 (omega arith) in
            rw e (
              s',
              ap (turn_from fuel s1 (pos (suc k))) (h.ahead_at (suc k) (omega arith) (omega arith))
                  ∙ run,
              done,
              same,
            )
      ])

  first-IsTurning :
      (s : LinkedList T) (n : ℕ) (pos : ℕ → ℕ)
      → IsList s n pos
      → 0 < n
      → IsTurning (record s { succ = write s.succ (pos 1) s.trailer }) n pos 1
  first-IsTurning s n pos h some_node = record {
    low = omega arith;
    high = some_node;
    header_at = h.header_at;
    trailer_at = h.trailer_at;
    apart = h.apart;
    end_at = ground (arith, h.trailer_at);
    turned_at = λ i a b. absurd (omega arith);
    ahead_at = λ i a b. ground (arith, h.succ_at i, h.apart i 1);
    pred_at = λ i a b. absurd (omega arith);
    pred_first = h.pred_at 0 (omega arith);
    pred_trailer = h.pred_at n (omega arith);
  }

  -- `Reverse` of a list that is not empty, with as many rounds as there are nodes: the links forwards lead
  -- from the header to the last node, from there back to the first, and on to the trailer; but the links
  -- backwards do not go through it: the trailer's leads to the node that is now the first, so that `last`
  -- returns it.
  pub turn_round_lem :
      (fuel : ℕ) (s : LinkedList T) (n : ℕ) (pos : ℕ → ℕ)
      → IsList s n pos
      → 0 < n
      → n ≤ fuel
      → (s' : LinkedList T) × (turn_round fuel s ≡ some s')
        × IsTurned s n pos s'
        × (last s' ≡ first s')
  unfolding turn_round
  turn_round_lem fuel s n pos h some_node less =
      let s1 = record s { succ = write s.succ (pos 1) s.trailer } in
      let (s', run, done, same) =
        turn_from_lem fuel s1 n pos 1 (first-IsTurning s n pos h some_node) (omega arith) in
      (
        s',
        ap (λ p. turn_from fuel (record s { succ = write s.succ p s.trailer }) p (s.succ p))
              (at_first s n pos h)
            ∙ ap (turn_from fuel s1 (pos 1)) (h.succ_at 1 some_node)
            ∙ run,
        done,
        same,
      )
