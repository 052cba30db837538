-- ===== src/LinkedList/Reversal.antt =====
-- list.h: `reverse`, which swaps values, and `Reverse`, which turns the links.
use xteam.Prelude.{
  ℕ, zero, suc, ◌+◌, ◌-◌, ◌≤◌, ◌<◌, ◌≡◌, refl, sym, ap, ◌∙◌, inl, inr, not, ◌&&◌, some, arith, leb,
  ◌==◌, if◌then◌else◌, Bool-cases,
}
use xteam.LinkedList.Types.{LinkedList, last, swap}
use xteam.LinkedList.Sorts.{reverse_from, reverse}
use xteam.LinkedList.Linked.{IsList}
use xteam.LinkedList.Counted.{at_first}

module _ {T : Type 0} where
  -- The list with other values in its nodes.
  abbrev pub with_val : LinkedList T → (ℕ → T) → LinkedList T
  with_val s v = record s { val = v }

  pub with_val-IsList :
      (s : LinkedList T) (n : ℕ) (pos : ℕ → ℕ) (v : ℕ → T)
      → IsList s n pos
      → IsList (with_val s v) n pos
  with_val-IsList s n pos v h = record {
    size_is = h.size_is;
    header_at = h.header_at;
    trailer_at = h.trailer_at;
    succ_at = h.succ_at;
    pred_at = h.pred_at;
    apart = h.apart;
    old = h.old;
    some_node = h.some_node;
  }

  -- The values from the i-th node to the j-th change places; those of other nodes stay.
  abbrev IsMirrored : (ℕ → ℕ) → ℕ → ℕ → ℕ → (ℕ → T) → (ℕ → T) → Type 0
  IsMirrored pos n i j v v' =
      (q : ℕ)
      → q ≤ suc n
      → v' (pos q) ≡ (if leb i q && leb q j then v (pos (i + j - q)) else v (pos q))

  pub same_place :
      (s : LinkedList T) (n : ℕ) (pos : ℕ → ℕ)
      → IsList s n pos
      → (i j : ℕ) → i ≤ suc n
      → j ≤ suc n
      → (pos i == pos j) ≡ (i == j)
  same_place s n pos h i j li lj = elim (Bool-cases (i == j)) [
    | inl e ↦ let q : pos i ≡ pos j = ap pos (ground arith) in ground arith
    | inr e ↦ ground (arith, h.apart i j)
  ]

  pub pred_of :
      (s : LinkedList T) (n : ℕ) (pos : ℕ → ℕ)
      → IsList s n pos
      → (i : ℕ) → 0 < i
      → i ≤ suc n
      → s.pred (pos i) ≡ pos (i - 1)
  pred_of s n pos h i low high =
      let e : i ≡ suc (i - 1) = omega arith in
      ap (λ k. s.pred (pos k)) e ∙ h.pred_at (i - 1) (omega arith)

  pub swap_val :
      (s : LinkedList T) (n : ℕ) (pos : ℕ → ℕ) (i j q : ℕ)
      → IsList s n pos
      → i ≤ suc n
      → j ≤ suc n
      → q ≤ suc n
      → (swap s (pos i) (pos j)).val (pos q)
        ≡ (if q == j then s.val (pos i) else if q == i then s.val (pos j) else s.val (pos q))
  unfolding swap
  swap_val s n pos i j q h li lj lq =
      rw (same_place s n pos h q j lq lj) (rw (same_place s n pos h q i lq li) refl)

  -- To swap the ends and mirror what is between them mirrors it all.
  swap_mirrored :
      (s : LinkedList T) (n : ℕ) (pos : ℕ → ℕ) (k j : ℕ)
      → IsList s n pos
      → suc k < j
      → j ≤ n
      → (q : ℕ) → q ≤ suc n
      → (if leb (suc (suc k)) q && leb q (j - 1)
          then (swap s (pos (suc k)) (pos j)).val (pos (suc (suc k) + (j - 1) - q))
          else (swap s (pos (suc k)) (pos j)).val (pos q))
        ≡ (if leb (suc k) q && leb q j then s.val (pos (suc k + j - q)) else s.val (pos q))
  swap_mirrored s n pos k j h lk lj q lq =
      let r = suc (suc k) + (j - 1) - q in
      elim (Bool-cases (leb (suc (suc k)) q && leb q (j - 1))) [
        | inl e ↦ rw e (
            swap_val s n pos (suc k) j r h (omega arith) (omega arith) (ground arith)
            ∙ ground arith)
        | inr e ↦
            rw e (swap_val s n pos (suc k) j q h (omega arith) (omega arith) lq ∙ ground arith)
      ]

  reverse_from_lem :
      (fuel : ℕ) (s : LinkedList T) (n : ℕ) (pos : ℕ → ℕ) (k j : ℕ)
      → IsList s n pos
      → k + j ≡ n
      → k ≤ j
      → j < fuel + k
      → (v : ℕ → T) × (reverse_from fuel s (pos (suc k)) (pos j) ≡ some (with_val s v))
        × IsMirrored pos n (suc k) j s.val v
  unfolding reverse_from swap
  reverse_from_lem zero s n pos k j h sum le less = absurd (omega (arith, le, less))
  reverse_from_lem (suc fuel) s n pos k j h sum le less =
      rw (same_place s n pos h (suc k) j (omega arith) (omega arith)) (
        rw (h.pred_at k (omega arith)) (
          rw (same_place s n pos h k j (omega arith) (omega arith))
            (elim (Bool-cases (not (suc k == j) && not (k == j))) [
              | inr e ↦ rw e (s.val, refl, λ q lq. ground arith)
              | inl e ↦
                  let s' = swap s (pos (suc k)) (pos j) in
                  let h' = with_val-IsList s n pos s'.val h in
                  let (v, run, mirrored) =
                    reverse_from_lem fuel s' n pos (suc k) (j - 1) h' (ground arith) (ground arith)
                      (ground arith) in
                  rw e (
                    rw (h.succ_at (suc k) (ground arith)) (
                      rw (pred_of s n pos h j (ground arith) (omega arith)) (
                        v,
                        run,
                        λ q lq.
                            mirrored q lq
                            ∙ swap_mirrored s n pos k j h (ground arith) (ground arith) q lq,
                      )))
            ])))

  -- `reverse` leaves the nodes where they are, and in each the value of the node as far from the other
  -- end; one round more than there are nodes is enough.
  pub reverse_lem :
      (fuel : ℕ) (s : LinkedList T) (n : ℕ) (pos : ℕ → ℕ)
      → IsList s n pos
      → n < fuel
      → (v : ℕ → T) × (reverse fuel s ≡ some (with_val s v))
        × IsList (with_val s v) n pos
        × ((i : ℕ) → 0 < i → i ≤ n → v (pos i) ≡ s.val (pos (suc n - i)))
        × (v s.header ≡ s.val s.header)
        × (v s.trailer ≡ s.val s.trailer)
  unfolding reverse
  reverse_lem fuel s n pos h less =
      let e : last s ≡ pos n = ap s.pred (sym h.trailer_at) ∙ h.pred_at n (omega arith) in
      let (v, run, mirrored) =
        reverse_from_lem fuel s n pos 0 n h (omega arith) (omega arith) (omega arith) in
      rw (at_first s n pos h) (
        rw e (
          v,
          run,
          with_val-IsList s n pos v h,
          λ i low high. mirrored i (omega arith) ∙ ground arith,
          ap v (sym h.header_at) ∙ mirrored 0 (omega arith) ∙ ground (arith, h.header_at),
          ap v (sym h.trailer_at) ∙ mirrored (suc n) (omega arith) ∙ ground (arith, h.trailer_at),
        ))
