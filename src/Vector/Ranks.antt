-- ===== src/Vector/Ranks.antt =====
-- vector.h: `search`, `disordered` and `reverse`.
use xteam.Prelude.{
  ℕ, zero, suc, ◌+◌, ◌-◌, ◌/◌, ◌≤◌, ◌<◌, ◌≡◌, refl, ◌↔◌, inl, inr, true, ◌&&◌, List, arith, ltb,
  leb, ◌==◌, if◌then◌else◌, Bool-cases, length,
}
use xteam.Arrays.Order.{Order, at, le, IsSortedOn, le_refl, le_chain}
use xteam.Arrays.Swap.{swap, length-swap, at-swap}
use xteam.Vector.Types.{
  Vector, disordered_from, disordered, search_from, search, reverse_from, reverse,
}
use xteam.Vector.Edits.{IsVector}
use mathlib.Core.Path.{subst}

module _ {T : Type 0} ⦃o : Order T⦄ where
  -- What a search comes to: all below it is at most `e`, and all from it on is greater.
  abbrev pub IsPlace : T → ℕ → ℕ → ℕ → List T → Type 0
  IsPlace e lo hi s elem =
      (lo ≤ s)
      × (s ≤ hi)
      × ((k : ℕ) → lo ≤ k → k < s → le (at elem k) e ≡ true)
      × ((k : ℕ) → s ≤ k → k < hi → o.lt e (at elem k) ≡ true)

  search_from_lem :
      (n : ℕ) (e : T) (lo hi : ℕ) (elem : List T)
      → IsSortedOn lo hi elem
      → lo ≤ hi
      → hi - lo < n
      → IsPlace e lo hi (search_from n e lo hi elem) elem
  unfolding search_from
  search_from_lem zero e lo hi elem sorted h fuel = absurd (omega arith)
  search_from_lem (suc n) e lo hi elem sorted h fuel =
      let mi = (lo + hi) / 2 in
      elim (Bool-cases (ltb lo hi)) [
        | inr f ↦
            rw f (omega arith, h, λ k a b. absurd (omega arith), λ k a b. absurd (ground arith))
        | inl f ↦
            let less : lo < hi = ground arith in
            elim (Bool-cases (o.lt e (at elem mi))) [
              | inl g ↦
                  let (l1, l2, low, high) =
                    search_from_lem n e lo mi elem (λ a b x y z. sorted a b x y (omega arith))
                      (omega arith) (omega arith) in
                  rw f (
                    rw g (
                      l1,
                      omega arith,
                      low,
                      λ k a b.
                          ground
                            (arith, high k, sorted mi k, o.le_trans (at elem mi) (at elem k) e),
                    ))
              | inr g ↦
                  let (l1, l2, low, high) =
                    search_from_lem n e (mi + 1) hi elem (λ a b x y z. sorted a b (omega arith) y z)
                      (omega arith) (omega arith) in
                  rw f (
                    rw g (
                      omega arith,
                      l2,
                      λ k a b.
                          ground (arith, low k, sorted k mi, le_chain (at elem k) (at elem mi) e),
                      high,
                    ))
            ]
      ]

  -- `search` in ranks that ascend from `lo` on, below `hi`, which is not less than `lo`, finds
  -- the last that does not hold more than `e`, and 1 before the first rank where there is none.
  pub search_lem :
      (e : T) (lo hi : ℕ) (elem : List T)
      → IsSortedOn lo hi elem
      → lo ≤ hi
      → IsPlace e lo hi (search e lo hi elem) elem
  unfolding search
  search_lem e lo hi elem sorted h =
      search_from_lem (hi - lo + 1) e lo hi elem sorted h (omega arith)

  disordered_from_zero :
      (n idx : ℕ) (elem : List T)
      → 0 < idx
      → disordered_from n idx elem ≡ 0
      → (k : ℕ) → idx ≤ k
      → k < idx + n
      → le (at elem (k - 1)) (at elem k) ≡ true
  unfolding disordered_from
  disordered_from_zero zero idx elem h none_found k a b = absurd (omega arith)
  disordered_from_zero (suc n) idx elem h none_found k a b = elim (Bool-cases (k == idx)) [
    | inl e ↦ (let same : k ≡ idx = ground arith in rw same (ground arith))
    | inr e ↦
        disordered_from_zero n (idx + 1) elem (omega arith) (ground arith) k (ground arith)
          (omega arith)
  ]

  neighbours-IsSortedOn :
      (hi : ℕ) (elem : List T)
      → ((k : ℕ) → 0 < k → k < hi → le (at elem (k - 1)) (at elem k) ≡ true)
      → (n i : ℕ) → i + n < hi
      → le (at elem i) (at elem (i + n)) ≡ true
  neighbours-IsSortedOn hi elem near zero i h =
      let same : i + 0 ≡ i = omega arith in rw same (le_refl (at elem i))
  neighbours-IsSortedOn hi elem near (suc n) i h =
      let before : i + suc n - 1 ≡ i + n = omega arith in
      le_chain (at elem i) (at elem (i + n)) (at elem (i + suc n))
        (neighbours-IsSortedOn hi elem near n i (omega arith)) (ground (arith, near (i + suc n)))

  sorted-disordered_from :
      (n idx : ℕ) (elem : List T)
      → ((k : ℕ) → idx ≤ k → k < idx + n → le (at elem (k - 1)) (at elem k) ≡ true)
      → disordered_from n idx elem ≡ 0
  unfolding disordered_from
  sorted-disordered_from zero idx elem near = refl
  sorted-disordered_from (suc n) idx elem near = ground (
    arith,
    near idx,
    sorted-disordered_from n (idx + 1) elem (λ k a b. near k (omega arith) (omega arith)),
  )

  -- `disordered` returns 0 for the vectors that ascend, and for no others.
  pub disordered_lem : (v : Vector T) → (disordered v ≡ 0) ↔ IsSortedOn 0 v.size v.elem
  unfolding disordered
  disordered_lem v = (
    λ none_found i j a b c.
        let near = λ (k : ℕ) (x : 0 < k) (y : k < v.size).
          disordered_from_zero (v.size - 1) 1 v.elem (omega arith) none_found k (omega arith)
            (omega arith) in
        let up = neighbours-IsSortedOn v.size v.elem near (j - i) i (omega arith) in
        let here : i + (j - i) ≡ j = omega arith in
        subst (λ k. le (at v.elem i) (at v.elem k) ≡ true) here up,
    λ sorted.
        sorted-disordered_from (v.size - 1) 1 v.elem
          (λ k a b. sorted (k - 1) k (omega arith) (omega arith) (omega arith)),
  )

  reverse_from_lem :
      (n s e k : ℕ) (elem : List T)
      → e < length elem
      → e - s < n
      → at (reverse_from n s e elem) k
        ≡ (if leb s k && leb k e then at elem (s + e - k) else at elem k)
  unfolding reverse_from
  reverse_from_lem zero s e k elem h fuel = absurd (omega arith)
  reverse_from_lem (suc n) s e k elem h fuel = elim (Bool-cases (ltb s e)) [
    | inr f ↦ rw f (ground arith)
    | inl f ↦
        let less : s < e = ground arith in
        let read = λ (i : ℕ). at-swap s e i elem (omega arith) h in
        let rest =
          reverse_from_lem n (s + 1) (e - 1) k (swap s e elem) (omega (arith, length-swap s e elem))
            (omega arith) in
        rw f (ground (arith, rest, read k, read (s + e - k)))
  ]

  -- `reverse` puts the element of each rank to the rank that is as far from the other end.
  pub reverse_lem :
      (v : Vector T)
      → IsVector v
      → (k : ℕ) → k < v.size
      → at (reverse v).elem k ≡ at v.elem (v.size - 1 - k)
  unfolding reverse
  reverse_lem v (len, fits, some_room) k h =
      ground (arith, reverse_from_lem v.size 0 (v.size - 1) k v.elem (omega arith) (omega arith))
