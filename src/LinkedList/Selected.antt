-- ===== src/LinkedList/Selected.antt =====
-- list.h: `sort` by selection puts the values of a list in ascending order.
use xteam.Prelude.{
  ℕ, zero, suc, ◌+◌, ◌-◌, ◌≤◌, ◌<◌, ◌≡◌, refl, ap, ◌∙◌, inl, inr, Bool, true, false, ◌&&◌, some,
  arith, leb, ◌==◌, if◌then◌else◌, Bool-cases,
}
use xteam.Arrays.Order.{Order, le, le_refl, le_chain, le_of_lt}
use xteam.LinkedList.Types.{LinkedList, write, first, swap, walk}
use xteam.LinkedList.Sorts.{max_from, selection_from, selection_sort, sort}
use xteam.LinkedList.Linked.{IsList}
use xteam.LinkedList.Counted.{at_first}
use xteam.LinkedList.Tied.{walk_lem}
use xteam.LinkedList.Reversal.{with_val, with_val-IsList, same_place, pred_of, swap_val}

module _ {T : Type 0} where
  -- How many of the first k nodes hold a value that passes a test.
  abbrev pub tally : (T → Bool) → (ℕ → ℕ) → (ℕ → T) → ℕ → ℕ
  tally P pos v zero = 0
  tally P pos v (suc k) = tally P pos v k + (if P (v (pos (suc k))) then 1 else 0)

  module _ (s : LinkedList T) (n : ℕ) (pos : ℕ → ℕ) (h : IsList s n pos) (P : T → Bool) where
    tally-write :
        (v : ℕ → T) (a k : ℕ) (x : T)
        → 0 < a
        → a ≤ n
        → k ≤ n
        → tally P pos (write v (pos a) x) k + (if leb a k && P (v (pos a)) then 1 else 0)
          ≡ tally P pos v k + (if leb a k && P x then 1 else 0)
    tally-write v a zero x low high le' = ground arith
    tally-write v a (suc k) x low high le' =
        let ih = tally-write v a k x low high (omega arith) in
        rw (same_place s n pos h (suc k) a (omega arith) (omega arith))
          (elim (Bool-cases (suc k == a)) [
            | inl e ↦
                let q : suc k ≡ a = ground arith in
                rw e (ground (arith, ih, ap (λ i. P (v (pos i))) q))
            | inr e ↦ rw e (ground (arith, ih))
          ])

    tally-swap :
        (a b : ℕ)
        → 0 < a
        → a ≤ n
        → 0 < b
        → b ≤ n
        → tally P pos (swap s (pos a) (pos b)).val n ≡ tally P pos s.val n
    unfolding swap
    tally-swap a b la ha lb hb =
        let one = tally-write s.val a n (s.val (pos b)) la ha (omega arith) in
        let two =
          tally-write (write s.val (pos a) (s.val (pos b))) b n (s.val (pos a)) lb hb
            (omega arith) in
        ground (arith, one, two)

module _ {T : Type 0} ⦃o : Order T⦄ where
  -- No value up to the u-th is greater.
  abbrev IsMost : (ℕ → ℕ) → (ℕ → T) → ℕ → T → Type 0
  IsMost pos v u x = (j : ℕ) → 0 < j → j ≤ u → le (v (pos j)) x ≡ true

  IsMost-next :
      (pos : ℕ → ℕ) (v : ℕ → T) (i j : ℕ) (x : T)
      → 0 < j
      → j ≤ i
      → le (v (pos i)) x ≡ true
      → (j ≤ i - 1 → le (v (pos j)) x ≡ true)
      → le (v (pos j)) x ≡ true
  IsMost-next pos v i j x low high here below = elim (Bool-cases (j == i)) [
    | inl e ↦ let q : i ≡ j = ground arith in rw q at here
    | inr e ↦ below (ground arith)
  ]

  max_from_lem :
      (fuel : ℕ) (s : LinkedList T) (n : ℕ) (pos : ℕ → ℕ) (i u m : ℕ)
      → IsList s n pos
      → u ≤ n
      → 0 < i
      → i ≤ suc u
      → 0 < m
      → m ≤ u
      → suc u < fuel + i
      → IsMost pos s.val (i - 1) (s.val (pos m))
      → (m' : ℕ) × (max_from fuel s (pos i) (pos (suc u)) (pos m) ≡ some (pos m'))
        × (0 < m')
        × (m' ≤ u)
        × IsMost pos s.val u (s.val (pos m'))
  unfolding max_from
  max_from_lem zero s n pos i u m h hu li hi lm hm less most = absurd (omega (arith, less))
  max_from_lem (suc fuel) s n pos i u m h hu li hi lm hm less most =
      rw (same_place s n pos h i (suc u) (omega arith) (omega arith))
        (elim (Bool-cases (i == suc u)) [
          | inl e ↦ rw e (m, refl, lm, hm, λ j a b. most j a (ground arith))
          | inr e ↦ rw e (
              rw (h.succ_at i (ground arith))
                (elim (Bool-cases (le (s.val (pos m)) (s.val (pos i)))) [
                  | inl q ↦ rw q (
                      max_from_lem fuel s n pos (suc i) u i h hu (omega arith) (ground arith) li
                        (ground arith) (omega arith)
                        (λ j a b.
                          IsMost-next pos s.val i j (s.val (pos i)) a (omega arith)
                            (le_refl (s.val (pos i)))
                            (λ l.
                              le_chain (s.val (pos j)) (s.val (pos m)) (s.val (pos i)) (most j a l)
                                q)))
                  | inr q ↦ rw q (
                      max_from_lem fuel s n pos (suc i) u m h hu (omega arith) (ground arith) lm hm
                        (omega arith)
                        (λ j a b.
                          IsMost-next pos s.val i j (s.val (pos m)) a (omega arith)
                            (le_of_lt (s.val (pos i)) (s.val (pos m)) (ground arith))
                            (λ l. most j a l)))
                ]))
        ])

  -- The values behind the u-th are in order, and none before them is greater.
  abbrev IsSelected : ℕ → (ℕ → ℕ) → (ℕ → T) → ℕ → Type 0
  IsSelected n pos v u =
      (i j : ℕ) → 0 < i → i ≤ j → u < j → j ≤ n → le (v (pos i)) (v (pos j)) ≡ true

  swap-IsSelected :
      (s : LinkedList T) (n : ℕ) (pos : ℕ → ℕ) (u m : ℕ)
      → IsList s n pos
      → u ≤ n
      → 0 < m
      → m ≤ u
      → IsMost pos s.val u (s.val (pos m))
      → IsSelected n pos s.val u
      → IsSelected n pos (swap s (pos m) (pos u)).val (u - 1)
  swap-IsSelected s n pos u m h hu lm hm most sel i j li lij lj hj =
      rw (swap_val s n pos m u i h (omega arith) (omega arith) (omega arith)) (
        rw (swap_val s n pos m u j h (omega arith) (omega arith) (omega arith))
          (ground (arith, sel i j, sel u j, sel m j, most i, most u, le_refl (s.val (pos m)))))

  stay-IsSelected :
      (n : ℕ) (pos : ℕ → ℕ) (v : ℕ → T) (u : ℕ)
      → IsMost pos v u (v (pos u))
      → IsSelected n pos v u
      → IsSelected n pos v (u - 1)
  stay-IsSelected n pos v u most sel i j li lij lj hj = elim (Bool-cases (j == u)) [
    | inl e ↦ let q : u ≡ j = ground arith in rw q at (most i li (omega arith))
    | inr e ↦ sel i j li lij (ground arith) hj
  ]

  selection_from_lem :
      (fuel : ℕ) (s : LinkedList T) (n : ℕ) (pos : ℕ → ℕ) (u : ℕ)
      → IsList s n pos
      → 0 < u
      → u ≤ n
      → suc u < fuel
      → IsSelected n pos s.val u
      → (v : ℕ → T) × (selection_from fuel s (pos 1) (pos u) ≡ some (with_val s v))
        × IsSelected n pos v 1
        × ((P : T → Bool) → tally P pos v n ≡ tally P pos s.val n)
  unfolding selection_from swap
  selection_from_lem zero s n pos u h low high less sel = absurd (omega (arith, less))
  selection_from_lem (suc fuel) s n pos u h low high less sel =
      rw (same_place s n pos h u 1 (omega arith) (omega arith)) (elim (Bool-cases (u == 1)) [
        | inl e ↦ rw e (s.val, refl, λ i j a b c d. sel i j a b (ground arith) d, λ P. refl)
        | inr e ↦
            let (m, run, lm, hm, most) =
              max_from_lem fuel s n pos 1 u 1 h high (omega arith) (omega arith) (omega arith) low
                (omega arith) (λ j a b. absurd (omega arith)) in
            rw e (
              rw (h.succ_at u high) (
                rw run (
                  rw (same_place s n pos h m u (omega arith) (omega arith))
                    (elim (Bool-cases (m == u)) [
                      | inl t ↦
                          let q : m ≡ u = ground arith in
                          rw t (
                            rw (pred_of s n pos h u low (omega arith)) (
                              selection_from_lem fuel s n pos (u - 1) h (ground arith) (omega arith)
                                (omega arith) (stay-IsSelected n pos s.val u (rw q at most) sel)))
                      | inr t ↦
                          let s' = swap s (pos m) (pos u) in
                          let h' = with_val-IsList s n pos s'.val h in
                          let (v, done, sorted, same) =
                            selection_from_lem fuel s' n pos (u - 1) h' (ground arith) (omega arith)
                              (omega arith) (swap-IsSelected s n pos u m h high lm hm most sel) in
                          rw t (
                            rw (pred_of s n pos h u low (omega arith)) (
                              v,
                              done,
                              sorted,
                              λ P. same P ∙ tally-swap s n pos h P m u lm (omega arith) low high,
                            ))
                    ]))))
      ])

  all_sorted :
      (n : ℕ) (pos : ℕ → ℕ) (v : ℕ → T)
      → IsSelected n pos v 1
      → (i j : ℕ) → 0 < i
      → i ≤ j
      → j ≤ n
      → le (v (pos i)) (v (pos j)) ≡ true
  all_sorted n pos v sorted i j li lij hj = elim (Bool-cases (j == 1)) [
    | inl e ↦ let q : i ≡ j = ground arith in rw q (le_refl (v (pos j)))
    | inr e ↦ sorted i j li lij (ground arith) hj
  ]

  sort_start :
      (fuel : ℕ) (s : LinkedList T) (n : ℕ) (pos : ℕ → ℕ)
      → IsList s n pos
      → 0 < n
      → sort fuel s ≡ selection_from fuel s (pos 1) (pos n)
  unfolding sort selection_sort
  sort_start fuel s n pos h some_node =
      let a : (s.size == 0) ≡ false = ground (arith, h.size_is) in
      let b : walk s (s.size - 1) (first s) ≡ pos n =
        ap (λ k. walk s (k - 1) (first s)) h.size_is
        ∙ ap (walk s (n - 1)) (at_first s n pos h)
        ∙ walk_lem s n pos h (n - 1) 1 (omega arith)
        ∙ ap pos (omega arith) in
      rw a (rw b (ap (λ p. selection_from fuel s p (pos n)) (at_first s n pos h)))

  -- `sort` of a list that is not empty, with two rounds more than there are nodes: the nodes stay where
  -- they are, their values ascend, and as many as before pass any test.
  pub sort-IsSelected :
      (fuel : ℕ) (s : LinkedList T) (n : ℕ) (pos : ℕ → ℕ)
      → IsList s n pos
      → 0 < n
      → suc n < fuel
      → (v : ℕ → T) × (sort fuel s ≡ some (with_val s v))
        × IsList (with_val s v) n pos
        × ((i j : ℕ) → 0 < i → i ≤ j → j ≤ n → le (v (pos i)) (v (pos j)) ≡ true)
        × ((P : T → Bool) → tally P pos v n ≡ tally P pos s.val n)
  sort-IsSelected fuel s n pos h some_node less =
      let (v, run, sorted, same) =
        selection_from_lem fuel s n pos n h some_node (omega arith) less
          (λ i j a b c d. absurd (omega arith)) in
      (
        v,
        sort_start fuel s n pos h some_node ∙ run,
        with_val-IsList s n pos v h,
        λ i j a b c. all_sorted n pos v sorted i j a b c,
        same,
      )
