-- ===== src/LinkedList/Found.antt =====
-- list.h: which node `find` and `search` return.
use xteam.Prelude.{
  ℕ, zero, suc, ◌+◌, ◌-◌, ◌≤◌, ◌<◌, ◌≡◌, refl, ◌⊎◌, inl, inr, Bool, true, false, ◌||◌, some, arith,
  ◌==◌, Bool-cases,
}
use xteam.Arrays.Order.{Order, le}
use xteam.LinkedList.Types.{LinkedList}
use xteam.LinkedList.Finding.{equal, find_from, find, search_from, search}
use xteam.LinkedList.Linked.{IsList}

module _ {T : Type 0} ⦃o : Order T⦄ (s : LinkedList T) (n : ℕ) (pos : ℕ → ℕ) (h : IsList s n pos)
    (e : T) where
  -- The test fails at the nodes behind the i-th, up to the k-th.
  abbrev pub IsNone : (T → Bool) → ℕ → ℕ → Type 0
  IsNone test i k = (j : ℕ) → i < j → j ≤ k → test (s.val (pos j)) ≡ false

  IsNone-widen :
      (test : T → Bool) (i i' k : ℕ)
      → i ≤ i'
      → test (s.val (pos (suc k))) ≡ false
      → IsNone test i k
      → IsNone test i' (suc k)
  IsNone-widen test i i' k up here none_below j low high = elim (Bool-cases (j == suc k)) [
    | inl q ↦ let q' : suc k ≡ j = ground arith in rw q' at here
    | inr q ↦ none_below j (omega arith) (ground arith)
  ]

  -- The last of m nodes up to the k-th with an equal value, or none.
  abbrev pub IsFound : ℕ → ℕ → ℕ → Type 0
  IsFound k m p =
      ((i : ℕ) × (p ≡ pos i)
        × (i ≤ k)
        × (k < i + m)
        × (equal (s.val (pos i)) e ≡ true)
        × IsNone (λ x. equal x e) i k)
      ⊎ ((p ≡ 0) × IsNone (λ x. equal x e) (k - m) k)

  IsFound-widen :
      (k m p : ℕ)
      → equal (s.val (pos (suc k))) e ≡ false
      → IsFound k m p
      → IsFound (suc k) (suc m) p
  IsFound-widen k m p here (inl (i, q, le', near, eq, rest)) = inl (
    i,
    q,
    omega arith,
    omega arith,
    eq,
    IsNone-widen (λ x. equal x e) i i k (omega arith) here rest,
  )
  IsFound-widen k m p here (inr (q, rest)) =
      inr (q, IsNone-widen (λ x. equal x e) (k - m) (suc k - suc m) k (omega arith) here rest)

  find_from_lem : (m k : ℕ) → 0 < m → m ≤ k → k ≤ n → IsFound k m (find_from s e m (pos (suc k)))
  unfolding find_from
  find_from_lem zero k some_node low high = absurd (omega (arith, some_node))
  find_from_lem (suc m) zero some_node low high = absurd (omega (arith, low))
  find_from_lem (suc m) (suc k) some_node low high =
      let t : (pos (suc k) == s.trailer) ≡ false =
        ground (arith, h.trailer_at, h.apart (suc k) (suc n)) in
      rw (h.pred_at (suc k) high) (
        rw t (elim (Bool-cases (equal (s.val (pos (suc k))) e)) [
          | inl q ↦
              rw q (inl (suc k, refl, omega arith, omega arith, q, λ j a b. absurd (omega arith)))
          | inr q ↦ elim (Bool-cases (m == 0)) [
            | inl z ↦ rw q (
                rw z (
                  inr (
                    refl,
                    IsNone-widen (λ x. equal x e) k (suc k - suc m) k (ground arith) q
                        (λ j a b. absurd (omega arith)),
                  )))
            | inr z ↦ rw q (
                rw z (
                  IsFound-widen k m (find_from s e m (pos (suc k))) q
                    (find_from_lem m k (ground arith) (omega arith) (omega arith))))
          ]
        ]))

  -- The last of m nodes up to the k-th whose value is at most the one looked for, or else the first of
  -- these nodes.
  abbrev pub IsSearched : ℕ → ℕ → ℕ → Type 0
  IsSearched k m p =
      (i : ℕ) × (p ≡ pos i)
      × (i ≤ k)
      × (k < i + m)
      × ((le (s.val (pos i)) e ≡ true) ⊎ (i + m ≡ suc k))
      × IsNone (λ x. le x e) i k

  IsSearched-widen :
      (k m p : ℕ)
      → le (s.val (pos (suc k))) e ≡ false
      → IsSearched k m p
      → IsSearched (suc k) (suc m) p
  IsSearched-widen k m p here (i, q, le', near, last, rest) = (
    i,
    q,
    omega arith,
    omega arith,
    ground arith,
    IsNone-widen (λ x. le x e) i i k (omega arith) here rest,
  )

  stops_lem :
      (m k : ℕ) (b : Bool) → (m == 0 || b) ≡ true → (b ≡ true) ⊎ (suc k + suc m ≡ suc (suc k))
  stops_lem m k true h = inl refl
  stops_lem m k false h = inr (ground arith)

  IsSearched-here :
      (k m : ℕ)
      → (le (s.val (pos (suc k))) e ≡ true) ⊎ (suc k + suc m ≡ suc (suc k))
      → IsSearched (suc k) (suc m) (pos (suc k))
  IsSearched-here k m last =
      (suc k, refl, omega arith, omega arith, last, λ j a b. absurd (omega arith))

  search_from_lem :
      (m k : ℕ) → 0 < m → m ≤ k → k ≤ n → IsSearched k m (search_from s e m (pos (suc k)))
  unfolding search_from
  search_from_lem zero k some_node low high = absurd (omega (arith, some_node))
  search_from_lem (suc m) zero some_node low high = absurd (omega (arith, low))
  search_from_lem (suc m) (suc k) some_node low high =
      let t : (pos (suc k) == s.trailer) ≡ false =
        ground (arith, h.trailer_at, h.apart (suc k) (suc n)) in
      rw (h.pred_at (suc k) high) (
        rw t (elim (Bool-cases (m == 0 || le (s.val (pos (suc k))) e)) [
          | inl q ↦ rw q (IsSearched-here k m (stops_lem m k (le (s.val (pos (suc k))) e) q))
          | inr q ↦ rw q (
              IsSearched-widen k m (search_from s e m (pos (suc k))) (ground arith)
                (search_from_lem m k (ground arith) (omega arith) (omega arith)))
        ]))

  -- `find` and `search` of m nodes that end with the k-th node of a list: `find` returns the last of them
  -- with an equal value, or NULL where there is none; `search` returns the last of them that is not
  -- greater, but where all are greater the first of them, and never the node before it.
  pub find-search :
      (k m : ℕ)
      → 0 < m
      → m ≤ k
      → k ≤ n
      → ((p : ℕ) × (find s e m (pos k) ≡ some p) × IsFound k m p)
        × ((p : ℕ) × (search s e m (pos k) ≡ some p) × IsSearched k m p)
  unfolding find search
  find-search k m some_node low high =
      let a : (m == 0) ≡ false = ground arith in
      let b : (pos k == 0) ≡ false = ground (arith, h.some_node k) in
      rw a (
        rw b (
          rw (h.succ_at k high) (
            (find_from s e m (pos (suc k)), refl, find_from_lem m k some_node low high),
            (search_from s e m (pos (suc k)), refl, search_from_lem m k some_node low high),
          )))
