-- ===== src/Arrays/Swap.antt =====
-- Exchange of two elements of an array.
use xteam.Prelude.{
  ℕ, zero, suc, ◌+◌, ◌<◌, ◌≡◌, ◌∙◌, Bool, List, [], ◌∷◌, arith, ◌==◌, if◌then◌else◌, length, set,
  count_if, length-set, get_or-set,
}
use xteam.Arrays.Order.{Order, at, SameItems}

module _ {T : Type 0} ⦃o : Order T⦄ where
  -- `Swap(arr[i], arr[j])`
  unfoldable pub swap : ℕ → ℕ → List T → List T
  swap i j arr = set (set arr i (at arr j)) j (at arr i)

  pub length-swap : (i j : ℕ) (arr : List T) → length (swap i j arr) ≡ length arr
  unfolding swap
  length-swap i j arr = length-set (set arr i (at arr j)) j (at arr i) ∙ length-set arr i (at arr j)

  -- A read after the exchange.
  pub at-swap :
      (i j k : ℕ) (arr : List T)
      → i < length arr
      → j < length arr
      → at (swap i j arr) k ≡ (if k == j then at arr i else if k == i then at arr j else at arr k)
  unfolding swap
  at-swap i j k arr hi hj = ground (
    arith,
    get_or-set (set arr i (at arr j)) j k (at arr i) o.blank,
    get_or-set arr i k (at arr j) o.blank,
    length-set arr i (at arr j),
  )

  -- A write trades the old element for the new one.
  pub count_if-set :
      (P : T → Bool) (arr : List T) (i : ℕ) (v : T)
      → i < length arr
      → count_if P (set arr i v) + (if P (at arr i) then 1 else 0)
        ≡ count_if P arr + (if P v then 1 else 0)
  count_if-set P [] i v h = absurd (omega arith)
  count_if-set P (x ∷ arr) zero v h = ground arith
  count_if-set P (x ∷ arr) (suc i) v h = ground (arith, count_if-set P arr i v (omega arith))

  pub swap-SameItems :
      (i j : ℕ) (arr : List T) → i < length arr → j < length arr → SameItems (swap i j arr) arr
  unfolding swap
  swap-SameItems i j arr hi hj P =
      let once = set arr i (at arr j) in
      ground (
        arith,
        count_if-set P once j (at arr i) (rw (length-set arr i (at arr j)) hj),
        count_if-set P arr i (at arr j) hi,
        get_or-set arr i j (at arr j) o.blank,
      )
