-- ===== src/Arrays/Order.antt =====
-- The comparison `<` of the template parameter `T`, as an interface; `a > b` is `b < a`.
use xteam.Prelude.{ℕ, ◌≤◌, ◌<◌, ◌≡◌, Bool, true, false, not, List, arith, length, get_or, count_if}

pub record Order (T : Type 0) : Type 0 where
  pub lt : T → T → Bool
  -- what stands in memory that holds no element yet
  pub blank : T
  pub lt_irrefl : (a : T) → lt a a ≡ false
  pub lt_trans : (a b c : T) → lt a b ≡ true → lt b c ≡ true → lt a c ≡ true
  pub le_trans : (a b c : T) → lt b a ≡ false → lt c b ≡ false → lt c a ≡ false

module _ {T : Type 0} ⦃o : Order T⦄ where
  -- `a <= b`
  abbrev pub le : T → T → Bool
  le a b = not (o.lt b a)

  abbrev pub at : List T → ℕ → T
  at arr i = get_or arr i o.blank

  -- The elements from `lo` up to `hi`, without it, ascend.
  abbrev pub IsSortedOn : ℕ → ℕ → List T → Type 0
  IsSortedOn lo hi arr = (i j : ℕ) → lo ≤ i → i ≤ j → j < hi → le (at arr i) (at arr j) ≡ true

  abbrev pub IsSorted : List T → Type 0
  IsSorted arr = IsSortedOn 0 (length arr) arr

  -- Every element of the one range is at most every element of the other.
  abbrev pub IsBelow : ℕ → ℕ → ℕ → ℕ → List T → Type 0
  IsBelow lo hi lo' hi' arr =
      (i j : ℕ) → lo ≤ i → i < hi → lo' ≤ j → j < hi' → le (at arr i) (at arr j) ≡ true

  pub le_refl : (a : T) → le a a ≡ true
  le_refl a = ground (arith, o.lt_irrefl a)

  pub le_of_lt : (a b : T) → o.lt a b ≡ true → le a b ≡ true
  le_of_lt a b h = ground (arith, o.lt_irrefl a, o.lt_trans a b a)

  pub le_chain : (a b c : T) → le a b ≡ true → le b c ≡ true → le a c ≡ true
  le_chain a b c h k = ground (arith, o.le_trans a b c)

-- The same elements, as often: as many pass any test.
abbrev pub SameItems {ℓ} : {T : Type ℓ} → List T → List T → Type ℓ
SameItems {T = T} xs ys = (P : T → Bool) → count_if P xs ≡ count_if P ys
