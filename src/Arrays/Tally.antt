-- ===== src/Arrays/Tally.antt =====
-- How many of an array's first elements pass a test, for proofs that count over a range.
use xteam.Prelude.{
  ℕ, zero, suc, ◌+◌, ◌<◌, ◌≡◌, refl, sym, ◌∙◌, Bool, List, [], ◌∷◌, arith, if◌then◌else◌, length,
  count_if,
}
use xteam.Arrays.Order.{Order, at, SameItems}

module _ {T : Type 0} ⦃o : Order T⦄ where
  -- How many of the first `n` elements pass.
  unfoldable pub tally : (T → Bool) → List T → ℕ → ℕ
  tally P arr zero = 0
  tally P arr (suc n) = tally P arr n + (if P (at arr n) then 1 else 0)

  tally-cons :
      (P : T → Bool) (x : T) (arr : List T) (n : ℕ)
      → tally P (x ∷ arr) (suc n) ≡ (if P x then 1 else 0) + tally P arr n
  unfolding tally
  tally-cons P x arr zero = omega arith
  tally-cons P x arr (suc n) = ground (arith, tally-cons P x arr n)

  -- Over the whole array it is the count.
  pub tally-length : (P : T → Bool) (arr : List T) → tally P arr (length arr) ≡ count_if P arr
  unfolding tally
  tally-length P [] = refl
  tally-length P (x ∷ arr) = tally-cons P x arr (length arr) ∙ ground (arith, tally-length P arr)

  -- Ranges with the same elements in the same order hold as many.
  pub tally_shift :
      (P : T → Bool) (xs ys : List T) (i l n : ℕ)
      → ((k : ℕ) → k < n → at xs (i + k) ≡ at ys (l + k))
      → tally P xs (i + n) + tally P ys l ≡ tally P xs i + tally P ys (l + n)
  unfolding tally
  tally_shift P xs ys i l zero same =
      let one : i + 0 ≡ i = omega arith in let two : l + 0 ≡ l = omega arith in rw one (rw two refl)
  tally_shift P xs ys i l (suc n) same =
      let rest = tally_shift P xs ys i l n (λ k h. same k (omega arith)) in
      let last = same n (omega arith) in
      let one : i + suc n ≡ suc (i + n) = omega arith in
      let two : l + suc n ≡ suc (l + n) = omega arith in
      rw one (rw two (rw last (omega (arith, rest))))

  -- Arrays that agree below `n` hold as many below it.
  pub tally_agree :
      (P : T → Bool) (xs ys : List T) (n : ℕ)
      → ((k : ℕ) → k < n → at xs k ≡ at ys k)
      → tally P xs n ≡ tally P ys n
  unfolding tally
  tally_agree P xs ys zero same = refl
  tally_agree P xs ys (suc n) same =
      rw (tally_agree P xs ys n (λ k h. same k (omega arith))) (rw (same n (omega arith)) refl)

  -- Arrays of one length with one tally hold the same elements, as often.
  pub SameItems-tally :
      (xs ys : List T)
      → length xs ≡ length ys
      → ((P : T → Bool) → tally P xs (length xs) ≡ tally P ys (length ys))
      → SameItems xs ys
  SameItems-tally xs ys e h P = sym (tally-length P xs) ∙ h P ∙ tally-length P ys
