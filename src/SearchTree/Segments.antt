-- ===== src/SearchTree/Segments.antt =====
-- tree.h: a list inside a larger one, and what `Index` finds there.
use xteam.Prelude.{
  ℕ, zero, suc, ◌+◌, ◌≤◌, ◌<◌, ◌≡◌, refl, sym, ap, ◌∙◌, inl, inr, true, false, some, List, [], ◌∷◌,
  ◌++◌, arith, ◌==◌, Bool-cases, length, All,
}
use xteam.Arrays.Order.{Order, at}
use xteam.SearchTree.Types.{equal}
use xteam.SearchTree.Order.{All-split}
use xteam.SearchTree.Rebuild.{index_tail, index_head}

module _ {T : Type 0} ⦃o : Order T⦄ where
  -- The list stands in the array from the position on.
  abbrev pub IsAt : List T → ℕ → List T → Type 0
  IsAt arr s [] = Unit
  IsAt arr s (x ∷ xs) = (at arr s ≡ x) × IsAt arr (suc s) xs

  pub IsAt-append :
      (arr : List T) (s e : ℕ) (xs ys : List T)
      → s + length xs ≡ e
      → IsAt arr s (xs ++ ys)
      → IsAt arr s xs × IsAt arr e ys
  IsAt-append arr s e [] ys h p = let q : s ≡ e = omega arith in (record {}, rw q at p)
  IsAt-append arr s e (x ∷ xs) ys h (here, p) =
      let (a, b) = IsAt-append arr (suc s) e xs ys (omega arith) p in ((here, a), b)

  IsAt-tail :
      (x : T) (arr : List T) (s : ℕ) (xs : List T) → IsAt arr s xs → IsAt (x ∷ arr) (suc s) xs
  IsAt-tail x arr s [] p = record {}
  IsAt-tail x arr s (y ∷ xs) (here, p) = (here, IsAt-tail x arr (suc s) xs p)

  pub IsAt-self : (xs : List T) → IsAt xs 0 xs
  IsAt-self [] = record {}
  IsAt-self (x ∷ xs) = (refl, IsAt-tail x xs 0 xs (IsAt-self xs))

  -- No two values are equal.
  abbrev pub IsDistinct : List T → Type 0
  IsDistinct [] = Unit
  IsDistinct (x ∷ xs) = All (λ y. equal x y ≡ false) xs × IsDistinct xs

  equal_sym-All :
      (x : T) (ys : List T) → All (λ y. equal x y ≡ false) ys → All (λ y. equal y x ≡ false) ys
  equal_sym-All x [] other = other
  equal_sym-All x (y ∷ ys) (here, other) = (ground arith, equal_sym-All x ys other)

  pub IsDistinct-append :
      (xs ys : List T) (x : T)
      → IsDistinct (xs ++ x ∷ ys)
      → All (λ y. equal y x ≡ false) xs
        × IsDistinct xs
        × All (λ y. equal y x ≡ false) ys
        × IsDistinct ys
  IsDistinct-append [] ys x (other, rest) = (record {}, record {}, equal_sym-All x ys other, rest)
  IsDistinct-append (z ∷ xs) ys x (other, rest) =
      let (a, b, c, d) = IsDistinct-append xs ys x rest in
      let (front, (here, back)) = All-split (λ y. equal z y ≡ false) xs (x ∷ ys) other in
      ((here, a), (front, b), c, d)

  pub index_tail_lem :
      (arr : List T) (s m : ℕ) (xs : List T) (x : T) (ys : List T)
      → IsAt arr s (xs ++ x ∷ ys)
      → All (λ y. equal y x ≡ false) xs
      → index_tail arr (length xs + suc m) s x ≡ some (s + length xs)
  unfolding index_tail
  index_tail_lem arr s m [] x ys (here, p) other =
      let e : 0 + suc m ≡ suc m = omega arith in
      let q : equal (at arr s) x ≡ true = rw here (ground (arith, o.lt_irrefl x)) in
      let e' : s ≡ s + 0 = omega arith in
      ap (λ rounds. index_tail arr rounds s x) e ∙ rw q (ap some e')
  index_tail_lem arr s m (z ∷ xs) x ys (here, p) (first, other) =
      let e : suc (length xs) + suc m ≡ suc (length xs + suc m) = omega arith in
      let q : equal (at arr s) x ≡ false = rw here first in
      let e' : suc s + length xs ≡ s + suc (length xs) = omega arith in
      ap (λ rounds. index_tail arr rounds s x) e
      ∙ rw q (index_tail_lem arr (suc s) m xs x ys p other ∙ ap some e')

  IsAt-All :
      (P : T → Type 0) (arr : List T) (s : ℕ) (xs : List T)
      → IsAt arr s xs
      → All P xs
      → (i : ℕ) → s ≤ i
      → i < s + length xs
      → P (at arr i)
  IsAt-All P arr s [] p all i h k = absurd (omega arith)
  IsAt-All P arr s (x ∷ xs) (here, p) (first, all) i h k = elim (Bool-cases (s == i)) [
    | inl e ↦ let q : s ≡ i = ground arith in rw (sym q) (rw here first)
    | inr e ↦ IsAt-All P arr (suc s) xs p all i (ground arith) (omega arith)
  ]

  index_head-found :
      (arr : List T) (stop j : ℕ) (x : T)
      → j < stop
      → equal (at arr j) x ≡ true
      → ((i : ℕ) → j < i → i < stop → equal (at arr i) x ≡ false)
      → index_head arr stop x ≡ some j
  unfolding index_head
  index_head-found arr zero j x less here other = absurd (omega (arith, less))
  index_head-found arr (suc idx) j x less here other = elim (Bool-cases (j == idx)) [
    | inl e ↦ let q : idx ≡ j = ground arith in rw q (rw here refl)
    | inr e ↦
        let q : j < idx = ground arith in
        rw (other idx q (omega arith))
          (index_head-found arr idx j x q here (λ i a b. other i a (omega arith)))
  ]

  pub index_head_lem :
      (arr : List T) (s : ℕ) (xs : List T) (x : T) (ys : List T)
      → IsAt arr s (xs ++ x ∷ ys)
      → All (λ y. equal y x ≡ false) ys
      → index_head arr (s + length xs + suc (length ys)) x ≡ some (s + length xs)
  index_head_lem arr s xs x ys p other =
      let (a, (here, b)) = IsAt-append arr s (s + length xs) xs (x ∷ ys) refl p in
      index_head-found arr (s + length xs + suc (length ys)) (s + length xs) x (omega arith)
        (rw here (ground (arith, o.lt_irrefl x)))
        (λ i h k.
          IsAt-All (λ y. equal y x ≡ false) arr (suc (s + length xs)) ys b other i (omega arith)
            (omega arith))
