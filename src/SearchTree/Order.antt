-- ===== src/SearchTree/Order.antt =====
-- tree.h: lists in ascending order with repeats, and where a value belongs in one.
use xteam.Prelude.{
  ◌≡◌, refl, inl, inr, Bool, true, false, ◌||◌, List, [], ◌∷◌, ◌++◌, arith, if◌then◌else◌,
  Bool-cases, All,
}
use xteam.Arrays.Order.{Order, le, le_chain}
use xteam.SearchTree.Types.{equal}

module _ {T : Type 0} where
  pub All-split : (P : T → Type 0) (xs ys : List T) → All P (xs ++ ys) → All P xs × All P ys
  All-split P [] ys all = (record {}, all)
  All-split P (x ∷ xs) ys (here, all) = let (a, b) = All-split P xs ys all in ((here, a), b)

  pub All-join : (P : T → Type 0) (xs ys : List T) → All P xs → All P ys → All P (xs ++ ys)
  All-join P [] ys a b = b
  All-join P (x ∷ xs) ys (here, a) b = (here, All-join P xs ys a b)

module _ {T : Type 0} ⦃o : Order T⦄ where
  -- Each value is at most all that follow.
  abbrev pub IsAscending : List T → Type 0
  IsAscending [] = Unit
  IsAscending (x ∷ xs) = All (λ y. le x y ≡ true) xs × IsAscending xs

  -- In front of the first value that is not less.
  abbrev pub put : T → List T → List T
  put e [] = e ∷ []
  put e (x ∷ xs) = if le e x then e ∷ x ∷ xs else x ∷ put e xs

  -- Whether a value is equal.
  abbrev pub has : T → List T → Bool
  has e [] = false
  has e (x ∷ xs) = equal x e || has e xs

  pub IsAscending-append :
      (xs ys : List T) (x : T)
      → IsAscending (xs ++ x ∷ ys)
      → All (λ y. le y x ≡ true) xs × IsAscending xs × All (λ y. le x y ≡ true) ys × IsAscending ys
  IsAscending-append [] ys x (above, rest) = (record {}, record {}, above, rest)
  IsAscending-append (z ∷ xs) ys x (above, rest) =
      let (a, b, c, d) = IsAscending-append xs ys x rest in
      let (front, (less, back)) = All-split (λ y. le z y ≡ true) xs (x ∷ ys) above in
      ((less, a), (front, b), c, d)

  pub All-le :
      (e x : T) (ys : List T)
      → le e x ≡ true
      → All (λ y. le x y ≡ true) ys
      → All (λ y. le e y ≡ true) ys
  All-le e x [] h above = above
  All-le e x (y ∷ ys) h (first, above) = (le_chain e x y h first, All-le e x ys h above)

  put-All : (P : T → Type 0) (e : T) (xs : List T) → P e → All P xs → All P (put e xs)
  put-All P e [] here all = (here, record {})
  put-All P e (x ∷ xs) here (first, all) = elim (Bool-cases (le e x)) [
    | inl q ↦ rw q (here, (first, all))
    | inr q ↦ rw q (first, put-All P e xs here all)
  ]

  pub IsAscending-remove :
      (xs ys : List T) (x : T) → IsAscending (xs ++ x ∷ ys) → IsAscending (xs ++ ys)
  IsAscending-remove [] ys x (above, h) = h
  IsAscending-remove (z ∷ xs) ys x (above, h) =
      let (front, (less, back)) = All-split (λ y. le z y ≡ true) xs (x ∷ ys) above in
      (All-join (λ y. le z y ≡ true) xs ys front back, IsAscending-remove xs ys x h)

  pub put-IsAscending : (e : T) (xs : List T) → IsAscending xs → IsAscending (put e xs)
  put-IsAscending e [] h = (record {}, record {})
  put-IsAscending e (x ∷ xs) (above, h) = elim (Bool-cases (le e x)) [
    | inl q ↦ rw q ((q, All-le e x xs q above), (above, h))
    | inr q ↦ rw q (
      put-All (λ y. le x y ≡ true) e xs (ground (arith, o.lt_irrefl x, o.lt_trans x e x)) above,
      put-IsAscending e xs h,
    )
  ]

  pub put-below :
      (e x : T) (xs ys : List T) → le e x ≡ true → put e (xs ++ x ∷ ys) ≡ put e xs ++ x ∷ ys
  put-below e x [] ys h = ground arith
  put-below e x (z ∷ xs) ys h = ground (arith, put-below e x xs ys h)

  pub put-above :
      (e x : T) (xs ys : List T)
      → le e x ≡ false
      → All (λ y. le y x ≡ true) xs
      → put e (xs ++ x ∷ ys) ≡ xs ++ x ∷ put e ys
  put-above e x [] ys h below = ground arith
  put-above e x (z ∷ xs) ys h (first, below) =
      ground (arith, put-above e x xs ys h below, o.le_trans e z x)

  pub has-append : (e : T) (xs ys : List T) → has e (xs ++ ys) ≡ (has e xs || has e ys)
  has-append e [] ys = refl
  has-append e (x ∷ xs) ys = ground (arith, has-append e xs ys)

  -- Nothing equal is among greater values, nor among lesser ones.
  pub has-above :
      (e x : T) (ys : List T) → o.lt e x ≡ true → All (λ y. le x y ≡ true) ys → has e ys ≡ false
  has-above e x [] h above = refl
  has-above e x (y ∷ ys) h (first, above) =
      ground (arith, has-above e x ys h above, o.le_trans x y e, o.lt_irrefl e)

  pub has-below :
      (e x : T) (ys : List T) → o.lt x e ≡ true → All (λ y. le y x ≡ true) ys → has e ys ≡ false
  has-below e x [] h below = refl
  has-below e x (y ∷ ys) h (first, below) =
      ground (arith, has-below e x ys h below, o.le_trans e y x)
