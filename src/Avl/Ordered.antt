-- ===== src/Avl/Ordered.antt =====
-- Ascending lists: where a value belongs in one, and how to find it.
use xteam.Prelude.{
  ◌≡◌, refl, true, false, not, ◌&&◌, Option, none, some, List, [], ◌∷◌, ◌++◌, arith, if◌then◌else◌,
  All,
}
use xteam.Arrays.Order.{Order}

module _ {T : Type 0} where
  All-split : (P : T → Type 0) (xs ys : List T) → All P (xs ++ ys) → All P xs × All P ys
  All-split P [] ys all = (record {}, all)
  All-split P (x ∷ xs) ys (here, all) = let (a, b) = All-split P xs ys all in ((here, a), b)

module _ {T : Type 0} ⦃o : Order T⦄ where
  -- Each value is less than all that follow.
  abbrev pub IsAscending : List T → Type 0
  IsAscending [] = Unit
  IsAscending (x ∷ xs) = All (λ y. o.lt x y ≡ true) xs × IsAscending xs

  -- Where a value belongs in an ascending list; one that is there is not put a second time.
  abbrev pub put : T → List T → List T
  put e [] = e ∷ []
  put e (x ∷ xs) = if o.lt e x then e ∷ x ∷ xs else if o.lt x e then x ∷ put e xs else x ∷ xs

  -- The first that is equal.
  abbrev pub find_equal : T → List T → Option T
  find_equal e [] = none
  find_equal e (x ∷ xs) = if not (o.lt e x) && not (o.lt x e) then some x else find_equal e xs

  pub IsAscending-append :
      (xs ys : List T) (x : T)
      → IsAscending (xs ++ x ∷ ys)
      → All (λ y. o.lt y x ≡ true) xs
        × IsAscending xs
        × All (λ y. o.lt x y ≡ true) ys
        × IsAscending ys
  IsAscending-append [] ys x (above, rest) = (record {}, record {}, above, rest)
  IsAscending-append (z ∷ xs) ys x (above, rest) =
      let (a, b, c, d) = IsAscending-append xs ys x rest in
      let (front, (less, back)) = All-split (λ y. o.lt z y ≡ true) xs (x ∷ ys) above in
      ((less, a), (front, b), c, d)

  pub put-below :
      (e x : T) (xs ys : List T) → o.lt e x ≡ true → put e (xs ++ x ∷ ys) ≡ put e xs ++ x ∷ ys
  put-below e x [] ys h = rw h refl
  put-below e x (z ∷ xs) ys h = ground (arith, put-below e x xs ys h)

  pub put-above :
      (e x : T) (xs ys : List T)
      → o.lt x e ≡ true
      → All (λ y. o.lt y x ≡ true) xs
      → put e (xs ++ x ∷ ys) ≡ xs ++ x ∷ put e ys
  put-above e x [] ys h below = ground (arith, o.lt_irrefl e, o.lt_trans e x e)
  put-above e x (z ∷ xs) ys h (first, below) =
      ground (arith, put-above e x xs ys h below, o.lt_trans z x e, o.lt_irrefl e, o.lt_trans e z e)

  pub put-here :
      (e x : T) (xs ys : List T)
      → o.lt e x ≡ false
      → o.lt x e ≡ false
      → All (λ y. o.lt y x ≡ true) xs
      → put e (xs ++ x ∷ ys) ≡ xs ++ x ∷ ys
  put-here e x [] ys h k below = rw h (rw k refl)
  put-here e x (z ∷ xs) ys h k (first, below) =
      ground (arith, put-here e x xs ys h k below, o.le_trans x e z, o.lt_trans e z x)

  pub find_equal-above :
      (e x : T) (xs ys : List T)
      → o.lt x e ≡ true
      → All (λ y. o.lt y x ≡ true) xs
      → find_equal e (xs ++ x ∷ ys) ≡ find_equal e ys
  find_equal-above e x [] ys h below = ground arith
  find_equal-above e x (z ∷ xs) ys h (first, below) =
      ground (arith, find_equal-above e x xs ys h below, o.lt_trans z x e)

  pub find_equal-behind :
      (e : T) (ys : List T) → All (λ y. o.lt e y ≡ true) ys → find_equal e ys ≡ none
  find_equal-behind e [] above = refl
  find_equal-behind e (y ∷ ys) (first, above) = ground (arith, find_equal-behind e ys above)

  pub find_equal-below :
      (e : T) (xs ys : List T) → find_equal e ys ≡ none → find_equal e (xs ++ ys) ≡ find_equal e xs
  find_equal-below e [] ys h = h
  find_equal-below e (z ∷ xs) ys h = ground (arith, find_equal-below e xs ys h)

  pub find_equal-here :
      (e x : T) (xs ys : List T)
      → o.lt e x ≡ false
      → o.lt x e ≡ false
      → All (λ y. o.lt y x ≡ true) xs
      → find_equal e (xs ++ x ∷ ys) ≡ some x
  find_equal-here e x [] ys h k below = rw h (rw k refl)
  find_equal-here e x (z ∷ xs) ys h k (first, below) =
      ground (arith, find_equal-here e x xs ys h k below, o.le_trans x e z, o.le_trans z e x)

  pub less-All :
      (e x : T) (ys : List T)
      → o.lt e x ≡ true
      → All (λ y. o.lt x y ≡ true) ys
      → All (λ y. o.lt e y ≡ true) ys
  less-All e x [] h above = above
  less-All e x (y ∷ ys) h (first, above) = (o.lt_trans e x y h first, less-All e x ys h above)
