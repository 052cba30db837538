-- ===== src/KdTree/Order.antt =====
-- kdtree.c: the order of the tree, and what insertion does to its nodes.
use xteam.Prelude.{
  ℕ, zero, suc, ◌+◌, ◌%◌, ◌≡◌, refl, ap, Bool, true, false, List, [], ◌∷◌, ◌++◌, arith, length,
  take, count_if, count_if-append,
}
use xteam.Scalar.{Scalar}
use xteam.KdTree.Types.{Memory, malloc, ok, failed, Node, null, node, Entry}
use xteam.KdTree.Rect.{coord}
use xteam.KdTree.Build.{insert_rec}

module _ {R D : Type 0} where
  -- The nodes of a tree, each before the nodes below it.
  abbrev pub entries : Node R D → List (Entry R D)
  entries null = []
  entries (node p i x l r) = record { pos = p; item = x } ∷ (entries l ++ entries r)

  abbrev pub AllPos : (List R → Type 0) → Node R D → Type 0
  AllPos Q null = Unit
  AllPos Q (node p i x l r) = Q p × AllPos Q l × AllPos Q r

module _ {R D : Type 0} ⦃s : Scalar R⦄ where
  -- The indices cycle with the depth from `a` on; to the left of a node its coordinate is
  -- greater, to the right it is not.
  abbrev pub IsKd : ℕ → ℕ → Node R D → Type 0
  IsKd a dim null = Unit
  IsKd a dim (node p i x l r) =
      (i ≡ a)
      × (length p ≡ dim)
      × AllPos (λ q. s.lt (coord q i) (coord p i) ≡ true) l
      × AllPos (λ q. s.lt (coord q i) (coord p i) ≡ false) r
      × IsKd ((a + 1) % dim) dim l
      × IsKd ((a + 1) % dim) dim r

take_all {ℓ} : {A : Type ℓ} (n : ℕ) (xs : List A) → length xs ≡ n → take n xs ≡ xs
take_all zero [] h = refl
take_all zero (x ∷ xs) h = absurd (omega arith)
take_all (suc n) [] h = refl
take_all (suc n) (x ∷ xs) h = ap (λ ys. x ∷ ys) (take_all n xs (omega arith))

module _ {R D : Type 0} ⦃s : Scalar R⦄ where
  pub AllPos-insert_rec :
      (Q : List R → Type 0) (t : Node R D) (pos : List R) (item : D) (a dim : ℕ) (mem : Memory)
      → length pos ≡ dim
      → Q pos
      → AllPos Q t
      → AllPos Q (insert_rec t pos item a dim mem).1
  unfolding insert_rec malloc
  AllPos-insert_rec Q null pos item a dim mem n q h = ground (arith, take_all dim pos n)
  AllPos-insert_rec Q (node p i x l r) pos item a dim mem n q h = ground (
    arith,
    AllPos-insert_rec Q l pos item ((i + 1) % dim) dim mem n q,
    AllPos-insert_rec Q r pos item ((i + 1) % dim) dim mem n q,
  )

  -- Insertion of a point with as many coordinates as the tree has dimensions keeps the order of the
  -- tree, whether or not memory is left.
  pub insert_rec-IsKd :
      (t : Node R D) (pos : List R) (item : D) (a dim : ℕ) (mem : Memory)
      → length pos ≡ dim
      → IsKd a dim t
      → IsKd a dim (insert_rec t pos item a dim mem).1
  unfolding insert_rec malloc
  insert_rec-IsKd null pos item a dim mem n h = ground (arith, take_all dim pos n)
  insert_rec-IsKd (node p i x l r) pos item a dim mem n h =
      let b = (i + 1) % dim in
      ground (
        arith,
        insert_rec-IsKd l pos item b dim mem n,
        insert_rec-IsKd r pos item b dim mem n,
        AllPos-insert_rec (λ q. s.lt (coord q i) (coord p i) ≡ true) l pos item b dim mem n,
        AllPos-insert_rec (λ q. s.lt (coord q i) (coord p i) ≡ false) r pos item b dim mem n,
      )

  -- For a point with as many coordinates as the tree has dimensions: insertion that reports success
  -- adds one node with the given position and item, and leaves the
  -- others as they were; insertion that reports failure leaves the tree as it was.
  pub insert_rec-entries :
      (P : Entry R D → Bool) (t : Node R D) (pos : List R) (item : D) (a dim : ℕ) (mem : Memory)
      → length pos ≡ dim
      → let (st, t', m) = insert_rec t pos item a dim mem in
        (st ≡ ok
          → count_if P (entries t') ≡ count_if P (record { pos = pos; item = item } ∷ entries t))
        × (st ≡ failed → t' ≡ t)
  unfolding insert_rec malloc
  insert_rec-entries P null pos item a dim mem n = ground (arith, take_all dim pos n)
  insert_rec-entries P (node p i x l r) pos item a dim mem n =
      let b = (i + 1) % dim in
      ground (
        arith,
        insert_rec-entries P l pos item b dim mem n,
        insert_rec-entries P r pos item b dim mem n,
        count_if-append P (entries l) (entries r),
        count_if-append P (entries (insert_rec l pos item b dim mem).1) (entries r),
        count_if-append P (entries l) (entries (insert_rec r pos item b dim mem).1),
      )
