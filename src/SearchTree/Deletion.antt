-- ===== src/SearchTree/Deletion.antt =====
-- tree.h: `Delete` takes one value out and leaves the others in their order.
use xteam.Prelude.{
  ◌≡◌, ◌≢◌, refl, sym, ap, ◌∙◌, inl, inr, true, false, Option, none, some, List, [], ◌∷◌, ◌++◌,
  arith, Bool-cases, ◌>>=◌,
}
use xteam.Arrays.Order.{Order, le}
use xteam.SearchTree.Types.{Tree, null, node, mid_traver, equal}
use xteam.SearchTree.Deleting.{
  Deletion, absent, deleted, dangling, take_least, delete_found, delete_below, delete, outcome,
}
use xteam.SearchTree.Walks.{append_assoc, append_nil}
use xteam.SearchTree.Order.{
  IsAscending, has, IsAscending-append, IsAscending-remove, has-append, has-above, has-below,
}

module _ {T : Type 0} where
  abbrev listing : T × Tree T → List T
  listing (m, t) = m ∷ mid_traver t

  take_least_lem :
      (x : T) (l r : Tree T) → listing (take_least x l r) ≡ mid_traver l ++ x ∷ mid_traver r
  unfolding take_least mid_traver
  take_least_lem x null r = refl
  take_least_lem x (node y ll lr) r = ap (λ xs. xs ++ x ∷ mid_traver r) (take_least_lem y ll lr)

  delete_found_lem :
      (x : T) (l r : Tree T) → mid_traver (delete_found x l r) ≡ mid_traver l ++ mid_traver r
  unfolding delete_found mid_traver
  delete_found_lem x null null = refl
  delete_found_lem x (node y ll lr) null = sym (append_nil (mid_traver (node y ll lr)))
  delete_found_lem x null (node y rl rr) = refl
  delete_found_lem x (node z ll lr) (node y rl rr) =
      ap (λ xs. mid_traver (node z ll lr) ++ xs) (take_least_lem y rl rr)

module _ {T : Type 0} ⦃o : Order T⦄ where
  -- The one list is the other without one value, which is equal to the given one.
  abbrev pub IsWithout : T → List T → List T → Type 0
  IsWithout value xs ys =
      (front : List T) × (x : T) × (back : List T) × (xs ≡ front ++ x ∷ back)
      × (equal x value ≡ true)
      × (ys ≡ front ++ back)

  IsWithout-left :
      (value x : T) (xs ys zs : List T)
      → IsWithout value xs ys
      → IsWithout value (xs ++ x ∷ zs) (ys ++ x ∷ zs)
  IsWithout-left value x xs ys zs (front, z, back, e, q, e') = (
    front,
    z,
    back ++ x ∷ zs,
    ap (λ l. l ++ x ∷ zs) e ∙ append_assoc front (z ∷ back) (x ∷ zs),
    q,
    ap (λ l. l ++ x ∷ zs) e' ∙ append_assoc front back (x ∷ zs),
  )

  IsWithout-right :
      (value x : T) (xs ys zs : List T)
      → IsWithout value xs ys
      → IsWithout value (zs ++ x ∷ xs) (zs ++ x ∷ ys)
  IsWithout-right value x xs ys zs (front, z, back, e, q, e') = (
    zs ++ x ∷ front,
    z,
    back,
    ap (λ l. zs ++ x ∷ l) e ∙ sym (append_assoc zs (x ∷ front) (z ∷ back)),
    q,
    ap (λ l. zs ++ x ∷ l) e' ∙ sym (append_assoc zs (x ∷ front) back),
  )

  abbrev IsBelow : T → List T → Option (Tree T) → Type 0
  IsBelow value xs none = has value xs ≡ false
  IsBelow value xs (some t) = IsWithout value xs (mid_traver t)

  left-IsBelow :
      (value x : T) (xs : List T) (t : Option (Tree T)) (r : Tree T)
      → has value (x ∷ mid_traver r) ≡ false
      → IsBelow value xs t
      → IsBelow value (xs ++ x ∷ mid_traver r) (t >>= λ l'. some (node x l' r))
  unfolding mid_traver
  left-IsBelow value x xs none r h q = ground (arith, has-append value xs (x ∷ mid_traver r))
  left-IsBelow value x xs (some t) r h q = IsWithout-left value x xs (mid_traver t) (mid_traver r) q

  right-IsBelow :
      (value x : T) (xs : List T) (t : Option (Tree T)) (l : Tree T)
      → has value (mid_traver l) ≡ false
      → equal x value ≡ false
      → IsBelow value xs t
      → IsBelow value (mid_traver l ++ x ∷ xs) (t >>= λ r'. some (node x l r'))
  unfolding mid_traver
  right-IsBelow value x xs none l h k q = ground (arith, has-append value (mid_traver l) (x ∷ xs))
  right-IsBelow value x xs (some t) l h k q =
      IsWithout-right value x xs (mid_traver t) (mid_traver l) q

  delete_below_lem :
      (t : Tree T) (value : T)
      → IsAscending (mid_traver t)
      → IsBelow value (mid_traver t) (delete_below t value)
  unfolding delete_below mid_traver
  delete_below_lem null value h = refl
  delete_below_lem (node x l r) value h =
      let (below, hl, above, hr) = IsAscending-append (mid_traver l) (mid_traver r) x h in
      elim (Bool-cases (equal x value)) [
        | inl e ↦ rw e (mid_traver l, x, mid_traver r, refl, e, delete_found_lem x l r)
        | inr e ↦ elim (Bool-cases (le value x)) [
          | inl q ↦
              let less : o.lt value x ≡ true = ground arith in
              let none_right : has value (x ∷ mid_traver r) ≡ false =
                ground (arith, has-above value x (mid_traver r) less above) in
              rw e (
                rw q (
                  left-IsBelow value x (mid_traver l) (delete_below l value) r none_right
                    (delete_below_lem l value hl)))
          | inr q ↦
              let less : o.lt x value ≡ true = ground arith in
              rw e (
                rw q (
                  right-IsBelow value x (mid_traver r) (delete_below r value) l
                    (has-below value x (mid_traver l) less below) e (delete_below_lem r value hr)))
        ]
      ]

  -- What `Delete` does to the values of a tree.
  abbrev pub IsDeletion : T → List T → Deletion T → Type 0
  IsDeletion value xs absent = has value xs ≡ false
  IsDeletion value xs (deleted t) =
      (t ≢ null) × IsWithout value xs (mid_traver t) × IsAscending (mid_traver t)
  IsDeletion value xs dangling = (x : T) × (xs ≡ x ∷ []) × (equal x value ≡ true)

  IsWithout-IsAscending :
      (value : T) (xs ys : List T) → IsWithout value xs ys → IsAscending xs → IsAscending ys
  IsWithout-IsAscending value xs ys (front, x, back, e, q, e') h =
      rw e' (IsAscending-remove front back x (rw e at h))

  only_one :
      (value : T) (xs : List T)
      → IsWithout value xs []
      → (x : T) × (xs ≡ x ∷ []) × (equal x value ≡ true)
  only_one value xs ([], x, [], e, q, e') = (x, e, q)
  only_one value xs ([], x, y ∷ back, e, q, e') = absurd (cc)
  only_one value xs (y ∷ front, x, back, e, q, e') = absurd (cc)

  outcome-IsDeletion :
      (value : T) (xs : List T) (t : Option (Tree T))
      → IsBelow value xs t
      → IsAscending xs
      → IsDeletion value xs (outcome t)
  unfolding mid_traver
  outcome-IsDeletion value xs none q h = q
  outcome-IsDeletion value xs (some null) q h = only_one value xs q
  outcome-IsDeletion value xs (some (node x l r)) q h =
      (λ e. cc, q, IsWithout-IsAscending value xs (mid_traver (node x l r)) q h)

  -- `Delete` of a tree whose values ascend: it is `false` exactly where no value is equal; else one equal
  -- value is gone, the others are in their order and ascend still. Where that was the only value, the
  -- caller's pointer dangles; where values are left, it leads to a tree that is not empty.
  pub delete_lem :
      (t : Tree T) (value : T)
      → IsAscending (mid_traver t)
      → IsDeletion value (mid_traver t) (delete t value)
  unfolding delete
  delete_lem t value h =
      outcome-IsDeletion value (mid_traver t) (delete_below t value) (delete_below_lem t value h) h
