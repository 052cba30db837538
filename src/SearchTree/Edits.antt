-- ===== src/SearchTree/Edits.antt =====
-- tree.h: `Insert` and `Search` by the ascending list of the values.
use xteam.Prelude.{
  ◌≡◌, refl, sym, ap, ◌∙◌, ◌⊎◌, inl, inr, Bool, true, false, ◌∷◌, ◌++◌, arith, Bool-cases,
}
use xteam.Arrays.Order.{Order, le}
use xteam.SearchTree.Types.{Tree, null, node, mid_traver, equal, insert, search}
use xteam.SearchTree.Order.{
  IsAscending, put, has, IsAscending-append, put-IsAscending, put-below, put-above, has-append,
  has-above, has-below,
}

module _ {T : Type 0} ⦃o : Order T⦄ where
  insert-put :
      (t : Tree T) (value : T)
      → IsAscending (mid_traver t)
      → mid_traver (insert t value) ≡ put value (mid_traver t)
  unfolding insert mid_traver
  insert-put null value h = refl
  insert-put (node x l r) value h =
      let (below, hl, above, hr) = IsAscending-append (mid_traver l) (mid_traver r) x h in
      elim (Bool-cases (le value x)) [
        | inl e ↦ rw e (
            ap (λ xs. xs ++ x ∷ mid_traver r) (insert-put l value hl)
            ∙ sym (put-below value x (mid_traver l) (mid_traver r) e))
        | inr e ↦ rw e (
            ap (λ xs. mid_traver l ++ x ∷ xs) (insert-put r value hr)
            ∙ sym (put-above value x (mid_traver l) (mid_traver r) e below))
      ]

  -- `Insert` in a tree whose values ascend puts the value in front of the first that is not less, and
  -- leaves the values ascending.
  pub insert-IsAscending :
      (t : Tree T) (value : T)
      → IsAscending (mid_traver t)
      → (mid_traver (insert t value) ≡ put value (mid_traver t))
        × IsAscending (mid_traver (insert t value))
  insert-IsAscending t value h =
      let e = insert-put t value h in (e, rw e (put-IsAscending value (mid_traver t) h))

  -- Whether there is a node and its value is equal.
  abbrev pub holds : T → Tree T → Bool
  holds value null = false
  holds value (node x l r) = equal x value

  abbrev pub found : Tree T × Tree T → Tree T
  found (t, parent) = t

  abbrev pub before : Tree T × Tree T → Tree T
  before (t, parent) = parent

  abbrev pub IsChild : Tree T → Tree T → Type 0
  IsChild t null = ⊥
  IsChild t (node x l r) = (t ≡ l) ⊎ (t ≡ r)

  search-holds :
      (t : Tree T) (value : T) (parent : Tree T)
      → IsAscending (mid_traver t)
      → holds value (found (search t value parent)) ≡ has value (mid_traver t)
  unfolding search mid_traver
  search-holds null value parent h = refl
  search-holds (node x l r) value parent h =
      let (below, hl, above, hr) = IsAscending-append (mid_traver l) (mid_traver r) x h in
      let both = has-append value (mid_traver l) (x ∷ mid_traver r) in
      elim (Bool-cases (equal x value)) [
        | inl e ↦ rw e (ground (arith, both))
        | inr e ↦ elim (Bool-cases (le value x)) [
          | inl q ↦
              let less : o.lt value x ≡ true = ground arith in
              rw e (
                rw q (
                  ground (
                    arith,
                    both,
                    search-holds l value (node x l r) hl,
                    has-above value x (mid_traver r) less above,
                  )))
          | inr q ↦
              let less : o.lt x value ≡ true = ground arith in
              rw e (
                rw q (
                  ground (
                    arith,
                    both,
                    search-holds r value (node x l r) hr,
                    has-below value x (mid_traver l) less below,
                  )))
        ]
      ]

  -- A search below a child ends there or further down.
  IsChild-from :
      (c p : Tree T) (s : Tree T × Tree T)
      → IsChild c p
      → ((found s ≡ c) × (before s ≡ p)) ⊎ IsChild (found s) (before s)
      → IsChild (found s) (before s)
  IsChild-from c p (t, q) child (inl (e, e')) = rw e (rw e' child)
  IsChild-from c p (t, q) child (inr h) = h

  -- A node is returned only with an equal value.
  search-equal :
      (t : Tree T) (value : T) (parent : Tree T)
      → (found (search t value parent) ≡ null)
        ⊎ (holds value (found (search t value parent)) ≡ true)
  unfolding search
  search-equal null value parent = inl refl
  search-equal (node x l r) value parent = elim (Bool-cases (equal x value)) [
    | inl e ↦ rw e (inr e)
    | inr e ↦ elim (Bool-cases (le value x)) [
      | inl q ↦ rw e (rw q (search-equal l value (node x l r)))
      | inr q ↦ rw e (rw q (search-equal r value (node x l r)))
    ]
  ]

  search-IsChild :
      (t : Tree T) (value : T) (parent : Tree T)
      → ((found (search t value parent) ≡ t) × (before (search t value parent) ≡ parent))
        ⊎ IsChild (found (search t value parent)) (before (search t value parent))
  unfolding search
  search-IsChild null value parent = inl (refl, refl)
  search-IsChild (node x l r) value parent = elim (Bool-cases (equal x value)) [
    | inl e ↦ rw e (inl (refl, refl))
    | inr e ↦ elim (Bool-cases (le value x)) [
      | inl q ↦ rw e (
          rw q (
            inr (
              IsChild-from l (node x l r) (search l value (node x l r)) (inl refl)
                (search-IsChild l value (node x l r)))))
      | inr q ↦ rw e (
          rw q (
            inr (
              IsChild-from r (node x l r) (search r value (node x l r)) (inr refl)
                (search-IsChild r value (node x l r)))))
    ]
  ]

  -- `Search` in a tree whose values ascend returns a node with an equal value exactly when there is one,
  -- and null else; what it returns is the root, with `*parent` as it was, or a child of `*parent`.
  pub search-has :
      (t : Tree T) (value : T) (parent : Tree T)
      → IsAscending (mid_traver t)
      → (holds value (found (search t value parent)) ≡ has value (mid_traver t))
        × (((found (search t value parent) ≡ t) × (before (search t value parent) ≡ parent))
            ⊎ IsChild (found (search t value parent)) (before (search t value parent)))
        × ((has value (mid_traver t) ≡ false) → found (search t value parent) ≡ null)
  search-has t value parent h = (
    search-holds t value parent h,
    search-IsChild t value parent,
    λ q. elim (search-equal t value parent) [
      | inl e ↦ e
      | inr e ↦ absurd (ground (arith, search-holds t value parent h))
    ],
  )
