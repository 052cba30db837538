-- ===== src/Avl/Listing.antt =====
-- avl_tree.h: no rotation changes the order of the values.
use xteam.Prelude.{
  ℕ, ◌≡◌, refl, sym, ap, inl, inr, Option, none, some, List, [], ◌∷◌, ◌++◌, Bool-cases, ◌>>=◌,
}
use xteam.Arrays.Order.{Order}
use xteam.Avl.Types.{
  Tree, null, node, with_height, set_height, rotate_ll, rotate_rr, rotate_lr, rotate_rl, mid_traver,
  rebalance_left, rebalance_right, is_balance,
}
use mathlib.Core.Path.{subst}

module _ {T : Type 0} where
  append_assoc : (xs ys zs : List T) → (xs ++ ys) ++ zs ≡ xs ++ (ys ++ zs)
  append_assoc [] ys zs = refl
  append_assoc (x ∷ xs) ys zs = ap (λ l. x ∷ l) (append_assoc xs ys zs)

  -- The values of the tree, where there is one.
  abbrev pub IsListing : List T → Option (Tree T) → Type 0
  IsListing xs none = Unit
  IsListing xs (some t) = mid_traver t ≡ xs

  rotate_ll-IsListing : (t : Tree T) → IsListing (mid_traver t) (rotate_ll t)
  unfolding rotate_ll mid_traver
  rotate_ll-IsListing null = record {}
  rotate_ll-IsListing (node x h null r) = record {}
  rotate_ll-IsListing (node x h (node y g ll lr) r) =
      sym (append_assoc (mid_traver ll) (y ∷ mid_traver lr) (x ∷ mid_traver r))

  rotate_rr-IsListing : (t : Tree T) → IsListing (mid_traver t) (rotate_rr t)
  unfolding rotate_rr mid_traver
  rotate_rr-IsListing null = record {}
  rotate_rr-IsListing (node x h l null) = record {}
  rotate_rr-IsListing (node x h l (node y g rl rr)) =
      append_assoc (mid_traver l) (x ∷ mid_traver rl) (y ∷ mid_traver rr)

  rotate_lr-IsListing : (t : Tree T) → IsListing (mid_traver t) (rotate_lr t)
  unfolding rotate_lr rotate_rr mid_traver
  rotate_lr-IsListing null = record {}
  rotate_lr-IsListing (node x h null r) = record {}
  rotate_lr-IsListing (node x h (node y g ll null) r) = record {}
  rotate_lr-IsListing (node x h (node y g ll (node z k a b)) r) =
      let l' = with_height z (with_height y ll a) b in
      subst (λ xs. IsListing (xs ++ x ∷ mid_traver r) (rotate_ll (node x h l' r)))
        (append_assoc (mid_traver ll) (y ∷ mid_traver a) (z ∷ mid_traver b))
        (rotate_ll-IsListing (node x h l' r))

  rotate_rl-IsListing : (t : Tree T) → IsListing (mid_traver t) (rotate_rl t)
  unfolding rotate_rl rotate_ll mid_traver
  rotate_rl-IsListing null = record {}
  rotate_rl-IsListing (node x h l null) = record {}
  rotate_rl-IsListing (node x h l (node y g null rr)) = record {}
  rotate_rl-IsListing (node x h l (node y g (node z k a b) rr)) =
      let r' = with_height z a (with_height y b rr) in
      subst (λ xs. IsListing (mid_traver l ++ x ∷ xs) (rotate_rr (node x h l r')))
        (sym (append_assoc (mid_traver a) (z ∷ mid_traver b) (y ∷ mid_traver rr)))
        (rotate_rr-IsListing (node x h l r'))

module _ {T : Type 0} ⦃o : Order T⦄ where
  rebalance_left-IsListing :
      (e x : T) (h : ℕ) (l r : Tree T)
      → IsListing (mid_traver l ++ x ∷ mid_traver r) (rebalance_left e x h l r)
  unfolding rebalance_left mid_traver
  rebalance_left-IsListing e x h null r = refl
  rebalance_left-IsListing e x h (node y g ll lr) r =
      let t = node x h (node y g ll lr) r in
      elim (Bool-cases (is_balance (node y g ll lr) r)) [
        | inl a ↦ rw a refl
        | inr a ↦ elim (Bool-cases (o.lt e y)) [
          | inl b ↦ rw a (rw b (rotate_ll-IsListing t))
          | inr b ↦ elim (Bool-cases (o.lt y e)) [
            | inl c ↦ rw a (rw b (rw c (rotate_lr-IsListing t)))
            | inr c ↦ rw a (rw b (rw c refl))
          ]
        ]
      ]

  rebalance_right-IsListing :
      (e x : T) (h : ℕ) (l r : Tree T)
      → IsListing (mid_traver l ++ x ∷ mid_traver r) (rebalance_right e x h l r)
  unfolding rebalance_right mid_traver
  rebalance_right-IsListing e x h l null = refl
  rebalance_right-IsListing e x h l (node y g rl rr) =
      let t = node x h l (node y g rl rr) in
      elim (Bool-cases (is_balance l (node y g rl rr))) [
        | inl a ↦ rw a refl
        | inr a ↦ elim (Bool-cases (o.lt e y)) [
          | inl b ↦ rw a (rw b (rotate_rl-IsListing t))
          | inr b ↦ elim (Bool-cases (o.lt y e)) [
            | inl c ↦ rw a (rw b (rw c (rotate_rr-IsListing t)))
            | inr c ↦ rw a (rw b (rw c refl))
          ]
        ]
      ]

  pub set_height-IsListing :
      (xs : List T) (t : Option (Tree T))
      → IsListing xs t
      → IsListing xs (t >>= λ t'. some (set_height t'))
  unfolding set_height mid_traver
  set_height-IsListing xs none h = h
  set_height-IsListing xs (some null) h = h
  set_height-IsListing xs (some (node x k l r)) h = h

  pub left-IsListing :
      (e x : T) (h : ℕ) (xs : List T) (l : Option (Tree T)) (r : Tree T)
      → IsListing xs l
      → IsListing (xs ++ x ∷ mid_traver r) (l >>= λ l'. rebalance_left e x h l' r)
  left-IsListing e x h xs none r q = q
  left-IsListing e x h xs (some l) r q =
      subst (λ ys. IsListing (ys ++ x ∷ mid_traver r) (rebalance_left e x h l r)) q
        (rebalance_left-IsListing e x h l r)

  pub right-IsListing :
      (e x : T) (h : ℕ) (xs : List T) (l : Tree T) (r : Option (Tree T))
      → IsListing xs r
      → IsListing (mid_traver l ++ x ∷ xs) (r >>= λ r'. rebalance_right e x h l r')
  right-IsListing e x h xs l none q = q
  right-IsListing e x h xs l (some r) q =
      subst (λ ys. IsListing (mid_traver l ++ x ∷ ys) (rebalance_right e x h l r)) q
        (rebalance_right-IsListing e x h l r)
