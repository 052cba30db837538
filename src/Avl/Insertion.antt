-- ===== src/Avl/Insertion.antt =====
-- avl_tree.h: `Insert` and `Search` on the values in their order.
use xteam.Prelude.{◌≡◌, refl, sym, inl, inr, false, none, some, ◌∷◌, ◌++◌, arith, Bool-cases, ◌>>=◌}
use xteam.Arrays.Order.{Order}
use xteam.Avl.Types.{Tree, null, node, mid_traver, rebalance_left, rebalance_right, insert, search}
use xteam.Avl.Ordered.{
  IsAscending, put, find_equal, IsAscending-append, put-below, put-above, put-here,
  find_equal-above, find_equal-behind, find_equal-below, find_equal-here, less-All,
}
use xteam.Avl.Listing.{IsListing, set_height-IsListing, left-IsListing, right-IsListing}
use xteam.Avl.Heights.{IsAvl}
use xteam.Avl.Balance.{insert-IsAvl}
use mathlib.Core.Path.{subst}

module _ {T : Type 0} ⦃o : Order T⦄ where
  insert-IsListing :
      (e : T) (t : Tree T)
      → IsAscending (mid_traver t)
      → IsListing (put e (mid_traver t)) (insert e t)
  unfolding insert mid_traver
  insert-IsListing e null sorted = refl
  insert-IsListing e (node x h l r) sorted =
      let xs = mid_traver l in
      let ys = mid_traver r in
      let (below, sorted_l, above, sorted_r) = IsAscending-append xs ys x sorted in
      let left = insert e l >>= λ l'. rebalance_left e x h l' r in
      let right = insert e r >>= λ r'. rebalance_right e x h l r' in
      elim (Bool-cases (o.lt e x)) [
        | inl a ↦ rw a (
            rw (put-below e x xs ys a) (
              set_height-IsListing (put e xs ++ x ∷ ys) left
                (left-IsListing e x h (put e xs) (insert e l) r (insert-IsListing e l sorted_l))))
        | inr a ↦ elim (Bool-cases (o.lt x e)) [
          | inl b ↦ rw a (
              rw b (
                rw (put-above e x xs ys b below) (
                  set_height-IsListing (xs ++ x ∷ put e ys) right (
                    right-IsListing e x h (put e ys) l (insert e r)
                      (insert-IsListing e r sorted_r)))))
          | inr b ↦ rw a (
              rw b (
                rw (put-here e x xs ys a b below)
                  (set_height-IsListing (xs ++ x ∷ ys) (some (node x h l r)) refl)))
        ]
      ]

  -- On a balanced tree whose values ascend from left to right `Insert` leaves those values with the new
  -- one where it belongs, or the same ones where it was there.
  pub insert-mid_traver :
      (e : T) (t : Tree T)
      → IsAvl t
      → IsAscending (mid_traver t)
      → (t' : Tree T) × (insert e t ≡ some t') × (mid_traver t' ≡ put e (mid_traver t))
  insert-mid_traver e t inv sorted =
      let (t', run, inv', grown) = insert-IsAvl e t inv in
      (t', run, subst (λ r. IsListing (put e (mid_traver t)) r) run (insert-IsListing e t sorted))

  -- In a tree whose values ascend from left to right `Search` finds the one that is equal, where one is.
  pub search-mid_traver :
      (t : Tree T) (e : T) → IsAscending (mid_traver t) → search t e ≡ find_equal e (mid_traver t)
  unfolding search mid_traver
  search-mid_traver null e sorted = refl
  search-mid_traver (node x h l r) e sorted =
      let xs = mid_traver l in
      let ys = mid_traver r in
      let (below, sorted_l, above, sorted_r) = IsAscending-append xs ys x sorted in
      elim (Bool-cases (o.lt e x)) [
        | inl a ↦
            let not_less : o.lt x e ≡ false = ground (arith, o.lt_irrefl e, o.lt_trans e x e) in
            let none_right : find_equal e (x ∷ ys) ≡ none =
              find_equal-behind e (x ∷ ys) (a, less-All e x ys a above) in
            rw a (
              rw not_less
                (rw (find_equal-below e xs (x ∷ ys) none_right) (search-mid_traver l e sorted_l)))
        | inr a ↦ elim (Bool-cases (o.lt x e)) [
          | inl b ↦
              rw a (rw b (rw (find_equal-above e x xs ys b below) (search-mid_traver r e sorted_r)))
          | inr b ↦ rw a (rw b (sym (find_equal-here e x xs ys a b below)))
        ]
      ]
