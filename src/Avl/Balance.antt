-- ===== src/Avl/Balance.antt =====
-- avl_tree.h: `Insert` keeps the heights right and the tree balanced.
use xteam.Prelude.{ℕ, ◌+◌, ◌≤◌, ◌≡◌, refl, sym, ◌⊎◌, inl, inr, true, false, some, arith, Bool-cases}
use xteam.Arrays.Order.{Order}
use xteam.Avl.Types.{
  Tree, null, node, max, get_height, is_balance, set_height, rebalance_left, rebalance_right,
  insert,
}
use xteam.Avl.Heights.{
  max_left, max_right, is_balance_lem, unbalanced_lem, grown-height, left-IsGrown, right-IsGrown,
  IsAvl, IsGrown, IsRebalanced,
}
use xteam.Avl.Rotations.{ll-IsRebalanced, lr-IsRebalanced, rr-IsRebalanced, rl-IsRebalanced}

module _ {T : Type 0} ⦃o : Order T⦄ where
  rebalance_left-IsRebalanced :
      (e x : T) (h : ℕ) (l l' r : Tree T)
      → IsAvl (node x h l r)
      → o.lt e x ≡ true
      → IsAvl l'
      → IsGrown e (get_height l) l'
      → IsRebalanced e h (rebalance_left e x h l' r)
  unfolding rebalance_left set_height
  rebalance_left-IsRebalanced e x h l null r inv less inv' grown = absurd grown
  rebalance_left-IsRebalanced e x h l (node y g ll lr) r (q, a, b, left, right) less inv' grown =
      let l' = node y g ll lr in
      let step : (g ≡ get_height l) ⊎ (g ≡ get_height l + 1) =
        grown-height e (get_height l) l' grown in
      elim (Bool-cases (is_balance l' r)) [
        | inl t ↦
            let (c, d) = is_balance_lem l' r t in
            rw t (
              node x h l' r,
              refl,
              (refl, c, d, inv', right),
              left-IsGrown e x h (get_height l) l' r q step a b c less,
            )
        | inr t ↦
            let far : (get_height r + 2 ≤ g) ⊎ (g + 2 ≤ get_height r) = unbalanced_lem l' r t in
            let high : (g ≡ get_height r + 2) × (g ≡ get_height l + 1) = ground arith in
            let before = max_left (get_height l) (get_height r) (omega arith) in
            elim grown [
              | inl same ↦ absurd (omega arith)
              | inr (inl first) ↦ absurd (omega arith)
              | inr (inr (up, inl (c, taller))) ↦ rw t (
                  rw c (
                    ll-IsRebalanced e x y h g ll lr r inv' right (omega arith) (omega arith)
                      taller))
              | inr (inr (up, inr (c, taller))) ↦
                  let c' : o.lt e y ≡ false = ground (arith, o.lt_irrefl e, o.lt_trans e y e) in
                  rw t (
                    rw c' (
                      rw c (
                        lr-IsRebalanced e x y h g ll lr r inv' right (omega arith) (omega arith)
                          taller)))
            ]
      ]

  rebalance_right-IsRebalanced :
      (e x : T) (h : ℕ) (l r r' : Tree T)
      → IsAvl (node x h l r)
      → o.lt x e ≡ true
      → IsAvl r'
      → IsGrown e (get_height r) r'
      → IsRebalanced e h (rebalance_right e x h l r')
  unfolding rebalance_right set_height
  rebalance_right-IsRebalanced e x h l r null inv less inv' grown = absurd grown
  rebalance_right-IsRebalanced e x h l r (node y g rl rr) (q, a, b, left, right) less inv' grown =
      let r' = node y g rl rr in
      let step : (g ≡ get_height r) ⊎ (g ≡ get_height r + 1) =
        grown-height e (get_height r) r' grown in
      elim (Bool-cases (is_balance l r')) [
        | inl t ↦
            let (c, d) = is_balance_lem l r' t in
            rw t (
              node x h l r',
              refl,
              (refl, c, d, left, inv'),
              right-IsGrown e x h (get_height r) l r' q step b a d less,
            )
        | inr t ↦
            let far : (g + 2 ≤ get_height l) ⊎ (get_height l + 2 ≤ g) = unbalanced_lem l r' t in
            let high : (g ≡ get_height l + 2) × (g ≡ get_height r + 1) = ground arith in
            let before = max_right (get_height l) (get_height r) (omega arith) in
            elim grown [
              | inl same ↦ absurd (omega arith)
              | inr (inl first) ↦ absurd (omega arith)
              | inr (inr (up, inl (c, taller))) ↦ rw t (
                  rw c (
                    rl-IsRebalanced e x y h g l rl rr inv' left (omega arith) (omega arith) taller))
              | inr (inr (up, inr (c, taller))) ↦
                  let c' : o.lt e y ≡ false = ground (arith, o.lt_irrefl e, o.lt_trans e y e) in
                  rw t (
                    rw c' (
                      rw c (
                        rr-IsRebalanced e x y h g l rl rr inv' left (omega arith) (omega arith)
                          taller)))
            ]
      ]

  insert-IsGrown :
      (e : T) (t : Tree T)
      → IsAvl t
      → (t' : Tree T) × (insert e t ≡ some t') × IsAvl t' × IsGrown e (get_height t) t'
  unfolding insert set_height max
  insert-IsGrown e null inv =
      (node e 1 null null, refl, (refl, omega arith, omega arith, inv, inv), inr (inl (refl, refl)))
  insert-IsGrown e (node x h l r) inv =
      let (q, a, b, left, right) = inv in
      elim (Bool-cases (o.lt e x)) [
        | inl c ↦
            let (l', run, inv', grown) = insert-IsGrown e l left in
            let (t, run', inv'', grown') =
              rebalance_left-IsRebalanced e x h l l' r inv c inv' grown in
            rw c (rw run (rw run' (set_height t, refl, inv'', grown')))
        | inr c ↦ elim (Bool-cases (o.lt x e)) [
          | inl d ↦
              let (r', run, inv', grown) = insert-IsGrown e r right in
              let (t, run', inv'', grown') =
                rebalance_right-IsRebalanced e x h l r r' inv d inv' grown in
              rw c (rw d (rw run (rw run' (set_height t, refl, inv'', grown'))))
          | inr d ↦
              rw c (rw d (set_height (node x h l r), refl, (refl, a, b, left, right), inl (sym q)))
        ]
      ]

  -- On a tree whose heights are right and which is balanced `Insert` returns, its assertions hold, and
  -- the tree it leaves is one, as high as before or higher by 1.
  pub insert-IsAvl :
      (e : T) (t : Tree T)
      → IsAvl t
      → (t' : Tree T) × (insert e t ≡ some t')
        × IsAvl t'
        × ((get_height t' ≡ get_height t) ⊎ (get_height t' ≡ get_height t + 1))
  insert-IsAvl e t inv =
      let (t', run, inv', grown) = insert-IsGrown e t inv in
      (t', run, inv', grown-height e (get_height t) t' grown)
