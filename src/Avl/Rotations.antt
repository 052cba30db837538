-- ===== src/Avl/Rotations.antt =====
-- avl_tree.h: what the rotations leave of a node that became too high on one side.
use xteam.Prelude.{ℕ, ◌+◌, ◌≡◌, refl, inl, arith}
use xteam.Arrays.Order.{Order}
use xteam.Avl.Types.{
  Tree, null, node, get_height, with_height, set_height, rotate_ll, rotate_rr, rotate_lr, rotate_rl,
}
use xteam.Avl.Heights.{max_left, max_right, max_near, IsAvl, IsRebalanced}

module _ {T : Type 0} ⦃o : Order T⦄ where
  -- The numbers of a rotation: the child of height `m + 2` was `m + 1` high before.
  pub ll-IsRebalanced :
      (e x y : T) (h g : ℕ) (ll lr r : Tree T)
      → IsAvl (node y g ll lr)
      → IsAvl r
      → g ≡ get_height r + 2
      → h ≡ get_height r + 2
      → get_height ll ≡ get_height lr + 1
      → IsRebalanced e h (rotate_ll (node x h (node y g ll lr) r))
  unfolding rotate_ll set_height
  ll-IsRebalanced e x y h g ll lr r (q, a, b, left, right) inv' gh hh up =
      let outer = max_left (get_height ll) (get_height lr) (omega arith) in
      let inner = max_right (get_height lr) (get_height r) (omega arith) in
      let whole = max_left (get_height ll) (get_height r + 1) (omega arith) in
      let t = with_height y ll (with_height x lr r) in
      (
        t,
        refl,
        (
          refl,
          rw inner (omega arith),
          rw inner (omega arith),
          left,
          (refl, omega arith, omega arith, right, inv'),
        ),
        inl (rw inner (omega arith)),
      )

  pub lr-IsRebalanced :
      (e x y : T) (h g : ℕ) (ll lr r : Tree T)
      → IsAvl (node y g ll lr)
      → IsAvl r
      → g ≡ get_height r + 2
      → h ≡ get_height r + 2
      → get_height lr ≡ get_height ll + 1
      → IsRebalanced e h (rotate_lr (node x h (node y g ll lr) r))
  unfolding rotate_lr rotate_rr rotate_ll set_height
  lr-IsRebalanced e x y h g ll null r inv inv' gh hh up = absurd (omega arith)
  lr-IsRebalanced e x y h g ll (node z k a b) r (q, u, v, left, (q', u', v', left', right')) inv' gh
        hh up =
      let outer = max_right (get_height ll) k (omega arith) in
      let bounds = max_near (get_height a) (get_height b) u' v' in
      let one = max_left (get_height ll) (get_height a) (omega arith) in
      let two = max_right (get_height b) (get_height r) (omega arith) in
      let whole = max_left (get_height ll + 1) (get_height r + 1) (omega arith) in
      (
        with_height z (with_height y ll a) (with_height x b r),
        refl,
        (
          refl,
          rw one (rw two (omega arith)),
          rw one (rw two (omega arith)),
          (refl, omega arith, omega arith, left, left'),
          (refl, omega arith, omega arith, right', inv'),
        ),
        inl (rw one (rw two (omega arith))),
      )

  pub rr-IsRebalanced :
      (e x y : T) (h g : ℕ) (l rl rr : Tree T)
      → IsAvl (node y g rl rr)
      → IsAvl l
      → g ≡ get_height l + 2
      → h ≡ get_height l + 2
      → get_height rr ≡ get_height rl + 1
      → IsRebalanced e h (rotate_rr (node x h l (node y g rl rr)))
  unfolding rotate_rr set_height
  rr-IsRebalanced e x y h g l rl rr (q, a, b, left, right) inv' gh hh up =
      let outer = max_right (get_height rl) (get_height rr) (omega arith) in
      let inner = max_left (get_height l) (get_height rl) (omega arith) in
      let whole = max_right (get_height l + 1) (get_height rr) (omega arith) in
      let t = with_height y (with_height x l rl) rr in
      (
        t,
        refl,
        (
          refl,
          rw inner (omega arith),
          rw inner (omega arith),
          (refl, omega arith, omega arith, inv', left),
          right,
        ),
        inl (rw inner (omega arith)),
      )

  pub rl-IsRebalanced :
      (e x y : T) (h g : ℕ) (l rl rr : Tree T)
      → IsAvl (node y g rl rr)
      → IsAvl l
      → g ≡ get_height l + 2
      → h ≡ get_height l + 2
      → get_height rl ≡ get_height rr + 1
      → IsRebalanced e h (rotate_rl (node x h l (node y g rl rr)))
  unfolding rotate_rl rotate_rr rotate_ll set_height
  rl-IsRebalanced e x y h g l null rr inv inv' gh hh up = absurd (omega arith)
  rl-IsRebalanced e x y h g l (node z k a b) rr (q, u, v, (q', u', v', left', right'), right) inv'
        gh hh up =
      let outer = max_left k (get_height rr) (omega arith) in
      let bounds = max_near (get_height a) (get_height b) u' v' in
      let one = max_left (get_height l) (get_height a) (omega arith) in
      let two = max_right (get_height b) (get_height rr) (omega arith) in
      let whole = max_left (get_height l + 1) (get_height rr + 1) (omega arith) in
      (
        with_height z (with_height x l a) (with_height y b rr),
        refl,
        (
          refl,
          rw one (rw two (omega arith)),
          rw one (rw two (omega arith)),
          (refl, omega arith, omega arith, inv', left'),
          (refl, omega arith, omega arith, right', right),
        ),
        inl (rw one (rw two (omega arith))),
      )
