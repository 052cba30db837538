-- ===== src/MedianTree/Order.antt =====
-- base-kdtree.c: the order of a tree around medians, and what lies beyond a plane.
use xteam.Prelude.{ℕ, zero, suc, ◌<◌, ◌≡◌, true, false, List, arith}
use xteam.Scalar.{Scalar, le}
use xteam.KdTree.Rect.{coord}
use xteam.MedianTree.Types.{Node, null, node, dist2_from}
use xteam.MedianTree.Nearest.{next_dim}

module _ {R : Type 0} where
  -- Every node of a tree passes `Q`.
  abbrev pub AllNodes : (List R → Type 0) → Node R → Type 0
  AllNodes Q null = Unit
  AllNodes Q (node p l r) = Q p × AllNodes Q l × AllNodes Q r

module _ {R : Type 0} ⦃s : Scalar R⦄ where
  -- The order that `make_tree` builds: along dimension `i`, what is on the left is at most the node,
  -- what is on the right at least.
  abbrev pub IsMedian : ℕ → ℕ → Node R → Type 0
  IsMedian i dim null = Unit
  IsMedian i dim (node p l r) =
      AllNodes (λ q. le (coord q i) (coord p i) ≡ true) l
      × AllNodes (λ q. le (coord p i) (coord q i) ≡ true) r
      × IsMedian (next_dim i dim) dim l
      × IsMedian (next_dim i dim) dim r

  pub le-dist2_from : (n : ℕ) (p q : List R) (acc : R) → le acc (dist2_from n p q acc) ≡ true
  unfolding dist2_from
  le-dist2_from zero p q acc = ground (arith, s.lt_irrefl acc)
  le-dist2_from (suc n) p q acc =
      let t = s.sub (coord p n) (coord q n) in
      let acc' = s.add acc (s.mul t t) in
      ground (
        arith,
        le-dist2_from n p q acc',
        s.le-add_right acc (s.mul t t),
        s.mul_self_nonneg t,
        s.le_trans acc acc' (dist2_from n p q acc'),
      )

  pub mul_self-le-dist2_from :
      (n j : ℕ) (p q : List R) (acc : R)
      → j < n
      → le s.origin acc ≡ true
      → let t = s.sub (coord p j) (coord q j) in le (s.mul t t) (dist2_from n p q acc) ≡ true
  unfolding dist2_from
  mul_self-le-dist2_from zero j p q acc k z = absurd (omega arith)
  mul_self-le-dist2_from (suc n) j p q acc k z =
      let t = s.sub (coord p n) (coord q n) in
      let acc' = s.add acc (s.mul t t) in
      ground (
        arith,
        mul_self-le-dist2_from n j p q acc',
        le-dist2_from n p q acc',
        s.le-add_right acc (s.mul t t),
        s.le-add_left acc (s.mul t t),
        s.mul_self_nonneg t,
        s.le_trans s.origin acc acc',
        s.le_trans (s.mul t t) acc' (dist2_from n p q acc'),
      )

  -- A node beyond the plane, on the side away from the point `x`, is no nearer than the plane.
  pub beyond_right :
      (x y z : R)
      → s.lt s.origin (s.sub y x) ≡ true
      → le y z ≡ true
      → let dx = s.sub y x in let t = s.sub z x in le (s.mul dx dx) (s.mul t t) ≡ true
  beyond_right x y z d h = ground (
    arith,
    s.lt_irrefl s.origin,
    s.lt_trans s.origin (s.sub y x) s.origin,
    s.sub_mono y z x,
    s.mul_self_mono (s.sub y x) (s.sub z x),
  )

  pub beyond_left :
      (x y z : R)
      → s.lt s.origin (s.sub y x) ≡ false
      → le z y ≡ true
      → let dx = s.sub y x in let t = s.sub z x in le (s.mul dx dx) (s.mul t t) ≡ true
  beyond_left x y z d h = ground (
    arith,
    s.sub_swap y x,
    s.sub_anti z y x,
    s.mul_self_mono (s.sub x y) (s.sub x z),
    s.mul_self_swap x y,
    s.mul_self_swap x z,
  )

pub AllNodes-imp :
    {R : Type 0} {P Q : List R → Type 0}
    → ((q : List R) → P q → Q q)
    → (t : Node R) → AllNodes P t
    → AllNodes Q t
AllNodes-imp f null a = tt
AllNodes-imp f (node p l r) a = (f p a.0, AllNodes-imp f l a.1, AllNodes-imp f r a.2)

pub AllNodes-all :
    {R : Type 0} {Q : List R → Type 0} → ((q : List R) → Q q) → (t : Node R) → AllNodes Q t
AllNodes-all f null = tt
AllNodes-all f (node p l r) = (f p, AllNodes-all f l, AllNodes-all f r)
