-- ===== src/MedianTree/Least.antt =====
-- base-kdtree.c: `nearest` finds a nearest node.
use mathlib.Core.Bool.{cond}
use xteam.Prelude.{
  ℕ, ◌<◌, ◌≡◌, ◌⊎◌, inl, inr, true, none, some, List, arith, if◌then◌else◌, Bool-cases, Option,
  refl,
}
use xteam.Scalar.{Scalar, le}
use xteam.KdTree.Rect.{coord}
use xteam.MedianTree.Types.{Node, null, node, Best, dist2}
use xteam.MedianTree.Nearest.{next_dim, is_zero, take_nearer, both_sides, nearest}
use xteam.MedianTree.Beyond.{beyond_left_all, beyond_right_all}
use xteam.MedianTree.Chosen.{IsIn, AllNodes-IsIn, nearest_chosen}
use xteam.MedianTree.Order.{AllNodes, IsMedian, AllNodes-imp, AllNodes-all, le-dist2_from}

module _ {R : Type 0} ⦃s : Scalar R⦄ (nd : List R) (dim : ℕ) where
  -- A best node is there, and its distance is right.
  abbrev pub IsFair : Best R → Type 0
  IsFair b = (q : List R) × (b.best ≡ some q) × (b.best_dist2 ≡ dist2 q nd dim)

  -- No node of the tree is nearer than the best.
  abbrev pub IsLeast : Node R → Best R → Type 0
  IsLeast t b = AllNodes (λ q. le b.best_dist2 (dist2 q nd dim) ≡ true) t

  -- A search from a fair best ends with one that is as near, and least.
  abbrev Found : Node R → Best R → Best R → Type 0
  Found t b r = IsFair r × (le r.best_dist2 b.best_dist2 ≡ true) × IsLeast t r

  take_nearer_lem :
      (p : List R) (b : Best R)
      → (b.best ≡ none) ⊎ IsFair b
      → let r = take_nearer p (dist2 p nd dim) b in
        IsFair r
        × (le r.best_dist2 (dist2 p nd dim) ≡ true)
        × (IsFair b → le r.best_dist2 b.best_dist2 ≡ true)
  unfolding take_nearer
  take_nearer_lem p b start =
      let d = dist2 p nd dim in
      let old = b.best_dist2 in
      elim start [
        | inl e ↦ (
          (p, ground arith, ground arith),
          ground (arith, s.lt_irrefl d),
          λ fair. absurd (let f = fair.1 in ground arith),
        )
        | inr (q, e, m) ↦ elim (Bool-cases (s.lt d old)) [
          | inl lt ↦ (
            (p, ground arith, ground arith),
            ground (arith, s.lt_irrefl d),
            λ fair. ground (arith, s.lt_irrefl d, s.lt_trans d old d),
          )
          | inr ge ↦ (
            (q, ground arith, ground arith),
            ground arith,
            λ fair. ground (arith, s.lt_irrefl old),
          )
        ]
      ]

  le-swap :
      (t : Node R) (x y : Best R) → le y.best_dist2 x.best_dist2 ≡ true → IsLeast t x → IsLeast t y
  le-swap t x y h =
      AllNodes-imp (λ q k. ground (arith, s.le_trans y.best_dist2 x.best_dist2 (dist2 q nd dim))) t

  both_sides_lem :
      (near far : Best R → Best R) (tn tf : Node R) (dx2 : R) (b : Best R)
      → ((x : Best R) → IsFair x → Found tn x (near x))
      → ((x : Best R) → IsFair x → Found tf x (far x))
      → AllNodes (λ q. le dx2 (dist2 q nd dim) ≡ true) tf
      → IsFair b
      → let r = both_sides near far dx2 b in
        IsFair r × (le r.best_dist2 b.best_dist2 ≡ true) × IsLeast tn r × IsLeast tf r
  unfolding both_sides
  both_sides_lem near far tn tf dx2 b hn hf beyond fair =
      let b1 = near b in
      let b2 = far b1 in
      let (fair1, le1, least1) = hn b fair in
      let (fair2, le2, least2) = hf b1 fair1 in
      elim (Bool-cases (le b1.best_dist2 dx2)) [
        | inl e ↦
            rw (e, both_sides)
              (
                fair1,
                le1,
                least1,
                AllNodes-imp (λ q k. ground (arith, s.le_trans b1.best_dist2 dx2 (dist2 q nd dim)))
                    tf beyond,
              )
        | inr e ↦
            rw (e, both_sides)
              (
                fair2,
                ground (arith, s.le_trans b2.best_dist2 b1.best_dist2 b.best_dist2),
                le-swap tn b1 b2 le2 least1,
                least2,
              )
      ]

  IsLeast-zero : (t : Node R) (b : Best R) → is_zero b.best_dist2 ≡ true → IsLeast t b
  unfolding is_zero dist2
  IsLeast-zero t b z =
      AllNodes-all
        (λ q. ground (
          arith,
          le-dist2_from dim q nd s.origin,
          s.le_trans b.best_dist2 s.origin (dist2 q nd dim),
        ))
        t

  next_dim-lt : (i : ℕ) → i < dim → next_dim i dim < dim
  unfolding next_dim
  next_dim-lt i h = ground arith

  -- The search below a node, once the node itself is taken into account.
  below :
      (i : ℕ) (p : List R) (l r : Node R) (b : Best R)
      → i < dim
      → AllNodes (λ q. le (coord q i) (coord p i) ≡ true) l
      → AllNodes (λ q. le (coord p i) (coord q i) ≡ true) r
      → ((x : Best R) → IsFair x → Found l x (nearest l nd (next_dim i dim) dim x))
      → ((x : Best R) → IsFair x → Found r x (nearest r nd (next_dim i dim) dim x))
      → IsFair b
      → let dx = s.sub (coord p i) (coord nd i) in
        let go_left : Best R → Best R = nearest l nd (next_dim i dim) dim in
        let go_right : Best R → Best R = nearest r nd (next_dim i dim) dim in
        let t = s.lt s.origin dx in
        let x =
          if is_zero b.best_dist2
          then b
          else both_sides (cond t go_left go_right) (cond t go_right go_left) (s.mul dx dx) b in
        IsFair x × (le x.best_dist2 b.best_dist2 ≡ true) × IsLeast l x × IsLeast r x
  below i p l r b lt hl hr fl fr fair =
      let dx = s.sub (coord p i) (coord nd i) in
      let go_left : Best R → Best R = nearest l nd (next_dim i dim) dim in
      let go_right : Best R → Best R = nearest r nd (next_dim i dim) dim in
      elim (Bool-cases (is_zero b.best_dist2)) [
        | inl e ↦
            rw e (
              fair,
              ground (arith, s.lt_irrefl b.best_dist2),
              IsLeast-zero l b e,
              IsLeast-zero r b e,
            )
        | inr e ↦ rw e (elim (Bool-cases (s.lt s.origin dx)) [
          | inl t ↦ rw t (
              both_sides_lem go_left go_right l r (s.mul dx dx) b fl fr
                (beyond_right_all nd dim i p r lt t hr) fair)
          | inr t ↦ rw t (
              let x =
                both_sides_lem go_right go_left r l (s.mul dx dx) b fr fl
                  (beyond_left_all nd dim i p l lt t hl) fair in
              (x.0, x.1, x.3, x.2))
        ])
      ]

  -- From a best node whose distance is right, the search ends with one whose distance is right, that
  -- is as near, and than which no node of the tree is nearer.
  pub nearest-Found :
      (t : Node R) (i : ℕ) (b : Best R)
      → i < dim
      → IsMedian i dim t
      → IsFair b
      → Found t b (nearest t nd i dim b)
  unfolding nearest
  nearest-Found null i b lt h fair = (fair, ground (arith, s.lt_irrefl b.best_dist2), tt)
  nearest-Found (node p l r) i b lt (hl, hr, ml, mr) fair =
      let lt' = next_dim-lt i lt in
      let b1 = take_nearer p (dist2 p nd dim) b in
      let (fair1, here, better) = take_nearer_lem p b (inr fair) in
      let (done, le1, ll, lr) =
        below i p l r b1 lt hl hr (λ x f. nearest-Found l (next_dim i dim) x lt' ml f)
          (λ x f. nearest-Found r (next_dim i dim) x lt' mr f) fair1 in
      let x = nearest (node p l r) nd i dim b in
      (
        done,
        ground (arith, better fair, s.le_trans x.best_dist2 b1.best_dist2 b.best_dist2),
        (ground (arith, s.le_trans x.best_dist2 b1.best_dist2 (dist2 p nd dim)), ll, lr),
      )

  nearest-IsIn :
      (p : List R) (l r : Node R) (i : ℕ) (b : Best R) (x : Option (List R)) (q : List R)
      → (nearest (node p l r) nd i dim b).best ≡ x
      → x ≡ some q
      → b.best ≡ none
      → IsIn q (node p l r)
  nearest-IsIn p l r i b x q e found start =
      let t = node p l r in
      let chosen = nearest_chosen (λ y. IsIn y t) t nd i dim b (AllNodes-IsIn t) (rw start tt) in
      rw (e, found) at chosen

  -- Where `found` is null before the search, as in `main`, the tree is not empty and in order from a
  -- dimension below `dim`, the search ends with a node of the tree; the squared distance that it gives
  -- is that node's, and no node of the tree is nearer.
  pub nearest_lem :
      (p : List R) (l r : Node R) (i : ℕ) (b : Best R)
      → i < dim
      → IsMedian i dim (node p l r)
      → b.best ≡ none
      → let x = nearest (node p l r) nd i dim b in
        (q : List R) × (x.best ≡ some q)
        × IsIn q (node p l r)
        × (x.best_dist2 ≡ dist2 q nd dim)
        × IsLeast (node p l r) x
  unfolding nearest
  nearest_lem p l r i b lt (hl, hr, ml, mr) e =
      let lt' = next_dim-lt i lt in
      let b1 = take_nearer p (dist2 p nd dim) b in
      let (fair1, here, better) = take_nearer_lem p b (inl e) in
      let (done, le1, ll, lr) =
        below i p l r b1 lt hl hr (λ x f. nearest-Found l (next_dim i dim) x lt' ml f)
          (λ x f. nearest-Found r (next_dim i dim) x lt' mr f) fair1 in
      let x = nearest (node p l r) nd i dim b in
      let (q, found, d) = done in
      (
        q,
        found,
        nearest-IsIn p l r i b x.best q refl found e,
        d,
        (ground (arith, s.le_trans x.best_dist2 b1.best_dist2 (dist2 p nd dim)), ll, lr),
      )
