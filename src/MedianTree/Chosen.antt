-- ===== src/MedianTree/Chosen.antt =====
-- base-kdtree.c: `nearest` finds a node of the tree.
use mathlib.Core.Bool.{cond}
use xteam.Prelude.{
  ℕ, ◌+◌, ◌≡◌, refl, ◌⊎◌, inl, inr, Bool, true, false, Option, none, some, List, if◌then◌else◌,
}
use xteam.Scalar.{Scalar, le}
use xteam.KdTree.Rect.{coord}
use xteam.MedianTree.Types.{Node, null, node, Best, dist2}
use xteam.MedianTree.Nearest.{next_dim, is_zero, take_nearer, both_sides, nearest}
use xteam.MedianTree.Order.{AllNodes, AllNodes-imp}

module _ {R : Type 0} where
  -- The point stands in a node of the tree.
  abbrev pub IsIn : List R → Node R → Type 0
  IsIn q null = ⊥
  IsIn q (node p l r) = (q ≡ p) ⊎ (IsIn q l ⊎ IsIn q r)

  pub AllNodes-IsIn : (t : Node R) → AllNodes (λ q. IsIn q t) t
  AllNodes-IsIn null = tt
  AllNodes-IsIn (node p l r) = (
    inl refl,
    AllNodes-imp (λ q h. inr (inl h)) l (AllNodes-IsIn l),
    AllNodes-imp (λ q h. inr (inr h)) r (AllNodes-IsIn r),
  )

module _ {R : Type 0} ⦃s : Scalar R⦄ where
  -- Whether an optional point passes `Q`.
  abbrev pub Passes : (List R → Type 0) → Option (List R) → Type 0
  Passes Q none = Unit
  Passes Q (some q) = Q q

  Passes-if :
      (Q : List R → Type 0) (c : Bool) (x y : Best R)
      → Passes Q x.best
      → Passes Q y.best
      → Passes Q (if c then x else y).best
  Passes-if Q true x y h k = h
  Passes-if Q false x y h k = k

  -- A search keeps what passes.
  abbrev Keeps : (List R → Type 0) → (Best R → Best R) → Type 0
  Keeps Q f = (x : Best R) → Passes Q x.best → Passes Q (f x).best

  Keeps-cond :
      (Q : List R → Type 0) (c : Bool) (f g : Best R → Best R)
      → Keeps Q f
      → Keeps Q g
      → Keeps Q (cond c f g)
  Keeps-cond Q true f g h k = h
  Keeps-cond Q false f g h k = k

  take_nearer-Keeps : (Q : List R → Type 0) (p : List R) (d : R) → Q p → Keeps Q (take_nearer p d)
  unfolding take_nearer
  take_nearer-Keeps Q p d q b h =
      Passes-if Q (elim b.best [ none ↦ true | some x ↦ s.lt d b.best_dist2 ])
        (record { best = some p; best_dist2 = d; visited = b.visited + 1 })
        (record b { visited = b.visited + 1 }) q h

  -- What the search finds is what it started from, or a node of the tree: stated for any predicate
  -- that those pass.
  pub nearest_chosen :
      (Q : List R → Type 0) (t : Node R) (nd : List R) (i dim : ℕ) (b : Best R)
      → AllNodes Q t
      → Passes Q b.best
      → Passes Q (nearest t nd i dim b).best
  unfolding nearest both_sides
  nearest_chosen Q null nd i dim b a h = h
  nearest_chosen Q (node p l r) nd i dim b a h =
      let dx = s.sub (coord p i) (coord nd i) in
      let t = s.lt s.origin dx in
      let b1 = take_nearer p (dist2 p nd dim) b in
      let left : Best R → Best R = nearest l nd (next_dim i dim) dim in
      let right : Best R → Best R = nearest r nd (next_dim i dim) dim in
      let fl : Keeps Q left = λ x h'. nearest_chosen Q l nd (next_dim i dim) dim x a.1 h' in
      let fr : Keeps Q right = λ x h'. nearest_chosen Q r nd (next_dim i dim) dim x a.2 h' in
      let h1 = take_nearer-Keeps Q p (dist2 p nd dim) a.0 b h in
      let near : Best R → Best R = cond t left right in
      let far : Best R → Best R = cond t right left in
      let h2 = Keeps-cond Q t left right fl fr b1 h1 in
      let h3 = Keeps-cond Q t right left fr fl (near b1) h2 in
      Passes-if Q (is_zero b1.best_dist2) b1 (both_sides near far (s.mul dx dx) b1) h1
        (Passes-if Q (le (near b1).best_dist2 (s.mul dx dx)) (near b1) (far (near b1)) h2 h3)
