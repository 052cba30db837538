-- ===== src/KdTree/Box.antt =====
-- kdtree.c: the bounding box holds the points of the tree.
use mathlib.Core.Path.{subst}
use mathlib.Core.Option.{some-injective}
use native.Mathlib.Decide.{ℕ_discrete}
use xteam.Prelude.{
  ℕ, zero, suc, ◌+◌, ◌≤◌, ◌<◌, ◌≡◌, refl, ◌∙◌, ◌≢◌, true, false, Option, none, some, List, arith,
  length, length-set, get_or-set_self, get_or-set_ne, length-take, get_or-take,
}
use xteam.Scalar.{Scalar}
use xteam.KdTree.Types.{Memory, Rect, Status, ok, failed, Node, null, node, Tree}
use xteam.KdTree.Rect.{coord, hyperrect_create, extend_at, extend_from, hyperrect_extend}
use xteam.KdTree.Build.{insert_rec, update_rect, insert}
use xteam.KdTree.Order.{AllPos, AllPos-insert_rec, insert_rec-entries}

module _ {R : Type 0} ⦃s : Scalar R⦄ where
  -- Coordinate `j` of a point lies between the sides of the box.
  abbrev pub InSide : Rect R → List R → ℕ → Type 0
  InSide r z j =
      (s.lt (coord z j) (coord r.low j) ≡ false) × (s.lt (coord r.high j) (coord z j) ≡ false)

  abbrev pub IsSized : Rect R → Type 0
  IsSized r = (length r.low ≡ r.dim) × (length r.high ≡ r.dim)

  extend_at-IsSized :
      (pos : List R) (i : ℕ) (r : Rect R)
      → IsSized r
      → IsSized (extend_at pos i r) × ((extend_at pos i r).dim ≡ r.dim)
  unfolding extend_at
  extend_at-IsSized pos i r h =
      ground (arith, length-set r.low i (coord pos i), length-set r.high i (coord pos i))

  extend_at-InSide :
      (pos z : List R) (i j : ℕ) (r : Rect R)
      → IsSized r
      → i < r.dim
      → InSide r z j
      → InSide (extend_at pos i r) z j
  unfolding extend_at
  extend_at-InSide pos z i j r h lt b = elim (ℕ_discrete i j) [
    | yes e ↦ ground (
      arith,
      get_or-set_self r.low i (coord pos i) s.origin,
      get_or-set_self r.high i (coord pos i) s.origin,
      s.lt_trans (coord z i) (coord pos i) (coord r.low i),
      s.lt_trans (coord r.high i) (coord pos i) (coord z i),
    )
    | no ne ↦ ground (
      arith,
      get_or-set_ne r.low i j (coord pos i) s.origin,
      get_or-set_ne r.high i j (coord pos i) s.origin,
    )
  ]

  extend_at_self :
      (pos : List R) (i : ℕ) (r : Rect R) → IsSized r → i < r.dim → InSide (extend_at pos i r) pos i
  unfolding extend_at
  extend_at_self pos i r h lt = ground (
    arith,
    get_or-set_self r.low i (coord pos i) s.origin,
    get_or-set_self r.high i (coord pos i) s.origin,
    s.lt_irrefl (coord pos i),
  )

  -- The loop from `i` on keeps the points inside, and takes in the new one.
  extend_from-InSide :
      (n i : ℕ) (pos z : List R) (j : ℕ) (r : Rect R)
      → IsSized r
      → i + n ≡ r.dim
      → InSide r z j
      → InSide (extend_from n i pos r) z j
  unfolding extend_from
  extend_from-InSide zero i pos z j r h e b = b
  extend_from-InSide (suc n) i pos z j r h e b =
      let sized = extend_at-IsSized pos i r h in
      extend_from-InSide n (i + 1) pos z j (extend_at pos i r) sized.0 (omega arith)
        (extend_at-InSide pos z i j r h (omega arith) b)

  extend_from_self :
      (n i : ℕ) (pos : List R) (j : ℕ) (r : Rect R)
      → IsSized r
      → i + n ≡ r.dim
      → i ≤ j
      → j < r.dim
      → InSide (extend_from n i pos r) pos j
  unfolding extend_from
  extend_from_self zero i pos j r h e lo hi = absurd (omega arith)
  extend_from_self (suc n) i pos j r h e lo hi =
      let sized = extend_at-IsSized pos i r h in
      elim (ℕ_discrete i j) [
        | yes q ↦
            extend_from-InSide n (i + 1) pos pos j (extend_at pos i r) sized.0 (omega arith)
              (rw (← q) (extend_at_self pos i r h (omega arith)))
        | no q ↦
            extend_from_self n (i + 1) pos j (extend_at pos i r) sized.0 (omega arith) (omega arith)
              (omega arith)
      ]

  extend_from-IsSized :
      (n i : ℕ) (pos : List R) (r : Rect R)
      → IsSized r
      → IsSized (extend_from n i pos r) × ((extend_from n i pos r).dim ≡ r.dim)
  unfolding extend_from
  extend_from-IsSized zero i pos r h = (h, refl)
  extend_from-IsSized (suc n) i pos r h =
      let sized = extend_at-IsSized pos i r h in
      let (a, b) = extend_from-IsSized n (i + 1) pos (extend_at pos i r) sized.0 in (a, b ∙ sized.1)

  -- Every coordinate lies between the sides.
  abbrev pub InBox : Rect R → List R → Type 0
  InBox r z = (j : ℕ) → j < r.dim → InSide r z j

  pub hyperrect_create-InBox :
      (dim : ℕ) (pos : List R) (m : Memory) (r : Rect R)
      → length pos ≡ dim
      → (hyperrect_create dim pos pos m).0 ≡ some r
      → IsSized r × (r.dim ≡ dim) × InBox r pos
  unfolding hyperrect_create
  hyperrect_create-InBox dim pos m r n h = (
    ground (arith, length-take dim pos),
    ground arith,
    λ j lt. ground (arith, get_or-take dim j pos s.origin, s.lt_irrefl (coord pos j)),
  )

module _ {R D : Type 0} ⦃s : Scalar R⦄ where
  -- The box holds the points of the tree; a tree without a box has no point.
  abbrev BoxHolds : ℕ → Node R D → Option (Rect R) → Type 0
  BoxHolds dim root none = root ≡ null
  BoxHolds dim root (some r) = IsSized r × (r.dim ≡ dim) × AllPos (InBox r) root

  abbrev pub IsBoxed : Tree R D → Type 0
  IsBoxed t = BoxHolds t.dim t.root t.rect

  AllPos-imp :
      {P Q : List R → Type 0}
      → ((q : List R) → P q → Q q)
      → (t : Node R D) → AllPos P t
      → AllPos Q t
  AllPos-imp f null a = tt
  AllPos-imp f (node q i x l r) a = (f q a.0, AllPos-imp f l a.1, AllPos-imp f r a.2)

  extended_holds :
      (root : Node R D) (dim a : ℕ) (r : Rect R) (pos : List R) (item : D) (mem : Memory)
      → length pos ≡ dim
      → BoxHolds dim root (some r)
      → BoxHolds dim (insert_rec root pos item a dim mem).1 (some (hyperrect_extend r pos))
  unfolding hyperrect_extend
  extended_holds root dim a r pos item mem n h =
      let (sized, same) = extend_from-IsSized r.dim 0 pos r h.0 in
      (
        sized,
        same ∙ h.1,
        AllPos-insert_rec (InBox (extend_from r.dim 0 pos r)) root pos item a dim mem n
            (λ j lt. extend_from_self r.dim 0 pos j r h.0 (omega arith) (omega arith) (omega arith))
            (AllPos-imp
              (λ z b j lt.
                extend_from-InSide r.dim 0 pos z j r h.0 (omega arith) (b j (omega arith)))
              root h.2),
      )

  created_holds :
      (root : Node R D) (dim a : ℕ) (r : Rect R) (pos : List R) (item : D) (mem m : Memory)
      → length pos ≡ dim
      → root ≡ null
      → (hyperrect_create dim pos pos m).0 ≡ some r
      → BoxHolds dim (insert_rec root pos item a dim mem).1 (some r)
  created_holds root dim a r pos item mem m n h e =
      let (sized, same, inside) = hyperrect_create-InBox dim pos m r n e in
      (sized, same, AllPos-insert_rec (InBox r) root pos item a dim mem n inside (rw h tt))

  updated_holds :
      (root : Node R D) (dim a : ℕ) (box : Option (Rect R)) (pos : List R) (item : D)
      (mem m : Memory) (r : Rect R)
      → length pos ≡ dim
      → BoxHolds dim root box
      → (update_rect dim box pos m).0 ≡ some r
      → BoxHolds dim (insert_rec root pos item a dim mem).1 (some r)
  unfolding update_rect
  updated_holds root dim a none pos item mem m r n h e =
      created_holds root dim a r pos item mem m n h e
  updated_holds root dim a (some r0) pos item mem m r n h e =
      subst (λ b. BoxHolds dim (insert_rec root pos item a dim mem).1 (some b))
        (some-injective _ _ e) (extended_holds root dim a r0 pos item mem n h)

  finish :
      (t : Tree R D) (st : Status) (root' : Node R D) (box' : Option (Rect R)) (m m' : Memory)
      → IsBoxed t
      → (st ≡ failed → root' ≡ t.root)
      → ((r : Rect R) → box' ≡ some r → BoxHolds t.dim root' (some r))
      → let end : Status × Tree R D × Memory = elim st [
        | failed ↦ (failed, record t { root = root' }, m)
        | ok ↦ (ok, record t { root = root'; rect = box' }, m')
      ] in
        (end.0 ≡ ok → end.1.rect ≢ none) → IsBoxed end.1
  finish t failed root' box' m m' h same holds boxed = rw (same refl) h
  finish t ok root' none m m' h same holds boxed = absurd (boxed refl refl)
  finish t ok root' (some r) m m' h same holds boxed = holds r refl

  -- Insertion keeps the box around the points, if the point has as many coordinates as the tree has
  -- dimensions and memory for the box is had where there is none yet.
  pub insert-IsBoxed :
      (t : Tree R D) (pos : List R) (item : D) (mem : Memory)
      → length pos ≡ t.dim
      → IsBoxed t
      → ((insert t pos item mem).0 ≡ ok → (insert t pos item mem).1.rect ≢ none)
      → IsBoxed (insert t pos item mem).1
  unfolding insert
  insert-IsBoxed t pos item mem n h boxed =
      let (st, root', m) = insert_rec t.root pos item 0 t.dim mem in
      let (box', m') = update_rect t.dim t.rect pos m in
      finish t st root' box' m m' h (insert_rec-entries (λ _. true) t.root pos item 0 t.dim mem n).1
        (λ r e. updated_holds t.root t.dim 0 t.rect pos item mem m r n h e) boxed
