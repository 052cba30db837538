-- ===== src/KdTree/Sorted.antt =====
-- kdtree.c: an ordered search lists its results by distance.
use mathlib.Core.Bool.{cond}
use xteam.Prelude.{ℕ, ◌≡◌, refl, inl, inr, Bool, true, false, List, [], ◌∷◌, arith, Bool-cases, All}
use xteam.Scalar.{Scalar, le}
use xteam.KdTree.Types.{Node, null, node, Entry, ResNode, Pool, alloc_resnode}
use xteam.KdTree.Rect.{coord}
use xteam.KdTree.Results.{insert_sorted, rlist_insert}
use xteam.KdTree.Search.{dist_from, Search, descend, visit, find_nearest}
use xteam.KdTree.Nearest.{le-dist_from}

module _ {R D : Type 0} ⦃s : Scalar R⦄ where
  -- The squared distances do not fall along the list.
  abbrev pub IsSorted : List (ResNode R D) → Type 0
  IsSorted [] = Unit
  IsSorted (n ∷ l) = All (λ r. s.lt r.dist_sq n.dist_sq ≡ false) l × IsSorted l

  -- Each result carries the squared distance of its node from the query.
  abbrev pub IsMeasured : ℕ → List R → List (ResNode R D) → Type 0
  IsMeasured dim pos l = All (λ r. r.dist_sq ≡ dist_from dim 0 r.entry.pos pos s.origin) l

  All-insert_sorted :
      (Q : ResNode R D → Type 0) (n : ResNode R D) (l : List (ResNode R D))
      → Q n
      → All Q l
      → All Q (insert_sorted n l)
  unfolding insert_sorted
  All-insert_sorted Q n [] q h = (q, tt)
  All-insert_sorted Q n (r ∷ rs) q h = ground (arith, All-insert_sorted Q n rs q)

  nearer-All :
      (n r : ResNode R D) (l : List (ResNode R D))
      → s.lt r.dist_sq n.dist_sq ≡ false
      → All (λ x. s.lt x.dist_sq r.dist_sq ≡ false) l
      → All (λ x. s.lt x.dist_sq n.dist_sq ≡ false) l
  nearer-All n r [] h a = tt
  nearer-All n r (x ∷ xs) h a =
      (s.le_trans n.dist_sq r.dist_sq x.dist_sq h a.0, nearer-All n r xs h a.1)

  insert_sorted-IsSorted :
      (n : ResNode R D) (l : List (ResNode R D)) → IsSorted l → IsSorted (insert_sorted n l)
  unfolding insert_sorted
  insert_sorted-IsSorted n [] h = (tt, tt)
  insert_sorted-IsSorted n (r ∷ rs) h = ground (
    arith,
    insert_sorted-IsSorted n rs,
    All-insert_sorted (λ x. s.lt x.dist_sq r.dist_sq ≡ false) n rs,
    nearer-All n r rs,
    s.lt_irrefl r.dist_sq,
    s.lt_trans r.dist_sq n.dist_sq r.dist_sq,
  )

  abbrev pub Keeps : (List (ResNode R D) → Type 0) → Search R D → Type 0
  Keeps Q f = (l : List (ResNode R D)) (p : Pool) → Q l → Q (f l p).1

  descend-Keeps :
      (Q : List (ResNode R D) → Type 0) (near far : Search R D) (wide : Bool) (added : ℕ)
      → Keeps Q near
      → Keeps Q far
      → Keeps Q (descend near far wide added)
  unfolding descend
  descend-Keeps Q near far wide added hn hf l p h =
      ground (arith, hn l p, hf (near l p).1 (near l p).2)

  abbrev IsOrderly : ℕ → List R → List (ResNode R D) → Type 0
  IsOrderly dim pos l = IsSorted l × IsMeasured dim pos l

  rlist_insert-IsOrderly :
      (dim : ℕ) (pos : List R) (l : List (ResNode R D)) (e : Entry R D) (p : Pool)
      → IsOrderly dim pos l
      → IsOrderly dim pos (rlist_insert l e (dist_from dim 0 e.pos pos s.origin) p).1
  unfolding rlist_insert
  rlist_insert-IsOrderly dim pos l e p h =
      let d = dist_from dim 0 e.pos pos s.origin in
      let n : ResNode R D = record { entry = e; dist_sq = d } in
      let sorted = insert_sorted-IsSorted n l h.0 in
      let measured =
        All-insert_sorted (λ r. r.dist_sq ≡ dist_from dim 0 r.entry.pos pos s.origin) n l refl
          h.1 in
      elim (Bool-cases (alloc_resnode p).0) [
        | inl e1 ↦
            rw (e1, rlist_insert) (rw (le-dist_from dim 0 e.pos pos s.origin) (sorted, measured))
        | inr e1 ↦ rw (e1, rlist_insert) h
      ]

  visit-IsOrderly :
      (dim : ℕ) (pos : List R) (e : Entry R D) (range dx : R) (near far : Search R D)
      → Keeps (IsOrderly dim pos) near
      → Keeps (IsOrderly dim pos) far
      → Keeps
          (IsOrderly dim pos)
          (visit e (dist_from dim 0 e.pos pos s.origin) range true dx near far)
  unfolding visit
  visit-IsOrderly dim pos e range dx near far hn hf l p h =
      let d = dist_from dim 0 e.pos pos s.origin in
      let wide = s.lt (s.abs dx) range in
      let r = rlist_insert l e d p in
      let below = descend-Keeps (IsOrderly dim pos) near far wide in
      ground
        (arith, rlist_insert-IsOrderly dim pos l e p h, below 0 hn hf l p, below 1 hn hf r.1 r.2)

  Keeps-cond :
      (Q : List (ResNode R D) → Type 0) (t : Bool) (f g : Search R D)
      → Keeps Q f
      → Keeps Q g
      → Keeps Q (cond t f g)
  Keeps-cond Q true f g hf hg = hf
  Keeps-cond Q false f g hf hg = hg

  -- An ordered search keeps the list sorted by squared distance, and each result that it adds
  -- carries the squared distance of its node; also where it fails for want of memory.
  pub find_nearest-IsSorted :
      (t : Node R D) (pos : List R) (range : R) (dim : ℕ) (l : List (ResNode R D)) (p : Pool)
      → IsSorted l × IsMeasured dim pos l
      → let l' = (find_nearest t pos range true dim l p).1 in IsSorted l' × IsMeasured dim pos l'
  unfolding find_nearest
  find_nearest-IsSorted null pos range dim l p h = h
  find_nearest-IsSorted (node q i x left right) pos range dim l p h =
      let dx = s.sub (coord pos i) (coord q i) in
      let t = le dx s.origin in
      let fl : Search R D = find_nearest left pos range true dim in
      let fr : Search R D = find_nearest right pos range true dim in
      let hl = find_nearest-IsSorted left pos range dim in
      let hr = find_nearest-IsSorted right pos range dim in
      visit-IsOrderly dim pos (record { pos = q; item = x }) range dx (cond t fl fr) (cond t fr fl)
        (Keeps-cond (IsOrderly dim pos) t fl fr hl hr)
        (Keeps-cond (IsOrderly dim pos) t fr fl hr hl) l p h
