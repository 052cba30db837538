-- ===== src/KdTree/Nearest.antt =====
-- kdtree.c: the range search reports the nodes within the range.
use mathlib.Core.Bool.{cond}
use xteam.Prelude.{
  ℕ, zero, suc, ◌+◌, ◌%◌, ◌≤◌, ◌<◌, ◌≡◌, refl, inl, inr, Bool, true, false, ◌&&◌, List, [], ◌∷◌,
  ◌++◌, arith, Bool-cases, count_if, count_if-append,
}
use xteam.Scalar.{Scalar, le}
use xteam.KdTree.Types.{Node, null, node, Entry}
use xteam.KdTree.Rect.{coord}
use xteam.KdTree.Search.{dist_from, Search, find_nearest}
use xteam.KdTree.Order.{entries, AllPos, IsKd}
use xteam.KdTree.Reports.{Reports, Reports-null, Reports-cond, visit-Reports}

module _ {R : Type 0} ⦃s : Scalar R⦄ where
  pub le-dist_from : (n i : ℕ) (p q : List R) (acc : R) → le acc (dist_from n i p q acc) ≡ true
  unfolding dist_from
  le-dist_from zero i p q acc = ground (arith, s.lt_irrefl acc)
  le-dist_from (suc n) i p q acc =
      let t = s.sub (coord p i) (coord q i) in
      let acc' = s.add acc (s.mul t t) in
      ground (
        arith,
        le-dist_from n (i + 1) p q acc',
        s.le-add_right acc (s.mul t t),
        s.mul_self_nonneg t,
        s.le_trans acc acc' (dist_from n (i + 1) p q acc'),
      )

  -- No coordinate is further away than the point.
  pub mul_self-le-dist_from :
      (n i j : ℕ) (p q : List R) (acc : R)
      → i ≤ j
      → j < i + n
      → le s.origin acc ≡ true
      → let t = s.sub (coord p j) (coord q j) in le (s.mul t t) (dist_from n i p q acc) ≡ true
  unfolding dist_from
  mul_self-le-dist_from zero i j p q acc h k z = absurd (omega arith)
  mul_self-le-dist_from (suc n) i j p q acc h k z =
      let t = s.sub (coord p i) (coord q i) in
      let acc' = s.add acc (s.mul t t) in
      ground (
        arith,
        mul_self-le-dist_from n (i + 1) j p q acc',
        le-dist_from n (i + 1) p q acc',
        s.le-add_right acc (s.mul t t),
        s.le-add_left acc (s.mul t t),
        s.mul_self_nonneg t,
        s.le_trans s.origin acc acc',
        s.le_trans (s.mul t t) acc' (dist_from n (i + 1) p q acc'),
      )

  -- Beyond a plane out of range, on the side away from the query, one coordinate alone is as far
  -- as the range. `x` is the query's coordinate, `y` the plane's, `z` the point's.
  beyond_plane :
      (x y z range : R)
      → le s.origin range ≡ true
      → s.lt (s.abs (s.sub x y)) range ≡ false
      → (le (s.sub x y) s.origin ≡ true → s.lt z y ≡ false)
      → (le (s.sub x y) s.origin ≡ false → s.lt z y ≡ true)
      → let t = s.sub z x in le (s.mul range range) (s.mul t t) ≡ true
  beyond_plane x y z range pos far right left = elim (Bool-cases (s.lt s.origin (s.sub x y))) [
    | inl above ↦ ground (
      arith,
      s.lt_irrefl s.origin,
      s.lt_trans s.origin (s.sub x y) s.origin,
      s.lt_irrefl y,
      s.lt_trans y z y,
      s.abs_of_nonneg (s.sub x y),
      s.sub_anti z y x,
      s.le_trans range (s.sub x y) (s.sub x z),
      s.mul_self_mono range (s.sub x z),
      s.mul_self_swap x z,
    )
    | inr below ↦ ground (
      arith,
      s.sub_swap x y,
      s.abs_swap x y,
      s.abs_of_nonneg (s.sub y x),
      s.sub_mono y z x,
      s.le_trans range (s.sub y x) (s.sub z x),
      s.mul_self_mono range (s.sub z x),
    )
  ]

module _ {R D : Type 0} ⦃s : Scalar R⦄ where
  -- `P`, and strictly nearer than the range; `P`, and within the range.
  abbrev pub inside : (Entry R D → Bool) → ℕ → List R → R → Entry R D → Bool
  inside P dim pos range e = P e && s.lt (dist_from dim 0 e.pos pos s.origin) (s.mul range range)

  abbrev pub within : (Entry R D → Bool) → ℕ → List R → R → Entry R D → Bool
  within P dim pos range e = P e && le (dist_from dim 0 e.pos pos s.origin) (s.mul range range)

  -- None of the nodes beyond a plane out of range is inside the range.
  none_beyond :
      (P : Entry R D → Bool) (dim : ℕ) (pos : List R) (range : R) (t : Node R D)
      → AllPos (λ q. s.lt (dist_from dim 0 q pos s.origin) (s.mul range range) ≡ false) t
      → count_if (inside P dim pos range) (entries t) ≡ 0
  none_beyond P dim pos range null h = refl
  none_beyond P dim pos range (node q i x l r) h = ground (
    arith,
    none_beyond P dim pos range l,
    none_beyond P dim pos range r,
    count_if-append (inside P dim pos range) (entries l) (entries r),
  )

AllPos-imp :
    {R D : Type 0} {P Q : List R → Type 0}
    → ((q : List R) → P q → Q q)
    → (t : Node R D) → AllPos P t
    → AllPos Q t
AllPos-imp f null a = tt
AllPos-imp f (node q i x l r) a = (f q a.0, AllPos-imp f l a.1, AllPos-imp f r a.2)

module _ {R : Type 0} ⦃s : Scalar R⦄ where
  beyond_range :
      (dim i : ℕ) (q pos z : List R) (range : R)
      → i < dim
      → le s.origin range ≡ true
      → (let dx = s.sub (coord pos i) (coord q i) in s.lt (s.abs dx) range ≡ false)
      → (let dx = s.sub (coord pos i) (coord q i) in
          (le dx s.origin ≡ true → s.lt (coord z i) (coord q i) ≡ false)
          × (le dx s.origin ≡ false → s.lt (coord z i) (coord q i) ≡ true))
      → s.lt (dist_from dim 0 z pos s.origin) (s.mul range range) ≡ false
  beyond_range dim i q pos z range lt nonneg far side =
      let t = s.sub (coord z i) (coord pos i) in
      ground (
        arith,
        beyond_plane (coord pos i) (coord q i) (coord z i) range nonneg far side.0 side.1,
        mul_self-le-dist_from dim 0 i z pos s.origin,
        s.lt_irrefl s.origin,
        s.le_trans (s.mul range range) (s.mul t t) (dist_from dim 0 z pos s.origin),
      )

  far_side :
      {D : Type 0} (P : Entry R D → Bool) (dim i : ℕ) (q pos : List R) (range : R) (l r : Node R D)
      → i < dim
      → le s.origin range ≡ true
      → (let dx = s.sub (coord pos i) (coord q i) in s.lt (s.abs dx) range ≡ false)
      → AllPos (λ z. s.lt (coord z i) (coord q i) ≡ true) l
      → AllPos (λ z. s.lt (coord z i) (coord q i) ≡ false) r
      → let dx = s.sub (coord pos i) (coord q i) in
        cond
          (le dx s.origin)
          (count_if (inside P dim pos range) (entries r))
          (count_if (inside P dim pos range) (entries l))
        ≡ 0
  far_side P dim i q pos range l r lt nonneg far hl hr =
      elim (Bool-cases (le (s.sub (coord pos i) (coord q i)) s.origin)) [
        | inl e ↦
            rw (e, cond)
              (none_beyond P dim pos range r (
                AllPos-imp
                  (λ z h. beyond_range dim i q pos z range lt nonneg far ((λ _. h), (λ f. cc))) r
                  hr))
        | inr e ↦
            rw (e, cond)
              (none_beyond P dim pos range l (
                AllPos-imp
                  (λ z h. beyond_range dim i q pos z range lt nonneg far ((λ f. cc), (λ _. h))) l
                  hl))
      ]

pub cond_sum : (t : Bool) (m n : ℕ) → cond t m n + cond t n m ≡ m + n
cond_sum true m n = omega arith
cond_sum false m n = omega arith

count_if-cons :
    {A : Type 0} (p : A → Bool) (x : A) (xs : List A)
    → count_if p (x ∷ xs) ≡ count_if p (x ∷ []) + count_if p xs
count_if-cons p x xs = ground arith

module _ {R D : Type 0} where
  Reports-eq :
      (P : Entry R D → Bool) (lo lo' hi hi' : ℕ) (f : Search R D)
      → lo ≡ lo'
      → hi ≡ hi'
      → Reports P lo hi f
      → Reports P lo' hi' f
  Reports-eq P lo lo' hi hi' f e e' h = rw (← e, ← e') h

module _ {R D : Type 0} ⦃s : Scalar R⦄ where
  -- On an ordered tree, and for a range that is not negative, a search that succeeds reports every
  -- node strictly inside the range exactly once, no node outside it, and those at exactly the
  -- range at most once: of the nodes that pass any test `P`, the number reported lies between
  -- those inside and those within. It returns the number of nodes that it adds to the list.
  pub find_nearest-Reports :
      (P : Entry R D → Bool) (t : Node R D) (a dim : ℕ) (pos : List R) (range : R) (ordered : Bool)
      → a < dim
      → IsKd a dim t
      → le s.origin range ≡ true
      → Reports P
          (count_if (inside P dim pos range) (entries t))
          (count_if (within P dim pos range) (entries t))
          (find_nearest t pos range ordered dim)
  unfolding find_nearest
  find_nearest-Reports P null a dim pos range ordered lt k nonneg list pool =
      Reports-null P list pool
  find_nearest-Reports P (node q i x l r) a dim pos range ordered lt k nonneg list pool =
      let t = le (s.sub (coord pos i) (coord q i)) s.origin in
      let b = (a + 1) % dim in
      let e : Entry R D = record { pos = q; item = x } in
      let in_l = count_if (inside P dim pos range) (entries l) in
      let in_r = count_if (inside P dim pos range) (entries r) in
      let to_l = count_if (within P dim pos range) (entries l) in
      let to_r = count_if (within P dim pos range) (entries r) in
      let fl : Search R D = find_nearest l pos range ordered dim in
      let fr : Search R D = find_nearest r pos range ordered dim in
      let go_l = find_nearest-Reports P l b dim pos range ordered (omega arith) k.4 nonneg in
      let go_r = find_nearest-Reports P r b dim pos range ordered (omega arith) k.5 nonneg in
      let d = dist_from dim 0 q pos s.origin in
      let here = count_if (inside P dim pos range) (e ∷ []) in
      let here' = count_if (within P dim pos range) (e ∷ []) in
      let go =
        visit-Reports P e d range ordered (s.sub (coord pos i) (coord q i)) (cond t fl fr)
          (cond t fr fl) (cond t in_l in_r) (cond t to_l to_r) (cond t in_r in_l) (cond t to_r to_l)
          here here' (Reports-cond P t fl fr in_l to_l in_r to_r go_l go_r)
          (Reports-cond P t fr fl in_r to_r in_l to_l go_r go_l)
          (λ far. far_side P dim i q pos range l r (ground (arith, k.0)) nonneg far k.2 k.3)
          (λ h. ground arith)
          (λ h. ground (arith, s.lt_irrefl d, s.lt_trans d (s.mul range range) d)) in
      Reports-eq P (here + (cond t in_l in_r + cond t in_r in_l)) _
        (here' + (cond t to_l to_r + cond t to_r to_l)) _
        (find_nearest (node q i x l r) pos range ordered dim)
        (omega (
          arith,
          cond_sum t in_l in_r,
          count_if-append (inside P dim pos range) (entries l) (entries r),
          count_if-cons (inside P dim pos range) e (entries l ++ entries r),
        ))
        (omega (
          arith,
          cond_sum t to_l to_r,
          count_if-append (within P dim pos range) (entries l) (entries r),
          count_if-cons (within P dim pos range) e (entries l ++ entries r),
        ))
        go list pool
