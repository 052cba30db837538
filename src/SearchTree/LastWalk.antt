-- ===== src/SearchTree/LastWalk.antt =====
-- tree.h: `LastTraverIteration`, which tells a node visited from one still to visit by its address.
use xteam.Prelude.{
  ℕ, suc, ◌+◌, ◌-◌, ◌≤◌, ◌≡◌, refl, sym, ap, ◌∙◌, ◌≢◌, true, false, some, List, [], ◌∷◌, ◌++◌,
  arith, ◌==◌, ◌>>=◌,
}
use xteam.SearchTree.Types.{Tree, null, node, size, last_traver}
use xteam.SearchTree.Iterations.{push_left, last_loop, last_traver_iteration}
use xteam.SearchTree.Walks.{append_nil, prepend, prepend-append, prepend_nil, prepend-one}

module _ {T : Type 0} where
  -- The tree without the addresses.
  abbrev pub objects : Tree (ℕ × T) → Tree T
  objects null = null
  objects (node (a, x) l r) = node x (objects l) (objects r)

  -- No node of the tree stands at the address.
  abbrev pub IsFresh : ℕ → Tree (ℕ × T) → Type 0
  IsFresh p null = Unit
  IsFresh p (node (a, x) l r) = (a ≢ p) × IsFresh p l × IsFresh p r

  abbrev pub IsApart : Tree (ℕ × T) → Tree (ℕ × T) → Type 0
  IsApart null t = Unit
  IsApart (node (a, x) l r) t = IsFresh a t × IsApart l t × IsApart r t

  -- Each node has an address of its own.
  abbrev pub IsPlaced : Tree (ℕ × T) → Type 0
  IsPlaced null = Unit
  IsPlaced (node (a, x) l r) = IsFresh a l × IsFresh a r × IsApart l r × IsPlaced l × IsPlaced r

  -- The rounds that a tree takes.
  rounds : Tree (ℕ × T) → ℕ
  rounds null = 0
  rounds (node p l null) = suc (rounds l)
  rounds (node p l (node q a b)) = suc (rounds l + suc (rounds (node q a b)))

  rounds_le : (t : Tree (ℕ × T)) → rounds t ≤ size (objects t) + size (objects t)
  unfolding rounds
  rounds_le null = omega arith
  rounds_le (node p l null) = omega (arith, rounds_le l)
  rounds_le (node p l (node q a b)) = omega (arith, rounds_le l, rounds_le (node q a b))

  -- What `preVisit` is once the walk has left the tree.
  visited : Tree (ℕ × T) → ℕ → ℕ
  visited null p = p
  visited (node (a, x) l r) p = a

  visited-IsFresh :
      (l r : Tree (ℕ × T)) (p : ℕ) → IsApart l r → IsFresh p r → IsFresh (visited l p) r
  unfolding visited
  visited-IsFresh null r p apart fresh = fresh
  visited-IsFresh (node (a, x) ll lr) r p (here, l_apart, r_apart) fresh = here

  last_loop-descend :
      (a b : ℕ) (x y : T) (l u v : Tree (ℕ × T)) (n : ℕ) (stack : List (Tree (ℕ × T))) (p : ℕ)
      → b ≢ p
      → last_loop (suc n) (node (a, x) l (node (b, y) u v) ∷ stack) p
        ≡ last_loop n (push_left (node (b, y) u v) (node (a, x) l (node (b, y) u v) ∷ stack)) p
  unfolding last_loop
  last_loop-descend a b x y l u v n stack p ne =
      let e : (b == p) ≡ false = ground arith in rw e refl

  last_loop-back :
      (a b : ℕ) (x y : T) (l u v : Tree (ℕ × T)) (n : ℕ) (stack : List (Tree (ℕ × T)))
      → last_loop (suc n) (node (a, x) l (node (b, y) u v) ∷ stack) b
        ≡ (last_loop n stack a >>= λ out. some (x ∷ out))
  unfolding last_loop
  last_loop-back a b x y l u v n stack = let e : (b == b) ≡ true = ground arith in rw e refl

  last_loop_lem :
      (t : Tree (ℕ × T)) (n : ℕ) (stack : List (Tree (ℕ × T))) (p : ℕ)
      → IsPlaced t
      → IsFresh p t
      → last_loop (rounds t + n) (push_left t stack) p
        ≡ prepend (last_traver (objects t)) (last_loop n stack (visited t p))
  unfolding last_loop push_left last_traver rounds visited
  last_loop_lem null n stack p placed fresh =
      let e : 0 + n ≡ n = omega arith in
      ap (λ fuel. last_loop fuel stack p) e ∙ sym (prepend_nil (last_loop n stack p))
  last_loop_lem (node (a, x) l null) n stack p (al, ar, apart, placed_l, placed_r) (ne, fl, fr) =
      let e : suc (rounds l) + n ≡ rounds l + suc n = omega arith in
      let post = last_traver (objects l) in
      let rest = last_loop n stack a in
      ap (λ fuel. last_loop fuel (push_left l (node (a, x) l null ∷ stack)) p) e
      ∙ last_loop_lem l (suc n) (node (a, x) l null ∷ stack) p placed_l fl
      ∙ ap (prepend post) (sym (prepend-one x rest))
      ∙ prepend-append post (x ∷ []) rest
  last_loop_lem (node (a, x) l (node (b, y) u v)) n stack p placed fresh =
      let (al, ar, apart, placed_l, placed_r) = placed in
      let (ne, fl, fr) = fresh in
      let r = node (b, y) u v in
      let t = node (a, x) l r in
      let m = suc (rounds r + suc n) in
      let e : suc (rounds l + suc (rounds r)) + n ≡ rounds l + m = omega arith in
      let (other, fu, fv) = visited-IsFresh l r p apart fr in
      let post = last_traver (objects l) in
      let post' = last_traver (objects r) in
      let rest = last_loop n stack a in
      ap (λ fuel. last_loop fuel (push_left l (t ∷ stack)) p) e
      ∙ last_loop_lem l m (t ∷ stack) p placed_l fl
      ∙ ap (prepend post)
          (last_loop-descend a b x y l u v (rounds r + suc n) stack (visited l p) other)
      ∙ ap (prepend post) (
          last_loop_lem (node (b, y) u v) (suc n) (t ∷ stack) (visited l p) placed_r
            (other, fu, fv))
      ∙ ap (λ o. prepend post (prepend post' o)) (last_loop-back a b x y l u v n stack)
      ∙ ap (λ o. prepend post (prepend post' o)) (sym (prepend-one x rest))
      ∙ ap (prepend post) (prepend-append post' (x ∷ []) rest)
      ∙ prepend-append post (post' ++ x ∷ []) rest

  -- `LastTraverIteration` prints what `LastTraver` prints, where each node has an address of its own that
  -- is not `NULL`, with fuel above twice the number of nodes.
  pub last_traver_iteration_lem :
      (t : Tree (ℕ × T)) (n : ℕ)
      → IsPlaced t
      → IsFresh 0 t
      → last_traver_iteration (size (objects t) + size (objects t) + suc n) t
        ≡ some (last_traver (objects t))
  unfolding last_traver_iteration last_loop
  last_traver_iteration_lem t n placed fresh =
      let m = size (objects t) + size (objects t) - rounds t + n in
      let e : size (objects t) + size (objects t) + suc n ≡ rounds t + suc m =
        omega (arith, rounds_le t) in
      ap (λ fuel. last_loop fuel (push_left t []) 0) e
      ∙ last_loop_lem t (suc m) [] 0 placed fresh
      ∙ ap some (append_nil (last_traver (objects t)))
