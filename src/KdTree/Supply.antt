-- ===== src/KdTree/Supply.antt =====
-- kdtree.c: a search does not fail while there is memory for a result per node.
use mathlib.Core.Bool.{cond}
use xteam.Prelude.{
  ℕ, suc, ◌+◌, ◌≤◌, ◌<◌, ◌≡◌, refl, Bool, true, false, Option, none, some, List, [], ◌∷◌, arith,
  if◌then◌else◌, length, length-append,
}
use xteam.Scalar.{Scalar, le}
use xteam.KdTree.Types.{Memory, malloc, ok, Node, null, node, Entry, ResNode, Pool, alloc_resnode}
use xteam.KdTree.Rect.{coord}
use xteam.KdTree.Results.{rlist_insert}
use xteam.KdTree.Search.{dist_from, Search, descend, visit, find_nearest}
use xteam.KdTree.Order.{entries}
use xteam.KdTree.Nearest.{cond_sum}

-- How many calls of `malloc` succeed before one fails.
abbrev pub leading : Memory → ℕ
leading [] = 0
leading (true ∷ m) = suc (leading m)
leading (false ∷ m) = 0

-- How many result nodes can be had.
abbrev pub supply : Pool → ℕ
supply p = p.free_nodes + leading p.memory

pub malloc-leading :
    (m : Memory) → 0 < leading m → ((malloc m).0 ≡ true) × (leading (malloc m).1 + 1 ≡ leading m)
unfolding malloc
malloc-leading [] h = absurd (omega arith)
malloc-leading (true ∷ m) h = (refl, omega arith)
malloc-leading (false ∷ m) h = absurd (omega arith)

-- An allocation that the supply covers succeeds, and takes one.
pub alloc_resnode-supply :
    (p : Pool)
    → 0 < supply p
    → ((alloc_resnode p).0 ≡ true) × (supply (alloc_resnode p).1 + 1 ≡ supply p)
unfolding alloc_resnode
alloc_resnode-supply p h = ground (arith, malloc-leading p.memory)

abbrev pub OnOk : Option ℕ → (ℕ → Type 0) → Type 0
OnOk none Q = ⊥
OnOk (some k) Q = Q k

module _ {R D : Type 0} where
  -- With a supply of `n` the search succeeds, and uses as much as it returns.
  abbrev pub Succeeds : ℕ → Search R D → Type 0
  Succeeds n f =
      (l : List (ResNode R D)) (p : Pool)
      → n ≤ supply p
      → OnOk (f l p).0 (λ k. (k ≤ n) × (supply (f l p).2 + k ≡ supply p))

  Succeeds-cond :
      (t : Bool) (f g : Search R D) (a b : ℕ)
      → Succeeds a f
      → Succeeds b g
      → Succeeds (cond t a b) (cond t f g)
  Succeeds-cond true f g a b hf hg = hf
  Succeeds-cond false f g a b hf hg = hg

  descend-Succeeds :
      (near far : Search R D) (wide : Bool) (added a b : ℕ) (l : List (ResNode R D)) (p : Pool)
      → Succeeds a near
      → Succeeds b far
      → a + b ≤ supply p
      → OnOk (descend near far wide added l p).0 (λ k.
        (k ≤ added + a + b) × (supply (descend near far wide added l p).2 + k ≡ supply p + added))
  unfolding descend
  descend-Succeeds near far wide added a b l p hn hf h =
      ground (arith, hn l p, hf (near l p).1 (near l p).2)

module _ {R D : Type 0} ⦃s : Scalar R⦄ where
  rlist_insert-supply :
      (l : List (ResNode R D)) (e : Entry R D) (d : R) (p : Pool)
      → 0 < supply p
      → ((rlist_insert l e d p).0 ≡ ok) × (supply (rlist_insert l e d p).2 + 1 ≡ supply p)
  unfolding rlist_insert
  rlist_insert-supply l e d p h = ground (arith, alloc_resnode-supply p)

  visit-Succeeds :
      (e : Entry R D) (dist range : R) (ordered : Bool) (dx : R) (near far : Search R D) (a b : ℕ)
      → Succeeds a near
      → Succeeds b far
      → Succeeds (1 + a + b) (visit e dist range ordered dx near far)
  unfolding visit
  visit-Succeeds e dist range ordered dx near far a b hn hf l p h =
      let wide = s.lt (s.abs dx) range in
      let d = if ordered then dist else s.minus_one in
      let r = rlist_insert l e d p in
      ground (
        arith,
        rlist_insert-supply l e d p,
        descend-Succeeds near far wide 0 a b l p hn hf,
        descend-Succeeds near far wide 1 a b r.1 r.2 hn hf,
      )

  -- A search succeeds if a result node can be had for every node of the tree; it takes as many as
  -- it reports.
  pub find_nearest-Succeeds :
      (t : Node R D) (pos : List R) (range : R) (ordered : Bool) (dim : ℕ)
      → Succeeds (length (entries t)) (find_nearest t pos range ordered dim)
  unfolding find_nearest
  find_nearest-Succeeds null pos range ordered dim list pool h = omega arith
  find_nearest-Succeeds (node q i x l r) pos range ordered dim list pool h =
      let dx = s.sub (coord pos i) (coord q i) in
      let t = le dx s.origin in
      let fl : Search R D = find_nearest l pos range ordered dim in
      let fr : Search R D = find_nearest r pos range ordered dim in
      let nl = length (entries l) in
      let nr = length (entries r) in
      let hl = find_nearest-Succeeds l pos range ordered dim in
      let hr = find_nearest-Succeeds r pos range ordered dim in
      ground (
        arith,
        visit-Succeeds (record { pos = q; item = x }) (dist_from dim 0 q pos s.origin) range ordered
            dx (cond t fl fr) (cond t fr fl) (cond t nl nr) (cond t nr nl)
            (Succeeds-cond t fl fr nl nr hl hr) (Succeeds-cond t fr fl nr nl hr hl) list pool,
        cond_sum t nl nr,
        length-append (entries l) (entries r),
      )
